-- ===== src/Transfer/Copy/Calls.antt =====
-- The attempts of a call of the transfer service.
use tmp_cf_ytb_admin.Base.{
  ℕ, zero, suc, ◌+◌, ◌≤◌, ◌<◌, ◌≡◌, ◌≢◌, refl, sym, ap, ◌∙◌, subst, String, str_eq, eq_iff, Bool,
  true, false, not, ◌==◌, ==_iff, arith, if◌then◌else◌, Bool-cases, inl, inr, ◌⊎◌,
}
use tmp_cf_ytb_admin.Transfer.Copy.{
  Body, no_json, no_etag, with_etag, Answer, unreachable, answered, CallResult, got, interrupted,
  not_built, etag_missing, call_failed, bad_status, read_body, read_answer, Line,
  wait_for_transfer_retry, after_answer, attempts_from, service_attempts, call_transfer_service,
}

-- Attempt `k` is answered with an etag, and no attempt from `i` on before it is answered.
pub record Answers (l : Line) (e : String) (i k : ℕ) : Type 0 where
  pub accepted : l.answer k ≡ answered 200 (with_etag e)
  pub not_empty : e ≢ ""
  pub lost : (j : ℕ) → i ≤ j → j < k → l.answer j ≡ unreachable

read_body-got : (b : Body) (e : String) → read_body b ≡ got e → (b ≡ with_etag e) × (e ≢ "")
read_body-got no_json e h = cc
read_body-got no_etag e h = cc
read_body-got (with_etag d) e h = elim (Bool-cases (str_eq d "")) [
  | inl empty ↦ absurd (missing e (sym (empty_body empty) ∙ h))
  | inr some' ↦
      let same : d ≡ e = inside d e (sym (full_body some') ∙ h) in
      (ap with_etag same, λ none'. absurd (differ (sym some' ∙ (eq_iff d "").1 (same ∙ none'))))
]
  where
    empty_body : str_eq d "" ≡ true → read_body (with_etag d) ≡ etag_missing
    empty_body x = ap (λ b. if b then etag_missing else got d) x

    full_body : str_eq d "" ≡ false → read_body (with_etag d) ≡ got d
    full_body x = ap (λ b. if b then etag_missing else got d) x

    missing : (a : String) → etag_missing ≢ got a
    missing a x = cc

    inside : (a b : String) → got a ≡ got b → a ≡ b
    inside a b x = cc

    differ : ◌≢◌ {A = Bool} false true
    differ x = cc

read_answer-got :
    (status : ℕ) (b : Body) (e : String)
    → read_answer status b ≡ got e
    → (answered status b ≡ answered 200 (with_etag e)) × (e ≢ "")
read_answer-got status b e h = elim (Bool-cases (status == 200)) [
  | inl ok ↦
      let found =
        read_body-got b e (sym (ap (λ x. if x then read_body b else bad_status status) ok) ∙ h) in
      (λ k. answered ((==_iff status 200).0 ok k) (found.0 k), found.1)
  | inr bad ↦
      absurd (refused (sym (ap (λ x. if x then read_body b else bad_status status) bad) ∙ h))
]
  where
    refused : bad_status status ≢ got e
    refused x = cc

-- A guarded attempt with an etag was made.
sent-got :
    (a b : Bool) (i : ℕ) (sent : CallResult × ℕ) (e : String)
    → (if a then (interrupted, i) else if b then (not_built, i) else sent).0 ≡ got e
    → (if a then (interrupted, i) else if b then (not_built, i) else sent) ≡ sent
sent-got true b i sent e h = cc
sent-got false true i sent e h = cc
sent-got false false i sent e h = refl

Answer-cases :
    (a : Answer) → (a ≡ unreachable) ⊎ ((status : ℕ) × (b : Body) × (a ≡ answered status b))
Answer-cases unreachable = inl refl
Answer-cases (answered status b) = inr (status, b, refl)

-- The outcome of attempts from `i` on came from an attempt that was answered with the etag.
abbrev pub Sent : Line → String → ℕ → ℕ → CallResult × ℕ → Type 0
Sent l e i left out = (k : ℕ) × (i ≤ k) × (k < i + left) × (out.1 ≡ k + 1) × Answers l e i k

-- After an attempt that was lost, only the next one can have brought the etag.
lost-got :
    (a b : Bool) (i : ℕ) (next : CallResult × ℕ) (e : String)
    → (if a then (call_failed, i + 1) else if not b then (interrupted, i + 1) else next).0 ≡ got e
    → (if a then (call_failed, i + 1) else if not b then (interrupted, i + 1) else next) ≡ next
lost-got true b i next e h = cc
lost-got false true i next e h = refl
lost-got false false i next e h = cc

later :
    (l : Line) (e : String) (i left : ℕ) (out : CallResult × ℕ)
    → l.answer i ≡ unreachable
    → Sent l e (i + 1) left out
    → Sent l e i (suc left) out
later l e i left out lost (k, lo, hi, sent, found) = (
  k,
  omega (arith, lo),
  omega (arith, hi),
  sent,
  record {
    accepted = found.accepted;
    not_empty = found.not_empty;
    lost = λ j from below. elim (Bool-cases (j == i)) [
      | inl same ↦ ap l.answer ((==_iff j i).0 same) ∙ lost
      | inr other ↦ found.lost j (ground (arith, from, other)) below
    ];
  },
)

attempts_from-got :
    (l : Line) (e : String) (i left : ℕ)
    → (attempts_from l i left).0 ≡ got e
    → Sent l e i left (attempts_from l i left)
unfolding attempts_from
attempts_from-got l e i zero h = cc
attempts_from-got l e i (suc left) h =
    let next = attempts_from l (i + 1) left in
    let made =
      sent-got (l.done_before i) (not l.is_built) i (after_answer l i left next (l.answer i)) e h in
    let inner : (after_answer l i left next (l.answer i)).0 ≡ got e =
      sym (ap (λ o. o.0) made) ∙ h in
    elim (Answer-cases (l.answer i)) [
      | inl lost ↦
          let same : after_answer l i left next (l.answer i)
              ≡ after_answer l i left next unreachable =
            ap (after_answer l i left next) lost in
          let inner' = sym (ap (λ o. o.0) same) ∙ inner in
          let again = lost-got (left == 0) (wait_for_transfer_retry l (i + 1)) i next e inner' in
          subst {A = CallResult × ℕ} (Sent l e i (suc left)) (sym (made ∙ same ∙ again)) (
            later l e i left next lost
              (attempts_from-got l e (i + 1) left (sym (ap (λ o. o.0) again) ∙ inner')))
      | inr (status, b, reply) ↦
          let same : after_answer l i left next (l.answer i) ≡ (read_answer status b, i + 1) =
            ap (after_answer l i left next) reply in
          let read = read_answer-got status b e (sym (ap (λ o. o.0) same) ∙ inner) in
          subst {A = CallResult × ℕ} (Sent l e i (suc left)) (sym (made ∙ same)) (
            i,
            omega arith,
            omega arith,
            refl,
            record {
              accepted = reply ∙ read.0;
              not_empty = read.1;
              lost = λ j from below. absurd (omega (arith, from, below));
            },
          )
    ]

-- A call that brings an etag brings the one of its last request: this was answered with status 200
-- and a JSON body with that etag, which is not empty, every request before it was lost, and there
-- were at most as many requests as the setting allows, or one.
pub call_transfer_service-got :
    (transfer_service_retries : ℕ) (l : Line) (e : String)
    → (call_transfer_service transfer_service_retries l).0 ≡ got e
    → Sent l e 0
        (service_attempts transfer_service_retries)
        (call_transfer_service transfer_service_retries l)
unfolding call_transfer_service
call_transfer_service-got retries l e h = attempts_from-got l e 0 (service_attempts retries) h
