-- ===== src/Transfer/Copy/Attempts.antt =====
-- The attempts of a call of the transfer service that nothing interrupts.
use tmp_cf_ytb_admin.Base.{
  ℕ, zero, suc, ◌+◌, ◌≤◌, ◌<◌, ◌≡◌, ap, ◌∙◌, true, false, not, ◌==◌, ==_iff, arith, if◌then◌else◌,
  Bool-cases, inl, inr, if_false,
}
use tmp_cf_ytb_admin.Transfer.Copy.{
  Body, unreachable, answered, CallResult, interrupted, not_built, call_failed, read_answer, Line,
  wait_for_transfer_retry, guarded, after_answer, attempts_from, service_attempts,
  call_transfer_service,
}

-- The context is never done and the request can be built.
pub record IsQuiet (l : Line) : Type 0 where
  pub before : (i : ℕ) → l.done_before i ≡ false
  pub after : (i : ℕ) → l.done_after i ≡ false
  pub built : l.is_built ≡ true

guarded-quiet : (l : Line) (i : ℕ) (sent : CallResult × ℕ) → IsQuiet l → guarded l i sent ≡ sent
guarded-quiet l i sent q =
    if_false {b = l.done_before i} (interrupted, i) _ (q.before i)
    ∙ if_false {b = not l.is_built} (not_built, i) sent (ap not q.built)

after_answer-quiet :
    (l : Line) (i left : ℕ) (next : CallResult × ℕ)
    → IsQuiet l
    → after_answer l i left next unreachable ≡ (if left == 0 then (call_failed, i + 1) else next)
after_answer-quiet l i left next q =
    ap (λ r. if left == 0 then (call_failed, i + 1) else r)
      (if_false {b = not (wait_for_transfer_retry l (i + 1))} (interrupted, i + 1) next
        (ap not waits))
  where
    waits : wait_for_transfer_retry l (i + 1) ≡ true
    waits =
        if_false {b = i + 1 == 0} true (not (l.done_after (i + 1))) (ground arith)
        ∙ ap not (q.after (i + 1))

attempts_from-answered :
    (l : Line) (i left k status : ℕ) (b : Body)
    → IsQuiet l
    → i ≤ k
    → k < i + left
    → ((j : ℕ) → i ≤ j → j < k → l.answer j ≡ unreachable)
    → l.answer k ≡ answered status b
    → attempts_from l i left ≡ (read_answer status b, k + 1)
unfolding attempts_from
attempts_from-answered l i zero k status b q lo hi lost reply = absurd (omega (arith, lo, hi))
attempts_from-answered l i (suc left) k status b q lo hi lost reply =
    let next = attempts_from l (i + 1) left in
    guarded-quiet l i (after_answer l i left next (l.answer i)) q ∙ elim (Bool-cases (i == k)) [
      | inl here ↦
          let same : i ≡ k = (==_iff i k).0 here in
          ap (after_answer l i left next) (ap l.answer same ∙ reply)
          ∙ (λ x. (read_answer status b, same x + 1))
      | inr later' ↦
          let before : i < k = ground (arith, later', lo) in
          ap (after_answer l i left next) (lost i (omega arith) before)
          ∙ after_answer-quiet l i left next q
          ∙ if_false {b = left == 0} (call_failed, i + 1) next (ground (arith, before, hi))
          ∙ attempts_from-answered l (i + 1) left k status b q (omega (arith, before))
              (omega (arith, hi)) (λ j from below. lost j (omega (arith, from)) below) reply
    ]

attempts_from-lost :
    (l : Line) (i left : ℕ)
    → IsQuiet l
    → ((j : ℕ) → i ≤ j → j < i + left → l.answer j ≡ unreachable)
    → attempts_from l i left ≡ (call_failed, i + left)
unfolding attempts_from
attempts_from-lost l i zero q lost = λ x. (call_failed, plus_zero i x)
  where
    plus_zero : (n : ℕ) → n ≡ n + 0
    plus_zero n = omega arith
attempts_from-lost l i (suc left) q lost =
    let next = attempts_from l (i + 1) left in
    guarded-quiet l i (after_answer l i left next (l.answer i)) q
    ∙ ap (after_answer l i left next) (lost i (omega arith) (omega arith))
    ∙ after_answer-quiet l i left next q
    ∙ last left next (
        attempts_from-lost l (i + 1) left q
          (λ j from below. lost j (omega (arith, from)) (omega (arith, below))))
  where
    last :
        (n : ℕ) (next : CallResult × ℕ)
        → next ≡ (call_failed, i + 1 + n)
        → (if n == 0 then (call_failed, i + 1) else next) ≡ (call_failed, i + suc n)
    last zero next e = λ x. (call_failed, plus_one i x)
      where
        plus_one : (m : ℕ) → m + 1 ≡ m + suc zero
        plus_one m = omega arith
    last (suc n) next e =
        if_false {b = suc n == 0} (call_failed, i + 1) next (ground arith)
        ∙ e
        ∙ (λ x. (call_failed, shift i n x))
      where
        shift : (m k : ℕ) → m + 1 + suc k ≡ m + suc (suc k)
        shift m k = omega arith

-- As long as its context is not done and its request can be built, a call ends with what the first
-- answer says, if one of its requests is answered, and else fails after as many requests as
-- the setting allows, or one.
pub call_transfer_service-ends :
    (transfer_service_retries : ℕ) (l : Line)
    → let attempts = service_attempts transfer_service_retries in
      let out = call_transfer_service transfer_service_retries l in
      IsQuiet l
      → ((k status : ℕ) (b : Body)
          → k < attempts
          → ((j : ℕ) → j < k → l.answer j ≡ unreachable)
          → l.answer k ≡ answered status b
          → out ≡ (read_answer status b, k + 1))
        × (((j : ℕ) → j < attempts → l.answer j ≡ unreachable) → out ≡ (call_failed, attempts))
unfolding call_transfer_service
call_transfer_service-ends retries l q = (
  λ k status b few lost reply.
      attempts_from-answered l 0 (service_attempts retries) k status b q (omega arith)
        (omega (arith, few)) (λ j from below. lost j below) reply,
  λ lost.
      attempts_from-lost l 0 (service_attempts retries) q
        (λ j from below. lost j (omega (arith, below)))
      ∙ (λ x. (call_failed, zero_plus (service_attempts retries) x)),
)
  where
    zero_plus : (n : ℕ) → 0 + n ≡ n
    zero_plus n = omega arith
