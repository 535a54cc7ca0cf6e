-- ===== src/Downloader/Retry/Waits.antt =====
-- Which attempt to send a file is the last one, and how long is waited before it.
use tmp_cf_ytb_admin.Base.{
  ℕ, zero, suc, ◌+◌, ◌-◌, ◌*◌, ◌≤◌, ◌<◌, ◌≡◌, ◌≢◌, refl, sym, ap, ◌∙◌, subst, String, Bool, true,
  false, not, ◌&&◌, ◌||◌, Option, none, some, List, [], ◌∷◌, arith, ltb, ◌==◌, if◌then◌else◌,
  length, All, Bool-cases, Option-cases, inl, inr, ◌⊎◌,
}
use tmp_cf_ytb_admin.Transfer.Timeout.{second}
use tmp_cf_ytb_admin.Downloader.Retry.{
  is_retryable_transfer_error, is_proxy_err, backoff, Verdict, sent, failed, again, verdict_of,
  verdict, attempts, transfer_file_with_retry,
}

module _ (to_lower : String → String) (max_attempts backoff_seconds : ℕ) (jitter : ℕ → ℕ)
    (transfer : ℕ → Option String) where
  abbrev pub is_proxy_error : Option String → Bool
  is_proxy_error none = false
  is_proxy_error (some msg) = is_proxy_err to_lower msg

  -- How many of the first attempts fail because of the proxy.
  abbrev pub proxy_errors : ℕ → ℕ
  proxy_errors zero = 0
  proxy_errors (suc n) =
      if is_proxy_error (transfer (suc n)) then suc (proxy_errors n) else proxy_errors n

  -- Why an attempt is the last one.
  abbrev pub IsLast : ℕ → Type 0
  IsLast n =
      (n ≡ max_attempts)
      ⊎ ((is_retryable_transfer_error to_lower (transfer n) ≡ false)
          ⊎ ((is_proxy_error (transfer n) ≡ true) × (3 < proxy_errors n)))

  -- The end of the loop, from an attempt on.
  abbrev pub Ends : ℕ → Option String × (ℕ × List ℕ) → Type 0
  Ends attempt (result, (n, waits)) =
      (result ≡ transfer n)
      × (attempt ≤ n)
      × (n ≤ max_attempts)
      × (attempt + length waits ≡ n)
      × ((k : ℕ) → attempt ≤ k → k < n → is_retryable_transfer_error to_lower (transfer k) ≡ true)
      × IsLast n
      × All (λ wait. wait < 31 * second) waits

  abbrev run : ℕ → ℕ → ℕ → Option String → Option String × (ℕ × List ℕ)
  run left attempt errors last =
      attempts to_lower max_attempts backoff_seconds jitter transfer left attempt errors last

  -- The loop by the verdict on its first attempt.
  abbrev after :
      ℕ
      → ℕ
      → Verdict to_lower max_attempts backoff_seconds jitter transfer
      → Option String × (ℕ × List ℕ)
  after left attempt sent = (none, (attempt, []))
  after left attempt (failed msg) = (some msg, (attempt, []))
  after left attempt (again msg errors wait) =
      let rest = run left (attempt + 1) errors (some msg) in (rest.0, (rest.1.0, wait ∷ rest.1.1))

  attempts-verdict :
      (left attempt errors : ℕ) (last : Option String)
      (v : Verdict to_lower max_attempts backoff_seconds jitter transfer)
      → verdict to_lower max_attempts backoff_seconds jitter transfer attempt errors
          (transfer attempt)
        ≡ v
      → run (suc left) attempt errors last ≡ after left attempt v
  unfolding attempts
  attempts-verdict left attempt errors last sent e = rw (e, attempts)
  attempts-verdict left attempt errors last (failed msg) e = rw (e, attempts)
  attempts-verdict left attempt errors last (again msg n wait) e = rw (e, attempts)

  backoff-le :
      (proxy : Bool) (attempt : ℕ)
      → backoff to_lower max_attempts backoff_seconds jitter transfer proxy attempt ≤ 30 * second
  unfolding backoff
  backoff-le proxy attempt = ground arith

  -- The errors of the proxy, once an attempt has failed.
  proxy_errors-suc :
      (a : ℕ) (msg : String)
      → transfer (suc a) ≡ some msg
      → (if is_proxy_err to_lower msg then proxy_errors a + 1 else proxy_errors a)
        ≡ proxy_errors (suc a)
  proxy_errors-suc a msg e =
      subst
        (λ o.
          (if is_proxy_err to_lower msg then proxy_errors a + 1 else proxy_errors a)
          ≡ (if is_proxy_error o then suc (proxy_errors a) else proxy_errors a))
        (sym e) (either (is_proxy_err to_lower msg) (proxy_errors a))
    where
      either : (b : Bool) (n : ℕ) → (if b then n + 1 else n) ≡ (if b then suc n else n)
      either b n = ground arith

  -- The guards, for any answers of the tests.
  guards :
      (a n : ℕ) (msg : String) (retry proxy : Bool) (wait : ℕ)
      → let V = Verdict to_lower max_attempts backoff_seconds jitter transfer in
        let v : V =
          if suc a == max_attempts || not retry
          then failed msg
          else if proxy && ltb 3 n
          then failed msg
          else again msg n wait in
        ((v ≡ failed msg)
          × ((suc a ≡ max_attempts) ⊎ ((retry ≡ false) ⊎ ((proxy ≡ true) × (3 < n)))))
        ⊎ ((suc a ≢ max_attempts) × (retry ≡ true) × (v ≡ again msg n wait))
  guards a n msg retry proxy wait = elim (Bool-cases (suc a == max_attempts)) [
    | inl last ↦ inl (rw last refl, inl (ground (arith, last)))
    | inr more ↦ rw more (rest (ground (arith, more)) retry proxy)
  ]
    where
      rest :
          suc a ≢ max_attempts
          → (retry proxy : Bool)
          → let V = Verdict to_lower max_attempts backoff_seconds jitter transfer in
            let v : V =
              if not retry
              then failed msg
              else if proxy && ltb 3 n
              then failed msg
              else again msg n wait in
            ((v ≡ failed msg)
              × ((suc a ≡ max_attempts) ⊎ ((retry ≡ false) ⊎ ((proxy ≡ true) × (3 < n)))))
            ⊎ ((suc a ≢ max_attempts) × (retry ≡ true) × (v ≡ again msg n wait))
      rest more false proxy = inl (refl, inr (inl refl))
      rest more true false = inr (more, refl, refl)
      rest more true true = elim (Bool-cases (ltb 3 n)) [
        | inl many ↦ inl (rw many refl, inr (inr (refl, ground (arith, many))))
        | inr few ↦ inr (more, refl, rw few refl)
      ]

  -- An attempt that fails: it is the last one, or it is waited.
  verdict_of-cases :
      (a : ℕ) (msg : String)
      → transfer (suc a) ≡ some msg
      → let v =
          verdict_of to_lower max_attempts backoff_seconds jitter transfer
            (suc a)
            (proxy_errors a)
            msg in
        ((v ≡ failed msg) × IsLast (suc a))
        ⊎ ((suc a ≢ max_attempts)
            × (is_retryable_transfer_error to_lower (some msg) ≡ true)
            × (v
                ≡ again msg (proxy_errors (suc a)) (
                    backoff to_lower max_attempts backoff_seconds jitter transfer
                      (is_proxy_err to_lower msg)
                      (suc a)
                    + jitter (suc a))))
  verdict_of-cases a msg e =
      let n = if is_proxy_err to_lower msg then proxy_errors a + 1 else proxy_errors a in
      let wait =
        backoff to_lower max_attempts backoff_seconds jitter transfer (is_proxy_err to_lower msg)
          (suc a)
        + jitter (suc a) in
      let same = proxy_errors-suc a msg e in
      elim (guards a n msg (is_retryable_transfer_error to_lower (some msg))
        (is_proxy_err to_lower msg) wait) [
          | inl (v, inl last) ↦ inl (v, inl last)
          | inl (v, inr (inl lost)) ↦ inl (
            v,
            inr (inl (subst (λ o. is_retryable_transfer_error to_lower o ≡ false) (sym e) lost)),
          )
          | inl (v, inr (inr (proxy, many))) ↦ inl (
            v,
            inr (
                inr (
                  subst (λ o. is_proxy_error o ≡ true) (sym e) proxy,
                  subst (λ m. 3 < m) same many,
                )),
          )
          | inr (more, retry, v) ↦ inr (more, retry, v ∙ ap (λ m. again msg m wait) same)
        ]

  -- One attempt more before those that follow.
  Ends-again :
      (a wait : ℕ) (r : Option String × (ℕ × List ℕ))
      → is_retryable_transfer_error to_lower (transfer a) ≡ true
      → wait < 31 * second
      → Ends (suc a) r
      → Ends a (r.0, (r.1.0, wait ∷ r.1.1))
  Ends-again a wait (result, (n, waits)) retryable short (e, from, to, total, all, why, waited) = (
    e,
    omega (arith, from),
    to,
    omega (arith, total),
    (λ k lo hi. elim (Bool-cases (k == a)) [
      | inl this ↦
          subst (λ j. is_retryable_transfer_error to_lower (transfer j) ≡ true)
            (ground (arith, this)) retryable
      | inr other ↦ all k (ground (arith, other, lo)) hi
    ]),
    why,
    (short, waited),
  )

  -- What the rest of the loop has to give.
  abbrev GoesOn : ℕ → ℕ → Type 0
  GoesOn left a =
      (msg : String) → Ends (suc (suc a)) (run left (suc (suc a)) (proxy_errors (suc a)) (some msg))

  Ends-first :
      (left a : ℕ) (last : Option String)
      → ((k : ℕ) → jitter k < second)
      → suc a + left ≡ max_attempts
      → (suc a ≢ max_attempts → GoesOn left a)
      → Ends (suc a) (run (suc left) (suc a) (proxy_errors a) last)
  Ends-first left a last small e rest = elim (Option-cases (transfer (suc a))) [
    | inl none' ↦
        subst (Ends (suc a))
          (sym (attempts-verdict left (suc a) (proxy_errors a) last sent (ap judged none')))
          (
            sym none',
            omega arith,
            omega (arith, e),
            omega arith,
            (λ k lo hi. absurd (omega (arith, lo, hi))),
            inr (
                inl (
                  unfold is_retryable_transfer_error in
                  ap (is_retryable_transfer_error to_lower) none')),
            record {},
          )
    | inr (msg, some') ↦ elim (verdict_of-cases a msg some') [
      | inl (v, why) ↦
          subst (Ends (suc a))
            (sym (
              attempts-verdict left (suc a) (proxy_errors a) last (failed msg)
                (ap judged some' ∙ v)))
            (
              sym some',
              omega arith,
              omega (arith, e),
              omega arith,
              (λ k lo hi. absurd (omega (arith, lo, hi))),
              why,
              record {},
            )
      | inr (more, retryable, v) ↦
          let wait =
            backoff to_lower max_attempts backoff_seconds jitter transfer
              (is_proxy_err to_lower msg) (suc a)
            + jitter (suc a) in
          let next : suc a + 1 ≡ suc (suc a) = omega arith in
          subst (Ends (suc a))
            (sym (
              attempts-verdict left (suc a) (proxy_errors a) last
                (again msg (proxy_errors (suc a)) wait) (ap judged some' ∙ v)))
            (Ends-again (suc a) wait (run left (suc a + 1) (proxy_errors (suc a)) (some msg))
              (subst (λ o. is_retryable_transfer_error to_lower o ≡ true) (sym some') retryable)
              (omega (arith, small (suc a), backoff-le (is_proxy_err to_lower msg) (suc a)))
              (subst (λ b. Ends (suc (suc a)) (run left b (proxy_errors (suc a)) (some msg)))
                (sym next) (rest more msg)))
    ]
  ]
    where
      judged : Option String → Verdict to_lower max_attempts backoff_seconds jitter transfer
      judged o =
          verdict to_lower max_attempts backoff_seconds jitter transfer (suc a) (proxy_errors a) o

  attempts-Ends :
      (left a : ℕ) (last : Option String)
      → ((k : ℕ) → jitter k < second)
      → suc a + left ≡ max_attempts
      → Ends (suc a) (run (suc left) (suc a) (proxy_errors a) last)
  attempts-Ends zero a last small e =
      Ends-first zero a last small e (λ more. absurd (more (omega (arith, e))))
  attempts-Ends (suc left) a last small e =
      Ends-first (suc left) a last small e
        (λ more msg. attempts-Ends left (suc a) (some msg) small (omega (arith, e)))

  -- With at least one attempt allowed, the loop gives the outcome of its last attempt, after as
  -- many waits as there were attempts before it; those before all failed with an error that may
  -- pass; the last one is the last allowed, or does not fail with such an error, or fails because
  -- of the proxy when more than 3 attempts have done so, in a row or not; and each wait is below
  -- 31 seconds.
  pub transfer_file_with_retry-Ends :
      1 ≤ max_attempts
      → ((k : ℕ) → jitter k < second)
      → Ends 1 (transfer_file_with_retry to_lower max_attempts backoff_seconds jitter transfer)
  unfolding transfer_file_with_retry
  transfer_file_with_retry-Ends one small =
      let all_but_one : suc (max_attempts - 1) ≡ max_attempts = omega (arith, one) in
      subst (λ n. Ends 1 (run n 1 0 none)) all_but_one
        (attempts-Ends (max_attempts - 1) 0 none small (omega (arith, one)))
