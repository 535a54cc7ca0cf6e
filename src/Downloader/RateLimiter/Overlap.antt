-- ===== src/Downloader/RateLimiter/Overlap.antt =====
-- Two callers that wait for the rate limiter at the same time.
use tmp_cf_ytb_admin.Base.{
  ℕ, suc, ◌+◌, ◌-◌, ◌≤◌, ◌<◌, ◌≡◌, refl, sym, ap, ◌∙◌, subst, Option, none, some, List, [], ◌∷◌,
  ◌++◌, arith, ltb, leb, if◌then◌else◌, length, length-append, keep, All, All-append, if_true,
  if_false,
}
use tmp_cf_ytb_admin.Downloader.RateLimiter.{
  minute, tenth, RateLimiter, is_recent, wait_for, start_acquire, resume_acquire,
}

keep-All : (now : ℕ) (ts : List ℕ) → All (λ t. now < t + minute) ts → keep (is_recent now) ts ≡ ts
keep-All now [] h = refl
keep-All now (t ∷ ts) (recent, h) =
    if_true {b = is_recent now t} _ _ (ground (arith, recent)) ∙ ap (◌∷◌ t) (keep-All now ts h)

earlier :
    (first now : ℕ) (ts : List ℕ)
    → first ≤ now
    → All (λ t. now < t + minute) ts
    → All (λ t. first < t + minute) ts
earlier first now [] le h = h
earlier first now (t ∷ ts) le (recent, h) = (omega (arith, le, recent), earlier first now ts le h)

-- A limiter at which the limit is reached.
abbrev pub full : ℕ → List ℕ → RateLimiter
full oldest ts = record { requests_per_minute = suc (length ts); request_times = oldest ∷ ts }

start_acquire-full :
    (first oldest : ℕ) (ts : List ℕ)
    → first < oldest + minute
    → All (λ t. first < t + minute) ts
    → start_acquire first (full oldest ts)
      ≡ (some (oldest + minute + tenth - first), full oldest ts)
unfolding start_acquire
start_acquire-full first oldest ts recent all =
    ap started (keep-All first (oldest ∷ ts) (recent, all))
    ∙ if_true {b = leb (suc (length ts)) (length (oldest ∷ ts))} _ _ (ground arith)
    ∙ (λ i. (asks i, full oldest ts))
  where
    started : List ℕ → Option ℕ × RateLimiter
    started us =
        let cleaned = record (full oldest ts) { request_times = us } in
        if leb (suc (length ts)) (length us) then (wait_for first us, cleaned) else (none, cleaned)

    asks : wait_for first (oldest ∷ ts) ≡ some (oldest + minute + tenth - first)
    asks = if_true {b = ltb first (oldest + minute + tenth)} _ _ (ground (arith, recent))

-- When the limit is reached and the oldest request is the only one that is old by the time at which
-- two callers have slept as long as asked, both ask to sleep, and then both are let through: one
-- request more than the limit is recorded within a minute.
pub resume_acquire-overlap :
    (first oldest : ℕ) (ts : List ℕ)
    → let limit = suc (length ts) in
      let one = start_acquire first (full oldest ts) in
      let other = start_acquire first one.1 in
      let second = oldest + minute + tenth in
      first < oldest + minute
      → All (λ t. second < t + minute) ts
      → (one.0 ≡ some (second - first))
        × (other.0 ≡ some (second - first))
        × (length (
              keep
                (is_recent second)
                (resume_acquire second second (resume_acquire second second other.1)).request_times)
            ≡ suc limit)
unfolding resume_acquire
resume_acquire-overlap first oldest ts recent all = (
  ap (λ r. r.0) asks,
  ap (λ r. (start_acquire first r.1).0) asks ∙ ap (λ r. r.0) asks,
  subst (λ r. length (left r) ≡ suc (suc (length ts)))
      (sym (ap (λ r. (start_acquire first r.1).1) asks ∙ ap (λ r. r.1) asks))
      (ap length passed
        ∙ omega (
          arith,
          length-append (ts ++ second ∷ []) (second ∷ []),
          length-append ts (second ∷ []),
        )),
)
  where
    second : ℕ
    second = oldest + minute + tenth

    asks :
        start_acquire first (full oldest ts)
        ≡ (some (oldest + minute + tenth - first), full oldest ts)
    asks =
        start_acquire-full first oldest ts recent
          (earlier first second ts (omega (arith, recent)) all)

    left : RateLimiter → List ℕ
    left r =
        keep (is_recent second)
          (resume_acquire second second (resume_acquire second second r)).request_times

    one : All (λ t. second < t + minute) (ts ++ second ∷ [])
    one = All-append (λ t. second < t + minute) ts (second ∷ []) all (omega arith, record {})

    two : All (λ t. second < t + minute) ((ts ++ second ∷ []) ++ second ∷ [])
    two =
        All-append (λ t. second < t + minute) (ts ++ second ∷ []) (second ∷ []) one
          (omega arith, record {})

    again : List ℕ → List ℕ
    again us = keep (is_recent second) (keep (is_recent second) (us ++ second ∷ []) ++ second ∷ [])

    passed : left (full oldest ts) ≡ (ts ++ second ∷ []) ++ second ∷ []
    passed =
        ap again
          (if_false {b = is_recent second oldest} _ _ (ground arith) ∙ keep-All second ts all)
        ∙ ap (λ us. keep (is_recent second) (us ++ second ∷ []))
            (keep-All second (ts ++ second ∷ []) one)
        ∙ keep-All second ((ts ++ second ∷ []) ++ second ∷ []) two
