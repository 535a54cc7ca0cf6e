-- ===== src/Downloader/RateLimiter/Window.antt =====
-- How many requests the rate limiter lets through within a minute.
use tmp_cf_ytb_admin.Base.{
  ℕ, suc, ◌+◌, ◌-◌, ◌≤◌, ◌<◌, ◌≡◌, refl, sym, ap, ◌∙◌, subst, Bool, Option, none, some, List, [],
  ◌∷◌, ◌++◌, arith, leb, ◌==◌, length, length-append, length-keep-le, keep, count, Bool-cases, inl,
  inr, if_true, if_false, ◌⊎◌,
}
use tmp_cf_ytb_admin.Downloader.RateLimiter.{
  minute, tenth, RateLimiter, new_rate_limiter, is_recent, clean, record_request, wait_for,
  start_acquire, resume_acquire, acquire_after, acquire,
}

-- Calls one after the other: the clock, the limiter and the times of the requests that were let
-- through, the last one first. A sleep takes at least as long as it was asked to.
abbrev pub Sleeps : ℕ → ℕ → Option ℕ → Type 0
Sleeps first second none = first ≤ second
Sleeps first second (some wait) = first + wait ≤ second

pub data Calls (limit : ℕ) : ℕ → RateLimiter → List ℕ → Type 0 where
  no_calls : (clock : ℕ) → Calls limit clock (new_rate_limiter limit) []
  one_more :
      {clock : ℕ} {rl : RateLimiter} {times : List ℕ} (first second third : ℕ)
      → Calls limit clock rl times
      → clock ≤ first
      → Sleeps first second (start_acquire first rl).0
      → second ≤ third
      → Calls limit third (acquire first second third rl) (third ∷ times)

-- The limiter keeps count of the recent requests, and has no more times than the limit.
IsExact : ℕ → ℕ → RateLimiter → List ℕ → Type 0
IsExact limit clock rl times =
    (rl.requests_per_minute ≡ limit)
    × (length rl.request_times ≤ limit)
    × ((now : ℕ)
        → clock ≤ now
        → count (is_recent now) times ≡ count (is_recent now) rl.request_times)

count-le : (p : ℕ → Bool) (ts : List ℕ) → count p ts ≤ length ts
count-le p [] = omega arith
count-le p (t ∷ ts) = ground (arith, count-le p ts)

count-append : (p : ℕ → Bool) (xs ys : List ℕ) → count p (xs ++ ys) ≡ count p xs + count p ys
count-append p [] ys = omega arith
count-append p (x ∷ xs) ys = ground (arith, count-append p xs ys)

-- What was not recent before is not recent later.
count-clean :
    (before now : ℕ) (ts : List ℕ)
    → before ≤ now
    → count (is_recent now) (keep (is_recent before) ts) ≡ count (is_recent now) ts
count-clean before now [] le = refl
count-clean before now (t ∷ ts) le = ground (arith, le, count-clean before now ts le)

-- A sleep as long as asked makes the oldest request old.
shorter :
    (first second : ℕ) (ts : List ℕ) (wait : ℕ)
    → wait_for first ts ≡ some wait
    → first + wait ≤ second
    → suc (length (keep (is_recent second) ts)) ≤ length ts
shorter first second [] wait e le = cc
shorter first second (t ∷ ts) wait e le =
    ground (arith, e, le, length-keep-le (is_recent second) ts)

-- Among the recent requests the oldest one is still to be waited for.
wait_for-recent :
    (now : ℕ) (ts : List ℕ)
    → 0 < length (keep (is_recent now) ts)
    → (wait : ℕ) × (wait_for now (keep (is_recent now) ts) ≡ some wait)
wait_for-recent now [] h = absurd (omega (arith, h))
wait_for-recent now (t ∷ ts) h = elim (Bool-cases (is_recent now t)) [
  | inl recent ↦ (
    t + minute + tenth - now,
    ap (wait_for now) (if_true {b = is_recent now t} _ _ recent) ∙ ground arith,
  )
  | inr old ↦
      let same : keep (is_recent now) (t ∷ ts) ≡ keep (is_recent now) ts =
        if_false {b = is_recent now t} _ _ old in
      let (wait, e) = wait_for-recent now ts (subst (λ us. 0 < length us) same h) in
      (wait, ap (wait_for now) same ∙ e)
]

start_acquire-cases :
    (now : ℕ) (rl : RateLimiter)
    → 0 < rl.requests_per_minute
    → ((start_acquire now rl ≡ (none, clean now rl))
        × (length (clean now rl).request_times < rl.requests_per_minute))
      ⊎ ((wait : ℕ) × (start_acquire now rl ≡ (some wait, clean now rl))
          × (wait_for now (clean now rl).request_times ≡ some wait))
unfolding start_acquire
start_acquire-cases now rl some' =
    elim (Bool-cases (leb rl.requests_per_minute (length (clean now rl).request_times))) [
      | inl full ↦
          let (wait, e) = wait_for-recent now rl.request_times (ground (arith, full, some')) in
          inr (wait, if_true _ _ full ∙ (λ i. (e i, clean now rl)), e)
      | inr room ↦ inl (if_false _ _ room, ground (arith, room))
    ]

-- A request that is recorded where fewer than the limit are left keeps the count.
record_request-IsExact :
    (limit clock now : ℕ) (rl : RateLimiter) (times : List ℕ)
    → rl.requests_per_minute ≡ limit
    → suc (length rl.request_times) ≤ limit
    → ((later : ℕ)
        → now ≤ later
        → count (is_recent later) times ≡ count (is_recent later) rl.request_times)
    → IsExact limit now (record_request now rl) (now ∷ times)
unfolding IsExact
record_request-IsExact limit clock now rl times e room exact = (
  e,
  omega (arith, room, length-append rl.request_times (now ∷ [])),
  λ later le.
      ground (arith, exact later le, count-append (is_recent later) rl.request_times (now ∷ [])),
)

acquire-IsExact :
    (limit clock first second third : ℕ) (rl : RateLimiter) (times : List ℕ)
    → 0 < limit
    → IsExact limit clock rl times
    → clock ≤ first
    → Sleeps first second (start_acquire first rl).0
    → second ≤ third
    → IsExact limit third (acquire first second third rl) (third ∷ times)
unfolding IsExact acquire resume_acquire
acquire-IsExact limit clock first second third rl times some' (e, le, exact) after sleeps last =
    subst (λ r. IsExact limit third r (third ∷ times))
      (sym (if_false {b = rl.requests_per_minute == 0} _ _ (ground (arith, e, some'))))
      (elim (start_acquire-cases first rl (omega (arith, e, some'))) [
        | inl (at_once, room) ↦
            let ordered : first ≤ second = subst (λ r. Sleeps first second r.0) at_once sleeps in
            subst (λ r. IsExact limit third (acquire_after second third r) (third ∷ times))
              (sym at_once)
              (record_request-IsExact limit clock third (clean first rl) times e
                (omega (arith, room, e))
                (λ now now_le.
                  exact now (omega (arith, after, ordered, last, now_le))
                  ∙ sym (
                      count-clean first now rl.request_times
                        (omega (arith, ordered, last, now_le)))))
        | inr (wait, asked, e') ↦
            let slept : first + wait ≤ second = subst (λ r. Sleeps first second r.0) asked sleeps in
            let cleaned = clean first rl in
            subst (λ r. IsExact limit third (acquire_after second third r) (third ∷ times))
              (sym asked)
              (record_request-IsExact limit clock third (clean second cleaned) times e
                (omega (
                  arith,
                  shorter first second cleaned.request_times wait e' slept,
                  length-keep-le (is_recent first) rl.request_times,
                  le,
                ))
                (λ now now_le.
                  exact now (omega (arith, after, slept, last, now_le))
                  ∙ sym
                      (count-clean first now rl.request_times (omega (arith, slept, last, now_le)))
                  ∙ sym
                      (count-clean second now cleaned.request_times (omega (arith, last, now_le)))))
      ])

Calls-IsExact :
    {limit clock : ℕ} {rl : RateLimiter} {times : List ℕ}
    → 0 < limit
    → Calls limit clock rl times
    → IsExact limit clock rl times
unfolding IsExact new_rate_limiter
Calls-IsExact some' (no_calls clock) = (refl, omega arith, λ now le. refl)
Calls-IsExact {limit = limit} some'
      (one_more {clock} {rl} {times} first second third calls after sleeps last) =
    acquire-IsExact limit clock first second third rl times some' (Calls-IsExact some' calls) after
      sleeps last

-- With calls one after the other, a positive limit and sleeps as long as asked, at no time have
-- more requests than the limit been let through within the last minute.
pub Calls-WithinLimit :
    {limit clock : ℕ} {rl : RateLimiter} {times : List ℕ} (now : ℕ)
    → 0 < limit
    → Calls limit clock rl times
    → clock ≤ now
    → count (is_recent now) times ≤ limit
unfolding IsExact
Calls-WithinLimit {rl = rl} now some' calls le =
    let (_, short, exact) = Calls-IsExact some' calls in
    omega (arith, exact now le, short, count-le (is_recent now) rl.request_times)
