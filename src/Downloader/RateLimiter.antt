-- ===== src/Downloader/RateLimiter.antt =====
-- backend/worker_downloader/downloader.go, `RateLimiter`: at most so many requests in a minute. A
-- call of `Acquire` is cut where it gives up its lock to sleep: `start_acquire` up to there, and
-- `resume_acquire` from there on. Times are nanoseconds; a limit of 0 stands for all those below 1.
pub mod Window
pub mod Overlap
use tmp_cf_ytb_admin.Base.{
  ℕ, ◌+◌, ◌-◌, ◌*◌, Bool, true, false, Option, none, some, List, [], ◌∷◌, ◌++◌, ltb, leb, ◌==◌,
  if◌then◌else◌, length, keep,
}

abbrev pub minute : ℕ
minute = 60 * 1000000000

abbrev pub tenth : ℕ
tenth = 100000000

pub record RateLimiter : Type 0 where
  pub requests_per_minute : ℕ
  pub request_times : List ℕ

unfoldable pub new_rate_limiter : ℕ → RateLimiter
new_rate_limiter limit = record { requests_per_minute = limit; request_times = [] }

-- `t.After(oneMinuteAgo)`.
abbrev pub is_recent : ℕ → ℕ → Bool
is_recent now t = ltb now (t + minute)

abbrev pub clean : ℕ → RateLimiter → RateLimiter
clean now rl = record rl { request_times = keep (is_recent now) rl.request_times }

abbrev pub record_request : ℕ → RateLimiter → RateLimiter
record_request now rl = record rl { request_times = rl.request_times ++ now ∷ [] }

-- How long a caller waits for the oldest request to become old, when the limit is reached. The
-- wait is `none` where it is not positive; there is always an oldest request.
abbrev pub wait_for : ℕ → List ℕ → Option ℕ
wait_for now [] = none
wait_for now (oldest ∷ ts) =
    if ltb now (oldest + minute + tenth) then some (oldest + minute + tenth - now) else none

unfoldable pub start_acquire : ℕ → RateLimiter → Option ℕ × RateLimiter
start_acquire now rl =
    let cleaned = clean now rl in
    if leb rl.requests_per_minute (length cleaned.request_times)
    then (wait_for now cleaned.request_times, cleaned)
    else (none, cleaned)

-- After the sleep, at `now`; the request is recorded at `later`.
unfoldable pub resume_acquire : ℕ → ℕ → RateLimiter → RateLimiter
resume_acquire now later rl = record_request later (clean now rl)

abbrev pub acquire_after : ℕ → ℕ → Option ℕ × RateLimiter → RateLimiter
acquire_after now later (none, rl) = record_request later rl
acquire_after now later (some wait, rl) = resume_acquire now later rl

-- A whole call that no other call interrupts: it starts at `first`, and if it sleeps it goes on at
-- `second`; the request is recorded at `third`.
unfoldable pub acquire : ℕ → ℕ → ℕ → RateLimiter → RateLimiter
unfolding start_acquire resume_acquire
acquire first second third rl =
    if rl.requests_per_minute == 0 then rl else acquire_after second third (start_acquire first rl)
