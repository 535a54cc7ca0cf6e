-- ===== src/Downloader/Tests.antt =====
-- Runs of the downloader's parts, and their theorems at concrete inputs.
use tmp_cf_ytb_admin.Base.{
  ℕ, ◌+◌, ◌*◌, ◌≤◌, ◌≡◌, refl, String, Option, none, some, List, [], ◌∷◌, arith, pos, ◌==◌,
  if◌then◌else◌, count, false,
}
use tmp_cf_ytb_admin.Transfer.Timeout.{second}
use tmp_cf_ytb_admin.Downloader.RateLimiter.{
  tenth, RateLimiter, new_rate_limiter, is_recent, start_acquire, acquire,
}
use tmp_cf_ytb_admin.Downloader.RateLimiter.Window.{Calls, no_calls, one_more, Calls-WithinLimit}
use tmp_cf_ytb_admin.Downloader.RateLimiter.Overlap.{full}
use tmp_cf_ytb_admin.Downloader.Sessions.{
  Limits, rotate, maybe_rotate, before_request, after_response,
}
use tmp_cf_ytb_admin.Downloader.Sessions.Wear.{Event, before, after, run, first_session}
use tmp_cf_ytb_admin.Downloader.Retry.{
  transfer_file_with_retry, attempts, backoff, is_retryable_transfer_error,
}
use tmp_cf_ytb_admin.Downloader.Retry.Waits.{Ends, transfer_file_with_retry-Ends}

-- Two requests with a limit of one: the second one waits.
abbrev then_one : RateLimiter
then_one = acquire (10 * second) (10 * second) (10 * second) (new_rate_limiter 1)

asked : (start_acquire (11 * second) then_one).0 ≡ some (59 * second + tenth)
unfolding start_acquire acquire new_rate_limiter
asked = refl

two-Calls :
    Calls 1
      (75 * second)
      (acquire (11 * second) (74 * second) (75 * second) then_one)
      (75 * second ∷ 10 * second ∷ [])
unfolding start_acquire acquire new_rate_limiter
two-Calls =
    one_more (11 * second) (74 * second) (75 * second)
      (one_more (10 * second) (10 * second) (10 * second) (no_calls 0) (omega arith) (omega arith)
        (omega arith))
      (omega arith) (omega arith) (omega arith)

Calls-WithinLimit_example : count (is_recent (80 * second)) (75 * second ∷ 10 * second ∷ []) ≤ 1
Calls-WithinLimit_example = Calls-WithinLimit (80 * second) (omega arith) two-Calls (omega arith)

abbrev waiting : RateLimiter
waiting =
    (start_acquire (60 * second)
      (start_acquire (60 * second) (full (10 * second) (40 * second ∷ []))).1).1

abbrev limits : Limits
limits = record {
  max_age = 0;
  max_requests = 2;
  max_403 = pos 1;
  min_req_for_rate = 0;
  has_max_403_rate = false;
}

-- Four requests; the second one is refused.
abbrev events : List Event
events =
    before 1
    ∷ before 1
    ∷ after 2 (some 200)
    ∷ after 3 (some 403)
    ∷ before 4
    ∷ after 5 none
    ∷ after 6 (some 200)
    ∷ []

sessions :
    (run limits (λ f r. false) events (first_session limits (λ f r. false) 0) []).0
    ≡ (2, some 200) ∷ (2, none) ∷ (1, some 403) ∷ (1, some 200) ∷ []
unfolding run before_request after_response maybe_rotate rotate
sessions = refl

-- The first attempt fails with a reset connection, the second one does not.
abbrev outcome : ℕ → Option String
outcome n = if n == 1 then some "connection reset by peer" else none

waited : transfer_file_with_retry (λ s. s) 3 5 (λ k. 7) outcome ≡ (none, (2, (2 * second + 7) ∷ []))
unfolding transfer_file_with_retry attempts backoff is_retryable_transfer_error
waited = refl

transfer_file_with_retry-Ends_example :
    Ends (λ s. s) 3 5 (λ k. 7) outcome 1 (transfer_file_with_retry (λ s. s) 3 5 (λ k. 7) outcome)
transfer_file_with_retry-Ends_example =
    transfer_file_with_retry-Ends (λ s. s) 3 5 (λ k. 7) outcome (omega arith) (λ k. omega arith)
