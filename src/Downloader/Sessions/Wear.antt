-- ===== src/Downloader/Sessions/Wear.antt =====
-- How many responses a session gets before it is replaced.
use tmp_cf_ytb_admin.Base.{
  ℕ, ◌+◌, ◌≤◌, ◌<◌, ◌≡◌, Bool, false, ◌&&◌, List, [], ◌∷◌, ◌==◌, if◌then◌else◌, Option, count,
}
use tmp_cf_ytb_admin.Downloader.Sessions.{
  Limits, Session, rotate, is_used_up, is_refused, before_request, after_response, counted,
}

-- The calls of all requests of a worker, in the order in which they get the lock.
pub data Event : Type 0 where
  before : ℕ → Event
  after : ℕ → Option ℕ → Event

abbrev pub at_least_one : ℕ → ℕ
at_least_one n = if n == 0 then 1 else n

module _ (limits : Limits) (too_often : ℕ → ℕ → Bool) where
  -- The responses with the number of the session to which each was counted, the last one first.
  unfoldable pub run : List Event → Session → List (ℕ × Option ℕ) → List (ℕ × Option ℕ) × Session
  unfolding before_request after_response
  run [] m log = (log, m)
  run (before now ∷ es) m log = run es (before_request limits too_often now m) log
  run (after now status ∷ es) m log =
      run es (after_response limits too_often now status m) ((m.session, status) ∷ log)

  abbrev pub of_session : (Option ℕ → Bool) → ℕ → ℕ × Option ℕ → Bool
  of_session p k (j, status) = j == k && p status

  -- A kind of responses that the session counts, and the limit under which a session stays.
  module _ (p : Option ℕ → Bool) (number : Session → ℕ) (limit : ℕ) where
    abbrev Counts : Type 0
    Counts =
        ((now : ℕ) (m : Session) → number (rotate limits too_often now m) ≡ 0)
        × ((status : Option ℕ) (m : Session)
            → number (counted limits too_often status m) ≡ number m + (if p status then 1 else 0))
        × ((m : Session)
            → m.forbid_count ≤ m.req_count
            → is_used_up limits too_often m ≡ false
            → is_refused limits too_often m ≡ false
            → number m < limit)

    abbrev IsExact : Session → List (ℕ × Option ℕ) → Type 0
    IsExact m log =
        (m.forbid_count ≤ m.req_count)
        × (number m < limit)
        × (count (of_session p m.session) log ≡ number m)
        × ((k : ℕ) → m.session < k → count (of_session p k) log ≡ 0)
        × ((k : ℕ) → count (of_session p k) log ≤ limit)

    -- The invariant but for the limit of the session, which the check that follows brings about.
    abbrev IsNearlyExact : Session → List (ℕ × Option ℕ) → Type 0
    IsNearlyExact m log =
        (m.forbid_count ≤ m.req_count)
        × (count (of_session p m.session) log ≡ number m)
        × ((k : ℕ) → m.session < k → count (of_session p k) log ≡ 0)
        × ((k : ℕ) → count (of_session p k) log ≤ limit)

  abbrev pub first_session : ℕ → Session
  first_session now = record { session = 1; session_born = now; req_count = 0; forbid_count = 0 }
