-- ===== src/Downloader/Retry.antt =====
-- backend/worker_downloader/downloader.go, `transferFileWithRetry`: a file is sent to the store
-- again while the error is one that may pass. What `transferFile` gives at each attempt is the
-- argument `transfer`, `none` where there is no error and else its message; `to_lower` is
-- `strings.ToLower`, `jitter` the random part of each wait, below a second. Times are nanoseconds;
-- the settings are not negative.
pub mod Waits
use text.Mathlib.Text.{find?}
use tmp_cf_ytb_admin.Base.{
  ℕ, zero, suc, ◌+◌, ◌-◌, ◌==◌, ◌*◌, String, Bool, true, false, not, ◌&&◌, ◌||◌, Option, none, some,
  List, [], ◌∷◌, ltb, if◌then◌else◌,
}
use tmp_cf_ytb_admin.Transfer.Timeout.{second}

abbrev pub found : Option ℕ → Bool
found none = false
found (some position) = true

-- `strings.Contains`.
abbrev pub contains : String → String → Bool
contains s part = found (find? s part)

abbrev pub contains_any : String → List String → Bool
contains_any msg [] = false
contains_any msg (part ∷ parts) = contains msg part || contains_any msg parts

abbrev pub retryable_parts : List String
retryable_parts =
    "http status 403" ∷ "403 forbidden" ∷ "server gave http response to https client" ∷ "eof"
    ∷ "connection reset by peer" ∷ "incomplete upload" ∷ "collect parts timeout" ∷ "missing etag"
    ∷ "context deadline exceeded" ∷ "http status 429" ∷ "http status 500" ∷ "http status 502"
    ∷ "http status 503" ∷ "http status 504" ∷ []

abbrev pub proxy_parts : List String
proxy_parts = "server gave http response to https client" ∷ "eof" ∷ "connection reset by peer" ∷ []

module _ (to_lower : String → String) where
  unfoldable pub is_retryable_transfer_error : Option String → Bool
  is_retryable_transfer_error none = false
  is_retryable_transfer_error (some msg) = contains_any (to_lower msg) retryable_parts

  abbrev pub is_proxy_err : String → Bool
  is_proxy_err msg = contains_any (to_lower msg) proxy_parts

  module _ (max_attempts backoff_seconds : ℕ) (jitter : ℕ → ℕ) (transfer : ℕ → Option String) where
    unfoldable pub backoff : Bool → ℕ → ℕ
    backoff proxy attempt =
        if proxy
        then 2 * second
        else if ltb (30 * second) (backoff_seconds * attempt * second)
        then 30 * second
        else backoff_seconds * attempt * second

    -- What follows from the outcome of an attempt.
    pub data Verdict : Type 0 where
      sent : Verdict
      failed : String → Verdict
      again : String → ℕ → ℕ → Verdict

    abbrev pub verdict_of : ℕ → ℕ → String → Verdict
    verdict_of attempt proxy_errors msg =
        let proxy = is_proxy_err msg in
        let errors = if proxy then proxy_errors + 1 else proxy_errors in
        if attempt == max_attempts || not (is_retryable_transfer_error (some msg))
        then failed msg
        else if proxy && ltb 3 errors
        then failed msg
        else again msg errors (backoff proxy attempt + jitter attempt)

    abbrev pub verdict : ℕ → ℕ → Option String → Verdict
    verdict attempt proxy_errors none = sent
    verdict attempt proxy_errors (some msg) = verdict_of attempt proxy_errors msg

    -- The first number is how many attempts are left; then come the number of the attempt, the
    -- errors of the proxy so far and the last error. The error in the end, the number of the last
    -- attempt and the waits.
    unfoldable pub attempts : ℕ → ℕ → ℕ → Option String → Option String × (ℕ × List ℕ)
    unfolding backoff is_retryable_transfer_error
    attempts zero attempt proxy_errors last = (last, (attempt - 1, []))
    attempts (suc left) attempt proxy_errors last =
        elim (verdict attempt proxy_errors (transfer attempt)) [
          | sent ↦ (none, (attempt, []))
          | failed msg ↦ (some msg, (attempt, []))
          | again msg errors wait ↦
              let rest = attempts left (attempt + 1) errors (some msg) in
              (rest.0, (rest.1.0, wait ∷ rest.1.1))
        ]

    unfoldable pub transfer_file_with_retry : Option String × (ℕ × List ℕ)
    unfolding attempts
    transfer_file_with_retry = attempts max_attempts 1 0 none
