-- ===== src/Transfer/Timeout.antt =====
-- backend/worker_transfer/transfer.go, the timeouts: `calculateDynamicTimeout` and what it calls.
-- Durations are in nanoseconds, settings in the units of their names; `getEnvInt` gives settings
-- that are not negative, and a size that is not positive is 0 here. The float product
-- `float64(calculated) * 2^shift`, taken back to a duration, is the argument `scale`.
use native.Mathlib.Nat.{one-le-pow, pow-le-pow_right, mul-le-mul_left}
use tmp_cf_ytb_admin.Base.{
  ℕ, zero, suc, ◌+◌, ◌-◌, ◌*◌, ◌/◌, ◌^◌, ◌≤◌, ◌<◌, ◌≡◌, ◌≢◌, ap, ◌∙◌, ◌&&◌, arith, ltb, leb, ◌==◌,
  if◌then◌else◌, min, ℤ, pos, ◌+ℤ◌, ◌≤ℤ◌, ltb_ℤ, int64, int64-pos, int_laws, if_true, lt→ltb,
}

abbrev pub second : ℕ
second = 10 ^ 9

pub record Settings : Type 0 where
  pub min_timeout_secs : ℕ
  pub max_timeout_secs : ℕ
  pub min_throughput_mbps : ℕ
  pub transfer_service_retries : ℕ
  pub transfer_service_worker_timeout_secs : ℕ
  pub transfer_service_response_header_timeout_secs : ℕ

abbrev pub default_worker_timeout_secs : ℕ
default_worker_timeout_secs = 60

-- The loop that adds up the waits between attempts; `rounds` is how many rounds are left.
unfoldable pub backoff_from : ℕ → ℕ → ℕ → ℕ
backoff_from zero attempt backoff = backoff
backoff_from (suc rounds) attempt backoff =
    backoff_from rounds (attempt + 1) (backoff + attempt * second)

unfoldable pub attempts_of : Settings → ℕ
attempts_of s = if ltb s.transfer_service_retries 1 then 1 else s.transfer_service_retries

unfoldable pub per_attempt_secs_of : Settings → ℕ
per_attempt_secs_of s =
    if ltb s.transfer_service_worker_timeout_secs 1
    then default_worker_timeout_secs
    else s.transfer_service_worker_timeout_secs

unfoldable pub calculate_transfer_service_execution_budget : Settings → ℕ
unfolding backoff_from
calculate_transfer_service_execution_budget s =
    attempts_of s * (per_attempt_secs_of s * 2 * second)
    + backoff_from (attempts_of s - 1) 1 0
    + 15 * second

-- The result 0 means that there is no header timeout.
unfoldable pub calculate_transfer_service_response_header_timeout : Settings → ℕ
calculate_transfer_service_response_header_timeout s =
    let header_timeout = calculate_transfer_service_execution_budget s in
    let max_client_timeout = s.max_timeout_secs * second in
    if ltb 0 s.transfer_service_response_header_timeout_secs
    then s.transfer_service_response_header_timeout_secs * second
    else if ltb 0 max_client_timeout && leb max_client_timeout header_timeout
    then 0
    else header_timeout

module _ (scale : ℤ → ℕ → ℤ) where
  -- The timeout before it is clamped.
  unfoldable pub raw_timeout : Settings → ℕ → ℕ → ℤ
  raw_timeout s size retry_count =
      let base = int64 (pos (size / (s.min_throughput_mbps * 1024 * 1024) * second)) in
      let stretched = if ltb 0 retry_count then scale base (min retry_count 30) else base in
      int64 (stretched +ℤ pos (calculate_transfer_service_execution_budget s))

  unfoldable pub calculate_dynamic_timeout : Settings → ℕ → ℕ → ℤ
  calculate_dynamic_timeout s size retry_count =
      let min_timeout = pos (s.min_timeout_secs * second) in
      let max_timeout = pos (s.max_timeout_secs * second) in
      let budget = pos (calculate_transfer_service_execution_budget s) in
      let calculated = raw_timeout s size retry_count in
      if size == 0
      then (if ltb_ℤ min_timeout budget then budget else min_timeout)
      else if s.min_throughput_mbps == 0
      then max_timeout
      else if ltb_ℤ calculated min_timeout
      then min_timeout
      else if ltb_ℤ max_timeout calculated
      then max_timeout
      else calculated

  unfoldable pub calculate_part_timeout : Settings → ℕ → ℤ
  unfolding calculate_dynamic_timeout
  calculate_part_timeout s part_size = calculate_dynamic_timeout s part_size 0

  -- Whatever the float product gives, the timeout of a file of known size lies between the two
  -- configured bounds.
  pub calculate_dynamic_timeout_bounds :
      (s : Settings) (size retry_count : ℕ)
      → size ≢ 0
      → s.min_timeout_secs ≤ s.max_timeout_secs
      → (pos (s.min_timeout_secs * second) ≤ℤ calculate_dynamic_timeout s size retry_count)
        × (calculate_dynamic_timeout s size retry_count ≤ℤ pos (s.max_timeout_secs * second))
  unfolding calculate_dynamic_timeout
  calculate_dynamic_timeout_bounds s size retry_count known ordered = ground arith

backoff_from_lem :
    (rounds attempt backoff : ℕ)
    → 2 * backoff_from rounds attempt backoff + rounds * second
      ≡ 2 * backoff + (2 * attempt * rounds + rounds * rounds) * second
unfolding backoff_from
backoff_from_lem zero attempt backoff = omega arith
backoff_from_lem (suc rounds) attempt backoff =
    omega (arith, backoff_from_lem rounds (attempt + 1) (backoff + attempt * second))

square : (n : ℕ) → 1 ≤ n → n * (n - 1) ≡ (n - 1) * (n - 1) + (n - 1)
square zero h = omega arith
square (suc n) h = let e : suc n - 1 ≡ n = omega arith in rw e (omega arith)

attempts_of_lem :
    (s : Settings) → 1 ≤ s.transfer_service_retries → attempts_of s ≡ s.transfer_service_retries
unfolding attempts_of
attempts_of_lem s h = ground arith

per_attempt_secs_of_lem :
    (s : Settings)
    → 1 ≤ s.transfer_service_worker_timeout_secs
    → per_attempt_secs_of s ≡ s.transfer_service_worker_timeout_secs
unfolding per_attempt_secs_of
per_attempt_secs_of_lem s h = ground arith

-- The budget of a request: two worker timeouts for each attempt, the waits 1 + 2 + … between the
-- attempts, and 15 seconds.
pub calculate_transfer_service_execution_budget_lem :
    (s : Settings)
    → 1 ≤ s.transfer_service_retries
    → 1 ≤ s.transfer_service_worker_timeout_secs
    → let n = s.transfer_service_retries in
      2 * calculate_transfer_service_execution_budget s
      ≡ (4 * n * s.transfer_service_worker_timeout_secs + n * (n - 1) + 30) * second
unfolding calculate_transfer_service_execution_budget
calculate_transfer_service_execution_budget_lem s hn ht =
    rw (attempts_of_lem s hn, per_attempt_secs_of_lem s ht)
      (omega (
        arith,
        backoff_from_lem (s.transfer_service_retries - 1) 1 0,
        square s.transfer_service_retries hn,
      ))

-- The float product is exact where the result is below 2^62: a whole number of seconds is a
-- multiple of 2^9 nanoseconds, so such a value has at most 53 significant bits.
abbrev pub ScalesExactly : (ℤ → ℕ → ℤ) → Type 0
ScalesExactly scale =
    (n k : ℕ) → n * second * 2 ^ k < 2 ^ 62 → scale (pos (n * second)) k ≡ pos (n * second * 2 ^ k)

-- How many seconds a file takes at the slowest throughput.
abbrev pub secs_of : Settings → ℕ → ℕ
secs_of s size = size / (s.min_throughput_mbps * 1024 * 1024)

pos_add : (a b : ℕ) → pos a +ℤ pos b ≡ pos (a + b)
pos_add a b = omega int_laws

stretched_lem :
    (scale : ℤ → ℕ → ℤ) (secs k : ℕ)
    → ScalesExactly scale
    → k ≤ 30
    → secs * second * 2 ^ k < 2 ^ 62
    → (if ltb 0 k
        then scale (int64 (pos (secs * second))) (min k 30)
        else int64 (pos (secs * second)))
      ≡ pos (secs * second * 2 ^ k)
stretched_lem scale secs zero exact few small =
    int64-pos (secs * second) (omega (arith, small)) ∙ ap pos (omega arith)
stretched_lem scale secs (suc k) exact few small =
    let base : int64 (pos (secs * second)) ≡ pos (secs * second) =
      int64-pos (secs * second) (grind (arith, one-le-pow (suc k) 2 (omega arith))) in
    let shift : min (suc k) 30 ≡ suc k = omega arith in
    if_true _ _ (lt→ltb 0 (suc k) (omega arith)) ∙ rw (base, shift) (exact secs (suc k) small)

raw_timeout-exact :
    (scale : ℤ → ℕ → ℤ) (s : Settings) (size retry_count : ℕ)
    → ScalesExactly scale
    → retry_count ≤ 30
    → secs_of s size * second * 2 ^ retry_count < 2 ^ 62
    → calculate_transfer_service_execution_budget s < 2 ^ 62
    → raw_timeout scale s size retry_count
      ≡ pos (
          secs_of s size * second * 2 ^ retry_count + calculate_transfer_service_execution_budget s)
raw_timeout-exact scale s size retry_count exact few small cheap =
    unfold raw_timeout in
    (rw (stretched_lem scale (secs_of s size) retry_count exact few small) (
      rw
        (pos_add (secs_of s size * second * 2 ^ retry_count)
          (calculate_transfer_service_execution_budget s))
        (int64-pos _ (omega arith))))

-- A task that has been retried more often is not given less time, as long as nothing overflows.
pub calculate_dynamic_timeout_mono :
    (scale : ℤ → ℕ → ℤ) (s : Settings) (size j k : ℕ)
    → ScalesExactly scale
    → j ≤ k
    → k ≤ 30
    → secs_of s size * second * 2 ^ k < 2 ^ 62
    → calculate_transfer_service_execution_budget s < 2 ^ 62
    → s.min_timeout_secs ≤ s.max_timeout_secs
    → calculate_dynamic_timeout scale s size j ≤ℤ calculate_dynamic_timeout scale s size k
unfolding calculate_dynamic_timeout
calculate_dynamic_timeout_mono scale s size j k exact more few small cheap ordered =
    let grows : secs_of s size * second * 2 ^ j ≤ secs_of s size * second * 2 ^ k =
      mul-le-mul_left (secs_of s size * second) (pow-le-pow_right (omega arith) more) in
    ground (
      arith,
      grows,
      raw_timeout-exact scale s size j exact (omega arith) (omega arith) cheap,
      raw_timeout-exact scale s size k exact few small cheap,
    )
