-- ===== src/Transfer/Adaptive.antt =====
-- backend/worker_transfer/transfer.go, the adaptive concurrency: what is recorded of each transfer
-- (`recordTransferLatency`, `recordTransferResult`) and the controller `adjustConcurrency`. The
-- floating-point operations are the argument `Floats`; an `int32` keeps its wrap-around. Times are
-- nanoseconds. The adaptive mode is on.
pub mod Bounds
mod Tests
use tmp_cf_ytb_admin.Base.{
  ℕ, zero, suc, ◌+◌, ◌-◌, ◌*◌, ◌/◌, ◌%◌, ◌^◌, Bool, true, false, not, ◌&&◌, List, [], ◌∷◌, ◌++◌,
  ltb, leb, ◌==◌, if◌then◌else◌, length, drop, ℤ, pos, negsuc, sub_ℕ, ◌+ℤ◌, ltb_ℤ,
}
use tmp_cf_ytb_admin.Transfer.Timeout.{second}

-- `float64(n)`, the quotient, the test `a > b`, `int32(float64(n) * f)`, and
-- `int32(float64(parts) * (float64(n) / float64(max)) + 0.5)`.
pub record Floats : Type 1 where
  pub F : Type 0
  pub of_ℕ : ℕ → F
  pub quotient : F → F → F
  pub over : F → F → Bool
  pub scale : ℤ → F → ℤ
  pub share : ℕ → ℤ → ℕ → ℤ

-- The integer that an `int32` holds when the exact result is given.
unfoldable pub int32 : ℤ → ℤ
int32 (pos n) = let m = n % 2 ^ 32 in if ltb m (2 ^ 31) then pos m else negsuc (2 ^ 32 - 1 - m)
int32 (negsuc n) = let m = n % 2 ^ 32 in if ltb m (2 ^ 31) then negsuc m else pos (2 ^ 32 - 1 - m)

-- Division by 3 towards 0.
abbrev pub third : ℤ → ℤ
third (pos n) = pos (n / 3)
third (negsuc n) = sub_ℕ 0 (suc n / 3)

-- What the controller measures and what it sets.
pub record Controller : Type 0 where
  pub effective_worker_count : ℤ
  pub effective_part_concurrency : ℤ
  pub window_total : ℕ
  pub window_errors : ℕ
  pub recent_total : ℕ
  pub recent_errors : ℕ
  pub recent_latencies : List ℕ
  pub last_decrease_time : ℕ

module _ (fl : Floats) where
  pub record Config : Type 0 where
    pub min_workers : ℕ
    pub max_workers : ℕ
    pub part_concurrency : ℕ
    pub max_latency_samples : ℕ
    pub concurrency_increase_step : ℕ
    pub concurrency_cooldown_secs : ℕ
    pub concurrency_decrease_factor : fl.F
    pub four_tenths : fl.F
    pub error_rate_threshold : fl.F
    pub avg_latency_threshold_ms : ℕ
    pub conn_pool_utilization_threshold : fl.F

  -- The oldest samples go first.
  unfoldable pub record_transfer_latency : Config → ℕ → Controller → Controller
  record_transfer_latency cfg latency c =
      let all = c.recent_latencies ++ latency ∷ [] in
      record c { recent_latencies = drop (length all - cfg.max_latency_samples) all }

  unfoldable pub record_transfer_result : Bool → Controller → Controller
  record_transfer_result success c =
      let errors = if success then 0 else 1 in
      record c {
        recent_total = c.recent_total + 1;
        recent_errors = c.recent_errors + errors;
        window_total = c.window_total + 1;
        window_errors = c.window_errors + errors;
      }

  unfoldable pub get_error_rate : Controller → fl.F
  get_error_rate c =
      if c.window_total == 0
      then fl.of_ℕ 0
      else fl.quotient (fl.of_ℕ c.window_errors) (fl.of_ℕ c.window_total)

  abbrev pub sum : List ℕ → ℕ
  sum [] = 0
  sum (n ∷ ns) = n + sum ns

  unfoldable pub get_avg_latency_ms : Controller → fl.F
  get_avg_latency_ms c =
      if length c.recent_latencies == 0
      then fl.of_ℕ 0
      else fl.quotient (fl.of_ℕ (sum c.recent_latencies)) (fl.of_ℕ (length c.recent_latencies))

  abbrev pub one_if : Bool → ℕ
  one_if true = 1
  one_if false = 0

  -- How many thresholds are exceeded; `pool` is how much of the connection pool is in use.
  unfoldable pub trigger_reasons : Config → fl.F → Controller → ℕ
  unfolding get_error_rate get_avg_latency_ms
  trigger_reasons cfg pool c =
      one_if (fl.over (get_error_rate c) cfg.error_rate_threshold)
      + one_if (fl.over (get_avg_latency_ms c) (fl.of_ℕ cfg.avg_latency_threshold_ms))
      + one_if (fl.over pool cfg.conn_pool_utilization_threshold)

  abbrev pub in_cooldown : Config → ℕ → Controller → Bool
  in_cooldown cfg now c = ltb (now - c.last_decrease_time) (cfg.concurrency_cooldown_secs * second)

  abbrev pub at_least : ℤ → ℤ → ℤ
  at_least low n = if ltb_ℤ n low then low else n

  abbrev pub at_most : ℤ → ℤ → ℤ
  at_most high n = if ltb_ℤ high n then high else n

  abbrev pub same_ℤ : ℤ → ℤ → Bool
  same_ℤ a b = not (ltb_ℤ a b) && not (ltb_ℤ b a)

  abbrev pub factor_of : Config → ℕ → fl.F
  factor_of cfg reasons = if leb 2 reasons then cfg.four_tenths else cfg.concurrency_decrease_factor

  unfoldable pub lowered : Config → ℕ → Controller → ℤ
  lowered cfg reasons c =
      at_least (pos cfg.min_workers) (fl.scale c.effective_worker_count (factor_of cfg reasons))

  unfoldable pub decrease : Config → ℕ → ℕ → Controller → Controller
  unfolding lowered
  decrease cfg reasons now c =
      let new = lowered cfg reasons c in
      if same_ℤ new c.effective_worker_count then c else record c {
        last_decrease_time = now;
        effective_worker_count = new;
        effective_part_concurrency =
            at_least (pos 1) (fl.scale (pos cfg.part_concurrency) (factor_of cfg reasons));
      }

  abbrev pub step_of : Config → ℕ → Controller → ℕ
  step_of cfg now c =
      if in_cooldown cfg now c
      then 1
      else if ltb_ℤ c.effective_worker_count (third (int32 (pos (cfg.max_workers * 2))))
      then cfg.concurrency_increase_step * 2
      else cfg.concurrency_increase_step

  unfoldable pub raised : Config → ℕ → Controller → ℤ
  unfolding int32
  raised cfg now c =
      at_most (pos cfg.max_workers)
        (int32 (c.effective_worker_count +ℤ int32 (pos (step_of cfg now c))))

  unfoldable pub increase : Config → ℕ → Controller → Controller
  unfolding raised
  increase cfg now c =
      let new = raised cfg now c in
      if not (ltb_ℤ c.effective_worker_count (pos cfg.max_workers))
      then c
      else if same_ℤ new c.effective_worker_count
      then c
      else record c {
        effective_worker_count = new;
        effective_part_concurrency =
            at_least (pos 1) (fl.share cfg.part_concurrency new cfg.max_workers);
      }

  -- The end of an adjustment, which one that is put off by the cooldown does not reach.
  abbrev pub forget : Controller → Controller
  forget c = record c {
    window_total = 0;
    window_errors = 0;
    recent_total = 0;
    recent_errors = 0;
    recent_latencies = [];
  }

  -- The adjustment, once the exceeded thresholds are counted.
  unfoldable pub adjust_by : Config → ℕ → ℕ → Controller → Controller
  unfolding decrease increase
  adjust_by cfg reasons now c =
      if reasons == 0
      then forget (increase cfg now c)
      else if in_cooldown cfg now c
      then c
      else forget (decrease cfg reasons now c)

  unfoldable pub adjust_concurrency : Config → fl.F → ℕ → Controller → Controller
  unfolding trigger_reasons adjust_by
  adjust_concurrency cfg pool now c = adjust_by cfg (trigger_reasons cfg pool c) now c
