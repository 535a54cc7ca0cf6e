-- ===== src/Transfer/Adaptive/Tests.antt =====
-- Runs of the controller, and its theorems at concrete inputs.
use tmp_cf_ytb_admin.Base.{
  ℕ, ◌+◌, ◌*◌, ◌/◌, ◌≤◌, ◌≡◌, refl, List, [], ◌∷◌, arith, ltb, length, min, ℤ, pos, negsuc,
}
use tmp_cf_ytb_admin.Transfer.Timeout.{second}
use tmp_cf_ytb_admin.Transfer.Adaptive.{Floats, Controller, Config, adjust_concurrency}
use tmp_cf_ytb_admin.Transfer.Adaptive.Bounds.{
  AreSane, Shrinks, InBounds, adjusts, adjust_concurrency-InBounds, adjusts-recovers,
}

abbrev percent_of : ℤ → ℕ → ℤ
percent_of (pos n) f = pos (n * f / 100)
percent_of (negsuc n) f = pos 0

abbrev share_of : ℕ → ℤ → ℕ → ℤ
share_of parts (pos n) most = pos ((parts * n * 2 + most) / (most * 2))
share_of parts (negsuc n) most = pos 0

-- Numbers of per cent stand for the floating-point numbers.
abbrev percents : Floats
percents = record {
  F = ℕ;
  of_ℕ = λ n. n * 100;
  quotient = λ a b. a * 100 / b;
  over = λ a b. ltb b a;
  scale = percent_of;
  share = share_of;
}

abbrev config : Config percents
config = record {
  min_workers = 2;
  max_workers = 20;
  part_concurrency = 4;
  max_latency_samples = 100;
  concurrency_increase_step = 2;
  concurrency_cooldown_secs = 30;
  concurrency_decrease_factor = 70;
  four_tenths = 40;
  error_rate_threshold = 10;
  avg_latency_threshold_ms = 500;
  conn_pool_utilization_threshold = 90;
}

-- Half of the transfers fail.
abbrev failing : Controller
failing = record {
  effective_worker_count = pos 10;
  effective_part_concurrency = pos 4;
  window_total = 20;
  window_errors = 10;
  recent_total = 20;
  recent_errors = 10;
  recent_latencies = 100 ∷ 200 ∷ [];
  last_decrease_time = 0;
}

Shrinks-70 : Shrinks percents config 70
Shrinks-70 n = (n * 70 / 100, refl, omega arith)

Shrinks-40 : Shrinks percents config 40
Shrinks-40 n = (n * 40 / 100, refl, omega arith)

sane : AreSane percents config
sane = (omega arith, omega arith, omega arith)

between : InBounds percents config failing
between = (omega arith, omega arith)

adjust_concurrency-InBounds_example :
    InBounds percents config (adjust_concurrency percents config 10 (40 * second) failing)
adjust_concurrency-InBounds_example =
    adjust_concurrency-InBounds percents config 10 (40 * second) failing sane Shrinks-70 Shrinks-40
      between

abbrev after_cooldown : Controller
after_cooldown = record failing { last_decrease_time = 20 * second }

abbrev times : List ℕ
times = 50 * second ∷ 60 * second ∷ 70 * second ∷ []

adjusts-recovers_example :
    (k : ℕ) × ((adjusts percents config times failing).effective_worker_count ≡ pos k)
    × (min (10 + length times) 20 ≤ k)
    × (k ≤ 20)
adjusts-recovers_example = adjusts-recovers percents config times 10 failing sane refl (omega arith)
