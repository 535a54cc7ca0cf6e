-- ===== src/Transfer/Tests.antt =====
-- Runs of the transfer worker's calculations, and their theorems at concrete inputs.
use tmp_cf_ytb_admin.Base.{
  ℕ, ◌+◌, ◌*◌, ◌^◌, ◌≡◌, refl, String, Option, some, arith, pos, pos_part, ℤ,
}
use tmp_cf_ytb_admin.Models.{TransferTask}
use tmp_cf_ytb_admin.Transfer.Timeout.{
  second, Settings, backoff_from, attempts_of, per_attempt_secs_of,
  calculate_transfer_service_execution_budget,
}
use tmp_cf_ytb_admin.Transfer.Parts.{plan_parts, default_part_size, Tiles, plan_parts-Tiles}

abbrev settings : Settings
settings = record {
  min_timeout_secs = 60;
  max_timeout_secs = 3600;
  min_throughput_mbps = 1;
  transfer_service_retries = 3;
  transfer_service_worker_timeout_secs = 60;
  transfer_service_response_header_timeout_secs = 0;
}

-- The float product, exact.
abbrev doubled : ℤ → ℕ → ℤ
doubled n k = pos (pos_part n * 2 ^ k)

budget : calculate_transfer_service_execution_budget settings ≡ 378 * second
unfolding calculate_transfer_service_execution_budget attempts_of per_attempt_secs_of backoff_from
budget = refl

abbrev file : ℕ
file = 100 * 2 ^ 20

plan_parts-Tiles_example : Tiles 1 0 40000000 (plan_parts default_part_size 40000000)
plan_parts-Tiles_example = plan_parts-Tiles default_part_size 40000000 (omega arith) (omega arith)

abbrev over : ℕ
over = default_part_size * 10000 + 1

abbrev failed_task : TransferTask
failed_task = record {
  id = 5;
  job_id = 2;
  src = "a/b";
  size = 10;
  status = "FAILED";
  error_message = "timeout";
  worker_id = "w1";
  started_at = 3;
  completed_at = 4;
  created_at = 1;
  updated_at = 4;
  retry_count = 1;
  last_retry_time = "1970-01-01T00:00:05Z";
}

abbrev read_time : String → Option ℕ
read_time s = some (5 * second)
