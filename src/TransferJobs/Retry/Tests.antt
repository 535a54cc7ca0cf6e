-- ===== src/TransferJobs/Retry/Tests.antt =====
-- A retry of a job with two tasks, of which one has failed.
use tmp_cf_ytb_admin.Base.{ℕ, ◌≡◌, String, true, List, [], ◌∷◌, arith, ◌==◌, if◌then◌else◌}
use tmp_cf_ytb_admin.Models.{TransferTask, Stored, absent, parsed}
use tmp_cf_ytb_admin.TransferTasks.{TxKey, sharded_key, legacy_key, Server}
use tmp_cf_ytb_admin.TransferJobs.Retry.{retry_transfer_tasks_logic}
use tmp_cf_ytb_admin.TransferJobs.Retry.Batch.{is_in, retried, always}
use tmp_cf_ytb_admin.TransferJobs.Retry.Complete.{keys_of, retry_transfer_tasks_logic-IsDone}

abbrev task : ℕ → String → TransferTask
task n status = record {
  id = n;
  job_id = 2;
  src = "a/b";
  size = 10;
  status = status;
  error_message = "";
  worker_id = "w1";
  started_at = 1;
  completed_at = 2;
  created_at = 1;
  updated_at = 2;
  retry_count = 3;
  last_retry_time = "";
}

abbrev store : TxKey → Stored TransferTask
store (sharded_key j n) = parsed (task n (if n == 1 then "FAILED" else "COMPLETED"))
store (legacy_key n) = absent

abbrev server : Server
server = record { tasks = store; rows = []; jobs = []; stats = [] }

abbrev buckets : ℕ → List ℕ
buckets b = if b == 0 then 1 ∷ 2 ∷ [] else []

retry_transfer_tasks_logic-IsDone_example :
    (retry_transfer_tasks_logic 9 2 always always
        (λ k. true)
        true
        buckets
        []
        "COMPLETED"
        server
        7).server.tasks
      (sharded_key 2 1)
    ≡ (if is_in (sharded_key 2 1) (keys_of 9 2 (λ k. true) true buckets [])
        then retried 9 (store (sharded_key 2 1))
        else store (sharded_key 2 1))
retry_transfer_tasks_logic-IsDone_example =
    retry_transfer_tasks_logic-IsDone 9 2 (λ k. true) true buckets [] "COMPLETED" server 7
      (sharded_key 2 1) (λ e. omega arith)
