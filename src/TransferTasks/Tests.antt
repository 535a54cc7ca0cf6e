-- ===== src/TransferTasks/Tests.antt =====
-- Runs of the handlers of transfer tasks, and their theorems at concrete inputs.
use tmp_cf_ytb_admin.Base.{
  ◌≤◌, ◌≡◌, refl, sym, ap, ◌∙◌, ◌==◌, if◌then◌else◌, String, Bool, true, false, Option, none, some,
  [], ◌∷◌, arith, ltb, get, put,
}
use tmp_cf_ytb_admin.Models.{TransferTask, Stored, parsed}
use tmp_cf_ytb_admin.Transfer.Retry.{
  as_read, as_update, update_task_status_with_retry, should_retry_task,
}
use tmp_cf_ytb_admin.TransferTasks.{
  TxKey, Server, Replies, mark_running, merge_tx, batch_update_transfer, collect, update_row_of,
  get_tx_task_key, carry_out, add_sizes, promote_transfer_job_to_running,
  reactivate_transfer_job_on_pending_work,
}
use tmp_cf_ytb_admin.TransferTasks.Lifecycle.{Life, created, buffered, handed_out, fails, Life-le}
use tmp_cf_ytb_admin.TransferTasks.Rows.{NoRetryTime, should_retry_task-at_once}
use tmp_cf_ytb_admin.TransferTasks.Reset.{reset_transfer_task, reset_in_jobs, was_reset}

abbrev task : TransferTask
task = record {
  id = 5;
  job_id = 2;
  src = "a/b";
  size = 10;
  status = "PENDING";
  error_message = "";
  worker_id = "";
  started_at = 0;
  completed_at = 0;
  created_at = 1;
  updated_at = 1;
  retry_count = 0;
  last_retry_time = "";
}

abbrev running : TransferTask
running = record task { status = "RUNNING"; worker_id = "w1"; started_at = 3 }

abbrev failed : TransferTask
failed = record running {
  status = "FAILED";
  error_message = "timeout";
  retry_count = 1;
  last_retry_time = "1970-01-01T00:00:05Z";
}

-- Handed out, failed, and ready to be retried.
first_run :
    Life 3 1
      (merge_tx (mark_running 3 "w1" task) (
        as_update (
          update_task_status_with_retry "1970-01-01T00:00:05Z"
            (as_read (mark_running 3 "w1" task))
            "FAILED"
            "timeout")))
      none
first_run =
    fails {t = mark_running 3 "w1" task} "1970-01-01T00:00:05Z" "timeout"
      (unfold mark_running in refl)
      (handed_out {c = task} 3 "w1" refl (buffered refl (created task refl refl)))

Life-le_example : 1 ≤ 3
Life-le_example = Life-le (omega arith) first_run

-- Task 5 of job 2 is running.
abbrev store : TxKey → Stored TransferTask
store k = parsed running

abbrev server : Server
server = record { tasks = store; rows = (5, running) ∷ []; jobs = []; stats = [] }

abbrev all_well : Replies
all_well = record { fetched = true; synced = true; carried = 10 }

abbrev time_of : Option TransferTask → String
time_of none = ""
time_of (some t) = t.last_retry_time

time_of-if : (b : Bool) → time_of (if b then some running else none) ≡ ""
time_of-if true = refl
time_of-if false = refl

server-NoRetryTime : NoRetryTime server.rows
unfolding get
server-NoRetryTime k row e = sym (ap time_of e) ∙ time_of-if (5 == k)

abbrev row : TransferTask
row = record running {
  status = "FAILED";
  error_message = "timeout";
  retry_count = 1;
  completed_at = 9;
  updated_at = 9;
}

after :
    get 5 (batch_update_transfer (λ j. true) 9 all_well (some (failed ∷ [])) server).1.rows
    ≡ some row
unfolding batch_update_transfer collect carry_out add_sizes merge_tx update_row_of get_tx_task_key
    get put promote_transfer_job_to_running reactivate_transfer_job_on_pending_work
after = refl

should_retry_task-at_once_example :
    should_retry_task 3 60 (λ s. none) 10 (as_read row) ≡ ltb row.retry_count 3
should_retry_task-at_once_example =
    should_retry_task-at_once (λ j. true) 9 all_well (failed ∷ []) server 3 60 10 5 (λ s. none) row
      server-NoRetryTime after

abbrev unsynced : Replies
unsynced = record all_well { synced = false }

abbrev row_failed : TransferTask
row_failed = record failed { last_retry_time = "" }

abbrev failed_server : Server
failed_server = record server { tasks = λ k. parsed failed; rows = (5, row_failed) ∷ [] }

reset_reply :
    (reset_transfer_task
      (λ j. true)
      10
      true
      true
      (some (5, "PENDING"))
      (some (2 ∷ []))
      failed_server).0
    ≡ was_reset
unfolding reset_transfer_task reset_in_jobs
reset_reply = refl
