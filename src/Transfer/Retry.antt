-- ===== src/Transfer/Retry.antt =====
-- backend/worker_transfer/transfer.go, retries: what a worker reports at the end of a task
-- (`updateTaskStatusWithRetry`) and whether the retry scanner resets a failed task
-- (`shouldRetryTask`). `parse` is the time of an RFC 3339 string, in nanoseconds, or `none`;
-- `stamp` is the present time as such a string. Settings and times are not negative.
use tmp_cf_ytb_admin.Base.{
  ℕ, ◌+◌, ◌*◌, ◌^◌, ◌<◌, ◌≡◌, ◌≢◌, ap, ◌∙◌, String, str_eq, eq_iff, Bool, true, false, Option, none,
  some, arith, ltb, leb, if◌then◌else◌, pos, ℤ, int64, ltb_ℤ, ◌+ℤ◌, int64-pos, if_false, if_true,
}
use tmp_cf_ytb_admin.Models.{TransferTask}
use tmp_cf_ytb_admin.Transfer.Timeout.{second}

-- `TransferTask` of the worker: what it reads of a task, and what it sends back.
pub record WorkerTask : Type 0 where
  pub id : ℕ
  pub job_id : ℕ
  pub src : String
  pub size : ℕ
  pub status : String
  pub retry_count : ℕ
  pub last_retry_time : String

-- The server's task as the worker decodes it, and a report as the server decodes it.
abbrev pub as_read : TransferTask → WorkerTask
as_read t = record {
  id = t.id;
  job_id = t.job_id;
  src = t.src;
  size = t.size;
  status = t.status;
  retry_count = t.retry_count;
  last_retry_time = t.last_retry_time;
}

abbrev pub as_update : WorkerTask → TransferTask
as_update t = record {
  id = t.id;
  job_id = t.job_id;
  src = t.src;
  size = t.size;
  status = t.status;
  error_message = "";
  worker_id = "";
  started_at = 0;
  completed_at = 0;
  created_at = 0;
  updated_at = 0;
  retry_count = t.retry_count;
  last_retry_time = t.last_retry_time;
}

-- The task as it is reported; the message is not part of it.
unfoldable pub update_task_status_with_retry : String → WorkerTask → String → String → WorkerTask
update_task_status_with_retry stamp t status msg = record t {
  status = status;
  retry_count =
      if str_eq status "FAILED"
      then t.retry_count + 1
      else if str_eq status "COMPLETED"
      then 0
      else t.retry_count;
  last_retry_time =
      if str_eq status "FAILED"
      then stamp
      else if str_eq status "COMPLETED"
      then ""
      else t.last_retry_time;
}

module _ (max_retry_count retry_base_delay_secs : ℕ) where
  -- Both branches multiply by a power of two, the exponent being at most 30.
  unfoldable pub retry_delay : ℕ → ℤ
  retry_delay retry_count =
      if ltb retry_count 30
      then int64 (pos (retry_base_delay_secs * 2 ^ retry_count * second))
      else int64 (pos (retry_base_delay_secs * 1073741824 * second))

  abbrev waited : ℕ → ℕ → Option ℕ → Bool
  waited now retry_count none = true
  waited now retry_count (some last) = ltb_ℤ (pos last +ℤ retry_delay retry_count) (pos now)

  unfoldable pub should_retry_task : (String → Option ℕ) → ℕ → WorkerTask → Bool
  unfolding retry_delay
  should_retry_task parse now t =
      if leb max_retry_count t.retry_count
      then false
      else if str_eq t.last_retry_time ""
      then true
      else waited now t.retry_count (parse t.last_retry_time)

  -- A failed task that carries the time of its last failure is reset exactly when it has a retry
  -- left and more than the base delay doubled once for each failure has passed, as long as that
  -- delay fits in 63 bits.
  pub should_retry_task_lem :
      (parse : String → Option ℕ) (now last : ℕ) (t : WorkerTask)
      → t.retry_count < max_retry_count
      → t.retry_count < 30
      → t.last_retry_time ≢ ""
      → parse t.last_retry_time ≡ some last
      → retry_base_delay_secs * 2 ^ t.retry_count * second < 2 ^ 63
      → should_retry_task parse now t
        ≡ ltb (last + retry_base_delay_secs * 2 ^ t.retry_count * second) now
  unfolding should_retry_task retry_delay ◌+ℤ◌
  should_retry_task_lem parse now last t left few stamped known small =
      if_false {b = leb max_retry_count t.retry_count} false _ (ground arith)
      ∙ if_false {b = str_eq t.last_retry_time ""} true _
          (ground (arith, eq_iff t.last_retry_time ""))
      ∙ ap (waited now t.retry_count) known
      ∙ ap (λ d. ltb_ℤ (pos last +ℤ d) (pos now))
          (if_true {b = ltb t.retry_count 30} _
              (int64 (pos (retry_base_delay_secs * 1073741824 * second))) (ground arith)
            ∙ int64-pos _ small)
      ∙ ground arith
