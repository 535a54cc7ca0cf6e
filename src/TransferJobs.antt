-- ===== src/TransferJobs.antt =====
-- backend/go-app/handlers/job_handler.go, the transfer jobs: `StartTransferJob`,
-- `StopTransferJob`, `UpdateTransferJobStatus`, by which a scanner reports each of its scans, and
-- the counts that they ask of the table of tasks. A handler works on the row of its job; whether a
-- statement succeeds is the argument `db`, and `mirrors` says whether gorm copies the columns of an
-- update into the struct it was called with. Times are nanoseconds.
pub mod Scans
pub mod Retry
mod Tests
use tmp_cf_ytb_admin.Base.{
  ℕ, zero, ◌+◌, ◌-◌, ◌/◌, String, str_eq, Bool, true, false, not, ◌&&◌, ◌||◌, Option, none, some,
  List, [], ◌∷◌, ltb, leb, ◌==◌, if◌then◌else◌, count, ℤ, pos, sub_ℕ,
}
use tmp_cf_ytb_admin.Models.{TransferTask}

pub record TransferJob : Type 0 where
  pub is_incremental : Bool
  pub last_scan_time : Option ℕ
  pub last_scanned_key : Option String
  pub status : String
  pub start_time : Option ℕ
  pub end_time : Option ℕ
  pub duration_seconds : ℤ
  pub execution_count : ℕ
  pub consecutive_idle_scans : ℕ
  pub total_count : ℕ
  pub result_message : String

-- The table `transfer_tasks`.
abbrev pub Tasks : Type 0
Tasks = List TransferTask

pub record TransferTaskCounts : Type 0 where
  pub total : ℕ
  pub pending : ℕ
  pub running : ℕ
  pub success : ℕ
  pub failed : ℕ

abbrev pub has : ℕ → String → TransferTask → Bool
has job status t = t.job_id == job && str_eq t.status status

unfoldable pub get_transfer_task_counts : ℕ → Tasks → TransferTaskCounts
get_transfer_task_counts job tasks = record {
  total = count (λ t. t.job_id == job) tasks;
  pending = count (has job "PENDING") tasks;
  running = count (has job "RUNNING") tasks;
  success = count (has job "COMPLETED") tasks;
  failed = count (has job "FAILED") tasks;
}

-- How many tasks are open, and how many have failed and are to be retried.
unfoldable pub get_transfer_job_activity_counts : ℕ → Tasks → ℕ × ℕ
get_transfer_job_activity_counts job tasks = (
  count (λ t. t.job_id == job && (str_eq t.status "PENDING" || str_eq t.status "RUNNING")) tasks,
  count (λ t. has job "FAILED" t && ltb t.retry_count 3) tasks,
)

-- The statements of the handlers, in the order in which they are run.
pub data Statement : Type 0 where
  find updates execution counts idle reload finish : Statement

pub data Response : Type 0 where
  bad_request not_found db_error ok : Response

-- What a handler leaves: the response, the row, and whether it refills the buffer or has the
-- failed tasks retried.
pub data FollowUp : Type 0 where
  nothing refill retry : FollowUp

module _ (db : Statement → Bool) (job_id : ℕ) (tasks : Tasks) where
  abbrev pub restarted : TransferJob → TransferJob
  restarted j = record j {
    status = "PENDING";
    start_time = none;
    end_time = none;
    duration_seconds = pos 0;
    consecutive_idle_scans = 0;
    result_message = "";
    last_scan_time = if j.is_incremental then none else j.last_scan_time;
    last_scanned_key = if j.is_incremental then none else j.last_scanned_key;
  }

  abbrev pub follow_up : TransferTaskCounts → FollowUp
  follow_up c = if ltb 0 c.total && c.pending == 0 && c.running == 0 then retry else refill

  unfoldable pub start_transfer_job : TransferJob → Response × (TransferJob × FollowUp)
  unfolding get_transfer_task_counts
  start_transfer_job j =
      if not (db find)
      then (not_found, (j, nothing))
      else if not (db updates)
      then (db_error, (j, nothing))
      else if j.is_incremental
      then (ok, (restarted j, refill))
      else if not (db counts)
      then (db_error, (restarted j, nothing))
      else (ok, (restarted j, follow_up (get_transfer_task_counts job_id tasks)))

  unfoldable pub stop_transfer_job : TransferJob → Response × TransferJob
  stop_transfer_job j =
      if not (db find)
      then (not_found, j)
      else if not (db updates)
      then (db_error, j)
      else (ok, record j { status = "STOPPED" })

abbrev pub incremental_idle_scan_threshold : ℕ
incremental_idle_scan_threshold = 2

pub record UpdateJobStatusRequest : Type 0 where
  pub status : String
  pub last_scan_time : Option ℕ
  pub last_scanned_key : Option String
  pub result_message : String
  pub start_time : Option ℕ
  pub end_time : Option ℕ
  pub total_count : Option ℕ
  pub inc_execution : Bool
  pub scan_discovered_count : Option ℕ

abbrev pub given {ℓ} : {A : Type ℓ} → Option A → Bool
given none = false
given (some a) = true

abbrev pub or_old {ℓ} : {A : Type ℓ} → Option A → Option A → Option A
or_old none old = old
or_old (some a) old = some a

abbrev pub or_value {ℓ} : {A : Type ℓ} → Option A → A → A
or_value none old = old
or_value (some a) old = a

-- Whole seconds from a time to another, towards 0.
unfoldable pub seconds_between : ℕ → ℕ → ℤ
seconds_between start stop =
    if leb start stop
    then pos ((stop - start) / 1000000000)
    else sub_ℕ 0 ((start - stop) / 1000000000)

abbrev pub duration_of : UpdateJobStatusRequest → TransferJob → Option ℕ → ℤ
duration_of r j none = j.duration_seconds
duration_of r j (some stop) =
    let start = or_value r.start_time (or_value j.start_time 0) in
    if start == 0 then j.duration_seconds else seconds_between start stop

-- Whether the map of updates has an entry, and the row with the entries written.
abbrev pub has_updates : UpdateJobStatusRequest → Bool
has_updates r =
    not (str_eq r.status "")
    || given r.last_scan_time
    || given r.last_scanned_key
    || not (str_eq r.result_message "")
    || given r.start_time
    || given r.total_count
    || given r.end_time

unfoldable pub apply_request : UpdateJobStatusRequest → TransferJob → TransferJob
unfolding seconds_between
apply_request r j = record j {
  status = if str_eq r.status "" then j.status else r.status;
  last_scan_time = or_old r.last_scan_time j.last_scan_time;
  last_scanned_key = or_old r.last_scanned_key j.last_scanned_key;
  result_message = if str_eq r.result_message "" then j.result_message else r.result_message;
  start_time = or_old r.start_time j.start_time;
  total_count = or_value r.total_count j.total_count;
  end_time = or_old r.end_time j.end_time;
  duration_seconds = duration_of r j r.end_time;
}

module _ (mirrors : Bool) (db : Statement → Bool) (job_id : ℕ) (tasks : Tasks) where
  -- An idle scan of an incremental job, which is read again after it was counted.
  abbrev pub idle_scan : TransferJob → Response × TransferJob
  idle_scan row =
      let counted = record row { consecutive_idle_scans = row.consecutive_idle_scans + 1 } in
      if not (db idle)
      then (db_error, row)
      else if not (db reload)
      then (not_found, counted)
      else if leb incremental_idle_scan_threshold counted.consecutive_idle_scans
          && not (str_eq counted.status "STOPPED")
          && not (str_eq counted.status "FAILED")
      then (if db finish
          then (ok, record counted { status = "PHASEDCOMPLETED" })
          else (db_error, counted))
      else (ok, counted)

  abbrev pub busy_scan : TransferJob → Response × TransferJob
  busy_scan row =
      if db finish
      then (ok, record row { status = "RUNNING"; consecutive_idle_scans = 0 })
      else (db_error, row)

  -- Whether a scan has found nothing and nothing is left to do.
  abbrev pub is_quiet : UpdateJobStatusRequest → Bool
  is_quiet r =
      let activity = get_transfer_job_activity_counts job_id tasks in
      or_value r.scan_discovered_count 0 == 0 && activity.0 == 0 && activity.1 == 0

  -- From the count of executions on: `held` is the struct, `row` the row.
  abbrev pub after_scan :
      UpdateJobStatusRequest → TransferJob → TransferJob → Response × TransferJob
  after_scan r held row =
      if not (db counts)
      then (db_error, row)
      else if held.is_incremental
      then (if is_quiet r then idle_scan row else busy_scan row)
      else if is_quiet r && str_eq held.status "RUNNING"
      then (if db finish then (ok, record row { status = "COMPLETED" }) else (db_error, row))
      else (ok, row)

  abbrev pub after_updates :
      UpdateJobStatusRequest → TransferJob → TransferJob → Response × TransferJob
  after_updates r held row =
      if not r.inc_execution
      then (ok, row)
      else if not (db execution)
      then (db_error, row)
      else after_scan r held (record row { execution_count = row.execution_count + 1 })

  unfoldable pub update_transfer_job_status :
      Option UpdateJobStatusRequest → TransferJob → Response × TransferJob
  unfolding apply_request get_transfer_job_activity_counts
  update_transfer_job_status none j = (bad_request, j)
  update_transfer_job_status (some r) j =
      let row = apply_request r j in
      if not (db find)
      then (not_found, j)
      else if not (has_updates r)
      then after_updates r j j
      else if not (db updates)
      then (db_error, j)
      else after_updates r (if mirrors then row else record row { status = j.status }) row
