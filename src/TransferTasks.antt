-- ===== src/TransferTasks.antt =====
-- backend/go-app/handlers/task_handler.go and job_handler.go, the tasks of transfer jobs: what
-- `markTransferTasksRunning` makes of a task, `BatchUpdateTransfer`, the two resets of
-- job_handler.go and what they call. A task is kept twice: as a value in Redis, under a key that
-- depends on how the job is stored, and as a row in PostgreSQL, written by INSERT … ON CONFLICT
-- (id) DO UPDATE of some columns. Which calls succeed is an argument, and so is `sharded`, the
-- mode of each job (`isJobSharded`, which is fixed by its first answer). Tasks can be written as
-- JSON.
pub mod Lifecycle
pub mod Rows
pub mod Reset
pub mod Acquire
mod Tests
use tmp_cf_ytb_admin.Base.{
  ℕ, zero, ◌+◌, String, str_eq, Bool, true, false, not, ◌&&◌, ◌||◌, Option, none, some, List, [],
  ◌∷◌, ◌++◌, map, ltb, leb, ◌==◌, if◌then◌else◌, length, take, get, put,
}
use tmp_cf_ytb_admin.Models.{TransferTask, Stored, absent, malformed, parsed}
use tmp_cf_ytb_admin.Stats.{StatsBuffer, track_tx_status_change}

pub data TxKey : Type 0 where
  sharded_key : ℕ → ℕ → TxKey
  legacy_key : ℕ → TxKey

abbrev pub same_key : TxKey → TxKey → Bool
same_key (sharded_key a b) (sharded_key c d) = a == c && b == d
same_key (legacy_key a) (legacy_key b) = a == b
same_key _ _ = false

unfoldable pub get_tx_task_key : (ℕ → Bool) → ℕ → ℕ → TxKey
get_tx_task_key sharded job task = if sharded job then sharded_key job task else legacy_key task

-- The columns of `transfer_jobs` that the handlers write; `success_size_bytes` too.
pub record TxJob : Type 0 where
  pub status : String
  pub consecutive_idle_scans : ℕ
  pub end_time : Option ℕ
  pub duration_seconds : ℕ
  pub success_size_bytes : ℕ

abbrev pub Rows : Type 0
Rows = List (ℕ × TransferTask)

pub record Server : Type 0 where
  pub tasks : TxKey → Stored TransferTask
  pub rows : Rows
  pub jobs : List (ℕ × TxJob)
  pub stats : StatsBuffer

abbrev restarted : String → TxJob → TxJob
restarted status j = record j {
  status = status;
  consecutive_idle_scans = 0;
  end_time = none;
  duration_seconds = 0;
}

abbrev pub update_job : (TxJob → TxJob) → ℕ → Server → Server
update_job f job s = elim (get job s.jobs) [
  | none ↦ s
  | some j ↦ record s { jobs = put job (f j) s.jobs }
]

unfoldable pub reactivate_transfer_job_on_pending_work : ℕ → Server → Server
reactivate_transfer_job_on_pending_work = update_job (λ j.
    restarted
      (if str_eq j.status "COMPLETED" || str_eq j.status "PHASEDCOMPLETED"
        then "PENDING"
        else j.status)
      j)

unfoldable pub promote_transfer_job_to_running : ℕ → Server → Server
promote_transfer_job_to_running = update_job (λ j.
    restarted
      (if str_eq j.status "PENDING"
          || str_eq j.status "COMPLETED"
          || str_eq j.status "PHASEDCOMPLETED"
        then "RUNNING"
        else j.status)
      j)

-- The row is inserted, or the listed columns of the row that is there are assigned.
abbrev pub upsert : (TransferTask → TransferTask → TransferTask) → TransferTask → Rows → Rows
upsert assign row rows = elim (get row.id rows) [
  | none ↦ put row.id row rows
  | some old ↦ put row.id (assign row old) rows
]

abbrev pub write_key :
    TxKey → TransferTask → (TxKey → Stored TransferTask) → TxKey → Stored TransferTask
write_key k t tasks j = if same_key j k then parsed t else tasks j

abbrev pub set_all :
    List (TxKey × TransferTask) → (TxKey → Stored TransferTask) → TxKey → Stored TransferTask
set_all [] tasks = tasks
set_all ((k, t) ∷ cs) tasks = set_all cs (write_key k t tasks)

abbrev once : ℕ → ℕ → ℕ
once now old = if old == 0 then now else old

-- A task when it is handed out.
unfoldable pub mark_running : ℕ → String → TransferTask → TransferTask
mark_running now worker t = if not (str_eq t.status "PENDING") then t else record t {
  status = "RUNNING";
  worker_id = worker;
  updated_at = now;
  started_at = once now t.started_at;
}

-- The task of an update, filled up from the stored one.
unfoldable pub merge_tx : TransferTask → TransferTask → TransferTask
merge_tx existing u = record u {
  error_message = if str_eq u.error_message "" then existing.error_message else u.error_message;
  worker_id = if str_eq u.worker_id "" then existing.worker_id else u.worker_id;
  started_at = once existing.started_at u.started_at;
  created_at = once existing.created_at u.created_at;
  size = once existing.size u.size;
  src = if str_eq u.src "" then existing.src else u.src;
  retry_count =
      if u.retry_count == 0 && str_eq u.status "FAILED" && not (str_eq existing.status "FAILED")
      then existing.retry_count + 1
      else u.retry_count;
}

-- The columns that a new row is given by no one; gorm sets `created_at` to the time of the insert.
abbrev pub blank_row : TransferTask → TransferTask
blank_row t = record t {
  error_message = "";
  started_at = 0;
  completed_at = 0;
  created_at = 0;
  retry_count = 0;
  last_retry_time = "";
}

-- The row that `BatchUpdateTransfer` writes.
unfoldable pub update_row_of : ℕ → TransferTask → TransferTask
update_row_of now u = record (blank_row u) {
  error_message = u.error_message;
  retry_count = u.retry_count;
  created_at = now;
  updated_at = now;
  started_at = if str_eq u.status "RUNNING" && u.started_at == 0 then now else u.started_at;
  completed_at =
      if (str_eq u.status "COMPLETED" || str_eq u.status "FAILED") && u.completed_at == 0
      then now
      else u.completed_at;
}

abbrev pub assign_update : TransferTask → TransferTask → TransferTask
assign_update row old = record old {
  status = row.status;
  worker_id = row.worker_id;
  error_message = row.error_message;
  retry_count = row.retry_count;
  started_at = row.started_at;
  completed_at = row.completed_at;
  updated_at = row.updated_at;
}

-- A change of status that is dealt with after the writes.
pub record JobAction : Type 0 where
  pub job : ℕ
  pub status : String
  pub old_status : String

-- What the loop over the updates collects.
pub record Collected : Type 0 where
  pub commands : List (TxKey × TransferTask)
  pub rows : List TransferTask
  pub actions : List JobAction
  pub increments : List (ℕ × ℕ)

abbrev pub merged : Stored TransferTask → TransferTask → TransferTask
merged absent u = u
merged malformed u = u
merged (parsed existing) u = merge_tx existing u

abbrev pub actions_of : Stored TransferTask → TransferTask → List JobAction
actions_of absent u = []
actions_of malformed u = []
actions_of (parsed existing) u =
    if not (str_eq existing.status "") && not (str_eq existing.status u.status)
    then record { job = u.job_id; status = u.status; old_status = existing.status } ∷ []
    else []

abbrev pub increments_of : Stored TransferTask → TransferTask → List (ℕ × ℕ)
increments_of absent u = []
increments_of malformed u = []
increments_of (parsed existing) u =
    if not (str_eq existing.status "COMPLETED")
      && str_eq u.status "COMPLETED"
      && ltb 0 existing.size
    then (u.job_id, existing.size) ∷ []
    else []

module _ (sharded : ℕ → Bool) (now : ℕ) where
  unfoldable pub collect : (TxKey → Stored TransferTask) → List TransferTask → Collected
  unfolding get_tx_task_key merge_tx update_row_of
  collect before [] = record { commands = []; rows = []; actions = []; increments = [] }
  collect before (u ∷ us) =
      let rest = collect before us in
      let key = get_tx_task_key sharded u.job_id u.id in
      let t = merged (before key) u in
      record {
        commands = (key, t) ∷ rest.commands;
        rows = update_row_of now t ∷ rest.rows;
        actions = actions_of (before key) u ++ rest.actions;
        increments = increments_of (before key) u ++ rest.increments;
      }

abbrev pub upsert_all :
    (TransferTask → TransferTask → TransferTask) → List TransferTask → Rows → Rows
upsert_all assign [] rows = rows
upsert_all assign (r ∷ rs) rows = upsert_all assign rs (upsert assign r rows)

unfoldable pub carry_out : List JobAction → Server → Server
unfolding promote_transfer_job_to_running reactivate_transfer_job_on_pending_work
carry_out [] s = s
carry_out (a ∷ as') s =
    let tracked = record s { stats = track_tx_status_change s.stats a.job a.old_status a.status } in
    carry_out as' (
      if str_eq a.status "RUNNING"
      then promote_transfer_job_to_running a.job tracked
      else if str_eq a.status "PENDING"
      then reactivate_transfer_job_on_pending_work a.job tracked
      else tracked)

-- The code adds up the sizes of a job before it writes them, which comes to the same.
unfoldable pub add_sizes : List (ℕ × ℕ) → Server → Server
add_sizes [] s = s
add_sizes ((job, bytes) ∷ more) s =
    add_sizes more
      (update_job (λ j. record j { success_size_bytes = j.success_size_bytes + bytes }) job s)

pub data Response : Type 0 where
  bad_request no_updates failed updated : Response

-- Which calls succeed: MGET, the transaction, and how many SETs of the pipeline.
pub record Replies : Type 0 where
  pub fetched : Bool
  pub synced : Bool
  pub carried : ℕ

module _ (sharded : ℕ → Bool) (now : ℕ) (replies : Replies) where
  -- The request without its parsing; `none` is a body that cannot be parsed.
  unfoldable pub batch_update_transfer : Option (List TransferTask) → Server → Response × Server
  unfolding collect carry_out add_sizes
  batch_update_transfer none s = (bad_request, s)
  batch_update_transfer (some []) s = (no_updates, s)
  batch_update_transfer (some (u ∷ us)) s =
      let all = collect sharded now s.tasks (u ∷ us) in
      let rows = record s { rows = upsert_all assign_update all.rows s.rows } in
      let written = record rows { tasks = set_all (take replies.carried all.commands) s.tasks } in
      if not replies.fetched
      then (failed, s)
      else if not replies.synced
      then (failed, s)
      else if not (leb (length all.commands) replies.carried)
      then (failed, written)
      else (updated, add_sizes all.increments (carry_out all.actions written))

-- job_handler.go
unfoldable pub reset_failed_task_for_retry : ℕ → TransferTask → Option TransferTask
reset_failed_task_for_retry now t =
    if not (str_eq t.status "FAILED")
    then none
    else some (record t {
      status = "PENDING";
      updated_at = now;
      error_message = "";
      worker_id = "";
      started_at = 0;
      completed_at = 0;
      retry_count = 0;
      last_retry_time = "";
    })

unfoldable pub reset_task_for_auto_retry : ℕ → String → TransferTask → TransferTask
reset_task_for_auto_retry now status t = record t {
  status = status;
  updated_at = now;
  error_message = "";
  worker_id = "";
  started_at = 0;
  completed_at = 0;
}
