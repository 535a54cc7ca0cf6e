-- ===== src/Legacy.antt =====
-- backend/go-app/handlers/task_handler.go, the transfer jobs whose tasks are kept in one sorted
-- set: `addLegacyTransferTasks` behind `AddTransferTasksToJob`. Of a job Redis has the sorted set
-- of its ids and the sources already known; the stored values are keyed by the id alone, for all
-- jobs, and so are the rows of the table of tasks. Which calls succeed is an argument; tasks can
-- be written as JSON.
pub mod Ids
pub mod Sources
mod Tests
use tmp_cf_ytb_admin.Base.{
  ℕ, suc, ◌+◌, ◌*◌, String, str_eq, Bool, ◌||◌, not, Option, none, some, List, [], ◌∷◌, ltb, ◌==◌,
  if◌then◌else◌, length, keep,
}
use tmp_cf_ytb_admin.Models.{TransferTask, Stored, parsed}
use tmp_cf_ytb_admin.Sharded.{
  zadd, set_at, Input, contains, unique_inputs, tasks_of, sum_sizes, insert_row,
}

pub record Job : Type 0 where
  pub tasks : List ℕ
  pub details : ℕ → Stored TransferTask
  pub dedup : List String
  pub rows : List TransferTask
  pub total_count : ℕ
  pub pending_count : ℕ
  pub total_size_bytes : ℕ
  pub consecutive_idle_scans : ℕ
  pub status : String

-- Whether the checks, the read of the last id and the writes of Redis succeed. Of a pipeline that
-- fails, Redis has carried out some commands, each given by its task and its place among those for
-- the task. The row of an id may be refused, which is logged only.
pub record Replies : Type 0 where
  pub checked : Bool
  pub ranged : Bool
  pub written : Bool
  pub carried : ℕ → ℕ → Bool
  pub inserted : ℕ → Bool

-- ZREVRANGE 0 0.
abbrev pub last_id : List ℕ → Option ℕ
last_id [] = none
last_id (k ∷ []) = some k
last_id (k ∷ j ∷ js) = last_id (j ∷ js)

abbrev pub after_id : ℕ → Option ℕ → ℕ
after_id job_id none = job_id * 1000000
after_id job_id (some l) = l + 1

unfoldable pub start_id : ℕ → Replies → List ℕ → ℕ
start_id job_id r ids = after_id job_id (if r.ranged then last_id ids else none)

unfoldable pub write_task : TransferTask → Job → Job
unfolding zadd
write_task t s = record s {
  details = set_at t.id (parsed t) s.details;
  tasks = zadd t.id s.tasks;
  dedup = t.src ∷ s.dedup;
}

unfoldable pub write_tasks : List TransferTask → Job → Job
unfolding write_task
write_tasks [] s = s
write_tasks (t ∷ ts) s = write_tasks ts (write_task t s)

-- What is left of a pipeline that fails.
unfoldable pub write_part : (ℕ → ℕ → Bool) → TransferTask → Job → Job
unfolding write_task
write_part carried t s =
    let whole = write_task t s in
    record s {
      details = if carried t.id 0 then whole.details else s.details;
      tasks = if carried t.id 1 then whole.tasks else s.tasks;
      dedup = if carried t.id 2 then whole.dedup else s.dedup;
    }

unfoldable pub write_parts : (ℕ → ℕ → Bool) → List TransferTask → Job → Job
unfolding write_part
write_parts carried [] s = s
write_parts carried (t ∷ ts) s = write_parts carried ts (write_part carried t s)

unfoldable pub create_rows : Replies → List TransferTask → List TransferTask → List TransferTask
unfolding insert_row
create_rows r [] rows = rows
create_rows r (t ∷ ts) rows = create_rows r ts (if r.inserted t.id then insert_row t rows else rows)

-- Both statements come to this.
abbrev pub count_in : List Input → Job → Job
count_in new s = record s {
  total_count = s.total_count + length new;
  pending_count = s.pending_count + length new;
  total_size_bytes = s.total_size_bytes + sum_sizes new;
  consecutive_idle_scans = 0;
  status =
      if str_eq s.status "COMPLETED"
        || str_eq s.status "PHASEDCOMPLETED"
        || str_eq s.status "FAILED"
      then "PENDING"
      else s.status;
}

module _ (job_id now : ℕ) where
  abbrev pub add_new : Replies → List Input → Job → Option ℕ × Job
  add_new r new s =
      let tasks = tasks_of job_id now (start_id job_id r s.tasks) new in
      let written = write_tasks tasks s in
      if length new == 0
      then (some 0, s)
      else if not r.written
      then (none, write_parts r.carried tasks s)
      else (
        some (length tasks),
        count_in new (record written { rows = create_rows r tasks s.rows }),
      )

  -- `none` is an error, and else the number of tasks added.
  unfoldable pub add_legacy_transfer_tasks : Replies → List Input → Job → Option ℕ × Job
  unfolding unique_inputs start_id write_tasks write_parts create_rows
  add_legacy_transfer_tasks r inputs s =
      let new = keep (λ i. not (contains i.src s.dedup)) (unique_inputs [] inputs) in
      if length inputs == 0
      then (some 0, s)
      else if not r.checked
      then (none, s)
      else add_new r new s

  -- The job is of this kind.
  unfoldable pub add_transfer_tasks_to_job : Replies → List Input → Job → Option ℕ × Job
  unfolding unique_inputs add_legacy_transfer_tasks
  add_transfer_tasks_to_job r inputs s =
      if length inputs == 0
      then (some 0, s)
      else add_legacy_transfer_tasks r (unique_inputs [] inputs) s
