-- ===== src/TransferTasks/Acquire.antt =====
-- `AcquireTransferTasks`: a worker asks for transfer tasks and gets them from the buffers of the
-- jobs, in turn when there are several, with few large files of one job at a time; and
-- `markTransferTasksRunning`, which writes what was handed out. `requests` is
-- `txAcquireRequestCount`, `active` the ids of the jobs that PostgreSQL knows to be PENDING or
-- RUNNING, `shuffle` the random order of the jobs. `upserted` says of a task id whether its row can
-- be written, `executed` whether Redis carries out the pipeline. Requests are handled one at a
-- time, and a limit below 1 is 0.
pub mod Counts
mod Tests
use tmp_cf_ytb_admin.Base.{
  ℕ, zero, suc, ◌+◌, ◌-◌, ◌*◌, ◌/◌, ◌%◌, String, str_eq, Bool, true, false, not, ◌&&◌, ◌||◌, Option,
  none, some, List, [], ◌∷◌, ◌++◌, map, ltb, leb, ◌==◌, if◌then◌else◌, length, get, put,
}
use tmp_cf_ytb_admin.Models.{TransferTask}
use tmp_cf_ytb_admin.Stats.{track_tx_status_change}
use tmp_cf_ytb_admin.Buffer.{buffer_size, buffer_low_water}
use tmp_cf_ytb_admin.TransferTasks.{
  TxKey, Rows, Server, get_tx_task_key, promote_transfer_job_to_running, upsert, set_all,
  mark_running, blank_row,
}

abbrev pub large_file_threshold_bytes : ℕ
large_file_threshold_bytes = 1000 * 1024 * 1024

abbrev pub Buffers : Type 0
Buffers = List (ℕ × List TransferTask)

pub record Desk : Type 0 where
  pub buffers : Buffers
  pub requests : ℕ
  -- The jobs whose buffer is to be refilled, and how many large files each job has given.
  pub refills : List ℕ
  pub large : List (ℕ × ℕ)

abbrev pub or_zero : Option ℕ → ℕ
or_zero none = 0
or_zero (some n) = n

-- What becomes of a task that was received from the buffer of a job.
abbrev pub sort_out : ℕ → ℕ → TransferTask → List TransferTask → Desk → Option TransferTask × Desk
sort_out max_large job t ch d =
    let given = or_zero (get job d.large) in
    let back = if ltb (length ch) buffer_size then ch ++ t ∷ [] else ch in
    if ltb t.size large_file_threshold_bytes
    then (some t, record d { buffers = put job ch d.buffers })
    else if leb max_large given
    then (none, record d { buffers = put job back d.buffers })
    else (some t, record d { buffers = put job ch d.buffers; large = put job (given + 1) d.large })

abbrev pub visit_channel : ℕ → ℕ → Option (List TransferTask) → Desk → Option TransferTask × Desk
visit_channel max_large job none d =
    (none, record d { buffers = put job [] d.buffers; refills = job ∷ d.refills })
visit_channel max_large job (some []) d = (none, record d { refills = job ∷ d.refills })
visit_channel max_large job (some (t ∷ ch)) d =
    sort_out max_large job t ch
      (if ltb (length (t ∷ ch)) buffer_low_water then record d { refills = job ∷ d.refills } else d)

-- One round over the jobs; the first argument is how many tasks are missing to the limit.
unfoldable pub round : ℕ → ℕ → List ℕ → Desk → List TransferTask × Desk
round max_large room [] d = ([], d)
round max_large zero (job ∷ jobs) d = ([], d)
round max_large (suc room) (job ∷ jobs) d =
    let first = visit_channel max_large job (get job d.buffers) d in
    elim first.0 [
      | none ↦ round max_large (suc room) jobs first.1
      | some t ↦ let rest = round max_large room jobs first.1 in (t ∷ rest.0, rest.1)
    ]

unfoldable pub rounds : ℕ → ℕ → ℕ → List ℕ → Desk → List TransferTask × Desk
unfolding round
rounds max_large zero room jobs d = ([], d)
rounds max_large (suc n) room jobs d =
    let first = round max_large room jobs d in
    let rest = rounds max_large n (room - length first.0) jobs first.1 in
    (first.0 ++ rest.0, rest.1)

-- All that the buffer of the only job has, up to the limit.
unfoldable pub drain : ℕ → List TransferTask → List TransferTask × List TransferTask
drain zero ch = ([], ch)
drain (suc room) [] = ([], [])
drain (suc room) (t ∷ ch) = let rest = drain room ch in (t ∷ rest.0, rest.1)

abbrev pub drain_only : ℕ → ℕ → Option (List TransferTask) → Desk → List TransferTask × Desk
drain_only limit job none d = ([], d)
drain_only limit job (some ch) d =
    let got = drain limit ch in (got.0, record d { buffers = put job got.1 d.buffers })

abbrev pub at_least_one : ℕ → ℕ
at_least_one n = if ltb n 1 then 1 else n

module _ (shuffle : List ℕ → List ℕ) where
  -- The tasks that a request takes out of the buffers of the jobs `ids`.
  unfoldable pub select_tasks : ℕ → List ℕ → Desk → List TransferTask × Desk
  unfolding rounds drain
  select_tasks limit [] d = ([], d)
  select_tasks limit (job ∷ []) d = drain_only limit job (get job d.buffers) d
  select_tasks limit (a ∷ b ∷ ids) d =
      let per_job = at_least_one (limit / length (a ∷ b ∷ ids)) in
      rounds (at_least_one (per_job / 4)) per_job limit (shuffle (a ∷ b ∷ ids))
        (record d { large = [] })

abbrev pub keys : Buffers → List ℕ
keys bs = map (λ b. b.0) bs

abbrev pub contains_id : ℕ → List ℕ → Bool
contains_id k [] = false
contains_id k (j ∷ js) = j == k || contains_id k js

-- `ensureTxBuffer`, given the buffer of the job.
abbrev pub ensure : ℕ → Option (List TransferTask) → Buffers → Buffers
ensure job none buffers = put job [] buffers
ensure job (some ch) buffers = buffers

-- A buffer and a refill for each active job that has no buffer yet.
unfoldable pub add_buffers : List ℕ → List ℕ → Desk → Desk
add_buffers ids [] d = d
add_buffers ids (job ∷ jobs) d =
    let fresh = ensure job (get job d.buffers) d.buffers in
    add_buffers ids jobs
      (if contains_id job ids then d else record d { buffers = fresh; refills = job ∷ d.refills })

abbrev pub discover : Option (List ℕ) → Desk → Option Desk
discover none d = none
discover (some jobs) d =
    if ltb (length (keys d.buffers)) (length jobs)
    then some (add_buffers (keys d.buffers) jobs d)
    else some d

-- The tasks as they are marked, and what is written of them.
pub record Marked : Type 0 where
  pub ok : Bool
  pub tasks : List TransferTask
  pub commands : List (TxKey × TransferTask)
  pub changed : List (ℕ × (String × String))
  pub rows : Rows

abbrev pub assign_running : TransferTask → TransferTask → TransferTask
assign_running row old = record old {
  status = row.status;
  worker_id = row.worker_id;
  started_at = row.started_at;
  updated_at = row.updated_at;
}

abbrev pub running_row : TransferTask → TransferTask
running_row t = record (blank_row t) { started_at = t.started_at; created_at = t.updated_at }

module _ (sharded upserted : ℕ → Bool) (executed : Bool) (now : ℕ) (worker : String) where
  -- A row that cannot be written ends the loop.
  unfoldable pub mark_loop : List TransferTask → Rows → Marked
  unfolding mark_running get_tx_task_key
  mark_loop [] rows = record { ok = true; tasks = []; commands = []; changed = []; rows = rows }
  mark_loop (t ∷ ts) rows =
      let t' = mark_running now worker t in
      let passed = mark_loop ts rows in
      let rest = mark_loop ts (upsert assign_running (running_row t') rows) in
      if not (str_eq t.status "PENDING")
      then record passed { tasks = t ∷ passed.tasks }
      else if not (upserted t.id)
      then record { ok = false; tasks = t' ∷ ts; commands = []; changed = []; rows = rows }
      else record rest {
        tasks = t' ∷ rest.tasks;
        commands = (get_tx_task_key sharded t.job_id t.id, t') ∷ rest.commands;
        changed = (t.job_id, (t.status, t'.status)) ∷ rest.changed;
      }

  abbrev pub track_all : List (ℕ × (String × String)) → Server → Server
  track_all [] s = s
  track_all ((job, (old, new)) ∷ cs) s =
      track_all cs (record s { stats = track_tx_status_change s.stats job old new })

  -- A job that has several tasks among them is promoted once in the code, which comes to the same.
  abbrev pub promote_all : List (ℕ × (String × String)) → Server → Server
  promote_all [] s = s
  promote_all ((job, change) ∷ cs) s = promote_all cs (promote_transfer_job_to_running job s)

  -- Whether it succeeds, the tasks, and the server.
  unfoldable pub mark_transfer_tasks_running :
      List TransferTask → Server → Bool × (List TransferTask × Server)
  unfolding mark_loop
  mark_transfer_tasks_running ts s =
      let m = mark_loop ts s.rows in
      let synced = record s { rows = m.rows } in
      let written = record synced { tasks = set_all m.commands s.tasks } in
      if length ts == 0
      then (true, ([], s))
      else if not m.ok
      then (false, (m.tasks, synced))
      else if not executed && not (length m.commands == 0)
      then (false, (m.tasks, synced))
      else (true, (m.tasks, promote_all m.changed (track_all m.changed written)))

  -- The response with its tasks, `none` where it is an error; then the buffers and the server.
  abbrev pub hand_out :
      List ℕ → List TransferTask × Desk → Server → Option (List TransferTask) × (Desk × Server)
  hand_out ids (ts, d) s =
      let m = mark_transfer_tasks_running ts s in
      if m.0
      then (some m.1.0, (d, m.1.1))
      else (none, (record d { refills = ids ++ d.refills }, m.1.1))

  abbrev pub hand_out_from :
      (List ℕ → List ℕ)
      → ℕ
      → Option Desk
      → Desk
      → Server
      → Option (List TransferTask) × (Desk × Server)
  hand_out_from shuffle limit none d s = (some [], (d, s))
  hand_out_from shuffle limit (some d') d s =
      if length (keys d'.buffers) == 0
      then (some [], (d', s))
      else hand_out (keys d'.buffers) (select_tasks shuffle limit (keys d'.buffers) d') s

  unfoldable pub acquire_transfer_tasks :
      (List ℕ → List ℕ)
      → Option (List ℕ)
      → ℕ
      → Desk
      → Server
      → Option (List TransferTask) × (Desk × Server)
  unfolding select_tasks add_buffers mark_transfer_tasks_running
  acquire_transfer_tasks shuffle active limit d s =
      let wanted = if limit == 0 then 10 else limit in
      let counted = record d { requests = d.requests + 1 } in
      let checks = length (keys d.buffers) == 0 || counted.requests % 30 == 0 in
      hand_out_from shuffle wanted (if checks then discover active counted else some counted)
        counted s
