-- ===== src/TransferJobs/Retry.antt =====
-- backend/go-app/handlers/job_handler.go, `RetryTransferTasksLogic`: all failed tasks of a job are
-- to be run again. `ids_of` is what Redis answers for each bucket of a job kept in shards, and
-- `index` the sorted set of a job of the old kind; an error and an empty answer come to the same.
-- `fetched` says of the keys of a batch whether they can be read, `executed` whether the pipeline
-- for them is carried out, and `updated` of a task whether its row can be written.
pub mod Batch
pub mod Complete
mod Tests
use tmp_cf_ytb_admin.Base.{
  ℕ, zero, suc, ◌+◌, String, str_eq, Bool, true, false, not, ◌&&◌, ◌||◌, Option, none, some, List,
  [], ◌∷◌, map, ltb, ◌==◌, if◌then◌else◌, length, take, drop, get, put,
}
use tmp_cf_ytb_admin.Models.{TransferTask, Stored, absent, malformed, parsed}
use tmp_cf_ytb_admin.Stats.{track_tx_status_change}
use tmp_cf_ytb_admin.TransferTasks.{
  TxKey, sharded_key, legacy_key, Rows, Server, set_all, update_job, reset_failed_task_for_retry,
}

pub record Retry : Type 0 where
  pub server : Server
  pub offset : ℕ
  pub reset_count : ℕ

-- The columns of the row, when there is one.
abbrev pub assign_retry : TransferTask → TransferTask → TransferTask
assign_retry t old = record old {
  status = t.status;
  error_message = t.error_message;
  worker_id = t.worker_id;
  started_at = t.started_at;
  completed_at = t.completed_at;
  updated_at = t.updated_at;
}

abbrev pub update_row : TransferTask → Option TransferTask → Rows → Rows
update_row t none rows = rows
update_row t (some old) rows = put t.id (assign_retry t old) rows

module _ (now job : ℕ) (fetched executed : List TxKey → Bool) (updated : ℕ → Bool) where
  abbrev pub count_reset : TransferTask → TransferTask → Retry → Retry
  count_reset old t r =
      let s = r.server in
      record r {
        reset_count = r.reset_count + 1;
        server = record s {
          stats = track_tx_status_change s.stats job old.status t.status;
          rows = if updated t.id then update_row t (get t.id s.rows) s.rows else s.rows;
        };
      }

  -- The commands of the pipeline for a batch, and the state with the rows and statistics written.
  -- `values` are the tasks as they were read.
  unfoldable pub collect_resets :
      (TxKey → Stored TransferTask) → List TxKey → Retry → List (TxKey × TransferTask) × Retry
  unfolding reset_failed_task_for_retry
  collect_resets values [] r = ([], r)
  collect_resets values (k ∷ ks) r = elim (values k) [
    | absent ↦ collect_resets values ks r
    | malformed ↦ collect_resets values ks r
    | parsed t ↦ elim (reset_failed_task_for_retry now t) [
      | none ↦ collect_resets values ks r
      | some t' ↦
          let rest = collect_resets values ks (count_reset t t' r) in ((k, t') ∷ rest.0, rest.1)
    ]
  ]

  abbrev pub carry_out : Bool → List (TxKey × TransferTask) → Retry → Retry
  carry_out works commands r =
      let s = r.server in
      if works then record r { server = record s { tasks = set_all commands s.tasks } } else r

  unfoldable pub reset_batch : List TxKey → Retry → Retry
  unfolding collect_resets
  reset_batch ks r =
      let found = collect_resets r.server.tasks ks r in
      if fetched ks then carry_out (executed ks) found.0 found.1 else r

  -- Batches of 500, the first argument being at least the number of keys.
  unfoldable pub reset_bucket : ℕ → List TxKey → Retry → Retry
  unfolding reset_batch
  reset_bucket zero ks r = r
  reset_bucket (suc n) [] r = r
  reset_bucket (suc n) (k ∷ ks) r =
      reset_bucket n (drop 500 (k ∷ ks)) (reset_batch (take 500 (k ∷ ks)) r)

  -- So many buckets from one on.
  unfoldable pub retry_buckets : (ℕ → List ℕ) → ℕ → ℕ → Retry → Retry
  unfolding reset_bucket
  retry_buckets ids_of zero bucket r = r
  retry_buckets ids_of (suc n) bucket r =
      let keys = map (sharded_key job) (ids_of bucket) in
      let rest = retry_buckets ids_of n (bucket + 1) (reset_bucket (length keys) keys r) in
      if bucket == 0 && length keys == 0 then r else rest

  -- The pages of 1000 from a place on; the first argument is fuel.
  unfoldable pub retry_pages : List ℕ → ℕ → ℕ → Retry → Retry
  unfolding reset_batch
  retry_pages index zero cursor r = r
  retry_pages index (suc n) cursor r =
      let keys = map legacy_key (take 1000 (drop cursor index)) in
      let done = reset_batch keys r in
      let rest = retry_pages index n (cursor + 1000) done in
      if length keys == 0 then r else if fetched keys && ltb (length keys) 1000 then done else rest

  -- What follows the loop.
  abbrev pub reopen : String → Retry → Retry
  reopen initial r =
      let over =
        str_eq initial "COMPLETED" || str_eq initial "FAILED" || str_eq initial "PHASEDCOMPLETED" in
      let opened = update_job (λ j. record j { status = "PENDING" }) job r.server in
      if r.reset_count == 0
      then r
      else record r { offset = 0; server = if over then opened else r.server }

  unfoldable pub retry_sharded_transfer_tasks : (ℕ → List ℕ) → String → Retry → Retry
  unfolding retry_buckets
  retry_sharded_transfer_tasks ids_of initial r = reopen initial (retry_buckets ids_of 200 0 r)

  unfoldable pub retry_legacy_transfer_tasks : List ℕ → String → Retry → Retry
  unfolding retry_pages
  retry_legacy_transfer_tasks index initial r =
      reopen initial (retry_pages index (length index + 1) 0 r)

  unfoldable pub retry_transfer_tasks_logic :
      Bool → (ℕ → List ℕ) → List ℕ → String → Server → ℕ → Retry
  unfolding retry_sharded_transfer_tasks retry_legacy_transfer_tasks
  retry_transfer_tasks_logic sharded ids_of index initial s offset =
      let start : Retry = record { server = s; offset = offset; reset_count = 0 } in
      if sharded
      then retry_sharded_transfer_tasks ids_of initial start
      else retry_legacy_transfer_tasks index initial start
