-- ===== src/TransferTasks/Rows.antt =====
-- What the rows in PostgreSQL say about retries.
use tmp_cf_ytb_admin.Base.{
  ℕ, ◌≡◌, refl, sym, ap, ◌∙◌, String, eq_iff, Bool, false, not, Option, some, List, [], ◌∷◌, arith,
  leb, ltb, ◌==◌, get, put, get-put, Bool-cases, Option-cases, inl, inr, take, length, subst,
  if_true, if_false,
}
use tmp_cf_ytb_admin.Models.{TransferTask, Stored}
use tmp_cf_ytb_admin.Transfer.Retry.{as_read, should_retry_task}
use tmp_cf_ytb_admin.TransferTasks.{
  TxKey, Rows, Server, update_job, promote_transfer_job_to_running,
  reactivate_transfer_job_on_pending_work, upsert, assign_update, upsert_all, collect, carry_out,
  add_sizes, Replies, batch_update_transfer, update_row_of, Collected, JobAction, set_all,
}

-- No row has the time of a last failure.
abbrev pub NoRetryTime : Rows → Type 0
NoRetryTime rows = (k : ℕ) (row : TransferTask) → get k rows ≡ some row → row.last_retry_time ≡ ""

abbrev Blank : List TransferTask → Type 0
Blank [] = Unit
Blank (r ∷ rs) = (r.last_retry_time ≡ "") × Blank rs

module _ {A : Type 0} where
  some-inj : {a b : A} → some a ≡ some b → a ≡ b
  some-inj e = cc

put-NoRetryTime :
    (k : ℕ) (row : TransferTask) (rows : Rows)
    → row.last_retry_time ≡ ""
    → NoRetryTime rows
    → NoRetryTime (put k row rows)
put-NoRetryTime k row rows h hr j found e = elim (Bool-cases (k == j)) [
  | inl same ↦
      ap (λ r. r.last_retry_time)
        (some-inj (sym e ∙ get-put k j row rows ∙ if_true (some row) (get j rows) same))
      ∙ h
  | inr other ↦ hr j found (sym (get-put k j row rows ∙ if_false (some row) (get j rows) other) ∙ e)
]

upsert-NoRetryTime :
    (row : TransferTask) (rows : Rows)
    → row.last_retry_time ≡ ""
    → NoRetryTime rows
    → NoRetryTime (upsert assign_update row rows)
upsert-NoRetryTime row rows h hr = elim (Option-cases (get row.id rows)) [
  | inl new ↦ rw (new, upsert) (put-NoRetryTime row.id row rows h hr)
  | inr (old, e) ↦
      rw (e, upsert) (put-NoRetryTime row.id (assign_update row old) rows (hr row.id old e) hr)
]

upsert_all-NoRetryTime :
    (rs : List TransferTask) (rows : Rows)
    → Blank rs
    → NoRetryTime rows
    → NoRetryTime (upsert_all assign_update rs rows)
upsert_all-NoRetryTime [] rows h hr = hr
upsert_all-NoRetryTime (r ∷ rs) rows h hr =
    upsert_all-NoRetryTime rs (upsert assign_update r rows) h.1 (upsert-NoRetryTime r rows h.0 hr)

module _ (sharded : ℕ → Bool) (now : ℕ) where
  collect-Blank :
      (before : TxKey → Stored TransferTask) (us : List TransferTask)
      → Blank (collect sharded now before us).rows
  unfolding collect update_row_of
  collect-Blank before [] = tt
  collect-Blank before (u ∷ us) = (refl, collect-Blank before us)

update_job-rows : (f : _) (job : ℕ) (s : Server) → (update_job f job s).rows ≡ s.rows
update_job-rows f job s = ground arith

carry_out-rows : (as' : List JobAction) (s : Server) → (carry_out as' s).rows ≡ s.rows
unfolding carry_out promote_transfer_job_to_running reactivate_transfer_job_on_pending_work
carry_out-rows [] s = refl
carry_out-rows (a ∷ as') s = carry_out-rows as' _ ∙ ground arith

add_sizes-rows : (sizes : List (ℕ × ℕ)) (s : Server) → (add_sizes sizes s).rows ≡ s.rows
unfolding add_sizes
add_sizes-rows [] s = refl
add_sizes-rows ((job, bytes) ∷ more) s = add_sizes-rows more _ ∙ update_job-rows _ job s

batch_update_transfer-NoRetryTime :
    (sharded : ℕ → Bool) (now : ℕ) (replies : Replies) (us : List TransferTask) (s : Server)
    → NoRetryTime s.rows
    → NoRetryTime (batch_update_transfer sharded now replies (some us) s).1.rows
unfolding batch_update_transfer
batch_update_transfer-NoRetryTime sharded now replies [] s h = h
batch_update_transfer-NoRetryTime sharded now replies (u ∷ us) s h =
    elim (Bool-cases (not replies.fetched)) [
      | inl lost ↦ rw lost h
      | inr fetched ↦ elim (Bool-cases (not replies.synced)) [
        | inl lost ↦ rw (fetched, lost) h
        | inr synced ↦ elim (Bool-cases (not (leb (length all.commands) replies.carried))) [
          | inl lost ↦ rw (fetched, synced, lost) rows
          | inr carried ↦
              rw (fetched, synced, carried)
                (subst NoRetryTime
                  (sym (
                    add_sizes-rows all.increments (carry_out all.actions written)
                    ∙ carry_out-rows all.actions written))
                  rows)
        ]
      ]
    ]
  where
    all : Collected
    all = collect sharded now s.tasks (u ∷ us)

    written : Server
    written = record s {
      rows = upsert_all assign_update all.rows s.rows;
      tasks = set_all (take replies.carried all.commands) s.tasks;
    }

    rows : NoRetryTime (upsert_all assign_update all.rows s.rows)
    rows = upsert_all-NoRetryTime all.rows s.rows (collect-Blank sharded now s.tasks (u ∷ us)) h

-- After a batch of updates on rows none of which has the time of a last failure, whatever times
-- the updates carry, the scanner's test of a row is only whether it has a retry left: it never
-- waits, whatever the base delay is.
pub should_retry_task-at_once :
    (sharded : ℕ → Bool) (now : ℕ) (replies : Replies) (us : List TransferTask) (s : Server)
    (max_retry_count base clock k : ℕ) (parse : String → Option ℕ) (row : TransferTask)
    → NoRetryTime s.rows
    → get k (batch_update_transfer sharded now replies (some us) s).1.rows ≡ some row
    → should_retry_task max_retry_count base parse clock (as_read row)
      ≡ ltb row.retry_count max_retry_count
unfolding should_retry_task
should_retry_task-at_once sharded now replies us s max base clock k parse row h e =
    let blank : row.last_retry_time ≡ "" =
      batch_update_transfer-NoRetryTime sharded now replies us s h k row e in
    ground (arith, eq_iff row.last_retry_time "")

-- A batch that PostgreSQL does not take changes nothing.
pub batch_update_transfer-unsynced :
    (sharded : ℕ → Bool) (now : ℕ) (replies : Replies) (us : List TransferTask) (s : Server)
    → replies.synced ≡ false
    → (batch_update_transfer sharded now replies (some us) s).1 ≡ s
unfolding batch_update_transfer
batch_update_transfer-unsynced sharded now replies [] s h = refl
batch_update_transfer-unsynced sharded now replies (u ∷ us) s h = ground arith
