-- ===== src/TransferTasks/Reset.antt =====
-- `ResetTransferTask` and `GetFailedTasksForRetry`: the retry scanner of a worker asks for the
-- failed tasks with a retry left, and has those reset for which it has waited long enough.
-- `job_ids` is what `loadAllTransferJobIDs` answers, `none` where the query fails; `queried` says
-- of a job whether the query for its tasks works, and `synced` and `saved` whether the writes to
-- PostgreSQL and to Redis do.
use tmp_cf_ytb_admin.Base.{
  ℕ, ◌<◌, ◌≡◌, refl, ap, ◌∙◌, String, str_eq, eq_iff, Bool, true, false, not, ◌&&◌, ◌==◌, Option,
  none, some, List, [], ◌∷◌, ◌++◌, arith, ltb, if◌then◌else◌, map, keep, All, All-append,
  Bool-cases, inl, inr, subst, sym, ◌≢◌, ◌⊎◌, if_true, if_false,
}
use tmp_cf_ytb_admin.Models.{TransferTask, Stored, absent, malformed, parsed}
use tmp_cf_ytb_admin.Stats.{track_tx_status_change}
use tmp_cf_ytb_admin.TransferTasks.{
  TxKey, same_key, sharded_key, legacy_key, Rows, Server, upsert, write_key, blank_row,
  get_tx_task_key, reset_task_for_auto_retry, reactivate_transfer_job_on_pending_work,
}

abbrev pub is_candidate : ℕ → ℕ → TransferTask → Bool
is_candidate job max_retry_count t =
    t.job_id == job && str_eq t.status "FAILED" && ltb t.retry_count max_retry_count

abbrev pub values : Rows → List TransferTask
values rows = map (λ r. r.1) rows

-- The loop over the jobs; a job whose query fails is passed over.
unfoldable pub failed_of_jobs : (ℕ → Bool) → ℕ → List ℕ → Rows → List TransferTask
failed_of_jobs queried max_retry_count [] rows = []
failed_of_jobs queried max_retry_count (job ∷ jobs) rows =
    (if queried job then keep (is_candidate job max_retry_count) (values rows) else [])
    ++ failed_of_jobs queried max_retry_count jobs rows

-- `none` is the error response.
unfoldable pub get_failed_tasks_for_retry :
    (ℕ → Bool) → ℕ → Option (List ℕ) → Rows → Option (List TransferTask)
unfolding failed_of_jobs
get_failed_tasks_for_retry queried max_retry_count none rows = none
get_failed_tasks_for_retry queried max_retry_count (some jobs) rows =
    some (failed_of_jobs queried max_retry_count jobs rows)

-- The row that the reset writes, and the columns that it assigns.
abbrev pub reset_row_of : ℕ → TransferTask → TransferTask
reset_row_of now t = record (blank_row t) {
  retry_count = t.retry_count;
  created_at = now;
  updated_at = now;
}

abbrev pub assign_reset : TransferTask → TransferTask → TransferTask
assign_reset row old = record old {
  status = row.status;
  worker_id = row.worker_id;
  error_message = row.error_message;
  retry_count = row.retry_count;
  updated_at = row.updated_at;
}

pub data ResetResponse : Type 0 where
  bad_request no_jobs not_found unsynced unsaved was_reset : ResetResponse

module _ (sharded : ℕ → Bool) (now : ℕ) (synced saved : Bool) where
  abbrev pub reset_found : ℕ → TxKey → TransferTask → Server → ResetResponse × Server
  reset_found job key t s =
      let t' = reset_task_for_auto_retry now "PENDING" t in
      let written = record s { rows = upsert assign_reset (reset_row_of now t') s.rows } in
      if not synced then (unsynced, s) else if not saved then (unsaved, written) else (
        was_reset,
        reactivate_transfer_job_on_pending_work job (record written {
          tasks = write_key key t' s.tasks;
          stats = track_tx_status_change s.stats job t.status t'.status;
        }),
      )

  -- The loop over the jobs: the first failed task with the id is reset.
  unfoldable pub reset_in_jobs : ℕ → List ℕ → Server → ResetResponse × Server
  reset_in_jobs task [] s = (not_found, s)
  reset_in_jobs task (job ∷ jobs) s =
      let rest = reset_in_jobs task jobs s in
      let key = get_tx_task_key sharded job task in
      elim (s.tasks key) [
        | absent ↦ rest
        | malformed ↦ rest
        | parsed t ↦ if str_eq t.status "FAILED" then reset_found job key t s else rest
      ]

  -- The request: a task id and a status.
  unfoldable pub reset_transfer_task :
      Option (ℕ × String) → Option (List ℕ) → Server → ResetResponse × Server
  unfolding reset_in_jobs
  reset_transfer_task none jobs s = (bad_request, s)
  reset_transfer_task (some (task, status)) none s =
      if not (str_eq status "PENDING") then (bad_request, s) else (no_jobs, s)
  reset_transfer_task (some (task, status)) (some jobs) s =
      if not (str_eq status "PENDING") then (bad_request, s) else reset_in_jobs task jobs s

-- Every task that the scanner is given has failed and has a retry left.
abbrev pub IsCandidate : ℕ → TransferTask → Type 0
IsCandidate max_retry_count t = (t.status ≡ "FAILED") × (t.retry_count < max_retry_count)

is_candidate_lem :
    (job max_retry_count : ℕ) (t : TransferTask)
    → is_candidate job max_retry_count t ≡ true
    → IsCandidate max_retry_count t
is_candidate_lem job max_retry_count t h = ground (arith, eq_iff t.status "FAILED")

keep-IsCandidate :
    (job max_retry_count : ℕ) (ts : List TransferTask)
    → All (IsCandidate max_retry_count) (keep (is_candidate job max_retry_count) ts)
keep-IsCandidate job max_retry_count [] = tt
keep-IsCandidate job max_retry_count (t ∷ ts) =
    elim (Bool-cases (is_candidate job max_retry_count t)) [
      | inl mine ↦
          rw mine
            (is_candidate_lem job max_retry_count t mine, keep-IsCandidate job max_retry_count ts)
      | inr other ↦ rw other (keep-IsCandidate job max_retry_count ts)
    ]

failed_of_jobs-IsCandidate :
    (queried : ℕ → Bool) (max_retry_count : ℕ) (jobs : List ℕ) (rows : Rows)
    → All (IsCandidate max_retry_count) (failed_of_jobs queried max_retry_count jobs rows)
unfolding failed_of_jobs
failed_of_jobs-IsCandidate queried max_retry_count [] rows = tt
failed_of_jobs-IsCandidate queried max_retry_count (job ∷ jobs) rows =
    elim (Bool-cases (queried job)) [
      | inl works ↦ rw works (
          All-append (IsCandidate max_retry_count) _ _
            (keep-IsCandidate job max_retry_count (values rows))
            (failed_of_jobs-IsCandidate queried max_retry_count jobs rows))
      | inr broken ↦ rw broken (failed_of_jobs-IsCandidate queried max_retry_count jobs rows)
    ]

module _ {A : Type 0} where
  some_path : {a b : A} → some a ≡ some b → a ≡ b
  some_path e = cc

-- A request for the failed tasks that succeeds gives only tasks that have failed and that have a
-- retry left.
pub get_failed_tasks_for_retry-IsCandidate :
    (queried : ℕ → Bool) (max_retry_count : ℕ) (jobs : Option (List ℕ)) (rows : Rows)
    (ts : List TransferTask)
    → get_failed_tasks_for_retry queried max_retry_count jobs rows ≡ some ts
    → All (IsCandidate max_retry_count) ts
unfolding get_failed_tasks_for_retry
get_failed_tasks_for_retry-IsCandidate queried max_retry_count none rows ts e = cc
get_failed_tasks_for_retry-IsCandidate queried max_retry_count (some jobs) rows ts e =
    subst (All (IsCandidate max_retry_count)) (some_path e)
      (failed_of_jobs-IsCandidate queried max_retry_count jobs rows)

same_key_refl : (k : TxKey) → same_key k k ≡ true
same_key_refl (sharded_key a b) = ground arith
same_key_refl (legacy_key a) = ground arith

module _ (sharded : ℕ → Bool) (now : ℕ) (synced saved : Bool) where
  -- A failed task of a job was reset in Redis.
  abbrev pub Resets : ℕ → Server → ResetResponse × Server → Type 0
  Resets task s r =
      (job : ℕ) × (t : TransferTask) × (s.tasks (get_tx_task_key sharded job task) ≡ parsed t)
      × (t.status ≡ "FAILED")
      × (r.1.tasks (get_tx_task_key sharded job task)
          ≡ parsed (reset_task_for_auto_retry now "PENDING" t))

  reset_found-tasks :
      (job : ℕ) (key : TxKey) (t : TransferTask) (s : Server)
      → (reset_found sharded now synced saved job key t s).0 ≡ was_reset
      → (reset_found sharded now synced saved job key t s).1.tasks key
        ≡ parsed (reset_task_for_auto_retry now "PENDING" t)
  unfolding reactivate_transfer_job_on_pending_work
  reset_found-tasks job key t s h = ground (arith, same_key_refl key)

  Stored-cases :
      (v : Stored TransferTask)
      → (v ≡ absent) ⊎ ((v ≡ malformed) ⊎ ((t : TransferTask) × (v ≡ parsed t)))
  Stored-cases absent = inl refl
  Stored-cases malformed = inr (inl refl)
  Stored-cases (parsed t) = inr (inr (t, refl))

  reset_in_jobs-here :
      (task job : ℕ) (jobs : List ℕ) (s : Server) (t : TransferTask)
      → s.tasks (get_tx_task_key sharded job task) ≡ parsed t
      → str_eq t.status "FAILED" ≡ true
      → reset_in_jobs sharded now synced saved task (job ∷ jobs) s
        ≡ reset_found sharded now synced saved job (get_tx_task_key sharded job task) t s
  unfolding reset_in_jobs
  reset_in_jobs-here task job jobs s t e ended =
      rw (e, reset_in_jobs) (if_true _ (reset_in_jobs sharded now synced saved task jobs s) ended)

  reset_in_jobs-there :
      (task job : ℕ) (jobs : List ℕ) (s : Server) (t : TransferTask)
      → s.tasks (get_tx_task_key sharded job task) ≡ parsed t
      → str_eq t.status "FAILED" ≡ false
      → reset_in_jobs sharded now synced saved task (job ∷ jobs) s
        ≡ reset_in_jobs sharded now synced saved task jobs s
  unfolding reset_in_jobs
  reset_in_jobs-there task job jobs s t e open' =
      rw (e, reset_in_jobs)
        (if_false (reset_found sharded now synced saved job (get_tx_task_key sharded job task) t s)
          _ open')

  reset_in_jobs-Resets :
      (task : ℕ) (jobs : List ℕ) (s : Server)
      → (reset_in_jobs sharded now synced saved task jobs s).0 ≡ was_reset
      → Resets task s (reset_in_jobs sharded now synced saved task jobs s)
  unfolding reset_in_jobs
  reset_in_jobs-Resets task [] s h = cc
  reset_in_jobs-Resets task (job ∷ jobs) s h =
      elim (Stored-cases (s.tasks (get_tx_task_key sharded job task))) [
        | inl e ↦
            rw (e, reset_in_jobs) (reset_in_jobs-Resets task jobs s (rw (e, reset_in_jobs) at h))
        | inr (inl e) ↦
            rw (e, reset_in_jobs) (reset_in_jobs-Resets task jobs s (rw (e, reset_in_jobs) at h))
        | inr (inr (t, e)) ↦ elim (Bool-cases (str_eq t.status "FAILED")) [
          | inl ended ↦
              let here = reset_in_jobs-here task job jobs s t e ended in
              subst (Resets task s) (sym here) (
                job,
                t,
                e,
                (eq_iff t.status "FAILED").0 ended,
                reset_found-tasks job (get_tx_task_key sharded job task) t s
                    (sym (ap (λ r. r.0) here) ∙ h),
              )
          | inr open' ↦
              let there = reset_in_jobs-there task job jobs s t e open' in
              subst (Resets task s) (sym there)
                (reset_in_jobs-Resets task jobs s (sym (ap (λ r. r.0) there) ∙ h))
        ]
      ]

-- A request to reset a task says so only when it has reset it: a stored task of one of the jobs had
-- failed, and what is stored now is PENDING, without worker and error, and with the same retries.
pub reset_transfer_task-was_reset :
    (sharded : ℕ → Bool) (now : ℕ) (synced saved : Bool) (task : ℕ) (status : String)
    (jobs : List ℕ) (s : Server)
    → (reset_transfer_task sharded now synced saved (some (task, status)) (some jobs) s).0
      ≡ was_reset
    → Resets sharded now synced saved task s
        (reset_transfer_task sharded now synced saved (some (task, status)) (some jobs) s)
unfolding reset_transfer_task
reset_transfer_task-was_reset sharded now synced saved task status jobs s h =
    elim (Bool-cases (not (str_eq status "PENDING"))) [
      | inl other ↦ absurd (refused (rw other at h))
      | inr pending ↦
          rw pending (reset_in_jobs-Resets sharded now synced saved task jobs s (rw pending at h))
    ]
  where
    refused : ◌≢◌ {A = ResetResponse} bad_request was_reset
    refused e = cc
