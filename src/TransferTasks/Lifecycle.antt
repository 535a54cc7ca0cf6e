-- ===== src/TransferTasks/Lifecycle.antt =====
-- The life of a transfer task from its creation on, through the worker's reports and the retry
-- scanner.
use tmp_cf_ytb_admin.Base.{
  ℕ, suc, ap, none, some, ◌+◌, ◌≤◌, ◌<◌, ◌≡◌, refl, sym, ◌∙◌, String, str_eq, eq_iff, true, false,
  Option, arith, ◌⊎◌, inl, inr,
}
use tmp_cf_ytb_admin.Models.{TransferTask}
use tmp_cf_ytb_admin.Transfer.Retry.{
  WorkerTask, as_read, as_update, update_task_status_with_retry, should_retry_task,
}
use tmp_cf_ytb_admin.TransferTasks.{mark_running, merge_tx, reset_task_for_auto_retry}

-- A stored task after being handed out `n` times, and the copy of it that waits in the buffer of
-- its job, if there is one. A buffer takes up a task as it is stored when it is PENDING and no copy
-- of it waits yet; what is tested and handed out is the copy, and a copy may be lost with the
-- buffer. A worker reports on the task as it received it; the retry scanner decides on the row,
-- whose count of failures is that of the task.
pub data Life (max_retry_count : ℕ) : ℕ → TransferTask → Option TransferTask → Type 0 where
  created :
      (t : TransferTask) → t.status ≡ "PENDING" → t.retry_count ≡ 0 → Life max_retry_count 0 t none
  buffered :
      {n : ℕ} {t : TransferTask}
      → t.status ≡ "PENDING"
      → Life max_retry_count n t none
      → Life max_retry_count n t (some t)
  dropped :
      {n : ℕ} {t c : TransferTask}
      → Life max_retry_count n t (some c)
      → Life max_retry_count n t none
  handed_out :
      {n : ℕ} {t c : TransferTask} (now : ℕ) (worker : String)
      → c.status ≡ "PENDING"
      → Life max_retry_count n t (some c)
      → Life max_retry_count (suc n) (mark_running now worker c) none
  fails :
      {n : ℕ} {t : TransferTask} {copy : Option TransferTask} (stamp msg : String)
      → t.status ≡ "RUNNING"
      → Life max_retry_count n t copy
      → Life max_retry_count n
          (merge_tx t (as_update (update_task_status_with_retry stamp (as_read t) "FAILED" msg)))
          copy
  completes :
      {n : ℕ} {t : TransferTask} {copy : Option TransferTask} (stamp msg : String)
      → t.status ≡ "RUNNING"
      → Life max_retry_count n t copy
      → Life max_retry_count n
          (merge_tx t (as_update (update_task_status_with_retry stamp (as_read t) "COMPLETED" msg)))
          copy
  retried :
      {n : ℕ} {t : TransferTask} {copy : Option TransferTask} (base reset_at now : ℕ)
      (parse : String → Option ℕ) (row : TransferTask)
      → t.status ≡ "FAILED"
      → row.retry_count ≡ t.retry_count
      → should_retry_task max_retry_count base parse now (as_read row) ≡ true
      → Life max_retry_count n t copy
      → Life max_retry_count n (reset_task_for_auto_retry reset_at "PENDING" t) copy

-- A copy is as the task is stored, which is PENDING.
abbrev IsFresh : TransferTask → Option TransferTask → Type 0
IsFresh t none = Unit
IsFresh t (some c) = (c ≡ t) × (t.status ≡ "PENDING")

-- How often a task was handed out, by its status.
abbrev Within : ℕ → ℕ → TransferTask → Type 0
Within max_retry_count n t =
    ((t.status ≡ "PENDING") × ((n ≡ t.retry_count) × (n < max_retry_count)))
    ⊎ (((t.status ≡ "RUNNING") × ((n ≡ t.retry_count + 1) × (n ≤ max_retry_count)))
        ⊎ (((t.status ≡ "FAILED") × ((n ≡ t.retry_count) × (n ≤ max_retry_count)))
            ⊎ ((t.status ≡ "COMPLETED") × (n ≤ max_retry_count))))

-- Two statuses are not one.
clash : {A : Type 0} (a b : String) {s : String} → str_eq a b ≡ false → s ≡ a → s ≡ b → A
clash a b differ p q = absurd (ground (arith, eq_iff a b, sym p ∙ q))

mark_running_lem :
    (now : ℕ) (worker : String) (t : TransferTask)
    → t.status ≡ "PENDING"
    → ((mark_running now worker t).status ≡ "RUNNING")
      × ((mark_running now worker t).retry_count ≡ t.retry_count)
unfolding mark_running
mark_running_lem now worker t h =
    let e : str_eq t.status "PENDING" ≡ true = (eq_iff t.status "PENDING").1 h in rw e (refl, refl)

fails_lem :
    (stamp msg : String) (t : TransferTask)
    → (merge_tx t
        (as_update (update_task_status_with_retry stamp (as_read t) "FAILED" msg))).retry_count
      ≡ t.retry_count + 1
unfolding merge_tx update_task_status_with_retry
fails_lem stamp msg t = ground arith

should_retry_task-left :
    (max base now : ℕ) (parse : String → Option ℕ) (row : WorkerTask)
    → should_retry_task max base parse now row ≡ true
    → row.retry_count < max
unfolding should_retry_task
should_retry_task-left max base now parse row h = ground arith

-- A task that is not PENDING has no copy.
IsFresh-moved :
    (a : String) (t t' : TransferTask) (copy : Option TransferTask)
    → str_eq a "PENDING" ≡ false
    → t.status ≡ a
    → IsFresh t copy
    → IsFresh t' copy
IsFresh-moved a t t' none differ s f = tt
IsFresh-moved a t t' (some c) differ s f = clash a "PENDING" differ s f.1

Life-Within :
    {max_retry_count n : ℕ} {t : TransferTask} {copy : Option TransferTask}
    → 0 < max_retry_count
    → Life max_retry_count n t copy
    → Within max_retry_count n t × IsFresh t copy
Life-Within some_left (created t s c) = (inl (s, (sym c, some_left)), tt)
Life-Within some_left (buffered s life) = ((Life-Within some_left life).0, (refl, s))
Life-Within some_left (dropped life) = ((Life-Within some_left life).0, tt)
Life-Within some_left (handed_out {n = n} {t = t} {c = c} now worker s life) =
    let (running, same) = mark_running_lem now worker c s in
    let (within, (as_stored, pending)) = Life-Within some_left life in
    let count = ap (λ u. u.retry_count) as_stored in
    (
      elim within [
        | inl (_, (e, h)) ↦ inr (inl (running, (omega (arith, same, e, count), omega (arith, h))))
        | inr (inl (r, _)) ↦ clash "PENDING" "RUNNING" refl pending r
        | inr (inr (inl (f, _))) ↦ clash "PENDING" "FAILED" refl pending f
        | inr (inr (inr (c, _))) ↦ clash "PENDING" "COMPLETED" refl pending c
      ],
      tt,
    )
Life-Within some_left (fails {t = t} {copy = copy} stamp msg s life) =
    let (within, f) = Life-Within some_left life in
    (
      elim within [
        | inl (p, _) ↦ clash "RUNNING" "PENDING" refl s p
        | inr (inl (_, (e, h))) ↦ inr (
            inr (
              inl (
                unfold merge_tx update_task_status_with_retry in refl,
                (e ∙ sym (fails_lem stamp msg t), h),
              )))
        | inr (inr (inl (f, _))) ↦ clash "RUNNING" "FAILED" refl s f
        | inr (inr (inr (c, _))) ↦ clash "RUNNING" "COMPLETED" refl s c
      ],
      IsFresh-moved "RUNNING" t _ copy refl s f,
    )
Life-Within some_left (completes {t = t} {copy = copy} stamp msg s life) =
    let (within, f) = Life-Within some_left life in
    (
      elim within [
        | inl (p, _) ↦ clash "RUNNING" "PENDING" refl s p
        | inr (inl (_, (e, h))) ↦
            inr (inr (inr (unfold merge_tx update_task_status_with_retry in refl, h)))
        | inr (inr (inl (f, _))) ↦ clash "RUNNING" "FAILED" refl s f
        | inr (inr (inr (c, _))) ↦ clash "RUNNING" "COMPLETED" refl s c
      ],
      IsFresh-moved "RUNNING" t _ copy refl s f,
    )
Life-Within some_left
      (retried {t = t} {copy = copy} base reset_at now parse row s same granted life) =
    let left = should_retry_task-left _ base now parse (as_read row) granted in
    let (within, f) = Life-Within some_left life in
    (
      elim within [
        | inl (p, _) ↦ clash "FAILED" "PENDING" refl s p
        | inr (inl (r, _)) ↦ clash "FAILED" "RUNNING" refl s r
        | inr (inr (inl (_, (e, h)))) ↦
            inl (unfold reset_task_for_auto_retry in (refl, (e, omega (arith, e, same, left))))
        | inr (inr (inr (c, _))) ↦ clash "FAILED" "COMPLETED" refl s c
      ],
      IsFresh-moved "FAILED" t _ copy refl s f,
    )

-- A task is handed out at most `max_retry_count` times, when that is positive, only the retry
-- scanner resets it, on a row that has the same count of failures as the task, every report is
-- about the task as it is stored, each change of the task is stored, a copy is taken out of the
-- buffer and the task stored as RUNNING in one step, and no buffer takes up the task while a copy
-- of it waits in one.
pub Life-le :
    {max_retry_count n : ℕ} {t : TransferTask} {copy : Option TransferTask}
    → 0 < max_retry_count
    → Life max_retry_count n t copy
    → n ≤ max_retry_count
Life-le some_left life = elim (Life-Within some_left life).0 [
  | inl (_, (_, h)) ↦ omega (arith, h)
  | inr (inl (_, (_, h))) ↦ h
  | inr (inr (inl (_, (_, h)))) ↦ h
  | inr (inr (inr (_, h))) ↦ h
]
