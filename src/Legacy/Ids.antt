-- ===== src/Legacy/Ids.antt =====
-- The ids that `addLegacyTransferTasks` gives out, and the tasks that they had before.
use tmp_cf_ytb_admin.Base.{
  ℕ, zero, suc, ◌+◌, ◌*◌, ◌≤◌, ◌<◌, ◌≡◌, refl, sym, ap, ◌∙◌, subst, Bool, true, false, not, ◌||◌,
  ◌==◌, ==_iff, Option, none, some, List, [], ◌∷◌, map, Bool-cases, inl, inr, if_true, if_false,
  length, keep, arith, All, All-append, append-nil, append_assoc, ◌++◌, ◌⊎◌, either,
}
use tmp_cf_ytb_admin.Models.{TransferTask, Stored, parsed}
use tmp_cf_ytb_admin.Sharded.{Input, contains, unique_inputs, zadd, task_of, tasks_of}
use tmp_cf_ytb_admin.Sharded.Writes.{ids_from, has_id, Below, Below-weaken, zadd-last}
use tmp_cf_ytb_admin.Sharded.Sources.{count_or_zero}
use tmp_cf_ytb_admin.Sharded.Fresh.{fresh, unique_inputs-unique_inputs}
use tmp_cf_ytb_admin.Legacy.{
  Job, Replies, last_id, after_id, start_id, write_task, write_tasks, write_part, write_parts,
  create_rows, count_in, add_new, add_legacy_transfer_tasks, add_transfer_tasks_to_job,
}

abbrev pub IsAscending : List ℕ → Type 0
IsAscending [] = Unit
IsAscending (j ∷ js) = All (λ k. j < k) js × IsAscending js

All-has_id : (j k : ℕ) (js : List ℕ) → All (λ i. j < i) js → has_id k js ≡ true → j < k
All-has_id j k [] all h = ground (arith, h)
All-has_id j k (i ∷ is) all h = ground (arith, all.0, All-has_id j k is all.1)

has_id-Below : (n : ℕ) (js : List ℕ) → ((k : ℕ) → has_id k js ≡ true → k < n) → Below n js
has_id-Below n [] h = tt
has_id-Below n (j ∷ js) h = (h j (ground arith), has_id-Below n js (λ k e. h k (ground (arith, e))))

All-Below : {P : ℕ → Type 0} (n : ℕ) (js : List ℕ) → Below n js → ((k : ℕ) → k < n → P k) → All P js
All-Below n [] low h = tt
All-Below n (j ∷ js) low h = (h j low.0, All-Below n js low.1 h)

pub length-tasks_of :
    (job_id now k : ℕ) (is : List Input) → length (tasks_of job_id now k is) ≡ length is
length-tasks_of job_id now k [] = refl
length-tasks_of job_id now k (i ∷ is) = ap suc (length-tasks_of job_id now (k + 1) is)

-- The last of a set that is in order is its largest.
last_id-lt :
    (job_id k j : ℕ) (js : List ℕ)
    → IsAscending (j ∷ js)
    → has_id k (j ∷ js) ≡ true
    → k < after_id job_id (last_id (j ∷ js))
last_id-lt job_id k j [] asc h = ground (arith, h)
last_id-lt job_id k j (i ∷ is) asc h = elim (Bool-cases (j == k)) [
  | inl e ↦
      let here : has_id i (i ∷ is) ≡ true = ground arith in
      let last = last_id-lt job_id i i is asc.1 here in
      let same : j ≡ k = (==_iff j k).0 e in omega (arith, same, asc.0.0, last)
  | inr e ↦ last_id-lt job_id k i is asc.1 (sym (ap (λ b. b || has_id k (i ∷ is)) e) ∙ h)
]

module _ (job_id now : ℕ) where
  pub details-write_tasks_lt :
      (is : List Input) (start k : ℕ) (s : Job)
      → k < start
      → (write_tasks (tasks_of job_id now start is) s).details k ≡ s.details k
  unfolding write_tasks write_task
  details-write_tasks_lt [] start k s h = refl
  details-write_tasks_lt (i ∷ is) start k s h =
      details-write_tasks_lt is (start + 1) k (write_task (task_of job_id now start i) s)
        (omega arith)
      ∙ ground (arith, h)

  details-write_tasks :
      (is : List Input) (start : ℕ) (s : Job)
      → map (write_tasks (tasks_of job_id now start is) s).details (ids_from start (length is))
        ≡ map parsed (tasks_of job_id now start is)
  unfolding write_tasks write_task
  details-write_tasks [] start s = refl
  details-write_tasks (i ∷ is) start s =
      let next = write_task (task_of job_id now start i) s in
      λ k.
        (details-write_tasks_lt is (start + 1) start next (omega arith) ∙ stored) k
        ∷ details-write_tasks is (start + 1) next k
    where
      stored :
          (write_task (task_of job_id now start i) s).details start
          ≡ parsed (task_of job_id now start i)
      stored = ground arith

  zadd-ids_from : (k m j : ℕ) → k ≤ j → j < k + m → zadd j (ids_from k m) ≡ ids_from k m
  unfolding zadd
  zadd-ids_from k zero j lo hi = absurd (omega arith)
  zadd-ids_from k (suc m) j lo hi = elim (Bool-cases (k == j)) [
    | inl e ↦ ground (arith, e)
    | inr e ↦
        let more : k + 1 ≤ j = ground arith in
        ground (arith, e, more, zadd-ids_from (k + 1) m j more (omega arith))
  ]

  tasks-write_tasks :
      (is : List Input) (start k m : ℕ) (s : Job)
      → s.tasks ≡ ids_from k m
      → k ≤ start
      → start + length is ≤ k + m
      → (write_tasks (tasks_of job_id now start is) s).tasks ≡ ids_from k m
  unfolding write_tasks write_task
  tasks-write_tasks [] start k m s e lo hi = e
  tasks-write_tasks (i ∷ is) start k m s e lo hi =
      tasks-write_tasks is (start + 1) k m (write_task (task_of job_id now start i) s)
        (ap (zadd start) e ∙ zadd-ids_from k m start lo (omega (arith, hi))) (omega arith)
        (omega (arith, hi))

total_count-write_tasks :
    (ts : List TransferTask) (s : Job) → (write_tasks ts s).total_count ≡ s.total_count
unfolding write_tasks write_task
total_count-write_tasks [] s = refl
total_count-write_tasks (t ∷ ts) s = total_count-write_tasks ts (write_task t s)

module _ (job_id now : ℕ) where
  start-lt :
      (r : Replies) (k : ℕ) (ids : List ℕ)
      → r.ranged ≡ true
      → IsAscending ids
      → has_id k ids ≡ true
      → k < start_id job_id r ids
  unfolding start_id
  start-lt r k [] read asc h = absurd (ground (arith, h))
  start-lt r k (j ∷ js) read asc h =
      subst (λ o. k < after_id job_id o) (sym (if_true {b = r.ranged} (last_id (j ∷ js)) none read))
        (last_id-lt job_id k j js asc h)

  write_part-keeps :
      (carried : ℕ → ℕ → Bool) (i : Input) (start k : ℕ) (s : Job)
      → k < start
      → (write_part carried (task_of job_id now start i) s).details k ≡ s.details k
  unfolding write_part write_task
  write_part-keeps carried i start k s h =
      either {A = ℕ → Stored TransferTask} (λ d. d k ≡ s.details k) (carried start 0)
        (ground (arith, h)) refl

  write_parts-keeps :
      (carried : ℕ → ℕ → Bool) (is : List Input) (start k : ℕ) (s : Job)
      → k < start
      → (write_parts carried (tasks_of job_id now start is) s).details k ≡ s.details k
  unfolding write_parts
  write_parts-keeps carried [] start k s h = refl
  write_parts-keeps carried (i ∷ is) start k s h =
      write_parts-keeps carried is (start + 1) k _ (omega arith)
      ∙ write_part-keeps carried i start k s h

  -- The new ids come last in the set of the job.
  tasks-write_tasks_last :
      (is : List Input) (start : ℕ) (s : Job)
      → Below start s.tasks
      → (write_tasks (tasks_of job_id now start is) s).tasks ≡ s.tasks ++ ids_from start (length is)
  unfolding write_tasks
  tasks-write_tasks_last [] start s low = sym (append-nil s.tasks)
  tasks-write_tasks_last (i ∷ is) start s low =
      let here : (write_task (task_of job_id now start i) s).tasks ≡ s.tasks ++ start ∷ [] =
        unfold write_task in zadd-last start s.tasks low in
      tasks-write_tasks_last is (start + 1) (write_task (task_of job_id now start i) s) (
        subst (Below (start + 1)) (sym here) (
          All-append (λ j. j < start + 1) s.tasks (start ∷ []) (Below-weaken start s.tasks low)
            (omega arith, tt)))
      ∙ ap (λ js. js ++ ids_from (start + 1) (length is)) here
      ∙ append_assoc s.tasks (start ∷ []) (ids_from (start + 1) (length is))

  start-Below :
      (r : Replies) (ids : List ℕ)
      → r.ranged ≡ true
      → IsAscending ids
      → Below (start_id job_id r ids) ids
  start-Below r ids read asc =
      has_id-Below (start_id job_id r ids) ids (λ k h. start-lt r k ids read asc h)

  -- When the last id can be read and the set of the job is in order, the ids of an add that runs
  -- alone are new to the job, whatever else fails and also when the writes are carried out in
  -- part: each task that the job has keeps its stored value. An add that does not end in an error
  -- appends to the set as many ids as it says it has added, counted up from the start.
  pub add_transfer_tasks_to_job-keeps :
      (r : Replies) (inputs : List Input) (s : Job)
      → r.ranged ≡ true
      → IsAscending s.tasks
      → let out = add_transfer_tasks_to_job job_id now r inputs s in
        All (λ k. out.1.details k ≡ s.details k) s.tasks
        × ((out.0 ≡ none)
            ⊎ (out.1.tasks ≡ s.tasks ++ ids_from (start_id job_id r s.tasks) (count_or_zero out.0)))
  unfolding add_transfer_tasks_to_job add_legacy_transfer_tasks
  add_transfer_tasks_to_job-keeps r inputs s read asc = either Kept (length inputs == 0) same (
      either Kept (length us == 0) same (
        either Kept (not r.checked) (unchanged, inl refl)
          (either Kept (length new == 0) same (
            either Kept (not r.written)
              (older (λ k h. write_parts-keeps r.carried new start k s h), inl refl)
              (
                older (λ k h. details-write_tasks_lt job_id now new start k s h),
                inr (
                    tasks-write_tasks_last new start s (start-Below r s.tasks read asc)
                    ∙ ap (λ n. s.tasks ++ ids_from start n)
                        (sym (length-tasks_of job_id now start new))),
              )))))
    where
      us : List Input
      us = unique_inputs [] inputs

      new : List Input
      new = keep (λ i. not (contains i.src s.dedup)) (unique_inputs [] us)

      start : ℕ
      start = start_id job_id r s.tasks

      older : {P : ℕ → Type 0} → ((k : ℕ) → k < start → P k) → All P s.tasks
      older keeps = All-Below start s.tasks (start-Below r s.tasks read asc) keeps

      unchanged : All (λ k. s.details k ≡ s.details k) s.tasks
      unchanged = older (λ k h. refl)

      Kept : Option ℕ × Job → Type 0
      Kept out =
          All (λ k. out.1.details k ≡ s.details k) s.tasks
          × ((out.0 ≡ none) ⊎ (out.1.tasks ≡ s.tasks ++ ids_from start (count_or_zero out.0)))

      same : Kept (some 0, s)
      same = (unchanged, inr (sym (append-nil s.tasks)))

  -- When the last id cannot be read, all other calls succeed and the job already has its first
  -- ids, at least as many as there are new inputs, the new tasks take the stored values of its
  -- first tasks, the set of ids stays as it was, and the new tasks are yet counted.
  pub add_transfer_tasks_to_job-overwrites :
      (r : Replies) (inputs : List Input) (s : Job) (m : ℕ)
      → let new = fresh (λ x. contains x s.dedup) [] inputs in
        let first = job_id * 1000000 in
        let out = add_transfer_tasks_to_job job_id now r inputs s in
        r.checked ≡ true
        → r.ranged ≡ false
        → r.written ≡ true
        → s.tasks ≡ ids_from first m
        → 0 < length new
        → length new ≤ m
        → (map out.1.details (ids_from first (length new))
            ≡ map parsed (tasks_of job_id now first new))
          × (out.1.tasks ≡ s.tasks)
          × (out.1.total_count ≡ s.total_count + length new)
  unfolding add_transfer_tasks_to_job add_legacy_transfer_tasks unique_inputs start_id
  add_transfer_tasks_to_job-overwrites r [] s m checked unread written ids few room =
      absurd (omega (arith, few))
  add_transfer_tasks_to_job-overwrites r (i ∷ is) s m checked unread written ids few room =
      subst Taken (sym added) (
        subst (λ start. Taken (some (length (tasks_of job_id now start new)), final start))
          (sym first)
          (
            details-write_tasks job_id now new (job_id * 1000000) s,
            tasks-write_tasks job_id now new (job_id * 1000000) (job_id * 1000000) m s ids
                  (omega arith) (omega (arith, room))
                ∙ sym ids,
            ap (λ n. n + length new)
                (total_count-write_tasks (tasks_of job_id now (job_id * 1000000) new) s),
          ))
    where
      new : List Input
      new = fresh (λ x. contains x s.dedup) [] (i ∷ is)

      us : List Input
      us = unique_inputs [] (i ∷ is)

      fresh_again : List Input → List Input
      fresh_again = λ js. keep (λ j. not (contains j.src s.dedup)) js

      Taken : Option ℕ × Job → Type 0
      Taken out =
          (map out.1.details (ids_from (job_id * 1000000) (length new))
            ≡ map parsed (tasks_of job_id now (job_id * 1000000) new))
          × (out.1.tasks ≡ s.tasks)
          × (out.1.total_count ≡ s.total_count + length new)

      final : ℕ → Job
      final start = count_in new (record (write_tasks (tasks_of job_id now start new) s) {
        rows = create_rows r (tasks_of job_id now start new) s.rows;
      })

      first : start_id job_id r s.tasks ≡ job_id * 1000000
      first = ap (after_id job_id) (if_false {b = r.ranged} (last_id s.tasks) none unread)

      added : add_transfer_tasks_to_job job_id now r (i ∷ is) s ≡ (
        some (length (tasks_of job_id now (start_id job_id r s.tasks) new)),
        final (start_id job_id r s.tasks),
      )
      added =
          if_false {b = suc (length is) == 0} (some 0, s)
            (add_legacy_transfer_tasks job_id now r us s) (ground arith)
          ∙ if_false {b = length us == 0} (some 0, s) _ (ground arith)
          ∙ if_false {b = not r.checked} (none, s)
              (add_new job_id now r (fresh_again (unique_inputs [] us)) s) (ap not checked)
          ∙ ap (λ js. add_new job_id now r (fresh_again js) s)
              (unique_inputs-unique_inputs [] (i ∷ is))
          ∙ if_false {b = length new == 0} (some 0, s) _ (ground (arith, few))
          ∙ if_false {b = not r.written}
              (none, write_parts r.carried (tasks_of job_id now (start_id job_id r s.tasks) new) s)
              _ (ap not written)
