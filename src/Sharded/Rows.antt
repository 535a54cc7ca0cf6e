-- ===== src/Sharded/Rows.antt =====
-- The rows of PostgreSQL when tasks are added: the ids are numbers of one job, and the table has
-- the tasks of all jobs.
use tmp_cf_ytb_admin.Base.{
  ℕ, ◌+◌, ◌≤◌, ◌<◌, ◌≡◌, refl, sym, subst, ap, ◌∙◌, String, true, ◌==◌, Option, some, List, [], ◌∷◌,
  arith, length, keep, if_true, if_false,
}
use tmp_cf_ytb_admin.Models.{TransferTask}
use tmp_cf_ytb_admin.Sharded.{
  Shards, Input, tasks_of, write_task, write_tasks, has_row, insert_row, insert_rows, count_in,
  is_new, add_sharded_transfer_tasks,
}
use tmp_cf_ytb_admin.Sharded.RoundTrip.{added_well}

module _ (fnv32 : String → ℕ) (job_id now : ℕ) where
  insert_rows-taken :
      (inputs : List Input) (start : ℕ) (rows : List TransferTask)
      → ((k : ℕ) → start ≤ k → k < start + length inputs → has_row k rows ≡ true)
      → insert_rows (tasks_of job_id now start inputs) rows ≡ rows
  unfolding insert_rows insert_row
  insert_rows-taken [] start rows taken = refl
  insert_rows-taken (i ∷ is) start rows taken =
      ap (insert_rows (tasks_of job_id now (start + 1) is))
        (if_true {b = has_row start rows} _ _ (taken start (omega arith) (omega arith)))
      ∙ (insert_rows-taken is (start + 1) rows
          (λ k lo hi. taken k (omega (arith, lo)) (omega (arith, hi))))

  write_tasks-total_count :
      (ts : List TransferTask) (s : Shards)
      → (write_tasks fnv32 job_id now ts s).total_count ≡ s.total_count
  unfolding write_tasks write_task
  write_tasks-total_count [] s = refl
  write_tasks-total_count (t ∷ ts) s = write_tasks-total_count ts (write_task fnv32 job_id now t s)

  -- When the table already has a row for each id that is given out, as it has after another job was
  -- given the same ids, the tasks are counted and the call succeeds, and no row is written.
  pub add_sharded_transfer_tasks-taken :
      (inputs : List Input) (s : Shards)
      → let new = keep (is_new fnv32 job_id now s) inputs in
        let out = add_sharded_transfer_tasks fnv32 job_id now added_well inputs s in
        1 ≤ length new
        → ((k : ℕ) → s.max_id < k → k ≤ s.max_id + length new → has_row k s.rows ≡ true)
        → (out.0 ≡ some (length new))
          × (out.1.rows ≡ s.rows)
          × (out.1.total_count ≡ s.total_count + length new)
  unfolding add_sharded_transfer_tasks
  add_sharded_transfer_tasks-taken inputs s one taken =
      subst {A = Option ℕ × Shards}
        (λ x.
          (x.0 ≡ some (length new))
          × (x.1.rows ≡ s.rows)
          × (x.1.total_count ≡ s.total_count + length new))
        (sym (
          if_false {b = length new == 0} (some 0, s) (some (length new), after)
            (ground (arith, one))))
        (
          refl,
          insert_rows-taken new (s.max_id + 1) s.rows
              (λ k lo hi. taken k (omega (arith, lo)) (omega (arith, hi))),
          ap (λ n. n + length new) (write_tasks-total_count tasks numbered),
        )
    where
      new : List Input
      new = keep (is_new fnv32 job_id now s) inputs

      tasks : List TransferTask
      tasks = tasks_of job_id now (s.max_id + 1) new

      numbered : Shards
      numbered = record s { max_id = s.max_id + length new }

      after : Shards
      after =
          count_in new (record (write_tasks fnv32 job_id now tasks numbered) {
            rows = insert_rows tasks s.rows;
          })
