-- ===== src/Legacy/Sources.antt =====
-- A job of the old kind as a set of sources: what is kept of it is the set of its known sources.
use tmp_cf_ytb_admin.Base.{
  ℕ, suc, ◌+◌, ◌≢◌, eq_iff, ◌≡◌, refl, sym, ap, ◌∙◌, subst, String, str_eq, Bool, true, false, not,
  ◌||◌, ◌==◌, ==_iff, Option, some, List, [], ◌∷◌, Bool-cases, inl, inr, if_true, if_false, length,
  keep, arith,
}
use tmp_cf_ytb_admin.Models.{TransferTask, parsed}
use tmp_cf_ytb_admin.Sharded.{Input, contains, unique_inputs, task_of, tasks_of}
use tmp_cf_ytb_admin.Sharded.Fresh.{
  unique_inputs-unique_inputs, fresh, number-fresh, knows-fresh, mentions-none,
}
use tmp_cf_ytb_admin.Sharded.Writes.{has_id, has_id-zadd}
use tmp_cf_ytb_admin.Legacy.Ids.{details-write_tasks_lt, length-tasks_of}
use tmp_cf_ytb_admin.Sharded.Sources.{count_or_zero}
use tmp_cf_ytb_admin.SourceSet.{SourceSet, IsLawful, IsStoring, mentions, number_new, or_false}
use tmp_cf_ytb_admin.Legacy.{
  Job, Replies, start_id, write_task, write_tasks, create_rows, count_in, add_new,
  add_legacy_transfer_tasks, add_transfer_tasks_to_job,
}

-- Every call of Redis and of the database succeeds.
abbrev pub all_well : Replies
all_well = record {
  checked = true;
  ranged = true;
  written = true;
  carried = λ k c. true;
  inserted = λ k. true;
}

module _ (job_id now : ℕ) where
  abbrev pub legacy : SourceSet
  legacy = record {
    State = Job;
    knows = λ s x. contains x s.dedup;
    add = λ is s.
        let out = add_transfer_tasks_to_job job_id now all_well is s in
        (count_or_zero out.0, out.1);
  }

  knows-write_tasks :
      (k : ℕ) (is : List Input) (s : Job) (x : String)
      → legacy.knows (write_tasks (tasks_of job_id now k is) s) x
        ≡ (legacy.knows s x || mentions x is)
  unfolding write_tasks write_task
  knows-write_tasks k [] s x = sym (or_false (legacy.knows s x))
  knows-write_tasks k (i ∷ is) s x =
      knows-write_tasks (k + 1) is _ x ∙ or_turn (str_eq i.src x) (legacy.knows s x) (mentions x is)
    where
      or_turn : (a b c : Bool) → ((a || b) || c) ≡ (b || (a || c))
      or_turn true true c = refl
      or_turn true false c = refl
      or_turn false true c = refl
      or_turn false false c = refl

  -- A source has a pending task of the job, which is stored under its own id, and whose id is in
  -- the set of the job.
  abbrev pub HasTask : Job → String → Type 0
  HasTask s x =
      (k : ℕ) × (t : TransferTask) × (s.details k ≡ parsed t)
      × ((t.id ≡ k) × (t.job_id ≡ job_id))
      × ((t.src ≡ x) × (t.status ≡ "PENDING"))
      × (has_id k s.tasks ≡ true)

  has_id-write_tasks :
      (k : ℕ) (is : List Input) (s : Job) (j : ℕ)
      → has_id j s.tasks ≡ true
      → has_id j (write_tasks (tasks_of job_id now k is) s).tasks ≡ true
  unfolding write_tasks write_task
  has_id-write_tasks k [] s j h = h
  has_id-write_tasks k (i ∷ is) s j h =
      has_id-write_tasks (k + 1) is (write_task (task_of job_id now k i) s) j
        (ground (arith, h, has_id-zadd j k s.tasks))

  write_tasks-HasTask :
      (k : ℕ) (is : List Input) (s : Job) (x : String)
      → mentions x is ≡ true
      → HasTask (write_tasks (tasks_of job_id now k is) s) x
  unfolding write_tasks
  write_tasks-HasTask k [] s x h = absurd (cc)
  write_tasks-HasTask k (i ∷ is) s x h = elim (Bool-cases (str_eq i.src x)) [
    | inl e ↦ (
      k,
      task_of job_id now k i,
      details-write_tasks_lt job_id now is (k + 1) k next (omega arith) ∙ stored,
      (refl, refl),
      ((eq_iff i.src x).0 e, refl),
      has_id-write_tasks (k + 1) is next k listed,
    )
    | inr e ↦ write_tasks-HasTask (k + 1) is next x (sym (ap (λ b. b || mentions x is) e) ∙ h)
  ]
    where
      next : Job
      next = write_task (task_of job_id now k i) s

      stored : next.details k ≡ parsed (task_of job_id now k i)
      stored = unfold write_task in ground arith

      listed : has_id k next.tasks ≡ true
      listed = unfold write_task in ground (arith, has_id-zadd k k s.tasks)

  Adds : List Input → Job → Option ℕ × Job → Type 0
  Adds is s out =
      (count_or_zero out.0 ≡ number_new (legacy.knows s) is)
      × ((x : String) → legacy.knows out.1 x ≡ (legacy.knows s x || mentions x is))
      × ((x : String) → legacy.knows s x ≡ false → mentions x is ≡ true → HasTask out.1 x)

  mentions-new :
      (is : List Input) (s : Job) (x : String)
      → legacy.knows s x ≡ false
      → mentions x is ≡ true
      → mentions x (fresh (legacy.knows s) [] is) ≡ true
  mentions-new is s x unknown here =
      ap (λ b. b || mentions x (fresh (legacy.knows s) [] is)) (sym unknown)
      ∙ knows-fresh (legacy.knows s) is x
      ∙ ap (λ b. b || mentions x is) unknown
      ∙ here

  false≢true : ◌≢◌ {A = Bool} false true
  false≢true e = cc

  new-Adds :
      (is : List Input) (s : Job)
      → Adds is s (add_new job_id now all_well (fresh (legacy.knows s) [] is) s)
  unfolding Adds
  new-Adds is s = elim (Bool-cases (length new == 0)) [
    | inl none_new ↦
        let empty : length new ≡ 0 = (==_iff _ _).0 none_new in
        subst {A = Option ℕ × Job} (Adds is s)
          (sym (if_true {b = length new == 0} (some 0, s) (some (length tasks), after) none_new))
          (
            sym empty ∙ number-fresh (legacy.knows s) is,
            λ x.
                sym (or_false (legacy.knows s x))
                ∙ ap (λ b. legacy.knows s x || b) (sym (mentions-none new x empty))
                ∙ knows-fresh (legacy.knows s) is x,
            λ x unknown here.
                absurd
                  (false≢true (sym (mentions-none new x empty) ∙ mentions-new is s x unknown here)),
          )
    | inr some_new ↦
        subst {A = Option ℕ × Job} (Adds is s)
          (sym (if_false {b = length new == 0} (some 0, s) (some (length tasks), after) some_new))
          (
            length-tasks_of job_id now (start_id job_id all_well s.tasks) new
                ∙ number-fresh (legacy.knows s) is,
            λ x.
                knows-write_tasks (start_id job_id all_well s.tasks) new s x
                ∙ knows-fresh (legacy.knows s) is x,
            λ x unknown here.
                write_tasks-HasTask (start_id job_id all_well s.tasks) new s x
                  (mentions-new is s x unknown here),
          )
  ]
    where
      new : List Input
      new = fresh (legacy.knows s) [] is

      tasks : List TransferTask
      tasks = tasks_of job_id now (start_id job_id all_well s.tasks) new

      after : Job
      after =
          count_in new (record (write_tasks tasks s) { rows = create_rows all_well tasks s.rows })

  unique-Adds :
      (is : List Input) (s : Job)
      → Adds is s (
          add_new job_id now all_well
            (keep (λ i. not (contains i.src s.dedup)) (unique_inputs [] (unique_inputs [] is)))
            s)
  unique-Adds is s =
      subst
        (λ us.
          Adds is s (add_new job_id now all_well (keep (λ i. not (contains i.src s.dedup)) us) s))
        (sym (unique_inputs-unique_inputs [] is)) (new-Adds is s)

  to_job-Adds :
      (is : List Input) (s : Job) → Adds is s (add_transfer_tasks_to_job job_id now all_well is s)
  unfolding add_transfer_tasks_to_job add_legacy_transfer_tasks unique_inputs Adds number_new
  to_job-Adds [] s =
      (refl, λ x. sym (or_false (legacy.knows s x)), λ x unknown here. absurd (false≢true here))
  to_job-Adds (i ∷ is) s =
      subst {A = Option ℕ × Job} (Adds (i ∷ is) s)
        (sym (
          if_false {b = suc (length is) == 0} (some 0, s)
            (add_legacy_transfer_tasks job_id now all_well (unique_inputs [] (i ∷ is)) s)
            (ground arith)
          ∙ if_false {b = length (unique_inputs [] (i ∷ is)) == 0} (some 0, s)
              (add_new job_id now all_well
                (keep (λ j. not (contains j.src s.dedup))
                  (unique_inputs [] (unique_inputs [] (i ∷ is))))
                s)
              (ground arith)))
        (unique-Adds (i ∷ is) s)

  -- When every call of Redis and of the database succeeds, a job of the old kind implements the set
  -- of sources: adding inputs makes known those sources that were not, and the reply is their
  -- number. Each of them then has its own task: it is PENDING, stored under its id, and its id is in
  -- the set of the job.
  pub legacy-IsLawful : IsLawful legacy × IsStoring legacy HasTask
  unfolding Adds
  legacy-IsLawful = (
    record {
      knows-add = λ is s x. (to_job-Adds is s).1 x;
      number-add = λ is s. (to_job-Adds is s).0;
    },
    record { add-HasTask = λ is s x unknown here. (to_job-Adds is s).2 x unknown here },
  )
