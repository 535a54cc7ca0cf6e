-- ===== src/Sharded/Sources.antt =====
-- A sharded job as a set of sources: what is kept of it is the set of the sources in its shards.
use tmp_cf_ytb_admin.Base.{
  ℕ, suc, ◌+◌, ◌/◌, ◌≢◌, ◌≡◌, refl, sym, ap, ◌∙◌, subst, String, str_eq, eq_iff, Bool, true, false,
  ◌||◌, ◌==◌, ==_iff, Option, none, some, List, [], ◌∷◌, Bool-cases, inl, inr, if_true, if_false,
  length, arith,
}
use tmp_cf_ytb_admin.Models.{TransferTask, parsed}
use tmp_cf_ytb_admin.Sharded.{
  Shards, Input, contains, unique_inputs, get_dedup_shard_key, get_task_bucket_key, task_of,
  tasks_of, write_task, write_tasks, insert_rows, count_in, add_sharded_transfer_tasks,
  add_transfer_tasks_to_job,
}
use tmp_cf_ytb_admin.Sharded.Writes.{has_id, has_id-zadd, details-write_tasks_lt}
use tmp_cf_ytb_admin.Sharded.RoundTrip.{added_well}
use tmp_cf_ytb_admin.Sharded.Fresh.{fresh, number-fresh, knows-fresh, mentions-none}
use tmp_cf_ytb_admin.SourceSet.{SourceSet, IsLawful, IsStoring, mentions, number_new, or_false}

abbrev pub count_or_zero : Option ℕ → ℕ
count_or_zero none = 0
count_or_zero (some n) = n

module _ (fnv32 : String → ℕ) (job_id now : ℕ) where
  -- Every call of Redis and of the database succeeds.
  abbrev pub sharded : SourceSet
  sharded = record {
    State = Shards;
    knows = λ s x. contains x (s.dedup (get_dedup_shard_key fnv32 x));
    add = λ is s.
        let out = add_transfer_tasks_to_job fnv32 job_id now added_well is s in
        (count_or_zero out.0, out.1);
  }

  knows-write_task :
      (k : ℕ) (i : Input) (s : Shards) (x : String)
      → sharded.knows (write_task fnv32 job_id now (task_of job_id now k i) s) x
        ≡ (str_eq i.src x || sharded.knows s x)
  unfolding write_task get_dedup_shard_key
  knows-write_task k i s x = elim (Bool-cases (str_eq i.src x)) [
    | inl e ↦
        let same : i.src ≡ x = (eq_iff i.src x).0 e in
        ap (contains x) (
          if_true {b = get_dedup_shard_key fnv32 i.src == get_dedup_shard_key fnv32 x} _ _
            ((==_iff _ _).1 (ap (get_dedup_shard_key fnv32) same)))
        ∙ ap (λ b. b || contains x (s.dedup (get_dedup_shard_key fnv32 i.src))) e
        ∙ sym (ap (λ b. b || sharded.knows s x) e)
    | inr e ↦ elim (Bool-cases (get_dedup_shard_key fnv32 i.src == get_dedup_shard_key fnv32 x)) [
      | inl h ↦
          ap (contains x)
            (if_true {b = get_dedup_shard_key fnv32 i.src == get_dedup_shard_key fnv32 x} _ _ h)
          ∙ ap (λ n. str_eq i.src x || contains x (s.dedup n)) ((==_iff _ _).0 h)
      | inr h ↦
          ap (contains x)
            (if_false {b = get_dedup_shard_key fnv32 i.src == get_dedup_shard_key fnv32 x} _ _ h)
          ∙ sym (ap (λ b. b || sharded.knows s x) e)
    ]
  ]

  knows-write_tasks :
      (k : ℕ) (is : List Input) (s : Shards) (x : String)
      → sharded.knows (write_tasks fnv32 job_id now (tasks_of job_id now k is) s) x
        ≡ (sharded.knows s x || mentions x is)
  unfolding write_tasks
  knows-write_tasks k [] s x = sym (or_false (sharded.knows s x))
  knows-write_tasks k (i ∷ is) s x =
      knows-write_tasks (k + 1) is (write_task fnv32 job_id now (task_of job_id now k i) s) x
      ∙ ap (λ b. b || mentions x is) (knows-write_task k i s x)
      ∙ or_turn (str_eq i.src x) (sharded.knows s x) (mentions x is)
    where
      or_turn : (a b c : Bool) → ((a || b) || c) ≡ (b || (a || c))
      or_turn true true c = refl
      or_turn true false c = refl
      or_turn false true c = refl
      or_turn false false c = refl

  -- A source has a pending task of the job, which is stored under its own id, and whose id is in its
  -- bucket.
  abbrev pub HasTask : Shards → String → Type 0
  HasTask s x =
      (k : ℕ) × (t : TransferTask) × (s.details k ≡ parsed t)
      × ((t.id ≡ k) × (t.job_id ≡ job_id))
      × ((t.src ≡ x) × (t.status ≡ "PENDING"))
      × (has_id k (s.buckets (k / 50000)) ≡ true)

  has_id-write_tasks :
      (k : ℕ) (is : List Input) (s : Shards) (j b : ℕ)
      → has_id j (s.buckets b) ≡ true
      → has_id j ((write_tasks fnv32 job_id now (tasks_of job_id now k is) s).buckets b) ≡ true
  unfolding write_tasks write_task get_task_bucket_key
  has_id-write_tasks k [] s j b h = h
  has_id-write_tasks k (i ∷ is) s j b h =
      has_id-write_tasks (k + 1) is (write_task fnv32 job_id now (task_of job_id now k i) s) j b
        (ground (arith, h, has_id-zadd j k (s.buckets b)))

  write_tasks-HasTask :
      (k : ℕ) (is : List Input) (s : Shards) (x : String)
      → mentions x is ≡ true
      → HasTask (write_tasks fnv32 job_id now (tasks_of job_id now k is) s) x
  unfolding write_tasks
  write_tasks-HasTask k [] s x h = absurd (cc)
  write_tasks-HasTask k (i ∷ is) s x h = elim (Bool-cases (str_eq i.src x)) [
    | inl e ↦ (
      k,
      task_of job_id now k i,
      details-write_tasks_lt fnv32 job_id now is (k + 1) k next (omega arith) ∙ stored,
      (refl, refl),
      ((eq_iff i.src x).0 e, refl),
      has_id-write_tasks (k + 1) is next k (k / 50000) listed,
    )
    | inr e ↦ write_tasks-HasTask (k + 1) is next x (sym (ap (λ b. b || mentions x is) e) ∙ h)
  ]
    where
      next : Shards
      next = write_task fnv32 job_id now (task_of job_id now k i) s

      stored : next.details k ≡ parsed (task_of job_id now k i)
      stored = unfold write_task in ground arith

      listed : has_id k (next.buckets (k / 50000)) ≡ true
      listed =
          unfold write_task get_task_bucket_key in
          ground (arith, has_id-zadd k k (s.buckets (k / 50000)))

  -- What the inputs without those known leave.
  Adds : List Input → Shards → Option ℕ × Shards → Type 0
  Adds is s out =
      (count_or_zero out.0 ≡ number_new (sharded.knows s) is)
      × ((x : String) → sharded.knows out.1 x ≡ (sharded.knows s x || mentions x is))
      × ((x : String) → sharded.knows s x ≡ false → mentions x is ≡ true → HasTask out.1 x)

  mentions-new :
      (is : List Input) (s : Shards) (x : String)
      → sharded.knows s x ≡ false
      → mentions x is ≡ true
      → mentions x (fresh (sharded.knows s) [] is) ≡ true
  mentions-new is s x unknown here =
      ap (λ b. b || mentions x (fresh (sharded.knows s) [] is)) (sym unknown)
      ∙ knows-fresh (sharded.knows s) is x
      ∙ ap (λ b. b || mentions x is) unknown
      ∙ here

  false≢true : ◌≢◌ {A = Bool} false true
  false≢true e = cc

  add-Adds :
      (is : List Input) (s : Shards)
      → Adds is s (add_sharded_transfer_tasks fnv32 job_id now added_well (unique_inputs [] is) s)
  unfolding add_sharded_transfer_tasks Adds
  add-Adds is s = elim (Bool-cases (length new == 0)) [
    | inl none_new ↦
        let empty : length new ≡ 0 = (==_iff _ _).0 none_new in
        subst {A = Option ℕ × Shards} (Adds is s)
          (sym (if_true {b = length new == 0} (some 0, s) (some (length new), after) none_new))
          (
            sym empty ∙ number-fresh (sharded.knows s) is,
            λ x.
                sym (or_false (sharded.knows s x))
                ∙ ap (λ b. sharded.knows s x || b) (sym (mentions-none new x empty))
                ∙ knows-fresh (sharded.knows s) is x,
            λ x unknown here.
                absurd
                  (false≢true (sym (mentions-none new x empty) ∙ mentions-new is s x unknown here)),
          )
    | inr some_new ↦
        subst {A = Option ℕ × Shards} (Adds is s)
          (sym (if_false {b = length new == 0} (some 0, s) (some (length new), after) some_new))
          (
            number-fresh (sharded.knows s) is,
            λ x.
                knows-write_tasks (s.max_id + 1) new numbered x
                ∙ knows-fresh (sharded.knows s) is x,
            λ x unknown here.
                write_tasks-HasTask (s.max_id + 1) new numbered x
                  (mentions-new is s x unknown here),
          )
  ]
    where
      new : List Input
      new = fresh (sharded.knows s) [] is

      tasks : List TransferTask
      tasks = tasks_of job_id now (s.max_id + 1) new

      numbered : Shards
      numbered = record s { max_id = s.max_id + length new }

      after : Shards
      after =
          count_in new (record (write_tasks fnv32 job_id now tasks numbered) {
            rows = insert_rows tasks s.rows;
          })

  to_job-Adds :
      (is : List Input) (s : Shards)
      → Adds is s (add_transfer_tasks_to_job fnv32 job_id now added_well is s)
  unfolding add_transfer_tasks_to_job Adds number_new
  to_job-Adds [] s =
      (refl, λ x. sym (or_false (sharded.knows s x)), λ x unknown here. absurd (false≢true here))
  to_job-Adds (i ∷ is) s =
      subst {A = Option ℕ × Shards} (Adds (i ∷ is) s)
        (sym (
          if_false {b = suc (length is) == 0} (some 0, s)
            (add_sharded_transfer_tasks fnv32 job_id now added_well (unique_inputs [] (i ∷ is)) s)
            (ground arith)))
        (add-Adds (i ∷ is) s)

  -- When every call of Redis and of the database succeeds, a sharded job implements the set of
  -- sources: adding inputs makes known those sources that were not, and the reply is their number.
  -- Each of them then has its own task: it is PENDING, stored under its id, and its id is in its
  -- bucket, the id divided by 50000.
  pub sharded-IsLawful : IsLawful sharded × IsStoring sharded HasTask
  unfolding Adds
  sharded-IsLawful = (
    record {
      knows-add = λ is s x. (to_job-Adds is s).1 x;
      number-add = λ is s. (to_job-Adds is s).0;
    },
    record { add-HasTask = λ is s x unknown here. (to_job-Adds is s).2 x unknown here },
  )
