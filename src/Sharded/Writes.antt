-- ===== src/Sharded/Writes.antt =====
-- What the writes of new tasks leave in the buckets and the stored values, and what is read of it.
use tmp_cf_ytb_admin.Base.{
  ℕ, Bool, false, ◌||◌, zero, suc, ◌+◌, ◌*◌, ◌/◌, ◌≤◌, ◌<◌, ◌≡◌, refl, sym, ap, ◌∙◌, subst, String,
  eq_iff, some, List, [], ◌∷◌, ◌++◌, map, append-nil, append_assoc, arith, leb, ◌==◌, ==_iff,
  length, length-append, take, keep, All, All-append, if_true, if_false,
}
use tmp_cf_ytb_admin.Models.{TransferTask, Stored, parsed}
use tmp_cf_ytb_admin.Buffer.{buffer_size, offer}
use tmp_cf_ytb_admin.Sharded.{
  Shards, task_bucket_size, get_task_bucket_key, zadd, Input, task_of, tasks_of, write_task,
  write_tasks, max_of, fill_ids,
}

abbrev pub ids_from : ℕ → ℕ → List ℕ
ids_from start zero = []
ids_from start (suc n) = start ∷ ids_from (start + 1) n

abbrev pub has_id : ℕ → List ℕ → Bool
has_id k [] = false
has_id k (j ∷ js) = j == k || has_id k js

-- A set has the id that was added, and those it had.
pub has_id-zadd : (k j : ℕ) (js : List ℕ) → has_id k (zadd j js) ≡ (j == k || has_id k js)
unfolding zadd
has_id-zadd k j [] = refl
has_id-zadd k j (i ∷ is) = ground (arith, has_id-zadd k j is)

abbrev pub Below : ℕ → List ℕ → Type 0
Below n = All (λ j. j < n)

pub Below-weaken : (n : ℕ) (js : List ℕ) → Below n js → Below (n + 1) js
Below-weaken n [] h = tt
Below-weaken n (j ∷ js) h = (omega (arith, h.0), Below-weaken n js h.1)

pub zadd-last : (k : ℕ) (js : List ℕ) → Below k js → zadd k js ≡ js ++ k ∷ []
unfolding zadd
zadd-last k [] h = refl
zadd-last k (j ∷ js) h = ground (arith, h.0, zadd-last k js h.1)

pub keep-Below : (k : ℕ) (js ks : List ℕ) → Below k js → keep (leb k) (js ++ ks) ≡ keep (leb k) ks
keep-Below k [] ks h = refl
keep-Below k (j ∷ js) ks h = ground (arith, h.0, keep-Below k js ks h.1)

pub keep-ids_from : (start k n : ℕ) → start ≤ k → keep (leb start) (ids_from k n) ≡ ids_from k n
keep-ids_from start k zero h = refl
keep-ids_from start k (suc n) h = ground (arith, keep-ids_from start (k + 1) n (omega arith))

pub take-ids_from : (m start n : ℕ) → n ≤ m → take m (ids_from start n) ≡ ids_from start n
take-ids_from zero start zero h = refl
take-ids_from zero start (suc n) h = absurd (omega arith)
take-ids_from (suc m) start zero h = refl
take-ids_from (suc m) start (suc n) h = ap (◌∷◌ start) (take-ids_from m (start + 1) n (omega arith))

module _ {A : Type 0} where
  pub cons_head : {x y : A} {xs ys : List A} → ◌≡◌ {A = List A} (x ∷ xs) (y ∷ ys) → x ≡ y
  cons_head e = cc

  pub cons_tail : {x y : A} {xs ys : List A} → ◌≡◌ {A = List A} (x ∷ xs) (y ∷ ys) → xs ≡ ys
  cons_tail e = cc

pub plus_zero : (n : ℕ) → n ≡ n + 0
plus_zero n = omega arith

pub plus_suc : (n k : ℕ) → n + 1 + k ≡ n + suc k
plus_suc n k = omega arith

-- The largest of an id and of `n` ids from a larger one on.
abbrev pub top_id : ℕ → ℕ → ℕ → ℕ
top_id m start zero = m
top_id m start (suc n) = start + n

pub top : (start n : ℕ) → top_id start (start + 1) n ≡ start + n
top start zero = omega arith
top start (suc n) = omega arith

pub offer-room :
    (t : TransferTask) (ch : List TransferTask)
    → t.status ≡ "PENDING"
    → length ch < buffer_size
    → offer (λ u. u.status) (parsed t) ch ≡ some (ch ++ t ∷ [])
unfolding offer
offer-room t ch pending room = ground (arith, eq_iff t.status "PENDING")

-- A pending task goes into a buffer with room.
pub fill_ids-step :
    (details : ℕ → Stored TransferTask) (k : ℕ) (ks : List ℕ) (ch : List TransferTask) (m n : ℕ)
    (t : TransferTask)
    → t.status ≡ "PENDING"
    → details k ≡ parsed t
    → length ch < buffer_size
    → fill_ids details (k ∷ ks) ch m n ≡ fill_ids details ks (ch ++ t ∷ []) (max_of m k) (n + 1)
unfolding fill_ids
fill_ids-step details k ks ch m n t pending e room =
    let offered : offer (λ u. u.status) (details k) ch ≡ some (ch ++ t ∷ []) =
      ap (λ v. offer (λ u. u.status) v ch) e ∙ offer-room t ch pending room in
    rw (offered, fill_ids)
      (ap (fill_ids details ks (ch ++ t ∷ []) (max_of m k)) (
        if_false {b = length ch == length (ch ++ t ∷ [])} n (n + 1)
          (ground (arith, length-append ch (t ∷ [])))))

module _ (fnv32 : String → ℕ) (job_id now : ℕ) where
  pub buckets-write_task :
      (i : Input) (start b : ℕ) (s : Shards)
      → Below start (s.buckets b)
      → b * task_bucket_size ≤ start
      → start < (b + 1) * task_bucket_size
      → (write_task fnv32 job_id now (task_of job_id now start i) s).buckets b
        ≡ s.buckets b ++ start ∷ []
  unfolding write_task get_task_bucket_key
  buckets-write_task i start b s low first last =
      let here : start / task_bucket_size ≡ b = omega arith in
      if_true _ (s.buckets b) ((==_iff (start / task_bucket_size) b).1 here)
      ∙ ap (λ c. zadd start (s.buckets c)) here
      ∙ zadd-last start (s.buckets b) low

  -- The new ids come last in their bucket.
  pub buckets-write_tasks :
      (is : List Input) (start b : ℕ) (s : Shards)
      → Below start (s.buckets b)
      → b * task_bucket_size ≤ start
      → start + length is ≤ (b + 1) * task_bucket_size
      → (write_tasks fnv32 job_id now (tasks_of job_id now start is) s).buckets b
        ≡ s.buckets b ++ ids_from start (length is)
  unfolding write_tasks
  buckets-write_tasks [] start b s low first last = sym (append-nil (s.buckets b))
  buckets-write_tasks (i ∷ is) start b s low first last =
      let here = buckets-write_task i start b s low first (omega arith) in
      buckets-write_tasks is (start + 1) b
        (write_task fnv32 job_id now (task_of job_id now start i) s)
        (subst (Below (start + 1)) (sym here) (
          All-append (λ j. j < start + 1) (s.buckets b) (start ∷ [])
            (Below-weaken start (s.buckets b) low) (omega arith, tt)))
        (omega arith) (omega arith)
      ∙ ap (λ js. js ++ ids_from (start + 1) (length is)) here
      ∙ append_assoc (s.buckets b) (start ∷ []) (ids_from (start + 1) (length is))

  -- Tasks with smaller ids keep their values.
  pub details-write_tasks_lt :
      (is : List Input) (start j : ℕ) (s : Shards)
      → j < start
      → (write_tasks fnv32 job_id now (tasks_of job_id now start is) s).details j ≡ s.details j
  unfolding write_tasks write_task
  details-write_tasks_lt [] start j s h = refl
  details-write_tasks_lt (i ∷ is) start j s h =
      details-write_tasks_lt is (start + 1) j
        (write_task fnv32 job_id now (task_of job_id now start i) s) (omega arith)
      ∙ ground (arith, h)

  pub details-write_tasks :
      (is : List Input) (start : ℕ) (s : Shards)
      → map
          (write_tasks fnv32 job_id now (tasks_of job_id now start is) s).details
          (ids_from start (length is))
        ≡ map parsed (tasks_of job_id now start is)
  unfolding write_tasks write_task
  details-write_tasks [] start s = refl
  details-write_tasks (i ∷ is) start s =
      let next = write_task fnv32 job_id now (task_of job_id now start i) s in
      λ k.
        (details-write_tasks_lt is (start + 1) start next (omega arith) ∙ stored) k
        ∷ details-write_tasks is (start + 1) next k
    where
      stored :
          (write_task fnv32 job_id now (task_of job_id now start i) s).details start
          ≡ parsed (task_of job_id now start i)
      stored = ground arith
