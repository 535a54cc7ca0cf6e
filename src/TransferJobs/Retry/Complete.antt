-- ===== src/TransferJobs/Retry/Complete.antt =====
-- A retry reaches every task of the job.
use mathlib.Core.List.{map-append}
use tmp_cf_ytb_admin.Base.{
  ℕ, zero, suc, ◌+◌, ◌≤◌, ◌<◌, ◌≡◌, refl, sym, ap, ◌∙◌, subst, String, str_eq, Bool, true, false,
  ◌&&◌, ◌||◌, Option, none, some, List, [], ◌∷◌, ◌++◌, map, arith, ltb, ◌==◌, if◌then◌else◌, length,
  take, drop, Bool-cases, inl, inr, if_true, if_false, length-map, length-append, get, put,
  take-drop, take-all, drop-add, length-drop_le,
}
use tmp_cf_ytb_admin.TransferTasks.{TxKey, TxJob, update_job, sharded_key, legacy_key, Server}
use tmp_cf_ytb_admin.TransferJobs.Retry.Batch.{
  is_in, retried, always, IsDone, reset_batch-IsDone, IsDone-append,
}
use tmp_cf_ytb_admin.TransferJobs.Retry.{
  Retry, reset_batch, reset_bucket, retry_buckets, retry_pages, reopen,
  retry_sharded_transfer_tasks, retry_legacy_transfer_tasks, retry_transfer_tasks_logic,
}

module _ (now job : ℕ) (updated : ℕ → Bool) where
  reset_bucket-IsDone :
      (n : ℕ) (ks : List TxKey) (r : Retry)
      → length ks ≤ n
      → IsDone now job updated ks r (reset_bucket now job always always updated n ks r)
  unfolding reset_bucket
  reset_bucket-IsDone zero [] r le = λ k. refl
  reset_bucket-IsDone zero (j ∷ js) r le = absurd (omega (arith, le))
  reset_bucket-IsDone (suc n) [] r le = λ k. refl
  reset_bucket-IsDone (suc n) (j ∷ js) r le =
      let ks : List TxKey = j ∷ js in
      let first = reset_batch now job always always updated (take 500 ks) r in
      subst
        (λ xs.
          IsDone now job updated xs r
            (reset_bucket now job always always updated n (drop 500 ks) first))
        (take-drop 500 ks)
        (IsDone-append now job updated (take 500 ks) (drop 500 ks) r first
          (reset_bucket now job always always updated n (drop 500 ks) first)
          (reset_batch-IsDone now job updated (take 500 ks) r)
          (reset_bucket-IsDone n (drop 500 ks) first (omega (arith, le, length-drop_le 500 ks))))

  -- The keys of so many buckets from one on.
  abbrev pub keys_from : (ℕ → List ℕ) → ℕ → ℕ → List TxKey
  keys_from ids_of zero bucket = []
  keys_from ids_of (suc n) bucket =
      map (sharded_key job) (ids_of bucket) ++ keys_from ids_of n (bucket + 1)

  retry_buckets-IsDone :
      (ids_of : ℕ → List ℕ) (n bucket : ℕ) (r : Retry)
      → 0 < bucket + length (ids_of bucket)
      → IsDone now job updated
          (keys_from ids_of n bucket)
          r
          (retry_buckets now job always always updated ids_of n bucket r)
  unfolding retry_buckets
  retry_buckets-IsDone ids_of zero bucket r some' = λ k. refl
  retry_buckets-IsDone ids_of (suc n) bucket r some' =
      let keys = map (sharded_key job) (ids_of bucket) in
      let mid = reset_bucket now job always always updated (length keys) keys r in
      let rest = retry_buckets now job always always updated ids_of n (bucket + 1) mid in
      subst (IsDone now job updated (keys ++ keys_from ids_of n (bucket + 1)) r)
        (sym (
          if_false {b = bucket == 0 && length keys == 0} r rest
            (ground (arith, some', length-map (sharded_key job) (ids_of bucket)))))
        (IsDone-append now job updated keys (keys_from ids_of n (bucket + 1)) r mid rest
          (reset_bucket-IsDone (length keys) keys r (omega arith))
          (retry_buckets-IsDone ids_of n (bucket + 1) mid (omega arith)))

  -- A page ends the loop when it is the last one.
  page-IsDone :
      (keys ks : List TxKey) (r done rest : Retry)
      → (length keys < 1000 → keys ≡ ks)
      → IsDone now job updated keys r done
      → (0 < length keys → IsDone now job updated ks r rest)
      → IsDone now job updated ks r
          (if length keys == 0 then r else if ltb (length keys) 1000 then done else rest)
  page-IsDone [] ks r done rest last this more =
      subst (λ xs. IsDone now job updated xs r r) (last (omega arith)) (λ k. refl)
  page-IsDone (j ∷ js) ks r done rest last this more =
      elim (Bool-cases (ltb (length (j ∷ js)) 1000)) [
        | inl short ↦
            subst (IsDone now job updated ks r)
              (sym (
                if_false {b = length (j ∷ js) == 0} _ _ (ground arith)
                ∙ if_true {b = ltb (length (j ∷ js)) 1000} done rest short))
              (subst (λ xs. IsDone now job updated xs r done) (last (ground (arith, short))) this)
        | inr full ↦
            subst (IsDone now job updated ks r)
              (sym (
                if_false {b = length (j ∷ js) == 0} _ _ (ground arith)
                ∙ if_false {b = ltb (length (j ∷ js)) 1000} done rest full))
              (more (omega arith))
      ]

  -- The fuel is enough when it is more than the number of ids that are left.
  retry_pages-IsDone :
      (index : List ℕ) (n cursor : ℕ) (r : Retry)
      → length (drop cursor index) < n
      → IsDone now job updated
          (map legacy_key (drop cursor index))
          r
          (retry_pages now job always always updated index n cursor r)
  unfolding retry_pages
  retry_pages-IsDone index zero cursor r le = absurd (omega (arith, le))
  retry_pages-IsDone index (suc n) cursor r le =
      let left = drop cursor index in
      let keys = map legacy_key (take 1000 left) in
      let done = reset_batch now job always always updated keys r in
      let rest = retry_pages now job always always updated index n (cursor + 1000) done in
      page-IsDone keys (map legacy_key left) r done rest
        (λ short.
          ap (map legacy_key)
            (take-all 1000 left (omega (arith, short, length-map legacy_key (take 1000 left)))))
        (reset_batch-IsDone now job updated keys r)
        (λ some'.
          let parts = ap length (take-drop 1000 left) in
          let both = length-append (take 1000 left) (drop 1000 left) in
          let same = length-map legacy_key (take 1000 left) in
          let next : drop (cursor + 1000) index ≡ drop 1000 left = drop-add cursor 1000 index in
          subst (λ xs. IsDone now job updated xs r rest)
            (sym (map-append legacy_key (take 1000 left) (drop 1000 left))
              ∙ ap (map legacy_key) (take-drop 1000 left))
            (IsDone-append now job updated keys (map legacy_key (drop 1000 left)) r done rest
              (reset_batch-IsDone now job updated keys r)
              (subst (λ xs. IsDone now job updated (map legacy_key xs) done rest) next
                (retry_pages-IsDone index n (cursor + 1000) done
                  (omega (arith, ap length next, parts, both, same, some', le))))))

  update_job-tasks : (f : TxJob → TxJob) (s : Server) → (update_job f job s).tasks ≡ s.tasks
  update_job-tasks f s = go (get job s.jobs)
    where
      go :
          (o : Option TxJob)
          → (elim o as (λ x. Server) [
            | none ↦ s
            | some j ↦ record s { jobs = put job (f j) s.jobs }
          ]).tasks
            ≡ s.tasks
      go none = refl
      go (some j) = refl

  reopen-tasks :
      (initial : String) (r : Retry)
      → (reopen now job always always updated initial r).server.tasks ≡ r.server.tasks
  reopen-tasks initial r =
      go (r.reset_count == 0)
        (str_eq initial "COMPLETED" || str_eq initial "FAILED" || str_eq initial "PHASEDCOMPLETED")
    where
      opened : Server
      opened = update_job (λ j. record j { status = "PENDING" }) job r.server

      go :
          (b c : Bool)
          → (if b
              then r
              else record r { offset = 0; server = if c then opened else r.server }).server.tasks
            ≡ r.server.tasks
      go true c = refl
      go false true = update_job-tasks (λ j. record j { status = "PENDING" }) r.server
      go false false = refl

  -- The keys of all tasks of a job.
  abbrev pub keys_of : Bool → (ℕ → List ℕ) → List ℕ → List TxKey
  keys_of sharded ids_of index = if sharded then keys_from ids_of 200 0 else map legacy_key index

  -- When Redis can be read and written, a retry of a job, whose first bucket is not empty where
  -- it is kept in shards, makes each stored task of its 200 buckets or of its sorted set that has
  -- failed PENDING, with no retries used up, and changes no other stored value.
  pub retry_transfer_tasks_logic-IsDone :
      (sharded : Bool) (ids_of : ℕ → List ℕ) (index : List ℕ) (initial : String) (s : Server)
      (offset : ℕ) (k : TxKey)
      → (sharded ≡ true → 0 < length (ids_of 0))
      → (retry_transfer_tasks_logic now job always always updated sharded ids_of index initial s
            offset).server.tasks
          k
        ≡ (if is_in k (keys_of sharded ids_of index) then retried now (s.tasks k) else s.tasks k)
  unfolding retry_transfer_tasks_logic retry_sharded_transfer_tasks retry_legacy_transfer_tasks
  retry_transfer_tasks_logic-IsDone true ids_of index initial s offset k some' =
      ap (λ tasks. tasks k)
        (reopen-tasks initial (
          retry_buckets now job always always updated ids_of 200 0
            (record { server = s; offset = offset; reset_count = 0 })))
      ∙ retry_buckets-IsDone ids_of 200 0 (record { server = s; offset = offset; reset_count = 0 })
          (omega (arith, some' refl)) k
  retry_transfer_tasks_logic-IsDone false ids_of index initial s offset k some' =
      ap (λ tasks. tasks k)
        (reopen-tasks initial (
          retry_pages now job always always updated index (length index + 1) 0
            (record { server = s; offset = offset; reset_count = 0 })))
      ∙ retry_pages-IsDone index (length index + 1) 0
          (record { server = s; offset = offset; reset_count = 0 }) (omega arith) k
