-- ===== src/TransferJobs/Retry/Batch.antt =====
-- What a retry makes of the tasks of a batch.
use tmp_cf_ytb_admin.Base.{
  ℕ, ◌≡◌, refl, sym, ap, ◌∙◌, subst, str_eq, Bool, true, false, ◌||◌, List, [], ◌∷◌, ◌++◌, arith,
  if◌then◌else◌, Bool-cases, inl, inr, ◌⊎◌, if_true, if_false,
}
use tmp_cf_ytb_admin.Models.{TransferTask, Stored, absent, malformed, parsed}
use tmp_cf_ytb_admin.TransferTasks.{
  TxKey, same_key, sharded_key, legacy_key, write_key, set_all, reset_failed_task_for_retry,
}
use tmp_cf_ytb_admin.TransferJobs.Retry.{Retry, count_reset, collect_resets, reset_batch}

abbrev pub is_in : TxKey → List TxKey → Bool
is_in k [] = false
is_in k (j ∷ js) = same_key k j || is_in k js

-- What a stored value is to become.
abbrev pub retried : ℕ → Stored TransferTask → Stored TransferTask
retried now absent = absent
retried now malformed = malformed
retried now (parsed t) =
    if str_eq t.status "FAILED"
    then parsed (record t {
      status = "PENDING";
      error_message = "";
      worker_id = "";
      started_at = 0;
      completed_at = 0;
      updated_at = now;
      retry_count = 0;
      last_retry_time = "";
    })
    else parsed t

retried-twice : (now : ℕ) (v : Stored TransferTask) → retried now (retried now v) ≡ retried now v
retried-twice now absent = refl
retried-twice now malformed = refl
retried-twice now (parsed t) = elim (Bool-cases (str_eq t.status "FAILED")) [
  | inl failed ↦ rw failed refl
  | inr other ↦ rw (other, other) refl
]

-- All of a batch can be read, and its pipeline is carried out.
abbrev pub always : List TxKey → Bool
always ks = true

same_key-eq : (a b : TxKey) → same_key a b ≡ true → a ≡ b
same_key-eq (sharded_key a b) (sharded_key c d) e =
    let p : a ≡ c = ground (arith, e) in
    let q : b ≡ d = ground (arith, e) in λ i. sharded_key (p i) (q i)
same_key-eq (legacy_key a) (legacy_key b) e = ap legacy_key (ground (arith, e))
same_key-eq (sharded_key a b) (legacy_key d) e = cc
same_key-eq (legacy_key a) (sharded_key c d) e = cc

module _ {A : Type 0} where
  if-same : (b : Bool) (x y : A) → x ≡ y → (if b then x else y) ≡ y
  if-same true x y e = e
  if-same false x y e = refl

  if-or :
      (a b c : Bool) (x y : A) → (if (a || b) || c then x else y) ≡ (if a || (b || c) then x else y)
  if-or true b c x y = refl
  if-or false b c x y = refl

  if-or_false : (b : Bool) (x y : A) → (if b then x else y) ≡ (if b || false then x else y)
  if-or_false true x y = refl
  if-or_false false x y = refl

  if-written :
      (b s : Bool) (new old x y : A)
      → (s ≡ true → new ≡ x)
      → old ≡ (if b then x else y)
      → (if s then new else old) ≡ (if b || s then x else y)
  if-written true true new old x y h e = h refl
  if-written false true new old x y h e = h refl
  if-written true false new old x y h e = e
  if-written false false new old x y h e = e

or_assoc : (a b c : Bool) → (a || (b || c)) ≡ ((a || b) || c)
or_assoc true b c = refl
or_assoc false b c = refl

retried-if :
    (now : ℕ) (p q : Bool) (v w : Stored TransferTask)
    → w ≡ (if p then retried now v else v)
    → (if q then retried now w else w) ≡ (if p || q then retried now v else v)
retried-if now true true v w e = ap (retried now) e ∙ retried-twice now v
retried-if now true false v w e = e
retried-if now false true v w e = ap (retried now) e
retried-if now false false v w e = e

module _ (now job : ℕ) (updated : ℕ → Bool) where
  abbrev collected :
      (TxKey → Stored TransferTask) → List TxKey → Retry → List (TxKey × TransferTask) × Retry
  collected values ks r = collect_resets now job always always updated values ks r

  -- A key whose value stays adds no command, and any other one adds the value that it is to get.
  collect_resets-cons :
      (values : TxKey → Stored TransferTask) (j : TxKey) (js : List TxKey) (r : Retry)
      → ((collected values (j ∷ js) r ≡ collected values js r)
          × (retried now (values j) ≡ values j))
        ⊎ ((t : TransferTask) × (r' : Retry) × ((collected values (j ∷ js) r).0
              ≡ (j, t) ∷ (collected values js r').0)
            × (r'.server.tasks ≡ r.server.tasks)
            × ((collected values (j ∷ js) r).1 ≡ (collected values js r').1)
            × (retried now (values j) ≡ parsed t))
  unfolding collect_resets reset_failed_task_for_retry
  collect_resets-cons values j js r = go (values j) refl
    where
      go :
          (v : Stored TransferTask)
          → values j ≡ v
          → ((collected values (j ∷ js) r ≡ collected values js r)
              × (retried now (values j) ≡ values j))
            ⊎ ((t : TransferTask) × (r' : Retry) × ((collected values (j ∷ js) r).0
                  ≡ (j, t) ∷ (collected values js r').0)
                × (r'.server.tasks ≡ r.server.tasks)
                × ((collected values (j ∷ js) r).1 ≡ (collected values js r').1)
                × (retried now (values j) ≡ parsed t))
      go absent e = inl (rw (e, collect_resets) refl, ap (retried now) e ∙ sym e)
      go malformed e = inl (rw (e, collect_resets) refl, ap (retried now) e ∙ sym e)
      go (parsed t) e = elim (Bool-cases (str_eq t.status "FAILED")) [
        | inl failed ↦
            let t' : TransferTask = record t {
              status = "PENDING";
              updated_at = now;
              error_message = "";
              worker_id = "";
              started_at = 0;
              completed_at = 0;
              retry_count = 0;
              last_retry_time = "";
            } in
            inr (
              t',
              count_reset now job always always updated t t' r,
              rw (e, failed, collect_resets) refl,
              refl,
              rw (e, failed, collect_resets) refl,
              ap (retried now) e ∙ if_true _ _ failed,
            )
        | inr other ↦
            inl
              (rw (e, other, collect_resets) refl, ap (retried now) e ∙ if_false _ _ other ∙ sym e)
      ]

  -- The commands of a batch write what its values are to become; `b` says whether an earlier
  -- command has written that of the key already.
  set_all-collect_resets :
      (values : TxKey → Stored TransferTask) (ks : List TxKey) (r : Retry) (k : TxKey) (b : Bool)
      (tasks : TxKey → Stored TransferTask)
      → tasks k ≡ (if b then retried now (values k) else values k)
      → set_all (collected values ks r).0 tasks k
        ≡ (if b || is_in k ks then retried now (values k) else values k)
  set_all-collect_resets values [] r k b tasks e =
      unfold collect_resets in e ∙ if-or_false b (retried now (values k)) (values k)
  set_all-collect_resets values (j ∷ js) r k b tasks e = elim (collect_resets-cons values j js r) [
    | inl (same, stays) ↦
        ap (λ c. set_all c.0 tasks k) same
        ∙ set_all-collect_resets values js r k b tasks e
        ∙ elim (Bool-cases (same_key k j)) [
          | inl this ↦
              let stays' : retried now (values k) ≡ values k =
                subst (λ i. retried now (values i) ≡ values i) (sym (same_key-eq k j this)) stays in
              if-same _ _ _ stays' ∙ sym (if-same _ _ _ stays')
          | inr other ↦
              ap (λ c. if b || (c || is_in k js) then retried now (values k) else values k)
                (sym other)
        ]
    | inr (t, r', commands, _, _, becomes) ↦
        ap (λ c. set_all c tasks k) commands
        ∙ set_all-collect_resets values js r' k (b || same_key k j) (write_key j t tasks) (
            if-written b (same_key k j) (parsed t) (tasks k) (retried now (values k)) (values k)
              (λ this. sym becomes ∙ ap (λ i. retried now (values i)) (sym (same_key-eq k j this)))
              e)
        ∙ if-or b (same_key k j) (is_in k js) (retried now (values k)) (values k)
  ]

  collect_resets-keeps :
      (values : TxKey → Stored TransferTask) (ks : List TxKey) (r : Retry)
      → (collected values ks r).1.server.tasks ≡ r.server.tasks
  collect_resets-keeps values [] r = unfold collect_resets in refl
  collect_resets-keeps values (j ∷ js) r = elim (collect_resets-cons values j js r) [
    | inl (same, _) ↦ ap (λ c. c.1.server.tasks) same ∙ collect_resets-keeps values js r
    | inr (t, r', _, kept, rest, _) ↦
        ap (λ c. c.server.tasks) rest ∙ collect_resets-keeps values js r' ∙ kept
  ]

  -- The keys have been dealt with, and no others.
  abbrev pub IsDone : List TxKey → Retry → Retry → Type 0
  IsDone ks before after =
      (k : TxKey)
      → after.server.tasks k
        ≡ (if is_in k ks then retried now (before.server.tasks k) else before.server.tasks k)

  pub reset_batch-IsDone :
      (ks : List TxKey) (r : Retry) → IsDone ks r (reset_batch now job always always updated ks r)
  unfolding reset_batch
  reset_batch-IsDone ks r k =
      ap (λ tasks. set_all (collected r.server.tasks ks r).0 tasks k)
        (collect_resets-keeps r.server.tasks ks r)
      ∙ set_all-collect_resets r.server.tasks ks r k false r.server.tasks refl

  is_in-append : (k : TxKey) (xs ys : List TxKey) → is_in k (xs ++ ys) ≡ (is_in k xs || is_in k ys)
  is_in-append k [] ys = refl
  is_in-append k (x ∷ xs) ys =
      ap (λ b. same_key k x || b) (is_in-append k xs ys)
      ∙ or_assoc (same_key k x) (is_in k xs) (is_in k ys)

  pub IsDone-append :
      (xs ys : List TxKey) (r s t : Retry) → IsDone xs r s → IsDone ys s t → IsDone (xs ++ ys) r t
  IsDone-append xs ys r s t first second k =
      second k
      ∙ retried-if now (is_in k xs) (is_in k ys) (r.server.tasks k) (s.server.tasks k) (first k)
      ∙ ap (λ b. if b then retried now (r.server.tasks k) else r.server.tasks k)
          (sym (is_in-append k xs ys))
