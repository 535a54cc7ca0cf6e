-- ===== src/Stats/Census.antt =====
-- What the buffer holds after any number of status changes.
use tmp_cf_ytb_admin.Base.{
  ℕ, zero, suc, ◌+◌, ◌≡◌, refl, ap, String, str_eq, eq_iff, Bool, true, false, ◌&&◌, Option, none,
  some, List, [], ◌∷◌, arith, ℤ, pos, negsuc, pos_part, neg_part, ◌+ℤ◌, int_laws, ◌==◌, ==_iff,
  if◌then◌else◌, get-put, get_elem?, modify, count, Bool-cases, Option-cases, inl, inr,
}
use tmp_cf_ytb_admin.Stats.{
  Bucket, pending, running, completed, failed, get_bucket, same_bucket, JobDelta, zero_delta,
  add_to, StatsBuffer, delta_of, ensure_entry, move, track_status_change, track_tx_status_change,
}

-- The counter of a bucket.
abbrev pub counter : Bucket → JobDelta → ℤ
counter pending d = d.pending
counter running d = d.running
counter completed d = d.success
counter failed d = d.failed

abbrev pub one_if : Bool → ℕ
one_if true = 1
one_if false = 0

-- 1 if the status is in the bucket, and else 0.
abbrev pub in_bucket : Bucket → String → ℕ
in_bucket b s = one_if (same_bucket b (get_bucket s))

delta_of-ensure : (m : StatsBuffer) (job j : ℕ) → delta_of (ensure_entry job m) j ≡ delta_of m j
unfolding ensure_entry
delta_of-ensure m job j = ground (arith, get-put job j zero_delta m)

counter-add_to :
    (b c : Bucket) (n : ℤ) (d : JobDelta)
    → counter b (add_to c n d) ≡ (if same_bucket b c then counter b d +ℤ n else counter b d)
unfolding add_to
counter-add_to pending pending n d = refl
counter-add_to _ _ n d = ground arith

balance :
    (x : ℤ) (p q : Bool)
    → (if q then (if p then x +ℤ negsuc 0 else x) +ℤ pos 1 else (if p then x +ℤ negsuc 0 else x))
        +ℤ pos (one_if p)
      ≡ x +ℤ pos (one_if q)
balance x true true = omega int_laws
balance x true false = omega int_laws
balance x false true = omega int_laws
balance x false false = refl

counter-move :
    (old new b : Bucket) (d : JobDelta)
    → counter b (move old new d) +ℤ pos (one_if (same_bucket b old))
      ≡ counter b d +ℤ pos (one_if (same_bucket b new))
unfolding move
counter-move old new b d =
    rw (counter-add_to b new (pos 1) (add_to old (negsuc 0) d), counter-add_to b old (negsuc 0) d)
      (balance (counter b d) (same_bucket b old) (same_bucket b new))

same_bucket-eq : (b c : Bucket) → same_bucket b c ≡ true → b ≡ c
same_bucket-eq pending pending h = refl
same_bucket-eq running running h = refl
same_bucket-eq completed completed h = refl
same_bucket-eq failed failed h = refl
same_bucket-eq _ _ h = cc

-- The two copies of the function keep one buffer.
pub track-track_tx :
    (m : StatsBuffer) (job : ℕ) (old new : String)
    → (track_status_change m job old new).0 ≡ track_tx_status_change m job old new
unfolding track_status_change track_tx_status_change
track-track_tx m job old new = ground arith

delta_of-track :
    (m : StatsBuffer) (job : ℕ) (old new : String)
    → delta_of (track_tx_status_change m job old new) job ≡ (
        if str_eq old new
        then delta_of m job
        else if same_bucket (get_bucket old) (get_bucket new)
        then delta_of m job
        else move (get_bucket old) (get_bucket new) (delta_of m job))
unfolding track_tx_status_change
delta_of-track m job old new = ground (
  arith,
  delta_of-ensure m job job,
  get-put job job (move (get_bucket old) (get_bucket new) (delta_of (ensure_entry job m) job))
      (ensure_entry job m),
)

-- A tracked change moves one task between the buckets of its job and leaves other jobs alone.
pub counter-track :
    (m : StatsBuffer) (job : ℕ) (old new : String) (b : Bucket)
    → counter b (delta_of (track_tx_status_change m job old new) job) +ℤ pos (in_bucket b old)
      ≡ counter b (delta_of m job) +ℤ pos (in_bucket b new)
counter-track m job old new b = elim (Bool-cases (str_eq old new)) [
  | inl same ↦
      rw (delta_of-track m job old new, same)
        (ap (λ s. counter b (delta_of m job) +ℤ pos (in_bucket b s)) ((eq_iff old new).0 same))
  | inr differ ↦ elim (Bool-cases (same_bucket (get_bucket old) (get_bucket new))) [
    | inl one ↦
        rw (delta_of-track m job old new, differ, one)
          (ap (λ c. counter b (delta_of m job) +ℤ pos (one_if (same_bucket b c)))
            (same_bucket-eq _ _ one))
    | inr two ↦
        rw (delta_of-track m job old new, differ, two)
          (counter-move (get_bucket old) (get_bucket new) b (delta_of m job))
  ]
]

pub delta_of-track_ne :
    (m : StatsBuffer) (job j : ℕ) (old new : String)
    → (job == j) ≡ false
    → delta_of (track_tx_status_change m job old new) j ≡ delta_of m j
unfolding track_tx_status_change
delta_of-track_ne m job j old new h = ground (
  arith,
  delta_of-ensure m job j,
  get-put job j (move (get_bucket old) (get_bucket new) (delta_of (ensure_entry job m) job))
      (ensure_entry job m),
)

-- The tasks as Redis keeps them, of all jobs, and the buffer beside them.
pub record Task : Type 0 where
  pub job : ℕ
  pub status : String

pub record World : Type 0 where
  pub tasks : List Task
  pub buffer : StatsBuffer

-- How many tasks of a job are in a bucket.
abbrev pub census : Bucket → ℕ → List Task → ℕ
census b job = count (λ t. t.job == job && same_bucket b (get_bucket t.status))

abbrev write_status : World → ℕ → String → Option Task → World
write_status w i new none = w
write_status w i new (some t) = record {
  tasks = modify w.tasks i (λ t. record t { status = new });
  buffer = track_tx_status_change w.buffer t.job t.status new;
}

-- A handler writes a new status for task `i` and tracks the change from the one it read.
unfoldable pub change : World → ℕ × String → World
change w (i, new) = write_status w i new (get_elem? w.tasks i)

unfoldable pub changes : World → List (ℕ × String) → World
changes w [] = w
changes w (c ∷ cs) = changes (change w c) cs

ends :
    (was is : Bool) (n : ℕ)
    → (if is then suc n else n) + one_if was ≡ (if was then suc n else n) + one_if is
ends was is n = ground arith

module _ {ℓ} {A : Type ℓ} where
  some-injective' : {a b : A} → some a ≡ some b → a ≡ b
  some-injective' h = cc

  count-modify :
      (p : A → Bool) (xs : List A) (i : ℕ) (f : A → A) {a : A}
      → get_elem? xs i ≡ some a
      → count p (modify xs i f) + one_if (p a) ≡ count p xs + one_if (p (f a))
  count-modify p [] i f h = cc
  count-modify p (x ∷ xs) zero f h = rw (← some-injective' h) (ends (p x) (p (f x)) (count p xs))
  count-modify p (x ∷ xs) (suc i) f h = ground (arith, count-modify p xs i f h)

-- Balances of two steps add up.
chain :
    (x y z : ℤ) (p q r : ℕ)
    → y +ℤ pos p ≡ x +ℤ pos q
    → z +ℤ pos q ≡ y +ℤ pos r
    → z +ℤ pos p ≡ x +ℤ pos r
chain x y z p q r h k = omega (int_laws, ap pos_part h, ap neg_part h, ap pos_part k, ap neg_part k)

-- A balance of single tasks carries over to their numbers.
scale :
    (x y : ℤ) (o n before after : ℕ)
    → y +ℤ pos o ≡ x +ℤ pos n
    → after + o ≡ before + n
    → y +ℤ pos before ≡ x +ℤ pos after
scale x y o n before after h k = omega (int_laws, ap pos_part h, ap neg_part h)

-- One change keeps the sum of what is buffered and what was there before.
counter-change :
    (w : World) (c : ℕ × String) (job : ℕ) (b : Bucket)
    → counter b (delta_of (change w c).buffer job) +ℤ pos (census b job w.tasks)
      ≡ counter b (delta_of w.buffer job) +ℤ pos (census b job (change w c).tasks)
unfolding change
counter-change w (i, new) job b = elim (Option-cases (get_elem? w.tasks i)) [
  | inl e ↦ rw (e, change)
  | inr (t, e) ↦
      rw (e, change)
        (elim (Bool-cases (t.job == job)) [
          | inl mine ↦
              let same : t.job ≡ job = (==_iff t.job job).0 mine in
              let grown =
                count-modify (λ u. u.job == job && same_bucket b (get_bucket u.status)) w.tasks i
                  (λ u. record u { status = new }) e in
              scale (counter b (delta_of w.buffer job)) _ (in_bucket b t.status) (in_bucket b new) _
                _ (rw (← same) (counter-track w.buffer t.job t.status new b)) (rw mine at grown)
          | inr other ↦
              let kept =
                count-modify (λ u. u.job == job && same_bucket b (get_bucket u.status)) w.tasks i
                  (λ u. record u { status = new }) e in
              let level : census b job (modify w.tasks i (λ u. record u { status = new }))
                  ≡ census b job w.tasks =
                omega (arith, rw other at kept) in
              rw (delta_of-track_ne w.buffer t.job job t.status new other, level)
        ])
]

-- After any changes of any tasks, the buffered counts of a job are by how much the number of its
-- tasks in each bucket has grown.
pub counter-changes :
    (w : World) (cs : List (ℕ × String)) (job : ℕ) (b : Bucket)
    → counter b (delta_of (changes w cs).buffer job) +ℤ pos (census b job w.tasks)
      ≡ counter b (delta_of w.buffer job) +ℤ pos (census b job (changes w cs).tasks)
unfolding changes
counter-changes w [] job b = refl
counter-changes w (c ∷ cs) job b =
    chain _ _ _ _ _ _ (counter-change w c job b) (counter-changes (change w c) cs job b)
