-- ===== src/Transfer/Parts.antt =====
-- How a file is cut into the parts of a multipart upload: `calculatePartSize` and the loop of
-- `transferFile` in backend/worker_transfer/transfer.go, and `calculatePartSize` and the count of
-- parts of `processObject` in r2-worker/r2s3.go. A size is not negative; `min_part_size` is the
-- setting `minPartSize`, which is positive.
use native.Mathlib.Nat.{div-eq_of_lt-le, div-lt_iff_lt-mul, lt-mul-div-succ, mul-div-le}
use native.Mathlib.Numerals.{add-one}
use tmp_cf_ytb_admin.Base.{
  ℕ, zero, suc, ◌+◌, ◌-◌, ◌*◌, ◌/◌, ◌%◌, ◌^◌, ◌≤◌, ◌<◌, ◌≡◌, ◌≢◌, refl, ap, ◌∙◌, List, [], ◌∷◌,
  arith, ltb, leb, if◌then◌else◌, length, Bool-cases, inl, inr, subst, ◌⊎◌, if_true, if_false,
  lt→ltb, ltb→lt,
}

unfoldable pub calculate_part_size : ℕ → ℕ → ℕ
calculate_part_size min_part_size size =
    if ltb (size / 10000) min_part_size then min_part_size else size / 10000

unfoldable pub num_parts : ℕ → ℕ → ℕ
num_parts size part_size = (size - 1) / part_size + 1

-- A part of the upload: its number and its first and last byte.
pub record Part : Type 0 where
  pub number : ℕ
  pub start : ℕ
  pub last : ℕ

unfoldable pub part_at : ℕ → ℕ → ℕ → Part
part_at size part_size i =
    let start = i * part_size in
    let last = start + part_size - 1 in
    record { number = i + 1; start = start; last = if leb size last then size - 1 else last }

-- The loop over the parts; `rounds` is how many are left.
unfoldable pub parts_from : ℕ → ℕ → ℕ → ℕ → List Part
parts_from size part_size zero i = []
parts_from size part_size (suc rounds) i =
    part_at size part_size i ∷ parts_from size part_size rounds (i + 1)

unfoldable pub plan_parts : ℕ → ℕ → List Part
plan_parts min_part_size size =
    let part_size = calculate_part_size min_part_size size in
    parts_from size part_size (num_parts size part_size) 0

abbrev pub default_part_size : ℕ
default_part_size = 16 * 2 ^ 20

-- r2s3.go: rounded up to whole megabytes.
unfoldable pub calculate_aligned_part_size : ℕ → ℕ
calculate_aligned_part_size size =
    if ltb (default_part_size * 10000) size
    then ((size / 10000 - 1) / 2 ^ 20 + 1) * 2 ^ 20
    else default_part_size

-- The parts are numbered from `n`, none is empty, and together they are the bytes from `lo` to
-- `hi - 1`, each byte once and in order.
abbrev pub Tiles : ℕ → ℕ → ℕ → List Part → Type 0
Tiles n lo hi [] = lo ≡ hi
Tiles n lo hi (p ∷ ps) =
    (p.number ≡ n) × (p.start ≡ lo) × (p.start ≤ p.last) × Tiles (n + 1) (p.last + 1) hi ps

part_at-inner :
    (size part_size i : ℕ)
    → 0 < part_size
    → (i + 1) * part_size ≤ size - 1
    → part_at size part_size i
      ≡ record { number = i + 1; start = i * part_size; last = i * part_size + part_size - 1 }
unfolding part_at
part_at-inner size part_size i pos' inner = ground arith

part_at-last :
    (size part_size i : ℕ)
    → 0 < part_size
    → size ≤ (i + 1) * part_size
    → 0 < size
    → part_at size part_size i ≡ record { number = i + 1; start = i * part_size; last = size - 1 }
unfolding part_at
part_at-last size part_size i pos' outer some' = ground arith

parts_from-Tiles :
    (size part_size rounds i : ℕ)
    → 0 < part_size
    → (i + rounds) * part_size < size
    → size ≤ (i + rounds + 1) * part_size
    → Tiles (i + 1) (i * part_size) size (parts_from size part_size (suc rounds) i)
unfolding parts_from
parts_from-Tiles size part_size zero i pos' lo hi =
    rw (part_at-last size part_size i pos' (omega arith) (omega arith))
      (refl, refl, omega arith, omega arith)
parts_from-Tiles size part_size (suc rounds) i pos' lo hi =
    rw (part_at-inner size part_size i pos' (omega arith)) (
      refl,
      refl,
      omega arith,
      subst (λ n. Tiles (i + 1 + 1) n size (parts_from size part_size (suc rounds) (i + 1)))
          (next pos')
          (parts_from-Tiles size part_size rounds (i + 1) pos' (omega arith) (omega arith)),
    )
  where
    next : 0 < part_size → (i + 1) * part_size ≡ i * part_size + part_size - 1 + 1
    next h = omega arith

calculate_part_size-pos :
    (min_part_size size : ℕ) → 0 < min_part_size → 0 < calculate_part_size min_part_size size
unfolding calculate_part_size
calculate_part_size-pos min_part_size size h = ground arith

-- The parts of a file that is not empty are the file, each byte once, in order, numbered from 1.
pub plan_parts-Tiles :
    (min_part_size size : ℕ)
    → 0 < min_part_size
    → 0 < size
    → Tiles 1 0 size (plan_parts min_part_size size)
unfolding plan_parts num_parts
plan_parts-Tiles min_part_size size hm hs = rw (add-one ((size - 1) / p)) (
    subst (λ n. Tiles 1 n size (parts_from size p (suc ((size - 1) / p)) 0)) (none_yet p)
      (parts_from-Tiles size p ((size - 1) / p) 0 (calculate_part_size-pos min_part_size size hm)
        (omega (arith, mul-div-le (size - 1) p))
        (omega
          (arith, lt-mul-div-succ (size - 1) (calculate_part_size-pos min_part_size size hm)))))
  where
    p : ℕ
    p = calculate_part_size min_part_size size

    none_yet : (n : ℕ) → 0 * n ≡ 0
    none_yet n = omega arith

length-parts_from :
    (size part_size rounds i : ℕ) → length (parts_from size part_size rounds i) ≡ rounds
unfolding parts_from
length-parts_from size part_size zero i = refl
length-parts_from size part_size (suc rounds) i =
    ap suc (length-parts_from size part_size rounds (i + 1))

length-plan_parts :
    (min_part_size size : ℕ)
    → length (plan_parts min_part_size size)
      ≡ num_parts size (calculate_part_size min_part_size size)
unfolding plan_parts
length-plan_parts min_part_size size =
    length-parts_from size (calculate_part_size min_part_size size) _ 0

-- A count of parts from bounds on the size.
num_parts-le :
    (size part_size n : ℕ)
    → 0 < part_size
    → 0 < size
    → size ≤ n * part_size
    → num_parts size part_size ≤ n
unfolding num_parts
num_parts-le size part_size n hp hs h =
    omega (arith, (div-lt_iff_lt-mul {x = size - 1} {y = n} hp).1 (omega arith))

num_parts-eq :
    (size part_size n : ℕ)
    → n * part_size < size
    → size ≤ (n + 1) * part_size
    → num_parts size part_size ≡ n + 1
unfolding num_parts
num_parts-eq size part_size n lo hi =
    ap (λ k. k + 1) (div-eq_of_lt-le {k = n} part_size {m = size - 1} (omega arith) (omega arith))

calculate_part_size_le :
    (min_part_size size : ℕ)
    → 10000 ≤ min_part_size
    → size ≤ 10001 * calculate_part_size min_part_size size
unfolding calculate_part_size
calculate_part_size_le min_part_size size h = ground arith

-- There is at most one part more than the 10000 that the store allows.
pub length-plan_parts_le :
    (min_part_size size : ℕ)
    → 10000 ≤ min_part_size
    → 0 < size
    → length (plan_parts min_part_size size) ≤ 10001
length-plan_parts_le min_part_size size hm hs = rw (length-plan_parts min_part_size size) (
    num_parts-le size (calculate_part_size min_part_size size) 10001
      (calculate_part_size-pos min_part_size size (omega arith)) hs
      (calculate_part_size_le min_part_size size hm))

-- Every file so large that its size decides the part size, and whose size is not a multiple of
-- 10000, is cut into 10001 parts.
pub length-plan_parts_over :
    (min_part_size size : ℕ)
    → 10000 ≤ min_part_size
    → min_part_size ≤ size / 10000
    → size % 10000 ≢ 0
    → length (plan_parts min_part_size size) ≡ 10001
length-plan_parts_over min_part_size size hm large uneven =
    rw (length-plan_parts min_part_size size, chosen)
      (num_parts-eq size (size / 10000) 10000 (omega arith) (omega arith))
  where
    chosen : calculate_part_size min_part_size size ≡ size / 10000
    chosen = unfold calculate_part_size in ground arith

aligned_pos : (size : ℕ) → 0 < calculate_aligned_part_size size
unfolding calculate_aligned_part_size
aligned_pos size = ground arith

-- The part size of r2s3.go is right but for one case: at most 10000 parts, unless the size decides
-- the part size, its 10000th is a whole number of megabytes, and it is not a multiple of 10000.
pub num_parts-aligned_le :
    (size : ℕ)
    → 0 < size
    → (size ≤ default_part_size * 10000) ⊎ (size / 10000 % 2 ^ 20 ≢ 0) ⊎ (size % 10000 ≡ 0)
    → num_parts size (calculate_aligned_part_size size) ≤ 10000
unfolding calculate_aligned_part_size
num_parts-aligned_le size hs h =
    num_parts-le size (calculate_aligned_part_size size) 10000 (aligned_pos size) hs
      (elim (Bool-cases (ltb (default_part_size * 10000) size)) [
        | inl large ↦
            rw (if_true (((size / 10000 - 1) / 2 ^ 20 + 1) * 2 ^ 20) default_part_size large)
              (elim h [
                | inl small ↦ absurd (omega (arith, ltb→lt _ _ large))
                | inr (inl uneven) ↦ omega arith
                | inr (inr whole) ↦ omega arith
              ])
        | inr small ↦
            rw (if_false (((size / 10000 - 1) / 2 ^ 20 + 1) * 2 ^ 20) default_part_size small)
              (ground arith)
      ])

-- With the part size of r2s3.go, a size above 10000 default parts whose 10000th is a whole number
-- of megabytes, and which is not a multiple of 10000, gives 10001 parts.
pub num_parts-aligned_over :
    (size : ℕ)
    → default_part_size * 10000 < size
    → size / 10000 % 2 ^ 20 ≡ 0
    → size % 10000 ≢ 0
    → num_parts size (calculate_aligned_part_size size) ≡ 10001
num_parts-aligned_over size large whole uneven =
    rw aligned (num_parts-eq size (size / 10000) 10000 (omega arith) (omega arith))
  where
    aligned : calculate_aligned_part_size size ≡ size / 10000
    aligned = unfold calculate_aligned_part_size in (if_true _ _ (lt→ltb _ _ large) ∙ omega arith)
