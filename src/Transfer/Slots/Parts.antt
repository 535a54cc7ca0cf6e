-- ===== src/Transfer/Slots/Parts.antt =====
-- The slots of the parts of an upload, under any interleaving of the threads that upload parts. A
-- thread is where it is between two steps, with the values that it has read; `effective` is
-- `effectivePartConcurrency`, which the controller may set at any time, and `parts` is
-- `activePartSlotCount`, to which all uploads add. Each upload has a semaphore of its own: `tokens`
-- is how many tokens it holds, of at most `capacity`. A thread belongs to an upload.
use tmp_cf_ytb_admin.Base.{
  ℕ, zero, suc, ◌+◌, ◌-◌, ◌≤◌, ◌<◌, ◌≡◌, Bool, true, false, some, List, [], ◌∷◌, arith, ◌==◌,
  if◌then◌else◌, get_elem?, modify, subst, count, ◌⊎◌,
}

-- Before a call; after the read of the limit; after the increment, with its result; holding a slot;
-- and after the token was given back, before the decrement.
pub data Thread : Type 0 where
  idle : Thread
  read : ℕ → Thread
  counted : ℕ → ℕ → Thread
  holding : Thread
  leaving : Thread

pub record World : Type 0 where
  pub effective : ℕ
  pub parts : ℕ
  pub tokens : ℕ → ℕ
  pub threads : List (ℕ × Thread)

abbrev pub set_thread : ℕ → ℕ × Thread → List (ℕ × Thread) → List (ℕ × Thread)
set_thread i t threads = modify threads i (λ _. t)

abbrev pub change : ℕ → (ℕ → ℕ) → (ℕ → ℕ) → ℕ → ℕ
change u f tokens j = if u == j then f (tokens j) else tokens j

-- The steps. A thread whose call fails is idle again.
pub data Step (capacity : ℕ) (w : World) : World → Type 0 where
  adjusts : (n : ℕ) → Step capacity w (record w { effective = n })
  reads :
      (i u : ℕ)
      → get_elem? w.threads i ≡ some (u, idle)
      → 0 < w.effective
      → Step capacity w (record w { threads = set_thread i (u, read w.effective) w.threads })
  counts :
      (i u effective : ℕ)
      → get_elem? w.threads i ≡ some (u, read effective)
      → Step capacity w (record w {
        parts = w.parts + 1;
        threads = set_thread i (u, counted (w.parts + 1) effective) w.threads;
      })
  refused :
      (i u active effective : ℕ)
      → get_elem? w.threads i ≡ some (u, counted active effective)
      → (effective < active) ⊎ (capacity ≤ w.tokens u)
      → Step capacity w
          (record w { parts = w.parts - 1; threads = set_thread i (u, idle) w.threads })
  takes :
      (i u active effective : ℕ)
      → get_elem? w.threads i ≡ some (u, counted active effective)
      → active ≤ effective
      → w.tokens u < capacity
      → Step capacity w (record w {
        tokens = change u (λ n. n + 1) w.tokens;
        threads = set_thread i (u, holding) w.threads;
      })
  returns :
      (i u : ℕ)
      → get_elem? w.threads i ≡ some (u, holding)
      → Step capacity w (record w {
        tokens = change u (λ n. n - 1) w.tokens;
        threads = set_thread i (u, leaving) w.threads;
      })
  leaves :
      (i u : ℕ)
      → get_elem? w.threads i ≡ some (u, leaving)
      → Step capacity w
          (record w { parts = w.parts - 1; threads = set_thread i (u, idle) w.threads })

pub data Reach (capacity : ℕ) (start : World) : World → Type 0 where
  start_at : Reach capacity start start
  later : {v w : World} → Reach capacity start v → Step capacity v w → Reach capacity start w

-- Which threads hold a token, and which are counted.
abbrev pub has_token : ℕ → ℕ × Thread → Bool
has_token upload (u, holding) = u == upload
has_token upload _ = false

abbrev pub is_counted : ℕ × Thread → Bool
is_counted (u, counted active effective) = true
is_counted (u, holding) = true
is_counted (u, leaving) = true
is_counted _ = false

-- The counter and the semaphore of an upload say what the threads hold, and the semaphore is not
-- overfull.
abbrev pub IsExact : ℕ → ℕ → World → Type 0
IsExact capacity upload w =
    (w.parts ≡ count is_counted w.threads)
    × (w.tokens upload ≡ count (has_token upload) w.threads)
    × (w.tokens upload ≤ capacity)

module _ {A : Type 0} where
  some_path : {a b : A} → some a ≡ some b → a ≡ b
  some_path e = cc

settle :
    (p q : Bool) (n : ℕ)
    → (if q then suc n else n) + (if p then 1 else 0)
      ≡ (if p then suc n else n) + (if q then 1 else 0)
settle p q n = ground arith

-- Setting a thread moves the count by what the old and the new state count for.
count-set :
    {A : Type 0} (p : A → Bool) (ts : List A) (i : ℕ) (new old : A)
    → get_elem? ts i ≡ some old
    → count p (modify ts i (λ _. new)) + (if p old then 1 else 0)
      ≡ count p ts + (if p new then 1 else 0)
count-set p [] i new old h = cc
count-set p (t ∷ ts) zero new old h =
    subst
      (λ o.
        (if p new then suc (count p ts) else count p ts) + (if p o then 1 else 0)
        ≡ (if p t then suc (count p ts) else count p ts) + (if p new then 1 else 0))
      (some_path h) (settle (p t) (p new) (count p ts))
count-set p (t ∷ ts) (suc i) new old h = ground (arith, count-set p ts i new old h)

-- Any step of any thread keeps the counts, of each upload.
Step-IsExact :
    {capacity : ℕ} {v w : World} (upload : ℕ)
    → Step capacity v w
    → IsExact capacity upload v
    → IsExact capacity upload w
Step-IsExact upload (adjusts n) h = h
Step-IsExact {v = v} upload (reads i u e some') (p, t, c) = (
  omega (arith, p, count-set is_counted v.threads i (u, read v.effective) _ e),
  omega (arith, t, count-set (has_token upload) v.threads i (u, read v.effective) _ e),
  c,
)
Step-IsExact {v = v} upload (counts i u eff e) (p, t, c) = (
  omega (arith, p, count-set is_counted v.threads i (u, counted (v.parts + 1) eff) _ e),
  omega (arith, t, count-set (has_token upload) v.threads i (u, counted (v.parts + 1) eff) _ e),
  c,
)
Step-IsExact {v = v} upload (refused i u a eff e why) (p, t, c) = (
  omega (arith, p, count-set is_counted v.threads i (u, idle) _ e),
  omega (arith, t, count-set (has_token upload) v.threads i (u, idle) _ e),
  c,
)
Step-IsExact {v = v} upload (takes i u a eff e le room) (p, t, c) = (
  omega (arith, p, count-set is_counted v.threads i (u, holding) _ e),
  ground (arith, t, count-set (has_token upload) v.threads i (u, holding) _ e),
  ground (arith, room, c),
)
Step-IsExact {v = v} upload (returns i u e) (p, t, c) = (
  omega (arith, p, count-set is_counted v.threads i (u, leaving) _ e),
  ground (arith, t, count-set (has_token upload) v.threads i (u, leaving) _ e),
  ground (arith, c),
)
Step-IsExact {v = v} upload (leaves i u e) (p, t, c) = (
  omega (arith, p, count-set is_counted v.threads i (u, idle) _ e),
  omega (arith, t, count-set (has_token upload) v.threads i (u, idle) _ e),
  c,
)

-- Under any interleaving, whatever limits the controller sets in between, the counter stays the
-- number of threads that have counted themselves, and the tokens of an upload stay the number of
-- its threads that hold one, at most the capacity of its semaphore.
pub Reach-IsExact :
    {capacity : ℕ} {v w : World} (upload : ℕ)
    → Reach capacity v w
    → IsExact capacity upload v
    → IsExact capacity upload w
Reach-IsExact upload start_at h = h
Reach-IsExact upload (later r st) h = Step-IsExact upload st (Reach-IsExact upload r h)
