-- ===== src/Stats/Flush.antt =====
-- What a flush does to the table, alone and after any number of tracked changes.
use mathlib.Core.Option
use tmp_cf_ytb_admin.Base.{
  ℕ, ◌+◌, ◌<◌, ◌≡◌, refl, ap, ◌∙◌, ◌≢◌, String, str_eq, eq_iff, Bool, true, false, Option, none,
  some, List, [], ◌∷◌, arith, ℤ, pos, pos_part, parts_disjoint, neg_part, is_pos, ◌+ℤ◌, int_laws,
  ◌==◌, ==_iff, ltb→lt, if◌then◌else◌, get, put, get-put, IsUnique, put-IsUnique, get_elem?,
  Bool-cases, Option-cases, inl, inr,
}
use tmp_cf_ytb_admin.Stats.{
  Bucket, move, get_bucket, pending, running, completed, failed, JobDelta, zero_delta, StatsBuffer,
  or_zero, delta_of, ensure_entry, track_tx_status_change, JobRow, Table, greatest_zero, update_row,
  update_tx_row, update_where, apply_all, flush_stats, flush_tx_stats,
}
use tmp_cf_ytb_admin.Stats.Census.{Task, World, census, change, changes, counter, counter-changes}

track-IsUnique :
    (m : StatsBuffer) (job : ℕ) (old new : String)
    → IsUnique m
    → IsUnique (track_tx_status_change m job old new)
unfolding track_tx_status_change ensure_entry
track-IsUnique m job old new u = elim (Option-cases (get job m)) [
  | inl e ↦ ground (
    arith,
    e,
    put-IsUnique job zero_delta m u,
    put-IsUnique job (move (get_bucket old) (get_bucket new) (delta_of (put job zero_delta m) job))
        (put job zero_delta m) (put-IsUnique job zero_delta m u),
  )
  | inr (d, e) ↦
      ground
        (arith, e, put-IsUnique job (move (get_bucket old) (get_bucket new) (delta_of m job)) m u)
]

changes-IsUnique :
    (w : World) (cs : List (ℕ × String)) → IsUnique w.buffer → IsUnique (changes w cs).buffer
unfolding changes change
changes-IsUnique w [] u = u
changes-IsUnique w ((i, new) ∷ cs) u = elim (Option-cases (get_elem? w.tasks i)) [
  | inl e ↦ changes-IsUnique (change w (i, new)) cs (rw (e, change) u)
  | inr (t, e) ↦
      changes-IsUnique (change w (i, new)) cs
        (rw (e, change) (track-IsUnique w.buffer t.job t.status new u))
]

-- What the flush makes of a row, given what was buffered for its job.
abbrev touched : (JobDelta → JobRow → JobRow) → Bool → Option JobDelta → JobRow → JobRow
touched update done none r = r
touched update done (some d) r = if done then update d r else r

get-update_where :
    (f : JobRow → JobRow) (job j : ℕ) (t : Table)
    → get j (update_where f job t) ≡ (if job == j then Option.map f (get j t) else get j t)
unfolding update_where
get-update_where f job j t = elim (Option-cases (get job t)) [
  | inl e ↦ ground (arith, e)
  | inr (r, e) ↦ rw (e, update_where) (ground (arith, get-put job j (f r) t))
]

-- One round of the loop, as seen at a job.
get-round :
    (update : JobDelta → JobRow → JobRow) (done : Bool) (d : JobDelta) (job j : ℕ) (t : Table)
    → get j (if done then update_where (update d) job t else t)
      ≡ (if job == j then Option.map (touched update done (some d)) (get j t) else get j t)
get-round update true d job j t = get-update_where (update d) job j t
get-round update false d job j t = elim (Option-cases (get j t)) [
  | inl e ↦ ground (arith, e)
  | inr (r, e) ↦ ground (arith, e)
]

-- The flush changes each row once, by what was buffered for its job, whatever the order.
pub get-apply_all :
    (update : JobDelta → JobRow → JobRow) (executed : ℕ → Bool) (m : StatsBuffer) (t : Table)
    (j : ℕ)
    → IsUnique m
    → get j (apply_all update executed m t)
      ≡ Option.map (touched update (executed j) (get j m)) (get j t)
unfolding apply_all get
get-apply_all update executed [] t j u = elim (Option-cases (get j t)) [
  | inl e ↦ rw e
  | inr (r, e) ↦ rw e
]
get-apply_all update executed ((job, d) ∷ m) t j u =
    get-apply_all update executed m (if executed job then update_where (update d) job t else t) j
      u.1
    ∙ rw (get-round update (executed job) d job j t) (elim (Bool-cases (job == j)) [
      | inl same ↦ rw same (single ((==_iff job j).0 same))
      | inr other ↦ rw other
    ])
  where
    single :
        job ≡ j
        → Option.map
            (touched update (executed j) (get j m))
            (Option.map (touched update (executed job) (some d)) (get j t))
          ≡ Option.map (touched update (executed j) (some d)) (get j t)
    single e = elim (Option-cases (get j t)) [
      | inl missing ↦ rw missing
      | inr (r, found) ↦ let absent : get j m ≡ none = rw e at (u.0) in rw (found, absent, e)
    ]

-- A counter of a row.
abbrev pub row_counter : Bucket → JobRow → ℤ
row_counter pending r = r.pending_count
row_counter running r = r.running_count
row_counter completed r = r.success_count
row_counter failed r = r.failed_count

-- The row counts the tasks of the job, bucket by bucket.
abbrev pub IsExact : JobRow → ℕ → List Task → Type 0
IsExact r job tasks = (b : Bucket) → row_counter b r ≡ pos (census b job tasks)

update_row-counter :
    (b : Bucket) (d : JobDelta) (r : JobRow)
    → row_counter b (update_row d r) ≡ greatest_zero (row_counter b r +ℤ counter b d)
unfolding update_row
update_row-counter pending d r = refl
update_row-counter _ d r = refl

update_tx_row-counter :
    (b : Bucket) (d : JobDelta) (r : JobRow)
    → row_counter b (update_tx_row d r) ≡ greatest_zero (row_counter b r +ℤ counter b d)
unfolding update_tx_row
update_tx_row-counter pending d r = refl
update_tx_row-counter _ d r = refl

-- An exact counter plus the buffered change is the new number, and GREATEST changes nothing.
settle_count :
    (x : ℤ) (before after : ℕ)
    → x +ℤ pos before ≡ pos 0 +ℤ pos after
    → greatest_zero (pos before +ℤ x) ≡ pos after
settle_count x before after h =
    omega (int_laws, ap pos_part h, ap neg_part h, parts_disjoint (pos before +ℤ x))

counter_zero : (b : Bucket) → counter b zero_delta ≡ pos 0
counter_zero pending = refl
counter_zero _ = refl

-- From an empty buffer, the balance of the changes.
from_empty :
    (w : World) (cs : List (ℕ × String)) (job : ℕ) (b : Bucket)
    → w.buffer ≡ []
    → counter b (delta_of (changes w cs).buffer job) +ℤ pos (census b job w.tasks)
      ≡ pos 0 +ℤ pos (census b job (changes w cs).tasks)
from_empty w cs job b empty =
    counter-changes w cs job b ∙ ap (λ x. x +ℤ pos (census b job (changes w cs).tasks)) start
  where
    start : counter b (delta_of w.buffer job) ≡ pos 0
    start = rw empty (unfold get in counter_zero b)

unmoved : (before after : ℕ) → pos 0 +ℤ pos before ≡ pos 0 +ℤ pos after → pos before ≡ pos after
unmoved before after h = omega (int_laws, ap pos_part h, ap neg_part h)

module _ (update : JobDelta → JobRow → JobRow)
    (adds : (b : Bucket) (d : JobDelta) (r : JobRow)
      → row_counter b (update d r) ≡ greatest_zero (row_counter b r +ℤ counter b d)) where
  touched-IsExact :
      (o : Option JobDelta) (b : Bucket) (r : JobRow) (before after : ℕ)
      → row_counter b r ≡ pos before
      → counter b (or_zero o) +ℤ pos before ≡ pos 0 +ℤ pos after
      → row_counter b (touched update true o r) ≡ pos after
  touched-IsExact none b r before after exact h =
      exact ∙ unmoved before after (rw (counter_zero b) at h)
  touched-IsExact (some d) b r before after exact h =
      adds b d r ∙ rw exact (settle_count (counter b d) before after h)

  apply_all-IsExact :
      (executed : ℕ → Bool) (w : World) (cs : List (ℕ × String)) (t : Table) (job : ℕ) (r : JobRow)
      → w.buffer ≡ []
      → get job t ≡ some r
      → executed job ≡ true
      → IsExact r job w.tasks
      → (r' : JobRow) × (get job (apply_all update executed (changes w cs).buffer t) ≡ some r')
        × (r' ≡ touched update true (get job (changes w cs).buffer) r)
        × IsExact r' job (changes w cs).tasks
  apply_all-IsExact executed w cs t job r empty found done exact = (
    touched update true (get job (changes w cs).buffer) r,
    get-apply_all update executed (changes w cs).buffer t job (changes-IsUnique w cs (rw empty tt))
        ∙ rw (done, found),
    refl,
    λ b.
        touched-IsExact (get job (changes w cs).buffer) b r _ _ (exact b)
          (from_empty w cs job b empty),
  )

-- When the buffer is empty, and the counts of a job's row are exact, they are exact again after
-- any changes of tasks and a flush in which the UPDATE of that row succeeds: for the video jobs
-- (`flushStats`) and for the transfer jobs (`flushTxStats`).
pub flush-IsExact :
    (executed : ℕ → Bool) (w : World) (cs : List (ℕ × String)) (t : Table) (job : ℕ) (r : JobRow)
    → w.buffer ≡ []
    → get job t ≡ some r
    → executed job ≡ true
    → IsExact r job w.tasks
    → ((r' : JobRow) × (get job (flush_stats executed (changes w cs).buffer t).1 ≡ some r')
        × IsExact r' job (changes w cs).tasks)
      × ((r' : JobRow) × (get job (flush_tx_stats executed (changes w cs).buffer t).1 ≡ some r')
          × IsExact r' job (changes w cs).tasks)
unfolding flush_stats flush_tx_stats
flush-IsExact executed w cs t job r empty found done exact =
    let (r₁, e₁, _, x₁) =
      apply_all-IsExact update_row update_row-counter executed w cs t job r empty found done
        exact in
    let (r₂, e₂, _, x₂) =
      apply_all-IsExact update_tx_row update_tx_row-counter executed w cs t job r empty found done
        exact in
    ((r₁, e₁, x₁), (r₂, e₂, x₂))

pending_running : str_eq "PENDING" "RUNNING" ≡ false
pending_running = refl

running_completed : str_eq "RUNNING" "COMPLETED" ≡ false
running_completed = refl

touched-pending :
    (o : Option JobDelta) (r : JobRow)
    → r.status ≡ "PENDING"
    → (touched update_row true o r).running_count ≡ pos 0
    → (touched update_row true o r).status ≡ "PENDING"
unfolding update_row
touched-pending none r waiting idle = waiting
touched-pending (some d) r waiting idle = ground (
  arith,
  ap is_pos idle,
  eq_iff r.status "PENDING",
  eq_iff r.status "RUNNING",
  eq_iff "PENDING" "RUNNING",
  pending_running,
)

sum_pos :
    (s f x y : ℤ) → is_pos (s +ℤ f +ℤ x +ℤ y) ≡ true → 0 < pos_part (s +ℤ x) + pos_part (f +ℤ y)
sum_pos s f x y h =
    omega (int_laws, ltb→lt 0 (pos_part (s +ℤ f +ℤ x +ℤ y)) h, parts_disjoint (s +ℤ f +ℤ x +ℤ y))

touched-completed :
    (o : Option JobDelta) (r : JobRow)
    → r.status ≢ "COMPLETED"
    → (touched update_row true o r).status ≡ "COMPLETED"
    → let r' = touched update_row true o r in
      (pos_part r'.pending_count ≡ 0)
      × (pos_part r'.running_count ≡ 0)
      × (0 < pos_part r'.success_count + pos_part r'.failed_count)
unfolding update_row
touched-completed none r unfinished over = absurd (unfinished over)
touched-completed (some d) r unfinished over = ground (
  arith,
  eq_iff r.status "PENDING",
  eq_iff r.status "RUNNING",
  eq_iff "RUNNING" "COMPLETED",
  running_completed,
  sum_pos r.success_count r.failed_count d.success d.failed,
)

-- A job of videos that is still PENDING at a flush, with no task running then, stays PENDING,
-- though every one of its tasks may be done.
pub flush-stays_pending :
    (executed : ℕ → Bool) (w : World) (cs : List (ℕ × String)) (t : Table) (job : ℕ) (r : JobRow)
    → w.buffer ≡ []
    → get job t ≡ some r
    → executed job ≡ true
    → IsExact r job w.tasks
    → r.status ≡ "PENDING"
    → census running job (changes w cs).tasks ≡ 0
    → (r' : JobRow) × (get job (flush_stats executed (changes w cs).buffer t).1 ≡ some r')
      × (r'.status ≡ "PENDING")
unfolding flush_stats
flush-stays_pending executed w cs t job r empty found done exact waiting idle =
    let (r', e, made, x) =
      apply_all-IsExact update_row update_row-counter executed w cs t job r empty found done
        exact in
    (
      r',
      e,
      rw made (
          touched-pending (get job (changes w cs).buffer) r waiting
            (rw made at (x running) ∙ ap pos idle)),
    )

-- A flush completes a job of videos only when none of its tasks is pending or running and some
-- task is done.
pub flush-completed :
    (executed : ℕ → Bool) (w : World) (cs : List (ℕ × String)) (t : Table) (job : ℕ) (r r' : JobRow)
    → w.buffer ≡ []
    → get job t ≡ some r
    → executed job ≡ true
    → IsExact r job w.tasks
    → r.status ≢ "COMPLETED"
    → get job (flush_stats executed (changes w cs).buffer t).1 ≡ some r'
    → r'.status ≡ "COMPLETED"
    → (census pending job (changes w cs).tasks ≡ 0)
      × (census running job (changes w cs).tasks ≡ 0)
      × (0 < census completed job (changes w cs).tasks + census failed job (changes w cs).tasks)
unfolding flush_stats
flush-completed executed w cs t job r r' empty found done exact unfinished after over =
    let (r₁, e, made, x) =
      apply_all-IsExact update_row update_row-counter executed w cs t job r empty found done
        exact in
    let same : r' ≡ r₁ = cc (after, e) in
    let (p, q, z) =
      touched-completed (get job (changes w cs).buffer) r unfinished (rw (← made, ← same) over) in
    omega (
      arith,
      p,
      q,
      z,
      ap pos_part (rw made at (x pending)),
      ap pos_part (rw made at (x running)),
      ap pos_part (rw made at (x completed)),
      ap pos_part (rw made at (x failed)),
    )
