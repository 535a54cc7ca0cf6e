-- ===== src/TransferTasks/Acquire/Counts.antt =====
-- No task is lost or doubled while tasks are taken out of the buffers.
use tmp_cf_ytb_admin.Base.{
  ℕ, zero, suc, ◌+◌, ◌-◌, ◌/◌, ◌≤◌, ◌<◌, ◌≡◌, ◌≢◌, refl, sym, ap, ◌∙◌, subst, String, Bool, true,
  false, Option, none, some, List, [], ◌∷◌, ◌++◌, arith, ltb, leb, ◌==◌, length, length-append,
  count, get, put, Bool-cases, Option-cases, inl, inr, if_true, if_false,
}
use tmp_cf_ytb_admin.Models.{TransferTask}
use tmp_cf_ytb_admin.TransferTasks.{Server}
use tmp_cf_ytb_admin.Buffer.{buffer_size, buffer_low_water}
use tmp_cf_ytb_admin.TransferTasks.Acquire.{
  Buffers, Desk, large_file_threshold_bytes, or_zero, sort_out, visit_channel, round, rounds, drain,
  drain_only, at_least_one, select_tasks, mark_transfer_tasks_running, hand_out,
}

-- How many tasks in all buffers pass a test.
abbrev pub total : (TransferTask → Bool) → Buffers → ℕ
total p [] = 0
total p ((job, ch) ∷ bs) = count p ch + total p bs

-- No buffer holds more than its places.
abbrev pub Fits : Buffers → Type 0
Fits [] = Unit
Fits ((job, ch) ∷ bs) = (length ch ≤ buffer_size) × Fits bs

count-append :
    {A : Type 0} (p : A → Bool) (xs ys : List A) → count p (xs ++ ys) ≡ count p xs + count p ys
count-append p [] ys = omega arith
count-append p (x ∷ xs) ys = ground (arith, count-append p xs ys)

module _ {A : Type 0} where
  some_path : {a b : A} → some a ≡ some b → a ≡ b
  some_path e = cc

  none≢some : {a : A} → ◌≢◌ {A = Option A} none (some a)
  none≢some e = cc

  again : (p : A → Bool) (t : A) (ch : List A) → count p (t ∷ ch) ≡ count p ch + count p (t ∷ [])
  again p t ch = ground arith

total-put-some :
    (p : TransferTask → Bool) (bs : Buffers) (job : ℕ) (ch old : List TransferTask)
    → get job bs ≡ some old
    → total p (put job ch bs) + count p old ≡ total p bs + count p ch
unfolding get put
total-put-some p [] job ch old e = cc
total-put-some p ((j, c) ∷ bs) job ch old e = elim (Bool-cases (j == job)) [
  | inl same ↦
      rw same
        (omega (arith, ap (count p) (some_path (sym (if_true (some c) (get job bs) same) ∙ e))))
  | inr other ↦ rw other (
      omega
        (arith, total-put-some p bs job ch old (sym (if_false (some c) (get job bs) other) ∙ e)))
]

total-put-none :
    (p : TransferTask → Bool) (bs : Buffers) (job : ℕ) (ch : List TransferTask)
    → get job bs ≡ none
    → total p (put job ch bs) ≡ total p bs + count p ch
unfolding get put
total-put-none p [] job ch e = omega arith
total-put-none p ((j, c) ∷ bs) job ch e = elim (Bool-cases (j == job)) [
  | inl same ↦ absurd (none≢some (sym e ∙ if_true (some c) (get job bs) same))
  | inr other ↦
      rw other
        (omega (arith, total-put-none p bs job ch (sym (if_false (some c) (get job bs) other) ∙ e)))
]

Fits-get :
    (bs : Buffers) (job : ℕ) (ch : List TransferTask)
    → Fits bs
    → get job bs ≡ some ch
    → length ch ≤ buffer_size
unfolding get
Fits-get [] job ch h e = absurd (none≢some e)
Fits-get ((j, c) ∷ bs) job ch h e = elim (Bool-cases (j == job)) [
  | inl same ↦
      subst (λ x. length x ≤ buffer_size) (some_path (sym (if_true (some c) (get job bs) same) ∙ e))
        h.0
  | inr other ↦ Fits-get bs job ch h.1 (sym (if_false (some c) (get job bs) other) ∙ e)
]

Fits-put :
    (bs : Buffers) (job : ℕ) (ch : List TransferTask)
    → Fits bs
    → length ch ≤ buffer_size
    → Fits (put job ch bs)
unfolding put
Fits-put [] job ch h le = (le, tt)
Fits-put ((j, c) ∷ bs) job ch h le = elim (Bool-cases (j == job)) [
  | inl same ↦ rw same (le, h.1)
  | inr other ↦ rw other (h.0, Fits-put bs job ch h.1 le)
]

-- The tasks taken and those left are the tasks that were there.
abbrev Keeps : (TransferTask → Bool) → Desk → List TransferTask → Desk → Type 0
Keeps p d ts d' = (count p ts + total p d'.buffers ≡ total p d.buffers) × Fits d'.buffers

abbrev as_list : Option TransferTask → List TransferTask
as_list none = []
as_list (some t) = t ∷ []

nothing_taken :
    (p : TransferTask → Bool) (o : Option TransferTask) (a b : ℕ)
    → o ≡ none
    → count p (as_list o) + a ≡ b
    → a ≡ b
nothing_taken p none a b e h = omega (arith, h)
nothing_taken p (some t) a b e h = absurd (none≢some (sym e))

one_taken :
    (p : TransferTask → Bool) (o : Option TransferTask) (t : TransferTask) (a b : ℕ)
    → o ≡ some t
    → count p (as_list o) + a ≡ b
    → count p (t ∷ []) + a ≡ b
one_taken p none t a b e h = absurd (none≢some e)
one_taken p (some u) t a b e h = subst (λ v. count p (v ∷ []) + a ≡ b) (some_path e) h

module _ (p : TransferTask → Bool) (max_large job : ℕ) where
  sort_out-Keeps :
      (t : TransferTask) (ch : List TransferTask) (d : Desk)
      → get job d.buffers ≡ some (t ∷ ch)
      → Fits d.buffers
      → Keeps p d (as_list (sort_out max_large job t ch d).0) (sort_out max_large job t ch d).1
  sort_out-Keeps t ch d e fits =
      let full = Fits-get d.buffers job (t ∷ ch) fits e in
      let taken = total-put-some p d.buffers job ch (t ∷ ch) e in
      elim (Bool-cases (ltb t.size large_file_threshold_bytes)) [
        | inl small ↦
            rw small (ground (arith, taken), Fits-put d.buffers job ch fits (omega (arith, full)))
        | inr big ↦ elim (Bool-cases (leb max_large (or_zero (get job d.large)))) [
          | inl many ↦
              rw (big, many)
                (let room : ltb (length ch) buffer_size ≡ true = ground (arith, full) in
                  rw room (
                    omega (
                      arith,
                      total-put-some p d.buffers job (ch ++ t ∷ []) (t ∷ ch) e,
                      count-append p ch (t ∷ []),
                      again p t ch,
                    ),
                    Fits-put d.buffers job (ch ++ t ∷ []) fits
                        (omega (arith, full, length-append ch (t ∷ []))),
                  ))
          | inr few ↦
              rw (big, few)
                (ground (arith, taken), Fits-put d.buffers job ch fits (omega (arith, full)))
        ]
      ]

  visit_channel-Keeps :
      (o : Option (List TransferTask)) (d : Desk)
      → get job d.buffers ≡ o
      → Fits d.buffers
      → Keeps p d (as_list (visit_channel max_large job o d).0) (visit_channel max_large job o d).1
  visit_channel-Keeps none d e fits = (
    omega (arith, total-put-none p d.buffers job [] e),
    Fits-put d.buffers job [] fits (omega arith),
  )
  visit_channel-Keeps (some []) d e fits = (omega arith, fits)
  visit_channel-Keeps (some (t ∷ ch)) d e fits =
      elim (Bool-cases (ltb (length (t ∷ ch)) buffer_low_water)) [
        | inl low ↦ rw low (sort_out-Keeps t ch (record d { refills = job ∷ d.refills }) e fits)
        | inr high ↦ rw high (sort_out-Keeps t ch d e fits)
      ]

-- The tasks that a loop takes are among those that were there, and no more than there is room for.
abbrev Takes : (TransferTask → Bool) → ℕ → Desk → List TransferTask × Desk → Type 0
Takes p room d r = Keeps p d r.0 r.1 × (length r.0 ≤ room)

module _ (p : TransferTask → Bool) (max_large : ℕ) where
  round-none :
      (room job : ℕ) (jobs : List ℕ) (d : Desk)
      → (visit_channel max_large job (get job d.buffers) d).0 ≡ none
      → round max_large (suc room) (job ∷ jobs) d
        ≡ round max_large (suc room) jobs (visit_channel max_large job (get job d.buffers) d).1
  unfolding round
  round-none room job jobs d e = rw (e, round)

  round-some :
      (room job : ℕ) (jobs : List ℕ) (d : Desk) (t : TransferTask)
      → (visit_channel max_large job (get job d.buffers) d).0 ≡ some t
      → round max_large (suc room) (job ∷ jobs) d ≡ (
          let rest =
            round max_large room jobs (visit_channel max_large job (get job d.buffers) d).1 in
          (t ∷ rest.0, rest.1))
  unfolding round
  round-some room job jobs d t e = rw (e, round)

  round-Takes :
      (jobs : List ℕ) (room : ℕ) (d : Desk)
      → Fits d.buffers
      → Takes p room d (round max_large room jobs d)
  round-Takes [] room d fits = unfold round in ((omega arith, fits), omega arith)
  round-Takes (job ∷ jobs) zero d fits = unfold round in ((omega arith, fits), omega arith)
  round-Takes (job ∷ jobs) (suc room) d fits =
      let first = visit_channel max_large job (get job d.buffers) d in
      let (kept, fits') = visit_channel-Keeps p max_large job (get job d.buffers) d refl fits in
      elim (Option-cases first.0) [
        | inl e ↦
            let ((kept', fits''), le) = round-Takes jobs (suc room) first.1 fits' in
            subst (Takes p (suc room) d) (sym (round-none room job jobs d e))
              ((kept' ∙ nothing_taken p first.0 _ _ e kept, fits''), le)
        | inr (t, e) ↦
            let ((kept', fits''), le) = round-Takes jobs room first.1 fits' in
            subst (Takes p (suc room) d) (sym (round-some room job jobs d t e)) (
              (
                omega (
                  arith,
                  kept',
                  one_taken p first.0 t _ _ e kept,
                  again p t (round max_large room jobs first.1).0,
                ),
                fits'',
              ),
              omega (arith, le),
            )
      ]

  rounds-Takes :
      (n room : ℕ) (jobs : List ℕ) (d : Desk)
      → Fits d.buffers
      → Takes p room d (rounds max_large n room jobs d)
  unfolding rounds
  rounds-Takes zero room jobs d fits = ((omega arith, fits), omega arith)
  rounds-Takes (suc n) room jobs d fits =
      let first = round max_large room jobs d in
      let ((kept, fits'), le) = round-Takes jobs room d fits in
      let rest = rounds max_large n (room - length first.0) jobs first.1 in
      let ((kept', fits''), le') = rounds-Takes n (room - length first.0) jobs first.1 fits' in
      (
        (omega (arith, kept, kept', count-append p first.0 rest.0), fits''),
        omega (arith, le, le', length-append first.0 rest.0),
      )

drain_lem :
    (p : TransferTask → Bool) (room : ℕ) (ch : List TransferTask)
    → (count p (drain room ch).0 + count p (drain room ch).1 ≡ count p ch)
      × ((length (drain room ch).0 ≤ room) × (length (drain room ch).1 ≤ length ch))
unfolding drain
drain_lem p zero ch = (omega arith, (omega arith, omega arith))
drain_lem p (suc room) [] = (omega arith, (omega arith, omega arith))
drain_lem p (suc room) (t ∷ ch) =
    let (kept, (le, le')) = drain_lem p room ch in
    (ground (arith, kept), (omega (arith, le), omega (arith, le')))

drain_only-Takes :
    (p : TransferTask → Bool) (limit job : ℕ) (o : Option (List TransferTask)) (d : Desk)
    → get job d.buffers ≡ o
    → Fits d.buffers
    → Takes p limit d (drain_only limit job o d)
drain_only-Takes p limit job none d e fits = ((omega arith, fits), omega arith)
drain_only-Takes p limit job (some ch) d e fits =
    let (kept, (le, le')) = drain_lem p limit ch in
    (
      (
        omega (arith, kept, total-put-some p d.buffers job (drain limit ch).1 ch e),
        Fits-put d.buffers job (drain limit ch).1 fits
            (omega (arith, le', Fits-get d.buffers job ch fits e)),
      ),
      le,
    )

-- From buffers none of which is overfull a request takes at most as many tasks as it asks for, and
-- for any test of tasks those taken and those left that pass it are as many as passed it before: no
-- task is lost or doubled, in whatever order the jobs are visited and large files are put back.
pub select_tasks-keeps :
    (shuffle : List ℕ → List ℕ) (p : TransferTask → Bool) (limit : ℕ) (ids : List ℕ) (d : Desk)
    → Fits d.buffers
    → let out = select_tasks shuffle limit ids d in
      (count p out.0 + total p out.1.buffers ≡ total p d.buffers)
      × Fits out.1.buffers
      × (length out.0 ≤ limit)
unfolding select_tasks
select_tasks-keeps shuffle p limit [] d fits = (omega arith, fits, omega arith)
select_tasks-keeps shuffle p limit (job ∷ []) d fits =
    let ((kept, fits'), le) = drain_only-Takes p limit job (get job d.buffers) d refl fits in
    (kept, fits', le)
select_tasks-keeps shuffle p limit (a ∷ (b ∷ ids)) d fits =
    let per_job = at_least_one (limit / length (a ∷ b ∷ ids)) in
    let ((kept, fits'), le) =
      rounds-Takes p (at_least_one (per_job / 4)) per_job limit (shuffle (a ∷ b ∷ ids))
        (record d { large = [] }) fits in
    (kept, fits', le)

count-all : (ts : List TransferTask) → count (λ t. true) ts ≡ length ts
count-all [] = refl
count-all (t ∷ ts) = ap suc (count-all ts)

module _ (sharded upserted : ℕ → Bool) (executed : Bool) (now : ℕ) (worker : String) where
  mark-nothing :
      (ts : List TransferTask) (s : Server)
      → (mark_transfer_tasks_running sharded upserted executed now worker ts s).0 ≡ false
      → 0 < length ts
  unfolding mark_transfer_tasks_running
  mark-nothing [] s h = cc
  mark-nothing (t ∷ ts) s h = omega arith

  -- From buffers none of which is overfull, a request that ends in an error, because a task could
  -- not be marked, gives no task and yet leaves fewer tasks in the buffers.
  pub hand_out-lost :
      (shuffle : List ℕ → List ℕ) (limit : ℕ) (ids : List ℕ) (d : Desk) (s : Server)
      → Fits d.buffers
      → (hand_out sharded upserted executed now worker ids (select_tasks shuffle limit ids d) s).0
        ≡ none
      → total
          (λ t. true)
          (hand_out sharded upserted executed now worker ids
            (select_tasks shuffle limit ids d)
            s).1.0.buffers
        < total (λ t. true) d.buffers
  hand_out-lost shuffle limit ids d s fits failed =
      let out = select_tasks shuffle limit ids d in
      let (kept, _, _) = select_tasks-keeps shuffle (λ t. true) limit ids d fits in
      elim (Bool-cases
        (mark_transfer_tasks_running sharded upserted executed now worker out.0 s).0) [
          | inl marked ↦ absurd (none≢some (sym (rw marked at failed)))
          | inr lost ↦ rw lost (omega (arith, kept, count-all out.0, mark-nothing out.0 s lost))
        ]
