-- ===== src/Youtube/Acquire/Limits.antt =====
-- A request for tasks always ends, and gives at most as many tasks as it asks for.
use mathlib.Core.Option
use tmp_cf_ytb_admin.Base.{
  ℕ, zero, suc, ◌-◌, ◌≤◌, ◌<◌, ◌≡◌, refl, sym, ap, ◌∙◌, subst, String, str_eq, eq_iff, Bool, Option,
  none, some, List, [], ◌∷◌, leb, length, length-append, arith, Bool-cases, inl, inr, get, put, ◌⊎◌,
  ◌≢◌, ◌==◌, if_true, if_false, All-append, All,
}
use tmp_cf_ytb_admin.Models.{YoutubeTask, Stored, absent, malformed, parsed}
use tmp_cf_ytb_admin.Youtube.{Cache, Queues, set_queue}
use tmp_cf_ytb_admin.Youtube.Acquire.{
  Desk, queue_names, Pop, empty, broken, popped, contains, pop_first, Outcome, stopped, skipped,
  taken, download_step, download_loop, check_status, retry_popped, retry_step, retry_loop, keeps,
  drain, drain_job, drain_all, AcquireRequest, waiting, limit_of, fill_up, acquire_metadata,
  acquire_download,
}

-- A queue that gets shorter does not make more ids wait.
waiting-set_queue :
    (names : List String) (q : String) (ids : List ℕ) (queues : Queues)
    → length ids ≤ length (queues q)
    → waiting names (set_queue q ids queues) ≤ waiting names queues
unfolding set_queue
waiting-set_queue [] q ids queues h = omega arith
waiting-set_queue (r ∷ names) q ids queues h =
    ground (arith, waiting-set_queue names q ids queues h, eq_iff r q)

abbrev Quiet : Pop → Type 0
Quiet empty = Unit
Quiet broken = Unit
Quiet (popped k) = ⊥

-- An id that is popped no longer waits, and no queue gets longer.
abbrev Shrinks : List String → Queues → Pop × Queues → Type 0
Shrinks names queues (empty, queues') = Unit
Shrinks names queues (broken, queues') = Unit
Shrinks names queues (popped k, queues') =
    (waiting names queues' < waiting names queues)
    × ((q : String) → length (queues' q) ≤ length (queues q))

List-cases : {A : Type 0} (xs : List A) → (xs ≡ []) ⊎ ((x : A) × (ys : List A) × (xs ≡ x ∷ ys))
List-cases [] = inl refl
List-cases (x ∷ xs) = inr (x, xs, refl)

Shrinks-more :
    (names : List String) (q : String) (queues : Queues) (r : Pop × Queues)
    → Shrinks names queues r
    → Shrinks (q ∷ names) queues r
Shrinks-more names q queues (empty, queues') h = tt
Shrinks-more names q queues (broken, queues') h = tt
Shrinks-more names q queues (popped k, queues') h = (omega (arith, h.0, h.1 q), h.1)

pop_first-Shrinks :
    (reachable : String → Bool) (names : List String) (last : Pop) (queues : Queues)
    → Quiet last
    → Shrinks names queues (pop_first reachable names last queues)
unfolding pop_first
pop_first-Shrinks reachable [] empty queues h = tt
pop_first-Shrinks reachable [] broken queues h = tt
pop_first-Shrinks reachable [] (popped k) queues h = absurd h
pop_first-Shrinks reachable (q ∷ names) last queues h = elim (Bool-cases (reachable q)) [
  | inr down ↦
      rw (down, pop_first)
        (Shrinks-more names q queues _ (pop_first-Shrinks reachable names broken queues tt))
  | inl up ↦ elim (List-cases (queues q)) [
    | inl none_left ↦
        rw (up, none_left, pop_first)
          (Shrinks-more names q queues _ (pop_first-Shrinks reachable names empty queues tt))
    | inr (k, ks, e) ↦
        rw (up, e, pop_first)
          (
            unfold set_queue in
                ground (
                  arith,
                  ap length e,
                  eq_iff q q,
                  waiting-set_queue names q ks queues (omega (arith, ap length e)),
                ),
            λ r. unfold set_queue in ground (arith, ap length e, eq_iff r q),
          )
  ]
]

abbrev pub IsPending : YoutubeTask → Type 0
IsPending t = t.status ≡ "PENDING"

module _ (reachable : String → Bool) (now : ℕ) (names : List String) where
  -- A round that does not end the loop pops an id and leaves the buffers alone; a task that it
  -- gives is PENDING.
  abbrev Advances : Desk → Outcome → Type 0
  Advances d stopped = Unit
  Advances d (skipped seen d') =
      (waiting names d'.retries < waiting names d.retries) × (d'.buffers ≡ d.buffers)
  Advances d (taken t seen d') =
      (waiting names d'.retries < waiting names d.retries)
      × ((d'.buffers ≡ d.buffers) × (t.status ≡ "PENDING"))

  check_status-Advances :
      (d : Desk) (queues : Queues) (k : ℕ) (v : Stored YoutubeTask) (seen : List ℕ)
      → waiting names queues < waiting names d.retries
      → Advances d (check_status reachable now names k v seen (record d { retries = queues }))
  check_status-Advances d queues k absent seen h = (h, refl)
  check_status-Advances d queues k malformed seen h = (h, refl)
  check_status-Advances d queues k (parsed t) seen h =
      elim (Bool-cases (str_eq t.status "COMPLETED")) [
        | inl done ↦ rw done (h, refl)
        | inr open' ↦ elim (Bool-cases (str_eq t.status "PENDING")) [
          | inl pending ↦ rw (open', pending) (h, (refl, (eq_iff t.status "PENDING").0 pending))
          | inr other ↦ rw (open', other) (h, (refl, refl))
        ]
      ]

  retry_popped-Advances :
      (d : Desk) (r : Pop × Queues) (seen : List ℕ)
      → Shrinks names d.retries r
      → Advances d (retry_popped reachable now names r.0 seen (record d { retries = r.1 }))
  retry_popped-Advances d (empty, queues) seen h = tt
  retry_popped-Advances d (broken, queues) seen h = tt
  retry_popped-Advances d (popped k, queues) seen h = elim (Bool-cases (contains k seen)) [
    | inl again ↦ rw again (h.0, refl)
    | inr first ↦ rw first (check_status-Advances d queues k (d.tasks k) (k ∷ seen) h.0)
  ]

  retry_step-Advances :
      (seen : List ℕ) (d : Desk) → Advances d (retry_step reachable now names seen d)
  unfolding retry_step
  retry_step-Advances seen d =
      retry_popped-Advances d (pop_first reachable names empty d.retries) seen
        (pop_first-Shrinks reachable names empty d.retries tt)

  -- What a loop gives that has not run out of fuel.
  abbrev Gives : ℕ → Desk → Option (List YoutubeTask × Desk) → Type 0
  Gives room d o =
      (r : List YoutubeTask × Desk) × ((o ≡ some r)
        × ((length r.0 ≤ room) × (All IsPending r.0 × (r.1.buffers ≡ d.buffers))))

  retry_loop-Gives :
      (fuel room : ℕ) (seen : List ℕ) (d : Desk)
      → waiting names d.retries < fuel
      → Gives room d (retry_loop reachable now names fuel room seen d)
  unfolding retry_loop
  retry_loop-Gives zero room seen d h = absurd (omega arith)
  retry_loop-Gives (suc fuel) zero seen d h = (([], d), (refl, (omega arith, (tt, refl))))
  retry_loop-Gives (suc fuel) (suc room) seen d h =
      go (λ m seen' d' h'. retry_loop-Gives fuel m seen' d' h')
        (retry_step reachable now names seen d) (retry_step-Advances seen d)
    where
      after : Outcome → Option (List YoutubeTask × Desk)
      after stopped = some ([], d)
      after (skipped seen' d') = retry_loop reachable now names fuel (suc room) seen' d'
      after (taken t seen' d') =
          Option.map (λ r. (t ∷ r.0, r.1)) (retry_loop reachable now names fuel room seen' d')

      Rest : Type 0
      Rest =
          (m : ℕ) (seen' : List ℕ) (d' : Desk)
          → waiting names d'.retries < fuel
          → Gives m d' (retry_loop reachable now names fuel m seen' d')

      go : Rest → (o : Outcome) → Advances d o → Gives (suc room) d (after o)
      go rest stopped a = (([], d), (refl, (omega arith, (tt, refl))))
      go rest (skipped seen' d') a =
          let (r, (e, (le, (ps, same)))) = rest (suc room) seen' d' (omega (arith, h, a.0)) in
          (r, (e, (le, (ps, same ∙ a.1))))
      go rest (taken t seen' d') a =
          let (r, (e, (le, (ps, same)))) = rest room seen' d' (omega (arith, h, a.0)) in
          (
            (t ∷ r.0, r.1),
            (
              ap (Option.map (λ r. (t ∷ r.0, r.1))) e,
              (omega (arith, le), ((a.1.1, ps), same ∙ a.1.0)),
            ),
          )

download_loop-length :
    (reachable : String → Bool) (standard : ℕ → Bool) (names : List String) (rounds : ℕ)
    (seen : List ℕ) (d : Desk)
    → length (download_loop reachable standard names rounds seen d).0 ≤ rounds
unfolding download_loop
download_loop-length reachable standard names zero seen d = omega arith
download_loop-length reachable standard names (suc rounds) seen d =
    go (download_loop-length reachable standard names rounds)
      (download_step reachable standard names seen d)
  where
    after : Outcome → List YoutubeTask × Desk
    after stopped = ([], d)
    after (skipped seen' d') = download_loop reachable standard names rounds seen' d'
    after (taken t seen' d') =
        let rest = download_loop reachable standard names rounds seen' d' in (t ∷ rest.0, rest.1)

    go :
        ((seen' : List ℕ) (d' : Desk)
          → length (download_loop reachable standard names rounds seen' d').0 ≤ rounds)
        → (o : Outcome) → length (after o).0 ≤ suc rounds
    go ih stopped = omega arith
    go ih (skipped seen' d') = omega (arith, ih seen' d')
    go ih (taken t seen' d') = omega (arith, ih seen' d')

abbrev pub AllBuffers : (YoutubeTask → Type 0) → List (ℕ × List YoutubeTask) → Type 0
AllBuffers P [] = Unit
AllBuffers P ((job, ch) ∷ bs) = All P ch × AllBuffers P bs

module _ {A : Type 0} where
  none≢some : {a : A} → ◌≢◌ {A = Option A} none (some a)
  none≢some e = cc

  some-injective : {a b : A} → some a ≡ some b → a ≡ b
  some-injective e = cc

module _ (machine_of : ℕ → Option String) (machine : String) where
  -- The tasks kept, and those left in the buffer, were in the buffer.
  abbrev Drained :
      (YoutubeTask → Type 0) → ℕ → List YoutubeTask × (List YoutubeTask × Cache) → Type 0
  Drained P room r = (length r.0 ≤ room) × (All P r.0 × All P r.1.0)

  drain-Drained :
      (P : YoutubeTask → Type 0) (room : ℕ) (cache : Cache) (ch : List YoutubeTask)
      → All P ch
      → Drained P room (drain machine_of machine room cache ch)
  unfolding drain
  drain-Drained P zero cache ch h = (omega arith, (tt, h))
  drain-Drained P (suc room) cache [] h = (omega arith, (tt, tt))
  drain-Drained P (suc room) cache (t ∷ ch) h =
      elim (Bool-cases (keeps machine_of machine cache t).0) [
        | inl mine ↦
            let (le, (got, left)) =
              drain-Drained P room (keeps machine_of machine cache t).1 ch h.1 in
            rw (mine, drain) (omega (arith, le), ((h.0, got), left))
        | inr foreign ↦
            rw (foreign, drain)
              (drain-Drained P (suc room) (keeps machine_of machine cache t).1 ch h.1)
      ]

  AllBuffers-get :
      (P : YoutubeTask → Type 0) (bs : List (ℕ × List YoutubeTask)) (job : ℕ)
      {ch : List YoutubeTask}
      → AllBuffers P bs
      → get job bs ≡ some ch
      → All P ch
  unfolding get
  AllBuffers-get P [] job h e = absurd (none≢some e)
  AllBuffers-get P ((j, c) ∷ bs) job h e = elim (Bool-cases (j == job)) [
    | inl same ↦ subst (All P) (some-injective (sym (if_true (some c) (get job bs) same) ∙ e)) h.0
    | inr other ↦ AllBuffers-get P bs job h.1 (sym (if_false (some c) (get job bs) other) ∙ e)
  ]

  AllBuffers-put :
      (P : YoutubeTask → Type 0) (bs : List (ℕ × List YoutubeTask)) (job : ℕ)
      (ch : List YoutubeTask)
      → AllBuffers P bs
      → All P ch
      → AllBuffers P (put job ch bs)
  unfolding put
  AllBuffers-put P [] job ch h hc = (hc, tt)
  AllBuffers-put P ((j, c) ∷ bs) job ch h hc = elim (Bool-cases (j == job)) [
    | inl same ↦ rw same (hc, h.1)
    | inr other ↦ rw other (h.0, AllBuffers-put P bs job ch h.1 hc)
  ]

  -- What draining gives, and that the buffers still hold the same kind of task.
  abbrev Handed : (YoutubeTask → Type 0) → ℕ → List YoutubeTask × Desk → Type 0
  Handed P room r = (length r.0 ≤ room) × (All P r.0 × AllBuffers P r.1.buffers)

  drain_job-Handed :
      (P : YoutubeTask → Type 0) (room job : ℕ) (o : Option (List YoutubeTask)) (d : Desk)
      → AllBuffers P d.buffers
      → get job d.buffers ≡ o
      → Handed P room (drain_job machine_of machine room job o d)
  drain_job-Handed P room job none d h e = (omega arith, (tt, h))
  drain_job-Handed P room job (some ch) d h e =
      let (le, (got, left)) =
        drain-Drained P room d.cache ch (AllBuffers-get P d.buffers job h e) in
      (le, (got, AllBuffers-put P d.buffers job _ h left))

  drain_all-Handed :
      (P : YoutubeTask → Type 0) (jobs : List ℕ) (room : ℕ) (d : Desk)
      → AllBuffers P d.buffers
      → Handed P room (drain_all machine_of machine room jobs d)
  unfolding drain_all
  drain_all-Handed P [] room d h = (omega arith, (tt, h))
  drain_all-Handed P (job ∷ jobs) zero d h = (omega arith, (tt, h))
  drain_all-Handed P (job ∷ jobs) (suc m) d h =
      let first = drain_job machine_of machine (suc m) job (get job d.buffers) d in
      let (le, (got, kept)) = drain_job-Handed P (suc m) job (get job d.buffers) d h refl in
      let (le', (got', kept')) = drain_all-Handed P jobs (suc m - length first.0) first.1 kept in
      (
        omega (
          arith,
          le,
          le',
          length-append first.0
              (drain_all machine_of machine (suc m - length first.0) jobs first.1).0,
        ),
        (All-append P first.0 _ got got', kept'),
      )

module _ (machine_of : ℕ → Option String) (reachable : String → Bool) (standard : ℕ → Bool)
    (now : ℕ) (order : List ℕ) where
  fill_up-Handed :
      (r : AcquireRequest) (tasks : List YoutubeTask) (d : Desk)
      → length tasks ≤ limit_of r
      → All IsPending tasks
      → AllBuffers IsPending d.buffers
      → (let out = fill_up machine_of reachable standard now order r (tasks, d) in
          (length out.0 ≤ limit_of r) × All IsPending out.0)
  fill_up-Handed r tasks d le ps h = elim (Bool-cases (leb (limit_of r) (length tasks))) [
    | inl full ↦ rw full (le, ps)
    | inr room ↦ rw room (
        let (le', (got, _)) =
          drain_all-Handed machine_of r.machine_name IsPending order (limit_of r - length tasks) d
            h in
        (
          omega (
            arith,
            le',
            length-append tasks
                (drain_all machine_of r.machine_name (limit_of r - length tasks) order d).0,
          ),
          All-append IsPending tasks _ ps got,
        ))
  ]

  -- A request for metadata work ends, whatever the queues hold and whichever of them are down, and
  -- while the buffers hold only PENDING tasks it gives at most `limit` tasks, all PENDING.
  pub acquire_metadata-returns :
      (r : AcquireRequest) (d : Desk)
      → AllBuffers IsPending d.buffers
      → (out : List YoutubeTask × Desk) × (acquire_metadata machine_of reachable standard now order
            r d
          ≡ some out)
        × (length out.0 ≤ limit_of r)
        × All IsPending out.0
  unfolding acquire_metadata
  acquire_metadata-returns r d h =
      let (got, (e, (le, (ps, same)))) =
        retry_loop-Gives reachable now (queue_names r.machine_name)
          (suc (waiting (queue_names r.machine_name) d.retries)) (limit_of r) [] d (omega arith) in
      let (le', ps') =
        fill_up-Handed r got.0 got.1 le ps (subst (AllBuffers IsPending) (sym same) h) in
      (
        fill_up machine_of reachable standard now order r got,
        ap (Option.map (fill_up machine_of reachable standard now order r)) e,
        le',
        ps',
      )

  -- A request for downloads gives at most `limit` tasks.
  pub acquire_download-length :
      (r : AcquireRequest) (d : Desk)
      → length (acquire_download machine_of reachable standard now order r d).0 ≤ limit_of r
  unfolding acquire_download
  acquire_download-length r d =
      download_loop-length reachable standard (queue_names r.machine_name) (limit_of r) [] d
