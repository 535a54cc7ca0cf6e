-- ===== src/Youtube/Merge.antt =====
-- What merging does to a task, and that a batch of updates is the updates one by one.
use tmp_cf_ytb_admin.Base.{
  ℕ, zero, suc, ◌<◌, ◌≡◌, ◌≢◌, refl, sym, ap, ◌∙◌, String, Bool, true, false, ◌||◌, Option, List,
  [], ◌∷◌, ◌++◌, ◌==◌, if◌then◌else◌, arith, All, inl, inr, Bool-cases, subst, length, take, ◌≤◌,
  le→leb,
}
use tmp_cf_ytb_admin.Models.{YoutubeTask, Stored, absent, malformed, parsed}
use tmp_cf_ytb_admin.Youtube.Update.{
  or_keep, or_keep_size, preserve, restarts, starts, ends, set_once, merge, Command, set_task,
  add_member, push, Memory, Server, process, process_all, carry_out, exec, update_tasks, updated,
  wants_push,
}

or_keep-twice : (a b : String) → or_keep a (or_keep a b) ≡ or_keep a b
or_keep-twice a b = ground arith

or_keep_size-twice : (a b : ℕ) → or_keep_size a (or_keep_size a b) ≡ or_keep_size a b
or_keep_size-twice a b = ground arith

-- The guard never fires: a value that is kept is not lost.
preserve-or_keep : (a b : String) → preserve b (or_keep a b) ≡ or_keep a b
preserve-or_keep a b = ground arith

preserve-twice :
    (a b : String)
    → (let kept = preserve b (or_keep a b) in preserve kept (or_keep a kept))
      ≡ preserve b (or_keep a b)
preserve-twice a b = rw (preserve-or_keep a b, preserve-or_keep a (or_keep a b)) (or_keep-twice a b)

set_once-twice :
    (wanted : Bool) (now now' old : ℕ)
    → 0 < now
    → set_once wanted now' (set_once wanted now old) ≡ set_once wanted now old
set_once-twice true now now' old h = ground arith
set_once-twice false now now' old h = refl

cleared-twice :
    (clear : Bool) (a b : String)
    → (if clear then "" else or_keep a (if clear then "" else or_keep a b))
      ≡ (if clear then "" else or_keep a b)
cleared-twice true a b = refl
cleared-twice false a b = or_keep-twice a b

flag-twice :
    (clear a b : Bool)
    → (if clear then false else a || (if clear then false else a || b))
      ≡ (if clear then false else a || b)
flag-twice true a b = refl
flag-twice false true b = refl
flag-twice false false b = refl

-- An update that is sent again, its first time being after the zero time, changes nothing in its
-- task but the time of the last update.
pub merge-twice :
    (now now' : ℕ) (u existing : YoutubeTask)
    → 0 < now
    → merge now' u (merge now u existing) ≡ record (merge now u existing) { updated_at = now' }
unfolding merge
merge-twice now now' u existing h = λ i. record existing {
  status = or_keep-twice u.status existing.status i;
  error_message = cleared-twice (restarts u.status) u.error_message existing.error_message i;
  worker_id = or_keep-twice u.worker_id existing.worker_id i;
  is_download_fail = flag-twice (restarts u.status) u.is_download_fail existing.is_download_fail i;
  url = preserve-twice u.url existing.url i;
  audio_url = or_keep-twice u.audio_url existing.audio_url i;
  audio_size = or_keep_size-twice u.audio_size existing.audio_size i;
  video_url = or_keep-twice u.video_url existing.video_url i;
  video_size = or_keep_size-twice u.video_size existing.video_size i;
  title = preserve-twice u.title existing.title i;
  video_id = preserve-twice u.video_id existing.video_id i;
  updated_at = now';
  started_at = set_once-twice (starts u.status) now now' existing.started_at h i;
  completed_at = set_once-twice (ends u.status) now now' existing.completed_at h i;
}

-- The updates handled one by one: each reads its task when its turn comes.
module _ (machine_of : ℕ → Option String) (now : ℕ) (worker_machine : String) where
  abbrev pub one : Server → YoutubeTask → Server
  one s u =
      let done = process machine_of now worker_machine u (s.tasks u.id) s.memory in
      exec done.1 (record s { memory = done.0 })

  unfoldable pub one_by_one : Server → List YoutubeTask → Server
  one_by_one s [] = s
  one_by_one s (u ∷ us) = one_by_one (one s u) us

-- A stored task has the id that it is stored under.
abbrev pub IsKeyed : (ℕ → Stored YoutubeTask) → Type 0
IsKeyed tasks = (k : ℕ) (t : YoutubeTask) → tasks k ≡ parsed t → t.id ≡ k

-- No two updates are for one task.
abbrev pub IsDistinct : List YoutubeTask → Type 0
IsDistinct [] = Unit
IsDistinct (u ∷ us) = All (λ v. u.id ≢ v.id) us × IsDistinct us

-- A list of commands that writes no task but `k`.
abbrev pub WritesOnly : ℕ → List Command → Type 0
WritesOnly k cs = All (λ c. elim c [ set_task j t ↦ j ≡ k | _ ↦ Unit {0} ]) cs

exec-append : (cs ds : List Command) (s : Server) → exec (cs ++ ds) s ≡ exec ds (exec cs s)
unfolding exec
exec-append [] ds s = refl
exec-append (c ∷ cs) ds s = exec-append cs ds (carry_out c s)

module _ {A : Type 0} where
  All-both :
      {P Q R : A → Type 0}
      → ((x : A) → P x → Q x → R x)
      → (xs : List A) → All P xs
      → All Q xs
      → All R xs
  All-both f [] ps qs = tt
  All-both f (x ∷ xs) ps qs = (f x ps.0 qs.0, All-both f xs ps.1 qs.1)

  All-const : {P : A → Type 0} → ((x : A) → P x) → (xs : List A) → All P xs
  All-const f [] = tt
  All-const f (x ∷ xs) = (f x, All-const f xs)

  take-all : (n : ℕ) (xs : List A) → length xs ≤ n → take n xs ≡ xs
  take-all zero [] h = refl
  take-all zero (x ∷ xs) h = absurd (omega arith)
  take-all (suc n) [] h = refl
  take-all (suc n) (x ∷ xs) h = ap (◌∷◌ x) (take-all n xs (omega arith))

memory-exec : (cs : List Command) (s : Server) → (exec cs s).memory ≡ s.memory
unfolding exec carry_out
memory-exec [] s = refl
memory-exec (set_task k t ∷ cs) s = memory-exec cs (carry_out (set_task k t) s)
memory-exec (add_member job k ∷ cs) s = memory-exec cs (carry_out (add_member job k) s)
memory-exec (push q k ∷ cs) s = memory-exec cs (carry_out (push q k) s)

carry_out-memory :
    (c : Command) (s : Server) (m : Memory)
    → record (carry_out c s) { memory = m } ≡ carry_out c (record s { memory = m })
unfolding carry_out
carry_out-memory (set_task k t) s m = refl
carry_out-memory (add_member job k) s m = refl
carry_out-memory (push q k) s m = refl

exec-memory :
    (cs : List Command) (s : Server) (m : Memory)
    → record (exec cs s) { memory = m } ≡ exec cs (record s { memory = m })
unfolding exec
exec-memory [] s m = refl
exec-memory (c ∷ cs) s m = exec-memory cs (carry_out c s) m ∙ ap (exec cs) (carry_out-memory c s m)

exec-tasks_ne :
    (cs : List Command) (s : Server) (k j : ℕ)
    → WritesOnly k cs
    → j ≢ k
    → (exec cs s).tasks j ≡ s.tasks j
unfolding exec carry_out
exec-tasks_ne [] s k j only differ = refl
exec-tasks_ne (set_task i t ∷ cs) s k j only differ =
    exec-tasks_ne cs (carry_out (set_task i t) s) k j only.1 differ ∙ ground (arith, only.0)
exec-tasks_ne (add_member job i ∷ cs) s k j only differ =
    exec-tasks_ne cs (carry_out (add_member job i) s) k j only.1 differ
exec-tasks_ne (push q i ∷ cs) s k j only differ =
    exec-tasks_ne cs (carry_out (push q i) s) k j only.1 differ

module _ (machine_of : ℕ → Option String) (now : ℕ) (worker_machine : String) where
  process-WritesOnly :
      (u : YoutubeTask) (v : Stored YoutubeTask) (m : Memory)
      → ((t : YoutubeTask) → v ≡ parsed t → t.id ≡ u.id)
      → WritesOnly u.id (process machine_of now worker_machine u v m).1
  unfolding process merge
  process-WritesOnly u absent m keyed = tt
  process-WritesOnly u malformed m keyed = tt
  process-WritesOnly u (parsed t) m keyed =
      elim (Bool-cases (wants_push machine_of now worker_machine u t)) [
        | inl pushes ↦ rw pushes (elim (Bool-cases (t.job_id == 0)) [
          | inl z ↦ rw z (keyed t refl, (tt, tt))
          | inr nz ↦ rw nz (keyed t refl, (tt, (tt, tt)))
        ])
        | inr quiet ↦ rw quiet (elim (Bool-cases (t.job_id == 0)) [
          | inl z ↦ rw z (keyed t refl, tt)
          | inr nz ↦ rw nz (keyed t refl, (tt, tt))
        ])
      ]

  process_all-one_by_one :
      (before : ℕ → Stored YoutubeTask) (us : List YoutubeTask) (s : Server)
      → IsKeyed before
      → IsDistinct us
      → All (λ u. before u.id ≡ s.tasks u.id) us
      → (let done = process_all machine_of now worker_machine before us s.memory in
          exec done.1 (record s { memory = done.0 }))
        ≡ one_by_one machine_of now worker_machine s us
  unfolding process_all one_by_one
  process_all-one_by_one before [] s keyed distinct agree = unfold exec in refl
  process_all-one_by_one before (u ∷ us) s keyed distinct agree =
      exec-append first.1 (rest first.0).1 (record s { memory = (rest first.0).0 })
      ∙ ap (exec (rest first.0).1)
          (sym (exec-memory first.1 (record s { memory = first.0 }) (rest first.0).0))
      ∙ subst
          (λ m.
            exec (rest m).1 (record next { memory = (rest m).0 })
            ≡ one_by_one machine_of now worker_machine next us)
          (memory-exec first.1 (record s { memory = first.0 }))
          (process_all-one_by_one before us next keyed distinct.1 (
            All-both
              (λ v differ same.
                same ∙ sym (exec-tasks_ne first.1 _ u.id v.id writes (λ e. differ (sym e))))
              us distinct.0 agree.1))
      ∙ ap
          (λ v.
            let done = process machine_of now worker_machine u v s.memory in
            one_by_one machine_of now worker_machine (exec done.1 (record s { memory = done.0 }))
              us)
          agree.0
    where
      first : Memory × List Command
      first = process machine_of now worker_machine u (before u.id) s.memory

      rest : Memory → Memory × List Command
      rest = process_all machine_of now worker_machine before us

      next : Server
      next = exec first.1 (record s { memory = first.0 })

      writes : WritesOnly u.id first.1
      writes = process-WritesOnly u (before u.id) s.memory (λ t e. keyed u.id t e)

-- Where every stored task has the id it is stored under, a batch for distinct tasks whose whole
-- pipeline Redis carries out answers "updated" and does what its updates do one by one, each
-- reading its task when its turn comes.
pub update_tasks-one_by_one :
    (machine_of : ℕ → Option String) (now carried : ℕ) (worker_machine : String)
    (us : List YoutubeTask) (s : Server)
    → IsKeyed s.tasks
    → IsDistinct us
    → length (process_all machine_of now worker_machine s.tasks us s.memory).1 ≤ carried
    → update_tasks machine_of now true carried worker_machine us s
      ≡ (updated, one_by_one machine_of now worker_machine s us)
unfolding update_tasks
update_tasks-one_by_one machine_of now carried worker_machine us s keyed distinct enough =
    rw (le→leb _ _ enough, take-all carried _ enough)
      (ap (λ s'. (updated, s'))
        (process_all-one_by_one machine_of now worker_machine s.tasks us s keyed distinct
          (All-const (λ u. refl) us)))
