-- ===== src/Ffmpeg/Batch.antt =====
-- A batch of reports on ffmpeg tasks, and the counts of the job.
use tmp_cf_ytb_admin.Base.{
  ℕ, ◌≡◌, refl, sym, ap, ◌∙◌, subst, true, false, not, Option, none, some, List, [], ◌∷◌, ◌==◌,
  ==_iff, count, All, Bool-cases, inl, inr, if_true, if_false,
}
use tmp_cf_ytb_admin.Models.{FfmpegTask, Stored, parsed}
use tmp_cf_ytb_admin.Sharded.{set_at}
use tmp_cf_ytb_admin.Ffmpeg.Update.{
  FfmpegJob, Server, Replies, Reply, updated, internal_error, Work, report_on, has_counts, sync_row,
  update_job, loop, exec, increment_of, add_size, add_sizes, batch_update_ffmpeg,
}
use tmp_cf_ytb_admin.Ffmpeg.Census.{IsExact, sync_row-IsExact}

-- No two reports are on one task.
abbrev pub IsDistinct : List FfmpegTask → Type 0
IsDistinct [] = Unit
IsDistinct (u ∷ us) = All (λ v. (u.id == v.id) ≡ false) us × IsDistinct us

-- A report without counts, on a stored task that is one of the job's.
pub record Fits (job : ℕ) (ids : List ℕ) (tasks : ℕ → Stored FfmpegTask) (u : FfmpegTask)
    : Type 0 where
  pub existing : FfmpegTask
  pub stored : tasks u.id ≡ parsed existing
  pub same_id : existing.id ≡ u.id
  pub of_job : existing.job_id ≡ job
  pub once : count (λ k. u.id == k) ids ≡ 1
  pub plain : has_counts u ≡ false

exec-cons :
    (k : ℕ) (t : FfmpegTask) (cs : List (ℕ × FfmpegTask)) (tasks : ℕ → Stored FfmpegTask)
    → exec ((k, t) ∷ cs) tasks ≡ exec cs (set_at k (parsed t) tasks)
unfolding exec
exec-cons k t cs tasks = refl

module _ (job : ℕ) (ids : List ℕ) where
  -- The row of the job has the counts of the tasks.
  abbrev pub Exact : (ℕ → Stored FfmpegTask) → (ℕ → Option FfmpegJob) → Type 0
  Exact tasks jobs = (row : FfmpegJob) × (jobs job ≡ some row) × IsExact ids tasks row

  pub update_job_self :
      (k : ℕ) (f : FfmpegJob → FfmpegJob) (jobs : ℕ → Option FfmpegJob) (row : FfmpegJob)
      → k ≡ job
      → jobs job ≡ some row
      → update_job k f jobs job ≡ some (f row)
  update_job_self k f jobs row same found =
      if_true {b = k == job} (applied (jobs k)) (jobs job) ((==_iff k job).1 same)
      ∙ ap applied (ap jobs same ∙ found)
    where
      applied : Option FfmpegJob → Option FfmpegJob
      applied o = elim o [ none ↦ none | some r ↦ some (f r) ]

  module _ (now : ℕ) (before : ℕ → Stored FfmpegTask) where
    abbrev pub after_report :
        FfmpegTask → FfmpegTask → List FfmpegTask → (ℕ → Option FfmpegJob) → Work
    after_report u e us jobs =
        let rest = loop now before us (update_job e.job_id (sync_row u e) jobs) in
        record rest {
          commands = (e.id, report_on now u e) ∷ rest.commands;
          increments = increment_of u e rest.increments;
        }

    pub loop-parsed :
        (u e : FfmpegTask) (us : List FfmpegTask) (jobs : ℕ → Option FfmpegJob)
        → before u.id ≡ parsed e
        → loop now before (u ∷ us) jobs ≡ after_report u e us jobs
    unfolding loop
    loop-parsed u e us jobs stored = rw (stored, loop) refl

    abbrev Agrees : (ℕ → Stored FfmpegTask) → List FfmpegTask → Type 0
    Agrees tasks = All (λ u. tasks u.id ≡ before u.id)

    set-Agrees :
        (k : ℕ) (t : FfmpegTask) (tasks : ℕ → Stored FfmpegTask) (us : List FfmpegTask)
        → All (λ v. (k == v.id) ≡ false) us
        → Agrees tasks us
        → Agrees (set_at k (parsed t) tasks) us
    set-Agrees k t tasks [] other h = tt
    set-Agrees k t tasks (v ∷ vs) other h = (
      if_false {b = k == v.id} (parsed t) (tasks v.id) other.0 ∙ h.0,
      set-Agrees k t tasks vs other.1 h.1,
    )

    loop-Exact :
        (us : List FfmpegTask) (tasks : ℕ → Stored FfmpegTask) (jobs : ℕ → Option FfmpegJob)
        → All (Fits job ids before) us
        → IsDistinct us
        → Agrees tasks us
        → Exact tasks jobs
        → Exact (exec (loop now before us jobs).commands tasks) (loop now before us jobs).jobs
    loop-Exact [] tasks jobs fits distinct same exact = unfold loop exec in exact
    loop-Exact (u ∷ us) tasks jobs (fit, fits) (other, distinct) same (row, found, exact) =
        let e = fit.existing in
        let t = report_on now u e in
        let k = fit.existing.id in
        let tasks' : ℕ → Stored FfmpegTask = set_at u.id (parsed t) tasks in
        let jobs' = update_job e.job_id (sync_row u e) jobs in
        let rest =
          loop-Exact us tasks' jobs' fits distinct (set-Agrees u.id t tasks us other same.1) (
            sync_row u e row,
            update_job_self e.job_id (sync_row u e) jobs row fit.of_job found,
            sync_row-IsExact ids now u.id u e tasks row fit.once (same.0 ∙ fit.stored) fit.plain
                exact,
          ) in
        subst (λ w. Exact (exec w.commands tasks) w.jobs) (sym (loop-parsed u e us jobs fit.stored))
          (subst
            (λ i.
              Exact (exec ((i, t) ∷ (loop now before us jobs').commands) tasks)
                (loop now before us jobs').jobs)
            (sym fit.same_id)
            (subst (λ m. Exact m (loop now before us jobs').jobs)
              (sym (exec-cons u.id t (loop now before us jobs').commands tasks)) rest))

  add_size-IsExact :
      (n : ℕ) (tasks : ℕ → Stored FfmpegTask) (row : FfmpegJob)
      → IsExact ids tasks row
      → IsExact ids tasks (add_size n row)
  add_size-IsExact n tasks row exact = record {
    pending = exact.pending;
    running = exact.running;
    success = exact.success;
    failed = exact.failed;
  }

  add_sizes-Exact :
      (sizes : List (ℕ × ℕ)) (tasks : ℕ → Stored FfmpegTask) (jobs : ℕ → Option FfmpegJob)
      → Exact tasks jobs
      → Exact tasks (add_sizes sizes jobs)
  unfolding add_sizes
  add_sizes-Exact [] tasks jobs exact = exact
  add_sizes-Exact ((k, n) ∷ rest) tasks jobs (row, found, exact) =
      add_sizes-Exact rest tasks (update_job k (add_size n) jobs) (elim (Bool-cases (k == job)) [
        | inl same ↦ (
          add_size n row,
          update_job_self k (add_size n) jobs row ((==_iff k job).0 same) found,
          add_size-IsExact n tasks row exact,
        )
        | inr other ↦ (row, if_false {b = k == job} _ (jobs job) other ∙ found, exact)
      ])

  -- A batch of reports without counts on different tasks of a job, which are all stored, keeps
  -- the counts of the job's row equal to the numbers of its tasks with each status, when the
  -- calls succeed.
  pub batch_update_ffmpeg-Exact :
      (now : ℕ) (r : Replies) (us : List FfmpegTask) (s : Server)
      → r.fetched ≡ true
      → r.written ≡ true
      → All (Fits job ids s.tasks) us
      → IsDistinct us
      → Exact s.tasks s.jobs
      → Exact
          (batch_update_ffmpeg now r (some us) s).1.tasks
          (batch_update_ffmpeg now r (some us) s).1.jobs
  unfolding batch_update_ffmpeg
  batch_update_ffmpeg-Exact now r [] s fetched written fits distinct exact = exact
  batch_update_ffmpeg-Exact now r (u ∷ us) s fetched written fits distinct exact =
      let work = loop now s.tasks (u ∷ us) s.jobs in
      let done : Server = record {
        tasks = exec work.commands s.tasks;
        jobs = add_sizes work.increments work.jobs;
      } in
      subst {A = Reply × Server} (λ out. Exact out.1.tasks out.1.jobs)
        (sym (
          if_false {b = not r.fetched} (internal_error, s) _ (ap not fetched)
          ∙ if_false {b = not r.written} (internal_error, record s { jobs = work.jobs })
              (updated, done) (ap not written)))
        (add_sizes-Exact work.increments (exec work.commands s.tasks) work.jobs
          (loop-Exact now s.tasks (u ∷ us) s.tasks s.jobs fits distinct (all_same (u ∷ us)) exact))
    where
      all_same : (vs : List FfmpegTask) → All (λ v. s.tasks v.id ≡ s.tasks v.id) vs
      all_same [] = tt
      all_same (v ∷ vs) = (refl, all_same vs)
