-- ===== src/Ffmpeg/Repeated.antt =====
-- A report on an ffmpeg task that is sent again after an error.
use tmp_cf_ytb_admin.Base.{
  ℕ, ◌≡◌, refl, ap, ◌∙◌, String, str_eq, true, false, Option, some, List, [], ◌∷◌, ◌==◌, ==_iff,
  if_false, Bool-cases, inl, inr, ◌+ℤ◌,
}
use tmp_cf_ytb_admin.Models.{FfmpegTask, Stored, parsed}
use tmp_cf_ytb_admin.Ffmpeg.Update.{
  FfmpegJob, Server, updated, internal_error, has_counts, delta, by_counts, by_status, sync_row,
  update_job, loop, add_size, add_sizes, batch_update_ffmpeg,
}
use tmp_cf_ytb_admin.Ffmpeg.Batch.{update_job_self, loop-parsed}

-- The counts of a row are those of another one, moved twice by the change of a status.
abbrev pub MovedTwice : String → String → FfmpegJob → FfmpegJob → Type 0
MovedTwice old new row after =
    (after.pending_count ≡ row.pending_count +ℤ delta old new "PENDING" +ℤ delta old new "PENDING")
    × (after.running_count
        ≡ row.running_count +ℤ delta old new "RUNNING" +ℤ delta old new "RUNNING")
    × (after.success_count
        ≡ row.success_count +ℤ delta old new "COMPLETED" +ℤ delta old new "COMPLETED")
    × (after.failed_count ≡ row.failed_count +ℤ delta old new "FAILED" +ℤ delta old new "FAILED")

sync_row-change :
    (u e : FfmpegTask) (row : FfmpegJob)
    → has_counts u ≡ false
    → str_eq e.status u.status ≡ false
    → sync_row u e row ≡ by_status e.status u.status row
unfolding sync_row
sync_row-change u e row plain differ =
    if_false {b = has_counts u} (by_counts u row) _ plain
    ∙ if_false {b = str_eq e.status u.status} row (by_status e.status u.status row) differ

by_status-MovedTwice :
    (old new : String) (row : FfmpegJob)
    → MovedTwice old new row (by_status old new (by_status old new row))
unfolding by_status
by_status-MovedTwice old new row = (refl, refl, refl, refl)

loop-nil :
    (now : ℕ) (before : ℕ → Stored FfmpegTask) (jobs : ℕ → Option FfmpegJob)
    → (loop now before [] jobs).jobs ≡ jobs
unfolding loop
loop-nil now before jobs = refl

module _ (job : ℕ) where
  Moved : String → String → FfmpegJob → (ℕ → Option FfmpegJob) → Type 0
  Moved old new row jobs =
      (after : FfmpegJob) × (jobs job ≡ some after) × MovedTwice old new row after

  add_sizes-Moved :
      (old new : String) (row : FfmpegJob) (sizes : List (ℕ × ℕ)) (jobs : ℕ → Option FfmpegJob)
      → Moved old new row jobs
      → Moved old new row (add_sizes sizes jobs)
  unfolding add_sizes Moved
  add_sizes-Moved old new row [] jobs m = m
  add_sizes-Moved old new row ((k, n) ∷ rest) jobs (after, found, moved) =
      add_sizes-Moved old new row rest (update_job k (add_size n) jobs)
        (elim (Bool-cases (k == job)) [
          | inl same ↦ (
            add_size n after,
            update_job_self job [] k (add_size n) jobs after ((==_iff k job).0 same) found,
            moved,
          )
          | inr other ↦ (after, if_false {b = k == job} _ (jobs job) other ∙ found, moved)
        ])

  -- When the tasks cannot be written, the reply to a report is an error, and yet the row of the
  -- job has been changed: the same report without counts, sent again, moves the counts of the row
  -- a second time.
  pub batch_update_ffmpeg-repeated :
      (now later : ℕ) (u e : FfmpegTask) (row : FfmpegJob) (s : Server)
      → let first =
          batch_update_ffmpeg now (record { fetched = true; written = false }) (some (u ∷ [])) s in
        let second =
          batch_update_ffmpeg later
            (record { fetched = true; written = true })
            (some (u ∷ []))
            first.1 in
        s.tasks u.id ≡ parsed e
        → e.job_id ≡ job
        → has_counts u ≡ false
        → str_eq e.status u.status ≡ false
        → s.jobs job ≡ some row
        → (first.0 ≡ internal_error)
          × (second.0 ≡ updated)
          × ((after : FfmpegJob) × (second.1.jobs job ≡ some after)
              × MovedTwice e.status u.status row after)
  unfolding batch_update_ffmpeg
  batch_update_ffmpeg-repeated now later u e row s stored of_job plain differ found = (
    refl,
    refl,
    unfold Moved in
        add_sizes-Moved e.status u.status row (loop later s.tasks (u ∷ []) jobs).increments
          (loop later s.tasks (u ∷ []) jobs).jobs
          (once_more, found_more, by_status-MovedTwice e.status u.status row),
  )
    where
      jobs : ℕ → Option FfmpegJob
      jobs = (loop now s.tasks (u ∷ []) s.jobs).jobs

      once : FfmpegJob
      once = by_status e.status u.status row

      once_more : FfmpegJob
      once_more = by_status e.status u.status once

      one :
          (time : ℕ) (js : ℕ → Option FfmpegJob) (r : FfmpegJob)
          → js job ≡ some r
          → (loop time s.tasks (u ∷ []) js).jobs job ≡ some (by_status e.status u.status r)
      one time js r f =
          ap (λ w. w.jobs job) (loop-parsed job [] time s.tasks u e [] js stored)
          ∙ ap (λ g. g job) (loop-nil time s.tasks (update_job e.job_id (sync_row u e) js))
          ∙ update_job_self job [] e.job_id (sync_row u e) js r of_job f
          ∙ ap some (sync_row-change u e r plain differ)

      found_more : (loop later s.tasks (u ∷ []) jobs).jobs job ≡ some once_more
      found_more = one later jobs once (one now s.jobs row found)
