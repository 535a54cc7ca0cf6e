-- ===== src/Ffmpeg/Update.antt =====
-- `BatchUpdateFfmpeg`: the reports on ffmpeg tasks. The stored tasks are read first, the rows of
-- the jobs are written during the loop, and the tasks by a pipeline after it. A row's counts are
-- integers.
use tmp_cf_ytb_admin.Base.{
  ℕ, ◌+◌, ◌-◌, String, str_eq, Bool, not, ◌&&◌, ◌||◌, Option, none, some, List, [], ◌∷◌, ltb, ◌==◌,
  if◌then◌else◌, ℤ, pos, negsuc, ◌+ℤ◌, ltb_ℤ,
}
use tmp_cf_ytb_admin.Models.{FfmpegTask, Stored, absent, malformed, parsed}
use tmp_cf_ytb_admin.Sharded.{set_at}

pub record FfmpegJob : Type 0 where
  pub total_count : ℤ
  pub pending_count : ℤ
  pub running_count : ℤ
  pub success_count : ℤ
  pub failed_count : ℤ
  pub status : String
  pub success_size_bytes : ℕ

pub record Server : Type 0 where
  pub tasks : ℕ → Stored FfmpegTask
  pub jobs : ℕ → Option FfmpegJob

pub record Replies : Type 0 where
  pub fetched : Bool
  pub written : Bool

pub data Reply : Type 0 where
  bad_request no_updates internal_error updated : Reply

-- The task that is written for a report.
unfoldable pub report_on : ℕ → FfmpegTask → FfmpegTask → FfmpegTask
report_on now u existing = record existing {
  status = u.status;
  updated_at = now;
  started_at =
      if str_eq u.status "RUNNING" && existing.started_at == 0 then now else existing.started_at;
  completed_at =
      if (str_eq u.status "COMPLETED" || str_eq u.status "FAILED") && existing.completed_at == 0
      then now
      else existing.completed_at;
}

abbrev pub has_counts : FfmpegTask → Bool
has_counts u = ltb 0 u.total_count || ltb 0 u.success_count || ltb 0 u.failed_count

abbrev pub greatest : ℤ → ℤ → ℤ
greatest a b = if ltb_ℤ a b then b else a

-- The row of a job by the counts that a worker reports.
unfoldable pub by_counts : FfmpegTask → FfmpegJob → FfmpegJob
by_counts u row = record row {
  total_count = greatest row.total_count (pos u.total_count);
  success_count = pos u.success_count;
  failed_count = pos u.failed_count;
  pending_count = pos (u.total_count - (u.success_count + u.failed_count));
  status = u.status;
}

-- What the change of a status adds to the count of tasks with a status.
abbrev pub delta : String → String → String → ℤ
delta old new st =
    (if str_eq old st then negsuc 0 else pos 0) +ℤ (if str_eq new st then pos 1 else pos 0)

-- The row of a job by the change of a status.
unfoldable pub by_status : String → String → FfmpegJob → FfmpegJob
by_status old new row = record row {
  pending_count = row.pending_count +ℤ delta old new "PENDING";
  running_count = row.running_count +ℤ delta old new "RUNNING";
  success_count = row.success_count +ℤ delta old new "COMPLETED";
  failed_count = row.failed_count +ℤ delta old new "FAILED";
  status = new;
}

unfoldable pub sync_row : FfmpegTask → FfmpegTask → FfmpegJob → FfmpegJob
unfolding by_counts by_status
sync_row u existing row =
    if has_counts u
    then by_counts u row
    else if str_eq existing.status u.status
    then row
    else by_status existing.status u.status row

-- UPDATE … WHERE id.
abbrev pub update_job : ℕ → (FfmpegJob → FfmpegJob) → (ℕ → Option FfmpegJob) → ℕ → Option FfmpegJob
update_job k f jobs = set_at k (elim (jobs k) [ none ↦ none | some row ↦ some (f row) ]) jobs

-- What the loop leaves: the writes of the pipeline, the rows, and the sizes of what was completed.
pub record Work : Type 0 where
  pub commands : List (ℕ × FfmpegTask)
  pub jobs : ℕ → Option FfmpegJob
  pub increments : List (ℕ × ℕ)

abbrev pub increment_of : FfmpegTask → FfmpegTask → List (ℕ × ℕ) → List (ℕ × ℕ)
increment_of u existing rest =
    let size = existing.video_size + existing.audio_size in
    if not (str_eq existing.status "COMPLETED") && str_eq u.status "COMPLETED" && ltb 0 size
    then (existing.job_id, size) ∷ rest
    else rest

module _ (now : ℕ) (before : ℕ → Stored FfmpegTask) where
  unfoldable pub loop : List FfmpegTask → (ℕ → Option FfmpegJob) → Work
  unfolding report_on sync_row
  loop [] jobs = record { commands = []; jobs = jobs; increments = [] }
  loop (u ∷ us) jobs = elim (before u.id) [
    | absent ↦ loop us jobs
    | malformed ↦ loop us jobs
    | parsed existing ↦
        let rest = loop us (update_job existing.job_id (sync_row u existing) jobs) in
        record rest {
          commands = (existing.id, report_on now u existing) ∷ rest.commands;
          increments = increment_of u existing rest.increments;
        }
  ]

unfoldable pub exec : List (ℕ × FfmpegTask) → (ℕ → Stored FfmpegTask) → ℕ → Stored FfmpegTask
exec [] tasks = tasks
exec ((k, t) ∷ cs) tasks = exec cs (set_at k (parsed t) tasks)

-- The sizes are added up for each job; adding them one by one comes to the same.
abbrev pub add_size : ℕ → FfmpegJob → FfmpegJob
add_size n row = record row { success_size_bytes = row.success_size_bytes + n }

unfoldable pub add_sizes : List (ℕ × ℕ) → (ℕ → Option FfmpegJob) → ℕ → Option FfmpegJob
add_sizes [] jobs = jobs
add_sizes ((k, n) ∷ rest) jobs = add_sizes rest (update_job k (add_size n) jobs)

unfoldable pub batch_update_ffmpeg :
    ℕ → Replies → Option (List FfmpegTask) → Server → Reply × Server
unfolding loop exec add_sizes
batch_update_ffmpeg now r none s = (bad_request, s)
batch_update_ffmpeg now r (some []) s = (no_updates, s)
batch_update_ffmpeg now r (some (u ∷ us)) s =
    let work = loop now s.tasks (u ∷ us) s.jobs in
    if not r.fetched
    then (internal_error, s)
    else if not r.written
    then (internal_error, record s { jobs = work.jobs })
    else (
      updated,
      record { tasks = exec work.commands s.tasks; jobs = add_sizes work.increments work.jobs },
    )
