-- ===== src/Ffmpeg.antt =====
-- backend/go-app/handlers/task_handler.go, the tasks of ffmpeg jobs: `AddFfmpegTasksToJob`, the
-- fill of their buffers with the check that may set an offset back (`fillFfmpegJobBuffer`,
-- `checkAndRefillFfmpegBuffers`) and `AcquireFfmpegTasks`; Update for `BatchUpdateFfmpeg`. Which
-- calls succeed is an argument; the statements on the rows of the jobs do.
pub mod Acquire
pub mod Update
pub mod Census
pub mod Batch
pub mod Repeated
mod Tests
use tmp_cf_ytb_admin.Base.{
  ℕ, zero, suc, ◌+◌, ◌*◌, String, Bool, true, false, not, ◌&&◌, Option, none, some, List, [], ◌∷◌,
  ◌++◌, ltb, leb, ◌==◌, if◌then◌else◌, length, ℤ,
}
use tmp_cf_ytb_admin.Models.{FfmpegTask, Stored, parsed}
use tmp_cf_ytb_admin.Buffer
use tmp_cf_ytb_admin.Buffer.{buffer_low_water, fetch_batch_size, fill}
use tmp_cf_ytb_admin.Sharded.{zadd, set_at}
use tmp_cf_ytb_admin.Legacy.{last_id, after_id}

-- Whether the last id can be read and the pipeline be executed; one that fails is taken to have
-- written nothing, though Redis may have carried out a part of it.
pub record AddReplies : Type 0 where
  pub ranged : Bool
  pub written : Bool

-- What Redis has of a job, and the size in its row.
pub record Job : Type 0 where
  pub ids : List ℕ
  pub details : ℕ → Stored FfmpegTask
  pub total_size_bytes : ℕ

abbrev pub added_task : ℕ → ℕ → ℕ → FfmpegTask → FfmpegTask
added_task job_id now k t = record t { id = k; job_id = job_id; created_at = now; updated_at = now }

unfoldable pub add_all : ℕ → ℕ → ℕ → List FfmpegTask → Job → Job
unfolding zadd
add_all job_id now k [] s = s
add_all job_id now k (t ∷ ts) s = add_all job_id now (k + 1) ts (record s {
  details = set_at k (parsed (added_task job_id now k t)) s.details;
  ids = zadd k s.ids;
})

abbrev pub sum_sizes : List FfmpegTask → ℕ
sum_sizes [] = 0
sum_sizes (t ∷ ts) = t.video_size + t.audio_size + sum_sizes ts

-- `none` is an error, and else the number of tasks added.
unfoldable pub add_ffmpeg_tasks_to_job : ℕ → ℕ → AddReplies → List FfmpegTask → Job → Option ℕ × Job
unfolding add_all
add_ffmpeg_tasks_to_job job_id now r tasks s =
    let start = after_id job_id (if r.ranged then last_id s.ids else none) in
    if length tasks == 0 then (some 0, s) else if not r.written then (none, s) else (
      some (length tasks),
      record (add_all job_id now start tasks s) {
        total_size_bytes = s.total_size_bytes + sum_sizes tasks;
      },
    )

unfoldable pub fill_ffmpeg_job_buffer :
    Buffer.Replies → Buffer.Job FfmpegTask → Buffer.Job FfmpegTask
unfolding fill
fill_ffmpeg_job_buffer = fill (λ t. t.status) fetch_batch_size

-- The check of one active job: whether a refill is triggered, and the job. `pending_count` is
-- that of its row, `filling` whether a fill is running; `ensure` has made the buffer, if there
-- was none.
abbrev pub ensured : Option (List FfmpegTask) → List FfmpegTask
ensured none = []
ensured (some ch) = ch

unfoldable pub check_and_refill : ℕ → Bool → Buffer.Job FfmpegTask → Bool × Buffer.Job FfmpegTask
check_and_refill pending_count filling j =
    let ch = ensured j.channel in
    let opened = record j { channel = some ch } in
    let total = length j.ids in
    (
      ltb (length ch) buffer_low_water,
      if ltb 0 pending_count && length ch == 0 && not filling && ltb 0 total && leb total j.offset
          then record opened { offset = 0 }
          else opened,
    )

-- A job's buffer, as the handler of requests finds it.
pub record Buffered : Type 0 where
  pub job : ℕ
  pub channel : List FfmpegTask

-- The answer to a request: an error, a list of tasks, or no body at all.
pub data Reply : Type 0 where
  bad_request no_body : Reply
  tasks_given : List FfmpegTask → Reply

-- The inner loop, which goes on as long as there are enough tasks.
unfoldable pub receive : ℕ → List FfmpegTask → List FfmpegTask → List FfmpegTask × List FfmpegTask
receive limit tasks [] = (tasks, [])
receive limit tasks (t ∷ ch) =
    let rest = receive limit (tasks ++ t ∷ []) ch in
    if leb limit (length tasks) then rest else (tasks, t ∷ ch)

-- The loop over the jobs: the tasks, the buffers, and the jobs whose refill is triggered.
unfoldable pub visit_jobs :
    ℕ → List FfmpegTask → List Buffered → List FfmpegTask × (List Buffered × List ℕ)
unfolding receive
visit_jobs limit tasks [] = (tasks, ([], []))
visit_jobs limit tasks (b ∷ bs) =
    let got = receive limit tasks b.channel in
    let rest = visit_jobs limit got.0 bs in
    if leb limit (length tasks) then (tasks, (b ∷ bs, [])) else (
      rest.0,
      (
        record b { channel = got.1 } ∷ rest.1.0,
        if ltb (length b.channel) buffer_low_water then b.job ∷ rest.1.1 else rest.1.1,
      ),
    )

abbrev pub at_least_one : ℕ → ℕ
at_least_one limit = if limit == 0 then 1 else limit

-- The request is `none` where it cannot be parsed, and else its limit; a negative one counts as 0.
unfoldable pub acquire_ffmpeg_tasks : Option ℕ → List Buffered → Reply × (List Buffered × List ℕ)
unfolding visit_jobs
acquire_ffmpeg_tasks none bs = (bad_request, (bs, []))
acquire_ffmpeg_tasks (some limit) [] = (tasks_given [], ([], []))
acquire_ffmpeg_tasks (some limit) (b ∷ bs) =
    (no_body, (visit_jobs (at_least_one limit) [] (b ∷ bs)).1)
