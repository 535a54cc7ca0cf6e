-- ===== src/Ffmpeg/Tests.antt =====
-- An ffmpeg job with two tasks, and the theorems there.
use tmp_cf_ytb_admin.Base.{ℕ, ◌≡◌, refl, String, true, false, none, some, List, [], ◌∷◌, pos, ◌+ℤ◌}
use tmp_cf_ytb_admin.Models.{FfmpegTask, absent, parsed}
use tmp_cf_ytb_admin.Buffer
use tmp_cf_ytb_admin.Buffer.{fill, fill_loop, offer}
use tmp_cf_ytb_admin.Sharded.{zadd, set_at}
use tmp_cf_ytb_admin.Ffmpeg.{
  Job, Buffered, no_body, add_all, add_ffmpeg_tasks_to_job, fill_ffmpeg_job_buffer,
  check_and_refill, acquire_ffmpeg_tasks,
}
use tmp_cf_ytb_admin.Ffmpeg.Acquire.{acquire_ffmpeg_tasks-no_body}
use tmp_cf_ytb_admin.Ffmpeg.Update.{
  FfmpegJob, Server, internal_error, updated, batch_update_ffmpeg, loop, exec, sync_row, by_status,
  add_sizes,
}
use tmp_cf_ytb_admin.Ffmpeg.Batch.{Exact, batch_update_ffmpeg-Exact}
use tmp_cf_ytb_admin.Ffmpeg.Repeated.{MovedTwice, batch_update_ffmpeg-repeated}

abbrev task : ℕ → String → FfmpegTask
task k status = record {
  id = k;
  job_id = 3;
  s3_endpoint = "s3://store";
  s3_bucket = "b";
  s3_prefix = "in/";
  s3_upload_prefix = "out/";
  s3_ak = "";
  s3_sk = "";
  region = "";
  is_incremental = false;
  status = status;
  error_message = "";
  video_size = 10;
  audio_size = 2;
  worker_id = "";
  started_at = 0;
  completed_at = 0;
  created_at = 1;
  updated_at = 1;
  total_count = 0;
  success_count = 0;
  failed_count = 0;
}

abbrev job : Job
job = record { ids = []; details = λ k. absent; total_size_bytes = 0 }

added :
    (add_ffmpeg_tasks_to_job 3 9
      (record { ranged = true; written = true })
      (task 0 "PENDING" ∷ task 0 "PENDING" ∷ [])
      job).1.ids
    ≡ 3000000 ∷ 3000001 ∷ []
unfolding add_ffmpeg_tasks_to_job add_all zadd
added = refl

abbrev all_well : Buffer.Replies
all_well = record { lock = true; offset = true; range = true; fetch = true; save = true }

abbrev waiting : Buffer.Job FfmpegTask
waiting = record {
  ids = 7 ∷ 8 ∷ [];
  details = λ k. parsed (task k "PENDING");
  offset = 0;
  locked = false;
  channel = some [];
}

filled :
    (fill_ffmpeg_job_buffer all_well waiting).channel
    ≡ some (task 7 "PENDING" ∷ task 8 "PENDING" ∷ [])
unfolding fill_ffmpeg_job_buffer fill fill_loop offer
filled = refl

set_back : (check_and_refill 2 false (record waiting { offset = 2 })).1.offset ≡ 0
unfolding check_and_refill
set_back = refl

abbrev buffers : List Buffered
buffers = record { job = 4; channel = task 9 "PENDING" ∷ [] } ∷ []

abbrev buffer : Buffered
buffer = record { job = 3; channel = task 7 "PENDING" ∷ task 8 "PENDING" ∷ [] }

acquire_ffmpeg_tasks-no_body_example :
    acquire_ffmpeg_tasks (some 2) (buffer ∷ buffers) ≡ (no_body, (buffer ∷ buffers, 3 ∷ 4 ∷ []))
acquire_ffmpeg_tasks-no_body_example = acquire_ffmpeg_tasks-no_body 2 buffer buffers

abbrev row : FfmpegJob
row = record {
  total_count = pos 2;
  pending_count = pos 2;
  running_count = pos 0;
  success_count = pos 0;
  failed_count = pos 0;
  status = "PENDING";
  success_size_bytes = 0;
}

abbrev server : Server
server = record { tasks = λ k. parsed (task k "PENDING"); jobs = set_at 3 (some row) (λ j. none) }

abbrev reports : List FfmpegTask
reports = task 7 "RUNNING" ∷ task 8 "COMPLETED" ∷ []

counted :
    (batch_update_ffmpeg 9 (record { fetched = true; written = true }) (some reports) server).1.jobs
      3
    ≡ some (record row {
      pending_count = pos 0;
      running_count = pos 1;
      success_count = pos 1;
      status = "COMPLETED";
      success_size_bytes = 12;
    })
unfolding batch_update_ffmpeg loop exec sync_row by_status add_sizes ◌+ℤ◌
counted = refl

batch_update_ffmpeg-Exact_example :
    Exact 3
      (7 ∷ 8 ∷ [])
      (batch_update_ffmpeg 9
        (record { fetched = true; written = true })
        (some reports)
        server).1.tasks
      (batch_update_ffmpeg 9
        (record { fetched = true; written = true })
        (some reports)
        server).1.jobs
batch_update_ffmpeg-Exact_example =
    batch_update_ffmpeg-Exact 3 (7 ∷ 8 ∷ []) 9 (record { fetched = true; written = true }) reports
      server refl refl
      (
        record {
          existing = task 7 "PENDING";
          stored = refl;
          same_id = refl;
          of_job = refl;
          once = refl;
          plain = refl;
        },
        (
          record {
            existing = task 8 "PENDING";
            stored = refl;
            same_id = refl;
            of_job = refl;
            once = refl;
            plain = refl;
          },
          tt,
        ),
      )
      ((refl, tt), (tt, tt))
      (row, refl, record { pending = refl; running = refl; success = refl; failed = refl })

batch_update_ffmpeg-repeated_example :
    let first =
      batch_update_ffmpeg 9
        (record { fetched = true; written = false })
        (some (task 7 "RUNNING" ∷ []))
        server in
    let second =
      batch_update_ffmpeg 11
        (record { fetched = true; written = true })
        (some (task 7 "RUNNING" ∷ []))
        first.1 in
    (first.0 ≡ internal_error)
    × (second.0 ≡ updated)
    × ((after : FfmpegJob) × (second.1.jobs 3 ≡ some after)
        × MovedTwice "PENDING" "RUNNING" row after)
batch_update_ffmpeg-repeated_example =
    batch_update_ffmpeg-repeated 3 9 11 (task 7 "RUNNING") (task 7 "PENDING") row server refl refl
      refl refl refl
