-- ===== src/Models.antt =====
-- backend/go-app/models/tasks.go: the tasks as Redis keeps them. A time is a number of
-- nanoseconds, and 0 is Go's zero time; ids, sizes and counts are not negative.
use tmp_cf_ytb_admin.Base.{ℕ, String, Bool}

pub record YoutubeTask : Type 0 where
  pub id : ℕ
  pub job_id : ℕ
  pub url : String
  pub audio_url : String
  pub audio_size : ℕ
  pub video_url : String
  pub video_size : ℕ
  pub status : String
  pub title : String
  pub video_id : String
  pub error_message : String
  pub worker_id : String
  pub is_download_fail : Bool
  pub started_at : ℕ
  pub completed_at : ℕ
  pub created_at : ℕ
  pub updated_at : ℕ

pub record TransferTask : Type 0 where
  pub id : ℕ
  pub job_id : ℕ
  pub src : String
  pub size : ℕ
  pub status : String
  pub error_message : String
  pub worker_id : String
  pub started_at : ℕ
  pub completed_at : ℕ
  pub created_at : ℕ
  pub updated_at : ℕ
  pub retry_count : ℕ
  pub last_retry_time : String

-- What `MGet` and `Unmarshal` make of a key: no value, a value that is no task, or a task.
pub data Stored (A : Type 0) : Type 0 where
  absent malformed : Stored A
  parsed : A → Stored A

pub record FfmpegTask : Type 0 where
  pub id : ℕ
  pub job_id : ℕ
  pub s3_endpoint : String
  pub s3_bucket : String
  pub s3_prefix : String
  pub s3_upload_prefix : String
  pub s3_ak : String
  pub s3_sk : String
  pub region : String
  pub is_incremental : Bool
  pub status : String
  pub error_message : String
  pub video_size : ℕ
  pub audio_size : ℕ
  pub worker_id : String
  pub started_at : ℕ
  pub completed_at : ℕ
  pub created_at : ℕ
  pub updated_at : ℕ
  pub total_count : ℕ
  pub success_count : ℕ
  pub failed_count : ℕ
