-- ===== src/Transfer/Process.antt =====
-- backend/worker_transfer/transfer.go, `processTask`: the work on one task, from the check of its
-- retries to the report of its end. What the server, the stores and the transfer service answer
-- is an argument, and so is the clock. The wait of a large file for its turn comes before the
-- copy and changes nothing else.
pub mod Ends
pub mod Done
mod Tests
use tmp_cf_ytb_admin.Base.{
  ℕ, String, Bool, true, false, not, ◌&&◌, Option, none, some, List, [], ◌∷◌, ltb, leb, ◌==◌,
  if◌then◌else◌,
}
use tmp_cf_ytb_admin.Transfer.Retry.{WorkerTask, update_task_status_with_retry}
use tmp_cf_ytb_admin.Transfer.Copy.{Surroundings, Request, transfer_file}

-- The answer to HeadObject: an error, no length, which panics, or a length.
pub data Head : Type 0 where
  head_failed no_length : Head
  has_length : ℕ → Head

pub record Settings : Type 0 where
  pub max_retry_count : ℕ
  pub multipart_threshold : ℕ
  pub min_part_size : ℕ

-- The job is `none` where `getJobInfo` fails, and else whether the source is to be deleted.
pub record World : Type 0 where
  pub stamp : String
  pub job : Option Bool
  pub is_source_found : Bool
  pub has_dst_client : Bool
  pub head : Head
  pub has_src_url : Bool
  pub copy : Surroundings
  pub order : List ℕ
  pub error_text : String

-- The reports to the server, the results that the adaptive concurrency counts, whether the source
-- is asked to be deleted, and what the destination is asked.
pub record Outcome : Type 0 where
  pub reports : List WorkerTask
  pub results : List Bool
  pub is_deleted : Bool
  pub requests : List Request

module _ (cfg : Settings) (w : World) (t : WorkerTask) where
  -- The report of a task with no retry left carries no source and no size.
  abbrev pub gave_up : Outcome
  gave_up = record {
    reports = record t { src = ""; size = 0; status = "FAILED" } ∷ [];
    results = false ∷ [];
    is_deleted = false;
    requests = [];
  }

  abbrev pub failed : String → List Request → Outcome
  failed msg asked = record {
    reports = update_task_status_with_retry w.stamp t "FAILED" msg ∷ [];
    results = false ∷ [];
    is_deleted = false;
    requests = asked;
  }

  abbrev pub completed : String → Bool → List Request → Outcome
  completed msg deleted asked = record {
    reports = update_task_status_with_retry w.stamp t "COMPLETED" msg ∷ [];
    results = true ∷ [];
    is_deleted = deleted;
    requests = asked;
  }

  -- The copy of a file of a known size.
  unfoldable pub copy_file : Bool → ℕ → Outcome
  copy_file delete_source size =
      let out = transfer_file cfg.multipart_threshold cfg.min_part_size w.copy size w.order in
      if not w.has_src_url
      then failed "Construct Src URL failed" []
      else if out.0
      then completed "" delete_source out.1
      else failed w.error_text out.1

  abbrev pub copy_after : Bool → Head → Outcome
  copy_after delete_source head_failed = failed "HeadObject failed" []
  copy_after delete_source no_length = failed "Panic" []
  copy_after delete_source (has_length n) = copy_file delete_source n

  -- The size is looked up where the task does not say it.
  abbrev pub size_head : Head
  size_head = if t.size == 0 then w.head else has_length t.size

  abbrev pub work_on : Option Bool → Outcome
  work_on none = failed w.error_text []
  work_on (some delete_source) =
      if ltb 0 t.retry_count && not w.is_source_found
      then completed "Source object no longer exists, skipping" false []
      else if not w.has_dst_client
      then failed "Dst client init failed" []
      else copy_after delete_source size_head

  unfoldable pub process_task : Outcome
  unfolding copy_file
  process_task = if leb cfg.max_retry_count t.retry_count then gave_up else work_on w.job
