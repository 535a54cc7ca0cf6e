-- ===== src/Transfer/Process/Tests.antt =====
-- A task that is copied in one call, a retry whose source is gone, and the theorems there.
use tmp_cf_ytb_admin.Base.{◌<◌, ◌≡◌, ◌↔◌, ◌⊎◌, refl, Bool, true, false, some, [], ◌∷◌}
use tmp_cf_ytb_admin.Transfer.Retry.{WorkerTask}
use tmp_cf_ytb_admin.Transfer.Copy.{got, Surroundings, transfer_file}
use tmp_cf_ytb_admin.Transfer.Process.{Settings, World, has_length, copy_file, process_task}
use tmp_cf_ytb_admin.Transfer.Process.Ends.{
  IsCopied, IsGone, IsReported, process_task-IsReported, process_task-deleted,
}
use tmp_cf_ytb_admin.Transfer.Process.Done.{process_task-results}

abbrev cfg : Settings
cfg = record { max_retry_count = 3; multipart_threshold = 100; min_part_size = 50 }

abbrev store : Surroundings
store = record {
  is_addressed = true;
  service = λ c. got "e";
  upload = some "u";
  has_slot = λ n. true;
  is_completed = true;
}

abbrev world : World
world = record {
  stamp = "1970-01-01T00:00:05Z";
  job = some true;
  is_source_found = true;
  has_dst_client = true;
  head = has_length 8;
  has_src_url = true;
  copy = store;
  order = [];
  error_text = "timeout";
}

abbrev task : WorkerTask
task = record {
  id = 5;
  job_id = 2;
  src = "a";
  size = 0;
  status = "RUNNING";
  retry_count = 0;
  last_retry_time = "";
}

abbrev retried : WorkerTask
retried = record task { retry_count = 1 }

abbrev gone : World
gone = record world { is_source_found = false }

skipped : (process_task cfg gone retried).results ≡ true ∷ []
unfolding process_task copy_file transfer_file
skipped = refl

process_task-IsReported_example : IsReported cfg gone retried (process_task cfg gone retried)
process_task-IsReported_example = process_task-IsReported cfg gone retried

process_task-deleted_example : (world.job ≡ some true) × IsCopied cfg world task
process_task-deleted_example =
    process_task-deleted cfg world task (unfold process_task copy_file transfer_file in refl)

process_task-results_example : ((process_task cfg gone retried).results ≡ true ∷ []) ↔ (
    (1 < 3)
    × ((delete_source : Bool) × (gone.job ≡ some delete_source))
    × (IsGone cfg gone retried ⊎ ((¬ (IsGone cfg gone retried)) × IsCopied cfg gone retried)))
process_task-results_example = process_task-results cfg gone retried
