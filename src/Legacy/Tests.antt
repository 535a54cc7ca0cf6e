-- ===== src/Legacy/Tests.antt =====
-- Runs of the jobs of the old kind, and their theorems at concrete inputs.
use tmp_cf_ytb_admin.Base.{All, ◌≡◌, ◌⊎◌, refl, none, true, false, List, [], ◌∷◌, map, arith}
use tmp_cf_ytb_admin.Models.{parsed, absent}
use tmp_cf_ytb_admin.Sharded.{Input, unique_inputs, zadd, insert_row, tasks_of}
use tmp_cf_ytb_admin.Sharded.Writes.{ids_from}
use tmp_cf_ytb_admin.SourceSet.{IsLawful, IsStoring}
use tmp_cf_ytb_admin.Legacy.{
  Job, Replies, start_id, write_task, write_tasks, create_rows, add_legacy_transfer_tasks,
  add_transfer_tasks_to_job,
}
use tmp_cf_ytb_admin.Legacy.Ids.{
  add_transfer_tasks_to_job-keeps, add_transfer_tasks_to_job-overwrites,
}
use tmp_cf_ytb_admin.Legacy.Sources.{all_well, legacy, HasTask, legacy-IsLawful}

abbrev empty : Job
empty = record {
  tasks = [];
  details = λ k. absent;
  dedup = [];
  rows = [];
  total_count = 0;
  pending_count = 0;
  total_size_bytes = 0;
  consecutive_idle_scans = 2;
  status = "COMPLETED";
}

abbrev inputs : List Input
inputs =
    record { src = "a/1"; size = 3 }
    ∷ record { src = "a/2"; size = 4 }
    ∷ record { src = "a/1"; size = 3 }
    ∷ []

abbrev others : List Input
others = record { src = "b/1"; size = 5 } ∷ record { src = "a/2"; size = 4 } ∷ []

abbrev filled : Job
filled = record empty {
  tasks = 3000000 ∷ 3000001 ∷ [];
  details = λ k. parsed record {
    id = k;
    job_id = 3;
    src = "a";
    size = 3;
    status = "COMPLETED";
    error_message = "";
    worker_id = "w";
    started_at = 1;
    completed_at = 2;
    created_at = 0;
    updated_at = 2;
    retry_count = 0;
    last_retry_time = "";
  };
  dedup = "a/1" ∷ "a/2" ∷ [];
  total_count = 2;
}

abbrev unread : Replies
unread = record {
  checked = true;
  ranged = false;
  written = true;
  carried = λ k c. true;
  inserted = λ k. true;
}

added : (add_transfer_tasks_to_job 3 9 all_well inputs empty).1.tasks ≡ 3000000 ∷ 3000001 ∷ []
unfolding add_transfer_tasks_to_job add_legacy_transfer_tasks unique_inputs start_id write_tasks
    write_task zadd
added = refl

added_next :
    (add_transfer_tasks_to_job 3 9 all_well others filled).1.tasks
    ≡ 3000000 ∷ 3000001 ∷ 3000002 ∷ []
unfolding add_transfer_tasks_to_job add_legacy_transfer_tasks unique_inputs start_id write_tasks
    write_task zadd
added_next = refl

rows :
    map (λ t. t.id) (add_transfer_tasks_to_job 3 9 all_well inputs empty).1.rows
    ≡ 3000000 ∷ 3000001 ∷ []
unfolding add_transfer_tasks_to_job add_legacy_transfer_tasks unique_inputs start_id create_rows
    insert_row
rows = refl

legacy-IsLawful_example : IsLawful (legacy 3 9) × IsStoring (legacy 3 9) (HasTask 3 9)
legacy-IsLawful_example = legacy-IsLawful 3 9

add_transfer_tasks_to_job-keeps_example :
    All
      (λ k. (add_transfer_tasks_to_job 3 9 all_well others filled).1.details k ≡ filled.details k)
      (3000000 ∷ 3000001 ∷ [])
    × (((add_transfer_tasks_to_job 3 9 all_well others filled).0 ≡ none)
        ⊎ ((add_transfer_tasks_to_job 3 9 all_well others filled).1.tasks
            ≡ 3000000 ∷ 3000001 ∷ 3000002 ∷ []))
unfolding add_transfer_tasks_to_job add_legacy_transfer_tasks unique_inputs start_id
add_transfer_tasks_to_job-keeps_example =
    add_transfer_tasks_to_job-keeps 3 9 all_well others filled refl (omega arith)

add_transfer_tasks_to_job-overwrites_example :
    (map (add_transfer_tasks_to_job 3 9 unread others filled).1.details (ids_from 3000000 1)
      ≡ map parsed (tasks_of 3 9 3000000 (record { src = "b/1"; size = 5 } ∷ [])))
    × ((add_transfer_tasks_to_job 3 9 unread others filled).1.tasks ≡ filled.tasks)
    × ((add_transfer_tasks_to_job 3 9 unread others filled).1.total_count ≡ 3)
unfolding unique_inputs
add_transfer_tasks_to_job-overwrites_example =
    add_transfer_tasks_to_job-overwrites 3 9 unread others filled 2 refl refl refl refl
      (omega arith) (omega arith)
