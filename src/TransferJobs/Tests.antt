-- ===== src/TransferJobs/Tests.antt =====
-- Runs of the handlers of transfer jobs, and their theorems at concrete inputs.
use tmp_cf_ytb_admin.Base.{
  ℕ, ◌≡◌, ◌≢◌, refl, String, eq_iff, true, false, none, some, List, [], ◌∷◌, arith, pos, All,
}
use tmp_cf_ytb_admin.TransferJobs.{
  TransferJob, Tasks, UpdateJobStatusRequest, get_transfer_job_activity_counts, apply_request,
  or_value, stop_transfer_job, update_transfer_job_status,
}
use tmp_cf_ytb_admin.TransferJobs.Scans.{
  IsIdle, IsOver, report, report-restarts, update_transfer_job_status-completed,
}

abbrev job : String → TransferJob
job status = record {
  is_incremental = true;
  last_scan_time = none;
  last_scanned_key = none;
  status = status;
  start_time = some 5;
  end_time = none;
  duration_seconds = pos 0;
  execution_count = 4;
  consecutive_idle_scans = 0;
  total_count = 9;
  result_message = "";
}

abbrev found : ℕ → UpdateJobStatusRequest
found n = record {
  status = "RUNNING";
  last_scan_time = some 7;
  last_scanned_key = none;
  result_message = "";
  start_time = none;
  end_time = none;
  total_count = none;
  inc_execution = true;
  scan_discovered_count = some n;
}

running_open : ◌≢◌ {A = String} "RUNNING" "COMPLETED"
running_open = ground (arith, eq_iff "RUNNING" "COMPLETED")

abbrev scans : List (Tasks × UpdateJobStatusRequest)
scans = ([], found 0) ∷ ([], found 0) ∷ []

scans-IsIdle : All (IsIdle true 2) scans
unfolding get_transfer_job_activity_counts
scans-IsIdle = (((refl, refl), refl), (((refl, refl), refl), tt))

report-restarts_example :
    ((stop_transfer_job (λ s. true) 2 [] (job "RUNNING")).1.status ≡ "STOPPED")
    × ((report true 2 [] (found 3) (stop_transfer_job (λ s. true) 2 [] (job "RUNNING")).1).status
        ≢ "STOPPED")
report-restarts_example = report-restarts true 2 [] [] (found 3) (job "RUNNING") (refl, refl)

abbrev once : TransferJob
once = record (job "RUNNING") { is_incremental = false }

completed :
    (update_transfer_job_status true (λ s. true) 2 [] (some (found 0)) once).1.status ≡ "COMPLETED"
unfolding update_transfer_job_status apply_request get_transfer_job_activity_counts
completed = refl

update_transfer_job_status-completed_example :
    (or_value (found 0).scan_discovered_count 0 ≡ 0) × IsOver 2 []
update_transfer_job_status-completed_example =
    update_transfer_job_status-completed true (λ s. true) 2 [] (found 0) once (refl, refl) refl
      running_open completed
