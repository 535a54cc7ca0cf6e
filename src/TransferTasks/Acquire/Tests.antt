-- ===== src/TransferTasks/Acquire/Tests.antt =====
-- A request at concrete buffers, and the theorems about it.
use tmp_cf_ytb_admin.Base.{
  ℕ, ◌+◌, ◌≤◌, ◌<◌, ◌≡◌, refl, true, false, none, [], ◌∷◌, arith, ltb, length, count, get, put,
}
use tmp_cf_ytb_admin.Models.{TransferTask, absent}
use tmp_cf_ytb_admin.TransferTasks.{Server}
use tmp_cf_ytb_admin.TransferTasks.Acquire.{
  Desk, large_file_threshold_bytes, select_tasks, hand_out, mark_transfer_tasks_running, mark_loop,
  round, rounds,
}
use tmp_cf_ytb_admin.TransferTasks.Acquire.Counts.{total, Fits, select_tasks-keeps, hand_out-lost}

abbrev small : TransferTask
small = record {
  id = 5;
  job_id = 2;
  src = "a/b";
  size = 10;
  status = "PENDING";
  error_message = "";
  worker_id = "";
  started_at = 0;
  completed_at = 0;
  created_at = 1;
  updated_at = 1;
  retry_count = 0;
  last_retry_time = "";
}

abbrev large : ℕ → TransferTask
large n = record small { id = n; job_id = 3; size = large_file_threshold_bytes }

-- Job 2 has one small file, job 3 two large ones and a small one.
abbrev desk : Desk
desk = record {
  buffers =
      (2, small ∷ []) ∷ (3, large 6 ∷ large 7 ∷ record small { id = 8; job_id = 3 } ∷ []) ∷ [];
  requests = 0;
  refills = [];
  large = [];
}

fits : Fits desk.buffers
fits = (omega arith, (omega arith, record {}))

-- Of the large files only the first is given.
given :
    (select_tasks (λ ids. ids) 10 (2 ∷ 3 ∷ []) desk).0
    ≡ small ∷ large 6 ∷ record small { id = 8; job_id = 3 } ∷ []
unfolding select_tasks rounds round get put
given = refl

select_tasks-keeps_example :
    (count (λ t. ltb t.size 100) (select_tasks (λ ids. ids) 10 (2 ∷ 3 ∷ []) desk).0
        + total (λ t. ltb t.size 100) (select_tasks (λ ids. ids) 10 (2 ∷ 3 ∷ []) desk).1.buffers
      ≡ total (λ t. ltb t.size 100) desk.buffers)
    × Fits (select_tasks (λ ids. ids) 10 (2 ∷ 3 ∷ []) desk).1.buffers
    × (length (select_tasks (λ ids. ids) 10 (2 ∷ 3 ∷ []) desk).0 ≤ 10)
select_tasks-keeps_example =
    select_tasks-keeps (λ ids. ids) (λ t. ltb t.size 100) 10 (2 ∷ 3 ∷ []) desk fits

abbrev server : Server
server = record { tasks = λ k. absent; rows = []; jobs = []; stats = [] }

-- PostgreSQL does not take the row.
failed :
    (hand_out
      (λ j. true)
      (λ k. false)
      true
      9
      "w1"
      (2 ∷ 3 ∷ [])
      (select_tasks (λ ids. ids) 10 (2 ∷ 3 ∷ []) desk)
      server).0
    ≡ none
unfolding select_tasks rounds round mark_transfer_tasks_running mark_loop get put
failed = refl

hand_out-lost_example :
    total
      (λ t. true)
      (hand_out
        (λ j. true)
        (λ k. false)
        true
        9
        "w1"
        (2 ∷ 3 ∷ [])
        (select_tasks (λ ids. ids) 10 (2 ∷ 3 ∷ []) desk)
        server).1.0.buffers
    < total (λ t. true) desk.buffers
hand_out-lost_example =
    hand_out-lost (λ j. true) (λ k. false) true 9 "w1" (λ ids. ids) 10 (2 ∷ 3 ∷ []) desk server fits
      failed
