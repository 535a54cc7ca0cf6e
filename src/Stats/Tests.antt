-- ===== src/Stats/Tests.antt =====
-- Runs of the statistics at concrete inputs, and their theorems there.
use tmp_cf_ytb_admin.Base.{ℕ, ◌≡◌, refl, String, true, some, List, [], ◌∷◌, pos, ◌+ℤ◌, get, put}
use tmp_cf_ytb_admin.Stats.{
  pending, running, completed, failed, get_bucket, delta_of, track_tx_status_change, JobRow, Table,
  flush_stats, flush_tx_stats,
}
use tmp_cf_ytb_admin.Stats.Census.{World, census, change, changes, counter, counter-changes}
use tmp_cf_ytb_admin.Stats.Flush.{IsExact, flush-IsExact, flush-stays_pending}

-- Two tasks of job 7 and one of job 8; nothing is buffered.
abbrev start : World
start = record {
  tasks =
      record { job = 7; status = "PENDING" }
      ∷ record { job = 8; status = "PENDING" }
      ∷ record { job = 7; status = "RUNNING" }
      ∷ [];
  buffer = [];
}

-- Both tasks of job 7 are completed, the first by way of RUNNING.
abbrev work : List (ℕ × String)
work = (0, "RUNNING") ∷ (2, "COMPLETED") ∷ (0, "COMPLETED") ∷ []

abbrev row : String → JobRow
row s = record {
  pending_count = pos 1;
  running_count = pos 1;
  success_count = pos 0;
  failed_count = pos 0;
  status = s;
}

abbrev table : String → Table
table s = (7, row s) ∷ []

row-IsExact : (s : String) → IsExact (row s) 7 start.tasks
unfolding get_bucket
row-IsExact s pending = refl
row-IsExact s running = refl
row-IsExact s completed = refl
row-IsExact s failed = refl

counter-changes_example :
    counter completed (delta_of (changes start work).buffer 7)
      +ℤ pos (census completed 7 start.tasks)
    ≡ counter completed (delta_of start.buffer 7)
      +ℤ pos (census completed 7 (changes start work).tasks)
counter-changes_example = counter-changes start work 7 completed

flush-IsExact_example :
    ((r' : JobRow) × (get 7
          (flush_stats (λ j. true) (changes start work).buffer (table "RUNNING")).1
        ≡ some r')
      × IsExact r' 7 (changes start work).tasks)
    × ((r' : JobRow) × (get 7
            (flush_tx_stats (λ j. true) (changes start work).buffer (table "RUNNING")).1
          ≡ some r')
        × IsExact r' 7 (changes start work).tasks)
flush-IsExact_example =
    flush-IsExact (λ j. true) start work (table "RUNNING") 7 (row "RUNNING") refl
      (unfold get in refl) refl (row-IsExact "RUNNING")

done_running : census running 7 (changes start work).tasks ≡ 0
unfolding changes change get_bucket
done_running = refl

flush-stays_pending_example :
    (r' : JobRow) × (get 7 (flush_stats (λ j. true) (changes start work).buffer (table "PENDING")).1
      ≡ some r')
    × (r'.status ≡ "PENDING")
flush-stays_pending_example =
    flush-stays_pending (λ j. true) start work (table "PENDING") 7 (row "PENDING") refl
      (unfold get in refl) refl (row-IsExact "PENDING") refl done_running

abbrev finished : JobRow
finished = record {
  pending_count = pos 0;
  running_count = pos 0;
  success_count = pos 2;
  failed_count = pos 0;
  status = "COMPLETED";
}

flushed :
    get 7 (flush_stats (λ j. true) (changes start work).buffer (table "RUNNING")).1 ≡ some finished
unfolding flush_stats changes change track_tx_status_change get_bucket get put ◌+ℤ◌
flushed = refl
