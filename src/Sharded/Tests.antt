-- ===== src/Sharded/Tests.antt =====
-- Runs of the sharded jobs, and their theorems at concrete inputs.
use tmp_cf_ytb_admin.Base.{
  ℕ, ◌≤◌, ◌<◌, ◌≡◌, refl, String, none, some, List, [], ◌∷◌, true, arith, length, zero, suc,
}
use tmp_cf_ytb_admin.Models.{TransferTask, absent, parsed}
use tmp_cf_ytb_admin.Buffer.{buffer_size}
use tmp_cf_ytb_admin.Sharded.{
  Shards, Input, has_row, task_of, tasks_of, add_sharded_transfer_tasks, fill_sharded_tx_buffer,
  range_by_score,
}
use tmp_cf_ytb_admin.Sharded.RoundTrip.{added_well, all_well, fill-add}
use tmp_cf_ytb_admin.Sharded.Sources.{sharded, HasTask, sharded-IsLawful}
use tmp_cf_ytb_admin.SourceSet.{IsLawful, IsStoring}
use tmp_cf_ytb_admin.Sharded.Fill.{fill-skips}
use tmp_cf_ytb_admin.Sharded.Rows.{add_sharded_transfer_tasks-taken}

abbrev hash : String → ℕ
hash src = 7

abbrev start : Shards
start = record {
  buckets = λ b. [];
  details = λ k. absent;
  dedup = λ h. [];
  offset = 0;
  max_id = 0;
  rows = [];
  channel = none;
  total_count = 0;
  pending_count = 0;
  total_size_bytes = 0;
  consecutive_idle_scans = 1;
  status = "COMPLETED";
}

abbrev inputs : List Input
inputs = record { src = "a/1"; size = 3 } ∷ record { src = "a/2"; size = 4 } ∷ []

fill-add_example :
    ((fill_sharded_tx_buffer all_well 2
        (add_sharded_transfer_tasks hash 2 9 added_well inputs start).1).channel
      ≡ some (tasks_of 2 9 1 inputs))
    × ((fill_sharded_tx_buffer all_well 2
          (add_sharded_transfer_tasks hash 2 9 added_well inputs start).1).offset
        ≡ 2)
fill-add_example =
    fill-add hash 2 9 inputs start refl (omega arith) (omega arith) (omega arith) tt (omega arith)

-- A buffer with as many tasks as it takes.
abbrev copies : ℕ → List TransferTask
copies zero = []
copies (suc n) = task_of 2 9 1 (record { src = "a/1"; size = 3 }) ∷ copies n

length-copies : (n : ℕ) → length (copies n) ≡ n
length-copies zero = refl
length-copies (suc n) = omega (arith, length-copies n)

abbrev busy : Shards
busy = record start {
  buckets = λ b. 5 ∷ [];
  details = λ k. parsed (task_of 2 9 k (record { src = "a/5"; size = 3 }));
  max_id = 5;
  channel = some (copies buffer_size);
}

fill-skips_example :
    fill_sharded_tx_buffer all_well 2 busy
    ≡ record busy { channel = some (copies buffer_size); offset = 5 }
fill-skips_example =
    fill-skips 2 busy (copies buffer_size) 5 [] (task_of 2 9 5 (record { src = "a/5"; size = 3 }))
      (omega arith) (unfold range_by_score in refl) (omega arith) refl refl refl
      (rw (length-copies buffer_size) (omega arith))

-- Job 1 has its two tasks in the table.
abbrev shared : Shards
shared = record start { rows = tasks_of 1 8 1 inputs }

taken : (k : ℕ) → 0 < k → k ≤ 2 → has_row k shared.rows ≡ true
taken k lo hi = ground (arith, lo, hi)

add_sharded_transfer_tasks-taken_example :
    ((add_sharded_transfer_tasks hash 2 9 added_well inputs shared).0 ≡ some 2)
    × ((add_sharded_transfer_tasks hash 2 9 added_well inputs shared).1.rows ≡ shared.rows)
    × ((add_sharded_transfer_tasks hash 2 9 added_well inputs shared).1.total_count ≡ 2)
add_sharded_transfer_tasks-taken_example =
    add_sharded_transfer_tasks-taken hash 2 9 inputs shared (omega arith) taken

sharded-IsLawful_example :
    IsLawful (sharded hash 2 9) × IsStoring (sharded hash 2 9) (HasTask hash 2 9)
sharded-IsLawful_example = sharded-IsLawful hash 2 9
