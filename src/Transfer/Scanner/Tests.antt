-- ===== src/Transfer/Scanner/Tests.antt =====
-- A scan of two pages, of which the first is answered at the second attempt.
use tmp_cf_ytb_admin.Base.{
  ℕ, ◌≡◌, refl, String, str_eq, Bool, true, ◌&&◌, Option, none, some, map, List, [], ◌∷◌, ◌==◌,
  if◌then◌else◌,
}
use tmp_cf_ytb_admin.Transfer.Scanner.{
  Object, ScannedJob, TransferTaskInput, finished, process_job, scan_pages, list_page, scan_page,
  scan_object, is_left_out, send_batches,
}
use tmp_cf_ytb_admin.Sharded.Sources.{sharded, sharded-IsLawful}
use tmp_cf_ytb_admin.Sharded.{Shards}
use tmp_cf_ytb_admin.Models.{absent}
use tmp_cf_ytb_admin.SourceSet.{add_batches}
use tmp_cf_ytb_admin.Transfer.Scanner.Added.{Adds, to_input, process_job-Adds}
use tmp_cf_ytb_admin.Transfer.Scanner.Sent.{selected, objects_of}

abbrev job : ScannedJob
job = record {
  is_incremental = true;
  periodic_interval = 60;
  last_scan_time = some 5;
  include_pattern = "";
  exclude_pattern = "*.tmp";
  status = "RUNNING";
}

abbrev object : String → ℕ → Object
object key time = record { key = key; size = some 3; last_modified = time }

abbrev answers : ℕ → ℕ → Option (List Object)
answers page attempt =
    if page == 1
    then (if attempt == 0
        then none
        else some (object "a/" 9 ∷ object "a/x" 9 ∷ object "a/old" 1 ∷ []))
    else some (object "b.tmp" 9 ∷ object "c" 9 ∷ [])

abbrev matches : String → String → Option Bool
matches pattern name = some (str_eq pattern "*.tmp" && str_eq name "b.tmp")

abbrev base : String → String
base name = name

abbrev folder : String → Bool
folder key = str_eq key "a/"

input : String → TransferTaskInput
input key = record { src = key; size = 3 }

sent :
    (process_job matches base folder answers (λ p. none) true true 2 job).1.0
    ≡ (input "a/x" ∷ input "c" ∷ []) ∷ []
unfolding process_job scan_pages list_page scan_page scan_object is_left_out send_batches input
sent = refl

ends : (process_job matches base folder answers (λ p. none) true true 2 job).0 ≡ finished
unfolding process_job scan_pages list_page scan_page scan_object is_left_out
ends = refl

abbrev hash : String → ℕ
hash src = 7

abbrev nothing : Shards
nothing = record {
  buckets = λ b. [];
  details = λ k. absent;
  dedup = λ h. [];
  offset = 0;
  max_id = 0;
  rows = [];
  channel = none;
  total_count = 0;
  pending_count = 0;
  total_size_bytes = 0;
  consecutive_idle_scans = 1;
  status = "PENDING";
}

process_job-Adds_example :
    let batches =
      map
        (map to_input)
        (process_job matches base folder answers (λ p. none) true true 2 job).1.0 in
    let wanted =
      selected matches base folder true (some 5) job (objects_of matches base folder answers 2 1) in
    Adds
      (sharded hash 2 9)
      (sharded-IsLawful hash 2 9).0
      (map to_input wanted)
      nothing
      (add_batches (sharded hash 2 9) batches nothing)
    × ((add_batches (sharded hash 2 9) batches (add_batches (sharded hash 2 9) batches nothing).1).0
        ≡ 0)
process_job-Adds_example =
    process_job-Adds (sharded hash 2 9) (sharded-IsLawful hash 2 9).0 matches base folder answers
      true true 2 job nothing ends
