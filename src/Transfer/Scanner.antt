-- ===== src/Transfer/Scanner.antt =====
-- backend/worker_transfer/scanner.go, `processJob`: the objects of the source are listed page by
-- page, those that the job selects become tasks, and these are sent in batches of 100. The answer
-- to each request for a page is the argument `next_page`, and what a refresh of the job after a
-- page gives is `refresh`, `none` where it is not due or fails. `path_match` and `path_base` are
-- path.Match, `none` being its error, and path.Base; `is_folder` says whether a key ends in "/".
pub mod Sent
pub mod Added
mod Tests
use text.Mathlib.Text.{find?}
use tmp_cf_ytb_admin.Base.{
  ℕ, zero, suc, ◌+◌, ◌*◌, ◌^◌, ◌/◌, String, str_eq, Bool, true, false, not, ◌&&◌, ◌||◌, Option,
  none, some, List, [], ◌∷◌, ◌++◌, ltb, leb, ◌==◌, if◌then◌else◌, length,
}

pub record Object : Type 0 where
  pub key : String
  pub size : Option ℕ
  pub last_modified : ℕ

-- What the scanner reads of a job.
pub record ScannedJob : Type 0 where
  pub is_incremental : Bool
  pub periodic_interval : ℕ
  pub last_scan_time : Option ℕ
  pub include_pattern : String
  pub exclude_pattern : String
  pub status : String

pub record TransferTaskInput : Type 0 where
  pub src : String
  pub size : ℕ

-- What a scan has found so far.
pub record Scan : Type 0 where
  pub tasks : List TransferTaskInput
  pub skipped : ℕ
  pub last_key : Option String

-- How a scan ends.
pub data Outcome : Type 0 where
  not_started scanned_before not_connected failed aborted finished : Outcome

-- The batches of the goroutine that sends the tasks; the first argument is the batch so far.
unfoldable pub send_batches :
    List TransferTaskInput → List TransferTaskInput → List (List TransferTaskInput)
send_batches batch [] = if length batch == 0 then [] else batch ∷ []
send_batches batch (t ∷ ts) =
    let full = batch ++ t ∷ [] in
    let sent = send_batches [] ts in
    let held = send_batches full ts in if leb 100 (length full) then full ∷ sent else held

abbrev pub max_retries : ℕ
max_retries = 5

module _ (path_match : String → String → Option Bool) (path_base : String → String)
    (is_folder : String → Bool) where
  abbrev pub has : Option ℕ → Bool
  has none = false
  has (some n) = true

  abbrev pub match_pattern : String → String → Option Bool
  match_pattern pattern name =
      if has (find? pattern "/")
      then path_match pattern name
      else path_match pattern (path_base name)

  abbrev pub is_match : Option Bool → Bool
  is_match none = false
  is_match (some m) = m

  abbrev pub is_mismatch : Option Bool → Bool
  is_mismatch none = false
  is_mismatch (some m) = not m

  -- Whether the patterns of the job leave an object out.
  unfoldable pub is_left_out : ScannedJob → String → Bool
  is_left_out job key =
      (not (str_eq job.include_pattern "") && is_mismatch (match_pattern job.include_pattern key))
      || (not (str_eq job.exclude_pattern "") && is_match (match_pattern job.exclude_pattern key))

  abbrev pub size_of : Option ℕ → ℕ
  size_of none = 0
  size_of (some n) = n

  abbrev pub is_before : ℕ → Option ℕ → Bool
  is_before t none = false
  is_before t (some last) = ltb t last

  -- One object. `incremental` and `since` were fixed at the start of the scan.
  unfoldable pub scan_object : Bool → Option ℕ → ScannedJob → Object → Scan → Scan
  unfolding is_left_out
  scan_object incremental since job obj s =
      let seen = record s { last_key = some obj.key } in
      if is_folder obj.key
      then s
      else if incremental && is_before obj.last_modified since
      then record seen { skipped = s.skipped + 1 }
      else if is_left_out job obj.key
      then seen
      else record seen { tasks = s.tasks ++ record { src = obj.key; size = size_of obj.size } ∷ [] }

  unfoldable pub scan_page : Bool → Option ℕ → ScannedJob → List Object → Scan → Scan
  unfolding scan_object
  scan_page incremental since job [] s = s
  scan_page incremental since job (obj ∷ objs) s =
      scan_page incremental since job objs (scan_object incremental since job obj s)

  module _ (next_page : ℕ → ℕ → Option (List Object)) (refresh : ℕ → Option ScannedJob) where
    -- The answer to a page, asked for at most so many times more.
    unfoldable pub list_page : ℕ → ℕ → ℕ → Option (List Object)
    list_page page retry_count zero = none
    list_page page retry_count (suc left) = elim (next_page page retry_count) [
      | none ↦ list_page page (retry_count + 1) left
      | some objs ↦ some objs
    ]

    abbrev pub is_active : ScannedJob → Bool
    is_active job = str_eq job.status "RUNNING" || str_eq job.status "PENDING"

    abbrev pub refreshed : ScannedJob → ScannedJob → ScannedJob
    refreshed latest job = record job {
      include_pattern = latest.include_pattern;
      exclude_pattern = latest.exclude_pattern;
      is_incremental = latest.is_incremental;
    }

    -- So many pages from one on.
    unfoldable pub scan_pages : Bool → Option ℕ → ℕ → ℕ → ScannedJob → Scan → Outcome × Scan
    unfolding list_page scan_page
    scan_pages incremental since zero page job s = (finished, s)
    scan_pages incremental since (suc n) page job s = elim (list_page page 0 max_retries) [
      | none ↦ (failed, s)
      | some objs ↦
          let s' = scan_page incremental since job objs s in
          elim (refresh page) [
            | none ↦ scan_pages incremental since n (page + 1) job s'
            | some latest ↦ elim (is_active latest) [
              | false ↦ (aborted, s')
              | true ↦ scan_pages incremental since n (page + 1) (refreshed latest job) s'
            ]
          ]
    ]

    abbrev pub no_tasks : Scan
    no_tasks = record { tasks = []; skipped = 0; last_key = none }

    abbrev pub is_incremental_scan : ScannedJob → Bool
    is_incremental_scan job =
        job.is_incremental && ltb 0 job.periodic_interval && has job.last_scan_time

    -- How the scan ends, the batches that are sent, and the scan. `started` and `connected` say
    -- whether the status can be set and the store be reached; there are so many pages.
    unfoldable pub process_job :
        Bool → Bool → ℕ → ScannedJob → Outcome × (List (List TransferTaskInput) × Scan)
    unfolding scan_pages send_batches
    process_job started connected pages job =
        let out = scan_pages (is_incremental_scan job) job.last_scan_time pages 1 job no_tasks in
        if not started
        then (not_started, ([], no_tasks))
        else if not job.is_incremental && has job.last_scan_time
        then (scanned_before, ([], no_tasks))
        else if not connected
        then (not_connected, ([], no_tasks))
        else (out.0, (send_batches [] out.1.tasks, out.1))
