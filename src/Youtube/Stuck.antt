-- ===== src/Youtube/Stuck.antt =====
-- `scanStuckYoutubeTasks`: every ten minutes the tasks of each active job are read page by page,
-- and those that are worked on and were created long ago are made pending again and queued. The
-- writes of a page are sent in one pipeline, which is taken to write nothing when it fails. Which
-- calls for the page at an offset succeed is an argument.
pub mod Reset
pub mod Scan
mod Tests
use tmp_cf_ytb_admin.Base.{
  ℕ, zero, suc, ◌+◌, ◌-◌, ◌*◌, String, str_eq, Bool, true, false, not, ◌&&◌, ◌||◌, Option, none,
  some, List, [], ◌∷◌, ◌++◌, ltb, ◌==◌, if◌then◌else◌, length, take, drop,
}
use tmp_cf_ytb_admin.Models.{YoutubeTask, Stored, absent, malformed, parsed}
use tmp_cf_ytb_admin.Stats.{StatsBuffer, track_status_change}
use tmp_cf_ytb_admin.Youtube.{Cache, Queues, get_metadata_queue_name, set_queue}
use tmp_cf_ytb_admin.Youtube.Update.{write_task}

-- Three hours in nanoseconds.
abbrev pub stuck_after : ℕ
stuck_after = 10800000000000

abbrev pub batch_size : ℕ
batch_size = 1000

pub record Server : Type 0 where
  pub tasks : ℕ → Stored YoutubeTask
  pub queues : Queues
  pub stats : StatsBuffer
  pub cache : Cache

pub record Replies : Type 0 where
  pub ranged : ℕ → Bool
  pub fetched : ℕ → Bool
  pub executed : ℕ → Bool

unfoldable pub is_stuck : ℕ → YoutubeTask → Bool
is_stuck now t =
    (str_eq t.status "RUNNING" || str_eq t.status "METADATA_PROCESSING")
    && ltb stuck_after (now - t.created_at)

unfoldable pub reset_stuck : ℕ → YoutubeTask → YoutubeTask
reset_stuck now t = record t {
  status = "PENDING";
  worker_id = "";
  error_message = "Reset by stuck monitor";
  updated_at = now;
  is_download_fail = false;
}

-- What a page adds to the pipeline, a task and its queue at a time, and the memory.
pub record Page : Type 0 where
  pub resets : List (YoutubeTask × String)
  pub stats : StatsBuffer
  pub cache : Cache

module _ (machine_of : ℕ → Option String) (now : ℕ) where
  abbrev pub with_reset : YoutubeTask → Page → Page
  with_reset t p =
      let queue = get_metadata_queue_name machine_of p.cache t.job_id in
      record {
        resets = p.resets ++ (reset_stuck now t, queue.0) ∷ [];
        stats = (track_status_change p.stats t.job_id t.status "PENDING").0;
        cache = queue.1;
      }

  abbrev pub visit : Stored YoutubeTask → Page → Page
  visit absent p = p
  visit malformed p = p
  visit (parsed t) p = if is_stuck now t then with_reset t p else p

  unfoldable pub visit_all : List (Stored YoutubeTask) → Page → Page
  unfolding is_stuck reset_stuck
  visit_all [] p = p
  visit_all (v ∷ vs) p = visit_all vs (visit v p)

  abbrev pub apply_reset : YoutubeTask × String → Server → Server
  apply_reset (t, queue) s = record s {
    tasks = write_task t.id t s.tasks;
    queues = set_queue queue (s.queues queue ++ t.id ∷ []) s.queues;
  }

  unfoldable pub apply_resets : List (YoutubeTask × String) → Server → Server
  apply_resets [] s = s
  apply_resets (r ∷ rs) s = apply_resets rs (apply_reset r s)

  abbrev pub values_of : (ℕ → Stored YoutubeTask) → List ℕ → List (Stored YoutubeTask)
  values_of tasks [] = []
  values_of tasks (k ∷ ks) = tasks k ∷ values_of tasks ks

  unfoldable pub scan_page : Bool → List ℕ → Server → Server
  unfolding visit_all apply_resets
  scan_page executed ids s =
      let page =
        visit_all (values_of s.tasks ids)
          (record { resets = []; stats = s.stats; cache = s.cache }) in
      let remembered = record s { stats = page.stats; cache = page.cache } in
      if executed then apply_resets page.resets remembered else remembered

  -- The pages of a job from an offset on; the fuel is one more than the number of its ids.
  unfoldable pub scan_pages : Replies → ℕ → List ℕ → ℕ → Server → Server
  unfolding scan_page
  scan_pages r zero ids offset s = s
  scan_pages r (suc fuel) ids offset s =
      let page = take batch_size (drop offset ids) in
      let skipped = scan_pages r fuel ids (offset + batch_size) s in
      let scanned = scan_page (r.executed offset) page s in
      let next = scan_pages r fuel ids (offset + batch_size) scanned in
      if not (r.ranged offset) || length page == 0
      then s
      else if not (r.fetched offset)
      then skipped
      else if ltb (length page) batch_size
      then scanned
      else next

  -- The ids of each active job.
  unfoldable pub scan_stuck_youtube_tasks : (ℕ → Replies) → List (ℕ × List ℕ) → Server → Server
  unfolding scan_pages
  scan_stuck_youtube_tasks r [] s = s
  scan_stuck_youtube_tasks r ((job, ids) ∷ jobs) s =
      scan_stuck_youtube_tasks r jobs (scan_pages (r job) (suc (length ids)) ids 0 s)
