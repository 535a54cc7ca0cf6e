-- ===== src/Youtube/Update.antt =====
-- `BatchUpdate`: the workers report new states of video tasks. The stored tasks are read in one
-- call, each update is merged into its task, and the writes are sent in one pipeline. The store is
-- a function from task ids to values; `carried` is how many commands of the pipeline Redis carries
-- out, and `now` is the time. A task can be written as JSON.
use tmp_cf_ytb_admin.Base.{
  ℕ, String, str_eq, Bool, false, not, ◌&&◌, ◌||◌, Option, List, [], ◌∷◌, ◌++◌, leb, ◌==◌,
  if◌then◌else◌, length, take,
}
use tmp_cf_ytb_admin.Models.{YoutubeTask, Stored, absent, malformed, parsed}
use tmp_cf_ytb_admin.Stats.{StatsBuffer, track_status_change}
use tmp_cf_ytb_admin.Youtube.{Cache, Queues, get_job_machine_name, set_queue}

abbrev pub is_empty : String → Bool
is_empty s = str_eq s ""

-- `if new != "" { old = new }`
abbrev pub or_keep : String → String → String
or_keep new old = if is_empty new then old else new

abbrev pub or_keep_size : ℕ → ℕ → ℕ
or_keep_size new old = if new == 0 then old else new

-- The guard after the assignments of URL, Title and VideoID.
abbrev pub preserve : String → String → String
preserve old new = if is_empty new && not (is_empty old) then old else new

abbrev pub restarts : String → Bool
restarts s = str_eq s "RUNNING" || str_eq s "PENDING" || str_eq s "METADATA_PROCESSING"

abbrev pub starts : String → Bool
starts s = str_eq s "RUNNING" || str_eq s "METADATA_PROCESSING"

abbrev pub ends : String → Bool
ends s = str_eq s "COMPLETED" || str_eq s "FAILED"

-- A time that is set once.
abbrev pub set_once : Bool → ℕ → ℕ → ℕ
set_once wanted now old = if wanted && old == 0 then now else old

unfoldable pub merge : ℕ → YoutubeTask → YoutubeTask → YoutubeTask
merge now u existing = record existing {
  status = or_keep u.status existing.status;
  error_message = if restarts u.status then "" else or_keep u.error_message existing.error_message;
  worker_id = or_keep u.worker_id existing.worker_id;
  is_download_fail =
      if restarts u.status then false else u.is_download_fail || existing.is_download_fail;
  url = preserve existing.url (or_keep u.url existing.url);
  audio_url = or_keep u.audio_url existing.audio_url;
  audio_size = or_keep_size u.audio_size existing.audio_size;
  video_url = or_keep u.video_url existing.video_url;
  video_size = or_keep_size u.video_size existing.video_size;
  title = preserve existing.title (or_keep u.title existing.title);
  video_id = preserve existing.video_id (or_keep u.video_id existing.video_id);
  updated_at = now;
  started_at = set_once (starts u.status) now existing.started_at;
  completed_at = set_once (ends u.status) now existing.completed_at;
}

-- What a Redis pipeline holds.
pub data Command : Type 0 where
  set_task : ℕ → YoutubeTask → Command
  add_member : ℕ → ℕ → Command
  push : String → ℕ → Command

-- What the process keeps in memory.
pub record Memory : Type 0 where
  pub stats : StatsBuffer
  pub cache : Cache

pub record Server : Type 0 where
  pub tasks : ℕ → Stored YoutubeTask
  pub members : List (ℕ × ℕ)
  pub downloads : Queues
  pub memory : Memory

module _ (machine_of : ℕ → Option String) (now : ℕ) (worker_machine : String) where
  -- The queue for a task whose metadata was fetched.
  unfoldable pub download_queue : Cache → ℕ → String × Cache
  download_queue cache job =
      let found = get_job_machine_name machine_of cache job in
      (
        if is_empty found.0
            then if is_empty worker_machine then "all" else worker_machine
            else found.0,
        found.1,
      )

  unfoldable pub wants_push : YoutubeTask → YoutubeTask → Bool
  wants_push u existing =
      let t = merge now u existing in
      str_eq u.status "METADATA_FETCHED"
      && not (str_eq existing.status "METADATA_FETCHED")
      && (not (is_empty t.audio_url) || not (is_empty t.video_url))

  abbrev tracked : YoutubeTask → YoutubeTask → StatsBuffer → StatsBuffer
  tracked u existing stats =
      let t = merge now u existing in
      if not (is_empty u.status) && not (t.job_id == 0)
      then (track_status_change stats t.job_id existing.status t.status).0
      else stats

  abbrev saving : YoutubeTask → List Command
  saving t = set_task t.id t ∷ (if t.job_id == 0 then [] else add_member t.job_id t.id ∷ [])

  -- One round of the loop: the memory afterwards, and the commands it adds to the pipeline.
  unfoldable pub process : YoutubeTask → Stored YoutubeTask → Memory → Memory × List Command
  unfolding download_queue wants_push
  process u absent m = (m, [])
  process u malformed m = (m, [])
  process u (parsed existing) m =
      let t = merge now u existing in
      let stats = tracked u existing m.stats in
      let queue = download_queue m.cache t.job_id in
      if wants_push u existing
      then (record { stats = stats; cache = queue.1 }, saving t ++ push queue.0 t.id ∷ [])
      else (record { stats = stats; cache = m.cache }, saving t)

  -- The loop; `before` holds the values that were read at the start.
  unfoldable pub process_all :
      (ℕ → Stored YoutubeTask) → List YoutubeTask → Memory → Memory × List Command
  unfolding process
  process_all before [] m = (m, [])
  process_all before (u ∷ us) m =
      let first = process u (before u.id) m in
      let rest = process_all before us first.0 in (rest.0, first.1 ++ rest.1)

abbrev pub write_task : ℕ → YoutubeTask → (ℕ → Stored YoutubeTask) → ℕ → Stored YoutubeTask
write_task k t tasks j = if j == k then parsed t else tasks j

unfoldable pub carry_out : Command → Server → Server
carry_out (set_task k t) s = record s { tasks = write_task k t s.tasks }
carry_out (add_member job k) s = record s { members = (job, k) ∷ s.members }
carry_out (push q k) s = record s { downloads = set_queue q (s.downloads q ++ k ∷ []) s.downloads }

unfoldable pub exec : List Command → Server → Server
unfolding carry_out
exec [] s = s
exec (c ∷ cs) s = exec cs (carry_out c s)

pub data Body : Type 0 where
  unreadable invalid : Body
  with_machine : List YoutubeTask → String → Body
  bare : List YoutubeTask → Body

pub data Response : Type 0 where
  bad_request no_updates fetch_failed exec_failed updated : Response

module _ (machine_of : ℕ → Option String) (now : ℕ) (fetched : Bool) (carried : ℕ) where
  unfoldable pub update_tasks : String → List YoutubeTask → Server → Response × Server
  unfolding process_all exec
  update_tasks worker_machine updates s =
      let done = process_all machine_of now worker_machine s.tasks updates s.memory in
      if not fetched then (fetch_failed, s) else (
        if leb (length done.1) carried then updated else exec_failed,
        exec (take carried done.1) (record s { memory = done.0 }),
      )

  -- An object without updates is read again as an array, which it is not.
  unfoldable pub batch_update : Body → Server → Response × Server
  unfolding update_tasks
  batch_update unreadable s = (bad_request, s)
  batch_update invalid s = (bad_request, s)
  batch_update (with_machine [] machine) s = (bad_request, s)
  batch_update (with_machine (u ∷ us) machine) s = update_tasks machine (u ∷ us) s
  batch_update (bare []) s = (no_updates, s)
  batch_update (bare (u ∷ us)) s = update_tasks "" (u ∷ us) s
