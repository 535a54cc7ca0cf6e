-- ===== src/Youtube/Tests.antt =====
-- Runs of the handlers of video tasks, and their theorems at concrete inputs.
use tmp_cf_ytb_admin.Base.{
  ℕ, ◌≤◌, ◌≡◌, ◌≢◌, refl, String, eq_iff, true, false, Option, some, List, [], ◌∷◌, arith, length,
  get, put, All, sym, ap,
}
use tmp_cf_ytb_admin.Models.{YoutubeTask, Stored, parsed}
use tmp_cf_ytb_admin.Stats.{track_status_change, get_bucket}
use tmp_cf_ytb_admin.Youtube.{Cache, get_job_machine_name}
use tmp_cf_ytb_admin.Youtube.Update.{
  merge, Server, process, process_all, download_queue, wants_push, update_tasks, updated,
}
use tmp_cf_ytb_admin.Youtube.Merge.{one_by_one, IsKeyed, update_tasks-one_by_one}
use tmp_cf_ytb_admin.Youtube.Acquire.{Desk, AcquireRequest, drain, acquire_metadata}
use tmp_cf_ytb_admin.Youtube.Acquire.Limits.{IsPending, acquire_metadata-returns}
use tmp_cf_ytb_admin.Youtube.Acquire.Machines.{drain-foreign}

abbrev blank : ℕ → YoutubeTask
blank k = record {
  id = k;
  job_id = 7;
  url = "";
  audio_url = "";
  audio_size = 0;
  video_url = "";
  video_size = 0;
  status = "";
  title = "";
  video_id = "";
  error_message = "";
  worker_id = "";
  is_download_fail = false;
  started_at = 0;
  completed_at = 0;
  created_at = 0;
  updated_at = 0;
}

abbrev waiting_task : ℕ → YoutubeTask
waiting_task k = record (blank k) {
  url = "https://example.org/v";
  status = "PENDING";
  created_at = 1;
}

-- A worker has found where the audio is.
abbrev fetched : ℕ → YoutubeTask
fetched k = record (blank k) { status = "METADATA_FETCHED"; audio_url = "https://example.org/a" }

-- The store has all tasks of job 7, waiting.
abbrev server : Server
server = record {
  tasks = λ k. parsed (waiting_task k);
  members = [];
  downloads = λ q. [];
  memory = record { stats = []; cache = [] };
}

abbrev task_id : Stored YoutubeTask → ℕ → ℕ
task_id (parsed t) k = t.id
task_id _ k = k

server-IsKeyed : IsKeyed server.tasks
server-IsKeyed k t e = sym (ap (λ v. task_id v k) e)

abbrev machines : ℕ → Option String
machines job = some "m1"

abbrev batch : List YoutubeTask
batch = fetched 3 ∷ fetched 4 ∷ []

commands_few : length (process_all machines 5 "m2" server.tasks batch server.memory).1 ≤ 10
unfolding process_all process download_queue wants_push merge get_job_machine_name
    track_status_change get_bucket get put
commands_few = omega arith

update_tasks-one_by_one_example :
    update_tasks machines 5 true 10 "m2" batch server
    ≡ (updated, one_by_one machines 5 "m2" server batch)
update_tasks-one_by_one_example =
    update_tasks-one_by_one machines 5 10 "m2" batch server server-IsKeyed
      ((omega arith, tt), (tt, tt)) commands_few

abbrev desk : Desk
desk = record {
  downloads = λ q. 3 ∷ 4 ∷ [];
  retries = λ q. 5 ∷ [];
  tasks = λ k. parsed (waiting_task k);
  buffers = (7, waiting_task 1 ∷ []) ∷ [];
  cache = [];
  refills = [];
}

abbrev request : AcquireRequest
request = record { machine_name = "m1"; stage = "metadata"; limit = 2 }

acquire_metadata-returns_example :
    (out : List YoutubeTask × Desk) × (acquire_metadata machines
        (λ q. true)
        (λ k. true)
        9
        (7 ∷ [])
        request
        desk
      ≡ some out)
    × (length out.0 ≤ 2)
    × All IsPending out.0
acquire_metadata-returns_example =
    acquire_metadata-returns machines (λ q. true) (λ k. true) 9 (7 ∷ []) request desk
      ((refl, tt), tt)

m1_named : ◌≢◌ {A = String} "m1" ""
m1_named = ground (arith, eq_iff "m1" "")

m2_other : ◌≢◌ {A = String} "m2" "m1"
m2_other = ground (arith, eq_iff "m2" "m1")

m2_named : ◌≢◌ {A = String} "m2" ""
m2_named = ground (arith, eq_iff "m2" "")

abbrev cache : Cache
cache = (7, "m2") ∷ []

drain-foreign_example :
    drain machines "m1" 2 cache (waiting_task 1 ∷ waiting_task 2 ∷ []) ≡ ([], ([], cache))
drain-foreign_example =
    drain-foreign machines "m1" 1 7 cache (waiting_task 1 ∷ waiting_task 2 ∷ []) "m2" m1_named
      (unfold get in refl) m2_named m2_other (refl, (refl, tt))
