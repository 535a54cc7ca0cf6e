-- ===== src/Youtube/Stuck/Tests.antt =====
-- A scan of a job with two tasks that were created long ago.
use tmp_cf_ytb_admin.Base.{ℕ, ◌≡◌, refl, sym, ap, Option, none, [], ◌∷◌, String, false, true}
use tmp_cf_ytb_admin.Models.{YoutubeTask, Stored, absent, malformed, parsed}
use tmp_cf_ytb_admin.Youtube.Stuck.{Server, is_stuck, scan_pages}
use tmp_cf_ytb_admin.Youtube.Stuck.Reset.{IsKeyed}
use tmp_cf_ytb_admin.Youtube.Stuck.Scan.{always, scan_pages-settle}

abbrev task : ℕ → YoutubeTask
task k = record {
  id = k;
  job_id = 7;
  url = "u";
  audio_url = "";
  audio_size = 0;
  video_url = "";
  video_size = 0;
  status = "RUNNING";
  title = "";
  video_id = "";
  error_message = "";
  worker_id = "w1";
  is_download_fail = false;
  started_at = 10800000000001;
  completed_at = 0;
  created_at = 1;
  updated_at = 1;
}

abbrev server : Server
server = record { tasks = λ k. parsed (task k); queues = λ q. []; stats = []; cache = [] }

abbrev no_machine : ℕ → Option String
no_machine job = none

id_of : Stored YoutubeTask → ℕ
id_of absent = 0
id_of malformed = 0
id_of (parsed t) = t.id

server-IsKeyed : IsKeyed server.tasks
unfolding id_of
server-IsKeyed k t e = sym (ap id_of e)

started_just_now : is_stuck 10800000000002 (task 5) ≡ true
unfolding is_stuck
started_just_now = refl

scan_pages-settle_example :
    (scan_pages no_machine 10800000000002
        (always no_machine 10800000000002)
        3
        (5 ∷ 6 ∷ [])
        0
        server).tasks
      5
    ≡ parsed (record (task 5) {
      status = "PENDING";
      worker_id = "";
      error_message = "Reset by stuck monitor";
      updated_at = 10800000000002;
    })
scan_pages-settle_example =
    scan_pages-settle no_machine 10800000000002 (5 ∷ 6 ∷ []) server 5 server-IsKeyed
