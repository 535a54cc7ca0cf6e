-- ===== src/Buffer/Tests.antt =====
-- Runs of the buffers at concrete inputs, and their theorems there.
use tmp_cf_ytb_admin.Base.{ℕ, ◌≡◌, refl, String, false, some, List, [], ◌∷◌, ◌==◌, if◌then◌else◌}
use tmp_cf_ytb_admin.Models.{YoutubeTask, TransferTask, Stored, absent, parsed}
use tmp_cf_ytb_admin.Buffer.{Replies, Job, fill, fill_loop}
use tmp_cf_ytb_admin.Buffer.Delivery.{
  World, Action, fills, receives, act, run, OnceEach, pendings, run-OnceEach,
}
use tmp_cf_ytb_admin.Buffer.Progress.{all_ok}

abbrev video : ℕ → String → YoutubeTask
video i s = record {
  id = i;
  job_id = 3;
  url = "u";
  audio_url = "";
  audio_size = 0;
  video_url = "";
  video_size = 0;
  status = s;
  title = "";
  video_id = "";
  error_message = "";
  worker_id = "";
  is_download_fail = false;
  started_at = 0;
  completed_at = 0;
  created_at = 1;
  updated_at = 1;
}

-- Four ids: a pending task, one that is gone, one that is running, a pending one.
abbrev stored : ℕ → Stored YoutubeTask
stored i =
    if i == 11
    then absent
    else if i == 12
    then parsed (video 12 "RUNNING")
    else parsed (video i "PENDING")

abbrev job : Job YoutubeTask
job = record {
  ids = 10 ∷ 11 ∷ 12 ∷ 13 ∷ [];
  details = stored;
  offset = 0;
  locked = false;
  channel = some [];
}

abbrev world : World YoutubeTask
world = record { job = job; received = [] }

abbrev lost_fetch : Replies
lost_fetch = record all_ok { fetch = false }

abbrev actions : List Action
actions = fills lost_fetch ∷ fills all_ok ∷ receives ∷ fills all_ok ∷ receives ∷ []

world_ends :
    (run (λ t. t.status) 100 world actions).received ≡ video 10 "PENDING" ∷ video 13 "PENDING" ∷ []
unfolding run act fill fill_loop
world_ends = refl

run-OnceEach_example :
    OnceEach (λ t. t.status) (run (λ (t : YoutubeTask). t.status) 100 world actions)
run-OnceEach_example =
    run-OnceEach (λ t. t.status) 100 world actions
      ((refl, refl), ((refl, refl), (tt, ((refl, refl), (tt, tt))))) (unfold pendings in refl)

abbrev old_job : Job TransferTask
old_job = record {
  ids = 5 ∷ [];
  details = λ i. absent;
  offset = 0;
  locked = false;
  channel = some [];
}
