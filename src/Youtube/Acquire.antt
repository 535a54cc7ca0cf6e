-- ===== src/Youtube/Acquire.antt =====
-- `AcquireTasks`: a worker asks for video tasks. For a download it gets them from the download
-- queues; for metadata first from the retry queues and then from the buffers of the jobs. Each
-- worker looks into the queue of its machine and then into the shared one. Arguments: `reachable`
-- says of a queue whether LPOP works, `standard` of a task id whether the stored value has the
-- standard time format, `order` is the order in which Go walks the map of buffers. A limit below
-- 1, negative ones included, is 0 here.
pub mod Limits
pub mod Machines
use tmp_cf_ytb_admin.Base.{
  ℕ, zero, suc, ◌+◌, ◌-◌, String, str_eq, Bool, true, false, not, ◌&&◌, ◌||◌, Option, none, some,
  List, [], ◌∷◌, ◌++◌, ltb, leb, ◌==◌, if◌then◌else◌, length, get, put,
}
use mathlib.Core.Option
use tmp_cf_ytb_admin.Models.{YoutubeTask, Stored, absent, malformed, parsed}
use tmp_cf_ytb_admin.Buffer.{buffer_low_water}
use tmp_cf_ytb_admin.Youtube.{Cache, Queues, set_queue, should_process_task}
use tmp_cf_ytb_admin.Youtube.Update.{is_empty, write_task}

pub record Desk : Type 0 where
  pub downloads : Queues
  pub retries : Queues
  pub tasks : ℕ → Stored YoutubeTask
  pub buffers : List (ℕ × List YoutubeTask)
  pub cache : Cache
  -- The jobs whose buffer is to be refilled.
  pub refills : List ℕ

abbrev pub queue_names : String → List String
queue_names machine = if is_empty machine then "all" ∷ [] else machine ∷ "all" ∷ []

-- What a round of LPOP calls ends with.
pub data Pop : Type 0 where
  empty broken : Pop
  popped : ℕ → Pop

abbrev pub contains : ℕ → List ℕ → Bool
contains k [] = false
contains k (j ∷ js) = j == k || contains k js

module _ (reachable : String → Bool) where
  -- The queues in turn, until one gives an id; `last` is what the last one said.
  unfoldable pub pop_first : List String → Pop → Queues → Pop × Queues
  pop_first [] last queues = (last, queues)
  pop_first (q ∷ qs) last queues = elim (reachable q) [
    | false ↦ pop_first qs broken queues
    | true ↦ elim (queues q) [
      | [] ↦ pop_first qs empty queues
      | k ∷ ks ↦ (popped k, set_queue q ks queues)
    ]
  ]

-- What one round of a loop does: it ends the loop, gives nothing, or gives a task.
pub data Outcome : Type 0 where
  stopped : Outcome
  skipped : List ℕ → Desk → Outcome
  taken : YoutubeTask → List ℕ → Desk → Outcome

module _ (reachable : String → Bool) (standard : ℕ → Bool) (names : List String) where
  abbrev pub fetch : ℕ → Stored YoutubeTask → List ℕ → Desk → Outcome
  fetch k absent seen d = skipped seen d
  fetch k malformed seen d = skipped seen d
  fetch k (parsed t) seen d = if standard k then taken t seen d else skipped seen d

  abbrev pub download_popped : Pop → List ℕ → Desk → Outcome
  download_popped empty seen d = stopped
  download_popped broken seen d = skipped seen d
  download_popped (popped k) seen d =
      if contains k seen then skipped seen d else fetch k (d.tasks k) (k ∷ seen) d

  unfoldable pub download_step : List ℕ → Desk → Outcome
  unfolding pop_first
  download_step seen d =
      let got = pop_first reachable names empty d.downloads in
      download_popped got.0 seen (record d { downloads = got.1 })

  -- The first argument is how many rounds are left of the limit.
  unfoldable pub download_loop : ℕ → List ℕ → Desk → List YoutubeTask × Desk
  unfolding download_step
  download_loop zero seen d = ([], d)
  download_loop (suc rounds) seen d = elim (download_step seen d) [
    | stopped ↦ ([], d)
    | skipped seen' d' ↦ download_loop rounds seen' d'
    | taken t seen' d' ↦ let rest = download_loop rounds seen' d' in (t ∷ rest.0, rest.1)
  ]

module _ (reachable : String → Bool) (now : ℕ) (names : List String) where
  -- A task that is not PENDING is reset, and stored again.
  abbrev pub reset : YoutubeTask → YoutubeTask
  reset t = record t { status = "PENDING"; worker_id = ""; error_message = ""; updated_at = now }

  abbrev pub check_status : ℕ → Stored YoutubeTask → List ℕ → Desk → Outcome
  check_status k absent seen d = skipped seen d
  check_status k malformed seen d = skipped seen d
  check_status k (parsed t) seen d =
      if str_eq t.status "COMPLETED"
      then skipped seen d
      else if str_eq t.status "PENDING"
      then taken t seen d
      else taken (reset t) seen (record d { tasks = write_task k (reset t) d.tasks })

  abbrev pub retry_popped : Pop → List ℕ → Desk → Outcome
  retry_popped empty seen d = stopped
  retry_popped broken seen d = stopped
  retry_popped (popped k) seen d =
      if contains k seen then skipped seen d else check_status k (d.tasks k) (k ∷ seen) d

  unfoldable pub retry_step : List ℕ → Desk → Outcome
  unfolding pop_first
  retry_step seen d =
      let got = pop_first reachable names empty d.retries in
      retry_popped got.0 seen (record d { retries = got.1 })

  -- `room` is how many tasks are missing to the limit; `none` means that the fuel is used up.
  unfoldable pub retry_loop : ℕ → ℕ → List ℕ → Desk → Option (List YoutubeTask × Desk)
  unfolding retry_step
  retry_loop zero room seen d = none
  retry_loop (suc fuel) zero seen d = some ([], d)
  retry_loop (suc fuel) (suc room) seen d = elim (retry_step seen d) [
    | stopped ↦ some ([], d)
    | skipped seen' d' ↦ retry_loop fuel (suc room) seen' d'
    | taken t seen' d' ↦ Option.map (λ r. (t ∷ r.0, r.1)) (retry_loop fuel room seen' d')
  ]

module _ (machine_of : ℕ → Option String) (machine : String) where
  -- Whether the worker keeps a task that it receives from a buffer.
  abbrev pub keeps : Cache → YoutubeTask → Bool × Cache
  keeps cache t =
      if is_empty machine
      then (true, cache)
      else should_process_task machine_of cache t.job_id machine

  -- The loop over one buffer: the tasks kept, what is left in the buffer, the cache.
  unfoldable pub drain :
      ℕ → Cache → List YoutubeTask → List YoutubeTask × (List YoutubeTask × Cache)
  drain zero cache ch = ([], (ch, cache))
  drain (suc room) cache [] = ([], ([], cache))
  drain (suc room) cache (t ∷ ch) = elim (keeps cache t).0 [
    | true ↦ let rest = drain room (keeps cache t).1 ch in (t ∷ rest.0, rest.1)
    | false ↦ drain (suc room) (keeps cache t).1 ch
  ]

  abbrev pub drain_job : ℕ → ℕ → Option (List YoutubeTask) → Desk → List YoutubeTask × Desk
  drain_job room job none d = ([], d)
  drain_job room job (some ch) d =
      let got = drain room d.cache ch in
      (
        got.0,
        record d {
          buffers = put job got.1.0 d.buffers;
          cache = got.1.1;
          refills = if ltb (length ch) buffer_low_water then job ∷ d.refills else d.refills;
        },
      )

  -- The loop over the jobs.
  unfoldable pub drain_all : ℕ → List ℕ → Desk → List YoutubeTask × Desk
  unfolding drain
  drain_all room [] d = ([], d)
  drain_all zero (job ∷ jobs) d = ([], d)
  drain_all (suc m) (job ∷ jobs) d =
      let got = drain_job (suc m) job (get job d.buffers) d in
      let rest = drain_all (suc m - length got.0) jobs got.1 in (got.0 ++ rest.0, rest.1)

pub record AcquireRequest : Type 0 where
  pub machine_name : String
  pub stage : String
  pub limit : ℕ

-- How many ids wait in the queues.
abbrev pub waiting : List String → Queues → ℕ
waiting [] queues = 0
waiting (q ∷ qs) queues = length (queues q) + waiting qs queues

abbrev pub limit_of : AcquireRequest → ℕ
limit_of r = if r.limit == 0 then 10 else r.limit

module _ (machine_of : ℕ → Option String) (reachable : String → Bool) (standard : ℕ → Bool)
    (now : ℕ) (order : List ℕ) where
  abbrev pub fill_up : AcquireRequest → List YoutubeTask × Desk → List YoutubeTask × Desk
  fill_up r (tasks, d) =
      if leb (limit_of r) (length tasks)
      then (tasks, d)
      else (let more = drain_all machine_of r.machine_name (limit_of r - length tasks) order d in
          (tasks ++ more.0, more.1))

  unfoldable pub acquire_metadata : AcquireRequest → Desk → Option (List YoutubeTask × Desk)
  unfolding retry_loop drain_all
  acquire_metadata r d =
      let names = queue_names r.machine_name in
      Option.map (fill_up r)
        (retry_loop reachable now names (suc (waiting names d.retries)) (limit_of r) [] d)

  unfoldable pub acquire_download : AcquireRequest → Desk → List YoutubeTask × Desk
  unfolding download_loop
  acquire_download r d =
      download_loop reachable standard (queue_names r.machine_name) (limit_of r) [] d

  -- A body that is no request is turned away before this.
  unfoldable pub acquire_tasks : AcquireRequest → Desk → Option (List YoutubeTask × Desk)
  unfolding acquire_metadata acquire_download
  acquire_tasks r d =
      if str_eq r.stage "download" then some (acquire_download r d) else acquire_metadata r d
