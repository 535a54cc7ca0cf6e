-- ===== src/Sharded.antt =====
-- backend/go-app/handlers/task_handler.go, the transfer jobs whose tasks are kept in shards:
-- `addShardedTransferTasks` behind `AddTransferTasksToJob`, and `fillShardedTxBuffer`. Of a job
-- Redis has a sorted set of task ids for each bucket of ids, a stored value for each id, the
-- sources already known, spread over shards by a hash, the id that was read last and the largest
-- id given out; PostgreSQL has the table of the tasks of all jobs, whose key is the id. The hash
-- of hash/fnv is the argument `fnv32`. Which calls succeed is an argument; tasks can be written
-- as JSON.
pub mod Fill
pub mod Writes
pub mod RoundTrip
pub mod Rows
pub mod Fresh
pub mod Sources
mod Tests
use tmp_cf_ytb_admin.Base.{
  ℕ, zero, suc, ◌+◌, ◌-◌, ◌*◌, ◌/◌, ◌%◌, String, str_eq, Bool, true, false, not, ◌&&◌, ◌||◌, Option,
  none, some, List, [], ◌∷◌, ◌++◌, map, ltb, leb, ◌==◌, if◌then◌else◌, length, take, keep,
}
use tmp_cf_ytb_admin.Models.{TransferTask, Stored, absent, malformed, parsed}
use tmp_cf_ytb_admin.Buffer.{buffer_size, tx_fetch_batch_size, offer}

abbrev pub dedup_shards : ℕ
dedup_shards = 256

abbrev pub task_bucket_size : ℕ
task_bucket_size = 50000

pub record Shards : Type 0 where
  pub buckets : ℕ → List ℕ
  pub details : ℕ → Stored TransferTask
  pub dedup : ℕ → List String
  pub offset : ℕ
  pub max_id : ℕ
  pub rows : List TransferTask
  pub channel : Option (List TransferTask)
  pub total_count : ℕ
  pub pending_count : ℕ
  pub total_size_bytes : ℕ
  pub consecutive_idle_scans : ℕ
  pub status : String

-- The number that ends the key of a bucket, and of a shard.
unfoldable pub get_task_bucket_key : ℕ → ℕ
get_task_bucket_key task = task / task_bucket_size

unfoldable pub get_dedup_shard_key : (String → ℕ) → String → ℕ
get_dedup_shard_key fnv32 src = fnv32 src % dedup_shards

-- ZADD with the id as its score, and ZRANGEBYSCORE from an id on with a count.
unfoldable pub zadd : ℕ → List ℕ → List ℕ
zadd k [] = k ∷ []
zadd k (j ∷ js) = if ltb k j then k ∷ j ∷ js else if k == j then j ∷ js else j ∷ zadd k js

unfoldable pub range_by_score : ℕ → List ℕ → List ℕ
range_by_score start ids = take tx_fetch_batch_size (keep (leb start) ids)

module _ {ℓ} {A : Type ℓ} where
  abbrev pub set_at : ℕ → A → (ℕ → A) → ℕ → A
  set_at k a f j = if k == j then a else f j

pub record Input : Type 0 where
  pub src : String
  pub size : ℕ

abbrev pub contains : String → List String → Bool
contains x [] = false
contains x (y ∷ ys) = str_eq y x || contains x ys

-- The inputs without those whose source was seen before.
unfoldable pub unique_inputs : List String → List Input → List Input
unique_inputs seen [] = []
unique_inputs seen (i ∷ is) =
    let rest = unique_inputs (i.src ∷ seen) is in
    if contains i.src seen then unique_inputs seen is else i ∷ rest

-- Whether the checks, the counter and the writes succeed. Of a pipeline that fails, Redis has
-- carried out some commands, each given by its task and its place among those for the task.
pub record AddReplies : Type 0 where
  pub checked : Bool
  pub numbered : Bool
  pub written : Bool
  pub carried : ℕ → ℕ → Bool

module _ (job_id now : ℕ) where
  abbrev pub task_of : ℕ → Input → TransferTask
  task_of k i = record {
    id = k;
    job_id = job_id;
    src = i.src;
    size = i.size;
    status = "PENDING";
    error_message = "";
    worker_id = "";
    started_at = 0;
    completed_at = 0;
    created_at = now;
    updated_at = now;
    retry_count = 0;
    last_retry_time = "";
  }

  abbrev pub tasks_of : ℕ → List Input → List TransferTask
  tasks_of start [] = []
  tasks_of start (i ∷ is) = task_of start i ∷ tasks_of (start + 1) is

abbrev pub sum_sizes : List Input → ℕ
sum_sizes [] = 0
sum_sizes (i ∷ is) = i.size + sum_sizes is

-- INSERT … ON CONFLICT (id) DO NOTHING, into the table in the order of its ids.
abbrev pub has_row : ℕ → List TransferTask → Bool
has_row k [] = false
has_row k (r ∷ rs) = r.id == k || has_row k rs

abbrev pub place_row : TransferTask → List TransferTask → List TransferTask
place_row t [] = t ∷ []
place_row t (r ∷ rs) = let rest = place_row t rs in if ltb t.id r.id then t ∷ r ∷ rs else r ∷ rest

unfoldable pub insert_row : TransferTask → List TransferTask → List TransferTask
insert_row t rows = if has_row t.id rows then rows else place_row t rows

unfoldable pub insert_rows : List TransferTask → List TransferTask → List TransferTask
unfolding insert_row
insert_rows [] rows = rows
insert_rows (t ∷ ts) rows = insert_rows ts (insert_row t rows)

-- The statistics of the job; both statements come to this.
abbrev pub count_in : List Input → Shards → Shards
count_in new s = record s {
  total_count = s.total_count + length new;
  pending_count = s.pending_count + length new;
  total_size_bytes = s.total_size_bytes + sum_sizes new;
  consecutive_idle_scans = 0;
  status =
      if str_eq s.status "COMPLETED"
        || str_eq s.status "PHASEDCOMPLETED"
        || str_eq s.status "FAILED"
      then "PENDING"
      else s.status;
}

module _ (fnv32 : String → ℕ) (job_id now : ℕ) where
  -- The three writes for a task.
  unfoldable pub write_task : TransferTask → Shards → Shards
  unfolding get_task_bucket_key get_dedup_shard_key zadd
  write_task t s =
      let bucket = get_task_bucket_key t.id in
      let shard = get_dedup_shard_key fnv32 t.src in
      record s {
        details = set_at t.id (parsed t) s.details;
        buckets = set_at bucket (zadd t.id (s.buckets bucket)) s.buckets;
        dedup = set_at shard (t.src ∷ s.dedup shard) s.dedup;
      }

  unfoldable pub write_tasks : List TransferTask → Shards → Shards
  unfolding write_task
  write_tasks [] s = s
  write_tasks (t ∷ ts) s = write_tasks ts (write_task t s)

  -- What is left of a pipeline that fails.
  unfoldable pub write_part : (ℕ → ℕ → Bool) → TransferTask → Shards → Shards
  unfolding write_task
  write_part carried t s =
      let whole = write_task t s in
      record s {
        details = if carried t.id 0 then whole.details else s.details;
        buckets = if carried t.id 1 then whole.buckets else s.buckets;
        dedup = if carried t.id 2 then whole.dedup else s.dedup;
      }

  unfoldable pub write_parts : (ℕ → ℕ → Bool) → List TransferTask → Shards → Shards
  unfolding write_part
  write_parts carried [] s = s
  write_parts carried (t ∷ ts) s = write_parts carried ts (write_part carried t s)

  abbrev pub is_new : Shards → Input → Bool
  is_new s i = not (contains i.src (s.dedup (get_dedup_shard_key fnv32 i.src)))

  -- `none` is an error, and else the number of tasks added.
  unfoldable pub add_sharded_transfer_tasks : AddReplies → List Input → Shards → Option ℕ × Shards
  unfolding write_tasks write_parts insert_rows get_dedup_shard_key
  add_sharded_transfer_tasks r inputs s =
      let new = keep (is_new s) inputs in
      let tasks = tasks_of job_id now (s.max_id + 1) new in
      let numbered = record s { max_id = s.max_id + length new } in
      let written = write_tasks tasks numbered in
      if not r.checked
      then (none, s)
      else if length new == 0
      then (some 0, s)
      else if not r.numbered
      then (none, s)
      else if not r.written
      then (none, write_parts r.carried tasks numbered)
      else (some (length new), count_in new (record written { rows = insert_rows tasks s.rows }))

  unfoldable pub add_transfer_tasks_to_job : AddReplies → List Input → Shards → Option ℕ × Shards
  unfolding unique_inputs add_sharded_transfer_tasks
  add_transfer_tasks_to_job r inputs s =
      if length inputs == 0
      then (some 0, s)
      else add_sharded_transfer_tasks r (unique_inputs [] inputs) s

-- Whether each call of a fill succeeds; `saved` is about all writes, of which none is carried out
-- when they fail.
pub record Replies : Type 0 where
  pub offset_read : Bool
  pub max_id_read : Bool
  pub ranged : Bool
  pub next_ranged : Bool
  pub queried : Bool
  pub fetched : Bool
  pub saved : Bool

abbrev pub max_of : ℕ → ℕ → ℕ
max_of a b = if ltb a b then b else a

-- The loop over the ids and their values: the buffer, the largest id and how many tasks were put
-- into the buffer. The id counts before the buffer is tried.
unfoldable pub fill_ids :
    (ℕ → Stored TransferTask) → List ℕ → List TransferTask → ℕ → ℕ → List TransferTask × (ℕ × ℕ)
unfolding offer
fill_ids details [] ch max_id processed = (ch, (max_id, processed))
fill_ids details (k ∷ ks) ch max_id processed = elim (offer (λ t. t.status) (details k) ch) [
  | none ↦ (ch, (max_of max_id k, processed))
  | some ch' ↦
      fill_ids details ks ch' (max_of max_id k)
        (if length ch == length ch' then processed else processed + 1)
]

module _ (r : Replies) where
  -- From the label FINISH on.
  abbrev pub finish : ℕ → Shards → List TransferTask × (ℕ × ℕ) → Shards
  finish last s (ch, (max_id, processed)) =
      let filled = record s { channel = some ch } in
      if not (ltb 0 processed || ltb last max_id)
      then filled
      else if not r.saved
      then filled
      else if ltb 0 max_id
      then record filled { offset = max_id }
      else record filled { offset = last + processed }

  abbrev pub opened : Option (List TransferTask) → List TransferTask
  opened none = []
  opened (some ch) = ch

  abbrev pub deliver : ℕ → List ℕ → Shards → Shards
  deliver last ids s =
      if not r.fetched then s else finish last s (fill_ids s.details ids (opened s.channel) 0 0)

  -- A task that is only in PostgreSQL is written to Redis again.
  abbrev pub write_back : TransferTask → Shards → Shards
  write_back t s =
      let bucket = get_task_bucket_key t.id in
      record s {
        details = set_at t.id (parsed t) s.details;
        buckets = set_at bucket (zadd t.id (s.buckets bucket)) s.buckets;
      }

  abbrev pub write_back_all : List TransferTask → Shards → Shards
  write_back_all [] s = s
  write_back_all (t ∷ ts) s = write_back_all ts (write_back t s)

  abbrev pub max_ids : ℕ → List TransferTask → ℕ
  max_ids m [] = m
  max_ids m (t ∷ ts) = max_ids (max_of m t.id) ts

  abbrev pub from_rows : ℕ → ℕ → List TransferTask → Shards → Shards
  from_rows last current [] s = s
  from_rows last current (t ∷ ts) s =
      let back = write_back_all (t ∷ ts) s in
      let stored = record back { max_id = max_ids current (t ∷ ts); offset = last } in
      deliver last (map (λ u. u.id) (t ∷ ts)) (if r.saved then stored else s)

  abbrev pub pending_rows : ℕ → Shards → List TransferTask
  pending_rows job s =
      take tx_fetch_batch_size (keep (λ t. t.job_id == job && str_eq t.status "PENDING") s.rows)

  abbrev pub deliver_or_query : ℕ → ℕ → ℕ → List ℕ → Shards → Shards
  deliver_or_query job last current [] s =
      if not r.queried then s else from_rows last current (pending_rows job s) s
  deliver_or_query job last current (k ∷ ks) s = deliver last (k ∷ ks) s

  -- The ids of the bucket from `start` on, or else those of the next bucket.
  abbrev pub or_next : ℕ → List ℕ → Shards → List ℕ
  or_next start [] s =
      let next = (start / task_bucket_size + 1) * task_bucket_size in
      if r.next_ranged then range_by_score next (s.buckets (get_task_bucket_key next)) else []
  or_next start (k ∷ ks) s = k ∷ ks

  abbrev pub fill_from : ℕ → ℕ → ℕ → Shards → Shards
  fill_from job last current s =
      let start = last + 1 in
      let ids = range_by_score start (s.buckets (get_task_bucket_key start)) in
      if not r.ranged then s else deliver_or_query job last current (or_next start ids s) s

  unfoldable pub fill_sharded_tx_buffer : ℕ → Shards → Shards
  unfolding fill_ids get_task_bucket_key range_by_score zadd
  fill_sharded_tx_buffer job s =
      let last = if r.offset_read then s.offset else 0 in
      let current = if r.max_id_read then s.max_id else 0 in
      let back = current - tx_fetch_batch_size in
      if ltb current last && ltb 0 current
      then fill_from job back current (if r.saved then record s { offset = back } else s)
      else fill_from job last current s
