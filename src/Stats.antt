-- ===== src/Stats.antt =====
-- backend/go-app/handlers/task_handler.go, the buffered job statistics: `trackStatusChange` and
-- `trackTxStatusChange` collect how many tasks of a job moved between the four buckets, and
-- `flushStats` and `flushTxStats` add that to the job's row in PostgreSQL and clear the buffer.
-- The buffer is a map from job ids; a table is a map from job ids to rows. An UPDATE is evaluated
-- on the row as it was, as SQL does. Whether PostgreSQL carried an UPDATE out is the argument
-- `executed`, since the code drops the error.
pub mod Census
pub mod Flush
mod Tests
use tmp_cf_ytb_admin.Base.{
  ℕ, String, str_eq, Bool, true, false, not, ◌&&◌, ◌||◌, Option, none, some, List, [], ◌∷◌, ℤ, pos,
  negsuc, pos_part, is_pos, ◌+ℤ◌, if◌then◌else◌, get, put,
}

-- The four strings that `getBucket` returns.
pub data Bucket : Type 0 where
  pending running completed failed : Bucket

unfoldable pub get_bucket : String → Bucket
get_bucket s =
    if str_eq s "PENDING"
    then pending
    else if str_eq s "COMPLETED"
    then completed
    else if str_eq s "FAILED"
    then failed
    else running

abbrev pub same_bucket : Bucket → Bucket → Bool
same_bucket pending pending = true
same_bucket running running = true
same_bucket completed completed = true
same_bucket failed failed = true
same_bucket _ _ = false

pub record JobDelta : Type 0 where
  pub pending : ℤ
  pub running : ℤ
  pub success : ℤ
  pub failed : ℤ

abbrev pub zero_delta : JobDelta
zero_delta = record { pending = pos 0; running = pos 0; success = pos 0; failed = pos 0 }

-- `d.Pending += n` and so on, by the bucket.
unfoldable pub add_to : Bucket → ℤ → JobDelta → JobDelta
add_to Bucket.pending n d = record d { pending = d.pending +ℤ n }
add_to Bucket.running n d = record d { running = d.running +ℤ n }
add_to Bucket.completed n d = record d { success = d.success +ℤ n }
add_to Bucket.failed n d = record d { failed = d.failed +ℤ n }

abbrev pub StatsBuffer : Type 0
StatsBuffer = List (ℕ × JobDelta)

abbrev pub or_zero : Option JobDelta → JobDelta
or_zero none = zero_delta
or_zero (some d) = d

-- What is buffered for a job.
abbrev pub delta_of : StatsBuffer → ℕ → JobDelta
delta_of m job = or_zero (get job m)

-- The entry is made where it is missing.
unfoldable pub ensure_entry : ℕ → StatsBuffer → StatsBuffer
ensure_entry job m = elim (get job m) [ none ↦ put job zero_delta m | some d ↦ m ]

unfoldable pub move : Bucket → Bucket → JobDelta → JobDelta
unfolding add_to
move old new d = add_to new (pos 1) (add_to old (negsuc 0) d)

-- The second result is the label whose metric is counted up, if any.
unfoldable pub track_status_change : StatsBuffer → ℕ → String → String → StatsBuffer × Option Bucket
unfolding ensure_entry move
track_status_change m job old new =
    let m' = ensure_entry job m in
    let old_bucket = get_bucket old in
    let new_bucket = get_bucket new in
    if str_eq old new
    then (m, none)
    else if same_bucket old_bucket new_bucket
    then (m', none)
    else (put job (move old_bucket new_bucket (delta_of m' job)) m', some new_bucket)

unfoldable pub track_tx_status_change : StatsBuffer → ℕ → String → String → StatsBuffer
unfolding ensure_entry move
track_tx_status_change m job old new =
    let m' = ensure_entry job m in
    if str_eq old new
    then m
    else if same_bucket (get_bucket old) (get_bucket new)
    then m'
    else put job (move (get_bucket old) (get_bucket new) (delta_of m' job)) m'

-- The columns of `youtube_jobs` and of `transfer_jobs` that the flush reads and writes.
pub record JobRow : Type 0 where
  pub pending_count : ℤ
  pub running_count : ℤ
  pub success_count : ℤ
  pub failed_count : ℤ
  pub status : String

-- GREATEST(0, n)
abbrev pub greatest_zero : ℤ → ℤ
greatest_zero n = pos (pos_part n)

-- The four SET clauses for the counts, which both statements have.
unfoldable pub add_counts : JobDelta → JobRow → JobRow
add_counts d r = record r {
  pending_count = greatest_zero (r.pending_count +ℤ d.pending);
  running_count = greatest_zero (r.running_count +ℤ d.running);
  success_count = greatest_zero (r.success_count +ℤ d.success);
  failed_count = greatest_zero (r.failed_count +ℤ d.failed);
}

-- The CASE of `flushStats`.
unfoldable pub next_status : JobDelta → JobRow → String
next_status d r =
    if str_eq r.status "PENDING" && is_pos (greatest_zero (r.running_count +ℤ d.running))
    then "RUNNING"
    else if str_eq r.status "RUNNING"
        && not (is_pos (greatest_zero (r.pending_count +ℤ d.pending)))
        && not (is_pos (greatest_zero (r.running_count +ℤ d.running)))
        && is_pos (r.success_count +ℤ r.failed_count +ℤ d.success +ℤ d.failed)
    then "COMPLETED"
    else r.status

unfoldable pub update_row : JobDelta → JobRow → JobRow
unfolding add_counts next_status
update_row d r = record (add_counts d r) { status = next_status d r }

-- The CASE of `flushTxStats`.
unfoldable pub next_tx_status : JobDelta → JobRow → String
next_tx_status d r =
    if (str_eq r.status "PENDING" || str_eq r.status "PHASEDCOMPLETED")
      && is_pos (greatest_zero (r.running_count +ℤ d.running))
    then "RUNNING"
    else r.status

unfoldable pub update_tx_row : JobDelta → JobRow → JobRow
unfolding add_counts next_tx_status
update_tx_row d r = record (add_counts d r) { status = next_tx_status d r }

abbrev pub Table : Type 0
Table = List (ℕ × JobRow)

-- UPDATE … WHERE id = job
unfoldable pub update_where : (JobRow → JobRow) → ℕ → Table → Table
update_where f job t = elim (get job t) [ none ↦ t | some r ↦ put job (f r) t ]

-- The loop over the snapshot, in the order in which the map is walked.
unfoldable pub apply_all : (JobDelta → JobRow → JobRow) → (ℕ → Bool) → StatsBuffer → Table → Table
unfolding update_where
apply_all update executed [] t = t
apply_all update executed ((job, d) ∷ m) t =
    apply_all update executed m (if executed job then update_where (update d) job t else t)

-- The new buffer and the new table.
unfoldable pub flush_stats : (ℕ → Bool) → StatsBuffer → Table → StatsBuffer × Table
unfolding apply_all update_row
flush_stats executed m t = ([], apply_all update_row executed m t)

unfoldable pub flush_tx_stats : (ℕ → Bool) → StatsBuffer → Table → StatsBuffer × Table
unfolding apply_all update_tx_row
flush_tx_stats executed m t = ([], apply_all update_tx_row executed m t)
