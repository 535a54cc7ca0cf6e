-- ===== src/Buffer.antt =====
-- backend/go-app/handlers/task_handler.go, the pre-fetch buffers that are read by position:
-- `fillJobBuffer` for video jobs and `fillLeagcyTxJobBuffer` for old transfer jobs. A job has in
-- Redis a sorted set of task ids (`ids`, in score order), a stored value for each id (`details`),
-- the offset of the next id to read and a lock; its buffer is a channel of `BufferSize` places,
-- whose first element is the next to be received. A fill runs under the lock, and no task is
-- received while it runs. Which Redis calls succeed is an argument.
pub mod Delivery
pub mod Progress
mod Tests
use tmp_cf_ytb_admin.Base.{
  ℕ, zero, suc, ◌+◌, String, str_eq, Bool, true, false, not, ◌&&◌, ◌||◌, Option, none, some, List,
  [], ◌∷◌, ◌++◌, map, ltb, leb, if◌then◌else◌, length, take, drop,
}
use tmp_cf_ytb_admin.Models.{YoutubeTask, TransferTask, Stored, absent, malformed, parsed}

abbrev pub buffer_size : ℕ
buffer_size = 2000

abbrev pub buffer_low_water : ℕ
buffer_low_water = 100

abbrev pub fetch_batch_size : ℕ
fetch_batch_size = 100

abbrev pub tx_fetch_batch_size : ℕ
tx_fetch_batch_size = 1000

-- Whether each Redis call of a fill succeeds.
pub record Replies : Type 0 where
  pub lock : Bool
  pub offset : Bool
  pub range : Bool
  pub fetch : Bool
  pub save : Bool

-- `status` is the field of the task type that the buffer looks at.
module _ {A : Type 0} (status : A → String) where
  -- The `select` with a default: a task that is not PENDING, or no task, is passed over; `none`
  -- means that the buffer is full.
  unfoldable pub offer : Stored A → List A → Option (List A)
  offer absent ch = some ch
  offer malformed ch = some ch
  offer (parsed t) ch =
      if not (str_eq (status t) "PENDING")
      then some ch
      else if ltb (length ch) buffer_size
      then some (ch ++ t ∷ [])
      else none

  -- The loop over `jsonList`, with the buffer and `processed`.
  unfoldable pub fill_loop : List (Stored A) → List A → ℕ → List A × ℕ
  unfolding offer
  fill_loop [] ch processed = (ch, processed)
  fill_loop (item ∷ items) ch processed = elim (offer item ch) [
    | none ↦ (ch, processed)
    | some ch' ↦ fill_loop items ch' (processed + 1)
  ]

pub record Job (A : Type 0) : Type 0 where
  pub ids : List ℕ
  pub details : ℕ → Stored A
  pub offset : ℕ
  pub locked : Bool
  pub channel : Option (List A)

module _ {A : Type 0} (status : A → String) (batch : ℕ) where
  -- From the label FINISH on.
  abbrev pub finish : Replies → Job A → ℕ → List A × ℕ → Job A
  finish r j offset (ch, processed) =
      let filled = record j { channel = some ch } in
      if ltb 0 processed && r.save then record filled { offset = offset + processed } else filled

  abbrev pub fill_channel : Replies → Job A → ℕ → List ℕ → Option (List A) → Job A
  fill_channel r j offset batch_ids none = j
  fill_channel r j offset batch_ids (some ch) =
      finish r j offset (fill_loop status (map j.details batch_ids) ch 0)

  abbrev pub fill_batch : Replies → Job A → ℕ → List ℕ → Job A
  fill_batch r j offset [] = j
  fill_batch r j offset (i ∷ is) =
      if not r.fetch then j else fill_channel r j offset (i ∷ is) j.channel

  -- A fill; a failed read of the offset leaves it 0, as in the code.
  unfoldable pub fill : Replies → Job A → Job A
  unfolding fill_loop
  fill r j =
      let offset = if r.offset then j.offset else 0 in
      if not r.lock || j.locked
      then j
      else if not r.range
      then j
      else fill_batch r j offset (take batch (drop offset j.ids))

unfoldable pub fill_job_buffer : Replies → Job YoutubeTask → Job YoutubeTask
unfolding fill
fill_job_buffer = fill (λ t. t.status) fetch_batch_size

unfoldable pub fill_leagcy_tx_job_buffer : Replies → Job TransferTask → Job TransferTask
unfolding fill
fill_leagcy_tx_job_buffer = fill (λ t. t.status) tx_fetch_batch_size
