-- ===== src/Buffer/Progress.antt =====
-- A fill below the low-water mark takes a whole batch.
use native.Mathlib.Nat.{add-zero}
use tmp_cf_ytb_admin.Base.{
  ℕ, suc, ◌+◌, ◌≤◌, ◌<◌, ◌≡◌, refl, sym, ap, ◌∙◌, String, true, false, some, List, [], ◌∷◌, ◌++◌,
  map, append-nil, arith, length, take, drop, inl, inr, length-take_le, length-map, if_false,
}
use tmp_cf_ytb_admin.Models.{YoutubeTask, TransferTask, Stored, absent, malformed, parsed}
use tmp_cf_ytb_admin.Buffer.{
  buffer_size, buffer_low_water, fetch_batch_size, tx_fetch_batch_size, Replies, fill_loop, Job,
  finish, fill_channel, fill_batch, fill, fill_job_buffer, fill_leagcy_tx_job_buffer,
}
use tmp_cf_ytb_admin.Buffer.Delivery.{pendings, fill_loop_lem}

abbrev pub all_ok : Replies
all_ok = record { lock = true; offset = true; range = true; fetch = true; save = true }

-- The job after a batch of ids was read whole.
abbrev pub after_batch : {A : Type 0} → (A → String) → ℕ → Job A → List A → Job A
after_batch status batch j ch =
    let batch_ids = take batch (drop j.offset j.ids) in
    record j {
      channel = some (ch ++ pendings status (map j.details batch_ids));
      offset = j.offset + length batch_ids;
    }

module _ {A : Type 0} (status : A → String) where
  length-pendings-le : (items : List (Stored A)) → length (pendings status items) ≤ length items
  unfolding pendings
  length-pendings-le [] = omega arith
  length-pendings-le (absent ∷ items) = omega (arith, length-pendings-le items)
  length-pendings-le (malformed ∷ items) = omega (arith, length-pendings-le items)
  length-pendings-le (parsed t ∷ items) = ground (arith, length-pendings-le items)

  take_all : {B : Type 0} (xs : List B) → take (length xs) xs ≡ xs
  take_all [] = refl
  take_all (x ∷ xs) = ap (◌∷◌ x) (take_all xs)

  -- With room for the whole batch the loop does not stop early.
  fill_loop-room_for_all :
      (items : List (Stored A)) (ch : List A)
      → length ch + length items < buffer_size
      → fill_loop status items ch 0 ≡ (ch ++ pendings status items, length items)
  fill_loop-room_for_all items ch room =
      let (k, le, eq, stop) = fill_loop_lem status items ch 0 in
      let whole : k ≡ length items = elim stop [
        | inl e ↦ e
        | inr full ↦
            absurd (omega (arith, length-pendings-le (take k items), length-take_le k items))
      ] in
      eq ∙ (λ i. (ch ++ pendings status (all k whole i), (count_up k whole) i))
    where
      all : (k : ℕ) → k ≡ length items → take k items ≡ items
      all k e = ap (λ n. take n items) e ∙ take_all items

      count_up : (k : ℕ) → k ≡ length items → 0 + k ≡ length items
      count_up k e = omega arith

  finish-pos :
      (batch : ℕ) (j : Job A) (ch : List A) (k : ℕ)
      → finish status batch all_ok j j.offset (ch, suc k)
        ≡ record j { channel = some ch; offset = j.offset + suc k }
  finish-pos batch j ch k = ground arith

  fill_batch-all :
      (batch : ℕ) (j : Job A) (ch : List A) (batch_ids : List ℕ)
      → j.channel ≡ some ch
      → length ch + length batch_ids < buffer_size
      → fill_batch status batch all_ok j j.offset batch_ids ≡ record j {
        channel = some (ch ++ pendings status (map j.details batch_ids));
        offset = j.offset + length batch_ids;
      }
  unfolding pendings
  fill_batch-all batch j ch [] open' room = λ i. record j {
    channel = (open' ∙ ap some (sym (append-nil ch))) i;
    offset = (sym (add-zero j.offset)) i;
  }
  fill_batch-all batch j ch (b ∷ bs) open' room =
      ap (fill_channel status batch all_ok j j.offset (b ∷ bs)) open'
      ∙ ap (finish status batch all_ok j j.offset) (
          fill_loop-room_for_all (map j.details (b ∷ bs)) ch
            (omega (arith, length-map j.details (b ∷ bs))))
      ∙ finish-pos batch j _ (length (map j.details bs))
      ∙ ap
          (λ n. record j {
            channel = some (ch ++ pendings status (map j.details (b ∷ bs)));
            offset = j.offset + suc n;
          })
          (length-map j.details bs)

  fill-after_batch :
      (batch : ℕ) (j : Job A) (ch : List A)
      → j.locked ≡ false
      → j.channel ≡ some ch
      → length ch < buffer_low_water
      → batch ≤ tx_fetch_batch_size
      → fill status batch all_ok j ≡ after_batch status batch j ch
  unfolding fill
  fill-after_batch batch j ch free open' low small =
      if_false j _ free
      ∙ (fill_batch-all batch j ch (take batch (drop j.offset j.ids)) open'
          (omega (arith, length-take_le batch (drop j.offset j.ids))))

-- When no Redis call fails and the buffer is below its low-water mark, a fill moves the pending
-- tasks of a whole batch into the buffer and the offset past all of it: 100 ids of a video job,
-- 1000 of an old transfer job.
pub fill-takes_batch :
    (j : Job YoutubeTask) (ch : List YoutubeTask) (j' : Job TransferTask) (ch' : List TransferTask)
    → j.locked ≡ false
    → j.channel ≡ some ch
    → length ch < buffer_low_water
    → j'.locked ≡ false
    → j'.channel ≡ some ch'
    → length ch' < buffer_low_water
    → (fill_job_buffer all_ok j ≡ after_batch (λ t. t.status) fetch_batch_size j ch)
      × (fill_leagcy_tx_job_buffer all_ok j'
          ≡ after_batch (λ t. t.status) tx_fetch_batch_size j' ch')
unfolding fill_job_buffer fill_leagcy_tx_job_buffer
fill-takes_batch j ch j' ch' free open' low free' open'' low' = (
  fill-after_batch (λ t. t.status) fetch_batch_size j ch free open' low (omega arith),
  fill-after_batch (λ t. t.status) tx_fetch_batch_size j' ch' free' open'' low' (omega arith),
)
