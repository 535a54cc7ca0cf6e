-- ===== src/Sharded/Fill.antt =====
-- A fill into a buffer that is full.
use tmp_cf_ytb_admin.Base.{
  ℕ, ◌+◌, ◌≤◌, ◌<◌, ◌≡◌, refl, ap, ◌∙◌, eq_iff, not, ◌&&◌, ◌||◌, none, some, List, ◌∷◌, arith, ltb,
  length, if_true, if_false,
}
use tmp_cf_ytb_admin.Models.{TransferTask, Stored, parsed}
use tmp_cf_ytb_admin.Buffer.{buffer_size, offer}
use tmp_cf_ytb_admin.Sharded.{
  Shards, get_task_bucket_key, range_by_score, max_of, fill_ids, finish, opened, deliver_or_query,
  or_next, fill_sharded_tx_buffer,
}
use tmp_cf_ytb_admin.Sharded.RoundTrip.{all_well}

offer-full :
    (t : TransferTask) (ch : List TransferTask)
    → t.status ≡ "PENDING"
    → buffer_size ≤ length ch
    → offer (λ u. u.status) (parsed t) ch ≡ none
unfolding offer
offer-full t ch pending full = ground (arith, eq_iff t.status "PENDING")

fill_ids-full :
    (details : ℕ → Stored TransferTask) (k : ℕ) (ks : List ℕ) (ch : List TransferTask)
    (t : TransferTask)
    → details k ≡ parsed t
    → t.status ≡ "PENDING"
    → buffer_size ≤ length ch
    → fill_ids details (k ∷ ks) ch 0 0 ≡ (ch, (max_of 0 k, 0))
unfolding fill_ids
fill_ids-full details k ks ch t e pending full =
    let refused : offer (λ u. u.status) (details k) ch ≡ none =
      ap (λ v. offer (λ u. u.status) v ch) e ∙ offer-full t ch pending full in
    rw (refused, fill_ids) refl

finish-skips :
    (last k : ℕ) (s : Shards) (ch : List TransferTask)
    → last < k
    → finish all_well last s (ch, (max_of 0 k, 0)) ≡ record s { channel = some ch; offset = k }
finish-skips last k s ch h =
    ap (λ m. finish all_well last s (ch, (m, 0))) (if_true {b = ltb 0 k} k 0 (ground arith))
    ∙ if_false {b = not (ltb 0 0 || ltb last k)} _ _ (ground arith)
    ∙ if_true {b = ltb 0 k} _ _ (ground arith)

-- A fill into a full buffer, when the next id to be read is that of a pending task, puts nothing
-- into the buffer, and yet moves the offset to that id.
pub fill-skips :
    (job : ℕ) (s : Shards) (ch : List TransferTask) (k : ℕ) (ks : List ℕ) (t : TransferTask)
    → s.offset ≤ s.max_id
    → range_by_score (s.offset + 1) (s.buckets (get_task_bucket_key (s.offset + 1))) ≡ k ∷ ks
    → s.offset < k
    → s.details k ≡ parsed t
    → t.status ≡ "PENDING"
    → s.channel ≡ some ch
    → buffer_size ≤ length ch
    → fill_sharded_tx_buffer all_well job s ≡ record s { channel = some ch; offset = k }
unfolding fill_sharded_tx_buffer
fill-skips job s ch k ks t up_to ids new stored pending open' full =
    if_false {b = ltb s.max_id s.offset && ltb 0 s.max_id} _ _ (ground (arith, up_to))
    ∙ ap
        (λ js.
          deliver_or_query all_well job s.offset s.max_id (or_next all_well (s.offset + 1) js s) s)
        ids
    ∙ ap (λ c. finish all_well s.offset s (fill_ids s.details (k ∷ ks) (opened all_well c) 0 0))
        open'
    ∙ ap (finish all_well s.offset s) (fill_ids-full s.details k ks ch t stored pending full)
    ∙ finish-skips s.offset k s ch new
