-- ===== src/Sharded/RoundTrip.antt =====
-- Tasks that are added to a job are what the next fill of its buffer reads.
use tmp_cf_ytb_admin.Base.{
  ℕ, suc, ◌+◌, ◌*◌, ◌/◌, ◌≤◌, ◌<◌, ◌≡◌, refl, sym, ap, ◌∙◌, subst, String, true, not, ◌&&◌, ◌||◌,
  Option, some, List, [], ◌∷◌, ◌++◌, map, append-nil, append_assoc, arith, ltb, ◌==◌, length,
  length-append, take, keep, if_true, if_false,
}
use tmp_cf_ytb_admin.Models.{TransferTask, Stored, parsed}
use tmp_cf_ytb_admin.Buffer.{buffer_size, tx_fetch_batch_size}
use tmp_cf_ytb_admin.Sharded.{
  Shards, task_bucket_size, get_task_bucket_key, range_by_score, Input, task_of, tasks_of,
  write_task, write_tasks, insert_rows, count_in, AddReplies, is_new, add_sharded_transfer_tasks,
  Replies, fill_ids, finish, opened, deliver_or_query, or_next, fill_from, fill_sharded_tx_buffer,
}
use tmp_cf_ytb_admin.Sharded.Writes.{
  ids_from, Below, keep-Below, keep-ids_from, take-ids_from, cons_head, cons_tail, plus_zero,
  plus_suc, top_id, top, fill_ids-step, buckets-write_tasks, details-write_tasks,
}

abbrev pub added_well : AddReplies
added_well = record { checked = true; numbered = true; written = true; carried = λ k c. true }

abbrev pub all_well : Replies
all_well = record {
  offset_read = true;
  max_id_read = true;
  ranged = true;
  next_ranged = true;
  queried = true;
  fetched = true;
  saved = true;
}

module _ (fnv32 : String → ℕ) (job_id now : ℕ) where
  -- What a task-by-task reading of the new tasks puts into a buffer with room.
  fill_ids-tasks :
      (details : ℕ → Stored TransferTask) (is : List Input) (start : ℕ) (ch : List TransferTask)
      (m n : ℕ)
      → map details (ids_from start (length is)) ≡ map parsed (tasks_of job_id now start is)
      → length ch + length is ≤ buffer_size
      → m < start
      → fill_ids details (ids_from start (length is)) ch m n
        ≡ (ch ++ tasks_of job_id now start is, (top_id m start (length is), n + length is))
  unfolding fill_ids
  fill_ids-tasks details [] start ch m n e room low =
      λ k. (sym (append-nil ch) k, (m, plus_zero n k))
  fill_ids-tasks details (i ∷ is) start ch m n e room low =
      let t = task_of job_id now start i in
      fill_ids-step details start (ids_from (start + 1) (length is)) ch m n t refl (cons_head e)
        (omega (arith, room))
      ∙ ap (λ top. fill_ids details (ids_from (start + 1) (length is)) (ch ++ t ∷ []) top (n + 1))
          (if_true {b = ltb m start} start m (ground (arith, low)))
      ∙ fill_ids-tasks details is (start + 1) (ch ++ t ∷ []) start (n + 1) (cons_tail e)
          (omega (arith, room, length-append ch (t ∷ []))) (omega arith)
      ∙ (λ k. (
        append_assoc ch (t ∷ []) (tasks_of job_id now (start + 1) is) k,
        (top start (length is) k, plus_suc n (length is) k),
      ))

range-ids_from :
    (old : List ℕ) (start n : ℕ)
    → Below start old
    → n ≤ tx_fetch_batch_size
    → range_by_score start (old ++ ids_from start n) ≡ ids_from start n
unfolding range_by_score
range-ids_from old start n low few =
    ap (take tx_fetch_batch_size)
      (keep-Below start old (ids_from start n) low ∙ keep-ids_from start start n (omega arith))
    ∙ take-ids_from tx_fetch_batch_size start n few

finish-new :
    (m n : ℕ) (s : Shards) (ch : List TransferTask)
    → finish all_well m s (ch, (top_id 0 (m + 1) (suc n), 0 + suc n))
      ≡ record s { channel = some ch; offset = m + suc n }
finish-new m n s ch =
    if_false {b = not (ltb 0 (0 + suc n) || ltb m (m + 1 + n))} _ _ (ground arith)
    ∙ if_true {b = ltb 0 (m + 1 + n)} _ _ (ground arith)
    ∙ (λ k. record s { channel = some ch; offset = up k })
  where
    up : m + 1 + n ≡ m + suc n
    up = omega arith

write_tasks-rest :
    (fnv32 : String → ℕ) (job_id now : ℕ) (ts : List TransferTask) (s : Shards)
    → ((write_tasks fnv32 job_id now ts s).offset ≡ s.offset)
      × (((write_tasks fnv32 job_id now ts s).max_id ≡ s.max_id)
          × ((write_tasks fnv32 job_id now ts s).channel ≡ s.channel))
unfolding write_tasks write_task
write_tasks-rest fnv32 job_id now [] s = (refl, (refl, refl))
write_tasks-rest fnv32 job_id now (t ∷ ts) s =
    write_tasks-rest fnv32 job_id now ts (write_task fnv32 job_id now t s)

-- A job in which the ids from `m + 1` on are new.
fill-ready :
    (fnv32 : String → ℕ) (job_id now m : ℕ) (is : List Input) (old : List ℕ) (s : Shards)
    → s.offset ≡ m
    → s.max_id ≡ m + length is
    → 0 < length is
    → length is ≤ tx_fetch_batch_size
    → Below (m + 1) old
    → s.buckets ((m + 1) / task_bucket_size) ≡ old ++ ids_from (m + 1) (length is)
    → map s.details (ids_from (m + 1) (length is)) ≡ map parsed (tasks_of job_id now (m + 1) is)
    → length (opened all_well s.channel) + length is ≤ buffer_size
    → fill_sharded_tx_buffer all_well job_id s ≡ record s {
      channel = some (opened all_well s.channel ++ tasks_of job_id now (m + 1) is);
      offset = m + length is;
    }
unfolding fill_sharded_tx_buffer get_task_bucket_key
fill-ready fnv32 job_id now m [] old s off top' some' few low bucket stored room =
    absurd (omega arith)
fill-ready fnv32 job_id now m (i ∷ is) old s off top' some' few low bucket stored room =
    if_false {b = ltb s.max_id s.offset && ltb 0 s.max_id} _ _ (ground (arith, off, top'))
    ∙ ap (λ last. fill_from all_well job_id last s.max_id s) off
    ∙ ap (λ ids. deliver_or_query all_well job_id m s.max_id (or_next all_well (m + 1) ids s) s)
        (ap (range_by_score (m + 1)) bucket ∙ range-ids_from old (m + 1) (suc (length is)) low few)
    ∙ ap (finish all_well m s) (
        fill_ids-tasks fnv32 job_id now s.details (i ∷ is) (m + 1) (opened all_well s.channel) 0 0
          stored room (omega arith))
    ∙ finish-new m (length is) s _

-- A task that is added to a job is read by the next fill, when all up to the last id were read:
-- with calls that succeed, from 1 to 1000 new tasks, all in one bucket that has only smaller ids,
-- and room in the buffer, the new tasks come into the buffer in their order, and are then read.
pub fill-add :
    (fnv32 : String → ℕ) (job_id now : ℕ) (inputs : List Input) (s : Shards)
    → let new = keep (is_new fnv32 job_id now s) inputs in
      let start = s.max_id + 1 in
      let after = (add_sharded_transfer_tasks fnv32 job_id now added_well inputs s).1 in
      s.offset ≡ s.max_id
      → 0 < length new
      → length new ≤ tx_fetch_batch_size
      → start + length new ≤ (start / task_bucket_size + 1) * task_bucket_size
      → Below start (s.buckets (start / task_bucket_size))
      → length (opened all_well s.channel) + length new ≤ buffer_size
      → ((fill_sharded_tx_buffer all_well job_id after).channel
          ≡ some (opened all_well s.channel ++ tasks_of job_id now start new))
        × ((fill_sharded_tx_buffer all_well job_id after).offset ≡ s.max_id + length new)
unfolding fill_sharded_tx_buffer add_sharded_transfer_tasks get_task_bucket_key
fill-add fnv32 job_id now inputs s read some' few one low room = subst Delivered (sym added) (
    subst
      (λ ch.
        ((fill_sharded_tx_buffer all_well job_id after).channel ≡ some (ch ++ tasks))
        × ((fill_sharded_tx_buffer all_well job_id after).offset ≡ s.max_id + length new))
      (ap (opened all_well) same_channel) (ap (λ x. x.channel) filled, ap (λ x. x.offset) filled))
  where
    new : List Input
    new = keep (is_new fnv32 job_id now s) inputs

    tasks : List TransferTask
    tasks = tasks_of job_id now (s.max_id + 1) new

    numbered : Shards
    numbered = record s { max_id = s.max_id + length new }

    written : Shards
    written = write_tasks fnv32 job_id now tasks numbered

    after : Shards
    after = count_in new (record written { rows = insert_rows tasks s.rows })

    Delivered : Option ℕ × Shards → Type 0
    Delivered x =
        ((fill_sharded_tx_buffer all_well job_id x.1).channel
          ≡ some (opened all_well s.channel ++ tasks))
        × ((fill_sharded_tx_buffer all_well job_id x.1).offset ≡ s.max_id + length new)

    added :
        add_sharded_transfer_tasks fnv32 job_id now added_well inputs s ≡ (some (length new), after)
    added = if_false {b = length new == 0} (some 0, s) (some (length new), after) (ground arith)

    same_channel : after.channel ≡ s.channel
    same_channel = (write_tasks-rest fnv32 job_id now tasks numbered).1.1

    b : ℕ
    b = (s.max_id + 1) / task_bucket_size

    filled : fill_sharded_tx_buffer all_well job_id after ≡ record after {
      channel = some (opened all_well after.channel ++ tasks);
      offset = s.max_id + length new;
    }
    filled =
        fill-ready fnv32 job_id now s.max_id new (s.buckets b) after
          ((write_tasks-rest fnv32 job_id now tasks numbered).0 ∙ read)
          (write_tasks-rest fnv32 job_id now tasks numbered).1.0 some' few low
          (buckets-write_tasks fnv32 job_id now new (s.max_id + 1) b numbered low (omega arith)
            (omega (arith, one)))
          (details-write_tasks fnv32 job_id now new (s.max_id + 1) numbered)
          (subst (λ ch. length (opened all_well ch) + length new ≤ buffer_size) (sym same_channel)
            room)
