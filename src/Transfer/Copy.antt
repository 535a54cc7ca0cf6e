-- ===== src/Transfer/Copy.antt =====
-- backend/worker_transfer/transfer.go, the copy of one file: `transferFile`, the calls of the
-- transfer service that it makes (`callTransferService`) and the waits between their attempts.
-- What the service, the destination and the contexts answer is an argument. The parts of an
-- upload are copied by goroutines, of which the argument `order` has the rounds of the loop in
-- the order in which they end.
pub mod Calls
pub mod Attempts
pub mod Ordered
mod Tests
use tmp_cf_ytb_admin.Base.{
  ℕ, zero, suc, ◌+◌, ◌-◌, ◌*◌, String, str_eq, Bool, true, false, not, Option, none, some, List, [],
  ◌∷◌, ltb, ◌==◌, if◌then◌else◌,
}
use tmp_cf_ytb_admin.Transfer.Parts.{Part, part_at, calculate_part_size, num_parts}

-- The body of an answer: no JSON, without a string "etag", or with one.
pub data Body : Type 0 where
  no_json no_etag : Body
  with_etag : String → Body

pub data Answer : Type 0 where
  unreachable : Answer
  answered : ℕ → Body → Answer

pub data CallResult : Type 0 where
  got : String → CallResult
  interrupted not_built undecodable etag_missing call_failed : CallResult
  bad_status : ℕ → CallResult

-- `partNumber` is `none` where the source has -1.
pub record ServiceCall : Type 0 where
  pub size : ℕ
  pub offset : ℕ
  pub upload_id : String
  pub part_number : Option ℕ

abbrev pub read_body : Body → CallResult
read_body no_json = undecodable
read_body no_etag = etag_missing
read_body (with_etag e) = if str_eq e "" then etag_missing else got e

abbrev pub read_answer : ℕ → Body → CallResult
read_answer status body = if status == 200 then read_body body else bad_status status

-- How the attempts of one call go: whether its context is done before an attempt, or during the
-- wait after it, whether the request can be built, and the answer to an attempt.
pub record Line : Type 0 where
  pub done_before : ℕ → Bool
  pub done_after : ℕ → Bool
  pub is_built : Bool
  pub answer : ℕ → Answer

-- Whether the wait after an attempt ends in time; attempts are counted from 1 here.
abbrev pub wait_for_transfer_retry : Line → ℕ → Bool
wait_for_transfer_retry l attempt = if attempt == 0 then true else not (l.done_after attempt)

-- What comes before an attempt is sent; with each result goes the number of requests sent.
abbrev pub guarded : Line → ℕ → CallResult × ℕ → CallResult × ℕ
guarded l i sent =
    if l.done_before i then (interrupted, i) else if not l.is_built then (not_built, i) else sent

-- What follows the answer to attempt `i`, when `left` more may be made, of which `next` is the
-- result.
abbrev pub after_answer : Line → ℕ → ℕ → CallResult × ℕ → Answer → CallResult × ℕ
after_answer l i left next unreachable =
    if left == 0
    then (call_failed, i + 1)
    else if not (wait_for_transfer_retry l (i + 1))
    then (interrupted, i + 1)
    else next
after_answer l i left next (answered status body) = (read_answer status body, i + 1)

unfoldable pub attempts_from : Line → ℕ → ℕ → CallResult × ℕ
attempts_from l i zero = (call_failed, i)
attempts_from l i (suc left) =
    let next = attempts_from l (i + 1) left in guarded l i (after_answer l i left next (l.answer i))

unfoldable pub service_attempts : ℕ → ℕ
service_attempts transfer_service_retries =
    if ltb transfer_service_retries 1 then 1 else transfer_service_retries

unfoldable pub call_transfer_service : ℕ → Line → CallResult × ℕ
unfolding attempts_from service_attempts
call_transfer_service transfer_service_retries l =
    attempts_from l 0 (service_attempts transfer_service_retries)

pub record CompletedPart : Type 0 where
  pub part_number : ℕ
  pub etag : String

-- What the destination is asked.
pub data Request : Type 0 where
  create_upload abort_upload : Request
  complete_upload : List CompletedPart → Request

-- sort.Slice by the part number.
unfoldable pub insert_part : CompletedPart → List CompletedPart → List CompletedPart
insert_part c [] = c ∷ []
insert_part c (d ∷ ds) =
    let later = insert_part c ds in
    if ltb d.part_number c.part_number then d ∷ later else c ∷ d ∷ ds

unfoldable pub sort_parts : List CompletedPart → List CompletedPart
unfolding insert_part
sort_parts [] = []
sort_parts (c ∷ cs) = insert_part c (sort_parts cs)

-- The surroundings of a copy: whether the address of the destination can be built, what a call of
-- the service gives, the id of the upload, whether a goroutine gets a slot for its part before
-- the context is done, and whether the upload can be completed.
pub record Surroundings : Type 0 where
  pub is_addressed : Bool
  pub service : ServiceCall → CallResult
  pub upload : Option String
  pub has_slot : ℕ → Bool
  pub is_completed : Bool

abbrev pub is_got : CallResult → Bool
is_got (got e) = true
is_got _ = false

module _ (w : Surroundings) (upload_id : String) (size part_size : ℕ) where
  abbrev pub call_of : Part → ServiceCall
  call_of p = record {
    size = p.last - p.start + 1;
    offset = p.start;
    upload_id = upload_id;
    part_number = some p.number;
  }

  -- The goroutine of a round.
  unfoldable pub copy_part : ℕ → CallResult
  unfolding part_at
  copy_part i = if w.has_slot i then w.service (call_of (part_at size part_size i)) else interrupted

  -- The parts that were completed, in the order in which they were.
  unfoldable pub completed_parts : List ℕ → List CompletedPart
  unfolding copy_part part_at
  completed_parts [] = []
  completed_parts (i ∷ is) =
      let rest = completed_parts is in
      elim (copy_part i) [ got e ↦ record { part_number = i + 1; etag = e } ∷ rest | _ ↦ rest ]

  -- Whether no goroutine reports an error.
  unfoldable pub has_no_error : List ℕ → Bool
  unfolding copy_part
  has_no_error [] = true
  has_no_error (i ∷ is) = if is_got (copy_part i) then has_no_error is else false

  -- From the wait for all goroutines on: whether the file was copied, and what the destination
  -- was asked.
  unfoldable pub finish_upload : List ℕ → Bool × List Request
  unfolding has_no_error completed_parts sort_parts
  finish_upload order =
      if has_no_error order
      then (
        w.is_completed,
        create_upload ∷ complete_upload (sort_parts (completed_parts order)) ∷ [],
      )
      else (false, create_upload ∷ abort_upload ∷ [])

abbrev pub whole_file : ℕ → ServiceCall
whole_file size = record { size = size; offset = 0; upload_id = ""; part_number = none }

abbrev pub upload_file : Surroundings → ℕ → ℕ → List ℕ → Option String → Bool × List Request
upload_file w min_part_size size order none = (false, create_upload ∷ [])
upload_file w min_part_size size order (some upload_id) =
    finish_upload w upload_id size (calculate_part_size min_part_size size) order

unfoldable pub transfer_file : ℕ → ℕ → Surroundings → ℕ → List ℕ → Bool × List Request
unfolding finish_upload calculate_part_size
transfer_file multipart_threshold min_part_size w size order =
    if not w.is_addressed
    then (false, [])
    else if ltb size multipart_threshold
    then (is_got (w.service (whole_file size)), [])
    else upload_file w min_part_size size order w.upload

-- The rounds of the loop.
unfoldable pub rounds_of : ℕ → ℕ → ℕ
unfolding num_parts calculate_part_size
rounds_of min_part_size size = num_parts size (calculate_part_size min_part_size size)
