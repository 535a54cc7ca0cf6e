-- ===== src/Transfer/Copy/Tests.antt =====
-- A file of 8 bytes, which is copied in two parts, the second one first, and a call whose first
-- request is lost; and the theorems there.
use mathlib.Core.List.{Perm}
use mathlib.Core.List.Perm
use tmp_cf_ytb_admin.Base.{
  ℕ, ◌+◌, ◌<◌, ◌≡◌, refl, true, false, some, [], ◌∷◌, map, arith, ◌==◌, if◌then◌else◌,
}
use tmp_cf_ytb_admin.Transfer.Parts.{calculate_part_size, num_parts, part_at, Tiles}
use tmp_cf_ytb_admin.Transfer.Copy.{
  Body, unreachable, answered, with_etag, got, etag_missing, call_failed, Line, read_answer,
  Surroundings, create_upload, abort_upload, complete_upload, attempts_from, service_attempts,
  call_transfer_service, copy_part, completed_parts, has_no_error, insert_part, sort_parts,
  finish_upload, transfer_file, rounds_of,
}
use tmp_cf_ytb_admin.Transfer.Copy.Calls.{Sent, call_transfer_service-got}
use tmp_cf_ytb_admin.Transfer.Copy.Attempts.{call_transfer_service-ends}
use tmp_cf_ytb_admin.Transfer.Copy.Ordered.{rounds_from, in_order, transfer_file-order}

abbrev line : Line
line = record {
  done_before = λ i. false;
  done_after = λ i. false;
  is_built = true;
  answer = λ i. if i == 0 then unreachable else answered 200 (with_etag "e");
}

called : call_transfer_service 3 line ≡ (got "e", 2)
unfolding call_transfer_service attempts_from service_attempts
called = refl

gives_up : call_transfer_service 1 line ≡ (call_failed, 1)
unfolding call_transfer_service attempts_from service_attempts
gives_up = refl

call_transfer_service-got_example :
    Sent line "e" 0 (service_attempts 3) (call_transfer_service 3 line)
call_transfer_service-got_example =
    call_transfer_service-got 3 line "e"
      (unfold call_transfer_service attempts_from service_attempts in refl)

call_transfer_service-ends_example :
    ((k status : ℕ) (b : Body)
      → k < service_attempts 3
      → ((j : ℕ) → j < k → line.answer j ≡ unreachable)
      → line.answer k ≡ answered status b
      → call_transfer_service 3 line ≡ (read_answer status b, k + 1))
    × (((j : ℕ) → j < service_attempts 3 → line.answer j ≡ unreachable)
        → call_transfer_service 3 line ≡ (call_failed, service_attempts 3))
call_transfer_service-ends_example =
    call_transfer_service-ends 3 line
      (record { before = λ i. refl; after = λ i. refl; built = refl })

abbrev store : Surroundings
store = record {
  is_addressed = true;
  service = λ c. if c.offset == 0 then got "first" else got "second";
  upload = some "u";
  has_slot = λ n. true;
  is_completed = true;
}

abbrev broken : Surroundings
broken = record store { service = λ c. if c.offset == 5 then etag_missing else got "first" }

copied : transfer_file 6 5 store 8 (1 ∷ 0 ∷ []) ≡ (
  true,
  create_upload
      ∷ complete_upload (
          record { part_number = 1; etag = "first" }
          ∷ record { part_number = 2; etag = "second" }
          ∷ [])
      ∷ [],
)
unfolding transfer_file calculate_part_size finish_upload has_no_error completed_parts copy_part
    part_at sort_parts insert_part
copied = refl

aborted : transfer_file 6 5 broken 8 (1 ∷ 0 ∷ []) ≡ (false, create_upload ∷ abort_upload ∷ [])
unfolding transfer_file calculate_part_size finish_upload has_no_error copy_part part_at
aborted = refl

at_once : transfer_file 9 5 store 8 [] ≡ (true, [])
unfolding transfer_file
at_once = refl

two_rounds : Perm (1 ∷ 0 ∷ []) (rounds_from 0 (rounds_of 5 8))
unfolding rounds_of num_parts calculate_part_size
two_rounds = Perm.swap 0 1 []

transfer_file-order_example :
    Tiles 1 0 8 (map (part_at 8 (calculate_part_size 5 8)) (rounds_from 0 (rounds_of 5 8)))
    × (transfer_file 6 5 store 8 (1 ∷ 0 ∷ [])
        ≡ in_order store "u" 8 (calculate_part_size 5 8) (rounds_of 5 8))
transfer_file-order_example =
    transfer_file-order 6 5 8 store "u" (1 ∷ 0 ∷ []) (omega arith) (omega arith) (omega arith) refl
      refl two_rounds
