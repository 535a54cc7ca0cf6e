-- ===== src/Transfer/Copy/Ordered.antt =====
-- An upload whose parts are copied in any order.
use mathlib.Core.List.{is_set, Perm, Permᴰ}
use mathlib.Core.Logic.{∥∥₁_elim}
use mathlib.Core.Bool.{Bool-set}
use native.Mathlib.Nat.{ℕ_set}
use tmp_cf_ytb_admin.Base.{
  ℕ, zero, suc, ◌+◌, ◌≤◌, ◌<◌, ◌≡◌, refl, sym, ap, ◌∙◌, subst, String, Bool, true, false, not, ◌&&◌,
  some, List, [], ◌∷◌, map, ltb, arith, if◌then◌else◌, All, Bool-cases, inl, inr, if_true, if_false,
}
use tmp_cf_ytb_admin.Transfer.Parts.{
  calculate_part_size, part_at, parts_from, plan_parts, Tiles, plan_parts-Tiles,
}
use tmp_cf_ytb_admin.Transfer.Copy.{
  CallResult, got, interrupted, not_built, undecodable, etag_missing, call_failed, bad_status,
  CompletedPart, Request, create_upload, abort_upload, complete_upload, insert_part, sort_parts,
  Surroundings, is_got, copy_part, completed_parts, has_no_error, finish_upload, transfer_file,
  upload_file, rounds_of,
}

-- The rounds from `i` on.
abbrev pub rounds_from : ℕ → ℕ → List ℕ
rounds_from i zero = []
rounds_from i (suc n) = i ∷ rounds_from (i + 1) n

-- Sorting numbers, as the parts are sorted.
unfoldable insert : ℕ → List ℕ → List ℕ
insert k [] = k ∷ []
insert k (j ∷ js) = let later = insert k js in if ltb j k then j ∷ later else k ∷ j ∷ js

unfoldable sort : List ℕ → List ℕ
unfolding insert
sort [] = []
sort (k ∷ ks) = insert k (sort ks)

insert_comm : (a b : ℕ) (l : List ℕ) → insert a (insert b l) ≡ insert b (insert a l)
unfolding insert
insert_comm a b [] = ground arith
insert_comm a b (c ∷ l) = ground (arith, insert_comm a b l)

sort-Permᴰ : {xs ys : List ℕ} → Permᴰ xs ys → sort xs ≡ sort ys
unfolding sort
sort-Permᴰ Permᴰ.nil = refl
sort-Permᴰ (Permᴰ.cons {a} {b} {l₂ = ys} e p) =
    ap (insert a) (sort-Permᴰ p) ∙ (λ i. insert (e i) (sort ys))
sort-Permᴰ (Permᴰ.swap {a} {b} {a'} {b'} {l} e f) =
    insert_comm a b (sort l) ∙ (λ i. insert (f i) (insert (e i) (sort l)))
sort-Permᴰ (Permᴰ.trans p q) = sort-Permᴰ p ∙ sort-Permᴰ q

sort-Perm : (xs ys : List ℕ) → Perm xs ys → sort xs ≡ sort ys
sort-Perm xs ys p = ∥∥₁_elim p (is_set ℕ_set (sort xs) (sort ys)) sort-Permᴰ

insert-least : (k : ℕ) (js : List ℕ) → All (λ j. k ≤ j) js → insert k js ≡ k ∷ js
unfolding insert
insert-least k [] h = refl
insert-least k (j ∷ js) h = ground (arith, h.0)

rounds_from-All : (k i n : ℕ) → k ≤ i → All (λ j. k ≤ j) (rounds_from i n)
rounds_from-All k i zero h = tt
rounds_from-All k i (suc n) h = (h, rounds_from-All k (i + 1) n (omega arith))

sort-rounds_from : (i n : ℕ) → sort (rounds_from i n) ≡ rounds_from i n
unfolding sort
sort-rounds_from i zero = refl
sort-rounds_from i (suc n) =
    ap (insert i) (sort-rounds_from (i + 1) n)
    ∙ insert-least i (rounds_from (i + 1) n) (rounds_from-All i (i + 1) n (omega arith))

and_swap : (a b c : Bool) → (a && (b && c)) ≡ (b && (a && c))
and_swap true true c = refl
and_swap true false c = refl
and_swap false true c = refl
and_swap false false c = refl

module _ (p : ℕ → Bool) where
  -- A test of all rounds.
  abbrev pub all_rounds : List ℕ → Bool
  all_rounds [] = true
  all_rounds (k ∷ ks) = p k && all_rounds ks

  all_rounds-Permᴰ : {xs ys : List ℕ} → Permᴰ xs ys → all_rounds xs ≡ all_rounds ys
  all_rounds-Permᴰ Permᴰ.nil = refl
  all_rounds-Permᴰ (Permᴰ.cons {a} {b} {l₂ = ys} e q) =
      ap (λ r. p a && r) (all_rounds-Permᴰ q) ∙ (λ i. p (e i) && all_rounds ys)
  all_rounds-Permᴰ (Permᴰ.swap {a} {b} {a'} {b'} {l} e f) =
      and_swap (p a) (p b) (all_rounds l) ∙ (λ i. p (f i) && (p (e i) && all_rounds l))
  all_rounds-Permᴰ (Permᴰ.trans q r) = all_rounds-Permᴰ q ∙ all_rounds-Permᴰ r

module _ (w : Surroundings) (upload_id : String) (size part_size : ℕ) where
  abbrev copied : ℕ → Bool
  copied i = is_got (copy_part w upload_id size part_size i)

  abbrev pub etag_of : CallResult → String
  etag_of (got e) = e
  etag_of _ = ""

  -- What a goroutine reports of its part.
  abbrev pub completed_of : ℕ → CompletedPart
  completed_of i = record {
    part_number = i + 1;
    etag = etag_of (copy_part w upload_id size part_size i);
  }

  has_no_error_lem :
      (is : List ℕ) → has_no_error w upload_id size part_size is ≡ all_rounds copied is
  unfolding has_no_error
  has_no_error_lem [] = refl
  has_no_error_lem (i ∷ is) = settle (copied i) (has_no_error_lem is)
    where
      settle : (b : Bool) {x y : Bool} → x ≡ y → (if b then x else false) ≡ (b && y)
      settle true e = e
      settle false e = refl

  complete-one :
      (r : CallResult) (i : ℕ) (rest : List CompletedPart)
      → is_got r ≡ true
      → ◌≡◌ {A = List CompletedPart}
          (elim r [ got e ↦ record { part_number = i + 1; etag = e } ∷ rest | _ ↦ rest ])
          (record { part_number = i + 1; etag = etag_of r } ∷ rest)
  complete-one (got e) i rest h = refl
  complete-one interrupted i rest h = cc
  complete-one not_built i rest h = cc
  complete-one undecodable i rest h = cc
  complete-one etag_missing i rest h = cc
  complete-one call_failed i rest h = cc
  complete-one (bad_status n) i rest h = cc

  completed_parts-map :
      (is : List ℕ)
      → all_rounds copied is ≡ true
      → completed_parts w upload_id size part_size is ≡ map completed_of is
  unfolding completed_parts
  completed_parts-map [] h = refl
  completed_parts-map (i ∷ is) h =
      let both = and_both (copied i) (all_rounds copied is) h in
      complete-one (copy_part w upload_id size part_size i) i
        (completed_parts w upload_id size part_size is) both.0
      ∙ ap (◌∷◌ (completed_of i)) (completed_parts-map is both.1)
    where
      and_both : (a b : Bool) → (a && b) ≡ true → (a ≡ true) × (b ≡ true)
      and_both true b e = (refl, e)
      and_both false b e = cc

  insert_part-map :
      (k : ℕ) (js : List ℕ)
      → insert_part (completed_of k) (map completed_of js) ≡ map completed_of (insert k js)
  unfolding insert_part insert
  insert_part-map k [] = refl
  insert_part-map k (j ∷ js) = elim (Bool-cases (ltb j k)) [
    | inl less ↦
        if_true {b = ltb (j + 1) (k + 1)} _ _ (ground (arith, less))
        ∙ ap (◌∷◌ (completed_of j)) (insert_part-map k js)
        ∙ sym (ap (map completed_of) (if_true {b = ltb j k} (j ∷ insert k js) (k ∷ j ∷ js) less))
    | inr more ↦
        if_false {b = ltb (j + 1) (k + 1)} _ _ (ground (arith, more))
        ∙ sym (ap (map completed_of) (if_false {b = ltb j k} (j ∷ insert k js) (k ∷ j ∷ js) more))
  ]

  sort_parts-map : (is : List ℕ) → sort_parts (map completed_of is) ≡ map completed_of (sort is)
  unfolding sort_parts sort
  sort_parts-map [] = refl
  sort_parts-map (i ∷ is) =
      ap (insert_part (completed_of i)) (sort_parts-map is) ∙ insert_part-map i (sort is)

  -- The upload as one goroutine after another would do it.
  abbrev pub in_order : ℕ → Bool × List Request
  in_order n =
      let rounds = rounds_from 0 n in
      if all_rounds copied rounds
      then (w.is_completed, create_upload ∷ complete_upload (map completed_of rounds) ∷ [])
      else (false, create_upload ∷ abort_upload ∷ [])

  finish_upload-order :
      (order : List ℕ) (n : ℕ)
      → Perm order (rounds_from 0 n)
      → finish_upload w upload_id size part_size order ≡ in_order n
  unfolding finish_upload
  finish_upload-order order n p = elim (Bool-cases (all_rounds copied (rounds_from 0 n))) [
    | inl every ↦
        if_true {b = has_no_error w upload_id size part_size order} _ _ (same ∙ every)
        ∙ (λ i. (w.is_completed, create_upload ∷ complete_upload (parts every i) ∷ []))
        ∙ sym (
            if_true {b = all_rounds copied (rounds_from 0 n)}
              (
                w.is_completed,
                create_upload ∷ complete_upload (map completed_of (rounds_from 0 n)) ∷ [],
              )
              _ every)
    | inr failed ↦
        if_false {b = has_no_error w upload_id size part_size order} _ _ (same ∙ failed)
        ∙ sym (
            if_false {b = all_rounds copied (rounds_from 0 n)}
              (
                w.is_completed,
                create_upload ∷ complete_upload (map completed_of (rounds_from 0 n)) ∷ [],
              )
              _ failed)
  ]
    where
      same_all : all_rounds copied order ≡ all_rounds copied (rounds_from 0 n)
      same_all = ∥∥₁_elim p (Bool-set _ _) (all_rounds-Permᴰ copied)

      same : has_no_error w upload_id size part_size order ≡ all_rounds copied (rounds_from 0 n)
      same = has_no_error_lem order ∙ same_all

      parts :
          all_rounds copied (rounds_from 0 n) ≡ true
          → sort_parts (completed_parts w upload_id size part_size order)
            ≡ map completed_of (rounds_from 0 n)
      parts every =
          ap sort_parts (completed_parts-map order (same_all ∙ every))
          ∙ sort_parts-map order
          ∙ ap (map completed_of) (sort-Perm order (rounds_from 0 n) p ∙ sort-rounds_from 0 n)

parts_from-map :
    (size part_size n i : ℕ)
    → parts_from size part_size n i ≡ map (part_at size part_size) (rounds_from i n)
unfolding parts_from
parts_from-map size part_size zero i = refl
parts_from-map size part_size (suc n) i =
    ap (◌∷◌ (part_at size part_size i)) (parts_from-map size part_size n (i + 1))

-- A file that is not empty and not below the threshold, whose upload can be created, is copied in
-- parts that are the file, each byte once and in order. In whatever order the parts end, the
-- upload is what it is when they are copied one after another: when every part brings an etag,
-- the upload is completed with the parts in order, and else it is aborted and the copy fails.
pub transfer_file-order :
    (multipart_threshold min_part_size size : ℕ) (w : Surroundings) (upload_id : String)
    (order : List ℕ)
    → let part_size = calculate_part_size min_part_size size in
      let n = rounds_of min_part_size size in
      0 < min_part_size
      → 0 < size
      → multipart_threshold ≤ size
      → w.is_addressed ≡ true
      → w.upload ≡ some upload_id
      → Perm order (rounds_from 0 n)
      → Tiles 1 0 size (map (part_at size part_size) (rounds_from 0 n))
        × (transfer_file multipart_threshold min_part_size w size order
            ≡ in_order w upload_id size part_size n)
unfolding transfer_file rounds_of plan_parts
transfer_file-order threshold min_part_size size w upload_id order hm hs large addressed created p =
    (
      subst (Tiles 1 0 size)
          (parts_from-map size (calculate_part_size min_part_size size)
            (rounds_of min_part_size size) 0)
          (plan_parts-Tiles min_part_size size hm hs),
      if_false {b = not w.is_addressed} (false, []) _ (ap not addressed)
          ∙ if_false {b = ltb size threshold} _ (upload_file w min_part_size size order w.upload)
              (ground (arith, large))
          ∙ ap (upload_file w min_part_size size order) created
          ∙ finish_upload-order w upload_id size (calculate_part_size min_part_size size) order
              (rounds_of min_part_size size) p,
    )
