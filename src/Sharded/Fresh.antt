-- ===== src/Sharded/Fresh.antt =====
-- The inputs that are left when those seen before and those already known are taken out, as the
-- handlers that add tasks do.
use tmp_cf_ytb_admin.Base.{
  suc, ◌≡◌, refl, sym, ap, ◌∙◌, String, str_eq, Bool, true, false, not, ◌||◌, List, [], ◌∷◌,
  Bool-cases, inl, inr, if_true, if_false, length, keep, arith,
}
use tmp_cf_ytb_admin.Sharded.{Input, contains, unique_inputs}
use tmp_cf_ytb_admin.SourceSet.{
  mentions, number_new, number_new-ext, absorb, or_swap, or_assoc, or_false,
}

abbrev pub fresh : (String → Bool) → List String → List Input → List Input
fresh known seen is = keep (λ i. not (known i.src)) (unique_inputs seen is)

module _ (known : String → Bool) where
  abbrev or_seen : List String → String → Bool
  or_seen seen x = known x || contains x seen

  fresh-seen :
      (seen : List String) (i : Input) (is : List Input)
      → contains i.src seen ≡ true
      → fresh known seen (i ∷ is) ≡ fresh known seen is
  unfolding unique_inputs
  fresh-seen seen i is h =
      ap (keep (λ j. not (known j.src))) (if_true {b = contains i.src seen} _ _ h)

  fresh-known :
      (seen : List String) (i : Input) (is : List Input)
      → contains i.src seen ≡ false
      → known i.src ≡ true
      → fresh known seen (i ∷ is) ≡ fresh known (i.src ∷ seen) is
  unfolding unique_inputs
  fresh-known seen i is h k =
      ap (keep (λ j. not (known j.src))) (if_false {b = contains i.src seen} _ _ h)
      ∙ if_false {b = not (known i.src)} _ _ (ap not k)

  fresh-new :
      (seen : List String) (i : Input) (is : List Input)
      → contains i.src seen ≡ false
      → known i.src ≡ false
      → fresh known seen (i ∷ is) ≡ i ∷ fresh known (i.src ∷ seen) is
  unfolding unique_inputs
  fresh-new seen i is h k =
      ap (keep (λ j. not (known j.src))) (if_false {b = contains i.src seen} _ _ h)
      ∙ if_true {b = not (known i.src)} _ _ (ap not k)

  or_true : (a b : Bool) → b ≡ true → (a || b) ≡ true
  or_true true b h = refl
  or_true false b h = h

  or_both : (a b : Bool) → a ≡ false → b ≡ false → (a || b) ≡ false
  or_both true b h k = h
  or_both false b h k = k

  length-fresh :
      (seen : List String) (is : List Input)
      → length (fresh known seen is) ≡ number_new (or_seen seen) is
  unfolding unique_inputs number_new
  length-fresh seen [] = refl
  length-fresh seen (i ∷ is) = elim (Bool-cases (contains i.src seen)) [
    | inl s ↦
        ap length (fresh-seen seen i is s)
        ∙ length-fresh seen is
        ∙ sym (if_true {b = or_seen seen i.src} _ _ (or_true (known i.src) _ s))
    | inr s ↦ elim (Bool-cases (known i.src)) [
      | inl k ↦
          ap length (fresh-known seen i is s k)
          ∙ length-fresh (i.src ∷ seen) is
          ∙ number_new-ext (or_seen (i.src ∷ seen)) (or_seen seen) is
              (λ x. sym (absorb known i.src x (contains x seen) k))
          ∙ sym (if_true {b = or_seen seen i.src} _ _ (ap (λ b. b || contains i.src seen) k))
      | inr k ↦
          ap length (fresh-new seen i is s k)
          ∙ ap suc (
              length-fresh (i.src ∷ seen) is
              ∙ number_new-ext (or_seen (i.src ∷ seen)) (λ x. str_eq i.src x || or_seen seen x) is
                  (λ x. rotate (known x) (str_eq i.src x) (contains x seen)))
          ∙ sym (if_false {b = or_seen seen i.src} _ _ (or_both (known i.src) _ k s))
    ]
  ]
    where
      rotate : (a b c : Bool) → (a || (b || c)) ≡ (b || (a || c))
      rotate a b c = or_assoc a b c ∙ or_swap a b c

  shuffle : (k c e m : Bool) → ((k || (e || c)) || m) ≡ ((k || c) || (e || m))
  shuffle true c e m = refl
  shuffle false true true m = refl
  shuffle false true false m = refl
  shuffle false false true m = refl
  shuffle false false false m = refl

  -- A source is known or among what is left when it is known or among the inputs.
  mentions-fresh :
      (seen : List String) (is : List Input) (x : String)
      → (or_seen seen x || mentions x (fresh known seen is)) ≡ (or_seen seen x || mentions x is)
  unfolding unique_inputs
  mentions-fresh seen [] x = refl
  mentions-fresh seen (i ∷ is) x = elim (Bool-cases (contains i.src seen)) [
    | inl s ↦
        ap (λ l. or_seen seen x || mentions x l) (fresh-seen seen i is s)
        ∙ mentions-fresh seen is x
        ∙ absorb (or_seen seen) i.src x (mentions x is) (or_true (known i.src) _ s)
    | inr s ↦ elim (Bool-cases (known i.src)) [
      | inl k ↦
          ap (λ l. or_seen seen x || mentions x l) (fresh-known seen i is s k)
          ∙ ap (λ b. b || mentions x (fresh known (i.src ∷ seen) is))
              (absorb known i.src x (contains x seen) k)
          ∙ mentions-fresh (i.src ∷ seen) is x
          ∙ shuffle (known x) (contains x seen) (str_eq i.src x) (mentions x is)
      | inr k ↦
          ap (λ l. or_seen seen x || mentions x l) (fresh-new seen i is s k)
          ∙ sym (
              shuffle (known x) (contains x seen) (str_eq i.src x)
                (mentions x (fresh known (i.src ∷ seen) is)))
          ∙ mentions-fresh (i.src ∷ seen) is x
          ∙ shuffle (known x) (contains x seen) (str_eq i.src x) (mentions x is)
    ]
  ]

  -- The case in which nothing was seen before.
  pub number-fresh : (is : List Input) → length (fresh known [] is) ≡ number_new known is
  number-fresh is =
      length-fresh [] is ∙ number_new-ext (or_seen []) known is (λ x. or_false (known x))

  pub knows-fresh :
      (is : List Input) (x : String)
      → (known x || mentions x (fresh known [] is)) ≡ (known x || mentions x is)
  knows-fresh is x =
      ap (λ b. b || mentions x (fresh known [] is)) (sym (or_false (known x)))
      ∙ mentions-fresh [] is x
      ∙ ap (λ b. b || mentions x is) (or_false (known x))

pub mentions-none : (is : List Input) (x : String) → length is ≡ 0 → mentions x is ≡ false
mentions-none [] x h = refl
mentions-none (i ∷ is) x h = absurd (omega (arith, h))

-- Taking out repeated sources twice is taking them out once.
pub unique_inputs-unique_inputs :
    (seen : List String) (is : List Input)
    → unique_inputs seen (unique_inputs seen is) ≡ unique_inputs seen is
unfolding unique_inputs
unique_inputs-unique_inputs seen [] = refl
unique_inputs-unique_inputs seen (i ∷ is) = elim (Bool-cases (contains i.src seen)) [
  | inl s ↦
      ap (unique_inputs seen) (if_true {b = contains i.src seen} _ _ s)
      ∙ unique_inputs-unique_inputs seen is
      ∙ sym (if_true {b = contains i.src seen} _ _ s)
  | inr s ↦
      ap (unique_inputs seen) (if_false {b = contains i.src seen} _ _ s)
      ∙ if_false {b = contains i.src seen} _ _ s
      ∙ ap (◌∷◌ i) (unique_inputs-unique_inputs (i.src ∷ seen) is)
      ∙ sym (if_false {b = contains i.src seen} _ _ s)
]
