-- ===== src/SourceSet.antt =====
-- What adding tasks to a transfer job promises, however the job is kept: the job is a set of
-- sources, and adding inputs adds those sources that it does not know yet, each once. The
-- handlers of backend/go-app/handlers that take batches from the scanners rely on this alone.
use tmp_cf_ytb_admin.Base.{
  ℕ, suc, ◌+◌, ◌≡◌, refl, sym, ap, ◌∙◌, String, str_eq, Bool, true, false, ◌||◌, List, [], ◌∷◌,
  ◌++◌, arith, if◌then◌else◌, Bool-cases, inl, inr, if_true, if_false, subst, eq_iff,
}
use tmp_cf_ytb_admin.Sharded.{Input}

pub record SourceSet : Type 1 where
  pub State : Type 0
  pub knows : State → String → Bool
  -- How many tasks were added, and the state.
  pub add : List Input → State → ℕ × State

abbrev pub mentions : String → List Input → Bool
mentions x [] = false
mentions x (i ∷ is) = str_eq i.src x || mentions x is

-- How many sources among the inputs are not known, counting each once.
unfoldable pub number_new : (String → Bool) → List Input → ℕ
number_new known [] = 0
number_new known (i ∷ is) =
    let old = number_new known is in
    let new = suc (number_new (λ x. str_eq i.src x || known x) is) in
    if known i.src then old else new

pub record IsLawful (S : SourceSet) : Type 0 where
  pub knows-add :
      (is : List Input) (s : S.State) (x : String)
      → S.knows (S.add is s).1 x ≡ (S.knows s x || mentions x is)
  pub number-add : (is : List Input) (s : S.State) → (S.add is s).0 ≡ number_new (S.knows s) is

-- What is added has its own task.
pub record IsStoring (S : SourceSet) (HasTask : S.State → String → Type 0) : Type 0 where
  pub add-HasTask :
      (is : List Input) (s : S.State) (x : String)
      → S.knows s x ≡ false
      → mentions x is ≡ true
      → HasTask (S.add is s).1 x

pub number_new-ext :
    (known known' : String → Bool) (is : List Input)
    → ((x : String) → known x ≡ known' x)
    → number_new known is ≡ number_new known' is
unfolding number_new
number_new-ext known known' [] same = refl
number_new-ext known known' (i ∷ is) same =
    ap
      (λ b. if b then number_new known is else suc (number_new (λ x. str_eq i.src x || known x) is))
      (same i.src)
    ∙ ap (λ n. if known' i.src then n else suc (number_new (λ x. str_eq i.src x || known x) is))
        (number_new-ext known known' is same)
    ∙ ap (λ n. if known' i.src then number_new known' is else suc n)
        (number_new-ext (λ x. str_eq i.src x || known x) (λ x. str_eq i.src x || known' x) is
          (λ x. ap (λ b. str_eq i.src x || b) (same x)))

pub or_assoc : (a b c : Bool) → (a || (b || c)) ≡ ((a || b) || c)
or_assoc true b c = refl
or_assoc false b c = refl

pub or_comm : (a b : Bool) → (a || b) ≡ (b || a)
or_comm true true = refl
or_comm true false = refl
or_comm false true = refl
or_comm false false = refl

pub or_false : (a : Bool) → (a || false) ≡ a
or_false true = refl
or_false false = refl

pub mentions-append :
    (x : String) (is js : List Input) → mentions x (is ++ js) ≡ (mentions x is || mentions x js)
mentions-append x [] js = refl
mentions-append x (i ∷ is) js =
    ap (λ b. str_eq i.src x || b) (mentions-append x is js)
    ∙ or_assoc (str_eq i.src x) (mentions x is) (mentions x js)

zero_plus : (n : ℕ) → 0 + n ≡ n
zero_plus n = omega arith

pub absorb :
    (known : String → Bool) (y x : String) (m : Bool)
    → known y ≡ true
    → (known x || m) ≡ (known x || (str_eq y x || m))
absorb known y x m h = elim (Bool-cases (str_eq y x)) [
  | inl e ↦
      let here : known x ≡ true = subst (λ z. known z ≡ true) ((eq_iff y x).0 e) h in
      ap (λ b. b || m) here ∙ sym (ap (λ b. b || (str_eq y x || m)) here)
  | inr e ↦ ap (λ b. known x || (b || m)) (sym e)
]

pub or_swap : (a b c : Bool) → ((a || b) || c) ≡ (b || (a || c))
or_swap true true c = refl
or_swap true false c = refl
or_swap false true c = refl
or_swap false false c = refl

pub number_new-append :
    (known : String → Bool) (is js : List Input)
    → number_new known (is ++ js)
      ≡ number_new known is + number_new (λ x. known x || mentions x is) js
unfolding number_new
number_new-append known [] js =
    number_new-ext known (λ x. known x || false) js (λ x. sym (or_false (known x)))
    ∙ sym (zero_plus (number_new (λ x. known x || false) js))
number_new-append known (i ∷ is) js = elim (Bool-cases (known i.src)) [
  | inl old ↦
      if_true {b = known i.src} _ _ old
      ∙ number_new-append known is js
      ∙ ap (λ n. number_new known is + n)
          (number_new-ext (λ x. known x || mentions x is)
            (λ x. known x || (str_eq i.src x || mentions x is)) js
            (λ x. absorb known i.src x (mentions x is) old))
      ∙ ap (λ n. n + number_new (λ x. known x || (str_eq i.src x || mentions x is)) js)
          (sym (
            if_true {b = known i.src} (number_new known is)
              (suc (number_new (λ x. str_eq i.src x || known x) is)) old))
  | inr new ↦
      let known' = λ (x : String). str_eq i.src x || known x in
      let after = number_new (λ x. known x || (str_eq i.src x || mentions x is)) js in
      if_false {b = known i.src} _ _ new
      ∙ ap suc (number_new-append known' is js)
      ∙ suc_plus (number_new known' is) _
      ∙ ap (λ n. suc (number_new known' is) + n)
          (number_new-ext (λ x. known' x || mentions x is)
            (λ x. known x || (str_eq i.src x || mentions x is)) js
            (λ x. or_swap (str_eq i.src x) (known x) (mentions x is)))
      ∙ ap (λ n. n + after)
          (sym (if_false {b = known i.src} (number_new known is) (suc (number_new known' is)) new))
]
  where
    suc_plus : (a b : ℕ) → suc (a + b) ≡ suc a + b
    suc_plus a b = omega arith

abbrev pub concat : List (List Input) → List Input
concat [] = []
concat (b ∷ bs) = b ++ concat bs

-- One batch after another: how many were added in all, and the state.
abbrev pub add_batches : (S : SourceSet) → List (List Input) → S.State → ℕ × S.State
add_batches S [] s = (0, s)
add_batches S (b ∷ bs) s =
    let one = S.add b s in let rest = add_batches S bs one.1 in (one.0 + rest.0, rest.1)

module _ (S : SourceSet) (law : IsLawful S) where
  pub knows-add_batches :
      (bs : List (List Input)) (s : S.State) (x : String)
      → S.knows (add_batches S bs s).1 x ≡ (S.knows s x || mentions x (concat bs))
  knows-add_batches [] s x = sym (or_false (S.knows s x))
  knows-add_batches (b ∷ bs) s x =
      knows-add_batches bs (S.add b s).1 x
      ∙ ap (λ k. k || mentions x (concat bs)) (law.knows-add b s x)
      ∙ sym (or_assoc (S.knows s x) (mentions x b) (mentions x (concat bs)))
      ∙ ap (λ m. S.knows s x || m) (sym (mentions-append x b (concat bs)))

  -- How the inputs are cut into batches does not matter.
  pub number-add_batches :
      (bs : List (List Input)) (s : S.State)
      → (add_batches S bs s).0 ≡ number_new (S.knows s) (concat bs)
  unfolding number_new
  number-add_batches [] s = refl
  number-add_batches (b ∷ bs) s =
      ap (λ n. n + (add_batches S bs (S.add b s).1).0) (law.number-add b s)
      ∙ ap (λ n. number_new (S.knows s) b + n)
          (number-add_batches bs (S.add b s).1
            ∙ number_new-ext (S.knows (S.add b s).1) (λ x. S.knows s x || mentions x b) (concat bs)
                (law.knows-add b s))
      ∙ sym (number_new-append (S.knows s) b (concat bs))

abbrev IsKnown : (String → Bool) → List Input → Type 0
IsKnown known is = (x : String) → mentions x is ≡ true → known x ≡ true

-- Nothing is new of what is all known.
number_new-IsKnown :
    (known : String → Bool) (is : List Input) → IsKnown known is → number_new known is ≡ 0
unfolding number_new
number_new-IsKnown known [] h = refl
number_new-IsKnown known (i ∷ is) h =
    if_true {b = known i.src} _ _
      (h i.src (ap (λ b. b || mentions i.src is) ((eq_iff i.src i.src).1 refl)))
    ∙ number_new-IsKnown known is (λ x m. h x (or_right (str_eq i.src x) (mentions x is) m))
  where
    or_right : (a b : Bool) → b ≡ true → (a || b) ≡ true
    or_right true b e = refl
    or_right false b e = e

module _ (S : SourceSet) (law : IsLawful S) where
  -- Adding the same batches again adds nothing.
  pub number-add_batches_again :
      (bs : List (List Input)) (s : S.State) → (add_batches S bs (add_batches S bs s).1).0 ≡ 0
  number-add_batches_again bs s =
      number-add_batches S law bs (add_batches S bs s).1
      ∙ number_new-IsKnown (S.knows (add_batches S bs s).1) (concat bs) (λ x m.
        knows-add_batches S law bs s x ∙ known_now (S.knows s x) (mentions x (concat bs)) m)
    where
      known_now : (a b : Bool) → b ≡ true → (a || b) ≡ true
      known_now true b e = refl
      known_now false b e = e
