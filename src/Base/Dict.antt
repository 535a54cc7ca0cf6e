-- ===== src/Base/Dict.antt =====
-- Maps keyed by native numbers (Go maps over ids, Redis hashes), as association lists.
use Prim.Native.Nat.{ℕ}
use mathlib.Core.Path.{◌≡◌, refl, ◌∙◌}
use mathlib.Core.Bool.{false}
use mathlib.Core.List.{List, [], ◌∷◌}
use mathlib.Core.Option.{Option, none, some}
use native.Mathlib.Omega.{arith}
use mathlib.Core.Logic.{inl, inr}
use tmp_cf_ytb_admin.Base.Tests.{◌==◌, ==_iff, if◌then◌else◌, Bool-cases}

==-flip : (j k : ℕ) → (j == k) ≡ false → (k == j) ≡ false
==-flip j k h = ground arith

module _ {ℓ} {V : Type ℓ} where
  unfoldable pub get : ℕ → List (ℕ × V) → Option V
  get k [] = none
  get k ((j, v) ∷ m) = if j == k then some v else get k m

  unfoldable pub put : ℕ → V → List (ℕ × V) → List (ℕ × V)
  put k v [] = (k, v) ∷ []
  put k v ((j, w) ∷ m) = if j == k then (k, v) ∷ m else (j, w) ∷ put k v m

  pub get-put :
      (k j : ℕ) (v : V) (m : List (ℕ × V))
      → get j (put k v m) ≡ (if k == j then some v else get j m)
  unfolding get put
  get-put k j v [] = refl
  get-put k j v ((i, w) ∷ m) = ground (arith, get-put k j v m)

  pub get-put_ne :
      (k j : ℕ) (v : V) (m : List (ℕ × V)) → (k == j) ≡ false → get j (put k v m) ≡ get j m
  get-put_ne k j v m h = rw (get-put k j v m, h)

  -- No key has two entries.
  abbrev pub IsUnique : List (ℕ × V) → Type ℓ
  IsUnique [] = Unit
  IsUnique ((k, v) ∷ m) = (get k m ≡ none) × IsUnique m

  pub put-IsUnique : (k : ℕ) (v : V) (m : List (ℕ × V)) → IsUnique m → IsUnique (put k v m)
  unfolding put get
  put-IsUnique k v [] u = (refl, tt)
  put-IsUnique k v ((j, w) ∷ m) u = elim (Bool-cases (j == k)) [
    | inl same ↦ rw same (rw (← (==_iff j k).0 same) u.0, u.1)
    | inr other ↦ rw other (get-put_ne k j v m (==-flip j k other) ∙ u.0, put-IsUnique k v m u.1)
  ]
