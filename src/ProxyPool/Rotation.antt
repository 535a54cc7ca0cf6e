-- ===== src/ProxyPool/Rotation.antt =====
-- Which proxy `nextProxy` picks.
use native.Mathlib.Nat.{zero-add, add-zero, mod-lt, mod-eq_of_lt, mod-eq-sub-mod, mod-add-mod}
use tmp_cf_ytb_admin.Base.{
  ℕ, zero, suc, ◌+◌, ◌-◌, ◌%◌, ◌≤◌, ◌<◌, ◌≡◌, sym, subst, true, false, Option, none, some, List, [],
  ◌∷◌, arith, ℕ_discrete, Bool-cases, inl, inr, length, get_elem?, dec_lt, ap, ◌∙◌,
}
use tmp_cf_ytb_admin.ProxyPool.{Proxy, Manager, online_at, scan, next_proxy}

-- The position found is the first online one in cyclic order.
abbrev pub FirstFrom : List Proxy → ℕ → ℕ → ℕ → ℕ → Type 0
FirstFrom ps start from to i =
    (d : ℕ) × (from ≤ d)
    × (d < to)
    × (i ≡ (start + d) % length ps)
    × (online_at ps i ≡ true)
    × ((j : ℕ) → from ≤ j → j < d → online_at ps ((start + j) % length ps) ≡ false)

scan-here :
    (ps : List Proxy) (start rounds i : ℕ)
    → online_at ps ((start + i) % length ps) ≡ true
    → scan ps start (suc rounds) i ≡ some ((start + i) % length ps)
unfolding scan
scan-here ps start rounds i e = rw e

scan-later :
    (ps : List Proxy) (start rounds i : ℕ)
    → online_at ps ((start + i) % length ps) ≡ false
    → scan ps start (suc rounds) i ≡ scan ps start rounds (i + 1)
unfolding scan
scan-later ps start rounds i e = rw e

-- A fact at `i` and from `i + 1` on is a fact from `i` on.
from_step {ℓ} :
    (P : ℕ → Type ℓ) (i k : ℕ)
    → P i
    → ((j : ℕ) → i + 1 ≤ j → j < k → P j)
    → (j : ℕ) → i ≤ j
    → j < k
    → P j
from_step P i k h rest j lo hi = elim (ℕ_discrete i j) [
  | yes e ↦ subst P e h
  | no e ↦ rest j (omega arith) hi
]

scan-some :
    (ps : List Proxy) (start rounds i r : ℕ)
    → scan ps start rounds i ≡ some r
    → FirstFrom ps start i (i + rounds) r
scan-some ps start zero i r h = absurd (unfold scan in cc)
scan-some ps start (suc rounds) i r h = elim (Bool-cases (online_at ps ((start + i) % length ps))) [
  | inl up ↦
      let e : (start + i) % length ps ≡ r = cc (scan-here ps start rounds i up) in
      (i, omega arith, omega arith, sym e, rw (← e) up, λ j lo hi. absurd (omega arith))
  | inr down ↦
      let (d, lo, hi, e, up, before) =
        scan-some ps start rounds (i + 1) r (sym (scan-later ps start rounds i down) ∙ h) in
      (
        d,
        omega arith,
        omega arith,
        e,
        up,
        from_step (λ j. online_at ps ((start + j) % length ps) ≡ false) i d down before,
      )
]

scan-none :
    (ps : List Proxy) (start rounds i : ℕ)
    → scan ps start rounds i ≡ none
    → (j : ℕ) → i ≤ j
    → j < i + rounds
    → online_at ps ((start + j) % length ps) ≡ false
scan-none ps start zero i h j lo hi = absurd (omega arith)
scan-none ps start (suc rounds) i h j lo hi =
    elim (Bool-cases (online_at ps ((start + i) % length ps))) [
      | inl up ↦ cc (scan-here ps start rounds i up)
      | inr down ↦
          from_step (λ j. online_at ps ((start + j) % length ps) ≡ false) i (i + suc rounds) down
            (λ j lo hi.
              scan-none ps start rounds (i + 1) (sym (scan-later ps start rounds i down) ∙ h) j lo
                (omega arith))
            j lo hi
    ]

-- Every position is met from a start that is in range.
cyclic_onto : (n start i : ℕ) → start < n → i < n → (j : ℕ) × (j < n) × ((start + j) % n ≡ i)
cyclic_onto n start i hs hi = elim (dec_lt i start) [
  | yes below ↦ (i + n - start, omega arith, grind (arith, mod-eq-sub-mod, mod-eq_of_lt))
  | no above ↦ (i - start, omega arith, grind (arith, mod-eq_of_lt))
]

-- A pick is online, is the first online proxy in cyclic order from the saved index, and the index
-- moves just past it; the proxies are not changed.
pub next_proxy-some :
    (m : Manager) (i : ℕ)
    → (next_proxy m).1 ≡ some i
    → FirstFrom m.proxies m.current_index 0 (length m.proxies) i
      × ((next_proxy m).0 ≡ record m { current_index = (i + 1) % length m.proxies })
next_proxy-some m i h =
    let e : scan m.proxies m.current_index (length m.proxies) 0 ≡ some i =
      unfold next_proxy in ground arith in
    (
      rw zero-add at (scan-some m.proxies m.current_index (length m.proxies) 0 i e),
      unfold next_proxy in ground arith,
    )

-- Nothing is picked exactly when every proxy is offline.
pub next_proxy-none :
    (m : Manager)
    → m.current_index < length m.proxies
    → (next_proxy m).1 ≡ none
    → (i : ℕ) → i < length m.proxies
    → online_at m.proxies i ≡ false
next_proxy-none m hc h i hi =
    let e : scan m.proxies m.current_index (length m.proxies) 0 ≡ none =
      unfold next_proxy in ground arith in
    let (j, lt, at) = cyclic_onto (length m.proxies) m.current_index i hc hi in
    rw (← at)
      (scan-none m.proxies m.current_index (length m.proxies) 0 e j (omega arith) (omega arith))

-- How many picks are made, one after another, and what they are.
unfoldable pub picks : ℕ → Manager → List (Option ℕ)
picks zero m = []
picks (suc k) m = (next_proxy m).1 ∷ picks k (next_proxy m).0

abbrev pub AllOnline : List Proxy → Type 0
AllOnline ps = (i : ℕ) → i < length ps → online_at ps i ≡ true

scan_start :
    (ps : List Proxy) (c rounds : ℕ)
    → c < length ps
    → 0 < rounds
    → online_at ps c ≡ true
    → scan ps c rounds 0 ≡ some c
scan_start ps c zero hc h up = absurd (omega arith)
scan_start ps c (suc rounds) hc h up =
    let e : (c + 0) % length ps ≡ c = rw (add-zero, mod-eq_of_lt hc) in
    scan-here ps c rounds 0 (rw e up) ∙ ap some e

next_proxy-AllOnline :
    (m : Manager)
    → AllOnline m.proxies
    → m.current_index < length m.proxies
    → next_proxy m ≡ (
      record m { current_index = (m.current_index + 1) % length m.proxies },
      some m.current_index,
    )
unfolding next_proxy
next_proxy-AllOnline m up hc = ground (
  arith,
  scan_start m.proxies m.current_index (length m.proxies) hc (omega arith) (up m.current_index hc),
)

cyclic_step : (n c j : ℕ) → ((c + 1) % n + j) % n ≡ (c + suc j) % n
cyclic_step n c j = rw mod-add-mod (ap (λ (t : ℕ). t % n) (omega arith))

-- With every proxy online the picks go round: the k-th is `k` places after the saved index.
pub picks-rotate :
    (k j : ℕ) (m : Manager)
    → AllOnline m.proxies
    → m.current_index < length m.proxies
    → j < k
    → get_elem? (picks k m) j ≡ some (some ((m.current_index + j) % length m.proxies))
unfolding picks
picks-rotate zero j m up hc h = absurd (omega arith)
picks-rotate (suc k) zero m up hc h =
    rw (next_proxy-AllOnline m up hc) (rw (add-zero, mod-eq_of_lt hc))
picks-rotate (suc k) (suc j) m up hc h = rw (next_proxy-AllOnline m up hc) (
    picks-rotate k j (record m { current_index = (m.current_index + 1) % length m.proxies }) up
      (mod-lt (m.current_index + 1) (omega arith)) (omega arith)
    ∙ ap (λ (i : ℕ). some (some i)) (cyclic_step (length m.proxies) m.current_index j))
