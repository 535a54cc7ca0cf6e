-- ===== src/Transfer/Adaptive/Bounds.antt =====
-- The number of workers that the controller allows.
use tmp_cf_ytb_admin.Base.{
  ℕ, ◌+◌, ◌*◌, ◌^◌, ◌≤◌, ◌<◌, ◌≡◌, ◌≢◌, refl, sym, ap, ◌∙◌, subst, Bool, true, false, not, List, [],
  ◌∷◌, arith, ltb, leb, ◌==◌, if◌then◌else◌, length, min, ℤ, pos, negsuc, ◌+ℤ◌, ltb_ℤ, ◌≤ℤ◌,
  int_laws, eq_of_parts, Bool-cases, inl, inr, ◌⊎◌,
}
use tmp_cf_ytb_admin.Transfer.Adaptive.{
  Floats, int32, Controller, Config, factor_of, lowered, raised, in_cooldown, at_least, at_most,
  same_ℤ, decrease, step_of, increase, adjust_by, trigger_reasons, adjust_concurrency,
}

module _ (fl : Floats) (cfg : Config fl) where
  -- The limit lies between the two settings.
  abbrev pub InBounds : Controller → Type 0
  InBounds c =
      (pos cfg.min_workers ≤ℤ c.effective_worker_count)
      × (c.effective_worker_count ≤ℤ pos cfg.max_workers)

  -- Settings that make sense, and whose sums fit in an `int32`.
  abbrev pub AreSane : Type 0
  AreSane =
      (cfg.min_workers ≤ cfg.max_workers)
      × (1 ≤ cfg.concurrency_increase_step)
      × (cfg.max_workers * 2 + cfg.concurrency_increase_step * 2 < 2 ^ 31)

  -- A factor from 0 to 1: the product of a count is not negative and not larger.
  abbrev pub Shrinks : fl.F → Type 0
  Shrinks f = (n : ℕ) → (k : ℕ) × (fl.scale (pos n) f ≡ pos k) × (k ≤ n)

  int32-small : (n : ℕ) → n < 2 ^ 31 → int32 (pos n) ≡ pos n
  unfolding int32
  int32-small n h = ground arith

  add_pos : (n k : ℕ) → pos n +ℤ pos k ≡ pos (n + k)
  add_pos n k = omega int_laws

  step_of-le :
      (now : ℕ) (c : Controller)
      → 1 ≤ cfg.concurrency_increase_step
      → (1 ≤ step_of fl cfg now c) × (step_of fl cfg now c ≤ cfg.concurrency_increase_step * 2)
  step_of-le now c h = ground arith

  same_ℤ-eq : (a b : ℤ) → same_ℤ fl a b ≡ true → a ≡ b
  same_ℤ-eq a b h = eq_of_parts a b (ground arith)

  -- Without wrap-around, an increase is by the step, up to the maximum.
  raised_lem :
      (now n : ℕ) (c : Controller)
      → AreSane
      → c.effective_worker_count ≡ pos n
      → n ≤ cfg.max_workers
      → raised fl cfg now c ≡ pos (min (n + step_of fl cfg now c) cfg.max_workers)
  unfolding raised
  raised_lem now n c (lo, st, fits) e le =
      let (_, small) = step_of-le now c st in
      subst
        (λ w.
          at_most fl (pos cfg.max_workers) (int32 (w +ℤ int32 (pos (step_of fl cfg now c))))
          ≡ pos (min (n + step_of fl cfg now c) cfg.max_workers))
        (sym e)
        (rw
          (
            int32-small (step_of fl cfg now c) (omega arith),
            add_pos n (step_of fl cfg now c),
            int32-small (n + step_of fl cfg now c) (omega arith),
          )
          ground arith)

  increase_lem :
      (now n : ℕ) (c : Controller)
      → AreSane
      → c.effective_worker_count ≡ pos n
      → n ≤ cfg.max_workers
      → (increase fl cfg now c).effective_worker_count
        ≡ pos (min (n + step_of fl cfg now c) cfg.max_workers)
  unfolding increase
  increase_lem now n c sane e le =
      elim (Bool-cases (not (ltb_ℤ c.effective_worker_count (pos cfg.max_workers)))) [
        | inl full ↦
            let stays : not (ltb_ℤ (pos n) (pos cfg.max_workers)) ≡ true =
              subst (λ w. not (ltb_ℤ w (pos cfg.max_workers)) ≡ true) e full in
            rw full (e ∙ ap pos (ground arith))
        | inr room ↦ elim (Bool-cases (same_ℤ fl (raised fl cfg now c) c.effective_worker_count)) [
          | inl same ↦
              rw (room, same)
                (sym (same_ℤ-eq (raised fl cfg now c) c.effective_worker_count same)
                  ∙ raised_lem now n c sane e le)
          | inr new ↦ rw (room, new) (raised_lem now n c sane e le)
        ]
      ]

  decrease_lem :
      (reasons now : ℕ) (c : Controller)
      → (decrease fl cfg reasons now c).effective_worker_count ≡ lowered fl cfg reasons c
  unfolding decrease
  decrease_lem reasons now c =
      elim (Bool-cases (same_ℤ fl (lowered fl cfg reasons c) c.effective_worker_count)) [
        | inl same ↦
            rw same (sym (same_ℤ-eq (lowered fl cfg reasons c) c.effective_worker_count same))
        | inr new ↦ rw new refl
      ]

  bounded : (w : ℤ) (a b : ℕ) → pos a ≤ℤ w → w ≤ℤ pos b → (n : ℕ) × (w ≡ pos n) × (a ≤ n) × (n ≤ b)
  bounded (pos n) a b lo hi = (n, refl, omega (arith, lo), omega (arith, hi))
  bounded (negsuc n) a b lo hi = absurd (omega (arith, lo))

  lowered-InBounds :
      (reasons n : ℕ) (c : Controller)
      → Shrinks (factor_of fl cfg reasons)
      → c.effective_worker_count ≡ pos n
      → cfg.min_workers ≤ n
      → n ≤ cfg.max_workers
      → (k : ℕ) × (lowered fl cfg reasons c ≡ pos k) × (cfg.min_workers ≤ k) × (k ≤ n)
  unfolding lowered
  lowered-InBounds reasons n c shrinks e lo hi =
      let (k, scaled, le) = shrinks n in
      (
        (if ltb k cfg.min_workers then cfg.min_workers else k),
        ap (λ w. at_least fl (pos cfg.min_workers) (fl.scale w (factor_of fl cfg reasons))) e
            ∙ ap (at_least fl (pos cfg.min_workers)) scaled
            ∙ ground arith,
        ground arith,
        ground arith,
      )

  -- What an adjustment sets: no more and no less than before, within the bounds, or up by a step.
  adjust_by-cases :
      (reasons now n : ℕ) (c : Controller)
      → AreSane
      → Shrinks cfg.concurrency_decrease_factor
      → Shrinks cfg.four_tenths
      → c.effective_worker_count ≡ pos n
      → cfg.min_workers ≤ n
      → n ≤ cfg.max_workers
      → (k : ℕ) × ((adjust_by fl cfg reasons now c).effective_worker_count ≡ pos k)
        × (cfg.min_workers ≤ k)
        × (k ≤ cfg.max_workers)
        × ((k ≡ min (n + step_of fl cfg now c) cfg.max_workers)
            ⊎ ((reasons ≢ 0) × ((k ≡ n) ⊎ (in_cooldown fl cfg now c ≡ false))))
  unfolding adjust_by
  adjust_by-cases reasons now n c sane one_cause many_causes e lo hi =
      elim (Bool-cases (reasons == 0)) [
        | inl calm ↦ rw calm (
          min (n + step_of fl cfg now c) cfg.max_workers,
          increase_lem now n c sane e hi,
          omega (arith, lo, sane.0),
          omega arith,
          inl refl,
        )
        | inr busy ↦
            let some' : reasons ≢ 0 = ground arith in
            elim (Bool-cases (in_cooldown fl cfg now c)) [
              | inl cool ↦ rw (busy, cool) (n, e, lo, hi, inr (some', inl refl))
              | inr warm ↦
                  let (k, low, a, b) =
                    lowered-InBounds reasons n c (either (leb 2 reasons)) e lo hi in
                  rw (busy, warm)
                    (
                      k,
                      decrease_lem reasons now c ∙ low,
                      a,
                      omega (arith, b, hi),
                      inr (some', inr refl),
                    )
            ]
      ]
    where
      either : (b : Bool) → Shrinks (if b then cfg.four_tenths else cfg.concurrency_decrease_factor)
      either true = many_causes
      either false = one_cause

  -- With sane settings and factors from 0 to 1, the number of workers that the controller allows
  -- stays between the two settings, whatever it measures.
  pub adjust_concurrency-InBounds :
      (pool : fl.F) (now : ℕ) (c : Controller)
      → AreSane
      → Shrinks cfg.concurrency_decrease_factor
      → Shrinks cfg.four_tenths
      → InBounds c
      → InBounds (adjust_concurrency fl cfg pool now c)
  unfolding adjust_concurrency
  adjust_concurrency-InBounds pool now c sane one_cause many_causes (lo, hi) =
      let (n, e, a, b) = bounded c.effective_worker_count cfg.min_workers cfg.max_workers lo hi in
      let (k, set, a', b', _) =
        adjust_by-cases (trigger_reasons fl cfg pool c) now n c sane one_cause many_causes e a b in
      (
        subst (λ w. pos cfg.min_workers ≤ℤ w) (sym set) (omega (arith, a')),
        subst (λ w. w ≤ℤ pos cfg.max_workers) (sym set) (omega (arith, b')),
      )

  -- With sane settings and factors from 0 to 1, within the cooldown after a decrease no adjustment
  -- lowers the number of workers again, and none raises it by more than one.
  pub adjust_concurrency-cooldown :
      (pool : fl.F) (now : ℕ) (c : Controller)
      → AreSane
      → Shrinks cfg.concurrency_decrease_factor
      → Shrinks cfg.four_tenths
      → InBounds c
      → in_cooldown fl cfg now c ≡ true
      → (c.effective_worker_count ≤ℤ (adjust_concurrency fl cfg pool now c).effective_worker_count)
        × ((adjust_concurrency fl cfg pool now c).effective_worker_count
            ≤ℤ c.effective_worker_count +ℤ pos 1)
  unfolding adjust_concurrency
  adjust_concurrency-cooldown pool now c sane one_cause many_causes (lo, hi) cool =
      let (n, e, a, b) = bounded c.effective_worker_count cfg.min_workers cfg.max_workers lo hi in
      let reasons = trigger_reasons fl cfg pool c in
      let (k, set, a', b', why) =
        adjust_by-cases reasons now n c sane one_cause many_causes e a b in
      let eff = (adjust_concurrency fl cfg pool now c).effective_worker_count in
      subst (λ w. (w ≤ℤ eff) × (eff ≤ℤ w +ℤ pos 1)) (sym e)
        (subst (λ v. (pos n ≤ℤ v) × (v ≤ℤ pos n +ℤ pos 1)) (sym set) (near n k b why))
    where
      near :
          (n k : ℕ)
          → n ≤ cfg.max_workers
          → (k ≡ min (n + step_of fl cfg now c) cfg.max_workers)
            ⊎ ((trigger_reasons fl cfg pool c ≢ 0) × ((k ≡ n) ⊎ (in_cooldown fl cfg now c ≡ false)))
          → (pos n ≤ℤ pos k) × (pos k ≤ℤ pos n +ℤ pos 1)
      near n k b (inl up) =
          let one : step_of fl cfg now c ≡ 1 = rw cool refl in
          (omega (arith, up, one, b), omega (int_laws, up, one, b))
      near n k b (inr (_, inl same)) = (omega (arith, same), omega (int_laws, same))
      near n k b (inr (_, inr warm)) = cc

  -- The controller over several adjustments at which no threshold is exceeded.
  unfoldable pub adjusts : List ℕ → Controller → Controller
  adjusts [] c = c
  adjusts (now ∷ times) c = adjusts times (adjust_by fl cfg 0 now c)

  -- With sane settings and no threshold exceeded, each adjustment adds at least one worker until
  -- the maximum is reached.
  pub adjusts-recovers :
      (times : List ℕ) (n : ℕ) (c : Controller)
      → AreSane
      → c.effective_worker_count ≡ pos n
      → n ≤ cfg.max_workers
      → (k : ℕ) × ((adjusts times c).effective_worker_count ≡ pos k)
        × (min (n + length times) cfg.max_workers ≤ k)
        × (k ≤ cfg.max_workers)
  unfolding adjusts adjust_by
  adjusts-recovers [] n c sane e hi = (n, e, omega arith, hi)
  adjusts-recovers (now ∷ times) n c sane e hi =
      let (one_up, _) = step_of-le now c sane.1 in
      let (k, set, lo', hi') =
        adjusts-recovers times (min (n + step_of fl cfg now c) cfg.max_workers)
          (adjust_by fl cfg 0 now c) sane (increase_lem now n c sane e hi) (omega arith) in
      (k, set, omega (arith, one_up, lo'), hi')
