-- ===== src/Transfer/Slots.antt =====
-- backend/worker_transfer/transfer.go, the slots of the adaptive concurrency:
-- `acquireWorkerSlot`, `releaseWorkerSlot`, `acquirePartSlot` and `releasePartSlot` with the
-- adaptive mode on. Each access of an atomic counter is a step of its own, so that other threads
-- may come in between. A counter is an integer here; it stays far from the bounds of an `int32`.
pub mod Parts
mod Tests
use tmp_cf_ytb_admin.Base.{
  ℕ, ◌+◌, Bool, true, false, not, ◌≡◌, refl, ◌≢◌, arith, if◌then◌else◌, ℤ, pos, negsuc, pos_part,
  neg_part, ◌+ℤ◌, ltb_ℤ, int_laws, Bool-cases, inl, inr, ap, ◌⊎◌, ◌↔◌, ◌∙◌, sym,
}

abbrev pub is_within : ℤ → ℤ → Bool
is_within active effective = not (ltb_ℤ effective active)

-- What a call returns and the counter afterwards. `first` and `second` are the two values that the
-- call reads of `effectiveWorkerCount`, which the controller may change in between; `elsewhere` is
-- what other threads add to the counter of active workers in the meantime.
unfoldable pub acquire_worker_slot : ℤ → ℤ → ℤ → ℤ → Bool × ℤ
acquire_worker_slot first second elsewhere active =
    let mine = active +ℤ pos 1 in
    let others = mine +ℤ elsewhere in
    (is_within mine first, if is_within mine second then others else others +ℤ negsuc 0)

unfoldable pub release_worker_slot : ℤ → ℤ
release_worker_slot active = active +ℤ negsuc 0

abbrev pub slot_if : Bool → ℤ
slot_if true = pos 1
slot_if false = pos 0

decisions :
    (a e : ℤ) (p q : Bool)
    → ((if q then a +ℤ pos 1 +ℤ e else a +ℤ pos 1 +ℤ e +ℤ negsuc 0) ≡ a +ℤ e +ℤ slot_if p) ↔ (p ≡ q)
decisions a e true true = (λ h. refl, λ h. omega int_laws)
decisions a e false false = (λ h. refl, λ h. omega int_laws)
decisions a e true false = (λ h. absurd (omega (int_laws, ap pos_part h, ap neg_part h)), λ h. cc)
decisions a e false true = (λ h. absurd (omega (int_laws, ap pos_part h, ap neg_part h)), λ h. cc)

-- A call counts the slot that it gives, and no other, exactly when its two reads of the limit lead
-- to the same decision.
pub acquire_worker_slot_lem :
    (first second elsewhere active : ℤ)
    → ((acquire_worker_slot first second elsewhere active).1
        ≡ active +ℤ elsewhere +ℤ slot_if (acquire_worker_slot first second elsewhere active).0)
      ↔ (is_within (active +ℤ pos 1) first ≡ is_within (active +ℤ pos 1) second)
unfolding acquire_worker_slot
acquire_worker_slot_lem first second elsewhere active =
    decisions active elsewhere (is_within (active +ℤ pos 1) first)
      (is_within (active +ℤ pos 1) second)
