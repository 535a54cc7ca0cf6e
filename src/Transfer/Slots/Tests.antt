-- ===== src/Transfer/Slots/Tests.antt =====
-- Runs of the slots, and their theorems at concrete inputs.
use tmp_cf_ytb_admin.Base.{◌≡◌, refl, true, false, if◌then◌else◌, ◌==◌, [], ◌∷◌, arith, pos, ◌+ℤ◌}
use tmp_cf_ytb_admin.Transfer.Slots.{acquire_worker_slot}
use tmp_cf_ytb_admin.Transfer.Slots.Parts.{
  World, idle, holding, reads, counts, takes, adjusts, Reach, start_at, later, IsExact,
  Reach-IsExact,
}

-- The limit falls from 3 to 2 between the two reads: the slot is given and not counted.
uncounted : acquire_worker_slot (pos 3) (pos 2) (pos 0) (pos 2) ≡ (true, pos 2)
unfolding acquire_worker_slot ◌+ℤ◌
uncounted = refl

-- It rises from 2 to 3: the slot is refused and stays counted.
leaked : acquire_worker_slot (pos 2) (pos 3) (pos 0) (pos 2) ≡ (false, pos 3)
unfolding acquire_worker_slot ◌+ℤ◌
leaked = refl

abbrev quiet : World
quiet = record { effective = 1; parts = 0; tokens = λ u. 0; threads = (7, idle) ∷ (8, idle) ∷ [] }

-- The thread of upload 7 gets the only slot while the controller lowers the limit.
abbrev busy : World
busy = record quiet {
  effective = 0;
  parts = 1;
  tokens = λ j. if 7 == j then 1 else 0;
  threads = (7, holding) ∷ (8, idle) ∷ [];
}

run : Reach 4 quiet busy
run =
    later
      (later (later (later start_at (reads 0 7 refl (omega arith))) (counts 0 7 1 refl))
        (adjusts 0))
      (takes 0 7 1 1 refl (omega arith) (omega arith))

Reach-IsExact_example : IsExact 4 7 busy
Reach-IsExact_example = Reach-IsExact 7 run (refl, refl, omega arith)
