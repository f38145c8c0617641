-- ===== src/Thermal/Examples.antt =====
-- The default curve on a board whose fans turn at 30 percent at least.
use nosaic_switch.Base.{
  nat_eq, ℕ_discrete, true, false, none, List, [], ◌∷◌, ◌++◌, ◌^◌, ◌≡◌, refl, arith, text_eq,
}
use nosaic_switch.Base.Int.{ℤ, wrap64, ℤ-discrete, pos, int_eq, ◌≤ℤ◌, quot_ℤ}
use nosaic_switch.Thermal.{
  default_curve, with_defaults, Round, hottest, hottest_from, target, target_on, ramp, run,
}
use nosaic_switch.Thermal.Slope.{Between}
use nosaic_switch.Thermal.Target.{target-Between, target_mono, target-hottest, target_unread}
use nosaic_switch.Thermal.Duty.{duties, served, Cooled, run-Cooled, last, run_cool}

-- Two sensors at 50 and at 30 degrees.
abbrev warm : Round
warm = record {
  temps = pos 50000 ∷ pos 30000 ∷ [];
  failed = false;
  refused = false;
  lamp_fault = none;
}

abbrev cool : Round
cool = record { temps = pos 30000 ∷ []; failed = false; refused = false; lamp_fault = none }

-- No sensor could be read.
abbrev blind : Round
blind = record { temps = []; failed = true; refused = false; lamp_fault = none }

half_way : target default_curve (pos 50) (pos 30) ≡ pos 65
unfolding target target_on with_defaults ramp wrap64 ℤ-discrete ℕ_discrete
half_way = refl

-- A curve so wide that the product leaves 64 bits.
wraps_below_floor :
    target (record default_curve { min_c = pos 0; max_c = pos (2 ^ 62) }) (pos (2 ^ 57)) (pos 30)
    ≡ pos 29
unfolding target target_on with_defaults ramp wrap64 ℤ-discrete ℕ_discrete
wraps_below_floor = refl

run-Cooled_example :
    (ds : List ℤ) × (duties (run default_curve (pos 30) true false false warm (cool ∷ blind ∷ [])).1
      ≡ pos 100 ∷ (ds ++ (pos 100 ∷ [])))
    × Cooled default_curve (pos 30) (pos 100) (served false (warm ∷ cool ∷ blind ∷ [])) ds
run-Cooled_example =
    run-Cooled default_curve (pos 30) true false warm (cool ∷ blind ∷ []) (omega arith, omega arith)
      (omega arith, omega arith)

run_cool_example :
    (ds : List ℤ) × (duties (run default_curve (pos 30) false false false cool (cool ∷ cool ∷ [])).1
      ≡ pos 100 ∷ (ds ++ (pos 100 ∷ [])))
    × (last (pos 100) ds ≡ pos 85)
unfolding with_defaults hottest hottest_from ℤ-discrete ℕ_discrete
run_cool_example =
    run_cool default_curve 30 5 false cool (cool ∷ cool ∷ []) (omega arith) refl
      ((omega arith, omega arith), ((omega arith, omega arith), ((omega arith, omega arith), tt)))

target-Between_example : Between (pos 30) (target default_curve (pos 50) (pos 30)) (pos 100)
target-Between_example =
    target-Between default_curve (pos 50) (pos 30) (omega arith, omega arith)
      (omega arith, omega arith)

target_mono_example :
    target default_curve (pos 40) (pos 30) ≤ℤ target default_curve (pos 60) (pos 30)
target_mono_example =
    target_mono default_curve (pos 40) (pos 60) (pos 30) (omega arith, omega arith)
      (omega arith, omega arith) (omega arith) (omega arith)

target-hottest_example :
    target default_curve (quot_ℤ (pos 30000) 1000) (pos 30)
    ≤ℤ target default_curve (hottest warm) (pos 30)
target-hottest_example =
    target-hottest default_curve warm (pos 30) (pos 50000 ∷ []) (pos 30000) []
      (omega arith, omega arith) (omega arith, omega arith) refl (omega arith)

target_unread_example : target default_curve (hottest blind) (pos 30) ≡ pos 100
target_unread_example = target_unread default_curve blind (pos 30) refl
