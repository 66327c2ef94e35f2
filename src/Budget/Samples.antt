-- ===== src/Budget/Samples.antt =====
-- Runs of the iteration budget, and the laws at concrete turns.
use existential_identity_tes.Base.{◌+◌, ◌-◌, ◌≤◌, ◌≡◌, refl, List, [], ◌∷◌}
use existential_identity_tes.Budget.{
  Budget, new, Op, consumed, refunded, failed, apply, run, refunds,
}
use existential_identity_tes.Budget.Laws.{granted_bounded}

abbrev turn : List Op
turn = consumed 10 ∷ consumed 20 ∷ refunded ∷ consumed 30 ∷ failed ∷ consumed 40 ∷ []

abbrev small : Budget
small = record {
  max_total = 3;
  max_consecutive_failures = 5;
  max_wall_time = 1000;
  count = 0;
  consecutive_failures = 0;
  start_time = 0;
}

-- The third iteration of a cap of three is spent and refused.
turn_runs : (run small turn).1 ≡ 3
unfolding run apply
turn_runs = refl

granted_bounded_example : (run (new 3 5 1000 0) turn).1 ≤ 3 - 1 + refunds turn
granted_bounded_example = granted_bounded 3 5 1000 0 turn
