-- ===== src/Budget/Laws.antt =====
-- What the iteration budget promises: an exact decision, a count within its cap, and a bound on
-- the iterations of a turn.
use existential_identity_tes.Base.{
  ℕ, ◌+◌, ◌-◌, ◌≤◌, ◌<◌, ◌≡◌, ◌↔◌, true, List, [], ◌∷◌, arith, if◌then◌else◌,
}
use existential_identity_tes.Budget.{
  Budget, new, consume, Op, consumed, refunded, failed, succeeded, apply, run, refunds,
}

-- `consume` says True exactly when, before the call, at least two iterations were left, the
-- wall-clock limit was not passed and the failures were below their limit.
pub consume_exact :
    (now : ℕ) (b : Budget)
    → ((consume now b).1 ≡ true) ↔ (
        (b.count + 1 < b.max_total)
        × (now ≤ b.start_time + b.max_wall_time)
        × (b.consecutive_failures < b.max_consecutive_failures))
unfolding consume
consume_exact now b = (λ h. ground arith, λ h. ground arith)

abbrev pub IsWithin : Budget → Type 0
IsWithin b = b.count ≤ b.max_total

apply-IsWithin : (b : Budget) (op : Op) → IsWithin b → IsWithin (apply b op).0
unfolding apply
apply-IsWithin b (consumed now) h = ground arith
apply-IsWithin b _ h = ground arith

max_total-apply : (b : Budget) (op : Op) → (apply b op).0.max_total ≡ b.max_total
unfolding apply
max_total-apply b (consumed now) = ground arith
max_total-apply b _ = ground arith

-- Whatever the calls of a turn, the count never passes the cap and the cap does not change.
pub run-IsWithin :
    (b : Budget) (ops : List Op)
    → IsWithin b
    → IsWithin (run b ops).0 × ((run b ops).0.max_total ≡ b.max_total)
unfolding run
run-IsWithin b [] h = ground arith
run-IsWithin b (op ∷ ops) h =
    ground (arith, apply-IsWithin b op, max_total-apply b op, run-IsWithin (apply b op).0 ops)

-- The iterations that can still be granted.
abbrev room : Budget → ℕ
room b = b.max_total - 1 - b.count

room-apply :
    (b : Budget) (op : Op)
    → (if (apply b op).1 then 1 else 0) + room (apply b op).0 ≤ room b + refunds (op ∷ [])
unfolding apply
room-apply b (consumed now) = ground arith
room-apply b refunded = ground arith
room-apply b failed = ground arith
room-apply b succeeded = ground arith

refunds-cons : (op : Op) (ops : List Op) → refunds (op ∷ ops) ≡ refunds (op ∷ []) + refunds ops
refunds-cons (consumed now) ops = omega arith
refunds-cons _ ops = omega arith

granted-room :
    (b : Budget) (ops : List Op) → (run b ops).1 + room (run b ops).0 ≤ room b + refunds ops
unfolding run
granted-room b [] = omega arith
granted-room b (op ∷ ops) =
    ground (arith, room-apply b op, refunds-cons op ops, granted-room (apply b op).0 ops)

-- In a turn that starts from a new budget, `consume` says True at most once less than the cap,
-- plus once for each refund.
pub granted_bounded :
    (max_total failures wall now : ℕ) (ops : List Op)
    → (run (new max_total failures wall now) ops).1 ≤ max_total - 1 + refunds ops
unfolding new
granted_bounded m f w now ops = omega (arith, granted-room (new m f w now) ops)
