-- ===== src/Budget.antt =====
-- tical_code/core/iteration_budget.py: the budget of LLM and tool iterations of one turn.
-- Each method is a function on the record; what `time.time()` reads is an argument, in
-- milliseconds. A lock makes each method atomic, so a history is a list of operations.
pub mod Laws
mod Samples
use existential_identity_tes.Base.{
  ℕ, zero, suc, ◌+◌, ◌-◌, Bool, true, false, List, [], ◌∷◌, ltb, leb, if◌then◌else◌,
}

pub record Budget : Type 0 where
  pub max_total : ℕ
  pub max_consecutive_failures : ℕ
  pub max_wall_time : ℕ
  pub count : ℕ
  pub consecutive_failures : ℕ
  pub start_time : ℕ

pub reset : ℕ → Budget → Budget
reset now b = record b { count = 0; consecutive_failures = 0; start_time = now }

-- `__init__`, which ends with a `reset`.
pub new : ℕ → ℕ → ℕ → ℕ → Budget
unfolding reset
new max_total failures wall now = reset now (record {
  max_total = max_total;
  max_consecutive_failures = failures;
  max_wall_time = wall;
  count = 0;
  consecutive_failures = 0;
  start_time = 0;
})

-- `now - start > wall` is `start + wall < now`, also where the clock went back.
pub consume : ℕ → Budget → Budget × Bool
consume now b =
    let taken = record b { count = b.count + 1 } in
    if leb b.max_total b.count
    then (b, false)
    else if ltb (b.start_time + b.max_wall_time) now
    then (b, false)
    else if leb b.max_consecutive_failures b.consecutive_failures
    then (b, false)
    else if leb b.max_total taken.count
    then (taken, false)
    else (taken, true)

pub refund : Budget → Budget
refund b = if ltb 0 b.count then record b { count = b.count - 1 } else b

pub record_failure : Budget → Budget
record_failure b = record b { consecutive_failures = b.consecutive_failures + 1 }

pub record_success : Budget → Budget
record_success b = record b { consecutive_failures = 0 }

pub remaining : Budget → ℕ
remaining b = b.max_total - b.count

pub exhausted : Budget → Bool
exhausted b = leb b.max_total b.count

-- One call on the shared object.
pub data Op : Type 0 where
  consumed : ℕ → Op
  refunded failed succeeded : Op

pub apply : Budget → Op → Budget × Bool
unfolding consume refund record_failure record_success
apply b (consumed now) = consume now b
apply b refunded = (refund b, false)
apply b failed = (record_failure b, false)
apply b succeeded = (record_success b, false)

-- The calls of one turn in order: the budget they leave, and how many `consume` calls said True.
pub run : Budget → List Op → Budget × ℕ
run b [] = (b, 0)
run b (op ∷ ops) =
    let (b', granted) = apply b op in
    let (b'', later) = run b' ops in (b'', if granted then later + 1 else later)

abbrev pub refunds : List Op → ℕ
refunds [] = 0
refunds (refunded ∷ ops) = refunds ops + 1
refunds (_ ∷ ops) = refunds ops
