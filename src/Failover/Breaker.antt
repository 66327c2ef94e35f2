-- ===== src/Failover/Breaker.antt =====
-- What `call` does to the global circuit breaker, and what the breaker does to later calls.
use existential_identity_tes.Base.{
  ℕ, ◌+◌, ◌≤◌, ◌<◌, ◌≡◌, refl, sym, ◌∙◌, Bool, true, false, inl, inr, List, [], ◌∷◌, Option, none,
  some, arith, String, length, ltb, leb, ltb→lt, Bool-cases,
}
use existential_identity_tes.Failover.{
  Client, Limits, circuit_breaker_threshold, circuit_breaker_cooldown,
}
use existential_identity_tes.Failover.Select.{Ref}
use existential_identity_tes.Failover.Call.{
  World, Run, Step, Verdict, done, next, answer, raised_permanent, raised_other, circuit_open,
  global_timeout, exhausted, unconfigured, attempt, each_pick, count_failure, fast_path,
  phase_fallback, call, begin,
}
use existential_identity_tes.Failover.Phases.{
  Returns, Returns->>, names, Keeps, Tried, Ends, attempt-Tried, FastKept, FastEnds,
  fast_path-FastKept,
}
use existential_identity_tes.Failover.Rule.{at_reading, enough_fuel, phases-Returns}

-- A failed call adds one to the failures in a row, and trips the breaker from the fifth on, for
-- its cooldown from some reading of the clock.
abbrev pub Counted : World → Client → Client → Type 0
Counted w c c' =
    (c'.global_consecutive_failures ≡ c.global_consecutive_failures + 1)
    × (c.global_consecutive_failures + 1 < circuit_breaker_threshold
        → c'.circuit_broken_until ≡ c.circuit_broken_until)
    × (circuit_breaker_threshold ≤ c.global_consecutive_failures + 1
        → (n : ℕ) × (c'.circuit_broken_until ≡ w.clock n + circuit_breaker_cooldown))

-- The breaker as `c` has it.
abbrev Untouched : Client → Client → Type 0
Untouched c c' =
    (c'.global_consecutive_failures ≡ c.global_consecutive_failures)
    × (c'.circuit_broken_until ≡ c.circuit_broken_until)

-- The breaker after each way for the call to end: reset by an answer, untouched by an exception,
-- counted by a failure of all providers.
abbrev pub BreakerAfter : World → Client → Verdict → Run → Type 0
BreakerAfter w c (answer n k) r =
    (r.client.global_consecutive_failures ≡ 0) × (r.client.circuit_broken_until ≡ 0)
BreakerAfter w c raised_permanent r = Untouched c r.client
BreakerAfter w c raised_other r = Untouched c r.client
BreakerAfter w c (circuit_open k) r =
    (r.client ≡ c) × (r.exchanges ≡ 0) × (w.clock 0 < c.circuit_broken_until)
BreakerAfter w c global_timeout r = Counted w c r.client
BreakerAfter w c exhausted r = Counted w c r.client
BreakerAfter w c unconfigured r = Untouched c r.client

abbrev Calm : Client → Run → Type 0
Calm c r = (names r.client ≡ names c) × Untouched c r.client

Calm-Keeps : (c : Client) (r s : Run) → Calm c r → Keeps r.client s.client → Calm c s
Calm-Keeps c r s h k = (k.names_same ∙ h.0, (k.failures_same ∙ h.1.0, k.broken_same ∙ h.1.1))

count_failure-Counted :
    (w : World) (c : Client) (r : Run) → Calm c r → Counted w c (count_failure w r).client
unfolding count_failure
count_failure-Counted w c r h =
    elim (Bool-cases (leb circuit_breaker_threshold (r.client.global_consecutive_failures + 1))) [
      | inl e ↦
          rw e (omega (arith, h.1.0), λ k. absurd (ground (arith, h.1.0)), λ k. (r.readings, refl))
      | inr e ↦ rw e (omega (arith, h.1.0), λ k. h.1.1, λ k. absurd (ground (arith, h.1.0)))
    ]

attempt-Calm :
    (w : World) (l : Limits) (c : Client) (a : Ref) (r : Run)
    → Calm c r
    → Returns (BreakerAfter w c) (Calm c) (attempt w l a r)
attempt-Calm w l c a r h = go (attempt w l a r) (attempt-Tried w l a r)
  where
    go :
        (o : Option (Step × Run))
        → Returns (Ends a r) (Tried a r) o
        → Returns (BreakerAfter w c) (Calm c) o
    go none k = k
    go (some (done (answer n m), s)) k = (k.2, k.3)
    go (some (done raised_permanent, s)) k = (Calm-Keeps c r s h k.1).1
    go (some (done raised_other, s)) k = (Calm-Keeps c r s h k.1).1
    go (some (done _, s)) k = absurd k
    go (some (next, s)) k = Calm-Keeps c r s h k.kept

fast_path-Calm :
    (w : World) (l : Limits) (start : ℕ) (family : Option String) (c : Client) (r : Run)
    → Calm c r
    → Returns (BreakerAfter w c) (Calm c) (fast_path w l start family r)
fast_path-Calm w l start family c r h =
    go (fast_path w l start family r) (fast_path-FastKept w l start family r)
  where
    go :
        (o : Option (Step × Run))
        → Returns (FastEnds r) (FastKept r) o
        → Returns (BreakerAfter w c) (Calm c) o
    go none k = k
    go (some (done (answer n m), s)) k = (k.1, k.2)
    go (some (done raised_permanent, s)) k = (Calm-Keeps c r s h k.1).1
    go (some (done raised_other, s)) k = (Calm-Keeps c r s h k.1).1
    go (some (done _, s)) k = absurd k
    go (some (next, s)) k = Calm-Keeps c r s h k.kept

each_pick-Calm :
    (w : World) (l : Limits) (c : Client) (picks : List Ref) (r : Run)
    → Calm c r
    → Returns (BreakerAfter w c) (Calm c) (each_pick w l picks r)
unfolding each_pick
each_pick-Calm w l c [] r h = h
each_pick-Calm w l c (a ∷ picks) r h =
    Returns->> (BreakerAfter w c) (Calm c) (Calm c) (attempt w l a) (each_pick w l picks) r
      (attempt-Calm w l c a r h) (each_pick-Calm w l c picks)

-- How `call` ends, with the breaker after it.
call-ends :
    (w : World) (l : Limits) (family : Option String) (c : Client) (fuel : ℕ)
    → length c.providers < fuel
    → Returns (BreakerAfter w c) (λ _. ⊥) (call fuel w l family (begin c))
unfolding call begin phase_fallback
call-ends w l family c fuel m = elim (Bool-cases (ltb (w.clock 0) c.circuit_broken_until)) [
  | inl e ↦ rw (e, call) (refl, refl, ltb→lt _ _ e)
  | inr e ↦
      rw (e, call)
        (phases-Returns w l (w.clock 0) family (Calm c) (BreakerAfter w c) (λ n r k. k)
          (λ a r k f. attempt-Calm w l c a r k) (λ r k. count_failure-Counted w c r k) (Calm c)
          (fast_path-Calm w l (w.clock 0) family c)
          (λ inc by r k. each_pick-Calm w l c _ (at_reading (r.readings + 1) r) k)
          (λ r k. count_failure-Counted w c r k) (λ r k. k.1) fuel
          (λ r k. enough_fuel c r k.0 fuel m) (at_reading 1 (begin c)) (refl, (refl, refl)) _)
]

-- Whether a call ends because the breaker is open.
abbrev pub refuses : Verdict → Bool
refuses (circuit_open k) = true
refuses _ = false

-- A call ends at the breaker exactly where the breaker is open at first, and then without an exchange
-- or a change; otherwise the breaker is reset, left or counted.
abbrev pub Guarded : World → Client → Verdict → Run → Type 0
Guarded w c v r = (refuses v ≡ ltb (w.clock 0) c.circuit_broken_until) × BreakerAfter w c v r

ends-Guarded :
    (w : World) (c : Client) (o : Option (Step × Run))
    → ltb (w.clock 0) c.circuit_broken_until ≡ false
    → Returns (BreakerAfter w c) (λ _. ⊥) o
    → Returns (Guarded w c) (λ _. ⊥) o
ends-Guarded w c none e h = h
ends-Guarded w c (some (next, r)) e h = h
ends-Guarded w c (some (done (circuit_open k), r)) e h = absurd (ground (arith, e, h.2))
ends-Guarded w c (some (done (answer n k), r)) e h = (sym e, h)
ends-Guarded w c (some (done raised_permanent, r)) e h = (sym e, h)
ends-Guarded w c (some (done raised_other, r)) e h = (sym e, h)
ends-Guarded w c (some (done global_timeout, r)) e h = (sym e, h)
ends-Guarded w c (some (done exhausted, r)) e h = (sym e, h)
ends-Guarded w c (some (done unconfigured, r)) e h = (sym e, h)

-- Whatever the clock reads and the providers reply, `call` returns. It ends with the message of the
-- circuit breaker exactly where it finds the breaker open, and then it makes no exchange and changes
-- nothing. Otherwise an answer resets the breaker, an exception leaves it, and a failure of all
-- providers is counted and trips it from the fifth in a row on.
pub call-BreakerAfter :
    (w : World) (l : Limits) (family : Option String) (c : Client) (fuel : ℕ)
    → length c.providers < fuel
    → Returns (Guarded w c) (λ _. ⊥) (call fuel w l family (begin c))
unfolding call begin
call-BreakerAfter w l family c fuel m = elim (Bool-cases (ltb (w.clock 0) c.circuit_broken_until)) [
  | inl e ↦ rw (e, call) (sym e, (refl, refl, ltb→lt _ _ e))
  | inr e ↦ ends-Guarded w c (call fuel w l family (begin c)) e (call-ends w l family c fuel m)
]
