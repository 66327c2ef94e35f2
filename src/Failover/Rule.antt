-- ===== src/Failover/Rule.antt =====
-- The rule for `call`: what every attempt keeps, `call` keeps, and it always returns.
use existential_identity_tes.Base.{
  ℕ, zero, suc, ◌+◌, ◌<◌, ◌≡◌, refl, Bool, true, false, List, [], ◌∷◌, Option, none, some, arith,
  map, ap, All, String, length, ltb, Bool-cases, inl, inr,
}
use existential_identity_tes.Base.Text.{elem}
use existential_identity_tes.Failover.{Client, Provider, Limits}
use existential_identity_tes.Failover.Select.{Ref}
use existential_identity_tes.Failover.Phases.{
  Returns, Returns->>, names, fresh, fresh-le-length, fresh-cons-lt, IsFresh, pool_of-IsFresh,
  Tried, attempt-Tried,
}
use existential_identity_tes.Failover.Call.{
  World, Run, Step, Verdict, done, next, global_timeout, exhausted, unconfigured, Phase, ◌>>◌,
  attempt, pool_of, add_tried, count_failure, phase_family, phase_expand, phase_fallback, soonest,
  give_up, phase_last, last_chance, fast_path, expand_if,
}

abbrev pub measure : Run → ℕ
measure r = fresh (names r.client) r.tried

abbrev pub at_reading : ℕ → Run → Run
at_reading n r = record r { readings = n }

-- After an attempt at a fresh provider that does not end the call, one fewer is fresh.
pub measure-Tried : (a : Ref) (r s : Run) → IsFresh r a → Tried a r s → measure s < measure r
unfolding add_tried
measure-Tried a r s f t =
    rw (t.kept.names_same, t.noted, f.not_tried)
      (fresh-cons-lt a.seen.name (names r.client) r.tried f.listed f.not_tried)

-- `P` of what is returned and `N` of the run that goes on, both at once with another such pair.
pub Returns-both :
    (P Q : Verdict → Run → Type 0) (N M : Run → Type 0) (o : Option (Step × Run))
    → Returns P N o
    → Returns Q M o
    → Returns P (λ s. N s × M s) o
Returns-both P Q N M none h k = h
Returns-both P Q N M (some (done v, r)) h k = h
Returns-both P Q N M (some (next, r)) h k = (h, k)

pub Returns-map :
    (P : Verdict → Run → Type 0) (N M : Run → Type 0) (o : Option (Step × Run))
    → ((s : Run) → N s → M s)
    → Returns P N o
    → Returns P M o
Returns-map P N M none f h = h
Returns-map P N M (some (done v, r)) f h = h
Returns-map P N M (some (next, r)) f h = f r h

pub length-names : (ps : List Provider) → length (map (λ (p : Provider). p.name) ps) ≡ length ps
length-names [] = refl
length-names (p ∷ ps) = ap suc (length-names ps)

-- Fuel above the number of providers bounds the fresh names of every later run.
pub enough_fuel :
    (c : Client) (r : Run)
    → names r.client ≡ names c
    → (fuel : ℕ) → length c.providers < fuel
    → measure r < fuel
enough_fuel c r e fuel h =
    rw e (omega (arith, fresh-le-length (names c) r.tried, length-names c.providers))

Returns-elim :
    (P : Verdict → Run → Type 0) (N : Run → Type 0) (b : Bool) (x y : Option (Step × Run))
    → Returns P N x
    → Returns P N y
    → Returns P N (elim b [ true ↦ x | false ↦ y ])
Returns-elim P N true x y h k = h
Returns-elim P N false x y h k = k

-- `I` holds between the phases, `P` where the call returns, and `I` does not look at the clock.
module _ (w : World) (l : Limits) (start : ℕ) (family : Option String) (I : Run → Type 0)
    (P : Verdict → Run → Type 0) (tick : (n : ℕ) (r : Run) → I r → I (at_reading n r))
    (step : (a : Ref) (r : Run) → I r → IsFresh r a → Returns P I (attempt w l a r))
    (late : (r : Run) → I r → P global_timeout (count_failure w r)) where
  again :
      (a : Ref) (r : Run) (k : Phase) (fuel : ℕ)
      → I r
      → IsFresh r a
      → measure r < suc fuel
      → ((s : Run) → measure s < fuel → I s → Returns P I (k s))
      → Returns P I ((attempt w l a >> k) r)
  again a r k fuel h f m g =
      Returns->> P (λ s. I s × Tried a r s) I (attempt w l a) k r
        (Returns-both P _ I (Tried a r) (attempt w l a r) (step a r h f) (attempt-Tried w l a r))
        (λ s t. g s (omega (arith, measure-Tried a r s f t.1)) t.0)

  phase_expand-Returns :
      (fuel : ℕ) (r : Run) → measure r < fuel → I r → Returns P I (phase_expand fuel w l r)
  unfolding phase_expand
  phase_expand-Returns zero r m h = absurd (omega arith)
  phase_expand-Returns (suc fuel) r m h =
      go (pool_of w l false none false r) refl (pool_of-IsFresh w l false none false r)
        (phase_expand-Returns fuel)
    where
      go :
          (pool : List Ref)
          → pool_of w l false none false r ≡ pool
          → All
              (λ a. (elem a.seen.name (names r.client) ≡ true) × (elem a.seen.name r.tried ≡ false))
              pool
          → ((s : Run) → measure s < fuel → I s → Returns P I (phase_expand fuel w l s))
          → Returns P I (phase_expand (suc fuel) w l r)
      go [] e f rec = rw (e, phase_expand) (tick (r.readings + 1) r h)
      go (pick ∷ rest) e f rec =
          rw (e, phase_expand)
            (again pick (at_reading (r.readings + 1) r) (phase_expand fuel w l) fuel
              (tick (r.readings + 1) r h) (record { listed = f.0.0; not_tried = f.0.1 }) m rec)

  phase_family-Returns :
      (fuel : ℕ) (r : Run)
      → measure r < fuel
      → I r
      → Returns P I (phase_family fuel w l start family r)
  unfolding phase_family
  phase_family-Returns zero r m h = absurd (omega arith)
  phase_family-Returns (suc fuel) r m h =
      elim (Bool-cases (ltb (start + l.global_call_timeout) (w.clock r.readings))) [
        | inl e ↦ rw (e, phase_family) (late now (tick (r.readings + 1) r h))
        | inr e ↦
            rw (e, phase_family)
              (go (pool_of w l true family false now) refl
                (pool_of-IsFresh w l true family false now) (phase_family-Returns fuel))
      ]
    where
      now : Run
      now = at_reading (r.readings + 1) r

      go :
          (pool : List Ref)
          → pool_of w l true family false now ≡ pool
          → All
              (λ a. (elem a.seen.name (names r.client) ≡ true) × (elem a.seen.name r.tried ≡ false))
              pool
          → ((s : Run)
              → measure s < fuel
              → I s
              → Returns P I (phase_family fuel w l start family s))
          → Returns P I (elim (pool_of w l true family false now) [
            | [] ↦ some (next, at_reading (now.readings + 1) now)
            | pick ∷ _ ↦
                (attempt w l pick >> phase_family fuel w l start family)
                  (at_reading (now.readings + 1) now)
          ])
      go [] e f rec = rw e (tick (now.readings + 1) now (tick (r.readings + 1) r h))
      go (pick ∷ rest) e f rec = rw e (
          again pick (at_reading (now.readings + 1) now) (phase_family fuel w l start family) fuel
            (tick (now.readings + 1) now (tick (r.readings + 1) r h))
            (record { listed = f.0.0; not_tried = f.0.1 }) m rec)

  -- The rule for `call`, given what its single pools and its fast path do.
  module _ (J : Run → Type 0) (fast : (r : Run) → J r → Returns P I (fast_path w l start family r))
      (picks : (include_fallback bypass : Bool) (r : Run)
        → I r
        → Returns P I (phase_fallback w l include_fallback bypass r))
      (over : (r : Run) → I r → P exhausted (count_failure w r))
      (empty : (r : Run) → I r → P unconfigured r) (fuel : ℕ)
      (enough : (r : Run) → I r → measure r < fuel) where
    expand_if-Returns : (b : Bool) (r : Run) → I r → Returns P I (expand_if b fuel w l r)
    unfolding expand_if
    expand_if-Returns true r h = phase_expand-Returns fuel r (enough r h) h
    expand_if-Returns false r h = h

    last_round :
        (r : Run)
        → I r
        → Returns P
            (λ _. ⊥)
            ((phase_fallback w l false true >> phase_fallback w l true true >> give_up w) r)
    unfolding give_up
    last_round r h =
        Returns->> P I (λ _. ⊥) (phase_fallback w l false true >> phase_fallback w l true true)
          (give_up w) r
          (Returns->> P I I (phase_fallback w l false true) (phase_fallback w l true true) r
            (picks false true r h) (picks true true))
          over

    phase_last-Returns : (r : Run) → I r → Returns P (λ _. ⊥) (phase_last w l r)
    unfolding phase_last give_up
    phase_last-Returns r h = go r.client.providers refl
      where
        now : Run
        now = at_reading (r.readings + 1) r

        go : (ps : List Provider) → r.client.providers ≡ ps → Returns P (λ _. ⊥) (phase_last w l r)
        go [] e = rw (e, phase_last) (empty r h)
        go (p ∷ ps) e =
            rw (e, phase_last)
              (Returns-elim P (λ _. ⊥) (last_chance w (soonest p ps) r) _ (give_up w now)
                (last_round now (tick (r.readings + 1) r h)) (over now (tick (r.readings + 1) r h)))

    -- What `call` does once the breaker has let it through.
    pub phases-Returns :
        (r : Run)
        → J r
        → (b : Bool)
        → Returns P
            (λ _. ⊥)
            ((fast_path w l start family
                >> phase_family fuel w l start family
                >> expand_if b fuel w l
                >> phase_fallback w l true false
                >> phase_last w l)
              r)
    phases-Returns r j b =
        let first = fast_path w l start family in
        let second = first >> phase_family fuel w l start family in
        let third = second >> expand_if b fuel w l in
        let fourth = third >> phase_fallback w l true false in
        Returns->> P I (λ _. ⊥) fourth (phase_last w l) r
          (Returns->> P I I third (phase_fallback w l true false) r
            (Returns->> P I I second (expand_if b fuel w l) r
              (Returns->> P I I first (phase_family fuel w l start family) r (fast r j)
                (λ s h. phase_family-Returns fuel s (enough s h) h))
              (expand_if-Returns b))
            (picks true false))
          phase_last-Returns
