-- ===== src/Failover/Effort.antt =====
-- How much work `call` can make: one exchange for each provider, and one more for the fast path.
use existential_identity_tes.Base.{
  ℕ, suc, ◌+◌, ◌≤◌, ◌<◌, ◌≡◌, refl, sym, ◌∙◌, ◌≢◌, Bool, true, false, List, [], ◌∷◌, Option, none,
  some, arith, All, map, String, length, ltb, Bool-cases, inl, inr,
}
use existential_identity_tes.Base.Text.{elem, str_eq_iff}
use existential_identity_tes.Base.Pairs
use existential_identity_tes.Failover.{Client, Provider, Limits}
use existential_identity_tes.Failover.Select.{Ref, refs_from, available, before}
use existential_identity_tes.Failover.Call.{
  World, Run, Step, Verdict, done, next, answer, raised_permanent, raised_other, attempt, each_pick,
  add_tried, untried, pool_of, count_failure, fast_path, phase_fallback, call, begin,
}
use existential_identity_tes.Failover.Phases.{
  Returns, Returns->>, names, fresh-le-length, fresh-cons-lt, IsFresh, pool_of-IsFresh, Tried, Ends,
  attempt-Tried, FastKept, FastEnds, fast_path-FastKept,
}
use existential_identity_tes.Failover.Rule.{
  Returns-both, measure, measure-Tried, length-names, at_reading, enough_fuel, phases-Returns,
}

abbrev Differ : Ref → Ref → Type 0
Differ a b = a.seen.name ≢ b.seen.name

-- No two providers of the client share a name.
abbrev pub AreDistinct : List String → Type 0
AreDistinct = Pairs.Pairs ◌≢◌

Pairs-refs_from :
    (i : ℕ) (ps : List Provider)
    → AreDistinct (map (λ p. p.name) ps)
    → Pairs.Pairs Differ (refs_from i ps)
unfolding refs_from
Pairs-refs_from i [] h = tt
Pairs-refs_from i (p ∷ ps) h = (All-Differ (suc i) ps h.0, Pairs-refs_from (suc i) ps h.1)
  where
    All-Differ :
        (j : ℕ) (qs : List Provider)
        → All (λ n. p.name ≢ n) (map (λ (q : Provider). q.name) qs)
        → All (λ (b : Ref). p.name ≢ b.seen.name) (refs_from j qs)
    All-Differ j [] k = tt
    All-Differ j (q ∷ qs) k = (k.0, All-Differ (suc j) qs k.1)

pool_of-Differ :
    (w : World) (l : Limits) (inc : Bool) (family : Option String) (bypass : Bool) (r : Run)
    → AreDistinct (names r.client)
    → Pairs.Pairs Differ (pool_of w l inc family bypass r)
unfolding pool_of untried available
pool_of-Differ w l inc family bypass r h = Pairs.Pairs-select Differ _ _ (
    Pairs.Pairs-sort Differ before (λ a b n e. n (sym e)) _
      (Pairs.Pairs-select Differ _ _ (Pairs-refs_from 0 r.client.providers h)))

abbrev Fit : Run → Ref → Type 0
Fit r b = (elem b.seen.name (names r.client) ≡ true) × (elem b.seen.name r.tried ≡ false)

-- What is left of a pool stays fresh while its other providers are tried.
All-Fit :
    (a : Ref) (r s : Run) (bs : List Ref)
    → IsFresh r a
    → Tried a r s
    → All (Differ a) bs
    → All (Fit r) bs
    → All (Fit s) bs
unfolding add_tried elem
All-Fit a r s [] f t d h = tt
All-Fit a r s (b ∷ bs) f t d h = (
  (
    rw t.kept.names_same h.0.0,
    rw (t.noted, f.not_tried) (ground (arith, str_eq_iff a.seen.name b.seen.name, d.0, h.0.1)),
  ),
  All-Fit a r s bs f t d.1 h.1,
)

-- With `n` providers: the exchanges made and the names left add up to no more than `n + 1`.
abbrev Thrifty : Client → Run → Type 0
Thrifty c r = (names r.client ≡ names c) × (r.exchanges + measure r ≤ length c.providers + 1)

abbrev Within : Client → Verdict → Run → Type 0
Within c v r = r.exchanges ≤ length c.providers + 1

measure-pos : (a : Ref) (r : Run) → IsFresh r a → 0 < measure r
measure-pos a r f =
    omega (arith, fresh-cons-lt a.seen.name (names r.client) r.tried f.listed f.not_tried)

attempt-Thrifty :
    (w : World) (l : Limits) (c : Client) (a : Ref) (r : Run)
    → Thrifty c r
    → IsFresh r a
    → Returns (Within c) (Thrifty c) (attempt w l a r)
attempt-Thrifty w l c a r h f = go (attempt w l a r) (attempt-Tried w l a r)
  where
    go :
        (o : Option (Step × Run))
        → Returns (Ends a r) (Tried a r) o
        → Returns (Within c) (Thrifty c) o
    go none k = k
    go (some (done (answer n m), s)) k = omega (arith, measure-pos a r f)
    go (some (done raised_permanent, s)) k = omega (arith, measure-pos a r f)
    go (some (done raised_other, s)) k = omega (arith, measure-pos a r f)
    go (some (done _, s)) k = absurd k
    go (some (next, s)) k =
        (k.kept.names_same ∙ h.0, omega (arith, k.spent, measure-Tried a r s f k))

each_pick-Thrifty :
    (w : World) (l : Limits) (c : Client) (picks : List Ref) (r : Run)
    → Thrifty c r
    → All (Fit r) picks
    → Pairs.Pairs Differ picks
    → Returns (Within c) (Thrifty c) (each_pick w l picks r)
unfolding each_pick
each_pick-Thrifty w l c [] r h f d = h
each_pick-Thrifty w l c (a ∷ picks) r h f d =
    let fit : IsFresh r a = record { listed = f.0.0; not_tried = f.0.1 } in
    Returns->> (Within c) (λ s. Thrifty c s × Tried a r s) (Thrifty c) (attempt w l a)
      (each_pick w l picks) r
      (Returns-both (Within c) (Ends a r) (Thrifty c) (Tried a r) (attempt w l a r)
        (attempt-Thrifty w l c a r h fit) (attempt-Tried w l a r))
      (λ s t. each_pick-Thrifty w l c picks s t.0 (All-Fit a r s picks fit t.1 d.0 f.1) d.1)

fast_path-Thrifty :
    (w : World) (l : Limits) (start : ℕ) (family : Option String) (c : Client) (r : Run)
    → (names r.client ≡ names c) × (r.exchanges ≡ 0) × (r.tried ≡ [])
    → Returns (Within c) (Thrifty c) (fast_path w l start family r)
fast_path-Thrifty w l start family c r h =
    go (fast_path w l start family r) (fast_path-FastKept w l start family r)
  where
    go :
        (o : Option (Step × Run))
        → Returns (FastEnds r) (FastKept r) o
        → Returns (Within c) (Thrifty c) o
    go none k = k
    go (some (done (answer n m), s)) k = omega arith
    go (some (done raised_permanent, s)) k = omega arith
    go (some (done raised_other, s)) k = omega arith
    go (some (done _, s)) k = absurd k
    go (some (next, s)) k = (
      k.kept.names_same ∙ h.0,
      rw (k.kept.names_same ∙ h.0) (
          omega (arith, k.spent, h.1, fresh-le-length (names c) s.tried, length-names c.providers)),
    )

exchanges-count_failure : (w : World) (r : Run) → (count_failure w r).exchanges ≡ r.exchanges
unfolding count_failure
exchanges-count_failure w r = ground arith

over :
    (w : World) (c : Client) (r : Run)
    → Thrifty c r
    → (count_failure w r).exchanges ≤ length c.providers + 1
over w c r h = omega (arith, exchanges-count_failure w r)

-- Where the providers' names are distinct, `call` returns after at most one exchange for each
-- provider and one more, whatever the clock reads and the providers reply.
pub call-exchanges :
    (w : World) (l : Limits) (family : Option String) (c : Client) (fuel : ℕ)
    → length c.providers < fuel
    → AreDistinct (names c)
    → Returns
        (λ v r. r.exchanges ≤ length c.providers + 1)
        (λ _. ⊥)
        (call fuel w l family (begin c))
unfolding call begin phase_fallback
call-exchanges w l family c fuel m d = elim (Bool-cases (ltb (w.clock 0) c.circuit_broken_until)) [
  | inl e ↦ rw (e, call) (omega arith)
  | inr e ↦
      rw (e, call)
        (phases-Returns w l (w.clock 0) family (Thrifty c) (Within c) (λ n r k. k)
          (λ a r k f. attempt-Thrifty w l c a r k f) (over w c)
          (λ r. (names r.client ≡ names c) × (r.exchanges ≡ 0) × (r.tried ≡ []))
          (fast_path-Thrifty w l (w.clock 0) family c)
          (λ inc by r k.
            each_pick-Thrifty w l c _ (at_reading (r.readings + 1) r) k
              (pool_of-IsFresh w l inc none by r) (pool_of-Differ w l inc none by r (rw k.0 d)))
          (over w c) (λ r k. omega arith) fuel (λ r k. enough_fuel c r k.0 fuel m)
          (at_reading 1 (begin c)) (refl, refl, refl) _)
]
