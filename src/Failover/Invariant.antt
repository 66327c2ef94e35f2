-- ===== src/Failover/Invariant.antt =====
-- What `call` keeps true of every provider, in any world, and the rule for its phases.
use existential_identity_tes.Base.{
  ℕ, ◌+◌, ◌≤◌, ◌<◌, ◌≡◌, refl, ◌≢◌, Bool, true, false, List, [], ◌∷◌, Option, none, some, arith,
  ◌∙◌, length, ltb, leb, ◌==◌, ◌&&◌, ◌||◌, Bool-cases, inl, inr, All, All-modify, String,
}
use existential_identity_tes.Failover.{
  Client, Provider, Limits, healthy, cooled_down, half_open, Category, server, permanent, timeout,
  error_category, is_healthy, circuit_breaker_threshold,
}
use existential_identity_tes.Failover.Health.{
  fail_provider, transition_health, heal_provider, fail_probe, probe_transition, mark_success,
}
use existential_identity_tes.Failover.Select.{Ref}
use existential_identity_tes.Failover.Phases.{
  Returns, Returns->>, names, Tried, Ends, attempt-Tried, FastKept, FastEnds, fast_path_rule,
  fast_path-FastKept,
}
use existential_identity_tes.Failover.Rule.{
  Returns-both, Returns-map, at_reading, enough_fuel, phases-Returns,
}
use existential_identity_tes.Failover.Call.{
  World, Run, Reply, Outcome, Step, done, next, note_failure, use_provider, http_failure, settle,
  call_single, conclude, attempt, each_pick, fast_conclude, fast_attempt, fast_path, phase_fallback,
  call, begin, count_failure, cli_answered, status, timed_out, failed, answered, served,
  recoverable,
}

-- A provider at rest is spotless, one that cools down has failed, and none is ever half open.
pub record IsSound (p : Provider) : Type 0 where
  pub not_probing : p.state ≢ half_open
  pub spotless : p.state ≡ healthy → (p.consecutive_failures ≡ 0) × (p.cooldown_until ≡ 0)
  pub guilty : p.state ≡ cooled_down → 0 < p.consecutive_failures
  pub counted : p.consecutive_failures ≤ p.fail_count

abbrev pub AllSound : Client → Type 0
AllSound c = All IsSound c.providers

fail_provider-IsSound :
    (l : Limits) (now : ℕ) (k : Category) (p : Provider)
    → IsSound p
    → IsSound (fail_provider l now k p)
unfolding fail_provider
fail_provider-IsSound l now k p h = ground arith

heal_provider-IsSound : (p : Provider) → IsSound p → IsSound (heal_provider p)
unfolding heal_provider
heal_provider-IsSound p h = ground arith

fail_probe-IsSound :
    (l : Limits) (now : ℕ) (p : Provider) → IsSound p → IsSound (fail_probe l now p)
unfolding fail_probe
fail_probe-IsSound l now p h = ground arith

use_provider-IsSound : (now : ℕ) (p : Provider) → IsSound p → IsSound (use_provider now p)
unfolding use_provider
use_provider-IsSound now p h = ground arith

transition-AllSound :
    (l : Limits) (now later i : ℕ) (k : Category) (c : Client)
    → AllSound c
    → AllSound (transition_health l now later i k c)
unfolding transition_health
transition-AllSound l now later i permanent c h = h
transition-AllSound l now later i _ c h =
    All-modify _ (fail_provider-IsSound l now _) c.providers i h

mark_success-AllSound : (i : ℕ) (c : Client) → AllSound c → AllSound (mark_success i c)
unfolding mark_success
mark_success-AllSound i c h = All-modify _ heal_provider-IsSound c.providers i h

settle-AllSound :
    (w : World) (l : Limits) (i : ℕ) (x : Reply) (r : Run)
    → AllSound r.client
    → AllSound (settle w l i x r).1.client
unfolding settle http_failure note_failure
settle-AllSound w l i cli_answered r h = h
settle-AllSound w l i (status code) r h = go (error_category code)
  where
    go : (k : Category) → AllSound (http_failure w l i k r).1.client
    go permanent = h
    go k = transition-AllSound l _ _ i server _ (transition-AllSound l _ _ i k r.client h)
settle-AllSound w l i timed_out r h = transition-AllSound l _ _ i timeout r.client h
settle-AllSound w l i failed r h = transition-AllSound l _ _ i server r.client h
settle-AllSound w l i answered r h =
    All-modify _ (use_provider-IsSound (w.clock r.readings)) r.client.providers i h
settle-AllSound w l i _ r h = h

conclude-AllSound :
    (w : World) (l : Limits) (i : ℕ) (name : String) (probe : Bool) (o : Outcome) (r : Run)
    → AllSound r.client
    → AllSound (conclude w l i name probe o r).1.client
unfolding conclude probe_transition
conclude-AllSound w l i name probe served r h = mark_success-AllSound i r.client h
conclude-AllSound w l i name false recoverable r h = h
conclude-AllSound w l i name true recoverable r h =
    All-modify _ (fail_probe-IsSound l (w.clock r.readings)) r.client.providers i h
conclude-AllSound w l i name probe _ r h = h

fast_conclude-AllSound :
    (i : ℕ) (name family : String) (o : Outcome) (r : Run)
    → AllSound r.client
    → AllSound (fast_conclude i name family o r).1.client
unfolding fast_conclude
fast_conclude-AllSound i name family served r h = mark_success-AllSound i r.client h
fast_conclude-AllSound i name family _ r h = h

-- A run that returns, or goes on, satisfies `I` either way.
Returns-always : (I : Run → Type 0) (s : Step) (r : Run) → I r → Returns (λ _. I) I (some (s, r))
Returns-always I (done v) r h = h
Returns-always I next r h = h

abbrev SoundRun : Run → Type 0
SoundRun r = AllSound r.client

attempt-AllSound :
    (w : World) (l : Limits) (a : Ref) (r : Run)
    → AllSound r.client
    → Returns (λ _. SoundRun) SoundRun (attempt w l a r)
unfolding attempt call_single
attempt-AllSound w l a r h =
    Returns-always SoundRun _ _
      (conclude-AllSound w l a.index a.seen.name _ _ _ (settle-AllSound w l a.index _ _ h))

fast_attempt-AllSound :
    (w : World) (l : Limits) (start : ℕ) (family : String) (a : Ref) (r : Run)
    → AllSound r.client
    → Returns (λ _. SoundRun) SoundRun (fast_attempt w l start family a r)
unfolding fast_attempt call_single
fast_attempt-AllSound w l start family a r h =
    elim (Bool-cases (
      is_healthy a.seen.state
      && (a.seen.last_used == 0 || leb (a.seen.last_used + l.min_interval) start))) [
        | inl e ↦ rw e (
            Returns-always SoundRun _ _ (
              fast_conclude-AllSound a.index a.seen.name family _ _
                (settle-AllSound w l a.index _ _ h)))
        | inr e ↦ rw e h
      ]

-- Sound providers, under the client's names.
abbrev Held : List String → Run → Type 0
Held ns r = AllSound r.client × (names r.client ≡ ns)

attempt-Held :
    (w : World) (l : Limits) (ns : List String) (a : Ref) (r : Run)
    → Held ns r
    → Returns (λ _. SoundRun) (Held ns) (attempt w l a r)
attempt-Held w l ns a r h =
    Returns-map (λ _. SoundRun) (λ s. SoundRun s × Tried a r s) (Held ns) _
      (λ s t. (t.0, t.1.kept.names_same ∙ h.1))
      (Returns-both (λ _. SoundRun) (Ends a r) SoundRun (Tried a r) (attempt w l a r)
        (attempt-AllSound w l a r h.0) (attempt-Tried w l a r))

fast_path-Held :
    (w : World) (l : Limits) (start : ℕ) (family : Option String) (ns : List String) (r : Run)
    → Held ns r
    → Returns (λ _. SoundRun) (Held ns) (fast_path w l start family r)
fast_path-Held w l start family ns r h =
    Returns-map (λ _. SoundRun) (λ s. SoundRun s × FastKept r s) (Held ns) _
      (λ s t. (t.0, t.1.kept.names_same ∙ h.1))
      (Returns-both (λ _. SoundRun) (FastEnds r) SoundRun (FastKept r)
        (fast_path w l start family r) (fast_path-AllSound family)
        (fast_path-FastKept w l start family r))
  where
    fast_path-AllSound :
        (f : Option String) → Returns (λ _. SoundRun) SoundRun (fast_path w l start f r)
    fast_path-AllSound none = unfold fast_path in h.0
    fast_path-AllSound (some f) =
        fast_path_rule w l start f r (Returns (λ _. SoundRun) SoundRun) h.0
          (λ a. fast_attempt-AllSound w l start f a r h.0)

each_pick-Held :
    (w : World) (l : Limits) (ns : List String) (picks : List Ref) (r : Run)
    → Held ns r
    → Returns (λ _. SoundRun) (Held ns) (each_pick w l picks r)
unfolding each_pick
each_pick-Held w l ns [] r h = h
each_pick-Held w l ns (a ∷ picks) r h =
    Returns->> (λ _. SoundRun) (Held ns) (Held ns) (attempt w l a) (each_pick w l picks) r
      (attempt-Held w l ns a r h) (each_pick-Held w l ns picks)

count_failure-AllSound :
    (w : World) (r : Run) → AllSound r.client → AllSound (count_failure w r).client
unfolding count_failure
count_failure-AllSound w r h =
    elim (Bool-cases (leb circuit_breaker_threshold (r.client.global_consecutive_failures + 1))) [
      | inl e ↦ rw e h
      | inr e ↦ rw e h
    ]

-- Whatever the clock reads and the providers reply, `call` returns, and every provider is sound
-- when it does if each was when it began: in particular none is ever half open.
pub call-AllSound :
    (w : World) (l : Limits) (family : Option String) (c : Client) (fuel : ℕ)
    → length c.providers < fuel
    → AllSound c
    → Returns (λ _ r. AllSound r.client) (λ _. ⊥) (call fuel w l family (begin c))
unfolding call begin phase_fallback
call-AllSound w l family c fuel m h = elim (Bool-cases (ltb (w.clock 0) c.circuit_broken_until)) [
  | inl e ↦ rw (e, call) h
  | inr e ↦
      rw (e, call)
        (phases-Returns w l (w.clock 0) family (Held (names c)) (λ _. SoundRun) (λ n r k. k)
          (λ a r k f. attempt-Held w l (names c) a r k) (λ r k. count_failure-AllSound w r k.0)
          (Held (names c)) (fast_path-Held w l (w.clock 0) family (names c))
          (λ inc by r k. each_pick-Held w l (names c) _ (at_reading (r.readings + 1) r) k)
          (λ r k. count_failure-AllSound w r k.0) (λ r k. k.0) fuel
          (λ r k. enough_fuel c r k.1 fuel m) (at_reading 1 (begin c)) (h, refl) _)
]
