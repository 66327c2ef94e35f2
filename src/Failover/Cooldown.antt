-- ===== src/Failover/Cooldown.antt =====
-- How long a failing provider is left alone: bounds and growth of the cooldown, and what
-- `_transition_health` does to the provider that failed and to the others.
use native.Mathlib.Nat.{pow-suc, mul-le-mul_left}
use existential_identity_tes.Base.{
  ℕ, zero, suc, ◌+◌, ◌-◌, ◌*◌, ◌^◌, ◌≤◌, ◌<◌, ◌≡◌, refl, ◌≢◌, ◌↔◌, arith, some, get_elem?, modify,
  get_elem?-modify_self, get_elem?-modify_ne,
}
use existential_identity_tes.Failover.{
  Client, Provider, Limits, default_limits, Category, rate_limit, auth, server, permanent, timeout,
  cooled_down, error_category, dead_cooldown, max_consecutive_failures,
}
use existential_identity_tes.Failover.Call.{
  World, Run, settle, status, recoverable, http_failure, note_failure,
}
use existential_identity_tes.Failover.Health.{cooldown, fail_provider, transition_health}

one-le-pow : (k : ℕ) → 1 ≤ 2 ^ k
one-le-pow zero = omega arith
one-le-pow (suc k) = rw pow-suc (omega (arith, one-le-pow k))

pow_mono : (j k : ℕ) → j ≤ k → 2 ^ j ≤ 2 ^ k
pow_mono zero k h = one-le-pow k
pow_mono (suc j) zero h = absurd (omega arith)
pow_mono (suc j) (suc k) h = simp pow-suc (omega (arith, pow_mono j k (omega arith)))

-- With the default limits a failure that the call survives brings at least 30 and at most 1800
-- seconds of cooldown, and 1800 exactly from the tenth failure in a row on.
pub cooldown_range :
    (category : Category) (failures : ℕ)
    → 0 < failures
    → (30_000 ≤ cooldown default_limits category failures)
      × (cooldown default_limits category failures ≤ dead_cooldown)
      × ((cooldown default_limits category failures ≡ dead_cooldown)
          ↔ (max_consecutive_failures ≤ failures))
unfolding cooldown
cooldown_range category failures h = (
  ground (arith, one-le-pow (failures - 1)),
  ground arith,
  (λ e. ground arith, λ e. ground arith),
)

scaled_mono : (b j k : ℕ) → j ≤ k → b * 2 ^ (j - 1) ≤ b * 2 ^ (k - 1)
scaled_mono b j k h = mul-le-mul_left b (pow_mono (j - 1) (k - 1) (omega arith))

-- The cooldown never shrinks as the failures in a row add up, for every category and all limits
-- whose cap and fixed cooldowns stay within the dead time.
pub cooldown_mono :
    (l : Limits) (category : Category) (j k : ℕ)
    → l.cooldown_cap ≤ dead_cooldown
    → l.cooldown_auth ≤ dead_cooldown
    → l.cooldown_timeout ≤ dead_cooldown
    → j ≤ k
    → cooldown l category j ≤ cooldown l category k
unfolding cooldown
cooldown_mono l rate_limit j k hc ha ht h = ground (arith, scaled_mono l.cooldown_base_429 j k)
cooldown_mono l auth j k hc ha ht h = ground arith
cooldown_mono l timeout j k hc ha ht h = ground arith
cooldown_mono l _ j k hc ha ht h = ground (arith, scaled_mono l.cooldown_base_5xx j k)

-- After a failure that does not abort the call, the provider at the index is cooling down with one
-- failure more, until its cooldown has passed from the first reading of the clock; every other
-- provider is as before. A permanent error changes nothing at all.
pub transition_health_lem :
    (l : Limits) (now later i : ℕ) (category : Category) (c : Client) (p : Provider)
    → get_elem? c.providers i ≡ some p
    → category ≢ permanent
    → let c' = transition_health l now later i category c in
      (get_elem? c'.providers i
        ≡ some (record p {
          fail_count = p.fail_count + 1;
          consecutive_failures = p.consecutive_failures + 1;
          cooldown_until = now + cooldown l category (p.consecutive_failures + 1);
          state = cooled_down;
        }))
      × ((j : ℕ) → j ≢ i → get_elem? c'.providers j ≡ get_elem? c.providers j)
      × (transition_health l now later i permanent c ≡ c)
unfolding transition_health fail_provider
transition_health_lem l now later i permanent c p e h = absurd (h refl)
transition_health_lem l now later i _ c p e h = (
  get_elem?-modify_self c.providers i (fail_provider l now _) p e,
  λ j ne. get_elem?-modify_ne c.providers i j (fail_provider l now _) ne,
  refl,
)

-- A status that the call survives counts as two failures in a row of its provider, whatever the
-- status says, and the cooldown that it leaves is that of a server error.
pub http_failure_twice :
    (w : World) (l : Limits) (i : ℕ) (code : ℕ) (r : Run) (p : Provider)
    → get_elem? r.client.providers i ≡ some p
    → error_category code ≢ permanent
    → ((settle w l i (status code) r).0 ≡ recoverable)
      × (get_elem? (settle w l i (status code) r).1.client.providers i
          ≡ some (record p {
            fail_count = p.fail_count + 1 + 1;
            consecutive_failures = p.consecutive_failures + 1 + 1;
            cooldown_until =
                w.clock (r.readings + 2) + cooldown l server (p.consecutive_failures + 1 + 1);
            state = cooled_down;
          }))
unfolding settle http_failure note_failure transition_health fail_provider
http_failure_twice w l i code r p e h = go (error_category code) h
  where
    twice :
        (k : Category)
        → get_elem?
            (modify
              (modify r.client.providers i (fail_provider l (w.clock r.readings) k))
              i
              (fail_provider l (w.clock (r.readings + 2)) server))
            i
          ≡ some (
              fail_provider l
                (w.clock (r.readings + 2))
                server
                (fail_provider l (w.clock r.readings) k p))
    twice k =
        get_elem?-modify_self _ i (fail_provider l (w.clock (r.readings + 2)) server) _
          (get_elem?-modify_self r.client.providers i (fail_provider l (w.clock r.readings) k) p e)

    go :
        (k : Category)
        → k ≢ permanent
        → ((http_failure w l i k r).0 ≡ recoverable)
          × (get_elem? (http_failure w l i k r).1.client.providers i
              ≡ some (record p {
                fail_count = p.fail_count + 1 + 1;
                consecutive_failures = p.consecutive_failures + 1 + 1;
                cooldown_until =
                    w.clock (r.readings + 2) + cooldown l server (p.consecutive_failures + 1 + 1);
                state = cooled_down;
              }))
    go permanent ne = absurd (ne refl)
    go k ne = (refl, twice k)
