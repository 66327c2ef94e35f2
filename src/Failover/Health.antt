-- ===== src/Failover/Health.antt =====
-- The health state machine of model_failover.py: `_transition_health`, `_probe_transition` and
-- `_mark_success`. A provider is the object at an index of the client's list.
use existential_identity_tes.Base.{
  ℕ, ◌+◌, ◌-◌, ◌*◌, ◌^◌, min, leb, if◌then◌else◌, Bool, true, false, modify, get_elem?, some, none,
}
use existential_identity_tes.Base.Dict
use existential_identity_tes.Failover.{
  Client, Provider, Limits, Category, rate_limit, auth, server, permanent, timeout, healthy,
  cooled_down, dead_cooldown, max_consecutive_failures, get_family,
}

-- The cooldown that the `failures`-th failure in a row of a category brings.
unfoldable pub cooldown : Limits → Category → ℕ → ℕ
cooldown l category failures =
    if leb max_consecutive_failures failures then dead_cooldown else elim category [
      | rate_limit ↦ min (l.cooldown_base_429 * 2 ^ (failures - 1)) l.cooldown_cap
      | auth ↦ l.cooldown_auth
      | timeout ↦ l.cooldown_timeout
      | _ ↦ min (l.cooldown_base_5xx * 2 ^ (failures - 1)) l.cooldown_cap
    ]

-- What a failure writes into the provider.
unfoldable pub fail_provider : Limits → ℕ → Category → Provider → Provider
fail_provider l now category p = record p {
  fail_count = p.fail_count + 1;
  consecutive_failures = p.consecutive_failures + 1;
  cooldown_until = now + cooldown l category (p.consecutive_failures + 1);
  state = cooled_down;
}

-- An authentication error blocks the family too, unless the provider counts as dead by now.
unfoldable pub block_family : Limits → ℕ → Category → Provider → Dict.Dict ℕ → Dict.Dict ℕ
block_family l now auth p blocked =
    if leb max_consecutive_failures (p.consecutive_failures + 1)
    then blocked
    else Dict.put blocked (get_family p) (now + l.family_dead_time)
block_family l now _ p blocked = blocked

-- `_transition_health`; `now` and `later` are its two readings of the clock.
unfoldable pub transition_health : Limits → ℕ → ℕ → ℕ → Category → Client → Client
transition_health l now later i permanent c = c
transition_health l now later i category c = record c {
  providers = modify c.providers i (fail_provider l now category);
  family_dead_until = elim (get_elem? c.providers i) [
    | none ↦ c.family_dead_until
    | some p ↦ block_family l later category p c.family_dead_until
  ];
}

unfoldable pub heal_provider : Provider → Provider
heal_provider p = record p { state = healthy; consecutive_failures = 0; cooldown_until = 0 }

unfoldable pub fail_probe : Limits → ℕ → Provider → Provider
fail_probe l now p = record p {
  consecutive_failures = p.consecutive_failures + 1;
  fail_count = p.fail_count + 1;
  cooldown_until = now + cooldown l server (p.consecutive_failures + 1);
  state = cooled_down;
}

-- `_probe_transition`
unfoldable pub probe_transition : Limits → ℕ → ℕ → Bool → Client → Client
probe_transition l now i true c = record c { providers = modify c.providers i heal_provider }
probe_transition l now i false c = record c { providers = modify c.providers i (fail_probe l now) }

-- `_mark_success`
unfoldable pub mark_success : ℕ → Client → Client
mark_success i c = record c {
  providers = modify c.providers i heal_provider;
  global_consecutive_failures = 0;
  circuit_broken_until = 0;
  last_healthy = elim (get_elem? c.providers i) [
    | none ↦ c.last_healthy
    | some p ↦ Dict.put c.last_healthy (get_family p) p.name
  ];
}
