-- ===== src/Failover.antt =====
-- tical_code/core/model_failover.py: the LLM client that routes one call over several providers,
-- with health states, cooldowns and a global circuit breaker.
-- This file has its data: `HealthState`, `Provider` and the fields of `ModelFailover`. Times are
-- milliseconds. The session, the lock and the two error classes have no state of their own.
pub mod Health
pub mod Select
pub mod Call
pub mod Cooldown
pub mod Pool
pub mod Phases
pub mod Rule
pub mod Invariant
pub mod Effort
pub mod Breaker
pub mod Stream
pub mod Attempts
pub mod Streaming
mod Samples
use existential_identity_tes.Base.{
  ℕ, ◌*◌, ◌==◌, String, Bool, true, false, ◌&&◌, ◌||◌, List, if◌then◌else◌, leb, ltb,
}
use existential_identity_tes.Base.Text.{lower_contains}
use existential_identity_tes.Base.Dict.{Dict}

pub data HealthState : Type 0 where
  healthy cooled_down half_open : HealthState

-- What `_error_category` answers, and the "timeout" that `_call_single` passes itself.
pub data Category : Type 0 where
  rate_limit auth server permanent timeout : Category

pub record Provider : Type 0 where
  pub name : String
  pub model : String
  pub endpoint : String
  pub key : String
  pub auth_style : String
  pub is_fallback : Bool
  pub priority : ℕ
  pub request_timeout : ℕ
  pub cooldown_until : ℕ
  pub consecutive_failures : ℕ
  pub fail_count : ℕ
  pub last_used : ℕ
  pub state : HealthState

-- The fields of `ModelFailover` that the calls read and write.
pub record Client : Type 0 where
  pub providers : List Provider
  pub last_healthy : Dict String
  pub global_consecutive_failures : ℕ
  pub circuit_broken_until : ℕ
  pub family_dead_until : Dict ℕ

-- The values that the "failover" block of providers.json may set.
pub record Limits : Type 0 where
  pub cooldown_base_429 : ℕ
  pub cooldown_base_5xx : ℕ
  pub cooldown_auth : ℕ
  pub cooldown_timeout : ℕ
  pub cooldown_cap : ℕ
  pub min_interval : ℕ
  pub global_call_timeout : ℕ
  pub family_dead_time : ℕ

-- Their values where the file says nothing.
abbrev pub default_limits : Limits
default_limits = record {
  cooldown_base_429 = 60_000;
  cooldown_base_5xx = 120_000;
  cooldown_auth = 600_000;
  cooldown_timeout = 30_000;
  cooldown_cap = 300_000;
  min_interval = 2_000;
  global_call_timeout = 300_000;
  family_dead_time = 30_000;
}

abbrev pub circuit_breaker_threshold : ℕ
circuit_breaker_threshold = 5

abbrev pub circuit_breaker_cooldown : ℕ
circuit_breaker_cooldown = 60_000

abbrev pub max_consecutive_failures : ℕ
max_consecutive_failures = 10

abbrev pub dead_cooldown : ℕ
dead_cooldown = 1_800_000

-- `_get_family`
unfoldable pub get_family : Provider → String
get_family p =
    if lower_contains "mimo" p.name || lower_contains "mimo" p.model
    then "mimo"
    else if lower_contains "openrouter" p.endpoint || lower_contains "gpt-oss" p.name
    then "openrouter"
    else "deepseek"

-- `_error_category`
unfoldable pub error_category : ℕ → Category
error_category status =
    if status == 429
    then rate_limit
    else if status == 401
    then auth
    else if status == 400 || status == 403 || status == 404
    then permanent
    else if leb 500 status && ltb status 600
    then server
    else server

abbrev pub is_healthy : HealthState → Bool
is_healthy healthy = true
is_healthy _ = false

abbrev pub is_cooled_down : HealthState → Bool
is_cooled_down cooled_down = true
is_cooled_down _ = false

abbrev pub is_half_open : HealthState → Bool
is_half_open half_open = true
is_half_open _ = false

-- One element of the constructor's list comprehension: a provider with no history.
pub record Setting : Type 0 where
  pub name : String
  pub model : String
  pub endpoint : String
  pub key : String
  pub auth_style : String
  pub is_fallback : Bool
  pub priority : ℕ
  pub request_timeout : ℕ

unfoldable pub new_provider : Setting → Provider
new_provider s = record {
  name = s.name;
  model = s.model;
  endpoint = s.endpoint;
  key = s.key;
  auth_style = s.auth_style;
  is_fallback = s.is_fallback;
  priority = s.priority;
  request_timeout = s.request_timeout;
  cooldown_until = 0;
  consecutive_failures = 0;
  fail_count = 0;
  last_used = 0;
  state = healthy;
}
