-- ===== src/Failover/Samples.antt =====
-- A client with a primary and a fallback provider: runs of `call`, and the laws at them.
use mathlib.Core.List.{Mem}
use existential_identity_tes.Base.{
  ℕ, zero, suc, ◌+◌, ◌*◌, ◌≤◌, ◌≡◌, refl, ◌≢◌, ◌↔◌, Bool, true, false, String, [], ◌∷◌, none, some,
  arith, length, get_elem?,
}
use existential_identity_tes.Base.Text.{lower_contains, str_eq_iff}
use existential_identity_tes.Base.Sort
use existential_identity_tes.Failover.{
  Client, Provider, default_limits, server, permanent, Setting, new_provider, get_family,
  error_category, cooled_down,
}
use existential_identity_tes.Failover.Health.{cooldown}
use existential_identity_tes.Failover.Select.{Ref, available, refs_from, before}
use existential_identity_tes.Failover.Call.{
  World, settle, recoverable, Reply, answered, timed_out, status, call, begin,
}
use existential_identity_tes.Failover.Cooldown.{http_failure_twice}
use existential_identity_tes.Failover.Pool.{CanServe, available_exact}
use existential_identity_tes.Failover.Phases.{Returns}
use existential_identity_tes.Failover.Invariant.{AllSound, call-AllSound}
use existential_identity_tes.Failover.Breaker.{Guarded, call-BreakerAfter}
use existential_identity_tes.Failover.Effort.{call-exchanges}
use existential_identity_tes.Failover.Stream.{
  StreamReply, streaming, content, skipped, done_mark, finished, broken, call_stream,
}
use existential_identity_tes.Failover.Streaming.{Delivers, call_stream-Delivers}

abbrev setting : String → Bool → ℕ → Setting
setting name fallback priority = record {
  name = name;
  model = "m";
  endpoint = "https://e/v1";
  key = "k";
  auth_style = "bearer";
  is_fallback = fallback;
  priority = priority;
  request_timeout = 0;
}

abbrev primary : Provider
unfolding new_provider
primary = new_provider (setting "mimo-1" false 10)

abbrev backup : Provider
unfolding new_provider
backup = new_provider (setting "backup" true 5)

abbrev client : Client
client = record {
  providers = primary ∷ backup ∷ [];
  last_healthy = [];
  global_consecutive_failures = 4;
  circuit_broken_until = 0;
  family_dead_until = [];
}

-- A world where each reading of the clock is a second later, and only the third exchange answers.
abbrev third : ℕ → Reply
third zero = timed_out
third (suc zero) = status 503
third _ = answered

abbrev world : World
world = record { clock = λ n. 1_000 * (n + 1); reply = third }

family_of_mimo : get_family primary ≡ "mimo"
unfolding get_family new_provider lower_contains
family_of_mimo = refl

forbidden_is_permanent : error_category 403 ≡ permanent
unfolding error_category
forbidden_is_permanent = refl

available_exact_example :
    ((r : Ref)
      → Mem r (available default_limits 9 client true none false) ↔ (
          Mem r (refs_from 0 client.providers)
          × CanServe default_limits 9 client true none false r.seen))
    × Sort.IsSorted before (available default_limits 9 client true none false)
available_exact_example = available_exact default_limits 9 client true none false

call-AllSound_example :
    Returns (λ _ r. AllSound r.client) (λ _. ⊥) (call 3 world default_limits none (begin client))
unfolding new_provider
call-AllSound_example =
    call-AllSound world default_limits none client 3 (omega arith) (ground arith)

call-BreakerAfter_example :
    Returns (Guarded world client) (λ _. ⊥) (call 3 world default_limits none (begin client))
call-BreakerAfter_example = call-BreakerAfter world default_limits none client 3 (omega arith)

call-exchanges_example :
    Returns
      (λ v r. r.exchanges ≤ length client.providers + 1)
      (λ _. ⊥)
      (call 3 world default_limits none (begin client))
unfolding new_provider
call-exchanges_example =
    call-exchanges world default_limits none client 3 (omega arith)
      (((λ e. differ e), tt), (tt, tt))
  where
    differ : ◌≢◌ {A = String} "mimo-1" "backup"
    differ = ground (arith, str_eq_iff "mimo-1" "backup")

http_failure_twice_example :
    ((settle world default_limits 0 (status 429) (begin client)).0 ≡ recoverable)
    × (get_elem? (settle world default_limits 0 (status 429) (begin client)).1.client.providers 0
        ≡ some (record primary {
          fail_count = 0 + 1 + 1;
          consecutive_failures = 0 + 1 + 1;
          cooldown_until = world.clock (0 + 2) + cooldown default_limits server (0 + 1 + 1);
          state = cooled_down;
        }))
unfolding new_provider begin error_category
http_failure_twice_example =
    http_failure_twice world default_limits 0 429 (begin client) primary refl (λ e. cc)

-- The first provider fails in the middle of its stream, and the next one goes on.
abbrev replies : ℕ → StreamReply
replies zero = streaming (content "Hel" ∷ []) broken
replies _ = streaming (content "Hello" ∷ skipped ∷ done_mark ∷ []) finished

call_stream-Delivers_example :
    Delivers world default_limits replies 2
      (begin client)
      (call_stream 9 world default_limits replies (λ n. "wait") none client)
call_stream-Delivers_example =
    call_stream-Delivers world default_limits replies (λ n. "wait") none client 9 (omega arith) refl
