-- ===== src/Failover/Call.antt =====
-- `call` of model_failover.py, with the part of `_call_single` that changes state: what the
-- exchange with the provider brings (`Reply`) decides between success, a failure that the call
-- survives, and an exception. The request's text and the jittered sleeps are not modelled: a
-- sleep shows only in the next reading of the clock.
use existential_identity_tes.Base.{
  ℕ, zero, suc, ◌+◌, ◌-◌, ◌/◌, ltb, leb, ◌==◌, if◌then◌else◌, Bool, true, false, not, ◌&&◌, ◌||◌,
  String, List, [], ◌∷◌, length, select, get_elem?, modify, Option, some, none,
}
use existential_identity_tes.Base.Text.{str_eq, elem}
use existential_identity_tes.Base.Dict
use existential_identity_tes.Failover.{
  Client, Provider, Limits, Category, server, permanent, timeout, error_category, is_healthy,
  is_half_open, circuit_breaker_threshold, circuit_breaker_cooldown,
}
use existential_identity_tes.Failover.Health.{transition_health, probe_transition, mark_success}
use existential_identity_tes.Failover.Select.{Ref, available, refs_from}

-- What one exchange brings.
pub data Reply : Type 0 where
  -- the command-line provider answers, or fails
  cli_answered cli_failed : Reply
  -- the endpoint resolves to a private address, or not at all
  blocked : Reply
  -- an HTTP status of 400 and more
  status : ℕ → Reply
  -- `asyncio.TimeoutError`, and any other exception of the request
  timed_out failed : Reply
  -- a JSON body without a first choice's message, and one with it
  malformed answered : Reply

-- What the world answers: the readings of the clock and the replies, in the order of asking.
pub record World : Type 0 where
  pub clock : ℕ → ℕ
  pub reply : ℕ → Reply

-- The client, the world's progress, and the local variables of `call`.
pub record Run : Type 0 where
  pub client : Client
  pub readings : ℕ
  pub exchanges : ℕ
  pub retries : ℕ
  pub tried : List String

pub data Outcome : Type 0 where
  served recoverable permanent_error crashed : Outcome

-- How `call` ends: with a provider's answer, an exception, or one of its messages.
pub data Verdict : Type 0 where
  answer : String → ℕ → Verdict
  raised_permanent raised_other : Verdict
  circuit_open : ℕ → Verdict
  global_timeout exhausted unconfigured : Verdict

pub data Step : Type 0 where
  done : Verdict → Step
  next : Step

-- A stretch of `call`: it returns, or goes on to the next. `none` says that its fuel ran out.
abbrev pub Phase : Type 0
Phase = Run → Option (Step × Run)

infixl 5 ◌>>◌
abbrev pub ◌>>◌ : Phase → Phase → Phase
◌>>◌ m k r = elim (m r) [
  | none ↦ none
  | some (s, r') ↦ elim s [ done v ↦ some (done v, r') | next ↦ k r' ]
]

unfoldable pub note_failure : World → Limits → ℕ → Category → Run → Run
note_failure w l i category r = record r {
  client = transition_health l (w.clock r.readings) (w.clock (r.readings + 1)) i category r.client;
  readings = r.readings + 2;
}

unfoldable pub use_provider : ℕ → Provider → Provider
use_provider now p = record p { last_used = now }

-- The error raised after the transition for a status is caught by the same statement's
-- `except Exception`, which makes the transition for a server error too.
unfoldable pub http_failure : World → Limits → ℕ → Category → Run → Outcome × Run
http_failure w l i permanent r = (permanent_error, r)
http_failure w l i category r =
    (recoverable, note_failure w l i server (note_failure w l i category r))

unfoldable pub settle : World → Limits → ℕ → Reply → Run → Outcome × Run
settle w l i cli_answered r = (served, r)
settle w l i cli_failed r = (recoverable, r)
settle w l i blocked r = (permanent_error, r)
settle w l i (status code) r = http_failure w l i (error_category code) r
settle w l i timed_out r = (recoverable, note_failure w l i timeout r)
settle w l i failed r = (recoverable, note_failure w l i server r)
settle w l i malformed r = (crashed, r)
settle w l i answered r = (
  served,
  record r {
    client = record (r.client) {
      providers = modify (r.client.providers) i (use_provider (w.clock r.readings));
    };
    readings = r.readings + 1;
  },
)

-- `_call_single`
unfoldable pub call_single : World → Limits → ℕ → Run → Outcome × Run
unfolding settle
call_single w l i r = settle w l i (w.reply r.exchanges) (record r { exchanges = r.exchanges + 1 })

unfoldable pub add_tried : String → List String → List String
add_tried name tried = if elem name tried then tried else name ∷ tried

unfoldable pub is_probe : Client → ℕ → Bool
is_probe c i = elim (get_elem? c.providers i) [ none ↦ false | some p ↦ is_half_open p.state ]

-- The `try` statement round `_call_single`, the same in every phase.
unfoldable pub conclude : World → Limits → ℕ → String → Bool → Outcome → Run → Step × Run
conclude w l i name probe served r =
    (done (answer name r.retries), record r { client = mark_success i r.client })
conclude w l i name probe permanent_error r = (done raised_permanent, r)
conclude w l i name probe crashed r = (done raised_other, r)
conclude w l i name false recoverable r = (next, record r { retries = r.retries + 1 })
conclude w l i name true recoverable r = (
  next,
  record r {
    retries = r.retries + 1;
    client = probe_transition l (w.clock r.readings) i false r.client;
    readings = r.readings + 1;
  },
)

unfoldable pub attempt : World → Limits → Ref → Phase
unfolding add_tried is_probe
attempt w l pick r =
    let name = pick.seen.name in
    let (o, r') = call_single w l pick.index (record r { tried = add_tried name r.tried }) in
    some (conclude w l pick.index name (is_probe r.client pick.index) o r')

-- `for pick in pool`
unfoldable pub each_pick : World → Limits → List Ref → Phase
each_pick w l [] r = some (next, r)
each_pick w l (pick ∷ picks) r = (attempt w l pick >> each_pick w l picks) r

unfoldable pub untried : List String → List Ref → List Ref
untried tried refs = select (λ a. not (elem a.seen.name tried)) refs

-- A computation of the pool, which reads the clock.
unfoldable pub pool_of : World → Limits → Bool → Option String → Bool → Run → List Ref
unfolding untried
pool_of w l include_fallback family bypass r =
    untried r.tried (available l (w.clock r.readings) r.client include_fallback family bypass)

abbrev pub read_clock : Run → Run
read_clock r = record r { readings = r.readings + 1 }

-- A failed call counts for the circuit breaker, which trips at the threshold.
unfoldable pub count_failure : World → Run → Run
count_failure w r =
    let failures = r.client.global_consecutive_failures + 1 in
    let counted = record (r.client) { global_consecutive_failures = failures } in
    if leb circuit_breaker_threshold failures
    then record r {
      client = record counted {
        circuit_broken_until = w.clock r.readings + circuit_breaker_cooldown;
      };
      readings = r.readings + 1;
    }
    else record r { client = counted }

-- Phase 1: the preferred family, until its pool is empty or the call has taken too long.
unfoldable pub phase_family : ℕ → World → Limits → ℕ → Option String → Phase
phase_family zero w l start family r = none
phase_family (suc fuel) w l start family r =
    let late = ltb (start + l.global_call_timeout) (w.clock r.readings) in
    let r' = read_clock r in
    elim late [
      | true ↦ some (done global_timeout, count_failure w r')
      | false ↦ elim (pool_of w l true family false r') [
        | [] ↦ some (next, read_clock r')
        | pick ∷ _ ↦ (attempt w l pick >> phase_family fuel w l start family) (read_clock r')
      ]
    ]

-- Phase 1b: all families, without the fallback providers.
unfoldable pub phase_expand : ℕ → World → Limits → Phase
phase_expand zero w l r = none
phase_expand (suc fuel) w l r = elim (pool_of w l false none false r) [
  | [] ↦ some (next, read_clock r)
  | pick ∷ _ ↦ (attempt w l pick >> phase_expand fuel w l) (read_clock r)
]

-- Phase 2: whatever is left, the fallback providers included; one computed pool.
unfoldable pub phase_fallback : World → Limits → Bool → Bool → Phase
phase_fallback w l include_fallback bypass r =
    each_pick w l (pool_of w l include_fallback none bypass r) (read_clock r)

-- `min(self.providers, key=lambda p: p.cooldown_until)`
unfoldable pub soonest : Provider → List Provider → Provider
soonest best [] = best
soonest best (p ∷ ps) = soonest (if ltb p.cooldown_until best.cooldown_until then p else best) ps

-- The end of `call`: no provider is left.
unfoldable pub give_up : World → Phase
give_up w r = some (done exhausted, count_failure w r)

-- The nearest cooldown is at most three seconds away, and a provider was not tried.
unfoldable pub last_chance : World → Provider → Run → Bool
last_chance w best r =
    leb ((best.cooldown_until - w.clock r.readings) / 1_000) 3
    && ltb (length r.tried) (length (r.client.providers))

-- Phase 3: one more round over both pools where there is a last chance.
unfoldable pub phase_last : World → Limits → Phase
unfolding soonest last_chance
phase_last w l r = elim (r.client.providers) [
  | [] ↦ some (done unconfigured, r)
  | p ∷ ps ↦ elim (last_chance w (soonest p ps) r) [
    | true ↦
        (phase_fallback w l false true >> phase_fallback w l true true >> give_up w) (read_clock r)
    | false ↦ give_up w (read_clock r)
  ]
]

unfoldable pub find_named : String → List Ref → Option Ref
find_named name [] = none
find_named name (a ∷ refs) = if str_eq a.seen.name name then some a else find_named name refs

-- What follows the single attempt of the fast path.
unfoldable pub fast_conclude : ℕ → String → String → Outcome → Run → Step × Run
fast_conclude i name family served r =
    (done (answer name r.retries), record r { client = mark_success i r.client })
fast_conclude i name family permanent_error r = (done raised_permanent, r)
fast_conclude i name family crashed r = (done raised_other, r)
fast_conclude i name family recoverable r = (
  next,
  record r {
    retries = r.retries + 1;
    client = record (r.client) { last_healthy = Dict.remove (r.client.last_healthy) family };
  },
)

-- The fast path asks the family's last healthy provider first, and does not note it as tried.
unfoldable pub fast_attempt : World → Limits → ℕ → String → Ref → Phase
fast_attempt w l start family a r =
    let p = a.seen in
    let (o, r') = call_single w l a.index r in
    if is_healthy p.state && (p.last_used == 0 || leb (p.last_used + l.min_interval) start)
    then some (fast_conclude a.index p.name family o r')
    else some (next, r)

unfoldable pub fast_path : World → Limits → ℕ → Option String → Phase
unfolding fast_attempt
fast_path w l start none r = some (next, r)
fast_path w l start (some family) r =
    if str_eq family "" then some (next, r) else elim (Dict.get (r.client.last_healthy) family) [
      | none ↦ some (next, r)
      | some name ↦ elim (find_named name (refs_from 0 (r.client.providers))) [
        | none ↦ some (next, r)
        | some a ↦ fast_attempt w l start family a r
      ]
    ]

abbrev pub is_given : Option String → Bool
is_given none = false
is_given (some f) = not (str_eq f "")

unfoldable pub expand_if : Bool → ℕ → World → Limits → Phase
expand_if false fuel w l r = some (next, r)
expand_if true fuel w l r = phase_expand fuel w l r

-- `call`, from the client and the world as they stand.
unfoldable pub call : ℕ → World → Limits → Option String → Run → Option (Step × Run)
call fuel w l family r =
    let start = w.clock r.readings in
    let phases =
      fast_path w l start family
      >> phase_family fuel w l start family
      >> expand_if (is_given family) fuel w l
      >> phase_fallback w l true false
      >> phase_last w l in
    elim (ltb start (r.client.circuit_broken_until)) [
      | true ↦
          some (done (circuit_open ((r.client.circuit_broken_until - start) / 1_000)), read_clock r)
      | false ↦ phases (read_clock r)
    ]

-- The local variables as `call` begins.
unfoldable pub begin : Client → Run
begin c = record { client = c; readings = 0; exchanges = 0; retries = 0; tried = [] }
