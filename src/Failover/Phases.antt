-- ===== src/Failover/Phases.antt =====
-- What one attempt of `call` changes, and the rule by which facts about attempts become facts
-- about its phases: they end, and keep whatever each attempt keeps.
mod Fresh
pub use Fresh.{names, fresh, fresh-le-length, fresh-cons-lt, IsFresh, pool_of-IsFresh}
use existential_identity_tes.Base.{
  ℕ, zero, suc, ◌+◌, ◌≤◌, ◌<◌, ◌≡◌, refl, sym, ap, ◌∙◌, ◌≢◌, Bool, true, false, not, List, [], ◌∷◌,
  Option, none, some, arith, All, modify, get_elem?, String, map, select, length, if◌then◌else◌,
  Bool-cases, inl, inr, leb, ◌==◌, ◌&&◌, ◌||◌,
}
use existential_identity_tes.Base.Text.{elem, str_eq, str_eq_iff}
use existential_identity_tes.Base.Dict
use existential_identity_tes.Failover.{
  is_healthy, Client, Provider, Limits, Category, permanent, rate_limit, auth, server, timeout,
  error_category,
}
use existential_identity_tes.Failover.Health.{
  fail_provider, transition_health, heal_provider, fail_probe, probe_transition, mark_success,
}
use existential_identity_tes.Failover.Select.{Ref, refs_from, available}
use existential_identity_tes.Failover.Call.{
  answer, raised_permanent, raised_other, circuit_open, global_timeout, exhausted, unconfigured,
  World, Run, Reply, Outcome, Step, Verdict, done, next, Phase, ◌>>◌, attempt, untried, pool_of,
  add_tried, settle, http_failure, note_failure, fast_conclude, fast_attempt, fast_path, find_named,
  call_single, conclude, use_provider, cli_answered, cli_failed, blocked, status, timed_out, failed,
  malformed, answered, served, recoverable, permanent_error, crashed,
}

-- A phase returns, with `P` of what it returns, or goes on where `N` holds.
abbrev pub Returns : (Verdict → Run → Type 0) → (Run → Type 0) → Option (Step × Run) → Type 0
Returns P N none = ⊥
Returns P N (some (done v, r)) = P v r
Returns P N (some (next, r)) = N r

pub Returns->> :
    (P : Verdict → Run → Type 0) (N M : Run → Type 0) (m k : Phase) (r : Run)
    → Returns P N (m r)
    → ((s : Run) → N s → Returns P M (k s))
    → Returns P M ((m >> k) r)
Returns->> P N M m k r h g = go (m r) refl h
  where
    go : (o : Option (Step × Run)) → m r ≡ o → Returns P N o → Returns P M ((m >> k) r)
    go none e h = absurd h
    go (some (done v, s)) e h = rw (e, ◌>>◌) h
    go (some (next, s)) e h = rw (e, ◌>>◌) (g s h)

names-modify :
    (f : Provider → Provider)
    → ((p : Provider) → (f p).name ≡ p.name)
    → (ps : List Provider) (i : ℕ) → map (λ p. p.name) (modify ps i f) ≡ map (λ p. p.name) ps
names-modify f k [] i = refl
names-modify f k (p ∷ ps) zero = rw (k p)
names-modify f k (p ∷ ps) (suc i) = rw (names-modify f k ps i)

-- What a step inside `call` leaves alone, whatever the provider does.
pub record Keeps (c c' : Client) : Type 0 where
  pub names_same : names c' ≡ names c
  pub failures_same : c'.global_consecutive_failures ≡ c.global_consecutive_failures
  pub broken_same : c'.circuit_broken_until ≡ c.circuit_broken_until

transition-Keeps :
    (l : Limits) (now later i : ℕ) (k : Category) (c : Client)
    → Keeps c (transition_health l now later i k c)
unfolding transition_health fail_provider
transition-Keeps l now later i permanent c = record {
  names_same = refl;
  failures_same = refl;
  broken_same = refl;
}
transition-Keeps l now later i k c = record {
  names_same = names-modify (fail_provider l now k) (λ p. refl) c.providers i;
  failures_same = refl;
  broken_same = refl;
}

-- What the exchange with a provider leaves of the run.
pub record Frame (r r' : Run) : Type 0 where
  pub client_same : Keeps r.client r'.client
  pub tried_same : r'.tried ≡ r.tried
  pub exchanges_same : r'.exchanges ≡ r.exchanges

Keeps-refl : (c : Client) → Keeps c c
Keeps-refl c = record { names_same = refl; failures_same = refl; broken_same = refl }

pub Frame-refl : (r : Run) → Frame r r
Frame-refl r = record {
  client_same = Keeps-refl r.client;
  tried_same = refl;
  exchanges_same = refl;
}

pub note_failure-Frame :
    (w : World) (l : Limits) (i : ℕ) (k : Category) (r : Run) → Frame r (note_failure w l i k r)
unfolding note_failure
note_failure-Frame w l i k r = record {
  client_same = transition-Keeps l _ _ i k r.client;
  tried_same = refl;
  exchanges_same = refl;
}

pub Frame-trans : (r s t : Run) → Frame r s → Frame s t → Frame r t
Frame-trans r s t f g = record {
  client_same = record {
    names_same = g.client_same.names_same ∙ f.client_same.names_same;
    failures_same = g.client_same.failures_same ∙ f.client_same.failures_same;
    broken_same = g.client_same.broken_same ∙ f.client_same.broken_same;
  };
  tried_same = g.tried_same ∙ f.tried_same;
  exchanges_same = g.exchanges_same ∙ f.exchanges_same;
}

http_failure-Frame :
    (w : World) (l : Limits) (i : ℕ) (k : Category) (r : Run) → Frame r (http_failure w l i k r).1
unfolding http_failure
http_failure-Frame w l i permanent r = Frame-refl r
http_failure-Frame w l i category r =
    Frame-trans r (note_failure w l i category r) _ (note_failure-Frame w l i category r)
      (note_failure-Frame w l i server (note_failure w l i category r))

pub settle-Frame :
    (w : World) (l : Limits) (i : ℕ) (x : Reply) (r : Run) → Frame r (settle w l i x r).1
unfolding settle use_provider
settle-Frame w l i (status code) r = http_failure-Frame w l i (error_category code) r
settle-Frame w l i timed_out r = note_failure-Frame w l i timeout r
settle-Frame w l i failed r = note_failure-Frame w l i server r
settle-Frame w l i answered r = record {
  client_same = record {
    names_same = names-modify (use_provider (w.clock r.readings)) (λ p. refl) r.client.providers i;
    failures_same = refl;
    broken_same = refl;
  };
  tried_same = refl;
  exchanges_same = refl;
}
settle-Frame w l i _ r = Frame-refl r

-- What an attempt leaves when the call goes on.
pub record Tried (a : Ref) (r r' : Run) : Type 0 where
  pub kept : Keeps r.client r'.client
  pub noted : r'.tried ≡ add_tried a.seen.name r.tried
  pub spent : r'.exchanges ≡ r.exchanges + 1

-- How an attempt ends the call, if it does: with its provider's answer, which clears the breaker,
-- or with an exception.
abbrev pub Ends : Ref → Run → Verdict → Run → Type 0
Ends a r (answer n k) r' =
    (n ≡ a.seen.name)
    × (r'.exchanges ≡ r.exchanges + 1)
    × (r'.client.global_consecutive_failures ≡ 0)
    × (r'.client.circuit_broken_until ≡ 0)
Ends a r raised_permanent r' = (r'.exchanges ≡ r.exchanges + 1) × Keeps r.client r'.client
Ends a r raised_other r' = (r'.exchanges ≡ r.exchanges + 1) × Keeps r.client r'.client
Ends a r _ r' = ⊥

pub conclude-Tried :
    (w : World) (l : Limits) (a : Ref) (probe : Bool) (o : Outcome) (r s : Run)
    → Frame (record r { tried = add_tried a.seen.name r.tried; exchanges = r.exchanges + 1 }) s
    → Returns (Ends a r) (Tried a r) (some (conclude w l a.index a.seen.name probe o s))
unfolding conclude mark_success probe_transition fail_probe
conclude-Tried w l a probe served r s f = (refl, f.exchanges_same, refl, refl)
conclude-Tried w l a probe permanent_error r s f = (f.exchanges_same, f.client_same)
conclude-Tried w l a probe crashed r s f = (f.exchanges_same, f.client_same)
conclude-Tried w l a false recoverable r s f = record {
  kept = f.client_same;
  noted = f.tried_same;
  spent = f.exchanges_same;
}
conclude-Tried w l a true recoverable r s f = record {
  kept = record {
    names_same =
        names-modify (fail_probe l (w.clock s.readings)) (λ p. refl) s.client.providers a.index
        ∙ f.client_same.names_same;
    failures_same = f.client_same.failures_same;
    broken_same = f.client_same.broken_same;
  };
  noted = f.tried_same;
  spent = f.exchanges_same;
}

pub attempt-Tried :
    (w : World) (l : Limits) (a : Ref) (r : Run) → Returns (Ends a r) (Tried a r) (attempt w l a r)
unfolding attempt call_single
attempt-Tried w l a r = conclude-Tried w l a _ _ r _ (settle-Frame w l a.index _ _)

-- The fast path goes on at once, or makes its attempt at one provider.
pub fast_path_rule :
    (w : World) (l : Limits) (start : ℕ) (family : String) (r : Run)
    (G : Option (Step × Run) → Type 0)
    → G (some (next, r))
    → ((a : Ref) → G (fast_attempt w l start family a r))
    → G (fast_path w l start (some family) r)
unfolding fast_path
fast_path_rule w l start family r G skip go = elim (Bool-cases (str_eq family "")) [
  | inl e ↦ rw e skip
  | inr e ↦ rw e (known (Dict.get (r.client.last_healthy) family))
]
  where
    found :
        (o : Option Ref)
        → G (elim o [ none ↦ some (next, r) | some a ↦ fast_attempt w l start family a r ])
    found none = skip
    found (some a) = go a

    known :
        (o : Option String)
        → G (elim o [
          | none ↦ some (next, r)
          | some name ↦ elim (find_named name (refs_from 0 (r.client.providers))) [
            | none ↦ some (next, r)
            | some a ↦ fast_attempt w l start family a r
          ]
        ])
    known none = skip
    known (some name) = found (find_named name (refs_from 0 (r.client.providers)))

-- What the fast path leaves when the call goes on.
pub record FastKept (r r' : Run) : Type 0 where
  pub kept : Keeps r.client r'.client
  pub tried_same : r'.tried ≡ r.tried
  pub spent : r'.exchanges ≤ r.exchanges + 1

FastKept-refl : (r : Run) → FastKept r r
FastKept-refl r = record { kept = Keeps-refl r.client; tried_same = refl; spent = omega arith }

abbrev pub FastEnds : Run → Verdict → Run → Type 0
FastEnds r (answer n k) r' =
    (r'.exchanges ≡ r.exchanges + 1)
    × (r'.client.global_consecutive_failures ≡ 0)
    × (r'.client.circuit_broken_until ≡ 0)
FastEnds r raised_permanent r' = (r'.exchanges ≡ r.exchanges + 1) × Keeps r.client r'.client
FastEnds r raised_other r' = (r'.exchanges ≡ r.exchanges + 1) × Keeps r.client r'.client
FastEnds r _ r' = ⊥

fast_conclude-FastKept :
    (i : ℕ) (name family : String) (o : Outcome) (r s : Run)
    → Frame (record r { exchanges = r.exchanges + 1 }) s
    → Returns (FastEnds r) (FastKept r) (some (fast_conclude i name family o s))
unfolding fast_conclude mark_success
fast_conclude-FastKept i name family served r s f = (f.exchanges_same, refl, refl)
fast_conclude-FastKept i name family permanent_error r s f = (f.exchanges_same, f.client_same)
fast_conclude-FastKept i name family crashed r s f = (f.exchanges_same, f.client_same)
fast_conclude-FastKept i name family recoverable r s f = record {
  kept = record {
    names_same = f.client_same.names_same;
    failures_same = f.client_same.failures_same;
    broken_same = f.client_same.broken_same;
  };
  tried_same = f.tried_same;
  spent = omega (arith, f.exchanges_same);
}

fast_attempt-FastKept :
    (w : World) (l : Limits) (start : ℕ) (family : String) (a : Ref) (r : Run)
    → Returns (FastEnds r) (FastKept r) (fast_attempt w l start family a r)
unfolding fast_attempt call_single
fast_attempt-FastKept w l start family a r =
    elim (Bool-cases (
      is_healthy a.seen.state
      && (a.seen.last_used == 0 || leb (a.seen.last_used + l.min_interval) start))) [
        | inl e ↦
            rw e (
              fast_conclude-FastKept a.index a.seen.name family _ r _
                (settle-Frame w l a.index _ _))
        | inr e ↦ rw e (FastKept-refl r)
      ]

pub fast_path-FastKept :
    (w : World) (l : Limits) (start : ℕ) (family : Option String) (r : Run)
    → Returns (FastEnds r) (FastKept r) (fast_path w l start family r)
unfolding fast_path
fast_path-FastKept w l start none r = FastKept-refl r
fast_path-FastKept w l start (some family) r =
    fast_path_rule w l start family r (Returns (FastEnds r) (FastKept r)) (FastKept-refl r)
      (λ a. fast_attempt-FastKept w l start family a r)
