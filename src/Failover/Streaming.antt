-- ===== src/Failover/Streaming.antt =====
-- A stream ends after at most one exchange for each provider, and yields what each of them sent.
use existential_identity_tes.Base.{
  ℕ, zero, suc, ◌+◌, ◌≤◌, ◌<◌, ◌≡◌, refl, sym, true, false, String, List, [], ◌∷◌, ◌++◌, Option,
  none, some, arith, All, length, ltb, Bool-cases, inl, inr, if◌then◌else◌,
}
use mathlib.Core.List.{append_assoc, append-nil}
use existential_identity_tes.Base.Text.{elem}
use existential_identity_tes.Failover.{Client, Provider, Limits}
use existential_identity_tes.Failover.Select.{Ref}
use existential_identity_tes.Failover.Call.{
  World, Run, is_probe, pool_of, read_clock, is_given, count_failure, begin,
}
use existential_identity_tes.Failover.Phases.{
  names, fresh-cons-lt, fresh-le-length, IsFresh, pool_of-IsFresh, Tried,
}
use existential_identity_tes.Failover.Rule.{measure, measure-Tried, length-names}
use existential_identity_tes.Failover.Stream.{
  StreamReply, StreamVerdict, exhausted, settle_stream, stream_attempt, StreamResult, before_rest,
  go_on, is_missing, exhaust, stream_loop, call_stream,
}
use existential_identity_tes.Failover.Attempts.{
  chunks_of, delivered, last_words, Attempted, Asked, settle_stream-Attempted,
}

module _ (w : World) (l : Limits) (replies : ℕ → StreamReply) where
  -- A call that goes on from run `r` returns after at most `m` exchanges, with what they yield.
  abbrev pub Delivers : ℕ → Run → StreamResult → Type 0
  Delivers m r none = ⊥
  Delivers m r (some (chunks, (v, s))) =
      (n : ℕ) × ((s.exchanges ≡ r.exchanges + n)
        × ((n ≤ m) × (chunks ≡ delivered replies r.exchanges n ++ last_words v)))

  -- A call that goes on after an attempt at a fresh provider.
  go_on-Delivers :
      (a : Ref) (r : Run) (o : Option StreamVerdict × Run) (chunks : List String)
      (k : Run → StreamResult)
      → IsFresh r a
      → chunks ≡ chunks_of (replies r.exchanges)
      → Attempted a r o
      → ((s : Run) → Tried a r s → Delivers (measure s) s (k s))
      → Delivers (measure r) r (go_on (chunks, o) k)
  unfolding delivered
  go_on-Delivers a r (some v, s) chunks k f e t g = (
    1,
    (
      t.0,
      (
        omega (arith, fresh-cons-lt a.seen.name (names r.client) r.tried f.listed f.not_tried),
        rw (e, t.1, append-nil, append-nil) refl,
      ),
    ),
  )
  go_on-Delivers a r (none, s) chunks k f e t g = go (k s) (g s t)
    where
      go :
          (o : StreamResult)
          → Delivers (measure s) s o
          → Delivers (measure r) r (before_rest chunks o)
      go none d = d
      go (some (more, (v, u))) d = (
        suc d.0,
        (
          omega (arith, d.1.0, t.spent),
          (
            omega (arith, d.1.1.0, measure-Tried a r s f t),
            rw (e, d.1.1.1, t.spent)
                (sym (
                  append_assoc (chunks_of (replies r.exchanges))
                    (delivered replies (r.exchanges + 1) d.0) (last_words v))),
          ),
        ),
      )

  -- `measure` does not look at the readings of the clock.
  count_failure-exchanges : (r : Run) → (count_failure w r).exchanges ≡ r.exchanges
  unfolding count_failure
  count_failure-exchanges r = ground arith

  exhaust-Delivers : (r : Run) → Delivers (measure r) r (exhaust w r)
  unfolding exhaust delivered
  exhaust-Delivers r = go r.client.providers
    where
      go :
          (ps : List Provider)
          → Delivers (measure r) r (
              some (
                "All providers exhausted. Please retry later." ∷ [],
                (exhausted, elim ps [ [] ↦ r | _ ↦ count_failure w r ]),
              ))
      go [] = (0, (omega arith, (omega arith, refl)))
      go (p ∷ ps) = (0, (omega (arith, count_failure-exchanges r), (omega arith, refl)))

  -- The number of rounds that a run may still take: one for each fresh provider, and one to leave
  -- the family.
  abbrev rounds : Option String → Run → ℕ
  rounds family r = (if is_given family then 1 else 0) + measure r

  stream_attempt-Delivers :
      (a : Ref) (r : Run) (k : Run → StreamResult)
      → IsFresh r a
      → ((s : Run) → Tried a r s → Delivers (measure s) s (k s))
      → Delivers (measure r) r (go_on (stream_attempt w l replies a r) k)
  unfolding stream_attempt
  stream_attempt-Delivers a r k f g =
      let x = replies r.exchanges in
      let probe = is_probe r.client a.index in
      go_on-Delivers a r (settle_stream w l a probe x (Asked a r)).1
        (settle_stream w l a probe x (Asked a r)).0 k f (settle_stream-Attempted w l a probe x r).0
        (settle_stream-Attempted w l a probe x r).1 g

  -- A round of the loop, with its pool.
  pool-Delivers :
      (fuel start : ℕ) (family : Option String) (r : Run) (pool : List Ref)
      → All
          (λ a. (elem a.seen.name (names r.client) ≡ true) × (elem a.seen.name r.tried ≡ false))
          pool
      → (is_given family ≡ true
          → Delivers (measure r) r (stream_loop fuel w l replies start none r))
      → ((s : Run)
          → measure s < measure r
          → Delivers (measure s) s (stream_loop fuel w l replies start family s))
      → Delivers (measure r) r (elim pool [
        | [] ↦ elim (is_given family) [
          | true ↦ stream_loop fuel w l replies start none r
          | false ↦ exhaust w r
        ]
        | pick ∷ _ ↦
            go_on (stream_attempt w l replies pick r) (stream_loop fuel w l replies start family)
      ])
  pool-Delivers fuel start family r [] f given rest = elim (Bool-cases (is_given family)) [
    | inl e ↦ rw e (given e)
    | inr e ↦ rw e (exhaust-Delivers r)
  ]
  pool-Delivers fuel start family r (a ∷ pool) f given rest =
      stream_attempt-Delivers a r (stream_loop fuel w l replies start family) fresh
        (λ s t. rest s (measure-Tried a r s fresh t))
    where
      fresh : IsFresh r a
      fresh = record { listed = f.0.0; not_tried = f.0.1 }

  stream_loop-Delivers :
      (fuel start : ℕ) (family : Option String) (r : Run)
      → rounds family r < fuel
      → Delivers (measure r) r (stream_loop fuel w l replies start family r)
  unfolding stream_loop delivered
  stream_loop-Delivers zero start family r m = absurd (omega arith)
  stream_loop-Delivers (suc fuel) start family r m =
      elim (Bool-cases (ltb (start + l.global_call_timeout) (w.clock r.readings))) [
        | inl e ↦
            rw (e, stream_loop)
              (0, (omega (arith, count_failure-exchanges (read_clock r)), (omega arith, refl)))
        | inr e ↦
            rw (e, stream_loop)
              (pool-Delivers fuel start family (read_clock (read_clock r))
                (pool_of w l (is_missing family) family false (read_clock r))
                (pool_of-IsFresh w l (is_missing family) family false (read_clock r))
                (λ g.
                  stream_loop-Delivers fuel start none (read_clock (read_clock r)) (given_less g))
                (λ s h. stream_loop-Delivers fuel start family s (omega (arith, m, h))))
      ]
    where
      given_less : is_given family ≡ true → 0 + measure r < fuel
      given_less g = ground (arith, g, m)

  Delivers-weaken : (m k : ℕ) (r : Run) (o : StreamResult) → m ≤ k → Delivers m r o → Delivers k r o
  Delivers-weaken m k r none h d = d
  Delivers-weaken m k r (some (chunks, (v, s))) h d =
      (d.0, (d.1.0, (omega (arith, d.1.1.0, h), d.1.1.1)))

-- With fuel above the number of providers by two, whatever the providers send and the clock reads,
-- unless the circuit breaker is open at first: a streamed call returns after at most one exchange
-- for each provider. It yields the texts, but for empty ones, that the providers that it asked have
-- sent before the mark of the end or a line that raises, one provider after the other, those that then
-- failed included, and at the end its message if no provider is left.
pub call_stream-Delivers :
    (w : World) (l : Limits) (replies : ℕ → StreamReply) (cooldown_text : ℕ → String)
    (family : Option String) (c : Client) (fuel : ℕ)
    → length c.providers + 1 < fuel
    → ltb (w.clock 0) c.circuit_broken_until ≡ false
    → Delivers w l replies
        (length c.providers)
        (begin c)
        (call_stream fuel w l replies cooldown_text family c)
unfolding call_stream begin
call_stream-Delivers w l replies text family c fuel m e =
    rw (e, call_stream)
      (Delivers-weaken w l replies (measure (begin c)) (length c.providers) (begin c)
        (stream_loop fuel w l replies (w.clock 0) family (read_clock (begin c))) fewer
        (stream_loop-Delivers w l replies fuel (w.clock 0) family (read_clock (begin c)) enough))
  where
    fewer : measure (begin c) ≤ length c.providers
    fewer = omega (arith, fresh-le-length (names c) [], length-names c.providers)

    enough : (if is_given family then 1 else 0) + measure (begin c) < fuel
    enough = ground (arith, fewer, m)
