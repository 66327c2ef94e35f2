-- ===== src/Failover/Stream.antt =====
-- `call_stream` of model_failover.py: the chunks that it yields, one provider after the other. The
-- lines of a stream are decoded as far as the loop tells them apart; a request that fails before its
-- first line is a stream without lines. The request's body and headers are not modelled.
use existential_identity_tes.Base.{
  ℕ, zero, suc, ◌+◌, ◌-◌, ◌/◌, ltb, if◌then◌else◌, Bool, true, false, String, List, [], ◌∷◌, ◌++◌,
  Option, some, none,
}
use existential_identity_tes.Base.Text.{str_eq}
use existential_identity_tes.Failover.{
  Client, Limits, Category, server, permanent, timeout, error_category,
}
use existential_identity_tes.Failover.Health.{mark_success}
use existential_identity_tes.Failover.Select.{Ref}
use existential_identity_tes.Failover.Call.{
  World, Run, recoverable, note_failure, add_tried, is_probe, conclude, pool_of, read_clock,
  is_given, count_failure, begin,
}

-- A line that yields nothing, one with content, the line that marks the end, and one that makes the
-- decoding raise another exception than those that the loop expects.
pub data Line : Type 0 where
  skipped done_mark raising : Line
  content : String → Line

pub data StreamEnd : Type 0 where
  finished cut_off broken : StreamEnd

-- A status of 400 and more, or a stream.
pub data StreamReply : Type 0 where
  refused : ℕ → StreamReply
  streaming : List Line → StreamEnd → StreamReply

pub data StreamVerdict : Type 0 where
  streamed : String → StreamVerdict
  stopped late exhausted : StreamVerdict
  circuit_open : ℕ → StreamVerdict

unfoldable pub read_stream : List Line → StreamEnd → List String × StreamEnd
read_stream [] e = ([], e)
read_stream (skipped ∷ ls) e = read_stream ls e
read_stream (done_mark ∷ ls) e = ([], finished)
read_stream (raising ∷ ls) e = ([], broken)
read_stream (content c ∷ ls) e =
    let (cs, e') = read_stream ls e in if str_eq c "" then (cs, e') else (c ∷ cs, e')

-- A failure that the call survives: the transition, and the count of a retry.
unfoldable pub fail_stream : World → Limits → Ref → Bool → Category → Run → Run
fail_stream w l a probe category r =
    (conclude w l a.index a.seen.name probe recoverable (note_failure w l a.index category r)).1

unfoldable pub end_stream :
    World → Limits → Ref → Bool → StreamEnd → Run → Option StreamVerdict × Run
unfolding fail_stream
end_stream w l a probe finished r =
    (some (streamed a.seen.name), record r { client = mark_success a.index r.client })
end_stream w l a probe cut_off r = (none, fail_stream w l a probe timeout r)
end_stream w l a probe broken r = (none, fail_stream w l a probe server r)

unfoldable pub refuse_stream :
    World → Limits → Ref → Bool → Category → Run → Option StreamVerdict × Run
unfolding fail_stream
refuse_stream w l a probe permanent r = (some stopped, r)
refuse_stream w l a probe category r = (none, fail_stream w l a probe category r)

unfoldable pub settle_stream :
    World → Limits → Ref → Bool → StreamReply → Run → List String × (Option StreamVerdict × Run)
unfolding refuse_stream end_stream read_stream
settle_stream w l a probe (refused code) r = ([], refuse_stream w l a probe (error_category code) r)
settle_stream w l a probe (streaming lines e) r =
    let (chunks, e') = read_stream lines e in (chunks, end_stream w l a probe e' r)

unfoldable pub stream_attempt :
    World → Limits → (ℕ → StreamReply) → Ref → Run → List String × (Option StreamVerdict × Run)
unfolding settle_stream
stream_attempt w l replies a r =
    settle_stream w l a (is_probe r.client a.index) (replies r.exchanges)
      (record r { tried = add_tried a.seen.name r.tried; exchanges = r.exchanges + 1 })

abbrev pub StreamResult : Type 0
StreamResult = Option (List String × (StreamVerdict × Run))

-- What was yielded, before what the rest of the call yields.
abbrev pub before_rest : List String → StreamResult → StreamResult
before_rest chunks none = none
before_rest chunks (some (more, end)) = some (chunks ++ more, end)

abbrev pub go_on : List String × (Option StreamVerdict × Run) → (Run → StreamResult) → StreamResult
go_on (chunks, (some v, r)) k = some (chunks, (v, r))
go_on (chunks, (none, r)) k = before_rest chunks (k r)

abbrev pub is_missing : Option String → Bool
is_missing none = true
is_missing (some f) = false

-- All providers are exhausted.
unfoldable pub exhaust : World → Run → StreamResult
exhaust w r = some (
  "All providers exhausted. Please retry later." ∷ [],
  (exhausted, elim (r.client.providers) [ [] ↦ r | _ ↦ count_failure w r ]),
)

unfoldable pub stream_loop :
    ℕ → World → Limits → (ℕ → StreamReply) → ℕ → Option String → Run → StreamResult
unfolding exhaust
stream_loop zero w l replies start family r = none
stream_loop (suc fuel) w l replies start family r =
    let r' = read_clock r in
    elim (ltb (start + l.global_call_timeout) (w.clock r.readings)) [
      | true ↦ some ([], (late, count_failure w r'))
      | false ↦ elim (pool_of w l (is_missing family) family false r') [
        | [] ↦ elim (is_given family) [
          | true ↦ stream_loop fuel w l replies start none (read_clock r')
          | false ↦ exhaust w (read_clock r')
        ]
        | pick ∷ _ ↦
            go_on (stream_attempt w l replies pick (read_clock r'))
              (stream_loop fuel w l replies start family)
      ]
    ]

-- `call_stream`; the text that names the remaining seconds is given.
unfoldable pub call_stream :
    ℕ → World → Limits → (ℕ → StreamReply) → (ℕ → String) → Option String → Client → StreamResult
unfolding stream_loop
call_stream fuel w l replies cooldown_text family c =
    let start = w.clock 0 in
    let seconds = (c.circuit_broken_until - start) / 1_000 in
    elim (ltb start c.circuit_broken_until) [
      | true ↦ some (cooldown_text seconds ∷ [], (circuit_open seconds, read_clock (begin c)))
      | false ↦ stream_loop fuel w l replies start family (read_clock (begin c))
    ]
