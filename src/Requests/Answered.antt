-- ===== src/Requests/Answered.antt =====
-- For DeepSeek every call that is left is answered by a tool message right after it.
use existential_identity_tes.Base.{
  ◌≡◌, refl, String, true, false, not, ◌&&◌, ◌||◌, List, [], ◌∷◌, map, Option, none, some, any_of,
  all_of, arith, Bool-cases, inl, inr,
}
use existential_identity_tes.Base.Text.{str_eq, str_eq_iff, elem}
use existential_identity_tes.Requests.{
  Message, ToolCall, Library, is_assistant, is_tool, same_id, or_else, call_ids, next_active,
  next_tool_ids, is_answered, strip_calls, is_orphan, strip_tools, final_type, type_pass,
  clean_messages, named, orphan_pass, formatted,
}
use existential_identity_tes.Requests.Identifiers.{has_id, HaveIds, formatted-HaveIds}
use existential_identity_tes.Requests.Calls.{strip_calls-HaveCalls}
use existential_identity_tes.Requests.Paired.{next_active-tool, call_ids_complete}
use existential_identity_tes.Requests.Stripped.{all_answered, strip_calls-answered}

orphan-other :
    (active : List String) (s : String) (o : Option String)
    → str_eq s "" ≡ false
    → elem s active ≡ true
    → is_orphan active o ≡ true
    → same_id (some s) o ≡ false
unfolding is_orphan same_id
orphan-other active s none n e h = refl
orphan-other active s (some t) n e h = ground (arith, n, e, h, str_eq_iff s t)

named_id :
    (s : String) (o : Option String)
    → same_id (some s) o ≡ true
    → str_eq (or_else o "") "" ≡ false
    → str_eq s "" ≡ false
unfolding same_id
named_id s none e n = ground (arith, e)
named_id s (some t) e n = rw ((str_eq_iff s t).0 e) n

module _ {Json : Type 0} where
  -- The second pass keeps the answers to the calls that are active.
  strip_tools-ids :
      (active : List String) (s : String) (ms : List (Message Json))
      → str_eq s "" ≡ false
      → elem s active ≡ true
      → any_of (same_id (some s)) (next_tool_ids ms) ≡ true
      → any_of (same_id (some s)) (next_tool_ids (strip_tools active ms)) ≡ true
  unfolding strip_tools next_tool_ids
  strip_tools-ids active s [] n e h = h
  strip_tools-ids active s (m ∷ ms) n e h = elim (Bool-cases (is_tool m.role)) [
    | inl t ↦
        rw (t, next_active-tool active m t)
          (elim (Bool-cases (is_orphan active m.tool_call_id)) [
            | inl f ↦ rw f (
                strip_tools-ids active s ms n e
                  (ground (arith, h, t, orphan-other active s m.tool_call_id n e f)))
            | inr f ↦ rw (f, t) (ground (arith, h, t, strip_tools-ids active s ms n e))
          ])
    | inr t ↦ absurd (ground (arith, t, h))
  ]

  call-ids :
      (active : List String) (o : Option String) (ms : List (Message Json))
      → str_eq (or_else o "") "" ≡ false
      → ((s : String) → same_id (some s) o ≡ true → elem s active ≡ true)
      → any_of (same_id o) (next_tool_ids ms) ≡ true
      → any_of (same_id o) (next_tool_ids (strip_tools active ms)) ≡ true
  unfolding same_id
  call-ids active none ms n k h = ground (arith, n, (str_eq_iff "" "").1 refl)
  call-ids active (some s) ms n k h =
      strip_tools-ids active s ms n (k s ((str_eq_iff s s).1 refl)) h

  -- The calls of an assistant message that are answered before the second pass are so after it.
  calls-ids :
      (active : List String) (tcs : List (ToolCall Json)) (ms : List (Message Json))
      → all_of has_id tcs ≡ true
      → ((s : String)
          → str_eq s "" ≡ false
          → any_of (λ tc. same_id (some s) tc.id) tcs ≡ true
          → elem s active ≡ true)
      → all_of (is_answered (next_tool_ids ms)) tcs ≡ true
      → all_of (is_answered (next_tool_ids (strip_tools active ms))) tcs ≡ true
  unfolding has_id is_answered
  calls-ids active [] ms i k h = refl
  calls-ids active (tc ∷ tcs) ms i k h = ground (
    arith,
    call-ids active tc.id ms (ground (arith, i)) (λ s e. k s (has_name s e) (ground (arith, e)))
        (ground (arith, h)),
    calls-ids active tcs ms (ground (arith, i)) (λ s n e. k s n (ground (arith, e)))
        (ground (arith, h)),
  )
    where
      has_name : (s : String) → same_id (some s) tc.id ≡ true → str_eq s "" ≡ false
      has_name s e = named_id s tc.id e (ground (arith, i))

  kept-answered :
      (active : List String) (m : Message Json) (ms : List (Message Json))
      → all_of has_id m.tool_calls ≡ true
      → (not (is_assistant m.role) || all_of (is_answered (next_tool_ids ms)) m.tool_calls) ≡ true
      → (not (is_assistant m.role)
          || all_of
              (is_answered (next_tool_ids (strip_tools (next_active active m) ms)))
              m.tool_calls)
        ≡ true
  unfolding next_active
  kept-answered active m ms i h = elim (Bool-cases (is_assistant m.role)) [
    | inl a ↦ rw a (
        calls-ids (call_ids m.tool_calls) m.tool_calls ms i (λ s. call_ids_complete s m.tool_calls)
          (ground (arith, a, h)))
    | inr a ↦ rw a refl
  ]

  strip_tools-answered :
      (active : List String) (ms : List (Message Json))
      → HaveIds ms
      → all_answered ms ≡ true
      → all_answered (strip_tools active ms) ≡ true
  unfolding all_answered strip_tools
  strip_tools-answered active [] i h = h
  strip_tools-answered active (m ∷ ms) i h =
      elim (Bool-cases (is_tool m.role && is_orphan active m.tool_call_id)) [
        | inl e ↦ rw e (strip_tools-answered (next_active active m) ms i.1 (ground (arith, h)))
        | inr e ↦
            rw
              (
                e,
                strip_tools-answered (next_active active m) ms i.1 (ground (arith, h)),
                kept-answered active m ms i.0 (ground (arith, h)),
              )
              refl
      ]

  next_tool_ids-final_type :
      (ms : List (Message Json)) → next_tool_ids (map final_type ms) ≡ next_tool_ids ms
  unfolding next_tool_ids final_type
  next_tool_ids-final_type [] = refl
  next_tool_ids-final_type (m ∷ ms) = rw (next_tool_ids-final_type ms) refl

  all_answered-final_type :
      (ms : List (Message Json)) → all_answered (map final_type ms) ≡ all_answered ms
  unfolding all_answered final_type
  all_answered-final_type [] = refl
  all_answered-final_type (m ∷ ms) =
      rw (all_answered-final_type ms, next_tool_ids-final_type ms) (same m)
    where
      same :
          (m : Message Json)
          → ((not (is_assistant (final_type m).role)
                || all_of (is_answered (next_tool_ids ms)) (final_type m).tool_calls)
              && all_answered ms)
            ≡ ((not (is_assistant m.role) || all_of (is_answered (next_tool_ids ms)) m.tool_calls)
                && all_answered ms)
      same m = refl

module _ {Json : Type 0} (py : Library Json) where
  -- For a provider that is DeepSeek by its name or endpoint, and messages whose calls all have an
  -- identifier that is not empty: in the messages of the request each call of an assistant message
  -- is answered among the tool messages that follow it immediately.
  pub clean_messages-answered :
      (name endpoint model : String) (messages : List (Message Json))
      → named "deepseek" name endpoint ≡ true
      → HaveIds messages
      → all_answered (clean_messages py name endpoint model messages) ≡ true
  unfolding clean_messages type_pass orphan_pass
  clean_messages-answered name endpoint model messages e i =
      rw
        (
          e,
          all_answered-final_type
              (strip_tools [] (strip_calls (formatted py name endpoint model messages))),
        )
        (strip_tools-answered [] (strip_calls (formatted py name endpoint model messages))
          (strip_calls-HaveCalls has_id (formatted py name endpoint model messages)
            (formatted-HaveIds py name endpoint model messages i))
          (strip_calls-answered (formatted py name endpoint model messages)))
