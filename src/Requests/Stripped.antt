-- ===== src/Requests/Stripped.antt =====
-- The calls that are left after the first pass are answered right after their message.
use existential_identity_tes.Base.{
  ◌≡◌, refl, if◌then◌else◌, String, Bool, true, false, not, ◌&&◌, ◌||◌, List, [], ◌∷◌, Option, none,
  some, any_of, all_of, select, arith, Bool-cases, inl, inr,
}
use existential_identity_tes.Requests.{
  Message, ToolCall, is_assistant, is_tool, is_empty, same_id, next_tool_ids, is_answered,
  strip_calls, keep_answered, append_to,
}
use existential_identity_tes.Requests.Paired.{tool-plain}

ids-step :
    (b : Bool) (o id : Option String) (xs ys : List (Option String))
    → (any_of (same_id o) xs ≡ true → any_of (same_id o) ys ≡ true)
    → any_of (same_id o) (if b then id ∷ xs else []) ≡ true
    → any_of (same_id o) (if b then id ∷ ys else []) ≡ true
ids-step true o id xs ys k h = ground (arith, h, k)
ids-step false o id xs ys k h = h

module _ {Json : Type 0} where
  -- Each call of each assistant message has an answer among the tool messages right after it.
  unfoldable pub all_answered : List (Message Json) → Bool
  unfolding is_answered next_tool_ids
  all_answered [] = true
  all_answered (m ∷ ms) =
      (not (is_assistant m.role) || all_of (is_answered (next_tool_ids ms)) m.tool_calls)
      && all_answered ms

  all_answered_mono :
      (ids more : List (Option String)) (tcs : List (ToolCall Json))
      → ((o : Option String) → any_of (same_id o) ids ≡ true → any_of (same_id o) more ≡ true)
      → all_of (is_answered ids) tcs ≡ true
      → all_of (is_answered more) tcs ≡ true
  unfolding is_answered
  all_answered_mono ids more [] c h = refl
  all_answered_mono ids more (tc ∷ tcs) c h =
      ground (arith, c tc.id, all_answered_mono ids more tcs c)

  select-answered :
      (ids : List (Option String)) (tcs : List (ToolCall Json))
      → all_of (is_answered ids) (select (is_answered ids) tcs) ≡ true
  select-answered ids [] = refl
  select-answered ids (tc ∷ tcs) = ground (arith, select-answered ids tcs)

  abbrev Left : List (Option String) → Message Json → Option (Message Json) → Type 0
  Left ids m none = is_tool m.role ≡ false
  Left ids m (some k) =
      (k.role ≡ m.role)
      × ((k.tool_call_id ≡ m.tool_call_id)
          × ((not (is_assistant k.role) || all_of (is_answered ids) k.tool_calls) ≡ true))

  all_of-empty :
      (p : ToolCall Json → Bool) (tcs : List (ToolCall Json))
      → is_empty tcs ≡ true
      → all_of p tcs ≡ true
  all_of-empty p [] h = refl
  all_of-empty p (tc ∷ tcs) h = ground (arith, h)

  keep_answered-Left :
      (ids : List (Option String)) (m : Message Json) → Left ids m (keep_answered ids m)
  unfolding keep_answered
  keep_answered-Left ids m =
      elim (Bool-cases (is_assistant m.role && not (is_empty m.tool_calls))) [
        | inl e ↦ rw e (elim (Bool-cases (all_of (is_answered ids) m.tool_calls)) [
          | inl f ↦ rw f (refl, (refl, ground (arith, f)))
          | inr f ↦ rw f (elim (Bool-cases (is_empty (select (is_answered ids) m.tool_calls))) [
            | inl g ↦ rw g (ground (arith, e, tool-plain m.role))
            | inr g ↦ rw g (refl, (refl, ground (arith, select-answered ids m.tool_calls)))
          ])
        ])
        | inr e ↦
            rw e (refl, (refl, ground (arith, e, all_of-empty (is_answered ids) m.tool_calls)))
      ]

  append_to-ids :
      (m : Message Json) (ms rest : List (Message Json)) (o : Option String)
      (left : Option (Message Json))
      → Left (next_tool_ids ms) m left
      → (any_of (same_id o) (next_tool_ids ms) ≡ true
          → any_of (same_id o) (next_tool_ids rest) ≡ true)
      → any_of (same_id o) (next_tool_ids (m ∷ ms)) ≡ true
      → any_of (same_id o) (next_tool_ids (append_to rest left)) ≡ true
  unfolding next_tool_ids
  append_to-ids m ms rest o none l k h = absurd (ground (arith, l, h))
  append_to-ids m ms rest o (some left) l k h =
      rw (l.0, l.1.0)
        (ids-step (is_tool m.role) o m.tool_call_id (next_tool_ids ms) (next_tool_ids rest) k h)

  -- The calls that the first pass strips take no answer away.
  strip_calls-ids :
      (ms : List (Message Json)) (o : Option String)
      → any_of (same_id o) (next_tool_ids ms) ≡ true
      → any_of (same_id o) (next_tool_ids (strip_calls ms)) ≡ true
  unfolding strip_calls
  strip_calls-ids [] o h = h
  strip_calls-ids (m ∷ ms) o h =
      append_to-ids m ms (strip_calls ms) o (keep_answered (next_tool_ids ms) m)
        (keep_answered-Left (next_tool_ids ms) m) (strip_calls-ids ms o) h

  append_to-answered :
      (m : Message Json) (ids : List (Option String)) (rest : List (Message Json))
      (left : Option (Message Json))
      → Left ids m left
      → ((o : Option String)
          → any_of (same_id o) ids ≡ true
          → any_of (same_id o) (next_tool_ids rest) ≡ true)
      → all_answered rest ≡ true
      → all_answered (append_to rest left) ≡ true
  unfolding all_answered
  append_to-answered m ids rest none l c h = h
  append_to-answered m ids rest (some k) l c h =
      ground (arith, l.1.1, h, all_answered_mono ids (next_tool_ids rest) k.tool_calls c)

  pub strip_calls-answered : (ms : List (Message Json)) → all_answered (strip_calls ms) ≡ true
  unfolding strip_calls all_answered
  strip_calls-answered [] = refl
  strip_calls-answered (m ∷ ms) =
      append_to-answered m (next_tool_ids ms) (strip_calls ms) (keep_answered (next_tool_ids ms) m)
        (keep_answered-Left (next_tool_ids ms) m) (strip_calls-ids ms) (strip_calls-answered ms)
