-- ===== src/Requests/Identifiers.antt =====
-- The passes keep the identifiers of the calls.
use existential_identity_tes.Base.{
  ◌≡◌, refl, ℕ, String, Bool, true, false, not, List, [], ◌∷◌, map, Option, none, some, all_of,
  All-image, arith,
}
use existential_identity_tes.Base.Text.{str_eq, str_eq_iff}
use existential_identity_tes.Requests.{
  Message, ToolCall, Arguments, Library, or_else, strip_reasoning, add_type, call_id, openai_call,
  to_openai, convert_calls, ensure_openai, ensure_format, deepseek_pass, mimo_pass, request_model,
  named, formatted,
}
use existential_identity_tes.Requests.Calls.{HaveCalls, enumerate_map-All, image_pass-HaveCalls}

module _ {Json : Type 0} where
  -- Whether a call has an identifier that is not empty.
  unfoldable pub has_id : ToolCall Json → Bool
  has_id tc = not (str_eq (or_else tc.id "") "")

  abbrev pub HaveIds : List (Message Json) → Type 0
  HaveIds ms = HaveCalls has_id ms

or_else-nonempty :
    (o : Option String) (s : String)
    → not (str_eq (or_else o "") "") ≡ true
    → not (str_eq (or_else o s) "") ≡ true
or_else-nonempty none s h = ground (arith, h, (str_eq_iff "" "").1 refl)
or_else-nonempty (some t) s h = h

module _ {Json : Type 0} (py : Library Json) where
  -- Both conversions build their calls by openai_call.
  map-has_id :
      (f : ToolCall Json → ToolCall Json)
      → ((tc : ToolCall Json) → has_id tc ≡ true → has_id (f tc) ≡ true)
      → (tcs : List (ToolCall Json)) → all_of has_id tcs ≡ true
      → all_of has_id (map f tcs) ≡ true
  map-has_id f k [] h = refl
  map-has_id f k (tc ∷ tcs) h = ground (arith, h, k tc, map-has_id f k tcs)

  openai_call-has_id :
      (mi : ℕ) (a : Arguments Json) (tc : ToolCall Json)
      → has_id tc ≡ true
      → has_id (openai_call py mi a tc) ≡ true
  unfolding openai_call has_id call_id
  openai_call-has_id mi a tc h = or_else-nonempty tc.id _ h

  convert_calls-has_id :
      (mi : ℕ) (m : Message Json)
      → all_of has_id m.tool_calls ≡ true
      → all_of has_id (convert_calls py mi m).tool_calls ≡ true
  unfolding convert_calls to_openai
  convert_calls-has_id mi m h =
      ground
        (arith, h, map-has_id (to_openai py mi) (λ tc. openai_call-has_id mi _ tc) m.tool_calls h)

  ensure_format-has_id :
      (mi : ℕ) (m : Message Json)
      → all_of has_id m.tool_calls ≡ true
      → all_of has_id (ensure_format py mi m).tool_calls ≡ true
  unfolding ensure_format ensure_openai
  ensure_format-has_id mi m h =
      ground (
        arith,
        h,
        map-has_id (ensure_openai py mi) (λ tc. openai_call-has_id mi _ tc) m.tool_calls h,
      )

  mimo_pass-HaveIds :
      (b : Bool) (ms : List (Message Json)) → HaveIds ms → HaveIds (mimo_pass py b ms)
  unfolding mimo_pass
  mimo_pass-HaveIds true ms h =
      enumerate_map-All (λ m. all_of has_id m.tool_calls ≡ true) (convert_calls py)
        convert_calls-has_id 0 ms h
  mimo_pass-HaveIds false ms h = h

  deepseek_pass-HaveIds :
      (b : Bool) (ms : List (Message Json)) → HaveIds ms → HaveIds (deepseek_pass py b ms)
  unfolding deepseek_pass add_type
  deepseek_pass-HaveIds true ms h =
      enumerate_map-All (λ m. all_of has_id m.tool_calls ≡ true) (convert_calls py)
        convert_calls-has_id 0 (map add_type ms)
        (All-image (λ m. all_of has_id m.tool_calls ≡ true) add_type (λ m i. i) ms h)
  deepseek_pass-HaveIds false ms h = h

  pub formatted-HaveIds :
      (name endpoint model : String) (messages : List (Message Json))
      → HaveIds messages
      → HaveIds (formatted py name endpoint model messages)
  unfolding formatted strip_reasoning
  formatted-HaveIds name endpoint model messages h =
      image_pass-HaveCalls has_id (request_model name model messages) _ (
        enumerate_map-All (λ m. all_of has_id m.tool_calls ≡ true) (ensure_format py)
          ensure_format-has_id 0 _
          (mimo_pass-HaveIds (named "mimo" name endpoint) _ (
            deepseek_pass-HaveIds (named "deepseek" name endpoint) _ (
              All-image (λ m. all_of has_id m.tool_calls ≡ true) strip_reasoning (λ m i. i) messages
                h))))
