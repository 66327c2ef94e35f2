-- ===== src/Requests/Format.antt =====
-- Every call of a request has the format of the OpenAI interface.
use existential_identity_tes.Base.{
  if◌then◌else◌, ◌≡◌, refl, ℕ, ◌+◌, String, Bool, true, false, ◌&&◌, ◌||◌, not, List, [], ◌∷◌, map,
  Option, none, some, any_of, all_of, arith, Bool-cases, inl, inr, All-image,
}
use existential_identity_tes.Base.Text.{str_eq_iff, elem}
use existential_identity_tes.Requests.{
  Arguments, object, text, Message, ToolCall, Function, Library, first_of, or_else, is_some,
  kind_is, needs_fix, openai_call, ensure_openai, ensure_format, enumerate_map, request_model,
  named, formatted, clean_messages, dumped, function_name, to_openai, convert_calls,
  strip_reasoning, add_type, deepseek_pass, mimo_pass,
}
use existential_identity_tes.Requests.Calls.{
  HaveCalls, enumerate_map-All, image_pass-HaveCalls, orphan_pass-HaveCalls, strip_tools-HaveCalls,
  type_pass-HaveCalls,
}

-- A name out of a list.
abbrev pub is_one_of : List String → Option String → Bool
is_one_of names none = false
is_one_of names (some name) = elem name names

module _ {Json : Type 0} where
  -- Arguments that are a text.
  abbrev pub is_text : Option (Arguments Json) → Bool
  is_text (some (text s)) = true
  is_text _ = false

  abbrev pub is_function : List String → Option (Function Json) → Bool
  is_function names none = false
  is_function names (some fn) = is_one_of names fn.name && is_text fn.arguments

  -- The type "function", and a function with a name out of a list and a text as arguments.
  abbrev pub is_openai : List String → ToolCall Json → Bool
  is_openai names tc = kind_is "function" tc.kind && is_function names tc.function

  -- The name that a call came with: its own, or that of its function, or the empty one.
  abbrev pub name_in : Option (Function Json) → String
  name_in none = ""
  name_in (some fn) = elim fn.name [ none ↦ "" | some name ↦ name ]

  abbrev pub given_name : ToolCall Json → String
  given_name tc = elim tc.name [ none ↦ name_in tc.function | some name ↦ name ]

  -- A call whose name is out of a list and that, where it has the type and a function already, has the
  -- whole format.
  abbrev pub is_readable : List String → ToolCall Json → Bool
  is_readable names tc =
      elem (given_name tc) names
      && (not (kind_is "function" tc.kind && is_some tc.function) || is_function names tc.function)

  sound :
      (names : List String) (tcs : List (ToolCall Json))
      → any_of needs_fix tcs ≡ false
      → all_of (is_readable names) tcs ≡ true
      → all_of (is_openai names) tcs ≡ true
  unfolding needs_fix
  sound names [] h k = refl
  sound names (tc ∷ tcs) h k = ground (arith, h, k, sound names tcs)

module _ {Json : Type 0} (py : Library Json) (names : List String) where
  dumped-text : (a : Arguments Json) → is_text (some (dumped py a)) ≡ true
  unfolding dumped
  dumped-text (object j) = refl
  dumped-text (text s) = refl

  given_name_lem :
      (tc : ToolCall Json) → or_else (first_of tc.name (function_name tc)) "" ≡ given_name tc
  unfolding function_name
  given_name_lem tc = go tc.name tc.function
    where
      in_function :
          (n : Option String)
          → or_else n "" ≡ elim n as (λ _. String) [ none ↦ "" | some name ↦ name ]
      in_function none = refl
      in_function (some name) = refl

      go :
          (n : Option String) (f : Option (Function Json))
          → or_else
              (first_of n (elim f as (λ _. Option String) [ none ↦ none | some fn ↦ fn.name ]))
              ""
            ≡ elim n as (λ _. String) [ none ↦ name_in f | some name ↦ name ]
      go (some name) f = refl
      go none none = refl
      go none (some fn) = in_function fn.name

  -- A conversion gives the whole format, whatever the arguments.
  openai_call-is_openai :
      (mi : ℕ) (a : Arguments Json) (tc : ToolCall Json)
      → elem (given_name tc) names ≡ true
      → is_openai names (openai_call py mi a tc) ≡ true
  unfolding openai_call
  openai_call-is_openai mi a tc h =
      rw (given_name_lem tc, h, dumped-text a, (str_eq_iff "function" "function").1 refl) refl

  is_openai-is_readable :
      (mi : ℕ) (a : Arguments Json) (tc : ToolCall Json)
      → elem (given_name tc) names ≡ true
      → is_readable names (openai_call py mi a tc) ≡ true
  unfolding openai_call
  is_openai-is_readable mi a tc h =
      rw (given_name_lem tc, h, dumped-text a, (str_eq_iff "function" "function").1 refl) refl

  named_readable :
      (tc : ToolCall Json) → is_readable names tc ≡ true → elem (given_name tc) names ≡ true
  named_readable tc h = ground (arith, h)

  converted :
      (mi : ℕ) (tcs : List (ToolCall Json))
      → all_of (is_readable names) tcs ≡ true
      → all_of (is_readable names) (map (to_openai py mi) tcs) ≡ true
  unfolding to_openai
  converted mi [] h = refl
  converted mi (tc ∷ tcs) h =
      ground (arith, h, named_readable tc, is_openai-is_readable mi _ tc, converted mi tcs)

  fixed :
      (mi : ℕ) (tcs : List (ToolCall Json))
      → all_of (is_readable names) tcs ≡ true
      → all_of (is_openai names) (map (ensure_openai py mi) tcs) ≡ true
  unfolding ensure_openai
  fixed mi [] h = refl
  fixed mi (tc ∷ tcs) h =
      ground (arith, h, named_readable tc, openai_call-is_openai mi _ tc, fixed mi tcs)

  convert_calls-readable :
      (mi : ℕ) (m : Message Json)
      → all_of (is_readable names) m.tool_calls ≡ true
      → all_of (is_readable names) (convert_calls py mi m).tool_calls ≡ true
  unfolding convert_calls
  convert_calls-readable mi m h =
      elim (Bool-cases (any_of (λ tc. not (is_some tc.function)) m.tool_calls)) [
        | inl e ↦ rw e (converted mi m.tool_calls h)
        | inr e ↦ rw e h
      ]

  ensure_format-openai :
      (mi : ℕ) (m : Message Json)
      → all_of (is_readable names) m.tool_calls ≡ true
      → all_of (is_openai names) (ensure_format py mi m).tool_calls ≡ true
  unfolding ensure_format
  ensure_format-openai mi m h = elim (Bool-cases (any_of needs_fix m.tool_calls)) [
    | inl e ↦ rw e (fixed mi m.tool_calls h)
    | inr e ↦ rw e (sound names m.tool_calls e h)
  ]

  all_openai :
      (mi : ℕ) (ms : List (Message Json))
      → HaveCalls (is_readable names) ms
      → HaveCalls (is_openai names) (enumerate_map (ensure_format py) mi ms)
  unfolding enumerate_map
  all_openai mi [] h = tt
  all_openai mi (m ∷ ms) h = (ensure_format-openai mi m h.0, all_openai (mi + 1) ms h.1)

  if-HaveCalls :
      (b : Bool) (ms ns : List (Message Json))
      → HaveCalls (is_readable names) ms
      → HaveCalls (is_readable names) ns
      → HaveCalls (is_readable names) (if b then ms else ns)
  if-HaveCalls true ms ns h k = h
  if-HaveCalls false ms ns h k = k

  convert_all :
      (ms : List (Message Json))
      → HaveCalls (is_readable names) ms
      → HaveCalls (is_readable names) (enumerate_map (convert_calls py) 0 ms)
  convert_all ms h =
      enumerate_map-All (λ m. all_of (is_readable names) m.tool_calls ≡ true) (convert_calls py)
        convert_calls-readable 0 ms h

  before_format :
      (name endpoint : String) (ms : List (Message Json))
      → HaveCalls (is_readable names) ms
      → HaveCalls (is_readable names) (
          mimo_pass py
            (named "mimo" name endpoint)
            (deepseek_pass py (named "deepseek" name endpoint) (map strip_reasoning ms)))
  unfolding mimo_pass deepseek_pass strip_reasoning add_type
  before_format name endpoint ms h =
      let p = λ (m : Message Json). all_of (is_readable names) m.tool_calls ≡ true in
      let plain = All-image p strip_reasoning (λ m k. k) ms h in
      let typed = convert_all _ (All-image p add_type (λ m k. k) (map strip_reasoning ms) plain) in
      let first = if-HaveCalls (named "deepseek" name endpoint) _ _ typed plain in
      if-HaveCalls (named "mimo" name endpoint) _ _ (convert_all _ first) first

  -- Whatever the provider, for calls with names out of a list, of which those that have the type
  -- "function" and a function already have its name there and a text as its arguments: each call of
  -- the request has the type "function" and a function, whose name is out of the list and whose
  -- arguments are a text.
  pub clean_messages-HaveCalls :
      (name endpoint model : String) (messages : List (Message Json))
      → HaveCalls (is_readable names) messages
      → HaveCalls (is_openai names) (clean_messages py name endpoint model messages)
  unfolding clean_messages formatted
  clean_messages-HaveCalls name endpoint model messages h =
      let p = is_openai names in
      type_pass-HaveCalls p (named "deepseek" name endpoint) _ (
        strip_tools-HaveCalls p [] _ (
          orphan_pass-HaveCalls p (named "deepseek" name endpoint) _ (
            image_pass-HaveCalls p (request_model name model messages) _
              (all_openai 0 _ (before_format name endpoint messages h)))))
