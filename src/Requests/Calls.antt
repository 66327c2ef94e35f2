-- ===== src/Requests/Calls.antt =====
-- A property of calls that the passes which drop messages and calls keep.
use mathlib.Core.Option
use existential_identity_tes.Base.{
  ◌≡◌, refl, ℕ, ◌+◌, String, Bool, true, false, not, ◌&&◌, List, [], ◌∷◌, Option, none, some,
  all_of, select, All, All-image, arith, Bool-cases, inl, inr,
}
use existential_identity_tes.Base.Text.{str_eq}
use existential_identity_tes.Requests.{
  Message, ToolCall, Content, is_empty, is_assistant, append_to, is_answered, next_tool_ids,
  keep_answered, strip_calls, orphan_pass, type_pass, final_type, strip_tools, next_active, is_tool,
  is_orphan, enumerate_map, keep_text, text_only, strip_images, image_pass,
}

module _ {Json : Type 0} where
  pub enumerate_map-All :
      (P : Message Json → Type 0) (f : ℕ → Message Json → Message Json)
      → ((mi : ℕ) (m : Message Json) → P m → P (f mi m))
      → (mi : ℕ) (ms : List (Message Json)) → All P ms
      → All P (enumerate_map f mi ms)
  unfolding enumerate_map
  enumerate_map-All P f k mi [] h = tt
  enumerate_map-All P f k mi (m ∷ ms) h = (k mi m h.0, enumerate_map-All P f k (mi + 1) ms h.1)

  -- What is left of a message, if anything is, has the property.
  abbrev Left : (Message Json → Type 0) → Option (Message Json) → Type 0
  Left P none = Unit
  Left P (some m) = P m

  append_to-All :
      (P : Message Json → Type 0) (rest : List (Message Json)) (left : Option (Message Json))
      → Left P left
      → All P rest
      → All P (append_to rest left)
  append_to-All P rest none k h = h
  append_to-All P rest (some m) k h = (k, h)

  all_of-select :
      (p q : ToolCall Json → Bool) (tcs : List (ToolCall Json))
      → all_of p tcs ≡ true
      → all_of p (select q tcs) ≡ true
  all_of-select p q [] h = refl
  all_of-select p q (tc ∷ tcs) h = ground (arith, h, all_of-select p q tcs)

  -- Every call of every message has the property.
  abbrev pub HaveCalls : (ToolCall Json → Bool) → List (Message Json) → Type 0
  HaveCalls p ms = All (λ m. all_of p m.tool_calls ≡ true) ms

module _ {Json : Type 0} (p : ToolCall Json → Bool) where
  keep_answered-calls :
      (ids : List (Option String)) (m : Message Json)
      → all_of p m.tool_calls ≡ true
      → Left (λ k. all_of p k.tool_calls ≡ true) (keep_answered ids m)
  unfolding keep_answered
  keep_answered-calls ids m h =
      elim (Bool-cases (is_assistant m.role && not (is_empty m.tool_calls))) [
        | inl e ↦ rw e (elim (Bool-cases (all_of (is_answered ids) m.tool_calls)) [
          | inl f ↦ rw f h
          | inr f ↦ rw f (elim (Bool-cases (is_empty (select (is_answered ids) m.tool_calls))) [
            | inl g ↦ rw g tt
            | inr g ↦ rw g (all_of-select p (is_answered ids) m.tool_calls h)
          ])
        ])
        | inr e ↦ rw e h
      ]

  pub strip_calls-HaveCalls :
      (ms : List (Message Json)) → HaveCalls p ms → HaveCalls p (strip_calls ms)
  unfolding strip_calls
  strip_calls-HaveCalls [] h = tt
  strip_calls-HaveCalls (m ∷ ms) h =
      append_to-All (λ k. all_of p k.tool_calls ≡ true) (strip_calls ms)
        (keep_answered (next_tool_ids ms) m) (keep_answered-calls (next_tool_ids ms) m h.0)
        (strip_calls-HaveCalls ms h.1)

  keep_text-calls :
      (m : Message Json) (o : Option (Content Json))
      → all_of p m.tool_calls ≡ true
      → Left (λ k. all_of p k.tool_calls ≡ true) (Option.map (λ c. record m { content = c }) o)
  keep_text-calls m none h = tt
  keep_text-calls m (some c) h = h

  strip_images-HaveCalls :
      (ms : List (Message Json)) → HaveCalls p ms → HaveCalls p (strip_images ms)
  unfolding strip_images keep_text
  strip_images-HaveCalls [] h = tt
  strip_images-HaveCalls (m ∷ ms) h =
      append_to-All (λ k. all_of p k.tool_calls ≡ true) (strip_images ms) (keep_text m)
        (keep_text-calls m (text_only m.content) h.0) (strip_images-HaveCalls ms h.1)

  pub image_pass-HaveCalls :
      (model : String) (ms : List (Message Json))
      → HaveCalls p ms
      → HaveCalls p (image_pass model ms)
  unfolding image_pass
  image_pass-HaveCalls model ms h = elim (Bool-cases (str_eq model "mimo-v2.5")) [
    | inl e ↦ rw e h
    | inr e ↦ rw e (strip_images-HaveCalls ms h)
  ]

  pub orphan_pass-HaveCalls :
      (b : Bool) (ms : List (Message Json)) → HaveCalls p ms → HaveCalls p (orphan_pass b ms)
  unfolding orphan_pass
  orphan_pass-HaveCalls true ms h = strip_calls-HaveCalls ms h
  orphan_pass-HaveCalls false ms h = h

  pub strip_tools-HaveCalls :
      (active : List String) (ms : List (Message Json))
      → HaveCalls p ms
      → HaveCalls p (strip_tools active ms)
  unfolding strip_tools
  strip_tools-HaveCalls active [] h = tt
  strip_tools-HaveCalls active (m ∷ ms) h =
      elim (Bool-cases (is_tool m.role && is_orphan active m.tool_call_id)) [
        | inl e ↦ rw e (strip_tools-HaveCalls (next_active active m) ms h.1)
        | inr e ↦ rw e (h.0, strip_tools-HaveCalls (next_active active m) ms h.1)
      ]

  pub type_pass-HaveCalls :
      (b : Bool) (ms : List (Message Json)) → HaveCalls p ms → HaveCalls p (type_pass b ms)
  unfolding type_pass final_type
  type_pass-HaveCalls true ms h =
      All-image (λ m. all_of p m.tool_calls ≡ true) final_type (λ m i. i) ms h
  type_pass-HaveCalls false ms h = h
