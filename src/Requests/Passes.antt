-- ===== src/Requests/Passes.antt =====
-- The passes of `_call_single` of tical_code/core/model_failover.py over the messages.
use Prim.Native.String.{◌++◌}
use mathlib.Core.Option
use existential_identity_tes.Base.{
  ℕ, ◌+◌, if◌then◌else◌, String, Bool, false, not, ◌&&◌, ◌||◌, List, [], ◌∷◌, map, Option, none,
  some, select, any_of, all_of,
}
use existential_identity_tes.Base.Text.{str_eq}
use existential_identity_tes.Requests.Conversation.{
  Arguments, object, text, ToolCall, Part, Content, no_content, plain, parts, Message, Library,
  role_name, is_assistant, is_tool, is_turn, or_else, first_of, is_some, is_empty, kind_is,
  append_to, same_id, is_orphan,
}

module _ {Json : Type 0} where
  -- {k: v for k, v in m.items() if k != "reasoning_content"}
  unfoldable pub strip_reasoning : Message Json → Message Json
  strip_reasoning m = record m { reasoning_content = none }

  unfoldable pub type_part : Part Json → Part Json
  type_part q = record q { kind = some (or_else q.kind "text") }

  unfoldable pub typed_content : Bool → Content Json → Content Json
  unfolding type_part
  typed_content calls no_content = if calls then no_content else plain ""
  typed_content calls (plain s) =
      if str_eq s "" then (if calls then no_content else plain "") else plain s
  typed_content calls (parts qs) = parts (map type_part qs)

  -- DeepSeek: a type on every message and part, and None or "" for an empty content.
  unfoldable pub add_type : Message Json → Message Json
  unfolding role_name typed_content
  add_type m = record m {
    kind = some (role_name m.role);
    content = typed_content (not (is_empty m.tool_calls)) m.content;
  }

  unfoldable pub function_arguments : ToolCall Json → Option (Arguments Json)
  function_arguments tc = elim tc.function [ none ↦ none | some fn ↦ fn.arguments ]

  unfoldable pub function_name : ToolCall Json → Option String
  function_name tc = elim tc.function [ none ↦ none | some fn ↦ fn.name ]

  unfoldable pub needs_fix : ToolCall Json → Bool
  needs_fix tc = not (kind_is "function" tc.kind) || not (is_some tc.function)

  module _ (py : Library Json) where
    unfoldable pub dumped : Arguments Json → Arguments Json
    dumped (object j) = text (py.dumps j)
    dumped (text s) = text s

    unfoldable pub call_id : ℕ → ToolCall Json → String
    call_id mi tc = or_else tc.id ("call_" ++ py.decimal mi)

    -- The dictionary that both conversions build from a call and its arguments.
    unfoldable pub openai_call : ℕ → Arguments Json → ToolCall Json → ToolCall Json
    unfolding dumped call_id function_name
    openai_call mi args_val tc = record {
      id = some (call_id mi tc);
      kind = some "function";
      function = some (record {
        name = some (or_else (first_of tc.name (function_name tc)) "");
        arguments = some (dumped args_val);
      });
      name = none;
      args = none;
      arguments = none;
    }

    -- DeepSeek and MiMo: `tc.get("args", fn.get("arguments", {}))`
    unfoldable pub to_openai : ℕ → ToolCall Json → ToolCall Json
    unfolding openai_call function_arguments
    to_openai mi tc =
        openai_call mi (or_else (first_of tc.args (function_arguments tc)) (object py.empty)) tc

    unfoldable pub convert_calls : ℕ → Message Json → Message Json
    unfolding to_openai
    convert_calls mi m =
        if any_of (λ tc. not (is_some tc.function)) m.tool_calls
        then record m { tool_calls = map (to_openai mi) m.tool_calls }
        else m

    -- Every provider: `fn.get("arguments")`, then `tc.get("args", tc.get("arguments", ""))`
    unfoldable pub ensure_openai : ℕ → ToolCall Json → ToolCall Json
    unfolding openai_call function_arguments
    ensure_openai mi tc =
        openai_call mi
          (or_else (first_of (function_arguments tc) (first_of tc.args tc.arguments)) (text "")) tc

    unfoldable pub ensure_format : ℕ → Message Json → Message Json
    unfolding ensure_openai needs_fix
    ensure_format mi m =
        if any_of needs_fix m.tool_calls
        then record m { tool_calls = map (ensure_openai mi) m.tool_calls }
        else m

  -- `for mi, m in enumerate(messages)`, from the number `mi` on
  unfoldable pub enumerate_map :
      (ℕ → Message Json → Message Json) → ℕ → List (Message Json) → List (Message Json)
  enumerate_map f mi [] = []
  enumerate_map f mi (m ∷ ms) = f mi m ∷ enumerate_map f (mi + 1) ms

  -- The image parts of a list go, and with them a message that has no text part.
  unfoldable pub text_only : Content Json → Option (Content Json)
  text_only no_content = some no_content
  text_only (plain s) = some (plain s)
  text_only (parts qs) =
      let texts = select (λ q. kind_is "text" q.kind) qs in
      if is_empty texts then none else some (parts texts)

  unfoldable pub keep_text : Message Json → Option (Message Json)
  unfolding text_only
  keep_text m = Option.map (λ c. record m { content = c }) (text_only m.content)

  unfoldable pub strip_images : List (Message Json) → List (Message Json)
  unfolding keep_text
  strip_images [] = []
  strip_images (m ∷ ms) = append_to (strip_images ms) (keep_text m)

  -- The identifiers that are answered in the messages that follow immediately.
  unfoldable pub next_tool_ids : List (Message Json) → List (Option String)
  next_tool_ids [] = []
  next_tool_ids (m ∷ ms) =
      let rest = next_tool_ids ms in if is_tool m.role then m.tool_call_id ∷ rest else []

  unfoldable pub is_answered : List (Option String) → ToolCall Json → Bool
  unfolding same_id
  is_answered ids tc = any_of (same_id tc.id) ids

  -- What is left of a message, with the identifiers that are answered right after it: the calls
  -- that are not answered go, and with all of its calls the message.
  unfoldable pub keep_answered : List (Option String) → Message Json → Option (Message Json)
  unfolding is_answered
  keep_answered ids m =
      let kept = select (is_answered ids) m.tool_calls in
      if is_assistant m.role && not (is_empty m.tool_calls)
      then (if all_of (is_answered ids) m.tool_calls
          then some m
          else (if is_empty kept then none else some (record m { tool_calls = kept })))
      else some m

  -- DeepSeek: calls without an answer go.
  unfoldable pub strip_calls : List (Message Json) → List (Message Json)
  unfolding next_tool_ids keep_answered
  strip_calls [] = []
  strip_calls (m ∷ ms) = append_to (strip_calls ms) (keep_answered (next_tool_ids ms) m)

  -- The identifiers of an assistant's calls, but for the empty ones.
  unfoldable pub call_ids : List (ToolCall Json) → List String
  call_ids [] = []
  call_ids (tc ∷ tcs) =
      let rest = call_ids tcs in
      let id = or_else tc.id "" in if str_eq id "" then rest else id ∷ rest

  -- `active_tc_ids` after a message.
  unfoldable pub next_active : List String → Message Json → List String
  unfolding call_ids
  next_active active m =
      if is_assistant m.role then call_ids m.tool_calls else (if is_turn m.role then [] else active)

  -- Every provider: tool messages that answer no call of the latest assistant go.
  unfoldable pub strip_tools : List String → List (Message Json) → List (Message Json)
  unfolding next_active is_orphan
  strip_tools active [] = []
  strip_tools active (m ∷ ms) =
      let rest = strip_tools (next_active active m) ms in
      if is_tool m.role && is_orphan active m.tool_call_id then rest else m ∷ rest

  -- DeepSeek, at the end: `if "type" not in m`
  unfoldable pub final_type : Message Json → Message Json
  unfolding role_name
  final_type m = record m { kind = some (or_else m.kind (role_name m.role)) }

  unfoldable pub has_image : Content Json → Bool
  has_image (parts qs) = any_of (λ q. kind_is "image_url" q.kind) qs
  has_image _ = false
