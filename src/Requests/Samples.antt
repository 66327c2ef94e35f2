-- ===== src/Requests/Samples.antt =====
-- A conversation with an answered call, one without an answer and an answer without a call, and the
-- theorems at it.
use existential_identity_tes.Base.{
  ◌≡◌, refl, String, Bool, true, List, [], ◌∷◌, Option, some, none, length,
}
use existential_identity_tes.Base.Text.{lower_contains, to_lower, contains, starts_with, elem}
use existential_identity_tes.Requests.{
  Role, user, assistant, tool, Message, ToolCall, plain, parts, Library, text, named, formatted,
  request_model, clean_messages,
}
use existential_identity_tes.Requests.Calls.{HaveCalls}
use existential_identity_tes.Requests.Format.{is_openai, clean_messages-HaveCalls}
use existential_identity_tes.Requests.Identifiers.{has_id}
use existential_identity_tes.Requests.Paired.{well_paired, clean_messages-well_paired}
use existential_identity_tes.Requests.Answered.{clean_messages-answered}
use existential_identity_tes.Requests.Stripped.{all_answered}

abbrev py : Library Bool
py = record { dumps = λ j. "{}"; empty = true; decimal = λ n. "0" }

abbrev message : Role → String → List (ToolCall Bool) → Option String → Message Bool
message role words calls id = record {
  role = role;
  kind = none;
  content = plain words;
  tool_calls = calls;
  tool_call_id = id;
  reasoning_content = some "hm";
}

abbrev tool_call : String → ToolCall Bool
tool_call id = record {
  id = some id;
  kind = none;
  function = none;
  name = some "file_read";
  args = some (text "{}");
  arguments = none;
}

abbrev picture : Message Bool
picture = record (message user "" [] none) {
  content = parts (record { kind = some "image_url"; value = true } ∷ []);
}

abbrev conversation : List (Message Bool)
conversation =
    message user "read both" [] none
    ∷ message assistant "" (tool_call "a" ∷ tool_call "b" ∷ []) none
    ∷ message tool "contents" [] (some "a")
    ∷ message assistant "" (tool_call "c" ∷ []) none
    ∷ message tool "stray" [] (some "b")
    ∷ picture
    ∷ []

abbrev answered_conversation : List (Message Bool)
answered_conversation =
    message user "read" [] none
    ∷ message assistant "" (tool_call "a" ∷ []) none
    ∷ message tool "contents" [] (some "a")
    ∷ []

-- DeepSeek: the tool_call "b", the message with "c", the stray answer and the picture go.
deepseek_length :
    length (clean_messages py "DeepSeek" "https://api" "deepseek-chat" conversation) ≡ 3
unfolding clean_messages formatted request_model named lower_contains to_lower contains starts_with
    elem
deepseek_length = refl

clean_messages-well_paired_example :
    well_paired [] (clean_messages py "DeepSeek" "https://api" "deepseek-chat" conversation) ≡ true
clean_messages-well_paired_example =
    clean_messages-well_paired py "DeepSeek" "https://api" "deepseek-chat" conversation

clean_messages-answered_example :
    all_answered (clean_messages py "DeepSeek" "https://api" "deepseek-chat" conversation) ≡ true
unfolding named lower_contains to_lower contains starts_with has_id
clean_messages-answered_example =
    clean_messages-answered py "DeepSeek" "https://api" "deepseek-chat" conversation refl
      (refl, (refl, (refl, (refl, (refl, (refl, tt))))))

clean_messages-HaveCalls_example :
    HaveCalls
      (is_openai ("file_read" ∷ []))
      (clean_messages py "mimo" "https://api" "mimo-v2.5-pro" conversation)
unfolding elem
clean_messages-HaveCalls_example =
    clean_messages-HaveCalls py ("file_read" ∷ []) "mimo" "https://api" "mimo-v2.5-pro" conversation
      (refl, (refl, (refl, (refl, (refl, (refl, tt))))))
