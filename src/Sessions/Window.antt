-- ===== src/Sessions/Window.antt =====
-- load_session of tical_code/core/modules/session_manager.py: the messages that a prompt takes.
use existential_identity_tes.Base.{
  ℕ, if◌then◌else◌, String, not, List, [], ◌∷◌, ◌++◌, map, Option, none, some, last_n, select,
}
use existential_identity_tes.Base.Text.{str_eq, codes, elem}
use existential_identity_tes.Sessions.Rows.{Stored, SessionManager, LoadedMessage, truncate}

-- An identifier that counts as true.
unfoldable pub given_id : Option String → Option String
given_id none = none
given_id (some id) = if str_eq id "" then none else some id

abbrev pub as_list {ℓ} : {A : Type ℓ} → Option A → List A
as_list none = []
as_list (some a) = a ∷ []

module _ {Call : Type 0} where
  -- The newest rows of the session, oldest first.
  unfoldable pub session_rows : String → ℕ → SessionManager Call → List (Stored Call)
  session_rows session_id max_messages m =
      last_n max_messages (select (λ r. str_eq r.session_id session_id) m.messages)

module _ {Call : Type 0} (call_id : Call → String) where
  unfoldable pub loaded_tool_ids : List (Stored Call) → List String
  unfolding given_id
  loaded_tool_ids [] = []
  loaded_tool_ids (row ∷ rows) =
      let rest = loaded_tool_ids rows in
      if str_eq row.role "tool" then as_list (given_id row.tool_call_id) ++ rest else rest

  unfoldable pub placeholder : Call → LoadedMessage Call
  placeholder tc = record {
    role = "tool";
    content = codes "[result from prior turn - not in loaded window]";
    tool_calls = [];
    tool_call_id = some (call_id tc);
  }

  -- What one row adds to the messages: an answer for each call without one, and then the message.
  unfoldable pub load_row : List String → Stored Call → List (LoadedMessage Call)
  unfolding truncate given_id placeholder
  load_row ids row =
      if str_eq row.role "tool"
      then record {
        role = "tool";
        content = truncate 2000 row.content;
        tool_calls = [];
        tool_call_id = given_id row.tool_call_id;
      }
        ∷ []
      else if str_eq row.role "assistant"
      then map placeholder (select (λ tc. not (elem (call_id tc) ids)) row.tool_calls)
        ++ record {
          role = "assistant";
          content = row.content;
          tool_calls = row.tool_calls;
          tool_call_id = none;
        }
          ∷ []
      else if str_eq row.role "user"
      then record { role = "user"; content = row.content; tool_calls = []; tool_call_id = none }
        ∷ []
      else []

  unfoldable pub load_rows : List String → List (Stored Call) → List (LoadedMessage Call)
  unfolding load_row
  load_rows ids [] = []
  load_rows ids (row ∷ rows) = load_row ids row ++ load_rows ids rows

  unfoldable pub load_session : String → ℕ → SessionManager Call → List (LoadedMessage Call)
  unfolding session_rows loaded_tool_ids load_rows
  load_session session_id max_messages m =
      let rows = session_rows session_id max_messages m in load_rows (loaded_tool_ids rows) rows
