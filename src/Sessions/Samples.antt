-- ===== src/Sessions/Samples.antt =====
-- A chat of a question and a call, with room for one session, and the theorems at it.
use Prim.Native.String.{String}
use existential_identity_tes.Base.{
  ℕ, Bool, select, ◌≡◌, refl, true, List, [], ◌∷◌, none, some, map, length, ◌≤◌, ◌++◌, any_of,
  false,
}
use existential_identity_tes.Base.Text.{codes, elem}
use existential_identity_tes.Base.Sort.{sort}
use existential_identity_tes.Sessions.{
  ChatMessage, Stored, SessionManager, LoadedMessage, text, save_messages, load_session,
  archive_old, session_rows, loaded_tool_ids,
}
use existential_identity_tes.Sessions.Archive.{total, with_id}
use existential_identity_tes.Sessions.History.{
  SessionOp, saves, run, saved_rows, empty_store, run-total,
}
use existential_identity_tes.Sessions.Limit.{save_messages-limit}
use existential_identity_tes.Sessions.Unanswered.{
  load_session-unanswered, assistant_message, is_answer,
}

-- A call is its identifier.
abbrev own_id : String → String
own_id s = s

abbrev question : ChatMessage String
question = record {
  role = some "user";
  content = text (codes "hi");
  tool_calls = [];
  tool_call_id = none;
}

abbrev calling : ChatMessage String
calling = record {
  role = some "assistant";
  content = text [];
  tool_calls = "c1" ∷ [];
  tool_call_id = none;
}

abbrev chat : SessionManager String
unfolding save_messages sort
chat = save_messages 5 "a" (question ∷ calling ∷ []) (empty_store 1)

abbrev asked : Stored String
asked = record {
  id = 1;
  session_id = "a";
  role = "user";
  content = codes "hi";
  timestamp = 5;
  tool_calls = [];
  tool_call_id = none;
}

abbrev called : Stored String
called = record {
  id = 2;
  session_id = "a";
  role = "assistant";
  content = [];
  timestamp = 5;
  tool_calls = "c1" ∷ [];
  tool_call_id = none;
}

-- The made-up answer is the second message, the call the third.
loaded_roles :
    map (λ msg. msg.role) (load_session own_id "a" 30 chat) ≡ "user" ∷ "tool" ∷ "assistant" ∷ []
unfolding load_session chat sort elem
loaded_roles = refl

-- A second chat takes the place of the first.
one_active : map (λ s. s.session_id) (save_messages 6 "b" (question ∷ []) chat).sessions ≡ "b" ∷ []
unfolding save_messages chat sort
one_active = refl

-- After ten days the chat is archived with its two messages.
archived_after : map (λ r. r.id) (archive_old 900_000_000 7 chat).1.archived_messages ≡ 1 ∷ 2 ∷ []
unfolding archive_old chat sort
archived_after = refl

save_messages-limit_example : length (save_messages 6 "b" (question ∷ []) chat).sessions ≤ 1
unfolding chat sort
save_messages-limit_example = save_messages-limit 6 "b" question [] chat

load_session-unanswered_example :
    (earlier : List (LoadedMessage String)) × (later : List (LoadedMessage String)) × (load_session
        own_id "a" 30 chat
      ≡ earlier ++ (assistant_message own_id called ∷ later))
    × (any_of (is_answer own_id "c1") earlier ≡ true)
    × (any_of (is_answer own_id "c1") later ≡ false)
unfolding session_rows loaded_tool_ids elem chat sort
load_session-unanswered_example =
    load_session-unanswered own_id "a" 30 chat (asked ∷ []) [] called "c1" refl refl refl refl refl

-- The second chat moves the first to the archive.
abbrev two_chats : List (SessionOp String)
two_chats = saves 5 "a" (question ∷ calling ∷ []) ∷ saves 6 "b" (question ∷ []) ∷ []

run-total_example :
    ((k : ℕ) → total (with_id k) (run two_chats (empty_store 1)) ≤ 1)
    × ((p : Stored String → Bool)
        → total p (run two_chats (empty_store 1)) ≡ length (select p (saved_rows 0 two_chats)))
run-total_example = run-total 1 two_chats
