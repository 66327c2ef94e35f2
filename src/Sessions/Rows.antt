-- ===== src/Sessions/Rows.antt =====
-- The rows of tical_code/core/modules/session_manager.py, and what is stored of a message.
use existential_identity_tes.Base.{
  ℕ, ◌+◌, ltb, leb, if◌then◌else◌, String, List, [], ◌∷◌, ◌++◌, map, Option, none, some, length,
  take,
}
use existential_identity_tes.Base.Text.{str_eq, codes}
use existential_identity_tes.Base.Dict
use existential_identity_tes.Base.Sort.{sort}

abbrev pub max_tool_content : ℕ
max_tool_content = 32_768

abbrev pub day : ℕ
day = 86_400_000

-- What `str` makes of a value stands for the value.
pub data ChatPart : Type 0 where
  text_part : List ℕ → ChatPart
  media_part : ChatPart
  other_part : List ℕ → ChatPart

pub data ChatContent : Type 0 where
  text : List ℕ → ChatContent
  parts : List ChatPart → ChatContent
  no_content : ChatContent
  other : List ℕ → ChatContent

pub record ChatMessage (Call : Type 0) : Type 0 where
  pub role : Option String
  pub content : ChatContent
  pub tool_calls : List Call
  pub tool_call_id : Option String

-- A row of messages or of archived_messages, with its metadata.
pub record Stored (Call : Type 0) : Type 0 where
  pub id : ℕ
  pub session_id : String
  pub role : String
  pub content : List ℕ
  pub timestamp : ℕ
  pub tool_calls : List Call
  pub tool_call_id : Option String

pub record Session : Type 0 where
  pub session_id : String
  pub created_at : ℕ
  pub updated_at : ℕ

pub record Archived : Type 0 where
  pub session : Session
  pub archived_at : ℕ

pub record SessionSummary : Type 0 where
  pub summary : String
  pub updated_at : ℕ
  pub turn_count : ℕ

-- The tables, the last identifier of a message, and `max_active`.
pub record SessionManager (Call : Type 0) : Type 0 where
  pub max_active : ℕ
  pub sessions : List Session
  pub messages : List (Stored Call)
  pub last_id : ℕ
  pub archived_sessions : Dict.Dict Archived
  pub archived_messages : List (Stored Call)
  pub summaries : Dict.Dict SessionSummary

pub record LoadedMessage (Call : Type 0) : Type 0 where
  pub role : String
  pub content : List ℕ
  pub tool_calls : List Call
  pub tool_call_id : Option String

unfoldable pub part_text : ChatPart → List ℕ
part_text (text_part t) = t
part_text media_part = codes "[media]"
part_text (other_part t) = t

-- "\n".join(parts)
unfoldable pub join_texts : List (List ℕ) → List ℕ
join_texts [] = []
join_texts (t ∷ []) = t
join_texts (t ∷ u ∷ ts) = t ++ (codes "\n" ++ join_texts (u ∷ ts))

unfoldable pub content_text : ChatContent → List ℕ
unfolding part_text join_texts
content_text (text t) = t
content_text (parts ps) = join_texts (map part_text ps)
content_text no_content = []
content_text (other t) = t

-- `content[:n] + "\n[truncated]"` where it is longer than n
unfoldable pub truncate : ℕ → List ℕ → List ℕ
truncate n t = if ltb n (length t) then take n t ++ codes "\n[truncated]" else t

abbrev pub get_role : Option String → String
get_role none = "unknown"
get_role (some r) = r

module _ {Call : Type 0} where
  unfoldable pub stored_message : ℕ → String → ℕ → ChatMessage Call → Stored Call
  unfolding content_text truncate
  stored_message now session_id id msg =
      let role = get_role msg.role in
      let content = content_text msg.content in
      record {
        id = id;
        session_id = session_id;
        role = role;
        content = if str_eq role "tool" then truncate max_tool_content content else content;
        timestamp = now;
        tool_calls = if str_eq role "assistant" then msg.tool_calls else [];
        tool_call_id = if str_eq role "tool" then msg.tool_call_id else none;
      }

  unfoldable pub insert_messages :
      ℕ → String → List (ChatMessage Call) → SessionManager Call → SessionManager Call
  unfolding stored_message
  insert_messages now session_id [] m = m
  insert_messages now session_id (msg ∷ msgs) m = insert_messages now session_id msgs (record m {
    messages = m.messages ++ stored_message now session_id (m.last_id + 1) msg ∷ [];
    last_id = m.last_id + 1;
  })

-- The row of the session, new or with a new time.
unfoldable pub touch_session : ℕ → String → List Session → List Session
touch_session now session_id [] =
    record { session_id = session_id; created_at = now; updated_at = now } ∷ []
touch_session now session_id (s ∷ ss) =
    let rest = touch_session now session_id ss in
    if str_eq s.session_id session_id then record s { updated_at = now } ∷ ss else s ∷ rest

unfoldable pub find_session : String → List Session → Option Session
find_session session_id [] = none
find_session session_id (s ∷ ss) =
    if str_eq s.session_id session_id then some s else find_session session_id ss

-- ORDER BY updated_at DESC; rows of one time in the order of the table.
unfoldable pub newest_first : List Session → List Session
newest_first ss = sort (λ s t. leb t.updated_at s.updated_at) ss
