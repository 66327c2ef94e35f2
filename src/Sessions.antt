-- ===== src/Sessions.antt =====
-- tical_code/core/modules/session_manager.py: the messages of each chat, in tables of active and of
-- archived rows. The metadata of a row is what json reads back of it. Each call is one transaction
-- that succeeds. A text is the list of its code points; times are milliseconds.
mod Rows
mod Window
pub mod Unanswered
pub mod Limit
pub mod Archive
pub mod History
mod Samples
unfoldable pub use Rows.*
unfoldable pub use Window.*
use mathlib.Core.Option
use existential_identity_tes.Base.{
  ℕ, suc, ◌+◌, ◌*◌, ltb, leb, if◌then◌else◌, String, Bool, true, false, not, ◌&&◌, ◌||◌, List, [],
  ◌∷◌, ◌++◌, map, Option, none, some, length, take, drop, last_n, select, any_of, ◌==◌,
}
use existential_identity_tes.Base.Text.{str_eq, codes, elem}
use existential_identity_tes.Base.Dict
use existential_identity_tes.Base.Sort.{sort}

module _ {Call : Type 0} where
  -- INSERT OR REPLACE of the messages with their identifiers.
  unfoldable pub archive_rows : List (Stored Call) → List (Stored Call) → List (Stored Call)
  archive_rows archived rows = select (λ a. not (any_of (λ r. r.id == a.id) rows)) archived ++ rows

  unfoldable pub move_session : ℕ → Session → SessionManager Call → SessionManager Call
  unfolding archive_rows
  move_session now s m = record m {
    archived_sessions =
        Dict.remove m.archived_sessions s.session_id
        ++ (s.session_id, record { session = s; archived_at = now }) ∷ [];
    archived_messages =
        archive_rows m.archived_messages
          (select (λ r. str_eq r.session_id s.session_id) m.messages);
    messages = select (λ r. not (str_eq r.session_id s.session_id)) m.messages;
    sessions = select (λ t. not (str_eq t.session_id s.session_id)) m.sessions;
  }

  unfoldable pub archive_one : ℕ → String → SessionManager Call → SessionManager Call
  unfolding find_session move_session
  archive_one now session_id m = elim (find_session session_id m.sessions) [
    | none ↦ m
    | some s ↦ move_session now s m
  ]

  unfoldable pub archive_each : ℕ → List String → SessionManager Call → SessionManager Call
  unfolding archive_one
  archive_each now [] m = m
  archive_each now (id ∷ ids) m = archive_each now ids (archive_one now id m)

  unfoldable pub enforce_active_limit : ℕ → SessionManager Call → SessionManager Call
  unfolding newest_first archive_each
  enforce_active_limit now m =
      let rows = newest_first m.sessions in
      if leb (length rows) m.max_active
      then m
      else archive_each now (map (λ s. s.session_id) (drop m.max_active rows)) m

  unfoldable pub save_messages :
      ℕ → String → List (ChatMessage Call) → SessionManager Call → SessionManager Call
  unfolding touch_session insert_messages enforce_active_limit
  save_messages now session_id [] m = m
  save_messages now session_id (msg ∷ msgs) m = enforce_active_limit now (
      insert_messages now session_id (msg ∷ msgs)
        (record m { sessions = touch_session now session_id m.sessions }))

  -- The number of sessions that were not updated for so many days.
  unfoldable pub archive_old : ℕ → ℕ → SessionManager Call → ℕ × SessionManager Call
  unfolding archive_each
  archive_old now days m =
      let expired =
        map (λ s. s.session_id) (select (λ s. ltb (s.updated_at + days * day) now) m.sessions) in
      (length expired, archive_each now expired m)

  -- The number of archived sessions, and whether the archive was emptied. The size of the file after
  -- archiving is given, in bytes.
  unfoldable pub cleanup : ℕ → ℕ → ℕ → ℕ → SessionManager Call → ℕ × Bool × SessionManager Call
  unfolding archive_old
  cleanup now max_age_days max_db_size_mb db_size m =
      let (archived, m') = archive_old now max_age_days m in
      if ltb (max_db_size_mb * 1_048_576) db_size
      then (archived, true, record m' { archived_sessions = []; archived_messages = [] })
      else (archived, false, m')

  unfoldable pub save_summary : ℕ → String → String → SessionManager Call → SessionManager Call
  save_summary now session_id summary m = record m {
    summaries = Dict.put m.summaries session_id (record {
      summary = summary;
      updated_at = now;
      turn_count = length (select (λ r. str_eq r.session_id session_id) m.messages);
    });
  }

  unfoldable pub get_summary : String → SessionManager Call → Option String
  get_summary session_id m = Option.map (λ s. s.summary) (Dict.get m.summaries session_id)
