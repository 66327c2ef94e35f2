-- ===== src/Hunks.antt =====
-- tical_code/core/hunk_tracker.py: each write of a file is a row of a table, with the content before
-- and after it, and a file can be rolled back to any of them. The rows have the newest first. Files
-- are those that can be read and written as text. Times are milliseconds.
mod Table
pub mod Chain
pub mod Refine
pub mod Store
pub mod Rollback
mod Samples
unfoldable pub use Table.*
use Prim.Native.String.{◌++◌}
use existential_identity_tes.Base.{
  ℕ, ◌+◌, max, ltb, leb, ◌==◌, if◌then◌else◌, String, Bool, true, false, not, ◌&&◌, ◌||◌, List, [],
  ◌∷◌, map, Option, none, some, select,
}
use existential_identity_tes.Base.Text.{str_eq, codes, elem}
use existential_identity_tes.Base.Dict
use existential_identity_tes.Base.Sort

-- Rows as they come back from the table, oldest first.
unfoldable pub oldest_first : List Hunk → List Hunk → List Hunk
oldest_first [] later = later
oldest_first (h ∷ hs) later = oldest_first hs (h ∷ later)

unfoldable pub get_history : Library → String → HunkTracker → List Hunk
unfolding oldest_first
get_history py file_path t =
    if t.is_open
    then oldest_first
        (select (λ h. str_eq h.file_path (py.resolve file_path) || str_eq h.file_path file_path)
          t.rows)
        []
    else []

unfoldable pub get_hunk : ℕ → HunkTracker → Option Hunk
unfolding find_hunk
get_hunk hunk_id t = if t.is_open then find_hunk hunk_id t.rows else none

-- `_reconstruct_content`, over the rows of the file: the nearest snapshot at or before the target,
-- else the content before the hunk after the target, else what is on disk.
unfoldable pub nearest_snapshot : ℕ → List Hunk → Option String
nearest_snapshot target [] = none
nearest_snapshot target (h ∷ hs) =
    let rest = nearest_snapshot target hs in
    if leb h.id target then or_other h.content_after rest else rest

unfoldable pub walk_back : ℕ → String → List Hunk → String
walk_back target content [] = content
walk_back target content (h ∷ hs) =
    let rest = walk_back target (or_else h.content_before content) hs in
    if leb h.id target then content else rest

unfoldable pub reconstruct_rows : ℕ → String → String → List Hunk → Option String
unfolding nearest_snapshot walk_back latest_after
reconstruct_rows target path on_disk [] = none
reconstruct_rows target path on_disk (h ∷ hs) =
    or_other (nearest_snapshot target (h ∷ hs))
      (some (walk_back target (or_else (latest_after path (h ∷ hs)) on_disk) (h ∷ hs)))

unfoldable pub reconstruct_content : ℕ → String → HunkTracker → Option String
unfolding reconstruct_rows read_text_safe
reconstruct_content target path t =
    reconstruct_rows target path (read_text_safe t path)
      (select (λ h. str_eq h.file_path path) t.rows)

-- The path that a rollback writes, from the given one, its absolute form and the one of the hunk.
unfoldable pub rollback_path : Library → String → String → String → String
rollback_path py file_path path target_path =
    if not (str_eq (py.name path) "")
      && not (str_eq target_path path || str_eq target_path file_path)
    then (if str_eq (py.resolve target_path) (py.resolve path)
        then path
        else (if str_eq file_path target_path || str_eq file_path path then path else target_path))
    else target_path

unfoldable pub rollback_content : HunkTracker → String → Hunk → Option String
unfolding reconstruct_content
rollback_content t path target =
    or_other target.content_after (reconstruct_content target.id path t)

-- The file is written and the rollback is recorded; whether the write succeeds is given.
unfoldable pub restore :
    Library → ℕ → Bool → String → ℕ → Option String → HunkTracker → RollbackResult × HunkTracker
unfolding record_file read_text_safe
restore py now writes path hunk_id none t = (cannot_reconstruct, t)
restore py now writes path hunk_id (some content) t =
    if writes
    then (let (new_id, t') =
          record_file py now path "rollback" (some (read_text_safe t path)) (some content)
            "hunk_rollback" ("rollback-to-" ++ py.decimal hunk_id) (py.utf8_length content)
            (record t { disk = Dict.put t.disk path content }) in
        (rolled_back path hunk_id new_id (py.utf8_length content), t'))
    else (write_failed, t)

unfoldable pub rollback_to :
    Library → ℕ → Bool → String → ℕ → Option Hunk → HunkTracker → RollbackResult × HunkTracker
unfolding rollback_path rollback_content restore
rollback_to py now writes file_path hunk_id none t = (hunk_not_found, t)
rollback_to py now writes file_path hunk_id (some target) t =
    let path = rollback_path py file_path (py.resolve file_path) target.file_path in
    restore py now writes path hunk_id (rollback_content t path target) t

unfoldable pub rollback :
    Library → ℕ → Bool → String → ℕ → HunkTracker → RollbackResult × HunkTracker
unfolding rollback_to find_hunk
rollback py now writes file_path hunk_id t =
    if t.is_open
    then rollback_to py now writes file_path hunk_id (find_hunk hunk_id t.rows) t
    else (not_initialized, t)

-- The hunks of a file with an id above that of the last one of a turn.
unfoldable pub last_of_turn : String → String → List Hunk → ℕ
last_of_turn path turn [] = 0
last_of_turn path turn (h ∷ hs) =
    let rest = last_of_turn path turn hs in
    if str_eq h.file_path path && str_eq h.turn_id turn then max h.id rest else rest

unfoldable pub hunks_since : String → String → List Hunk → List Hunk
unfolding last_of_turn
hunks_since path turn hs =
    select (λ h. str_eq h.file_path path && ltb (last_of_turn path turn hs) h.id) hs

unfoldable pub diff_since : Library → String → String → HunkTracker → String
unfolding hunks_since oldest_first join_lines
diff_since py file_path since_turn t =
    if t.is_open
    then join_lines (
        select (λ d. not (str_eq d ""))
          (map (λ h. h.diff)
            (oldest_first (hunks_since (py.resolve file_path) since_turn t.rows) [])))
    else ""

-- The touched files, by the time of the last touch.
unfoldable pub get_touched : HunkTracker → List (String × Touched)
get_touched t = Sort.sort (λ a b. leb a.1.timestamp b.1.timestamp) t.touched

-- The newest hunk of each file.
unfoldable pub newest_hunks : List String → List Hunk → List (String × Touched)
newest_hunks seen [] = []
newest_hunks seen (h ∷ hs) =
    let rest = newest_hunks (h.file_path ∷ seen) hs in
    let again = newest_hunks seen hs in
    if elem h.file_path seen
    then again
    else (h.file_path, record { action = h.action; size = h.size; timestamp = h.timestamp }) ∷ rest

-- The tracker of a task that the module's functions use: a new one on the same table, where clear_task
-- closed the last.
unfoldable pub get_tracker : HunkTracker → HunkTracker
get_tracker t = record t { is_open = true }

-- The module's get_touched: without touched files, what the table says.
unfoldable pub touched_of_task : HunkTracker → List (String × Touched)
unfolding get_touched newest_hunks
touched_of_task t = elim t.touched [
  | [] ↦ Sort.sort (λ a b. leb a.1.timestamp b.1.timestamp) (newest_hunks [] t.rows)
  | _ ↦ get_touched t
]

-- clear_task: the table stays
unfoldable pub clear_task : HunkTracker → HunkTracker
clear_task t = record t { is_open = false; touched = [] }
