-- ===== src/Hunks/Table.antt =====
-- HunkTracker of tical_code/core/hunk_tracker.py: the table of hunks and how `record` adds to it.
use Prim.Native.String.{◌++◌}
use existential_identity_tes.Base.{
  ℕ, ◌+◌, max, ◌==◌, if◌then◌else◌, String, Bool, true, false, not, ◌&&◌, List, [], ◌∷◌, Option,
  none, some,
}
use existential_identity_tes.Base.Text.{str_eq, codes}
use existential_identity_tes.Base.Dict

pub record Hunk : Type 0 where
  pub id : ℕ
  pub file_path : String
  pub turn_id : String
  pub timestamp : ℕ
  pub diff : String
  pub author : String
  pub parent_id : Option ℕ
  pub content_before : Option String
  pub content_after : Option String
  pub action : String
  pub size : ℕ

pub record Touched : Type 0 where
  pub action : String
  pub size : ℕ
  pub timestamp : ℕ

-- What the tracker calls: absolute paths and the last part of a path (pathlib), lines, lower case
-- and the length in UTF-8 (str), unified_diff (difflib), decimal numbers, and `git show HEAD:`.
pub record Library : Type 0 where
  pub resolve : String → String
  pub name : String → String
  pub splitlines : String → List String
  pub lower : String → String
  pub utf8_length : String → ℕ
  pub unified_diff : List String → List String → String → String → List String
  pub decimal : ℕ → String
  pub git_head_content : String → Option String

-- A task's tracker, with the files on disk.
pub record HunkTracker : Type 0 where
  pub is_open : Bool
  pub rows : List Hunk
  pub touched : Dict.Dict Touched
  pub disk : Dict.Dict String

pub data RollbackResult : Type 0 where
  not_initialized : RollbackResult
  hunk_not_found : RollbackResult
  cannot_reconstruct : RollbackResult
  write_failed : RollbackResult
  rolled_back : String → ℕ → Option ℕ → ℕ → RollbackResult

abbrev pub or_else {ℓ} : {A : Type ℓ} → Option A → A → A
or_else none a = a
or_else (some x) a = x

-- `text.endswith("\n")`
unfoldable pub ends_line : List ℕ → Bool
ends_line [] = false
ends_line (c ∷ []) = c == b'\n'
ends_line (c ∷ d ∷ cs) = ends_line (d ∷ cs)

-- The last line with its line break.
unfoldable pub close_last : List String → List String
unfolding ends_line
close_last [] = []
close_last (l ∷ []) = (if ends_line (codes l) then l else l ++ "\n") ∷ []
close_last (l ∷ k ∷ ls) = l ∷ close_last (k ∷ ls)

unfoldable pub diff_lines : Library → String → List String
unfolding close_last ends_line
diff_lines py s =
    if not (str_eq s "") && not (ends_line (codes s))
    then close_last (py.splitlines s)
    else py.splitlines s

-- `"".join(parts)` and `"\n".join(parts)`
unfoldable pub join : List String → String
join [] = ""
join (s ∷ ss) = s ++ join ss

unfoldable pub join_lines : List String → String
join_lines [] = ""
join_lines (s ∷ []) = s
join_lines (s ∷ t ∷ ss) = s ++ ("\n" ++ join_lines (t ∷ ss))

unfoldable pub unified_diff : Library → String → String → String → String
unfolding diff_lines join
unified_diff py old new file_path = join (
    py.unified_diff (diff_lines py old) (diff_lines py new) ("a/" ++ file_path) ("b/" ++ file_path))

unfoldable pub diff_text : Library → String → String → String → String
unfolding unified_diff
diff_text py old new path =
    let text = unified_diff py old new path in
    if str_eq text "" && not (str_eq old new)
    then "--- a/" ++ (path ++ ("\n+++ b/" ++ (path ++ "\n@@ content changed (no line diff) @@\n")))
    else text

-- SELECT ... WHERE id = ?
unfoldable pub find_hunk : ℕ → List Hunk → Option Hunk
find_hunk id [] = none
find_hunk id (h ∷ hs) = if h.id == id then some h else find_hunk id hs

-- `_latest_hunk_id`
unfoldable pub latest_hunk_id : String → List Hunk → Option ℕ
latest_hunk_id path [] = none
latest_hunk_id path (h ∷ hs) = if str_eq h.file_path path then some h.id else latest_hunk_id path hs

unfoldable pub latest_after : String → List Hunk → Option String
latest_after path [] = none
latest_after path (h ∷ hs) =
    let rest = latest_after path hs in
    if str_eq h.file_path path then elim h.content_after [ none ↦ rest | some c ↦ some c ] else rest

abbrev pub or_other {ℓ} : {A : Type ℓ} → Option A → Option A → Option A
or_other none o = o
or_other (some x) o = some x

-- `_latest_content`: the last hunk, else git, else the disk
unfoldable pub latest_content : Library → HunkTracker → String → Option String
unfolding latest_after
latest_content py t path =
    or_other (latest_after path t.rows) (or_other (py.git_head_content path) (Dict.get t.disk path))

-- `_read_text_safe`
unfoldable pub read_text_safe : HunkTracker → String → String
read_text_safe t path = or_else (Dict.get t.disk path) ""

unfoldable pub baseline : Library → HunkTracker → String → String
unfolding latest_content read_text_safe
baseline py t path =
    or_else (or_other (latest_content py t path) (py.git_head_content path)) (read_text_safe t path)

unfoldable pub mark_touched : ℕ → String → String → ℕ → HunkTracker → HunkTracker
mark_touched now path action size t = record t {
  touched = Dict.put t.touched path (record { action = action; size = size; timestamp = now });
}

-- The id that SQLite gives to a new row.
unfoldable pub largest_id : List Hunk → ℕ
largest_id [] = 0
largest_id (h ∷ hs) = max h.id (largest_id hs)

unfoldable pub next_id : List Hunk → ℕ
unfolding largest_id
next_id hs = largest_id hs + 1

unfoldable pub new_hunk :
    Library → ℕ → String → String → String → String → String → String → ℕ → List Hunk → Hunk
unfolding next_id latest_hunk_id diff_text
new_hunk py now path action old new author turn size hs = record {
  id = next_id hs;
  file_path = path;
  turn_id = turn;
  timestamp = now;
  diff = diff_text py old new path;
  author = if str_eq author "" then "unknown" else author;
  parent_id = latest_hunk_id path hs;
  content_before = some old;
  content_after = some new;
  action = action;
  size = if size == 0 then py.utf8_length new else size;
}

unfoldable pub insert_hunk :
    Library
    → ℕ
    → String
    → String
    → String
    → String
    → String
    → String
    → ℕ
    → HunkTracker
    → Option ℕ × HunkTracker
unfolding new_hunk mark_touched
insert_hunk py now path action old new author turn size t =
    let h = new_hunk py now path action old new author turn size t.rows in
    (
      some h.id,
      mark_touched now path action h.size (record t { is_open = true; rows = h ∷ t.rows }),
    )

-- HunkTracker.record; `turn` is the given turn or its default.
unfoldable pub record_file :
    Library
    → ℕ
    → String
    → String
    → Option String
    → Option String
    → String
    → String
    → ℕ
    → HunkTracker
    → Option ℕ × HunkTracker
unfolding insert_hunk mark_touched baseline read_text_safe
record_file py now file_path given old_content new_content author turn size t =
    let path = py.resolve file_path in
    let action = py.lower (if str_eq given "" then "write" else given) in
    if str_eq action "read"
    then (none, mark_touched now path action size t)
    else insert_hunk py now path action (or_else old_content (baseline py t path))
        (or_else new_content (read_text_safe t path)) author turn size t
