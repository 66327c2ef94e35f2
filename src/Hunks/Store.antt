-- ===== src/Hunks/Store.antt =====
-- The tracker as a store of versions: each recorded content has a number for good, each file has a
-- latest version, and a rollback copies a version into the file.
use mathlib.Core.Option
use existential_identity_tes.Base.{
  ◌≡◌, ℕ, ◌+◌, ◌==◌, if◌then◌else◌, String, Bool, true, false, List, [], ◌∷◌, Option, none, some,
  All,
}
use existential_identity_tes.Base.Text.{str_eq}
use existential_identity_tes.Base.Dict
use existential_identity_tes.Hunks.{
  Hunk, HunkTracker, Library, or_else, find_hunk, latest_after, next_id, record_file, rollback,
  RollbackResult, rolled_back,
}

-- The store: the number of the next version, the file and the text of each version, the latest text that was
-- recorded for each file, and the files.
pub record Store : Type 0 where
  pub next : ℕ
  pub version : ℕ → Option (String × String)
  pub latest : String → Option String
  pub file : String → Option String

unfoldable pub commit : String → String → Store → Store
commit path text s = record {
  next = s.next + 1;
  version = λ i. if s.next == i then some (path, text) else s.version i;
  latest = λ p. if str_eq path p then some text else s.latest p;
  file = s.file;
}

unfoldable pub write : String → String → Store → Store
write path text s = record s { file = λ p. if str_eq path p then some text else s.file p }

-- The file that a rollback writes: the given path where it is absolute, else the file of the version.
abbrev pub destination : Option String → String → String
destination none owner = owner
destination (some path) owner = path

-- The number of the version that a rollback makes, none where there is no version to go back to.
unfoldable pub copy : Option String → Option (String × String) → Store → Option ℕ × Store
unfolding commit write
copy given none s = (none, s)
copy given (some (owner, text)) s =
    (some s.next, commit (destination given owner) text (write (destination given owner) text s))

-- The file and the text of a version.
unfoldable pub content_of : Option Hunk → Option (String × String)
content_of none = none
content_of (some h) = Option.map (λ c. (h.file_path, c)) h.content_after

abbrev pub view : HunkTracker → Store
view t = record {
  next = next_id t.rows;
  version = λ i. content_of (find_hunk i t.rows);
  latest = λ p. latest_after p t.rows;
  file = λ p. Dict.get t.disk p;
}

-- What the calls of the module do to the store: an edit by a tool, a record (its path, action, old
-- and new content, author, turn and size) and a rollback, with whether its write succeeds.
pub data Call : Type 0 where
  edit : String → String → Call
  record_call : String → String → Option String → Option String → String → String → ℕ → Call
  rollback_call : Bool → String → ℕ → Call

abbrev pub result_id : RollbackResult → Option ℕ
result_id (rolled_back path hunk_id new_id bytes) = new_id
result_id _ = none

module _ (py : Library) where
  -- A hunk as the tracker makes them: of an absolute path, with the content after it.
  abbrev pub IsKept : Hunk → Type 0
  IsKept h = (py.resolve h.file_path ≡ h.file_path) × ((c : String) × (h.content_after ≡ some c))

  -- What the tracker relies on: an absolute path is its own absolute form, and the names of the
  -- actions are in lower case.
  pub record IsLibrary : Type 0 where
    pub resolve-resolve : (p : String) → py.resolve (py.resolve p) ≡ py.resolve p
    pub lower-write : py.lower "write" ≡ "write"
    pub lower-rollback : py.lower "rollback" ≡ "rollback"

  -- A call at a time, with the number that it gives.
  unfoldable pub step : ℕ → Call → HunkTracker → Option ℕ × HunkTracker
  unfolding record_file rollback
  step now (edit path text) t = (none, record t { disk = Dict.put t.disk path text })
  step now (record_call path given old new author turn size) t =
      record_file py now path given old new author turn size t
  step now (rollback_call writes path hunk_id) t =
      let (r, t') = rollback py now writes path hunk_id t in (result_id r, t')

  unfoldable pub run : List (ℕ × Call) → HunkTracker → List (Option ℕ) × HunkTracker
  unfolding step
  run [] t = ([], t)
  run ((now, c) ∷ cs) t =
      let (id, t') = step now c t in let (ids, t'') = run cs t' in (id ∷ ids, t'')

  -- A path that is its own absolute form.
  unfoldable pub absolute : String → Option String
  absolute path = if str_eq path (py.resolve path) then some path else none

  -- The same in the store.
  unfoldable pub store_step : Call → Store → Option ℕ × Store
  unfolding commit write copy absolute
  store_step (edit path text) s = (none, write path text s)
  store_step (record_call path given old new author turn size) s =
      if str_eq (py.lower (if str_eq given "" then "write" else given)) "read" then (none, s) else (
        some s.next,
        commit (py.resolve path) (or_else new (or_else (s.file (py.resolve path)) "")) s,
      )
  store_step (rollback_call writes path hunk_id) s =
      if writes then copy (absolute path) (s.version hunk_id) s else (none, s)

  unfoldable pub store_run : List (ℕ × Call) → Store → List (Option ℕ) × Store
  unfolding store_step
  store_run [] s = ([], s)
  store_run ((now, c) ∷ cs) s =
      let (id, s') = store_step c s in let (ids, s'') = store_run cs s' in (id ∷ ids, s'')

  -- A tracker that is in use, with rows of its own making.
  abbrev pub IsValid : HunkTracker → Type 0
  IsValid t = (t.is_open ≡ true) × All IsKept t.rows

  -- A rollback names a file, not the root of the file system.
  abbrev pub IsNamed : Call → Type 0
  IsNamed (rollback_call writes path hunk_id) = str_eq (py.name (py.resolve path)) "" ≡ false
  IsNamed _ = Unit
