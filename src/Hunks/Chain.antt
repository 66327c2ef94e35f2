-- ===== src/Hunks/Chain.antt =====
-- The rows form a chain for each file: numbers grow, and each row points to the one before it.
use Prim.Native.String
use existential_identity_tes.Base.Dict
use existential_identity_tes.Base.{
  ◌≡◌, refl, ap, ℕ, ◌-◌, ltb, ◌++◌, ◌<◌, ◌≤◌, if◌then◌else◌, String, Bool, true, false, ◌&&◌, List,
  [], ◌∷◌, Option, none, some, All, select, arith, Bool-cases, inl, inr,
}
use existential_identity_tes.Base.Text.{str_eq, str_eq_iff}
use existential_identity_tes.Hunks.{
  Hunk, HunkTracker, Library, find_hunk, latest_hunk_id, largest_id, next_id, new_hunk, insert_hunk,
  record_file, restore, rollback, rollback_to, rollback_path, rollback_content, or_else, baseline,
  read_text_safe, mark_touched, last_of_turn, hunks_since,
}
use existential_identity_tes.Hunks.Store.{Call, edit, record_call, rollback_call, step, run}

-- The number of the newest row of a file, where there is one: the row stands in the table, and no
-- newer one is of that file.
abbrev pub IsNewest : String → Option ℕ → List Hunk → Type 0
IsNewest path none hs = All (λ g. str_eq g.file_path path ≡ false) hs
IsNewest path (some id) hs =
    (newer : List Hunk) × (h : Hunk) × (older : List Hunk) × (hs ≡ newer ++ h ∷ older)
    × (All (λ g. str_eq g.file_path path ≡ false) newer)
    × (h.file_path ≡ path)
    × (h.id ≡ id)

-- Of each row: its number is above those of the older rows, and its parent is the newest of the
-- older rows of its file, if there is one.
abbrev pub IsChained : List Hunk → Type 0
IsChained [] = Unit
IsChained (h ∷ hs) =
    (All (λ g. g.id < h.id) hs × IsNewest h.file_path h.parent_id hs) × IsChained hs

IsNewest-cons :
    (path : String) (o : Option ℕ) (g : Hunk) (hs : List Hunk)
    → str_eq g.file_path path ≡ false
    → IsNewest path o hs
    → IsNewest path o (g ∷ hs)
IsNewest-cons path none g hs e n = (e, n)
IsNewest-cons path (some id) g hs e (newer, h, older, s, a, q, i) =
    (g ∷ newer, h, older, ap (λ xs. g ∷ xs) s, (e, a), q, i)

latest_hunk_id-IsNewest :
    (path : String) (hs : List Hunk) → IsNewest path (latest_hunk_id path hs) hs
unfolding latest_hunk_id
latest_hunk_id-IsNewest path [] = tt
latest_hunk_id-IsNewest path (h ∷ hs) = elim (Bool-cases (str_eq h.file_path path)) [
  | inl e ↦ rw (e, latest_hunk_id) ([], h, hs, refl, tt, (str_eq_iff h.file_path path).0 e, refl)
  | inr e ↦
      rw e (IsNewest-cons path (latest_hunk_id path hs) h hs e (latest_hunk_id-IsNewest path hs))
]

below-All : (hs : List Hunk) (n : ℕ) → largest_id hs < n → All (λ g. g.id < n) hs
unfolding largest_id
below-All [] n h = tt
below-All (g ∷ hs) n h = (omega (arith, h), below-All hs n (omega (arith, h)))

if-IsChained :
    (b : Bool) (q r : Option ℕ × HunkTracker)
    → IsChained q.1.rows
    → IsChained r.1.rows
    → IsChained (if b then q else r).1.rows
if-IsChained true q r h k = h
if-IsChained false q r h k = k

module _ (py : Library) where
  insert-IsChained :
      (now : ℕ) (path action old new author turn : String) (size : ℕ) (t : HunkTracker)
      → IsChained t.rows
      → IsChained (insert_hunk py now path action old new author turn size t).1.rows
  unfolding insert_hunk new_hunk mark_touched next_id
  insert-IsChained now path action old new author turn size t c =
      ((below-All t.rows (next_id t.rows) (omega arith), latest_hunk_id-IsNewest path t.rows), c)

  record-IsChained :
      (now : ℕ) (path given : String) (old new : Option String) (author turn : String) (size : ℕ)
      (t : HunkTracker)
      → IsChained t.rows
      → IsChained (record_file py now path given old new author turn size t).1.rows
  unfolding record_file mark_touched
  record-IsChained now path given old new author turn size t c =
      if-IsChained (str_eq (py.lower (if str_eq given "" then "write" else given)) "read") _ _ c (
        insert-IsChained now (py.resolve path)
          (py.lower (if str_eq given "" then "write" else given))
          (or_else old (baseline py t (py.resolve path)))
          (or_else new (read_text_safe t (py.resolve path))) author turn size t c)

  restore-IsChained :
      (now : ℕ) (writes : Bool) (path : String) (id : ℕ) (o : Option String) (t : HunkTracker)
      → IsChained t.rows
      → IsChained (restore py now writes path id o t).1.rows
  unfolding restore
  restore-IsChained now writes path id none t c = c
  restore-IsChained now false path id (some content) t c = c
  restore-IsChained now true path id (some content) t c =
      record-IsChained now path "rollback" (some (read_text_safe t path)) (some content)
        "hunk_rollback" (String.◌++◌ "rollback-to-" (py.decimal id)) (py.utf8_length content)
        (record t { disk = Dict.put t.disk path content }) c

  rollback-IsChained :
      (now : ℕ) (writes : Bool) (path : String) (id : ℕ) (o : Option Hunk) (t : HunkTracker)
      → IsChained t.rows
      → IsChained (rollback_to py now writes path id o t).1.rows
  unfolding rollback_to
  rollback-IsChained now writes path id none t c = c
  rollback-IsChained now writes path id (some h) t c =
      restore-IsChained now writes (rollback_path py path (py.resolve path) h.file_path) id
        (rollback_content t (rollback_path py path (py.resolve path) h.file_path) h) t c

  step-IsChained :
      (now : ℕ) (c : Call) (t : HunkTracker) → IsChained t.rows → IsChained (step py now c t).1.rows
  unfolding step rollback
  step-IsChained now (edit path text) t h = h
  step-IsChained now (record_call path given old new author turn size) t h =
      record-IsChained now path given old new author turn size t h
  step-IsChained now (rollback_call writes path id) t h = elim (Bool-cases t.is_open) [
    | inl e ↦ simp e (rollback-IsChained now writes path id (find_hunk id t.rows) t h)
    | inr e ↦ simp e h
  ]

  -- However edits, records and rollbacks follow each other: in the table of the tracker the numbers
  -- grow, and each row has as its parent the newest of the older rows of its file.
  pub run-IsChained :
      (cs : List (ℕ × Call)) (t : HunkTracker) → IsChained t.rows → IsChained (run py cs t).1.rows
  unfolding run
  run-IsChained [] t h = h
  run-IsChained ((now, c) ∷ cs) t h =
      run-IsChained cs (step py now c t).1 (step-IsChained now c t h)

module _ (path turn : String) where
  older_rows : (n : ℕ) (hs : List Hunk) → All (λ g. g.id < n) hs → last_of_turn path turn hs ≤ n - 1
  unfolding last_of_turn
  older_rows n [] h = omega arith
  older_rows n (g ∷ hs) h = ground (arith, h.0, older_rows n hs h.1)

  none_older :
      (n : ℕ) (hs : List Hunk)
      → All (λ g. g.id < n) hs
      → select (λ h. str_eq h.file_path path && ltb n h.id) hs ≡ []
  none_older n [] h = refl
  none_older n (g ∷ hs) h = ground (arith, h.0, none_older n hs h.1)

  All-at :
      (P : Hunk → Type 0) (new : List Hunk) (h : Hunk) (old : List Hunk)
      → All P (new ++ h ∷ old)
      → P h
  All-at P [] h old k = k.0
  All-at P (g ∷ new) h old k = All-at P new h old k.1

  last-turn :
      (new : List Hunk) (h : Hunk) (old : List Hunk)
      → IsChained (new ++ h ∷ old)
      → str_eq h.file_path path ≡ true
      → str_eq h.turn_id turn ≡ true
      → All (λ g. str_eq g.turn_id turn ≡ false) new
      → last_of_turn path turn (new ++ h ∷ old) ≡ h.id
  unfolding last_of_turn
  last-turn [] h old c e f n = rw (e, f) (omega (arith, older_rows h.id old c.0.0))
  last-turn (g ∷ new) h old c e f n = ground (arith, n.0, last-turn new h old c.1 e f n.1)

  newer_rows :
      (new : List Hunk) (h : Hunk) (old : List Hunk)
      → IsChained (new ++ h ∷ old)
      → select (λ g. str_eq g.file_path path && ltb h.id g.id) (new ++ h ∷ old)
        ≡ select (λ g. str_eq g.file_path path) new
  newer_rows [] h old c = ground (arith, none_older h.id old c.0.0)
  newer_rows (g ∷ new) h old c =
      ground (arith, All-at (λ x. x.id < g.id) new h old c.0.0, newer_rows new h old c.1)

  -- In a table that is chained, with a hunk of the file and the turn and no newer hunk of that
  -- turn: the hunks since the turn are those of the file that are newer than it.
  pub hunks_since-turn :
      (new : List Hunk) (h : Hunk) (old : List Hunk)
      → IsChained (new ++ h ∷ old)
      → str_eq h.file_path path ≡ true
      → str_eq h.turn_id turn ≡ true
      → All (λ g. str_eq g.turn_id turn ≡ false) new
      → hunks_since path turn (new ++ h ∷ old) ≡ select (λ g. str_eq g.file_path path) new
  unfolding hunks_since
  hunks_since-turn new h old c e f n = rw (last-turn new h old c e f n) (newer_rows new h old c)
