-- ===== src/Hunks/Rollback.antt =====
-- What a rollback restores.
use existential_identity_tes.Base.{
  ◌≡◌, refl, ap, ◌∙◌, ℕ, ◌+◌, ◌<◌, if◌then◌else◌, String, Bool, true, false, List, [], ◌∷◌, Option,
  none, some, All, arith, Bool-cases, inl, inr,
}
use existential_identity_tes.Base.Text.{str_eq, str_eq_iff}
use existential_identity_tes.Base.Dict
use existential_identity_tes.Hunks.{HunkTracker, Library, or_else, latest_after, next_id}
use existential_identity_tes.Hunks.Store.{
  absolute, destination, Store, commit, write, copy, view, IsLibrary, Call, edit, record_call,
  rollback_call, step, run, store_step, store_run, IsValid, IsNamed,
}
use existential_identity_tes.Hunks.Refine.{Simulates, run-Simulates, step_refines}

module _ (py : Library) where
  -- Version `i` is in use and has the same text in the second store.
  Keeps : ℕ → Store → Store → Type 0
  Keeps i s u = (u.version i ≡ s.version i) × (i < u.next)

  if-Keeps :
      (b : Bool) (i : ℕ) (s : Store) (q r : Option ℕ × Store)
      → Keeps i s q.1
      → Keeps i s r.1
      → Keeps i s (if b then q else r).1
  if-Keeps true i s q r h k = h
  if-Keeps false i s q r h k = k

  commit-Keeps :
      (path text : String) (s : Store) (i : ℕ) → i < s.next → Keeps i s (commit path text s)
  unfolding commit Keeps
  commit-Keeps path text s i h = (ground (arith, h), omega arith)

  copy-Keeps :
      (given : Option String) (o : Option (String × String)) (s : Store) (i : ℕ)
      → i < s.next
      → Keeps i s (copy given o s).1
  unfolding copy write Keeps commit
  copy-Keeps given none s i h = (refl, h)
  copy-Keeps given (some (owner, text)) s i h = (ground (arith, h), omega arith)

  -- A version keeps its number and its text.
  store_step-Keeps : (c : Call) (s : Store) (i : ℕ) → i < s.next → Keeps i s (store_step py c s).1
  unfolding store_step write Keeps
  store_step-Keeps (edit path text) s i h = (refl, h)
  store_step-Keeps (record_call path given old new author turn size) s i h =
      if-Keeps _ i s (none, s)
        (
          some s.next,
          commit (py.resolve path) (or_else new (or_else (s.file (py.resolve path)) "")) s,
        )
        (refl, h)
        (commit-Keeps (py.resolve path) (or_else new (or_else (s.file (py.resolve path)) "")) s i h)
  store_step-Keeps (rollback_call writes path id) s i h =
      if-Keeps writes i s (copy (absolute py path) (s.version id) s) (none, s)
        (copy-Keeps (absolute py path) (s.version id) s i h) (refl, h)

  store_run-keeps :
      (cs : List (ℕ × Call)) (s : Store) (i : ℕ)
      → i < s.next
      → (store_run py cs s).1.version i ≡ s.version i
  unfolding store_run Keeps
  store_run-keeps [] s i h = refl
  store_run-keeps ((now, c) ∷ cs) s i h =
      store_run-keeps cs (store_step py c s).1 i (store_step-Keeps c s i h).1
      ∙ (store_step-Keeps c s i h).0

  module _ (lib : IsLibrary py) where
    -- Of a tracker that is open and has rows of its own making: a record (no read) with new content
    -- `text` gets a number, and whatever edits, records and rollbacks follow, in which no rollback names
    -- the root, a rollback to that number whose write succeeds writes `text` and is then itself the
    -- latest version, of the file that it names if it names it by its absolute path, and otherwise of
    -- the file that was recorded, whatever it names.
    pub rollback-record :
        (now later : ℕ) (path given other : String) (old : Option String)
        (text author turn : String) (size : ℕ) (cs : List (ℕ × Call)) (t : HunkTracker)
        → IsValid py t
        → str_eq (py.lower (if str_eq given "" then "write" else given)) "read" ≡ false
        → All (λ e. IsNamed py e.1) cs
        → str_eq (py.name (py.resolve other)) "" ≡ false
        → let recorded = step py now (record_call path given old (some text) author turn size) t in
          let back =
            step py later (rollback_call true other (next_id t.rows)) (run py cs recorded.1).1 in
          let target = if str_eq other (py.resolve other) then other else py.resolve path in
          (recorded.0 ≡ some (next_id t.rows))
          × ((Dict.get back.1.disk target ≡ some text)
              × (latest_after target back.1.rows ≡ some text))
    unfolding store_step copy write commit
    rollback-record now later path given other old text author turn size cs t v w n m = (
      a.0 ∙ ap (λ q. q.0) stored,
      (
        ap (λ s. s.file p) restored ∙ same_path (λ b. if b then some text else Dict.get u.disk p),
        ap (λ s. s.latest p) restored
            ∙ same_path (λ b. if b then some text else latest_after p u.rows),
      ),
    )
      where
        id : ℕ
        id = next_id t.rows

        p : String
        p = if str_eq other (py.resolve other) then other else py.resolve path

        to_target : destination (absolute py other) (py.resolve path) ≡ p
        to_target = elim (Bool-cases (str_eq other (py.resolve other))) [
          | inl e ↦ rw (e, absolute) refl
          | inr e ↦ rw (e, absolute) refl
        ]

        r : HunkTracker
        r = (step py now (record_call path given old (some text) author turn size) t).1

        u : HunkTracker
        u = (run py cs r).1

        a :
            Simulates py
              (step py now (record_call path given old (some text) author turn size) t)
              (store_step py (record_call path given old (some text) author turn size) (view t))
        a = step_refines py lib now (record_call path given old (some text) author turn size) t tt v

        stored :
            store_step py (record_call path given old (some text) author turn size) (view t)
            ≡ (some id, commit (py.resolve path) text (view t))
        stored = rw w refl

        at_record : view r ≡ commit (py.resolve path) text (view t)
        at_record = a.1.0 ∙ ap (λ q. q.1) stored

        grown : next_id r.rows ≡ id + 1
        grown = ap (λ s. s.next) at_record

        at_run : (view u ≡ (store_run py cs (view r)).1) × IsValid py u
        at_run = ((run-Simulates py lib cs r n a.1.1).1.0, (run-Simulates py lib cs r n a.1.1).1.1)

        kept : (view u).version id ≡ some (py.resolve path, text)
        kept =
            ap (λ s. s.version id) at_run.0
            ∙ (store_run-keeps cs (view r) id (omega (arith, grown))
                ∙ (ap (λ s. s.version id) at_record ∙ ground arith))

        same_path : (f : Bool → Option String) → f (str_eq p p) ≡ f true
        same_path f = ap f ((str_eq_iff p p).1 refl)

        restored :
            view (step py later (rollback_call true other id) u).1
            ≡ commit p text (write p text (view u))
        restored =
            (step_refines py lib later (rollback_call true other id) u m at_run.1).1.0
            ∙ (ap (λ o. (copy (absolute py other) o (view u)).1) kept
                ∙ ap (λ q. commit q text (write q text (view u))) to_target)
