-- ===== src/Hunks/Refine.antt =====
-- No sequence of edits, records and rollbacks tells the tracker from the store of versions.
use Prim.Native.String.{◌++◌}
use existential_identity_tes.Base.{
  ◌≡◌, refl, sym, ap, ◌∙◌, ℕ, ◌+◌, ◌==◌, if◌then◌else◌, String, Bool, true, false, List, [], ◌∷◌,
  Option, none, some, All, arith, Bool-cases, inl, inr,
}
use existential_identity_tes.Base.Text.{str_eq, str_eq_iff}
use existential_identity_tes.Base.Dict
use existential_identity_tes.Hunks.{
  Hunk, HunkTracker, Library, or_else, find_hunk, latest_after, largest_id, next_id, new_hunk,
  insert_hunk, record_file, mark_touched, baseline, read_text_safe, rollback, rollback_to,
  rollback_path, rollback_content, restore,
}
use existential_identity_tes.Hunks.Store.{
  absolute, destination, Store, commit, write, copy, content_of, view, IsKept, IsLibrary, Call,
  edit, record_call, rollback_call, result_id, step, run, store_step, store_run, IsValid, IsNamed,
}

same_store :
    {s u : Store}
    → s.next ≡ u.next
    → ((i : ℕ) → s.version i ≡ u.version i)
    → ((p : String) → s.latest p ≡ u.latest p)
    → ((p : String) → s.file p ≡ u.file p)
    → s ≡ u
same_store a b c d =
    λ i. record { next = a i; version = λ n. b n i; latest = λ p. c p i; file = λ p. d p i }

content_of-if :
    (b : Bool) (h : Hunk) (o : Option Hunk)
    → content_of (if b then some h else o) ≡ (if b then content_of (some h) else content_of o)
unfolding content_of
content_of-if true h o = refl
content_of-if false h o = refl

some-inj : (g h : Hunk) → some g ≡ some h → g ≡ h
some-inj g h p = ap (λ o. elim o [ none ↦ g | some x ↦ x ]) p

module _ (py : Library) where
  -- An answer and a tracker that are those of the store.
  abbrev pub Simulates : Option ℕ × HunkTracker → Option ℕ × Store → Type 0
  Simulates r q = (r.0 ≡ q.0) × ((view r.1 ≡ q.1) × IsValid py r.1)

  if-Simulates :
      (b : Bool) (r r' : Option ℕ × HunkTracker) (q q' : Option ℕ × Store)
      → Simulates r q
      → Simulates r' q'
      → Simulates (if b then r else r') (if b then q else q')
  if-Simulates true r r' q q' h k = h
  if-Simulates false r r' q q' h k = k

  insert_refines :
      (now : ℕ) (path action old new author turn : String) (size : ℕ) (t : HunkTracker)
      → py.resolve path ≡ path
      → All (IsKept py) t.rows
      → Simulates
          (insert_hunk py now path action old new author turn size t)
          (some (view t).next, commit path new (view t))
  unfolding insert_hunk mark_touched new_hunk find_hunk latest_after content_of commit next_id
      largest_id
  insert_refines now path action old new author turn size t e h = (
    refl,
    (
      same_store (omega arith)
          (λ i. content_of-if (largest_id t.rows + 1 == i) _ (find_hunk i t.rows)) (λ p. refl)
          (λ p. refl),
      (refl, ((e, (new, refl)), h)),
    ),
  )

  found-IsKept :
      (id : ℕ) (hs : List Hunk) (h : Hunk)
      → All (IsKept py) hs
      → find_hunk id hs ≡ some h
      → IsKept py h
  unfolding find_hunk
  found-IsKept id [] h k e = absurd (ground (arith, e))
  found-IsKept id (g ∷ hs) h k e = elim (Bool-cases (g.id == id)) [
    | inl b ↦ rw (← some-inj g h (rw b at e)) k.0
    | inr b ↦ found-IsKept id hs h k.1 (rw b at e)
  ]

  -- Where a rollback writes, for a hunk of an absolute path.
  path-destination :
      (path target : String)
      → str_eq (py.name (py.resolve path)) "" ≡ false
      → py.resolve (py.resolve path) ≡ py.resolve path
      → py.resolve target ≡ target
      → rollback_path py path (py.resolve path) target ≡ destination (absolute py path) target
  unfolding rollback_path absolute
  path-destination path target n r e = elim (Bool-cases (str_eq path (py.resolve path))) [
    | inl f ↦
        rw (f, ← ((str_eq_iff path (py.resolve path)).0 f))
          (ground (
            arith,
            f,
            n,
            e,
            str_eq_iff path (py.resolve path),
            str_eq_iff target path,
            str_eq_iff (py.resolve target) path,
            (str_eq_iff path path).1 refl,
          ))
    | inr f ↦
        rw (f, r, e)
          (ground (
            arith,
            f,
            n,
            str_eq_iff target path,
            str_eq_iff path target,
            str_eq_iff target (py.resolve path),
          ))
  ]

  destination-resolved :
      (path target : String)
      → py.resolve target ≡ target
      → py.resolve (destination (absolute py path) target) ≡ destination (absolute py path) target
  unfolding absolute
  destination-resolved path target e = elim (Bool-cases (str_eq path (py.resolve path))) [
    | inl f ↦ rw f (sym ((str_eq_iff path (py.resolve path)).0 f))
    | inr f ↦ rw f e
  ]

  module _ (lib : IsLibrary py) where
    record_refines :
        (now : ℕ) (path given : String) (old new : Option String) (author turn : String) (size : ℕ)
        (t : HunkTracker)
        → IsValid py t
        → Simulates
            (step py now (record_call path given old new author turn size) t)
            (store_step py (record_call path given old new author turn size) (view t))
    unfolding step record_file store_step mark_touched read_text_safe
    record_refines now path given old new author turn size t v =
        if-Simulates (str_eq (py.lower (if str_eq given "" then "write" else given)) "read") _ _ _ _
          (refl, (refl, v))
          (insert_refines now (py.resolve path)
            (py.lower (if str_eq given "" then "write" else given))
            (or_else old (baseline py t (py.resolve path)))
            (or_else new (read_text_safe t (py.resolve path))) author turn size t
            (lib.resolve-resolve path) v.1)

    -- Writing the content and recording the rollback.
    restore_refines :
        (now : ℕ) (path : String) (id : ℕ) (content : String) (t : HunkTracker)
        → py.resolve path ≡ path
        → IsValid py t
        → Simulates
            (
              result_id (restore py now true path id (some content) t).0,
              (restore py now true path id (some content) t).1,
            )
            (some (view t).next, commit path content (write path content (view t)))
    unfolding restore record_file write
    restore_refines now path id content t e v =
        rw (e, lib.lower-rollback) (done.0, (done.1.0 ∙ ap (commit path content) written, done.1.1))
      where
        t' : HunkTracker
        t' = record t { disk = Dict.put t.disk path content }

        written : view t' ≡ write path content (view t)
        written = same_store refl (λ i. refl) (λ p. refl) (λ p. Dict.get-put t.disk path p content)

        done :
            Simulates
              (insert_hunk py now path "rollback"
                (read_text_safe t path)
                content
                "hunk_rollback"
                ("rollback-to-" ++ py.decimal id)
                (py.utf8_length content)
                t')
              (some (view t).next, commit path content (view t'))
        done =
            insert_refines now path "rollback" (read_text_safe t path) content "hunk_rollback"
              ("rollback-to-" ++ py.decimal id) (py.utf8_length content) t' e v.1

    found_refines :
        (now : ℕ) (writes : Bool) (path : String) (id : ℕ) (o : Option Hunk) (t : HunkTracker)
        → str_eq (py.name (py.resolve path)) "" ≡ false
        → IsValid py t
        → ((h : Hunk) → o ≡ some h → IsKept py h)
        → Simulates
            (
              result_id (rollback_to py now writes path id o t).0,
              (rollback_to py now writes path id o t).1,
            )
            (if writes then copy (absolute py path) (content_of o) (view t) else (none, view t))
    unfolding rollback_to restore copy rollback_content content_of
    found_refines now true path id none t n v k = (refl, (refl, v))
    found_refines now false path id none t n v k = (refl, (refl, v))
    found_refines now true path id (some h) t n v k =
        rw
          (
            path-destination path h.file_path n (lib.resolve-resolve path) (k h refl).0,
            (k h refl).1.1,
          )
          (restore_refines now (destination (absolute py path) h.file_path) id (k h refl).1.0 t
            (destination-resolved path h.file_path (k h refl).0) v)
    found_refines now false path id (some h) t n v k =
        rw
          (
            path-destination path h.file_path n (lib.resolve-resolve path) (k h refl).0,
            (k h refl).1.1,
          )
          (refl, (refl, v))

    rollback_refines :
        (now : ℕ) (writes : Bool) (path : String) (id : ℕ) (t : HunkTracker)
        → str_eq (py.name (py.resolve path)) "" ≡ false
        → IsValid py t
        → Simulates
            (step py now (rollback_call writes path id) t)
            (store_step py (rollback_call writes path id) (view t))
    unfolding step store_step rollback
    rollback_refines now writes path id t n v = rw opened (
        found_refines now writes path id (find_hunk id t.rows) t n v
          (λ h. found-IsKept id t.rows h v.1))
      where
        opened :
            rollback py now writes path id t
            ≡ rollback_to py now writes path id (find_hunk id t.rows) t
        opened = simp v.0

    pub step_refines :
        (now : ℕ) (c : Call) (t : HunkTracker)
        → IsNamed py c
        → IsValid py t
        → Simulates (step py now c t) (store_step py c (view t))
    unfolding step store_step write
    step_refines now (edit path text) t n v =
        (refl, (same_store refl (λ i. refl) (λ p. refl) (λ p. Dict.get-put t.disk path p text), v))
    step_refines now (record_call path given old new author turn size) t n v =
        record_refines now path given old new author turn size t v
    step_refines now (rollback_call writes path id) t n v =
        rollback_refines now writes path id t n v

    pub run-Simulates :
        (cs : List (ℕ × Call)) (t : HunkTracker)
        → All (λ e. IsNamed py e.1) cs
        → IsValid py t
        → ((run py cs t).0 ≡ (store_run py cs (view t)).0)
          × ((view (run py cs t).1 ≡ (store_run py cs (view t)).1) × IsValid py (run py cs t).1)
    unfolding run store_run
    run-Simulates [] t n v = (refl, (refl, v))
    run-Simulates ((now, c) ∷ cs) t n v =
        rw (← here.1.0, ← here.0)
          (
            ap (λ ids. (step py now c t).0 ∷ ids)
                (run-Simulates cs (step py now c t).1 n.1 here.1.1).0,
            (run-Simulates cs (step py now c t).1 n.1 here.1.1).1,
          )
      where
        here : Simulates (step py now c t) (store_step py c (view t))
        here = step_refines now c t n.0 v

    -- For a tracker that is open and has rows of its own making, and calls in which no rollback names
    -- the root: the numbers that the calls give and the store that the tracker then shows are those of
    -- the same calls on the store of versions, in which a number keeps its file and its text for good,
    -- a record makes the next version of its file, and a rollback copies the text of a version into the
    -- given file if its path is absolute, and into the file of the version otherwise.
    pub run_refines :
        (cs : List (ℕ × Call)) (t : HunkTracker)
        → All (λ e. IsNamed py e.1) cs
        → IsValid py t
        → ((run py cs t).0 ≡ (store_run py cs (view t)).0)
          × (view (run py cs t).1 ≡ (store_run py cs (view t)).1)
    run_refines cs t n v = ((run-Simulates cs t n v).0, (run-Simulates cs t n v).1.0)
