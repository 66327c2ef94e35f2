-- ===== src/Tasks/Laws.antt =====
-- What a task may rely on: pausing and resuming, automatic names, the clean-up, and being stuck.
use Prim.Native.Char.{Char, code}
use Prim.Native.String.append
use Prim.Native.String.{◌++◌}
use existential_identity_tes.Base.{
  ℕ, ◌==◌, ◌≡◌, refl, sym, ap, ◌∙◌, String, true, false, List, [], ◌∷◌, Option, none, some, All,
  arith, Bool-cases, inl, inr,
}
use existential_identity_tes.Base.Text.{str_eq, str_eq_iff, codes, starts_with}
use existential_identity_tes.Base.Dict
use existential_identity_tes.Tasks.{
  Entry, task_to_dict, task_from_dict-task_to_dict, running, paused, TaskState, Disk, Library,
  is_stuck, is_stale, same_three, touch, add_error, save_state, load_state, readable, numbers,
  largest, next_sequence, automatic_id, new_task, chosen, create_task, pause_task, resume_loaded,
  resume_task, cleanup_completed,
}

codes-append : (c : Char) (s t : String) → codes (String.◌∷◌ c s ++ t) ≡ code c ∷ codes (s ++ t)
codes-append c s t = ap codes (λ i. append.cons c s t i)

codes-append_t : (t : String) → codes ("t" ++ t) ≡ b't' ∷ codes ("" ++ t)
codes-append_t t = codes-append "t" "" t

module _ {Json : Type 0} where
  load-put :
      (now : ℕ) (task_id : String) (s : TaskState Json) (d : Disk Json)
      → load_state now task_id (Dict.put d task_id (some (task_to_dict s))) ≡ some s
  unfolding load_state readable
  load-put now task_id s d =
      rw
        (
          Dict.get-put d task_id task_id (some (task_to_dict s)),
          (str_eq_iff task_id task_id).1 refl,
        )
        (task_from_dict-task_to_dict now s)

  -- A task that was paused and saved is resumed, from the dictionary in its file, with every field as
  -- it was, but that it is running and touched, and is then on disk.
  pub resume-pause :
      (now loading later again : ℕ) (s : TaskState Json) (d : Disk Json)
      → let resumed = record s { status = running; updated_at = later } in
        let (answer, e) = resume_task loading later true s.task_id (pause_task now true s d).1.1 in
        (answer ≡ some resumed) × (load_state again s.task_id e ≡ some resumed)
  unfolding resume_task pause_task save_state touch resume_loaded
  resume-pause now loading later again s d =
      rw (load-put loading s.task_id (record s { status = paused; updated_at = now }) d)
        (refl, load-put again s.task_id (record s { status = running; updated_at = later }) _)

  -- Three errors of one kind in a row make a task stuck, whatever came before, at any time.
  pub is_stuck-three :
      (s : TaskState Json) (kind : String) (a b c : List ℕ) (i j k at_a at_b at_c now : ℕ)
      → is_stuck now (add_error at_c kind c k (add_error at_b kind b j (add_error at_a kind a i s)))
        ≡ true
  unfolding is_stuck add_error same_three
  is_stuck-three s kind a b c i j k at_a at_b at_c now =
      ground (arith, (str_eq_iff kind kind).1 refl)

  -- The clean-up keeps the file of a task that is not closed, or was touched within the age, and of
  -- one that cannot be read.
  pub cleanup-keeps :
      (now max_age_hours : ℕ) (task_id : String) (f : Option (Dict.Dict (Entry Json)))
      (d : Disk Json)
      → Dict.get d task_id ≡ some f
      → is_stale now max_age_hours f ≡ false
      → Dict.get (cleanup_completed now max_age_hours d).1 task_id ≡ some f
  unfolding cleanup_completed Dict.get
  cleanup-keeps now age task_id f [] h k = h
  cleanup-keeps now age task_id f ((name, g) ∷ d) h k = elim (Bool-cases (str_eq name task_id)) [
    | inl e ↦ rw (ap (is_stale now age) (some-injective (rw e at h)), k, e) (rw e at h)
    | inr e ↦ elim (Bool-cases (is_stale now age g)) [
      | inl s ↦ rw s (cleanup-keeps now age task_id f d (rw e at h) k)
      | inr s ↦ rw (s, e) (cleanup-keeps now age task_id f d (rw e at h) k)
    ]
  ]
    where
      some-injective : some g ≡ some f → g ≡ f
      some-injective p = ap (λ o. elim o [ none ↦ g | some x ↦ x ]) p

  none_numbered :
      (py : Library) (today : String) (d : Disk Json)
      → All (λ e. starts_with (codes e.0) (codes today) ≡ false) d
      → numbers py today d ≡ []
  unfolding numbers
  none_numbered py today [] h = refl
  none_numbered py today (e ∷ d) h = rw h.0 (none_numbered py today d h.1)

  All-put :
      (P : String × Option (Dict.Dict (Entry Json)) → Type 0) (d : Disk Json) (name : String)
      (f : Option (Dict.Dict (Entry Json)))
      → P (name, f)
      → All P d
      → All P (Dict.put d name f)
  unfolding Dict.put
  All-put P [] name f p h = (p, tt)
  All-put P ((j, g) ∷ d) name f p h = elim (Bool-cases (str_eq j name)) [
    | inl e ↦ rw (e, (str_eq_iff j name).0 e) (p, h.1)
    | inr e ↦ rw e (h.0, All-put P d name f p h.1)
  ]

  automatic_id-unnumbered :
      (py : Library) (today : String) (d : Disk Json)
      → All (λ e. starts_with (codes e.0) (codes today) ≡ false) d
      → automatic_id py today d ≡ "t" ++ (today ++ ("_" ++ py.three_digits 1))
  unfolding automatic_id next_sequence largest
  automatic_id-unnumbered py today d h = rw (none_numbered py today d h) refl

  -- Automatic names are searched for by the date, but begin with a letter: of two tasks that are
  -- created on one day with automatic names, where no directory begins with the date and the date
  -- does not begin with that letter, the second has the name of the first and takes its place on disk.
  pub create_task-twice :
      (py : Library) (c : Char) (date : String) (now later now' later' loading : ℕ)
      (goal goal' : List ℕ) (plan plan' : List (List ℕ)) (family family' : String) (most most' : ℕ)
      (metadata metadata' : List Json) (d : Disk Json)
      → (b't' == code c) ≡ false
      → All (λ e. starts_with (codes e.0) (codes (String.◌∷◌ c date)) ≡ false) d
      → let first =
          create_task py now later true (String.◌∷◌ c date) none goal plan family most metadata d in
        let second =
          create_task py now' later' true
            (String.◌∷◌ c date)
            none
            goal'
            plan'
            family'
            most'
            metadata'
            first.1 in
        (second.0.task_id ≡ first.0.task_id)
        × (load_state loading first.0.task_id second.1 ≡ some second.0)
  unfolding create_task new_task save_state touch chosen starts_with
  create_task-twice py c date now later now' later' loading goal goal' plan plan' family family'
        most most' metadata metadata' d letter h =
      (
        again,
        rw again (
            load-put loading first_id
              (touch later' (new_task now' first_id goal' plan' family' most' metadata')) _),
      )
    where
      today : String
      today = String.◌∷◌ c date

      first_id : String
      first_id = automatic_id py today d

      first_file : Option (Dict.Dict (Entry Json))
      first_file =
          some (task_to_dict (touch later (new_task now first_id goal plan family most metadata)))

      unlike : starts_with (codes first_id) (codes today) ≡ false
      unlike =
          rw
            (
              automatic_id-unnumbered py today d h,
              codes-append_t (today ++ ("_" ++ py.three_digits 1)),
              letter,
            )
            refl

      again : automatic_id py today (Dict.put d first_id first_file) ≡ first_id
      again =
          automatic_id-unnumbered py today (Dict.put d first_id first_file) (
            All-put (λ e. starts_with (codes e.0) (codes today) ≡ false) d first_id first_file
              unlike h)
          ∙ sym (automatic_id-unnumbered py today d h)
