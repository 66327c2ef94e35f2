-- ===== src/Checkpoint/Store.antt =====
-- What a saved evaluation may rely on: what `load` finds after `save`, with the pruning between them.
use existential_identity_tes.Base.{
  ℕ, zero, suc, ◌≤◌, ◌∙◌, leb, not, ◌||◌, length, drop, if◌then◌else◌, ◌≡◌, ◌≢◌, refl, String, Bool,
  true, false, List, [], ◌∷◌, map, none, some, Option, any_of, arith, Bool-cases, inl, inr,
}
use existential_identity_tes.Base.Text.{str_eq, str_eq_iff}
use existential_identity_tes.Base.Dict
use existential_identity_tes.Base.Sort
use existential_identity_tes.Checkpoint.{
  Meta, a_string, meta_string, newer, shortened, meta_of, result_to_dict, read_state,
  hash_from_meta, hash_from_meta-meta_of, read_state-meta_of, stored_hash-meta_of, read_results-map,
  EvalState, Library, Manager, written, loaded, absent, raised, integrity_hash, delete, delete_all,
  to_delete, prune, written_files, persist, save, with_results, read_back, load, load_files,
  load_meta,
}

module _ {Score Json : Type 0} where
  -- Whether a list of states has one of an evaluation.
  abbrev pub names : String → List (EvalState Score Json) → Bool
  names eval_id = any_of (λ c. str_eq c.eval_id eval_id)

  disk-delete_all :
      (cs : List (EvalState Score Json)) (m : Manager Score Json) (eval_id : String)
      → Dict.get (delete_all cs m).disk eval_id
        ≡ (if names eval_id cs then none else Dict.get m.disk eval_id)
  unfolding delete_all delete
  disk-delete_all [] m eval_id = refl
  disk-delete_all (c ∷ cs) m eval_id = ground (
    arith,
    disk-delete_all cs (delete c.eval_id m) eval_id,
    Dict.get-remove m.disk c.eval_id eval_id,
  )

  config-delete_all :
      (cs : List (EvalState Score Json)) (m : Manager Score Json)
      → (delete_all cs m).config ≡ m.config
  unfolding delete_all delete
  config-delete_all [] m = refl
  config-delete_all (c ∷ cs) m = config-delete_all cs (delete c.eval_id m)

  -- The files of an evaluation after a save whose writes succeed.
  pub disk-save :
      (py : Library Score Json) (s : EvalState Score Json) (m : Manager Score Json)
      (eval_id : String)
      → m.config.enabled ≡ true
      → Dict.get (save py written s m).1.disk eval_id ≡ (
          if names eval_id (to_delete m.config.max_checkpoints m.checkpoints)
          then none
          else if str_eq s.eval_id eval_id
          then some (record {
            meta = some (meta_of (record s { integrity_hash = integrity_hash py s }));
            results = some (map result_to_dict s.results);
          })
          else Dict.get m.disk eval_id)
  unfolding save persist prune written_files
  disk-save py s m eval_id on =
      simp (on, disk-delete_all (to_delete m.config.max_checkpoints m.checkpoints), Dict.get-put)
        refl

  -- A state as `load` gives it back: with its hash, and its results with their errors cut after 500
  -- characters and without their outputs.
  abbrev pub as_kept : Library Score Json → EvalState Score Json → EvalState Score Json
  as_kept py s = record s {
    integrity_hash = integrity_hash py s;
    results = map shortened s.results;
  }

  config-save :
      (py : Library Score Json) (s : EvalState Score Json) (m : Manager Score Json)
      → (save py written s m).1.config ≡ m.config
  unfolding save persist prune
  config-save py s m = elim (Bool-cases m.config.enabled) [
    | inr off ↦ simp off refl
    | inl on ↦ simp on (config-delete_all (to_delete m.config.max_checkpoints m.checkpoints) _)
  ]

  -- The hash of a state is not part of its text.
  same_hash :
      (py : Library Score Json) (s : EvalState Score Json)
      → integrity_hash py (record s { integrity_hash = integrity_hash py s }) ≡ integrity_hash py s
  unfolding integrity_hash
  same_hash py s = refl

  read_back_at :
      (py : Library Score Json) (meta : Meta Score Json) (results : Option (List (Meta Score Json)))
      (hash : String) (s : EvalState Score Json)
      → meta_string "" (Dict.get meta "integrity_hash") ≡ hash
      → str_eq hash "" ≡ false
      → hash_from_meta py (Dict.put meta "integrity_hash" (a_string "")) ≡ hash
      → read_state py hash meta ≡ some s
      → read_back py true meta results ≡ with_results py results (some s)
  unfolding read_back
  read_back_at py meta results hash s a b c d = rw (a, b, c, (str_eq_iff hash hash).1 refl, d) refl

  read_back-kept :
      (py : Library Score Json) (s : EvalState Score Json)
      → integrity_hash py s ≢ ""
      → read_back py true
          (meta_of (record s { integrity_hash = integrity_hash py s }))
          (some (map result_to_dict s.results))
        ≡ loaded (as_kept py s)
  unfolding with_results integrity_hash
  read_back-kept py s h =
      let t = record s { integrity_hash = integrity_hash py s } in
      elim (Bool-cases (str_eq (integrity_hash py s) "")) [
        | inl e ↦ absurd (h ((str_eq_iff (integrity_hash py s) "").0 e))
        | inr e ↦
            read_back_at py (meta_of t) (some (map result_to_dict s.results)) (integrity_hash py s)
              (record t { results = [] }) (stored_hash-meta_of py t) e
              (hash_from_meta-meta_of py t ∙ same_hash py s)
              (read_state-meta_of py (integrity_hash py s) t)
            ∙ rw (with_results, read_results-map py s.results) refl
      ]

  -- What `load` finds after a save, with the pruning of that save.
  load-save_or_pruned :
      (py : Library Score Json) (s : EvalState Score Json) (m : Manager Score Json)
      → m.config.enabled ≡ true
      → m.config.verify_integrity ≡ true
      → integrity_hash py s ≢ ""
      → load py s.eval_id (save py written s m).1 ≡ (
          if names s.eval_id (to_delete m.config.max_checkpoints m.checkpoints)
          then absent
          else loaded (as_kept py s))
  unfolding load load_files load_meta
  load-save_or_pruned py s m on check h =
      simp (disk-save py s m s.eval_id on, config-save py s m, check)
        (elim (Bool-cases (names s.eval_id (to_delete m.config.max_checkpoints m.checkpoints))) [
          | inl e ↦ simp e refl
          | inr e ↦ simp (e, (str_eq_iff s.eval_id s.eval_id).1 refl) (read_back-kept py s h)
        ])

  names-insert :
      (le : EvalState Score Json → EvalState Score Json → Bool) (id : String)
      (c : EvalState Score Json) (cs : List (EvalState Score Json))
      → names id (c ∷ cs) ≡ false
      → names id (Sort.insert le c cs) ≡ false
  unfolding Sort.insert
  names-insert le id c [] h = h
  names-insert le id c (d ∷ cs) h = ground (arith, h, names-insert le id c cs)

  names-sort :
      (le : EvalState Score Json → EvalState Score Json → Bool) (id : String)
      (cs : List (EvalState Score Json))
      → names id cs ≡ false
      → names id (Sort.sort le cs) ≡ false
  unfolding Sort.sort
  names-sort le id [] h = h
  names-sort le id (c ∷ cs) h =
      ground (arith, h, names-insert le id c (Sort.sort le cs), names-sort le id cs)

  names-drop :
      (id : String) (n : ℕ) (cs : List (EvalState Score Json))
      → names id cs ≡ false
      → names id (drop n cs) ≡ false
  names-drop id zero cs h = h
  names-drop id (suc n) [] h = h
  names-drop id (suc n) (c ∷ cs) h = names-drop id n cs (ground (arith, h))

  drop-all :
      (id : String) (n : ℕ) (cs : List (EvalState Score Json))
      → length cs ≤ n
      → names id (drop n cs) ≡ false
  drop-all id zero [] h = refl
  drop-all id zero (c ∷ cs) h = absurd (omega (arith, h))
  drop-all id (suc n) [] h = refl
  drop-all id (suc n) (c ∷ cs) h = drop-all id n cs (omega (arith, h))

  -- A save does not prune an evaluation that is not in the index, or any while the index is no longer
  -- than the limit.
  not_pruned :
      (id : String) (n : ℕ) (cs : List (EvalState Score Json))
      → (leb (length cs) n || not (names id cs)) ≡ true
      → names id (to_delete n cs) ≡ false
  unfolding to_delete
  not_pruned id n cs h = elim (Bool-cases (names id cs)) [
    | inl e ↦ drop-all id n (Sort.sort newer cs) (ground (arith, h, e, Sort.length-sort newer cs))
    | inr e ↦ names-drop id n (Sort.sort newer cs) (names-sort newer id cs e)
  ]

  -- Where hashes are checked and not empty, a state of an evaluation that is not in the index yet, or
  -- any state while the index is no longer than the limit, is loaded again after it was saved, its
  -- writes successful: from the two files, with every field as it was, but that it has its hash, and
  -- that its results have their errors cut after 500 characters and no outputs.
  pub load-save :
      (py : Library Score Json) (s : EvalState Score Json) (m : Manager Score Json)
      → m.config.enabled ≡ true
      → m.config.verify_integrity ≡ true
      → integrity_hash py s ≢ ""
      → (leb (length m.checkpoints) m.config.max_checkpoints || not (names s.eval_id m.checkpoints))
        ≡ true
      → load py s.eval_id (save py written s m).1 ≡ loaded (as_kept py s)
  load-save py s m on check h k =
      load-save_or_pruned py s m on check h
      ∙ rw (not_pruned s.eval_id m.config.max_checkpoints m.checkpoints k) refl

  -- A save of one evaluation leaves another as it can be loaded, unless the pruning deletes it.
  pub load-save_other :
      (py : Library Score Json) (s : EvalState Score Json) (m : Manager Score Json) (other : String)
      → m.config.enabled ≡ true
      → s.eval_id ≢ other
      → load py other (save py written s m).1 ≡ (
          if names other (to_delete m.config.max_checkpoints m.checkpoints)
          then absent
          else load py other m)
  unfolding load load_files load_meta
  load-save_other py s m other on ne =
      simp (disk-save py s m other on, config-save py s m)
        (elim (Bool-cases (names other (to_delete m.config.max_checkpoints m.checkpoints))) [
          | inl e ↦ simp e refl
          | inr e ↦ elim (Bool-cases (str_eq s.eval_id other)) [
            | inl f ↦ absurd (ne ((str_eq_iff s.eval_id other).0 f))
            | inr f ↦ simp (e, f) refl
          ]
        ])

  -- Where hashes are not checked, the load of a state that was just saved and not pruned raises an
  -- exception.
  pub load-save_unchecked :
      (py : Library Score Json) (s : EvalState Score Json) (m : Manager Score Json)
      → m.config.enabled ≡ true
      → m.config.verify_integrity ≡ false
      → names s.eval_id (to_delete m.config.max_checkpoints m.checkpoints) ≡ false
      → load py s.eval_id (save py written s m).1 ≡ raised
  unfolding load load_files load_meta read_back
  load-save_unchecked py s m on check kept =
      simp
        (
          disk-save py s m s.eval_id on,
          config-save py s m,
          check,
          kept,
          (str_eq_iff s.eval_id s.eval_id).1 refl,
        )
        refl
