-- ===== src/Checkpoint/Index.antt =====
-- A new CheckpointManager of tical_code/core/checkpoint.py: the index that it rebuilds from the disk,
-- and list_checkpoints. The directories are read in the order of the dictionary. A meta.json is one
-- that save wrote, or no JSON.
use existential_identity_tes.Base.{
  ◌≡◌, refl, ◌∙◌, String, true, false, List, [], ◌∷◌, map, Option, none, some, arith, Bool-cases,
  Option-cases, inl, inr,
}
use existential_identity_tes.Base.Text.{str_eq, str_eq_iff}
use existential_identity_tes.Base.Dict
use existential_identity_tes.Checkpoint.{
  EvalState, Meta, Files, meta_of, eval_to_dict, result_to_dict, read_state, read_state-meta_of,
  meta_string, CheckpointConfig, Manager, Library, written, integrity_hash, save, to_delete,
}
use existential_identity_tes.Checkpoint.Store.{names, disk-save}

module _ {Score Json : Type 0} (py : Library Score Json) where
  -- The state of a meta.json with its hash; one that cannot be read is left out.
  unfoldable pub indexed :
      Option (Meta Score Json) → List (EvalState Score Json) → List (EvalState Score Json)
  unfolding read_state meta_string Dict.get
  indexed none index = index
  indexed (some meta) index =
      elim (read_state py (meta_string "" (Dict.get meta "integrity_hash")) meta) [
        | none ↦ index
        | some s ↦ s ∷ index
      ]

  -- `_load_checkpoints_from_disk`
  unfoldable pub load_index : Dict.Dict (Files Score Json) → List (EvalState Score Json)
  unfolding indexed
  load_index [] = []
  load_index ((cp_id, files) ∷ d) = indexed files.meta (load_index d)

  unfoldable pub new_manager : CheckpointConfig → Dict.Dict (Files Score Json) → Manager Score Json
  unfolding load_index
  new_manager config disk = record { config = config; checkpoints = load_index disk; disk = disk }

  unfoldable pub list_checkpoints : Manager Score Json → List (Meta Score Json)
  unfolding eval_to_dict
  list_checkpoints m = map eval_to_dict m.checkpoints

  names-indexed :
      (eval_id : String) (o : Option (Meta Score Json)) (index : List (EvalState Score Json))
      → names eval_id index ≡ true
      → names eval_id (indexed o index) ≡ true
  unfolding indexed
  names-indexed eval_id none index h = h
  names-indexed eval_id (some meta) index h =
      elim (Option-cases (read_state py (meta_string "" (Dict.get meta "integrity_hash")) meta)) [
        | inl e ↦ rw (e, indexed) h
        | inr (s, e) ↦ rw (e, indexed) (ground (arith, h))
      ]

  names-meta_of :
      (s : EvalState Score Json) (index : List (EvalState Score Json))
      → names s.eval_id (indexed (some (meta_of s)) index) ≡ true
  unfolding indexed
  names-meta_of s index =
      rw
        (
          indexed,
          read_state-meta_of py (meta_string "" (Dict.get (meta_of s) "integrity_hash")) s,
          (str_eq_iff s.eval_id s.eval_id).1 refl,
        )
        refl

  names-load_index :
      (d : Dict.Dict (Files Score Json)) (files : Files Score Json) (s : EvalState Score Json)
      → Dict.get d s.eval_id ≡ some files
      → files.meta ≡ some (meta_of s)
      → names s.eval_id (load_index d) ≡ true
  unfolding Dict.get load_index
  names-load_index [] files s h k = cc
  names-load_index ((cp_id, g) ∷ d) files s h k = elim (Bool-cases (str_eq cp_id s.eval_id)) [
    | inl e ↦ rw (same_file e, k) (names-meta_of s (load_index d))
    | inr e ↦ names-indexed s.eval_id g.meta (load_index d) (names-load_index d files s (later e) k)
  ]
    where
      same_file : str_eq cp_id s.eval_id ≡ true → g ≡ files
      same_file e = ground (arith, h, e)

      later : str_eq cp_id s.eval_id ≡ false → Dict.get d s.eval_id ≡ some files
      later e = ground (arith, h, e)

  -- An evaluation that was saved, its writes successful and not pruned by the save itself, is in the
  -- index of the next process.
  pub save-new_manager :
      (s : EvalState Score Json) (m : Manager Score Json)
      → m.config.enabled ≡ true
      → names s.eval_id (to_delete m.config.max_checkpoints m.checkpoints) ≡ false
      → names s.eval_id (new_manager m.config (save py written s m).1.disk).checkpoints ≡ true
  unfolding new_manager
  save-new_manager s m on kept =
      let t = record s { integrity_hash = integrity_hash py s } in
      names-load_index (save py written s m).1.disk
        (record { meta = some (meta_of t); results = some (map result_to_dict s.results) }) t
        (disk-save py s m s.eval_id on ∙ rw (kept, (str_eq_iff s.eval_id s.eval_id).1 refl) refl)
        refl
