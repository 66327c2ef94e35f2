-- ===== src/Checkpoint.antt =====
-- tical_code/core/checkpoint.py: saved states of evaluations, in a directory and in an index in
-- memory. The directory is a dictionary of the files of each evaluation. The index holds the states
-- as they were saved. Scores (floating-point numbers) and JSON values are types of parameters, and
-- SHA-256 and `str` are parameters (`Library`).
mod State
pub mod Store
pub mod Index
mod Samples
unfoldable pub use State.*
use existential_identity_tes.Base.{
  ℕ, leb, if◌then◌else◌, String, Bool, true, false, not, ◌&&◌, List, [], ◌∷◌, ◌++◌, map, Option,
  none, some, length, take, drop, select,
}
use existential_identity_tes.Base.Text.{str_eq, codes}
use existential_identity_tes.Base.Dict
use existential_identity_tes.Base.Sort

pub record CheckpointConfig : Type 0 where
  pub enabled : Bool
  pub max_checkpoints : ℕ
  pub verify_integrity : Bool

-- The files of one evaluation: the dictionary of meta.json, and those of results.json. Either may be
-- missing or hold no JSON (none).
pub record Files (Score Json : Type 0) : Type 0 where
  pub meta : Option (Meta Score Json)
  pub results : Option (List (Meta Score Json))

pub record Manager (Score Json : Type 0) : Type 0 where
  pub config : CheckpointConfig
  pub checkpoints : List (EvalState Score Json)
  pub disk : Dict.Dict (Files Score Json)

-- What the writes of `_persist_checkpoint` come to: an OSError of meta.json is raised, one of
-- results.json is logged.
pub data Writes : Type 0 where
  written meta_fails results_fail : Writes

-- What `load` comes to: a state, None, or an exception.
pub data Loaded (Score Json : Type 0) : Type 0 where
  loaded : EvalState Score Json → Loaded Score Json
  absent raised : Loaded Score Json

module _ {Score Json : Type 0} where
  unfoldable pub delete : String → Manager Score Json → Manager Score Json
  delete eval_id m = record m {
    disk = Dict.remove m.disk eval_id;
    checkpoints = select (λ c. not (str_eq c.eval_id eval_id)) m.checkpoints;
  }

  unfoldable pub delete_all : List (EvalState Score Json) → Manager Score Json → Manager Score Json
  unfolding delete
  delete_all [] m = m
  delete_all (c ∷ cs) m = delete_all cs (delete c.eval_id m)

  -- `sorted(..., key=timestamp, reverse=True)`, which keeps the order of equal timestamps.
  unfoldable pub newer : EvalState Score Json → EvalState Score Json → Bool
  newer a b = leb b.timestamp a.timestamp

  unfoldable pub to_delete : ℕ → List (EvalState Score Json) → List (EvalState Score Json)
  to_delete keep cs = drop keep (Sort.sort newer cs)

  unfoldable pub prune : ℕ → Manager Score Json → ℕ × Manager Score Json
  unfolding to_delete delete_all
  prune keep m =
      (length (to_delete keep m.checkpoints), delete_all (to_delete keep m.checkpoints) m)

  -- `self._checkpoints.remove(existing[0])`, where there is one.
  unfoldable pub forget : String → List (EvalState Score Json) → List (EvalState Score Json)
  forget eval_id [] = []
  forget eval_id (c ∷ cs) =
      let rest = forget eval_id cs in if str_eq c.eval_id eval_id then cs else c ∷ rest

  unfoldable pub reset : Manager Score Json → Manager Score Json
  reset m = record m { checkpoints = [] }

  -- The files of an evaluation after the writes.
  unfoldable pub written_files :
      Writes → EvalState Score Json → Option (Files Score Json) → Files Score Json
  unfolding meta_of result_to_dict
  written_files results_fail s (some old) = record {
    meta = some (meta_of s);
    results = old.results;
  }
  written_files results_fail s none = record { meta = some (meta_of s); results = none }
  written_files _ s old = record {
    meta = some (meta_of s);
    results = some (map result_to_dict s.results);
  }

  -- `_persist_checkpoint`; none is the OSError.
  unfoldable pub persist :
      Writes → EvalState Score Json → Manager Score Json → Option (Manager Score Json)
  unfolding written_files prune
  persist meta_fails s m = none
  persist w s m =
      some
        (prune m.config.max_checkpoints (record m {
          disk = Dict.put m.disk s.eval_id (written_files w s (Dict.get m.disk s.eval_id));
        })).1

  -- The result of `save`: an identifier, or the exception (none).
  unfoldable pub save :
      Library Score Json
      → Writes
      → EvalState Score Json
      → Manager Score Json
      → Option String × Manager Score Json
  unfolding integrity_hash persist forget
  save py w state m =
      let s = record state { integrity_hash = integrity_hash py state } in
      if not m.config.enabled then (some "", m) else elim (persist w s m) [
        | none ↦ (none, m)
        | some n ↦
            (some s.eval_id, record n { checkpoints = forget s.eval_id n.checkpoints ++ (s ∷ []) })
      ]

  -- The state with the results of the file; a result without an identifier raises an exception.
  unfoldable pub with_results :
      Library Score Json
      → Option (List (Meta Score Json))
      → Option (EvalState Score Json)
      → Loaded Score Json
  unfolding read_results
  with_results py results none = raised
  with_results py none (some s) = loaded s
  with_results py (some rds) (some s) = elim (read_results py rds) [
    | none ↦ raised
    | some rs ↦ loaded (record s { results = rs })
  ]

  -- `load` of the content of the files: without a check of the hash, the code reads a variable that
  -- it never set.
  unfoldable pub read_back :
      Library Score Json
      → Bool
      → Meta Score Json
      → Option (List (Meta Score Json))
      → Loaded Score Json
  unfolding hash_from_meta with_results read_state meta_string Dict.get Dict.put
  read_back py verify meta results =
      let stored = meta_string "" (Dict.get meta "integrity_hash") in
      if not (verify && not (str_eq stored ""))
      then raised
      else if str_eq (hash_from_meta py (Dict.put meta "integrity_hash" (a_string ""))) stored
      then with_results py results (read_state py stored meta)
      else absent

  unfoldable pub load_meta :
      Library Score Json
      → Bool
      → Option (Meta Score Json)
      → Option (List (Meta Score Json))
      → Loaded Score Json
  load_meta py verify none results = absent
  load_meta py verify (some meta) results = read_back py verify meta results

  unfoldable pub load_files :
      Library Score Json → Bool → Option (Files Score Json) → Loaded Score Json
  unfolding load_meta
  load_files py verify none = absent
  load_files py verify (some files) = load_meta py verify files.meta files.results

  unfoldable pub load : Library Score Json → String → Manager Score Json → Loaded Score Json
  load py eval_id m = load_files py m.config.verify_integrity (Dict.get m.disk eval_id)
