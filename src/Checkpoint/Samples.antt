-- ===== src/Checkpoint/Samples.antt =====
-- A manager that keeps one checkpoint and has two in its index: saves and loads, and the laws at them.
use existential_identity_tes.Base.{
  ℕ, ◌≡◌, ◌≢◌, refl, ap, String, Bool, true, false, [], ◌∷◌, arith, map,
}
use existential_identity_tes.Base.Text.{codes, str_eq}
use existential_identity_tes.Base.Sort
use existential_identity_tes.Base.Dict
use existential_identity_tes.Checkpoint.{
  meta_number, meta_of, TestResult, EvalState, Library, Manager, written, loaded, to_delete, newer,
  save, load, integrity_hash,
}
use existential_identity_tes.Checkpoint.Index.{new_manager, list_checkpoints}
use existential_identity_tes.Checkpoint.Store.{names, as_kept, load-save}

abbrev py : Library ℕ Bool
py = record {
  str = λ n. n ∷ [];
  str_score = λ n. n ∷ [];
  sha256 = λ text. "9c";
  zero_score = 0;
  empty = false;
}

abbrev state : String → ℕ → EvalState ℕ Bool
state eval_id timestamp = record {
  eval_id = eval_id;
  timestamp = timestamp;
  benchmark = codes "bfcl";
  benchmark_version = codes "4";
  config = true;
  current_index = 1;
  total_tests = 5;
  completed = 1;
  passed = 1;
  total_score = 100;
  results = [];
  session_id = [];
  status = codes "in_progress";
  integrity_hash = "";
}

abbrev manager : Bool → Manager ℕ Bool
manager verify = record {
  config = record { enabled = true; max_checkpoints = 1; verify_integrity = verify };
  checkpoints = state "first" 10 ∷ state "second" 20 ∷ [];
  disk = [];
}

hash_given : integrity_hash py (state "third" 30) ≢ ""
unfolding integrity_hash
hash_given e = differ (ap (λ s. str_eq s "") e)
  where
    differ : false ≡ true → ⊥
    differ f = ground arith

-- The oldest evaluation is saved once more: it is pruned by that save.
resave_pruned : names "first" (to_delete 1 (manager true).checkpoints) ≡ true
unfolding to_delete Sort.sort newer
resave_pruned = refl

third_kept : names "third" (to_delete 1 (manager true).checkpoints) ≡ false
unfolding to_delete Sort.sort newer
third_kept = refl

load-save_example :
    load py "third" (save py written (state "third" 30) (manager true)).1
    ≡ loaded (as_kept py (state "third" 30))
load-save_example = load-save py (state "third" 30) (manager true) refl refl hash_given refl

abbrev result : TestResult ℕ Bool
result = record {
  test_id = "1";
  test_name = "sum";
  passed = true;
  score = 1;
  metrics = true;
  error = [];
  output = [];
  expected = [];
  timestamp = 30;
}

abbrev one_result : EvalState ℕ Bool
one_result = record (state "third" 30) { results = result ∷ [] }

abbrev after_save : Manager ℕ Bool
unfolding save
after_save = (save py written one_result (manager true)).1

-- The result that the process counts is not counted by the next one.
counted_results :
    map (λ c. meta_number 5 (Dict.get c "result_count")) (list_checkpoints py after_save)
    ≡ 0 ∷ 1 ∷ []
unfolding list_checkpoints after_save meta_number meta_of Dict.get to_delete Sort.sort newer
counted_results = refl

counted_after :
    map
      (λ c. meta_number 5 (Dict.get c "result_count"))
      (list_checkpoints py (new_manager py (manager true).config after_save.disk))
    ≡ 0 ∷ []
unfolding list_checkpoints new_manager after_save meta_number meta_of to_delete Sort.sort newer
    Dict.remove Dict.put Dict.get
counted_after = refl
