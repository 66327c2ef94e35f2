-- ===== src/Checkpoint/State.antt =====
-- The states of evaluations of tical_code/core/checkpoint.py, the dictionaries that are written of
-- them, and the hash. A dictionary has the values that the code writes to its keys, where it has the
-- keys.
use existential_identity_tes.Base.{
  ◌≡◌, refl, ℕ, String, Bool, false, List, [], ◌∷◌, ◌++◌, map, Option, none, some, length, take,
}
use existential_identity_tes.Base.Text.{codes}
use existential_identity_tes.Base.Dict

pub record TestResult (Score Json : Type 0) : Type 0 where
  pub test_id : String
  pub test_name : String
  pub passed : Bool
  pub score : Score
  pub metrics : Json
  pub error : List ℕ
  pub output : List ℕ
  pub expected : List ℕ
  pub timestamp : ℕ

pub record EvalState (Score Json : Type 0) : Type 0 where
  pub eval_id : String
  pub timestamp : ℕ
  pub benchmark : List ℕ
  pub benchmark_version : List ℕ
  pub config : Json
  pub current_index : ℕ
  pub total_tests : ℕ
  pub completed : ℕ
  pub passed : ℕ
  pub total_score : Score
  pub results : List (TestResult Score Json)
  pub session_id : List ℕ
  pub status : List ℕ
  pub integrity_hash : String

-- `str` of numbers and of scores, SHA-256 in hexadecimal, `0.0` and `{}`.
pub record Library (Score Json : Type 0) : Type 0 where
  pub str : ℕ → List ℕ
  pub str_score : Score → List ℕ
  pub sha256 : List ℕ → String
  pub zero_score : Score
  pub empty : Json

pub data MetaValue (Score Json : Type 0) : Type 0 where
  a_string : String → MetaValue Score Json
  a_text : List ℕ → MetaValue Score Json
  a_number : ℕ → MetaValue Score Json
  a_flag : Bool → MetaValue Score Json
  a_score : Score → MetaValue Score Json
  a_json : Json → MetaValue Score Json

abbrev pub Meta : Type 0 → Type 0 → Type 0
Meta Score Json = Dict.Dict (MetaValue Score Json)

-- `"|".join(parts)`
unfoldable pub join : List (List ℕ) → List ℕ
join [] = []
join (p ∷ []) = p
join (p ∷ q ∷ parts) = p ++ (b'|' ∷ join (q ∷ parts))

module _ {Score Json : Type 0} where
  -- What a key has, or the default of `get`.
  unfoldable pub meta_string : String → Option (MetaValue Score Json) → String
  meta_string _ (some (a_string s)) = s
  meta_string default _ = default

  unfoldable pub meta_text : List ℕ → Option (MetaValue Score Json) → List ℕ
  meta_text _ (some (a_text t)) = t
  meta_text default _ = default

  unfoldable pub meta_number : ℕ → Option (MetaValue Score Json) → ℕ
  meta_number _ (some (a_number n)) = n
  meta_number default _ = default

  unfoldable pub meta_flag : Option (MetaValue Score Json) → Bool
  meta_flag (some (a_flag b)) = b
  meta_flag _ = false

  unfoldable pub meta_score : Score → Option (MetaValue Score Json) → Score
  meta_score _ (some (a_score x)) = x
  meta_score default _ = default

  unfoldable pub meta_json : Json → Option (MetaValue Score Json) → Json
  meta_json _ (some (a_json j)) = j
  meta_json default _ = default

  -- `TestResult.to_dict`
  unfoldable pub result_to_dict : TestResult Score Json → Meta Score Json
  result_to_dict r =
      ("test_id", a_string r.test_id)
      ∷ ("test_name", a_string r.test_name)
      ∷ ("passed", a_flag r.passed)
      ∷ ("score", a_score r.score)
      ∷ ("metrics", a_json r.metrics)
      ∷ ("error", a_text (take 500 r.error))
      ∷ ("timestamp", a_number r.timestamp)
      ∷ []

  -- `EvalState.to_dict`
  unfoldable pub eval_to_dict : EvalState Score Json → Meta Score Json
  eval_to_dict s =
      ("eval_id", a_string s.eval_id)
      ∷ ("timestamp", a_number s.timestamp)
      ∷ ("benchmark", a_text s.benchmark)
      ∷ ("benchmark_version", a_text s.benchmark_version)
      ∷ ("current_index", a_number s.current_index)
      ∷ ("total_tests", a_number s.total_tests)
      ∷ ("completed", a_number s.completed)
      ∷ ("passed", a_number s.passed)
      ∷ ("total_score", a_score s.total_score)
      ∷ ("result_count", a_number (length s.results))
      ∷ ("status", a_text s.status)
      ∷ ("integrity_hash", a_text (take 16 (codes s.integrity_hash)))
      ∷ []

  abbrev set : List (String × MetaValue Score Json) → Meta Score Json → Meta Score Json
  set [] d = d
  set ((k, v) ∷ es) d = set es (Dict.put d k v)

  -- The dictionary of meta.json: that of the state, with more keys set.
  unfoldable pub meta_of : EvalState Score Json → Meta Score Json
  unfolding eval_to_dict Dict.put
  meta_of s =
      set
        (("benchmark_version", a_text s.benchmark_version)
          ∷ ("config", a_json s.config)
          ∷ ("current_index", a_number s.current_index)
          ∷ ("total_tests", a_number s.total_tests)
          ∷ ("completed", a_number s.completed)
          ∷ ("passed", a_number s.passed)
          ∷ ("total_score", a_score s.total_score)
          ∷ ("session_id", a_text s.session_id)
          ∷ ("status", a_text s.status)
          ∷ ("integrity_hash", a_string s.integrity_hash)
          ∷ [])
        (eval_to_dict s)

  -- A result as its dictionary keeps it.
  abbrev pub shortened : TestResult Score Json → TestResult Score Json
  shortened r = record r { error = take 500 r.error; output = []; expected = [] }

module _ {Score Json : Type 0} (py : Library Score Json) where
  -- `_compute_integrity_hash`
  unfoldable pub integrity_hash : EvalState Score Json → String
  unfolding join
  integrity_hash s = py.sha256 (
      join (
        codes s.eval_id
        ∷ py.str s.timestamp
        ∷ s.benchmark
        ∷ py.str s.current_index
        ∷ py.str s.total_tests
        ∷ py.str s.completed
        ∷ py.str s.passed
        ∷ py.str_score s.total_score
        ∷ []))

  -- `_compute_hash_from_meta`
  unfoldable pub hash_from_meta : Meta Score Json → String
  unfolding join meta_string meta_text meta_number meta_score Dict.get
  hash_from_meta meta = py.sha256 (
      join (
        codes (meta_string "" (Dict.get meta "eval_id"))
        ∷ py.str (meta_number 0 (Dict.get meta "timestamp"))
        ∷ meta_text [] (Dict.get meta "benchmark")
        ∷ py.str (meta_number 0 (Dict.get meta "current_index"))
        ∷ py.str (meta_number 0 (Dict.get meta "total_tests"))
        ∷ py.str (meta_number 0 (Dict.get meta "completed"))
        ∷ py.str (meta_number 0 (Dict.get meta "passed"))
        ∷ py.str_score (meta_score py.zero_score (Dict.get meta "total_score"))
        ∷ []))

  -- The state that is made of a meta.json, with an identifier and a hash, without results.
  unfoldable pub eval_of : String → String → Meta Score Json → EvalState Score Json
  unfolding meta_text meta_number meta_score meta_json Dict.get
  eval_of eval_id hash meta = record {
    eval_id = eval_id;
    timestamp = meta_number 0 (Dict.get meta "timestamp");
    benchmark = meta_text [] (Dict.get meta "benchmark");
    benchmark_version = meta_text [] (Dict.get meta "benchmark_version");
    config = meta_json py.empty (Dict.get meta "config");
    current_index = meta_number 0 (Dict.get meta "current_index");
    total_tests = meta_number 0 (Dict.get meta "total_tests");
    completed = meta_number 0 (Dict.get meta "completed");
    passed = meta_number 0 (Dict.get meta "passed");
    total_score = meta_score py.zero_score (Dict.get meta "total_score");
    results = [];
    session_id = meta_text [] (Dict.get meta "session_id");
    status = meta_text (codes "in_progress") (Dict.get meta "status");
    integrity_hash = hash;
  }

  -- The same with `meta["eval_id"]`; none is the KeyError.
  unfoldable pub read_state : String → Meta Score Json → Option (EvalState Score Json)
  unfolding eval_of meta_string Dict.get
  read_state hash meta = elim (Dict.get meta "eval_id") [
    | none ↦ none
    | some v ↦ some (eval_of (meta_string "" (some v)) hash meta)
  ]

  unfoldable pub result_of : String → Meta Score Json → TestResult Score Json
  unfolding meta_string meta_text meta_number meta_flag meta_score meta_json Dict.get
  result_of test_id rd = record {
    test_id = test_id;
    test_name = meta_string "" (Dict.get rd "test_name");
    passed = meta_flag (Dict.get rd "passed");
    score = meta_score py.zero_score (Dict.get rd "score");
    metrics = meta_json py.empty (Dict.get rd "metrics");
    error = meta_text [] (Dict.get rd "error");
    output = [];
    expected = [];
    timestamp = meta_number 0 (Dict.get rd "timestamp");
  }

  -- The results of results.json; none is the KeyError of one without an identifier.
  unfoldable pub read_results : List (Meta Score Json) → Option (List (TestResult Score Json))
  unfolding result_of meta_string Dict.get
  read_results [] = some []
  read_results (rd ∷ rds) = elim (Dict.get rd "test_id") [
    | none ↦ none
    | some v ↦ elim (read_results rds) [
      | none ↦ none
      | some rs ↦ some (result_of (meta_string "" (some v)) rd ∷ rs)
    ]
  ]

  -- What is written of a state hashes as the state does, without its hash too.
  pub hash_from_meta-meta_of :
      (s : EvalState Score Json)
      → hash_from_meta (Dict.put (meta_of s) "integrity_hash" (a_string "")) ≡ integrity_hash s
  unfolding hash_from_meta meta_of integrity_hash
  hash_from_meta-meta_of s = refl

  pub read_state-meta_of :
      (hash : String) (s : EvalState Score Json)
      → read_state hash (meta_of s) ≡ some (record s { integrity_hash = hash; results = [] })
  unfolding read_state meta_of
  read_state-meta_of hash s = refl

  pub stored_hash-meta_of :
      (s : EvalState Score Json)
      → meta_string "" (Dict.get (meta_of s) "integrity_hash") ≡ s.integrity_hash
  unfolding meta_string meta_of Dict.get
  stored_hash-meta_of s = refl

  pub read_results-map :
      (rs : List (TestResult Score Json))
      → read_results (map result_to_dict rs) ≡ some (map shortened rs)
  unfolding read_results result_to_dict
  read_results-map [] = refl
  read_results-map (r ∷ rs) = rw (read_results-map rs) refl
