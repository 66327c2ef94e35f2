-- ===== src/Tasks/State.antt =====
-- The state of a task of tical_code/core/task_state.py, and the dictionary that its file holds. A
-- dictionary has the values that to_dict gives to its keys, where it has the keys.
use existential_identity_tes.Base.{◌≡◌, refl, ℕ, String, List, [], ◌∷◌, Option, none, some}
use existential_identity_tes.Base.Dict

-- TASK_STATES
pub data TaskStatus : Type 0 where
  pending running completed failed paused : TaskStatus

pub record TaskError : Type 0 where
  pub kind : String
  pub detail : List ℕ
  pub step : ℕ
  pub timestamp : ℕ

pub record TaskContextWindow (Json : Type 0) : Type 0 where
  pub recent_actions : List Json
  pub summary : List ℕ
  pub open_files : List String

pub record TaskState (Json : Type 0) : Type 0 where
  pub task_id : String
  pub goal : List ℕ
  pub status : TaskStatus
  pub step : ℕ
  pub plan : List (List ℕ)
  pub current_plan_step : ℕ
  pub context_window : TaskContextWindow Json
  pub artifacts : List String
  pub errors : List TaskError
  pub model_family : String
  pub max_steps : ℕ
  pub max_wall_time_seconds : ℕ
  pub created_at : ℕ
  pub updated_at : ℕ
  pub metadata : List Json

unfoldable pub status_or_pending : Option TaskStatus → TaskStatus
status_or_pending none = pending
status_or_pending (some s) = s

module _ (Json : Type 0) where
  pub data TaskValue : Type 0 where
    a_string : String → TaskValue
    a_text : List ℕ → TaskValue
    a_number : ℕ → TaskValue
    a_status : TaskStatus → TaskValue
    strings : List String → TaskValue
    texts : List (List ℕ) → TaskValue
    objects : List Json → TaskValue
    error_list : List TaskError → TaskValue

  -- A value, or the dictionary of the context window.
  pub data Entry : Type 0 where
    a_value : TaskValue → Entry
    window : Dict.Dict TaskValue → Entry

module _ {Json : Type 0} where
  -- What a key has, or the default of `get`.
  unfoldable pub get_string : String → Option (Entry Json) → String
  get_string _ (some (a_value (a_string s))) = s
  get_string default _ = default

  unfoldable pub get_text : List ℕ → Option (Entry Json) → List ℕ
  get_text _ (some (a_value (a_text t))) = t
  get_text default _ = default

  unfoldable pub get_number : ℕ → Option (Entry Json) → ℕ
  get_number _ (some (a_value (a_number n))) = n
  get_number default _ = default

  unfoldable pub get_status : Option (Entry Json) → Option TaskStatus
  get_status (some (a_value (a_status s))) = some s
  get_status _ = none

  unfoldable pub get_strings : Option (Entry Json) → List String
  get_strings (some (a_value (strings ss))) = ss
  get_strings _ = []

  unfoldable pub get_texts : Option (Entry Json) → List (List ℕ)
  get_texts (some (a_value (texts ts))) = ts
  get_texts _ = []

  unfoldable pub get_objects : Option (Entry Json) → List Json
  get_objects (some (a_value (objects js))) = js
  get_objects _ = []

  unfoldable pub get_errors : Option (Entry Json) → List TaskError
  get_errors (some (a_value (error_list es))) = es
  get_errors _ = []

  unfoldable pub get_window : Option (Entry Json) → Dict.Dict (TaskValue Json)
  get_window (some (window d)) = d
  get_window _ = []

  unfoldable pub entry : Option (TaskValue Json) → Option (Entry Json)
  entry none = none
  entry (some v) = some (a_value v)

  -- `TaskContextWindow.to_dict` and `from_dict`
  unfoldable pub window_to_dict : TaskContextWindow Json → Dict.Dict (TaskValue Json)
  window_to_dict w =
      ("recent_actions", objects w.recent_actions)
      ∷ ("summary", a_text w.summary)
      ∷ ("open_files", strings w.open_files)
      ∷ []

  unfoldable pub window_from_dict : Dict.Dict (TaskValue Json) → TaskContextWindow Json
  unfolding Dict.get get_objects get_text get_strings entry
  window_from_dict d = record {
    recent_actions = get_objects (entry (Dict.get d "recent_actions"));
    summary = get_text [] (entry (Dict.get d "summary"));
    open_files = get_strings (entry (Dict.get d "open_files"));
  }

  -- `TaskState.to_dict`
  unfoldable pub task_to_dict : TaskState Json → Dict.Dict (Entry Json)
  unfolding window_to_dict
  task_to_dict s =
      ("task_id", a_value (a_string s.task_id))
      ∷ ("goal", a_value (a_text s.goal))
      ∷ ("status", a_value (a_status s.status))
      ∷ ("step", a_value (a_number s.step))
      ∷ ("plan", a_value (texts s.plan))
      ∷ ("current_plan_step", a_value (a_number s.current_plan_step))
      ∷ ("context_window", window (window_to_dict s.context_window))
      ∷ ("artifacts", a_value (strings s.artifacts))
      ∷ ("errors", a_value (error_list s.errors))
      ∷ ("model_family", a_value (a_string s.model_family))
      ∷ ("max_steps", a_value (a_number s.max_steps))
      ∷ ("max_wall_time_seconds", a_value (a_number s.max_wall_time_seconds))
      ∷ ("created_at", a_value (a_number s.created_at))
      ∷ ("updated_at", a_value (a_number s.updated_at))
      ∷ ("metadata", a_value (objects s.metadata))
      ∷ []

  -- `TaskState.from_dict` of a dictionary with an identifier, with `__post_init__`, which sets the
  -- times that are missing.
  unfoldable pub task_of : ℕ → String → Dict.Dict (Entry Json) → TaskState Json
  unfolding window_from_dict status_or_pending get_string get_text get_number get_status get_strings
      get_texts get_objects get_errors get_window Dict.get
  task_of now task_id d =
      let created = get_number now (Dict.get d "created_at") in
      record {
        task_id = task_id;
        goal = get_text [] (Dict.get d "goal");
        status = status_or_pending (get_status (Dict.get d "status"));
        step = get_number 0 (Dict.get d "step");
        plan = get_texts (Dict.get d "plan");
        current_plan_step = get_number 0 (Dict.get d "current_plan_step");
        context_window = window_from_dict (get_window (Dict.get d "context_window"));
        artifacts = get_strings (Dict.get d "artifacts");
        errors = get_errors (Dict.get d "errors");
        model_family = get_string "" (Dict.get d "model_family");
        max_steps = get_number 50 (Dict.get d "max_steps");
        max_wall_time_seconds = get_number 3_600 (Dict.get d "max_wall_time_seconds");
        created_at = created;
        updated_at = get_number created (Dict.get d "updated_at");
        metadata = get_objects (Dict.get d "metadata");
      }

  -- `TaskState.from_dict`; none is the KeyError of a missing identifier.
  unfoldable pub task_from_dict : ℕ → Dict.Dict (Entry Json) → Option (TaskState Json)
  unfolding task_of Dict.get
  task_from_dict now d = elim (Dict.get d "task_id") [
    | none ↦ none
    | some e ↦ some (task_of now (get_string "" (some e)) d)
  ]

  pub task_from_dict-task_to_dict :
      (now : ℕ) (s : TaskState Json) → task_from_dict now (task_to_dict s) ≡ some s
  unfolding task_from_dict task_to_dict
  task_from_dict-task_to_dict now s = refl
