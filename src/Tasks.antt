-- ===== src/Tasks.antt =====
-- tical_code/core/task_state.py: tasks that outlive the process, one file each. The tasks directory is
-- a dictionary by the name of the task's directory, with the dictionary that the file of the task
-- holds, or none for a file that is no JSON. Times are
-- milliseconds. The lists of actions and errors have their newest entry first.
mod State
pub mod Listing
pub mod Laws
mod Samples
unfoldable pub use State.*
use Prim.Native.String.{◌++◌}
use existential_identity_tes.Base.{
  ℕ, ◌+◌, ◌*◌, max, ltb, leb, if◌then◌else◌, String, Bool, true, false, not, ◌&&◌, ◌||◌, List, [],
  ◌∷◌, map, Option, none, some, length, take, select, all_of,
}
use existential_identity_tes.Base.Text.{str_eq, codes, starts_with}
use existential_identity_tes.Base.Dict

abbrev pub is_closed : TaskStatus → Bool
is_closed completed = true
is_closed failed = true
is_closed _ = false

abbrev pub is_paused : TaskStatus → Bool
is_paused paused = true
is_paused _ = false

-- Whether three errors are at the end of a list and of one kind.
unfoldable pub same_three : List TaskError → Bool
same_three (e ∷ f ∷ g ∷ es) = str_eq e.kind g.kind && str_eq f.kind g.kind
same_three _ = false

module _ {Json : Type 0} where
  unfoldable pub is_done : TaskState Json → Bool
  is_done s = is_closed s.status

  unfoldable pub is_stuck : ℕ → TaskState Json → Bool
  unfolding same_three
  is_stuck now s =
      leb s.max_steps s.step
      || same_three s.errors
      || (ltb 0 s.max_wall_time_seconds && ltb (s.created_at + 1_000 * s.max_wall_time_seconds) now)

  unfoldable pub add_action : Json → TaskState Json → TaskState Json
  add_action action s = record s {
    context_window = record s.context_window {
      recent_actions = take 50 (action ∷ s.context_window.recent_actions);
    };
  }

  unfoldable pub add_error : ℕ → String → List ℕ → ℕ → TaskState Json → TaskState Json
  add_error now kind detail step s = record s {
    errors =
        take 20 (record { kind = kind; detail = detail; step = step; timestamp = now } ∷ s.errors);
  }

  unfoldable pub touch : ℕ → TaskState Json → TaskState Json
  touch now s = record s { updated_at = now }

abbrev pub Disk : Type 0 → Type 0
Disk Json = Dict.Dict (Option (Dict.Dict (Entry Json)))

-- `int(name.split("_")[-1])`, none where it raises, and the format `:03d`, of Python's library. Names
-- with a negative number are left aside.
pub record Library : Type 0 where
  pub last_number : String → Option ℕ
  pub three_digits : ℕ → String

unfoldable pub largest : List ℕ → ℕ
largest [] = 0
largest (n ∷ ns) = max n (largest ns)

-- The given name, or the automatic one.
unfoldable pub chosen : Option String → String → String
chosen none automatic = automatic
chosen (some given) automatic = given

module _ {Json : Type 0} where
  -- `save_state`: whether the writes succeed is given; the state is touched in any case.
  unfoldable pub save_state :
      ℕ → Bool → TaskState Json → Disk Json → Bool × (TaskState Json × Disk Json)
  unfolding touch task_to_dict
  save_state now true s d =
      (true, (touch now s, Dict.put d s.task_id (some (task_to_dict (touch now s)))))
  save_state now false s d = (false, (touch now s, d))

  unfoldable pub readable : ℕ → Option (Option (Dict.Dict (Entry Json))) → Option (TaskState Json)
  unfolding task_from_dict
  readable now none = none
  readable now (some none) = none
  readable now (some (some dict)) = task_from_dict now dict

  unfoldable pub load_state : ℕ → String → Disk Json → Option (TaskState Json)
  load_state now task_id d = readable now (Dict.get d task_id)

  unfoldable pub numbers : Library → String → Disk Json → List ℕ
  numbers py prefix [] = []
  numbers py prefix ((name, file) ∷ d) =
      let rest = numbers py prefix d in
      if starts_with (codes name) (codes prefix)
      then elim (py.last_number name) [ none ↦ rest | some n ↦ n ∷ rest ]
      else rest

  -- `_next_sequence`
  unfoldable pub next_sequence : Library → String → Disk Json → ℕ
  unfolding numbers largest
  next_sequence py prefix d = largest (numbers py prefix d) + 1

  unfoldable pub automatic_id : Library → String → Disk Json → String
  unfolding next_sequence
  automatic_id py today d = "t" ++ (today ++ ("_" ++ py.three_digits (next_sequence py today d)))

  unfoldable pub new_task :
      ℕ → String → List ℕ → List (List ℕ) → String → ℕ → List Json → TaskState Json
  new_task now task_id goal plan model_family max_steps metadata = record {
    task_id = task_id;
    goal = goal;
    status = pending;
    step = 0;
    plan = plan;
    current_plan_step = 0;
    context_window = record { recent_actions = []; summary = []; open_files = [] };
    artifacts = [];
    errors = [];
    model_family = model_family;
    max_steps = max_steps;
    max_wall_time_seconds = 3_600;
    created_at = now;
    updated_at = now;
    metadata = metadata;
  }

  unfoldable pub create_task :
      Library
      → ℕ
      → ℕ
      → Bool
      → String
      → Option String
      → List ℕ
      → List (List ℕ)
      → String
      → ℕ
      → List Json
      → Disk Json
      → TaskState Json × Disk Json
  unfolding new_task chosen
  create_task py now later writes today task_id goal plan model_family max_steps metadata d =
      (save_state later writes
        (new_task now (chosen task_id (automatic_id py today d)) goal plan model_family max_steps
          metadata)
        d).1

  unfoldable pub complete_task :
      ℕ → Bool → TaskState Json → Disk Json → Bool × (TaskState Json × Disk Json)
  unfolding save_state
  complete_task now writes s d = save_state now writes (record s { status = completed }) d

  unfoldable pub fail_task :
      ℕ → ℕ → Bool → List ℕ → TaskState Json → Disk Json → Bool × (TaskState Json × Disk Json)
  unfolding save_state add_error
  fail_task now later writes reason s d =
      save_state later writes (add_error now "fatal" reason s.step (record s { status = failed })) d

  unfoldable pub pause_task :
      ℕ → Bool → TaskState Json → Disk Json → Bool × (TaskState Json × Disk Json)
  unfolding save_state
  pause_task now writes s d = save_state now writes (record s { status = paused }) d

  unfoldable pub resume_loaded :
      ℕ → Bool → Option (TaskState Json) → Disk Json → Option (TaskState Json) × Disk Json
  unfolding save_state
  resume_loaded now writes none d = (none, d)
  resume_loaded now writes (some s) d =
      if is_paused s.status
      then (let (ok, (t, e)) = save_state now writes (record s { status = running }) d in
          (some t, e))
      else (none, d)

  unfoldable pub resume_task :
      ℕ → ℕ → Bool → String → Disk Json → Option (TaskState Json) × Disk Json
  unfolding load_state resume_loaded readable
  resume_task loading now writes task_id d =
      resume_loaded now writes (load_state loading task_id d) d

  -- `updated_at < now - max_age_hours * 3600`, where the time is there.
  unfoldable pub is_old : ℕ → ℕ → Option (Entry Json) → Bool
  is_old now max_age_hours (some (a_value (a_number updated))) =
      ltb (updated + 3_600_000 * max_age_hours) now
  is_old now max_age_hours _ = false

  abbrev pub has_status : (TaskStatus → Bool) → Dict.Dict (Entry Json) → Bool
  has_status p dict = elim (get_status (Dict.get dict "status")) [ none ↦ false | some s ↦ p s ]

  -- What `cleanup_completed` removes.
  unfoldable pub is_stale : ℕ → ℕ → Option (Dict.Dict (Entry Json)) → Bool
  unfolding is_old get_status Dict.get
  is_stale now max_age_hours none = false
  is_stale now max_age_hours (some dict) =
      has_status is_closed dict && is_old now max_age_hours (Dict.get dict "updated_at")

  unfoldable pub cleanup_completed : ℕ → ℕ → Disk Json → ℕ × Disk Json
  unfolding is_stale
  cleanup_completed now max_age_hours d = (
    length (select (λ e. is_stale now max_age_hours e.1) d),
    select (λ e. not (is_stale now max_age_hours e.1)) d,
  )
