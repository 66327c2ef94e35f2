-- ===== src/Cron.antt =====
-- tical_code/core/cron.py: CronManager, its ticks and the tools of the model. A job is an object: the
-- dictionary of the jobs holds its number, and an execution that awaits its task holds it too. Each
-- writes its own row. Writes to the database succeed. Times are milliseconds.
mod Schedule
mod Job
mod Task
mod Manager
pub mod Stored
pub mod Adding
pub mod Runs
pub mod Ticks
pub mod Loading
pub mod History
pub mod Restart
pub mod Failing
pub mod Removed
pub mod Guarded
pub mod Effects
mod Samples
unfoldable pub use Schedule.*
unfoldable pub use Job.*
unfoldable pub use Task.*
unfoldable pub use Manager.*
use mathlib.Core.Option
use existential_identity_tes.Base.{
  ℕ, suc, ◌+◌, ◌-◌, if◌then◌else◌, String, Bool, true, false, not, List, [], ◌∷◌, ◌++◌, map, Option,
  none, some, length, get_elem?, modify, select,
}
use existential_identity_tes.Base.Text.{str_eq, elem}
use existential_identity_tes.Base.Dict

module _ {Json : Type 0} where
  unfoldable pub set_job : ℕ → (CronJob Json → CronJob Json) → CronManager Json → CronManager Json
  set_job i f m = record m { objects = modify m.objects i f }

  -- The object and its entry in the dictionary.
  unfoldable pub list_job : CronJob Json → CronManager Json → CronManager Json
  list_job job m = record m {
    objects = m.objects ++ job ∷ [];
    jobs = Dict.put m.jobs job.job_id (length m.objects);
  }

  unfoldable pub remove_job : String → CronManager Json → Bool × CronManager Json
  remove_job job_id m = elim (Dict.get m.jobs job_id) [
    | none ↦ (false, m)
    | some i ↦
        (true, record m { jobs = Dict.remove m.jobs job_id; rows = Dict.remove m.rows job_id })
  ]

  -- A process that starts anew keeps the rows.
  unfoldable pub new_process : CronManager Json → CronManager Json
  new_process m = record { objects = []; jobs = []; rows = m.rows; prompts = [] }

module _ {Json : Type 0} (py : Python Json) where
  unfoldable pub save_job : ℕ → CronManager Json → CronManager Json
  unfolding save_row job_row
  save_job i m = elim (object_at m i) [
    | none ↦ m
    | some job ↦ record m { rows = save_row (job_row py job) m.rows }
  ]

  unfoldable pub add_job : ℕ → String → CronJob Json → CronManager Json → String × CronManager Json
  unfolding keep_state name_job get_job list_job save_job
  add_job now fresh job m =
      let named = name_job fresh job in
      let kept = keep_state now (get_job m named.job_id) named in
      (named.job_id, save_job (length m.objects) (list_job kept m))

  -- A change of a listed job that is saved.
  unfoldable pub update_job :
      (CronJob Json → CronJob Json) → String → CronManager Json → Bool × CronManager Json
  unfolding set_job save_job
  update_job f job_id m = elim (Dict.get m.jobs job_id) [
    | none ↦ (false, m)
    | some i ↦ (true, save_job i (set_job i f m))
  ]

  unfoldable pub enable_job : ℕ → String → CronManager Json → Bool × CronManager Json
  unfolding update_job calculate_next_run
  enable_job now = update_job (λ job. record job {
    enabled = true;
    fail_count = 0;
    next_run = some (calculate_next_run now job);
  })

  unfoldable pub disable_job : String → CronManager Json → Bool × CronManager Json
  unfolding update_job
  disable_job = update_job (λ job. record job { enabled = false })

  unfoldable pub load_each : List (String × Row) → CronManager Json → CronManager Json
  unfolding list_job row_job
  load_each [] m = m
  load_each (e ∷ es) m = load_each es (list_job (row_job py e.1) m)

  unfoldable pub load_jobs : CronManager Json → CronManager Json
  unfolding load_each
  load_jobs m = load_each m.rows (record m { jobs = [] })

  -- execute_job after its task: the object is changed and saved, listed or not.
  unfoldable pub finish_job : Readings → RunResult → ℕ → CronManager Json → CronManager Json
  unfolding set_job save_job note_result
  finish_job t o i m = save_job i (set_job i (note_result py t o) m)

  unfoldable pub queue_prompts : ℕ → CronJob Json → CronManager Json → CronManager Json
  unfolding queued_prompt
  queue_prompts now job m = record m { prompts = m.prompts ++ queued_prompt py now job }

  -- execute_job with nothing between its task and its end.
  unfoldable pub execute_job :
      (ℕ → String) → World Json → Readings → ℕ → CronManager Json → CronManager Json
  unfolding job_outcome queue_prompts finish_job
  execute_job decimal w t i m = elim (object_at m i) [
    | none ↦ m
    | some job ↦ finish_job t (job_outcome py decimal w job) i (queue_prompts t.queued job m)
  ]

  -- The loop of tick, over the jobs that were due at its start.
  unfoldable pub execute_each :
      (ℕ → String) → (ℕ → World Json × Readings) → List ℕ → CronManager Json → CronManager Json
  unfolding execute_job
  execute_each decimal world [] m = m
  execute_each decimal world (i ∷ is) m =
      execute_each decimal (λ k. world (suc k)) is (execute_job decimal (world 0).0 (world 0).1 i m)

  unfoldable pub tick :
      (ℕ → String) → ℕ → (ℕ → World Json × Readings) → CronManager Json → CronManager Json
  unfolding get_due_jobs execute_each
  tick decimal now world m = execute_each decimal world (get_due_jobs now m) m

pub record CronStats : Type 0 where
  pub total_jobs : ℕ
  pub enabled_jobs : ℕ
  pub disabled_jobs : ℕ
  pub total_runs : ℕ
  pub total_consecutive_fails : ℕ

abbrev pub sum_of {ℓ} : {A : Type ℓ} → (A → ℕ) → List A → ℕ
sum_of f [] = 0
sum_of f (x ∷ xs) = f x + sum_of f xs

-- What cron_add answers: an error for the schedule or the type, or the job's identifier.
pub data AddReply : Type 0 where
  invalid_schedule shell_refused : AddReply
  added : String → Option ℕ → AddReply

-- The arguments of cron_add.
pub record NewJob (Json : Type 0) : Type 0 where
  pub name : String
  pub schedule : String
  pub task_type : TaskType
  pub task_params : Option Json
  pub description : String
  pub verified : Bool
  pub timeout : ℕ
  pub max_failures : ℕ
  pub interval_seconds : ℕ

abbrev pub is_shell : TaskType → Bool
is_shell shell = true
is_shell _ = false

module _ {Json : Type 0} where
  unfoldable pub get_stats : CronManager Json → CronStats
  unfolding objects_of
  get_stats m =
      let jobs = objects_of m m.jobs in
      let enabled = length (select (λ j. j.enabled) jobs) in
      record {
        total_jobs = length jobs;
        enabled_jobs = enabled;
        disabled_jobs = length jobs - enabled;
        total_runs = sum_of (λ j. j.run_count) jobs;
        total_consecutive_fails = sum_of (λ j. j.fail_count) jobs;
      }

  unfoldable pub cron_list : (ℕ → String) → CronManager Json → List Summary
  unfolding list_jobs to_summary
  cron_list strftime m = map (to_summary strftime) (list_jobs false m)

module _ {Json : Type 0} (py : Python Json) where
  -- The job of cron_add: `task_params or {}`, and what CronJob sets by default.
  unfoldable pub job_of : ℕ → String → NewJob Json → CronJob Json
  unfolding if_true from_string
  job_of created job_id q = record {
    job_id = job_id;
    name = q.name;
    description = q.description;
    schedule = from_string q.schedule;
    interval_seconds = q.interval_seconds;
    task_type = q.task_type;
    task_params = elim (if_true py q.task_params) [ none ↦ py.object [] | some v ↦ v ];
    enabled = true;
    last_run = none;
    next_run = none;
    run_count = 0;
    fail_count = 0;
    last_result = none;
    max_failures = q.max_failures;
    timeout = q.timeout;
    verified = q.verified;
    created_by = "ai";
    review_source = none;
    allowed_roles = "user" ∷ [];
    sandbox_level = "restricted";
    created_at = created;
  }

  -- The identifier is a fresh one of uuid; the clock is read for the job and when it is added.
  unfoldable pub cron_add :
      ℕ → ℕ → String → NewJob Json → CronManager Json → AddReply × CronManager Json
  unfolding job_of add_job schedule_value keep_state
  cron_add created now fresh q m =
      if not (elem q.schedule (map schedule_value schedules))
      then (invalid_schedule, m)
      else (if is_shell q.task_type
          then (shell_refused, m)
          else (let job = job_of created fresh q in
              let (job_id, m') = add_job py now fresh job m in
              (added job_id (keep_state now (get_job m job_id) job).next_run, m')))
