-- ===== src/Cron/Job.antt =====
-- CronJob of tical_code/core/cron.py and its row in the table. Times are milliseconds. json and the
-- tests of types are Python's. SQLite and Python keep a Boolean through its number.
use existential_identity_tes.Base.{
  ℕ, zero, ◌+◌, ◌*◌, leb, if◌then◌else◌, String, Bool, true, false, List, [], ◌∷◌, Option, none,
  some, ◌≡◌,
}
use existential_identity_tes.Base.Dict
use existential_identity_tes.Cron.Schedule.{
  CronSchedule, custom, get_interval, schedule_value, from_string,
}

-- json.dumps, json.loads (nothing where it raises), a text and a dictionary as values, whether a
-- value is a dictionary, whether it counts as true, and `str(value)[:n]`.
pub record Python (Json : Type 0) : Type 0 where
  pub dumps : Json → String
  pub loads : String → Option Json
  pub text : String → Json
  pub object : Dict.Dict Json → Json
  pub as_dict : Json → Option (Dict.Dict Json)
  pub is_true : Json → Bool
  pub prefix : ℕ → String → String

-- What is written is read back, and a text is no dictionary.
pub record IsPython {Json : Type 0} (py : Python Json) : Type 0 where
  pub loads-dumps : (v : Json) → py.loads (py.dumps v) ≡ some v
  pub as_dict-text : (s : String) → py.as_dict (py.text s) ≡ none

pub data TaskType : Type 0 where
  tool prompt shell : TaskType
  unknown : String → TaskType

pub record CronJob (Json : Type 0) : Type 0 where
  pub job_id : String
  pub name : String
  pub description : String
  pub schedule : CronSchedule
  pub interval_seconds : ℕ
  pub task_type : TaskType
  pub task_params : Json
  pub enabled : Bool
  pub last_run : Option ℕ
  pub next_run : Option ℕ
  pub run_count : ℕ
  pub fail_count : ℕ
  pub last_result : Option String
  pub max_failures : ℕ
  pub timeout : ℕ
  pub verified : Bool
  pub created_by : String
  pub review_source : Option String
  pub allowed_roles : List String
  pub sandbox_level : String
  pub created_at : ℕ

-- A row of cron_jobs.
pub record Row : Type 0 where
  pub job_id : String
  pub name : String
  pub description : String
  pub schedule : String
  pub interval_seconds : ℕ
  pub task_type : TaskType
  pub task_params : String
  pub enabled : Bool
  pub last_run : Option ℕ
  pub next_run : Option ℕ
  pub run_count : ℕ
  pub fail_count : ℕ
  pub last_result : Option String
  pub max_failures : ℕ
  pub timeout : ℕ
  pub verified : Bool
  pub created_by : String
  pub review_source : Option String
  pub created_at : ℕ

abbrev pub is_custom : CronSchedule → Bool
is_custom custom = true
is_custom _ = false

module _ {Json : Type 0} where
  -- The interval that calculate_next_run takes, in seconds.
  unfoldable pub job_interval : CronJob Json → ℕ
  unfolding get_interval
  job_interval job =
      if is_custom job.schedule
      then (if leb 1 job.interval_seconds then job.interval_seconds else 60)
      else get_interval job.schedule

  unfoldable pub calculate_next_run : ℕ → CronJob Json → ℕ
  calculate_next_run now job = now + job_interval job * 1000

module _ {Json : Type 0} (py : Python Json) where
  -- to_dict and the values of _save_job: the parameters go through json.dumps twice.
  unfoldable pub job_row : CronJob Json → Row
  unfolding schedule_value
  job_row job = record {
    job_id = job.job_id;
    name = job.name;
    description = job.description;
    schedule = schedule_value job.schedule;
    interval_seconds = job.interval_seconds;
    task_type = job.task_type;
    task_params = py.dumps (py.text (py.dumps job.task_params));
    enabled = job.enabled;
    last_run = job.last_run;
    next_run = job.next_run;
    run_count = job.run_count;
    fail_count = job.fail_count;
    last_result = job.last_result;
    max_failures = job.max_failures;
    timeout = job.timeout;
    verified = job.verified;
    created_by = job.created_by;
    review_source = job.review_source;
    created_at = job.created_at;
  }

  unfoldable pub parse_params : String → Json
  parse_params s = elim (py.loads s) [ none ↦ py.object [] | some v ↦ v ]

  -- The dictionary of load_jobs, and from_dict.
  unfoldable pub row_job : Row → CronJob Json
  unfolding from_string parse_params
  row_job row = record {
    job_id = row.job_id;
    name = row.name;
    description = row.description;
    schedule = from_string row.schedule;
    interval_seconds = row.interval_seconds;
    task_type = row.task_type;
    task_params = parse_params row.task_params;
    enabled = row.enabled;
    last_run = row.last_run;
    next_run = row.next_run;
    run_count = row.run_count;
    fail_count = row.fail_count;
    last_result = row.last_result;
    max_failures = row.max_failures;
    timeout = row.timeout;
    verified = row.verified;
    created_by = row.created_by;
    review_source = row.review_source;
    allowed_roles = "user" ∷ [];
    sandbox_level = "restricted";
    created_at = row.created_at;
  }

pub record Summary : Type 0 where
  pub job_id : String
  pub name : String
  pub description : String
  pub schedule : String
  pub task_type : TaskType
  pub status : String
  pub last_run : String
  pub next_run : String
  pub run_count : ℕ
  pub fail_count : ℕ
  pub created_by : String

-- A time as text, where it counts as true.
unfoldable pub show_time : (ℕ → String) → String → Option ℕ → String
show_time strftime missing none = missing
show_time strftime missing (some zero) = missing
show_time strftime missing (some t) = strftime t

unfoldable pub to_summary : {Json : Type 0} → (ℕ → String) → CronJob Json → Summary
unfolding schedule_value show_time
to_summary strftime job = record {
  job_id = job.job_id;
  name = job.name;
  description = job.description;
  schedule = schedule_value job.schedule;
  task_type = job.task_type;
  status =
      if leb job.max_failures job.fail_count
      then "FAILED (auto-disabled)"
      else (if job.enabled then "enabled" else "disabled");
  last_run = show_time strftime "Never" job.last_run;
  next_run = show_time strftime "N/A" job.next_run;
  run_count = job.run_count;
  fail_count = job.fail_count;
  created_by = job.created_by;
}
