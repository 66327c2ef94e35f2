-- ===== src/Cron/Samples.antt =====
-- Two jobs that are added, run and read back, and the theorems at them.
use Prim.Native.String.{String}
use existential_identity_tes.Base.{
  ◌≡◌, refl, ℕ, true, false, List, [], ◌∷◌, Option, none, some, map, ◌<◌, ◌≤◌,
}
use existential_identity_tes.Base.Dict
use existential_identity_tes.Base.Sort.{sort}
use existential_identity_tes.Cron.{
  Python, IsPython, CronJob, CronManager, World, Readings, RunResult, tool, prompt, shell,
  every_minute, every_5_minutes, hourly, from_string, replied, returned, NewJob, get_job, load_jobs,
  new_process, tick, job_interval, object_at, list_jobs, finish_job, remove_job, note_result,
}
use existential_identity_tes.Cron.Stored.{IsStored}
use existential_identity_tes.Cron.Ticks.{AfterTick, tick_lem}
use existential_identity_tes.Cron.History.{
  Op, adds, disables, reloads, ticks, run, empty_manager, run-IsStored,
}
use existential_identity_tes.Cron.Restart.{restored}
use existential_identity_tes.Cron.Failing.{ran_times, loaded_fails}
use existential_identity_tes.Cron.Removed.{removed_returns}
use existential_identity_tes.Cron.Guarded.{
  cron_adds, calls, take_turns, NoShell, take_turns-NoShell,
}

-- Texts, and one dictionary.
data Value : Type 0 where
  word : String → Value
  table : Value

abbrev dumps : Value → String
dumps (word s) = String.◌∷◌ "w" s
dumps table = String.[]

abbrev loads : String → Option Value
loads String.[] = some table
loads (String.◌∷◌ c s) = some (word s)

abbrev as_dict : Value → Option (Dict.Dict Value)
as_dict (word s) = none
as_dict table = some (("cmd", word "ls") ∷ ("text", word "hi") ∷ [])

abbrev py : Python Value
py = record {
  dumps = dumps;
  loads = loads;
  text = word;
  object = λ d. table;
  as_dict = as_dict;
  is_true = λ v. true;
  prefix = λ n s. s;
}

loads-dumps : (v : Value) → loads (dumps v) ≡ some v
loads-dumps (word s) = refl
loads-dumps table = refl

lawful : IsPython py
lawful = record { loads-dumps = loads-dumps; as_dict-text = λ s. refl }

abbrev decimal : ℕ → String
decimal n = "60"

abbrev world : World Value
world = record {
  execute_tool = some (λ s. replied true (some "done") none);
  handler = λ v. none;
  safety_check = λ v. none;
  shell = λ v n. returned none;
  excerpt = λ v. some "hi";
  show = λ v. "v";
  number = λ n. table;
  attribute_error = λ v. "AttributeError";
  type_error = "TypeError";
}

abbrev readings : Readings
readings = record { queued = 5; ran = 6; planned = 7 }

abbrev job : CronJob Value
job = record {
  job_id = "health";
  name = "Health";
  description = "";
  schedule = every_minute;
  interval_seconds = 0;
  task_type = shell;
  task_params = table;
  enabled = true;
  last_run = none;
  next_run = none;
  run_count = 0;
  fail_count = 0;
  last_result = none;
  max_failures = 3;
  timeout = 60;
  verified = true;
  created_by = "system";
  review_source = none;
  allowed_roles = [];
  sandbox_level = "open";
  created_at = 1;
}

abbrev ops : List (Op Value)
ops =
    adds 2 "cron_1" job
    ∷ adds 3 "cron_2" (record job { job_id = ""; task_type = prompt })
    ∷ ticks 4 (λ k. (world, readings))
    ∷ []

-- The table is loaded in between, and only one job is saved after that.
abbrev loading_ops : List (Op Value)
loading_ops =
    adds 2 "cron_1" job
    ∷ adds 3 "cron_2" (record job { job_id = ""; task_type = prompt })
    ∷ reloads
    ∷ disables "health"
    ∷ []

abbrev manager : CronManager Value
manager = run py decimal ops (empty_manager py decimal)

abbrev job_after : CronJob Value → CronJob Value
job_after j = record j {
  last_run = some 6;
  next_run = some 60_007;
  run_count = 1;
  last_result = some "done";
}

-- Both jobs have run once and are planned in a minute.
get_job_test : get_job manager "health" ≡ some (job_after job)
unfolding run get_job empty_manager Dict.get Dict.put job_interval
get_job_test = refl

list_jobs_test :
    map (λ j. j.last_result) (list_jobs true manager)
    ≡ some "done" ∷ some "Prompt queued for AI: hi..." ∷ []
unfolding run empty_manager list_jobs sort Dict.get Dict.put job_interval
list_jobs_test = refl

from_string_test :
    map from_string (" Hourly " ∷ "minutes" ∷ "weekly" ∷ [])
    ≡ hourly ∷ every_5_minutes ∷ every_minute ∷ []
unfolding from_string
from_string_test = refl

run-IsStored_example : IsStored py (run py decimal loading_ops (empty_manager py decimal))
run-IsStored_example = run-IsStored py decimal loading_ops

tick_lem_example :
    AfterTick py decimal 70_000
      (λ k. (world, readings))
      (get_job manager "health")
      (get_job (tick py decimal 70_000 (λ k. (world, readings)) manager) "health")
tick_lem_example =
    tick_lem py decimal 70_000 (λ k. (world, readings))
      (run py decimal ops (empty_manager py decimal)) "health" (run-IsStored py decimal ops)

loaded_test :
    get_job (load_jobs py (new_process manager)) "health" ≡ some (restored py (job_after job))
unfolding run get_job empty_manager Dict.get Dict.put Dict.remove job_interval load_jobs new_process
loaded_test = refl

listed_test : Dict.get manager.jobs "health" ≡ some 0
unfolding run get_job empty_manager Dict.get Dict.put job_interval
listed_test = refl

object_test : object_at manager 0 ≡ some (job_after job)
unfolding run get_job empty_manager Dict.get Dict.put job_interval
object_test = refl

loaded_fails_example :
    let job' = ran_times py decimal 3 (λ k. (world, readings)) (restored py (job_after job)) in
    (job'.fail_count ≡ 3) × (0 < 3 → 3 ≤ 3 → job'.enabled ≡ false)
loaded_fails_example =
    loaded_fails py decimal ops "health" (restored py (job_after job)) (λ k. (world, readings)) 3
      lawful loaded_test

abbrev outcome : RunResult
outcome = record { success = true; reply = some "done"; error = none }

removed_returns_example :
    let m = finish_job py readings outcome 0 (remove_job "health" manager).1 in
    (get_job m "health" ≡ none)
    × (get_job (load_jobs py (new_process m)) "health"
        ≡ some (restored py (note_result py readings outcome (job_after job))))
removed_returns_example =
    removed_returns py manager readings outcome "health" 0 (job_after job) lawful
      (run-IsStored py decimal ops) listed_test object_test

abbrev request : NewJob Value
request = record {
  name = "List";
  schedule = "hourly";
  task_type = shell;
  task_params = none;
  description = "";
  verified = false;
  timeout = 60;
  max_failures = 3;
  interval_seconds = 0;
}

take_turns-NoShell_example : NoShell py (
    take_turns py decimal
      (cron_adds 8 9 "cron_3" request
        ∷ cron_adds 8 9 "cron_4" (record request { task_type = tool })
        ∷ calls reloads
        ∷ [])
      (empty_manager py decimal))
unfolding empty_manager
take_turns-NoShell_example =
    take_turns-NoShell py decimal
      (cron_adds 8 9 "cron_3" request
        ∷ cron_adds 8 9 "cron_4" (record request { task_type = tool })
        ∷ calls reloads
        ∷ [])
      (empty_manager py decimal) (tt, (tt, (tt, tt))) (tt, tt)
