-- ===== src/Cron/Manager.antt =====
-- The state of CronManager of tical_code/core/cron.py, and what its operations look up, keep and note.
use existential_identity_tes.Base.{
  ℕ, zero, suc, ◌+◌, leb, if◌then◌else◌, String, Bool, true, false, List, [], ◌∷◌, ◌++◌, Option,
  none, some, get_elem?, select,
}
use existential_identity_tes.Base.Text.{str_eq}
use existential_identity_tes.Base.Dict
use existential_identity_tes.Base.Sort.{sort}
use existential_identity_tes.Cron.Job.{Python, CronJob, Row, calculate_next_run}
use existential_identity_tes.Cron.Task.{Prompt, RunResult}

pub record CronManager (Json : Type 0) : Type 0 where
  pub objects : List (CronJob Json)
  pub jobs : Dict.Dict ℕ
  pub rows : Dict.Dict Row
  pub prompts : List (Prompt Json)

-- The readings of the clock in one execution: when a prompt is queued, when the task is over, and
-- when the next run is planned.
pub record Readings : Type 0 where
  pub queued : ℕ
  pub ran : ℕ
  pub planned : ℕ

-- INSERT OR REPLACE: the row is the last one then.
unfoldable pub save_row : Row → Dict.Dict Row → Dict.Dict Row
save_row row rows = Dict.remove rows row.job_id ++ (row.job_id, row) ∷ []

-- `str(result.get('data'))`
abbrev pub reply_text : Option String → String
reply_text none = "None"
reply_text (some s) = s

-- `result.get('error') or str(result.get('data'))`
unfoldable pub last_text : Option String → Option String → String
last_text none reply = reply_text reply
last_text (some e) reply = if str_eq e "" then reply_text reply else e

-- `job.next_run or float('inf')`, compared
unfoldable pub runs_before : Option ℕ → Option ℕ → Bool
runs_before t none = true
runs_before t (some zero) = true
runs_before none (some (suc u)) = false
runs_before (some zero) (some (suc u)) = false
runs_before (some (suc t)) (some (suc u)) = leb t u

module _ {Json : Type 0} where
  abbrev pub object_at : CronManager Json → ℕ → Option (CronJob Json)
  object_at m i = get_elem? m.objects i

  -- self._jobs.get(job_id)
  unfoldable pub get_job : CronManager Json → String → Option (CronJob Json)
  get_job m job_id = elim (Dict.get m.jobs job_id) [ none ↦ none | some i ↦ object_at m i ]

  unfoldable pub objects_of : CronManager Json → List (String × ℕ) → List (CronJob Json)
  objects_of m [] = []
  objects_of m (e ∷ es) =
      let rest = objects_of m es in elim (object_at m e.1) [ none ↦ rest | some job ↦ job ∷ rest ]

  -- What add_job keeps of a job that is listed under the same identifier.
  unfoldable pub keep_state : ℕ → Option (CronJob Json) → CronJob Json → CronJob Json
  keep_state now (some existing) job = record job {
    next_run = existing.next_run;
    run_count = existing.run_count;
    fail_count = existing.fail_count;
    last_run = existing.last_run;
  }
  keep_state now none job = record job {
    next_run = elim job.next_run [ none ↦ some now | some t ↦ some t ];
  }

  unfoldable pub name_job : String → CronJob Json → CronJob Json
  name_job fresh job = record job { job_id = if str_eq job.job_id "" then fresh else job.job_id }

  -- What execute_job notes in the job after its task.
  unfoldable pub note_result : Python Json → Readings → RunResult → CronJob Json → CronJob Json
  unfolding calculate_next_run last_text
  note_result py t o job =
      let fails = if o.success then 0 else job.fail_count + 1 in
      record job {
        last_run = some t.ran;
        run_count = job.run_count + 1;
        fail_count = fails;
        enabled =
            if o.success
            then job.enabled
            else (if leb job.max_failures fails then false else job.enabled);
        next_run = some (calculate_next_run t.planned job);
        last_result = some (py.prefix 1000 (last_text o.error o.reply));
      }

  -- `not job.enabled`, no next run, or one that is still to come: not due.
  unfoldable pub is_due_job : ℕ → CronJob Json → Bool
  is_due_job now job =
      if job.enabled then (elim job.next_run [ none ↦ false | some t ↦ leb t now ]) else false

  unfoldable pub due_entries : ℕ → CronManager Json → List (String × ℕ) → List ℕ
  unfolding is_due_job
  due_entries now m [] = []
  due_entries now m (e ∷ es) =
      let rest = due_entries now m es in
      elim (object_at m e.1) [
        | none ↦ rest
        | some job ↦ if is_due_job now job then e.1 ∷ rest else rest
      ]

  unfoldable pub get_due_jobs : ℕ → CronManager Json → List ℕ
  unfolding due_entries
  get_due_jobs now m = due_entries now m m.jobs

  unfoldable pub list_jobs : Bool → CronManager Json → List (CronJob Json)
  unfolding objects_of runs_before
  list_jobs enabled_only m =
      let jobs = objects_of m m.jobs in
      sort (λ j k. runs_before j.next_run k.next_run)
        (if enabled_only then select (λ j. j.enabled) jobs else jobs)
