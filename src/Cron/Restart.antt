-- ===== src/Cron/Restart.antt =====
-- What a new process reads back from the table.
use mathlib.Core.Option
use existential_identity_tes.Base.{
  ◌≡◌, refl, ap, sym, ◌∙◌, ◌⊎◌, ℕ, String, List, [], ◌∷◌, Option, none, some, inl, inr,
}
use existential_identity_tes.Base.Dict
use existential_identity_tes.Cron.{
  Python, IsPython, CronJob, Row, CronManager, CronSchedule, every_minute, every_5_minutes,
  every_15_minutes, every_30_minutes, hourly, every_6_hours, daily, custom, schedule_value,
  from_string, job_row, row_job, parse_params, get_job, load_jobs, new_process,
}
use existential_identity_tes.Cron.Stored.{Matches, IsStored}
use existential_identity_tes.Cron.Loading.{get_job-load_rows, stored-AreNamed}
use existential_identity_tes.Cron.History.{Op, run, empty_manager, run-IsStored}

from_string-schedule_value : (s : CronSchedule) → from_string (schedule_value s) ≡ s
unfolding from_string schedule_value
from_string-schedule_value every_minute = refl
from_string-schedule_value every_5_minutes = refl
from_string-schedule_value every_15_minutes = refl
from_string-schedule_value every_30_minutes = refl
from_string-schedule_value hourly = refl
from_string-schedule_value every_6_hours = refl
from_string-schedule_value daily = refl
from_string-schedule_value custom = refl

module _ {Json : Type 0} (py : Python Json) where
  -- The parameters come back as a text, and the roles and the sandbox as CronJob sets them.
  abbrev pub restored : CronJob Json → CronJob Json
  restored job = record job {
    task_params = py.text (py.dumps job.task_params);
    allowed_roles = "user" ∷ [];
    sandbox_level = "restricted";
  }

  parse_params-dumps : IsPython py → (v : Json) → parse_params py (py.dumps v) ≡ v
  unfolding parse_params
  parse_params-dumps law v = rw (law.loads-dumps v, parse_params) refl

  pub row_job-job_row :
      IsPython py → (job : CronJob Json) → row_job py (job_row py job) ≡ restored job
  unfolding row_job job_row
  row_job-job_row law job =
      rw
        (
          from_string-schedule_value job.schedule,
          parse_params-dumps law (py.text (py.dumps job.task_params)),
        )
        refl

  -- What a new process lists for what is listed now and its row: the job with the three fields as the
  -- table keeps them, or, of a job that was itself loaded and not saved since, the job as it is.
  abbrev pub Reloads : Option (CronJob Json) → Option (CronJob Json) → Type 0
  Reloads none o = o ≡ none
  Reloads (some job) o =
      (o ≡ some (restored job))
      ⊎ ((o ≡ some job) × ((saved : CronJob Json) × (job ≡ restored saved)))

  reads_as :
      IsPython py
      → (o : Option (CronJob Json)) (r : Option Row) → Matches py o r
      → Reloads o (Option.map (row_job py) r)
  reads_as law none none h = refl
  reads_as law none (some row) h = absurd h
  reads_as law (some job) none h = absurd h
  reads_as law (some job) (some row) (inl e) =
      inl (ap some (ap (row_job py) e ∙ row_job-job_row law job))
  reads_as law (some job) (some row) (inr (saved, (e, q))) =
      inr (ap some (sym q), (saved, q ∙ (ap (row_job py) e ∙ row_job-job_row law saved)))

  pub get_job-load_jobs :
      (m : CronManager Json) (id : String)
      → IsPython py
      → IsStored py m
      → Reloads (get_job m id) (get_job (load_jobs py (new_process m)) id)
  unfolding load_jobs new_process Dict.get
  get_job-load_jobs m id law v =
      rw
        (get_job-load_rows py (new_process m) m.rows id (λ k. refl) v.rows_keyed
          (stored-AreNamed py v))
        (reads_as law (get_job m id) (Dict.get m.rows id) (v.stored id))

  pub load_jobs-run :
      (decimal : ℕ → String) (ops : List (Op Json)) (id : String)
      → IsPython py
      → let m = run py decimal ops (empty_manager py decimal) in
        Reloads (get_job m id) (get_job (load_jobs py (new_process m)) id)
  load_jobs-run decimal ops id law =
      get_job-load_jobs (run py decimal ops (empty_manager py decimal)) id law
        (run-IsStored py decimal ops)
