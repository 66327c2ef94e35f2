-- ===== src/Cron/Removed.antt =====
-- A job that is removed while it runs.
use mathlib.Core.Option
use mathlib.Core.Path.{subst}
use existential_identity_tes.Base.{
  ◌≡◌, refl, ap, sym, if◌then◌else◌, modify, ◌∙◌, ℕ, String, none, some, arith, get_elem?-modify,
}
use existential_identity_tes.Base.Text.{str_eq_iff}
use existential_identity_tes.Base.Dict
use existential_identity_tes.Base.Keys.{IsDict, remove-IsDict}
use existential_identity_tes.Cron.{
  Python, IsPython, CronJob, CronManager, Row, Readings, RunResult, note_result, set_job,
  finish_job, remove_job, save_row, job_row, row_job, object_at, get_job, load_jobs, new_process,
}
use existential_identity_tes.Cron.Stored.{
  IsStored, get_job-save_job, get_job_missing, save_job_lem, get-save_row_at, save_row-IsDict,
  job_row-id,
}
use existential_identity_tes.Cron.Loading.{AreNamed, get_job-load_rows, stored-AreNamed}
use existential_identity_tes.Cron.Restart.{restored, row_job-job_row}

module _ {Json : Type 0} (py : Python Json) where
  -- The rows that the end of its execution leaves: without that of the job, and then with it.
  finished_rows :
      (m : CronManager Json) (t : Readings) (o : RunResult) (id : String) (i : ℕ)
      (job : CronJob Json)
      → Dict.get m.jobs id ≡ some i
      → object_at m i ≡ some job
      → (finish_job py t o i (remove_job id m).1).rows
        ≡ save_row (job_row py (note_result py t o job)) (Dict.remove m.rows id)
  unfolding finish_job remove_job set_job
  finished_rows m t o id i job h e =
      rw (h, remove_job)
        (ap (λ x. x.rows)
          (save_job_lem py
            (record {
              objects = modify m.objects i (note_result py t o);
              jobs = Dict.remove m.jobs id;
              rows = Dict.remove m.rows id;
              prompts = m.prompts;
            })
            i (note_result py t o job)
            (ground (arith, get_elem?-modify m.objects i (note_result py t o) i, e))))

  finished_gone :
      (m : CronManager Json) (t : Readings) (o : RunResult) (id : String) (i : ℕ)
      → Dict.get m.jobs id ≡ some i
      → get_job (finish_job py t o i (remove_job id m).1) id ≡ none
  unfolding finish_job remove_job set_job
  finished_gone m t o id i h =
      get_job-save_job py (set_job i (note_result py t o) (remove_job id m).1) i id
      ∙ get_job_missing py (set_job i (note_result py t o) (remove_job id m).1) id
          (rw (h, remove_job) (ground (arith, Dict.get-remove m.jobs id id, str_eq_iff id id)))

  saved_row-AreNamed :
      (row : Row) (rows : Dict.Dict Row) (id : String)
      → row.job_id ≡ id
      → AreNamed py rows
      → AreNamed py (save_row row (Dict.remove rows id))
  saved_row-AreNamed row rows id q a k r h = ground (
    arith,
    h,
    get-save_row_at py row (Dict.remove rows id) k id q,
    Dict.get-remove rows id k,
    a k r,
    q,
    str_eq_iff id k,
  )

  -- Where a job is removed while its task runs, the end of the execution writes its row again: it is
  -- listed no more, but the next process that loads the table lists it.
  pub removed_returns :
      (m : CronManager Json) (t : Readings) (o : RunResult) (id : String) (i : ℕ)
      (job : CronJob Json)
      → IsPython py
      → IsStored py m
      → Dict.get m.jobs id ≡ some i
      → object_at m i ≡ some job
      → let m' = finish_job py t o i (remove_job id m).1 in
        (get_job m' id ≡ none)
        × (get_job (load_jobs py (new_process m')) id ≡ some (restored py (note_result py t o job)))
  unfolding note_result load_jobs new_process Dict.get
  removed_returns m t o id i job law v h e = (
    finished_gone m t o id i h,
    get_job-load_rows py (new_process m') m'.rows id (λ k. refl)
          (subst IsDict (sym rows)
            (save_row-IsDict py row (Dict.remove m.rows id) (remove-IsDict m.rows id v.rows_keyed)))
          (subst (AreNamed py) (sym rows)
            (saved_row-AreNamed row m.rows id row_named (stored-AreNamed py v)))
        ∙ rw rows (
            ap (Option.map (row_job py)) (
              get-save_row_at py row (Dict.remove m.rows id) id id row_named
              ∙ ap (λ b. if b then some row else Dict.get (Dict.remove m.rows id) id)
                  ((str_eq_iff id id).1 refl))
            ∙ ap some (row_job-job_row py law (note_result py t o job))),
  )
    where
      row : Row
      row = job_row py (note_result py t o job)

      m' : CronManager Json
      m' = finish_job py t o i (remove_job id m).1

      rows : m'.rows ≡ save_row row (Dict.remove m.rows id)
      rows = finished_rows m t o id i job h e

      row_named : row.job_id ≡ id
      row_named = job_row-id py (note_result py t o job) ∙ ground (arith, v.listed id i h, e)
