-- ===== src/Cron/Failing.antt =====
-- What becomes of a job that a new process has loaded.
use existential_identity_tes.Base.{
  inl, inr, ◌≡◌, refl, ℕ, zero, suc, ◌+◌, ◌<◌, ◌≤◌, String, false, List, Option, none, some, arith,
  leb, if◌then◌else◌,
}
use Prim.Native.String.{◌++◌}
use existential_identity_tes.Cron.{
  Python, IsPython, CronJob, World, Readings, raised, TaskType, tool, prompt, shell, unknown,
  run_task, with_params, attempt_outcome, verify_outcome, job_outcome, note_result, get_job,
  load_jobs, new_process,
}
use existential_identity_tes.Cron.Runs.{ran}
use existential_identity_tes.Cron.History.{Op, run, empty_manager}
use existential_identity_tes.Cron.Restart.{Reloads, restored, load_jobs-run}

module _ {Json : Type 0} (py : Python Json) (decimal : ℕ → String) where
  -- A job whose parameters are no dictionary.
  abbrev IsBroken : CronJob Json → Type 0
  IsBroken job = py.as_dict job.task_params ≡ none

  run_task-IsBroken :
      (w : World Json) (job : CronJob Json) (k : TaskType)
      → job.task_type ≡ k
      → IsBroken job
      → (e : String) × (run_task py w job ≡ raised e)
  unfolding run_task with_params
  run_task-IsBroken w job tool t h = (w.attribute_error job.task_params, ground (arith, t, h))
  run_task-IsBroken w job prompt t h = (w.attribute_error job.task_params, ground (arith, t, h))
  run_task-IsBroken w job shell t h = (w.attribute_error job.task_params, ground (arith, t, h))
  run_task-IsBroken w job (unknown s) t h = ("Unknown task_type: " ++ s, rw (t, run_task) refl)

  job_outcome-IsBroken :
      (w : World Json) (job : CronJob Json)
      → IsBroken job
      → (job_outcome py decimal w job).success ≡ false
  unfolding job_outcome attempt_outcome verify_outcome
  job_outcome-IsBroken w job h =
      let (e, r) = run_task-IsBroken w job job.task_type refl h in ground (arith, r)

  -- A job after n executions in a row.
  unfoldable pub ran_times : ℕ → (ℕ → World Json × Readings) → CronJob Json → CronJob Json
  ran_times zero world job = job
  ran_times (suc n) world job = ran_times n (λ k. world (suc k)) (ran py decimal (world 0) job)

  ran-IsBroken :
      (w : World Json × Readings) (job : CronJob Json)
      → IsBroken job
      → let job' = ran py decimal w job in
        IsBroken job'
        × ((job'.fail_count ≡ job.fail_count + 1)
            × ((job'.max_failures ≡ job.max_failures)
                × (job'.enabled
                    ≡ (if leb job.max_failures (job.fail_count + 1) then false else job.enabled))))
  unfolding note_result
  ran-IsBroken w job h = rw (job_outcome-IsBroken w.0 job h) (h, (refl, (refl, refl)))

  ran_times-IsBroken :
      (n : ℕ) (world : ℕ → World Json × Readings) (job : CronJob Json)
      → IsBroken job
      → let job' = ran_times n world job in
        (job'.fail_count ≡ job.fail_count + n)
        × (0 < n → job.max_failures ≤ job.fail_count + n → job'.enabled ≡ false)
  unfolding ran_times
  ran_times-IsBroken zero world job h = (omega arith, λ p q. absurd (omega arith))
  ran_times-IsBroken (suc zero) world job h =
      let step = ran-IsBroken (world 0) job h in (step.1.0, λ p q. ground (arith, step.1.1.1, q))
  ran_times-IsBroken (suc (suc n)) world job h =
      let step = ran-IsBroken (world 0) job h in
      let rest =
        ran_times-IsBroken (suc n) (λ k. world (suc k)) (ran py decimal (world 0) job) step.0 in
      (
        omega (arith, rest.0, step.1.0),
        λ p q. rest.1 (omega arith) (omega (arith, step.1.0, step.1.1.0, q)),
      )

  loaded-IsBroken :
      (ops : List (Op Json)) (id : String) (job : CronJob Json)
      → IsPython py
      → get_job (load_jobs py (new_process (run py decimal ops (empty_manager py decimal)))) id
        ≡ some job
      → IsBroken job
  loaded-IsBroken ops id job law h =
      go (get_job (run py decimal ops (empty_manager py decimal)) id) _ h
        (load_jobs-run py decimal ops id law)
    where
      broken : (j : CronJob Json) → restored py j ≡ job → IsBroken job
      broken j e = ground (arith, e, law.as_dict-text (py.dumps j.task_params))

      go : (o l : Option (CronJob Json)) → l ≡ some job → Reloads py o l → IsBroken job
      go none l e r = cc
      go (some j) l e (inl r) = broken j (ground (arith, r, e))
      go (some j) l e (inr (r, (saved, q))) = broken saved (ground (arith, r, e, q))

  -- A job that a new process has loaded fails at every execution, whatever the tools do: after as
  -- many as its failures may be, those before the restart included, it is disabled.
  pub loaded_fails :
      (ops : List (Op Json)) (id : String) (job : CronJob Json) (world : ℕ → World Json × Readings)
      (n : ℕ)
      → IsPython py
      → get_job (load_jobs py (new_process (run py decimal ops (empty_manager py decimal)))) id
        ≡ some job
      → let job' = ran_times n world job in
        (job'.fail_count ≡ job.fail_count + n)
        × (0 < n → job.max_failures ≤ job.fail_count + n → job'.enabled ≡ false)
  loaded_fails ops id job world n law h =
      ran_times-IsBroken n world job (loaded-IsBroken ops id job law h)
