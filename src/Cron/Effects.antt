-- ===== src/Cron/Effects.antt =====
-- What verification does to a result, and when a job that has run is due again.
use existential_identity_tes.Base.{
  ◌≡◌, refl, ℕ, ◌+◌, ◌≤◌, ◌<◌, String, Bool, true, false, none, some, arith,
}
use existential_identity_tes.Cron.{
  Python, CronJob, World, Readings, note_result, job_outcome, verify_outcome, attempt_outcome,
  Attempt, returned, raised, timed_out, run_task, calculate_next_run, job_interval, CronSchedule,
  RunResult, is_due_job, every_minute, every_5_minutes, every_15_minutes, every_30_minutes, hourly,
  every_6_hours, daily, custom,
}

-- Force-Verify rejects no result: a verified job succeeds and fails as it would without the flag.
pub job_outcome-verified :
    {Json : Type 0} (py : Python Json) (decimal : ℕ → String) (w : World Json) (job : CronJob Json)
    → job_outcome py decimal w job ≡ job_outcome py decimal w (record job { verified = false })
unfolding job_outcome run_task
job_outcome-verified py decimal w job = go job.verified (run_task py w job)
  where
    go :
        (b : Bool) (a : Attempt)
        → verify_outcome b (attempt_outcome decimal job.timeout a)
          ≡ verify_outcome false (attempt_outcome decimal job.timeout a)
    go false a = refl
    go true (returned none) = refl
    go true (returned (some s)) = refl
    go true (raised e) = refl
    go true timed_out = refl

interval-pos :
    {Json : Type 0} (job : CronJob Json) (s : CronSchedule)
    → job.schedule ≡ s
    → 1 ≤ job_interval job
unfolding job_interval
interval-pos job every_minute e = ground (arith, e)
interval-pos job every_5_minutes e = ground (arith, e)
interval-pos job every_15_minutes e = ground (arith, e)
interval-pos job every_30_minutes e = ground (arith, e)
interval-pos job hourly e = ground (arith, e)
interval-pos job every_6_hours e = ground (arith, e)
interval-pos job daily e = ground (arith, e)
interval-pos job custom e = ground (arith, e)

-- A job that has run, with whatever outcome, is not due in the second after its next run was planned.
pub note_result-not_due :
    {Json : Type 0} (py : Python Json) (t : Readings) (o : RunResult) (job : CronJob Json) (now : ℕ)
    → now < t.planned + 1000
    → is_due_job now (note_result py t o job) ≡ false
unfolding is_due_job note_result calculate_next_run
note_result-not_due py t o job now h = ground (arith, interval-pos job job.schedule refl, h)
