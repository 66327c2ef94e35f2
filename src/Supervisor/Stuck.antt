-- ===== src/Supervisor/Stuck.antt =====
-- A lock that its own thread waits for is never released, and the lists stay as they are.
use existential_identity_tes.Base.{◌≡◌, ap, ◌∙◌, if◌then◌else◌, true, false}
use existential_identity_tes.Base.Dict
use existential_identity_tes.Supervisor.{
  Supervisor, Outcome, returned, blocked, after, release, with_lock, alive_task, launch, set_flag,
  start_task, abort_task, is_running, check_each, check_tasks, keys, progress_each,
  get_all_progress, touch_heartbeat, set_progress, in_phase, end_target, end_thread,
}
use existential_identity_tes.Supervisor.Steps.{
  Step, start_step, abort_step, ask_step, check_step, progress_step, beat_step, report_step,
  end_step, leave_step, dead_step, Reach, here, next,
}
use existential_identity_tes.Supervisor.Listed.{true-false}

-- The lock is held, and the lists are those of an earlier state.
abbrev pub IsStuck : Supervisor → Supervisor → Type 0
IsStuck s t = (t.lock_held ≡ true) × (t.tasks ≡ s.tasks)

module _ {ℓ} {A : Type ℓ} where
  pub with_lock-held :
      (body : Supervisor → Outcome A) (s : Supervisor)
      → s.lock_held ≡ true
      → with_lock body s ≡ blocked s
  unfolding with_lock
  with_lock-held body s e =
      ap (λ b. if b then blocked s else release (body (record s { lock_held = true }))) e

  with_lock-IsStuck :
      (body : Supervisor → Outcome A) (s t : Supervisor)
      → IsStuck s t
      → IsStuck s (after (with_lock body t))
  with_lock-IsStuck body s t h = (
    ap (λ o. (after o).lock_held) (with_lock-held body t h.0) ∙ h.0,
    ap (λ o. (after o).tasks) (with_lock-held body t h.0) ∙ h.1,
  )

  pub with_lock-free :
      (body : Supervisor → Outcome A) (s : Supervisor)
      → s.lock_held ≡ false
      → with_lock body s ≡ release (body (record s { lock_held = true }))
  unfolding with_lock
  with_lock-free body s e =
      ap (λ b. if b then blocked s else release (body (record s { lock_held = true }))) e

Step-IsStuck : (s : Supervisor) {t u : Supervisor} → Step t u → IsStuck s t → IsStuck s u
unfolding start_task abort_task is_running check_tasks get_all_progress touch_heartbeat set_progress
    end_target end_thread in_phase
Step-IsStuck s (start_step now id t) h =
    with_lock-IsStuck
      (λ x.
        if alive_task (Dict.get x.tasks id) x then returned tt x else returned tt (launch now id x))
      s t h
Step-IsStuck s (abort_step id t) h =
    with_lock-IsStuck (λ x. set_flag (Dict.get x.abort_flags id) x) s t h
Step-IsStuck s (ask_step id t) h =
    with_lock-IsStuck (λ x. returned (alive_task (Dict.get x.tasks id) x) x) s t h
Step-IsStuck s (check_step now t) h = with_lock-IsStuck (λ x. check_each now (keys x.tasks) x) s t h
Step-IsStuck s (progress_step now t) h =
    with_lock-IsStuck (λ x. progress_each now (keys x.tasks) x) s t h
Step-IsStuck s (beat_step now id t) h = h
Step-IsStuck s (report_step id text t) h = h
Step-IsStuck s (end_step true n id t e) h = h
Step-IsStuck s (end_step false n id t e) h = h
Step-IsStuck s (leave_step n id t e l) h = absurd (true-false h.0 l)
Step-IsStuck s (dead_step n id t e) h = h

pub Reach-IsStuck : (s : Supervisor) {t u : Supervisor} → Reach t u → IsStuck s t → IsStuck s u
Reach-IsStuck s here h = h
Reach-IsStuck s (next r x) h = Step-IsStuck s x (Reach-IsStuck s r h)
