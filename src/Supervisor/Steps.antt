-- ===== src/Supervisor/Steps.antt =====
-- The steps of a supervisor: calls of the main thread and steps of the tasks' threads, in any order.
use existential_identity_tes.Base.{ℕ, ◌≡◌, String, Bool, false, some, get_elem?}
use existential_identity_tes.Supervisor.{
  Supervisor, running, closing, leaving, after, start_task, abort_task, is_running, check_tasks,
  get_all_progress, touch_heartbeat, set_progress, end_target, leave, end_thread,
}

pub data Step : Supervisor → Supervisor → Type 0 where
  start_step : (now : ℕ) (id : String) (s : Supervisor) → Step s (after (start_task now id s))
  abort_step : (id : String) (s : Supervisor) → Step s (after (abort_task id s))
  ask_step : (id : String) (s : Supervisor) → Step s (after (is_running id s))
  check_step : (now : ℕ) (s : Supervisor) → Step s (after (check_tasks now s))
  progress_step : (now : ℕ) (s : Supervisor) → Step s (after (get_all_progress now s))
  beat_step : (now : ℕ) (id : String) (s : Supervisor) → Step s (touch_heartbeat now id s)
  report_step : (id text : String) (s : Supervisor) → Step s (set_progress id text s)
  end_step :
      (crashed : Bool) (n : ℕ) (id : String) (s : Supervisor)
      → get_elem? s.threads n ≡ some (record { task_id = id; phase = running })
      → Step s (end_target crashed n id s)
  leave_step :
      (n : ℕ) (id : String) (s : Supervisor)
      → get_elem? s.threads n ≡ some (record { task_id = id; phase = closing })
      → s.lock_held ≡ false
      → Step s (leave n id s)
  dead_step :
      (n : ℕ) (id : String) (s : Supervisor)
      → get_elem? s.threads n ≡ some (record { task_id = id; phase = leaving })
      → Step s (end_thread n id s)

pub data Reach (s : Supervisor) : Supervisor → Type 0 where
  here : Reach s s
  next : {t u : Supervisor} → Reach s t → Step t u → Reach s u
