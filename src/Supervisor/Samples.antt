-- ===== src/Supervisor/Samples.antt =====
-- One task that is started, and what the calls do then.
use existential_identity_tes.Base.{◌≡◌, refl, ℕ, true, false, [], ◌∷◌}
use existential_identity_tes.Base.Dict
use existential_identity_tes.Supervisor.{
  Supervisor, running, after, is_blocked, check_tasks, start_task, launch, touch_heartbeat,
  new_supervisor, with_lock, alive_task, is_alive, heartbeat_stale, heartbeat_age,
}
use existential_identity_tes.Supervisor.Steps.{start_step, here, next}
use existential_identity_tes.Supervisor.Once.{running_once}
use existential_identity_tes.Supervisor.Deadlock.{check_tasks-deadlock}
use existential_identity_tes.Supervisor.Stuck.{IsStuck}

abbrev one_task : Supervisor
one_task = after (start_task 1_000 "t1" new_supervisor)

abbrev overdue : Supervisor
overdue = record {
  tasks = ("t1", 0) ∷ [];
  abort_flags = ("t1", 0) ∷ [];
  flags_set = [];
  threads = record { task_id = "t1"; phase = running } ∷ [];
  heartbeats = ("t1", 1_000) ∷ [];
  progress = [];
  states = ("t1", "running") ∷ [];
  lock_held = false;
}

running_once_example : ◌≡◌ {A = ℕ} 0 0
unfolding start_task with_lock new_supervisor alive_task launch touch_heartbeat Dict.put Dict.get
running_once_example =
    running_once {s = one_task} 0 0 (record { task_id = "t1"; phase = running })
      (record { task_id = "t1"; phase = running })
      (next here (start_step 1_000 "t1" new_supervisor)) refl refl refl refl refl

check_tasks-deadlock_example :
    (is_blocked (check_tasks 200_000 overdue) ≡ true)
    × IsStuck (after (check_tasks 200_000 overdue)) (after (check_tasks 200_000 overdue))
unfolding is_alive heartbeat_stale heartbeat_age Dict.get
check_tasks-deadlock_example =
    check_tasks-deadlock 200_000 "t1" 0 overdue (after (check_tasks 200_000 overdue)) refl (tt, tt)
      refl refl refl here
