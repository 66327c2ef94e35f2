-- ===== src/Tasks/Samples.antt =====
-- Tasks on an empty disk and on one with a task, and the laws at them.
use existential_identity_tes.Base.{
  leb, Option, ◌≡◌, Bool, true, [], ◌∷◌, some, none, map, length, select, refl, false,
}
use existential_identity_tes.Base.Text.{codes}
use existential_identity_tes.Tasks.{
  TaskStatus, pending, running, completed, TaskState, task_to_dict, Disk, Library, pause_task,
  resume_task, load_state,
}
use existential_identity_tes.Base.Dict
use existential_identity_tes.Base.Sort.{sort, IsSorted}
use existential_identity_tes.Tasks.Listing.{
  list_active_tasks, list_all_tasks, files_of, to_take_up, list_active_tasks_lem,
}
use existential_identity_tes.Tasks.Laws.{resume-pause}

abbrev py : Library
py = record { last_number = λ name. some 7; three_digits = λ n. "001" }

abbrev task : TaskStatus → TaskState Bool
task status = record {
  task_id = "t20261126_001";
  goal = codes "fix it";
  status = status;
  step = 3;
  plan = [];
  current_plan_step = 0;
  context_window = record { recent_actions = true ∷ []; summary = []; open_files = [] };
  artifacts = [];
  errors = [];
  model_family = "mimo";
  max_steps = 50;
  max_wall_time_seconds = 3_600;
  created_at = 1_000;
  updated_at = 2_000;
  metadata = [];
}

abbrev disk : TaskStatus → Disk Bool
disk status = ("t20261126_001", some (task_to_dict (task status))) ∷ []

resume-pause_example :
    ((resume_task 8_500 9_000 true "t20261126_001"
        (pause_task 8_000 true (task running) (disk pending)).1.1).0
      ≡ some (record (task running) { status = running; updated_at = 9_000 }))
    × (load_state 9_500 "t20261126_001"
          (resume_task 8_500 9_000 true "t20261126_001"
            (pause_task 8_000 true (task running) (disk pending)).1.1).1
        ≡ some (record (task running) { status = running; updated_at = 9_000 }))
resume-pause_example = resume-pause 8_000 8_500 9_000 9_500 (task running) (disk pending)

-- Of a younger task that runs, one that was completed and an older one that waits, the last is the
-- first to be taken up again.
abbrev three_tasks : Dict.Dict (Option (TaskState Bool))
three_tasks =
    ("a", some (record (task running) { created_at = 3_000 }))
    ∷ ("b", some (task completed))
    ∷ ("c", some (record (task pending) { created_at = 2_000 }))
    ∷ ("d", none)
    ∷ []

listed_tasks :
    map (λ s. s.created_at) (list_active_tasks 9_000 (λ a b. true) (files_of three_tasks))
    ≡ 2_000 ∷ 3_000 ∷ []
unfolding list_active_tasks sort task_to_dict
listed_tasks = refl

-- Two of the three tasks, by descending names.
listed_summaries :
    map (λ s. s.status) (list_all_tasks (λ a b. false) 2 (files_of three_tasks))
    ≡ some pending ∷ some completed ∷ []
unfolding list_all_tasks sort task_to_dict
listed_summaries = refl

list_active_tasks_lem_example :
    IsSorted
      (λ s t. leb s.created_at t.created_at)
      (list_active_tasks 9_000 (λ a b. true) (files_of three_tasks))
    × ((p : TaskState Bool → Bool)
        → length (select p (list_active_tasks 9_000 (λ a b. true) (files_of three_tasks)))
          ≡ length (select (to_take_up p) three_tasks))
list_active_tasks_lem_example = list_active_tasks_lem 9_000 (λ a b. true) three_tasks
