-- ===== src/Tasks/Listing.antt =====
-- list_active_tasks and list_all_tasks of tical_code/core/task_state.py. The order of the names
-- (`sorted` on paths) is a parameter.
use existential_identity_tes.Base.{
  ◌≡◌, refl, ◌∙◌, ℕ, zero, suc, ◌+◌, leb, if◌then◌else◌, String, Bool, true, false, ◌&&◌, List, [],
  ◌∷◌, Option, none, some, length, take, select, arith, Bool-cases, Option-cases, inl, inr,
}
use existential_identity_tes.Base.Sort.{sort, IsSorted, IsOrder, sort-IsSorted, length-select-sort}
use existential_identity_tes.Tasks.{
  TaskStatus, pending, running, completed, failed, paused, TaskState, Disk, Entry, task_to_dict,
  task_from_dict, get_status, get_string, get_text, get_number, get_errors, has_status,
}
use existential_identity_tes.Base.Dict

abbrev pub is_active : TaskStatus → Bool
is_active pending = true
is_active running = true
is_active _ = false

-- A status of none is the text "?", a time of 0 the empty text.
pub record TaskSummary : Type 0 where
  pub task_id : String
  pub goal : List ℕ
  pub status : Option TaskStatus
  pub step : ℕ
  pub errors : ℕ
  pub created_at : ℕ
  pub updated_at : ℕ

same_count :
    {A B : Type 0} (a b : Bool) (x : A) (xs : List A) (y : B) (ys : List B)
    → a ≡ b
    → length xs ≡ length ys
    → length (if a then x ∷ xs else xs) ≡ length (if b then y ∷ ys else ys)
same_count a b x xs y ys e h = ground (arith, e, h)

module _ {Json : Type 0} where
  -- The tasks of the directories in an order that are pending or running and have an identifier.
  unfoldable pub active_in : ℕ → Disk Json → List (TaskState Json)
  unfolding task_from_dict get_status Dict.get
  active_in now [] = []
  active_in now ((name, none) ∷ d) = active_in now d
  active_in now ((name, some dict) ∷ d) =
      let rest = active_in now d in
      if has_status is_active dict
      then elim (task_from_dict now dict) [ none ↦ rest | some s ↦ s ∷ rest ]
      else rest

  unfoldable pub created_before : TaskState Json → TaskState Json → Bool
  created_before s t = leb s.created_at t.created_at

  unfoldable pub list_active_tasks :
      ℕ → (String → String → Bool) → Disk Json → List (TaskState Json)
  unfolding active_in created_before
  list_active_tasks now name_le d =
      sort created_before (active_in now (sort (λ e f. name_le e.0 f.0) d))

  unfoldable pub task_summary : String → Dict.Dict (Entry Json) → TaskSummary
  unfolding get_string get_text get_status get_number get_errors Dict.get
  task_summary name dict = record {
    task_id = get_string name (Dict.get dict "task_id");
    goal = take 120 (get_text [] (Dict.get dict "goal"));
    status = get_status (Dict.get dict "status");
    step = get_number 0 (Dict.get dict "step");
    errors = length (get_errors (Dict.get dict "errors"));
    created_at = get_number 0 (Dict.get dict "created_at");
    updated_at = get_number 0 (Dict.get dict "updated_at");
  }

  -- The loop of `list_all_tasks`, with the length of its result so far.
  unfoldable pub list_from : ℕ → ℕ → Disk Json → List TaskSummary
  unfolding task_summary
  list_from limit n [] = []
  list_from limit n ((name, none) ∷ d) =
      let rest = list_from limit n d in if leb limit n then [] else rest
  list_from limit n ((name, some dict) ∷ d) =
      let rest = list_from limit (n + 1) d in
      task_summary name dict ∷ (if leb limit (n + 1) then [] else rest)

  unfoldable pub list_all_tasks : (String → String → Bool) → ℕ → Disk Json → List TaskSummary
  unfolding list_from
  list_all_tasks name_le limit d = list_from limit 0 (sort (λ e f. name_le f.0 e.0) d)

  -- A file as save_state writes it, and one that cannot be read.
  abbrev pub file_of : Option (TaskState Json) → Option (Dict.Dict (Entry Json))
  file_of none = none
  file_of (some s) = some (task_to_dict s)

  abbrev pub files_of : Dict.Dict (Option (TaskState Json)) → Disk Json
  files_of [] = []
  files_of ((name, o) ∷ d) = (name, file_of o) ∷ files_of d

  -- Whether a directory has a task that waits for work or is at work, with a property.
  abbrev pub to_take_up : (TaskState Json → Bool) → String × Option (TaskState Json) → Bool
  to_take_up p (name, none) = false
  to_take_up p (name, some s) = elim s.status [
    | pending ↦ p s
    | running ↦ p s
    | completed ↦ false
    | failed ↦ false
    | paused ↦ false
  ]

  -- The same of a file.
  is_active_with : ℕ → (TaskState Json → Bool) → String × Option (Dict.Dict (Entry Json)) → Bool
  is_active_with now p (name, none) = false
  is_active_with now p (name, some dict) =
      has_status is_active dict && elim (task_from_dict now dict) [ none ↦ false | some s ↦ p s ]

  length-active_in :
      (now : ℕ) (p : TaskState Json → Bool) (d : Disk Json)
      → length (select p (active_in now d)) ≡ length (select (is_active_with now p) d)
  unfolding active_in is_active_with
  length-active_in now p [] = refl
  length-active_in now p ((name, none) ∷ d) = length-active_in now p d
  length-active_in now p ((name, some dict) ∷ d) = elim (Bool-cases (has_status is_active dict)) [
    | inl e ↦ rw e (elim (Option-cases (task_from_dict now dict)) [
      | inl f ↦ rw f (length-active_in now p d)
      | inr (s, f) ↦ rw f (ground (arith, length-active_in now p d))
    ])
    | inr e ↦ rw e (length-active_in now p d)
  ]

  active_with-file :
      (now : ℕ) (p : TaskState Json → Bool) (name : String) (s : TaskState Json)
      → is_active_with now p (name, some (task_to_dict s)) ≡ to_take_up p (name, some s)
  unfolding is_active_with get_status task_to_dict task_from_dict Dict.get
  active_with-file now p name s = go s.status
    where
      go :
          (t : TaskStatus)
          → (is_active t && p s) ≡ elim t as (λ _. Bool) [
            | pending ↦ p s
            | running ↦ p s
            | completed ↦ false
            | failed ↦ false
            | paused ↦ false
          ]
      go pending = refl
      go running = refl
      go completed = refl
      go failed = refl
      go paused = refl

  length-files_of :
      (now : ℕ) (p : TaskState Json → Bool) (d : Dict.Dict (Option (TaskState Json)))
      → length (select (is_active_with now p) (files_of d)) ≡ length (select (to_take_up p) d)
  unfolding is_active_with
  length-files_of now p [] = refl
  length-files_of now p ((name, none) ∷ d) =
      same_count (is_active_with now p (name, none)) false (name, none)
        (select (is_active_with now p) (files_of d)) (name, none) (select (to_take_up p) d) refl
        (length-files_of now p d)
  length-files_of now p ((name, some s) ∷ d) =
      same_count (is_active_with now p (name, some (task_to_dict s))) (to_take_up p (name, some s))
        (name, some (task_to_dict s)) (select (is_active_with now p) (files_of d)) (name, some s)
        (select (to_take_up p) d) (active_with-file now p name s) (length-files_of now p d)

  created_before-IsOrder : IsOrder created_before
  unfolding created_before
  created_before-IsOrder = record {
    total = λ s t h. ground (arith, h);
    chain = λ s t u h k. ground (arith, h, k);
  }

  -- Whatever the order of the names, for a directory of files that save_state wrote and of files that
  -- cannot be read: the listed tasks are those that were saved as pending or running, with every
  -- field, each as often as it was saved, and none is listed before one that was created earlier.
  pub list_active_tasks_lem :
      (now : ℕ) (name_le : String → String → Bool) (d : Dict.Dict (Option (TaskState Json)))
      → IsSorted (λ s t. leb s.created_at t.created_at) (list_active_tasks now name_le (files_of d))
        × ((p : TaskState Json → Bool)
            → length (select p (list_active_tasks now name_le (files_of d)))
              ≡ length (select (to_take_up p) d))
  unfolding list_active_tasks created_before
  list_active_tasks_lem now name_le d =
      let by_name = λ (e f : String × Option (Dict.Dict (Entry Json))). name_le e.0 f.0 in
      let found = active_in now (sort by_name (files_of d)) in
      (
        sort-IsSorted created_before created_before-IsOrder found,
        λ p.
            length-select-sort created_before p found
            ∙ length-active_in now p (sort by_name (files_of d))
            ∙ length-select-sort by_name (is_active_with now p) (files_of d)
            ∙ length-files_of now p d,
      )

  abbrev pub summaries : Disk Json → List TaskSummary
  summaries [] = []
  summaries ((name, none) ∷ d) = summaries d
  summaries ((name, some dict) ∷ d) = task_summary name dict ∷ summaries d

  list_from_lem :
      (limit n k : ℕ) (d : Disk Json)
      → limit ≡ n + suc k
      → list_from limit n d ≡ take (suc k) (summaries d)
  unfolding list_from
  list_from_lem limit n k [] h = refl
  list_from_lem limit n k ((name, none) ∷ d) h = ground (arith, h, list_from_lem limit n k d h)
  list_from_lem limit n zero ((name, some dict) ∷ d) h = ground (arith, h)
  list_from_lem limit n (suc k) ((name, some dict) ∷ d) h =
      ground (arith, h, list_from_lem limit (n + 1) k d (omega (arith, h)))

  -- With a limit above 0, the loop with its early end gives the first ones of the summaries of all
  -- tasks, in the descending order of the names.
  pub list_all_tasks_lem :
      (name_le : String → String → Bool) (k : ℕ) (d : Disk Json)
      → list_all_tasks name_le (suc k) d
        ≡ take (suc k) (summaries (sort (λ e f. name_le f.0 e.0) d))
  unfolding list_all_tasks
  list_all_tasks_lem name_le k d =
      list_from_lem (suc k) 0 k (sort (λ e f. name_le f.0 e.0) d) (omega arith)
