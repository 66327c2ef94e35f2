-- ===== src/Cron/Guarded.antt =====
-- The model's own tool lists no shell job.
use mathlib.Core.Path.{subst}
use existential_identity_tes.Base.{
  ◌≡◌, ap, ℕ, zero, suc, get_elem?, arith, String, true, false, List, [], ◌∷◌, Option, none, some,
  All, All-append, All-modify, Option-cases, Bool-cases, inl, inr, map, not,
}
use existential_identity_tes.Base.Text.{str_eq, elem}
use existential_identity_tes.Base.Dict
use existential_identity_tes.Cron.{
  Python, CronJob, CronManager, World, Readings, NewJob, is_shell, schedules, schedule_value,
  job_of, cron_add, note_result, set_job, save_job, list_job, keep_state, name_job, add_job,
  remove_job, update_job, enable_job, disable_job, finish_job, queue_prompts, execute_job,
  execute_each, get_due_jobs, Row, row_job, job_row, save_row, load_each, load_jobs, tick,
  object_at, get_job, job_outcome,
}
use existential_identity_tes.Cron.History.{
  Op, adds, removes, enables, disables, ticks, reloads, apply,
}

All-remove :
    (P : String × Row → Type 0) (rows : Dict.Dict Row) (id : String)
    → All P rows
    → All P (Dict.remove rows id)
unfolding Dict.remove
All-remove P [] id h = tt
All-remove P ((k, row) ∷ rows) id h = elim (Bool-cases (str_eq k id)) [
  | inl e ↦ rw e (All-remove P rows id h.1)
  | inr e ↦ rw e (h.0, All-remove P rows id h.1)
]

module _ {Json : Type 0} where
  -- A shell job was not made by the model.
  abbrev pub IsAllowed : CronJob Json → Type 0
  IsAllowed job = is_shell job.task_type ≡ true → str_eq job.created_by "ai" ≡ false

  All-object :
      (xs : List (CronJob Json)) (i : ℕ) (job : CronJob Json)
      → All IsAllowed xs
      → get_elem? xs i ≡ some job
      → IsAllowed job
  All-object [] i job h e = absurd (ground (arith, e))
  All-object (x ∷ xs) zero job h e =
      subst IsAllowed (ap (λ o. elim o [ none ↦ x | some y ↦ y ]) e) h.0
  All-object (x ∷ xs) (suc i) job h e = All-object xs i job h.1 e

module _ {Json : Type 0} (py : Python Json) where
  -- No object is a shell job of the model, and no row would be read as one.
  abbrev pub NoShell : CronManager Json → Type 0
  NoShell m = All IsAllowed m.objects × All (λ e. IsAllowed (row_job py e.1)) m.rows

module _ {Json : Type 0} (py : Python Json) (decimal : ℕ → String) where
  -- A call of cron_add, or one of the manager.
  pub data Turn : Type 0 where
    cron_adds : ℕ → ℕ → String → NewJob Json → Turn
    calls : Op Json → Turn

  unfoldable pub take_turn : Turn → CronManager Json → CronManager Json
  unfolding cron_add apply
  take_turn (cron_adds created now fresh q) m = (cron_add py created now fresh q m).1
  take_turn (calls op) m = apply py decimal op m

  unfoldable pub take_turns : List Turn → CronManager Json → CronManager Json
  unfolding take_turn
  take_turns [] m = m
  take_turns (u ∷ us) m = take_turns us (take_turn u m)

  -- What is added by other code than cron_add is no shell job of the model.
  abbrev pub AddsAllowed : Turn → Type 0
  AddsAllowed (calls (adds now fresh job)) = IsAllowed job
  AddsAllowed _ = Unit

  save_row-IsAllowed :
      (job : CronJob Json) (rows : Dict.Dict Row)
      → IsAllowed job
      → All (λ e. IsAllowed (row_job py e.1)) rows
      → All (λ e. IsAllowed (row_job py e.1)) (save_row (job_row py job) rows)
  unfolding save_row row_job job_row
  save_row-IsAllowed job rows a h =
      let p = λ (e : String × Row). IsAllowed (row_job py e.1) in
      All-append p (Dict.remove rows (job_row py job).job_id) _
        (All-remove p rows (job_row py job).job_id h) (a, tt)

  save_job-NoShell : (m : CronManager Json) (i : ℕ) → NoShell py m → NoShell py (save_job py i m)
  unfolding save_job
  save_job-NoShell m i h = elim (Option-cases (object_at m i)) [
    | inl e ↦ rw (e, save_job) h
    | inr (job, e) ↦
        rw (e, save_job) (h.0, save_row-IsAllowed job m.rows (All-object m.objects i job h.0 e) h.1)
  ]

  add_job-NoShell :
      (now : ℕ) (fresh : String) (job : CronJob Json) (m : CronManager Json)
      → IsAllowed job
      → NoShell py m
      → NoShell py (add_job py now fresh job m).1
  unfolding add_job list_job keep_state name_job
  add_job-NoShell now fresh job m a h =
      save_job-NoShell _ _ (
        All-append IsAllowed m.objects _ h.0 (kept (get_job m (name_job fresh job).job_id), tt),
        h.1,
      )
    where
      kept : (o : Option (CronJob Json)) → IsAllowed (keep_state now o (name_job fresh job))
      kept none = a
      kept (some j) = a

  set_job-NoShell :
      (f : CronJob Json → CronJob Json) (i : ℕ) (m : CronManager Json)
      → ((job : CronJob Json) → IsAllowed job → IsAllowed (f job))
      → NoShell py m
      → NoShell py (save_job py i (set_job i f m))
  unfolding set_job
  set_job-NoShell f i m k h = save_job-NoShell _ i (All-modify f k m.objects i h.0, h.1)

  update_job-NoShell :
      (f : CronJob Json → CronJob Json) (id : String) (m : CronManager Json)
      → ((job : CronJob Json) → IsAllowed job → IsAllowed (f job))
      → NoShell py m
      → NoShell py (update_job py f id m).1
  unfolding update_job
  update_job-NoShell f id m k h = elim (Option-cases (Dict.get m.jobs id)) [
    | inl e ↦ rw (e, update_job) h
    | inr (i, e) ↦ rw (e, update_job) (set_job-NoShell f i m k h)
  ]

  remove_job-NoShell :
      (id : String) (m : CronManager Json) → NoShell py m → NoShell py (remove_job id m).1
  unfolding remove_job
  remove_job-NoShell id m h = elim (Option-cases (Dict.get m.jobs id)) [
    | inl e ↦ rw (e, remove_job) h
    | inr (i, e) ↦
        rw (e, remove_job) (h.0, All-remove (λ e. IsAllowed (row_job py e.1)) m.rows id h.1)
  ]

  execute_job-NoShell :
      (w : World Json) (t : Readings) (i : ℕ) (m : CronManager Json)
      → NoShell py m
      → NoShell py (execute_job py decimal w t i m)
  unfolding execute_job finish_job queue_prompts note_result
  execute_job-NoShell w t i m h = elim (Option-cases (object_at m i)) [
    | inl e ↦ rw (e, execute_job) h
    | inr (job, e) ↦
        rw (e, execute_job)
          (set_job-NoShell (note_result py t (job_outcome py decimal w job)) i
            (queue_prompts py t.queued job m) (λ j a. a) h)
  ]

  execute_each-NoShell :
      (world : ℕ → World Json × Readings) (is : List ℕ) (m : CronManager Json)
      → NoShell py m
      → NoShell py (execute_each py decimal world is m)
  unfolding execute_each
  execute_each-NoShell world [] m h = h
  execute_each-NoShell world (i ∷ is) m h =
      execute_each-NoShell (λ k. world (suc k)) is
        (execute_job py decimal (world 0).0 (world 0).1 i m)
        (execute_job-NoShell (world 0).0 (world 0).1 i m h)

  load_each-NoShell :
      (es : List (String × Row)) (m : CronManager Json)
      → All (λ e. IsAllowed (row_job py e.1)) es
      → NoShell py m
      → NoShell py (load_each py es m)
  unfolding load_each list_job
  load_each-NoShell [] m a h = h
  load_each-NoShell (e ∷ es) m a h =
      load_each-NoShell es (list_job (row_job py e.1) m) a.1
        (All-append IsAllowed m.objects _ h.0 (a.0, tt), h.1)

  take_turn-NoShell :
      (u : Turn) (m : CronManager Json) → AddsAllowed u → NoShell py m → NoShell py (take_turn u m)
  unfolding take_turn cron_add job_of apply enable_job disable_job tick load_jobs
  take_turn-NoShell (cron_adds created now fresh q) m a h =
      elim (Bool-cases (not (elem q.schedule (map schedule_value schedules)))) [
        | inl e ↦ rw (e, take_turn) h
        | inr e ↦
            rw (e, take_turn)
              (elim (Bool-cases (is_shell q.task_type)) [
                | inl s ↦ rw s h
                | inr s ↦ rw s (add_job-NoShell now fresh (job_of py created fresh q) m (λ t. cc) h)
              ])
      ]
  take_turn-NoShell (calls (adds now fresh job)) m a h = add_job-NoShell now fresh job m a h
  take_turn-NoShell (calls (removes id)) m a h = remove_job-NoShell id m h
  take_turn-NoShell (calls (enables now id)) m a h = update_job-NoShell _ id m (λ j b. b) h
  take_turn-NoShell (calls (disables id)) m a h = update_job-NoShell _ id m (λ j b. b) h
  take_turn-NoShell (calls (ticks now world)) m a h =
      execute_each-NoShell world (get_due_jobs now m) m h
  take_turn-NoShell (calls reloads) m a h = load_each-NoShell m.rows _ h.1 h

  -- Over any calls of cron_add and of the manager no shell job of the model is ever made or saved,
  -- where the other code adds none and the table has none at first: whatever cron_add is asked for, and
  -- however jobs are replaced, enabled and loaded.
  pub take_turns-NoShell :
      (us : List Turn) (m : CronManager Json)
      → All AddsAllowed us
      → NoShell py m
      → NoShell py (take_turns us m)
  unfolding take_turns
  take_turns-NoShell [] m a h = h
  take_turns-NoShell (u ∷ us) m a h =
      take_turns-NoShell us (take_turn u m) a.1 (take_turn-NoShell u m a.0 h)
