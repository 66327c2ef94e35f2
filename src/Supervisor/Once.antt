-- ===== src/Supervisor/Once.antt =====
-- At any time at most one thread per task runs its target.
use existential_identity_tes.Base.{
  ◌≡◌, refl, ap, sym, ◌∙◌, ℕ, if◌then◌else◌, String, Bool, true, false, List, [], ◌∷◌, ◌++◌, none,
  some, get_elem?, get_elem?-modify_self, Bool-cases, inl, inr,
}
use existential_identity_tes.Base.Dict
use existential_identity_tes.Supervisor.{
  Supervisor, Worker, running, closing, leaving, dead, Outcome, returned, key_error, blocked, after,
  and_then, alive_task, launch, start_task, is_running, check_one, check_each, check_tasks, keys,
  progress_of, progress_each, get_all_progress, touch_heartbeat, set_progress, in_phase, end_target,
  leave, end_thread, new_supervisor, Progress, heartbeat_age, get_progress,
}
use existential_identity_tes.Supervisor.Steps.{
  Step, start_step, abort_step, ask_step, check_step, progress_step, beat_step, report_step,
  end_step, leave_step, dead_step, Reach, here, next,
}
use existential_identity_tes.Supervisor.Listed.{
  is_listed, IsListed, some-inj, true-false, some-worker, in_phase-IsListed, launch-IsListed,
  unlist-IsListed, abort_task-IsListed, check_one-IsListed, with_lock-IsListed,
}

module _ {ℓ} {A : Type ℓ} where
  and_then-IsListed :
      (o : Outcome (List A)) (k : Supervisor → Outcome (List A))
      → IsListed (after o)
      → ((t : Supervisor) → IsListed t → IsListed (after (k t)))
      → IsListed (after (and_then o k))
  and_then-IsListed (returned es s) k h g = go (k s) (g s h)
    where
      go :
          (r : Outcome (List A))
          → IsListed (after r)
          → IsListed (
              after (elim r [
                | returned fs t ↦ returned (es ++ fs) t
                | key_error t ↦ key_error t
                | blocked t ↦ blocked t
              ]))
      go (returned fs t) i = i
      go (key_error t) i = i
      go (blocked t) i = i
  and_then-IsListed (key_error s) k h g = h
  and_then-IsListed (blocked s) k h g = h

check_each-IsListed :
    (now : ℕ) (ids : List String) (s : Supervisor)
    → IsListed s
    → IsListed (after (check_each now ids s))
unfolding check_each
check_each-IsListed now [] s h = h
check_each-IsListed now (id ∷ ids) s h =
    and_then-IsListed (check_one now id (Dict.get s.tasks id) s) (check_each now ids)
      (check_one-IsListed now id (Dict.get s.tasks id) s refl h) (check_each-IsListed now ids)

is_running-IsListed :
    (id : String) (s : Supervisor) → IsListed s → IsListed (after (is_running id s))
unfolding is_running
is_running-IsListed id s h =
    with_lock-IsListed (λ t. returned (alive_task (Dict.get t.tasks id) t) t) s (λ t k. k) h

progress_of-IsListed :
    (now : ℕ) (id : String) (s : Supervisor) → IsListed s → IsListed (after (progress_of now id s))
unfolding progress_of
progress_of-IsListed now id s h = go (is_running id s) (is_running-IsListed id s h)
  where
    go :
        (o : Outcome Bool)
        → IsListed (after o)
        → IsListed (
            after {A = List Progress} (elim o [
              | returned b t ↦
                  returned
                    (record {
                      task_id = id;
                      text = get_progress id s;
                      heartbeat_age = heartbeat_age now id s;
                      is_running = b;
                    }
                      ∷ [])
                    t
              | key_error t ↦ key_error t
              | blocked t ↦ blocked t
            ]))
    go (returned b t) k = k
    go (key_error t) k = k
    go (blocked t) k = k

progress_each-IsListed :
    (now : ℕ) (ids : List String) (s : Supervisor)
    → IsListed s
    → IsListed (after (progress_each now ids s))
unfolding progress_each
progress_each-IsListed now [] s h = h
progress_each-IsListed now (id ∷ ids) s h =
    and_then-IsListed (progress_of now id s) (progress_each now ids)
      (progress_of-IsListed now id s h) (progress_each-IsListed now ids)

start_task-IsListed :
    (now : ℕ) (id : String) (s : Supervisor) → IsListed s → IsListed (after (start_task now id s))
unfolding start_task
start_task-IsListed now id s h =
    with_lock-IsListed
      (λ t.
        if alive_task (Dict.get t.tasks id) t then returned tt t else returned tt (launch now id t))
      s go h
  where
    go :
        (t : Supervisor)
        → IsListed t
        → IsListed (
            after {0} (
              if alive_task (Dict.get t.tasks id) t
              then returned tt t
              else returned tt (launch now id t)))
    go t k = elim (Bool-cases (alive_task (Dict.get t.tasks id) t)) [
      | inl e ↦ rw e k
      | inr e ↦ rw e (launch-IsListed now id t e k)
    ]

left_alone :
    (n : ℕ) (v : Worker) (s : Supervisor)
    → get_elem? s.threads n ≡ some v
    → (w : Worker) → get_elem? (in_phase leaving n s).threads n ≡ some w
    → is_listed w.phase ≡ true
    → ⊥
unfolding in_phase
left_alone n v s e w f l =
    true-false
      (ap (λ x. is_listed x.phase)
          (some-worker (record v { phase = leaving }) w
            (sym (get_elem?-modify_self s.threads n (λ x. record x { phase = leaving }) v e) ∙ f))
        ∙ l)
      refl

Step-IsListed : {s t : Supervisor} → Step s t → IsListed s → IsListed t
unfolding check_tasks get_all_progress touch_heartbeat set_progress end_target leave end_thread
Step-IsListed (start_step now id s) h = start_task-IsListed now id s h
Step-IsListed (abort_step id s) h = abort_task-IsListed id s h
Step-IsListed (ask_step id s) h = is_running-IsListed id s h
Step-IsListed (check_step now s) h =
    with_lock-IsListed (λ t. check_each now (keys t.tasks) t) s
      (λ t. check_each-IsListed now (keys t.tasks) t) h
Step-IsListed (progress_step now s) h =
    with_lock-IsListed (λ t. progress_each now (keys t.tasks) t) s
      (λ t. progress_each-IsListed now (keys t.tasks) t) h
Step-IsListed (beat_step now id s) h = h
Step-IsListed (report_step id text s) h = h
Step-IsListed (end_step true n id s e) h =
    in_phase-IsListed closing n (record { task_id = id; phase = running }) s e (λ x. refl) h
Step-IsListed (end_step false n id s e) h =
    in_phase-IsListed closing n (record { task_id = id; phase = running }) s e (λ x. refl) h
Step-IsListed (leave_step n id s e l) h =
    unlist-IsListed id (in_phase leaving n s) n
      (h n (record { task_id = id; phase = closing }) e refl)
      (left_alone n (record { task_id = id; phase = closing }) s e)
      (in_phase-IsListed leaving n (record { task_id = id; phase = closing }) s e (λ x. refl) h)
Step-IsListed (dead_step n id s e) h =
    in_phase-IsListed dead n (record { task_id = id; phase = leaving }) (touch_heartbeat 0 id s) e
      (λ x. x) h

Reach-IsListed : {s t : Supervisor} → Reach s t → IsListed s → IsListed t
Reach-IsListed here h = h
Reach-IsListed (next r x) h = Step-IsListed x (Reach-IsListed r h)

-- In every state that a new supervisor reaches, by calls and steps of the threads in any order: two
-- threads of one task that both run their target, or wait to leave the lists, are the same thread.
pub running_once :
    {s : Supervisor} (n m : ℕ) (v w : Worker)
    → Reach new_supervisor s
    → get_elem? s.threads n ≡ some v
    → get_elem? s.threads m ≡ some w
    → is_listed v.phase ≡ true
    → is_listed w.phase ≡ true
    → v.task_id ≡ w.task_id
    → n ≡ m
unfolding new_supervisor
running_once {s} n m v w r e f k l q =
    some-inj n m (sym (all n v e k) ∙ (ap (λ i. Dict.get s.tasks i) q ∙ all m w f l))
  where
    none_some : (u : Worker) → none ≡ some u → ⊥
    none_some u g = true-false refl (ap (λ o. elim o [ none ↦ false | some x ↦ true ]) (sym g))

    all : IsListed s
    all = Reach-IsListed r (λ i u g. absurd (none_some u g))
