-- ===== src/Cron/Ticks.antt =====
-- What a tick does: each job that is due runs once, and no other changes.
use mathlib.Core.Path.{subst}
use existential_identity_tes.Base.{
  ◌≡◌, ◌≤◌, refl, ap, ◌∙◌, ℕ, ◌==◌, String, true, false, List, [], ◌∷◌, Option, none, some, arith,
  Option-cases, Bool-cases, inl, inr, any_of, All, ==_iff,
}
use existential_identity_tes.Base.Text.{str_eq, str_eq_iff}
use existential_identity_tes.Base.Dict
use existential_identity_tes.Base.Keys.{IsDict, IsDict-get}
use existential_identity_tes.Cron.{
  Python, CronJob, CronManager, World, Readings, get_job, object_at, is_due_job, due_entries,
  get_due_jobs, tick,
}
use existential_identity_tes.Cron.Stored.{IsStored, listed_once, get_job_lem, get_job_missing}
use existential_identity_tes.Cron.Runs.{
  ran, AreListed, Distinct, execute_each-IsStored, execute_each_other, execute_each_self,
}

module _ {Json : Type 0} (py : Python Json) (decimal : ℕ → String) where
  -- A job that no entry names is not among the due ones of the entries.
  due_other :
      {m : CronManager Json} (v : IsStored py m) (now : ℕ) (es : List (String × ℕ)) (id : String)
      (i : ℕ)
      → All (λ e. Dict.get m.jobs e.0 ≡ some e.1) es
      → Dict.get m.jobs id ≡ some i
      → Dict.get es id ≡ none
      → any_of (λ j. j == i) (due_entries now m es) ≡ false
  unfolding due_entries Dict.get
  due_other v now [] id i a h n = refl
  due_other {m} v now ((k, l) ∷ es) id i a h n =
      let (job, (f, q)) = v.listed k l a.0 in
      rw (f, due_entries)
        (ground (
          arith,
          due_other v now es id i a.1 h,
          n,
          listed_once py v k id i,
          ==_iff l i,
          a.0,
          str_eq_iff k id,
        ))

  due_self :
      {m : CronManager Json} (v : IsStored py m) (now : ℕ) (es : List (String × ℕ)) (id : String)
      (i : ℕ) (job : CronJob Json)
      → All (λ e. Dict.get m.jobs e.0 ≡ some e.1) es
      → IsDict es
      → Dict.get m.jobs id ≡ some i
      → Dict.get es id ≡ some i
      → object_at m i ≡ some job
      → any_of (λ j. j == i) (due_entries now m es) ≡ is_due_job now job
  unfolding due_entries Dict.get
  due_self v now [] id i job a d g h o = cc
  due_self {m} v now ((k, l) ∷ es) id i job a d g h o = elim (Bool-cases (str_eq k id)) [
    | inl t ↦
        let same : l ≡ i = ground (arith, h, t) in
        rw (ap (object_at m) same ∙ o, due_entries)
          (ground (arith, due_other v now es k i a.1 (a.0 ∙ ap some same) d.0, same, ==_iff l i))
    | inr t ↦
        let (other, (f, q)) = v.listed k l a.0 in
        rw (f, due_entries)
          (ground (
            arith,
            due_self v now es id i job a.1 d.1 g (ground (arith, h, t)) o,
            listed_once py v k id i,
            a.0,
            g,
            t,
            str_eq_iff k id,
            ==_iff l i,
          ))
  ]

  due-Distinct :
      {m : CronManager Json} (v : IsStored py m) (now : ℕ) (es : List (String × ℕ))
      → All (λ e. Dict.get m.jobs e.0 ≡ some e.1) es
      → IsDict es
      → Distinct (due_entries now m es) × AreListed m (due_entries now m es)
  unfolding due_entries
  due-Distinct v now [] a d = (tt, tt)
  due-Distinct {m} v now ((k, l) ∷ es) a d =
      let (job, (f, q)) = v.listed k l a.0 in
      let rest = due-Distinct v now es a.1 d.1 in
      rw (f, due_entries)
        (elim (Bool-cases (is_due_job now job)) [
          | inl e ↦ rw e ((due_other v now es k l a.1 a.0 d.0, rest.0), ((k, a.0), rest.1))
          | inr e ↦ rw e rest
        ])

  -- A job is due where it is enabled and its next run is not in the future.
  abbrev pub IsDue : ℕ → CronJob Json → Type 0
  IsDue now job = (job.enabled ≡ true) × ((t : ℕ) × ((job.next_run ≡ some t) × (t ≤ now)))

  is_due_job-IsDue : (now : ℕ) (job : CronJob Json) → IsDue now job → is_due_job now job ≡ true
  unfolding is_due_job
  is_due_job-IsDue now job (e, (t, (n, l))) = ground (arith, e, n, l)

  IsDue-is_due_job : (now : ℕ) (job : CronJob Json) → is_due_job now job ≡ true → IsDue now job
  unfolding is_due_job
  IsDue-is_due_job now job h = elim (Option-cases job.next_run) [
    | inl e ↦ absurd (ground (arith, h, e))
    | inr (t, e) ↦ (ground (arith, h, e), (t, (e, ground (arith, h, e))))
  ]

  not_due : (now : ℕ) (job : CronJob Json) → ¬ IsDue now job → is_due_job now job ≡ false
  not_due now job h = elim (Bool-cases (is_due_job now job)) [
    | inl e ↦ absurd (h (IsDue-is_due_job now job e))
    | inr e ↦ e
  ]

  -- What a tick makes of what is listed under an identifier.
  abbrev pub AfterTick :
      ℕ → (ℕ → World Json × Readings) → Option (CronJob Json) → Option (CronJob Json) → Type 0
  AfterTick now world none o = o ≡ none
  AfterTick now world (some job) o =
      (IsDue now job → (k : ℕ) × (o ≡ some (ran py decimal (world k) job)))
      × (¬ IsDue now job → o ≡ some job)

  -- For each identifier of a manager whose table is in step: a listed job that is due is afterwards
  -- what one execution makes of it, one that is not due is as it was, and nothing new is listed.
  pub tick_lem :
      (now : ℕ) (world : ℕ → World Json × Readings) (m : CronManager Json) (id : String)
      → IsStored py m
      → AfterTick now world (get_job m id) (get_job (tick py decimal now world m) id)
  unfolding tick get_due_jobs
  tick_lem now world m id v = elim (Option-cases (Dict.get m.jobs id)) [
    | inl e ↦
        let n = get_job_missing py m id e in
        rw n (
          execute_each_other py decimal world (due_entries now m m.jobs) m id v due.1 (λ i g. cc)
          ∙ n)
    | inr (i, e) ↦
        let (job, (f, q)) = v.listed id i e in
        let n = get_job_lem py m id i job e f in
        let self = due_self v now m.jobs id i job entries v.keyed e e f in
        rw n (
          (λ d.
              execute_each_self py decimal world (due_entries now m m.jobs) m id i job v due.1 due.0
                e n (self ∙ is_due_job-IsDue now job d)),
          (λ d.
              execute_each_other py decimal world (due_entries now m m.jobs) m id v due.1 (λ j g.
                subst (λ x. any_of (λ k. k == x) (due_entries now m m.jobs) ≡ false)
                  (ground (arith, e, g)) (self ∙ not_due now job d))
              ∙ n),
        )
  ]
    where
      entries : All (λ e. Dict.get m.jobs e.0 ≡ some e.1) m.jobs
      entries = IsDict-get m.jobs v.keyed

      due : Distinct (due_entries now m m.jobs) × AreListed m (due_entries now m m.jobs)
      due = due-Distinct v now m.jobs entries v.keyed

  pub tick-IsStored :
      (now : ℕ) (world : ℕ → World Json × Readings) (m : CronManager Json)
      → IsStored py m
      → IsStored py (tick py decimal now world m)
  unfolding tick get_due_jobs
  tick-IsStored now world m v =
      execute_each-IsStored py decimal world (due_entries now m m.jobs) m v
        (due-Distinct v now m.jobs (IsDict-get m.jobs v.keyed) v.keyed).1
