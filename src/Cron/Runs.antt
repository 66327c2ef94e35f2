-- ===== src/Cron/Runs.antt =====
-- What executions of listed jobs, one after the other, make of the jobs.
use mathlib.Core.Option
use mathlib.Core.Path.{subst}
use existential_identity_tes.Base.{
  ◌≡◌, refl, ap, ◌∙◌, sym, ℕ, suc, ◌==◌, if◌then◌else◌, String, true, false, List, [], ◌∷◌, some,
  arith, Option-cases, Bool-cases, inl, inr, any_of, All, ==_iff,
}
use existential_identity_tes.Base.Text.{str_eq, str_eq_iff}
use existential_identity_tes.Base.Dict
use existential_identity_tes.Cron.{
  Python, CronJob, CronManager, World, Readings, RunResult, job_outcome, note_result, get_job,
  object_at, set_job, save_job, finish_job, queue_prompts, execute_job, execute_each,
}
use existential_identity_tes.Cron.Stored.{
  IsStored, listed_once, get_job_lem, get_job-write, write-IsStored,
}

-- The objects of a list are listed, and each stands in it once.
abbrev pub AreListed : {Json : Type 0} → CronManager Json → List ℕ → Type 0
AreListed m is = All (λ i. (k : String) × (Dict.get m.jobs k ≡ some i)) is

abbrev pub Distinct : List ℕ → Type 0
Distinct [] = Unit
Distinct (i ∷ is) = (any_of (λ j. j == i) is ≡ false) × Distinct is

module _ {Json : Type 0} (py : Python Json) (decimal : ℕ → String) where
  -- What one execution makes of a job.
  abbrev pub ran : World Json × Readings → CronJob Json → CronJob Json
  ran w job = note_result py w.1 (job_outcome py decimal w.0 job) job

  note_result-id :
      (t : Readings) (o : RunResult) (job : CronJob Json)
      → (note_result py t o job).job_id ≡ job.job_id
  unfolding note_result
  note_result-id t o job = refl

  prompts-IsStored :
      {m : CronManager Json} (now : ℕ) (job : CronJob Json)
      → IsStored py m
      → IsStored py (queue_prompts py now job m)
  unfolding queue_prompts get_job
  prompts-IsStored now job v = record {
    keyed = v.keyed;
    rows_keyed = v.rows_keyed;
    listed = v.listed;
    stored = v.stored;
  }

  get_job-queue_prompts :
      (m : CronManager Json) (now : ℕ) (job : CronJob Json) (id : String)
      → get_job (queue_prompts py now job m) id ≡ get_job m id
  unfolding queue_prompts get_job
  get_job-queue_prompts m now job id = refl

  save_job-jobs : (m : CronManager Json) (i : ℕ) → (save_job py i m).jobs ≡ m.jobs
  unfolding save_job
  save_job-jobs m i = elim (Option-cases (object_at m i)) [
    | inl e ↦ rw (e, save_job) refl
    | inr (job, e) ↦ rw (e, save_job) refl
  ]

  execute_job_lem :
      (m : CronManager Json) (w : World Json) (t : Readings) (i : ℕ) (job : CronJob Json)
      → object_at m i ≡ some job
      → execute_job py decimal w t i m
        ≡ finish_job py t (job_outcome py decimal w job) i (queue_prompts py t.queued job m)
  unfolding execute_job
  execute_job_lem m w t i job h = rw (h, execute_job) refl

  module _ {m : CronManager Json} (v : IsStored py m) (w : World Json) (t : Readings) (k : String)
      (i : ℕ) (h : Dict.get m.jobs k ≡ some i) where
    execute_job-IsStored : IsStored py (execute_job py decimal w t i m)
    unfolding finish_job queue_prompts
    execute_job-IsStored =
        let (job, (e, q)) = v.listed k i h in
        subst (IsStored py) (sym (execute_job_lem m w t i job e)) (
          write-IsStored py (note_result py t (job_outcome py decimal w job))
            (note_result-id t (job_outcome py decimal w job)) k i h
            (prompts-IsStored t.queued job v))

    execute_job-jobs : (execute_job py decimal w t i m).jobs ≡ m.jobs
    unfolding finish_job queue_prompts set_job
    execute_job-jobs =
        let (job, (e, q)) = v.listed k i h in
        rw (execute_job_lem m w t i job e) (
          save_job-jobs
            (set_job i (note_result py t (job_outcome py decimal w job))
              (queue_prompts py t.queued job m))
            i)

    get_job-execute_job :
        (id : String)
        → get_job (execute_job py decimal w t i m) id
          ≡ (if str_eq k id then Option.map (ran (w, t)) (get_job m id) else get_job m id)
    unfolding finish_job queue_prompts
    get_job-execute_job id =
        let (job, (e, q)) = v.listed k i h in
        let o = job_outcome py decimal w job in
        rw (execute_job_lem m w t i job e) (
          get_job-write py (note_result py t o) (note_result-id t o)
            (prompts-IsStored t.queued job v) k i id h
          ∙ rw (get_job-queue_prompts m t.queued job id) (elim (Bool-cases (str_eq k id)) [
            | inl s ↦ rw (s, ← ((str_eq_iff k id).0 s), get_job_lem py m k i job h e) refl
            | inr s ↦ rw s refl
          ]))

  AreListed-execute_job :
      {m : CronManager Json} (v : IsStored py m) (w : World Json) (t : Readings) (k : String)
      (i : ℕ)
      → Dict.get m.jobs k ≡ some i
      → (is : List ℕ) → AreListed m is
      → AreListed (execute_job py decimal w t i m) is
  AreListed-execute_job v w t k i h [] a = tt
  AreListed-execute_job v w t k i h (j ∷ is) a =
      ((a.0.0, rw (execute_job-jobs v w t k i h) a.0.1), AreListed-execute_job v w t k i h is a.1)

  pub execute_each-IsStored :
      (world : ℕ → World Json × Readings) (is : List ℕ) (m : CronManager Json)
      → IsStored py m
      → AreListed m is
      → IsStored py (execute_each py decimal world is m)
  unfolding execute_each
  execute_each-IsStored world [] m v a = v
  execute_each-IsStored world (i ∷ is) m v a =
      let w = (world 0).0 in
      let t = (world 0).1 in
      execute_each-IsStored (λ k. world (suc k)) is (execute_job py decimal w t i m)
        (execute_job-IsStored v w t a.0.0 i a.0.1)
        (AreListed-execute_job v w t a.0.0 i a.0.1 is a.1)

  -- A job that is not among them stays as it is.
  pub execute_each_other :
      (world : ℕ → World Json × Readings) (is : List ℕ) (m : CronManager Json) (id : String)
      → IsStored py m
      → AreListed m is
      → ((i : ℕ) → Dict.get m.jobs id ≡ some i → any_of (λ j. j == i) is ≡ false)
      → get_job (execute_each py decimal world is m) id ≡ get_job m id
  unfolding execute_each
  execute_each_other world [] m id v a n = refl
  execute_each_other world (i ∷ is) m id v a n =
      let w = (world 0).0 in
      let t = (world 0).1 in
      execute_each_other (λ k. world (suc k)) is (execute_job py decimal w t i m) id
        (execute_job-IsStored v w t a.0.0 i a.0.1)
        (AreListed-execute_job v w t a.0.0 i a.0.1 is a.1)
        (λ j g. ground (arith, n j, g, execute_job-jobs v w t a.0.0 i a.0.1))
      ∙ get_job-execute_job v w t a.0.0 i a.0.1 id
      ∙ ground (arith, n i, a.0.1, str_eq_iff a.0.0 id)

  -- One that is among them has run once.
  pub execute_each_self :
      (world : ℕ → World Json × Readings) (is : List ℕ) (m : CronManager Json) (id : String) (i : ℕ)
      (job : CronJob Json)
      → IsStored py m
      → AreListed m is
      → Distinct is
      → Dict.get m.jobs id ≡ some i
      → get_job m id ≡ some job
      → any_of (λ j. j == i) is ≡ true
      → (k : ℕ) × (get_job (execute_each py decimal world is m) id ≡ some (ran (world k) job))
  unfolding execute_each
  execute_each_self world [] m id i job v a d h g n = cc
  execute_each_self world (l ∷ is) m id i job v a d h g n =
      let w = (world 0).0 in
      let t = (world 0).1 in
      let v' = execute_job-IsStored v w t a.0.0 l a.0.1 in
      let a' = AreListed-execute_job v w t a.0.0 l a.0.1 is a.1 in
      let jobs = execute_job-jobs v w t a.0.0 l a.0.1 in
      let step = get_job-execute_job v w t a.0.0 l a.0.1 id in
      elim (Bool-cases (l == i)) [
        | inl e ↦
            let same = (==_iff l i).0 e in
            let key : a.0.0 ≡ id = listed_once py v a.0.0 id i (a.0.1 ∙ ap some same) h in
            (
              0,
              execute_each_other (λ k. world (suc k)) is (execute_job py decimal w t l m) id v' a'
                    (λ j q.
                      subst (λ x. any_of (λ k. k == x) is ≡ false)
                        (ground (arith, q, jobs, h, same)) d.0)
                  ∙ step
                  ∙ rw ((str_eq_iff a.0.0 id).1 key, g) refl,
            )
        | inr e ↦
            let rest =
              execute_each_self (λ k. world (suc k)) is (execute_job py decimal w t l m) id i job v'
                a' d.1 (ap (λ r. Dict.get r id) jobs ∙ h)
                (ground (arith, step, g, str_eq_iff a.0.0 id, a.0.1, h, e, ==_iff l i))
                (ground (arith, n, e)) in
            (suc rest.0, rest.1)
      ]
