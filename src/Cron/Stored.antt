-- ===== src/Cron/Stored.antt =====
-- The table holds a row for each listed job, and what the jobs are after each operation.
use mathlib.Core.Option
use mathlib.Core.Path.{subst}
use existential_identity_tes.Base.{
  ◌≡◌, refl, ap, ◌∙◌, sym, ℕ, ◌==◌, if◌then◌else◌, String, Option, ◌⊎◌, none, some, get_elem?,
  modify, arith, get_elem?-modify, Option-cases, Bool-cases, inl, inr,
}
use existential_identity_tes.Base.Text.{str_eq, str_eq_iff}
use existential_identity_tes.Base.Dict
use existential_identity_tes.Base.Keys.{IsDict, remove-IsDict, get-snoc, snoc-IsDict}
use existential_identity_tes.Cron.{
  Python, CronJob, Row, CronManager, save_row, job_row, row_job, get_job, object_at, set_job,
  save_job,
}

module _ {Json : Type 0} (py : Python Json) where
  -- What is listed under an identifier and its row: both or none, and the row is that of the job as it
  -- is now, or that of a job from which the listed one was read.
  abbrev pub Matches : Option (CronJob Json) → Option Row → Type 0
  Matches none none = Unit
  Matches none (some row) = ⊥
  Matches (some job) none = ⊥
  Matches (some job) (some row) =
      (row ≡ job_row py job)
      ⊎ ((saved : CronJob Json) × ((row ≡ job_row py saved) × (job ≡ row_job py row)))

  pub record IsStored (m : CronManager Json) : Type 0 where
    pub keyed : IsDict m.jobs
    pub rows_keyed : IsDict m.rows
    pub listed :
        (id : String) (i : ℕ)
        → Dict.get m.jobs id ≡ some i
        → (job : CronJob Json) × ((object_at m i ≡ some job) × (job.job_id ≡ id))
    pub stored : (id : String) → Matches (get_job m id) (Dict.get m.rows id)

  get-save_row :
      (row : Row) (rows : Dict.Dict Row) (id : String)
      → Dict.get (save_row row rows) id
        ≡ (if str_eq row.job_id id then some row else Dict.get rows id)
  unfolding save_row
  get-save_row row rows id = ground (
    arith,
    get-snoc (Dict.remove rows row.job_id) row.job_id id row,
    Dict.get-remove rows row.job_id id,
    Dict.get-remove rows row.job_id row.job_id,
    str_eq_iff row.job_id row.job_id,
  )

  pub get-save_row_at :
      (row : Row) (rows : Dict.Dict Row) (id k : String)
      → row.job_id ≡ k
      → Dict.get (save_row row rows) id ≡ (if str_eq k id then some row else Dict.get rows id)
  get-save_row_at row rows id k h =
      get-save_row row rows id ∙ ap (λ s. if str_eq s id then some row else Dict.get rows id) h

  pub job_row-id : (job : CronJob Json) → (job_row py job).job_id ≡ job.job_id
  unfolding job_row
  job_row-id job = refl

  pub save_row-IsDict :
      (row : Row) (rows : Dict.Dict Row) → IsDict rows → IsDict (save_row row rows)
  unfolding save_row
  save_row-IsDict row rows h =
      snoc-IsDict (Dict.remove rows row.job_id) row.job_id row
        (ground
          (arith, Dict.get-remove rows row.job_id row.job_id, str_eq_iff row.job_id row.job_id))
        (remove-IsDict rows row.job_id h)

  pub save_job_lem :
      (m : CronManager Json) (i : ℕ) (job : CronJob Json)
      → object_at m i ≡ some job
      → save_job py i m ≡ record m { rows = save_row (job_row py job) m.rows }
  unfolding save_job
  save_job_lem m i job e = rw (e, save_job) refl

  pub get_job_lem :
      (m : CronManager Json) (id : String) (i : ℕ) (job : CronJob Json)
      → Dict.get m.jobs id ≡ some i
      → object_at m i ≡ some job
      → get_job m id ≡ some job
  unfolding get_job
  get_job_lem m id i job h e = rw (h, get_job) e

  pub get_job_missing :
      (m : CronManager Json) (id : String) → Dict.get m.jobs id ≡ none → get_job m id ≡ none
  unfolding get_job
  get_job_missing m id h = rw (h, get_job) refl

  pub get_job-save_job :
      (m : CronManager Json) (i : ℕ) (id : String) → get_job (save_job py i m) id ≡ get_job m id
  unfolding get_job save_job
  get_job-save_job m i id = elim (Option-cases (object_at m i)) [
    | inl e ↦ rw (e, save_job) refl
    | inr (job, e) ↦ rw (e, save_job) refl
  ]

  -- Two identifiers never list one object.
  pub listed_once :
      {m : CronManager Json} (v : IsStored m) (k id : String) (i : ℕ)
      → Dict.get m.jobs k ≡ some i
      → Dict.get m.jobs id ≡ some i
      → k ≡ id
  listed_once v k id i h g = ground (arith, v.listed k i h, v.listed id i g)

  module _ (f : CronJob Json → CronJob Json)
      (same_id : (job : CronJob Json) → (f job).job_id ≡ job.job_id) where
    pub get_job-set_job :
        {m : CronManager Json} (v : IsStored m) (k : String) (i : ℕ) (id : String)
        → Dict.get m.jobs k ≡ some i
        → get_job (set_job i f m) id
          ≡ (if str_eq k id then Option.map f (get_job m id) else get_job m id)
    unfolding get_job set_job
    get_job-set_job {m} v k i id h = elim (Option-cases (Dict.get m.jobs id)) [
      | inl e ↦ rw (e, get_job) (ground arith)
      | inr (j, e) ↦
          rw (e, get_job)
            (ground (
              arith,
              get_elem?-modify m.objects i f j,
              str_eq_iff k id,
              listed_once v k id i h,
              h,
              e,
            ))
    ]

    -- A change of a listed job that is saved: it is that of the job under its identifier only.
    pub get_job-write :
        {m : CronManager Json} (v : IsStored m) (k : String) (i : ℕ) (id : String)
        → Dict.get m.jobs k ≡ some i
        → get_job (save_job py i (set_job i f m)) id
          ≡ (if str_eq k id then Option.map f (get_job m id) else get_job m id)
    get_job-write {m} v k i id h =
        get_job-save_job (set_job i f m) i id ∙ get_job-set_job v k i id h

    write-listed :
        {m : CronManager Json} (v : IsStored m) (i : ℕ) (id : String) (j : ℕ)
        → Dict.get m.jobs id ≡ some j
        → (job : CronJob Json) × ((get_elem? (modify m.objects i f) j ≡ some job)
            × (job.job_id ≡ id))
    write-listed {m} v i id j l =
        let (job, (e, q)) = v.listed id j l in
        elim (Bool-cases (i == j)) [
          | inl t ↦
              (f job, (ground (arith, get_elem?-modify m.objects i f j, e, t), same_id job ∙ q))
          | inr t ↦ (job, (ground (arith, get_elem?-modify m.objects i f j, e, t), q))
        ]

    write-stored :
        {m : CronManager Json} (v : IsStored m) (k : String) (i : ℕ) (id : String)
        (job : CronJob Json)
        → Dict.get m.jobs k ≡ some i
        → object_at m i ≡ some job
        → job.job_id ≡ k
        → Matches (get_job (set_job i f m) id) (Dict.get (save_row (job_row py (f job)) m.rows) id)
    write-stored {m} v k i id job h e q =
        rw
          (
            get-save_row_at (job_row py (f job)) m.rows id k (job_row-id (f job) ∙ same_id job ∙ q),
            get_job-set_job v k i id h,
          )
          (elim (Bool-cases (str_eq k id)) [
            | inl t ↦ rw (t, ← ((str_eq_iff k id).0 t), get_job_lem m k i job h e) (inl refl)
            | inr t ↦ rw t (v.stored id)
          ])

    pub write-IsStored :
        {m : CronManager Json} (k : String) (i : ℕ)
        → Dict.get m.jobs k ≡ some i
        → IsStored m
        → IsStored (save_job py i (set_job i f m))
    unfolding set_job get_job
    write-IsStored {m} k i h v =
        let (job, (e, q)) = v.listed k i h in
        let g : get_elem? (modify m.objects i f) i ≡ some (f job) =
          ground (arith, get_elem?-modify m.objects i f i, e) in
        let w = save_job_lem (set_job i f m) i (f job) g in
        subst IsStored (sym w) (record {
          keyed = v.keyed;
          rows_keyed = save_row-IsDict (job_row py (f job)) m.rows v.rows_keyed;
          listed = λ id j l. write-listed v i id j l;
          stored = λ id. write-stored v k i id job h e q;
        })
