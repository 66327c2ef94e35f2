-- ===== src/Cron/Adding.antt =====
-- A job that is added or removed: what is listed then, and the table.
use mathlib.Core.Path.{subst}
use existential_identity_tes.Base.{
  ◌≡◌, refl, ◌∙◌, sym, ℕ, ◌<◌, if◌then◌else◌, String, [], ◌∷◌, none, some, length, arith,
  get_elem?-snoc, get_elem?-lt, length-append, Option-cases, Bool-cases, inl, inr,
}
use existential_identity_tes.Base.Text.{str_eq, str_eq_iff}
use existential_identity_tes.Base.Dict
use existential_identity_tes.Base.Keys.{put-IsDict, remove-IsDict}
use existential_identity_tes.Cron.{
  Python, CronJob, Row, CronManager, save_row, job_row, get_job, object_at, save_job, list_job,
  remove_job,
}
use existential_identity_tes.Cron.Stored.{
  Matches, IsStored, get-save_row_at, save_row-IsDict, job_row-id, save_job_lem, get_job_missing,
  get_job-save_job,
}

-- The listed numbers are those of objects.
abbrev pub AreBound : {Json : Type 0} → CronManager Json → Type 0
AreBound m = (id : String) (i : ℕ) → Dict.get m.jobs id ≡ some i → i < length m.objects

-- Each identifier is listed with an object of that identifier.
abbrev pub AreListed : {Json : Type 0} → CronManager Json → Type 0
AreListed {Json} m =
    (id : String) (i : ℕ)
    → Dict.get m.jobs id ≡ some i
    → (job : CronJob Json) × ((object_at m i ≡ some job) × (job.job_id ≡ id))

pub list_job-AreBound :
    {Json : Type 0} (m : CronManager Json) (job : CronJob Json)
    → AreBound m
    → AreBound (list_job job m)
unfolding list_job
list_job-AreBound m job v id i h = ground (
  arith,
  h,
  Dict.get-put m.jobs job.job_id id (length m.objects),
  v id i,
  length-append m.objects (job ∷ []),
)

module _ {Json : Type 0} where
  pub get_job-list_job :
      (m : CronManager Json) (v : AreBound m) (job : CronJob Json) (id : String)
      → get_job (list_job job m) id ≡ (if str_eq job.job_id id then some job else get_job m id)
  unfolding get_job list_job
  get_job-list_job m v job id = elim (Bool-cases (str_eq job.job_id id)) [
    | inl t ↦
        rw (Dict.get-put m.jobs job.job_id id (length m.objects), t, get_job)
          (ground (arith, get_elem?-snoc m.objects job (length m.objects)))
    | inr t ↦
        rw (Dict.get-put m.jobs job.job_id id (length m.objects), t, get_job)
          (elim (Option-cases (Dict.get m.jobs id)) [
            | inl e ↦ rw (e, get_job) refl
            | inr (i, e) ↦
                rw (e, get_job) (ground (arith, get_elem?-snoc m.objects job i, v id i e))
          ])
  ]

  pub listed-list_job :
      (m : CronManager Json) (v : AreListed m) (job : CronJob Json) (id : String) (i : ℕ)
      → Dict.get (list_job job m).jobs id ≡ some i
      → (j : CronJob Json) × ((object_at (list_job job m) i ≡ some j) × (j.job_id ≡ id))
  unfolding list_job
  listed-list_job m v job id i h = elim (Bool-cases (str_eq job.job_id id)) [
    | inl t ↦ (
      job,
      (
        ground (
          arith,
          h,
          t,
          Dict.get-put m.jobs job.job_id id (length m.objects),
          get_elem?-snoc m.objects job i,
        ),
        (str_eq_iff job.job_id id).0 t,
      ),
    )
    | inr t ↦
        let (j, (f, q)) =
          v id i (ground (arith, h, t, Dict.get-put m.jobs job.job_id id (length m.objects))) in
        (j, (ground (arith, get_elem?-snoc m.objects job i, get_elem?-lt m.objects i f, f), q))
  ]

module _ {Json : Type 0} (py : Python Json) where
  stored-AreBound : {m : CronManager Json} → IsStored py m → AreBound m
  stored-AreBound {m} v id i h = get_elem?-lt m.objects i (v.listed id i h).1.0

  -- A new object that is listed and saved.
  abbrev pub added_job : CronJob Json → CronManager Json → CronManager Json
  added_job job m = save_job py (length m.objects) (list_job job m)

  new_object :
      (m : CronManager Json) (job : CronJob Json)
      → object_at (list_job job m) (length m.objects) ≡ some job
  unfolding list_job
  new_object m job = ground (arith, get_elem?-snoc m.objects job (length m.objects))

  list_job-stored :
      {m : CronManager Json} (v : IsStored py m) (job : CronJob Json) (id : String)
      → Matches py (get_job (list_job job m) id) (Dict.get (save_row (job_row py job) m.rows) id)
  list_job-stored {m} v job id =
      rw
        (
          get-save_row_at py (job_row py job) m.rows id job.job_id (job_row-id py job),
          get_job-list_job m (stored-AreBound v) job id,
        )
        (elim (Bool-cases (str_eq job.job_id id)) [
          | inl t ↦ rw t (inl refl)
          | inr t ↦ rw t (v.stored id)
        ])

  pub added-IsStored :
      {m : CronManager Json} (job : CronJob Json) → IsStored py m → IsStored py (added_job job m)
  unfolding list_job get_job
  added-IsStored {m} job v =
      subst (IsStored py)
        (sym (save_job_lem py (list_job job m) (length m.objects) job (new_object m job)))
        (record {
          keyed = put-IsDict m.jobs job.job_id (length m.objects) v.keyed;
          rows_keyed = save_row-IsDict py (job_row py job) m.rows v.rows_keyed;
          listed = λ id i h. listed-list_job m v.listed job id i h;
          stored = λ id. list_job-stored v job id;
        })

  pub get_job-added :
      {m : CronManager Json} (v : IsStored py m) (job : CronJob Json) (id : String)
      → get_job (added_job job m) id ≡ (if str_eq job.job_id id then some job else get_job m id)
  get_job-added {m} v job id =
      get_job-save_job py (list_job job m) (length m.objects) id
      ∙ get_job-list_job m (stored-AreBound v) job id

  get_job-remove :
      (m : CronManager Json) (rows : Dict.Dict Row) (job_id id : String)
      → get_job (record m { jobs = Dict.remove m.jobs job_id; rows = rows }) id
        ≡ (if str_eq job_id id then none else get_job m id)
  unfolding get_job
  get_job-remove m rows job_id id =
      rw (Dict.get-remove m.jobs job_id id, get_job)
        (elim (Bool-cases (str_eq job_id id)) [ inl t ↦ rw t refl | inr t ↦ rw t refl ])

  pub get_job-remove_job :
      (m : CronManager Json) (job_id id : String)
      → get_job (remove_job job_id m).1 id ≡ (if str_eq job_id id then none else get_job m id)
  unfolding remove_job
  get_job-remove_job m job_id id = elim (Option-cases (Dict.get m.jobs job_id)) [
    | inl e ↦
        rw (e, remove_job)
          (elim (Bool-cases (str_eq job_id id)) [
            | inl t ↦ rw (t, ← ((str_eq_iff job_id id).0 t)) (get_job_missing py m job_id e)
            | inr t ↦ rw t refl
          ])
    | inr (i, e) ↦ rw (e, remove_job) (get_job-remove m (Dict.remove m.rows job_id) job_id id)
  ]

  pub removed-IsStored :
      {m : CronManager Json} (job_id : String) → IsStored py m → IsStored py (remove_job job_id m).1
  unfolding remove_job
  removed-IsStored {m} job_id v = elim (Option-cases (Dict.get m.jobs job_id)) [
    | inl e ↦ rw (e, remove_job) v
    | inr (i, e) ↦
        rw (e, remove_job)
          (record {
            keyed = remove-IsDict m.jobs job_id v.keyed;
            rows_keyed = remove-IsDict m.rows job_id v.rows_keyed;
            listed = λ id j h. v.listed id j (ground (arith, h, Dict.get-remove m.jobs job_id id));
            stored = λ id.
                rw
                  (
                    get_job-remove m (Dict.remove m.rows job_id) job_id id,
                    Dict.get-remove m.rows job_id id,
                  )
                  (elim (Bool-cases (str_eq job_id id)) [
                    | inl t ↦ rw t tt
                    | inr t ↦ rw t (v.stored id)
                  ]);
          })
  ]
