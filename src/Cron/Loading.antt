-- ===== src/Cron/Loading.antt =====
-- What is listed after the table is loaded.
use mathlib.Core.Option
use existential_identity_tes.Base.{
  ◌≡◌, refl, ap, ◌∙◌, sym, String, List, [], ◌∷◌, Option, none, some, All, All-map, Option-cases,
  inl, inr, arith,
}
use existential_identity_tes.Base.Text.{str_eq_iff}
use existential_identity_tes.Base.Dict
use existential_identity_tes.Base.Keys.{IsDict, IsDict-get, put-IsDict}
use existential_identity_tes.Cron.{
  Python, CronJob, Row, CronManager, row_job, get_job, list_job, load_each, load_jobs,
}
use existential_identity_tes.Cron.Stored.{
  Matches, IsStored, job_row-id, get_job_lem, get_job_missing,
}
use existential_identity_tes.Cron.Adding.{
  AreBound, AreListed, list_job-AreBound, listed-list_job, get_job-list_job,
}

module _ {Json : Type 0} (py : Python Json) where
  row_job-id : (row : Row) → (row_job py row).job_id ≡ row.job_id
  unfolding row_job
  row_job-id row = refl

  abbrev loaded_or : Option (CronJob Json) → Option Row → Option (CronJob Json)
  loaded_or o none = o
  loaded_or o (some row) = some (row_job py row)

  get_job-load_each :
      (es : List (String × Row)) (m : CronManager Json) (id : String)
      → AreBound m
      → IsDict es
      → All (λ e. e.1.job_id ≡ e.0) es
      → get_job (load_each py es m) id ≡ loaded_or (get_job m id) (Dict.get es id)
  unfolding load_each Dict.get
  get_job-load_each [] m id b d a = refl
  get_job-load_each ((k, row) ∷ es) m id b d a =
      get_job-load_each es (list_job (row_job py row) m) id (list_job-AreBound m (row_job py row) b)
        d.1 a.1
      ∙ ground (
        arith,
        get_job-list_job m b (row_job py row) id,
        row_job-id row,
        a.0,
        d.0,
        str_eq_iff k id,
      )

  -- Each row has the identifier of its key.
  abbrev pub AreNamed : Dict.Dict Row → Type 0
  AreNamed rows = (id : String) (row : Row) → Dict.get rows id ≡ some row → row.job_id ≡ id

  -- A row that matches a job has its identifier.
  matched-id :
      (job : CronJob Json) (row : Row) → Matches py (some job) (some row) → row.job_id ≡ job.job_id
  matched-id job row (inl e) = ap (λ r. r.job_id) e ∙ job_row-id py job
  matched-id job row (inr (saved, (e, q))) = sym (ap (λ j. j.job_id) q ∙ row_job-id row)

  pub stored-AreNamed : {m : CronManager Json} → IsStored py m → AreNamed m.rows
  stored-AreNamed {m} v id row h = elim (Option-cases (Dict.get m.jobs id)) [
    | inl e ↦ absurd (rw (get_job_missing py m id e, h) at (v.stored id))
    | inr (i, e) ↦
        let (job, (f, q)) = v.listed id i e in
        matched-id job row (rw (get_job_lem py m id i job e f, h) at (v.stored id)) ∙ q
  ]

  -- Where nothing is listed, the jobs that are loaded are those of the rows.
  pub get_job-load_rows :
      (m : CronManager Json) (rows : Dict.Dict Row) (id : String)
      → ((k : String) → Dict.get m.jobs k ≡ none)
      → IsDict rows
      → AreNamed rows
      → get_job (load_each py rows m) id ≡ Option.map (row_job py) (Dict.get rows id)
  unfolding Dict.get
  get_job-load_rows m rows id free d a =
      get_job-load_each rows m id (λ k i h. absurd (ground (arith, free k, h))) d
        (All-map (λ e. a e.0 e.1) rows (IsDict-get rows d))
      ∙ rw (get_job_missing py m id (free id))
          (elim (Option-cases (Dict.get rows id)) [ inl e ↦ rw e refl | inr (row, e) ↦ rw e refl ])

  load_each-keyed :
      (es : List (String × Row)) (m : CronManager Json)
      → IsDict m.jobs
      → IsDict (load_each py es m).jobs
  unfolding load_each list_job
  load_each-keyed [] m d = d
  load_each-keyed ((k, row) ∷ es) m d =
      load_each-keyed es (list_job (row_job py row) m)
        (put-IsDict m.jobs (row_job py row).job_id _ d)

  load_each-AreListed :
      (es : List (String × Row)) (m : CronManager Json)
      → AreListed m
      → AreListed (load_each py es m)
  unfolding load_each
  load_each-AreListed [] m a = a
  load_each-AreListed ((k, row) ∷ es) m a =
      load_each-AreListed es (list_job (row_job py row) m) (listed-list_job m a (row_job py row))

  rows-load_each :
      (es : List (String × Row)) (m : CronManager Json) → (load_each py es m).rows ≡ m.rows
  unfolding load_each list_job
  rows-load_each [] m = refl
  rows-load_each ((k, row) ∷ es) m = rows-load_each es (list_job (row_job py row) m)

  reloaded :
      (o : Option (CronJob Json)) (r : Option Row)
      → Matches py o r
      → Matches py (Option.map (row_job py) r) r
  reloaded none none h = tt
  reloaded none (some row) h = absurd h
  reloaded (some job) none h = tt
  reloaded (some job) (some row) (inl e) = inr (job, (e, refl))
  reloaded (some job) (some row) (inr (saved, (e, q))) = inr (saved, (e, refl))

  -- A manager that loads its table is in step with it.
  pub load_jobs-IsStored : (m : CronManager Json) → IsStored py m → IsStored py (load_jobs py m)
  unfolding load_jobs Dict.get
  load_jobs-IsStored m v =
      let m0 = record m { jobs = [] } in
      record {
        keyed = load_each-keyed m.rows m0 tt;
        rows_keyed = rw (rows-load_each m.rows m0) v.rows_keyed;
        listed = load_each-AreListed m.rows m0 (λ id i h. cc);
        stored = λ id.
            rw
              (
                rows-load_each m.rows m0,
                get_job-load_rows m0 m.rows id (λ k. refl) v.rows_keyed (stored-AreNamed v),
              )
              (reloaded (get_job m id) (Dict.get m.rows id) (v.stored id));
      }
