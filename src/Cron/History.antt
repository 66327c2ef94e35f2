-- ===== src/Cron/History.antt =====
-- Where no call begins before another ends, the table holds a row for each listed job and no other.
use existential_identity_tes.Base.{◌≡◌, refl, ℕ, String, List, [], ◌∷◌, Option-cases, inl, inr}
use existential_identity_tes.Base.Dict
use existential_identity_tes.Cron.{
  Python, CronJob, CronManager, World, Readings, get_job, add_job, remove_job, update_job,
  enable_job, disable_job, tick, load_jobs,
}
use existential_identity_tes.Cron.Stored.{IsStored, write-IsStored}
use existential_identity_tes.Cron.Adding.{added-IsStored, removed-IsStored}
use existential_identity_tes.Cron.Loading.{load_jobs-IsStored}
use existential_identity_tes.Cron.Ticks.{tick-IsStored}

-- A call of the manager from its beginning to its end, with the readings of the clock and the fresh
-- identifier of uuid.
pub data Op (Json : Type 0) : Type 0 where
  adds : ℕ → String → CronJob Json → Op Json
  removes : String → Op Json
  enables : ℕ → String → Op Json
  disables : String → Op Json
  ticks : ℕ → (ℕ → World Json × Readings) → Op Json
  reloads : Op Json

module _ {Json : Type 0} (py : Python Json) (decimal : ℕ → String) where
  unfoldable pub apply : Op Json → CronManager Json → CronManager Json
  unfolding add_job remove_job enable_job disable_job tick load_jobs
  apply (adds now fresh job) m = (add_job py now fresh job m).1
  apply (removes id) m = (remove_job id m).1
  apply (enables now id) m = (enable_job py now id m).1
  apply (disables id) m = (disable_job py id m).1
  apply (ticks now world) m = tick py decimal now world m
  apply reloads m = load_jobs py m

  unfoldable pub run : List (Op Json) → CronManager Json → CronManager Json
  unfolding apply
  run [] m = m
  run (op ∷ ops) m = run ops (apply op m)

  -- A manager before anything was added.
  unfoldable pub empty_manager : CronManager Json
  empty_manager = record { objects = []; jobs = []; rows = []; prompts = [] }

  empty-IsStored : IsStored py empty_manager
  unfolding empty_manager get_job Dict.get
  empty-IsStored = record { keyed = tt; rows_keyed = tt; listed = λ id i h. cc; stored = λ id. tt }

  update-IsStored :
      (f : CronJob Json → CronJob Json) (id : String) (m : CronManager Json)
      → ((job : CronJob Json) → (f job).job_id ≡ job.job_id)
      → IsStored py m
      → IsStored py (update_job py f id m).1
  unfolding update_job
  update-IsStored f id m same v = elim (Option-cases (Dict.get m.jobs id)) [
    | inl e ↦ rw (e, update_job) v
    | inr (i, e) ↦ rw (e, update_job) (write-IsStored py f same id i e v)
  ]

  apply-IsStored : (op : Op Json) (m : CronManager Json) → IsStored py m → IsStored py (apply op m)
  unfolding apply add_job enable_job disable_job
  apply-IsStored (adds now fresh job) m v = added-IsStored py _ v
  apply-IsStored (removes id) m v = removed-IsStored py id v
  apply-IsStored (enables now id) m v = update-IsStored _ id m (λ job. refl) v
  apply-IsStored (disables id) m v = update-IsStored _ id m (λ job. refl) v
  apply-IsStored (ticks now world) m v = tick-IsStored py decimal now world m v
  apply-IsStored reloads m v = load_jobs-IsStored py m v

  run-keeps :
      (ops : List (Op Json)) (m : CronManager Json) → IsStored py m → IsStored py (run ops m)
  unfolding run
  run-keeps [] m v = v
  run-keeps (op ∷ ops) m v = run-keeps ops (apply op m) (apply-IsStored op m v)

  -- After any adds, removals, enablings, disablings, ticks and loads of the table, each of which ends
  -- before the next begins, from a manager without jobs: each identifier is listed once, with an object
  -- of that identifier, and the table holds one row for each listed job and no other. It is the row of
  -- the job as it is now, or that from which the job was read and which is the row of a job as it was.
  pub run-IsStored : (ops : List (Op Json)) → IsStored py (run ops empty_manager)
  run-IsStored ops = run-keeps ops empty_manager empty-IsStored
