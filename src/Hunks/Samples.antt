-- ===== src/Hunks/Samples.antt =====
-- A file that is written twice and rolled back, and the theorems at it.
use existential_identity_tes.Base.{◌≡◌, refl, ℕ, String, true, List, [], ◌∷◌, Option, some, none}
use existential_identity_tes.Base.Dict
use existential_identity_tes.Hunks.{Hunk, HunkTracker, Library, latest_after, next_id, largest_id}
use existential_identity_tes.Hunks.Store.{
  Call, edit, record_call, rollback_call, IsLibrary, view, step, run, store_run,
}
use existential_identity_tes.Hunks.Refine.{run_refines}
use existential_identity_tes.Hunks.Rollback.{rollback-record}
use existential_identity_tes.Hunks.Chain.{IsChained, run-IsChained}

abbrev py : Library
py = record {
  resolve = λ p. p;
  name = λ p. p;
  splitlines = λ s. s ∷ [];
  lower = λ s. s;
  utf8_length = λ s. 3;
  unified_diff = λ a b p q. a;
  decimal = λ n. "1";
  git_head_content = λ p. none;
}

abbrev lib : IsLibrary py
lib = record { resolve-resolve = λ p. refl; lower-write = refl; lower-rollback = refl }

abbrev tracker : HunkTracker
tracker = record { is_open = true; rows = []; touched = []; disk = [] }

abbrev calls : List (ℕ × Call)
calls =
    (2, edit "/a" "new")
    ∷ (3, record_call "/a" "patch" (some "old") none "file_patch" "t2" 3)
    ∷ (4, rollback_call true "/a" 1)
    ∷ []

run_refines_example :
    ((run py calls tracker).0 ≡ (store_run py calls (view tracker)).0)
    × (view (run py calls tracker).1 ≡ (store_run py calls (view tracker)).1)
run_refines_example = run_refines py lib calls tracker (tt, (tt, (refl, tt))) (refl, tt)

rollback-record_example :
    let recorded =
      step py 1 (record_call "/a" "write" none (some "old") "file_write" "t1" 3) tracker in
    let back = step py 9 (rollback_call true "/a" 1) (run py calls recorded.1).1 in
    (recorded.0 ≡ some 1)
    × ((Dict.get back.1.disk "/a" ≡ some "old") × (latest_after "/a" back.1.rows ≡ some "old"))
unfolding next_id largest_id
rollback-record_example =
    rollback-record py lib 1 9 "/a" "write" "/a" none "old" "file_write" "t1" 3 calls tracker
      (refl, tt) refl (tt, (tt, (refl, tt))) refl

run-IsChained_example : IsChained (run py calls tracker).1.rows
run-IsChained_example = run-IsChained py calls tracker tt

abbrev hunk : ℕ → String → Option ℕ → Hunk
hunk id turn parent_id = record {
  id = id;
  file_path = "/a";
  turn_id = turn;
  timestamp = id;
  diff = "+x";
  author = "file_write";
  parent_id = parent_id;
  content_before = some "";
  content_after = some "x";
  action = "write";
  size = 1;
}
