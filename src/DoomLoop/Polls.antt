-- ===== src/DoomLoop/Polls.antt =====
-- What `_detect_poll_no_progress` counts, stated without its loop.
use existential_identity_tes.Base.{
  ℕ, suc, ◌≡◌, refl, ap, Bool, not, ◌&&◌, List, [], ◌∷◌, select, Bool-cases, inl, inr,
  if◌then◌else◌,
}
use existential_identity_tes.Base.Text.{str_eq}
use existential_identity_tes.DoomLoop.{ToolCallRecord, DoomLoopConfig, Library, poll_no_progress}
use existential_identity_tes.DoomLoop.Detectors.{
  Thresholds, judge, no_progress, poll_count, polls, detect_poll_no_progress,
}

-- How many elements at the front satisfy a test.
abbrev pub leading {ℓ} : {A : Type ℓ} → (A → Bool) → List A → ℕ
leading p [] = 0
leading p (x ∷ xs) = let rest = leading p xs in if p x then suc rest else 0

abbrev pub has_result : ToolCallRecord → Bool
has_result r = not (str_eq r.result_hash "")

module _ {Args : Type 0} (py : Library Args) (config : DoomLoopConfig) where
  -- A call with the arguments of the newest one and no progress over it.
  abbrev pub stalls : ToolCallRecord → ToolCallRecord → Bool
  stalls newest r = str_eq r.args_hash newest.args_hash && no_progress py config newest r

  -- The newest call with a result, and those before it that stall in one row.
  abbrev pub stalled : List ToolCallRecord → ℕ
  stalled [] = 0
  stalled (r ∷ rs) = suc (leading (stalls r) rs)

  poll_count-leading :
      (newest : ToolCallRecord) (rs : List ToolCallRecord)
      → poll_count py config newest rs ≡ leading (stalls newest) (select has_result rs)
  unfolding poll_count
  poll_count-leading newest [] = refl
  poll_count-leading newest (r ∷ rs) = elim (Bool-cases (str_eq r.result_hash "")) [
    | inl e ↦ rw e (poll_count-leading newest rs)
    | inr e ↦ rw (e, poll_count-leading newest rs) refl
  ]

  polls-stalled :
      (history : List ToolCallRecord)
      → polls py config history ≡ stalled (select has_result history)
  unfolding polls
  polls-stalled [] = refl
  polls-stalled (r ∷ rs) = elim (Bool-cases (str_eq r.result_hash "")) [
    | inl e ↦ rw e (polls-stalled rs)
    | inr e ↦ rw e (ap suc (poll_count-leading r rs))
  ]

  -- `_detect_poll_no_progress` judges, among the calls that have a result, the newest and how many
  -- before it have in one row the same arguments and the same result, or one that is similar enough.
  pub detect_poll_no_progress_exact :
      (history : List ToolCallRecord) (t : Thresholds)
      → detect_poll_no_progress py config history t
        ≡ judge poll_no_progress t (stalled (select has_result history))
  unfolding detect_poll_no_progress
  detect_poll_no_progress_exact history t = ap (judge poll_no_progress t) (polls-stalled history)
