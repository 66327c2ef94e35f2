-- ===== src/DoomLoop/Limits.antt =====
-- The adaptive thresholds of the detector.
use existential_identity_tes.Base.{
  ℕ, ◌+◌, ◌-◌, ◌≤◌, List, [], ◌∷◌, length, ltb, arith, Bool-cases, inl, inr,
}
use existential_identity_tes.DoomLoop.{DoomLoopConfig}
use existential_identity_tes.DoomLoop.Detectors.{
  Thresholds, faster, slower, scaled, oldest, by_recent, recent, base_thresholds,
  adaptive_thresholds,
}

-- Thresholds that are no stricter than others.
pub record IsLaxer (s t : Thresholds) : Type 0 where
  pub warns_later : s.warn ≤ t.warn
  pub stops_later : s.critical ≤ t.critical

scaled-IsLaxer :
    (count duration : ℕ) (base : Thresholds)
    → base.warn ≤ 5
    → base.critical ≤ 10
    → IsLaxer base (scaled count duration base)
unfolding scaled
scaled-IsLaxer count duration base w c = elim (Bool-cases (faster 1 1 count duration)) [
  | inl e ↦ rw e (record { warns_later = ground arith; stops_later = ground arith })
  | inr e ↦ elim (Bool-cases (faster 1 2 count duration)) [
    | inl f ↦ rw (e, f) (record { warns_later = ground arith; stops_later = ground arith })
    | inr f ↦ elim (Bool-cases (slower 1 10 count duration)) [
      | inl g ↦ rw (e, f, g) (record { warns_later = ground arith; stops_later = ground arith })
      | inr g ↦ rw (e, f, g) (record { warns_later = ground arith; stops_later = ground arith })
    ]
  ]
]

by_recent-IsLaxer :
    (base : Thresholds) (times : List ℕ)
    → base.warn ≤ 5
    → base.critical ≤ 10
    → IsLaxer base (by_recent base times)
unfolding by_recent
by_recent-IsLaxer base [] w c = record { warns_later = omega arith; stops_later = omega arith }
by_recent-IsLaxer base (t ∷ []) w c = record {
  warns_later = omega arith;
  stops_later = omega arith;
}
by_recent-IsLaxer base (newest ∷ t ∷ ts) w c =
    scaled-IsLaxer (2 + length ts) (newest - oldest t ts) base w c

-- However fast or slowly the calls come, the thresholds are never stricter than the configured
-- ones where these are at most 5 and 10, as by default.
pub adaptive_thresholds-IsLaxer :
    (now : ℕ) (config : DoomLoopConfig) (times : List ℕ)
    → config.warn_threshold_base ≤ 5
    → config.critical_threshold_base ≤ 10
    → IsLaxer (base_thresholds config) (adaptive_thresholds now config times)
unfolding adaptive_thresholds
adaptive_thresholds-IsLaxer now config times w c = elim (Bool-cases config.adaptive_enabled) [
  | inr e ↦ simp e (record { warns_later = omega arith; stops_later = omega arith })
  | inl e ↦ elim (Bool-cases (ltb (length times) 2)) [
    | inl f ↦ simp (e, f) (record { warns_later = omega arith; stops_later = omega arith })
    | inr f ↦ simp (e, f) (by_recent-IsLaxer (base_thresholds config) (recent now times) w c)
  ]
]
