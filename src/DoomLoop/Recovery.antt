-- ===== src/DoomLoop/Recovery.antt =====
-- What a report and a recovery mean: the cache of `detect`, and when `execute_recovery` succeeds.
use existential_identity_tes.Base.{
  ℕ, ltb, ◌≡◌, refl, sym, ap, ◌∙◌, Bool, true, false, Option, none, some, length, arith, Bool-cases,
  Option-cases, inl, inr,
}
use existential_identity_tes.Base.Text.{str_eq, str_eq_iff}
use existential_identity_tes.DoomLoop.{
  RecoveryAction, LoopDetectionResult, no_loop, Detector, Library, reset,
}
use existential_identity_tes.DoomLoop.Detect.{
  recompute, fingerprint, detect, Strategies, Callback, Callbacks, recovery_for, with_recovery,
  confirm, execute_recovery,
}

module _ {Args : Type 0} (py : Library Args) where
  -- The cache holds the last result for the history that is on record.
  pub record IsCached (r : LoopDetectionResult) (d : Detector) : Type 0 where
    pub on : d.config.enabled ≡ true
    pub enough : ltb (length d.history) 3 ≡ false
    pub current : str_eq (fingerprint py d.history) d.last_detect_hash ≡ true
    pub held : d.cached_result ≡ some r

  detect-cached :
      (now : ℕ) (r : LoopDetectionResult) (d : Detector) → IsCached r d → detect py now d ≡ (r, d)
  unfolding detect
  detect-cached now r d h = simp (h.on, h.enough, h.current, h.held) refl

  recompute-IsCached :
      (now : ℕ) (d : Detector)
      → d.config.enabled ≡ true
      → ltb (length d.history) 3 ≡ false
      → IsCached (recompute py now d).0 (recompute py now d).1
  unfolding recompute
  recompute-IsCached now d on enough = record {
    on = on;
    enough = enough;
    current = (str_eq_iff (fingerprint py d.history) (fingerprint py d.history)).1 refl;
    held = refl;
  }

  -- What `detect` reports, if it looks at the history at all, is in the cache.
  detect-IsCached :
      (now : ℕ) (d : Detector)
      → d.config.enabled ≡ true
      → ltb (length d.history) 3 ≡ false
      → IsCached (detect py now d).0 (detect py now d).1
  unfolding detect
  detect-IsCached now d on enough =
      simp (on, enough)
        (elim (Bool-cases (str_eq (fingerprint py d.history) d.last_detect_hash)) [
          | inl e ↦ simp e (elim (Option-cases d.cached_result) [
            | inl k ↦ simp k (recompute-IsCached now d on enough)
            | inr (r, k) ↦ simp k (record { on = on; enough = enough; current = e; held = k })
          ])
          | inr e ↦ simp e (recompute-IsCached now d on enough)
        ])

  detect-off : (now : ℕ) (d : Detector) → d.config.enabled ≡ false → detect py now d ≡ (no_loop, d)
  unfolding detect
  detect-off now d off = simp off refl

  detect-short :
      (now : ℕ) (d : Detector) → ltb (length d.history) 3 ≡ true → detect py now d ≡ (no_loop, d)
  unfolding detect
  detect-short now d short = simp short (ground arith)

  -- Between two records a report is repeated, at whatever time: the thresholds of its own time do
  -- not show in it.
  pub detect-detect :
      (now later : ℕ) (d : Detector) → (detect py later (detect py now d).1).0 ≡ (detect py now d).0
  detect-detect now later d = elim (Bool-cases d.config.enabled) [
    | inr off ↦ rw (detect-off now d off, detect-off later d off) refl
    | inl on ↦ elim (Bool-cases (ltb (length d.history) 3)) [
      | inl short ↦ rw (detect-short now d short, detect-short later d short) refl
      | inr enough ↦ ap (λ x. x.0) (detect-cached later _ _ (detect-IsCached now d on enough))
    ]
  ]

  -- The report of a loop that was detected at an earlier time and is still in the cache.
  stuck-IsCached :
      (now : ℕ) (d : Detector)
      → (detect py now d).0.stuck ≡ true
      → IsCached (detect py now d).0 (detect py now d).1
  stuck-IsCached now d h = elim (Bool-cases d.config.enabled) [
    | inr off ↦ absurd (impossible (ap (λ x. x.0.stuck) (sym (detect-off now d off)) ∙ h))
    | inl on ↦ elim (Bool-cases (ltb (length d.history) 3)) [
      | inl short ↦ absurd (impossible (ap (λ x. x.0.stuck) (sym (detect-short now d short)) ∙ h))
      | inr enough ↦ detect-IsCached now d on enough
    ]
  ]
    where
      impossible : false ≡ true → ⊥
      impossible e = ground arith

  confirm-cached :
      (later : ℕ) (answer : Option Bool × Detector) (r : LoopDetectionResult)
      → IsCached r answer.1
      → r.stuck ≡ true
      → (confirm py later answer).0 ≡ false
  unfolding confirm
  confirm-cached later (none, d) r h k = refl
  confirm-cached later (some false, d) r h k = refl
  confirm-cached later (some true, d) r h k = rw (detect-cached later r d h, k) refl

  unconfirmed :
      (later : ℕ) (strategies : Strategies) (callbacks : Callbacks) (r : LoopDetectionResult)
      (d : Detector)
      → IsCached r d
      → r.stuck ≡ true
      → ((action : RecoveryAction) (callback : Callback) (s : LoopDetectionResult) (e : Detector)
          → callbacks action ≡ some callback
          → (callback s e).1 ≡ e)
      → (execute_recovery py later strategies callbacks r d).0 ≡ false
  unfolding execute_recovery with_recovery
  unconfirmed later strategies callbacks r d c h k = elim (Bool-cases d.config.recovery_enabled) [
    | inr off ↦ simp off refl
    | inl on ↦ simp on (elim (Option-cases (callbacks (recovery_for strategies r.detector))) [
      | inl none_there ↦ simp none_there refl
      | inr (callback, there) ↦ simp there (
          confirm-cached later (callback given marked) given
            (rw (k _ callback given marked there)
              (record { on = c.on; enough = c.enough; current = c.current; held = refl }))
            h)
    ])
  ]
    where
      given : LoopDetectionResult
      given = with_recovery (recovery_for strategies r.detector) r

      marked : Detector
      marked = record d { cached_result = some given }

  -- A recovery whose callback does not touch the detector is never a success, whatever the callback
  -- answers and however late it is: the check after it reads the report of the loop from the cache.
  pub recovery_never_confirmed :
      (now later : ℕ) (strategies : Strategies) (callbacks : Callbacks) (d : Detector)
      → (detect py now d).0.stuck ≡ true
      → ((action : RecoveryAction) (callback : Callback) (r : LoopDetectionResult) (e : Detector)
          → callbacks action ≡ some callback
          → (callback r e).1 ≡ e)
      → (execute_recovery py later strategies callbacks (detect py now d).0 (detect py now d).1).0
        ≡ false
  recovery_never_confirmed now later strategies callbacks d h k =
      unconfirmed later strategies callbacks _ _ (stuck-IsCached now d h) h k

  -- A recovery whose callback resets the detector and succeeds is a success.
  pub recovery_after_reset :
      (later : ℕ) (strategies : Strategies) (callbacks : Callbacks) (r : LoopDetectionResult)
      (d : Detector) (callback : Callback)
      → d.config.recovery_enabled ≡ true
      → callbacks (recovery_for strategies r.detector) ≡ some callback
      → ((s : LoopDetectionResult) (e : Detector) → callback s e ≡ (some true, reset e))
      → (execute_recovery py later strategies callbacks r d).0 ≡ true
  unfolding execute_recovery confirm reset
  recovery_after_reset later strategies callbacks r d callback on h k =
      simp (on, h, k, detect-short later (reset _) refl) refl
