-- ===== src/DoomLoop/Window.antt =====
-- The windows of the detector: their bounds, the filing of results, and no stale report.
use existential_identity_tes.Base.{
  ℕ, zero, suc, ltb, ◌≤◌, ◌<◌, ◌≡◌, refl, String, Bool, true, false, List, [], ◌∷◌, none, some,
  length, take, arith, Bool-cases, Option-cases, inl, inr,
}
use existential_identity_tes.Base.Text.{str_eq, str_eq_iff}
use existential_identity_tes.DoomLoop.{
  Detector, Library, reset, record_tool_call, record_tool_outcome, push, new_call,
  deterministic_hash, is_open_call, with_result, replace_first,
}
use existential_identity_tes.DoomLoop.Detectors.{adaptive_thresholds}
use existential_identity_tes.DoomLoop.Detect.{compute, recompute, detect, fingerprint}

-- What its user does to a detector.
pub data Op (Args : Type 0) : Type 0 where
  calls : ℕ → String → Args → String → Op Args
  returns : ℕ → String → Args → List ℕ → String → Op Args
  asks : ℕ → Op Args
  clears : Op Args

unfoldable pub apply : {Args : Type 0} → Library Args → Op Args → Detector → Detector
apply py (calls now tool args agent) d = record_tool_call py now tool args agent d
apply py (returns now tool args text agent) d = record_tool_outcome py now tool args text agent d
apply py (asks now) d = (detect py now d).1
apply py clears d = reset d

unfoldable pub run : {Args : Type 0} → Library Args → List (Op Args) → Detector → Detector
run py [] d = d
run py (op ∷ ops) d = run py ops (apply py op d)

length-take {ℓ} : {A : Type ℓ} (n : ℕ) (xs : List A) → length (take n xs) ≤ n
length-take zero xs = omega arith
length-take (suc n) [] = omega arith
length-take (suc n) (x ∷ xs) = omega (arith, length-take n xs)

length-replace_first {ℓ} :
    {A : Type ℓ} (p : A → Bool) (f : A → A) (xs ys : List A)
    → replace_first p f xs ≡ some ys
    → length ys ≡ length xs
unfolding replace_first
length-replace_first p f [] ys h = ground arith
length-replace_first p f (x ∷ xs) ys h = elim (Bool-cases (p x)) [
  | inl e ↦ ground (arith, h, e)
  | inr e ↦ elim (Option-cases (replace_first p f xs)) [
    | inl k ↦ ground (arith, h, e, k)
    | inr (zs, k) ↦ ground (arith, h, e, k, length-replace_first p f xs zs k)
  ]
]

replace_first-push {ℓ} :
    {A : Type ℓ} (p : A → Bool) (f : A → A) (x : A) (size : ℕ) (xs : List A)
    → 0 < size
    → p x ≡ true
    → replace_first p f (push size x xs) ≡ some (push size (f x) xs)
unfolding replace_first push
replace_first-push p f x zero xs h e = absurd (omega arith)
replace_first-push p f x (suc n) xs h e = rw e refl

pub record IsBounded (d : Detector) : Type 0 where
  pub few_records : length d.history ≤ d.config.history_size
  pub few_times : length d.call_timestamps ≤ 100

module _ {Args : Type 0} (py : Library Args) where
  outcome_history-length :
      (now : ℕ) (tool : String) (args : Args) (text : List ℕ) (agent : String) (d : Detector)
      → IsBounded d
      → IsBounded (record_tool_outcome py now tool args text agent d)
  unfolding record_tool_outcome push
  outcome_history-length now tool args text agent d h = elim (Bool-cases d.config.enabled) [
    | inr off ↦ simp off h
    | inl on ↦
        simp on
          (elim (Option-cases (
            replace_first (is_open_call py tool (deterministic_hash py args) agent)
              (with_result py text) d.history)) [
                | inl e ↦ simp e (record {
                  few_records = length-take d.config.history_size _;
                  few_times = h.few_times;
                })
                | inr (xs, e) ↦ simp e (record {
                  few_records = omega (
                    arith,
                    h.few_records,
                    length-replace_first (is_open_call py tool (deterministic_hash py args) agent)
                        (with_result py text) d.history xs e,
                  );
                  few_times = h.few_times;
                })
              ])
  ]

  call-IsBounded :
      (now : ℕ) (tool : String) (args : Args) (agent : String) (d : Detector)
      → IsBounded d
      → IsBounded (record_tool_call py now tool args agent d)
  unfolding record_tool_call push
  call-IsBounded now tool args agent d h = elim (Bool-cases d.config.enabled) [
    | inr off ↦ simp off h
    | inl on ↦ simp on (record {
      few_records = length-take d.config.history_size (new_call py now tool args agent ∷ d.history);
      few_times = length-take 100 (now ∷ d.call_timestamps);
    })
  ]

  -- Asking changes nothing but the cache.
  detect-IsBounded : (now : ℕ) (d : Detector) → IsBounded d → IsBounded (detect py now d).1
  unfolding detect recompute
  detect-IsBounded now d h = elim (Bool-cases d.config.enabled) [
    | inr off ↦ simp off h
    | inl on ↦ elim (Bool-cases (ltb (length d.history) 3)) [
      | inl short ↦ simp (on, short) h
      | inr enough ↦ elim (Bool-cases (str_eq (fingerprint py d.history) d.last_detect_hash)) [
        | inr e ↦
            simp (on, enough, e) (record { few_records = h.few_records; few_times = h.few_times })
        | inl e ↦ elim (Option-cases d.cached_result) [
          | inl k ↦
              simp (on, enough, e, k)
                (record { few_records = h.few_records; few_times = h.few_times })
          | inr (r, k) ↦ simp (on, enough, e, k) h
        ]
      ]
    ]
  ]

  apply-IsBounded : (op : Op Args) (d : Detector) → IsBounded d → IsBounded (apply py op d)
  unfolding apply reset
  apply-IsBounded (calls now tool args agent) d h = call-IsBounded now tool args agent d h
  apply-IsBounded (returns now tool args text agent) d h =
      outcome_history-length now tool args text agent d h
  apply-IsBounded (asks now) d h = detect-IsBounded now d h
  apply-IsBounded clears d h = record { few_records = omega arith; few_times = omega arith }

  -- Whatever is done to a new detector, it holds at most as many records as its configuration
  -- allows, and at most 100 times.
  pub run-IsBounded : (ops : List (Op Args)) (d : Detector) → IsBounded d → IsBounded (run py ops d)
  unfolding run
  run-IsBounded [] d h = h
  run-IsBounded (op ∷ ops) d h = run-IsBounded ops (apply py op d) (apply-IsBounded op d h)

  new_call-open :
      (now : ℕ) (tool : String) (args : Args) (agent : String)
      → is_open_call py tool (deterministic_hash py args) agent (new_call py now tool args agent)
        ≡ true
  unfolding is_open_call new_call
  new_call-open now tool args agent =
      rw
        (
          (str_eq_iff tool tool).1 refl,
          (str_eq_iff (deterministic_hash py args) (deterministic_hash py args)).1 refl,
          (str_eq_iff agent agent).1 refl,
        )
        refl

  -- The result of the call that was recorded last is filed with that call: no record is added.
  pub outcome-call :
      (now later : ℕ) (tool : String) (args : Args) (text : List ℕ) (agent : String) (d : Detector)
      → d.config.enabled ≡ true
      → 0 < d.config.history_size
      → (record_tool_outcome py later tool args text agent
          (record_tool_call py now tool args agent d)).history
        ≡ push d.config.history_size
            (with_result py text (new_call py now tool args agent))
            d.history
  unfolding record_tool_outcome record_tool_call
  outcome-call now later tool args text agent d on room =
      simp
        (
          on,
          replace_first-push (is_open_call py tool (deterministic_hash py args) agent)
              (with_result py text) (new_call py now tool args agent) d.config.history_size
              d.history room (new_call-open now tool args agent),
        )
        refl

  detect-uncached :
      (now : ℕ) (d : Detector)
      → d.config.enabled ≡ true
      → ltb (length d.history) 3 ≡ false
      → d.cached_result ≡ none
      → (detect py now d).0 ≡ (recompute py now d).0
  unfolding detect
  detect-uncached now d on enough empty =
      elim (Bool-cases (str_eq (fingerprint py d.history) d.last_detect_hash)) [
        | inl e ↦ simp (on, enough, e, empty) refl
        | inr e ↦ simp (on, enough, e) refl
      ]

  -- A report after a call was recorded is that of the detectors on the present history, with the
  -- thresholds of its own time: it never comes from the cache.
  pub detect-call :
      (now later : ℕ) (tool : String) (args : Args) (agent : String) (d : Detector)
      → d.config.enabled ≡ true
      → let e = record_tool_call py now tool args agent d in
        ltb (length e.history) 3 ≡ false
        → (detect py later e).0
          ≡ compute py e.config (adaptive_thresholds later e.config e.call_timestamps) e.history
  unfolding record_tool_call recompute
  detect-call now later tool args agent d on enough =
      detect-uncached later (record_tool_call py now tool args agent d) (simp on refl) enough
        (simp on refl)
