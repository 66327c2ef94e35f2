-- ===== src/DoomLoop/Runs.antt =====
-- What the oscillation detectors find: calls, or agents, that alternate at the end of the history.
use existential_identity_tes.Base.{
  ℕ, zero, suc, ltb, leb, ◌≤◌, ◌≡◌, ◌≢◌, ◌↔◌, ◌⊎◌, refl, sym, ap, ◌∙◌, Bool, true, false, List, [],
  ◌∷◌, none, some, length, take, map, arith, Bool-cases, Option-cases, inl, inr,
}
use existential_identity_tes.Base.Text.{str_eq, str_eq_iff}
use existential_identity_tes.DoomLoop.{
  DetectorType, ping_pong, ToolCallRecord, LoopDetectionResult, no_loop,
}
use existential_identity_tes.DoomLoop.Detectors.{
  Thresholds, report, judge, Key, same_key, find_other, alternations, oscillation, signature,
  detect_ping_pong,
}

-- The first `n` elements are `a`, `b`, `a`, `b` and so on.
abbrev pub Alternates : {A : Type 0} → A → A → ℕ → List A → Type 0
Alternates a b zero xs = Unit
Alternates a b (suc n) [] = ⊥
Alternates a b (suc n) (x ∷ xs) = (x ≡ a) × Alternates b a n xs

pub same_key_iff : (j k : Key) → (same_key j k ≡ true) ↔ (j ≡ k)
unfolding same_key
same_key_iff (s, x) (t, y) = (forth, back)
  where
    forth : same_key (s, x) (t, y) ≡ true → ◌≡◌ {A = Key} (s, x) (t, y)
    forth h = elim (Bool-cases (str_eq s t)) [
      | inl e ↦ rw ((str_eq_iff s t).0 e, (str_eq_iff x y).0 (rw e at h)) refl
      | inr e ↦ ground (arith, h, e)
    ]

    back : ◌≡◌ {A = Key} (s, x) (t, y) → same_key (s, x) (t, y) ≡ true
    back h = rw ((str_eq_iff s t).1 (ap (λ k. k.0) h), (str_eq_iff x y).1 (ap (λ k. k.1) h)) refl

module _ {A : Type 0} (eq : A → A → Bool) (law : (x y : A) → (eq x y ≡ true) ↔ (x ≡ y)) where
  alternations-Alternates : (a b : A) (xs : List A) → Alternates a b (alternations eq a b xs) xs
  unfolding alternations
  alternations-Alternates a b [] = tt
  alternations-Alternates a b (x ∷ xs) = elim (Bool-cases (eq x a)) [
    | inl e ↦ rw e (((law x a).0 e), alternations-Alternates b a xs)
    | inr e ↦ rw e tt
  ]

  Alternates-alternations :
      (a b : A) (n : ℕ) (xs : List A) → Alternates a b n xs → n ≤ alternations eq a b xs
  unfolding alternations
  Alternates-alternations a b zero xs h = omega arith
  Alternates-alternations a b (suc n) [] h = absurd h
  Alternates-alternations a b (suc n) (x ∷ xs) h =
      rw ((law x a).1 h.0) (omega (arith, Alternates-alternations b a n xs h.1))

  find_other-ne : (a b : A) (xs : List A) → find_other eq a xs ≡ some b → b ≢ a
  unfolding find_other
  find_other-ne a b [] h = ground arith
  find_other-ne a b (x ∷ xs) h = elim (Bool-cases (eq x a)) [
    | inl e ↦ find_other-ne a b xs (ground (arith, h, e))
    | inr e ↦ λ k. ground (arith, law x a, e, h, k)
  ]

Alternates-take :
    {A : Type 0} (a b : A) (n m : ℕ) (xs : List A)
    → Alternates a b n (take m xs)
    → Alternates a b n xs
Alternates-take a b zero m xs h = tt
Alternates-take a b (suc n) zero xs h = absurd h
Alternates-take a b (suc n) (suc m) [] h = absurd h
Alternates-take a b (suc n) (suc m) (x ∷ xs) h = (h.0, Alternates-take b a n m xs h.1)

take-Alternates :
    {A : Type 0} (a b : A) (n m : ℕ) (xs : List A)
    → n ≤ m
    → Alternates a b n xs
    → Alternates a b n (take m xs)
take-Alternates a b zero m xs k h = tt
take-Alternates a b (suc n) zero xs k h = absurd (omega arith)
take-Alternates a b (suc n) (suc m) [] k h = absurd h
take-Alternates a b (suc n) (suc m) (x ∷ xs) k h =
    (h.0, take-Alternates b a n m xs (omega arith) h.1)

map-take : {A B : Type 0} (f : A → B) (n : ℕ) (xs : List A) → map f (take n xs) ≡ take n (map f xs)
map-take f zero xs = refl
map-take f (suc n) [] = refl
map-take f (suc n) (x ∷ xs) = ap (λ ys. f x ∷ ys) (map-take f n xs)

quiet : false ≡ true → ⊥
quiet e = ground arith

-- A report of two things that differ and alternate at the end of the history, as often as the
-- report counts, which is often enough.
abbrev pub Swings : {A : Type 0} → Thresholds → List A → LoopDetectionResult → Type 0
Swings {A = A} t xs r =
    (a : A) × (b : A) × (b ≢ a)
    × Alternates a b r.count xs
    × ((t.warn ≤ r.count) ⊎ (t.critical ≤ r.count))

Swings-take :
    {A : Type 0} (t : Thresholds) (m : ℕ) (xs : List A) (r : LoopDetectionResult)
    → Swings t (take m xs) r
    → Swings t xs r
Swings-take t m xs r (a, b, ne, h, k) = (a, b, ne, Alternates-take a b r.count m xs h, k)

Alternates-length :
    {A : Type 0} (a b : A) (n : ℕ) (xs : List A) → Alternates a b n xs → n ≤ length xs
Alternates-length a b zero xs h = omega arith
Alternates-length a b (suc n) [] h = absurd h
Alternates-length a b (suc n) (x ∷ xs) h = omega (arith, Alternates-length b a n xs h.1)

length-map : {A B : Type 0} (f : A → B) (xs : List A) → length (map f xs) ≡ length xs
length-map f [] = refl
length-map f (x ∷ xs) = ap suc (length-map f xs)

module _ {A : Type 0} (eq : A → A → Bool) (law : (x y : A) → (eq x y ≡ true) ↔ (x ≡ y))
    (detector : DetectorType) (t : Thresholds) where
  judge-Swings :
      (a b : A) (n : ℕ) (xs : List A)
      → b ≢ a
      → Alternates a b n xs
      → (judge detector t n).stuck ≡ true
      → Swings t xs (judge detector t n)
  unfolding judge report
  judge-Swings a b n xs ne h s = elim (Bool-cases (leb t.critical n)) [
    | inl c ↦ rw c (a, b, ne, h, inr (ground (arith, c)))
    | inr c ↦ elim (Bool-cases (leb t.warn n)) [
      | inl w ↦ rw (c, w) (a, b, ne, h, inl (ground (arith, w)))
      | inr w ↦ ground (arith, s, c, w)
    ]
  ]

  judge-warned : (n : ℕ) → t.warn ≤ n → (judge detector t n).stuck ≡ true
  unfolding judge report
  judge-warned n h = ground arith

  oscillation-found :
      (a b : A) (xs : List A)
      → find_other eq a xs ≡ some b
      → oscillation eq detector t (a ∷ xs) ≡ judge detector t (alternations eq a b (a ∷ xs))
  unfolding oscillation
  oscillation-found a b xs e =
      ap (λ o. elim o [ none ↦ no_loop | some c ↦ judge detector t (alternations eq a c (a ∷ xs)) ])
        e

  oscillation-none :
      (a : A) (xs : List A)
      → find_other eq a xs ≡ none
      → oscillation eq detector t (a ∷ xs) ≡ no_loop
  unfolding oscillation
  oscillation-none a xs e =
      ap (λ o. elim o [ none ↦ no_loop | some c ↦ judge detector t (alternations eq a c (a ∷ xs)) ])
        e

  oscillation-empty : oscillation eq detector t [] ≡ no_loop
  unfolding oscillation
  oscillation-empty = refl

  pub oscillation-Swings :
      (xs : List A)
      → (oscillation eq detector t xs).stuck ≡ true
      → Swings t xs (oscillation eq detector t xs)
  oscillation-Swings [] h = absurd (quiet (rw oscillation-empty at h))
  oscillation-Swings (a ∷ xs) h = elim (Option-cases (find_other eq a xs)) [
    | inl e ↦ absurd (quiet (rw (oscillation-none a xs e) at h))
    | inr (b, e) ↦ rw (oscillation-found a b xs e) (
        judge-Swings a b _ (a ∷ xs) (find_other-ne eq law a b xs e)
          (alternations-Alternates eq law a b (a ∷ xs)) (rw (oscillation-found a b xs e) at h))
  ]

  find_other-cons : (x y : A) (xs : List A) → y ≢ x → find_other eq x (y ∷ xs) ≡ some y
  unfolding find_other
  find_other-cons x y xs k = elim (Bool-cases (eq y x)) [
    | inl e ↦ absurd (k ((law y x).0 e))
    | inr e ↦ rw e refl
  ]

  pub Alternates-oscillation :
      (a b : A) (n : ℕ) (xs : List A)
      → b ≢ a
      → Alternates a b (suc (suc n)) xs
      → t.warn ≤ suc (suc n)
      → (oscillation eq detector t xs).stuck ≡ true
  Alternates-oscillation a b n [] ne h w = absurd h
  Alternates-oscillation a b n (x ∷ []) ne h w = absurd h.1
  Alternates-oscillation a b n (x ∷ y ∷ xs) ne h w =
      rw (oscillation-found x y (y ∷ xs) (find_other-cons x y xs (λ e. ne (sym h.1.0 ∙ e ∙ h.0)))) (
        judge-warned _ (
          omega (
            arith,
            w,
            Alternates-alternations eq law x y (suc (suc n)) (x ∷ y ∷ xs)
                (refl, (refl, rw (h.0, h.1.0) h.1.1)),
          )))

-- `_detect_ping_pong` reports only two different calls that alternate at the end of the history, as
-- often as the report counts, and this count has reached one of the thresholds.
pub detect_ping_pong-Swings :
    (history : List ToolCallRecord) (t : Thresholds)
    → (detect_ping_pong history t).stuck ≡ true
    → Swings t (map signature history) (detect_ping_pong history t)
unfolding detect_ping_pong
detect_ping_pong-Swings history t h = elim (Bool-cases (ltb (length history) 4)) [
  | inl e ↦ absurd (quiet (rw e at h))
  | inr e ↦ rw e (
      Swings-take t 20 (map signature history)
        (oscillation same_key ping_pong t (map signature (take 20 history)))
        (rw⁻¹ (map-take signature 20 history) (
          oscillation-Swings same_key same_key_iff ping_pong t (map signature (take 20 history))
            (rw e at h))))
]

-- Two different calls that alternated the last `n` times are reported, where `n` is between 4 and
-- 20 and no less than the threshold of a warning.
pub Alternates-detect_ping_pong :
    (history : List ToolCallRecord) (t : Thresholds) (a b : Key) (n : ℕ)
    → b ≢ a
    → 4 ≤ n
    → n ≤ 20
    → t.warn ≤ n
    → Alternates a b n (map signature history)
    → (detect_ping_pong history t).stuck ≡ true
unfolding detect_ping_pong
Alternates-detect_ping_pong history t a b zero ne low high w h = absurd (omega arith)
Alternates-detect_ping_pong history t a b (suc zero) ne low high w h = absurd (omega arith)
Alternates-detect_ping_pong history t a b (suc (suc n)) ne low high w h =
    elim (Bool-cases (ltb (length history) 4)) [
      | inl e ↦ absurd (
          ground (
            arith,
            e,
            low,
            Alternates-length a b (suc (suc n)) (map signature history) h,
            length-map signature history,
          ))
      | inr e ↦
          rw (e, map-take signature 20 history)
            (Alternates-oscillation same_key same_key_iff ping_pong t a b n _ ne
              (take-Alternates a b (suc (suc n)) 20 _ high h) w)
    ]
