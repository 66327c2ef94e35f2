-- ===== src/DoomLoop/Repeats.antt =====
-- What `_detect_generic_repeat` finds, stated without its table of counts; and its thresholds.
use existential_identity_tes.Base.{
  ℕ, ◌+◌, leb, ◌≤◌, ◌<◌, ◌≡◌, ◌↔◌, ◌⊎◌, refl, sym, ap, ◌∙◌, Bool, true, false, List, [], ◌∷◌,
  length, select, arith, All, Bool-cases, inl, inr, any_of, ◌||◌, if◌then◌else◌,
}
use existential_identity_tes.Base.Sort
use existential_identity_tes.DoomLoop.{LoopLevel, critical, ToolCallRecord}
use existential_identity_tes.DoomLoop.Detectors.{
  Thresholds, report, Key, same_key, repeat_key, bump, tally, more_often, first_report,
  detect_generic_repeat,
}
use existential_identity_tes.DoomLoop.Runs.{same_key_iff}

-- How often a call is in the history.
abbrev pub occurrences : Key → List ToolCallRecord → ℕ
occurrences k history = length (select (λ r. same_key (repeat_key r) k) history)

-- What the table says of a key.
abbrev lookup : Key → List (Key × ℕ) → ℕ
lookup k [] = 0
lookup k ((j, n) ∷ counts) = if same_key j k then n else lookup k counts

abbrev Once : List (Key × ℕ) → Type 0
Once [] = Unit
Once ((j, n) ∷ counts) = (lookup j counts ≡ 0) × (0 < n) × Once counts

same_key-left : (i j k : Key) → same_key i j ≡ true → same_key i k ≡ same_key j k
same_key-left i j k e = ap (λ x. same_key x k) ((same_key_iff i j).0 e)

same_key-join : (i j k : Key) → same_key i k ≡ true → same_key j k ≡ true → same_key i j ≡ true
same_key-join i j k e f =
    (same_key_iff i j).1 ((same_key_iff i k).0 e ∙ sym ((same_key_iff j k).0 f))

lookup-bump :
    (j k : Key) (counts : List (Key × ℕ))
    → lookup k (bump j counts) ≡ (if same_key j k then lookup k counts + 1 else lookup k counts)
unfolding bump
lookup-bump j k [] = ground arith
lookup-bump j k ((i, n) ∷ counts) = elim (Bool-cases (same_key i j)) [
  | inl e ↦ ground (arith, e, same_key-left i j k e)
  | inr e ↦ elim (Bool-cases (same_key i k)) [
    | inr f ↦ ground (arith, e, f, lookup-bump j k counts)
    | inl f ↦ elim (Bool-cases (same_key j k)) [
      | inr g ↦ ground (arith, e, f, g)
      | inl g ↦ ground (arith, e, same_key-join i j k f g)
    ]
  ]
]

lookup-tally :
    (k : Key) (history : List ToolCallRecord) → lookup k (tally history) ≡ occurrences k history
unfolding tally
lookup-tally k [] = refl
lookup-tally k (r ∷ rs) = ground (arith, lookup-bump (repeat_key r) k (tally rs), lookup-tally k rs)

bump-Once : (j : Key) (counts : List (Key × ℕ)) → Once counts → Once (bump j counts)
unfolding bump
bump-Once j [] h = (refl, omega arith, tt)
bump-Once j ((i, n) ∷ counts) h = elim (Bool-cases (same_key i j)) [
  | inl e ↦ rw e (h.0, omega arith, h.2)
  | inr e ↦ rw e (unseen e, h.1, bump-Once j counts h.2)
]
  where
    unseen : same_key i j ≡ false → lookup i (bump j counts) ≡ 0
    unseen e = elim (Bool-cases (same_key j i)) [
      | inl f ↦ ground (arith, e, same_key-join i j i ((same_key_iff i i).1 refl) f)
      | inr f ↦ ground (arith, f, lookup-bump j i counts, h.0)
    ]

tally-Once : (history : List ToolCallRecord) → Once (tally history)
unfolding tally
tally-Once [] = tt
tally-Once (r ∷ rs) = bump-Once (repeat_key r) (tally rs) (tally-Once rs)

module _ (q : ℕ → Bool) (zero_fails : q 0 ≡ false) where
  abbrev some_count : List (Key × ℕ) → Bool
  some_count = any_of (λ e. q e.1)

  some_count-lookup :
      (counts : List (Key × ℕ))
      → Once counts
      → some_count counts ≡ true
      → (k : Key) × (q (lookup k counts) ≡ true)
  some_count-lookup [] o h = ground (arith, h)
  some_count-lookup ((j, n) ∷ counts) o h = elim (Bool-cases (q n)) [
    | inl e ↦ (j, rw ((same_key_iff j j).1 refl) e)
    | inr e ↦
        let (k, f) = some_count-lookup counts o.2 (rw e at h) in
        elim (Bool-cases (same_key j k)) [ inr g ↦ (k, rw g f) | inl g ↦ absurd (blank k f g) ]
  ]
    where
      blank : (k : Key) → q (lookup k counts) ≡ true → same_key j k ≡ true → ⊥
      blank k f g = ground (
        arith,
        sym f
            ∙ ap (λ x. q (lookup x counts)) (sym ((same_key_iff j k).0 g))
            ∙ ap q o.0
            ∙ zero_fails,
      )

  lookup-some_count :
      (k : Key) (counts : List (Key × ℕ)) → q (lookup k counts) ≡ true → some_count counts ≡ true
  lookup-some_count k [] h = ground (arith, h, zero_fails)
  lookup-some_count k ((j, n) ∷ counts) h = elim (Bool-cases (same_key j k)) [
    | inl g ↦ ground (arith, rw g at h)
    | inr g ↦ ground (arith, lookup-some_count k counts (rw g at h))
  ]

  some_count-insert :
      (e : Key × ℕ) (counts : List (Key × ℕ))
      → some_count (Sort.insert more_often e counts) ≡ (q e.1 || some_count counts)
  unfolding Sort.insert
  some_count-insert e [] = refl
  some_count-insert e (f ∷ counts) = ground (arith, some_count-insert e counts)

  some_count-sort :
      (counts : List (Key × ℕ)) → some_count (Sort.sort more_often counts) ≡ some_count counts
  unfolding Sort.sort
  some_count-sort [] = refl
  some_count-sort (e ∷ counts) =
      ground (arith, some_count-insert e (Sort.sort more_often counts), some_count-sort counts)

more_often-IsOrder : Sort.IsOrder more_often
unfolding more_often
more_often-IsOrder = record {
  total = λ (j, m) (k, n) h. ground arith;
  chain = λ (i, l) (j, m) (k, n) h g. ground arith;
}

abbrev pub is_critical : LoopLevel → Bool
is_critical critical = true
is_critical _ = false

stuck-first_report :
    (t : Thresholds) (counts : List (Key × ℕ))
    → (first_report t counts).stuck ≡ any_of (λ e. leb t.warn e.1 || leb t.critical e.1) counts
unfolding first_report report
stuck-first_report t [] = refl
stuck-first_report t ((k, n) ∷ counts) = ground (arith, stuck-first_report t counts)

fewer-none :
    (thr n : ℕ) (k : Key) (counts : List (Key × ℕ))
    → n < thr
    → All (λ e. more_often (k, n) e ≡ true) counts
    → any_of (λ e. leb thr e.1) counts ≡ false
unfolding more_often
fewer-none thr n k [] h a = refl
fewer-none thr n k ((j, m) ∷ counts) h a = ground (arith, fewer-none thr n k counts h a.1, a.0)

critical-first_report :
    (t : Thresholds) (counts : List (Key × ℕ))
    → Sort.IsSorted more_often counts
    → is_critical (first_report t counts).level ≡ any_of (λ e. leb t.critical e.1) counts
unfolding first_report report
critical-first_report t [] s = refl
critical-first_report t ((k, n) ∷ counts) s = elim (Bool-cases (leb t.critical n)) [
  | inl e ↦ rw e refl
  | inr e ↦ elim (Bool-cases (leb t.warn n)) [
    | inl w ↦ rw (e, w, fewer-none t.critical n k counts (ground (arith, e)) s.0) refl
    | inr w ↦ rw (e, w) (critical-first_report t counts s.1)
  ]
]

some_count-occurrences :
    (q : ℕ → Bool) (history : List ToolCallRecord)
    → q 0 ≡ false
    → (any_of (λ e. q e.1) (Sort.sort more_often (tally history)) ≡ true)
      ↔ ((k : Key) × (q (occurrences k history) ≡ true))
some_count-occurrences q history z = (forth, back)
  where
    forth :
        any_of (λ e. q e.1) (Sort.sort more_often (tally history)) ≡ true
        → (k : Key) × (q (occurrences k history) ≡ true)
    forth h =
        let (k, e) =
          some_count-lookup q z (tally history) (tally-Once history)
            (sym (some_count-sort q z (tally history)) ∙ h) in
        (k, ap q (sym (lookup-tally k history)) ∙ e)

    back :
        ((k : Key) × (q (occurrences k history) ≡ true))
        → any_of (λ e. q e.1) (Sort.sort more_often (tally history)) ≡ true
    back (k, e) =
        some_count-sort q z (tally history)
        ∙ lookup-some_count q z k (tally history) (ap q (lookup-tally k history) ∙ e)

-- `_detect_generic_repeat` reports a loop exactly where some call is in the history as often as one
-- of the thresholds says, and a critical one exactly where some call is there as often as the
-- critical threshold says; the thresholds are not 0.
pub detect_generic_repeat_exact :
    (history : List ToolCallRecord) (t : Thresholds)
    → 0 < t.warn
    → 0 < t.critical
    → (((detect_generic_repeat history t).stuck ≡ true)
        ↔ ((k : Key) × ((t.warn ≤ occurrences k history) ⊎ (t.critical ≤ occurrences k history))))
      × ((is_critical (detect_generic_repeat history t).level ≡ true)
          ↔ ((k : Key) × (t.critical ≤ occurrences k history)))
unfolding detect_generic_repeat
detect_generic_repeat_exact history t w c = (
  (
    λ h. let (k, e) = reached.0 (sym (stuck-first_report t sorted) ∙ h) in (k, ground (arith, e)),
    λ (k, h). stuck-first_report t sorted ∙ reached.1 (k, ground (arith, h)),
  ),
  (
    λ h.
        let (k, e) = severe.0 (sym (critical-first_report t sorted in_order) ∙ h) in
        (k, ground (arith, e)),
    λ (k, h). critical-first_report t sorted in_order ∙ severe.1 (k, ground (arith, h)),
  ),
)
  where
    sorted : List (Key × ℕ)
    sorted = Sort.sort more_often (tally history)

    in_order : Sort.IsSorted more_often sorted
    in_order = Sort.sort-IsSorted more_often more_often-IsOrder (tally history)

    reached : (any_of (λ e. leb t.warn e.1 || leb t.critical e.1) sorted ≡ true) ↔ (
        (k : Key) × ((leb t.warn (occurrences k history) || leb t.critical (occurrences k history))
          ≡ true))
    reached = some_count-occurrences (λ n. leb t.warn n || leb t.critical n) history (ground arith)

    severe :
        (any_of (λ e. leb t.critical e.1) sorted ≡ true)
        ↔ ((k : Key) × (leb t.critical (occurrences k history) ≡ true))
    severe = some_count-occurrences (λ n. leb t.critical n) history (ground arith)
