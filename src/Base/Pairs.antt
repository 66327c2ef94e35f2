-- ===== src/Base/Pairs.antt =====
-- A symmetric relation between any two elements of a list survives selection and sorting.
use mathlib.Core.Logic.{inl, inr}
use mathlib.Core.Bool.{Bool}
use mathlib.Core.List.{List, [], ◌∷◌, ◌++◌, map}
use existential_identity_tes.Base.Tests.{Bool-cases}
use existential_identity_tes.Base.Lists.{All, All-append, All-select, select}
use existential_identity_tes.Base.Sort.{insert, sort, All-insert, All-sort}

module _ {ℓ} {A : Type ℓ} (R : A → A → Type 0) where
  abbrev pub Pairs : List A → Type 0
  Pairs [] = Unit
  Pairs (x ∷ xs) = All (R x) xs × Pairs xs

  pub Pairs-select : (p : A → Bool) (xs : List A) → Pairs xs → Pairs (select p xs)
  Pairs-select p [] h = tt
  Pairs-select p (x ∷ xs) h = elim (Bool-cases (p x)) [
    | inl e ↦ rw e (All-select (R x) p xs h.0, Pairs-select p xs h.1)
    | inr e ↦ rw e (Pairs-select p xs h.1)
  ]

  module _ (le : A → A → Bool) (symmetric : (x y : A) → R x y → R y x) where
    All-symmetric : (x : A) (xs : List A) → All (R x) xs → All (λ y. R y x) xs
    All-symmetric x [] h = tt
    All-symmetric x (y ∷ ys) h = (symmetric x y h.0, All-symmetric x ys h.1)

    Pairs-insert : (x : A) (xs : List A) → All (R x) xs → Pairs xs → Pairs (insert le x xs)
    unfolding insert
    Pairs-insert x [] h k = (tt, tt)
    Pairs-insert x (y ∷ ys) h k = elim (Bool-cases (le x y)) [
      | inl e ↦ rw e (h, k)
      | inr e ↦ rw e (All-insert le (R y) x ys (symmetric x y h.0) k.0, Pairs-insert x ys h.1 k.1)
    ]

    pub Pairs-sort : (xs : List A) → Pairs xs → Pairs (sort le xs)
    unfolding sort
    Pairs-sort [] h = tt
    Pairs-sort (x ∷ xs) h =
        Pairs-insert x (sort le xs) (All-sort le (R x) xs h.0) (Pairs-sort xs h.1)

  pub Pairs-map :
      (f : A → A)
      → ((x y : A) → R x y → R (f x) (f y))
      → (xs : List A) → Pairs xs
      → Pairs (map f xs)
  Pairs-map f k [] h = tt
  Pairs-map f k (x ∷ xs) h = (All-image x xs h.0, Pairs-map f k xs h.1)
    where
      All-image : (y : A) (ys : List A) → All (R y) ys → All (R (f y)) (map f ys)
      All-image y [] g = tt
      All-image y (z ∷ zs) g = (k y z g.0, All-image y zs g.1)

  pub Pairs-snoc : (xs : List A) (y : A) → All (λ x. R x y) xs → Pairs xs → Pairs (xs ++ y ∷ [])
  Pairs-snoc [] y h k = (tt, tt)
  Pairs-snoc (x ∷ xs) y h k = (All-append (R x) xs (y ∷ []) k.0 (h.0, tt), Pairs-snoc xs y h.1 k.1)
