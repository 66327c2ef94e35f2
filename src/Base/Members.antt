-- ===== src/Base/Members.antt =====
-- Membership in selected and sorted lists.
use mathlib.Core.Path.{◌≡◌}
use mathlib.Core.Logic.{◌↔◌, inl, inr, ∨₁_prop}
use mathlib.Core.Logic.Or
use mathlib.Core.HLevel.{×_prop}
use mathlib.Core.Bool.{Bool, true, Bool-set}
use mathlib.Core.List.{List, [], ◌∷◌, Mem, Mem-prop, mem-cons, not-mem-nil}
use existential_identity_tes.Base.Tests.{Bool-cases}
use existential_identity_tes.Base.Lists.{select}

module _ {ℓ} {A : Type ℓ} (p : A → Bool) (a : A) where
  pub mem-select : (xs : List A) → Mem a (select p xs) ↔ (Mem a xs × (p a ≡ true))
  mem-select [] = (λ m. absurd (not-mem-nil m), λ m. absurd (not-mem-nil m.0))
  mem-select (x ∷ xs) = elim (Bool-cases (p x)) [
    | inl e ↦ rw e (
      λ m.
          Or.elim (×_prop Mem-prop (Bool-set _ _)) (mem-cons.0 m)
            (λ q. (mem-cons.1 (Or.inl q), rw q e))
            (λ n. (mem-cons.1 (Or.inr ((mem-select xs).0 n).0), ((mem-select xs).0 n).1)),
      λ m. mem-cons.1 (
          Or.elim ∨₁_prop (mem-cons.0 m.0) (λ q. Or.inl q)
            (λ k. Or.inr ((mem-select xs).1 (k, m.1)))),
    )
    | inr e ↦ rw e (
      λ m. (mem-cons.1 (Or.inr ((mem-select xs).0 m).0), ((mem-select xs).0 m).1),
      λ m. Or.elim Mem-prop (mem-cons.0 m.0) (λ q. cc) (λ k. (mem-select xs).1 (k, m.1)),
    )
  ]
