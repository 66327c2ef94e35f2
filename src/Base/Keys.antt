-- ===== src/Base/Keys.antt =====
-- Dictionaries with each key once, and rows that are replaced at the end.
use mathlib.Core.Path.{◌≡◌, refl, subst}
use mathlib.Core.Logic.{inl, inr}
use mathlib.Core.Option.{none, some}
use mathlib.Core.List.{[], ◌∷◌, ◌++◌}
use Prim.Native.String.{String}
use native.Mathlib.Omega.{arith}
use existential_identity_tes.Base.Tests.{if◌then◌else◌, Bool-cases}
use existential_identity_tes.Base.Lists.{All, All-map}
use existential_identity_tes.Base.Text.{str_eq, str_eq_iff}
use existential_identity_tes.Base.Dict.{Dict, get, put, remove, get-put, get-remove}

module _ {ℓ} {V : Type ℓ} where
  abbrev pub IsDict : Dict V → Type ℓ
  IsDict [] = Unit
  IsDict (e ∷ d) = (get d e.0 ≡ none) × IsDict d

  pub put-IsDict : (d : Dict V) (k : String) (v : V) → IsDict d → IsDict (put d k v)
  unfolding put get
  put-IsDict [] k v h = (refl, tt)
  put-IsDict ((j, w) ∷ d) k v h =
      ground (arith, put-IsDict d k v h.1, get-put d k j v, str_eq_iff k j, str_eq_iff j k)

  pub remove-IsDict : (d : Dict V) (k : String) → IsDict d → IsDict (remove d k)
  unfolding remove
  remove-IsDict [] k h = tt
  remove-IsDict ((j, w) ∷ d) k h = ground (arith, remove-IsDict d k h.1, get-remove d k j)

  pub get-snoc :
      (d : Dict V) (k j : String) (v : V)
      → get d k ≡ none
      → get (d ++ (k, v) ∷ []) j ≡ (if str_eq k j then some v else get d j)
  unfolding get
  get-snoc [] k j v h = refl
  get-snoc ((i, w) ∷ d) k j v h =
      ground (arith, get-snoc d k j v, h, str_eq_iff k j, str_eq_iff i k, str_eq_iff i j)

  pub snoc-IsDict :
      (d : Dict V) (k : String) (v : V) → get d k ≡ none → IsDict d → IsDict (d ++ (k, v) ∷ [])
  unfolding get
  snoc-IsDict [] k v n h = (refl, tt)
  snoc-IsDict ((j, w) ∷ d) k v n h =
      ground (arith, get-snoc d k j v, snoc-IsDict d k v, n, h, str_eq_iff k j, str_eq_iff j k)

  -- What holds of every entry holds of one that is found.
  pub All-get {κ} :
      (P : String × V → Type κ) (d : Dict V) (k : String) (v : V)
      → All P d
      → get d k ≡ some v
      → P (k, v)
  unfolding get
  All-get P [] k v a h = cc
  All-get P ((j, w) ∷ d) k v a h = elim (Bool-cases (str_eq j k)) [
    | inl e ↦ subst P (ground (arith, h, e, str_eq_iff j k)) a.0
    | inr e ↦ All-get P d k v a.1 (ground (arith, h, e))
  ]

  -- Every entry is found.
  pub IsDict-get : (d : Dict V) → IsDict d → All (λ e. get d e.0 ≡ some e.1) d
  unfolding get
  IsDict-get [] h = tt
  IsDict-get ((j, w) ∷ d) h =
      (ground (arith, str_eq_iff j j), All-map (λ e. later e) d (IsDict-get d h.1))
    where
      later : (e : String × V) → get d e.0 ≡ some e.1 → get ((j, w) ∷ d) e.0 ≡ some e.1
      later (k, v) g = ground (arith, g, h.0, str_eq_iff j k)
