-- ===== src/Failover/Select.antt =====
-- `_available` of model_failover.py: which providers may be asked now, and in which order.
use existential_identity_tes.Base.{
  ℕ, suc, ◌+◌, ltb, leb, ◌==◌, if◌then◌else◌, Bool, false, not, ◌&&◌, ◌||◌, String, List, [], ◌∷◌,
  length, select, Option, some, none,
}
use existential_identity_tes.Base.Text.{str_eq}
use existential_identity_tes.Base.Dict
use existential_identity_tes.Base.Sort
use existential_identity_tes.Failover.{Client, Provider, Limits, is_cooled_down, get_family}

-- A reference to a provider object: its place in the client's list, and the object as it was when
-- the reference was taken. The fields that the calls read from `seen` never change.
pub record Ref : Type 0 where
  pub index : ℕ
  pub seen : Provider

unfoldable pub refs_from : ℕ → List Provider → List Ref
refs_from i [] = []
refs_from i (p ∷ ps) = record { index = i; seen = p } ∷ refs_from (suc i) ps

-- `if family and …`: neither None nor the empty text counts as a family.
unfoldable pub other_family : Option String → Provider → Bool
other_family none p = false
other_family (some f) p = not (str_eq f "") && not (str_eq (get_family p) f)

unfoldable pub family_blocked : ℕ → Client → Provider → Bool
family_blocked now c p = elim (Dict.get c.family_dead_until (get_family p)) [
  | none ↦ false
  | some until ↦ ltb now until
]

unfoldable pub primaries : List Provider → ℕ
primaries ps = length (select (λ p. not p.is_fallback) ps)

-- The `continue`s of the loop in `_available`, in its order.
unfoldable pub eligible : Limits → ℕ → Client → Bool → Option String → Bool → Provider → Bool
unfolding other_family family_blocked primaries
eligible l now c include_fallback family bypass p =
    if p.is_fallback && not include_fallback
    then false
    else if is_cooled_down p.state && ltb (now + 5_000) p.cooldown_until
    then false
    else if other_family family p
    then false
    else if family_blocked now c p
    then false
    else if not bypass
        && ltb 0 p.last_used
        && ltb now (p.last_used + l.min_interval)
        && not p.is_fallback
        && not (leb (primaries c.providers) 1)
    then false
    else not (is_cooled_down p.state && ltb now p.cooldown_until)

-- The sort key `(priority, last_used)`.
unfoldable pub before : Ref → Ref → Bool
before a b =
    ltb a.seen.priority b.seen.priority
    || (a.seen.priority == b.seen.priority && leb a.seen.last_used b.seen.last_used)

unfoldable pub available : Limits → ℕ → Client → Bool → Option String → Bool → List Ref
unfolding eligible
available l now c include_fallback family bypass =
    Sort.sort before (
      select (λ r. eligible l now c include_fallback family bypass r.seen)
        (refs_from 0 c.providers))
