-- ===== src/Failover/Pool.antt =====
-- Which providers `_available` offers, stated without its loop, and their order.
use mathlib.Core.List.{Mem}
use mathlib.Core.List.Perm
use existential_identity_tes.Base.Members.{mem-select}
use existential_identity_tes.Base.{
  ℕ, ◌+◌, ◌≤◌, ◌<◌, ◌≡◌, refl, ◌≢◌, ◌↔◌, Bool, true, false, String, List, [], ◌∷◌, select, Option,
  none, some, arith,
}
use existential_identity_tes.Base.Text.{str_eq_iff}
use existential_identity_tes.Base.Dict
use existential_identity_tes.Base.Sort
use existential_identity_tes.Failover.{Client, Provider, Limits, healthy, cooled_down, get_family}
use existential_identity_tes.Failover.Select.{
  Ref, refs_from, other_family, family_blocked, primaries, eligible, before, available,
}

-- What makes a provider eligible, condition by condition.
pub record CanServe (l : Limits) (now : ℕ) (c : Client) (include_fallback : Bool)
    (family : Option String) (bypass : Bool) (p : Provider) : Type 0 where
  pub allowed : p.is_fallback ≡ true → include_fallback ≡ true
  pub cooled : p.state ≡ cooled_down → p.cooldown_until ≤ now
  pub in_family : (f : String) → family ≡ some f → f ≢ "" → get_family p ≡ f
  pub unblocked : (t : ℕ) → Dict.get c.family_dead_until (get_family p) ≡ some t → t ≤ now
  pub rested :
      bypass ≡ false
      → p.is_fallback ≡ false
      → 1 < primaries c.providers
      → 0 < p.last_used
      → p.last_used + l.min_interval ≤ now

in_family_iff :
    (family : Option String) (p : Provider)
    → (other_family family p ≡ false) ↔ ((f : String) → family ≡ some f → f ≢ "" → get_family p ≡ f)
unfolding other_family
in_family_iff none p = (λ h f e. cc, λ h. refl)
in_family_iff (some f) p = (
  λ h g e ne. ground (arith, str_eq_iff g "", str_eq_iff (get_family p) g),
  λ h. ground (arith, h f refl, str_eq_iff f "", str_eq_iff (get_family p) f),
)

unblocked_iff :
    (now : ℕ) (c : Client) (p : Provider)
    → (family_blocked now c p ≡ false)
      ↔ ((t : ℕ) → Dict.get c.family_dead_until (get_family p) ≡ some t → t ≤ now)
unfolding family_blocked
unblocked_iff now c p = go (Dict.get c.family_dead_until (get_family p)) refl
  where
    go :
        (o : Option ℕ)
        → Dict.get c.family_dead_until (get_family p) ≡ o
        → (family_blocked now c p ≡ false)
          ↔ ((t : ℕ) → Dict.get c.family_dead_until (get_family p) ≡ some t → t ≤ now)
    go none e = (λ h t k. cc, λ h. ground arith)
    go (some u) e = (λ h t k. ground arith, λ h. ground (arith, h u e))

module _ (l : Limits) (now : ℕ) (c : Client) (include_fallback : Bool) (family : Option String)
    (bypass : Bool) (p : Provider) where
  eligible-CanServe :
      eligible l now c include_fallback family bypass p ≡ true
      → CanServe l now c include_fallback family bypass p
  unfolding eligible
  eligible-CanServe h = record {
    allowed = λ f. ground arith;
    cooled = λ s. ground arith;
    in_family = (in_family_iff family p).0 (ground arith);
    unblocked = (unblocked_iff now c p).0 (ground arith);
    rested = λ b f n u. ground arith;
  }

  CanServe-eligible :
      CanServe l now c include_fallback family bypass p
      → eligible l now c include_fallback family bypass p ≡ true
  unfolding eligible
  CanServe-eligible h = ground (
    arith,
    h.allowed,
    h.cooled,
    h.rested,
    (in_family_iff family p).1 h.in_family,
    (unblocked_iff now c p).1 h.unblocked,
  )

before-IsOrder : Sort.IsOrder before
unfolding before
before-IsOrder = record { total = λ a b h. ground arith; chain = λ a b c h k. ground arith }

-- `_available` offers exactly the providers of the client that can serve, each in its own place of
-- the list, and in the order of priority, then of least recent use.
pub available_exact :
    (l : Limits) (now : ℕ) (c : Client) (include_fallback : Bool) (family : Option String)
    (bypass : Bool)
    → ((r : Ref)
        → Mem r (available l now c include_fallback family bypass) ↔ (
            Mem r (refs_from 0 c.providers)
            × CanServe l now c include_fallback family bypass r.seen))
      × Sort.IsSorted before (available l now c include_fallback family bypass)
unfolding available
available_exact l now c inc family bypass = (
  λ r. (
    λ m.
        let (k, t) =
          (mem-select test r refs).0
            ((Perm.mem_iff (Sort.sort-perm before (select test refs))).0 m) in
        (k, eligible-CanServe l now c inc family bypass r.seen t),
    λ m.
        (Perm.mem_iff (Sort.sort-perm before (select test refs))).1 (
          (mem-select test r refs).1 (m.0, CanServe-eligible l now c inc family bypass r.seen m.1)),
  ),
  Sort.sort-IsSorted before before-IsOrder (select test refs),
)
  where
    refs : List Ref
    refs = refs_from 0 c.providers

    test : Ref → Bool
    test r = eligible l now c inc family bypass r.seen

-- A fallback provider of lower priority number is asked before a primary one although both can
-- serve: in Phase 1 without a family the pool holds both, and its order ignores `is_fallback`.
pub fallback_leads :
    (l : Limits) (now : ℕ) (p q : Provider) (broken failures : ℕ)
    → p.is_fallback ≡ false
    → q.is_fallback ≡ true
    → p.state ≡ healthy
    → q.state ≡ healthy
    → p.last_used ≡ 0
    → q.last_used ≡ 0
    → q.priority < p.priority
    → available l now
        (record {
          providers = p ∷ q ∷ [];
          last_healthy = [];
          global_consecutive_failures = failures;
          circuit_broken_until = broken;
          family_dead_until = [];
        })
        true
        none
        false
      ≡ record { index = 1; seen = q } ∷ record { index = 0; seen = p } ∷ []
unfolding available before Sort.sort refs_from Dict.get
fallback_leads l now p q b k fp fq sp sq up uq lt = ground arith
