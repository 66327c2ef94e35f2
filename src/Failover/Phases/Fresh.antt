-- ===== src/Failover/Phases/Fresh.antt =====
-- The provider names that a call has not tried yet: the measure of its loops.
use existential_identity_tes.Base.{
  ℕ, suc, ◌≤◌, ◌<◌, ◌≡◌, Bool, true, false, not, List, [], ◌∷◌, Option, arith, All, All-select,
  String, map, select, length, Bool-cases, inl, inr,
}
use existential_identity_tes.Base.Text.{elem, str_eq_iff}
use existential_identity_tes.Base.Sort
use existential_identity_tes.Failover.{Client, Provider, Limits}
use existential_identity_tes.Failover.Select.{Ref, refs_from, available}
use existential_identity_tes.Failover.Call.{World, Run, untried, pool_of}

abbrev pub names : Client → List String
names c = map (λ p. p.name) c.providers

abbrev pub fresh : List String → List String → ℕ
fresh ns tried = length (select (λ n. not (elem n tried)) ns)

pub fresh-le-length : (ns tried : List String) → fresh ns tried ≤ length ns
fresh-le-length [] tried = omega arith
fresh-le-length (n ∷ ns) tried = ground (arith, fresh-le-length ns tried)

fresh-cons-le : (n : String) (ns tried : List String) → fresh ns (n ∷ tried) ≤ fresh ns tried
unfolding elem
fresh-cons-le n [] tried = omega arith
fresh-cons-le n (m ∷ ns) tried = ground (arith, fresh-cons-le n ns tried)

-- A name of the list that was not tried is one fewer once it is.
pub fresh-cons-lt :
    (n : String) (ns tried : List String)
    → elem n ns ≡ true
    → elem n tried ≡ false
    → fresh ns (n ∷ tried) < fresh ns tried
unfolding elem
fresh-cons-lt n [] tried h k = cc
fresh-cons-lt n (m ∷ ns) tried h k =
    ground
      (arith, str_eq_iff m n, str_eq_iff n m, fresh-cons-le n ns tried, fresh-cons-lt n ns tried)

-- What a pool's references satisfy: a name of the client that was not tried.
pub record IsFresh (r : Run) (a : Ref) : Type 0 where
  pub listed : elem a.seen.name (names r.client) ≡ true
  pub not_tried : elem a.seen.name r.tried ≡ false

All-refs_from :
    (P : Provider → Type 0) (i : ℕ) (ps : List Provider)
    → All P ps
    → All (λ (a : Ref). P a.seen) (refs_from i ps)
unfolding refs_from
All-refs_from P i [] h = tt
All-refs_from P i (p ∷ ps) h = (h.0, All-refs_from P (suc i) ps h.1)

All-listed :
    (ns : List String) (ps : List Provider)
    → (all : (p : Provider) → elem p.name (map (λ q. q.name) ps) ≡ true → elem p.name ns ≡ true)
    → All (λ p. elem p.name ns ≡ true) ps
unfolding elem
All-listed ns [] k = tt
All-listed ns (p ∷ ps) k =
    (k p (ground (arith, str_eq_iff p.name p.name)), All-listed ns ps (λ q h. k q (ground arith)))

All-untried :
    (tried : List String) (P : Ref → Type 0) (refs : List Ref)
    → All P refs
    → All (λ a. P a × (elem a.seen.name tried ≡ false)) (untried tried refs)
unfolding untried
All-untried tried P [] h = tt
All-untried tried P (a ∷ refs) h = elim (Bool-cases (elem a.seen.name tried)) [
  | inl e ↦ rw e (All-untried tried P refs h.1)
  | inr e ↦ rw e ((h.0, e), All-untried tried P refs h.1)
]

-- Every provider of a pool is fresh when the pool is computed.
pub pool_of-IsFresh :
    (w : World) (l : Limits) (include_fallback : Bool) (family : Option String) (bypass : Bool)
    (r : Run)
    → All
        (λ a. (elem a.seen.name (names r.client) ≡ true) × (elem a.seen.name r.tried ≡ false))
        (pool_of w l include_fallback family bypass r)
unfolding pool_of available
pool_of-IsFresh w l inc family bypass r =
    All-untried r.tried (λ a. elem a.seen.name (names r.client) ≡ true) _
      (Sort.All-sort _ _ _ (
        All-select _ _ _ (
          All-refs_from (λ p. elem p.name (names r.client) ≡ true) 0 r.client.providers
            (All-listed (names r.client) r.client.providers (λ p h. h)))))
