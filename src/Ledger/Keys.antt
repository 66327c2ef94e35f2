-- ===== src/Ledger/Keys.antt =====
-- The ledger's primary key, and what each operation does to the row of a key.
use mathlib.Core.Option
use existential_identity_tes.Base.{
  ℕ, ◌≡◌, refl, sym, ◌∙◌, ◌≢◌, String, Bool, true, false, not, List, [], ◌∷◌, ◌++◌, none, some,
  arith, All, select, any_of, if◌then◌else◌, Bool-cases, inl, inr,
}
use existential_identity_tes.Base.Text.{str_eq, str_eq_iff}
use existential_identity_tes.Base.Pairs
use existential_identity_tes.Ledger.{
  Obligation, Table, has_id, update, obligation_id, mark_delivered, deliver_row, mark_failed,
  fail_row, abandon_row, is_done, find_row, Op, create, deliver, fail, expire, clean, apply,
  history,
}

abbrev pub IsKeyed : Table → Type 0
IsKeyed = Pairs.Pairs (λ a b. a.obligation_id ≢ b.obligation_id)

any_of-false :
    (oid : String) (t : Table) → any_of (has_id oid) t ≡ false → All (λ o. o.obligation_id ≢ oid) t
any_of-false oid [] h = tt
any_of-false oid (o ∷ t) h =
    (ground (arith, str_eq_iff o.obligation_id oid), any_of-false oid t (ground arith))

update-IsKeyed :
    (p : Obligation → Bool) (f : Obligation → Obligation) (t : Table)
    → ((o : Obligation) → (f o).obligation_id ≡ o.obligation_id)
    → IsKeyed t
    → IsKeyed (update p f t)
update-IsKeyed p f t k h = Pairs.Pairs-map _ _ (λ a b n e. n (sym (same a) ∙ (e ∙ same b))) t h
  where
    same : (o : Obligation) → (if p o then f o else o).obligation_id ≡ o.obligation_id
    same o = elim (Bool-cases (p o)) [ inl e ↦ rw e (k o) | inr e ↦ rw e refl ]

module _ (digest : List ℕ → String) where
  -- Every operation keeps the identifiers of the table distinct.
  pub apply-IsKeyed : (op : Op) (t : Table) → IsKeyed t → IsKeyed (apply digest op t)
  unfolding apply deliver_row fail_row abandon_row
  apply-IsKeyed (create pid now chat_id content message_ref) t h =
      elim (Bool-cases (any_of (has_id (obligation_id digest chat_id content message_ref)) t)) [
        | inl e ↦ rw e h
        | inr e ↦ rw e (Pairs.Pairs-snoc _ t _ (any_of-false _ t e) h)
      ]
  apply-IsKeyed (deliver now oid) t h = elim (Bool-cases (str_eq oid "")) [
    | inl e ↦ rw (e, apply, mark_delivered) h
    | inr e ↦ rw (e, apply, mark_delivered) (update-IsKeyed _ (deliver_row now) t (λ o. refl) h)
  ]
  apply-IsKeyed (fail now oid error) t h = elim (Bool-cases (str_eq oid "")) [
    | inl e ↦ rw (e, apply, mark_failed) h
    | inr e ↦ rw (e, apply, mark_failed) (update-IsKeyed _ (fail_row now error) t (λ o. refl) h)
  ]
  apply-IsKeyed (expire now later) t h = update-IsKeyed _ (abandon_row later) t (λ o. refl) h
  apply-IsKeyed (clean now) t h = Pairs.Pairs-select _ (λ o. not (is_done now o)) t h

  -- No history of operations gives two rows one identifier.
  pub history-IsKeyed : (ops : List Op) (t : Table) → IsKeyed t → IsKeyed (history digest ops t)
  unfolding history
  history-IsKeyed [] t h = h
  history-IsKeyed (op ∷ ops) t h = history-IsKeyed ops (apply digest op t) (apply-IsKeyed op t h)

-- The row of a key after an UPDATE.
pub find_row-update :
    (oid : String) (p : Obligation → Bool) (f : Obligation → Obligation) (t : Table)
    → ((o : Obligation) → (f o).obligation_id ≡ o.obligation_id)
    → find_row oid (update p f t) ≡ Option.map (λ o. if p o then f o else o) (find_row oid t)
unfolding find_row
find_row-update oid p f [] k = refl
find_row-update oid p f (o ∷ t) k = ground (arith, k o, find_row-update oid p f t k)

find_row-absent :
    (oid : String) (keep : Obligation → Bool) (t : Table)
    → All (λ o. o.obligation_id ≢ oid) t
    → find_row oid (select keep t) ≡ none
unfolding find_row
find_row-absent oid keep [] h = refl
find_row-absent oid keep (o ∷ t) h =
    ground (arith, h.0, str_eq_iff o.obligation_id oid, find_row-absent oid keep t h.1)

pub All-other :
    (x : Obligation) (oid : String) (t : Table)
    → x.obligation_id ≡ oid
    → All (λ o. x.obligation_id ≢ o.obligation_id) t
    → All (λ o. o.obligation_id ≢ oid) t
All-other x oid [] e h = tt
All-other x oid (o ∷ t) e h = (λ k. h.0 (e ∙ sym k), All-other x oid t e h.1)

-- The row of a key after a DELETE: it is there unless the test takes it.
pub find_row-select :
    (oid : String) (keep : Obligation → Bool) (t : Table) (o : Obligation)
    → IsKeyed t
    → find_row oid t ≡ some o
    → find_row oid (select keep t) ≡ (if keep o then some o else none)
unfolding find_row
find_row-select oid keep [] o h e = cc
find_row-select oid keep (x ∷ t) o h e = elim (Bool-cases (has_id oid x)) [
  | inl i ↦ ground (
    arith,
    e,
    find_row-absent oid keep t (All-other x oid t ((str_eq_iff x.obligation_id oid).0 i) h.0),
  )
  | inr i ↦ ground (arith, find_row-select oid keep t o h.1)
]

-- The row of a key after an INSERT.
pub find_row-append :
    (oid : String) (t : Table) (new : Obligation)
    → find_row oid (t ++ new ∷ [])
      ≡ elim (find_row oid t) [ some o ↦ some o | none ↦ if has_id oid new then some new else none ]
unfolding find_row
find_row-append oid [] new = refl
find_row-append oid (x ∷ t) new = ground (arith, find_row-append oid t new)

pub find_row-has_id :
    (oid : String) (t : Table) (o : Obligation) → find_row oid t ≡ some o → has_id oid o ≡ true
unfolding find_row
find_row-has_id oid [] o e = cc
find_row-has_id oid (x ∷ t) o e = ground (arith, find_row-has_id oid t o)
