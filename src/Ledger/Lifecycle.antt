-- ===== src/Ledger/Lifecycle.antt =====
-- The life of one obligation: which states follow which, and what never changes.
use existential_identity_tes.Base.{
  ℕ, ◌≤◌, ◌≡◌, refl, ◌∙◌, String, Bool, true, false, not, List, [], ◌∷◌, Option, none, some, arith,
  All, any_of, if◌then◌else◌, Bool-cases, inl, inr,
}
use existential_identity_tes.Base.Text.{str_eq}
use existential_identity_tes.Ledger.{
  Status, failed, delivered, abandoned, Obligation, Table, has_id, update, is_abandoned, is_open,
  may_deliver, may_fail, is_expired, is_done, deliver_row, fail_row, abandon_row, find_row,
  obligation_id, create_obligation, mark_delivered, mark_failed, Op, create, deliver, fail, expire,
  clean, apply, history,
}
use existential_identity_tes.Ledger.Keys.{
  IsKeyed, apply-IsKeyed, find_row-update, find_row-select, find_row-append,
}

infix 40 ◌⟶◌
-- One step of an obligation's state: `abandoned` is final, `delivered` leads nowhere else.
pub data ◌⟶◌ : Status → Status → Type 0 where
  stay : {s : Status} → s ⟶ s
  sent : {s : Status} → is_abandoned s ≡ false → s ⟶ delivered
  bounced : {s : Status} → is_open s ≡ true → s ⟶ failed
  dropped : {s : Status} → is_open s ≡ true → s ⟶ abandoned

-- What one operation may make of a row.
pub record Follows (o o' : Obligation) : Type 0 where
  pub moved : o.state ⟶ o'.state
  pub counted : o.attempts ≤ o'.attempts
  pub same_chat : o'.chat_id ≡ o.chat_id
  pub same_content : o'.content ≡ o.content
  pub same_age : o'.created_at ≡ o.created_at

Follows-refl : (o : Obligation) → Follows o o
Follows-refl o = record {
  moved = stay;
  counted = omega arith;
  same_chat = refl;
  same_content = refl;
  same_age = refl;
}

deliver-Follows :
    (now : ℕ) (oid : String) (o : Obligation)
    → may_deliver oid o ≡ true
    → Follows o (deliver_row now o)
unfolding may_deliver deliver_row
deliver-Follows now oid o e = record {
  moved = sent (ground arith);
  counted = omega arith;
  same_chat = refl;
  same_content = refl;
  same_age = refl;
}

fail-moved :
    (o : Obligation) (b : Bool)
    → is_open o.state ≡ true
    → o.state ⟶ (if b then abandoned else failed)
fail-moved o true h = dropped h
fail-moved o false h = bounced h

fail-Follows :
    (now : ℕ) (error : List ℕ) (oid : String) (o : Obligation)
    → may_fail oid o ≡ true
    → Follows o (fail_row now error o)
unfolding may_fail fail_row
fail-Follows now error oid o e = record {
  moved = fail-moved o _ (ground arith);
  counted = omega arith;
  same_chat = refl;
  same_content = refl;
  same_age = refl;
}

expire-Follows :
    (now later : ℕ) (o : Obligation) → is_expired now o ≡ true → Follows o (abandon_row later o)
unfolding is_expired abandon_row
expire-Follows now later o e = record {
  moved = dropped (ground arith);
  counted = omega arith;
  same_chat = refl;
  same_content = refl;
  same_age = refl;
}

-- The clean-up is the one operation that deletes.
abbrev pub deletes : Op → Bool
deletes (clean now) = true
deletes _ = false

-- The row is gone only by a clean-up, and only if it was delivered.
abbrev pub After : Op → Obligation → Option Obligation → Type 0
After op o none = (deletes op ≡ true) × (o.state ≡ delivered)
After op o (some o') = Follows o o'

-- An UPDATE whose test lets only good steps through.
update-After :
    (op : Op) (oid : String) (p : Obligation → Bool) (f : Obligation → Obligation) (t : Table)
    (o : Obligation)
    → ((x : Obligation) → (f x).obligation_id ≡ x.obligation_id)
    → ((x : Obligation) → p x ≡ true → Follows x (f x))
    → find_row oid t ≡ some o
    → After op o (find_row oid (update p f t))
update-After op oid p f t o k step e =
    rw (find_row-update oid p f t k, e)
      (elim (Bool-cases (p o)) [ inl b ↦ rw b (step o b) | inr b ↦ rw b (Follows-refl o) ])

module _ (digest : List ℕ → String) where
  -- Whatever an operation does, the row of an identifier keeps its message and its age, never
  -- loses an attempt, moves only along `⟶`, and is deleted only when it was delivered.
  pub apply-After :
      (op : Op) (t : Table) (oid : String) (o : Obligation)
      → IsKeyed t
      → find_row oid t ≡ some o
      → After op o (find_row oid (apply digest op t))
  unfolding apply
  apply-After (create pid now chat_id content message_ref) t oid o h e =
      elim (Bool-cases (any_of (has_id (obligation_id digest chat_id content message_ref)) t)) [
        | inl b ↦ rw (b, apply, create_obligation, e) (Follows-refl o)
        | inr b ↦ rw (b, apply, create_obligation, find_row-append oid t _, e) (Follows-refl o)
      ]
  apply-After (deliver now key) t oid o h e = elim (Bool-cases (str_eq key "")) [
    | inl b ↦ rw (b, apply, mark_delivered, e) (Follows-refl o)
    | inr b ↦
        rw (b, apply, mark_delivered)
          (update-After (deliver now key) oid (may_deliver key) (deliver_row now) t o
            (λ x. unfold deliver_row in refl) (deliver-Follows now key) e)
  ]
  apply-After (fail now key error) t oid o h e = elim (Bool-cases (str_eq key "")) [
    | inl b ↦ rw (b, apply, mark_failed, e) (Follows-refl o)
    | inr b ↦
        rw (b, apply, mark_failed)
          (update-After (fail now key error) oid (may_fail key) (fail_row now error) t o
            (λ x. unfold fail_row in refl) (fail-Follows now error key) e)
  ]
  apply-After (expire now later) t oid o h e =
      update-After (expire now later) oid (is_expired now) (abandon_row later) t o
        (λ x. unfold abandon_row in refl) (expire-Follows now later) e
  apply-After (clean now) t oid o h e =
      rw (find_row-select oid (λ x. not (is_done now x)) t o h e)
        (elim (Bool-cases (is_done now o)) [
          | inl b ↦ rw b (refl, unfold is_done in ground arith)
          | inr b ↦ rw b (Follows-refl o)
        ])

⟶-closed : {s s' : Status} → s ⟶ s' → is_open s ≡ false → s' ≡ s
⟶-closed stay h = refl
⟶-closed (sent e) h = ground arith
⟶-closed (bounced e) h = cc
⟶-closed (dropped e) h = cc

-- No clean-up among the operations.
abbrev pub Retains : List Op → Type 0
Retains = All (λ op. deletes op ≡ false)

module _ (digest : List ℕ → String) where
  apply-closed :
      (op : Op) (t : Table) (oid : String) (o : Obligation)
      → IsKeyed t
      → find_row oid t ≡ some o
      → is_open o.state ≡ false
      → deletes op ≡ false
      → (o' : Obligation) × (find_row oid (apply digest op t) ≡ some o') × (o'.state ≡ o.state)
  apply-closed op t oid o h e c d =
      go (find_row oid (apply digest op t)) refl (apply-After digest op t oid o h e)
    where
      go :
          (x : Option Obligation)
          → find_row oid (apply digest op t) ≡ x
          → After op o x
          → (o' : Obligation) × (find_row oid (apply digest op t) ≡ some o') × (o'.state ≡ o.state)
      go none k a = cc
      go (some o') k a = (o', k, ⟶-closed a.moved c)

  -- A delivered or abandoned obligation keeps its state through every history without a clean-up.
  pub history-closed :
      (ops : List Op) (t : Table) (oid : String) (o : Obligation)
      → IsKeyed t
      → find_row oid t ≡ some o
      → is_open o.state ≡ false
      → Retains ops
      → (o' : Obligation) × (find_row oid (history digest ops t) ≡ some o') × (o'.state ≡ o.state)
  unfolding history
  history-closed [] t oid o h e c d = (o, e, refl)
  history-closed (op ∷ ops) t oid o h e c d =
      let (x, k, s) = apply-closed op t oid o h e c d.0 in
      let (o', k', s') =
        history-closed ops (apply digest op t) oid x (apply-IsKeyed digest op t h) k (rw s c) d.1 in
      (o', k', s' ∙ s)
