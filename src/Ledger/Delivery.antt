-- ===== src/Ledger/Delivery.antt =====
-- What the ledger means for a message: when it is due, how often it is tried, and when it is not
-- protected.
use existential_identity_tes.Base.{
  ℕ, ◌+◌, ◌≤◌, ◌<◌, ◌≡◌, refl, ◌≢◌, String, true, false, List, [], ◌∷◌, some, arith, All,
  All-select, length, select, Bool-cases, inl, inr,
}
use existential_identity_tes.Base.Text.{str_eq, str_eq_iff}
use existential_identity_tes.Base.Sort
use existential_identity_tes.Ledger.{
  failed, Obligation, Table, has_id, is_abandoned, is_open, is_due, older, may_deliver, may_fail,
  deliver_row, fail_row, find_row, max_retries, load_pending, mark_delivered, mark_failed, Op,
  deliver, fail, apply, history,
}
use existential_identity_tes.Ledger.Keys.{
  IsKeyed, apply-IsKeyed, history-IsKeyed, All-other, find_row-has_id, find_row-update,
}
use existential_identity_tes.Ledger.Lifecycle.{Retains, history-closed}

-- Rows of an identifier whose row is not due are not offered.
not_offered :
    (now : ℕ) (oid : String) (t : Table) (o : Obligation)
    → IsKeyed t
    → find_row oid t ≡ some o
    → is_due now o ≡ false
    → All (λ x. x.obligation_id ≢ oid) (select (is_due now) t)
unfolding find_row
not_offered now oid [] o h e d = cc
not_offered now oid (x ∷ t) o h e d = elim (Bool-cases (has_id oid x)) [
  | inl i ↦
      rw (not_due i)
        (All-select _ (is_due now) t (All-other x oid t ((str_eq_iff x.obligation_id oid).0 i) h.0))
  | inr i ↦ elim (Bool-cases (is_due now x)) [
    | inl b ↦
        rw b
          (ground (arith, str_eq_iff x.obligation_id oid), not_offered now oid t o h.1 (found i) d)
    | inr b ↦ rw b (not_offered now oid t o h.1 (found i) d)
  ]
]
  where
    not_due : has_id oid x ≡ true → is_due now x ≡ false
    not_due i = ground (arith, e)

    found : has_id oid x ≡ false → find_row oid t ≡ some o
    found i = ground (arith, e)

closed-not_due : (now : ℕ) (o : Obligation) → is_open o.state ≡ false → is_due now o ≡ false
unfolding is_due
closed-not_due now o h = ground arith

module _ (digest : List ℕ → String) where
  -- Once `mark_delivered` has met the row of a message that was not abandoned, the message is
  -- never due again, at any time and after any operations but a clean-up.
  pub delivered_never_due :
      (t : Table) (oid : String) (o : Obligation) (now later : ℕ) (ops : List Op)
      → IsKeyed t
      → oid ≢ ""
      → find_row oid t ≡ some o
      → is_abandoned o.state ≡ false
      → Retains ops
      → All
          (λ x. x.obligation_id ≢ oid)
          (load_pending later (history digest ops (apply digest (deliver now oid) t)))
  unfolding load_pending apply
  delivered_never_due t oid o now later ops h ne e a r =
      let (o', k, s) =
        history-closed digest ops (apply digest (deliver now oid) t) oid (deliver_row now o)
          (apply-IsKeyed digest (deliver now oid) t h) row (unfold deliver_row in refl) r in
      Sort.All-sort older _ _ (
        not_offered later oid _ o'
          (history-IsKeyed digest ops _ (apply-IsKeyed digest (deliver now oid) t h)) k
          (closed-not_due later o' (rw s (unfold deliver_row in refl))))
    where
      given : str_eq oid "" ≡ false
      given = ground (arith, str_eq_iff oid "")

      fits : may_deliver oid o ≡ true
      fits = unfold may_deliver in ground (arith, find_row-has_id oid t o e)

      row : find_row oid (apply digest (deliver now oid) t) ≡ some (deliver_row now o)
      row =
          rw
            (
              given,
              apply,
              mark_delivered,
              find_row-update oid (may_deliver oid) (deliver_row now) t
                  (λ x. unfold deliver_row in refl),
              e,
            )
            (rw fits refl)

-- A failure of an open row adds an attempt, and leaves the row open while there are retries left.
fail_row_open :
    (now : ℕ) (error : List ℕ) (o : Obligation)
    → o.attempts < max_retries
    → ((fail_row now error o).state ≡ failed) × ((fail_row now error o).attempts ≡ o.attempts + 1)
unfolding fail_row
fail_row_open now error o h = ground arith

module _ (digest : List ℕ → String) where
  apply-fail :
      (t : Table) (oid : String) (o : Obligation) (now : ℕ) (error : List ℕ)
      → oid ≢ ""
      → find_row oid t ≡ some o
      → is_open o.state ≡ true
      → find_row oid (apply digest (fail now oid error) t) ≡ some (fail_row now error o)
  unfolding apply
  apply-fail t oid o now error ne e a =
      rw
        (
          given,
          apply,
          mark_failed,
          find_row-update oid (may_fail oid) (fail_row now error) t (λ x. unfold fail_row in refl),
          e,
        )
        (rw fits refl)
    where
      given : str_eq oid "" ≡ false
      given = ground (arith, str_eq_iff oid "")

      fits : may_fail oid o ≡ true
      fits = unfold may_fail in ground (arith, find_row-has_id oid t o e)

  -- Sends that fail one after the other, each at its time and with its error.
  abbrev pub fails : String → List (ℕ × List ℕ) → List Op
  fails oid [] = []
  fails oid ((now, error) ∷ rest) = fail now oid error ∷ fails oid rest

  -- As long as the failures stay within the retries, an open message counts each of them, and
  -- stays open: after the last retry it is `failed`, no longer due at any time, and not
  -- `abandoned`.
  pub failures_counted :
      (es : List (ℕ × List ℕ)) (t : Table) (oid : String) (o : Obligation)
      → IsKeyed t
      → oid ≢ ""
      → find_row oid t ≡ some o
      → is_open o.state ≡ true
      → o.attempts + length es ≤ max_retries
      → (o' : Obligation) × (find_row oid (history digest (fails oid es) t) ≡ some o')
        × (is_open o'.state ≡ true)
        × (o'.attempts ≡ o.attempts + length es)
        × ((now : ℕ) → o.attempts + length es ≡ max_retries → is_due now o' ≡ false)
  unfolding history
  failures_counted [] t oid o h ne e a m =
      (o, e, a, omega arith, λ now k. unfold is_due in ground arith)
  failures_counted ((now, error) ∷ es) t oid o h ne e a m =
      let (s, n) = fail_row_open now error o (omega arith) in
      let (o', k, b, c, d) =
        failures_counted es (apply digest (fail now oid error) t) oid (fail_row now error o)
          (apply-IsKeyed digest (fail now oid error) t h) ne (apply-fail t oid o now error ne e a)
          (rw s refl) (omega (arith, n)) in
      (o', k, b, omega (arith, n), λ later q. d later (omega (arith, n)))
