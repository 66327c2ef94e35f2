-- ===== src/Sessions/History.antt =====
-- The rows after any saves and archivings.
use existential_identity_tes.Base.{
  ◌≡◌, refl, ◌∙◌, ap, ℕ, ◌+◌, ◌≤◌, String, Bool, List, [], ◌∷◌, ◌++◌, length, select, arith,
}
use existential_identity_tes.Sessions.{
  SessionManager, ChatMessage, Stored, save_messages, archive_old,
}
use existential_identity_tes.Sessions.Archive.{
  total, IsKeyed, with_id, stored_rows, archive_old-Kept, save_messages-Saved, select-append,
}

pub data SessionOp (Call : Type 0) : Type 0 where
  saves : ℕ → String → List (ChatMessage Call) → SessionOp Call
  archives : ℕ → ℕ → SessionOp Call

module _ {Call : Type 0} where
  unfoldable pub apply : SessionOp Call → SessionManager Call → SessionManager Call
  unfolding save_messages archive_old
  apply (saves now id msgs) m = save_messages now id msgs m
  apply (archives now days) m = (archive_old now days m).1

  unfoldable pub run : List (SessionOp Call) → SessionManager Call → SessionManager Call
  unfolding apply
  run [] m = m
  run (op ∷ ops) m = run ops (apply op m)

  -- The rows of all the messages that were saved, numbered one after the other.
  unfoldable pub saved_rows : ℕ → List (SessionOp Call) → List (Stored Call)
  unfolding stored_rows
  saved_rows last [] = []
  saved_rows last (saves now id msgs ∷ ops) =
      stored_rows now id last msgs ++ saved_rows (last + length msgs) ops
  saved_rows last (archives now days ∷ ops) = saved_rows last ops

  run-rows :
      (ops : List (SessionOp Call)) (m : SessionManager Call)
      → IsKeyed m
      → IsKeyed (run ops m)
        × ((p : Stored Call → Bool)
            → total p (run ops m) ≡ total p m + length (select p (saved_rows m.last_id ops)))
  unfolding run saved_rows
  run-rows [] m k = (k, λ p. omega arith)
  run-rows (saves now id msgs ∷ ops) m k =
      let (k', l, e) = save_messages-Saved now id msgs m k in
      let (k2, f) = run-rows ops (save_messages now id msgs m) k' in
      (
        k2,
        λ p.
            f p
            ∙ omega (
              arith,
              e p,
              ap (λ n. length (select p (saved_rows n ops))) l,
              select-append p (stored_rows now id m.last_id msgs)
                  (saved_rows (m.last_id + length msgs) ops),
            ),
      )
  run-rows (archives now days ∷ ops) m k =
      let (k', l, e) = archive_old-Kept now days m k in
      let (k2, f) = run-rows ops (archive_old now days m).1 k' in
      (k2, λ p. f p ∙ omega (arith, e p, ap (λ n. length (select p (saved_rows n ops))) l))

  abbrev pub empty_store : ℕ → SessionManager Call
  empty_store n = record {
    max_active = n;
    sessions = [];
    messages = [];
    last_id = 0;
    archived_sessions = [];
    archived_messages = [];
    summaries = [];
  }

  -- From an empty store, any saves of messages and any archivings by age, the archivings that saving
  -- itself does included: the two tables together hold the row of each message that was saved,
  -- numbered in the order of the saves, exactly once and no other row, and no identifier has two rows.
  pub run-total :
      (max_active : ℕ) (ops : List (SessionOp Call))
      → ((k : ℕ) → total (with_id k) (run ops (empty_store max_active)) ≤ 1)
        × ((p : Stored Call → Bool)
            → total p (run ops (empty_store max_active)) ≡ length (select p (saved_rows 0 ops)))
  run-total max_active ops =
      let (k, e) = run-rows ops (empty_store max_active) (λ j. (omega arith, λ h. refl)) in
      (λ j. (k j).0, λ p. omega (arith, e p))
