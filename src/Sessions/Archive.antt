-- ===== src/Sessions/Archive.antt =====
-- Archiving moves rows and loses none.
use existential_identity_tes.Base.{
  ◌≡◌, refl, ◌∙◌, ap, ℕ, ◌<◌, ◌≤◌, ◌+◌, ◌*◌, leb, ltb, ◌==◌, String, Bool, false, not, List, [],
  ◌∷◌, ◌++◌, map, length, drop, select, any_of, arith, Bool-cases, Option-cases, inl, inr,
}
use existential_identity_tes.Base.Text.{str_eq}
use existential_identity_tes.Sessions.{
  save_messages, day, Session, SessionManager, ChatMessage, Stored, find_session, archive_rows,
  move_session, archive_one, archive_each, archive_old, newest_first, enforce_active_limit,
  save_messages, insert_messages, touch_session, stored_message,
}

module _ {Call : Type 0} where
  -- The number of rows with a property, archived ones included.
  abbrev pub total : (Stored Call → Bool) → SessionManager Call → ℕ
  total p m = length (select p m.messages) + length (select p m.archived_messages)

  abbrev pub with_id : ℕ → Stored Call → Bool
  with_id k r = r.id == k

  -- An identifier has one row at most, and none after the last one given.
  abbrev pub IsKeyed : SessionManager Call → Type 0
  IsKeyed m = (k : ℕ) → (total (with_id k) m ≤ 1) × (m.last_id < k → total (with_id k) m ≡ 0)

  select-parts :
      (p q : Stored Call → Bool) (rows : List (Stored Call))
      → length (select p (select q rows)) + length (select p (select (λ r. not (q r)) rows))
        ≡ length (select p rows)
  select-parts p q [] = refl
  select-parts p q (r ∷ rows) = ground (arith, select-parts p q rows)

  pub select-append :
      (p : Stored Call → Bool) (xs ys : List (Stored Call))
      → length (select p (xs ++ ys)) ≡ length (select p xs) + length (select p ys)
  select-append p [] ys = omega arith
  select-append p (x ∷ xs) ys = ground (arith, select-append p xs ys)

  absent_id :
      (k : ℕ) (rows : List (Stored Call))
      → length (select (with_id k) rows) ≡ 0
      → any_of (λ r. r.id == k) rows ≡ false
  absent_id k [] h = refl
  absent_id k (r ∷ rows) h = ground (arith, h, absent_id k rows)

  -- No row of another identifier is replaced.
  archive_rows-disjoint :
      (archived rows : List (Stored Call))
      → ((k : ℕ) → length (select (with_id k) rows) + length (select (with_id k) archived) ≤ 1)
      → archive_rows archived rows ≡ archived ++ rows
  unfolding archive_rows
  archive_rows-disjoint [] rows h = refl
  archive_rows-disjoint (a ∷ archived) rows h =
      rw (absent_id a.id rows (own_absent h))
        (ap (λ z. a ∷ z) (archive_rows-disjoint archived rows (rest_disjoint h)))
    where
      own_absent :
          ((k : ℕ)
            → length (select (with_id k) rows) + length (select (with_id k) (a ∷ archived)) ≤ 1)
          → length (select (with_id a.id) rows) ≡ 0
      own_absent h = ground (arith, h a.id)

      rest_disjoint :
          ((k : ℕ)
            → length (select (with_id k) rows) + length (select (with_id k) (a ∷ archived)) ≤ 1)
          → (k : ℕ) → length (select (with_id k) rows) + length (select (with_id k) archived) ≤ 1
      rest_disjoint h k = ground (arith, h k)

  total-move_session :
      (p : Stored Call → Bool) (now : ℕ) (s : Session) (m : SessionManager Call)
      → IsKeyed m
      → total p (move_session now s m) ≡ total p m
  unfolding move_session
  total-move_session p now s m k =
      let own = λ (r : Stored Call). str_eq r.session_id s.session_id in
      rw
        (archive_rows-disjoint m.archived_messages (select own m.messages)
          (λ j. omega (arith, (k j).0, select-parts (with_id j) own m.messages)))
        (omega (
          arith,
          select-append p m.archived_messages (select own m.messages),
          select-parts p own m.messages,
        ))

  total-archive_one :
      (p : Stored Call → Bool) (now : ℕ) (id : String) (m : SessionManager Call)
      → IsKeyed m
      → total p (archive_one now id m) ≡ total p m
  unfolding archive_one
  total-archive_one p now id m k = elim (Option-cases (find_session id m.sessions)) [
    | inl e ↦ rw (e, archive_one) refl
    | inr (s, e) ↦ rw (e, archive_one) (total-move_session p now s m k)
  ]

  last_id-archive_one :
      (now : ℕ) (id : String) (m : SessionManager Call) → (archive_one now id m).last_id ≡ m.last_id
  unfolding move_session archive_one
  last_id-archive_one now id m = elim (Option-cases (find_session id m.sessions)) [
    | inl e ↦ rw (e, archive_one) refl
    | inr (s, e) ↦ rw (e, archive_one) refl
  ]

  archive_one-IsKeyed :
      (now : ℕ) (id : String) (m : SessionManager Call) → IsKeyed m → IsKeyed (archive_one now id m)
  archive_one-IsKeyed now id m k j =
      rw (total-archive_one (with_id j) now id m k, last_id-archive_one now id m) (k j)

  -- Archiving keeps every row.
  abbrev pub Kept : SessionManager Call → SessionManager Call → Type 0
  Kept m m' =
      IsKeyed m' × (m'.last_id ≡ m.last_id) × ((p : Stored Call → Bool) → total p m' ≡ total p m)

  archive_each-Kept :
      (now : ℕ) (ids : List String) (m : SessionManager Call)
      → IsKeyed m
      → Kept m (archive_each now ids m)
  unfolding archive_each
  archive_each-Kept now [] m k = (k, refl, λ p. refl)
  archive_each-Kept now (id ∷ ids) m k =
      let (k', l, e) =
        archive_each-Kept now ids (archive_one now id m) (archive_one-IsKeyed now id m k) in
      (k', l ∙ last_id-archive_one now id m, λ p. e p ∙ total-archive_one p now id m k)

  enforce_active_limit-Kept :
      (now : ℕ) (m : SessionManager Call) → IsKeyed m → Kept m (enforce_active_limit now m)
  unfolding enforce_active_limit
  enforce_active_limit-Kept now m k =
      elim (Bool-cases (leb (length (newest_first m.sessions)) m.max_active)) [
        | inl e ↦ rw e (k, refl, λ p. refl)
        | inr e ↦ rw e (
            archive_each-Kept now
              (map (λ s. s.session_id) (drop m.max_active (newest_first m.sessions))) m k)
      ]

  -- The rows that are stored for messages, numbered from the last identifier.
  unfoldable pub stored_rows : ℕ → String → ℕ → List (ChatMessage Call) → List (Stored Call)
  unfolding stored_message
  stored_rows now session_id last [] = []
  stored_rows now session_id last (msg ∷ msgs) =
      stored_message now session_id (last + 1) msg ∷ stored_rows now session_id (last + 1) msgs

  total-insert_messages :
      (p : Stored Call → Bool) (now : ℕ) (id : String) (msgs : List (ChatMessage Call))
      (m : SessionManager Call)
      → total p (insert_messages now id msgs m)
        ≡ total p m + length (select p (stored_rows now id m.last_id msgs))
  unfolding insert_messages stored_rows
  total-insert_messages p now id [] m = omega arith
  total-insert_messages p now id (msg ∷ msgs) m =
      let row = stored_message now id (m.last_id + 1) msg in
      let m' = record m { messages = m.messages ++ row ∷ []; last_id = m.last_id + 1 } in
      ground (arith, total-insert_messages p now id msgs m', select-append p m.messages (row ∷ []))

  insert_messages-IsKeyed :
      (now : ℕ) (id : String) (msgs : List (ChatMessage Call)) (m : SessionManager Call)
      → IsKeyed m
      → IsKeyed (insert_messages now id msgs m)
  unfolding insert_messages stored_message
  insert_messages-IsKeyed now id [] m k = k
  insert_messages-IsKeyed now id (msg ∷ msgs) m k =
      let row = stored_message now id (m.last_id + 1) msg in
      insert_messages-IsKeyed now id msgs
        (record m { messages = m.messages ++ row ∷ []; last_id = m.last_id + 1 })
        (λ j. ground (arith, k j, select-append (with_id j) m.messages (row ∷ [])))

  last_id-insert_messages :
      (now : ℕ) (id : String) (msgs : List (ChatMessage Call)) (m : SessionManager Call)
      → (insert_messages now id msgs m).last_id ≡ m.last_id + length msgs
  unfolding insert_messages
  last_id-insert_messages now id [] m = omega arith
  last_id-insert_messages now id (msg ∷ msgs) m =
      let row = stored_message now id (m.last_id + 1) msg in
      let m' = record m { messages = m.messages ++ row ∷ []; last_id = m.last_id + 1 } in
      omega (arith, last_id-insert_messages now id msgs m')

  abbrev pub touched : ℕ → String → SessionManager Call → SessionManager Call
  touched now id m = record m { sessions = touch_session now id m.sessions }

  pub archive_old-Kept :
      (now days : ℕ) (m : SessionManager Call) → IsKeyed m → Kept m (archive_old now days m).1
  unfolding archive_old
  archive_old-Kept now days m k =
      archive_each-Kept now
        (map (λ s. s.session_id) (select (λ s. ltb (s.updated_at + days * day) now) m.sessions)) m k

  -- What saving adds to the two tables together.
  abbrev pub Saved :
      ℕ → String → List (ChatMessage Call) → SessionManager Call → SessionManager Call → Type 0
  Saved now id msgs m m' =
      IsKeyed m'
      × (m'.last_id ≡ m.last_id + length msgs)
      × ((p : Stored Call → Bool)
          → total p m' ≡ total p m + length (select p (stored_rows now id m.last_id msgs)))

  pub save_messages-Saved :
      (now : ℕ) (id : String) (msgs : List (ChatMessage Call)) (m : SessionManager Call)
      → IsKeyed m
      → Saved now id msgs m (save_messages now id msgs m)
  unfolding save_messages stored_rows
  save_messages-Saved now id [] m k = (k, omega arith, λ p. omega arith)
  save_messages-Saved now id (msg ∷ msgs) m k =
      let m' = insert_messages now id (msg ∷ msgs) (touched now id m) in
      let (k', l, e) =
        enforce_active_limit-Kept now m'
          (insert_messages-IsKeyed now id (msg ∷ msgs) (touched now id m) k) in
      (
        k',
        l ∙ last_id-insert_messages now id (msg ∷ msgs) (touched now id m),
        λ p. e p ∙ total-insert_messages p now id (msg ∷ msgs) (touched now id m),
      )
