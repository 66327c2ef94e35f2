-- ===== src/Sessions/Limit.antt =====
-- How many sessions stay active.
use existential_identity_tes.Base.{
  ◌≡◌, refl, ◌∙◌, sym, ap, ℕ, zero, suc, ◌≤◌, leb, String, true, not, List, [], ◌∷◌, map, none,
  some, length, drop, select, arith, Bool-cases, Option-cases, inl, inr, All, All-map,
}
use existential_identity_tes.Base.Text.{str_eq, str_eq_iff, elem}
use existential_identity_tes.Base.Sort.{sort, length-sort, length-select-sort}
use existential_identity_tes.Sessions.{
  Session, SessionManager, ChatMessage, find_session, move_session, archive_one, archive_each,
  newest_first, enforce_active_limit, save_messages, insert_messages, touch_session,
}

-- The sessions that are left where some are archived.
abbrev left_of : List String → List Session → List Session
left_of ids ss = select (λ s. not (elem s.session_id ids)) ss

-- Nothing is left of the elements that are archived.
length-left :
    (n : ℕ) (ids : List String) (ss : List Session)
    → All (λ s. elem s.session_id ids ≡ true) (drop n ss)
    → length (left_of ids ss) ≤ n
length-left zero ids [] h = omega arith
length-left zero ids (s ∷ ss) h = rw h.0 (length-left zero ids ss h.1)
length-left (suc n) ids [] h = omega arith
length-left (suc n) ids (s ∷ ss) h = ground (arith, length-left n ids ss h)

All-elem : (ss : List Session) → All (λ s. elem s.session_id (map (λ t. t.session_id) ss) ≡ true) ss
unfolding elem
All-elem [] = tt
All-elem (s ∷ ss) = (
  ground (arith, str_eq_iff s.session_id s.session_id),
  All-map (λ t h. ground (arith, h)) ss (All-elem ss),
)

left_of-none : (ss : List Session) → left_of [] ss ≡ ss
unfolding elem
left_of-none [] = refl
left_of-none (s ∷ ss) = ap (λ ts. s ∷ ts) (left_of-none ss)

select_twice :
    (id : String) (ids : List String) (ss : List Session)
    → left_of ids (select (λ t. not (str_eq t.session_id id)) ss) ≡ left_of (id ∷ ids) ss
unfolding elem
select_twice id ids [] = refl
select_twice id ids (s ∷ ss) =
    ground (arith, select_twice id ids ss, str_eq_iff s.session_id id, str_eq_iff id s.session_id)

find_session-none :
    (id : String) (ss : List Session)
    → find_session id ss ≡ none
    → select (λ t. not (str_eq t.session_id id)) ss ≡ ss
unfolding find_session
find_session-none id [] h = refl
find_session-none id (s ∷ ss) h = ground (arith, h, find_session-none id ss)

find_session-id :
    (id : String) (ss : List Session) (s : Session)
    → find_session id ss ≡ some s
    → s.session_id ≡ id
unfolding find_session
find_session-id id [] s h = cc
find_session-id id (t ∷ ss) s h =
    ground (arith, h, find_session-id id ss s, str_eq_iff t.session_id id)

module _ {Call : Type 0} where
  sessions-archive_one :
      (now : ℕ) (id : String) (m : SessionManager Call)
      → (archive_one now id m).sessions ≡ select (λ t. not (str_eq t.session_id id)) m.sessions
  unfolding archive_one move_session
  sessions-archive_one now id m = elim (Option-cases (find_session id m.sessions)) [
    | inl e ↦ rw (e, archive_one) (sym (find_session-none id m.sessions e))
    | inr (s, e) ↦
        rw (e, archive_one)
          (ap (λ k. select (λ t. not (str_eq t.session_id k)) m.sessions)
            (find_session-id id m.sessions s e))
  ]

  sessions-archive_each :
      (now : ℕ) (ids : List String) (m : SessionManager Call)
      → (archive_each now ids m).sessions ≡ left_of ids m.sessions
  unfolding archive_each elem
  sessions-archive_each now [] m = sym (left_of-none m.sessions)
  sessions-archive_each now (id ∷ ids) m =
      sessions-archive_each now ids (archive_one now id m)
      ∙ ap (left_of ids) (sessions-archive_one now id m)
      ∙ select_twice id ids m.sessions

  insert_messages-max_active :
      (now : ℕ) (id : String) (msgs : List (ChatMessage Call)) (m : SessionManager Call)
      → (insert_messages now id msgs m).max_active ≡ m.max_active
  unfolding insert_messages
  insert_messages-max_active now id [] m = refl
  insert_messages-max_active now id (msg ∷ msgs) m = insert_messages-max_active now id msgs _

  enforce_active_limit-bound :
      (now : ℕ) (m : SessionManager Call)
      → length (enforce_active_limit now m).sessions ≤ m.max_active
  unfolding enforce_active_limit newest_first
  enforce_active_limit-bound now m =
      let le = λ (s t : Session). leb t.updated_at s.updated_at in
      let rows = sort le m.sessions in
      elim (Bool-cases (leb (length rows) m.max_active)) [
        | inl e ↦ rw e (ground (arith, e, length-sort le m.sessions))
        | inr e ↦
            let ids = map (λ (s : Session). s.session_id) (drop m.max_active rows) in
            rw (e, sessions-archive_each now ids m)
              (omega (
                arith,
                length-select-sort le (λ s. not (elem s.session_id ids)) m.sessions,
                length-left m.max_active ids rows (All-elem (drop m.max_active rows)),
              ))
      ]

  -- After any messages are saved, however many sessions there were, at most max_active are active.
  pub save_messages-limit :
      (now : ℕ) (id : String) (msg : ChatMessage Call) (msgs : List (ChatMessage Call))
      (m : SessionManager Call)
      → length (save_messages now id (msg ∷ msgs) m).sessions ≤ m.max_active
  unfolding save_messages
  save_messages-limit now id msg msgs m =
      let m' = record m { sessions = touch_session now id m.sessions } in
      omega (
        arith,
        enforce_active_limit-bound now (insert_messages now id (msg ∷ msgs) m'),
        insert_messages-max_active now id (msg ∷ msgs) m',
      )
