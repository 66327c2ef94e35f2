-- ===== src/Ledger/Sending.antt =====
-- Sending over Telegram through the ledger, the identifiers it files messages under, and its
-- statistics.
use mathlib.Core.List.{append_assoc}
use existential_identity_tes.Base.{
  ℕ, ◌+◌, ◌<◌, ◌≡◌, refl, sym, ap, ◌∙◌, ◌≢◌, String, true, false, List, [], ◌∷◌, ◌++◌, none, some,
  arith, All, length, any_of, if◌then◌else◌, take,
}
use existential_identity_tes.Base.Text.{str_eq, str_eq_iff}
use existential_identity_tes.Ledger.{
  pending, delivered, Obligation, Table, has_id, is_open, is_due, may_fail, fail_row, find_row,
  obligation_id, raw_key, max_age, stats, create_obligation, mark_failed, telegram_send, sent_text,
  SendReply, accepted, refused, broke, is_given,
}
use existential_identity_tes.Ledger.Keys.{find_row-update, find_row-append, find_row-has_id}

abbrev pub Fails : SendReply → Type 0
Fails accepted = ⊥
Fails _ = Unit

absent-any_of : (oid : String) (t : Table) → find_row oid t ≡ none → any_of (has_id oid) t ≡ false
unfolding find_row
absent-any_of oid [] h = refl
absent-any_of oid (o ∷ t) h = ground (arith, absent-any_of oid t)

present-any_of :
    (oid : String) (t : Table) (o : Obligation)
    → find_row oid t ≡ some o
    → any_of (has_id oid) t ≡ true
unfolding find_row
present-any_of oid [] o h = cc
present-any_of oid (x ∷ t) o h = ground (arith, present-any_of oid t o)

-- The row of an identifier after `mark_failed`.
mark_failed-row :
    (now : ℕ) (oid : String) (error : List ℕ) (t : Table) (o : Obligation)
    → oid ≢ ""
    → find_row oid t ≡ some o
    → find_row oid (mark_failed now oid error t).1
      ≡ some (if is_open o.state then fail_row now error o else o)
unfolding mark_failed
mark_failed-row now oid error t o ne e =
    rw
      (
        given,
        mark_failed,
        find_row-update oid (may_fail oid) (fail_row now error) t (λ x. unfold fail_row in refl),
        e,
      )
      (rw fits refl)
  where
    given : str_eq oid "" ≡ false
    given = ground (arith, str_eq_iff oid "")

    fits : may_fail oid o ≡ is_open o.state
    fits = unfold may_fail in ground (arith, find_row-has_id oid t o e)

module _ (digest : List ℕ → String) (pid now later : ℕ) (chat_id response : List ℕ) where
  abbrev pub content : List ℕ
  content = sent_text response

  abbrev pub id_of_message : String
  id_of_message = obligation_id digest chat_id content []

  sent_table :
      (reply : SendReply) (t : Table)
      → Fails reply
      → is_given chat_id ≡ true
      → is_given content ≡ true
      → (error : List ℕ) × (telegram_send digest pid now later chat_id response reply t ≡ (
        false,
        (mark_failed later id_of_message error
            (create_obligation digest pid now chat_id content [] t).1).1,
      ))
  unfolding telegram_send
  sent_table accepted t f g h = absurd f
  sent_table (refused why) t f g h = (why, rw (g, h) refl)
  sent_table (broke why) t f g h = (take 200 why, rw (g, h) refl)

  -- A message that is new to the table and whose first send fails, by an answer or an exception,
  -- is on record as failed once, and is due whenever it is not yet a day old.
  pub first_send_kept :
      (reply : SendReply) (t : Table)
      → Fails reply
      → is_given chat_id ≡ true
      → is_given content ≡ true
      → id_of_message ≢ ""
      → find_row id_of_message t ≡ none
      → (o : Obligation) × ((telegram_send digest pid now later chat_id response reply t).0 ≡ false)
        × (find_row id_of_message (telegram_send digest pid now later chat_id response reply t).1
            ≡ some o)
        × (o.chat_id ≡ chat_id)
        × (o.content ≡ content)
        × (o.attempts ≡ 1)
        × ((at : ℕ) → at < now + max_age → is_due at o ≡ true)
  unfolding create_obligation fail_row is_due
  first_send_kept reply t f g h ne e =
      let (error, k) = sent_table reply t f g h in
      (
        fail_row later error row,
        ap (λ x. x.0) k,
        ap (λ x. find_row id_of_message x.1) k
            ∙ mark_failed-row later id_of_message error _ row ne found,
        refl,
        refl,
        refl,
        λ at m. ground arith,
      )
    where
      row : Obligation
      row = record {
        obligation_id = id_of_message;
        chat_id = chat_id;
        content = content;
        message_ref = [];
        state = pending;
        attempts = 0;
        last_error = none;
        owner_pid = pid;
        owner_started = now;
        created_at = now;
        updated_at = now;
      }

      found :
          find_row id_of_message (create_obligation digest pid now chat_id content [] t).1
          ≡ some row
      found =
          rw
            (
              absent-any_of id_of_message t e,
              create_obligation,
              find_row-append id_of_message t row,
              e,
            )
            (ground (arith, str_eq_iff id_of_message id_of_message))

  -- A text that was delivered to a chat before is not protected when it is sent there again: if
  -- that send fails, its row still says `delivered` and the message is due at no time.
  pub repeat_lost :
      (reply : SendReply) (t : Table) (o : Obligation)
      → Fails reply
      → is_given chat_id ≡ true
      → is_given content ≡ true
      → id_of_message ≢ ""
      → find_row id_of_message t ≡ some o
      → o.state ≡ delivered
      → ((telegram_send digest pid now later chat_id response reply t).0 ≡ false)
        × (find_row id_of_message (telegram_send digest pid now later chat_id response reply t).1
            ≡ some o)
        × ((at : ℕ) → is_due at o ≡ false)
  unfolding create_obligation is_due
  repeat_lost reply t o f g h ne e s =
      let (error, k) = sent_table reply t f g h in
      (
        ap (λ x. x.0) k,
        ap (λ x. find_row id_of_message x.1) k
            ∙ (mark_failed-row later id_of_message error _ o ne found ∙ rw s refl),
        λ at. ground arith,
      )
    where
      found :
          find_row id_of_message (create_obligation digest pid now chat_id content [] t).1 ≡ some o
      found = rw (present-any_of id_of_message t o e, create_obligation) e

-- The statistics account for every row exactly once.
pub stats-total : (t : Table) → (stats t).total ≡ length t
unfolding stats
stats-total [] = refl
stats-total (o ∷ t) = ground (arith, stats-total t)

-- Two messages of one chat whose reference and text fall apart at different bars share their
-- identifier, whatever the hash: the second to be filed is ignored.
pub obligation_ids_collide :
    (digest : List ℕ → String) (chat_id message_ref middle content : List ℕ)
    → obligation_id digest chat_id (middle ++ (b'|' ∷ content)) message_ref
      ≡ obligation_id digest chat_id content (message_ref ++ (b'|' ∷ middle))
unfolding obligation_id
obligation_ids_collide digest chat_id r s u =
    ap (λ x. digest (chat_id ++ (b'|' ∷ x))) (sym (append_assoc r (b'|' ∷ s) (b'|' ∷ u)))

abbrev pub HasNoBar : List ℕ → Type 0
HasNoBar = All (λ c. c ≢ b'|')

before_bar :
    (xs ys us vs : List ℕ)
    → HasNoBar xs
    → HasNoBar ys
    → xs ++ (b'|' ∷ us) ≡ ys ++ (b'|' ∷ vs)
    → (xs ≡ ys) × (us ≡ vs)
before_bar [] [] us vs h k e = (refl, cc)
before_bar [] (y ∷ ys) us vs h k e = absurd (k.0 (cc))
before_bar (x ∷ xs) [] us vs h k e = absurd (h.0 (cc))
before_bar (x ∷ xs) (y ∷ ys) us vs h k e =
    let (p, q) = before_bar xs ys us vs h.1 k.1 (cc) in (cc, q)

-- Without bars in chat identifiers and references, the hashed text determines the message.
pub raw_key-injective :
    (chat_id chat_id' content content' ref ref' : List ℕ)
    → HasNoBar chat_id
    → HasNoBar chat_id'
    → HasNoBar ref
    → HasNoBar ref'
    → raw_key chat_id content ref ≡ raw_key chat_id' content' ref'
    → (chat_id ≡ chat_id') × (ref ≡ ref') × (content ≡ content')
unfolding raw_key
raw_key-injective a a' c c' r r' ha ha' hr hr' e =
    let (p, q) = before_bar a a' _ _ ha ha' e in
    let (s, t) = before_bar r r' c c' hr hr' q in (p, s, t)
