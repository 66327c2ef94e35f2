-- ===== src/Sessions/Unanswered.antt =====
-- A call whose answer is not in the loaded window.
use mathlib.Core.List.{append_assoc}
use existential_identity_tes.Base.{
  ◌≡◌, refl, sym, ap, ◌∙◌, ℕ, String, Bool, true, false, not, ◌&&◌, ◌||◌, List, [], ◌∷◌, ◌++◌, map,
  Option, none, some, select, any_of, arith, Bool-cases, inl, inr,
}
use existential_identity_tes.Base.Text.{str_eq, str_eq_iff, elem}
use existential_identity_tes.Sessions.{
  Stored, LoadedMessage, SessionManager, given_id, as_list, loaded_tool_ids, placeholder, load_row,
  load_rows, session_rows, load_session,
}

elem-append : (s : String) (xs ys : List String) → elem s (xs ++ ys) ≡ (elem s xs || elem s ys)
unfolding elem
elem-append s [] ys = refl
elem-append s (x ∷ xs) ys = ground (arith, elem-append s xs ys)

any_of-append {ℓ} :
    {A : Type ℓ} (p : A → Bool) (xs ys : List A)
    → any_of p (xs ++ ys) ≡ (any_of p xs || any_of p ys)
any_of-append p [] ys = refl
any_of-append p (x ∷ xs) ys = ground (arith, any_of-append p xs ys)

abbrev pub is_id : String → Option String → Bool
is_id id none = false
is_id id (some s) = str_eq s id

not_given :
    (id : String) (o : Option String) → elem id (as_list o ++ []) ≡ false → is_id id o ≡ false
unfolding elem
not_given id none h = refl
not_given id (some s) h = ground (arith, h)

module _ {Call : Type 0} (call_id : Call → String) where
  -- Whether a message is the answer to the call of an identifier.
  abbrev pub is_answer : String → LoadedMessage Call → Bool
  is_answer id msg = str_eq msg.role "tool" && is_id id msg.tool_call_id

  abbrev pub has_call : String → Stored Call → Bool
  has_call id row = any_of (λ tc. str_eq (call_id tc) id) row.tool_calls

  loaded_tool_ids-append :
      (xs ys : List (Stored Call)) (id : String)
      → elem id (loaded_tool_ids call_id (xs ++ ys))
        ≡ (elem id (loaded_tool_ids call_id xs) || elem id (loaded_tool_ids call_id ys))
  unfolding loaded_tool_ids elem
  loaded_tool_ids-append [] ys id = refl
  loaded_tool_ids-append (x ∷ xs) ys id =
      let own = as_list (given_id x.tool_call_id) in
      elim (Bool-cases (str_eq x.role "tool")) [
        | inl e ↦ rw e (
            ground (
              arith,
              elem-append id own (loaded_tool_ids call_id (xs ++ ys)),
              elem-append id own (loaded_tool_ids call_id xs),
              loaded_tool_ids-append xs ys id,
            ))
        | inr e ↦ rw e (loaded_tool_ids-append xs ys id)
      ]

  load_rows-append :
      (ids : List String) (xs ys : List (Stored Call))
      → load_rows call_id ids (xs ++ ys) ≡ load_rows call_id ids xs ++ load_rows call_id ids ys
  unfolding load_rows
  load_rows-append ids [] ys = refl
  load_rows-append ids (x ∷ xs) ys =
      ap (λ z. load_row call_id ids x ++ z) (load_rows-append ids xs ys)
      ∙ sym (
          append_assoc (load_row call_id ids x) (load_rows call_id ids xs)
            (load_rows call_id ids ys))

  placeholders-other :
      (p : Call → Bool) (id : String) (tcs : List Call)
      → any_of (λ tc. str_eq (call_id tc) id) tcs ≡ false
      → any_of (is_answer id) (map (placeholder call_id) (select p tcs)) ≡ false
  unfolding placeholder
  placeholders-other p id [] h = refl
  placeholders-other p id (tc ∷ tcs) h = ground (arith, h, placeholders-other p id tcs)

  -- No row after it answers a call that no tool row of the window does.
  load_row-other :
      (ids : List String) (id : String) (row : Stored Call)
      → elem id (loaded_tool_ids call_id (row ∷ [])) ≡ false
      → has_call id row ≡ false
      → any_of (is_answer id) (load_row call_id ids row) ≡ false
  unfolding load_row loaded_tool_ids elem
  load_row-other ids id row h c = elim (Bool-cases (str_eq row.role "tool")) [
    | inl e ↦
        rw (e, load_row) (ground (arith, not_given id (given_id row.tool_call_id) (only_id e)))
    | inr e ↦
        rw (e, load_row)
          (elim (Bool-cases (str_eq row.role "assistant")) [
            | inl f ↦ rw f (
                ground (
                  arith,
                  any_of-append (is_answer id)
                      (map (placeholder call_id)
                        (select (λ tc. not (elem (call_id tc) ids)) row.tool_calls))
                      (message row),
                  placeholders-other (λ tc. not (elem (call_id tc) ids)) id row.tool_calls c,
                ))
            | inr f ↦ rw f (elim (Bool-cases (str_eq row.role "user")) [
              | inl g ↦ rw g refl
              | inr g ↦ rw g refl
            ])
          ])
  ]
    where
      message : Stored Call → List (LoadedMessage Call)
      message r =
          record {
            role = "assistant";
            content = r.content;
            tool_calls = r.tool_calls;
            tool_call_id = none;
          }
          ∷ []

      only_id :
          str_eq row.role "tool" ≡ true
          → elem id (as_list (given_id row.tool_call_id) ++ []) ≡ false
      only_id e = ground (arith, h, e)

  load_rows-other :
      (ids : List String) (id : String) (rows : List (Stored Call))
      → elem id (loaded_tool_ids call_id rows) ≡ false
      → any_of (has_call id) rows ≡ false
      → any_of (is_answer id) (load_rows call_id ids rows) ≡ false
  unfolding load_rows
  load_rows-other ids id [] h c = refl
  load_rows-other ids id (row ∷ rows) h c =
      any_of-append (is_answer id) (load_row call_id ids row) (load_rows call_id ids rows)
      ∙ ground (
        arith,
        h,
        c,
        loaded_tool_ids-append (row ∷ []) rows id,
        load_row-other ids id row,
        load_rows-other ids id rows,
      )

  -- The message that a row of the assistant becomes.
  abbrev pub assistant_message : Stored Call → LoadedMessage Call
  assistant_message row = record {
    role = "assistant";
    content = row.content;
    tool_calls = row.tool_calls;
    tool_call_id = none;
  }

  placeholders_self :
      (ids : List String) (id : String) (tcs : List Call)
      → elem id ids ≡ false
      → any_of (λ tc. str_eq (call_id tc) id) tcs ≡ true
      → any_of
          (is_answer id)
          (map (placeholder call_id) (select (λ tc. not (elem (call_id tc) ids)) tcs))
        ≡ true
  unfolding placeholder
  placeholders_self ids id [] n h = cc
  placeholders_self ids id (tc ∷ tcs) n h = elim (Bool-cases (str_eq (call_id tc) id)) [
    | inl e ↦
        rw (ap (λ s. not (elem s ids)) ((str_eq_iff (call_id tc) id).0 e), n) (ground (arith, e))
    | inr e ↦ ground (arith, placeholders_self ids id tcs n, h, e)
  ]

  made_up : List String → Stored Call → List (LoadedMessage Call)
  made_up ids row =
      map (placeholder call_id) (select (λ tc. not (elem (call_id tc) ids)) row.tool_calls)

  load_row-assistant :
      (ids : List String) (row : Stored Call)
      → str_eq row.role "assistant" ≡ true
      → load_row call_id ids row ≡ made_up ids row ++ assistant_message row ∷ []
  unfolding load_row made_up
  load_row-assistant ids row r = rw ((str_eq_iff row.role "assistant").0 r, load_row) refl

  load_rows-split :
      (ids : List String) (before after : List (Stored Call)) (row : Stored Call)
      → str_eq row.role "assistant" ≡ true
      → load_rows call_id ids (before ++ (row ∷ after))
        ≡ (load_rows call_id ids before ++ made_up ids row)
          ++ (assistant_message row ∷ load_rows call_id ids after)
  unfolding load_rows
  load_rows-split ids before after row r =
      let rest = load_rows call_id ids after in
      let first = load_rows call_id ids before in
      load_rows-append ids before (row ∷ after)
      ∙ ap (λ z. first ++ (z ++ rest)) (load_row-assistant ids row r)
      ∙ ap (λ z. first ++ z) (append_assoc (made_up ids row) (assistant_message row ∷ []) rest)
      ∙ sym (append_assoc first (made_up ids row) (assistant_message row ∷ rest))

  -- Where a row of the assistant is in the window, one of its calls has no answer there, and no later
  -- row has a call of that identifier: load_session makes up an answer, but it stands before the
  -- message of the call, and after that message no tool message answers the call.
  pub load_session-unanswered :
      (session_id : String) (n : ℕ) (m : SessionManager Call) (before after : List (Stored Call))
      (row : Stored Call) (id : String)
      → session_rows session_id n m ≡ before ++ (row ∷ after)
      → str_eq row.role "assistant" ≡ true
      → has_call id row ≡ true
      → elem id (loaded_tool_ids call_id (before ++ (row ∷ after))) ≡ false
      → any_of (has_call id) after ≡ false
      → (earlier : List (LoadedMessage Call)) × (later : List (LoadedMessage Call)) × (load_session
            call_id session_id n m
          ≡ earlier ++ (assistant_message row ∷ later))
        × (any_of (is_answer id) earlier ≡ true)
        × (any_of (is_answer id) later ≡ false)
  unfolding load_session made_up
  load_session-unanswered session_id n m before after row id w r k h c = (
    load_rows call_id ids before ++ made_up ids row,
    load_rows call_id ids after,
    ap (λ rows. load_rows call_id (loaded_tool_ids call_id rows) rows) w
        ∙ load_rows-split ids before after row r,
    any_of-append (is_answer id) (load_rows call_id ids before) (made_up ids row)
        ∙ ground (arith, placeholders_self ids id row.tool_calls h k),
    load_rows-other ids id after
        (ground (
          arith,
          h,
          loaded_tool_ids-append before (row ∷ after) id,
          loaded_tool_ids-append (row ∷ []) after id,
        ))
        c,
  )
    where
      ids : List String
      ids = loaded_tool_ids call_id (before ++ (row ∷ after))
