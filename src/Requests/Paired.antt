-- ===== src/Requests/Paired.antt =====
-- After the passes every tool message answers a call of the latest assistant.
use existential_identity_tes.Base.{
  ◌≡◌, ◌↔◌, refl, if◌then◌else◌, String, Bool, true, false, not, ◌&&◌, ◌||◌, List, [], ◌∷◌, map,
  Option, none, some, any_of, arith, Bool-cases, inl, inr,
}
use existential_identity_tes.Base.Text.{str_eq, str_eq_iff, elem}
use existential_identity_tes.Requests.{
  Role, assistant, tool, user, system, missing, other, Message, ToolCall, Library, is_assistant,
  is_tool, is_turn, same_id, or_else, call_ids, next_active, is_orphan, strip_tools, final_type,
  type_pass, clean_messages, named, orphan_pass, formatted,
}

pub same_id_iff : (a b : Option String) → (same_id a b ≡ true) ↔ (a ≡ b)
unfolding same_id
same_id_iff none none = (λ _. refl, λ _. refl)
same_id_iff none (some t) = ground arith
same_id_iff (some s) none = ground arith
same_id_iff (some s) (some t) = ground (arith, str_eq_iff s t)

call_ids-step :
    (s : String) (o : Option String) (rest : List String) (b : Bool)
    → (elem s rest ≡ true → b ≡ true)
    → elem s (if str_eq (or_else o "") "" then rest else or_else o "" ∷ rest) ≡ true
    → (same_id (some s) o || b) ≡ true
unfolding elem same_id
call_ids-step s none rest b k h = ground (arith, k, (str_eq_iff "" "").1 refl)
call_ids-step s (some t) rest b k h = ground (arith, k, str_eq_iff t s, str_eq_iff s t)

call_ids-back :
    (s : String) (o : Option String) (rest : List String) (b : Bool)
    → str_eq s "" ≡ false
    → (b ≡ true → elem s rest ≡ true)
    → (same_id (some s) o || b) ≡ true
    → elem s (if str_eq (or_else o "") "" then rest else or_else o "" ∷ rest) ≡ true
unfolding elem same_id
call_ids-back s none rest b n k h = ground (arith, k, (str_eq_iff "" "").1 refl)
call_ids-back s (some t) rest b n k h = ground (arith, k, str_eq_iff t s, str_eq_iff s t)

pub tool-plain : (r : Role) → is_tool r ≡ true → (is_assistant r ≡ false) × (is_turn r ≡ false)
tool-plain tool h = (refl, refl)
tool-plain assistant h = ground arith
tool-plain user h = ground arith
tool-plain system h = ground arith
tool-plain missing h = ground arith
tool-plain (other name) h = ground arith

module _ {Json : Type 0} where
  -- Whether a message before, newest first, calls the tool: the latest assistant, if no user or
  -- system message came after it.
  unfoldable pub answers : Option String → List (Message Json) → Bool
  answers id [] = false
  answers id (m ∷ before) =
      let earlier = answers id before in
      if is_assistant m.role
      then any_of (λ tc. same_id id tc.id) m.tool_calls
      else not (is_turn m.role) && earlier

  -- Each tool message, in the order of the list, has a name and answers a call before it.
  unfoldable pub well_paired : List (Message Json) → List (Message Json) → Bool
  unfolding answers
  well_paired before [] = true
  well_paired before (m ∷ ms) =
      (not (is_tool m.role)
        || (not (str_eq (or_else m.tool_call_id "") "") && answers m.tool_call_id before))
      && well_paired (m ∷ before) ms

  call_ids_sound :
      (s : String) (tcs : List (ToolCall Json))
      → elem s (call_ids tcs) ≡ true
      → any_of (λ tc. same_id (some s) tc.id) tcs ≡ true
  unfolding call_ids elem
  call_ids_sound s [] h = h
  call_ids_sound s (tc ∷ tcs) h = call_ids-step s tc.id (call_ids tcs) _ (call_ids_sound s tcs) h

  next_active_sound :
      (active : List String) (before : List (Message Json)) (m : Message Json)
      → ((s : String) → elem s active ≡ true → answers (some s) before ≡ true)
      → (s : String) → elem s (next_active active m) ≡ true
      → answers (some s) (m ∷ before) ≡ true
  unfolding next_active answers elem
  next_active_sound active before m h s k = ground (arith, call_ids_sound s m.tool_calls, h s)

  pub next_active-tool :
      (active : List String) (m : Message Json)
      → is_tool m.role ≡ true
      → next_active active m ≡ active
  unfolding next_active
  next_active-tool active m e = rw ((tool-plain m.role e).0, (tool-plain m.role e).1) refl

  tool-answers :
      (active : List String) (before : List (Message Json)) (o : Option String)
      → ((s : String) → elem s active ≡ true → answers (some s) before ≡ true)
      → is_orphan active o ≡ false
      → (not (str_eq (or_else o "") "") && answers o before) ≡ true
  unfolding is_orphan
  tool-answers active before none h k = ground (arith, (str_eq_iff "" "").1 refl)
  tool-answers active before (some s) h k = ground (arith, h s)

  strip_tools-paired :
      (active : List String) (before ms : List (Message Json))
      → ((s : String) → elem s active ≡ true → answers (some s) before ≡ true)
      → well_paired before (strip_tools active ms) ≡ true
  unfolding strip_tools well_paired
  strip_tools-paired active before [] h = refl
  strip_tools-paired active before (m ∷ ms) h =
      elim (Bool-cases (is_tool m.role && is_orphan active m.tool_call_id)) [
        | inl e ↦
            rw (e, next_active-tool active m (ground (arith, e)))
              (strip_tools-paired active before ms h)
        | inr e ↦
            rw
              (
                e,
                strip_tools-paired (next_active active m) (m ∷ before) ms
                    (next_active_sound active before m h),
              )
              (kept m e)
      ]
    where
      kept :
          (m : Message Json)
          → (is_tool m.role && is_orphan active m.tool_call_id) ≡ false
          → ((not (is_tool m.role)
                || (not (str_eq (or_else m.tool_call_id "") "") && answers m.tool_call_id before))
              && true)
            ≡ true
      kept m e = ground (arith, tool-answers active before m.tool_call_id h)

  answers-final_type :
      (id : Option String) (before : List (Message Json))
      → answers id (map final_type before) ≡ answers id before
  unfolding answers final_type
  answers-final_type id [] = refl
  answers-final_type id (m ∷ before) = rw (answers-final_type id before) refl

  well_paired-final_type :
      (before ms : List (Message Json))
      → well_paired (map final_type before) (map final_type ms) ≡ well_paired before ms
  unfolding well_paired final_type
  well_paired-final_type before [] = refl
  well_paired-final_type before (m ∷ ms) =
      rw (answers-final_type m.tool_call_id before, ← well_paired-final_type (m ∷ before) ms) refl

  pub call_ids_complete :
      (s : String) (tcs : List (ToolCall Json))
      → str_eq s "" ≡ false
      → any_of (λ tc. same_id (some s) tc.id) tcs ≡ true
      → elem s (call_ids tcs) ≡ true
  unfolding call_ids elem
  call_ids_complete s [] n h = h
  call_ids_complete s (tc ∷ tcs) n h =
      call_ids-back s tc.id (call_ids tcs) _ n (call_ids_complete s tcs n) h

  next_active_complete :
      (active : List String) (before : List (Message Json)) (m : Message Json)
      → ((s : String) → str_eq s "" ≡ false → answers (some s) before ≡ true → elem s active ≡ true)
      → (s : String) → str_eq s "" ≡ false
      → answers (some s) (m ∷ before) ≡ true
      → elem s (next_active active m) ≡ true
  unfolding next_active answers elem
  next_active_complete active before m h s n k =
      ground (arith, call_ids_complete s m.tool_calls n, h s n)

  orphan-answers :
      (active : List String) (before : List (Message Json)) (o : Option String)
      → ((s : String) → str_eq s "" ≡ false → answers (some s) before ≡ true → elem s active ≡ true)
      → (not (str_eq (or_else o "") "") && answers o before) ≡ true
      → is_orphan active o ≡ false
  unfolding is_orphan
  orphan-answers active before none h k = ground (arith, (str_eq_iff "" "").1 refl)
  orphan-answers active before (some s) h k = ground (arith, h s)

  unchanged :
      (active : List String) (before ms : List (Message Json))
      → ((s : String) → str_eq s "" ≡ false → answers (some s) before ≡ true → elem s active ≡ true)
      → well_paired before ms ≡ true
      → strip_tools active ms ≡ ms
  unfolding strip_tools well_paired
  unchanged active before [] h k = refl
  unchanged active before (m ∷ ms) h k =
      rw
        (
          stays,
          unchanged (next_active active m) (m ∷ before) ms (next_active_complete active before m h)
              (ground (arith, k)),
        )
        refl
    where
      stays : (is_tool m.role && is_orphan active m.tool_call_id) ≡ false
      stays = ground (arith, k, orphan-answers active before m.tool_call_id h)

  -- Messages in which every tool message answers a call are not changed by the pass that strips
  -- the others.
  pub strip_tools-fixed :
      (ms : List (Message Json)) → well_paired [] ms ≡ true → strip_tools [] ms ≡ ms
  unfolding answers elem
  strip_tools-fixed ms h = unchanged [] [] ms no_caller h
    where
      no_caller : (s : String) → str_eq s "" ≡ false → answers (some s) [] ≡ true → elem s [] ≡ true
      no_caller s n k = k

module _ {Json : Type 0} (py : Library Json) where
  -- Whatever the provider and the messages, in the messages of the request every tool message has
  -- an identifier that is not empty and stands among the calls of the latest assistant message before
  -- it, with no user or system message in between.
  pub clean_messages-well_paired :
      (name endpoint model : String) (messages : List (Message Json))
      → well_paired [] (clean_messages py name endpoint model messages) ≡ true
  unfolding clean_messages type_pass orphan_pass elem answers
  clean_messages-well_paired name endpoint model messages =
      elim (Bool-cases (named "deepseek" name endpoint)) [
        | inl e ↦
            rw
              (
                e,
                well_paired-final_type []
                    (strip_tools [] (orphan_pass true (formatted py name endpoint model messages))),
              )
              (strip_tools-paired [] []
                (orphan_pass true (formatted py name endpoint model messages)) none_active)
        | inr e ↦ rw e (
            strip_tools-paired [] [] (orphan_pass false (formatted py name endpoint model messages))
              none_active)
      ]
    where
      none_active : (s : String) → elem s [] ≡ true → answers {Json = Json} (some s) [] ≡ true
      none_active s h = h
