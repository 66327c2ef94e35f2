-- ===== src/Ledger/Samples.antt =====
-- A ledger with one message: runs, and the laws at them.
use existential_identity_tes.Base.{
  ℕ, ◌+◌, ◌<◌, ◌≡◌, refl, ◌≢◌, String, true, false, List, [], ◌∷◌, none, some, arith, All, length,
  ◌==◌, if◌then◌else◌,
}
use existential_identity_tes.Base.Text.{codes, str_eq_iff}
use existential_identity_tes.Ledger.{
  Status, pending, failed, delivered, Obligation, Table, is_due, max_age, find_row, obligation_id,
  load_pending, deliver, fail, apply, history, telegram_send, sent_text, broke,
}
use existential_identity_tes.Ledger.Lifecycle.{After, apply-After}
use existential_identity_tes.Ledger.Delivery.{delivered_never_due}
use existential_identity_tes.Ledger.Sending.{first_send_kept, repeat_lost}

-- A hash that tells texts of nine code points from others.
abbrev hash : List ℕ → String
hash text = if length text == 9 then "9f" else "e0"

abbrev row : Status → Obligation
row s = record {
  obligation_id = "e0";
  chat_id = codes "42";
  content = codes "hello";
  message_ref = [];
  state = s;
  attempts = 1;
  last_error = none;
  owner_pid = 7;
  owner_started = 100;
  created_at = 100;
  updated_at = 100;
}

abbrev table : Status → Table
table s = row s ∷ []

hello_id : obligation_id hash (codes "42") (codes "hello") [] ≡ "9f"
unfolding obligation_id
hello_id = refl

apply-After_example :
    After
      (fail 200 "e0" (codes "x"))
      (row pending)
      (find_row "e0" (apply hash (fail 200 "e0" (codes "x")) (table pending)))
unfolding find_row
apply-After_example =
    apply-After hash (fail 200 "e0" (codes "x")) (table pending) "e0" (row pending) (tt, tt) refl

e0-ne-empty : ◌≢◌ {A = String} "e0" ""
e0-ne-empty = ground (arith, str_eq_iff "e0" "")

delivered_never_due_example :
    All
      (λ x. x.obligation_id ≢ "e0")
      (load_pending 300
        (history hash (fail 250 "e0" [] ∷ []) (apply hash (deliver 200 "e0") (table failed))))
unfolding find_row
delivered_never_due_example =
    delivered_never_due hash (table failed) "e0" (row failed) 200 300 (fail 250 "e0" [] ∷ [])
      (tt, tt) e0-ne-empty refl refl (refl, tt)

first_send_kept_example :
    (o : Obligation) × ((telegram_send hash 1 100 200 (codes "42") (codes "hello") (broke []) []).0
      ≡ false)
    × (find_row
          (obligation_id hash (codes "42") (sent_text (codes "hello")) [])
          (telegram_send hash 1 100 200 (codes "42") (codes "hello") (broke []) []).1
        ≡ some o)
    × (o.chat_id ≡ codes "42")
    × (o.content ≡ sent_text (codes "hello"))
    × (o.attempts ≡ 1)
    × ((at : ℕ) → at < 100 + max_age → is_due at o ≡ true)
unfolding find_row obligation_id sent_text
first_send_kept_example =
    first_send_kept hash 1 100 200 (codes "42") (codes "hello") (broke []) [] tt refl refl
      (ground (arith, str_eq_iff "9f" "")) refl

abbrev sent_before : Obligation
sent_before = record (row delivered) { obligation_id = "9f" }

repeat_lost_example :
    ((telegram_send hash 1 300 400 (codes "42") (codes "hello") (broke []) (sent_before ∷ [])).0
      ≡ false)
    × (find_row
          (obligation_id hash (codes "42") (sent_text (codes "hello")) [])
          (telegram_send hash 1 300 400
            (codes "42")
            (codes "hello")
            (broke [])
            (sent_before ∷ [])).1
        ≡ some sent_before)
    × ((at : ℕ) → is_due at sent_before ≡ false)
unfolding find_row obligation_id sent_text
repeat_lost_example =
    repeat_lost hash 1 300 400 (codes "42") (codes "hello") (broke []) (sent_before ∷ [])
      sent_before tt refl refl (ground (arith, str_eq_iff "9f" "")) refl refl
