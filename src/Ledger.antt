-- ===== src/Ledger.antt =====
-- tical_code/core/delivery_ledger.py: the write-ahead ledger of outbound messages. Its table is a
-- list of rows in the order of insertion; each function is one locked transaction on it. Texts
-- are code points, times milliseconds. SHA-256 is not this repository's code: `digest` stands for
-- the first 24 hexadecimal digits of a text's hash.
pub mod Keys
pub mod Lifecycle
pub mod Delivery
pub mod Sending
mod Samples
use existential_identity_tes.Base.{
  ℕ, ◌+◌, ltb, leb, if◌then◌else◌, String, Bool, true, false, not, ◌&&◌, ◌||◌, List, [], ◌∷◌, ◌++◌,
  map, Option, none, some, length, select, any_of, take,
}
use existential_identity_tes.Base.Text.{str_eq}
use existential_identity_tes.Base.Sort

pub data Status : Type 0 where
  pending failed delivered abandoned : Status

pub record Obligation : Type 0 where
  pub obligation_id : String
  pub chat_id : List ℕ
  pub content : List ℕ
  pub message_ref : List ℕ
  pub state : Status
  pub attempts : ℕ
  pub last_error : Option (List ℕ)
  pub owner_pid : ℕ
  pub owner_started : ℕ
  pub created_at : ℕ
  pub updated_at : ℕ

abbrev pub Table : Type 0
Table = List Obligation

abbrev pub max_retries : ℕ
max_retries = 3

abbrev pub max_age : ℕ
max_age = 86_400_000

abbrev pub is_pending : Status → Bool
is_pending pending = true
is_pending _ = false

abbrev pub is_failed : Status → Bool
is_failed failed = true
is_failed _ = false

abbrev pub is_delivered : Status → Bool
is_delivered delivered = true
is_delivered _ = false

abbrev pub is_abandoned : Status → Bool
is_abandoned abandoned = true
is_abandoned _ = false

-- `state IN ('pending', 'failed')`
abbrev pub is_open : Status → Bool
is_open s = is_pending s || is_failed s

abbrev pub has_id : String → Obligation → Bool
has_id oid o = str_eq o.obligation_id oid

-- `UPDATE … SET f WHERE p`, and the `rowcount` of it.
abbrev pub update : (Obligation → Bool) → (Obligation → Obligation) → Table → Table
update p f t = map (λ o. if p o then f o else o) t

abbrev pub matching : (Obligation → Bool) → Table → ℕ
matching p t = length (select p t)

-- What `_obligation_id` hashes.
unfoldable pub raw_key : List ℕ → List ℕ → List ℕ → List ℕ
raw_key chat_id content message_ref = chat_id ++ (b'|' ∷ (message_ref ++ (b'|' ∷ content)))

module _ (digest : List ℕ → String) where
  unfoldable pub obligation_id : List ℕ → List ℕ → List ℕ → String
  unfolding raw_key
  obligation_id chat_id content message_ref = digest (raw_key chat_id content message_ref)

  -- `INSERT OR IGNORE`
  unfoldable pub create_obligation : ℕ → ℕ → List ℕ → List ℕ → List ℕ → Table → String × Table
  create_obligation pid now chat_id content message_ref t =
      let oid = obligation_id chat_id content message_ref in
      let row : Obligation = record {
        obligation_id = oid;
        chat_id = chat_id;
        content = content;
        message_ref = message_ref;
        state = pending;
        attempts = 0;
        last_error = none;
        owner_pid = pid;
        owner_started = now;
        created_at = now;
        updated_at = now;
      } in
      (oid, if any_of (has_id oid) t then t else t ++ row ∷ [])

unfoldable pub deliver_row : ℕ → Obligation → Obligation
deliver_row now o = record o { state = delivered; updated_at = now; attempts = o.attempts + 1 }

unfoldable pub may_deliver : String → Obligation → Bool
may_deliver oid o = has_id oid o && not (is_abandoned o.state)

unfoldable pub mark_delivered : ℕ → String → Table → Bool × Table
unfolding deliver_row may_deliver
mark_delivered now oid t =
    if str_eq oid ""
    then (false, t)
    else (ltb 0 (matching (may_deliver oid) t), update (may_deliver oid) (deliver_row now) t)

-- `CASE` reads the attempts before they are raised.
unfoldable pub fail_row : ℕ → List ℕ → Obligation → Obligation
fail_row now error o = record o {
  state = if leb max_retries o.attempts then abandoned else failed;
  attempts = o.attempts + 1;
  last_error = some (take 200 error);
  updated_at = now;
}

unfoldable pub may_fail : String → Obligation → Bool
may_fail oid o = has_id oid o && not (is_delivered o.state || is_abandoned o.state)

unfoldable pub mark_failed : ℕ → String → List ℕ → Table → Bool × Table
unfolding fail_row may_fail
mark_failed now oid error t =
    if str_eq oid ""
    then (false, t)
    else (ltb 0 (matching (may_fail oid) t), update (may_fail oid) (fail_row now error) t)

-- `created_at > now - MAX_AGE` without a subtraction.
unfoldable pub is_due : ℕ → Obligation → Bool
is_due now o = is_open o.state && ltb o.attempts max_retries && ltb now (o.created_at + max_age)

unfoldable pub older : Obligation → Obligation → Bool
older a b = leb a.created_at b.created_at

unfoldable pub load_pending : ℕ → Table → Table
unfolding is_due older
load_pending now t = Sort.sort older (select (is_due now) t)

unfoldable pub is_expired : ℕ → Obligation → Bool
is_expired now o = is_open o.state && ltb (o.created_at + max_age) now

unfoldable pub abandon_row : ℕ → Obligation → Obligation
abandon_row later o = record o { state = abandoned; updated_at = later }

-- `now` gives the cutoff, `later` is the second reading of the clock.
unfoldable pub abandon_expired : ℕ → ℕ → Table → ℕ × Table
unfolding is_expired abandon_row
abandon_expired now later t =
    (matching (is_expired now) t, update (is_expired now) (abandon_row later) t)

unfoldable pub find_row : String → Table → Option Obligation
find_row oid [] = none
find_row oid (o ∷ t) = if has_id oid o then some o else find_row oid t

unfoldable pub get_obligation : String → Table → Option Obligation
unfolding find_row
get_obligation oid t = if str_eq oid "" then none else find_row oid t

unfoldable pub is_done : ℕ → Obligation → Bool
is_done now o = is_delivered o.state && ltb (o.updated_at + max_age) now

unfoldable pub vacuum : ℕ → Table → ℕ × Table
unfolding is_done
vacuum now t = (matching (is_done now) t, select (λ o. not (is_done now o)) t)

pub record Stats : Type 0 where
  pub total : ℕ
  pub count_pending : ℕ
  pub count_failed : ℕ
  pub count_delivered : ℕ
  pub count_abandoned : ℕ

unfoldable pub stats : Table → Stats
stats t =
    let count = λ (p : Status → Bool). matching (λ o. p o.state) t in
    record {
      total = count is_pending + count is_failed + count is_delivered + count is_abandoned;
      count_pending = count is_pending;
      count_failed = count is_failed;
      count_delivered = count is_delivered;
      count_abandoned = count is_abandoned;
    }

-- The calls that change the table, as the worker makes them.
pub data Op : Type 0 where
  create : ℕ → ℕ → List ℕ → List ℕ → List ℕ → Op
  deliver : ℕ → String → Op
  fail : ℕ → String → List ℕ → Op
  expire : ℕ → ℕ → Op
  clean : ℕ → Op

module _ (digest : List ℕ → String) where
  unfoldable pub apply : Op → Table → Table
  unfolding create_obligation mark_delivered mark_failed abandon_expired vacuum
  apply (create pid now chat_id content message_ref) t =
      (create_obligation digest pid now chat_id content message_ref t).1
  apply (deliver now oid) t = (mark_delivered now oid t).1
  apply (fail now oid error) t = (mark_failed now oid error t).1
  apply (expire now later) t = (abandon_expired now later t).1
  apply (clean now) t = (vacuum now t).1

  unfoldable pub history : List Op → Table → Table
  history [] t = t
  history (op ∷ ops) t = history ops (apply op t)

-- `content[:4000]`, the text that Telegram is sent.
unfoldable pub sent_text : List ℕ → List ℕ
sent_text content = take 4_000 content

-- What sending one message over Telegram brings.
pub data SendReply : Type 0 where
  accepted : SendReply
  refused broke : List ℕ → SendReply

abbrev pub is_given : List ℕ → Bool
is_given [] = false
is_given (_ ∷ _) = true

module _ (digest : List ℕ → String) where
  -- `mark_delivered` or `mark_failed`, as `TelegramChannel.send` calls them.
  unfoldable pub settle_send : ℕ → String → SendReply → Table → Bool × Table
  unfolding mark_delivered mark_failed
  settle_send later oid accepted t = (true, (mark_delivered later oid t).1)
  settle_send later oid (refused why) t = (false, (mark_failed later oid why t).1)
  settle_send later oid (broke why) t = (false, (mark_failed later oid (take 200 why) t).1)

  -- `TelegramChannel.send` of channel.py: the obligation is written before the request is made.
  unfoldable pub telegram_send : ℕ → ℕ → ℕ → List ℕ → List ℕ → SendReply → Table → Bool × Table
  unfolding settle_send create_obligation
  telegram_send pid now later chat_id response reply t =
      let content = sent_text response in
      let (oid, t') = create_obligation digest pid now chat_id content [] t in
      if is_given chat_id && is_given content
      then settle_send later oid reply t'
      else settle_send later "" reply t
