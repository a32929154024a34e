-- ===== src/Services/CsWait.antt =====
-- backend/internal/services/cs_wait.go and models/cs_wait.go: how long a customer waits for an answer.
-- The tables are lists of rows, with what a step reads of the threads and the messages as arguments;
-- times are nanoseconds since the epoch, and identifiers are numbers. A step answers `none` where the
-- Go function answers with an error, and then its savepoint is rolled back.
pub mod Rows
pub mod Steps
mod Tests
use tikman.Prelude.{
  ℕ, ◌+◌, ◌-◌, ◌*◌, Bool, true, false, ◌&&◌, Option, none, some, List, [], ◌∷◌, ◌++◌, ltb, leb,
  nat_beq, if◌then◌else◌, nat_eq,
}
use tikman.Prelude.Assoc.{Assoc, lookup}
use tikman.Prelude.Sort.{sort_by}

pub data WaitEndReason : Type 0 where
  replied_in_app : WaitEndReason
  phone : WaitEndReason
  closed : WaitEndReason
  abandoned : WaitEndReason

pub record Wait : Type 0 where
  pub conversation_id : ℕ
  pub wa_account_id : ℕ
  pub started_at : ℕ
  pub customer_sent_at : ℕ
  pub last_customer_sent_at : ℕ
  pub ended_at : Option ℕ
  pub end_reason : Option WaitEndReason
  pub ended_by : Option ℕ
  pub reply_message_id : Option ℕ

pub data Direction : Type 0 where
  message_in : Direction
  message_out : Direction

-- The columns of a message that the waits read.
pub record Message : Type 0 where
  pub id : ℕ
  pub conversation_id : ℕ
  pub direction : Direction
  pub sender_user_id : Option ℕ
  pub wa_timestamp : ℕ
  pub created_at : ℕ

-- The threads with their accounts, and the messages.
pub record Inbox : Type 0 where
  pub accounts : Assoc ℕ ℕ
  pub messages : List Message

abbrev pub customer_silence : ℕ
customer_silence = 86400000000000

-- `Where("conversation_id = ? AND ended_at IS NULL")`.
abbrev pub is_ended : Wait → Bool
is_ended w = elim w.ended_at [ none ↦ false | some at ↦ true ]

abbrev pub is_open : ℕ → Wait → Bool
is_open conversation w =
    nat_beq w.conversation_id conversation && (if is_ended w then false else true)

-- `Updates` of the rows that pass a test.
unfoldable pub update_where : (Wait → Bool) → (Wait → Wait) → List Wait → List Wait
update_where test f [] = []
update_where test f (w ∷ ws) = (if test w then f w else w) ∷ update_where test f ws

-- `RowsAffected > 0` of such an update, and the first row of such a query.
unfoldable pub find_where : (Wait → Bool) → List Wait → Option Wait
find_where test [] = none
find_where test (w ∷ ws) = if test w then some w else find_where test ws

abbrev pub is_extended : Message → Wait → Bool
is_extended msg w =
    is_open msg.conversation_id w
    && leb (msg.wa_timestamp - customer_silence) w.last_customer_sent_at

abbrev pub extend : Message → Wait → Wait
extend msg w = record w {
  last_customer_sent_at =
      if ltb w.last_customer_sent_at msg.wa_timestamp
      then msg.wa_timestamp
      else w.last_customer_sent_at;
}

unfoldable pub extend_open_wait : Message → List Wait → Bool × List Wait
extend_open_wait msg ws = elim (find_where (is_extended msg) ws) [
  | none ↦ (false, ws)
  | some w ↦ (true, update_where (is_extended msg) (extend msg) ws)
]

abbrev pub end_wait : WaitEndReason → ℕ → Option ℕ → Option ℕ → Wait → Wait
end_wait reason at by reply w = record w {
  ended_at = some at;
  end_reason = some reason;
  ended_by = by;
  reply_message_id = reply;
}

unfoldable pub end_open_wait :
    ℕ → WaitEndReason → ℕ → Option ℕ → Option ℕ → List Wait → Bool × List Wait
end_open_wait conversation reason at by reply ws = elim (find_where (is_open conversation) ws) [
  | none ↦ (false, ws)
  | some w ↦ (true, update_where (is_open conversation) (end_wait reason at by reply) ws)
]

abbrev pub new_wait : ℕ → ℕ → ℕ → ℕ → ℕ → Wait
new_wait conversation account started sent last = record {
  conversation_id = conversation;
  wa_account_id = account;
  started_at = started;
  customer_sent_at = sent;
  last_customer_sent_at = last;
  ended_at = none;
  end_reason = none;
  ended_by = none;
  reply_message_id = none;
}

unfoldable pub open_wait : Inbox → ℕ → ℕ → ℕ → ℕ → List Wait → Option (List Wait)
open_wait inbox conversation started sent last ws = elim (lookup conversation inbox.accounts) [
  | none ↦ none
  | some account ↦ some (ws ++ (new_wait conversation account started sent last ∷ []))
]

unfoldable pub customer_wrote : Inbox → Message → List Wait → Option (List Wait)
customer_wrote inbox msg ws =
    let (extended, kept) = extend_open_wait msg ws in
    if extended
    then some kept
    else open_wait inbox msg.conversation_id msg.created_at msg.wa_timestamp msg.wa_timestamp
        (end_open_wait msg.conversation_id abandoned msg.created_at none none kept).1

unfoldable pub replied : Message → List Wait → Option (List Wait)
replied msg ws =
    some
      (end_open_wait msg.conversation_id replied_in_app msg.wa_timestamp msg.sender_user_id
        (some msg.id) ws).1

-- The customer's messages that were sent after a moment, in the order they were sent in.
abbrev pub is_later : ℕ → ℕ → Message → Bool
is_later conversation after m =
    nat_beq m.conversation_id conversation
    && elim m.direction [ message_in ↦ ltb after m.wa_timestamp | message_out ↦ false ]

unfoldable pub later_messages : ℕ → ℕ → List Message → List Message
later_messages conversation after [] = []
later_messages conversation after (m ∷ ms) =
    let rest = later_messages conversation after ms in
    if is_later conversation after m then m ∷ rest else rest

abbrev pub sent_before : Message → Message → Bool
sent_before m n = ltb m.wa_timestamp n.wa_timestamp

unfoldable pub last_of : Message → List Message → Message
last_of m [] = m
last_of m (n ∷ ns) = last_of n ns

unfoldable pub reopen_from : Inbox → ℕ → List Message → List Wait → Option (List Wait)
reopen_from inbox conversation [] ws = some ws
reopen_from inbox conversation (first ∷ rest) ws =
    open_wait inbox conversation first.created_at first.wa_timestamp
      (last_of first rest).wa_timestamp ws

unfoldable pub reopen_after : Inbox → ℕ → ℕ → List Wait → Option (List Wait)
reopen_after inbox conversation after ws =
    reopen_from inbox conversation
      (sort_by sent_before (later_messages conversation after inbox.messages)) ws

unfoldable pub answer_open : Inbox → Message → Wait → List Wait → Option (List Wait)
answer_open inbox msg w ws =
    if ltb msg.wa_timestamp w.customer_sent_at
    then some ws
    else let ended_at =
        if ltb msg.wa_timestamp w.started_at then w.started_at else msg.wa_timestamp in
      let (ended, left) = end_open_wait msg.conversation_id phone ended_at none (some msg.id) ws in
      if ended then reopen_after inbox msg.conversation_id msg.wa_timestamp left else some left

unfoldable pub answered_from_phone : Inbox → Message → List Wait → Option (List Wait)
answered_from_phone inbox msg ws = elim (find_where (is_open msg.conversation_id) ws) [
  | none ↦ some ws
  | some w ↦ answer_open inbox msg w ws
]

unfoldable pub closed_without_reply : ℕ → ℕ → ℕ → List Wait → Option (List Wait)
closed_without_reply conversation closed_by at ws =
    some (end_open_wait conversation closed at (some closed_by) none ws).1

-- `record`: a step that fails leaves the table as it was.
unfoldable pub recorded : List Wait → Option (List Wait) → List Wait
recorded ws none = ws
recorded ws (some kept) = kept
