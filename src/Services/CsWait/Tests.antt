-- ===== src/Services/CsWait/Tests.antt =====
-- backend/internal/services/cs_wait.go: two messages, a late answer from the phone, and a close.
use tikman.Prelude.{◌≡◌, refl, arith, none, some, List, [], ◌∷◌, nat_eq}
use tikman.Prelude.Assoc.{lookup}
use tikman.Prelude.Sort.{sort_by, insert_by}
use tikman.Services.CsWait.{
  Wait, Message, Inbox, message_in, message_out, phone, new_wait, end_wait, extend_open_wait,
  find_where, update_where, open_wait, end_open_wait, customer_wrote, answered_from_phone,
  answer_open, reopen_after, reopen_from, later_messages, last_of, recorded,
}
use tikman.Services.CsWait.Rows.{IsTable, open_count}
use tikman.Services.CsWait.Steps.{
  Step, writes, replies, answers, closes, after_step, after_steps, after_steps-IsTable,
}

abbrev incoming : Message
incoming = record {
  id = 1;
  conversation_id = 7;
  direction = message_in;
  sender_user_id = none;
  wa_timestamp = 1000;
  created_at = 1010;
}

abbrev second_one : Message
second_one = record incoming { id = 2; wa_timestamp = 3000; created_at = 3010 }

abbrev phone_reply : Message
phone_reply = record incoming {
  id = 3;
  direction = message_out;
  wa_timestamp = 2000;
  created_at = 5000;
}

abbrev inbox : Inbox
inbox = record { accounts = (7, 70) ∷ []; messages = second_one ∷ phone_reply ∷ incoming ∷ [] }

abbrev extended : Wait
extended = new_wait 7 70 1010 1000 3000

-- The answer that comes late ends the wait, and the message that was sent after it starts the next.
answered_late :
    after_steps
      (writes inbox incoming ∷ writes inbox second_one ∷ answers inbox phone_reply ∷ [])
      []
    ≡ end_wait phone 2000 none (some 3) extended ∷ new_wait 7 70 3010 3000 3000 ∷ []
unfolding after_steps after_step recorded customer_wrote extend_open_wait find_where update_where
    open_wait end_open_wait answered_from_phone answer_open reopen_after reopen_from later_messages
    last_of sort_by insert_by lookup
answered_late = refl

abbrev reply : Message
reply = record phone_reply { id = 4; sender_user_id = some 8 }

abbrev steps : List Step
steps = writes inbox incoming ∷ answers inbox phone_reply ∷ replies reply ∷ closes 7 8 9000 ∷ []

after_steps-IsTable_example : IsTable (after_steps steps (extended ∷ []))
unfolding open_count
after_steps-IsTable_example =
    after_steps-IsTable steps (extended ∷ []) (tt, (tt, (refl, (tt, tt))))
      (record {
        rows = (record { ended_together = refl; actor = (refl, refl); sent = ground arith }, tt);
        one_open = λ c. ground arith;
      })
