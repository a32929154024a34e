-- ===== src/Services/CsWait/Steps.antt =====
-- backend/internal/services/cs_wait.go: the steps of the waits, in any order.
use tikman.Prelude.{
  ℕ, ◌≤◌, ◌≡◌, refl, arith, true, Option, none, some, List, [], ◌∷◌, ◌++◌, ltb, nat_beq_iff,
  if◌then◌else◌, All, All-append, Bool-cases, Option-cases, inl, inr, is_some, nat_eq,
}
use tikman.Prelude.Assoc.{lookup}
use tikman.Prelude.Sort.{sort_by-IsOrdered, IsOrdered, IsOrder}
use tikman.Services.CsWait.{
  Wait, Message, Inbox, replied_in_app, phone, closed, abandoned, is_open, find_where, is_extended,
  extend, extend_open_wait, end_open_wait, new_wait, open_wait, customer_wrote, replied,
  later_messages, sent_before, last_of, reopen_from, reopen_after, answer_open, answered_from_phone,
  closed_without_reply, recorded,
}
use tikman.Services.CsWait.Rows.{
  IsWait, IsTable, open_count, open_count-append, update_where-All, update_where-open_count,
  end_open_wait-open_count, end_open_wait-IsTable,
}

-- A table, or a failed step.
abbrev IsResult : Option (List Wait) → Type 0
IsResult none = Unit
IsResult (some ws) = IsTable ws

recorded-IsTable :
    (ws : List Wait) (o : Option (List Wait)) → IsTable ws → IsResult o → IsTable (recorded ws o)
unfolding recorded
recorded-IsTable ws none h k = h
recorded-IsTable ws (some kept) h k = k

new_wait-open_count :
    (c d account started sent last : ℕ) (ws : List Wait)
    → open_count c ws ≡ 0
    → open_count d ws ≤ 1
    → open_count d (ws ++ (new_wait c account started sent last ∷ [])) ≤ 1
unfolding open_count
new_wait-open_count c d account started sent last ws zero_open one =
    ground
      (arith, nat_beq_iff c d, open_count-append d ws (new_wait c account started sent last ∷ []))

open_wait-IsResult :
    (inbox : Inbox) (c started sent last : ℕ) (ws : List Wait)
    → sent ≤ last
    → open_count c ws ≡ 0
    → IsTable ws
    → IsResult (open_wait inbox c started sent last ws)
unfolding open_wait
open_wait-IsResult inbox c started sent last ws le zero_open h =
    elim (Option-cases (lookup c inbox.accounts)) [
      | inl e ↦ rw (e, open_wait) tt
      | inr (account, e) ↦
          rw (e, open_wait)
            (record {
              rows =
                  All-append IsWait ws (new_wait c account started sent last ∷ []) h.rows
                    (record { ended_together = refl; actor = (refl, refl); sent = le }, tt);
              one_open = λ d.
                  new_wait-open_count c d account started sent last ws zero_open (h.one_open d);
            })
    ]

extend_open_wait-IsTable :
    (msg : Message) (ws : List Wait) → IsTable ws → IsTable (extend_open_wait msg ws).1
unfolding extend_open_wait
extend_open_wait-IsTable msg ws h = elim (Option-cases (find_where (is_extended msg) ws)) [
  | inl e ↦ rw (e, extend_open_wait) h
  | inr (w, e) ↦
      rw (e, extend_open_wait)
        (record {
          rows =
              update_where-All IsWait (is_extended msg) (extend msg) ws
                (λ v o r. record {
                  ended_together = r.ended_together;
                  actor = r.actor;
                  sent = ground (arith, r.sent);
                })
                h.rows;
          one_open = λ d. ground (
            arith,
            update_where-open_count d (is_extended msg) (extend msg) ws (λ v o. o),
            h.one_open d,
          );
        })
]

customer_wrote-IsResult :
    (inbox : Inbox) (msg : Message) (ws : List Wait)
    → IsTable ws
    → IsResult (customer_wrote inbox msg ws)
unfolding customer_wrote
customer_wrote-IsResult inbox msg ws h = elim (Bool-cases (extend_open_wait msg ws).0) [
  | inl e ↦ rw (e, customer_wrote) (extend_open_wait-IsTable msg ws h)
  | inr e ↦
      rw (e, customer_wrote)
        (open_wait-IsResult inbox msg.conversation_id msg.created_at msg.wa_timestamp
          msg.wa_timestamp _ (omega arith)
          (end_open_wait-open_count msg.conversation_id abandoned msg.created_at none none
            (extend_open_wait msg ws).1)
          (end_open_wait-IsTable msg.conversation_id abandoned msg.created_at none none _
            (refl, refl) (extend_open_wait-IsTable msg ws h)))
]

-- A message that is behind no other was not sent after the last.
last_of-le :
    (m : Message) (ms : List Message)
    → IsOrdered sent_before (m ∷ ms)
    → m.wa_timestamp ≤ (last_of m ms).wa_timestamp
unfolding last_of
last_of-le m [] h = omega arith
last_of-le m (n ∷ ns) ((le, les), hs) = ground (arith, last_of-le n ns hs)

sent_before-IsOrder : IsOrder sent_before
sent_before-IsOrder = record { asym = λ a b h. ground arith; neg_trans = λ a b c h k. ground arith }

reopen_from-IsResult :
    (inbox : Inbox) (c : ℕ) (ms : List Message) (ws : List Wait)
    → IsOrdered sent_before ms
    → open_count c ws ≡ 0
    → IsTable ws
    → IsResult (reopen_from inbox c ms ws)
unfolding reopen_from
reopen_from-IsResult inbox c [] ws o zero_open h = h
reopen_from-IsResult inbox c (m ∷ ms) ws o zero_open h =
    open_wait-IsResult inbox c m.created_at m.wa_timestamp (last_of m ms).wa_timestamp ws
      (last_of-le m ms o) zero_open h

answer_open-IsResult :
    (inbox : Inbox) (msg : Message) (w : Wait) (ws : List Wait)
    → IsTable ws
    → IsResult (answer_open inbox msg w ws)
unfolding answer_open reopen_after
answer_open-IsResult inbox msg w ws h =
    let c = msg.conversation_id in
    let ended_at = if ltb msg.wa_timestamp w.started_at then w.started_at else msg.wa_timestamp in
    let done = end_open_wait c phone ended_at none (some msg.id) ws in
    let kept : IsTable done.1 =
      end_open_wait-IsTable c phone ended_at none (some msg.id) ws (refl, refl) h in
    elim (Bool-cases (ltb msg.wa_timestamp w.customer_sent_at)) [
      | inl e ↦ rw (e, answer_open) h
      | inr e ↦ elim (Bool-cases done.0) [
        | inl d ↦
            rw (e, answer_open, d)
              (reopen_from-IsResult inbox c _ done.1
                (sort_by-IsOrdered sent_before sent_before-IsOrder
                  (later_messages c msg.wa_timestamp inbox.messages))
                (end_open_wait-open_count c phone ended_at none (some msg.id) ws) kept)
        | inr d ↦ rw (e, answer_open, d) kept
      ]
    ]

answered_from_phone-IsResult :
    (inbox : Inbox) (msg : Message) (ws : List Wait)
    → IsTable ws
    → IsResult (answered_from_phone inbox msg ws)
unfolding answered_from_phone
answered_from_phone-IsResult inbox msg ws h =
    elim (Option-cases (find_where (is_open msg.conversation_id) ws)) [
      | inl e ↦ rw (e, answered_from_phone) h
      | inr (w, e) ↦ rw (e, answered_from_phone) (answer_open-IsResult inbox msg w ws h)
    ]

-- A step, with what it reads of the other tables.
pub data Step : Type 0 where
  writes : Inbox → Message → Step
  replies : Message → Step
  answers : Inbox → Message → Step
  closes : (conversation closed_by at : ℕ) → Step

unfoldable pub after_step : Step → List Wait → List Wait
after_step (writes inbox msg) ws = recorded ws (customer_wrote inbox msg ws)
after_step (replies msg) ws = recorded ws (replied msg ws)
after_step (answers inbox msg) ws = recorded ws (answered_from_phone inbox msg ws)
after_step (closes conversation closed_by at) ws =
    recorded ws (closed_without_reply conversation closed_by at ws)

unfoldable pub after_steps : List Step → List Wait → List Wait
after_steps [] ws = ws
after_steps (step ∷ steps) ws = after_steps steps (after_step step ws)

-- A reply from the application has its sender, as `Queue` writes it.
abbrev pub HasSender : Step → Type 0
HasSender (writes inbox msg) = Unit
HasSender (replies msg) = is_some msg.sender_user_id ≡ true
HasSender (answers inbox msg) = Unit
HasSender (closes conversation closed_by at) = Unit

after_step-IsTable :
    (step : Step) (ws : List Wait) → HasSender step → IsTable ws → IsTable (after_step step ws)
unfolding after_step replied closed_without_reply
after_step-IsTable (writes inbox msg) ws s h =
    recorded-IsTable ws _ h (customer_wrote-IsResult inbox msg ws h)
after_step-IsTable (replies msg) ws s h = recorded-IsTable ws _ h (
    end_open_wait-IsTable msg.conversation_id replied_in_app msg.wa_timestamp msg.sender_user_id
      (some msg.id) ws (s, refl) h)
after_step-IsTable (answers inbox msg) ws s h =
    recorded-IsTable ws _ h (answered_from_phone-IsResult inbox msg ws h)
after_step-IsTable (closes conversation closed_by at) ws s h =
    recorded-IsTable ws _ h
      (end_open_wait-IsTable conversation closed at (some closed_by) none ws (refl, refl) h)

-- Where every reply from the application has its sender, the table of waits meets its constraints
-- after any steps in any order, if it does before: a thread has at most one open wait, a wait has an
-- end time just where it has an end reason, who ended it and with which message fits the reason, and
-- its last message was not sent before its first.
pub after_steps-IsTable :
    (steps : List Step) (ws : List Wait)
    → All HasSender steps
    → IsTable ws
    → IsTable (after_steps steps ws)
unfolding after_steps
after_steps-IsTable [] ws s h = h
after_steps-IsTable (step ∷ steps) ws (s, ss) h =
    after_steps-IsTable steps (after_step step ws) ss (after_step-IsTable step ws s h)
