-- ===== src/Services/CsWait/Rows.antt =====
-- backend/internal/services/cs_wait.go and the constraints of backend/migrations/52_cs_waits.sql: what
-- the steps keep of the rows.
use tikman.Prelude.{
  ℕ, ◌+◌, ◌≤◌, ◌≡◌, refl, arith, Bool, true, false, Option, none, some, List, [], ◌∷◌, ◌++◌,
  if◌then◌else◌, All, Bool-cases, Option-cases, inl, inr, is_some,
}
use tikman.Services.CsWait.{
  WaitEndReason, Wait, replied_in_app, phone, closed, abandoned, is_open, update_where, find_where,
  end_wait, end_open_wait,
}

-- Who ended a wait, and with which message, by how it ended.
abbrev pub IsActor : Option WaitEndReason → Bool → Bool → Type 0
IsActor none by reply = (by ≡ false) × (reply ≡ false)
IsActor (some replied_in_app) by reply = (by ≡ true) × (reply ≡ true)
IsActor (some phone) by reply = (by ≡ false) × (reply ≡ true)
IsActor (some closed) by reply = (by ≡ true) × (reply ≡ false)
IsActor (some abandoned) by reply = (by ≡ false) × (reply ≡ false)

-- The checks of the table, and that the last message of a wait was not sent before the first.
pub record IsWait (w : Wait) : Type 0 where
  pub ended_together : is_some w.ended_at ≡ is_some w.end_reason
  pub actor : IsActor w.end_reason (is_some w.ended_by) (is_some w.reply_message_id)
  pub sent : w.customer_sent_at ≤ w.last_customer_sent_at

-- How many waits of a thread are open.
unfoldable pub open_count : ℕ → List Wait → ℕ
open_count conversation [] = 0
open_count conversation (w ∷ ws) =
    (if is_open conversation w then 1 else 0) + open_count conversation ws

-- The rows of the table, with the unique index on a thread's open wait.
pub record IsTable (ws : List Wait) : Type 0 where
  pub rows : All IsWait ws
  pub one_open : (conversation : ℕ) → open_count conversation ws ≤ 1

pub open_count-append :
    (c : ℕ) (ws vs : List Wait) → open_count c (ws ++ vs) ≡ open_count c ws + open_count c vs
unfolding open_count
open_count-append c [] vs = omega arith
open_count-append c (w ∷ ws) vs = omega (arith, open_count-append c ws vs)

pub update_where-All :
    (P : Wait → Type 0) (test : Wait → Bool) (f : Wait → Wait) (ws : List Wait)
    → ((w : Wait) → test w ≡ true → P w → P (f w))
    → All P ws
    → All P (update_where test f ws)
unfolding update_where
update_where-All P test f [] keep h = tt
update_where-All P test f (w ∷ ws) keep (hw, hs) = elim (Bool-cases (test w)) [
  | inl e ↦ (rw e (keep w e hw), update_where-All P test f ws keep hs)
  | inr e ↦ (rw e hw, update_where-All P test f ws keep hs)
]

-- An update that opens no wait leaves no more open ones.
pub update_where-open_count :
    (c : ℕ) (test : Wait → Bool) (f : Wait → Wait) (ws : List Wait)
    → ((w : Wait) → is_open c w ≡ false → is_open c (f w) ≡ false)
    → open_count c (update_where test f ws) ≤ open_count c ws
unfolding update_where open_count
update_where-open_count c test f [] keep = omega arith
update_where-open_count c test f (w ∷ ws) keep = elim (Bool-cases (test w)) [
  | inl e ↦ rw e (elim (Bool-cases (is_open c w)) [
    | inl o ↦ ground (arith, update_where-open_count c test f ws keep)
    | inr o ↦ rw (o, keep w o) (omega (arith, update_where-open_count c test f ws keep))
  ])
  | inr e ↦ rw e (omega (arith, update_where-open_count c test f ws keep))
]

pub find_where-none :
    (c : ℕ) (ws : List Wait) → find_where (is_open c) ws ≡ none → open_count c ws ≡ 0
unfolding find_where open_count
find_where-none c [] h = refl
find_where-none c (w ∷ ws) h = elim (Bool-cases (is_open c w)) [
  | inl o ↦ absurd (ground (arith, o, h))
  | inr o ↦ rw o (omega (arith, find_where-none c ws (ground (arith, o, h))))
]

pub ended-open_count :
    (c : ℕ) (reason : WaitEndReason) (at : ℕ) (by reply : Option ℕ) (ws : List Wait)
    → open_count c (update_where (is_open c) (end_wait reason at by reply) ws) ≡ 0
unfolding update_where open_count
ended-open_count c reason at by reply [] = refl
ended-open_count c reason at by reply (w ∷ ws) =
    ground (arith, ended-open_count c reason at by reply ws)

-- After `endOpenWait` the thread has no open wait.
pub end_open_wait-open_count :
    (c : ℕ) (reason : WaitEndReason) (at : ℕ) (by reply : Option ℕ) (ws : List Wait)
    → open_count c (end_open_wait c reason at by reply ws).1 ≡ 0
unfolding end_open_wait
end_open_wait-open_count c reason at by reply ws = elim (Option-cases (find_where (is_open c) ws)) [
  | inl e ↦ rw (e, end_open_wait) (find_where-none c ws e)
  | inr (w, e) ↦ rw (e, end_open_wait) (ended-open_count c reason at by reply ws)
]

pub end_open_wait-IsTable :
    (c : ℕ) (reason : WaitEndReason) (at : ℕ) (by reply : Option ℕ) (ws : List Wait)
    → IsActor (some reason) (is_some by) (is_some reply)
    → IsTable ws
    → IsTable (end_open_wait c reason at by reply ws).1
unfolding end_open_wait
end_open_wait-IsTable c reason at by reply ws actor h =
    elim (Option-cases (find_where (is_open c) ws)) [
      | inl e ↦ rw (e, end_open_wait) h
      | inr (w, e) ↦
          rw (e, end_open_wait)
            (record {
              rows =
                  update_where-All IsWait (is_open c) (end_wait reason at by reply) ws
                    (λ v o r. record { ended_together = refl; actor = actor; sent = r.sent })
                    h.rows;
              one_open = λ d. ground (
                arith,
                update_where-open_count d (is_open c) (end_wait reason at by reply) ws
                    (λ v o. ground arith),
                h.one_open d,
              );
            })
    ]
