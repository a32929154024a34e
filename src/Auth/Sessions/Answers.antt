-- ===== src/Auth/Sessions/Answers.antt =====
-- backend/internal/auth/memory_store.go: which sessions `get` answers with.
use tikman.Prelude.{
  some-inj, none-some, ℕ, ◌+◌, ◌-◌, ◌≤◌, ◌≡◌, ◌⊎◌, ◌↔◌, refl, sym, ◌∙◌, arith, Bool, true, false,
  Option, none, some, List, [], ◌∷◌, ltb, nat_beq, nat_beq_iff, if◌then◌else◌, inl, inr, Bool-cases,
  Option-cases, nat_eq,
}
use mathlib.Core.Path.{subst}
use tikman.Prelude.Assoc.{lookup}
use tikman.Prelude.Text.{Text}
use tikman.Auth.Sessions.{
  Data, create, Get, session_not_found, session_expired, found, look, evict, delete, refresh,
}
use tikman.Auth.Sessions.Live.{
  Step, creates, evicts, deletes, refreshes, after_step, run, IsAlive, started, touched,
  other_created, other_evicted, other_deleted, other_touched, entry, entry-creates, entry-evicts,
  entry-deletes, entry-refreshes_none, entry-refreshes_some, entry-refreshes_other,
  IsAlive-HasSession,
}

-- What an entry says of the past.
Says : ℕ → List Step → Data → Type 0
Says token past d = IsAlive token d.user_id d.role d.last_activity past

branch :
    {A : Type 0} (b : Bool) (x y : Option A) (d : A)
    → (if b then x else y) ≡ some d
    → ((b ≡ true) × (x ≡ some d)) ⊎ ((b ≡ false) × (y ≡ some d))
branch true x y d h = inl (refl, h)
branch false x y d h = inr (refl, h)

refreshed_self :
    (ttl token : ℕ) (past : List Step) (now : ℕ) (old : Data)
    → entry ttl token past ≡ some old
    → entry ttl token (refreshes token now ∷ past) ≡ some (record old { last_activity = now })
refreshed_self ttl token past now old e =
    entry-refreshes_some ttl token past token now old e ∙ rw ((nat_beq_iff token token).1 refl) refl

-- A refresh of a session that is there.
refreshed-Says :
    (ttl token : ℕ) (past : List Step) (now : ℕ) (d : Data)
    → ((old : Data) → entry ttl token past ≡ some old → Says token past old)
    → entry ttl token (refreshes token now ∷ past) ≡ some d
    → Says token (refreshes token now ∷ past) d
unfolding Says
refreshed-Says ttl token past now d says h = elim (Option-cases (entry ttl token past)) [
  | inl e ↦ absurd (none-some d (sym e ∙ sym (entry-refreshes_none ttl token past token now e) ∙ h))
  | inr (old, e) ↦
      subst (Says token (refreshes token now ∷ past))
        (some-inj (record old { last_activity = now }) d
          (sym (refreshed_self ttl token past now old e) ∙ h))
        (touched old.last_activity now past (says old e))
]

entry-Says :
    (ttl token : ℕ) (past : List Step) (d : Data)
    → entry ttl token past ≡ some d
    → Says token past d
unfolding entry run lookup Says
entry-Says ttl token [] d h = absurd (none-some d h)
entry-Says ttl token (creates k user role now ∷ past) d h =
    elim (branch (nat_beq k token)
      (some (record { user_id = user; role = role; created_at = now; last_activity = now }))
      (entry ttl token past) d (sym (entry-creates ttl token past k user now role) ∙ h)) [
        | inl (e, q) ↦
            subst (λ x. Says token (creates k user role now ∷ past) x) (some-inj _ d q)
              (subst (λ j. IsAlive token user role now (creates j user role now ∷ past))
                (sym ((nat_beq_iff k token).0 e)) (started now past))
        | inr (e, q) ↦
            other_created d.last_activity k user now role past e (entry-Says ttl token past d q)
      ]
entry-Says ttl token (evicts k ∷ past) d h =
    elim (branch (nat_beq k token) none (entry ttl token past) d
      (sym (entry-evicts ttl token past k) ∙ h)) [
        | inl (e, q) ↦ absurd (none-some d q)
        | inr (e, q) ↦ other_evicted d.last_activity k past e (entry-Says ttl token past d q)
      ]
entry-Says ttl token (deletes k ∷ past) d h =
    elim (branch (nat_beq k token) none (entry ttl token past) d
      (sym (entry-deletes ttl token past k) ∙ h)) [
        | inl (e, q) ↦ absurd (none-some d q)
        | inr (e, q) ↦ other_deleted d.last_activity k past e (entry-Says ttl token past d q)
      ]
entry-Says ttl token (refreshes k now ∷ past) d h = elim (Bool-cases (nat_beq k token)) [
  | inr other ↦
      other_touched d.last_activity k now past other
        (entry-Says ttl token past d (sym (entry-refreshes_other ttl token past k now other) ∙ h))
  | inl same ↦
      subst (λ j. Says token (refreshes j now ∷ past) d) (sym ((nat_beq_iff k token).0 same))
        (refreshed-Says ttl token past now d (λ old. entry-Says ttl token past old)
          (subst (λ j. entry ttl token (refreshes j now ∷ past) ≡ some d)
            ((nat_beq_iff k token).0 same) h))
]

run-ttl : (ttl : ℕ) (past : List Step) → (run ttl past).ttl ≡ ttl
unfolding run after_step create evict delete refresh
run-ttl ttl [] = refl
run-ttl ttl (creates k user role now ∷ past) = run-ttl ttl past
run-ttl ttl (evicts k ∷ past) = run-ttl ttl past
run-ttl ttl (deletes k ∷ past) = run-ttl ttl past
run-ttl ttl (refreshes k now ∷ past) = elim (Option-cases (lookup k (run ttl past).sessions)) [
  | inl e ↦ rw (e, refresh) (run-ttl ttl past)
  | inr (d, e) ↦ rw (e, refresh) (run-ttl ttl past)
]

-- The answer by the entry.
answer : ℕ → ℕ → Option Data → Get
answer ttl now none = session_not_found
answer ttl now (some d) = if ltb ttl (now - d.last_activity) then session_expired else found d

look-answer :
    (ttl token now : ℕ) (past : List Step)
    → look token now (run ttl past) ≡ answer ttl now (entry ttl token past)
unfolding look answer entry
look-answer ttl token now past = elim (Option-cases (lookup token (run ttl past).sessions)) [
  | inl e ↦ rw (e, look, answer) refl
  | inr (d, e) ↦ rw (e, look, answer, run-ttl ttl past) refl
]

answer-found :
    (ttl now : ℕ) (o : Option Data) (d : Data)
    → answer ttl now o ≡ found d
    → (o ≡ some d) × (now ≤ d.last_activity + ttl)
unfolding answer
answer-found ttl now none d h = absurd (ground arith)
answer-found ttl now (some e) d h = elim (Bool-cases (ltb ttl (now - e.last_activity))) [
  | inl old ↦ absurd (ground (arith, h, old))
  | inr young ↦
      let same : e ≡ d = ground (arith, h, young) in
      rw same (refl, subst (λ x. now ≤ x.last_activity + ttl) same (ground (arith, young)))
]

found-answer :
    (ttl now at : ℕ) (d : Data)
    → d.last_activity ≡ at
    → now ≤ at + ttl
    → answer ttl now (some d) ≡ found d
unfolding answer
found-answer ttl now at d e le = ground (arith, e, le)

looked-IsAlive :
    (ttl token now : ℕ) (past : List Step) (d : Data)
    → look token now (run ttl past) ≡ found d
    → IsAlive token d.user_id d.role d.last_activity past × (now ≤ d.last_activity + ttl)
unfolding Says
looked-IsAlive ttl token now past d e =
    let (there, le) =
      answer-found ttl now (entry ttl token past) d (sym (look-answer ttl token now past) ∙ e) in
    (entry-Says ttl token past d there, le)

-- `get` of a token in memory answers with a session just where the session was created, was neither
-- deleted nor evicted since, and was created or last refreshed no longer ago than the time to live;
-- then the answer has the user and role that it was created for. So it is after any steps of any
-- calls, `get` being two steps where the session has expired.
pub look-IsAlive :
    (ttl token now user : ℕ) (role : Text) (past : List Step)
    → ((session : Data) × (look token now (run ttl past) ≡ found session)
        × (session.user_id ≡ user)
        × (session.role ≡ role))
      ↔ ((at : ℕ) × IsAlive token user role at past × (now ≤ at + ttl))
look-IsAlive ttl token now user role past = (
  λ (session, e, u, r).
      let (alive, le) = looked-IsAlive ttl token now past session e in
      (
        session.last_activity,
        subst (λ v. IsAlive token v role session.last_activity past) u
            (subst (λ v. IsAlive token session.user_id v session.last_activity past) r alive),
        le,
      ),
  λ (at, alive, le).
      let has = IsAlive-HasSession ttl token user role at past alive in
      (
        has.session,
        look-answer ttl token now past
            ∙ rw (has.is_there) (found-answer ttl now at has.session has.last_activity le),
        has.user_id,
        has.same_role,
      ),
)
