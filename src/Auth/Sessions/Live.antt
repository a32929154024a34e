-- ===== src/Auth/Sessions/Live.antt =====
-- backend/internal/auth/memory_store.go: the steps of all calls, and the sessions that they leave alive.
use tikman.Prelude.{
  ℕ, ◌≡◌, refl, ◌∙◌, false, Option, none, some, List, [], ◌∷◌, nat_beq, nat_beq_iff, if◌then◌else◌,
  inl, inr, Option-cases, nat_eq,
}
use tikman.Prelude.Assoc.{lookup, lookup-put, lookup-erase}
use tikman.Prelude.Text.{Text}
use tikman.Auth.Sessions.{Data, MemoryStore, new_memory_store, create, evict, delete, refresh}

-- A step that changes the store, with its time.
pub data Step : Type 0 where
  creates : (token user : ℕ) (role : Text) (now : ℕ) → Step
  evicts : (token : ℕ) → Step
  deletes : (token : ℕ) → Step
  refreshes : (token now : ℕ) → Step

abbrev after_refresh : MemoryStore → Option MemoryStore → MemoryStore
after_refresh ms none = ms
after_refresh ms (some more) = more

unfoldable pub after_step : Step → MemoryStore → MemoryStore
after_step (creates token user role now) ms = create token user role now ms
after_step (evicts token) ms = evict token ms
after_step (deletes token) ms = delete token ms
after_step (refreshes token now) ms = after_refresh ms (refresh token now ms)

-- The store after the steps, of which the last stands first.
unfoldable pub run : ℕ → List Step → MemoryStore
run ttl [] = new_memory_store ttl
run ttl (step ∷ past) = after_step step (run ttl past)

-- The past steps say that the token's session was created for the user, was last active at a time, and
-- was neither deleted nor evicted since it was created.
pub data IsAlive (token user : ℕ) (role : Text) : ℕ → List Step → Type 0 where
  started :
      (now : ℕ) (past : List Step)
      → IsAlive token user role now (creates token user role now ∷ past)
  touched :
      (at now : ℕ) (past : List Step)
      → IsAlive token user role at past
      → IsAlive token user role now (refreshes token now ∷ past)
  other_created :
      (at k u now : ℕ) (r : Text) (past : List Step)
      → nat_beq k token ≡ false
      → IsAlive token user role at past
      → IsAlive token user role at (creates k u r now ∷ past)
  other_evicted :
      (at k : ℕ) (past : List Step)
      → nat_beq k token ≡ false
      → IsAlive token user role at past
      → IsAlive token user role at (evicts k ∷ past)
  other_deleted :
      (at k : ℕ) (past : List Step)
      → nat_beq k token ≡ false
      → IsAlive token user role at past
      → IsAlive token user role at (deletes k ∷ past)
  other_touched :
      (at k now : ℕ) (past : List Step)
      → nat_beq k token ≡ false
      → IsAlive token user role at past
      → IsAlive token user role at (refreshes k now ∷ past)

-- What stands in the store for a token, step by step.
unfoldable pub entry : ℕ → ℕ → List Step → Option Data
entry ttl token past = lookup token (run ttl past).sessions

-- The entry behind each kind of step.
module _ (ttl token : ℕ) (past : List Step) where
  pub entry-creates :
      (k user now : ℕ) (role : Text)
      → entry ttl token (creates k user role now ∷ past) ≡ (
          if nat_beq k token
          then some (record { user_id = user; role = role; created_at = now; last_activity = now })
          else entry ttl token past)
  unfolding entry run after_step create
  entry-creates k user now role = lookup-put k token _ (run ttl past).sessions

  pub entry-evicts :
      (k : ℕ)
      → entry ttl token (evicts k ∷ past) ≡ (if nat_beq k token then none else entry ttl token past)
  unfolding entry run after_step evict
  entry-evicts k = lookup-erase k token (run ttl past).sessions

  pub entry-deletes :
      (k : ℕ)
      → entry ttl token (deletes k ∷ past)
        ≡ (if nat_beq k token then none else entry ttl token past)
  unfolding entry run after_step delete
  entry-deletes k = lookup-erase k token (run ttl past).sessions

  pub entry-refreshes_none :
      (k now : ℕ)
      → entry ttl k past ≡ none
      → entry ttl token (refreshes k now ∷ past) ≡ entry ttl token past
  unfolding entry run after_step refresh
  entry-refreshes_none k now e = rw (e, refresh) refl

  pub entry-refreshes_some :
      (k now : ℕ) (d : Data)
      → entry ttl k past ≡ some d
      → entry ttl token (refreshes k now ∷ past) ≡ (
          if nat_beq k token then some (record d { last_activity = now }) else entry ttl token past)
  unfolding entry run after_step refresh
  entry-refreshes_some k now d e =
      rw (e, refresh)
        (lookup-put k token (record d { last_activity = now }) (run ttl past).sessions)

  pub entry-refreshes_other :
      (k now : ℕ)
      → nat_beq k token ≡ false
      → entry ttl token (refreshes k now ∷ past) ≡ entry ttl token past
  entry-refreshes_other k now other = elim (Option-cases (entry ttl k past)) [
    | inl e ↦ entry-refreshes_none k now e
    | inr (d, e) ↦ rw (entry-refreshes_some k now d e, other) refl
  ]

-- The session of a live token has its user and role, and the time it was last active at.
pub record HasSession (ttl token user : ℕ) (role : Text) (at : ℕ) (past : List Step) : Type 0 where
  pub session : Data
  pub is_there : entry ttl token past ≡ some session
  pub user_id : session.user_id ≡ user
  pub same_role : session.role ≡ role
  pub last_activity : session.last_activity ≡ at

kept-HasSession :
    (ttl token user : ℕ) (role : Text) (at : ℕ) (past more : List Step)
    → entry ttl token more ≡ entry ttl token past
    → HasSession ttl token user role at past
    → HasSession ttl token user role at more
kept-HasSession ttl token user role at past more e h = record {
  session = h.session;
  is_there = e ∙ h.is_there;
  user_id = h.user_id;
  same_role = h.same_role;
  last_activity = h.last_activity;
}

pub IsAlive-HasSession :
    (ttl token user : ℕ) (role : Text) (at : ℕ) (past : List Step)
    → IsAlive token user role at past
    → HasSession ttl token user role at past
IsAlive-HasSession ttl token user role _ _ (started now past) = record {
  session = record { user_id = user; role = role; created_at = now; last_activity = now };
  is_there =
      rw (entry-creates ttl token past token user now role, (nat_beq_iff token token).1 refl) refl;
  user_id = refl;
  same_role = refl;
  last_activity = refl;
}
IsAlive-HasSession ttl token user role _ _ (touched at now past h) =
    let old = IsAlive-HasSession ttl token user role at past h in
    record {
      session = record old.session { last_activity = now };
      is_there =
          rw
            (
              entry-refreshes_some ttl token past token now old.session old.is_there,
              (nat_beq_iff token token).1 refl,
            )
            refl;
      user_id = old.user_id;
      same_role = old.same_role;
      last_activity = refl;
    }
IsAlive-HasSession ttl token user role _ _ (other_created at k u now r past other h) =
    kept-HasSession ttl token user role at past _
      (rw (entry-creates ttl token past k u now r, other) refl)
      (IsAlive-HasSession ttl token user role at past h)
IsAlive-HasSession ttl token user role _ _ (other_evicted at k past other h) =
    kept-HasSession ttl token user role at past _ (rw (entry-evicts ttl token past k, other) refl)
      (IsAlive-HasSession ttl token user role at past h)
IsAlive-HasSession ttl token user role _ _ (other_deleted at k past other h) =
    kept-HasSession ttl token user role at past _ (rw (entry-deletes ttl token past k, other) refl)
      (IsAlive-HasSession ttl token user role at past h)
IsAlive-HasSession ttl token user role _ _ (other_touched at k now past other h) =
    kept-HasSession ttl token user role at past _ (entry-refreshes_other ttl token past k now other)
      (IsAlive-HasSession ttl token user role at past h)
