-- ===== src/Auth/Sessions/Tests.antt =====
-- backend/internal/auth/memory_store.go: a session that is refreshed while `get` finds it expired.
use tikman.Prelude.{ℕ, ◌+◌, ◌≤◌, ◌≡◌, ◌↔◌, refl, is_some, true, List, [], ◌∷◌, nat_eq}
use tikman.Prelude.Assoc.{lookup, put, erase}
use tikman.Prelude.Text.{codes}
use tikman.Auth.Sessions.{
  Data, session_not_found, session_expired, found, create, look, evict, refresh,
}
use tikman.Auth.Sessions.Live.{Step, creates, evicts, deletes, refreshes, after_step, run, IsAlive}
use tikman.Auth.Sessions.Answers.{look-IsAlive}

abbrev login : List Step
login = creates 5 70 (codes "admin") 100 ∷ []

-- A first call looks and finds the session too old; a second one refreshes it, with success; then the
-- first deletes it.
looks_too_late : look 5 200 (run 50 login) ≡ session_expired
unfolding look run after_step create lookup put
looks_too_late = refl

refreshed : is_some (refresh 5 200 (run 50 login)) ≡ true
unfolding refresh run after_step create lookup put
refreshed = refl

lost : look 5 210 (run 50 (evicts 5 ∷ refreshes 5 200 ∷ login)) ≡ session_not_found
unfolding look run after_step create refresh evict lookup put erase
lost = refl

look-IsAlive_example :
    ((session : Data) × (look 5 210 (run 50 (deletes 6 ∷ refreshes 5 200 ∷ login)) ≡ found session)
      × (session.user_id ≡ 70)
      × (session.role ≡ codes "admin"))
    ↔ ((at : ℕ) × IsAlive 5 70 (codes "admin") at (deletes 6 ∷ refreshes 5 200 ∷ login)
        × (210 ≤ at + 50))
look-IsAlive_example =
    look-IsAlive 50 5 210 70 (codes "admin") (deletes 6 ∷ refreshes 5 200 ∷ login)
