-- ===== src/Auth/Sessions.antt =====
-- backend/internal/auth/memory_store.go: the sessions in memory. Each part that holds the lock is one
-- step, so that `get` is two: it looks, and where the session is too old it deletes it later. The run
-- of all calls is the list of their steps. A token is a new UUID and stands as a number.
pub mod Live
pub mod Answers
mod Tests
use tikman.Prelude.{ℕ, ◌-◌, Bool, Option, none, some, List, [], ◌∷◌, ltb, if◌then◌else◌, nat_eq}
use tikman.Prelude.Assoc.{Assoc, lookup, put, erase}
use tikman.Prelude.Text.{Text}

pub record Data : Type 0 where
  pub user_id : ℕ
  pub role : Text
  pub created_at : ℕ
  pub last_activity : ℕ

pub record MemoryStore : Type 0 where
  pub sessions : Assoc ℕ Data
  pub ttl : ℕ

abbrev pub new_memory_store : ℕ → MemoryStore
new_memory_store ttl = record { sessions = []; ttl = ttl }

unfoldable pub create : ℕ → ℕ → Text → ℕ → MemoryStore → MemoryStore
create token user role now ms = record ms {
  sessions =
      put token (record { user_id = user; role = role; created_at = now; last_activity = now })
        ms.sessions;
}

pub data Get : Type 0 where
  session_not_found : Get
  session_expired : Get
  found : Data → Get

-- The first part of `get`.
unfoldable pub look : ℕ → ℕ → MemoryStore → Get
look token now ms = elim (lookup token ms.sessions) [
  | none ↦ session_not_found
  | some session ↦
      if ltb ms.ttl (now - session.last_activity) then session_expired else found session
]

-- The second part of `get`, where the session has expired.
unfoldable pub evict : ℕ → MemoryStore → MemoryStore
evict token ms = record ms { sessions = erase token ms.sessions }

unfoldable pub delete : ℕ → MemoryStore → MemoryStore
delete token ms = record ms { sessions = erase token ms.sessions }

-- `none` is the error that there is no such session.
unfoldable pub refresh : ℕ → ℕ → MemoryStore → Option MemoryStore
refresh token now ms = elim (lookup token ms.sessions) [
  | none ↦ none
  | some session ↦
      some (record ms { sessions = put token (record session { last_activity = now }) ms.sessions })
]
