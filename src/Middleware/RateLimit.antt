-- ===== src/Middleware/RateLimit.antt =====
-- backend/internal/middleware/rate_limit.go: a sliding window for each client address.
-- A `time.Time` is the nanoseconds since the epoch, not before one window after it; an address is a
-- number. The mutex is held over all of `allow`, so calls come one after the other.
pub mod Window
mod Tests
use tikman.Prelude.{
  ℕ, ◌+◌, ◌-◌, ◌*◌, Bool, true, false, Option, none, some, List, [], ◌∷◌, ◌++◌, ltb, leb, nat_beq,
  nat_eq, if◌then◌else◌, length,
}
use tikman.Prelude.Assoc.{Assoc, lookup, put}

abbrev pub minute : ℕ
minute = 60000000000

pub record RateLimiter : Type 0 where
  pub requests : Assoc ℕ (List ℕ)
  pub limit : ℕ
  pub window : ℕ
  pub cleanup_at : ℕ

unfoldable pub new_rate_limiter : ℕ → ℕ → RateLimiter
new_rate_limiter now requests_per_minute = record {
  requests = [];
  limit = requests_per_minute;
  window = minute;
  cleanup_at = now + 5 * minute;
}

-- The loops that build `filtered`: the timestamps after the cutoff.
unfoldable pub after : ℕ → List ℕ → List ℕ
after cutoff [] = []
after cutoff (t ∷ ts) = if ltb cutoff t then t ∷ after cutoff ts else after cutoff ts

-- The loop over the map, where an address with nothing left is deleted.
unfoldable pub clean : ℕ → Assoc ℕ (List ℕ) → Assoc ℕ (List ℕ)
clean cutoff [] = []
clean cutoff ((ip, ts) ∷ m) =
    let rest = clean cutoff m in
    let filtered = after cutoff ts in
    if nat_beq (length filtered) 0 then rest else (ip, filtered) ∷ rest

unfoldable pub cleanup : ℕ → RateLimiter → RateLimiter
cleanup now rl =
    if ltb rl.cleanup_at now
    then record rl { requests = clean (now - rl.window) rl.requests; cleanup_at = now + 5 * minute }
    else rl

-- `rl.requests[ip]`, which is empty for an address that is not there.
abbrev pub requests_of : ℕ → Assoc ℕ (List ℕ) → List ℕ
requests_of ip m = elim (lookup ip m) [ none ↦ [] | some ts ↦ ts ]

-- The end of `allow`, behind the cleanup.
unfoldable pub admit : ℕ → ℕ → RateLimiter → Bool × RateLimiter
admit now ip rl =
    let filtered = after (now - rl.window) (requests_of ip rl.requests) in
    if leb rl.limit (length filtered)
    then (false, rl)
    else (true, record rl { requests = put ip (filtered ++ (now ∷ [])) rl.requests })

unfoldable pub allow : ℕ → ℕ → RateLimiter → Bool × RateLimiter
allow now ip rl = admit now ip (cleanup now rl)
