-- ===== src/Middleware/RateLimit/Window.antt =====
-- backend/internal/middleware/rate_limit.go: the limiter beside one that keeps the whole log of the
-- requests it let through.
pub mod Bound
use tikman.Prelude.{
  ℕ, zero, suc, ◌+◌, ◌-◌, ◌≤◌, ◌<◌, ◌≡◌, refl, sym, arith, Bool, true, false, Option, none, some,
  List, [], ◌∷◌, ◌++◌, All, ltb, leb, nat_beq, nat_beq_iff, nat_eq, if◌then◌else◌, length,
  length-append, Bool-cases, inl, inr, ◌⊎◌,
}
use tikman.Prelude.Assoc.{Assoc, lookup, put, lookup-put}
use tikman.Middleware.RateLimit.{
  RateLimiter, new_rate_limiter, after, clean, cleanup, requests_of, admit, allow,
}

after-append : (c : ℕ) (ts us : List ℕ) → after c (ts ++ us) ≡ after c ts ++ after c us
unfolding after
after-append c [] us = refl
after-append c (t ∷ ts) us = ground (arith, after-append c ts us)

after_empty : (c : ℕ) → after c [] ≡ []
unfolding after
after_empty c = refl

-- A later cutoff makes an earlier one unnoticed.
after-after : (c d : ℕ) (ts : List ℕ) → c ≤ d → after d (after c ts) ≡ after d ts
unfolding after
after-after c d [] h = refl
after-after c d (t ∷ ts) h = ground (arith, after-after c d ts)

after-nil : (c d : ℕ) (ts : List ℕ) → c ≤ d → length (after c ts) ≡ 0 → after d ts ≡ []
unfolding after
after-nil c d [] h e = refl
after-nil c d (t ∷ ts) h e = ground (arith, after-nil c d ts)

-- No address has two entries.
abbrev pub IsDistinct : Assoc ℕ (List ℕ) → Type 0
IsDistinct [] = Unit
IsDistinct ((k, ts) ∷ m) = (lookup k m ≡ none) × IsDistinct m

lookup-clean-none :
    (c k : ℕ) (m : Assoc ℕ (List ℕ)) → lookup k m ≡ none → lookup k (clean c m) ≡ none
unfolding clean lookup
lookup-clean-none c k [] h = refl
lookup-clean-none c k ((j, ts) ∷ m) h = ground (arith, lookup-clean-none c k m)

clean-IsDistinct : (c : ℕ) (m : Assoc ℕ (List ℕ)) → IsDistinct m → IsDistinct (clean c m)
unfolding clean
clean-IsDistinct c [] h = tt
clean-IsDistinct c ((k, ts) ∷ m) (new, h) = elim (Bool-cases (nat_beq (length (after c ts)) 0)) [
  | inl e ↦ rw e (clean-IsDistinct c m h)
  | inr e ↦ rw e (lookup-clean-none c k m new, clean-IsDistinct c m h)
]

put-IsDistinct :
    (k : ℕ) (ts : List ℕ) (m : Assoc ℕ (List ℕ)) → IsDistinct m → IsDistinct (put k ts m)
unfolding put lookup
put-IsDistinct k ts [] h = (refl, tt)
put-IsDistinct k ts ((j, us) ∷ m) (new, h) = elim (Bool-cases (nat_beq j k)) [
  | inl e ↦ rw e (ground (arith, nat_beq_iff j k), h)
  | inr e ↦ rw e (
    ground (arith, nat_beq_iff j k, nat_beq_iff k j, lookup-put k j ts m),
    put-IsDistinct k ts m h,
  )
]

requests_of-clean :
    (c d ip : ℕ) (m : Assoc ℕ (List ℕ))
    → c ≤ d
    → IsDistinct m
    → after d (requests_of ip (clean c m)) ≡ after d (requests_of ip m)
unfolding clean lookup
requests_of-clean c d ip [] h x = refl
requests_of-clean c d ip ((k, ts) ∷ m) h (new, x) = ground (
  arith,
  nat_beq_iff k ip,
  after-nil c d ts h,
  after-after c d ts h,
  lookup-clean-none c k m new,
  requests_of-clean c d ip m h x,
  after_empty d,
)

-- The limiter that forgets nothing: all requests let through, with their addresses.
abbrev pub Log : Type 0
Log = List (ℕ × ℕ)

unfoldable pub log_of : ℕ → Log → List ℕ
log_of ip [] = []
log_of ip ((j, t) ∷ log) = if nat_beq j ip then t ∷ log_of ip log else log_of ip log

log_of-snoc :
    (ip j t : ℕ) (log : Log)
    → log_of ip (log ++ ((j, t) ∷ []))
      ≡ (if nat_beq j ip then log_of ip log ++ (t ∷ []) else log_of ip log)
unfolding log_of
log_of-snoc ip j t [] = ground arith
log_of-snoc ip j t ((k, u) ∷ log) = ground (arith, log_of-snoc ip j t log)

-- How many requests of the address went through in the window before `now`.
abbrev pub passed : ℕ → ℕ → ℕ → Log → ℕ
passed window now ip log = length (after (now - window) (log_of ip log))

module _ (limit window : ℕ) where
  unfoldable pub ideal : ℕ → ℕ → Log → Bool × Log
  ideal now ip log =
      if leb limit (passed window now ip log) then (false, log) else (true, log ++ ((ip, now) ∷ []))

-- The limiter holds what the log holds, as far back as any later call looks.
pub record Follows (rl : RateLimiter) (last : ℕ) (log : Log) : Type 0 where
  pub distinct : IsDistinct rl.requests
  pub agrees :
      (ip d : ℕ)
      → last - rl.window ≤ d
      → after d (requests_of ip rl.requests) ≡ after d (log_of ip log)

cleanup-Follows :
    (now last : ℕ) (rl : RateLimiter) (log : Log)
    → last ≤ now
    → Follows rl last log
    → Follows (cleanup now rl) now log
unfolding cleanup
cleanup-Follows now last rl log h f = elim (Bool-cases (ltb rl.cleanup_at now)) [
  | inl e ↦
      rw (e, cleanup)
        (record {
          distinct = clean-IsDistinct (now - rl.window) rl.requests f.distinct;
          agrees = λ ip d le. ground (
            arith,
            requests_of-clean (now - rl.window) d ip rl.requests le f.distinct,
            f.agrees ip d (omega arith),
          );
        })
  | inr e ↦
      rw (e, cleanup)
        (record { distinct = f.distinct; agrees = λ ip d le. f.agrees ip d (omega arith) })
]

cleanup_same :
    (now : ℕ) (rl : RateLimiter)
    → ((cleanup now rl).window ≡ rl.window) × ((cleanup now rl).limit ≡ rl.limit)
unfolding cleanup
cleanup_same now rl = ground arith

requests_of-put :
    (k j : ℕ) (v : List ℕ) (m : Assoc ℕ (List ℕ))
    → requests_of j (put k v m) ≡ (if nat_beq k j then v else requests_of j m)
requests_of-put k j v m = rw (lookup-put k j v m, requests_of) (ground arith)

-- What `admit` stores answers every later cutoff as the longer log does.
agrees-put :
    (cutoff now ip j d : ℕ) (m : Assoc ℕ (List ℕ)) (log : Log)
    → cutoff ≤ d
    → ((i : ℕ) → after d (requests_of i m) ≡ after d (log_of i log))
    → after d (requests_of j (put ip (after cutoff (requests_of ip m) ++ (now ∷ [])) m))
      ≡ after d (log_of j (log ++ ((ip, now) ∷ [])))
agrees-put cutoff now ip j d m log le h = ground (
  arith,
  requests_of-put ip j (after cutoff (requests_of ip m) ++ (now ∷ [])) m,
  log_of-snoc j ip now log,
  nat_beq_iff ip j,
  after-append d (after cutoff (requests_of ip m)) (now ∷ []),
  after-append d (log_of ip log) (now ∷ []),
  after-after cutoff d (requests_of ip m) le,
  h ip,
  h j,
)
