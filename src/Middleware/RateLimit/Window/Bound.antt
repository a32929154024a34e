-- ===== src/Middleware/RateLimit/Window/Bound.antt =====
-- backend/internal/middleware/rate_limit.go: the requests that get through, over any sequence of
-- calls in the order of their times.
use tikman.Prelude.{
  ℕ, ◌-◌, ◌≤◌, ◌<◌, ◌≡◌, refl, sym, ◌∙◌, arith, Bool, List, [], ◌∷◌, ◌++◌, leb, nat_beq_iff,
  if◌then◌else◌, length, length-append, Bool-cases, inl, inr,
}
use mathlib.Core.Path.{subst}
use tikman.Prelude.Assoc.{lookup}
use tikman.Middleware.RateLimit.{
  RateLimiter, new_rate_limiter, after, cleanup, requests_of, admit, allow, minute,
}
use tikman.Middleware.RateLimit.Window.{
  Log, log_of, passed, ideal, Follows, cleanup-Follows, cleanup_same, agrees-put, put-IsDistinct,
  log_of-snoc, after-append,
}

admit-ideal :
    (now ip : ℕ) (rl : RateLimiter) (log : Log)
    → Follows rl now log
    → (admit now ip rl).0 ≡ (ideal rl.limit rl.window now ip log).0
unfolding admit ideal
admit-ideal now ip rl log f = rw (f.agrees ip (now - rl.window) (omega arith)) (ground arith)

admit-Follows :
    (now ip : ℕ) (rl : RateLimiter) (log : Log)
    → Follows rl now log
    → Follows (admit now ip rl).1 now (ideal rl.limit rl.window now ip log).1
unfolding admit ideal
admit-Follows now ip rl log f =
    elim (Bool-cases
      (leb rl.limit (length (after (now - rl.window) (requests_of ip rl.requests))))) [
        | inl e ↦ rw (sym (f.agrees ip (now - rl.window) (omega arith)), e) f
        | inr e ↦
            rw (sym (f.agrees ip (now - rl.window) (omega arith)), e)
              (record {
                distinct =
                    put-IsDistinct ip
                      (after (now - rl.window) (requests_of ip rl.requests) ++ (now ∷ []))
                      rl.requests f.distinct;
                agrees = λ j d le.
                    agrees-put (now - rl.window) now ip j d rl.requests log le
                      (λ i. f.agrees i d le);
              })
      ]

-- Calls in the order they come, each with its time and the address it comes from.
abbrev pub Calls : Type 0
Calls = List (ℕ × ℕ)

-- No call before `last`, and none before the one in front of it.
abbrev pub IsTimed : ℕ → Calls → Type 0
IsTimed last [] = Unit
IsTimed last ((now, ip) ∷ calls) = (last ≤ now) × IsTimed now calls

unfoldable pub serve : Calls → RateLimiter → List Bool
serve [] rl = []
serve ((now, ip) ∷ calls) rl = (allow now ip rl).0 ∷ serve calls (allow now ip rl).1

unfoldable pub ideal_serve : ℕ → ℕ → Calls → Log → List Bool
ideal_serve limit window [] log = []
ideal_serve limit window ((now, ip) ∷ calls) log =
    (ideal limit window now ip log).0
    ∷ ideal_serve limit window calls (ideal limit window now ip log).1

allow-ideal :
    (now last ip : ℕ) (rl : RateLimiter) (log : Log)
    → last ≤ now
    → Follows rl last log
    → (allow now ip rl).0 ≡ (ideal rl.limit rl.window now ip log).0
unfolding allow
allow-ideal now last ip rl log h f =
    rw
      (
        admit-ideal now ip (cleanup now rl) log (cleanup-Follows now last rl log h f),
        (cleanup_same now rl).0,
        (cleanup_same now rl).1,
      )
      refl

allow-Follows :
    (now last ip : ℕ) (rl : RateLimiter) (log : Log)
    → last ≤ now
    → Follows rl last log
    → Follows (allow now ip rl).1 now (ideal rl.limit rl.window now ip log).1
unfolding allow
allow-Follows now last ip rl log h f =
    subst (λ w. Follows (admit now ip (cleanup now rl)).1 now (ideal rl.limit w now ip log).1)
      (cleanup_same now rl).0
      (subst
        (λ l.
          Follows (admit now ip (cleanup now rl)).1 now
            (ideal l (cleanup now rl).window now ip log).1)
        (cleanup_same now rl).1
        (admit-Follows now ip (cleanup now rl) log (cleanup-Follows now last rl log h f)))

allow_same :
    (now ip : ℕ) (rl : RateLimiter)
    → ((allow now ip rl).1.window ≡ rl.window) × ((allow now ip rl).1.limit ≡ rl.limit)
unfolding allow admit
allow_same now ip rl = ground (arith, cleanup_same now rl)

serve-ideal :
    (calls : Calls) (last : ℕ) (rl : RateLimiter) (log : Log)
    → IsTimed last calls
    → Follows rl last log
    → serve calls rl ≡ ideal_serve rl.limit rl.window calls log
unfolding serve ideal_serve
serve-ideal [] last rl log h f = refl
serve-ideal ((now, ip) ∷ calls) last rl log (le, h) f =
    rw
      (
        allow-ideal now last ip rl log le f,
        serve-ideal calls now (allow now ip rl).1 (ideal rl.limit rl.window now ip log).1 h
            (allow-Follows now last ip rl log le f),
        (allow_same now ip rl).0,
        (allow_same now ip rl).1,
      )
      refl

Follows-new : (start limit : ℕ) → Follows (new_rate_limiter start limit) start []
unfolding new_rate_limiter log_of lookup
Follows-new start limit = record { distinct = tt; agrees = λ ip d le. refl }

-- Over any calls that come in the order of their times, the limiter with its clean-ups and its
-- dropped timestamps answers every call as the one that keeps the whole log and refuses a call
-- where the address had as many requests through as the limit in the minute before.
pub serve-ideal_serve :
    (calls : Calls) (start limit : ℕ)
    → IsTimed start calls
    → serve calls (new_rate_limiter start limit) ≡ ideal_serve limit minute calls []
unfolding new_rate_limiter
serve-ideal_serve calls start limit h =
    serve-ideal calls start (new_rate_limiter start limit) [] h (Follows-new start limit)

-- The log of the calls that `allow` lets through.
unfoldable pub let_through : Calls → RateLimiter → Log → Log
let_through [] rl log = log
let_through ((now, ip) ∷ calls) rl log =
    let_through calls (allow now ip rl).1
      (if (allow now ip rl).0 then log ++ ((ip, now) ∷ []) else log)

length-after_antitone : (c d : ℕ) (ts : List ℕ) → c ≤ d → length (after d ts) ≤ length (after c ts)
unfolding after
length-after_antitone c d [] h = ground arith
length-after_antitone c d (t ∷ ts) h = ground (arith, length-after_antitone c d ts h)

length-after_one : (d t : ℕ) → length (after d (t ∷ [])) ≤ 1
unfolding after
length-after_one d t = ground arith

abbrev pub IsWithin : ℕ → ℕ → ℕ → Log → Type 0
IsWithin limit window last log = (now ip : ℕ) → last ≤ now → passed window now ip log ≤ limit

snoc-IsWithin :
    (limit window last now ip : ℕ) (log : Log)
    → IsWithin limit window last log
    → last ≤ now
    → passed window now ip log < limit
    → IsWithin limit window now (log ++ ((ip, now) ∷ []))
snoc-IsWithin limit window last now ip log h le room t j after_now = ground (
  arith,
  log_of-snoc j ip now log,
  nat_beq_iff ip j,
  after-append (t - window) (log_of ip log) (now ∷ []),
  length-append (after (t - window) (log_of ip log)) (after (t - window) (now ∷ [])),
  length-after_one (t - window) now,
  length-after_antitone (now - window) (t - window) (log_of ip log) (omega arith),
  h t j (omega arith),
)

ideal-log :
    (limit window now ip : ℕ) (log : Log)
    → (ideal limit window now ip log).1
      ≡ (if (ideal limit window now ip log).0 then log ++ ((ip, now) ∷ []) else log)
unfolding ideal
ideal-log limit window now ip log = ground arith

ideal-IsWithin :
    (limit window last now ip : ℕ) (log : Log)
    → IsWithin limit window last log
    → last ≤ now
    → IsWithin limit window now (ideal limit window now ip log).1
unfolding ideal
ideal-IsWithin limit window last now ip log h le =
    elim (Bool-cases (leb limit (passed window now ip log))) [
      | inl e ↦ rw e (λ t j after_now. h t j (omega arith))
      | inr e ↦ rw e (snoc-IsWithin limit window last now ip log h le (ground arith))
    ]

-- The time of the last call.
abbrev pub end_of : ℕ → Calls → ℕ
end_of last [] = last
end_of last ((now, ip) ∷ calls) = end_of now calls

allow-log :
    (limit window now last ip : ℕ) (rl : RateLimiter) (log : Log)
    → rl.limit ≡ limit
    → rl.window ≡ window
    → last ≤ now
    → Follows rl last log
    → (if (allow now ip rl).0 then log ++ ((ip, now) ∷ []) else log)
      ≡ (ideal limit window now ip log).1
allow-log limit window now last ip rl log l w le f =
    rw (allow-ideal now last ip rl log le f, l, w) (sym (ideal-log limit window now ip log))

let_through-keeps :
    (limit window : ℕ) (calls : Calls) (last : ℕ) (rl : RateLimiter) (log : Log)
    → rl.limit ≡ limit
    → rl.window ≡ window
    → IsTimed last calls
    → Follows rl last log
    → IsWithin limit window last log
    → IsWithin limit window (end_of last calls) (let_through calls rl log)
unfolding let_through
let_through-keeps limit window [] last rl log le we h f w = w
let_through-keeps limit window ((now, ip) ∷ calls) last rl log le we (t, h) f w =
    rw (allow-log limit window now last ip rl log le we t f) (
      let_through-keeps limit window calls now (allow now ip rl).1 (ideal limit window now ip log).1
        ((allow_same now ip rl).1 ∙ le) ((allow_same now ip rl).0 ∙ we) h
        (subst (λ l. Follows (allow now ip rl).1 now (ideal l window now ip log).1) le
          (subst (λ v. Follows (allow now ip rl).1 now (ideal rl.limit v now ip log).1) we
            (allow-Follows now last ip rl log t f)))
        (ideal-IsWithin limit window last now ip log w t))

-- Over any calls that come in the order of their times, no address has more requests let through
-- than the limit in the minute before the last call or before any later time.
pub let_through-IsWithin :
    (calls : Calls) (start limit : ℕ)
    → IsTimed start calls
    → IsWithin limit minute
        (end_of start calls)
        (let_through calls (new_rate_limiter start limit) [])
unfolding new_rate_limiter log_of after
let_through-IsWithin calls start limit h =
    let_through-keeps limit minute calls start (new_rate_limiter start limit) [] refl refl h
      (Follows-new start limit) (λ now ip le. ground arith)
