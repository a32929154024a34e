-- ===== src/Middleware/RateLimit/Tests.antt =====
-- backend/internal/middleware/rate_limit.go: an address of two requests in a minute.
use tikman.Prelude.{arith, ℕ, ◌≡◌, refl, Bool, true, false, List, [], ◌∷◌}
use tikman.Middleware.RateLimit.{new_rate_limiter, clean, cleanup, after, admit, allow, minute}
use tikman.Middleware.RateLimit.Window.Bound.{
  Calls, serve, ideal_serve, let_through, serve-ideal_serve, let_through-IsWithin, IsWithin,
}

-- Three calls of one address in a minute, one of another, and one behind the clean-up.
abbrev five_calls : Calls
five_calls =
    (100000000000, 7)
    ∷ (100000000001, 7)
    ∷ (100000000002, 7)
    ∷ (100000000002, 8)
    ∷ (500000000000, 7)
    ∷ []

serve-five_calls :
    serve five_calls (new_rate_limiter 100000000000 2) ≡ true ∷ true ∷ false ∷ true ∷ true ∷ []
unfolding serve allow admit cleanup clean after new_rate_limiter tikman.Prelude.Assoc.lookup
    tikman.Prelude.Assoc.put
serve-five_calls = refl

serve-ideal_serve_example :
    serve five_calls (new_rate_limiter 100000000000 2) ≡ ideal_serve 2 minute five_calls []
serve-ideal_serve_example = serve-ideal_serve five_calls 100000000000 2 (ground arith)

let_through-IsWithin_example :
    IsWithin 2 minute 500000000000 (let_through five_calls (new_rate_limiter 100000000000 2) [])
let_through-IsWithin_example = let_through-IsWithin five_calls 100000000000 2 (ground arith)
