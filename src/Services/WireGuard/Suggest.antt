-- ===== src/Services/WireGuard/Suggest.antt =====
-- backend/internal/services/wireguard_alloc.go: `SuggestAllowedIPs`. An address stands as what
-- net.ParseIP makes of it. The set `seen` is a list without repetition: sorting does away with its order.
use tikman.Prelude.{
  ℕ, ◌*◌, ◌/◌, Bool, true, false, Option, none, some, List, [], ◌∷◌, ltb, nat_beq, if◌then◌else◌,
}
use tikman.Prelude.Sort.{sort_by}
use tikman.Prelude.Text.{Text, codes, format}
use tikman.Netflow.Addr.{Addr, unset, v4, v6}
use tikman.Services.WireGuard.{is_taken, ip_string}

-- `ip.Mask(net.CIDRMask(24, 32))`.
abbrev pub masked_24 : ℕ → ℕ
masked_24 n = n / 256 * 256

abbrev pub add_seen : Text → List Text → List Text
add_seen subnet seen = if is_taken subnet seen then seen else subnet ∷ seen

unfoldable pub seen_subnets : List (Option Addr) → List Text
seen_subnets [] = []
seen_subnets (none ∷ addresses) = seen_subnets addresses
seen_subnets (some unset ∷ addresses) = seen_subnets addresses
seen_subnets (some (v4 n) ∷ addresses) =
    add_seen (format (ip_string (masked_24 n) ∷ codes "/24" ∷ [])) (seen_subnets addresses)
seen_subnets (some (v6 n) ∷ addresses) = seen_subnets addresses

-- The order of `sort.Strings`.
unfoldable pub text_before : Text → Text → Bool
text_before s [] = false
text_before [] (d ∷ t) = true
text_before (c ∷ s) (d ∷ t) = let rest = text_before s t in if nat_beq c d then rest else ltb c d

unfoldable pub suggest_allowed_ips : List (Option Addr) → List Text
suggest_allowed_ips addresses = sort_by text_before (seen_subnets addresses)
