-- ===== src/Services/WireGuard/Names.antt =====
-- backend/internal/services/wireguard_validate.go: `ValidateEndpointHost` and `ValidateSiteLabel`. The
-- strings are lists of runes; a host with a rune beyond ASCII is refused, so that its length in bytes
-- does not matter.
pub mod Plain
use tikman.Prelude.{
  ℕ, suc, ◌+◌, ◌-◌, Bool, true, false, not, ◌&&◌, ◌||◌, Option, none, some, List, [], ◌∷◌, ltb, leb,
  nat_beq, if◌then◌else◌, length,
}
use tikman.Prelude.Text.{Text, any_rune, is_ascii_letter, is_ascii_digit, is_empty}
use tikman.Netflow.Addr.{Addr}

pub data BadName : Type 0 where
  not_an_ip_or_hostname : BadName
  not_a_hostname : BadName
  control_in_site_name : BadName

-- `strings.TrimSuffix(host, ".")`.
unfoldable pub trim_dot : Text → Text
trim_dot [] = []
trim_dot (c ∷ []) = if nat_beq c b'.' then [] else c ∷ []
trim_dot (c ∷ d ∷ s) = c ∷ trim_dot (d ∷ s)

abbrev pub put_front : ℕ → List Text → List Text
put_front c [] = (c ∷ []) ∷ []
put_front c (label ∷ labels) = (c ∷ label) ∷ labels

-- `strings.Split(host, ".")`.
unfoldable pub split_dots : Text → List Text
split_dots [] = [] ∷ []
split_dots (c ∷ s) =
    let rest = split_dots s in if nat_beq c b'.' then [] ∷ rest else put_front c rest

abbrev pub is_alnum : ℕ → Bool
is_alnum r = is_ascii_letter r || is_ascii_digit r

-- The runes of a label from the index on; a hyphen is neither the first nor the last.
unfoldable pub label_runes : ℕ → ℕ → Text → Bool
label_runes i len [] = true
label_runes i len (r ∷ s) =
    (is_alnum r || (nat_beq r b'-' && ltb 0 i && ltb i (len - 1))) && label_runes (i + 1) len s

unfoldable pub is_label : Text → Bool
is_label label =
    not (nat_beq (length label) 0 || ltb 63 (length label)) && label_runes 0 (length label) label

unfoldable pub all_labels : List Text → Bool
all_labels [] = true
all_labels (label ∷ labels) = is_label label && all_labels labels

-- The host, with what net.ParseIP makes of it.
unfoldable pub validate_endpoint_host : Text → Option Addr → Option BadName
validate_endpoint_host host (some ip) = none
validate_endpoint_host host none =
    if nat_beq (length host) 0 || ltb 253 (length host)
    then some not_an_ip_or_hostname
    else if all_labels (split_dots (trim_dot host))
    then none
    else some not_a_hostname

unfoldable pub validate_site_label : Text → Option BadName
validate_site_label name =
    if any_rune (λ r. nat_beq r 0x0a || nat_beq r 0x0d || ltb r 0x20 || nat_beq r 0x7f) name
    then some control_in_site_name
    else none
