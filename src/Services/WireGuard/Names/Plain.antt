-- ===== src/Services/WireGuard/Names/Plain.antt =====
-- backend/internal/services/wireguard_validate.go: the runes of a host name.
use tikman.Prelude.{
  ℕ, ◌+◌, ◌≡◌, refl, arith, Bool, true, ◌&&◌, ◌||◌, none, List, [], ◌∷◌, nat_beq, length, inl, inr,
  Bool-cases,
}
use tikman.Prelude.Text.{Text, all_runes}
use tikman.Services.WireGuard.Names.{
  trim_dot, split_dots, put_front, is_alnum, label_runes, is_label, all_labels,
  validate_endpoint_host,
}

-- A letter, a digit, a hyphen or a dot.
abbrev pub is_host_rune : ℕ → Bool
is_host_rune r = is_alnum r || nat_beq r b'-' || nat_beq r b'.'

label_runes-all :
    (i len : ℕ) (label : Text)
    → label_runes i len label ≡ true
    → all_runes is_host_rune label ≡ true
unfolding label_runes all_runes
label_runes-all i len [] h = refl
label_runes-all i len (r ∷ s) h =
    ground (arith, h, label_runes-all (i + 1) len s (ground (arith, h)))

-- Every label is of such runes.
unfoldable all_in : List Text → Bool
all_in [] = true
all_in (label ∷ labels) = all_runes is_host_rune label && all_in labels

all_labels-all_in : (labels : List Text) → all_labels labels ≡ true → all_in labels ≡ true
unfolding all_labels all_in is_label
all_labels-all_in [] h = refl
all_labels-all_in (label ∷ labels) h = ground (
  arith,
  label_runes-all 0 (length label) label (ground (arith, h)),
  all_labels-all_in labels (ground (arith, h)),
)

put_front-all_in :
    (c : ℕ) (labels : List Text)
    → all_in (put_front c labels) ≡ true
    → (is_host_rune c ≡ true) × (all_in labels ≡ true)
unfolding all_in all_runes
put_front-all_in c [] h = (ground (arith, h), refl)
put_front-all_in c (label ∷ labels) h = (ground (arith, h), ground (arith, h))

split_dots-all_in : (s : Text) → all_in (split_dots s) ≡ true → all_runes is_host_rune s ≡ true
unfolding split_dots all_in all_runes
split_dots-all_in [] h = refl
split_dots-all_in (c ∷ s) h = elim (Bool-cases (nat_beq c b'.')) [
  | inl dot ↦ ground (arith, dot, h, split_dots-all_in s (ground (arith, dot, h)))
  | inr other ↦
      let (front, rest) = put_front-all_in c (split_dots s) (ground (arith, other, h)) in
      ground (arith, front, split_dots-all_in s rest)
]

trim_dot-runes :
    (s : Text) → all_runes is_host_rune (trim_dot s) ≡ true → all_runes is_host_rune s ≡ true
unfolding trim_dot all_runes
trim_dot-runes [] h = refl
trim_dot-runes (c ∷ []) h = ground (arith, h)
trim_dot-runes (c ∷ d ∷ s) h = ground (arith, h, trim_dot-runes (d ∷ s) (ground (arith, h)))

-- A host that is no IP address and that `ValidateEndpointHost` accepts consists of ASCII letters,
-- digits, hyphens and dots: nothing that ends a line or separates two commands.
pub validate_endpoint_host-plain :
    (host : Text) → validate_endpoint_host host none ≡ none → all_runes is_host_rune host ≡ true
unfolding validate_endpoint_host
validate_endpoint_host-plain host h =
    let labels : all_labels (split_dots (trim_dot host)) ≡ true = ground (arith, h) in
    trim_dot-runes host (split_dots-all_in (trim_dot host) (all_labels-all_in _ labels))
