-- ===== src/Services/WireGuard/Allowed.antt =====
-- backend/internal/services/wireguard_validate.go: what the checks of `ValidateAllowedIPs` reject.
use tikman.Prelude.{
  check-none, ◌≤◌, ◌≡◌, ◌⊎◌, refl, sym, ◌∙◌, ap, arith, false, Option, none, some, List, [], ◌∷◌,
  ◌++◌, nat_beq, if◌then◌else◌, inl, inr, Bool-cases, Option-cases,
}
use mathlib.Core.Path.{subst}
use tikman.Prelude.Sort.{In}
use tikman.Netflow.Addr.{Prefix}
use tikman.Services.WireGuard.{
  Cidr, PeerNetwork, Invalid, Networks, malformed, networks, add_network, parse_networks,
  networks_overlap, any_overlap, reject_overlap_with, reject_overlap_with_peer,
  reject_overlap_with_peers, or_else, not_a_subnet, overlaps_subnet, used_by_site,
}

-- The networks among parsed strings.
unfoldable pub parsed_of : List Cidr → List Prefix
parsed_of [] = []
parsed_of (entry ∷ entries) =
    let rest = parsed_of entries in elim entry.network [ none ↦ rest | some p ↦ p ∷ rest ]

unfoldable pub networks_of : List PeerNetwork → List Prefix
networks_of [] = []
networks_of (other ∷ others) = parsed_of other.allowed_ips ++ networks_of others

-- The networks that a site may not claim.
abbrev pub blocked : Cidr → List Cidr → List PeerNetwork → List Prefix
blocked tunnel reserved others =
    parsed_of (tunnel ∷ []) ++ (parsed_of reserved ++ networks_of others)

pub In-split : {A : Type 0} (a : A) (l m : List A) → In a (l ++ m) → In a l ⊎ In a m
In-split a [] m i = inr i
In-split a (x ∷ xs) m (inl e) = inl (inl e)
In-split a (x ∷ xs) m (inr i) = elim (In-split a xs m i) [ inl j ↦ inl (inr j) | inr k ↦ inr k ]

pub or_else-none : (o rest : Option Invalid) → or_else o rest ≡ none → (o ≡ none) × (rest ≡ none)
or_else-none (some e) rest h = absurd (ground arith)
or_else-none none rest h = (refl, h)

pub any_overlap-In :
    (p q : Prefix) (candidate : List Prefix)
    → any_overlap candidate q ≡ false
    → In p candidate
    → networks_overlap p q ≡ false
unfolding any_overlap
any_overlap-In p q [] h i = absurd i
any_overlap-In p q (own ∷ candidate) h (inl e) =
    subst (λ x. networks_overlap x q ≡ false) e (ground (arith, h))
any_overlap-In p q (own ∷ candidate) h (inr i) = any_overlap-In p q candidate (ground (arith, h)) i

-- One string against the candidates: what comes first, and what is left to the rest.
step-In :
    (candidate : List Prefix) (q : Prefix) (o : Option Prefix) (missing rest : Option Invalid)
    (e : Invalid) (more : List Prefix)
    → (missing ≡ none → rest ≡ none)
    → elim o [ none ↦ missing | some p ↦ if any_overlap candidate p then some e else rest ] ≡ none
    → In q (elim o [ none ↦ more | some p ↦ p ∷ more ])
    → (rest ≡ none → In q more → any_overlap candidate q ≡ false)
    → any_overlap candidate q ≡ false
step-In candidate q none missing rest e more skip k j next = next (skip k) j
step-In candidate q (some p) missing rest e more skip k (inl same) next =
    subst (λ x. any_overlap candidate x ≡ false) same ((check-none _ _ _).0 k).0
step-In candidate q (some p) missing rest e more skip k (inr j) next =
    next ((check-none _ _ _).0 k).1 j

pub reject_overlap_with-In :
    (candidate : List Prefix) (q : Prefix) (subnets : List Cidr)
    → reject_overlap_with candidate subnets ≡ none
    → In q (parsed_of subnets)
    → any_overlap candidate q ≡ false
unfolding reject_overlap_with parsed_of
reject_overlap_with-In candidate q [] h i = absurd i
reject_overlap_with-In candidate q (subnet ∷ subnets) h i =
    step-In candidate q subnet.network (some not_a_subnet) (reject_overlap_with candidate subnets)
      overlaps_subnet (parsed_of subnets) (λ e. absurd (ground arith)) h i
      (λ k j. reject_overlap_with-In candidate q subnets k j)

reject_overlap_with_peer-In :
    (candidate : List Prefix) (q : Prefix) (entries : List Cidr)
    → reject_overlap_with_peer candidate entries ≡ none
    → In q (parsed_of entries)
    → any_overlap candidate q ≡ false
unfolding reject_overlap_with_peer parsed_of
reject_overlap_with_peer-In candidate q [] h i = absurd i
reject_overlap_with_peer-In candidate q (entry ∷ entries) h i =
    step-In candidate q entry.network (reject_overlap_with_peer candidate entries)
      (reject_overlap_with_peer candidate entries) used_by_site (parsed_of entries) (λ e. e) h i
      (λ k j. reject_overlap_with_peer-In candidate q entries k j)

pub reject_overlap_with_peers-In :
    (candidate : List Prefix) (q : Prefix) (others : List PeerNetwork)
    → reject_overlap_with_peers candidate others ≡ none
    → In q (networks_of others)
    → any_overlap candidate q ≡ false
unfolding reject_overlap_with_peers networks_of
reject_overlap_with_peers-In candidate q [] h i = absurd i
reject_overlap_with_peers-In candidate q (other ∷ others) h i =
    let (first, rest) = or_else-none _ _ h in
    elim (In-split q (parsed_of other.allowed_ips) (networks_of others) i) [
      | inl j ↦ reject_overlap_with_peer-In candidate q other.allowed_ips first j
      | inr j ↦ reject_overlap_with_peers-In candidate q others rest j
    ]

-- The networks of candidates that parse, none of which is a default route.
add_network-networks :
    (p : Prefix) (n : Networks) (ps : List Prefix)
    → add_network p n ≡ networks ps
    → (1 ≤ p.bits) × ((rest : List Prefix) × (n ≡ networks rest) × (ps ≡ p ∷ rest))
add_network-networks p (malformed e) ps h = elim (Bool-cases (nat_beq p.bits 0)) [
  | inl z ↦ absurd (ground (arith, h, z))
  | inr z ↦ absurd (ground (arith, h, z))
]
add_network-networks p (networks rest) ps h = elim (Bool-cases (nat_beq p.bits 0)) [
  | inl z ↦ absurd (ground (arith, h, z))
  | inr z ↦ (ground (arith, z), (rest, refl, ground (arith, h, z)))
]

unfoldable pub IsParsed : List Prefix → Cidr → Type 0
IsParsed ps entry = (p : Prefix) × (entry.network ≡ some p) × (1 ≤ p.bits) × In p ps

pub parse_networks-IsParsed :
    (entry : Cidr) (candidate : List Cidr) (ps : List Prefix)
    → parse_networks candidate ≡ networks ps
    → In entry candidate
    → IsParsed ps entry
unfolding parse_networks IsParsed
parse_networks-IsParsed entry [] ps h i = absurd i
parse_networks-IsParsed entry (c ∷ candidate) ps h i = elim (Option-cases c.network) [
  | inl e ↦ absurd (
      ground (
        arith,
        subst
            (λ o.
              elim o [
                | none ↦ malformed not_a_subnet
                | some p ↦ add_network p (parse_networks candidate)
              ]
              ≡ networks ps)
            e h,
      ))
  | inr (p, e) ↦
      let step : add_network p (parse_networks candidate) ≡ networks ps =
        subst
          (λ o.
            elim o [
              | none ↦ malformed not_a_subnet
              | some p ↦ add_network p (parse_networks candidate)
            ]
            ≡ networks ps)
          e h in
      let (bits, (rest, q, same)) = add_network-networks p (parse_networks candidate) ps step in
      elim i [
        | inl this ↦
            (p, ap (λ x. x.network) (sym this) ∙ e, bits, subst (In p) (sym same) (inl refl))
        | inr j ↦
            let (r, er, br, ir) = parse_networks-IsParsed entry candidate rest q j in
            (r, er, br, subst (In r) (sym same) (inr ir))
      ]
]
