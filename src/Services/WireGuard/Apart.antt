-- ===== src/Services/WireGuard/Apart.antt =====
-- backend/internal/services/wireguard_validate.go: `ValidateAllowedIPs`.
use tikman.Prelude.{
  ◌≤◌, ◌≡◌, refl, arith, false, ◌&&◌, Option, none, some, List, [], ◌∷◌, ◌++◌, inl, inr, Bool-cases,
}
use mathlib.Core.Path.{subst}
use tikman.Prelude.Sort.{In}
use tikman.Netflow.Addr.{Addr, Prefix, bit_len, contains}
use tikman.Services.WireGuard.{
  Cidr, PeerNetwork, Networks, malformed, networks, parse_networks, networks_overlap, any_overlap,
  reject_overlap_with, reject_overlap_with_peers, or_else, validate_allowed_ips,
}
use tikman.Services.WireGuard.Disjoint.{shared-networks_overlap}
use tikman.Services.WireGuard.Allowed.{
  parsed_of, networks_of, blocked, In-split, or_else-none, any_overlap-In, reject_overlap_with-In,
  reject_overlap_with_peers-In, parse_networks-IsParsed, IsParsed,
}

-- What the parser gives has no more bits than its address.
abbrev pub Fits : Option Prefix → Type 0
Fits none = Unit
Fits (some p) = p.bits ≤ bit_len p.addr

blocked-any_overlap :
    (ps : List Prefix) (q : Prefix) (others : List PeerNetwork) (tunnel : Cidr)
    (reserved : List Cidr)
    → or_else
        (reject_overlap_with ps (tunnel ∷ []))
        (or_else (reject_overlap_with ps reserved) (reject_overlap_with_peers ps others))
      ≡ none
    → In q (blocked tunnel reserved others)
    → any_overlap ps q ≡ false
blocked-any_overlap ps q others tunnel reserved h i =
    let (first, more) = or_else-none _ _ h in
    let (second, third) = or_else-none _ _ more in
    elim (In-split q (parsed_of (tunnel ∷ [])) (parsed_of reserved ++ networks_of others) i) [
      | inl j ↦ reject_overlap_with-In ps q (tunnel ∷ []) first j
      | inr j ↦ elim (In-split q (parsed_of reserved) (networks_of others) j) [
        | inl k ↦ reject_overlap_with-In ps q reserved second k
        | inr k ↦ reject_overlap_with_peers-In ps q others third k
      ]
    ]

-- The networks that were checked.
accepted :
    (candidate : List Cidr) (others : List PeerNetwork) (tunnel : Cidr) (reserved : List Cidr)
    → validate_allowed_ips candidate others tunnel reserved ≡ none
    → (ps : List Prefix) × (parse_networks candidate ≡ networks ps)
      × (or_else
            (reject_overlap_with ps (tunnel ∷ []))
            (or_else (reject_overlap_with ps reserved) (reject_overlap_with_peers ps others))
          ≡ none)
unfolding validate_allowed_ips
accepted [] others tunnel reserved h = absurd (ground arith)
accepted (entry ∷ candidate) others tunnel reserved h =
    given (parse_networks (entry ∷ candidate)) refl h
  where
    given :
        (n : Networks)
        → parse_networks (entry ∷ candidate) ≡ n
        → elim n [
          | malformed e ↦ some e
          | networks ps ↦
              or_else
                (reject_overlap_with ps (tunnel ∷ []))
                (or_else (reject_overlap_with ps reserved) (reject_overlap_with_peers ps others))
        ]
          ≡ none
        → (ps : List Prefix) × (parse_networks (entry ∷ candidate) ≡ networks ps)
          × (or_else
                (reject_overlap_with ps (tunnel ∷ []))
                (or_else (reject_overlap_with ps reserved) (reject_overlap_with_peers ps others))
              ≡ none)
    given (malformed e) q k = absurd (ground arith)
    given (networks ps) q k = (ps, q, k)

apart :
    (p q : Prefix) (a : Addr)
    → p.bits ≤ bit_len p.addr
    → q.bits ≤ bit_len q.addr
    → networks_overlap p q ≡ false
    → (contains p a && contains q a) ≡ false
apart p q a fp fq h = elim (Bool-cases (contains p a)) [
  | inr n ↦ rw n refl
  | inl y ↦ elim (Bool-cases (contains q a)) [
    | inr m ↦ rw (y, m) refl
    | inl z ↦ absurd (ground (arith, h, shared-networks_overlap p q a fp fq y z))
  ]
]

-- Where `ValidateAllowedIPs` answers with no error, every subnet of the site parses, is no default
-- route, and has no address in common with the tunnel's subnet, a reserved subnet, or any subnet of
-- another site: no address is routed to two places. The parser's networks are taken to have no more
-- bits than their addresses.
pub validate_allowed_ips-apart :
    (candidate : List Cidr) (others : List PeerNetwork) (tunnel : Cidr) (reserved : List Cidr)
    (entry : Cidr) (q : Prefix) (a : Addr)
    → validate_allowed_ips candidate others tunnel reserved ≡ none
    → In entry candidate
    → Fits entry.network
    → In q (blocked tunnel reserved others)
    → Fits (some q)
    → (p : Prefix) × (entry.network ≡ some p)
      × (1 ≤ p.bits)
      × ((contains p a && contains q a) ≡ false)
unfolding IsParsed
validate_allowed_ips-apart candidate others tunnel reserved entry q a h i fits j fq =
    let (ps, parsed, rest) = accepted candidate others tunnel reserved h in
    let (p, e, bits, k) = parse_networks-IsParsed entry candidate ps parsed i in
    (
      p,
      e,
      bits,
      apart p q a (subst Fits e fits) fq
          (any_overlap-In p q ps (blocked-any_overlap ps q others tunnel reserved rest j) k),
    )
