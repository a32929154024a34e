-- ===== src/Services/WireGuard.antt =====
-- backend/internal/services/wireguard_validate.go and wireguard_alloc.go: the networks and the tunnel
-- address of a site. A string that is parsed stands with what net.ParseCIDR or net.ParseIP makes of it;
-- `Contains` is that of Netflow.Addr, and the tunnel's subnet is an IPv4 network. No network is of the
-- IPv4-mapped form of IPv6 (`::ffff:10.0.0.0/104`), which package net takes for an IPv4 one.
pub mod Disjoint
pub mod Names
pub mod Suggest
pub mod Allowed
pub mod Apart
pub mod Lowest
pub mod Allocated
mod Tests
use tikman.Prelude.{
  ℕ, zero, suc, ◌+◌, ◌-◌, ◌*◌, ◌/◌, ◌%◌, ◌^◌, Bool, true, false, not, ◌&&◌, ◌||◌, Option, none,
  some, List, [], ◌∷◌, ltb, nat_beq, if◌then◌else◌, ◌==◌,
}
use tikman.Prelude.Bytes.{Bytes, bytes_eq}
use tikman.Prelude.Int.{ℤ, pos, ltb_int}
use tikman.Prelude.Text.{Text, codes, digits, format}
use tikman.Netflow.Addr.{Addr, v4, Prefix, contains}

pub record Cidr : Type 0 where
  pub text : Text
  pub network : Option Prefix

pub record PeerNetwork : Type 0 where
  pub peer_id : ℕ
  pub site_name : Text
  pub allowed_ips : List Cidr

-- The errors, all of which are `ErrValidation`.
pub data Invalid : Type 0 where
  no_subnet : Invalid
  not_a_subnet : Invalid
  default_route : Invalid
  overlaps_subnet : Invalid
  used_by_site : Invalid
  not_an_address : Invalid
  outside_subnet : Invalid
  server_address_taken : Invalid
  already_assigned : Invalid
  keepalive_range : Invalid

pub data Networks : Type 0 where
  malformed : Invalid → Networks
  networks : List Prefix → Networks

-- A prefix of no bits is a default route.
abbrev pub add_network : Prefix → Networks → Networks
add_network p (malformed e) = if nat_beq p.bits 0 then malformed default_route else malformed e
add_network p (networks ps) =
    if nat_beq p.bits 0 then malformed default_route else networks (p ∷ ps)

unfoldable pub parse_networks : List Cidr → Networks
parse_networks [] = networks []
parse_networks (entry ∷ candidate) =
    let rest = parse_networks candidate in
    elim entry.network [ none ↦ malformed not_a_subnet | some p ↦ add_network p rest ]

abbrev pub networks_overlap : Prefix → Prefix → Bool
networks_overlap a b = contains a b.addr || contains b a.addr

unfoldable pub any_overlap : List Prefix → Prefix → Bool
any_overlap [] network = false
any_overlap (own ∷ candidate) network =
    networks_overlap own network || any_overlap candidate network

unfoldable pub reject_overlap_with : List Prefix → List Cidr → Option Invalid
reject_overlap_with candidate [] = none
reject_overlap_with candidate (subnet ∷ subnets) =
    let rest = reject_overlap_with candidate subnets in
    elim subnet.network [
      | none ↦ some not_a_subnet
      | some p ↦ if any_overlap candidate p then some overlaps_subnet else rest
    ]

-- A stored value that does not parse is passed over.
unfoldable pub reject_overlap_with_peer : List Prefix → List Cidr → Option Invalid
reject_overlap_with_peer candidate [] = none
reject_overlap_with_peer candidate (entry ∷ entries) =
    let rest = reject_overlap_with_peer candidate entries in
    elim entry.network [
      | none ↦ rest
      | some p ↦ if any_overlap candidate p then some used_by_site else rest
    ]

abbrev pub or_else : Option Invalid → Option Invalid → Option Invalid
or_else (some e) rest = some e
or_else none rest = rest

unfoldable pub reject_overlap_with_peers : List Prefix → List PeerNetwork → Option Invalid
reject_overlap_with_peers candidate [] = none
reject_overlap_with_peers candidate (other ∷ others) =
    or_else (reject_overlap_with_peer candidate other.allowed_ips)
      (reject_overlap_with_peers candidate others)

unfoldable pub validate_allowed_ips :
    List Cidr → List PeerNetwork → Cidr → List Cidr → Option Invalid
validate_allowed_ips [] others tunnel reserved = some no_subnet
validate_allowed_ips (entry ∷ candidate) others tunnel reserved =
    elim (parse_networks (entry ∷ candidate)) [
      | malformed e ↦ some e
      | networks ps ↦
          or_else (reject_overlap_with ps (tunnel ∷ []))
            (or_else (reject_overlap_with ps reserved) (reject_overlap_with_peers ps others))
    ]

abbrev pub is_taken : Text → List Text → Bool
is_taken address [] = false
is_taken address (used ∷ taken) = (used == address) || is_taken address taken

unfoldable pub validate_tunnel_address :
    Text → Option Addr → Option Prefix → Text → List Text → Option Invalid
validate_tunnel_address address none network server taken = some not_an_address
validate_tunnel_address address (some ip) none server taken = some not_a_subnet
validate_tunnel_address address (some ip) (some network) server taken =
    if not (contains network ip)
    then some outside_subnet
    else if address == server
    then some server_address_taken
    else if is_taken address taken
    then some already_assigned
    else none

abbrev pub min_keepalive_seconds : ℕ
min_keepalive_seconds = 10

abbrev pub max_keepalive_seconds : ℕ
max_keepalive_seconds = 120

unfoldable pub validate_keepalive : ℤ → Option Invalid
validate_keepalive seconds =
    if ltb_int seconds (pos min_keepalive_seconds) || ltb_int (pos max_keepalive_seconds) seconds
    then some keepalive_range
    else none

-- The bytes of the next address, and whether all of them came round to zero.
unfoldable pub next_ip : Bytes → Bytes × Bool
next_ip [] = ([], true)
next_ip (b ∷ bs) =
    let (rest, carry) = next_ip bs in
    if carry then ((b + 1) % 256 ∷ rest, nat_beq ((b + 1) % 256) 0) else (b ∷ rest, false)

unfoldable pub bytes_of : ℕ → Bytes
bytes_of n = n / 16777216 ∷ n / 65536 % 256 ∷ n / 256 % 256 ∷ n % 256 ∷ []

abbrev pub next_address : ℕ → ℕ
next_address n = (n + 1) % 2 ^ 32

-- `IP.String` of an IPv4 address.
unfoldable pub dotted : Bytes → List Text
dotted [] = []
dotted (b ∷ []) = digits b b ∷ []
dotted (b ∷ c ∷ bs) = digits b b ∷ codes "." ∷ dotted (c ∷ bs)

unfoldable pub ip_string : ℕ → Text
ip_string n = format (dotted (bytes_of n))

-- The last address of the network: all bits behind the prefix are set.
abbrev pub broadcast : ℕ → ℕ → ℕ
broadcast base bits = base + (2 ^ (32 - bits) - 1)

abbrev pub is_used : Text → List Text → ℕ → Bool
is_used server taken n = (server == ip_string n) || is_taken (ip_string n) taken

-- `out_of_rounds` is no outcome of the code.
pub data Allocation : Type 0 where
  allocated : Text → Allocation
  no_free_address : Allocation
  out_of_rounds : Allocation

unfoldable pub first_free : ℕ → ℕ → ℕ → Text → List Text → ℕ → Allocation
first_free zero base bits server taken candidate = out_of_rounds
first_free (suc n) base bits server taken candidate =
    let rest = first_free n base bits server taken (next_address candidate) in
    if not (contains (record { addr = v4 base; bits = bits }) (v4 candidate))
    then no_free_address
    else if nat_beq candidate (broadcast base bits)
    then no_free_address
    else if not (is_used server taken candidate)
    then allocated (ip_string candidate)
    else rest

-- The loop has no more rounds than the network has addresses.
unfoldable pub allocate_tunnel_address : ℕ → ℕ → Text → List Text → Allocation
allocate_tunnel_address base bits server taken =
    first_free (2 ^ (32 - bits)) base bits server taken (next_address base)
