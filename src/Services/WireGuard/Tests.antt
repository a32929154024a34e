-- ===== src/Services/WireGuard/Tests.antt =====
-- backend/internal/services/wireguard_validate.go and wireguard_alloc.go: a subnet of eight addresses.
use tikman.Prelude.{none, ℕ, ◌≤◌, ◌≡◌, refl, arith, false, ◌&&◌, some, List, [], ◌∷◌, inl, inr}
use tikman.Prelude.Int.{pos}
use tikman.Prelude.Text.{Text, codes, digits, format}
use tikman.Netflow.Addr.{v4, Prefix, contains}
use tikman.Services.WireGuard.{
  Cidr, PeerNetwork, allocate_tunnel_address, first_free, allocated, ip_string, dotted, bytes_of,
  validate_allowed_ips, parse_networks, any_overlap, reject_overlap_with, reject_overlap_with_peer,
  reject_overlap_with_peers, used_by_site, validate_keepalive, keepalive_range, next_ip,
}
use tikman.Prelude.Sort.{sort_by, insert_by}
use tikman.Services.WireGuard.Suggest.{suggest_allowed_ips, seen_subnets, text_before}
use tikman.Services.WireGuard.Lowest.{subnet}
use tikman.Services.WireGuard.Allowed.{parsed_of, networks_of}
use tikman.Services.WireGuard.Apart.{validate_allowed_ips-apart}
use tikman.Services.WireGuard.Allocated.{IsAllocated, allocate_tunnel_address-IsAllocated}

-- 10.8.0.0
abbrev base : ℕ
base = 168296448

abbrev taken : List Text
taken = codes "10.8.0.2" ∷ codes "10.8.0.4" ∷ []

third_is_free :
    allocate_tunnel_address base 29 (codes "10.8.0.1") taken ≡ allocated (codes "10.8.0.3")
unfolding allocate_tunnel_address first_free ip_string dotted bytes_of digits format
third_is_free = refl

carries : (next_ip (10 ∷ 8 ∷ 0 ∷ 255 ∷ [])).0 ≡ 10 ∷ 8 ∷ 1 ∷ 0 ∷ []
unfolding next_ip
carries = refl

two_subnets :
    suggest_allowed_ips
      (some (v4 3232238339) ∷ none ∷ some (v4 3232238090) ∷ some (v4 3232238340) ∷ [])
    ≡ codes "192.168.10.0/24" ∷ codes "192.168.11.0/24" ∷ []
unfolding suggest_allowed_ips seen_subnets ip_string dotted bytes_of digits format sort_by insert_by
    text_before
two_subnets = refl

too_long : validate_keepalive (pos 121) ≡ some keepalive_range
unfolding validate_keepalive
too_long = refl

abbrev tunnel : Cidr
tunnel = record { text = codes "10.8.0.0/29"; network = some (subnet base 29) }

-- 192.168.10.0/24
abbrev first_site : Cidr
first_site = record { text = codes "192.168.10.0/24"; network = some (subnet 3232238080 24) }

-- 192.168.11.0/24
abbrev second_site : Cidr
second_site = record { text = codes "192.168.11.0/24"; network = some (subnet 3232238336 24) }

abbrev other_site : PeerNetwork
other_site = record { peer_id = 1; site_name = codes "Utara"; allowed_ips = first_site ∷ [] }

used_already :
    validate_allowed_ips (first_site ∷ []) (other_site ∷ []) tunnel [] ≡ some used_by_site
unfolding validate_allowed_ips parse_networks any_overlap reject_overlap_with
    reject_overlap_with_peer reject_overlap_with_peers
used_already = refl

validate_allowed_ips-apart_example :
    (p : Prefix) × (second_site.network ≡ some p)
    × (1 ≤ p.bits)
    × ((contains p (v4 3232238090) && contains (subnet 3232238080 24) (v4 3232238090)) ≡ false)
unfolding validate_allowed_ips parse_networks any_overlap reject_overlap_with
    reject_overlap_with_peer reject_overlap_with_peers parsed_of networks_of
validate_allowed_ips-apart_example =
    validate_allowed_ips-apart (second_site ∷ []) (other_site ∷ []) tunnel [] second_site
      (subnet 3232238080 24) (v4 3232238090) refl (inl refl) (ground arith) (inr (inl refl))
      (ground arith)

allocate_tunnel_address-IsAllocated_example :
    IsAllocated base 29
      (codes "10.8.0.1")
      taken
      (allocate_tunnel_address base 29 (codes "10.8.0.1") taken)
allocate_tunnel_address-IsAllocated_example =
    allocate_tunnel_address-IsAllocated base 29 (codes "10.8.0.1") taken
      (record { masked = refl; fits = ground arith })
