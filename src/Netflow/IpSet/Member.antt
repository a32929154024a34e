-- ===== src/Netflow/IpSet/Member.antt =====
-- backend/internal/netflow/ipset.go: the set beside a scan of its networks.
use tikman.Prelude.{
  ℕ, ◌+◌, ◌-◌, ◌*◌, ◌/◌, ◌%◌, ◌^◌, ◌≤◌, ◌<◌, ◌≡◌, refl, sym, ap, ◌∙◌, arith, Bool, false, ◌||◌,
  ◌&&◌, List, [], ◌∷◌, map, leb, nat_beq, All, bit_or,
}
use mathlib.Core.Path.{subst}
use native.Mathlib.Nat.{
  le-div_iff_mul-le, div-lt_iff_lt-mul, div-mul-le_self, add-mul, pow-le-pow_right,
}
use tikman.Prelude.Bits.{or_low}
use tikman.Prelude.Spans.{within, find_span-any_within}
use tikman.Netflow.Addr.{Addr, v4, Prefix, contains}
use tikman.Netflow.IpSet.{Ipv4Range, merge_ranges, ip_set_of, contains_ip, prefix_range}
use tikman.Netflow.IpSet.Merge.{IsWord, holds_in, merge_ranges_lem}

-- A network of IPv4, as `ParseIPSet` lets it in.
abbrev pub IsNetwork : Prefix → Type 0
IsNetwork p = (n : ℕ) × (p.addr ≡ v4 n) × IsWord n × (p.bits ≤ 32)

abbrev pub some_contains : List Prefix → Addr → Bool
some_contains [] ip = false
some_contains (p ∷ prefixes) ip = contains p ip || some_contains prefixes ip

-- The numbers of one quotient by `m` are those from its multiple on, up to the last before the next.
pub same_quotient :
    (m a v : ℕ)
    → 0 < m
    → (leb (a / m * m) v && leb v (a / m * m + (m - 1))) ≡ nat_beq (a / m) (v / m)
same_quotient m a v h =
    let low = le-div_iff_mul-le {k = m} {x = a / m} {y = v} h in
    let high = div-lt_iff_lt-mul {k = m} {x = v} {y = a / m + 1} h in
    ground (arith, low.0, low.1, high.0, high.1, add-mul (a / m) 1 m)

-- The size of a network, and the bits that Go computes for its last address.
pub size-between : (bits : ℕ) → (1 ≤ 2 ^ (32 - bits)) × (2 ^ (32 - bits) ≤ 2 ^ 32)
size-between bits = (
  pow-le-pow_right {n = 2} (omega arith) {i = 0} {j = 32 - bits} (omega arith),
  pow-le-pow_right {n = 2} (omega arith) {i = 32 - bits} {j = 32} (omega arith),
)

host_bits : (m : ℕ) → 1 ≤ m → m ≤ 2 ^ 32 → (m % 2 ^ 32 + (2 ^ 32 - 1)) % 2 ^ 32 ≡ m - 1
host_bits m h k = omega arith

prefix_range-start :
    (n b : ℕ)
    → (prefix_range (record { addr = v4 n; bits = b })).start ≡ n / 2 ^ (32 - b) * 2 ^ (32 - b)
unfolding prefix_range
prefix_range-start n b = refl

prefix_range-end :
    (n b : ℕ)
    → (prefix_range (record { addr = v4 n; bits = b })).end
      ≡ n / 2 ^ (32 - b) * 2 ^ (32 - b) + (2 ^ (32 - b) - 1)
unfolding prefix_range
prefix_range-end n b =
    let (h, k) = size-between b in
    ap (bit_or (n / 2 ^ (32 - b) * 2 ^ (32 - b))) (host_bits (2 ^ (32 - b)) h k)
    ∙ or_low (32 - b) (2 ^ (32 - b) - 1) (n / 2 ^ (32 - b)) (omega arith)

v4_range-contains :
    (n b v : ℕ)
    → within Ipv4Range.start Ipv4Range.end v (prefix_range (record { addr = v4 n; bits = b }))
      ≡ contains (record { addr = v4 n; bits = b }) (v4 v)
v4_range-contains n b v =
    let (h, k) = size-between b in
    rw (prefix_range-start n b, prefix_range-end n b)
      (same_quotient (2 ^ (32 - b)) n v (omega arith))

range-contains :
    (p : Prefix) (v : ℕ)
    → IsNetwork p
    → within Ipv4Range.start Ipv4Range.end v (prefix_range p) ≡ contains p (v4 v)
range-contains p v (n, e, w, b) =
    subst
      (λ a.
        within Ipv4Range.start Ipv4Range.end v (prefix_range (record { addr = a; bits = p.bits }))
        ≡ contains (record { addr = a; bits = p.bits }) (v4 v))
      (sym e) (v4_range-contains n p.bits v)

ranges-contain :
    (v : ℕ) (prefixes : List Prefix)
    → All IsNetwork prefixes
    → holds_in v (map prefix_range prefixes) ≡ some_contains prefixes (v4 v)
ranges-contain v [] h = refl
ranges-contain v (p ∷ prefixes) (h, hs) =
    ap (λ b. b || holds_in v (map prefix_range prefixes)) (range-contains p v h)
    ∙ ap (λ b. contains p (v4 v) || b) (ranges-contain v prefixes hs)

range-IsWord : (p : Prefix) → IsNetwork p → IsWord (prefix_range p).start
unfolding prefix_range
range-IsWord p (n, e, w, b) = rw e (ground (arith, div-mul-le_self n (2 ^ (32 - p.bits)), w))

ranges-IsWord :
    (prefixes : List Prefix)
    → All IsNetwork prefixes
    → All (λ r. IsWord r.start) (map prefix_range prefixes)
ranges-IsWord [] h = tt
ranges-IsWord (p ∷ prefixes) (h, hs) = (range-IsWord p h, ranges-IsWord prefixes hs)

-- The set that a list of IPv4 networks gives finds an IPv4 address where one of the networks holds it,
-- and nowhere else, in whatever order the networks come and however they overlap.
pub contains_ip-some_contains :
    (prefixes : List Prefix) (v : ℕ)
    → All IsNetwork prefixes
    → contains_ip (ip_set_of prefixes) (v4 v) ≡ some_contains prefixes (v4 v)
unfolding contains_ip ip_set_of
contains_ip-some_contains [] v h = refl
contains_ip-some_contains (p ∷ prefixes) v h =
    let (apart, same) =
      merge_ranges_lem v (map prefix_range (p ∷ prefixes)) (ranges-IsWord (p ∷ prefixes) h) in
    find_span-any_within Ipv4Range.start Ipv4Range.end v
      (merge_ranges (map prefix_range (p ∷ prefixes))) apart
    ∙ same
    ∙ ranges-contain v (p ∷ prefixes) h
