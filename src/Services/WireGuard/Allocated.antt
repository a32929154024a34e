-- ===== src/Services/WireGuard/Allocated.antt =====
-- backend/internal/services/wireguard_alloc.go and wireguard_validate.go: an address that is given out
-- beside the check of addresses.
use tikman.Prelude.{
  ℕ, suc, ◌+◌, ◌-◌, ◌^◌, ◌≤◌, ◌<◌, ◌≡◌, refl, sym, ◌∙◌, arith, true, false, none, some, List,
  nat_beq, ◌==◌, inl, inr, Bool-cases, All,
}
use mathlib.Core.Path.{subst}
use tikman.Prelude.Bytes.{bytes_eq, beq_bytes_iff}
use tikman.Prelude.Text.{Text}
use tikman.Netflow.IpSet.Member.{size-between}
use tikman.Netflow.Addr.{v4, contains}
use tikman.Services.WireGuard.{
  validate_tunnel_address, is_taken, next_address, ip_string, broadcast, is_used, Allocation,
  allocated, no_free_address, first_free, allocate_tunnel_address,
}
use tikman.Services.WireGuard.Lowest.{
  IsSubnet, subnet, contains-between, from_on, IsLowest, lowest, full, first_free-IsLowest,
}

beq_text_false : (s t : Text) → (s == t) ≡ false → (t == s) ≡ false
beq_text_false s t h = elim (Bool-cases (t == s)) [
  | inr e ↦ e
  | inl e ↦ absurd (ground (arith, h, (beq_bytes_iff s t).1 (sym ((beq_bytes_iff t s).0 e))))
]

free-passes :
    (base bits n : ℕ) (server : Text) (taken : List Text)
    → IsSubnet base bits
    → base ≤ n
    → n ≤ broadcast base bits
    → is_used server taken n ≡ false
    → validate_tunnel_address (ip_string n) (some (v4 n)) (some (subnet base bits)) server taken
      ≡ none
unfolding validate_tunnel_address
free-passes base bits n server taken s low high free =
    let inside : contains (subnet base bits) (v4 n) ≡ true =
      contains-between base bits n s ∙ ground (arith, low, high) in
    let server_free : (server == ip_string n) ≡ false = ground (arith, free) in
    let taken_free : is_taken (ip_string n) taken ≡ false = ground (arith, free) in
    rw (inside, beq_text_false server (ip_string n) server_free, taken_free) refl

-- An outcome of `AllocateTunnelAddress`, by the check of the address and the addresses below it.
pub data IsAllocated (base bits : ℕ) (server : Text) (taken : List Text) : Allocation → Type 0 where
  given :
      (n : ℕ)
      → (base < n) × (n < broadcast base bits)
      → validate_tunnel_address (ip_string n) (some (v4 n)) (some (subnet base bits)) server taken
        ≡ none
      → All (λ m. is_used server taken m ≡ true) (from_on (base + 1) (n - (base + 1)))
      → IsAllocated base bits server taken (allocated (ip_string n))
  exhausted :
      All
        (λ m. is_used server taken m ≡ true)
        (from_on (base + 1) (broadcast base bits - (base + 1)))
      → IsAllocated base bits server taken no_free_address

lowest-IsAllocated :
    (base bits : ℕ) (server : Text) (taken : List Text) (o : Allocation)
    → IsSubnet base bits
    → IsLowest base bits server taken (base + 1) o
    → IsAllocated base bits server taken o
lowest-IsAllocated base bits server taken _ s (lowest n (le, below) free h) =
    given n (omega (arith, le), below)
      (free-passes base bits n server taken s (omega (arith, le)) (omega (arith, below)) free) h
lowest-IsAllocated base bits server taken _ s (full h) = exhausted h

-- A network of one address.
single :
    (rounds base bits : ℕ) (server : Text) (taken : List Text)
    → IsSubnet base bits
    → 2 ^ (32 - bits) ≡ 1
    → IsAllocated base bits server taken
        (first_free (suc rounds) base bits server taken (next_address base))
unfolding first_free from_on
single rounds base bits server taken s one =
    let outside : contains (subnet base bits) (v4 (next_address base)) ≡ false =
      contains-between base bits (next_address base) s ∙ ground (arith, one, s.fits) in
    rw outside (
      exhausted (
        subst (λ k. All (λ m. is_used server taken m ≡ true) (from_on (base + 1) k)) {x = 0}
          (omega (arith, one)) tt))

-- `AllocateTunnelAddress` of an IPv4 subnet always ends: with an address between the subnet's first and
-- last that `ValidateTunnelAddress` accepts, and below which every address is the server's or taken; or
-- with an error, where every address between the first and the last is.
pub allocate_tunnel_address-IsAllocated :
    (base bits : ℕ) (server : Text) (taken : List Text)
    → IsSubnet base bits
    → IsAllocated base bits server taken (allocate_tunnel_address base bits server taken)
unfolding allocate_tunnel_address
allocate_tunnel_address-IsAllocated base bits server taken s =
    elim (Bool-cases (nat_beq (2 ^ (32 - bits)) 1)) [
      | inl one ↦
          let e : 2 ^ (32 - bits) ≡ 1 = ground (arith, one) in
          subst
            (λ r.
              IsAllocated base bits server taken
                (first_free r base bits server taken (next_address base)))
            (sym e) (single 0 base bits server taken s e)
      | inr more ↦
          let size = (size-between bits).0 in
          let next : next_address base ≡ base + 1 = ground (arith, more, size, s.fits) in
          subst
            (λ c.
              IsAllocated base bits server taken
                (first_free (2 ^ (32 - bits)) base bits server taken c))
            (sym next)
            (lowest-IsAllocated base bits server taken _ s (
              first_free-IsLowest (2 ^ (32 - bits)) base bits server taken (base + 1) s
                (omega arith) (ground (arith, more, size)) (omega (arith, size))))
    ]
