-- ===== src/Netflow/Addr.antt =====
-- The parts of Go's net/netip that the package uses.
use tikman.Prelude.{
  ℕ, ◌-◌, ◌*◌, ◌/◌, ◌^◌, not, ◌&&◌, ◌≡◌, ◌↔◌, Bool, true, false, arith, nat_beq, Comparable,
}

-- `netip.Addr`: the zero value, or an address as a number.
pub data Addr : Type 0 where
  unset : Addr
  v4 : ℕ → Addr
  v6 : ℕ → Addr

abbrev pub is4 : Addr → Bool
is4 (v4 n) = true
is4 _ = false

abbrev pub beq_addr : Addr → Addr → Bool
beq_addr unset unset = true
beq_addr (v4 m) (v4 n) = nat_beq m n
beq_addr (v6 m) (v6 n) = nat_beq m n
beq_addr _ _ = false

pub beq_addr_iff : (a b : Addr) → (beq_addr a b ≡ true) ↔ (a ≡ b)
beq_addr_iff unset unset = ground arith
beq_addr_iff unset (v4 n) = ground arith
beq_addr_iff unset (v6 n) = ground arith
beq_addr_iff (v4 m) unset = ground arith
beq_addr_iff (v4 m) (v4 n) = ground arith
beq_addr_iff (v4 m) (v6 n) = ground arith
beq_addr_iff (v6 m) unset = ground arith
beq_addr_iff (v6 m) (v4 n) = ground arith
beq_addr_iff (v6 m) (v6 n) = ground arith

instance abbrev pub addr_eq : Comparable Addr
addr_eq = record { same = beq_addr; same_iff = beq_addr_iff }

-- `Addr.BitLen`
abbrev pub bit_len : Addr → ℕ
bit_len unset = 0
bit_len (v4 n) = 32
bit_len (v6 n) = 128

abbrev pub number : Addr → ℕ
number unset = 0
number (v4 n) = n
number (v6 n) = n

-- `netip.Prefix`. The zero value is the prefix of no address; a valid one has at most `bit_len` bits.
pub record Prefix : Type 0 where
  pub addr : Addr
  pub bits : ℕ

abbrev pub no_prefix : Prefix
no_prefix = record { addr = unset; bits = 0 }

abbrev pub is_valid : Prefix → Bool
is_valid p = not (beq_addr p.addr unset)

abbrev pub beq_prefix : Prefix → Prefix → Bool
beq_prefix p q = beq_addr p.addr q.addr && nat_beq p.bits q.bits

pub beq_prefix_iff : (p q : Prefix) → (beq_prefix p q ≡ true) ↔ (p ≡ q)
beq_prefix_iff p q = ground (arith, beq_addr_iff p.addr q.addr)

instance abbrev pub prefix_eq : Comparable Prefix
prefix_eq = record { same = beq_prefix; same_iff = beq_prefix_iff }

-- The network part of an address: its number without the bits behind the first `bits`.
abbrev pub network : Addr → ℕ → ℕ
network a bits = number a / 2 ^ (bit_len a - bits)

-- `Addr.Prefix(bits)`, that is `Prefix.Masked`, for `bits` within the address.
abbrev pub mask : Addr → ℕ → Addr
mask unset bits = unset
mask (v4 n) bits = v4 (n / 2 ^ (32 - bits) * 2 ^ (32 - bits))
mask (v6 n) bits = v6 (n / 2 ^ (128 - bits) * 2 ^ (128 - bits))

abbrev pub masked : Prefix → Prefix
masked p = record p { addr = mask p.addr p.bits }

-- `Prefix.Contains`: the same family, and the same network part.
abbrev pub contains : Prefix → Addr → Bool
contains p a =
    is_valid p
    && nat_beq (bit_len p.addr) (bit_len a)
    && nat_beq (network p.addr p.bits) (network a p.bits)
