-- ===== src/Services/WireGuard/Lowest.antt =====
-- backend/internal/services/wireguard_alloc.go: `AllocateTunnelAddress`.
use tikman.Prelude.{
  ℕ, zero, suc, ◌+◌, ◌-◌, ◌*◌, ◌/◌, ◌%◌, ◌^◌, ◌≤◌, ◌<◌, ◌≡◌, sym, ◌∙◌, ap, arith, true, false, ◌&&◌,
  List, [], ◌∷◌, leb, nat_beq, inl, inr, Bool-cases, All,
}
use mathlib.Core.Path.{subst}
use tikman.Prelude.Bytes.{bytes_eq}
use tikman.Prelude.Text.{Text}
use tikman.Netflow.IpSet.Member.{same_quotient, size-between}
use tikman.Netflow.Addr.{v4, Prefix, contains}
use tikman.Services.WireGuard.{
  next_ip, bytes_of, next_address, ip_string, broadcast, is_used, Allocation, allocated,
  no_free_address, first_free,
}

bytes_cong :
    (a b c d e f g h : ℕ)
    → a ≡ e
    → b ≡ f
    → c ≡ g
    → d ≡ h
    → (a ∷ b ∷ c ∷ d ∷ []) ≡ (e ∷ f ∷ g ∷ h ∷ [])
bytes_cong a b c d e f g h p q r s = cc

-- The bytes of the next address are the next bytes.
pub next_ip-bytes_of : (n : ℕ) → n < 2 ^ 32 → (next_ip (bytes_of n)).0 ≡ bytes_of (next_address n)
unfolding next_ip bytes_of
next_ip-bytes_of n h = elim (Bool-cases (nat_beq ((n % 256 + 1) % 256) 0)) [
  | inr e ↦ rw e (
      bytes_cong _ _ _ _ _ _ _ _ (ground (arith, e)) (ground (arith, e)) (ground (arith, e))
        (ground (arith, e)))
  | inl e ↦ rw e (elim (Bool-cases (nat_beq ((n / 256 % 256 + 1) % 256) 0)) [
    | inr f ↦ rw f (
        bytes_cong _ _ _ _ _ _ _ _ (ground (arith, e, f)) (ground (arith, e, f))
          (ground (arith, e, f)) (ground (arith, e, f)))
    | inl f ↦ rw f (elim (Bool-cases (nat_beq ((n / 65536 % 256 + 1) % 256) 0)) [
      | inr g ↦ rw g (
          bytes_cong _ _ _ _ _ _ _ _ (ground (arith, e, f, g)) (ground (arith, e, f, g))
            (ground (arith, e, f, g)) (ground (arith, e, f, g)))
      | inl g ↦ rw g (
          bytes_cong _ _ _ _ _ _ _ _ (ground (arith, e, f, g, h)) (ground (arith, e, f, g))
            (ground (arith, e, f, g)) (ground (arith, e, f, g)))
    ])
  ])
]

-- A network of IPv4 that `ParseCIDR` gives: no bit behind the prefix is set.
pub record IsSubnet (base bits : ℕ) : Type 0 where
  pub masked : base / 2 ^ (32 - bits) * 2 ^ (32 - bits) ≡ base
  pub fits : base + 2 ^ (32 - bits) ≤ 2 ^ 32

abbrev pub subnet : ℕ → ℕ → Prefix
subnet base bits = record { addr = v4 base; bits = bits }

pub contains-between :
    (base bits n : ℕ)
    → IsSubnet base bits
    → contains (subnet base bits) (v4 n) ≡ (leb base n && leb n (broadcast base bits))
contains-between base bits n h = sym (
    ap (λ b. leb b n && leb n (b + (2 ^ (32 - bits) - 1))) (sym h.masked)
    ∙ same_quotient (2 ^ (32 - bits)) base n (omega (arith, (size-between bits).0)))

-- The numbers from one on.
unfoldable pub from_on : ℕ → ℕ → List ℕ
from_on start zero = []
from_on start (suc n) = start ∷ from_on (start + 1) n

-- The outcome of the loop from a candidate on.
pub data IsLowest (base bits : ℕ) (server : Text) (taken : List Text) (candidate : ℕ)
    : Allocation → Type 0 where
  lowest :
      (n : ℕ)
      → (candidate ≤ n) × (n < broadcast base bits)
      → is_used server taken n ≡ false
      → All (λ m. is_used server taken m ≡ true) (from_on candidate (n - candidate))
      → IsLowest base bits server taken candidate (allocated (ip_string n))
  full :
      All (λ m. is_used server taken m ≡ true) (from_on candidate (broadcast base bits - candidate))
      → IsLowest base bits server taken candidate no_free_address

recounted :
    (server : Text) (taken : List Text) (start j k : ℕ)
    → j ≡ k
    → All (λ m. is_used server taken m ≡ true) (from_on start j)
    → All (λ m. is_used server taken m ≡ true) (from_on start k)
recounted server taken start j k e h =
    subst (λ i. All (λ m. is_used server taken m ≡ true) (from_on start i)) e h

-- A candidate that is used, before the outcome of the rest.
used-IsLowest :
    (base bits : ℕ) (server : Text) (taken : List Text) (candidate : ℕ) (o : Allocation)
    → is_used server taken candidate ≡ true
    → candidate < broadcast base bits
    → IsLowest base bits server taken (candidate + 1) o
    → IsLowest base bits server taken candidate o
unfolding from_on
used-IsLowest base bits server taken candidate _ u lt (lowest n (le, below) free h) =
    lowest n (omega (arith, le), below) free
      (recounted server taken candidate (suc (n - (candidate + 1))) (n - candidate)
        (omega (arith, le)) (u, h))
used-IsLowest base bits server taken candidate _ u lt (full h) = full (
    recounted server taken candidate (suc (broadcast base bits - (candidate + 1)))
      (broadcast base bits - candidate) (omega (arith, lt)) (u, h))

pub first_free-IsLowest :
    (rounds base bits : ℕ) (server : Text) (taken : List Text) (candidate : ℕ)
    → IsSubnet base bits
    → base ≤ candidate
    → candidate ≤ broadcast base bits
    → broadcast base bits < rounds + candidate
    → IsLowest base bits server taken candidate (first_free rounds base bits server taken candidate)
unfolding first_free from_on
first_free-IsLowest zero base bits server taken candidate s low high enough =
    absurd (omega (arith, high, enough))
first_free-IsLowest (suc n) base bits server taken candidate s low high enough =
    let inside : contains (subnet base bits) (v4 candidate) ≡ true =
      contains-between base bits candidate s ∙ ground (arith, low, high) in
    elim (Bool-cases (nat_beq candidate (broadcast base bits))) [
      | inl last ↦
          rw (inside, last)
            (full (
              recounted server taken candidate 0 (broadcast base bits - candidate)
                (ground (arith, last)) tt))
      | inr before ↦
          let lt : candidate < broadcast base bits = ground (arith, before, high) in
          elim (Bool-cases (is_used server taken candidate)) [
            | inr free ↦
                rw (inside, before, free)
                  (lowest candidate (omega arith, lt) free
                    (recounted server taken candidate 0 (candidate - candidate) (omega arith) tt))
            | inl used ↦
                let next : next_address candidate ≡ candidate + 1 =
                  omega (arith, lt, s.fits, (size-between bits).0) in
                rw (inside, before, used)
                  (used-IsLowest base bits server taken candidate _ used lt (
                    subst
                      (λ c.
                        IsLowest base bits server taken (candidate + 1)
                          (first_free n base bits server taken c))
                      (sym next)
                      (first_free-IsLowest n base bits server taken (candidate + 1) s
                        (omega (arith, low)) (omega (arith, lt)) (omega (arith, enough)))))
          ]
    ]
