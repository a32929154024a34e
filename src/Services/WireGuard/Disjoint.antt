-- ===== src/Services/WireGuard/Disjoint.antt =====
-- backend/internal/services/wireguard_validate.go: no address is routed to two places.
use tikman.Prelude.{
  ℕ, zero, suc, ◌+◌, ◌-◌, ◌*◌, ◌^◌, ◌≤◌, ◌≡◌, sym, ◌∙◌, ap, arith, true, leb, inl, inr, Bool-cases,
}
use native.Mathlib.Nat.{div-div-eq-div-mul, pow-suc, mul_assoc}
use tikman.Netflow.Addr.{Addr, Prefix, bit_len, number, network, contains}
use tikman.Services.WireGuard.{networks_overlap}

pow_add : (m k : ℕ) → 2 ^ (m + k) ≡ 2 ^ m * 2 ^ k
pow_add m zero = ground arith
pow_add m (suc k) =
    ap (λ n. 2 ^ n) (omega arith)
    ∙ pow-suc 2 (m + k)
    ∙ ap (λ n. n * 2) (pow_add m k)
    ∙ mul_assoc (2 ^ m) (2 ^ k) 2
    ∙ ap (λ n. 2 ^ m * n) (sym (pow-suc 2 k))

-- Addresses that agree on more bits agree on fewer.
coarser :
    (a b : Addr) (few more : ℕ)
    → bit_len a ≡ bit_len b
    → few ≤ more
    → more ≤ bit_len a
    → network a more ≡ network b more
    → network a few ≡ network b few
coarser a b few more same le fits h =
    let split : 2 ^ (bit_len a - few) ≡ 2 ^ (bit_len a - more) * 2 ^ (more - few) =
      ap (λ n. 2 ^ n) (omega (arith, le, fits)) ∙ pow_add (bit_len a - more) (more - few) in
    let of_a = div-div-eq-div-mul (number a) (2 ^ (bit_len a - more)) (2 ^ (more - few)) in
    let of_b = div-div-eq-div-mul (number b) (2 ^ (bit_len a - more)) (2 ^ (more - few)) in
    cc (split, of_a, of_b, h, same)

-- Two networks that share an address overlap by the test: the one of fewer bits contains the other.
pub shared-networks_overlap :
    (p q : Prefix) (a : Addr)
    → p.bits ≤ bit_len p.addr
    → q.bits ≤ bit_len q.addr
    → contains p a ≡ true
    → contains q a ≡ true
    → networks_overlap p q ≡ true
shared-networks_overlap p q a fp fq hp hq = elim (Bool-cases (leb p.bits q.bits)) [
  | inl le ↦
      let same =
        coarser q.addr a p.bits q.bits (ground (arith, hq)) (ground (arith, le)) fq
          (ground (arith, hq)) in
      ground (arith, hp, hq, same)
  | inr gt ↦
      let same =
        coarser p.addr a q.bits p.bits (ground (arith, hp)) (ground (arith, gt)) fp
          (ground (arith, hp)) in
      ground (arith, hp, hq, same)
]
