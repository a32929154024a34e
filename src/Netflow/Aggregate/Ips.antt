-- ===== src/Netflow/Aggregate/Ips.antt =====
-- The open window: the number kept for each POP is that of its addresses, and is capped.
use tikman.Prelude.{ℕ, ◌+◌, ◌≤◌, ◌≡◌, arith, leb, if◌then◌else◌, Bool-cases, Option-cases, inl, inr}
use tikman.Prelude.Assoc.{lookup, total, total-put_new, total-put_old, lookup-put}
use tikman.Netflow.Classify.{Classified}
use tikman.Netflow.Aggregate.{
  IpKey, ip_key_eq, PopKey, pop_key_eq, beq_pop_key, beq_pop_key_iff, GroupKey, IpCounter,
  Aggregator, or_zero, count_ip, add_ip, max_ips_per_pop,
}

abbrev pub pop_of : GroupKey → PopKey
pop_of g = record { router_id = g.router_id; pop = g.pop }

-- The addresses of one POP.
abbrev pub of_pop : PopKey → IpKey → IpCounter → ℕ
of_pop pk k cnt = if beq_pop_key (pop_of k.group) pk then 1 else 0

pub record IsWindow (a : Aggregator) : Type 0 where
  pub counted : (pk : PopKey) → or_zero (lookup pk a.ips_per_pop) ≡ total (of_pop pk) a.ips
  pub capped : (pk : PopKey) → total (of_pop pk) a.ips ≤ max_ips_per_pop

-- Counting an address keeps the number kept for each POP equal to that of its addresses, which stays
-- within 100 000.
pub add_ip-IsWindow :
    (g : GroupKey) (c : Classified) (asn : ℕ) (a : Aggregator)
    → IsWindow a
    → IsWindow (add_ip g c asn a)
unfolding add_ip
add_ip-IsWindow g c asn a h =
    let key : IpKey = record { group = g; ip = c.remote } in
    let held : ℕ = or_zero (lookup (pop_of g) a.ips_per_pop) in
    let fresh : IpCounter = record { asn = asn; bytes = 0; flows = 0 } in
    elim (Option-cases (lookup key a.ips)) [
      | inr (cnt, e) ↦
          rw (e, add_ip)
            (record {
              counted = λ pk. ground (
                arith,
                h.counted pk,
                total-put_old (of_pop pk) key (count_ip cnt c.bytes) cnt a.ips e,
              );
              capped = λ pk. ground (
                arith,
                h.capped pk,
                total-put_old (of_pop pk) key (count_ip cnt c.bytes) cnt a.ips e,
              );
            })
      | inl e ↦ elim (Bool-cases (leb max_ips_per_pop held)) [
        | inl full ↦ rw (e, add_ip) (rw full h)
        | inr room ↦
            rw (e, add_ip)
              (rw room (record {
                counted = λ pk. ground (
                  arith,
                  h.counted pk,
                  total-put_new (of_pop pk) key (count_ip fresh c.bytes) a.ips e,
                  lookup-put (pop_of g) pk (held + 1) a.ips_per_pop,
                );
                capped = λ pk. ground (
                  arith,
                  h.capped pk,
                  h.counted pk,
                  beq_pop_key_iff (pop_of g) pk,
                  total-put_new (of_pop pk) key (count_ip fresh c.bytes) a.ips e,
                );
              }))
      ]
    ]
