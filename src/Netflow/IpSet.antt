-- ===== src/Netflow/IpSet.antt =====
-- backend/internal/netflow/ipset.go: a list of networks as ranges that lie apart, and its bisection.
-- The lines of the list are read by `net/netip`; the model starts at the networks they give.
pub mod Merge
pub mod Member
mod Tests
use tikman.Prelude.{
  ℕ, ◌+◌, ◌-◌, ◌*◌, ◌^◌, ◌%◌, Bool, true, false, ◌||◌, Option, none, some, List, [], ◌∷◌, map, ltb,
  leb, nat_beq, if◌then◌else◌, bit_or, max,
}
use tikman.Prelude.Sort.{sort_by}
use tikman.Prelude.Spans.{find_span, reaches}
use tikman.Netflow.Addr.{Addr, v4, v6, unset, Prefix, masked, number}

pub record Ipv4Range : Type 0 where
  pub start : ℕ
  pub end : ℕ

-- `1<<(32-bits) - 1` is computed on 32 bits, where the network of no bits gives all ones.
unfoldable pub prefix_range : Prefix → Ipv4Range
prefix_range p =
    let first = number (masked p).addr in
    record {
      start = first;
      end = bit_or first ((2 ^ (32 - p.bits) % 2 ^ 32 + (2 ^ 32 - 1)) % 2 ^ 32);
    }

abbrev pub starts_before : Ipv4Range → Ipv4Range → Bool
starts_before a b = ltb a.start b.start

abbrev pub joins : Ipv4Range → Ipv4Range → Bool
joins last r = nat_beq last.end (2 ^ 32 - 1) || leb r.start (last.end + 1)

-- The loop of `mergeRanges`, with the last range of `merged` in hand. `merged` shares the array of
-- `ranges`, and each write of the loop is at the place that it read last, or before that.
unfoldable pub merge_into : Ipv4Range → List Ipv4Range → List Ipv4Range
merge_into last [] = last ∷ []
merge_into last (r ∷ ranges) =
    let joined = merge_into (record last { end = max last.end r.end }) ranges in
    let apart = last ∷ merge_into r ranges in if joins last r then joined else apart

unfoldable pub merge_sorted : List Ipv4Range → List Ipv4Range
merge_sorted [] = []
merge_sorted (r ∷ ranges) = merge_into r ranges

-- `ParseIPSet` calls it with at least one range, so that `ranges[:1]` is there.
unfoldable pub merge_ranges : List Ipv4Range → List Ipv4Range
merge_ranges ranges = merge_sorted (sort_by starts_before ranges)

pub record IpSet : Type 0 where
  pub ranges : List Ipv4Range

-- The end of `ParseIPSet`: a list without networks is an error.
unfoldable pub ip_set_of : List Prefix → Option IpSet
ip_set_of prefixes = elim (map prefix_range prefixes) [
  | [] ↦ none
  | r ∷ ranges ↦ some (record { ranges = merge_ranges (r ∷ ranges) })
]

-- No set (a nil pointer) holds no address.
unfoldable pub contains_ip : Option IpSet → Addr → Bool
contains_ip none ip = false
contains_ip (some s) (v4 v) =
    reaches Ipv4Range.start Ipv4Range.end v (find_span Ipv4Range.start Ipv4Range.end v s.ranges)
contains_ip (some s) (v6 v) = false
contains_ip (some s) unset = false
