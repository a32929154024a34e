-- ===== src/Netflow/IpSet/Tests.antt =====
-- backend/internal/netflow/ipset.go: networks that overlap, touch and lie apart.
use tikman.Prelude.{arith, ℕ, ◌≡◌, refl, Bool, true, false, List, [], ◌∷◌}
use tikman.Netflow.Addr.{v4, Prefix}
use tikman.Netflow.IpSet.{merge_ranges, merge_sorted, merge_into, ip_set_of, contains_ip}
use tikman.Netflow.IpSet.Member.{some_contains, contains_ip-some_contains}

abbrev networks : List Prefix
networks =
    record { addr = v4 0x0a010000; bits = 16 }
    ∷ record { addr = v4 0xc0a80105; bits = 32 }
    ∷ record { addr = v4 0x0a000000; bits = 16 }
    ∷ record { addr = v4 0x0a000105; bits = 24 }
    ∷ []

merge_ranges-networks :
    merge_ranges (
      record { start = 30; end = 40 }
      ∷ record { start = 10; end = 19 }
      ∷ record { start = 12; end = 14 }
      ∷ record { start = 20; end = 25 }
      ∷ [])
    ≡ (record { start = 10; end = 25 } ∷ record { start = 30; end = 40 } ∷ [])
unfolding merge_ranges merge_sorted merge_into tikman.Prelude.Sort.sort_by
    tikman.Prelude.Sort.insert_by
merge_ranges-networks = refl

contains_ip-some_contains_example :
    contains_ip (ip_set_of networks) (v4 0x0a010203) ≡ some_contains networks (v4 0x0a010203)
contains_ip-some_contains_example = contains_ip-some_contains networks 0x0a010203 (
  (0x0a010000, refl, ground arith, ground arith),
  (
    (0xc0a80105, refl, ground arith, ground arith),
    (
      (0x0a000000, refl, ground arith, ground arith),
      ((0x0a000105, refl, ground arith, ground arith), tt),
    ),
  ),
)
