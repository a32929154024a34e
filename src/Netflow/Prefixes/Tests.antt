-- ===== src/Netflow/Prefixes/Tests.antt =====
-- backend/internal/netflow/prefixes.go: two blocks, one within the other.
use tikman.Prelude.{arith, ℕ, ◌≡◌, refl, Option, none, some, List, [], ◌∷◌}
use tikman.Prelude.Sort.{sort_by, insert_by}
use tikman.Netflow.Addr.{v4}
use tikman.Netflow.Prefixes.{
  PrefixEntry, new_prefix_table, lookup_addr, lookup_lengths, add_entries, add_entry, add_block,
  add_once, blocks_of,
}
use tikman.Netflow.Prefixes.Longest.Scan.{IsLongest, lookup_addr-IsLongest}

abbrev entries : List PrefixEntry
entries =
    record { prefix = record { addr = v4 0x0a000000; bits = 8 }; interface_id = 1 }
    ∷ record { prefix = record { addr = v4 0x0a010000; bits = 16 }; interface_id = 2 }
    ∷ record { prefix = record { addr = v4 0x0a01ffff; bits = 16 }; interface_id = 3 }
    ∷ []

lookup-entries : lookup_addr (new_prefix_table entries) (v4 0x0a010203) ≡ some 2
unfolding lookup_addr new_prefix_table lookup_lengths add_entries add_entry add_block add_once
    blocks_of sort_by insert_by tikman.Prelude.Assoc.lookup tikman.Prelude.Assoc.put
lookup-entries = refl

lookup_addr-IsLongest_example :
    IsLongest entries (v4 0x0a010203) (lookup_addr (new_prefix_table entries) (v4 0x0a010203))
lookup_addr-IsLongest_example = lookup_addr-IsLongest entries (v4 0x0a010203)
