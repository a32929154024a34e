-- ===== src/Netflow/Prefixes.antt =====
-- backend/internal/netflow/prefixes.go: the longest block that holds an address.
-- An interface ID (a UUID) is a number.
pub mod Longest
mod Tests
use tikman.Prelude.{
  ℕ, zero, suc, ◌+◌, Bool, true, false, ◌&&◌, Option, none, some, List, [], ◌∷◌, ◌++◌, leb, ltb,
  nat_beq, nat_eq, if◌then◌else◌, is_some, map,
}
use tikman.Prelude.Assoc.{Assoc, lookup, put}
use tikman.Prelude.Sort.{sort_by}
use tikman.Netflow.Addr.{Addr, is4, Prefix, prefix_eq, masked, mask, bit_len}

pub record PrefixEntry : Type 0 where
  pub prefix : Prefix
  pub interface_id : ℕ

pub record PrefixTable : Type 0 where
  pub by_length : Assoc ℕ (Assoc Prefix ℕ)
  pub lengths : List ℕ

unfoldable pub blocks_of : ℕ → PrefixTable → Assoc Prefix ℕ
blocks_of bits t = elim (lookup bits t.by_length) [ none ↦ [] | some blocks ↦ blocks ]

-- `if _, taken := blocks[p]; !taken`: the first entry of a block keeps it.
unfoldable pub add_once : Prefix → ℕ → Assoc Prefix ℕ → Assoc Prefix ℕ
add_once p id blocks = if is_some (lookup p blocks) then blocks else put p id blocks

-- One round of the loop of `NewPrefixTable` on an IPv4 entry: `p` is its block. The maps of blocks
-- are held by pointer, so a block added to `blocks` shows in `by_length`.
unfoldable pub add_block : Prefix → ℕ → PrefixTable → PrefixTable
add_block p id t = record {
  by_length = put p.bits (add_once p id (blocks_of p.bits t)) t.by_length;
  lengths = if is_some (lookup p.bits t.by_length) then t.lengths else t.lengths ++ (p.bits ∷ []);
}

unfoldable pub add_entry : PrefixEntry → PrefixTable → PrefixTable
add_entry e t = if is4 e.prefix.addr then add_block (masked e.prefix) e.interface_id t else t

unfoldable pub add_entries : List PrefixEntry → PrefixTable → PrefixTable
add_entries [] t = t
add_entries (e ∷ es) t = add_entries es (add_entry e t)

-- `sort.Sort(sort.Reverse(…))`: the longer length first.
abbrev pub longer : ℕ → ℕ → Bool
longer a b = ltb b a

unfoldable pub new_prefix_table : List PrefixEntry → PrefixTable
new_prefix_table entries =
    let t = add_entries entries (record { by_length = []; lengths = [] }) in
    record t { lengths = sort_by longer t.lengths }

-- The loop of `Lookup`. `ip.Prefix(bits)` fails past the address's length, and the loop goes on.
unfoldable pub lookup_lengths : PrefixTable → Addr → List ℕ → Option ℕ
lookup_lengths t ip [] = none
lookup_lengths t ip (bits ∷ lengths) =
    let rest = lookup_lengths t ip lengths in
    if ltb (bit_len ip) bits
    then rest
    else elim (lookup (record { addr = mask ip bits; bits = bits }) (blocks_of bits t)) [
      | some id ↦ some id
      | none ↦ rest
    ]

unfoldable pub lookup_addr : PrefixTable → Addr → Option ℕ
lookup_addr t ip = if is4 ip then lookup_lengths t ip t.lengths else none
