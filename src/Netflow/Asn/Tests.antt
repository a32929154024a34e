-- ===== src/Netflow/Asn/Tests.antt =====
-- backend/internal/netflow/asn.go: three lines, one of them of space that nobody announces.
use tikman.Prelude.{
  arith, ℕ, ◌≡◌, ◌⊎◌, refl, Bool, true, false, Option, some, none, List, [], ◌∷◌, All,
}
use tikman.Prelude.Sort.{In}
use tikman.Prelude.Spans.{within}
use tikman.Netflow.Addr.{v4}
use tikman.Netflow.Asn.{
  AsnInfo, AsnRange, AsnTable, Line, columns, parse_asn_table, add_lines, add_line, sorted_table,
  check_disjoint, check_from, lookup_asn,
}
use tikman.Netflow.Asn.Lookup.{kept, lookup_asn-kept}

abbrev info : AsnInfo
info = record { name = []; country = [] }

abbrev lines : List Line
lines = columns 200 300 64500 info ∷ columns 0 99 0 info ∷ columns 100 150 13335 info ∷ []

abbrev table : AsnTable
table = record {
  ranges =
      record { start = 100; end = 150; asn = 13335 }
      ∷ record { start = 200; end = 300; asn = 64500 }
      ∷ [];
  names = (64500, info) ∷ (13335, info) ∷ [];
}

parse-lines : parse_asn_table lines ≡ some table
unfolding parse_asn_table add_lines add_line sorted_table check_disjoint check_from
    tikman.Prelude.Sort.sort_by tikman.Prelude.Sort.insert_by tikman.Prelude.Assoc.put
parse-lines = refl

parse-overlapping :
    parse_asn_table (columns 200 300 64500 info ∷ columns 250 260 13335 info ∷ []) ≡ none
unfolding parse_asn_table add_lines add_line sorted_table check_disjoint check_from
    tikman.Prelude.Sort.sort_by tikman.Prelude.Sort.insert_by tikman.Prelude.Assoc.put
parse-overlapping = refl

lookup_asn-kept_example :
    All
      (λ r.
        (within AsnRange.start AsnRange.end 120 r ≡ false) ⊎ (lookup_asn table (v4 120) ≡ r.asn))
      (kept lines)
    × ((lookup_asn table (v4 120) ≡ 0)
        ⊎ ((r : AsnRange) × In r (kept lines) × (within AsnRange.start AsnRange.end 120 r ≡ true)))
lookup_asn-kept_example = lookup_asn-kept lines table 120 parse-lines
