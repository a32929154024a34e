-- ===== src/Netflow/Asn.antt =====
-- backend/internal/netflow/asn.go: the table of autonomous systems.
-- A line is the columns that `addLine` has split and parsed: the texts of the name and the country are
-- their bytes, and a line with a column that does not parse is an error of its own.
pub mod Lookup
mod Tests
use tikman.Prelude.{
  ℕ, Bool, true, false, Option, none, some, List, [], ◌∷◌, ◌++◌, ltb, leb, nat_beq, nat_eq,
  if◌then◌else◌,
}
use tikman.Prelude.Assoc.{Assoc, put}
use tikman.Prelude.Bytes.{Bytes}
use tikman.Prelude.Sort.{sort_by}
use tikman.Prelude.Spans.{find_span}
use tikman.Netflow.Addr.{Addr, v4, v6, unset}

pub record AsnInfo : Type 0 where
  pub name : Bytes
  pub country : Bytes

pub record AsnRange : Type 0 where
  pub start : ℕ
  pub end : ℕ
  pub asn : ℕ

pub record AsnTable : Type 0 where
  pub ranges : List AsnRange
  pub names : Assoc ℕ AsnInfo

-- A line of the dataset: its columns, or one whose columns are not five, or do not parse.
pub data Line : Type 0 where
  malformed : Line
  columns : (start end asn : ℕ) (info : AsnInfo) → Line

-- The end of `addLine`: a range that ends before it starts is an error, and AS 0 is left out.
unfoldable pub add_line : Line → AsnTable → Option AsnTable
add_line malformed t = none
add_line (columns start end asn info) t =
    if ltb end start
    then none
    else if nat_beq asn 0
    then some t
    else some (record {
      ranges = t.ranges ++ (record { start = start; end = end; asn = asn } ∷ []);
      names = put asn info t.names;
    })

unfoldable pub add_lines : List Line → AsnTable → Option AsnTable
add_lines [] t = some t
add_lines (line ∷ lines) t = elim (add_line line t) [ none ↦ none | some t' ↦ add_lines lines t' ]

abbrev pub starts_before : AsnRange → AsnRange → Bool
starts_before a b = ltb a.start b.start

-- The loop of `checkDisjoint`, with the range in front in hand.
unfoldable pub check_from : AsnRange → List AsnRange → Bool
check_from prev [] = true
check_from prev (cur ∷ ranges) =
    let rest = check_from cur ranges in if leb cur.start prev.end then false else rest

unfoldable pub check_disjoint : List AsnRange → Bool
check_disjoint [] = true
check_disjoint (r ∷ ranges) = check_from r ranges

-- The end of `ParseASNTable`: the ranges in the order of their starts, if they lie apart.
unfoldable pub sorted_table : AsnTable → Option AsnTable
sorted_table t =
    let ranges = sort_by starts_before t.ranges in
    if check_disjoint ranges then some (record t { ranges = ranges }) else none

abbrev pub has_ranges : List AsnRange → Bool
has_ranges [] = false
has_ranges (r ∷ ranges) = true

unfoldable pub parse_asn_table : List Line → Option AsnTable
parse_asn_table lines = elim (add_lines lines (record { ranges = []; names = [] })) [
  | none ↦ none
  | some t ↦ if has_ranges t.ranges then sorted_table t else none
]

unfoldable pub asn_at : ℕ → Option AsnRange → ℕ
asn_at v none = 0
asn_at v (some r) = if ltb r.end v then 0 else r.asn

unfoldable pub lookup_asn : AsnTable → Addr → ℕ
lookup_asn t (v4 v) = asn_at v (find_span AsnRange.start AsnRange.end v t.ranges)
lookup_asn t (v6 v) = 0
lookup_asn t unset = 0
