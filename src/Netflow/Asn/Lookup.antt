-- ===== src/Netflow/Asn/Lookup.antt =====
-- backend/internal/netflow/asn.go: the lookup beside the lines of the dataset.
use tikman.Prelude.{
  ℕ, ◌≤◌, ◌<◌, ◌≡◌, ◌⊎◌, ◌↔◌, inl, inr, refl, sym, ap, ◌∙◌, arith, true, false, Option, none, some,
  List, [], ◌∷◌, ◌++◌, ltb, leb, nat_beq, nat_eq, if◌then◌else◌, All, Bool-cases, Option-cases,
}
use mathlib.Core.Path.{subst}
use tikman.Prelude.Sort.{
  sort_by, In, In-sort_by, IsOrder, IsOrdered, sort_by-IsOrdered, All-In, All-of_In,
}
use tikman.Prelude.Spans.{
  IsApart, any_within, within, find_span, reaches, find_span-any_within, within-find_span,
  any_within-In,
}
use tikman.Prelude.Assoc.{put}
use tikman.Netflow.Addr.{v4}
use tikman.Netflow.Asn.{
  AsnInfo, AsnRange, AsnTable, Line, malformed, columns, add_line, add_lines, starts_before,
  check_from, check_disjoint, sorted_table, has_ranges, parse_asn_table, asn_at, lookup_asn,
}

abbrev pub AreApart : List AsnRange → Type 0
AreApart ranges = IsApart AsnRange.start AsnRange.end ranges

-- The ranges of a table as it is built: none ends before it starts, and none is of AS 0.
abbrev pub IsAnnounced : AsnRange → Type 0
IsAnnounced r = (r.start ≤ r.end) × (1 ≤ r.asn)

-- What a line announces.
abbrev pub kept : List Line → List AsnRange
kept [] = []
kept (malformed ∷ lines) = kept lines
kept (columns start end asn info ∷ lines) =
    if nat_beq asn 0
    then kept lines
    else record { start = start; end = end; asn = asn } ∷ kept lines

append_assoc : (xs ys zs : List AsnRange) → (xs ++ ys) ++ zs ≡ xs ++ (ys ++ zs)
append_assoc [] ys zs = refl
append_assoc (x ∷ xs) ys zs = ap (λ l. x ∷ l) (append_assoc xs ys zs)

append_nil : (xs : List AsnRange) → xs ++ [] ≡ xs
append_nil [] = refl
append_nil (x ∷ xs) = ap (λ l. x ∷ l) (append_nil xs)

add_lines-bad :
    (start end asn : ℕ) (info : AsnInfo) (lines : List Line) (t : AsnTable)
    → ltb end start ≡ true
    → add_lines (columns start end asn info ∷ lines) t ≡ none
unfolding add_lines add_line
add_lines-bad start end asn info lines t e = ground (arith, e)

add_lines-zero :
    (start end asn : ℕ) (info : AsnInfo) (lines : List Line) (t : AsnTable)
    → ltb end start ≡ false
    → nat_beq asn 0 ≡ true
    → add_lines (columns start end asn info ∷ lines) t ≡ add_lines lines t
unfolding add_lines add_line
add_lines-zero start end asn info lines t e f = ground (arith, e, f)

abbrev with_line : (start end asn : ℕ) → AsnInfo → AsnTable → AsnTable
with_line start end asn info t = record {
  ranges = t.ranges ++ (record { start = start; end = end; asn = asn } ∷ []);
  names = put asn info t.names;
}

add_lines-new :
    (start end asn : ℕ) (info : AsnInfo) (lines : List Line) (t : AsnTable)
    → ltb end start ≡ false
    → nat_beq asn 0 ≡ false
    → add_lines (columns start end asn info ∷ lines) t
      ≡ add_lines lines (with_line start end asn info t)
unfolding add_lines add_line
add_lines-new start end asn info lines t e f = ground (arith, e, f)

-- A table that reads all lines has what the lines announce, behind what it had.
add_lines-kept :
    (lines : List Line) (t u : AsnTable)
    → add_lines lines t ≡ some u
    → (u.ranges ≡ t.ranges ++ kept lines) × All IsAnnounced (kept lines)
unfolding add_lines add_line
add_lines-kept [] t u h = (ground (arith, append_nil t.ranges), tt)
add_lines-kept (malformed ∷ lines) t u h = ground arith
add_lines-kept (columns start end asn info ∷ lines) t u h = elim (Bool-cases (ltb end start)) [
  | inl e ↦ ground (arith, add_lines-bad start end asn info lines t e, h)
  | inr e ↦ elim (Bool-cases (nat_beq asn 0)) [
    | inl f ↦
        rw f (add_lines-kept lines t u (sym (add_lines-zero start end asn info lines t e f) ∙ h))
    | inr f ↦
        let (same, all) =
          add_lines-kept lines (with_line start end asn info t) u
            (sym (add_lines-new start end asn info lines t e f) ∙ h) in
        rw f (
          same
              ∙ append_assoc t.ranges (record { start = start; end = end; asn = asn } ∷ [])
                  (kept lines),
          ((ground (arith, e), ground (arith, f)), all),
        )
  ]
]

check_rest :
    (r x : AsnRange) (ranges : List AsnRange)
    → leb x.start r.end ≡ false
    → check_from r (x ∷ ranges) ≡ true
    → check_from x ranges ≡ true
unfolding check_from
check_rest r x ranges e h = ground (arith, e, h)

check_from-AreApart :
    (r : AsnRange) (ranges : List AsnRange)
    → IsOrdered starts_before (r ∷ ranges)
    → check_from r ranges ≡ true
    → AreApart (r ∷ ranges)
unfolding check_from
check_from-AreApart r [] o h = (tt, tt)
check_from-AreApart r (x ∷ ranges) (hx, o) h = elim (Bool-cases (leb x.start r.end)) [
  | inl e ↦ ground (arith, e, h)
  | inr e ↦ (
    (
      ground (arith, e, hx.0),
      All-of_In (λ y. (r.start ≤ y.start) × (r.end < y.start)) ranges
          (λ y i. ground (
            arith,
            e,
            All-In (λ z. starts_before z r ≡ false) y ranges hx.1 i,
            All-In (λ z. starts_before z x ≡ false) y ranges o.0 i,
          )),
    ),
    check_from-AreApart x ranges o (check_rest r x ranges e h),
  )
]

check_disjoint-AreApart :
    (ranges : List AsnRange)
    → IsOrdered starts_before ranges
    → check_disjoint ranges ≡ true
    → AreApart ranges
unfolding check_disjoint
check_disjoint-AreApart [] o h = tt
check_disjoint-AreApart (r ∷ ranges) o h = check_from-AreApart r ranges o h

starts_before-IsOrder : IsOrder starts_before
starts_before-IsOrder = record {
  asym = λ a b h. ground arith;
  neg_trans = λ a b c h k. ground arith;
}

-- What a table that was parsed holds.
record IsParsed (lines : List Line) (t : AsnTable) : Type 0 where
  apart : AreApart t.ranges
  holds : (r : AsnRange) → In r t.ranges ↔ In r (kept lines)
  announced : All IsAnnounced (kept lines)

abbrev empty_table : AsnTable
empty_table = record { ranges = []; names = [] }

sorted_table-IsParsed :
    (lines : List Line) (u t : AsnTable)
    → u.ranges ≡ kept lines
    → All IsAnnounced (kept lines)
    → sorted_table u ≡ some t
    → IsParsed lines t
unfolding sorted_table
sorted_table-IsParsed lines u t e all h =
    elim (Bool-cases (check_disjoint (sort_by starts_before u.ranges))) [
      | inr f ↦ ground (arith, f, h)
      | inl f ↦
          let q : record u { ranges = sort_by starts_before u.ranges } ≡ t = ground (arith, f, h) in
          subst (IsParsed lines) q (record {
            apart =
                check_disjoint-AreApart (sort_by starts_before u.ranges)
                  (sort_by-IsOrdered starts_before starts_before-IsOrder u.ranges) f;
            holds = λ r.
                subst (λ l. In r (sort_by starts_before u.ranges) ↔ In r l) e
                  (In-sort_by starts_before r u.ranges);
            announced = all;
          })
    ]

parse_asn_table-IsParsed :
    (lines : List Line) (t : AsnTable) → parse_asn_table lines ≡ some t → IsParsed lines t
unfolding parse_asn_table
parse_asn_table-IsParsed lines t h = elim (Option-cases (add_lines lines empty_table)) [
  | inl n ↦ ground (arith, n, h)
  | inr (u, e) ↦
      let (same, all) = add_lines-kept lines empty_table u e in
      elim (Bool-cases (has_ranges u.ranges)) [
        | inr f ↦ ground (arith, e, f, h)
        | inl f ↦ sorted_table-IsParsed lines u t same all (ground (arith, e, f, h))
      ]
]

reaches-asn_at :
    (v : ℕ) (o : Option AsnRange) → reaches AsnRange.start AsnRange.end v o ≡ false → asn_at v o ≡ 0
unfolding asn_at reaches
reaches-asn_at v none h = refl
reaches-asn_at v (some r) h = ground (arith, h)

lookup_asn-none :
    (v : ℕ) (t : AsnTable)
    → AreApart t.ranges
    → any_within AsnRange.start AsnRange.end v t.ranges ≡ false
    → lookup_asn t (v4 v) ≡ 0
unfolding lookup_asn
lookup_asn-none v t h a =
    reaches-asn_at v (find_span AsnRange.start AsnRange.end v t.ranges)
      (find_span-any_within AsnRange.start AsnRange.end v t.ranges h ∙ a)

lookup_asn-within :
    (v : ℕ) (lines : List Line) (t : AsnTable) (r : AsnRange)
    → IsParsed lines t
    → In r (kept lines)
    → within AsnRange.start AsnRange.end v r ≡ true
    → lookup_asn t (v4 v) ≡ r.asn
unfolding lookup_asn asn_at
lookup_asn-within v lines t r p i w =
    ap (asn_at v)
      (within-find_span AsnRange.start AsnRange.end v t.ranges r p.apart ((p.holds r).1 i) w)
    ∙ ground (arith, w)

-- A table that is parsed answers an address with the AS of every announced range that holds it, of
-- which there is at most one number, and with 0 where no announced range holds it.
pub lookup_asn-kept :
    (lines : List Line) (t : AsnTable) (v : ℕ)
    → parse_asn_table lines ≡ some t
    → All
        (λ r. (within AsnRange.start AsnRange.end v r ≡ false) ⊎ (lookup_asn t (v4 v) ≡ r.asn))
        (kept lines)
      × ((lookup_asn t (v4 v) ≡ 0)
          ⊎ ((r : AsnRange) × In r (kept lines) × (within AsnRange.start AsnRange.end v r ≡ true)))
lookup_asn-kept lines t v h =
    let p = parse_asn_table-IsParsed lines t h in
    (
      All-of_In
          (λ r. (within AsnRange.start AsnRange.end v r ≡ false) ⊎ (lookup_asn t (v4 v) ≡ r.asn))
          (kept lines)
          (λ r i. elim (Bool-cases (within AsnRange.start AsnRange.end v r)) [
            | inl w ↦ inr (lookup_asn-within v lines t r p i w)
            | inr w ↦ inl w
          ]),
      elim (Bool-cases (any_within AsnRange.start AsnRange.end v t.ranges)) [
        | inl a ↦
            let (r, i, w) = any_within-In AsnRange.start AsnRange.end v t.ranges a in
            inr (r, (p.holds r).0 i, w)
        | inr a ↦ inl (lookup_asn-none v t p.apart a)
      ],
    )
