-- ===== src/Netflow/IpSet/Merge.antt =====
-- backend/internal/netflow/ipset.go: merging keeps the addresses, and leaves ranges that lie apart.
use tikman.Prelude.{
  ℕ, ◌^◌, ◌≤◌, ◌<◌, ◌≡◌, inl, inr, refl, sym, ap, ◌∙◌, arith, Bool, true, false, ◌||◌, List, [],
  ◌∷◌, All, Bool-cases, max,
}
use mathlib.Core.Path.{subst}
use tikman.Prelude.Sort.{
  sort_by, In, In-sort_by, IsOrder, IsOrdered, sort_by-IsOrdered, All-In, All-of_In,
}
use tikman.Prelude.Spans.{IsApart, any_within, within}
use tikman.Netflow.IpSet.{Ipv4Range, starts_before, joins, merge_into, merge_sorted, merge_ranges}

abbrev pub holds_in : ℕ → List Ipv4Range → Bool
holds_in v ranges = any_within Ipv4Range.start Ipv4Range.end v ranges

abbrev pub AreApart : List Ipv4Range → Type 0
AreApart ranges = IsApart Ipv4Range.start Ipv4Range.end ranges

-- The address of 32 bits.
abbrev pub IsWord : ℕ → Type 0
IsWord v = v < 2 ^ 32

abbrev joined : Ipv4Range → Ipv4Range → Ipv4Range
joined last r = record last { end = max last.end r.end }

joined-holds :
    (v : ℕ) (last r : Ipv4Range)
    → last.start ≤ r.start
    → IsWord r.start
    → joins last r ≡ true
    → within Ipv4Range.start Ipv4Range.end v (joined last r)
      ≡ (within Ipv4Range.start Ipv4Range.end v last || within Ipv4Range.start Ipv4Range.end v r)
joined-holds v last r h w j = ground arith

or_assoc : (a b c : Bool) → ((a || b) || c) ≡ (a || (b || c))
or_assoc true b c = refl
or_assoc false b c = refl

-- The ranges that are left to merge start at the one in hand, or behind.
abbrev StartBehind : ℕ → List Ipv4Range → Type 0
StartBehind n ranges = All (λ r. (n ≤ r.start) × IsWord r.start) ranges

merge_into-holds :
    (v : ℕ) (last : Ipv4Range) (ranges : List Ipv4Range)
    → IsOrdered starts_before (last ∷ ranges)
    → All (λ r. IsWord r.start) ranges
    → holds_in v (merge_into last ranges)
      ≡ (within Ipv4Range.start Ipv4Range.end v last || holds_in v ranges)
unfolding merge_into
merge_into-holds v last [] o w = refl
merge_into-holds v last (r ∷ ranges) ((h, hs), o) (w, ws) = elim (Bool-cases (joins last r)) [
  | inl j ↦ rw j (
      merge_into-holds v (joined last r) ranges (hs, o.1) ws
      ∙ ap (λ b. b || holds_in v ranges) (joined-holds v last r (ground (arith, h)) w j)
      ∙ or_assoc (within Ipv4Range.start Ipv4Range.end v last)
          (within Ipv4Range.start Ipv4Range.end v r) (holds_in v ranges))
  | inr j ↦ rw j (
      ap (λ b. within Ipv4Range.start Ipv4Range.end v last || b) (merge_into-holds v r ranges o ws))
]

merge_into-starts :
    (n : ℕ) (last : Ipv4Range) (ranges : List Ipv4Range)
    → n ≤ last.start
    → All (λ r. n ≤ r.start) ranges
    → All (λ r. n ≤ r.start) (merge_into last ranges)
unfolding merge_into
merge_into-starts n last [] h hs = (h, tt)
merge_into-starts n last (r ∷ ranges) h (k, ks) = elim (Bool-cases (joins last r)) [
  | inl j ↦ rw j (merge_into-starts n (joined last r) ranges h ks)
  | inr j ↦ rw j (h, merge_into-starts n r ranges k ks)
]

behind :
    (last r y : Ipv4Range)
    → starts_before r last ≡ false
    → joins last r ≡ false
    → r.start ≤ y.start
    → (last.start ≤ y.start) × (last.end < y.start)
behind last r y h j le = ground arith

merge_into-AreApart :
    (last : Ipv4Range) (ranges : List Ipv4Range)
    → IsOrdered starts_before (last ∷ ranges)
    → AreApart (merge_into last ranges)
unfolding merge_into
merge_into-AreApart last [] o = (tt, tt)
merge_into-AreApart last (r ∷ ranges) ((h, hs), o) = elim (Bool-cases (joins last r)) [
  | inl j ↦ rw j (merge_into-AreApart (joined last r) ranges (hs, o.1))
  | inr j ↦ rw j (
    All-of_In (λ y. (last.start ≤ y.start) × (last.end < y.start)) (merge_into r ranges)
        (λ y i. behind last r y h j (
          All-In (λ z. r.start ≤ z.start) y _
            (merge_into-starts r.start r ranges (omega arith) (
              All-of_In (λ z. r.start ≤ z.start) ranges
                (λ z k. ground (arith, All-In (λ u. starts_before u r ≡ false) z ranges o.0 k))))
            i)),
    merge_into-AreApart r ranges o,
  )
]

starts_before-IsOrder : IsOrder starts_before
starts_before-IsOrder = record {
  asym = λ a b h. ground arith;
  neg_trans = λ a b c h k. ground arith;
}

any_within-In :
    (v : ℕ) (r : Ipv4Range) (ranges : List Ipv4Range)
    → In r ranges
    → within Ipv4Range.start Ipv4Range.end v r ≡ true
    → holds_in v ranges ≡ true
any_within-In v r (x ∷ ranges) (inl e) h =
    subst (λ y. (within Ipv4Range.start Ipv4Range.end v y || holds_in v ranges) ≡ true) (sym e)
      (rw h refl)
any_within-In v r (x ∷ ranges) (inr i) h = ground (arith, any_within-In v r ranges i h)
any_within-In v r [] i h = absurd i

In-any_within :
    (v : ℕ) (ranges : List Ipv4Range)
    → holds_in v ranges ≡ true
    → (r : Ipv4Range) × In r ranges × (within Ipv4Range.start Ipv4Range.end v r ≡ true)
In-any_within v [] h = ground arith
In-any_within v (x ∷ ranges) h = elim (Bool-cases (within Ipv4Range.start Ipv4Range.end v x)) [
  | inl e ↦ (x, inl refl, e)
  | inr e ↦ let (r, i, w) = In-any_within v ranges (ground (arith, e, h)) in (r, inr i, w)
]

sort_by-holds :
    (v : ℕ) (ranges : List Ipv4Range)
    → holds_in v (sort_by starts_before ranges) ≡ holds_in v ranges
sort_by-holds v ranges = elim (Bool-cases (holds_in v ranges)) [
  | inl e ↦
      let (r, i, w) = In-any_within v ranges e in
      any_within-In v r (sort_by starts_before ranges) ((In-sort_by starts_before r ranges).1 i) w
      ∙ sym e
  | inr e ↦ elim (Bool-cases (holds_in v (sort_by starts_before ranges))) [
    | inr f ↦ f ∙ sym e
    | inl f ↦
        let (r, i, w) = In-any_within v (sort_by starts_before ranges) f in
        ground (arith, e, any_within-In v r ranges ((In-sort_by starts_before r ranges).0 i) w)
  ]
]

merge_sorted_lem :
    (v : ℕ) (ranges : List Ipv4Range)
    → IsOrdered starts_before ranges
    → All (λ r. IsWord r.start) ranges
    → AreApart (merge_sorted ranges) × (holds_in v (merge_sorted ranges) ≡ holds_in v ranges)
unfolding merge_sorted
merge_sorted_lem v [] o w = (tt, refl)
merge_sorted_lem v (r ∷ ranges) o w =
    (merge_into-AreApart r ranges o, merge_into-holds v r ranges o w.1)

-- Merging leaves ranges that lie apart in ascending order, and the same addresses lie in them.
pub merge_ranges_lem :
    (v : ℕ) (ranges : List Ipv4Range)
    → All (λ r. IsWord r.start) ranges
    → AreApart (merge_ranges ranges) × (holds_in v (merge_ranges ranges) ≡ holds_in v ranges)
unfolding merge_ranges
merge_ranges_lem v ranges w =
    let (apart, same) =
      merge_sorted_lem v (sort_by starts_before ranges)
        (sort_by-IsOrdered starts_before starts_before-IsOrder ranges)
        (All-of_In (λ r. IsWord r.start) (sort_by starts_before ranges)
          (λ r i.
            All-In (λ r. IsWord r.start) r ranges w ((In-sort_by starts_before r ranges).0 i))) in
    (apart, same ∙ sort_by-holds v ranges)
