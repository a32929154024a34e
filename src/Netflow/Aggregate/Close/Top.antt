-- ===== src/Netflow/Aggregate/Close/Top.antt =====
-- What a closed minute and a closed window keep: the largest, and no more than their number.
use tikman.Prelude.{
  ℕ, ◌≤◌, ◌<◌, ◌≡◌, refl, arith, true, false, List, [], ◌∷◌, All, length, length-take,
  if◌then◌else◌, Bool-cases, Option-cases, ◌⊎◌, inl, inr, map,
}
use tikman.Prelude.Assoc.{Assoc, lookup, All-put_pair, All-lookup}
use tikman.Prelude.Sort.{IsOrder, IsTop, sort_by, take-sort_by-IsTop}
use tikman.Netflow.Aggregate.{
  MinuteKey, minute_key_eq, GroupKey, group_key_eq, Counter, Aggregator, other_key, other_asn,
  no_count, bump,
}
use tikman.Netflow.Aggregate.Close.{
  top_asns_kept, top_ips_kept, or_empty, larger, largest_asns, group_totals, top_asns, kept,
  add_counter, merge, MinuteRow, minute_rows, close_minute, TopIpRow, more_bytes, top_of_group,
}

larger-IsOrder : IsOrder larger
larger-IsOrder = record {
  asym = λ (a, x) (b, y) h. ground arith;
  neg_trans = λ (a, x) (b, y) (c, z) h k. ground arith;
}

more_bytes-IsOrder : IsOrder more_bytes
more_bytes-IsOrder = record { asym = λ a b h. ground arith; neg_trans = λ a b c h k. ground arith }

-- An AS with its bytes goes ahead of one with fewer, and of one with as many and no lower number.
abbrev pub AsnAhead : ℕ × ℕ → ℕ × ℕ → Type 0
AsnAhead (asn, bytes) (asn', bytes') = (bytes' < bytes) ⊎ ((bytes' ≡ bytes) × (asn ≤ asn'))

larger-AsnAhead : (y x : ℕ × ℕ) → larger x y ≡ false → AsnAhead y x
larger-AsnAhead (asn, bytes) (asn', bytes') h = ground arith

-- The ASes of a group that `largestASNs` keeps and those that it drops are together the ASes of the
-- group with their bytes, just `n` are kept unless the group has fewer, and each that is dropped has
-- fewer bytes than each that is kept, or as many and no lower number.
pub largest_asns-IsTop :
    (by_asn : Assoc ℕ ℕ) (n : ℕ) → IsTop AsnAhead n by_asn (largest_asns by_asn n)
unfolding largest_asns
largest_asns-IsTop by_asn n =
    take-sort_by-IsTop larger AsnAhead n by_asn larger-IsOrder larger-AsnAhead

-- The rows of a group that the closing of a window keeps and those that it drops are together the
-- rows of the group, just 100 are kept unless the group has fewer, and each that is dropped has no
-- more bytes than each that is kept.
pub top_of_group-IsTop :
    (group : List TopIpRow)
    → IsTop (λ y x. x.bytes ≤ y.bytes) top_ips_kept group (top_of_group group)
unfolding top_of_group
top_of_group-IsTop group =
    take-sort_by-IsTop more_bytes (λ y x. x.bytes ≤ y.bytes) top_ips_kept group more_bytes-IsOrder
      (λ y x h. ground arith)

-- A key that may have a row of its own, or that of the other ASes.
abbrev pub IsKept : Assoc GroupKey (List (ℕ × ℕ)) → MinuteKey → Type 0
IsKept keep k = (k.asn ≡ other_asn) ⊎ (kept keep k ≡ true)

module _ (keep : Assoc GroupKey (List (ℕ × ℕ))) where
  merge-IsKept :
      (keys merged : Assoc MinuteKey Counter)
      → All (λ p. IsKept keep p.0) merged
      → All (λ p. IsKept keep p.0) (merge keep keys merged)
  unfolding merge
  merge-IsKept [] merged h = h
  merge-IsKept ((key, cnt) ∷ keys) merged h =
      merge-IsKept keys (add_counter merged key' cnt) (elim (Option-cases (lookup key' merged)) [
        | inl e ↦
            unfold add_counter in
            rw (e, add_counter)
              (All-put_pair (λ p. IsKept keep p.0) key' (bump no_count cnt.bytes cnt.packets) merged
                fits h)
        | inr (sum, e) ↦
            unfold add_counter in
            rw (e, add_counter)
              (All-put_pair (λ p. IsKept keep p.0) key' (bump sum cnt.bytes cnt.packets) merged fits
                h)
      ])
    where
      key' : MinuteKey
      key' = if kept keep key then key else other_key key

      fits : IsKept keep key'
      fits = elim (Bool-cases (kept keep key)) [ inl e ↦ rw e (inr e) | inr e ↦ rw e (inl refl) ]

  rows-IsKept :
      (time : ℕ) (merged : Assoc MinuteKey Counter)
      → All (λ p. IsKept keep p.0) merged
      → All (λ (r : MinuteRow). IsKept keep r.key) (minute_rows time merged)
  unfolding minute_rows
  rows-IsKept time [] h = tt
  rows-IsKept time ((key, cnt) ∷ merged) (h, hs) = (h, rows-IsKept time merged hs)

short_asns : (by_asn : Assoc ℕ ℕ) → length (largest_asns by_asn top_asns_kept) ≤ top_asns_kept
unfolding largest_asns
short_asns by_asn = omega (arith, length-take top_asns_kept (sort_by larger by_asn))

short_groups :
    (totals : Assoc GroupKey (Assoc ℕ ℕ))
    → All
        (λ (p : GroupKey × List (ℕ × ℕ)). length p.1 ≤ top_asns_kept)
        (map (λ g. (g.0, largest_asns g.1 top_asns_kept)) totals)
short_groups [] = tt
short_groups ((g, by_asn) ∷ totals) = (omega (arith, short_asns by_asn), short_groups totals)

-- Each row of a closed minute is that of the other ASes or of an AS kept for its group, and for each
-- router, POP and direction at most 20 are kept.
pub close_minute-IsKept :
    (now : ℕ) (a : Aggregator) (g : GroupKey)
    → All (λ (r : MinuteRow). IsKept (top_asns a.keys) r.key) (close_minute now a).0.0
      × (length (or_empty (lookup g (top_asns a.keys))) ≤ top_asns_kept)
unfolding close_minute
close_minute-IsKept now a g = (
  rows-IsKept (top_asns a.keys) a.minute _ (merge-IsKept (top_asns a.keys) a.keys [] tt),
  elim (Option-cases (lookup g (top_asns a.keys))) [
    | inl e ↦ rw e (omega arith)
    | inr (l, e) ↦ rw e (
        All-lookup (λ (l : List (ℕ × ℕ)). length l ≤ top_asns_kept) g l (top_asns a.keys) e
          (unfold top_asns in short_groups (group_totals a.keys [])))
  ],
)
