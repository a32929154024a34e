-- ===== src/Netflow/Aggregate/Close/Totals.antt =====
-- Closing a minute keeps every total: what leaves the top is in the row of the other ASes.
use tikman.Prelude.{
  ℕ, ◌+◌, ◌<◌, ◌≡◌, ◌∙◌, refl, arith, Bool, true, List, [], ◌∷◌, if◌then◌else◌, Option-cases, inl,
  inr,
}
use tikman.Prelude.Assoc.{Assoc, lookup, total, total-put_new, total-put_old, lookup-le-total}
use tikman.Netflow.Classify.{max_count}
use tikman.Netflow.Aggregate.{
  MinuteKey, minute_key_eq, GroupKey, Counter, Aggregator, other_key, no_count, bump,
}
use tikman.Netflow.Aggregate.Count.{add_count_exact}
use tikman.Netflow.Aggregate.Minute.{picked}
use tikman.Netflow.Aggregate.Close.{
  kept, add_counter, merge, top_asns, MinuteRow, minute_rows, close_minute,
}

-- The bytes of all keys, and of the rows that a test picks.
abbrev pub all_bytes : Assoc MinuteKey Counter → ℕ
all_bytes = total (picked (λ k. true))

unfoldable pub rows_total : (MinuteKey → Bool) → List MinuteRow → ℕ
rows_total q [] = 0
rows_total q (r ∷ rs) = (if q r.key then r.bytes else 0) + rows_total q rs

module _ (q : MinuteKey → Bool) where
  total-add_counter :
      (into : Assoc MinuteKey Counter) (key : MinuteKey) (cnt : Counter)
      → all_bytes into + cnt.bytes < max_count
      → total (picked q) (add_counter into key cnt)
        ≡ total (picked q) into + (if q key then cnt.bytes else 0)
  total-add_counter into key cnt fits = elim (Option-cases (lookup key into)) [
    | inl e ↦
        unfold add_counter in
        rw (e, add_counter)
          (ground (
            arith,
            total-put_new (picked q) key (bump no_count cnt.bytes cnt.packets) into e,
            add_count_exact 0 cnt.bytes,
          ))
    | inr (sum, e) ↦
        unfold add_counter in
        rw (e, add_counter)
          (ground (
            arith,
            total-put_old (picked q) key (bump sum cnt.bytes cnt.packets) sum into e,
            lookup-le-total (picked (λ k. true)) key sum into e,
            add_count_exact sum.bytes cnt.bytes,
          ))
  ]

  total-minute_rows :
      (time : ℕ) (m : Assoc MinuteKey Counter)
      → rows_total q (minute_rows time m) ≡ total (picked q) m
  unfolding minute_rows rows_total total
  total-minute_rows time [] = refl
  total-minute_rows time ((key, cnt) ∷ m) = omega (arith, total-minute_rows time m)

module _ (q : MinuteKey → Bool) (blind : (k : MinuteKey) → q (other_key k) ≡ q k) where
  total-merge :
      (keep : Assoc GroupKey (List (ℕ × ℕ))) (keys merged : Assoc MinuteKey Counter)
      → all_bytes merged + all_bytes keys < max_count
      → total (picked q) (merge keep keys merged) ≡ total (picked q) merged + total (picked q) keys
  unfolding merge
  total-merge keep [] merged fits = unfold total in omega arith
  total-merge keep ((key, cnt) ∷ keys) merged fits =
      let key' : MinuteKey = if kept keep key then key else other_key key in
      let fits' : all_bytes merged + cnt.bytes + all_bytes keys < max_count =
        unfold total in omega arith in
      let same : q key' ≡ q key = ground (arith, blind key) in
      total-merge keep keys (add_counter merged key' cnt)
        (omega (arith, total-add_counter (λ k. true) merged key' cnt (omega arith)))
      ∙ unfold total in ground (arith, same, total-add_counter q merged key' cnt (omega arith))

-- For any test on keys that does not look at the AS, such as a router, a POP, an upstream and a
-- direction, the closed rows that it picks hold just the bytes of the open keys that it picks, provided
-- that all bytes of the minute together are below the cap.
pub total-close_minute :
    (q : MinuteKey → Bool) (now : ℕ) (a : Aggregator)
    → ((k : MinuteKey) → q (other_key k) ≡ q k)
    → all_bytes a.keys < max_count
    → rows_total q (close_minute now a).0.0 ≡ total (picked q) a.keys
unfolding close_minute
total-close_minute q now a blind fits =
    total-minute_rows q a.minute (merge (top_asns a.keys) a.keys [])
    ∙ total-merge q blind (top_asns a.keys) a.keys [] (unfold total in omega arith)
    ∙ unfold total in omega arith
