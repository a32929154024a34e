-- ===== src/Netflow/Aggregate/Minute.antt =====
-- The open minute: totals are exact, whatever is folded, and no router takes more than its keys.
use tikman.Prelude.{
  ℕ, ◌+◌, ◌≤◌, ◌<◌, ◌≡◌, arith, Bool, false, ◌&&◌, not, none, [], ◌∷◌, All, nat_beq, nat_eq,
  if◌then◌else◌, Bool-cases, Option-cases, inl, inr,
}
use tikman.Prelude.Assoc.{
  Assoc, lookup, total, total-put_new, total-put_old, All-lookup, lookup-put,
}
use tikman.Netflow.Classify.{max_count, Classified}
use tikman.Netflow.Aggregate.{
  MinuteKey, minute_key_eq, Counter, Aggregator, or_zero, no_count, bump, count_key, folds,
  other_asn, other_key, fold_flow, add_minute, max_keys_per_router,
}
use tikman.Netflow.Aggregate.Count.{add_count_exact}

-- The bytes of all keys that a test picks.
abbrev pub picked : (MinuteKey → Bool) → MinuteKey → Counter → ℕ
picked q k cnt = if q k then cnt.bytes else 0

-- No counter comes near the cap with the flow added.
abbrev pub Fits : Classified → Aggregator → Type 0
Fits c a = All (λ p. p.1.bytes + c.bytes < max_count) a.keys

module _ (q : MinuteKey → Bool) (c : Classified) where
  total-count_key :
      (key : MinuteKey) (a : Aggregator)
      → c.bytes < max_count
      → Fits c a
      → total (picked q) (count_key key c a).keys
        ≡ total (picked q) a.keys + (if q key then c.bytes else 0)
  unfolding count_key
  total-count_key key a small fits = elim (Option-cases (lookup key a.keys)) [
    | inl e ↦
        rw (e, count_key)
          (ground (
            arith,
            total-put_new (picked q) key (bump no_count c.bytes c.packets) a.keys e,
            add_count_exact 0 c.bytes,
          ))
    | inr (cnt, e) ↦
        rw (e, count_key)
          (ground (
            arith,
            total-put_old (picked q) key (bump cnt c.bytes c.packets) cnt a.keys e,
            add_count_exact cnt.bytes c.bytes
                (All-lookup (λ (v : Counter). v.bytes + c.bytes < max_count) key cnt a.keys e fits),
          ))
  ]

  -- Take any test on keys that does not look at the AS. The bytes counted under the keys that it picks
  -- grow by the flow's bytes if it picks the flow's key, and not otherwise, also where the flow is
  -- folded into the key of the other ASes, provided that no counter reaches its cap.
  pub total-add_minute :
      (key : MinuteKey) (a : Aggregator)
      → q (other_key key) ≡ q key
      → c.bytes < max_count
      → Fits c a
      → total (picked q) (add_minute key c a).keys
        ≡ total (picked q) a.keys + (if q key then c.bytes else 0)
  unfolding add_minute
  total-add_minute key a blind small fits = elim (Bool-cases (folds key a)) [
    | inl fold ↦ rw fold (
        ground
          (arith, total-count_key (other_key key) (fold_flow key.router_id a) small fits, blind))
    | inr keep ↦ rw keep (total-count_key key a small fits)
  ]

-- The keys of one router, and those of a named AS among them.
abbrev pub of_router : ℕ → MinuteKey → Counter → ℕ
of_router r k cnt = if nat_beq k.router_id r then 1 else 0

abbrev pub named_of : ℕ → MinuteKey → Counter → ℕ
named_of r k cnt = if nat_beq k.router_id r && not (nat_beq k.asn other_asn) then 1 else 0

pub record IsMinute (a : Aggregator) : Type 0 where
  pub counted : (r : ℕ) → or_zero (lookup r a.keys_per_router) ≡ total (of_router r) a.keys
  pub named : (r : ℕ) → total (named_of r) a.keys ≤ max_keys_per_router

named-le : (r : ℕ) (m : Assoc MinuteKey Counter) → total (named_of r) m ≤ total (of_router r) m
unfolding total
named-le r [] = omega arith
named-le r ((k, v) ∷ m) = ground (arith, named-le r m)

module _ (c : Classified) where
  counted-count_key :
      (key : MinuteKey) (a : Aggregator) (r : ℕ)
      → or_zero (lookup r a.keys_per_router) ≡ total (of_router r) a.keys
      → or_zero (lookup r (count_key key c a).keys_per_router)
        ≡ total (of_router r) (count_key key c a).keys
  counted-count_key key a r h = elim (Option-cases (lookup key a.keys)) [
    | inl e ↦
        unfold count_key in
        rw (e, count_key)
          (ground (
            arith,
            total-put_new (of_router r) key (bump no_count c.bytes c.packets) a.keys e,
            lookup-put key.router_id r (or_zero (lookup key.router_id a.keys_per_router) + 1)
                a.keys_per_router,
          ))
    | inr (cnt, e) ↦
        unfold count_key in
        rw (e, count_key)
          (ground
            (arith, total-put_old (of_router r) key (bump cnt c.bytes c.packets) cnt a.keys e))
  ]

  named-count_key :
      (key : MinuteKey) (a : Aggregator) (r : ℕ)
      → total (named_of r) a.keys ≤ max_keys_per_router
      → (lookup key a.keys ≡ none
          → nat_beq key.asn other_asn ≡ false
          → total (named_of key.router_id) a.keys < max_keys_per_router)
      → total (named_of r) (count_key key c a).keys ≤ max_keys_per_router
  named-count_key key a r h room = elim (Option-cases (lookup key a.keys)) [
    | inl e ↦
        unfold count_key in
        rw (e, count_key)
          (ground (
            arith,
            room e,
            total-put_new (named_of r) key (bump no_count c.bytes c.packets) a.keys e,
          ))
    | inr (cnt, e) ↦
        unfold count_key in
        rw (e, count_key)
          (ground (arith, total-put_old (named_of r) key (bump cnt c.bytes c.packets) cnt a.keys e))
  ]

  -- Adding a flow keeps the books: the number kept for each router is the number of its keys, and at
  -- most 50 000 of them name an AS.
  pub add_minute-IsMinute :
      (key : MinuteKey) (a : Aggregator) → IsMinute a → IsMinute (add_minute key c a)
  unfolding add_minute folds
  add_minute-IsMinute key a h = elim (Bool-cases (folds key a)) [
    | inl fold ↦
        rw (fold, add_minute)
          (record {
            counted =
                λ r. counted-count_key (other_key key) (fold_flow key.router_id a) r (h.counted r);
            named = λ r.
                named-count_key (other_key key) (fold_flow key.router_id a) r (h.named r)
                  (λ e other. cc);
          })
    | inr keep ↦
        rw (keep, add_minute)
          (record {
            counted = λ r. counted-count_key key a r (h.counted r);
            named = λ r.
                named-count_key key a r (h.named r) (λ e other.
                  ground (arith, h.counted key.router_id, named-le key.router_id a.keys));
          })
  ]
