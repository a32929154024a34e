-- ===== src/Netflow/Aggregate/Run.antt =====
-- Any sequence of flows from a new aggregator, and the bounds on its memory.
use tikman.Prelude.{ℕ, ◌≡◌, refl, arith, List, [], ◌∷◌, nat_eq}
use tikman.Prelude.Assoc.{lookup, total}
use tikman.Netflow.Classify.{Classified}
use tikman.Netflow.Aggregate.{
  MinuteKey, minute_key_eq, GroupKey, pop_key_eq, Aggregator, reset_minute, reset_window,
  new_aggregator, count_key, add_minute, add_ip, add_own, add,
}
use tikman.Netflow.Aggregate.Minute.{IsMinute, add_minute-IsMinute}
use tikman.Netflow.Aggregate.Ips.{IsWindow, add_ip-IsWindow}
use tikman.Netflow.Aggregate.Close.{close_minute, close_window}

-- The two halves of the state do not touch each other.
add_ip-keys :
    (g : GroupKey) (c : Classified) (asn : ℕ) (a : Aggregator)
    → ((add_ip g c asn a).keys ≡ a.keys) × ((add_ip g c asn a).keys_per_router ≡ a.keys_per_router)
unfolding add_ip
add_ip-keys g c asn a = ground arith

add_minute-ips :
    (key : MinuteKey) (c : Classified) (a : Aggregator)
    → ((add_minute key c a).ips ≡ a.ips) × ((add_minute key c a).ips_per_pop ≡ a.ips_per_pop)
unfolding add_minute count_key
add_minute-ips key c a = ground arith

add_own-rest :
    (r : ℕ) (c : Classified) (a : Aggregator)
    → ((add_own r c a).keys ≡ a.keys)
      × ((add_own r c a).keys_per_router ≡ a.keys_per_router)
      × ((add_own r c a).ips ≡ a.ips)
      × ((add_own r c a).ips_per_pop ≡ a.ips_per_pop)
unfolding add_own
add_own-rest r c a = ground arith

IsMinute-same :
    (a b : Aggregator)
    → b.keys ≡ a.keys
    → b.keys_per_router ≡ a.keys_per_router
    → IsMinute a
    → IsMinute b
IsMinute-same a b e k h = record {
  counted = λ r. rw (e, k) (h.counted r);
  named = λ r. rw e (h.named r);
}

IsWindow-same :
    (a b : Aggregator) → b.ips ≡ a.ips → b.ips_per_pop ≡ a.ips_per_pop → IsWindow a → IsWindow b
IsWindow-same a b e k h = record {
  counted = λ pk. rw (e, k) (h.counted pk);
  capped = λ pk. rw e (h.capped pk);
}

abbrev pub IsBounded : Aggregator → Type 0
IsBounded a = IsMinute a × IsWindow a

add-IsBounded :
    (router : ℕ) (c : Classified) (asn : ℕ) (a : Aggregator)
    → IsBounded a
    → IsBounded (add router c asn a)
unfolding add
add-IsBounded router c asn a (hm, hw) =
    let key : MinuteKey = record {
      router_id = router;
      pop = c.pop;
      upstream = c.upstream;
      direction = c.direction;
      asn = asn;
    } in
    let g : GroupKey = record { router_id = router; pop = c.pop; direction = c.direction } in
    let a1 : Aggregator = add_minute key c a in
    let a2 : Aggregator = add_ip g c asn a1 in
    let (k, kr) = add_ip-keys g c asn a1 in
    let (i, ip) = add_minute-ips key c a in
    let (k', kr', i', ip') = add_own-rest router c a2 in
    (
      IsMinute-same a2 (add_own router c a2) k' kr'
          (IsMinute-same a1 a2 k kr (add_minute-IsMinute c key a hm)),
      IsWindow-same a2 (add_own router c a2) i' ip'
          (add_ip-IsWindow g c asn a1 (IsWindow-same a a1 i ip hw)),
    )

-- What flowd asks of the aggregator.
pub data Call : Type 0 where
  add_flow : ℕ → Classified → ℕ → Call
  end_minute end_window : ℕ → Call

unfoldable pub step : Call → Aggregator → Aggregator
step (add_flow router c asn) a = add router c asn a
step (end_minute now) a = (close_minute now a).1
step (end_window now) a = (close_window now a).1

unfoldable pub run : List Call → Aggregator → Aggregator
run [] a = a
run (c ∷ cs) a = run cs (step c a)

reset_minute-IsBounded : (now : ℕ) (a : Aggregator) → IsBounded a → IsBounded (reset_minute now a)
unfolding reset_minute lookup total
reset_minute-IsBounded now a (hm, hw) = (
  record { counted = λ r. refl; named = λ r. omega arith },
  IsWindow-same a (reset_minute now a) refl refl hw,
)

reset_window-IsBounded : (now : ℕ) (a : Aggregator) → IsMinute a → IsBounded (reset_window now a)
unfolding reset_window lookup total
reset_window-IsBounded now a hm = (
  IsMinute-same a (reset_window now a) refl refl hm,
  record { counted = λ r. refl; capped = λ r. omega arith },
)

new_aggregator-IsBounded : (now : ℕ) → IsBounded (new_aggregator now)
unfolding new_aggregator reset_minute lookup total
new_aggregator-IsBounded now =
    reset_window-IsBounded now _ (record { counted = λ r. refl; named = λ r. omega arith })

step-IsBounded : (c : Call) (a : Aggregator) → IsBounded a → IsBounded (step c a)
unfolding step close_minute close_window
step-IsBounded (add_flow router c asn) a h = add-IsBounded router c asn a h
step-IsBounded (end_minute now) a h = reset_minute-IsBounded now a h
step-IsBounded (end_window now) a h = reset_window-IsBounded now a h.0

run_from-IsBounded : (cs : List Call) (a : Aggregator) → IsBounded a → IsBounded (run cs a)
unfolding run
run_from-IsBounded [] a h = h
run_from-IsBounded (c ∷ cs) a h = run_from-IsBounded cs (step c a) (step-IsBounded c a h)

-- Whatever flows are added and whenever minutes and windows close: each router holds at most 50 000
-- keys of a named AS, each POP at most 100 000 addresses, and the numbers kept beside the maps are the
-- numbers of entries.
pub run-IsBounded : (cs : List Call) (now : ℕ) → IsBounded (run cs (new_aggregator now))
run-IsBounded cs now = run_from-IsBounded cs (new_aggregator now) (new_aggregator-IsBounded now)
