-- ===== src/Netflow/Aggregate.antt =====
-- backend/internal/netflow/aggregate.go: flows added into the open minute and the open window.
-- A UUID is a number, a `time.Time` the nanoseconds since the zero time. A map to counters holds the
-- counters themselves, since no counter is shared between two keys. `range` over a map goes through
-- the entries in the order of the list; no theorem depends on which order that is.
pub mod Keys
pub mod Close
pub mod Count
pub mod Minute
pub mod Ips
pub mod Run
pub use Keys.*
use tikman.Prelude.{
  ℕ, zero, suc, ◌+◌, ◌-◌, ◌*◌, ◌/◌, ◌%◌, ◌^◌, ◌↔◌, ◌≡◌, arith, Bool, true, false, ◌&&◌, ◌||◌, not,
  Option, none, some, List, [], ◌∷◌, leb, ltb, nat_beq, nat_eq, if◌then◌else◌, is_some, Comparable,
}
use tikman.Prelude.Assoc.{Assoc, lookup, put}
use tikman.Netflow.Addr.{Addr, beq_addr, beq_addr_iff, Prefix, beq_prefix, beq_prefix_iff, is_valid}
use tikman.Netflow.Classify.{Direction, download, upload, max_count, Classified}

abbrev pub max_keys_per_router : ℕ
max_keys_per_router = 50000

abbrev pub max_ips_per_pop : ℕ
max_ips_per_pop = 100000

abbrev pub other_asn : ℕ
other_asn = 0

abbrev pub minute_length : ℕ
minute_length = 60000000000

abbrev pub window_length : ℕ
window_length = 300000000000

pub record Counter : Type 0 where
  pub bytes : ℕ
  pub packets : ℕ

pub record IpCounter : Type 0 where
  pub asn : ℕ
  pub bytes : ℕ
  pub flows : ℕ

pub record Aggregator : Type 0 where
  pub minute : ℕ
  pub keys : Assoc MinuteKey Counter
  pub keys_per_router : Assoc ℕ ℕ
  pub folded_flows : Assoc ℕ ℕ
  pub window : ℕ
  pub ips : Assoc IpKey IpCounter
  pub ips_per_pop : Assoc PopKey ℕ
  pub own : Assoc OwnKey ℕ

-- `t.Truncate(d)`
abbrev pub truncate : ℕ → ℕ → ℕ
truncate t d = t - t % d

unfoldable pub reset_minute : ℕ → Aggregator → Aggregator
reset_minute now a = record a {
  minute = truncate now minute_length;
  keys = [];
  keys_per_router = [];
  folded_flows = [];
}

unfoldable pub reset_window : ℕ → Aggregator → Aggregator
reset_window now a = record a {
  window = truncate now window_length;
  ips = [];
  ips_per_pop = [];
  own = [];
}

unfoldable pub new_aggregator : ℕ → Aggregator
new_aggregator now = reset_window now (
    reset_minute now (record {
      minute = 0;
      keys = [];
      keys_per_router = [];
      folded_flows = [];
      window = 0;
      ips = [];
      ips_per_pop = [];
      own = [];
    }))

-- A missing key of a map of numbers reads as 0.
abbrev pub or_zero : Option ℕ → ℕ
or_zero none = 0
or_zero (some n) = n

-- `bits.Add64(sum, n, 0)` gives the low 64 bits and the carry.
unfoldable pub add_count : ℕ → ℕ → ℕ
add_count sum n =
    let total = (sum + n) % 2 ^ 64 in
    let carry = (sum + n) / 2 ^ 64 in
    if nat_beq carry 0 && ltb total max_count then total else max_count

abbrev pub no_count : Counter
no_count = record { bytes = 0; packets = 0 }

abbrev pub bump : Counter → ℕ → ℕ → Counter
bump cnt bytes packets = record {
  bytes = add_count cnt.bytes bytes;
  packets = add_count cnt.packets packets;
}

-- The end of `addMinute`: the counter of `key`, made if it is missing, takes the flow.
unfoldable pub count_key : MinuteKey → Classified → Aggregator → Aggregator
count_key key c a = elim (lookup key a.keys) [
  | some cnt ↦ record a { keys = put key (bump cnt c.bytes c.packets) a.keys }
  | none ↦ record a {
    keys = put key (bump no_count c.bytes c.packets) a.keys;
    keys_per_router =
        put key.router_id (or_zero (lookup key.router_id a.keys_per_router) + 1) a.keys_per_router;
  }
]

-- The router holds `MaxKeysPerRouter` keys and this one would be another.
unfoldable pub folds : MinuteKey → Aggregator → Bool
folds key a =
    not (is_some (lookup key a.keys))
    && not (nat_beq key.asn other_asn)
    && leb max_keys_per_router (or_zero (lookup key.router_id a.keys_per_router))

abbrev pub other_key : MinuteKey → MinuteKey
other_key key = record key { asn = other_asn }

abbrev pub fold_flow : ℕ → Aggregator → Aggregator
fold_flow router a = record a {
  folded_flows = put router ((or_zero (lookup router a.folded_flows) + 1) % 2 ^ 64) a.folded_flows;
}

unfoldable pub add_minute : MinuteKey → Classified → Aggregator → Aggregator
add_minute key c a =
    if folds key a
    then count_key (other_key key) c (fold_flow key.router_id a)
    else count_key key c a

abbrev pub count_ip : IpCounter → ℕ → IpCounter
count_ip cnt bytes = record cnt {
  bytes = add_count cnt.bytes bytes;
  flows = (cnt.flows + 1) % 2 ^ 64;
}

unfoldable pub add_ip : GroupKey → Classified → ℕ → Aggregator → Aggregator
add_ip g c asn a =
    let key : IpKey = record { group = g; ip = c.remote } in
    let pk : PopKey = record { router_id = g.router_id; pop = g.pop } in
    let held = or_zero (lookup pk a.ips_per_pop) in
    let new_counter : IpCounter = record { asn = asn; bytes = 0; flows = 0 } in
    elim (lookup key a.ips) [
      | some cnt ↦ record a { ips = put key (count_ip cnt c.bytes) a.ips }
      | none ↦ if leb max_ips_per_pop held then a else record a {
        ips_per_pop = put pk (held + 1) a.ips_per_pop;
        ips = put key (count_ip new_counter c.bytes) a.ips;
      }
    ]

unfoldable pub add_own : ℕ → Classified → Aggregator → Aggregator
add_own router c a =
    let key : OwnKey = record {
      router_id = router;
      prefix = c.own_prefix;
      upstream = c.upstream;
      direction = c.direction;
    } in
    if is_valid c.own_prefix
    then record a { own = put key (add_count (or_zero (lookup key a.own)) c.bytes) a.own }
    else a

unfoldable pub add : ℕ → Classified → ℕ → Aggregator → Aggregator
add router c asn a =
    let key : MinuteKey = record {
      router_id = router;
      pop = c.pop;
      upstream = c.upstream;
      direction = c.direction;
      asn = asn;
    } in
    let g : GroupKey = record { router_id = router; pop = c.pop; direction = c.direction } in
    add_own router c (add_ip g c asn (add_minute key c a))

unfoldable pub window_due : ℕ → Aggregator → Bool
window_due now a = not (nat_beq (truncate now window_length) a.window)
