-- ===== src/Netflow/Aggregate/Close.antt =====
-- backend/internal/netflow/aggregate.go: closing the open minute and the open window.
pub mod Totals
pub mod Top
use tikman.Prelude.{
  ℕ, ◌+◌, ◌%◌, ◌^◌, Bool, true, false, ◌&&◌, ◌||◌, not, Option, none, some, List, [], ◌∷◌, ◌++◌,
  ltb, leb, nat_beq, nat_eq, if◌then◌else◌, take, map,
}
use tikman.Prelude.Assoc.{Assoc, lookup, put}
use tikman.Prelude.Sort.{sort_by}
use tikman.Netflow.Addr.{Addr, Prefix}
use tikman.Netflow.Classify.{Direction}
use tikman.Netflow.Aggregate.{
  MinuteKey, minute_key_eq, GroupKey, group_key_eq, IpKey, OwnKey, Counter, IpCounter, Aggregator,
  other_asn, other_key, no_count, bump, or_zero, reset_minute, reset_window,
}

abbrev pub top_asns_kept : ℕ
top_asns_kept = 20

abbrev pub top_ips_kept : ℕ
top_ips_kept = 100

abbrev pub group_of : MinuteKey → GroupKey
group_of key = record { router_id = key.router_id; pop = key.pop; direction = key.direction }

abbrev pub or_empty : {A : Type 0} → Option (List A) → List A
or_empty none = []
or_empty (some m) = m

-- One round of the first loop of `topASNs`.
unfoldable pub add_total :
    MinuteKey → Counter → Assoc GroupKey (Assoc ℕ ℕ) → Assoc GroupKey (Assoc ℕ ℕ)
add_total key cnt totals =
    let by_asn = or_empty (lookup (group_of key) totals) in
    let sum = (or_zero (lookup key.asn by_asn) + cnt.bytes) % 2 ^ 64 in
    if nat_beq key.asn other_asn then totals else put (group_of key) (put key.asn sum by_asn) totals

unfoldable pub group_totals :
    Assoc MinuteKey Counter → Assoc GroupKey (Assoc ℕ ℕ) → Assoc GroupKey (Assoc ℕ ℕ)
group_totals [] totals = totals
group_totals ((key, cnt) ∷ keys) totals = group_totals keys (add_total key cnt totals)

-- The order of `largestASNs`: more bytes first, and the lower number where they tie.
abbrev pub larger : ℕ × ℕ → ℕ × ℕ → Bool
larger (asn, bytes) (asn', bytes') = if nat_beq bytes bytes' then ltb asn asn' else ltb bytes' bytes

unfoldable pub largest_asns : Assoc ℕ ℕ → ℕ → List (ℕ × ℕ)
largest_asns by_asn n = take n (sort_by larger by_asn)

unfoldable pub top_asns : Assoc MinuteKey Counter → Assoc GroupKey (List (ℕ × ℕ))
top_asns keys = map (λ g. (g.0, largest_asns g.1 top_asns_kept)) (group_totals keys [])

unfoldable pub has_asn : ℕ → List (ℕ × ℕ) → Bool
has_asn asn [] = false
has_asn asn ((a, bytes) ∷ l) = nat_beq a asn || has_asn asn l

-- `keep[group][asn]`
unfoldable pub kept : Assoc GroupKey (List (ℕ × ℕ)) → MinuteKey → Bool
kept keep key = has_asn key.asn (or_empty (lookup (group_of key) keep))

unfoldable pub add_counter : Assoc MinuteKey Counter → MinuteKey → Counter → Assoc MinuteKey Counter
add_counter into key cnt = elim (lookup key into) [
  | some sum ↦ put key (bump sum cnt.bytes cnt.packets) into
  | none ↦ put key (bump no_count cnt.bytes cnt.packets) into
]

unfoldable pub merge :
    Assoc GroupKey (List (ℕ × ℕ))
    → Assoc MinuteKey Counter
    → Assoc MinuteKey Counter
    → Assoc MinuteKey Counter
merge keep [] merged = merged
merge keep ((key, cnt) ∷ keys) merged =
    merge keep keys (add_counter merged (if kept keep key then key else other_key key) cnt)

pub record MinuteRow : Type 0 where
  pub time : ℕ
  pub key : MinuteKey
  pub bytes : ℕ
  pub packets : ℕ

unfoldable pub minute_rows : ℕ → Assoc MinuteKey Counter → List MinuteRow
minute_rows time [] = []
minute_rows time ((key, cnt) ∷ merged) =
    record { time = time; key = key; bytes = cnt.bytes; packets = cnt.packets }
    ∷ minute_rows time merged

unfoldable pub close_minute : ℕ → Aggregator → (List MinuteRow × Assoc ℕ ℕ) × Aggregator
close_minute now a =
    ((minute_rows a.minute (merge (top_asns a.keys) a.keys []), a.folded_flows), reset_minute now a)

-- `country` and `anonymity` are left for flowd to fill in.
pub record TopIpRow : Type 0 where
  pub time : ℕ
  pub key : IpKey
  pub asn : ℕ
  pub bytes : ℕ
  pub flows : ℕ

pub record OwnPrefixRow : Type 0 where
  pub time : ℕ
  pub key : OwnKey
  pub bytes : ℕ

abbrev pub ip_row : ℕ → IpKey → IpCounter → TopIpRow
ip_row time key cnt = record {
  time = time;
  key = key;
  asn = cnt.asn;
  bytes = cnt.bytes;
  flows = cnt.flows;
}

unfoldable pub ip_groups :
    ℕ → Assoc IpKey IpCounter → Assoc GroupKey (List TopIpRow) → Assoc GroupKey (List TopIpRow)
ip_groups time [] groups = groups
ip_groups time ((key, cnt) ∷ ips) groups =
    ip_groups time ips
      (put key.group (or_empty (lookup key.group groups) ++ (ip_row time key cnt ∷ [])) groups)

abbrev pub more_bytes : TopIpRow → TopIpRow → Bool
more_bytes a b = ltb b.bytes a.bytes

unfoldable pub top_of_group : List TopIpRow → List TopIpRow
top_of_group group = take top_ips_kept (sort_by more_bytes group)

unfoldable pub top_of_groups : Assoc GroupKey (List TopIpRow) → List TopIpRow
top_of_groups [] = []
top_of_groups ((g, group) ∷ groups) = top_of_group group ++ top_of_groups groups

unfoldable pub own_rows : ℕ → Assoc OwnKey ℕ → List OwnPrefixRow
own_rows time [] = []
own_rows time ((key, bytes) ∷ own) =
    record { time = time; key = key; bytes = bytes } ∷ own_rows time own

unfoldable pub close_window : ℕ → Aggregator → (List TopIpRow × List OwnPrefixRow) × Aggregator
close_window now a =
    ((top_of_groups (ip_groups a.window a.ips []), own_rows a.window a.own), reset_window now a)
