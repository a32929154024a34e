-- ===== src/Netflow/Tests.antt =====
-- Concrete flows, and the theorems about placing and counting them at concrete inputs.
use tikman.Prelude.{
  ℕ, ◌+◌, ◌*◌, ◌≤◌, ◌≡◌, refl, arith, Bool, false, some, List, [], ◌∷◌, All, length, nat_eq,
  nat_beq, ◌⊎◌,
}
use tikman.Prelude.Assoc.{Assoc, lookup, total}
use tikman.Prelude.Sort.{In, IsTop, sort_by, insert_by}
use tikman.Netflow.Addr.{v4, Prefix, no_prefix, contains}
use tikman.Netflow.Template.{Flow}
use tikman.Netflow.Prefixes.{lookup_addr, lookup_lengths}
use tikman.Netflow.Classify.{
  download, RouterMap, Classified, max_count, max_flow_packets, scaled, scale, place, place_side,
  classify, most_specific, most_specific_from,
}
use tikman.Netflow.Classify.Scale.{classify_counts}
use tikman.Netflow.Classify.Place.{
  IsDownload, IsUpload, IsLongest, classify_sides, most_specific_lem,
}
use tikman.Netflow.Aggregate.{
  MinuteKey, minute_key_eq, group_key_eq, Aggregator, new_aggregator, reset_minute, reset_window,
  other_key, add_minute,
}
use tikman.Netflow.Aggregate.Minute.{picked, total-add_minute}
use tikman.Netflow.Aggregate.Run.{IsBounded, Call, add_flow, end_minute, run, run-IsBounded}
use tikman.Netflow.Aggregate.Close.{
  MinuteRow, close_minute, top_asns, top_asns_kept, or_empty, largest_asns, TopIpRow, top_of_group,
  top_ips_kept, group_of,
}
use tikman.Netflow.Aggregate.Close.Totals.{rows_total, total-close_minute}
use tikman.Netflow.Aggregate.Close.Top.{
  IsKept, AsnAhead, largest_asns-IsTop, top_of_group-IsTop, close_minute-IsKept,
}

abbrev own_block : Prefix
own_block = record { addr = v4 0xc0a80000; bits = 16 }

abbrev own_part : Prefix
own_part = record { addr = v4 0xc0a80100; bits = 24 }

abbrev router : RouterMap
router = record {
  router_id = 1;
  sampling = 1000;
  upstreams = (5, 77) ∷ [];
  pops = record { by_length = []; lengths = [] };
  own = own_block ∷ own_part ∷ [];
}

abbrev flow : Flow
flow = record {
  src = v4 0x08080808;
  dst = v4 0xc0a80105;
  ingress = 5;
  egress = 2;
  bytes = 1500;
  packets = 1;
}

abbrev placed : Classified
placed = record {
  pop = 0;
  upstream = 77;
  direction = download;
  remote = v4 0x08080808;
  own_prefix = own_part;
  bytes = 1500000;
  packets = 1000;
}

classify_one : classify router flow ≡ some placed
unfolding classify scale scaled place_side place lookup lookup_addr lookup_lengths most_specific
    most_specific_from
classify_one = refl

classify_counts_example :
    (placed.bytes ≡ flow.bytes * router.sampling)
    × (placed.packets ≡ flow.packets * router.sampling)
    × (placed.bytes ≤ max_count)
    × (placed.packets ≤ max_flow_packets)
classify_counts_example = classify_counts router flow placed classify_one

classify_sides_example : IsDownload router flow placed ⊎ IsUpload router flow placed
classify_sides_example = classify_sides router flow placed classify_one

most_specific_lem_example :
    ((most_specific (own_block ∷ own_part ∷ []) (v4 0xc0a80105) ≡ no_prefix)
      × All (λ (p : Prefix). contains p (v4 0xc0a80105) ≡ false) (own_block ∷ own_part ∷ []))
    ⊎ (In (most_specific (own_block ∷ own_part ∷ []) (v4 0xc0a80105)) (own_block ∷ own_part ∷ [])
        × IsLongest
            (most_specific (own_block ∷ own_part ∷ []) (v4 0xc0a80105))
            (own_block ∷ own_part ∷ [])
            (v4 0xc0a80105))
most_specific_lem_example = most_specific_lem (own_block ∷ own_part ∷ []) (v4 0xc0a80105)

abbrev key : MinuteKey
key = record { router_id = 1; pop = 0; upstream = 77; direction = download; asn = 15169 }

abbrev of_router_one : MinuteKey → Bool
of_router_one k = nat_beq k.router_id 1

total-add_minute_example :
    total (picked of_router_one) (add_minute key placed (new_aggregator 0)).keys
    ≡ total (picked of_router_one) (new_aggregator 0).keys + 1500000
unfolding new_aggregator reset_minute reset_window
total-add_minute_example =
    total-add_minute of_router_one placed key (new_aggregator 0) refl (omega arith) tt

abbrev calls : List Call
calls = add_flow 1 placed 15169 ∷ end_minute 60000000000 ∷ add_flow 1 placed 0 ∷ []

run-IsBounded_example : IsBounded (run calls (new_aggregator 7))
run-IsBounded_example = run-IsBounded calls 7

abbrev open_minute : Aggregator
open_minute = record {
  minute = 0;
  keys =
      (key, record { bytes = 100; packets = 2 })
      ∷ (other_key key, record { bytes = 7; packets = 1 })
      ∷ [];
  keys_per_router = (1, 2) ∷ [];
  folded_flows = [];
  window = 0;
  ips = [];
  ips_per_pop = [];
  own = [];
}

total-close_minute_example :
    rows_total of_router_one (close_minute 60000000000 open_minute).0.0
    ≡ total (picked of_router_one) open_minute.keys
unfolding total
total-close_minute_example =
    total-close_minute of_router_one 60000000000 open_minute (λ k. refl) (omega arith)

close_minute-IsKept_example :
    All
      (λ (r : MinuteRow). IsKept (top_asns open_minute.keys) r.key)
      (close_minute 60000000000 open_minute).0.0
    × (length (or_empty (lookup (group_of key) (top_asns open_minute.keys))) ≤ top_asns_kept)
close_minute-IsKept_example = close_minute-IsKept 60000000000 open_minute (group_of key)

abbrev by_asn : Assoc ℕ ℕ
by_asn = (3, 10) ∷ (2, 10) ∷ (9, 40) ∷ []

largest_two : largest_asns by_asn 2 ≡ (9, 40) ∷ (2, 10) ∷ []
unfolding largest_asns sort_by insert_by
largest_two = refl

largest_asns-IsTop_example : IsTop AsnAhead 2 by_asn (largest_asns by_asn 2)
largest_asns-IsTop_example = largest_asns-IsTop by_asn 2

abbrev row : TopIpRow
row = record {
  time = 0;
  key = record { group = record { router_id = 1; pop = 0; direction = download }; ip = v4 9 };
  asn = 3;
  bytes = 10;
  flows = 1;
}

abbrev larger_row : TopIpRow
larger_row = record row { bytes = 40 }

top_of_group-IsTop_example :
    IsTop
      (λ y x. x.bytes ≤ y.bytes)
      top_ips_kept
      (row ∷ larger_row ∷ [])
      (top_of_group (row ∷ larger_row ∷ []))
top_of_group-IsTop_example = top_of_group-IsTop (row ∷ larger_row ∷ [])
