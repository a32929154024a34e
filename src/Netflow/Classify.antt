-- ===== src/Netflow/Classify.antt =====
-- backend/internal/netflow/classify.go: a flow placed on the router's topology.
-- A UUID is a number, and `uuid.Nil` is 0.
pub mod Place
pub mod Scale
use tikman.Prelude.{
  ℕ, ◌+◌, ◌*◌, ◌/◌, ◌%◌, ◌^◌, Bool, true, false, ◌&&◌, ◌||◌, not, Option, none, some, List, [], ◌∷◌,
  leb, ltb, nat_beq, nat_eq, if◌then◌else◌,
}
use tikman.Prelude.Assoc.{Assoc, lookup}
use tikman.Netflow.Addr.{Addr, Prefix, no_prefix, is_valid, contains}
use tikman.Netflow.Prefixes.{PrefixTable, lookup_addr}
use tikman.Netflow.Template.{Flow}

pub data Direction : Type 0 where
  download upload : Direction

abbrev pub max_count : ℕ
max_count = 2 ^ 52

abbrev pub max_flow_packets : ℕ
max_flow_packets = 2 ^ 52 / 20

pub record RouterMap : Type 0 where
  pub router_id : ℕ
  pub sampling : ℕ
  pub upstreams : Assoc ℕ ℕ
  pub pops : PrefixTable
  pub own : List Prefix

pub record Classified : Type 0 where
  pub pop : ℕ
  pub upstream : ℕ
  pub direction : Direction
  pub remote : Addr
  pub own_prefix : Prefix
  pub bytes : ℕ
  pub packets : ℕ

-- `bits.Mul64`: the high and the low half of the product.
abbrev pub mul64 : ℕ → ℕ → ℕ × ℕ
mul64 a b = (a * b / 2 ^ 64, a * b % 2 ^ 64)

unfoldable pub scaled : ℕ → ℕ → ℕ → ℕ × Bool
scaled n sampling limit = let (hi, lo) = mul64 n sampling in (lo, nat_beq hi 0 && leb lo limit)

unfoldable pub scale : RouterMap → Flow → ℕ × ℕ × Bool
scale m f =
    let (bytes, bytes_ok) = scaled f.bytes m.sampling max_count in
    let (packets, packets_ok) = scaled f.packets m.sampling max_flow_packets in
    (bytes, packets, bytes_ok && packets_ok)

unfoldable pub plausible : RouterMap → Flow → Bool
plausible m f = (scale m f).2

-- The loop of `mostSpecific` with `best` so far.
unfoldable pub most_specific_from : Prefix → List Prefix → Addr → Prefix
most_specific_from best [] addr = best
most_specific_from best (p ∷ ps) addr =
    most_specific_from
      (if contains p addr && (not (is_valid best) || ltb best.bits p.bits) then p else best) ps addr

unfoldable pub most_specific : List Prefix → Addr → Prefix
most_specific prefixes addr = most_specific_from no_prefix prefixes addr

abbrev pub or_nil : Option ℕ → ℕ
or_nil none = 0
or_nil (some id) = id

-- The end of `Classify`, once the side of the upstream is known.
unfoldable pub place : RouterMap → ℕ → ℕ → ℕ → Direction → Addr → Addr → ℕ → Option Classified
place m bytes packets up direction local remote other_side =
    if nat_beq other_side 0
    then none
    else some (record {
      pop = or_nil (lookup_addr m.pops local);
      upstream = up;
      direction = direction;
      remote = remote;
      own_prefix = most_specific m.own local;
      bytes = bytes;
      packets = packets;
    })

unfoldable pub place_side : RouterMap → Flow → ℕ → ℕ → Option Classified
place_side m f bytes packets = elim (lookup f.ingress m.upstreams) [
  | some up ↦ place m bytes packets up download f.dst f.src f.egress
  | none ↦ elim (lookup f.egress m.upstreams) [
    | some up ↦ place m bytes packets up upload f.src f.dst f.ingress
    | none ↦ none
  ]
]

unfoldable pub classify : RouterMap → Flow → Option Classified
classify m f =
    let (bytes, packets, ok) = scale m f in if ok then place_side m f bytes packets else none
