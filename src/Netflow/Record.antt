-- ===== src/Netflow/Record.antt =====
-- backend/internal/netflow/ipfix_template.go: the records of a data set, read by their template.
pub mod Safe
pub mod Layout
pub mod Values
pub mod Short
pub mod Flows
use tikman.Prelude.{
  ℕ, zero, suc, ◌+◌, ◌*◌, ◌%◌, ◌^◌, ◌≡◌, ◌↔◌, bit_and, bit_or, Bool, true, false, ◌&&◌, ◌||◌, not,
  Option, none, some, List, [], ◌∷◌, ◌++◌, ltb, leb, nat_beq, nat_beq_iff, if◌then◌else◌, length,
  arith, Comparable, is_some,
}
use tikman.Prelude.Bytes.{Bytes}
use tikman.Prelude.Assoc.{Assoc, lookup, put, erase}
use tikman.Prelude.Outcome.{Outcome, ok, panic, stuck, ◌>>=◌, slice_from, slice, uint16}
use tikman.Netflow.Addr.{Addr, unset, v4}
use tikman.Netflow.Template.{Flow, no_flow, Field, Template, variable_length}

-- `n = n<<8 | uint64(b)`
unfoldable pub be_uint : ℕ → Bytes → ℕ
be_uint n [] = n
be_uint n (b ∷ v) = be_uint (bit_or (n * 256 % 2 ^ 64) b) v

-- `netip.AddrFrom4([4]byte(v))`: the conversion panics on a shorter slice.
unfoldable pub addr_from4 : Bytes → Outcome Addr
addr_from4 (a ∷ b ∷ c ∷ d ∷ r) = ok (v4 (((a * 256 + b) * 256 + c) * 256 + d))
addr_from4 _ = panic

unfoldable pub set_field : Flow → ℕ → Bytes → Outcome Flow
set_field f id v =
    if nat_beq id 8
    then (addr_from4 v >>= λ a. ok (record f { src = a }))
    else if nat_beq id 12
    then (addr_from4 v >>= λ a. ok (record f { dst = a }))
    else if nat_beq id 10
    then ok (record f { ingress = be_uint 0 v % 2 ^ 32 })
    else if nat_beq id 14
    then ok (record f { egress = be_uint 0 v % 2 ^ 32 })
    else if nat_beq id 1
    then ok (record f { bytes = be_uint 0 v })
    else if nat_beq id 2
    then ok (record f { packets = be_uint 0 v })
    else ok f

-- The length behind a first byte of 255.
unfoldable pub long_length : Bytes → Option (ℕ × ℕ)
long_length (b ∷ c ∷ r) = some (b * 256 + c, 3)
long_length _ = none

unfoldable pub var_length : Bytes → Option (ℕ × ℕ)
var_length [] = none
var_length (b ∷ r) = if ltb b 255 then some (b, 1) else long_length r

-- The bytes of a field, and those of its own length before them.
unfoldable pub field_length : Field → Bytes → Option (ℕ × ℕ)
field_length field b =
    if nat_beq field.length variable_length then var_length b else some (field.length, 0)

-- The loop of `decodeRecord` over the fields left.
unfoldable pub decode_fields : List Field → Bytes → ℕ → Flow → Outcome (Option (Flow × ℕ))
decode_fields [] b off flow = ok (some (flow, off))
decode_fields (field ∷ fields) b off flow = do
  at ← slice_from b off
  elim (field_length field at) [
    | none ↦ ok none
    | some (n, header) ↦
        let after = do
          v ← slice b (off + header) (off + header + n)
          flow' ← set_field flow field.id v
          decode_fields fields b (off + header + n) flow'
        in if ltb (length b) (off + header + n) then ok none else after
  ]

unfoldable pub decode_record : Template → Bytes → Outcome (Option (Flow × ℕ))
decode_record tmpl b = decode_fields tmpl.fields b 0 no_flow

unfoldable pub records_loop : ℕ → Template → Bytes → List Flow → Outcome (List Flow)
records_loop fuel tmpl [] flows = ok flows
records_loop zero tmpl (b ∷ bs) flows = stuck
records_loop (suc fuel) tmpl (b ∷ bs) flows = do
  r ← decode_record tmpl (b ∷ bs)
  elim r [
    | none ↦ ok flows
    | some (flow, used) ↦ do
      body ← slice_from (b ∷ bs) used
      records_loop fuel tmpl body (flows ++ (flow ∷ []))
  ]

-- A record takes a byte at least where each field of the template does, so as many rounds as bytes
-- are enough.
unfoldable pub decode_records : Template → Bytes → Outcome (List Flow)
decode_records tmpl body = if tmpl.usable then records_loop (length body) tmpl body [] else ok []
