-- ===== src/Netflow/Ipfix/Tests.antt =====
-- Concrete messages, and the theorems at concrete inputs.
use tikman.Prelude.{
  ℕ, ◌≤◌, ◌≡◌, refl, arith, Bool, true, false, List, Option, none, some, [], ◌∷◌, ◌++◌, length,
}
use tikman.Prelude.Bytes.{Bytes}
use tikman.Prelude.Assoc.{lookup, put}
use tikman.Prelude.Outcome.{ok, slice_from, slice, uint16, uint32}
use tikman.Netflow.Addr.{v4}
use tikman.Netflow.Template.{
  Flow, Field, Template, TemplateKey, key_eq, State, read_fields, read_field_specs, learn_templates,
  learn_loop, store, store_template, new_template, all_valid, length_valid, seen,
}
use tikman.Netflow.Template.Valid.{IsTable, IsTemplate}
use tikman.Netflow.Template.Store.{IsStored, store-IsStored}
use tikman.Netflow.Record.{decode_records}
use tikman.Netflow.Record.Safe.{AreIpv4}
use tikman.Netflow.Record.Flows.{IsLaidOut, encode_records, decode_records-encode_records}
use tikman.Netflow.Ipfix.{Error, not_ipfix, no_result, decode, decode_body, decode_sets, decode_set}
use tikman.Netflow.Ipfix.Safe.{decode_safe}

-- A template set: template 256 with two fields, a source address and a count of one byte.
abbrev template_message : Bytes
template_message =
    0 ∷ 10 ∷ 0 ∷ 32 ∷ 0 ∷ 0 ∷ 0 ∷ 0 ∷ 0 ∷ 0 ∷ 0 ∷ 0 ∷ 0 ∷ 0 ∷ 0 ∷ 7 ∷ 0 ∷ 2 ∷ 0 ∷ 16 ∷ 1 ∷ 0 ∷ 0 ∷ 2
    ∷ 0 ∷ 8 ∷ 0 ∷ 4 ∷ 0 ∷ 1 ∷ 0 ∷ 1 ∷ []

abbrev key : TemplateKey
key = record { domain = 7; id = 256 }

abbrev learnt : Template
learnt = record {
  fields = record { id = 8; length = 4 } ∷ record { id = 1; length = 1 } ∷ [];
  usable = false;
}

template_learnt : decode [] template_message ≡ ok (((key, learnt) ∷ [], no_result), none)
unfolding decode decode_body decode_sets decode_set learn_templates learn_loop read_fields
    read_field_specs store store_template new_template all_valid length_valid seen slice_from slice
    uint16 uint32 lookup put
template_learnt = refl

wrong_version :
    decode [] (0 ∷ 9 ∷ 0 ∷ 32 ∷ 0 ∷ 0 ∷ 0 ∷ 0 ∷ 0 ∷ 0 ∷ 0 ∷ 0 ∷ 0 ∷ 0 ∷ 0 ∷ 7 ∷ [])
    ≡ ok (([], no_result), some not_ipfix)
unfolding decode uint16
wrong_version = refl

abbrev no_table : IsTable []
no_table = record { each = tt; capped = omega arith }

decode_safe_example :
    (r : State × Option Error) × (decode [] template_message ≡ ok r)
    × IsTable r.0.0
    × AreIpv4 r.0.1.flows
    × (length r.0.1.flows ≤ length template_message)
decode_safe_example = decode_safe [] template_message no_table

store-IsStored_example :
    IsStored key
      (record { id = 8; length = 5 } ∷ [])
      true
      ((key, learnt) ∷ [], no_result)
      key
      (store key (record { id = 8; length = 5 } ∷ []) true ((key, learnt) ∷ [], no_result))
store-IsStored_example =
    store-IsStored key key (record { id = 8; length = 5 } ∷ []) true ((key, learnt) ∷ [], no_result)

abbrev field : ℕ → ℕ → Field
field id len = record { id = id; length = len }

-- Addresses, a counter of two bytes, a field of an enterprise, and one of variable length.
abbrev mixed : Template
mixed = record {
  fields = field 8 4 ∷ field 12 4 ∷ field 1 2 ∷ field 0 1 ∷ field 82 0xffff ∷ [];
  usable = true;
}

mixed-IsTemplate : IsTemplate mixed
unfolding all_valid length_valid seen
mixed-IsTemplate = record {
  nonempty = omega arith;
  sized = omega arith;
  lengths = refl;
  has_src = λ u. refl;
  has_dst = λ u. refl;
  has_count = λ u. refl;
}

abbrev one_record : Bool → List (Field × Bool × Bytes)
one_record long =
    (field 8 4, false, 10 ∷ 0 ∷ 0 ∷ 1 ∷ [])
    ∷ (field 12 4, false, 8 ∷ 8 ∷ 8 ∷ 8 ∷ [])
    ∷ (field 1 2, false, 1 ∷ 2 ∷ [])
    ∷ (field 0 1, false, 99 ∷ [])
    ∷ (field 82 0xffff, long, 101 ∷ 116 ∷ 104 ∷ [])
    ∷ []

one_record-IsLaidOut : (long : Bool) → IsLaidOut mixed (one_record long)
one_record-IsLaidOut long = record { fields = refl; fits = ground arith; bytes = omega arith }

abbrev mixed_flow : Flow
mixed_flow = record {
  src = v4 0x0a000001;
  dst = v4 0x08080808;
  ingress = 0;
  egress = 0;
  bytes = 258;
  packets = 0;
}

decode_records-encode_records_example :
    decode_records mixed (encode_records (one_record false ∷ one_record true ∷ []) ++ (0 ∷ 0 ∷ []))
    ≡ ok (mixed_flow ∷ mixed_flow ∷ [])
decode_records-encode_records_example =
    decode_records-encode_records mixed (one_record false ∷ one_record true ∷ []) (0 ∷ 0 ∷ [])
      mixed-IsTemplate (one_record-IsLaidOut false, (one_record-IsLaidOut true, tt)) (omega arith)
