-- ===== src/Netflow/Record/Short.antt =====
-- Bytes too short for a record are padding.
use tikman.Prelude.{
  ℕ, ◌+◌, ◌≤◌, ◌<◌, ◌≡◌, arith, true, none, some, List, [], ◌∷◌, length, ltb, nat_beq,
  if◌then◌else◌, Bool-cases, Option-cases, inl, inr, drop,
}
use tikman.Prelude.Bytes.{Bytes}
use tikman.Prelude.Outcome.{ok, Returns-ok, Returns-slice, slice_from_lem}
use tikman.Netflow.Template.{
  Flow, no_flow, Field, Template, variable_length, length_valid, all_valid,
}
use tikman.Netflow.Record.{field_length, decode_fields, decode_record}
use tikman.Netflow.Record.Safe.{set_field_safe, var_length_header}

-- The bytes that a field takes at least: its own length, if that is fixed, and else one for the prefix.
abbrev pub least : Field → ℕ
least f = if nat_beq f.length variable_length then 1 else f.length

abbrev pub least_size : List Field → ℕ
least_size [] = 0
least_size (f ∷ fs) = least f + least_size fs

-- A field takes those bytes, and an address just four.
field_length-least :
    (f : Field) (b : Bytes) (n header : ℕ)
    → length_valid f ≡ true
    → field_length f b ≡ some (n, header)
    → (least f ≤ header + n) × (f.id ≡ 8 → n ≡ 4) × (f.id ≡ 12 → n ≡ 4)
unfolding field_length length_valid
field_length-least f b n header valid e =
    (ground (arith, var_length_header b n header), ground arith, ground arith)

decode_fields_short :
    (fs : List Field) (b : Bytes) (off : ℕ) (f : Flow)
    → all_valid fs ≡ true
    → off ≤ length b
    → length b < off + least_size fs
    → decode_fields fs b off f ≡ ok none
unfolding decode_fields all_valid
decode_fields_short [] b off f valid h short = absurd (omega arith)
decode_fields_short (g ∷ fs) b off f valid h short =
    elim (Option-cases (field_length g (drop off b))) [
      | inl e ↦ ground (arith, slice_from_lem b off h)
      | inr ((n, header), e) ↦ elim (Bool-cases (ltb (length b) (off + header + n))) [
        | inl cut ↦ ground (arith, slice_from_lem b off h)
        | inr fits ↦
            let (takes, four8, four12) =
              field_length-least g (drop off b) n header (ground arith) e in
            let (part, e', len) =
              Returns-ok
                (Returns-slice b (off + header) (off + header + n) (omega arith) (ground arith)) in
            let (f', e'', sets) = Returns-ok (
              set_field_safe f g.id part (λ i. omega (arith, four8 i))
                (λ i. omega (arith, four12 i))) in
            ground (
              arith,
              e',
              e'',
              slice_from_lem b off h,
              decode_fields_short fs b (off + header + n) f' (ground arith) (ground arith)
                  (omega (arith, takes)),
            )
      ]
    ]

-- A body shorter than any record of a valid template holds no record.
pub decode_record_short :
    (t : Template) (b : Bytes)
    → all_valid t.fields ≡ true
    → length b < least_size t.fields
    → decode_record t b ≡ ok none
unfolding decode_record
decode_record_short t b valid short =
    decode_fields_short t.fields b 0 no_flow valid (omega arith) (omega arith)
