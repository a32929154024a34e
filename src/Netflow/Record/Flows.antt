-- ===== src/Netflow/Record/Flows.antt =====
-- Records laid out by a template are read back as the flows that they are about.
use mathlib.Core.List.{append_assoc, append-nil}
use tikman.Prelude.{
  Bool, ℕ, zero, suc, ◌+◌, ◌≤◌, ◌<◌, ◌≡◌, ◌∙◌, refl, sym, ap, arith, none, some, List, [], ◌∷◌,
  ◌++◌, map, length, All, length-append, true, if◌then◌else◌, Bool-cases, inl, inr,
}
use tikman.Prelude.Bytes.{Bytes, IsByte}
use tikman.Prelude.Outcome.{ok, slice_from}
use tikman.Netflow.Template.{Flow, no_flow, Field, Template, all_valid}
use tikman.Netflow.Template.Valid.{IsSized, IsTemplate}
use tikman.Netflow.Record.{decode_record, records_loop, decode_records}
use tikman.Netflow.Record.Short.{least_size, decode_record_short}
use tikman.Netflow.Record.Values.{flow_of, set_all-filled}
use tikman.Netflow.Record.Layout.{
  Fits, encode_record, prefix, decode_fields-encode_record, slice_from-append,
}

-- A record of a template: a value for each of its fields, in their order, of just the field's length
-- where that is fixed. The flag of a value asks for the length prefix of three bytes.
pub record IsLaidOut (t : Template) (fvs : List (Field × Bool × Bytes)) : Type 0 where
  pub fields : map (λ fv. fv.0) fvs ≡ t.fields
  pub fits : All Fits fvs
  pub bytes : All (λ fv. All IsByte fv.2) fvs

unfoldable pub encode_records : List (List (Field × Bool × Bytes)) → Bytes
encode_records [] = []
encode_records (fvs ∷ records) = encode_record fvs ++ encode_records records

decode_record-encode_record :
    (t : Template) (fvs : List (Field × Bool × Bytes)) (rest : Bytes)
    → all_valid t.fields ≡ true
    → IsLaidOut t fvs
    → decode_record t (encode_record fvs ++ rest)
      ≡ ok (some (flow_of fvs, length (encode_record fvs)))
unfolding decode_record
decode_record-encode_record t fvs rest valid h = rw (← h.fields) (
    decode_fields-encode_record fvs (encode_record fvs ++ rest) [] rest 0 no_flow h.fits refl refl
    ∙ rw (set_all-filled fvs no_flow (rw h.fields valid) h.fits h.bytes)
        (ap (λ n. ok (some (flow_of fvs, n))) (omega arith)))

length-encode_record :
    (fvs : List (Field × Bool × Bytes))
    → All IsSized (map (λ fv. fv.0) fvs)
    → 0 < length (map (λ fv. fv.0) fvs)
    → All Fits fvs
    → 0 < length (encode_record fvs)
unfolding encode_record prefix
length-encode_record [] sized some_field fits = absurd (omega arith)
length-encode_record ((f, long, v) ∷ fvs) (size, sized) some_field (fit, fits) = ground (
  arith,
  length-append (prefix f long v) (v ++ encode_record fvs),
  length-append v (encode_record fvs),
)

records_loop_step :
    (fuel : ℕ) (tmpl : Template) (body rest : Bytes) (flows : List Flow) (f : Flow) (used : ℕ)
    → 0 < length body
    → decode_record tmpl body ≡ ok (some (f, used))
    → slice_from body used ≡ ok rest
    → records_loop (suc fuel) tmpl body flows ≡ records_loop fuel tmpl rest (flows ++ (f ∷ []))
unfolding records_loop
records_loop_step fuel tmpl [] rest flows f used some_bytes e e' = absurd (omega arith)
records_loop_step fuel tmpl (b ∷ bs) rest flows f used some_bytes e e' = ground arith

records_loop_stop :
    (fuel : ℕ) (tmpl : Template) (body : Bytes) (flows : List Flow)
    → length body ≤ fuel
    → decode_record tmpl body ≡ ok none
    → records_loop fuel tmpl body flows ≡ ok flows
unfolding records_loop
records_loop_stop fuel tmpl [] flows h e = refl
records_loop_stop zero tmpl (b ∷ bs) flows h e = absurd (omega arith)
records_loop_stop (suc fuel) tmpl (b ∷ bs) flows h e = ground arith

module _ (t : Template) (valid : IsTemplate t) where
  takes : (fvs : List (Field × Bool × Bytes)) → IsLaidOut t fvs → 0 < length (encode_record fvs)
  takes fvs h =
      length-encode_record fvs (rw h.fields valid.sized) (rw h.fields valid.nonempty) h.fits

  records_loop-encode_records :
      (records : List (List (Field × Bool × Bytes))) (fuel : ℕ) (pad : Bytes) (flows : List Flow)
      → All (IsLaidOut t) records
      → length pad < least_size t.fields
      → length (encode_records records ++ pad) ≤ fuel
      → records_loop fuel t (encode_records records ++ pad) flows
        ≡ ok (flows ++ map flow_of records)
  unfolding encode_records
  records_loop-encode_records [] fuel pad flows h short enough =
      records_loop_stop fuel t pad flows enough (decode_record_short t pad valid.lengths short)
      ∙ ap ok (sym (append-nil flows))
  records_loop-encode_records (fvs ∷ records) zero pad flows (hx, hs) short enough = absurd (
      omega (
        arith,
        length-append (encode_record fvs ++ encode_records records) pad,
        length-append (encode_record fvs) (encode_records records),
        takes fvs hx,
      ))
  records_loop-encode_records (fvs ∷ records) (suc fuel) pad flows (hx, hs) short enough =
      ap (λ b. records_loop (suc fuel) t b flows) regroup
      ∙ records_loop_step fuel t (encode_record fvs ++ (encode_records records ++ pad))
          (encode_records records ++ pad) flows (flow_of fvs) (length (encode_record fvs))
          (omega (arith, sizes, takes fvs hx))
          (decode_record-encode_record t fvs (encode_records records ++ pad) valid.lengths hx)
          (slice_from-append _ (encode_record fvs) (encode_records records ++ pad) _ refl refl)
      ∙ records_loop-encode_records records fuel pad (flows ++ (flow_of fvs ∷ [])) hs short
          (omega (arith, sizes, takes fvs hx, ap (λ (b : Bytes). length b) regroup))
      ∙ ap ok (append_assoc flows (flow_of fvs ∷ []) (map flow_of records))
    where
      regroup :
          (encode_record fvs ++ encode_records records) ++ pad
          ≡ encode_record fvs ++ (encode_records records ++ pad)
      regroup = append_assoc (encode_record fvs) (encode_records records) pad

      sizes :
          length (encode_record fvs ++ (encode_records records ++ pad))
          ≡ length (encode_record fvs) + length (encode_records records ++ pad)
      sizes = length-append (encode_record fvs) (encode_records records ++ pad)

-- Records laid out by any template of the table, one after the other, and padded by less than the
-- template's shortest record, are read as just their flows, in that order, and as none where the
-- template is not usable. The fields may be of any length that the template may have, reduced and
-- variable ones included, with either length prefix, and of elements that are not read, which add nothing; of an element that has
-- two fields the later one counts.
pub decode_records-encode_records :
    (t : Template) (records : List (List (Field × Bool × Bytes))) (pad : Bytes)
    → IsTemplate t
    → All (IsLaidOut t) records
    → length pad < least_size t.fields
    → decode_records t (encode_records records ++ pad)
      ≡ ok (if t.usable then map flow_of records else [])
unfolding decode_records
decode_records-encode_records t records pad valid h short = elim (Bool-cases t.usable) [
  | inl u ↦ ground (
    arith,
    records_loop-encode_records t valid records (length (encode_records records ++ pad)) pad [] h
        short (omega arith),
  )
  | inr u ↦ ground arith
]
