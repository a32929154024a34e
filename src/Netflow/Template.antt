-- ===== src/Netflow/Template.antt =====
-- backend/internal/netflow/ipfix_template.go: templates, and the records that they describe.
pub mod Valid
pub mod Store
use tikman.Prelude.{
  ℕ, zero, suc, ◌+◌, ◌*◌, ◌%◌, ◌^◌, ◌≡◌, ◌↔◌, bit_and, bit_or, Bool, true, false, ◌&&◌, ◌||◌, not,
  Option, none, some, List, [], ◌∷◌, ◌++◌, ltb, leb, nat_beq, nat_beq_iff, if◌then◌else◌, length,
  arith, Comparable, is_some,
}
use tikman.Prelude.Bytes.{Bytes}
use tikman.Prelude.Assoc.{Assoc, lookup, put, erase}
use tikman.Prelude.Outcome.{Outcome, ok, panic, stuck, ◌>>=◌, slice_from, slice, uint16}
use tikman.Netflow.Addr.{Addr, unset, v4}

pub record Flow : Type 0 where
  pub src : Addr
  pub dst : Addr
  pub ingress : ℕ
  pub egress : ℕ
  pub bytes : ℕ
  pub packets : ℕ

abbrev pub no_flow : Flow
no_flow = record { src = unset; dst = unset; ingress = 0; egress = 0; bytes = 0; packets = 0 }

pub record Res : Type 0 where
  pub flows : List Flow
  pub missing_template : ℕ
  pub rejected_templates : ℕ

pub record TemplateKey : Type 0 where
  pub domain : ℕ
  pub id : ℕ

abbrev pub beq_key : TemplateKey → TemplateKey → Bool
beq_key a b = nat_beq a.domain b.domain && nat_beq a.id b.id

pub beq_key_iff : (a b : TemplateKey) → (beq_key a b ≡ true) ↔ (a ≡ b)
beq_key_iff a b = ground arith

instance abbrev pub key_eq : Comparable TemplateKey
key_eq = record { same = beq_key; same_iff = beq_key_iff }

pub record Field : Type 0 where
  pub id : ℕ
  pub length : ℕ

pub record Template : Type 0 where
  pub fields : List Field
  pub usable : Bool

abbrev pub Templates : Type 0
Templates = Assoc TemplateKey Template

-- What a message changes: the table, and the result so far.
abbrev pub State : Type 0
State = Templates × Res

abbrev pub max_templates : ℕ
max_templates = 256

abbrev pub variable_length : ℕ
variable_length = 0xffff

-- `id&enterpriseBit != 0`
abbrev pub enterprise : ℕ → Bool
enterprise id = not (nat_beq (bit_and id 0x8000) 0)

-- Where the specification of a field ends that begins at `off`, and the field.
abbrev pub spec_end : ℕ → ℕ → ℕ
spec_end id off = if enterprise id then off + 8 else off + 4

abbrev pub spec_field : ℕ → ℕ → Field
spec_field id len = record { id = if enterprise id then 0 else id; length = len }

-- The loop of `readFields` over the fields still to read; `none` for a malformed record.
unfoldable pub read_field_specs : ℕ → Bytes → ℕ → List Field → Outcome (Option (List Field × ℕ))
read_field_specs zero b off fields = ok (some (fields, off))
read_field_specs (suc count) b off fields = if ltb (length b) (off + 4) then ok none else do
  ids ← slice_from b off
  id ← uint16 ids
  lens ← slice_from b (off + 2)
  len ← uint16 lens
  let after = read_field_specs count b (spec_end id off) (fields ++ (spec_field id len ∷ []))
  if nat_beq len 0 || ltb (length b) (spec_end id off) then ok none else after

unfoldable pub read_fields : Bytes → ℕ → Outcome (Option (List Field × ℕ))
read_fields b count = if ltb (length b) (count * 4) then ok none else read_field_specs count b 0 []

unfoldable pub length_valid : Field → Bool
length_valid f =
    if nat_beq f.id 8 || nat_beq f.id 12
    then nat_beq f.length 4
    else if nat_beq f.id 1 || nat_beq f.id 2
    then leb f.length 8
    else if nat_beq f.id 10 || nat_beq f.id 14
    then leb f.length 4
    else true

-- The set `seen` of `newTemplate`, once the loop has gone through all fields.
unfoldable pub seen : ℕ → List Field → Bool
seen id [] = false
seen id (f ∷ fs) = nat_beq f.id id || seen id fs

unfoldable pub all_valid : List Field → Bool
all_valid [] = true
all_valid (f ∷ fs) = length_valid f && all_valid fs

unfoldable pub new_template : List Field → Bool → Option Template
new_template fields is_data =
    if all_valid fields
    then some (record {
      fields = fields;
      usable = is_data && seen 8 fields && seen 12 fields && seen 1 fields;
    })
    else none

abbrev pub reject : Res → Res
reject res = record res { rejected_templates = res.rejected_templates + 1 }

-- The part of `store` behind the check for an empty field list.
unfoldable pub store_template : TemplateKey → Option Template → State → State
store_template key none (t, res) = (erase key t, reject res)
store_template key (some tmpl) (t, res) =
    if not (is_some (lookup key t)) && leb max_templates (length t)
    then (t, reject res)
    else (put key tmpl t, res)

unfoldable pub store : TemplateKey → List Field → Bool → State → State
store key [] is_data (t, res) = (erase key t, res)
store key (f ∷ fs) is_data s = store_template key (new_template (f ∷ fs) is_data) s

-- The loop of `learnTemplates`, for a header of four bytes, or six for options. A round takes the
-- header at least, so as many rounds as bytes, and one more, are enough.
unfoldable pub learn_loop : ℕ → ℕ → Bool → ℕ → Bytes → State → Outcome State
learn_loop header domain options zero body s = stuck
learn_loop header domain options (suc fuel) body s = if ltb (length body) header then ok s else do
  id ← uint16 body
  let after = do
    counts ← slice_from body 2
    count ← uint16 counts
    specs ← slice_from body header
    read ← read_fields specs count
    elim read [
      | none ↦ ok (s.0, reject s.1)
      | some (fields, used) ↦ do
        body' ← slice_from body (header + used)
        learn_loop header domain options fuel body'
            (store (record { domain = domain; id = id }) fields (not options) s)
    ]
  if ltb id 256 then ok s else after

unfoldable pub learn_templates : ℕ → Bytes → Bool → State → Outcome State
learn_templates domain body options s =
    learn_loop (if options then 6 else 4) domain options (suc (length body)) body s
