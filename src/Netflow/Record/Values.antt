-- ===== src/Netflow/Record/Values.antt =====
-- What a record laid out field after field says of its flow: of each element that flowd reads, the value
-- of its last field, as a big-endian number.
use tikman.Prelude.{
  ℕ, zero, suc, ◌+◌, ◌-◌, ◌*◌, ◌%◌, ◌^◌, ◌≤◌, ◌<◌, ◌≡◌, ◌∙◌, refl, ap, arith, Bool, true, ◌||◌,
  Option, none, some, List, [], ◌∷◌, map, length, All, nat_beq, if◌then◌else◌, Bool-cases,
  Option-cases, inl, inr,
}
use tikman.Prelude.Bits.{or_low}
use tikman.Prelude.Bytes.{Bytes, IsByte}
use tikman.Prelude.Outcome.{ok, ◌>>=◌}
use tikman.Netflow.Addr.{v4}
use tikman.Netflow.Template.{Flow, no_flow, Field, length_valid, all_valid}
use tikman.Netflow.Record.{be_uint, addr_from4, set_field}
use tikman.Netflow.Record.Layout.{Fits, set_all}

-- The number that `v` continues `n` to, in base 256.
abbrev pub digits_from : ℕ → Bytes → ℕ
digits_from n [] = n
digits_from n (b ∷ v) = digits_from (n * 256 + b) v

abbrev pub big_endian : Bytes → ℕ
big_endian v = digits_from 0 v

-- The value of the last field of an element.
abbrev pub value_of : ℕ → List (Field × Bool × Bytes) → Option Bytes
value_of id [] = none
value_of id ((f, long, v) ∷ fvs) = elim (value_of id fvs) [
  | some w ↦ some w
  | none ↦ if nat_beq f.id id then some v else none
]

abbrev pub read_or : {A : Type 0} → A → (Bytes → A) → Option Bytes → A
read_or absent read none = absent
read_or absent read (some v) = read v

-- What a flow becomes by the fields of a record.
abbrev pub filled : Flow → List (Field × Bool × Bytes) → Flow
filled f fvs = record {
  src = read_or f.src (λ v. v4 (big_endian v)) (value_of 8 fvs);
  dst = read_or f.dst (λ v. v4 (big_endian v)) (value_of 12 fvs);
  ingress = read_or f.ingress big_endian (value_of 10 fvs);
  egress = read_or f.egress big_endian (value_of 14 fvs);
  bytes = read_or f.bytes big_endian (value_of 1 fvs);
  packets = read_or f.packets big_endian (value_of 2 fvs);
}

-- The flow that a record is about.
abbrev pub flow_of : List (Field × Bool × Bytes) → Flow
flow_of = filled no_flow

-- One more than the largest number of `n` bytes.
abbrev below : ℕ → ℕ
below zero = 1
below (suc n) = 256 * below n

below_le : (n m : ℕ) → below n ≤ below (m + n)
below_le n zero = let same : 0 + n ≡ n = omega arith in rw same (omega arith)
below_le n (suc m) =
    let same : suc m + n ≡ suc (m + n) = omega arith in rw same (omega (arith, below_le n m))

seven : (k : ℕ) → k ≤ 7 → below (7 - k + k) ≡ 2 ^ 56
seven k h = let whole : 7 - k + k ≡ 7 = omega arith in rw whole refl

four : (k : ℕ) → k ≤ 4 → below (4 - k + (k + 0)) ≡ 2 ^ 32
four k h = let whole : 4 - k + (k + 0) ≡ 4 = omega arith in rw whole refl

digits_from-below :
    (v : Bytes) (n k : ℕ) → All IsByte v → n < below k → digits_from n v < below (length v + k)
digits_from-below [] n k h small = let same : 0 + k ≡ k = omega arith in rw same small
digits_from-below (b ∷ v) n k (hb, h) small =
    let shift : length v + suc k ≡ length (b ∷ v) + k = omega arith in
    omega (arith, ap below shift, digits_from-below v (n * 256 + b) (suc k) h (omega arith))

be_uint-digits_from :
    (v : Bytes) (n k : ℕ)
    → All IsByte v
    → n < below k
    → length v + k ≤ 8
    → be_uint n v ≡ digits_from n v
unfolding be_uint
be_uint-digits_from [] n k h small short = refl
be_uint-digits_from (b ∷ v) n k (hb, h) small short =
    let fits : n < 2 ^ 56 = omega (arith, below_le k (7 - k), seven k (omega arith)) in
    let low : n * 256 % 2 ^ 64 ≡ n * 256 = omega arith in
    rw low (
      ap (λ m. be_uint m v) (or_low 8 b n (omega arith))
      ∙ be_uint-digits_from v (n * 256 + b) (suc k) h (omega arith) (omega arith))

pub be_uint-big_endian : (v : Bytes) → All IsByte v → length v ≤ 8 → be_uint 0 v ≡ big_endian v
be_uint-big_endian v h short = be_uint-digits_from v 0 0 h (omega arith) (omega arith)

addr_from4-big_endian : (v : Bytes) → length v ≡ 4 → addr_from4 v ≡ ok (v4 (big_endian v))
unfolding addr_from4
addr_from4-big_endian [] h = absurd (omega arith)
addr_from4-big_endian (a ∷ []) h = absurd (omega arith)
addr_from4-big_endian (a ∷ b ∷ []) h = absurd (omega arith)
addr_from4-big_endian (a ∷ b ∷ c ∷ []) h = absurd (omega arith)
addr_from4-big_endian (a ∷ b ∷ c ∷ d ∷ []) h = ap (λ n. ok (v4 n)) (omega arith)
addr_from4-big_endian (a ∷ b ∷ c ∷ d ∷ e ∷ v) h = absurd (omega arith)

be_uint_index : (v : Bytes) → All IsByte v → length v ≤ 4 → be_uint 0 v % 2 ^ 32 ≡ big_endian v
be_uint_index v h short = omega (
  arith,
  be_uint-big_endian v h (omega arith),
  digits_from-below v 0 0 h (omega arith),
  below_le (length v + 0) (4 - length v),
  four (length v) short,
)

-- The value of the field in hand, unless a later field has one too.
read_or_step :
    {A : Type 0} (absent : A) (read : Bytes → A) (id : ℕ) (f : Field) (long : Bool) (v : Bytes)
    (fvs : List (Field × Bool × Bytes))
    → read_or (if nat_beq f.id id then read v else absent) read (value_of id fvs)
      ≡ read_or absent read (value_of id ((f, long, v) ∷ fvs))
read_or_step absent read id f long v fvs = elim (Option-cases (value_of id fvs)) [
  | inr (w, e) ↦ rw e refl
  | inl e ↦ elim (Bool-cases (nat_beq f.id id)) [ inl i ↦ rw (e, i) refl | inr i ↦ rw (e, i) refl ]
]

abbrev assign : Flow → Field → Bytes → Flow
assign flow f v = record {
  src = if nat_beq f.id 8 then v4 (big_endian v) else flow.src;
  dst = if nat_beq f.id 12 then v4 (big_endian v) else flow.dst;
  ingress = if nat_beq f.id 10 then big_endian v else flow.ingress;
  egress = if nat_beq f.id 14 then big_endian v else flow.egress;
  bytes = if nat_beq f.id 1 then big_endian v else flow.bytes;
  packets = if nat_beq f.id 2 then big_endian v else flow.packets;
}

filled-assign :
    (flow : Flow) (f : Field) (long : Bool) (v : Bytes) (fvs : List (Field × Bool × Bytes))
    → filled (assign flow f v) fvs ≡ filled flow ((f, long, v) ∷ fvs)
filled-assign flow f long v fvs =
    rw
      (
        read_or_step flow.src (λ v. v4 (big_endian v)) 8 f long v fvs,
        read_or_step flow.dst (λ v. v4 (big_endian v)) 12 f long v fvs,
        read_or_step flow.ingress big_endian 10 f long v fvs,
        read_or_step flow.egress big_endian 14 f long v fvs,
        read_or_step flow.bytes big_endian 1 f long v fvs,
        read_or_step flow.packets big_endian 2 f long v fvs,
      )
      refl

set_field-assign :
    (flow : Flow) (f : Field) (long : Bool) (v : Bytes)
    → length_valid f ≡ true
    → Fits (f, long, v)
    → All IsByte v
    → set_field flow f.id v ≡ ok (assign flow f v)
unfolding set_field length_valid
set_field-assign flow f long v valid fits h =
    elim (Bool-cases (nat_beq f.id 8 || nat_beq f.id 12)) [
      | inl address ↦ ground (arith, addr_from4-big_endian v (ground arith))
      | inr other ↦ elim (Bool-cases (nat_beq f.id 10 || nat_beq f.id 14)) [
        | inl index ↦ ground (arith, be_uint_index v h (ground arith))
        | inr other' ↦ elim (Bool-cases (nat_beq f.id 1 || nat_beq f.id 2)) [
          | inl count ↦ ground (arith, be_uint-big_endian v h (ground arith))
          | inr unread ↦ ground arith
        ]
      ]
    ]

-- Setting the fields of a record one after the other gives the flow that it is about.
pub set_all-filled :
    (fvs : List (Field × Bool × Bytes)) (flow : Flow)
    → all_valid (map (λ fv. fv.0) fvs) ≡ true
    → All Fits fvs
    → All (λ fv. All IsByte fv.2) fvs
    → set_all flow fvs ≡ ok (filled flow fvs)
unfolding set_all all_valid
set_all-filled [] flow valid fits h = refl
set_all-filled ((f, long, v) ∷ fvs) flow valid (fit, fits) (hv, h) =
    ap (λ m. m >>= λ flow'. set_all flow' fvs)
      (set_field-assign flow f long v (ground arith) fit hv)
    ∙ set_all-filled fvs (assign flow f v) (ground arith) fits h
    ∙ ap ok (filled-assign flow f long v fvs)
