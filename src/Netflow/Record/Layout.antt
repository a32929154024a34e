-- ===== src/Netflow/Record/Layout.antt =====
-- A record laid out field after field, with the length prefixes of RFC 7011, is read field by field.
use mathlib.Core.List.{append_assoc}
use mathlib.Core.Path.{fun_ext}
use tikman.Prelude.{
  Bool, not, ◌&&◌, ℕ, ◌+◌, ◌-◌, ◌/◌, ◌%◌, ◌<◌, ◌≡◌, ◌≢◌, ◌∙◌, refl, sym, ap, arith, some, List, [],
  ◌∷◌, ◌++◌, map, length, All, ltb, nat_beq, if◌then◌else◌, length-append, drop-length-append,
  take-length-append,
}
use tikman.Prelude.Bytes.{Bytes}
use tikman.Prelude.Outcome.{
  Outcome, ok, panic, stuck, ◌>>=◌, slice_from, slice, slice_from_lem, slice_lem,
}
use tikman.Netflow.Template.{Flow, Field, variable_length}
use tikman.Netflow.Record.{set_field, long_length, var_length, field_length, decode_fields}

-- The length prefix of a value: none in a field of fixed length, else one byte, or three where the value
-- is long or the three are chosen.
unfoldable pub prefix : Field → Bool → Bytes → Bytes
prefix f long v =
    if nat_beq f.length variable_length
    then if not long && ltb (length v) 255
      then length v ∷ []
      else 255 ∷ length v / 256 ∷ length v % 256 ∷ []
    else []

abbrev pub Fits : Field × Bool × Bytes → Type 0
Fits (f, long, v) = (f.length ≢ variable_length → length v ≡ f.length) × (length v < 65536)

unfoldable pub encode_record : List (Field × Bool × Bytes) → Bytes
encode_record [] = []
encode_record ((f, long, v) ∷ fvs) = prefix f long v ++ (v ++ encode_record fvs)

unfoldable pub set_all : Flow → List (Field × Bool × Bytes) → Outcome Flow
set_all flow [] = ok flow
set_all flow ((f, long, v) ∷ fvs) = set_field flow f.id v >>= λ flow'. set_all flow' fvs

field_length-prefix :
    (f : Field) (long : Bool) (v x : Bytes)
    → Fits (f, long, v)
    → field_length f (prefix f long v ++ x) ≡ some (length v, length (prefix f long v))
unfolding field_length var_length long_length prefix
field_length-prefix f long v x (fixed, short) = ground arith

pub slice_from-append :
    (b p x : Bytes) (off : ℕ) → b ≡ p ++ x → off ≡ length p → slice_from b off ≡ ok x
slice_from-append b p x off e o =
    rw (e, o)
      (slice_from_lem (p ++ x) (length p) (omega (arith, length-append p x))
        ∙ ap ok (drop-length-append p x))

slice-append :
    (b p v x : Bytes) (lo hi : ℕ)
    → b ≡ p ++ (v ++ x)
    → lo ≡ length p
    → hi ≡ length p + length v
    → slice b lo hi ≡ ok v
slice-append b p v x lo hi e l h =
    rw (e, l, h)
      (slice_lem (p ++ (v ++ x)) (length p) (length p + length v) (omega arith)
          (omega (arith, length-append p (v ++ x), length-append v x))
        ∙ rw (drop-length-append p (v ++ x)) (
            let n : length p + length v - length p ≡ length v = omega arith in
            rw n (ap ok (take-length-append v x))))

module _ (f : Field) (long : Bool) (fs : List Field) (v b p x : Bytes) (off : ℕ) (flow : Flow) where
  decode_fields_step :
      Fits (f, long, v)
      → b ≡ p ++ (prefix f long v ++ (v ++ x))
      → off ≡ length p
      → decode_fields (f ∷ fs) b off flow ≡ (
          set_field flow f.id v >>= λ flow'.
          decode_fields fs b (off + length (prefix f long v) + length v) flow')
  unfolding decode_fields
  decode_fields_step fits e o = ground (
    arith,
    slice_from-append b p (prefix f long v ++ (v ++ x)) off e o,
    field_length-prefix f long v (v ++ x) fits,
    slice-append b (p ++ prefix f long v) v x (off + length (prefix f long v))
        (off + length (prefix f long v) + length v)
        (e ∙ sym (append_assoc p (prefix f long v) (v ++ x)))
        (omega (arith, length-append p (prefix f long v)))
        (omega (arith, length-append p (prefix f long v))),
    ap (λ (l : Bytes). length l) e,
    length-append p (prefix f long v ++ (v ++ x)),
    length-append (prefix f long v) (v ++ x),
    length-append v x,
  )

bind_assoc :
    {A B C : Type 0} (m : Outcome A) (f : A → Outcome B) (g : B → Outcome C)
    → (m >>= f >>= g) ≡ (m >>= λ a. f a >>= g)
bind_assoc (ok a) f g = refl
bind_assoc panic f g = refl
bind_assoc stuck f g = refl

-- Reading a laid out record sets its fields in order, and takes its bytes and no more.
pub decode_fields-encode_record :
    (fvs : List (Field × Bool × Bytes)) (b p x : Bytes) (off : ℕ) (flow : Flow)
    → All Fits fvs
    → b ≡ p ++ (encode_record fvs ++ x)
    → off ≡ length p
    → decode_fields (map (λ fv. fv.0) fvs) b off flow
      ≡ (set_all flow fvs >>= λ g. ok (some (g, off + length (encode_record fvs))))
unfolding encode_record set_all
decode_fields-encode_record [] b p x off flow h e o = unfold decode_fields in ground arith
decode_fields-encode_record ((f, long, v) ∷ fvs) b p x off flow (hf, h) e o =
    decode_fields_step f long (map (λ fv. fv.0) fvs) v b p (encode_record fvs ++ x) off flow hf
      whole o
    ∙ ap (λ k. set_field flow f.id v >>= k)
        (fun_ext λ flow'.
          decode_fields-encode_record fvs b (p ++ (prefix f long v ++ v)) x
            (off + length (prefix f long v) + length v) flow' h (whole ∙ simp append_assoc)
            (omega
              (arith, length-append p (prefix f long v ++ v), length-append (prefix f long v) v))
          ∙ ap (λ (n : ℕ). set_all flow' fvs >>= λ g. ok (some (g, n))) same_end)
    ∙ sym (bind_assoc (set_field flow f.id v) _ _)
  where
    whole : b ≡ p ++ (prefix f long v ++ (v ++ (encode_record fvs ++ x)))
    whole = e ∙ simp append_assoc

    same_end :
        off + length (prefix f long v) + length v + length (encode_record fvs)
        ≡ off + length (encode_record ((f, long, v) ∷ fvs))
    same_end = omega (
      arith,
      length-append (prefix f long v) (v ++ encode_record fvs),
      length-append v (encode_record fvs),
    )
