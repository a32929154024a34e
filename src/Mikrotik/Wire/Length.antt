-- ===== src/Mikrotik/Wire/Length.antt =====
-- Word lengths: what `encodeLength` writes, `readLength` reads.
use tikman.Prelude.{
  ℕ, zero, suc, ◌+◌, ◌*◌, ◌/◌, ◌%◌, ◌<◌, ◌≤◌, ◌^◌, ◌≡◌, ◌≢◌, ◌∙◌, All, refl, arith, bit_and, bit_or,
  [], ◌∷◌, ◌++◌, length,
}
use tikman.Prelude.Bits.{
  or_high, or_low, and_0x80, and_0xc0, and_0xe0, and_0xf0, and_0x3f, and_0x1f, and_0x0f,
}
use tikman.Prelude.Bytes.{Bytes, IsByte}
use tikman.Mikrotik.Wire.{ok, stuck, encode_length, read_extra, length_class, read_length}

-- The number that a run of bytes adds to, most significant first.
be : ℕ → Bytes → ℕ
be n [] = n
be n (b ∷ bs) = be (n * 256 + b) bs

module _ (first : ℕ) (r : Bytes) (h : first < 256) where
  class_one : first < 128 → length_class first r ≡ ok (first, r)
  unfolding length_class
  class_one p = ground (arith, and_0x80 first)

  class_two : 128 ≤ first → first < 192 → length_class first r ≡ read_extra 1 (first % 64) r
  unfolding length_class
  class_two p q = ground (arith, and_0x80 first, and_0xc0 first, and_0x3f first)

  class_three : 192 ≤ first → first < 224 → length_class first r ≡ read_extra 2 (first % 32) r
  unfolding length_class
  class_three p q = ground (arith, and_0x80 first, and_0xc0 first, and_0xe0 first, and_0x1f first)

  class_four : 224 ≤ first → first < 240 → length_class first r ≡ read_extra 3 (first % 16) r
  unfolding length_class
  class_four p q =
      ground (arith, and_0x80 first, and_0xc0 first, and_0xe0 first, and_0xf0 first, and_0x0f first)

  class_five : first ≡ 240 → length_class first r ≡ read_extra 4 0 r
  unfolding length_class
  class_five p = ground (arith, and_0x80 first, and_0xc0 first, and_0xe0 first, and_0xf0 first)

-- One byte more.
read_extra_step :
    (extra n b : ℕ) (r : Bytes)
    → b < 256
    → read_extra (suc extra) n (b ∷ r) ≡ read_extra extra (n * 256 + b) r
unfolding read_extra
read_extra_step extra n b r h = ground (arith, or_low 8 b n)

read_extra-eq : (n : ℕ) (r : Bytes) → read_extra 0 n r ≡ ok (n, r)
unfolding read_extra
read_extra-eq n r = refl

-- Each size class, as bytes in plain arithmetic.
encode_one : (n : ℕ) → n < 128 → encode_length n ≡ n ∷ []
unfolding encode_length
encode_one n h = ground arith

encode_two : (n : ℕ) → 128 ≤ n → n < 16384 → encode_length n ≡ (n / 256 + 128) ∷ n % 256 ∷ []
unfolding encode_length
encode_two n l h = ground (arith, or_high 15 n 1)

encode_three :
    (n : ℕ)
    → 16384 ≤ n
    → n < 2097152
    → encode_length n ≡ (n / 65536 + 192) ∷ n / 256 % 256 ∷ n % 256 ∷ []
unfolding encode_length
encode_three n l h = ground (arith, or_high 22 n 3)

encode_four :
    (n : ℕ)
    → 2097152 ≤ n
    → n < 268435456
    → encode_length n ≡ (n / 16777216 + 224) ∷ n / 65536 % 256 ∷ n / 256 % 256 ∷ n % 256 ∷ []
unfolding encode_length
encode_four n l h = ground (arith, or_high 29 (n % 2 ^ 32) 7)

encode_five :
    (n : ℕ)
    → 268435456 ≤ n
    → encode_length n ≡ 240 ∷ n / 16777216 % 256 ∷ n / 65536 % 256 ∷ n / 256 % 256 ∷ n % 256 ∷ []
unfolding encode_length
encode_five n l = ground arith

read_extra_bytes :
    (bs : Bytes) (n : ℕ) (r : Bytes)
    → All IsByte bs
    → read_extra (length bs) n (bs ++ r) ≡ ok (be n bs, r)
unfolding be
read_extra_bytes [] n r h = read_extra-eq n r
read_extra_bytes (b ∷ bs) n r (hb, hbs) =
    read_extra_step (length bs) n b (bs ++ r) hb ∙ read_extra_bytes bs (n * 256 + b) r hbs

module _ (n : ℕ) (rest : Bytes) where
  read_one : n < 128 → read_length (encode_length n ++ rest) ≡ ok (n, rest)
  unfolding read_length
  read_one h = rw (encode_one n h) (class_one n rest (omega arith) h)

  read_two : 128 ≤ n → n < 16384 → read_length (encode_length n ++ rest) ≡ ok (n, rest)
  unfolding read_length be
  read_two l h = rw (encode_two n l h) (
      ground (
        arith,
        class_two (n / 256 + 128) (n % 256 ∷ rest),
        read_extra_bytes (n % 256 ∷ []) ((n / 256 + 128) % 64) rest (omega arith),
      ))

  read_three : 16384 ≤ n → n < 2097152 → read_length (encode_length n ++ rest) ≡ ok (n, rest)
  unfolding read_length be
  read_three l h = rw (encode_three n l h) (
      ground (
        arith,
        class_three (n / 65536 + 192) (n / 256 % 256 ∷ n % 256 ∷ rest),
        read_extra_bytes (n / 256 % 256 ∷ n % 256 ∷ []) ((n / 65536 + 192) % 32) rest (omega arith),
      ))

  read_four : 2097152 ≤ n → n < 268435456 → read_length (encode_length n ++ rest) ≡ ok (n, rest)
  unfolding read_length be
  read_four l h = rw (encode_four n l h) (
      ground (
        arith,
        class_four (n / 16777216 + 224) (n / 65536 % 256 ∷ n / 256 % 256 ∷ n % 256 ∷ rest),
        read_extra_bytes (n / 65536 % 256 ∷ n / 256 % 256 ∷ n % 256 ∷ [])
            ((n / 16777216 + 224) % 16) rest (omega arith),
      ))

  read_five : 268435456 ≤ n → n < 2 ^ 32 → read_length (encode_length n ++ rest) ≡ ok (n, rest)
  unfolding read_length be
  read_five l h = rw (encode_five n l) (
      ground (
        arith,
        class_five 240 (n / 16777216 % 256 ∷ n / 65536 % 256 ∷ n / 256 % 256 ∷ n % 256 ∷ rest),
        read_extra_bytes (n / 16777216 % 256 ∷ n / 65536 % 256 ∷ n / 256 % 256 ∷ n % 256 ∷ []) 0
            rest (omega arith),
      ))

-- A length below 2^32 is read back from its prefix, and the bytes behind it are left.
pub read_length-encode_length :
    (n : ℕ) (rest : Bytes) → n < 2 ^ 32 → read_length (encode_length n ++ rest) ≡ ok (n, rest)
read_length-encode_length n rest h =
    ground (
      arith,
      read_one n rest,
      read_two n rest,
      read_three n rest,
      read_four n rest,
      read_five n rest,
    )

-- What `readLength` takes: it never gets stuck, and a success leaves fewer bytes.
read_extra_shorter :
    (extra n m : ℕ) (r r' : Bytes) → read_extra extra n r ≡ ok (m, r') → length r' ≤ length r
unfolding read_extra
read_extra_shorter zero n m r r' e = ground arith
read_extra_shorter (suc extra) n m [] r' e = ground arith
read_extra_shorter (suc extra) n m (b ∷ r) r' e =
    ground (arith, read_extra_shorter extra (bit_or (n * 256) b) m r r' e)

read_extra-ne-stuck : (extra n : ℕ) (r : Bytes) → read_extra extra n r ≢ stuck
unfolding read_extra
read_extra-ne-stuck zero n r e = cc
read_extra-ne-stuck (suc extra) n [] e = cc
read_extra-ne-stuck (suc extra) n (b ∷ r) e = read_extra-ne-stuck extra (bit_or (n * 256) b) r e

length_class_shorter :
    (first m : ℕ) (r r' : Bytes) → length_class first r ≡ ok (m, r') → length r' ≤ length r
unfolding length_class
length_class_shorter first m r r' e = ground (
  arith,
  read_extra_shorter 1 (bit_and first 0x3f) m r r',
  read_extra_shorter 2 (bit_and first 0x1f) m r r',
  read_extra_shorter 3 (bit_and first 0x0f) m r r',
  read_extra_shorter 4 0 m r r',
)

length_class-ne-stuck : (first : ℕ) (r : Bytes) → length_class first r ≢ stuck
unfolding length_class
length_class-ne-stuck first r = ground (
  arith,
  read_extra-ne-stuck 1 (bit_and first 0x3f) r,
  read_extra-ne-stuck 2 (bit_and first 0x1f) r,
  read_extra-ne-stuck 3 (bit_and first 0x0f) r,
  read_extra-ne-stuck 4 0 r,
)

pub read_length_shorter :
    (r : Bytes) (n : ℕ) (r' : Bytes) → read_length r ≡ ok (n, r') → length r' < length r
unfolding read_length
read_length_shorter [] n r' e = ground arith
read_length_shorter (b ∷ r) n r' e = omega (arith, length_class_shorter b n r r' e)

pub read_length-ne-stuck : (r : Bytes) → read_length r ≢ stuck
unfolding read_length
read_length-ne-stuck [] e = cc
read_length-ne-stuck (b ∷ r) e = length_class-ne-stuck b r e
