-- ===== src/Mikrotik/Wire.antt =====
-- backend/internal/mikrotik/apiwire.go: words and sentences of the RouterOS API.
-- A string or byte slice is a list of bytes. A `bufio.Reader` is the bytes it has left, after which
-- every read answers `io.EOF`.
pub mod Length
pub mod Sentence
pub mod Attributes
mod Tests
use tikman.Prelude.{
  ℕ, zero, suc, ◌+◌, ◌-◌, ◌*◌, ◌/◌, ◌%◌, ◌<◌, ◌^◌, bit_and, bit_or, Bool, true, false, List, [],
  ◌∷◌, ◌++◌, ltb, nat_beq, if◌then◌else◌, length, take, drop,
}
use tikman.Prelude.Assoc.{Assoc, put}
use tikman.Prelude.Bytes.{Bytes, bytes_eq}

abbrev pub max_word_length : ℕ
max_word_length = 1048576

-- What a read can answer instead of a value. `bad_control` and `too_long` wrap `errBadReply`.
pub data Error : Type 0 where
  eof unexpected_eof too_long empty_sentence : Error
  bad_control : ℕ → Error

-- `stuck` is no Go value: the loop of `read_sentence` ran out of fuel.
pub data Result {ℓ} (A : Type ℓ) : Type ℓ where
  ok : A → Result A
  err : Error → Result A
  stuck : Result A

infixl 5 ◌>>=◌
abbrev pub ◌>>=◌ {ℓ κ} : {A : Type ℓ} {B : Type κ} → Result A → (A → Result B) → Result B
ok a >>= f = f a
err e >>= f = err e
stuck >>= f = stuck

-- `byte(n >> k)` for `k` = 0, 8, 16, 24.
abbrev byte_at : ℕ → ℕ → ℕ
byte_at n unit = n / unit % 256

unfoldable pub encode_length : ℕ → Bytes
encode_length n =
    if ltb n 0x80
    then n % 256 ∷ []
    else if ltb n 0x4000
    then (let v = bit_or n 0x8000 in byte_at v 256 ∷ v % 256 ∷ [])
    else if ltb n 0x200000
    then (let v = bit_or n 0xc00000 in byte_at v 65536 ∷ byte_at v 256 ∷ v % 256 ∷ [])
    else if ltb n 0x10000000
    then (let v = bit_or (n % 2 ^ 32) 0xe0000000 in
        byte_at v 16777216 ∷ byte_at v 65536 ∷ byte_at v 256 ∷ v % 256 ∷ [])
    else 0xf0 ∷ byte_at n 16777216 ∷ byte_at n 65536 ∷ byte_at n 256 ∷ n % 256 ∷ []

abbrev pub read_byte : Bytes → Result (ℕ × Bytes)
read_byte [] = err eof
read_byte (b ∷ rest) = ok (b, rest)

-- The loop `for i := 0; i < extra; i++` with `n = n<<8 | int(b)`. Four rounds at most from a
-- number below 64, so an int64 never overflows.
unfoldable pub read_extra : ℕ → ℕ → Bytes → Result (ℕ × Bytes)
read_extra zero n r = ok (n, r)
read_extra (suc extra) n [] = err eof
read_extra (suc extra) n (b ∷ r) = read_extra extra (bit_or (n * 256) b) r

-- The `switch` on the first byte.
unfoldable pub length_class : ℕ → Bytes → Result (ℕ × Bytes)
length_class first r =
    if nat_beq (bit_and first 0x80) 0x00
    then ok (first, r)
    else if nat_beq (bit_and first 0xc0) 0x80
    then read_extra 1 (bit_and first 0x3f) r
    else if nat_beq (bit_and first 0xe0) 0xc0
    then read_extra 2 (bit_and first 0x1f) r
    else if nat_beq (bit_and first 0xf0) 0xe0
    then read_extra 3 (bit_and first 0x0f) r
    else if nat_beq first 0xf0
    then read_extra 4 0 r
    else err (bad_control first)

unfoldable pub read_length : Bytes → Result (ℕ × Bytes)
read_length r = do (first, r') ← read_byte r; length_class first r'

-- The bytes that `writeSentence` hands to its one `Write`.
unfoldable pub write_words : List Bytes → Bytes
write_words [] = []
write_words (word ∷ words) = encode_length (length word) ++ (word ++ write_words words)

unfoldable pub write_sentence : List Bytes → Bytes
write_sentence words = write_words words ++ (0 ∷ [])

-- `io.ReadFull` into a buffer of `n` bytes, for `n` > 0.
unfoldable pub read_full : ℕ → Bytes → Result (Bytes × Bytes)
read_full n [] = err eof
read_full n (b ∷ r) =
    if ltb (length (b ∷ r)) n then err unexpected_eof else ok (take n (b ∷ r), drop n (b ∷ r))

-- The loop of `readSentence`. `max_word_length - total` does not stop at 0, since `total` never
-- passes the maximum.
unfoldable pub read_words : ℕ → List Bytes → ℕ → Bytes → Result (List Bytes × Bytes)
read_words zero words total r = stuck
read_words (suc fuel) words total r = do
  (n, r') ← read_length r
  let rest =
      read_full n r' >>= λ (word, r''). read_words fuel (words ++ (word ∷ [])) (total + n) r''
  if nat_beq n 0
      then ok (words, r')
      else if ltb (max_word_length - total) n
      then err too_long
      else rest

-- A round takes a byte at least, so as many rounds as bytes and one more are enough.
unfoldable pub read_sentence : Bytes → Result (List Bytes × Bytes)
read_sentence r = read_words (suc (length r)) [] 0 r

pub record Reply : Type 0 where
  pub kind : Bytes
  pub attrs : Assoc Bytes Bytes

-- `strings.Cut` at the first "=": what stands before and after it, all before it if there is none.
unfoldable pub cut : Bytes → Bytes × Bytes
cut [] = ([], [])
cut (b ∷ s) = let (key, value) = cut s in if nat_beq b b'=' then ([], s) else (b ∷ key, value)

-- One round of the loop over `words[1:]`.
unfoldable pub add_word : Bytes → Assoc Bytes Bytes → Assoc Bytes Bytes
add_word [] attrs = attrs
add_word (b ∷ s) attrs =
    let (key, value) = cut s in if nat_beq b b'=' then put key value attrs else attrs

unfoldable pub add_words : List Bytes → Assoc Bytes Bytes → Assoc Bytes Bytes
add_words [] attrs = attrs
add_words (word ∷ words) attrs = add_words words (add_word word attrs)

unfoldable pub parse_sentence : List Bytes → Result Reply
parse_sentence [] = err empty_sentence
parse_sentence (word ∷ words) = ok (record { kind = word; attrs = add_words words [] })
