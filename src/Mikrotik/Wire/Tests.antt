-- ===== src/Mikrotik/Wire/Tests.antt =====
-- Concrete runs, and the theorems at concrete inputs.
use tikman.Prelude.{◌≤◌, ◌<◌, ◌≡◌, ◌≢◌, refl, arith, List, [], ◌∷◌, ◌++◌, length, All, map}
use tikman.Prelude.Assoc.{lookup}
use tikman.Prelude.Bytes.{Bytes, bytes_eq}
use tikman.Mikrotik.Wire.{
  ok, err, stuck, eof, bad_control, max_word_length, Reply, encode_length, length_class,
  read_length, write_words, write_sentence, read_full, read_words, read_sentence, parse_sentence,
}
use tikman.Mikrotik.Wire.Sentence.{
  IsWord, payload, read_sentence-write_sentence, read_sentence-ne-stuck, read_sentence_bounded,
}
use tikman.Mikrotik.Wire.Attributes.{attribute, last_value, parse_sentence-attributes}

abbrev done : Bytes
done = b'!' ∷ b'd' ∷ []

abbrev two_words : List Bytes
two_words = done ∷ (b'=' ∷ b'a' ∷ b'=' ∷ b'=' ∷ []) ∷ []

abbrev stream : Bytes
stream = 2 ∷ b'!' ∷ b'd' ∷ 4 ∷ b'=' ∷ b'a' ∷ b'=' ∷ b'=' ∷ 0 ∷ 7 ∷ []

length_300 : encode_length 300 ≡ 0x81 ∷ 0x2c ∷ []
unfolding encode_length
length_300 = refl

length_4g : encode_length 0x12345678 ≡ 0xf0 ∷ 0x12 ∷ 0x34 ∷ 0x56 ∷ 0x78 ∷ []
unfolding encode_length
length_4g = refl

control_byte : read_length (0xf8 ∷ 1 ∷ []) ≡ err (bad_control 0xf8)
unfolding read_length length_class
control_byte = refl

written : write_sentence two_words ++ (7 ∷ []) ≡ stream
unfolding write_sentence write_words encode_length
written = refl

stream_read : read_sentence stream ≡ ok (two_words, 7 ∷ [])
unfolding read_sentence read_words read_length length_class read_full
stream_read = refl

cut_off : read_sentence (2 ∷ b'!' ∷ b'd' ∷ []) ≡ err eof
unfolding read_sentence read_words read_length length_class read_full
cut_off = refl

read_sentence-write_sentence_example :
    read_sentence (write_sentence two_words ++ (7 ∷ [])) ≡ ok (two_words, 7 ∷ [])
read_sentence-write_sentence_example =
    read_sentence-write_sentence two_words (7 ∷ []) (omega arith) (omega arith)

read_sentence-ne-stuck_example : read_sentence stream ≢ stuck
read_sentence-ne-stuck_example = read_sentence-ne-stuck stream

read_sentence_bounded_example :
    All IsWord two_words × (payload two_words ≤ max_word_length) × (1 < length stream)
read_sentence_bounded_example = read_sentence_bounded stream two_words (7 ∷ []) stream_read

abbrev pairs : List (Bytes × Bytes)
pairs = (b'a' ∷ [], b'x' ∷ []) ∷ (b'a' ∷ [], b'=' ∷ []) ∷ []

parse_sentence-attributes_example :
    (r : Reply) × (parse_sentence (done ∷ map attribute pairs) ≡ ok r)
    × (r.kind ≡ done)
    × ((k : Bytes) → lookup k r.attrs ≡ last_value k pairs)
parse_sentence-attributes_example = parse_sentence-attributes done pairs (omega arith)
