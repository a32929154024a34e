-- ===== src/Mikrotik/Wire/Sentence.antt =====
-- Sentences: the round trip of `writeSentence` and `readSentence`, and the bounds on any reply.
use mathlib.Core.List.{append_assoc, append-nil}
use tikman.Prelude.{
  ℕ, zero, suc, ◌+◌, ◌<◌, ◌≤◌, ◌≡◌, ◌≢◌, ◌∙◌, refl, ap, arith, List, [], ◌∷◌, ◌++◌, length, All,
  length-append, length-take, length-drop, take-length-append, drop-length-append, ◌⊎◌, inl, inr,
  nat_beq, Bool-cases,
}
use tikman.Prelude.Bytes.{Bytes}
use tikman.Mikrotik.Wire.{
  Result, Error, ok, err, stuck, max_word_length, encode_length, write_words, write_sentence,
  read_full, read_words, read_sentence,
}
use tikman.Mikrotik.Wire.Length.{
  read_length-encode_length, read_length_shorter, read_length-ne-stuck,
}

abbrev pub IsWord : Bytes → Type 0
IsWord w = 0 < length w

-- The bytes of all words of a sentence.
abbrev pub payload : List Bytes → ℕ
payload [] = 0
payload (w ∷ ws) = length w + payload ws

read_full_exact : (w tail : Bytes) → IsWord w → read_full (length w) (w ++ tail) ≡ ok (w, tail)
unfolding read_full
read_full_exact [] tail h = absurd (omega arith)
read_full_exact (b ∷ w) tail h =
    ground (arith, length-append w tail, take-length-append w tail, drop-length-append w tail)

module _ (fuel : ℕ) (words : List Bytes) (total : ℕ) where
  read_words_word :
      (w tail : Bytes)
      → IsWord w
      → total + length w ≤ max_word_length
      → read_words (suc fuel) words total (encode_length (length w) ++ (w ++ tail))
        ≡ read_words fuel (words ++ (w ∷ [])) (total + length w) tail
  unfolding read_words
  read_words_word w tail h fits =
      rw (read_length-encode_length (length w) (w ++ tail) (omega arith))
        (rw (read_full_exact w tail h) (ground arith))

  read_words_end : (rest : Bytes) → read_words (suc fuel) words total (0 ∷ rest) ≡ ok (words, rest)
  unfolding read_words
  read_words_end rest = unfold encode_length in rw (read_length-encode_length 0 rest (omega arith))

read_words-write_words :
    (ws : List Bytes) (fuel : ℕ) (words : List Bytes) (total : ℕ) (rest : Bytes)
    → All IsWord ws
    → total + payload ws ≤ max_word_length
    → length ws < fuel
    → read_words fuel words total (write_words ws ++ (0 ∷ rest)) ≡ ok (words ++ ws, rest)
unfolding write_words
read_words-write_words [] zero words total rest h fits enough = absurd (omega arith)
read_words-write_words [] (suc fuel) words total rest h fits enough =
    rw append-nil (read_words_end fuel words total rest)
read_words-write_words (w ∷ ws) zero words total rest h fits enough = absurd (omega arith)
read_words-write_words (w ∷ ws) (suc fuel) words total rest (hw, hws) fits enough =
    ap (read_words (suc fuel) words total) regroup
    ∙ read_words_word fuel words total w (write_words ws ++ (0 ∷ rest)) hw (omega arith)
    ∙ read_words-write_words ws fuel (words ++ (w ∷ [])) (total + length w) rest hws (omega arith)
        (omega arith)
    ∙ ap (λ l. ok (l, rest)) (append_assoc words (w ∷ []) ws)
  where
    regroup :
        (encode_length (length w) ++ (w ++ write_words ws)) ++ (0 ∷ rest)
        ≡ encode_length (length w) ++ (w ++ (write_words ws ++ (0 ∷ rest)))
    regroup = simp append_assoc

length-le-write_words : (ws : List Bytes) → All IsWord ws → length ws ≤ length (write_words ws)
unfolding write_words
length-le-write_words [] h = omega arith
length-le-write_words (w ∷ ws) (hw, hws) = omega (
  arith,
  length-append (encode_length (length w)) (w ++ write_words ws),
  length-append w (write_words ws),
  length-le-write_words ws hws,
)

-- A sentence of non-empty words, within the cap, is read back as it was written, and what follows
-- it on the stream is left for the next read.
pub read_sentence-write_sentence :
    (ws : List Bytes) (rest : Bytes)
    → All IsWord ws
    → payload ws ≤ max_word_length
    → read_sentence (write_sentence ws ++ rest) ≡ ok (ws, rest)
unfolding read_sentence write_sentence
read_sentence-write_sentence ws rest h fits = rw (append_assoc (write_words ws) (0 ∷ []) rest) (
    read_words-write_words ws _ [] 0 rest h (omega arith)
      (omega (arith, length-append (write_words ws) (0 ∷ rest), length-le-write_words ws h)))

-- A value or an error of Go.
abbrev Answer : {A : Type 0} → Result A → Type 0
Answer {A} r = ((a : A) × (r ≡ ok a)) ⊎ ((e : Error) × (r ≡ err e))

answer : {A : Type 0} {r : Result A} → r ≢ stuck → Answer r
answer {r = r} = elim r as (λ m. m ≢ stuck → Answer m) [
  | stuck ↦ λ never. absurd (never refl)
  | err e ↦ λ _. inr (e, refl)
  | ok a ↦ λ _. inl (a, refl)
]

read_full_takes :
    (n : ℕ) (r w r' : Bytes)
    → read_full n r ≡ ok (w, r')
    → (length w ≡ n) × (length r' + n ≡ length r)
unfolding read_full
read_full_takes n [] w r' e = ground arith
read_full_takes n (b ∷ r) w r' e = ground (arith, length-take n (b ∷ r), length-drop n (b ∷ r))

read_full-ne-stuck : (n : ℕ) (r : Bytes) → read_full n r ≢ stuck
unfolding read_full
read_full-ne-stuck n [] e = cc
read_full-ne-stuck n (b ∷ r) e = ground arith

read_words-ne-stuck :
    (fuel : ℕ) (words : List Bytes) (total : ℕ) (r : Bytes)
    → length r < fuel
    → read_words fuel words total r ≢ stuck
unfolding read_words
read_words-ne-stuck zero words total r h = absurd (omega arith)
read_words-ne-stuck (suc fuel) words total r h = elim (answer (read_length-ne-stuck r)) [
  | inr (x, e) ↦ rw e (λ p. cc)
  | inl ((n, r'), e) ↦ rw e (elim (answer (read_full-ne-stuck n r')) [
    | inr (x, f) ↦ rw f (ground arith)
    | inl ((w, r''), f) ↦ rw f (
        ground (
          arith,
          read_length_shorter r n r' e,
          read_full_takes n r' w r'' f,
          read_words-ne-stuck fuel (words ++ (w ∷ [])) (total + n) r'',
        ))
  ])
]

-- On every input the reader ends by itself, with a sentence or an error.
pub read_sentence-ne-stuck : (r : Bytes) → read_sentence r ≢ stuck
unfolding read_sentence
read_sentence-ne-stuck r = read_words-ne-stuck (suc (length r)) [] 0 r (omega arith)

payload-append : (ws vs : List Bytes) → payload (ws ++ vs) ≡ payload ws + payload vs
payload-append [] vs = omega arith
payload-append (w ∷ ws) vs = omega (arith, payload-append ws vs)

All-append-IsWord :
    (ws : List Bytes) (w : Bytes) → All IsWord ws → IsWord w → All IsWord (ws ++ (w ∷ []))
All-append-IsWord [] w h k = (k, tt)
All-append-IsWord (v ∷ ws) w (hv, hws) k = (hv, All-append-IsWord ws w hws k)

module _ (out : List Bytes) (left : Bytes) where
  -- How a round that leads to a success went: the end of the sentence, or one more word.
  read_words_round :
      (fuel : ℕ) (words : List Bytes) (total : ℕ) (r : Bytes)
      → total ≤ max_word_length
      → read_words (suc fuel) words total r ≡ ok (out, left)
      → ((words ≡ out) × (length left < length r))
        ⊎ ((w : Bytes) × (r' : Bytes) × IsWord w
            × (total + length w ≤ max_word_length)
            × (length r' < length r)
            × (read_words fuel (words ++ (w ∷ [])) (total + length w) r' ≡ ok (out, left)))
  unfolding read_words
  read_words_round fuel words total r fits e = elim (answer (read_length-ne-stuck r)) [
    | inr (x, p) ↦ cc (rw p at e)
    | inl ((n, r'), p) ↦ elim (answer (read_full-ne-stuck n r')) [
      | inr (x, f) ↦ inl (ground arith, ground (arith, read_length_shorter r n r' p))
      | inl ((w, r''), f) ↦ elim (Bool-cases (nat_beq n 0)) [
        | inl z ↦ inl (ground arith, ground (arith, read_length_shorter r n r' p))
        | inr z ↦ inr (
          w,
          r'',
          ground (arith, read_full_takes n r' w r'' f),
          ground (arith, read_full_takes n r' w r'' f),
          ground (arith, read_full_takes n r' w r'' f, read_length_shorter r n r' p),
          ground (arith, read_full_takes n r' w r'' f),
        )
      ]
    ]
  ]

  read_words_bounded :
      (fuel : ℕ) (words : List Bytes) (total : ℕ) (r : Bytes)
      → All IsWord words
      → payload words ≡ total
      → total ≤ max_word_length
      → read_words fuel words total r ≡ ok (out, left)
      → All IsWord out × (payload out ≤ max_word_length) × (length left < length r)
  read_words_bounded zero words total r h sums fits e = unfold read_words in cc
  read_words_bounded (suc fuel) words total r h sums fits e =
      elim (read_words_round fuel words total r fits e) [
        | inl (same, less) ↦ rw (← same) (h, omega arith, less)
        | inr (w, r', hw, fits', less, e') ↦
            let (hs, cap, shorter) =
              read_words_bounded fuel (words ++ (w ∷ [])) (total + length w) r'
                (All-append-IsWord words w h hw) (omega (arith, payload-append words (w ∷ [])))
                fits' e' in
            (hs, cap, omega arith)
      ]

-- Whatever the router sends: a sentence that is accepted has no empty word, its words hold at most
-- 2^20 bytes in all, and reading it has used up a byte at least.
pub read_sentence_bounded :
    (r : Bytes) (out : List Bytes) (left : Bytes)
    → read_sentence r ≡ ok (out, left)
    → All IsWord out × (payload out ≤ max_word_length) × (length left < length r)
unfolding read_sentence
read_sentence_bounded r out left e =
    read_words_bounded out left (suc (length r)) [] 0 r tt refl (omega arith) e
