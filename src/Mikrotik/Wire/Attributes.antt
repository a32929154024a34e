-- ===== src/Mikrotik/Wire/Attributes.antt =====
-- The attributes that `parseSentence` finds in the words of a sentence.
use tikman.Prelude.{
  ℕ, ◌≡◌, ◌≢◌, refl, arith, Option, none, some, List, [], ◌∷◌, ◌++◌, map, All, ◌==◌, if◌then◌else◌,
}
use tikman.Prelude.Assoc.{Assoc, lookup, put, lookup-put}
use tikman.Prelude.Bytes.{Bytes, bytes_eq}
use tikman.Mikrotik.Wire.{ok, Reply, cut, add_word, add_words, parse_sentence}

-- No "=" inside.
abbrev pub IsKey : Bytes → Type 0
IsKey k = All (λ b. b ≢ b'=') k

-- The word "=key=value".
unfoldable pub attribute : Bytes × Bytes → Bytes
attribute (k, v) = b'=' ∷ (k ++ (b'=' ∷ v))

-- The value of the last pair with this key.
unfoldable pub last_value : Bytes → List (Bytes × Bytes) → Option Bytes
last_value k [] = none
last_value k ((j, v) ∷ ps) = elim (last_value k ps) [
  | some w ↦ some w
  | none ↦ if j == k then some v else none
]

pub cut-append : (k v : Bytes) → IsKey k → cut (k ++ (b'=' ∷ v)) ≡ (k, v)
unfolding cut
cut-append [] v h = refl
cut-append (b ∷ k) v (hb, hk) = ground (arith, cut-append k v hk)

add_word-attribute :
    (k v : Bytes) (m : Assoc Bytes Bytes) → IsKey k → add_word (attribute (k, v)) m ≡ put k v m
unfolding add_word attribute
add_word-attribute k v m h = ground (arith, cut-append k v h)

lookup-add_words :
    (k : Bytes) (ps : List (Bytes × Bytes)) (m : Assoc Bytes Bytes)
    → All (λ p. IsKey p.0) ps
    → lookup k (add_words (map attribute ps) m)
      ≡ (elim (last_value k ps) [ some w ↦ some w | none ↦ lookup k m ])
unfolding add_words last_value
lookup-add_words k [] m h = refl
lookup-add_words k ((j, v) ∷ ps) m (hj, hps) = ground (
  arith,
  add_word-attribute j v m hj,
  lookup-add_words k ps (add_word (attribute (j, v)) m) hps,
  lookup-put j k v m,
)

-- A sentence of attribute words parses to a reply whose map answers, for every key, the value of
-- the last word with that key, where values may hold "=" themselves and keys do not.
pub parse_sentence-attributes :
    (kind : Bytes) (ps : List (Bytes × Bytes))
    → All (λ p. IsKey p.0) ps
    → (r : Reply) × (parse_sentence (kind ∷ map attribute ps) ≡ ok r)
      × (r.kind ≡ kind)
      × ((k : Bytes) → lookup k r.attrs ≡ last_value k ps)
unfolding parse_sentence
parse_sentence-attributes kind ps h = (
  record { kind = kind; attrs = add_words (map attribute ps) [] },
  refl,
  refl,
  λ k. unfold lookup in ground (arith, lookup-add_words k ps [] h),
)

-- Words that do not begin with "=", such as the ".tag" of a tagged command, change nothing.
pub add_word_other : (b : ℕ) (s : Bytes) (m : Assoc Bytes Bytes) → b ≢ b'=' → add_word (b ∷ s) m ≡ m
unfolding add_word
add_word_other b s m h = ground arith
