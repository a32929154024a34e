-- ===== src/Prelude/Text.antt =====
-- Strings as lists of runes, as a `range` over a string gives them, and what the code uses of the
-- packages strings, unicode and fmt.
use Prim.Native.Nat.{ℕ, zero, suc, ◌+◌, ◌-◌, ◌/◌, ◌%◌}
use Prim.Native.Char.{code}
use Prim.Native.String.{String}
use mathlib.Core.Path.{◌≡◌, refl}
use mathlib.Core.Logic.{inl, inr}
use mathlib.Core.Bool.{Bool, true, false, ◌&&◌, ◌||◌}
use mathlib.Core.List.{List, [], ◌∷◌, ◌++◌, map}
use native.Mathlib.Omega.{arith}
use tikman.Prelude.Tests.{ltb, leb, nat_beq, if◌then◌else◌, Bool-cases}
use tikman.Prelude.Lists.{All}
use tikman.Prelude.Int.{ℤ, pos, negsuc}

abbrev pub Text : Type 0
Text = List ℕ

abbrev pub codes : String → Text
codes String.[] = []
codes (String.◌∷◌ c s) = code c ∷ codes s

abbrev pub is_empty : Text → Bool
is_empty [] = true
is_empty (c ∷ s) = false

unfoldable pub all_runes : (ℕ → Bool) → Text → Bool
all_runes f [] = true
all_runes f (c ∷ s) = f c && all_runes f s

-- `strings.IndexFunc(s, f) >= 0`.
unfoldable pub any_rune : (ℕ → Bool) → Text → Bool
any_rune f [] = false
any_rune f (c ∷ s) = f c || any_rune f s

abbrev pub within : ℕ → ℕ → ℕ → Bool
within lo hi c = leb lo c && leb c hi

-- `unicode.IsSpace`.
unfoldable pub is_space : ℕ → Bool
is_space c =
    within 0x09 0x0d c
    || nat_beq c 0x20
    || nat_beq c 0x85
    || nat_beq c 0xa0
    || nat_beq c 0x1680
    || within 0x2000 0x200a c
    || within 0x2028 0x2029 c
    || nat_beq c 0x202f
    || nat_beq c 0x205f
    || nat_beq c 0x3000

-- `unicode.IsControl`.
abbrev pub is_control : ℕ → Bool
is_control c = ltb c 0x20 || within 0x7f 0x9f c

abbrev pub is_ascii_letter : ℕ → Bool
is_ascii_letter c = within b'a' b'z' c || within b'A' b'Z' c

abbrev pub is_ascii_digit : ℕ → Bool
is_ascii_digit c = within b'0' b'9' c

unfoldable pub trim_left : Text → Text
trim_left [] = []
trim_left (c ∷ s) = let rest = trim_left s in if is_space c then rest else c ∷ s

unfoldable pub trim_right : Text → Text
trim_right [] = []
trim_right (c ∷ s) = let rest = trim_right s in if is_space c && is_empty rest then [] else c ∷ rest

-- `strings.TrimSpace`.
abbrev pub trim_space : Text → Text
trim_space s = trim_right (trim_left s)

-- `unicode.ToUpper` where its result is an ASCII rune, as for the dotless i and the long s; any other
-- rune stands for its own upper case, which is none.
abbrev pub upper_rune : ℕ → ℕ
upper_rune c =
    if within b'a' b'z' c
    then c - 32
    else if nat_beq c 0x131
    then b'I'
    else if nat_beq c 0x17f
    then b'S'
    else c

abbrev pub to_upper : Text → Text
to_upper s = map upper_rune s

-- The verb `%d`. A number has no more digits than its value and one.
unfoldable pub digits : ℕ → ℕ → Text
digits zero n = (b'0' + n % 10) ∷ []
digits (suc fuel) n =
    let front = digits fuel (n / 10) in
    if ltb n 10 then (b'0' + n) ∷ [] else front ++ ((b'0' + n % 10) ∷ [])

abbrev pub decimal : ℤ → Text
decimal (pos n) = digits n n
decimal (negsuc n) = b'-' ∷ digits (suc n) (suc n)

-- `fmt.Sprintf`, as the list of its parts.
unfoldable pub format : List Text → Text
format [] = []
format (t ∷ ts) = t ++ format ts

pub all_runes-append :
    (f : ℕ → Bool) (s t : Text) → all_runes f (s ++ t) ≡ (all_runes f s && all_runes f t)
unfolding all_runes
all_runes-append f [] t = refl
all_runes-append f (c ∷ s) t = ground (arith, all_runes-append f s t)

pub all_runes-format :
    (f : ℕ → Bool) (ts : List Text)
    → All (λ t. all_runes f t ≡ true) ts
    → all_runes f (format ts) ≡ true
unfolding all_runes format
all_runes-format f [] h = refl
all_runes-format f (t ∷ ts) h =
    ground (arith, all_runes-append f t (format ts), all_runes-format f ts h.1, h.0)

pub all_runes_mono :
    (f g : ℕ → Bool) (s : Text)
    → ((c : ℕ) → f c ≡ true → g c ≡ true)
    → all_runes f s ≡ true
    → all_runes g s ≡ true
unfolding all_runes
all_runes_mono f g [] k h = refl
all_runes_mono f g (c ∷ s) k h =
    ground (arith, k c (ground (arith, h)), all_runes_mono f g s k (ground (arith, h)))

-- The runes of a number are digits.
pub all_runes-digits : (fuel n : ℕ) → all_runes is_ascii_digit (digits fuel n) ≡ true
unfolding digits all_runes
all_runes-digits zero n = ground arith
all_runes-digits (suc fuel) n = elim (Bool-cases (ltb n 10)) [
  | inl e ↦ rw e (ground arith)
  | inr e ↦ rw e (
      ground (
        arith,
        all_runes-append is_ascii_digit (digits fuel (n / 10)) ((b'0' + n % 10) ∷ []),
        all_runes-digits fuel (n / 10),
      ))
]

-- What trimming leaves has only runes of the text.
pub all_runes-trim_left :
    (f : ℕ → Bool) (s : Text) → all_runes f s ≡ true → all_runes f (trim_left s) ≡ true
unfolding trim_left all_runes
all_runes-trim_left f [] h = refl
all_runes-trim_left f (c ∷ s) h = elim (Bool-cases (is_space c)) [
  | inl e ↦ rw e (all_runes-trim_left f s (ground (arith, h)))
  | inr e ↦ rw e h
]

pub all_runes-trim_right :
    (f : ℕ → Bool) (s : Text) → all_runes f s ≡ true → all_runes f (trim_right s) ≡ true
unfolding trim_right all_runes
all_runes-trim_right f [] h = refl
all_runes-trim_right f (c ∷ s) h = elim (Bool-cases (is_space c && is_empty (trim_right s))) [
  | inl e ↦ rw e refl
  | inr e ↦ rw e (ground (arith, all_runes-trim_right f s (ground (arith, h)), h))
]
