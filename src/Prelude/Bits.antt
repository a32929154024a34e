-- ===== src/Prelude/Bits.antt =====
-- Bit operations as arithmetic: `|` of a high field with a smaller number, and masks of a byte.
use Prim.Native.Nat.{
  ℕ, zero, suc, ◌+◌, ◌*◌, ◌/◌, ◌%◌, ◌^◌, ◌≤◌, ◌<◌, max, bit_and, bit_or, digits, bit_or-bitwise,
}
use mathlib.Core.Path.{◌≡◌, refl, ap}
use mathlib.Core.Bool.{Bool, true, ◌&&◌}
use native.Mathlib.Omega.{arith}
use native.Mathlib.Nat.{pow-suc}
use tikman.Prelude.Tests.{nat_beq, nat_beq_iff}

abbrev or_digits : ℕ → ℕ → ℕ → ℕ
or_digits = digits (λ b. b) max

or_digits_fuel : (n m a b : ℕ) → a ≤ n → a ≤ m → or_digits n a b ≡ or_digits m a b
or_digits_fuel zero zero a b p q = refl
or_digits_fuel zero (suc m) zero b p q = refl
or_digits_fuel zero (suc m) (suc a) b p q = absurd (omega arith)
or_digits_fuel (suc n) zero zero b p q = refl
or_digits_fuel (suc n) zero (suc a) b p q = absurd (omega arith)
or_digits_fuel (suc n) (suc m) zero b p q = refl
or_digits_fuel (suc n) (suc m) (suc a) b p q =
    omega (arith, or_digits_fuel n m (suc a / 2) (b / 2) (omega arith) (omega arith))

pub zero-bit_or : (b : ℕ) → bit_or 0 b ≡ b
zero-bit_or b = bit_or-bitwise 0 b

pub bit_or_step : (a b : ℕ) → bit_or a b ≡ bit_or (a / 2) (b / 2) * 2 + max (a % 2) (b % 2)
bit_or_step zero b = omega (arith, zero-bit_or b, zero-bit_or (b / 2))
bit_or_step (suc a) b = omega (
  arith,
  bit_or-bitwise (suc a) b,
  bit_or-bitwise (suc a / 2) (b / 2),
  or_digits_fuel a (suc a / 2) (suc a / 2) (b / 2) (omega arith) (omega arith),
)

bit_or-zero_fuel : (n a : ℕ) → a ≤ n → bit_or a 0 ≡ a
bit_or-zero_fuel n zero h = refl
bit_or-zero_fuel zero (suc a) h = absurd (omega arith)
bit_or-zero_fuel (suc n) (suc a) h =
    omega (arith, bit_or_step (suc a) 0, bit_or-zero_fuel n (suc a / 2) (omega arith))

pub bit_or-zero : (a : ℕ) → bit_or a 0 ≡ a
bit_or-zero a = bit_or-zero_fuel a a (omega arith)

double_pow : (c k : ℕ) → c * 2 ^ suc k ≡ 2 * (c * 2 ^ k)
double_pow c k = omega (arith, ap (λ (t : ℕ). c * t) (pow-suc 2 k))

-- A number below 2 ^ k and a multiple of 2 ^ k share no bit.
pub or_high : (k n c : ℕ) → n < 2 ^ k → bit_or n (c * 2 ^ k) ≡ n + c * 2 ^ k
or_high zero n c h = ground (arith, zero-bit_or (c * 2 ^ 0))
or_high (suc k) n c h =
    ground (arith, bit_or_step n (c * 2 ^ suc k), double_pow c k, or_high k (n / 2) c (omega arith))

pub or_low : (k n c : ℕ) → n < 2 ^ k → bit_or (c * 2 ^ k) n ≡ c * 2 ^ k + n
or_low zero n c h = ground (arith, bit_or-zero (c * 2 ^ 0))
or_low (suc k) n c h =
    ground (arith, bit_or_step (c * 2 ^ suc k) n, double_pow c k, or_low k (n / 2) c (omega arith))

-- A law of all numbers below a bound, by evaluation at each.
pub check_below : ℕ → (ℕ → Bool) → Bool
check_below zero p = true
check_below (suc n) p = p n && check_below n p

check_below_sound : (n : ℕ) (p : ℕ → Bool) (x : ℕ) → check_below n p ≡ true → x < n → p x ≡ true
unfolding check_below
check_below_sound zero p x h lt = absurd (omega arith)
check_below_sound (suc n) p x h lt = ground (arith, check_below_sound n p x)

module _ (f g : ℕ → ℕ) (table : check_below 256 (λ x. nat_beq (f x) (g x)) ≡ true) where
  byte_law : (x : ℕ) → x < 256 → f x ≡ g x
  byte_law x h = (nat_beq_iff _ _).0 (check_below_sound 256 _ x table h)

pub and_0x80 : (b : ℕ) → b < 256 → bit_and b 0x80 ≡ b / 128 * 128
unfolding check_below
and_0x80 = byte_law (λ b. bit_and b 0x80) (λ b. b / 128 * 128) refl

pub and_0xc0 : (b : ℕ) → b < 256 → bit_and b 0xc0 ≡ b / 64 * 64
unfolding check_below
and_0xc0 = byte_law (λ b. bit_and b 0xc0) (λ b. b / 64 * 64) refl

pub and_0xe0 : (b : ℕ) → b < 256 → bit_and b 0xe0 ≡ b / 32 * 32
unfolding check_below
and_0xe0 = byte_law (λ b. bit_and b 0xe0) (λ b. b / 32 * 32) refl

pub and_0xf0 : (b : ℕ) → b < 256 → bit_and b 0xf0 ≡ b / 16 * 16
unfolding check_below
and_0xf0 = byte_law (λ b. bit_and b 0xf0) (λ b. b / 16 * 16) refl

pub and_0x3f : (b : ℕ) → b < 256 → bit_and b 0x3f ≡ b % 64
unfolding check_below
and_0x3f = byte_law (λ b. bit_and b 0x3f) (λ b. b % 64) refl

pub and_0x1f : (b : ℕ) → b < 256 → bit_and b 0x1f ≡ b % 32
unfolding check_below
and_0x1f = byte_law (λ b. bit_and b 0x1f) (λ b. b % 32) refl

pub and_0x0f : (b : ℕ) → b < 256 → bit_and b 0x0f ≡ b % 16
unfolding check_below
and_0x0f = byte_law (λ b. bit_and b 0x0f) (λ b. b % 16) refl
