-- ===== src/Prelude/Outcome.antt =====
-- What a run of Go code can come to: a value, or a panic such as an index out of range. `stuck` is
-- no Go outcome: it says that the fuel of a loop ran out. Slices that are cut out of range panic.
use Prim.Native.Nat.{ℕ, ◌+◌, ◌-◌, ◌*◌, ◌≤◌}
use mathlib.Core.Path.{◌≡◌, refl}
use mathlib.Core.List.{[], ◌∷◌}
use native.Mathlib.Omega.{arith}
use tikman.Prelude.Tests.{ltb, if◌then◌else◌}
use mathlib.Core.Bool.{Bool, true, false}
use tikman.Prelude.Lists.{length, take, drop, length-take, length-drop}
use tikman.Prelude.Bytes.{Bytes}

pub data Outcome {ℓ} (A : Type ℓ) : Type ℓ where
  ok : A → Outcome A
  panic : Outcome A
  stuck : Outcome A

infixl 5 ◌>>=◌
abbrev pub ◌>>=◌ {ℓ κ} : {A : Type ℓ} {B : Type κ} → Outcome A → (A → Outcome B) → Outcome B
ok a >>= f = f a
panic >>= f = panic
stuck >>= f = stuck

-- `b[lo:]`
unfoldable pub slice_from : Bytes → ℕ → Outcome Bytes
slice_from b lo = if ltb (length b) lo then panic else ok (drop lo b)

-- `b[lo:hi]`
unfoldable pub slice : Bytes → ℕ → ℕ → Outcome Bytes
slice b lo hi =
    if ltb hi lo
    then panic
    else if ltb (length b) hi
    then panic
    else ok (take (hi - lo) (drop lo b))

-- `binary.BigEndian.Uint16(b)`
unfoldable pub uint16 : Bytes → Outcome ℕ
uint16 (b ∷ c ∷ r) = ok (b * 256 + c)
uint16 _ = panic

-- `binary.BigEndian.Uint32(b)`
unfoldable pub uint32 : Bytes → Outcome ℕ
uint32 (b ∷ c ∷ d ∷ e ∷ r) = ok (((b * 256 + c) * 256 + d) * 256 + e)
uint32 _ = panic

pub slice_from_lem : (b : Bytes) (lo : ℕ) → lo ≤ length b → slice_from b lo ≡ ok (drop lo b)
unfolding slice_from
slice_from_lem b lo h = ground arith

pub slice_lem :
    (b : Bytes) (lo hi : ℕ)
    → lo ≤ hi
    → hi ≤ length b
    → slice b lo hi ≡ ok (take (hi - lo) (drop lo b))
unfolding slice
slice_lem b lo hi h k = ground arith

pub uint16_total : (b : Bytes) → 2 ≤ length b → (n : ℕ) × (uint16 b ≡ ok n)
unfolding uint16
uint16_total [] h = absurd (omega arith)
uint16_total (b ∷ []) h = absurd (omega arith)
uint16_total (b ∷ c ∷ r) h = (b * 256 + c, refl)

pub uint32_total : (b : Bytes) → 4 ≤ length b → (n : ℕ) × (uint32 b ≡ ok n)
unfolding uint32
uint32_total [] h = absurd (omega arith)
uint32_total (b ∷ []) h = absurd (omega arith)
uint32_total (b ∷ c ∷ []) h = absurd (omega arith)
uint32_total (b ∷ c ∷ d ∷ []) h = absurd (omega arith)
uint32_total (b ∷ c ∷ d ∷ e ∷ r) h = (((b * 256 + c) * 256 + d) * 256 + e, refl)

-- A run that ends with a value of which `P` holds.
pub data Returns {A : Type 0} (P : A → Type 0) : Outcome A → Type 0 where
  returns : (a : A) → P a → Returns P (ok a)

module _ {A B : Type 0} {P : A → Type 0} {Q : B → Type 0} where
  pub Returns-bind :
      {m : Outcome A} (f : A → Outcome B)
      → Returns P m
      → ((a : A) → P a → Returns Q (f a))
      → Returns Q (m >>= f)
  Returns-bind f (returns a p) k = k a p

module _ {A : Type 0} {P : A → Type 0} where
  pub Returns-if :
      (b : Bool) {x y : Outcome A}
      → (b ≡ true → Returns P x)
      → (b ≡ false → Returns P y)
      → Returns P (if b then x else y)
  Returns-if true h k = h refl
  Returns-if false h k = k refl

  pub Returns-ok : {m : Outcome A} → Returns P m → (a : A) × (m ≡ ok a) × P a
  Returns-ok (returns a p) = (a, refl, p)

pub Returns-slice_from :
    (b : Bytes) (lo : ℕ) → lo ≤ length b → Returns (λ r. r ≡ drop lo b) (slice_from b lo)
Returns-slice_from b lo h = rw (slice_from_lem b lo h) (returns _ refl)

pub Returns-slice :
    (b : Bytes) (lo hi : ℕ)
    → lo ≤ hi
    → hi ≤ length b
    → Returns (λ r. length r ≡ hi - lo) (slice b lo hi)
Returns-slice b lo hi h k =
    rw (slice_lem b lo hi h k)
      (returns _ (omega (arith, length-take (hi - lo) (drop lo b), length-drop lo b)))

pub Returns-uint16 : (b : Bytes) → 2 ≤ length b → Returns (λ n. uint16 b ≡ ok n) (uint16 b)
Returns-uint16 b h = let (n, e) = uint16_total b h in rw e (returns n refl)

pub Returns-uint32 : (b : Bytes) → 4 ≤ length b → Returns (λ n. uint32 b ≡ ok n) (uint32 b)
Returns-uint32 b h = let (n, e) = uint32_total b h in rw e (returns n refl)

pub Returns-mono :
    {A : Type 0} {P Q : A → Type 0} {m : Outcome A}
    → ((a : A) → P a → Q a)
    → Returns P m
    → Returns Q m
Returns-mono k (returns a p) = returns a (k a p)
