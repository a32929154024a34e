-- ===== src/Prelude/Bytes.antt =====
-- Strings and byte slices as lists of bytes, and their equality.
use Prim.Native.Nat.{ℕ, ◌<◌}
use mathlib.Core.Path.{◌≡◌}
use mathlib.Core.Bool.{Bool, true, false, ◌&&◌}
use mathlib.Core.Logic.{◌↔◌}
use mathlib.Core.List.{List, [], ◌∷◌}
use native.Mathlib.Omega.{arith}
use tikman.Prelude.Tests.{Comparable, nat_beq}

abbrev pub Bytes : Type 0
Bytes = List ℕ

abbrev pub IsByte : ℕ → Type 0
IsByte b = b < 256

abbrev pub beq_bytes : Bytes → Bytes → Bool
beq_bytes [] [] = true
beq_bytes [] (y ∷ ys) = false
beq_bytes (x ∷ xs) [] = false
beq_bytes (x ∷ xs) (y ∷ ys) = nat_beq x y && beq_bytes xs ys

pub beq_bytes_iff : (xs ys : Bytes) → (beq_bytes xs ys ≡ true) ↔ (xs ≡ ys)
beq_bytes_iff [] [] = ground arith
beq_bytes_iff [] (y ∷ ys) = ground arith
beq_bytes_iff (x ∷ xs) [] = ground arith
beq_bytes_iff (x ∷ xs) (y ∷ ys) = ground (arith, beq_bytes_iff xs ys)

instance abbrev pub bytes_eq : Comparable Bytes
bytes_eq = record { same = beq_bytes; same_iff = beq_bytes_iff }
