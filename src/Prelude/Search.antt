-- ===== src/Prelude/Search.antt =====
-- Go's `sort.Search`: the bisection.
use Prim.Native.Nat.{ℕ, zero, suc, ◌+◌, ◌-◌, ◌/◌, ◌≤◌, ◌<◌}
use mathlib.Core.Path.{◌≡◌}
use mathlib.Core.Logic.{inl, inr}
use mathlib.Core.Bool.{Bool}
use native.Mathlib.Omega.{arith}
use tikman.Prelude.Tests.{ltb, leb, ltb→lt, if◌then◌else◌, Bool-cases}

-- The loop of `sort.Search`; `n` rounds are enough, since every round takes away at least one place.
unfoldable pub search_loop : ℕ → (ℕ → Bool) → ℕ → ℕ → ℕ
search_loop zero f i j = i
search_loop (suc n) f i j =
    let h = (i + j) / 2 in
    let left = search_loop n f i h in
    let right = search_loop n f (h + 1) j in if ltb i j then (if f h then left else right) else i

unfoldable pub search : ℕ → (ℕ → Bool) → ℕ
search n f = search_loop n f 0 n

middle : (i j : ℕ) → i < j → (i ≤ (i + j) / 2) × ((i + j) / 2 < j)
middle i j h = omega arith

search_loop_lem :
    (n : ℕ) (f : ℕ → Bool) (i j k size : ℕ)
    → i ≤ k
    → k ≤ j
    → j ≤ size
    → j - i ≤ n
    → ((m : ℕ) → m < size → f m ≡ leb k m)
    → search_loop n f i j ≡ k
unfolding search_loop
search_loop_lem zero f i j k size a b c d e = omega arith
search_loop_lem (suc n) f i j k size a b c d e = elim (Bool-cases (ltb i j)) [
  | inr g ↦ rw g (ground arith)
  | inl g ↦
      let within = middle i j (ltb→lt i j g) in
      let known = e ((i + j) / 2) (omega arith) in
      elim (Bool-cases (f ((i + j) / 2))) [
        | inl t ↦
            rw (g, t)
              (search_loop_lem n f i ((i + j) / 2) k size a (ground arith) (omega arith)
                (omega arith) e)
        | inr t ↦
            rw (g, t)
              (search_loop_lem n f ((i + j) / 2 + 1) j k size (ground arith) b c (omega arith) e)
      ]
]

-- Where the test is false below `k` and true from there on, the search finds `k`.
pub search_lem :
    (n : ℕ) (f : ℕ → Bool) (k : ℕ) → k ≤ n → ((m : ℕ) → m < n → f m ≡ leb k m) → search n f ≡ k
unfolding search
search_lem n f k h e = search_loop_lem n f 0 n k n (omega arith) h (omega arith) (omega arith) e
