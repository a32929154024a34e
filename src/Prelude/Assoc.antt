-- ===== src/Prelude/Assoc.antt =====
-- Go maps as association lists: a write replaces the entry of its key, or adds one at the end.
use Prim.Native.Nat.{ℕ, suc, ◌+◌, ◌≤◌}
use mathlib.Core.Path.{◌≡◌, refl}
use mathlib.Core.Logic.{inl, inr}
use mathlib.Core.Option.{Option, none, some}
use mathlib.Core.List.{List, [], ◌∷◌}
use native.Mathlib.Omega.{arith}
use tikman.Prelude.Tests.{Comparable, ◌==◌, if◌then◌else◌, is_some, Bool-cases, beq_refl}
use tikman.Prelude.Lists.{length, All}

abbrev pub Assoc : Type 0 → Type 0 → Type 0
Assoc K V = List (K × V)

module _ {K V : Type 0} ⦃e : Comparable K⦄ where
  unfoldable pub lookup : K → Assoc K V → Option V
  lookup k [] = none
  lookup k ((j, v) ∷ m) = if j == k then some v else lookup k m

  unfoldable pub put : K → V → Assoc K V → Assoc K V
  put k v [] = (k, v) ∷ []
  put k v ((j, w) ∷ m) = if j == k then (k, v) ∷ m else (j, w) ∷ put k v m

  unfoldable pub erase : K → Assoc K V → Assoc K V
  erase k [] = []
  erase k ((j, w) ∷ m) = if j == k then erase k m else (j, w) ∷ erase k m

  pub lookup-put :
      (k j : K) (v : V) (m : Assoc K V)
      → lookup j (put k v m) ≡ (if k == j then some v else lookup j m)
  unfolding lookup put
  lookup-put k j v [] = refl
  lookup-put k j v ((i, w) ∷ m) =
      ground (arith, e.same_iff k j, e.same_iff i k, e.same_iff i j, lookup-put k j v m)

  pub lookup-put_self : (k : K) (v : V) (m : Assoc K V) → lookup k (put k v m) ≡ some v
  lookup-put_self k v m = ground (arith, lookup-put k k v m, beq_refl k)

  pub lookup-erase :
      (k j : K) (m : Assoc K V) → lookup j (erase k m) ≡ (if k == j then none else lookup j m)
  unfolding lookup erase
  lookup-erase k j [] = ground arith
  lookup-erase k j ((i, w) ∷ m) =
      ground (arith, e.same_iff k j, e.same_iff i k, e.same_iff i j, lookup-erase k j m)

  pub length-put :
      (k : K) (v : V) (m : Assoc K V)
      → length (put k v m) ≡ (if is_some (lookup k m) then length m else suc (length m))
  unfolding lookup put
  length-put k v [] = refl
  length-put k v ((i, w) ∷ m) = ground (arith, length-put k v m)

  pub length-erase : (k : K) (m : Assoc K V) → length (erase k m) ≤ length m
  unfolding erase
  length-erase k [] = omega arith
  length-erase k ((i, w) ∷ m) = ground (arith, length-erase k m)

  -- The sum of a measure over all entries, and what a write does to it.
  unfoldable pub total : (K → V → ℕ) → Assoc K V → ℕ
  total f [] = 0
  total f ((k, v) ∷ m) = f k v + total f m

  pub total-put_new :
      (f : K → V → ℕ) (k : K) (v : V) (m : Assoc K V)
      → lookup k m ≡ none
      → total f (put k v m) ≡ total f m + f k v
  unfolding lookup put total
  total-put_new f k v [] h = omega arith
  total-put_new f k v ((i, w) ∷ m) h = ground (arith, total-put_new f k v m)

  pub total-put_old :
      (f : K → V → ℕ) (k : K) (v w : V) (m : Assoc K V)
      → lookup k m ≡ some w
      → total f (put k v m) + f k w ≡ total f m + f k v
  unfolding lookup put total
  total-put_old f k v w [] h = ground arith
  total-put_old f k v w ((i, u) ∷ m) h = ground (arith, e.same_iff i k, total-put_old f k v w m)

  pub lookup-le-total :
      (f : K → V → ℕ) (k : K) (v : V) (m : Assoc K V) → lookup k m ≡ some v → f k v ≤ total f m
  unfolding lookup total
  lookup-le-total f k v [] h = ground arith
  lookup-le-total f k v ((i, u) ∷ m) h = ground (arith, e.same_iff i k, lookup-le-total f k v m)

  -- A predicate on all values.
  module _ (P : V → Type 0) where
    pub All-put :
        (k : K) (v : V) (m : Assoc K V) → P v → All (λ p. P p.1) m → All (λ p. P p.1) (put k v m)
    unfolding put
    All-put k v [] h hs = (h, tt)
    All-put k v ((j, w) ∷ m) h (hw, hs) = elim (Bool-cases (j == k)) [
      | inl t ↦ rw t (h, hs)
      | inr t ↦ rw t (hw, All-put k v m h hs)
    ]

    pub All-erase : (k : K) (m : Assoc K V) → All (λ p. P p.1) m → All (λ p. P p.1) (erase k m)
    unfolding erase
    All-erase k [] hs = tt
    All-erase k ((j, w) ∷ m) (hw, hs) = elim (Bool-cases (j == k)) [
      | inl t ↦ rw t (All-erase k m hs)
      | inr t ↦ rw t (hw, All-erase k m hs)
    ]

    pub All-lookup :
        (k : K) (v : V) (m : Assoc K V) → lookup k m ≡ some v → All (λ p. P p.1) m → P v
    unfolding lookup
    All-lookup k v [] e hs = cc
    All-lookup k v ((j, w) ∷ m) e (hw, hs) = elim (Bool-cases (j == k)) [
      | inl t ↦ let same : w ≡ v = ground (arith) in rw (← same) hw
      | inr t ↦ All-lookup k v m (ground arith) hs
    ]

  pub All-put_pair :
      (P : K × V → Type 0) (k : K) (v : V) (m : Assoc K V) → P (k, v) → All P m → All P (put k v m)
  unfolding put
  All-put_pair P k v [] h hs = (h, tt)
  All-put_pair P k v ((j, w) ∷ m) h (hw, hs) = elim (Bool-cases (j == k)) [
    | inl t ↦ rw t (h, hs)
    | inr t ↦ rw t (hw, All-put_pair P k v m h hs)
  ]
