-- ===== src/Prelude/Sort.antt =====
-- `sort.Slice` by a test `before`, as insertion sort: its result for a strict order, and one of the
-- results that Go may give where elements tie.
use Prim.Native.Nat.{ℕ, zero, suc, min}
use mathlib.Core.Path.{◌≡◌, refl, ap}
use mathlib.Core.Logic.{◌⊎◌, ◌↔◌, inl, inr}
use mathlib.Core.Bool.{Bool, true, false}
use mathlib.Core.List.{List, [], ◌∷◌, ◌++◌, Perm}
use mathlib.Core.List.Perm
use native.Mathlib.Omega.{arith}
use tikman.Prelude.Tests.{if◌then◌else◌, Bool-cases}
use tikman.Prelude.Lists.{All, take, drop, length, length-take, All-drop}

abbrev pub In : {A : Type 0} → A → List A → Type 0
In a [] = ⊥
In a (x ∷ xs) = (x ≡ a) ⊎ In a xs

pub All-In {κ} : {A : Type 0} (P : A → Type κ) (a : A) (l : List A) → All P l → In a l → P a
All-In P a [] h i = absurd i
All-In P a (x ∷ xs) h (inl e) = rw (← e) (h.0)
All-In P a (x ∷ xs) h (inr i) = All-In P a xs h.1 i

pub All-of_In {κ} : {A : Type 0} (P : A → Type κ) (l : List A) → ((a : A) → In a l → P a) → All P l
All-of_In P [] h = tt
All-of_In P (x ∷ xs) h = (h x (inl refl), All-of_In P xs (λ a i. h a (inr i)))

-- A strict weak order.
pub record IsOrder {A : Type 0} (before : A → A → Bool) : Type 0 where
  pub asym : (a b : A) → before a b ≡ true → before b a ≡ false
  pub neg_trans : (a b c : A) → before a b ≡ false → before b c ≡ false → before a c ≡ false

module _ {A : Type 0} (before : A → A → Bool) where
  unfoldable pub insert_by : A → List A → List A
  insert_by x [] = x ∷ []
  insert_by x (y ∷ ys) = if before x y then x ∷ y ∷ ys else y ∷ insert_by x ys

  unfoldable pub sort_by : List A → List A
  sort_by [] = []
  sort_by (x ∷ xs) = insert_by x (sort_by xs)

  -- No element is before one that stands further left.
  abbrev pub IsOrdered : List A → Type 0
  IsOrdered [] = Unit
  IsOrdered (x ∷ xs) = All (λ y. before y x ≡ false) xs × IsOrdered xs

module _ {A : Type 0} (before : A → A → Bool) where
  In-insert_by : (a x : A) (l : List A) → In a (insert_by before x l) ↔ ((x ≡ a) ⊎ In a l)
  unfolding insert_by
  In-insert_by a x [] = (λ i. i, λ i. i)
  In-insert_by a x (y ∷ ys) =
      let (there, back) = In-insert_by a x ys in
      elim (Bool-cases (before x y)) [
        | inl e ↦ rw e (λ i. i, λ i. i)
        | inr e ↦ rw e (
          elim [
            | inl p ↦ inr (inl p)
            | inr j ↦ elim (there j) [ inl q ↦ inl q | inr k ↦ inr (inr k) ]
          ],
          elim [
            | inl q ↦ inr (back (inl q))
            | inr j ↦ elim j [ inl p ↦ inl p | inr k ↦ inr (back (inr k)) ]
          ],
        )
      ]

  -- Sorting keeps the elements.
  pub In-sort_by : (a : A) (l : List A) → In a (sort_by before l) ↔ In a l
  unfolding sort_by
  In-sort_by a [] = (λ i. i, λ i. i)
  In-sort_by a (x ∷ xs) =
      let (there, back) = In-sort_by a xs in
      let (out, into) = In-insert_by a x (sort_by before xs) in
      (
        λ i. elim (out i) [ inl p ↦ inl p | inr j ↦ inr (there j) ],
        elim [ inl p ↦ into (inl p) | inr j ↦ into (inr (back j)) ],
      )

  length-insert_by : (x : A) (l : List A) → length (insert_by before x l) ≡ suc (length l)
  unfolding insert_by
  length-insert_by x [] = refl
  length-insert_by x (y ∷ ys) = ground (arith, length-insert_by x ys)

  pub length-sort_by : (l : List A) → length (sort_by before l) ≡ length l
  unfolding sort_by
  length-sort_by [] = refl
  length-sort_by (x ∷ xs) = omega (arith, length-insert_by x (sort_by before xs), length-sort_by xs)

  module _ (order : IsOrder before) where
    insert_by-IsOrdered :
        (x : A) (l : List A) → IsOrdered before l → IsOrdered before (insert_by before x l)
    unfolding insert_by
    insert_by-IsOrdered x [] h = (tt, tt)
    insert_by-IsOrdered x (y ∷ ys) (hy, hs) = elim (Bool-cases (before x y)) [
      | inl e ↦ rw e (
        (
          order.asym x y e,
          All-of_In (λ z. before z x ≡ false) ys
              (λ z i.
                order.neg_trans z y x (All-In (λ z. before z y ≡ false) z ys hy i)
                  (order.asym x y e)),
        ),
        (hy, hs),
      )
      | inr e ↦ rw e (
        All-of_In (λ z. before z y ≡ false) (insert_by before x ys)
            (λ z i. elim ((In-insert_by z x ys).0 i) [
              | inl p ↦ rw (← p) e
              | inr j ↦ All-In (λ z. before z y ≡ false) z ys hy j
            ]),
        insert_by-IsOrdered x ys hs,
      )
    ]

    pub sort_by-IsOrdered : (l : List A) → IsOrdered before (sort_by before l)
    unfolding sort_by
    sort_by-IsOrdered [] = tt
    sort_by-IsOrdered (x ∷ xs) = insert_by-IsOrdered x (sort_by before xs) (sort_by-IsOrdered xs)

  insert_by-Perm : (x : A) (l : List A) → Perm (insert_by before x l) (x ∷ l)
  unfolding insert_by
  insert_by-Perm x [] = Perm.rfl
  insert_by-Perm x (y ∷ ys) = elim (Bool-cases (before x y)) [
    | inl e ↦ rw e Perm.rfl
    | inr e ↦ rw e (Perm.trans (Perm.cons y (insert_by-Perm x ys)) (Perm.swap x y ys))
  ]

  sort_by-Perm : (l : List A) → Perm (sort_by before l) l
  unfolding sort_by
  sort_by-Perm [] = Perm.rfl
  sort_by-Perm (x ∷ xs) =
      Perm.trans (insert_by-Perm x (sort_by before xs)) (Perm.cons x (sort_by-Perm xs))

  -- Of an ordered list nothing behind the first `n` is before one of those.
  take_first :
      (n : ℕ) (l : List A)
      → IsOrdered before l
      → All (λ y. All (λ x. before x y ≡ false) (drop n l)) (take n l)
  take_first zero l h = tt
  take_first (suc n) [] h = tt
  take_first (suc n) (x ∷ xs) (hx, hs) =
      (All-drop (λ y. before y x ≡ false) n xs hx, take_first n xs hs)

take-drop : {A : Type 0} (n : ℕ) (l : List A) → take n l ++ drop n l ≡ l
take-drop zero l = refl
take-drop (suc n) [] = refl
take-drop (suc n) (x ∷ xs) = ap (λ t. x ∷ t) (take-drop n xs)

-- What the first `n` of a group are: with the rest they are the group, there are `n` of them unless
-- the group is smaller, and each of them may stand ahead of each of the rest.
pub record IsTop {A : Type 0} (Ahead : A → A → Type 0) (n : ℕ) (group top : List A) : Type 0 where
  pub rest : List A
  pub parts : Perm (top ++ rest) group
  pub size : length top ≡ min n (length group)
  pub ahead : All (λ y. All (λ x. Ahead y x) rest) top

All-map : {A : Type 0} (P Q : A → Type 0) (l : List A) → ((a : A) → P a → Q a) → All P l → All Q l
All-map P Q [] f h = tt
All-map P Q (x ∷ xs) f h = (f x h.0, All-map P Q xs f h.1)

pub take-sort_by-IsTop :
    {A : Type 0} (before : A → A → Bool) (Ahead : A → A → Type 0) (n : ℕ) (group : List A)
    → IsOrder before
    → ((y x : A) → before x y ≡ false → Ahead y x)
    → IsTop Ahead n group (take n (sort_by before group))
take-sort_by-IsTop {A} before Ahead n group order means = record {
  rest = drop n sorted;
  parts = rw (take-drop n sorted) (sort_by-Perm before group);
  size = omega (arith, length-take n sorted, length-sort_by before group);
  ahead =
      All-map _ _ (take n sorted)
        (λ y h. All-map (λ x. before x y ≡ false) (λ x. Ahead y x) (drop n sorted) (means y) h)
        (take_first before n sorted (sort_by-IsOrdered before order group));
}
  where
    sorted : List A
    sorted = sort_by before group
