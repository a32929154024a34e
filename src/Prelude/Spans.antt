-- ===== src/Prelude/Spans.antt =====
-- Lists of spans of numbers that lie apart, and the bisection for the one that a number lies in.
use Prim.Native.Nat.{ℕ, zero, suc, ◌≤◌, ◌<◌}
use mathlib.Core.Path.{subst, ◌≡◌, refl, sym, ap, ◌∙◌}
use mathlib.Core.Logic.{inl, inr}
use mathlib.Core.Bool.{Bool, true, false, ◌&&◌, ◌||◌}
use mathlib.Core.Option.{Option, none, some}
use mathlib.Core.List.{List, [], ◌∷◌}
use native.Mathlib.Omega.{arith}
use tikman.Prelude.Tests.{ltb, leb, is_some, if◌then◌else◌, Bool-cases, Option-cases}
use tikman.Prelude.Lists.{length, All}
use tikman.Prelude.Sort.{In, All-In, All-of_In}
use tikman.Prelude.Search.{search, search_lem}

-- Spans of numbers, by their first and their last.
module _ {R : Type 0} (start stop : R → ℕ) where
  unfoldable pub get_elem? : List R → ℕ → Option R
  get_elem? [] n = none
  get_elem? (x ∷ xs) zero = some x
  get_elem? (x ∷ xs) (suc n) = get_elem? xs n

  -- Each span ends before the next one starts.
  abbrev pub IsApart : List R → Type 0
  IsApart [] = Unit
  IsApart (x ∷ xs) = All (λ y. (start x ≤ start y) × (stop x < start y)) xs × IsApart xs

  abbrev pub within : ℕ → R → Bool
  within v r = leb (start r) v && leb v (stop r)

  abbrev pub any_within : ℕ → List R → Bool
  any_within v [] = false
  any_within v (x ∷ xs) = within v x || any_within v xs

  -- How many spans at the front start at `v` or before.
  begun : ℕ → List R → ℕ
  begun v [] = 0
  begun v (x ∷ xs) = if ltb v (start x) then 0 else suc (begun v xs)

  -- The test of the search: whether the span at a place starts behind `v`.
  abbrev pub starts_behind : ℕ → List R → ℕ → Bool
  starts_behind v rs m = elim (get_elem? rs m) [ none ↦ true | some r ↦ ltb v (start r) ]

  begun-le : (v : ℕ) (rs : List R) → begun v rs ≤ length rs
  unfolding begun
  begun-le v [] = omega arith
  begun-le v (x ∷ xs) = ground (arith, begun-le v xs)

  starts_behind_later :
      (v m : ℕ) (rs : List R) → All (λ y. v < start y) rs → starts_behind v rs m ≡ true
  unfolding get_elem?
  starts_behind_later v m [] h = refl
  starts_behind_later v zero (x ∷ xs) h = ground (arith, h.0)
  starts_behind_later v (suc m) (x ∷ xs) h = starts_behind_later v m xs h.1

  starts_behind-begun :
      (v m : ℕ) (rs : List R) → IsApart rs → starts_behind v rs m ≡ leb (begun v rs) m
  unfolding begun get_elem?
  starts_behind-begun v m [] h = ground arith
  starts_behind-begun v zero (x ∷ xs) h = ground arith
  starts_behind-begun v (suc m) (x ∷ xs) (hx, h) = elim (Bool-cases (ltb v (start x))) [
    | inl e ↦ rw e (
        starts_behind_later v m xs (
          All-of_In (λ y. v < start y) xs
            (λ y i.
              ground (arith, (All-In (λ z. (start x ≤ start z) × (stop x < start z)) y xs hx i).0)))
        ∙ ground arith)
    | inr e ↦ rw e (starts_behind-begun v m xs h ∙ ground arith)
  ]

  -- The last span that starts at `v` or before.
  last_begun : ℕ → List R → Option R
  last_begun v [] = none
  last_begun v (x ∷ xs) =
      if ltb v (start x) then none else elim (last_begun v xs) [ none ↦ some x | some r ↦ some r ]

  -- The element in front of the place that the search finds.
  unfoldable pub in_front : ℕ → List R → Option R
  in_front zero rs = none
  in_front (suc n) rs = get_elem? rs n

  is_some-last_begun : (v : ℕ) (rs : List R) → is_some (last_begun v rs) ≡ leb 1 (begun v rs)
  unfolding last_begun begun
  is_some-last_begun v [] = ground arith
  is_some-last_begun v (x ∷ xs) = elim (Bool-cases (ltb v (start x))) [
    | inl e ↦ rw e (ground arith)
    | inr e ↦ elim (Option-cases (last_begun v xs)) [
      | inl n ↦ rw (e, n) (ground arith)
      | inr (r, n) ↦ rw (e, n) (ground arith)
    ]
  ]

  front_step :
      (k : ℕ) (o : Option R) (x : R) (xs : List R)
      → in_front k xs ≡ o
      → is_some o ≡ leb 1 k
      → in_front (suc k) (x ∷ xs) ≡ elim o [ none ↦ some x | some r ↦ some r ]
  unfolding in_front get_elem?
  front_step zero none x xs p h = refl
  front_step zero (some r) x xs p h = ground arith
  front_step (suc n) none x xs p h = ground arith
  front_step (suc n) (some r) x xs p h = p

  in_front-begun : (v : ℕ) (rs : List R) → in_front (begun v rs) rs ≡ last_begun v rs
  unfolding begun in_front last_begun
  in_front-begun v [] = refl
  in_front-begun v (x ∷ xs) = elim (Bool-cases (ltb v (start x))) [
    | inl e ↦ rw e refl
    | inr e ↦ rw e (
        front_step (begun v xs) (last_begun v xs) x xs (in_front-begun v xs)
          (is_some-last_begun v xs))
  ]

  -- `sort.Search` for the first span behind `v`, and the one in front of that.
  unfoldable pub find_span : ℕ → List R → Option R
  find_span v rs = in_front (search (length rs) (starts_behind v rs)) rs

  find_span-last_begun : (v : ℕ) (rs : List R) → IsApart rs → find_span v rs ≡ last_begun v rs
  unfolding find_span
  find_span-last_begun v rs h =
      ap (λ k. in_front k rs)
        (search_lem (length rs) (starts_behind v rs) (begun v rs) (begun-le v rs)
          (λ m lt. starts_behind-begun v m rs h))
      ∙ in_front-begun v rs

  -- Whether the span that the search finds reaches `v`.
  unfoldable pub reaches : ℕ → Option R → Bool
  reaches v none = false
  reaches v (some r) = leb v (stop r)

  last_begun-none :
      (v : ℕ) (x : R) (xs : List R) → ltb v (start x) ≡ true → last_begun v (x ∷ xs) ≡ none
  unfolding last_begun
  last_begun-none v x xs h = rw h refl

  last_begun-some :
      (v : ℕ) (x : R) (xs : List R)
      → ltb v (start x) ≡ false
      → last_begun v (x ∷ xs) ≡ elim (last_begun v xs) [ none ↦ some x | some r ↦ some r ]
  unfolding last_begun
  last_begun-some v x xs h = rw h refl

  reaches-later :
      (v : ℕ) (x : R) (o : Option R)
      → is_some o ≡ true
      → reaches v (elim o [ none ↦ some x | some r ↦ some r ]) ≡ reaches v o
  reaches-later v x none h = ground arith
  reaches-later v x (some r) h = refl

  begun_head :
      (v : ℕ) (x : R) (xs : List R)
      → ltb v (start x) ≡ false
      → is_some (last_begun v (x ∷ xs)) ≡ true
  unfolding begun
  begun_head v x xs h = is_some-last_begun v (x ∷ xs) ∙ rw h (ground arith)

  alone_within :
      (v : ℕ) (x : R) (b : Bool)
      → ltb v (start x) ≡ false
      → b ≡ false
      → leb v (stop x) ≡ (within v x || b)
  alone_within v x b h e = ground arith

  or_false : (a b c : Bool) → a ≡ false → b ≡ c → (a || b) ≡ c
  or_false false b c h e = e
  or_false true b c h e = ground arith

  -- Of spans that lie apart, the one found is the only one that can hold the number.
  reaches-any_within :
      (v : ℕ) (rs : List R) → IsApart rs → reaches v (last_begun v rs) ≡ any_within v rs
  unfolding reaches last_begun
  reaches-any_within v [] h = refl
  reaches-any_within v (x ∷ []) h = ground arith
  reaches-any_within v (x ∷ y ∷ ys) (hx, h) = elim (Bool-cases (ltb v (start x))) [
    | inl e ↦
        let none_later : ltb v (start y) ≡ true = ground (arith, hx.0.0) in
        ap (reaches v) (last_begun-none v x (y ∷ ys) e)
        ∙ sym (
            or_false (within v x) (any_within v (y ∷ ys)) false (ground (arith, e)) (
              sym (reaches-any_within v (y ∷ ys) h)
              ∙ ap (reaches v) (last_begun-none v y ys none_later)))
    | inr e ↦ elim (Bool-cases (ltb v (start y))) [
      | inl f ↦
          let later : any_within v (y ∷ ys) ≡ false =
            sym (reaches-any_within v (y ∷ ys) h) ∙ ap (reaches v) (last_begun-none v y ys f) in
          let alone : last_begun v (x ∷ y ∷ ys) ≡ some x =
            last_begun-some v x (y ∷ ys) e ∙ rw (last_begun-none v y ys f) refl in
          ap (reaches v) alone ∙ alone_within v x (any_within v (y ∷ ys)) e later
      | inr f ↦
          ap (reaches v) (last_begun-some v x (y ∷ ys) e)
          ∙ reaches-later v x (last_begun v (y ∷ ys)) (begun_head v y ys f)
          ∙ reaches-any_within v (y ∷ ys) h
          ∙ sym (or_false (within v x) (any_within v (y ∷ ys)) _ (ground (arith, f, hx.0.1)) refl)
    ]
  ]

  pub find_span-any_within :
      (v : ℕ) (rs : List R) → IsApart rs → reaches v (find_span v rs) ≡ any_within v rs
  find_span-any_within v rs h =
      ap (reaches v) (find_span-last_begun v rs h) ∙ reaches-any_within v rs h

  last_begun-later : (v : ℕ) (xs : List R) → All (λ y. v < start y) xs → last_begun v xs ≡ none
  unfolding last_begun
  last_begun-later v [] h = refl
  last_begun-later v (x ∷ xs) h = ground (arith, h.0)

  apart_later : (v : ℕ) (x r y : R) → x ≡ r → within v r ≡ true → stop x < start y → v < start y
  apart_later v x r y e w h =
      subst (λ z. stop z < start y → v < start y) (sym e) (λ k. ground (arith, w, k)) h

  within-last_begun :
      (v : ℕ) (rs : List R) (r : R)
      → IsApart rs
      → In r rs
      → within v r ≡ true
      → last_begun v rs ≡ some r
  within-last_begun v [] r h i w = absurd i
  within-last_begun v (x ∷ xs) r (hx, h) (inl e) w =
      subst (λ y. last_begun v (x ∷ xs) ≡ some y) e
        (last_begun-some v x xs (subst (λ y. ltb v (start y) ≡ false) (sym e) (ground (arith, w)))
          ∙ rw
              (last_begun-later v xs (
                All-of_In (λ y. v < start y) xs
                  (λ y i.
                    apart_later v x r y e w
                      (All-In (λ z. (start x ≤ start z) × (stop x < start z)) y xs hx i).1)))
              refl)
  within-last_begun v (x ∷ xs) r (hx, h) (inr i) w =
      last_begun-some v x xs
        (ground (arith, w, (All-In (λ z. (start x ≤ start z) × (stop x < start z)) r xs hx i).0))
      ∙ rw (within-last_begun v xs r h i w) refl

  -- A span that holds the number is the one that is found.
  pub within-find_span :
      (v : ℕ) (rs : List R) (r : R)
      → IsApart rs
      → In r rs
      → within v r ≡ true
      → find_span v rs ≡ some r
  within-find_span v rs r h i w = find_span-last_begun v rs h ∙ within-last_begun v rs r h i w

  pub any_within-In :
      (v : ℕ) (rs : List R) → any_within v rs ≡ true → (r : R) × In r rs × (within v r ≡ true)
  any_within-In v [] h = ground arith
  any_within-In v (x ∷ xs) h = elim (Bool-cases (within v x)) [
    | inl e ↦ (x, inl refl, e)
    | inr e ↦ let (r, i, w) = any_within-In v xs (ground (arith, e, h)) in (r, inr i, w)
  ]
