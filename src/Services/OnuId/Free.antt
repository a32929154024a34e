-- ===== src/Services/OnuId/Free.antt =====
-- backend/internal/services/zte_gpon_onu_id.go: which number a registration gets.
use tikman.Prelude.{
  ℕ, zero, suc, ◌+◌, ◌-◌, ◌≤◌, ◌<◌, ◌≡◌, ◌⊎◌, inl, inr, refl, arith, true, false, List, ltb,
  nat_beq, nat_beq_iff, Bool-cases,
}
use mathlib.Core.Path.{subst}
use tikman.Services.OnuId.{
  is_used, min_zte_onu_id, max_zte_onu_id, Reservation, reserved, already_used, no_free_id,
  first_free, resolve_onu_id,
}

-- All the numbers from `id` on, below `id + n`, are used.
abbrev pub AreUsed : ℕ → ℕ → List ℕ → Type 0
AreUsed id n used = (k : ℕ) → id ≤ k → k < id + n → is_used k used ≡ true

-- What the loop promises: the least number that is not used, or none where all are used.
abbrev pub IsLeastFree : ℕ → ℕ → List ℕ → Reservation → Type 0
IsLeastFree id n used (reserved k) =
    (id ≤ k) × (k < id + n) × (is_used k used ≡ false) × AreUsed id (k - id) used
IsLeastFree id n used no_free_id = AreUsed id n used
IsLeastFree id n used already_used = ⊥

next-IsLeastFree :
    (n id : ℕ) (used : List ℕ) (r : Reservation)
    → is_used id used ≡ true
    → IsLeastFree (id + 1) n used r
    → IsLeastFree id (suc n) used r
next-IsLeastFree n id used (reserved k) u (lo, hi, free, all) = (
  omega arith,
  omega arith,
  free,
  λ j a b. elim (Bool-cases (nat_beq id j)) [
    | inl e ↦ subst (λ i. is_used i used ≡ true) ((nat_beq_iff id j).0 e) u
    | inr e ↦ all j (ground arith) (ground arith)
  ],
)
next-IsLeastFree n id used no_free_id u all = λ j a b. elim (Bool-cases (nat_beq id j)) [
  | inl e ↦ subst (λ i. is_used i used ≡ true) ((nat_beq_iff id j).0 e) u
  | inr e ↦ all j (ground arith) (ground arith)
]
next-IsLeastFree n id used already_used u all = absurd all

first_free-IsLeastFree : (n id : ℕ) (used : List ℕ) → IsLeastFree id n used (first_free n id used)
unfolding first_free
first_free-IsLeastFree zero id used = λ k a b. ground arith
first_free-IsLeastFree (suc n) id used = elim (Bool-cases (is_used id used)) [
  | inl e ↦ rw e (
      next-IsLeastFree n id used (first_free n (id + 1) used) e
        (first_free-IsLeastFree n (id + 1) used))
  | inr e ↦ rw e (omega arith, omega arith, e, λ k a b. ground arith)
]

-- What a registration gets: the number that it asks for, where no row of the port has it; where it asks
-- for none, the least number of the port that no row has, or none where all of them are taken.
abbrev pub IsResolved : ℕ → List ℕ → Reservation → Type 0
IsResolved requested used r =
    ((1 ≤ requested) × (is_used requested used ≡ false) × (r ≡ reserved requested))
    ⊎ (((1 ≤ requested) × (is_used requested used ≡ true) × (r ≡ already_used))
        ⊎ ((requested ≡ 0) × IsLeastFree min_zte_onu_id max_zte_onu_id used r))

-- A registration gets the number that it asks for, or is refused where a row of the port has that; one
-- that asks for none gets the least of the numbers 1 to 127 that no row has, or is refused where all
-- of them are taken.
pub resolve_onu_id-IsResolved :
    (requested : ℕ) (used : List ℕ) → IsResolved requested used (resolve_onu_id requested used)
unfolding resolve_onu_id
resolve_onu_id-IsResolved requested used = elim (Bool-cases (ltb 0 requested)) [
  | inl e ↦ elim (Bool-cases (is_used requested used)) [
    | inl u ↦ rw (e, u) (inr (inl (ground arith, refl, refl)))
    | inr u ↦ rw (e, u) (inl (ground arith, refl, refl))
  ]
  | inr e ↦ rw e (inr (inr (ground arith, first_free-IsLeastFree 127 1 used)))
]
