-- ===== src/Netflow/Prefixes/Longest.antt =====
-- backend/internal/netflow/prefixes.go: what the table holds, beside the list of entries it is made of.
mod Walk
pub mod Scan
use tikman.Prelude.{
  ℕ, ◌+◌, ◌-◌, ◌≤◌, ◌<◌, ◌≡◌, ◌⊎◌, ◌↔◌, refl, sym, ◌∙◌, ap, arith, Bool, true, false, ◌&&◌, ◌||◌,
  Option, none, some, is_some, List, [], ◌∷◌, ◌++◌, All, inl, inr, ltb, leb, nat_beq, nat_beq_iff,
  nat_eq, if◌then◌else◌, Bool-cases, Option-cases, beq_refl, ◌==◌,
}
use mathlib.Core.Path.{subst}
use tikman.Prelude.Assoc.{Assoc, lookup, put, lookup-put}
use tikman.Prelude.Sort.{
  sort_by, In, In-sort_by, IsOrder, IsOrdered, sort_by-IsOrdered, All-In, All-of_In,
}
use tikman.Netflow.Addr.{
  Addr, is4, v4, v6, unset, Prefix, prefix_eq, masked, mask, bit_len, beq_prefix, beq_prefix_iff,
}
use tikman.Netflow.Prefixes.{
  PrefixEntry, PrefixTable, blocks_of, add_once, add_block, add_entry, add_entries, longer,
  new_prefix_table, lookup_lengths, lookup_addr,
}

-- The first IPv4 entry whose block is `p`.
unfoldable pub first_of : Prefix → List PrefixEntry → Option ℕ
first_of p [] = none
first_of p (e ∷ es) =
    if is4 e.prefix.addr && beq_prefix (masked e.prefix) p
    then some e.interface_id
    else first_of p es

-- The block of a length that holds an address.
abbrev pub block : Addr → ℕ → Prefix
block ip bits = record { addr = mask ip bits; bits = bits }

abbrev pub holds : Addr → PrefixEntry → Bool
holds ip e =
    is4 e.prefix.addr
    && leb e.prefix.bits (bit_len ip)
    && beq_prefix (masked e.prefix) (block ip e.prefix.bits)

lookup-add_once :
    (p q : Prefix) (id : ℕ) (m : Assoc Prefix ℕ)
    → lookup q (add_once p id m)
      ≡ (if is_some (lookup q m) then lookup q m else if beq_prefix p q then some id else none)
unfolding add_once
lookup-add_once p q id m = ground (arith, lookup-put p q id m, beq_prefix_iff p q)

blocks_of-add_block :
    (p : Prefix) (c id : ℕ) (t : PrefixTable)
    → blocks_of c (add_block p id t)
      ≡ (if nat_beq p.bits c then add_once p id (blocks_of c t) else blocks_of c t)
unfolding add_block blocks_of
blocks_of-add_block p c id t = elim (Bool-cases (nat_beq p.bits c)) [
  | inl e ↦ ground (
    arith,
    nat_beq_iff p.bits c,
    lookup-put p.bits c (add_once p id (blocks_of p.bits t)) t.by_length,
  )
  | inr e ↦ ground (arith, lookup-put p.bits c (add_once p id (blocks_of p.bits t)) t.by_length)
]

beq_prefix-bits : (p q : Prefix) → nat_beq p.bits q.bits ≡ false → beq_prefix p q ≡ false
beq_prefix-bits p q h = ground (arith, h)

lookup-add_block :
    (p q : Prefix) (id : ℕ) (t : PrefixTable)
    → lookup q (blocks_of q.bits (add_block p id t)) ≡ (
        if is_some (lookup q (blocks_of q.bits t))
        then lookup q (blocks_of q.bits t)
        else if beq_prefix p q
        then some id
        else none)
lookup-add_block p q id t = elim (Bool-cases (nat_beq p.bits q.bits)) [
  | inl e ↦
      ap (lookup q) (blocks_of-add_block p q.bits id t)
      ∙ ap (λ b. lookup q (if b then add_once p id (blocks_of q.bits t) else blocks_of q.bits t)) e
      ∙ lookup-add_once p q id (blocks_of q.bits t)
  | inr e ↦
      ap (lookup q) (blocks_of-add_block p q.bits id t) ∙ ground (arith, beq_prefix-bits p q e)
]

add_entry-is4 :
    (e : PrefixEntry) (t : PrefixTable)
    → is4 e.prefix.addr ≡ true
    → add_entry e t ≡ add_block (masked e.prefix) e.interface_id t
unfolding add_entry
add_entry-is4 e t h = rw h refl

add_entry-not_is4 :
    (e : PrefixEntry) (t : PrefixTable) → is4 e.prefix.addr ≡ false → add_entry e t ≡ t
unfolding add_entry
add_entry-not_is4 e t h = rw h refl

-- What the table has for a block: what it had, or the first entry that it gets.
pub lookup-add_entries :
    (q : Prefix) (es : List PrefixEntry) (t : PrefixTable)
    → lookup q (blocks_of q.bits (add_entries es t)) ≡ (
        if is_some (lookup q (blocks_of q.bits t))
        then lookup q (blocks_of q.bits t)
        else first_of q es)
unfolding add_entries first_of
lookup-add_entries q [] t = ground arith
lookup-add_entries q (e ∷ es) t = elim (Bool-cases (is4 e.prefix.addr)) [
  | inl f ↦ ground (
    arith,
    add_entry-is4 e t f,
    lookup-add_entries q es (add_entry e t),
    lookup-add_block (masked e.prefix) q e.interface_id t,
  )
  | inr f ↦ ground (arith, add_entry-not_is4 e t f, lookup-add_entries q es (add_entry e t))
]

-- The lengths of the table are those that have blocks.
abbrev pub IsListed : PrefixTable → Type 0
IsListed t = (c : ℕ) → In c t.lengths ⊎ (lookup c t.by_length ≡ none)

In-append_left : (c : ℕ) (xs ys : List ℕ) → In c xs → In c (xs ++ ys)
In-append_left c [] ys i = absurd i
In-append_left c (x ∷ xs) ys (inl e) = inl e
In-append_left c (x ∷ xs) ys (inr i) = inr (In-append_left c xs ys i)

In-append_last : (c : ℕ) (xs : List ℕ) → In c (xs ++ (c ∷ []))
In-append_last c [] = inl refl
In-append_last c (x ∷ xs) = inr (In-append_last c xs)

-- Lengths that the table lists stay listed.
listed-add_block :
    (p : Prefix) (id c : ℕ) (t : PrefixTable) → In c t.lengths → In c (add_block p id t).lengths
unfolding add_block
listed-add_block p id c t i = elim (Bool-cases (is_some (lookup p.bits t.by_length))) [
  | inl e ↦ rw e i
  | inr e ↦ rw e (In-append_left c t.lengths (p.bits ∷ []) i)
]

pub listed-add_entries :
    (es : List PrefixEntry) (c : ℕ) (t : PrefixTable)
    → In c t.lengths
    → In c (add_entries es t).lengths
unfolding add_entries
listed-add_entries [] c t i = i
listed-add_entries (e ∷ es) c t i =
    listed-add_entries es c (add_entry e t) (elim (Bool-cases (is4 e.prefix.addr)) [
      | inl f ↦ rw (add_entry-is4 e t f) (listed-add_block (masked e.prefix) e.interface_id c t i)
      | inr f ↦ rw (add_entry-not_is4 e t f) i
    ])

add_block-IsListed :
    (p : Prefix) (id : ℕ) (t : PrefixTable) → IsListed t → IsListed (add_block p id t)
unfolding add_block
add_block-IsListed p id t h c = elim (h c) [
  | inl i ↦ inl (listed-add_block p id c t i)
  | inr n ↦ elim (Bool-cases (nat_beq p.bits c)) [
    | inl e ↦
        let same = (nat_beq_iff p.bits c).0 e in
        let new : lookup p.bits t.by_length ≡ none =
          subst (λ d. lookup d t.by_length ≡ none) (sym same) n in
        inl (
          rw new
            (subst (λ d. In d (t.lengths ++ (p.bits ∷ []))) same (In-append_last p.bits t.lengths)))
    | inr e ↦
        inr (ground (arith, lookup-put p.bits c (add_once p id (blocks_of p.bits t)) t.by_length))
  ]
]

pub add_entries-IsListed :
    (es : List PrefixEntry) (t : PrefixTable) → IsListed t → IsListed (add_entries es t)
unfolding add_entries
add_entries-IsListed [] t h = h
add_entries-IsListed (e ∷ es) t h =
    add_entries-IsListed es (add_entry e t) (elim (Bool-cases (is4 e.prefix.addr)) [
      | inl f ↦ rw (add_entry-is4 e t f) (add_block-IsListed (masked e.prefix) e.interface_id t h)
      | inr f ↦ rw (add_entry-not_is4 e t f) h
    ])
