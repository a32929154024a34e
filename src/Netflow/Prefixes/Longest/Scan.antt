-- ===== src/Netflow/Prefixes/Longest/Scan.antt =====
-- backend/internal/netflow/prefixes.go: the table and its lookup beside a scan of the entries.
use tikman.Prelude.{
  ℕ, ◌≤◌, ◌≡◌, ◌⊎◌, refl, sym, arith, true, false, ◌&&◌, Option, none, some, is_some, List, [], ◌∷◌,
  All, inl, inr, ltb, leb, nat_eq, if◌then◌else◌, Bool-cases,
}
use mathlib.Core.Path.{subst}
use tikman.Prelude.Assoc.{lookup}
use tikman.Prelude.Sort.{In, In-sort_by, IsOrder, IsOrdered, sort_by-IsOrdered, All-In, All-of_In}
use tikman.Netflow.Addr.{
  Addr, is4, v4, v6, unset, Prefix, prefix_eq, masked, mask, bit_len, beq_prefix,
}
use tikman.Netflow.Prefixes.{
  PrefixEntry, PrefixTable, blocks_of, add_entries, longer, new_prefix_table, lookup_addr,
}
use tikman.Netflow.Prefixes.Longest.{
  first_of, block, holds, lookup-add_entries, add_entries-IsListed,
}
use tikman.Netflow.Prefixes.Longest.Walk.{hit, IsBest, lookup_lengths-IsBest}

longer-IsOrder : IsOrder longer
longer-IsOrder = record { asym = λ a b h. ground arith; neg_trans = λ a b c h k. ground arith }

-- The entries say that no block holds the address, or that a block of the length holds it whose first
-- entry is the interface's, and that no longer block does.
abbrev pub IsLongest : List PrefixEntry → Addr → Option ℕ → Type 0
IsLongest entries ip none = All (λ e. holds ip e ≡ false) entries
IsLongest entries ip (some id) =
    (bits : ℕ) × (first_of (block ip bits) entries ≡ some id)
    × (bits ≤ bit_len ip)
    × All (λ e. (holds ip e ≡ false) ⊎ (e.prefix.bits ≤ bits)) entries

first_of-first :
    (ip : Addr) (e : PrefixEntry) (entries : List PrefixEntry)
    → holds ip e ≡ true
    → is_some (first_of (block ip e.prefix.bits) (e ∷ entries)) ≡ true
unfolding first_of
first_of-first ip e entries h = ground arith

first_of-later :
    (q : Prefix) (e : PrefixEntry) (entries : List PrefixEntry)
    → is_some (first_of q entries) ≡ true
    → is_some (first_of q (e ∷ entries)) ≡ true
unfolding first_of
first_of-later q e entries h =
    elim (Bool-cases (is4 e.prefix.addr && beq_prefix (masked e.prefix) q)) [
      | inl f ↦ rw f refl
      | inr f ↦ rw f h
    ]

first_of-holds :
    (ip : Addr) (e : PrefixEntry) (entries : List PrefixEntry)
    → In e entries
    → holds ip e ≡ true
    → is_some (first_of (block ip e.prefix.bits) entries) ≡ true
first_of-holds ip e [] i h = absurd i
first_of-holds ip e (x ∷ entries) (inl p) h =
    subst (λ y. is_some (first_of (block ip e.prefix.bits) (y ∷ entries)) ≡ true) (sym p)
      (first_of-first ip e entries h)
first_of-holds ip e (x ∷ entries) (inr i) h =
    first_of-later (block ip e.prefix.bits) x entries (first_of-holds ip e entries i h)

abbrev empty_table : PrefixTable
empty_table = record { by_length = []; lengths = [] }

lookup-new_prefix_table :
    (entries : List PrefixEntry) (q : Prefix)
    → lookup q (blocks_of q.bits (new_prefix_table entries)) ≡ first_of q entries
unfolding new_prefix_table blocks_of lookup
lookup-new_prefix_table entries q = lookup-add_entries q entries empty_table

hit-new_prefix_table :
    (entries : List PrefixEntry) (ip : Addr) (bits : ℕ)
    → hit (new_prefix_table entries) ip bits
      ≡ (if ltb (bit_len ip) bits then none else first_of (block ip bits) entries)
unfolding hit
hit-new_prefix_table entries ip bits =
    ground (arith, lookup-new_prefix_table entries (block ip bits))

lookup-none : (q : Prefix) → lookup {V = ℕ} q [] ≡ none
unfolding lookup
lookup-none q = refl

unlisted-hit :
    (t : PrefixTable) (ip : Addr) (bits : ℕ) → lookup bits t.by_length ≡ none → hit t ip bits ≡ none
unfolding hit blocks_of
unlisted-hit t ip bits h = ground (arith, lookup-none (block ip bits))

new_prefix_table-listed :
    (entries : List PrefixEntry) (ip : Addr) (bits : ℕ)
    → In bits (new_prefix_table entries).lengths ⊎ (hit (new_prefix_table entries) ip bits ≡ none)
unfolding new_prefix_table lookup
new_prefix_table-listed entries ip bits =
    elim (add_entries-IsListed entries empty_table (λ c. inr refl) bits) [
      | inl i ↦ inl ((In-sort_by longer bits (add_entries entries empty_table).lengths).1 i)
      | inr n ↦ inr (unlisted-hit _ ip bits n)
    ]

-- What the table has at the length of an entry that holds the address.
hit-holds :
    (entries : List PrefixEntry) (ip : Addr) (e : PrefixEntry)
    → In e entries
    → holds ip e ≡ true
    → is_some (hit (new_prefix_table entries) ip e.prefix.bits) ≡ true
hit-holds entries ip e i h =
    ground (arith, hit-new_prefix_table entries ip e.prefix.bits, first_of-holds ip e entries i h)

holds-In :
    (entries : List PrefixEntry) (ip : Addr) (e : PrefixEntry)
    → In e entries
    → holds ip e ≡ true
    → In e.prefix.bits (new_prefix_table entries).lengths
holds-In entries ip e i h = elim (new_prefix_table-listed entries ip e.prefix.bits) [
  | inl j ↦ j
  | inr n ↦ let bad : ⊥ = ground (arith, hit-holds entries ip e i h, n) in absurd bad
]

none-holds :
    (entries : List PrefixEntry) (ip : Addr) (e : PrefixEntry)
    → In e entries
    → All (λ c. hit (new_prefix_table entries) ip c ≡ none) (new_prefix_table entries).lengths
    → holds ip e ≡ false
none-holds entries ip e i h = elim (Bool-cases (holds ip e)) [
  | inr f ↦ f
  | inl f ↦
      let n =
        All-In (λ c. hit (new_prefix_table entries) ip c ≡ none) e.prefix.bits _ h
          (holds-In entries ip e i f) in
      let bad : ⊥ = ground (arith, hit-holds entries ip e i f, n) in absurd bad
]

some-holds :
    (entries : List PrefixEntry) (ip : Addr) (bits : ℕ) (e : PrefixEntry)
    → In e entries
    → All
        (λ c. (hit (new_prefix_table entries) ip c ≡ none) ⊎ (c ≤ bits))
        (new_prefix_table entries).lengths
    → (holds ip e ≡ false) ⊎ (e.prefix.bits ≤ bits)
some-holds entries ip bits e i h = elim (Bool-cases (holds ip e)) [
  | inr f ↦ inl f
  | inl f ↦
      elim (All-In (λ c. (hit (new_prefix_table entries) ip c ≡ none) ⊎ (c ≤ bits)) e.prefix.bits _
        h (holds-In entries ip e i f)) [
          | inl n ↦ let bad : ⊥ = ground (arith, hit-holds entries ip e i f, n) in absurd bad
          | inr le ↦ inr le
        ]
]

best-IsLongest :
    (entries : List PrefixEntry) (ip : Addr) (o : Option ℕ)
    → IsBest (new_prefix_table entries) ip (new_prefix_table entries).lengths o
    → IsLongest entries ip o
unfolding IsBest
best-IsLongest entries ip none h =
    All-of_In (λ e. holds ip e ≡ false) entries (λ e i. none-holds entries ip e i h)
best-IsLongest entries ip (some id) (bits, e, h) = (
  bits,
  ground (arith, hit-new_prefix_table entries ip bits, e),
  ground (arith, hit-new_prefix_table entries ip bits, e),
  All-of_In (λ e. (holds ip e ≡ false) ⊎ (e.prefix.bits ≤ bits)) entries
      (λ e i. some-holds entries ip bits e i h),
)

lengths-IsOrdered :
    (entries : List PrefixEntry) → IsOrdered longer (new_prefix_table entries).lengths
unfolding new_prefix_table
lengths-IsOrdered entries = sort_by-IsOrdered longer longer-IsOrder _

not_is4-block :
    (ip a : Addr) (b : ℕ)
    → is4 ip ≡ false
    → (is4 a
        && leb b (bit_len ip)
        && beq_prefix (record { addr = mask a b; bits = b }) (block ip b))
      ≡ false
not_is4-block ip unset b h = refl
not_is4-block ip (v6 n) b h = refl
not_is4-block unset (v4 n) b h = ground arith
not_is4-block (v4 m) (v4 n) b h = ground arith
not_is4-block (v6 m) (v4 n) b h = ground arith

not_is4-holds : (ip : Addr) (e : PrefixEntry) → is4 ip ≡ false → holds ip e ≡ false
not_is4-holds ip e h = not_is4-block ip e.prefix.addr e.prefix.bits h

-- The interface that the table finds for an address owns the longest block that holds it, by the
-- first entry of that block; where the table finds none, no entry's block holds the address.
pub lookup_addr-IsLongest :
    (entries : List PrefixEntry) (ip : Addr)
    → IsLongest entries ip (lookup_addr (new_prefix_table entries) ip)
unfolding lookup_addr
lookup_addr-IsLongest entries ip = elim (Bool-cases (is4 ip)) [
  | inl f ↦ rw f (
      best-IsLongest entries ip _ (
        lookup_lengths-IsBest (new_prefix_table entries) ip (new_prefix_table entries).lengths
          (lengths-IsOrdered entries)))
  | inr f ↦ rw f (All-of_In (λ e. holds ip e ≡ false) entries (λ e i. not_is4-holds ip e f))
]
