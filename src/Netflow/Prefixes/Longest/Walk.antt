-- ===== src/Netflow/Prefixes/Longest/Walk.antt =====
-- backend/internal/netflow/prefixes.go: the walk over the lengths, the longest first.
use tikman.Prelude.{
  ℕ, ◌≤◌, ◌≡◌, ◌⊎◌, sym, arith, false, Option, none, some, List, [], ◌∷◌, All, inl, inr, ltb,
  nat_eq, if◌then◌else◌, Option-cases,
}
use mathlib.Core.Path.{subst}
use tikman.Prelude.Assoc.{lookup}
use tikman.Prelude.Sort.{IsOrdered, All-In, All-of_In}
use tikman.Netflow.Addr.{Addr, prefix_eq, bit_len}
use tikman.Netflow.Prefixes.{PrefixTable, blocks_of, longer, lookup_lengths}
use tikman.Netflow.Prefixes.Longest.{block}

-- The result of a walk over the lengths, for what the table has at each of them.
unfoldable pub hit : PrefixTable → Addr → ℕ → Option ℕ
hit t ip bits = if ltb (bit_len ip) bits then none else lookup (block ip bits) (blocks_of bits t)

unfoldable pub IsBest : PrefixTable → Addr → List ℕ → Option ℕ → Type 0
IsBest t ip ls none = All (λ c. hit t ip c ≡ none) ls
IsBest t ip ls (some id) =
    (bits : ℕ) × (hit t ip bits ≡ some id) × All (λ c. (hit t ip c ≡ none) ⊎ (c ≤ bits)) ls

lookup_lengths-none :
    (t : PrefixTable) (ip : Addr) (bits : ℕ) (ls : List ℕ)
    → hit t ip bits ≡ none
    → lookup_lengths t ip (bits ∷ ls) ≡ lookup_lengths t ip ls
unfolding lookup_lengths hit
lookup_lengths-none t ip bits ls h = ground (arith, h)

lookup_lengths-some :
    (t : PrefixTable) (ip : Addr) (bits id : ℕ) (ls : List ℕ)
    → hit t ip bits ≡ some id
    → lookup_lengths t ip (bits ∷ ls) ≡ some id
unfolding lookup_lengths hit
lookup_lengths-some t ip bits id ls h = ground (arith, h)

add-IsBest :
    (t : PrefixTable) (ip : Addr) (bits : ℕ) (ls : List ℕ) (o : Option ℕ)
    → hit t ip bits ≡ none
    → IsBest t ip ls o
    → IsBest t ip (bits ∷ ls) o
unfolding IsBest
add-IsBest t ip bits ls none n h = (n, h)
add-IsBest t ip bits ls (some id) n (b, e, h) = (b, e, (inl n, h))

pub lookup_lengths-IsBest :
    (t : PrefixTable) (ip : Addr) (ls : List ℕ)
    → IsOrdered longer ls
    → IsBest t ip ls (lookup_lengths t ip ls)
unfolding lookup_lengths IsBest
lookup_lengths-IsBest t ip [] h = tt
lookup_lengths-IsBest t ip (bits ∷ ls) (top, h) = elim (Option-cases (hit t ip bits)) [
  | inl n ↦
      subst (IsBest t ip (bits ∷ ls)) (sym (lookup_lengths-none t ip bits ls n))
        (add-IsBest t ip bits ls (lookup_lengths t ip ls) n (lookup_lengths-IsBest t ip ls h))
  | inr (id, e) ↦ subst (IsBest t ip (bits ∷ ls)) (sym (lookup_lengths-some t ip bits id ls e)) (
    bits,
    e,
    (
      inr (omega arith),
      All-of_In (λ c. (hit t ip c ≡ none) ⊎ (c ≤ bits)) ls
          (λ c i. inr (ground (arith, All-In (λ y. longer y bits ≡ false) c ls top i))),
    ),
  )
]
