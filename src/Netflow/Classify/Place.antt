-- ===== src/Netflow/Classify/Place.antt =====
-- Where a flow is placed, and the own prefix that it is counted under.
use mathlib.Core.Path.{subst}
use tikman.Prelude.{
  sym, ℕ, ◌≤◌, ◌≡◌, ◌≢◌, refl, arith, Bool, true, false, ◌&&◌, ◌||◌, not, some, none, List, [], ◌∷◌,
  All, ◌⊎◌, inl, inr, nat_eq, ltb, Bool-cases,
}
use tikman.Prelude.Assoc.{lookup}
use tikman.Prelude.Sort.{In}
use tikman.Netflow.Addr.{Addr, Prefix, no_prefix, is_valid, contains}
use tikman.Netflow.Template.{Flow}
use tikman.Netflow.Classify.{
  RouterMap, Classified, download, upload, plausible, scale, place, place_side, classify,
  most_specific_from, most_specific,
}

-- In from an upstream and not to the router itself.
pub record IsDownload (m : RouterMap) (f : Flow) (c : Classified) : Type 0 where
  pub way : c.direction ≡ download
  pub entered : lookup f.ingress m.upstreams ≡ some c.upstream
  pub far : c.remote ≡ f.src
  pub own : c.own_prefix ≡ most_specific m.own f.dst
  pub forwarded : f.egress ≢ 0

-- Not in from an upstream, out to one, and not sent by the router itself.
pub record IsUpload (m : RouterMap) (f : Flow) (c : Classified) : Type 0 where
  pub way : c.direction ≡ upload
  pub not_entered : lookup f.ingress m.upstreams ≡ none
  pub left : lookup f.egress m.upstreams ≡ some c.upstream
  pub far : c.remote ≡ f.dst
  pub own : c.own_prefix ≡ most_specific m.own f.src
  pub forwarded : f.ingress ≢ 0

-- A flow that is classified crossed an upstream one way or the other, and was not the router's own.
pub classify_sides :
    (m : RouterMap) (f : Flow) (c : Classified)
    → classify m f ≡ some c
    → IsDownload m f c ⊎ IsUpload m f c
unfolding classify scale place_side place
classify_sides m f c e = ground arith

-- Every other flow is dropped: an implausible one, one that crossed no upstream, one of the router.
pub classify_dropped :
    (m : RouterMap) (f : Flow)
    → classify m f ≡ none
    → (plausible m f ≡ false)
      ⊎ ((lookup f.ingress m.upstreams ≡ none) × (lookup f.egress m.upstreams ≡ none))
      ⊎ (f.egress ≡ 0)
      ⊎ (f.ingress ≡ 0)
unfolding classify scale place_side place plausible
classify_dropped m f e = ground arith

-- `p` holds the address, and no prefix of the list that does is longer.
abbrev pub IsLongest : Prefix → List Prefix → Addr → Type 0
IsLongest p ps addr =
    (contains p addr ≡ true) × All (λ r. (contains r addr ≡ false) ⊎ (r.bits ≤ p.bits)) ps

module _ (addr : Addr) where
  abbrev Holds : Prefix → Type 0
  Holds p = contains p addr ≡ true

  abbrev better : Prefix → Prefix → Bool
  better b p = contains p addr && (not (is_valid b) || ltb b.bits p.bits)

  shorter :
      (b p : Prefix) {n : ℕ}
      → b.bits ≤ n
      → Holds b
      → better b p ≡ false
      → (contains p addr ≡ false) ⊎ (p.bits ≤ n)
  shorter b p le hb e = ground arith

  step_take :
      (b p : Prefix) (ps : List Prefix)
      → better b p ≡ true
      → most_specific_from b (p ∷ ps) addr ≡ most_specific_from p ps addr
  unfolding most_specific_from
  step_take b p ps e = rw e

  step_keep :
      (b p : Prefix) (ps : List Prefix)
      → better b p ≡ false
      → most_specific_from b (p ∷ ps) addr ≡ most_specific_from b ps addr
  unfolding most_specific_from
  step_keep b p ps e = rw e

  abbrev Held : Prefix → List Prefix → Prefix → Type 0
  Held b ps r =
      In r (b ∷ ps)
      × Holds r
      × (b.bits ≤ r.bits)
      × All (λ p. (contains p addr ≡ false) ⊎ (p.bits ≤ r.bits)) ps

  abbrev NoneOr : List Prefix → Prefix → Type 0
  NoneOr ps r =
      ((r ≡ no_prefix) × All (λ p. contains p addr ≡ false) ps) ⊎ (In r ps × IsLongest r ps addr)

  from_Held : (ps : List Prefix) (b : Prefix) → Holds b → Held b ps (most_specific_from b ps addr)
  from_Held [] b h = unfold most_specific_from in (inl refl, h, omega arith, tt)
  from_Held (p ∷ ps) b h = elim (Bool-cases (better b p)) [
    | inl e ↦
        let (here, holds, le, all) = from_Held ps p (ground arith) in
        subst (Held b (p ∷ ps)) (sym (step_take b p ps e))
          (inr here, holds, ground arith, (inr le, all))
    | inr e ↦
        let (here, holds, le, all) = from_Held ps b h in
        subst (Held b (p ∷ ps)) (sym (step_keep b p ps e))
          (elim here [ inl q ↦ inl q | inr i ↦ inr (inr i) ], holds, le, (shorter b p le h e, all))
  ]

  from_NoneOr : (ps : List Prefix) → NoneOr ps (most_specific_from no_prefix ps addr)
  from_NoneOr [] = unfold most_specific_from in inl (refl, tt)
  from_NoneOr (p ∷ ps) = elim (Bool-cases (contains p addr)) [
    | inl e ↦
        let (here, holds, le, all) = from_Held ps p e in
        subst (NoneOr (p ∷ ps)) (sym (step_take no_prefix p ps (ground arith)))
          (inr (here, (holds, (inr le, all))))
    | inr e ↦
        subst (NoneOr (p ∷ ps)) (sym (step_keep no_prefix p ps (ground arith)))
          (elim (from_NoneOr ps) [
            | inl (q, all) ↦ inl (q, (e, all))
            | inr (i, (holds, all)) ↦ inr (inr i, (holds, (inl e, all)))
          ])
  ]

-- The own prefix of a flow is the zero prefix if no announced prefix holds the address, and otherwise
-- an announced prefix that holds it, than which none that holds it is longer.
pub most_specific_lem :
    (ps : List Prefix) (addr : Addr)
    → ((most_specific ps addr ≡ no_prefix) × All (λ p. contains p addr ≡ false) ps)
      ⊎ (In (most_specific ps addr) ps × IsLongest (most_specific ps addr) ps addr)
unfolding most_specific
most_specific_lem ps addr = from_NoneOr addr ps
