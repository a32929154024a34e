-- ===== src/Netflow/Record/Safe.antt =====
-- Reading records by a valid template never panics, and every flow has both its addresses.
use tikman.Prelude.{
  ℕ, zero, suc, ◌+◌, ◌≤◌, ◌<◌, ◌≡◌, refl, arith, true, ◌||◌, Option, none, some, List, [], ◌∷◌,
  ◌++◌, length, All, ltb, nat_beq, Option-cases, inl, inr, length-drop, length-append,
}
use tikman.Prelude.Bytes.{Bytes}
use tikman.Prelude.Outcome.{
  Returns, returns, Returns-bind, Returns-if, Returns-slice_from, Returns-slice, Returns-mono,
}
use tikman.Netflow.Addr.{is4}
use tikman.Netflow.Template.{Flow, no_flow, Field, Template, length_valid, seen, all_valid}
use tikman.Netflow.Template.Valid.{IsSized, IsTemplate}
use tikman.Netflow.Record.{
  addr_from4, set_field, long_length, var_length, field_length, decode_fields, decode_record,
  records_loop, decode_records,
}

-- An IPv4 flow: both addresses were set.
pub record IsIpv4 (f : Flow) : Type 0 where
  pub src4 : is4 f.src ≡ true
  pub dst4 : is4 f.dst ≡ true

addr_from4_safe : (v : Bytes) → length v ≡ 4 → Returns (λ a. is4 a ≡ true) (addr_from4 v)
unfolding addr_from4
addr_from4_safe [] h = absurd (omega arith)
addr_from4_safe (a ∷ []) h = absurd (omega arith)
addr_from4_safe (a ∷ b ∷ []) h = absurd (omega arith)
addr_from4_safe (a ∷ b ∷ c ∷ []) h = absurd (omega arith)
addr_from4_safe (a ∷ b ∷ c ∷ d ∷ r) h = returns _ refl

abbrev pub Sets : ℕ → Flow → Flow → Type 0
Sets id f f' =
    ((nat_beq id 8 || is4 f.src) ≡ true → is4 f'.src ≡ true)
    × ((nat_beq id 12 || is4 f.dst) ≡ true → is4 f'.dst ≡ true)

pub set_field_safe :
    (f : Flow) (id : ℕ) (v : Bytes)
    → (id ≡ 8 → length v ≡ 4)
    → (id ≡ 12 → length v ≡ 4)
    → Returns (Sets id f) (set_field f id v)
unfolding set_field
set_field_safe f id v h8 h12 =
    Returns-if (nat_beq id 8)
      (λ e.
        Returns-bind _ (addr_from4_safe v (h8 (ground arith)))
          λ a four. returns _ (ground arith, ground arith))
      λ n8.
        Returns-if (nat_beq id 12)
          (λ e.
            Returns-bind _ (addr_from4_safe v (h12 (ground arith)))
              λ a four. returns _ (ground arith, ground arith))
          λ n12.
            Returns-if (nat_beq id 10) (λ e. returns _ (ground arith, ground arith))
              λ n10.
                Returns-if (nat_beq id 14) (λ e. returns _ (ground arith, ground arith))
                  λ n14.
                    Returns-if (nat_beq id 1) (λ e. returns _ (ground arith, ground arith))
                      λ n1.
                        Returns-if (nat_beq id 2) (λ e. returns _ (ground arith, ground arith))
                          λ n2. returns f (ground arith, ground arith)

pub var_length_header : (b : Bytes) (n header : ℕ) → var_length b ≡ some (n, header) → 0 < header
unfolding var_length long_length
var_length_header [] n header e = cc
var_length_header (b ∷ []) n header e = ground arith
var_length_header (b ∷ c ∷ []) n header e = ground arith
var_length_header (b ∷ c ∷ d ∷ r) n header e = ground arith

-- A field that may have a record takes a byte at least, and an address takes four.
field_length_takes :
    (f : Field) (b : Bytes) (n header : ℕ)
    → IsSized f
    → length_valid f ≡ true
    → field_length f b ≡ some (n, header)
    → (0 < header + n) × (f.id ≡ 8 → n ≡ 4) × (f.id ≡ 12 → n ≡ 4)
unfolding field_length length_valid
field_length_takes f b n header h hv e =
    (ground (arith, var_length_header b n header), ground (arith), ground (arith))

-- What reading the fields `fs` from `off` on comes to.
abbrev AreRead : List Field → Bytes → ℕ → Flow → Option (Flow × ℕ) → Type 0
AreRead fs b off f none = Unit {0}
AreRead fs b off f (some (f', used)) =
    (off ≤ used)
    × (0 < length fs → off < used)
    × (used ≤ length b)
    × ((seen 8 fs || is4 f.src) ≡ true → is4 f'.src ≡ true)
    × ((seen 12 fs || is4 f.dst) ≡ true → is4 f'.dst ≡ true)

weaken :
    (field : Field) (fs : List Field) (b : Bytes) (off off' : ℕ) (f f' : Flow)
    → off < off'
    → Sets field.id f f'
    → (o : Option (Flow × ℕ)) → AreRead fs b off' f' o
    → AreRead (field ∷ fs) b off f o
unfolding seen
weaken field fs b off off' f f' h sets none r = tt
weaken field fs b off off' f f' h sets (some (g, used)) r = ground arith

decode_fields_safe :
    (fs : List Field) (b : Bytes) (off : ℕ) (f : Flow)
    → All IsSized fs
    → all_valid fs ≡ true
    → off ≤ length b
    → Returns (AreRead fs b off f) (decode_fields fs b off f)
unfolding decode_fields all_valid seen
decode_fields_safe [] b off f hs hv h = returns _ (ground arith)
decode_fields_safe (field ∷ fs) b off f (hf, hs) hv h =
    Returns-bind _ (Returns-slice_from b off h) λ at at_eq.
      elim (Option-cases (field_length field at)) [
        | inl e ↦ rw e (returns none tt)
        | inr ((n, header), e) ↦
            let (some_bytes, four8, four12) =
              field_length_takes field at n header hf (ground arith) e in
            rw e (
              Returns-if (ltb (length b) (off + header + n)) (λ _. returns none tt)
                λ fits.
                  Returns-bind _
                    (Returns-slice b (off + header) (off + header + n) (omega arith) (ground arith))
                    λ v v_len.
                      Returns-bind _
                        (set_field_safe f field.id v (λ i. omega (arith, four8 i))
                          (λ i. omega (arith, four12 i)))
                        λ f' sets.
                          Returns-mono
                            (weaken field fs b off (off + header + n) f f' (omega arith) sets)
                            (decode_fields_safe fs b (off + header + n) f' hs (ground arith)
                              (ground arith)))
      ]

abbrev IsRecord : Template → Bytes → Option (Flow × ℕ) → Type 0
IsRecord tmpl b none = Unit {0}
IsRecord tmpl b (some (f, used)) = (0 < used) × (used ≤ length b) × (tmpl.usable ≡ true → IsIpv4 f)

read→IsRecord :
    (tmpl : Template) (b : Bytes) (o : Option (Flow × ℕ))
    → IsTemplate tmpl
    → AreRead tmpl.fields b 0 no_flow o
    → IsRecord tmpl b o
read→IsRecord tmpl b none h r = tt
read→IsRecord tmpl b (some (f, used)) h (le, lt, fits, src, dst) = (
  lt h.nonempty,
  fits,
  λ u. record { src4 = ground (arith, src, h.has_src u); dst4 = ground (arith, dst, h.has_dst u) },
)

decode_record_safe :
    (tmpl : Template) (b : Bytes)
    → IsTemplate tmpl
    → Returns (IsRecord tmpl b) (decode_record tmpl b)
unfolding decode_record
decode_record_safe tmpl b h =
    Returns-mono (λ o. read→IsRecord tmpl b o h)
      (decode_fields_safe tmpl.fields b 0 no_flow h.sized h.lengths (omega arith))

pub AreIpv4 : List Flow → Type 0
AreIpv4 = All IsIpv4

AreIpv4-snoc : (fs : List Flow) (f : Flow) → AreIpv4 fs → IsIpv4 f → AreIpv4 (fs ++ (f ∷ []))
unfolding AreIpv4
AreIpv4-snoc [] f h k = (k, tt)
AreIpv4-snoc (g ∷ fs) f (hg, hs) k = (hg, AreIpv4-snoc fs f hs k)

pub AreIpv4-append : (fs gs : List Flow) → AreIpv4 fs → AreIpv4 gs → AreIpv4 (fs ++ gs)
unfolding AreIpv4
AreIpv4-append [] gs h k = k
AreIpv4-append (g ∷ fs) gs (hg, hs) k = (hg, AreIpv4-append fs gs hs k)

pub AreIpv4-nil : AreIpv4 []
unfolding AreIpv4
AreIpv4-nil = tt

-- What the records of a body of `n` bytes add to `m` flows.
pub record AreFlows (m n : ℕ) (out : List Flow) : Type 0 where
  pub ipv4 : AreIpv4 out
  pub few : length out ≤ m + n

records_loop_safe :
    (fuel : ℕ) (tmpl : Template) (body : Bytes) (flows : List Flow)
    → IsTemplate tmpl
    → tmpl.usable ≡ true
    → length body ≤ fuel
    → AreIpv4 flows
    → Returns (AreFlows (length flows) (length body)) (records_loop fuel tmpl body flows)
unfolding records_loop
records_loop_safe fuel tmpl [] flows h u enough hs =
    returns flows (record { ipv4 = hs; few = omega arith })
records_loop_safe zero tmpl (b ∷ bs) flows h u enough hs = absurd (omega arith)
records_loop_safe (suc fuel) tmpl (b ∷ bs) flows h u enough hs =
    Returns-bind _ (decode_record_safe tmpl (b ∷ bs) h) elim [
      | none ↦ λ _. returns flows (record { ipv4 = hs; few = omega arith })
      | some (f, used) ↦ λ r. Returns-bind _ (Returns-slice_from (b ∷ bs) used r.1) λ rest rest_eq.
          let shorter : length rest + used ≡ length (b ∷ bs) =
            ground (arith, length-drop used (b ∷ bs), r.1) in
          Returns-mono
            (λ out a. record {
              ipv4 = a.ipv4;
              few = omega (arith, a.few, length-append flows (f ∷ []), r.0);
            })
            (records_loop_safe fuel tmpl rest (flows ++ (f ∷ [])) h u (omega (arith, r.0))
              (AreIpv4-snoc flows f hs (r.2 u)))
    ]

-- The records of any body, read by a valid template: no panic, an end, IPv4 flows only, and at most
-- as many as there are bytes.
pub decode_records_safe :
    (tmpl : Template) (body : Bytes)
    → IsTemplate tmpl
    → Returns (AreFlows 0 (length body)) (decode_records tmpl body)
unfolding decode_records
decode_records_safe tmpl body h =
    Returns-if tmpl.usable
      (λ u. records_loop_safe (length body) tmpl body [] h u (omega arith) AreIpv4-nil)
      (λ _. returns [] (record { ipv4 = AreIpv4-nil; few = omega arith }))
