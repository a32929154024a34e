-- ===== src/Netflow/Template/Valid.antt =====
-- The invariant of a template table, and that learning templates never panics and keeps it.
use tikman.Prelude.{
  ◌&&◌, ◌||◌, ℕ, zero, suc, ◌+◌, ◌*◌, ◌≤◌, ◌<◌, ◌≡◌, ◌∙◌, refl, arith, Bool, true, false, not,
  Option, none, some, List, [], ◌∷◌, ◌++◌, length, All, ltb, leb, nat_beq, is_some, Bool-cases, inl,
  inr, length-drop,
}
use tikman.Prelude.Bytes.{Bytes}
use tikman.Prelude.Assoc.{lookup, All-put, All-erase, length-put, length-erase}
use tikman.Prelude.Outcome.{
  Returns, returns, Returns-bind, Returns-if, Returns-slice_from, Returns-uint16, Returns-mono,
}
use tikman.Netflow.Template.{
  Field, Template, Templates, TemplateKey, key_eq, State, max_templates, reject, read_field_specs,
  spec_end, spec_field, read_fields, seen, all_valid, new_template, store_template, store,
  learn_loop, learn_templates,
}

abbrev pub IsSized : Field → Type 0
IsSized f = 0 < f.length

-- What holds of every template in the table.
pub record IsTemplate (t : Template) : Type 0 where
  pub nonempty : 0 < length t.fields
  pub sized : All IsSized t.fields
  pub lengths : all_valid t.fields ≡ true
  pub has_src : t.usable ≡ true → seen 8 t.fields ≡ true
  pub has_dst : t.usable ≡ true → seen 12 t.fields ≡ true
  pub has_count : t.usable ≡ true → seen 1 t.fields ≡ true

pub record IsTable (t : Templates) : Type 0 where
  pub each : All (λ p. IsTemplate p.1) t
  pub capped : length t ≤ max_templates

abbrev AreSpecs : Bytes → Option (List Field × ℕ) → Type 0
AreSpecs b none = Unit {0}
AreSpecs b (some (fields, used)) = All IsSized fields × (used ≤ length b)

All-snoc : (fs : List Field) (f : Field) → All IsSized fs → IsSized f → All IsSized (fs ++ (f ∷ []))
All-snoc [] f h k = (k, tt)
All-snoc (g ∷ fs) f (hg, hs) k = (hg, All-snoc fs f hs k)

read_field_specs_safe :
    (count : ℕ) (b : Bytes) (off : ℕ) (fields : List Field)
    → off ≤ length b
    → All IsSized fields
    → Returns (AreSpecs b) (read_field_specs count b off fields)
unfolding read_field_specs
read_field_specs_safe zero b off fields h hs = returns _ (hs, h)
read_field_specs_safe (suc count) b off fields h hs =
    Returns-if (ltb (length b) (off + 4)) (λ _. returns none tt)
      λ room. Returns-bind _ (Returns-slice_from b off h) λ ids ids_eq.
        Returns-bind _ (Returns-uint16 ids (ground (arith, length-drop off b))) λ id _.
          Returns-bind _ (Returns-slice_from b (off + 2) (ground arith)) λ lens lens_eq.
            Returns-bind _ (Returns-uint16 lens (ground (arith, length-drop (off + 2) b))) λ len _.
              Returns-if (nat_beq len 0 || ltb (length b) (spec_end id off)) (λ _. returns none tt)
                λ fine.
                  read_field_specs_safe count b (spec_end id off)
                    (fields ++ (spec_field id len ∷ [])) (ground arith)
                    (All-snoc fields (spec_field id len) hs (ground arith))

read_fields_safe : (b : Bytes) (count : ℕ) → Returns (AreSpecs b) (read_fields b count)
unfolding read_fields
read_fields_safe b count =
    Returns-if (ltb (length b) (count * 4)) (λ _. returns none tt)
      λ _. read_field_specs_safe count b 0 [] (omega arith) tt

new_template-IsTemplate :
    (f : Field) (fs : List Field) (is_data : Bool) (t : Template)
    → All IsSized (f ∷ fs)
    → new_template (f ∷ fs) is_data ≡ some t
    → IsTemplate t
unfolding new_template
new_template-IsTemplate f fs is_data t h e = record {
  nonempty = ground arith;
  sized = let same : t.fields ≡ f ∷ fs = ground arith in rw same h;
  lengths = ground arith;
  has_src = ground arith;
  has_dst = ground arith;
  has_count = ground arith;
}

store_template-IsTable :
    (key : TemplateKey) (o : Option Template) (s : State)
    → ((t : Template) → o ≡ some t → IsTemplate t)
    → IsTable s.0
    → IsTable (store_template key o s).0
unfolding store_template
store_template-IsTable key none (t, res) ht h = record {
  each = All-erase IsTemplate key t h.each;
  capped = omega (arith, length-erase key t, h.capped);
}
store_template-IsTable key (some tmpl) (t, res) ht h =
    elim (Bool-cases (not (is_some (lookup key t)) && leb max_templates (length t))) [
      | inl full ↦ rw full h
      | inr room ↦ rw room (record {
        each = All-put IsTemplate key tmpl t (ht tmpl refl) h.each;
        capped = ground (arith, length-put key tmpl t, h.capped);
      })
    ]

-- Storing any layout of fields with a length keeps the table valid and within its cap.
pub store-IsTable :
    (key : TemplateKey) (fields : List Field) (is_data : Bool) (s : State)
    → All IsSized fields
    → IsTable s.0
    → IsTable (store key fields is_data s).0
unfolding store
store-IsTable key [] is_data (t, res) hs h = record {
  each = All-erase IsTemplate key t h.each;
  capped = omega (arith, length-erase key t, h.capped);
}
store-IsTable key (f ∷ fs) is_data s hs h =
    store_template-IsTable key (new_template (f ∷ fs) is_data) s
      (λ t e. new_template-IsTemplate f fs is_data t hs e) h

store-flows :
    (key : TemplateKey) (fields : List Field) (is_data : Bool) (s : State)
    → (store key fields is_data s).1.flows ≡ s.1.flows
unfolding store store_template
store-flows key [] is_data (t, res) = refl
store-flows key (f ∷ fs) is_data (t, res) = ground arith

abbrev pub Learnt : State → State → Type 0
Learnt s s' = IsTable s'.0 × (s'.1.flows ≡ s.1.flows)

learn_loop_safe :
    (header domain : ℕ) (options : Bool) (fuel : ℕ) (body : Bytes) (s : State)
    → 4 ≤ header
    → length body < fuel
    → IsTable s.0
    → Returns (Learnt s) (learn_loop header domain options fuel body s)
unfolding learn_loop
learn_loop_safe header domain options zero body s four enough h = absurd (omega arith)
learn_loop_safe header domain options (suc fuel) body s four enough h =
    Returns-if (ltb (length body) header) (λ _. returns s (h, refl))
      λ room. Returns-bind _ (Returns-uint16 body (ground arith)) λ id _.
        Returns-if (ltb id 256) (λ _. returns s (h, refl))
          λ _. Returns-bind _ (Returns-slice_from body 2 (ground arith)) λ counts counts_eq.
            Returns-bind _ (Returns-uint16 counts (ground (arith, length-drop 2 body))) λ count _.
              Returns-bind _ (Returns-slice_from body header (ground arith)) λ specs specs_eq.
                Returns-bind _ (read_fields_safe specs count) elim [
                  | none ↦ λ _. returns (s.0, reject s.1) (h, refl)
                  | some (fields, used) ↦ λ ok_specs.
                      Returns-bind _
                        (Returns-slice_from body (header + used)
                          (ground (arith, length-drop header body, ok_specs.1)))
                        λ body' body'_eq.
                          let key : TemplateKey = record { domain = domain; id = id } in
                          Returns-mono (λ s' l. (l.0, l.1 ∙ store-flows key fields (not options) s))
                            (learn_loop_safe header domain options fuel body'
                              (store key fields (not options) s) four
                              (ground (arith, length-drop (header + used) body))
                              (store-IsTable key fields (not options) s ok_specs.0 h))
                ]

-- On any bytes at all, a set of templates is read to its end: no index is out of range, the loop
-- stops, the table that comes out is valid and within its cap, and no flow is added.
pub learn_templates_safe :
    (domain : ℕ) (body : Bytes) (options : Bool) (s : State)
    → IsTable s.0
    → Returns (Learnt s) (learn_templates domain body options s)
unfolding learn_templates
learn_templates_safe domain body true s h =
    learn_loop_safe 6 domain true (suc (length body)) body s (omega arith) (omega arith) h
learn_templates_safe domain body false s h =
    learn_loop_safe 4 domain false (suc (length body)) body s (omega arith) (omega arith) h
