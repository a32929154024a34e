-- ===== src/Netflow/Template/Store.antt =====
-- What `store` does to the table, key by key.
use tikman.Prelude.{
  ◌≡◌, refl, arith, Bool, false, ◌&&◌, not, leb, is_some, Option, none, some, List, [], ◌∷◌, ◌⊎◌,
  inl, inr, ◌==◌, length, Bool-cases, Option-cases, beq_refl,
}
use tikman.Prelude.Assoc.{lookup, erase, lookup-put, lookup-put_self, lookup-erase}
use tikman.Netflow.Template.{
  Field, Template, TemplateKey, key_eq, beq_key_iff, State, max_templates, reject, new_template,
  store_template, store,
}

lookup-erase_self : (key : TemplateKey) (s : State) → lookup key (erase key s.0) ≡ none
lookup-erase_self key s = ground (arith, lookup-erase key key s.0, beq_refl key)

-- Under the key stands the layout just sent, or none.
abbrev pub IsCurrent : TemplateKey → List Field → Bool → State → Type 0
IsCurrent key fields is_data s =
    (lookup key s.0 ≡ none)
    ⊎ ((t : Template) × (new_template fields is_data ≡ some t) × (lookup key s.0 ≡ some t))

store_template-current :
    (key : TemplateKey) (o : Option Template) (s : State)
    → (lookup key (store_template key o s).0 ≡ none)
      ⊎ ((t : Template) × (o ≡ some t) × (lookup key (store_template key o s).0 ≡ some t))
unfolding store_template
store_template-current key none s = inl (lookup-erase_self key s)
store_template-current key (some t) (table, res) =
    elim (Bool-cases (not (is_some (lookup key table)) && leb max_templates (length table))) [
      | inl full ↦ inl (rw full (ground arith))
      | inr room ↦ inr (t, refl, rw room (lookup-put_self key t table))
    ]

store_template-other :
    (key j : TemplateKey) (o : Option Template) (s : State)
    → (key == j) ≡ false
    → lookup j (store_template key o s).0 ≡ lookup j s.0
unfolding store_template
store_template-other key j none (t, res) ne = ground (arith, lookup-erase key j t)
store_template-other key j (some tmpl) (t, res) ne = ground (arith, lookup-put key j tmpl t)

-- What `store` leaves under a key `j`: nothing changed under another key.
abbrev pub IsStored : TemplateKey → List Field → Bool → State → TemplateKey → State → Type 0
IsStored key fields is_data s j s' =
    ((key ≡ j) × IsCurrent key fields is_data s')
    ⊎ (((key == j) ≡ false) × (lookup j s'.0 ≡ lookup j s.0))

-- After `store`, its key holds the layout just sent or none at all, never an older one, whether the
-- layout was taken, withdrawn, refused for a bad length or refused for lack of room; and what stands
-- under any other key stays.
pub store-IsStored :
    (key j : TemplateKey) (fields : List Field) (is_data : Bool) (s : State)
    → IsStored key fields is_data s j (store key fields is_data s)
unfolding store
store-IsStored key j [] is_data s = elim (Bool-cases (key == j)) [
  | inl e ↦ inl ((beq_key_iff key j).0 e, inl (lookup-erase_self key s))
  | inr ne ↦ inr (ne, ground (arith, lookup-erase key j s.0))
]
store-IsStored key j (f ∷ fs) is_data s = elim (Bool-cases (key == j)) [
  | inl e ↦
      inl ((beq_key_iff key j).0 e, store_template-current key (new_template (f ∷ fs) is_data) s)
  | inr ne ↦ inr (ne, store_template-other key j (new_template (f ∷ fs) is_data) s ne)
]

-- Every layout that is not taken is either a withdrawal or counted as rejected.
pub store-counted :
    (key : TemplateKey) (f : Field) (fs : List Field) (is_data : Bool) (s : State)
    → let s' = store key (f ∷ fs) is_data s in
      (s'.1 ≡ reject s.1)
      ⊎ ((s'.1 ≡ s.1)
          × ((t : Template) × (new_template (f ∷ fs) is_data ≡ some t)
              × (lookup key s'.0 ≡ some t)))
unfolding store store_template
store-counted key f fs is_data (t, res) = elim (Option-cases (new_template (f ∷ fs) is_data)) [
  | inl bad ↦ inl (ground arith)
  | inr (tmpl, e) ↦
      elim (Bool-cases (not (is_some (lookup key t)) && leb max_templates (length t))) [
        | inl full ↦ inl (ground arith)
        | inr room ↦ inr (ground arith, (tmpl, e, ground (arith, lookup-put_self key tmpl t)))
      ]
]
