-- ===== src/Services/Events/Latest.antt =====
-- backend/internal/services/event_status_batch.go: the latest event of an ONT, before and behind a page.
use tikman.Prelude.{
  ℕ, ◌≡◌, ◌⊎◌, refl, ◌∙◌, ap, arith, true, false, Option, none, some, List, [], ◌∷◌, ◌++◌, nat_beq,
  ◌==◌, inl, inr, Bool-cases, Option-cases, All,
}
use tikman.Prelude.Bytes.{bytes_eq}
use tikman.Prelude.Text.{Text}
use tikman.Services.Events.{
  OntEvent, StatusChange, is_newer, newer, latest_event, close_row, close_event, opened,
  record_changes,
}

-- The type of the latest event.
abbrev pub latest_type : ℕ → List OntEvent → Option Text
latest_type ont es = elim (latest_event ont es) [ none ↦ none | some e ↦ some e.event_type ]

closed : ℕ → OntEvent → Option OntEvent → Option OntEvent
closed now previous none = none
closed now previous (some e) = some (close_row now previous e)

close-newer :
    (now : ℕ) (previous e b : OntEvent)
    → is_newer (close_row now previous b) (close_row now previous e) ≡ is_newer b e
close-newer now previous e b = ground arith

closed-newer :
    (now : ℕ) (previous e : OntEvent) (o : Option OntEvent)
    → some (newer (close_row now previous e) (closed now previous o))
      ≡ closed now previous (some (newer e o))
unfolding closed
closed-newer now previous e none = refl
closed-newer now previous e (some b) = elim (Bool-cases (is_newer b e)) [
  | inl h ↦ rw (close-newer now previous e b, h) refl
  | inr h ↦ rw (close-newer now previous e b, h) refl
]

close-ont_id : (now : ℕ) (previous e : OntEvent) → (close_row now previous e).ont_id ≡ e.ont_id
close-ont_id now previous e = ground arith

latest-close_event :
    (ont now : ℕ) (previous : OntEvent) (es : List OntEvent)
    → latest_event ont (close_event now previous es) ≡ closed now previous (latest_event ont es)
unfolding latest_event close_event closed
latest-close_event ont now previous [] = refl
latest-close_event ont now previous (e ∷ es) = elim (Bool-cases (nat_beq e.ont_id ont)) [
  | inl h ↦
      rw (close-ont_id now previous e, h, latest-close_event ont now previous es)
        (closed-newer now previous e (latest_event ont es))
  | inr h ↦ rw (close-ont_id now previous e, h) (latest-close_event ont now previous es)
]

-- Closing an event changes no type.
closed-latest_type :
    (now : ℕ) (previous : OntEvent) (o : Option OntEvent)
    → elim (closed now previous o) [ none ↦ none | some e ↦ some e.event_type ]
      ≡ elim o [ none ↦ none | some e ↦ some e.event_type ]
unfolding closed
closed-latest_type now previous none = refl
closed-latest_type now previous (some e) = elim (Bool-cases (nat_beq e.id previous.id)) [
  | inl h ↦ rw h refl
  | inr h ↦ rw h refl
]

pub latest_type-close_event :
    (ont now : ℕ) (previous : OntEvent) (es : List OntEvent)
    → latest_type ont (close_event now previous es) ≡ latest_type ont es
latest_type-close_event ont now previous es =
    ap (λ o. elim o [ none ↦ none | some e ↦ some e.event_type ])
      (latest-close_event ont now previous es)
    ∙ closed-latest_type now previous (latest_event ont es)

-- Events behind others, of which the latest is newer than all of those.
pub latest_event-append :
    (ont : ℕ) (es new : List OntEvent) (x : OntEvent)
    → All (λ e. is_newer x e ≡ true) es
    → latest_event ont new ≡ some x
    → latest_event ont (es ++ new) ≡ some x
unfolding latest_event
latest_event-append ont [] new x h k = k
latest_event-append ont (e ∷ es) new x (h, hs) k = elim (Bool-cases (nat_beq e.ont_id ont)) [
  | inl o ↦ rw (o, latest_event-append ont es new x hs k) (rw h refl)
  | inr o ↦ rw o (latest_event-append ont es new x hs k)
]

pub latest_event-append_none :
    (ont : ℕ) (es new : List OntEvent)
    → latest_event ont new ≡ none
    → latest_event ont (es ++ new) ≡ latest_event ont es
unfolding latest_event
latest_event-append_none ont [] new k = k
latest_event-append_none ont (e ∷ es) new k = elim (Bool-cases (nat_beq e.ont_id ont)) [
  | inl o ↦ rw (o, latest_event-append_none ont es new k) refl
  | inr o ↦ rw o (latest_event-append_none ont es new k)
]

close_event-All :
    (P : OntEvent → Type 0) (now : ℕ) (previous : OntEvent) (es : List OntEvent)
    → ((b e : OntEvent) → P e → P (close_row now b e))
    → All P es
    → All P (close_event now previous es)
unfolding close_event
close_event-All P now previous [] keep h = tt
close_event-All P now previous (e ∷ es) keep (h, hs) =
    (keep previous e h, close_event-All P now previous es keep hs)

-- What the loop does with one change, by the latest event that was read.
module _ (now : ℕ) (history : List OntEvent) (c : StatusChange) (cs : List StatusChange) where
  pub record_changes-first :
      (rows : List OntEvent)
      → latest_event c.ont_id history ≡ none
      → record_changes now history (c ∷ cs) rows ≡ (
        (record_changes now history cs rows).0,
        opened now c ∷ (record_changes now history cs rows).1,
      )
  unfolding record_changes
  record_changes-first rows e = rw (e, record_changes) refl

  pub record_changes-same :
      (rows : List OntEvent) (previous : OntEvent)
      → latest_event c.ont_id history ≡ some previous
      → (previous.event_type == c.event_type) ≡ true
      → record_changes now history (c ∷ cs) rows ≡ record_changes now history cs rows
  unfolding record_changes
  record_changes-same rows previous e h = rw (e, record_changes) (rw h refl)

  pub record_changes-other :
      (rows : List OntEvent) (previous : OntEvent)
      → latest_event c.ont_id history ≡ some previous
      → (previous.event_type == c.event_type) ≡ false
      → record_changes now history (c ∷ cs) rows ≡ (
        (record_changes now history cs (close_event now previous rows)).0,
        opened now c ∷ (record_changes now history cs (close_event now previous rows)).1,
      )
  unfolding record_changes
  record_changes-other rows previous e h = rw (e, record_changes) (rw h refl)

  -- Each change is kept as it is, or an event is opened for it behind some rows.
  pub record_changes-cases :
      (rows : List OntEvent)
      → ((previous : OntEvent) × (latest_event c.ont_id history ≡ some previous)
          × ((previous.event_type == c.event_type) ≡ true)
          × (record_changes now history (c ∷ cs) rows ≡ record_changes now history cs rows))
        ⊎ ((kept : List OntEvent) × ((o : ℕ) → latest_type o kept ≡ latest_type o rows)
            × ((P : OntEvent → Type 0)
                → ((b e : OntEvent) → P e → P (close_row now b e))
                → All P rows
                → All P kept)
            × (record_changes now history (c ∷ cs) rows ≡ (
              (record_changes now history cs kept).0,
              opened now c ∷ (record_changes now history cs kept).1,
            )))
  record_changes-cases rows = elim (Option-cases (latest_event c.ont_id history)) [
    | inl e ↦ inr (rows, λ o. refl, λ P keep h. h, record_changes-first rows e)
    | inr (previous, e) ↦ elim (Bool-cases (previous.event_type == c.event_type)) [
      | inl h ↦ inl (previous, e, h, record_changes-same rows previous e h)
      | inr h ↦ inr (
        close_event now previous rows,
        λ o. latest_type-close_event o now previous rows,
        λ P keep k. close_event-All P now previous rows keep k,
        record_changes-other rows previous e h,
      )
    ]
  ]
