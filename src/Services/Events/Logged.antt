-- ===== src/Services/Events/Logged.antt =====
-- backend/internal/services/event_status_batch.go: `LogStatusChanges` of a page.
use tikman.Prelude.{
  ℕ, ◌+◌, ◌≤◌, ◌<◌, ◌≡◌, ◌⊎◌, refl, ◌∙◌, sym, ap, arith, true, false, none, some, List, [], ◌∷◌,
  ◌++◌, nat_beq, nat_beq_iff, inl, inr, Bool-cases, All,
}
use mathlib.Core.Path.{subst}
use tikman.Prelude.Bytes.{bytes_eq, beq_bytes_iff}
use tikman.Services.Events.{
  OntEvent, StatusChange, Table, is_newer, latest_event, close_row, opened, record_changes,
  numbered, create,
}
use tikman.Services.Events.Latest.{
  latest_type, latest_event-append, latest_event-append_none, record_changes-cases,
}

-- A page names an ONT once.
abbrev pub IsPage : List StatusChange → Type 0
IsPage [] = Unit
IsPage (c ∷ cs) = All (λ d. nat_beq d.ont_id c.ont_id ≡ false) cs × IsPage cs

-- The rows are not from the future, and their identifiers are used up.
abbrev pub IsPast : ℕ → ℕ → OntEvent → Type 0
IsPast now next e = (e.event_time ≤ now) × (e.id < next)

-- The ONT's latest event has the type already and none is opened, or one of the type is.
record IsReused (history : List OntEvent) (next : ℕ) (c : StatusChange) (more : List OntEvent)
    : Type 0 where
  known : latest_type c.ont_id history ≡ some c.event_type
  absent : latest_event c.ont_id (numbered next more) ≡ none

record IsOpened (now next : ℕ) (c : StatusChange) (more : List OntEvent) : Type 0 where
  event : OntEvent
  latest : latest_event c.ont_id (numbered next more) ≡ some event
  event_type : event.event_type ≡ c.event_type
  time : event.event_time ≡ now
  id : next ≤ event.id

abbrev IsSettled : ℕ → List OntEvent → ℕ → StatusChange → List OntEvent → Type 0
IsSettled now history next c more = IsReused history next c more ⊎ IsOpened now next c more

-- An event in front that is of another ONT.
behind-IsSettled :
    (now : ℕ) (history : List OntEvent) (next : ℕ) (c d : StatusChange) (more : List OntEvent)
    → nat_beq d.ont_id c.ont_id ≡ false
    → IsSettled now history (next + 1) c more
    → IsSettled now history next c (opened now d ∷ more)
unfolding latest_event numbered
behind-IsSettled now history next c d more other (inl h) =
    inl (record { known = h.known; absent = rw other h.absent })
behind-IsSettled now history next c d more other (inr h) = inr (record {
  event = h.event;
  latest = rw other h.latest;
  event_type = h.event_type;
  time = h.time;
  id = omega (arith, h.id);
})

absent-events :
    (now : ℕ) (history : List OntEvent) (o next : ℕ) (cs : List StatusChange) (rows : List OntEvent)
    → All (λ d. nat_beq d.ont_id o ≡ false) cs
    → latest_event o (numbered next (record_changes now history cs rows).1) ≡ none
unfolding latest_event numbered record_changes
absent-events now history o next [] rows h = refl
absent-events now history o next (c ∷ cs) rows (h, hs) =
    elim (record_changes-cases now history c cs rows) [
      | inl (previous, e, same, q) ↦ rw q (absent-events now history o next cs rows hs)
      | inr (kept, types, all, q) ↦ rw (q, h) (absent-events now history o (next + 1) cs kept hs)
    ]

opened-IsOpened :
    (now next : ℕ) (c : StatusChange) (more : List OntEvent)
    → latest_event c.ont_id (numbered (next + 1) more) ≡ none
    → IsOpened now next c (opened now c ∷ more)
unfolding latest_event numbered
opened-IsOpened now next c more h = record {
  event = record (opened now c) { id = next };
  latest = rw ((nat_beq_iff c.ont_id c.ont_id).1 refl, h) refl;
  event_type = refl;
  time = refl;
  id = omega arith;
}

shifted-All :
    (now : ℕ) (history : List OntEvent) (next : ℕ) (d : StatusChange) (cs : List StatusChange)
    (more : List OntEvent)
    → All (λ c. nat_beq c.ont_id d.ont_id ≡ false) cs
    → All (λ c. IsSettled now history (next + 1) c more) cs
    → All (λ c. IsSettled now history next c (opened now d ∷ more)) cs
shifted-All now history next d [] more h k = tt
shifted-All now history next d (c ∷ cs) more (h, hs) (k, ks) = (
  behind-IsSettled now history next c d more
      (ground (arith, h, nat_beq_iff c.ont_id d.ont_id, nat_beq_iff d.ont_id c.ont_id)) k,
  shifted-All now history next d cs more hs ks,
)

record_changes-All :
    (now : ℕ) (history : List OntEvent) (next : ℕ) (cs : List StatusChange) (rows : List OntEvent)
    → IsPage cs
    → All (λ c. IsSettled now history next c (record_changes now history cs rows).1) cs
record_changes-All now history next [] rows p = tt
record_changes-All now history next (c ∷ cs) rows (p, ps) =
    elim (record_changes-cases now history c cs rows) [
      | inl (previous, e, same, q) ↦
          subst (λ r. All (λ d. IsSettled now history next d r.1) (c ∷ cs)) (sym q)
            (
              inl (record {
                known =
                    ap (λ o. elim o [ none ↦ none | some x ↦ some x.event_type ]) e
                    ∙ ap some ((beq_bytes_iff previous.event_type c.event_type).0 same);
                absent = absent-events now history c.ont_id next cs rows p;
              }),
              record_changes-All now history next cs rows ps,
            )
      | inr (kept, types, all, q) ↦
          subst (λ r. All (λ d. IsSettled now history next d r.1) (c ∷ cs)) (sym q)
            (
              inr (
                  opened-IsOpened now next c _
                    (absent-events now history c.ont_id (next + 1) cs kept p)),
              shifted-All now history next c cs _ p
                  (record_changes-All now history (next + 1) cs kept ps),
            )
    ]

-- The rows that the loop leaves have the same latest types, and stay in the past.
record_changes-types :
    (now : ℕ) (history : List OntEvent) (o : ℕ) (cs : List StatusChange) (rows : List OntEvent)
    → latest_type o (record_changes now history cs rows).0 ≡ latest_type o rows
unfolding record_changes
record_changes-types now history o [] rows = refl
record_changes-types now history o (c ∷ cs) rows =
    elim (record_changes-cases now history c cs rows) [
      | inl (previous, e, same, q) ↦ rw q (record_changes-types now history o cs rows)
      | inr (kept, types, all, q) ↦ rw q (record_changes-types now history o cs kept ∙ types o)
    ]

close-IsPast :
    (now next at : ℕ) (b e : OntEvent) → IsPast now next e → IsPast now next (close_row at b e)
close-IsPast now next at b e h = elim (Bool-cases (nat_beq e.id b.id)) [
  | inl same ↦ rw same h
  | inr other ↦ rw other h
]

record_changes-IsPast :
    (now next : ℕ) (history : List OntEvent) (cs : List StatusChange) (rows : List OntEvent)
    → All (IsPast now next) rows
    → All (IsPast now next) (record_changes now history cs rows).0
unfolding record_changes
record_changes-IsPast now next history [] rows h = h
record_changes-IsPast now next history (c ∷ cs) rows h =
    elim (record_changes-cases now history c cs rows) [
      | inl (previous, e, same, q) ↦ rw q (record_changes-IsPast now next history cs rows h)
      | inr (kept, types, all, q) ↦ rw q (
          record_changes-IsPast now next history cs kept
            (all (IsPast now next) (λ b e. close-IsPast now next now b e) h))
    ]

append_nil : {A : Type 0} (l : List A) → l ≡ l ++ []
append_nil [] = refl
append_nil (x ∷ xs) = ap (λ m. x ∷ m) (append_nil xs)

create-rows :
    (es : List OntEvent) (t : Table) → (create es t).rows ≡ t.rows ++ numbered t.next_id es
unfolding create numbered
create-rows [] t = append_nil t.rows
create-rows (e ∷ es) t = refl

newer-All :
    (now next : ℕ) (x : OntEvent) (es : List OntEvent)
    → x.event_time ≡ now
    → next ≤ x.id
    → All (IsPast now next) es
    → All (λ e. is_newer x e ≡ true) es
newer-All now next x [] t i h = tt
newer-All now next x (e ∷ es) t i ((past, used), hs) =
    (ground (arith, t, i, past, used), newer-All now next x es t i hs)

settled-latest_type :
    (now next : ℕ) (history kept more : List OntEvent) (c : StatusChange)
    → All (IsPast now next) kept
    → latest_type c.ont_id kept ≡ latest_type c.ont_id history
    → IsSettled now history next c more
    → latest_type c.ont_id (kept ++ numbered next more) ≡ some c.event_type
settled-latest_type now next history kept more c past same (inl h) =
    ap (λ o. elim o [ none ↦ none | some x ↦ some x.event_type ])
      (latest_event-append_none c.ont_id kept (numbered next more) h.absent)
    ∙ same
    ∙ h.known
settled-latest_type now next history kept more c past same (inr h) =
    ap (λ o. elim o [ none ↦ none | some x ↦ some x.event_type ])
      (latest_event-append c.ont_id kept (numbered next more) h.event
        (newer-All now next h.event kept h.time h.id past) h.latest)
    ∙ ap some h.event_type

settled-All :
    (now next : ℕ) (history kept more : List OntEvent) (cs : List StatusChange)
    → All (IsPast now next) kept
    → ((o : ℕ) → latest_type o kept ≡ latest_type o history)
    → All (λ c. IsSettled now history next c more) cs
    → All (λ c. latest_type c.ont_id (kept ++ numbered next more) ≡ some c.event_type) cs
settled-All now next history kept more [] past same h = tt
settled-All now next history kept more (c ∷ cs) past same (h, hs) = (
  settled-latest_type now next history kept more c past (same c.ont_id) h,
  settled-All now next history kept more cs past same hs,
)

pub page-latest_type :
    (now : ℕ) (cs : List StatusChange) (t : Table)
    → IsPage cs
    → All (IsPast now t.next_id) t.rows
    → All
        (λ c.
          latest_type c.ont_id
            (create
              (record_changes now t.rows cs t.rows).1
              (record t { rows = (record_changes now t.rows cs t.rows).0 })).rows
          ≡ some c.event_type)
        cs
page-latest_type now cs t page past =
    rw
      (create-rows (record_changes now t.rows cs t.rows).1
        (record t { rows = (record_changes now t.rows cs t.rows).0 }))
      (settled-All now t.next_id t.rows (record_changes now t.rows cs t.rows).0
        (record_changes now t.rows cs t.rows).1 cs
        (record_changes-IsPast now t.next_id t.rows cs t.rows past)
        (λ o. record_changes-types now t.rows o cs t.rows)
        (record_changes-All now t.rows t.next_id cs t.rows page))
