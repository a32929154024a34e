-- ===== src/Services/Events/Repeated.antt =====
-- backend/internal/services/event_status_batch.go: a page, and the same page again.
use tikman.Prelude.{
  some-inj, none-some, ℕ, ◌≡◌, ◌⊎◌, refl, ◌∙◌, sym, ap, true, false, none, some, List, [], ◌∷◌,
  ◌==◌, inl, inr, Bool-cases, Option-cases, All,
}
use tikman.Prelude.Bytes.{bytes_eq, beq_bytes_iff}
use tikman.Prelude.Text.{Text}
use tikman.Services.Events.{
  OntEvent, StatusChange, Table, latest_event, record_changes, create, valid_status_changes,
  log_status_changes,
}
use tikman.Services.Events.Latest.{latest_type, record_changes-same}
use tikman.Services.Events.Logged.{IsPage, IsPast, page-latest_type}

latest_type-some :
    (o : ℕ) (rows : List OntEvent) (t : Text)
    → latest_type o rows ≡ some t
    → (e : OntEvent) × (latest_event o rows ≡ some e) × ((e.event_type == t) ≡ true)
latest_type-some o rows t h = elim (Option-cases (latest_event o rows)) [
  | inl e ↦
      absurd
        (none-some t (sym (ap (λ o. elim o [ none ↦ none | some x ↦ some x.event_type ]) e) ∙ h))
  | inr (x, e) ↦ (
    x,
    e,
    (beq_bytes_iff x.event_type t).1
        (some-inj _ _ (sym (ap (λ o. elim o [ none ↦ none | some x ↦ some x.event_type ]) e) ∙ h)),
  )
]

record_changes-known :
    (now : ℕ) (history : List OntEvent) (cs : List StatusChange) (rows : List OntEvent)
    → All (λ c. latest_type c.ont_id history ≡ some c.event_type) cs
    → record_changes now history cs rows ≡ (rows, [])
unfolding record_changes
record_changes-known now history [] rows h = refl
record_changes-known now history (c ∷ cs) rows (h, hs) =
    let (previous, e, same) = latest_type-some c.ont_id history c.event_type h in
    record_changes-same now history c cs rows previous e same
    ∙ record_changes-known now history cs rows hs

log-valid :
    (now : ℕ) (c : StatusChange) (cs : List StatusChange) (t : Table)
    → valid_status_changes (c ∷ cs) ≡ true
    → log_status_changes now (c ∷ cs) t
      ≡ some (
          create
            (record_changes now t.rows (c ∷ cs) t.rows).1
            (record t { rows = (record_changes now t.rows (c ∷ cs) t.rows).0 }))
unfolding log_status_changes
log-valid now c cs t h = rw h refl

log-again :
    (now : ℕ) (c : StatusChange) (cs : List StatusChange) (t : Table)
    → valid_status_changes (c ∷ cs) ≡ true
    → All (λ d. latest_type d.ont_id t.rows ≡ some d.event_type) (c ∷ cs)
    → log_status_changes now (c ∷ cs) t ≡ some t
unfolding create
log-again now c cs t h k =
    log-valid now c cs t h
    ∙ ap (λ r. some (create r.1 (record t { rows = r.0 })))
        (record_changes-known now t.rows (c ∷ cs) t.rows k)

-- `LogStatusChanges` of a page that names no ONT twice, on events that are not from the future, either
-- answers with an error and changes nothing, just where a change is of no known type; or afterwards the
-- latest event of every ONT of the page has the type that the page says, and the same page again, at
-- any time, changes nothing.
pub log_status_changes_lem :
    (now later : ℕ) (page : List StatusChange) (t : Table)
    → IsPage page
    → All (IsPast now t.next_id) t.rows
    → ((valid_status_changes page ≡ false) × (log_status_changes now page t ≡ none))
      ⊎ ((after : Table) × (valid_status_changes page ≡ true)
          × (log_status_changes now page t ≡ some after)
          × All (λ c. latest_type c.ont_id after.rows ≡ some c.event_type) page
          × (log_status_changes later page after ≡ some after))
unfolding log_status_changes valid_status_changes
log_status_changes_lem now later [] t p past = inr (t, refl, refl, tt, refl)
log_status_changes_lem now later (c ∷ cs) t p past =
    elim (Bool-cases (valid_status_changes (c ∷ cs))) [
      | inr bad ↦ inl (bad, rw bad refl)
      | inl valid ↦
          let known = page-latest_type now (c ∷ cs) t p past in
          inr (_, valid, log-valid now c cs t valid, known, log-again later c cs _ valid known)
    ]
