-- ===== src/Services/PollJob/Progress.antt =====
-- backend/internal/services/poll_job_service.go: a job that is due and free is handed out.
pub mod Served
use tikman.Prelude.{
  ℕ, suc, ◌+◌, ◌-◌, ◌*◌, ◌≤◌, ◌<◌, ◌≡◌, ◌⊎◌, refl, sym, arith, Bool, true, false, not, ◌&&◌, Option,
  none, some, List, [], ◌∷◌, ◌++◌, ltb, leb, if◌then◌else◌, inl, inr, Bool-cases, Option-cases,
}
use mathlib.Core.Path.{subst}
use tikman.Prelude.Sort.{In}
use tikman.Services.PollJob.{
  PollKind, PollJob, is_row, update_rows, is_candidate, claimable, lease_for, status, metrics,
  discovery, minute,
}

-- Locked since a time or later.
abbrev pub is_fresh : ℕ → PollJob → Bool
is_fresh since row = elim row.locked_at [ none ↦ false | some at ↦ leb since at ]

-- A row that may be claimed before one that is due at `due`.
abbrev pub is_ahead : ℕ → ℕ → PollJob → Bool
is_ahead due since row = leb row.due_at due && not (is_fresh since row)

unfoldable pub ahead : ℕ → ℕ → List PollJob → ℕ
ahead due since [] = 0
ahead due since (row ∷ jobs) = (if is_ahead due since row then 1 else 0) + ahead due since jobs

pub In-ahead :
    (due since : ℕ) (job : PollJob) (jobs : List PollJob)
    → In job jobs
    → is_ahead due since job ≡ true
    → 1 ≤ ahead due since jobs
unfolding ahead
In-ahead due since job [] i h = elim i [ ]
In-ahead due since job (j ∷ jobs) (inl e) h =
    subst (λ x. 1 ≤ (if is_ahead due since x then 1 else 0) + ahead due since jobs) (sym e)
      (rw h (omega arith))
In-ahead due since job (j ∷ jobs) (inr i) h = omega (arith, In-ahead due since job jobs i h)

pub ahead-append :
    (due since : ℕ) (jobs more : List PollJob)
    → ahead due since (jobs ++ more) ≡ ahead due since jobs + ahead due since more
unfolding ahead
ahead-append due since [] more = omega arith
ahead-append due since (j ∷ jobs) more = omega (arith, ahead-append due since jobs more)

pub In-append : (job : PollJob) (jobs more : List PollJob) → In job jobs → In job (jobs ++ more)
In-append job [] more i = elim i [ ]
In-append job (j ∷ jobs) more (inl e) = inl e
In-append job (j ∷ jobs) more (inr i) = inr (In-append job jobs more i)

-- An update of a key by which no row stays ahead.
module _ (due since olt : ℕ) (kind : PollKind) (f : PollJob → PollJob)
    (behind : (row : PollJob) → is_ahead due since (f row) ≡ false) where
  pub ahead-update_rows :
      (jobs : List PollJob) → ahead due since (update_rows olt kind f jobs) ≤ ahead due since jobs
  unfolding ahead update_rows
  ahead-update_rows [] = omega arith
  ahead-update_rows (j ∷ jobs) = elim (Bool-cases (is_row olt kind j)) [
    | inl e ↦ rw (e, behind j) (omega (arith, ahead-update_rows jobs))
    | inr e ↦ rw e (omega (arith, ahead-update_rows jobs))
  ]

  pub ahead-update_rows_less :
      (job : PollJob) (jobs : List PollJob)
      → In job jobs
      → is_row olt kind job ≡ true
      → is_ahead due since job ≡ true
      → suc (ahead due since (update_rows olt kind f jobs)) ≤ ahead due since jobs
  unfolding ahead update_rows
  ahead-update_rows_less job [] i r h = elim i [ ]
  ahead-update_rows_less job (j ∷ jobs) (inl e) r h =
      subst
        (λ x.
          suc (
            (if is_ahead due since (if is_row olt kind x then f x else x) then 1 else 0)
            + ahead due since (update_rows olt kind f jobs))
          ≤ (if is_ahead due since x then 1 else 0) + ahead due since jobs)
        (sym e) (rw (r, h, behind job) (omega (arith, ahead-update_rows jobs)))
  ahead-update_rows_less job (j ∷ jobs) (inr i) r h = elim (Bool-cases (is_row olt kind j)) [
    | inl e ↦ rw (e, behind j) (omega (arith, ahead-update_rows_less job jobs i r h))
    | inr e ↦ rw e (omega (arith, ahead-update_rows_less job jobs i r h))
  ]

-- The rows of other keys stay.
pub In-update_rows :
    (olt : ℕ) (kind : PollKind) (f : PollJob → PollJob) (job : PollJob) (jobs : List PollJob)
    → In job jobs
    → is_row olt kind job ≡ false
    → In job (update_rows olt kind f jobs)
unfolding update_rows
In-update_rows olt kind f job [] i r = elim i [ ]
In-update_rows olt kind f job (j ∷ jobs) (inl e) r =
    subst (λ x. In job ((if is_row olt kind x then f x else x) ∷ update_rows olt kind f jobs))
      (sym e) (rw r (inl refl))
In-update_rows olt kind f job (j ∷ jobs) (inr i) r = inr (In-update_rows olt kind f job jobs i r)

shortest_lease : (kind : PollKind) → 2 * minute ≤ lease_for kind
unfolding lease_for
shortest_lease status = ground arith
shortest_lease metrics = ground arith
shortest_lease discovery = ground arith

-- A candidate has no fresh lock within the shortest lease.
pub candidate-is_ahead :
    (due since now : ℕ) (job : PollJob)
    → now ≤ since + 2 * minute
    → job.due_at ≤ due
    → is_candidate now job ≡ true
    → is_ahead due since job ≡ true
unfolding claimable
candidate-is_ahead due since now job le d h = elim (Option-cases job.locked_at) [
  | inl e ↦ rw e (ground arith)
  | inr (at, e) ↦
      let before : at < now - lease_for job.kind = ground (arith, h, e) in
      rw e (ground (arith, shortest_lease job.kind, before))
]

pub candidate_later :
    (now later : ℕ) (job : PollJob)
    → now ≤ later
    → is_candidate now job ≡ true
    → is_candidate later job ≡ true
unfolding claimable
candidate_later now later job le h = elim (Option-cases job.locked_at) [
  | inl e ↦ rw e (ground (arith, h, e))
  | inr (at, e) ↦ rw e (ground (arith, h, e))
]
