-- ===== src/Services/PollJob/Claim.antt =====
-- backend/internal/services/poll_job_service.go: which job `Claim` takes, and that nobody else takes it
-- while the lease lasts.
use tikman.Prelude.{
  ℕ, ◌≤◌, ◌≡◌, ◌⊎◌, refl, arith, Bool, true, false, Option, none, some, List, [], ◌∷◌, leb,
  if◌then◌else◌, All, Bool-cases, Option-cases, inl, inr,
}
use mathlib.Core.Path.{subst}
use tikman.Prelude.Sort.{In}
use tikman.Services.PollJob.{PollJob, is_candidate, most_overdue, earlier, lock, claim, update_rows}

-- The job is a candidate of the table and no candidate is due before it.
pub record IsMostOverdue (now : ℕ) (jobs : List PollJob) (job : PollJob) : Type 0 where
  pub member : In job jobs
  pub candidate : is_candidate now job ≡ true
  pub first : All (λ j. (is_candidate now j ≡ false) ⊎ (job.due_at ≤ j.due_at)) jobs

All-weaken :
    {A : Type 0} (P Q : A → Type 0) (l : List A) → ((a : A) → P a → Q a) → All P l → All Q l
All-weaken P Q [] f h = tt
All-weaken P Q (x ∷ xs) f h = (f x h.0, All-weaken P Q xs f h.1)

-- What the query gives: a job of the table, or none where the table has no candidate.
Found : ℕ → List PollJob → Option PollJob → Type 0
Found now jobs none = All (λ j. is_candidate now j ≡ false) jobs
Found now jobs (some job) = IsMostOverdue now jobs job

add-Found :
    (now : ℕ) (job : PollJob) (jobs : List PollJob) (o : Option PollJob) (b : Bool)
    → is_candidate now job ≡ b
    → Found now jobs o
    → Found now (job ∷ jobs) (if b then some (earlier job o) else o)
unfolding Found
add-Found now job jobs none false e h = (e, h)
add-Found now job jobs (some j) false e h = record {
  member = inr h.member;
  candidate = h.candidate;
  first = (inl e, h.first);
}
add-Found now job jobs none true e h = record {
  member = inl refl;
  candidate = e;
  first = (inr (omega arith), All-weaken _ _ jobs (λ j n. inl n) h);
}
add-Found now job jobs (some j) true e h = elim (Bool-cases (leb job.due_at j.due_at)) [
  | inl le ↦ rw le (record {
    member = inl refl;
    candidate = e;
    first = (
      inr (omega arith),
      All-weaken (λ k. (is_candidate now k ≡ false) ⊎ (j.due_at ≤ k.due_at))
          (λ k. (is_candidate now k ≡ false) ⊎ (job.due_at ≤ k.due_at)) jobs
          (λ k c. elim c [ inl n ↦ inl n | inr l ↦ inr (ground arith) ]) h.first,
    );
  })
  | inr gt ↦ rw gt (record {
    member = inr h.member;
    candidate = h.candidate;
    first = (inr (ground arith), h.first);
  })
]

most_overdue-Found : (now : ℕ) (jobs : List PollJob) → Found now jobs (most_overdue now jobs)
unfolding most_overdue Found
most_overdue-Found now [] = tt
most_overdue-Found now (job ∷ jobs) =
    add-Found now job jobs (most_overdue now jobs) (is_candidate now job) refl
      (most_overdue-Found now jobs)

-- `Claim` answers with no job only where no job is due and free. A job that it answers with stood in
-- the table, was due and free, and no other due and free job was due before it; the answer is that
-- row with the worker's lock, which is on all the rows of its key, and other rows stay.
pub claim_lem :
    (worker now : ℕ) (jobs : List PollJob)
    → ((claim worker now jobs ≡ (none, jobs)) × All (λ j. is_candidate now j ≡ false) jobs)
      ⊎ ((job : PollJob) × (claim worker now jobs
            ≡ (some (lock worker now job), update_rows job.olt_id job.kind (lock worker now) jobs))
          × IsMostOverdue now jobs job)
unfolding claim Found
claim_lem worker now jobs = elim (Option-cases (most_overdue now jobs)) [
  | inl e ↦ inl (rw (e, claim) refl, subst (Found now jobs) e (most_overdue-Found now jobs))
  | inr (job, e) ↦
      inr (job, rw (e, claim) refl, subst (Found now jobs) e (most_overdue-Found now jobs))
]
