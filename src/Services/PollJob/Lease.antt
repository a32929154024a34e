-- ===== src/Services/PollJob/Lease.antt =====
-- backend/internal/services/poll_job_service.go: the rows of a job that a worker holds.
pub mod Exclusive
use tikman.Prelude.{
  ℕ, ◌+◌, ◌-◌, ◌*◌, ◌≤◌, ◌<◌, ◌≡◌, ◌≢◌, ◌⊎◌, refl, sym, arith, Bool, true, false, ◌&&◌, ◌||◌, ap,
  Option, none, some, List, [], ◌∷◌, ◌++◌, map, ltb, leb, nat_beq, nat_beq_iff, if◌then◌else◌, All,
  is_some, ◌∙◌, Bool-cases, Option-cases, inl, inr,
}
use mathlib.Core.Path.{subst}
use tikman.Prelude.Bytes.{Bytes}
use tikman.Prelude.Sort.{In, All-In}
use tikman.Services.PollJob.{
  PollKind, PollJob, kind_beq, is_row, is_candidate, claimable, most_overdue, earlier, lock, claim,
  update_rows, lease_for, interval_for, status, metrics, discovery, complete, completed, fail,
  failed, defer, deferred, run_now, RunNow, scheduled, not_found, job_running, first_or_create,
  ensure_jobs, ensure_kinds, find_row, new_job, is_running, all_poll_kinds,
}
use tikman.Services.PollJob.Ensure.{first_or_create-held, kind_beq_iff}
use tikman.Services.PollJob.Claim.{claim_lem, IsMostOverdue}

pub is_row_trans :
    (olt : ℕ) (kind : PollKind) (job row : PollJob)
    → is_row job.olt_id job.kind row ≡ true
    → is_row olt kind row ≡ is_row olt kind job
is_row_trans olt kind job row h =
    ground (arith, kind_beq_iff row.kind job.kind, nat_beq_iff row.olt_id job.olt_id)

-- The table has a row of the key, and every row of the key is locked since `at`.
pub record IsHeld (olt : ℕ) (kind : PollKind) (at : ℕ) (jobs : List PollJob) : Type 0 where
  pub present : is_some (find_row olt kind jobs) ≡ true
  pub locked : All (λ row. (is_row olt kind row ≡ false) ⊎ (row.locked_at ≡ some at)) jobs

held-claimable :
    (olt at now : ℕ) (kind : PollKind) (row : PollJob)
    → now ≤ at + lease_for kind
    → is_row olt kind row ≡ true
    → row.locked_at ≡ some at
    → claimable now row ≡ false
unfolding claimable
held-claimable olt at now kind row le r e =
    rw (e, claimable) (ground (arith, kind_beq_iff row.kind kind))

find_row-some :
    (olt : ℕ) (kind : PollKind) (job : PollJob) (jobs : List PollJob)
    → is_some (find_row olt kind (job ∷ jobs))
      ≡ (is_row olt kind job || is_some (find_row olt kind jobs))
unfolding find_row
find_row-some olt kind job jobs = elim (Bool-cases (is_row olt kind job)) [
  | inl e ↦ rw e refl
  | inr e ↦ rw e refl
]

changed_row :
    (olt : ℕ) (kind : PollKind) (f : PollJob → PollJob) (b : Bool) (job : PollJob)
    → ((row : PollJob) → is_row olt kind (f row) ≡ is_row olt kind row)
    → is_row olt kind (if b then f job else job) ≡ is_row olt kind job
changed_row olt kind f true job same = same job
changed_row olt kind f false job same = refl

find_row-none : (olt : ℕ) (kind : PollKind) → find_row olt kind [] ≡ none
unfolding find_row
find_row-none olt kind = refl

-- An update that keeps the keys loses no row.
find-update_rows :
    (olt o : ℕ) (kind k : PollKind) (f : PollJob → PollJob) (jobs : List PollJob)
    → ((row : PollJob) → is_row olt kind (f row) ≡ is_row olt kind row)
    → is_some (find_row olt kind (update_rows o k f jobs)) ≡ is_some (find_row olt kind jobs)
unfolding update_rows
find-update_rows olt o kind k f [] same = refl
find-update_rows olt o kind k f (job ∷ jobs) same =
    find_row-some olt kind (if is_row o k job then f job else job) (update_rows o k f jobs)
    ∙ ap (λ b. b || is_some (find_row olt kind (update_rows o k f jobs)))
        (changed_row olt kind f (is_row o k job) job same)
    ∙ ap (λ b. is_row olt kind job || b) (find-update_rows olt o kind k f jobs same)
    ∙ sym (find_row-some olt kind job jobs)

pub update_rows-All :
    (P : PollJob → Type 0) (o : ℕ) (k : PollKind) (f : PollJob → PollJob) (jobs : List PollJob)
    → ((row : PollJob) → is_row o k row ≡ true → P row → P (f row))
    → All P jobs
    → All P (update_rows o k f jobs)
unfolding update_rows
update_rows-All P o k f [] keep h = tt
update_rows-All P o k f (job ∷ jobs) keep h = elim (Bool-cases (is_row o k job)) [
  | inl e ↦ (rw e (keep job e h.0), update_rows-All P o k f jobs keep h.1)
  | inr e ↦ (rw e h.0, update_rows-All P o k f jobs keep h.1)
]

-- An update of the rows of another key.
pub other-IsHeld :
    (olt at : ℕ) (kind : PollKind) (job : PollJob) (f : PollJob → PollJob) (jobs : List PollJob)
    → ((row : PollJob) → is_row olt kind (f row) ≡ is_row olt kind row)
    → is_row olt kind job ≡ false
    → IsHeld olt kind at jobs
    → IsHeld olt kind at (update_rows job.olt_id job.kind f jobs)
other-IsHeld olt at kind job f jobs same other h = record {
  present = find-update_rows olt job.olt_id kind job.kind f jobs same ∙ h.present;
  locked =
      update_rows-All (λ row. (is_row olt kind row ≡ false) ⊎ (row.locked_at ≡ some at)) job.olt_id
        job.kind f jobs (λ row r p. inl (same row ∙ is_row_trans olt kind job row r ∙ other))
        h.locked;
}

-- A candidate is of another key.
pub held-other :
    (olt at now : ℕ) (kind : PollKind) (job : PollJob) (jobs : List PollJob)
    → now ≤ at + lease_for kind
    → IsHeld olt kind at jobs
    → IsMostOverdue now jobs job
    → is_row olt kind job ≡ false
held-other olt at now kind job jobs le h m = elim (Bool-cases (is_row olt kind job)) [
  | inr e ↦ e
  | inl e ↦
      elim (All-In (λ row. (is_row olt kind row ≡ false) ⊎ (row.locked_at ≡ some at)) job jobs
        h.locked m.member) [
          | inl n ↦ n
          | inr l ↦ ground (arith, held-claimable olt at now kind job le e l, m.candidate)
        ]
]

pub claim-IsHeld :
    (olt at worker now : ℕ) (kind : PollKind) (jobs : List PollJob)
    → now ≤ at + lease_for kind
    → IsHeld olt kind at jobs
    → IsHeld olt kind at (claim worker now jobs).1
claim-IsHeld olt at worker now kind jobs le h = elim (claim_lem worker now jobs) [
  | inl (e, n) ↦ rw e h
  | inr (job, e, m) ↦ rw e (
      other-IsHeld olt at kind job (lock worker now) jobs (λ row. refl)
        (held-other olt at now kind job jobs le h m) h)
]

All-append : {A : Type 0} (P : A → Type 0) (xs ys : List A) → All P xs → All P ys → All P (xs ++ ys)
All-append P [] ys h k = k
All-append P (x ∷ xs) ys h k = (h.0, All-append P xs ys h.1 k)

append-some :
    (olt : ℕ) (kind : PollKind) (jobs more : List PollJob)
    → is_some (find_row olt kind jobs) ≡ true
    → is_some (find_row olt kind (jobs ++ more)) ≡ true
append-some olt kind [] more h = ground (arith, find_row-none olt kind)
append-some olt kind (j ∷ jobs) more h = ground (
  arith,
  find_row-some olt kind j jobs,
  find_row-some olt kind j (jobs ++ more),
  append-some olt kind jobs more,
)

new-other :
    (olt at now o : ℕ) (kind k : PollKind) (jobs : List PollJob)
    → IsHeld olt kind at jobs
    → find_row o k jobs ≡ none
    → is_row olt kind (new_job now o k) ≡ false
new-other olt at now o kind k jobs h n = elim (Bool-cases (is_row olt kind (new_job now o k))) [
  | inr e ↦ e
  | inl e ↦ ground (arith, kind_beq_iff k kind, nat_beq_iff o olt, n, h.present)
]

pub first_or_create-IsHeld :
    (olt at now o : ℕ) (kind k : PollKind) (jobs : List PollJob)
    → IsHeld olt kind at jobs
    → IsHeld olt kind at (first_or_create now o k jobs)
first_or_create-IsHeld olt at now o kind k jobs h = elim (first_or_create-held now o k jobs) [
  | inl e ↦ rw e h
  | inr (n, e) ↦ rw e (record {
    present = append-some olt kind jobs (new_job now o k ∷ []) h.present;
    locked =
        All-append _ jobs (new_job now o k ∷ []) h.locked
          (inl (new-other olt at now o kind k jobs h n), tt);
  })
]

ensure_kinds-IsHeld :
    (olt at now o : ℕ) (kind : PollKind) (kinds : List PollKind) (jobs : List PollJob)
    → IsHeld olt kind at jobs
    → IsHeld olt kind at (ensure_kinds now o kinds jobs)
unfolding ensure_kinds
ensure_kinds-IsHeld olt at now o kind [] jobs h = h
ensure_kinds-IsHeld olt at now o kind (k ∷ kinds) jobs h =
    ensure_kinds-IsHeld olt at now o kind kinds (first_or_create now o k jobs)
      (first_or_create-IsHeld olt at now o kind k jobs h)

pub ensure_jobs-IsHeld :
    (olt at now : ℕ) (kind : PollKind) (olts : List ℕ) (jobs : List PollJob)
    → IsHeld olt kind at jobs
    → IsHeld olt kind at (ensure_jobs now olts jobs)
unfolding ensure_jobs
ensure_jobs-IsHeld olt at now kind [] jobs h = h
ensure_jobs-IsHeld olt at now kind (o ∷ olts) jobs h =
    ensure_jobs-IsHeld olt at now kind olts (ensure_kinds now o all_poll_kinds jobs)
      (ensure_kinds-IsHeld olt at now o kind all_poll_kinds jobs h)

-- The table after a call of `RunNow`.
unfoldable pub after_run_now : List PollJob → RunNow → List PollJob
after_run_now jobs (scheduled more) = more
after_run_now jobs not_found = jobs
after_run_now jobs job_running = jobs

pub run_now-IsHeld :
    (olt at now o : ℕ) (kind k : PollKind) (jobs : List PollJob)
    → IsHeld olt kind at jobs
    → IsHeld olt kind at (after_run_now jobs (run_now now o k jobs))
unfolding run_now after_run_now
run_now-IsHeld olt at now o kind k jobs h = elim (Option-cases (find_row o k jobs)) [
  | inl e ↦ rw (e, run_now) h
  | inr (job, e) ↦ elim (Bool-cases (is_running now k job)) [
    | inl r ↦ rw (e, run_now) (rw r h)
    | inr r ↦
        rw (e, run_now)
          (rw r (record {
            present =
                find-update_rows olt o kind k (λ row. record row { due_at = now }) jobs
                  (λ row. refl)
                ∙ h.present;
            locked =
                update_rows-All (λ row. (is_row olt kind row ≡ false) ⊎ (row.locked_at ≡ some at)) o
                  k (λ row. record row { due_at = now }) jobs (λ row n p. p) h.locked;
          }))
  ]
]
