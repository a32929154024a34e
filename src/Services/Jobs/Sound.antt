-- ===== src/Services/Jobs/Sound.antt =====
-- backend/internal/services/job_service.go: what an update does to the table.
pub mod Reachable
use tikman.Prelude.{
  ℕ, suc, ◌+◌, ◌≤◌, ◌<◌, ◌≡◌, ◌⊎◌, inl, inr, refl, sym, ap, ◌∙◌, arith, Bool, true, false, ◌&&◌,
  Option, none, some, is_some, List, [], ◌∷◌, ◌++◌, ltb, nat_beq, nat_beq_iff, if◌then◌else◌, All,
  Bool-cases, Option-cases,
}
use mathlib.Core.Path.{subst}
use tikman.Prelude.Bytes.{Bytes}
use tikman.Services.JobState.{
  Status, pending, running, success, failed, rolled_back, partial_rollback, unknown, status_beq,
  is_valid_provisioning_status, is_valid_provisioning_transition, is_provisioning_terminal,
}
use tikman.Services.Jobs.{
  ProvisioningJob, Answer, stored, refused, is_running, running_count, find_job, update_job,
  new_job, create_provisioning_job, updated, update_current, update_status_provisioning,
}

abbrev pub IsFresh : ℕ → List ProvisioningJob → Type 0
IsFresh id jobs = All (λ job. nat_beq job.id id ≡ false) jobs

abbrev pub IsDistinct : List ProvisioningJob → Type 0
IsDistinct [] = Unit
IsDistinct (job ∷ jobs) = IsFresh job.id jobs × IsDistinct jobs

-- A job has the time of its completion where its status is one of those that complete it.
abbrev pub IsStamped : ProvisioningJob → Type 0
IsStamped job = is_some job.completed_at ≡ is_provisioning_terminal job.status

pub record IsSound (jobs : List ProvisioningJob) : Type 0 where
  pub distinct : IsDistinct jobs
  pub single : (ont : ℕ) → running_count ont jobs ≤ 1
  pub stamped : All IsStamped jobs

update_job-fresh :
    (id : ℕ) (f : ProvisioningJob → ProvisioningJob) (jobs : List ProvisioningJob)
    → IsFresh id jobs
    → update_job id f jobs ≡ jobs
unfolding update_job
update_job-fresh id f [] h = refl
update_job-fresh id f (job ∷ jobs) (h, hs) = rw (h, update_job-fresh id f jobs hs) refl

update_job-IsFresh :
    (id k now : ℕ) (to : Status) (message : Option Bytes) (jobs : List ProvisioningJob)
    → IsFresh k jobs
    → IsFresh k (update_job id (updated now to message) jobs)
unfolding update_job updated
update_job-IsFresh id k now to message [] h = tt
update_job-IsFresh id k now to message (job ∷ jobs) (h, hs) =
    elim (Bool-cases (nat_beq job.id id)) [
      | inl e ↦ (rw e h, update_job-IsFresh id k now to message jobs hs)
      | inr e ↦ (rw e h, update_job-IsFresh id k now to message jobs hs)
    ]

pub update_job-IsDistinct :
    (id now : ℕ) (to : Status) (message : Option Bytes) (jobs : List ProvisioningJob)
    → IsDistinct jobs
    → IsDistinct (update_job id (updated now to message) jobs)
unfolding update_job updated
update_job-IsDistinct id now to message [] h = tt
update_job-IsDistinct id now to message (job ∷ jobs) (h, hs) =
    elim (Bool-cases (nat_beq job.id id)) [
      | inl e ↦ rw e (
        update_job-IsFresh id job.id now to message jobs h,
        update_job-IsDistinct id now to message jobs hs,
      )
      | inr e ↦ rw e (
        update_job-IsFresh id job.id now to message jobs h,
        update_job-IsDistinct id now to message jobs hs,
      )
    ]

pub update_job-head :
    (id : ℕ) (f : ProvisioningJob → ProvisioningJob) (j : ProvisioningJob)
    (jobs : List ProvisioningJob)
    → nat_beq j.id id ≡ true
    → IsFresh j.id jobs
    → update_job id f (j ∷ jobs) ≡ f j ∷ jobs
unfolding update_job
update_job-head id f j jobs e h =
    rw (e, update_job-fresh id f jobs (subst (λ k. IsFresh k jobs) ((nat_beq_iff j.id id).0 e) h))
      refl

pub update_job-tail :
    (id : ℕ) (f : ProvisioningJob → ProvisioningJob) (j : ProvisioningJob)
    (jobs : List ProvisioningJob)
    → nat_beq j.id id ≡ false
    → update_job id f (j ∷ jobs) ≡ j ∷ update_job id f jobs
unfolding update_job
update_job-tail id f j jobs e = rw e refl

abbrev pub one_if : Bool → ℕ
one_if b = if b then 1 else 0

pub count-cons :
    (ont : ℕ) (j : ProvisioningJob) (jobs : List ProvisioningJob)
    → running_count ont (j ∷ jobs) ≡ running_count ont jobs + one_if (is_running ont j)
unfolding running_count
count-cons ont j jobs = elim (Bool-cases (is_running ont j)) [
  | inl e ↦ rw e refl
  | inr e ↦ rw e (omega arith)
]

pub find_job-head :
    (id : ℕ) (j job : ProvisioningJob) (jobs : List ProvisioningJob)
    → nat_beq j.id id ≡ true
    → find_job id (j ∷ jobs) ≡ some job
    → j ≡ job
unfolding find_job
find_job-head id j job jobs e h = ground (arith, e, h)

pub find_job-tail :
    (id : ℕ) (j job : ProvisioningJob) (jobs : List ProvisioningJob)
    → nat_beq j.id id ≡ false
    → find_job id (j ∷ jobs) ≡ some job
    → find_job id jobs ≡ some job
unfolding find_job
find_job-tail id j job jobs e h = ground (arith, e, h)

-- Whether a row becomes the running one of an ONT.
abbrev pub starts : ℕ → Status → ProvisioningJob → Bool
starts ont to job = nat_beq job.ont_id ont && status_beq to running

count-head :
    (now ont : ℕ) (to : Status) (message : Option Bytes) (j : ProvisioningJob)
    (jobs : List ProvisioningJob)
    → running_count ont (updated now to message j ∷ jobs)
      ≤ running_count ont (j ∷ jobs) + one_if (starts ont to j)
unfolding updated
count-head now ont to message j jobs =
    let before = count-cons ont j jobs in
    let behind = count-cons ont (updated now to message j) jobs in rw (before, behind) (omega arith)

-- A row that is updated counts once more at most, and only for its own ONT and as running.
pub count-update_job :
    (id now ont : ℕ) (to : Status) (message : Option Bytes) (jobs : List ProvisioningJob)
    (job : ProvisioningJob)
    → IsDistinct jobs
    → find_job id jobs ≡ some job
    → running_count ont (update_job id (updated now to message) jobs)
      ≤ running_count ont jobs + one_if (starts ont to job)
unfolding find_job
count-update_job id now ont to message [] job d e = ground arith
count-update_job id now ont to message (j ∷ jobs) job (h, d) e =
    elim (Bool-cases (nat_beq j.id id)) [
      | inl f ↦ rw (update_job-head id (updated now to message) j jobs f h) (
          subst
            (λ k.
              running_count ont (updated now to message j ∷ jobs)
              ≤ running_count ont (j ∷ jobs) + one_if (starts ont to k))
            (find_job-head id j job jobs f e) (count-head now ont to message j jobs))
      | inr f ↦
          let rest =
            count-update_job id now ont to message jobs job d (find_job-tail id j job jobs f e) in
          rw (update_job-tail id (updated now to message) j jobs f) (
            omega (
              arith,
              count-cons ont j jobs,
              count-cons ont j (update_job id (updated now to message) jobs),
              rest,
            ))
    ]
