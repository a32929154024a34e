-- ===== src/Services/PollJob/Release.antt =====
-- backend/internal/services/poll_job_service.go: how long a job that was released is left alone.
use tikman.Prelude.{
  ℕ, zero, suc, ◌+◌, ◌-◌, ◌*◌, ◌^◌, ◌≤◌, ◌<◌, ◌≡◌, ◌⊎◌, refl, arith, false, ap, none, List, [], ◌∷◌,
  All, inl, inr, ltb, if◌then◌else◌, Bool-cases, max,
}
use mathlib.Core.Path.{subst}
use tikman.Prelude.Bytes.{Bytes}
use tikman.Prelude.Sort.{All-In}
use tikman.Services.PollJob.{
  PollKind, PollJob, status, metrics, discovery, is_row, claim, update_rows, max_backoff_shift,
  interval_for, spacing_for, backoff, complete, completed, fail, failed, defer, deferred,
}
use tikman.Services.PollJob.Lease.Exclusive.{IsOther}
use tikman.Services.PollJob.Claim.{claim_lem, IsMostOverdue}

abbrev pub factor : ℕ → ℕ
factor n = 2 ^ (if ltb 5 n then 5 else n)

factor-between : (n : ℕ) → (1 ≤ factor n) × (factor n ≤ 32)
factor-between zero = ground arith
factor-between (suc zero) = ground arith
factor-between (suc (suc zero)) = ground arith
factor-between (suc (suc (suc zero))) = ground arith
factor-between (suc (suc (suc (suc zero)))) = ground arith
factor-between (suc (suc (suc (suc (suc zero))))) = ground arith
factor-between (suc (suc (suc (suc (suc (suc n)))))) = ground arith

factor-suc : (n : ℕ) → factor (suc n) ≡ (if ltb n 5 then 2 * factor n else factor n)
factor-suc zero = ground arith
factor-suc (suc zero) = ground arith
factor-suc (suc (suc zero)) = ground arith
factor-suc (suc (suc (suc zero))) = ground arith
factor-suc (suc (suc (suc (suc zero)))) = ground arith
factor-suc (suc (suc (suc (suc (suc zero))))) = ground arith
factor-suc (suc (suc (suc (suc (suc (suc n)))))) = ground arith

backoff-factor : (kind : PollKind) (n : ℕ) → backoff kind (suc n) ≡ interval_for kind * factor n
unfolding backoff
backoff-factor kind n =
    let e : suc n - 1 ≡ n = omega arith in ap (λ m. interval_for kind * factor m) e

-- The wait after the first failure is the tier's interval; each further failure doubles it, up to the
-- sixth, and the wait after any number of failures lies between one and 32 intervals.
pub backoff_lem :
    (kind : PollKind) (n : ℕ)
    → (backoff kind 1 ≡ interval_for kind)
      × (backoff kind (suc (suc n))
          ≡ (if ltb n max_backoff_shift then 2 * backoff kind (suc n) else backoff kind (suc n)))
      × (interval_for kind ≤ backoff kind (suc n))
      × (backoff kind (suc n) ≤ 32 * interval_for kind)
unfolding backoff interval_for
backoff_lem status n =
    ground (
      arith,
      backoff-factor status n,
      backoff-factor status (suc n),
      factor-suc n,
      factor-between n,
    )
backoff_lem metrics n = ground (
  arith,
  backoff-factor metrics n,
  backoff-factor metrics (suc n),
  factor-suc n,
  factor-between n,
)
backoff_lem discovery n = ground (
  arith,
  backoff-factor discovery n,
  backoff-factor discovery (suc n),
  factor-suc n,
  factor-between n,
)

interval-le-backoff : (kind : PollKind) (n : ℕ) → interval_for kind ≤ backoff kind (n + 1)
interval-le-backoff kind n =
    let e : suc n ≡ n + 1 = omega arith in
    subst (λ m. interval_for kind ≤ backoff kind m) e ((backoff_lem kind n).2)

-- A time before which no claim hands out a job of the key.
abbrev pub IsQuiet : ℕ → PollKind → ℕ → List PollJob → Type 0
IsQuiet olt kind until jobs =
    All
      (λ row.
        (is_row olt kind row ≡ false)
        ⊎ ((row.locked_at ≡ none) × (row.locked_by ≡ none) × (until ≤ row.due_at)))
      jobs

released :
    (olt until : ℕ) (kind : PollKind) (f : PollJob → PollJob) (jobs : List PollJob)
    → ((row : PollJob)
        → ((f row).locked_at ≡ none) × ((f row).locked_by ≡ none) × (until ≤ (f row).due_at))
    → IsQuiet olt kind until (update_rows olt kind f jobs)
unfolding update_rows
released olt until kind f [] free = tt
released olt until kind f (row ∷ jobs) free = elim (Bool-cases (is_row olt kind row)) [
  | inl e ↦ (rw e (inr (free row)), released olt until kind f jobs free)
  | inr e ↦ (inl (rw e e), released olt until kind f jobs free)
]

quiet-other :
    (olt until now : ℕ) (kind : PollKind) (job : PollJob) (jobs : List PollJob)
    → now < until
    → IsQuiet olt kind until jobs
    → IsMostOverdue now jobs job
    → is_row olt kind job ≡ false
quiet-other olt until now kind job jobs lt q m =
    elim (All-In
      (λ row.
        (is_row olt kind row ≡ false)
        ⊎ ((row.locked_at ≡ none) × (row.locked_by ≡ none) × (until ≤ row.due_at)))
      job jobs q m.member) [ inl n ↦ n | inr (a, b, le) ↦ ground (arith, m.candidate) ]

claim-quiet :
    (worker olt until now : ℕ) (kind : PollKind) (jobs : List PollJob)
    → now < until
    → IsQuiet olt kind until jobs
    → IsOther olt kind (claim worker now jobs).0
claim-quiet worker olt until now kind jobs lt q = elim (claim_lem worker now jobs) [
  | inl (e, n) ↦ rw e tt
  | inr (job, e, m) ↦ rw e (quiet-other olt until now kind job jobs lt q m)
]

spacing_for-max :
    (kind : PollKind) (took : ℕ) → spacing_for kind took ≡ max (interval_for kind) (2 * took)
unfolding spacing_for
spacing_for-max kind took = ground arith

-- The key is unlocked and due at `until` or later, and a claim at `later` does not hand it out.
abbrev pub IsReleased : ℕ → PollKind → ℕ → ℕ → ℕ → List PollJob → Type 0
IsReleased olt kind until worker later jobs =
    IsQuiet olt kind until jobs × IsOther olt kind (claim worker later jobs).0

update-IsReleased :
    (olt until worker later : ℕ) (kind : PollKind) (f : PollJob → PollJob) (jobs : List PollJob)
    → later < until
    → ((row : PollJob)
        → ((f row).locked_at ≡ none) × ((f row).locked_by ≡ none) × (until ≤ (f row).due_at))
    → IsReleased olt kind until worker later (update_rows olt kind f jobs)
update-IsReleased olt until worker later kind f jobs h free =
    let quiet = released olt until kind f jobs free in
    (quiet, claim-quiet worker olt until later kind (update_rows olt kind f jobs) h quiet)

-- Completing, failing and deferring a job each unlock it; a claim before its tier's interval is over
-- does not hand it out again, and after a completion none before twice the time that the run took.
pub release-IsReleased :
    (now took : ℕ) (cause : Bytes) (job : PollJob) (jobs : List PollJob) (worker later rested : ℕ)
    → later < now + interval_for job.kind
    → rested < now + max (interval_for job.kind) (2 * took)
    → IsReleased job.olt_id job.kind
        (now + max (interval_for job.kind) (2 * took))
        worker
        rested
        (complete now took job jobs)
      × IsReleased job.olt_id job.kind
          (now + interval_for job.kind)
          worker
          later
          (fail now cause job jobs)
      × IsReleased job.olt_id job.kind
          (now + interval_for job.kind)
          worker
          later
          (defer now job jobs)
unfolding complete completed fail failed defer deferred
release-IsReleased now took cause job jobs worker later rested h k = (
  update-IsReleased job.olt_id _ worker rested job.kind (completed now took job) jobs k
      (λ row. (refl, refl, ground (arith, spacing_for-max job.kind took))),
  update-IsReleased job.olt_id _ worker later job.kind (failed now cause job) jobs h
      (λ row. (refl, refl, ground (arith, interval-le-backoff job.kind job.consecutive_failures))),
  update-IsReleased job.olt_id _ worker later job.kind (deferred now job) jobs h
      (λ row. (refl, refl, omega arith)),
)
