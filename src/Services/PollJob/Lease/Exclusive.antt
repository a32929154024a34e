-- ===== src/Services/PollJob/Lease/Exclusive.antt =====
-- backend/internal/services/poll_job_service.go: the calls of all workers, in the order of their
-- transactions.
use tikman.Prelude.{
  some-inj, ℕ, ◌+◌, ◌≤◌, ◌≡◌, refl, sym, arith, true, false, ◌∙◌, ap, Option, none, some, is_some,
  List, [], ◌∷◌, All, inl, inr, ◌⊎◌, Bool-cases, nat_beq_iff,
}
use mathlib.Core.Path.{subst}
use tikman.Prelude.Bytes.{Bytes}
use tikman.Prelude.Sort.{In}
use tikman.Services.PollJob.{
  PollKind, PollJob, is_row, lock, claim, update_rows, lease_for, complete, completed, fail, failed,
  defer, deferred, run_now, ensure_jobs, find_row,
}
use tikman.Services.PollJob.Ensure.{kind_beq_refl}
use tikman.Services.PollJob.Claim.{claim_lem}
use tikman.Services.PollJob.Lease.{
  IsHeld, other-IsHeld, held-other, claim-IsHeld, ensure_jobs-IsHeld, run_now-IsHeld, after_run_now,
  find_row-some, find-update_rows,
}

-- A call of the service, with its time.
pub data Call : Type 0 where
  claims : (worker now : ℕ) → Call
  ensures : (now : ℕ) (olts : List ℕ) → Call
  runs : (now olt : ℕ) → PollKind → Call
  completes : (now took : ℕ) (job : PollJob) → Call
  fails : (now : ℕ) (cause : Bytes) (job : PollJob) → Call
  defers : (now : ℕ) (job : PollJob) → Call

unfoldable pub after_call : Call → List PollJob → List PollJob
after_call (claims worker now) jobs = (claim worker now jobs).1
after_call (ensures now olts) jobs = ensure_jobs now olts jobs
after_call (runs now olt kind) jobs = after_run_now jobs (run_now now olt kind jobs)
after_call (completes now took job) jobs = complete now took job jobs
after_call (fails now cause job) jobs = fail now cause job jobs
after_call (defers now job) jobs = defer now job jobs

-- A claim within the lease, and a release only of other keys.
abbrev pub IsWithinLease : ℕ → PollKind → ℕ → Call → Type 0
IsWithinLease olt kind at (claims worker now) = now ≤ at + lease_for kind
IsWithinLease olt kind at (ensures now olts) = Unit
IsWithinLease olt kind at (runs now o k) = Unit
IsWithinLease olt kind at (completes now took job) = is_row olt kind job ≡ false
IsWithinLease olt kind at (fails now cause job) = is_row olt kind job ≡ false
IsWithinLease olt kind at (defers now job) = is_row olt kind job ≡ false

-- The jobs that the claims among the calls answer with.
unfoldable pub handed_out : List Call → List PollJob → List (Option PollJob)
handed_out [] jobs = []
handed_out (claims worker now ∷ calls) jobs =
    (claim worker now jobs).0 ∷ handed_out calls (claim worker now jobs).1
handed_out (call ∷ calls) jobs = handed_out calls (after_call call jobs)

-- No job of the key.
abbrev pub IsOther : ℕ → PollKind → Option PollJob → Type 0
IsOther olt kind none = Unit
IsOther olt kind (some job) = is_row olt kind job ≡ false

after_call-IsHeld :
    (olt at : ℕ) (kind : PollKind) (call : Call) (jobs : List PollJob)
    → IsWithinLease olt kind at call
    → IsHeld olt kind at jobs
    → IsHeld olt kind at (after_call call jobs)
unfolding after_call complete completed fail failed defer deferred
after_call-IsHeld olt at kind (claims worker now) jobs w h =
    claim-IsHeld olt at worker now kind jobs w h
after_call-IsHeld olt at kind (ensures now olts) jobs w h =
    ensure_jobs-IsHeld olt at now kind olts jobs h
after_call-IsHeld olt at kind (runs now o k) jobs w h = run_now-IsHeld olt at now o kind k jobs h
after_call-IsHeld olt at kind (completes now took job) jobs w h =
    other-IsHeld olt at kind job (completed now took job) jobs (λ row. refl) w h
after_call-IsHeld olt at kind (fails now cause job) jobs w h =
    other-IsHeld olt at kind job (failed now cause job) jobs (λ row. refl) w h
after_call-IsHeld olt at kind (defers now job) jobs w h =
    other-IsHeld olt at kind job (deferred now job) jobs (λ row. refl) w h

claim-IsOther :
    (olt at worker now : ℕ) (kind : PollKind) (jobs : List PollJob)
    → now ≤ at + lease_for kind
    → IsHeld olt kind at jobs
    → IsOther olt kind (claim worker now jobs).0
claim-IsOther olt at worker now kind jobs le h = elim (claim_lem worker now jobs) [
  | inl (e, n) ↦ rw e tt
  | inr (job, e, m) ↦ rw e (held-other olt at now kind job jobs le h m)
]

handed_out-IsOther :
    (olt at : ℕ) (kind : PollKind) (calls : List Call) (jobs : List PollJob)
    → All (IsWithinLease olt kind at) calls
    → IsHeld olt kind at jobs
    → All (IsOther olt kind) (handed_out calls jobs)
unfolding handed_out
handed_out-IsOther olt at kind [] jobs w h = tt
handed_out-IsOther olt at kind (claims worker now ∷ calls) jobs (w, ws) h = (
  claim-IsOther olt at worker now kind jobs w h,
  handed_out-IsOther olt at kind calls (claim worker now jobs).1 ws
      (claim-IsHeld olt at worker now kind jobs w h),
)
handed_out-IsOther olt at kind (ensures now olts ∷ calls) jobs (w, ws) h =
    handed_out-IsOther olt at kind calls _ ws
      (after_call-IsHeld olt at kind (ensures now olts) jobs w h)
handed_out-IsOther olt at kind (runs now o k ∷ calls) jobs (w, ws) h =
    handed_out-IsOther olt at kind calls _ ws
      (after_call-IsHeld olt at kind (runs now o k) jobs w h)
handed_out-IsOther olt at kind (completes now took job ∷ calls) jobs (w, ws) h =
    handed_out-IsOther olt at kind calls _ ws
      (after_call-IsHeld olt at kind (completes now took job) jobs w h)
handed_out-IsOther olt at kind (fails now cause job ∷ calls) jobs (w, ws) h =
    handed_out-IsOther olt at kind calls _ ws
      (after_call-IsHeld olt at kind (fails now cause job) jobs w h)
handed_out-IsOther olt at kind (defers now job ∷ calls) jobs (w, ws) h =
    handed_out-IsOther olt at kind calls _ ws
      (after_call-IsHeld olt at kind (defers now job) jobs w h)

locked_rows :
    (worker now olt : ℕ) (kind : PollKind) (jobs : List PollJob)
    → All
        (λ row. (is_row olt kind row ≡ false) ⊎ (row.locked_at ≡ some now))
        (update_rows olt kind (lock worker now) jobs)
unfolding update_rows
locked_rows worker now olt kind [] = tt
locked_rows worker now olt kind (row ∷ jobs) = elim (Bool-cases (is_row olt kind row)) [
  | inl e ↦ (rw e (inr refl), locked_rows worker now olt kind jobs)
  | inr e ↦ (inl (rw e e), locked_rows worker now olt kind jobs)
]

In-found :
    (job : PollJob) (jobs : List PollJob)
    → In job jobs
    → is_some (find_row job.olt_id job.kind jobs) ≡ true
In-found job [] i = elim i [ ]
In-found job (j ∷ jobs) (inl e) =
    subst (λ x. is_some (find_row job.olt_id job.kind (x ∷ jobs)) ≡ true) (sym e)
      (ground (
        arith,
        find_row-some job.olt_id job.kind job jobs,
        kind_beq_refl job.kind,
        nat_beq_iff job.olt_id job.olt_id,
      ))
In-found job (j ∷ jobs) (inr i) =
    ground (arith, find_row-some job.olt_id job.kind j jobs, In-found job jobs i)

locked-IsHeld :
    (worker now : ℕ) (job : PollJob) (jobs : List PollJob)
    → In job jobs
    → IsHeld job.olt_id job.kind now (update_rows job.olt_id job.kind (lock worker now) jobs)
locked-IsHeld worker now job jobs i = record {
  present =
      find-update_rows job.olt_id job.olt_id job.kind job.kind (lock worker now) jobs (λ row. refl)
      ∙ In-found job jobs i;
  locked = locked_rows worker now job.olt_id job.kind jobs;
}

-- A job that a claim hands out is not handed out again by any of the calls behind it, while every claim
-- among them comes within the lease and none of them releases the job.
pub claim-exclusive :
    (worker now : ℕ) (jobs : List PollJob) (job : PollJob) (calls : List Call)
    → (claim worker now jobs).0 ≡ some job
    → All (IsWithinLease job.olt_id job.kind now) calls
    → All (IsOther job.olt_id job.kind) (handed_out calls (claim worker now jobs).1)
claim-exclusive worker now jobs job calls e w = elim (claim_lem worker now jobs) [
  | inl (q, n) ↦ ground (arith, q, e)
  | inr (j, q, m) ↦
      subst
        (λ x.
          All (IsWithinLease x.olt_id x.kind now) calls
          → All (IsOther x.olt_id x.kind) (handed_out calls (claim worker now jobs).1))
        (some-inj (lock worker now j) job (sym (ap (λ r. r.0) q) ∙ e))
        (λ v. rw q (
          handed_out-IsOther j.olt_id now j.kind calls _ v
            (locked-IsHeld worker now j jobs m.member)))
        w
]
