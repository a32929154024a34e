-- ===== src/Services/PollJob/Progress/Served.antt =====
-- backend/internal/services/poll_job_service.go: how many claims a job waits for.
use tikman.Prelude.{
  ℕ, suc, ◌+◌, ◌*◌, ◌≤◌, ◌<◌, ◌≡◌, ◌⊎◌, refl, arith, Bool, true, false, ◌||◌, Option, none, some,
  List, [], ◌∷◌, nat_beq_iff, inl, inr, Bool-cases, Option-cases, All,
}
use tikman.Prelude.Sort.{In, All-In}
use tikman.Services.PollJob.{
  PollKind, PollJob, minute, is_row, kind_beq, update_rows, is_candidate, lock, complete, completed,
  fail, failed, defer, deferred, run_now, is_running, find_row, first_or_create, ensure_kinds,
  ensure_jobs, all_poll_kinds, new_job, status, metrics, discovery,
}
use tikman.Services.PollJob.Claim.{claim_lem, IsMostOverdue}
use tikman.Services.PollJob.Ensure.{first_or_create-held, kind_beq_refl}
use tikman.Services.PollJob.Lease.{after_run_now}
use tikman.Services.PollJob.Lease.Exclusive.{
  Call, claims, ensures, runs, completes, fails, defers, after_call, handed_out,
}
use tikman.Services.PollJob.Progress.{
  is_ahead, ahead, In-ahead, ahead-append, In-append, ahead-update_rows, ahead-update_rows_less,
  In-update_rows, candidate-is_ahead, candidate_later,
}

-- The job stands in the table with at most `n` rows that may be claimed before it, itself among them.
record IsWaiting (since n : ℕ) (job : PollJob) (jobs : List PollJob) : Type 0 where
  member : In job jobs
  few : ahead job.due_at since jobs ≤ n

-- A claim within the shortest lease, or another call, at a later time than the job is due at, that
-- is not for the job's own key.
abbrev pub IsElsewhere : ℕ → PollJob → Call → Type 0
IsElsewhere since job (claims worker now) = (since ≤ now) × (now ≤ since + 2 * minute)
IsElsewhere since job (ensures now olts) = job.due_at < now
IsElsewhere since job (runs now o k) = (job.due_at < now) × (is_row o k job ≡ false)
IsElsewhere since job (completes now took j) =
    (job.due_at < now) × (is_row j.olt_id j.kind job ≡ false)
IsElsewhere since job (fails now cause j) =
    (job.due_at < now) × (is_row j.olt_id j.kind job ≡ false)
IsElsewhere since job (defers now j) = (job.due_at < now) × (is_row j.olt_id j.kind job ≡ false)

unfoldable pub claim_count : List Call → ℕ
claim_count [] = 0
claim_count (claims worker now ∷ calls) = suc (claim_count calls)
claim_count (call ∷ calls) = claim_count calls

-- A job of the key is among the answers.
unfoldable pub is_handed : ℕ → PollKind → List (Option PollJob) → Bool
is_handed olt kind [] = false
is_handed olt kind (none ∷ answers) = is_handed olt kind answers
is_handed olt kind (some job ∷ answers) = is_row olt kind job || is_handed olt kind answers

update-IsWaiting :
    (since n olt : ℕ) (kind : PollKind) (f : PollJob → PollJob) (job : PollJob)
    (jobs : List PollJob)
    → ((row : PollJob) → is_ahead job.due_at since (f row) ≡ false)
    → is_row olt kind job ≡ false
    → IsWaiting since n job jobs
    → IsWaiting since n job (update_rows olt kind f jobs)
update-IsWaiting since n olt kind f job jobs behind other h = record {
  member = In-update_rows olt kind f job jobs h.member other;
  few = omega (arith, ahead-update_rows job.due_at since olt kind f behind jobs, h.few);
}

first_or_create-IsWaiting :
    (since n now o : ℕ) (k : PollKind) (job : PollJob) (jobs : List PollJob)
    → job.due_at < now
    → IsWaiting since n job jobs
    → IsWaiting since n job (first_or_create now o k jobs)
unfolding ahead
first_or_create-IsWaiting since n now o k job jobs lt h = elim (first_or_create-held now o k jobs) [
  | inl e ↦ rw e h
  | inr (absent, e) ↦ rw e (record {
    member = In-append job jobs (new_job now o k ∷ []) h.member;
    few = ground (arith, ahead-append job.due_at since jobs (new_job now o k ∷ []), h.few, lt);
  })
]

ensure_kinds-IsWaiting :
    (since n now o : ℕ) (kinds : List PollKind) (job : PollJob) (jobs : List PollJob)
    → job.due_at < now
    → IsWaiting since n job jobs
    → IsWaiting since n job (ensure_kinds now o kinds jobs)
unfolding ensure_kinds
ensure_kinds-IsWaiting since n now o [] job jobs lt h = h
ensure_kinds-IsWaiting since n now o (k ∷ kinds) job jobs lt h =
    ensure_kinds-IsWaiting since n now o kinds job _ lt
      (first_or_create-IsWaiting since n now o k job jobs lt h)

ensure_jobs-IsWaiting :
    (since n now : ℕ) (olts : List ℕ) (job : PollJob) (jobs : List PollJob)
    → job.due_at < now
    → IsWaiting since n job jobs
    → IsWaiting since n job (ensure_jobs now olts jobs)
unfolding ensure_jobs
ensure_jobs-IsWaiting since n now [] job jobs lt h = h
ensure_jobs-IsWaiting since n now (o ∷ olts) job jobs lt h =
    ensure_jobs-IsWaiting since n now olts job _ lt
      (ensure_kinds-IsWaiting since n now o all_poll_kinds job jobs lt h)

run_now-IsWaiting :
    (since n now o : ℕ) (k : PollKind) (job : PollJob) (jobs : List PollJob)
    → job.due_at < now
    → is_row o k job ≡ false
    → IsWaiting since n job jobs
    → IsWaiting since n job (after_run_now jobs (run_now now o k jobs))
unfolding run_now after_run_now
run_now-IsWaiting since n now o k job jobs lt other h = elim (Option-cases (find_row o k jobs)) [
  | inl e ↦ rw (e, run_now) h
  | inr (j, e) ↦ elim (Bool-cases (is_running now k j)) [
    | inl r ↦ rw (e, run_now) (rw r h)
    | inr r ↦
        rw (e, run_now)
          (rw r (
            update-IsWaiting since n o k (λ row. record row { due_at = now }) job jobs
              (λ row. ground arith) other h))
  ]
]

kind_beq_sym : (j k : PollKind) → kind_beq j k ≡ kind_beq k j
kind_beq_sym status status = refl
kind_beq_sym status metrics = refl
kind_beq_sym status discovery = refl
kind_beq_sym metrics status = refl
kind_beq_sym metrics metrics = refl
kind_beq_sym metrics discovery = refl
kind_beq_sym discovery status = refl
kind_beq_sym discovery metrics = refl
kind_beq_sym discovery discovery = refl

is_row_self : (j : PollJob) → is_row j.olt_id j.kind j ≡ true
is_row_self j = ground (arith, nat_beq_iff j.olt_id j.olt_id, kind_beq_refl j.kind)

is_row_sym : (j k : PollJob) → is_row j.olt_id j.kind k ≡ false → is_row k.olt_id k.kind j ≡ false
is_row_sym j k h = ground (arith, h, nat_beq_iff j.olt_id k.olt_id, kind_beq_sym j.kind k.kind)

earlier-le :
    (since now : ℕ) (job other : PollJob) (jobs : List PollJob)
    → since ≤ now
    → is_candidate since job ≡ true
    → IsMostOverdue now jobs other
    → In job jobs
    → other.due_at ≤ job.due_at
earlier-le since now job other jobs le free m i =
    elim (All-In (λ j. (is_candidate now j ≡ false) ⊎ (other.due_at ≤ j.due_at)) job jobs m.first
      i) [
        | inl busy ↦ absurd (ground (arith, busy, candidate_later since now job le free))
        | inr first ↦ first
      ]

-- A claim that hands another job out leaves one row less ahead.
claim-IsWaiting :
    (since n worker now : ℕ) (job other : PollJob) (jobs : List PollJob)
    → (since ≤ now) × (now ≤ since + 2 * minute)
    → is_candidate since job ≡ true
    → IsMostOverdue now jobs other
    → is_row other.olt_id other.kind job ≡ false
    → IsWaiting since (suc n) job jobs
    → IsWaiting since n job (update_rows other.olt_id other.kind (lock worker now) jobs)
claim-IsWaiting since n worker now job other jobs (le, near) free m apart h = record {
  member = In-update_rows other.olt_id other.kind (lock worker now) job jobs h.member apart;
  few = omega (
    arith,
    ahead-update_rows_less job.due_at since other.olt_id other.kind (lock worker now)
        (λ row. ground arith) other jobs m.member (is_row_self other)
        (candidate-is_ahead job.due_at since now other near
          (earlier-le since now job other jobs le free m h.member) m.candidate),
    h.few,
  );
}

handed-claim :
    (since worker now : ℕ) (job : PollJob) (calls : List Call) (jobs : List PollJob)
    → (since ≤ now) × (now ≤ since + 2 * minute)
    → is_candidate since job ≡ true
    → IsWaiting since (suc (claim_count calls)) job jobs
    → ((more : List PollJob)
        → IsWaiting since (claim_count calls) job more
        → is_handed job.olt_id job.kind (handed_out calls more) ≡ true)
    → is_handed job.olt_id job.kind (handed_out (claims worker now ∷ calls) jobs) ≡ true
unfolding handed_out is_handed
handed-claim since worker now job calls jobs (le, near) free h rest =
    elim (claim_lem worker now jobs) [
      | inl (e, busy) ↦ absurd (
          ground (
            arith,
            candidate_later since now job le free,
            All-In (λ j. is_candidate now j ≡ false) job jobs busy h.member,
          ))
      | inr (other, e, m) ↦ elim (Bool-cases (is_row job.olt_id job.kind other)) [
        | inl same ↦ rw e (rw same refl)
        | inr apart ↦ rw e (
            rw apart (
              rest _ (
                claim-IsWaiting since (claim_count calls) worker now job other jobs (le, near) free
                  m (is_row_sym job other apart) h)))
      ]
    ]

handed_out-served :
    (since : ℕ) (job : PollJob) (calls : List Call) (jobs : List PollJob)
    → is_candidate since job ≡ true
    → All (IsElsewhere since job) calls
    → IsWaiting since (claim_count calls) job jobs
    → is_handed job.olt_id job.kind (handed_out calls jobs) ≡ true
unfolding claim_count handed_out after_call complete completed fail failed defer deferred
handed_out-served since job [] jobs free w h = absurd (
    ground (
      arith,
      h.few,
      In-ahead job.due_at since job jobs h.member
          (candidate-is_ahead job.due_at since since job (omega arith) (omega arith) free),
    ))
handed_out-served since job (claims worker now ∷ calls) jobs free (w, ws) h =
    handed-claim since worker now job calls jobs w free h
      (λ more k. handed_out-served since job calls more free ws k)
handed_out-served since job (ensures now olts ∷ calls) jobs free (w, ws) h =
    handed_out-served since job calls _ free ws
      (ensure_jobs-IsWaiting since _ now olts job jobs w h)
handed_out-served since job (runs now o k ∷ calls) jobs free ((lt, w), ws) h =
    handed_out-served since job calls _ free ws (run_now-IsWaiting since _ now o k job jobs lt w h)
handed_out-served since job (completes now took j ∷ calls) jobs free ((lt, w), ws) h =
    handed_out-served since job calls _ free ws (
      update-IsWaiting since _ j.olt_id j.kind (completed now took j) job jobs (λ row. ground arith)
        w h)
handed_out-served since job (fails now cause j ∷ calls) jobs free ((lt, w), ws) h =
    handed_out-served since job calls _ free ws (
      update-IsWaiting since _ j.olt_id j.kind (failed now cause j) job jobs (λ row. ground arith) w
        h)
handed_out-served since job (defers now j ∷ calls) jobs free ((lt, w), ws) h =
    handed_out-served since job calls _ free ws
      (update-IsWaiting since _ j.olt_id j.kind (deferred now j) job jobs (λ row. ground arith) w h)

-- No job starves: of a table with a job that is due and free at a time, the claims of the next two
-- minutes hand a job of its key out, once they are as many as the rows that are due no later than it
-- and not locked since that time. Between them may stand any calls for other keys, and `EnsureJobs`,
-- at later times than the job was due at.
pub claims-serve :
    (since : ℕ) (job : PollJob) (calls : List Call) (jobs : List PollJob)
    → In job jobs
    → is_candidate since job ≡ true
    → All (IsElsewhere since job) calls
    → ahead job.due_at since jobs ≤ claim_count calls
    → is_handed job.olt_id job.kind (handed_out calls jobs) ≡ true
claims-serve since job calls jobs i free w le =
    handed_out-served since job calls jobs free w (record { member = i; few = le })
