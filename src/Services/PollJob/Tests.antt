-- ===== src/Services/PollJob/Tests.antt =====
-- backend/internal/services/poll_job_service.go: a chassis with its three jobs, and two workers.
use tikman.Prelude.{
  arith, ◌+◌, ◌*◌, max, ◌≡◌, refl, false, none, some, List, [], ◌∷◌, All, ◌⊎◌, true, inl,
}
use tikman.Services.PollJob.{
  PollJob, status, metrics, discovery, claim, complete, fail, defer, new_job, ensure_jobs, find_row,
  lock, update_rows, most_overdue, is_candidate, claimable, lease_for, interval_for, run_now,
  job_running,
}
use tikman.Services.PollJob.Ensure.{ensure_jobs_lem}
use tikman.Services.PollJob.Lease.Exclusive.{
  claims, runs, ensures, completes, handed_out, IsOther, claim-exclusive, Call,
}
use tikman.Services.PollJob.Release.{release-IsReleased, IsReleased}
use tikman.Services.PollJob.Progress.{ahead}
use tikman.Services.PollJob.Progress.Served.{claim_count, is_handed, claims-serve}
use tikman.Services.PollJob.Claim.{claim_lem, IsMostOverdue}

abbrev later_job : PollJob
later_job = record (new_job 900 4 status) { due_at = 900 }

abbrev table : List PollJob
table = later_job ∷ new_job 800 5 metrics ∷ new_job 700 4 discovery ∷ []

claim-table : (claim 1 1000 table).0 ≡ some (lock 1 1000 (new_job 700 4 discovery))
unfolding claim most_overdue claimable lease_for
claim-table = refl

run_now-running : run_now 1001 4 discovery (claim 1 1000 table).1 ≡ job_running
unfolding run_now find_row claim most_overdue claimable lease_for update_rows
run_now-running = refl

abbrev next_calls : List Call
next_calls =
    claims 2 2000
    ∷ runs 2500 4 discovery
    ∷ ensures 2600 (4 ∷ [])
    ∷ claims 3 3000
    ∷ claims 2 4000
    ∷ []

claim-exclusive_example : All (IsOther 4 discovery) (handed_out next_calls (claim 1 1000 table).1)
unfolding lease_for
claim-exclusive_example =
    claim-exclusive 1 1000 table (lock 1 1000 (new_job 700 4 discovery)) next_calls claim-table
      (ground arith)

ensure_jobs_lem_example :
    find_row 4 metrics (ensure_jobs 1000 (4 ∷ 6 ∷ []) []) ≡ some (new_job 1000 4 metrics)
unfolding find_row
ensure_jobs_lem_example = ensure_jobs_lem 1000 (4 ∷ 6 ∷ []) [] 4 metrics

claim_lem_example :
    ((claim 1 1000 table ≡ (none, table)) × All (λ j. is_candidate 1000 j ≡ false) table)
    ⊎ ((job : PollJob) × (claim 1 1000 table
          ≡ (some (lock 1 1000 job), update_rows job.olt_id job.kind (lock 1 1000) table))
        × IsMostOverdue 1000 table job)
claim_lem_example = claim_lem 1 1000 table

release-IsReleased_example :
    IsReleased 5 metrics
      (1000 + max (interval_for metrics) (2 * 400000000000))
      2
      800000000000
      (complete 1000 400000000000 (new_job 800 5 metrics) table)
    × IsReleased 5 metrics
        (1000 + interval_for metrics)
        2
        2000
        (fail 1000 (1 ∷ []) (new_job 800 5 metrics) table)
    × IsReleased 5 metrics
        (1000 + interval_for metrics)
        2
        2000
        (defer 1000 (new_job 800 5 metrics) table)
unfolding interval_for
release-IsReleased_example =
    release-IsReleased 1000 400000000000 (1 ∷ []) (new_job 800 5 metrics) table 2 2000 800000000000
      (ground arith) (ground arith)

abbrev claiming : List Call
claiming =
    claims 1 1000
    ∷ completes 1500 5000000 (new_job 700 4 discovery)
    ∷ claims 2 2000
    ∷ ensures 2500 (6 ∷ [])
    ∷ claims 3 3000
    ∷ []

claims-serve_example : is_handed 4 status (handed_out claiming table) ≡ true
unfolding claimable lease_for ahead claim_count
claims-serve_example =
    claims-serve 1000 later_job claiming table (inl refl) refl
      (
        (ground arith, ground arith),
        (
          (ground arith, refl),
          ((ground arith, ground arith), (ground arith, ((ground arith, ground arith), tt))),
        ),
      )
      (ground arith)
