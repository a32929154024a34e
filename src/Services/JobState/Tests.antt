-- ===== src/Services/JobState/Tests.antt =====
-- backend/internal/services/job_state_machine.go: a job that is rolled back, and a batch that succeeds.
use tikman.Prelude.{◌+◌, ◌≤◌, refl, [], ◌∷◌, length}
use tikman.Services.JobState.{
  pending, running, success, failed, rolled_back, is_valid_provisioning_transition,
  is_valid_batch_transition,
}
use tikman.Services.JobState.Paths.{stay, go, rank, Walk-bounded}

Walk-bounded_example :
    (length (running ∷ failed ∷ rolled_back ∷ []) + rank pending ≤ 3)
    × (length (running ∷ success ∷ []) + rank pending ≤ 3)
unfolding is_valid_provisioning_transition is_valid_batch_transition
Walk-bounded_example =
    Walk-bounded pending (running ∷ failed ∷ rolled_back ∷ []) (running ∷ success ∷ [])
      (go refl (go refl (go refl stay))) (go refl (go refl stay))
