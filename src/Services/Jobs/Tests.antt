-- ===== src/Services/Jobs/Tests.antt =====
-- backend/internal/services/job_service.go: two jobs of one ONT.
use tikman.Prelude.{◌≡◌, refl, none, List, [], ◌∷◌}
use tikman.Services.JobState.{
  running, is_valid_provisioning_status, is_valid_provisioning_transition, is_provisioning_terminal,
}
use tikman.Services.Jobs.{
  ProvisioningJob, refused, already_running, new_job, running_count, find_job, update_job,
  create_provisioning_job, updated, update_current, update_status_provisioning,
}
use tikman.Services.Jobs.Sound.{IsSound}
use tikman.Services.Jobs.Sound.Reachable.{Reachable, empty, created, moved, Reachable-IsSound}

abbrev first : ProvisioningJob
first = new_job 1 7 none [] [] 9

abbrev two_jobs : List ProvisioningJob
two_jobs = record first { status = running } ∷ new_job 2 7 none [] [] 9 ∷ []

second_is_refused : update_status_provisioning 50 2 running none two_jobs ≡ refused already_running
unfolding update_status_provisioning update_current find_job running_count
    is_valid_provisioning_status is_valid_provisioning_transition
second_is_refused = refl

two_jobs-Reachable : Reachable two_jobs
unfolding update_status_provisioning update_current find_job update_job updated running_count
    is_valid_provisioning_status is_valid_provisioning_transition is_provisioning_terminal
    create_provisioning_job
two_jobs-Reachable =
    moved 40 1 running none
      (created 2 7 none [] [] 9 (created 1 7 none [] [] 9 empty tt refl) (refl, tt) refl) refl

Reachable-IsSound_example : IsSound two_jobs
Reachable-IsSound_example = Reachable-IsSound two_jobs two_jobs-Reachable
