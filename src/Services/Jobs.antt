-- ===== src/Services/Jobs.antt =====
-- backend/internal/services/job_service.go and models/provisioning_job.go: the provisioning jobs.
-- The table is a list of its rows, `time.Now()` and the new identifier are arguments, and the snapshots
-- are their bytes. A call's query and its write are separate statements, without a transaction; they are
-- one step here, so that no other call comes in between. A query that the database fails, and the audit
-- log, are not modelled.
pub mod Sound
mod Tests
use tikman.Prelude.{
  ℕ, ◌+◌, Bool, true, false, ◌&&◌, Option, none, some, List, [], ◌∷◌, ◌++◌, ltb, nat_beq,
  if◌then◌else◌,
}
use tikman.Prelude.Bytes.{Bytes}
use tikman.Services.JobState.{
  Status, pending, running, status_beq, is_valid_provisioning_status,
  is_valid_provisioning_transition, is_provisioning_terminal,
}

pub record ProvisioningJob : Type 0 where
  pub id : ℕ
  pub ont_id : ℕ
  pub template_id : Option ℕ
  pub status : Status
  pub config_snapshot : Bytes
  pub before_snapshot : Bytes
  pub error_message : Option Bytes
  pub created_by : Option ℕ
  pub completed_at : Option ℕ

pub data JobError : Type 0 where
  invalid_status not_found invalid_transition already_running : JobError

pub data Answer : Type 0 where
  refused : JobError → Answer
  stored : List ProvisioningJob → Answer

abbrev pub is_running : ℕ → ProvisioningJob → Bool
is_running ont job = nat_beq job.ont_id ont && status_beq job.status running

unfoldable pub running_count : ℕ → List ProvisioningJob → ℕ
running_count ont [] = 0
running_count ont (job ∷ jobs) =
    let rest = running_count ont jobs in if is_running ont job then rest + 1 else rest

unfoldable pub find_job : ℕ → List ProvisioningJob → Option ProvisioningJob
find_job id [] = none
find_job id (job ∷ jobs) = if nat_beq job.id id then some job else find_job id jobs

-- `Where("id = ?")` and `Updates`.
unfoldable pub update_job :
    ℕ → (ProvisioningJob → ProvisioningJob) → List ProvisioningJob → List ProvisioningJob
update_job id f [] = []
update_job id f (job ∷ jobs) = (if nat_beq job.id id then f job else job) ∷ update_job id f jobs

abbrev pub new_job : ℕ → ℕ → Option ℕ → Bytes → Bytes → ℕ → ProvisioningJob
new_job id ont template config before user = record {
  id = id;
  ont_id = ont;
  template_id = template;
  status = pending;
  config_snapshot = config;
  before_snapshot = before;
  error_message = none;
  created_by = some user;
  completed_at = none;
}

unfoldable pub create_provisioning_job :
    ℕ → ℕ → Option ℕ → Bytes → Bytes → ℕ → List ProvisioningJob → Answer
create_provisioning_job id ont template config before user jobs =
    if ltb 0 (running_count ont jobs)
    then refused already_running
    else stored (jobs ++ (new_job id ont template config before user ∷ []))

-- The map of `updates`, and what it does to a row.
unfoldable pub updated : ℕ → Status → Option Bytes → ProvisioningJob → ProvisioningJob
updated now to message job = record job {
  status = to;
  completed_at = if is_provisioning_terminal to then some now else job.completed_at;
  error_message = elim message [ none ↦ job.error_message | some text ↦ some text ];
}

unfoldable pub update_current :
    ℕ → Status → Option Bytes → ProvisioningJob → ℕ → List ProvisioningJob → Answer
update_current now to message current id jobs =
    if is_valid_provisioning_transition current.status to
    then (if status_beq to running && ltb 0 (running_count current.ont_id jobs)
        then refused already_running
        else stored (update_job id (updated now to message) jobs))
    else refused invalid_transition

unfoldable pub update_status_provisioning :
    ℕ → ℕ → Status → Option Bytes → List ProvisioningJob → Answer
update_status_provisioning now id to message jobs =
    if is_valid_provisioning_status to
    then elim (find_job id jobs) [
      | none ↦ refused not_found
      | some current ↦ update_current now to message current id jobs
    ]
    else refused invalid_status
