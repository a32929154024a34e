-- ===== src/Services/JobState.antt =====
-- backend/internal/services/job_state_machine.go: the states of provisioning jobs and of batches.
-- A status is a text in the code; those that no constant names are all `unknown`.
pub mod Paths
mod Tests
use tikman.Prelude.{
  Bool, true, false, ◌||◌, Option, none, some, List, [], ◌∷◌, if◌then◌else◌, Comparable,
}

pub data Status : Type 0 where
  pending running success failed rolled_back partial_rollback unknown : Status

abbrev pub status_beq : Status → Status → Bool
status_beq pending pending = true
status_beq running running = true
status_beq success success = true
status_beq failed failed = true
status_beq rolled_back rolled_back = true
status_beq partial_rollback partial_rollback = true
status_beq unknown unknown = true
status_beq s t = false

unfoldable pub is_valid_provisioning_status : Status → Bool
is_valid_provisioning_status pending = true
is_valid_provisioning_status running = true
is_valid_provisioning_status success = true
is_valid_provisioning_status failed = true
is_valid_provisioning_status rolled_back = true
is_valid_provisioning_status s = false

-- The map `allowed`, and the keys that it does not have.
abbrev pub allowed_provisioning : Status → Option (List Status)
allowed_provisioning pending = some (running ∷ [])
allowed_provisioning running = some (success ∷ failed ∷ [])
allowed_provisioning failed = some (rolled_back ∷ [])
allowed_provisioning success = some []
allowed_provisioning rolled_back = some []
allowed_provisioning s = none

abbrev pub has_candidate : Status → List Status → Bool
has_candidate to [] = false
has_candidate to (candidate ∷ states) =
    if status_beq candidate to then true else has_candidate to states

unfoldable pub is_valid_provisioning_transition : Status → Status → Bool
is_valid_provisioning_transition from to = elim (allowed_provisioning from) [
  | none ↦ false
  | some states ↦ has_candidate to states
]

unfoldable pub is_provisioning_terminal : Status → Bool
is_provisioning_terminal s = status_beq s success || status_beq s failed || status_beq s rolled_back

unfoldable pub is_valid_batch_status : Status → Bool
is_valid_batch_status pending = true
is_valid_batch_status running = true
is_valid_batch_status success = true
is_valid_batch_status failed = true
is_valid_batch_status partial_rollback = true
is_valid_batch_status s = false

abbrev pub allowed_batch : Status → Option (List Status)
allowed_batch pending = some (running ∷ [])
allowed_batch running = some (success ∷ failed ∷ partial_rollback ∷ [])
allowed_batch success = some []
allowed_batch failed = some []
allowed_batch partial_rollback = some []
allowed_batch s = none

unfoldable pub is_valid_batch_transition : Status → Status → Bool
is_valid_batch_transition from to = elim (allowed_batch from) [
  | none ↦ false
  | some states ↦ has_candidate to states
]

unfoldable pub is_batch_terminal : Status → Bool
is_batch_terminal s = status_beq s success || status_beq s failed || status_beq s partial_rollback
