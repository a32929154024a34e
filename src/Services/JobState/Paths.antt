-- ===== src/Services/JobState/Paths.antt =====
-- backend/internal/services/job_state_machine.go: the runs of the two machines from `pending`.
use tikman.Prelude.{ℕ, ◌+◌, ◌≤◌, ◌<◌, ◌≡◌, arith, Bool, true, List, [], ◌∷◌, length}
use tikman.Services.JobState.{
  Status, pending, running, success, failed, rolled_back, partial_rollback, unknown,
  is_valid_provisioning_transition, is_valid_batch_transition,
}

-- The statuses that a job goes through from `s`, each by a transition that is allowed.
pub data Walk (step : Status → Status → Bool) : Status → List Status → Type 0 where
  stay : {s : Status} → Walk step s []
  go :
      {s t : Status} {rest : List Status}
      → step s t ≡ true
      → Walk step t rest
      → Walk step s (t ∷ rest)

abbrev pub rank : Status → ℕ
rank pending = 0
rank running = 1
rank success = 3
rank failed = 2
rank rolled_back = 3
rank partial_rollback = 3
rank unknown = 3

is_valid_provisioning_transition-rank :
    (s t : Status) → is_valid_provisioning_transition s t ≡ true → rank s < rank t
unfolding is_valid_provisioning_transition
is_valid_provisioning_transition-rank pending pending h = ground arith
is_valid_provisioning_transition-rank pending running h = ground arith
is_valid_provisioning_transition-rank pending success h = ground arith
is_valid_provisioning_transition-rank pending failed h = ground arith
is_valid_provisioning_transition-rank pending rolled_back h = ground arith
is_valid_provisioning_transition-rank pending partial_rollback h = ground arith
is_valid_provisioning_transition-rank pending unknown h = ground arith
is_valid_provisioning_transition-rank running pending h = ground arith
is_valid_provisioning_transition-rank running running h = ground arith
is_valid_provisioning_transition-rank running success h = ground arith
is_valid_provisioning_transition-rank running failed h = ground arith
is_valid_provisioning_transition-rank running rolled_back h = ground arith
is_valid_provisioning_transition-rank running partial_rollback h = ground arith
is_valid_provisioning_transition-rank running unknown h = ground arith
is_valid_provisioning_transition-rank success pending h = ground arith
is_valid_provisioning_transition-rank success running h = ground arith
is_valid_provisioning_transition-rank success success h = ground arith
is_valid_provisioning_transition-rank success failed h = ground arith
is_valid_provisioning_transition-rank success rolled_back h = ground arith
is_valid_provisioning_transition-rank success partial_rollback h = ground arith
is_valid_provisioning_transition-rank success unknown h = ground arith
is_valid_provisioning_transition-rank failed pending h = ground arith
is_valid_provisioning_transition-rank failed running h = ground arith
is_valid_provisioning_transition-rank failed success h = ground arith
is_valid_provisioning_transition-rank failed failed h = ground arith
is_valid_provisioning_transition-rank failed rolled_back h = ground arith
is_valid_provisioning_transition-rank failed partial_rollback h = ground arith
is_valid_provisioning_transition-rank failed unknown h = ground arith
is_valid_provisioning_transition-rank rolled_back pending h = ground arith
is_valid_provisioning_transition-rank rolled_back running h = ground arith
is_valid_provisioning_transition-rank rolled_back success h = ground arith
is_valid_provisioning_transition-rank rolled_back failed h = ground arith
is_valid_provisioning_transition-rank rolled_back rolled_back h = ground arith
is_valid_provisioning_transition-rank rolled_back partial_rollback h = ground arith
is_valid_provisioning_transition-rank rolled_back unknown h = ground arith
is_valid_provisioning_transition-rank partial_rollback pending h = ground arith
is_valid_provisioning_transition-rank partial_rollback running h = ground arith
is_valid_provisioning_transition-rank partial_rollback success h = ground arith
is_valid_provisioning_transition-rank partial_rollback failed h = ground arith
is_valid_provisioning_transition-rank partial_rollback rolled_back h = ground arith
is_valid_provisioning_transition-rank partial_rollback partial_rollback h = ground arith
is_valid_provisioning_transition-rank partial_rollback unknown h = ground arith
is_valid_provisioning_transition-rank unknown pending h = ground arith
is_valid_provisioning_transition-rank unknown running h = ground arith
is_valid_provisioning_transition-rank unknown success h = ground arith
is_valid_provisioning_transition-rank unknown failed h = ground arith
is_valid_provisioning_transition-rank unknown rolled_back h = ground arith
is_valid_provisioning_transition-rank unknown partial_rollback h = ground arith
is_valid_provisioning_transition-rank unknown unknown h = ground arith

is_valid_batch_transition-rank :
    (s t : Status) → is_valid_batch_transition s t ≡ true → rank s < rank t
unfolding is_valid_batch_transition
is_valid_batch_transition-rank pending pending h = ground arith
is_valid_batch_transition-rank pending running h = ground arith
is_valid_batch_transition-rank pending success h = ground arith
is_valid_batch_transition-rank pending failed h = ground arith
is_valid_batch_transition-rank pending rolled_back h = ground arith
is_valid_batch_transition-rank pending partial_rollback h = ground arith
is_valid_batch_transition-rank pending unknown h = ground arith
is_valid_batch_transition-rank running pending h = ground arith
is_valid_batch_transition-rank running running h = ground arith
is_valid_batch_transition-rank running success h = ground arith
is_valid_batch_transition-rank running failed h = ground arith
is_valid_batch_transition-rank running rolled_back h = ground arith
is_valid_batch_transition-rank running partial_rollback h = ground arith
is_valid_batch_transition-rank running unknown h = ground arith
is_valid_batch_transition-rank success pending h = ground arith
is_valid_batch_transition-rank success running h = ground arith
is_valid_batch_transition-rank success success h = ground arith
is_valid_batch_transition-rank success failed h = ground arith
is_valid_batch_transition-rank success rolled_back h = ground arith
is_valid_batch_transition-rank success partial_rollback h = ground arith
is_valid_batch_transition-rank success unknown h = ground arith
is_valid_batch_transition-rank failed pending h = ground arith
is_valid_batch_transition-rank failed running h = ground arith
is_valid_batch_transition-rank failed success h = ground arith
is_valid_batch_transition-rank failed failed h = ground arith
is_valid_batch_transition-rank failed rolled_back h = ground arith
is_valid_batch_transition-rank failed partial_rollback h = ground arith
is_valid_batch_transition-rank failed unknown h = ground arith
is_valid_batch_transition-rank rolled_back pending h = ground arith
is_valid_batch_transition-rank rolled_back running h = ground arith
is_valid_batch_transition-rank rolled_back success h = ground arith
is_valid_batch_transition-rank rolled_back failed h = ground arith
is_valid_batch_transition-rank rolled_back rolled_back h = ground arith
is_valid_batch_transition-rank rolled_back partial_rollback h = ground arith
is_valid_batch_transition-rank rolled_back unknown h = ground arith
is_valid_batch_transition-rank partial_rollback pending h = ground arith
is_valid_batch_transition-rank partial_rollback running h = ground arith
is_valid_batch_transition-rank partial_rollback success h = ground arith
is_valid_batch_transition-rank partial_rollback failed h = ground arith
is_valid_batch_transition-rank partial_rollback rolled_back h = ground arith
is_valid_batch_transition-rank partial_rollback partial_rollback h = ground arith
is_valid_batch_transition-rank partial_rollback unknown h = ground arith
is_valid_batch_transition-rank unknown pending h = ground arith
is_valid_batch_transition-rank unknown running h = ground arith
is_valid_batch_transition-rank unknown success h = ground arith
is_valid_batch_transition-rank unknown failed h = ground arith
is_valid_batch_transition-rank unknown rolled_back h = ground arith
is_valid_batch_transition-rank unknown partial_rollback h = ground arith
is_valid_batch_transition-rank unknown unknown h = ground arith

rank-le : (s : Status) → rank s ≤ 3
rank-le pending = ground arith
rank-le running = ground arith
rank-le success = ground arith
rank-le failed = ground arith
rank-le rolled_back = ground arith
rank-le partial_rollback = ground arith
rank-le unknown = ground arith

length_bounded :
    (step : Status → Status → Bool) (s : Status) (states : List Status)
    → ((a b : Status) → step a b ≡ true → rank a < rank b)
    → Walk step s states
    → length states + rank s ≤ 3
length_bounded step s [] up stay = ground (arith, rank-le s)
length_bounded step s (t ∷ rest) up (go h w) =
    ground (arith, up s t h, length_bounded step t rest up w)

-- From any status no more transitions are allowed than its rank leaves, three from `pending`, neither
-- of a provisioning job nor of a batch.
pub Walk-bounded :
    (s : Status) (states batch : List Status)
    → Walk is_valid_provisioning_transition s states
    → Walk is_valid_batch_transition s batch
    → (length states + rank s ≤ 3) × (length batch + rank s ≤ 3)
Walk-bounded s states batch w b = (
  length_bounded is_valid_provisioning_transition s states is_valid_provisioning_transition-rank w,
  length_bounded is_valid_batch_transition s batch is_valid_batch_transition-rank b,
)
