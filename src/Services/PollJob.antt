-- ===== src/Services/PollJob.antt =====
-- backend/internal/services/poll_job_service.go and models/olt_poll_job.go: the queue of poll jobs.
-- The table is a list of its rows; `time.Now()` is an argument, in nanoseconds since the epoch, and a
-- `time.Duration` is a number of nanoseconds, both below 2 ^ 62; identifiers are numbers, and an error's
-- text is its bytes. The query and the update of `RunNow`, which are in no transaction, are one step here.
-- A query that the database fails leaves the table as it is and is not modelled.
pub mod Claim
pub mod Lease
pub mod Release
pub mod Ensure
pub mod Progress
mod Tests
use tikman.Prelude.{
  ℕ, ◌+◌, ◌-◌, ◌*◌, ◌/◌, ◌^◌, Bool, true, false, ◌&&◌, Option, none, some, List, [], ◌∷◌, ◌++◌, map,
  ltb, leb, nat_beq, if◌then◌else◌,
}
use tikman.Prelude.Bytes.{Bytes}

pub data PollKind : Type 0 where
  status : PollKind
  metrics : PollKind
  discovery : PollKind

abbrev pub kind_beq : PollKind → PollKind → Bool
kind_beq status status = true
kind_beq metrics metrics = true
kind_beq discovery discovery = true
kind_beq j k = false

pub record PollJob : Type 0 where
  pub olt_id : ℕ
  pub kind : PollKind
  pub due_at : ℕ
  pub locked_by : Option ℕ
  pub locked_at : Option ℕ
  pub last_run_at : Option ℕ
  pub last_duration_ms : Option ℕ
  pub last_error : Option Bytes
  pub consecutive_failures : ℕ

abbrev pub minute : ℕ
minute = 60000000000

unfoldable pub interval_for : PollKind → ℕ
interval_for status = minute
interval_for metrics = 10 * minute
interval_for discovery = 360 * minute

unfoldable pub lease_for : PollKind → ℕ
lease_for status = 2 * minute
lease_for metrics = 5 * minute
lease_for discovery = 15 * minute

abbrev pub agent_share : ℕ
agent_share = 2

unfoldable pub spacing_for : PollKind → ℕ → ℕ
spacing_for kind took =
    let stretched = took * agent_share in
    if ltb (interval_for kind) stretched then stretched else interval_for kind

abbrev pub max_backoff_shift : ℕ
max_backoff_shift = 5

-- `failures` is at least one, so that the shift is not negative.
unfoldable pub backoff : PollKind → ℕ → ℕ
backoff kind failures =
    let shift = failures - 1 in
    interval_for kind * 2 ^ (if ltb max_backoff_shift shift then max_backoff_shift else shift)

abbrev pub all_poll_kinds : List PollKind
all_poll_kinds = discovery ∷ status ∷ metrics ∷ []

-- `Where("olt_id = ? AND kind = ?")`.
abbrev pub is_row : ℕ → PollKind → PollJob → Bool
is_row olt kind job = nat_beq job.olt_id olt && kind_beq job.kind kind

unfoldable pub find_row : ℕ → PollKind → List PollJob → Option PollJob
find_row olt kind [] = none
find_row olt kind (job ∷ jobs) = if is_row olt kind job then some job else find_row olt kind jobs

-- `Updates` of the rows of a key.
unfoldable pub update_rows : ℕ → PollKind → (PollJob → PollJob) → List PollJob → List PollJob
update_rows olt kind f [] = []
update_rows olt kind f (job ∷ jobs) =
    (if is_row olt kind job then f job else job) ∷ update_rows olt kind f jobs

abbrev pub new_job : ℕ → ℕ → PollKind → PollJob
new_job now olt kind = record {
  olt_id = olt;
  kind = kind;
  due_at = now;
  locked_by = none;
  locked_at = none;
  last_run_at = none;
  last_duration_ms = none;
  last_error = none;
  consecutive_failures = 0;
}

unfoldable pub first_or_create : ℕ → ℕ → PollKind → List PollJob → List PollJob
first_or_create now olt kind jobs = elim (find_row olt kind jobs) [
  | some job ↦ jobs
  | none ↦ jobs ++ (new_job now olt kind ∷ [])
]

unfoldable pub ensure_kinds : ℕ → ℕ → List PollKind → List PollJob → List PollJob
ensure_kinds now olt [] jobs = jobs
ensure_kinds now olt (kind ∷ kinds) jobs =
    ensure_kinds now olt kinds (first_or_create now olt kind jobs)

unfoldable pub ensure_jobs : ℕ → List ℕ → List PollJob → List PollJob
ensure_jobs now [] jobs = jobs
ensure_jobs now (olt ∷ olts) jobs = ensure_jobs now olts (ensure_kinds now olt all_poll_kinds jobs)

unfoldable pub claimable : ℕ → PollJob → Bool
claimable now job = elim job.locked_at [ none ↦ true | some at ↦ ltb at (now - lease_for job.kind) ]

abbrev pub is_candidate : ℕ → PollJob → Bool
is_candidate now job = leb job.due_at now && claimable now job

-- `Order("due_at")` and `First`; of rows due at one time, the first of the table.
abbrev pub earlier : PollJob → Option PollJob → PollJob
earlier j none = j
earlier j (some b) = if leb j.due_at b.due_at then j else b

unfoldable pub most_overdue : ℕ → List PollJob → Option PollJob
most_overdue now [] = none
most_overdue now (job ∷ jobs) =
    let best = most_overdue now jobs in
    if is_candidate now job then some (earlier job best) else best

abbrev pub lock : ℕ → ℕ → PollJob → PollJob
lock worker now job = record job { locked_by = some worker; locked_at = some now }

unfoldable pub claim : ℕ → ℕ → List PollJob → Option PollJob × List PollJob
claim worker now jobs = elim (most_overdue now jobs) [
  | none ↦ (none, jobs)
  | some job ↦ (some (lock worker now job), update_rows job.olt_id job.kind (lock worker now) jobs)
]

pub data RunNow : Type 0 where
  not_found : RunNow
  job_running : RunNow
  scheduled : List PollJob → RunNow

abbrev pub is_running : ℕ → PollKind → PollJob → Bool
is_running now kind job = elim job.locked_at [
  | none ↦ false
  | some at ↦ ltb (now - at) (lease_for kind)
]

unfoldable pub run_now : ℕ → ℕ → PollKind → List PollJob → RunNow
run_now now olt kind jobs = elim (find_row olt kind jobs) [
  | none ↦ not_found
  | some job ↦
      if is_running now kind job
      then job_running
      else scheduled (update_rows olt kind (λ row. record row { due_at = now }) jobs)
]

unfoldable pub completed : ℕ → ℕ → PollJob → PollJob → PollJob
completed now took job row = record row {
  due_at = now + spacing_for job.kind took;
  locked_by = none;
  locked_at = none;
  last_run_at = some now;
  last_duration_ms = some (took / 1000000);
  last_error = none;
  consecutive_failures = 0;
}

unfoldable pub complete : ℕ → ℕ → PollJob → List PollJob → List PollJob
complete now took job jobs = update_rows job.olt_id job.kind (completed now took job) jobs

unfoldable pub failed : ℕ → Bytes → PollJob → PollJob → PollJob
failed now cause job row =
    let failures = job.consecutive_failures + 1 in
    record row {
      due_at = now + backoff job.kind failures;
      locked_by = none;
      locked_at = none;
      last_run_at = some now;
      last_error = some cause;
      consecutive_failures = failures;
    }

unfoldable pub fail : ℕ → Bytes → PollJob → List PollJob → List PollJob
fail now cause job jobs = update_rows job.olt_id job.kind (failed now cause job) jobs

unfoldable pub deferred : ℕ → PollJob → PollJob → PollJob
deferred now job row = record row {
  due_at = now + interval_for job.kind;
  locked_by = none;
  locked_at = none;
}

unfoldable pub defer : ℕ → PollJob → List PollJob → List PollJob
defer now job jobs = update_rows job.olt_id job.kind (deferred now job) jobs
