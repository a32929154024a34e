-- ===== src/Services/Jobs/Sound/Reachable.antt =====
-- backend/internal/services/job_service.go: the tables that the calls of the service can make.
use tikman.Prelude.{
  ℕ, ◌+◌, ◌≤◌, ◌≡◌, inl, inr, refl, sym, ap, ◌∙◌, arith, true, false, ◌&&◌, Option, some, is_some,
  List, [], ◌∷◌, ◌++◌, ltb, nat_beq, nat_beq_iff, if◌then◌else◌, All, Bool-cases, Option-cases,
}
use mathlib.Core.Path.{subst}
use tikman.Prelude.Bytes.{Bytes}
use tikman.Services.JobState.{
  Status, pending, running, success, failed, rolled_back, partial_rollback, unknown, status_beq,
  is_valid_provisioning_status, is_valid_provisioning_transition, is_provisioning_terminal,
}
use tikman.Services.Jobs.{
  ProvisioningJob, stored, is_running, running_count, find_job, update_job, new_job,
  create_provisioning_job, updated, update_current, update_status_provisioning,
}
use tikman.Services.Jobs.Sound.{
  IsFresh, IsDistinct, IsStamped, IsSound, update_job-IsDistinct, update_job-head, update_job-tail,
  find_job-head, find_job-tail, count-update_job, count-cons, one_if, starts,
}

stamp_lem :
    (now : ℕ) (c : Option ℕ) (s to : Status)
    → is_some c ≡ is_provisioning_terminal s
    → is_valid_provisioning_transition s to ≡ true
    → is_some (if is_provisioning_terminal to then some now else c) ≡ is_provisioning_terminal to
unfolding is_provisioning_terminal is_valid_provisioning_transition
stamp_lem now c s success h v = refl
stamp_lem now c s failed h v = refl
stamp_lem now c s rolled_back h v = refl
stamp_lem now c pending running h v = h
stamp_lem now c running running h v = ground arith
stamp_lem now c success running h v = ground arith
stamp_lem now c failed running h v = ground arith
stamp_lem now c rolled_back running h v = ground arith
stamp_lem now c partial_rollback running h v = ground arith
stamp_lem now c unknown running h v = ground arith
stamp_lem now c pending pending h v = ground arith
stamp_lem now c running pending h v = ground arith
stamp_lem now c success pending h v = ground arith
stamp_lem now c failed pending h v = ground arith
stamp_lem now c rolled_back pending h v = ground arith
stamp_lem now c partial_rollback pending h v = ground arith
stamp_lem now c unknown pending h v = ground arith
stamp_lem now c pending partial_rollback h v = ground arith
stamp_lem now c running partial_rollback h v = ground arith
stamp_lem now c success partial_rollback h v = ground arith
stamp_lem now c failed partial_rollback h v = ground arith
stamp_lem now c rolled_back partial_rollback h v = ground arith
stamp_lem now c partial_rollback partial_rollback h v = ground arith
stamp_lem now c unknown partial_rollback h v = ground arith
stamp_lem now c pending unknown h v = ground arith
stamp_lem now c running unknown h v = ground arith
stamp_lem now c success unknown h v = ground arith
stamp_lem now c failed unknown h v = ground arith
stamp_lem now c rolled_back unknown h v = ground arith
stamp_lem now c partial_rollback unknown h v = ground arith
stamp_lem now c unknown unknown h v = ground arith

updated-IsStamped :
    (now : ℕ) (to : Status) (message : Option Bytes) (job : ProvisioningJob)
    → is_valid_provisioning_transition job.status to ≡ true
    → IsStamped job
    → IsStamped (updated now to message job)
unfolding updated
updated-IsStamped now to message job v h = stamp_lem now job.completed_at job.status to h v

update_job-IsStamped :
    (id now : ℕ) (to : Status) (message : Option Bytes) (jobs : List ProvisioningJob)
    (job : ProvisioningJob)
    → IsDistinct jobs
    → find_job id jobs ≡ some job
    → is_valid_provisioning_transition job.status to ≡ true
    → All IsStamped jobs
    → All IsStamped (update_job id (updated now to message) jobs)
unfolding find_job
update_job-IsStamped id now to message [] job d e v h = ground arith
update_job-IsStamped id now to message (j ∷ jobs) job (f, d) e v (h, hs) =
    elim (Bool-cases (nat_beq j.id id)) [
      | inl g ↦ rw (update_job-head id (updated now to message) j jobs g f) (
        updated-IsStamped now to message j
            (subst (λ k. is_valid_provisioning_transition k.status to ≡ true)
              (sym (find_job-head id j job jobs g e)) v)
            h,
        hs,
      )
      | inr g ↦ rw (update_job-tail id (updated now to message) j jobs g) (
        h,
        update_job-IsStamped id now to message jobs job d (find_job-tail id j job jobs g e) v hs,
      )
    ]

-- The tables that the calls can make from the empty one; a new identifier is a new UUID.
pub data Reachable : List ProvisioningJob → Type 0 where
  empty : Reachable []
  created :
      {jobs more : List ProvisioningJob} (id ont : ℕ) (template : Option ℕ) (config before : Bytes)
      (user : ℕ)
      → Reachable jobs
      → IsFresh id jobs
      → create_provisioning_job id ont template config before user jobs ≡ stored more
      → Reachable more
  moved :
      {jobs more : List ProvisioningJob} (now id : ℕ) (to : Status) (message : Option Bytes)
      → Reachable jobs
      → update_status_provisioning now id to message jobs ≡ stored more
      → Reachable more

All-snoc :
    (P : ProvisioningJob → Type 0) (jobs : List ProvisioningJob) (job : ProvisioningJob)
    → All P jobs
    → P job
    → All P (jobs ++ (job ∷ []))
All-snoc P [] job h k = (k, tt)
All-snoc P (j ∷ jobs) job h k = (h.0, All-snoc P jobs job h.1 k)

nat_beq_sym : (a b : ℕ) → nat_beq a b ≡ false → nat_beq b a ≡ false
nat_beq_sym a b h = ground arith

snoc-IsDistinct :
    (jobs : List ProvisioningJob) (job : ProvisioningJob)
    → IsDistinct jobs
    → IsFresh job.id jobs
    → IsDistinct (jobs ++ (job ∷ []))
snoc-IsDistinct [] job d f = (tt, tt)
snoc-IsDistinct (j ∷ jobs) job (h, d) (f, fs) = (
  All-snoc (λ k. nat_beq k.id j.id ≡ false) jobs job h (nat_beq_sym j.id job.id f),
  snoc-IsDistinct jobs job d fs,
)

count-snoc :
    (ont : ℕ) (jobs : List ProvisioningJob) (job : ProvisioningJob)
    → running_count ont (jobs ++ (job ∷ [])) ≡ running_count ont jobs + one_if (is_running ont job)
unfolding running_count
count-snoc ont [] job = count-cons ont job []
count-snoc ont (j ∷ jobs) job =
    count-cons ont j (jobs ++ (job ∷ []))
    ∙ omega (arith, count-snoc ont jobs job, count-cons ont j jobs)

snoc-IsSound :
    (jobs : List ProvisioningJob) (id ont : ℕ) (template : Option ℕ) (config before : Bytes)
    (user : ℕ)
    → IsSound jobs
    → IsFresh id jobs
    → IsSound (jobs ++ (new_job id ont template config before user ∷ []))
unfolding is_provisioning_terminal
snoc-IsSound jobs id ont template config before user h f =
    let job = new_job id ont template config before user in
    record {
      distinct = snoc-IsDistinct jobs job h.distinct f;
      single = λ o. ground (arith, count-snoc o jobs job, h.single o);
      stamped = All-snoc IsStamped jobs job h.stamped refl;
    }

create-IsSound :
    (jobs more : List ProvisioningJob) (id ont : ℕ) (template : Option ℕ) (config before : Bytes)
    (user : ℕ)
    → IsSound jobs
    → IsFresh id jobs
    → create_provisioning_job id ont template config before user jobs ≡ stored more
    → IsSound more
unfolding create_provisioning_job
create-IsSound jobs more id ont template config before user h f e =
    elim (Bool-cases (ltb 0 (running_count ont jobs))) [
      | inl r ↦ ground (arith, r, e)
      | inr r ↦
          let q : jobs ++ (new_job id ont template config before user ∷ []) ≡ more =
            ground (arith, r, e) in
          subst IsSound q (snoc-IsSound jobs id ont template config before user h f)
    ]

-- An update to running comes only where the ONT has no running job.
room :
    (ont : ℕ) (to : Status) (current : ProvisioningJob) (jobs : List ProvisioningJob)
    → (status_beq to running && ltb 0 (running_count current.ont_id jobs)) ≡ false
    → running_count ont jobs ≤ 1
    → running_count ont jobs + one_if (starts ont to current) ≤ 1
room ont to current jobs r h = elim (Bool-cases (nat_beq current.ont_id ont)) [
  | inr e ↦ rw e (omega arith)
  | inl e ↦ elim (Bool-cases (status_beq to running)) [
    | inr f ↦ rw (e, f) (omega arith)
    | inl f ↦
        rw (e, f)
          (ground
            (arith, r, f, ap (λ o. running_count o jobs) ((nat_beq_iff current.ont_id ont).0 e)))
  ]
]

update-IsSound :
    (now id : ℕ) (to : Status) (message : Option Bytes) (current : ProvisioningJob)
    (jobs more : List ProvisioningJob)
    → IsSound jobs
    → find_job id jobs ≡ some current
    → update_current now to message current id jobs ≡ stored more
    → IsSound more
unfolding update_current
update-IsSound now id to message current jobs more h e q =
    elim (Bool-cases (is_valid_provisioning_transition current.status to)) [
      | inr v ↦ ground (arith, v, q)
      | inl v ↦
          elim (Bool-cases (status_beq to running && ltb 0 (running_count current.ont_id jobs))) [
            | inl r ↦ ground (arith, v, r, q)
            | inr r ↦
                let p : update_job id (updated now to message) jobs ≡ more =
                  ground (arith, v, r, q) in
                subst IsSound p (record {
                  distinct = update_job-IsDistinct id now to message jobs h.distinct;
                  single = λ ont. ground (
                    arith,
                    count-update_job id now ont to message jobs current h.distinct e,
                    room ont to current jobs r (h.single ont),
                  );
                  stamped =
                      update_job-IsStamped id now to message jobs current h.distinct e v h.stamped;
                })
          ]
    ]

move-IsSound :
    (now id : ℕ) (to : Status) (message : Option Bytes) (jobs more : List ProvisioningJob)
    → IsSound jobs
    → update_status_provisioning now id to message jobs ≡ stored more
    → IsSound more
unfolding update_status_provisioning
move-IsSound now id to message jobs more h q = elim (Bool-cases (is_valid_provisioning_status to)) [
  | inr v ↦ ground (arith, v, q)
  | inl v ↦ elim (Option-cases (find_job id jobs)) [
    | inl n ↦ ground (arith, v, n, q)
    | inr (current, e) ↦
        update-IsSound now id to message current jobs more h e (ground (arith, v, e, q))
  ]
]

-- In every table that the calls of the service can make, no two jobs have one identifier, no ONT has
-- more than one running job, and a job has a time of completion where its status completes it.
pub Reachable-IsSound : (jobs : List ProvisioningJob) → Reachable jobs → IsSound jobs
unfolding running_count
Reachable-IsSound jobs empty = record { distinct = tt; single = λ ont. ground arith; stamped = tt }
Reachable-IsSound more (created {jobs = jobs} id ont template config before user r f e) =
    create-IsSound jobs more id ont template config before user (Reachable-IsSound jobs r) f e
Reachable-IsSound more (moved {jobs = jobs} now id to message r e) =
    move-IsSound now id to message jobs more (Reachable-IsSound jobs r) e
