-- ===== src/Services/PollJob/Ensure.antt =====
-- backend/internal/services/poll_job_service.go: the rows that `EnsureJobs` makes.
use tikman.Prelude.{
  ℕ, ◌≡◌, ◌⊎◌, refl, sym, ◌∙◌, ap, arith, Bool, true, false, ◌&&◌, ◌||◌, Option, none, some, List,
  [], ◌∷◌, ◌++◌, nat_beq, nat_beq_iff, Option-cases, Bool-cases, inl, inr, if◌then◌else◌,
}
use tikman.Services.PollJob.{
  PollKind, PollJob, kind_beq, is_row, find_row, first_or_create, ensure_jobs, ensure_kinds,
  new_job, all_poll_kinds, status, metrics, discovery,
}

pub kind_beq_refl : (k : PollKind) → kind_beq k k ≡ true
kind_beq_refl status = refl
kind_beq_refl metrics = refl
kind_beq_refl discovery = refl

-- The first answer of two.
abbrev pub either : Option PollJob → Option PollJob → Option PollJob
either (some job) other = some job
either none other = other

either_assoc : (a b c : Option PollJob) → either (either a b) c ≡ either a (either b c)
either_assoc (some a) b c = refl
either_assoc none b c = refl

find_row-append :
    (olt : ℕ) (kind : PollKind) (jobs more : List PollJob)
    → find_row olt kind (jobs ++ more) ≡ either (find_row olt kind jobs) (find_row olt kind more)
unfolding find_row
find_row-append olt kind [] more = refl
find_row-append olt kind (j ∷ jobs) more = elim (Bool-cases (is_row olt kind j)) [
  | inl e ↦ rw e refl
  | inr e ↦ rw e (find_row-append olt kind jobs more)
]

-- A new job, if the key is the one asked for.
abbrev new_if : Bool → ℕ → ℕ → PollKind → Option PollJob
new_if wanted now olt kind = if wanted then some (new_job now olt kind) else none

abbrev is_key : ℕ → PollKind → ℕ → PollKind → Bool
is_key o k olt kind = nat_beq o olt && kind_beq k kind

pub kind_beq_iff : (k kind : PollKind) → kind_beq k kind ≡ true → k ≡ kind
kind_beq_iff status status h = refl
kind_beq_iff metrics metrics h = refl
kind_beq_iff discovery discovery h = refl
kind_beq_iff status metrics h = ground arith
kind_beq_iff status discovery h = ground arith
kind_beq_iff metrics status h = ground arith
kind_beq_iff metrics discovery h = ground arith
kind_beq_iff discovery status h = ground arith
kind_beq_iff discovery metrics h = ground arith

either-none : (r : Option PollJob) → r ≡ either r none
either-none none = refl
either-none (some j) = refl

find_row-one :
    (olt : ℕ) (kind : PollKind) (j : PollJob)
    → find_row olt kind (j ∷ []) ≡ (if is_row olt kind j then some j else none)
unfolding find_row
find_row-one olt kind j = refl

created :
    (now olt : ℕ) (kind : PollKind) (jobs : List PollJob)
    → find_row olt kind (first_or_create now olt kind jobs)
      ≡ either (find_row olt kind jobs) (new_if (is_key olt kind olt kind) now olt kind)
unfolding first_or_create
created now olt kind jobs = elim (Option-cases (find_row olt kind jobs)) [
  | inl e ↦
      rw (e, first_or_create)
        (find_row-append olt kind jobs (new_job now olt kind ∷ [])
          ∙ ap (λ r. either r (find_row olt kind (new_job now olt kind ∷ []))) e
          ∙ find_row-one olt kind (new_job now olt kind))
  | inr (j, e) ↦ rw (e, first_or_create) (rw e refl)
]

others :
    (now o olt : ℕ) (k kind : PollKind) (jobs : List PollJob)
    → is_key o k olt kind ≡ false
    → find_row olt kind (first_or_create now o k jobs) ≡ either (find_row olt kind jobs) none
unfolding first_or_create
others now o olt k kind jobs other = elim (Option-cases (find_row o k jobs)) [
  | inl e ↦
      rw (e, first_or_create)
        (find_row-append olt kind jobs (new_job now o k ∷ [])
          ∙ ap (λ r. either (find_row olt kind jobs) r)
              (find_row-one olt kind (new_job now o k) ∙ rw other refl))
  | inr (j, e) ↦ rw (e, first_or_create) (either-none (find_row olt kind jobs))
]

find-first_or_create :
    (now o olt : ℕ) (k kind : PollKind) (jobs : List PollJob)
    → find_row olt kind (first_or_create now o k jobs)
      ≡ either (find_row olt kind jobs) (new_if (is_key o k olt kind) now olt kind)
find-first_or_create now o olt k kind jobs = elim (Bool-cases (is_key o k olt kind)) [
  | inl e ↦
      let o_is : o ≡ olt = ground (arith, nat_beq_iff o olt) in
      let k_is : k ≡ kind = kind_beq_iff k kind (ground arith) in
      rw (o_is, k_is) (created now olt kind jobs)
  | inr e ↦ rw e (others now o olt k kind jobs e)
]

new_if_or :
    (a b : Bool) (r : Option PollJob) (now olt : ℕ) (kind : PollKind)
    → either (either r (new_if a now olt kind)) (new_if b now olt kind)
      ≡ either r (new_if (a || b) now olt kind)
new_if_or true b (some j) now olt kind = refl
new_if_or false b (some j) now olt kind = refl
new_if_or true b none now olt kind = refl
new_if_or false b none now olt kind = refl

abbrev has_kind : PollKind → List PollKind → Bool
has_kind kind [] = false
has_kind kind (k ∷ kinds) = kind_beq k kind || has_kind kind kinds

has_kind_all : (kind : PollKind) → has_kind kind all_poll_kinds ≡ true
has_kind_all status = refl
has_kind_all metrics = refl
has_kind_all discovery = refl

find-ensure_kinds :
    (now o olt : ℕ) (kinds : List PollKind) (kind : PollKind) (jobs : List PollJob)
    → find_row olt kind (ensure_kinds now o kinds jobs)
      ≡ either (find_row olt kind jobs) (new_if (nat_beq o olt && has_kind kind kinds) now olt kind)
unfolding ensure_kinds
find-ensure_kinds now o olt [] kind jobs =
    let no_kind : (nat_beq o olt && false) ≡ false = ground arith in
    rw no_kind (either-none (find_row olt kind jobs))
find-ensure_kinds now o olt (k ∷ kinds) kind jobs =
    let split : (nat_beq o olt && (kind_beq k kind || has_kind kind kinds))
        ≡ (is_key o k olt kind || (nat_beq o olt && has_kind kind kinds)) =
      ground arith in
    find-ensure_kinds now o olt kinds kind (first_or_create now o k jobs)
    ∙ ap (λ r. either r (new_if (nat_beq o olt && has_kind kind kinds) now olt kind))
        (find-first_or_create now o olt k kind jobs)
    ∙ new_if_or (is_key o k olt kind) (nat_beq o olt && has_kind kind kinds) _ now olt kind
    ∙ ap (λ b. either (find_row olt kind jobs) (new_if b now olt kind)) (sym split)

-- The OLT is one of the list.
abbrev pub is_listed : ℕ → List ℕ → Bool
is_listed olt [] = false
is_listed olt (o ∷ olts) = nat_beq o olt || is_listed olt olts

-- After `EnsureJobs`, on any table, also an empty one, every key has the row that it had; a key that
-- had none has a new job, due now, if its OLT is one of those listed, for each of the tiers, and
-- else it still has none.
pub ensure_jobs_lem :
    (now : ℕ) (olts : List ℕ) (jobs : List PollJob) (olt : ℕ) (kind : PollKind)
    → find_row olt kind (ensure_jobs now olts jobs)
      ≡ either
          (find_row olt kind jobs)
          (if is_listed olt olts then some (new_job now olt kind) else none)
unfolding ensure_jobs
ensure_jobs_lem now [] jobs olt kind = either-none (find_row olt kind jobs)
ensure_jobs_lem now (o ∷ olts) jobs olt kind =
    let every : (nat_beq o olt && has_kind kind all_poll_kinds) ≡ nat_beq o olt =
      rw (has_kind_all kind) (ground arith) in
    ensure_jobs_lem now olts (ensure_kinds now o all_poll_kinds jobs) olt kind
    ∙ ap (λ r. either r (new_if (is_listed olt olts) now olt kind))
        (find-ensure_kinds now o olt all_poll_kinds kind jobs
          ∙ ap (λ b. either (find_row olt kind jobs) (new_if b now olt kind)) every)
    ∙ new_if_or (nat_beq o olt) (is_listed olt olts) (find_row olt kind jobs) now olt kind

pub first_or_create-held :
    (now o : ℕ) (k : PollKind) (jobs : List PollJob)
    → (first_or_create now o k jobs ≡ jobs)
      ⊎ ((find_row o k jobs ≡ none)
          × (first_or_create now o k jobs ≡ jobs ++ (new_job now o k ∷ [])))
unfolding first_or_create
first_or_create-held now o k jobs = elim (Option-cases (find_row o k jobs)) [
  | inl e ↦ inr (e, rw (e, first_or_create) refl)
  | inr (j, e) ↦ inl (rw (e, first_or_create) refl)
]
