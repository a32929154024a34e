-- ===== src/Services/Events/Availability/Partition.antt =====
-- backend/internal/services/event_service.go: the seconds of the window are shared out between the two
-- states.
use tikman.Prelude.{
  ℕ, ◌+◌, ◌-◌, ◌*◌, ◌/◌, ◌≤◌, ◌≡◌, ◌∙◌, refl, arith, Bool, true, false, List, [], ◌∷◌, ltb, length,
  inl, inr, Bool-cases, All,
}
use tikman.Prelude.Bytes.{bytes_eq}
use tikman.Prelude.Sort.{
  All-In, All-of_In, In-sort_by, IsOrder, IsOrdered, sort_by, sort_by-IsOrdered,
}
use tikman.Services.Events.{OntEvent, second}
use tikman.Services.Events.Availability.{
  AvailabilityStats, whole_seconds, is_in_range, matching, newest_first, events_in_time_range,
  is_online, add_span, accumulate_event_durations, oldest, add_before, new_stats, availability_of,
  calculate_availability,
}

-- The seconds that are shared out.
abbrev pub held : AvailabilityStats → ℕ
held stats = stats.online_seconds + stats.offline_seconds

held-add_span :
    (e : OntEvent) (duration : ℕ) (stats : AvailabilityStats)
    → held (add_span e duration stats) ≡ held stats + duration
held-add_span e duration stats = elim (Bool-cases (is_online e)) [
  | inl h ↦ rw h (omega arith)
  | inr h ↦ rw h (omega arith)
]

-- Spans that lie one behind the other, each cut to whole seconds.
abbrev IsChain : ℕ → List OntEvent → Type 0
IsChain end_time [] = Unit
IsChain end_time (e ∷ es) = (e.event_time ≤ end_time) × IsChain e.event_time es

accumulate-held :
    (e : OntEvent) (es : List OntEvent) (end_time : ℕ) (stats : AvailabilityStats)
    → IsChain end_time (e ∷ es)
    → (held (accumulate_event_durations (e ∷ es) end_time stats) * second + (oldest e es).event_time
        ≤ held stats * second + end_time)
      × (held stats * second + end_time
          ≤ held (accumulate_event_durations (e ∷ es) end_time stats) * second
            + (oldest e es).event_time
            + length (e ∷ es) * (second - 1))
unfolding accumulate_event_durations oldest
accumulate-held e [] end_time stats (le, c) =
    let sum = held-add_span e (whole_seconds e.event_time end_time) stats in
    (omega (arith, sum, le), omega (arith, sum, le))
accumulate-held e (f ∷ es) end_time stats (le, c) =
    let next = add_span e (whole_seconds e.event_time end_time) stats in
    let sum = held-add_span e (whole_seconds e.event_time end_time) stats in
    let (low, high) = accumulate-held f es e.event_time next c in
    (omega (arith, sum, le, low), omega (arith, sum, le, high))

-- The sums touch nothing else.
record IsSameWindow (a b : AvailabilityStats) : Type 0 where
  start : a.start_time ≡ b.start_time
  seconds : a.total_seconds ≡ b.total_seconds
  events : a.total_events ≡ b.total_events

add_span-IsSameWindow :
    (e : OntEvent) (duration : ℕ) (stats : AvailabilityStats)
    → IsSameWindow (add_span e duration stats) stats
add_span-IsSameWindow e duration stats = elim (Bool-cases (is_online e)) [
  | inl h ↦ rw h (record { start = refl; seconds = refl; events = refl })
  | inr h ↦ rw h (record { start = refl; seconds = refl; events = refl })
]

accumulate-IsSameWindow :
    (es : List OntEvent) (end_time : ℕ) (stats : AvailabilityStats)
    → IsSameWindow (accumulate_event_durations es end_time stats) stats
unfolding accumulate_event_durations
accumulate-IsSameWindow [] end_time stats = record { start = refl; seconds = refl; events = refl }
accumulate-IsSameWindow (e ∷ es) end_time stats =
    let duration = whole_seconds e.event_time end_time in
    let more = accumulate-IsSameWindow es e.event_time (add_span e duration stats) in
    let one = add_span-IsSameWindow e duration stats in
    record {
      start = more.start ∙ one.start;
      seconds = more.seconds ∙ one.seconds;
      events = more.events ∙ one.events;
    }

add_before-held :
    (first : OntEvent) (stats : AvailabilityStats)
    → held (add_before first stats) ≡ held stats + whole_seconds stats.start_time first.event_time
add_before-held first stats = elim (Bool-cases (ltb stats.start_time first.event_time)) [
  | inr h ↦ rw h (ground (arith, h))
  | inl h ↦ rw h (elim (Bool-cases (is_online first)) [
    | inl o ↦ rw o (omega arith)
    | inr o ↦ rw o (omega arith)
  ])
]

add_before-IsSameWindow :
    (first : OntEvent) (stats : AvailabilityStats) → IsSameWindow (add_before first stats) stats
add_before-IsSameWindow first stats = elim (Bool-cases (ltb stats.start_time first.event_time)) [
  | inr h ↦ rw h (record { start = refl; seconds = refl; events = refl })
  | inl h ↦ rw h (elim (Bool-cases (is_online first)) [
    | inl o ↦ rw o (record { start = refl; seconds = refl; events = refl })
    | inr o ↦ rw o (record { start = refl; seconds = refl; events = refl })
  ])
]

-- The events of the query lie in the window, newest first.
IsInside : ℕ → ℕ → OntEvent → Type 0
IsInside start_time end_time e = (start_time ≤ e.event_time) × (e.event_time ≤ end_time)

matching-IsInside :
    (ont start_time end_time : ℕ) (rows : List OntEvent)
    → All (IsInside start_time end_time) (matching ont start_time end_time rows)
unfolding matching IsInside
matching-IsInside ont start_time end_time [] = tt
matching-IsInside ont start_time end_time (e ∷ es) =
    elim (Bool-cases (is_in_range ont start_time end_time e)) [
      | inl h ↦
          rw h
            ((ground (arith, h), ground (arith, h)), matching-IsInside ont start_time end_time es)
      | inr h ↦ rw h (matching-IsInside ont start_time end_time es)
    ]

events-IsInside :
    (ont start_time end_time : ℕ) (rows : List OntEvent)
    → All (IsInside start_time end_time) (events_in_time_range ont start_time end_time rows)
unfolding events_in_time_range
events-IsInside ont start_time end_time rows =
    let found = matching ont start_time end_time rows in
    All-of_In (IsInside start_time end_time) (sort_by newest_first found) (λ e i.
      All-In (IsInside start_time end_time) e found (matching-IsInside ont start_time end_time rows)
        ((In-sort_by newest_first e found).0 i))

newest_first-IsOrder : IsOrder newest_first
newest_first-IsOrder = record {
  asym = λ a b h. ground arith;
  neg_trans = λ a b c h k. ground arith;
}

events-IsOrdered :
    (ont start_time end_time : ℕ) (rows : List OntEvent)
    → IsOrdered newest_first (events_in_time_range ont start_time end_time rows)
unfolding events_in_time_range
events-IsOrdered ont start_time end_time rows =
    sort_by-IsOrdered newest_first newest_first-IsOrder (matching ont start_time end_time rows)

ordered-IsChain :
    (es : List OntEvent) (end_time : ℕ)
    → IsOrdered newest_first es
    → All (λ e. e.event_time ≤ end_time) es
    → IsChain end_time es
ordered-IsChain [] end_time o h = tt
ordered-IsChain (e ∷ es) end_time (oe, os) (h, hs) = (
  h,
  ordered-IsChain es e.event_time os (
      All-of_In (λ f. f.event_time ≤ e.event_time) es
        (λ f i. ground (arith, All-In (λ f. newest_first f e ≡ false) f es oe i))),
)

oldest-All :
    (P : OntEvent → Type 0) (e : OntEvent) (es : List OntEvent) → All P (e ∷ es) → P (oldest e es)
unfolding oldest
oldest-All P e [] h = h.0
oldest-All P e (f ∷ es) h = oldest-All P f es h.1

-- The seconds of the window and those that are shared out, with at most one lost for each event.
IsShared : AvailabilityStats → Type 0
IsShared stats =
    (held stats ≤ stats.total_seconds) × (stats.total_seconds ≤ held stats + stats.total_events)

availability_of-IsShared :
    (online : Bool) (ont start_time end_time : ℕ) (es : List OntEvent)
    → start_time ≤ end_time
    → IsOrdered newest_first es
    → All (IsInside start_time end_time) es
    → IsShared (availability_of online (new_stats ont start_time end_time (length es)) es)
unfolding availability_of IsShared IsInside
availability_of-IsShared true ont start_time end_time [] le o h = (omega arith, omega arith)
availability_of-IsShared false ont start_time end_time [] le o h = (omega arith, omega arith)
availability_of-IsShared online ont start_time end_time (e ∷ es) le o h =
    let stats = new_stats ont start_time end_time (length (e ∷ es)) in
    let summed = accumulate_event_durations (e ∷ es) end_time stats in
    let window = accumulate-IsSameWindow (e ∷ es) end_time stats in
    let whole = add_before-IsSameWindow (oldest e es) summed in
    let chain = ordered-IsChain (e ∷ es) end_time o (
      All-of_In (λ f. f.event_time ≤ end_time) (e ∷ es)
        (λ f i. (All-In (IsInside start_time end_time) f (e ∷ es) h i).1)) in
    let (low, high) = accumulate-held e es end_time stats chain in
    let before = add_before-held (oldest e es) summed in
    let inside = oldest-All (IsInside start_time end_time) e es h in
    (
      omega (
        arith, low, high, before, inside.0, window.start, window.seconds, window.events,
        whole.seconds, whole.events,
      ),
      omega (
        arith, low, high, before, inside.0, window.start, window.seconds, window.events,
        whole.seconds, whole.events,
      ),
    )

of-IsSameWindow :
    (online : Bool) (stats : AvailabilityStats) (es : List OntEvent)
    → IsSameWindow (availability_of online stats es) stats
unfolding availability_of
of-IsSameWindow true stats [] = record { start = refl; seconds = refl; events = refl }
of-IsSameWindow false stats [] = record { start = refl; seconds = refl; events = refl }
of-IsSameWindow online stats (e ∷ es) =
    let whole =
      add_before-IsSameWindow (oldest e es)
        (accumulate_event_durations (e ∷ es) stats.end_time stats) in
    let window = accumulate-IsSameWindow (e ∷ es) stats.end_time stats in
    record {
      start = whole.start ∙ window.start;
      seconds = whole.seconds ∙ window.seconds;
      events = whole.events ∙ window.events;
    }

-- Over a window that does not end before it starts, `CalculateAvailability` shares the seconds out
-- between online and offline: their sum is at most the seconds of the window, and falls short of them by at
-- most one second for each event, which is what cutting the spans to whole seconds loses.
pub calculate_availability-shares :
    (online : Bool) (ont start_time end_time : ℕ) (rows : List OntEvent)
    → start_time ≤ end_time
    → (held (calculate_availability online ont start_time end_time rows)
        ≤ (end_time - start_time) / second)
      × ((end_time - start_time) / second
          ≤ held (calculate_availability online ont start_time end_time rows)
            + length (events_in_time_range ont start_time end_time rows))
unfolding calculate_availability IsShared
calculate_availability-shares online ont start_time end_time rows le =
    let events = events_in_time_range ont start_time end_time rows in
    let (low, high) =
      availability_of-IsShared online ont start_time end_time events le
        (events-IsOrdered ont start_time end_time rows)
        (events-IsInside ont start_time end_time rows) in
    let window =
      of-IsSameWindow online (new_stats ont start_time end_time (length events)) events in
    (omega (arith, low, window.seconds), omega (arith, high, window.seconds, window.events))
