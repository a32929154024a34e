-- ===== src/Services/Events/Availability.antt =====
-- backend/internal/services/event_service.go: `CalculateAvailability`. A query gives the events of the
-- window newest first, so that no subtraction is negative. The percentage and the two means, which are
-- quotients of the numbers here, are left out.
pub mod Partition
use tikman.Prelude.{
  ℕ, suc, ◌+◌, ◌-◌, ◌/◌, Bool, true, false, ◌&&◌, List, [], ◌∷◌, ltb, leb, nat_beq, if◌then◌else◌,
  ◌==◌, length,
}
use tikman.Prelude.Bytes.{bytes_eq}
use tikman.Prelude.Sort.{sort_by}
use tikman.Services.Events.{OntEvent, event_type_online, second}

pub record AvailabilityStats : Type 0 where
  pub ont_id : ℕ
  pub start_time : ℕ
  pub end_time : ℕ
  pub total_seconds : ℕ
  pub online_seconds : ℕ
  pub offline_seconds : ℕ
  pub total_events : ℕ
  pub online_events : ℕ
  pub offline_events : ℕ

-- `int64(later.Sub(earlier).Seconds())`.
abbrev pub whole_seconds : ℕ → ℕ → ℕ
whole_seconds earlier later = (later - earlier) / second

abbrev pub is_in_range : ℕ → ℕ → ℕ → OntEvent → Bool
is_in_range ont start_time end_time e =
    nat_beq e.ont_id ont && leb start_time e.event_time && leb e.event_time end_time

unfoldable pub matching : ℕ → ℕ → ℕ → List OntEvent → List OntEvent
matching ont start_time end_time [] = []
matching ont start_time end_time (e ∷ es) =
    let rest = matching ont start_time end_time es in
    if is_in_range ont start_time end_time e then e ∷ rest else rest

abbrev pub newest_first : OntEvent → OntEvent → Bool
newest_first a b = ltb b.event_time a.event_time

unfoldable pub events_in_time_range : ℕ → ℕ → ℕ → List OntEvent → List OntEvent
events_in_time_range ont start_time end_time rows =
    sort_by newest_first (matching ont start_time end_time rows)

abbrev pub is_online : OntEvent → Bool
is_online e = e.event_type == event_type_online

abbrev pub add_span : OntEvent → ℕ → AvailabilityStats → AvailabilityStats
add_span e duration stats =
    if is_online e
    then record stats {
      online_events = stats.online_events + 1;
      online_seconds = stats.online_seconds + duration;
    }
    else record stats {
      offline_events = stats.offline_events + 1;
      offline_seconds = stats.offline_seconds + duration;
    }

-- An event runs until the one before it in the slice.
unfoldable pub accumulate_event_durations :
    List OntEvent → ℕ → AvailabilityStats → AvailabilityStats
accumulate_event_durations [] end_time stats = stats
accumulate_event_durations (e ∷ es) end_time stats =
    accumulate_event_durations es e.event_time
      (add_span e (whole_seconds e.event_time end_time) stats)

-- `events[len(events)-1]`.
unfoldable pub oldest : OntEvent → List OntEvent → OntEvent
oldest e [] = e
oldest e (f ∷ es) = oldest f es

abbrev pub add_before : OntEvent → AvailabilityStats → AvailabilityStats
add_before first stats =
    if ltb stats.start_time first.event_time
    then (if is_online first
        then record stats {
          online_seconds = stats.online_seconds + whole_seconds stats.start_time first.event_time;
        }
        else record stats {
          offline_seconds = stats.offline_seconds + whole_seconds stats.start_time first.event_time;
        })
    else stats

abbrev pub new_stats : ℕ → ℕ → ℕ → ℕ → AvailabilityStats
new_stats ont start_time end_time events = record {
  ont_id = ont;
  start_time = start_time;
  end_time = end_time;
  total_seconds = whole_seconds start_time end_time;
  online_seconds = 0;
  offline_seconds = 0;
  total_events = events;
  online_events = 0;
  offline_events = 0;
}

-- The status that the ONT has now stands for the whole window.
abbrev pub availability_from_current_status : Bool → AvailabilityStats → AvailabilityStats
availability_from_current_status online stats =
    if online
    then record stats { online_seconds = stats.total_seconds }
    else record stats { offline_seconds = stats.total_seconds }

unfoldable pub availability_of : Bool → AvailabilityStats → List OntEvent → AvailabilityStats
availability_of online stats [] = availability_from_current_status online stats
availability_of online stats (e ∷ es) =
    add_before (oldest e es) (accumulate_event_durations (e ∷ es) stats.end_time stats)

unfoldable pub calculate_availability : Bool → ℕ → ℕ → ℕ → List OntEvent → AvailabilityStats
calculate_availability online ont start_time end_time rows =
    let events = events_in_time_range ont start_time end_time rows in
    availability_of online (new_stats ont start_time end_time (length events)) events
