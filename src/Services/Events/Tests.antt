-- ===== src/Services/Events/Tests.antt =====
-- backend/internal/services/event_status_batch.go and event_service.go: two ONTs over a day.
use tikman.Prelude.{
  ◌+◌, ◌-◌, ◌*◌, ◌/◌, ◌≤◌, ◌≡◌, ◌⊎◌, refl, arith, true, false, none, some, [], ◌∷◌, length, All,
}
use tikman.Prelude.Int.{pos}
use tikman.Prelude.Text.{codes}
use tikman.Prelude.Sort.{sort_by, insert_by}
use tikman.Services.Events.{
  OntEvent, StatusChange, Table, event_type_online, event_type_offline, second, latest_event,
  close_event, seconds_between, record_changes, numbered, create, valid_status_changes,
  log_status_changes,
}
use tikman.Services.Events.Latest.{latest_type}
use tikman.Services.Events.Repeated.{log_status_changes_lem}
use tikman.Services.Events.Availability.{
  matching, events_in_time_range, accumulate_event_durations, oldest, availability_of,
  calculate_availability,
}
use tikman.Services.Events.Availability.Partition.{held, calculate_availability-shares}

abbrev went_online : OntEvent
went_online = record {
  id = 1;
  ont_id = 7;
  event_type = event_type_online;
  event_time = 86400 * second;
  reason = [];
  duration_seconds = none;
}

abbrev events : Table
events = record { next_id = 2; rows = went_online ∷ [] }

abbrev seven_offline : StatusChange
seven_offline = record { ont_id = 7; event_type = event_type_offline; reason = codes "LOS" }

abbrev eight_online : StatusChange
eight_online = record { ont_id = 8; event_type = event_type_online; reason = [] }

abbrev logged : Table
logged = record {
  next_id = 4;
  rows =
      record went_online { duration_seconds = some (pos 60) }
      ∷ record went_online {
        id = 2;
        event_type = event_type_offline;
        event_time = 86460 * second;
        reason = codes "LOS";
      }
      ∷ record went_online { id = 3; ont_id = 8; event_time = 86460 * second }
      ∷ [];
}

page_is_logged :
    log_status_changes (86460 * second) (seven_offline ∷ eight_online ∷ []) events ≡ some logged
unfolding log_status_changes valid_status_changes record_changes latest_event close_event
    seconds_between create numbered
page_is_logged = refl

log_status_changes_lem_example :
    ((valid_status_changes (seven_offline ∷ eight_online ∷ []) ≡ false)
      × (log_status_changes (86460 * second) (seven_offline ∷ eight_online ∷ []) events ≡ none))
    ⊎ ((after : Table) × (valid_status_changes (seven_offline ∷ eight_online ∷ []) ≡ true)
        × (log_status_changes (86460 * second) (seven_offline ∷ eight_online ∷ []) events
            ≡ some after)
        × All
            (λ c. latest_type c.ont_id after.rows ≡ some c.event_type)
            (seven_offline ∷ eight_online ∷ [])
        × (log_status_changes (86520 * second) (seven_offline ∷ eight_online ∷ []) after
            ≡ some after))
log_status_changes_lem_example =
    log_status_changes_lem (86460 * second) (86520 * second) (seven_offline ∷ eight_online ∷ [])
      events ((refl, tt), (tt, tt)) ((ground arith, ground arith), tt)

-- The ONT came online at the end of the day, and the day before that counts as online too.
offline_day : (calculate_availability true 7 0 (86400 * second) events.rows).online_seconds ≡ 86400
unfolding calculate_availability events_in_time_range matching sort_by insert_by availability_of
    accumulate_event_durations oldest
offline_day = refl

calculate_availability-shares_example :
    (held (calculate_availability true 7 0 (100000 * second) logged.rows)
      ≤ (100000 * second - 0) / second)
    × ((100000 * second - 0) / second
        ≤ held (calculate_availability true 7 0 (100000 * second) logged.rows)
          + length (events_in_time_range 7 0 (100000 * second) logged.rows))
calculate_availability-shares_example =
    calculate_availability-shares true 7 0 (100000 * second) logged.rows (ground arith)
