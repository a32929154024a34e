-- ===== src/Services/Events/Rows.antt =====
-- backend/internal/services/event_service.go: single events, pages of them, and the deletion of old
-- ones. Go's limits and offsets are not negative.
use tikman.Prelude.{
  ℕ, ◌-◌, not, Option, none, some, List, [], ◌∷◌, ltb, nat_beq, if◌then◌else◌, take, drop, length,
}
use tikman.Prelude.Sort.{sort_by}
use tikman.Services.Events.{OntEvent, Table, is_valid_type, create}
use tikman.Services.Events.Availability.{newest_first}

-- `none` is an error, with the table as it was.
unfoldable pub log_event : OntEvent → Table → Option Table
log_event event t =
    if not (is_valid_type event.event_type) then none else some (create (event ∷ []) t)

unfoldable pub events_of : ℕ → List OntEvent → List OntEvent
events_of ont [] = []
events_of ont (e ∷ es) =
    let rest = events_of ont es in if nat_beq e.ont_id ont then e ∷ rest else rest

-- The page, and how many events there are.
unfoldable pub get_events_by_ont_id : ℕ → ℕ → ℕ → Table → List OntEvent × ℕ
get_events_by_ont_id ont limit offset t = (
  take limit (drop offset (sort_by newest_first (events_of ont t.rows))),
  length (events_of ont t.rows),
)

unfoldable pub first_of : List OntEvent → Option OntEvent
first_of [] = none
first_of (e ∷ es) = some e

unfoldable pub get_latest_event : ℕ → Table → Option OntEvent
get_latest_event ont t = first_of (sort_by newest_first (events_of ont t.rows))

unfoldable pub not_older : ℕ → List OntEvent → List OntEvent
not_older cutoff [] = []
not_older cutoff (e ∷ es) =
    let rest = not_older cutoff es in if ltb e.event_time cutoff then rest else e ∷ rest

-- The table, and how many rows are gone.
unfoldable pub delete_old_events : ℕ → ℕ → Table → Table × ℕ
delete_old_events now older_than t =
    let kept = not_older (now - older_than) t.rows in
    (record t { rows = kept }, length t.rows - length kept)
