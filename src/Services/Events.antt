-- ===== src/Services/Events.antt =====
-- backend/internal/services/event_status_batch.go and event_service.go: the log of the ONTs' changes of
-- status. The table is a list of rows with its next identifier; times are nanoseconds since the epoch.
-- `int64(d.Seconds())` is the whole seconds of `d`, as for every `d` below 97 days, where a float64
-- holds seconds and nanoseconds.
pub mod Availability
pub mod Latest
pub mod Logged
pub mod Repeated
pub mod Rows
mod Tests
use tikman.Prelude.{
  ℕ, suc, ◌+◌, ◌-◌, ◌/◌, Bool, true, false, not, ◌&&◌, ◌||◌, Option, none, some, List, [], ◌∷◌,
  ◌++◌, ltb, leb, nat_beq, if◌then◌else◌, ◌==◌, length,
}
use tikman.Prelude.Bytes.{bytes_eq}
use tikman.Prelude.Int.{ℤ, pos, negsuc}
use tikman.Prelude.Text.{Text, codes}

abbrev pub event_type_online : Text
event_type_online = codes "online"

abbrev pub event_type_offline : Text
event_type_offline = codes "offline"

pub record OntEvent : Type 0 where
  pub id : ℕ
  pub ont_id : ℕ
  pub event_type : Text
  pub event_time : ℕ
  pub reason : Text
  pub duration_seconds : Option ℤ

pub record StatusChange : Type 0 where
  pub ont_id : ℕ
  pub event_type : Text
  pub reason : Text

-- Rows with their identifiers, which the database counts up.
pub record Table : Type 0 where
  pub next_id : ℕ
  pub rows : List OntEvent

abbrev pub second : ℕ
second = 1000000000

-- `int64(later.Sub(earlier).Seconds())`, which is cut towards zero.
abbrev pub negated : ℕ → ℤ
negated n = if nat_beq n 0 then pos 0 else negsuc (n - 1)

unfoldable pub seconds_between : ℕ → ℕ → ℤ
seconds_between earlier later =
    if ltb later earlier
    then negated ((earlier - later) / second)
    else pos ((later - earlier) / second)

abbrev pub is_valid_type : Text → Bool
is_valid_type t = (t == event_type_online) || (t == event_type_offline)

unfoldable pub valid_status_changes : List StatusChange → Bool
valid_status_changes [] = true
valid_status_changes (c ∷ cs) =
    if not (is_valid_type c.event_type) then false else valid_status_changes cs

-- `ORDER BY event_time DESC, id DESC`.
abbrev pub is_newer : OntEvent → OntEvent → Bool
is_newer a b = ltb b.event_time a.event_time || (nat_beq a.event_time b.event_time && ltb b.id a.id)

abbrev pub newer : OntEvent → Option OntEvent → OntEvent
newer a none = a
newer a (some b) = if is_newer b a then b else a

-- The row of rank 1 of an ONT.
unfoldable pub latest_event : ℕ → List OntEvent → Option OntEvent
latest_event ont [] = none
latest_event ont (e ∷ es) =
    let best = latest_event ont es in if nat_beq e.ont_id ont then some (newer e best) else best

abbrev pub close_row : ℕ → OntEvent → OntEvent → OntEvent
close_row now previous e =
    if nat_beq e.id previous.id
    then record e { duration_seconds = some (seconds_between previous.event_time now) }
    else e

unfoldable pub close_event : ℕ → OntEvent → List OntEvent → List OntEvent
close_event now previous [] = []
close_event now previous (e ∷ es) = close_row now previous e ∷ close_event now previous es

-- The row's identifier is set where it is inserted.
abbrev pub opened : ℕ → StatusChange → OntEvent
opened now c = record {
  id = 0;
  ont_id = c.ont_id;
  event_type = c.event_type;
  event_time = now;
  reason = c.reason;
  duration_seconds = none;
}

-- The loop over the page, with the events that were read before it: the rows, and what it opens.
unfoldable pub record_changes :
    ℕ → List OntEvent → List StatusChange → List OntEvent → List OntEvent × List OntEvent
record_changes now history [] rows = (rows, [])
record_changes now history (c ∷ cs) rows = elim (latest_event c.ont_id history) [
  | none ↦ let (kept, more) = record_changes now history cs rows in (kept, opened now c ∷ more)
  | some previous ↦
      let same = record_changes now history cs rows in
      let (kept, more) = record_changes now history cs (close_event now previous rows) in
      if previous.event_type == c.event_type then same else (kept, opened now c ∷ more)
]

-- `CreateInBatches`.
unfoldable pub numbered : ℕ → List OntEvent → List OntEvent
numbered next [] = []
numbered next (e ∷ es) = record e { id = next } ∷ numbered (next + 1) es

unfoldable pub create : List OntEvent → Table → Table
create [] t = t
create (e ∷ es) t = record {
  next_id = t.next_id + length (e ∷ es);
  rows = t.rows ++ numbered t.next_id (e ∷ es);
}

-- `none` is an error, with the table as it was.
unfoldable pub log_status_changes : ℕ → List StatusChange → Table → Option Table
log_status_changes now [] t = some t
log_status_changes now (c ∷ cs) t =
    if not (valid_status_changes (c ∷ cs))
    then none
    else let (rows, more) = record_changes now t.rows (c ∷ cs) t.rows in
      some (create more (record t { rows = rows }))
