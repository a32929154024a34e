-- ===== src/Services/OnuId.antt =====
-- backend/internal/services/zte_gpon_onu_id.go: the ONU number of a registration on a PON port.
-- The numbers of the port's rows are a list; the lock on the port makes the call one step.
pub mod Free
mod Tests
use tikman.Prelude.{
  ℕ, zero, suc, ◌+◌, ◌-◌, Bool, true, false, Option, none, some, List, [], ◌∷◌, ltb, leb, nat_beq,
  if◌then◌else◌,
}

-- The set `used`, as a test.
abbrev pub is_used : ℕ → List ℕ → Bool
is_used id [] = false
is_used id (u ∷ used) = if nat_beq u id then true else is_used id used

abbrev pub min_zte_onu_id : ℕ
min_zte_onu_id = 1

abbrev pub max_zte_onu_id : ℕ
max_zte_onu_id = 127

pub data Reservation : Type 0 where
  reserved : ℕ → Reservation
  already_used : Reservation
  no_free_id : Reservation

-- The loop from the least number on, for the rounds that are left.
unfoldable pub first_free : ℕ → ℕ → List ℕ → Reservation
first_free zero id used = no_free_id
first_free (suc n) id used =
    let rest = first_free n (id + 1) used in if is_used id used then rest else reserved id

-- A request of zero or less asks for any number.
unfoldable pub resolve_onu_id : ℕ → List ℕ → Reservation
resolve_onu_id requested used =
    if ltb 0 requested
    then (if is_used requested used then already_used else reserved requested)
    else first_free (max_zte_onu_id + 1 - min_zte_onu_id) min_zte_onu_id used
