-- ===== src/Services/ZteRegister/Number.antt =====
-- backend/internal/services/zte_provision_validator.go: `ResolveZTEONUID`, beside the function of
-- zte_gpon_onu_id.go that chooses the number under the lock of the port.
use tikman.Prelude.{
  ℕ, ◌+◌, ◌-◌, ◌≤◌, ◌≡◌, arith, ◌||◌, List, ltb, if◌then◌else◌, inl, inr, Bool-cases,
}
use tikman.Prelude.Int.{ℤ, pos, negsuc}
use tikman.Services.OnuId.{
  is_used, min_zte_onu_id, max_zte_onu_id, Reservation, reserved, already_used, first_free,
  resolve_onu_id,
}
use tikman.Services.ZteRegister.{max_board_id, max_pon_id}
use tikman.Services.ZteRegister.Validate.{out_of_range}

pub data Resolution : Type 0 where
  port_out_of_range : Resolution
  number_out_of_range : Resolution
  resolved : Reservation → Resolution

-- `requestedID != 0`, for a number that is not negative.
unfoldable pub choose : ℤ → List ℕ → Reservation
choose (negsuc n) used = first_free (max_zte_onu_id + 1 - min_zte_onu_id) min_zte_onu_id used
choose (pos n) used =
    if ltb 0 n
    then (if is_used n used then already_used else reserved n)
    else first_free (max_zte_onu_id + 1 - min_zte_onu_id) min_zte_onu_id used

unfoldable pub resolve_zte_onu_id : ℤ → ℤ → ℤ → List ℕ → Resolution
resolve_zte_onu_id slot port requested used =
    if out_of_range 1 max_board_id slot || out_of_range 1 max_pon_id port
    then port_out_of_range
    else if out_of_range 0 max_zte_onu_id requested
    then number_out_of_range
    else resolved (choose requested used)

-- The two functions that choose a number agree on every port of a chassis and every request up to the
-- greatest number; a request beyond it is refused by one of them only.
pub resolve_zte_onu_id-resolve_onu_id :
    (slot port requested : ℕ) (used : List ℕ)
    → (1 ≤ slot) × (slot ≤ max_board_id)
    → (1 ≤ port) × (port ≤ max_pon_id)
    → resolve_zte_onu_id (pos slot) (pos port) (pos requested) used ≡ (
        if ltb max_zte_onu_id requested
        then number_out_of_range
        else resolved (resolve_onu_id requested used))
unfolding resolve_zte_onu_id choose resolve_onu_id
resolve_zte_onu_id-resolve_onu_id slot port requested used (a, b) (c, d) =
    elim (Bool-cases (ltb max_zte_onu_id requested)) [
      | inl e ↦ ground (arith, a, b, c, d, e)
      | inr e ↦ ground (arith, a, b, c, d, e)
    ]
