-- ===== src/Services/ZteRegister/Plain.antt =====
-- backend/internal/services/zte_command_builder.go: no rune of a line ends the line or means something
-- to the CLI.
pub mod Checked
pub mod Lines
pub mod Commands
use tikman.Prelude.{
  check-none, ℕ, ◌-◌, ◌≤◌, ◌≡◌, ◌⊎◌, refl, arith, Bool, true, false, not, ◌&&◌, ◌||◌, Option, none,
  some, List, [], ◌∷◌, map, ltb, if◌then◌else◌, ◌==◌, inl, inr, Bool-cases, Option-cases,
}
use tikman.Prelude.Bytes.{bytes_eq}
use tikman.Prelude.Int.{ℤ, pos, negsuc}
use tikman.Prelude.Text.{
  Text, all_runes, all_runes_mono, all_runes-digits, all_runes-trim_left, all_runes-trim_right,
  is_empty, trim_space, to_upper, decimal, is_ascii_digit,
}
use tikman.Services.ZteRegister.{
  Request, Unicode, is_letter, is_digit, is_name_rune, is_token_rune, is_serial_rune,
  is_credential_rune, serial_pattern, is_zte_command_token, is_zte_name, is_zte_credential,
  wan_mode_wan_ip, wan_mode_setup_via_ont, wan_ip_mode_pppoe,
}
use tikman.Services.ZteRegister.Validate.{is_wan_ip_mode}
use tikman.Services.ZteRegister.Accepted.{IsLabel, IsLabel-iff, not_iff}
use tikman.Services.ZteRegister.Command.{
  Fault, validate_command_request, validate_command_wan, has_bad_field,
}

-- No control character, and none of ; ' | ` $ \ and ".
abbrev pub IsPlain : Text → Type 0
IsPlain t = all_runes is_credential_rune t ≡ true

pub token-IsPlain : (t : Text) → is_zte_command_token t ≡ true → IsPlain t
unfolding is_zte_command_token
token-IsPlain t h =
    all_runes_mono is_token_rune is_credential_rune t (λ c e. ground (arith, e)) (ground (arith, h))

pub serial-IsPlain : (t : Text) → serial_pattern t ≡ true → IsPlain t
unfolding serial_pattern
serial-IsPlain t h =
    all_runes_mono is_serial_rune is_credential_rune t (λ c e. ground (arith, e))
      (ground (arith, h))

pub credential-IsPlain : (t : Text) → is_zte_credential t ≡ true → IsPlain t
unfolding is_zte_credential
credential-IsPlain t h = ground (arith, h)

name_rune-plain : (u : Unicode) (c : ℕ) → is_name_rune u c ≡ true → is_credential_rune c ≡ true
unfolding is_name_rune is_letter is_digit
name_rune-plain u c h = elim (Bool-cases (ltb 0xff c)) [
  | inl wide ↦ ground (arith, wide)
  | inr narrow ↦ ground (arith, h, narrow)
]

name-IsPlain : (u : Unicode) (t : Text) → is_zte_name u t ≡ true → IsPlain t
unfolding is_zte_name
name-IsPlain u t h =
    all_runes_mono (is_name_rune u) is_credential_rune t (name_rune-plain u) (ground (arith, h))

-- A blank text leaves nothing behind, and a name only what it has.
pub label-IsPlain : (u : Unicode) (t : Text) → IsLabel u t → IsPlain (trim_space t)
unfolding all_runes
label-IsPlain u t (inl e) = rw e refl
label-IsPlain u t (inr h) =
    all_runes-trim_right is_credential_rune _
      (all_runes-trim_left is_credential_rune t (name-IsPlain u t h))

digits-IsPlain : (fuel n : ℕ) → IsPlain (tikman.Prelude.Text.digits fuel n)
digits-IsPlain fuel n =
    all_runes_mono is_ascii_digit is_credential_rune _ (λ c e. ground (arith, e))
      (all_runes-digits fuel n)

pub decimal-IsPlain : (x : ℤ) → IsPlain (decimal x)
unfolding all_runes
decimal-IsPlain (pos n) = digits-IsPlain n n
decimal-IsPlain (negsuc n) = digits-IsPlain _ _
