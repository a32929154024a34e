-- ===== src/Services/ZteRegister.antt =====
-- backend/internal/models/zte_provisioning.go, and the classes of texts of
-- services/zte_provision_validator.go: a request to register an ONU on a ZTE OLT. A string is the list
-- of its runes; `is_letter` and `is_digit` are those of package unicode, of which the tables beyond
-- Latin-1 are the parameters.
pub mod Validate
pub mod Command
pub mod Accepted
pub mod Plain
pub mod Builds
pub mod Number
mod Tests
use tikman.Prelude.{
  ℕ, ◌+◌, Bool, true, false, not, ◌&&◌, ◌||◌, Option, none, some, List, [], ◌∷◌, ltb, nat_beq,
  if◌then◌else◌, ◌==◌, length,
}
use tikman.Prelude.Bytes.{bytes_eq}
pub use tikman.Services.OnuId.{min_zte_onu_id, max_zte_onu_id}
use tikman.Prelude.Int.{ℤ}
use tikman.Prelude.Text.{
  Text, codes, all_runes, any_rune, within, is_space, is_control, is_ascii_letter, is_ascii_digit,
  is_empty, trim_space,
}

-- The fields that the commands are made from.
pub record Request : Type 0 where
  pub card : ℤ
  pub pon : ℤ
  pub onu_id_mode : Text
  pub onu_id : ℤ
  pub serial_number : Text
  pub onu_type : Text
  pub use_veip : Bool
  pub name : Text
  pub description : Text
  pub service_enabled : Bool
  pub vlan_mode : Text
  pub service_type : Text
  pub vlan_id : ℤ
  pub download_profile : Text
  pub upload_profile : Text
  pub wan_mode : Text
  pub wan_ip_mode : Text
  pub vlan_profile : Text
  pub pppoe_username : Text
  pub pppoe_password : Text

abbrev pub onu_id_auto : Text
onu_id_auto = codes "auto"

abbrev pub onu_id_custom : Text
onu_id_custom = codes "custom"

abbrev pub vlan_mode_tag : Text
vlan_mode_tag = codes "tag"

abbrev pub vlan_mode_untag : Text
vlan_mode_untag = codes "untag"

abbrev pub service_internet : Text
service_internet = codes "internet"

abbrev pub service_bridge : Text
service_bridge = codes "bridge"

abbrev pub wan_mode_wan_ip : Text
wan_mode_wan_ip = codes "wan_ip"

abbrev pub wan_mode_setup_via_ont : Text
wan_mode_setup_via_ont = codes "setup_via_ont"

abbrev pub wan_ip_mode_pppoe : Text
wan_ip_mode_pppoe = codes "pppoe"

abbrev pub wan_ip_mode_dhcp : Text
wan_ip_mode_dhcp = codes "dhcp"

abbrev pub wan_ip_mode_static : Text
wan_ip_mode_static = codes "static"

abbrev pub max_zte_onu_type_length : ℕ
max_zte_onu_type_length = 64

abbrev pub min_vlan_id : ℕ
min_vlan_id = 1

abbrev pub max_vlan_id : ℕ
max_vlan_id = 4094

abbrev pub max_board_id : ℕ
max_board_id = 30

abbrev pub max_pon_id : ℕ
max_pon_id = 16

-- `unicode.IsLetter` and `unicode.IsDigit`.
pub record Unicode : Type 0 where
  pub wide_letter : ℕ → Bool
  pub wide_digit : ℕ → Bool

unfoldable pub is_letter : Unicode → ℕ → Bool
is_letter u c =
    if ltb 0xff c
    then u.wide_letter c
    else is_ascii_letter c
      || nat_beq c 0xaa
      || nat_beq c 0xb5
      || nat_beq c 0xba
      || within 0xc0 0xd6 c
      || within 0xd8 0xf6 c
      || within 0xf8 0xff c

unfoldable pub is_digit : Unicode → ℕ → Bool
is_digit u c = if ltb 0xff c then u.wide_digit c else is_ascii_digit c

-- `^[A-Z0-9]{12}$`.
abbrev pub is_serial_rune : ℕ → Bool
is_serial_rune c = within b'A' b'Z' c || is_ascii_digit c

unfoldable pub serial_pattern : Text → Bool
serial_pattern value = nat_beq (length value) 12 && all_runes is_serial_rune value

abbrev pub is_token_rune : ℕ → Bool
is_token_rune c =
    is_ascii_letter c || is_ascii_digit c || nat_beq c b'-' || nat_beq c b'_' || nat_beq c b'.'

unfoldable pub is_zte_command_token : Text → Bool
is_zte_command_token value = if is_empty value then false else all_runes is_token_rune value

unfoldable pub is_name_rune : Unicode → ℕ → Bool
is_name_rune u c =
    is_letter u c
    || is_digit u c
    || nat_beq c b'-'
    || nat_beq c b'_'
    || nat_beq c b'.'
    || nat_beq c b' '

unfoldable pub is_zte_name : Unicode → Text → Bool
is_zte_name u value =
    if not (trim_space value == value) || is_empty value
    then false
    else all_runes (is_name_rune u) value

-- One of the runes ; ' | ` $ \ and ".
abbrev pub is_meta : ℕ → Bool
is_meta c =
    nat_beq c 0x3b
    || nat_beq c 0x27
    || nat_beq c 0x7c
    || nat_beq c 0x60
    || nat_beq c 0x24
    || nat_beq c 0x5c
    || nat_beq c 0x22

abbrev pub is_credential_rune : ℕ → Bool
is_credential_rune c = not (is_control c || is_meta c)

unfoldable pub is_zte_credential : Text → Bool
is_zte_credential value =
    if is_empty value || any_rune is_space value then false else all_runes is_credential_rune value
