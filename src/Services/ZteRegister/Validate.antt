-- ===== src/Services/ZteRegister/Validate.antt =====
-- backend/internal/services/zte_provision_validator.go: `ValidateZTEGPONRegister`. A validator answers
-- `none` for Go's nil error; an error is named after its message.
use tikman.Prelude.{
  ℕ, Bool, true, false, not, ◌&&◌, ◌||◌, Option, none, some, ltb, if◌then◌else◌, ◌==◌, length,
}
use tikman.Prelude.Bytes.{bytes_eq}
use tikman.Prelude.Int.{ℤ, pos, ltb_int, is_zero}
use tikman.Prelude.Text.{Text, any_rune, is_space, is_empty, trim_space, to_upper}
use tikman.Services.ZteRegister.{
  Request, Unicode, onu_id_auto, onu_id_custom, vlan_mode_tag, vlan_mode_untag, service_internet,
  service_bridge, wan_mode_wan_ip, wan_mode_setup_via_ont, wan_ip_mode_pppoe, wan_ip_mode_dhcp,
  wan_ip_mode_static, min_zte_onu_id, max_zte_onu_id, max_zte_onu_type_length, min_vlan_id,
  max_vlan_id, max_board_id, max_pon_id, serial_pattern, is_zte_command_token, is_zte_name,
  is_zte_credential,
}

pub data OltModel : Type 0 where
  zte_c300 : OltModel
  zte_c320 : OltModel
  hsgq : OltModel

pub data Refusal : Type 0 where
  unsupported_olt : Refusal
  card_range : Refusal
  pon_range : Refusal
  auto_onu_id_not_zero : Refusal
  custom_onu_id_range : Refusal
  onu_id_mode_unknown : Refusal
  serial_malformed : Refusal
  onu_type_missing : Refusal
  onu_type_too_long : Refusal
  onu_type_characters : Refusal
  name_characters : Refusal
  description_characters : Refusal
  vlan_mode_unknown : Refusal
  profile_characters : Refusal
  profiles_differ : Refusal
  service_disabled : Refusal
  vlan_id_range : Refusal
  service_type_unknown : Refusal
  wan_mode_unknown : Refusal
  bridge_without_wan : Refusal
  untagged_without_wan : Refusal
  wan_details_unused : Refusal
  wan_ip_mode_unknown : Refusal
  vlan_profile_characters : Refusal
  credentials_unused : Refusal
  username_missing : Refusal
  username_characters : Refusal
  username_whitespace : Refusal
  password_missing : Refusal
  password_characters : Refusal
  password_whitespace : Refusal

-- `x < lo || x > hi`.
abbrev pub out_of_range : ℕ → ℕ → ℤ → Bool
out_of_range lo hi x = ltb_int x (pos lo) || ltb_int (pos hi) x

unfoldable pub validate_onu_id : Request → Option Refusal
validate_onu_id req =
    if req.onu_id_mode == onu_id_auto
    then (if is_zero req.onu_id then none else some auto_onu_id_not_zero)
    else if req.onu_id_mode == onu_id_custom
    then (if out_of_range min_zte_onu_id max_zte_onu_id req.onu_id
        then some custom_onu_id_range
        else none)
    else some onu_id_mode_unknown

unfoldable pub validate_position : Request → Option Refusal
validate_position req =
    if out_of_range 1 max_board_id req.card
    then some card_range
    else if out_of_range 1 max_pon_id req.pon
    then some pon_range
    else validate_onu_id req

unfoldable pub validate_identity : Unicode → Request → Option Refusal
validate_identity u req =
    if not (serial_pattern (to_upper (trim_space req.serial_number)))
    then some serial_malformed
    else if is_empty (trim_space req.onu_type)
    then some onu_type_missing
    else if ltb max_zte_onu_type_length (length req.onu_type)
    then some onu_type_too_long
    else if not (is_zte_command_token req.onu_type)
    then some onu_type_characters
    else if not (is_empty (trim_space req.name)) && not (is_zte_name u req.name)
    then some name_characters
    else if not (is_empty (trim_space req.description)) && not (is_zte_name u req.description)
    then some description_characters
    else none

unfoldable pub validate_service : Request → Option Refusal
validate_service req =
    if not (req.vlan_mode == vlan_mode_tag) && not (req.vlan_mode == vlan_mode_untag)
    then some vlan_mode_unknown
    else if not (is_zte_command_token req.download_profile)
        || not (is_zte_command_token req.upload_profile)
    then some profile_characters
    else if not (req.download_profile == req.upload_profile)
    then some profiles_differ
    else if not req.service_enabled
    then some service_disabled
    else if out_of_range min_vlan_id max_vlan_id req.vlan_id
    then some vlan_id_range
    else if not (req.service_type == service_internet) && not (req.service_type == service_bridge)
    then some service_type_unknown
    else none

unfoldable pub validate_pppoe_credentials : Request → Option Refusal
validate_pppoe_credentials req =
    if is_empty req.pppoe_username
    then some username_missing
    else if not (is_zte_credential req.pppoe_username)
    then some username_characters
    else if any_rune is_space req.pppoe_username
    then some username_whitespace
    else if is_empty req.pppoe_password
    then some password_missing
    else if not (is_zte_credential req.pppoe_password)
    then some password_characters
    else if any_rune is_space req.pppoe_password
    then some password_whitespace
    else none

abbrev pub is_wan_ip_mode : Text → Bool
is_wan_ip_mode mode =
    (mode == wan_ip_mode_pppoe) || (mode == wan_ip_mode_dhcp) || (mode == wan_ip_mode_static)

-- The part of the WAN that only the mode wan_ip has.
unfoldable pub validate_wan_ip : Request → Option Refusal
validate_wan_ip req =
    if not (is_wan_ip_mode req.wan_ip_mode)
    then some wan_ip_mode_unknown
    else if not (is_zte_command_token req.vlan_profile)
    then some vlan_profile_characters
    else if not (req.wan_ip_mode == wan_ip_mode_pppoe)
    then (if not (is_empty req.pppoe_username) || not (is_empty req.pppoe_password)
        then some credentials_unused
        else none)
    else validate_pppoe_credentials req

unfoldable pub validate_wan : Request → Option Refusal
validate_wan req =
    if not (req.wan_mode == wan_mode_wan_ip) && not (req.wan_mode == wan_mode_setup_via_ont)
    then some wan_mode_unknown
    else if (req.service_type == service_bridge) && not (req.wan_mode == wan_mode_setup_via_ont)
    then some bridge_without_wan
    else if (req.vlan_mode == vlan_mode_untag) && not (req.wan_mode == wan_mode_setup_via_ont)
    then some untagged_without_wan
    else if req.wan_mode == wan_mode_setup_via_ont
    then (if not (is_empty req.wan_ip_mode)
          || not (is_empty req.vlan_profile)
          || not (is_empty req.pppoe_username)
          || not (is_empty req.pppoe_password)
        then some wan_details_unused
        else none)
    else validate_wan_ip req

abbrev pub is_zte_model : OltModel → Bool
is_zte_model zte_c300 = true
is_zte_model zte_c320 = true
is_zte_model hsgq = false

-- `if err := …; err != nil { return err }`.
abbrev pub or_else : Option Refusal → Option Refusal → Option Refusal
or_else (some e) rest = some e
or_else none rest = rest

-- A nil OLT is `none`.
unfoldable pub validate : Unicode → Request → Option OltModel → Option Refusal
validate u req none = some unsupported_olt
validate u req (some model) =
    if not (is_zte_model model)
    then some unsupported_olt
    else or_else (validate_position req)
        (or_else (validate_identity u req) (or_else (validate_service req) (validate_wan req)))
