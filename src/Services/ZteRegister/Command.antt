-- ===== src/Services/ZteRegister/Command.antt =====
-- backend/internal/services/zte_command_builder.go: the CLI lines of a registration, and the checks
-- that are made again before them. A slice of strings is a list of texts.
use tikman.Prelude.{
  Bool, not, ◌&&◌, ◌||◌, Option, none, some, List, [], ◌∷◌, ◌++◌, if◌then◌else◌, ◌==◌, drop,
}
use tikman.Prelude.Bytes.{bytes_eq}
use tikman.Prelude.Int.{ℤ, pos, ltb_int}
use tikman.Prelude.Text.{Text, codes, is_empty, trim_space, to_upper, decimal, format}
use tikman.Services.ZteRegister.{
  Request, Unicode, vlan_mode_tag, vlan_mode_untag, service_internet, service_bridge,
  wan_mode_wan_ip, wan_mode_setup_via_ont, wan_ip_mode_pppoe, min_zte_onu_id, max_zte_onu_id,
  min_vlan_id, max_vlan_id, serial_pattern, is_zte_command_token, is_zte_name, is_zte_credential,
}
use tikman.Services.ZteRegister.Validate.{out_of_range, is_wan_ip_mode}

pub data Fault : Type 0 where
  position_not_positive : Fault
  onu_id_range : Fault
  serial_malformed : Fault
  onu_type_missing : Fault
  fields_characters : Fault
  profiles_differ : Fault
  vlan_mode_unsupported : Fault
  service_type_unsupported : Fault
  wan_mode_unsupported : Fault
  wan_ip_mode_unsupported : Fault
  service_disabled : Fault
  vlan_id_range : Fault

unfoldable pub validate_command_wan : Request → Option Fault
validate_command_wan req =
    if not (req.wan_mode == wan_mode_wan_ip) && not (req.wan_mode == wan_mode_setup_via_ont)
    then some wan_mode_unsupported
    else if not (req.wan_mode == wan_mode_wan_ip)
    then none
    else if not (is_wan_ip_mode req.wan_ip_mode)
    then some wan_ip_mode_unsupported
    else if not (is_zte_command_token req.vlan_profile)
    then some fields_characters
    else if (req.wan_ip_mode == wan_ip_mode_pppoe)
        && (not (is_zte_credential req.pppoe_username)
            || not (is_zte_credential req.pppoe_password))
    then some fields_characters
    else none

unfoldable pub has_bad_field : Unicode → Request → Bool
has_bad_field u req =
    (not (is_empty (trim_space req.name)) && not (is_zte_name u req.name))
    || (not (is_empty (trim_space req.description)) && not (is_zte_name u req.description))
    || not (is_zte_command_token req.onu_type)
    || not (is_zte_command_token req.download_profile)
    || not (is_zte_command_token req.upload_profile)

-- The checks behind those of the WAN.
abbrev pub validate_command_service : Request → Option Fault
validate_command_service req =
    if not req.service_enabled
    then some service_disabled
    else if out_of_range min_vlan_id max_vlan_id req.vlan_id
    then some vlan_id_range
    else none

unfoldable pub validate_command_request : Unicode → Request → ℤ → Option Fault
validate_command_request u req onu_id =
    if ltb_int req.card (pos 1) || ltb_int req.pon (pos 1)
    then some position_not_positive
    else if out_of_range min_zte_onu_id max_zte_onu_id onu_id
    then some onu_id_range
    else if not (serial_pattern (to_upper (trim_space req.serial_number)))
    then some serial_malformed
    else if is_empty (trim_space req.onu_type)
    then some onu_type_missing
    else if has_bad_field u req
    then some fields_characters
    else if not (req.download_profile == req.upload_profile)
    then some profiles_differ
    else if not (req.vlan_mode == vlan_mode_tag) && not (req.vlan_mode == vlan_mode_untag)
    then some vlan_mode_unsupported
    else if not (req.service_type == service_internet) && not (req.service_type == service_bridge)
    then some service_type_unsupported
    else elim (validate_command_wan req) [
      | some fault ↦ some fault
      | none ↦ validate_command_service req
    ]

unfoldable pub zte_service_label : Request → Text
zte_service_label req =
    if req.service_type == service_bridge then codes "bridge" else codes "internet"

unfoldable pub build_onu_service : Request → Text
build_onu_service req =
    if req.vlan_mode == vlan_mode_untag
    then format (codes "service " ∷ zte_service_label req ∷ codes " gemport 1 untag" ∷ [])
    else format (
        codes "service "
        ∷ zte_service_label req
        ∷ codes " gemport 1 vlan "
        ∷ decimal req.vlan_id
        ∷ [])

unfoldable pub build_service_port : Request → Text
build_service_port req =
    if req.vlan_mode == vlan_mode_untag
    then format (codes "service-port 1 vport 1 user-vlan untagged vlan " ∷ decimal req.vlan_id ∷ [])
    else format (
        codes "service-port 1 vport 1 user-vlan "
        ∷ decimal req.vlan_id
        ∷ codes " vlan "
        ∷ decimal req.vlan_id
        ∷ [])

-- A line of a text that is left out where the text is blank.
unfoldable pub optional_line : Text → Text → List Text
optional_line word value =
    let trimmed = trim_space value in
    if is_empty trimmed then [] else format (word ∷ trimmed ∷ []) ∷ []

-- `gpon-onu_1/%d/%d:%d`, behind a word.
abbrev pub onu_line : Text → Request → ℤ → Text
onu_line word req onu_id = format (
    word
    ∷ codes " gpon-onu_1/"
    ∷ decimal req.card
    ∷ codes "/"
    ∷ decimal req.pon
    ∷ codes ":"
    ∷ decimal onu_id
    ∷ [])

unfoldable pub build_interface_section : Request → ℤ → List Text
build_interface_section req onu_id =
    onu_line (codes "interface") req onu_id ∷ optional_line (codes "name ") req.name
    ++ (optional_line (codes "description ") req.description
        ++ (format (
              codes "tcont 1 name "
              ∷ zte_service_label req
              ∷ codes " profile "
              ∷ req.download_profile
              ∷ [])
            ∷ format (codes "gemport 1 name " ∷ zte_service_label req ∷ codes " tcont 1" ∷ [])
            ∷ build_service_port req
            ∷ codes "exit"
            ∷ []))

unfoldable pub veip_line : Request → List Text
veip_line req =
    if req.use_veip
    then format (codes "vlan port veip_1 mode tag vlan " ∷ decimal req.vlan_id ∷ []) ∷ []
    else []

unfoldable pub wan_ip_line : Request → Bool → Text
wan_ip_line req include_password =
    if req.wan_ip_mode == wan_ip_mode_pppoe
    then format (
        codes "wan-ip 1 mode pppoe username "
        ∷ req.pppoe_username
        ∷ codes " password "
        ∷ (if include_password then req.pppoe_password else codes "<redacted>")
        ∷ codes " vlan-profile "
        ∷ req.vlan_profile
        ∷ codes " host 1"
        ∷ [])
    else format (
        codes "wan-ip 1 mode "
        ∷ req.wan_ip_mode
        ∷ codes " vlan-profile "
        ∷ req.vlan_profile
        ∷ codes " host 1"
        ∷ [])

unfoldable pub wan_lines : Request → Bool → List Text
wan_lines req include_password =
    if (req.service_type == service_bridge) || not (req.wan_mode == wan_mode_wan_ip)
    then codes "exit" ∷ []
    else wan_ip_line req include_password
      ∷ codes "wan 1 service internet host 1"
      ∷ codes "exit"
      ∷ []

unfoldable pub build_management_section : Request → ℤ → Bool → List Text
build_management_section req onu_id include_password =
    onu_line (codes "pon-onu-mng") req onu_id ∷ build_onu_service req ∷ veip_line req
    ++ wan_lines req include_password

pub data Built : Type 0 where
  refused : Fault → Built
  built : List Text → Built

unfoldable pub build_service_commands : Unicode → Request → ℤ → Bool → Built
build_service_commands u req onu_id include_password =
    elim (validate_command_request u req onu_id) [
      | some fault ↦ refused fault
      | none ↦ built (
          codes "configure terminal" ∷ build_interface_section req onu_id
          ++ build_management_section req onu_id include_password)
    ]

unfoldable pub registration : Request → ℤ → List Text
registration req onu_id =
    codes "configure terminal"
    ∷ format (codes "interface gpon-olt_1/" ∷ decimal req.card ∷ codes "/" ∷ decimal req.pon ∷ [])
    ∷ format (
        codes "onu "
        ∷ decimal onu_id
        ∷ codes " type "
        ∷ req.onu_type
        ∷ codes " sn "
        ∷ to_upper (trim_space req.serial_number)
        ∷ [])
    ∷ codes "exit"
    ∷ []

unfoldable pub build_register_commands : Unicode → Request → ℤ → Bool → Built
build_register_commands u req onu_id include_password =
    elim (validate_command_request u req onu_id) [
      | some fault ↦ refused fault
      | none ↦ elim (build_service_commands u req onu_id include_password) [
        | refused fault ↦ refused fault
        | built service ↦ built (registration req onu_id ++ drop 1 service)
      ]
    ]
