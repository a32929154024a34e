-- ===== src/Services/ZteRegister/Tests.antt =====
-- backend/internal/services/zte_provision_validator.go and zte_command_builder.go: a PPPoE service.
use tikman.Prelude.{◌≡◌, ◌↔◌, refl, arith, true, false, none, some, List, [], ◌∷◌, All}
use tikman.Prelude.Int.{pos}
use tikman.Prelude.Text.{
  Text, codes, all_runes, any_rune, is_space, trim_left, trim_right, digits, format,
}
use tikman.Services.ZteRegister.{
  Request, Unicode, is_letter, is_digit, serial_pattern, is_zte_command_token, is_name_rune,
  is_zte_name, is_zte_credential, onu_id_auto, vlan_mode_tag, service_internet, wan_mode_wan_ip,
  wan_ip_mode_pppoe,
}
use tikman.Services.ZteRegister.Validate.{
  validate, validate_onu_id, validate_position, validate_identity, validate_service, validate_wan,
  validate_wan_ip, validate_pppoe_credentials, zte_c300, unsupported_olt, card_range,
}
use tikman.Services.ZteRegister.Accepted.All.{IsRegistrable, validate-IsRegistrable}
use tikman.Services.ZteRegister.Command.{
  built, build_register_commands, build_service_commands, validate_command_request,
  validate_command_wan, has_bad_field, zte_service_label, build_onu_service, build_service_port,
  optional_line, build_interface_section, veip_line, wan_ip_line, wan_lines,
  build_management_section, registration,
}
use tikman.Services.ZteRegister.Plain.{IsPlain}
use tikman.Services.ZteRegister.Plain.Commands.{build_commands-IsPlain}
use tikman.Services.ZteRegister.Builds.{
  validate-builds, with_password, build_commands-hides_password,
}

-- Tables without a letter or a digit beyond Latin-1.
abbrev latin : Unicode
latin = record { wide_letter = λ c. false; wide_digit = λ c. false }

abbrev request : Request
request = record {
  card = pos 3;
  pon = pos 12;
  onu_id_mode = onu_id_auto;
  onu_id = pos 0;
  serial_number = codes " zteg12345678";
  onu_type = codes "F660";
  use_veip = false;
  name = codes "Budi Santoso";
  description = codes " ";
  service_enabled = true;
  vlan_mode = vlan_mode_tag;
  service_type = service_internet;
  vlan_id = pos 100;
  download_profile = codes "50M";
  upload_profile = codes "50M";
  wan_mode = wan_mode_wan_ip;
  wan_ip_mode = wan_ip_mode_pppoe;
  vlan_profile = codes "inet";
  pppoe_username = codes "budi@isp";
  pppoe_password = codes "rahasia";
}

abbrev service_lines : List Text
service_lines =
    codes "interface gpon-onu_1/3/12:7"
    ∷ codes "name Budi Santoso"
    ∷ codes "tcont 1 name internet profile 50M"
    ∷ codes "gemport 1 name internet tcont 1"
    ∷ codes "service-port 1 vport 1 user-vlan 100 vlan 100"
    ∷ codes "exit"
    ∷ codes "pon-onu-mng gpon-onu_1/3/12:7"
    ∷ codes "service internet gemport 1 vlan 100"
    ∷ codes "wan-ip 1 mode pppoe username budi@isp password rahasia vlan-profile inet host 1"
    ∷ codes "wan 1 service internet host 1"
    ∷ codes "exit"
    ∷ []

abbrev register_lines : List Text
register_lines =
    codes "configure terminal"
    ∷ codes "interface gpon-olt_1/3/12"
    ∷ codes "onu 7 type F660 sn ZTEG12345678"
    ∷ codes "exit"
    ∷ service_lines

serving :
    build_service_commands latin request (pos 7) true
    ≡ built (codes "configure terminal" ∷ service_lines)
unfolding build_service_commands validate_command_request validate_command_wan has_bad_field
    serial_pattern is_zte_command_token is_zte_name is_zte_credential is_name_rune is_letter
    is_digit all_runes any_rune is_space trim_left trim_right digits format zte_service_label
    build_onu_service build_service_port optional_line build_interface_section veip_line wan_ip_line
    wan_lines build_management_section
serving = refl

registering : build_register_commands latin request (pos 7) true ≡ built register_lines
unfolding build_register_commands registration build_service_commands validate_command_request
    validate_command_wan has_bad_field serial_pattern is_zte_command_token is_zte_name
    is_zte_credential is_name_rune is_letter is_digit all_runes any_rune is_space trim_left
    trim_right digits format zte_service_label build_onu_service build_service_port optional_line
    build_interface_section veip_line wan_ip_line wan_lines build_management_section
registering = refl

accepted : validate latin request (some zte_c300) ≡ none
unfolding validate validate_position validate_onu_id validate_identity validate_service validate_wan
    validate_wan_ip validate_pppoe_credentials serial_pattern is_zte_command_token is_zte_name
    is_zte_credential is_name_rune is_letter is_digit all_runes any_rune is_space trim_left
    trim_right
accepted = refl

wrong_card : validate latin (record request { card = pos 31 }) (some zte_c300) ≡ some card_range
unfolding validate validate_position
wrong_card = refl

validate-IsRegistrable_example :
    ((validate latin request (some zte_c300) ≡ none) ↔ IsRegistrable latin request zte_c300)
    × (validate latin request none ≡ some unsupported_olt)
validate-IsRegistrable_example = validate-IsRegistrable latin request zte_c300

build_commands-IsPlain_example :
    All IsPlain register_lines × All IsPlain (codes "configure terminal" ∷ service_lines)
build_commands-IsPlain_example =
    build_commands-IsPlain latin request (pos 7) true register_lines
      (codes "configure terminal" ∷ service_lines) registering serving

validate-builds_example :
    ((commands : List Text) × (build_register_commands latin request (pos 7) false
        ≡ built commands))
    × ((commands : List Text) × (build_service_commands latin request (pos 7) false
          ≡ built commands))
validate-builds_example =
    validate-builds latin request zte_c300 (pos 7) false accepted
      (7, refl, ground arith, ground arith)

build_commands-hides_password_example :
    (build_register_commands latin (with_password (codes "satu") request) (pos 7) false
      ≡ build_register_commands latin (with_password (codes "dua2") request) (pos 7) false)
    × (build_service_commands latin (with_password (codes "satu") request) (pos 7) false
        ≡ build_service_commands latin (with_password (codes "dua2") request) (pos 7) false)
unfolding is_zte_credential any_rune is_space all_runes
build_commands-hides_password_example =
    build_commands-hides_password latin request (pos 7) (codes "satu") (codes "dua2") refl refl
