-- ===== src/Services/ZteRegister/Builds.antt =====
-- backend/internal/services/zte_command_builder.go: a request that the validator accepts gets its
-- commands, and the preview of them tells nothing of the password.
use tikman.Prelude.{
  ℕ, ◌≡◌, refl, sym, arith, Bool, true, false, none, some, List, ◌∷◌, ◌++◌, inl, inr, Option-cases,
  drop, ap, ◌∙◌,
}
use tikman.Prelude.Bytes.{bytes_eq}
use tikman.Prelude.Int.{ℤ, pos, ltb_int}
use tikman.Prelude.Text.{Text, codes}
use tikman.Services.ZteRegister.{
  Request, Unicode, is_zte_credential, min_zte_onu_id, max_zte_onu_id, max_board_id, max_pon_id,
}
use tikman.Services.ZteRegister.Validate.{OltModel, validate}
use tikman.Services.ZteRegister.Accepted.{
  IsWithin, IsIdentity, IsService, IsWan, on_ont, pppoe, plain, out_of_range-IsWithin, IsLabel-iff,
  either_iff, same_text, token-trim_space,
}
use tikman.Services.ZteRegister.Accepted.All.{IsRegistrable, validate-IsRegistrable}
use tikman.Services.ZteRegister.Command.{
  Fault, validate_command_wan, has_bad_field, validate_command_service, validate_command_request,
  build_service_commands, build_register_commands, registration, built, refused,
  build_interface_section, build_management_section, wan_lines, wan_ip_line, zte_service_label,
  build_onu_service, build_service_port, veip_line,
}

wan-passes : (req : Request) → IsWan req → validate_command_wan req ≡ none
unfolding validate_command_wan
wan-passes req (on_ont setup a b) = rw setup refl
wan-passes req (pppoe mode other token p (user, password)) =
    rw (mode, p, token, user, password) refl
wan-passes req (plain mode other token (inl m) c) = rw (mode, m, token) refl
wan-passes req (plain mode other token (inr m) c) = rw (mode, m, token) refl

fields-pass :
    (u : Unicode) (req : Request) → IsIdentity u req → IsService req → has_bad_field u req ≡ false
unfolding has_bad_field
fields-pass u req identity service =
    let name = (IsLabel-iff u req.name).1 identity.name in
    let description = (IsLabel-iff u req.description).1 identity.description in
    rw
      (name, description, identity.onu_type, service.profile, service.same_profile, service.profile)
      refl

positive : (hi : ℕ) (x : ℤ) → IsWithin 1 hi x → ltb_int x (pos 1) ≡ false
positive hi x (n, e, a, b) = rw e (ground arith)

service-passes : (req : Request) → IsService req → validate_command_service req ≡ none
service-passes req h = rw (h.enabled, (out_of_range-IsWithin _ _ _).1 h.vlan_id) refl

request-passes :
    (u : Unicode) (req : Request) (model : OltModel) (onu_id : ℤ)
    → IsRegistrable u req model
    → IsWithin min_zte_onu_id max_zte_onu_id onu_id
    → validate_command_request u req onu_id ≡ none
unfolding validate_command_request
request-passes u req model onu_id h range =
    rw
      (
        positive max_board_id req.card h.position.card,
        positive max_pon_id req.pon h.position.pon,
        (out_of_range-IsWithin _ _ _).1 range,
        h.identity.serial,
        token-trim_space req.onu_type h.identity.onu_type,
        fields-pass u req h.identity h.service,
        (same_text _ _).1 (sym h.service.same_profile),
        (either_iff _ _ _).1 h.service.vlan_mode,
        (either_iff _ _ _).1 h.service.service_type,
        wan-passes req h.wan,
      )
      (service-passes req h.service)

service_lines : Request → ℤ → Bool → List Text
service_lines req onu_id include_password =
    codes "configure terminal" ∷ build_interface_section req onu_id
    ++ build_management_section req onu_id include_password

service-built :
    (u : Unicode) (req : Request) (onu_id : ℤ) (include_password : Bool)
    → validate_command_request u req onu_id ≡ none
    → build_service_commands u req onu_id include_password
      ≡ built (service_lines req onu_id include_password)
unfolding build_service_commands service_lines
service-built u req onu_id include_password h = rw (h, build_service_commands) refl

register-built :
    (u : Unicode) (req : Request) (onu_id : ℤ) (include_password : Bool)
    → validate_command_request u req onu_id ≡ none
    → build_register_commands u req onu_id include_password
      ≡ built (registration req onu_id ++ drop 1 (service_lines req onu_id include_password))
unfolding build_register_commands
register-built u req onu_id include_password h =
    rw (h, build_register_commands, service-built u req onu_id include_password h) refl

service-refused :
    (u : Unicode) (req : Request) (onu_id : ℤ) (fault : Fault)
    → validate_command_request u req onu_id ≡ some fault
    → build_service_commands u req onu_id false ≡ refused fault
unfolding build_service_commands
service-refused u req onu_id fault h = rw (h, build_service_commands) refl

register-refused :
    (u : Unicode) (req : Request) (onu_id : ℤ) (fault : Fault)
    → validate_command_request u req onu_id ≡ some fault
    → build_register_commands u req onu_id false ≡ refused fault
unfolding build_register_commands
register-refused u req onu_id fault h = rw (h, build_register_commands) refl

-- A request that `ValidateZTEGPONRegister` accepts gets its commands for every ONU number of the
-- range, with or without the password: the second check never refuses what the first let through.
pub validate-builds :
    (u : Unicode) (req : Request) (model : OltModel) (onu_id : ℤ) (include_password : Bool)
    → validate u req (some model) ≡ none
    → IsWithin min_zte_onu_id max_zte_onu_id onu_id
    → ((commands : List Text) × (build_register_commands u req onu_id include_password
          ≡ built commands))
      × ((commands : List Text) × (build_service_commands u req onu_id include_password
            ≡ built commands))
validate-builds u req model onu_id include_password h range =
    let passes =
      request-passes u req model onu_id ((validate-IsRegistrable u req model).0.0 h) range in
    (
      (_, register-built u req onu_id include_password passes),
      (_, service-built u req onu_id include_password passes),
    )

-- The request with another password.
abbrev pub with_password : Text → Request → Request
with_password password req = record req { pppoe_password = password }

same-wan :
    (req : Request) (p q : Text)
    → is_zte_credential p ≡ true
    → is_zte_credential q ≡ true
    → validate_command_wan (with_password p req) ≡ validate_command_wan (with_password q req)
unfolding validate_command_wan
same-wan req p q h k = rw (h, k) refl

same-request :
    (u : Unicode) (req : Request) (onu_id : ℤ) (p q : Text)
    → is_zte_credential p ≡ true
    → is_zte_credential q ≡ true
    → validate_command_request u (with_password p req) onu_id
      ≡ validate_command_request u (with_password q req) onu_id
unfolding validate_command_request has_bad_field
same-request u req onu_id p q h k = rw (same-wan req p q h k) refl

same-lines :
    (req : Request) (onu_id : ℤ) (p q : Text)
    → service_lines (with_password p req) onu_id false
      ≡ service_lines (with_password q req) onu_id false
unfolding service_lines build_interface_section build_management_section wan_lines wan_ip_line
    zte_service_label build_onu_service build_service_port veip_line
same-lines req onu_id p q = refl

-- The preview of the commands tells nothing of the password: for a request with one acceptable
-- password and with another, `BuildZTEGPONRegisterCommands` and `BuildZTEGPONServiceCommands` answer
-- with the same lines, or with the same error.
pub build_commands-hides_password :
    (u : Unicode) (req : Request) (onu_id : ℤ) (p q : Text)
    → is_zte_credential p ≡ true
    → is_zte_credential q ≡ true
    → (build_register_commands u (with_password p req) onu_id false
        ≡ build_register_commands u (with_password q req) onu_id false)
      × (build_service_commands u (with_password p req) onu_id false
          ≡ build_service_commands u (with_password q req) onu_id false)
unfolding registration
build_commands-hides_password u req onu_id p q h k =
    let same = same-request u req onu_id p q h k in
    elim (Option-cases (validate_command_request u (with_password q req) onu_id)) [
      | inl e ↦ (
        register-built u _ onu_id false (same ∙ e)
            ∙ ap (λ l. built (registration (with_password q req) onu_id ++ drop 1 l))
                (same-lines req onu_id p q)
            ∙ sym (register-built u _ onu_id false e),
        service-built u _ onu_id false (same ∙ e)
            ∙ ap built (same-lines req onu_id p q)
            ∙ sym (service-built u _ onu_id false e),
      )
      | inr (fault, e) ↦ (
        register-refused u _ onu_id fault (same ∙ e) ∙ sym (register-refused u _ onu_id fault e),
        service-refused u _ onu_id fault (same ∙ e) ∙ sym (service-refused u _ onu_id fault e),
      )
    ]
