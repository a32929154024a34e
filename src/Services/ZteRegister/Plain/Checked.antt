-- ===== src/Services/ZteRegister/Plain/Checked.antt =====
-- backend/internal/services/zte_command_builder.go: what the checks before the lines give.
use tikman.Prelude.{
  check-none, ◌≡◌, ◌⊎◌, refl, arith, Bool, true, false, not, ◌&&◌, ◌||◌, Option, none,
  if◌then◌else◌, ◌==◌, inl, inr, Bool-cases, Option-cases,
}
use tikman.Prelude.Bytes.{bytes_eq}
use tikman.Prelude.Int.{ℤ}
use tikman.Prelude.Text.{Text, all_runes, trim_space, to_upper}
use tikman.Services.ZteRegister.{
  Request, Unicode, serial_pattern, is_zte_credential, wan_mode_wan_ip, wan_ip_mode_pppoe,
}
use tikman.Services.ZteRegister.Validate.{is_wan_ip_mode}
use tikman.Services.ZteRegister.Accepted.{IsLabel-iff, not_iff, all_of_iff, is_wan_ip_mode_iff}
use tikman.Services.ZteRegister.Command.{
  Fault, validate_command_request, validate_command_wan, has_bad_field,
}
use tikman.Services.ZteRegister.Plain.{
  IsPlain, token-IsPlain, serial-IsPlain, credential-IsPlain, label-IsPlain,
}

-- What the last checks before the lines are made give.
pub record IsWanPlain (req : Request) : Type 0 where
  pub mode : IsPlain req.wan_ip_mode
  pub profile : IsPlain req.vlan_profile
  pub credentials :
      ((req.wan_ip_mode == wan_ip_mode_pppoe) ≡ false)
      ⊎ (IsPlain req.pppoe_username × IsPlain req.pppoe_password)

pub record IsChecked (req : Request) : Type 0 where
  pub serial : IsPlain (to_upper (trim_space req.serial_number))
  pub onu_type : IsPlain req.onu_type
  pub profile : IsPlain req.download_profile
  pub name : IsPlain (trim_space req.name)
  pub description : IsPlain (trim_space req.description)
  pub wan : ((req.wan_mode == wan_mode_wan_ip) ≡ false) ⊎ IsWanPlain req

mode-IsPlain : (mode : Text) → is_wan_ip_mode mode ≡ true → IsPlain mode
unfolding all_runes
mode-IsPlain mode h = elim ((is_wan_ip_mode_iff mode).0 h) [
  | inl e ↦ rw e refl
  | inr o ↦ elim o [ inl e ↦ rw e refl | inr e ↦ rw e refl ]
]

checked-credentials :
    (req : Request)
    → ((req.wan_ip_mode == wan_ip_mode_pppoe)
        && (not (is_zte_credential req.pppoe_username)
            || not (is_zte_credential req.pppoe_password)))
      ≡ false
    → ((req.wan_ip_mode == wan_ip_mode_pppoe) ≡ false)
      ⊎ (IsPlain req.pppoe_username × IsPlain req.pppoe_password)
checked-credentials req h = elim (Bool-cases (req.wan_ip_mode == wan_ip_mode_pppoe)) [
  | inr e ↦ inl e
  | inl e ↦
      let (user, password) = (all_of_iff _ _).0 (ground (arith, h, e)) in
      inr
        (credential-IsPlain req.pppoe_username user, credential-IsPlain req.pppoe_password password)
]

unskipped :
    (b : Bool) (rest : Option Fault)
    → (if not b then none else rest) ≡ none
    → b ≡ true
    → rest ≡ none
unskipped true rest h e = h
unskipped false rest h e = absurd (ground arith)

checked-wan :
    (req : Request)
    → validate_command_wan req ≡ none
    → ((req.wan_mode == wan_mode_wan_ip) ≡ false) ⊎ IsWanPlain req
unfolding validate_command_wan
checked-wan req h = elim (Bool-cases (req.wan_mode == wan_mode_wan_ip)) [
  | inr e ↦ inl e
  | inl e ↦
      let (known, a) = (check-none _ _ _).0 h in
      let (mode, b) = (check-none _ _ _).0 (unskipped _ _ a e) in
      let (token, c) = (check-none _ _ _).0 b in
      let (credentials, d) = (check-none _ _ _).0 c in
      inr (record {
        mode = mode-IsPlain req.wan_ip_mode ((not_iff _).0 mode);
        profile = token-IsPlain req.vlan_profile ((not_iff _).0 token);
        credentials = checked-credentials req credentials;
      })
]

fields-IsPlain :
    (u : Unicode) (req : Request)
    → has_bad_field u req ≡ false
    → IsPlain req.onu_type
      × IsPlain req.download_profile
      × IsPlain (trim_space req.name)
      × IsPlain (trim_space req.description)
unfolding has_bad_field
fields-IsPlain u req h = (
  token-IsPlain req.onu_type (ground (arith, h)),
  token-IsPlain req.download_profile (ground (arith, h)),
  label-IsPlain u req.name ((IsLabel-iff u req.name).0 (ground (arith, h))),
  label-IsPlain u req.description ((IsLabel-iff u req.description).0 (ground (arith, h))),
)

pub request-IsChecked :
    (u : Unicode) (req : Request) (onu_id : ℤ)
    → validate_command_request u req onu_id ≡ none
    → IsChecked req
unfolding validate_command_request
request-IsChecked u req onu_id h =
    let (onu_type, profile, name, description) =
      fields-IsPlain u req (elim (Bool-cases (has_bad_field u req)) [
        | inl e ↦ absurd (ground (arith, h, e))
        | inr e ↦ e
      ]) in
    record {
      serial = elim (Bool-cases (serial_pattern (to_upper (trim_space req.serial_number)))) [
        | inl e ↦ serial-IsPlain _ e
        | inr e ↦ absurd (ground (arith, h, e))
      ];
      onu_type = onu_type;
      profile = profile;
      name = name;
      description = description;
      wan = elim (Option-cases (validate_command_wan req)) [
        | inl e ↦ checked-wan req e
        | inr (fault, e) ↦ absurd (ground (arith, h, e))
      ];
    }
