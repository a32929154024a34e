-- ===== src/Services/ZteRegister/Accepted/Wan.antt =====
-- backend/internal/services/zte_provision_validator.go: the WAN of the requests that are accepted.
use tikman.Prelude.{
  check-none, ◌≡◌, ◌≢◌, ◌⊎◌, ◌↔◌, refl, arith, Bool, true, false, not, ◌||◌, none, some, [],
  if◌then◌else◌, ◌==◌, inl, inr, Bool-cases,
}
use tikman.Prelude.Bytes.{bytes_eq}
use tikman.Prelude.Text.{Text, is_empty}
use tikman.Services.ZteRegister.{
  Request, vlan_mode_untag, service_bridge, wan_mode_wan_ip, wan_mode_setup_via_ont,
  wan_ip_mode_pppoe, wan_ip_mode_dhcp, wan_ip_mode_static, is_zte_command_token, is_zte_credential,
}
use tikman.Services.ZteRegister.Validate.{
  credentials_unused, validate_pppoe_credentials, validate_wan_ip, validate_wan, is_wan_ip_mode,
}
use tikman.Services.ZteRegister.Accepted.{
  IsWan, on_ont, pppoe, plain, is_empty_iff, same_text, not_iff, all_of_iff, either_iff,
  credential-space, is_wan_ip_mode_iff,
}

validate_pppoe_credentials-none :
    (req : Request)
    → (validate_pppoe_credentials req ≡ none) ↔ (
        (is_zte_credential req.pppoe_username ≡ true)
        × (is_zte_credential req.pppoe_password ≡ true))
unfolding validate_pppoe_credentials
validate_pppoe_credentials-none req = (
  λ h. (
    elim (Bool-cases (is_zte_credential req.pppoe_username)) [
      | inl e ↦ e
      | inr e ↦ absurd (ground (arith, h, e))
    ],
    elim (Bool-cases (is_zte_credential req.pppoe_password)) [
      | inl e ↦ e
      | inr e ↦ absurd (ground (arith, h, e))
    ],
  ),
  λ (user, password).
      let (given, joined) = credential-space req.pppoe_username user in
      let (given2, joined2) = credential-space req.pppoe_password password in
      rw (given, user, joined, given2, password, joined2) refl,
)

-- Tests that a text is one that it is not.
pub differs : (s t : Text) → s ≢ t → (s == t) ≡ false
differs s t n = elim (Bool-cases (s == t)) [ inl e ↦ absurd (n ((same_text s t).0 e)) | inr e ↦ e ]

differs_iff : (s t : Text) → ((s == t) ≡ false) ↔ (s ≢ t)
differs_iff s t = (λ e q. absurd (ground (arith, e, (same_text s t).1 q)), differs s t)

neither_empty_iff :
    (s t : Text) → ((not (is_empty s) || not (is_empty t)) ≡ false) ↔ ((s ≡ []) × (t ≡ []))
neither_empty_iff s t = (
  λ h. let (a, b) = (all_of_iff _ _).0 h in ((is_empty_iff s).0 a, (is_empty_iff t).0 b),
  λ (a, b). (all_of_iff _ _).1 ((is_empty_iff s).1 a, (is_empty_iff t).1 b),
)

-- What `validateZTEWAN` asks of a WAN that the OLT configures.
abbrev IsWanIp : Request → Type 0
IsWanIp req =
    (is_zte_command_token req.vlan_profile ≡ true)
    × (((req.wan_ip_mode ≡ wan_ip_mode_pppoe)
          × ((is_zte_credential req.pppoe_username ≡ true)
              × (is_zte_credential req.pppoe_password ≡ true)))
        ⊎ (((req.wan_ip_mode ≡ wan_ip_mode_dhcp) ⊎ (req.wan_ip_mode ≡ wan_ip_mode_static))
            × ((req.pppoe_username ≡ []) × (req.pppoe_password ≡ []))))

mode_part :
    (req : Request)
    → is_wan_ip_mode req.wan_ip_mode ≡ true
    → req.wan_ip_mode ≢ wan_ip_mode_pppoe
    → (req.wan_ip_mode ≡ wan_ip_mode_dhcp) ⊎ (req.wan_ip_mode ≡ wan_ip_mode_static)
mode_part req h n = elim ((is_wan_ip_mode_iff _).0 h) [ inl e ↦ absurd (n e) | inr o ↦ o ]

-- The checks of a WAN-IP mode, for each answer of the test for PPPoE.
credentials_part :
    (req : Request) (b : Bool)
    → (req.wan_ip_mode == wan_ip_mode_pppoe) ≡ b
    → is_wan_ip_mode req.wan_ip_mode ≡ true
    → (if not b
        then (if not (is_empty req.pppoe_username) || not (is_empty req.pppoe_password)
            then some credentials_unused
            else none)
        else validate_pppoe_credentials req)
      ≡ none
    → ((req.wan_ip_mode ≡ wan_ip_mode_pppoe)
        × ((is_zte_credential req.pppoe_username ≡ true)
            × (is_zte_credential req.pppoe_password ≡ true)))
      ⊎ (((req.wan_ip_mode ≡ wan_ip_mode_dhcp) ⊎ (req.wan_ip_mode ≡ wan_ip_mode_static))
          × ((req.pppoe_username ≡ []) × (req.pppoe_password ≡ [])))
credentials_part req true e mode h =
    inl ((same_text _ _).0 e, (validate_pppoe_credentials-none req).0 h)
credentials_part req false e mode h = inr (
  mode_part req mode ((differs_iff _ _).0 e),
  (neither_empty_iff _ _).0 ((check-none _ _ _).0 h).0,
)

validate_wan_ip-IsWanIp : (req : Request) → validate_wan_ip req ≡ none → IsWanIp req
unfolding validate_wan_ip
validate_wan_ip-IsWanIp req h =
    let (mode, a) = (check-none _ _ _).0 h in
    let (token, b) = (check-none _ _ _).0 a in
    ((not_iff _).0 token, credentials_part req _ refl ((not_iff _).0 mode) b)

IsWanIp-validate_wan_ip : (req : Request) → IsWanIp req → validate_wan_ip req ≡ none
unfolding validate_wan_ip
IsWanIp-validate_wan_ip req (token, inl (mode, c)) =
    rw ((is_wan_ip_mode_iff _).1 (inl mode), token, (same_text _ _).1 mode)
      ((validate_pppoe_credentials-none req).1 c)
IsWanIp-validate_wan_ip req (token, inr (inl mode, (user, password))) =
    rw (mode, token, user, password) refl
IsWanIp-validate_wan_ip req (token, inr (inr mode, (user, password))) =
    rw (mode, token, user, password) refl

IsWan-on_ont :
    (req : Request) → req.wan_mode ≡ wan_mode_setup_via_ont → validate_wan req ≡ none → IsWan req
unfolding validate_wan
IsWan-on_ont req setup h =
    let same : (req.wan_mode == wan_mode_setup_via_ont) ≡ true = (same_text _ _).1 setup in
    elim (Bool-cases (
      not (is_empty req.wan_ip_mode)
      || not (is_empty req.vlan_profile)
      || not (is_empty req.pppoe_username)
      || not (is_empty req.pppoe_password))) [
        | inl e ↦ absurd (ground (arith, h, same, e))
        | inr e ↦
            on_ont setup
              ((is_empty_iff _).0 (ground (arith, e)), (is_empty_iff _).0 (ground (arith, e)))
              ((is_empty_iff _).0 (ground (arith, e)), (is_empty_iff _).0 (ground (arith, e)))
      ]

IsWanIp-IsWan :
    (req : Request)
    → req.wan_mode ≡ wan_mode_wan_ip
    → (req.service_type ≢ service_bridge) × (req.vlan_mode ≢ vlan_mode_untag)
    → IsWanIp req
    → IsWan req
IsWanIp-IsWan req mode other (token, inl (p, c)) = pppoe mode other token p c
IsWanIp-IsWan req mode other (token, inr (m, c)) = plain mode other token m c

IsWan-by_olt :
    (req : Request) → req.wan_mode ≡ wan_mode_wan_ip → validate_wan req ≡ none → IsWan req
unfolding validate_wan
IsWan-by_olt req mode h =
    let other : (req.wan_mode == wan_mode_setup_via_ont) ≡ false = rw mode refl in
    elim (Bool-cases (req.service_type == service_bridge)) [
      | inl e ↦ absurd (ground (arith, h, other, e))
      | inr e ↦ elim (Bool-cases (req.vlan_mode == vlan_mode_untag)) [
        | inl v ↦ absurd (ground (arith, h, other, e, v))
        | inr v ↦
            IsWanIp-IsWan req mode ((differs_iff _ _).0 e, (differs_iff _ _).0 v)
              (validate_wan_ip-IsWanIp req (ground (arith, h, other, e, v, (same_text _ _).1 mode)))
      ]
    ]

pub validate_wan-IsWan : (req : Request) → validate_wan req ≡ none → IsWan req
unfolding validate_wan
validate_wan-IsWan req h = elim ((either_iff _ _ _).0 ((check-none _ _ _).0 h).0) [
  | inl e ↦ IsWan-by_olt req e h
  | inr e ↦ IsWan-on_ont req e h
]

by_olt :
    (req : Request)
    → req.wan_mode ≡ wan_mode_wan_ip
    → (req.service_type ≢ service_bridge) × (req.vlan_mode ≢ vlan_mode_untag)
    → IsWanIp req
    → validate_wan req ≡ none
unfolding validate_wan
by_olt req mode (service, vlan) h =
    let other : (req.wan_mode == wan_mode_setup_via_ont) ≡ false = rw mode refl in
    rw ((same_text _ _).1 mode, other, differs _ _ service, differs _ _ vlan)
      (IsWanIp-validate_wan_ip req h)

pub IsWan-validate_wan : (req : Request) → IsWan req → validate_wan req ≡ none
unfolding validate_wan
IsWan-validate_wan req (on_ont setup (mode, profile) (user, password)) = ground (
  arith,
  (same_text _ _).1 setup,
  (is_empty_iff _).1 mode,
  (is_empty_iff _).1 profile,
  (is_empty_iff _).1 user,
  (is_empty_iff _).1 password,
)
IsWan-validate_wan req (pppoe mode other token p c) = by_olt req mode other (token, inl (p, c))
IsWan-validate_wan req (plain mode other token m c) = by_olt req mode other (token, inr (m, c))
