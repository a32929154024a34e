-- ===== src/Services/ZteRegister/Accepted.antt =====
-- backend/internal/services/zte_provision_validator.go: the requests that the validator accepts.
pub mod Parts
pub mod Wan
pub mod All
use tikman.Prelude.{
  ℕ, ◌≤◌, ◌≡◌, ◌≢◌, ◌⊎◌, ◌↔◌, refl, sym, arith, Bool, true, false, not, ◌&&◌, ◌||◌, Option, none,
  some, List, [], ◌∷◌, ltb, if◌then◌else◌, ◌==◌, length, inl, inr, Bool-cases,
}
use tikman.Prelude.Bytes.{bytes_eq, beq_bytes_iff}
use tikman.Prelude.Int.{ℤ, pos, negsuc, ltb_int, is_zero}
use tikman.Prelude.Text.{
  Text, all_runes, any_rune, is_space, is_empty, trim_space, trim_left, trim_right, to_upper,
}
use tikman.Services.ZteRegister.{
  Request, Unicode, onu_id_auto, onu_id_custom, vlan_mode_tag, vlan_mode_untag, service_internet,
  service_bridge, wan_mode_wan_ip, wan_mode_setup_via_ont, wan_ip_mode_pppoe, wan_ip_mode_dhcp,
  wan_ip_mode_static, max_board_id, max_pon_id, min_zte_onu_id, max_zte_onu_id,
  max_zte_onu_type_length, min_vlan_id, max_vlan_id, serial_pattern, is_zte_command_token,
  is_zte_name, is_zte_credential, is_token_rune,
}
use tikman.Services.ZteRegister.Validate.{
  OltModel, Refusal, out_of_range, validate_onu_id, validate_position, validate_identity,
  validate_service, validate_pppoe_credentials, validate_wan_ip, validate_wan, is_zte_model,
  is_wan_ip_mode, or_else, validate,
}

abbrev pub IsWithin : ℕ → ℕ → ℤ → Type 0
IsWithin lo hi x = (n : ℕ) × (x ≡ pos n) × (lo ≤ n) × (n ≤ hi)

pub record IsPosition (req : Request) : Type 0 where
  pub card : IsWithin 1 max_board_id req.card
  pub pon : IsWithin 1 max_pon_id req.pon
  pub onu_id :
      ((req.onu_id_mode ≡ onu_id_auto) × (req.onu_id ≡ pos 0))
      ⊎ ((req.onu_id_mode ≡ onu_id_custom) × IsWithin min_zte_onu_id max_zte_onu_id req.onu_id)

-- An optional text of a command.
abbrev pub IsLabel : Unicode → Text → Type 0
IsLabel u value = (trim_space value ≡ []) ⊎ (is_zte_name u value ≡ true)

pub record IsIdentity (u : Unicode) (req : Request) : Type 0 where
  pub serial : serial_pattern (to_upper (trim_space req.serial_number)) ≡ true
  pub onu_type : is_zte_command_token req.onu_type ≡ true
  pub onu_type_length : length req.onu_type ≤ max_zte_onu_type_length
  pub name : IsLabel u req.name
  pub description : IsLabel u req.description

pub record IsService (req : Request) : Type 0 where
  pub vlan_mode : (req.vlan_mode ≡ vlan_mode_tag) ⊎ (req.vlan_mode ≡ vlan_mode_untag)
  pub profile : is_zte_command_token req.download_profile ≡ true
  pub same_profile : req.upload_profile ≡ req.download_profile
  pub enabled : req.service_enabled ≡ true
  pub vlan_id : IsWithin min_vlan_id max_vlan_id req.vlan_id
  pub service_type : (req.service_type ≡ service_internet) ⊎ (req.service_type ≡ service_bridge)

pub out_of_range-IsWithin : (lo hi : ℕ) (x : ℤ) → (out_of_range lo hi x ≡ false) ↔ IsWithin lo hi x
out_of_range-IsWithin lo hi (pos n) =
    (λ h. (n, refl, ground arith, ground arith), λ h. let (m, e, a, b) = h in ground arith)
out_of_range-IsWithin lo hi (negsuc n) =
    (λ h. absurd (ground arith), λ h. let (m, e, a, b) = h in ground arith)

pub or_else-none :
    (o rest : Option Refusal) → (or_else o rest ≡ none) ↔ ((o ≡ none) × (rest ≡ none))
or_else-none (some e) rest = (λ h. absurd (ground arith), λ h. absurd (ground arith))
or_else-none none rest = (λ h. (refl, h), λ h. h.1)

pub is_empty_iff : (t : Text) → (is_empty t ≡ true) ↔ (t ≡ [])
is_empty_iff [] = (λ h. refl, λ h. refl)
is_empty_iff (c ∷ s) = (λ h. absurd (ground arith), λ h. absurd (ground arith))

pub same_text : (s t : Text) → ((s == t) ≡ true) ↔ (s ≡ t)
same_text s t = beq_bytes_iff s t

pub is_zero_iff : (x : ℤ) → (is_zero x ≡ true) ↔ (x ≡ pos 0)
is_zero_iff (pos n) = ground arith
is_zero_iff (negsuc n) = ground arith

pub not_iff : (b : Bool) → (not b ≡ false) ↔ (b ≡ true)
not_iff true = (λ h. refl, λ h. refl)
not_iff false = (λ h. absurd (ground arith), λ h. absurd (ground arith))

pub neither_iff : (a b : Bool) → ((not a && not b) ≡ false) ↔ ((a ≡ true) ⊎ (b ≡ true))
neither_iff true b = (λ h. inl refl, λ h. refl)
neither_iff false b =
    (λ h. inr ((not_iff b).0 h), elim [ inl e ↦ absurd (ground arith) | inr e ↦ rw e refl ])

pub all_of_iff : (a b : Bool) → ((not a || not b) ≡ false) ↔ ((a ≡ true) × (b ≡ true))
all_of_iff true b = (λ h. (refl, (not_iff b).0 h), λ h. rw (h.1) refl)
all_of_iff false b = (λ h. absurd (ground arith), λ h. absurd (ground arith))

pub fits_iff : (max n : ℕ) → (ltb max n ≡ false) ↔ (n ≤ max)
fits_iff max n = ground arith

-- A token does not vanish when it is trimmed: none of its runes is a space.
token-space : (c : ℕ) → is_token_rune c ≡ true → is_space c ≡ false
unfolding is_space
token-space c h = ground (arith, h)

pub token-trim_space :
    (value : Text) → is_zte_command_token value ≡ true → is_empty (trim_space value) ≡ false
unfolding is_zte_command_token trim_left trim_right all_runes
token-trim_space [] h = absurd (ground arith)
token-trim_space (c ∷ s) h =
    let mark : is_space c ≡ false = token-space c (ground (arith, h)) in
    rw (mark, trim_left, mark, trim_right) refl

pub IsLabel-iff :
    (u : Unicode) (value : Text)
    → ((not (is_empty (trim_space value)) && not (is_zte_name u value)) ≡ false) ↔ IsLabel u value
IsLabel-iff u value = (
  λ h. elim ((neither_iff _ _).0 h) [ inl e ↦ inl ((is_empty_iff _).0 e) | inr n ↦ inr n ],
  elim [
    | inl e ↦ (neither_iff _ _).1 (inl ((is_empty_iff _).1 e))
    | inr n ↦ (neither_iff _ _).1 (inr n)
  ],
)

pub either_iff :
    (value s t : Text)
    → ((not (value == s) && not (value == t)) ≡ false) ↔ ((value ≡ s) ⊎ (value ≡ t))
either_iff value s t = (
  λ h. elim ((neither_iff _ _).0 h) [
    | inl e ↦ inl ((same_text _ _).0 e)
    | inr e ↦ inr ((same_text _ _).0 e)
  ],
  elim [
    | inl e ↦ (neither_iff _ _).1 (inl ((same_text _ _).1 e))
    | inr e ↦ (neither_iff _ _).1 (inr ((same_text _ _).1 e))
  ],
)

pub is_wan_ip_mode_iff :
    (mode : Text)
    → (is_wan_ip_mode mode ≡ true)
      ↔ ((mode ≡ wan_ip_mode_pppoe) ⊎ ((mode ≡ wan_ip_mode_dhcp) ⊎ (mode ≡ wan_ip_mode_static)))
is_wan_ip_mode_iff mode = (
  λ h. elim (Bool-cases (mode == wan_ip_mode_pppoe)) [
    | inl p ↦ inl ((same_text _ _).0 p)
    | inr n ↦ elim (Bool-cases (mode == wan_ip_mode_dhcp)) [
      | inl d ↦ inr (inl ((same_text _ _).0 d))
      | inr m ↦ inr (inr ((same_text _ _).0 (ground (arith, h, n, m))))
    ]
  ],
  elim [ inl e ↦ rw e refl | inr o ↦ elim o [ inl e ↦ rw e refl | inr e ↦ rw e refl ] ],
)

pub credential-space :
    (value : Text)
    → is_zte_credential value ≡ true
    → (is_empty value ≡ false) × (any_rune is_space value ≡ false)
unfolding is_zte_credential
credential-space value h = elim (Bool-cases (is_empty value || any_rune is_space value)) [
  | inl e ↦ absurd (ground (arith, h, e))
  | inr e ↦ (ground (arith, e), ground (arith, e))
]

-- The WAN that the OLT configures, or none.
pub data IsWan (req : Request) : Type 0 where
  on_ont :
      req.wan_mode ≡ wan_mode_setup_via_ont
      → (req.wan_ip_mode ≡ []) × (req.vlan_profile ≡ [])
      → (req.pppoe_username ≡ []) × (req.pppoe_password ≡ [])
      → IsWan req
  pppoe :
      req.wan_mode ≡ wan_mode_wan_ip
      → (req.service_type ≢ service_bridge) × (req.vlan_mode ≢ vlan_mode_untag)
      → is_zte_command_token req.vlan_profile ≡ true
      → req.wan_ip_mode ≡ wan_ip_mode_pppoe
      → (is_zte_credential req.pppoe_username ≡ true)
        × (is_zte_credential req.pppoe_password ≡ true)
      → IsWan req
  plain :
      req.wan_mode ≡ wan_mode_wan_ip
      → (req.service_type ≢ service_bridge) × (req.vlan_mode ≢ vlan_mode_untag)
      → is_zte_command_token req.vlan_profile ≡ true
      → (req.wan_ip_mode ≡ wan_ip_mode_dhcp) ⊎ (req.wan_ip_mode ≡ wan_ip_mode_static)
      → (req.pppoe_username ≡ []) × (req.pppoe_password ≡ [])
      → IsWan req
