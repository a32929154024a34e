-- ===== src/Services/ZteRegister/Plain/Lines.antt =====
-- backend/internal/services/zte_command_builder.go: each line of a registration.
use tikman.Prelude.{
  refl, arith, Bool, true, false, not, ◌||◌, List, [], ◌∷◌, if◌then◌else◌, ◌==◌, inl, inr,
  Bool-cases, All, All-append,
}
use tikman.Prelude.Bytes.{bytes_eq}
use tikman.Prelude.Int.{ℤ}
use tikman.Prelude.Text.{Text, all_runes, all_runes-format, is_empty, trim_space, format, codes}
use tikman.Services.ZteRegister.{
  Request, is_credential_rune, wan_mode_wan_ip, wan_ip_mode_pppoe, service_bridge, vlan_mode_untag,
}
use tikman.Services.ZteRegister.Command.{
  zte_service_label, build_onu_service, build_service_port, optional_line, onu_line,
  build_interface_section, veip_line, wan_ip_line, wan_lines, build_management_section,
}
use tikman.Services.ZteRegister.Plain.{IsPlain, decimal-IsPlain}
use tikman.Services.ZteRegister.Plain.Checked.{IsWanPlain, IsChecked}

-- A line is plain where its parts are.
pub line-IsPlain : (parts : List Text) → All IsPlain parts → IsPlain (format parts)
line-IsPlain parts h = all_runes-format is_credential_rune parts h

label-line : (req : Request) → IsPlain (zte_service_label req)
unfolding zte_service_label all_runes
label-line req = elim (Bool-cases (req.service_type == service_bridge)) [
  | inl e ↦ rw e refl
  | inr e ↦ rw e refl
]

onu_line-IsPlain :
    (word : Text) (req : Request) (onu_id : ℤ) → IsPlain word → IsPlain (onu_line word req onu_id)
unfolding all_runes
onu_line-IsPlain word req onu_id h =
    line-IsPlain _
      (h, (refl, (decimal-IsPlain _, (refl, (decimal-IsPlain _, (refl, (decimal-IsPlain _, tt)))))))

build_onu_service-IsPlain : (req : Request) → IsPlain (build_onu_service req)
unfolding build_onu_service all_runes
build_onu_service-IsPlain req = elim (Bool-cases (req.vlan_mode == vlan_mode_untag)) [
  | inl e ↦ rw e (line-IsPlain _ (refl, (label-line req, (refl, tt))))
  | inr e ↦ rw e (line-IsPlain _ (refl, (label-line req, (refl, (decimal-IsPlain _, tt)))))
]

build_service_port-IsPlain : (req : Request) → IsPlain (build_service_port req)
unfolding build_service_port all_runes
build_service_port-IsPlain req = elim (Bool-cases (req.vlan_mode == vlan_mode_untag)) [
  | inl e ↦ rw e (line-IsPlain _ (refl, (decimal-IsPlain _, tt)))
  | inr e ↦ rw e (line-IsPlain _ (refl, (decimal-IsPlain _, (refl, (decimal-IsPlain _, tt)))))
]

optional_line-All :
    (word value : Text)
    → IsPlain word
    → IsPlain (trim_space value)
    → All IsPlain (optional_line word value)
unfolding optional_line
optional_line-All word value h k = elim (Bool-cases (is_empty (trim_space value))) [
  | inl e ↦ rw e tt
  | inr e ↦ rw e (line-IsPlain _ (h, (k, tt)), tt)
]

shown-IsPlain :
    (req : Request) (include_password : Bool)
    → IsPlain req.pppoe_password
    → IsPlain (if include_password then req.pppoe_password else codes "<redacted>")
unfolding all_runes
shown-IsPlain req true h = h
shown-IsPlain req false h = refl

wan_ip_line-IsPlain :
    (req : Request) (include_password : Bool)
    → IsWanPlain req
    → IsPlain (wan_ip_line req include_password)
unfolding wan_ip_line all_runes
wan_ip_line-IsPlain req include_password h = elim h.credentials [
  | inl e ↦ rw e (line-IsPlain _ (refl, (h.mode, (refl, (h.profile, (refl, tt))))))
  | inr (user, password) ↦ elim (Bool-cases (req.wan_ip_mode == wan_ip_mode_pppoe)) [
    | inr e ↦ rw e (line-IsPlain _ (refl, (h.mode, (refl, (h.profile, (refl, tt))))))
    | inl e ↦ rw e (
        line-IsPlain _ (
          refl,
          (
            user,
            (refl, (shown-IsPlain req include_password password, (refl, (h.profile, (refl, tt))))),
          ),
        ))
  ]
]

veip_line-All : (req : Request) → All IsPlain (veip_line req)
unfolding veip_line all_runes
veip_line-All req = elim (Bool-cases req.use_veip) [
  | inl e ↦ rw e (line-IsPlain _ (refl, (decimal-IsPlain _, tt)), tt)
  | inr e ↦ rw e tt
]

wan_lines-All :
    (req : Request) (include_password : Bool)
    → IsChecked req
    → All IsPlain (wan_lines req include_password)
unfolding wan_lines all_runes
wan_lines-All req include_password h = elim h.wan [
  | inl e ↦ rw (e) (ground arith)
  | inr w ↦
      elim (Bool-cases
        ((req.service_type == service_bridge) || not (req.wan_mode == wan_mode_wan_ip))) [
          | inl e ↦ rw e (refl, tt)
          | inr e ↦ rw e (wan_ip_line-IsPlain req include_password w, (refl, (refl, tt)))
        ]
]

pub build_interface_section-All :
    (req : Request) (onu_id : ℤ) → IsChecked req → All IsPlain (build_interface_section req onu_id)
unfolding build_interface_section all_runes
build_interface_section-All req onu_id h =
    All-append IsPlain
      (onu_line (codes "interface") req onu_id ∷ optional_line (codes "name ") req.name) _
      (
        onu_line-IsPlain (codes "interface") req onu_id refl,
        optional_line-All (codes "name ") req.name refl h.name,
      )
      (All-append IsPlain (optional_line (codes "description ") req.description)
        (format (
            codes "tcont 1 name "
            ∷ zte_service_label req
            ∷ codes " profile "
            ∷ req.download_profile
            ∷ [])
          ∷ format (codes "gemport 1 name " ∷ zte_service_label req ∷ codes " tcont 1" ∷ [])
          ∷ build_service_port req
          ∷ codes "exit"
          ∷ [])
        (optional_line-All (codes "description ") req.description refl h.description)
        (
          line-IsPlain _ (refl, (label-line req, (refl, (h.profile, tt)))),
          (
            line-IsPlain _ (refl, (label-line req, (refl, tt))),
            (build_service_port-IsPlain req, (refl, tt)),
          ),
        ))

pub build_management_section-All :
    (req : Request) (onu_id : ℤ) (include_password : Bool)
    → IsChecked req
    → All IsPlain (build_management_section req onu_id include_password)
unfolding build_management_section all_runes
build_management_section-All req onu_id include_password h =
    All-append IsPlain
      (onu_line (codes "pon-onu-mng") req onu_id ∷ build_onu_service req ∷ veip_line req) _
      (
        onu_line-IsPlain (codes "pon-onu-mng") req onu_id refl,
        (build_onu_service-IsPlain req, veip_line-All req),
      )
      (wan_lines-All req include_password h)
