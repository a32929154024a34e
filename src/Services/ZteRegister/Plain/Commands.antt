-- ===== src/Services/ZteRegister/Plain/Commands.antt =====
-- backend/internal/services/zte_command_builder.go: the lines that the builders answer with.
use tikman.Prelude.{
  ◌≡◌, refl, Bool, List, ◌∷◌, ◌++◌, inl, inr, Option-cases, All, All-append, All-drop, drop,
}
use mathlib.Core.Path.{subst}
use tikman.Prelude.Bytes.{bytes_eq}
use tikman.Prelude.Int.{ℤ}
use tikman.Prelude.Text.{Text, all_runes, codes}
use tikman.Services.ZteRegister.{Request, Unicode}
use tikman.Services.ZteRegister.Command.{
  validate_command_request, build_interface_section, build_management_section, Built, refused,
  built, build_service_commands, registration, build_register_commands,
}
use tikman.Services.ZteRegister.Plain.{IsPlain, decimal-IsPlain}
use tikman.Services.ZteRegister.Plain.Checked.{IsChecked, request-IsChecked}
use tikman.Services.ZteRegister.Plain.Lines.{
  line-IsPlain, build_interface_section-All, build_management_section-All,
}

-- What a builder answers with.
IsPlainBuilt : Built → Type 0
IsPlainBuilt (refused fault) = Unit
IsPlainBuilt (built commands) = All IsPlain commands

build_service_commands-IsPlain :
    (u : Unicode) (req : Request) (onu_id : ℤ) (include_password : Bool)
    → IsPlainBuilt (build_service_commands u req onu_id include_password)
unfolding build_service_commands IsPlainBuilt all_runes
build_service_commands-IsPlain u req onu_id include_password =
    elim (Option-cases (validate_command_request u req onu_id)) [
      | inr (fault, e) ↦ rw (e, build_service_commands) tt
      | inl e ↦
          let checked = request-IsChecked u req onu_id e in
          rw (e, build_service_commands)
            (All-append IsPlain (codes "configure terminal" ∷ build_interface_section req onu_id)
              (build_management_section req onu_id include_password)
              (refl, build_interface_section-All req onu_id checked)
              (build_management_section-All req onu_id include_password checked))
    ]

registration-All :
    (req : Request) (onu_id : ℤ) → IsChecked req → All IsPlain (registration req onu_id)
unfolding registration all_runes
registration-All req onu_id h = (
  refl,
  (
    line-IsPlain _ (refl, (decimal-IsPlain _, (refl, (decimal-IsPlain _, tt)))),
    (
      line-IsPlain _ (refl, (decimal-IsPlain _, (refl, (h.onu_type, (refl, (h.serial, tt)))))),
      (refl, tt),
    ),
  ),
)

joined-IsPlain :
    (req : Request) (onu_id : ℤ) (b : Built)
    → IsChecked req
    → IsPlainBuilt b
    → IsPlainBuilt (elim b [
      | refused fault ↦ refused fault
      | built service ↦ built (registration req onu_id ++ drop 1 service)
    ])
unfolding IsPlainBuilt
joined-IsPlain req onu_id (refused fault) h k = tt
joined-IsPlain req onu_id (built service) h k =
    All-append IsPlain (registration req onu_id) (drop 1 service) (registration-All req onu_id h)
      (All-drop IsPlain 1 service k)

register-IsPlain :
    (u : Unicode) (req : Request) (onu_id : ℤ) (include_password : Bool)
    → IsPlainBuilt (build_register_commands u req onu_id include_password)
unfolding build_register_commands IsPlainBuilt
register-IsPlain u req onu_id include_password =
    elim (Option-cases (validate_command_request u req onu_id)) [
      | inr (fault, e) ↦ rw (e, build_register_commands) tt
      | inl e ↦
          rw (e, build_register_commands)
            (joined-IsPlain req onu_id _ (request-IsChecked u req onu_id e)
              (build_service_commands-IsPlain u req onu_id include_password))
    ]

-- Whatever the request and the ONU number are: of the lines that the command builder answers with,
-- those for a registration and those for the service of a registered ONU, none has a control
-- character or one of ; ' | ` $ \ and ", so that each is read as one line and one command.
pub build_commands-IsPlain :
    (u : Unicode) (req : Request) (onu_id : ℤ) (include_password : Bool)
    (registering serving : List Text)
    → build_register_commands u req onu_id include_password ≡ built registering
    → build_service_commands u req onu_id include_password ≡ built serving
    → All IsPlain registering × All IsPlain serving
unfolding IsPlainBuilt
build_commands-IsPlain u req onu_id include_password registering serving h k = (
  subst IsPlainBuilt h (register-IsPlain u req onu_id include_password),
  subst IsPlainBuilt k (build_service_commands-IsPlain u req onu_id include_password),
)
