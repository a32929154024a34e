-- ===== src/Services/ZteRegister/Accepted/All.antt =====
-- backend/internal/services/zte_provision_validator.go: `ValidateZTEGPONRegister`.
use tikman.Prelude.{check-none, ◌≡◌, ◌↔◌, refl, true, none, some}
use tikman.Services.ZteRegister.{Request, Unicode}
use tikman.Services.ZteRegister.Validate.{OltModel, is_zte_model, validate, unsupported_olt}
use tikman.Services.ZteRegister.Accepted.{
  IsPosition, IsIdentity, IsService, IsWan, or_else-none, not_iff,
}
use tikman.Services.ZteRegister.Accepted.Parts.{
  validate_position-none, validate_identity-none, validate_service-none,
}
use tikman.Services.ZteRegister.Accepted.Wan.{validate_wan-IsWan, IsWan-validate_wan}

-- A request that can be carried out on an OLT of a model.
pub record IsRegistrable (u : Unicode) (req : Request) (model : OltModel) : Type 0 where
  pub zte : is_zte_model model ≡ true
  pub position : IsPosition req
  pub identity : IsIdentity u req
  pub service : IsService req
  pub wan : IsWan req

-- `ValidateZTEGPONRegister` answers with no error just where the OLT is a C300 or C320, and the
-- request's card, PON and ONU number are within their ranges, its texts are of their classes, its
-- profiles are the same one, its service is enabled and its VLAN within range, and its WAN details are
-- those of its WAN mode: none where the ONT sets the WAN up; else a VLAN profile on a tagged service
-- that is no bridge, with credentials just for PPPoE. Without an OLT it answers with an error.
pub validate-IsRegistrable :
    (u : Unicode) (req : Request) (model : OltModel)
    → ((validate u req (some model) ≡ none) ↔ IsRegistrable u req model)
      × (validate u req none ≡ some unsupported_olt)
unfolding validate
validate-IsRegistrable u req model = (
  (
    λ h.
        let (zte, a) = (check-none _ _ _).0 h in
        let (position, b) = (or_else-none _ _).0 a in
        let (identity, c) = (or_else-none _ _).0 b in
        let (service, wan) = (or_else-none _ _).0 c in
        record {
          zte = (not_iff _).0 zte;
          position = (validate_position-none req).0 position;
          identity = (validate_identity-none u req).0 identity;
          service = (validate_service-none req).0 service;
          wan = validate_wan-IsWan req wan;
        },
    λ h.
        rw
          (
            h.zte,
            (validate_position-none req).1 h.position,
            (validate_identity-none u req).1 h.identity,
            (validate_service-none req).1 h.service,
          )
          (IsWan-validate_wan req h.wan),
  ),
  refl,
)
