-- ===== src/Services/ZteRegister/Accepted/Parts.antt =====
-- backend/internal/services/zte_provision_validator.go: what each validator accepts, and all of them.
use tikman.Prelude.{check-none, ◌≡◌, ◌⊎◌, ◌↔◌, refl, sym, arith, none, ◌==◌, inl, inr, Bool-cases}
use tikman.Prelude.Bytes.{bytes_eq}
use tikman.Prelude.Int.{pos}
use tikman.Services.ZteRegister.{
  Request, Unicode, onu_id_auto, onu_id_custom, min_zte_onu_id, max_zte_onu_id,
}
use tikman.Services.ZteRegister.Validate.{
  validate_onu_id, validate_position, validate_identity, validate_service,
}
use tikman.Services.ZteRegister.Accepted.{
  IsWithin, IsPosition, IsIdentity, IsService, out_of_range-IsWithin, same_text, is_zero_iff,
  not_iff, all_of_iff, fits_iff, token-trim_space, IsLabel-iff, either_iff,
}

validate_onu_id-none :
    (req : Request)
    → (validate_onu_id req ≡ none) ↔ (
        ((req.onu_id_mode ≡ onu_id_auto) × (req.onu_id ≡ pos 0))
        ⊎ ((req.onu_id_mode ≡ onu_id_custom) × IsWithin min_zte_onu_id max_zte_onu_id req.onu_id))
unfolding validate_onu_id
validate_onu_id-none req = (
  λ h. elim (Bool-cases (req.onu_id_mode == onu_id_auto)) [
    | inl e ↦ inl ((same_text _ _).0 e, (is_zero_iff _).0 (ground (arith, e, h)))
    | inr e ↦ elim (Bool-cases (req.onu_id_mode == onu_id_custom)) [
      | inl c ↦ inr ((same_text _ _).0 c, (out_of_range-IsWithin _ _ _).0 (ground (arith, e, c, h)))
      | inr c ↦ absurd (ground (arith, e, c, h))
    ]
  ],
  elim [
    | inl (e, z) ↦ rw (e, z) refl
    | inr (e, w) ↦ rw (e, (out_of_range-IsWithin _ _ _).1 w) refl
  ],
)

pub validate_position-none : (req : Request) → (validate_position req ≡ none) ↔ IsPosition req
unfolding validate_position
validate_position-none req = (
  λ h.
      let (c, r) = (check-none _ _ _).0 h in
      let (p, o) = (check-none _ _ _).0 r in
      record {
        card = (out_of_range-IsWithin _ _ _).0 c;
        pon = (out_of_range-IsWithin _ _ _).0 p;
        onu_id = (validate_onu_id-none req).0 o;
      },
  λ h. (check-none _ _ _).1 (
    (out_of_range-IsWithin _ _ _).1 h.card,
    (check-none _ _ _).1
        ((out_of_range-IsWithin _ _ _).1 h.pon, (validate_onu_id-none req).1 h.onu_id),
  ),
)

pub validate_identity-none :
    (u : Unicode) (req : Request) → (validate_identity u req ≡ none) ↔ IsIdentity u req
unfolding validate_identity
validate_identity-none u req = (
  λ h.
      let (serial, a) = (check-none _ _ _).0 h in
      let (missing, b) = (check-none _ _ _).0 a in
      let (long, c) = (check-none _ _ _).0 b in
      let (token, d) = (check-none _ _ _).0 c in
      let (name, f) = (check-none _ _ _).0 d in
      let (description, g) = (check-none _ _ _).0 f in
      record {
        serial = (not_iff _).0 serial;
        onu_type = (not_iff _).0 token;
        onu_type_length = (fits_iff _ _).0 long;
        name = (IsLabel-iff u req.name).0 name;
        description = (IsLabel-iff u req.description).0 description;
      },
  λ h. (check-none _ _ _).1 (
    (not_iff _).1 h.serial,
    (check-none _ _ _).1 (
      token-trim_space req.onu_type h.onu_type,
      (check-none _ _ _).1 (
        (fits_iff _ _).1 h.onu_type_length,
        (check-none _ _ _).1 (
          (not_iff _).1 h.onu_type,
          (check-none _ _ _).1 (
            (IsLabel-iff u req.name).1 h.name,
            (check-none _ _ _).1 ((IsLabel-iff u req.description).1 h.description, refl),
          ),
        ),
      ),
    ),
  ),
)

pub validate_service-none : (req : Request) → (validate_service req ≡ none) ↔ IsService req
unfolding validate_service
validate_service-none req = (
  λ h.
      let (mode, a) = (check-none _ _ _).0 h in
      let (tokens, b) = (check-none _ _ _).0 a in
      let (same, c) = (check-none _ _ _).0 b in
      let (enabled, d) = (check-none _ _ _).0 c in
      let (vlan, f) = (check-none _ _ _).0 d in
      let (service, g) = (check-none _ _ _).0 f in
      record {
        vlan_mode = (either_iff _ _ _).0 mode;
        profile = ((all_of_iff _ _).0 tokens).0;
        same_profile = sym ((same_text _ _).0 ((not_iff _).0 same));
        enabled = (not_iff _).0 enabled;
        vlan_id = (out_of_range-IsWithin _ _ _).0 vlan;
        service_type = (either_iff _ _ _).0 service;
      },
  λ h. (check-none _ _ _).1 (
    (either_iff _ _ _).1 h.vlan_mode,
    (check-none _ _ _).1 (
      (all_of_iff _ _).1 (h.profile, rw (h.same_profile) h.profile),
      (check-none _ _ _).1 (
        (not_iff _).1 ((same_text _ _).1 (sym h.same_profile)),
        (check-none _ _ _).1 (
          (not_iff _).1 h.enabled,
          (check-none _ _ _).1 (
            (out_of_range-IsWithin _ _ _).1 h.vlan_id,
            (check-none _ _ _).1 ((either_iff _ _ _).1 h.service_type, refl),
          ),
        ),
      ),
    ),
  ),
)
