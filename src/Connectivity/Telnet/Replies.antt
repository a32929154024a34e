-- ===== src/Connectivity/Telnet/Replies.antt =====
-- backend/internal/connectivity/telnet_negotiation.go: what a subnegotiation takes from the reader.
use tikman.Prelude.{
  ℕ, ◌≡◌, inl, inr, refl, ◌∙◌, false, none, some, [], ◌∷◌, ◌++◌, nat_beq, if◌then◌else◌, Bool-cases,
}
use tikman.Prelude.Bytes.{Bytes}
use tikman.Connectivity.Telnet.{
  telnet_iac, telnet_se, telnet_sb, skip_subnegotiation, negotiate_option,
}

-- The parameters of a subnegotiation as RFC 855 has them on the wire, an IAC twice.
abbrev pub escape : Bytes → Bytes
escape [] = []
escape (b ∷ bs) = if nat_beq b 255 then 255 ∷ 255 ∷ escape bs else b ∷ escape bs

skip-plain :
    (b : ℕ) (bs : Bytes)
    → nat_beq b 255 ≡ false
    → skip_subnegotiation (b ∷ bs) ≡ skip_subnegotiation bs
unfolding skip_subnegotiation
skip-plain b [] h = refl
skip-plain b (next ∷ bs) h = rw h refl

skip-doubled : (bs : Bytes) → skip_subnegotiation (255 ∷ 255 ∷ bs) ≡ skip_subnegotiation bs
unfolding skip_subnegotiation
skip-doubled bs = refl

skip-end : (bs : Bytes) → skip_subnegotiation (255 ∷ 240 ∷ bs) ≡ some bs
unfolding skip_subnegotiation
skip-end bs = refl

skip_subnegotiation-escape :
    (params rest : Bytes)
    → skip_subnegotiation (escape params ++ (telnet_iac ∷ telnet_se ∷ rest)) ≡ some rest
skip_subnegotiation-escape [] rest = skip-end rest
skip_subnegotiation-escape (b ∷ params) rest = elim (Bool-cases (nat_beq b 255)) [
  | inl e ↦
      rw e (
        skip-doubled (escape params ++ (255 ∷ 240 ∷ rest)) ∙ skip_subnegotiation-escape params rest)
  | inr e ↦ rw e (
      skip-plain b (escape params ++ (255 ∷ 240 ∷ rest)) e ∙ skip_subnegotiation-escape params rest)
]

-- A subnegotiation is skipped to its end, whatever its parameters are, an SE or a doubled IAC among
-- them; nothing is kept or written, and what follows is left in the reader.
pub negotiate_option-escape :
    (params rest : Bytes)
    → negotiate_option (telnet_sb ∷ (escape params ++ (telnet_iac ∷ telnet_se ∷ rest)))
      ≡ some (record { kept = none; written = []; rest = rest })
unfolding negotiate_option
negotiate_option-escape params rest =
    rw (skip_subnegotiation-escape params rest, negotiate_option) refl
