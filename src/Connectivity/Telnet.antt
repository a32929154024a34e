-- ===== src/Connectivity/Telnet.antt =====
-- backend/internal/connectivity/telnet_negotiation.go: the answer to one IAC sequence.
-- The reader is the bytes that are still to come, whose end is an error; the writer is the bytes that
-- were written, and a write does not fail.
pub mod Replies
mod Tests
use tikman.Prelude.{
  ℕ, suc, zero, Bool, true, false, ◌||◌, Option, none, some, List, [], ◌∷◌, ◌++◌, nat_beq,
  if◌then◌else◌,
}
use tikman.Prelude.Bytes.{Bytes}

abbrev pub telnet_iac : ℕ
telnet_iac = 255

abbrev pub telnet_se : ℕ
telnet_se = 240

abbrev pub telnet_sb : ℕ
telnet_sb = 250

abbrev pub telnet_will : ℕ
telnet_will = 251

abbrev pub telnet_wont : ℕ
telnet_wont = 252

abbrev pub telnet_do : ℕ
telnet_do = 253

abbrev pub telnet_dont : ℕ
telnet_dont = 254

abbrev pub telnet_option_echo : ℕ
telnet_option_echo = 1

abbrev pub telnet_option_suppress_go_ahead : ℕ
telnet_option_suppress_go_ahead = 3

unfoldable pub telnet_reply : ℕ → ℕ → Bytes
telnet_reply command option =
    if nat_beq command telnet_will
    then (if nat_beq option telnet_option_echo || nat_beq option telnet_option_suppress_go_ahead
        then telnet_iac ∷ telnet_do ∷ option ∷ []
        else telnet_iac ∷ telnet_dont ∷ option ∷ [])
    else if nat_beq command telnet_do
    then (if nat_beq option telnet_option_suppress_go_ahead
        then telnet_iac ∷ telnet_will ∷ option ∷ []
        else telnet_iac ∷ telnet_wont ∷ option ∷ [])
    else if nat_beq command telnet_wont
    then telnet_iac ∷ telnet_dont ∷ option ∷ []
    else telnet_iac ∷ telnet_wont ∷ option ∷ []

-- The loop of `skipTelnetSubnegotiation`: the bytes behind IAC SE, or none where the reader ends first.
-- A byte behind an IAC is read with it, so that the loop takes one byte or two.
unfoldable pub skip_subnegotiation : Bytes → Option Bytes
skip_subnegotiation [] = none
skip_subnegotiation (b ∷ []) = none
skip_subnegotiation (b ∷ next ∷ rest) =
    let behind_two = skip_subnegotiation rest in
    let behind_one = skip_subnegotiation (next ∷ rest) in
    if nat_beq b telnet_iac
    then (if nat_beq next telnet_se then some rest else behind_two)
    else behind_one

-- What a call gives: the byte to keep, if any, what it wrote, and the bytes that are left.
pub record Negotiated : Type 0 where
  pub kept : Option ℕ
  pub written : Bytes
  pub rest : Bytes

abbrev pub is_option_command : ℕ → Bool
is_option_command command =
    nat_beq command telnet_will
    || nat_beq command telnet_wont
    || nat_beq command telnet_do
    || nat_beq command telnet_dont

-- The sequences of three bytes.
unfoldable pub answer_option : ℕ → Bytes → Option Negotiated
answer_option command [] = none
answer_option command (option ∷ rest) =
    some (record { kept = none; written = telnet_reply command option; rest = rest })

unfoldable pub negotiate_option : Bytes → Option Negotiated
negotiate_option [] = none
negotiate_option (command ∷ rest) =
    if nat_beq command telnet_iac
    then some (record { kept = some telnet_iac; written = []; rest = rest })
    else if nat_beq command telnet_sb
    then elim (skip_subnegotiation rest) [
      | none ↦ none
      | some left ↦ some (record { kept = none; written = []; rest = left })
    ]
    else if is_option_command command
    then answer_option command rest
    else some (record { kept = none; written = []; rest = rest })
