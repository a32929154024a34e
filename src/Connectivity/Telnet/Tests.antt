-- ===== src/Connectivity/Telnet/Tests.antt =====
-- backend/internal/connectivity/telnet_negotiation.go: an offer to echo, and parameters with an IAC.
use tikman.Prelude.{◌≡◌, refl, none, some, [], ◌∷◌}
use tikman.Connectivity.Telnet.{negotiate_option, answer_option, telnet_reply}
use tikman.Connectivity.Telnet.Replies.{negotiate_option-escape}

negotiate-echo :
    negotiate_option (251 ∷ 1 ∷ 65 ∷ [])
    ≡ some (record { kept = none; written = 255 ∷ 253 ∷ 1 ∷ []; rest = 65 ∷ [] })
unfolding negotiate_option answer_option telnet_reply
negotiate-echo = refl

negotiate_option-escape_example :
    negotiate_option (250 ∷ 24 ∷ 240 ∷ 255 ∷ 255 ∷ 1 ∷ 255 ∷ 240 ∷ 65 ∷ [])
    ≡ some (record { kept = none; written = []; rest = 65 ∷ [] })
negotiate_option-escape_example = negotiate_option-escape (24 ∷ 240 ∷ 255 ∷ 1 ∷ []) (65 ∷ [])
