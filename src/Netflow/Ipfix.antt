-- ===== src/Netflow/Ipfix.antt =====
-- backend/internal/netflow/ipfix.go: one IPFIX message against one exporter's template table.
-- The pointer receiver and `res *Result` are a state that every step returns.
pub mod Safe
mod Tests
use tikman.Prelude.{
  ℕ, zero, suc, ◌+◌, Bool, true, false, ◌||◌, not, Option, none, some, List, [], ◌∷◌, ◌++◌, ltb,
  leb, nat_beq, if◌then◌else◌, length,
}
use tikman.Prelude.Bytes.{Bytes}
use tikman.Prelude.Assoc.{lookup}
use tikman.Prelude.Outcome.{Outcome, ok, panic, stuck, ◌>>=◌, slice_from, slice, uint16, uint32}
use tikman.Netflow.Template.{TemplateKey, key_eq, Template, Templates, Res, State, learn_templates}
use tikman.Netflow.Record.{decode_records}

pub data Error : Type 0 where
  not_ipfix truncated : Error

abbrev pub message_header_len : ℕ
message_header_len = 16

abbrev pub set_header_len : ℕ
set_header_len = 4

unfoldable pub decode_data : TemplateKey → Bytes → State → Outcome State
decode_data key body (t, res) = elim (lookup key t) [
  | none ↦ ok (t, record res { missing_template = res.missing_template + 1 })
  | some tmpl ↦ do
    flows ← decode_records tmpl body
    ok (t, record res { flows = res.flows ++ flows })
]

unfoldable pub decode_set : ℕ → ℕ → Bytes → State → Outcome State
decode_set domain set_id body s =
    if nat_beq set_id 2
    then learn_templates domain body false s
    else if nat_beq set_id 3
    then learn_templates domain body true s
    else if leb 256 set_id
    then decode_data (record { domain = domain; id = set_id }) body s
    else ok s

-- The loop over the sets of a message.
unfoldable pub decode_sets : ℕ → ℕ → Bytes → State → Outcome (State × Option Error)
decode_sets fuel domain [] s = ok (s, none)
decode_sets zero domain (b ∷ bs) s = stuck
decode_sets (suc fuel) domain (b ∷ bs) s =
    if ltb (length (b ∷ bs)) set_header_len then ok (s, some truncated) else do
      lens ← slice_from (b ∷ bs) 2
      set_len ← uint16 lens
      let after = do
        set_id ← uint16 (b ∷ bs)
        body ← slice (b ∷ bs) set_header_len set_len
        s' ← decode_set domain set_id body s
        rest ← slice_from (b ∷ bs) set_len
        decode_sets fuel domain rest s'
      if ltb set_len set_header_len || ltb (length (b ∷ bs)) set_len
          then ok (s, some truncated)
          else after

abbrev pub no_result : Res
no_result = record { flows = []; missing_template = 0; rejected_templates = 0 }

-- A set takes four bytes at least, so as many rounds as bytes are enough.
unfoldable pub decode_body : Bytes → ℕ → ℕ → Templates → Outcome (State × Option Error)
decode_body packet length domain t = do
  sets ← slice packet message_header_len length
  decode_sets length domain sets (t, no_result)

unfoldable pub decode : Templates → Bytes → Outcome (State × Option Error)
decode t packet =
    if ltb (length packet) message_header_len then ok ((t, no_result), some not_ipfix) else do
      version ← uint16 packet
      let after = do
        lens ← slice_from packet 2
        len ← uint16 lens
        let sets = do
          domains ← slice_from packet 12
          domain ← uint32 domains
          decode_body packet len domain t
        if ltb len message_header_len || ltb (length packet) len
            then ok ((t, no_result), some truncated)
            else sets
      if nat_beq version 10 then after else ok ((t, no_result), some not_ipfix)
