-- ===== src/Netflow/Ipfix/Safe.antt =====
-- `Decode` on any datagram.
use tikman.Prelude.{
  ℕ, zero, suc, ◌+◌, ◌≤◌, ◌≡◌, refl, ap, arith, true, false, ◌||◌, Option, List, [], ◌∷◌, length,
  ltb, leb, nat_beq, inl, inr, Option-cases, length-drop, length-append,
}
use tikman.Prelude.Bytes.{Bytes}
use tikman.Prelude.Assoc.{lookup, All-lookup}
use tikman.Prelude.Outcome.{
  ok, Returns, returns, Returns-bind, Returns-if, Returns-slice_from, Returns-slice, Returns-uint16,
  Returns-uint32, Returns-mono, Returns-ok,
}
use tikman.Netflow.Template.{Flow, TemplateKey, key_eq, Templates, State}
use tikman.Netflow.Template.Valid.{IsTemplate, IsTable, learn_templates_safe}
use tikman.Netflow.Record.Safe.{AreIpv4, AreIpv4-append, AreIpv4-nil, decode_records_safe}
use tikman.Netflow.Ipfix.{
  Error, no_result, decode_data, decode_set, decode_sets, decode_body, decode,
}

-- The state after a part of a message of `n` bytes in all.
pub record IsState (n : ℕ) (s : State) : Type 0 where
  pub table : IsTable s.0
  pub ipv4 : AreIpv4 s.1.flows
  pub few : length s.1.flows ≤ n

decode_data_safe :
    (key : TemplateKey) (body : Bytes) (s : State) (n : ℕ)
    → IsState n s
    → Returns (IsState (n + length body)) (decode_data key body s)
unfolding decode_data
decode_data_safe key body (t, res) n h = elim (Option-cases (lookup key t)) [
  | inl e ↦
      rw (e, decode_data)
        (returns _ (record { table = h.table; ipv4 = h.ipv4; few = omega (arith, h.few) }))
  | inr (tmpl, e) ↦
      rw (e, decode_data)
        (Returns-bind _
          (decode_records_safe tmpl body (All-lookup IsTemplate key tmpl t e h.table.each))
          λ flows fs. returns _ (record {
            table = h.table;
            ipv4 = AreIpv4-append res.flows flows h.ipv4 fs.ipv4;
            few = omega (arith, length-append res.flows flows, h.few, fs.few);
          }))
]

learnt→IsState :
    (n m : ℕ) (s s' : State)
    → IsState n s
    → IsTable s'.0 × (s'.1.flows ≡ s.1.flows)
    → n ≤ m
    → IsState m s'
learnt→IsState n m s s' h l le = record {
  table = l.0;
  ipv4 = rw (l.1) (h.ipv4);
  few = omega (arith, ap (λ (fs : List Flow). length fs) l.1, h.few);
}

decode_set_safe :
    (domain set_id : ℕ) (body : Bytes) (s : State) (n : ℕ)
    → IsState n s
    → Returns (IsState (n + length body)) (decode_set domain set_id body s)
unfolding decode_set
decode_set_safe domain set_id body s n h =
    Returns-if (nat_beq set_id 2)
      (λ _.
        Returns-mono (λ s' l. learnt→IsState n (n + length body) s s' h l (omega arith))
          (learn_templates_safe domain body false s h.table))
      λ _.
        Returns-if (nat_beq set_id 3)
          (λ _.
            Returns-mono (λ s' l. learnt→IsState n (n + length body) s s' h l (omega arith))
              (learn_templates_safe domain body true s h.table))
          λ _.
            Returns-if (leb 256 set_id)
              (λ _. decode_data_safe (record { domain = domain; id = set_id }) body s n h)
              λ _.
                returns s (learnt→IsState n (n + length body) s s h (h.table, refl) (omega arith))

decode_sets_safe :
    (fuel domain : ℕ) (sets : Bytes) (s : State) (n : ℕ)
    → length sets ≤ fuel
    → IsState n s
    → Returns (λ r. IsState (n + length sets) r.0) (decode_sets fuel domain sets s)
unfolding decode_sets
decode_sets_safe fuel domain [] s n enough h =
    returns _ (learnt→IsState n (n + 0) s s h (h.table, refl) (omega arith))
decode_sets_safe zero domain (b ∷ bs) s n enough h = absurd (omega arith)
decode_sets_safe (suc fuel) domain (b ∷ bs) s n enough h =
    let all = b ∷ bs in
    let stop = learnt→IsState n (n + length all) s s h (h.table, refl) (omega arith) in
    Returns-if (ltb (length all) 4) (λ _. returns _ stop)
      λ room. Returns-bind _ (Returns-slice_from all 2 (ground arith)) λ lens lens_eq.
        Returns-bind _ (Returns-uint16 lens (ground (arith, length-drop 2 all))) λ set_len _.
          Returns-if (ltb set_len 4 || ltb (length all) set_len) (λ _. returns _ stop)
            λ fits. Returns-bind _ (Returns-uint16 all (ground arith)) λ set_id _.
              Returns-bind _ (Returns-slice all 4 set_len (ground arith) (ground arith))
                λ body body_len. Returns-bind _ (decode_set_safe domain set_id body s n h) λ s' h'.
                  Returns-bind _ (Returns-slice_from all set_len (ground arith)) λ rest rest_eq.
                    Returns-mono
                      (λ r h''.
                        learnt→IsState (n + length body + length rest) (n + length all) r.0 r.0 h''
                          (h''.table, refl) (ground (arith, length-drop set_len all)))
                      (decode_sets_safe fuel domain rest s' (n + length body)
                        (ground (arith, length-drop set_len all)) h')

decode_body_safe :
    (packet : Bytes) (len domain : ℕ) (t : Templates)
    → 16 ≤ len
    → len ≤ length packet
    → IsTable t
    → Returns (λ r. IsState (length packet) r.0) (decode_body packet len domain t)
unfolding decode_body
decode_body_safe packet len domain t header fits h =
    Returns-bind _ (Returns-slice packet 16 len header fits) λ sets sets_len.
      Returns-mono
        (λ r h'.
          learnt→IsState (0 + length sets) (length packet) r.0 r.0 h' (h'.table, refl)
            (omega arith))
        (decode_sets_safe len domain sets (t, no_result) 0 (omega arith)
          (record { table = h; ipv4 = AreIpv4-nil; few = omega arith }))

decode-Returns :
    (t : Templates) (packet : Bytes)
    → IsTable t
    → Returns (λ r. IsState (length packet) r.0) (decode t packet)
unfolding decode
decode-Returns t packet h =
    let stop : IsState (length packet) (t, no_result) = record {
      table = h;
      ipv4 = AreIpv4-nil;
      few = omega arith;
    } in
    Returns-if (ltb (length packet) 16) (λ _. returns _ stop)
      λ room. Returns-bind _ (Returns-uint16 packet (ground arith)) λ version _.
        Returns-if (nat_beq version 10)
          (λ _. Returns-bind _ (Returns-slice_from packet 2 (ground arith)) λ lens lens_eq.
            Returns-bind _ (Returns-uint16 lens (ground (arith, length-drop 2 packet))) λ len _.
              Returns-if (ltb len 16 || ltb (length packet) len) (λ _. returns _ stop)
                λ fits.
                  Returns-bind _ (Returns-slice_from packet 12 (ground arith)) λ domains domains_eq.
                    Returns-bind _ (Returns-uint32 domains (ground (arith, length-drop 12 packet)))
                      λ domain _.
                        decode_body_safe packet len domain t (ground arith) (ground arith) h)
          λ _. returns _ stop

-- Whatever bytes arrive, and with any valid table: `Decode` neither panics nor loops forever, the
-- table stays valid and within 256 templates, also where the message is refused halfway, every flow
-- has an IPv4 source and destination, and there are at most as many flows as bytes.
pub decode_safe :
    (t : Templates) (packet : Bytes)
    → IsTable t
    → (r : State × Option Error) × (decode t packet ≡ ok r)
      × IsTable r.0.0
      × AreIpv4 r.0.1.flows
      × (length r.0.1.flows ≤ length packet)
decode_safe t packet h =
    let (r, e, s) = Returns-ok (decode-Returns t packet h) in (r, e, s.table, s.ipv4, s.few)
