-- ===== src/Listeners/Stp/Safe.antt =====
-- src/agent/src/modules/stp_listener.c reads only inside the frame, and its text fits the buffer.
use packetsonde.Prelude.{
  ℕ, ◌+◌, ◌-◌, ◌*◌, ◌/◌, ◌%◌, ◌^◌, ◌≤◌, ◌<◌, ◌≡◌, refl, false, not, ◌&&◌, ◌||◌, some, List, [], ◌∷◌,
  ◌++◌, length, drop, ltb, ◌==◌, arith, ascii, length-drop,
}
use packetsonde.Prelude.Int.{pos}
use packetsonde.Wire.{Parse, ok, reject, fault, ◌>>=◌}
use packetsonde.Wire.Safe.{
  IsBytes, Ensures, IsBytes-drop, bind, either, past, read_byte, read_bytes, read_u16, read_u32,
}
use packetsonde.Json.Writer.{finish}
use packetsonde.Json.Objects.{Value, string, int, bool, text_of}
use packetsonde.Json.Sizes.{Fits, finish-write_fits, length-decimal}
use packetsonde.Listeners.{Event, publish, hex4, hex_all, same}
use packetsonde.Listeners.Plain.{
  Fits-append, hex4-Fits, hex_all-Fits, mac_text-Fits, word-Fits, if-Fits, publish-finish,
}
use packetsonde.Listeners.Stp.{
  StpState, Bpdu, format_bridge_id, state_str, read_tcn, read_topology, read_bpdu, bpdu_json,
  settle, stp_on_packet,
}

-- The sizes of the text buffers in the code, with the NUL left out.
pub record IsBpdu (b : Bpdu) : Type 0 where
  pub bridge_in : Fits 18 b.bridge_id
  pub root_in : Fits 18 b.root_id
  pub port_in : Fits 4 b.port_id
  pub state_in : Fits 10 b.state
  pub cost_in : b.cost < 2 ^ 32

format_bridge_id-Ensures :
    (id : List ℕ) → IsBytes id → 8 ≤ length id → Ensures (Fits 18) (format_bridge_id id)
unfolding format_bridge_id
format_bridge_id-Ensures id h lt = read_u16 (Fits 18) id 0 _ h (omega arith) λ priority hp.
    read_bytes (Fits 18) id 0 2 6 _ h (omega arith) λ mac hm size.
      let first =
        Fits-append 4 1 (hex4 priority) (46 ∷ []) (hex4-Fits priority hp)
          (word-Fits 1 (46 ∷ []) refl refl) in
      let whole =
        Fits-append 5 (2 * length mac) (hex4 priority ++ 46 ∷ []) (hex_all mac) first
          (hex_all-Fits mac hm) in
      (whole.0, omega (arith, whole.1))

state_str-Fits : (version flags : ℕ) → Fits 10 (state_str version flags)
unfolding state_str
state_str-Fits version flags =
    if-Fits 10 (not (version == 2)) _ _ (word-Fits 10 (ascii "forwarding") refl refl) (
      if-Fits 10 (flags / 32 % 2 == 1) _ _ (word-Fits 10 (ascii "forwarding") refl refl) (
        if-Fits 10 (flags / 16 % 2 == 1) _ _ (word-Fits 10 (ascii "learning") refl refl) (
          if-Fits 10 (flags / 4 % 4 == 3) _ _ (word-Fits 10 (ascii "blocking") refl refl)
            (word-Fits 10 (ascii "discarding") refl refl))))

read_tcn-Ensures : (pkt : List ℕ) → IsBytes pkt → 12 ≤ length pkt → Ensures IsBpdu (read_tcn pkt)
unfolding read_tcn
read_tcn-Ensures pkt h lt = read_bytes IsBpdu pkt 0 6 6 _ h (omega arith) λ mac hm size. record {
  bridge_in = let text = mac_text-Fits mac hm in (text.0, omega (arith, text.1));
  root_in = word-Fits 18 [] refl refl;
  port_in = word-Fits 4 [] refl refl;
  state_in = word-Fits 10 (ascii "tcn") refl refl;
  cost_in = omega arith;
}

read_topology-Ensures :
    (bpdu : List ℕ) (version : ℕ)
    → IsBytes bpdu
    → 35 ≤ length bpdu
    → Ensures IsBpdu (read_topology bpdu version)
unfolding read_topology
read_topology-Ensures bpdu version h lt = read_byte IsBpdu bpdu 0 4 _ h (omega arith) λ flags hf.
    read_u32 IsBpdu bpdu 13 _ h (omega arith) λ root_cost hc.
      read_u16 IsBpdu bpdu 25 _ h (omega arith) λ port_id_raw hp.
        bind (Fits 18) IsBpdu (format_bridge_id (drop 17 bpdu)) _
          (format_bridge_id-Ensures (drop 17 bpdu) (IsBytes-drop 17 bpdu h)
            (omega (arith, length-drop 17 bpdu)))
          λ bridge_id hb.
            bind (Fits 18) IsBpdu (format_bridge_id (drop 5 bpdu)) _
              (format_bridge_id-Ensures (drop 5 bpdu) (IsBytes-drop 5 bpdu h)
                (omega (arith, length-drop 5 bpdu)))
              λ root_id hr. record {
                bridge_in = hb;
                root_in = hr;
                port_in = hex4-Fits port_id_raw hp;
                state_in = state_str-Fits version flags;
                cost_in = omega (arith, hc);
              }

-- Whatever the bytes of a frame, the handler's checks read none behind its end, and a BPDU that
-- passes them has texts that fit their buffers and stand in JSON as they are, and a 32-bit cost.
pub read_bpdu-Ensures : (pkt : List ℕ) → IsBytes pkt → Ensures IsBpdu (read_bpdu pkt)
unfolding read_bpdu
read_bpdu-Ensures pkt h = past IsBpdu (ltb (length pkt) 21) _ λ long.
    read_bytes IsBpdu pkt 0 0 6 _ h (ground arith) λ dst hd size.
      past IsBpdu (not (same dst (0x01 ∷ 0x80 ∷ 0xc2 ∷ 0 ∷ 0 ∷ 0 ∷ []))) _ λ to_bridges.
        read_byte IsBpdu pkt 14 0 _ h (ground arith) λ dsap h0.
          read_byte IsBpdu pkt 14 1 _ h (ground arith) λ ssap h1.
            read_byte IsBpdu pkt 14 2 _ h (ground arith) λ ctrl h2.
              past IsBpdu (not (dsap == 0x42) || not (ssap == 0x42) || not (ctrl == 0x03)) _ λ llc.
                past IsBpdu (ltb (length pkt - 14 - 3) 4) _ λ header.
                  read_u16 IsBpdu pkt 17 _ h (ground arith) λ proto_id hp.
                    past IsBpdu (not (proto_id == 0)) _ λ spanning_tree.
                      read_byte IsBpdu pkt 17 2 _ h (ground arith) λ version hv.
                        read_byte IsBpdu pkt 17 3 _ h (ground arith) λ bpdu_type ht.
                          either IsBpdu (bpdu_type == 0x80) _ _
                            (λ is_tcn. read_tcn-Ensures pkt h (ground arith))
                            λ is_not.
                              past IsBpdu (not (bpdu_type == 0x00) && not (bpdu_type == 0x02)) _
                                λ known. past IsBpdu (ltb (length pkt - 14 - 3) 35) _ λ full.
                                  read_topology-Ensures (drop 17 pkt) version
                                    (IsBytes-drop 17 pkt h) (ground (arith, length-drop 17 pkt))

-- The fields of the published object.
abbrev pub bpdu_fields : Bpdu → List (List ℕ × Value)
bpdu_fields b =
    (ascii "bridge_id", string b.bridge_id)
    ∷ (ascii "root_id", string b.root_id)
    ∷ (ascii "port_id", string b.port_id)
    ∷ (ascii "state", string b.state)
    ∷ (ascii "topology_change", bool b.topology_change)
    ∷ (ascii "cost", int (pos b.cost))
    ∷ []

finish-bpdu_json : (b : Bpdu) → IsBpdu b → finish (bpdu_json b) ≡ some (text_of (bpdu_fields b))
unfolding bpdu_json
finish-bpdu_json b v =
    finish-write_fits 384 0 (bpdu_fields b)
      ((
        refl,
        (
          v.bridge_in.0,
          (
            refl,
            (
              v.root_in.0,
              (refl, (v.port_in.0, (refl, (v.state_in.0, (refl, (tt, (refl, (tt, tt)))))))),
            ),
          ),
        ),
      ))
      (ground (
        arith,
        v.bridge_in.1,
        v.root_in.1,
        v.port_in.1,
        v.state_in.1,
        length-decimal 9 b.cost (omega (arith, v.cost_in)),
      ))

-- What the handler does with a frame on its own handle: it counts the frame, and publishes exactly
-- the text of a BPDU that passes the checks, and counts that.
abbrev pub answer : StpState → Parse Bpdu → Parse (StpState × List Event)
answer st (ok b) = ok (
  record st { events_published = (st.events_published + 1) % 2 ^ 64 },
  record { channel = ascii "discovery.stp"; text = text_of (bpdu_fields b) } ∷ [],
)
answer st reject = ok (st, [])
answer st fault = fault

settle-answer :
    (st : StpState) (m : Parse Bpdu)
    → Ensures IsBpdu m
    → settle st (m >>= λ b. publish (ascii "discovery.stp") (bpdu_json b)) ≡ answer st m
unfolding settle
settle-answer st (ok b) v =
    rw (publish-finish (ascii "discovery.stp") (bpdu_json b) _ _ (finish-bpdu_json b v)) refl
settle-answer st reject v = refl
settle-answer st fault v = absurd v

-- Whatever the bytes of a frame on the listener's own handle, none is read behind its end, the frame
-- is counted, and a BPDU that passes the checks is published with its whole text, which always fits the buffer, and counted.
pub stp_on_packet-answer :
    (st : StpState) (pkt : List ℕ)
    → IsBytes pkt
    → Ensures IsBpdu (read_bpdu pkt)
      × (stp_on_packet st pkt st.pcap_handle
          ≡ answer (record st { packets_seen = (st.packets_seen + 1) % 2 ^ 64 }) (read_bpdu pkt))
unfolding stp_on_packet
stp_on_packet-answer st pkt h =
    let own : not (st.pcap_handle == st.pcap_handle) ≡ false = ground arith in
    let safe = read_bpdu-Ensures pkt h in (safe, simp own (settle-answer _ (read_bpdu pkt) safe))
