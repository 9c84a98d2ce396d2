-- ===== src/Demux/Tests.antt =====
-- Runs of src/agent/src/capture/protocol_demux.c.
use packetsonde.Prelude.{
  ℕ, ◌+◌, ◌*◌, ◌≡◌, refl, true, false, none, List, [], ◌∷◌, ◌++◌, ◌==◌, replicate, ascii, arith,
}
use packetsonde.Prelude.Int.{pos}
use packetsonde.Wire.{ok, byte, read_u16_be}
use packetsonde.Wire.Safe.{Ensures}
use packetsonde.Demux.{
  udp_port, ethertype, Entry, Demux, Call, register, set_enabled, same_first, dispatch,
}
use packetsonde.Demux.Calls.{Chosen, dispatch-set_enabled}
use packetsonde.Demux.Udp.{udp_frame, added, dispatch-register}

abbrev dns_entry : Entry
dns_entry = record {
  name = ascii "dns";
  match_type = udp_port;
  match_value = 53;
  match_fn = none;
  handler = 1;
  userdata = 7;
  enabled = true;
}

abbrev arp_entry : Entry
arp_entry = record {
  name = ascii "arp";
  match_type = ethertype;
  match_value = 2054;
  match_fn = none;
  handler = 2;
  userdata = 8;
  enabled = true;
}

abbrev one_handler : Demux
one_handler = record { entries = arp_entry ∷ [] }

abbrev macs : List ℕ
macs = replicate 12 2

abbrev dns_frame : List ℕ
dns_frame = udp_frame macs (replicate 8 0) (replicate 14 9) (200 ∷ 1 ∷ []) (1 ∷ 2 ∷ []) 70 0 53

dispatch-set_enabled_example :
    let (code, dmx) =
      set_enabled (record { entries = (arp_entry ∷ []) ++ dns_entry ∷ [] }) (ascii "dns") false in
    let others : Demux = record { entries = (arp_entry ∷ []) ++ [] } in
    (code ≡ pos 0)
    × (dispatch dns_frame 5 0 dmx ≡ dispatch dns_frame 5 0 others)
    × Ensures (Chosen dns_frame 5 0 ((arp_entry ∷ []) ++ [])) (dispatch dns_frame 5 0 others)
unfolding same_first
dispatch-set_enabled_example =
    dispatch-set_enabled (arp_entry ∷ []) [] dns_entry (ascii "dns") dns_frame 5 0 refl refl
      (omega arith)

dispatch-register_example :
    let dmx' = (register one_handler (ascii "dns") udp_port 53 1 7).1 in
    (cs : List Call) × (dispatch dns_frame 5 0 one_handler ≡ ok cs)
    × (dispatch dns_frame 5 0 dmx' ≡ ok (cs ++ added dns_frame 5 0 1 7 (0 * 256 + 53 == 53)))
dispatch-register_example =
    dispatch-register one_handler (ascii "dns") 53 1 7 5 0 macs (replicate 8 0) (replicate 14 9)
      (200 ∷ 1 ∷ []) (1 ∷ 2 ∷ []) 70 0 53 (omega arith) (omega arith) (omega arith)
      (record { twelve = refl; eight = refl; header_size = refl; two = refl })

-- A frame of 13 bytes reaches no handler; one for port 53 reaches the second of two.
dispatched :
    dispatch dns_frame 5 0 (record { entries = arp_entry ∷ dns_entry ∷ [] })
    ≡ ok (record { callee = 1; pkt = dns_frame; ts_usec = 5; handle_id = 0; argument = 7 } ∷ [])
unfolding dispatch byte read_u16_be
dispatched = refl
