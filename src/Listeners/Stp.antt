-- ===== src/Listeners/Stp.antt =====
-- src/agent/src/modules/stp_listener.c: bridge announcements (BPDUs).
pub mod Safe
use packetsonde.Prelude.{
  ℕ, ◌+◌, ◌-◌, ◌/◌, ◌%◌, ◌^◌, Bool, true, false, not, ◌&&◌, ◌||◌, List, [], ◌∷◌, ◌++◌, ltb, ◌==◌,
  if◌then◌else◌, length, drop, ascii,
}
use packetsonde.Prelude.Int.{pos}
use packetsonde.Wire.{
  Parse, ok, reject, fault, ◌>>=◌, byte, bytes, read_u16_be, read_u32_be, return_if,
}
use packetsonde.Json.Writer.{Json, init, object_begin, object_end, key_string, key_int, key_bool}
use packetsonde.Listeners.{Event, publish, hex2, hex4, hex_all, mac_text, same}

-- `struct stp_state`; a handle is an `int`, here as its 32-bit word.
pub record StpState : Type 0 where
  pub pcap_handle : ℕ
  pub packets_seen : ℕ
  pub events_published : ℕ

-- What a published event tells.
pub record Bpdu : Type 0 where
  pub bridge_id : List ℕ
  pub root_id : List ℕ
  pub port_id : List ℕ
  pub state : List ℕ
  pub topology_change : Bool
  pub cost : ℕ

-- An identifier of eight bytes: the priority and an address.
unfoldable pub format_bridge_id : List ℕ → Parse (List ℕ)
format_bridge_id id = do
  priority ← read_u16_be id
  mac ← bytes id 2 6
  ok ((hex4 priority ++ 46 ∷ []) ++ hex_all mac)

-- `(flags >> n) & 1` is `flags / 2 ^ n % 2`.
unfoldable pub state_str : ℕ → ℕ → List ℕ
state_str version flags =
    if not (version == 2)
    then ascii "forwarding"
    else if flags / 32 % 2 == 1
    then ascii "forwarding"
    else if flags / 16 % 2 == 1
    then ascii "learning"
    else if flags / 4 % 4 == 3
    then ascii "blocking"
    else ascii "discarding"

unfoldable pub read_tcn : List ℕ → Parse Bpdu
read_tcn pkt = do
  mac ← bytes pkt 6 6
  ok (record {
    bridge_id = mac_text mac;
    root_id = [];
    port_id = [];
    state = ascii "tcn";
    topology_change = true;
    cost = 0;
  })

unfoldable pub read_topology : List ℕ → ℕ → Parse Bpdu
unfolding format_bridge_id state_str
read_topology bpdu version = do
  flags ← byte bpdu 4
  root_cost ← read_u32_be (drop 13 bpdu)
  port_id_raw ← read_u16_be (drop 25 bpdu)
  bridge_id ← format_bridge_id (drop 17 bpdu)
  root_id ← format_bridge_id (drop 5 bpdu)
  ok (record {
    bridge_id = bridge_id;
    root_id = root_id;
    port_id = hex4 port_id_raw;
    state = state_str version flags;
    topology_change = flags % 2 == 1;
    cost = root_cost;
  })

-- The checks of the handler, in its order.
unfoldable pub read_bpdu : List ℕ → Parse Bpdu
unfolding read_tcn read_topology
read_bpdu pkt = do
  _ ← return_if (ltb (length pkt) 21)
  dst ← bytes pkt 0 6
  _ ← return_if (not (same dst (0x01 ∷ 0x80 ∷ 0xc2 ∷ 0 ∷ 0 ∷ 0 ∷ [])))
  dsap ← byte (drop 14 pkt) 0
  ssap ← byte (drop 14 pkt) 1
  ctrl ← byte (drop 14 pkt) 2
  _ ← return_if (not (dsap == 0x42) || not (ssap == 0x42) || not (ctrl == 0x03))
  let bpdu = drop 17 pkt
  let bpdu_len = length pkt - 14 - 3
  _ ← return_if (ltb bpdu_len 4)
  proto_id ← read_u16_be bpdu
  _ ← return_if (not (proto_id == 0))
  version ← byte bpdu 2
  bpdu_type ← byte bpdu 3
  if bpdu_type == 0x80 then read_tcn pkt else (do
    _ ← return_if (not (bpdu_type == 0x00) && not (bpdu_type == 0x02))
    _ ← return_if (ltb bpdu_len 35)
    read_topology bpdu version)

-- Either branch builds its text this way.
unfoldable pub bpdu_json : Bpdu → Json
bpdu_json b =
    let j = object_begin (init 384) in
    let j1 = key_string j (ascii "bridge_id") b.bridge_id in
    let j2 = key_string j1 (ascii "root_id") b.root_id in
    let j3 = key_string j2 (ascii "port_id") b.port_id in
    let j4 = key_string j3 (ascii "state") b.state in
    let j5 = key_bool j4 (ascii "topology_change") b.topology_change in
    let j6 = key_int j5 (ascii "cost") (pos b.cost) in object_end j6

-- The packet is counted before anything is read of it, the event when it is published.
unfoldable pub settle : StpState → Parse Event → Parse (StpState × List Event)
settle st (ok e) = ok (record st { events_published = (st.events_published + 1) % 2 ^ 64 }, e ∷ [])
settle st reject = ok (st, [])
settle st fault = fault

unfoldable pub stp_on_packet : StpState → List ℕ → ℕ → Parse (StpState × List Event)
unfolding read_bpdu bpdu_json settle
stp_on_packet st pkt handle_id =
    if not (handle_id == st.pcap_handle)
    then ok (st, [])
    else settle (record st { packets_seen = (st.packets_seen + 1) % 2 ^ 64 })
        (read_bpdu pkt >>= λ b. publish (ascii "discovery.stp") (bpdu_json b))
