-- ===== src/Listeners/Lldp.antt =====
-- src/agent/src/modules/lldp_listener.c: what a neighbouring device says of itself. `ntop` is
-- `inet_ntop` of an IPv4 address.
pub mod Safe
pub mod Whole
use packetsonde.Prelude.{
  ℕ, zero, suc, ◌+◌, ◌-◌, ◌*◌, ◌/◌, ◌%◌, ◌^◌, Bool, not, ◌&&◌, ◌||◌, List, [], ◌∷◌, ◌++◌, ltb, leb,
  ◌==◌, if◌then◌else◌, length, drop, ascii, min,
}
use packetsonde.Prelude.Int.{pos}
use packetsonde.Wire.{Parse, ok, fault, ◌>>=◌, byte, bytes, read_u16_be, return_if}
use packetsonde.Json.Writer.{
  Json, init, object_begin, object_end, key_string, key_int, array_begin, array_strings, array_end,
}
use packetsonde.Listeners.{Event, publish, mac_text, copy_string_tlv}

pub record Device : Type 0 where
  pub chassis_id : List ℕ
  pub port_id : List ℕ
  pub sys_name : List ℕ
  pub sys_desc : List ℕ
  pub mgmt_ip : List ℕ
  pub ttl : ℕ
  pub sys_cap : ℕ
  pub en_cap : ℕ

abbrev pub unknown : Device
unknown = record {
  chassis_id = [];
  port_id = [];
  sys_name = [];
  sys_desc = [];
  mgmt_ip = [];
  ttl = 0;
  sys_cap = 0;
  en_cap = 0;
}

-- A text behind its subtype byte.
unfoldable pub after_subtype : List ℕ → ℕ → Parse (List ℕ)
unfolding copy_string_tlv
after_subtype val vlen = copy_string_tlv (drop 1 val) (vlen - 1) 128

unfoldable pub mac_after_subtype : List ℕ → Parse (List ℕ)
mac_after_subtype val = do mac ← bytes (drop 1 val) 0 6; ok (mac_text mac)

unfoldable pub ip_at_two : (List ℕ → List ℕ) → List ℕ → Parse (List ℕ)
ip_at_two ntop val = do a ← bytes val 2 4; ok (ntop a)

unfoldable pub chassis_text : (List ℕ → List ℕ) → List ℕ → ℕ → Parse (List ℕ)
unfolding after_subtype mac_after_subtype ip_at_two
chassis_text ntop val vlen = do
  subtype ← byte val 0
  if subtype == 4 && vlen == 7
      then mac_after_subtype val
      else if subtype == 5 && leb 6 vlen
      then (do
        af ← byte val 1
        if af == 1 && leb 6 vlen then ip_at_two ntop val else after_subtype val vlen)
      else after_subtype val vlen

unfoldable pub port_text : List ℕ → ℕ → Parse (List ℕ)
unfolding after_subtype mac_after_subtype
port_text val vlen = do
  subtype ← byte val 0
  if subtype == 3 && vlen == 7 then mac_after_subtype val else after_subtype val vlen

unfoldable pub mgmt_text : (List ℕ → List ℕ) → List ℕ → List ℕ → Parse (List ℕ)
unfolding ip_at_two
mgmt_text ntop val mgmt_ip = do
  addr_len ← byte val 0
  subtype ← byte val 1
  if subtype == 1 && addr_len == 5 then ip_at_two ntop val else ok mgmt_ip

unfoldable pub cap_tlv : List ℕ → Device → Parse Device
cap_tlv val d = do
  sys_cap ← read_u16_be val
  en_cap ← read_u16_be (drop 2 val)
  ok (record d { sys_cap = sys_cap; en_cap = en_cap })

-- The `switch` on the type.
unfoldable pub lldp_tlv : (List ℕ → List ℕ) → ℕ → ℕ → List ℕ → Device → Parse Device
unfolding chassis_text port_text mgmt_text cap_tlv
lldp_tlv ntop type vlen val d =
    if type == 1 && leb 1 vlen
    then (do s ← chassis_text ntop val vlen; ok (record d { chassis_id = s }))
    else if type == 2 && leb 1 vlen
    then (do s ← port_text val vlen; ok (record d { port_id = s }))
    else if type == 3 && leb 2 vlen
    then (do t ← read_u16_be val; ok (record d { ttl = t }))
    else if type == 5
    then (do s ← copy_string_tlv val vlen 128; ok (record d { sys_name = s }))
    else if type == 6
    then (do s ← copy_string_tlv val vlen 256; ok (record d { sys_desc = s }))
    else if type == 7 && leb 4 vlen
    then cap_tlv val d
    else if type == 8 && leb 6 vlen
    then (do s ← mgmt_text ntop val d.mgmt_ip; ok (record d { mgmt_ip = s }))
    else ok d

-- The walk over the TLVs, by the rounds left; a round moves on by two bytes at least, so that as
-- many rounds as there are bytes are enough.
unfoldable pub lldp_walk : (List ℕ → List ℕ) → List ℕ → ℕ → ℕ → Device → Parse Device
unfolding lldp_tlv
lldp_walk ntop payload zero off d = if leb (off + 2) (length payload) then fault else ok d
lldp_walk ntop payload (suc rounds) off d =
    let more = (do
      hdr ← read_u16_be (drop off payload)
      let type = hdr / 512 % 256
      let vlen = hdr % 512
      let start = off + 2
      let next = if type == 0 then length payload else start
      if ltb (length payload) (start + vlen)
          then ok d
          else lldp_tlv ntop type vlen (drop start payload) d
            >>= lldp_walk ntop payload rounds (next + vlen)) in
    if leb (off + 2) (length payload) then more else ok d

unfoldable pub read_lldp : (List ℕ → List ℕ) → List ℕ → Parse Device
unfolding lldp_walk
read_lldp ntop pkt = do
  _ ← return_if (ltb (length pkt) 16)
  ethertype ← read_u16_be (drop 12 pkt)
  _ ← return_if (not (ethertype == 0x88cc))
  let payload = drop 14 pkt
  lldp_walk ntop payload (length payload) 0 unknown

-- `en_cap & SYS_CAP_BRIDGE` is the third bit, and `SYS_CAP_ROUTER` the fifth.
abbrev pub cap_names : ℕ → List (List ℕ)
cap_names en_cap =
    (if en_cap / 4 % 2 == 1 then ascii "bridge" ∷ [] else [])
    ++ (if en_cap / 16 % 2 == 1 then ascii "router" ∷ [] else [])

unfoldable pub lldp_json : List ℕ → Device → Json
lldp_json iface d =
    let j = object_begin (init 2048) in
    let j1 = key_string j (ascii "type") (ascii "lldp") in
    let j2 = key_string j1 (ascii "chassis_id") d.chassis_id in
    let j3 = key_string j2 (ascii "port_id") d.port_id in
    let j4 = key_string j3 (ascii "system_name") d.sys_name in
    let j5 = key_string j4 (ascii "system_desc") d.sys_desc in
    let j6 = key_string j5 (ascii "mgmt_ip") d.mgmt_ip in
    let j7 = key_int j6 (ascii "ttl") (pos d.ttl) in
    let j8 = key_int j7 (ascii "sys_cap") (pos d.sys_cap) in
    let j9 = key_int j8 (ascii "en_cap") (pos d.en_cap) in
    let j10 = key_string j9 (ascii "interface") iface in
    let j11 =
      array_end (array_strings (array_begin j10 (ascii "capabilities")) (cap_names d.en_cap)) in
    object_end j11

unfoldable pub lldp_on_packet : (List ℕ → List ℕ) → List ℕ → List ℕ → Parse Event
unfolding read_lldp lldp_json
lldp_on_packet ntop iface pkt =
    read_lldp ntop pkt >>= λ d. publish (ascii "discovery.lldp") (lldp_json iface d)
