-- ===== src/Listeners/Cdp.antt =====
-- src/agent/src/modules/cdp_listener.c: what a Cisco device says of itself. `ntop` is `inet_ntop` of
-- an IPv4 address.
pub mod Addresses
pub mod Safe
pub mod Whole
use packetsonde.Prelude.{
  ℕ, zero, suc, ◌+◌, ◌-◌, ◌*◌, ◌/◌, ◌%◌, ◌^◌, Bool, true, false, not, ◌&&◌, ◌||◌, List, [], ◌∷◌,
  ◌++◌, ltb, leb, ◌==◌, if◌then◌else◌, length, drop, ascii,
}
use packetsonde.Prelude.Int.{pos}
use packetsonde.Wire.{Parse, ok, fault, ◌>>=◌, byte, bytes, read_u16_be, read_u32_be, return_if}
use packetsonde.Json.Writer.{
  Json, init, object_begin, object_end, key_string, key_int, array_begin, array_strings, array_end,
}
use packetsonde.Listeners.{Event, publish, copy_string_tlv, same}

pub record CdpDevice : Type 0 where
  pub device_id : List ℕ
  pub platform : List ℕ
  pub sw_version : List ℕ
  pub port_id : List ℕ
  pub mgmt_ip : List ℕ
  pub capabilities : ℕ
  pub native_vlan : ℕ

abbrev pub cdp_unknown : CdpDevice
cdp_unknown = record {
  device_id = [];
  platform = [];
  sw_version = [];
  port_id = [];
  mgmt_ip = [];
  capabilities = 0;
  native_vlan = 0;
}

-- `ip_out[0] == '\0'`
abbrev pub is_unset : List ℕ → Bool
is_unset [] = true
is_unset (c ∷ s) = false

-- The first IPv4 address is kept: `proto` and `addr` are offsets into `val`.
unfoldable pub take_address :
    (List ℕ → List ℕ) → List ℕ → ℕ → ℕ → ℕ → ℕ → ℕ → List ℕ → Parse (List ℕ)
take_address ntop val proto_type proto_len proto addr_len addr ip_out =
    if proto_type == 1 && proto_len == 1
    then (do
      nlpid ← byte val proto
      if nlpid == 0xCC && addr_len == 4 && is_unset ip_out
          then (do a ← bytes val addr 4; ok (ntop a))
          else ok ip_out)
    else ok ip_out

-- The loop of `parse_cdp_addresses` over the entries that are left of `count`. The offset stays
-- below 2^16, so that its sums do not wrap.
unfoldable pub addresses : (List ℕ → List ℕ) → List ℕ → ℕ → ℕ → ℕ → List ℕ → Parse (List ℕ)
unfolding take_address
addresses ntop val vlen zero off ip_out = ok ip_out
addresses ntop val vlen (suc left) off ip_out =
    let more = (do
      proto_type ← byte val off
      proto_len ← byte val (off + 1)
      let proto = off + 2
      let at = proto + proto_len
      if ltb vlen at || ltb vlen (at + 2) then ok ip_out else (do
        addr_len ← read_u16_be (drop at val)
        let addr = at + 2
        if ltb vlen (addr + addr_len) then ok ip_out else (do
          ip_out' ← take_address ntop val proto_type proto_len proto addr_len addr ip_out
          addresses ntop val vlen left (addr + addr_len) ip_out'))) in
    if ltb off vlen && leb (off + 2) vlen then more else ok ip_out

unfoldable pub parse_cdp_addresses : (List ℕ → List ℕ) → List ℕ → ℕ → List ℕ → Parse (List ℕ)
unfolding addresses
parse_cdp_addresses ntop val vlen ip_out =
    if ltb vlen 4
    then ok ip_out
    else (do count ← read_u32_be val; addresses ntop val vlen count 4 ip_out)

-- The `switch` on the type.
unfoldable pub cdp_tlv : (List ℕ → List ℕ) → ℕ → ℕ → List ℕ → CdpDevice → Parse CdpDevice
unfolding parse_cdp_addresses
cdp_tlv ntop type vlen val d =
    if type == 0x0001
    then (do s ← copy_string_tlv val vlen 128; ok (record d { device_id = s }))
    else if (type == 0x0002 || type == 0x0016) && is_unset d.mgmt_ip
    then (do s ← parse_cdp_addresses ntop val vlen d.mgmt_ip; ok (record d { mgmt_ip = s }))
    else if type == 0x0003
    then (do s ← copy_string_tlv val vlen 128; ok (record d { port_id = s }))
    else if type == 0x0004 && leb 4 vlen
    then (do c ← read_u32_be val; ok (record d { capabilities = c }))
    else if type == 0x0005
    then (do s ← copy_string_tlv val vlen 256; ok (record d { sw_version = s }))
    else if type == 0x0006
    then (do s ← copy_string_tlv val vlen 128; ok (record d { platform = s }))
    else if type == 0x000a && leb 2 vlen
    then (do v ← read_u16_be val; ok (record d { native_vlan = v }))
    else ok d

-- The walk over the TLVs, by the rounds left; a round moves on by four bytes at least, so that as
-- many rounds as there are bytes are enough.
unfoldable pub cdp_walk : (List ℕ → List ℕ) → List ℕ → ℕ → ℕ → CdpDevice → Parse CdpDevice
unfolding cdp_tlv
cdp_walk ntop tlvs zero off d = if leb (off + 4) (length tlvs) then fault else ok d
cdp_walk ntop tlvs (suc rounds) off d =
    let more = (do
      type ← read_u16_be (drop off tlvs)
      tlen ← read_u16_be (drop (off + 2) tlvs)
      if ltb tlen 4 || ltb (length tlvs) (off + 4 + (tlen - 4))
          then ok d
          else cdp_tlv ntop type (tlen - 4) (drop (off + 4) tlvs) d
            >>= cdp_walk ntop tlvs rounds (off + tlen)) in
    if leb (off + 4) (length tlvs) then more else ok d

unfoldable pub read_cdp : (List ℕ → List ℕ) → List ℕ → Parse CdpDevice
unfolding cdp_walk
read_cdp ntop pkt = do
  _ ← return_if (ltb (length pkt) 30)
  llc_snap ← bytes pkt 14 8
  _ ← return_if (not (same llc_snap (0xAA ∷ 0xAA ∷ 0x03 ∷ 0 ∷ 0 ∷ 0x0C ∷ 0x20 ∷ 0 ∷ [])))
  let tlvs = drop 26 pkt
  cdp_walk ntop tlvs (length tlvs) 0 cdp_unknown

-- `capabilities & (1 << n)` is `capabilities / 2 ^ n % 2`.
abbrev pub cdp_cap_names : ℕ → List (List ℕ)
cdp_cap_names caps =
    (if caps % 2 == 1 then ascii "router" ∷ [] else [])
    ++ ((if caps / 4 % 2 == 1 then ascii "switch" ∷ [] else [])
        ++ (if caps / 64 % 2 == 1 then ascii "host" ∷ [] else []))

unfoldable pub cdp_json : List ℕ → CdpDevice → Json
cdp_json iface d =
    let j = object_begin (init 2048) in
    let j1 = key_string j (ascii "type") (ascii "cdp") in
    let j2 = key_string j1 (ascii "device_id") d.device_id in
    let j3 = key_string j2 (ascii "platform") d.platform in
    let j4 = key_string j3 (ascii "software_version") d.sw_version in
    let j5 = key_string j4 (ascii "port_id") d.port_id in
    let j6 =
      array_end
        (array_strings (array_begin j5 (ascii "capabilities")) (cdp_cap_names d.capabilities)) in
    let j7 = key_string j6 (ascii "mgmt_ip") d.mgmt_ip in
    let j8 = key_int j7 (ascii "native_vlan") (pos d.native_vlan) in
    let j9 = key_string j8 (ascii "interface") iface in object_end j9

unfoldable pub cdp_on_packet : (List ℕ → List ℕ) → List ℕ → List ℕ → Parse Event
unfolding read_cdp cdp_json
cdp_on_packet ntop iface pkt =
    read_cdp ntop pkt >>= λ d. publish (ascii "discovery.cdp") (cdp_json iface d)
