-- ===== src/Flow/Frame.antt =====
-- The packet parser of src/agent/src/flow_tracker.c, with Wire's reads. `-1` is `reject`.
pub mod Safe
pub mod Accept
pub mod Whole
use packetsonde.Prelude.{
  ℕ, zero, suc, ◌+◌, ◌-◌, ◌*◌, ◌/◌, ◌%◌, ◌^◌, Bool, true, false, not, ◌&&◌, ◌||◌, none, some, List,
  ◌++◌, ltb, leb, ◌==◌, if◌then◌else◌, length, get_elem?, take, drop, replicate,
}
use packetsonde.Wire.{Parse, ok, reject, fault, ◌>>=◌, byte, bytes, read_u16_be}

-- The target of such a `memcpy`.
abbrev pub overlay : List ℕ → List ℕ → List ℕ
overlay new old = new ++ drop (length new) old

-- `AF_INET` and `AF_INET6`, as Linux numbers them.
abbrev pub af_inet : ℕ
af_inet = 2

abbrev pub af_inet6 : ℕ
af_inet6 = 10

pub record ParsedPacket : Type 0 where
  pub af : ℕ
  pub proto : ℕ
  pub src_addr : List ℕ
  pub dst_addr : List ℕ
  pub src_port : ℕ
  pub dst_port : ℕ
  pub vlan_id : ℕ
  pub tos : ℕ
  pub flow_label : ℕ
  pub payload_len : ℕ
  pub tcp_flags : ℕ
  pub valid : Bool

-- `memset(pp, 0, sizeof(*pp))`
abbrev pub zero_packet : ParsedPacket
zero_packet = record {
  af = 0;
  proto = 0;
  src_addr = replicate 16 0;
  dst_addr = replicate 16 0;
  src_port = 0;
  dst_port = 0;
  vlan_id = 0;
  tos = 0;
  flow_label = 0;
  payload_len = 0;
  tcp_flags = 0;
  valid = false;
}

unfoldable pub is_ipv6_ext_header : ℕ → Bool
is_ipv6_ext_header nh = nh == 0 || nh == 43 || nh == 44 || nh == 60 || nh == 51

unfoldable pub parse_transport : List ℕ → ℕ → ℕ → ParsedPacket → Parse ParsedPacket
parse_transport pkt remaining proto pp =
    if proto == 6 && leb 14 remaining
    then (do
      src ← read_u16_be pkt
      dst ← read_u16_be (drop 2 pkt)
      flags ← byte pkt 13
      ok (record pp { proto = proto; src_port = src; dst_port = dst; tcp_flags = flags }))
    else if proto == 17 && leb 4 remaining
    then (do
      src ← read_u16_be pkt
      dst ← read_u16_be (drop 2 pkt)
      ok (record pp { proto = proto; src_port = src; dst_port = dst }))
    else ok (record pp { proto = proto })

-- The fields of an IPv4 header of `ihl` bytes whose lengths have been checked.
unfoldable pub ipv4_fields : List ℕ → ℕ → ℕ → ℕ → ParsedPacket → Parse ParsedPacket
ipv4_fields pkt len ihl total_len pp = do
  tos ← byte pkt 1
  src ← bytes pkt 12 4
  dst ← bytes pkt 16 4
  proto ← byte pkt 9
  let pp' = record pp {
    af = af_inet;
    tos = tos;
    payload_len = if ltb len total_len then len % 2 ^ 16 else total_len;
    src_addr = overlay src pp.src_addr;
    dst_addr = overlay dst pp.dst_addr;
  }
  pp'' ←
      (if ltb ihl len
        then parse_transport (drop ihl pkt) (len - ihl) proto pp'
        else ok (record pp' { proto = proto }))
  ok (record pp'' { valid = true })

-- `ver_ihl >> 4` and `ver_ihl & 0x0f` are the quotient and the remainder by 16.
unfoldable pub parse_ipv4 : List ℕ → ℕ → ParsedPacket → Parse ParsedPacket
parse_ipv4 pkt len pp = if ltb len 20 then reject else (do
  ver_ihl ← byte pkt 0
  let ihl = ver_ihl % 16 * 4
  if not (ver_ihl / 16 == 4) || ltb ihl 20 || ltb len ihl then reject else (do
    total_len ← read_u16_be (drop 2 pkt)
    if ltb total_len ihl then reject else ipv4_fields pkt len ihl total_len pp))

-- The size of an IPv6 extension header, by its own type and its length byte.
unfoldable pub ext_size : ℕ → ℕ → ℕ
ext_size next_header ext_len =
    if next_header == 44
    then 8
    else if next_header == 51
    then (ext_len + 2) * 4
    else (ext_len + 1) * 8

-- The walk over the extension headers, by the rounds left in `safety`: the transport protocol and
-- its offset. Each round adds at most 2,048 to the offset, so the `uint32_t` sums do not wrap.
unfoldable pub walk : List ℕ → ℕ → ℕ → ℕ → ℕ → Parse (ℕ × ℕ)
walk pkt len zero next_header offset = ok (next_header, offset)
walk pkt len (suc safety) next_header offset =
    let more = (do
      ext_nh ← byte pkt offset
      ext_len ← byte pkt (offset + 1)
      walk pkt len safety ext_nh (offset + ext_size next_header ext_len)) in
    if is_ipv6_ext_header next_header && leb (offset + 2) len
    then more
    else ok (next_header, offset)

-- What follows the walk: ESP and "no next header" end the parse.
unfoldable pub ipv6_payload : List ℕ → ℕ → ParsedPacket → ℕ → ℕ → Parse ParsedPacket
ipv6_payload pkt len pp next_header offset =
    if next_header == 50 || next_header == 59
    then ok (record pp { proto = next_header; valid = true })
    else (do
      pp' ←
          (if ltb offset len
            then parse_transport (drop offset pkt) (len - offset) next_header pp
            else ok (record pp { proto = next_header }))
      ok (record pp' { valid = true }))

unfoldable pub parse_ipv6 : List ℕ → ℕ → ParsedPacket → Parse ParsedPacket
parse_ipv6 pkt len pp = if ltb len 40 then reject else (do
  b0 ← byte pkt 0
  if not (b0 / 16 == 6) then reject else (do
    b1 ← byte pkt 1
    b2 ← byte pkt 2
    b3 ← byte pkt 3
    payload_len ← read_u16_be (drop 4 pkt)
    src ← bytes pkt 8 16
    dst ← bytes pkt 24 16
    next_header ← byte pkt 6
    (nh, offset) ← walk pkt len 10 next_header 40
    ipv6_payload pkt len
        (record pp {
          tos = b0 % 16 * 16 + b1 / 16;
          flow_label = b1 % 16 * 65536 + b2 * 256 + b3;
          af = af_inet6;
          payload_len = if ltb len (40 + payload_len) then len else 40 + payload_len;
          src_addr = overlay src pp.src_addr;
          dst_addr = overlay dst pp.dst_addr;
        })
        nh offset))

-- By EtherType, on the payload behind the Ethernet header and any VLAN tag.
unfoldable pub parse_payload : ℕ → List ℕ → ℕ → ParsedPacket → Parse ParsedPacket
parse_payload ethertype payload remaining pp =
    if ethertype == 0x0800
    then parse_ipv4 payload remaining pp
    else if ethertype == 0x86DD
    then parse_ipv6 payload remaining pp
    else reject

unfoldable pub parse_ethernet : List ℕ → ℕ → Parse ParsedPacket
parse_ethernet pkt len = if ltb len 14 then reject else (do
  ethertype ← read_u16_be (drop 12 pkt)
  let payload = drop 14 pkt
  let remaining = len - 14
  if ethertype == 0x8100
      then (if ltb remaining 4 then reject else (do
        tci ← read_u16_be payload
        inner ← read_u16_be (drop 2 payload)
        parse_payload inner (drop 4 payload) (remaining - 4)
            (record zero_packet { vlan_id = tci % 4096 })))
      else parse_payload ethertype payload remaining zero_packet)
