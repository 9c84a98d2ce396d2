-- ===== src/Flow/Frame/Whole.antt =====
-- `parse_ipv6` and `parse_ethernet` of src/agent/src/flow_tracker.c, and with them every frame.
use packetsonde.Prelude.{
  ℕ, ◌+◌, ◌-◌, ◌*◌, ◌/◌, ◌%◌, ◌≤◌, ◌<◌, ◌≡◌, not, List, ltb, ◌==◌, if◌then◌else◌, length, drop,
  arith, length-drop,
}
use packetsonde.Wire.{Parse, byte, bytes, read_u16_be}
use packetsonde.Flow.Frame.{
  overlay, af_inet6, ParsedPacket, zero_packet, walk, parse_ipv6, parse_payload, parse_ethernet,
}
use packetsonde.Wire.Safe.{
  IsBytes, Ensures, bind, either, weaken, IsBytes-drop, IsByte, IsU16, byte-Ensures, bytes-Ensures,
  read_u16_be-Ensures,
}
use packetsonde.Flow.Frame.Safe.{InRange}
use packetsonde.Flow.Frame.Accept.{
  IsAccepted, length-overlay, parse_ipv4-Ensures, Landed, walk-Ensures, ipv6_payload-Ensures,
}

abbrev Sixteen : List ℕ → Type 0
Sixteen bs = length bs ≡ 16

-- The fields of the fixed IPv6 header.
ipv6_header-InRange :
    (len : ℕ) (pp : ParsedPacket) (b0 b1 b2 b3 payload_len : ℕ) (src dst : List ℕ)
    → InRange 0 0 pp
    → b0 < 256
    → b1 < 256
    → b2 < 256
    → b3 < 256
    → length src ≡ 16
    → length dst ≡ 16
    → InRange af_inet6 len (record pp {
      tos = b0 % 16 * 16 + b1 / 16;
      flow_label = b1 % 16 * 65536 + b2 * 256 + b3;
      af = af_inet6;
      payload_len = if ltb len (40 + payload_len) then len else 40 + payload_len;
      src_addr = overlay src pp.src_addr;
      dst_addr = overlay dst pp.dst_addr;
    })
ipv6_header-InRange len pp b0 b1 b2 b3 payload_len src dst v h0 h1 h2 h3 hs hd =
    ground (arith, length-overlay src pp.src_addr, length-overlay dst pp.dst_addr, v)

parse_ipv6-Ensures :
    (pkt : List ℕ) (len : ℕ) (pp : ParsedPacket)
    → IsBytes pkt
    → len ≤ length pkt
    → InRange 0 0 pp
    → Ensures (IsAccepted len) (parse_ipv6 pkt len pp)
unfolding parse_ipv6
parse_ipv6-Ensures pkt len pp h fits v =
    either Q (ltb len 40) _ _ (λ _. tt)
      λ long. bind IsByte Q (byte pkt 0) _ (byte-Ensures pkt 0 h (ground arith)) λ b0 h0.
        either Q (not (b0 / 16 == 6)) _ _ (λ _. tt)
          λ six. bind IsByte Q (byte pkt 1) _ (byte-Ensures pkt 1 h (ground arith)) λ b1 h1.
            bind IsByte Q (byte pkt 2) _ (byte-Ensures pkt 2 h (ground arith)) λ b2 h2.
              bind IsByte Q (byte pkt 3) _ (byte-Ensures pkt 3 h (ground arith)) λ b3 h3.
                bind IsU16 Q (read_u16_be (drop 4 pkt)) _
                  (read_u16_be-Ensures (drop 4 pkt) (IsBytes-drop 4 pkt h)
                    (ground (arith, length-drop 4 pkt)))
                  λ payload_len hp.
                    bind Sixteen Q (bytes pkt 8 16) _ (bytes-Ensures pkt 8 16 (ground arith))
                      λ src hs.
                        bind Sixteen Q (bytes pkt 24 16) _ (bytes-Ensures pkt 24 16 (ground arith))
                          λ dst hd.
                            bind IsByte Q (byte pkt 6) _ (byte-Ensures pkt 6 h (ground arith))
                              λ nh hn.
                                bind (Landed 10 40) Q (walk pkt len 10 nh 40) _
                                  (walk-Ensures pkt len 10 nh 40 h fits hn)
                                  λ end landed.
                                    ipv6_payload-Ensures pkt len _ end.0 end.1 h fits landed.0 (
                                      ipv6_header-InRange len pp b0 b1 b2 b3 payload_len src dst v
                                        h0 h1 h2 h3 hs hd)
  where
    Q : ParsedPacket → Type 0
    Q = IsAccepted len

tagged-InRange : (tci : ℕ) → InRange 0 0 (record zero_packet { vlan_id = tci % 4096 })
tagged-InRange tci = omega arith

parse_payload-Ensures :
    (ethertype : ℕ) (payload : List ℕ) (remaining len : ℕ) (pp : ParsedPacket)
    → IsBytes payload
    → remaining ≤ length payload
    → remaining ≤ len
    → InRange 0 0 pp
    → Ensures (IsAccepted len) (parse_payload ethertype payload remaining pp)
unfolding parse_payload
parse_payload-Ensures ethertype payload remaining len pp h fits le v =
    either Q (ethertype == 0x0800) _ _
      (λ _. widen _ (parse_ipv4-Ensures payload remaining pp h fits v))
      (λ _.
        either Q (ethertype == 0x86DD) _ _
          (λ _. widen _ (parse_ipv6-Ensures payload remaining pp h fits v)) (λ _. tt))
  where
    Q : ParsedPacket → Type 0
    Q = IsAccepted len

    widen : (m : Parse ParsedPacket) → Ensures (IsAccepted remaining) m → Ensures Q m
    widen m =
        weaken (IsAccepted remaining) Q m
          λ pp e. record { marked = e.marked; family = e.family; range = omega (arith, e.range) }

-- Whatever the bytes of a frame, the parser reads none behind the captured length, and a packet
-- that it accepts is IPv4 or IPv6 with every field in the range of its C type, 16-byte addresses,
-- and a counted length no greater than the frame.
pub parse_ethernet-Ensures :
    (pkt : List ℕ) (len : ℕ)
    → IsBytes pkt
    → len ≤ length pkt
    → Ensures (IsAccepted len) (parse_ethernet pkt len)
unfolding parse_ethernet
parse_ethernet-Ensures pkt len h fits =
    either Q (ltb len 14) _ _ (λ _. tt)
      λ long.
        bind IsU16 Q (read_u16_be (drop 12 pkt)) _
          (read_u16_be-Ensures (drop 12 pkt) (IsBytes-drop 12 pkt h)
            (ground (arith, length-drop 12 pkt)))
          λ ethertype he.
            either Q (ethertype == 0x8100) _ _
              (λ vlan.
                either Q (ltb (len - 14) 4) _ _ (λ _. tt)
                  λ room.
                    bind IsU16 Q (read_u16_be payload) _
                      (read_u16_be-Ensures payload hp (ground (arith, here)))
                      λ tci ht.
                        bind IsU16 Q (read_u16_be (drop 2 payload)) _
                          (read_u16_be-Ensures (drop 2 payload) (IsBytes-drop 2 payload hp)
                            (ground (arith, here, length-drop 2 payload)))
                          λ inner hi.
                            parse_payload-Ensures inner (drop 4 payload) (len - 14 - 4) len _
                              (IsBytes-drop 4 payload hp)
                              (omega (arith, here, length-drop 4 payload)) (omega arith)
                              (tagged-InRange tci))
              (λ _.
                parse_payload-Ensures ethertype payload (len - 14) len zero_packet hp
                  (omega (arith, here)) (omega arith) (omega arith))
  where
    Q : ParsedPacket → Type 0
    Q = IsAccepted len

    payload : List ℕ
    payload = drop 14 pkt

    hp : IsBytes payload
    hp = IsBytes-drop 14 pkt h

    here : length payload ≡ length pkt - 14
    here = length-drop 14 pkt
