-- ===== src/Flow/Frame/Safe.antt =====
-- The packet parser of src/agent/src/flow_tracker.c reads only inside the frame, and what it
-- accepts fits the C types of `struct parsed_packet`.
use packetsonde.Prelude.{
  ℕ, ◌^◌, ◌≤◌, ◌<◌, ◌≡◌, ◌&&◌, List, leb, ◌==◌, length, drop, arith, length-drop,
}
use packetsonde.Wire.Safe.{
  either, bind, Ensures, IsBytes, IsU16, read_u16_be-Ensures, IsByte, IsBytes-drop, byte-Ensures,
}
use packetsonde.Wire.{Parse, ◌>>=◌, byte, read_u16_be}
use packetsonde.Flow.Frame.{ParsedPacket, parse_transport}

-- What holds of the packet while it is filled in, for the family `af` and a frame part of `len`
-- bytes.
pub record InRange (af len : ℕ) (pp : ParsedPacket) : Type 0 where
  pub family : pp.af ≡ af
  pub proto_in : pp.proto < 256
  pub src_addr_in : length pp.src_addr ≡ 16
  pub dst_addr_in : length pp.dst_addr ≡ 16
  pub src_port_in : pp.src_port < 65536
  pub dst_port_in : pp.dst_port < 65536
  pub vlan_id_in : pp.vlan_id < 4096
  pub tos_in : pp.tos < 256
  pub flow_label_in : pp.flow_label < 2 ^ 20
  pub payload_in : pp.payload_len ≤ len
  pub tcp_flags_in : pp.tcp_flags < 256

module _ (af len : ℕ) where
  transport_ports :
      (pkt : List ℕ) (Q : ParsedPacket → Type 0) (f : ℕ → ℕ → Parse ParsedPacket)
      → IsBytes pkt
      → 4 ≤ length pkt
      → ((src dst : ℕ) → IsU16 src → IsU16 dst → Ensures Q (f src dst))
      → Ensures Q (read_u16_be pkt >>= λ src. read_u16_be (drop 2 pkt) >>= f src)
  transport_ports pkt Q f h lt k =
      bind IsU16 Q (read_u16_be pkt) _ (read_u16_be-Ensures pkt h (omega arith)) λ src hs.
        bind IsU16 Q (read_u16_be (drop 2 pkt)) _
          (read_u16_be-Ensures (drop 2 pkt) (IsBytes-drop 2 pkt h)
            (omega (arith, length-drop 2 pkt)))
          λ dst hd. k src dst hs hd

  pub parse_transport-Ensures :
      (pkt : List ℕ) (remaining proto : ℕ) (pp : ParsedPacket)
      → IsBytes pkt
      → remaining ≤ length pkt
      → proto < 256
      → InRange af len pp
      → Ensures (InRange af len) (parse_transport pkt remaining proto pp)
  unfolding parse_transport
  parse_transport-Ensures pkt remaining proto pp h fits hp v =
      either (InRange af len) (proto == 6 && leb 14 remaining) _ _
        (λ tcp. transport_ports pkt (InRange af len) _ h (ground arith) λ src dst hs hd.
          bind IsByte (InRange af len) (byte pkt 13) _ (byte-Ensures pkt 13 h (ground arith))
            λ flags hf. omega (arith, v))
        (λ _.
          either (InRange af len) (proto == 17 && leb 4 remaining) _ _
            (λ udp.
              transport_ports pkt (InRange af len) _ h (ground arith)
                λ src dst hs hd. omega (arith, v))
            (λ _. omega (arith, v)))
