-- ===== src/Demux/Fields.antt =====
-- What the decoder of protocol_demux.c reads of a frame.
use packetsonde.Prelude.{
  ℕ, ◌+◌, ◌*◌, ◌%◌, List, length, drop, leb, ltb, ◌==◌, arith, length-drop, ◌<◌,
}
use packetsonde.Wire.Safe.{
  IsBytes, IsU16, Ensures, either, past, read_u16, read_byte, read_u16_be-Ensures, IsBytes-drop,
  bind,
}
use packetsonde.Demux.{Decoded, dstport_at, decode_ipv4, decode_ipv6, decode}

-- Each field is in the range of its C type.
pub record IsDecoded (d : Decoded) : Type 0 where
  pub type_in : d.frame_type < 65536
  pub proto_in : d.proto < 256
  pub port_in : d.dstport < 65536

dstport_at-Ensures : (pkt : List ℕ) (off : ℕ) → IsBytes pkt → Ensures IsU16 (dstport_at pkt off)
unfolding dstport_at
dstport_at-Ensures pkt off h =
    either IsU16 (leb (off + 4) (length pkt)) _ _
      (λ fits.
        read_u16_be-Ensures (drop (off + 2) pkt) (IsBytes-drop (off + 2) pkt h)
          (ground (arith, length-drop (off + 2) pkt)))
      (λ short. omega arith)

decode_ipv4-Ensures : (pkt : List ℕ) → IsBytes pkt → Ensures IsDecoded (decode_ipv4 pkt)
unfolding decode_ipv4
decode_ipv4-Ensures pkt h =
    either IsDecoded (leb 24 (length pkt)) _ _
      (λ fits. read_byte IsDecoded pkt 14 9 _ h (ground arith) λ proto small.
        either IsDecoded (proto == 17) _ _
          (λ udp. read_byte IsDecoded pkt 14 0 _ h (ground arith) λ first hf.
            bind IsU16 IsDecoded (dstport_at pkt (14 + first % 16 * 4)) _
              (dstport_at-Ensures pkt (14 + first % 16 * 4) h) λ port hp. omega arith)
          (λ other. omega arith))
      (λ short. omega arith)

decode_ipv6-Ensures : (pkt : List ℕ) → IsBytes pkt → Ensures IsDecoded (decode_ipv6 pkt)
unfolding decode_ipv6
decode_ipv6-Ensures pkt h =
    either IsDecoded (leb 21 (length pkt)) _ _
      (λ fits. read_byte IsDecoded pkt 14 6 _ h (ground arith) λ proto small.
        either IsDecoded (proto == 17) _ _
          (λ udp.
            bind IsU16 IsDecoded (dstport_at pkt 54) _ (dstport_at-Ensures pkt 54 h)
              λ port hp. omega arith)
          (λ other. omega arith))
      (λ short. omega arith)

pub decode-Ensures : (pkt : List ℕ) → IsBytes pkt → Ensures IsDecoded (decode pkt)
unfolding decode
decode-Ensures pkt h = past IsDecoded (ltb (length pkt) 14) _ λ long.
    read_u16 IsDecoded pkt 12 _ h (ground arith) λ t ht.
      either IsDecoded (t == 2048) _ _ (λ v4. decode_ipv4-Ensures pkt h)
        (λ not_v4.
          either IsDecoded (t == 34525) _ _ (λ v6. decode_ipv6-Ensures pkt h)
            (λ other. omega arith))
