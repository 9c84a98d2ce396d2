-- ===== src/Flow/Frame/Accept.antt =====
-- The packet parser of src/agent/src/flow_tracker.c as a whole: the headers, each read in bounds.
use packetsonde.Prelude.{
  ℕ, zero, suc, ◌+◌, ◌-◌, ◌*◌, ◌/◌, ◌%◌, ◌^◌, ◌≤◌, ◌<◌, ◌≡◌, ◌⊎◌, inl, inr, refl, true, not, ◌&&◌,
  ◌||◌, List, ltb, leb, ◌==◌, if◌then◌else◌, length, drop, arith, length-append, length-drop,
}
use packetsonde.Wire.{byte, bytes, read_u16_be}
use packetsonde.Flow.Frame.{
  overlay, af_inet, af_inet6, ParsedPacket, is_ipv6_ext_header, ipv4_fields, parse_ipv4, ext_size,
  walk, ipv6_payload,
}
use packetsonde.Wire.Safe.{
  IsBytes, Ensures, bind, either, weaken, IsBytes-drop, IsByte, IsU16, byte-Ensures, bytes-Ensures,
  read_u16_be-Ensures,
}
use packetsonde.Flow.Frame.Safe.{InRange, parse_transport-Ensures}

-- An accepted packet: one of the two families, every field in its range, marked valid.
pub record IsAccepted (len : ℕ) (pp : ParsedPacket) : Type 0 where
  pub marked : pp.valid ≡ true
  pub family : (pp.af ≡ af_inet) ⊎ (pp.af ≡ af_inet6)
  pub range : InRange pp.af len pp

accept_ipv4 :
    (len : ℕ) (pp : ParsedPacket)
    → InRange af_inet len pp
    → IsAccepted len (record pp { valid = true })
accept_ipv4 len pp v = record { marked = refl; family = inl v.family; range = omega (arith, v) }

accept_ipv6 :
    (len : ℕ) (pp : ParsedPacket)
    → InRange af_inet6 len pp
    → IsAccepted len (record pp { valid = true })
accept_ipv6 len pp v = record { marked = refl; family = inr v.family; range = omega (arith, v) }

pub length-overlay :
    (new old : List ℕ) → length new ≤ length old → length (overlay new old) ≡ length old
length-overlay new old h =
    omega (arith, length-append new (drop (length new) old), length-drop (length new) old)

ipv4_fields-Ensures :
    (pkt : List ℕ) (len ihl total_len : ℕ) (pp : ParsedPacket)
    → IsBytes pkt
    → len ≤ length pkt
    → 20 ≤ len
    → total_len < 65536
    → InRange 0 0 pp
    → Ensures (IsAccepted len) (ipv4_fields pkt len ihl total_len pp)
unfolding ipv4_fields
ipv4_fields-Ensures pkt len ihl total_len pp h fits long total v =
    bind IsByte Q (byte pkt 1) _ (byte-Ensures pkt 1 h (omega arith)) λ tos ht.
      bind Four Q (bytes pkt 12 4) _ (bytes-Ensures pkt 12 4 (omega arith)) λ src hs.
        bind Four Q (bytes pkt 16 4) _ (bytes-Ensures pkt 16 4 (omega arith)) λ dst hd.
          bind IsByte Q (byte pkt 9) _ (byte-Ensures pkt 9 h (omega arith)) λ proto hp.
            let filled = ready tos src dst ht hs hd in
            bind (InRange af_inet len) Q _ _
              (either (InRange af_inet len) (ltb ihl len) _ _
                (λ room.
                  parse_transport-Ensures af_inet len (drop ihl pkt) (len - ihl) proto _
                    (IsBytes-drop ihl pkt h) (omega (arith, length-drop ihl pkt)) hp filled)
                (λ _. omega (arith, filled)))
              (accept_ipv4 len)
  where
    Q : ParsedPacket → Type 0
    Q = IsAccepted len

    Four : List ℕ → Type 0
    Four bs = length bs ≡ 4

    ready :
        (tos : ℕ) (src dst : List ℕ)
        → tos < 256
        → length src ≡ 4
        → length dst ≡ 4
        → InRange af_inet len (record pp {
          af = af_inet;
          tos = tos;
          payload_len = if ltb len total_len then len % 2 ^ 16 else total_len;
          src_addr = overlay src pp.src_addr;
          dst_addr = overlay dst pp.dst_addr;
        })
    ready tos src dst ht hs hd =
        ground (arith, length-overlay src pp.src_addr, length-overlay dst pp.dst_addr, v)

pub parse_ipv4-Ensures :
    (pkt : List ℕ) (len : ℕ) (pp : ParsedPacket)
    → IsBytes pkt
    → len ≤ length pkt
    → InRange 0 0 pp
    → Ensures (IsAccepted len) (parse_ipv4 pkt len pp)
unfolding parse_ipv4
parse_ipv4-Ensures pkt len pp h fits v =
    either Q (ltb len 20) _ _ (λ _. tt)
      λ long. bind IsByte Q (byte pkt 0) _ (byte-Ensures pkt 0 h (ground arith)) λ ver_ihl hb.
        either Q
          (not (ver_ihl / 16 == 4) || ltb (ver_ihl % 16 * 4) 20 || ltb len (ver_ihl % 16 * 4)) _ _
          (λ _. tt)
          λ sized.
            bind IsU16 Q (read_u16_be (drop 2 pkt)) _
              (read_u16_be-Ensures (drop 2 pkt) (IsBytes-drop 2 pkt h)
                (ground (arith, length-drop 2 pkt)))
              λ total_len ht.
                either Q (ltb total_len (ver_ihl % 16 * 4)) _ _ (λ _. tt)
                  (λ _.
                    ipv4_fields-Ensures pkt len (ver_ihl % 16 * 4) total_len pp h fits
                      (ground arith) ht v)
  where
    Q : ParsedPacket → Type 0
    Q = IsAccepted len

-- The walk stops at a protocol byte, and ten headers add at most 2,048 bytes each: the `uint32_t`
-- offset cannot wrap.
abbrev pub Landed : ℕ → ℕ → ℕ × ℕ → Type 0
Landed safety offset (nh, off) = (nh < 256) × (off ≤ offset + safety * 2048)

ext_size-le : (next_header ext_len : ℕ) → ext_len < 256 → ext_size next_header ext_len ≤ 2048
unfolding ext_size
ext_size-le next_header ext_len h = ground arith

pub walk-Ensures :
    (pkt : List ℕ) (len safety next_header offset : ℕ)
    → IsBytes pkt
    → len ≤ length pkt
    → next_header < 256
    → Ensures (Landed safety offset) (walk pkt len safety next_header offset)
unfolding walk
walk-Ensures pkt len zero next_header offset h fits hn = omega arith
walk-Ensures pkt len (suc safety) next_header offset h fits hn =
    either Q (is_ipv6_ext_header next_header && leb (offset + 2) len) _ _
      (λ more.
        bind IsByte Q (byte pkt offset) _ (byte-Ensures pkt offset h (ground arith)) λ ext_nh he.
          bind IsByte Q (byte pkt (offset + 1)) _ (byte-Ensures pkt (offset + 1) h (ground arith))
            λ ext_len hl.
              let size = ext_size next_header ext_len in
              weaken (Landed safety (offset + size)) Q _
                (λ end landed. omega (arith, landed, ext_size-le next_header ext_len hl))
                (walk-Ensures pkt len safety ext_nh (offset + ext_size next_header ext_len) h fits
                  he))
      (λ _. omega arith)
  where
    Q : ℕ × ℕ → Type 0
    Q = Landed (suc safety) offset

pub ipv6_payload-Ensures :
    (pkt : List ℕ) (len : ℕ) (pp : ParsedPacket) (next_header offset : ℕ)
    → IsBytes pkt
    → len ≤ length pkt
    → next_header < 256
    → InRange af_inet6 len pp
    → Ensures (IsAccepted len) (ipv6_payload pkt len pp next_header offset)
unfolding ipv6_payload
ipv6_payload-Ensures pkt len pp next_header offset h fits hn v =
    either (IsAccepted len) (next_header == 50 || next_header == 59) _ _
      (λ _. accept_ipv6 len (record pp { proto = next_header }) (omega (arith, v)))
      (λ _.
        bind (InRange af_inet6 len) (IsAccepted len) _ _
          (either (InRange af_inet6 len) (ltb offset len) _ _
            (λ room.
              parse_transport-Ensures af_inet6 len (drop offset pkt) (len - offset) next_header pp
                (IsBytes-drop offset pkt h) (omega (arith, length-drop offset pkt)) hn v)
            (λ _. omega (arith, v)))
          (accept_ipv6 len))
