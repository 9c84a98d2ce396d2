-- ===== src/Listeners/Lldp/Safe.antt =====
-- src/agent/src/modules/lldp_listener.c reads only inside the frame and inside each TLV, and fills
-- no text beyond its buffer.
use packetsonde.Prelude.{
  ℕ, zero, suc, ◌+◌, ◌-◌, ◌/◌, ◌%◌, ◌^◌, ◌≤◌, ◌<◌, not, ◌&&◌, List, ltb, leb, ◌==◌, length, drop,
  arith, length-drop,
}
use packetsonde.Wire.Safe.{
  IsBytes, Ensures, IsBytes-drop, bind, either, past, read_byte, read_bytes, read_u16,
}
use packetsonde.Listeners.{mac_text, copy_string_tlv}
use packetsonde.Listeners.Plain.{mac_text-Fits}
use packetsonde.Listeners.Ipv4.{IsNtop}
use packetsonde.Listeners.Texts.{Held, Fits-Held, copy_string_tlv-Ensures}
use packetsonde.Listeners.Lldp.{
  Device, unknown, after_subtype, mac_after_subtype, ip_at_two, chassis_text, port_text, mgmt_text,
  cap_tlv, lldp_tlv, lldp_walk, read_lldp,
}

-- The sizes of the text buffers in the code, with the NUL left out, and the C types.
pub record IsDevice (d : Device) : Type 0 where
  pub chassis_in : Held 127 d.chassis_id
  pub port_in : Held 127 d.port_id
  pub name_in : Held 127 d.sys_name
  pub desc_in : Held 255 d.sys_desc
  pub mgmt_in : Held 15 d.mgmt_ip
  pub ttl_in : d.ttl < 2 ^ 16
  pub sys_cap_in : d.sys_cap < 2 ^ 16
  pub en_cap_in : d.en_cap < 2 ^ 16

module _ (payload : List ℕ) (h : IsBytes payload) (n vlen : ℕ)
    (fits : n + vlen ≤ length payload) where
  after_subtype-Ensures : 1 ≤ vlen → Ensures (Held 127) (after_subtype (drop n payload) vlen)
  unfolding after_subtype
  after_subtype-Ensures some_bytes =
      copy_string_tlv-Ensures (drop n payload) 1 (vlen - 1) 127 (IsBytes-drop n payload h)
        (omega (arith, length-drop n payload))

  mac_after_subtype-Ensures : 7 ≤ vlen → Ensures (Held 127) (mac_after_subtype (drop n payload))
  unfolding mac_after_subtype
  mac_after_subtype-Ensures long =
      read_bytes (Held 127) (drop n payload) 1 0 6 _ (IsBytes-drop n payload h)
        (omega (arith, length-drop n payload))
        λ mac hm size.
          let text = mac_text-Fits mac hm in
          Fits-Held 18 127 (mac_text mac) (omega arith) (text.0, omega (arith, text.1))

  module _ (ntop : List ℕ → List ℕ) (law : IsNtop ntop) where
    ip_at_two-Ensures :
        (m : ℕ) → 15 ≤ m → 6 ≤ vlen → Ensures (Held m) (ip_at_two ntop (drop n payload))
    unfolding ip_at_two
    ip_at_two-Ensures m room long =
        read_bytes (Held m) payload n 2 4 _ h (omega arith)
          λ a ha size. Fits-Held 15 m (ntop a) room (law a ha size)

    chassis_text-Ensures : 1 ≤ vlen → Ensures (Held 127) (chassis_text ntop (drop n payload) vlen)
    unfolding chassis_text
    chassis_text-Ensures some_bytes =
        let Q = Held 127 in
        let plain = after_subtype-Ensures some_bytes in
        read_byte Q payload n 0 _ h (omega arith) λ subtype hs.
          either Q (subtype == 4 && vlen == 7) _ _ (λ mac. mac_after_subtype-Ensures (ground arith))
            λ _.
              either Q (subtype == 5 && leb 6 vlen) _ _
                (λ net. read_byte Q payload n 1 _ h (ground arith) λ af ha.
                  either Q (af == 1 && leb 6 vlen) _ _
                    (λ v4. ip_at_two-Ensures 127 (omega arith) (ground arith)) (λ _. plain))
                (λ _. plain)

    port_text-Ensures : 1 ≤ vlen → Ensures (Held 127) (port_text (drop n payload) vlen)
    unfolding port_text
    port_text-Ensures some_bytes = read_byte (Held 127) payload n 0 _ h (omega arith) λ subtype hs.
        either (Held 127) (subtype == 3 && vlen == 7) _ _
          (λ mac. mac_after_subtype-Ensures (ground arith)) (λ _. after_subtype-Ensures some_bytes)

    mgmt_text-Ensures :
        (mgmt_ip : List ℕ)
        → 6 ≤ vlen
        → Held 15 mgmt_ip
        → Ensures (Held 15) (mgmt_text ntop (drop n payload) mgmt_ip)
    unfolding mgmt_text
    mgmt_text-Ensures mgmt_ip long held =
        read_byte (Held 15) payload n 0 _ h (omega arith) λ addr_len hl.
          read_byte (Held 15) payload n 1 _ h (omega arith) λ subtype hs.
            either (Held 15) (subtype == 1 && addr_len == 5) _ _
              (λ v4. ip_at_two-Ensures 15 (omega arith) long) (λ _. held)

    lldp_tlv-Ensures :
        (type : ℕ) (d : Device)
        → IsDevice d
        → Ensures IsDevice (lldp_tlv ntop type vlen (drop n payload) d)
    unfolding lldp_tlv cap_tlv
    lldp_tlv-Ensures type d v =
        let Q = IsDevice in
        let val = drop n payload in
        either Q (type == 1 && leb 1 vlen) _ _
          (λ t.
            bind (Held 127) Q (chassis_text ntop val vlen) _ (chassis_text-Ensures (ground arith))
              λ s hs. ground (arith, v, hs))
          λ _.
            either Q (type == 2 && leb 1 vlen) _ _
              (λ t.
                bind (Held 127) Q (port_text val vlen) _ (port_text-Ensures (ground arith))
                  λ s hs. ground (arith, v, hs))
              λ _.
                either Q (type == 3 && leb 2 vlen) _ _
                  (λ t. read_u16 Q payload n _ h (ground arith) λ ttl ht. ground (arith, v, ht))
                  λ _.
                    either Q (type == 5) _ _
                      (λ t.
                        bind (Held 127) Q (copy_string_tlv val vlen 128) _
                          (copy_string_tlv-Ensures payload n vlen 127 h fits)
                          λ s hs. ground (arith, v, hs))
                      λ _.
                        either Q (type == 6) _ _
                          (λ t.
                            bind (Held 255) Q (copy_string_tlv val vlen 256) _
                              (copy_string_tlv-Ensures payload n vlen 255 h fits)
                              λ s hs. ground (arith, v, hs))
                          λ _.
                            either Q (type == 7 && leb 4 vlen) _ _
                              (λ t. read_u16 Q payload n _ h (ground arith) λ sys_cap hc.
                                read_u16 Q val 2 _ (IsBytes-drop n payload h)
                                  (ground (arith, length-drop n payload))
                                  λ en_cap he. ground (arith, v, hc, he))
                              λ _.
                                either Q (type == 8 && leb 6 vlen) _ _
                                  (λ t.
                                    bind (Held 15) Q (mgmt_text ntop val d.mgmt_ip) _
                                      (mgmt_text-Ensures d.mgmt_ip (ground arith) v.mgmt_in)
                                      λ s hs. ground (arith, v, hs))
                                  (λ _. v)

module _ (ntop : List ℕ → List ℕ) (law : IsNtop ntop) where
  lldp_walk-Ensures :
      (payload : List ℕ) (rounds off : ℕ) (d : Device)
      → IsBytes payload
      → length payload ≤ off + rounds
      → IsDevice d
      → Ensures IsDevice (lldp_walk ntop payload rounds off d)
  unfolding lldp_walk
  lldp_walk-Ensures payload zero off d h enough v = ground (arith, v)
  lldp_walk-Ensures payload (suc rounds) off d h enough v =
      let Q = IsDevice in
      either Q (leb (off + 2) (length payload)) _ _
        (λ more. read_u16 Q payload off _ h (ground arith) λ hdr hh.
          let type = hdr / 512 % 256 in
          let vlen = hdr % 512 in
          either Q (ltb (length payload) (off + 2 + vlen)) _ _ (λ cut. v)
            λ whole.
              bind Q Q (lldp_tlv ntop type vlen (drop (off + 2) payload) d) _
                (lldp_tlv-Ensures payload h (off + 2) vlen (ground arith) ntop law type d v)
                λ d' v'. lldp_walk-Ensures payload rounds _ d' h (ground arith) v')
        (λ done. v)

  -- For `inet_ntop` as documented: whatever the bytes of a frame, the walk over its TLVs reads none
  -- behind the end of the frame, ends within a round for each byte, and fills no text beyond its
  -- buffer and no number beyond its type.
  pub read_lldp-Ensures : (pkt : List ℕ) → IsBytes pkt → Ensures IsDevice (read_lldp ntop pkt)
  unfolding read_lldp
  read_lldp-Ensures pkt h = past IsDevice (ltb (length pkt) 16) _ λ long.
      read_u16 IsDevice pkt 12 _ h (ground arith) λ ethertype he.
        past IsDevice (not (ethertype == 0x88cc)) _ λ is_lldp.
          lldp_walk-Ensures (drop 14 pkt) (length (drop 14 pkt)) 0 unknown (IsBytes-drop 14 pkt h)
            (omega arith) (ground arith)
