-- ===== src/Listeners/Cdp/Safe.antt =====
-- src/agent/src/modules/cdp_listener.c reads only inside the frame and inside each TLV, and fills no
-- text beyond its buffer.
use packetsonde.Prelude.{
  ℕ, zero, suc, ◌+◌, ◌-◌, ◌^◌, ◌≤◌, ◌<◌, not, ◌&&◌, ◌||◌, List, [], ◌∷◌, ltb, leb, ◌==◌, length,
  drop, arith,
}
use packetsonde.Wire.Safe.{
  IsBytes, Ensures, IsBytes-drop, bind, either, past, read_bytes, read_u16, read_u32,
}
use packetsonde.Listeners.{same, copy_string_tlv}
use packetsonde.Listeners.Ipv4.{IsNtop}
use packetsonde.Listeners.Texts.{Held, copy_string_tlv-Ensures}
use packetsonde.Listeners.Cdp.{
  CdpDevice, cdp_unknown, is_unset, parse_cdp_addresses, cdp_tlv, cdp_walk, read_cdp,
}
use packetsonde.Listeners.Cdp.Addresses.{parse_cdp_addresses-Ensures}

-- The sizes of the text buffers in the code, with the NUL left out, and the C types.
pub record IsCdpDevice (d : CdpDevice) : Type 0 where
  pub device_in : Held 127 d.device_id
  pub platform_in : Held 127 d.platform
  pub version_in : Held 255 d.sw_version
  pub port_in : Held 127 d.port_id
  pub mgmt_in : Held 15 d.mgmt_ip
  pub capabilities_in : d.capabilities < 2 ^ 32
  pub vlan_in : d.native_vlan < 2 ^ 16

module _ (ntop : List ℕ → List ℕ) (law : IsNtop ntop) where
  cdp_tlv-Ensures :
      (p : List ℕ) (n type vlen : ℕ) (d : CdpDevice)
      → IsBytes p
      → n + vlen ≤ length p
      → IsCdpDevice d
      → Ensures IsCdpDevice (cdp_tlv ntop type vlen (drop n p) d)
  unfolding cdp_tlv
  cdp_tlv-Ensures p n type vlen d h fits v =
      let Q = IsCdpDevice in
      let val = drop n p in
      either Q (type == 0x0001) _ _
        (λ t.
          bind (Held 127) Q (copy_string_tlv val vlen 128) _
            (copy_string_tlv-Ensures p n vlen 127 h fits) λ s hs. ground (arith, v, hs))
        λ _.
          either Q ((type == 0x0002 || type == 0x0016) && is_unset d.mgmt_ip) _ _
            (λ t.
              bind (Held 15) Q (parse_cdp_addresses ntop val vlen d.mgmt_ip) _
                (parse_cdp_addresses-Ensures ntop law p n vlen d.mgmt_ip h fits v.mgmt_in)
                λ s hs. ground (arith, v, hs))
            λ _.
              either Q (type == 0x0003) _ _
                (λ t.
                  bind (Held 127) Q (copy_string_tlv val vlen 128) _
                    (copy_string_tlv-Ensures p n vlen 127 h fits) λ s hs. ground (arith, v, hs))
                λ _.
                  either Q (type == 0x0004 && leb 4 vlen) _ _
                    (λ t. read_u32 Q p n _ h (ground arith) λ c hc. ground (arith, v, hc))
                    λ _.
                      either Q (type == 0x0005) _ _
                        (λ t.
                          bind (Held 255) Q (copy_string_tlv val vlen 256) _
                            (copy_string_tlv-Ensures p n vlen 255 h fits)
                            λ s hs. ground (arith, v, hs))
                        λ _.
                          either Q (type == 0x0006) _ _
                            (λ t.
                              bind (Held 127) Q (copy_string_tlv val vlen 128) _
                                (copy_string_tlv-Ensures p n vlen 127 h fits)
                                λ s hs. ground (arith, v, hs))
                            λ _.
                              either Q (type == 0x000a && leb 2 vlen) _ _
                                (λ t.
                                  read_u16 Q p n _ h (ground arith)
                                    λ vlan hv. ground (arith, v, hv))
                                (λ _. v)

  cdp_walk-Ensures :
      (tlvs : List ℕ) (rounds off : ℕ) (d : CdpDevice)
      → IsBytes tlvs
      → length tlvs ≤ off + rounds
      → IsCdpDevice d
      → Ensures IsCdpDevice (cdp_walk ntop tlvs rounds off d)
  unfolding cdp_walk
  cdp_walk-Ensures tlvs zero off d h enough v = ground (arith, v)
  cdp_walk-Ensures tlvs (suc rounds) off d h enough v =
      let Q = IsCdpDevice in
      either Q (leb (off + 4) (length tlvs)) _ _
        (λ more. read_u16 Q tlvs off _ h (ground arith) λ type ht.
          read_u16 Q tlvs (off + 2) _ h (ground arith) λ tlen hl.
            either Q (ltb tlen 4 || ltb (length tlvs) (off + 4 + (tlen - 4))) _ _ (λ cut. v)
              λ whole.
                bind Q Q (cdp_tlv ntop type (tlen - 4) (drop (off + 4) tlvs) d) _
                  (cdp_tlv-Ensures tlvs (off + 4) type (tlen - 4) d h (ground arith) v)
                  λ d' v'. cdp_walk-Ensures tlvs rounds (off + tlen) d' h (ground arith) v')
        (λ done. v)

  -- For `inet_ntop` as documented: whatever the bytes of a frame, the walk over its TLVs and over
  -- the address blocks in them reads none behind the end of the frame, ends within a round for each
  -- byte, and fills no text beyond its buffer and no number beyond its type.
  pub read_cdp-Ensures : (pkt : List ℕ) → IsBytes pkt → Ensures IsCdpDevice (read_cdp ntop pkt)
  unfolding read_cdp
  read_cdp-Ensures pkt h = past IsCdpDevice (ltb (length pkt) 30) _ λ long.
      read_bytes IsCdpDevice pkt 0 14 8 _ h (ground arith) λ llc_snap hs size.
        past IsCdpDevice (not (same llc_snap (0xAA ∷ 0xAA ∷ 0x03 ∷ 0 ∷ 0 ∷ 0x0C ∷ 0x20 ∷ 0 ∷ []))) _
          λ is_cdp.
            cdp_walk-Ensures (drop 26 pkt) (length (drop 26 pkt)) 0 cdp_unknown
              (IsBytes-drop 26 pkt h) (omega arith) (ground arith)
