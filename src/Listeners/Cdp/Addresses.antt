-- ===== src/Listeners/Cdp/Addresses.antt =====
-- The address blocks of src/agent/src/modules/cdp_listener.c are read only inside their TLV.
use packetsonde.Prelude.{
  ℕ, zero, suc, ◌+◌, ◌≤◌, ◌&&◌, ◌||◌, List, ltb, leb, ◌==◌, length, drop, arith, length-drop,
}
use packetsonde.Wire.Safe.{
  IsBytes, Ensures, IsBytes-drop, bind, either, read_byte, read_bytes, read_u16, read_u32,
}
use packetsonde.Listeners.Ipv4.{IsNtop}
use packetsonde.Listeners.Texts.{Held, Fits-Held}
use packetsonde.Listeners.Cdp.{is_unset, take_address, addresses, parse_cdp_addresses}

module _ (ntop : List ℕ → List ℕ) (law : IsNtop ntop) where
  take_address-Ensures :
      (val : List ℕ) (proto_type proto_len proto addr_len addr : ℕ) (ip_out : List ℕ)
      → IsBytes val
      → proto + proto_len ≤ length val
      → addr + addr_len ≤ length val
      → Held 15 ip_out
      → Ensures (Held 15) (take_address ntop val proto_type proto_len proto addr_len addr ip_out)
  unfolding take_address
  take_address-Ensures val proto_type proto_len proto addr_len addr ip_out h has_proto has_addr
        held =
      let Q = Held 15 in
      either Q (proto_type == 1 && proto_len == 1) _ _
        (λ nlpids. read_byte Q val 0 proto _ h (ground arith) λ nlpid hn.
          either Q (nlpid == 0xCC && addr_len == 4 && is_unset ip_out) _ _
            (λ ipv4.
              read_bytes Q val 0 addr 4 _ h (ground arith)
                λ a ha size. Fits-Held 15 15 (ntop a) (omega arith) (law a ha size))
            (λ _. held))
        (λ _. held)

  addresses-Ensures :
      (val : List ℕ) (vlen left off : ℕ) (ip_out : List ℕ)
      → IsBytes val
      → vlen ≤ length val
      → Held 15 ip_out
      → Ensures (Held 15) (addresses ntop val vlen left off ip_out)
  unfolding addresses
  addresses-Ensures val vlen zero off ip_out h fits held = held
  addresses-Ensures val vlen (suc left) off ip_out h fits held =
      let Q = Held 15 in
      either Q (ltb off vlen && leb (off + 2) vlen) _ _
        (λ more. read_byte Q val 0 off _ h (ground arith) λ proto_type ht.
          read_byte Q val 0 (off + 1) _ h (ground arith) λ proto_len hl.
            let at = off + 2 + proto_len in
            either Q (ltb vlen at || ltb vlen (at + 2)) _ _ (λ cut. held)
              λ whole. read_u16 Q val at _ h (ground arith) λ addr_len ha.
                either Q (ltb vlen (at + 2 + addr_len)) _ _ (λ cut. held)
                  λ full.
                    bind Q Q
                      (take_address ntop val proto_type proto_len (off + 2) addr_len (at + 2)
                        ip_out)
                      _
                      (take_address-Ensures val proto_type proto_len (off + 2) addr_len (at + 2)
                        ip_out h (ground arith) (ground arith) held)
                      λ ip_out' held'.
                        addresses-Ensures val vlen left (at + 2 + addr_len) ip_out' h fits held')
        (λ done. held)

  pub parse_cdp_addresses-Ensures :
      (p : List ℕ) (n vlen : ℕ) (ip_out : List ℕ)
      → IsBytes p
      → n + vlen ≤ length p
      → Held 15 ip_out
      → Ensures (Held 15) (parse_cdp_addresses ntop (drop n p) vlen ip_out)
  unfolding parse_cdp_addresses
  parse_cdp_addresses-Ensures p n vlen ip_out h fits held =
      either (Held 15) (ltb vlen 4) _ _ (λ short. held)
        λ long. read_u32 (Held 15) p n _ h (ground arith) λ count hc.
          addresses-Ensures (drop n p) vlen count 4 ip_out (IsBytes-drop n p h)
            (omega (arith, length-drop n p)) held
