-- ===== src/Listeners/Ipv4.antt =====
-- What the listeners for IP protocols have once the checks of an IPv4 header are passed.
use packetsonde.Prelude.{ℕ, ◌+◌, ◌*◌, ◌/◌, ◌%◌, ◌≤◌, ◌≡◌, not, List, ltb, ◌==◌, length, arith}
use packetsonde.Wire.Safe.{IsBytes, Ensures, past, read_byte, read_bytes, read_u16}
use packetsonde.Json.Sizes.{Fits}
use packetsonde.Listeners.{ipv4_for}

-- What `inet_ntop` is documented to give for an IPv4 address: at most 15 digits and dots.
abbrev pub IsNtop : (List ℕ → List ℕ) → Type 0
IsNtop ntop = (a : List ℕ) → IsBytes a → length a ≡ 4 → Fits 15 (ntop a)

-- An address of four bytes, and headers that the packet has in full.
abbrev pub Header : ℕ → List ℕ → List ℕ × ℕ → Type 0
Header hdr_min pkt (src, ihl) = IsBytes src × ((length src ≡ 4) × (14 + ihl + hdr_min ≤ length pkt))

pub ipv4_for-Ensures :
    (protocol hdr_min : ℕ) (pkt : List ℕ)
    → IsBytes pkt
    → Ensures (Header hdr_min pkt) (ipv4_for protocol hdr_min pkt)
unfolding ipv4_for
ipv4_for-Ensures protocol hdr_min pkt h =
    let Q = Header hdr_min pkt in
    past Q (ltb (length pkt) (14 + 20 + hdr_min)) _ λ long.
      read_u16 Q pkt 12 _ h (ground arith) λ ethertype he.
        past Q (not (ethertype == 0x0800)) _ λ is_ip.
          read_byte Q pkt 14 0 _ h (ground arith) λ ver_ihl hv.
            past Q (not (ver_ihl / 16 == 4)) _ λ is_v4. past Q (ltb (ver_ihl % 16 * 4) 20) _ λ full.
              read_byte Q pkt 14 9 _ h (ground arith) λ proto hp.
                past Q (not (proto == protocol)) _ λ for_us.
                  read_bytes Q pkt 14 12 4 _ h (ground arith) λ src hs size.
                    past Q (ltb (length pkt) (14 + ver_ihl % 16 * 4 + hdr_min)) _
                      λ fits. (hs, (size, ground arith))
