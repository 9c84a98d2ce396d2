-- ===== src/Listeners/Dns/Safe.antt =====
-- Names and headers in src/agent/src/modules/dns_listener.c are read only inside the packet, and the
-- walks end.
use packetsonde.Prelude.{
  ℕ, zero, suc, ◌+◌, ◌-◌, ◌*◌, ◌/◌, ◌%◌, ◌≤◌, ◌<◌, ◌≡◌, Bool, true, false, not, ◌||◌, Option, none,
  some, List, [], ◌++◌, ltb, leb, ◌==◌, length, arith, length-append,
}
use packetsonde.Wire.Safe.{IsBytes, Ensures, bind, either, past, read_byte, read_bytes, read_u16}
use packetsonde.Listeners.Dns.{
  first_of, close, separate, decomp_limit, decompress, dns_decompress_name, skip, dns_skip_name,
  strip_ipv6, strip_ipv4, strip_headers,
}

-- A name that fits its buffer with a NUL, and a length that stays inside the packet.
abbrev pub IsName : List ℕ → ℕ → ℕ → ℕ × List ℕ → Type 0
IsName pkt offset out_size (n, out) = (offset + n ≤ length pkt) × (length out < out_size)

-- What holds of `consumed` at `cur`.
abbrev pub Consumes : List ℕ → ℕ → ℕ → Option ℕ → Type 0
Consumes pkt offset cur none = offset ≤ cur
Consumes pkt offset cur (some n) = offset + n ≤ length pkt

mul_step :
    (h m : ℕ) → h + 1 ≤ decomp_limit → (decomp_limit - h) * m ≡ m + (decomp_limit - (h + 1)) * m
mul_step h m le =
    let one_more : decomp_limit - h ≡ suc (decomp_limit - (h + 1)) = omega arith in
    rw one_more (omega arith)

-- A pointer costs one whole pass.
pass_paid :
    (hops size cur ptr rounds : ℕ)
    → hops + 1 ≤ decomp_limit
    → cur < size
    → (decomp_limit - hops) * (size + 1) + (size - cur) ≤ suc rounds
    → (decomp_limit - (hops + 1)) * (size + 1) + (size - ptr) ≤ rounds
pass_paid hops size cur ptr rounds le lt enough = omega (arith, mul_step hops (size + 1) le)

module _ (pkt : List ℕ) (h : IsBytes pkt) (out_size offset : ℕ) where
  close-Ensures :
      (cur : ℕ) (consumed : Option ℕ) (out : List ℕ)
      → Consumes pkt offset cur consumed
      → length out < out_size
      → Ensures (IsName pkt offset out_size) (close consumed out)
  close-Ensures cur none out hc fits = tt
  close-Ensures cur (some n) out hc fits = (hc, fits)

  first_of-Consumes :
      (cur k : ℕ) (consumed : Option ℕ)
      → Consumes pkt offset cur consumed
      → cur + k ≤ length pkt
      → offset + first_of consumed (cur - offset + k) ≤ length pkt
  first_of-Consumes cur k none hc le = omega arith
  first_of-Consumes cur k (some n) hc le = hc

  later-Consumes :
      (cur k : ℕ) (consumed : Option ℕ)
      → Consumes pkt offset cur consumed
      → Consumes pkt offset (cur + k) consumed
  later-Consumes cur k none hc = omega arith
  later-Consumes cur k (some n) hc = hc

  separate-Ensures :
      (first : Bool) (out : List ℕ)
      → Ensures (λ (out' : List ℕ). Unit) (separate first out_size out)
  separate-Ensures first out =
      either (λ (out' : List ℕ). Unit) first _ _ (λ f. tt)
        (λ f.
          either (λ (out' : List ℕ). Unit) (leb out_size (length out + 1)) _ _ (λ s. tt) (λ s. tt))

  -- The rounds pay for what is left of this pass and for a whole pass after each pointer to come.
  decompress-Ensures :
      (rounds hops cur : ℕ) (first : Bool) (consumed : Option ℕ) (out : List ℕ)
      → Consumes pkt offset cur consumed
      → length out < out_size
      → hops ≤ decomp_limit
      → (decomp_limit - hops) * (length pkt + 1) + (length pkt - cur) ≤ rounds
      → Ensures
          (IsName pkt offset out_size)
          (decompress pkt out_size offset rounds hops cur first consumed out)
  unfolding decompress
  decompress-Ensures zero hops cur first consumed out hc fits hh enough =
      either (IsName pkt offset out_size) (ltb cur (length pkt)) _ _ (λ on. absurd (ground arith))
        (λ end. close-Ensures cur consumed out hc fits)
  decompress-Ensures (suc rounds) hops cur first consumed out hc fits hh enough =
      let Q = IsName pkt offset out_size in
      either Q (ltb cur (length pkt)) _ _
        (λ on. read_byte Q pkt 0 cur _ h (ground arith) λ len_byte hl.
          either Q (len_byte == 0) _ _
            (λ ends. (first_of-Consumes cur 1 consumed hc (ground arith), fits))
            λ _.
              either Q (len_byte / 64 == 3) _ _
                (λ is_pointer. past Q (leb (length pkt) (cur + 1)) _ λ room.
                  past Q (ltb decomp_limit (hops + 1)) _ λ allowed.
                    read_byte Q pkt 0 (cur + 1) _ h (ground arith) λ low hw.
                      past Q (leb (length pkt) (len_byte % 64 * 256 + low)) _ λ inside.
                        decompress-Ensures rounds (hops + 1) (len_byte % 64 * 256 + low) first _ out
                          (first_of-Consumes cur 2 consumed hc (ground arith)) fits (ground arith)
                          (pass_paid hops (length pkt) cur (len_byte % 64 * 256 + low) rounds
                            (ground arith) (ground arith) enough))
                λ _.
                  either Q (not (len_byte / 64 == 0)) _ _ (λ reserved. tt)
                    λ is_label. past Q (ltb (length pkt) (cur + 1 + len_byte)) _ λ whole.
                      bind (λ (out' : List ℕ). Unit) Q (separate first out_size out) _
                        (separate-Ensures first out)
                        λ out' _. past Q (leb out_size (length out' + len_byte)) _ λ short.
                          read_bytes Q pkt 0 (cur + 1) len_byte _ h (ground arith) λ text ht size.
                            decompress-Ensures rounds hops (cur + 1 + len_byte) false consumed
                              (out' ++ text)
                              (later-Consumes (cur + 1) len_byte consumed
                                (later-Consumes cur 1 consumed hc))
                              (ground (arith, size, length-append out' text)) hh (ground arith))
        (λ end. close-Ensures cur consumed out hc fits)

  -- Whatever the bytes of a message: at any offset and for any output buffer, a name is read only
  -- inside the message; the walk ends, however the pointers lead; and a name that is accepted fits
  -- the buffer with its NUL, and the length given for it stays inside the message.
  pub dns_decompress_name-Ensures :
      offset ≤ length pkt
      → 0 < out_size
      → Ensures (IsName pkt offset out_size) (dns_decompress_name pkt offset out_size)
  unfolding dns_decompress_name
  dns_decompress_name-Ensures le room =
      decompress-Ensures _ 0 offset true none [] (omega arith) room (omega arith) (omega arith)

abbrev pub IsInside : List ℕ → ℕ → ℕ → Type 0
IsInside pkt offset n = offset + n ≤ length pkt

skip-Ensures :
    (pkt : List ℕ) (offset rounds cur : ℕ)
    → IsBytes pkt
    → offset ≤ cur
    → length pkt ≤ cur + rounds
    → Ensures (IsInside pkt offset) (skip pkt offset rounds cur)
unfolding skip
skip-Ensures pkt offset zero cur h le enough =
    either (IsInside pkt offset) (ltb cur (length pkt)) _ _ (λ on. absurd (ground arith))
      (λ end. tt)
skip-Ensures pkt offset (suc rounds) cur h le enough =
    let Q = IsInside pkt offset in
    either Q (ltb cur (length pkt)) _ _
      (λ on. read_byte Q pkt 0 cur _ h (ground arith) λ b hb.
        either Q (b == 0) _ _ (λ ends. ground arith)
          λ _.
            either Q (b / 64 == 3) _ _
              (λ pointer.
                either Q (leb (length pkt) (cur + 1)) _ _ (λ cut. tt) (λ whole. ground arith))
              λ _.
                either Q (not (b / 64 == 0)) _ _ (λ reserved. tt)
                  λ is_label.
                    skip-Ensures pkt offset rounds (cur + (1 + b)) h (omega arith) (omega arith))
      (λ end. tt)

strip_ipv6-Ensures :
    (pkt : List ℕ) (rounds next_hdr cur : ℕ)
    → IsBytes pkt
    → length pkt ≤ cur + rounds
    → Ensures (IsInside pkt 0) (strip_ipv6 pkt rounds next_hdr cur)
unfolding strip_ipv6
strip_ipv6-Ensures pkt zero next_hdr cur h enough =
    either (IsInside pkt 0) (ltb cur (length pkt)) _ _ (λ on. absurd (ground arith)) (λ end. tt)
strip_ipv6-Ensures pkt (suc rounds) next_hdr cur h enough =
    let Q = IsInside pkt 0 in
    either Q (ltb cur (length pkt)) _ _
      (λ on.
        either Q (next_hdr == 17) _ _
          (λ udp. either Q (ltb (length pkt) (cur + 8)) _ _ (λ cut. tt) (λ whole. ground arith))
          λ _.
            either Q (next_hdr == 0 || next_hdr == 60 || next_hdr == 43) _ _
              (λ ext. past Q (ltb (length pkt) (cur + 2)) _ λ room.
                read_byte Q pkt 0 cur _ h (ground arith) λ next hn.
                  read_byte Q pkt 0 (cur + 1) _ h (ground arith) λ ext_len hl.
                    strip_ipv6-Ensures pkt rounds next (cur + (ext_len + 1) * 8) h (omega arith))
              λ _.
                either Q (next_hdr == 44) _ _
                  (λ fragment. past Q (ltb (length pkt) (cur + 8)) _ λ room.
                    read_byte Q pkt 0 cur _ h (ground arith)
                      λ next hn. strip_ipv6-Ensures pkt rounds next (cur + 8) h (omega arith))
                  (λ other. tt))
      (λ end. tt)

strip_ipv4-Ensures : (pkt : List ℕ) → IsBytes pkt → Ensures (IsInside pkt 0) (strip_ipv4 pkt)
unfolding strip_ipv4
strip_ipv4-Ensures pkt h =
    let Q = IsInside pkt 0 in
    past Q (ltb (length pkt) 34) _ λ long. read_byte Q pkt 0 14 _ h (ground arith) λ ver_ihl hv.
      past Q (ltb (ver_ihl % 16 * 4) 20 || ltb (length pkt) (14 + ver_ihl % 16 * 4 + 8)) _ λ room.
        read_byte Q pkt 0 23 _ h (ground arith)
          λ proto hp. past Q (not (proto == 17)) _ λ udp. ground arith

pub strip_headers-Ensures :
    (pkt : List ℕ) → IsBytes pkt → Ensures (IsInside pkt 0) (strip_headers pkt)
unfolding strip_headers
strip_headers-Ensures pkt h =
    let Q = IsInside pkt 0 in
    past Q (ltb (length pkt) 15) _ λ long. read_u16 Q pkt 12 _ h (ground arith) λ ethertype he.
      either Q (ethertype == 0x0800) _ _ (λ v4. strip_ipv4-Ensures pkt h)
        λ _.
          either Q (ethertype == 0x86DD) _ _
            (λ v6. past Q (ltb (length pkt) 54) _ λ room.
              read_byte Q pkt 0 20 _ h (ground arith)
                λ next_hdr hn. strip_ipv6-Ensures pkt (length pkt) next_hdr 54 h (omega arith))
            (λ other. tt)

pub dns_skip_name-Ensures :
    (pkt : List ℕ) (offset : ℕ)
    → IsBytes pkt
    → Ensures (IsInside pkt offset) (dns_skip_name pkt offset)
unfolding dns_skip_name
dns_skip_name-Ensures pkt offset h =
    skip-Ensures pkt offset (length pkt) offset h (omega arith) (omega arith)
