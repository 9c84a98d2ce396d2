-- ===== src/Listeners/Dns.antt =====
-- The names and headers of src/agent/src/modules/dns_listener.c: `dns_decompress_name`,
-- `dns_skip_name` and `strip_headers`. -1 is `reject`.
pub mod Safe
pub mod Labels
pub mod Names
pub mod Message
pub mod Whole
pub mod Publish
pub mod Quotes
pub mod Adds
pub mod Unclosed
pub mod Handler
mod Tests
use packetsonde.Prelude.{
  ℕ, zero, suc, ◌+◌, ◌-◌, ◌*◌, ◌/◌, ◌%◌, Bool, true, false, not, ◌||◌, Option, none, some, List, [],
  ◌∷◌, ◌++◌, ltb, leb, ◌==◌, if◌then◌else◌, length, drop,
}
use packetsonde.Wire.{Parse, ok, reject, fault, ◌>>=◌, byte, bytes, read_u16_be, return_if}

-- `if (consumed == -1) consumed = n;`
abbrev pub first_of : Option ℕ → ℕ → ℕ
first_of none n = n
first_of (some c) n = c

-- Behind the loop: what was consumed, and the bytes of `out`.
abbrev pub close : Option ℕ → List ℕ → Parse (ℕ × List ℕ)
close none out = reject
close (some consumed) out = ok (consumed, out)

-- The "." before every label but the first.
abbrev pub separate : Bool → ℕ → List ℕ → Parse (List ℕ)
separate first out_size out =
    if first then ok out else if leb out_size (length out + 1) then reject else ok (out ++ 46 ∷ [])

-- `DNS_DECOMP_LIMIT`
abbrev pub decomp_limit : ℕ
decomp_limit = 10

-- The loop, by the rounds left: at `cur`, after `hops` pointers.
unfoldable pub decompress :
    List ℕ → ℕ → ℕ → ℕ → ℕ → ℕ → Bool → Option ℕ → List ℕ → Parse (ℕ × List ℕ)
decompress pkt out_size offset zero hops cur first consumed out =
    if ltb cur (length pkt) then fault else close consumed out
decompress pkt out_size offset (suc rounds) hops cur first consumed out =
    let more = (do
      len_byte ← byte pkt cur
      let pointer = (do
        _ ← return_if (leb (length pkt) (cur + 1))
        _ ← return_if (ltb decomp_limit (hops + 1))
        low ← byte pkt (cur + 1)
        let ptr = len_byte % 64 * 256 + low
        _ ← return_if (leb (length pkt) ptr)
        decompress pkt out_size offset rounds (hops + 1) ptr first
            (some (first_of consumed (cur - offset + 2))) out)
      let label = (do
        _ ← return_if (ltb (length pkt) (cur + 1 + len_byte))
        out' ← separate first out_size out
        _ ← return_if (leb out_size (length out' + len_byte))
        text ← bytes pkt (cur + 1) len_byte
        decompress pkt out_size offset rounds hops (cur + 1 + len_byte) false consumed
            (out' ++ text))
      if len_byte == 0
          then close (some (first_of consumed (cur - offset + 1))) out
          else if len_byte / 64 == 3
          then pointer
          else if not (len_byte / 64 == 0)
          then reject
          else label) in
    if ltb cur (length pkt) then more else close consumed out

-- A pass over the packet takes a round for each byte at most, and each pointer starts another.
unfoldable pub dns_decompress_name : List ℕ → ℕ → ℕ → Parse (ℕ × List ℕ)
unfolding decompress
dns_decompress_name pkt offset out_size =
    decompress pkt out_size offset ((decomp_limit + 1) * (length pkt + 1)) 0 offset true none []

-- The loop of `dns_skip_name`: a round moves on by two bytes at least.
unfoldable pub skip : List ℕ → ℕ → ℕ → ℕ → Parse ℕ
skip pkt offset zero cur = if ltb cur (length pkt) then fault else reject
skip pkt offset (suc rounds) cur =
    let more = (do
      b ← byte pkt cur
      if b == 0
          then ok (cur - offset + 1)
          else if b / 64 == 3
          then (if leb (length pkt) (cur + 1) then reject else ok (cur - offset + 2))
          else if not (b / 64 == 0)
          then reject
          else skip pkt offset rounds (cur + (1 + b))) in
    if ltb cur (length pkt) then more else reject

unfoldable pub dns_skip_name : List ℕ → ℕ → Parse ℕ
unfolding skip
dns_skip_name pkt offset = skip pkt offset (length pkt) offset

-- The IPv6 loop of `strip_headers`; a round moves on by eight bytes at least.
unfoldable pub strip_ipv6 : List ℕ → ℕ → ℕ → ℕ → Parse ℕ
strip_ipv6 pkt zero next_hdr cur = if ltb cur (length pkt) then fault else reject
strip_ipv6 pkt (suc rounds) next_hdr cur =
    let extension = (do
      _ ← return_if (ltb (length pkt) (cur + 2))
      next ← byte pkt cur
      ext_len ← byte pkt (cur + 1)
      strip_ipv6 pkt rounds next (cur + (ext_len + 1) * 8)) in
    let fragment = (do
      _ ← return_if (ltb (length pkt) (cur + 8))
      next ← byte pkt cur
      strip_ipv6 pkt rounds next (cur + 8)) in
    if ltb cur (length pkt)
    then (if next_hdr == 17
        then (if ltb (length pkt) (cur + 8) then reject else ok (cur + 8))
        else if next_hdr == 0 || next_hdr == 60 || next_hdr == 43
        then extension
        else if next_hdr == 44
        then fragment
        else reject)
    else reject

unfoldable pub strip_ipv4 : List ℕ → Parse ℕ
strip_ipv4 pkt = do
  _ ← return_if (ltb (length pkt) 34)
  ver_ihl ← byte pkt 14
  let ip_hl = ver_ihl % 16 * 4
  _ ← return_if (ltb ip_hl 20 || ltb (length pkt) (14 + ip_hl + 8))
  proto ← byte pkt 23
  _ ← return_if (not (proto == 17))
  ok (14 + ip_hl + 8)

-- Where the DNS message begins.
unfoldable pub strip_headers : List ℕ → Parse ℕ
unfolding strip_ipv4 strip_ipv6
strip_headers pkt = do
  _ ← return_if (ltb (length pkt) 15)
  ethertype ← read_u16_be (drop 12 pkt)
  if ethertype == 0x0800
      then strip_ipv4 pkt
      else if ethertype == 0x86DD
      then (do
        _ ← return_if (ltb (length pkt) 54)
        next_hdr ← byte pkt 20
        strip_ipv6 pkt (length pkt) next_hdr 54)
      else reject
