-- ===== src/Listeners.antt =====
-- The passive listeners of src/agent/src/modules, one child for each file. A handler is given the
-- captured bytes, `len` of them. The module's state is there, since `init` has made it.
pub mod Plain
pub mod Dns
pub mod Ipv4
pub mod Texts
pub mod Cdp
pub mod Lldp
pub mod Mld
pub mod Ospf
pub mod Stp
pub mod Vrrp
mod Tests
use packetsonde.Prelude.{
  ◌-◌, not, ltb, ◌+◌, ◌*◌, length, drop, Bool, true, false, ◌&&◌, ℕ, ◌/◌, ◌%◌, ◌==◌, none, some,
  Option, List, [], ◌∷◌, ◌++◌, if◌then◌else◌,
}
use packetsonde.Wire.{Parse, ok, reject, ◌>>=◌, byte, bytes, read_u16_be, return_if}
use packetsonde.Json.Writer.{Json, hex_digit, finish}

-- What a module hands to `ctx->publish`.
pub record Event : Type 0 where
  pub channel : List ℕ
  pub text : List ℕ

-- `if (ps_json_finish(&j) > 0) ctx->publish(...)`
abbrev pub sent : List ℕ → Option (List ℕ) → Parse Event
sent channel none = reject
sent channel (some []) = reject
sent channel (some (c ∷ text)) = ok (record { channel = channel; text = c ∷ text })

unfoldable pub publish : List ℕ → Json → Parse Event
publish channel j = sent channel (finish j)

-- `%02x` and `%04x`.
abbrev pub hex2 : ℕ → List ℕ
hex2 b = hex_digit (b / 16) ∷ hex_digit (b % 16) ∷ []

abbrev pub hex4 : ℕ → List ℕ
hex4 n = hex2 (n / 256) ++ hex2 (n % 256)

-- The C string that starts with these bytes, if a NUL comes behind them.
unfoldable pub c_string : List ℕ → List ℕ
c_string [] = []
c_string (c ∷ s) = let rest = c_string s in if c == 0 then [] else c ∷ rest

abbrev pub hex_all : List ℕ → List ℕ
hex_all [] = []
hex_all (b ∷ bs) = hex2 b ++ hex_all bs

-- "%02x:%02x:%02x:%02x:%02x:%02x"
abbrev pub mac_text : List ℕ → List ℕ
mac_text [] = []
mac_text (b ∷ []) = hex2 b
mac_text (b ∷ c ∷ bs) = (hex2 b ++ 58 ∷ []) ++ mac_text (c ∷ bs)

-- `memcmp(a, b, n) == 0`
abbrev pub same : List ℕ → List ℕ → Bool
same [] qs = true
same (p ∷ ps) [] = false
same (p ∷ ps) (q ∷ qs) = p == q && same ps qs

-- The checks that a listener for an IP protocol makes first, `hdr_min` being the size of that
-- protocol's header: the source address and the length of the IPv4 header.
unfoldable pub ipv4_for : ℕ → ℕ → List ℕ → Parse (List ℕ × ℕ)
ipv4_for protocol hdr_min pkt = do
  _ ← return_if (ltb (length pkt) (14 + 20 + hdr_min))
  ethertype ← read_u16_be (drop 12 pkt)
  _ ← return_if (not (ethertype == 0x0800))
  ver_ihl ← byte (drop 14 pkt) 0
  _ ← return_if (not (ver_ihl / 16 == 4))
  let ihl = ver_ihl % 16 * 4
  _ ← return_if (ltb ihl 20)
  proto ← byte (drop 14 pkt) 9
  _ ← return_if (not (proto == protocol))
  src ← bytes (drop 14 pkt) 12 4
  _ ← return_if (ltb (length pkt) (14 + ihl + hdr_min))
  ok (src, ihl)

-- Into a buffer of `outsz` bytes, which is then read as a C string.
unfoldable pub copy_string_tlv : List ℕ → ℕ → ℕ → Parse (List ℕ)
unfolding c_string
copy_string_tlv val vlen outsz = do
  copied ← bytes val 0 (if ltb vlen (outsz - 1) then vlen else outsz - 1)
  ok (c_string copied)
