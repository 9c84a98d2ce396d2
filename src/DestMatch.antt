-- ===== src/DestMatch.antt =====
-- src/lib/dest_match.c: entries for network destinations, with the verdict on a destination of
-- src/lib/baseline_decide.c. `:` is 58 and `/` is 47; an address is
-- `ip:port`. `scan_v4` stands for `sscanf` with "%u.%u.%u.%u" and gives the four numbers if all four
-- were read, and `atoi` for libc's.
pub mod Texts
pub mod Forms
pub mod Cidr
pub mod Approve
mod Tests
use packetsonde.Prelude.{
  ℕ, zero, suc, ◌+◌, ◌-◌, ◌*◌, ◌/◌, ◌%◌, ◌^◌, Bool, true, false, not, ◌&&◌, ◌||◌, Option, none,
  some, List, [], ◌∷◌, ◌++◌, ltb, leb, ◌==◌, if◌then◌else◌, take, drop, ascii,
}
use packetsonde.Prelude.Int.{ℤ, pos, negsuc}
use packetsonde.Json.Writer.{decimal}
use packetsonde.Json.Extract.{starts}
use packetsonde.Baseline.{BaselineSet, same_path, Verdict, covered_verdict, anomaly, novel}
use packetsonde.Cuts.{split_last, split_first, contains}

-- The arrays `ip` and `port` have 64 and 16 bytes, one of them the NUL's.
abbrev pub cut_raddr : List ℕ → Option (List ℕ × List ℕ) → List ℕ × List ℕ
cut_raddr raddr none = (take 63 raddr, [])
cut_raddr raddr (some (ip, port)) = (take 63 ip, take 15 port)

unfoldable pub split_raddr : List ℕ → List ℕ × List ℕ
unfolding split_last
split_raddr raddr = cut_raddr raddr (split_last 58 raddr)

-- An entry without its port: the last colon starts one unless a slash follows it and none is before
-- it.
abbrev pub cut_entry : List ℕ → Option (List ℕ × List ℕ) → List ℕ × Option (List ℕ)
cut_entry e none = (e, none)
cut_entry e (some (host, port)) =
    if contains 47 host || not (contains 47 port) then (host, some port) else (e, none)

abbrev pub differs : Option (List ℕ) → List ℕ → Bool
differs none rport = false
differs (some eport) rport = not (same_path eport rport)

-- The leading `bits` bits of a 32-bit word, `bits` from 1 to 32: the mask leaves those bits.
abbrev pub keep_bits : ℕ → ℕ → ℕ
keep_bits bits x = x / 2 ^ (32 - bits) * 2 ^ (32 - bits)

-- `if (bits > 32) bits = 32`
abbrev pub at_most_32 : ℕ → ℕ
at_most_32 n = if ltb 32 n then 32 else n

abbrev pub same_net : ℤ → ℕ → ℕ → Bool
same_net (negsuc n) net rip = true
same_net (pos n) net rip =
    if n == 0 then true else keep_bits (at_most_32 n) net == keep_bits (at_most_32 n) rip

abbrev pub words_match : ℤ → Option ℕ → Option ℕ → Bool
words_match bits none rip = false
words_match bits (some net) none = false
words_match bits (some net) (some rip) = same_net bits net rip

abbrev pub word_of : Option (ℕ × ℕ × ℕ × ℕ) → Option ℕ
word_of none = none
word_of (some (a, b, c, d)) =
    if (ltb 255 a || ltb 255 b) || (ltb 255 c || ltb 255 d)
    then none
    else some (a * 16777216 + b * 65536 + c * 256 + d)

-- `net` as "%u.%u.%u.%u".
abbrev pub dotted : ℕ → List ℕ
dotted u =
    decimal (pos (u / 16777216 % 256))
    ++ (46 ∷ decimal (pos (u / 65536 % 256))
        ++ (46 ∷ decimal (pos (u / 256 % 256)) ++ (46 ∷ decimal (pos (u % 256)))))

-- The prefix length of a form: below 0 it is 0, above 32 it is 32.
abbrev pub clamped : ℤ → ℕ
clamped (negsuc n) = 0
clamped (pos n) = at_most_32 n

-- `net & mask`, where no bit is kept for 0.
abbrev pub network : ℕ → ℕ → ℕ
network bits u = if bits == 0 then 0 else keep_bits bits u

abbrev pub cidr_text : ℕ → Option ℕ → Option (List ℕ)
cidr_text bits none = none
cidr_text bits (some u) = some (dotted (network bits u) ++ (47 ∷ decimal (pos bits)))

-- What is written, cut to `cap` with its NUL, or -1.
abbrev pub cut_text : ℕ → Option (List ℕ) → Option (List ℕ)
cut_text cap none = none
cut_text cap (some s) = some (take (cap - 1) s)

module _ (scan_v4 : List ℕ → Option (ℕ × ℕ × ℕ × ℕ)) (atoi : List ℕ → ℤ) where
  unfoldable pub v4_to_u32 : List ℕ → Option ℕ
  v4_to_u32 ip = word_of (scan_v4 ip)

  abbrev pub host_match : List ℕ → List ℕ → Option (List ℕ × List ℕ) → Bool
  host_match e rip none = same_path e rip
  host_match e rip (some (net, bits)) = words_match (atoi bits) (v4_to_u32 net) (v4_to_u32 rip)

  abbrev pub entry_match : List ℕ × Option (List ℕ) → List ℕ × List ℕ → Bool
  entry_match (e, eport) (rip, rport) =
      if differs eport rport
      then false
      else if same_path e []
      then true
      else host_match e rip (split_first 47 e)

  -- Either may be NULL.
  unfoldable pub dest_match : Option (List ℕ) → Option (List ℕ) → Bool
  unfolding split_raddr v4_to_u32 split_first
  dest_match none raddr = false
  dest_match (some entry) none = false
  dest_match (some entry) (some raddr) =
      let e = take 127 entry in entry_match (cut_entry e (split_last 58 e)) (split_raddr raddr)

  abbrev pub any_match : List (List ℕ) → Option (List ℕ) → Bool
  any_match [] raddr = false
  any_match (e ∷ es) raddr = dest_match (some e) raddr || any_match es raddr

  unfoldable pub destset_covered : BaselineSet → Option (List ℕ) → Bool
  unfolding dest_match
  destset_covered s raddr = any_match s.path raddr

  -- ps_baseline_decide_dest of src/lib/baseline_decide.c.
  unfoldable pub decide_dest : BaselineSet → BaselineSet → Option (List ℕ) → Verdict
  unfolding destset_covered
  decide_dest baseline denials raddr =
      if destset_covered baseline raddr
      then covered_verdict
      else if destset_covered denials raddr
      then anomaly
      else novel

  abbrev pub generalize_ip : List ℕ → List ℕ → List ℕ × List ℕ → Option (List ℕ)
  generalize_ip raddr form (ip, port) =
      if same_path form (ascii "exact")
      then some raddr
      else if same_path form (ascii "host")
      then some ip
      else if same_path form (ascii "port")
      then some (58 ∷ port)
      else if starts (ascii "cidr/") form
      then cidr_text (clamped (atoi (drop 5 form))) (v4_to_u32 ip)
      else none

  unfoldable pub generalize : Option (List ℕ) → Option (List ℕ) → ℕ → Option (List ℕ)
  unfolding split_raddr v4_to_u32
  generalize none form cap = none
  generalize (some raddr) none cap = none
  generalize (some raddr) (some form) cap =
      cut_text cap (generalize_ip raddr form (split_raddr raddr))
