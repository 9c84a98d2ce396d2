-- ===== src/Listeners/Mld/Safe.antt =====
-- src/agent/src/modules/mld_listener.c reads only inside the frame, and its texts fit the buffer.
use packetsonde.Prelude.{
  ℕ, zero, suc, ◌+◌, ◌-◌, ◌*◌, ◌/◌, ◌≤◌, ◌≡◌, refl, not, ◌||◌, Option, some, none, List, [], ◌∷◌,
  ltb, ◌==◌, length, drop, arith, ascii, length-drop,
}
use packetsonde.Wire.{ok, byte}
use packetsonde.Wire.Safe.{
  IsByte, byte-Ensures, bind_known, weaken, IsBytes, Ensures, IsBytes-drop, bind, either, past,
  read_byte, read_bytes, read_u16,
}
use packetsonde.Json.Sizes.{Fits}
use packetsonde.Listeners.Plain.{word-Fits, if-Fits}
use packetsonde.Listeners.Mld.{
  Membership, walk_headers, type_name, read_records, read_icmp6, after_walk, read_mld,
}
use packetsonde.Listeners.Mld.Walk.{Ends, Meets, Ends-map, walk_headers-Ends}

-- What `inet_ntop` is documented to give for an IPv6 address: at most 45 digits, colons and dots.
abbrev pub IsNtop6 : (List ℕ → List ℕ) → Type 0
IsNtop6 ntop = (a : List ℕ) → IsBytes a → length a ≡ 16 → Fits 45 (ntop a)

pub record IsMembership (m : Membership) : Type 0 where
  pub group_in : Fits 45 m.group
  pub source_in : Fits 45 m.source_ip
  pub type_in : Fits 8 m.type_str

abbrev pub AreMemberships : List Membership → Type 0
AreMemberships [] = Unit
AreMemberships (m ∷ ms) = IsMembership m × AreMemberships ms

-- From the protocol in the IPv6 header on, the walk comes to an extension header whose size is kept
-- as zero.
abbrev pub MeetsEndless : List ℕ → Type 0
MeetsEndless ip6 = (next_hdr : ℕ) × (byte ip6 6 ≡ ok next_hdr) × Meets ip6 next_hdr 40

-- What the checks give: memberships whose texts fit their buffers, or a walk that has met a header
-- whose size is kept as zero.
abbrev pub Heard : List ℕ → Option (List Membership) → Type 0
Heard ip6 none = MeetsEndless ip6
Heard ip6 (some ms) = AreMemberships ms

type_name-Fits : (mld_type : ℕ) → Fits 8 (type_name mld_type)
type_name-Fits mld_type = if-Fits 8 (mld_type == 130) _ _ (word-Fits 8 (ascii "query") refl refl) (
    if-Fits 8 (mld_type == 131) _ _ (word-Fits 8 (ascii "report") refl refl)
      (word-Fits 8 (ascii "done") refl refl))

module _ (ntop : List ℕ → List ℕ) (law : IsNtop6 ntop) (source_ip : List ℕ)
    (hs : Fits 45 source_ip) where
  read_records-Ensures :
      (icmp6 : List ℕ) (left off : ℕ)
      → IsBytes icmp6
      → Ensures AreMemberships (read_records ntop source_ip icmp6 left off)
  unfolding read_records
  read_records-Ensures icmp6 zero off h = tt
  read_records-Ensures icmp6 (suc left) off h =
      let Q = AreMemberships in
      either Q (ltb (length icmp6) (off + 20)) _ _ (λ done. tt)
        λ more. read_byte Q icmp6 0 (off + 1) _ h (ground arith) λ aux_data_len ha.
          read_u16 Q icmp6 (off + 2) _ h (ground arith) λ num_sources hn.
            read_bytes Q icmp6 0 (off + 4) 16 _ h (ground arith) λ mcast hm size.
              bind Q Q
                (read_records ntop source_ip icmp6 left
                  (off + (20 + num_sources * 16 + aux_data_len * 4)))
                _ (read_records-Ensures icmp6 left _ h)
                λ rest hr. (
                  record {
                    group_in = law mcast hm size;
                    source_in = hs;
                    type_in = word-Fits 8 (ascii "v2report") refl refl;
                  },
                  hr,
                )

  read_icmp6-Ensures :
      (icmp6 : List ℕ)
      → IsBytes icmp6
      → 1 ≤ length icmp6
      → Ensures AreMemberships (read_icmp6 ntop source_ip icmp6)
  unfolding read_icmp6
  read_icmp6-Ensures icmp6 h some_bytes =
      let Q = AreMemberships in
      read_byte Q icmp6 0 0 _ h (omega arith) λ mld_type ht.
        either Q (mld_type == 130 || mld_type == 131 || mld_type == 132) _ _
          (λ v1. past Q (ltb (length icmp6) 24) _ λ long.
            read_bytes Q icmp6 0 8 16 _ h (ground arith) λ group hg size. (
              record {
                group_in = law group hg size;
                source_in = hs;
                type_in = type_name-Fits mld_type;
              },
              tt,
            ))
          λ _.
            either Q (mld_type == 143) _ _
              (λ v2. past Q (ltb (length icmp6) 10) _ λ long.
                read_u16 Q icmp6 6 _ h (ground arith)
                  λ num_records hn. read_records-Ensures icmp6 num_records 8 h)
              (λ other. tt)

  after_walk-Ensures :
      (ip6 : List ℕ) (r : Option (ℕ × ℕ))
      → IsBytes ip6
      → Ends (MeetsEndless ip6) ip6 r
      → Ensures (Heard ip6) (after_walk ntop source_ip ip6 r)
  unfolding after_walk
  after_walk-Ensures ip6 none h why = why
  after_walk-Ensures ip6 (some (next_hdr, cur)) h le =
      past (Heard ip6) (not (next_hdr == 58) || ltb (length ip6 - cur) 1) _ λ found.
        bind AreMemberships (Heard ip6) (read_icmp6 ntop source_ip (drop cur ip6)) _
          (read_icmp6-Ensures (drop cur ip6) (IsBytes-drop cur ip6 h)
            (ground (arith, length-drop cur ip6)))
          λ ms hm. hm

module _ (ntop : List ℕ → List ℕ) (law : IsNtop6 ntop) where
  pub read_mld-Ensures :
      (pkt : List ℕ) → IsBytes pkt → Ensures (Heard (drop 14 pkt)) (read_mld ntop (length pkt) pkt)
  unfolding read_mld
  read_mld-Ensures pkt h =
      let ip6 = drop 14 pkt in
      let hi = IsBytes-drop 14 pkt h in
      let size6 = length-drop 14 pkt in
      let Q = Heard ip6 in
      past Q (ltb (length pkt) 55) _ λ long. read_u16 Q pkt 12 _ h (ground arith) λ ethertype he.
        past Q (not (ethertype == 0x86DD)) _ λ is_ipv6.
          read_byte Q pkt 14 0 _ h (ground arith) λ version hv.
            past Q (not (version / 16 == 6)) _ λ is_six.
              read_bytes Q pkt 14 8 16 _ h (ground arith) λ src hs size.
                bind_known IsByte Q (byte ip6 6) _ (byte-Ensures ip6 6 hi (ground (arith, size6)))
                  λ next_hdr hn is_next.
                    bind (Ends (MeetsEndless ip6) ip6) Q (walk_headers (length pkt) ip6 next_hdr 40)
                      _
                      (weaken (Ends (Meets ip6 next_hdr 40) ip6) (Ends (MeetsEndless ip6) ip6)
                        (walk_headers (length pkt) ip6 next_hdr 40)
                        (λ r. Ends-map ip6 r (λ met. (next_hdr, is_next, met)))
                        (walk_headers-Ends ip6 (length pkt) next_hdr 40 hi (ground (arith, size6))
                          (ground (arith, size6))))
                      λ r hr. after_walk-Ensures ntop law (ntop src) (law src hs size) ip6 r hi hr
