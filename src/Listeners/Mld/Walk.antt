-- ===== src/Listeners/Mld/Walk.antt =====
-- When the walk of src/agent/src/modules/mld_listener.c over the extension headers ends. The size of
-- a header is kept in a byte, where 256 is nothing.
use packetsonde.Prelude.{
  ℕ, zero, suc, ◌+◌, ◌-◌, ◌%◌, ◌≤◌, ◌≡◌, refl, Bool-cases, inl, inr, true, false, not, ◌&&◌, Option,
  none, some, List, ltb, leb, ◌==◌, length, drop, arith, length-drop,
}
use packetsonde.Wire.{ok, byte}
use packetsonde.Wire.Safe.{
  IsBytes, Ensures, IsByte, IsBytes-drop, byte-Ensures, bind_known, either, past, read_byte, weaken,
}
use packetsonde.Listeners.Mld.{is_extension, ext_bytes, walk_headers}

-- A header whose size is kept as zero: its length byte is 31, 63, ..., or 255.
abbrev pub IsEndless : List ℕ → ℕ → Type 0
IsEndless ip6 cur = (len_byte : ℕ) × ((byte (drop cur ip6) 1 ≡ ok len_byte) × (len_byte % 32 ≡ 31))

-- Where the walk stops: inside the packet with a protocol, or out of rounds because of `Why`.
abbrev pub Ends : Type 0 → List ℕ → Option (ℕ × ℕ) → Type 0
Ends Why ip6 none = Why
Ends Why ip6 (some (next_hdr, cur)) = cur ≤ length ip6

-- The walk stays inside the packet, however many rounds it is given.
walk_inside :
    (Why : Type 0) (ip6 : List ℕ) (rounds next_hdr cur : ℕ)
    → Why
    → IsBytes ip6
    → cur ≤ length ip6
    → Ensures (Ends Why ip6) (walk_headers rounds ip6 next_hdr cur)
unfolding walk_headers
walk_inside Why ip6 zero next_hdr cur why h le =
    either (Ends Why ip6) (not (next_hdr == 58) && leb 8 (length ip6 - cur)) _ _ (λ on. why)
      (λ end. le)
walk_inside Why ip6 (suc rounds) next_hdr cur why h le =
    let Q = Ends Why ip6 in
    either Q (not (next_hdr == 58) && leb 8 (length ip6 - cur)) _ _
      (λ on.
        either Q (is_extension next_hdr) _ _
          (λ ext. read_byte Q ip6 cur 1 _ h (ground arith) λ len_byte hl.
            past Q (ltb (length ip6 - cur) (ext_bytes len_byte)) _ λ fits.
              read_byte Q ip6 cur 0 _ h (ground arith) λ next hn.
                walk_inside Why ip6 rounds next (cur + ext_bytes len_byte) why h (ground arith))
          (λ other. tt))
      (λ end. le)

-- The headers from one to another, both included: each before the last is an extension, at least
-- eight bytes from the end of the packet, whose bytes say what comes next and how far on.
pub data Chain (ip6 : List ℕ) : ℕ → ℕ → ℕ → ℕ → Type 0 where
  last : {next_hdr cur : ℕ} → Chain ip6 next_hdr cur next_hdr cur
  link :
      {next_hdr cur next len_byte last_hdr last_cur : ℕ}
      → is_extension next_hdr ≡ true
      → cur + 8 ≤ length ip6
      → byte (drop cur ip6) 0 ≡ ok next
      → byte (drop cur ip6) 1 ≡ ok len_byte
      → Chain ip6 next (cur + ext_bytes len_byte) last_hdr last_cur
      → Chain ip6 next_hdr cur last_hdr last_cur

-- On from a header, the walk comes to an extension header whose size is kept as zero.
abbrev pub Meets : List ℕ → ℕ → ℕ → Type 0
Meets ip6 next_hdr cur =
    (last_hdr : ℕ) × (last_cur : ℕ) × Chain ip6 next_hdr cur last_hdr last_cur
    × (is_extension last_hdr ≡ true)
    × (last_cur + 8 ≤ length ip6)
    × IsEndless ip6 last_cur

pub Ends-map :
    {Why Why' : Type 0} (ip6 : List ℕ) (r : Option (ℕ × ℕ))
    → (Why → Why')
    → Ends Why ip6 r
    → Ends Why' ip6 r
Ends-map ip6 none f h = f h
Ends-map ip6 (some (next_hdr, cur)) f h = h

Meets-link :
    (ip6 : List ℕ) (next_hdr cur next len_byte : ℕ)
    → is_extension next_hdr ≡ true
    → cur + 8 ≤ length ip6
    → byte (drop cur ip6) 0 ≡ ok next
    → byte (drop cur ip6) 1 ≡ ok len_byte
    → Meets ip6 next (cur + ext_bytes len_byte)
    → Meets ip6 next_hdr cur
Meets-link ip6 next_hdr cur next len_byte ext room is_next is_len
      (hdr, at, chain, is_ext, fits, zero_size) =
    (hdr, at, link ext room is_next is_len chain, is_ext, fits, zero_size)

-- With a round for each byte, it ends, or it has met a header whose size is kept as zero.
pub walk_headers-Ends :
    (ip6 : List ℕ) (rounds next_hdr cur : ℕ)
    → IsBytes ip6
    → cur ≤ length ip6
    → length ip6 ≤ cur + rounds
    → Ensures (Ends (Meets ip6 next_hdr cur) ip6) (walk_headers rounds ip6 next_hdr cur)
unfolding walk_headers
walk_headers-Ends ip6 zero next_hdr cur h le enough =
    either (Ends (Meets ip6 next_hdr cur) ip6) (not (next_hdr == 58) && leb 8 (length ip6 - cur)) _
      _ (λ on. absurd (ground arith)) (λ end. le)
walk_headers-Ends ip6 (suc rounds) next_hdr cur h le enough =
    let Q = Ends (Meets ip6 next_hdr cur) ip6 in
    either Q (not (next_hdr == 58) && leb 8 (length ip6 - cur)) _ _
      (λ on.
        let room : cur + 8 ≤ length ip6 = ground arith in
        either Q (is_extension next_hdr) _ _
          (λ ext.
            bind_known IsByte Q (byte (drop cur ip6) 1) _
              (byte-Ensures (drop cur ip6) 1 (IsBytes-drop cur ip6 h)
                (omega (arith, length-drop cur ip6)))
              λ len_byte hl is_len. past Q (ltb (length ip6 - cur) (ext_bytes len_byte)) _ λ fits.
                bind_known IsByte Q (byte (drop cur ip6) 0) _
                  (byte-Ensures (drop cur ip6) 0 (IsBytes-drop cur ip6 h)
                    (omega (arith, length-drop cur ip6)))
                  λ next hn is_next.
                    let behind = cur + ext_bytes len_byte in
                    elim (Bool-cases (len_byte % 32 == 31)) [
                      | inl endless ↦
                          walk_inside (Meets ip6 next_hdr cur) ip6 rounds next behind
                            (next_hdr, cur, last, ext, room, (len_byte, (is_len, ground arith))) h
                            (ground arith)
                      | inr moves ↦
                          weaken (Ends (Meets ip6 next behind) ip6) Q
                            (walk_headers rounds ip6 next behind)
                            (λ r.
                              Ends-map ip6 r
                                (Meets-link ip6 next_hdr cur next len_byte ext room is_next is_len))
                            (walk_headers-Ends ip6 rounds next behind h (ground arith)
                              (ground arith))
                    ])
          (λ other. tt))
      (λ end. le)

goes_on :
    (ip6 : List ℕ) (next_hdr cur : ℕ)
    → is_extension next_hdr ≡ true
    → cur + 8 ≤ length ip6
    → (not (next_hdr == 58) && leb 8 (length ip6 - cur)) ≡ true
unfolding is_extension
goes_on ip6 next_hdr cur ext room = ground arith

-- An extension header whose length byte is 31 modulo 32 and that is followed by an extension again,
-- at least eight bytes from the end of the packet, is never left: no number of rounds is enough.
pub walk_stuck :
    (ip6 : List ℕ) (next_hdr cur next len_byte : ℕ)
    → is_extension next_hdr ≡ true
    → is_extension next ≡ true
    → cur + 8 ≤ length ip6
    → byte (drop cur ip6) 0 ≡ ok next
    → byte (drop cur ip6) 1 ≡ ok len_byte
    → len_byte % 32 ≡ 31
    → (rounds : ℕ) → walk_headers rounds ip6 next_hdr cur ≡ ok none
unfolding walk_headers
walk_stuck ip6 next_hdr cur next len_byte ext exts room is_next is_len endless zero =
    rw (goes_on ip6 next_hdr cur ext room) refl
walk_stuck ip6 next_hdr cur next len_byte ext exts room is_next is_len endless (suc rounds) =
    let empty : ext_bytes len_byte ≡ 0 = omega arith in
    let fits : ltb (length ip6 - cur) 0 ≡ false = ground arith in
    let stays : cur + 0 ≡ cur = omega arith in
    rw (goes_on ip6 next_hdr cur ext room, ext, is_len, empty, fits, is_next, stays)
      (walk_stuck ip6 next cur next len_byte exts exts room is_next is_len endless rounds)
