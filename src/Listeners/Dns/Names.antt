-- ===== src/Listeners/Dns/Names.antt =====
-- A name with one pointer in src/agent/src/modules/dns_listener.c is read back.
use packetsonde.Prelude.{
  Option, ℕ, zero, suc, ◌+◌, ◌-◌, ◌*◌, ◌/◌, ◌%◌, ◌≤◌, ◌<◌, ◌≡◌, refl, ap, sym, ◌∙◌, Bool, true,
  false, not, none, some, List, [], ◌∷◌, ◌++◌, ltb, leb, ◌==◌, length, drop, arith, length-append,
  append_assoc, append-nil,
}
use packetsonde.Wire.{ok}
use packetsonde.Listeners.Dns.{first_of, separate, decomp_limit, decompress, dns_decompress_name}
use packetsonde.Listeners.Dns.Labels.{
  encode, AreLabels, dot, dotted, still, still-false, dotted-append, get-drop, drop-suc, drop-more,
  length-dropped, bytes-drop, few_labels, inside_of,
}

separated :
    (first : Bool) (out_size : ℕ) (out l : List ℕ)
    → 1 ≤ length l
    → length out + (length (dot first) + length l) < out_size
    → separate first out_size out ≡ ok (out ++ dot first)
separated true out_size out l some_bytes room = ap ok (sym (append-nil out))
separated false out_size out l some_bytes room =
    let fits : leb out_size (length out + 1) ≡ false = ground arith in rw fits refl

-- A round of the loop: one label.
decompress_label :
    (pkt s : List ℕ) (out_size offset rounds hops cur : ℕ) (first : Bool) (consumed : Option ℕ)
    (out l : List ℕ)
    → 1 ≤ length l
    → length l < 64
    → drop cur pkt ≡ length l ∷ (l ++ s)
    → length out + (length (dot first) + length l) < out_size
    → decompress pkt out_size offset (suc rounds) hops cur first consumed out
      ≡ decompress pkt out_size offset rounds hops
          (cur + 1 + length l)
          false
          consumed
          ((out ++ dot first) ++ l)
unfolding decompress
decompress_label pkt s out_size offset rounds hops cur first consumed out l some_bytes short e
      room =
    let n = length l in
    let behind = drop-suc pkt cur n (l ++ s) e in
    let size = length-dropped pkt cur n (l ++ s) e in
    let parts = length-append l s in
    let grown = length-append out (dot first) in
    let on : ltb cur (length pkt) ≡ true = ground arith in
    let not_end : (n == 0) ≡ false = ground arith in
    let not_pointer : (n / 64 == 3) ≡ false = ground arith in
    let not_reserved : not (n / 64 == 0) ≡ false = ground arith in
    let whole : ltb (length pkt) (cur + 1 + n) ≡ false = ground arith in
    let fits : leb out_size (length (out ++ dot first) + n) ≡ false = ground arith in
    rw
      (
        on,
        get-drop pkt cur n (l ++ s) e,
        not_end,
        not_pointer,
        not_reserved,
        whole,
        separated first out_size out l some_bytes room,
        fits,
        bytes-drop pkt (cur + 1) l s behind (omega (arith, size, parts)),
      )
      refl

-- The loop on labels, from any of them: a round for each.
decompress-encode :
    (pkt post : List ℕ) (out_size offset rounds rest hops cur : ℕ) (first : Bool)
    (consumed : Option ℕ) (out : List ℕ) (labels : List (List ℕ))
    → AreLabels labels
    → drop cur pkt ≡ encode labels ++ post
    → length labels + rest ≡ rounds
    → length out + length (dotted first labels) < out_size
    → decompress pkt out_size offset rounds hops cur first consumed out
      ≡ decompress pkt out_size offset rest hops
          (cur + length (encode labels))
          (still first labels)
          consumed
          (out ++ dotted first labels)
decompress-encode pkt post out_size offset rounds rest hops cur first consumed out [] hl e sum
      room =
    let same : rounds ≡ rest = omega arith in
    let here : cur + 0 ≡ cur = omega arith in cc (same, here, append-nil out)
decompress-encode pkt post out_size offset zero rest hops cur first consumed out (l ∷ ls) hl e sum
      room =
    absurd (omega arith)
decompress-encode pkt post out_size offset (suc rounds) rest hops cur first consumed out (l ∷ ls) hl
      e sum room =
    let n = length l in
    let sep = dot first in
    let text = dotted false ls in
    let s = encode ls ++ post in
    let at_label : drop cur pkt ≡ n ∷ (l ++ s) =
      e ∙ ap (λ (t : List ℕ). n ∷ t) (append_assoc l (encode ls) post) in
    let behind = drop-more pkt (cur + 1) l s (drop-suc pkt cur n (l ++ s) at_label) in
    let parts = length-append l (encode ls) in
    let texts = length-append sep (l ++ text) in
    let texts' = length-append l text in
    let grown = length-append out sep in
    let grown' = length-append (out ++ sep) l in
    let later : cur + 1 + n + length (encode ls) ≡ cur + length (encode (l ∷ ls)) =
      omega (arith, parts) in
    let joined : ((out ++ sep) ++ l) ++ text ≡ out ++ (sep ++ (l ++ text)) =
      append_assoc (out ++ sep) l text ∙ append_assoc out sep (l ++ text) in
    decompress_label pkt s out_size offset rounds hops cur first consumed out l hl.0.0 hl.0.1
      at_label (omega arith)
    ∙ decompress-encode pkt post out_size offset rounds rest hops (cur + 1 + n) false consumed
        ((out ++ sep) ++ l) ls hl.1 behind (omega arith) (omega arith)
    ∙ cc (later, joined, still-false ls)

decompress_end :
    (pkt post : List ℕ) (out_size offset rounds hops cur : ℕ) (first : Bool) (consumed : Option ℕ)
    (out : List ℕ)
    → drop cur pkt ≡ 0 ∷ post
    → decompress pkt out_size offset (suc rounds) hops cur first consumed out
      ≡ ok (first_of consumed (cur - offset + 1), out)
unfolding decompress
decompress_end pkt post out_size offset rounds hops cur first consumed out e =
    let on : ltb cur (length pkt) ≡ true = ground (arith, length-dropped pkt cur 0 post e) in
    rw (on, get-drop pkt cur 0 post e) refl

decompress_pointer :
    (pkt post : List ℕ) (out_size offset rounds hops cur high low : ℕ) (first : Bool)
    (consumed : Option ℕ) (out : List ℕ)
    → drop cur pkt ≡ (192 + high) ∷ low ∷ post
    → high < 64
    → high * 256 + low < length pkt
    → hops < decomp_limit
    → decompress pkt out_size offset (suc rounds) hops cur first consumed out
      ≡ decompress pkt out_size offset rounds
          (hops + 1)
          (high * 256 + low)
          first
          (some (first_of consumed (cur - offset + 2)))
          out
unfolding decompress
decompress_pointer pkt post out_size offset rounds hops cur high low first consumed out e six inside
      allowed =
    let size = length-dropped pkt cur (192 + high) (low ∷ post) e in
    let on : ltb cur (length pkt) ≡ true = ground arith in
    let not_end : (192 + high == 0) ≡ false = ground arith in
    let is_pointer : ((192 + high) / 64 == 3) ≡ true = ground arith in
    let room : leb (length pkt) (cur + 1) ≡ false = ground arith in
    let more : ltb decomp_limit (hops + 1) ≡ false = ground arith in
    let bits : (192 + high) % 64 ≡ high = omega arith in
    let target : leb (length pkt) (high * 256 + low) ≡ false = ground arith in
    rw
      (
        on,
        get-drop pkt cur (192 + high) (low ∷ post) e,
        not_end,
        is_pointer,
        room,
        more,
        get-drop pkt (cur + 1) low post (drop-suc pkt cur (192 + high) (low ∷ post) e),
        bits,
        target,
      )
      refl

-- A compressed name: labels and a pointer to where further labels end with a zero. Where the labels
-- have 1 to 63 bytes and their text fits the buffer with its NUL, all labels are read with dots
-- between them, and the length given is that of the labels before the pointer and the pointer.
pub dns_decompress_name-encode :
    (pkt post post' : List ℕ) (offset out_size high low : ℕ) (ls ms : List (List ℕ))
    → AreLabels ls
    → AreLabels ms
    → high < 64
    → drop offset pkt ≡ encode ls ++ ((192 + high) ∷ low ∷ post)
    → drop (high * 256 + low) pkt ≡ encode ms ++ (0 ∷ post')
    → length (dotted true (ls ++ ms)) < out_size
    → dns_decompress_name pkt offset out_size ≡ ok (length (encode ls) + 2, dotted true (ls ++ ms))
unfolding dns_decompress_name
dns_decompress_name-encode pkt post post' offset out_size high low ls ms hl hm six here there room =
    let target = high * 256 + low in
    let rounds = (decomp_limit + 1) * (length pkt + 1) in
    let rounds1 = rounds - (length ls + 1) in
    let rounds2 = rounds1 - (length ms + 1) in
    let out = dotted true ls in
    let used = offset + length (encode ls) - offset + 2 in
    let few = few_labels pkt ((192 + high) ∷ low ∷ post) ls offset here in
    let few' = few_labels pkt (0 ∷ post') ms target there in
    let inside = inside_of pkt post' (encode ms) target there in
    let size : length (dotted true (ls ++ ms)) ≡ length out + length (dotted (still true ls) ms) =
      ap length (dotted-append true ls ms) ∙ length-append out (dotted (still true ls) ms) in
    let all_used : used ≡ length (encode ls) + 2 = omega arith in
    decompress-encode pkt ((192 + high) ∷ low ∷ post) out_size offset rounds (suc rounds1) 0 offset
      true none [] ls hl here (omega arith) (omega arith)
    ∙ decompress_pointer pkt post out_size offset rounds1 0 (offset + length (encode ls)) high low
        (still true ls) none out (drop-more pkt offset (encode ls) _ here) six inside (omega arith)
    ∙ decompress-encode pkt (0 ∷ post') out_size offset rounds1 (suc rounds2) 1 target
        (still true ls) (some used) out ms hm there (omega arith) (omega arith)
    ∙ decompress_end pkt post' out_size offset rounds2 1 (target + length (encode ms))
        (still (still true ls) ms) (some used) (out ++ dotted (still true ls) ms)
        (drop-more pkt target (encode ms) _ there)
    ∙ cc (all_used, dotted-append true ls ms)
