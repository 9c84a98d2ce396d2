-- ===== src/Listeners/Dns/Labels.antt =====
-- Names as they lie in a DNS message, for src/agent/src/modules/dns_listener.c, and reading what
-- begins at an offset.
use packetsonde.Prelude.{
  take-append, ℕ, zero, suc, ◌+◌, ◌≤◌, ◌<◌, ◌≡◌, refl, ap, sym, ◌∙◌, Bool, true, false, List, [],
  ◌∷◌, ◌++◌, leb, if◌then◌else◌, length, drop, arith, length-append, append_assoc, drop-one_drop,
  length-drop,
}
use packetsonde.Wire.{ok, byte, bytes}

-- RFC 1035: each label behind its length, of 1 to 63 bytes. A zero or a pointer comes behind them.
abbrev pub encode : List (List ℕ) → List ℕ
encode [] = []
encode (l ∷ ls) = length l ∷ (l ++ encode ls)

abbrev pub AreLabels : List (List ℕ) → Type 0
AreLabels [] = Unit
AreLabels (l ∷ ls) = ((1 ≤ length l) × (length l < 64)) × AreLabels ls

abbrev pub dot : Bool → List ℕ
dot first = if first then [] else 46 ∷ []

-- The labels with dots between them, and one in front unless it is the first.
abbrev pub dotted : Bool → List (List ℕ) → List ℕ
dotted first [] = []
dotted first (l ∷ ls) = dot first ++ (l ++ dotted false ls)

-- Whether the label behind these is the first.
abbrev pub still : Bool → List (List ℕ) → Bool
still first [] = first
still first (l ∷ ls) = false

pub still-false : (ls : List (List ℕ)) → still false ls ≡ false
still-false [] = refl
still-false (l ∷ ls) = refl

pub dotted-append :
    (first : Bool) (ls ms : List (List ℕ))
    → dotted first (ls ++ ms) ≡ dotted first ls ++ dotted (still first ls) ms
dotted-append first [] ms = refl
dotted-append first (l ∷ ls) ms =
    simp (dotted-append false ls ms, still-false ls, append_assoc) refl

pub length-encode : (ls : List (List ℕ)) → length ls ≤ length (encode ls)
length-encode [] = omega arith
length-encode (l ∷ ls) = omega (arith, length-encode ls, length-append l (encode ls))

-- Reading at `cur` what begins there.
pub get-drop : (pkt : List ℕ) (cur b : ℕ) (s : List ℕ) → drop cur pkt ≡ b ∷ s → byte pkt cur ≡ ok b
unfolding byte
get-drop [] zero b s e = cc
get-drop [] (suc cur) b s e = cc
get-drop (p ∷ pkt) zero b s e = cc
get-drop (p ∷ pkt) (suc cur) b s e = get-drop pkt cur b s e

pub drop-suc :
    (pkt : List ℕ) (cur b : ℕ) (s : List ℕ) → drop cur pkt ≡ b ∷ s → drop (cur + 1) pkt ≡ s
drop-suc pkt cur b s e =
    let next : cur + 1 ≡ suc cur = omega arith in
    rw next (sym (drop-one_drop cur pkt) ∙ ap (drop 1) e)

pub drop-more :
    (pkt : List ℕ) (cur : ℕ) (l s : List ℕ) → drop cur pkt ≡ l ++ s → drop (cur + length l) pkt ≡ s
drop-more pkt cur [] s e = let same : cur + 0 ≡ cur = omega arith in rw same e
drop-more pkt cur (b ∷ l) s e =
    let later : cur + suc (length l) ≡ cur + 1 + length l = omega arith in
    rw later (drop-more pkt (cur + 1) l s (drop-suc pkt cur b (l ++ s) e))

pub length-dropped :
    (pkt : List ℕ) (cur b : ℕ) (s : List ℕ)
    → drop cur pkt ≡ b ∷ s
    → cur + suc (length s) ≡ length pkt
length-dropped pkt cur b s e =
    let size : length (drop cur pkt) ≡ suc (length s) = ap length e in
    omega (arith, size, length-drop cur pkt)

pub bytes-drop :
    (pkt : List ℕ) (cur : ℕ) (l s : List ℕ)
    → drop cur pkt ≡ l ++ s
    → cur + length l ≤ length pkt
    → bytes pkt cur (length l) ≡ ok l
unfolding bytes
bytes-drop pkt cur l s e le =
    let fits : leb (cur + length l) (length pkt) ≡ true = ground arith in
    rw (fits, e, take-append l s) refl

pub few_labels :
    (pkt s : List ℕ) (ls : List (List ℕ)) (cur : ℕ)
    → drop cur pkt ≡ encode ls ++ s
    → length ls ≤ length pkt
few_labels pkt s ls cur e =
    let size : length (drop cur pkt) ≡ length (encode ls ++ s) = ap length e in
    omega (arith, size, length-drop cur pkt, length-append (encode ls) s, length-encode ls)

pub inside_of : (pkt s l : List ℕ) (cur : ℕ) → drop cur pkt ≡ l ++ (0 ∷ s) → cur < length pkt
inside_of pkt s l cur e =
    let size : length (drop cur pkt) ≡ length (l ++ (0 ∷ s)) = ap length e in
    omega (arith, size, length-drop cur pkt, length-append l (0 ∷ s))
