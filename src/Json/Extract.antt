-- ===== src/Json/Extract.antt =====
-- The field reader of src/lib/json_extract.c, for strings. Where the source reads the NUL, the list
-- has ended.
use packetsonde.Prelude.{
  ℕ, zero, suc, ◌+◌, ◌-◌, ◌*◌, ◌%◌, Bool, true, false, ◌||◌, ◌&&◌, Option, none, some, List, [],
  ◌∷◌, ◌++◌, leb, ◌==◌, if◌then◌else◌, length, drop,
}

unfoldable pub hexval : ℕ → Option ℕ
hexval c =
    if leb 48 c && leb c 57
    then some (c - 48)
    else if leb 97 c && leb c 102
    then some (c - 97 + 10)
    else if leb 65 c && leb c 70
    then some (c - 65 + 10)
    else none

-- Does `s` start with `p`?
abbrev pub starts : List ℕ → List ℕ → Bool
starts [] s = true
starts (x ∷ p) [] = false
starts (x ∷ p) (y ∷ s) = x == y && starts p s

-- `strstr`: what stands behind the first place where `needle` occurs.
unfoldable pub find_behind : List ℕ → List ℕ → Option (List ℕ)
find_behind [] needle = if starts needle [] then some [] else none
find_behind (c ∷ s) needle =
    let later = find_behind s needle in
    if starts needle (c ∷ s) then some (drop (length needle) (c ∷ s)) else later

-- `"key":`, if it fits the 128 bytes of the array.
abbrev pub needle_of : List ℕ → Option (List ℕ)
needle_of key =
    let needle = 34 ∷ key ++ 34 ∷ 58 ∷ [] in if leb 128 (length needle) then none else some needle

abbrev pub skip_blanks : List ℕ → List ℕ
skip_blanks [] = []
skip_blanks (c ∷ s) = if c == 32 || c == 9 then skip_blanks s else c ∷ s

-- The escapes of one letter.
unfoldable pub simple_escape : ℕ → Option ℕ
simple_escape e =
    if e == 34
    then some 34
    else if e == 92
    then some 92
    else if e == 47
    then some 47
    else if e == 110
    then some 10
    else if e == 114
    then some 13
    else if e == 116
    then some 9
    else if e == 98
    then some 8
    else if e == 102
    then some 12
    else none

-- `(char)(cp & 0xff)`, if all four digits are hexadecimal. The digits' bits do not overlap.
abbrev pub code_of : Option ℕ → Option ℕ → Option ℕ → Option ℕ → Option ℕ
code_of (some h1) (some h2) (some h3) (some h4) = some ((h1 * 4096 + h2 * 256 + h3 * 16 + h4) % 256)
code_of h1 h2 h3 h4 = none

unfoldable pub code_point : ℕ → ℕ → ℕ → ℕ → Option ℕ
unfolding hexval
code_point c1 c2 c3 c4 = code_of (hexval c1) (hexval c2) (hexval c3) (hexval c4)

-- One more byte of the value, where `room` bytes of `out` are left, the NUL's included.
abbrev pub store : ℕ → Option (List ℕ) → ℕ → Option (List ℕ)
store b none room = none
store b (some bs) room = if leb room 1 then none else some (b ∷ bs)

-- What follows an escape, if it stands for a byte.
abbrev pub go_on : (ℕ → List ℕ → Option (List ℕ)) → List ℕ → Option ℕ → Option (List ℕ)
go_on more s none = none
go_on more s (some b) = more b s

-- `\u` and four digits, or an escape of one letter; `more` goes on behind it with the byte.
abbrev pub unescape_u : (ℕ → List ℕ → Option (List ℕ)) → List ℕ → Option (List ℕ)
unescape_u more (c1 ∷ c2 ∷ c3 ∷ c4 ∷ s) = go_on more s (code_point c1 c2 c3 c4)
unescape_u more s = none

abbrev pub unescape : (ℕ → List ℕ → Option (List ℕ)) → List ℕ → Option (List ℕ)
unescape more [] = none
unescape more (e ∷ s) = if e == 117 then unescape_u more s else go_on more s (simple_escape e)

-- The loop behind the opening quote. A round takes a byte at least, so that a round for each byte
-- of the text is enough.
unfoldable pub decode : ℕ → List ℕ → ℕ → Option (List ℕ)
unfolding simple_escape code_point
decode zero s room = none
decode (suc rounds) [] room = none
decode (suc rounds) (c ∷ s) room =
    if c == 34
    then some []
    else if c == 92
    then unescape (λ b s'. store b (decode rounds s' (room - 1)) room) s
    else store c (decode rounds s (room - 1)) room

abbrev pub string_value : List ℕ → ℕ → Option (List ℕ)
string_value [] cap = none
string_value (c ∷ s) cap = if c == 34 then decode (suc (length s)) s cap else none

-- What stands behind the needle, if there is one and it occurs.
abbrev pub behind : List ℕ → Option (List ℕ) → Option (List ℕ)
unfolding find_behind
behind json none = none
behind json (some needle) = find_behind json needle

abbrev pub value_at : ℕ → Option (List ℕ) → Option (List ℕ)
unfolding decode
value_at cap none = none
value_at cap (some s) = string_value (skip_blanks s) cap

-- The value, or -1.
unfoldable pub extract_string : List ℕ → List ℕ → ℕ → Option (List ℕ)
unfolding find_behind decode
extract_string json key cap = if cap == 0 then none else value_at cap (behind json (needle_of key))
