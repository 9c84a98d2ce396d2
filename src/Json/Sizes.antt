-- ===== src/Json/Sizes.antt =====
-- The length of what src/lib/json.c writes, for the callers that give it a buffer of fixed size.
use packetsonde.Prelude.{
  ℕ, zero, suc, ◌+◌, ◌*◌, ◌/◌, ◌%◌, ◌^◌, ◌≤◌, ◌<◌, ◌≡◌, ◌≢◌, refl, Bool, true, false, not, ◌&&◌,
  some, List, [], ◌∷◌, ◌++◌, ltb, leb, ◌==◌, length, arith, length-append,
}
use packetsonde.Prelude.Int.{pos}
use packetsonde.Json.Writer.{digits, decimal, escape, finish}
use packetsonde.Json.Decode.{escaped}
use packetsonde.Json.Prints.{quoted, comma}
use packetsonde.Json.Objects.{
  Value, string, int, bool, strings, items_text, value_text, values_text, text_of, write,
  finish-write,
}

-- Text that stands in JSON as it is.
abbrev pub IsPlainByte : ℕ → Type 0
IsPlainByte c = (32 ≤ c) × (c ≢ 34) × (c ≢ 92)

abbrev pub IsPlain : List ℕ → Type 0
IsPlain [] = Unit
IsPlain (c ∷ s) = IsPlainByte c × IsPlain s

-- To decide it of the words that the code writes.
abbrev pub is_plain : List ℕ → Bool
is_plain [] = true
is_plain (c ∷ s) = leb 32 c && not (c == 34) && not (c == 92) && is_plain s

pub is_plain-IsPlain : (s : List ℕ) → is_plain s ≡ true → IsPlain s
is_plain-IsPlain [] h = tt
is_plain-IsPlain (c ∷ s) h = (ground arith, is_plain-IsPlain s (ground arith))

-- Plain text of at most `n` bytes.
abbrev pub Fits : ℕ → List ℕ → Type 0
Fits n s = IsPlain s × (length s ≤ n)

abbrev pub AllFit : ℕ → List (List ℕ) → Type 0
AllFit n [] = Unit
AllFit n (s ∷ ss) = Fits n s × AllFit n ss

-- All text in a value is plain; the number bounds the texts of an array.
abbrev pub IsPlainValue : ℕ → Value → Type 0
IsPlainValue n (string s) = IsPlain s
IsPlainValue n (int i) = Unit
IsPlainValue n (bool b) = Unit
IsPlainValue n (strings ss) = AllFit n ss

abbrev pub ArePlain : ℕ → List (List ℕ × Value) → Type 0
ArePlain n [] = Unit
ArePlain n ((key, v) ∷ fs) = (is_plain key ≡ true) × (IsPlainValue n v × ArePlain n fs)

-- At least the size of what is written for plain values.
abbrev pub value_size : ℕ → Value → ℕ
value_size n (string s) = 2 + length s
value_size n (int i) = length (decimal i)
value_size n (bool b) = 5
value_size n (strings ss) = 2 + (n + 3) * length ss

abbrev pub fields_size : ℕ → List (List ℕ × Value) → ℕ
fields_size n [] = 0
fields_size n ((key, v) ∷ fs) = 4 + length key + value_size n v + fields_size n fs

escape_plain : (c : ℕ) → IsPlainByte c → escape c ≡ c ∷ []
unfolding escape
escape_plain c (printable, quote, backslash) = ground arith

escaped_plain : (s : List ℕ) → IsPlain s → escaped s ≡ s
escaped_plain [] h = refl
escaped_plain (c ∷ s) h = rw (escape_plain c h.0, escaped_plain s h.1) refl

length-quoted : (s : List ℕ) → IsPlain s → length (quoted s) ≡ 2 + length s
length-quoted s h = rw (escaped_plain s h) (omega (arith, length-append s (34 ∷ [])))

length-comma : (b : Bool) → length (comma b) ≤ 1
length-comma true = omega arith
length-comma false = omega arith

length-items_text :
    (b : Bool) (n : ℕ) (ss : List (List ℕ))
    → AllFit n ss
    → length (items_text b ss) ≤ (n + 3) * length ss
length-items_text b n [] h = omega arith
length-items_text b n (s ∷ ss) h = ground (
  arith,
  length-append (comma b ++ quoted s) (items_text true ss),
  length-append (comma b) (quoted s),
  length-comma b,
  length-quoted s h.0.0,
  h.0.1,
  length-items_text true n ss h.1,
)

length-value_text : (n : ℕ) (v : Value) → IsPlainValue n v → length (value_text v) ≤ value_size n v
length-value_text n (string s) h = omega (arith, length-quoted s h)
length-value_text n (int i) h = omega arith
length-value_text n (bool true) h = omega arith
length-value_text n (bool false) h = omega arith
length-value_text n (strings ss) h =
    omega (arith, length-append (items_text false ss) (93 ∷ []), length-items_text false n ss h)

length-values_text :
    (b : Bool) (n : ℕ) (fs : List (List ℕ × Value))
    → ArePlain n fs
    → length (values_text b fs) ≤ fields_size n fs
length-values_text b n [] h = omega arith
length-values_text b n ((key, v) ∷ fs) h =
    let field = quoted key ++ 58 ∷ value_text v in
    omega (
      arith,
      length-append (comma b ++ field) (values_text true fs),
      length-append (comma b) field,
      length-append (quoted key) (58 ∷ value_text v),
      length-quoted key (is_plain-IsPlain key h.0),
      length-comma b,
      length-value_text n v h.1.0,
      length-values_text true n fs h.1.1,
    )

-- What fits is written whole.
pub finish-write_fits :
    (cap n : ℕ) (fs : List (List ℕ × Value))
    → ArePlain n fs
    → 2 + fields_size n fs < cap
    → finish (write cap fs) ≡ some (text_of fs)
finish-write_fits cap n fs plain fits =
    let size = length-append (values_text false fs) (125 ∷ []) in
    let room : ltb (length (text_of fs)) cap ≡ true =
      ground (arith, size, length-values_text false n fs plain) in
    rw (finish-write cap fs, room) refl

length-digits : (rounds k n : ℕ) → n < 10 ^ suc k → length (digits rounds n) ≤ suc k
unfolding digits
length-digits zero k n h = omega arith
length-digits (suc rounds) zero n h = ground arith
length-digits (suc rounds) (suc k) n h = ground (
  arith,
  length-digits rounds k (n / 10),
  length-append (digits rounds (n / 10)) ((48 + n % 10) ∷ []),
)

pub length-decimal : (k n : ℕ) → n < 10 ^ suc k → length (decimal (pos n)) ≤ suc k
unfolding decimal
length-decimal k n h = length-digits 19 k n h
