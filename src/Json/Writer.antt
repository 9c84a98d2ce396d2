-- ===== src/Json/Writer.antt =====
-- The JSON writer of src/lib/json.c, as far as strings go.
use packetsonde.Prelude.{
  ℕ, zero, suc, ◌+◌, ◌/◌, ◌%◌, Bool, true, false, Option, none, some, List, [], ◌∷◌, ◌++◌, ltb, leb,
  ◌==◌, if◌then◌else◌, length, ◌||◌,
}
use packetsonde.Prelude.Int.{ℤ, pos, negsuc}

-- `struct ps_json`: `text` is the first `len` bytes of `buf`. Only the fields are read that steer
-- the output; `depth` is an `int` that the writer counts and never reads.
pub record Json : Type 0 where
  pub cap : ℕ
  pub text : List ℕ
  pub depth : ℤ
  pub needs_comma : Bool
  pub error : Bool

unfoldable pub emit : Json → List ℕ → Json
emit j s =
    if j.error
    then j
    else if leb j.cap (length j.text + length s)
    then record j { error = true }
    else record j { text = j.text ++ s }

-- A character of `%04x`.
abbrev pub hex_digit : ℕ → ℕ
hex_digit d = if ltb d 10 then 48 + d else 87 + d

-- What `emit_quoted` writes for one byte.
unfoldable pub escape : ℕ → List ℕ
escape c =
    if c == 34
    then 92 ∷ 34 ∷ []
    else if c == 92
    then 92 ∷ 92 ∷ []
    else if c == 10
    then 92 ∷ 110 ∷ []
    else if c == 9
    then 92 ∷ 116 ∷ []
    else if c == 13
    then 92 ∷ 114 ∷ []
    else if ltb c 32
    then 92 ∷ 117 ∷ 48 ∷ 48 ∷ hex_digit (c / 16) ∷ hex_digit (c % 16) ∷ []
    else c ∷ []

-- The loop of `emit_quoted`: each piece is emitted by itself.
unfoldable pub emit_escaped : Json → List ℕ → Json
unfolding emit escape
emit_escaped j [] = j
emit_escaped j (c ∷ s) = emit_escaped (emit j (escape c)) s

unfoldable pub emit_quoted : Json → List ℕ → Json
unfolding emit emit_escaped
emit_quoted j s = emit (emit_escaped (emit j (34 ∷ [])) s) (34 ∷ [])

unfoldable pub comma_if : Bool → Json → Json
unfolding emit
comma_if true j = emit j (44 ∷ [])
comma_if false j = j

unfoldable pub maybe_comma : Json → Json
unfolding comma_if
maybe_comma j = record (comma_if j.needs_comma j) { needs_comma = false }

-- `j->depth++` and `j->depth--`.
abbrev pub up : ℤ → ℤ
up (pos n) = pos (n + 1)
up (negsuc zero) = pos 0
up (negsuc (suc n)) = negsuc n

abbrev pub down : ℤ → ℤ
down (pos zero) = negsuc 0
down (pos (suc n)) = pos n
down (negsuc n) = negsuc (n + 1)

-- What opens and what closes.
abbrev opened : Json → Json
opened j = record j { needs_comma = false; depth = up j.depth }

abbrev after_value : Json → Json
after_value j = record j { needs_comma = true }

abbrev pub init : ℕ → Json
init cap = record { cap = cap; text = []; depth = pos 0; needs_comma = false; error = false }

unfoldable pub object_begin : Json → Json
unfolding emit maybe_comma
object_begin j = opened (emit (maybe_comma j) (123 ∷ []))

unfoldable pub object_end : Json → Json
unfolding emit
object_end j = let j' = emit j (125 ∷ []) in record j' { depth = down j'.depth; needs_comma = true }

unfoldable pub key_object_begin : Json → List ℕ → Json
unfolding emit emit_quoted maybe_comma
key_object_begin j key = opened (emit (emit_quoted (maybe_comma j) key) (58 ∷ 123 ∷ []))

unfoldable pub array_begin : Json → List ℕ → Json
unfolding emit emit_quoted maybe_comma
array_begin j key =
    let j' = emit (emit_quoted (maybe_comma j) key) (58 ∷ 91 ∷ []) in
    record j' { needs_comma = false }

unfoldable pub array_end : Json → Json
unfolding emit
array_end j = after_value (emit j (93 ∷ []))

unfoldable pub key_string : Json → List ℕ → List ℕ → Json
unfolding emit emit_quoted maybe_comma
key_string j key val =
    after_value (emit_quoted (emit (emit_quoted (maybe_comma j) key) (58 ∷ [])) val)

unfoldable pub key_bool : Json → List ℕ → Bool → Json
unfolding emit emit_quoted maybe_comma
key_bool j key val = after_value (
    emit (emit_quoted (maybe_comma j) key)
      (if val then 58 ∷ 116 ∷ 114 ∷ 117 ∷ 101 ∷ [] else 58 ∷ 102 ∷ 97 ∷ 108 ∷ 115 ∷ 101 ∷ []))

-- The digits of `%lld`, by the digits that may be left.
unfoldable pub digits : ℕ → ℕ → List ℕ
digits zero n = []
digits (suc rounds) n =
    let rest = digits rounds (n / 10) in
    if ltb n 10 then (48 + n) ∷ [] else rest ++ (48 + n % 10) ∷ []

-- An `int64_t` has at most nineteen.
unfoldable pub decimal : ℤ → List ℕ
unfolding digits
decimal (pos n) = digits 19 n
decimal (negsuc n) = 45 ∷ digits 19 (n + 1)

unfoldable pub key_int : Json → List ℕ → ℤ → Json
unfolding emit emit_quoted maybe_comma
key_int j key val = after_value (emit (emit_quoted (maybe_comma j) key) (58 ∷ decimal val))

unfoldable pub key_null : Json → List ℕ → Json
unfolding emit emit_quoted maybe_comma
key_null j key =
    after_value (emit (emit_quoted (maybe_comma j) key) (58 ∷ 110 ∷ 117 ∷ 108 ∷ 108 ∷ []))

unfoldable pub array_string : Json → List ℕ → Json
unfolding emit_quoted maybe_comma
array_string j val = after_value (emit_quoted (maybe_comma j) val)

-- The loop that adds each text to an array, as the callers have it.
abbrev pub array_strings : Json → List (List ℕ) → Json
array_strings j [] = j
array_strings j (s ∷ ss) = array_strings (array_string j s) ss

-- The text, or -1; the NUL goes behind it.
unfoldable pub finish : Json → Option (List ℕ)
finish j = if j.error || leb j.cap (length j.text) then none else some j.text
