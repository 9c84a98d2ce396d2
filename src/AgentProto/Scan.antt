-- ===== src/AgentProto/Scan.antt =====
-- The scanners of src/lib/agent_proto.c that look into a payload, `ps_ap_frame_type` and
-- `ps_ap_hello_recipe_schema`. A pointer into the payload is what stands from it to the end.
pub mod Skips
pub mod Types
mod Tests
use packetsonde.Prelude.{
  ℕ, zero, suc, ◌-◌, ◌%◌, ◌^◌, Bool, true, false, not, ◌&&◌, ◌||◌, Option, none, some, List, [],
  ◌∷◌, ltb, leb, ◌==◌, if◌then◌else◌, length, take, ascii,
}
use packetsonde.Prelude.Int.{ℤ, pos, negsuc}
use packetsonde.Baseline.{same_path}
use packetsonde.Json.Numbers.{extract_int}
use packetsonde.Listeners.{c_string}

abbrev pub is_ws : ℕ → Bool
is_ws c = c == 32 || (c == 9 || (c == 10 || c == 13))

abbrev pub skip_ws : List ℕ → List ℕ
skip_ws [] = []
skip_ws (c ∷ p) = if is_ws c then skip_ws p else c ∷ p

abbrev pub with_byte : ℕ → Option (List ℕ × List ℕ) → Option (List ℕ × List ℕ)
with_byte c none = none
with_byte c (some (s, rest)) = some (c ∷ s, rest)

-- The loop of `skip_string`, behind the opening quote: the bytes up to the closing quote, and what
-- stands behind that. The byte behind a backslash is taken whatever it is.
unfoldable pub string_end : Bool → List ℕ → Option (List ℕ × List ℕ)
string_end slashed [] = none
string_end slashed (c ∷ p) =
    let rest = string_end (not slashed && c == 92) p in
    if not slashed && c == 34 then some ([], p) else with_byte c rest

abbrev pub behind_string : Option (List ℕ × List ℕ) → Option (List ℕ)
behind_string none = none
behind_string (some (s, rest)) = some rest

-- `depth`, where one brace or bracket is passed.
abbrev pub depth_at : ℕ → ℕ → ℕ → ℕ → ℕ
depth_at opener closer c depth =
    if c == opener then suc depth else if c == closer then depth - 1 else depth

abbrev pub balance_on : (ℕ → List ℕ → Option (List ℕ)) → ℕ → Option (List ℕ) → Option (List ℕ)
balance_on more depth none = none
balance_on more depth (some p) = more depth p

-- The loop over an object or array; a round takes a byte at least, so that one for each byte is
-- enough.
unfoldable pub balanced : ℕ → ℕ → ℕ → ℕ → List ℕ → Option (List ℕ)
unfolding string_end
balanced rounds opener closer zero p = some p
balanced zero opener closer (suc depth) p = none
balanced (suc rounds) opener closer (suc depth) [] = none
balanced (suc rounds) opener closer (suc depth) (c ∷ p) =
    balance_on (balanced rounds opener closer)
      (if c == 34 then suc depth else depth_at opener closer c (suc depth))
      (if c == 34 then behind_string (string_end false p) else some p)

-- A number, `true`, `false` or `null`.
abbrev pub stops : ℕ → Bool
stops c = c == 44 || (c == 125 || is_ws c)

abbrev pub skip_word : List ℕ → List ℕ
skip_word [] = []
skip_word (c ∷ p) = if stops c then c ∷ p else skip_word p

-- The value behind `skip_ws`.
unfoldable pub skip_plain : List ℕ → Option (List ℕ)
unfolding balanced string_end
skip_plain [] = none
skip_plain (c ∷ p) =
    if c == 34
    then behind_string (string_end false p)
    else if c == 123
    then balanced (length p) 123 125 1 p
    else if c == 91
    then balanced (length p) 91 93 1 p
    else some (skip_word (c ∷ p))

unfoldable pub skip_value : List ℕ → Option (List ℕ)
unfolding skip_plain
skip_value p = skip_plain (skip_ws p)

-- A text of `out_cap` bytes with its NUL.
abbrev pub type_value : ℕ → List ℕ → Option (List ℕ)
unfolding string_end
type_value out_cap [] = none
type_value out_cap (c ∷ p) =
    if c == 34
    then elim (string_end false p) [ none ↦ none | some (v, rest) ↦ some (take (out_cap - 1) v) ]
    else none

abbrev pub past_comma : List ℕ → List ℕ
past_comma [] = []
past_comma (c ∷ p) = if c == 44 then p else c ∷ p

-- From the value of a key on; `more` goes on with the next key.
abbrev pub at_value : ℕ → (List ℕ → Option (List ℕ)) → List ℕ → List ℕ → Option (List ℕ)
unfolding skip_value
at_value out_cap more key [] = none
at_value out_cap more key (c ∷ p) =
    if same_path (ascii "type") key
    then type_value out_cap (c ∷ p)
    else elim (skip_value (c ∷ p)) [ none ↦ none | some rest ↦ more (past_comma (skip_ws rest)) ]

-- Behind the key, a colon.
abbrev pub at_colon : ℕ → (List ℕ → Option (List ℕ)) → List ℕ → List ℕ → Option (List ℕ)
unfolding skip_value
at_colon out_cap more key [] = none
at_colon out_cap more key (c ∷ p) = if c == 58 then at_value out_cap more key (skip_ws p) else none

abbrev pub at_key : ℕ → (List ℕ → Option (List ℕ)) → List ℕ → Option (List ℕ)
unfolding string_end skip_value
at_key out_cap more [] = none
at_key out_cap more (c ∷ p) =
    if c == 34
    then elim (string_end false p) [
      | none ↦ none
      | some (key, rest) ↦ at_colon out_cap more key (skip_ws rest)
    ]
    else none

-- The loop over the keys; a round takes a byte at least.
unfoldable pub scan_keys : ℕ → ℕ → List ℕ → Option (List ℕ)
unfolding string_end skip_value
scan_keys zero out_cap p = none
scan_keys (suc rounds) out_cap p = at_key out_cap (scan_keys rounds out_cap) (skip_ws p)

abbrev pub at_object : ℕ → List ℕ → Option (List ℕ)
unfolding scan_keys
at_object out_cap [] = none
at_object out_cap (c ∷ p) = if c == 123 then scan_keys (length p) out_cap p else none

-- The text of the type, or -1.
unfoldable pub ap_frame_type : List ℕ → ℕ → Option (List ℕ)
unfolding scan_keys
ap_frame_type payload out_cap = if out_cap == 0 then none else at_object out_cap (skip_ws payload)

-- A `long` as an `int`, in two's complement.
abbrev pub word_int : ℕ → ℤ
word_int w = if ltb w (2 ^ 31) then pos w else negsuc (2 ^ 32 - 1 - w)

abbrev pub schema_of : Option ℤ → ℤ
schema_of none = pos 1
schema_of (some (negsuc n)) = pos 1
schema_of (some (pos zero)) = pos 1
schema_of (some (pos (suc n))) = word_int (suc n % 2 ^ 32)

-- `tmp` has 1024 bytes.
unfoldable pub hello_recipe_schema : List ℕ → ℤ
unfolding extract_int c_string
hello_recipe_schema payload =
    schema_of (extract_int (c_string (take 1023 payload)) (ascii "max_recipe_schema"))
