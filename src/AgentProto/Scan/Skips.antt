-- ===== src/AgentProto/Scan/Skips.antt =====
-- What `skip_string` and `skip_value` of src/lib/agent_proto.c pass in the text of src/lib/json.c.
use packetsonde.Prelude.{
  ℕ, zero, suc, ◌*◌, ◌/◌, ◌%◌, ◌<◌, ◌≡◌, ◌∙◌, refl, ap, Bool, true, false, Option, some, List, [],
  ◌∷◌, ◌++◌, append_assoc, ◌==◌, length, length-append, arith, inl, inr, ascii,
}
use packetsonde.Json.Writer.{hex_digit, escape}
use packetsonde.Json.Words.{AllWord, decimal-AllWord, decimal_nonempty}
use packetsonde.Json.Decode.{escaped, escape-cases}
use packetsonde.Json.Prints.{quoted, comma}
use packetsonde.Json.Objects.{Value, string, int, bool, strings, items_text, value_text}
use packetsonde.AgentProto.Scan.{
  is_ws, with_byte, string_end, balanced, stops, skip_word, skip_value, skip_plain,
}

abbrev with_bytes : List ℕ → Option (List ℕ × List ℕ) → Option (List ℕ × List ℕ)
with_bytes [] o = o
with_bytes (c ∷ u) o = with_byte c (with_bytes u o)

with_bytes-some : (u s r : List ℕ) → with_bytes u (some (s, r)) ≡ some (u ++ s, r)
with_bytes-some [] s r = refl
with_bytes-some (c ∷ u) s r = ap (with_byte c) (with_bytes-some u s r)

hex_digit-plain : (d : ℕ) → ((hex_digit d == 92) ≡ false) × ((hex_digit d == 34) ≡ false)
hex_digit-plain d = (ground arith, ground arith)

string_end-escape :
    (c : ℕ) (t : List ℕ)
    → string_end false (escape c ++ t) ≡ with_bytes (escape c) (string_end false t)
unfolding string_end
string_end-escape c t = elim (escape-cases c) [
  | inl (e, no_quote, no_slash) ↦ rw (e, no_quote, no_slash) refl
  | inr (inl e) ↦
      let (h, k) = hex_digit-plain (c / 16) in
      let (h', k') = hex_digit-plain (c % 16) in rw (e, h, k, h', k') refl
  | inr (inr (x, e, no_u, known)) ↦ rw e refl
]

string_end-escaped : (s r : List ℕ) → string_end false (escaped s ++ (34 ∷ r)) ≡ some (escaped s, r)
string_end-escaped [] r = unfold string_end in refl
string_end-escaped (c ∷ s) r =
    ap (string_end false) (append_assoc (escape c) (escaped s) (34 ∷ r))
    ∙ string_end-escape c (escaped s ++ (34 ∷ r))
    ∙ ap (with_bytes (escape c)) (string_end-escaped s r)
    ∙ with_bytes-some (escape c) (escaped s) r

pub string_end-quoted :
    (s r : List ℕ) → string_end false ((escaped s ++ (34 ∷ [])) ++ r) ≡ some (escaped s, r)
string_end-quoted s r =
    ap (string_end false) (append_assoc (escaped s) (34 ∷ []) r) ∙ string_end-escaped s r

skip_word-AllWord :
    (w r : List ℕ) (d : ℕ) → AllWord w → stops d ≡ true → skip_word (w ++ (d ∷ r)) ≡ d ∷ r
skip_word-AllWord [] r d p e = rw e refl
skip_word-AllWord (c ∷ w) r d ((low, high, other), p) e =
    let goes : stops c ≡ false = ground arith in rw goes (skip_word-AllWord w r d p e)

-- The first byte of a value, by the kind of the value.
abbrev pub is_string : Value → Bool
is_string (string s) = true
is_string v = false

pub record Head (v : Value) : Type 0 where
  pub first : ℕ
  pub others : List ℕ
  pub text : value_text v ≡ first ∷ others
  pub no_ws : is_ws first ≡ false
  pub quote : (first == 34) ≡ is_string v

pub value-Head : (v : Value) → Head v
value-Head (string s) = record { first = 34; others = _; text = refl; no_ws = refl; quote = refl }
value-Head (int z) =
    let (c, t, e) = decimal_nonempty z in
    let ((low, high, other), words) : AllWord (c ∷ t) = rw e at (decimal-AllWord z) in
    record { first = c; others = t; text = e; no_ws = ground arith; quote = ground arith }
value-Head (bool true) = record {
  first = 116;
  others = ascii "rue";
  text = refl;
  no_ws = refl;
  quote = refl;
}
value-Head (bool false) = record {
  first = 102;
  others = ascii "alse";
  text = refl;
  no_ws = refl;
  quote = refl;
}
value-Head (strings ss) = record { first = 91; others = _; text = refl; no_ws = refl; quote = refl }

skip_value-AllWord :
    (c d : ℕ) (w r : List ℕ)
    → AllWord (c ∷ w)
    → stops d ≡ true
    → skip_value ((c ∷ w) ++ (d ∷ r)) ≡ some (d ∷ r)
unfolding skip_value skip_plain
skip_value-AllWord c d w r ((low, high, other), p) e =
    let no_ws : is_ws c ≡ false = ground arith in
    let no_quote : (c == 34) ≡ false = ground arith in
    let no_brace : (c == 123) ≡ false = ground arith in
    let no_bracket : (c == 91) ≡ false = ground arith in
    rw (no_ws, no_quote, no_brace, no_bracket)
      (ap some (skip_word-AllWord (c ∷ w) r d ((low, high, other), p) e))

balanced-items :
    (rounds : ℕ) (b : Bool) (ss : List (List ℕ)) (t : List ℕ)
    → 2 * length ss < rounds
    → balanced rounds 91 93 1 (items_text b ss ++ (93 ∷ t)) ≡ some t
unfolding balanced
balanced-items zero b ss t h = absurd (omega arith)
balanced-items (suc rounds) b [] t h = refl
balanced-items (suc zero) b (s ∷ ss) t h = absurd (omega arith)
balanced-items (suc (suc rounds)) true (s ∷ ss) t h =
    rw
      (
        append_assoc (escaped s ++ 34 ∷ []) (items_text true ss) (93 ∷ t),
        string_end-quoted s (items_text true ss ++ (93 ∷ t)),
      )
      (balanced-items rounds true ss t (omega arith))
balanced-items (suc (suc rounds)) false (s ∷ ss) t h =
    rw
      (
        append_assoc (escaped s ++ 34 ∷ []) (items_text true ss) (93 ∷ t),
        string_end-quoted s (items_text true ss ++ (93 ∷ t)),
      )
      (balanced-items (suc rounds) true ss t (omega arith))

length-items :
    (b : Bool) (ss : List (List ℕ)) (t : List ℕ)
    → 2 * length ss < length (items_text b ss ++ (93 ∷ t))
length-items b [] t = omega arith
length-items b (s ∷ ss) t = rw (append_assoc (comma b ++ quoted s) (items_text true ss) (93 ∷ t)) (
    omega (
      arith,
      length-items true ss t,
      length-append (comma b ++ quoted s) (items_text true ss ++ (93 ∷ t)),
      length-append (comma b) (quoted s),
      length-append (escaped s) (34 ∷ []),
    ))

pub skip_value-value_text :
    (v : Value) (d : ℕ) (r : List ℕ)
    → stops d ≡ true
    → skip_value (value_text v ++ (d ∷ r)) ≡ some (d ∷ r)
unfolding skip_value skip_plain
skip_value-value_text (string s) d r e = rw (string_end-quoted s (d ∷ r)) refl
skip_value-value_text (int z) d r e =
    let (c, t, text) = decimal_nonempty z in
    rw text (skip_value-AllWord c d t r (rw text at (decimal-AllWord z)) e)
skip_value-value_text (bool true) d r e = skip_value-AllWord 116 d (ascii "rue") r (omega arith) e
skip_value-value_text (bool false) d r e = skip_value-AllWord 102 d (ascii "alse") r (omega arith) e
skip_value-value_text (strings ss) d r e =
    rw (append_assoc (items_text false ss) (93 ∷ []) (d ∷ r))
      (balanced-items _ false ss (d ∷ r) (length-items false ss (d ∷ r)))
