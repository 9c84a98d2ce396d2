-- ===== src/Json/Objects.antt =====
-- What src/lib/json.c writes for an object of strings, integers, Booleans and arrays of strings.
use packetsonde.Prelude.{
  ℕ, ◌≡◌, refl, Bool, true, false, none, some, List, [], ◌∷◌, ◌++◌, ltb, if◌then◌else◌, length,
  append_assoc, ascii,
}
use packetsonde.Prelude.Int.{ℤ}
use mathlib.Core.Path.{subst}
use packetsonde.Json.Writer.{
  Json, init, emit, emit_quoted, maybe_comma, object_begin, object_end, key_string, key_int,
  key_bool, array_begin, array_string, array_strings, array_end, decimal, finish,
}
use packetsonde.Json.Prints.{
  Prints, Prints-refl, Prints-trans, steered, emit-Prints, emit_quoted-Prints, maybe_comma-Prints,
  key_string-Prints, key_string_comma, object_begin-Prints, object_begin_comma, object_end-Prints,
  finish-Prints, quoted, comma,
}

pub data Value : Type 0 where
  string : List ℕ → Value
  int : ℤ → Value
  bool : Bool → Value
  strings : List (List ℕ) → Value

abbrev pub write_value : Json → List ℕ → Value → Json
write_value j key (string s) = key_string j key s
write_value j key (int n) = key_int j key n
write_value j key (bool b) = key_bool j key b
write_value j key (strings ss) = array_end (array_strings (array_begin j key) ss)

abbrev pub write_values : Json → List (List ℕ × Value) → Json
write_values j [] = j
write_values j ((key, v) ∷ fs) = write_values (write_value j key v) fs

abbrev pub write : ℕ → List (List ℕ × Value) → Json
write cap fs = object_end (write_values (object_begin (init cap)) fs)

abbrev pub bool_text : Bool → List ℕ
bool_text b = if b then ascii "true" else ascii "false"

abbrev pub items_text : Bool → List (List ℕ) → List ℕ
items_text b [] = []
items_text b (s ∷ ss) = (comma b ++ quoted s) ++ items_text true ss

abbrev pub value_text : Value → List ℕ
value_text (string s) = quoted s
value_text (int n) = decimal n
value_text (bool b) = bool_text b
value_text (strings ss) = 91 ∷ items_text false ss ++ 93 ∷ []

abbrev pub values_text : Bool → List (List ℕ × Value) → List ℕ
values_text b [] = []
values_text b ((key, v) ∷ fs) =
    (comma b ++ (quoted key ++ 58 ∷ value_text v)) ++ values_text true fs

-- The text of an object: its fields in order, between braces and with commas between them.
abbrev pub text_of : List (List ℕ × Value) → List ℕ
text_of fs = 123 ∷ values_text false fs ++ 125 ∷ []

-- A comma where one is due, the name and what follows it in one `emit`.
named-Prints :
    (j : Json) (b : Bool) (key s : List ℕ)
    → j.needs_comma ≡ b
    → Prints j (comma b ++ (quoted key ++ s)) (emit (emit_quoted (maybe_comma j) key) s)
named-Prints j b key s due =
    let k1 = maybe_comma j in
    Prints-trans (maybe_comma-Prints j b due)
      (Prints-trans (emit_quoted-Prints k1 key) (emit-Prints (emit_quoted k1 key) s))

array_string-Prints :
    (j : Json) (b : Bool) (s : List ℕ)
    → j.needs_comma ≡ b
    → Prints j (comma b ++ quoted s) (array_string j s)
unfolding array_string
array_string-Prints j b s due =
    steered true _
      (Prints-trans (maybe_comma-Prints j b due) (emit_quoted-Prints (maybe_comma j) s))

array_string_comma : (j : Json) (s : List ℕ) → (array_string j s).needs_comma ≡ true
unfolding array_string
array_string_comma j s = refl

array_strings-Prints :
    (ss : List (List ℕ)) (j : Json) (b : Bool)
    → j.needs_comma ≡ b
    → Prints j (items_text b ss) (array_strings j ss)
array_strings-Prints [] j b due = Prints-refl j
array_strings-Prints (s ∷ ss) j b due =
    Prints-trans (array_string-Prints j b s due)
      (array_strings-Prints ss (array_string j s) true (array_string_comma j s))

array_text :
    (c key items : List ℕ)
    → (c ++ (key ++ 58 ∷ 91 ∷ [])) ++ (items ++ 93 ∷ [])
      ≡ c ++ (key ++ 58 ∷ 91 ∷ (items ++ 93 ∷ []))
array_text c key items = simp (append_assoc)

array-Prints :
    (j : Json) (b : Bool) (key : List ℕ) (ss : List (List ℕ))
    → j.needs_comma ≡ b
    → Prints j
        (comma b ++ (quoted key ++ 58 ∷ value_text (strings ss)))
        (array_end (array_strings (array_begin j key) ss))
unfolding array_begin array_end
array-Prints j b key ss due =
    let opened = array_begin j key in
    let named : Prints j (comma b ++ (quoted key ++ 58 ∷ 91 ∷ [])) opened =
      steered false _ (named-Prints j b key (58 ∷ 91 ∷ []) due) in
    let filled = array_strings opened ss in
    let closed : Prints filled (93 ∷ []) (array_end filled) =
      steered true _ (emit-Prints filled (93 ∷ [])) in
    subst (λ (t : List ℕ). Prints j t (array_end filled))
      (array_text (comma b) (quoted key) (items_text false ss))
      (Prints-trans named (Prints-trans (array_strings-Prints ss opened false refl) closed))

write_value-Prints :
    (j : Json) (b : Bool) (key : List ℕ) (v : Value)
    → j.needs_comma ≡ b
    → Prints j (comma b ++ (quoted key ++ 58 ∷ value_text v)) (write_value j key v)
unfolding key_int key_bool
write_value-Prints j b key (string s) due = key_string-Prints j b key s due
write_value-Prints j b key (int n) due = steered true _ (named-Prints j b key (58 ∷ decimal n) due)
write_value-Prints j b key (bool true) due =
    steered true _ (named-Prints j b key (ascii ":true") due)
write_value-Prints j b key (bool false) due =
    steered true _ (named-Prints j b key (ascii ":false") due)
write_value-Prints j b key (strings ss) due = array-Prints j b key ss due

write_value_comma : (j : Json) (key : List ℕ) (v : Value) → (write_value j key v).needs_comma ≡ true
unfolding key_int key_bool array_end
write_value_comma j key (string s) = key_string_comma j key s
write_value_comma j key (int n) = refl
write_value_comma j key (bool b) = refl
write_value_comma j key (strings ss) = refl

write_values-Prints :
    (fs : List (List ℕ × Value)) (j : Json) (b : Bool)
    → j.needs_comma ≡ b
    → Prints j (values_text b fs) (write_values j fs)
write_values-Prints [] j b due = Prints-refl j
write_values-Prints ((key, v) ∷ fs) j b due =
    Prints-trans (write_value-Prints j b key v due)
      (write_values-Prints fs (write_value j key v) true (write_value_comma j key v))

write-Prints :
    (cap : ℕ) (fs : List (List ℕ × Value)) → Prints (init cap) (text_of fs) (write cap fs)
write-Prints cap fs =
    Prints-trans
      (Prints-trans (object_begin-Prints cap)
        (write_values-Prints fs (object_begin (init cap)) false (object_begin_comma cap)))
      (object_end-Prints (write_values (object_begin (init cap)) fs))

pub finish-write :
    (cap : ℕ) (fs : List (List ℕ × Value))
    → finish (write cap fs) ≡ (if ltb (length (text_of fs)) cap then some (text_of fs) else none)
finish-write cap fs = finish-Prints cap (text_of fs) (write cap fs) (write-Prints cap fs)
