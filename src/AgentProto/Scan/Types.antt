-- ===== src/AgentProto/Scan/Types.antt =====
-- What src/lib/agent_proto.c takes for the type of an object that src/lib/json.c has written.
use packetsonde.Prelude.{
  ℕ, zero, suc, ◌-◌, ◌≤◌, ◌<◌, ◌≡◌, ◌∙◌, refl, ap, sym, Bool, true, false, Option, none, some, List,
  [], ◌∷◌, ◌++◌, ◌==◌, if◌then◌else◌, length, length-append, take, arith, ascii,
}
use mathlib.Core.Path.{subst}
use packetsonde.Baseline.{same_path}
use packetsonde.Json.Writer.{finish}
use packetsonde.Json.Decode.{escaped}
use packetsonde.Json.RoundTrip.{IsPlain, escaped_plain, if_some}
use packetsonde.Json.Prints.{quoted, comma}
use packetsonde.Json.Objects.{
  Value, string, int, bool, strings, value_text, values_text, text_of, write, finish-write,
}
use packetsonde.Json.Fields.{lookup, ArePlainKeys, field_text}
use packetsonde.AgentProto.Scan.{
  stops, skip_value, type_value, past_comma, skip_ws, at_value, at_key, at_colon, at_object, is_ws,
  scan_keys, ap_frame_type,
}
use packetsonde.AgentProto.Scan.Skips.{
  string_end-quoted, is_string, value-Head, skip_value-value_text,
}

-- The text of the type: a string as it was written, cut to the buffer.
abbrev pub type_of : ℕ → Option Value → Option (List ℕ)
type_of out_cap (some (string s)) = some (take (out_cap - 1) (escaped s))
type_of out_cap v = none

module _ (out_cap : ℕ) where
  type_value_other :
      (v : Value) (r : List ℕ) → is_string v ≡ false → type_value out_cap (value_text v ++ r) ≡ none
  unfolding type_value
  type_value_other v r other = let h = value-Head v in rw (h.text, h.quote, other) refl

  type_value-value_text :
      (v : Value) (r : List ℕ) → type_value out_cap (value_text v ++ r) ≡ type_of out_cap (some v)
  unfolding type_value
  type_value-value_text (string s) r = rw (string_end-quoted s r) refl
  type_value-value_text (int z) r = type_value_other (int z) r refl
  type_value-value_text (bool b) r = type_value_other (bool b) r refl
  type_value-value_text (strings ss) r = type_value_other (strings ss) r refl

  module _ (more : List ℕ → Option (List ℕ)) (key : List ℕ) where
    at_value_step :
        (p q : List ℕ) (c : ℕ) {result : Option (List ℕ)} {rest : List ℕ}
        → p ≡ c ∷ q
        → is_ws c ≡ false
        → type_value out_cap p ≡ result
        → skip_value p ≡ some rest
        → at_value out_cap more key (skip_ws p)
          ≡ (if same_path (ascii "type") key then result else more (past_comma (skip_ws rest)))
    unfolding at_value
    at_value_step p q c e no_ws t s =
        rw (e, no_ws, sym (ap (type_value out_cap) e) ∙ t, sym (ap skip_value e) ∙ s) refl

    at_value-value_text :
        (v : Value) (r : List ℕ) (d : ℕ)
        → stops d ≡ true
        → at_value out_cap more key (skip_ws (value_text v ++ (d ∷ r))) ≡ (
            if same_path (ascii "type") key
            then type_of out_cap (some v)
            else more (past_comma (skip_ws (d ∷ r))))
    at_value-value_text v r d e =
        let h = value-Head v in
        at_value_step (value_text v ++ (d ∷ r)) (h.others ++ (d ∷ r)) h.first
          (ap (λ w. w ++ (d ∷ r)) h.text) h.no_ws (type_value-value_text v (d ∷ r))
          (skip_value-value_text v d r e)

    at_key-quoted :
        (p : List ℕ)
        → IsPlain key
        → at_key out_cap more (quoted key ++ (58 ∷ p)) ≡ at_value out_cap more key (skip_ws p)
    unfolding at_key at_colon
    at_key-quoted p plain = rw (string_end-quoted key (58 ∷ p), escaped_plain key plain) refl

  -- The fields from a key on, and behind a value.
  abbrev from_key : List (List ℕ × Value) → List ℕ
  from_key fs = values_text false fs ++ (125 ∷ [])

  abbrev behind_value : List (List ℕ × Value) → List ℕ
  behind_value fs = values_text true fs ++ (125 ∷ [])

  scan_field :
      (rounds d : ℕ) (key r : List ℕ) (v : Value) (fs : List (List ℕ × Value))
      → IsPlain key
      → stops d ≡ true
      → behind_value fs ≡ d ∷ r
      → past_comma (skip_ws (d ∷ r)) ≡ from_key fs
      → scan_keys (suc rounds) out_cap (from_key ((key, v) ∷ fs)) ≡ (
          if same_path (ascii "type") key
          then type_of out_cap (some v)
          else scan_keys rounds out_cap (from_key fs))
  unfolding scan_keys
  scan_field rounds d key r v fs plain stop split next =
      let p = value_text v ++ (d ∷ r) in
      ap (λ w. at_key out_cap (scan_keys rounds out_cap) (skip_ws w))
        (field_text false key v fs split)
      ∙ at_key-quoted (scan_keys rounds out_cap) key p plain
      ∙ at_value-value_text (scan_keys rounds out_cap) key v r d stop
      ∙ ap
          (λ w.
            if same_path (ascii "type") key
            then type_of out_cap (some v)
            else scan_keys rounds out_cap w)
          next

  first_field :
      (b : Bool) (v : Value) (o : Option Value) (x : Option (List ℕ))
      → x ≡ type_of out_cap o
      → (if b then type_of out_cap (some v) else x) ≡ type_of out_cap (if b then some v else o)
  first_field true v o x e = refl
  first_field false v o x e = e

  scan_keys-from_key :
      (rounds : ℕ) (fs : List (List ℕ × Value))
      → length fs < rounds
      → ArePlainKeys fs
      → scan_keys rounds out_cap (from_key fs) ≡ type_of out_cap (lookup (ascii "type") fs)
  unfolding scan_keys at_key
  scan_keys-from_key zero fs h p = absurd (omega arith)
  scan_keys-from_key (suc rounds) [] h p = refl
  scan_keys-from_key (suc rounds) ((key, v) ∷ []) h (p, ps) =
      scan_field rounds 125 key [] v [] p refl refl refl
      ∙ first_field (same_path (ascii "type") key) v none _
          (scan_keys-from_key rounds [] (omega arith) ps)
  scan_keys-from_key (suc rounds) ((key, v) ∷ f ∷ fs) h (p, ps) =
      scan_field rounds 44 key (from_key (f ∷ fs)) v (f ∷ fs) p refl refl refl
      ∙ first_field (same_path (ascii "type") key) v (lookup (ascii "type") (f ∷ fs)) _
          (scan_keys-from_key rounds (f ∷ fs) (omega arith) ps)

length-values_text : (b : Bool) (fs : List (List ℕ × Value)) → length fs ≤ length (values_text b fs)
length-values_text b [] = omega arith
length-values_text b ((key, v) ∷ fs) = omega (
  arith,
  length-values_text true fs,
  length-append (comma b ++ (quoted key ++ 58 ∷ value_text v)) (values_text true fs),
  length-append (comma b) (quoted key ++ 58 ∷ value_text v),
)

-- Every object of strings, integers, Booleans and arrays of strings that the writer has written
-- whole, its keys free of quotes, backslashes and control bytes: its type is the text of the first
-- field `type` as it was written, cut to a buffer of any size but 0, if that field is a string;
-- else there is none.
pub ap_frame_type-write :
    (room out_cap : ℕ) (fs : List (List ℕ × Value)) {doc : List ℕ}
    → 0 < out_cap
    → ArePlainKeys fs
    → finish (write room fs) ≡ some doc
    → ap_frame_type doc out_cap ≡ type_of out_cap (lookup (ascii "type") fs)
unfolding ap_frame_type at_object
ap_frame_type-write room out_cap fs {doc} some_room p e =
    let text : text_of fs ≡ doc = if_some _ (sym (finish-write room fs) ∙ e) in
    let positive : (out_cap == 0) ≡ false = ground arith in
    subst (λ (w : List ℕ). ap_frame_type w out_cap ≡ type_of out_cap (lookup (ascii "type") fs))
      text
      (rw positive (
        scan_keys-from_key out_cap _ fs
          (omega
            (arith, length-values_text false fs, length-append (values_text false fs) (125 ∷ [])))
          p))
