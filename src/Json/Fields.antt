-- ===== src/Json/Fields.antt =====
-- src/lib/json_extract.c finds every field of an object that src/lib/json.c has written.
use packetsonde.Prelude.{
  ℕ, suc, ◌+◌, ◌≤◌, ◌<◌, ◌≡◌, ◌∙◌, refl, ap, sym, Bool, true, false, Option, none, some, List, [],
  ◌∷◌, ◌++◌, append_assoc, ◌||◌, ◌==◌, if◌then◌else◌, length, length-append, arith, Bool-cases, inl,
  inr,
}
use mathlib.Core.Path.{subst}
use packetsonde.Baseline.{same_path}
use packetsonde.Baseline.Covers.{same_path-eq}
use packetsonde.Json.Writer.{decimal, finish}
use packetsonde.Json.Extract.{decode, find_behind, needle_of, value_at, behind, extract_string}
use packetsonde.Json.Numbers.{IsLong, int_at-decimal, int_value, int_at, extract_int}
use packetsonde.Json.Decode.{escaped, IsText, decode-escaped}
use packetsonde.Json.RoundTrip.{
  IsPlain, escaped_plain, find_behind_here, needle_of_lem, if_some, length-escaped,
}
use packetsonde.Prelude.Int.{ℤ}
use packetsonde.Json.Words.{AllWord, decimal-AllWord, decimal_nonempty}
use packetsonde.Json.Prints.{quoted, comma}
use packetsonde.Json.Objects.{
  Value, string, int, bool, strings, value_text, values_text, text_of, write, finish-write,
}
use packetsonde.Json.Passes.{pass-key, pass-value}
use packetsonde.Json.Skips.{
  IsName-IsPlain, closing, IsName, IsEnd, comma-IsEnd, brace-IsEnd, search_in, pass,
}

-- The first field of a name.
abbrev pub lookup : List ℕ → List (List ℕ × Value) → Option Value
lookup k [] = none
lookup k ((key, v) ∷ fs) = if same_path k key then some v else lookup k fs

abbrev pub ArePlainKeys : List (List ℕ × Value) → Type 0
ArePlainKeys [] = Unit
ArePlainKeys ((key, v) ∷ fs) = IsPlain key × ArePlainKeys fs

-- What the search gives, by the field that there is: its value and what stands behind it.
abbrev pub Behind : Option Value → Option (List ℕ) → Type 0
Behind none o = o ≡ none
Behind (some v) o = (d : ℕ) × (r : List ℕ) × IsEnd d × (o ≡ some (value_text v ++ (d ∷ r)))

-- Behind a field stands a comma or the brace.
field-IsEnd :
    (fs : List (List ℕ × Value))
    → (d : ℕ) × (r : List ℕ) × IsEnd d × (values_text true fs ++ (125 ∷ []) ≡ d ∷ r)
field-IsEnd [] = (125, [], brace-IsEnd, refl)
field-IsEnd ((key, v) ∷ fs) = (44, _, comma-IsEnd, refl)

pub field_text :
    (b : Bool) (key : List ℕ) (v : Value) (fs : List (List ℕ × Value)) {d : ℕ} {r : List ℕ}
    → values_text true fs ++ (125 ∷ []) ≡ d ∷ r
    → values_text b ((key, v) ∷ fs) ++ (125 ∷ [])
      ≡ comma b ++ (quoted key ++ (58 ∷ (value_text v ++ (d ∷ r))))
field_text b key v fs e = simp (append_assoc, e)

module _ (k : List ℕ) (name : IsName k) where
  pass_comma : (b : Bool) (t : List ℕ) → search_in k (comma b ++ t) ≡ search_in k t
  pass_comma true t = pass k 44 t refl
  pass_comma false t = refl

  found : (key t : List ℕ) → same_path k key ≡ true → search_in k (quoted key ++ (58 ∷ t)) ≡ some t
  found key t same =
      rw (← same_path-eq k key same, escaped_plain k (IsName-IsPlain k name))
        (ap (search_in k) (rearranged k t) ∙ find_behind_here (closing k) t 34)
    where
      rearranged : (a u : List ℕ) → 34 ∷ ((a ++ (34 ∷ [])) ++ (58 ∷ u)) ≡ (34 ∷ closing a) ++ u
      rearranged a u = simp append_assoc refl

  search-values_text :
      (b : Bool) (fs : List (List ℕ × Value))
      → ArePlainKeys fs
      → Behind (lookup k fs) (search_in k (values_text b fs ++ (125 ∷ [])))
  search-values_text b [] p = unfold find_behind in refl
  search-values_text b ((key, v) ∷ fs) (p, ps) =
      let (d, r, e, split) = field-IsEnd fs in
      let rest = value_text v ++ (d ∷ r) in
      let to_key : search_in k (values_text b ((key, v) ∷ fs) ++ (125 ∷ []))
          ≡ search_in k (quoted key ++ (58 ∷ rest)) =
        ap (search_in k) (field_text b key v fs split) ∙ pass_comma b (quoted key ++ (58 ∷ rest)) in
      elim (Bool-cases (same_path k key)) [
        | inl this ↦ rw this (d, r, e, to_key ∙ found key rest this)
        | inr other ↦ rw other (
            subst (Behind (lookup k fs))
              (sym (
                to_key
                ∙ pass-key k name key rest p other
                ∙ pass-value k name v d r e
                ∙ ap (search_in k) (sym split)))
              (search-values_text true fs ps))
      ]

  pub behind-text_of :
      (fs : List (List ℕ × Value))
      → length k + 4 ≤ 128
      → ArePlainKeys fs
      → Behind (lookup k fs) (behind (text_of fs) (needle_of k))
  unfolding find_behind
  behind-text_of fs short p = rw (needle_of_lem k short) (
      subst (Behind (lookup k fs)) (sym (pass k 123 (values_text false fs ++ (125 ∷ [])) refl))
        (search-values_text false fs p))

-- What the two readers give for a key, by the field of that name.
abbrev pub Reads : List ℕ → List ℕ → Option Value → Type 0
Reads doc k none = ((cap : ℕ) → extract_string doc k cap ≡ none) × (extract_int doc k ≡ none)
Reads doc k (some (string s)) =
    ((cap : ℕ) → IsText s → length s < cap → extract_string doc k cap ≡ some s)
    × (extract_int doc k ≡ none)
Reads doc k (some (int z)) =
    ((cap : ℕ) → extract_string doc k cap ≡ none) × (IsLong z → extract_int doc k ≡ some z)
Reads doc k (some (bool b)) =
    ((cap : ℕ) → extract_string doc k cap ≡ none) × (extract_int doc k ≡ none)
Reads doc k (some (strings ss)) =
    ((cap : ℕ) → extract_string doc k cap ≡ none) × (extract_int doc k ≡ none)

-- A number starts with neither a blank nor a quote.
decimal-no_string : (cap : ℕ) (z : ℤ) (t : List ℕ) → value_at cap (some (decimal z ++ t)) ≡ none
decimal-no_string cap z t =
    let (c, w, e) = decimal_nonempty z in
    let ((low, high, other), words) : AllWord (c ∷ w) = rw e at (decimal-AllWord z) in
    let no_blank : (c == 32 || c == 9) ≡ false = ground arith in
    let no_quote : (c == 34) ≡ false = ground arith in
    rw e (unfold decode in rw (no_blank, no_quote) refl)

module _ (doc k : List ℕ) where
  string_from :
      {o : Option (List ℕ)}
      → behind doc (needle_of k) ≡ o
      → (cap : ℕ) → extract_string doc k cap ≡ (if cap == 0 then none else value_at cap o)
  unfolding extract_string
  string_from e cap = rw e refl

  int_from : {o : Option (List ℕ)} → behind doc (needle_of k) ≡ o → extract_int doc k ≡ int_at o
  unfolding extract_int
  int_from e = rw e refl

  -- A value that is no string.
  no_string_from :
      {o : Option (List ℕ)}
      → behind doc (needle_of k) ≡ o
      → ((cap : ℕ) → value_at cap o ≡ none)
      → (cap : ℕ) → extract_string doc k cap ≡ none
  no_string_from e no_string cap = string_from e cap ∙ rw (no_string cap) (either_way (cap == 0))
    where
      either_way : (t : Bool) → ◌≡◌ {A = Option (List ℕ)} (if t then none else none) none
      either_way true = refl
      either_way false = refl

  -- A value that neither reader takes.
  refused :
      {o : Option (List ℕ)}
      → behind doc (needle_of k) ≡ o
      → ((cap : ℕ) → value_at cap o ≡ none)
      → int_at o ≡ none
      → ((cap : ℕ) → extract_string doc k cap ≡ none) × (extract_int doc k ≡ none)
  refused e no_string no_int = (no_string_from e no_string, int_from e ∙ no_int)

  quoted_value :
      (cap d : ℕ) (s r : List ℕ)
      → IsText s
      → length s < cap
      → value_at cap (some (quoted s ++ (d ∷ r))) ≡ some s
  unfolding decode
  quoted_value cap d s r text fits =
      let tail = escaped s ++ (34 ∷ d ∷ r) in
      rw (append_assoc (escaped s) (34 ∷ []) (d ∷ r)) (
        decode-escaped (suc (length tail)) s (d ∷ r) cap text
          (omega (arith, length-escaped s, length-append (escaped s) (34 ∷ d ∷ r))) fits)

  read_value : (v : Option Value) → Behind v (behind doc (needle_of k)) → Reads doc k v
  unfolding int_value decode
  read_value none e = refused e (λ cap. refl) refl
  read_value (some (string s)) (d, r, stop, e) = (
    λ cap text fits.
        let some_room : (cap == 0) ≡ false = ground arith in
        string_from e cap ∙ rw some_room (quoted_value cap d s r text fits),
    int_from e,
  )
  read_value (some (int z)) (d, r, stop, e) = (
    no_string_from e (λ cap. decimal-no_string cap z (d ∷ r)),
    λ fits. int_from e ∙ int_at-decimal r d stop.3 z fits,
  )
  read_value (some (bool true)) (d, r, stop, e) = refused e (λ cap. refl) refl
  read_value (some (bool false)) (d, r, stop, e) = refused e (λ cap. refl) refl
  read_value (some (strings ss)) (d, r, stop, e) = refused e (λ cap. refl) refl

-- Every object of strings, integers, Booleans and arrays of strings that the writer has written
-- whole, its keys free of quotes, backslashes and control bytes: for a key of at most 124 such bytes
-- that begins with a small letter or `_`, the readers give the first field of that name, a string
-- whatever its bytes but NUL where it fits, an integer where a `long` holds it and its negation;
-- they refuse a value of another kind, and a key that the object does not have.
pub extract-write :
    (room : ℕ) (k : List ℕ) (fs : List (List ℕ × Value)) {doc : List ℕ}
    → IsName k
    → length k + 4 ≤ 128
    → ArePlainKeys fs
    → finish (write room fs) ≡ some doc
    → Reads doc k (lookup k fs)
extract-write room k fs {doc} name short p e =
    let text : text_of fs ≡ doc = if_some _ (sym (finish-write room fs) ∙ e) in
    read_value doc k (lookup k fs) (
      subst (λ (t : List ℕ). Behind (lookup k fs) (behind t (needle_of k))) text
        (behind-text_of k name fs short p))
