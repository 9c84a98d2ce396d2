-- ===== src/Baseline/JsonText/Reads.antt =====
-- src/lib/baseline_set.c reads back the sets that it writes as JSON.
use packetsonde.Prelude.{
  ℕ, zero, suc, ◌-◌, ◌≤◌, ◌<◌, ◌≡◌, ◌∙◌, refl, ap, sym, Bool, true, false, Option, none, some, List,
  [], ◌∷◌, ◌++◌, append_assoc, ltb, ◌==◌, length, length-append, arith, ascii,
}
use packetsonde.Prelude.Int.{pos}
use mathlib.Core.Path.{subst}
use packetsonde.Cuts.{contains, put_before, split_first, split_first-append}
use packetsonde.Json.Writer.{finish}
use packetsonde.Json.Extract.{find_behind, needle_of, behind, extract_string}
use packetsonde.Json.Decode.{IsText}
use packetsonde.Json.RoundTrip.{find_behind-longer, IsPlain, escaped_plain, if_some, needle_of_lem}
use packetsonde.Json.Prints.{comma, quoted}
use packetsonde.Json.Objects.{Value, string, strings, items_text, text_of, write, finish-write}
use packetsonde.Json.Skips.{IsName, IsName-IsPlain, needle}
use packetsonde.Json.Fields.{ArePlainKeys, Behind, behind-text_of, extract-write}
use packetsonde.Baseline.{BaselineSet, max_paths, same_path}
use packetsonde.Baseline.Covers.{same_path_self, AllShort, IsValid, take_all}
use packetsonde.Baseline.JsonText.{
  to_json_key, read_paths, read_next, past_comma, pattern_of, from_json_key,
}

IsPlain-contains : (s : List ℕ) → IsPlain s → contains 34 s ≡ false
IsPlain-contains [] p = refl
IsPlain-contains (c ∷ s) (low, q, b, p) =
    let no_quote : (c == 34) ≡ false = ground arith in rw (no_quote, IsPlain-contains s p) refl

abbrev AllPlain : List (List ℕ) → Type 0
AllPlain [] = Unit
AllPlain (p ∷ ps) = IsPlain p × AllPlain ps

abbrev following : List (List ℕ) → List ℕ → Option (List ℕ)
following [] t = none
following (u ∷ us) t = some (quoted u ++ (items_text true us ++ (93 ∷ t)))

-- What stands behind a path: a comma and the next path, or the end of the array.
past_comma_items :
    (us : List (List ℕ)) (t : List ℕ)
    → past_comma (split_first 44 (items_text true us ++ (93 ∷ t))) ≡ following us t
unfolding split_first
past_comma_items [] t = no_comma (split_first 44 t)
  where
    no_comma : (o : Option (List ℕ × List ℕ)) → past_comma (put_before 93 o none) ≡ none
    no_comma none = refl
    no_comma (some (a, b)) = refl
past_comma_items (u ∷ us) t = ap some (simp (append_assoc))

-- A round of the loop takes a path.
read_paths_step :
    (rounds room : ℕ) (s : List ℕ) (us : List (List ℕ)) (t : List ℕ)
    → 0 < room
    → IsPlain s
    → length s ≤ 255
    → read_paths (suc rounds) room (quoted s ++ (items_text true us ++ (93 ∷ t)))
      ≡ s ∷ read_next (read_paths rounds) (room - 1) (following us t)
unfolding read_paths
read_paths_step rounds room s us t k p q =
    let some_room : (room == 0) ≡ false = ground arith in
    let fits : ltb (length s) 256 ≡ true = ground arith in
    let rest = items_text true us ++ (93 ∷ t) in
    rw
      (
        some_room,
        escaped_plain s p,
        append_assoc s (34 ∷ []) rest,
        split_first-append 34 s rest (IsPlain-contains s p),
        fits,
        past_comma_items us t,
      )
      refl

read_paths-items :
    (rounds room : ℕ) (s : List ℕ) (us : List (List ℕ)) (t : List ℕ)
    → length us < rounds
    → length us < room
    → AllPlain (s ∷ us)
    → AllShort (s ∷ us)
    → read_paths rounds room (quoted s ++ (items_text true us ++ (93 ∷ t))) ≡ s ∷ us
read_paths-items zero room s us t h k p q = absurd (omega arith)
read_paths-items (suc rounds) room s [] t h k (p, ps) (q, qs) =
    read_paths_step rounds room s [] t (omega arith) p q
read_paths-items (suc rounds) room s (u ∷ us) t h k (p, ps) (q, qs) =
    read_paths_step rounds room s (u ∷ us) t (omega arith) p q
    ∙ ap (◌∷◌ s) (read_paths-items rounds (room - 1) u us t (omega arith) (omega arith) ps qs)

length-items :
    (b : Bool) (ss : List (List ℕ)) (t : List ℕ) → length ss < length (items_text b ss ++ (93 ∷ t))
length-items b [] t = omega arith
length-items b (s ∷ ss) t = rw (append_assoc (comma b ++ quoted s) (items_text true ss) (93 ∷ t)) (
    omega (
      arith,
      length-items true ss t,
      length-append (comma b ++ quoted s) (items_text true ss ++ (93 ∷ t)),
      length-append (comma b) (quoted s),
    ))

read_all :
    (ss : List (List ℕ)) (t : List ℕ)
    → length ss ≤ max_paths
    → AllPlain ss
    → AllShort ss
    → let p = items_text false ss ++ (93 ∷ t) in read_paths (length p) max_paths p ≡ ss
read_all [] t h p q = unfold read_paths in refl
read_all (s ∷ ss) t h p q =
    let rest = items_text true ss ++ (93 ∷ t) in
    subst (λ (w : List ℕ). read_paths (length w) max_paths w ≡ s ∷ ss)
      (sym (append_assoc (quoted s) (items_text true ss) (93 ∷ t)))
      (read_paths-items (length (quoted s ++ rest)) max_paths s ss t
        (omega (arith, length-items true ss t, length-append (quoted s) rest)) (omega arith) p q)

abbrev exe_name : List ℕ
exe_name = ascii "exe"

exe_name-IsName : IsName exe_name
exe_name-IsName = omega arith

module _ (s : BaselineSet) (key : List ℕ) (name : IsName key)
    (other : same_path key exe_name ≡ false) where
  abbrev fields : List (List ℕ × Value)
  fields = (exe_name, string s.exe) ∷ (key, strings s.path) ∷ []

  fields-ArePlainKeys : ArePlainKeys fields
  fields-ArePlainKeys = (IsName-IsPlain exe_name exe_name-IsName, (IsName-IsPlain key name, tt))

  exe_read :
      (cap : ℕ) {doc : List ℕ}
      → IsText s.exe
      → length s.exe ≤ 255
      → finish (write cap fields) ≡ some doc
      → extract_string doc exe_name 256 ≡ some s.exe
  exe_read cap text short made =
      (extract-write cap exe_name fields exe_name-IsName (omega arith) fields-ArePlainKeys made).0
        256 text (omega arith)

  abbrev Found : Type 0
  Found =
      (t : List ℕ) × (find_behind (text_of fields) (pattern_of key)
        ≡ some (items_text false s.path ++ (93 ∷ t)))

  array_found :
      length key ≤ 59
      → Behind (some (strings s.path)) (behind (text_of fields) (needle_of key))
      → Found
  unfolding find_behind
  array_found short (d, r, stop, e) =
      let items = items_text false s.path ++ (93 ∷ d ∷ r) in
      let needle_found : find_behind (text_of fields) (needle key) ≡ some (91 ∷ items) =
        (rw (needle_of_lem key (omega arith)) at e)
        ∙ ap (λ w. some (91 ∷ w)) (append_assoc (items_text false s.path) (93 ∷ []) (d ∷ r)) in
      let whole : pattern_of key ≡ needle key ++ (91 ∷ []) =
        take_all 63 (34 ∷ (key ++ (34 ∷ 58 ∷ 91 ∷ [])))
          (omega (arith, length-append key (34 ∷ 58 ∷ 91 ∷ [])))
        ∙ ap (◌∷◌ 34) (sym (append_assoc key (34 ∷ 58 ∷ []) (91 ∷ []))) in
      (
        d ∷ r,
        ap (find_behind (text_of fields)) whole
            ∙ find_behind-longer (text_of fields) (needle key) items 91 needle_found,
      )

  paths_found : length key ≤ 59 → Found
  paths_found short = array_found short (
      rw (other, same_path_self key) at
        (behind-text_of key name fields (omega arith) fields-ArePlainKeys))

-- A valid set of paths free of quotes, backslashes and control bytes, with an `exe` of any bytes but
-- NUL,
-- that is written whole under a key of at most 59 such bytes, other than `exe` and beginning with a
-- small letter or `_`: it is read back as it was, whatever it is read into.
pub from_json_key-to_json_key :
    (s t : BaselineSet) (key left : List ℕ) (cap : ℕ) {doc : List ℕ}
    → IsValid s
    → IsText s.exe
    → AllPlain s.path
    → IsName key
    → length key ≤ 59
    → same_path key (ascii "exe") ≡ false
    → to_json_key s key cap ≡ some doc
    → from_json_key (some doc) key left t ≡ (pos 0, s)
unfolding to_json_key from_json_key
from_json_key-to_json_key s t key left cap {doc} v text plain name short other made =
    let text_made : text_of (fields s key name other) ≡ doc =
      if_some _ (sym (finish-write cap (fields s key name other)) ∙ made) in
    let exe = exe_read s key name other cap text v.exe_in made in
    let (u, found) = paths_found s key name other short in
    rw
      (
        exe,
        ap (λ w. find_behind w (pattern_of key)) (sym text_made) ∙ found,
        read_all s.path u v.n_in plain v.short,
      )
      refl
