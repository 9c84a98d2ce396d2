-- ===== src/Baseline/JsonText.antt =====
-- The JSON of a set of src/lib/baseline_set.c. `"` is 34, `,` is 44 and `]` is 93.
pub mod Reads
use packetsonde.Prelude.{
  ℕ, zero, suc, ◌-◌, Bool, true, false, ◌||◌, Option, none, some, List, [], ◌∷◌, ◌++◌, ltb, ◌==◌,
  if◌then◌else◌, length, take, ascii,
}
use packetsonde.Prelude.Int.{ℤ, pos, negsuc}
use packetsonde.Cuts.{contains, split_first}
use packetsonde.Json.Writer.{
  init, object_begin, key_string, array_begin, array_strings, array_end, object_end, finish,
}
use packetsonde.Json.Extract.{find_behind, extract_string}
use packetsonde.Baseline.{BaselineSet, max_paths}

-- The text, or -1.
unfoldable pub to_json_key : BaselineSet → List ℕ → ℕ → Option (List ℕ)
unfolding object_begin key_string array_begin array_end object_end finish
to_json_key s key cap =
    let named = key_string (object_begin (init cap)) (ascii "exe") s.exe in
    finish (object_end (array_end (array_strings (array_begin named key) s.path)))

-- A path between quotes and what stands behind it, unless a `]` comes first.
abbrev pub quoted_path : Option (List ℕ × List ℕ) → Option (List ℕ × List ℕ)
unfolding split_first
quoted_path none = none
quoted_path (some (front, q)) = if contains 93 front then none else split_first 34 q

-- What stands behind the next comma, unless a `]` comes first.
abbrev pub past_comma : Option (List ℕ × List ℕ) → Option (List ℕ)
past_comma none = none
past_comma (some (front, p)) = if contains 93 front then none else some p

abbrev pub read_next : (ℕ → List ℕ → List (List ℕ)) → ℕ → Option (List ℕ) → List (List ℕ)
read_next read room none = []
read_next read room (some p) = read room p

-- A path that does not fit its array is passed over.
abbrev pub store_path : (ℕ → List ℕ → List (List ℕ)) → ℕ → Option (List ℕ × List ℕ) → List (List ℕ)
unfolding split_first
store_path read room none = []
store_path read room (some (path, rest)) =
    let p = past_comma (split_first 44 rest) in
    let others = read_next read (if ltb (length path) 256 then room - 1 else room) p in
    if ltb (length path) 256 then path ∷ others else others

-- The loop behind the `[`, where `room` places are left; a round takes two quotes, so that one for
-- each byte is enough.
unfoldable pub read_paths : ℕ → ℕ → List ℕ → List (List ℕ)
unfolding split_first
read_paths zero room p = []
read_paths (suc rounds) room [] = []
read_paths (suc rounds) room (c ∷ p) =
    if c == 93 || room == 0
    then []
    else store_path (read_paths rounds) room (quoted_path (split_first 34 (c ∷ p)))

-- `pat`, an array of 64 bytes.
abbrev pub pattern_of : List ℕ → List ℕ
pattern_of key = take 63 (34 ∷ (key ++ (34 ∷ 58 ∷ 91 ∷ [])))

abbrev pub paths_behind : Option (List ℕ) → List (List ℕ)
unfolding read_paths
paths_behind none = []
paths_behind (some p) = read_paths (length p) max_paths p

abbrev pub exe_or : List ℕ → Option (List ℕ) → List ℕ
exe_or left none = left
exe_or left (some exe) = exe

-- The JSON may be NULL. `left` is the text in `exe` if it is not read: nothing where there is no
-- string, and what was stored of one that has no end or does not fit.
unfoldable pub from_json_key : Option (List ℕ) → List ℕ → List ℕ → BaselineSet → ℤ × BaselineSet
unfolding extract_string find_behind read_paths
from_json_key none key left s = (negsuc 0, s)
from_json_key (some json) key left s = (
  pos 0,
  record {
    exe = exe_or left (extract_string json (ascii "exe") 256);
    path = paths_behind (find_behind json (pattern_of key));
  },
)

unfoldable pub to_json : BaselineSet → ℕ → Option (List ℕ)
unfolding to_json_key
to_json s cap = to_json_key s (ascii "paths") cap

unfoldable pub from_json : Option (List ℕ) → List ℕ → BaselineSet → ℤ × BaselineSet
unfolding from_json_key
from_json json left s = from_json_key json (ascii "paths") left s
