-- ===== src/Baseline/Tests.antt =====
-- Runs of src/lib/baseline_set.c and src/lib/baseline_decide.c: `/a` is approved.
use packetsonde.Prelude.{ℕ, ◌≡◌, ◌≤◌, refl, inl, arith, true, some, List, [], ◌∷◌, length, ascii}
use packetsonde.Prelude.Int.{pos, negsuc}
use packetsonde.Paths.{behind_prefix, under}
use packetsonde.Baseline.{BaselineSet, init, add, covered, decide, covered_verdict}
use packetsonde.Baseline.Covers.{IsValid, decide-add}
use packetsonde.Json.Writer.{escape, array_string}
use packetsonde.Baseline.JsonText.{to_json_key, from_json_key}
use packetsonde.Baseline.JsonText.Reads.{from_json_key-to_json_key}
use packetsonde.Baseline.Rollup.{rollup}
use packetsonde.Baseline.Rollup.Keeps.{rollup-covered}

abbrev empty : BaselineSet
empty = init (some (47 ∷ 120 ∷ []))

empty-IsValid : IsValid empty
empty-IsValid = record { exe_in = omega arith; n_in = omega arith; short = tt }

abbrev approved : List ℕ
approved = 47 ∷ 97 ∷ []

decide-add_example :
    decide (add empty (some approved)).1 empty (47 ∷ 97 ∷ 47 ∷ 98 ∷ []) ≡ covered_verdict
unfolding under behind_prefix add
decide-add_example =
    decide-add empty empty approved (47 ∷ 97 ∷ 47 ∷ 98 ∷ []) empty-IsValid (omega arith)
      (λ failed. absurd (omega_ne failed)) (inl refl)
  where
    omega_ne : pos 1 ≡ negsuc 0 → ⊥
    omega_ne e = cc

-- /a/b, /a/c and /e: two of a directory are rolled up, one is not.
abbrev three_paths : BaselineSet
three_paths = record { exe = []; path = ascii "/a/b" ∷ ascii "/a/c" ∷ ascii "/e" ∷ [] }

three_paths-IsValid : IsValid three_paths
three_paths-IsValid = record { exe_in = omega arith; n_in = omega arith; short = omega arith }

rolled_up : rollup three_paths (pos 2) ≡ record { exe = []; path = ascii "/a" ∷ ascii "/e" ∷ [] }
unfolding rollup add
rolled_up = refl

rollup-covered_example :
    IsValid (rollup three_paths (pos 2))
    × (length (rollup three_paths (pos 2)).path ≤ length three_paths.path)
    × ((x : List ℕ) → covered three_paths x ≡ true → covered (rollup three_paths (pos 2)) x ≡ true)
rollup-covered_example =
    rollup-covered three_paths (pos 2) three_paths-IsValid (refl, (refl, (refl, tt)))

abbrev paths_text : List ℕ
paths_text = ascii "{\"exe\":\"\",\"paths\":[\"/a/b\",\"/a/c\",\"/e\"]}"

paths_written : to_json_key three_paths (ascii "paths") 64 ≡ some paths_text
unfolding to_json_key escape array_string
paths_written = refl

from_json_key-to_json_key_example :
    from_json_key (some paths_text) (ascii "paths") [] empty ≡ (pos 0, three_paths)
from_json_key-to_json_key_example =
    from_json_key-to_json_key three_paths empty (ascii "paths") [] 64 three_paths-IsValid
      (omega arith) (omega arith) (omega arith) (omega arith) refl paths_written

-- `/a"b` is written with its quote escaped, and read up to the backslash.
abbrev with_quote : BaselineSet
with_quote = record { exe = []; path = (47 ∷ 97 ∷ 34 ∷ 98 ∷ []) ∷ [] }

cut_at_quote :
    (from_json_key (to_json_key with_quote (ascii "paths") 64) (ascii "paths") [] empty).1.path
    ≡ (47 ∷ 97 ∷ 92 ∷ []) ∷ []
unfolding from_json_key to_json_key escape array_string
cut_at_quote = refl
