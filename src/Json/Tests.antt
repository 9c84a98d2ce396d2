-- ===== src/Json/Tests.antt =====
-- Runs of src/lib/json.c and src/lib/json_extract.c.
use packetsonde.Prelude.{ℕ, ◌≡◌, arith, true, some, List, [], ◌∷◌, ascii}
use packetsonde.Prelude.Int.{negsuc}
use packetsonde.Json.Writer.{escape, decimal, finish}
use packetsonde.Json.Numbers.{extract_int}
use packetsonde.Json.Objects.{Value, string, int, bool, text_of, write, finish-write}
use packetsonde.Json.Fields.{Reads, extract-write}

-- `{"kind":"x\n","count":-42,"on":true}`
abbrev mixed : List (List ℕ × Value)
mixed =
    (ascii "kind", string (120 ∷ 10 ∷ []))
    ∷ (ascii "count", int (negsuc 41))
    ∷ (ascii "on", bool true)
    ∷ []

mixed_written : finish (write 64 mixed) ≡ some (text_of mixed)
unfolding escape decimal
mixed_written = finish-write 64 mixed

extract-write_example : Reads (text_of mixed) (ascii "count") (some (int (negsuc 41)))
extract-write_example =
    extract-write 64 (ascii "count") mixed (omega arith) (omega arith) (omega arith) mixed_written

count_read : extract_int (text_of mixed) (ascii "count") ≡ some (negsuc 41)
count_read = extract-write_example.1 (omega arith)
