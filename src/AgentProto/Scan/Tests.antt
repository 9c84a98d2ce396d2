-- ===== src/AgentProto/Scan/Tests.antt =====
-- Runs of the scanners of src/lib/agent_proto.c.
use packetsonde.Prelude.{ℕ, ◌≡◌, refl, some, List, [], ◌∷◌, arith, ascii}
use packetsonde.Prelude.Int.{pos, negsuc}
use packetsonde.Json.Writer.{escape, decimal, finish}
use packetsonde.Json.Objects.{Value, string, int, strings, text_of, write, finish-write}
use packetsonde.AgentProto.Scan.{skip_plain, ap_frame_type, hello_recipe_schema}
use packetsonde.AgentProto.Scan.Types.{ap_frame_type-write}

-- `{"ids":["]"],"n":-7,"type":"probe"}`
abbrev frame : List (List ℕ × Value)
frame =
    (ascii "ids", strings (ascii "]" ∷ []))
    ∷ (ascii "n", int (negsuc 6))
    ∷ (ascii "type", string (ascii "probe"))
    ∷ []

frame_written : finish (write 64 frame) ≡ some (text_of frame)
unfolding escape decimal
frame_written = finish-write 64 frame

ap_frame_type-write_example : ap_frame_type (text_of frame) 5 ≡ some (ascii "prob")
unfolding escape
ap_frame_type-write_example =
    ap_frame_type-write 64 5 frame (omega arith) (omega arith) frame_written

-- Blanks, an object and what looks like a type inside it are passed over.
nested :
    ap_frame_type (ascii " { \"a\" : {\"type\":\"x\"} , \"type\" : \"hello\" }") 32
    ≡ some (ascii "hello")
unfolding ap_frame_type skip_plain
nested = refl

-- 2 is taken, nothing is 1, and 4294967296 becomes 0.
two : hello_recipe_schema (ascii "{\"max_recipe_schema\":2}") ≡ pos 2
unfolding hello_recipe_schema
two = refl

absent : hello_recipe_schema (ascii "{}") ≡ pos 1
unfolding hello_recipe_schema
absent = refl

too_large : hello_recipe_schema (ascii "{\"max_recipe_schema\":4294967296}") ≡ pos 0
unfolding hello_recipe_schema
too_large = refl
