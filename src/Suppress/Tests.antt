-- ===== src/Suppress/Tests.antt =====
-- A run of src/lib/suppress.c on the list `/a,b:/c`.
use packetsonde.Prelude.{ℕ, ◌≡◌, true, some, List, [], ◌∷◌}
use packetsonde.Suppress.{matches, suppress_match}
use packetsonde.Suppress.Entries.{suppress_match-any}

abbrev list : List ℕ
list = 47 ∷ 97 ∷ 44 ∷ 98 ∷ 58 ∷ 47 ∷ 99 ∷ []

suppress_match-any_example :
    suppress_match (some list) (some (98 ∷ [])) (some (47 ∷ 99 ∷ 47 ∷ 100 ∷ [])) true ≡ true
unfolding matches
suppress_match-any_example =
    suppress_match-any (some list) (some (98 ∷ [])) (some (47 ∷ 99 ∷ 47 ∷ 100 ∷ [])) true
