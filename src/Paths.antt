-- ===== src/Paths.antt =====
-- Path prefixes, as src/lib/policy_eval.c and src/lib/baseline_set.c test them with the same
-- function `under`. A path is the list of its bytes before the NUL; `/` is 47.
pub mod Order
use packetsonde.Prelude.{
  ℕ, Bool, true, false, ◌||◌, Option, none, some, List, [], ◌∷◌, ◌==◌, if◌then◌else◌,
}

-- What `path` has behind `prefix`, if it starts with it.
unfoldable pub behind_prefix : List ℕ → List ℕ → Option (List ℕ)
behind_prefix [] path = some path
behind_prefix (p ∷ prefix) [] = none
behind_prefix (p ∷ prefix) (c ∷ path) =
    let later = behind_prefix prefix path in if p == c then later else none

-- `prefix[lp-1]`
abbrev pub last_byte : ℕ → List ℕ → ℕ
last_byte x [] = x
last_byte x (y ∷ s) = last_byte y s

-- Is the end of the prefix the end of a component? `last` is the last byte of the prefix.
abbrev pub at_boundary : ℕ → Option (List ℕ) → Bool
at_boundary last none = false
at_boundary last (some []) = true
at_boundary last (some (c ∷ rest)) = c == 47 || last == 47

unfoldable pub under : List ℕ → List ℕ → Bool
unfolding behind_prefix
under path [] = false
under path (p ∷ prefix) = at_boundary (last_byte p prefix) (behind_prefix (p ∷ prefix) path)

-- The loops over an array of prefixes.
unfoldable pub under_any : List ℕ → List (List ℕ) → Bool
unfolding under
under_any path [] = false
under_any path (a ∷ arr) = under path a || under_any path arr
