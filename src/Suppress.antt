-- ===== src/Suppress.antt =====
-- src/lib/suppress.c: the list of reads that are dropped before they are enriched. `,` is 44 and
-- `:` is 58.
pub mod Entries
mod Tests
use packetsonde.Prelude.{
  ℕ, zero, suc, Bool, true, false, not, ◌&&◌, ◌||◌, Option, none, some, List, [], ◌∷◌, ltb, ◌==◌,
  if◌then◌else◌, length,
}
use packetsonde.Json.Extract.{starts}
use packetsonde.Baseline.{same_path}

-- The entry at the front, and what stands behind its comma.
abbrev pub entry : List ℕ → List ℕ
entry [] = []
entry (c ∷ s) = if c == 44 then [] else c ∷ entry s

abbrev pub behind_comma : List ℕ → Option (List ℕ)
behind_comma [] = none
behind_comma (c ∷ s) = if c == 44 then some s else behind_comma s

-- An entry up to its first `:` and behind it, as `memchr` finds it.
abbrev pub before_colon : List ℕ → List ℕ
before_colon [] = []
before_colon (c ∷ s) = if c == 58 then [] else c ∷ before_colon s

abbrev pub behind_colon : List ℕ → Option (List ℕ)
behind_colon [] = none
behind_colon (c ∷ s) = if c == 58 then some s else behind_colon s

-- `comm` may be NULL.
abbrev pub is_comm : Option (List ℕ) → List ℕ → Bool
is_comm none name = false
is_comm (some comm) name = same_path comm name

abbrev pub prefix_match : List ℕ → List ℕ → Bool
prefix_match prefix path = ltb 0 (length prefix) && starts prefix path

-- One round's test, by what `memchr` finds in the entry.
abbrev pub matches_by : Option (List ℕ) → List ℕ → List ℕ → Option (List ℕ) → Bool
matches_by comm path e none = prefix_match e path
matches_by comm path e (some prefix) = is_comm comm (before_colon e) && prefix_match prefix path

unfoldable pub matches : Option (List ℕ) → List ℕ → List ℕ → Bool
matches comm path e = matches_by comm path e (behind_colon e)

-- The loop at `p`, by the rounds left. Each round takes a comma, so that a round for each byte of
-- the list is enough.
unfoldable pub match_from : ℕ → Option (List ℕ) → List ℕ → List ℕ → Bool
unfolding matches
match_from zero comm path p = false
match_from (suc rounds) comm path [] = false
match_from (suc rounds) comm path (c ∷ p) =
    matches comm path (entry (c ∷ p))
    || elim (behind_comma (c ∷ p)) [ none ↦ false | some rest ↦ match_from rounds comm path rest ]

-- The list and the path may be NULL; an empty list is like NULL.
unfoldable pub suppress_match : Option (List ℕ) → Option (List ℕ) → Option (List ℕ) → Bool → Bool
unfolding match_from
suppress_match list comm path false = false
suppress_match none comm path true = false
suppress_match (some list) comm none true = false
suppress_match (some list) comm (some path) true = match_from (length list) comm path list
