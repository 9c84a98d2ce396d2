-- ===== src/Baseline.antt =====
-- Baselines of paths: the set of src/lib/baseline_set.c and the verdict of src/lib/baseline_decide.c.
pub mod Covers
pub mod Rollup
pub mod JsonText
mod Tests
use packetsonde.Prelude.{
  ℕ, suc, Bool, true, false, ◌&&◌, ◌||◌, Option, none, some, List, [], ◌∷◌, ◌++◌, leb, ◌==◌,
  if◌then◌else◌, length, take,
}
use packetsonde.Prelude.Int.{ℤ, pos, negsuc}
use packetsonde.Paths.{under_any}

-- `PS_BL_MAX`.
abbrev pub max_paths : ℕ
max_paths = 512

-- `struct ps_baseline_set`: `path` is the array up to `n`.
pub record BaselineSet : Type 0 where
  pub exe : List ℕ
  pub path : List (List ℕ)

-- `exe` may be NULL. `snprintf` keeps what fits the array of 256 with its NUL.
abbrev pub init : Option (List ℕ) → BaselineSet
init none = record { exe = []; path = [] }
init (some exe) = record { exe = take 255 exe; path = [] }

-- `strcmp(a, b) == 0`
abbrev pub same_path : List ℕ → List ℕ → Bool
same_path [] [] = true
same_path [] (y ∷ b) = false
same_path (x ∷ a) [] = false
same_path (x ∷ a) (y ∷ b) = x == y && same_path a b

abbrev pub has_path : List (List ℕ) → List ℕ → Bool
has_path [] p = false
has_path (q ∷ qs) p = same_path q p || has_path qs p

-- 1 if it was added, 0 if it was there, -1 if it is NULL or empty or the set is full.
unfoldable pub add : BaselineSet → Option (List ℕ) → ℤ × BaselineSet
add s none = (negsuc 0, s)
add s (some []) = (negsuc 0, s)
add s (some (c ∷ p)) =
    if has_path s.path (c ∷ p)
    then (pos 0, s)
    else if leb max_paths (length s.path)
    then (negsuc 0, s)
    else (pos 1, record s { path = s.path ++ take 255 (c ∷ p) ∷ [] })

unfoldable pub covered : BaselineSet → List ℕ → Bool
unfolding under_any
covered s path = under_any path s.path

pub data Verdict : Type 0 where
  covered_verdict novel anomaly : Verdict

unfoldable pub decide : BaselineSet → BaselineSet → List ℕ → Verdict
unfolding covered
decide baseline denials path =
    if covered baseline path
    then covered_verdict
    else if covered denials path
    then anomaly
    else novel
