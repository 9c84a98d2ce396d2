-- ===== src/Baseline/Rollup.antt =====
-- `ps_blset_rollup` of src/lib/baseline_set.c: the paths of a directory that has many are replaced by
-- the directory.
pub mod Counts
pub mod Adds
pub mod Parents
pub mod Keeps
use packetsonde.Prelude.{
  ℕ, zero, suc, ◌+◌, Bool, Option, none, some, List, [], ◌∷◌, ltb, leb, if◌then◌else◌, take,
}
use packetsonde.Prelude.Int.{ℤ, pos, negsuc}
use packetsonde.Cuts.{split_last}
use packetsonde.Baseline.{BaselineSet, init, same_path, add}

-- Up to the last slash, unless that is the first byte or there is none: then one byte.
abbrev pub dir_of : List ℕ → Option (List ℕ × List ℕ) → List ℕ
dir_of path none = take 1 path
dir_of path (some ([], b)) = take 1 path
dir_of path (some (c ∷ a, b)) = take 255 (c ∷ a)

unfoldable pub parent_dir : List ℕ → List ℕ
unfolding split_last
parent_dir path = dir_of path (split_last 47 path)

-- `dirs` and `dc` up to `dn`.
abbrev pub Dirs : Type 0
Dirs = List (List ℕ × ℕ)

unfoldable pub tally : Dirs → List ℕ → Dirs
tally [] d = (take 255 d, 1) ∷ []
tally ((e, c) ∷ ds) d = if same_path e d then (e, c + 1) ∷ ds else (e, c) ∷ tally ds d

-- The first loop.
unfoldable pub count_dirs : Dirs → List (List ℕ) → Dirs
unfolding tally parent_dir
count_dirs ds [] = ds
count_dirs ds (p ∷ ps) = count_dirs (tally ds (parent_dir p)) ps

-- `dc[k]`, where `k` is 0 if there is no such directory.
abbrev pub first_count : Dirs → ℕ
first_count [] = 0
first_count ((e, c) ∷ ds) = c

unfoldable pub count_from : ℕ → Dirs → List ℕ → ℕ
count_from z [] d = z
count_from z ((e, c) ∷ ds) d = if same_path e d then c else count_from z ds d

-- The second loop and the third.
unfoldable pub add_dirs : ℕ → BaselineSet → Dirs → BaselineSet
add_dirs t out [] = out
add_dirs t out ((d, c) ∷ ds) = add_dirs t (if leb t c then (add out (some d)).1 else out) ds

unfoldable pub add_paths : ℕ → Dirs → BaselineSet → List (List ℕ) → BaselineSet
unfolding count_from parent_dir
add_paths t ds out [] = out
add_paths t ds out (p ∷ ps) =
    add_paths t ds
      (if ltb (count_from (first_count ds) ds (parent_dir p)) t then (add out (some p)).1 else out)
      ps

-- `if (threshold < 1) threshold = 1`
abbrev pub at_least_1 : ℤ → ℕ
at_least_1 (negsuc n) = 1
at_least_1 (pos zero) = 1
at_least_1 (pos (suc n)) = suc n

unfoldable pub rollup : BaselineSet → ℤ → BaselineSet
unfolding count_dirs add_dirs add_paths
rollup s threshold =
    let t = at_least_1 threshold in
    let ds = count_dirs [] s.path in add_paths t ds (add_dirs t (init (some s.exe)) ds) s.path
