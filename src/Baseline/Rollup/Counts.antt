-- ===== src/Baseline/Rollup/Counts.antt =====
-- The directories that the roll-up of src/lib/baseline_set.c counts.
use packetsonde.Prelude.{
  ℕ, ◌+◌, ◌≤◌, ◌≡◌, ◌⊎◌, inl, inr, refl, Bool, false, not, Option, none, some, List, [], ◌∷◌, leb,
  if◌then◌else◌, length, length-take, arith, Bool-cases,
}
use packetsonde.Cuts.{split_last}
use packetsonde.Baseline.{same_path}
use packetsonde.Baseline.Covers.{same_path_self, same_path-eq, take_all}
use packetsonde.Baseline.Rollup.{Dirs, dir_of, parent_dir, tally, count_dirs, count_from}

-- How many of a list pass a test.
abbrev pub tested : (List ℕ → Bool) → List (List ℕ) → ℕ
tested f [] = 0
tested f (x ∷ xs) = (if f x then 1 else 0) + tested f xs

pub tested-not :
    (f : List ℕ → Bool) (xs : List (List ℕ)) → tested f xs + tested (λ x. not (f x)) xs ≡ length xs
tested-not f [] = refl
tested-not f (x ∷ xs) = elim (Bool-cases (f x)) [
  | inl yes_x ↦ rw yes_x (omega (arith, tested-not f xs))
  | inr no_x ↦ rw no_x (omega (arith, tested-not f xs))
]

abbrev pub names : Dirs → List (List ℕ)
names [] = []
names ((d, c) ∷ ds) = d ∷ names ds

-- A directory fits its array.
pub length-parent_dir : (p : List ℕ) → length (parent_dir p) ≤ 255
unfolding parent_dir
length-parent_dir p = cases_of (split_last 47 p)
  where
    cases_of : (o : Option (List ℕ × List ℕ)) → length (dir_of p o) ≤ 255
    cases_of none = omega (arith, length-take {0} 1 p)
    cases_of (some ([], b)) = omega (arith, length-take {0} 1 p)
    cases_of (some (c ∷ a, b)) = omega (arith, length-take {0} 255 (c ∷ a))

module _ (f : List ℕ → Bool) where
  tested-tally :
      (ds : Dirs) (d : List ℕ)
      → length d ≤ 255
      → tested f (names (tally ds d)) ≤ tested f (names ds) + (if f d then 1 else 0)
  unfolding tally
  tested-tally [] d h = rw (take_all 255 d h) (omega arith)
  tested-tally ((e, c) ∷ ds) d h = elim (Bool-cases (same_path e d)) [
    | inl found ↦ rw found (omega arith)
    | inr other ↦ rw other (omega (arith, tested-tally ds d h))
  ]

  pub tested-count_dirs :
      (ds : Dirs) (ps : List (List ℕ))
      → tested f (names (count_dirs ds ps))
        ≤ tested f (names ds) + tested (λ p. f (parent_dir p)) ps
  unfolding count_dirs
  tested-count_dirs ds [] = omega arith
  tested-count_dirs ds (p ∷ ps) = omega (
    arith,
    tested-count_dirs (tally ds (parent_dir p)) ps,
    tested-tally ds (parent_dir p) (length-parent_dir p),
  )

-- No directory is counted twice.
abbrev pub Apart : List ℕ → Dirs → Type 0
Apart x [] = Unit
Apart x ((e, c) ∷ ds) = (same_path x e ≡ false) × Apart x ds

abbrev pub AllApart : Dirs → Type 0
AllApart [] = Unit
AllApart ((e, c) ∷ ds) = Apart e ds × AllApart ds

tally-Apart :
    (x : List ℕ) (ds : Dirs) (d : List ℕ)
    → length d ≤ 255
    → same_path x d ≡ false
    → Apart x ds
    → Apart x (tally ds d)
unfolding tally
tally-Apart x [] d h other a = (rw (take_all 255 d h) other, tt)
tally-Apart x ((e, c) ∷ ds) d h other (a, as_before) = elim (Bool-cases (same_path e d)) [
  | inl found ↦ rw found (a, as_before)
  | inr differs ↦ rw differs (a, tally-Apart x ds d h other as_before)
]

tally-AllApart : (ds : Dirs) (d : List ℕ) → length d ≤ 255 → AllApart ds → AllApart (tally ds d)
unfolding tally
tally-AllApart [] d h a = (tt, tt)
tally-AllApart ((e, c) ∷ ds) d h (a, rest) = elim (Bool-cases (same_path e d)) [
  | inl found ↦ rw found (a, rest)
  | inr differs ↦ rw differs (tally-Apart e ds d h differs a, tally-AllApart ds d h rest)
]

pub count_dirs-AllApart :
    (ds : Dirs) (ps : List (List ℕ)) → AllApart ds → AllApart (count_dirs ds ps)
unfolding count_dirs
count_dirs-AllApart ds [] a = a
count_dirs-AllApart ds (p ∷ ps) a =
    count_dirs-AllApart (tally ds (parent_dir p)) ps
      (tally-AllApart ds (parent_dir p) (length-parent_dir p) a)

-- A test of names that agrees with a test of their counts.
abbrev pub Agrees : (List ℕ → Bool) → ℕ → Dirs → Type 0
Agrees f t [] = Unit
Agrees f t ((d, c) ∷ ds) = (f d ≡ leb t c) × Agrees f t ds

Agrees-cons :
    (t z c : ℕ) (d : List ℕ) (all ds : Dirs)
    → Apart d ds
    → Agrees (λ x. leb t (count_from z all x)) t ds
    → Agrees (λ x. leb t (count_from z ((d, c) ∷ all) x)) t ds
unfolding count_from
Agrees-cons t z c d all [] a h = tt
Agrees-cons t z c d all ((e, k) ∷ ds) (differs, a) (h, hs) =
    (rw differs h, Agrees-cons t z c d all ds a hs)

pub count_from-Agrees :
    (t z : ℕ) (ds : Dirs) → AllApart ds → Agrees (λ x. leb t (count_from z ds x)) t ds
count_from-Agrees t z [] a = tt
count_from-Agrees t z ((d, c) ∷ ds) (a, rest) = (
  unfold count_from in rw (same_path_self d) refl,
  Agrees-cons t z c d ds ds a (count_from-Agrees t z ds rest),
)

-- A directory that was counted.
abbrev pub Counted : List ℕ → Dirs → Type 0
Counted d [] = ⊥
Counted d ((e, c) ∷ ds) = (e ≡ d) ⊎ Counted d ds

tally-Counted : (ds : Dirs) (d : List ℕ) → length d ≤ 255 → Counted d (tally ds d)
unfolding tally
tally-Counted [] d h = inl (take_all 255 d h)
tally-Counted ((e, c) ∷ ds) d h = elim (Bool-cases (same_path e d)) [
  | inl found ↦ rw found (inl (same_path-eq e d found))
  | inr other ↦ rw other (inr (tally-Counted ds d h))
]

Counted-tally : (x : List ℕ) (ds : Dirs) (d : List ℕ) → Counted x ds → Counted x (tally ds d)
unfolding tally
Counted-tally x [] d h = absurd h
Counted-tally x ((e, c) ∷ ds) d (inl here) = elim (Bool-cases (same_path e d)) [
  | inl found ↦ rw found (inl here)
  | inr other ↦ rw other (inl here)
]
Counted-tally x ((e, c) ∷ ds) d (inr there) = elim (Bool-cases (same_path e d)) [
  | inl found ↦ rw found (inr there)
  | inr other ↦ rw other (inr (Counted-tally x ds d there))
]

Counted-count_dirs :
    (x : List ℕ) (ds : Dirs) (ps : List (List ℕ)) → Counted x ds → Counted x (count_dirs ds ps)
unfolding count_dirs
Counted-count_dirs x ds [] h = h
Counted-count_dirs x ds (p ∷ ps) h =
    Counted-count_dirs x (tally ds (parent_dir p)) ps (Counted-tally x ds (parent_dir p) h)

abbrev pub Elem : List ℕ → List (List ℕ) → Type 0
Elem x [] = ⊥
Elem x (y ∷ ys) = (y ≡ x) ⊎ Elem x ys

-- The directory of every path is counted.
pub count_dirs-Counted :
    (p : List ℕ) (ds : Dirs) (ps : List (List ℕ))
    → Elem p ps
    → Counted (parent_dir p) (count_dirs ds ps)
unfolding count_dirs
count_dirs-Counted p ds [] h = absurd h
count_dirs-Counted p ds (q ∷ ps) (inl here) =
    Counted-count_dirs (parent_dir p) (tally ds (parent_dir q)) ps
      (rw here (tally-Counted ds (parent_dir p) (length-parent_dir p)))
count_dirs-Counted p ds (q ∷ ps) (inr there) =
    count_dirs-Counted p (tally ds (parent_dir q)) ps there
