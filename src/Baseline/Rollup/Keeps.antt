-- ===== src/Baseline/Rollup/Keeps.antt =====
-- The roll-up of src/lib/baseline_set.c loses nothing.
use packetsonde.Prelude.{
  ℕ, ◌+◌, ◌≤◌, ◌≡◌, inl, inr, ◌∙◌, refl, ap, Bool, true, false, not, some, List, [], ◌∷◌, ltb, leb,
  if◌then◌else◌, length, length-take, arith, Bool-cases,
}
use mathlib.Core.Path.{subst}
use packetsonde.Prelude.Int.{ℤ}
use packetsonde.Paths.{under, under_any}
use packetsonde.Paths.Order.{under_trans}
use packetsonde.Baseline.{BaselineSet, init, add, covered}
use packetsonde.Baseline.Covers.{AllShort, IsValid}
use packetsonde.Baseline.Rollup.{
  Dirs, parent_dir, count_dirs, first_count, count_from, add_dirs, add_paths, at_least_1, rollup,
}
use packetsonde.Baseline.Rollup.Counts.{
  tested, tested-not, names, tested-count_dirs, count_dirs-AllApart, Agrees, count_from-Agrees,
  Counted, Elem, count_dirs-Counted,
}
use packetsonde.Baseline.Rollup.Parents.{
  IsAbsolute, AllAbsolute, parent_covers, count_dirs-AllStored,
}
use packetsonde.Baseline.Rollup.Adds.{AllStored, add_all, Added, add_all-Added}

-- What a loop adds.
abbrev keep : (List ℕ → Bool) → List (List ℕ) → List (List ℕ)
keep f [] = []
keep f (x ∷ xs) = if f x then x ∷ keep f xs else keep f xs

length-keep : (f : List ℕ → Bool) (xs : List (List ℕ)) → length (keep f xs) ≡ tested f xs
length-keep f [] = refl
length-keep f (x ∷ xs) = elim (Bool-cases (f x)) [
  | inl yes_x ↦ rw yes_x (omega (arith, length-keep f xs))
  | inr no_x ↦ rw no_x (omega (arith, length-keep f xs))
]

keep-AllStored : (f : List ℕ → Bool) (xs : List (List ℕ)) → AllStored xs → AllStored (keep f xs)
keep-AllStored f [] h = h
keep-AllStored f (x ∷ xs) (h, hs) = elim (Bool-cases (f x)) [
  | inl yes_x ↦ rw yes_x (h, keep-AllStored f xs hs)
  | inr no_x ↦ rw no_x (keep-AllStored f xs hs)
]

Elem-keep :
    (f : List ℕ → Bool) (q : List ℕ) (xs : List (List ℕ))
    → f q ≡ true
    → Elem q xs
    → Elem q (keep f xs)
Elem-keep f q [] t e = absurd e
Elem-keep f q (x ∷ xs) t (inl here) = rw (here, t) (inl refl)
Elem-keep f q (x ∷ xs) t (inr there) = elim (Bool-cases (f x)) [
  | inl yes_x ↦ rw yes_x (inr (Elem-keep f q xs t there))
  | inr no_x ↦ rw no_x (Elem-keep f q xs t there)
]

add_dirs-keep :
    (f : List ℕ → Bool) (t : ℕ) (out : BaselineSet) (ds : Dirs)
    → Agrees f t ds
    → add_dirs t out ds ≡ add_all out (keep f (names ds))
unfolding add_dirs
add_dirs-keep f t out [] a = refl
add_dirs-keep f t out ((d, c) ∷ ds) (same, a) = elim (Bool-cases (leb t c)) [
  | inl big ↦ rw (same, big) (add_dirs-keep f t (add out (some d)).1 ds a)
  | inr small ↦ rw (same, small) (add_dirs-keep f t out ds a)
]

-- The test of a directory's count.
abbrev many : ℕ → Dirs → List ℕ → Bool
many t ds d = leb t (count_from (first_count ds) ds d)

abbrev few : ℕ → Dirs → List ℕ → Bool
few t ds p = not (many t ds (parent_dir p))

add_paths-keep :
    (t : ℕ) (ds : Dirs) (out : BaselineSet) (ps : List (List ℕ))
    → add_paths t ds out ps ≡ add_all out (keep (few t ds) ps)
unfolding add_paths
add_paths-keep t ds out [] = refl
add_paths-keep t ds out (p ∷ ps) =
    let c = count_from (first_count ds) ds (parent_dir p) in
    elim (Bool-cases (leb t c)) [
      | inl big ↦
          let not_below : ltb c t ≡ false = ground arith in
          rw (big, not_below) (add_paths-keep t ds out ps)
      | inr small ↦
          let below : ltb c t ≡ true = ground arith in
          rw (small, below) (add_paths-keep t ds (add out (some p)).1 ps)
    ]

Counted-Elem : (d : List ℕ) (ds : Dirs) → Counted d ds → Elem d (names ds)
Counted-Elem d [] h = h
Counted-Elem d ((e, c) ∷ ds) (inl here) = inl here
Counted-Elem d ((e, c) ∷ ds) (inr there) = inr (Counted-Elem d ds there)

stored_paths : (ps : List (List ℕ)) → AllAbsolute ps → AllShort ps → AllStored ps
stored_paths [] a h = tt
stored_paths ([] ∷ ps) (a, rest) h = absurd a
stored_paths ((c ∷ p) ∷ ps) (a, rest) (h, hs) = (h, stored_paths ps rest hs)

-- The path of a set that covers another one.
under_any-Elem :
    (x : List ℕ) (ps : List (List ℕ))
    → under_any x ps ≡ true
    → (q : List ℕ) × Elem q ps × (under x q ≡ true)
unfolding under_any
under_any-Elem x [] h = cc
under_any-Elem x (p ∷ ps) h = elim (Bool-cases (under x p)) [
  | inl this ↦ (p, inl refl, this)
  | inr other ↦ let (q, e, u) = under_any-Elem x ps (rw other at h) in (q, inr e, u)
]

of_set :
    (q : List ℕ) (ps : List (List ℕ))
    → Elem q ps
    → AllAbsolute ps
    → AllShort ps
    → IsAbsolute q × (length q ≤ 255)
of_set q [] e a h = absurd e
of_set q (p ∷ ps) (inl here) (a, rest) (h, hs) =
    (subst IsAbsolute here a, subst (λ (w : List ℕ). length w ≤ 255) here h)
of_set q (p ∷ ps) (inr there) (a, rest) (h, hs) = of_set q ps there rest hs

module _ (s : BaselineSet) (threshold : ℤ) (v : IsValid s) (absolute : AllAbsolute s.path) where
  abbrev t : ℕ
  t = at_least_1 threshold

  abbrev ds : Dirs
  ds = count_dirs [] s.path

  -- What the second loop adds, and the third.
  abbrev dirs : List (List ℕ)
  dirs = keep (many t ds) (names ds)

  abbrev paths : List (List ℕ)
  paths = keep (few t ds) s.path

  abbrev middle : BaselineSet
  middle = add_all (init (some s.exe)) dirs

  rollup_loops : rollup s threshold ≡ add_all middle paths
  unfolding rollup
  rollup_loops =
      ap (λ (out : BaselineSet). add_paths t ds out s.path)
        (add_dirs-keep (many t ds) t (init (some s.exe)) ds
          (count_from-Agrees t (first_count ds) ds (count_dirs-AllApart [] s.path tt)))
      ∙ add_paths-keep t ds middle s.path

  few_enough : length dirs + length paths ≤ length s.path
  few_enough = omega (
    arith,
    length-keep (many t ds) (names ds),
    length-keep (few t ds) s.path,
    tested-count_dirs (many t ds) [] s.path,
    tested-not (λ p. many t ds (parent_dir p)) s.path,
  )

  init-IsValid : IsValid (init (some s.exe))
  init-IsValid = record {
    exe_in = omega (arith, length-take {0} 255 s.exe);
    n_in = omega arith;
    short = tt;
  }

  dirs-Added : Added (init (some s.exe)) dirs middle
  dirs-Added =
      add_all-Added (init (some s.exe)) dirs init-IsValid
        (keep-AllStored (many t ds) (names ds) (count_dirs-AllStored [] s.path absolute tt))
        (omega (arith, few_enough, v.n_in))

  paths-Added : Added middle paths (add_all middle paths)
  paths-Added =
      add_all-Added middle paths dirs-Added.valid
        (keep-AllStored (few t ds) s.path (stored_paths s.path absolute v.short))
        (omega (arith, few_enough, dirs-Added.grows, v.n_in))

  -- A path of the set is covered by its directory, or is there itself.
  still_covered :
      (q x : List ℕ) → Elem q s.path → under x q ≡ true → covered (add_all middle paths) x ≡ true
  still_covered q x e u =
      let (whole, short) = of_set q s.path e absolute v.short in
      elim (Bool-cases (many t ds (parent_dir q))) [
        | inl big ↦ paths-Added.keeps x (
            dirs-Added.covers (parent_dir q) x
              (Elem-keep (many t ds) (parent_dir q) (names ds) big
                (Counted-Elem (parent_dir q) ds (count_dirs-Counted q [] s.path e)))
              (under_trans x q (parent_dir q) u (parent_covers q whole short)))
        | inr small ↦ paths-Added.covers q x (Elem-keep (few t ds) q s.path (rw small refl) e) u
      ]

  -- The roll-up of a valid set of absolute paths, whatever the threshold, is a valid set with no more
  -- paths than before, and covers every path that was covered.
  pub rollup-covered :
      IsValid (rollup s threshold)
      × (length (rollup s threshold).path ≤ length s.path)
      × ((x : List ℕ) → covered s x ≡ true → covered (rollup s threshold) x ≡ true)
  rollup-covered = rw rollup_loops (
    paths-Added.valid,
    omega (arith, few_enough, dirs-Added.grows, paths-Added.grows),
    λ x h. let (q, e, u) = under_any-Elem x s.path (unfold covered in h) in still_covered q x e u,
  )
