-- ===== src/Baseline/Rollup/Parents.antt =====
-- The directory of a path in src/lib/baseline_set.c.
use packetsonde.Prelude.{
  ℕ, ◌≤◌, ◌≡◌, inl, inr, refl, ap, Bool, true, false, ◌||◌, Option, none, some, List, [], ◌∷◌, ◌++◌,
  ◌==◌, if◌then◌else◌, length, length-append, length-take, take, arith, Bool-cases, ==_iff,
}
use packetsonde.Cuts.{put_before, split_last}
use packetsonde.Paths.{under, at_boundary}
use packetsonde.Paths.Order.{IsUnder-under}
use packetsonde.Baseline.{same_path}
use packetsonde.Baseline.Covers.{take_all}
use packetsonde.Baseline.Rollup.{Dirs, dir_of, parent_dir, tally, count_dirs}
use packetsonde.Baseline.Rollup.Counts.{names}
use packetsonde.Baseline.Rollup.Adds.{IsStored, AllStored}

abbrev pub IsAbsolute : List ℕ → Type 0
IsAbsolute [] = ⊥
IsAbsolute (c ∷ p) = c ≡ 47

abbrev pub AllAbsolute : List (List ℕ) → Type 0
AllAbsolute [] = Unit
AllAbsolute (p ∷ ps) = IsAbsolute p × AllAbsolute ps

-- A path lies beneath its directory.
abbrev Splits : ℕ → List ℕ → Option (List ℕ × List ℕ) → Type 0
Splits c s none = Unit
Splits c s (some (a, b)) = s ≡ a ++ (c ∷ b)

split_last-Splits : (c : ℕ) (s : List ℕ) → Splits c s (split_last c s)
unfolding split_last
split_last-Splits c [] = tt
split_last-Splits c (x ∷ s) = further (split_last c s) (split_last-Splits c s)
  where
    last_here : Splits c (x ∷ s) (if x == c then some ([], s) else none)
    last_here = elim (Bool-cases (x == c)) [
      | inl same ↦ rw same (ap (λ (y : ℕ). y ∷ s) ((==_iff x c).0 same))
      | inr other ↦ rw other tt
    ]

    further :
        (o : Option (List ℕ × List ℕ))
        → Splits c s o
        → Splits c (x ∷ s) (put_before x o (if x == c then some ([], s) else none))
    further none h = last_here
    further (some (a, b)) h = ap (λ (w : List ℕ). x ∷ w) h

or_true : (b : Bool) → (b || true) ≡ true
or_true true = refl
or_true false = refl

beneath_root : (p : List ℕ) → IsAbsolute p → under p (take 1 p) ≡ true
beneath_root [] h = absurd h
beneath_root (c ∷ p) h = IsUnder-under (record {
  first = c;
  others = [];
  rest = p;
  named = refl;
  splits = refl;
  bounded = slash_end p;
})
  where
    slash_end : (r : List ℕ) → at_boundary c (some r) ≡ true
    slash_end [] = refl
    slash_end (d ∷ r) = rw h (or_true (d == 47))

pub parent_covers : (p : List ℕ) → IsAbsolute p → length p ≤ 255 → under p (parent_dir p) ≡ true
unfolding parent_dir
parent_covers p h short = by_split (split_last 47 p) (split_last-Splits 47 p)
  where
    by_split : (o : Option (List ℕ × List ℕ)) → Splits 47 p o → under p (dir_of p o) ≡ true
    by_split none e = beneath_root p h
    by_split (some ([], b)) e = beneath_root p h
    by_split (some (c ∷ a, b)) e =
        let size : length (c ∷ a) ≤ 255 =
          omega (arith, short, ap length e, length-append {0} (c ∷ a) (47 ∷ b)) in
        rw (take_all 255 (c ∷ a) size) (
          IsUnder-under (record {
            first = c;
            others = a;
            rest = 47 ∷ b;
            named = refl;
            splits = e;
            bounded = refl;
          }))

parent_dir-IsStored : (p : List ℕ) → IsAbsolute p → IsStored (parent_dir p)
unfolding parent_dir
parent_dir-IsStored p h = by_split (split_last 47 p)
  where
    one_byte : (q : List ℕ) → IsAbsolute q → IsStored (take 1 q)
    one_byte [] k = k
    one_byte (c ∷ q) k = omega arith

    by_split : (o : Option (List ℕ × List ℕ)) → IsStored (dir_of p o)
    by_split none = one_byte p h
    by_split (some ([], b)) = one_byte p h
    by_split (some (c ∷ a, b)) = omega (arith, length-take {0} 254 a)

tally-AllStored :
    (ds : Dirs) (d : List ℕ) → IsStored d → AllStored (names ds) → AllStored (names (tally ds d))
unfolding tally
tally-AllStored [] d h a = (cut d h, tt)
  where
    cut : (q : List ℕ) → IsStored q → IsStored (take 255 q)
    cut [] k = k
    cut (c ∷ q) k = omega (arith, length-take {0} 254 q)
tally-AllStored ((e, c) ∷ ds) d h (a, rest) = elim (Bool-cases (same_path e d)) [
  | inl found ↦ rw found (a, rest)
  | inr other ↦ rw other (a, tally-AllStored ds d h rest)
]

pub count_dirs-AllStored :
    (ds : Dirs) (ps : List (List ℕ))
    → AllAbsolute ps
    → AllStored (names ds)
    → AllStored (names (count_dirs ds ps))
unfolding count_dirs
count_dirs-AllStored ds [] h a = a
count_dirs-AllStored ds (p ∷ ps) (h, hs) a =
    count_dirs-AllStored (tally ds (parent_dir p)) ps hs
      (tally-AllStored ds (parent_dir p) (parent_dir-IsStored p h) a)
