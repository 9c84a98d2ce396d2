-- ===== src/Cuts.antt =====
-- Texts cut at a byte: `strchr` and `strrchr` as the sources use them.
use packetsonde.Prelude.{
  ℕ, ◌≡◌, refl, Bool, true, false, ◌||◌, Option, none, some, List, [], ◌∷◌, ◌++◌, ◌==◌,
  if◌then◌else◌, arith, ==_iff,
}

-- What stands before and behind the last `c`, as `strrchr` finds it.
abbrev pub put_before :
    ℕ → Option (List ℕ × List ℕ) → Option (List ℕ × List ℕ) → Option (List ℕ × List ℕ)
put_before x none otherwise = otherwise
put_before x (some (a, b)) otherwise = some (x ∷ a, b)

unfoldable pub split_last : ℕ → List ℕ → Option (List ℕ × List ℕ)
split_last c [] = none
split_last c (x ∷ s) = put_before x (split_last c s) (if x == c then some ([], s) else none)

-- The same for the first, as `strchr` finds it.
unfoldable pub split_first : ℕ → List ℕ → Option (List ℕ × List ℕ)
split_first c [] = none
split_first c (x ∷ s) =
    let later = put_before x (split_first c s) none in if x == c then some ([], s) else later

abbrev pub contains : ℕ → List ℕ → Bool
contains c [] = false
contains c (x ∷ s) = x == c || contains c s

pub contains-append : (c : ℕ) (a b : List ℕ) → contains c (a ++ b) ≡ (contains c a || contains c b)
contains-append c [] b = refl
contains-append c (x ∷ a) b = ground (arith, contains-append c a b)

-- A text without the byte, by its head and the rest.
pub none_of :
    (c x : ℕ) (s : List ℕ)
    → contains c (x ∷ s) ≡ false
    → ((x == c) ≡ false) × (contains c s ≡ false)
none_of c x s h = (ground (arith, h), ground (arith, h))

module _ (c : ℕ) where
  pub split_last-none : (s : List ℕ) → contains c s ≡ false → split_last c s ≡ none
  unfolding split_last
  split_last-none [] h = refl
  split_last-none (x ∷ s) h =
      let (other, later) = none_of c x s h in rw (split_last-none s later, other) refl

  pub split_last-append :
      (a b : List ℕ) → contains c b ≡ false → split_last c (a ++ (c ∷ b)) ≡ some (a, b)
  unfolding split_last
  split_last-append [] b h =
      let same : (c == c) ≡ true = (==_iff c c).1 refl in rw (split_last-none b h, same) refl
  split_last-append (x ∷ a) b h = rw (split_last-append a b h) refl

  pub split_first-none : (s : List ℕ) → contains c s ≡ false → split_first c s ≡ none
  unfolding split_first
  split_first-none [] h = refl
  split_first-none (x ∷ s) h =
      let (other, later) = none_of c x s h in rw (split_first-none s later, other) refl

  pub split_first-append :
      (a b : List ℕ) → contains c a ≡ false → split_first c (a ++ (c ∷ b)) ≡ some (a, b)
  unfolding split_first
  split_first-append [] b h = let same : (c == c) ≡ true = (==_iff c c).1 refl in rw same refl
  split_first-append (x ∷ a) b h =
      let (other, later) = none_of c x a h in rw (split_first-append a b later, other) refl
