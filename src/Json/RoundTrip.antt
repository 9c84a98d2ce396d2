-- ===== src/Json/RoundTrip.antt =====
-- Plain keys, and the search of src/lib/json_extract.c for one that src/lib/json.c has written.
use packetsonde.Prelude.{
  Bool-cases, inl, inr, ℕ, ◌+◌, ◌≤◌, ◌≡◌, ◌≢◌, refl, ap, Bool, true, false, none, some, List, [],
  ◌∷◌, ◌++◌, ◌==◌, ltb, leb, if◌then◌else◌, length, drop, arith, length-append, ==_iff,
}
use mathlib.Core.Option.{some-injective}
use packetsonde.Json.Writer.{escape}
use packetsonde.Json.Extract.{starts, find_behind, needle_of}
use packetsonde.Json.Decode.{escaped}

pub if_some : (b : Bool) {x y : List ℕ} → (if b then some x else none) ≡ some y → x ≡ y
if_some true e = some-injective _ _ e
if_some false e = cc

-- A key that needs no quoting.
abbrev pub IsPlain : List ℕ → Type 0
IsPlain [] = Unit
IsPlain (c ∷ s) = (32 ≤ c) × (c ≢ 34) × (c ≢ 92) × IsPlain s

pub escaped_plain : (s : List ℕ) → IsPlain s → escaped s ≡ s
unfolding escape
escaped_plain [] p = refl
escaped_plain (c ∷ s) (low, no_quote, no_slash, p) =
    let q : (c == 34) ≡ false = ground arith in
    let b : (c == 92) ≡ false = ground arith in
    let n : (c == 10) ≡ false = ground arith in
    let t : (c == 9) ≡ false = ground arith in
    let r : (c == 13) ≡ false = ground arith in
    let k : ltb c 32 ≡ false = ground arith in
    rw (q, b, n, t, r, k) (ap (◌∷◌ c) (escaped_plain s p))

starts_self : (a b : List ℕ) → starts a (a ++ b) ≡ true
starts_self [] b = refl
starts_self (x ∷ a) b =
    let same : (x == x) ≡ true = (==_iff x x).1 refl in rw (same, starts_self a b) refl

drop_self : (a b : List ℕ) → drop (length a) (a ++ b) ≡ b
drop_self [] b = refl
drop_self (x ∷ a) b = drop_self a b

pub find_behind_here : (a b : List ℕ) (x : ℕ) → find_behind ((x ∷ a) ++ b) (x ∷ a) ≡ some b
unfolding find_behind
find_behind_here a b x = let here = starts_self (x ∷ a) b in rw (here, drop_self a b) refl

length-escape : (c : ℕ) → 1 ≤ length (escape c)
unfolding escape
length-escape c = ground arith

pub length-escaped : (s : List ℕ) → length s ≤ length (escaped s)
length-escaped [] = omega arith
length-escaped (c ∷ s) =
    omega (arith, length-escape c, length-escaped s, length-append (escape c) (escaped s))

abbrev needle : List ℕ → List ℕ
needle key = 34 ∷ (key ++ (34 ∷ 58 ∷ []))

pub needle_of_lem : (key : List ℕ) → length key + 4 ≤ 128 → needle_of key ≡ some (needle key)
needle_of_lem key short =
    let fits : leb 128 (length (needle key)) ≡ false =
      ground (arith, length-append key (34 ∷ 58 ∷ [])) in
    rw fits refl

-- A needle that is found before a byte is found with that byte.
starts-longer :
    (a t r : List ℕ) (x : ℕ)
    → starts a t ≡ true
    → drop (length a) t ≡ x ∷ r
    → (starts (a ++ x ∷ []) t ≡ true) × (drop (length (a ++ x ∷ [])) t ≡ r)
starts-longer [] [] r x h e = cc
starts-longer [] (y ∷ t) r x h e =
    let head : x ≡ y = cc in let same : (x == y) ≡ true = (==_iff x y).1 head in (rw same refl, cc)
starts-longer (c ∷ a) [] r x h e = cc
starts-longer (c ∷ a) (y ∷ t) r x h e = elim (Bool-cases (c == y)) [
  | inl same ↦
      let (start, rest) = starts-longer a t r x (rw same at h) e in (rw (same, start) refl, rest)
  | inr other ↦ let no_start : false ≡ true = rw other at h in cc
]

starts-shorter : (a t : List ℕ) (x : ℕ) → starts a t ≡ false → starts (a ++ x ∷ []) t ≡ false
starts-shorter [] t x h = cc
starts-shorter (c ∷ a) [] x h = refl
starts-shorter (c ∷ a) (y ∷ t) x h = elim (Bool-cases (c == y)) [
  | inl same ↦ rw (same, starts-shorter a t x (rw same at h)) refl
  | inr other ↦ rw other refl
]

pub find_behind-longer :
    (t a r : List ℕ) (x : ℕ) → find_behind t a ≡ some (x ∷ r) → find_behind t (a ++ x ∷ []) ≡ some r
unfolding find_behind
find_behind-longer [] a r x e = elim (Bool-cases (starts a [])) [
  | inl start ↦ let empty : some [] ≡ some (x ∷ r) = rw start at e in cc
  | inr other ↦ let nothing : none ≡ some (x ∷ r) = rw other at e in cc
]
find_behind-longer (c ∷ t) a r x e = elim (Bool-cases (starts a (c ∷ t))) [
  | inl start ↦
      let (longer, rest) = starts-longer a (c ∷ t) r x start (some-injective _ _ (rw start at e)) in
      rw (longer, rest) refl
  | inr other ↦ rw (starts-shorter a (c ∷ t) x other) (find_behind-longer t a r x (rw other at e))
]
