-- ===== src/Paths/Order.antt =====
-- `under` of src/lib/policy_eval.c and src/lib/baseline_set.c is the order of the directory tree.
use packetsonde.Prelude.{
  ℕ, ◌≡◌, inl, inr, refl, ap, sym, ◌∙◌, true, Option, none, some, List, [], ◌∷◌, ◌++◌, ◌==◌,
  append_assoc, append-nil, Bool-cases, ==_iff, arith,
}
use packetsonde.Paths.{behind_prefix, last_byte, at_boundary, under, under_any}
use mathlib.Core.Path.{subst}
use mathlib.Core.Option.{some-injective}

pub behind_prefix-append : (p r : List ℕ) → behind_prefix p (p ++ r) ≡ some r
unfolding behind_prefix
behind_prefix-append [] r = refl
behind_prefix-append (x ∷ p) r =
    let same : (x == x) ≡ true = (==_iff x x).1 refl in rw (same, behind_prefix-append p r) refl

pub behind_prefix-some : (p path r : List ℕ) → behind_prefix p path ≡ some r → path ≡ p ++ r
unfolding behind_prefix
behind_prefix-some [] path r e = some-injective _ _ e
behind_prefix-some (x ∷ p) [] r e = cc
behind_prefix-some (x ∷ p) (c ∷ path) r e = elim (Bool-cases (x == c)) [
  | inl same ↦
      let tail = behind_prefix-some p path r (rw same at e) in
      let head : x ≡ c = (==_iff x c).0 same in cc
  | inr other ↦ absurd (no_some (rw other at e))
]
  where
    no_some : {s : List ℕ} → none ≡ some s → ⊥
    no_some f = cc

-- `path` is the directory `prefix` or lies beneath it.
pub record IsUnder (path prefix : List ℕ) : Type 0 where
  pub first : ℕ
  pub others : List ℕ
  pub rest : List ℕ
  pub named : prefix ≡ first ∷ others
  pub splits : path ≡ prefix ++ rest
  pub bounded : at_boundary (last_byte first others) (some rest) ≡ true

IsUnder-cases :
    (x : ℕ) (prefix path : List ℕ) (o : Option (List ℕ))
    → behind_prefix (x ∷ prefix) path ≡ o
    → at_boundary (last_byte x prefix) o ≡ true
    → IsUnder path (x ∷ prefix)
IsUnder-cases x prefix path none e h = cc
IsUnder-cases x prefix path (some r) e h = record {
  first = x;
  others = prefix;
  rest = r;
  named = refl;
  splits = behind_prefix-some (x ∷ prefix) path r e;
  bounded = h;
}

pub under-IsUnder : (path prefix : List ℕ) → under path prefix ≡ true → IsUnder path prefix
unfolding under
under-IsUnder path [] h = cc
under-IsUnder path (x ∷ prefix) h = IsUnder-cases x prefix path _ refl h

pub IsUnder-under : {path prefix : List ℕ} → IsUnder path prefix → under path prefix ≡ true
unfolding under
IsUnder-under u = rw (u.splits, u.named, behind_prefix-append (u.first ∷ u.others) u.rest) u.bounded

-- Beneath a directory that is beneath `y ∷ d`, by what the one has behind the other.
deeper :
    (x p : List ℕ) (y : ℕ) (d r : List ℕ)
    → p ≡ (y ∷ d) ++ r
    → at_boundary (last_byte y d) (some r) ≡ true
    → IsUnder x p
    → IsUnder x (y ∷ d)
deeper x p y d [] e h u = subst (IsUnder x) (e ∙ append-nil (y ∷ d)) u
deeper x p y d (c ∷ r) e h u = record {
  first = y;
  others = d;
  rest = (c ∷ r) ++ u.rest;
  named = refl;
  splits = u.splits ∙ ap (λ (w : List ℕ). w ++ u.rest) e ∙ append_assoc (y ∷ d) (c ∷ r) u.rest;
  bounded = h;
}

IsUnder-trans : (x p d : List ℕ) → IsUnder x p → IsUnder p d → IsUnder x d
IsUnder-trans x p d u v = subst (IsUnder x) (sym v.named) (
    deeper x p v.first v.others v.rest (v.splits ∙ ap (λ (w : List ℕ). w ++ v.rest) v.named)
      v.bounded u)

-- What is beneath a directory beneath a directory is beneath the latter.
pub under_trans : (x p d : List ℕ) → under x p ≡ true → under p d ≡ true → under x d ≡ true
under_trans x p d h k =
    IsUnder-under (IsUnder-trans x p d (under-IsUnder x p h) (under-IsUnder p d k))

pub under_any_trans :
    (arr : List (List ℕ)) (x p : List ℕ)
    → under x p ≡ true
    → under_any p arr ≡ true
    → under_any x arr ≡ true
unfolding under_any
under_any_trans [] x p h k = k
under_any_trans (a ∷ arr) x p h k = elim (Bool-cases (under p a)) [
  | inl here ↦ rw (under_trans x p a h here) refl
  | inr not_here ↦ let later = under_any_trans arr x p h (rw not_here at k) in ground (arith, later)
]
