-- ===== src/Baseline/Covers.antt =====
-- What a path that joins a set of src/lib/baseline_set.c covers, and the verdicts that follow.
use packetsonde.Prelude.{
  ℕ, zero, suc, ◌≤◌, ◌≡◌, ◌≢◌, ◌⊎◌, refl, ap, sym, ◌∙◌, Bool, true, false, ◌||◌, Option, none, some,
  List, [], ◌∷◌, ◌++◌, leb, ◌==◌, ==_iff, length, take, arith, Bool-cases, inl, inr, append-nil,
  length-append, length-take,
}
use packetsonde.Prelude.Int.{ℤ, negsuc}
use mathlib.Core.Path.{subst}
use mathlib.Core.Option.{some-injective}
use packetsonde.Paths.{under, under_any}
use packetsonde.Paths.Order.{under_any_trans, IsUnder-under}
use packetsonde.Baseline.{
  BaselineSet, covered_verdict, max_paths, same_path, has_path, add, covered, decide,
}

-- The arrays hold what is in them.
abbrev pub AllShort : List (List ℕ) → Type 0
AllShort [] = Unit
AllShort (p ∷ ps) = (length p ≤ 255) × AllShort ps

pub record IsValid (s : BaselineSet) : Type 0 where
  pub exe_in : length s.exe ≤ 255
  pub n_in : length s.path ≤ max_paths
  pub short : AllShort s.path

AllShort-append :
    (ps : List (List ℕ)) (p : List ℕ) → AllShort ps → length p ≤ 255 → AllShort (ps ++ p ∷ [])
AllShort-append [] p h k = (k, tt)
AllShort-append (q ∷ ps) p (h, hs) k = (h, AllShort-append ps p hs k)

under_any-append :
    (x : List ℕ) (ps qs : List (List ℕ))
    → under_any x (ps ++ qs) ≡ (under_any x ps || under_any x qs)
unfolding under_any
under_any-append x [] qs = refl
under_any-append x (p ∷ ps) qs = ground (arith, under_any-append x ps qs)

pub same_path-eq : (a b : List ℕ) → same_path a b ≡ true → a ≡ b
same_path-eq [] [] h = refl
same_path-eq [] (y ∷ b) h = cc
same_path-eq (x ∷ a) [] h = cc
same_path-eq (x ∷ a) (y ∷ b) h =
    let head : x ≡ y = ground arith in
    let tail : same_path a b ≡ true = ground arith in let rest = same_path-eq a b tail in cc

pub same_path_self : (a : List ℕ) → same_path a a ≡ true
same_path_self [] = refl
same_path_self (x ∷ a) =
    let same : (x == x) ≡ true = (==_iff x x).1 refl in rw (same, same_path_self a) refl

under_self : (c : ℕ) (p : List ℕ) → under (c ∷ p) (c ∷ p) ≡ true
under_self c p = IsUnder-under (record {
  first = c;
  others = p;
  rest = [];
  named = refl;
  splits = sym (append-nil (c ∷ p));
  bounded = refl;
})

has_path-under_any :
    (ps : List (List ℕ)) (c : ℕ) (p : List ℕ)
    → has_path ps (c ∷ p) ≡ true
    → under_any (c ∷ p) ps ≡ true
unfolding under_any
has_path-under_any [] c p h = h
has_path-under_any (q ∷ ps) c p h = elim (Bool-cases (same_path q (c ∷ p))) [
  | inl same ↦ rw (same_path-eq q (c ∷ p) same, under_self c p) refl
  | inr other ↦ let later = has_path-under_any ps c p (rw other at h) in ground (arith, later)
]

pub take_all : (n : ℕ) (p : List ℕ) → length p ≤ n → take n p ≡ p
take_all zero [] h = refl
take_all zero (x ∷ p) h = absurd (omega arith)
take_all (suc n) [] h = refl
take_all (suc n) (x ∷ p) h = ap (◌∷◌ x) (take_all n p (omega arith))

renamed : {r q : List ℕ} (x : List ℕ) → some r ≡ some q → under x q ≡ true → under x r ≡ true
renamed x e u = subst (λ (w : List ℕ). under x w ≡ true) (sym (some-injective _ _ e)) u

new_covers :
    (ps : List (List ℕ)) (x p : List ℕ)
    → length p ≤ 255
    → under x p ≡ true
    → under_any x (ps ++ take 255 p ∷ []) ≡ true
unfolding under_any
new_covers ps x p short u =
    under_any-append x ps (take 255 p ∷ [])
    ∙ rw (take_all 255 p short, u) (or_true (under_any x ps))
  where
    or_true : (b : Bool) → (b || true) ≡ true
    or_true true = refl
    or_true false = refl

-- A set stays valid, loses nothing that it covered, and, unless the call fails, covers all beneath
-- the path, where that fits the array.
abbrev pub Extends : BaselineSet → Option (List ℕ) → ℤ × BaselineSet → Type 0
Extends s p (code, s') =
    IsValid s'
    × ((x : List ℕ) → covered s x ≡ true → covered s' x ≡ true)
    × ((q x : List ℕ)
        → p ≡ some q
        → length q ≤ 255
        → code ≢ negsuc 0
        → under x q ≡ true
        → covered s' x ≡ true)

stays : (s : BaselineSet) (p : Option (List ℕ)) → IsValid s → Extends s p (negsuc 0, s)
stays s p v = (v, λ x h. h, λ q x e short ok u. absurd (ok refl))

-- An addition of any path, or of NULL, to a valid set leaves it valid and loses nothing that it
-- covered. Unless it fails, the set then covers everything beneath the path, where the path has at
-- most 255 bytes.
pub add-Extends : (s : BaselineSet) (p : Option (List ℕ)) → IsValid s → Extends s p (add s p)
unfolding add covered
add-Extends s none v = stays s none v
add-Extends s (some []) v = stays s (some []) v
add-Extends s (some (c ∷ p)) v = elim (Bool-cases (has_path s.path (c ∷ p))) [
  | inl there ↦ rw there (
    v,
    λ x h. h,
    λ q x e short ok u.
        under_any_trans s.path x (c ∷ p) (renamed x e u) (has_path-under_any s.path c p there),
  )
  | inr absent ↦ elim (Bool-cases (leb max_paths (length s.path))) [
    | inl full ↦ rw (absent, full) (stays s (some (c ∷ p)) v)
    | inr room ↦
        rw (absent, room)
          (
            record {
              exe_in = v.exe_in;
              n_in = ground (arith, v.n_in, length-append s.path (take 255 (c ∷ p) ∷ []));
              short =
                  AllShort-append s.path (take 255 (c ∷ p)) v.short
                    (omega (arith, length-take 255 (c ∷ p)));
            },
            λ x h. under_any-append x s.path (take 255 (c ∷ p) ∷ []) ∙ ground (arith, h),
            λ q x e short ok u.
                new_covers s.path x (c ∷ p)
                  (subst (λ (w : List ℕ). length w ≤ 255) (sym (some-injective _ _ e)) short)
                  (renamed x e u),
          )
  ]
]

-- Once a path of at most 255 bytes has joined a valid set of approved ones, whatever lies beneath it is covered,
-- denied or not, and what was covered before still is.
pub decide-add :
    (baseline denials : BaselineSet) (p x : List ℕ)
    → IsValid baseline
    → length p ≤ 255
    → (add baseline (some p)).0 ≢ negsuc 0
    → (under x p ≡ true) ⊎ (decide baseline denials x ≡ covered_verdict)
    → decide (add baseline (some p)).1 denials x ≡ covered_verdict
unfolding decide
decide-add baseline denials p x v short ok (inl u) =
    let (valid, keeps, covers) = add-Extends baseline (some p) v in
    rw (covers p x refl short ok u) refl
decide-add baseline denials p x v short ok (inr before) =
    let (valid, keeps, covers) = add-Extends baseline (some p) v in
    rw (keeps x (was_covered before)) refl
  where
    was_covered : decide baseline denials x ≡ covered_verdict → covered baseline x ≡ true
    was_covered e = ground (arith, e)
