-- ===== src/Baseline/Rollup/Adds.antt =====
-- Additions to a set of src/lib/baseline_set.c that has room for all of them.
use packetsonde.Prelude.{
  ℕ, suc, ◌+◌, ◌≤◌, ◌<◌, ◌≡◌, ◌≢◌, ◌⊎◌, inl, inr, refl, true, false, some, List, [], ◌∷◌, leb,
  length, length-append, take, arith, Bool-cases,
}
use packetsonde.Prelude.Int.{negsuc}
use packetsonde.Paths.{under}
use packetsonde.Baseline.{BaselineSet, max_paths, has_path, add, covered}
use packetsonde.Baseline.Covers.{IsValid, add-Extends}
use packetsonde.Baseline.Rollup.Counts.{Elem}

-- A path that is not empty and fits.
abbrev pub IsStored : List ℕ → Type 0
IsStored [] = ⊥
IsStored (c ∷ p) = length (c ∷ p) ≤ 255

abbrev pub AllStored : List (List ℕ) → Type 0
AllStored [] = Unit
AllStored (p ∷ ps) = IsStored p × AllStored ps

-- One addition.
add_fits :
    (s : BaselineSet) (p : List ℕ)
    → IsStored p
    → length s.path < max_paths
    → ((add s (some p)).0 ≢ negsuc 0) × (length (add s (some p)).1.path ≤ suc (length s.path))
unfolding add
add_fits s [] h room = absurd h
add_fits s (c ∷ p) h room = elim (Bool-cases (has_path s.path (c ∷ p))) [
  | inl there ↦ rw there ((λ e. cc), omega arith)
  | inr absent ↦
      let open_slot : leb max_paths (length s.path) ≡ false = ground arith in
      rw (absent, open_slot)
        ((λ e. cc), omega (arith, length-append s.path (take 255 (c ∷ p) ∷ [])))
]

abbrev pub add_all : BaselineSet → List (List ℕ) → BaselineSet
add_all s [] = s
add_all s (p ∷ ps) = add_all (add s (some p)).1 ps

-- What a set is after additions: valid, no longer than they make it, and it covers what it covered
-- and all that lies beneath what was added.
pub record Added (s : BaselineSet) (ps : List (List ℕ)) (s' : BaselineSet) : Type 0 where
  pub valid : IsValid s'
  pub grows : length s'.path ≤ length s.path + length ps
  pub keeps : (x : List ℕ) → covered s x ≡ true → covered s' x ≡ true
  pub covers : (q x : List ℕ) → Elem q ps → under x q ≡ true → covered s' x ≡ true

pub add_all-Added :
    (s : BaselineSet) (ps : List (List ℕ))
    → IsValid s
    → AllStored ps
    → length s.path + length ps ≤ max_paths
    → Added s ps (add_all s ps)
add_all-Added s [] v h room = record {
  valid = v;
  grows = omega arith;
  keeps = λ x k. k;
  covers = λ q x e u. absurd e;
}
add_all-Added s (p ∷ ps) v (h, hs) room =
    let (valid, keeps, covers) = add-Extends s (some p) v in
    let (ok, size) = add_fits s p h (omega (arith, room)) in
    let rest = add_all-Added (add s (some p)).1 ps valid hs (omega (arith, size, room)) in
    record {
      valid = rest.valid;
      grows = omega (arith, rest.grows, size);
      keeps = λ x k. rest.keeps x (keeps x k);
      covers = λ q x e u. by_place q x e u (covers p x refl (short p h) ok) rest;
    }
  where
    short : (q : List ℕ) → IsStored q → length q ≤ 255
    short [] k = absurd k
    short (c ∷ q) k = k

    by_place :
        (q x : List ℕ)
        → (p ≡ q) ⊎ Elem q ps
        → under x q ≡ true
        → (under x p ≡ true → covered (add s (some p)).1 x ≡ true)
        → Added (add s (some p)).1 ps (add_all (add s (some p)).1 ps)
        → covered (add_all (add s (some p)).1 ps) x ≡ true
    by_place q x (inl here) u first r = r.keeps x (first (rw here u))
    by_place q x (inr there) u first r = r.covers q x there u
