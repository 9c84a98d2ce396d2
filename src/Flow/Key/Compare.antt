-- ===== src/Flow/Key/Compare.antt =====
-- `memcmp` as src/agent/src/flow_tracker.c uses it: swapping the arrays swaps the sign, and the
-- sign is 0 only between equal bytes.
use packetsonde.Prelude.{ℕ, zero, suc, ◌≤◌, ◌≡◌, refl, List, [], ◌∷◌, arith, length, take}
use mathlib.Core.Path.{ap₂}
use packetsonde.Flow.Key.{Sign, negative, same, positive, memcmp}

abbrev pub flip : Sign → Sign
flip negative = positive
flip same = same
flip positive = negative

pub memcmp-flip : (n : ℕ) (a b : List ℕ) → memcmp n b a ≡ flip (memcmp n a b)
unfolding memcmp
memcmp-flip zero a b = refl
memcmp-flip (suc n) [] [] = refl
memcmp-flip (suc n) [] (y ∷ b) = refl
memcmp-flip (suc n) (x ∷ a) [] = refl
memcmp-flip (suc n) (x ∷ a) (y ∷ b) = ground (arith, memcmp-flip n a b)

pub memcmp-same :
    (n : ℕ) (a b : List ℕ) → n ≤ length a → n ≤ length b → memcmp n a b ≡ same → take n a ≡ take n b
unfolding memcmp
memcmp-same zero a b ha hb e = refl
memcmp-same (suc n) [] b ha hb e = absurd (omega arith)
memcmp-same (suc n) (x ∷ a) [] ha hb e = absurd (omega arith)
memcmp-same (suc n) (x ∷ a) (y ∷ b) ha hb e =
    ap₂ ◌∷◌ heads (memcmp-same n a b (omega arith) (omega arith) tails)
  where
    heads : x ≡ y
    heads = ground arith

    tails : memcmp n a b ≡ same
    tails = ground arith
