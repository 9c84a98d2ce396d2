-- ===== src/Ulid/Text.antt =====
-- The text of src/lib/ulid.c: the halves are shifted as one number, and no two numbers share a text.
use packetsonde.Prelude.{
  ℕ, zero, suc, ◌+◌, ◌*◌, ◌/◌, ◌%◌, ◌^◌, ◌<◌, ◌≡◌, refl, ap, sym, ◌∙◌, List, [], ◌∷◌, ◌++◌, get_or,
  arith, Bool, true, false, ◌&&◌, ◌==◌, ==_iff, Bool-cases, inl, inr, ltb, ◌-◌, if◌then◌else◌,
}
use packetsonde.Ulid.{alphabet, time_text, random_text}

-- Both loops write the base-32 digits of one number, the second one that of its two halves, where
-- the low one has 64 bits: no bit is lost between them.
pub random_text-time_text :
    (places lo hi : ℕ)
    → lo < 2 ^ 64
    → random_text places lo hi ≡ time_text places (hi * 2 ^ 64 + lo)
unfolding random_text time_text
random_text-time_text zero lo hi h = refl
random_text-time_text (suc places) lo hi h =
    let others =
      random_text-time_text places (lo / 32 + hi % 32 * 2 ^ 59) (hi / 32) (omega arith) in
    let last : lo % 32 ≡ (hi * 2 ^ 64 + lo) % 32 = omega arith in
    let shifted : hi / 32 * 2 ^ 64 + (lo / 32 + hi % 32 * 2 ^ 59) ≡ (hi * 2 ^ 64 + lo) / 32 =
      omega arith in
    rw (others, shifted, last) refl

-- The numbers of `places` digits.
abbrev pub numbers : ℕ → ℕ
numbers zero = 1
numbers (suc places) = numbers places * 32

-- A test of every number below `n`.
abbrev every : ℕ → (ℕ → Bool) → Bool
every zero test = true
every (suc n) test = test n && every n test

every_lem : (n : ℕ) (test : ℕ → Bool) (x : ℕ) → x < n → every n test ≡ true → test x ≡ true
every_lem zero test x h e = absurd (omega arith)
every_lem (suc n) test x h e = elim (Bool-cases (x == n)) [
  | inl last ↦ rw ((==_iff x n).0 last) (and_left (test n) (every n test) e)
  | inr other ↦ every_lem n test x (ground arith) (and_right (test n) (every n test) e)
]
  where
    and_left : (a b : Bool) → (a && b) ≡ true → a ≡ true
    and_left true b h = refl
    and_left false b h = h

    and_right : (a b : Bool) → (a && b) ≡ true → b ≡ true
    and_right true b h = h
    and_right false b h = cc

-- The value of a character of the alphabet.
abbrev digit_of : ℕ → ℕ
digit_of c =
    if ltb c 58
    then c - 48
    else if ltb c 73
    then c - 55
    else if ltb c 76
    then c - 56
    else if ltb c 79
    then c - 57
    else if ltb c 85
    then c - 58
    else c - 59

alphabet_lem : (d : ℕ) → d < 32 → digit_of (get_or alphabet d 0) ≡ d
alphabet_lem d h =
    (==_iff (digit_of (get_or alphabet d 0)) d).0
      (every_lem 32 (λ x. digit_of (get_or alphabet x 0) == x) d h refl)

-- The last items of two lists that are equal.
snoc_parts : (a b : List ℕ) (x y : ℕ) → a ++ x ∷ [] ≡ b ++ y ∷ [] → (a ≡ b) × (x ≡ y)
snoc_parts [] [] x y e = (refl, cc)
snoc_parts [] (c ∷ []) x y e = cc
snoc_parts [] (c ∷ d ∷ b) x y e = cc
snoc_parts (c ∷ []) [] x y e = cc
snoc_parts (c ∷ d ∷ a) [] x y e = cc
snoc_parts (c ∷ a) (d ∷ b) x y e =
    let tails : a ++ x ∷ [] ≡ b ++ y ∷ [] = cc in
    let heads : c ≡ d = cc in let (front, last) = snoc_parts a b x y tails in (cc, last)

-- Texts of as many places tell apart the numbers that have so many digits.
pub time_text-injective :
    (places t u : ℕ)
    → t < numbers places
    → u < numbers places
    → time_text places t ≡ time_text places u
    → t ≡ u
unfolding time_text
time_text-injective zero t u ht hu e = omega arith
time_text-injective (suc places) t u ht hu e =
    let (others, last) = snoc_parts (time_text places (t / 32)) (time_text places (u / 32)) _ _ e in
    let quotients =
      time_text-injective places (t / 32) (u / 32) (omega arith) (omega arith) others in
    let remainders : t % 32 ≡ u % 32 =
      sym (alphabet_lem (t % 32) (omega arith))
      ∙ ap digit_of last
      ∙ alphabet_lem (u % 32) (omega arith) in
    omega (arith, quotients, remainders)

-- The random parts of two identifiers are the same text only if all 80 bits are the same, in
-- halves of 64 and 16.
pub random_text-injective :
    (lo hi lo' hi' : ℕ)
    → lo < 2 ^ 64
    → lo' < 2 ^ 64
    → hi < 2 ^ 16
    → hi' < 2 ^ 16
    → random_text 16 lo hi ≡ random_text 16 lo' hi'
    → (lo ≡ lo') × (hi ≡ hi')
random_text-injective lo hi lo' hi' hl hl' hh hh' e =
    let same =
      time_text-injective 16 (hi * 2 ^ 64 + lo) (hi' * 2 ^ 64 + lo') (omega arith) (omega arith)
        (sym (random_text-time_text 16 lo hi hl) ∙ e ∙ random_text-time_text 16 lo' hi' hl') in
    (omega arith, omega arith)
