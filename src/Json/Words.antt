-- ===== src/Json/Words.antt =====
-- The bytes of the numbers and of the words `true` and `false` that src/lib/json.c writes.
use packetsonde.Prelude.{
  ℕ, zero, suc, ◌+◌, ◌/◌, ◌%◌, ◌≤◌, ◌≡◌, ◌≢◌, refl, List, [], ◌∷◌, ◌++◌, ltb, ltb→lt, arith,
  Bool-cases, inl, inr,
}
use packetsonde.Prelude.Int.{ℤ, pos, negsuc}
use packetsonde.Json.Writer.{digits, decimal}

-- A byte of a number or of `true` and `false`.
abbrev pub IsWord : ℕ → Type 0
IsWord c = (45 ≤ c) × (c ≤ 122) × (c ≢ 91)

abbrev pub AllWord : List ℕ → Type 0
AllWord [] = Unit
AllWord (c ∷ w) = IsWord c × AllWord w

AllWord-append : (u v : List ℕ) → AllWord u → AllWord v → AllWord (u ++ v)
AllWord-append [] v p q = q
AllWord-append (c ∷ u) v (h, p) q = (h, AllWord-append u v p q)

digits-AllWord : (rounds n : ℕ) → AllWord (digits rounds n)
unfolding digits
digits-AllWord zero n = tt
digits-AllWord (suc rounds) n = elim (Bool-cases (ltb n 10)) [
  | inl one ↦
      let small = ltb→lt n 10 one in
      rw one ((omega arith, omega (arith, small), λ e. omega (arith, small)), tt)
  | inr more ↦ rw more (
      AllWord-append (digits rounds (n / 10)) ((48 + n % 10) ∷ []) (digits-AllWord rounds (n / 10))
        ((omega arith, omega arith, λ e. omega arith), tt))
]

pub decimal-AllWord : (z : ℤ) → AllWord (decimal z)
unfolding decimal
decimal-AllWord (pos n) = digits-AllWord 19 n
decimal-AllWord (negsuc n) =
    ((omega arith, omega arith, λ e. omega arith), digits-AllWord 19 (n + 1))

append_nonempty : (w : List ℕ) (x : ℕ) → (c : ℕ) × (t : List ℕ) × (w ++ x ∷ [] ≡ c ∷ t)
append_nonempty [] x = (x, [], refl)
append_nonempty (c ∷ w) x = (c, w ++ x ∷ [], refl)

pub decimal_nonempty : (z : ℤ) → (c : ℕ) × (t : List ℕ) × (decimal z ≡ c ∷ t)
unfolding decimal digits
decimal_nonempty (pos n) = elim (Bool-cases (ltb n 10)) [
  | inl one ↦ (48 + n, [], rw one refl)
  | inr more ↦
      let (c, t, e) = append_nonempty (digits 18 (n / 10)) (48 + n % 10) in (c, t, rw more e)
]
decimal_nonempty (negsuc n) = (45, digits 19 (n + 1), refl)
