-- ===== src/Json/Numbers.antt =====
-- Integers in src/lib/json_extract.c, and that they are read as src/lib/json.c prints them.
use packetsonde.Prelude.{
  ℕ, zero, suc, ◌+◌, ◌-◌, ◌*◌, ◌/◌, ◌%◌, ◌^◌, ◌≤◌, ◌<◌, ◌≡◌, ◌∙◌, refl, ap, sym, Bool, true, false,
  ◌&&◌, ◌||◌, Option, none, some, List, [], ◌∷◌, ◌++◌, append_assoc, ltb, leb, ◌==◌, if◌then◌else◌,
  arith, Bool-cases, inl, inr,
}
use packetsonde.Prelude.Int.{ℤ, pos, negsuc}
use packetsonde.Json.Writer.{digits, decimal}
use packetsonde.Json.Extract.{find_behind, needle_of, skip_blanks, behind}

abbrev pub is_digit : ℕ → Bool
is_digit c = leb 48 c && leb c 57

-- The loop over the digits: the number, where it fits a `long`.
unfoldable pub read_digits : ℕ → List ℕ → ℕ
read_digits v [] = v
read_digits v (c ∷ s) =
    let more = read_digits (v * 10 + (c - 48)) s in if is_digit c then more else v

-- `neg ? -v : v`
abbrev pub signed : Bool → ℕ → ℤ
signed false v = pos v
signed true zero = pos 0
signed true (suc n) = negsuc n

-- Behind the sign; no digit there is no number.
abbrev pub number : Bool → List ℕ → Option ℤ
number neg [] = none
number neg (c ∷ s) = if is_digit c then some (signed neg (read_digits 0 (c ∷ s))) else none

unfoldable pub int_value : List ℕ → Option ℤ
unfolding read_digits
int_value [] = none
int_value (c ∷ s) = if c == 45 then number true s else number false (c ∷ s)

abbrev pub int_at : Option (List ℕ) → Option ℤ
int_at none = none
int_at (some s) = int_value (skip_blanks s)

-- The value, or -1.
unfoldable pub extract_int : List ℕ → List ℕ → Option ℤ
unfolding find_behind int_value
extract_int json key = int_at (behind json (needle_of key))

-- What stops the loop.
abbrev pub NoDigit : List ℕ → Type 0
NoDigit [] = Unit
NoDigit (c ∷ s) = is_digit c ≡ false

pub read_digits-NoDigit : (v : ℕ) (rest : List ℕ) → NoDigit rest → read_digits v rest ≡ v
unfolding read_digits
read_digits-NoDigit v [] h = refl
read_digits-NoDigit v (c ∷ s) h = rw h refl

read_digits-one :
    (v d : ℕ) (rest : List ℕ)
    → d < 10
    → read_digits v ((48 + d) ∷ rest) ≡ read_digits (v * 10 + d) rest
unfolding read_digits
read_digits-one v d rest h =
    let digit : is_digit (48 + d) ≡ true = ground arith in
    let value : v * 10 + (48 + d - 48) ≡ v * 10 + d = omega arith in rw (digit, value) refl

pub rounds_left : (r n : ℕ) → n < 10 ^ suc r → 10 ≤ n → 0 < r
rounds_left zero n h long = absurd (omega (arith, h))
rounds_left (suc r) n h long = omega arith

-- The digits of a number are read as the number.
pub read_digits-digits :
    (rounds n : ℕ) (rest : List ℕ)
    → n < 10 ^ rounds
    → 0 < rounds
    → read_digits 0 (digits rounds n ++ rest) ≡ read_digits n rest
unfolding digits
read_digits-digits zero n rest h some_round = absurd (omega arith)
read_digits-digits (suc rounds) n rest h some_round = elim (Bool-cases (ltb n 10)) [
  | inl one ↦
      rw one
        (read_digits-one 0 n rest (ground arith) ∙ ap (λ (v : ℕ). read_digits v rest) (omega arith))
  | inr more ↦
      rw (more, append_assoc (digits rounds (n / 10)) ((48 + n % 10) ∷ []) rest)
        (read_digits-digits rounds (n / 10) ((48 + n % 10) ∷ rest) (omega (arith, h))
            (rounds_left rounds n h (ground arith))
          ∙ read_digits-one (n / 10) (n % 10) rest (omega arith)
          ∙ ap (λ (v : ℕ). read_digits v rest) (omega arith))
]

-- A number that a `long` holds, with room for its negation.
abbrev pub IsLong : ℤ → Type 0
IsLong (pos n) = n < 2 ^ 63
IsLong (negsuc n) = n + 1 < 2 ^ 63

-- The first digit.
digits_head :
    (rounds n : ℕ)
    → 0 < rounds
    → n < 10 ^ rounds
    → (c : ℕ) × (t : List ℕ) × (is_digit c ≡ true) × (digits rounds n ≡ c ∷ t)
unfolding digits
digits_head zero n some_round h = absurd (omega arith)
digits_head (suc rounds) n some_round h = elim (Bool-cases (ltb n 10)) [
  | inl one ↦ (48 + n, [], ground arith, rw one refl)
  | inr more ↦
      let (c, t, digit, e) =
        digits_head rounds (n / 10) (rounds_left rounds n h (ground arith)) (omega (arith, h)) in
      (c, t ++ (48 + n % 10) ∷ [], digit, rw (more, e) refl)
]

decimal_pos : (n : ℕ) → decimal (pos n) ≡ digits 19 n
unfolding decimal
decimal_pos n = refl

decimal_neg : (n : ℕ) → decimal (negsuc n) ≡ 45 ∷ digits 19 (n + 1)
unfolding decimal
decimal_neg n = refl

signed_neg : (n : ℕ) → signed true (n + 1) ≡ negsuc n
signed_neg n = ground arith

module _ (r : List ℕ) (d : ℕ) (stop : is_digit d ≡ false) where
  -- A text of digits, by its first.
  abbrev Digits : List ℕ → ℕ → Type 0
  Digits w n =
      (c : ℕ) × (t : List ℕ) × (is_digit c ≡ true)
      × (w ++ (d ∷ r) ≡ c ∷ t)
      × (read_digits 0 (c ∷ t) ≡ n)

  digits-Digits : (n : ℕ) → n < 10 ^ 19 → Digits (digits 19 n) n
  digits-Digits n h =
      let (c, t, digit, e) = digits_head 19 n (omega arith) h in
      let split : digits 19 n ++ (d ∷ r) ≡ c ∷ (t ++ (d ∷ r)) =
        ap (λ (w : List ℕ). w ++ (d ∷ r)) e in
      (
        c,
        t ++ (d ∷ r),
        digit,
        split,
        ap (read_digits 0) (sym split)
            ∙ read_digits-digits 19 n (d ∷ r) h (omega arith)
            ∙ read_digits-NoDigit n (d ∷ r) stop,
      )

  number-Digits :
      (neg : Bool) (w : List ℕ) (n : ℕ)
      → Digits w n
      → number neg (w ++ (d ∷ r)) ≡ some (signed neg n)
  number-Digits neg w n (c, t, digit, split, value) =
      rw (split, digit) (ap (λ (v : ℕ). some (signed neg v)) value)

  int_at-Digits : (w : List ℕ) (n : ℕ) → Digits w n → int_at (some (w ++ (d ∷ r))) ≡ some (pos n)
  int_at-Digits w n (c, t, digit, split, value) =
      rw split (unsigned c t digit)
      ∙ ap (number false) (sym split)
      ∙ number-Digits false w n (c, t, digit, split, value)
    where
      unsigned :
          (x : ℕ) (u : List ℕ) → is_digit x ≡ true → int_at (some (x ∷ u)) ≡ number false (x ∷ u)
      unsigned x u h =
          let no_blank : (x == 32 || x == 9) ≡ false = ground arith in
          let no_sign : (x == 45) ≡ false = ground arith in
          unfold int_value in rw (no_blank, no_sign) refl

  pub int_at-decimal : (z : ℤ) → IsLong z → int_at (some (decimal z ++ (d ∷ r))) ≡ some z
  int_at-decimal (pos n) h =
      rw (decimal_pos n) (int_at-Digits (digits 19 n) n (digits-Digits n (omega arith)))
  int_at-decimal (negsuc n) h = rw (decimal_neg n) (
      unfold int_value in
      number-Digits true (digits 19 (n + 1)) (n + 1) (digits-Digits (n + 1) (omega arith))
      ∙ ap some (signed_neg n))
