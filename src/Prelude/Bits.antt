-- ===== src/Prelude/Bits.antt =====
-- `|` and `&` of C at variables: the lowest digit of a result, and the masks that the code uses.
use Prim.Native.Nat.{
  ℕ, zero, suc, ◌+◌, ◌*◌, ◌/◌, ◌%◌, ◌≤◌, min, max, bit_and, bit_or, digits, bit_and-bitwise,
  bit_or-bitwise,
}
use mathlib.Core.Path.{◌≡◌, refl}
use native.Mathlib.Omega.{arith}

-- An operation on the digits, with the rounds that it is given.
module _ (ends : ℕ → ℕ) (digit : ℕ → ℕ → ℕ) where
  rounds_agree :
      {k l : ℕ} (x y : ℕ) → x ≤ k → x ≤ l → digits ends digit k x y ≡ digits ends digit l x y
  rounds_agree {k = zero} {l = zero} x y hk hl = refl
  rounds_agree {k = zero} {l = suc l} zero y hk hl = refl
  rounds_agree {k = suc k} {l = zero} zero y hk hl = refl
  rounds_agree {k = suc k} {l = suc l} zero y hk hl = refl
  rounds_agree {k = zero} {l = suc l} (suc x) y hk hl = absurd (omega arith)
  rounds_agree {k = suc k} {l = zero} (suc x) y hk hl = absurd (omega arith)
  rounds_agree {k = suc k} {l = suc l} (suc x) y hk hl =
      let halves = rounds_agree {k = k} {l = l} (suc x / 2) (y / 2) (omega arith) (omega arith) in
      omega (arith, halves)

module _ (y : ℕ) where
  pub bit_or_step : (x : ℕ) → bit_or x y ≡ bit_or (x / 2) (y / 2) * 2 + max (x % 2) (y % 2)
  bit_or_step zero = omega (arith, bit_or-bitwise 0 y, bit_or-bitwise 0 (y / 2))
  bit_or_step (suc x) =
      let half = suc x / 2 in
      let agree =
        rounds_agree (λ z. z) max {k = x} {l = half} half (y / 2) (omega arith) (omega arith) in
      omega (arith, agree, bit_or-bitwise half (y / 2), bit_or-bitwise (suc x) y)

  pub bit_and_step : (x : ℕ) → bit_and x y ≡ bit_and (x / 2) (y / 2) * 2 + min (x % 2) (y % 2)
  bit_and_step zero = omega (arith, bit_and-bitwise 0 y, bit_and-bitwise 0 (y / 2))
  bit_and_step (suc x) =
      let half = suc x / 2 in
      let agree =
        rounds_agree (λ z. zero) min {k = x} {l = half} half (y / 2) (omega arith) (omega arith) in
      omega (arith, agree, bit_and-bitwise half (y / 2), bit_and-bitwise (suc x) y)

no_bits : {k : ℕ} (x : ℕ) → x ≤ k → bit_and x 0 ≡ 0
no_bits zero h = refl
no_bits {k = zero} (suc x) h = absurd (omega arith)
no_bits {k = suc k} (suc x) h =
    let half = no_bits {k = k} (suc x / 2) (omega arith) in
    omega (arith, half, bit_and_step 0 (suc x))

bit_and_one : (x : ℕ) → bit_and x 1 ≡ x % 2
bit_and_one x =
    let half = no_bits {k = x} (x / 2) (omega arith) in omega (arith, half, bit_and_step 1 x)

-- A single bit, and two of them.
pub bit_and_two : (x : ℕ) → bit_and x 2 ≡ x / 2 % 2 * 2
bit_and_two x = omega (arith, bit_and_one (x / 2), bit_and_step 2 x)

pub bit_and_five : (x : ℕ) → bit_and x 5 ≡ x / 4 % 2 * 4 + x % 2
bit_and_five x = omega (arith, bit_and_two (x / 2), bit_and_step 5 x)
