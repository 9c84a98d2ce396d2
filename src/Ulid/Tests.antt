-- ===== src/Ulid/Tests.antt =====
-- Runs of src/lib/ulid.c on small numbers.
use packetsonde.Prelude.{ℕ, ◌≡◌, ◌+◌, ◌-◌, ◌^◌, refl, arith}
use packetsonde.Ulid.Text.{random_text-injective}

abbrev low : ℕ
low = 2 ^ 63 + 7

abbrev high : ℕ
high = 65535

random_text-injective_example : (low ≡ 7 + 2 ^ 63) × (high ≡ 2 ^ 16 - 1)
random_text-injective_example =
    random_text-injective low high (7 + 2 ^ 63) (2 ^ 16 - 1) (omega arith) (omega arith)
      (omega arith) (omega arith) refl
