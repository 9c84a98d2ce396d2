-- ===== src/Wire.antt =====
-- Packet bytes as the C code reads them. A buffer is the list of the bytes that may be read; a
-- pointer into it, `pkt + n`, is `drop n pkt`. A read behind the end is a `fault`, so that the
-- absence of such reads is a theorem. An early return is `reject`.
pub mod Safe
use packetsonde.Prelude.{
  ℕ, zero, suc, ◌+◌, ◌*◌, Bool, true, false, none, some, List, leb, if◌then◌else◌, length,
  get_elem?, take, drop,
}

pub data Parse {ℓ} (A : Type ℓ) : Type ℓ where
  ok : A → Parse A
  reject : Parse A
  fault : Parse A

infixl 5 ◌>>=◌
abbrev pub ◌>>=◌ {ℓ κ} : {A : Type ℓ} {B : Type κ} → Parse A → (A → Parse B) → Parse B
ok a >>= f = f a
reject >>= f = reject
fault >>= f = fault

-- `p[i]`
unfoldable pub byte : List ℕ → ℕ → Parse ℕ
byte p i = elim (get_elem? p i) [ none ↦ fault | some b ↦ ok b ]

-- The bytes that `memcpy(_, p + i, n)` reads.
unfoldable pub bytes : List ℕ → ℕ → ℕ → Parse (List ℕ)
bytes p i n = if leb (i + n) (length p) then ok (take n (drop i p)) else fault

-- `(p[0] << 8) | p[1]`: the two bytes share no bit.
unfoldable pub read_u16_be : List ℕ → Parse ℕ
unfolding byte
read_u16_be p = do hi ← byte p 0; lo ← byte p 1; ok (hi * 256 + lo)

-- Four bytes, most significant first; no two share a bit.
unfoldable pub read_u32_be : List ℕ → Parse ℕ
unfolding byte
read_u32_be p = do
  b0 ← byte p 0
  b1 ← byte p 1
  b2 ← byte p 2
  b3 ← byte p 3
  ok (b0 * 16777216 + b1 * 65536 + b2 * 256 + b3)

-- `if (test) return;`
abbrev pub return_if : Bool → Parse {0} Unit
return_if true = reject
return_if false = ok tt
