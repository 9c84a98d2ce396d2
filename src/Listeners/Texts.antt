-- ===== src/Listeners/Texts.antt =====
-- The texts that the listeners copy out of a packet: any bytes but NUL, no more than the buffer
-- takes.
use packetsonde.Prelude.{
  ℕ, suc, ◌+◌, ◌-◌, ◌≤◌, ◌≢◌, Bool-cases, inl, inr, List, [], ◌∷◌, ltb, ◌==◌, if◌then◌else◌, length,
  drop, arith,
}
use packetsonde.Wire.Safe.{IsBytes, Ensures, read_bytes}
use packetsonde.Json.Sizes.{IsPlain, Fits}
use packetsonde.Listeners.{c_string, copy_string_tlv}

abbrev pub HasNoNul : List ℕ → Type 0
HasNoNul [] = Unit
HasNoNul (c ∷ s) = (c ≢ 0) × HasNoNul s

-- What a `char` buffer of `n` + 1 bytes can hold.
abbrev pub Held : ℕ → List ℕ → Type 0
Held n s = HasNoNul s × (length s ≤ n)

if-Held : (n c : ℕ) (s : List ℕ) → Held n s → Held (suc n) (if c == 0 then [] else c ∷ s)
if-Held n c s h = elim (Bool-cases (c == 0)) [
  | inl nul ↦ rw nul (tt, omega arith)
  | inr other ↦ rw other ((ground arith, h.0), omega (arith, h.1))
]

pub c_string-Held : (s : List ℕ) → Held (length s) (c_string s)
unfolding c_string
c_string-Held [] = (tt, omega arith)
c_string-Held (c ∷ s) = if-Held (length s) c (c_string s) (c_string-Held s)

pub copy_string_tlv-Ensures :
    (p : List ℕ) (n vlen m : ℕ)
    → IsBytes p
    → n + vlen ≤ length p
    → Ensures (Held m) (copy_string_tlv (drop n p) vlen (suc m))
unfolding copy_string_tlv
copy_string_tlv-Ensures p n vlen m h lt =
    read_bytes (Held m) p n 0 (if ltb vlen (suc m - 1) then vlen else suc m - 1) _ h (ground arith)
      λ copied hc size. let held = c_string-Held copied in (held.0, ground (arith, held.1))

no_nul : (s : List ℕ) → IsPlain s → HasNoNul s
no_nul [] h = tt
no_nul (c ∷ s) h = (omega (arith, h.0.0), no_nul s h.1)

pub Fits-Held : (m n : ℕ) (s : List ℕ) → m ≤ n → Fits m s → Held n s
Fits-Held m n s le h = (no_nul s h.0, omega (arith, h.1))
