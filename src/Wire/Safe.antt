-- ===== src/Wire/Safe.antt =====
-- Reads that stay inside the packet, and what they give.
use packetsonde.Prelude.{
  ℕ, zero, suc, ◌+◌, ◌≤◌, ◌<◌, ◌≡◌, refl, Bool, true, false, List, [], ◌∷◌, leb, if◌then◌else◌,
  length, take, drop, arith, length-drop, length-take,
}
use packetsonde.Wire.{
  Parse, ok, reject, fault, ◌>>=◌, byte, bytes, read_u16_be, read_u32_be, return_if,
}

abbrev pub IsBytes : List ℕ → Type 0
IsBytes [] = Unit
IsBytes (b ∷ bs) = (b < 256) × IsBytes bs

-- No read out of bounds, and `Q` of what is accepted.
abbrev pub Ensures {ℓ} : {A : Type ℓ} → (A → Type 0) → Parse A → Type 0
Ensures Q (ok a) = Q a
Ensures Q reject = Unit
Ensures Q fault = ⊥

pub bind {ℓ κ} :
    {A : Type ℓ} {B : Type κ} (R : A → Type 0) (Q : B → Type 0) (m : Parse A) (f : A → Parse B)
    → Ensures R m
    → ((a : A) → R a → Ensures Q (f a))
    → Ensures Q (m >>= f)
bind R Q (ok a) f h k = k a h
bind R Q reject f h k = tt
bind R Q fault f h k = h

-- The same, with what was accepted known.
pub bind_known {ℓ κ} :
    {A : Type ℓ} {B : Type κ} (R : A → Type 0) (Q : B → Type 0) (m : Parse A) (f : A → Parse B)
    → Ensures R m
    → ((a : A) → R a → m ≡ ok a → Ensures Q (f a))
    → Ensures Q (m >>= f)
bind_known R Q (ok a) f h k = k a h refl
bind_known R Q reject f h k = tt
bind_known R Q fault f h k = h

pub weaken {ℓ} :
    {A : Type ℓ} (R Q : A → Type 0) (m : Parse A)
    → ((a : A) → R a → Q a)
    → Ensures R m
    → Ensures Q m
weaken R Q (ok a) k h = k a h
weaken R Q reject k h = tt
weaken R Q fault k h = h

pub either {ℓ} :
    {A : Type ℓ} (Q : A → Type 0) (b : Bool) (m n : Parse A)
    → (b ≡ true → Ensures Q m)
    → (b ≡ false → Ensures Q n)
    → Ensures Q (if b then m else n)
either Q true m n h k = h refl
either Q false m n h k = k refl

pub IsBytes-drop : (n : ℕ) (p : List ℕ) → IsBytes p → IsBytes (drop n p)
IsBytes-drop zero p h = h
IsBytes-drop (suc n) [] h = tt
IsBytes-drop (suc n) (b ∷ p) h = IsBytes-drop n p h.1

pub IsBytes-take : (n : ℕ) (p : List ℕ) → IsBytes p → IsBytes (take n p)
IsBytes-take zero p h = tt
IsBytes-take (suc n) [] h = tt
IsBytes-take (suc n) (b ∷ p) h = (h.0, IsBytes-take n p h.1)

abbrev pub IsByte : ℕ → Type 0
IsByte b = b < 256

abbrev pub IsU16 : ℕ → Type 0
IsU16 n = n < 65536

pub byte-Ensures : (p : List ℕ) (i : ℕ) → IsBytes p → i < length p → Ensures IsByte (byte p i)
unfolding byte
byte-Ensures [] i h lt = absurd (omega arith)
byte-Ensures (b ∷ p) zero h lt = h.0
byte-Ensures (b ∷ p) (suc i) h lt = byte-Ensures p i h.1 (omega arith)

pub bytes-Ensures :
    (p : List ℕ) (i n : ℕ) → i + n ≤ length p → Ensures (λ bs. length bs ≡ n) (bytes p i n)
unfolding bytes
bytes-Ensures p i n h =
    either (λ (bs : List ℕ). length bs ≡ n) (leb (i + n) (length p)) _ _
      (λ _. omega (arith, length-take n (drop i p), length-drop i p))
      (λ short. absurd (ground arith))

pub read_u16_be-Ensures : (p : List ℕ) → IsBytes p → 2 ≤ length p → Ensures IsU16 (read_u16_be p)
unfolding read_u16_be
read_u16_be-Ensures p h lt =
    bind IsByte IsU16 (byte p 0) _ (byte-Ensures p 0 h (omega arith)) λ hi hhi.
      bind IsByte IsU16 (byte p 1) _ (byte-Ensures p 1 h (omega arith)) λ lo hlo. omega arith

abbrev pub IsU32 : ℕ → Type 0
IsU32 n = n < 4294967296

pub read_u32_be-Ensures : (p : List ℕ) → IsBytes p → 4 ≤ length p → Ensures IsU32 (read_u32_be p)
unfolding read_u32_be
read_u32_be-Ensures p h lt =
    bind IsByte IsU32 (byte p 0) _ (byte-Ensures p 0 h (omega arith)) λ b0 h0.
      bind IsByte IsU32 (byte p 1) _ (byte-Ensures p 1 h (omega arith)) λ b1 h1.
        bind IsByte IsU32 (byte p 2) _ (byte-Ensures p 2 h (omega arith)) λ b2 h2.
          bind IsByte IsU32 (byte p 3) _ (byte-Ensures p 3 h (omega arith)) λ b3 h3. omega arith

-- One step of a handler: a test that returns early, or a read that the tests allow.
module _ {ℓ} {B : Type ℓ} (Q : B → Type 0) where
  pub past :
      (t : Bool) (f : Unit → Parse B)
      → (t ≡ false → Ensures Q (f tt))
      → Ensures Q (return_if t >>= f)
  past true f k = tt
  past false f k = k refl

  module _ (p : List ℕ) (n : ℕ) where
    pub read_byte :
        (i : ℕ) (f : ℕ → Parse B)
        → IsBytes p
        → n + i < length p
        → ((b : ℕ) → IsByte b → Ensures Q (f b))
        → Ensures Q (byte (drop n p) i >>= f)
    read_byte i f h lt =
        bind IsByte Q (byte (drop n p) i) f
          (byte-Ensures (drop n p) i (IsBytes-drop n p h) (omega (arith, length-drop n p)))

    pub read_bytes :
        (i m : ℕ) (f : List ℕ → Parse B)
        → IsBytes p
        → n + i + m ≤ length p
        → ((bs : List ℕ) → IsBytes bs → length bs ≡ m → Ensures Q (f bs))
        → Ensures Q (bytes (drop n p) i m >>= f)
    unfolding bytes
    read_bytes i m f h lt k =
        let fits : leb (i + m) (length (drop n p)) ≡ true = ground (arith, length-drop n p) in
        simp fits (
          k (take m (drop i (drop n p)))
            (IsBytes-take m (drop i (drop n p)) (IsBytes-drop i (drop n p) (IsBytes-drop n p h)))
            (omega (
              arith,
              length-take m (drop i (drop n p)),
              length-drop i (drop n p),
              length-drop n p,
            )))

    pub read_u16 :
        (f : ℕ → Parse B)
        → IsBytes p
        → n + 2 ≤ length p
        → ((v : ℕ) → IsU16 v → Ensures Q (f v))
        → Ensures Q (read_u16_be (drop n p) >>= f)
    read_u16 f h lt =
        bind IsU16 Q (read_u16_be (drop n p)) f
          (read_u16_be-Ensures (drop n p) (IsBytes-drop n p h) (omega (arith, length-drop n p)))

    pub read_u32 :
        (f : ℕ → Parse B)
        → IsBytes p
        → n + 4 ≤ length p
        → ((v : ℕ) → IsU32 v → Ensures Q (f v))
        → Ensures Q (read_u32_be (drop n p) >>= f)
    read_u32 f h lt =
        bind IsU32 Q (read_u32_be (drop n p)) f
          (read_u32_be-Ensures (drop n p) (IsBytes-drop n p h) (omega (arith, length-drop n p)))
