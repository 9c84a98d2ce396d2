-- ===== src/Listeners/Plain.antt =====
-- What the listeners print stands in JSON as it is: hexadecimal digits, numbers and fixed words.
use packetsonde.Prelude.{
  zero, suc, ◌^◌, ap, some, ℕ, zero, suc, ◌+◌, ◌*◌, ◌/◌, ◌%◌, ◌≤◌, ◌<◌, ◌≡◌, refl, Bool, true,
  false, List, [], ◌∷◌, ◌++◌, length, leb, ltb, arith, if◌then◌else◌, length-append,
}
use packetsonde.Wire.Safe.{IsBytes, Ensures}
use packetsonde.Json.Writer.{Json, finish, hex_digit, digits, decimal}
use packetsonde.Json.Objects.{Value, text_of}
use packetsonde.Prelude.Int.{pos}
use packetsonde.Wire.{Parse, ok, reject, fault, ◌>>=◌}
use packetsonde.Json.Sizes.{
  IsPlain, IsPlainByte, is_plain, is_plain-IsPlain, Fits, AllFit, length-decimal,
}
use packetsonde.Listeners.{publish, sent, hex2, hex4, hex_all, mac_text}

pub IsPlain-append : (s t : List ℕ) → IsPlain s → IsPlain t → IsPlain (s ++ t)
IsPlain-append [] t hs ht = ht
IsPlain-append (c ∷ s) t hs ht = (hs.0, IsPlain-append s t hs.1 ht)

-- Both tests are `refl` for a word that the code writes.
pub word-Fits : (n : ℕ) (s : List ℕ) → is_plain s ≡ true → leb (length s) n ≡ true → Fits n s
word-Fits n s plain short = (is_plain-IsPlain s plain, ground arith)

pub if-Fits : (n : ℕ) (b : Bool) (s t : List ℕ) → Fits n s → Fits n t → Fits n (if b then s else t)
if-Fits n true s t hs ht = hs
if-Fits n false s t hs ht = ht

pub Fits-append : (m n : ℕ) (s t : List ℕ) → Fits m s → Fits n t → Fits (m + n) (s ++ t)
Fits-append m n s t hs ht =
    (IsPlain-append s t hs.0 ht.0, omega (arith, hs.1, ht.1, length-append s t))

hex_digit-IsPlainByte : (d : ℕ) → d < 16 → IsPlainByte (hex_digit d)
hex_digit-IsPlainByte d h = ground arith

pub hex2-Fits : (b : ℕ) → b < 256 → Fits 2 (hex2 b)
hex2-Fits b h = (
  (
    hex_digit-IsPlainByte (b / 16) (omega arith),
    (hex_digit-IsPlainByte (b % 16) (omega arith), tt),
  ),
  omega arith,
)

pub hex4-Fits : (n : ℕ) → n < 65536 → Fits 4 (hex4 n)
hex4-Fits n h =
    Fits-append 2 2 (hex2 (n / 256)) (hex2 (n % 256)) (hex2-Fits (n / 256) (omega arith))
      (hex2-Fits (n % 256) (omega arith))

pub hex_all-Fits : (bs : List ℕ) → IsBytes bs → Fits (2 * length bs) (hex_all bs)
hex_all-Fits [] h = (tt, omega arith)
hex_all-Fits (b ∷ bs) h =
    let whole =
      Fits-append 2 (2 * length bs) (hex2 b) (hex_all bs) (hex2-Fits b h.0) (hex_all-Fits bs h.1) in
    (whole.0, omega (arith, whole.1))

pub mac_text-Fits : (bs : List ℕ) → IsBytes bs → Fits (3 * length bs) (mac_text bs)
mac_text-Fits [] h = (tt, omega arith)
mac_text-Fits (b ∷ []) h = ((hex2-Fits b h.0).0, omega arith)
mac_text-Fits (b ∷ c ∷ bs) h =
    let first =
      Fits-append 2 1 (hex2 b) (58 ∷ []) (hex2-Fits b h.0) ((ground arith, tt), omega arith) in
    let whole =
      Fits-append 3 (3 * length (c ∷ bs)) (hex2 b ++ 58 ∷ []) (mac_text (c ∷ bs)) first
        (mac_text-Fits (c ∷ bs) h.1) in
    (whole.0, omega (arith, whole.1))

pub publish-finish :
    (channel : List ℕ) (j : Json) (c : ℕ) (s : List ℕ)
    → finish j ≡ some (c ∷ s)
    → publish channel j ≡ ok (record { channel = channel; text = c ∷ s })
unfolding publish
publish-finish channel j c s whole = ap (sent channel) whole

-- Where each accepted message gives the whole text, that is what is published.
pub announce {ℓ} :
    {A : Type ℓ} (P : A → Type 0) (to_json : A → Json) (fields : A → List (List ℕ × Value))
    (channel : List ℕ)
    → ((a : A) → P a → finish (to_json a) ≡ some (text_of (fields a)))
    → (m : Parse A) → Ensures P m
    → (m >>= λ a. publish channel (to_json a))
      ≡ (m >>= λ a. ok (record { channel = channel; text = text_of (fields a) }))
announce P to_json fields channel whole (ok a) v =
    publish-finish channel (to_json a) _ _ (whole a v)
announce P to_json fields channel whole reject v = refl
announce P to_json fields channel whole fault v = refl

if-IsPlain :
    (b : Bool) (s t : List ℕ)
    → (b ≡ true → IsPlain s)
    → (b ≡ false → IsPlain t)
    → IsPlain (if b then s else t)
if-IsPlain true s t hs ht = hs refl
if-IsPlain false s t hs ht = ht refl

digits-IsPlain : (rounds n : ℕ) → IsPlain (digits rounds n)
unfolding digits
digits-IsPlain zero n = tt
digits-IsPlain (suc rounds) n =
    if-IsPlain (ltb n 10) _ _ (λ small. (ground arith, tt))
      (λ _.
        IsPlain-append (digits rounds (n / 10)) ((48 + n % 10) ∷ [])
          (digits-IsPlain rounds (n / 10)) (ground arith, tt))

pub decimal-Fits : (k n : ℕ) → n < 10 ^ suc k → Fits (suc k) (decimal (pos n))
unfolding decimal
decimal-Fits k n h = (digits-IsPlain 19 n, length-decimal k n h)

-- At most `m` such texts.
abbrev pub Few : ℕ → ℕ → List (List ℕ) → Type 0
Few n m ss = AllFit n ss × (length ss ≤ m)

pub Few-append :
    (n k m : ℕ) (ss ts : List (List ℕ)) → Few n k ss → Few n m ts → Few n (k + m) (ss ++ ts)
Few-append n k m [] ts hs ht = (ht.0, omega (arith, ht.1))
Few-append n zero m (s ∷ ss) ts hs ht = absurd (omega (arith, hs.1))
Few-append n (suc k) m (s ∷ ss) ts hs ht =
    let rest = Few-append n k m ss ts (hs.0.1, omega (arith, hs.1)) ht in
    ((hs.0.0, rest.0), omega (arith, rest.1))

-- A word that is there or not.
pub optional-Few :
    (n : ℕ) (b : Bool) (s : List ℕ)
    → is_plain s ≡ true
    → leb (length s) n ≡ true
    → Few n 1 (if b then s ∷ [] else [])
optional-Few n true s plain short = ((word-Fits n s plain short, tt), omega arith)
optional-Few n false s plain short = (tt, omega arith)
