-- ===== src/Json/Skips.antt =====
-- Where the search of src/lib/json_extract.c for `"key":` passes text over.
use packetsonde.Prelude.{
  ℕ, ◌/◌, ◌%◌, ◌≤◌, ◌≡◌, ◌∙◌, refl, Bool, true, false, ◌&&◌, Option, List, [], ◌∷◌, ◌++◌,
  append_assoc, ◌==◌, arith, inl, inr,
}
use packetsonde.Json.Writer.{hex_digit, escape}
use packetsonde.Json.Extract.{starts, find_behind}
use packetsonde.Json.Numbers.{is_digit}
use packetsonde.Json.Decode.{escaped, escape-cases}
use packetsonde.Json.RoundTrip.{IsPlain}
use packetsonde.Json.Prints.{quoted}

-- Text between the quotes of a string: every quote stands behind a backslash.
pub data IsInner : List ℕ → Type 0 where
  finished : IsInner []
  plain : {c : ℕ} {u : List ℕ} → (34 == c) ≡ false → IsInner u → IsInner (c ∷ u)
  slashed : {e : ℕ} {u : List ℕ} → IsInner u → IsInner (92 ∷ e ∷ u)

-- A key that is looked for: its first byte is a small letter or `_`.
abbrev pub IsName : List ℕ → Type 0
IsName [] = ⊥
IsName (c ∷ k) = (95 ≤ c) × (c ≤ 122) × IsPlain (c ∷ k)

pub IsName-IsPlain : (k : List ℕ) → IsName k → IsPlain k
IsName-IsPlain [] h = absurd h
IsName-IsPlain (c ∷ k) (low, high, p) = p

-- What follows a value: `,`, `]` or `}`.
abbrev pub IsEnd : ℕ → Type 0
IsEnd d =
    ((34 == d) ≡ false)
    × ((58 == d) ≡ false)
    × ((c : ℕ) → 95 ≤ c → c ≤ 122 → (c == d) ≡ false)
    × (is_digit d ≡ false)

pub comma-IsEnd : IsEnd 44
comma-IsEnd = (refl, refl, λ c low high. ground arith, refl)

pub bracket-IsEnd : IsEnd 93
bracket-IsEnd = (refl, refl, λ c low high. ground arith, refl)

pub brace-IsEnd : IsEnd 125
brace-IsEnd = (refl, refl, λ c low high. ground arith, refl)

-- `key":`
abbrev pub closing : List ℕ → List ℕ
closing k = k ++ (34 ∷ 58 ∷ [])

and_false : (t : Bool) → (t && false) ≡ false
and_false true = refl
and_false false = refl

-- Inside a string that no colon follows, a key never ends.
starts-inner :
    (k u r : List ℕ) (d : ℕ)
    → IsPlain k
    → IsInner u
    → (58 == d) ≡ false
    → starts (closing k) (u ++ (34 ∷ d ∷ r)) ≡ false
starts-inner [] [] r d p i e = rw e refl
starts-inner [] (c ∷ u) r d p (plain q i) e = rw q refl
starts-inner [] (c ∷ u) r d p (slashed i) e = refl
starts-inner (x ∷ k) [] r d (low, q, b, p) i e =
    let no_quote : (x == 34) ≡ false = ground arith in rw no_quote refl
starts-inner (x ∷ k) (c ∷ u) r d (low, q, b, p) (plain q' i) e =
    rw (starts-inner k u r d p i e) (and_false (x == c))
starts-inner (x ∷ k) (c ∷ u) r d (low, q, b, p) (slashed i) e =
    let no_slash : (x == 92) ≡ false = ground arith in rw no_slash refl

hex_digit-quote : (d : ℕ) → (34 == hex_digit d) ≡ false
hex_digit-quote d = ground arith

append-IsInner : {u v : List ℕ} → IsInner u → IsInner v → IsInner (u ++ v)
append-IsInner finished j = j
append-IsInner (plain q i) j = plain q (append-IsInner i j)
append-IsInner (slashed i) j = slashed (append-IsInner i j)

escape-IsInner : (c : ℕ) → IsInner (escape c)
escape-IsInner c = elim (escape-cases c) [
  | inl (e, no_quote, no_slash) ↦ rw e (plain (ground (arith, no_quote)) finished)
  | inr (inl e) ↦ rw e (
      slashed (
        plain refl (
          plain refl
            (plain (hex_digit-quote (c / 16)) (plain (hex_digit-quote (c % 16)) finished)))))
  | inr (inr (x, e, no_u, known)) ↦ rw e (slashed finished)
]

pub escaped-IsInner : (s : List ℕ) → IsInner (escaped s)
escaped-IsInner [] = finished
escaped-IsInner (c ∷ s) = append-IsInner (escape-IsInner c) (escaped-IsInner s)

-- A key does not begin with what follows a value or a key.
pub starts_first :
    (k : List ℕ) (d : ℕ) (r : List ℕ)
    → IsName k
    → ((c : ℕ) → 95 ≤ c → c ≤ 122 → (c == d) ≡ false)
    → starts (closing k) (d ∷ r) ≡ false
starts_first [] d r name first = absurd name
starts_first (c ∷ k) d r (low, high, p) first = rw (first c low high) refl

-- The search for a needle that begins with a quote.
module _ (k : List ℕ) where
  abbrev pub needle : List ℕ
  needle = 34 ∷ closing k

  abbrev pub search_in : List ℕ → Option (List ℕ)
  search_in t = find_behind t needle

  pub pass : (c : ℕ) (t : List ℕ) → (34 == c) ≡ false → search_in (c ∷ t) ≡ search_in t
  unfolding find_behind
  pass c t e = rw e refl

  pub pass_any :
      (c : ℕ) (t : List ℕ) → starts (closing k) t ≡ false → search_in (c ∷ t) ≡ search_in t
  unfolding find_behind
  pass_any c t e = rw (e, and_false (34 == c)) refl

  -- Bytes none of which is a quote.
  abbrev pub NoQuote : List ℕ → Type 0
  NoQuote [] = Unit
  NoQuote (c ∷ s) = ((34 == c) ≡ false) × NoQuote s

  pub pass-NoQuote : (s t : List ℕ) → NoQuote s → search_in (s ++ t) ≡ search_in t
  pass-NoQuote [] t h = refl
  pass-NoQuote (c ∷ s) t (q, h) = pass c (s ++ t) q ∙ pass-NoQuote s t h

  -- Up to the closing quote, and that quote.
  pass_inner :
      (u r : List ℕ) (d : ℕ)
      → IsPlain k
      → IsInner u
      → (58 == d) ≡ false
      → search_in (u ++ (34 ∷ d ∷ r)) ≡ search_in (34 ∷ d ∷ r)
  pass_inner [] r d p i e = refl
  pass_inner (c ∷ u) r d p (plain q i) e = pass c (u ++ (34 ∷ d ∷ r)) q ∙ pass_inner u r d p i e
  pass_inner (c ∷ x ∷ u) r d p (slashed i) e =
      pass 92 (x ∷ (u ++ (34 ∷ d ∷ r))) refl
      ∙ pass_any x (u ++ (34 ∷ d ∷ r)) (starts-inner k u r d p i e)
      ∙ pass_inner u r d p i e

  -- A quoted text that neither is the key nor stands before a colon.
  pub pass-quoted :
      (s r : List ℕ) (d : ℕ)
      → IsName k
      → IsEnd d
      → search_in (quoted s ++ (d ∷ r)) ≡ search_in (d ∷ r)
  pass-quoted s r d name (quote, colon, first, no_digit) =
      let p = IsName-IsPlain k name in
      let inner = escaped-IsInner s in
      rw (append_assoc (escaped s) (34 ∷ []) (d ∷ r)) (
        pass_any 34 (escaped s ++ (34 ∷ d ∷ r)) (starts-inner k (escaped s) r d p inner colon)
        ∙ pass_inner (escaped s) r d p inner colon
        ∙ pass_any 34 (d ∷ r) (starts_first k d r name first))
