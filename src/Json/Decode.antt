-- ===== src/Json/Decode.antt =====
-- src/lib/json_extract.c reads back the strings that src/lib/json.c quotes.
use packetsonde.Prelude.{
  ℕ, zero, suc, ◌+◌, ◌-◌, ◌/◌, ◌%◌, ◌<◌, ◌≡◌, ◌⊎◌, refl, ap, ◌∙◌, true, false, ◌&&◌, some, List, [],
  ◌∷◌, ◌++◌, ◌==◌, ltb, leb, length, arith, append_assoc, Bool-cases, inl, inr, ==_iff,
}
use packetsonde.Json.Writer.{hex_digit, escape}
use packetsonde.Json.Extract.{hexval, code_point, simple_escape, store, decode}

hexval-hex_digit : (d : ℕ) → d < 16 → hexval (hex_digit d) ≡ some d
unfolding hexval
hexval-hex_digit d h = elim (Bool-cases (ltb d 10)) [
  | inl digit ↦
      let low : (leb 48 (48 + d) && leb (48 + d) 57) ≡ true = ground arith in
      rw (digit, low) (ap some (omega arith))
  | inr letter ↦
      let high : (leb 48 (87 + d) && leb (87 + d) 57) ≡ false = ground arith in
      let small : (leb 97 (87 + d) && leb (87 + d) 102) ≡ true = ground arith in
      rw (letter, high, small) (ap some (ground arith))
]

code_point-hex_digit :
    (c : ℕ) → c < 256 → code_point 48 48 (hex_digit (c / 16)) (hex_digit (c % 16)) ≡ some c
unfolding code_point
code_point-hex_digit c h =
    rw
      (
        hexval-hex_digit 0 (omega arith),
        hexval-hex_digit (c / 16) (omega arith),
        hexval-hex_digit (c % 16) (omega arith),
      )
      (ap some (omega arith))

-- The bytes of a string, quoted.
abbrev pub escaped : List ℕ → List ℕ
escaped [] = []
escaped (c ∷ s) = escape c ++ escaped s

-- A byte is itself, a control code, or a letter behind a backslash.
abbrev pub Control : ℕ → Type 0
Control c = escape c ≡ 92 ∷ 117 ∷ 48 ∷ 48 ∷ hex_digit (c / 16) ∷ hex_digit (c % 16) ∷ []

abbrev pub Letter : ℕ → Type 0
Letter c = (e : ℕ) × (escape c ≡ 92 ∷ e ∷ []) × ((e == 117) ≡ false) × (simple_escape e ≡ some c)

abbrev pub Plain : ℕ → Type 0
Plain c = (escape c ≡ c ∷ []) × ((c == 34) ≡ false) × ((c == 92) ≡ false)

pub escape-cases : (c : ℕ) → Plain c ⊎ (Control c ⊎ Letter c)
unfolding escape simple_escape
escape-cases c = elim (Bool-cases (c == 34)) [
  | inl q ↦ inr (inr (34, rw q refl, refl, rw ((==_iff c 34).0 q) refl))
  | inr q ↦ elim (Bool-cases (c == 92)) [
    | inl b ↦ inr (inr (92, rw (q, b) refl, refl, rw ((==_iff c 92).0 b) refl))
    | inr b ↦ elim (Bool-cases (c == 10)) [
      | inl n ↦ inr (inr (110, rw (q, b, n) refl, refl, rw ((==_iff c 10).0 n) refl))
      | inr n ↦ elim (Bool-cases (c == 9)) [
        | inl t ↦ inr (inr (116, rw (q, b, n, t) refl, refl, rw ((==_iff c 9).0 t) refl))
        | inr t ↦ elim (Bool-cases (c == 13)) [
          | inl r ↦ inr (inr (114, rw (q, b, n, t, r) refl, refl, rw ((==_iff c 13).0 r) refl))
          | inr r ↦ elim (Bool-cases (ltb c 32)) [
            | inl control ↦ inr (inl (rw (q, b, n, t, r, control) refl))
            | inr plain ↦ inl (rw (q, b, n, t, r, plain) refl, q, b)
          ]
        ]
      ]
    ]
  ]
]

module _ (rounds : ℕ) (s : List ℕ) (room : ℕ) where
  abbrev Stored : ℕ → List ℕ → Type 0
  Stored c piece = decode (suc rounds) (piece ++ s) room ≡ store c (decode rounds s (room - 1)) room

  decode-control :
      (c : ℕ)
      → c < 256
      → Stored c (92 ∷ 117 ∷ 48 ∷ 48 ∷ hex_digit (c / 16) ∷ hex_digit (c % 16) ∷ [])
  unfolding decode
  decode-control c h = rw (code_point-hex_digit c h) refl

  decode-plain : (c : ℕ) → (c == 34) ≡ false → (c == 92) ≡ false → Stored c (c ∷ [])
  unfolding decode
  decode-plain c no_quote no_slash = rw (no_quote, no_slash) refl

  decode-letter : (c e : ℕ) → (e == 117) ≡ false → simple_escape e ≡ some c → Stored c (92 ∷ e ∷ [])
  unfolding decode
  decode-letter c e no_u known = rw (no_u, known) refl

  -- One quoted byte is read as that byte.
  decode-escape : (c : ℕ) → c < 256 → Stored c (escape c)
  decode-escape c h = elim (escape-cases c) [
    | inl (e, no_quote, no_slash) ↦ rw e (decode-plain c no_quote no_slash)
    | inr (inl e) ↦ rw e (decode-control c h)
    | inr (inr (x, e, no_u, known)) ↦ rw e (decode-letter c x no_u known)
  ]

-- No NUL stands in the middle of a string of C, and every byte is a byte.
abbrev pub IsText : List ℕ → Type 0
IsText [] = Unit
IsText (c ∷ s) = (0 < c) × (c < 256) × IsText s

-- A quoted string is read back whole, and nothing behind its closing quote, where the rounds and
-- the room suffice.
pub decode-escaped :
    (rounds : ℕ) (s rest : List ℕ) (room : ℕ)
    → IsText s
    → length s < rounds
    → length s < room
    → decode rounds (escaped s ++ 34 ∷ rest) room ≡ some s
decode-escaped zero s rest room t h fits = absurd (omega arith)
decode-escaped (suc rounds) [] rest room t h fits = unfold decode in refl
decode-escaped (suc rounds) (c ∷ s) rest room (pos, byte, t) h fits =
    let others = decode-escaped rounds s rest (room - 1) t (omega arith) (omega arith) in
    let more : leb room 1 ≡ false = ground arith in
    rw (append_assoc (escape c) (escaped s) (34 ∷ rest))
      (decode-escape rounds (escaped s ++ 34 ∷ rest) room c byte ∙ rw (others, more) refl)
