-- ===== src/Listeners/Dns/Quotes.antt =====
-- The quotes in the text that src/agent/src/modules/dns_listener.c publishes of a response.
use packetsonde.Prelude.{
  ℕ, zero, suc, ◌+◌, ◌/◌, ◌%◌, ◌≡◌, refl, ap, sym, ◌∙◌, Bool, true, false, not, List, [], ◌∷◌, ◌++◌,
  ltb, ◌==◌, arith, append_assoc, Bool-cases, inl, inr, ascii,
}
use mathlib.Core.Path.{subst}
use packetsonde.Prelude.Int.{pos}
use packetsonde.Json.Writer.{hex_digit, escape, digits, decimal}
use packetsonde.Json.Decode.{escaped, escape-cases}
use packetsonde.Json.Prints.{quoted, comma}

abbrev pub flip : Bool → Bool → Bool
flip true b = not b
flip false b = b

-- Read from outside of a string (`false`) or from inside one (`true`): is the end inside a string?
-- A quote begins and ends a string, but not one that stands behind a backslash, which takes the next
-- byte with it.
abbrev pub reads_on : Bool → Bool → List ℕ → Bool
reads_on behind b [] = b
reads_on true b (c ∷ s) = reads_on false b s
reads_on false b (c ∷ s) = reads_on (c == 92) (flip (c == 34) b) s

abbrev pub ends_inside : List ℕ → Bool
ends_inside s = reads_on false false s

-- A text that is passed without a trace, and one that begins or ends a string.
abbrev pub IsEven : List ℕ → Type 0
IsEven s = (b : Bool) (t : List ℕ) → reads_on false b (s ++ t) ≡ reads_on false b t

abbrev pub IsOdd : List ℕ → Type 0
IsOdd s = (b : Bool) (t : List ℕ) → reads_on false b (s ++ t) ≡ reads_on false (not b) t

pub append-IsEven : (s u : List ℕ) → IsEven s → IsEven u → IsEven (s ++ u)
append-IsEven s u h k b t = ap (reads_on false b) (append_assoc s u t) ∙ h b (u ++ t) ∙ k b t

pub append-IsOdd : (s u : List ℕ) → IsOdd s → IsEven u → IsOdd (s ++ u)
append-IsOdd s u h k b t = ap (reads_on false b) (append_assoc s u t) ∙ h b (u ++ t) ∙ k (not b) t

-- A byte that is neither a quote nor a backslash.
byte-IsEven : (c : ℕ) → (c == 34) ≡ false → (c == 92) ≡ false → IsEven (c ∷ [])
byte-IsEven c no_quote no_slash b t =
    ap (λ (x : Bool). reads_on x (flip (c == 34) b) t) no_slash
    ∙ ap (λ (x : Bool). reads_on false (flip x b) t) no_quote

hex_digit-IsEven : (d : ℕ) → IsEven (hex_digit d ∷ [])
hex_digit-IsEven d = byte-IsEven (hex_digit d) (ground arith) (ground arith)

escape-IsEven : (c : ℕ) → IsEven (escape c)
escape-IsEven c = elim (escape-cases c) [
  | inl (e, no_quote, no_slash) ↦ subst IsEven (sym e) (byte-IsEven c no_quote no_slash)
  | inr (inl e) ↦
      let h = hex_digit (c / 16) in
      let h' = hex_digit (c % 16) in
      subst IsEven (sym e) (
        append-IsEven (92 ∷ 117 ∷ 48 ∷ 48 ∷ []) (h ∷ h' ∷ []) (λ b t. refl)
          (append-IsEven (h ∷ []) (h' ∷ []) (hex_digit-IsEven (c / 16))
            (hex_digit-IsEven (c % 16))))
  | inr (inr (x, e, no_u, known)) ↦ subst IsEven (sym e) (λ b t. refl)
]

escaped-IsEven : (s : List ℕ) → IsEven (escaped s)
escaped-IsEven [] = λ b t. refl
escaped-IsEven (c ∷ s) = append-IsEven (escape c) (escaped s) (escape-IsEven c) (escaped-IsEven s)

not-not : (b : Bool) → not (not b) ≡ b
not-not true = refl
not-not false = refl

pub quoted-IsEven : (s : List ℕ) → IsEven (quoted s)
quoted-IsEven s b t =
    ap (λ (u : List ℕ). reads_on false (not b) u) (append_assoc (escaped s) (34 ∷ []) t)
    ∙ escaped-IsEven s (not b) (34 ∷ t)
    ∙ ap (λ (a : Bool). reads_on false a t) (not-not b)

pub comma-IsEven : (due : Bool) → IsEven (comma due)
comma-IsEven true b t = refl
comma-IsEven false b t = refl

digits-IsEven : (rounds n : ℕ) → IsEven (digits rounds n)
unfolding digits
digits-IsEven zero n b t = refl
digits-IsEven (suc rounds) n b t = elim (Bool-cases (ltb n 10)) [
  | inl one ↦ rw one (byte-IsEven (48 + n) (ground arith) (ground arith) b t)
  | inr more ↦ rw more (
      append-IsEven (digits rounds (n / 10)) ((48 + n % 10) ∷ []) (digits-IsEven rounds (n / 10))
        (byte-IsEven (48 + n % 10) (ground arith) (ground arith)) b t)
]

pub decimal-IsEven : (n : ℕ) → IsEven (decimal (pos n))
unfolding decimal
decimal-IsEven n = digits-IsEven 19 n

-- The name of the options and the quote behind it, after a comma where one is due.
pub edns_name-IsOdd : (due : Bool) → IsOdd (comma due ++ ascii "\"edns\":\"")
edns_name-IsOdd true b t = ap (λ (a : Bool). reads_on false a t) (not-not (not b))
edns_name-IsOdd false b t = ap (λ (a : Bool). reads_on false a t) (not-not (not b))
