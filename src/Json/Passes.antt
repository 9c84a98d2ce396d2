-- ===== src/Json/Passes.antt =====
-- Keys and values that the search of src/lib/json_extract.c passes over.
use packetsonde.Prelude.{
  ℕ, zero, suc, ◌+◌, ◌/◌, ◌%◌, ◌≡◌, ◌∙◌, refl, Bool, true, false, List, [], ◌∷◌, ◌++◌, append_assoc,
  ◌==◌, ltb, arith, Bool-cases, inl, inr, ascii,
}
use packetsonde.Prelude.Int.{ℤ, pos, negsuc}
use packetsonde.Json.Writer.{digits, decimal}
use packetsonde.Json.Extract.{starts}
use packetsonde.Baseline.{same_path}
use packetsonde.Json.RoundTrip.{IsPlain, escaped_plain}
use packetsonde.Json.Prints.{quoted, comma}
use packetsonde.Json.Objects.{Value, string, int, bool, strings, items_text, value_text}
use packetsonde.Json.Skips.{
  IsName, IsName-IsPlain, IsEnd, comma-IsEnd, bracket-IsEnd, closing, search_in, pass, pass_any,
  NoQuote, pass-NoQuote, pass-quoted, starts_first,
}

-- A key that is another one.
starts-key :
    (k k' t : List ℕ)
    → IsPlain k
    → IsPlain k'
    → same_path k k' ≡ false
    → starts (closing k) (k' ++ (34 ∷ t)) ≡ false
starts-key [] [] t p p' other = cc
starts-key [] (c ∷ k') t p (low, q, b, p') other =
    let no_quote : (34 == c) ≡ false = ground arith in rw no_quote refl
starts-key (x ∷ k) [] t (low, q, b, p) p' other =
    let no_quote : (x == 34) ≡ false = ground arith in rw no_quote refl
starts-key (x ∷ k) (c ∷ k') t (low, q, b, p) (low', q', b', p') other = elim (Bool-cases (x == c)) [
  | inl same ↦ rw (same, starts-key k k' t p p' (rw same at other)) refl
  | inr differs ↦ rw differs refl
]

IsPlain-NoQuote : (k s : List ℕ) → IsPlain s → NoQuote k s
IsPlain-NoQuote k [] p = tt
IsPlain-NoQuote k (c ∷ s) (low, q, b, p) = (ground arith, IsPlain-NoQuote k s p)

digits-NoQuote : (k : List ℕ) (rounds n : ℕ) → NoQuote k (digits rounds n)
unfolding digits
digits-NoQuote k zero n = tt
digits-NoQuote k (suc rounds) n = elim (Bool-cases (ltb n 10)) [
  | inl one ↦ rw one (ground arith, tt)
  | inr more ↦ rw more (joined (digits rounds (n / 10)) (digits-NoQuote k rounds (n / 10)))
]
  where
    joined : (s : List ℕ) → NoQuote k s → NoQuote k (s ++ (48 + n % 10) ∷ [])
    joined [] h = (ground arith, tt)
    joined (c ∷ s) (q, h) = (q, joined s h)

decimal-NoQuote : (k : List ℕ) (z : ℤ) → NoQuote k (decimal z)
unfolding decimal
decimal-NoQuote k (pos n) = digits-NoQuote k 19 n
decimal-NoQuote k (negsuc n) = (refl, digits-NoQuote k 19 (n + 1))

module _ (k : List ℕ) (name : IsName k) where
  pub pass-key :
      (k' r : List ℕ)
      → IsPlain k'
      → same_path k k' ≡ false
      → search_in k (quoted k' ++ (58 ∷ r)) ≡ search_in k r
  pass-key k' r p other =
      rw (escaped_plain k' p, append_assoc k' (34 ∷ []) (58 ∷ r))
        (pass_any k 34 (k' ++ (34 ∷ 58 ∷ r))
            (starts-key k k' (58 ∷ r) (IsName-IsPlain k name) p other)
          ∙ pass-NoQuote k k' (34 ∷ 58 ∷ r) (IsPlain-NoQuote k k' p)
          ∙ pass_any k 34 (58 ∷ r) (starts_first k 58 r name (λ c low high. ground arith))
          ∙ pass k 58 r refl)

  -- What follows an item of an array.
  pass_items :
      (b : Bool) (ss : List (List ℕ)) (t : List ℕ)
      → search_in k (items_text b ss ++ (93 ∷ t)) ≡ search_in k (93 ∷ t)
  pass_items b [] t = refl
  pass_items b (s ∷ ss) t =
      rw
        (
          append_assoc (comma b ++ quoted s) (items_text true ss) (93 ∷ t),
          append_assoc (comma b) (quoted s) (items_text true ss ++ (93 ∷ t)),
        )
        (pass-NoQuote k (comma b) (quoted s ++ (items_text true ss ++ (93 ∷ t))) (no_quote b)
          ∙ before_end ss
          ∙ pass_items true ss t)
    where
      no_quote : (c : Bool) → NoQuote k (comma c)
      no_quote true = (refl, tt)
      no_quote false = tt

      before_end :
          (us : List (List ℕ))
          → search_in k (quoted s ++ (items_text true us ++ (93 ∷ t)))
            ≡ search_in k (items_text true us ++ (93 ∷ t))
      before_end [] = pass-quoted k s t 93 name bracket-IsEnd
      before_end (u ∷ us) =
          pass-quoted k s ((quoted u ++ items_text true us) ++ (93 ∷ t)) 44 name comma-IsEnd

  pub pass-value :
      (v : Value) (d : ℕ) (r : List ℕ)
      → IsEnd d
      → search_in k (value_text v ++ (d ∷ r)) ≡ search_in k (d ∷ r)
  pass-value (string s) d r e = pass-quoted k s r d name e
  pass-value (int z) d r e = pass-NoQuote k (decimal z) (d ∷ r) (decimal-NoQuote k z)
  pass-value (bool true) d r e =
      pass-NoQuote k (ascii "true") (d ∷ r) (refl, (refl, (refl, (refl, tt))))
  pass-value (bool false) d r e =
      pass-NoQuote k (ascii "false") (d ∷ r) (refl, (refl, (refl, (refl, (refl, tt)))))
  pass-value (strings ss) d r e = rw (append_assoc (items_text false ss) (93 ∷ []) (d ∷ r)) (
      pass k 91 (items_text false ss ++ (93 ∷ d ∷ r)) refl
      ∙ pass_items false ss (d ∷ r)
      ∙ pass k 93 (d ∷ r) refl)
