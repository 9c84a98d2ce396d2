-- ===== src/Suppress/Entries.antt =====
-- The loop of src/lib/suppress.c tests each entry of the list.
use packetsonde.Prelude.{
  ℕ, zero, suc, ◌≤◌, ◌≡◌, refl, ap, sym, ◌∙◌, Bool, true, false, ◌&&◌, ◌||◌, Option, none, some,
  List, [], ◌∷◌, ◌==◌, if◌then◌else◌, length, arith, Bool-cases, inl, inr,
}
use mathlib.Core.Option.{some-injective}
use packetsonde.Suppress.{entry, behind_comma, matches, match_from, suppress_match}

-- The list cut at every comma.
abbrev pub cut_in : ℕ → List (List ℕ) → List (List ℕ)
cut_in c [] = (c ∷ []) ∷ []
cut_in c (e ∷ es) = (c ∷ e) ∷ es

abbrev pub entries : List ℕ → List (List ℕ)
entries [] = [] ∷ []
entries (c ∷ s) = if c == 44 then [] ∷ entries s else cut_in c (entries s)

abbrev pub any : (List ℕ → Bool) → List (List ℕ) → Bool
any test [] = false
any test (e ∷ es) = test e || any test es

abbrev pub later_entries : Option (List ℕ) → List (List ℕ)
later_entries none = []
later_entries (some rest) = entries rest

pub entries-split : (s : List ℕ) → entries s ≡ entry s ∷ later_entries (behind_comma s)
entries-split [] = refl
entries-split (c ∷ s) = elim (Bool-cases (c == 44)) [
  | inl comma ↦ rw comma refl
  | inr other ↦ rw (other, entries-split s) refl
]

pub length-behind_comma :
    (s rest : List ℕ) → behind_comma s ≡ some rest → suc (length rest) ≤ length s
length-behind_comma [] rest e = cc
length-behind_comma (c ∷ s) rest e = elim (Bool-cases (c == 44)) [
  | inl comma ↦ omega (arith, ap length (some-injective _ _ (rw comma at e)))
  | inr other ↦ omega (arith, length-behind_comma s rest (rw other at e))
]

module _ (comm : Option (List ℕ)) (path : List ℕ) where
  matches_nothing : matches comm path [] ≡ false
  unfolding matches
  matches_nothing = refl

  match_from_step :
      (rounds c : ℕ) (p : List ℕ) (o : Option (List ℕ))
      → behind_comma (c ∷ p) ≡ o
      → ((rest : List ℕ)
          → o ≡ some rest
          → match_from rounds comm path rest ≡ any (matches comm path) (entries rest))
      → match_from (suc rounds) comm path (c ∷ p)
        ≡ any (matches comm path) (entry (c ∷ p) ∷ later_entries o)
  unfolding match_from
  match_from_step rounds c p none e later = rw e refl
  match_from_step rounds c p (some rest) e later = rw (e, later rest refl) refl

  match_from_lem :
      (rounds : ℕ) (p : List ℕ)
      → length p ≤ rounds
      → match_from rounds comm path p ≡ any (matches comm path) (entries p)
  match_from_lem zero [] h = unfold match_from in rw matches_nothing refl
  match_from_lem zero (c ∷ p) h = absurd (omega arith)
  match_from_lem (suc rounds) [] h = unfold match_from in rw matches_nothing refl
  match_from_lem (suc rounds) (c ∷ p) h =
      match_from_step rounds c p (behind_comma (c ∷ p)) refl
        (λ rest e. match_from_lem rounds rest (omega (arith, length-behind_comma (c ∷ p) rest e)))
      ∙ ap (any (matches comm path)) (sym (entries-split (c ∷ p)))

-- A read of a path is dropped just if some entry of the list, cut at every comma, matches it.
-- Nothing else is dropped: no write or exec, and nothing where the list or the path is NULL.
pub suppress_match-any :
    (list comm path : Option (List ℕ)) (is_read : Bool)
    → suppress_match list comm path is_read ≡ elim list [
      | none ↦ false
      | some l ↦ elim path [ none ↦ false | some p ↦ is_read && any (matches comm p) (entries l) ]
    ]
unfolding suppress_match
suppress_match-any none comm path true = refl
suppress_match-any none comm path false = refl
suppress_match-any (some l) comm none true = refl
suppress_match-any (some l) comm none false = refl
suppress_match-any (some l) comm (some p) true = match_from_lem comm p (length l) l (omega arith)
suppress_match-any (some l) comm (some p) false = refl
