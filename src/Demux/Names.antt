-- ===== src/Demux/Names.antt =====
-- Handlers of protocol_demux.c by name.
use packetsonde.Prelude.{
  ℕ, zero, suc, ◌≤◌, ◌<◌, ◌≡◌, ◌∙◌, refl, sym, ap, Bool, true, false, ◌&&◌, ◌||◌, ◌⊎◌, Option, none,
  some, List, [], ◌∷◌, ◌++◌, leb, ◌==◌, if◌then◌else◌, length, length-append, take, arith,
  Bool-cases, inl, inr, ==_iff,
}
use packetsonde.Prelude.Int.{ℤ, pos, negsuc}
use packetsonde.Demux.{
  MatchType, Entry, Demux, prepend, max_handlers, enter, register, register_custom, same_first,
  set_first, outcome, set_enabled, first_enabled, is_enabled,
}

same_first_self : (n : ℕ) (a : List ℕ) → same_first n a a ≡ true
unfolding same_first
same_first_self zero a = refl
same_first_self (suc n) [] = refl
same_first_self (suc n) (x ∷ a) =
    let same : (x == x) ≡ true = (==_iff x x).1 refl in rw (same, same_first_self n a) refl

same_first-take : (n : ℕ) (a b : List ℕ) → same_first n a b ≡ true → take n a ≡ take n b
unfolding same_first
same_first-take zero a b h = refl
same_first-take (suc n) [] [] h = refl
same_first-take (suc n) [] (y ∷ b) h = cc
same_first-take (suc n) (x ∷ a) [] h = cc
same_first-take (suc n) (x ∷ a) (y ∷ b) h =
    let tail = same_first-take n a b (ground arith) in let head : x ≡ y = ground arith in cc

take-same_first : (n : ℕ) (a b : List ℕ) → same_first n a b ≡ same_first n (take n a) (take n b)
unfolding same_first
take-same_first zero a b = refl
take-same_first (suc n) [] [] = refl
take-same_first (suc n) [] (y ∷ b) = refl
take-same_first (suc n) (x ∷ a) [] = refl
take-same_first (suc n) (x ∷ a) (y ∷ b) = ap (λ (t : Bool). x == y && t) (take-same_first n a b)

-- Names that agree in what is compared are found alike.
pub same_first_cong :
    (n : ℕ) (e a b : List ℕ) → same_first n a b ≡ true → same_first n e a ≡ same_first n e b
same_first_cong n e a b h =
    take-same_first n e a ∙ rw (same_first-take n a b h) (sym (take-same_first n e b))

same_first_comm : (n : ℕ) (a b : List ℕ) → same_first n a b ≡ same_first n b a
unfolding same_first
same_first_comm zero a b = refl
same_first_comm (suc n) [] [] = refl
same_first_comm (suc n) [] (y ∷ b) = refl
same_first_comm (suc n) (x ∷ a) [] = refl
same_first_comm (suc n) (x ∷ a) (y ∷ b) = ground (arith, same_first_comm n a b)

-- An entry of that name is of the other name, too, exactly when the names agree.
same_name :
    (n : ℕ) (e name other : List ℕ)
    → same_first n e name ≡ true
    → same_first n e other ≡ same_first n name other
same_name n e name other h =
    same_first_comm n e other ∙ same_first_cong n other e name h ∙ same_first_comm n other name

-- What setting `name` makes of the answer for `other`.
abbrev SetOrMissed : List Entry → List ℕ → List ℕ → Bool → Option (List Entry) → Type 0
SetOrMissed es name other b none = first_enabled es name ≡ false
SetOrMissed es name other b (some fs) =
    first_enabled fs other ≡ (if same_first 64 name other then b else first_enabled es other)

if_twice : (t x y z : Bool) → (if t then x else z) ≡ (if t then x else (if t then y else z))
if_twice true x y z = refl
if_twice false x y z = refl

if_itself : (t : Bool) → (if t then true else false) ≡ t
if_itself true = refl
if_itself false = refl

if_or :
    (t k x y z : Bool)
    → (if t then x else (if k then y else z)) ≡ (if t || k then (if t then x else y) else z)
if_or true k x y z = refl
if_or false k x y z = refl

module _ (e : Entry) (es : List Entry) (name other : List ℕ) (b : Bool) where
  prepend-SetOrMissed :
      (r : Option (List Entry))
      → same_first 64 e.name name ≡ false
      → SetOrMissed es name other b r
      → SetOrMissed (e ∷ es) name other b (prepend e r)
  unfolding first_enabled
  prepend-SetOrMissed none h m = rw h m
  prepend-SetOrMissed (some fs) h m = elim (Bool-cases (same_first 64 name other)) [
    | inl alike ↦
        let differs = sym (same_first_cong 64 e.name name other alike) ∙ h in
        rw (alike, differs) (m ∙ rw alike refl)
    | inr unlike ↦ rw unlike (
        ap (λ (x : Bool). if same_first 64 e.name other then e.enabled else x) (m ∙ rw unlike refl))
  ]

  found-SetOrMissed :
      same_first 64 e.name name ≡ true
      → SetOrMissed (e ∷ es) name other b (some (record e { enabled = b } ∷ es))
  unfolding first_enabled
  found-SetOrMissed h =
      rw (same_name 64 e.name name other h)
        (if_twice (same_first 64 name other) b e.enabled (first_enabled es other))

set_first-SetOrMissed :
    (es : List Entry) (name other : List ℕ) (b : Bool)
    → SetOrMissed es name other b (set_first es name b)
unfolding set_first
set_first-SetOrMissed [] name other b = unfold first_enabled in refl
set_first-SetOrMissed (e ∷ es) name other b = elim (Bool-cases (same_first 64 e.name name)) [
  | inl found ↦ rw found (found-SetOrMissed e es name other b found)
  | inr differs ↦ rw differs (
      prepend-SetOrMissed e es name other b (set_first es name b) differs
        (set_first-SetOrMissed es name other b))
]

-- A call of `set_enabled`, by how it ended.
abbrev pub Switched : Demux → List ℕ → Bool → ℤ × Demux → Type 0
Switched dmx name b (code, dmx') =
    ((code ≡ pos 0)
      × ((other : List ℕ)
          → is_enabled dmx' other ≡ (if same_first 64 name other then b else is_enabled dmx other)))
    ⊎ ((code ≡ negsuc 0) × (dmx' ≡ dmx) × (is_enabled dmx name ≡ false))

outcome-Switched :
    (dmx : Demux) (name : List ℕ) (b : Bool) (r : Option (List Entry))
    → ((other : List ℕ) → SetOrMissed dmx.entries name other b r)
    → Switched dmx name b (outcome dmx r)
unfolding is_enabled
outcome-Switched dmx name b none h = inr (refl, refl, h name)
outcome-Switched dmx name b (some fs) h = inl (refl, h)

-- Setting a handler by its name returns 0, and then is_enabled answers with what was set for every
-- name that agrees with it in the 64 bytes that are compared, and as before for every other; or it
-- returns -1, changes nothing, and the name was not enabled.
pub set_enabled-Switched :
    (dmx : Demux) (name : List ℕ) (b : Bool) → Switched dmx name b (set_enabled dmx name b)
unfolding set_enabled
set_enabled-Switched dmx name b =
    outcome-Switched dmx name b (set_first dmx.entries name b)
      (λ other. set_first-SetOrMissed dmx.entries name other b)

-- Is there an entry of that name?
abbrev pub known : List Entry → List ℕ → Bool
known [] name = false
known (e ∷ es) name = same_first 64 e.name name || known es name

first_enabled-append :
    (es : List Entry) (e : Entry) (other : List ℕ)
    → first_enabled (es ++ e ∷ []) other
      ≡ (if known es other then first_enabled es other else first_enabled (e ∷ []) other)
unfolding first_enabled
first_enabled-append [] e other = refl
first_enabled-append (f ∷ es) e other = rw (first_enabled-append es e other) (
    if_or (same_first 64 f.name other) (known es other) f.enabled (first_enabled es other)
      (first_enabled (e ∷ []) other))

-- A registration, by how it ended.
abbrev pub Registered : Demux → List ℕ → ℤ × Demux → Type 0
Registered dmx name (code, dmx') =
    ((code ≡ negsuc 0) × (dmx' ≡ dmx) × (max_handlers ≤ length dmx.entries))
    ⊎ ((code ≡ pos 0)
        × (length dmx'.entries ≡ suc (length dmx.entries))
        × (length dmx.entries < max_handlers)
        × ((other : List ℕ)
            → is_enabled dmx' other ≡ (
                if known dmx.entries other
                then is_enabled dmx other
                else same_first 64 (take 63 name) other)))

new_answers :
    (e : Entry) (other : List ℕ)
    → e.enabled ≡ true
    → first_enabled (e ∷ []) other ≡ same_first 64 e.name other
unfolding first_enabled
new_answers e other on = rw on (if_itself (same_first 64 e.name other))

enter-Registered :
    (dmx : Demux) (e : Entry) → e.enabled ≡ true → Registered dmx e.name (enter dmx e)
unfolding is_enabled
enter-Registered dmx e on = elim (Bool-cases (leb max_handlers (length dmx.entries))) [
  | inl full ↦ rw full (inl (refl, refl, ground arith))
  | inr room ↦
      let named : Entry = record e { name = take 63 e.name } in
      rw room (
        inr (
          refl,
          omega (arith, length-append {0} dmx.entries (named ∷ [])),
          ground arith,
          λ other. rw (← new_answers named other on) (first_enabled-append dmx.entries named other),
        ))
]

-- A registration of either kind returns -1 exactly on a table of 32 handlers, and then changes
-- nothing. Otherwise it returns 0 and one handler joins the table, enabled; under a name that the
-- table knew already the handler registered first goes on to answer, and any other name is answered
-- as before, unless it is the new one, cut to 63 bytes.
pub register-Registered :
    (dmx : Demux) (name : List ℕ) (t : MatchType) (value handler userdata : ℕ)
    (match_fn : Option (List ℕ → Bool))
    → Registered dmx name (register dmx name t value handler userdata)
      × Registered dmx name (register_custom dmx name match_fn handler userdata)
unfolding register register_custom
register-Registered dmx name t value handler userdata match_fn =
    (enter-Registered dmx _ refl, enter-Registered dmx _ refl)
