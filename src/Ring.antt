-- ===== src/Ring.antt =====
-- A circular array as both queues of the agents use it: `head`, a count, and indices taken modulo
-- the capacity. `window` is the array read as a queue, oldest item first.
use packetsonde.Prelude.{
  ℕ, zero, suc, ◌+◌, ◌-◌, ◌%◌, ◌≤◌, ◌<◌, ◌≡◌, ◌≢◌, refl, ap, ◌∙◌, List, [], ◌∷◌, ◌++◌, arith,
  length, get_or, set, get_or-set_self, get_or-set_ne,
}
use mathlib.Core.Path.{ap₂}
use native.Mathlib.Decide.{dec_lt}
use native.Mathlib.Nat.{mod-add-mod, mod-eq_of_lt, mod-eq-sub-mod}

module _ {A : Type 0} (d : A) (cap : ℕ) where
  abbrev pub window : List A → ℕ → ℕ → List A
  window buf h zero = []
  window buf h (suc n) = get_or buf h d ∷ window buf ((h + 1) % cap) n

  pub length-window : (buf : List A) (h n : ℕ) → length (window buf h n) ≡ n
  length-window buf h zero = refl
  length-window buf h (suc n) = ap suc (length-window buf ((h + 1) % cap) n)

  -- The code tests `count > 0` where `window` matches on `suc`.
  pub window_of_pos :
      (buf : List A) (h n : ℕ)
      → n ≢ 0
      → window buf h n ≡ get_or buf h d ∷ window buf ((h + 1) % cap) (n - 1)
  window_of_pos buf h zero p = absurd (p refl)
  window_of_pos buf h (suc n) p = ap (λ k. window buf h (suc k)) (omega arith)

  pub window_of_zero : (buf : List A) (h n : ℕ) → n ≡ 0 → window buf h n ≡ []
  window_of_zero buf h zero p = refl
  window_of_zero buf h (suc n) p = cc

-- Fewer than `cap` steps never lead back to the start.
slot-ne : (cap h k : ℕ) → h < cap → suc k < cap → (h + suc k) % cap ≢ h
slot-ne cap h k hh hk = elim (dec_lt (h + suc k) cap) [
  | no past ↦
      let around = mod-eq-sub-mod {n = h + suc k} {m = cap} (omega arith) in
      let rest = mod-eq_of_lt {n = h + suc k - cap} {m = cap} (omega arith) in
      omega (arith, rest, around)
  | yes inside ↦ let stays = mod-eq_of_lt inside in omega (arith, stays)
]

pub slot-suc : (cap h n : ℕ) → (h + suc n) % cap ≡ ((h + 1) % cap + n) % cap
slot-suc cap h n = rw mod-add-mod (ap (λ k. k % cap) (omega arith))

-- Writing at the slot behind a window that leaves room makes the window one item longer.
pub window-set :
    {A : Type 0} (d : A) (buf : List A) (cap : ℕ) (x : A) (n h i : ℕ)
    → cap ≤ length buf
    → h < cap
    → n < cap
    → i ≡ (h + n) % cap
    → window d cap (set buf i x) h (suc n) ≡ window d cap buf h n ++ x ∷ []
window-set d buf cap x zero h i room hh hn e =
    let here : i ≡ h = e ∙ ap (λ (k : ℕ). k % cap) (omega arith) ∙ mod-eq_of_lt hh in
    rw here (rw (get_or-set_self buf h x d (omega arith)))
window-set d buf cap x (suc n) h i room hh hn e =
    let later =
      window-set d buf cap x n ((h + 1) % cap) i room (omega arith) (omega arith)
        (e ∙ slot-suc cap h n) in
    let front = get_or-set_ne buf i h x d (rw e (slot-ne cap h n hh hn)) in ap₂ ◌∷◌ front later
