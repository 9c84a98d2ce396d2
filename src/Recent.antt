-- ===== src/Recent.antt =====
-- What the bounded queues promise: they hold the most recent items, oldest first. `push` is one
-- step; `keep` is the whole specification, the last `cap` items of what was ever pushed.
use packetsonde.Prelude.{
  ℕ, suc, ◌-◌, ◌≤◌, ◌<◌, ◌≡◌, ◌∙◌, List, [], ◌∷◌, ◌++◌, arith, ltb, if◌then◌else◌, length, drop,
  length-append, length-drop, drop-append_le, drop-one_drop,
}
use native.Mathlib.Decide.{dec_lt}

module _ {A : Type 0} (cap : ℕ) where
  -- The last `cap` items.
  abbrev pub keep : List A → List A
  keep xs = drop (length xs - cap) xs

  -- One bounded push: at the capacity the oldest item makes room.
  abbrev pub push : List A → A → List A
  push q x = if ltb (length q) cap then q ++ x ∷ [] else drop 1 q ++ x ∷ []

  pub push_room : (q : List A) (x : A) → length q < cap → push q x ≡ q ++ x ∷ []
  push_room q x h = ground arith

  pub push_full : (q : List A) (x : A) → cap ≤ length q → push q x ≡ drop 1 q ++ x ∷ []
  push_full q x h = ground arith

-- Within the capacity nothing has been dropped.
pub keep_short : {A : Type 0} (cap : ℕ) (xs : List A) → length xs ≤ cap → keep cap xs ≡ xs
keep_short c xs h = let e : length xs - c ≡ 0 = omega arith in rw e

module _ {A : Type 0} (cap : ℕ) (pos : 1 ≤ cap) where
  -- A push on the recent items gives the recent items of the longer history.
  pub push-keep : (xs : List A) (x : A) → push cap (keep cap xs) x ≡ keep cap (xs ++ x ∷ [])
  push-keep xs x = elim (dec_lt (length xs) cap) [
    | yes p ↦
        rw
          (
            keep_short cap xs (omega arith),
            keep_short cap (xs ++ x ∷ []) (omega (arith, length-append xs (x ∷ []))),
          )
          (push_room cap xs x p)
    | no p ↦
        let k : ℕ = length xs - cap in
        let longer : length (xs ++ x ∷ []) - cap ≡ suc k =
          omega (arith, length-append xs (x ∷ [])) in
        push_full cap (drop k xs) x (omega (arith, length-drop k xs))
        ∙ rw (drop-one_drop k xs, longer, drop-append_le (suc k) xs (x ∷ []) (omega arith))
  ]
