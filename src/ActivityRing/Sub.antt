-- ===== src/ActivityRing/Sub.antt =====
-- One consumer's ring of src/kernel/src/activity_ring.c against the list of the items it holds.
use packetsonde.Prelude.{
  ℕ, zero, suc, ◌+◌, ◌-◌, ◌%◌, ◌≤◌, ◌<◌, ◌≡◌, refl, ap, List, [], ◌∷◌, arith, ltb, length, get_or,
  take, drop, length-set, Bool-cases, inl, inr, ltb→lt, length-replicate,
}
use packetsonde.Ring.{window, length-window, window_of_pos, window_of_zero, window-set}
use packetsonde.Recent
use packetsonde.ActivityRing.{SubRing, Item, ring_cap, empty_sub, sub_push, sub_pop, drain_sub}

pub record IsValid (s : SubRing) : Type 0 where
  pub storage : length s.buf ≡ ring_cap
  pub head_in : s.head < ring_cap
  pub count_in : s.count ≤ ring_cap

-- The items waiting, oldest first.
abbrev pub contents : SubRing → List Item
contents s = window [] ring_cap s.buf s.head s.count

pub empty_sub-IsValid : IsValid empty_sub
empty_sub-IsValid = omega (arith, length-replicate {0} {A = Item} ring_cap [])

pub sub_push-IsValid : {s : SubRing} (x : Item) → IsValid s → IsValid (sub_push s x)
unfolding sub_push
sub_push-IsValid {s} x v = ground (
  arith,
  length-set s.buf ((s.head + s.count) % ring_cap) x,
  length-set s.buf (((s.head + 1) % ring_cap + s.count - 1) % ring_cap) x,
)

-- A push is the bounded push on the items waiting.
pub sub_push_refines :
    {s : SubRing} (x : Item)
    → IsValid s
    → contents (sub_push s x) ≡ Recent.push ring_cap (contents s) x
unfolding sub_push
sub_push_refines {s} x v = ground (
  arith,
  length-window [] ring_cap s.buf s.head s.count,
  window_of_pos [] ring_cap s.buf s.head s.count,
  window-set [] s.buf ring_cap x s.count s.head ((s.head + s.count) % ring_cap),
  window-set [] s.buf ring_cap x (s.count - 1) ((s.head + 1) % ring_cap)
      (((s.head + 1) % ring_cap + s.count - 1) % ring_cap),
)

sub_pop-IsValid : {s : SubRing} → IsValid s → IsValid (sub_pop s)
sub_pop-IsValid {s} v = omega (arith, v)

-- A drain of `n` takes the `n` oldest items and leaves the others.
pub drain_sub_refines :
    (n : ℕ) {s : SubRing}
    → IsValid s
    → ((drain_sub s n).0 ≡ take n (contents s))
      × (contents (drain_sub s n).1 ≡ drop n (contents s))
      × IsValid (drain_sub s n).1
unfolding drain_sub
drain_sub_refines zero v = (refl, refl, v)
drain_sub_refines (suc n) {s} v = elim (Bool-cases (ltb 0 s.count)) [
  | inl some_left ↦
      let h : 0 < s.count = ltb→lt 0 s.count some_left in
      let rest = drain_sub_refines n {s = sub_pop s} (sub_pop-IsValid v) in
      rw (some_left, window_of_pos [] ring_cap s.buf s.head s.count (omega arith))
        (ap (◌∷◌ (get_or s.buf s.head [])) rest.0, rest.1, rest.2)
  | inr none_left ↦
      let nothing : contents s ≡ [] =
        window_of_zero [] ring_cap s.buf s.head s.count (ground arith) in
      rw (none_left, nothing) (refl, refl, v)
]
