-- ===== src/ActivityRing/Fanout.antt =====
-- The rings of src/kernel/src/activity_ring.c together: each operation keeps every ring valid,
-- and touches the rings that it should.
use packetsonde.Prelude.{
  ℕ, zero, suc, ◌≤◌, ◌<◌, ◌≡◌, refl, ap, ◌∙◌, Bool, true, false, ◌||◌, Option, none, some, List, [],
  ◌∷◌, arith, ltb, leb, ◌==◌, if◌then◌else◌, length, get_or, set, take, length-set, Bool-cases, inl,
  inr, ==_iff, get_or-set_self, get_or-set_ne,
}
use packetsonde.Prelude.Int.{ℤ, pos, negsuc}
use native.Mathlib.Decide.{dec_lt}
use packetsonde.ActivityRing.{
  ActivityRing, SubRing, Item, item_max, max_consumers, empty_sub, register, sub_push, push_each,
  push, drain_sub, drain,
}
use packetsonde.ActivityRing.Sub.{
  contents, sub_push-IsValid, sub_push_refines, drain_sub_refines, empty_sub-IsValid,
}
use packetsonde.ActivityRing.Sub

abbrev pub sub_at : ActivityRing → ℕ → SubRing
sub_at r c = get_or r.subs c empty_sub

pub record IsValid (r : ActivityRing) : Type 0 where
  pub consumers : length r.subs ≡ max_consumers
  pub registered : r.n ≤ max_consumers
  pub each : (c : ℕ) → Sub.IsValid (sub_at r c)

length-push_each :
    (k : ℕ) (x : Item) (subs : List SubRing) → length (push_each k x subs) ≡ length subs
unfolding push_each
length-push_each zero x subs = refl
length-push_each (suc k) x [] = refl
length-push_each (suc k) x (s ∷ subs) = ap suc (length-push_each k x subs)

ltb-suc : (c k : ℕ) → ltb (suc c) (suc k) ≡ ltb c k
ltb-suc c k = ground arith

-- Exactly the first `k` rings get the item.
pub get_or-push_each :
    (k c : ℕ) (x : Item) (subs : List SubRing)
    → c < length subs
    → get_or (push_each k x subs) c empty_sub
      ≡ (if ltb c k then sub_push (get_or subs c empty_sub) x else get_or subs c empty_sub)
unfolding push_each
get_or-push_each k c x [] h = absurd (omega arith)
get_or-push_each zero c x (s ∷ subs) h = ground arith
get_or-push_each (suc k) zero x (s ∷ subs) h = ground arith
get_or-push_each (suc k) (suc c) x (s ∷ subs) h =
    get_or-push_each k c x subs (omega arith) ∙ rw (ltb-suc c k)

get_or_past : (c : ℕ) (subs : List SubRing) → length subs ≤ c → get_or subs c empty_sub ≡ empty_sub
get_or_past c [] h = refl
get_or_past zero (s ∷ subs) h = absurd (omega arith)
get_or_past (suc c) (s ∷ subs) h = get_or_past c subs (omega arith)

pub register-IsValid : {r : ActivityRing} → IsValid r → IsValid (register r).1
unfolding register
register-IsValid v = ground arith

-- The ring of consumer `c` after an item goes to the first `k`.
each-push_each :
    (r : ActivityRing) (x : Item) (c : ℕ)
    → IsValid r
    → Sub.IsValid (get_or (push_each r.n x r.subs) c empty_sub)
each-push_each r x c v = elim (dec_lt c (length r.subs)) [
  | yes h ↦ rw (get_or-push_each r.n c x r.subs h) (split (ltb c r.n))
  | no h ↦
      rw (get_or_past c (push_each r.n x r.subs) (omega (arith, length-push_each r.n x r.subs)))
        empty_sub-IsValid
]
  where
    split : (b : Bool) → Sub.IsValid (if b then sub_push (sub_at r c) x else sub_at r c)
    split true = sub_push-IsValid x (v.each c)
    split false = v.each c

pub push-IsValid :
    {r : ActivityRing} (json : Option (List ℕ)) (len : ℕ) → IsValid r → IsValid (push r json len)
unfolding push
push-IsValid none len v = v
push-IsValid {r} (some json) len v = elim (Bool-cases (len == 0 || leb item_max len)) [
  | inl refused ↦ rw refused v
  | inr fits ↦ rw fits (record {
    consumers = length-push_each r.n (take len json) r.subs ∙ v.consumers;
    registered = v.registered;
    each = λ c. each-push_each r (take len json) c v;
  })
]

abbrev pub drained : ActivityRing → ℕ → ℕ → SubRing
drained r d max = (drain_sub (sub_at r d) max).1

-- The ring of consumer `c` after consumer `d` drained its own.
pub get_or-drained :
    (r : ActivityRing) (c d max : ℕ)
    → IsValid r
    → d < max_consumers
    → get_or (set r.subs d (drained r d max)) c empty_sub
      ≡ (if d == c then drained r d max else sub_at r c)
get_or-drained r c d max v h = elim (Bool-cases (d == c)) [
  | inl same ↦
      rw (same, ← (==_iff d c).0 same)
        (get_or-set_self r.subs d (drained r d max) empty_sub (omega (arith, v.consumers)))
  | inr other ↦ rw other (get_or-set_ne r.subs d c (drained r d max) empty_sub (ground arith))
]

pub drain-IsValid : {r : ActivityRing} (c : ℤ) (max : ℕ) → IsValid r → IsValid (drain r c max).1
unfolding drain
drain-IsValid (negsuc d) max v = v
drain-IsValid {r} (pos d) max v = elim (Bool-cases (leb max_consumers d)) [
  | inl unknown ↦ rw unknown v
  | inr known ↦ rw known (record {
    consumers = length-set r.subs d (drained r d max) ∙ v.consumers;
    registered = v.registered;
    each = λ c. rw (get_or-drained r c d max v (ground arith)) (split (d == c) c);
  })
]
  where
    split : (b : Bool) (c : ℕ) → Sub.IsValid (if b then drained r d max else sub_at r c)
    split true c = (drain_sub_refines max (v.each d)).2
    split false c = v.each c
