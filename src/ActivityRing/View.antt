-- ===== src/ActivityRing/View.antt =====
-- Fan-out in src/kernel/src/activity_ring.c: what one consumer sees depends on what is pushed and
-- on its own drains, and on nothing that the other consumers do.
use packetsonde.Prelude.{
  ℕ, ◌+◌, ◌<◌, ◌≡◌, refl, ap, ◌∙◌, ◌||◌, Option, none, some, List, [], ◌∷◌, arith, ltb, leb, ◌==◌,
  if◌then◌else◌, take, drop, ==_iff, get_or-replicate,
}
use packetsonde.Prelude.Int.{ℤ, pos, negsuc}
use packetsonde.Recent
use packetsonde.ActivityRing.{
  ActivityRing, Item, ring_cap, item_max, max_consumers, empty_sub, init, register, push, drain,
}
use packetsonde.ActivityRing.Sub.{contents, sub_push_refines, drain_sub_refines, empty_sub-IsValid}
use packetsonde.ActivityRing.Fanout.{
  IsValid, sub_at, get_or-push_each, get_or-drained, register-IsValid, push-IsValid, drain-IsValid,
}

-- What is asked of the rings, in the order of the lock.
pub data Op : Type 0 where
  registers : Op
  pushes : Option (List ℕ) → ℕ → Op
  drains : ℤ → ℕ → Op

abbrev pub step : ActivityRing → Op → ActivityRing
step r registers = (register r).1
step r (pushes json len) = push r json len
step r (drains c max) = (drain r c max).1

abbrev pub run : ActivityRing → List Op → ActivityRing
run r [] = r
run r (o ∷ os) = run (step r o) os

-- One consumer's view: how many consumers are registered, and the items that wait for it.
abbrev pub push_view : List Item → Option (List ℕ) → ℕ → List Item
push_view q none len = q
push_view q (some json) len =
    if len == 0 || leb item_max len then q else Recent.push ring_cap q (take len json)

module _ (c : ℕ) where
  abbrev pub view_step : ℕ × List Item → Op → ℕ × List Item
  view_step (n, q) registers = (if ltb n max_consumers then n + 1 else n, q)
  view_step (n, q) (pushes json len) = (n, if ltb c n then push_view q json len else q)
  view_step (n, q) (drains (negsuc d) max) = (n, q)
  view_step (n, q) (drains (pos d) max) = (n, if d == c then drop max q else q)

  abbrev pub view : ℕ × List Item → List Op → ℕ × List Item
  view v [] = v
  view v (o ∷ os) = view (view_step v o) os

-- What consumer `c` sees of the state.
abbrev pub view_of : ℕ → ActivityRing → ℕ × List Item
view_of c r = (r.n, contents (sub_at r c))

module _ (c : ℕ) (known : c < max_consumers) where
  view-register :
      (r : ActivityRing) → view_of c (register r).1 ≡ view_step c (view_of c r) registers
  unfolding register
  view-register r = ground arith

  view-push :
      (r : ActivityRing) (json : Option (List ℕ)) (len : ℕ)
      → IsValid r
      → view_of c (push r json len) ≡ view_step c (view_of c r) (pushes json len)
  unfolding push
  view-push r none len v = ground arith
  view-push r (some json) len v = ground (
    arith,
    get_or-push_each r.n c (take len json) r.subs,
    v.consumers,
    sub_push_refines (take len json) (v.each c),
  )

  view-drain :
      (r : ActivityRing) (d : ℤ) (max : ℕ)
      → IsValid r
      → view_of c (drain r d max).1 ≡ view_step c (view_of c r) (drains d max)
  unfolding drain
  view-drain r (negsuc d) max v = refl
  view-drain r (pos d) max v =
      ground (arith, get_or-drained r c d max v, (drain_sub_refines max (v.each d)).1, ==_iff d c)

step-IsValid : {r : ActivityRing} (o : Op) → IsValid r → IsValid (step r o)
step-IsValid registers v = register-IsValid v
step-IsValid (pushes json len) v = push-IsValid json len v
step-IsValid (drains d max) v = drain-IsValid d max v

view-step :
    (c : ℕ) (r : ActivityRing) (o : Op)
    → c < max_consumers
    → IsValid r
    → view_of c (step r o) ≡ view_step c (view_of c r) o
view-step c r registers known v = view-register c known r
view-step c r (pushes json len) known v = view-push c known r json len v
view-step c r (drains d max) known v = view-drain c known r d max v

-- After any sequence of calls on valid rings, the items that wait for a consumer are those of its own bounded
-- queue: what was pushed while it was registered, less what it drained itself. Registrations after
-- its own and drains by other consumers change nothing of them.
pub run-view :
    (os : List Op) (c : ℕ) {r : ActivityRing}
    → c < max_consumers
    → IsValid r
    → IsValid (run r os) × (view_of c (run r os) ≡ view c (view_of c r) os)
run-view [] c known v = (v, refl)
run-view (o ∷ os) c {r} known v =
    let (valid, seen) = run-view os c known (step-IsValid o v) in
    (valid, seen ∙ ap (λ (w : ℕ × List Item). view c w os) (view-step c r o known v))

-- On valid rings, a drain hands a known consumer the oldest items of its queue, in order, as many as it asks for
-- or as there are; it hands nothing to an identifier out of range.
pub drain_reply :
    (d : ℤ) (max : ℕ) {r : ActivityRing}
    → IsValid r
    → (drain r d max).0 ≡ elim d [
      | pos c ↦ if ltb c max_consumers then take max (contents (sub_at r c)) else []
      | negsuc c ↦ []
    ]
unfolding drain
drain_reply (negsuc c) max v = refl
drain_reply (pos c) max v = ground (arith, (drain_sub_refines max (v.each c)).0)

-- The rings at start-up are valid, and no consumer is registered.
pub init-IsValid : IsValid init
unfolding init
init-IsValid = record {
  consumers = refl;
  registered = omega arith;
  each = λ c. rw (get_or-replicate max_consumers c empty_sub) empty_sub-IsValid;
}
