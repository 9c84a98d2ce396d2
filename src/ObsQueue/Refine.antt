-- ===== src/ObsQueue/Refine.antt =====
-- The queue of src/agent/src/obs_queue.c against the list of the items that it holds.
use packetsonde.Prelude.{
  Option-cases, append-nil, append_assoc, Bool-cases, inl, inr, ltb→lt, ℕ, zero, suc, ◌+◌, ◌-◌, ◌%◌,
  ◌≤◌, ◌<◌, ◌≡◌, refl, ap, ◌∙◌, ◌||◌, Option, none, some, List, [], ◌∷◌, ◌++◌, arith, ltb, leb,
  ◌==◌, if◌then◌else◌, length, get_or, take, drop, length-set,
}
use packetsonde.Ring.{window, length-window, window_of_pos, window_of_zero, window-set}
use packetsonde.Recent
use packetsonde.ObsQueue.{ObsQueue, Item, queue_cap, item_max, init, make_room, store, push, drain}

pub record IsValid (q : ObsQueue) : Type 0 where
  pub storage : length q.ring ≡ queue_cap
  pub head_in : q.head < queue_cap
  pub count_in : q.count ≤ queue_cap
  pub tail_is : q.tail ≡ (q.head + q.count) % queue_cap

-- The items waiting, oldest first.
abbrev pub contents : ObsQueue → List Item
contents q = window [] queue_cap q.ring q.head q.count

pub init-IsValid : (q : ObsQueue) → length q.ring ≡ queue_cap → IsValid (init q)
unfolding init
init-IsValid q h = omega arith

make_room-IsValid : {q : ObsQueue} → IsValid q → IsValid (make_room q)
unfolding make_room
make_room-IsValid v = ground arith

make_room_count : {q : ObsQueue} → IsValid q → (make_room q).count < queue_cap
unfolding make_room
make_room_count v = ground arith

store-IsValid : {q : ObsQueue} (x : Item) → IsValid q → q.count < queue_cap → IsValid (store q x)
unfolding store
store-IsValid {q} x v h = ground (arith, length-set q.ring q.tail x)

contents-store :
    {q : ObsQueue} (x : Item)
    → IsValid q
    → q.count < queue_cap
    → contents (store q x) ≡ contents q ++ x ∷ []
unfolding store
contents-store {q} x v h = ground (arith, window-set [] q.ring queue_cap x q.count q.head q.tail, v)

contents-make_room :
    {q : ObsQueue} (x : Item)
    → IsValid q
    → contents (make_room q) ++ x ∷ [] ≡ Recent.push queue_cap (contents q) x
unfolding make_room
contents-make_room {q} x v = ground (
  arith,
  length-window [] queue_cap q.ring q.head q.count,
  window_of_pos [] queue_cap q.ring q.head q.count,
)

accept-IsValid : {q : ObsQueue} (x : Item) → IsValid q → IsValid (store (make_room q) x)
accept-IsValid x v = store-IsValid x (make_room-IsValid v) (make_room_count v)

contents-accept :
    {q : ObsQueue} (x : Item)
    → IsValid q
    → contents (store (make_room q) x) ≡ Recent.push queue_cap (contents q) x
contents-accept x v =
    contents-store x (make_room-IsValid v) (make_room_count v) ∙ contents-make_room x v

-- What a call of `push` asks for: nothing, or to store these bytes.
abbrev pub accepted : Option (List ℕ) → ℕ → Option Item
accepted none len = none
accepted (some b) len = if len == 0 || leb item_max len then none else some (take len b)

abbrev pushed : List Item → Option Item → List Item
pushed items none = items
pushed items (some x) = Recent.push queue_cap items x

-- A push keeps a valid queue valid. A null, empty or oversized event leaves the waiting items as they
-- are; any other is appended, and the oldest item is dropped if 256 were waiting.
pub push_refines :
    {q : ObsQueue} (b : Option (List ℕ)) (len : ℕ)
    → IsValid q
    → IsValid (push q b len) × (contents (push q b len) ≡ pushed (contents q) (accepted b len))
unfolding push
push_refines none len v = (v, refl)
push_refines {q} (some b) len v = elim (Bool-cases (len == 0 || leb item_max len)) [
  | inl refused ↦ rw refused (v, refl)
  | inr fits ↦ rw fits (accept-IsValid (take len b) v, contents-accept (take len b) v)
]

abbrev pop : ObsQueue → ObsQueue
pop q = record q { head = (q.head + 1) % queue_cap; count = q.count - 1 }

pop-IsValid : {q : ObsQueue} → IsValid q → 0 < q.count → IsValid (pop q)
pop-IsValid {q} v h = record {
  storage = v.storage;
  head_in = omega arith;
  count_in = omega arith;
  tail_is = omega (arith, v);
}

-- On a valid queue, a drain of `n` returns the `n` oldest waiting items in order, or all if there are fewer, and
-- leaves exactly the others waiting.
pub drain_refines :
    (n : ℕ) {q : ObsQueue}
    → IsValid q
    → ((drain q n).0 ≡ take n (contents q))
      × (contents (drain q n).1 ≡ drop n (contents q))
      × IsValid (drain q n).1
unfolding drain
drain_refines zero v = (refl, refl, v)
drain_refines (suc n) {q} v = elim (Bool-cases (ltb 0 q.count)) [
  | inl some_left ↦
      let h : 0 < q.count = ltb→lt 0 q.count some_left in
      let rest = drain_refines n {q = pop q} (pop-IsValid v h) in
      rw (some_left, window_of_pos [] queue_cap q.ring q.head q.count (omega arith))
        (ap (◌∷◌ (get_or q.ring q.head [])) rest.0, rest.1, rest.2)
  | inr empty ↦
      let none_left : contents q ≡ [] =
        window_of_zero [] queue_cap q.ring q.head q.count (ground arith) in
      rw (empty, none_left) (refl, refl, v)
]

-- Events in the order in which they are pushed.
abbrev pub push_events : ObsQueue → List (Option (List ℕ) × ℕ) → ObsQueue
push_events q [] = q
push_events q ((b, len) ∷ es) = push_events (push q b len) es

abbrev to_list : Option Item → List Item
to_list none = []
to_list (some x) = x ∷ []

-- The items that those events amount to: what is null, empty or oversized is not among them.
abbrev pub accepted_items : List (Option (List ℕ) × ℕ) → List Item
accepted_items [] = []
accepted_items ((b, len) ∷ es) = to_list (accepted b len) ++ accepted_items es

abbrev pub Holds : List Item → ObsQueue → Type 0
Holds history q = IsValid q × (contents q ≡ Recent.keep queue_cap history)

pub push-Holds :
    (history : List Item) (q : ObsQueue) (b : Option (List ℕ)) (len : ℕ) (x : Item)
    → Holds history q
    → accepted b len ≡ some x
    → Holds (history ++ x ∷ []) (push q b len)
push-Holds history q b len x (v, held) e =
    let (v', now) = push_refines b len v in
    (v', now ∙ rw e (rw held (Recent.push-keep queue_cap (omega arith) history x)))

push-Holds-none :
    (history : List Item) (q : ObsQueue) (b : Option (List ℕ)) (len : ℕ)
    → Holds history q
    → accepted b len ≡ none
    → Holds history (push q b len)
push-Holds-none history q b len (v, held) e =
    let (v', now) = push_refines b len v in (v', now ∙ rw e held)

-- After any pushes on a valid queue that holds the last 256 items of a history, it holds the last 256
-- items of that history and the events that were accepted.
pub push_events-keep :
    (es : List (Option (List ℕ) × ℕ)) (history : List Item) {q : ObsQueue}
    → IsValid q
    → contents q ≡ Recent.keep queue_cap history
    → IsValid (push_events q es)
      × (contents (push_events q es) ≡ Recent.keep queue_cap (history ++ accepted_items es))
push_events-keep [] history v held = (v, rw append-nil held)
push_events-keep ((b, len) ∷ es) history {q} v held = elim (Option-cases (accepted b len)) [
  | inl e ↦
      let (v', held') = push-Holds-none history q b len (v, held) e in
      rw e (push_events-keep es history v' held')
  | inr (x, e) ↦
      let (v', held') = push-Holds history q b len x (v, held) e in
      let (done, all) = push_events-keep es (history ++ x ∷ []) v' held' in
      rw e
        (done, all ∙ ap (Recent.keep queue_cap) (append_assoc history (x ∷ []) (accepted_items es)))
]
