-- ===== src/ActivityRing.antt =====
-- src/kernel/src/activity_ring.c: every activity record goes to each registered consumer, which
-- drains a bounded ring of its own. The file's statics are the record `ActivityRing`; every
-- function holds the mutex from its first access to its last, so a call is one step.
pub mod Sub
pub mod Fanout
pub mod View
mod Tests
use packetsonde.Prelude.{
  ℕ, zero, suc, ◌+◌, ◌-◌, ◌%◌, Bool, ◌||◌, Option, none, some, List, [], ◌∷◌, ltb, leb, ◌==◌,
  if◌then◌else◌, get_or, set, take, replicate,
}
use packetsonde.Prelude.Int.{ℤ, pos, negsuc}

-- `PS_ACT_RING_CAP`, `PS_ACT_ITEM_MAX` and `PS_ACT_MAX_CONSUMERS`.
abbrev pub ring_cap : ℕ
ring_cap = 256

abbrev pub item_max : ℕ
item_max = 8192

abbrev pub max_consumers : ℕ
max_consumers = 8

-- The bytes of a slot up to its `len`.
abbrev pub Item : Type 0
Item = List ℕ

pub record SubRing : Type 0 where
  pub buf : List Item
  pub head : ℕ
  pub count : ℕ

pub record ActivityRing : Type 0 where
  pub n : ℕ
  pub subs : List SubRing

-- `memset` leaves every slot of every ring empty.
abbrev pub empty_sub : SubRing
empty_sub = record { buf = replicate ring_cap []; head = 0; count = 0 }

unfoldable pub init : ActivityRing
init = record { n = 0; subs = replicate max_consumers empty_sub }

-- The identifier of the new consumer, or -1.
pub register : ActivityRing → ℤ × ActivityRing
register r = if ltb r.n max_consumers then (pos r.n, record r { n = r.n + 1 }) else (negsuc 0, r)

-- A full ring drops its oldest item.
pub sub_push : SubRing → Item → SubRing
sub_push s item =
    if s.count == ring_cap
    then (let head = (s.head + 1) % ring_cap in
        record s { buf = set s.buf ((head + s.count - 1) % ring_cap) item; head = head })
    else record s { buf = set s.buf ((s.head + s.count) % ring_cap) item; count = s.count + 1 }

-- `for (i = 0; i < g_n; i++) sub_push(&g_sub[i], json, len)`.
pub push_each : ℕ → Item → List SubRing → List SubRing
push_each zero item subs = subs
push_each (suc k) item [] = []
push_each (suc k) item (s ∷ subs) = sub_push s item ∷ push_each k item subs

-- `json` may be NULL; what is stored is its first `len` bytes.
pub push : ActivityRing → Option (List ℕ) → ℕ → ActivityRing
push r none len = r
push r (some json) len =
    if len == 0 || leb item_max len
    then r
    else record r { subs = push_each r.n (take len json) r.subs }

abbrev pub sub_pop : SubRing → SubRing
sub_pop s = record s { head = (s.head + 1) % ring_cap; count = s.count - 1 }

-- The loop of `ps_act_ring_drain`, by the rounds left, `max - n`. A negative `max` makes no round,
-- as 0 does.
pub drain_sub : SubRing → ℕ → List Item × SubRing
drain_sub s zero = ([], s)
drain_sub s (suc rounds) =
    let (items, s') = drain_sub (sub_pop s) rounds in
    if ltb 0 s.count then (get_or s.buf s.head [] ∷ items, s') else ([], s)

pub drain : ActivityRing → ℤ → ℕ → List Item × ActivityRing
drain r (negsuc c) max = ([], r)
drain r (pos c) max =
    if leb max_consumers c
    then ([], r)
    else (let (items, s) = drain_sub (get_or r.subs c empty_sub) max in
        (items, record r { subs = set r.subs c s }))

pub count : ActivityRing → ℤ → ℕ
count r (negsuc c) = 0
count r (pos c) = if leb max_consumers c then 0 else (get_or r.subs c empty_sub).count
