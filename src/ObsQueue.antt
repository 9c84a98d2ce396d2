-- ===== src/ObsQueue.antt =====
-- src/agent/src/obs_queue.c: the bounded queue of findings on their way to central. The file's
-- static ring, indices and count are the record `ObsQueue`; each function takes it and returns it.
-- Every function holds the lock from its first access to its last, so a call is one step.
pub mod Refine
pub mod Events
mod Tests
use packetsonde.Prelude.{
  ℕ, zero, suc, ◌+◌, ◌-◌, ◌%◌, ◌^◌, Bool, ◌||◌, Option, none, some, List, [], ◌∷◌, ◌++◌, ltb, leb,
  ◌==◌, length, ascii, if◌then◌else◌, get_or, set, take,
}

-- `PS_OBS_QUEUE_CAP` and `PS_OBS_ITEM_MAX`.
abbrev pub queue_cap : ℕ
queue_cap = 256

abbrev pub item_max : ℕ
item_max = 4096

-- The bytes of an `obs_item` up to its `len`.
abbrev pub Item : Type 0
Item = List ℕ

pub record ObsQueue : Type 0 where
  pub ring : List Item
  pub head : ℕ
  pub tail : ℕ
  pub count : ℕ

-- Resets the indices; the items of the static array stay as they are.
pub init : ObsQueue → ObsQueue
init q = record q { head = 0; tail = 0; count = 0 }

-- At the capacity the oldest item is dropped.
pub make_room : ObsQueue → ObsQueue
make_room q =
    if q.count == queue_cap
    then record q { head = (q.head + 1) % queue_cap; count = q.count - 1 }
    else q

pub store : ObsQueue → Item → ObsQueue
store q item = record q {
  ring = set q.ring q.tail item;
  tail = (q.tail + 1) % queue_cap;
  count = q.count + 1;
}

-- `event_json` may be NULL; what is stored is its first `len` bytes.
pub push : ObsQueue → Option (List ℕ) → ℕ → ObsQueue
unfolding make_room store
push q none len = q
push q (some event_json) len =
    if len == 0 || leb item_max len then q else store (make_room q) (take len event_json)

-- The loop of `ps_obs_queue_drain`, by the rounds left, `max - drained`. A negative `max` makes no
-- round, as 0 does.
pub drain : ObsQueue → ℕ → List Item × ObsQueue
drain q zero = ([], q)
drain q (suc rounds) =
    let (items, q') =
      drain (record q { head = (q.head + 1) % queue_cap; count = q.count - 1 }) rounds in
    if ltb 0 q.count then (get_or q.ring q.head [] ∷ items, q') else ([], q)

pub count : ObsQueue → ℕ
count q = q.count

-- `%.*s` with `(int)len`: at most `len` bytes, or all where that is negative.
abbrev pub precise : ℕ → List ℕ → List ℕ
precise len s = if ltb (len % 2 ^ 32) (2 ^ 31) then take (len % 2 ^ 32) s else s

abbrev pub event_text : List ℕ → List ℕ → List ℕ → List ℕ
event_text channel ts_iso observation =
    ascii "{\"kind\":\""
    ++ channel
    ++ ascii "\",\"ts\":\""
    ++ ts_iso
    ++ ascii "\",\"observation\":"
    ++ observation
    ++ ascii "}"

-- What `snprintf` leaves of a text in `cap` bytes.
abbrev pub printed : ℕ → List ℕ → Option (List ℕ)
printed cap text = if leb (2 ^ 31) (length text) || leb cap (length text) then none else some text

-- The text, or 0; `out` is not NULL, and none of the others may be. A text longer than an `int` is
-- an error of `snprintf`.
unfoldable pub build_event :
    ℕ → Option (List ℕ) → Option (List ℕ) → Option (List ℕ) → ℕ → Option (List ℕ)
build_event cap (some channel) (some ts_iso) (some observation_json) obs_len =
    printed cap (event_text channel ts_iso (precise obs_len observation_json))
build_event cap channel ts_iso observation_json obs_len = none
