-- ===== src/PtrCache.antt =====
-- src/lib/ptr_cache.c: the cache of reverse lookups and the thread that fills it.
pub mod Slots
pub mod Valid
pub mod Live
pub mod Wait
mod Tests
use mathlib.Core.Option
use packetsonde.Prelude.{
  ℕ, zero, suc, ◌+◌, ◌-◌, ◌≤◌, ◌≡◌, Bool, true, false, Option, none, some, List, [], ◌∷◌, ◌++◌, leb,
  ◌==◌, if◌then◌else◌, length, get_elem?, set, take,
}
use packetsonde.Baseline.{same_path}

-- State 0 is that of the slots behind `n`.
pub data EntryState : Type 0 where
  pending resolved : EntryState

pub record PtrEntry : Type 0 where
  pub ip : List ℕ
  pub name : List ℕ
  pub state : EntryState

-- The array `e` up to `n`, and what else the lock guards.
pub record PtrCache : Type 0 where
  pub entries : List PtrEntry
  pub shutdown : Bool
  pub pending_count : ℕ

-- `PTR_MAX`
abbrev pub ptr_max : ℕ
ptr_max = 256

abbrev pub fresh_cache : PtrCache
fresh_cache = record { entries = []; shutdown = false; pending_count = 0 }

unfoldable pub find : List PtrEntry → List ℕ → Option ℕ
find [] ip = none
find (e ∷ es) ip = if same_path e.ip ip then some 0 else Option.map suc (find es ip)

-- The entry that `ensure` appends.
abbrev pub asked : List ℕ → PtrEntry
asked ip = record { ip = take 63 ip; name = []; state = pending }

-- The index, or -1.
abbrev pub ensured : PtrCache → List ℕ → Option ℕ → Option ℕ × PtrCache
ensured c ip (some i) = (some i, c)
ensured c ip none = if leb ptr_max (length c.entries) then (none, c) else (
  some (length c.entries),
  record c { entries = c.entries ++ asked ip ∷ []; pending_count = c.pending_count + 1 },
)

unfoldable pub ensure : PtrCache → List ℕ → Option ℕ × PtrCache
unfolding find
ensure c ip = ensured c ip (find c.entries ip)

-- The name of the entry at an index, if it is resolved.
abbrev pub name_if : EntryState → List ℕ → Option (List ℕ)
name_if pending name = none
name_if resolved name = some name

abbrev pub name_of : Option PtrEntry → Option (List ℕ)
name_of none = none
name_of (some e) = name_if e.state e.name

abbrev pub name_at : List PtrEntry → Option ℕ → Option (List ℕ)
name_at es none = none
name_at es (some i) = name_of (get_elem? es i)

-- 1 and the name, cut to `cap` with its NUL, or 0.
abbrev pub looked_up : PtrCache → List ℕ → ℕ → Option (List ℕ) → Option (List ℕ) × PtrCache
looked_up c ip cap (some name) = (some (take (cap - 1) name), c)
looked_up c ip cap none = (none, (ensure c ip).1)

unfoldable pub lookup : PtrCache → List ℕ → ℕ → Option (List ℕ) × PtrCache
unfolding ensure find
lookup c ip cap = looked_up c ip cap (name_at c.entries (find c.entries ip))

-- What `ps_ptr_cache_wait` gives when it finds the entry resolved at the index that `ensure` gave;
-- `none`: it waits on, or has timed out.
unfoldable pub wait_answer : PtrCache → ℕ → ℕ → Option (List ℕ)
wait_answer c i cap = Option.map (take (cap - 1)) (name_at c.entries (some i))

-- The worker holds no lock and has no job, or resolves the address of an entry, or has left.
pub data Worker : Type 0 where
  waiting : Worker
  resolving : ℕ → List ℕ → Worker
  left : Worker

-- The first entry that is pending, and its address.
abbrev pub job_if : EntryState → List ℕ → Option (ℕ × List ℕ) → Option (ℕ × List ℕ)
job_if pending ip later = some (0, ip)
job_if resolved ip none = none
job_if resolved ip (some (i, ip')) = some (suc i, ip')

unfoldable pub next_job : List PtrEntry → Option (ℕ × List ℕ)
next_job [] = none
next_job (e ∷ es) = job_if e.state e.ip (next_job es)

-- The loop of the worker under the lock, by the value of `pending`; the last clause is the round
-- that the source calls defensive.
abbrev pub start : PtrCache → Option (ℕ × List ℕ) → PtrCache × Worker → PtrCache × Worker
start c none later = later
start c (some (i, ip)) later = (c, resolving i ip)

unfoldable pub pick : ℕ → PtrCache → PtrCache × Worker
unfolding next_job
pick zero c = (c, waiting)
pick (suc k) c = start c (next_job c.entries) (pick k (record c { pending_count = k }))

unfoldable pub wake : PtrCache → PtrCache × Worker
unfolding pick
wake c = if c.shutdown then (c, left) else pick c.pending_count c

abbrev pub answer : Option (List ℕ) → List ℕ
answer none = []
answer (some name) = take 255 name

-- The answer is stored. The slot is written whatever it holds.
abbrev pub resolve_entry : PtrEntry → Option (List ℕ) → PtrEntry
resolve_entry e found = record e { name = answer found; state = resolved }

abbrev pub resolve_at : List PtrEntry → ℕ → Option (List ℕ) → List PtrEntry
resolve_at [] i found = []
resolve_at (e ∷ es) zero found = resolve_entry e found ∷ es
resolve_at (e ∷ es) (suc i) found = e ∷ resolve_at es i found

abbrev pub store : PtrCache → ℕ → Option (List ℕ) → PtrCache
store c i found = record c {
  entries = resolve_at c.entries i found;
  pending_count = c.pending_count - 1;
}

-- The cache and its worker; `resolver` gives a name or fails.
pub record System : Type 0 where
  pub cache : PtrCache
  pub worker : Worker

abbrev pub system : PtrCache × Worker → System
system (c, w) = record { cache = c; worker = w }

module _ (resolver : List ℕ → Option (List ℕ)) where
  -- From one release of the lock by the worker to the next.
  abbrev pub work : PtrCache → Worker → System
  work c waiting = system (wake c)
  work c (resolving i ip) = system (wake (store c i (resolver ip)))
  work c left = record { cache = c; worker = left }

  -- Calls and the worker take the lock in any order. An address fits the array of an entry.
  pub data Step (s : System) : System → Type 0 where
    ask :
        (ip : List ℕ) (cap : ℕ)
        → length ip ≤ 63
        → Step s (record s { cache = (lookup s.cache ip cap).1 })
    await : (ip : List ℕ) → length ip ≤ 63 → Step s (record s { cache = (ensure s.cache ip).1 })
    run : Step s (work s.cache s.worker)
    stop : Step s (record s { cache = record s.cache { shutdown = true } })

  pub data Reach : System → Type 0 where
    created : Reach (record { cache = fresh_cache; worker = waiting })
    next : {s t : System} → Reach s → Step s t → Reach t
