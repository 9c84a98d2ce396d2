-- ===== src/PtrCache/Tests.antt =====
-- A run of src/lib/ptr_cache.c: an address is asked for, the worker resolves it, and it is there.
use packetsonde.Prelude.{
  ℕ, ◌+◌, ◌-◌, ◌≤◌, ◌≡◌, refl, none, some, Option, List, take, if◌then◌else◌, ascii, arith,
}
use packetsonde.Baseline.{same_path}
use packetsonde.PtrCache.{
  fresh_cache, find, ensure, lookup, wait_answer, waiting, System, answer, await, run, Reach,
  created, next, wake,
}
use packetsonde.PtrCache.Valid.{IsValid, Reach-IsValid}
use packetsonde.PtrCache.Live.{IsDone, rounds, lookup-rounds}
use packetsonde.PtrCache.Wait.{now, then_step, Later-wait_answer}

abbrev host : List ℕ
host = ascii "192.0.2.1"

abbrev names : List ℕ → Option (List ℕ)
names ip = if same_path ip host then some (ascii "www") else none

abbrev idle_system : System
idle_system = record { cache = fresh_cache; worker = waiting }

abbrev asked_once : System
asked_once = record { cache = (ensure fresh_cache host).1; worker = waiting }

asked_once-Reach : Reach names asked_once
asked_once-Reach = next created (await host (omega arith))

abbrev answered : System
answered = rounds names 2 asked_once

answered-Reach : Reach names answered
unfolding rounds
answered-Reach = next (next asked_once-Reach run) run

Reach-IsValid_example : IsValid names answered.cache answered.worker
Reach-IsValid_example = Reach-IsValid names answered-Reach

lookup-rounds_example :
    (n : ℕ) × (n ≤ asked_once.cache.pending_count + 1)
    × IsDone (rounds names n asked_once)
    × ((ip : List ℕ) (cap i : ℕ)
        → find asked_once.cache.entries ip ≡ some i
        → (lookup (rounds names n asked_once).cache ip cap).0
          ≡ some (take (cap - 1) (answer (names ip))))
unfolding ensure
lookup-rounds_example = lookup-rounds names {s = asked_once} asked_once-Reach refl

Later-wait_answer_example : ascii "www" ≡ take (256 - 1) (answer (names host))
unfolding ensure wait_answer wake
Later-wait_answer_example =
    Later-wait_answer names {s = idle_system} host 256 0 created (omega arith) refl
      (then_step (then_step now run) run) refl
