-- ===== src/ActivityRing/Tests.antt =====
-- Runs of src/kernel/src/activity_ring.c on concrete records.
use packetsonde.Prelude.{ℕ, ◌≡◌, ◌∷◌, [], List, some, arith}
use packetsonde.Prelude.Int.{pos}
use packetsonde.ActivityRing.{init}
use packetsonde.ActivityRing.Fanout.{IsValid}
use packetsonde.ActivityRing.View.{
  Op, registers, pushes, drains, run, view_of, init-IsValid, run-view,
}

abbrev small_event : List ℕ
small_event = 123 ∷ 125 ∷ []

-- The second consumer registers after the first record, and drains none.
abbrev calls : List Op
calls =
    registers
    ∷ pushes (some small_event) 2
    ∷ registers
    ∷ pushes (some small_event) 1
    ∷ drains (pos 0) 1
    ∷ []

run-view_example : IsValid (run init calls) × (view_of 1 (run init calls) ≡ (2, (123 ∷ []) ∷ []))
unfolding init
run-view_example = run-view calls 1 (omega arith) init-IsValid
