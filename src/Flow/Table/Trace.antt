-- ===== src/Flow/Table/Trace.antt =====
-- Sequences of calls on the flow table of src/agent/src/flow_tracker.c, from its creation on.
use packetsonde.Prelude.{ℕ, ◌+◌, ◌≤◌, ◌≡◌, refl, true, some, List, [], ◌∷◌, arith, length}
use packetsonde.Prelude.Int.{ℤ}
use packetsonde.Wire.Safe.{IsBytes}
use packetsonde.Flow.Tree.{FlowTree}
use mathlib.Core.Path.{subst}
use mathlib.Core.Option.{some-injective}
use packetsonde.Flow.Table.{FlowTable, fresh, create, process_packet, expire}
use packetsonde.Flow.Table.Entries.{packets_in}
use packetsonde.Flow.Table.Invariant.{IsValid, Balanced, Keeps}
use packetsonde.Flow.Table.Process.{process_packet-Keeps}
use packetsonde.Flow.Table.Expiry.{expire-Keeps}

-- A frame of the capture with its length and time, or a sweep for idle flows.
pub data Event : Type 0 where
  frame : List ℕ → ℕ → ℕ → Event
  sweep : ℕ → ℕ → Event

-- The frames' buffers hold what their lengths say.
abbrev pub IsCapture : List Event → Type 0
IsCapture [] = Unit
IsCapture (frame pkt len ts ∷ es) = IsBytes pkt × (len ≤ length pkt) × IsCapture es
IsCapture (sweep now max_out ∷ es) = IsCapture es

module _ (rb : FlowTree) where
  open rb use {Tree}

  -- The packets counted by the flows that have left, and the table.
  abbrev pub run : ℕ → FlowTable Tree → List Event → ℕ × FlowTable Tree
  run left ft [] = (left, ft)
  run left ft (frame pkt len ts ∷ es) = run left (process_packet rb ft true pkt len ts).1 es
  run left ft (sweep now max_out ∷ es) =
      run (left + packets_in (expire rb ft now max_out).0) (expire rb ft now max_out).1 es

  run-Keeps :
      (es : List Event) (left : ℕ) (ft : FlowTable Tree)
      → IsCapture es
      → Keeps rb left ft
      → Keeps rb (run left ft es).0 (run left ft es).1
  run-Keeps [] left ft c k = k
  run-Keeps (frame pkt len ts ∷ es) left ft (h, fits, c) k =
      run-Keeps es left _ c (process_packet-Keeps rb ft pkt len ts left h fits k).1
  run-Keeps (sweep now max_out ∷ es) left ft c k =
      run-Keeps es _ _ c (expire-Keeps rb ft now max_out left k).2

  fresh-Keeps : (max_flows : ℤ) (track_level : ℕ) → Keeps rb 0 (fresh rb max_flows track_level)
  unfolding fresh
  fresh-Keeps max_flows track_level = (
    record {
      distinct = rw rb.to_list-empty tt;
      num_flows_is = rw rb.to_list-empty refl;
      bounded = omega arith;
    },
    rw rb.to_list-empty refl,
  )

  create-Keeps :
      (max_flows : ℤ) (track_level : ℕ) {ft : FlowTable Tree}
      → create rb true max_flows track_level ≡ some ft
      → Keeps rb 0 ft
  unfolding create
  create-Keeps max_flows track_level {ft} e =
      subst (Keeps rb 0) (some-injective _ _ e) (fresh-Keeps max_flows track_level)

  -- From its creation on, whatever frames arrive and whatever sweeps run, where `calloc` gives a
  -- node when asked, the table is valid (one
  -- flow to a key, `num_flows` of them, at most `max_flows`), and every frame is accounted for:
  -- modulo the width of the counters, the total is the bad and the dropped frames, the packets of
  -- the flows in the table, and those of the flows that have left it.
  pub create-run-Keeps :
      (max_flows : ℤ) (track_level : ℕ) {ft : FlowTable Tree} (es : List Event)
      → create rb true max_flows track_level ≡ some ft
      → IsCapture es
      → IsValid rb (run 0 ft es).1 × Balanced rb (run 0 ft es).1 (run 0 ft es).0
  create-run-Keeps max_flows track_level {ft} es e c =
      run-Keeps es 0 ft c (create-Keeps max_flows track_level e)
