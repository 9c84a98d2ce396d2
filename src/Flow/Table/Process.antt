-- ===== src/Flow/Table/Process.antt =====
-- `ps_flow_table_process_packet` of src/agent/src/flow_tracker.c keeps the table valid and its
-- counters in balance.
use packetsonde.Prelude.{
  ℕ, ◌≤◌, ◌≡◌, ◌≢◌, refl, ap, ◌∙◌, Option, none, some, List, arith, length, true, leb, ◌==◌,
  Bool-cases, inl, inr,
}
use packetsonde.Wire.{Parse, ok, reject, fault}
use packetsonde.Flow.Frame.{ParsedPacket, parse_ethernet}
use packetsonde.Wire.Safe.{IsBytes, Ensures}
use packetsonde.Flow.Frame.Accept.{IsAccepted}
use packetsonde.Flow.Frame.Whole.{parse_ethernet-Ensures}
use packetsonde.Flow.Key.{FlowKey, Direction, make_flow_key}
use packetsonde.Flow.Tree.{Flow, FlowTree, lookup}
use packetsonde.Flow.Table.{
  FlowTable, touch, new_flow, crashed, account, process_parsed, process_packet, ◌+64◌,
}
use packetsonde.Flow.Table.Entries.{lookup-key}
use packetsonde.Flow.Table.Invariant.{
  touch_packets, new_flow_packets, touch_key, flows, Keeps, updated-Keeps, inserted-Keeps,
  dropped-Keeps, bad-Keeps,
}

module _ (rb : FlowTree) where
  open rb use {Tree, find}

  -- The table once a frame has been counted in `total_packets`.
  abbrev seen : FlowTable Tree → FlowTable Tree
  seen ft = record ft { total_packets = ft.total_packets +64 1 }

  account_ne_crashed :
      (ft : FlowTable Tree) (key : FlowKey) (d : Direction) (pp : ParsedPacket) (ts : ℕ)
      (o : Option Flow)
      → (account rb ft true key d pp ts o).0 ≢ crashed
  unfolding account
  account_ne_crashed ft key d pp ts (some f) = grind arith
  account_ne_crashed ft key d pp ts none = grind arith

  account-Keeps :
      (ft : FlowTable Tree) (key : FlowKey) (d : Direction) (pp : ParsedPacket) (ts left : ℕ)
      (o : Option Flow)
      → lookup key (flows rb ft) ≡ o
      → Keeps rb left ft
      → Keeps rb left (account rb (seen ft) true key d pp ts o).1
  unfolding account
  account-Keeps ft key d pp ts left (some f) there k =
      let named : (touch f pp d ts).key ≡ key =
        touch_key f pp d ts ∙ lookup-key key (flows rb ft) there in
      updated-Keeps rb ft f (touch f pp d ts) left
        (ap (λ (j : FlowKey). lookup j (flows rb ft)) named ∙ there) (touch_packets f pp d ts) k
  account-Keeps ft key d pp ts left none absent k =
      elim (Bool-cases (leb ft.max_flows ft.num_flows)) [
        | inl full ↦ rw full (dropped-Keeps rb ft left k)
        | inr room ↦ rw room (
            inserted-Keeps rb ft (new_flow key pp d ts) left absent (new_flow_packets key pp d ts)
              (ground arith) k)
      ]

  process_parsed-Keeps :
      (ft : FlowTable Tree) (ts left len : ℕ) (m : Parse ParsedPacket)
      → Ensures (IsAccepted len) m
      → Keeps rb left ft
      → ((process_parsed rb (seen ft) true ts m).0 ≢ crashed)
        × Keeps rb left (process_parsed rb (seen ft) true ts m).1
  unfolding process_parsed
  process_parsed-Keeps ft ts left len (ok pp) accepted k =
      let (key, d) = make_flow_key pp ft.track_level in
      simp (accepted.marked, rb.find_lem ft.tree key)
        (
          account_ne_crashed (seen ft) key d pp ts (lookup key (flows rb ft)),
          account-Keeps ft key d pp ts left (lookup key (flows rb ft)) refl k,
        )
  process_parsed-Keeps ft ts left len reject accepted k = (grind arith, bad-Keeps rb ft left k)
  process_parsed-Keeps ft ts left len fault accepted k = elim accepted [ ]

  -- Whatever the bytes of a frame, a call on a valid table in balance does not read outside the
  -- frame, keeps the table valid, and
  -- keeps every frame accounted for: one more is in the total, and one more among the bad frames,
  -- the dropped ones or the packets of the flows. This is where `calloc` gives a node when asked.
  pub process_packet-Keeps :
      (ft : FlowTable Tree) (pkt : List ℕ) (len ts left : ℕ)
      → IsBytes pkt
      → len ≤ length pkt
      → Keeps rb left ft
      → ((process_packet rb ft true pkt len ts).0 ≢ crashed)
        × Keeps rb left (process_packet rb ft true pkt len ts).1
  unfolding process_packet
  process_packet-Keeps ft pkt len ts left h fits k = elim (Bool-cases (len == 0)) [
    | inl empty ↦ rw empty (grind arith, k)
    | inr some_bytes ↦ rw some_bytes (
        process_parsed-Keeps ft ts left len (parse_ethernet pkt len)
          (parse_ethernet-Ensures pkt len h fits) k)
  ]
