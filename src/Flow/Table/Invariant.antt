-- ===== src/Flow/Table/Invariant.antt =====
-- The invariant of the flow table of src/agent/src/flow_tracker.c, and the account of every frame.
use packetsonde.Prelude.{ℕ, ◌+◌, ◌%◌, ◌^◌, ◌≤◌, ◌<◌, ◌≡◌, refl, none, some, List, arith, length}
use packetsonde.Flow.Frame.{ParsedPacket}
use packetsonde.Flow.Key.{FlowKey, Direction, forward, reverse}
use packetsonde.Flow.Tree.{Flow, FlowTree, lookup}
use packetsonde.Flow.Table.{FlowTable, touch, new_flow, ◌+64◌}
use packetsonde.Flow.Table.Entries.{
  Distinct, packets_of, packets_in, packets_in-replace, length-replace, Distinct-replace,
  Distinct-IsInsertion, length-IsInsertion, packets_in-IsInsertion,
}

pub touch_packets :
    (f : Flow) (pp : ParsedPacket) (d : Direction) (ts : ℕ)
    → packets_of (touch f pp d ts) % 2 ^ 64 ≡ (packets_of f + 1) % 2 ^ 64
unfolding touch
touch_packets f pp forward ts = omega arith
touch_packets f pp reverse ts = omega arith

pub new_flow_packets :
    (k : FlowKey) (pp : ParsedPacket) (d : Direction) (ts : ℕ) → packets_of (new_flow k pp d ts) ≡ 1
unfolding new_flow
new_flow_packets k pp forward ts = refl
new_flow_packets k pp reverse ts = refl

pub touch_key :
    (f : Flow) (pp : ParsedPacket) (d : Direction) (ts : ℕ) → (touch f pp d ts).key ≡ f.key
unfolding touch
touch_key f pp d ts = refl

module _ (rb : FlowTree) where
  open rb use {Tree, empty, find, insert, remove, update, to_list}

  abbrev pub flows : FlowTable Tree → List Flow
  flows ft = to_list ft.tree

  -- One flow to a key, counted, and no more than the table may hold.
  pub record IsValid (ft : FlowTable Tree) : Type 0 where
    pub distinct : Distinct (flows ft)
    pub num_flows_is : ft.num_flows ≡ length (flows ft)
    pub bounded : ft.num_flows ≤ ft.max_flows

  -- Every frame that was counted is in exactly one place: it was bad, it was dropped for want of
  -- room, or a flow counted it that is in the table or has left it. All counters are `uint64_t`.
  abbrev pub Balanced : FlowTable Tree → ℕ → Type 0
  Balanced ft left =
      ft.total_packets % 2 ^ 64
      ≡ (ft.bad_packets + ft.flows_dropped + packets_in (flows ft) + left) % 2 ^ 64

  -- Counters other than `num_flows` play no part in validity.
  pub counters_IsValid :
      {ft : FlowTable Tree} (total bad dropped : ℕ)
      → IsValid ft
      → IsValid (record ft { total_packets = total; bad_packets = bad; flows_dropped = dropped })
  counters_IsValid total bad dropped v = record {
    distinct = v.distinct;
    num_flows_is = v.num_flows_is;
    bounded = v.bounded;
  }

  abbrev pub Keeps : ℕ → FlowTable Tree → Type 0
  Keeps left ft = IsValid ft × Balanced ft left

  -- The frame is one more packet of a flow that is tracked.
  pub updated-Keeps :
      (ft : FlowTable Tree) (f g : Flow) (left : ℕ)
      → lookup g.key (flows ft) ≡ some f
      → packets_of g % 2 ^ 64 ≡ (packets_of f + 1) % 2 ^ 64
      → Keeps left ft
      → Keeps left (record ft { tree = update ft.tree g; total_packets = ft.total_packets +64 1 })
  updated-Keeps ft f g left found one (v, b) = (
    record {
      distinct = rw (rb.to_list-update ft.tree g) (Distinct-replace g (flows ft) v.distinct);
      num_flows_is =
          rw (rb.to_list-update ft.tree g) (omega (arith, v, length-replace g (flows ft)));
      bounded = v.bounded;
    },
    rw (rb.to_list-update ft.tree g)
        (omega (arith, b, one, packets_in-replace g (flows ft) {f = f} found)),
  )

  -- The frame starts a flow.
  pub inserted-Keeps :
      (ft : FlowTable Tree) (g : Flow) (left : ℕ)
      → lookup g.key (flows ft) ≡ none
      → packets_of g ≡ 1
      → ft.num_flows < ft.max_flows
      → Keeps left ft
      → Keeps left (record ft {
        tree = insert ft.tree g;
        num_flows = ft.num_flows + 1;
        total_packets = ft.total_packets +64 1;
      })
  inserted-Keeps ft g left absent one room (v, b) =
      let i = rb.to_list-insert ft.tree g absent in
      (
        record {
          distinct = Distinct-IsInsertion i absent v.distinct;
          num_flows_is = omega (arith, v, length-IsInsertion i);
          bounded = omega arith;
        },
        omega (arith, b, one, packets_in-IsInsertion i),
      )

  -- The frame is dropped, or is bad: only counters change.
  pub dropped-Keeps :
      (ft : FlowTable Tree) (left : ℕ)
      → Keeps left ft
      → Keeps left (record ft {
        total_packets = ft.total_packets +64 1;
        flows_dropped = ft.flows_dropped +64 1;
      })
  dropped-Keeps ft left (v, b) = (counters_IsValid _ _ _ v, omega (arith, b))

  pub bad-Keeps :
      (ft : FlowTable Tree) (left : ℕ)
      → Keeps left ft
      → Keeps left
          (record ft { total_packets = ft.total_packets +64 1; bad_packets = ft.bad_packets +64 1 })
  bad-Keeps ft left (v, b) = (counters_IsValid _ _ _ v, omega (arith, b))
