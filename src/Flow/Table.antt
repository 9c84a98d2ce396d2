-- ===== src/Flow/Table.antt =====
-- The flow table of src/agent/src/flow_tracker.c over the tree of `Flow/Tree`.
pub mod Entries
pub mod Found
pub mod Invariant
pub mod Process
pub mod Expiry
pub mod Timeout
pub mod Trace
pub mod Destroy
use Prim.Native.Nat.{bit_and, bit_or}
use packetsonde.Prelude.{
  ℕ, zero, suc, ◌+◌, ◌-◌, ◌*◌, ◌%◌, ◌^◌, Bool, true, false, not, ◌&&◌, ◌||◌, Option, none, some,
  List, [], ◌∷◌, ltb, leb, ◌==◌, if◌then◌else◌, length,
}
use packetsonde.Prelude.Int.{ℤ, pos, negsuc}
use packetsonde.Wire.{Parse, ok, reject, fault}
use packetsonde.Flow.Frame.{ParsedPacket, parse_ethernet}
use packetsonde.Flow.Key.{FlowKey, Direction, forward, reverse, make_flow_key}
use packetsonde.Flow.Tree.{Flow, FlowTree}

-- `struct ps_flow_table`, over the tree type `T`. Times are in microseconds.
pub record FlowTable (T : Type 0) : Type 0 where
  pub tree : T
  pub num_flows : ℕ
  pub max_flows : ℕ
  pub track_level : ℕ
  pub timeout_tcp_est : ℕ
  pub timeout_tcp_short : ℕ
  pub timeout_udp : ℕ
  pub timeout_icmp : ℕ
  pub timeout_general : ℕ
  pub timeout_max_lifetime : ℕ
  pub total_packets : ℕ
  pub bad_packets : ℕ
  pub flows_expired : ℕ
  pub flows_dropped : ℕ

-- The counters are `uint64_t`.
infixl 65 ◌+64◌
abbrev pub ◌+64◌ : ℕ → ℕ → ℕ
a +64 b = (a + b) % 2 ^ 64

abbrev pub default_max_flows : ℕ
default_max_flows = 65536

-- One slot of an array of two.
abbrev pub at : Direction → ℕ × ℕ → ℕ
at forward (a, b) = a
at reverse (a, b) = b

abbrev pub put : Direction → ℕ → ℕ × ℕ → ℕ × ℕ
put forward x (a, b) = (x, b)
put reverse x (a, b) = (a, x)

-- The update of a flow that is already tracked.
unfoldable pub touch : Flow → ParsedPacket → Direction → ℕ → Flow
touch f pp d ts_usec = record f {
  packets = put d (at d f.packets +64 1) f.packets;
  octets = put d (at d f.octets +64 pp.payload_len) f.octets;
  tcp_flags = put d (bit_or (at d f.tcp_flags) pp.tcp_flags) f.tcp_flags;
  flow_last = ts_usec;
}

-- The first packet of a flow.
unfoldable pub new_flow : FlowKey → ParsedPacket → Direction → ℕ → Flow
new_flow key pp d ts_usec = record {
  key = key;
  packets = put d 1 (0, 0);
  octets = put d pp.payload_len (0, 0);
  tcp_flags = put d pp.tcp_flags (0, 0);
  flow_start = ts_usec;
  flow_last = ts_usec;
  flow_label = pp.flow_label;
}

module _ {T : Type 0} where
  unfoldable pub flow_idle_timeout : FlowTable T → Flow → ℕ
  flow_idle_timeout ft f =
      if f.key.proto == 6
      then (let all_flags = bit_or f.tcp_flags.0 f.tcp_flags.1 in
          if not (bit_and all_flags 5 == 0)
          then ft.timeout_tcp_short
          else if bit_and all_flags 2 == 0
          then ft.timeout_general
          else ft.timeout_tcp_est)
      else if f.key.proto == 17
      then ft.timeout_udp
      else if f.key.proto == 1 || f.key.proto == 58
      then ft.timeout_icmp
      else ft.timeout_general

  -- The test of `ps_flow_table_expire`; a clock that went back counts as no time.
  unfoldable pub is_stale : FlowTable T → ℕ → Flow → Bool
  unfolding flow_idle_timeout
  is_stale ft now_usec f =
      let elapsed = if ltb f.flow_last now_usec then now_usec - f.flow_last else 0 in
      let age = if ltb f.flow_start now_usec then now_usec - f.flow_start else 0 in
      ltb (flow_idle_timeout ft f) elapsed || ltb ft.timeout_max_lifetime age

module _ (rb : FlowTree) where
  open rb use {Tree, empty, find, insert, remove, update, to_list}

  -- The table as `ps_flow_table_create` fills it in.
  unfoldable pub fresh : ℤ → ℕ → FlowTable Tree
  fresh max_flows track_level = record {
    tree = empty;
    num_flows = 0;
    max_flows = elim max_flows [
      | pos n ↦ if ltb 0 n then n else default_max_flows
      | negsuc n ↦ default_max_flows
    ];
    track_level = track_level;
    timeout_tcp_est = 3600 * 1000000;
    timeout_tcp_short = 30 * 1000000;
    timeout_udp = 300 * 1000000;
    timeout_icmp = 60 * 1000000;
    timeout_general = 3600 * 1000000;
    timeout_max_lifetime = 86400 * 1000000;
    total_packets = 0;
    bad_packets = 0;
    flows_expired = 0;
    flows_dropped = 0;
  }

  -- `none` is the NULL of a failed `calloc`, which `allocated` stands for.
  unfoldable pub create : Bool → ℤ → ℕ → Option (FlowTable Tree)
  unfolding fresh
  create allocated max_flows track_level =
      if allocated then some (fresh max_flows track_level) else none

  -- 0 or -1, as the source returns it; `crashed` is a read outside the frame.
  pub data Outcome : Type 0 where
    counted refused crashed : Outcome

  -- The rest of a call, by what `RB_FIND` returns. `allocated` says whether `calloc` gives a node.
  unfoldable pub account :
      FlowTable Tree
      → Bool
      → FlowKey
      → Direction
      → ParsedPacket
      → ℕ
      → Option Flow
      → Outcome × FlowTable Tree
  unfolding touch new_flow
  account ft allocated key d pp ts_usec (some found) =
      (counted, record ft { tree = update ft.tree (touch found pp d ts_usec) })
  account ft allocated key d pp ts_usec none =
      if leb ft.max_flows ft.num_flows
      then (refused, record ft { flows_dropped = ft.flows_dropped +64 1 })
      else if not allocated
      then (refused, ft)
      else (
        counted,
        record ft {
          tree = insert ft.tree (new_flow key pp d ts_usec);
          num_flows = ft.num_flows + 1;
        },
      )

  -- The rest of a call, by what the parser returns.
  unfoldable pub process_parsed :
      FlowTable Tree → Bool → ℕ → Parse ParsedPacket → Outcome × FlowTable Tree
  unfolding account
  process_parsed ft allocated ts_usec (ok pp) =
      if not pp.valid
      then (refused, record ft { bad_packets = ft.bad_packets +64 1 })
      else (let (key, d) = make_flow_key pp ft.track_level in
          account ft allocated key d pp ts_usec (find ft.tree key))
  process_parsed ft allocated ts_usec reject =
      (refused, record ft { bad_packets = ft.bad_packets +64 1 })
  process_parsed ft allocated ts_usec fault = (crashed, ft)

  -- A frame that is empty is refused before it is counted.
  unfoldable pub process_packet : FlowTable Tree → Bool → List ℕ → ℕ → ℕ → Outcome × FlowTable Tree
  unfolding process_parsed
  process_packet ft allocated pkt len ts_usec =
      if len == 0
      then (refused, ft)
      else process_parsed (record ft { total_packets = ft.total_packets +64 1 }) allocated ts_usec
          (parse_ethernet pkt len)

  -- The loop of `ps_flow_table_expire` over the nodes in order, with the room left in `out`. A
  -- negative `max_out` leaves none, as 0 does. The flows that leave are returned beside the table.
  unfoldable pub expire_from : List Flow → FlowTable Tree → ℕ → ℕ → List Flow × FlowTable Tree
  expire_from [] ft now_usec room = ([], ft)
  expire_from (f ∷ fs) ft now_usec zero = ([], ft)
  expire_from (f ∷ fs) ft now_usec (suc room) =
      let taken = record ft {
        tree = remove ft.tree f.key;
        num_flows = ft.num_flows - 1;
        flows_expired = ft.flows_expired +64 1;
      } in
      let rest = expire_from fs taken now_usec room in
      let gone : List Flow × FlowTable Tree = (f ∷ rest.0, rest.1) in
      let kept = expire_from fs ft now_usec (suc room) in
      if is_stale ft now_usec f then gone else kept

  unfoldable pub expire : FlowTable Tree → ℕ → ℕ → List Flow × FlowTable Tree
  unfolding expire_from
  expire ft now_usec max_out = expire_from (to_list ft.tree) ft now_usec max_out

  unfoldable pub count : FlowTable Tree → ℕ
  count ft = ft.num_flows

  -- The loop of `ps_flow_table_snapshot`, by the room left in `out`.
  unfoldable pub snapshot_from : List Flow → ℕ → ℕ → List Flow
  snapshot_from [] last_export_usec room = []
  snapshot_from (f ∷ fs) last_export_usec zero = []
  snapshot_from (f ∷ fs) last_export_usec (suc room) =
      let copied = f ∷ snapshot_from fs last_export_usec room in
      let skipped = snapshot_from fs last_export_usec (suc room) in
      if ltb last_export_usec f.flow_last then copied else skipped

  unfoldable pub snapshot : FlowTable Tree → ℕ → ℕ → List Flow
  unfolding snapshot_from
  snapshot ft last_export_usec max_out = snapshot_from (to_list ft.tree) last_export_usec max_out
