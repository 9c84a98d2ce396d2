-- ===== src/Flow/Tests.antt =====
-- Runs of src/agent/src/flow_tracker.c on a TCP conversation between 10.0.0.1 and 10.0.0.2.
use packetsonde.Prelude.{ℕ, ◌+◌, ◌≡◌, ◌≢◌, refl, arith, true, List, [], ◌∷◌, ◌++◌, replicate, take}
use packetsonde.Prelude.Int.{pos}
use packetsonde.Wire.{ok, read_u16_be, bytes}
use packetsonde.Flow.Frame.{
  ParsedPacket, zero_packet, parse_transport, ipv4_fields, parse_ipv4, parse_payload,
  parse_ethernet,
}
use packetsonde.Wire.Safe.{IsBytes, Ensures}
use packetsonde.Flow.Frame.Accept.{IsAccepted}
use packetsonde.Flow.Frame.Whole.{parse_ethernet-Ensures}
use packetsonde.Flow.Key.{forward, reverse, make_flow_key}
use packetsonde.Flow.Key.Canonical.{swapped, opposite, IsLoop, make_flow_key-swapped}
use packetsonde.Flow.Key.Apart.{IsSameWay, make_flow_key-apart}
use packetsonde.Flow.Tree.{Flow}
use packetsonde.Flow.Tree.ListTree.{list_tree}
use packetsonde.Flow.Table.{
  FlowTable, fresh, create, touch, new_flow, crashed, process_packet, expire, is_stale,
}
use packetsonde.Flow.Table.Entries.{packets_in}
use packetsonde.Flow.Table.Invariant.{flows, IsValid, Balanced, Keeps}
use packetsonde.Flow.Table.Process.{process_packet-Keeps}
use packetsonde.Flow.Table.Expiry.{select, erase_all, expire-Keeps}
use packetsonde.Flow.Table.Trace.{Event, frame, sweep, run, create-run-Keeps}

-- Ethernet, IPv4 and TCP headers.
abbrev segment : ℕ → ℕ → ℕ → ℕ → ℕ → List ℕ
segment src dst src_port dst_port flags =
    replicate 12 0
    ++ (8 ∷ 0 ∷ [])
    ++ (69 ∷ 0 ∷ 0 ∷ 40 ∷ 0 ∷ 0 ∷ 0 ∷ 0 ∷ 64 ∷ 6 ∷ 0 ∷ 0 ∷ 10 ∷ 0 ∷ 0 ∷ src ∷ 10 ∷ 0 ∷ 0 ∷ dst ∷ [])
    ++ (0 ∷ src_port ∷ 0 ∷ dst_port ∷ [])
    ++ replicate 8 0
    ++ (80 ∷ flags ∷ 0 ∷ 0 ∷ 0 ∷ 0 ∷ 0 ∷ 0 ∷ [])

abbrev request : List ℕ
request = segment 1 2 200 80 2

abbrev response : List ℕ
response = segment 2 1 80 200 18

abbrev parsed : ParsedPacket
parsed = record zero_packet {
  af = 2;
  proto = 6;
  src_addr = 10 ∷ 0 ∷ 0 ∷ 1 ∷ replicate 12 0;
  dst_addr = 10 ∷ 0 ∷ 0 ∷ 2 ∷ replicate 12 0;
  src_port = 200;
  dst_port = 80;
  tcp_flags = 2;
  payload_len = 40;
  valid = true;
}

abbrev table : FlowTable (List Flow)
table = fresh list_tree (pos 4) 3

parse_ethernet-request : parse_ethernet request 54 ≡ ok parsed
unfolding parse_ethernet read_u16_be parse_payload parse_ipv4 ipv4_fields bytes parse_transport
parse_ethernet-request = refl

request-IsBytes : IsBytes request
request-IsBytes = omega arith

response-IsBytes : IsBytes response
response-IsBytes = omega arith

parse_ethernet-Ensures_example : Ensures (IsAccepted 54) (parse_ethernet request 54)
parse_ethernet-Ensures_example = parse_ethernet-Ensures request 54 request-IsBytes (omega arith)

make_flow_key-swapped_example :
    make_flow_key (swapped parsed) 3
    ≡ ((make_flow_key parsed 3).0, opposite (make_flow_key parsed 3).1)
make_flow_key-swapped_example =
    make_flow_key-swapped parsed 3 λ (loop : IsLoop parsed). absurd (omega (arith, loop.1))

abbrev to_itself : ParsedPacket
to_itself = record parsed { dst_addr = parsed.src_addr; dst_port = 200 }

make_flow_key-apart_example : IsSameWay parsed (swapped (swapped parsed))
unfolding make_flow_key
make_flow_key-apart_example =
    make_flow_key-apart parsed (swapped parsed) 3 (omega arith) (refl, refl) (refl, refl) refl

table-Keeps : Keeps list_tree 0 table
unfolding fresh
table-Keeps = (record { distinct = tt; num_flows_is = refl; bounded = omega arith }, refl)

process_packet-Keeps_example :
    ((process_packet list_tree table true request 54 9).0 ≢ crashed)
    × Keeps list_tree 0 (process_packet list_tree table true request 54 9).1
process_packet-Keeps_example =
    process_packet-Keeps list_tree table request 54 9 0 request-IsBytes (omega arith) table-Keeps

abbrev tracking : FlowTable (List Flow)
tracking = (process_packet list_tree table true request 54 9).1

expire-Keeps_example :
    ((expire list_tree tracking 90000000000 3).0
      ≡ take 3 (select (is_stale tracking 90000000000) (flows list_tree tracking)))
    × (flows list_tree (expire list_tree tracking 90000000000 3).1
        ≡ erase_all (expire list_tree tracking 90000000000 3).0 (flows list_tree tracking))
    × Keeps list_tree
        (0 + packets_in (expire list_tree tracking 90000000000 3).0)
        (expire list_tree tracking 90000000000 3).1
expire-Keeps_example =
    expire-Keeps list_tree tracking 90000000000 3 0 process_packet-Keeps_example.1

abbrev first_flow : Flow
first_flow = new_flow (make_flow_key parsed 3).0 parsed forward 9

abbrev closed_flow : Flow
closed_flow = touch first_flow (record parsed { tcp_flags = 17 }) reverse 10

abbrev capture : List Event
capture = frame request 54 9 ∷ frame response 54 10 ∷ sweep 90000000000 5 ∷ frame request 54 11 ∷ []

create-run-Keeps_example :
    IsValid list_tree (run list_tree 0 table capture).1
    × Balanced list_tree (run list_tree 0 table capture).1 (run list_tree 0 table capture).0
unfolding create
create-run-Keeps_example = create-run-Keeps list_tree (pos 4) 3 capture refl (
  request-IsBytes,
  omega arith,
  (response-IsBytes, omega arith, (request-IsBytes, omega arith, tt)),
)
