-- ===== src/Lib.antt =====
-- packetsonde observes a network and the hosts on it. An agent captures frames and follows flows,
-- a kernel agent watches processes, and a command line drives both and reports.
--
-- What is modelled, by file of this library and path in the repository:
--
-- - Flow: src/agent/src/flow_tracker.c. Flow/Frame is the packet parser (`parse_ethernet` and
--   what it calls), Flow/Key is `make_flow_key`, Flow/Tree the flows and the tree that keeps
--   them, and Flow/Table the table with `ps_flow_table_create`, `_process_packet`, `_expire`,
--   `_count`, `_snapshot` and, in Flow/Table/Destroy, `_destroy`. The capture loop feeds frames
--   to the table, and the exporter sweeps it. A call takes the table and returns it; `Trace.run`
--   is a sequence of such calls.
-- - ObsQueue: src/agent/src/obs_queue.c, the queue of findings that wait for the connection to
--   central. `init`, `push`, `drain` and `count` are the functions `ps_obs_queue_*`,
--   `build_event` is `ps_obs_build_event`, and ObsQueue/Events has the lines of `ctx_publish` in
--   src/agent/src/main.c that fill the queue with what the listeners publish.
-- - ActivityRing: src/kernel/src/activity_ring.c, which copies each activity record to every
--   registered consumer. Its functions are `ps_act_ring_*`.
-- - AgentProto: src/lib/agent_proto.c, frames of JSON between agent and command line.
--   `read_frame` and `write_frame` are `ps_ap_read_frame` and `ps_ap_write_frame`; the callbacks
--   of `struct ps_ap_io` are the parameter `ApIo` with a state of their own.
-- - Json: src/lib/json.c (Json/Writer), without floating point, and src/lib/json_extract.c, its
--   strings in Json/Extract and its integers in Json/Numbers. Json/Words, Prints, Objects and
--   Sizes are about the text written, Decode, RoundTrip, Skips, Passes and Fields about reading
--   it back.
-- - HostTable: src/agent/src/host_table.c without its JSON printers. `update` is
--   `ps_host_table_update`; HostTable/Slots has the lemmas on slots, Notes what is written into
--   an entry, Lookups what is found, and Invariant what a call does.
-- - Paths and Policy: the path prefixes and the evaluation of a unit's sandbox in
--   src/lib/policy_eval.c; `policy_eval` is `ps_policy_eval`.
-- - Baseline: src/lib/baseline_set.c (`add` and `covered` are `ps_blset_add` and
--   `ps_blset_covered`) and src/lib/baseline_decide.c (`decide` is `ps_baseline_decide`).
--   Baseline/Rollup is `ps_blset_rollup`, Baseline/JsonText the JSON of a set. Cuts has `strchr`
--   and `strrchr`.
-- - Suppress: src/lib/suppress.c; `suppress_match` is `ps_suppress_match`.
-- - Ulid: src/lib/ulid.c. `new` is `ps_ulid_new`, with the clock and /dev/urandom as arguments.
-- - Wire has the reads that all packet parsers share (`byte`, `bytes`, `read_u16_be`, ...),
--   Wire/Safe the steps of a proof that they stay inside the packet.
-- - Listeners: the passive listeners of src/agent/src/modules, a child for each file:
--   stp_listener.c (`stp_on_packet`), vrrp_listener.c, ospf_listener.c, lldp_listener.c,
--   cdp_listener.c, mld_listener.c and dns_listener.c (Dns the names, Dns/Message the sections,
--   Dns/Publish the text, Dns/Quotes, Dns/Adds and Dns/Unclosed its quotes). A handler takes the
--   interface name, its counters if it has any, and the bytes of the frame, and gives what it
--   hands to `ctx->publish`. Listeners/Ipv4, Plain and Texts have what they share; Json/Objects
--   and Json/Sizes say what the JSON writer makes of an object.
-- - Demux: src/agent/src/capture/protocol_demux.c, `dispatch` being `ps_demux_dispatch`.
--   Demux/Fields is about the decoder, Demux/Names about handlers by name, Demux/Calls and
--   Demux/Udp about the calls.
-- - PtrCache: src/lib/ptr_cache.c, the cache of reverse lookups. A step of `Reach` is what one
--   thread does between taking the lock and releasing it. PtrCache/Slots is about the array,
--   Valid the invariant, Live and Wait what callers are told.
-- - DestMatch: src/lib/dest_match.c, `dest_match` and `generalize` being `ps_dest_match` and
--   `ps_dest_generalize`; `sscanf` and `atoi` are arguments. DestMatch/Texts is about texts cut
--   at a byte, Forms and Cidr about the entries made of an address, Approve about `decide_dest`,
--   the `ps_baseline_decide_dest` of src/lib/baseline_decide.c, on entries that were approved.
-- - Provenance: src/lib/provenance.c, `classify` being `ps_provenance_classify` with the returned
--   name as a `Trigger`. Provenance/Roots is about the lists of roots. The record of an event is
--   not modelled.
-- - FailOn: src/cli/util/fail_on.c, `emit_raw_jsonl` of src/cli/output/output.c with its
--   counters, and the exit status at the end of src/cli/main.c. The calls of `write_all` are a
--   list; their results are not looked at. FailOn/Exits is about the exit status. The text of a
--   finding is not modelled.
-- - AgentProto/Scan: the scanners of src/lib/agent_proto.c, `ap_frame_type` and
--   `hello_recipe_schema` being `ps_ap_frame_type` and `ps_ap_hello_recipe_schema`; a pointer
--   into the payload is the rest of the text. Scan/Skips is about values passed over, Scan/Types
--   about the type of an object.
-- - Ring and Recent have what the two ring buffers share: the window of a ring as a list, and the
--   bounded list that forgets its oldest items.
--
-- Buffers are lists of bytes, and a read behind the end of one is a result of its own (`fault`),
-- so that its absence is proved and not assumed. Counters of type `uint64_t` wrap. The loop over
-- IPv6 extension headers has the source's own bound of ten rounds; loops that fill an array
-- recurse on the room left in it, and so they need no fuel. The loops of AgentProto get a round
-- for each byte asked for, the reader of strings one for each byte of the text, and Suppress,
-- Provenance, Baseline/JsonText and AgentProto/Scan one for each byte of the list or the text;
-- the walks over TLVs in Listeners get one for each byte of the frame, and a DNS name a pass of
-- the message for each of the ten pointers allowed; using them up is a `fault`. The theorems are
-- of results, so that these rounds are proved enough. Only the walk over extension headers in
-- mld_listener.c may need more than any number of rounds.
--
-- The red-black tree of src/agent/src/compat/tree.h is vendored code: `FlowTree` is what the
-- tracker calls of it, with each call's effect on the order of the nodes, and Flow/Tree/ListTree
-- is one tree that meets it. Allocation is an argument of the calls that allocate. Locks are not
-- modelled, since each function of the queue and of the rings holds its lock from its first
-- access to its last.
--
-- Not modelled are the traffic itself (sockets, capture, TLS, the event loops), the probes and
-- audits, which are conversations with remote hosts, and the command line's verbs, which are
-- mostly input and output. Not modelled either, for their size, are the recipe language of
-- src/lib/recipe_parse.c and src/lib/recipe_engine.c, the NetFlow exporter, the profiles of
-- processes and the sandboxes made of them, the parsers of /proc, and the other listeners; and,
-- of files that are modelled, the printers of floating point in src/lib/json.c, the text of
-- findings, provenance records and the host table, and what starts and stops a listener, which
-- allocates, reads the environment and frees.
pub mod Prelude
pub mod Ring
pub mod Recent
pub mod ObsQueue
pub mod ActivityRing
pub mod Flow
pub mod AgentProto
pub mod Baseline
pub mod Cuts
pub mod Demux
pub mod DestMatch
pub mod FailOn
pub mod HostTable
pub mod Json
pub mod Listeners
pub mod Paths
pub mod Policy
pub mod Provenance
pub mod PtrCache
pub mod Suppress
pub mod Ulid
pub mod Wire
