-- ===== src/Listeners/Mld.antt =====
-- src/agent/src/modules/mld_listener.c: who listens to which IPv6 group. `ntop` is `inet_ntop` of an
-- IPv6 address. The walk over the extension headers may go on for ever, so it is run by rounds, and
-- `none` says that they were used up.
pub mod Walk
pub mod Safe
pub mod Whole
use packetsonde.Prelude.{
  ℕ, zero, suc, ◌+◌, ◌-◌, ◌*◌, ◌/◌, ◌%◌, ◌^◌, Bool, not, ◌&&◌, ◌||◌, Option, none, some, List, [],
  ◌∷◌, ◌++◌, ltb, leb, ◌==◌, if◌then◌else◌, length, drop, ascii,
}
use packetsonde.Wire.{Parse, ok, reject, fault, ◌>>=◌, byte, bytes, read_u16_be, return_if}
use packetsonde.Json.Writer.{Json, init, object_begin, object_end, key_string}
use packetsonde.Listeners.{Event, publish}

-- `struct mld_state` without the interface; a handle is an `int`, here as its 32-bit word.
pub record MldState : Type 0 where
  pub pcap_handle : ℕ
  pub packets_seen : ℕ
  pub events_published : ℕ

-- What `publish_mld_event` is called with.
pub record Membership : Type 0 where
  pub group : List ℕ
  pub source_ip : List ℕ
  pub type_str : List ℕ

unfoldable pub is_extension : ℕ → Bool
is_extension next_hdr = next_hdr == 0 || next_hdr == 60 || next_hdr == 43 || next_hdr == 44

-- `uint8_t ext_len = (cur[1] + 1) * 8`
abbrev pub ext_bytes : ℕ → ℕ
ext_bytes len_byte = (len_byte + 1) * 8 % 2 ^ 8

-- The `while` loop: the protocol and the offset it stops at.
unfoldable pub walk_headers : ℕ → List ℕ → ℕ → ℕ → Parse (Option (ℕ × ℕ))
unfolding is_extension
walk_headers zero ip6 next_hdr cur =
    if not (next_hdr == 58) && leb 8 (length ip6 - cur) then ok none else ok (some (next_hdr, cur))
walk_headers (suc rounds) ip6 next_hdr cur =
    let more = (do
      len_byte ← byte (drop cur ip6) 1
      _ ← return_if (ltb (length ip6 - cur) (ext_bytes len_byte))
      next ← byte (drop cur ip6) 0
      walk_headers rounds ip6 next (cur + ext_bytes len_byte)) in
    if not (next_hdr == 58) && leb 8 (length ip6 - cur)
    then (if is_extension next_hdr then more else reject)
    else ok (some (next_hdr, cur))

abbrev pub type_name : ℕ → List ℕ
type_name mld_type =
    if mld_type == 130
    then ascii "query"
    else if mld_type == 131
    then ascii "report"
    else ascii "done"

-- The loop over the records of an MLDv2 report. No more than 2^21 is added to an offset inside the
-- packet, so that the sums do not wrap.
unfoldable pub read_records : (List ℕ → List ℕ) → List ℕ → List ℕ → ℕ → ℕ → Parse (List Membership)
read_records ntop source_ip icmp6 zero off = ok []
read_records ntop source_ip icmp6 (suc left) off =
    let more = (do
      aux_data_len ← byte icmp6 (off + 1)
      num_sources ← read_u16_be (drop (off + 2) icmp6)
      mcast ← bytes icmp6 (off + 4) 16
      let next = off + (20 + num_sources * 16 + aux_data_len * 4)
      rest ← read_records ntop source_ip icmp6 left next
      ok (
          record { group = ntop mcast; source_ip = source_ip; type_str = ascii "v2report" }
          ∷ rest)) in
    if ltb (length icmp6) (off + 20) then ok [] else more

unfoldable pub read_icmp6 : (List ℕ → List ℕ) → List ℕ → List ℕ → Parse (List Membership)
unfolding read_records
read_icmp6 ntop source_ip icmp6 = do
  mld_type ← byte icmp6 0
  if mld_type == 130 || mld_type == 131 || mld_type == 132
      then (do
        _ ← return_if (ltb (length icmp6) 24)
        group ← bytes icmp6 8 16
        ok (
            record { group = ntop group; source_ip = source_ip; type_str = type_name mld_type }
            ∷ []))
      else if mld_type == 143
      then (do
        _ ← return_if (ltb (length icmp6) 10)
        num_records ← read_u16_be (drop 6 icmp6)
        read_records ntop source_ip icmp6 num_records 8)
      else reject

-- What follows the walk.
unfoldable pub after_walk :
    (List ℕ → List ℕ) → List ℕ → List ℕ → Option (ℕ × ℕ) → Parse (Option (List Membership))
unfolding read_icmp6
after_walk ntop source_ip ip6 none = ok none
after_walk ntop source_ip ip6 (some (next_hdr, cur)) = do
  _ ← return_if (not (next_hdr == 58) || ltb (length ip6 - cur) 1)
  ms ← read_icmp6 ntop source_ip (drop cur ip6)
  ok (some ms)

-- The checks of the handler, in its order, and what it publishes.
unfoldable pub read_mld : (List ℕ → List ℕ) → ℕ → List ℕ → Parse (Option (List Membership))
unfolding walk_headers after_walk
read_mld ntop rounds pkt = do
  _ ← return_if (ltb (length pkt) 55)
  ethertype ← read_u16_be (drop 12 pkt)
  _ ← return_if (not (ethertype == 0x86DD))
  let ip6 = drop 14 pkt
  version ← byte ip6 0
  _ ← return_if (not (version / 16 == 6))
  src ← bytes ip6 8 16
  next_hdr ← byte ip6 6
  found ← walk_headers rounds ip6 next_hdr 40
  after_walk ntop (ntop src) ip6 found

unfoldable pub membership_json : List ℕ → Membership → Json
membership_json iface m =
    let j = object_begin (init 256) in
    let j1 = key_string j (ascii "group") m.group in
    let j2 = key_string j1 (ascii "source_ip") m.source_ip in
    let j3 = key_string j2 (ascii "type") m.type_str in
    let j4 = key_string j3 (ascii "interface") iface in object_end j4

-- An event is counted when it is published.
abbrev pub count_event : MldState → List Event → Parse Event → MldState × List Event
count_event st es (ok e) =
    (record st { events_published = (st.events_published + 1) % 2 ^ 64 }, es ++ e ∷ [])
count_event st es reject = (st, es)
count_event st es fault = (st, es)

unfoldable pub publish_mld_event :
    List ℕ → Membership → MldState × List Event → MldState × List Event
unfolding membership_json
publish_mld_event iface m (st, es) =
    count_event st es (publish (ascii "discovery.mld") (membership_json iface m))

unfoldable pub publish_all :
    List ℕ → List Membership → MldState × List Event → MldState × List Event
unfolding publish_mld_event
publish_all iface [] r = r
publish_all iface (m ∷ ms) r = publish_all iface ms (publish_mld_event iface m r)

-- `none`: the rounds were used up.
unfoldable pub hear :
    List ℕ → MldState → Parse (Option (List Membership)) → Parse (Option (MldState × List Event))
unfolding publish_all
hear iface st (ok none) = ok none
hear iface st (ok (some ms)) = ok (some (publish_all iface ms (st, [])))
hear iface st reject = ok (some (st, []))
hear iface st fault = fault

unfoldable pub mld_on_packet :
    (List ℕ → List ℕ) → List ℕ → ℕ → MldState → List ℕ → ℕ → Parse (Option (MldState × List Event))
unfolding read_mld hear
mld_on_packet ntop iface rounds st pkt handle_id =
    if not (handle_id == st.pcap_handle)
    then ok (some (st, []))
    else hear iface (record st { packets_seen = (st.packets_seen + 1) % 2 ^ 64 })
        (read_mld ntop rounds pkt)
