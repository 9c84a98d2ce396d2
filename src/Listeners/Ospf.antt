-- ===== src/Listeners/Ospf.antt =====
-- src/agent/src/modules/ospf_listener.c: Hello packets of routers. `ntop` is `inet_ntop` of an IPv4
-- address.
pub mod Safe
use packetsonde.Prelude.{
  ℕ, zero, suc, ◌+◌, ◌-◌, ◌*◌, ◌/◌, ◌%◌, ◌^◌, not, List, [], ◌∷◌, ◌++◌, ltb, leb, ◌==◌,
  if◌then◌else◌, length, drop, ascii,
}
use packetsonde.Prelude.Int.{pos}
use packetsonde.Wire.{Parse, ok, ◌>>=◌, byte, bytes, read_u16_be, read_u32_be, return_if}
use packetsonde.Json.Writer.{
  Json, init, object_begin, object_end, key_string, key_int, array_begin, array_strings, array_end,
  decimal,
}
use packetsonde.Listeners.{Event, publish, ipv4_for}

pub record Hello : Type 0 where
  pub router_id : List ℕ
  pub area_id : List ℕ
  pub netmask : List ℕ
  pub hello_interval : ℕ
  pub dead_interval : ℕ
  pub dr : List ℕ
  pub bdr : List ℕ
  pub neighbors : List (List ℕ)

unfoldable pub ip32_to_str : List ℕ → Parse (List ℕ)
unfolding decimal
ip32_to_str ip4 = do
  b0 ← byte ip4 0
  b1 ← byte ip4 1
  b2 ← byte ip4 2
  b3 ← byte ip4 3
  ok (
      ((decimal (pos b0) ++ 46 ∷ []) ++ (decimal (pos b1) ++ 46 ∷ []))
      ++ ((decimal (pos b2) ++ 46 ∷ []) ++ decimal (pos b3)))

-- The loop over the neighbours, by the slots left of `MAX_NEIGHBORS`.
unfoldable pub read_neighbors : List ℕ → ℕ → ℕ → ℕ → Parse (List (List ℕ))
unfolding ip32_to_str
read_neighbors hello hello_avail zero nbr_off = ok []
read_neighbors hello hello_avail (suc slots) nbr_off =
    let more = (do
      neighbor ← ip32_to_str (drop nbr_off hello)
      rest ← read_neighbors hello hello_avail slots (nbr_off + 4)
      ok (neighbor ∷ rest)) in
    if leb (nbr_off + 4) hello_avail then more else ok []

unfoldable pub ospf_ip : List ℕ → Parse (List ℕ × ℕ)
unfolding ipv4_for
ospf_ip = ipv4_for 89 24

unfoldable pub read_hello : List ℕ → Parse Hello
unfolding ospf_ip ip32_to_str read_neighbors
read_hello pkt = do
  (src, ihl) ← ospf_ip pkt
  let ospf = drop (14 + ihl) pkt
  ospf_type ← byte ospf 1
  _ ← return_if (not (ospf_type == 1))
  router_id ← ip32_to_str (drop 4 ospf)
  area_id ← ip32_to_str (drop 8 ospf)
  let hello = drop 24 ospf
  let hello_avail = length pkt - (14 + ihl + 24)
  _ ← return_if (ltb hello_avail 20)
  netmask ← ip32_to_str hello
  hello_interval ← read_u16_be (drop 4 hello)
  dead_interval ← read_u32_be (drop 8 hello)
  dr ← ip32_to_str (drop 12 hello)
  bdr ← ip32_to_str (drop 16 hello)
  neighbors ← read_neighbors hello hello_avail 32 20
  ok (record {
    router_id = router_id;
    area_id = area_id;
    netmask = netmask;
    hello_interval = hello_interval;
    dead_interval = dead_interval;
    dr = dr;
    bdr = bdr;
    neighbors = neighbors;
  })

unfoldable pub hello_json : List ℕ → Hello → Json
hello_json iface h =
    let j = object_begin (init 2048) in
    let j1 = key_string j (ascii "type") (ascii "ospf_hello") in
    let j2 = key_string j1 (ascii "router_id") h.router_id in
    let j3 = key_string j2 (ascii "area_id") h.area_id in
    let j4 = key_string j3 (ascii "network_mask") h.netmask in
    let j5 = key_int j4 (ascii "hello_interval") (pos h.hello_interval) in
    let j6 = key_int j5 (ascii "dead_interval") (pos h.dead_interval) in
    let j7 = key_string j6 (ascii "dr") h.dr in
    let j8 = key_string j7 (ascii "bdr") h.bdr in
    let j9 = array_end (array_strings (array_begin j8 (ascii "neighbors")) h.neighbors) in
    let j10 = key_string j9 (ascii "interface") iface in object_end j10

unfoldable pub ospf_on_packet : List ℕ → List ℕ → Parse Event
unfolding read_hello hello_json
ospf_on_packet iface pkt =
    read_hello pkt >>= λ h. publish (ascii "discovery.ospf") (hello_json iface h)
