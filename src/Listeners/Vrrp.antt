-- ===== src/Listeners/Vrrp.antt =====
-- src/agent/src/modules/vrrp_listener.c: announcements of virtual routers. `ntop` is `inet_ntop` of
-- an IPv4 address.
pub mod Safe
use packetsonde.Prelude.{
  ℕ, zero, suc, ◌+◌, ◌-◌, ◌*◌, ◌/◌, ◌%◌, ◌^◌, List, [], ◌∷◌, ltb, if◌then◌else◌, length, drop,
  ascii,
}
use packetsonde.Prelude.Int.{pos}
use packetsonde.Wire.{Parse, ok, ◌>>=◌, byte, bytes, return_if}
use packetsonde.Json.Writer.{
  Json, init, object_begin, object_end, key_string, key_int, array_begin, array_strings, array_end,
}
use packetsonde.Listeners.{Event, publish, ipv4_for}

pub record Advert : Type 0 where
  pub src_ip : List ℕ
  pub version : ℕ
  pub vrid : ℕ
  pub priority : ℕ
  pub adv_interval : ℕ
  pub vips : List (List ℕ)

-- As many addresses as are announced, as the packet has room for, and at most 16.
unfoldable pub clamp_ips : ℕ → ℕ → ℕ
clamp_ips count_ips vrrp_avail =
    let count =
      if ltb vrrp_avail (8 + count_ips * 4) then (vrrp_avail - 8) / 4 % 2 ^ 8 else count_ips in
    if ltb 16 count then 16 else count

-- `n` addresses from `vip_off` on.
unfoldable pub read_vips : (List ℕ → List ℕ) → List ℕ → ℕ → ℕ → Parse (List (List ℕ))
read_vips ntop vrrp zero vip_off = ok []
read_vips ntop vrrp (suc n) vip_off = do
  vip ← bytes vrrp vip_off 4
  rest ← read_vips ntop vrrp n (vip_off + 4)
  ok (ntop vip ∷ rest)

unfoldable pub vrrp_ip : List ℕ → Parse (List ℕ × ℕ)
unfolding ipv4_for
vrrp_ip = ipv4_for 112 8

unfoldable pub read_advert : (List ℕ → List ℕ) → List ℕ → Parse Advert
unfolding vrrp_ip clamp_ips read_vips
read_advert ntop pkt = do
  (src, ihl) ← vrrp_ip pkt
  let vrrp = drop (14 + ihl) pkt
  ver_type ← byte vrrp 0
  vrid ← byte vrrp 1
  priority ← byte vrrp 2
  count_ips ← byte vrrp 3
  adv_interval ← byte vrrp 5
  let vrrp_avail = length pkt - (14 + ihl)
  vips ← read_vips ntop vrrp (clamp_ips count_ips vrrp_avail) 8
  ok (record {
    src_ip = ntop src;
    version = ver_type / 16;
    vrid = vrid;
    priority = priority;
    adv_interval = adv_interval;
    vips = vips;
  })

unfoldable pub advert_json : List ℕ → Advert → Json
advert_json iface a =
    let j = object_begin (init 2048) in
    let j1 = key_string j (ascii "type") (ascii "vrrp") in
    let j2 = key_string j1 (ascii "src_ip") a.src_ip in
    let j3 = key_int j2 (ascii "version") (pos a.version) in
    let j4 = key_int j3 (ascii "vrid") (pos a.vrid) in
    let j5 = key_int j4 (ascii "priority") (pos a.priority) in
    let j6 = array_end (array_strings (array_begin j5 (ascii "virtual_ips")) a.vips) in
    let j7 = key_int j6 (ascii "adv_interval") (pos a.adv_interval) in
    let j8 = key_string j7 (ascii "interface") iface in object_end j8

unfoldable pub vrrp_on_packet : (List ℕ → List ℕ) → List ℕ → List ℕ → Parse Event
unfolding read_advert advert_json
vrrp_on_packet ntop iface pkt =
    read_advert ntop pkt >>= λ a. publish (ascii "discovery.vrrp") (advert_json iface a)
