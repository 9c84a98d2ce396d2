-- ===== src/Flow/Key.antt =====
-- `make_flow_key` of src/agent/src/flow_tracker.c: both directions of a conversation get one key.
pub mod Compare
pub mod Canonical
pub mod Apart
use packetsonde.Prelude.{
  ℕ, zero, suc, ◌-◌, Bool, true, false, ◌&&◌, ◌||◌, List, [], ◌∷◌, ◌++◌, ltb, leb, ◌==◌,
  if◌then◌else◌, take, replicate,
}
use packetsonde.Flow.Frame.{ParsedPacket, af_inet}

-- The sign of what `memcmp` returns.
pub data Sign : Type 0 where
  negative same positive : Sign

-- `memcmp(a, b, n)`, on arrays of at least `n` bytes.
unfoldable pub memcmp : ℕ → List ℕ → List ℕ → Sign
memcmp zero a b = same
memcmp (suc n) [] b = same
memcmp (suc n) (x ∷ a) [] = same
memcmp (suc n) (x ∷ a) (y ∷ b) =
    let rest = memcmp n a b in if ltb x y then negative else if ltb y x then positive else rest

pub record FlowKey : Type 0 where
  pub af : ℕ
  pub proto : ℕ
  pub src_addr : List ℕ
  pub dst_addr : List ℕ
  pub src_port : ℕ
  pub dst_port : ℕ
  pub vlan_id : ℕ
  pub tos : ℕ

-- The array slot of a direction: `[0]` counts forward packets and `[1]` reverse ones.
pub data Direction : Type 0 where
  forward reverse : Direction

abbrev pub addr_len : ParsedPacket → ℕ
addr_len pp = if pp.af == af_inet then 4 else 16

-- `memcmp` decides the order, then the ports: does the packet stand in canonical order?
unfoldable pub is_forward : Sign → ℕ → ℕ → Bool
is_forward negative src_port dst_port = true
is_forward same src_port dst_port = leb src_port dst_port
is_forward positive src_port dst_port = false

-- `memcpy(_, addr, n)` into an address of the zeroed key.
abbrev pub padded : ℕ → List ℕ → List ℕ
padded n addr = take n addr ++ replicate (16 - n) 0

-- What the key has before the ends are put in order. The levels are `PS_TRACK_IP_PROTO` 1,
-- `PS_TRACK_IP_PROTO_PORT` 2, `PS_TRACK_FULL` 3 and `PS_TRACK_FULL_VLAN` 4.
abbrev pub base_key : ParsedPacket → ℕ → FlowKey
base_key pp track_level = record {
  af = pp.af;
  proto = if leb 1 track_level then pp.proto else 0;
  src_addr = replicate 16 0;
  dst_addr = replicate 16 0;
  src_port = 0;
  dst_port = 0;
  vlan_id = if leb 4 track_level then pp.vlan_id else 0;
  tos = if leb 3 track_level then pp.tos else 0;
}

-- The two ends of the key: addresses of `n` bytes, and the ports if they are tracked.
abbrev pub with_ends : FlowKey → ℕ → ℕ → List ℕ → List ℕ → ℕ → ℕ → FlowKey
with_ends key track_level n src dst src_port dst_port = record key {
  src_addr = padded n src;
  dst_addr = padded n dst;
  src_port = if leb 2 track_level then src_port else 0;
  dst_port = if leb 2 track_level then dst_port else 0;
}

unfoldable pub make_flow_key : ParsedPacket → ℕ → FlowKey × Direction
unfolding memcmp is_forward
make_flow_key pp track_level =
    let key = base_key pp track_level in
    let n = addr_len pp in
    if is_forward (memcmp n pp.src_addr pp.dst_addr) pp.src_port pp.dst_port
    then (with_ends key track_level n pp.src_addr pp.dst_addr pp.src_port pp.dst_port, forward)
    else (with_ends key track_level n pp.dst_addr pp.src_addr pp.dst_port pp.src_port, reverse)
