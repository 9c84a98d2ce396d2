-- ===== src/Demux.antt =====
-- src/agent/src/capture/protocol_demux.c: the table of handlers and the dispatch of frames to them.
-- A handler and its userdata are addresses. What `ps_demux_dispatch` does is the list of its calls,
-- in order; `reject` is its early return. The handlers are taken to leave the table alone.
pub mod Fields
pub mod Names
pub mod Calls
pub mod Udp
mod Tests
use packetsonde.Prelude.{
  ℕ, zero, suc, ◌+◌, ◌*◌, ◌%◌, Bool, true, false, not, ◌&&◌, Option, none, some, List, [], ◌∷◌,
  ◌++◌, ltb, leb, ◌==◌, if◌then◌else◌, length, take, drop,
}
use packetsonde.Prelude.Int.{ℤ, pos, negsuc}
use packetsonde.Wire.{Parse, ok, reject, fault, ◌>>=◌, byte, read_u16_be, return_if}

pub data MatchType : Type 0 where
  ethertype ip_proto udp_port custom : MatchType

-- `match_fn` may be NULL; it is given the frame and its length.
pub record Entry : Type 0 where
  pub name : List ℕ
  pub match_type : MatchType
  pub match_value : ℕ
  pub match_fn : Option (List ℕ → Bool)
  pub handler : ℕ
  pub userdata : ℕ
  pub enabled : Bool

-- The array up to `count`.
pub record Demux : Type 0 where
  pub entries : List Entry

-- `PS_DEMUX_MAX_HANDLERS`
abbrev pub max_handlers : ℕ
max_handlers = 32

abbrev pub init : Demux
init = record { entries = [] }

-- The common part of both registrations. `strncpy` and the NUL behind it keep 63 bytes of a name.
abbrev pub enter : Demux → Entry → ℤ × Demux
enter dmx e =
    if leb max_handlers (length dmx.entries)
    then (negsuc 0, dmx)
    else (pos 0, record { entries = dmx.entries ++ record e { name = take 63 e.name } ∷ [] })

unfoldable pub register : Demux → List ℕ → MatchType → ℕ → ℕ → ℕ → ℤ × Demux
register dmx name match_type match_value handler userdata = enter dmx (record {
  name = name;
  match_type = match_type;
  match_value = match_value;
  match_fn = none;
  handler = handler;
  userdata = userdata;
  enabled = true;
})

unfoldable pub register_custom : Demux → List ℕ → Option (List ℕ → Bool) → ℕ → ℕ → ℤ × Demux
register_custom dmx name match_fn handler userdata = enter dmx (record {
  name = name;
  match_type = custom;
  match_value = 0;
  match_fn = match_fn;
  handler = handler;
  userdata = userdata;
  enabled = true;
})

-- `strncmp(a, b, n) == 0`
unfoldable pub same_first : ℕ → List ℕ → List ℕ → Bool
same_first zero a b = true
same_first (suc n) [] [] = true
same_first (suc n) [] (y ∷ b) = false
same_first (suc n) (x ∷ a) [] = false
same_first (suc n) (x ∷ a) (y ∷ b) = x == y && same_first n a b

-- The first entry of that name changes; `none` if there is no such entry.
abbrev pub prepend : Entry → Option (List Entry) → Option (List Entry)
prepend e none = none
prepend e (some es) = some (e ∷ es)

unfoldable pub set_first : List Entry → List ℕ → Bool → Option (List Entry)
unfolding same_first
set_first [] name enabled = none
set_first (e ∷ es) name enabled =
    if same_first 64 e.name name
    then some (record e { enabled = enabled } ∷ es)
    else prepend e (set_first es name enabled)

abbrev pub outcome : Demux → Option (List Entry) → ℤ × Demux
outcome dmx none = (negsuc 0, dmx)
outcome dmx (some es) = (pos 0, record { entries = es })

unfoldable pub set_enabled : Demux → List ℕ → Bool → ℤ × Demux
unfolding set_first
set_enabled dmx name enabled = outcome dmx (set_first dmx.entries name enabled)

unfoldable pub first_enabled : List Entry → List ℕ → Bool
unfolding same_first
first_enabled [] name = false
first_enabled (e ∷ es) name = if same_first 64 e.name name then e.enabled else first_enabled es name

unfoldable pub is_enabled : Demux → List ℕ → Bool
unfolding first_enabled
is_enabled dmx name = first_enabled dmx.entries name

-- `ethertype`, `ip_proto` and `udp_dstport`.
pub record Decoded : Type 0 where
  pub frame_type : ℕ
  pub proto : ℕ
  pub dstport : ℕ

-- The port of a UDP header at `udp_off`, or 0 if the frame ends before it.
unfoldable pub dstport_at : List ℕ → ℕ → Parse ℕ
dstport_at pkt udp_off =
    if leb (udp_off + 4) (length pkt) then read_u16_be (drop (udp_off + 2) pkt) else ok 0

unfoldable pub decode_ipv4 : List ℕ → Parse Decoded
unfolding dstport_at
decode_ipv4 pkt =
    if leb 24 (length pkt)
    then (do
      proto ← byte (drop 14 pkt) 9
      if proto == 17
          then (do
            first ← byte (drop 14 pkt) 0
            port ← dstport_at pkt (14 + first % 16 * 4)
            ok (record { frame_type = 2048; proto = proto; dstport = port }))
          else ok (record { frame_type = 2048; proto = proto; dstport = 0 }))
    else ok (record { frame_type = 2048; proto = 0; dstport = 0 })

unfoldable pub decode_ipv6 : List ℕ → Parse Decoded
unfolding dstport_at
decode_ipv6 pkt =
    if leb 21 (length pkt)
    then (do
      proto ← byte (drop 14 pkt) 6
      if proto == 17
          then (do
            port ← dstport_at pkt 54
            ok (record { frame_type = 34525; proto = proto; dstport = port }))
          else ok (record { frame_type = 34525; proto = proto; dstport = 0 }))
    else ok (record { frame_type = 34525; proto = 0; dstport = 0 })

unfoldable pub decode : List ℕ → Parse Decoded
unfolding decode_ipv4 decode_ipv6
decode pkt = do
  _ ← return_if (ltb (length pkt) 14)
  frame_type ← read_u16_be (drop 12 pkt)
  if frame_type == 2048
      then decode_ipv4 pkt
      else if frame_type == 34525
      then decode_ipv6 pkt
      else ok (record { frame_type = frame_type; proto = 0; dstport = 0 })

abbrev pub custom_matches : Option (List ℕ → Bool) → List ℕ → Bool
custom_matches none pkt = false
custom_matches (some f) pkt = f pkt

-- The `switch` over the kind of an entry, with its casts.
unfoldable pub matches : MatchType → Entry → List ℕ → Decoded → Bool
matches ethertype e pkt d = d.frame_type == e.match_value % 65536
matches ip_proto e pkt d = not (d.proto == 0) && d.proto == e.match_value % 256
matches udp_port e pkt d = not (d.dstport == 0) && d.dstport == e.match_value % 65536
matches custom e pkt d = custom_matches e.match_fn pkt

-- A call of a handler.
pub record Call : Type 0 where
  pub callee : ℕ
  pub pkt : List ℕ
  pub ts_usec : ℕ
  pub handle_id : ℕ
  pub argument : ℕ

-- The loop over the table, for one frame.
module _ (pkt : List ℕ) (ts_usec : ℕ) (handle_id : ℕ) where
  abbrev pub call_of : Entry → Call
  call_of e = record {
    callee = e.handler;
    pkt = pkt;
    ts_usec = ts_usec;
    handle_id = handle_id;
    argument = e.userdata;
  }

  unfoldable pub calls : Decoded → List Entry → List Call
  unfolding matches
  calls d [] = []
  calls d (e ∷ es) =
      let rest = calls d es in
      if e.enabled && matches e.match_type e pkt d then call_of e ∷ rest else rest

  unfoldable pub dispatch : Demux → Parse (List Call)
  unfolding decode calls
  dispatch dmx = do d ← decode pkt; ok (calls d dmx.entries)
