-- ===== src/Demux/Udp.antt =====
-- The dispatch of UDP over IPv4 in protocol_demux.c.
use packetsonde.Prelude.{
  ℕ, ◌+◌, ◌*◌, ◌%◌, ◌<◌, ◌≡◌, ◌∙◌, refl, ap, Bool, true, false, not, ◌&&◌, none, some, List, [],
  ◌∷◌, ◌++◌, append_assoc, leb, ltb, ◌==◌, if◌then◌else◌, length, length-append, get_elem?, take,
  drop, arith,
}
use packetsonde.Wire.{ok, byte, read_u16_be}
use packetsonde.Demux.{
  udp_port, Demux, Decoded, Call, max_handlers, register, dstport_at, decode_ipv4, decode, matches,
  calls, dispatch,
}
use packetsonde.Demux.Calls.{calls-append}

drop-length_of : (n : ℕ) (xs ys : List ℕ) → length xs ≡ n → drop n (xs ++ ys) ≡ ys
drop-length_of n xs ys e = rw (← e) (past_prefix xs)
  where
    past_prefix : (zs : List ℕ) → drop (length zs) (zs ++ ys) ≡ ys
    past_prefix [] = refl
    past_prefix (z ∷ zs) = past_prefix zs

get_elem?_behind :
    (n : ℕ) (xs : List ℕ) (y : ℕ) (ys : List ℕ)
    → length xs ≡ n
    → get_elem? (xs ++ y ∷ ys) n ≡ some y
get_elem?_behind n xs y ys e = rw (← e) (past_prefix xs)
  where
    past_prefix : (zs : List ℕ) → get_elem? (zs ++ y ∷ ys) (length zs) ≡ some y
    past_prefix [] = refl
    past_prefix (z ∷ zs) = past_prefix zs

byte_known : (p : List ℕ) (i b : ℕ) → get_elem? p i ≡ some b → byte p i ≡ ok b
unfolding byte
byte_known p i b e = rw (byte, e) refl

-- The MAC addresses, the IPv4 header (its first byte, the eight before the protocol, and what
-- follows it), the source port, the destination port and the rest.
module _ (macs head more sport rest : List ℕ) (first hi lo : ℕ) where
  abbrev pub ip_header : List ℕ
  ip_header = first ∷ (head ++ (17 ∷ more))

  abbrev pub udp_frame : List ℕ
  udp_frame = macs ++ (8 ∷ 0 ∷ (ip_header ++ (sport ++ (hi ∷ lo ∷ rest))))

  pub record IsUdp : Type 0 where
    pub twelve : length macs ≡ 12
    pub eight : length head ≡ 8
    pub header_size : 10 + length more ≡ first % 16 * 4
    pub two : length sport ≡ 2

  module _ (u : IsUdp) where
    frame_type-udp : read_u16_be (drop 12 udp_frame) ≡ ok 2048
    unfolding read_u16_be
    frame_type-udp =
        rw (drop-length_of 12 macs (8 ∷ 0 ∷ (ip_header ++ (sport ++ (hi ∷ lo ∷ rest)))) u.twelve)
          refl

    ip-udp : drop 14 udp_frame ≡ ip_header ++ (sport ++ (hi ∷ lo ∷ rest))
    ip-udp = rw (← append_assoc macs (8 ∷ 0 ∷ []) (ip_header ++ (sport ++ (hi ∷ lo ∷ rest)))) (
        drop-length_of 14 (macs ++ 8 ∷ 0 ∷ []) (ip_header ++ (sport ++ (hi ∷ lo ∷ rest)))
          (omega (arith, length-append {0} macs (8 ∷ 0 ∷ []), u)))

    proto-udp : byte (drop 14 udp_frame) 9 ≡ ok 17
    proto-udp =
        rw (ip-udp, append_assoc head (17 ∷ more) (sport ++ (hi ∷ lo ∷ rest)))
          (byte_known _ 9 17
            (get_elem?_behind 8 head 17 (more ++ (sport ++ (hi ∷ lo ∷ rest))) u.eight))

    first-udp : byte (drop 14 udp_frame) 0 ≡ ok first
    unfolding byte
    first-udp = rw ip-udp refl

    length-udp : length udp_frame ≡ 18 + first % 16 * 4 + length rest
    length-udp = omega (
      arith,
      length-append {0} macs (8 ∷ 0 ∷ (ip_header ++ (sport ++ (hi ∷ lo ∷ rest)))),
      length-append {0} ip_header (sport ++ (hi ∷ lo ∷ rest)),
      length-append {0} head (17 ∷ more),
      length-append {0} sport (hi ∷ lo ∷ rest),
      u,
    )

    split : udp_frame ≡ (macs ++ (8 ∷ 0 ∷ (ip_header ++ sport))) ++ (hi ∷ lo ∷ rest)
    split = simp append_assoc refl

    size : length (macs ++ (8 ∷ 0 ∷ (ip_header ++ sport))) ≡ 14 + first % 16 * 4 + 2
    size = omega (
      arith,
      length-append {0} macs (8 ∷ 0 ∷ (ip_header ++ sport)),
      length-append {0} ip_header sport,
      length-append {0} head (17 ∷ more),
      u,
    )

    dstport-udp : dstport_at udp_frame (14 + first % 16 * 4) ≡ ok (hi * 256 + lo)
    unfolding dstport_at read_u16_be
    dstport-udp =
        let fits : leb (14 + first % 16 * 4 + 4) (length udp_frame) ≡ true =
          ground (arith, length-udp) in
        rw (fits, ports) refl
      where
        ports : drop (14 + first % 16 * 4 + 2) udp_frame ≡ hi ∷ lo ∷ rest
        ports = rw split (
            drop-length_of (14 + first % 16 * 4 + 2) (macs ++ (8 ∷ 0 ∷ (ip_header ++ sport)))
              (hi ∷ lo ∷ rest) size)

    decode-udp :
        decode udp_frame ≡ ok (record { frame_type = 2048; proto = 17; dstport = hi * 256 + lo })
    unfolding decode decode_ipv4
    decode-udp =
        let long : ltb (length udp_frame) 14 ≡ false = ground (arith, length-udp) in
        let header : leb 24 (length udp_frame) ≡ true = ground (arith, length-udp, u) in
        rw (long, frame_type-udp, header, proto-udp, first-udp, dstport-udp) refl

-- The handlers called, and the one that a registration adds.
abbrev pub added : List ℕ → ℕ → ℕ → ℕ → ℕ → Bool → List Call
added pkt ts_usec handle_id handler userdata fires =
    if fires
    then record {
      callee = handler;
      pkt = pkt;
      ts_usec = ts_usec;
      handle_id = handle_id;
      argument = userdata;
    }
      ∷ []
    else []

new_port :
    (pkt name : List ℕ) (ts_usec handle_id n port handler userdata : ℕ)
    → 0 < port
    → port < 65536
    → calls pkt ts_usec handle_id
        (record { frame_type = 2048; proto = 17; dstport = n })
        (record {
          name = name;
          match_type = udp_port;
          match_value = port;
          match_fn = none;
          handler = handler;
          userdata = userdata;
          enabled = true;
        }
          ∷ [])
      ≡ added pkt ts_usec handle_id handler userdata (n == port)
unfolding calls matches
new_port pkt name ts_usec handle_id n port handler userdata some_port port_in =
    let test : (not (n == 0) && n == port % 65536) ≡ (n == port) = ground arith in rw test refl

-- A frame of UDP over IPv4, with or without options: once a handler has been registered for a port
-- other than 0, on a table with room, the frame is dispatched to the same handlers as before and
-- after them to the new one, exactly if the port is the frame's destination port.
pub dispatch-register :
    (dmx : Demux) (name : List ℕ) (port handler userdata ts_usec handle_id : ℕ)
    (macs head more sport rest : List ℕ) (first hi lo : ℕ)
    → length dmx.entries < max_handlers
    → 0 < port
    → port < 65536
    → IsUdp macs head more sport rest first hi lo
    → let pkt = udp_frame macs head more sport rest first hi lo in
      let dmx' = (register dmx name udp_port port handler userdata).1 in
      (cs : List Call) × (dispatch pkt ts_usec handle_id dmx ≡ ok cs)
      × (dispatch pkt ts_usec handle_id dmx'
          ≡ ok (cs ++ added pkt ts_usec handle_id handler userdata (hi * 256 + lo == port)))
unfolding dispatch register
dispatch-register dmx name port handler userdata ts_usec handle_id macs head more sport rest first
      hi lo room some_port port_in u =
    let pkt = udp_frame macs head more sport rest first hi lo in
    let d : Decoded = record { frame_type = 2048; proto = 17; dstport = hi * 256 + lo } in
    let open_table : leb max_handlers (length dmx.entries) ≡ false = ground arith in
    (
      calls pkt ts_usec handle_id d dmx.entries,
      rw (decode-udp macs head more sport rest first hi lo u) refl,
      rw (decode-udp macs head more sport rest first hi lo u, open_table)
          (ap ok (
            calls-append pkt ts_usec handle_id d dmx.entries _
            ∙ ap (λ (new : List Call). calls pkt ts_usec handle_id d dmx.entries ++ new)
                (new_port pkt (take 63 name) ts_usec handle_id (hi * 256 + lo) port handler userdata
                  some_port port_in))),
    )
