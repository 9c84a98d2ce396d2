-- ===== src/Listeners/Ospf/Safe.antt =====
-- src/agent/src/modules/ospf_listener.c reads only inside the frame, and its text fits the buffer.
use packetsonde.Prelude.{
  ℕ, zero, suc, ◌+◌, ◌-◌, ◌^◌, ◌≤◌, ◌<◌, ◌≡◌, refl, not, some, List, [], ◌∷◌, ◌++◌, ltb, leb, ◌==◌,
  length, drop, arith, ascii, length-drop,
}
use packetsonde.Prelude.Int.{pos}
use packetsonde.Wire.{Parse, ok, ◌>>=◌}
use packetsonde.Wire.Safe.{
  IsBytes, Ensures, IsBytes-drop, bind, either, past, read_byte, read_u16, read_u32,
}
use packetsonde.Json.Writer.{finish, decimal}
use packetsonde.Json.Objects.{Value, string, int, strings, text_of}
use packetsonde.Json.Sizes.{Fits, AllFit, finish-write_fits, length-decimal, is_plain-IsPlain}
use packetsonde.Listeners.Plain.{Fits-append, word-Fits, decimal-Fits, announce}
use packetsonde.Listeners.Ipv4.{Header, ipv4_for-Ensures}
use packetsonde.Listeners.Ospf.{
  Hello, ip32_to_str, read_neighbors, ospf_ip, read_hello, hello_json, ospf_on_packet,
}

pub record IsHello (h : Hello) : Type 0 where
  pub router_in : Fits 15 h.router_id
  pub area_in : Fits 15 h.area_id
  pub netmask_in : Fits 15 h.netmask
  pub interval_in : h.hello_interval < 2 ^ 16
  pub dead_in : h.dead_interval < 2 ^ 32
  pub dr_in : Fits 15 h.dr
  pub bdr_in : Fits 15 h.bdr
  pub neighbors_in : AllFit 15 h.neighbors
  pub count_in : length h.neighbors ≤ 32

dotted : (b : ℕ) → b < 256 → Fits 4 (decimal (pos b) ++ 46 ∷ [])
dotted b h =
    Fits-append 3 1 (decimal (pos b)) (46 ∷ []) (decimal-Fits 2 b (omega arith))
      (word-Fits 1 (46 ∷ []) refl refl)

-- The four bytes of an address anywhere in the packet.
module _ {ℓ} {B : Type ℓ} (Q : B → Type 0) (p : List ℕ) (n : ℕ) where
  read_ip32 :
      (f : List ℕ → Parse B)
      → IsBytes p
      → n + 4 ≤ length p
      → ((s : List ℕ) → Fits 15 s → Ensures Q (f s))
      → Ensures Q (ip32_to_str (drop n p) >>= f)
  unfolding ip32_to_str
  read_ip32 f h lt = bind (Fits 15) Q (ip32_to_str (drop n p)) f (
      read_byte (Fits 15) p n 0 _ h (omega arith) λ b0 h0.
        read_byte (Fits 15) p n 1 _ h (omega arith) λ b1 h1.
          read_byte (Fits 15) p n 2 _ h (omega arith) λ b2 h2.
            read_byte (Fits 15) p n 3 _ h (omega arith) λ b3 h3.
              let front = Fits-append 4 4 _ _ (dotted b0 h0) (dotted b1 h1) in
              let back = Fits-append 4 3 _ _ (dotted b2 h2) (decimal-Fits 2 b3 (omega arith)) in
              Fits-append 8 7 _ _ front back)

abbrev AreNeighbors : ℕ → List (List ℕ) → Type 0
AreNeighbors n nbrs = AllFit 15 nbrs × (length nbrs ≤ n)

read_neighbors-Ensures :
    (hello : List ℕ) (hello_avail slots nbr_off : ℕ)
    → IsBytes hello
    → hello_avail ≤ length hello
    → Ensures (AreNeighbors slots) (read_neighbors hello hello_avail slots nbr_off)
unfolding read_neighbors
read_neighbors-Ensures hello hello_avail zero nbr_off h lt = (tt, omega arith)
read_neighbors-Ensures hello hello_avail (suc slots) nbr_off h lt =
    let Q = AreNeighbors (suc slots) in
    either Q (leb (nbr_off + 4) hello_avail) _ _
      (λ more. read_ip32 Q hello nbr_off _ h (ground arith) λ neighbor hn.
        bind (AreNeighbors slots) Q (read_neighbors hello hello_avail slots (nbr_off + 4)) _
          (read_neighbors-Ensures hello hello_avail slots (nbr_off + 4) h lt)
          λ rest hr. ((hn, hr.0), omega (arith, hr.1)))
      (λ done. (tt, omega arith))

pub read_hello-Ensures : (pkt : List ℕ) → IsBytes pkt → Ensures IsHello (read_hello pkt)
unfolding read_hello ospf_ip
read_hello-Ensures pkt h =
    bind (Header 24 pkt) IsHello (ospf_ip pkt) _ (ipv4_for-Ensures 89 24 pkt h) λ header valid.
      let n = 14 + header.1 in
      let fits = valid.1.1 in
      let ospf = drop n pkt in
      let hello = drop 24 ospf in
      let hello_avail = length pkt - (14 + header.1 + 24) in
      let ho = IsBytes-drop n pkt h in
      let hh = IsBytes-drop 24 ospf ho in
      let so = length-drop n pkt in
      let sh = length-drop 24 ospf in
      read_byte IsHello pkt n 1 _ h (omega arith) λ ospf_type ht.
        past IsHello (not (ospf_type == 1)) _ λ is_hello.
          read_ip32 IsHello ospf 4 _ ho (omega (arith, so)) λ router_id hr.
            read_ip32 IsHello ospf 8 _ ho (omega (arith, so)) λ area_id ha.
              past IsHello (ltb hello_avail 20) _ λ long.
                let room : 20 ≤ length hello = ground (arith, so, sh) in
                read_ip32 IsHello hello 0 _ hh (omega arith) λ netmask hm.
                  read_u16 IsHello hello 4 _ hh (omega arith) λ hello_interval hi.
                    read_u32 IsHello hello 8 _ hh (omega arith) λ dead_interval hd.
                      read_ip32 IsHello hello 12 _ hh (omega arith) λ dr hdr.
                        read_ip32 IsHello hello 16 _ hh (omega arith) λ bdr hbdr.
                          bind (AreNeighbors 32) IsHello (read_neighbors hello hello_avail 32 20) _
                            (read_neighbors-Ensures hello hello_avail 32 20 hh
                              (omega (arith, so, sh)))
                            λ neighbors hn. record {
                              router_in = hr;
                              area_in = ha;
                              netmask_in = hm;
                              interval_in = hi;
                              dead_in = hd;
                              dr_in = hdr;
                              bdr_in = hbdr;
                              neighbors_in = hn.0;
                              count_in = hn.1;
                            }

-- The fields of the published object.
abbrev pub hello_fields : List ℕ → Hello → List (List ℕ × Value)
hello_fields iface h =
    (ascii "type", string (ascii "ospf_hello"))
    ∷ (ascii "router_id", string h.router_id)
    ∷ (ascii "area_id", string h.area_id)
    ∷ (ascii "network_mask", string h.netmask)
    ∷ (ascii "hello_interval", int (pos h.hello_interval))
    ∷ (ascii "dead_interval", int (pos h.dead_interval))
    ∷ (ascii "dr", string h.dr)
    ∷ (ascii "bdr", string h.bdr)
    ∷ (ascii "neighbors", strings h.neighbors)
    ∷ (ascii "interface", string iface)
    ∷ []

finish-hello_json :
    (iface : List ℕ) (h : Hello)
    → Fits 63 iface
    → IsHello h
    → finish (hello_json iface h) ≡ some (text_of (hello_fields iface h))
unfolding hello_json
finish-hello_json iface h hi v =
    finish-write_fits 2048 15 (hello_fields iface h)
      ((
        refl,
        (
          (is_plain-IsPlain (ascii "ospf_hello") refl),
          (
            refl,
            (
              v.router_in.0,
              (
                refl,
                (
                  v.area_in.0,
                  (
                    refl,
                    (
                      v.netmask_in.0,
                      (
                        refl,
                        (
                          tt,
                          (
                            refl,
                            (
                              tt,
                              (
                                refl,
                                (
                                  v.dr_in.0,
                                  (
                                    refl,
                                    (v.bdr_in.0, (refl, (v.neighbors_in, (refl, (hi.0, tt))))),
                                  ),
                                ),
                              ),
                            ),
                          ),
                        ),
                      ),
                    ),
                  ),
                ),
              ),
            ),
          ),
        ),
      ))
      (ground (
        arith,
        hi.1,
        v.router_in.1,
        v.area_in.1,
        v.netmask_in.1,
        v.dr_in.1,
        v.bdr_in.1,
        v.count_in,
        length-decimal 4 h.hello_interval (omega (arith, v.interval_in)),
        length-decimal 9 h.dead_interval (omega (arith, v.dead_in)),
      ))

-- For an interface name of at most 63 plain bytes: whatever the bytes of a frame, a Hello packet
-- that passes the checks is published with its whole text, at most 32 neighbours included, and
-- nothing else is; no read is behind the end.
pub ospf_on_packet-hello_fields :
    (iface pkt : List ℕ)
    → Fits 63 iface
    → IsBytes pkt
    → Ensures IsHello (read_hello pkt)
      × (ospf_on_packet iface pkt ≡ (
          read_hello pkt >>= λ h.
          ok (record { channel = ascii "discovery.ospf"; text = text_of (hello_fields iface h) })))
unfolding ospf_on_packet
ospf_on_packet-hello_fields iface pkt hi h =
    let safe = read_hello-Ensures pkt h in
    (
      safe,
      announce IsHello (hello_json iface) (hello_fields iface) (ascii "discovery.ospf")
          (λ a v. finish-hello_json iface a hi v) (read_hello pkt) safe,
    )
