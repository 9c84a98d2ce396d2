-- ===== src/Listeners/Vrrp/Safe.antt =====
-- src/agent/src/modules/vrrp_listener.c reads only inside the frame, and its text fits the buffer.
use packetsonde.Prelude.{
  ℕ, zero, suc, ◌+◌, ◌-◌, ◌*◌, ◌≤◌, ◌<◌, ◌≡◌, refl, some, List, [], ◌∷◌, length, drop, arith, ascii,
  length-drop,
}
use packetsonde.Prelude.Int.{pos}
use packetsonde.Wire.{ok, ◌>>=◌}
use packetsonde.Wire.Safe.{IsBytes, Ensures, IsBytes-drop, bind, read_byte, read_bytes}
use packetsonde.Json.Writer.{finish}
use packetsonde.Json.Objects.{Value, string, int, strings, text_of}
use packetsonde.Json.Sizes.{Fits, AllFit, is_plain-IsPlain, finish-write_fits, length-decimal}
use packetsonde.Listeners.Plain.{announce}
use packetsonde.Listeners.Ipv4.{IsNtop, Header, ipv4_for-Ensures}
use packetsonde.Listeners.Vrrp.{
  Advert, clamp_ips, read_vips, vrrp_ip, read_advert, advert_json, vrrp_on_packet,
}

pub record IsAdvert (a : Advert) : Type 0 where
  pub src_in : Fits 15 a.src_ip
  pub version_in : a.version < 16
  pub vrid_in : a.vrid < 256
  pub priority_in : a.priority < 256
  pub interval_in : a.adv_interval < 256
  pub vips_in : AllFit 15 a.vips
  pub count_in : length a.vips ≤ 16

clamp_ips_room :
    (count_ips vrrp_avail : ℕ)
    → 8 ≤ vrrp_avail
    → count_ips < 256
    → (8 + clamp_ips count_ips vrrp_avail * 4 ≤ vrrp_avail) × (clamp_ips count_ips vrrp_avail ≤ 16)
unfolding clamp_ips
clamp_ips_room count_ips vrrp_avail h hc = ground arith

abbrev AreVips : ℕ → List (List ℕ) → Type 0
AreVips n vips = AllFit 15 vips × (length vips ≡ n)

module _ (ntop : List ℕ → List ℕ) (law : IsNtop ntop) where
  read_vips-Ensures :
      (vrrp : List ℕ) (n vip_off : ℕ)
      → IsBytes vrrp
      → vip_off + n * 4 ≤ length vrrp
      → Ensures (AreVips n) (read_vips ntop vrrp n vip_off)
  unfolding read_vips
  read_vips-Ensures vrrp zero vip_off h lt = (tt, refl)
  read_vips-Ensures vrrp (suc n) vip_off h lt =
      read_bytes (AreVips (suc n)) vrrp 0 vip_off 4 _ h (omega arith) λ vip hv size.
        bind (AreVips n) (AreVips (suc n)) (read_vips ntop vrrp n (vip_off + 4)) _
          (read_vips-Ensures vrrp n (vip_off + 4) h (omega arith))
          λ rest hr. ((law vip hv size, hr.0), omega (arith, hr.1))

  pub read_advert-Ensures : (pkt : List ℕ) → IsBytes pkt → Ensures IsAdvert (read_advert ntop pkt)
  unfolding read_advert vrrp_ip
  read_advert-Ensures pkt h =
      bind (Header 8 pkt) IsAdvert (vrrp_ip pkt) _ (ipv4_for-Ensures 112 8 pkt h) λ header valid.
        let hs = valid.0 in
        let size = valid.1.0 in
        let fits = valid.1.1 in
        let ihl = header.1 in
        let vrrp = drop (14 + ihl) pkt in
        read_byte IsAdvert pkt (14 + ihl) 0 _ h (omega arith) λ ver_type ht.
          read_byte IsAdvert pkt (14 + ihl) 1 _ h (omega arith) λ vrid hi.
            read_byte IsAdvert pkt (14 + ihl) 2 _ h (omega arith) λ priority hp.
              read_byte IsAdvert pkt (14 + ihl) 3 _ h (omega arith) λ count_ips hc.
                read_byte IsAdvert pkt (14 + ihl) 5 _ h (omega arith) λ adv_interval ha.
                  let n = clamp_ips count_ips (length pkt - (14 + ihl)) in
                  let room = clamp_ips_room count_ips (length pkt - (14 + ihl)) (omega arith) hc in
                  bind (AreVips n) IsAdvert (read_vips ntop vrrp n 8) _
                    (read_vips-Ensures vrrp n 8 (IsBytes-drop (14 + ihl) pkt h)
                      (omega (arith, room, length-drop (14 + ihl) pkt)))
                    λ vips hv. record {
                      src_in = law header.0 hs size;
                      version_in = omega arith;
                      vrid_in = hi;
                      priority_in = hp;
                      interval_in = ha;
                      vips_in = hv.0;
                      count_in = omega (arith, room, hv.1);
                    }

-- The fields of the published object.
abbrev pub advert_fields : List ℕ → Advert → List (List ℕ × Value)
advert_fields iface a =
    (ascii "type", string (ascii "vrrp"))
    ∷ (ascii "src_ip", string a.src_ip)
    ∷ (ascii "version", int (pos a.version))
    ∷ (ascii "vrid", int (pos a.vrid))
    ∷ (ascii "priority", int (pos a.priority))
    ∷ (ascii "virtual_ips", strings a.vips)
    ∷ (ascii "adv_interval", int (pos a.adv_interval))
    ∷ (ascii "interface", string iface)
    ∷ []

finish-advert_json :
    (iface : List ℕ) (a : Advert)
    → Fits 63 iface
    → IsAdvert a
    → finish (advert_json iface a) ≡ some (text_of (advert_fields iface a))
unfolding advert_json
finish-advert_json iface a hi v =
    finish-write_fits 2048 15 (advert_fields iface a)
      ((
        refl,
        (
          (is_plain-IsPlain (ascii "vrrp") refl),
          (
            refl,
            (
              v.src_in.0,
              (
                refl,
                (
                  tt,
                  (refl, (tt, (refl, (tt, (refl, (v.vips_in, (refl, (tt, (refl, (hi.0, tt)))))))))),
                ),
              ),
            ),
          ),
        ),
      ))
      (ground (
        arith,
        hi.1,
        v.src_in.1,
        v.count_in,
        length-decimal 2 a.version (omega (arith, v.version_in)),
        length-decimal 2 a.vrid (omega (arith, v.vrid_in)),
        length-decimal 2 a.priority (omega (arith, v.priority_in)),
        length-decimal 2 a.adv_interval (omega (arith, v.interval_in)),
      ))

-- For an interface name of at most 63 plain bytes, and `inet_ntop` as documented: whatever the bytes
-- of a frame, an advertisement that passes the checks is published with its whole text, and nothing
-- else is; no read is behind the end.
pub vrrp_on_packet-advert_fields :
    (ntop : List ℕ → List ℕ) (iface pkt : List ℕ)
    → IsNtop ntop
    → Fits 63 iface
    → IsBytes pkt
    → Ensures IsAdvert (read_advert ntop pkt)
      × (vrrp_on_packet ntop iface pkt ≡ (
          read_advert ntop pkt >>= λ a.
          ok (record { channel = ascii "discovery.vrrp"; text = text_of (advert_fields iface a) })))
unfolding vrrp_on_packet
vrrp_on_packet-advert_fields ntop iface pkt law hi h =
    let safe = read_advert-Ensures ntop law pkt h in
    (
      safe,
      announce IsAdvert (advert_json iface) (advert_fields iface) (ascii "discovery.vrrp")
          (λ a v. finish-advert_json iface a hi v) (read_advert ntop pkt) safe,
    )
