-- ===== src/Listeners/Lldp/Whole.antt =====
-- What src/agent/src/modules/lldp_listener.c publishes of a device.
use packetsonde.Prelude.{ℕ, ◌/◌, ◌%◌, ◌≡◌, refl, some, List, [], ◌∷◌, ◌==◌, arith, ascii}
use packetsonde.Prelude.Int.{pos}
use mathlib.Core.Path.{subst}
use packetsonde.Wire.{ok}
use packetsonde.Wire.Safe.{IsBytes, Ensures}
use packetsonde.Json.Writer.{finish}
use packetsonde.Json.Objects.{Value, string, int, strings, text_of}
use packetsonde.Json.Sizes.{Fits, IsPlain, is_plain-IsPlain, finish-write_fits, length-decimal}
use packetsonde.Listeners.Plain.{Few, Few-append, optional-Few, publish-finish}
use packetsonde.Listeners.Ipv4.{IsNtop}
use packetsonde.Listeners.Lldp.{Device, read_lldp, cap_names, lldp_json, lldp_on_packet}
use packetsonde.Listeners.Lldp.Safe.{IsDevice, read_lldp-Ensures}

-- The fields of the published object.
abbrev pub device_fields : List ℕ → Device → List (List ℕ × Value)
device_fields iface d =
    (ascii "type", string (ascii "lldp"))
    ∷ (ascii "chassis_id", string d.chassis_id)
    ∷ (ascii "port_id", string d.port_id)
    ∷ (ascii "system_name", string d.sys_name)
    ∷ (ascii "system_desc", string d.sys_desc)
    ∷ (ascii "mgmt_ip", string d.mgmt_ip)
    ∷ (ascii "ttl", int (pos d.ttl))
    ∷ (ascii "sys_cap", int (pos d.sys_cap))
    ∷ (ascii "en_cap", int (pos d.en_cap))
    ∷ (ascii "interface", string iface)
    ∷ (ascii "capabilities", strings (cap_names d.en_cap))
    ∷ []

-- All its texts stand in JSON as they are.
pub record IsPlainDevice (d : Device) : Type 0 where
  pub chassis_plain : IsPlain d.chassis_id
  pub port_plain : IsPlain d.port_id
  pub name_plain : IsPlain d.sys_name
  pub desc_plain : IsPlain d.sys_desc
  pub mgmt_plain : IsPlain d.mgmt_ip

cap_names-Few : (en_cap : ℕ) → Few 6 2 (cap_names en_cap)
cap_names-Few en_cap =
    Few-append 6 1 1 _ _ (optional-Few 6 (en_cap / 4 % 2 == 1) (ascii "bridge") refl refl)
      (optional-Few 6 (en_cap / 16 % 2 == 1) (ascii "router") refl refl)

finish-lldp_json :
    (iface : List ℕ) (d : Device)
    → Fits 63 iface
    → IsDevice d
    → IsPlainDevice d
    → finish (lldp_json iface d) ≡ some (text_of (device_fields iface d))
unfolding lldp_json
finish-lldp_json iface d hi v plain =
    let caps = cap_names-Few d.en_cap in
    finish-write_fits 2048 6 (device_fields iface d)
      ((
        refl,
        (
          (is_plain-IsPlain (ascii "lldp") refl),
          (
            refl,
            (
              plain.chassis_plain,
              (
                refl,
                (
                  plain.port_plain,
                  (
                    refl,
                    (
                      plain.name_plain,
                      (
                        refl,
                        (
                          plain.desc_plain,
                          (
                            refl,
                            (
                              plain.mgmt_plain,
                              (
                                refl,
                                (
                                  tt,
                                  (refl, (tt, (refl, (tt, (refl, (hi.0, (refl, (caps.0, tt)))))))),
                                ),
                              ),
                            ),
                          ),
                        ),
                      ),
                    ),
                  ),
                ),
              ),
            ),
          ),
        ),
      ))
      (ground (
        arith,
        hi.1,
        v.chassis_in.1,
        v.port_in.1,
        v.name_in.1,
        v.desc_in.1,
        v.mgmt_in.1,
        caps.1,
        length-decimal 4 d.ttl (omega (arith, v.ttl_in)),
        length-decimal 4 d.sys_cap (omega (arith, v.sys_cap_in)),
        length-decimal 4 d.en_cap (omega (arith, v.en_cap_in)),
      ))

-- For `inet_ntop` as documented and an interface name of at most 63 plain bytes: a frame whose walk
-- yields a device with plain texts is published with the whole text of it.
pub lldp_on_packet-device_fields :
    (ntop : List ℕ → List ℕ) (iface pkt : List ℕ) (d : Device)
    → IsNtop ntop
    → Fits 63 iface
    → IsBytes pkt
    → read_lldp ntop pkt ≡ ok d
    → IsPlainDevice d
    → lldp_on_packet ntop iface pkt
      ≡ ok (record { channel = ascii "discovery.lldp"; text = text_of (device_fields iface d) })
unfolding lldp_on_packet
lldp_on_packet-device_fields ntop iface pkt d law hi h found plain =
    let v : Ensures IsDevice (ok d) =
      subst (Ensures IsDevice) found (read_lldp-Ensures ntop law pkt h) in
    rw found (
      publish-finish (ascii "discovery.lldp") (lldp_json iface d) _ _
        (finish-lldp_json iface d hi v plain))
