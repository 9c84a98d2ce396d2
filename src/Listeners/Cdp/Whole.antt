-- ===== src/Listeners/Cdp/Whole.antt =====
-- What src/agent/src/modules/cdp_listener.c publishes of a device.
use packetsonde.Prelude.{ℕ, ◌/◌, ◌%◌, ◌≡◌, refl, some, List, [], ◌∷◌, ◌==◌, arith, ascii}
use packetsonde.Prelude.Int.{pos}
use mathlib.Core.Path.{subst}
use packetsonde.Wire.{ok}
use packetsonde.Wire.Safe.{IsBytes, Ensures}
use packetsonde.Json.Writer.{finish}
use packetsonde.Json.Objects.{Value, string, int, strings, text_of}
use packetsonde.Json.Sizes.{Fits, IsPlain, is_plain-IsPlain, finish-write_fits, length-decimal}
use packetsonde.Listeners.Plain.{Few, Few-append, optional-Few, publish-finish}
use packetsonde.Listeners.Ipv4.{IsNtop}
use packetsonde.Listeners.Cdp.{CdpDevice, read_cdp, cdp_cap_names, cdp_json, cdp_on_packet}
use packetsonde.Listeners.Cdp.Safe.{IsCdpDevice, read_cdp-Ensures}

-- The fields of the published object.
abbrev pub cdp_fields : List ℕ → CdpDevice → List (List ℕ × Value)
cdp_fields iface d =
    (ascii "type", string (ascii "cdp"))
    ∷ (ascii "device_id", string d.device_id)
    ∷ (ascii "platform", string d.platform)
    ∷ (ascii "software_version", string d.sw_version)
    ∷ (ascii "port_id", string d.port_id)
    ∷ (ascii "capabilities", strings (cdp_cap_names d.capabilities))
    ∷ (ascii "mgmt_ip", string d.mgmt_ip)
    ∷ (ascii "native_vlan", int (pos d.native_vlan))
    ∷ (ascii "interface", string iface)
    ∷ []

-- All its texts stand in JSON as they are.
pub record IsPlainCdpDevice (d : CdpDevice) : Type 0 where
  pub device_plain : IsPlain d.device_id
  pub platform_plain : IsPlain d.platform
  pub version_plain : IsPlain d.sw_version
  pub port_plain : IsPlain d.port_id
  pub mgmt_plain : IsPlain d.mgmt_ip

cdp_cap_names-Few : (caps : ℕ) → Few 6 3 (cdp_cap_names caps)
cdp_cap_names-Few caps =
    Few-append 6 1 2 _ _ (optional-Few 6 (caps % 2 == 1) (ascii "router") refl refl) (
      Few-append 6 1 1 _ _ (optional-Few 6 (caps / 4 % 2 == 1) (ascii "switch") refl refl)
        (optional-Few 6 (caps / 64 % 2 == 1) (ascii "host") refl refl))

finish-cdp_json :
    (iface : List ℕ) (d : CdpDevice)
    → Fits 63 iface
    → IsCdpDevice d
    → IsPlainCdpDevice d
    → finish (cdp_json iface d) ≡ some (text_of (cdp_fields iface d))
unfolding cdp_json
finish-cdp_json iface d hi v plain =
    let caps = cdp_cap_names-Few d.capabilities in
    finish-write_fits 2048 6 (cdp_fields iface d)
      ((
        refl,
        (
          (is_plain-IsPlain (ascii "cdp") refl),
          (
            refl,
            (
              plain.device_plain,
              (
                refl,
                (
                  plain.platform_plain,
                  (
                    refl,
                    (
                      plain.version_plain,
                      (
                        refl,
                        (
                          plain.port_plain,
                          (
                            refl,
                            (caps.0, (refl, (plain.mgmt_plain, (refl, (tt, (refl, (hi.0, tt))))))),
                          ),
                        ),
                      ),
                    ),
                  ),
                ),
              ),
            ),
          ),
        ),
      ))
      (ground (
        arith,
        hi.1,
        v.device_in.1,
        v.platform_in.1,
        v.version_in.1,
        v.port_in.1,
        v.mgmt_in.1,
        caps.1,
        length-decimal 4 d.native_vlan (omega (arith, v.vlan_in)),
      ))

-- For `inet_ntop` as documented and an interface name of at most 63 plain bytes: a frame whose walk
-- yields a device with plain texts is published with the whole text of it.
pub cdp_on_packet-cdp_fields :
    (ntop : List ℕ → List ℕ) (iface pkt : List ℕ) (d : CdpDevice)
    → IsNtop ntop
    → Fits 63 iface
    → IsBytes pkt
    → read_cdp ntop pkt ≡ ok d
    → IsPlainCdpDevice d
    → cdp_on_packet ntop iface pkt
      ≡ ok (record { channel = ascii "discovery.cdp"; text = text_of (cdp_fields iface d) })
unfolding cdp_on_packet
cdp_on_packet-cdp_fields ntop iface pkt d law hi h found plain =
    let v : Ensures IsCdpDevice (ok d) =
      subst (Ensures IsCdpDevice) found (read_cdp-Ensures ntop law pkt h) in
    rw found (
      publish-finish (ascii "discovery.cdp") (cdp_json iface d) _ _
        (finish-cdp_json iface d hi v plain))
