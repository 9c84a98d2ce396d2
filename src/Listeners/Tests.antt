-- ===== src/Listeners/Tests.antt =====
-- Runs of the listeners in src/agent/src/modules on concrete frames. `ntop` stands for `inet_ntop`.
use packetsonde.Prelude.{
  ℕ, ◌+◌, ◌%◌, ◌^◌, ◌≡◌, refl, List, [], ◌∷◌, ◌++◌, length, drop, replicate, ascii, arith, none,
}
use packetsonde.Wire.{ok, ◌>>=◌}
use packetsonde.Wire.Safe.{Ensures}
use packetsonde.Json.Objects.{text_of}
use packetsonde.Json.Sizes.{Fits}
use packetsonde.Listeners.Plain.{word-Fits}
use packetsonde.Listeners.Ipv4.{IsNtop}
use packetsonde.Listeners.Stp.{StpState, read_bpdu, stp_on_packet}
use packetsonde.Listeners.Stp.Safe.{IsBpdu, answer, stp_on_packet-answer}
use packetsonde.Listeners.Vrrp.{read_advert, vrrp_on_packet}
use packetsonde.Listeners.Vrrp.Safe.{IsAdvert, advert_fields, vrrp_on_packet-advert_fields}
use packetsonde.Listeners.Ospf.{read_hello, ospf_on_packet}
use packetsonde.Listeners.Ospf.Safe.{IsHello, hello_fields, ospf_on_packet-hello_fields}
use packetsonde.Listeners.Lldp.{Device, unknown, read_lldp}
use packetsonde.Listeners.Lldp.Safe.{IsDevice, read_lldp-Ensures}
use packetsonde.Listeners.Cdp.{CdpDevice, cdp_unknown, read_cdp}
use packetsonde.Listeners.Cdp.Safe.{IsCdpDevice, read_cdp-Ensures}
use packetsonde.Listeners.Mld.{MldState, walk_headers, read_mld, mld_on_packet}
use packetsonde.Listeners.Mld.Walk.{walk_stuck}
use packetsonde.Listeners.Mld.Safe.{IsNtop6, Heard}
use packetsonde.Listeners.Mld.Whole.{reply, mld_on_packet-reply}
use packetsonde.Wire.{byte}
use packetsonde.Listeners.Mld.{is_extension}

abbrev eth0 : List ℕ
eth0 = ascii "eth0"

eth0-Fits : Fits 63 eth0
eth0-Fits = word-Fits 63 eth0 refl refl

abbrev ntop : List ℕ → List ℕ
ntop a = ascii "10.0.0.1"

ntop-IsNtop : IsNtop ntop
ntop-IsNtop a h size = word-Fits 15 (ascii "10.0.0.1") refl refl

ntop-IsNtop6 : IsNtop6 ntop
ntop-IsNtop6 a h size = word-Fits 45 (ascii "10.0.0.1") refl refl

-- A change of the topology, announced by 02:00:00:00:00:07.
abbrev tcn_frame : List ℕ
tcn_frame =
    (1 ∷ 128 ∷ 194 ∷ 0 ∷ 0 ∷ 0 ∷ 2 ∷ 0 ∷ 0 ∷ 0 ∷ 0 ∷ 7 ∷ 0 ∷ 7 ∷ [])
    ++ (66 ∷ 66 ∷ 3 ∷ 0 ∷ 0 ∷ 0 ∷ 128 ∷ [])

abbrev quiet_stp : StpState
quiet_stp = record { pcap_handle = 1; packets_seen = 0; events_published = 0 }

stp_on_packet-answer_example :
    Ensures IsBpdu (read_bpdu tcn_frame)
    × (stp_on_packet quiet_stp tcn_frame 1
        ≡ answer (record quiet_stp { packets_seen = (0 + 1) % 2 ^ 64 }) (read_bpdu tcn_frame))
stp_on_packet-answer_example = stp_on_packet-answer quiet_stp tcn_frame (ground arith)

-- An IPv4 header for the protocol `proto`, behind an Ethernet header.
abbrev ipv4 : ℕ → List ℕ
ipv4 proto =
    replicate 12 0
    ++ (8 ∷ 0 ∷ 69 ∷ 0 ∷ 0 ∷ 64 ∷ 0 ∷ 0 ∷ 0 ∷ 0 ∷ 1 ∷ proto ∷ 0 ∷ 0 ∷ [])
    ++ (10 ∷ 0 ∷ 0 ∷ 9 ∷ 224 ∷ 0 ∷ 0 ∷ 18 ∷ [])

abbrev vrrp_frame : List ℕ
vrrp_frame = ipv4 112 ++ (49 ∷ 5 ∷ 100 ∷ 1 ∷ 0 ∷ 1 ∷ 0 ∷ 0 ∷ 10 ∷ 0 ∷ 0 ∷ 1 ∷ [])

vrrp_on_packet-advert_fields_example :
    Ensures IsAdvert (read_advert ntop vrrp_frame)
    × (vrrp_on_packet ntop eth0 vrrp_frame ≡ (
        read_advert ntop vrrp_frame >>= λ a.
        ok (record { channel = ascii "discovery.vrrp"; text = text_of (advert_fields eth0 a) })))
vrrp_on_packet-advert_fields_example =
    vrrp_on_packet-advert_fields ntop eth0 vrrp_frame ntop-IsNtop eth0-Fits (ground arith)

abbrev ospf_frame : List ℕ
ospf_frame =
    ipv4 89
    ++ (2 ∷ 1 ∷ 0 ∷ 48 ∷ 10 ∷ 0 ∷ 0 ∷ 9 ∷ replicate 16 0)
    ++ (255 ∷ 255 ∷ 255 ∷ 0 ∷ 0 ∷ 10 ∷ 2 ∷ 1 ∷ 0 ∷ 0 ∷ 0 ∷ 40 ∷ replicate 8 0)
    ++ (10 ∷ 0 ∷ 0 ∷ 2 ∷ [])

ospf_on_packet-hello_fields_example :
    Ensures IsHello (read_hello ospf_frame)
    × (ospf_on_packet eth0 ospf_frame ≡ (
        read_hello ospf_frame >>= λ h.
        ok (record { channel = ascii "discovery.ospf"; text = text_of (hello_fields eth0 h) })))
ospf_on_packet-hello_fields_example =
    ospf_on_packet-hello_fields eth0 ospf_frame eth0-Fits (ground arith)

-- A device 02:00:00:00:00:07 with the name sw1.
abbrev lldp_frame : List ℕ
lldp_frame =
    replicate 12 0
    ++ (136 ∷ 204 ∷ 2 ∷ 7 ∷ 4 ∷ 2 ∷ 0 ∷ 0 ∷ 0 ∷ 0 ∷ 7 ∷ [])
    ++ (6 ∷ 2 ∷ 0 ∷ 120 ∷ 10 ∷ 3 ∷ ascii "sw1")
    ++ (0 ∷ 0 ∷ [])

abbrev lldp_device : Device
lldp_device = record unknown {
  chassis_id = ascii "02:00:00:00:00:07";
  sys_name = ascii "sw1";
  ttl = 120;
}

read_lldp-Ensures_example : Ensures IsDevice (read_lldp ntop lldp_frame)
read_lldp-Ensures_example = read_lldp-Ensures ntop ntop-IsNtop lldp_frame (ground arith)

-- A device with the name sw1 and the address 10.0.0.1.
abbrev cdp_frame : List ℕ
cdp_frame =
    replicate 14 0
    ++ (170 ∷ 170 ∷ 3 ∷ 0 ∷ 0 ∷ 12 ∷ 32 ∷ 0 ∷ 2 ∷ 180 ∷ 0 ∷ 0 ∷ [])
    ++ (0 ∷ 1 ∷ 0 ∷ 7 ∷ ascii "sw1")
    ++ (0 ∷ 2 ∷ 0 ∷ 17 ∷ 0 ∷ 0 ∷ 0 ∷ 1 ∷ 1 ∷ 1 ∷ 204 ∷ 0 ∷ 4 ∷ 10 ∷ 0 ∷ 0 ∷ 1 ∷ [])

abbrev cdp_device : CdpDevice
cdp_device = record cdp_unknown { device_id = ascii "sw1"; mgmt_ip = ascii "10.0.0.1" }

read_cdp-Ensures_example : Ensures IsCdpDevice (read_cdp ntop cdp_frame)
read_cdp-Ensures_example = read_cdp-Ensures ntop ntop-IsNtop cdp_frame (ground arith)

abbrev ipv6 : ℕ → List ℕ
ipv6 next_hdr = (96 ∷ 0 ∷ 0 ∷ 0 ∷ 0 ∷ 24 ∷ next_hdr ∷ 1 ∷ []) ++ replicate 32 1

abbrev mld_frame : List ℕ
mld_frame =
    (replicate 12 0 ++ (134 ∷ 221 ∷ [])) ++ ipv6 58 ++ (131 ∷ replicate 7 0) ++ replicate 16 255

abbrev quiet_mld : MldState
quiet_mld = record { pcap_handle = 1; packets_seen = 0; events_published = 0 }

mld_on_packet-reply_example :
    Ensures (Heard (drop 14 mld_frame)) (read_mld ntop (length mld_frame) mld_frame)
    × (mld_on_packet ntop eth0 (length mld_frame) quiet_mld mld_frame 1
        ≡ reply eth0
            (record quiet_mld { packets_seen = (0 + 1) % 2 ^ 64 })
            (read_mld ntop (length mld_frame) mld_frame))
mld_on_packet-reply_example =
    mld_on_packet-reply ntop eth0 quiet_mld mld_frame ntop-IsNtop6 eth0-Fits (ground arith)
      (ground arith)

-- A hop-by-hop header that gives its length as 31 units and is followed by another.
abbrev endless : List ℕ
endless = ipv6 0 ++ (0 ∷ 31 ∷ replicate 6 0)

walk_stuck_example : walk_headers 1000 endless 0 40 ≡ ok none
unfolding is_extension byte
walk_stuck_example = walk_stuck endless 0 40 0 31 refl refl (ground arith) refl refl refl 1000
