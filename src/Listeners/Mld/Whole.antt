-- ===== src/Listeners/Mld/Whole.antt =====
-- What src/agent/src/modules/mld_listener.c publishes of a packet.
use packetsonde.Prelude.{
  ℕ, suc, ◌+◌, ◌%◌, ◌^◌, ◌<◌, ◌≡◌, refl, ◌∙◌, not, Option, some, none, List, [], ◌∷◌, ◌++◌, ap,
  false, ◌==◌, length, drop, arith, ascii, append-nil, append_assoc, sym,
}
use packetsonde.Wire.{Parse, ok, reject, fault}
use packetsonde.Wire.Safe.{IsBytes, Ensures}
use packetsonde.Json.Writer.{finish}
use packetsonde.Json.Objects.{Value, string, text_of}
use packetsonde.Json.Sizes.{Fits, finish-write_fits}
use packetsonde.Listeners.{Event}
use packetsonde.Listeners.Plain.{publish-finish}
use packetsonde.Listeners.Mld.{
  MldState, Membership, read_mld, membership_json, count_event, publish_mld_event, publish_all,
  hear, mld_on_packet,
}
use packetsonde.Listeners.Mld.Safe.{IsNtop6, IsMembership, AreMemberships, Heard, read_mld-Ensures}

-- The fields of a published object.
abbrev pub membership_fields : List ℕ → Membership → List (List ℕ × Value)
membership_fields iface m =
    (ascii "group", string m.group)
    ∷ (ascii "source_ip", string m.source_ip)
    ∷ (ascii "type", string m.type_str)
    ∷ (ascii "interface", string iface)
    ∷ []

finish-membership_json :
    (iface : List ℕ) (m : Membership)
    → Fits 63 iface
    → IsMembership m
    → finish (membership_json iface m) ≡ some (text_of (membership_fields iface m))
unfolding membership_json
finish-membership_json iface m hi v =
    finish-write_fits 256 0 (membership_fields iface m)
      ((refl, (v.group_in.0, (refl, (v.source_in.0, (refl, (v.type_in.0, (refl, (hi.0, tt)))))))))
      (ground (arith, hi.1, v.group_in.1, v.source_in.1, v.type_in.1))

-- One event for each membership, in the packet's order.
abbrev pub mld_events : List ℕ → List Membership → List Event
mld_events iface [] = []
mld_events iface (m ∷ ms) =
    record { channel = ascii "discovery.mld"; text = text_of (membership_fields iface m) }
    ∷ mld_events iface ms

-- So many more events, of which the last are these.
abbrev and_told : MldState → List Event → ℕ → List Event → MldState × List Event
and_told st es n told =
    (record st { events_published = (st.events_published + n) % 2 ^ 64 }, es ++ told)

and_told_none :
    (st : MldState) (es : List Event)
    → st.events_published < 2 ^ 64
    → and_told st es 0 [] ≡ (st, es)
and_told_none st es lt =
    let same_count : (st.events_published + 0) % 2 ^ 64 ≡ st.events_published = omega arith in
    cc (same_count, append-nil es)

and_told_again :
    (st : MldState) (es told : List Event) (e : Event) (n : ℕ)
    → and_told (and_told st es 1 (e ∷ [])).0 (es ++ e ∷ []) n told
      ≡ and_told st es (suc n) (e ∷ told)
and_told_again st es told e n =
    let sum : ((st.events_published + 1) % 2 ^ 64 + n) % 2 ^ 64
        ≡ (st.events_published + suc n) % 2 ^ 64 =
      omega arith in
    cc (sum, append_assoc es (e ∷ []) told)

publish_all-mld_events :
    (iface : List ℕ) (ms : List Membership) (st : MldState) (es : List Event)
    → Fits 63 iface
    → AreMemberships ms
    → st.events_published < 2 ^ 64
    → publish_all iface ms (st, es) ≡ and_told st es (length ms) (mld_events iface ms)
unfolding publish_all publish_mld_event
publish_all-mld_events iface [] st es hi h lt = sym (and_told_none st es lt)
publish_all-mld_events iface (m ∷ ms) st es hi h lt =
    let told =
      publish-finish (ascii "discovery.mld") (membership_json iface m) _ _
        (finish-membership_json iface m hi h.0) in
    let e : Event = record {
      channel = ascii "discovery.mld";
      text = text_of (membership_fields iface m);
    } in
    let st' = (and_told st es 1 (e ∷ [])).0 in
    ap (λ (p : Parse Event). publish_all iface ms (count_event st es p)) told
    ∙ publish_all-mld_events iface ms st' (es ++ e ∷ []) hi h.1 (omega arith)
    ∙ and_told_again st es (mld_events iface ms) e (length ms)

-- What the handler gives for what its checks give.
abbrev pub reply :
    List ℕ → MldState → Parse (Option (List Membership)) → Parse (Option (MldState × List Event))
reply iface st (ok none) = ok none
reply iface st (ok (some ms)) = ok (
    some (
      record st { events_published = (st.events_published + length ms) % 2 ^ 64 },
      mld_events iface ms,
    ))
reply iface st reject = ok (some (st, []))
reply iface st fault = fault

hear-reply :
    (iface ip6 : List ℕ) (st : MldState) (m : Parse (Option (List Membership)))
    → Fits 63 iface
    → st.events_published < 2 ^ 64
    → Ensures (Heard ip6) m
    → hear iface st m ≡ reply iface st m
unfolding hear
hear-reply iface ip6 st (ok none) hi lt h = refl
hear-reply iface ip6 st (ok (some ms)) hi lt h =
    ap (λ (r : MldState × List Event). ok (some r)) (publish_all-mld_events iface ms st [] hi h lt)
hear-reply iface ip6 st reject hi lt h = refl
hear-reply iface ip6 st fault hi lt h = refl

-- For `inet_ntop` as documented, an interface name of at most 63 plain bytes, a 64-bit count and a
-- frame on the listener's own handle: whatever the bytes, with a round for each of them none is read
-- behind the end; the rounds are used up only where the headers, followed one after the other from
-- the protocol of the IPv6 header on, come to an extension header whose size is kept as zero; and
-- else every membership of a packet that passes the checks is published with its whole text, in
-- order, and counted.
pub mld_on_packet-reply :
    (ntop : List ℕ → List ℕ) (iface : List ℕ) (st : MldState) (pkt : List ℕ)
    → IsNtop6 ntop
    → Fits 63 iface
    → st.events_published < 2 ^ 64
    → IsBytes pkt
    → Ensures (Heard (drop 14 pkt)) (read_mld ntop (length pkt) pkt)
      × (mld_on_packet ntop iface (length pkt) st pkt st.pcap_handle
          ≡ reply iface
              (record st { packets_seen = (st.packets_seen + 1) % 2 ^ 64 })
              (read_mld ntop (length pkt) pkt))
unfolding mld_on_packet
mld_on_packet-reply ntop iface st pkt law hi lt h =
    let safe = read_mld-Ensures ntop law pkt h in
    let own : not (st.pcap_handle == st.pcap_handle) ≡ false = ground arith in
    (safe, simp own (hear-reply iface (drop 14 pkt) _ (read_mld ntop (length pkt) pkt) hi lt safe))
