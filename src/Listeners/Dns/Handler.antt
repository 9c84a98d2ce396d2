-- ===== src/Listeners/Dns/Handler.antt =====
-- The handler of src/agent/src/modules/dns_listener.c as a whole.
use packetsonde.Prelude.{ℕ, ◌≤◌, Option, none, some, List, [], ◌∷◌, ltb, length, drop, ascii}
use packetsonde.Wire.Safe.{IsBytes, Ensures, IsBytes-drop, bind, past}
use packetsonde.Json.Writer.{Json, finish}
use packetsonde.Listeners.{sent, publish}
use packetsonde.Listeners.Dns.{strip_headers}
use packetsonde.Listeners.Dns.Safe.{IsInside, strip_headers-Ensures}
use packetsonde.Listeners.Dns.Message.{Response, read_response}
use packetsonde.Listeners.Dns.Whole.{Any, read_response-Ensures}
use packetsonde.Listeners.Dns.Publish.{response_json, dns_on_packet}

-- From 1 to 32 answers.
abbrev pub IsAnswered : Response → Type 0
IsAnswered r = (1 ≤ length r.answers) × (length r.answers ≤ 32)

sent-Any : (channel : List ℕ) (o : Option (List ℕ)) → Ensures Any (sent channel o)
sent-Any channel none = tt
sent-Any channel (some []) = tt
sent-Any channel (some (c ∷ s)) = tt

publish-Any : (channel : List ℕ) (j : Json) → Ensures Any (publish channel j)
unfolding publish
publish-Any channel j = sent-Any channel (finish j)

-- Whatever the bytes of a frame: the headers, the names and all four sections of the message are
-- read only inside it, every walk ends, the message begins inside the frame, and a response that is
-- accepted has from 1 to 32 answers, as many as the array takes.
pub dns_on_packet-IsAnswered :
    (ntop ntop6 : List ℕ → List ℕ) (pkt : List ℕ)
    → IsBytes pkt
    → Ensures Any (dns_on_packet ntop ntop6 pkt)
      × (Ensures (IsInside pkt 0) (strip_headers pkt)
          × ((off : ℕ) → Ensures IsAnswered (read_response ntop ntop6 (drop off pkt))))
unfolding dns_on_packet
dns_on_packet-IsAnswered ntop ntop6 pkt h =
    let inside = strip_headers-Ensures pkt h in
    let answered =
      (λ (off : ℕ). read_response-Ensures ntop ntop6 (drop off pkt) (IsBytes-drop off pkt h)) in
    (
      past Any (ltb (length pkt) 15) _ λ long.
          bind (IsInside pkt 0) Any (strip_headers pkt) _ inside λ dns_off _.
            bind IsAnswered Any (read_response ntop ntop6 (drop dns_off pkt)) _ (answered dns_off)
              λ r _. publish-Any (ascii "discovery.dns") (response_json r),
      (inside, answered),
    )
