-- ===== src/Listeners/Dns/Tests.antt =====
-- Runs of src/agent/src/modules/dns_listener.c on concrete messages. `ntop` stands for `inet_ntop`.
use packetsonde.Prelude.{replicate, drop, ℕ, ◌≡◌, refl, true, List, [], ◌∷◌, ◌++◌, arith, ascii}
use packetsonde.Wire.{ok}
use packetsonde.Wire.Safe.{Ensures}
use packetsonde.Json.Writer.{
  escape, decimal, finish, object_end, key_string, array_end, key_int, object_begin, array_begin,
}
use packetsonde.Listeners.Dns.{dns_decompress_name}
use packetsonde.Listeners.Dns.Names.{dns_decompress_name-encode}
use packetsonde.Listeners.Dns.Message.{Edns, no_edns, read_response, Response}
use packetsonde.Listeners.Dns.{strip_headers}
use packetsonde.Listeners.Dns.Safe.{IsInside}
use packetsonde.Listeners.Dns.Whole.{Any}
use packetsonde.Listeners.Dns.Publish.{dns_on_packet}
use packetsonde.Listeners.Dns.Handler.{IsAnswered, dns_on_packet-IsAnswered}
use packetsonde.Listeners.Dns.Publish.{response_json, write_answers, splice, dns_type_name}
use packetsonde.Listeners.{Event, publish}
use packetsonde.Listeners.Dns.Unclosed.{publish-ends_inside}
use packetsonde.Listeners.Dns.Quotes.{ends_inside}

-- The name www.a, whose second label stands at offset 6.
abbrev www_a : List ℕ
www_a = 3 ∷ 119 ∷ 119 ∷ 119 ∷ 192 ∷ 6 ∷ 1 ∷ 97 ∷ 0 ∷ []

dns_decompress_name-encode_example : dns_decompress_name www_a 0 256 ≡ ok (6, ascii "www.a")
dns_decompress_name-encode_example =
    dns_decompress_name-encode www_a (1 ∷ 97 ∷ 0 ∷ []) [] 0 256 0 6 (ascii "www" ∷ [])
      (ascii "a" ∷ []) (ground arith) (ground arith) (ground arith) refl refl (ground arith)

abbrev ntop : List ℕ → List ℕ
ntop a = ascii "10.0.0.1"

-- A response with the address of a.
abbrev response : List ℕ
response =
    (0 ∷ 0 ∷ 128 ∷ 0 ∷ 0 ∷ 0 ∷ 0 ∷ 1 ∷ 0 ∷ 0 ∷ 0 ∷ 0 ∷ [])
    ++ (1 ∷ 97 ∷ 0 ∷ 0 ∷ 1 ∷ 0 ∷ 1 ∷ 0 ∷ 0 ∷ 0 ∷ 60 ∷ 0 ∷ 4 ∷ 10 ∷ 0 ∷ 0 ∷ 1 ∷ [])

abbrev response_frame : List ℕ
response_frame =
    replicate 12 0
    ++ (8 ∷ 0 ∷ 69 ∷ replicate 8 0)
    ++ (17 ∷ replicate 10 0)
    ++ replicate 8 0
    ++ response

dns_on_packet-IsAnswered_example :
    Ensures Any (dns_on_packet ntop ntop response_frame)
    × (Ensures (IsInside response_frame 0) (strip_headers response_frame)
        × ((off : ℕ) → Ensures IsAnswered (read_response ntop ntop (drop off response_frame))))
dns_on_packet-IsAnswered_example = dns_on_packet-IsAnswered ntop ntop response_frame (ground arith)

abbrev with_nsid : Edns
with_nsid = record no_edns { has_nsid = true; nsid = ascii "x" }

abbrev answered : Response
answered = record {
  first_query = ascii "a";
  answers = record { name = ascii "a"; type = 1; rdata = ascii "10.0.0.1"; ttl = 60 } ∷ [];
  edns = with_nsid;
}

abbrev told : Event
told = record {
  channel = ascii "discovery.dns";
  text =
      ascii "{\"query\":\"a\",\"type\":\"A\",\"answers\":[{\"name\":\"a\",\"type\":\"A\","
      ++ ascii "\"data\":\"10.0.0.1\",\"ttl\":60}],\"edns\":\"{\"nsid\":\"x\"}}";
}

is_published : publish (ascii "discovery.dns") (response_json answered) ≡ ok told
unfolding publish response_json write_answers splice dns_type_name escape decimal finish object_end
    key_string array_end key_int object_begin array_begin
is_published = refl

publish-ends_inside_example : ends_inside told.text ≡ true
publish-ends_inside_example = publish-ends_inside answered {e = told} is_published
