-- ===== src/Listeners/Dns/Publish.antt =====
-- The text that src/agent/src/modules/dns_listener.c publishes of a response, and its handler.
use packetsonde.Prelude.{
  ℕ, ◌-◌, true, ◌||◌, Option, none, some, List, [], ◌∷◌, ◌++◌, ltb, ◌==◌, if◌then◌else◌, length,
  take, drop, ascii,
}
use packetsonde.Prelude.Int.{pos}
use packetsonde.Wire.{Parse, ◌>>=◌, return_if}
use packetsonde.Json.Writer.{
  Json, init, object_begin, object_end, key_string, key_int, array_begin, array_end, finish,
}
use packetsonde.Listeners.{Event, publish}
use packetsonde.Listeners.Dns.{strip_headers}
use packetsonde.Listeners.Dns.Message.{Answer, Edns, Response, read_response}

unfoldable pub dns_type_name : ℕ → List ℕ
dns_type_name type =
    if type == 1
    then ascii "A"
    else if type == 28
    then ascii "AAAA"
    else if type == 12
    then ascii "PTR"
    else if type == 5
    then ascii "CNAME"
    else if type == 2
    then ascii "NS"
    else ascii "OTHER"

-- `answers[0]`, of which there is one by then.
abbrev pub response_type : List Answer → List ℕ
response_type [] = ascii "UNKNOWN"
response_type (a ∷ as') = dns_type_name a.type

abbrev pub first_name : List Answer → List ℕ
first_name [] = []
first_name (a ∷ as') = a.name

abbrev pub query_name : List ℕ → List Answer → List ℕ
query_name [] answers = first_name answers
query_name (c ∷ s) answers = c ∷ s

unfoldable pub write_answer : Json → Answer → Json
unfolding dns_type_name
write_answer j a =
    let j1 = object_begin j in
    let j2 = key_string j1 (ascii "name") a.name in
    let j3 = key_string j2 (ascii "type") (dns_type_name a.type) in
    let j4 = key_string j3 (ascii "data") a.rdata in
    let j5 = key_int j4 (ascii "ttl") (pos a.ttl) in object_end j5

unfoldable pub write_answers : Json → List Answer → Json
unfolding write_answer
write_answers j [] = j
write_answers j (a ∷ as') = write_answers (write_answer j a) as'

-- The object of the options, in what is left of the buffer.
unfoldable pub edns_object : ℕ → Edns → Json
edns_object edns_cap e =
    let je = object_begin (init edns_cap) in
    let je1 =
      (if e.has_ecs
        then key_int (key_string je (ascii "ecs_subnet") e.ecs_subnet) (ascii "ecs_family")
            (pos e.ecs_family)
        else je) in
    let je2 = (if e.has_nsid then key_string je1 (ascii "nsid") e.nsid else je1) in object_end je2

-- `j.len += je.len`, or the error, behind the `len` bytes in `text`.
abbrev pub append_object : Json → List ℕ → Option (List ℕ) → Json
append_object j text none = record j { text = text; error = true }
append_object j text (some []) = record j { text = text; error = true }
append_object j text (some (c ∷ object)) = record j { text = text ++ (c ∷ object) }

-- `"edns":""` loses its last byte, and the object is written from there on.
unfoldable pub splice : Json → Edns → Json
unfolding edns_object
splice j e =
    let j' = key_string j (ascii "edns") [] in
    let text = take (length j'.text - 1) j'.text in
    if j'.error || length j'.text == 0
    then j'
    else append_object j' text (finish (edns_object (4096 - length text) e))

unfoldable pub response_json : Response → Json
unfolding write_answers splice
response_json r =
    let j = object_begin (init 4096) in
    let j1 = key_string j (ascii "query") (query_name r.first_query r.answers) in
    let j2 = key_string j1 (ascii "type") (response_type r.answers) in
    let j3 = array_end (write_answers (array_begin j2 (ascii "answers")) r.answers) in
    let j4 = (if r.edns.has_ecs || r.edns.has_nsid then splice j3 r.edns else j3) in object_end j4

unfoldable pub dns_on_packet : (List ℕ → List ℕ) → (List ℕ → List ℕ) → List ℕ → Parse Event
unfolding response_json
dns_on_packet ntop ntop6 pkt = do
  _ ← return_if (ltb (length pkt) 15)
  dns_off ← strip_headers pkt
  r ← read_response ntop ntop6 (drop dns_off pkt)
  publish (ascii "discovery.dns") (response_json r)
