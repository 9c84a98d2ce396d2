-- ===== src/Listeners/Dns/Unclosed.antt =====
-- The quote that src/agent/src/modules/dns_listener.c leaves open in front of the options.
use packetsonde.Prelude.{
  ℕ, take-append, ◌-◌, ◌≡◌, refl, ap, sym, ◌∙◌, Bool, true, false, ◌||◌, Option, none, some, List,
  [], ◌∷◌, ◌++◌, ◌==◌, if◌then◌else◌, length, take, arith, append_assoc, ascii, length-append,
}
use packetsonde.Wire.{ok}
use packetsonde.Json.Writer.{
  Json, init, object_begin, object_end, key_string, array_begin, array_end, finish, escape,
}
use packetsonde.Json.Prints.{Prints, key_string-Prints, object_end-Prints, comma}
use packetsonde.Listeners.{Event, sent, publish}
use packetsonde.Listeners.Dns.Message.{Edns, Response}
use packetsonde.Listeners.Dns.Publish.{
  write_answers, edns_object, append_object, splice, response_json, query_name, response_type,
}
use packetsonde.Listeners.Dns.Quotes.{ends_inside, IsEven, IsOdd, append-IsOdd, edns_name-IsOdd}
use packetsonde.Listeners.Dns.Adds.{
  Adds-trans, array_begin-Adds, array_end-Adds, edns_object-IsEven, finish_text, key_string-Adds,
  object_begin-Adds, write_answers-Adds, Adds,
}

take-all_but_last : (s : List ℕ) (c : ℕ) → take (length (s ++ c ∷ []) - 1) (s ++ c ∷ []) ≡ s
take-all_but_last s c =
    let size : length (s ++ c ∷ []) - 1 ≡ length s = omega (arith, length-append s (c ∷ [])) in
    rw size (take-append s (c ∷ []))

-- What the splice adds begins a string that it does not end.
abbrev Opens : Json → Json → Type 0
Opens j k = k.error ≡ false → (j.error ≡ false) × ((u : List ℕ) × IsOdd u × (k.text ≡ j.text ++ u))

key_string-edns :
    (j : Json)
    → Prints j (comma j.needs_comma ++ ascii "\"edns\":\"\"") (key_string j (ascii "edns") [])
unfolding escape
key_string-edns j = key_string-Prints j j.needs_comma (ascii "edns") [] refl

append_object-Opens :
    (j k : Json) (text : List ℕ) (o : Option (List ℕ)) (u : List ℕ)
    → j.error ≡ false
    → text ≡ j.text ++ u
    → IsOdd u
    → ((t : List ℕ) → o ≡ some t → IsEven t)
    → Opens j (append_object k text o)
append_object-Opens j k text none u fine e odd even written = cc
append_object-Opens j k text (some []) u fine e odd even written = cc
append_object-Opens j k text (some (c ∷ t)) u fine e odd even written = (
  fine,
  (
    u ++ (c ∷ t),
    append-IsOdd u (c ∷ t) odd (even (c ∷ t) refl),
    ap (λ (w : List ℕ). w ++ (c ∷ t)) e ∙ append_assoc j.text u (c ∷ t),
  ),
)

-- The splice, by the error of the empty string.
Opens-if :
    (j j' k : Json) (bad empty : Bool)
    → j'.error ≡ bad
    → (bad ≡ false → (empty ≡ false) × Opens j k)
    → Opens j (if bad || empty then j' else k)
Opens-if j j' k true empty e f okay = cc (e, okay)
Opens-if j j' k false true e f okay = cc ((f refl).0)
Opens-if j j' k false false e f okay = (f refl).1 okay

splice-Opens : (j : Json) (e : Edns) → Opens j (splice j e)
unfolding splice
splice-Opens j e =
    let j' = key_string j (ascii "edns") [] in
    let name = comma j.needs_comma ++ ascii "\"edns\":\"" in
    let before = j.text ++ name in
    let text = take (length j'.text - 1) j'.text in
    let object = edns_object (4096 - length text) e in
    Opens-if j j' (append_object j' text (finish object)) j'.error (length j'.text == 0) refl
      λ fine.
        let (okay, written) = (key_string-edns j).sound fine in
        let whole : j'.text ≡ before ++ 34 ∷ [] =
          written
          ∙ ap (λ (w : List ℕ). j.text ++ w)
              (sym (append_assoc (comma j.needs_comma) (ascii "\"edns\":\"") (34 ∷ [])))
          ∙ sym (append_assoc j.text name (34 ∷ [])) in
        let cut : text ≡ before =
          ap (λ (w : List ℕ). take (length w - 1) w) whole ∙ take-all_but_last before 34 in
        (
          ap (λ (w : List ℕ). length w == 0) whole ∙ not_empty before,
          append_object-Opens j j' text (finish object) name okay cut
              (edns_name-IsOdd j.needs_comma) (edns_object-IsEven (4096 - length text) e),
        )
  where
    not_empty : (w : List ℕ) → (length (w ++ 34 ∷ []) == 0) ≡ false
    not_empty w = ground (arith, length-append w (34 ∷ []))

-- A finished object, with what opens a string in it or without.
ended :
    (options : Bool) (j k : Json) {t : List ℕ}
    → Adds (init 4096) j
    → Opens j k
    → finish (object_end (if options then k else j)) ≡ some t
    → ends_inside t ≡ options
ended true j k {t} (s, even, p) opens f =
    let (fine, text) = finish_text (object_end k) t f in
    let (fine', text') = (object_end-Prints k).sound fine in
    let (fine'', (u, odd, text'')) = opens fine' in
    let start : j.text ≡ s = (p.sound fine'').1 in
    let all : (s ++ u) ++ 125 ∷ [] ≡ t = cc (text, text', text'', start) in
    ap ends_inside (sym all)
    ∙ ap ends_inside (append_assoc s u (125 ∷ []))
    ∙ even false (u ++ 125 ∷ [])
    ∙ odd false (125 ∷ [])
ended false j k {t} (s, even, p) opens f =
    let (fine, text) = finish_text (object_end j) t f in
    let (fine', text') = (object_end-Prints j).sound fine in
    let start : j.text ≡ s = (p.sound fine').1 in
    let all : s ++ 125 ∷ [] ≡ t = cc (text, text', start) in
    ap ends_inside (sym all) ∙ even false (125 ∷ [])

response_json-ended :
    (r : Response) (t : List ℕ)
    → finish (response_json r) ≡ some t
    → ends_inside t ≡ (r.edns.has_ecs || r.edns.has_nsid)
unfolding response_json
response_json-ended r t f =
    let j = object_begin (init 4096) in
    let query = query_name r.first_query r.answers in
    let j1 = key_string j (ascii "query") query in
    let j2 = key_string j1 (ascii "type") (response_type r.answers) in
    let begun = array_begin j2 (ascii "answers") in
    let filled = write_answers begun r.answers in
    let j3 = array_end filled in
    ended (r.edns.has_ecs || r.edns.has_nsid) j3 (splice j3 r.edns)
      (Adds-trans (init 4096) j j3 (object_begin-Adds (init 4096)) (
        Adds-trans j j1 j3 (key_string-Adds j (ascii "query") query) (
          Adds-trans j1 j2 j3 (key_string-Adds j1 (ascii "type") (response_type r.answers)) (
            Adds-trans j2 begun j3 (array_begin-Adds j2 (ascii "answers")) (
              Adds-trans begun filled j3 (write_answers-Adds r.answers begun)
                (array_end-Adds filled))))))
      (splice-Opens j3 r.edns) f

sent_text :
    (channel : List ℕ) (o : Option (List ℕ)) {e : Event} → sent channel o ≡ ok e → o ≡ some e.text
sent_text channel none h = cc
sent_text channel (some []) h = cc
sent_text channel (some (c ∷ t)) h = cc

-- A quote that no backslash escapes begins a string of JSON or ends one. Whenever a response is
-- published, whatever its names and answers, the end of its text stands inside a string that no
-- quote ends exactly if the response has an ECS or an NSID option.
pub publish-ends_inside :
    (r : Response) {e : Event}
    → publish (ascii "discovery.dns") (response_json r) ≡ ok e
    → ends_inside e.text ≡ (r.edns.has_ecs || r.edns.has_nsid)
unfolding publish
publish-ends_inside r {e} h =
    response_json-ended r e.text (sent_text (ascii "discovery.dns") (finish (response_json r)) h)
