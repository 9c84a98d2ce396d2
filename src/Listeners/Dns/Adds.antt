-- ===== src/Listeners/Dns/Adds.antt =====
-- What src/agent/src/modules/dns_listener.c writes with src/lib/json.c, as far as quotes go.
use packetsonde.Prelude.{
  ℕ, ◌≡◌, refl, sym, ◌∙◌, Bool, true, false, ◌||◌, none, some, List, [], ◌∷◌, ◌++◌, leb,
  if◌then◌else◌, length, ascii,
}
use mathlib.Core.Path.{subst}
use mathlib.Core.Option.{some-injective}
use packetsonde.Prelude.Int.{pos}
use packetsonde.Json.Writer.{
  Json, init, emit, emit_quoted, maybe_comma, object_begin, object_end, key_string, key_int,
  array_begin, array_end, finish, decimal,
}
use packetsonde.Json.Prints.{
  Prints, Prints-refl, Prints-trans, steered, emit-Prints, emit_quoted-Prints, maybe_comma-Prints,
  key_string-Prints, object_end-Prints, quoted, comma,
}
use packetsonde.Listeners.Dns.Message.{Answer, Edns}
use packetsonde.Listeners.Dns.Publish.{write_answer, write_answers, edns_object, dns_type_name}
use packetsonde.Listeners.Dns.Quotes.{
  IsEven, append-IsEven, quoted-IsEven, comma-IsEven, decimal-IsEven,
}

-- What was written is passed without a trace.
abbrev pub Adds : Json → Json → Type 0
Adds j k = (s : List ℕ) × IsEven s × Prints j s k

pub Adds-trans : (j k l : Json) → Adds j k → Adds k l → Adds j l
Adds-trans j k l (s, h, p) (u, h', q) = (s ++ u, append-IsEven s u h h', Prints-trans p q)

emit-Adds : (j : Json) (s : List ℕ) → IsEven s → Adds j (emit j s)
emit-Adds j s h = (s, h, emit-Prints j s)

maybe_comma-Adds : (j : Json) → Adds j (maybe_comma j)
maybe_comma-Adds j =
    (comma j.needs_comma, comma-IsEven j.needs_comma, maybe_comma-Prints j j.needs_comma refl)

-- A comma where one is due, the name and what follows it.
named-Adds :
    (j : Json) (key s : List ℕ) → IsEven s → Adds j (emit (emit_quoted (maybe_comma j) key) s)
named-Adds j key s h =
    let k = maybe_comma j in
    Adds-trans j k _ (maybe_comma-Adds j) (
      Adds-trans k (emit_quoted k key) _ (quoted key, quoted-IsEven key, emit_quoted-Prints k key)
        (emit-Adds (emit_quoted k key) s h))

colon-IsEven : (s : List ℕ) → IsEven s → IsEven (58 ∷ s)
colon-IsEven s h b t = h b t

pub key_string-Adds : (j : Json) (key val : List ℕ) → Adds j (key_string j key val)
key_string-Adds j key val = (
  _,
  append-IsEven (comma j.needs_comma) _ (comma-IsEven j.needs_comma) (
      append-IsEven (quoted key) (58 ∷ quoted val) (quoted-IsEven key)
        (colon-IsEven (quoted val) (quoted-IsEven val))),
  key_string-Prints j j.needs_comma key val refl,
)

key_int-Adds : (j : Json) (key : List ℕ) (n : ℕ) → Adds j (key_int j key (pos n))
unfolding key_int
key_int-Adds j key n =
    let (s, h, p) =
      named-Adds j key (58 ∷ decimal (pos n)) (colon-IsEven (decimal (pos n)) (decimal-IsEven n)) in
    (s, h, steered true _ p)

pub array_begin-Adds : (j : Json) (key : List ℕ) → Adds j (array_begin j key)
unfolding array_begin
array_begin-Adds j key =
    let (s, h, p) = named-Adds j key (58 ∷ 91 ∷ []) (λ b t. refl) in (s, h, steered false _ p)

pub array_end-Adds : (j : Json) → Adds j (array_end j)
unfolding array_end
array_end-Adds j = (93 ∷ [], (λ b t. refl), steered true _ (emit-Prints j (93 ∷ [])))

pub object_begin-Adds : (j : Json) → Adds j (object_begin j)
unfolding object_begin
object_begin-Adds j =
    let k = maybe_comma j in
    let (s, h, p) =
      Adds-trans j k (emit k (123 ∷ [])) (maybe_comma-Adds j)
        (emit-Adds k (123 ∷ []) (λ b t. refl)) in
    (s, h, steered false _ p)

object_end-Adds : (j : Json) → Adds j (object_end j)
object_end-Adds j = (125 ∷ [], (λ b t. refl), object_end-Prints j)

write_answer-Adds : (j : Json) (a : Answer) → Adds j (write_answer j a)
unfolding write_answer
write_answer-Adds j a =
    let j1 = object_begin j in
    let j2 = key_string j1 (ascii "name") a.name in
    let j3 = key_string j2 (ascii "type") (dns_type_name a.type) in
    let j4 = key_string j3 (ascii "data") a.rdata in
    let j5 = key_int j4 (ascii "ttl") (pos a.ttl) in
    Adds-trans j j1 _ (object_begin-Adds j) (
      Adds-trans j1 j2 _ (key_string-Adds j1 (ascii "name") a.name) (
        Adds-trans j2 j3 _ (key_string-Adds j2 (ascii "type") (dns_type_name a.type)) (
          Adds-trans j3 j4 _ (key_string-Adds j3 (ascii "data") a.rdata)
            (Adds-trans j4 j5 _ (key_int-Adds j4 (ascii "ttl") a.ttl) (object_end-Adds j5)))))

pub write_answers-Adds : (as' : List Answer) (j : Json) → Adds j (write_answers j as')
unfolding write_answers
write_answers-Adds [] j = ([], (λ b t. refl), Prints-refl j)
write_answers-Adds (a ∷ as') j =
    Adds-trans j (write_answer j a) _ (write_answer-Adds j a)
      (write_answers-Adds as' (write_answer j a))

if-Adds : (t : Bool) (j k : Json) → Adds j k → Adds j (if t then k else j)
if-Adds true j k h = h
if-Adds false j k h = ([], (λ b t. refl), Prints-refl j)

edns_object-Adds : (cap : ℕ) (e : Edns) → Adds (init cap) (edns_object cap e)
unfolding edns_object
edns_object-Adds cap e =
    let je = object_begin (init cap) in
    let named = key_string je (ascii "ecs_subnet") e.ecs_subnet in
    let ecs = key_int named (ascii "ecs_family") (pos e.ecs_family) in
    let je1 = (if e.has_ecs then ecs else je) in
    let nsid = key_string je1 (ascii "nsid") e.nsid in
    let je2 = (if e.has_nsid then nsid else je1) in
    Adds-trans (init cap) je _ (object_begin-Adds (init cap)) (
      Adds-trans je je1 _
        (if-Adds e.has_ecs je ecs (
          Adds-trans je named ecs (key_string-Adds je (ascii "ecs_subnet") e.ecs_subnet)
            (key_int-Adds named (ascii "ecs_family") e.ecs_family)))
        (Adds-trans je1 je2 _
          (if-Adds e.has_nsid je1 nsid (key_string-Adds je1 (ascii "nsid") e.nsid))
          (object_end-Adds je2)))

-- What is finished was written without an error.
pub finish_text : (j : Json) (t : List ℕ) → finish j ≡ some t → (j.error ≡ false) × (j.text ≡ t)
unfolding finish
finish_text j t e = parts j.error (leb j.cap (length j.text)) e
  where
    parts :
        (bad full : Bool)
        → (if bad || full then none else some j.text) ≡ some t
        → (bad ≡ false) × (j.text ≡ t)
    parts true full h = cc
    parts false true h = cc
    parts false false h = (refl, some-injective _ _ h)

pub edns_object-IsEven :
    (cap : ℕ) (e : Edns) (t : List ℕ) → finish (edns_object cap e) ≡ some t → IsEven t
edns_object-IsEven cap e t f =
    let (s, h, p) = edns_object-Adds cap e in
    let (fine, text) = finish_text (edns_object cap e) t f in
    let whole : s ≡ t = sym (p.sound fine).1 ∙ text in subst IsEven whole h
