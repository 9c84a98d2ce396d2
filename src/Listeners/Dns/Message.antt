-- ===== src/Listeners/Dns/Message.antt =====
-- The message parser of src/agent/src/modules/dns_listener.c, `dns_parse_and_publish` up to the
-- text. `ntop` is `inet_ntop` of an IPv4 address and `ntop6` of an IPv6 address.
use packetsonde.Prelude.{
  ℕ, zero, suc, ◌+◌, ◌-◌, ◌/◌, ◌^◌, Bool, true, false, not, ◌&&◌, Option, none, some, List, [], ◌∷◌,
  ◌++◌, ltb, leb, ◌==◌, if◌then◌else◌, length, take, drop, replicate,
}
use packetsonde.Prelude.Int.{pos}
use packetsonde.Wire.{
  Parse, ok, reject, fault, ◌>>=◌, byte, bytes, read_u16_be, read_u32_be, return_if,
}
use packetsonde.Json.Writer.{decimal}
use packetsonde.Listeners.{c_string, hex_all}
use packetsonde.Listeners.Dns.{dns_decompress_name, dns_skip_name}

-- A call whose -1 does not end the caller.
abbrev pub attempt {ℓ} : {A : Type ℓ} → Parse A → Parse (Option A)
attempt (ok a) = ok (some a)
attempt reject = ok none
attempt fault = fault

pub record Answer : Type 0 where
  pub name : List ℕ
  pub type : ℕ
  pub ttl : ℕ
  pub rdata : List ℕ

pub record Edns : Type 0 where
  pub has_ecs : Bool
  pub ecs_family : ℕ
  pub ecs_src_prefix : ℕ
  pub ecs_subnet : List ℕ
  pub has_nsid : Bool
  pub nsid : List ℕ

abbrev pub no_edns : Edns
no_edns = record {
  has_ecs = false;
  ecs_family = 0;
  ecs_src_prefix = 0;
  ecs_subnet = [];
  has_nsid = false;
  nsid = [];
}

-- The question section: where it ends, and the first name.
unfoldable pub questions : List ℕ → ℕ → Bool → ℕ → List ℕ → Parse (ℕ × List ℕ)
questions dns zero first at first_query = ok (at, first_query)
questions dns (suc left) first at first_query =
    let more = (do
      (n, qname) ← dns_decompress_name dns at 256
      _ ← return_if (ltb (length dns) (at + n + 4))
      questions dns left false (at + n + 4) (if first then c_string qname else first_query)) in
    if ltb at (length dns) then more else ok (at, first_query)

abbrev pub add_answer : List Answer → List ℕ → ℕ → ℕ → List ℕ → List Answer
add_answer answers name rtype rttl text =
    answers ++ record { name = name; type = rtype; ttl = rttl; rdata = text } ∷ []

-- A name as the text of an answer, or no answer.
abbrev pub add_name : List Answer → List ℕ → ℕ → ℕ → Option (ℕ × List ℕ) → List Answer
add_name answers name rtype rttl none = answers
add_name answers name rtype rttl (some (n, text)) =
    add_answer answers name rtype rttl (c_string text)

unfoldable pub store_answer :
    (List ℕ → List ℕ)
    → (List ℕ → List ℕ)
    → List ℕ
    → List Answer
    → List ℕ
    → ℕ
    → ℕ
    → ℕ
    → ℕ
    → Parse (List Answer)
store_answer ntop ntop6 dns answers name rtype rttl rdlen at =
    if rtype == 1 && rdlen == 4
    then (do a ← bytes dns at 4; ok (add_answer answers name rtype rttl (ntop a)))
    else if rtype == 28 && rdlen == 16
    then (do a ← bytes dns at 16; ok (add_answer answers name rtype rttl (ntop6 a)))
    else if rtype == 12
    then (do
      found ← attempt (dns_decompress_name dns at 256)
      ok (add_name answers name rtype rttl found))
    else ok (add_answer answers name rtype rttl [])

-- The answer and authority sections: record `r`, of which the first `ancount` are answers.
unfoldable pub records :
    (List ℕ → List ℕ)
    → (List ℕ → List ℕ)
    → List ℕ
    → ℕ
    → ℕ
    → ℕ
    → ℕ
    → List Answer
    → Parse (ℕ × List Answer)
unfolding store_answer
records ntop ntop6 dns ancount zero r at answers = ok (at, answers)
records ntop ntop6 dns ancount (suc left) r at answers =
    let more = (do
      (n, rname) ← dns_decompress_name dns at 256
      let fixed = at + n
      _ ← return_if (ltb (length dns) (fixed + 10))
      rtype ← read_u16_be (drop fixed dns)
      rttl ← read_u32_be (drop (fixed + 4) dns)
      rdlen ← read_u16_be (drop (fixed + 8) dns)
      let rdata = fixed + 10
      _ ← return_if (ltb (length dns) (rdata + rdlen))
      answers' ←
          (if ltb r ancount && ltb (length answers) 32
            then store_answer ntop ntop6 dns answers (c_string rname) rtype rttl rdlen rdata
            else ok answers)
      records ntop ntop6 dns ancount left (r + 1) (rdata + rdlen) answers') in
    if ltb at (length dns) then more else ok (at, answers)

-- `"%s/%d"`
abbrev pub subnet_text : List ℕ → ℕ → List ℕ
subnet_text addr prefix = (addr ++ 47 ∷ []) ++ decimal (pos prefix)

-- The option with the client's subnet.
unfoldable pub ecs_option :
    (List ℕ → List ℕ) → (List ℕ → List ℕ) → List ℕ → ℕ → ℕ → Edns → Parse Edns
ecs_option ntop ntop6 dns at opt_len e = do
  family ← read_u16_be (drop at dns)
  src_prefix ← byte dns (at + 2)
  let e' = record e { has_ecs = true; ecs_family = family; ecs_src_prefix = src_prefix }
  let addr_bytes = opt_len - 4
  if family == 1 && leb addr_bytes 4
      then (do
        a ← bytes dns (at + 4) addr_bytes
        ok (record e' {
          ecs_subnet = subnet_text (ntop (a ++ replicate (4 - addr_bytes) 0)) src_prefix;
        }))
      else if family == 2 && leb addr_bytes 16
      then (do
        a ← bytes dns (at + 4) addr_bytes
        ok (record e' {
          ecs_subnet = subnet_text (ntop6 (a ++ replicate (16 - addr_bytes) 0)) src_prefix;
        }))
      else ok e'

abbrev pub all_print : List ℕ → Bool
all_print [] = true
all_print (c ∷ s) = leb 32 c && leb c 126 && all_print s

-- As text if all of it can be printed, and in hexadecimal digits if not; the buffer takes 127.
unfoldable pub nsid_text : List ℕ → List ℕ
nsid_text bs = if all_print bs then take 127 bs else hex_all (take 63 bs)

-- The walk over EDNS options, by the rounds left; a round moves on by four bytes at least.
unfoldable pub options :
    (List ℕ → List ℕ) → (List ℕ → List ℕ) → List ℕ → ℕ → ℕ → ℕ → Edns → Parse Edns
unfolding ecs_option nsid_text
options ntop ntop6 dns opt_end zero at e = if leb (at + 4) opt_end then fault else ok e
options ntop ntop6 dns opt_end (suc rounds) at e =
    let more = (do
      opt_code ← read_u16_be (drop at dns)
      opt_len ← read_u16_be (drop (at + 2) dns)
      let start = at + 4
      if ltb opt_end (start + opt_len) then ok e else (do
        e' ←
            (if opt_code == 8 && leb 4 opt_len
              then ecs_option ntop ntop6 dns start opt_len e
              else if opt_code == 3 && ltb 0 opt_len
              then (do
                bs ← bytes dns start opt_len
                ok (record e { has_nsid = true; nsid = nsid_text bs }))
              else ok e)
        options ntop ntop6 dns opt_end rounds (start + opt_len) e')) in
    if leb (at + 4) opt_end then more else ok e

-- `if (n < 0) break;`
abbrev pub or_break : Edns → (ℕ → Parse Edns) → Option ℕ → Parse Edns
or_break e f none = ok e
or_break e f (some n) = f n

-- The additional section; what is cut off ends it.
unfoldable pub additional :
    (List ℕ → List ℕ) → (List ℕ → List ℕ) → List ℕ → ℕ → ℕ → Edns → Parse Edns
unfolding options
additional ntop ntop6 dns zero at e = ok e
additional ntop ntop6 dns (suc left) at e =
    let behind = (λ (n : ℕ).
      (let fixed = at + n in
        if ltb (length dns) (fixed + 10) then ok e else (do
          rtype ← read_u16_be (drop fixed dns)
          rdlen ← read_u16_be (drop (fixed + 8) dns)
          let rdata = fixed + 10
          if ltb (length dns) (rdata + rdlen) then ok e else (do
            e' ←
                (if rtype == 41 then options ntop ntop6 dns (rdata + rdlen) rdlen rdata e else ok e)
            additional ntop ntop6 dns left (rdata + rdlen) e')))) in
    let more = (attempt (dns_skip_name dns at) >>= or_break e behind) in
    if ltb at (length dns) then more else ok e

pub record Response : Type 0 where
  pub first_query : List ℕ
  pub answers : List Answer
  pub edns : Edns

unfoldable pub read_response : (List ℕ → List ℕ) → (List ℕ → List ℕ) → List ℕ → Parse Response
unfolding questions records additional
read_response ntop ntop6 dns = do
  _ ← return_if (ltb (length dns) 12)
  flags ← read_u16_be (drop 2 dns)
  _ ← return_if (not (flags / 2 ^ 15 == 1))
  qdcount ← read_u16_be (drop 4 dns)
  ancount ← read_u16_be (drop 6 dns)
  nscount ← read_u16_be (drop 8 dns)
  arcount ← read_u16_be (drop 10 dns)
  (at, first_query) ← questions dns qdcount true 12 []
  (at', answers) ← records ntop ntop6 dns ancount (ancount + nscount) 0 at []
  _ ← return_if (length answers == 0)
  edns ← additional ntop ntop6 dns arcount at' no_edns
  ok (record { first_query = first_query; answers = answers; edns = edns })
