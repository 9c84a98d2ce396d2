-- ===== src/Listeners/Dns/Whole.antt =====
-- A whole message in src/agent/src/modules/dns_listener.c is read only inside the packet, into
-- arrays that take what is read.
use packetsonde.Prelude.{
  ℕ, zero, suc, ◌+◌, ◌-◌, ◌/◌, ◌^◌, ◌≤◌, Bool, true, false, not, ◌&&◌, Option, none, some, List, [],
  ltb, leb, ◌==◌, if◌then◌else◌, length, drop, arith, length-append,
}
use packetsonde.Wire.{Parse, ok, reject, fault, ◌>>=◌, bytes}
use packetsonde.Wire.Safe.{
  IsBytes, Ensures, bind, either, weaken, past, read_byte, read_bytes, read_u16, read_u32,
}
use packetsonde.Listeners.{c_string}
use packetsonde.Listeners.Dns.{dns_decompress_name, dns_skip_name}
use packetsonde.Listeners.Dns.Safe.{
  IsName, IsInside, dns_decompress_name-Ensures, dns_skip_name-Ensures,
}
use packetsonde.Listeners.Dns.Message.{
  attempt, Answer, Edns, Response, no_edns, questions, add_name, store_answer, records, ecs_option,
  nsid_text, options, or_break, additional, read_response,
}

-- Nothing of the result: only that no read is behind the end and no loop out of rounds.
abbrev pub Any {ℓ} : {A : Type ℓ} → A → Type 0
Any a = Unit

attempt-Ensures {ℓ} :
    {A : Type ℓ} (R : A → Type 0) (m : Parse A) → Ensures R m → Ensures Any (attempt m)
attempt-Ensures R (ok a) h = tt
attempt-Ensures R reject h = tt
attempt-Ensures R fault h = h

or_break-Ensures :
    (e : Edns) (f : ℕ → Parse Edns) (o : Option ℕ)
    → ((n : ℕ) → Ensures Any (f n))
    → Ensures Any (or_break e f o)
or_break-Ensures e f none k = tt
or_break-Ensures e f (some n) k = k n

-- At most so many answers.
abbrev AtMost : ℕ → List Answer → Type 0
AtMost n answers = length answers ≤ n

add_name-AtMost :
    (answers : List Answer) (name : List ℕ) (rtype rttl : ℕ) (o : Option (ℕ × List ℕ))
    → AtMost (length answers + 1) (add_name answers name rtype rttl o)
add_name-AtMost answers name rtype rttl none = omega arith
add_name-AtMost answers name rtype rttl (some (n, text)) = omega (arith, length-append answers)

-- What the section of records gives: no more answers than the array takes.
abbrev AreFew : ℕ × List Answer → Type 0
AreFew (at, answers) = AtMost 32 answers

module _ (ntop ntop6 : List ℕ → List ℕ) (dns : List ℕ) (h : IsBytes dns) where
  questions-Ensures :
      (left : ℕ) (first : Bool) (at : ℕ) (first_query : List ℕ)
      → Ensures Any (questions dns left first at first_query)
  unfolding questions
  questions-Ensures zero first at first_query = tt
  questions-Ensures (suc left) first at first_query =
      either Any (ltb at (length dns)) _ _
        (λ on.
          bind (IsName dns at 256) Any (dns_decompress_name dns at 256) _
            (dns_decompress_name-Ensures dns h 256 at (ground arith) (omega arith))
            λ (n, qname) hn. past Any (ltb (length dns) (at + n + 4)) _ λ room.
              questions-Ensures left false (at + n + 4)
                (if first then c_string qname else first_query))
        (λ end. tt)

  store_answer-Ensures :
      (answers : List Answer) (name : List ℕ) (rtype rttl rdlen at : ℕ)
      → at + rdlen ≤ length dns
      → Ensures
          (AtMost (length answers + 1))
          (store_answer ntop ntop6 dns answers name rtype rttl rdlen at)
  unfolding store_answer
  store_answer-Ensures answers name rtype rttl rdlen at fits =
      let Q = AtMost (length answers + 1) in
      either Q (rtype == 1 && rdlen == 4) _ _
        (λ a.
          read_bytes Q dns 0 at 4 _ h (ground arith)
            λ addr ha size. omega (arith, length-append answers))
        λ _.
          either Q (rtype == 28 && rdlen == 16) _ _
            (λ aaaa.
              read_bytes Q dns 0 at 16 _ h (ground arith)
                λ addr ha size. omega (arith, length-append answers))
            λ _.
              either Q (rtype == 12) _ _
                (λ ptr.
                  bind Any Q (attempt (dns_decompress_name dns at 256)) _
                    (attempt-Ensures (IsName dns at 256) (dns_decompress_name dns at 256)
                      (dns_decompress_name-Ensures dns h 256 at (omega arith) (omega arith)))
                    λ o _. add_name-AtMost answers name rtype rttl o)
                (λ other. omega (arith, length-append answers))

  records-Ensures :
      (ancount left r at : ℕ) (answers : List Answer)
      → AtMost 32 answers
      → Ensures AreFew (records ntop ntop6 dns ancount left r at answers)
  unfolding records
  records-Ensures ancount zero r at answers few = few
  records-Ensures ancount (suc left) r at answers few =
      let Q = AreFew in
      either Q (ltb at (length dns)) _ _
        (λ on.
          bind (IsName dns at 256) Q (dns_decompress_name dns at 256) _
            (dns_decompress_name-Ensures dns h 256 at (ground arith) (omega arith))
            λ (n, rname) hn.
              let fixed = at + n in
              past Q (ltb (length dns) (fixed + 10)) _ λ room.
                read_u16 Q dns fixed _ h (ground arith) λ rtype ht.
                  read_u32 Q dns (fixed + 4) _ h (ground arith) λ rttl hl.
                    read_u16 Q dns (fixed + 8) _ h (ground arith) λ rdlen hr.
                      past Q (ltb (length dns) (fixed + 10 + rdlen)) _ λ whole.
                        bind (AtMost 32) Q
                          (if ltb r ancount && ltb (length answers) 32
                            then store_answer ntop ntop6 dns answers (c_string rname) rtype rttl
                                rdlen (fixed + 10)
                            else ok answers)
                          _
                          (either (AtMost 32) (ltb r ancount && ltb (length answers) 32) _ _
                            (λ kept.
                              weaken (AtMost (length answers + 1)) (AtMost 32) _
                                (λ (as' : List Answer) le. ground arith)
                                (store_answer-Ensures answers (c_string rname) rtype rttl rdlen
                                  (fixed + 10) (ground arith)))
                            (λ passed. few))
                          λ answers' few'.
                            records-Ensures ancount left (r + 1) (fixed + 10 + rdlen) answers' few')
        (λ end. few)

  ecs_option-Ensures :
      (at opt_len : ℕ) (e : Edns)
      → at + opt_len ≤ length dns
      → 4 ≤ opt_len
      → Ensures Any (ecs_option ntop ntop6 dns at opt_len e)
  unfolding ecs_option
  ecs_option-Ensures at opt_len e fits long = read_u16 Any dns at _ h (omega arith) λ family hf.
      read_byte Any dns 0 (at + 2) _ h (omega arith) λ src_prefix hs.
        either Any (family == 1 && leb (opt_len - 4) 4) _ _
          (λ v4. read_bytes Any dns 0 (at + 4) (opt_len - 4) _ h (omega arith) λ a ha size. tt)
          λ _.
            either Any (family == 2 && leb (opt_len - 4) 16) _ _
              (λ v6. read_bytes Any dns 0 (at + 4) (opt_len - 4) _ h (omega arith) λ a ha size. tt)
              (λ other. tt)

  options-Ensures :
      (opt_end rounds at : ℕ) (e : Edns)
      → opt_end ≤ length dns
      → opt_end ≤ at + rounds
      → Ensures Any (options ntop ntop6 dns opt_end rounds at e)
  unfolding options
  options-Ensures opt_end zero at e le enough =
      either Any (leb (at + 4) opt_end) _ _ (λ on. absurd (ground arith)) (λ end. tt)
  options-Ensures opt_end (suc rounds) at e le enough =
      either Any (leb (at + 4) opt_end) _ _
        (λ on. read_u16 Any dns at _ h (ground arith) λ opt_code hc.
          read_u16 Any dns (at + 2) _ h (ground arith) λ opt_len hl.
            either Any (ltb opt_end (at + 4 + opt_len)) _ _ (λ cut. tt)
              λ whole.
                bind Any Any
                  (if opt_code == 8 && leb 4 opt_len
                    then ecs_option ntop ntop6 dns (at + 4) opt_len e
                    else if opt_code == 3 && ltb 0 opt_len
                    then (bytes (drop 0 dns) (at + 4) opt_len >>= λ bs.
                        ok (record e { has_nsid = true; nsid = nsid_text bs }))
                    else ok e)
                  _
                  (either Any (opt_code == 8 && leb 4 opt_len) _ _
                    (λ ecs. ecs_option-Ensures (at + 4) opt_len e (ground arith) (ground arith))
                    λ _.
                      either Any (opt_code == 3 && ltb 0 opt_len) _ _
                        (λ nsid.
                          read_bytes Any dns 0 (at + 4) opt_len _ h (ground arith) λ bs hb size. tt)
                        (λ other. tt))
                  λ e' _. options-Ensures opt_end rounds (at + 4 + opt_len) e' le (omega arith))
        (λ end. tt)

  additional-Ensures : (left at : ℕ) (e : Edns) → Ensures Any (additional ntop ntop6 dns left at e)
  unfolding additional
  additional-Ensures zero at e = tt
  additional-Ensures (suc left) at e =
      either Any (ltb at (length dns)) _ _
        (λ on.
          bind Any Any (attempt (dns_skip_name dns at)) _
            (attempt-Ensures (IsInside dns at) (dns_skip_name dns at)
              (dns_skip_name-Ensures dns at h))
            λ o _. or_break-Ensures e _ o λ n.
              let fixed = at + n in
              either Any (ltb (length dns) (fixed + 10)) _ _ (λ cut. tt)
                λ room. read_u16 Any dns fixed _ h (ground arith) λ rtype ht.
                  read_u16 Any dns (fixed + 8) _ h (ground arith) λ rdlen hr.
                    either Any (ltb (length dns) (fixed + 10 + rdlen)) _ _ (λ cut. tt)
                      λ whole.
                        bind Any Any
                          (if rtype == 41
                            then options ntop ntop6 dns (fixed + 10 + rdlen) rdlen (fixed + 10) e
                            else ok e)
                          _
                          (either Any (rtype == 41) _ _
                            (λ opt.
                              options-Ensures (fixed + 10 + rdlen) rdlen (fixed + 10) e
                                (ground arith) (omega arith))
                            (λ other. tt))
                          λ e' _. additional-Ensures left (fixed + 10 + rdlen) e')
        (λ end. tt)

  -- Whatever the bytes of a DNS message: its four sections are read only inside the message, every
  -- walk in them ends, and what is accepted has from 1 to 32 answers, as many as the array takes.
  pub read_response-Ensures :
      Ensures
        (λ (r : Response). (1 ≤ length r.answers) × (length r.answers ≤ 32))
        (read_response ntop ntop6 dns)
  unfolding read_response
  read_response-Ensures =
      let Q = λ (r : Response). (1 ≤ length r.answers) × (length r.answers ≤ 32) in
      past Q (ltb (length dns) 12) _ λ long. read_u16 Q dns 2 _ h (ground arith) λ flags hf.
        past Q (not (flags / 2 ^ 15 == 1)) _ λ is_response.
          read_u16 Q dns 4 _ h (ground arith) λ qdcount hq.
            read_u16 Q dns 6 _ h (ground arith) λ ancount ha.
              read_u16 Q dns 8 _ h (ground arith) λ nscount hn.
                read_u16 Q dns 10 _ h (ground arith) λ arcount hr.
                  bind Any Q (questions dns qdcount true 12 []) _
                    (questions-Ensures qdcount true 12 [])
                    λ (at, first_query) _.
                      bind AreFew Q (records ntop ntop6 dns ancount (ancount + nscount) 0 at []) _
                        (records-Ensures ancount (ancount + nscount) 0 at [] (omega arith))
                        λ (at', answers) few. past Q (length answers == 0) _ λ useful.
                          bind Any Q (additional ntop ntop6 dns arcount at' no_edns) _
                            (additional-Ensures arcount at' no_edns) λ edns _. (ground arith, few)
