-- ===== src/AgentProto/Stream.antt =====
-- The loops of src/lib/agent_proto.c move exactly the bytes asked for, however the callbacks cut
-- them up.
use packetsonde.Prelude.{
  ℕ, zero, suc, ◌-◌, ◌≤◌, ◌<◌, ◌≡◌, ◌≢◌, refl, ap, sym, ◌∙◌, false, some, List, [], ◌∷◌, ◌++◌, ◌==◌,
  length, take, drop, arith, length-drop, append_assoc, append-nil,
}
use packetsonde.AgentProto.{ApIo, done, io_read_more, io_write_more}

-- One read: at least one byte and at most `n`, from the front of what is pending.
pub record Served (io : ApIo) (pending : io.State → List ℕ) (n : ℕ) (s : io.State) : Type 0 where
  pub first : ℕ
  pub others : List ℕ
  pub next : io.State
  pub reads : io.read s n ≡ (some (first ∷ others), next)
  pub fits : length (first ∷ others) ≤ n
  pub pends : pending s ≡ (first ∷ others) ++ pending next

-- A callback that reads from a stream of bytes, as much at a time as it likes.
abbrev pub IsReader : (io : ApIo) → (io.State → List ℕ) → Type 0
IsReader io pending = (s : io.State) (n : ℕ) → 0 < n → pending s ≢ [] → Served io pending n s

-- One write: at least one byte and at most all.
pub record Accepted (io : ApIo) (written : io.State → List ℕ) (buf : List ℕ) (s : io.State)
    : Type 0 where
  pub count : ℕ
  pub next : io.State
  pub writes : io.write s buf ≡ (some (suc count), next)
  pub fits : suc count ≤ length buf
  pub appends : written next ≡ written s ++ take (suc count) buf

abbrev pub IsWriter : (io : ApIo) → (io.State → List ℕ) → Type 0
IsWriter io written = (s : io.State) (buf : List ℕ) → buf ≢ [] → Accepted io written buf s

-- The front of a list, cut off by its length.
cut :
    (a p w r : List ℕ)
    → a ++ p ≡ w ++ r
    → length a ≤ length w
    → (w ≡ a ++ drop (length a) w) × (p ≡ drop (length a) w ++ r)
cut [] p w r e h = (refl, e)
cut (x ∷ a) p [] r e h = absurd (omega arith)
cut (x ∷ a) p (y ∷ w) r e h =
    let tails : a ++ p ≡ w ++ r = cc in
    let heads : y ≡ x = cc in let (front, back) = cut a p w r tails (omega arith) in (cc, back)

some_left : (n : ℕ) → (suc n == 0) ≡ false
some_left n = ground arith

take-drop : (n : ℕ) (w : List ℕ) → take n w ++ drop n w ≡ w
take-drop zero w = refl
take-drop (suc n) [] = refl
take-drop (suc n) (x ∷ w) = ap (◌∷◌ x) (take-drop n w)

nil_ne_cons : {p : List ℕ} (x : ℕ) (w : List ℕ) → p ≡ x ∷ w → p ≢ []
nil_ne_cons x w e empty = cc

module _ (io : ApIo) where
  -- One round of each loop.
  read_round :
      (rounds left : ℕ) (s s1 s2 : io.State) (b : ℕ) (bs more : List ℕ)
      → io.read s (suc left) ≡ (some (b ∷ bs), s1)
      → suc left - length (b ∷ bs) ≡ length more
      → io_read_more io rounds (length more) s1 ≡ (done more, s2)
      → io_read_more io (suc rounds) (suc left) s ≡ (done ((b ∷ bs) ++ more), s2)
  unfolding io_read_more
  read_round rounds left s s1 s2 b bs more e size next = rw (some_left left, e, size, next) refl

  write_round :
      (rounds : ℕ) (x : ℕ) (buf : List ℕ) (s s1 s2 : io.State) (w : ℕ)
      → io.write s (x ∷ buf) ≡ (some (suc w), s1)
      → io_write_more io rounds (drop w buf) s1 ≡ (done tt, s2)
      → io_write_more io (suc rounds) (x ∷ buf) s ≡ (done tt, s2)
  unfolding io_write_more
  write_round rounds x buf s s1 s2 w e next = rw (some_left (length buf), e, next) refl

module _ (io : ApIo) (pending : io.State → List ℕ) (reader : IsReader io pending) where
  -- What a read of `want` with `rest` behind it comes to.
  abbrev Reads : ℕ → List ℕ → List ℕ → io.State → Type 0
  Reads rounds want rest s =
      (s' : io.State) × (io_read_more io rounds (length want) s ≡ (done want, s'))
      × (pending s' ≡ rest)

  -- The loop with `rounds` rounds after one read.
  read_on :
      (rounds x : ℕ) (want rest : List ℕ) (s : io.State)
      (c : Served io pending (suc (length want)) s)
      → pending s ≡ (x ∷ want) ++ rest
      → ((left : List ℕ)
          → length left < suc (length want)
          → pending c.next ≡ left ++ rest
          → Reads rounds left rest c.next)
      → Reads (suc rounds) (x ∷ want) rest s
  read_on rounds x want rest s c e again =
      let (front, back) =
        cut (c.first ∷ c.others) (pending c.next) (x ∷ want) rest (sym c.pends ∙ e) c.fits in
      let shorter = length-drop (length c.others) want in
      let (s', reads, pends) = again (drop (length c.others) want) (omega (arith, shorter)) back in
      let round =
        read_round io rounds (length want) s c.next s' c.first c.others
          (drop (length c.others) want) c.reads (omega (arith, shorter)) reads in
      (s', round ∙ ap (λ (w : List ℕ). (done w, s')) (sym front), pends)

  -- Where `want` is pending, the loop reads `want` and leaves the rest.
  pub io_read_more_lem :
      (rounds : ℕ) (want rest : List ℕ) (s : io.State)
      → length want ≤ rounds
      → pending s ≡ want ++ rest
      → Reads rounds want rest s
  io_read_more_lem zero [] rest s h e = (s, unfold io_read_more in refl, e)
  io_read_more_lem zero (x ∷ want) rest s h e = absurd (omega arith)
  io_read_more_lem (suc rounds) [] rest s h e = (s, unfold io_read_more in refl, e)
  io_read_more_lem (suc rounds) (x ∷ want) rest s h e =
      let c = reader s (suc (length want)) (omega arith) (nil_ne_cons x (want ++ rest) e) in
      read_on rounds x want rest s c e
        λ left fewer pends. io_read_more_lem rounds left rest c.next (omega arith) pends

module _ (io : ApIo) (written : io.State → List ℕ) (writer : IsWriter io written) where
  abbrev Writes : ℕ → List ℕ → io.State → Type 0
  Writes rounds buf s =
      (s' : io.State) × (io_write_more io rounds buf s ≡ (done tt, s'))
      × (written s' ≡ written s ++ buf)

  write_on :
      (rounds x : ℕ) (buf : List ℕ) (s : io.State) (c : Accepted io written (x ∷ buf) s)
      → Writes rounds (drop c.count buf) c.next
      → Writes (suc rounds) (x ∷ buf) s
  write_on rounds x buf s c (s', wrote, all) = (
    s',
    write_round io rounds x buf s c.next s' c.count c.writes wrote,
    all
        ∙ ap (λ (w : List ℕ). w ++ drop c.count buf) c.appends
        ∙ append_assoc (written s) (take (suc c.count) (x ∷ buf)) (drop c.count buf)
        ∙ ap (λ (w : List ℕ). written s ++ x ∷ w) (take-drop c.count buf),
  )

  -- The loop writes the whole of `buf` behind what was written before.
  pub io_write_more_lem :
      (rounds : ℕ) (buf : List ℕ) (s : io.State) → length buf ≤ rounds → Writes rounds buf s
  io_write_more_lem zero [] s h = (s, unfold io_write_more in refl, sym (append-nil (written s)))
  io_write_more_lem zero (x ∷ buf) s h = absurd (omega arith)
  io_write_more_lem (suc rounds) [] s h =
      (s, unfold io_write_more in refl, sym (append-nil (written s)))
  io_write_more_lem (suc rounds) (x ∷ buf) s h =
      let c = writer s (x ∷ buf) (nil_ne_cons x buf refl) in
      write_on rounds x buf s c (
        io_write_more_lem rounds (drop c.count buf) c.next (omega (arith, length-drop c.count buf)))
