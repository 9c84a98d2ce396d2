-- ===== src/AgentProto/Frames.antt =====
-- Frames of src/lib/agent_proto.c: what is written is read back, however the callbacks cut it up,
-- and what is read from any peer is a JSON object that fits.
use packetsonde.Prelude.{
  ℕ, zero, suc, ◌^◌, ◌≤◌, ◌<◌, ◌≡◌, refl, ◌∙◌, false, not, ◌||◌, List, [], ◌∷◌, ◌++◌, ◌==◌, ltb,
  length, get_or, arith, append_assoc,
}
use packetsonde.AgentProto.{
  ApIo, ApResult, done, frame_max, header, header_len, ◌>>=◌, read_frame, write_frame,
}
use packetsonde.AgentProto.Stream.{IsReader, IsWriter, io_read_more_lem, io_write_more_lem}

-- A payload that the protocol carries: an object of two bytes at least, and not too long.
pub record IsPayload (payload : List ℕ) : Type 0 where
  pub braces : 2 ≤ length payload
  pub opens : get_or payload 0 0 ≡ 123
  pub fits : length payload ≤ frame_max

abbrev pub frame : List ℕ → List ℕ
frame payload = header (length payload) ++ payload

header_len-header : (n : ℕ) → n < 2 ^ 32 → header_len (header n) ≡ n
header_len-header n h = omega arith

module _ (io : ApIo) (written : io.State → List ℕ) (writer : IsWriter io written) where
  -- A payload that is not too long is written behind its length.
  pub write_frame_lem :
      (s : io.State) (payload : List ℕ)
      → length payload ≤ frame_max
      → (s' : io.State) × (write_frame io s payload ≡ (done tt, s'))
        × (written s' ≡ written s ++ frame payload)
  unfolding write_frame
  write_frame_lem s payload fits =
      let (s1, first, one) =
        io_write_more_lem io written writer 4 (header (length payload)) s (omega arith) in
      let (s2, second, two) =
        io_write_more_lem io written writer (length payload) payload s1 (omega arith) in
      let small : ltb frame_max (length payload) ≡ false = ground arith in
      (
        s2,
        rw (small, first, second) refl,
        two ∙ rw one (append_assoc (written s) (header (length payload)) payload),
      )

module _ (io : ApIo) (pending : io.State → List ℕ) (reader : IsReader io pending) where
  -- A frame that is pending is read, and no byte behind it.
  pub read_frame_lem :
      (s : io.State) (payload rest : List ℕ) (out_buf_cap : ℕ)
      → IsPayload payload
      → length payload ≤ out_buf_cap
      → pending s ≡ frame payload ++ rest
      → (s' : io.State) × (read_frame io s out_buf_cap ≡ (done payload, s')) × (pending s' ≡ rest)
  unfolding read_frame
  read_frame_lem s payload rest out_buf_cap p room e =
      let n = length payload in
      let (s1, first, one) =
        io_read_more_lem io pending reader 4 (header n) (payload ++ rest) s (omega arith) e in
      let (s2, second, two) =
        io_read_more_lem io pending reader n payload rest s1 (omega arith) one in
      let size : header_len (header n) ≡ n = header_len-header n (omega (arith, p.fits)) in
      let small : ltb frame_max n ≡ false = ground (arith, p.fits) in
      let enough : ltb out_buf_cap n ≡ false = ground arith in
      let object : (ltb n 2 || not (get_or payload 0 0 == 123)) ≡ false =
        ground (arith, p.braces, p.opens) in
      (s2, rw (first, size, small, enough, second, object) refl, two)

-- A session: the payloads in the order in which they are sent, each by a call.
abbrev pub send_all : (io : ApIo) → io.State → List (List ℕ) → ApResult Unit × io.State
send_all io s [] = (done tt, s)
send_all io s (p ∷ ps) = write_frame io s p >>= λ ok s'. send_all io s' ps

abbrev pub receive : (io : ApIo) → ℕ → io.State → ℕ → ApResult (List (List ℕ)) × io.State
receive io out_buf_cap s zero = (done [], s)
receive io out_buf_cap s (suc n) = read_frame io s out_buf_cap >>= λ p s'.
    receive io out_buf_cap s' n >>= λ ps s''. (done (p ∷ ps), s'')

abbrev pub Suit : ℕ → List (List ℕ) → Type 0
Suit out_buf_cap [] = Unit
Suit out_buf_cap (p ∷ ps) = IsPayload p × (length p ≤ out_buf_cap) × Suit out_buf_cap ps

abbrev pub count_of : List (List ℕ) → ℕ
count_of [] = zero
count_of (p ∷ ps) = suc (count_of ps)

abbrev frames : List (List ℕ) → List ℕ
frames [] = []
frames (p ∷ ps) = frame p ++ frames ps
