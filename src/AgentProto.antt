-- ===== src/AgentProto.antt =====
-- The wire framing of src/lib/agent_proto.c: JSON objects behind a length of four bytes, over the
-- read and write callbacks that the caller supplies.
pub mod Stream
pub mod Frames
pub mod Safe
pub mod Scan
mod Tests
use packetsonde.Prelude.{
  ℕ, zero, suc, ◌+◌, ◌-◌, ◌*◌, ◌/◌, ◌%◌, ◌^◌, Bool, true, false, not, ◌||◌, Option, none, some,
  List, [], ◌∷◌, ◌++◌, ltb, ◌==◌, if◌then◌else◌, length, get_or, take, drop,
}

-- `struct ps_ap_io`, the callbacks' own state written out. `none` is a negative result, and no
-- bytes are the result 0.
pub record ApIo : Type 1 where
  pub State : Type 0
  pub read : State → ℕ → Option (List ℕ) × State
  pub write : State → List ℕ → Option ℕ × State

-- `PS_AGENT_FRAME_MAX`
abbrev pub frame_max : ℕ
frame_max = 1024 * 1024

-- `PS_AP_ERR_*`
pub data ApError : Type 0 where
  eof io_failed oversize short bad_json : ApError

-- `PS_AP_OK` with what was read, an error, or a loop that has used its rounds up.
pub data ApResult (A : Type 0) : Type 0 where
  done : A → ApResult A
  error : ApError → ApResult A
  stuck : ApResult A

-- A call, then what follows it unless it failed.
infixl 5 ◌>>=◌
abbrev pub ◌>>=◌ : {S A B : Type 0} → ApResult A × S → (A → S → ApResult B × S) → ApResult B × S
(done a, s) >>= f = f a s
(error e, s) >>= f = (error e, s)
(stuck, s) >>= f = (stuck, s)

-- `(len >> 24) & 0xff` and so on down.
abbrev pub header : ℕ → List ℕ
header len = len / 2 ^ 24 % 256 ∷ len / 2 ^ 16 % 256 ∷ len / 2 ^ 8 % 256 ∷ len % 256 ∷ []

-- The bytes do not overlap, so `|` is a sum.
abbrev pub header_len : List ℕ → ℕ
header_len hdr =
    get_or hdr 0 0 * 2 ^ 24 + get_or hdr 1 0 * 2 ^ 16 + get_or hdr 2 0 * 2 ^ 8 + get_or hdr 3 0

module _ {S A : Type 0} where
  -- What a read loop makes of the callback's result.
  abbrev pub after_read : (List ℕ → S → ApResult A × S) → Option (List ℕ) × S → ApResult A × S
  after_read more (none, s) = (error io_failed, s)
  after_read more (some [], s) = (error eof, s)
  after_read more (some (b ∷ bs), s) = more (b ∷ bs) s

  -- The same for a write loop, where the result 0 is an error too.
  abbrev pub after_write : (ℕ → S → ApResult A × S) → Option ℕ × S → ApResult A × S
  after_write more (none, s) = (error io_failed, s)
  after_write more (some zero, s) = (error io_failed, s)
  after_write more (some (suc w), s) = more (suc w) s

module _ (io : ApIo) where
  open io use {State, read, write}

  -- The loops of `io_read_all` and `io_write_all`, by the rounds left. A callback that succeeds
  -- moves a byte at least, so that as many rounds as bytes are enough.
  unfoldable pub io_read_more : ℕ → ℕ → State → ApResult (List ℕ) × State
  io_read_more zero left s = if left == 0 then (done [], s) else (stuck, s)
  io_read_more (suc rounds) left s =
      if left == 0
      then (done [], s)
      else after_read
          (λ bs s'.
            io_read_more rounds (left - length bs) s' >>= λ more s''. (done (bs ++ more), s''))
          (read s left)

  unfoldable pub io_write_more : ℕ → List ℕ → State → ApResult Unit × State
  io_write_more zero buf s = if length buf == 0 then (done tt, s) else (stuck, s)
  io_write_more (suc rounds) buf s =
      if length buf == 0
      then (done tt, s)
      else after_write (λ w s'. io_write_more rounds (drop w buf) s') (write s buf)

  abbrev pub io_read_all : ℕ → State → ApResult (List ℕ) × State
  io_read_all n s = io_read_more n n s

  abbrev pub io_write_all : List ℕ → State → ApResult Unit × State
  io_write_all buf s = io_write_more (length buf) buf s

  -- The test of the payload: a JSON object starts with `{`, which is 123.
  abbrev pub check_object : List ℕ → State → ApResult (List ℕ) × State
  check_object payload s =
      if ltb (length payload) 2 || not (get_or payload 0 0 == 123)
      then (error bad_json, s)
      else (done payload, s)

  unfoldable pub read_frame : State → ℕ → ApResult (List ℕ) × State
  unfolding io_read_more
  read_frame s out_buf_cap = io_read_all 4 s >>= λ hdr s'.
      let len = header_len hdr in
      if ltb frame_max len
      then (error oversize, s')
      else if ltb out_buf_cap len
      then (error short, s')
      else io_read_all len s' >>= check_object

  unfoldable pub write_frame : State → List ℕ → ApResult Unit × State
  unfolding io_write_more
  write_frame s payload =
      if ltb frame_max (length payload)
      then (error oversize, s)
      else io_write_all (header (length payload)) s >>= λ ok s'. io_write_all payload s'
