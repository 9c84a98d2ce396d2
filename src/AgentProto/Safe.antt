-- ===== src/AgentProto/Safe.antt =====
-- Against any peer, src/lib/agent_proto.c ends its loops and hands on nothing but JSON objects that
-- fit the caller's buffer.
use packetsonde.Prelude.{
  ℕ, zero, suc, ◌-◌, ◌≤◌, ◌≡◌, refl, Bool, true, false, not, ◌||◌, Option, none, some, List, [],
  ◌∷◌, ◌++◌, ◌==◌, ltb, if◌then◌else◌, length, get_or, arith, length-append,
}
use packetsonde.AgentProto.{
  ApIo, ApResult, bad_json, done, error, stuck, frame_max, header_len, ◌>>=◌, after_read,
  check_object, io_read_more, read_frame,
}

-- A read callback that gives no more bytes than it is asked for.
abbrev pub IsBounded : ApIo → Type 0
IsBounded io = (s s' : io.State) (n : ℕ) (bs : List ℕ) → io.read s n ≡ (some bs, s') → length bs ≤ n

-- A loop has ended, and what it read is `Q`.
abbrev pub Gives : {A : Type 0} → (A → Type 0) → ApResult A → Type 0
Gives Q (done a) = Q a
Gives Q (error e) = Unit
Gives Q stuck = ⊥

bind-Gives :
    {S A B : Type 0} (P : A → Type 0) (Q : B → Type 0) (m : ApResult A × S)
    (f : A → S → ApResult B × S)
    → Gives P m.0
    → ((a : A) (s : S) → P a → Gives Q (f a s).0)
    → Gives Q (m >>= f).0
bind-Gives P Q (done a, s) f h k = k a s h
bind-Gives P Q (error e, s) f h k = tt
bind-Gives P Q (stuck, s) f h k = h

if-Gives :
    {S B : Type 0} (Q : B → Type 0) (b : Bool) (m n : ApResult B × S)
    → (b ≡ true → Gives Q m.0)
    → (b ≡ false → Gives Q n.0)
    → Gives Q (if b then m else n).0
if-Gives Q true m n h k = h refl
if-Gives Q false m n h k = k refl

module _ (io : ApIo) (bounded : IsBounded io) where
  after_read-Gives :
      {B : Type 0} (Q : B → Type 0) (s : io.State) (n : ℕ)
      (f : List ℕ → io.State → ApResult B × io.State) (got : Option (List ℕ) × io.State)
      → io.read s n ≡ got
      → ((b : ℕ) (bs : List ℕ) (s' : io.State) → length (b ∷ bs) ≤ n → Gives Q (f (b ∷ bs) s').0)
      → Gives Q (after_read f got).0
  after_read-Gives Q s n f (none, s') e k = tt
  after_read-Gives Q s n f (some [], s') e k = tt
  after_read-Gives Q s n f (some (b ∷ bs), s') e k = k b bs s' (bounded s s' n (b ∷ bs) e)

  -- The loop ends within as many rounds as bytes, and reads that many bytes or fails.
  io_read_more-Gives :
      (rounds left : ℕ) (s : io.State)
      → left ≤ rounds
      → Gives (λ bs. length bs ≡ left) (io_read_more io rounds left s).0
  unfolding io_read_more
  io_read_more-Gives zero left s h =
      if-Gives (λ (bs : List ℕ). length bs ≡ left) (left == 0) _ _ (λ e. ground arith)
        (λ e. absurd (ground arith))
  io_read_more-Gives (suc rounds) left s h =
      if-Gives (λ (bs : List ℕ). length bs ≡ left) (left == 0) _ _ (λ e. ground arith)
        λ e.
          after_read-Gives (λ (bs : List ℕ). length bs ≡ left) s left
            (λ bs s'.
              io_read_more io rounds (left - length bs) s' >>= λ more s''. (done (bs ++ more), s''))
            (io.read s left) refl
            λ b bs s' fits.
              bind-Gives (λ (more : List ℕ). length more ≡ left - length (b ∷ bs))
                (λ (bs : List ℕ). length bs ≡ left)
                (io_read_more io rounds (left - length (b ∷ bs)) s')
                (λ more s''. (done ((b ∷ bs) ++ more), s''))
                (io_read_more-Gives rounds (left - length (b ∷ bs)) s' (omega arith))
                λ more s'' size. omega (arith, length-append (b ∷ bs) more)

  -- Whatever a peer sends, where the read callback gives no more bytes than it is asked for,
  -- reading a frame ends, with an error or with a payload of two bytes at least that opens a JSON object, is within the protocol's limit and fits the caller's buffer.
  pub read_frame-Gives :
      (s : io.State) (out_buf_cap : ℕ)
      → Gives
          (λ payload.
            (2 ≤ length payload)
            × (get_or payload 0 0 ≡ 123)
            × (length payload ≤ frame_max)
            × (length payload ≤ out_buf_cap))
          (read_frame io s out_buf_cap).0
  unfolding read_frame
  read_frame-Gives s out_buf_cap =
      bind-Gives (λ (hdr : List ℕ). length hdr ≡ 4) Q (io_read_more io 4 4 s) _
        (io_read_more-Gives 4 4 s (omega arith))
        λ hdr s' size.
          if-Gives Q (ltb frame_max (header_len hdr)) _ _ (λ over. tt)
            λ fits.
              if-Gives Q (ltb out_buf_cap (header_len hdr)) _ _ (λ over. tt)
                λ room.
                  bind-Gives (λ (bs : List ℕ). length bs ≡ header_len hdr) Q
                    (io_read_more io (header_len hdr) (header_len hdr) s') (check_object io)
                    (io_read_more-Gives (header_len hdr) (header_len hdr) s' (omega arith))
                    λ payload s'' long.
                      if-Gives Q (ltb (length payload) 2 || not (get_or payload 0 0 == 123))
                        (error bad_json, s'') (done payload, s'') (λ bad. tt) λ object. ground arith
    where
      Q : List ℕ → Type 0
      Q payload =
          (2 ≤ length payload)
          × (get_or payload 0 0 ≡ 123)
          × (length payload ≤ frame_max)
          × (length payload ≤ out_buf_cap)
