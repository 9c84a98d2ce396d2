-- ===== src/Flow/Key/Canonical.antt =====
-- The key of src/agent/src/flow_tracker.c is canonical: it is the same for both directions, and
-- tells conversations apart.
use packetsonde.Prelude.{
  ℕ, ◌≤◌, ◌≡◌, ◌≢◌, refl, ap, inl, inr, ◌∙◌, true, false, arith, length, if◌then◌else◌, Bool-cases,
}
use packetsonde.Flow.Frame.{ParsedPacket}
use packetsonde.Flow.Key.{
  Sign, negative, same, positive, memcmp, Direction, forward, reverse, addr_len, is_forward,
  make_flow_key,
}
use packetsonde.Flow.Key.Compare.{flip, memcmp-flip, memcmp-same}

-- The packet of the other direction.
abbrev pub swapped : ParsedPacket → ParsedPacket
swapped pp = record pp {
  src_addr = pp.dst_addr;
  dst_addr = pp.src_addr;
  src_port = pp.dst_port;
  dst_port = pp.src_port;
}

abbrev pub opposite : Direction → Direction
opposite forward = reverse
opposite reverse = forward

-- Both ends are the same address and port.
abbrev pub IsLoop : ParsedPacket → Type 0
IsLoop pp = (memcmp (addr_len pp) pp.src_addr pp.dst_addr ≡ same) × (pp.src_port ≡ pp.dst_port)

-- Seen from the other side, the order of the ends is the opposite one, unless they are the same.
is_forward-flip :
    (s : Sign) (a b : ℕ)
    → ¬ ((s ≡ same) × (a ≡ b))
    → is_forward (flip s) b a ≡ (if is_forward s a b then false else true)
unfolding is_forward
is_forward-flip negative a b h = refl
is_forward-flip same a b h = let ne : a ≢ b = λ e. h (refl, e) in ground arith
is_forward-flip positive a b h = refl

module _ (pp : ParsedPacket) (level : ℕ) where
  abbrev cmp : Sign
  cmp = memcmp (addr_len pp) pp.src_addr pp.dst_addr

  swapped_order :
      ¬ IsLoop pp
      → is_forward (memcmp (addr_len pp) pp.dst_addr pp.src_addr) pp.dst_port pp.src_port
        ≡ (if is_forward cmp pp.src_port pp.dst_port then false else true)
  swapped_order h =
      rw (memcmp-flip (addr_len pp) pp.src_addr pp.dst_addr)
        (is_forward-flip cmp pp.src_port pp.dst_port h)

  -- Unless a packet goes from an address and port to the same address and port, the packet of the
  -- other direction has the same key, and counts in the other direction.
  pub make_flow_key-swapped :
      ¬ IsLoop pp
      → make_flow_key (swapped pp) level
        ≡ ((make_flow_key pp level).0, opposite (make_flow_key pp level).1)
  unfolding make_flow_key
  make_flow_key-swapped h = elim (Bool-cases (is_forward cmp pp.src_port pp.dst_port)) [
    | inl e ↦ rw (e, swapped_order h, e) refl
    | inr e ↦ rw (e, swapped_order h, e) refl
  ]

  -- A packet to its own sender, with addresses of full length, is forward whichever way it is read, with one key.
  pub make_flow_key-loop :
      addr_len pp ≤ length pp.src_addr
      → addr_len pp ≤ length pp.dst_addr
      → IsLoop pp
      → make_flow_key (swapped pp) level ≡ make_flow_key pp level
  unfolding make_flow_key is_forward
  make_flow_key-loop hs hd (e, ports) =
      let back : memcmp (addr_len pp) pp.dst_addr pp.src_addr ≡ same =
        memcmp-flip (addr_len pp) pp.src_addr pp.dst_addr ∙ ap flip e in
      ground (arith, back, memcmp-same (addr_len pp) pp.src_addr pp.dst_addr hs hd e)
