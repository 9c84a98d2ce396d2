-- ===== src/Flow/Table/Timeout.antt =====
-- The idle timeouts of src/agent/src/flow_tracker.c.
use Prim.Native.Nat.{bit_and, bit_or}
use packetsonde.Prelude.{ℕ, ◌/◌, ◌%◌, ◌≡◌, refl, Bool, true, ◌||◌, ◌==◌, arith, if◌then◌else◌, not}
use packetsonde.Prelude.Bits.{bit_or_step, bit_and_five, bit_and_two}
use packetsonde.Flow.Frame.{ParsedPacket}
use packetsonde.Flow.Key.{Direction, forward, reverse}
use packetsonde.Flow.Tree.{Flow}
use packetsonde.Flow.Table.{FlowTable, flow_idle_timeout, touch}

-- FIN is bit 0 of the flags, SYN bit 1 and RST bit 2.
abbrev pub closes : ℕ → Bool
closes flags = flags % 2 == 1 || flags / 4 % 2 == 1

abbrev pub opens : ℕ → Bool
opens flags = flags / 2 % 2 == 1

-- `|` sets a bit if either side has it.
closes-bit_or : (a b : ℕ) → closes (bit_or a b) ≡ (closes a || closes b)
closes-bit_or a b =
    ground
      (arith, bit_or_step b a, bit_or_step (b / 2) (a / 2), bit_or_step (b / 2 / 2) (a / 2 / 2))

opens-bit_or : (a b : ℕ) → opens (bit_or a b) ≡ (opens a || opens b)
opens-bit_or a b = ground (arith, bit_or_step b a, bit_or_step (b / 2) (a / 2))

closes-bit_and : (x : ℕ) → (bit_and x 5 == 0) ≡ not (closes x)
closes-bit_and x = ground (arith, bit_and_five x)

opens-bit_and : (x : ℕ) → (bit_and x 2 == 0) ≡ not (opens x)
opens-bit_and x = ground (arith, bit_and_two x)

or_more : (a b c : Bool) → (a || b) ≡ true → ((a || c) || b) ≡ true
or_more a b c h = ground (arith)

or_more_right : (a b c : Bool) → (a || b) ≡ true → (a || (b || c)) ≡ true
or_more_right a b c h = ground (arith)

-- A flow that is closed stays closed.
closed-touch :
    (f : Flow) (pp : ParsedPacket) (d : Direction) (ts : ℕ)
    → (closes f.tcp_flags.0 || closes f.tcp_flags.1) ≡ true
    → (closes (touch f pp d ts).tcp_flags.0 || closes (touch f pp d ts).tcp_flags.1) ≡ true
unfolding touch
closed-touch f pp forward ts closed =
    rw (closes-bit_or f.tcp_flags.0 pp.tcp_flags)
      (or_more (closes f.tcp_flags.0) (closes f.tcp_flags.1) (closes pp.tcp_flags) closed)
closed-touch f pp reverse ts closed =
    rw (closes-bit_or f.tcp_flags.1 pp.tcp_flags)
      (or_more_right (closes f.tcp_flags.0) (closes f.tcp_flags.1) (closes pp.tcp_flags) closed)

module _ {T : Type 0} (ft : FlowTable T) where
  -- The idle timeout of every flow. For TCP it is short once a FIN or RST was seen in either
  -- direction, else the one of established connections if a SYN was seen, else the general one.
  -- UDP and ICMP have theirs, and any other protocol the general one.
  pub flow_idle_timeout_lem :
      (f : Flow)
      → flow_idle_timeout ft f ≡ (
          if f.key.proto == 6
          then (if closes f.tcp_flags.0 || closes f.tcp_flags.1
              then ft.timeout_tcp_short
              else if opens f.tcp_flags.0 || opens f.tcp_flags.1
              then ft.timeout_tcp_est
              else ft.timeout_general)
          else if f.key.proto == 17
          then ft.timeout_udp
          else if f.key.proto == 1 || f.key.proto == 58
          then ft.timeout_icmp
          else ft.timeout_general)
  unfolding flow_idle_timeout
  flow_idle_timeout_lem f =
      let (a, b) = f.tcp_flags in
      ground (
        arith,
        closes-bit_and (bit_or a b),
        closes-bit_or a b,
        opens-bit_and (bit_or a b),
        opens-bit_or a b,
      )

  -- A closed TCP flow is on the short timeout.
  closed_short :
      (f : Flow)
      → f.key.proto ≡ 6
      → (closes f.tcp_flags.0 || closes f.tcp_flags.1) ≡ true
      → flow_idle_timeout ft f ≡ ft.timeout_tcp_short
  closed_short f tcp closed = rw (flow_idle_timeout_lem f, tcp, closed) refl

  -- A TCP flow that a FIN or RST has closed stays on the short timeout, whatever packet follows.
  pub touch-closed :
      (f : Flow) (pp : ParsedPacket) (d : Direction) (ts : ℕ)
      → f.key.proto ≡ 6
      → (closes f.tcp_flags.0 || closes f.tcp_flags.1) ≡ true
      → flow_idle_timeout ft (touch f pp d ts) ≡ ft.timeout_tcp_short
  unfolding touch
  touch-closed f pp d ts tcp closed =
      closed_short (touch f pp d ts) tcp (closed-touch f pp d ts closed)
