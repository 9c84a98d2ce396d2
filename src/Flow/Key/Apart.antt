-- ===== src/Flow/Key/Apart.antt =====
-- The key of src/agent/src/flow_tracker.c merges nothing but the two directions of a conversation.
use packetsonde.Prelude.{
  ℕ, zero, suc, ◌-◌, ◌≤◌, ◌≡◌, refl, ap, ◌⊎◌, inl, inr, ◌∙◌, sym, List, [], ◌∷◌, ◌++◌, ◌==◌, arith,
  length, take, if◌then◌else◌, Bool-cases, replicate,
}
use packetsonde.Flow.Frame.{ParsedPacket, af_inet}
use packetsonde.Flow.Key.{
  memcmp, FlowKey, Direction, forward, reverse, addr_len, is_forward, padded, make_flow_key,
}
use packetsonde.Flow.Key.{base_key, with_ends}
use packetsonde.Flow.Key.Canonical.{swapped}

take-take_append : (n : ℕ) (a r : List ℕ) → n ≤ length a → take n (take n a ++ r) ≡ take n a
take-take_append zero a r h = refl
take-take_append (suc n) [] r h = absurd (omega arith)
take-take_append (suc n) (x ∷ a) r h = ap (◌∷◌ x) (take-take_append n a r (omega arith))

padded-injective :
    (n : ℕ) (a b : List ℕ)
    → n ≤ length a
    → n ≤ length b
    → padded n a ≡ padded n b
    → take n a ≡ take n b
padded-injective n a b ha hb e =
    sym (take-take_append n a (replicate (16 - n) 0) ha)
    ∙ ap (take n) e
    ∙ take-take_append n b (replicate (16 - n) 0) hb

-- Two packets go the same way between the same ends.
pub record IsSameWay (p q : ParsedPacket) : Type 0 where
  pub family : p.af ≡ q.af
  pub protocol : p.proto ≡ q.proto
  pub sources : take (addr_len p) p.src_addr ≡ take (addr_len p) q.src_addr
  pub targets : take (addr_len p) p.dst_addr ≡ take (addr_len p) q.dst_addr
  pub source_ports : p.src_port ≡ q.src_port
  pub target_ports : p.dst_port ≡ q.dst_port

abbrev HasAddresses : ParsedPacket → Type 0
HasAddresses p = (length p.src_addr ≡ 16) × (length p.dst_addr ≡ 16)

addr_len-le : (p : ParsedPacket) → addr_len p ≤ 16
addr_len-le p = ground arith

-- The facts behind one way: family and protocol, and the ends put in order.
abbrev SameEnds : (p q : ParsedPacket) (s d s' d' : List ℕ) (sp dp sp' dp' : ℕ) → Type 0
SameEnds p q s d s' d' sp dp sp' dp' =
    (p.af ≡ q.af)
    × (p.proto ≡ q.proto)
    × (take (addr_len p) s ≡ take (addr_len p) s')
    × (take (addr_len p) d ≡ take (addr_len p) d')
    × (sp ≡ sp')
    × (dp ≡ dp')

module _ {p q : ParsedPacket} where
  way :
      SameEnds p q p.src_addr p.dst_addr q.src_addr q.dst_addr p.src_port p.dst_port q.src_port
        q.dst_port
      → IsSameWay p q
  way (f, r, s, d, sp, dp) = record {
    family = f;
    protocol = r;
    sources = s;
    targets = d;
    source_ports = sp;
    target_ports = dp;
  }

  way_turned :
      SameEnds p q p.dst_addr p.src_addr q.dst_addr q.src_addr p.dst_port p.src_port q.dst_port
        q.src_port
      → IsSameWay p q
  way_turned (f, r, d, s, dp, sp) = way (f, r, s, d, sp, dp)

module _ (p q : ParsedPacket) (level : ℕ) (ported : 2 ≤ level) where
  -- Equal keys come from equal ends, whichever addresses and ports were put into them.
  ends_apart :
      (s d s' d' : List ℕ) (sp dp sp' dp' : ℕ)
      → (length s ≡ 16) × (length d ≡ 16)
      → (length s' ≡ 16) × (length d' ≡ 16)
      → with_ends (base_key p level) level (addr_len p) s d sp dp
        ≡ with_ends (base_key q level) level (addr_len q) s' d' sp' dp'
      → SameEnds p q s d s' d' sp dp sp' dp'
  ends_apart s d s' d' sp dp sp' dp' hp hq e =
      let family : p.af ≡ q.af = ap (λ (k : FlowKey). k.af) e in
      let n : addr_len q ≡ addr_len p =
        ap (λ (a : ℕ). if a == af_inet then 4 else 16) (sym family) in
      let le = addr_len-le p in
      (
        family,
        ground (arith, ap (λ (k : FlowKey). k.proto) e),
        padded-injective (addr_len p) s s' (omega (arith, hp)) (omega (arith, hq))
            (ap (λ (k : FlowKey). k.src_addr) e ∙ ap (λ (m : ℕ). padded m s') n),
        padded-injective (addr_len p) d d' (omega (arith, hp)) (omega (arith, hq))
            (ap (λ (k : FlowKey). k.dst_addr) e ∙ ap (λ (m : ℕ). padded m d') n),
        ground (arith, ap (λ (k : FlowKey). k.src_port) e),
        ground (arith, ap (λ (k : FlowKey). k.dst_port) e),
      )

abbrev as_sent : ParsedPacket → ℕ → FlowKey × Direction
as_sent p level = (
  with_ends (base_key p level) level (addr_len p) p.src_addr p.dst_addr p.src_port p.dst_port,
  forward,
)

abbrev turned : ParsedPacket → ℕ → FlowKey × Direction
turned p level = (
  with_ends (base_key p level) level (addr_len p) p.dst_addr p.src_addr p.dst_port p.src_port,
  reverse,
)

make_flow_key-cases :
    (p : ParsedPacket) (level : ℕ)
    → (make_flow_key p level ≡ as_sent p level) ⊎ (make_flow_key p level ≡ turned p level)
unfolding make_flow_key
make_flow_key-cases p level =
    elim (Bool-cases
      (is_forward (memcmp (addr_len p) p.src_addr p.dst_addr) p.src_port p.dst_port)) [
        | inl e ↦ inl (rw e)
        | inr e ↦ inr (rw e)
      ]

-- What equal keys say of two packets: one way if they count in the same direction, and the
-- opposite ways if not.
abbrev pub Related : ParsedPacket → ParsedPacket → Direction → Direction → Type 0
Related p q forward forward = IsSameWay p q
Related p q reverse reverse = IsSameWay p q
Related p q forward reverse = IsSameWay p (swapped q)
Related p q reverse forward = IsSameWay p (swapped q)

-- Where ports are tracked, two packets with 16-byte addresses have one key only if they are of one family and protocol,
-- and their ends are the same: in the same order if they count in the same direction, and
-- exchanged if they count in opposite ones.
pub make_flow_key-apart :
    (p q : ParsedPacket) (level : ℕ)
    → 2 ≤ level
    → HasAddresses p
    → HasAddresses q
    → (make_flow_key p level).0 ≡ (make_flow_key q level).0
    → Related p q (make_flow_key p level).1 (make_flow_key q level).1
make_flow_key-apart p q level ported (ps, pd) (qs, qd) e = elim (make_flow_key-cases p level) [
  | inl ep ↦ elim (make_flow_key-cases q level) [
    | inl eq ↦
        rw (ep, eq)
          (way (ends_apart p q level ported _ _ _ _ _ _ _ _ (ps, pd) (qs, qd) (rw (ep, eq) at e)))
    | inr eq ↦
        rw (ep, eq)
          (way {q = swapped q}
            (ends_apart p q level ported _ _ _ _ _ _ _ _ (ps, pd) (qd, qs) (rw (ep, eq) at e)))
  ]
  | inr ep ↦ elim (make_flow_key-cases q level) [
    | inl eq ↦
        rw (ep, eq)
          (way_turned {q = swapped q}
            (ends_apart p q level ported _ _ _ _ _ _ _ _ (pd, ps) (qs, qd) (rw (ep, eq) at e)))
    | inr eq ↦
        rw (ep, eq)
          (way_turned
            (ends_apart p q level ported _ _ _ _ _ _ _ _ (pd, ps) (qd, qs) (rw (ep, eq) at e)))
  ]
]
