-- ===== src/DestMatch/Cidr.antt =====
-- Blocks of addresses in src/lib/dest_match.c.
use packetsonde.Prelude.{
  ℕ, zero, suc, ◌+◌, ◌-◌, ◌*◌, ◌/◌, ◌%◌, ◌^◌, ◌≤◌, ◌<◌, ◌≡◌, ◌∙◌, refl, ap, sym, Bool, true, false,
  ◌||◌, Option, none, some, List, [], ◌∷◌, ◌++◌, ◌==◌, ltb, length, length-append, arith, ascii,
  Bool-cases, inl, inr, ==_iff,
}
use native.Mathlib.Nat.{mul-div_cancel, div-mul-le_self}
use packetsonde.Prelude.Int.{ℤ, pos}
use packetsonde.Json.Writer.{digits, decimal}
use packetsonde.Json.Sizes.{length-decimal}
use packetsonde.Baseline.{same_path}
use packetsonde.Cuts.{contains, contains-append, split_first-append, split_last-none}
use packetsonde.DestMatch.{
  cut_entry, at_most_32, same_net, word_of, dotted, v4_to_u32, dest_match, network, generalize_ip,
  generalize,
}
use packetsonde.DestMatch.Texts.{Fits}
use packetsonde.DestMatch.Forms.{dest_match_cut, generalize_lem}

-- `sscanf` reads the four numbers of an address that it printed.
abbrev pub IsScan : (List ℕ → Option (ℕ × ℕ × ℕ × ℕ)) → Type 0
IsScan scan_v4 =
    (u : ℕ)
    → u < 4294967296
    → scan_v4 (dotted u) ≡ some (u / 16777216 % 256, u / 65536 % 256, u / 256 % 256, u % 256)

-- `atoi` reads a small number.
abbrev pub IsAtoi : (List ℕ → ℤ) → Type 0
IsAtoi atoi = (n : ℕ) → n ≤ 32 → atoi (decimal (pos n)) ≡ pos n

-- A byte that is no digit and no dot.
abbrev pub IsNoDigit : ℕ → Type 0
IsNoDigit c = (d : ℕ) → d < 10 → (48 + d == c) ≡ false

abbrev IsOther : ℕ → Type 0
IsOther c = ((46 == c) ≡ false) × IsNoDigit c

contains-digits : (c rounds n : ℕ) → IsNoDigit c → contains c (digits rounds n) ≡ false
unfolding digits
contains-digits c zero n o = refl
contains-digits c (suc rounds) n o = elim (Bool-cases (ltb n 10)) [
  | inl one ↦ rw (one, o n (ground arith)) refl
  | inr more ↦
      rw
        (
          more,
          contains-append c (digits rounds (n / 10)) ((48 + n % 10) ∷ []),
          contains-digits c rounds (n / 10) o,
          o (n % 10) (omega arith),
        )
        refl
]

pub contains-decimal : (c n : ℕ) → IsNoDigit c → contains c (decimal (pos n)) ≡ false
unfolding decimal
contains-decimal c n o = contains-digits c 19 n o

contains-dotted : (c u : ℕ) → IsOther c → contains c (dotted u) ≡ false
contains-dotted c u o =
    let (dot, other) = o in
    let part = λ (n : ℕ). contains-decimal c n other in
    simp
      (
        contains-append,
        dot,
        part (u / 16777216 % 256),
        part (u / 65536 % 256),
        part (u / 256 % 256),
        part (u % 256),
      )
      refl

colon : IsOther 58
colon = (refl, λ d h. ground arith)

slash : IsOther 47
slash = (refl, λ d h. ground arith)

length-dotted : (u : ℕ) → length (dotted u) ≤ 15
length-dotted u =
    let a = decimal (pos (u / 16777216 % 256)) in
    let b = decimal (pos (u / 65536 % 256)) in
    let c = decimal (pos (u / 256 % 256)) in
    let d = decimal (pos (u % 256)) in
    omega (
      arith,
      length-append a (46 ∷ (b ++ (46 ∷ (c ++ (46 ∷ d))))),
      length-append b (46 ∷ (c ++ (46 ∷ d))),
      length-append c (46 ∷ d),
      length-decimal 2 (u / 16777216 % 256) (omega arith),
      length-decimal 2 (u / 65536 % 256) (omega arith),
      length-decimal 2 (u / 256 % 256) (omega arith),
      length-decimal 2 (u % 256) (omega arith),
    )

word_of-bytes :
    (u : ℕ)
    → u < 4294967296
    → word_of (some (u / 16777216 % 256, u / 65536 % 256, u / 256 % 256, u % 256)) ≡ some u
word_of-bytes u h =
    let a : ltb 255 (u / 16777216 % 256) ≡ false = ground arith in
    let b : ltb 255 (u / 65536 % 256) ≡ false = ground arith in
    let c : ltb 255 (u / 256 % 256) ≡ false = ground arith in
    let d : ltb 255 (u % 256) ≡ false = ground arith in rw (a, b, c, d) (ap some (omega arith))

-- Multiples are equal exactly if the factors are.
same_multiple : (x y p : ℕ) → 0 < p → (x * p == y * p) ≡ (x == y)
same_multiple x y p h = elim (Bool-cases (x == y)) [
  | inl same ↦ (==_iff (x * p) (y * p)).1 (ap (λ (n : ℕ). n * p) ((==_iff x y).0 same)) ∙ sym same
  | inr apart ↦ elim (Bool-cases (x * p == y * p)) [
    | inl same ↦ absurd_same (x_is_y ((==_iff (x * p) (y * p)).0 same)) apart
    | inr differ ↦ differ ∙ sym apart
  ]
]
  where
    x_is_y : x * p ≡ y * p → x ≡ y
    x_is_y e = sym (mul-div_cancel x h) ∙ ap (λ (n : ℕ). n / p) e ∙ mul-div_cancel y h

    absurd_same : x ≡ y → (x == y) ≡ false → (x * p == y * p) ≡ (x == y)
    absurd_same e apart = cc ((==_iff x y).1 e, apart)

pow_pos : (k : ℕ) → 0 < 2 ^ k
pow_pos zero = omega arith
pow_pos (suc k) = omega (arith, pow_pos k)

-- The network of one address against another address.
same_net-network :
    (bits u v : ℕ)
    → bits ≤ 32
    → u < 4294967296
    → v < 4294967296
    → same_net (pos bits) (network bits u) v ≡ (u / 2 ^ (32 - bits) == v / 2 ^ (32 - bits))
same_net-network bits u v h u_in v_in = elim (Bool-cases (bits == 0)) [
  | inl all ↦
      let none_left : (u / 4294967296 == v / 4294967296) ≡ true = ground arith in
      rw ((==_iff bits 0).0 all) (sym none_left)
  | inr some_bits ↦
      let p = 2 ^ (32 - bits) in
      let few : ltb 32 bits ≡ false = ground arith in
      rw (some_bits, few, mul-div_cancel (u / p) (pow_pos (32 - bits)))
        (same_multiple (u / p) (v / p) p (pow_pos (32 - bits)))
]

network_small : (bits u : ℕ) → u < 4294967296 → network bits u < 4294967296
network_small bits u h = elim (Bool-cases (bits == 0)) [
  | inl all ↦ rw all (omega arith)
  | inr some_bits ↦ rw some_bits (omega (arith, div-mul-le_self u (2 ^ (32 - bits))))
]

network_lem : (bits u : ℕ) → u < 4294967296 → network bits u ≡ u / 2 ^ (32 - bits) * 2 ^ (32 - bits)
network_lem bits u h = elim (Bool-cases (bits == 0)) [
  | inl all ↦ rw ((==_iff bits 0).0 all) (omega arith)
  | inr some_bits ↦ rw some_bits refl
]

same_path-nil : (c : ℕ) (s : List ℕ) → contains c s ≡ true → same_path s [] ≡ false
same_path-nil c [] h = cc
same_path-nil c (x ∷ s) h = refl

contains_self : (c : ℕ) (a b : List ℕ) → contains c (a ++ (c ∷ b)) ≡ true
contains_self c [] b = let same : (c == c) ≡ true = (==_iff c c).1 refl in rw same refl
contains_self c (x ∷ a) b = rw (contains_self c a b) (or_true (x == c))
  where
    or_true : (t : Bool) → (t || true) ≡ true
    or_true true = refl
    or_true false = refl

module _ (scan_v4 : List ℕ → Option (ℕ × ℕ × ℕ × ℕ)) (atoi : List ℕ → ℤ) (scans : IsScan scan_v4)
    (reads : IsAtoi atoi) where
  v4_to_u32-dotted : (u : ℕ) → u < 4294967296 → v4_to_u32 scan_v4 atoi (dotted u) ≡ some u
  unfolding v4_to_u32
  v4_to_u32-dotted u h = ap word_of (scans u h) ∙ word_of-bytes u h

  module _ (bits v : ℕ) (port' : List ℕ) (a' : Fits (dotted v) port') where
    abbrev block : ℕ → List ℕ
    block net = dotted net ++ (47 ∷ decimal (pos bits))

    block_entry :
        (net : ℕ)
        → bits ≤ 32
        → net < 4294967296
        → v < 4294967296
        → dest_match scan_v4 atoi (some (block net)) (some (dotted v ++ (58 ∷ port')))
          ≡ same_net (pos bits) net v
    block_entry net few net_in v_in =
        let no_colon : contains 58 (block net) ≡ false =
          contains-append 58 (dotted net) (47 ∷ decimal (pos bits))
          ∙ simp (contains-dotted 58 net colon, contains-decimal 58 bits colon.1) refl in
        let size : length (block net) ≤ 127 = omega (
          arith,
          length-append (dotted net) (47 ∷ decimal (pos bits)),
          length-dotted net,
          length-decimal 2 bits (omega arith),
        ) in
        dest_match_cut scan_v4 atoi (block net) (dotted v) port' (block net, none) size a'
          (ap (cut_entry (block net)) (split_last-none 58 (block net) no_colon))
        ∙ simp
            (
              same_path-nil 47 (block net) (contains_self 47 (dotted net) (decimal (pos bits))),
              split_first-append 47 (dotted net) (decimal (pos bits))
                  (contains-dotted 47 net slash),
              reads bits few,
              v4_to_u32-dotted net net_in,
              v4_to_u32-dotted v v_in,
            )
            refl

  -- For sscanf and atoi as documented, and n from 0 to 32: the entry "cidr/n" made of an IPv4
  -- address is the address with every bit behind the first n cleared, a slash and n, and it matches
  -- another IPv4 address exactly if the first n bits of the two are the same, whatever the ports,
  -- where these have at most 15 bytes and no colon and the buffer has 20 bytes at least.
  pub generalize-cidr :
      (u v bits cap : ℕ) (port port' : List ℕ)
      → u < 4294967296
      → v < 4294967296
      → bits ≤ 32
      → 20 ≤ cap
      → length port ≤ 15
      → contains 58 port ≡ false
      → length port' ≤ 15
      → contains 58 port' ≡ false
      → let form = ascii "cidr/" ++ decimal (pos bits) in
        let p = 2 ^ (32 - bits) in
        let block = dotted (u / p * p) ++ (47 ∷ decimal (pos bits)) in
        (generalize scan_v4 atoi (some (dotted u ++ (58 ∷ port))) (some form) cap ≡ some block)
        × (dest_match scan_v4 atoi (some block) (some (dotted v ++ (58 ∷ port')))
            ≡ (u / p == v / p))
  generalize-cidr u v bits cap port port' u_in v_in few room short no_colon short' no_colon' =
      let a : Fits (dotted u) port = record {
        ip_in = omega (arith, length-dotted u);
        port_in = short;
        no_colon = no_colon;
      } in
      let a' : Fits (dotted v) port' = record {
        ip_in = omega (arith, length-dotted v);
        port_in = short';
        no_colon = no_colon';
      } in
      let net = network bits u in
      let form = ascii "cidr/" ++ decimal (pos bits) in
      let clamp : at_most_32 bits ≡ bits = ground arith in
      let made : generalize_ip scan_v4 atoi (dotted u ++ (58 ∷ port)) form (dotted u, port)
          ≡ some (dotted net ++ (47 ∷ decimal (pos bits))) =
        simp (reads bits few, clamp, v4_to_u32-dotted u u_in) refl in
      rw (← network_lem bits u u_in) (
        generalize_lem scan_v4 atoi (dotted u) port form (dotted net ++ (47 ∷ decimal (pos bits)))
            cap a made
            (omega (
              arith,
              length-append (dotted net) (47 ∷ decimal (pos bits)),
              length-dotted net,
              length-decimal 1 bits (omega arith),
            )),
        block_entry bits v port' a' net few (network_small bits u u_in) v_in
            ∙ same_net-network bits u v few u_in v_in,
      )
