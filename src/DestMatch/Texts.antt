-- ===== src/DestMatch/Texts.antt =====
-- Texts cut at a byte, as src/lib/dest_match.c cuts them.
use packetsonde.Prelude.{ℕ, ◌≤◌, ◌≡◌, refl, false, List, ◌∷◌, ◌++◌, length, length-append, arith}
use packetsonde.Baseline.Covers.{take_all}
use packetsonde.Cuts.{contains, split_last-append}
use packetsonde.DestMatch.{split_raddr}

-- An address whose parts fit their arrays; the port has no colon.
pub record Fits (ip port : List ℕ) : Type 0 where
  pub ip_in : length ip ≤ 63
  pub port_in : length port ≤ 15
  pub no_colon : contains 58 port ≡ false

pub split_raddr-parts :
    (ip port : List ℕ) → Fits ip port → split_raddr (ip ++ (58 ∷ port)) ≡ (ip, port)
unfolding split_raddr
split_raddr-parts ip port f =
    rw (split_last-append 58 ip port f.no_colon, take_all 63 ip f.ip_in, take_all 15 port f.port_in)
      refl

pub length-raddr : (ip port : List ℕ) → Fits ip port → length (ip ++ (58 ∷ port)) ≤ 79
length-raddr ip port f = omega (arith, length-append ip (58 ∷ port), f)
