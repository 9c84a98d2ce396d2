-- ===== src/DestMatch/Forms.antt =====
-- The entries that `ps_dest_generalize` of src/lib/dest_match.c makes of an address, and what they
-- match.
use packetsonde.Prelude.{
  ℕ, ◌-◌, ◌≤◌, ◌<◌, ◌≡◌, ◌∙◌, refl, ap, Bool, true, false, not, ◌&&◌, ◌||◌, Option, none, some,
  List, [], ◌∷◌, ◌++◌, if◌then◌else◌, length, length-append, arith, ascii,
}
use packetsonde.Prelude.Int.{ℤ}
use packetsonde.Baseline.{same_path}
use packetsonde.Baseline.Covers.{take_all}
use packetsonde.Cuts.{contains, split_first-none, split_last, split_last-append, split_last-none}
use packetsonde.DestMatch.{cut_entry, entry_match, dest_match, generalize_ip, generalize}
use packetsonde.DestMatch.Texts.{Fits, split_raddr-parts, length-raddr}

module _ (scan_v4 : List ℕ → Option (ℕ × ℕ × ℕ × ℕ)) (atoi : List ℕ → ℤ) where
  -- What the port of an entry leaves to be compared.
  abbrev host_of : List ℕ × Option (List ℕ) → List ℕ → List ℕ → Bool
  host_of p ip port = entry_match scan_v4 atoi p (ip, port)

  pub dest_match_cut :
      (e ip port : List ℕ) (p : List ℕ × Option (List ℕ))
      → length e ≤ 127
      → Fits ip port
      → cut_entry e (split_last 58 e) ≡ p
      → dest_match scan_v4 atoi (some e) (some (ip ++ (58 ∷ port))) ≡ host_of p ip port
  unfolding dest_match
  dest_match_cut e ip port p short a cut =
      rw (take_all 127 e short, split_raddr-parts ip port a, cut) refl

  same_host :
      (c : ℕ) (host ip port : List ℕ)
      → contains 47 (c ∷ host) ≡ false
      → host_of (c ∷ host, none) ip port ≡ same_path (c ∷ host) ip
  same_host c host ip port no_slash = rw (split_first-none 47 (c ∷ host) no_slash) refl

  cut_parts :
      (e host port : List ℕ)
      → contains 47 port ≡ false
      → cut_entry e (some (host, port)) ≡ (host, some port)
  cut_parts e host port h = rw h (or_true (contains 47 host))
    where
      or_true :
          (b : Bool)
          → ◌≡◌ {A = List ℕ × Option (List ℕ)}
              (if b || true then (host, some port) else (e, none))
              (host, some port)
      or_true true = refl
      or_true false = refl

  pub generalize_lem :
      (ip port form s : List ℕ) (cap : ℕ)
      → Fits ip port
      → generalize_ip scan_v4 atoi (ip ++ (58 ∷ port)) form (ip, port) ≡ some s
      → length s < cap
      → generalize scan_v4 atoi (some (ip ++ (58 ∷ port))) (some form) cap ≡ some s
  unfolding generalize
  generalize_lem ip port form s cap a e fits =
      rw (split_raddr-parts ip port a, e) (ap some (take_all (cap - 1) s (omega arith)))

  -- The address generalised to a form gives an entry, and the entry's answer for the other address.
  abbrev pub Made : List ℕ → List ℕ → ℕ → List ℕ → Bool → Type 0
  Made raddr form cap other b =
      (e : List ℕ) × (generalize scan_v4 atoi (some raddr) (some form) cap ≡ some e)
      × (dest_match scan_v4 atoi (some e) (some other) ≡ b)

  module _ (c : ℕ) (host port ip' port' : List ℕ) (a : Fits (c ∷ host) port)
      (a' : Fits ip' port') where
    abbrev raddr : List ℕ
    raddr = (c ∷ host) ++ (58 ∷ port)

    abbrev other : List ℕ
    other = ip' ++ (58 ∷ port')

    host_entry :
        contains 58 (c ∷ host) ≡ false
        → contains 47 (c ∷ host) ≡ false
        → dest_match scan_v4 atoi (some (c ∷ host)) (some other) ≡ same_path (c ∷ host) ip'
    host_entry no_colon no_slash =
        dest_match_cut (c ∷ host) ip' port' (c ∷ host, none) (omega (arith, a.ip_in)) a'
          (ap (cut_entry (c ∷ host)) (split_last-none 58 (c ∷ host) no_colon))
        ∙ same_host c host ip' port' no_slash

    port_entry :
        contains 47 port ≡ false
        → dest_match scan_v4 atoi (some (58 ∷ port)) (some other) ≡ same_path port port'
    port_entry no_slash =
        dest_match_cut (58 ∷ port) ip' port' ([], some port) (omega (arith, a.port_in)) a'
          (ap (cut_entry (58 ∷ port)) (split_last-append 58 [] port a.no_colon)
            ∙ cut_parts (58 ∷ port) [] port no_slash)
        ∙ port_only (same_path port port')
      where
        port_only : (b : Bool) → (if not b then false else true) ≡ b
        port_only true = refl
        port_only false = refl

    whole_entry :
        contains 47 (c ∷ host) ≡ false
        → contains 47 port ≡ false
        → dest_match scan_v4 atoi (some ((c ∷ host) ++ (58 ∷ port))) (some other)
          ≡ (same_path port port' && same_path (c ∷ host) ip')
    whole_entry no_slash none_in_port =
        let e = (c ∷ host) ++ (58 ∷ port) in
        dest_match_cut e ip' port' (c ∷ host, some port)
          (omega (arith, length-raddr (c ∷ host) port a)) a'
          (ap (cut_entry e) (split_last-append 58 (c ∷ host) port a.no_colon)
            ∙ cut_parts e (c ∷ host) port none_in_port)
        ∙ (rw (split_first-none 47 (c ∷ host) no_slash)
            (both (same_path port port') (same_path (c ∷ host) ip')))
      where
        both : (b h : Bool) → (if not b then false else h) ≡ (b && h)
        both true h = refl
        both false h = refl

    -- An address whose host has neither a colon nor a slash, and whose parts fit: the entry "host"
    -- made of it matches another exactly if the hosts are the same, "port" exactly if the ports are,
    -- and "exact" exactly if both are. The entry is written whole where the buffer takes the address.
    pub generalize-dest_match :
        (cap : ℕ)
        → contains 58 (c ∷ host) ≡ false
        → contains 47 (c ∷ host) ≡ false
        → contains 47 port ≡ false
        → length ((c ∷ host) ++ (58 ∷ port)) < cap
        → (Made raddr (ascii "exact") cap other (same_path port port' && same_path (c ∷ host) ip'))
          × (Made raddr (ascii "host") cap other (same_path (c ∷ host) ip'))
          × (Made raddr (ascii "port") cap other (same_path port port'))
    generalize-dest_match cap no_colon no_slash none_in_port fits =
        let size = length-append (c ∷ host) (58 ∷ port) in
        (
          (
            raddr,
            generalize_lem (c ∷ host) port (ascii "exact") raddr cap a refl fits,
            whole_entry no_slash none_in_port,
          ),
          (
            c ∷ host,
            generalize_lem (c ∷ host) port (ascii "host") (c ∷ host) cap a refl
                (omega (arith, size, fits)),
            host_entry no_colon no_slash,
          ),
          (
            58 ∷ port,
            generalize_lem (c ∷ host) port (ascii "port") (58 ∷ port) cap a refl
                (omega (arith, size, fits)),
            port_entry none_in_port,
          ),
        )

  -- The entry "host" made of an address whose host has a colon, such as an IPv6 address with or
  -- without brackets, is the host itself and does not match that address, unless its port is what
  -- stands behind the last colon of the host. The parts of the address fit and have no slash, and
  -- the buffer takes the host whole.
  pub generalize-host_colon :
      (front tail port : List ℕ) (cap : ℕ)
      → Fits (front ++ (58 ∷ tail)) port
      → contains 58 tail ≡ false
      → contains 47 tail ≡ false
      → length (front ++ (58 ∷ tail)) < cap
      → same_path tail port ≡ false
      → let host = front ++ (58 ∷ tail) in
        let address = host ++ (58 ∷ port) in
        (generalize scan_v4 atoi (some address) (some (ascii "host")) cap ≡ some host)
        × (dest_match scan_v4 atoi (some host) (some address) ≡ false)
  generalize-host_colon front tail port cap a no_colon no_slash fits other_port =
      let host = front ++ (58 ∷ tail) in
      (
        generalize_lem host port (ascii "host") host cap a refl fits,
        dest_match_cut host host port (front, some tail) (omega (arith, a.ip_in)) a
              (ap (cut_entry host) (split_last-append 58 front tail no_colon)
                ∙ cut_parts host front tail no_slash)
            ∙ rw other_port refl,
      )
