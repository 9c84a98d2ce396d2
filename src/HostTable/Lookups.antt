-- ===== src/HostTable/Lookups.antt =====
-- What `find_by_mac` and `find_by_ip` of src/agent/src/host_table.c find.
use packetsonde.Prelude.{
  ℕ, zero, suc, ◌≡◌, ◌⊎◌, refl, sym, ◌∙◌, Bool, true, false, Option, none, some, List, [], ◌∷◌,
  if◌then◌else◌, get_or, inl, inr,
}
use packetsonde.Baseline.Rollup.Counts.{Elem}
use packetsonde.HostTable.{
  HostEntry, HostTable, Sighting, zero_entry, find_from, has_this_mac, has_this_ip, find_by_mac,
  find_by_ip, find_entry, or_else,
}
use packetsonde.HostTable.Slots.{shift, find_from_step, find_from-some}
use packetsonde.HostTable.Notes.{both, same_bytes_eq, same_bytes_refl, contains-Elem, Elem-contains}

-- The entry at an index.
abbrev pub entry_at : HostTable → ℕ → HostEntry
entry_at ht i = get_or ht.entries i zero_entry

-- A valid entry of a hardware address, and one of an address that is not empty.
abbrev pub OfMac : HostEntry → Option (List ℕ) → Type 0
OfMac e none = ⊥
OfMac e (some mac) = (e.valid ≡ true) × (e.has_mac ≡ true) × (e.mac ≡ mac)

abbrev pub OfIp : HostEntry → Option (List ℕ) → Type 0
OfIp e none = ⊥
OfIp e (some []) = ⊥
OfIp e (some (c ∷ ip)) = (e.valid ≡ true) × Elem (c ∷ ip) e.ips

-- An entry of the sighting's hardware address, or, if there is none, one of its address.
abbrev pub Found : HostTable → Sighting → ℕ → Type 0
Found ht s i =
    OfMac (entry_at ht i) s.mac
    ⊎ (((j : ℕ) → ¬ OfMac (entry_at ht j) s.mac) × OfIp (entry_at ht i) s.ip)

-- There is neither.
abbrev pub Unknown : HostTable → Sighting → Type 0
Unknown ht s = (j : ℕ) → (¬ OfMac (entry_at ht j) s.mac) × (¬ OfIp (entry_at ht j) s.ip)

-- A search that finds nothing has seen every entry.
find_from-none :
    (test : HostEntry → Bool) (es : List HostEntry)
    → test zero_entry ≡ false
    → find_from test es ≡ none
    → (j : ℕ) → test (get_or es j zero_entry) ≡ false
find_from-none test [] z e j = z
find_from-none test (x ∷ es) z e j =
    let (first, others) = parts (test x) (find_from test es) (sym (find_from_step test x es) ∙ e) in
    at j first (find_from-none test es z others)
  where
    parts :
        (b : Bool) (o : Option ℕ)
        → (if b then some 0 else shift o) ≡ none
        → (b ≡ false) × (o ≡ none)
    parts true o h = cc
    parts false none h = (refl, refl)
    parts false (some i) h = cc

    at :
        (i : ℕ)
        → test x ≡ false
        → ((k : ℕ) → test (get_or es k zero_entry) ≡ false)
        → test (get_or (x ∷ es) i zero_entry) ≡ false
    at zero first later = first
    at (suc i) first later = later i

module _ (ht : HostTable) where
  find_by_mac-OfMac :
      (m : Option (List ℕ)) (i : ℕ) → find_by_mac ht m ≡ some i → OfMac (entry_at ht i) m
  unfolding find_by_mac
  find_by_mac-OfMac none i e = cc
  find_by_mac-OfMac (some mac) i e =
      let (front, same) = both _ _ (find_from-some (has_this_mac mac) ht.entries i e).1 in
      let (valid, has) = both _ _ front in (valid, has, same_bytes_eq _ mac same)

  find_by_mac-none :
      (m : Option (List ℕ)) → find_by_mac ht m ≡ none → (j : ℕ) → ¬ OfMac (entry_at ht j) m
  unfolding find_by_mac
  find_by_mac-none none e j h = absurd h
  find_by_mac-none (some mac) e j (valid, has, same) =
      let other = find_from-none (has_this_mac mac) ht.entries refl e j in
      let this : has_this_mac mac (entry_at ht j) ≡ true =
        rw (valid, has, same, same_bytes_refl mac) refl in
      cc (this, other)

  find_by_ip-OfIp :
      (a : Option (List ℕ)) (i : ℕ) → find_by_ip ht a ≡ some i → OfIp (entry_at ht i) a
  unfolding find_by_ip
  find_by_ip-OfIp none i e = cc
  find_by_ip-OfIp (some []) i e = cc
  find_by_ip-OfIp (some (c ∷ ip)) i e =
      let (valid, there) = both _ _ (find_from-some (has_this_ip (c ∷ ip)) ht.entries i e).1 in
      (valid, contains-Elem _ (c ∷ ip) there)

  find_by_ip-none :
      (a : Option (List ℕ)) → find_by_ip ht a ≡ none → (j : ℕ) → ¬ OfIp (entry_at ht j) a
  unfolding find_by_ip
  find_by_ip-none none e j h = absurd h
  find_by_ip-none (some []) e j h = absurd h
  find_by_ip-none (some (c ∷ ip)) e j (valid, there) =
      let other = find_from-none (has_this_ip (c ∷ ip)) ht.entries refl e j in
      let this : has_this_ip (c ∷ ip) (entry_at ht j) ≡ true =
        rw (valid, Elem-contains (entry_at ht j).ips (c ∷ ip) there) refl in
      cc (this, other)

  pub find_entry-Found : (s : Sighting) (i : ℕ) → find_entry ht s ≡ some i → Found ht s i
  unfolding find_entry
  find_entry-Found s i e =
      by_mac (find_by_mac ht s.mac) (find_by_ip ht s.ip) (find_by_mac-OfMac s.mac)
        (find_by_mac-none s.mac) (find_by_ip-OfIp s.ip) e
    where
      by_mac :
          (a b : Option ℕ)
          → ((k : ℕ) → a ≡ some k → OfMac (entry_at ht k) s.mac)
          → (a ≡ none → (j : ℕ) → ¬ OfMac (entry_at ht j) s.mac)
          → ((k : ℕ) → b ≡ some k → OfIp (entry_at ht k) s.ip)
          → or_else a b ≡ some i
          → Found ht s i
      by_mac (some k) b h n g f = inl (h i f)
      by_mac none b h n g f = inr (n refl, g i f)

  pub find_entry-Unknown : (s : Sighting) → find_entry ht s ≡ none → Unknown ht s
  unfolding find_entry
  find_entry-Unknown s e j =
      let (no_mac, no_ip) = neither (find_by_mac ht s.mac) (find_by_ip ht s.ip) e in
      (find_by_mac-none s.mac no_mac j, find_by_ip-none s.ip no_ip j)
    where
      neither : (a b : Option ℕ) → or_else a b ≡ none → (a ≡ none) × (b ≡ none)
      neither none b h = (refl, h)
      neither (some k) b h = cc
