-- ===== src/HostTable/Notes.antt =====
-- What `ps_host_table_update` of src/agent/src/host_table.c writes into an entry.
use packetsonde.Prelude.{
  ℕ, ◌+◌, ◌%◌, ◌^◌, ◌≤◌, ◌<◌, ◌≡◌, ◌⊎◌, refl, Bool, true, false, ◌&&◌, ◌||◌, Option, none, some,
  List, [], ◌∷◌, ◌++◌, ◌==◌, leb, length, take, arith, Bool-cases, inl, inr, ==_iff,
}
use packetsonde.Baseline.Rollup.Counts.{Elem}
use packetsonde.HostTable.{
  HostEntry, Sighting, same_bytes, contains, add_mac, add_string, set_name, max_host_ips,
  max_host_srcs, note,
}

pub both : (a b : Bool) → (a && b) ≡ true → (a ≡ true) × (b ≡ true)
both true b h = (refl, h)
both false b h = cc

pub same_bytes_eq : (a b : List ℕ) → same_bytes a b ≡ true → a ≡ b
same_bytes_eq [] [] h = refl
same_bytes_eq [] (y ∷ b) h = cc
same_bytes_eq (x ∷ a) [] h = cc
same_bytes_eq (x ∷ a) (y ∷ b) h =
    let (first, others) = both (x == y) (same_bytes a b) h in
    cc ((==_iff x y).0 first, same_bytes_eq a b others)

pub same_bytes_refl : (a : List ℕ) → same_bytes a a ≡ true
same_bytes_refl [] = refl
same_bytes_refl (x ∷ a) =
    let first : (x == x) ≡ true = (==_iff x x).1 refl in rw (first, same_bytes_refl a) refl

-- A string that is given joins a list, cut to `size` bytes, unless it is empty or in the list
-- already, or the list has no room.
abbrev pub Joined : ℕ → ℕ → List (List ℕ) → Option (List ℕ) → List (List ℕ) → Type 0
Joined room size ss none ss' = ss' ≡ ss
Joined room size ss (some []) ss' = ss' ≡ ss
Joined room size ss (some (c ∷ s)) ss' =
    (((ss' ≡ ss) × (Elem (c ∷ s) ss ⊎ (room ≤ length ss)))
      ⊎ ((ss' ≡ ss ++ take size (c ∷ s) ∷ []) × (¬ Elem (c ∷ s) ss) × (length ss < room)))

-- A name that the entry has stays, and one that it lacks is the one given, cut to `size` bytes.
abbrev pub Named : ℕ → List ℕ → Option (List ℕ) → List ℕ → Type 0
Named size (c ∷ old) given name = name ≡ c ∷ old
Named size [] none name = name ≡ []
Named size [] (some s) name = name ≡ take size s

-- A hardware address that the entry has stays, and one that it lacks is the one given.
abbrev pub HasMac : Bool → List ℕ → Option (List ℕ) → Bool → List ℕ → Type 0
HasMac has old none has' mac = (has' ≡ has) × (mac ≡ old)
HasMac has old (some given) has' mac =
    (has' ≡ true) × (has ≡ true → mac ≡ old) × (has ≡ false → mac ≡ given)

-- The second entry is the first with a sighting noted in it.
pub record Noted (e : HostEntry) (s : Sighting) (e' : HostEntry) : Type 0 where
  pub valid : e'.valid ≡ e.valid
  pub mac_noted : HasMac e.has_mac e.mac s.mac e'.has_mac e'.mac
  pub ip_noted : Joined max_host_ips 45 e.ips s.ip e'.ips
  pub hostname_noted : Named 255 e.hostname s.hostname e'.hostname
  pub device_type_noted : Named 31 e.device_type s.device_type e'.device_type
  pub source_noted : Joined max_host_srcs 31 e.sources s.source e'.sources
  pub first_seen : e'.first_seen_usec ≡ e.first_seen_usec
  pub last_seen : e'.last_seen_usec ≡ s.now_usec
  pub event_counted : e'.event_count ≡ (e.event_count + 1) % 2 ^ 32

pub contains-Elem : (ss : List (List ℕ)) (s : List ℕ) → contains ss s ≡ true → Elem s ss
contains-Elem [] s h = cc
contains-Elem (t ∷ ts) s h = elim (Bool-cases (same_bytes t s)) [
  | inl this ↦ inl (same_bytes_eq t s this)
  | inr other ↦ inr (contains-Elem ts s (rw other at h))
]

pub Elem-contains : (ss : List (List ℕ)) (s : List ℕ) → Elem s ss → contains ss s ≡ true
Elem-contains [] s m = absurd m
Elem-contains (t ∷ ts) s (inl e) = rw (e, same_bytes_refl s) refl
Elem-contains (t ∷ ts) s (inr m) = rw (Elem-contains ts s m) (or_true (same_bytes t s))
  where
    or_true : (b : Bool) → (b || true) ≡ true
    or_true true = refl
    or_true false = refl

add_string-Joined :
    (room size : ℕ) (ss : List (List ℕ)) (s : Option (List ℕ))
    → Joined room size ss s (add_string room size ss s)
unfolding add_string
add_string-Joined room size ss none = refl
add_string-Joined room size ss (some []) = refl
add_string-Joined room size ss (some (c ∷ s)) = elim (Bool-cases (contains ss (c ∷ s))) [
  | inl there ↦ rw there (inl (refl, inl (contains-Elem ss (c ∷ s) there)))
  | inr absent ↦ elim (Bool-cases (leb room (length ss))) [
    | inl full ↦ rw (absent, full) (inl (refl, inr (ground arith)))
    | inr more ↦
        rw (absent, more) (inr (refl, λ m. cc (absent, Elem-contains ss (c ∷ s) m), ground arith))
  ]
]

set_name-Named :
    (size : ℕ) (old : List ℕ) (given : Option (List ℕ))
    → Named size old given (set_name size old given)
unfolding set_name
set_name-Named size (c ∷ old) given = refl
set_name-Named size [] none = refl
set_name-Named size [] (some s) = refl

-- What a hardware address does not touch.
abbrev Untouched : HostEntry → HostEntry → Type 0
Untouched e e' =
    (e'.valid ≡ e.valid)
    × (e'.ips ≡ e.ips)
    × (e'.hostname ≡ e.hostname)
    × (e'.device_type ≡ e.device_type)
    × (e'.sources ≡ e.sources)
    × (e'.first_seen_usec ≡ e.first_seen_usec)
    × (e'.event_count ≡ e.event_count)

add_mac-HasMac :
    (e : HostEntry) (m : Option (List ℕ))
    → HasMac e.has_mac e.mac m (add_mac e m).has_mac (add_mac e m).mac × Untouched e (add_mac e m)
unfolding add_mac
add_mac-HasMac e none = ((refl, refl), (refl, refl, refl, refl, refl, refl, refl))
add_mac-HasMac e (some mac) = elim (Bool-cases e.has_mac) [
  | inl has ↦ simp has ((refl, (λ h. refl), λ h. cc), (refl, refl, refl, refl, refl, refl, refl))
  | inr lacks ↦
      simp lacks ((refl, (λ h. cc), λ h. refl), (refl, refl, refl, refl, refl, refl, refl))
]

pub note-Noted : (e : HostEntry) (s : Sighting) → Noted e s (note e s)
unfolding note
note-Noted e s =
    let (mac, others) = add_mac-HasMac e s.mac in
    let (valid, ips, hostname, device_type, sources, first, count) = others in
    record {
      valid = valid;
      mac_noted = mac;
      ip_noted = rw ips (add_string-Joined max_host_ips 45 e.ips s.ip);
      hostname_noted = rw hostname (set_name-Named 255 e.hostname s.hostname);
      device_type_noted = rw device_type (set_name-Named 31 e.device_type s.device_type);
      source_noted = rw sources (add_string-Joined max_host_srcs 31 e.sources s.source);
      first_seen = first;
      last_seen = refl;
      event_counted = rw count refl;
    }
