-- ===== src/HostTable.antt =====
-- src/agent/src/host_table.c: what the agent knows of the hosts that it hears. A pointer to an entry
-- is its index, NULL is `none`, and a string of C is the list of its bytes before the NUL.
pub mod Slots
pub mod Notes
pub mod Lookups
pub mod Invariant
mod Tests
use packetsonde.Prelude.{
  ℕ, zero, suc, ◌+◌, ◌%◌, ◌^◌, Bool, true, false, not, ◌&&◌, ◌||◌, Option, none, some, List, [],
  ◌∷◌, ◌++◌, ltb, leb, ◌==◌, if◌then◌else◌, length, get_or, set, take, replicate,
}

-- `PS_MAX_HOSTS`, `PS_MAX_HOST_IPS` and `PS_MAX_HOST_SRCS`.
abbrev pub max_hosts : ℕ
max_hosts = 4096

abbrev pub max_host_ips : ℕ
max_host_ips = 8

abbrev pub max_host_srcs : ℕ
max_host_srcs = 16

-- The arrays `ips` and `sources` up to their counts.
pub record HostEntry : Type 0 where
  pub valid : Bool
  pub has_mac : Bool
  pub mac : List ℕ
  pub ips : List (List ℕ)
  pub hostname : List ℕ
  pub device_type : List ℕ
  pub sources : List (List ℕ)
  pub first_seen_usec : ℕ
  pub last_seen_usec : ℕ
  pub event_count : ℕ

-- `memset(entry, 0, sizeof(*entry))`
abbrev pub zero_entry : HostEntry
zero_entry = record {
  valid = false;
  has_mac = false;
  mac = replicate 6 0;
  ips = [];
  hostname = [];
  device_type = [];
  sources = [];
  first_seen_usec = 0;
  last_seen_usec = 0;
  event_count = 0;
}

pub record HostTable : Type 0 where
  pub entries : List HostEntry
  pub count : ℕ

abbrev pub init : HostTable
init = record { entries = replicate max_hosts zero_entry; count = 0 }

-- `strcmp(a, b) == 0`, and `memcmp` on six bytes.
abbrev pub same_bytes : List ℕ → List ℕ → Bool
same_bytes [] [] = true
same_bytes [] (y ∷ b) = false
same_bytes (x ∷ a) [] = false
same_bytes (x ∷ a) (y ∷ b) = x == y && same_bytes a b

abbrev pub contains : List (List ℕ) → List ℕ → Bool
contains [] s = false
contains (t ∷ ts) s = same_bytes t s || contains ts s

-- The first index whose entry passes a test.
unfoldable pub find_from : (HostEntry → Bool) → List HostEntry → Option ℕ
find_from test [] = none
find_from test (e ∷ es) =
    let later = find_from test es in
    if test e then some 0 else elim later [ none ↦ none | some i ↦ some (suc i) ]

abbrev pub has_this_mac : List ℕ → HostEntry → Bool
has_this_mac mac e = e.valid && e.has_mac && same_bytes e.mac mac

abbrev pub has_this_ip : List ℕ → HostEntry → Bool
has_this_ip ip e = e.valid && contains e.ips ip

unfoldable pub find_by_mac : HostTable → Option (List ℕ) → Option ℕ
unfolding find_from
find_by_mac ht none = none
find_by_mac ht (some mac) = find_from (has_this_mac mac) ht.entries

-- A NULL string and an empty one are no address.
unfoldable pub find_by_ip : HostTable → Option (List ℕ) → Option ℕ
unfolding find_from
find_by_ip ht none = none
find_by_ip ht (some []) = none
find_by_ip ht (some (c ∷ ip)) = find_from (has_this_ip (c ∷ ip)) ht.entries

-- What an update brings; `none` is NULL.
pub record Sighting : Type 0 where
  pub ip : Option (List ℕ)
  pub mac : Option (List ℕ)
  pub hostname : Option (List ℕ)
  pub device_type : Option (List ℕ)
  pub source : Option (List ℕ)
  pub now_usec : ℕ

abbrev pub or_else : Option ℕ → Option ℕ → Option ℕ
or_else none b = b
or_else (some i) b = some i

unfoldable pub find_entry : HostTable → Sighting → Option ℕ
unfolding find_by_mac find_by_ip
find_entry ht s = or_else (find_by_mac ht s.mac) (find_by_ip ht s.ip)

unfoldable pub add_mac : HostEntry → Option (List ℕ) → HostEntry
add_mac e none = e
add_mac e (some mac) = if e.has_mac then e else record e { mac = mac; has_mac = true }

-- A string of at most `size` bytes that joins a list of at most `room`, if it is not there.
unfoldable pub add_string : ℕ → ℕ → List (List ℕ) → Option (List ℕ) → List (List ℕ)
add_string room size ss none = ss
add_string room size ss (some []) = ss
add_string room size ss (some (c ∷ s)) =
    if contains ss (c ∷ s) || leb room (length ss) then ss else ss ++ take size (c ∷ s) ∷ []

-- A name that is set once.
unfoldable pub set_name : ℕ → List ℕ → Option (List ℕ) → List ℕ
set_name size [] (some name) = take size name
set_name size [] none = []
set_name size (c ∷ old) name = c ∷ old

-- Everything below the comment "Update MAC if provided". The count of events is an `int`, here as
-- its 32-bit word.
unfoldable pub note : HostEntry → Sighting → HostEntry
unfolding add_mac add_string set_name
note e s =
    let e' = add_mac e s.mac in
    record e' {
      ips = add_string max_host_ips 45 e'.ips s.ip;
      hostname = set_name 255 e'.hostname s.hostname;
      device_type = set_name 31 e'.device_type s.device_type;
      sources = add_string max_host_srcs 31 e'.sources s.source;
      last_seen_usec = s.now_usec;
      event_count = (e'.event_count + 1) % 2 ^ 32;
    }

abbrev pub new_entry : Sighting → HostEntry
new_entry s = record zero_entry { valid = true; first_seen_usec = s.now_usec }

-- The rest of a call, by the entry that was found, or by the slot that is free.
unfoldable pub at_entry : HostTable → Sighting → ℕ → Option ℕ × HostTable
unfolding note
at_entry ht s i =
    (some i, record ht { entries = set ht.entries i (note (get_or ht.entries i zero_entry) s) })

unfoldable pub at_slot : HostTable → Sighting → Option ℕ → Option ℕ × HostTable
unfolding note
at_slot ht s none = (none, ht)
at_slot ht s (some i) =
    (some i, record ht { entries = set ht.entries i (note (new_entry s) s); count = ht.count + 1 })

unfoldable pub by_entry : HostTable → Sighting → Option ℕ → Option ℕ × HostTable
unfolding at_entry at_slot find_from
by_entry ht s (some i) = at_entry ht s i
by_entry ht s none =
    if leb max_hosts ht.count
    then (none, ht)
    else at_slot ht s (find_from (λ e. not e.valid) ht.entries)

unfoldable pub update : HostTable → Sighting → Option ℕ × HostTable
unfolding by_entry find_entry
update ht s = by_entry ht s (find_entry ht s)
