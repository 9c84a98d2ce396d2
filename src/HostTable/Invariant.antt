-- ===== src/HostTable/Invariant.antt =====
-- `ps_host_table_update` of src/agent/src/host_table.c keeps the table valid, and says what it did.
use packetsonde.Prelude.{
  ℕ, ◌+◌, ◌≤◌, ◌<◌, ◌≡◌, ◌≢◌, ◌⊎◌, refl, sym, ◌∙◌, true, false, not, Option, none, some, List, [],
  ◌∷◌, leb, ◌==◌, length, get_or, set, arith, Bool-cases, inl, inr, length-set, get_or-set_self,
  get_or-set_ne, get_or-replicate, length-replicate, ==_iff,
}
use packetsonde.HostTable.{
  HostEntry, HostTable, Sighting, max_hosts, zero_entry, init, find_by_mac, find_by_ip, find_entry,
  note, new_entry, at_entry, at_slot, by_entry, update, has_this_mac, has_this_ip, or_else,
}
use packetsonde.HostTable.Slots.{
  weight, count_valid, count_valid-set, count_valid-replicate, find_from-some, free_slot, Fits,
  note_lem,
}
use packetsonde.HostTable.Lookups.{entry_at, Found, Unknown, find_entry-Found, find_entry-Unknown}
use packetsonde.HostTable.Notes.{Noted, note-Noted}

pub record IsValid (ht : HostTable) : Type 0 where
  pub slots : length ht.entries ≡ max_hosts
  pub counted : ht.count ≡ count_valid ht.entries
  pub each : (i : ℕ) → Fits (get_or ht.entries i zero_entry)

zero_entry-Fits : Fits zero_entry
zero_entry-Fits = omega arith

pub init-IsValid : IsValid init
init-IsValid = record {
  slots = length-replicate max_hosts zero_entry;
  counted = sym (count_valid-replicate max_hosts);
  each = λ i. rw (get_or-replicate max_hosts i zero_entry) zero_entry-Fits;
}

-- What a call leaves that has filled the slot at `i`: there the entry `e` with the sighting noted in
-- it, and every other slot as it was.
abbrev pub Filled : HostTable → Sighting → HostTable → ℕ → HostEntry → Type 0
Filled ht s ht' i e =
    Noted e s (entry_at ht' i) × ((j : ℕ) → j ≢ i → entry_at ht' j ≡ entry_at ht j)

-- What a call did: it is refused by a full table and changes nothing, or it noted the sighting in
-- the entry that it found, or in one more.
abbrev pub Did : HostTable → Sighting → Option ℕ × HostTable → Type 0
Did ht s (none, ht') = (ht' ≡ ht) × (ht.count ≡ max_hosts) × Unknown ht s
Did ht s (some i, ht') =
    ((Found ht s i
        × ((entry_at ht i).valid ≡ true)
        × Filled ht s ht' i (entry_at ht i)
        × (ht'.count ≡ ht.count))
      ⊎ (Unknown ht s
          × ((entry_at ht i).valid ≡ false)
          × Filled ht s ht' i (new_entry s)
          × (ht'.count ≡ ht.count + 1)))

-- An index of the table whose entry is valid.
abbrev Known : HostTable → ℕ → Type 0
Known ht i = (i < length ht.entries) × ((get_or ht.entries i zero_entry).valid ≡ true)

find_by_mac-Known :
    (ht : HostTable) (m : Option (List ℕ)) (i : ℕ) → find_by_mac ht m ≡ some i → Known ht i
unfolding find_by_mac
find_by_mac-Known ht none i e = cc
find_by_mac-Known ht (some mac) i e =
    let (bound, passes) = find_from-some (has_this_mac mac) ht.entries i e in
    (bound, ground (arith, passes))

find_by_ip-Known :
    (ht : HostTable) (a : Option (List ℕ)) (i : ℕ) → find_by_ip ht a ≡ some i → Known ht i
unfolding find_by_ip
find_by_ip-Known ht none i e = cc
find_by_ip-Known ht (some []) i e = cc
find_by_ip-Known ht (some (c ∷ ip)) i e =
    let (bound, passes) = find_from-some (has_this_ip (c ∷ ip)) ht.entries i e in
    (bound, ground (arith, passes))

or_else-Known :
    (ht : HostTable) (a b : Option ℕ) (i : ℕ)
    → ((j : ℕ) → a ≡ some j → Known ht j)
    → ((j : ℕ) → b ≡ some j → Known ht j)
    → or_else a b ≡ some i
    → Known ht i
or_else-Known ht none b i h k e = k i e
or_else-Known ht (some j) b i h k e = h i e

find_entry-Known : (ht : HostTable) (s : Sighting) (i : ℕ) → find_entry ht s ≡ some i → Known ht i
unfolding find_entry
find_entry-Known ht s i e =
    or_else-Known ht (find_by_mac ht s.mac) (find_by_ip ht s.ip) i (find_by_mac-Known ht s.mac)
      (find_by_ip-Known ht s.ip) e

module _ (ht : HostTable) (s : Sighting) (v : IsValid ht) where
  each-set :
      (i : ℕ) (e : HostEntry)
      → i < length ht.entries
      → Fits e
      → (j : ℕ) → Fits (get_or (set ht.entries i e) j zero_entry)
  each-set i e h f j = elim (Bool-cases (i == j)) [
    | inl same ↦ rw (← (==_iff i j).0 same, get_or-set_self ht.entries i e zero_entry h) f
    | inr other ↦ rw (get_or-set_ne ht.entries i j e zero_entry (ground arith)) (v.each j)
  ]

  filled-IsValid :
      (i : ℕ) (e : HostEntry) (n : ℕ)
      → i < length ht.entries
      → Fits e
      → e.valid ≡ true
      → n + weight (get_or ht.entries i zero_entry).valid ≡ ht.count + 1
      → IsValid (record { entries = set ht.entries i e; count = n })
  filled-IsValid i e n h f valid size = record {
    slots = length-set ht.entries i e ∙ v.slots;
    counted = ground (arith, count_valid-set ht.entries i e h, v.counted);
    each = each-set i e h f;
  }

  note-Filled :
      (i : ℕ) (e : HostEntry) (n : ℕ)
      → i < length ht.entries
      → Filled ht s (record { entries = set ht.entries i (note e s); count = n }) i e
  note-Filled i e n h = (
    rw (get_or-set_self ht.entries i (note e s) zero_entry h) (note-Noted e s),
    λ j other. get_or-set_ne ht.entries i j (note e s) zero_entry (λ k. other (sym k)),
  )

  at_entry-Did :
      (i : ℕ) → find_entry ht s ≡ some i → IsValid (at_entry ht s i).1 × Did ht s (at_entry ht s i)
  unfolding at_entry
  at_entry-Did i e =
      let old = get_or ht.entries i zero_entry in
      let (bound, valid) = find_entry-Known ht s i e in
      let (same, seen, fit) = note_lem old s in
      (
        filled-IsValid i (note old s) ht.count bound (fit (v.each i)) (same ∙ valid)
            (rw valid refl),
        inl (find_entry-Found ht s i e, valid, note-Filled i old ht.count bound, refl),
      )

  new_entry-Fits : Fits (new_entry s)
  new_entry-Fits = omega arith

  at_slot-Did :
      (i : ℕ)
      → find_entry ht s ≡ none
      → i < length ht.entries
      → (get_or ht.entries i zero_entry).valid ≡ false
      → IsValid (at_slot ht s (some i)).1 × Did ht s (at_slot ht s (some i))
  unfolding at_slot
  at_slot-Did i e bound free =
      let (same, seen, fit) = note_lem (new_entry s) s in
      (
        filled-IsValid i (note (new_entry s) s) (ht.count + 1) bound (fit new_entry-Fits) same
            (rw free (omega arith)),
        inr (
          find_entry-Unknown ht s e,
          free,
          note-Filled i (new_entry s) (ht.count + 1) bound,
          refl,
        ),
      )

  count_valid-le : (es : List HostEntry) → count_valid es ≤ length es
  count_valid-le [] = omega arith
  count_valid-le (x ∷ es) = ground (arith, count_valid-le es)

  by_entry-Did :
      (o : Option ℕ)
      → find_entry ht s ≡ o
      → IsValid (by_entry ht s o).1 × Did ht s (by_entry ht s o)
  unfolding by_entry
  by_entry-Did (some i) e = at_entry-Did i e
  by_entry-Did none e = elim (Bool-cases (leb max_hosts ht.count)) [
    | inl full ↦ rw full (
      v,
      (
        refl,
        ground (arith, v.counted, v.slots, count_valid-le ht.entries),
        find_entry-Unknown ht s e,
      ),
    )
    | inr room ↦
        let (i, there) = free_slot ht.entries (ground (arith, v.counted, v.slots)) in
        let (bound, passes) = find_from-some (λ e. not e.valid) ht.entries i there in
        rw (room, there) (at_slot-Did i e bound (ground (arith, passes)))
  ]

  -- A valid table stays valid: as many slots as ever, the count that of the valid ones, and no
  -- array beyond its size. The call notes the sighting in a valid entry of its hardware address,
  -- or, if there is none, in one of its address, or, if there is neither, in a new entry first seen
  -- now, in a slot that was free; every other slot stays as it was. To note it is to count an event
  -- in 32 bits, to set the time last seen, to let the address and the source join their lists, cut
  -- to 45 and 31 bytes, unless they are empty, there already or without room, and to set the
  -- hardware address and the two names that are lacking; all else stays. Only a full table refuses
  -- the call, where there is neither, and then nothing changes, so that the branch for a table that
  -- is not full and has no free slot is never taken.
  pub update-IsValid : IsValid (update ht s).1 × Did ht s (update ht s)
  unfolding update
  update-IsValid = by_entry-Did (find_entry ht s) refl
