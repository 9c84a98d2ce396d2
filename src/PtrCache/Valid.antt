-- ===== src/PtrCache/Valid.antt =====
-- What the lock of src/lib/ptr_cache.c guards, in every state that calls and the worker reach.
use packetsonde.Prelude.{
  ℕ, zero, suc, ◌≤◌, ◌≡◌, refl, Bool, true, Option, none, some, List, [], ◌∷◌, ◌++◌, leb, length,
  length-append, arith, Bool-cases, inl, inr,
}
use packetsonde.Baseline.Covers.{take_all}
use packetsonde.PtrCache.{
  PtrEntry, PtrCache, ptr_max, find, asked, ensured, ensure, name_at, looked_up, lookup, Worker,
  waiting, resolving, left, next_job, start, pick, wake, store, System, work, Step, ask, await, run,
  stop, Reach, created, next,
}
use packetsonde.PtrCache.Slots.{
  count_pending, NoTwice, AllRight, IsJob, Found, count_pending-append, IsJob-append,
  AllRight-append, NoTwice-append, length-resolve_at, NoTwice-resolve_at, count_pending-resolve_at,
  AllRight-resolve_at, next_job-Found,
}

-- The worker's job is an entry that is still pending; it leaves only at the shutdown.
abbrev pub HasJob : List PtrEntry → Bool → Worker → Type 0
HasJob es down waiting = Unit
HasJob es down (resolving i ip) = IsJob es i ip
HasJob es down left = down ≡ true

HasJob-stop : (es : List PtrEntry) (down : Bool) (w : Worker) → HasJob es down w → HasJob es true w
HasJob-stop es down waiting h = h
HasJob-stop es down (resolving i ip) h = h
HasJob-stop es down left h = refl

module _ (resolver : List ℕ → Option (List ℕ)) where
  pub record IsValid (c : PtrCache) (w : Worker) : Type 0 where
    pub room : length c.entries ≤ ptr_max
    pub counted : c.pending_count ≡ count_pending c.entries
    pub apart : NoTwice c.entries
    pub right : AllRight resolver c.entries
    pub job : HasJob c.entries c.shutdown w

  HasJob-append :
      (es : List PtrEntry) (e : PtrEntry) (down : Bool) (w : Worker)
      → HasJob es down w
      → HasJob (es ++ e ∷ []) down w
  HasJob-append es e down waiting h = h
  HasJob-append es e down (resolving i ip) h = IsJob-append e es i ip h
  HasJob-append es e down left h = h

  ensured-IsValid :
      (c : PtrCache) (w : Worker) (ip : List ℕ) (o : Option ℕ)
      → length ip ≤ 63
      → find c.entries ip ≡ o
      → IsValid c w
      → IsValid (ensured c ip o).1 w
  ensured-IsValid c w ip (some i) short e v = v
  ensured-IsValid c w ip none short e v = elim (Bool-cases (leb ptr_max (length c.entries))) [
    | inl full ↦ rw full v
    | inr open_slot ↦ rw open_slot (record {
      room = ground (arith, length-append c.entries (asked ip ∷ []));
      counted = omega (arith, count_pending-append (asked ip) c.entries, v.counted);
      apart = NoTwice-append c.entries (asked ip) v.apart (rw (take_all 63 ip short) e);
      right = AllRight-append (asked ip) resolver c.entries v.right tt;
      job = HasJob-append c.entries (asked ip) c.shutdown w v.job;
    })
  ]

  pub ensure-IsValid :
      (c : PtrCache) (w : Worker) (ip : List ℕ)
      → length ip ≤ 63
      → IsValid c w
      → IsValid (ensure c ip).1 w
  unfolding ensure
  ensure-IsValid c w ip short v = ensured-IsValid c w ip (find c.entries ip) short refl v

  looked_up-IsValid :
      (c : PtrCache) (w : Worker) (ip : List ℕ) (cap : ℕ) (o : Option (List ℕ))
      → length ip ≤ 63
      → IsValid c w
      → IsValid (looked_up c ip cap o).1 w
  looked_up-IsValid c w ip cap none short v = ensure-IsValid c w ip short v
  looked_up-IsValid c w ip cap (some name) short v = v

  start-IsValid :
      (c : PtrCache) (k : ℕ) (o : Option (ℕ × List ℕ)) (later : PtrCache × Worker)
      → Found c.entries o
      → c.pending_count ≡ suc k
      → IsValid c waiting
      → IsValid (start c o later).0 (start c o later).1
  start-IsValid c k none later h e v = absurd (omega (arith, v.counted, e, h))
  start-IsValid c k (some (i, ip)) later h e v = record {
    room = v.room;
    counted = v.counted;
    apart = v.apart;
    right = v.right;
    job = h;
  }

  pick-IsValid :
      (c : PtrCache) (n : ℕ)
      → c.pending_count ≡ n
      → IsValid c waiting
      → IsValid (pick n c).0 (pick n c).1
  unfolding pick
  pick-IsValid c zero e v = v
  pick-IsValid c (suc k) e v =
      start-IsValid c k (next_job c.entries) _ (next_job-Found c.entries) e v

  pub wake-IsValid : (c : PtrCache) → IsValid c waiting → IsValid (wake c).0 (wake c).1
  unfolding wake
  wake-IsValid c v = elim (Bool-cases c.shutdown) [
    | inl down ↦ simp down (record {
      room = v.room;
      counted = v.counted;
      apart = v.apart;
      right = v.right;
      job = down;
    })
    | inr up ↦ simp up (pick-IsValid c c.pending_count refl v)
  ]

  pub store-IsValid :
      (c : PtrCache) (i : ℕ) (ip : List ℕ)
      → IsValid c (resolving i ip)
      → IsValid (store c i (resolver ip)) waiting
  store-IsValid c i ip v = record {
    room = rw (length-resolve_at (resolver ip) c.entries i) v.room;
    counted = omega (arith, v.counted, count_pending-resolve_at (resolver ip) c.entries i ip v.job);
    apart = NoTwice-resolve_at (resolver ip) c.entries i v.apart;
    right = AllRight-resolve_at resolver c.entries i ip v.job v.right;
    job = tt;
  }

  pub work-IsValid :
      (c : PtrCache) (w : Worker)
      → IsValid c w
      → IsValid (work resolver c w).cache (work resolver c w).worker
  work-IsValid c waiting v = wake-IsValid c v
  work-IsValid c (resolving i ip) v =
      wake-IsValid (store c i (resolver ip)) (store-IsValid c i ip v)
  work-IsValid c left v = v

  Step-IsValid :
      {s t : System} → Step resolver s t → IsValid s.cache s.worker → IsValid t.cache t.worker
  Step-IsValid {s} (ask ip cap short) v =
      unfold lookup in
      looked_up-IsValid s.cache s.worker ip cap (name_at s.cache.entries (find s.cache.entries ip))
        short v
  Step-IsValid {s} (await ip short) v = ensure-IsValid s.cache s.worker ip short v
  Step-IsValid {s} run v = work-IsValid s.cache s.worker v
  Step-IsValid {s} stop v = record {
    room = v.room;
    counted = v.counted;
    apart = v.apart;
    right = v.right;
    job = HasJob-stop s.cache.entries s.cache.shutdown s.worker v.job;
  }

  -- However calls for addresses of at most 63 bytes, the worker and the shutdown take turns, no
  -- more than 256 entries are in the cache, no two of them for one address, as many are pending as
  -- the cache counts, a resolved one holds what the resolver says of its address, and the worker
  -- is busy only with an entry that is pending.
  pub Reach-IsValid : {s : System} → Reach resolver s → IsValid s.cache s.worker
  Reach-IsValid created = record {
    room = omega arith;
    counted = refl;
    apart = tt;
    right = tt;
    job = tt;
  }
  Reach-IsValid (next r st) = Step-IsValid st (Reach-IsValid r)
