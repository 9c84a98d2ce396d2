-- ===== src/PtrCache/Live.antt =====
-- What callers of src/lib/ptr_cache.c are told, and that the worker gets to every address.
use packetsonde.Prelude.{
  ℕ, zero, suc, ◌+◌, ◌-◌, ◌≤◌, ◌≡◌, ◌∙◌, refl, sym, ap, false, Option, none, some, List, [], ◌∷◌,
  take, arith, Bool-cases, inl, inr,
}
use mathlib.Core.Option.{some-injective}
use mathlib.Core.Path.{subst}
use packetsonde.PtrCache.{
  EntryState, pending, resolved, PtrEntry, PtrCache, find, name_if, name_at, looked_up, lookup,
  Worker, waiting, resolving, left, next_job, start, pick, wake, answer, store, System, system,
  work, run, Reach, next,
}
use packetsonde.PtrCache.Slots.{
  waits, count_pending, AllRight, IsFor, Found, next_job-Found, find-resolve_at, FoundFor,
  find-IsFor, name_at-answer, count_pending-resolve_at,
}
use packetsonde.PtrCache.Valid.{IsValid, Reach-IsValid, wake-IsValid, store-IsValid}

-- The worker's search changes no entry.
start-entries :
    (c : PtrCache) (o : Option (ℕ × List ℕ)) (later : PtrCache × Worker)
    → later.0.entries ≡ c.entries
    → (start c o later).0.entries ≡ c.entries
start-entries c none later h = h
start-entries c (some (i, ip)) later h = refl

pick-entries : (n : ℕ) (c : PtrCache) → (pick n c).0.entries ≡ c.entries
unfolding pick
pick-entries zero c = refl
pick-entries (suc k) c =
    start-entries c (next_job c.entries) _ (pick-entries k (record c { pending_count = k }))

pub wake-entries : (c : PtrCache) → (wake c).0.entries ≡ c.entries
unfolding wake
wake-entries c = elim (Bool-cases c.shutdown) [
  | inl down ↦ simp down refl
  | inr up ↦ simp up (pick-entries c.pending_count c)
]

-- The worker waits, and no entry is pending.
abbrev pub IsDone : System → Type 0
IsDone s = (s.worker ≡ waiting) × (s.cache.pending_count ≡ 0)

wake_idle : (c : PtrCache) → c.shutdown ≡ false → c.pending_count ≡ 0 → IsDone (system (wake c))
unfolding wake pick
wake_idle c up e = simp (up, e) (refl, refl)

module _ (resolver : List ℕ → Option (List ℕ)) where
  -- A lookup that succeeds.
  told :
      (c : PtrCache) (ip : List ℕ) (cap : ℕ) (o : Option ℕ) {out : List ℕ}
      → AllRight resolver c.entries
      → FoundFor c.entries ip o
      → (looked_up c ip cap (name_at c.entries o)).0 ≡ some out
      → out ≡ take (cap - 1) (answer (resolver ip))
  told c ip cap none right f e = cc
  told c ip cap (some i) {out} right f e = by_name (name_at c.entries (some i)) refl e
    where
      by_name :
          (n : Option (List ℕ))
          → name_at c.entries (some i) ≡ n
          → (looked_up c ip cap n).0 ≡ some out
          → out ≡ take (cap - 1) (answer (resolver ip))
      by_name none known e' = cc
      by_name (some name) known e' =
          sym (some-injective _ _ e')
          ∙ ap (take (cap - 1)) (name_at-answer resolver c.entries i ip right f known)

  -- The worker's rounds.
  unfoldable pub rounds : ℕ → System → System
  rounds zero s = s
  rounds (suc n) s = rounds n (work resolver s.cache s.worker)

  work-find :
      (c : PtrCache) (w : Worker) (ip : List ℕ)
      → find (work resolver c w).cache.entries ip ≡ find c.entries ip
  work-find c waiting ip = ap (λ (es : List PtrEntry). find es ip) (wake-entries c)
  work-find c (resolving i job) ip =
      ap (λ (es : List PtrEntry). find es ip) (wake-entries (store c i (resolver job)))
      ∙ find-resolve_at (resolver job) c.entries i ip
  work-find c left ip = refl

  rounds-find :
      (n : ℕ) (s : System) (ip : List ℕ)
      → find (rounds n s).cache.entries ip ≡ find s.cache.entries ip
  unfolding rounds
  rounds-find zero s ip = refl
  rounds-find (suc n) s ip =
      rounds-find n (work resolver s.cache s.worker) ip ∙ work-find s.cache s.worker ip

  rounds-Reach : (n : ℕ) {s : System} → Reach resolver s → Reach resolver (rounds n s)
  unfolding rounds
  rounds-Reach zero r = r
  rounds-Reach (suc n) r = rounds-Reach n (next r run)

  -- A search with an entry pending finds a job.
  abbrev Busy : ℕ → PtrCache × Worker → Type 0
  Busy n (c, waiting) = ⊥
  Busy n (c, resolving i ip) = (c.pending_count ≡ n) × (c.shutdown ≡ false)
  Busy n (c, left) = ⊥

  wake-Busy :
      (c : PtrCache) (n : ℕ)
      → c.shutdown ≡ false
      → c.pending_count ≡ suc n
      → IsValid resolver c waiting
      → Busy (suc n) (wake c)
  unfolding wake pick
  wake-Busy c n up e v = simp (up, e) (job (next_job c.entries) (next_job-Found c.entries) _)
    where
      job :
          (o : Option (ℕ × List ℕ))
          → Found c.entries o
          → (later : PtrCache × Worker) → Busy (suc n) (start c o later)
      job none h later = absurd (omega (arith, h, e, v.counted))
      job (some (i, ip)) h later = (e, up)

  drained :
      (n : ℕ) (p : PtrCache × Worker)
      → Busy (suc n) p
      → IsValid resolver p.0 p.1
      → IsDone (rounds (suc n) (system p))
  unfolding rounds
  drained n (c, waiting) b v = absurd b
  drained n (c, left) b v = absurd b
  drained zero (c, resolving i ip) (e, up) v =
      wake_idle (store c i (resolver ip)) up (omega (arith, e))
  drained (suc n) (c, resolving i ip) (e, up) v =
      let c' = store c i (resolver ip) in
      let v' = store-IsValid resolver c i ip v in
      drained n (wake c') (wake-Busy c' n up (omega (arith, e)) v') (wake-IsValid resolver c' v')

  -- The rounds in which the worker is at rest first and those in which it is at work.
  enough :
      (c : PtrCache) (w : Worker)
      → c.shutdown ≡ false
      → IsValid resolver c w
      → (n : ℕ) × (n ≤ c.pending_count + 1) × IsDone (rounds n (record { cache = c; worker = w }))
  enough c w up v = by_count c w c.pending_count refl up v
    where
      by_count :
          (k : PtrCache) (x : Worker) (p : ℕ)
          → k.pending_count ≡ p
          → k.shutdown ≡ false
          → IsValid resolver k x
          → (n : ℕ) × (n ≤ k.pending_count + 1)
            × IsDone (rounds n (record { cache = k; worker = x }))
      by_count k waiting zero e up' v' = (0, omega arith, unfold rounds in (refl, e))
      by_count k (resolving i ip) zero e up' v' =
          absurd (omega (arith, v'.counted, e, count_pending-resolve_at none k.entries i ip v'.job))
      by_count k left zero e up' v' = cc (v'.job, up')
      by_count k waiting (suc p) e up' v' = (
        suc (suc p),
        omega (arith, e),
        unfold rounds in drained p (wake k) (wake-Busy k p up' e v') (wake-IsValid resolver k v'),
      )
      by_count k (resolving i ip) (suc p) e up' v' =
          (suc p, omega (arith, e), drained p (k, resolving i ip) (e, up') v')
      by_count k left (suc p) e up' v' = cc (v'.job, up')

  -- With nothing pending, every entry has a name.
  named :
      (es : List PtrEntry) (i : ℕ) (ip : List ℕ)
      → IsFor es i ip
      → count_pending es ≡ 0
      → (name : List ℕ) × (name_at es (some i) ≡ some name)
  named [] i ip f z = absurd f
  named (e ∷ es) (suc i) ip f z = named es i ip f (omega (arith, z))
  named (e ∷ es) zero ip f z = by_state e.state z
    where
      by_state :
          (st : EntryState)
          → waits st + count_pending es ≡ 0
          → (name : List ℕ) × (name_if st e.name ≡ some name)
      by_state pending n = absurd (omega (arith, n))
      by_state resolved n = (e.name, refl)

  looked_up_now :
      (s : System) (ip : List ℕ) (cap i : ℕ)
      → Reach resolver s
      → IsDone s
      → find s.cache.entries ip ≡ some i
      → (lookup s.cache ip cap).0 ≡ some (take (cap - 1) (answer (resolver ip)))
  unfolding lookup
  looked_up_now s ip cap i r done f =
      let v = Reach-IsValid resolver r in
      let here : IsFor s.cache.entries i ip =
        subst (FoundFor s.cache.entries ip) f (find-IsFor s.cache.entries ip) in
      let (name, e) = named s.cache.entries i ip here (omega (arith, v.counted, done.1)) in
      rw (f, e)
        (ap (λ (a : List ℕ). some (take (cap - 1) a))
          (name_at-answer resolver s.cache.entries i ip v.right here e))

  -- From every state that calls and the worker reach before the shutdown, whatever the worker is at,
  -- at most one round for each pending entry and one more bring it to the end of its work: it waits
  -- and no entry is pending, and then a lookup of any address that was in the cache gives the
  -- resolver's name for it, cut to the caller's buffer.
  pub lookup-rounds :
      {s : System}
      → Reach resolver s
      → s.cache.shutdown ≡ false
      → (n : ℕ) × (n ≤ s.cache.pending_count + 1)
        × IsDone (rounds n s)
        × ((ip : List ℕ) (cap i : ℕ)
            → find s.cache.entries ip ≡ some i
            → (lookup (rounds n s).cache ip cap).0 ≡ some (take (cap - 1) (answer (resolver ip))))
  lookup-rounds {s} r up =
      let (n, few, done) = enough s.cache s.worker up (Reach-IsValid resolver r) in
      (
        n,
        few,
        done,
        λ ip cap i f.
            looked_up_now (rounds n s) ip cap i (rounds-Reach n r) done (rounds-find n s ip ∙ f),
      )
