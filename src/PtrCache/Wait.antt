-- ===== src/PtrCache/Wait.antt =====
-- A caller of src/lib/ptr_cache.c that waits while others and the worker go on.
use packetsonde.Prelude.{
  ℕ, ◌-◌, ◌≤◌, ◌≡◌, refl, sym, ap, ◌∙◌, Option, none, some, List, [], ◌∷◌, ◌++◌, leb, length, take,
  Bool-cases, inl, inr,
}
use mathlib.Core.Option
use mathlib.Core.Option.{some-injective}
use mathlib.Core.Path.{subst}
use packetsonde.PtrCache.{
  PtrEntry, PtrCache, ptr_max, find, asked, ensured, ensure, name_at, looked_up, lookup,
  wait_answer, Worker, waiting, resolving, left, answer, store, System, work, Step, ask, await, run,
  stop, Reach, next,
}
use packetsonde.PtrCache.Slots.{
  IsFor, IsFor-append, IsFor-appended, IsFor-resolve_at, FoundFor, find-IsFor, name_at-answer,
}
use packetsonde.PtrCache.Valid.{IsValid, Reach-IsValid}
use packetsonde.Baseline.Covers.{take_all}
use packetsonde.PtrCache.Live.{wake-entries}

-- The index that a call of `ensure` gives is the address's.
abbrev Given : List ℕ → Option ℕ × PtrCache → Type 0
Given ip (o, c) = FoundFor c.entries ip o

ensured-Given :
    (c : PtrCache) (ip : List ℕ) (o : Option ℕ)
    → take 63 ip ≡ ip
    → FoundFor c.entries ip o
    → Given ip (ensured c ip o)
ensured-Given c ip (some i) whole f = f
ensured-Given c ip none whole f = elim (Bool-cases (leb ptr_max (length c.entries))) [
  | inl full ↦ rw full tt
  | inr room ↦ rw room (
      subst (IsFor (c.entries ++ asked ip ∷ []) (length c.entries)) whole
        (IsFor-appended c.entries (asked ip)))
]

-- An index keeps its address.
abbrev Keeps : List PtrEntry → List PtrEntry → Type 0
Keeps es fs = (i : ℕ) (ip : List ℕ) → IsFor es i ip → IsFor fs i ip

ensured-Keeps :
    (c : PtrCache) (ip : List ℕ) (o : Option ℕ) → Keeps c.entries (ensured c ip o).1.entries
ensured-Keeps c ip (some k) i a f = f
ensured-Keeps c ip none i a f = elim (Bool-cases (leb ptr_max (length c.entries))) [
  | inl full ↦ rw full f
  | inr room ↦ rw room (IsFor-append c.entries (asked ip) i a f)
]

looked_up-Keeps :
    (c : PtrCache) (ip : List ℕ) (cap : ℕ) (o : Option (List ℕ))
    → Keeps c.entries (looked_up c ip cap o).1.entries
looked_up-Keeps c ip cap (some name) i a f = f
looked_up-Keeps c ip cap none i a f = unfold ensure in ensured-Keeps c ip (find c.entries ip) i a f

module _ (resolver : List ℕ → Option (List ℕ)) where
  work-Keeps : (c : PtrCache) (w : Worker) → Keeps c.entries (work resolver c w).cache.entries
  work-Keeps c waiting i a f = rw (wake-entries c) f
  work-Keeps c (resolving k ip) i a f =
      rw (wake-entries (store c k (resolver ip))) (IsFor-resolve_at c.entries k i a (resolver ip) f)
  work-Keeps c left i a f = f

  Step-Keeps : {s t : System} → Step resolver s t → Keeps s.cache.entries t.cache.entries
  Step-Keeps {s} (ask ip cap short) i a f =
      unfold lookup in
      looked_up-Keeps s.cache ip cap (name_at s.cache.entries (find s.cache.entries ip)) i a f
  Step-Keeps {s} (await ip short) i a f =
      unfold ensure in ensured-Keeps s.cache ip (find s.cache.entries ip) i a f
  Step-Keeps {s} run i a f = work-Keeps s.cache s.worker i a f
  Step-Keeps stop i a f = f

  -- What happens while the lock is released.
  pub data Later (s : System) : System → Type 0 where
    now : Later s s
    then_step : {t u : System} → Later s t → Step resolver t u → Later s u

  Later-Keeps : {s t : System} → Later s t → Keeps s.cache.entries t.cache.entries
  Later-Keeps now i a f = f
  Later-Keeps (then_step l st) i a f = Step-Keeps st i a (Later-Keeps l i a f)

  Later-Reach : {s t : System} → Reach resolver s → Later s t → Reach resolver t
  Later-Reach r now = r
  Later-Reach r (then_step l st) = next (Later-Reach r l) st

  -- A caller waits for an address of at most 63 bytes, at the index that it was given, while other
  -- calls and the worker go on: if it is told a name, it is the one that the resolver has for the
  -- address it waits for, empty if there is none, cut to its buffer.
  pub Later-wait_answer :
      {s t : System} (ip : List ℕ) (cap i : ℕ) {out : List ℕ}
      → Reach resolver s
      → length ip ≤ 63
      → (ensure s.cache ip).0 ≡ some i
      → Later (record s { cache = (ensure s.cache ip).1 }) t
      → wait_answer t.cache i cap ≡ some out
      → out ≡ take (cap - 1) (answer (resolver ip))
  unfolding wait_answer
  Later-wait_answer {s} {t} ip cap i {out} r short given l e =
      let valid = Reach-IsValid resolver (Later-Reach (next r (await ip short)) l) in
      let mine : FoundFor (ensure s.cache ip).1.entries ip (ensure s.cache ip).0 =
        unfold ensure in
        ensured-Given s.cache ip (find s.cache.entries ip) (take_all 63 ip short)
          (find-IsFor s.cache.entries ip) in
      let at_i : IsFor (ensure s.cache ip).1.entries i ip =
        subst (FoundFor (ensure s.cache ip).1.entries ip) given mine in
      by_name (name_at t.cache.entries (some i)) refl e (Later-Keeps l i ip at_i) valid
    where
      by_name :
          (n : Option (List ℕ))
          → name_at t.cache.entries (some i) ≡ n
          → Option.map (take (cap - 1)) n ≡ some out
          → IsFor t.cache.entries i ip
          → IsValid resolver t.cache t.worker
          → out ≡ take (cap - 1) (answer (resolver ip))
      by_name none known e' f v = cc
      by_name (some name) known e' f v =
          sym (some-injective _ _ e')
          ∙ ap (take (cap - 1)) (name_at-answer resolver t.cache.entries i ip v.right f known)
