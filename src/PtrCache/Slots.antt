-- ===== src/PtrCache/Slots.antt =====
-- Lists of entries as src/lib/ptr_cache.c searches and changes them.
use mathlib.Core.Option
use packetsonde.Prelude.{
  ℕ, zero, suc, ◌+◌, ◌≡◌, ◌∙◌, refl, sym, ap, false, Option, none, some, List, [], ◌∷◌, ◌++◌,
  length, arith, Bool-cases, inl, inr,
}
use mathlib.Core.Option.{some-injective}
use packetsonde.Baseline.{same_path}
use packetsonde.Baseline.Covers.{same_path-eq}
use packetsonde.PtrCache.{
  EntryState, pending, resolved, PtrEntry, find, name_if, name_at, job_if, next_job, answer,
  resolve_at,
}

-- How many wait for the worker.
abbrev pub waits : EntryState → ℕ
waits pending = 1
waits resolved = 0

abbrev pub count_pending : List PtrEntry → ℕ
count_pending [] = 0
count_pending (e ∷ es) = waits e.state + count_pending es

-- No two entries are for one address.
abbrev pub NoTwice : List PtrEntry → Type 0
NoTwice [] = Unit
NoTwice (e ∷ es) = (find es e.ip ≡ none) × NoTwice es

-- A resolved entry holds what the resolver says of its address.
abbrev pub IsRight : (List ℕ → Option (List ℕ)) → List ℕ → List ℕ → EntryState → Type 0
IsRight resolver ip name pending = Unit
IsRight resolver ip name resolved = name ≡ answer (resolver ip)

abbrev pub AllRight : (List ℕ → Option (List ℕ)) → List PtrEntry → Type 0
AllRight resolver [] = Unit
AllRight resolver (e ∷ es) = IsRight resolver e.ip e.name e.state × AllRight resolver es

-- The entry at an index is for an address and pending.
abbrev pub IsJob : List PtrEntry → ℕ → List ℕ → Type 0
IsJob [] i ip = ⊥
IsJob (e ∷ es) zero ip = (e.ip ≡ ip) × (e.state ≡ pending)
IsJob (e ∷ es) (suc i) ip = IsJob es i ip

-- An appended entry.
module _ (e : PtrEntry) where
  pub count_pending-append :
      (es : List PtrEntry) → count_pending (es ++ e ∷ []) ≡ count_pending es + waits e.state
  count_pending-append [] = omega arith
  count_pending-append (f ∷ es) = omega (arith, count_pending-append es)

  pub IsJob-append :
      (es : List PtrEntry) (i : ℕ) (ip : List ℕ) → IsJob es i ip → IsJob (es ++ e ∷ []) i ip
  IsJob-append [] i ip h = absurd h
  IsJob-append (f ∷ es) zero ip h = h
  IsJob-append (f ∷ es) (suc i) ip h = IsJob-append es i ip h

  pub AllRight-append :
      (resolver : List ℕ → Option (List ℕ)) (es : List PtrEntry)
      → AllRight resolver es
      → IsRight resolver e.ip e.name e.state
      → AllRight resolver (es ++ e ∷ [])
  AllRight-append resolver [] h r = (r, tt)
  AllRight-append resolver (f ∷ es) (h, hs) r = (h, AllRight-append resolver es hs r)

same_path_comm : (a b : List ℕ) → same_path a b ≡ same_path b a
same_path_comm [] [] = refl
same_path_comm [] (y ∷ b) = refl
same_path_comm (x ∷ a) [] = refl
same_path_comm (x ∷ a) (y ∷ b) = ground (arith, same_path_comm a b)

-- A search that fails, or succeeds, in a list with a first entry.
map_none : (o : Option ℕ) → Option.map suc o ≡ none → o ≡ none
map_none none h = refl
map_none (some i) h = cc

find_none :
    (e : PtrEntry) (es : List PtrEntry) (ip : List ℕ)
    → find (e ∷ es) ip ≡ none
    → (same_path e.ip ip ≡ false) × (find es ip ≡ none)
unfolding find
find_none e es ip h = elim (Bool-cases (same_path e.ip ip)) [
  | inl found ↦ cc (rw found at h)
  | inr differs ↦ (differs, map_none (find es ip) (rw differs at h))
]

find-append :
    (es : List PtrEntry) (e : PtrEntry) (ip : List ℕ)
    → find es ip ≡ none
    → same_path e.ip ip ≡ false
    → find (es ++ e ∷ []) ip ≡ none
unfolding find
find-append [] e ip h differs = rw differs refl
find-append (f ∷ es) e ip h differs =
    let (no_match, later) = find_none f es ip h in
    rw (no_match, find-append es e ip later differs) refl

pub NoTwice-append :
    (es : List PtrEntry) (e : PtrEntry) → NoTwice es → find es e.ip ≡ none → NoTwice (es ++ e ∷ [])
NoTwice-append [] e h new = (unfold find in refl, tt)
NoTwice-append (f ∷ es) e (h, hs) new =
    let (differs, later) = find_none f es e.ip new in
    (find-append es e f.ip h (same_path_comm e.ip f.ip ∙ differs), NoTwice-append es e hs later)

-- The entry at an index is for an address.
abbrev pub IsFor : List PtrEntry → ℕ → List ℕ → Type 0
IsFor [] i ip = ⊥
IsFor (e ∷ es) zero ip = e.ip ≡ ip
IsFor (e ∷ es) (suc i) ip = IsFor es i ip

pub IsFor-append :
    (es : List PtrEntry) (e : PtrEntry) (i : ℕ) (ip : List ℕ)
    → IsFor es i ip
    → IsFor (es ++ e ∷ []) i ip
IsFor-append [] e i ip h = absurd h
IsFor-append (f ∷ es) e zero ip h = h
IsFor-append (f ∷ es) e (suc i) ip h = IsFor-append es e i ip h

pub IsFor-appended : (es : List PtrEntry) (e : PtrEntry) → IsFor (es ++ e ∷ []) (length es) e.ip
IsFor-appended [] e = refl
IsFor-appended (f ∷ es) e = IsFor-appended es e

pub IsFor-resolve_at :
    (es : List PtrEntry) (k i : ℕ) (ip : List ℕ) (found : Option (List ℕ))
    → IsFor es i ip
    → IsFor (resolve_at es k found) i ip
IsFor-resolve_at [] k i ip found h = h
IsFor-resolve_at (e ∷ es) zero zero ip found h = h
IsFor-resolve_at (e ∷ es) zero (suc i) ip found h = h
IsFor-resolve_at (e ∷ es) (suc k) zero ip found h = h
IsFor-resolve_at (e ∷ es) (suc k) (suc i) ip found h = IsFor-resolve_at es k i ip found h

abbrev pub FoundFor : List PtrEntry → List ℕ → Option ℕ → Type 0
FoundFor es ip none = Unit
FoundFor es ip (some i) = IsFor es i ip

pub find-IsFor : (es : List PtrEntry) (ip : List ℕ) → FoundFor es ip (find es ip)
unfolding find
find-IsFor [] ip = tt
find-IsFor (e ∷ es) ip = elim (Bool-cases (same_path e.ip ip)) [
  | inl found ↦ rw found (same_path-eq e.ip ip found)
  | inr differs ↦ rw differs (further (find es ip) (find-IsFor es ip))
]
  where
    further : (o : Option ℕ) → FoundFor es ip o → FoundFor (e ∷ es) ip (Option.map suc o)
    further none h = tt
    further (some i) h = h

-- A name that is given out for an entry is right for its address.
pub name_at-answer :
    (resolver : List ℕ → Option (List ℕ)) (es : List PtrEntry) (i : ℕ) (ip : List ℕ) {name : List ℕ}
    → AllRight resolver es
    → IsFor es i ip
    → name_at es (some i) ≡ some name
    → name ≡ answer (resolver ip)
name_at-answer resolver [] i ip h f e = absurd f
name_at-answer resolver (x ∷ es) zero ip {name} h f e = this x.state h.0 e
  where
    this :
        (st : EntryState)
        → IsRight resolver x.ip x.name st
        → name_if st x.name ≡ some name
        → name ≡ answer (resolver ip)
    this pending r e' = cc
    this resolved r e' =
        sym (some-injective _ _ e') ∙ r ∙ ap (λ (a : List ℕ). answer (resolver a)) f
name_at-answer resolver (x ∷ es) (suc i) ip h f e = name_at-answer resolver es i ip h.1 f e

-- The entry of a job is resolved.
module _ (found : Option (List ℕ)) where
  pub length-resolve_at : (es : List PtrEntry) (i : ℕ) → length (resolve_at es i found) ≡ length es
  length-resolve_at [] i = refl
  length-resolve_at (e ∷ es) zero = refl
  length-resolve_at (e ∷ es) (suc i) = ap suc (length-resolve_at es i)

  pub find-resolve_at :
      (es : List PtrEntry) (i : ℕ) (ip : List ℕ) → find (resolve_at es i found) ip ≡ find es ip
  unfolding find
  find-resolve_at [] i ip = refl
  find-resolve_at (e ∷ es) zero ip = refl
  find-resolve_at (e ∷ es) (suc i) ip = rw (find-resolve_at es i ip) refl

  pub NoTwice-resolve_at :
      (es : List PtrEntry) (i : ℕ) → NoTwice es → NoTwice (resolve_at es i found)
  NoTwice-resolve_at [] i h = tt
  NoTwice-resolve_at (e ∷ es) zero h = h
  NoTwice-resolve_at (e ∷ es) (suc i) (h, hs) =
      (find-resolve_at es i e.ip ∙ h, NoTwice-resolve_at es i hs)

  pub count_pending-resolve_at :
      (es : List PtrEntry) (i : ℕ) (ip : List ℕ)
      → IsJob es i ip
      → suc (count_pending (resolve_at es i found)) ≡ count_pending es
  count_pending-resolve_at [] i ip h = absurd h
  count_pending-resolve_at (e ∷ es) zero ip (same, waits_yet) = rw waits_yet (omega arith)
  count_pending-resolve_at (e ∷ es) (suc i) ip h = omega (arith, count_pending-resolve_at es i ip h)

pub AllRight-resolve_at :
    (resolver : List ℕ → Option (List ℕ)) (es : List PtrEntry) (i : ℕ) (ip : List ℕ)
    → IsJob es i ip
    → AllRight resolver es
    → AllRight resolver (resolve_at es i (resolver ip))
AllRight-resolve_at resolver [] i ip j h = tt
AllRight-resolve_at resolver (e ∷ es) zero ip (same, waits_yet) (h, hs) = (rw same refl, hs)
AllRight-resolve_at resolver (e ∷ es) (suc i) ip j (h, hs) =
    (h, AllRight-resolve_at resolver es i ip j hs)

-- The worker's search, by what it finds.
abbrev pub Found : List PtrEntry → Option (ℕ × List ℕ) → Type 0
Found es none = count_pending es ≡ 0
Found es (some (i, ip)) = IsJob es i ip

pub next_job-Found : (es : List PtrEntry) → Found es (next_job es)
unfolding next_job
next_job-Found [] = refl
next_job-Found (e ∷ es) = at_head e es e.state refl (next_job es) (next_job-Found es)
  where
    at_head :
        (f : PtrEntry) (fs : List PtrEntry) (st : EntryState)
        → f.state ≡ st
        → (r : Option (ℕ × List ℕ)) → Found fs r
        → Found (f ∷ fs) (job_if st f.ip r)
    at_head f fs pending e r h = (refl, e)
    at_head f fs resolved e none h = rw e (omega (arith, h))
    at_head f fs resolved e (some (i, ip)) h = h
