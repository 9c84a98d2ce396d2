-- ===== src/Flow/Table/Entries.antt =====
-- Lists of flows with distinct keys: what looking up, replacing, erasing and inserting do to one
-- another and to the number of packets that the flows count (src/agent/src/flow_tracker.c).
use packetsonde.Prelude.{
  ℕ, suc, ◌+◌, ◌≡◌, ◌≢◌, refl, none, some, List, [], ◌∷◌, ◌++◌, arith, length, length-append,
}
use packetsonde.Flow.Key.{FlowKey}
use packetsonde.Flow.Tree.{Flow, lookup, erase, replace, IsInsertion}

-- No key twice.
abbrev pub Distinct : List Flow → Type 0
Distinct [] = Unit
Distinct (f ∷ fs) = (lookup f.key fs ≡ none) × Distinct fs

-- The packets that a flow, or the flows of a list, have counted.
abbrev pub packets_of : Flow → ℕ
packets_of f = f.packets.0 + f.packets.1

abbrev pub packets_in : List Flow → ℕ
packets_in [] = 0
packets_in (f ∷ fs) = packets_of f + packets_in fs

pub lookup-key : (k : FlowKey) (fs : List Flow) {f : Flow} → lookup k fs ≡ some f → f.key ≡ k
unfolding lookup
lookup-key k [] e = cc
lookup-key k (g ∷ fs) {f} e = ground (arith, lookup-key k fs {f = f})

pub packets_in-replace :
    (g : Flow) (fs : List Flow) {f : Flow}
    → lookup g.key fs ≡ some f
    → packets_in (replace g fs) + packets_of f ≡ packets_in fs + packets_of g
unfolding lookup replace
packets_in-replace g [] e = cc
packets_in-replace g (h ∷ fs) {f} e = ground (arith, packets_in-replace g fs {f = f})

pub length-replace : (g : Flow) (fs : List Flow) → length (replace g fs) ≡ length fs
unfolding replace
length-replace g [] = refl
length-replace g (h ∷ fs) = ground (arith, length-replace g fs)

pub packets_in-erase :
    (k : FlowKey) (fs : List Flow) {f : Flow}
    → lookup k fs ≡ some f
    → packets_in (erase k fs) + packets_of f ≡ packets_in fs
unfolding lookup erase
packets_in-erase k [] e = cc
packets_in-erase k (h ∷ fs) {f} e = ground (arith, packets_in-erase k fs {f = f})

pub length-erase :
    (k : FlowKey) (fs : List Flow) {f : Flow}
    → lookup k fs ≡ some f
    → suc (length (erase k fs)) ≡ length fs
unfolding lookup erase
length-erase k [] e = cc
length-erase k (h ∷ fs) {f} e = ground (arith, length-erase k fs {f = f})

pub lookup-erase_ne : (k j : FlowKey) (fs : List Flow) → k ≢ j → lookup j (erase k fs) ≡ lookup j fs
unfolding lookup erase
lookup-erase_ne k j [] ne = refl
lookup-erase_ne k j (f ∷ fs) ne = ground (arith, lookup-erase_ne k j fs ne)

lookup-none-erase :
    (k j : FlowKey) (fs : List Flow) → lookup j fs ≡ none → lookup j (erase k fs) ≡ none
unfolding lookup erase
lookup-none-erase k j [] e = refl
lookup-none-erase k j (f ∷ fs) e = ground (arith, lookup-none-erase k j fs)

pub Distinct-erase : (k : FlowKey) (fs : List Flow) → Distinct fs → Distinct (erase k fs)
unfolding erase
Distinct-erase k [] d = tt
Distinct-erase k (f ∷ fs) d = ground (arith, Distinct-erase k fs d.1, lookup-none-erase k f.key fs)

lookup-none-replace :
    (g : Flow) (j : FlowKey) (fs : List Flow) → lookup j fs ≡ none → lookup j (replace g fs) ≡ none
unfolding lookup replace
lookup-none-replace g j [] e = refl
lookup-none-replace g j (f ∷ fs) e = ground (arith, lookup-none-replace g j fs)

pub Distinct-replace : (g : Flow) (fs : List Flow) → Distinct fs → Distinct (replace g fs)
unfolding replace lookup
Distinct-replace g [] d = tt
Distinct-replace g (f ∷ fs) d =
    ground (arith, Distinct-replace g fs d.1, lookup-none-replace g f.key fs)

lookup-insert_none :
    (j : FlowKey) (f : Flow) (fs gs : List Flow)
    → j ≢ f.key
    → lookup j (fs ++ gs) ≡ none
    → lookup j (fs ++ f ∷ gs) ≡ none
unfolding lookup
lookup-insert_none j f [] gs ne e = ground arith
lookup-insert_none j f (h ∷ fs) gs ne e = ground (arith, lookup-insert_none j f fs gs ne)

-- A key that is not found in front is not the key there.
pub lookup-head_ne :
    (k : FlowKey) (h : Flow) (fs : List Flow)
    → lookup k (h ∷ fs) ≡ none
    → (h.key ≢ k) × (lookup k fs ≡ none)
unfolding lookup
lookup-head_ne k h fs e = ground arith

Distinct-insert :
    (f : Flow) (fs gs : List Flow)
    → lookup f.key (fs ++ gs) ≡ none
    → Distinct (fs ++ gs)
    → Distinct (fs ++ f ∷ gs)
Distinct-insert f [] gs e d = (e, d)
Distinct-insert f (h ∷ fs) gs e d =
    let (ne, e') = lookup-head_ne f.key h (fs ++ gs) e in
    (lookup-insert_none h.key f fs gs ne d.0, Distinct-insert f fs gs e' d.1)

packets_in-append : (fs gs : List Flow) → packets_in (fs ++ gs) ≡ packets_in fs + packets_in gs
packets_in-append [] gs = omega arith
packets_in-append (f ∷ fs) gs = omega (arith, packets_in-append fs gs)

-- What an insertion of a flow with a new key does to a list.
pub Distinct-IsInsertion :
    {f : Flow} {before after : List Flow}
    → IsInsertion f before after
    → lookup f.key before ≡ none
    → Distinct before
    → Distinct after
Distinct-IsInsertion {f} i e d =
    rw i.joins (Distinct-insert f i.front i.back (rw i.splits at e) (rw i.splits at d))

pub length-IsInsertion :
    {f : Flow} {before after : List Flow}
    → IsInsertion f before after
    → length after ≡ suc (length before)
length-IsInsertion {f} i =
    rw (i.joins, i.splits)
      (omega (arith, length-append i.front (f ∷ i.back), length-append i.front i.back))

pub packets_in-IsInsertion :
    {f : Flow} {before after : List Flow}
    → IsInsertion f before after
    → packets_in after ≡ packets_in before + packets_of f
packets_in-IsInsertion {f} i =
    rw (i.joins, i.splits)
      (omega (arith, packets_in-append i.front (f ∷ i.back), packets_in-append i.front i.back))
