-- ===== src/Flow/Table/Found.antt =====
-- Every flow of the table is found under its key, also while others leave
-- (src/agent/src/flow_tracker.c).
use packetsonde.Prelude.{◌≡◌, sym, ◌∙◌, none, some, List, [], ◌∷◌, arith}
use packetsonde.Flow.Key.{FlowKey}
use packetsonde.Flow.Tree.{Flow, lookup, erase}
use packetsonde.Flow.Table.Entries.{Distinct, lookup-head_ne, lookup-erase_ne}

-- Every flow of a list with distinct keys is found under its key.
abbrev pub Found : List Flow → List Flow → Type 0
Found within [] = Unit
Found within (f ∷ fs) = (lookup f.key within ≡ some f) × Found within fs

Found-cons :
    (h : Flow) (within fs : List Flow)
    → lookup h.key fs ≡ none
    → Found within fs
    → Found (h ∷ within) fs
unfolding lookup
Found-cons h within [] e found = tt
Found-cons h within (f ∷ fs) e found =
    ground (arith, Found-cons h within fs, lookup-head_ne h.key f fs)

pub Distinct-Found : (fs : List Flow) → Distinct fs → Found fs fs
unfolding lookup
Distinct-Found [] d = tt
Distinct-Found (f ∷ fs) d = (ground arith, Found-cons f fs fs d.0 (Distinct-Found fs d.1))

-- Erasing another key keeps what is found.
pub Found-erase :
    (k : FlowKey) (within fs : List Flow)
    → lookup k fs ≡ none
    → Found within fs
    → Found (erase k within) fs
Found-erase k within [] e found = tt
Found-erase k within (f ∷ fs) e found =
    let (ne, e') = lookup-head_ne k f fs e in
    (lookup-erase_ne k f.key within (λ p. ne (sym p)) ∙ found.0, Found-erase k within fs e' found.1)
