-- ===== src/Flow/Tree.antt =====
-- Flows, and the ordered tree that src/agent/src/flow_tracker.c keeps them in. The tree is the BSD
-- macro library of src/agent/src/compat/tree.h, which is not modelled: `FlowTree` is what the
-- tracker calls of it, with the documented effect of each call on the order of `RB_FOREACH`.
pub mod ListTree
use packetsonde.Prelude.{ℕ, ◌≡◌, Option, none, some, List, [], ◌∷◌, ◌++◌, Bool, true, false}
use native.Mathlib.Decide.{ℕ_discrete}
use packetsonde.Flow.Key.{FlowKey}

-- The arrays of two are pairs: forward, reverse.
pub record Flow : Type 0 where
  pub key : FlowKey
  pub packets : ℕ × ℕ
  pub octets : ℕ × ℕ
  pub tcp_flags : ℕ × ℕ
  pub flow_start : ℕ
  pub flow_last : ℕ
  pub flow_label : ℕ

-- `flow_compare` compares all bytes of the zeroed keys: it returns 0 between equal keys only.
unfoldable pub flow_compare : Discrete FlowKey
flow_compare = hlevel ℕ_discrete

-- The tree as the list of its flows: what it holds under a key, and the list without it or with
-- another flow in its place.
unfoldable pub lookup : FlowKey → List Flow → Option Flow
lookup k [] = none
lookup k (f ∷ fs) = elim (flow_compare k f.key) [ yes _ ↦ some f | no _ ↦ lookup k fs ]

unfoldable pub erase : FlowKey → List Flow → List Flow
erase k [] = []
erase k (f ∷ fs) = elim (flow_compare k f.key) [ yes _ ↦ fs | no _ ↦ f ∷ erase k fs ]

unfoldable pub replace : Flow → List Flow → List Flow
replace g [] = []
replace g (f ∷ fs) = elim (flow_compare g.key f.key) [ yes _ ↦ g ∷ fs | no _ ↦ f ∷ replace g fs ]

-- The list `after` is `before` with `f` somewhere in it.
pub record IsInsertion (f : Flow) (before after : List Flow) : Type 0 where
  pub front : List Flow
  pub back : List Flow
  pub splits : before ≡ front ++ back
  pub joins : after ≡ front ++ (f ∷ back)

pub record FlowTree : Type 1 where
  pub Tree : Type 0
  pub empty : Tree
  pub find : Tree → FlowKey → Option Flow
  pub insert : Tree → Flow → Tree
  pub remove : Tree → FlowKey → Tree
  -- Writing fields other than the key through a pointer that `find` returned.
  pub update : Tree → Flow → Tree
  pub to_list : Tree → List Flow
  pub to_list-empty : to_list empty ≡ []
  pub find_lem : (t : Tree) (k : FlowKey) → find t k ≡ lookup k (to_list t)
  pub to_list-insert :
      (t : Tree) (f : Flow)
      → lookup f.key (to_list t) ≡ none
      → IsInsertion f (to_list t) (to_list (insert t f))
  pub to_list-remove : (t : Tree) (k : FlowKey) → to_list (remove t k) ≡ erase k (to_list t)
  pub to_list-update : (t : Tree) (f : Flow) → to_list (update t f) ≡ replace f (to_list t)
