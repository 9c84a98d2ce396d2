-- ===== src/Flow/Table/Destroy.antt =====
-- `ps_flow_table_destroy` of src/agent/src/flow_tracker.c.
use packetsonde.Prelude.{◌≡◌, ◌∙◌, refl, ap, none, some, Option, List, [], ◌∷◌}
use packetsonde.Flow.Tree.{Flow, FlowTree, flow_compare, erase}
use packetsonde.Flow.Table.{FlowTable}
use packetsonde.Flow.Table.Expiry.{erase_all}
use packetsonde.Flow.Table.Invariant.{flows}

erase_first : (f : Flow) (fs : List Flow) → erase f.key (f ∷ fs) ≡ fs
unfolding erase
erase_first f fs = by_case (flow_compare f.key f.key)
  where
    by_case : (d : Dec (f.key ≡ f.key)) → elim d [ yes _ ↦ fs | no _ ↦ f ∷ erase f.key fs ] ≡ fs
    by_case (yes e) = refl
    by_case (no n) = absurd (n refl)

module _ (rb : FlowTree) where
  open rb use {Tree, remove, to_list}

  -- The loop over the nodes in order: those that are freed, and the tree that is left.
  unfoldable pub destroy_from : List Flow → Tree → List Flow × Tree
  destroy_from [] t = ([], t)
  destroy_from (f ∷ fs) t = let rest = destroy_from fs (remove t f.key) in (f ∷ rest.0, rest.1)

  -- The table may be NULL. What is freed beside the table, and the tree at its end.
  unfoldable pub destroy : Option (FlowTable Tree) → Option (List Flow × Tree)
  unfolding destroy_from
  destroy none = none
  destroy (some ft) = some (destroy_from (to_list ft.tree) ft.tree)

  destroy_from-erase :
      (fs : List Flow) (t : Tree)
      → ((destroy_from fs t).0 ≡ fs) × (to_list (destroy_from fs t).1 ≡ erase_all fs (to_list t))
  unfolding destroy_from
  destroy_from-erase [] t = (refl, refl)
  destroy_from-erase (f ∷ fs) t =
      let (freed, left) = destroy_from-erase fs (remove t f.key) in
      (ap (◌∷◌ f) freed, left ∙ ap (erase_all fs) (rb.to_list-remove t f.key))

  -- A table is destroyed with every flow that it holds: each is freed once, in the tree's order,
  -- and none is left in the tree.
  pub destroy-flows :
      (ft : FlowTable Tree)
      → (t : Tree) × (destroy (some ft) ≡ some (flows rb ft, t)) × (to_list t ≡ [])
  unfolding destroy
  destroy-flows ft =
      let (freed, left) = destroy_from-erase (flows rb ft) ft.tree in
      (
        (destroy_from (flows rb ft) ft.tree).1,
        ap (λ fs. some (fs, (destroy_from (flows rb ft) ft.tree).1)) freed,
        left ∙ erase_all_self (flows rb ft),
      )
    where
      erase_all_self : (fs : List Flow) → erase_all fs fs ≡ []
      erase_all_self [] = refl
      erase_all_self (f ∷ fs) = ap (erase_all fs) (erase_first f fs) ∙ erase_all_self fs
