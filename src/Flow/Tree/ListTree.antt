-- ===== src/Flow/Tree/ListTree.antt =====
-- A tree that meets `FlowTree`: the list itself, with the new flow in front.
use packetsonde.Prelude.{refl, ◌∷◌, [], List}
use packetsonde.Flow.Tree.{Flow, FlowTree, lookup, erase, replace}

abbrev pub list_tree : FlowTree
list_tree = record {
  Tree = List Flow;
  empty = [];
  find = λ t k. lookup k t;
  insert = λ t f. f ∷ t;
  remove = λ t k. erase k t;
  update = λ t f. replace f t;
  to_list = λ t. t;
  to_list-empty = refl;
  find_lem = λ t k. refl;
  to_list-insert = λ t f h. record { front = []; back = t; splits = refl; joins = refl };
  to_list-remove = λ t k. refl;
  to_list-update = λ t f. refl;
}
