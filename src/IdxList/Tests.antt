-- ===== src/IdxList/Tests.antt =====
-- src/idxlist.c on the first table, and on one with a node.
use deepshield.Prelude.{Member, ℕ, ◌≡◌, ◌≢◌, ◌⊎◌, refl, none, some, List, [], ◌∷◌, arith}
use deepshield.IdxList.{
  IdxListNode, IdxListTable, set_node, initialize_idx_list, chain_nodes, extend_idx_list, link_head,
  insert_head_idx_list, remove_node_idx_list, lookup_node_idx_list,
}
use deepshield.IdxList.Unlink.{IsTable}
use deepshield.IdxList.Remove.{Removes, remove_node_idx_list_lem}
use deepshield.IdxList.Lookup.{lookup_node_idx_list_lem}
use deepshield.IdxList.Insert.{link_head-IsTable}
use deepshield.IdxList.InsertHead.{Inserts, initialize_idx_list-IsTable, insert_head_idx_list_lem}
use deepshield.IdxList.Extend.{extend_idx_list-Extended}

abbrev garbage : ℕ → IdxListNode
garbage i = record { fidx = 77; bidx = 78; data_ = 79 }

pub size_initialize : initialize_idx_list.size ≡ 0
unfolding initialize_idx_list
size_initialize = refl

-- A table with one node in use, whose data is the address 4096.
pub one_node : (t : IdxListTable) × (y : ℕ) × (ys : List ℕ) × IsTable t (y ∷ []) ys
one_node =
    let (y, ys, t', _, v, _) =
      extend_idx_list-Extended garbage initialize_idx_list (omega (arith, size_initialize)) []
        initialize_idx_list-IsTable in
    ((link_head t' 4096).1, y, ys, link_head-IsTable t' 4096 [] y ys v (omega arith))

insert_head_idx_list_lem_example :
    Inserts (some garbage) initialize_idx_list [] 4096
    ⊎ ((◌≡◌ {A = List ℕ} [] [])
        × (some garbage ≡ none)
        × (insert_head_idx_list (some garbage) initialize_idx_list 4096 ≡ (0, initialize_idx_list)))
insert_head_idx_list_lem_example =
    insert_head_idx_list_lem (some garbage) 4096 initialize_idx_list-IsTable (omega arith)
      (omega (arith, size_initialize))

remove_node_idx_list_lem_example :
    (Member 9 (one_node.1 ∷ []) × Removes one_node.0 (one_node.1 ∷ []) one_node.2 9)
    ⊎ (¬ Member 9 (one_node.1 ∷ []) × (remove_node_idx_list one_node.0 9 ≡ (0, one_node.0)))
remove_node_idx_list_lem_example = remove_node_idx_list_lem 9 one_node.3

lookup_node_idx_list_lem_example :
    (Member 1 (one_node.1 ∷ [])
      × (lookup_node_idx_list one_node.0 1 ≡ (one_node.0.node_list 1).data_)
      × (lookup_node_idx_list one_node.0 1 ≢ 0))
    ⊎ (¬ Member 1 (one_node.1 ∷ []) × (lookup_node_idx_list one_node.0 1 ≡ 0))
lookup_node_idx_list_lem_example = lookup_node_idx_list_lem 1 one_node.3

-- Two nodes, and the first of them removed again.
insert_twice_remove :
    (remove_node_idx_list
      (insert_head_idx_list none
        (insert_head_idx_list (some garbage) initialize_idx_list 4096).1
        8192).1
      1).0
    ≡ 4096
unfolding remove_node_idx_list insert_head_idx_list extend_idx_list initialize_idx_list link_head
    set_node chain_nodes
insert_twice_remove = refl
