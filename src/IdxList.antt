-- ===== src/IdxList.antt =====
-- src/idxlist.c: a table of nodes in an array, with a doubly linked list of the nodes in use
-- through node 0 and a chain of the free ones. `Data` is an address, 0 for NULL.
pub mod Chain
pub mod Unlink
pub mod Remove
pub mod Lookup
pub mod Insert
pub mod Extend
pub mod InsertHead
pub mod Tests
use deepshield.Prelude.{
  ℕ, zero, suc, ◌+◌, ◌-◌, Bool, true, false, not, ◌&&◌, ◌||◌, Option, none, some, ltb, leb, ◌==◌,
  if◌then◌else◌, add32, sub32,
}

-- IDXLIST_NODE
pub record IdxListNode : Type 0 where
  pub fidx : ℕ
  pub bidx : ℕ
  pub data_ : ℕ

-- IDXLIST_TABLE, with the array that NodeList points to. `is_empty_list` says that NodeList is
-- the address of EmptyList.
pub record IdxListTable : Type 0 where
  pub size : ℕ
  pub node_list : ℕ → IdxListNode
  pub is_empty_list : Bool
  pub node_free_list : ℕ
  pub node_count : ℕ

-- The array with one node replaced.
pub set_node : (ℕ → IdxListNode) → ℕ → IdxListNode → ℕ → IdxListNode
set_node nodes i n j = if i == j then n else nodes j

abbrev pub empty_node : IdxListNode
empty_node = record { fidx = 0; bidx = 0; data_ = 0 }

-- InitializeIdxList; DestroyIdxList leaves the same.
pub initialize_idx_list : IdxListTable
initialize_idx_list = record {
  size = 0;
  node_list = λ _. empty_node;
  is_empty_list = true;
  node_free_list = 0;
  node_count = 0;
}

-- GetNodeCountIdxList
pub get_node_count_idx_list : IdxListTable → ℕ
get_node_count_idx_list t = t.node_count

-- LookupNodeIdxList
pub lookup_node_idx_list : IdxListTable → ℕ → ℕ
lookup_node_idx_list t idx = if ltb idx t.size then (t.node_list idx).data_ else 0

-- GetHeadNodeIdxList
pub get_head_node_idx_list : IdxListTable → ℕ
get_head_node_idx_list t = if not (t.size == 0) then (t.node_list (t.node_list 0).fidx).data_ else 0

-- GetNextNodeIdxList
pub get_next_node_idx_list : IdxListTable → ℕ → ℕ
get_next_node_idx_list t idx =
    if ltb idx t.size then (t.node_list (t.node_list idx).fidx).data_ else 0

-- PAGE_SIZE / sizeof( IDXLIST_NODE )
abbrev pub extension : ℕ
extension = 256

-- The loop of ExtendIdxList over the `k` nodes from `first` on, the last one first.
pub chain_nodes : ℕ → ℕ → (ℕ → IdxListNode) → ℕ → (ℕ → IdxListNode) × ℕ
chain_nodes first zero nodes free = (nodes, free)
chain_nodes first (suc k) nodes free =
    let idx = first + k in
    chain_nodes first k (set_node nodes idx (record (nodes idx) { data_ = 0; fidx = free })) idx

-- ExtendIdxList; `allocated` is what ExAllocatePoolWithTag returns, an array with any contents.
pub extend_idx_list : Option (ℕ → IdxListNode) → IdxListTable → Bool × IdxListTable
extend_idx_list none t = (false, t)
extend_idx_list (some fresh) t =
    let size = add32 t.size extension in
    let (nodes, free) = chain_nodes t.size (size - t.size) fresh t.node_free_list in
    if t.is_empty_list
    then (
      true,
      record t {
        node_list = set_node nodes 0 (record (nodes 0) { fidx = 0; bidx = 0 });
        is_empty_list = false;
        node_free_list = 1;
        size = size;
      },
    )
    else (
      true,
      record t {
        node_list = λ i. if ltb i t.size then t.node_list i else nodes i;
        node_free_list = free;
        size = size;
      },
    )

-- InsertHeadIdxList once a free node is there.
pub link_head : IdxListTable → ℕ → ℕ × IdxListTable
link_head t data_ =
    let idx = t.node_free_list in
    let node = t.node_list idx in
    let nodes1 =
      set_node t.node_list idx (record node { data_ = data_; fidx = (t.node_list 0).fidx }) in
    let nodes2 = set_node nodes1 0 (record (nodes1 0) { fidx = idx }) in
    let nodes3 = set_node nodes2 idx (record (nodes2 idx) { bidx = 0 }) in
    let next = (nodes3 idx).fidx in
    (
      idx,
      record t {
        node_free_list = node.fidx;
        node_list = set_node nodes3 next (record (nodes3 next) { bidx = idx });
        node_count = add32 t.node_count 1;
      },
    )

-- InsertHeadIdxList: the index of the new node, or 0.
pub insert_head_idx_list : Option (ℕ → IdxListNode) → IdxListTable → ℕ → ℕ × IdxListTable
insert_head_idx_list allocated t data_ =
    let (extended, t') = extend_idx_list allocated t in
    if t.node_free_list == 0
    then (if not extended then (0, t') else link_head t' data_)
    else link_head t data_

-- The part of RemoveNodeIdxList past the two guards.
pub unlink_node : IdxListTable → ℕ → IdxListTable
unlink_node t idx =
    let nodes = t.node_list in
    let next = (nodes idx).fidx in
    let nodes1 = set_node nodes next (record (nodes next) { bidx = (nodes idx).bidx }) in
    let previous = (nodes1 idx).bidx in
    let nodes2 = set_node nodes1 previous (record (nodes1 previous) { fidx = (nodes1 idx).fidx }) in
    record t {
      node_list = set_node nodes2 idx (record (nodes2 idx) { data_ = 0; fidx = t.node_free_list });
      node_free_list = idx;
      node_count = sub32 t.node_count 1;
    }

-- RemoveNodeIdxList: the data of the node, or 0.
pub remove_node_idx_list : IdxListTable → ℕ → ℕ × IdxListTable
remove_node_idx_list t idx =
    if leb t.size idx || (idx == 0)
    then (0, t)
    else (if (t.node_list idx).data_ == 0
        then (0, t)
        else ((t.node_list idx).data_, unlink_node t idx))

-- RemoveHeadIdxList
pub remove_head_idx_list : IdxListTable → ℕ × IdxListTable
remove_head_idx_list t = remove_node_idx_list t (t.node_list 0).fidx
