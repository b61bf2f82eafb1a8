-- ===== src/IdxList/Unlink.antt =====
-- The invariant of a table of src/idxlist.c, and RemoveNodeIdxList.
use deepshield.Prelude.{
  Distinct, Member, ℕ, ◌+◌, ◌≤◌, ◌<◌, ◌≡◌, ◌≢◌, ◌∙◌, ◌⊎◌, inl, inr, sym, ap, true, false, List, [],
  ◌∷◌, length, if◌then◌else◌, ◌==◌, arith, word32,
}
use mathlib.Core.Path.{subst}
use deepshield.IdxList.{IdxListTable, set_node, unlink_node}
use deepshield.IdxList.Chain.{Links, Free, Links-frame}

-- The nodes of the table other than node 0 are in use, in the order `used`, or free, in the
-- order `free`; those in use have data and the others have none.
pub record IsTable (t : IdxListTable) (used free : List ℕ) : Type 0 where
  pub links : Links t.node_list 0 used
  pub chain : Free t.node_list t.node_free_list free
  pub used_distinct : Distinct used
  pub free_distinct : Distinct free
  pub apart : (i : ℕ) → Member i used → ¬ Member i free
  pub used_in : (i : ℕ) → Member i used → (0 < i) × (i < t.size)
  pub free_in : (i : ℕ) → Member i free → (0 < i) × (i < t.size)
  pub cover : (i : ℕ) → 0 < i → i < t.size → Member i used ⊎ Member i free
  pub used_data : (i : ℕ) → Member i used → (t.node_list i).data_ ≢ 0
  pub head_data : (t.node_list 0).data_ ≡ 0
  pub count : t.node_count ≡ length used
  pub room : length used + length free ≤ t.size
  pub allocated :
      ((t.is_empty_list ≡ true) × (t.size ≡ 0)) ⊎ ((t.is_empty_list ≡ false) × (0 < t.size))
  pub fits : t.size < word32

module _ (t : IdxListTable) (idx : ℕ) where
  open t use {node_list}

  pub unlink_node-fidx :
      (i : ℕ)
      → (node_list idx).fidx ≢ idx
      → (node_list idx).bidx ≢ idx
      → ((unlink_node t idx).node_list i).fidx ≡ (
          if i == idx
          then t.node_free_list
          else (if i == (node_list idx).bidx then (node_list idx).fidx else (node_list i).fidx))
  unfolding unlink_node set_node
  unlink_node-fidx i f b = ground arith

  unlink_node-bidx :
      (i : ℕ)
      → (node_list idx).fidx ≢ idx
      → (node_list idx).bidx ≢ idx
      → ((unlink_node t idx).node_list i).bidx
        ≡ (if i == (node_list idx).fidx then (node_list idx).bidx else (node_list i).bidx)
  unfolding unlink_node set_node
  unlink_node-bidx i f b = ground arith

  pub unlink_node-data :
      (i : ℕ)
      → ((unlink_node t idx).node_list i).data_ ≡ (if i == idx then 0 else (node_list i).data_)
  unfolding unlink_node set_node
  unlink_node-data i = ground arith

  -- The four indices that RemoveNodeIdxList changes, apart from the free chain.
  pub fidx_same :
      (i : ℕ)
      → (node_list idx).fidx ≢ idx
      → (node_list idx).bidx ≢ idx
      → i ≢ idx
      → i ≢ (node_list idx).bidx
      → ((unlink_node t idx).node_list i).fidx ≡ (node_list i).fidx
  fidx_same i f b x y = ground (arith, unlink_node-fidx i f b)

  pub fidx_at :
      (node_list idx).fidx ≢ idx
      → (node_list idx).bidx ≢ idx
      → ((unlink_node t idx).node_list (node_list idx).bidx).fidx ≡ (node_list idx).fidx
  fidx_at f b = ground (arith, unlink_node-fidx (node_list idx).bidx f b)

  pub bidx_same :
      (i : ℕ)
      → (node_list idx).fidx ≢ idx
      → (node_list idx).bidx ≢ idx
      → i ≢ (node_list idx).fidx
      → ((unlink_node t idx).node_list i).bidx ≡ (node_list i).bidx
  bidx_same i f b x = ground (arith, unlink_node-bidx i f b)

  pub bidx_at :
      (node_list idx).fidx ≢ idx
      → (node_list idx).bidx ≢ idx
      → ((unlink_node t idx).node_list (node_list idx).fidx).bidx ≡ (node_list idx).bidx
  bidx_at f b = ground (arith, unlink_node-bidx (node_list idx).fidx f b)

-- Members of two lists without a common one differ.
Member-ne :
    (xs ys : List ℕ) (i j : ℕ)
    → ((k : ℕ) → Member k xs → ¬ Member k ys)
    → Member i xs
    → Member j ys
    → i ≢ j
Member-ne xs ys i j apart m k e = apart i m (subst (λ (n : ℕ). Member n ys) (sym e) k)

-- The links behind the node that is removed, as links behind its predecessor.
pub relink :
    (t : IdxListTable) (idx : ℕ) (ys : List ℕ)
    → (t.node_list idx).fidx ≢ idx
    → (t.node_list idx).bidx ≢ idx
    → ¬ Member 0 ys
    → ¬ Member idx ys
    → ¬ Member (t.node_list idx).bidx ys
    → Distinct ys
    → Links t.node_list idx ys
    → Links (unlink_node t idx).node_list (t.node_list idx).bidx ys
relink t idx [] f b z n q d (l, m) = (
  fidx_at t idx f b ∙ l,
  ap (λ (k : ℕ). ((unlink_node t idx).node_list k).bidx) (sym l) ∙ bidx_at t idx f b,
)
relink t idx (y ∷ ys) f b z n q (ny, d) (l, m, rest) = (
  fidx_at t idx f b ∙ l,
  ap (λ (k : ℕ). ((unlink_node t idx).node_list k).bidx) (sym l) ∙ bidx_at t idx f b,
  Links-frame t.node_list (unlink_node t idx).node_list y ys
      (λ i h.
        fidx_same t idx i f b (λ e. n (subst (λ (k : ℕ). Member k (y ∷ ys)) e h))
          (λ e. q (subst (λ (k : ℕ). Member k (y ∷ ys)) e h)))
      (λ i h. bidx_same t idx i f b (λ e. elim h [
        | inl zero_ ↦ z (inl (sym zero_ ∙ e ∙ l))
        | inr k ↦ ny (subst (λ (j : ℕ). Member j ys) (e ∙ l) k)
      ]))
      rest,
)
