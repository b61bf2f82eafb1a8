-- ===== src/IdxList/Lookup.antt =====
-- The accessors of src/idxlist.c that read a table.
use deepshield.Prelude.{
  Member, ℕ, ◌<◌, ◌≡◌, ◌≢◌, ◌∙◌, ◌⊎◌, inl, inr, refl, ap, Bool-cases, List, [], ◌∷◌, ◌==◌, length,
  ltb, ltb→lt, arith,
}
use deepshield.IdxList.{
  IdxListTable, get_node_count_idx_list, lookup_node_idx_list, get_head_node_idx_list,
  get_next_node_idx_list,
}
use deepshield.IdxList.Chain.{Free-data}
use deepshield.IdxList.Unlink.{IsTable}
use deepshield.IdxList.Remove.{Member-dec}

-- GetNodeCountIdxList
pub get_node_count_idx_list_lem :
    {t : IdxListTable} {used free : List ℕ}
    → IsTable t used free
    → get_node_count_idx_list t ≡ length used
unfolding get_node_count_idx_list
get_node_count_idx_list_lem v = v.count

-- GetNextNodeIdxList on an index of the array.
pub get_next_node_idx_list_in :
    (t : IdxListTable) (i : ℕ)
    → i < t.size
    → get_next_node_idx_list t i ≡ (t.node_list (t.node_list i).fidx).data_
unfolding get_next_node_idx_list
get_next_node_idx_list_in t i h = ground arith

-- GetHeadNodeIdxList, also on the first table.
pub get_head_node_idx_list_in :
    {t : IdxListTable} {used free : List ℕ}
    → IsTable t used free
    → get_head_node_idx_list t ≡ (t.node_list (t.node_list 0).fidx).data_
unfolding get_head_node_idx_list
get_head_node_idx_list_in {t} {used = []} v =
    let none_ : (t.node_list (t.node_list 0).fidx).data_ ≡ 0 =
      ap (λ (k : ℕ). (t.node_list k).data_) v.links.0 ∙ v.head_data in
    ground (arith, none_)
get_head_node_idx_list_in {t} {used = x ∷ xs} v =
    let (_, small) = v.used_in x (inl refl) in ground (arith, small)

-- LookupNodeIdxList hands over the data of a node in use, which is not NULL, and NULL for every
-- other index.
pub lookup_node_idx_list_lem :
    {t : IdxListTable} {used free : List ℕ} (idx : ℕ)
    → IsTable t used free
    → (Member idx used
        × (lookup_node_idx_list t idx ≡ (t.node_list idx).data_)
        × (lookup_node_idx_list t idx ≢ 0))
      ⊎ (¬ Member idx used × (lookup_node_idx_list t idx ≡ 0))
unfolding lookup_node_idx_list
lookup_node_idx_list_lem {t} {used} {free} idx v = elim (Member-dec idx used) [
  | inl m ↦
      let (_, small) = v.used_in idx m in
      let set_ = v.used_data idx m in inl (m, ground (arith, small), ground (arith, small, set_))
  | inr n ↦ inr (
    n,
    elim (Bool-cases (ltb idx t.size)) [
      | inr x ↦ ground arith
      | inl y ↦ elim (Bool-cases (idx == 0)) [
        | inl z ↦
            let e : idx ≡ 0 = ground arith in
            let none_ = ap (λ (k : ℕ). (t.node_list k).data_) e ∙ v.head_data in
            ground (arith, none_)
        | inr z ↦ elim (v.cover idx (ground arith) (ltb→lt idx t.size y)) [
          | inl u ↦ absurd (n u)
          | inr f ↦
              let none_ = Free-data t.node_list t.node_free_list free idx v.chain f in
              ground (arith, none_)
        ]
      ]
    ],
  )
]
