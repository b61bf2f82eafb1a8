-- ===== src/IdxList/InsertHead.antt =====
-- InsertHeadIdxList of src/idxlist.c as a whole, and the first table.
use deepshield.Prelude.{
  Member, ℕ, ◌+◌, ◌<◌, ◌≡◌, ◌≢◌, ◌∙◌, ◌⊎◌, inl, inr, refl, ap, true, false, Option, none, some,
  List, [], ◌∷◌, ◌==◌, arith, word32,
}
use mathlib.Core.Path.{subst}
use deepshield.IdxList.{
  IdxListNode, IdxListTable, initialize_idx_list, extension, extend_idx_list, link_head,
  insert_head_idx_list,
}
use deepshield.IdxList.Unlink.{IsTable}
use deepshield.IdxList.Insert.{link_head-IsTable, data_at, data_same}
use deepshield.IdxList.Extend.{extend_idx_list-Extended}

-- The first table is one without nodes.
pub initialize_idx_list-IsTable : IsTable initialize_idx_list [] []
unfolding initialize_idx_list
initialize_idx_list-IsTable = record {
  links = (refl, refl);
  chain = refl;
  used_distinct = tt;
  free_distinct = tt;
  apart = λ i m. elim m [ ];
  used_in = λ i m. elim m [ ];
  free_in = λ i m. elim m [ ];
  cover = λ i p l. absurd (omega arith);
  used_data = λ i m. elim m [ ];
  head_data = refl;
  count = refl;
  room = omega arith;
  allocated = inl (refl, refl);
  fits = omega arith;
}

-- A new node before those in use, whose data stay the same.
abbrev pub Inserts : Option (ℕ → IdxListNode) → IdxListTable → List ℕ → ℕ → Type 0
Inserts allocated t used d =
    (idx : ℕ) × (free' : List ℕ) × (t' : IdxListTable) × (insert_head_idx_list allocated t d
      ≡ (idx, t'))
    × (idx ≢ 0)
    × ¬ Member idx used
    × IsTable t' (idx ∷ used) free'
    × ((t'.node_list idx).data_ ≡ d)
    × ((i : ℕ) → Member i used → (t'.node_list i).data_ ≡ (t.node_list i).data_)

link_head-index : (t : IdxListTable) (d : ℕ) → (link_head t d).0 ≡ t.node_free_list
unfolding link_head
link_head-index t d = refl

-- Linking the first free node of a table.
links :
    (t : IdxListTable) (d : ℕ) (used : List ℕ) (y : ℕ) (ys : List ℕ)
    → IsTable t used (y ∷ ys)
    → d ≢ 0
    → (link_head t d ≡ (y, (link_head t d).1))
      × (y ≢ 0)
      × ¬ Member y used
      × IsTable (link_head t d).1 (y ∷ used) ys
      × (((link_head t d).1.node_list y).data_ ≡ d)
      × ((i : ℕ) → Member i used → ((link_head t d).1.node_list i).data_ ≡ (t.node_list i).data_)
links t d used y ys v dz =
    let (pos, _) = v.free_in y (inl refl) in
    let unused : ¬ Member y used = λ m. v.apart y m (inl refl) in
    (
      ap (λ (k : ℕ). (k, (link_head t d).1)) (link_head-index t d ∙ v.chain.0),
      omega arith,
      unused,
      link_head-IsTable t d used y ys v dz,
      data_at t d used y ys v dz,
      λ i m. data_same t d used y ys v dz i (λ e. unused (subst (λ (k : ℕ). Member k used) e m)),
    )

-- InsertHeadIdxList of data that is not NULL puts a node with it before those in use, taken from
-- the free ones or from an extension of the array; it keeps the order and the data of the others
-- and hands over the index of the node, which is not 0 and was not in use. Only without a free
-- node and without memory it answers 0, and then leaves the table. The condition: the size of the
-- array with an extension fits 32 bits.
pub insert_head_idx_list_lem :
    {t : IdxListTable} {used free : List ℕ} (allocated : Option (ℕ → IdxListNode)) (d : ℕ)
    → IsTable t used free
    → d ≢ 0
    → t.size + extension < word32
    → Inserts allocated t used d
      ⊎ ((free ≡ []) × (allocated ≡ none) × (insert_head_idx_list allocated t d ≡ (0, t)))
unfolding insert_head_idx_list extend_idx_list
insert_head_idx_list_lem {t} {used} {free = y ∷ ys} allocated d v dz fits =
    let (linked, nz, unused, table, here, others) = links t d used y ys v dz in
    let (pos, _) = v.free_in y (inl refl) in
    let some_free : (t.node_free_list == 0) ≡ false = ground (arith, v.chain.0) in
    inl (
      y,
      ys,
      (link_head t d).1,
      rw (insert_head_idx_list, some_free) linked,
      nz,
      unused,
      table,
      here,
      others,
    )
insert_head_idx_list_lem {t} {used} {free = []} none d v dz fits =
    let no_free : (t.node_free_list == 0) ≡ true = ground (arith, v.chain) in
    inr (refl, refl, rw (insert_head_idx_list, no_free) refl)
insert_head_idx_list_lem {t} {used} {free = []} (some fresh) d v dz fits =
    let (y, ys, t', extended, v', same) = extend_idx_list-Extended fresh t fits used v in
    let (linked, nz, unused, table, here, others) = links t' d used y ys v' dz in
    let no_free : (t.node_free_list == 0) ≡ true = ground (arith, v.chain) in
    inl (
      y,
      ys,
      (link_head t' d).1,
      rw (insert_head_idx_list, no_free, extended) linked,
      nz,
      unused,
      table,
      here,
      λ i m. others i m ∙ same i m,
    )
