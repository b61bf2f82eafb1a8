-- ===== src/IdxList/Insert.antt =====
-- InsertHeadIdxList of src/idxlist.c on a table with a free node.
use deepshield.Prelude.{
  Distinct, Member, ℕ, ◌<◌, ◌≡◌, ◌≢◌, ◌∙◌, ◌⊎◌, inl, inr, refl, sym, ap, List, [], ◌∷◌,
  if◌then◌else◌, ◌==◌, arith,
}
use mathlib.Core.Path.{subst}
use deepshield.IdxList.{IdxListTable, set_node, link_head}
use deepshield.IdxList.Chain.{Nodes, Links, Free, Links-frame, Free-frame}
use deepshield.IdxList.Unlink.{IsTable}

module _ (t : IdxListTable) (d : ℕ) where
  open t use {node_list, node_free_list}

  link_head-fidx :
      (i : ℕ)
      → node_free_list ≢ 0
      → (node_list 0).fidx ≢ node_free_list
      → ((link_head t d).1.node_list i).fidx ≡ (
          if i == node_free_list
          then (node_list 0).fidx
          else (if i == 0 then node_free_list else (node_list i).fidx))
  unfolding link_head set_node
  link_head-fidx i z n = ground arith

  link_head-bidx :
      (i : ℕ)
      → node_free_list ≢ 0
      → (node_list 0).fidx ≢ node_free_list
      → ((link_head t d).1.node_list i).bidx ≡ (
          if i == (node_list 0).fidx
          then node_free_list
          else (if i == node_free_list then 0 else (node_list i).bidx))
  unfolding link_head set_node
  link_head-bidx i z n = ground arith

  link_head-data :
      (i : ℕ)
      → node_free_list ≢ 0
      → ((link_head t d).1.node_list i).data_
        ≡ (if i == node_free_list then d else (node_list i).data_)
  unfolding link_head set_node
  link_head-data i z = ground arith

module _ (t : IdxListTable) (d : ℕ) (used : List ℕ) (y : ℕ) (ys : List ℕ)
    (v : IsTable t used (y ∷ ys)) (dz : d ≢ 0) where
  abbrev new : Nodes
  new = (link_head t d).1.node_list

  at : t.node_free_list ≡ y
  at = v.chain.0

  y_pos : 0 < y
  y_pos = (v.free_in y (inl refl)).0

  y_unused : ¬ Member y used
  y_unused m = v.apart y m (inl refl)

  next_of :
      (xs : List ℕ)
      → Links t.node_list 0 xs
      → ((t.node_list 0).fidx ≡ 0) ⊎ Member (t.node_list 0).fidx xs
  next_of [] (l, _) = inl l
  next_of (x ∷ xs) (l, _, _) = inr (inl l)

  free_ne : t.node_free_list ≢ 0
  free_ne e = let z : y ≡ 0 = sym at ∙ e in ground (arith, y_pos)

  next_ne : (t.node_list 0).fidx ≢ t.node_free_list
  next_ne e = elim (next_of used v.links) [
    | inl z ↦ free_ne (sym e ∙ z)
    | inr m ↦ y_unused (subst (λ (k : ℕ). Member k used) (e ∙ at) m)
  ]

  new_fidx :
      (i : ℕ)
      → (new i).fidx
        ≡ (if i == y then (t.node_list 0).fidx else (if i == 0 then y else (t.node_list i).fidx))
  new_fidx i =
      subst
        (λ (k : ℕ).
          (new i).fidx
          ≡ (if i == k then (t.node_list 0).fidx else (if i == 0 then k else (t.node_list i).fidx)))
        at (link_head-fidx t d i free_ne next_ne)

  new_bidx :
      (i : ℕ)
      → (new i).bidx
        ≡ (if i == (t.node_list 0).fidx then y else (if i == y then 0 else (t.node_list i).bidx))
  new_bidx i =
      subst
        (λ (k : ℕ).
          (new i).bidx
          ≡ (if i == (t.node_list 0).fidx then k else (if i == k then 0 else (t.node_list i).bidx)))
        at (link_head-bidx t d i free_ne next_ne)

  new_data : (i : ℕ) → (new i).data_ ≡ (if i == y then d else (t.node_list i).data_)
  new_data i =
      subst (λ (k : ℕ). (new i).data_ ≡ (if i == k then d else (t.node_list i).data_)) at
        (link_head-data t d i free_ne)

  next_y : (t.node_list 0).fidx ≢ y
  next_y e = next_ne (e ∙ sym at)

  fidx_y : (new y).fidx ≡ (t.node_list 0).fidx
  fidx_y = ground (arith, new_fidx y)

  bidx_next : (new (t.node_list 0).fidx).bidx ≡ y
  bidx_next = ground (arith, new_bidx (t.node_list 0).fidx)

  fidx_same : (i : ℕ) → i ≢ y → i ≢ 0 → (new i).fidx ≡ (t.node_list i).fidx
  fidx_same i a b = ground (arith, new_fidx i)

  bidx_same : (i : ℕ) → i ≢ y → i ≢ (t.node_list 0).fidx → (new i).bidx ≡ (t.node_list i).bidx
  bidx_same i a b = ground (arith, new_bidx i)

  pub data_at : (new y).data_ ≡ d
  data_at = ground (arith, new_data y)

  pub data_same : (i : ℕ) → i ≢ y → (new i).data_ ≡ (t.node_list i).data_
  data_same i a = ground (arith, new_data i)

  used_ne : (i : ℕ) → Member i used → i ≢ y
  used_ne i m e = y_unused (subst (λ (k : ℕ). Member k used) e m)

  used_pos : (i : ℕ) → Member i used → i ≢ 0
  used_pos i m = let (pos, _) = v.used_in i m in omega arith

  -- The former head of the list follows the new node.
  relink :
      (xs : List ℕ)
      → ((i : ℕ) → Member i xs → (i ≢ y) × (i ≢ 0))
      → Distinct xs
      → Links t.node_list 0 xs
      → Links new y xs
  relink [] other dx (l, m) = (fidx_y ∙ l, ap (λ (k : ℕ). (new k).bidx) (sym l) ∙ bidx_next)
  relink (x ∷ xs) other (n, dx) (l, m, rest) = (
    fidx_y ∙ l,
    ap (λ (k : ℕ). (new k).bidx) (sym l) ∙ bidx_next,
    Links-frame t.node_list new x xs (λ i h. let (a, b) = other i h in fidx_same i a b)
        (λ i h. elim h [
          | inl z ↦
              bidx_same i (λ e. let w : y ≡ 0 = sym e ∙ z in ground (arith, y_pos))
                (λ e. (other x (inl refl)).1 (sym l ∙ sym e ∙ z))
          | inr k ↦
              bidx_same i (other i (inr k)).0 (λ e. n (subst (λ (j : ℕ). Member j xs) (e ∙ l) k))
        ])
        rest,
  )

  chain_left : Free new (t.node_list y).fidx ys
  chain_left =
      Free-frame t.node_list new (t.node_list y).fidx ys
        (λ i m.
          let a : i ≢ y = λ e. v.free_distinct.0 (subst (λ (k : ℕ). Member k ys) e m) in
          let (pos, _) = v.free_in i (inr m) in
          let b : i ≢ 0 = omega arith in (fidx_same i a b, data_same i a))
        v.chain.2

  -- InsertHeadIdxList takes the first free node and puts it before those in use.
  pub link_head-IsTable : IsTable (link_head t d).1 (y ∷ used) ys
  unfolding link_head
  link_head-IsTable = record {
    links = (
      ground (arith, new_fidx 0, y_pos),
      ground (arith, new_bidx y, next_y),
      relink used (λ i m. (used_ne i m, used_pos i m)) v.used_distinct v.links,
    );
    chain = subst (λ (k : ℕ). Free new (t.node_list k).fidx ys) (sym at) chain_left;
    used_distinct = (y_unused, v.used_distinct);
    free_distinct = v.free_distinct.1;
    apart = λ i m k. elim m [
      | inl e ↦ v.free_distinct.0 (subst (λ (j : ℕ). Member j ys) e k)
      | inr u ↦ v.apart i u (inr k)
    ];
    used_in = λ i m. elim m [
      | inl e ↦ subst (λ (j : ℕ). (0 < j) × (j < t.size)) (sym e) (v.free_in y (inl refl))
      | inr u ↦ v.used_in i u
    ];
    free_in = λ i m. v.free_in i (inr m);
    cover = λ i p l. elim (v.cover i p l) [
      | inl u ↦ inl (inr u)
      | inr f ↦ elim f [ inl e ↦ inl (inl e) | inr k ↦ inr k ]
    ];
    used_data = λ i m. elim m [
      | inl e ↦
          subst (λ (j : ℕ). (new j).data_ ≢ 0) (sym e) (subst (λ (k : ℕ). k ≢ 0) (sym data_at) dz)
      | inr u ↦ subst (λ (k : ℕ). k ≢ 0) (sym (data_same i (used_ne i u))) (v.used_data i u)
    ];
    head_data = data_same 0 (λ e. ground (arith, y_pos)) ∙ v.head_data;
    count = omega (arith, v.count, v.room, v.fits);
    room = omega (arith, v.room);
    allocated = v.allocated;
    fits = v.fits;
  }
