-- ===== src/IdxList/Remove.antt =====
-- RemoveNodeIdxList and RemoveHeadIdxList of src/idxlist.c.
use deepshield.Prelude.{
  Distinct, Distinct-append, Distinct-join, Member, Member-append, Member-append_left,
  Member-append_right, Member-split, ℕ, ◌+◌, ◌<◌, ◌≡◌, ◌≢◌, ◌∙◌, ◌⊎◌, inl, inr, refl, sym, true,
  false, List, [], ◌∷◌, ◌++◌, length, length-append, ◌==◌, leb, Bool-cases, ==_iff, ◌||◌, arith,
}
use mathlib.Core.Path.{subst}
use deepshield.IdxList.{IdxListTable, unlink_node, remove_node_idx_list, remove_head_idx_list}
use deepshield.IdxList.Chain.{
  Links, Segment, Free, Free-data, SameFree, Free-frame, Links-split, Links-join, Segment-last,
  Segment-frame,
}
use deepshield.IdxList.Unlink.{
  IsTable, fidx_same, bidx_same, unlink_node-data, unlink_node-fidx, relink,
}

module _ (t : IdxListTable) (idx : ℕ) (xs ys free : List ℕ)
    (v : IsTable t (xs ++ (idx ∷ ys)) free) where
  not_zero : (i : ℕ) → Member i (xs ++ (idx ∷ ys)) → i ≢ 0
  not_zero i m = let (pos, _) = v.used_in i m in omega arith

  no_zero : ¬ Member 0 (xs ++ (idx ∷ ys))
  no_zero m = not_zero 0 m refl

  distinct : Distinct xs × Distinct (idx ∷ ys) × ((i : ℕ) → Member i xs → ¬ Member i (idx ∷ ys))
  distinct = Distinct-append xs (idx ∷ ys) v.used_distinct

  split :
      (q : ℕ) × Segment t.node_list 0 xs q
      × ((t.node_list q).fidx ≡ idx)
      × ((t.node_list idx).bidx ≡ q)
      × Links t.node_list idx ys
  split = Links-split t.node_list 0 xs idx ys v.links

  here : Member idx (xs ++ (idx ∷ ys))
  here = Member-append_right idx xs (idx ∷ ys) (inl refl)

  -- The predecessor is node 0 or stands before the node.
  previous : ((t.node_list idx).bidx ≡ 0) ⊎ Member (t.node_list idx).bidx xs
  previous =
      let (q, s, _, m, _) = split in
      subst (λ (k : ℕ). (k ≡ 0) ⊎ Member k xs) (sym m) (Segment-last t.node_list 0 xs q s)

  next_of :
      (zs : List ℕ)
      → Links t.node_list idx zs
      → ((t.node_list idx).fidx ≡ 0) ⊎ Member (t.node_list idx).fidx zs
  next_of [] (l, _) = inl l
  next_of (z ∷ zs) (l, _, _) = inr (inl l)

  next : ((t.node_list idx).fidx ≡ 0) ⊎ Member (t.node_list idx).fidx ys
  next = let (_, _, _, _, rest) = split in next_of ys rest

  fidx_ne : (t.node_list idx).fidx ≢ idx
  fidx_ne e = elim next [
    | inl z ↦ not_zero idx here (sym e ∙ z)
    | inr m ↦ distinct.1.0 (subst (λ (k : ℕ). Member k ys) e m)
  ]

  bidx_ne : (t.node_list idx).bidx ≢ idx
  bidx_ne e = elim previous [
    | inl z ↦ not_zero idx here (sym e ∙ z)
    | inr m ↦ distinct.2 idx (subst (λ (k : ℕ). Member k xs) e m) (inl refl)
  ]

  -- The list without the node.
  Links-unlink_node : Links (unlink_node t idx).node_list 0 (xs ++ ys)
  Links-unlink_node =
      let (q, s, _, m, rest) = split in
      let s' : Segment t.node_list 0 xs (t.node_list idx).bidx =
        subst (λ (k : ℕ). Segment t.node_list 0 xs k) (sym m) s in
      let (dx, (nidx, dy), apart) = distinct in
      Links-join (unlink_node t idx).node_list 0 xs (t.node_list idx).bidx ys
        (Segment-frame t.node_list (unlink_node t idx).node_list 0 xs (t.node_list idx).bidx
          (λ k. no_zero (Member-append_left 0 xs (idx ∷ ys) k)) dx
          (λ i h x.
            fidx_same t idx i fidx_ne bidx_ne
              (λ e. elim h [ inl z ↦ not_zero idx here (sym e ∙ z) | inr k ↦ apart i k (inl e) ]) x)
          (λ i h. bidx_same t idx i fidx_ne bidx_ne (λ e. elim next [
            | inl z ↦
                no_zero
                  (Member-append_left 0 xs (idx ∷ ys) (subst (λ (k : ℕ). Member k xs) (e ∙ z) h))
            | inr k ↦ apart i h (inr (subst (λ (j : ℕ). Member j ys) (sym e) k))
          ]))
          s')
        (relink t idx ys fidx_ne bidx_ne
          (λ k. no_zero (Member-append_right 0 xs (idx ∷ ys) (inr k))) nidx
          (λ k. elim previous [
            | inl z ↦
                no_zero
                  (Member-append_right 0 xs (idx ∷ ys) (inr (subst (λ (j : ℕ). Member j ys) z k)))
            | inr h ↦ apart (t.node_list idx).bidx h (inr k)
          ])
          dy rest)

  pub data_same :
      (i : ℕ) → i ≢ idx → ((unlink_node t idx).node_list i).data_ ≡ (t.node_list i).data_
  data_same i x = ground (arith, unlink_node-data t idx i)

  -- A free node is another one, and so are its neighbours.
  free_same : (i : ℕ) → Member i free → SameFree t.node_list (unlink_node t idx).node_list i
  free_same i m =
      let other : (j : ℕ) → Member j (xs ++ (idx ∷ ys)) → i ≢ j =
        λ j k e. v.apart j k (subst (λ (n : ℕ). Member n free) e m) in
      let x = other idx here in
      (
        fidx_same t idx i fidx_ne bidx_ne x (λ e. elim previous [
          | inl z ↦ let (pos, _) = v.free_in i m in ground (arith, e ∙ z)
          | inr k ↦
              other (t.node_list idx).bidx
                (Member-append_left (t.node_list idx).bidx xs (idx ∷ ys) k) e
        ]),
        data_same i x,
      )

  idx_data : ((unlink_node t idx).node_list idx).data_ ≡ 0
  idx_data = ground (arith, unlink_node-data t idx idx)

  idx_fidx : ((unlink_node t idx).node_list idx).fidx ≡ t.node_free_list
  idx_fidx = ground (arith, unlink_node-fidx t idx idx fidx_ne bidx_ne)

  chain_left : Free (unlink_node t idx).node_list idx (idx ∷ free)
  chain_left = (
    refl,
    idx_data,
    subst (λ (j : ℕ). Free (unlink_node t idx).node_list j free) (sym idx_fidx)
        (Free-frame t.node_list (unlink_node t idx).node_list t.node_free_list free free_same
          v.chain),
  )

  length_left : length (xs ++ (idx ∷ ys)) ≡ length (xs ++ ys) + 1
  length_left = rw (length-append, length-append) (omega arith)

  left_used : (i : ℕ) → Member i (xs ++ ys) → Member i (xs ++ (idx ∷ ys))
  left_used i m = elim (Member-append i xs ys m) [
    | inl l ↦ Member-append_left i xs (idx ∷ ys) l
    | inr r ↦ Member-append_right i xs (idx ∷ ys) (inr r)
  ]

  left_ne : (i : ℕ) → Member i (xs ++ ys) → i ≢ idx
  left_ne i m e = elim (Member-append i xs ys m) [
    | inl l ↦ distinct.2 i l (inl e)
    | inr r ↦ distinct.1.0 (subst (λ (j : ℕ). Member j ys) e r)
  ]

  -- RemoveNodeIdxList takes the node out of the list and puts it before the free ones.
  pub unlink_node-IsTable : IsTable (unlink_node t idx) (xs ++ ys) (idx ∷ free)
  unfolding unlink_node
  unlink_node-IsTable = record {
    links = Links-unlink_node;
    chain = chain_left;
    used_distinct = Distinct-join xs ys distinct.0 distinct.1.1 (λ i m k. distinct.2 i m (inr k));
    free_distinct = (v.apart idx here, v.free_distinct);
    apart = λ i m k. elim k [ inl e ↦ left_ne i m e | inr f ↦ v.apart i (left_used i m) f ];
    used_in = λ i m. v.used_in i (left_used i m);
    free_in = λ i m. elim m [
      | inl e ↦ subst (λ (j : ℕ). (0 < j) × (j < t.size)) (sym e) (v.used_in idx here)
      | inr f ↦ v.free_in i f
    ];
    cover = λ i p l. elim (v.cover i p l) [
      | inl u ↦ elim (Member-append i xs (idx ∷ ys) u) [
        | inl a ↦ inl (Member-append_left i xs ys a)
        | inr b ↦ elim b [ inl e ↦ inr (inl e) | inr r ↦ inl (Member-append_right i xs ys r) ]
      ]
      | inr f ↦ inr (inr f)
    ];
    used_data = λ i m.
        subst (λ (k : ℕ). k ≢ 0) (sym (data_same i (left_ne i m))) (v.used_data i (left_used i m));
    head_data = data_same 0 (λ e. not_zero idx here (sym e)) ∙ v.head_data;
    count = omega (arith, v.count, v.room, v.fits, length_left);
    room = omega (arith, v.room, length_left);
    allocated = v.allocated;
    fits = v.fits;
  }

-- What RemoveNodeIdxList does to a table, for any index.
abbrev pub Removes : IdxListTable → List ℕ → List ℕ → ℕ → Type 0
Removes t used free idx =
    (xs : List ℕ) × (ys : List ℕ) × (t' : IdxListTable) × (used ≡ xs ++ (idx ∷ ys))
    × (remove_node_idx_list t idx ≡ ((t.node_list idx).data_, t'))
    × ((t.node_list idx).data_ ≢ 0)
    × IsTable t' (xs ++ ys) (idx ∷ free)
    × ((i : ℕ) → i ≢ idx → (t'.node_list i).data_ ≡ (t.node_list i).data_)

remove_used :
    (t : IdxListTable) (used free : List ℕ) (idx : ℕ)
    → IsTable t used free
    → Member idx used
    → Removes t used free idx
unfolding remove_node_idx_list
remove_used t used free idx v m =
    let (xs, ys, e) = Member-split idx used m in
    let v' = subst (λ (l : List ℕ). IsTable t l free) e v in
    let (pos, small) = v.used_in idx m in
    let data_ = v.used_data idx m in
    let guard : (leb t.size idx || (idx == 0)) ≡ false = ground arith in
    let set_ : ((t.node_list idx).data_ == 0) ≡ false = ground arith in
    (
      xs,
      ys,
      unlink_node t idx,
      e,
      rw (remove_node_idx_list, guard, set_) refl,
      data_,
      unlink_node-IsTable t idx xs ys free v',
      data_same t idx xs ys free v',
    )

remove_other :
    (t : IdxListTable) (used free : List ℕ) (idx : ℕ)
    → IsTable t used free
    → ¬ Member idx used
    → remove_node_idx_list t idx ≡ (0, t)
unfolding remove_node_idx_list
remove_other t used free idx v n = elim (Bool-cases (leb t.size idx || (idx == 0))) [
  | inl y ↦ rw (remove_node_idx_list, y) refl
  | inr x ↦ elim (v.cover idx (ground arith) (ground arith)) [
    | inl u ↦ absurd (n u)
    | inr f ↦
        let none_ = Free-data t.node_list t.node_free_list free idx v.chain f in
        let unset : ((t.node_list idx).data_ == 0) ≡ true = ground arith in
        rw (remove_node_idx_list, x, unset) refl
  ]
]

pub Member-dec : (i : ℕ) (xs : List ℕ) → Member i xs ⊎ ¬ Member i xs
Member-dec i [] = inr (λ m. elim m [ ])
Member-dec i (x ∷ xs) = elim (Bool-cases (i == x)) [
  | inl y ↦ inl (inl ((==_iff i x).0 y))
  | inr z ↦ elim (Member-dec i xs) [
    | inl m ↦ inl (inr m)
    | inr n ↦ inr (λ m. elim m [ inl e ↦ ground arith | inr k ↦ n k ])
  ]
]

-- RemoveNodeIdxList on the index of a node in use hands over its data, takes that node out of the
-- list, keeps the order and the data of the others, and frees the node. On any other index it
-- answers NULL and leaves the table.
pub remove_node_idx_list_lem :
    {t : IdxListTable} {used free : List ℕ} (idx : ℕ)
    → IsTable t used free
    → (Member idx used × Removes t used free idx)
      ⊎ (¬ Member idx used × (remove_node_idx_list t idx ≡ (0, t)))
remove_node_idx_list_lem {t} {used} {free} idx v = elim (Member-dec idx used) [
  | inl m ↦ inl (m, remove_used t used free idx v m)
  | inr n ↦ inr (n, remove_other t used free idx v n)
]

-- RemoveHeadIdxList hands over the data of the first node in use and leaves the others.
pub remove_head_idx_list_lem :
    {t : IdxListTable} {x : ℕ} {xs free : List ℕ}
    → IsTable t (x ∷ xs) free
    → (t' : IdxListTable) × (remove_head_idx_list t ≡ ((t.node_list x).data_, t'))
      × ((t.node_list x).data_ ≢ 0)
      × IsTable t' xs (x ∷ free)
      × ((i : ℕ) → i ≢ x → (t'.node_list i).data_ ≡ (t.node_list i).data_)
unfolding remove_head_idx_list remove_node_idx_list
remove_head_idx_list_lem {t} {x} {xs} {free} v =
    let (pos, small) = v.used_in x (inl refl) in
    let data_ = v.used_data x (inl refl) in
    let guard : (leb t.size x || (x == 0)) ≡ false = ground arith in
    let set_ : ((t.node_list x).data_ == 0) ≡ false = ground arith in
    (
      unlink_node t x,
      rw (remove_head_idx_list, remove_node_idx_list, v.links.0, guard, set_) refl,
      data_,
      unlink_node-IsTable t x [] xs free v,
      data_same t x [] xs free v,
    )
