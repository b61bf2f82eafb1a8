-- ===== src/IdxList/Extend.antt =====
-- ExtendIdxList of src/idxlist.c, and InsertHeadIdxList as a whole.
use deepshield.Prelude.{
  Distinct, Member, ℕ, zero, suc, ◌+◌, ◌-◌, ◌≤◌, ◌<◌, ◌≡◌, ◌≢◌, ◌∙◌, ◌⊎◌, inl, inr, refl, sym, ap,
  true, false, Bool-cases, Option, some, List, [], ◌∷◌, length, if◌then◌else◌, ◌==◌, ltb, ltb→lt,
  arith, word32, add32,
}
use mathlib.Core.Path.{subst}
use deepshield.IdxList.{
  IdxListNode, IdxListTable, set_node, extension, chain_nodes, extend_idx_list,
}
use deepshield.IdxList.Chain.{
  Nodes, set_node_self, set_node_ne, Free, Links-frame, Free-frame, Free-data,
}
use deepshield.IdxList.Unlink.{IsTable}

-- The indices from `first` on, `k` of them, before others.
abbrev range : ℕ → ℕ → List ℕ → List ℕ
range first zero ys = ys
range first (suc k) ys = range first k ((first + k) ∷ ys)

Member-range :
    (first k : ℕ) (ys : List ℕ) (i : ℕ)
    → Member i (range first k ys)
    → ((first ≤ i) × (i < first + k)) ⊎ Member i ys
Member-range first zero ys i m = inr m
Member-range first (suc k) ys i m = elim (Member-range first k ((first + k) ∷ ys) i m) [
  | inl (a, b) ↦ inl (a, omega arith)
  | inr n ↦ elim n [ inl e ↦ inl (omega arith, omega arith) | inr r ↦ inr r ]
]

range-Member :
    (first k : ℕ) (ys : List ℕ) (i : ℕ)
    → ((first ≤ i) × (i < first + k)) ⊎ Member i ys
    → Member i (range first k ys)
range-Member first zero ys i (inl (a, b)) = absurd (omega arith)
range-Member first zero ys i (inr m) = m
range-Member first (suc k) ys i (inr m) = range-Member first k ((first + k) ∷ ys) i (inr (inr m))
range-Member first (suc k) ys i (inl (a, b)) = elim (Bool-cases (i == first + k)) [
  | inl y ↦ range-Member first k ((first + k) ∷ ys) i (inr (inl (ground arith)))
  | inr z ↦ range-Member first k ((first + k) ∷ ys) i (inl (a, ground arith))
]

range-Distinct :
    (first k : ℕ) (ys : List ℕ)
    → Distinct ys
    → ((i : ℕ) → Member i ys → first + k ≤ i)
    → Distinct (range first k ys)
range-Distinct first zero ys d above = d
range-Distinct first (suc k) ys d above =
    range-Distinct first k ((first + k) ∷ ys)
      ((λ m. let a = above (first + k) m in absurd (omega arith)), d)
      (λ i m. elim m [ inl e ↦ omega arith | inr r ↦ let a = above i r in omega arith ])

length-range : (first k : ℕ) (ys : List ℕ) → length (range first k ys) ≡ k + length ys
length-range first zero ys = omega arith
length-range first (suc k) ys = length-range first k ((first + k) ∷ ys) ∙ omega arith

range-first : (first k : ℕ) (ys : List ℕ) → range first (suc k) ys ≡ first ∷ range (first + 1) k ys
range-first first zero ys = ap (λ (n : ℕ). n ∷ ys) {x = first + 0} (omega arith)
range-first first (suc k) ys =
    range-first first k ((first + suc k) ∷ ys)
    ∙ ap (λ (n : ℕ). first ∷ range (first + 1) k (n ∷ ys)) {x = first + suc k} (omega arith)

-- The loop links the nodes it is given, in order, before the ones that were free.
chain_nodes-Free :
    (first k : ℕ) (nodes : Nodes) (free : ℕ) (ys : List ℕ)
    → Free nodes free ys
    → ((i : ℕ) → Member i ys → first + k ≤ i)
    → let (nodes', free') = chain_nodes first k nodes free in Free nodes' free' (range first k ys)
unfolding chain_nodes
chain_nodes-Free first zero nodes free ys h above = h
chain_nodes-Free first (suc k) nodes free ys h above =
    let node = record (nodes (first + k)) { data_ = 0; fidx = free } in
    let nodes1 = set_node nodes (first + k) node in
    let at = set_node_self nodes (first + k) node in
    chain_nodes-Free first k nodes1 (first + k) ((first + k) ∷ ys)
      (
        refl,
        ap (λ (n : IdxListNode). n.data_) at,
        subst (λ (j : ℕ). Free nodes1 j ys) (sym (ap (λ (n : IdxListNode). n.fidx) at))
            (Free-frame nodes nodes1 free ys
              (λ i m.
                let ne : first + k ≢ i = let a = above i m in omega arith in
                let same = set_node_ne nodes (first + k) i node ne in
                (ap (λ (n : IdxListNode). n.fidx) same, ap (λ (n : IdxListNode). n.data_) same))
              h),
      )
      (λ i m. elim m [ inl e ↦ omega arith | inr r ↦ let a = above i r in omega arith ])

-- The first array: node 0 heads the list and the others are free from node 1 on.
first_array :
    (nodes : Nodes) (f j : ℕ) (n : IdxListNode)
    → Free nodes f (range 0 (suc (suc j)) [])
    → Free (set_node nodes 0 n) 1 (range 1 (suc j) [])
first_array nodes f j n h =
    let (_, _, rest) = subst (λ (l : List ℕ). Free nodes f l) (range-first 0 (suc j) []) h in
    let (one, _, _) =
      subst (λ (l : List ℕ). Free nodes (nodes 0).fidx l) (range-first 1 j []) rest in
    subst (λ (k : ℕ). Free (set_node nodes 0 n) k (range 1 (suc j) [])) one
      (Free-frame nodes (set_node nodes 0 n) (nodes 0).fidx (range 1 (suc j) [])
        (λ i m.
          let ne : 0 ≢ i = elim (Member-range 1 (suc j) [] i m) [
            | inl (a, b) ↦ omega arith
            | inr r ↦ elim r [ ]
          ] in
          let same = set_node_ne nodes 0 i n ne in
          (ap (λ (n : IdxListNode). n.fidx) same, ap (λ (n : IdxListNode). n.data_) same))
        rest)

-- A table with a free node after an extension.
abbrev pub Extended : Option (ℕ → IdxListNode) → IdxListTable → List ℕ → Type 0
Extended allocated t used =
    (y : ℕ) × (ys : List ℕ) × (t' : IdxListTable) × (extend_idx_list allocated t ≡ (true, t'))
    × IsTable t' used (y ∷ ys)
    × ((i : ℕ) → Member i used → (t'.node_list i).data_ ≡ (t.node_list i).data_)

module _ (fresh : Nodes) (t : IdxListTable) (fits : t.size + extension < word32) where
  abbrev added : ℕ
  added = add32 t.size extension - t.size

  abbrev linked : Nodes × ℕ
  linked = chain_nodes t.size added fresh t.node_free_list

  linked-Free : t.node_free_list ≡ 0 → Free linked.0 linked.1 (range t.size added [])
  linked-Free e = chain_nodes-Free t.size added fresh t.node_free_list [] e (λ i m. elim m [ ])

  extend_first :
      (used : List ℕ)
      → IsTable t used []
      → t.is_empty_list ≡ true
      → t.size ≡ 0
      → Extended (some fresh) t used
  unfolding extend_idx_list
  extend_first [] v y z =
      let j = add32 t.size extension - 2 in
      let node : IdxListNode = record (linked.0 0) { fidx = 0; bidx = 0 } in
      let nodes = set_node linked.0 0 node in
      let two : added ≡ suc (suc j) = omega arith in
      let at = set_node_self linked.0 0 node in
      let chain0 : Free linked.0 linked.1 (range 0 (suc (suc j)) []) =
        subst (λ (k : ℕ). Free linked.0 linked.1 (range 0 k [])) two
          (subst (λ (k : ℕ). Free linked.0 linked.1 (range k added [])) z (linked-Free v.chain)) in
      let zero_data =
        Free-data linked.0 linked.1 (range 0 (suc (suc j)) []) 0 chain0
          (range-Member 0 (suc (suc j)) [] 0 (inl (omega arith, omega arith))) in
      let in_range : (i : ℕ) → Member i (range 1 (suc j) []) → (1 ≤ i) × (i < 1 + suc j) =
        λ i m. elim (Member-range 1 (suc j) [] i m) [ inl r ↦ r | inr r ↦ elim r [ ] ] in
      let t' : IdxListTable = record t {
        node_list = nodes;
        is_empty_list = false;
        node_free_list = 1;
        size = add32 t.size extension;
      } in
      let table : IsTable t' [] (range 1 (suc j) []) = record {
        links = (ap (λ (n : IdxListNode). n.fidx) at, ap (λ (n : IdxListNode). n.bidx) at);
        chain = first_array linked.0 linked.1 j node chain0;
        used_distinct = tt;
        free_distinct = range-Distinct 1 (suc j) [] tt (λ i m. elim m [ ]);
        apart = λ i m. elim m [ ];
        used_in = λ i m. elim m [ ];
        free_in = λ i m. let (a, b) = in_range i m in (omega arith, omega arith);
        cover = λ i p l. inr (range-Member 1 (suc j) [] i (inl (omega arith, omega arith)));
        used_data = λ i m. elim m [ ];
        head_data = ap (λ (n : IdxListNode). n.data_) at ∙ zero_data;
        count = v.count;
        room = omega (arith, length-range 1 (suc j) []);
        allocated = inr (refl, omega arith);
        fits = omega arith;
      } in
      (
        1,
        range (1 + 1) j [],
        t',
        rw (extend_idx_list, y) refl,
        subst (λ (l : List ℕ). IsTable t' [] l) (range-first 1 j []) table,
        λ i m. elim m [ ],
      )
  extend_first (x ∷ xs) v y z = absurd (let (_, small) = v.used_in x (inl refl) in omega arith)

  extend_more :
      (used : List ℕ)
      → IsTable t used []
      → t.is_empty_list ≡ false
      → 0 < t.size
      → Extended (some fresh) t used
  unfolding extend_idx_list
  extend_more used v y pos =
      let j = added - 1 in
      let one : added ≡ suc j = omega arith in
      let nodes : Nodes = λ i. if ltb i t.size then t.node_list i else linked.0 i in
      let old : (i : ℕ) → i < t.size → nodes i ≡ t.node_list i = λ i l. ground arith in
      let new : (i : ℕ) → t.size ≤ i → nodes i ≡ linked.0 i = λ i l. ground arith in
      let in_used : (i : ℕ) → (i ≡ 0) ⊎ Member i used → i < t.size =
        λ i m. elim m [ inl e ↦ omega arith | inr k ↦ (v.used_in i k).1 ] in
      let in_range : (i : ℕ)
          → Member i (range t.size (suc j) [])
          → (t.size ≤ i) × (i < t.size + suc j) =
        λ i m. elim (Member-range t.size (suc j) [] i m) [ inl r ↦ r | inr r ↦ elim r [ ] ] in
      let t' : IdxListTable = record t {
        node_list = nodes;
        node_free_list = linked.1;
        size = add32 t.size extension;
      } in
      let chain0 : Free linked.0 linked.1 (range t.size (suc j) []) =
        subst (λ (k : ℕ). Free linked.0 linked.1 (range t.size k [])) one (linked-Free v.chain) in
      let table : IsTable t' used (range t.size (suc j) []) = record {
        links =
            Links-frame t.node_list nodes 0 used
              (λ i m. ap (λ (n : IdxListNode). n.fidx) (old i (in_used i m)))
              (λ i m. ap (λ (n : IdxListNode). n.bidx) (old i (in_used i m))) v.links;
        chain =
            Free-frame linked.0 nodes linked.1 (range t.size (suc j) [])
              (λ i m.
                let same = new i (in_range i m).0 in
                (ap (λ (n : IdxListNode). n.fidx) same, ap (λ (n : IdxListNode). n.data_) same))
              chain0;
        used_distinct = v.used_distinct;
        free_distinct = range-Distinct t.size (suc j) [] tt (λ i m. elim m [ ]);
        apart = λ i m k.
            let a = in_range i k in let b = v.used_in i m in absurd (omega (arith, a.0, b.1));
        used_in = λ i m. let (a, b) = v.used_in i m in (a, omega arith);
        free_in = λ i m. let (a, b) = in_range i m in (omega arith, omega arith);
        cover = λ i p l. elim (Bool-cases (ltb i t.size)) [
          | inl q ↦ elim (v.cover i p (ltb→lt i t.size q)) [ inl u ↦ inl u | inr f ↦ elim f [ ] ]
          | inr q ↦
              let above : t.size ≤ i = ground arith in
              inr (range-Member t.size (suc j) [] i (inl (above, omega arith)))
        ];
        used_data = λ i m.
            subst (λ (n : IdxListNode). n.data_ ≢ 0) (sym (old i (in_used i (inr m))))
              (v.used_data i m);
        head_data = ap (λ (n : IdxListNode). n.data_) (old 0 pos) ∙ v.head_data;
        count = v.count;
        room = omega (arith, v.room, length-range t.size (suc j) []);
        allocated = inr (y, omega arith);
        fits = omega arith;
      } in
      (
        t.size,
        range (t.size + 1) j [],
        t',
        rw (extend_idx_list, y) refl,
        subst (λ (l : List ℕ). IsTable t' used l) (range-first t.size j []) table,
        λ i m. ap (λ (n : IdxListNode). n.data_) (old i (in_used i (inr m))),
      )

  -- ExtendIdxList on a table without a free node.
  pub extend_idx_list-Extended : (used : List ℕ) → IsTable t used [] → Extended (some fresh) t used
  extend_idx_list-Extended used v = elim v.allocated [
    | inl (y, z) ↦ extend_first used v y z
    | inr (y, pos) ↦ extend_more used v y pos
  ]
