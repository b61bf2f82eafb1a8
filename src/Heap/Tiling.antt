-- ===== src/Heap/Tiling.antt =====
-- Between the steps of the operations of src/mem.c: headers, two lists and the blocks in neither.
use deepshield.Prelude.{
  ℕ, ◌<◌, ◌≡◌, ◌≢◌, ◌∙◌, ◌⊎◌, inl, inr, refl, sym, List, [], ◌∷◌, ◌++◌, Member, arith,
}
use mathlib.Core.Path.{subst}
use deepshield.Heap.{Blocks, start, set_block, block_unlink, block_link}
use deepshield.Heap.Lists.{
  first, SameLinks, SamePhysical, block_link-physical, block_unlink-physical, ne_of_member,
}
use deepshield.Heap.Chains.{
  IsList, IsList-frame, link-IsList, link-other, unlink-IsList, unlink-other, Member-middle,
  Member-keep, Member-remove, Distinct-remove,
}
use deepshield.Heap.Layout.{Layout, SameTile, Layout-frame, Layout-start}

-- The blocks tile `n` bytes. The list at `head` holds `xs`, blocks of state `s`, that at `other`
-- holds `ys`, blocks of state `t`, and `loose` are the blocks in neither.
pub record Tiling (b : Blocks) (n s head : ℕ) (xs : List ℕ) (t other : ℕ) (ys blocks loose : List ℕ)
    : Type 0 where
  pub layout : Layout b n 0 blocks
  pub start_first : first blocks 0 ≡ start
  pub left : IsList b head xs
  pub right : IsList b other ys
  pub left_in : (i : ℕ) → Member i xs → Member i blocks × ((b i).state ≡ s)
  pub right_in : (i : ℕ) → Member i ys → Member i blocks × ((b i).state ≡ t)
  pub loose_in : (i : ℕ) → Member i loose → Member i blocks × ¬ Member i xs × ¬ Member i ys
  pub apart : (i : ℕ) → Member i xs → ¬ Member i ys
  pub cover : (i : ℕ) → Member i blocks → Member i xs ⊎ Member i ys ⊎ Member i loose
  pub nonempty : (i : ℕ) → Member i blocks → 0 < (b i).size

pub swap :
    (b : Blocks) (n s head : ℕ) (xs : List ℕ) (t other : ℕ) (ys blocks loose : List ℕ)
    → Tiling b n s head xs t other ys blocks loose
    → Tiling b n t other ys s head xs blocks loose
swap b n s head xs t other ys blocks loose v = record {
  layout = v.layout;
  start_first = v.start_first;
  left = v.right;
  right = v.left;
  left_in = v.right_in;
  right_in = v.left_in;
  loose_in = λ i m. let (k, p, q) = v.loose_in i m in (k, q, p);
  apart = λ i m k. v.apart i k m;
  cover = λ i m. elim (v.cover i m) [
    | inl k ↦ inr (inl k)
    | inr (inl k) ↦ inl k
    | inr (inr k) ↦ inr (inr k)
  ];
  nonempty = v.nonempty;
}

pub in_ne :
    (b : Blocks) (n s head : ℕ) (xs : List ℕ) (t other : ℕ) (ys blocks loose : List ℕ)
    → Tiling b n s head xs t other ys blocks loose
    → (i : ℕ) → Member i blocks
    → i ≢ 0
in_ne b n s head xs t other ys blocks loose v i m e =
    omega (arith, Layout-start b n 0 blocks i v.layout v.start_first m)

-- HeappBlockUnlink makes a block of a list a loose one.
module _ (b : Blocks) (n s head : ℕ) (xs : List ℕ) (a : ℕ) (ys : List ℕ) (t other : ℕ)
    (zs blocks loose : List ℕ)
    (v : Tiling b n s head (xs ++ (a ∷ ys)) t other zs blocks loose) where
  abbrev b' : Blocks
  b' = (block_unlink b head a).0

  same : (i : ℕ) → SamePhysical b b' i
  same i = block_unlink-physical b head a i

  pub detach : Tiling b' n s (block_unlink b head a).1 (xs ++ ys) t other zs blocks (a ∷ loose)
  detach = record {
    layout = Layout-frame b b' n 0 blocks (λ i m. ((same i).1, (same i).2, (same i).3)) v.layout;
    start_first = v.start_first;
    left = unlink-IsList b head xs a ys v.left;
    right =
        IsList-frame b b' other zs
          (λ i m.
            unlink-other b head xs a ys v.left i
              (in_ne b n s head (xs ++ (a ∷ ys)) t other zs blocks loose v i (v.right_in i m).0)
              (λ k. v.apart i k m))
          v.right;
    left_in = λ i m. let (k, e) = v.left_in i (Member-remove xs a ys i m) in (k, (same i).0 ∙ e);
    right_in = λ i m. let (k, e) = v.right_in i m in (k, (same i).0 ∙ e);
    loose_in = λ i m. elim m [
      | inl e ↦
          subst (λ (j : ℕ). Member j blocks × ¬ Member j (xs ++ ys) × ¬ Member j zs) (sym e)
            (
              (v.left_in a (Member-middle xs a ys)).0,
              (Distinct-remove xs a ys v.left.distinct).1,
              v.apart a (Member-middle xs a ys),
            )
      | inr k ↦ let (m', p, q) = v.loose_in i k in (m', (λ w. p (Member-remove xs a ys i w)), q)
    ];
    apart = λ i m. v.apart i (Member-remove xs a ys i m);
    cover = λ i m. elim (v.cover i m) [
      | inl k ↦ elim (Member-keep xs a ys i k) [ inl e ↦ inr (inr (inl e)) | inr w ↦ inl w ]
      | inr (inl k) ↦ inr (inl k)
      | inr (inr k) ↦ inr (inr (inr k))
    ];
    nonempty = λ i m. subst (λ (k : ℕ). 0 < k) (sym (same i).1) (v.nonempty i m);
  }

-- A loose block is marked and HeappBlockLink puts it into a list.
module _ (b : Blocks) (n s head : ℕ) (xs : List ℕ) (t other : ℕ) (ys blocks : List ℕ) (a : ℕ)
    (v : Tiling b n s head xs t other ys blocks (a ∷ [])) where
  abbrev marked : Blocks
  marked = set_block b a (record (b a) { state = s })

  abbrev linked : Blocks
  linked = (block_link marked head a).0

  a_in : Member a blocks × ¬ Member a xs × ¬ Member a ys
  a_in = v.loose_in a (inl refl)

  marked_links : (i : ℕ) → SameLinks b marked i
  unfolding set_block
  marked_links i = (ground arith, ground arith)

  marked_tile : (i : ℕ) → SameTile b marked i
  unfolding set_block
  marked_tile i = (ground arith, ground arith, ground arith)

  linked_tile : (i : ℕ) → SameTile b linked i
  linked_tile i =
      let (p, q, r) = marked_tile i in
      let (_, f, g, k) = block_link-physical marked head a i in (f ∙ p, g ∙ q, k ∙ r)

  linked_state : (i : ℕ) → i ≢ a → (linked i).state ≡ (b i).state
  unfolding set_block
  linked_state i z = ground (arith, block_link-physical marked head a i)

  linked_state_new : (linked a).state ≡ s
  unfolding set_block
  linked_state_new = ground (arith, block_link-physical marked head a a)

  marked-IsList : (h : ℕ) (zs : List ℕ) → IsList b h zs → IsList marked h zs
  marked-IsList h zs l = IsList-frame b marked h zs (λ i m. marked_links i) l

  pub attach : Tiling linked n s (block_link marked head a).1 (a ∷ xs) t other ys blocks []
  attach =
      let (there, not_left, not_right) = a_in in
      record {
        layout = Layout-frame b linked n 0 blocks (λ i m. linked_tile i) v.layout;
        start_first = v.start_first;
        left =
            link-IsList marked head xs a (marked-IsList head xs v.left) not_left
              (in_ne b n s head xs t other ys blocks (a ∷ []) v a there);
        right =
            IsList-frame marked linked other ys
              (λ i m.
                link-other marked head xs a i (marked-IsList head xs v.left) not_left
                  (ne_of_member ys i a m not_right) (λ k. v.apart i k m))
              (marked-IsList other ys v.right);
        left_in = λ i m. elim m [
          | inl e ↦
              subst (λ (j : ℕ). Member j blocks × ((linked j).state ≡ s)) (sym e)
                (there, linked_state_new)
          | inr k ↦
              let (w, e) = v.left_in i k in (w, linked_state i (ne_of_member xs i a k not_left) ∙ e)
        ];
        right_in = λ i m.
            let (w, e) = v.right_in i m in
            (w, linked_state i (ne_of_member ys i a m not_right) ∙ e);
        loose_in = λ i m. elim m [ ];
        apart = λ i m. elim m [
          | inl e ↦ subst (λ (j : ℕ). ¬ Member j ys) (sym e) not_right
          | inr k ↦ v.apart i k
        ];
        cover = λ i m. elim (v.cover i m) [
          | inl k ↦ inl (inr k)
          | inr (inl k) ↦ inr (inl k)
          | inr (inr (inl e)) ↦ inl (inl e)
          | inr (inr (inr k)) ↦ elim k [ ]
        ];
        nonempty = λ i m. subst (λ (k : ℕ). 0 < k) (sym (linked_tile i).0) (v.nonempty i m);
      }
