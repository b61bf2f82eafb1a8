-- ===== src/Heap/Split.antt =====
-- HeappSplit and the first branch of HeappAlign in src/mem.c keep the heap's invariant.
use deepshield.Prelude.{
  ℕ, ◌+◌, ◌<◌, ◌≡◌, ◌≢◌, ◌∙◌, ◌⊎◌, inl, inr, refl, sym, ap, List, [], ◌∷◌, ◌++◌, Member, arith,
  ◌==◌, ==_iff, ◌^◌, Bool-cases, Member-append_left,
}
use mathlib.Core.Path.{subst}
use deepshield.Heap.{Heap, Blocks, block_free, block_used, block_link, insert_block}
use deepshield.Heap.Lists.{first, ne_of_member}
use deepshield.Heap.Chains.{IsList, IsList-frame, link-IsList, link-other, Member-middle}
use deepshield.Heap.Layout.{
  Layout, SameTile, Layout-frame, Layout-splice, Layout-drop, Layout-after, Layout-before,
  Layout-pnext,
}
use deepshield.Heap.Inv.{IsHeap, block_bounds, not_both, not_inside}
use deepshield.Heap.Fields.{
  inserted, fresh, chained, insert-size, insert-links, insert-head, insert-rest, insert-state_new,
  insert-state_old, insert-away, insert-at, insert-new, insert-next, fresh-links,
}

-- A list of blocks with a new one behind `a`.
Member-insert :
    (xs : List ℕ) (a x : ℕ) (ys : List ℕ) (i : ℕ)
    → Member i (xs ++ (a ∷ ys))
    → Member i (xs ++ (a ∷ x ∷ ys))
Member-insert [] a x ys i (inl e) = inl e
Member-insert [] a x ys i (inr m) = inr (inr m)
Member-insert (w ∷ xs) a x ys i (inl e) = inl e
Member-insert (w ∷ xs) a x ys i (inr m) = inr (Member-insert xs a x ys i m)

Member-inserted :
    (xs : List ℕ) (a x : ℕ) (ys : List ℕ) (i : ℕ)
    → Member i (xs ++ (a ∷ x ∷ ys))
    → (i ≡ x) ⊎ Member i (xs ++ (a ∷ ys))
Member-inserted [] a x ys i (inl e) = inr (inl e)
Member-inserted [] a x ys i (inr (inl e)) = inl e
Member-inserted [] a x ys i (inr (inr m)) = inr (inr m)
Member-inserted (w ∷ xs) a x ys i (inl e) = inr (inl e)
Member-inserted (w ∷ xs) a x ys i (inr m) = elim (Member-inserted xs a x ys i m) [
  | inl e ↦ inl e
  | inr k ↦ inr (inr k)
]

Member-new : (xs : List ℕ) (a x : ℕ) (ys : List ℕ) → Member x (xs ++ (a ∷ x ∷ ys))
Member-new [] a x ys = inr (inl refl)
Member-new (w ∷ xs) a x ys = inr (Member-new xs a x ys)

pub first_kept :
    (xs : List ℕ) (a : ℕ) (ys zs : List ℕ) → first (xs ++ (a ∷ ys)) 0 ≡ first (xs ++ (a ∷ zs)) 0
first_kept [] a ys zs = refl
first_kept (w ∷ xs) a ys zs = refl

module _ (h : Heap) (xs : List ℕ) (a : ℕ) (ys free used : List ℕ) (x size left : ℕ)
    (v : IsHeap h (xs ++ (a ∷ ys)) free used) (was_free : Member a free) (at_x : x ≡ a + left + 24)
    (sizes : (h.blocks a).size ≡ left + 24 + size) (left_pos : 0 < left) (size_pos : 0 < size) where
  there : Member a (xs ++ (a ∷ ys))
  there = Member-middle xs a ys

  x_new : ¬ Member x (xs ++ (a ∷ ys))
  x_new = not_inside h (xs ++ (a ∷ ys)) free used v a x there (omega arith) (omega arith)

  x_ne_a : x ≢ a
  x_ne_a e = omega arith

  x_ne : x ≢ 0
  x_ne e = omega arith

  old : (i : ℕ) → Member i (xs ++ (a ∷ ys)) → i ≢ x
  old i m = ne_of_member (xs ++ (a ∷ ys)) i x m x_new

  old_ne : (i : ℕ) → Member i (xs ++ (a ∷ ys)) → i ≢ 0
  old_ne i m e = omega (arith, block_bounds h (xs ++ (a ∷ ys)) free used v i m)

  tail_layout : Layout h.blocks h.size (h.blocks a).pprev (a ∷ ys)
  tail_layout = Layout-drop h.blocks h.size 0 xs a ys v.layout

  -- Offset 0, or the offset behind the block `a` as it was.
  next_of : ((h.blocks a).pnext ≡ 0) ⊎ ((h.blocks a).pnext ≡ a + (h.blocks a).size + 24)
  next_of = Layout-pnext h.blocks h.size (h.blocks a).pprev a ys tail_layout

  next_ne : (i : ℕ) → i ≢ 0 → i < a + (h.blocks a).size + 24 → (h.blocks a).pnext ≢ i
  next_ne i z lt e = elim next_of [ inl n ↦ z (sym e ∙ n) | inr n ↦ omega arith ]

  next_ne_x : (h.blocks a).pnext ≢ x
  next_ne_x = next_ne x x_ne (omega arith)

  abbrev blocks' : Blocks
  blocks' = inserted h a x size left

  before_same : (i : ℕ) → Member i xs → SameTile h.blocks blocks' i
  before_same i m =
      let m' = Member-append_left i xs (a ∷ ys) m in
      let i_a = Layout-before h.blocks h.size 0 xs a ys i v.layout m in
      let i_ne = old_ne i m' in
      insert-away h a x size left x_ne_a next_ne_x i i_ne (λ e. omega arith) (old i m')
        (λ e. next_ne i i_ne (omega arith) (sym e))

  behind_same :
      (zs : List ℕ)
      → ((i : ℕ) → Member i zs → x < i)
      → (h.blocks a).pnext ≡ first zs 0
      → Layout h.blocks h.size a zs
      → Layout blocks' h.size x zs
  behind_same [] gt n l = tt
  behind_same (z ∷ zs) gt n (e, m, s, l) =
      let x_z = gt z (inl refl) in
      let (f, g, k) =
        insert-next h a x size left x_ne_a next_ne_x z (λ w. omega arith) (λ w. omega arith)
          (λ w. omega arith) n in
      (
        g,
        k ∙ m,
        ap (λ (t : ℕ). z + t + 24) f ∙ s,
        Layout-frame h.blocks blocks' h.size z zs
            (λ i w.
              let x_i = gt i (inr w) in
              let z_i = Layout-after h.blocks h.size a z zs i (e, m, s, l) w in
              insert-away h a x size left x_ne_a next_ne_x i (λ t. omega arith) (λ t. omega arith)
                (λ t. omega arith) (λ t. omega arith))
            l,
      )

  tail_spliced : (q : ℕ) → Layout h.blocks h.size q (a ∷ ys) → Layout blocks' h.size q (a ∷ x ∷ ys)
  tail_spliced q l =
      let (e, m, s, rest) = l in
      let a_ne = old_ne a there in
      let (fa, ga, ka) =
        insert-at h a x size left x_ne_a next_ne_x a_ne (next_ne a a_ne (omega arith)) in
      let (fx, gx, kx) = insert-new h a x size left x_ne_a next_ne_x x_ne in
      (
        ga ∙ e,
        ka,
        omega arith,
        (
          gx,
          kx ∙ m,
          omega arith,
          behind_same ys (λ i k. omega (arith, Layout-after h.blocks h.size q a ys i l k)) m rest,
        ),
      )

  inserted_layout : Layout blocks' h.size 0 (xs ++ (a ∷ x ∷ ys))
  inserted_layout =
      Layout-splice h.blocks blocks' h.size 0 xs a ys (x ∷ ys) before_same tail_spliced v.layout

  fresh-IsList :
      (head : ℕ) (zs : List ℕ) → IsList h.blocks head zs → IsList (fresh h a x size left) head zs
  fresh-IsList head zs l =
      IsList-frame h.blocks (fresh h a x size left) head zs (λ i k. fresh-links h a x size left i) l

  x_not_free : ¬ Member x free
  x_not_free k = x_new (v.free_in x k).0

  x_not_used : ¬ Member x used
  x_not_used k = x_new (v.used_in x k).0

  frees' : IsList blocks' (insert_block h a x size left).free_list (x ∷ free)
  frees' =
      subst (λ (k : ℕ). IsList blocks' k (x ∷ free)) (sym (insert-head h a x size left x_ne_a))
        (IsList-frame (chained h a x size left) blocks'
          (block_link (fresh h a x size left) h.free_list x).1 (x ∷ free)
          (λ i k. insert-links h a x size left x_ne_a i)
          (link-IsList (fresh h a x size left) h.free_list free x
            (fresh-IsList h.free_list free v.frees) x_not_free x_ne))

  useds' : IsList blocks' h.used_list used
  useds' =
      IsList-frame (chained h a x size left) blocks' h.used_list used
        (λ i k. insert-links h a x size left x_ne_a i)
        (IsList-frame (fresh h a x size left) (chained h a x size left) h.used_list used
          (λ i k.
            link-other (fresh h a x size left) h.free_list free x i
              (fresh-IsList h.free_list free v.frees) x_not_free
              (ne_of_member used i x k x_not_used)
              (λ f. not_both h (xs ++ (a ∷ ys)) free used v i f k))
          (fresh-IsList h.used_list used v.useds))

  kept_free :
      (i : ℕ)
      → Member i (x ∷ free)
      → Member i (xs ++ (a ∷ x ∷ ys)) × ((blocks' i).state ≡ block_free)
  kept_free i (inl e) = (
    subst (λ (k : ℕ). Member k (xs ++ (a ∷ x ∷ ys))) (sym e) (Member-new xs a x ys),
    ap (λ (k : ℕ). (blocks' k).state) e ∙ insert-state_new h a x size left x_ne_a,
  )
  kept_free i (inr k) =
      let (m, s) = v.free_in i k in
      (Member-insert xs a x ys i m, insert-state_old h a x size left x_ne_a i (old i m) ∙ s)

  kept_used :
      (i : ℕ) → Member i used → Member i (xs ++ (a ∷ x ∷ ys)) × ((blocks' i).state ≡ block_used)
  kept_used i k =
      let (m, s) = v.used_in i k in
      (Member-insert xs a x ys i m, insert-state_old h a x size left x_ne_a i (old i m) ∙ s)

  -- The sizes of the blocks that were there, but for the one that is cut.
  pub insert-other_size :
      (i : ℕ) → Member i (xs ++ (a ∷ ys)) → i ≢ a → (blocks' i).size ≡ (h.blocks i).size
  insert-other_size i m n =
      let i_x = old i m in ground (arith, insert-size h a x size left x_ne_a i)

  pub insert-left_size : (blocks' a).size ≡ left
  insert-left_size = ground (arith, insert-size h a x size left x_ne_a a)

  pub insert-new_size : (blocks' x).size ≡ size
  insert-new_size = ground (arith, insert-size h a x size left x_ne_a x)

  all_nonempty : (i : ℕ) → Member i (xs ++ (a ∷ x ∷ ys)) → 0 < (blocks' i).size
  all_nonempty i m = elim (Member-inserted xs a x ys i m) [
    | inl e ↦ subst (λ (k : ℕ). 0 < (blocks' k).size) (sym e) (omega (arith, insert-new_size))
    | inr k ↦ elim (Bool-cases (i == a)) [
      | inl t ↦
          subst (λ (j : ℕ). 0 < (blocks' j).size) (sym ((==_iff i a).0 t))
            (omega (arith, insert-left_size))
      | inr t ↦
          let i_a : i ≢ a = ground arith in omega (arith, insert-other_size i k i_a, v.nonempty i k)
    ]
  ]

  pub insert-IsHeap : IsHeap (insert_block h a x size left) (xs ++ (a ∷ x ∷ ys)) (x ∷ free) used
  insert-IsHeap =
      let (size_same, used_same, memory_same) = insert-rest h a x size left in
      record {
        layout =
            subst (λ (n : ℕ). Layout blocks' n 0 (xs ++ (a ∷ x ∷ ys))) (sym size_same)
              inserted_layout;
        start_first = first_kept xs a (x ∷ ys) ys ∙ v.start_first;
        frees = frees';
        useds = subst (λ (n : ℕ). IsList blocks' n used) (sym used_same) useds';
        free_in = kept_free;
        used_in = kept_used;
        cover = λ i m. elim (Member-inserted xs a x ys i m) [
          | inl e ↦ inl (inl e)
          | inr k ↦ elim (v.cover i k) [ inl f ↦ inl (inr f) | inr u ↦ inr u ]
        ];
        nonempty = all_nonempty;
        memory_ne = subst (λ (n : ℕ). 0 < n) (sym memory_same) v.memory_ne;
        fits = subst (λ (n : ℕ). n < 2 ^ 31) (sym size_same) v.fits;
      }
