-- ===== src/Heap/Coalesce.antt =====
-- The tests of HeappFree in src/mem.c choose one of its four cases.
use deepshield.Prelude.{
  ℕ, ◌<◌, ◌≡◌, ◌≢◌, ◌∙◌, ◌⊎◌, inl, inr, refl, sym, List, [], ◌∷◌, ◌++◌, Member, arith, ◌&&◌, Bool,
  true, false, Member-split,
}
use mathlib.Core.Path.{subst}
use deepshield.Heap.{
  Heap, is_used, is_free, coalesce, free_alone, free_with_next, free_into_prev, free_all_three,
  block_free, block_used,
}
use deepshield.Heap.Lists.{ne_of_member}
use deepshield.Heap.Tiling.{in_ne}
use deepshield.Heap.Cases.{
  Open, free_alone-Open, free_with_next-Open, free_into_prev-Open, free_all_three-Open,
}
use deepshield.Heap.Effects.{
  SameRegion, free_alone-region, free_with_next-region, free_into_prev-region,
  free_all_three-region, SameBlock, free_alone_same, free_with_next_same, free_into_prev_same,
  free_all_three_same,
}

-- What HeappFree leaves: no loose block, and the other used blocks as they were.
pub record Freed (h h' : Heap) (used : List ℕ) : Type 0 where
  pub blocks : List ℕ
  pub free : List ℕ
  pub tiling : Open h' blocks free used []
  pub others : (i : ℕ) → Member i used → SameBlock h.blocks h'.blocks i
  pub region : SameRegion h h'

abbrev pub Used : Heap → ℕ → Type 0
Used h x = (is_used h x ≡ true) × (is_free h x ≡ false)

abbrev Free : Heap → ℕ → Type 0
Free h x = (is_used h x ≡ false) × (is_free h x ≡ true)

pub no_block-Used : (h : Heap) (x : ℕ) → x ≡ 0 → Used h x
no_block-Used h x e = rw e (refl, refl)

pub state-Used : (h : Heap) (x : ℕ) → (h.blocks x).state ≡ 1 → Used h x
state-Used h x e = (ground arith, ground arith)

state-Free : (h : Heap) (x : ℕ) → x ≢ 0 → (h.blocks x).state ≡ 0 → Free h x
state-Free h x z e = (ground arith, ground arith)

and_false : (c : Bool) → (c && false) ≡ false
and_false true = refl
and_false false = refl

module _ (h h' : Heap) (x : ℕ) (same : (h'.blocks x).state ≡ (h.blocks x).state) where
  Used-same : Used h x → Used h' x
  Used-same u = (rw same u.0, rw same u.1)

  Free-same : Free h x → Free h' x
  Free-same u = (rw same u.0, rw same u.1)

module _ (secure : Bool) (h : Heap) (prev a next : ℕ) where
  eval_alone :
      Used h prev
      → Used h next
      → Used (free_alone h a) prev
      → Used (free_alone h a) next
      → coalesce secure h prev a next ≡ free_alone h a
  unfolding coalesce
  eval_alone p n p' n' = rw (p.0, n.0) (rw (p'.0, n'.1) (rw p'.1 (rw p'.1 refl)))

  eval_with_next :
      Used h prev
      → Free h next
      → Used (free_with_next secure h a next) prev
      → coalesce secure h prev a next ≡ free_with_next secure h a next
  unfolding coalesce
  eval_with_next p n p' = rw (p.0, n.0) (rw (p.0, n.1) (rw p'.1 (rw p'.1 refl)))

  eval_into_prev :
      Free h prev
      → Used h next
      → Used (free_into_prev secure h prev a) next
      → coalesce secure h prev a next ≡ free_into_prev secure h prev a
  unfolding coalesce
  eval_into_prev p n n' = rw p.0 (
      rw p.0 (
        rw (p.1, n.0)
          (rw n'.1 (rw (and_false (is_free (free_into_prev secure h prev a) prev)) refl))))

  eval_all_three :
      Free h prev
      → Free h next
      → coalesce secure h prev a next ≡ free_all_three secure h prev a next
  unfolding coalesce
  eval_all_three p n = rw p.0 (rw p.0 (rw (p.1, n.0) (rw (p.1, n.1) refl)))

-- A block that is in neither list, its neighbours in either.
module _ (secure : Bool) (h : Heap) (blocks free used : List ℕ) (prev a next : ℕ)
    (v : Open h blocks free used (a ∷ [])) (prev_lt : prev < a)
    (next_gt : (next ≡ 0) ⊎ (a < next)) where
  not_a : (i : ℕ) → Member i used → i ≢ a
  not_a i m = ne_of_member used i a m (v.loose_in a (inl refl)).2

  not_free : (i x : ℕ) → Member i used → Member x free → i ≢ x
  not_free i x m k = ne_of_member used i x m (v.apart x k)

  next_a : next ≢ a
  next_a e = elim next_gt [ inl z ↦ omega arith | inr g ↦ omega arith ]

  next-prev : prev ≢ 0 → next ≢ prev
  next-prev z e = elim next_gt [ inl w ↦ z (sym e ∙ w) | inr g ↦ omega arith ]

  prev_a : prev ≢ a
  prev_a e = omega arith

  member_ne : (x : ℕ) → Member x free → x ≢ 0
  member_ne x m =
      in_ne h.blocks h.size block_free h.free_list free block_used h.used_list used blocks (a ∷ [])
        v x (v.left_in x m).0

  pub Freed-alone : Used h prev → Used h next → Freed h (coalesce secure h prev a next) used
  Freed-alone p n =
      let same_prev = (free_alone_same h a prev prev_a).1 in
      let same_next = (free_alone_same h a next next_a).1 in
      subst (λ (k : Heap). Freed h k used)
        (sym (
          eval_alone secure h prev a next p n (Used-same h (free_alone h a) prev same_prev p)
            (Used-same h (free_alone h a) next same_next n)))
        (record {
          blocks = blocks;
          free = a ∷ free;
          tiling = free_alone-Open h blocks free used a v;
          others = λ i m. free_alone_same h a i (not_a i m);
          region = free_alone-region h a;
        })

  pub Freed-with_next :
      (ps qs : List ℕ)
      → blocks ≡ ps ++ (a ∷ next ∷ qs)
      → Used h prev
      → Member next free
      → Freed h (coalesce secure h prev a next) used
  Freed-with_next ps qs e p m =
      let (fl, fr, f) = Member-split next free m in
      let n = state-Free h next (member_ne next m) (v.left_in next m).1 in
      let prev_ne_next : prev ≢ next =
        λ w. elim next_gt [ inl z ↦ member_ne next m z | inr g ↦ omega arith ] in
      let same_prev = (free_with_next_same secure h a next prev next_a prev_a prev_ne_next).1 in
      subst (λ (k : Heap). Freed h k used)
        (sym (
          eval_with_next secure h prev a next p n
            (Used-same h (free_with_next secure h a next) prev same_prev p)))
        (record {
          blocks = ps ++ (a ∷ qs);
          free = a ∷ (fl ++ fr);
          tiling = free_with_next-Open secure h ps a next qs fl fr used (
              subst (λ (t : List ℕ). Open h t (fl ++ (next ∷ fr)) used (a ∷ [])) e
                (subst (λ (t : List ℕ). Open h blocks t used (a ∷ [])) f v));
          others =
              λ i k. free_with_next_same secure h a next i next_a (not_a i k) (not_free i next k m);
          region = free_with_next-region secure h a next;
        })

  pub Freed-into_prev :
      (ps qs : List ℕ)
      → blocks ≡ ps ++ (prev ∷ a ∷ qs)
      → Member prev free
      → Used h next
      → Freed h (coalesce secure h prev a next) used
  Freed-into_prev ps qs e m n =
      let p = state-Free h prev (member_ne prev m) (v.left_in prev m).1 in
      let a_prev : a ≢ prev = λ w. prev_a (sym w) in
      let same_next =
        (free_into_prev_same secure h prev a next a_prev (next-prev (member_ne prev m)) next_a).1 in
      subst (λ (k : Heap). Freed h k used)
        (sym (
          eval_into_prev secure h prev a next p n
            (Used-same h (free_into_prev secure h prev a) next same_next n)))
        (record {
          blocks = ps ++ (prev ∷ qs);
          free = free;
          tiling =
              free_into_prev-Open secure h ps prev a qs free used
                (subst (λ (t : List ℕ). Open h t free used (a ∷ [])) e v);
          others =
              λ i k. free_into_prev_same secure h prev a i a_prev (not_free i prev k m) (not_a i k);
          region = free_into_prev-region secure h prev a;
        })

  pub Freed-all_three :
      (ps qs : List ℕ)
      → blocks ≡ ps ++ (prev ∷ a ∷ next ∷ qs)
      → Member prev free
      → Member next free
      → Freed h (coalesce secure h prev a next) used
  Freed-all_three ps qs e m k =
      let (fl, fr, f) = Member-split next free k in
      let p = state-Free h prev (member_ne prev m) (v.left_in prev m).1 in
      let n = state-Free h next (member_ne next k) (v.left_in next k).1 in
      subst (λ (t : Heap). Freed h t used) (sym (eval_all_three secure h prev a next p n))
        (record {
          blocks = ps ++ (prev ∷ qs);
          free = fl ++ fr;
          tiling = free_all_three-Open secure h ps prev a next qs fl fr used (
              subst (λ (t : List ℕ). Open h t (fl ++ (next ∷ fr)) used (a ∷ [])) e
                (subst (λ (t : List ℕ). Open h blocks t used (a ∷ [])) f v));
          others = λ i w.
              free_all_three_same secure h prev a next i (next-prev (member_ne prev m))
                (not_free i prev w m) (not_a i w) (not_free i next w k);
          region = free_all_three-region secure h prev a next;
        })
