-- ===== src/Heap/Merge.antt =====
-- HeappFree of src/mem.c between its steps: blocks are taken in, and their headers cleared.
use deepshield.Prelude.{
  ℕ, ◌+◌, ◌≤◌, ◌<◌, ◌≡◌, ◌≢◌, ◌∙◌, ◌⊎◌, inl, inr, sym, ap, List, ◌∷◌, ◌++◌, Member, arith, ◌==◌,
  ==_iff, Bool-cases, Member-append_left, Member-append, Bool, true, false,
}
use mathlib.Core.Path.{subst}
use deepshield.Heap.{Blocks, HeapBlock, set_block, absorb, block_zero, zero_if}
use deepshield.Heap.Lists.{ne_of_member}
use deepshield.Heap.Chains.{IsList-frame, Member-middle}
use deepshield.Heap.Layout.{
  Layout, Layout-frame, Layout-splice, Layout-before, Layout-drop, Layout-after,
}
use deepshield.Heap.Tiling.{Tiling, in_ne}
use deepshield.Heap.Split.{first_kept}
use deepshield.Heap.Absorb.{
  absorb-size, absorb-state, absorb-links, absorb-away, absorb-Layout, differ, after_ne, a_next,
  Member-skip, Member-stretch,
}

module _ (b : Blocks) (n s head : ℕ) (xs : List ℕ) (t other : ℕ) (ys ps : List ℕ) (a : ℕ)
    (ms : List ℕ) (next : ℕ) (qs loose loose' : List ℕ) (size : ℕ)
    (v : Tiling b n s head xs t other ys (ps ++ (a ∷ (ms ++ (next ∷ qs)))) loose)
    (sizes : a + size ≡ next + (b next).size)
    (gone : (i : ℕ) → Member i (next ∷ ms) → ¬ Member i xs × ¬ Member i ys)
    (stay : (i : ℕ) → Member i loose → Member i (next ∷ ms) ⊎ Member i loose')
    (back : (i : ℕ) → Member i loose' → Member i loose × ¬ Member i (next ∷ ms)) where
  abbrev old : List ℕ
  old = ps ++ (a ∷ (ms ++ (next ∷ qs)))

  abbrev merged : Blocks
  merged = absorb b a next size

  a_ne : a ≢ 0
  a_ne = in_ne b n s head xs t other ys old loose v a (Member-middle ps a (ms ++ (next ∷ qs)))

  from_a : Layout b n (b a).pprev (a ∷ (ms ++ (next ∷ qs)))
  from_a = Layout-drop b n 0 ps a (ms ++ (next ∷ qs)) v.layout

  next_ne_a : next ≢ a
  next_ne_a = differ b n a ms next qs size (b a).pprev from_a sizes a_ne

  merged_layout : Layout merged n 0 (ps ++ (a ∷ qs))
  merged_layout =
      Layout-splice b merged n 0 ps a (ms ++ (next ∷ qs)) qs
        (λ i m.
          let m' = Member-append_left i ps (a ∷ (ms ++ (next ∷ qs))) m in
          let i_ne = in_ne b n s head xs t other ys old loose v i m' in
          let i_a = Layout-before b n 0 ps a (ms ++ (next ∷ qs)) i v.layout m in
          let far = a_next b n a ms next qs size (b a).pprev from_a sizes a_ne in
          absorb-away b a next size next_ne_a i i_ne (λ e. omega arith)
            (after_ne b n a ms next qs size (b a).pprev from_a sizes a_ne i i_ne (omega arith)))
        (λ q l. absorb-Layout b n a ms next qs size q l sizes a_ne) v.layout

  kept : (i : ℕ) → Member i old → ¬ Member i (next ∷ ms) → Member i (ps ++ (a ∷ qs))
  kept i m far = elim (Member-stretch ps a ms next qs i m) [ inl k ↦ absurd (far k) | inr k ↦ k ]

  between : (i : ℕ) → Member i (next ∷ ms) → (a < i) × (i ≤ next)
  between i (inl e) =
      let far = a_next b n a ms next qs size (b a).pprev from_a sizes a_ne in
      (omega arith, omega arith)
  between i (inr m) = (
    omega (
      arith,
      Layout-after b n (b a).pprev a (ms ++ (next ∷ qs)) i from_a
          (Member-append_left i ms (next ∷ qs) m),
    ),
    omega (arith, Layout-before b n (b a).pprev (a ∷ ms) next qs i from_a (inr m)),
  )

  outside : (i : ℕ) → Member i (ps ++ (a ∷ qs)) → (i ≤ a) ⊎ (next < i)
  outside i m = elim (Member-append i ps (a ∷ qs) m) [
    | inl k ↦ inl (omega (arith, Layout-before b n 0 ps a (ms ++ (next ∷ qs)) i v.layout k))
    | inr (inl e) ↦ inl (omega arith)
    | inr (inr k) ↦ inr (
        omega (
          arith,
          Layout-after b n (b next).pprev next qs i
              (Layout-drop b n (b a).pprev (a ∷ ms) next qs from_a) k,
        ))
  ]

  -- What is taken in is no block any more.
  pub not_kept : (i : ℕ) → Member i (next ∷ ms) → ¬ Member i (ps ++ (a ∷ qs))
  not_kept i m k =
      let (lo, hi) = between i m in elim (outside i k) [ inl w ↦ omega arith | inr w ↦ omega arith ]

  grown : (i : ℕ) → Member i (ps ++ (a ∷ qs)) → 0 < (merged i).size
  grown i m = elim (Bool-cases (i == a)) [
    | inl e ↦
        let far = a_next b n a ms next qs size (b a).pprev from_a sizes a_ne in
        let at_a = absorb-size b a next size next_ne_a a in
        subst (λ (j : ℕ). 0 < (merged j).size) (sym ((==_iff i a).0 e)) (ground arith)
    | inr e ↦
        let old_pos = v.nonempty i (Member-skip ps a ms next qs i m) in
        let at_i = absorb-size b a next size next_ne_a i in ground arith
  ]

  pub merge : Tiling merged n s head xs t other ys (ps ++ (a ∷ qs)) loose'
  merge = record {
    layout = merged_layout;
    start_first = first_kept ps a qs (ms ++ (next ∷ qs)) ∙ v.start_first;
    left = IsList-frame b merged head xs (λ i m. absorb-links b a next size next_ne_a i) v.left;
    right = IsList-frame b merged other ys (λ i m. absorb-links b a next size next_ne_a i) v.right;
    left_in = λ i m.
        let (k, e) = v.left_in i m in
        (kept i k (λ w. (gone i w).0 m), absorb-state b a next size next_ne_a i ∙ e);
    right_in = λ i m.
        let (k, e) = v.right_in i m in
        (kept i k (λ w. (gone i w).1 m), absorb-state b a next size next_ne_a i ∙ e);
    loose_in =
        λ i m. let (k, far) = back i m in let (w, p, q) = v.loose_in i k in (kept i w far, p, q);
    apart = v.apart;
    cover = λ i m. elim (v.cover i (Member-skip ps a ms next qs i m)) [
      | inl k ↦ inl k
      | inr (inl k) ↦ inr (inl k)
      | inr (inr k) ↦ elim (stay i k) [ inl w ↦ absurd (not_kept i w m) | inr w ↦ inr (inr w) ]
    ];
    nonempty = grown;
  }

  pub merge-other_size : (i : ℕ) → i ≢ a → (merged i).size ≡ (b i).size
  merge-other_size i z = let e = absorb-size b a next size next_ne_a i in ground arith

-- A header outside the blocks is cleared.
block_zero-other : (b : Blocks) (c i : ℕ) → i ≢ c → block_zero b c i ≡ b i
unfolding block_zero set_block
block_zero-other b c i z = ground arith

pub zero-Tiling :
    (b : Blocks) (n s head : ℕ) (xs : List ℕ) (t other : ℕ) (ys blocks loose : List ℕ) (c : ℕ)
    (secure : Bool)
    → Tiling b n s head xs t other ys blocks loose
    → ¬ Member c blocks
    → Tiling (zero_if secure b c) n s head xs t other ys blocks loose
zero-Tiling b n s head xs t other ys blocks loose c false v out = v
zero-Tiling b n s head xs t other ys blocks loose c true v out =
    let same : (i : ℕ) → Member i blocks → block_zero b c i ≡ b i =
      λ i m. block_zero-other b c i (ne_of_member blocks i c m out) in
    record {
      layout =
          Layout-frame b (block_zero b c) n 0 blocks
            (λ i m. (
              ap (λ (r : HeapBlock). r.size) (same i m),
              ap (λ (r : HeapBlock). r.pprev) (same i m),
              ap (λ (r : HeapBlock). r.pnext) (same i m),
            ))
            v.layout;
      start_first = v.start_first;
      left =
          IsList-frame b (block_zero b c) head xs
            (λ i m.
              let e = same i (v.left_in i m).0 in
              (ap (λ (r : HeapBlock). r.vprev) e, ap (λ (r : HeapBlock). r.vnext) e))
            v.left;
      right =
          IsList-frame b (block_zero b c) other ys
            (λ i m.
              let e = same i (v.right_in i m).0 in
              (ap (λ (r : HeapBlock). r.vprev) e, ap (λ (r : HeapBlock). r.vnext) e))
            v.right;
      left_in =
          λ i m. let (k, e) = v.left_in i m in (k, ap (λ (r : HeapBlock). r.state) (same i k) ∙ e);
      right_in =
          λ i m. let (k, e) = v.right_in i m in (k, ap (λ (r : HeapBlock). r.state) (same i k) ∙ e);
      loose_in = v.loose_in;
      apart = v.apart;
      cover = v.cover;
      nonempty = λ i m.
          subst (λ (k : ℕ). 0 < k) (sym (ap (λ (r : HeapBlock). r.size) (same i m)))
            (v.nonempty i m);
    }
