-- ===== src/Heap/Aligned.antt =====
-- HeapAllocAligned of src/mem.c.
use deepshield.Prelude.{
  ℕ, zero, suc, ◌+◌, ◌-◌, ◌*◌, ◌/◌, ◌%◌, ◌≤◌, ◌<◌, ◌^◌, ◌≡◌, ◌≢◌, ◌∙◌, ◌⊎◌, inl, inr, refl, sym, ap,
  List, [], ◌∷◌, ◌++◌, length, Member, Option, some, arith, ◌==◌, leb, ltb, Bool-cases, leb→le,
  true, false, append_assoc, add32, mul32, Member-split,
}
use Prim.Native.Nat.{bit_and}
use native.Mathlib.Nat.{div-mul-le_self, lt-div-mul-add}
use mathlib.Core.Path.{subst}
use deepshield.Heap.{
  Heap, insert_block, shift_block, split, align, widen, aligned_offset, alloc_aligned_from,
  heap_alloc_aligned,
}
use deepshield.Heap.Lists.{first, Listed}
use deepshield.Heap.Inv.{IsHeap, block_bounds}
use deepshield.Heap.Use.{split-Allocated}
use deepshield.Heap.Layout.{Layout-pprev}
use deepshield.Heap.Split.{insert-IsHeap, insert-new_size, insert-other_size}
use deepshield.Heap.Fields.{insert-rest}
use deepshield.Heap.Inv.{not_both}
use deepshield.Heap.Moved.{shift-IsHeap, shift-new_size, shift-other_size}

module _ (c alignment : ℕ) (pos : 0 < alignment) (small : alignment ≤ 2 ^ 30)
    (low : c < 2 ^ 31) where
  -- The multiple of the alignment behind `c`, without a wrap-around.
  next_multiple :
      (mul32 (add32 (c / alignment) 1) alignment ≡ (c / alignment + 1) * alignment)
      × (c < (c / alignment + 1) * alignment)
      × ((c / alignment + 1) * alignment ≤ c + alignment)
  next_multiple =
      let le = div-mul-le_self c alignment in
      let lt = lt-div-mul-add {a = c} pos in
      let e : (c / alignment + 1) * alignment ≡ c / alignment * alignment + alignment =
        omega arith in
      let q : c / alignment ≤ c = div_le in
      let no_wrap : (c / alignment + 1) % 2 ^ 32 ≡ c / alignment + 1 = omega arith in
      (
        ap (λ (t : ℕ). t * alignment % 2 ^ 32) no_wrap
            ∙ mod_small ((c / alignment + 1) * alignment) (omega arith),
        omega arith,
        omega arith,
      )
    where
      div_le : c / alignment ≤ c
      div_le = omega (arith, native.Mathlib.Nat.div-le_self c alignment)

      mod_small : (t : ℕ) → t < 2 ^ 32 → t % 2 ^ 32 ≡ t
      mod_small t h = omega arith

  widen-next :
      (fuel gap : ℕ)
      → ltb gap 40 ≡ true
      → (gap + alignment) % 2 ^ 32 ≡ gap + alignment
      → (c + gap + alignment) % 2 ^ 32 ≡ c + (gap + alignment)
      → widen (suc fuel) gap (c + gap) alignment
        ≡ widen fuel (gap + alignment) (c + (gap + alignment)) alignment
  unfolding widen
  widen-next fuel gap t w z = rw (t, w, z) refl

  -- The loop that widens the gap ends with a gap that has room for a block.
  widen_lem :
      (fuel gap q : ℕ)
      → c + gap ≡ q * alignment
      → gap ≤ 2 ^ 30 + 40
      → 40 ≤ fuel + gap
      → (gap' : ℕ) × (q' : ℕ) × (widen fuel gap (c + gap) alignment ≡ (gap', c + gap'))
        × (c + gap' ≡ q' * alignment)
        × (40 ≤ gap')
        × (gap ≤ gap')
        × (gap' ≤ 2 ^ 30 + 40)
  unfolding widen
  widen_lem zero gap q e hi enough = (gap, q, refl, e, omega arith, omega arith, hi)
  widen_lem (suc fuel) gap q e hi enough = elim (Bool-cases (ltb gap 40)) [
    | inr t ↦ (gap, q, rw t refl, e, ground arith, omega arith, hi)
    | inl t ↦
        let lt : gap < 40 = ground arith in
        let w : (gap + alignment) % 2 ^ 32 ≡ gap + alignment = omega arith in
        let z : (c + gap + alignment) % 2 ^ 32 ≡ c + (gap + alignment) = omega arith in
        let (gap', q', r, e', a, b, d) =
          widen_lem fuel (gap + alignment) (q + 1) (omega arith) (omega arith) (omega arith) in
        (gap', q', widen-next fuel gap t w z ∙ r, e', a, omega arith, d)
  ]

-- A heap with a free block `x` of at least `n` bytes, in which no used block has shrunk.
record Placed (h h' : Heap) (used : List ℕ) (x n : ℕ) : Type 0 where
  pub blocks : List ℕ
  pub free : List ℕ
  pub valid : IsHeap h' blocks free used
  pub is_there : Member x free
  pub enough : n ≤ (h'.blocks x).size
  pub grown : (i : ℕ) → Member i used → (h.blocks i).size ≤ (h'.blocks i).size
  pub same_region : (h'.memory ≡ h.memory) × (h'.size ≡ h.size)

module _ (h : Heap) (blocks free used : List ℕ) (a gap n : ℕ) (v : IsHeap h blocks free used)
    (was_free : Member a free) (pos : 0 < n) (gap_pos : 0 < gap)
    (room : gap + n ≤ (h.blocks a).size) where
  a_in : Member a blocks
  a_in = (v.free_in a was_free).0

  with_new_block :
      40 ≤ gap
      → Placed h (insert_block h a (a + gap) ((h.blocks a).size - gap) (gap - 24)) used (a + gap) n
  with_new_block wide =
      let (xs, ys, e) = Member-split a blocks a_in in
      let size = (h.blocks a).size - gap in
      let left = gap - 24 in
      let w = subst (λ (t : List ℕ). IsHeap h t free used) e v in
      let next =
        insert-IsHeap h xs a ys free used (a + gap) size left w was_free (omega arith) (omega arith)
          (omega arith) (omega arith) in
      let at_x =
        insert-new_size h xs a ys free used (a + gap) size left w was_free (omega arith)
          (omega arith) (omega arith) (omega arith) in
      let (sz, _, mem) = insert-rest h a (a + gap) size left in
      record {
        blocks = xs ++ (a ∷ (a + gap) ∷ ys);
        free = (a + gap) ∷ free;
        valid = next;
        is_there = inl refl;
        enough = omega arith;
        grown = λ i m.
            let keep =
              insert-other_size h xs a ys free used (a + gap) size left w was_free (omega arith)
                (omega arith) (omega arith) (omega arith) i (w.used_in i m).0
                (λ t.
                  not_both h blocks free used v a was_free
                    (subst (λ (j : ℕ). Member j used) t m)) in
            omega arith;
        same_region = (mem, sz);
      }

  shift-region :
      ((shift_block h a (a + gap) gap).memory ≡ h.memory)
      × ((shift_block h a (a + gap) gap).size ≡ h.size)
  unfolding shift_block
  shift-region = (refl, refl)

  moved_up : (h.blocks a).pprev ≢ 0 → Placed h (shift_block h a (a + gap) gap) used (a + gap) n
  moved_up has_prev =
      let (xs, qs, e) = Member-split a blocks a_in in
      let (fl, fr, f) = Member-split a free was_free in
      let w =
        subst (λ (t : List ℕ). IsHeap h t (fl ++ (a ∷ fr)) used) e
          (subst (λ (t : List ℕ). IsHeap h blocks t used) f v) in
      elim (Layout-pprev h.blocks h.size 0 xs a qs w.layout) [
        | inl (_, z) ↦ absurd (has_prev z)
        | inr (ps, g) ↦
            let prev = (h.blocks a).pprev in
            let same : xs ++ (a ∷ qs) ≡ ps ++ (prev ∷ a ∷ qs) =
              ap (λ (t : List ℕ). t ++ (a ∷ qs)) g ∙ append_assoc ps (prev ∷ []) (a ∷ qs) in
            let u = subst (λ (t : List ℕ). IsHeap h t (fl ++ (a ∷ fr)) used) same w in
            let at_x =
              shift-new_size h ps prev a qs fl fr used (a + gap) gap u refl refl gap_pos
                (omega arith) in
            record {
              blocks = ps ++ (prev ∷ (a + gap) ∷ qs);
              free = (a + gap) ∷ (fl ++ fr);
              valid =
                  shift-IsHeap h ps prev a qs fl fr used (a + gap) gap u refl refl gap_pos
                    (omega arith);
              is_there = inl refl;
              enough = omega arith;
              grown = λ i m.
                  shift-other_size h ps prev a qs fl fr used (a + gap) gap u refl refl gap_pos
                    (omega arith) i m;
              same_region = shift-region;
            }
      ]

  -- HeappAlign on a free block with room for the gap and `n` bytes.
  align-Placed :
      ((h.blocks a).pprev ≢ 0) ⊎ (40 ≤ gap) → Placed h (align h a (a + gap)) used (a + gap) n
  unfolding align
  align-Placed way =
      let g : a + gap - a ≡ gap = omega arith in
      elim (Bool-cases (leb 40 gap)) [
        | inl t ↦ rw (g, t) (with_new_block (ground arith))
        | inr t ↦ rw (g, t) (moved_up (elim way [ inl p ↦ p | inr w ↦ absurd (ground arith) ]))
      ]

module _ (h : Heap) (a alignment top gap : ℕ) (e : mul32 (add32 (a / alignment) 1) alignment ≡ top)
    (sub : (top + (2 ^ 32 - a % 2 ^ 32)) % 2 ^ 32 ≡ gap) (back : top ≡ a + gap) where
  offset-first :
      ((h.blocks a).pprev == 0) ≡ true
      → aligned_offset h a alignment ≡ widen 40 gap (a + gap) alignment
  unfolding aligned_offset
  offset-first t = rw (e, t, sub, back) refl

  offset-later : ((h.blocks a).pprev == 0) ≡ false → aligned_offset h a alignment ≡ (gap, a + gap)
  unfolding aligned_offset
  offset-later t = rw (e, t, sub, back) refl

-- The offset that the code aims at: a multiple of the alignment behind the block's own.
offset_lem :
    (h : Heap) (blocks free used : List ℕ) (a alignment : ℕ)
    → IsHeap h blocks free used
    → Member a free
    → 0 < alignment
    → alignment ≤ 2 ^ 30
    → (gap : ℕ) × (q : ℕ) × (aligned_offset h a alignment ≡ (gap, a + gap))
      × (a + gap ≡ q * alignment)
      × (0 < gap)
      × (gap ≤ 2 ^ 30 + 40)
      × (((h.blocks a).pprev ≢ 0) ⊎ (40 ≤ gap))
offset_lem h blocks free used a alignment v m pos small =
    let (low, high) = block_bounds h blocks free used v a (v.free_in a m).0 in
    let fits = v.fits in
    let a_lt : a < 2 ^ 31 = omega arith in
    let (e, gt, le) = next_multiple a alignment pos small a_lt in
    let top = (a / alignment + 1) * alignment in
    let gap = top - a in
    let sub : (top + (2 ^ 32 - a % 2 ^ 32)) % 2 ^ 32 ≡ gap = omega arith in
    let back : top ≡ a + gap = omega arith in
    elim (Bool-cases ((h.blocks a).pprev == 0)) [
      | inl t ↦
          let (gap', q', r, f, wide, bigger, hi) =
            widen_lem a alignment pos small a_lt 40 gap (a / alignment + 1) (sym back) (omega arith)
              (omega arith) in
          (
            gap',
            q',
            offset-first h a alignment top gap e sub back t ∙ r,
            f,
            omega arith,
            hi,
            inr wide,
          )
      | inr t ↦ (
        gap,
        a / alignment + 1,
        offset-later h a alignment top gap e sub back t,
        sym back,
        omega arith,
        omega arith,
        inl (ground arith),
      )
    ]

-- What HeapAllocAligned makes of a heap when it hands over the block `x`.
pub record AllocatedAt (h h' : Heap) (used : List ℕ) (x n : ℕ) : Type 0 where
  pub blocks : List ℕ
  pub free : List ℕ
  pub valid : IsHeap h' blocks free (x ∷ used)
  pub enough : n ≤ (h'.blocks x).size
  pub grown : (i : ℕ) → Member i used → (h.blocks i).size ≤ (h'.blocks i).size
  pub same_region : (h'.memory ≡ h.memory) × (h'.size ≡ h.size)

placed :
    (h h' : Heap) (used : List ℕ) (x n : ℕ)
    → 0 < n
    → Placed h h' used x n
    → AllocatedAt h (split h' x n) used x n
placed h h' used x n pos p =
    let out = split-Allocated h' p.blocks p.free used x n p.valid p.is_there pos p.enough in
    record {
      blocks = out.blocks;
      free = out.free;
      valid = out.valid;
      enough = out.enough;
      grown = λ i m. let g = p.grown i m in let o = out.others i m in omega arith;
      same_region = (out.same_region.0 ∙ p.same_region.0, out.same_region.1 ∙ p.same_region.1);
    }

abbrev pub AlignedResult : Heap → List ℕ → ℕ → ℕ → Option (ℕ × Heap) → Type 0
AlignedResult h used n alignment r =
    (r ≡ some (0, h))
    ⊎ ((x : ℕ) × (q : ℕ) × (h' : Heap) × (r ≡ some (h.memory + x, h'))
        × (x ≡ q * alignment)
        × AllocatedAt h h' used x n)

not_nil : (x : ℕ) → x ≢ 0 → (x == 0) ≡ false
not_nil x n = ground arith

no_more :
    (fuel : ℕ) (h : Heap) (current n alignment : ℕ)
    → current ≡ 0
    → alloc_aligned_from (suc fuel) h current n alignment ≡ some (0, h)
unfolding alloc_aligned_from
no_more fuel h current n alignment e = rw e refl

module _ (fuel : ℕ) (h : Heap) (x n alignment : ℕ) (there : (x == 0) ≡ false) where
  too_small :
      leb n (h.blocks x).size ≡ false
      → alloc_aligned_from (suc fuel) h x n alignment
        ≡ alloc_aligned_from fuel h (h.blocks x).vnext n alignment
  unfolding alloc_aligned_from
  too_small t = rw (there, t) refl

  module _ (gap aligned : ℕ) (offset : aligned_offset h x alignment ≡ (gap, aligned))
      (large : leb n (h.blocks x).size ≡ true)
      (moves : (mul32 (add32 (x / alignment) 1) alignment == x) ≡ false) where
    no_room :
        leb (add32 gap n) (h.blocks x).size ≡ false
        → alloc_aligned_from (suc fuel) h x n alignment
          ≡ alloc_aligned_from fuel h (h.blocks x).vnext n alignment
    unfolding alloc_aligned_from
    no_room t = rw (there, large, moves, offset) (rw t refl)

    has_room :
        leb (add32 gap n) (h.blocks x).size ≡ true
        → alloc_aligned_from (suc fuel) h x n alignment
          ≡ some (h.memory + aligned, split (align h x aligned) aligned n)
    unfolding alloc_aligned_from
    has_room t = rw (there, large, moves, offset) (rw t refl)

-- "If current was already aligned": the offset aimed at is never the block's own.
never_aligned :
    (c alignment : ℕ)
    → 0 < alignment
    → alignment ≤ 2 ^ 30
    → c < 2 ^ 31
    → (mul32 (add32 (c / alignment) 1) alignment == c) ≡ false
never_aligned c alignment pos small low =
    let (e, gt, _) = next_multiple c alignment pos small low in
    rw e (if_gt c ((c / alignment + 1) * alignment) gt)
  where
    if_gt : (a b : ℕ) → a < b → (b == a) ≡ false
    if_gt a b h = ground arith

alloc_aligned_from_lem :
    (h : Heap) (blocks free used : List ℕ) (n alignment : ℕ)
    → IsHeap h blocks free used
    → 0 < n
    → 0 < alignment
    → alignment ≤ 2 ^ 30
    → (fuel p : ℕ) (rest : List ℕ) (current : ℕ) → Listed h.blocks p rest
    → current ≡ first rest 0
    → ¬ Member 0 rest
    → ((i : ℕ) → Member i rest → Member i free)
    → length rest < fuel
    → AlignedResult h used n alignment (alloc_aligned_from fuel h current n alignment)
alloc_aligned_from_lem h blocks free used n al v pos ap_ small zero p rest current l e z m f =
    absurd (omega arith)
alloc_aligned_from_lem h blocks free used n al v pos ap_ small (suc fuel) p [] current l e z m f =
    inl (no_more fuel h current n al e)
alloc_aligned_from_lem h blocks free used n al v pos ap_ small (suc fuel) p (x ∷ rest) current
      (e, d, l) at_x z m f =
    let x_free = m x (inl refl) in
    let (low, high) = block_bounds h blocks free used v x (v.free_in x x_free).0 in
    let fits = v.fits in
    let x_lt : x < 2 ^ 31 = omega arith in
    let there = not_nil x (λ k. z (inl (sym k))) in
    let later =
      alloc_aligned_from_lem h blocks free used n al v pos ap_ small fuel x rest (h.blocks x).vnext
        l d (λ k. z (inr k)) (λ i k. m i (inr k)) (omega arith) in
    let (gap, q, offset, multiple, gap_pos, gap_hi, way) =
      offset_lem h blocks free used x al v x_free ap_ small in
    let moves = never_aligned x al ap_ small x_lt in
    subst (λ (k : ℕ). AlignedResult h used n al (alloc_aligned_from (suc fuel) h k n al)) (sym at_x)
      (elim (Bool-cases (leb n (h.blocks x).size)) [
        | inr t ↦
            subst (λ (r : Option (ℕ × Heap)). AlignedResult h used n al r)
              (sym (too_small fuel h x n al there t)) later
        | inl t ↦
            let n_le = leb→le n (h.blocks x).size t in
            let no_wrap : (gap + n) % 2 ^ 32 ≡ gap + n = omega arith in
            elim (Bool-cases (leb (add32 gap n) (h.blocks x).size)) [
              | inr u ↦
                  subst (λ (r : Option (ℕ × Heap)). AlignedResult h used n al r)
                    (sym (no_room fuel h x n al there gap (x + gap) offset t moves u)) later
              | inl u ↦ inr (
                x + gap,
                q,
                split (align h x (x + gap)) (x + gap) n,
                has_room fuel h x n al there gap (x + gap) offset t moves u,
                multiple,
                placed h (align h x (x + gap)) used (x + gap) n pos (
                    align-Placed h blocks free used x gap n v x_free pos gap_pos
                      (subst (λ (k : ℕ). k ≤ (h.blocks x).size) no_wrap
                        (leb→le (add32 gap n) (h.blocks x).size u))
                      way),
              )
            ]
      ])

-- HeapAllocAligned of at least one byte with a power of two: NULL, and nothing changes, or a block
-- of at least that size at a multiple of the alignment.
pub heap_alloc_aligned_lem :
    (fuel : ℕ) (h : Heap) (blocks free used : List ℕ) (n alignment : ℕ)
    → IsHeap h blocks free used
    → 0 < n
    → 0 < alignment
    → alignment ≤ 2 ^ 30
    → bit_and alignment (alignment - 1) ≡ 0
    → length free < fuel
    → AlignedResult h used n alignment (heap_alloc_aligned fuel h n alignment)
unfolding heap_alloc_aligned
heap_alloc_aligned_lem fuel h blocks free used n al v pos ap_ small power f =
    let some_bytes = not_nil n (λ e. omega arith) in
    let some_alignment = not_nil al (λ e. omega arith) in
    rw (some_bytes, some_alignment, power)
      (alloc_aligned_from_lem h blocks free used n al v pos ap_ small fuel 0 free h.free_list
        v.frees.listed v.frees.head_first v.frees.nonzero (λ i m. m) f)
