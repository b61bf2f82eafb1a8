-- ===== src/Heap/Use.antt =====
-- A free block of the heap of src/mem.c becomes a used one: HeappSplit as a whole.
use deepshield.Prelude.{
  ℕ, ◌+◌, ◌-◌, ◌≤◌, ◌<◌, ◌≡◌, ◌∙◌, inl, inr, refl, List, [], ◌∷◌, ◌++◌, Member, arith, leb,
  Bool-cases, Member-split,
}
use mathlib.Core.Path.{subst}
use deepshield.Heap.{
  set_block, Heap, block_free, block_used, block_link, block_unlink, insert_block, use_block, split,
}
use deepshield.Heap.Inv.{IsHeap, not_both}
use deepshield.Heap.Fields.{insert-rest, use-rest, use-tile}
use deepshield.Heap.Tiling.{detach, attach, swap}
use deepshield.Heap.Inv.{tiled, heap_of}
use deepshield.Heap.Split.{insert-IsHeap, insert-other_size, insert-left_size}

-- A free block leaves its list and enters the other one.
use-IsHeap :
    (h : Heap) (blocks fl : List ℕ) (a : ℕ) (fr used : List ℕ)
    → IsHeap h blocks (fl ++ (a ∷ fr)) used
    → IsHeap (use_block h a) blocks (fl ++ fr) (a ∷ used)
unfolding use_block
use-IsHeap h blocks fl a fr used v =
    let b1 = (block_unlink h.blocks h.free_list a).0 in
    let free' = (block_unlink h.blocks h.free_list a).1 in
    let loose =
      detach h.blocks h.size block_free h.free_list fl a fr block_used h.used_list used blocks []
        (tiled h blocks (fl ++ (a ∷ fr)) used v) in
    let swapped =
      swap b1 h.size block_free free' (fl ++ fr) block_used h.used_list used blocks (a ∷ [])
        loose in
    let joined =
      attach b1 h.size block_used h.used_list used block_free free' (fl ++ fr) blocks a swapped in
    let out = block_link (set_block b1 a (record (b1 a) { state = block_used })) h.used_list a in
    heap_of (use_block h a) blocks (fl ++ fr) (a ∷ used)
      (swap out.0 h.size block_used out.1 (a ∷ used) block_free free' (fl ++ fr) blocks [] joined)
      v.memory_ne v.fits

-- What an allocation makes of a heap: the block `a` of at least `n` bytes is used, not much larger,
-- and the used blocks of before are there with the same sizes.
pub record Allocated (h h' : Heap) (used : List ℕ) (a n : ℕ) : Type 0 where
  pub blocks : List ℕ
  pub free : List ℕ
  pub valid : IsHeap h' blocks free (a ∷ used)
  pub enough : n ≤ (h'.blocks a).size
  pub tight : (h'.blocks a).size < n + 40
  pub others : (i : ℕ) → Member i used → (h'.blocks i).size ≡ (h.blocks i).size
  pub same_region : (h'.memory ≡ h.memory) × (h'.size ≡ h.size)

whole :
    (h : Heap) (blocks free used : List ℕ) (a n : ℕ)
    → IsHeap h blocks free used
    → Member a free
    → n ≤ (h.blocks a).size
    → (h.blocks a).size < n + 40
    → Allocated h (use_block h a) used a n
whole h blocks free used a n v m le lt =
    let (fl, fr, e) = Member-split a free m in
    let (sz, mem) = use-rest h a in
    record {
      blocks = blocks;
      free = fl ++ fr;
      valid = use-IsHeap h blocks fl a fr used (subst (λ (t : List ℕ). IsHeap h blocks t used) e v);
      enough = omega (arith, (use-tile h a a).0);
      tight = omega (arith, (use-tile h a a).0);
      others = λ i k. (use-tile h a i).0;
      same_region = (mem, sz);
    }

cut :
    (h : Heap) (blocks free used : List ℕ) (a n : ℕ)
    → IsHeap h blocks free used
    → Member a free
    → 0 < n
    → n + 40 ≤ (h.blocks a).size
    → Allocated h
        (use_block (insert_block h a (a + n + 24) ((h.blocks a).size - n - 24) n) a)
        used
        a
        n
cut h blocks free used a n v m pos le =
    let (xs, ys, e) = Member-split a blocks (v.free_in a m).0 in
    let x = a + n + 24 in
    let size = (h.blocks a).size - n - 24 in
    let w = subst (λ (t : List ℕ). IsHeap h t free used) e v in
    let next =
      insert-IsHeap h xs a ys free used x size n w m refl (omega arith) pos (omega arith) in
    let h' = insert_block h a x size n in
    let at_a =
      insert-left_size h xs a ys free used x size n w m refl (omega arith) pos (omega arith) in
    let out =
      whole h' (xs ++ (a ∷ x ∷ ys)) (x ∷ free) used a n next (inr m) (omega arith) (omega arith) in
    let (sz, used_same, mem) = insert-rest h a x size n in
    record {
      blocks = out.blocks;
      free = out.free;
      valid = out.valid;
      enough = out.enough;
      tight = out.tight;
      others = λ i k.
          out.others i k
          ∙ insert-other_size h xs a ys free used x size n w m refl (omega arith) pos (omega arith)
              i (w.used_in i k).0
              (λ t. not_both h blocks free used v a m (subst (λ (j : ℕ). Member j used) t k));
      same_region = (out.same_region.0 ∙ mem, out.same_region.1 ∙ sz);
    }

-- HeappSplit on a free block that is large enough.
pub split-Allocated :
    (h : Heap) (blocks free used : List ℕ) (a n : ℕ)
    → IsHeap h blocks free used
    → Member a free
    → 0 < n
    → n ≤ (h.blocks a).size
    → Allocated h (split h a n) used a n
unfolding split
split-Allocated h blocks free used a n v m pos le =
    elim (Bool-cases (leb (n + 24 + 16) (h.blocks a).size)) [
      | inl t ↦ rw t (cut h blocks free used a n v m pos (ground arith))
      | inr t ↦ rw t (whole h blocks free used a n v m le (ground arith))
    ]
