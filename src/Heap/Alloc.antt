-- ===== src/Heap/Alloc.antt =====
-- HeapAlloc and HeapAllocArray of src/mem.c.
use deepshield.Prelude.{
  ℕ, zero, suc, ◌+◌, ◌<◌, ◌≡◌, ◌≢◌, ◌⊎◌, inl, inr, refl, sym, List, [], ◌∷◌, length, Member, Option,
  some, arith, ◌==◌, leb, Bool-cases, false,
}
use mathlib.Core.Path.{subst}
use deepshield.Heap.{Heap, split, alloc_from, heap_alloc}
use deepshield.Heap.Lists.{first, Listed}
use deepshield.Heap.Inv.{IsHeap}
use deepshield.Heap.Use.{Allocated, split-Allocated}

-- The two results: no free block is large enough, or one is handed over.
abbrev pub AllocResult : Heap → List ℕ → List ℕ → ℕ → Option (ℕ × Heap) → Type 0
AllocResult h free used n r =
    ((r ≡ some (0, h)) × ((i : ℕ) → Member i free → (h.blocks i).size < n))
    ⊎ ((a : ℕ) × (h' : Heap) × (r ≡ some (h.memory + a, h'))
        × Member a free
        × Allocated h h' used a n)

alloc_from_lem :
    (h : Heap) (blocks free used : List ℕ) (n : ℕ)
    → IsHeap h blocks free used
    → 0 < n
    → (fuel p : ℕ) (rest : List ℕ) (current : ℕ) → Listed h.blocks p rest
    → current ≡ first rest 0
    → ¬ Member 0 rest
    → ((i : ℕ) → Member i rest → Member i free)
    → length rest < fuel
    → ((alloc_from fuel h current n ≡ some (0, h))
        × ((i : ℕ) → Member i rest → (h.blocks i).size < n))
      ⊎ ((a : ℕ) × (h' : Heap) × (alloc_from fuel h current n ≡ some (h.memory + a, h'))
          × Member a free
          × Allocated h h' used a n)
unfolding alloc_from
alloc_from_lem h blocks free used n v pos zero p rest current l e z m f = absurd (omega arith)
alloc_from_lem h blocks free used n v pos (suc fuel) p [] current l e z m f =
    inl (rw e, λ i k. elim k [ ])
alloc_from_lem h blocks free used n v pos (suc fuel) p (x ∷ rest) current (e, d, l) at_x z m f =
    let x_ne : x ≢ 0 = λ k. z (inl (sym k)) in
    let skip : (x == 0) ≡ false = ground arith in
    elim (Bool-cases (leb n (h.blocks x).size)) [
      | inl t ↦ inr (
        x,
        split h x n,
        rw (at_x, skip, t),
        m x (inl refl),
        split-Allocated h blocks free used x n v (m x (inl refl)) pos (ground arith),
      )
      | inr t ↦
          elim (alloc_from_lem h blocks free used n v pos fuel x rest (h.blocks x).vnext l d
            (λ k. z (inr k)) (λ i k. m i (inr k)) (omega arith)) [
              | inl (r, small) ↦ inl (
                rw (at_x, skip, t) r,
                λ i k. elim k [
                  | inl w ↦ subst (λ (j : ℕ). (h.blocks j).size < n) (sym w) (ground arith)
                  | inr w ↦ small i w
                ],
              )
              | inr (a, h', r, i, al) ↦ inr (a, h', rw (at_x, skip, t) r, i, al)
            ]
    ]

-- HeapAlloc of at least one byte, with one round more than there are free blocks: it hands over a
-- free block of at least that size, or NULL if there is none, and then nothing changes.
pub heap_alloc_lem :
    (fuel : ℕ) (h : Heap) (blocks free used : List ℕ) (n : ℕ)
    → IsHeap h blocks free used
    → 0 < n
    → length free < fuel
    → AllocResult h free used n (heap_alloc fuel h n)
unfolding heap_alloc
heap_alloc_lem fuel h blocks free used n v pos f =
    let some_bytes : (n == 0) ≡ false = ground arith in
    rw some_bytes (
      alloc_from_lem h blocks free used n v pos fuel 0 free h.free_list v.frees.listed
        v.frees.head_first v.frees.nonzero (λ i m. m) f)
