-- ===== src/Heap/Tests.antt =====
-- src/mem.c on a heap of 16 pages, as it is set up and with one used block.
use deepshield.Prelude.{
  ℕ, ◌+◌, ◌-◌, ◌%◌, ◌^◌, ◌≤◌, ◌<◌, ◌≡◌, ◌⊎◌, ◌&&◌, inl, refl, none, some, Option, [], ◌∷◌, Member,
  arith, true, leb, ltb, if◌then◌else◌,
}
use deepshield.Heap.{
  Heap, Blocks, empty_block, heap_create, heap_alloc, heap_alloc_aligned, heap_free,
  heap_free_secure, alloc_from, insert_block, use_block, block_link, block_unlink, set_if,
  free_block, coalesce, free_alone, free_with_next, free_into_prev, free_all_three, absorb, split,
  set_block, contains, is_freeable,
}
use deepshield.Heap.Inv.{IsHeap}
use deepshield.Heap.Use.{Allocated, split-Allocated}
use deepshield.Heap.Alloc.{AllocResult, heap_alloc_lem}
use deepshield.Heap.Aligned.{AlignedResult, heap_alloc_aligned_lem}
use deepshield.Heap.Release.{Released, heap_free_lem, heap_free_secure_lem, heap_free-refused}
use deepshield.Heap.Create.{created, created-IsHeap, heap_create_lem}
use deepshield.Heap.Session.{Session, session_lem}

abbrev no_blocks : Blocks
no_blocks i = empty_block

abbrev fill : ℕ → ℕ
fill i = 171

-- A heap as HeapCreate leaves it.
abbrev new_heap : Heap
new_heap = created 1048576 65536 no_blocks fill

create_new_heap : heap_create 1048576 65536 no_blocks fill ≡ some new_heap
unfolding heap_create
create_new_heap = refl

new_heap-IsHeap : IsHeap new_heap (24 ∷ []) (24 ∷ []) []
new_heap-IsHeap = created-IsHeap 1048576 65536 no_blocks fill (omega arith) (omega arith)

new_heap-size : (new_heap.blocks 24).size ≡ 61416
unfolding set_block
new_heap-size = refl

-- A heap with one used block of 100 bytes.
abbrev one_used : Heap
one_used = split new_heap 24 100

one_used-Allocated : Allocated new_heap one_used [] 24 100
one_used-Allocated =
    split-Allocated new_heap (24 ∷ []) (24 ∷ []) [] 24 100 new_heap-IsHeap (inl refl) (omega arith)
      (omega (arith, new_heap-size))

abbrev pointer_of : Option (ℕ × Heap) → ℕ
pointer_of none = 0
pointer_of (some (p, h)) = p

abbrev heap_of_result : Option (ℕ × Heap) → Heap
heap_of_result none = new_heap
heap_of_result (some (p, h)) = h

-- The first allocation takes the start of the region, and the second one what is behind it.
two_allocations : pointer_of (heap_alloc 9 one_used 50) ≡ 1052672 + 148
unfolding heap_alloc alloc_from split insert_block use_block block_link block_unlink set_block
    set_if
two_allocations = refl

-- A block is freed and its space is used again.
space_is_used_again :
    pointer_of (heap_alloc 9 (heap_free one_used (1052672 + 24)) 60000) ≡ 1052672 + 24
unfolding heap_alloc heap_free free_block is_freeable contains coalesce free_alone free_with_next
    free_into_prev free_all_three absorb alloc_from split insert_block use_block block_link
    block_unlink set_block set_if
space_is_used_again = refl

-- Three used blocks, the first two of them freed: the header of the second one, which the first one
-- has taken in, still passes the checks of HeappFree.
stale_header_passes :
    is_freeable
      (heap_free
        (heap_free
          (heap_of_result (heap_alloc 9 (heap_of_result (heap_alloc 9 one_used 50)) 50))
          (1052672 + 24))
        (1052672 + 148))
      148
    ≡ true
unfolding heap_alloc heap_free free_block is_freeable contains coalesce free_alone free_with_next
    free_into_prev free_all_three absorb alloc_from split insert_block use_block block_link
    block_unlink set_block set_if
stale_header_passes = refl

heap_create_lem_example :
    ((65536 < 65536) × (heap_create 1048576 65536 no_blocks fill ≡ none))
    ⊎ ((h : Heap) × (heap_create 1048576 65536 no_blocks fill ≡ some h)
        × IsHeap h (24 ∷ []) (24 ∷ []) []
        × (h.memory ≡ 1048576 + 4096)
        × (h.size ≡ 65536 - 4096))
heap_create_lem_example = heap_create_lem 1048576 65536 no_blocks fill (omega arith)

heap_alloc_lem_example : AllocResult new_heap (24 ∷ []) [] 100 (heap_alloc 2 new_heap 100)
heap_alloc_lem_example =
    heap_alloc_lem 2 new_heap (24 ∷ []) (24 ∷ []) [] 100 new_heap-IsHeap (omega arith) (omega arith)

heap_alloc_aligned_lem_example :
    AlignedResult new_heap [] 4096 4096 (heap_alloc_aligned 2 new_heap 4096 4096)
heap_alloc_aligned_lem_example =
    heap_alloc_aligned_lem 2 new_heap (24 ∷ []) (24 ∷ []) [] 4096 4096 new_heap-IsHeap (omega arith)
      (omega arith) (omega arith) refl (omega arith)

heap_free_lem_example : Released one_used (heap_free one_used (one_used.memory + 24)) []
heap_free_lem_example =
    heap_free_lem one_used one_used-Allocated.blocks one_used-Allocated.free [] 24 []
      one_used-Allocated.valid

heap_free_secure_lem_example :
    (h' : Heap) × (heap_free_secure 2 one_used (one_used.memory + 24 + 50) ≡ some h')
    × Released one_used h' []
    × ((i : ℕ)
        → h'.bytes i
          ≡ (if leb 24 i && ltb i (24 + (one_used.blocks 24).size) then 0 else one_used.bytes i))
heap_free_secure_lem_example =
    heap_free_secure_lem one_used one_used-Allocated.blocks one_used-Allocated.free [] 24 [] 50 2
      one_used-Allocated.valid (omega (arith, one_used-Allocated.enough)) (omega arith)

free_at_24 : (new_heap.blocks ((1052672 + 24 - new_heap.memory) % 2 ^ 32)).state ≡ 0
unfolding set_block
free_at_24 = refl

-- The block at offset 24 is free.
heap_free-refused_example : heap_free new_heap (1052672 + 24) ≡ new_heap
heap_free-refused_example =
    heap_free-refused new_heap (1052672 + 24)
      (λ l. let used = l.used in absurd (omega (arith, used, free_at_24)))

session_of_one : Session new_heap []
session_of_one = Session.created 1048576 65536 no_blocks fill (omega arith) create_new_heap

-- A session of a set-up and an allocation.
session_of_two : Session one_used (24 ∷ [])
unfolding heap_alloc alloc_from set_block
session_of_two = Session.alloc session_of_one 100 24 (omega arith) refl

session_lem_example :
    ((a : ℕ)
      → Member a (24 ∷ [])
      → (24 ≤ a) × (0 < (one_used.blocks a).size) × (a + (one_used.blocks a).size ≤ one_used.size))
    × ((a c : ℕ)
        → Member a (24 ∷ [])
        → Member c (24 ∷ [])
        → a < c
        → a + (one_used.blocks a).size + 24 ≤ c)
session_lem_example = session_lem session_of_two
