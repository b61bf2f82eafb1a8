-- ===== src/Heap/Inv.antt =====
-- The invariant of the heap of src/mem.c.
use deepshield.Prelude.{ℕ, ◌+◌, ◌≤◌, ◌<◌, ◌^◌, ◌≡◌, ◌⊎◌, inl, inr, List, [], Member, arith}
use deepshield.Heap.{Heap, block_free, block_used, start}
use deepshield.Heap.Lists.{first}
use deepshield.Heap.Chains.{IsList}
use deepshield.Heap.Layout.{Layout, Layout-apart, Layout-end, Layout-start}
use deepshield.Heap.Tiling.{Tiling}

-- The blocks `blocks`, in the order of their addresses, tile the region. The list of the free ones
-- holds `free` and that of the used ones `used`, each block is in the one that its state says, and
-- none is empty.
pub record IsHeap (h : Heap) (blocks free used : List ℕ) : Type 0 where
  pub layout : Layout h.blocks h.size 0 blocks
  pub start_first : first blocks 0 ≡ start
  pub frees : IsList h.blocks h.free_list free
  pub useds : IsList h.blocks h.used_list used
  pub free_in : (i : ℕ) → Member i free → Member i blocks × ((h.blocks i).state ≡ block_free)
  pub used_in : (i : ℕ) → Member i used → Member i blocks × ((h.blocks i).state ≡ block_used)
  pub cover : (i : ℕ) → Member i blocks → Member i free ⊎ Member i used
  pub nonempty : (i : ℕ) → Member i blocks → 0 < (h.blocks i).size
  pub memory_ne : 0 < h.memory
  pub fits : h.size < 2 ^ 31

module _ (h : Heap) (blocks free used : List ℕ) (v : IsHeap h blocks free used) where
  -- Every block lies in the region, behind its header.
  pub block_bounds : (i : ℕ) → Member i blocks → (24 ≤ i) × (i + (h.blocks i).size ≤ h.size)
  block_bounds i m = (
    Layout-start h.blocks h.size 0 blocks i v.layout v.start_first m,
    Layout-end h.blocks h.size 0 blocks i v.layout m,
  )

  pub not_both : (i : ℕ) → Member i free → ¬ Member i used
  not_both i m k = let f = (v.free_in i m).1 in let u = (v.used_in i k).1 in absurd (omega arith)

  -- No block starts inside another one.
  pub not_inside :
      (a x : ℕ) → Member a blocks → a < x → x < a + (h.blocks a).size + 24 → ¬ Member x blocks
  not_inside a x m lt gt k =
      omega (arith, Layout-apart h.blocks h.size 0 blocks a x v.layout m k lt)

  -- The heap between two operations, without a loose block.
  pub tiled :
      Tiling h.blocks h.size block_free h.free_list free block_used h.used_list used blocks []
  tiled = record {
    layout = v.layout;
    start_first = v.start_first;
    left = v.frees;
    right = v.useds;
    left_in = v.free_in;
    right_in = v.used_in;
    loose_in = λ i m. elim m [ ];
    apart = not_both;
    cover = λ i m. elim (v.cover i m) [ inl k ↦ inl k | inr k ↦ inr (inl k) ];
    nonempty = v.nonempty;
  }

pub heap_of :
    (h : Heap) (blocks free used : List ℕ)
    → Tiling h.blocks h.size block_free h.free_list free block_used h.used_list used blocks []
    → 0 < h.memory
    → h.size < 2 ^ 31
    → IsHeap h blocks free used
heap_of h blocks free used v memory_ne fits = record {
  layout = v.layout;
  start_first = v.start_first;
  frees = v.left;
  useds = v.right;
  free_in = v.left_in;
  used_in = v.right_in;
  cover =
      λ i m. elim (v.cover i m) [ inl k ↦ inl k | inr (inl k) ↦ inr k | inr (inr k) ↦ elim k [ ] ];
  nonempty = v.nonempty;
  memory_ne = memory_ne;
  fits = fits;
}
