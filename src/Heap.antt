-- ===== src/Heap.antt =====
-- src/mem.c: the heap of the hypervisor, blocks that tile a region and two doubly linked lists of
-- the free and the used ones. A block is named by the offset of its first byte, behind its header.
pub mod Lists
pub mod Chains
pub mod Layout
pub mod Tiling
pub mod Inv
pub mod Fields
pub mod Split
pub mod Use
pub mod Alloc
pub mod Absorb
pub mod Merge
pub mod Cases
pub mod Effects
pub mod Coalesce
pub mod Free
pub mod Release
pub mod Shift
pub mod Moved
pub mod Aligned
pub mod Create
pub mod Session
mod Tests
use Prim.Native.Nat.{bit_and}
use deepshield.Prelude.{
  ℕ, zero, suc, ◌+◌, ◌-◌, ◌*◌, ◌/◌, ◌%◌, Bool, true, false, not, ◌&&◌, ◌||◌, Option, none, some,
  ltb, leb, ◌==◌, if◌then◌else◌, add32, sub32, mul32, word32,
}

-- HEAP_BLOCK
pub record HeapBlock : Type 0 where
  pub state : ℕ
  pub size : ℕ
  pub pprev : ℕ
  pub pnext : ℕ
  pub vprev : ℕ
  pub vnext : ℕ

-- The headers by the offsets of their blocks: BLOCK(X).
abbrev pub Blocks : Type 0
Blocks = ℕ → HeapBlock

-- HEAP, with the headers and the bytes of the blocks in the region that `memory` points to.
pub record Heap : Type 0 where
  pub memory : ℕ
  pub size : ℕ
  pub free_list : ℕ
  pub used_list : ℕ
  pub blocks : Blocks
  pub bytes : ℕ → ℕ

-- HEAP_BLOCK_FREE and HEAP_BLOCK_USED
abbrev pub block_free : ℕ
block_free = 0

abbrev pub block_used : ℕ
block_used = 1

-- sizeof(HEAP_BLOCK): six packed UINT32.
abbrev pub sizeof_block : ℕ
sizeof_block = 24

abbrev pub minimal_free_block_size : ℕ
minimal_free_block_size = 16

abbrev pub page_size : ℕ
page_size = 4096

-- START
abbrev pub start : ℕ
start = sizeof_block

abbrev pub empty_block : HeapBlock
empty_block = record { state = 0; size = 0; pprev = 0; pnext = 0; vprev = 0; vnext = 0 }

-- A store to the header of one block.
pub set_block : Blocks → ℕ → HeapBlock → Blocks
set_block b a v i = if i == a then v else b i

-- A store that the code makes only at a block that is there.
pub set_if : ℕ → Blocks → HeapBlock → Blocks
set_if a b v = if not (a == 0) then set_block b a v else b

-- HeappBlockUnlink: the headers and the head.
pub block_unlink : Blocks → ℕ → ℕ → Blocks × ℕ
block_unlink b head a =
    let next = (b a).vnext in
    let b1 = set_if next b (record (b next) { vprev = (b a).vprev }) in
    let prev = (b1 a).vprev in
    let b2 = set_if prev b1 (record (b1 prev) { vnext = (b1 a).vnext }) in
    (b2, if head == a then (b2 a).vnext else head)

-- HeappBlockLink: the headers and the head.
pub block_link : Blocks → ℕ → ℕ → Blocks × ℕ
block_link b head a =
    let b1 = set_block b a (record (b a) { vnext = head; vprev = 0 }) in
    (set_if head b1 (record (b1 head) { vprev = a }), a)

-- HeappBlockZero
pub block_zero : Blocks → ℕ → Blocks
block_zero b a = set_block b a empty_block

-- The new block of HeappSplit and of the first branch of HeappAlign: `x` becomes a free block of
-- `size` bytes behind `a`, whose size becomes `left`.
pub insert_block : Heap → (a x size left : ℕ) → Heap
insert_block h a x size left =
    let b = h.blocks in
    let b1 =
      set_block b x
        (record (b x) { state = block_free; size = size; pprev = a; pnext = (b a).pnext }) in
    let (b2, free) = block_link b1 h.free_list x in
    let next = (b2 a).pnext in
    let b3 = set_if next b2 (record (b2 next) { pprev = x }) in
    record h {
      free_list = free;
      blocks = set_block b3 a (record (b3 a) { pnext = x; size = left });
    }

-- The end of HeappSplit: a free block becomes a used one.
pub use_block : Heap → ℕ → Heap
use_block h a =
    let (b1, free) = block_unlink h.blocks h.free_list a in
    let (b3, used) =
      block_link (set_block b1 a (record (b1 a) { state = block_used })) h.used_list a in
    record h { free_list = free; used_list = used; blocks = b3 }

-- HeappSplit. The sum of the test is of type SIZE_T.
pub split : Heap → ℕ → ℕ → Heap
split h a nbytes =
    let size = (h.blocks a).size in
    if leb (nbytes + sizeof_block + minimal_free_block_size) size
    then use_block
        (insert_block h a (a + nbytes + sizeof_block) (size - nbytes - sizeof_block) nbytes) a
    else use_block h a

-- The second branch of HeappAlign: the gap goes to the previous block, and the header moves up.
pub shift_block : Heap → (a aligned gap : ℕ) → Heap
shift_block h a aligned gap =
    let b = h.blocks in
    let next = (b a).pnext in
    let b1 = set_if next b (record (b next) { pprev = aligned }) in
    let prev = (b1 a).pprev in
    let b2 = set_block b1 prev (record (b1 prev) { pnext = aligned }) in
    let (b3, free) = block_unlink b2 h.free_list a in
    let b4 = set_block b3 aligned (b3 a) in
    let prev' = (b4 aligned).pprev in
    let b5 = set_block b4 prev' (record (b4 prev') { size = (b4 prev').size + gap }) in
    let b6 = set_block b5 aligned (record (b5 aligned) { size = (b5 aligned).size - gap }) in
    let (b7, free') = block_link b6 free aligned in record h { free_list = free'; blocks = b7 }

-- HeappAlign
pub align : Heap → ℕ → ℕ → Heap
align h a aligned =
    let gap = aligned - a in
    if leb (sizeof_block + minimal_free_block_size) gap
    then insert_block h a aligned ((h.blocks a).size - gap) (gap - sizeof_block)
    else shift_block h a aligned gap

-- memset( address, 0, count )
pub zero_bytes : (ℕ → ℕ) → ℕ → ℕ → ℕ → ℕ
zero_bytes bytes a n i = if leb a i && ltb i (a + n) then 0 else bytes i

-- The block `a` takes in the block `next` behind it, and after that `size` bytes are its own.
pub absorb : Blocks → (a next size : ℕ) → Blocks
absorb b a next size =
    let b1 = set_block b a (record (b a) { size = size; pnext = (b next).pnext }) in
    let after = (b1 next).pnext in set_if after b1 (record (b1 after) { pprev = a })

abbrev pub zero_if : Bool → Blocks → ℕ → Blocks
zero_if secure b a = if secure then block_zero b a else b

-- The four cases of HeappFree, after the block has left the list of used ones.
pub free_alone : Heap → ℕ → Heap
free_alone h a =
    let b1 = set_block h.blocks a (record (h.blocks a) { state = block_free }) in
    let (b2, free) = block_link b1 h.free_list a in record h { free_list = free; blocks = b2 }

pub free_with_next : Bool → Heap → (a next : ℕ) → Heap
free_with_next secure h a next =
    let (b1, free) = block_unlink h.blocks h.free_list next in
    let b2 = absorb b1 a next ((b1 a).size + (sizeof_block + (b1 next).size)) in
    let b3 = zero_if secure b2 next in
    let b4 = set_block b3 a (record (b3 a) { state = block_free }) in
    let (b5, free') = block_link b4 free a in record h { free_list = free'; blocks = b5 }

pub free_into_prev : Bool → Heap → (prev a : ℕ) → Heap
free_into_prev secure h prev a =
    let b = h.blocks in
    let b1 = absorb b prev a ((b prev).size + (sizeof_block + (b a).size)) in
    record h { blocks = zero_if secure b1 a }

pub free_all_three : Bool → Heap → (prev a next : ℕ) → Heap
free_all_three secure h prev a next =
    let (b1, free) = block_unlink h.blocks h.free_list next in
    let size = (b1 prev).size + (sizeof_block + (b1 a).size + sizeof_block + (b1 next).size) in
    let b2 = absorb b1 prev next size in
    record h { free_list = free; blocks = zero_if secure (zero_if secure b2 a) next }

-- The tests of HeappFree on a neighbour; offset 0 stands for none.
abbrev pub is_used : Heap → ℕ → Bool
is_used h x = (x == 0) || ((h.blocks x).state == block_used)

abbrev pub is_free : Heap → ℕ → Bool
is_free h x = not (x == 0) && ((h.blocks x).state == block_free)

-- The four tests of HeappFree, one after the other.
pub coalesce : Bool → Heap → (prev a next : ℕ) → Heap
coalesce secure h0 prev a next =
    let h1 = if is_used h0 prev && is_used h0 next then free_alone h0 a else h0 in
    let h2 = if is_used h1 prev && is_free h1 next then free_with_next secure h1 a next else h1 in
    let h3 = if is_free h2 prev && is_used h2 next then free_into_prev secure h2 prev a else h2 in
    if is_free h3 prev && is_free h3 next then free_all_three secure h3 prev a next else h3

-- The checks at the start of HeappFree.
pub is_freeable : Heap → ℕ → Bool
is_freeable h a =
    let b = h.blocks a in
    (b.state == block_used)
    && ltb b.pprev a
    && ltb b.pnext h.size
    && ltb b.size h.size
    && not (b.size == 0)

-- HeappFree
pub free_block : Heap → ℕ → Bool → Heap
free_block h a secure =
    let size = (h.blocks a).size in
    let (b1, used) = block_unlink h.blocks h.used_list a in
    let h' =
      coalesce secure (record h { used_list = used; blocks = b1 }) (h.blocks a).pprev a
        (h.blocks a).pnext in
    if is_freeable h a
    then (if secure then record h' { bytes = zero_bytes h'.bytes a size } else h')
    else h

-- HeappContains
pub contains : Heap → ℕ → Bool
contains h address = leb (h.memory + sizeof_block) address && ltb address (h.memory + h.size)

-- OFFSET(X)
abbrev pub offset_of : Heap → ℕ → ℕ
offset_of h address = (address - h.memory) % word32

-- HeapCreate on a region that starts at `arena`, with any contents; `none` stands for NULL.
pub heap_create : (arena size : ℕ) → Blocks → (ℕ → ℕ) → Option Heap
heap_create arena size b bytes =
    let block : HeapBlock = record {
      state = block_free;
      size = size - page_size - sizeof_block;
      pprev = 0;
      pnext = 0;
      vprev = 0;
      vnext = 0;
    } in
    if ltb size (16 * page_size)
    then none
    else some (record {
      memory = arena + page_size;
      size = size - page_size;
      free_list = start;
      used_list = 0;
      blocks = set_block b start block;
      bytes = bytes;
    })

-- The loop of HeapAlloc; `none` means that the fuel ran out, and pointer 0 is NULL.
pub alloc_from : ℕ → Heap → (current nbytes : ℕ) → Option (ℕ × Heap)
alloc_from zero h current nbytes = none
alloc_from (suc fuel) h current nbytes =
    let rest = alloc_from fuel h (h.blocks current).vnext nbytes in
    if current == 0
    then some (0, h)
    else (if leb nbytes (h.blocks current).size
        then some (h.memory + current, split h current nbytes)
        else rest)

-- HeapAlloc
pub heap_alloc : ℕ → Heap → ℕ → Option (ℕ × Heap)
heap_alloc fuel h nbytes = if nbytes == 0 then some (0, h) else alloc_from fuel h h.free_list nbytes

-- HeapAllocArray. The product is one of two UINT32.
pub heap_alloc_array : ℕ → Heap → ℕ → ℕ → Option (ℕ × Heap)
heap_alloc_array fuel h count element =
    let n = mul32 count element in
    elim (heap_alloc fuel h n) [
      | none ↦ none
      | some (p, h') ↦
          if p == 0
          then some (p, h')
          else some (p, record h' { bytes = zero_bytes h'.bytes (p - h'.memory) n })
    ]

-- HeapFree
pub heap_free : Heap → ℕ → Heap
heap_free h address =
    if address == 0
    then h
    else (if not (contains h address) then h else free_block h (offset_of h address) false)

-- The loop of HeapFreeSecure from a used block on: the block that holds the offset.
pub find_used : ℕ → Heap → (offset current : ℕ) → Option (Option ℕ)
find_used zero h offset current = none
find_used (suc fuel) h offset current =
    let rest = find_used fuel h (h.blocks offset).vnext current in
    if offset == 0
    then some none
    else (if leb offset current && ltb current (add32 offset (h.blocks offset).size)
        then some (some offset)
        else rest)

-- HeapFreeSecure
pub heap_free_secure : ℕ → Heap → ℕ → Option Heap
heap_free_secure fuel h address =
    if address == 0
    then some h
    else (if not (contains h address)
        then some h
        else elim (find_used fuel h h.used_list (offset_of h address)) [
          | none ↦ none
          | some none ↦ some h
          | some (some a) ↦ some (free_block h a true)
        ])

-- The loop of HeapAllocAligned that widens a gap too small for a block: the gap and the offset.
pub widen : ℕ → (gap aligned alignment : ℕ) → ℕ × ℕ
widen zero gap aligned alignment = (gap, aligned)
widen (suc fuel) gap aligned alignment =
    let rest = widen fuel (add32 gap alignment) (add32 aligned alignment) alignment in
    if ltb gap (sizeof_block + minimal_free_block_size) then rest else (gap, aligned)

-- The offset that HeapAllocAligned aims at in block `current`: the gap before it, and the offset.
pub aligned_offset : Heap → (current alignment : ℕ) → ℕ × ℕ
aligned_offset h current alignment =
    let aligned = mul32 (add32 (current / alignment) 1) alignment in
    let gap = sub32 aligned current in
    if (h.blocks current).pprev == 0
    then widen (sizeof_block + minimal_free_block_size) gap aligned alignment
    else (gap, aligned)

-- The loop of HeapAllocAligned.
pub alloc_aligned_from : ℕ → Heap → (current nbytes alignment : ℕ) → Option (ℕ × Heap)
alloc_aligned_from zero h current nbytes alignment = none
alloc_aligned_from (suc fuel) h current nbytes alignment =
    let rest = alloc_aligned_from fuel h (h.blocks current).vnext nbytes alignment in
    let (gap, aligned) = aligned_offset h current alignment in
    if current == 0
    then some (0, h)
    else (if leb nbytes (h.blocks current).size
        then (if mul32 (add32 (current / alignment) 1) alignment == current
            then some (h.memory + current, split h current nbytes)
            else (if leb (add32 gap nbytes) (h.blocks current).size
                then some (h.memory + aligned, split (align h current aligned) aligned nbytes)
                else rest))
        else rest)

-- HeapAllocAligned
pub heap_alloc_aligned : ℕ → Heap → (nbytes alignment : ℕ) → Option (ℕ × Heap)
heap_alloc_aligned fuel h nbytes alignment =
    if nbytes == 0
    then some (0, h)
    else (if (alignment == 0) || not (bit_and alignment (alignment - 1) == 0)
        then some (0, h)
        else alloc_aligned_from fuel h h.free_list nbytes alignment)
