-- ===== src/Heap/Effects.antt =====
-- What the four cases of HeappFree in src/mem.c leave alone.
use deepshield.Prelude.{ℕ, ◌≡◌, ◌≢◌, ◌∙◌, refl, Bool, true, false, arith, ◌+◌}
use deepshield.Heap.{
  Heap, Blocks, set_block, block_link, block_unlink, absorb, block_zero, zero_if, block_free,
  free_alone, free_with_next, free_into_prev, free_all_three, sizeof_block,
}
use deepshield.Heap.Lists.{block_link-physical, block_unlink-physical}
use deepshield.Heap.Absorb.{absorb-size, absorb-state}

-- The two fields that HeappFree goes by.
abbrev pub SameBlock : Blocks → Blocks → ℕ → Type 0
SameBlock b b' i = ((b' i).size ≡ (b i).size) × ((b' i).state ≡ (b i).state)

then_same : (b b' b'' : Blocks) (i : ℕ) → SameBlock b b' i → SameBlock b' b'' i → SameBlock b b'' i
then_same b b' b'' i (p, q) (r, s) = (r ∙ p, s ∙ q)

link_same : (b : Blocks) (head a i : ℕ) → SameBlock b (block_link b head a).0 i
link_same b head a i = let (s, z, _, _) = block_link-physical b head a i in (z, s)

unlink_same : (b : Blocks) (head a i : ℕ) → SameBlock b (block_unlink b head a).0 i
unlink_same b head a i = let (s, z, _, _) = block_unlink-physical b head a i in (z, s)

set_same :
    (b : Blocks) (a i s : ℕ) → i ≢ a → SameBlock b (set_block b a (record (b a) { state = s })) i
unfolding set_block
set_same b a i s n = (ground arith, ground arith)

zero_same : (secure : Bool) (b : Blocks) (a i : ℕ) → i ≢ a → SameBlock b (zero_if secure b a) i
unfolding block_zero set_block
zero_same false b a i n = (refl, refl)
zero_same true b a i n = (ground arith, ground arith)

absorb_same :
    (b : Blocks) (a next size i : ℕ) → next ≢ a → i ≢ a → SameBlock b (absorb b a next size) i
absorb_same b a next size i d n =
    let e = absorb-size b a next size d i in (ground arith, absorb-state b a next size d i)

pub free_alone_same : (h : Heap) (a i : ℕ) → i ≢ a → SameBlock h.blocks (free_alone h a).blocks i
unfolding free_alone
free_alone_same h a i n =
    let b1 = set_block h.blocks a (record (h.blocks a) { state = block_free }) in
    then_same h.blocks b1 (block_link b1 h.free_list a).0 i (set_same h.blocks a i block_free n)
      (link_same b1 h.free_list a i)

pub free_with_next_same :
    (secure : Bool) (h : Heap) (a next i : ℕ)
    → next ≢ a
    → i ≢ a
    → i ≢ next
    → SameBlock h.blocks (free_with_next secure h a next).blocks i
unfolding free_with_next
free_with_next_same secure h a next i d n p =
    let (b1, free) = block_unlink h.blocks h.free_list next in
    let b2 = absorb b1 a next ((b1 a).size + (sizeof_block + (b1 next).size)) in
    let b3 = zero_if secure b2 next in
    let b4 = set_block b3 a (record (b3 a) { state = block_free }) in
    then_same h.blocks b1 (block_link b4 free a).0 i (unlink_same h.blocks h.free_list next i) (
      then_same b1 b2 (block_link b4 free a).0 i
        (absorb_same b1 a next ((b1 a).size + (sizeof_block + (b1 next).size)) i d n)
        (then_same b2 b3 (block_link b4 free a).0 i (zero_same secure b2 next i p) (
          then_same b3 b4 (block_link b4 free a).0 i (set_same b3 a i block_free n)
            (link_same b4 free a i))))

pub free_into_prev_same :
    (secure : Bool) (h : Heap) (prev a i : ℕ)
    → a ≢ prev
    → i ≢ prev
    → i ≢ a
    → SameBlock h.blocks (free_into_prev secure h prev a).blocks i
unfolding free_into_prev
free_into_prev_same secure h prev a i d n p =
    let size = (h.blocks prev).size + (sizeof_block + (h.blocks a).size) in
    let b1 = absorb h.blocks prev a size in
    then_same h.blocks b1 (zero_if secure b1 a) i (absorb_same h.blocks prev a size i d n)
      (zero_same secure b1 a i p)

pub free_all_three_same :
    (secure : Bool) (h : Heap) (prev a next i : ℕ)
    → next ≢ prev
    → i ≢ prev
    → i ≢ a
    → i ≢ next
    → SameBlock h.blocks (free_all_three secure h prev a next).blocks i
unfolding free_all_three
free_all_three_same secure h prev a next i d n p q =
    let (b1, free) = block_unlink h.blocks h.free_list next in
    let size = (b1 prev).size + (sizeof_block + (b1 a).size + sizeof_block + (b1 next).size) in
    let b2 = absorb b1 prev next size in
    let b3 = zero_if secure b2 a in
    then_same h.blocks b1 (zero_if secure b3 next) i (unlink_same h.blocks h.free_list next i) (
      then_same b1 b2 (zero_if secure b3 next) i (absorb_same b1 prev next size i d n) (
        then_same b2 b3 (zero_if secure b3 next) i (zero_same secure b2 a i p)
          (zero_same secure b3 next i q)))

-- The region and its bytes.
abbrev pub SameRegion : Heap → Heap → Type 0
SameRegion h h' = (h'.memory ≡ h.memory) × (h'.size ≡ h.size) × (h'.bytes ≡ h.bytes)

pub free_alone-region : (h : Heap) (a : ℕ) → SameRegion h (free_alone h a)
unfolding free_alone
free_alone-region h a = (refl, refl, refl)

pub free_with_next-region :
    (secure : Bool) (h : Heap) (a next : ℕ) → SameRegion h (free_with_next secure h a next)
unfolding free_with_next
free_with_next-region secure h a next = (refl, refl, refl)

pub free_into_prev-region :
    (secure : Bool) (h : Heap) (prev a : ℕ) → SameRegion h (free_into_prev secure h prev a)
unfolding free_into_prev
free_into_prev-region secure h prev a = (refl, refl, refl)

pub free_all_three-region :
    (secure : Bool) (h : Heap) (prev a next : ℕ)
    → SameRegion h (free_all_three secure h prev a next)
unfolding free_all_three
free_all_three-region secure h prev a next = (refl, refl, refl)
