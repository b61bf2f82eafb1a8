-- ===== src/Heap/Fields.antt =====
-- HeappSplit and the first branch of HeappAlign in src/mem.c.
use deepshield.Prelude.{ℕ, ◌≡◌, ◌≢◌, refl, arith, ◌==◌, if◌then◌else◌}
use deepshield.Heap.{
  Heap, Blocks, set_block, set_if, block_link, block_unlink, insert_block, use_block, block_free,
  block_used,
}
use deepshield.Heap.Lists.{SameLinks, block_link-physical, block_unlink-physical}
use deepshield.Heap.Layout.{SameTile}

module _ (h : Heap) (a x size left : ℕ) where
  abbrev pub inserted : Blocks
  inserted = (insert_block h a x size left).blocks

  -- The headers before and behind the call of HeappBlockLink.
  abbrev pub fresh : Blocks
  fresh = set_block h.blocks x (record (h.blocks x) {
    state = block_free;
    size = size;
    pprev = a;
    pnext = (h.blocks a).pnext;
  })

  abbrev pub chained : Blocks
  chained = (block_link fresh h.free_list x).0

  module _ (apart : x ≢ a) where
    pub insert-state : (i : ℕ) → (inserted i).state ≡ (if i == x then 0 else (h.blocks i).state)
    unfolding insert_block set_block set_if
    insert-state i = ground (arith, block_link-physical fresh h.free_list x i)

    pub insert-state_new : (inserted x).state ≡ block_free
    insert-state_new = ground (arith, insert-state x)

    pub insert-state_old : (i : ℕ) → i ≢ x → (inserted i).state ≡ (h.blocks i).state
    insert-state_old i n = ground (arith, insert-state i)

    pub insert-size :
        (i : ℕ)
        → (inserted i).size
          ≡ (if i == a then left else (if i == x then size else (h.blocks i).size))
    unfolding insert_block set_block set_if
    insert-size i = ground (arith, block_link-physical fresh h.free_list x i)

    pub insert-pnext :
        (i : ℕ)
        → (inserted i).pnext
          ≡ (if i == a then x else (if i == x then (h.blocks a).pnext else (h.blocks i).pnext))
    unfolding insert_block set_block set_if
    insert-pnext i = ground (arith, block_link-physical fresh h.free_list x i)

    pub insert-pprev :
        (i : ℕ)
        → i ≢ 0
        → (h.blocks a).pnext ≢ x
        → (inserted i).pprev
          ≡ (if i == x then a else (if i == (h.blocks a).pnext then x else (h.blocks i).pprev))
    unfolding insert_block set_block set_if
    insert-pprev i z n = ground (
      arith,
      block_link-physical fresh h.free_list x i,
      block_link-physical fresh h.free_list x a,
    )

    pub insert-links : (i : ℕ) → SameLinks chained inserted i
    unfolding insert_block set_block set_if
    insert-links i = (ground arith, ground arith)

    pub insert-head : (insert_block h a x size left).free_list ≡ (block_link fresh h.free_list x).1
    unfolding insert_block
    insert-head = refl

  module _ (apart : x ≢ a) (next_x : (h.blocks a).pnext ≢ x) where
    pub insert-away :
        (i : ℕ) → i ≢ 0 → i ≢ a → i ≢ x → i ≢ (h.blocks a).pnext → SameTile h.blocks inserted i
    insert-away i z p q r = (
      ground (arith, insert-size apart i),
      ground (arith, insert-pprev apart i),
      ground (arith, insert-pnext apart i),
    )

    pub insert-at :
        a ≢ 0
        → (h.blocks a).pnext ≢ a
        → ((inserted a).size ≡ left)
          × ((inserted a).pprev ≡ (h.blocks a).pprev)
          × ((inserted a).pnext ≡ x)
    insert-at z n = (
      ground (arith, insert-size apart a),
      ground (arith, insert-pprev apart a),
      ground (arith, insert-pnext apart a),
    )

    pub insert-new :
        x ≢ 0
        → ((inserted x).size ≡ size)
          × ((inserted x).pprev ≡ a)
          × ((inserted x).pnext ≡ (h.blocks a).pnext)
    insert-new z = (
      ground (arith, insert-size apart x),
      ground (arith, insert-pprev apart x),
      ground (arith, insert-pnext apart x),
    )

    pub insert-next :
        (z : ℕ)
        → z ≢ 0
        → z ≢ a
        → z ≢ x
        → (h.blocks a).pnext ≡ z
        → ((inserted z).size ≡ (h.blocks z).size)
          × ((inserted z).pprev ≡ x)
          × ((inserted z).pnext ≡ (h.blocks z).pnext)
    insert-next z n p q e = (
      ground (arith, insert-size apart z),
      ground (arith, insert-pprev apart z),
      ground (arith, insert-pnext apart z),
    )

  pub fresh-links : (i : ℕ) → SameLinks h.blocks fresh i
  unfolding set_block
  fresh-links i = (ground arith, ground arith)

  pub insert-rest :
      ((insert_block h a x size left).size ≡ h.size)
      × ((insert_block h a x size left).used_list ≡ h.used_list)
      × ((insert_block h a x size left).memory ≡ h.memory)
  unfolding insert_block
  insert-rest = (refl, refl, refl)

-- The headers as HeappSplit hands a block over: taken out of its list, marked, put into the other.
module _ (h : Heap) (a : ℕ) where
  abbrev pub handed : Blocks
  handed = (use_block h a).blocks

  abbrev pub taken : Blocks
  taken = (block_unlink h.blocks h.free_list a).0

  abbrev pub marked : Blocks
  marked = set_block taken a (record (taken a) { state = block_used })

  pub use-rest : ((use_block h a).size ≡ h.size) × ((use_block h a).memory ≡ h.memory)
  unfolding use_block
  use-rest = (refl, refl)

  pub use-tile : (i : ℕ) → SameTile h.blocks handed i
  unfolding use_block set_block
  use-tile i = (
    ground (
      arith,
      block_link-physical marked h.used_list a i,
      block_unlink-physical h.blocks h.free_list a i,
    ),
    ground (
      arith,
      block_link-physical marked h.used_list a i,
      block_unlink-physical h.blocks h.free_list a i,
    ),
    ground (
      arith,
      block_link-physical marked h.used_list a i,
      block_unlink-physical h.blocks h.free_list a i,
    ),
  )
