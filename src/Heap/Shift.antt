-- ===== src/Heap/Shift.antt =====
-- The second branch of HeappAlign in src/mem.c: a free block moves up by less than a new block needs.
use deepshield.Prelude.{ℕ, ◌+◌, ◌-◌, ◌≡◌, ◌≢◌, ◌∙◌, refl, arith, ◌==◌, if◌then◌else◌}
use deepshield.Heap.{Heap, Blocks, set_block, set_if, block_unlink, block_link, shift_block}
use deepshield.Heap.Lists.{SameLinks, block_link-physical, block_unlink-physical}

module _ (h : Heap) (a x gap : ℕ) where
  abbrev prev : ℕ
  prev = (h.blocks a).pprev

  abbrev next : ℕ
  next = (h.blocks a).pnext

  -- The headers before HeappBlockUnlink, behind it, and before HeappBlockLink.
  abbrev pub relinked : Blocks
  relinked =
      let b1 = set_if next h.blocks (record (h.blocks next) { pprev = x }) in
      set_block b1 (b1 a).pprev (record (b1 (b1 a).pprev) { pnext = x })

  abbrev pub unlinked : Blocks
  unlinked = (block_unlink relinked h.free_list a).0

  abbrev pub moved : Blocks
  moved =
      let b4 = set_block unlinked x (unlinked a) in
      let prev' = (b4 x).pprev in
      let b5 = set_block b4 prev' (record (b4 prev') { size = (b4 prev').size + gap }) in
      set_block b5 x (record (b5 x) { size = (b5 x).size - gap })

  pub shifted :
      (shift_block h a x gap).blocks
      ≡ (block_link moved (block_unlink relinked h.free_list a).1 x).0
  unfolding shift_block
  shifted = refl

  pub shifted_list :
      (shift_block h a x gap).free_list
      ≡ (block_link moved (block_unlink relinked h.free_list a).1 x).1
  unfolding shift_block
  shifted_list = refl

  module _ (next_a : next ≢ a) (prev_a : prev ≢ a) (prev_x : prev ≢ x) (x_a : x ≢ a)
      (next_x : next ≢ x) (prev_next : prev ≢ next) where
    pub relinked_links : (i : ℕ) → SameLinks h.blocks relinked i
    unfolding set_block set_if
    relinked_links i = (ground arith, ground arith)

    relinked_same :
        (i : ℕ)
        → ((relinked i).size ≡ (h.blocks i).size) × ((relinked i).state ≡ (h.blocks i).state)
    unfolding set_block set_if
    relinked_same i = (ground arith, ground arith)

    relinked_pprev :
        (i : ℕ) → i ≢ 0 → (relinked i).pprev ≡ (if i == next then x else (h.blocks i).pprev)
    unfolding set_block set_if
    relinked_pprev i z = ground arith

    relinked_pnext : (i : ℕ) → (relinked i).pnext ≡ (if i == prev then x else (h.blocks i).pnext)
    unfolding set_block set_if
    relinked_pnext i = ground arith

    moved_size :
        (i : ℕ)
        → (relinked a).pprev ≡ prev
        → (moved i).size ≡ (
            if i == x
            then (relinked a).size - gap
            else (if i == prev then (relinked i).size + gap else (relinked i).size))
    unfolding set_block
    moved_size i e = ground (
      arith,
      block_unlink-physical relinked h.free_list a i,
      block_unlink-physical relinked h.free_list a a,
    )

    moved_pprev :
        (i : ℕ)
        → (relinked a).pprev ≡ prev
        → (moved i).pprev ≡ (if i == x then prev else (relinked i).pprev)
    unfolding set_block
    moved_pprev i e = ground (
      arith,
      block_unlink-physical relinked h.free_list a i,
      block_unlink-physical relinked h.free_list a a,
    )

    moved_pnext :
        (i : ℕ)
        → (relinked a).pprev ≡ prev
        → (moved i).pnext ≡ (if i == x then (relinked a).pnext else (relinked i).pnext)
    unfolding set_block
    moved_pnext i e = ground (
      arith,
      block_unlink-physical relinked h.free_list a i,
      block_unlink-physical relinked h.free_list a a,
    )

    moved_state :
        (i : ℕ)
        → (relinked a).pprev ≡ prev
        → (moved i).state ≡ (if i == x then (relinked a).state else (relinked i).state)
    unfolding set_block
    moved_state i e = ground (
      arith,
      block_unlink-physical relinked h.free_list a i,
      block_unlink-physical relinked h.free_list a a,
    )

    pub moved_links : (i : ℕ) → i ≢ x → SameLinks unlinked moved i
    unfolding set_block
    moved_links i z = (ground arith, ground arith)

    module _ (a_ne : a ≢ 0) where
      kept_pprev : (relinked a).pprev ≡ prev
      kept_pprev = let e = relinked_pprev a a_ne in ground arith

      abbrev pub shifted_blocks : Blocks
      shifted_blocks = (shift_block h a x gap).blocks

      pub shift-size :
          (i : ℕ)
          → (shifted_blocks i).size ≡ (
              if i == x
              then (h.blocks a).size - gap
              else (if i == prev then (h.blocks i).size + gap else (h.blocks i).size))
      shift-size i =
          let f = block_link-physical moved (block_unlink relinked h.free_list a).1 x i in
          rw shifted
            (f.1 ∙ moved_size i kept_pprev ∙ rw ((relinked_same i).0, (relinked_same a).0) refl)

      pub shift-state :
          (i : ℕ)
          → (shifted_blocks i).state ≡ (if i == x then (h.blocks a).state else (h.blocks i).state)
      shift-state i =
          let f = block_link-physical moved (block_unlink relinked h.free_list a).1 x i in
          rw shifted
            (f.0 ∙ moved_state i kept_pprev ∙ rw ((relinked_same i).1, (relinked_same a).1) refl)

      pub shift-pprev :
          (i : ℕ)
          → i ≢ 0
          → (shifted_blocks i).pprev
            ≡ (if i == x then prev else (if i == next then x else (h.blocks i).pprev))
      shift-pprev i z =
          let f = block_link-physical moved (block_unlink relinked h.free_list a).1 x i in
          rw shifted (f.2 ∙ moved_pprev i kept_pprev ∙ rw (relinked_pprev i z) refl)

      pub shift-pnext :
          (i : ℕ)
          → (shifted_blocks i).pnext
            ≡ (if i == x then next else (if i == prev then x else (h.blocks i).pnext))
      shift-pnext i =
          let f = block_link-physical moved (block_unlink relinked h.free_list a).1 x i in
          let e = relinked_pnext a in
          let e' : (relinked a).pnext ≡ next = ground arith in
          rw shifted (f.3 ∙ moved_pnext i kept_pprev ∙ rw (e', relinked_pnext i) refl)
