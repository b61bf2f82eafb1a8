-- ===== src/Heap/Release.antt =====
-- HeappFree, HeapFree and HeapFreeSecure of src/mem.c as a whole.
use deepshield.Prelude.{
  ℕ, zero, suc, ◌+◌, ◌-◌, ◌%◌, ◌≤◌, ◌<◌, ◌^◌, ◌≡◌, ◌≢◌, ◌∙◌, ◌⊎◌, inl, inr, refl, sym, ap, List, [],
  ◌∷◌, ◌++◌, Member, length, arith, ◌==◌, ◌&&◌, not, if◌then◌else◌, Bool, true, false, some,
  Member-split, Member-append_right, ltb, leb, Bool-cases, ==_iff,
}
use mathlib.Core.Path.{subst}
use deepshield.Heap.{
  Heap, block_unlink, coalesce, is_freeable, free_block, zero_bytes, block_free, block_used,
  heap_free, heap_free_secure, find_used, contains,
}
use deepshield.Heap.Lists.{first, Listed, block_unlink-physical}
use deepshield.Heap.Chains.{Member-middle}
use deepshield.Heap.Layout.{Layout, Layout-pprev_lt, Layout-pnext_in, Layout-drop, Layout-apart}
use deepshield.Heap.Tiling.{swap, detach}
use deepshield.Heap.Inv.{IsHeap, tiled, heap_of, block_bounds}
use deepshield.Heap.Cases.{Open}
use deepshield.Heap.Coalesce.{Freed}
use deepshield.Heap.Free.{coalesce-Freed}

-- The heap when the block has left the list of used ones.
abbrev loosened : Heap → ℕ → Heap
loosened h a = record h {
  used_list = (block_unlink h.blocks h.used_list a).1;
  blocks = (block_unlink h.blocks h.used_list a).0;
}

module _ (h : Heap) (blocks free ul : List ℕ) (a : ℕ) (ur : List ℕ)
    (v : IsHeap h blocks free (ul ++ (a ∷ ur))) where
  loosened-Open : Open (loosened h a) blocks free (ul ++ ur) (a ∷ [])
  loosened-Open =
      swap (block_unlink h.blocks h.used_list a).0 h.size block_used
        (block_unlink h.blocks h.used_list a).1 (ul ++ ur) block_free h.free_list free blocks
        (a ∷ [])
        (detach h.blocks h.size block_used h.used_list ul a ur block_free h.free_list free blocks []
          (swap h.blocks h.size block_free h.free_list free block_used h.used_list (ul ++ (a ∷ ur))
            blocks [] (tiled h blocks free (ul ++ (a ∷ ur)) v)))

  a_used : Member a (ul ++ (a ∷ ur))
  a_used = Member-middle ul a ur

  a_in : Member a blocks
  a_in = (v.used_in a a_used).0

  next_inside : (h.blocks a).pnext < h.size
  next_inside =
      let (ps, qs, e) = Member-split a blocks a_in in
      let l = subst (λ (t : List ℕ). Layout h.blocks h.size 0 t) e v.layout in
      let (low, high) = block_bounds h blocks free (ul ++ (a ∷ ur)) v a a_in in
      elim (Layout-pnext_in h.blocks h.size (h.blocks a).pprev a qs
        (Layout-drop h.blocks h.size 0 ps a qs l)) [
          | inl z ↦ omega arith
          | inr m ↦
              let there : Member (h.blocks a).pnext blocks =
                subst (λ (t : List ℕ). Member (h.blocks a).pnext t) (sym e)
                  (Member-append_right (h.blocks a).pnext ps (a ∷ qs) (inr m)) in
              omega (
                arith,
                block_bounds h blocks free (ul ++ (a ∷ ur)) v (h.blocks a).pnext there,
                v.nonempty (h.blocks a).pnext there,
              )
        ]

  -- A used block passes the checks of HeappFree.
  freeable : is_freeable h a ≡ true
  unfolding is_freeable
  freeable =
      let (ps, qs, e) = Member-split a blocks a_in in
      let l = subst (λ (t : List ℕ). Layout h.blocks h.size 0 t) e v.layout in
      let state = (v.used_in a a_used).1 in
      let (low, high) = block_bounds h blocks free (ul ++ (a ∷ ur)) v a a_in in
      let pos = v.nonempty a a_in in
      let before = Layout-pprev_lt h.blocks h.size ps a qs l (omega arith) in
      let after = next_inside in ground arith

  -- What HeappFree makes of the heap before the bytes are cleared.
  pub freed :
      (secure : Bool)
      → Freed h (coalesce secure (loosened h a) (h.blocks a).pprev a (h.blocks a).pnext) (ul ++ ur)
  freed secure =
      let (ps, qs, e) = Member-split a blocks a_in in
      let b1 = (block_unlink h.blocks h.used_list a).0 in
      let (_, _, pp, pn) = block_unlink-physical h.blocks h.used_list a a in
      let out =
        subst
          (λ (x : ℕ).
            Freed (loosened h a) (coalesce secure (loosened h a) x a (h.blocks a).pnext) (ul ++ ur))
          pp
          (subst
            (λ (x : ℕ).
              Freed (loosened h a) (coalesce secure (loosened h a) (b1 a).pprev a x) (ul ++ ur))
            pn
            (coalesce-Freed secure (loosened h a) ps a qs free (ul ++ ur) (
              subst (λ (t : List ℕ). Open (loosened h a) t free (ul ++ ur) (a ∷ [])) e
                loosened-Open))) in
      record {
        blocks = out.blocks;
        free = out.free;
        tiling = out.tiling;
        others = λ i m.
            let (p, q) = out.others i m in
            let (s, z, _, _) = block_unlink-physical h.blocks h.used_list a i in (p ∙ z, q ∙ s);
        region = out.region;
      }

-- A heap in which only the blocks `used` are handed out, with the sizes that they had.
pub record Released (h h' : Heap) (used : List ℕ) : Type 0 where
  pub blocks : List ℕ
  pub free : List ℕ
  pub valid : IsHeap h' blocks free used
  pub others : (i : ℕ) → Member i used → (h'.blocks i).size ≡ (h.blocks i).size
  pub same_region : (h'.memory ≡ h.memory) × (h'.size ≡ h.size)

released :
    (h h' : Heap) (used : List ℕ) (bytes : ℕ → ℕ)
    → Freed h h' used
    → 0 < h.memory
    → h.size < 2 ^ 31
    → Released h (record h' { bytes = bytes }) used
released h h' used bytes out pos fits =
    let (mem, sz, _) = out.region in
    record {
      blocks = out.blocks;
      free = out.free;
      valid =
          heap_of (record h' { bytes = bytes }) out.blocks out.free used out.tiling (omega arith)
            (omega arith);
      others = λ i m. (out.others i m).0;
      same_region = (mem, sz);
    }

module _ (h : Heap) (blocks free ul : List ℕ) (a : ℕ) (ur : List ℕ)
    (v : IsHeap h blocks free (ul ++ (a ∷ ur))) where
  free_block-Released : (secure : Bool) → Released h (free_block h a secure) (ul ++ ur)
  unfolding free_block
  free_block-Released false =
      let out = freed h blocks free ul a ur v false in
      rw (freeable h blocks free ul a ur v) (
        released h (coalesce false (loosened h a) (h.blocks a).pprev a (h.blocks a).pnext)
          (ul ++ ur) (coalesce false (loosened h a) (h.blocks a).pprev a (h.blocks a).pnext).bytes
          out v.memory_ne v.fits)
  free_block-Released true =
      let out = freed h blocks free ul a ur v true in
      let h' = coalesce true (loosened h a) (h.blocks a).pprev a (h.blocks a).pnext in
      rw (freeable h blocks free ul a ur v)
        (released h h' (ul ++ ur) (zero_bytes h'.bytes a (h.blocks a).size) out v.memory_ne v.fits)

  -- The pointer of a used block is one into the region, and OFFSET gives the block back.
  inside :
      (k : ℕ)
      → k < (h.blocks a).size
      → (contains h (h.memory + a + k) ≡ true)
        × ((h.memory + a + k - h.memory) % 2 ^ 32 ≡ a + k)
        × ((h.memory + a + k == 0) ≡ false)
  unfolding contains
  inside k lt =
      let (low, high) =
        block_bounds h blocks free (ul ++ (a ∷ ur)) v a (a_in h blocks free ul a ur v) in
      let fits = v.fits in
      let pos = v.memory_ne in
      let small : a + k < 2 ^ 31 = omega arith in (ground arith, omega arith, ground arith)

  -- HeapFree of a used block.
  pub heap_free_lem : Released h (heap_free h (h.memory + a)) (ul ++ ur)
  unfolding heap_free
  heap_free_lem =
      let e : h.memory + a + 0 ≡ h.memory + a = omega arith in
      let (there, offset, some_address) = inside 0 (v.nonempty a (a_in h blocks free ul a ur v)) in
      let offset' : (h.memory + a - h.memory) % 2 ^ 32 ≡ a = omega arith in
      rw
        (
          ap (λ (t : ℕ). t == 0) (sym e) ∙ some_address,
          ap (λ (t : ℕ). contains h t) (sym e) ∙ there,
          offset',
        )
        (free_block-Released false)

  pub free_block_bytes :
      (i : ℕ)
      → (free_block h a true).bytes i
        ≡ (if leb a i && ltb i (a + (h.blocks a).size) then 0 else h.bytes i)
  unfolding free_block zero_bytes
  free_block_bytes i =
      let out = freed h blocks free ul a ur v true in
      let (_, _, b) = out.region in
      rw (freeable h blocks free ul a ur v, ap (λ (f : ℕ → ℕ). f i) b) refl

below_range : (x s a k : ℕ) → x + s + 24 ≤ a → leb x (a + k) && ltb (a + k) (x + s) ≡ false
below_range x s a k far = ground arith

above_range :
    (x s a z k : ℕ) → a + z + 24 ≤ x → k < z → leb x (a + k) && ltb (a + k) (x + s) ≡ false
above_range x s a z k far lt = ground arith

lt_or_gt : (x a : ℕ) → x ≢ a → (x < a) ⊎ (a < x)
lt_or_gt x a n = elim (Bool-cases (ltb x a)) [
  | inl t ↦ inl (ground arith)
  | inr t ↦ inr (ground arith)
]

not_in_range :
    (h : Heap) (blocks free used : List ℕ) (x a k : ℕ)
    → IsHeap h blocks free used
    → Member x blocks
    → Member a blocks
    → x ≢ a
    → k < (h.blocks a).size
    → leb x (a + k) && ltb (a + k) (x + (h.blocks x).size) ≡ false
not_in_range h blocks free used x a k v mx ma n lt = elim (lt_or_gt x a n) [
  | inl t ↦
      below_range x (h.blocks x).size a k
        (Layout-apart h.blocks h.size 0 blocks x a v.layout mx ma t)
  | inr t ↦
      above_range x (h.blocks x).size a (h.blocks a).size k
        (Layout-apart h.blocks h.size 0 blocks a x v.layout ma mx t) lt
]

-- The search of HeapFreeSecure, from a used block on, for an offset inside block `a`.
find_used_lem :
    (h : Heap) (blocks free used : List ℕ) (a k : ℕ)
    → IsHeap h blocks free used
    → k < (h.blocks a).size
    → (fuel p : ℕ) (rest : List ℕ) (current : ℕ) → Listed h.blocks p rest
    → current ≡ first rest 0
    → ((i : ℕ) → Member i rest → Member i used)
    → Member a rest
    → length rest < fuel
    → find_used fuel h current (a + k) ≡ some (some a)
unfolding find_used
find_used_lem h blocks free used a k v lt zero p rest current l e m w f = absurd (omega arith)
find_used_lem h blocks free used a k v lt (suc fuel) p [] current l e m w f = elim w [ ]
find_used_lem h blocks free used a k v lt (suc fuel) p (x ∷ rest) current (e, d, l) at_x m w f =
    let x_in = (v.used_in x (m x (inl refl))).0 in
    let a_here = (v.used_in a (m a w)).0 in
    let (low, high) = block_bounds h blocks free used v x x_in in
    let (low_a, high_a) = block_bounds h blocks free used v a a_here in
    let fits = v.fits in
    let no_wrap : (x + (h.blocks x).size) % 2 ^ 32 ≡ x + (h.blocks x).size = omega arith in
    let some_block : (x == 0) ≡ false = ground arith in
    elim (Bool-cases (x == a)) [
      | inl t ↦
          let x_a = (==_iff x a).0 t in
          let in_range : leb x (a + k) && ltb (a + k) (x + (h.blocks x).size) ≡ true =
            rw x_a (ground arith) in
          rw (at_x, some_block, no_wrap, in_range, x_a) refl
      | inr t ↦
          let x_a : x ≢ a = ground arith in
          let outside = not_in_range h blocks free used x a k v x_in a_here x_a lt in
          rw (at_x, some_block, no_wrap, outside)
            (find_used_lem h blocks free used a k v lt fuel x rest (h.blocks x).vnext l d
              (λ i q. m i (inr q)) (elim w [ inl q ↦ absurd (x_a (sym q)) | inr q ↦ q ])
              (omega arith))
    ]

-- HeapFreeSecure of an address inside a used block, with one round more than there are used blocks.
pub heap_free_secure_lem :
    (h : Heap) (blocks free ul : List ℕ) (a : ℕ) (ur : List ℕ) (k fuel : ℕ)
    → IsHeap h blocks free (ul ++ (a ∷ ur))
    → k < (h.blocks a).size
    → length (ul ++ (a ∷ ur)) < fuel
    → (h' : Heap) × (heap_free_secure fuel h (h.memory + a + k) ≡ some h')
      × Released h h' (ul ++ ur)
      × ((i : ℕ) → h'.bytes i ≡ (if leb a i && ltb i (a + (h.blocks a).size) then 0 else h.bytes i))
unfolding heap_free_secure
heap_free_secure_lem h blocks free ul a ur k fuel v lt f =
    let (there, offset, some_address) = inside h blocks free ul a ur v k lt in
    let found =
      find_used_lem h blocks free (ul ++ (a ∷ ur)) a k v lt fuel 0 (ul ++ (a ∷ ur)) h.used_list
        v.useds.listed v.useds.head_first (λ i m. m) (Member-middle ul a ur) f in
    (
      free_block h a true,
      rw (some_address, there, offset, found) refl,
      free_block-Released h blocks free ul a ur v true,
      free_block_bytes h blocks free ul a ur v,
    )

if_same : (c : Bool) (h : Heap) → (if c then h else h) ≡ h
if_same true h = refl
if_same false h = refl

-- An address whose header, at its offset, looks like a used block's: it lies in the region behind the
-- first header, the block is marked as used, it has a size below the region's, its predecessor lies
-- before it and its successor in the region.
pub record LooksUsed (h : Heap) (address : ℕ) : Type 0 where
  pub low : h.memory + 24 ≤ address
  pub high : address < h.memory + h.size
  pub used : (h.blocks ((address - h.memory) % 2 ^ 32)).state ≡ block_used
  pub previous : (h.blocks ((address - h.memory) % 2 ^ 32)).pprev < (address - h.memory) % 2 ^ 32
  pub next : (h.blocks ((address - h.memory) % 2 ^ 32)).pnext < h.size
  pub some_bytes : 0 < (h.blocks ((address - h.memory) % 2 ^ 32)).size
  pub fits : (h.blocks ((address - h.memory) % 2 ^ 32)).size < h.size

looks_used :
    (h : Heap) (address : ℕ)
    → contains h address ≡ true
    → is_freeable h ((address - h.memory) % 2 ^ 32) ≡ true
    → LooksUsed h address
unfolding contains is_freeable
looks_used h address c f = record {
  low = ground arith;
  high = ground arith;
  used = ground arith;
  previous = ground arith;
  next = ground arith;
  some_bytes = ground arith;
  fits = ground arith;
}

-- HeapFree of an address that does not look like a used block's changes nothing: NULL, an address
-- outside the region, and one whose header is not marked as used, has no size or too large a one, or
-- has a predecessor that is not before it or a successor outside the region.
pub heap_free-refused :
    (h : Heap) (address : ℕ) → (LooksUsed h address → ⊥) → heap_free h address ≡ h
unfolding heap_free free_block
heap_free-refused h address n = elim (Bool-cases (contains h address)) [
  | inr e ↦ rw e (if_same (address == 0) h)
  | inl c ↦ elim (Bool-cases (is_freeable h ((address - h.memory) % 2 ^ 32))) [
    | inl f ↦ absurd (n (looks_used h address c f))
    | inr e ↦ rw e (rw (if_same (not (contains h address)) h) (if_same (address == 0) h))
  ]
]
