-- ===== src/Heap/Session.antt =====
-- Any sequence of calls of the heap of src/mem.c by a client that frees what it was given.
use deepshield.Prelude.{
  ℕ, ◌+◌, ◌-◌, ◌≤◌, ◌<◌, ◌^◌, ◌≡◌, ◌∙◌, inl, inr, sym, List, [], ◌∷◌, ◌++◌, Member, Option, none,
  some, arith,
}
use Prim.Native.Nat.{bit_and}
use mathlib.Core.Path.{subst}
use deepshield.Heap.{
  Heap, Blocks, heap_create, heap_alloc, heap_alloc_aligned, heap_free, heap_free_secure,
}
use deepshield.Heap.Layout.{Layout-apart}
use deepshield.Heap.Inv.{IsHeap, block_bounds}
use deepshield.Heap.Alloc.{heap_alloc_lem}
use deepshield.Heap.Aligned.{heap_alloc_aligned_lem}
use deepshield.Heap.Release.{heap_free_lem, heap_free_secure_lem}
use deepshield.Heap.Create.{heap_create_lem, free_length, used_length}

-- A heap that the calls made so far have left, and the blocks that the client holds, as offsets. A
-- walk of a list has as many rounds as the heap has bytes.
pub data Session : Heap → List ℕ → Type 0 where
  created :
      {h : Heap} (arena size : ℕ) (b : Blocks) (bytes : ℕ → ℕ)
      → size < 2 ^ 31
      → heap_create arena size b bytes ≡ some h
      → Session h []
  alloc :
      {h h' : Heap} {live : List ℕ}
      → Session h live
      → (n a : ℕ) → 0 < n
      → heap_alloc h.size h n ≡ some (h.memory + a, h')
      → Session h' (a ∷ live)
  alloc_failed :
      {h h' : Heap} {live : List ℕ}
      → Session h live
      → (n : ℕ) → 0 < n
      → heap_alloc h.size h n ≡ some (0, h')
      → Session h' live
  alloc_aligned :
      {h h' : Heap} {live : List ℕ}
      → Session h live
      → (n alignment a : ℕ) → 0 < n
      → 0 < alignment
      → alignment ≤ 2 ^ 30
      → bit_and alignment (alignment - 1) ≡ 0
      → heap_alloc_aligned h.size h n alignment ≡ some (h.memory + a, h')
      → Session h' (a ∷ live)
  free :
      {h h' : Heap} {live live' : List ℕ}
      → Session h live
      → (xs : List ℕ) (a : ℕ) (ys : List ℕ) → live ≡ xs ++ (a ∷ ys)
      → live' ≡ xs ++ ys
      → heap_free h (h.memory + a) ≡ h'
      → Session h' live'
  free_secure :
      {h h' : Heap} {live live' : List ℕ}
      → Session h live
      → (xs : List ℕ) (a : ℕ) (ys : List ℕ) (k : ℕ) → live ≡ xs ++ (a ∷ ys)
      → live' ≡ xs ++ ys
      → k < (h.blocks a).size
      → heap_free_secure h.size h (h.memory + a + k) ≡ some h'
      → Session h' live'

-- A heap whose used blocks are those that the client holds.
pub record Sound (h : Heap) (live : List ℕ) : Type 0 where
  pub blocks : List ℕ
  pub free : List ℕ
  pub valid : IsHeap h blocks free live

some_pair :
    {p q : ℕ} {h h' : Heap}
    → ◌≡◌ {A = Option (ℕ × Heap)} (some (p, h)) (some (q, h'))
    → (p ≡ q) × (h ≡ h')
some_pair e = (cc, cc)

some_heap : (h h' : Heap) → ◌≡◌ {A = Option Heap} (some h) (some h') → h ≡ h'
some_heap h h' e = cc

same_offset : (m a c : ℕ) → m + a ≡ m + c → a ≡ c
same_offset m a c e = omega arith

-- The answer of an allocation, compared with what the theorem on it says.
module _ (h h' : Heap) (live : List ℕ) (a : ℕ) (v : 0 < h.memory) where
  not_null : (r : Option (ℕ × Heap)) → r ≡ some (h.memory + a, h') → r ≡ some (0, h) → ⊥
  not_null r e f =
      let (p, _) = some_pair {p = h.memory + a} {q = 0} {h = h'} {h' = h} (sym e ∙ f) in omega arith

  handed_over :
      (r : Option (ℕ × Heap)) (x : ℕ) (h'' : Heap)
      → r ≡ some (h.memory + a, h')
      → r ≡ some (h.memory + x, h'')
      → Sound h'' (x ∷ live)
      → Sound h' (a ∷ live)
  handed_over r x h'' e f s =
      let (p, q) =
        some_pair {p = h.memory + x} {q = h.memory + a} {h = h''} {h' = h'} (sym f ∙ e) in
      subst (λ (k : Heap). Sound k (a ∷ live)) q
        (subst (λ (t : ℕ). Sound h'' (t ∷ live)) (same_offset h.memory x a p) s)

module _ (h h' : Heap) (live : List ℕ) (s : Sound h live) where
  open s use {blocks, free as free_blocks, valid}

  after_alloc :
      (n a : ℕ) → 0 < n → heap_alloc h.size h n ≡ some (h.memory + a, h') → Sound h' (a ∷ live)
  after_alloc n a pos e =
      elim (heap_alloc_lem h.size h blocks free_blocks live n valid pos
        (free_length h blocks free_blocks live valid)) [
          | inl (f, _) ↦ absurd (not_null h h' live a valid.memory_ne (heap_alloc h.size h n) e f)
          | inr (x, h'', f, _, out) ↦
              handed_over h h' live a valid.memory_ne (heap_alloc h.size h n) x h'' e f
                (record { blocks = out.blocks; free = out.free; valid = out.valid })
        ]

  after_failure : (n : ℕ) → 0 < n → heap_alloc h.size h n ≡ some (0, h') → Sound h' live
  after_failure n pos e =
      elim (heap_alloc_lem h.size h blocks free_blocks live n valid pos
        (free_length h blocks free_blocks live valid)) [
          | inl (f, _) ↦
              let (_, q) = some_pair {p = 0} {q = 0} {h = h} {h' = h'} (sym f ∙ e) in
              subst (λ (k : Heap). Sound k live) q s
          | inr (x, h'', f, _, _) ↦
              let (p, _) = some_pair {p = h.memory + x} {q = 0} {h = h''} {h' = h'} (sym f ∙ e) in
              let pos' = valid.memory_ne in absurd (omega arith)
        ]

  after_aligned :
      (n alignment a : ℕ)
      → 0 < n
      → 0 < alignment
      → alignment ≤ 2 ^ 30
      → bit_and alignment (alignment - 1) ≡ 0
      → heap_alloc_aligned h.size h n alignment ≡ some (h.memory + a, h')
      → Sound h' (a ∷ live)
  after_aligned n al a pos ap_ small power e =
      elim (heap_alloc_aligned_lem h.size h blocks free_blocks live n al valid pos ap_ small power
        (free_length h blocks free_blocks live valid)) [
          | inl f ↦
              absurd (not_null h h' live a valid.memory_ne (heap_alloc_aligned h.size h n al) e f)
          | inr (x, q, h'', f, _, out) ↦
              handed_over h h' live a valid.memory_ne (heap_alloc_aligned h.size h n al) x h'' e f
                (record { blocks = out.blocks; free = out.free; valid = out.valid })
        ]

  module _ (xs : List ℕ) (a : ℕ) (ys live' : List ℕ) (e : live ≡ xs ++ (a ∷ ys))
      (f : live' ≡ xs ++ ys) where
    held : IsHeap h blocks free_blocks (xs ++ (a ∷ ys))
    held = subst (λ (t : List ℕ). IsHeap h blocks free_blocks t) e valid

    after_free : heap_free h (h.memory + a) ≡ h' → Sound h' live'
    after_free g =
        let out = heap_free_lem h blocks free_blocks xs a ys held in
        subst (λ (k : Heap). Sound k live') g
          (subst (λ (t : List ℕ). Sound (heap_free h (h.memory + a)) t) (sym f)
            (record { blocks = out.blocks; free = out.free; valid = out.valid }))

    after_free_secure :
        (k : ℕ)
        → k < (h.blocks a).size
        → heap_free_secure h.size h (h.memory + a + k) ≡ some h'
        → Sound h' live'
    after_free_secure k lt g =
        let (h'', r, out, _) =
          heap_free_secure_lem h blocks free_blocks xs a ys k h.size held lt
            (used_length h blocks free_blocks (xs ++ (a ∷ ys)) held) in
        let same : h'' ≡ h' = some_heap h'' h' (sym r ∙ g) in
        subst (λ (t : Heap). Sound t live') same
          (subst (λ (t : List ℕ). Sound h'' t) (sym f)
            (record { blocks = out.blocks; free = out.free; valid = out.valid }))

after_create :
    (h : Heap) (arena size : ℕ) (b : Blocks) (bytes : ℕ → ℕ)
    → size < 2 ^ 31
    → heap_create arena size b bytes ≡ some h
    → Sound h []
after_create h arena size b bytes small e = elim (heap_create_lem arena size b bytes small) [
  | inl (_, f) ↦ absurd (not_some (heap_create arena size b bytes) h e f)
  | inr (h'', f, v, _, _) ↦
      subst (λ (k : Heap). Sound k []) (some_heap h'' h (sym f ∙ e))
        (record { blocks = 24 ∷ []; free = 24 ∷ []; valid = v })
]
  where
    not_some : (r : Option Heap) (k : Heap) → r ≡ some k → r ≡ none → ⊥
    not_some r k p q = cc

-- Every heap that a session leaves is valid, with the blocks of the client in use.
Session-Sound : {h : Heap} {live : List ℕ} → Session h live → Sound h live
Session-Sound (created arena size b bytes small e) = after_create _ arena size b bytes small e
Session-Sound (alloc r n a pos e) = after_alloc _ _ _ (Session-Sound r) n a pos e
Session-Sound (alloc_failed r n pos e) = after_failure _ _ _ (Session-Sound r) n pos e
Session-Sound (alloc_aligned r n al a pos ap_ small power e) =
    after_aligned _ _ _ (Session-Sound r) n al a pos ap_ small power e
Session-Sound (free r xs a ys e f g) = after_free _ _ _ (Session-Sound r) xs a ys _ e f g
Session-Sound (free_secure r xs a ys k e f lt g) =
    after_free_secure _ _ _ (Session-Sound r) xs a ys _ e f k lt g

-- In every session the blocks that a client holds lie in the region, none is empty, and two of them
-- share no byte, headers included.
pub session_lem :
    {h : Heap} {live : List ℕ}
    → Session h live
    → ((a : ℕ)
        → Member a live
        → (24 ≤ a) × (0 < (h.blocks a).size) × (a + (h.blocks a).size ≤ h.size))
      × ((a c : ℕ) → Member a live → Member c live → a < c → a + (h.blocks a).size + 24 ≤ c)
session_lem {h} {live} r =
    let s = Session-Sound r in
    let v = s.valid in
    (
      λ a m.
          let there = (v.used_in a m).0 in
          let (low, high) = block_bounds h s.blocks s.free live v a there in
          (low, v.nonempty a there, high),
      λ a c m k lt.
          Layout-apart h.blocks h.size 0 s.blocks a c v.layout (v.used_in a m).0 (v.used_in c k).0
            lt,
    )
