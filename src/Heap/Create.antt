-- ===== src/Heap/Create.antt =====
-- HeapCreate of src/mem.c, and how many blocks a heap can have.
use deepshield.Prelude.{
  ℕ, ◌+◌, ◌-◌, ◌*◌, ◌≤◌, ◌<◌, ◌^◌, ◌≡◌, ◌∙◌, ◌⊎◌, inl, inr, refl, sym, ap, List, [], ◌∷◌, ◌++◌,
  length, length-append, Member, Distinct, Member-split, none, some, arith, ltb, Bool-cases, ltb→lt,
}
use mathlib.Core.Path.{subst}
use deepshield.Heap.{Heap, Blocks, HeapBlock, heap_create, set_block, block_free, page_size}
use deepshield.Heap.Chains.{Member-keep}
use deepshield.Heap.Lists.{first}
use deepshield.Heap.Layout.{Layout}
use deepshield.Heap.Inv.{IsHeap}

-- The heap that HeapCreate sets up.
abbrev pub first_block : ℕ → HeapBlock
first_block size = record {
  state = block_free;
  size = size - page_size - 24;
  pprev = 0;
  pnext = 0;
  vprev = 0;
  vnext = 0;
}

abbrev pub created : ℕ → ℕ → Blocks → (ℕ → ℕ) → Heap
created arena size b bytes = record {
  memory = arena + page_size;
  size = size - page_size;
  free_list = 24;
  used_list = 0;
  blocks = set_block b 24 (first_block size);
  bytes = bytes;
}

at_start : (b : Blocks) (v : HeapBlock) → set_block b 24 v 24 ≡ v
unfolding set_block
at_start b v = refl

pub created-IsHeap :
    (arena size : ℕ) (b : Blocks) (bytes : ℕ → ℕ)
    → 16 * page_size ≤ size
    → size < 2 ^ 31
    → IsHeap (created arena size b bytes) (24 ∷ []) (24 ∷ []) []
created-IsHeap arena size b bytes large small =
    let e = at_start b (first_block size) in
    let sz : (set_block b 24 (first_block size) 24).size ≡ size - page_size - 24 =
      ap (λ (r : HeapBlock). r.size) e in
    record {
      layout =
          (ap (λ (r : HeapBlock). r.pprev) e, ap (λ (r : HeapBlock). r.pnext) e, omega arith, tt);
      start_first = refl;
      frees = record {
        head_first = refl;
        listed = (ap (λ (r : HeapBlock). r.vprev) e, ap (λ (r : HeapBlock). r.vnext) e, tt);
        distinct = ((λ m. elim m [ ]), tt);
        nonzero = λ m. elim m [ inl k ↦ absurd (omega arith) | inr k ↦ elim k [ ] ];
      };
      useds = record { head_first = refl; listed = tt; distinct = tt; nonzero = λ m. elim m [ ] };
      free_in = λ i m. (
        m,
        elim m [
          | inl k ↦
              ap (λ (j : ℕ). (set_block b 24 (first_block size) j).state) k
              ∙ ap (λ (r : HeapBlock). r.state) e
          | inr k ↦ elim k [ ]
        ],
      );
      used_in = λ i m. elim m [ ];
      cover = λ i m. inl m;
      nonempty = λ i m. elim m [
        | inl k ↦
            subst (λ (j : ℕ). 0 < (set_block b 24 (first_block size) j).size) (sym k) (omega arith)
        | inr k ↦ elim k [ ]
      ];
      memory_ne = omega arith;
      fits = omega arith;
    }

-- HeapCreate: a region of less than 16 pages is refused, and of any other it makes a heap with one
-- free block and no used one.
pub heap_create_lem :
    (arena size : ℕ) (b : Blocks) (bytes : ℕ → ℕ)
    → size < 2 ^ 31
    → ((size < 65536) × (heap_create arena size b bytes ≡ none))
      ⊎ ((h : Heap) × (heap_create arena size b bytes ≡ some h)
          × IsHeap h (24 ∷ []) (24 ∷ []) []
          × (h.memory ≡ arena + 4096)
          × (h.size ≡ size - 4096))
unfolding heap_create
heap_create_lem arena size b bytes small = elim (Bool-cases (ltb size 65536)) [
  | inl t ↦ inl (ltb→lt size 65536 t, rw t refl)
  | inr t ↦ inr (
    created arena size b bytes,
    rw t refl,
    created-IsHeap arena size b bytes (ground arith) small,
    refl,
    refl,
  )
]

-- A list without repetition is no longer than one that holds its members.
length_of_Distinct :
    (xs ys : List ℕ) → Distinct xs → ((i : ℕ) → Member i xs → Member i ys) → length xs ≤ length ys
length_of_Distinct [] ys d f = omega arith
length_of_Distinct (x ∷ xs) ys (n, d) f =
    let (ls, rs, e) = Member-split x ys (f x (inl refl)) in
    let rest = length_of_Distinct xs (ls ++ rs) d (λ i m.
      elim (Member-keep ls x rs i (subst (λ (t : List ℕ). Member i t) e (f i (inr m)))) [
        | inl k ↦ absurd (n (subst (λ (j : ℕ). Member j xs) k m))
        | inr k ↦ k
      ]) in
    let l = ap (λ (t : List ℕ). length t) e in
    omega (arith, length-append ls rs, length-append ls (x ∷ rs))

layout_length :
    (b : Blocks) (n p x : ℕ) (xs : List ℕ) → Layout b n p (x ∷ xs) → x + 24 * length xs ≤ n
layout_length b n p x [] (e, m, s, l) = omega arith
layout_length b n p x (y ∷ xs) (e, m, s, l) = omega (arith, layout_length b n x y xs l)

blocks_length :
    (b : Blocks) (n : ℕ) (xs : List ℕ) → Layout b n 0 xs → first xs 0 ≡ 24 → length xs < n
blocks_length b n [] l s = absurd (omega arith)
blocks_length b n (x ∷ xs) l s = omega (arith, layout_length b n 0 x xs l)

-- As many rounds as the heap has bytes are more than enough for a walk of either list.
module _ (h : Heap) (blocks free used : List ℕ) (v : IsHeap h blocks free used) where
  few_blocks : length blocks < h.size
  few_blocks = blocks_length h.blocks h.size blocks v.layout v.start_first

  pub free_length : length free < h.size
  free_length = omega (
    arith,
    few_blocks,
    length_of_Distinct free blocks v.frees.distinct (λ i m. (v.free_in i m).0),
  )

  pub used_length : length used < h.size
  used_length = omega (
    arith,
    few_blocks,
    length_of_Distinct used blocks v.useds.distinct (λ i m. (v.used_in i m).0),
  )
