-- ===== src/Heap/Cases.antt =====
-- The four cases of HeappFree in src/mem.c, from a block that has left the list of used ones.
use deepshield.Prelude.{
  ℕ, ◌+◌, ◌<◌, ◌≡◌, ◌⊎◌, inl, inr, refl, List, [], ◌∷◌, ◌++◌, Member, arith, Bool,
}
use deepshield.Heap.{
  Heap, Blocks, block_unlink, absorb, zero_if, block_free, block_used, free_alone, free_with_next,
  free_into_prev, free_all_three,
}
use deepshield.Heap.Layout.{Layout, Layout-drop}
use deepshield.Heap.Tiling.{Tiling, detach, attach}
use deepshield.Heap.Merge.{merge, not_kept, zero-Tiling}

-- The sums of sizes in the code, for two and for three neighbours.
two_sizes :
    (b : Blocks) (n p a next : ℕ) (qs : List ℕ)
    → Layout b n p (a ∷ next ∷ qs)
    → a + ((b a).size + (24 + (b next).size)) ≡ next + (b next).size
two_sizes b n p a next qs (_, _, s, _) = omega arith

three_sizes :
    (b : Blocks) (n p prev a next : ℕ) (qs : List ℕ)
    → Layout b n p (prev ∷ a ∷ next ∷ qs)
    → prev + ((b prev).size + (24 + (b a).size + 24 + (b next).size)) ≡ next + (b next).size
three_sizes b n p prev a next qs (_, _, s, (_, _, t, _)) = omega arith

ascending : (b : Blocks) (n p a next : ℕ) (qs : List ℕ) → Layout b n p (a ∷ next ∷ qs) → a < next
ascending b n p a next qs (_, _, s, _) = omega arith

next_only : {next : ℕ} (i : ℕ) → Member i (next ∷ []) → (a : ℕ) → Member i (next ∷ a ∷ [])
next_only i (inl e) a = inl e
next_only i (inr m) a = elim m [ ]

first_or_rest :
    {next a : ℕ} (i : ℕ) → Member i (next ∷ a ∷ []) → Member i (next ∷ []) ⊎ Member i (a ∷ [])
first_or_rest i (inl e) = inl (inl e)
first_or_rest i (inr m) = inr m

only_rest :
    {next a : ℕ} (i : ℕ)
    → Member i (a ∷ [])
    → a < next
    → Member i (next ∷ a ∷ []) × ¬ Member i (next ∷ [])
only_rest i (inl e) lt = (inr (inl e), λ m. elim m [ inl k ↦ absurd (omega arith) | inr k ↦ k ])
only_rest i (inr m) lt = elim m [ ]

-- The heap in which the blocks `loose` are in neither list.
abbrev pub Open : Heap → List ℕ → List ℕ → List ℕ → List ℕ → Type 0
Open h blocks free used loose =
    Tiling h.blocks h.size block_free h.free_list free block_used h.used_list used blocks loose

pub free_alone-Open :
    (h : Heap) (blocks free used : List ℕ) (a : ℕ)
    → Open h blocks free used (a ∷ [])
    → Open (free_alone h a) blocks (a ∷ free) used []
unfolding free_alone
free_alone-Open h blocks free used a v =
    attach h.blocks h.size block_free h.free_list free block_used h.used_list used blocks a v

-- The block behind is free: both become one block.
pub free_with_next-Open :
    (secure : Bool) (h : Heap) (ps : List ℕ) (a next : ℕ) (qs fl fr used : List ℕ)
    → Open h (ps ++ (a ∷ next ∷ qs)) (fl ++ (next ∷ fr)) used (a ∷ [])
    → Open (free_with_next secure h a next) (ps ++ (a ∷ qs)) (a ∷ (fl ++ fr)) used []
unfolding free_with_next
free_with_next-Open secure h ps a next qs fl fr used v =
    let blocks = ps ++ (a ∷ next ∷ qs) in
    let b1 = (block_unlink h.blocks h.free_list next).0 in
    let free' = (block_unlink h.blocks h.free_list next).1 in
    let size = (b1 a).size + (24 + (b1 next).size) in
    let taken =
      detach h.blocks h.size block_free h.free_list fl next fr block_used h.used_list used blocks
        (a ∷ []) v in
    let l = Layout-drop b1 h.size 0 ps a (next ∷ qs) taken.layout in
    let a_lt = ascending b1 h.size (b1 a).pprev a next qs l in
    let gone : (i : ℕ) → Member i (next ∷ []) → ¬ Member i (fl ++ fr) × ¬ Member i used =
      λ i m. let (_, p, q) = taken.loose_in i (next_only i m a) in (p, q) in
    let stay : (i : ℕ) → Member i (next ∷ a ∷ []) → Member i (next ∷ []) ⊎ Member i (a ∷ []) =
      λ i m. first_or_rest i m in
    let back : (i : ℕ) → Member i (a ∷ []) → Member i (next ∷ a ∷ []) × ¬ Member i (next ∷ []) =
      λ i m. only_rest i m a_lt in
    let merged =
      merge b1 h.size block_free free' (fl ++ fr) block_used h.used_list used ps a [] next qs
        (next ∷ a ∷ []) (a ∷ []) size taken (two_sizes b1 h.size (b1 a).pprev a next qs l) gone stay
        back in
    let zeroed =
      zero-Tiling (absorb b1 a next size) h.size block_free free' (fl ++ fr) block_used h.used_list
        used (ps ++ (a ∷ qs)) (a ∷ []) next secure merged
        (not_kept b1 h.size block_free free' (fl ++ fr) block_used h.used_list used ps a [] next qs
          (next ∷ a ∷ []) (a ∷ []) size taken (two_sizes b1 h.size (b1 a).pprev a next qs l) gone
          stay back next (inl refl)) in
    attach (zero_if secure (absorb b1 a next size) next) h.size block_free free' (fl ++ fr)
      block_used h.used_list used (ps ++ (a ∷ qs)) a zeroed

-- The block before is free: it takes the block in.
pub free_into_prev-Open :
    (secure : Bool) (h : Heap) (ps : List ℕ) (prev a : ℕ) (qs free used : List ℕ)
    → Open h (ps ++ (prev ∷ a ∷ qs)) free used (a ∷ [])
    → Open (free_into_prev secure h prev a) (ps ++ (prev ∷ qs)) free used []
unfolding free_into_prev
free_into_prev-Open secure h ps prev a qs free used v =
    let b = h.blocks in
    let size = (b prev).size + (24 + (b a).size) in
    let sizes =
      two_sizes b h.size (b prev).pprev prev a qs
        (Layout-drop b h.size 0 ps prev (a ∷ qs) v.layout) in
    let gone : (i : ℕ) → Member i (a ∷ []) → ¬ Member i free × ¬ Member i used =
      λ i m. let (_, p, q) = v.loose_in i m in (p, q) in
    let stay : (i : ℕ) → Member i (a ∷ []) → Member i (a ∷ []) ⊎ Member i [] = λ i m. inl m in
    let back : (i : ℕ) → Member i [] → Member i (a ∷ []) × ¬ Member i (a ∷ []) =
      λ i m. elim m [ ] in
    zero-Tiling (absorb b prev a size) h.size block_free h.free_list free block_used h.used_list
      used (ps ++ (prev ∷ qs)) [] a secure
      (merge b h.size block_free h.free_list free block_used h.used_list used ps prev [] a qs
        (a ∷ []) [] size v sizes gone stay back)
      (not_kept b h.size block_free h.free_list free block_used h.used_list used ps prev [] a qs
        (a ∷ []) [] size v sizes gone stay back a (inl refl))

-- Both neighbours are free: the block before takes in the other two.
pub free_all_three-Open :
    (secure : Bool) (h : Heap) (ps : List ℕ) (prev a next : ℕ) (qs fl fr used : List ℕ)
    → Open h (ps ++ (prev ∷ a ∷ next ∷ qs)) (fl ++ (next ∷ fr)) used (a ∷ [])
    → Open (free_all_three secure h prev a next) (ps ++ (prev ∷ qs)) (fl ++ fr) used []
unfolding free_all_three
free_all_three-Open secure h ps prev a next qs fl fr used v =
    let blocks = ps ++ (prev ∷ a ∷ next ∷ qs) in
    let b1 = (block_unlink h.blocks h.free_list next).0 in
    let free' = (block_unlink h.blocks h.free_list next).1 in
    let size = (b1 prev).size + (24 + (b1 a).size + 24 + (b1 next).size) in
    let taken =
      detach h.blocks h.size block_free h.free_list fl next fr block_used h.used_list used blocks
        (a ∷ []) v in
    let sizes =
      three_sizes b1 h.size (b1 prev).pprev prev a next qs
        (Layout-drop b1 h.size 0 ps prev (a ∷ next ∷ qs) taken.layout) in
    let gone : (i : ℕ) → Member i (next ∷ a ∷ []) → ¬ Member i (fl ++ fr) × ¬ Member i used =
      λ i m. let (_, p, q) = taken.loose_in i m in (p, q) in
    let stay : (i : ℕ) → Member i (next ∷ a ∷ []) → Member i (next ∷ a ∷ []) ⊎ Member i [] =
      λ i m. inl m in
    let back : (i : ℕ) → Member i [] → Member i (next ∷ a ∷ []) × ¬ Member i (next ∷ a ∷ []) =
      λ i m. elim m [ ] in
    let merged =
      merge b1 h.size block_free free' (fl ++ fr) block_used h.used_list used ps prev (a ∷ []) next
        qs (next ∷ a ∷ []) [] size taken sizes gone stay back in
    let outside : (i : ℕ) → Member i (next ∷ a ∷ []) → ¬ Member i (ps ++ (prev ∷ qs)) =
      not_kept b1 h.size block_free free' (fl ++ fr) block_used h.used_list used ps prev (a ∷ [])
        next qs (next ∷ a ∷ []) [] size taken sizes gone stay back in
    zero-Tiling (zero_if secure (absorb b1 prev next size) a) h.size block_free free' (fl ++ fr)
      block_used h.used_list used (ps ++ (prev ∷ qs)) [] next secure
      (zero-Tiling (absorb b1 prev next size) h.size block_free free' (fl ++ fr) block_used
        h.used_list used (ps ++ (prev ∷ qs)) [] a secure merged (outside a (inr (inl refl))))
      (outside next (inl refl))
