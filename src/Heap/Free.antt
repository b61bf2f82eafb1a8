-- ===== src/Heap/Free.antt =====
-- HeappFree of src/mem.c on a used block.
use deepshield.Prelude.{
  ℕ, ◌<◌, ◌≡◌, ◌≢◌, ◌∙◌, ◌⊎◌, inl, inr, refl, sym, ap, List, [], ◌∷◌, ◌++◌, Member, arith, Bool,
  Member-append_right, append_assoc,
}
use mathlib.Core.Path.{subst}
use deepshield.Heap.{Heap, coalesce, block_free, block_used}
use deepshield.Heap.Lists.{first}
use deepshield.Heap.Chains.{Member-middle}
use deepshield.Heap.Layout.{
  Layout, Layout-before, Layout-pprev, Layout-pprev_lt, Layout-drop, Layout-pnext,
}
use deepshield.Heap.Tiling.{in_ne}
use deepshield.Heap.Cases.{Open}
use deepshield.Heap.Coalesce.{
  Freed, Used, no_block-Used, state-Used, Freed-alone, Freed-with_next, Freed-into_prev,
  Freed-all_three,
}

module _ (secure : Bool) (h : Heap) (ps : List ℕ) (a : ℕ) (qs free used : List ℕ)
    (v : Open h (ps ++ (a ∷ qs)) free used (a ∷ [])) where
  abbrev prev : ℕ
  prev = (h.blocks a).pprev

  abbrev next : ℕ
  next = (h.blocks a).pnext

  a_ne : a ≢ 0
  a_ne =
      in_ne h.blocks h.size block_free h.free_list free block_used h.used_list used (ps ++ (a ∷ qs))
        (a ∷ []) v a (Member-middle ps a qs)

  -- There is no block before, or it ends where this one starts.
  before : (prev ≡ 0) ⊎ ((ws : List ℕ) × (ps ++ (a ∷ qs) ≡ ws ++ (prev ∷ a ∷ qs)) × (prev < a))
  before = elim (Layout-pprev h.blocks h.size 0 ps a qs v.layout) [
    | inl (_, z) ↦ inl z
    | inr (ws, e) ↦ inr (
      ws,
      ap (λ (t : List ℕ). t ++ (a ∷ qs)) e ∙ append_assoc ws (prev ∷ []) (a ∷ qs),
      omega (
        arith,
        Layout-before h.blocks h.size 0 ps a qs prev v.layout
            (subst (λ (t : List ℕ). Member prev t) (sym e) (Member-middle ws prev [])),
      ),
    )
  ]

  prev_lt : prev < a
  prev_lt = Layout-pprev_lt h.blocks h.size ps a qs v.layout (omega (arith, a_ne))

  from_a : Layout h.blocks h.size prev (a ∷ qs)
  from_a = Layout-drop h.blocks h.size 0 ps a qs v.layout

  next_gt : (next ≡ 0) ⊎ (a < next)
  next_gt = elim (Layout-pnext h.blocks h.size prev a qs from_a) [
    | inl z ↦ inl z
    | inr e ↦ inr (omega arith)
  ]

  behind : (next ≡ 0) ⊎ ((rs : List ℕ) × (qs ≡ next ∷ rs))
  behind = go qs from_a.1
    where
      go : (zs : List ℕ) → next ≡ first zs 0 → (next ≡ 0) ⊎ ((rs : List ℕ) × (zs ≡ next ∷ rs))
      go [] e = inl e
      go (z ∷ zs) e = inr (zs, ap (λ (t : ℕ). t ∷ zs) (sym e))

  -- A neighbour is a free block or a used one.
  in_list : (x : ℕ) → x ≢ a → Member x (ps ++ (a ∷ qs)) → Member x free ⊎ Used h x
  in_list x n m = elim (v.cover x m) [
    | inl k ↦ inl k
    | inr (inl k) ↦ inr (state-Used h x (v.right_in x k).1)
    | inr (inr (inl e)) ↦ absurd (n e)
    | inr (inr (inr k)) ↦ elim k [ ]
  ]

  prev_kind :
      Used h prev ⊎ ((ws : List ℕ) × (ps ++ (a ∷ qs) ≡ ws ++ (prev ∷ a ∷ qs)) × Member prev free)
  prev_kind = elim before [
    | inl z ↦ inl (no_block-Used h prev z)
    | inr (ws, e, lt) ↦
        elim (in_list prev (λ w. omega arith)
          (subst (λ (t : List ℕ). Member prev t) (sym e) (Member-middle ws prev (a ∷ qs)))) [
            | inl k ↦ inr (ws, e, k)
            | inr u ↦ inl u
          ]
  ]

  next_kind : Used h next ⊎ ((rs : List ℕ) × (qs ≡ next ∷ rs) × Member next free)
  next_kind = elim behind [
    | inl z ↦ inl (no_block-Used h next z)
    | inr (rs, e) ↦
        let m : Member next qs = subst (λ (t : List ℕ). Member next t) (sym e) (inl refl) in
        let there = Member-append_right next ps (a ∷ qs) (inr m) in
        let next_ne : next ≢ 0 =
          in_ne h.blocks h.size block_free h.free_list free block_used h.used_list used
            (ps ++ (a ∷ qs)) (a ∷ []) v next there in
        let next_a : next ≢ a = λ w. elim next_gt [ inl z ↦ next_ne z | inr g ↦ omega arith ] in
        elim (in_list next next_a there) [ inl k ↦ inr (rs, e, k) | inr u ↦ inl u ]
  ]

  -- One of the four cases applies.
  pub coalesce-Freed : Freed h (coalesce secure h prev a next) used
  coalesce-Freed = elim prev_kind [
    | inl p ↦ elim next_kind [
      | inl n ↦ Freed-alone secure h (ps ++ (a ∷ qs)) free used prev a next v prev_lt next_gt p n
      | inr (rs, e, n) ↦
          Freed-with_next secure h (ps ++ (a ∷ qs)) free used prev a next v prev_lt next_gt ps rs
            (ap (λ (t : List ℕ). ps ++ (a ∷ t)) e) p n
    ]
    | inr (ws, f, p) ↦ elim next_kind [
      | inl n ↦
          Freed-into_prev secure h (ps ++ (a ∷ qs)) free used prev a next v prev_lt next_gt ws qs f
            p n
      | inr (rs, e, n) ↦
          Freed-all_three secure h (ps ++ (a ∷ qs)) free used prev a next v prev_lt next_gt ws rs
            (f ∙ ap (λ (t : List ℕ). ws ++ (prev ∷ a ∷ t)) e) p n
    ]
  ]
