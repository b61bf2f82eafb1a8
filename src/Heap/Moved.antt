-- ===== src/Heap/Moved.antt =====
-- The second branch of HeappAlign in src/mem.c keeps the heap's invariant.
use deepshield.Prelude.{
  ℕ, ◌+◌, ◌-◌, ◌≤◌, ◌<◌, ◌≡◌, ◌≢◌, ◌∙◌, ◌⊎◌, inl, inr, refl, sym, ap, List, [], ◌∷◌, ◌++◌, Member,
  arith, Bool, ◌==◌, if_ne, if_self, if◌then◌else◌, Bool-cases, Member-append_left,
  Member-append_right, Member-append,
}
use mathlib.Core.Path.{subst}
use deepshield.Heap.{Heap, Blocks, block_unlink, block_link, shift_block}
use deepshield.Heap.Lists.{first, SameLinks, ne_of_member}
use deepshield.Heap.Chains.{
  IsList, IsList-frame, link-IsList, link-other, unlink-IsList, unlink-other, Member-middle,
  Member-remove, Member-keep, Distinct-remove,
}
use deepshield.Heap.Layout.{
  Layout, SameTile, Layout-frame, Layout-splice, Layout-after, Layout-before, Layout-pnext,
  Layout-drop,
}
use deepshield.Heap.Inv.{IsHeap, block_bounds, not_both, not_inside}
use deepshield.Heap.Split.{first_kept}
use deepshield.Heap.Shift.{
  relinked, unlinked, moved, shifted, shifted_list, relinked_links, moved_links, shift-size,
  shift-state, shift-pprev, shift-pnext,
}

module _ (h : Heap) (ps : List ℕ) (prev a : ℕ) (qs fl fr used : List ℕ) (x gap : ℕ)
    (v : IsHeap h (ps ++ (prev ∷ a ∷ qs)) (fl ++ (a ∷ fr)) used)
    (at_prev : (h.blocks a).pprev ≡ prev) (at_x : x ≡ a + gap) (gap_pos : 0 < gap)
    (room : gap < (h.blocks a).size) where
  abbrev old : List ℕ
  old = ps ++ (prev ∷ a ∷ qs)

  abbrev next : ℕ
  next = (h.blocks a).pnext

  from_prev : Layout h.blocks h.size (h.blocks prev).pprev (prev ∷ a ∷ qs)
  from_prev = Layout-drop h.blocks h.size 0 ps prev (a ∷ qs) v.layout

  prev_end : prev + (h.blocks prev).size + 24 ≡ a
  prev_end = from_prev.2

  prev_pos : 24 ≤ prev
  prev_pos = (block_bounds h old (fl ++ (a ∷ fr)) used v prev (Member-middle ps prev (a ∷ qs))).0

  a_in : Member a old
  a_in = Member-append_right a ps (prev ∷ a ∷ qs) (inr (inl refl))

  next_is : (next ≡ 0) ⊎ (next ≡ a + (h.blocks a).size + 24)
  next_is = Layout-pnext h.blocks h.size prev a qs from_prev.3

  next_ne : (i : ℕ) → i ≢ 0 → i < a + (h.blocks a).size + 24 → next ≢ i
  next_ne i z lt e = elim next_is [ inl n ↦ z (sym e ∙ n) | inr n ↦ omega arith ]

  x_new : ¬ Member x old
  x_new = not_inside h old (fl ++ (a ∷ fr)) used v a x a_in (omega arith) (omega arith)

  next_a : next ≢ a
  next_a = next_ne a (λ e. omega (arith, prev_end)) (omega arith)

  prev_a : (h.blocks a).pprev ≢ a
  prev_a e = omega (arith, prev_end)

  prev_x : (h.blocks a).pprev ≢ x
  prev_x e = omega (arith, prev_end)

  x_a : x ≢ a
  x_a e = omega arith

  next_x : next ≢ x
  next_x = next_ne x (λ e. omega (arith, prev_end)) (omega arith)

  prev_next : (h.blocks a).pprev ≢ next
  prev_next e =
      next_ne prev (λ z. omega (arith, prev_pos)) (omega (arith, prev_end)) (sym e ∙ at_prev)

  a_ne : a ≢ 0
  a_ne e = omega (arith, prev_end)

  abbrev new : Blocks
  new = (shift_block h a x gap).blocks

  size_at :
      (i : ℕ)
      → (new i).size ≡ (
          if i == x
          then (h.blocks a).size - gap
          else (if i == prev then (h.blocks i).size + gap else (h.blocks i).size))
  size_at i =
      subst
        (λ (p : ℕ). (new i).size ≡ (
          if i == x
          then (h.blocks a).size - gap
          else (if i == p then (h.blocks i).size + gap else (h.blocks i).size)))
        at_prev (shift-size h a x gap next_a prev_a prev_x x_a next_x prev_next a_ne i)

  pprev_at :
      (i : ℕ)
      → i ≢ 0
      → (new i).pprev ≡ (if i == x then prev else (if i == next then x else (h.blocks i).pprev))
  pprev_at i z =
      subst
        (λ (p : ℕ).
          (new i).pprev ≡ (if i == x then p else (if i == next then x else (h.blocks i).pprev)))
        at_prev (shift-pprev h a x gap next_a prev_a prev_x x_a next_x prev_next a_ne i z)

  pnext_at :
      (i : ℕ)
      → (new i).pnext ≡ (if i == x then next else (if i == prev then x else (h.blocks i).pnext))
  pnext_at i =
      subst
        (λ (p : ℕ).
          (new i).pnext ≡ (if i == x then next else (if i == p then x else (h.blocks i).pnext)))
        at_prev (shift-pnext h a x gap next_a prev_a prev_x x_a next_x prev_next a_ne i)

  state_at : (i : ℕ) → (new i).state ≡ (if i == x then (h.blocks a).state else (h.blocks i).state)
  state_at i = shift-state h a x gap next_a prev_a prev_x x_a next_x prev_next a_ne i

  away : (i : ℕ) → i ≢ 0 → i ≢ x → i ≢ prev → i ≢ next → SameTile h.blocks new i
  away i z nx np nn = (
    size_at i ∙ if_ne i x _ _ nx ∙ if_ne i prev _ _ np,
    pprev_at i z ∙ if_ne i x _ _ nx ∙ if_ne i next _ _ nn,
    pnext_at i ∙ if_ne i x _ _ nx ∙ if_ne i prev _ _ np,
  )

  x_ne : x ≢ 0
  x_ne e = omega (arith, prev_pos)

  prev_ne : prev ≢ 0
  prev_ne e = omega (arith, prev_pos)

  prev_ne_x : prev ≢ x
  prev_ne_x e = prev_x (at_prev ∙ e)

  prev_ne_next : prev ≢ next
  prev_ne_next e = prev_next (at_prev ∙ e)

  behind :
      (zs : List ℕ)
      → ((i : ℕ) → Member i zs → a + (h.blocks a).size + 24 ≤ i)
      → next ≡ first zs 0
      → Layout h.blocks h.size a zs
      → Layout new h.size x zs
  behind [] gt e l = tt
  behind (z ∷ zs) gt e (f, g, s, l) =
      let z_far = gt z (inl refl) in
      let z_x : z ≢ x = λ w. omega arith in
      let z_prev : z ≢ prev = λ w. omega (arith, prev_end) in
      let z_ne : z ≢ 0 = λ w. omega arith in
      (
        pprev_at z z_ne
            ∙ if_ne z x _ _ z_x
            ∙ subst (λ (k : ℕ). (if k == next then x else (h.blocks k).pprev) ≡ x) e
                (if_self next _ _),
        pnext_at z ∙ if_ne z x _ _ z_x ∙ if_ne z prev _ _ z_prev ∙ g,
        ap (λ (t : ℕ). z + t + 24) (size_at z ∙ if_ne z x _ _ z_x ∙ if_ne z prev _ _ z_prev) ∙ s,
        Layout-frame h.blocks new h.size z zs
            (λ i w.
              let i_far = Layout-after h.blocks h.size a z zs i (f, g, s, l) w in
              away i (λ t. omega arith) (λ t. omega arith) (λ t. omega (arith, prev_end))
                (λ t. omega arith))
            l,
      )

  tail : (q : ℕ) → Layout h.blocks h.size q (prev ∷ a ∷ qs) → Layout new h.size q (prev ∷ x ∷ qs)
  tail q (e, m, s, (e', m', s', l)) =
      let prev_size = size_at prev ∙ if_ne prev x _ _ prev_ne_x ∙ if_self prev _ _ in
      let x_size = size_at x ∙ if_self x _ _ in
      (
        pprev_at prev prev_ne ∙ if_ne prev x _ _ prev_ne_x ∙ if_ne prev next _ _ prev_ne_next ∙ e,
        pnext_at prev ∙ if_ne prev x _ _ prev_ne_x ∙ if_self prev _ _,
        omega arith,
        (
          pprev_at x x_ne ∙ if_self x _ _,
          pnext_at x ∙ if_self x _ _ ∙ m',
          omega arith,
          behind qs (λ i w. Layout-after h.blocks h.size prev a qs i (e', m', s', l) w) m' l,
        ),
      )

  new_layout : Layout new h.size 0 (ps ++ (prev ∷ x ∷ qs))
  new_layout =
      Layout-splice h.blocks new h.size 0 ps prev (a ∷ qs) (x ∷ qs)
        (λ i m.
          let m' = Member-append_left i ps (prev ∷ a ∷ qs) m in
          let i_prev = Layout-before h.blocks h.size 0 ps prev (a ∷ qs) i v.layout m in
          let (low, _) = block_bounds h old (fl ++ (a ∷ fr)) used v i m' in
          let i_ne : i ≢ 0 = λ e. omega arith in
          away i i_ne (λ e. omega (arith, prev_end)) (λ e. omega arith)
            (λ e. next_ne i i_ne (omega (arith, prev_end)) (sym e)))
        tail v.layout

  before_move : Blocks
  before_move = relinked h a x gap

  relinked-IsList :
      (head : ℕ) (zs : List ℕ) → IsList h.blocks head zs → IsList (relinked h a x gap) head zs
  relinked-IsList head zs l =
      IsList-frame h.blocks (relinked h a x gap) head zs
        (λ i m. relinked_links h a x gap next_a prev_a prev_x x_a next_x prev_next i) l

  links : (i : ℕ) → i ≢ x → SameLinks (unlinked h a x gap) (moved h a x gap) i
  links i n = moved_links h a x gap next_a prev_a prev_x x_a next_x prev_next i n

  abbrev head' : ℕ
  head' = (block_unlink (relinked h a x gap) h.free_list a).1

  free_not_x : (i : ℕ) → Member i (fl ++ fr) → i ≢ x
  free_not_x i m = ne_of_member old i x (v.free_in i (Member-remove fl a fr i m)).0 x_new

  used_not_x : (i : ℕ) → Member i used → i ≢ x
  used_not_x i m = ne_of_member old i x (v.used_in i m).0 x_new

  x_not_free : ¬ Member x (fl ++ fr)
  x_not_free m = free_not_x x m refl

  moved_free : IsList (moved h a x gap) head' (fl ++ fr)
  moved_free =
      IsList-frame (unlinked h a x gap) (moved h a x gap) head' (fl ++ fr)
        (λ i m. links i (free_not_x i m))
        (unlink-IsList (relinked h a x gap) h.free_list fl a fr
          (relinked-IsList h.free_list (fl ++ (a ∷ fr)) v.frees))

  moved_used : IsList (moved h a x gap) h.used_list used
  moved_used =
      IsList-frame (unlinked h a x gap) (moved h a x gap) h.used_list used
        (λ i m. links i (used_not_x i m))
        (IsList-frame (relinked h a x gap) (unlinked h a x gap) h.used_list used
          (λ i m.
            unlink-other (relinked h a x gap) h.free_list fl a fr
              (relinked-IsList h.free_list (fl ++ (a ∷ fr)) v.frees) i
              (λ e.
                omega (arith, (block_bounds h old (fl ++ (a ∷ fr)) used v i (v.used_in i m).0).0))
              (λ k. not_both h old (fl ++ (a ∷ fr)) used v i k m))
          (relinked-IsList h.used_list used v.useds))

  new_free : IsList new (shift_block h a x gap).free_list (x ∷ (fl ++ fr))
  new_free =
      rw (shifted h a x gap, shifted_list h a x gap)
        (link-IsList (moved h a x gap) head' (fl ++ fr) x moved_free x_not_free x_ne)

  new_used : IsList new h.used_list used
  new_used = rw (shifted h a x gap) (
      IsList-frame (moved h a x gap) (block_link (moved h a x gap) head' x).0 h.used_list used
        (λ i m.
          link-other (moved h a x gap) head' (fl ++ fr) x i moved_free x_not_free (used_not_x i m)
            (λ k. not_both h old (fl ++ (a ∷ fr)) used v i (Member-remove fl a fr i k) m))
        moved_used)

  -- Membership with `x` in the place of `a`.
  renamed : (i : ℕ) → Member i old → i ≢ a → Member i (ps ++ (prev ∷ x ∷ qs))
  renamed i m n = elim (Member-append i ps (prev ∷ a ∷ qs) m) [
    | inl k ↦ Member-append_left i ps (prev ∷ x ∷ qs) k
    | inr (inl e) ↦ Member-append_right i ps (prev ∷ x ∷ qs) (inl e)
    | inr (inr (inl e)) ↦ absurd (n e)
    | inr (inr (inr k)) ↦ Member-append_right i ps (prev ∷ x ∷ qs) (inr (inr k))
  ]

  origin : (i : ℕ) → Member i (ps ++ (prev ∷ x ∷ qs)) → (i ≡ x) ⊎ (Member i old × (i ≢ a))
  origin i m = elim (Member-append i ps (prev ∷ x ∷ qs) m) [
    | inl k ↦ inr (
      Member-append_left i ps (prev ∷ a ∷ qs) k,
      λ e. omega (arith, prev_end, Layout-before h.blocks h.size 0 ps prev (a ∷ qs) i v.layout k),
    )
    | inr (inl e) ↦
        inr (Member-append_right i ps (prev ∷ a ∷ qs) (inl e), λ w. omega (arith, prev_end))
    | inr (inr (inl e)) ↦ inl e
    | inr (inr (inr k)) ↦ inr (
      Member-append_right i ps (prev ∷ a ∷ qs) (inr (inr k)),
      λ w. omega (arith, Layout-after h.blocks h.size prev a qs i from_prev.3 k),
    )
  ]

  x_in : Member x (ps ++ (prev ∷ x ∷ qs))
  x_in = Member-append_right x ps (prev ∷ x ∷ qs) (inr (inl refl))

  -- The sizes: the previous block gets the gap, and the free one loses it.
  pub shift-new_size : (new x).size ≡ (h.blocks a).size - gap
  shift-new_size = size_at x ∙ if_self x _ _

  pub shift-other_size : (i : ℕ) → Member i used → (h.blocks i).size ≤ (new i).size
  shift-other_size i m = elim (Bool-cases (i == prev)) [
    | inl e ↦
        let s =
          size_at i
          ∙ if_ne i x _ _ (used_not_x i m)
          ∙ ap (λ (c : Bool). if c then (h.blocks i).size + gap else (h.blocks i).size) e in
        omega arith
    | inr e ↦
        let s =
          size_at i
          ∙ if_ne i x _ _ (used_not_x i m)
          ∙ ap (λ (c : Bool). if c then (h.blocks i).size + gap else (h.blocks i).size) e in
        omega arith
  ]

  pos_at : (i : ℕ) → Member i old → i ≢ x → 0 < (new i).size
  pos_at i m n = elim (Bool-cases (i == prev)) [
    | inl e ↦
        let s =
          size_at i
          ∙ if_ne i x _ _ n
          ∙ ap (λ (c : Bool). if c then (h.blocks i).size + gap else (h.blocks i).size) e in
        omega arith
    | inr e ↦
        let s =
          size_at i
          ∙ if_ne i x _ _ n
          ∙ ap (λ (c : Bool). if c then (h.blocks i).size + gap else (h.blocks i).size) e in
        omega (arith, v.nonempty i m)
  ]

  state_old : (i : ℕ) → i ≢ x → (new i).state ≡ (h.blocks i).state
  state_old i n = state_at i ∙ if_ne i x _ _ n

  pub shift-IsHeap : IsHeap (shift_block h a x gap) (ps ++ (prev ∷ x ∷ qs)) (x ∷ (fl ++ fr)) used
  unfolding shift_block
  shift-IsHeap = record {
    layout = new_layout;
    start_first = first_kept ps prev (x ∷ qs) (a ∷ qs) ∙ v.start_first;
    frees = new_free;
    useds = new_used;
    free_in = λ i m. elim m [
      | inl e ↦ (
        subst (λ (k : ℕ). Member k (ps ++ (prev ∷ x ∷ qs))) (sym e) x_in,
        ap (λ (k : ℕ). (new k).state) e
            ∙ state_at x
            ∙ if_self x _ _
            ∙ (v.free_in a (Member-middle fl a fr)).1,
      )
      | inr k ↦
          let (w, s) = v.free_in i (Member-remove fl a fr i k) in
          (
            renamed i w
                (ne_of_member (fl ++ fr) i a k (Distinct-remove fl a fr v.frees.distinct).1),
            state_old i (free_not_x i k) ∙ s,
          )
    ];
    used_in = λ i m.
        let (w, s) = v.used_in i m in
        (
          renamed i w (λ e.
              not_both h old (fl ++ (a ∷ fr)) used v a (Member-middle fl a fr)
                (subst (λ (k : ℕ). Member k used) e m)),
          state_old i (used_not_x i m) ∙ s,
        );
    cover = λ i m. elim (origin i m) [
      | inl e ↦ inl (inl e)
      | inr (w, n) ↦ elim (v.cover i w) [
        | inl k ↦ elim (Member-keep fl a fr i k) [ inl e ↦ absurd (n e) | inr t ↦ inl (inr t) ]
        | inr k ↦ inr k
      ]
    ];
    nonempty = λ i m. elim (origin i m) [
      | inl e ↦ subst (λ (k : ℕ). 0 < (new k).size) (sym e) (omega (arith, shift-new_size))
      | inr (w, n) ↦ pos_at i w (ne_of_member old i x w x_new)
    ];
    memory_ne = v.memory_ne;
    fits = v.fits;
  }
