-- ===== src/Heap/Absorb.antt =====
-- A block of src/mem.c takes in the blocks behind it: the coalescing of HeappFree.
use deepshield.Prelude.{
  ℕ, ◌+◌, ◌≤◌, ◌<◌, ◌≡◌, ◌≢◌, ◌∙◌, ◌⊎◌, inl, inr, refl, sym, ap, List, [], ◌∷◌, ◌++◌, Member, arith,
  ◌==◌, if◌then◌else◌, Member-append_right, Member-append,
}
use deepshield.Heap.{Blocks, set_block, set_if, absorb}
use deepshield.Heap.Lists.{first, SameLinks}
use deepshield.Heap.Layout.{Layout, SameTile, Layout-frame, Layout-after, Layout-pnext, Layout-drop}

module _ (b : Blocks) (a next size : ℕ) (differ : next ≢ a) where
  abbrev pub absorbed : Blocks
  absorbed = absorb b a next size

  pub absorb-size : (i : ℕ) → (absorbed i).size ≡ (if i == a then size else (b i).size)
  unfolding absorb set_if set_block
  absorb-size i = ground arith

  pub absorb-state : (i : ℕ) → (absorbed i).state ≡ (b i).state
  unfolding absorb set_if set_block
  absorb-state i = ground arith

  pub absorb-links : (i : ℕ) → SameLinks b absorbed i
  unfolding absorb set_if set_block
  absorb-links i = (ground arith, ground arith)

  pub absorb-pnext : (i : ℕ) → (absorbed i).pnext ≡ (if i == a then (b next).pnext else (b i).pnext)
  unfolding absorb set_if set_block
  absorb-pnext i = ground arith

  pub absorb-pprev :
      (i : ℕ) → i ≢ 0 → (absorbed i).pprev ≡ (if i == (b next).pnext then a else (b i).pprev)
  unfolding absorb set_if set_block
  absorb-pprev i z = ground arith

  pub absorb-away : (i : ℕ) → i ≢ 0 → i ≢ a → (b next).pnext ≢ i → SameTile b absorbed i
  absorb-away i z p q = (
    ground (arith, absorb-size i),
    ground (arith, absorb-pprev i),
    ground (arith, absorb-pnext i),
  )

  pub absorb-at :
      a ≢ 0
      → (b next).pnext ≢ a
      → ((absorbed a).size ≡ size)
        × ((absorbed a).pprev ≡ (b a).pprev)
        × ((absorbed a).pnext ≡ (b next).pnext)
  absorb-at z q = (
    ground (arith, absorb-size a),
    ground (arith, absorb-pprev a),
    ground (arith, absorb-pnext a),
  )

  pub absorb-next :
      (i : ℕ)
      → i ≢ 0
      → i ≢ a
      → (b next).pnext ≡ i
      → ((absorbed i).size ≡ (b i).size)
        × ((absorbed i).pprev ≡ a)
        × ((absorbed i).pnext ≡ (b i).pnext)
  absorb-next i z p q = (
    ground (arith, absorb-size i),
    ground (arith, absorb-pprev i),
    ground (arith, absorb-pnext i),
  )

-- A list without a stretch in its middle.
pub Member-skip :
    (ps : List ℕ) (a : ℕ) (ms : List ℕ) (next : ℕ) (qs : List ℕ) (i : ℕ)
    → Member i (ps ++ (a ∷ qs))
    → Member i (ps ++ (a ∷ (ms ++ (next ∷ qs))))
Member-skip [] a ms next qs i (inl e) = inl e
Member-skip [] a ms next qs i (inr m) = inr (Member-append_right i ms (next ∷ qs) (inr m))
Member-skip (p ∷ ps) a ms next qs i (inl e) = inl e
Member-skip (p ∷ ps) a ms next qs i (inr m) = inr (Member-skip ps a ms next qs i m)

pub Member-stretch :
    (ps : List ℕ) (a : ℕ) (ms : List ℕ) (next : ℕ) (qs : List ℕ) (i : ℕ)
    → Member i (ps ++ (a ∷ (ms ++ (next ∷ qs))))
    → Member i (next ∷ ms) ⊎ Member i (ps ++ (a ∷ qs))
Member-stretch [] a ms next qs i (inl e) = inr (inl e)
Member-stretch [] a ms next qs i (inr m) = elim (Member-append i ms (next ∷ qs) m) [
  | inl k ↦ inl (inr k)
  | inr (inl e) ↦ inl (inl e)
  | inr (inr k) ↦ inr (inr k)
]
Member-stretch (p ∷ ps) a ms next qs i (inl e) = inr (inl e)
Member-stretch (p ∷ ps) a ms next qs i (inr m) = elim (Member-stretch ps a ms next qs i m) [
  | inl k ↦ inl k
  | inr k ↦ inr (inr k)
]

-- From the layout of `a`, some blocks, `next` and more to that of `a` and those behind `next`.
module _ (b : Blocks) (n a : ℕ) (ms : List ℕ) (next : ℕ) (qs : List ℕ) (size p : ℕ)
    (l : Layout b n p (a ∷ (ms ++ (next ∷ qs)))) (sizes : a + size ≡ next + (b next).size)
    (a_ne : a ≢ 0) where
  pub a_next : a + (b a).size + 24 ≤ next
  a_next =
      Layout-after b n p a (ms ++ (next ∷ qs)) next l
        (Member-append_right next ms (next ∷ qs) (inl refl))

  pub differ : next ≢ a
  differ e = omega (arith, a_next)

  next_layout : Layout b n (b next).pprev (next ∷ qs)
  next_layout = Layout-drop b n p (a ∷ ms) next qs l

  pub after_ne : (i : ℕ) → i ≢ 0 → i ≤ next → (b next).pnext ≢ i
  after_ne i z le e = elim (Layout-pnext b n (b next).pprev next qs next_layout) [
    | inl k ↦ z (sym e ∙ k)
    | inr k ↦ omega arith
  ]

  abbrev taken_in : Blocks
  taken_in = absorb b a next size

  behind :
      (zs : List ℕ)
      → ((i : ℕ) → Member i zs → next < i)
      → (b next).pnext ≡ first zs 0
      → Layout b n next zs
      → Layout taken_in n a zs
  behind [] gt e l' = tt
  behind (z ∷ zs) gt e (f, g, s, l') =
      let z_next = gt z (inl refl) in
      let far = a_next in
      let (sz, pp, pn) =
        absorb-next b a next size differ z (λ w. omega arith) (λ w. omega arith) e in
      (
        pp,
        pn ∙ g,
        ap (λ (t : ℕ). z + t + 24) sz ∙ s,
        Layout-frame b taken_in n z zs
            (λ i w.
              let i_next = gt i (inr w) in
              let z_i = Layout-after b n next z zs i (f, g, s, l') w in
              absorb-away b a next size differ i (λ t. omega arith) (λ t. omega arith)
                (λ t. omega arith))
            l',
      )

  pub absorb-Layout : Layout taken_in n p (a ∷ qs)
  absorb-Layout =
      let (f, g, s, l') = next_layout in
      let far = a_next in
      let (sz, pp, pn) = absorb-at b a next size differ a_ne (after_ne a a_ne (omega arith)) in
      (
        pp ∙ l.0,
        pn ∙ g,
        omega arith,
        behind qs (λ i m. omega (arith, Layout-after b n (b next).pprev next qs i next_layout m)) g
            l',
      )
