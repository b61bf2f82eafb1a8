-- ===== src/Heap/Layout.antt =====
-- The blocks of src/mem.c tile the region: each ends where the next header starts.
use deepshield.Prelude.{
  ℕ, ◌+◌, ◌≤◌, ◌<◌, ◌≡◌, ◌∙◌, ◌⊎◌, inl, inr, refl, sym, ap, List, [], ◌∷◌, ◌++◌, Member,
  Member-append_right, arith,
}
use mathlib.Core.Path.{subst}
use deepshield.Heap.{Blocks}
use deepshield.Heap.Lists.{first}

-- The blocks `xs` in the order of their addresses, behind block `p`, up to offset `n`.
abbrev pub Layout : Blocks → ℕ → ℕ → List ℕ → Type 0
Layout b n p [] = Unit {0}
Layout b n p (x ∷ xs) =
    ((b x).pprev ≡ p)
    × ((b x).pnext ≡ first xs 0)
    × (x + (b x).size + 24 ≡ first xs (n + 24))
    × Layout b n x xs

-- The fields that the layout uses.
abbrev pub SameTile : Blocks → Blocks → ℕ → Type 0
SameTile b b' i =
    ((b' i).size ≡ (b i).size) × ((b' i).pprev ≡ (b i).pprev) × ((b' i).pnext ≡ (b i).pnext)

pub Layout-frame :
    (b b' : Blocks) (n p : ℕ) (xs : List ℕ)
    → ((i : ℕ) → Member i xs → SameTile b b' i)
    → Layout b n p xs
    → Layout b' n p xs
Layout-frame b b' n p [] same l = tt
Layout-frame b b' n p (x ∷ xs) same (e, m, s, l) =
    let (f, g, k) = same x (inl refl) in
    (
      g ∙ e,
      k ∙ m,
      ap (λ (t : ℕ). x + t + 24) f ∙ s,
      Layout-frame b b' n x xs (λ i h. same i (inr h)) l,
    )

first-middle :
    (xs : List ℕ) (a : ℕ) (ys zs : List ℕ) (d : ℕ)
    → first (xs ++ (a ∷ ys)) d ≡ first (xs ++ (a ∷ zs)) d
first-middle [] a ys zs d = refl
first-middle (x ∷ xs) a ys zs d = refl

-- The blocks from `a` on are arranged anew, and those before it stay.
pub Layout-splice :
    (b b' : Blocks) (n p : ℕ) (xs : List ℕ) (a : ℕ) (ys zs : List ℕ)
    → ((i : ℕ) → Member i xs → SameTile b b' i)
    → ((q : ℕ) → Layout b n q (a ∷ ys) → Layout b' n q (a ∷ zs))
    → Layout b n p (xs ++ (a ∷ ys))
    → Layout b' n p (xs ++ (a ∷ zs))
Layout-splice b b' n p [] a ys zs same tail l = tail p l
Layout-splice b b' n p (x ∷ xs) a ys zs same tail (e, m, s, l) =
    let (f, g, k) = same x (inl refl) in
    (
      g ∙ e,
      k ∙ m ∙ first-middle xs a ys zs 0,
      ap (λ (t : ℕ). x + t + 24) f ∙ s ∙ first-middle xs a ys zs (n + 24),
      Layout-splice b b' n x xs a ys zs (λ i h. same i (inr h)) tail l,
    )

-- The part from a block on.
pub Layout-drop :
    (b : Blocks) (n p : ℕ) (xs : List ℕ) (a : ℕ) (ys : List ℕ)
    → Layout b n p (xs ++ (a ∷ ys))
    → Layout b n (b a).pprev (a ∷ ys)
Layout-drop b n p [] a ys (e, m, s, l) = (refl, m, s, l)
Layout-drop b n p (x ∷ xs) a ys (e, m, s, l) = Layout-drop b n x xs a ys l

-- The previous block of a block, or that of the first one.
pub Layout-pprev :
    (b : Blocks) (n p : ℕ) (xs : List ℕ) (a : ℕ) (ys : List ℕ)
    → Layout b n p (xs ++ (a ∷ ys))
    → ((xs ≡ []) × ((b a).pprev ≡ p)) ⊎ ((ws : List ℕ) × (xs ≡ ws ++ ((b a).pprev ∷ [])))
Layout-pprev b n p [] a ys (e, m, s, l) = inl (refl, e)
Layout-pprev b n p (x ∷ xs) a ys (e, m, s, l) = elim (Layout-pprev b n x xs a ys l) [
  | inl (nil, q) ↦ inr ([], ap (λ (t : List ℕ). x ∷ t) nil ∙ ap (λ (t : ℕ). t ∷ []) (sym q))
  | inr (ws, h) ↦ inr (x ∷ ws, ap (λ (t : List ℕ). x ∷ t) h)
]

-- Blocks behind a block start behind its end and their own header, and end in the region.
pub Layout-after :
    (b : Blocks) (n p x : ℕ) (xs : List ℕ) (i : ℕ)
    → Layout b n p (x ∷ xs)
    → Member i xs
    → (x + (b x).size + 24 ≤ i)
Layout-after b n p x [] i l m = elim m [ ]
Layout-after b n p x (y ∷ xs) i (e, m, s, l) (inl h) = omega arith
Layout-after b n p x (y ∷ xs) i (e, m, s, l) (inr h) = omega (arith, Layout-after b n x y xs i l h)

pub Layout-end :
    (b : Blocks) (n p : ℕ) (xs : List ℕ) (i : ℕ)
    → Layout b n p xs
    → Member i xs
    → i + (b i).size ≤ n
Layout-end b n p [] i l m = elim m [ ]
Layout-end b n p (x ∷ []) i (e, m, s, l) (inl h) =
    subst (λ (k : ℕ). k + (b k).size ≤ n) (sym h) (omega arith)
Layout-end b n p (x ∷ y ∷ xs) i (e, m, s, l) (inl h) =
    subst (λ (k : ℕ). k + (b k).size ≤ n) (sym h)
      (omega (arith, Layout-end b n x (y ∷ xs) y l (inl refl)))
Layout-end b n p (x ∷ xs) i (e, m, s, l) (inr h) = Layout-end b n x xs i l h

-- Two blocks are the same one or apart, headers included.
pub Layout-apart :
    (b : Blocks) (n p : ℕ) (xs : List ℕ) (i j : ℕ)
    → Layout b n p xs
    → Member i xs
    → Member j xs
    → i < j
    → i + (b i).size + 24 ≤ j
Layout-apart b n p [] i j l m k lt = elim m [ ]
Layout-apart b n p (x ∷ xs) i j l (inl h) (inl k) lt = absurd (omega arith)
Layout-apart b n p (x ∷ xs) i j l (inl h) (inr k) lt =
    subst (λ (t : ℕ). t + (b t).size + 24 ≤ j) (sym h) (Layout-after b n p x xs j l k)
Layout-apart b n p (x ∷ xs) i j l (inr h) (inl k) lt =
    absurd (omega (arith, Layout-after b n p x xs i l h))
Layout-apart b n p (x ∷ xs) i j (e, m, s, l) (inr h) (inr k) lt = Layout-apart b n x xs i j l h k lt

pub Layout-before :
    (b : Blocks) (n p : ℕ) (xs : List ℕ) (a : ℕ) (ys : List ℕ) (i : ℕ)
    → Layout b n p (xs ++ (a ∷ ys))
    → Member i xs
    → i + (b i).size + 24 ≤ a
Layout-before b n p [] a ys i l m = elim m [ ]
Layout-before b n p (x ∷ xs) a ys i l (inl h) =
    subst (λ (t : ℕ). t + (b t).size + 24 ≤ a) (sym h)
      (Layout-after b n p x (xs ++ (a ∷ ys)) a l (Member-append_right a xs (a ∷ ys) (inl refl)))
Layout-before b n p (x ∷ xs) a ys i (e, m, s, l) (inr h) = Layout-before b n x xs a ys i l h

-- The next block starts where this one ends.
pub Layout-pnext :
    (b : Blocks) (n p a : ℕ) (ys : List ℕ)
    → Layout b n p (a ∷ ys)
    → ((b a).pnext ≡ 0) ⊎ ((b a).pnext ≡ a + (b a).size + 24)
Layout-pnext b n p a [] (e, m, s, l) = inl m
Layout-pnext b n p a (y ∷ ys) (e, m, s, l) = inr (m ∙ sym s)

-- No block is at offset 0.
pub Layout-start :
    (b : Blocks) (n p : ℕ) (xs : List ℕ) (i : ℕ)
    → Layout b n p xs
    → first xs 0 ≡ 24
    → Member i xs
    → 24 ≤ i
Layout-start b n p [] i l s m = elim m [ ]
Layout-start b n p (x ∷ xs) i l s (inl e) = omega arith
Layout-start b n p (x ∷ xs) i l s (inr m) = omega (arith, Layout-after b n p x xs i l m)

pub Layout-pprev_lt :
    (b : Blocks) (n : ℕ) (xs : List ℕ) (a : ℕ) (ys : List ℕ)
    → Layout b n 0 (xs ++ (a ∷ ys))
    → 0 < a
    → (b a).pprev < a
Layout-pprev_lt b n xs a ys l pos = elim (Layout-pprev b n 0 xs a ys l) [
  | inl (_, z) ↦ omega arith
  | inr (ws, e) ↦ omega (
    arith,
    Layout-before b n 0 xs a ys (b a).pprev l (
        subst (λ (t : List ℕ). Member (b a).pprev t) (sym e)
          (Member-append_right (b a).pprev ws ((b a).pprev ∷ []) (inl refl))),
  )
]

pub Layout-pnext_in :
    (b : Blocks) (n p a : ℕ) (ys : List ℕ)
    → Layout b n p (a ∷ ys)
    → ((b a).pnext ≡ 0) ⊎ Member (b a).pnext ys
Layout-pnext_in b n p a [] (e, m, s, l) = inl m
Layout-pnext_in b n p a (y ∷ ys) (e, m, s, l) = inr (inl m)
