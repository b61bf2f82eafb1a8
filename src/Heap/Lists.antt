-- ===== src/Heap/Lists.antt =====
-- The two doubly linked lists of the blocks of src/mem.c: HeappBlockLink and HeappBlockUnlink.
use deepshield.Prelude.{
  ℕ, ◌≡◌, ◌≢◌, ◌∙◌, ◌⊎◌, inl, inr, refl, sym, List, [], ◌∷◌, ◌++◌, Member, Distinct, arith, ◌==◌,
  if◌then◌else◌, Member-append_left, Member-append_right,
}
use mathlib.Core.Path.{subst}
use deepshield.Heap.{Blocks, set_block, set_if, block_unlink, block_link}

-- The first member, or a default.
abbrev pub first : List ℕ → ℕ → ℕ
first [] d = d
first (x ∷ xs) d = x

-- The blocks `xs` follow block `p` in a doubly linked list; offset 0 stands for none.
abbrev pub Listed : Blocks → ℕ → List ℕ → Type 0
Listed b p [] = Unit {0}
Listed b p (x ∷ xs) = ((b x).vprev ≡ p) × ((b x).vnext ≡ first xs 0) × Listed b x xs

-- The fields that the lists do not use.
abbrev pub SamePhysical : Blocks → Blocks → ℕ → Type 0
SamePhysical b b' i =
    ((b' i).state ≡ (b i).state)
    × ((b' i).size ≡ (b i).size)
    × ((b' i).pprev ≡ (b i).pprev)
    × ((b' i).pnext ≡ (b i).pnext)

abbrev pub SameLinks : Blocks → Blocks → ℕ → Type 0
SameLinks b b' i = ((b' i).vprev ≡ (b i).vprev) × ((b' i).vnext ≡ (b i).vnext)

pub Listed-frame :
    (b b' : Blocks) (p : ℕ) (xs : List ℕ)
    → ((i : ℕ) → Member i xs → SameLinks b b' i)
    → Listed b p xs
    → Listed b' p xs
Listed-frame b b' p [] same l = l
Listed-frame b b' p (x ∷ xs) same (e, n, l) =
    let (f, m) = same x (inl refl) in
    (f ∙ e, m ∙ n, Listed-frame b b' x xs (λ i h. same i (inr h)) l)

pub block_link-physical : (b : Blocks) (head a i : ℕ) → SamePhysical b (block_link b head a).0 i
unfolding block_link set_if set_block
block_link-physical b head a i = (ground arith, ground arith, ground arith, ground arith)

pub block_unlink-physical : (b : Blocks) (head a i : ℕ) → SamePhysical b (block_unlink b head a).0 i
unfolding block_unlink set_if set_block
block_unlink-physical b head a i = (ground arith, ground arith, ground arith, ground arith)

pub block_link-head : (b : Blocks) (head a : ℕ) → (block_link b head a).1 ≡ a
unfolding block_link
block_link-head b head a = refl

pub block_link-vnext :
    (b : Blocks) (head a i : ℕ)
    → ((block_link b head a).0 i).vnext ≡ (if i == a then head else (b i).vnext)
unfolding block_link set_if set_block
block_link-vnext b head a i = ground arith

pub block_link-vprev :
    (b : Blocks) (head a i : ℕ)
    → head ≢ 0
    → head ≢ a
    → ((block_link b head a).0 i).vprev
      ≡ (if i == a then 0 else (if i == head then a else (b i).vprev))
unfolding block_link set_if set_block
block_link-vprev b head a i z h = ground arith

pub block_link-vprev_nil :
    (b : Blocks) (a i : ℕ) → ((block_link b 0 a).0 i).vprev ≡ (if i == a then 0 else (b i).vprev)
unfolding block_link set_if set_block
block_link-vprev_nil b a i = ground arith

pub block_unlink-vnext :
    (b : Blocks) (head a i : ℕ)
    → i ≢ 0
    → (b a).vnext ≢ a
    → ((block_unlink b head a).0 i).vnext ≡ (if i == (b a).vprev then (b a).vnext else (b i).vnext)
unfolding block_unlink set_if set_block
block_unlink-vnext b head a i z n = ground arith

pub block_unlink-vprev :
    (b : Blocks) (head a i : ℕ)
    → i ≢ 0
    → ((block_unlink b head a).0 i).vprev ≡ (if i == (b a).vnext then (b a).vprev else (b i).vprev)
unfolding block_unlink set_if set_block
block_unlink-vprev b head a i z = ground arith

pub block_unlink-head :
    (b : Blocks) (head a : ℕ)
    → a ≢ 0
    → (b a).vnext ≢ a
    → (b a).vprev ≢ a
    → (block_unlink b head a).1 ≡ (if head == a then (b a).vnext else head)
unfolding block_unlink set_if set_block
block_unlink-head b head a z n p = ground arith

-- What stands before and behind a member of a list.
pub Listed-vprev :
    (b : Blocks) (p : ℕ) (xs : List ℕ) (a : ℕ) (ys : List ℕ)
    → Listed b p (xs ++ (a ∷ ys))
    → (((b a).vprev ≡ p) × (xs ≡ [])) ⊎ Member (b a).vprev xs
Listed-vprev b p [] a ys (e, n, l) = inl (e, refl)
Listed-vprev b p (x ∷ xs) a ys (e, n, l) = elim (Listed-vprev b x xs a ys l) [
  | inl (q, _) ↦ inr (inl q)
  | inr m ↦ inr (inr m)
]

pub Listed-vnext :
    (b : Blocks) (p : ℕ) (xs : List ℕ) (a : ℕ) (ys : List ℕ)
    → Listed b p (xs ++ (a ∷ ys))
    → (b a).vnext ≡ first ys 0
Listed-vnext b p [] a ys (e, n, l) = n
Listed-vnext b p (x ∷ xs) a ys (e, n, l) = Listed-vnext b x xs a ys l

pub Member-first : (ys : List ℕ) → (first ys 0 ≡ 0) ⊎ Member (first ys 0) ys
Member-first [] = inl refl
Member-first (y ∷ ys) = inr (inl refl)

-- Two numbers differ if only one of them is a member.
pub ne_of_member : (xs : List ℕ) (i j : ℕ) → Member i xs → ¬ Member j xs → i ≢ j
ne_of_member xs i j m n e = n (subst (λ (k : ℕ). Member k xs) e m)

module _ (b b' : Blocks) (a : ℕ)
    (at_vnext : (i : ℕ)
      → i ≢ 0
      → (b' i).vnext ≡ (if i == (b a).vprev then (b a).vnext else (b i).vnext))
    (at_vprev : (i : ℕ)
      → i ≢ 0
      → (b' i).vprev ≡ (if i == (b a).vnext then (b a).vprev else (b i).vprev)) where
  same_vnext : (i : ℕ) → i ≢ 0 → i ≢ (b a).vprev → (b' i).vnext ≡ (b i).vnext
  same_vnext i z n = ground (arith, at_vnext i)

  same_vprev : (i : ℕ) → i ≢ 0 → i ≢ (b a).vnext → (b' i).vprev ≡ (b i).vprev
  same_vprev i z n = ground (arith, at_vprev i)

  -- The blocks behind the one that leaves.
  close_gap :
      (ys : List ℕ)
      → ¬ Member 0 ys
      → Distinct ys
      → ¬ Member (b a).vprev ys
      → (b a).vnext ≡ first ys 0
      → Listed b a ys
      → Listed b' (b a).vprev ys
  close_gap [] z d q n l = tt
  close_gap (y ∷ ys) z (dy, d) q n (e, m, l) =
      let y_ne : y ≢ 0 = λ h. z (inl (sym h)) in
      let y_far : y ≢ (b a).vprev = λ h. q (inl (sym h)) in
      (
        ground (arith, at_vprev y),
        same_vnext y y_ne y_far ∙ m,
        Listed-frame b b' y ys
            (λ i k.
              let i_ne = ne_of_member ys i 0 k (λ h. z (inr h)) in
              let i_y : i ≢ (b a).vnext = λ h. ne_of_member ys i y k dy (h ∙ n) in
              (
                same_vprev i i_ne i_y,
                same_vnext i i_ne (ne_of_member ys i (b a).vprev k (λ h. q (inr h))),
              ))
            l,
      )

  pub unlink_list :
      (p : ℕ) (xs ys : List ℕ)
      → ¬ Member 0 (xs ++ (a ∷ ys))
      → Distinct (xs ++ (a ∷ ys))
      → ¬ Member p (xs ++ (a ∷ ys))
      → Listed b p (xs ++ (a ∷ ys))
      → Listed b' p (xs ++ ys)
  unlink_list p [] ys z (_, d) q (e, n, l) =
      subst (λ (k : ℕ). Listed b' k ys) e
        (close_gap ys (λ h. z (inr h)) d (subst (λ (k : ℕ). ¬ Member k ys) (sym e) (λ h. q (inr h)))
          n l)
  unlink_list p (x ∷ xs) ys z (dx, d) q (e, n, l) =
      let x_ne : x ≢ 0 = λ h. z (inl (sym h)) in
      let next = Listed-vnext b x xs a ys l in
      let x_next : x ≢ (b a).vnext = λ h. elim (Member-first ys) [
        | inl k ↦ x_ne (h ∙ next ∙ k)
        | inr k ↦ dx (
            Member-append_right x xs (a ∷ ys)
              (inr (subst (λ (j : ℕ). Member j ys) (sym (h ∙ next)) k)))
      ] in
      (
        same_vprev x x_ne x_next ∙ e,
        relinked xs n dx next x_ne (Listed-vprev b x xs a ys l),
        unlink_list x xs ys (λ h. z (inr h)) d dx l,
      )
    where
      relinked :
          (zs : List ℕ)
          → (b x).vnext ≡ first (zs ++ (a ∷ ys)) 0
          → ¬ Member x (zs ++ (a ∷ ys))
          → (b a).vnext ≡ first ys 0
          → x ≢ 0
          → (((b a).vprev ≡ x) × (zs ≡ [])) ⊎ Member (b a).vprev zs
          → (b' x).vnext ≡ first (zs ++ ys) 0
      relinked [] n dx next x_ne (inl (k, _)) = ground (arith, at_vnext x)
      relinked [] n dx next x_ne (inr k) = elim k [ ]
      relinked (w ∷ zs) n dx next x_ne (inl (k, nil)) = cc
      relinked (w ∷ zs) n dx next x_ne (inr k) =
          same_vnext x x_ne (λ h. dx (
            Member-append_left x (w ∷ zs) (a ∷ ys)
              (subst (λ (j : ℕ). Member j (w ∷ zs)) (sym h) k)))
          ∙ n
