-- ===== src/Heap/Chains.antt =====
-- What HeappBlockLink and HeappBlockUnlink of src/mem.c do to a whole list, head included.
use deepshield.Prelude.{
  ℕ, ◌≡◌, ◌≢◌, ◌∙◌, ◌⊎◌, inl, inr, refl, sym, List, [], ◌∷◌, ◌++◌, Member, Distinct, arith,
  Member-append_left, Member-append_right, Member-append, Distinct-append, Distinct-join,
}
use mathlib.Core.Path.{subst}
use deepshield.Heap.{Blocks, block_unlink, block_link}
use deepshield.Heap.Lists.{
  first, Listed, SameLinks, Listed-frame, block_link-head, block_link-vnext, block_link-vprev,
  block_link-vprev_nil, block_unlink-vnext, block_unlink-vprev, block_unlink-head, Listed-vprev,
  Listed-vnext, Member-first, ne_of_member, unlink_list,
}

-- A head and the blocks behind it.
pub record IsList (b : Blocks) (head : ℕ) (xs : List ℕ) : Type 0 where
  pub head_first : head ≡ first xs 0
  pub listed : Listed b 0 xs
  pub distinct : Distinct xs
  pub nonzero : ¬ Member 0 xs

pub IsList-frame :
    (b b' : Blocks) (head : ℕ) (xs : List ℕ)
    → ((i : ℕ) → Member i xs → SameLinks b b' i)
    → IsList b head xs
    → IsList b' head xs
IsList-frame b b' head xs same l = record {
  head_first = l.head_first;
  listed = Listed-frame b b' 0 xs same l.listed;
  distinct = l.distinct;
  nonzero = l.nonzero;
}

-- A list without repetition loses one member.
pub Distinct-remove :
    (xs : List ℕ) (a : ℕ) (ys : List ℕ)
    → Distinct (xs ++ (a ∷ ys))
    → Distinct (xs ++ ys) × ¬ Member a (xs ++ ys)
Distinct-remove xs a ys d =
    let (dx, (na, dy), apart) = Distinct-append xs (a ∷ ys) d in
    (
      Distinct-join xs ys dx dy (λ i m k. apart i m (inr k)),
      λ m. elim (Member-append a xs ys m) [ inl k ↦ apart a k (inl refl) | inr k ↦ na k ],
    )

pub Member-remove :
    (xs : List ℕ) (a : ℕ) (ys : List ℕ) (i : ℕ) → Member i (xs ++ ys) → Member i (xs ++ (a ∷ ys))
Member-remove xs a ys i m = elim (Member-append i xs ys m) [
  | inl k ↦ Member-append_left i xs (a ∷ ys) k
  | inr k ↦ Member-append_right i xs (a ∷ ys) (inr k)
]

pub Member-middle : (xs : List ℕ) (a : ℕ) (ys : List ℕ) → Member a (xs ++ (a ∷ ys))
Member-middle xs a ys = Member-append_right a xs (a ∷ ys) (inl refl)

pub Member-keep :
    (xs : List ℕ) (a : ℕ) (ys : List ℕ) (i : ℕ)
    → Member i (xs ++ (a ∷ ys))
    → (i ≡ a) ⊎ Member i (xs ++ ys)
Member-keep xs a ys i m = elim (Member-append i xs (a ∷ ys) m) [
  | inl k ↦ inr (Member-append_left i xs ys k)
  | inr (inl e) ↦ inl e
  | inr (inr k) ↦ inr (Member-append_right i xs ys k)
]

module _ (b : Blocks) (head a : ℕ) where
  at_block : head ≢ 0 → head ≢ a → ((block_link b head a).0 a).vprev ≡ 0
  at_block z n = ground (arith, block_link-vprev b head a a)

  at_next : head ≢ 0 → head ≢ a → ((block_link b head a).0 head).vprev ≡ a
  at_next z n = ground (arith, block_link-vprev b head a head)

  away_vnext : (i : ℕ) → i ≢ a → ((block_link b head a).0 i).vnext ≡ (b i).vnext
  away_vnext i n = ground (arith, block_link-vnext b head a i)

  away : (i : ℕ) → head ≢ 0 → head ≢ a → i ≢ a → i ≢ head → SameLinks b (block_link b head a).0 i
  away i z n p q = (ground (arith, block_link-vprev b head a i), away_vnext i p)

linked :
    (b : Blocks) (fs : List ℕ) (a : ℕ)
    → Listed b 0 fs
    → Distinct fs
    → ¬ Member 0 fs
    → ¬ Member a fs
    → Listed (block_link b (first fs 0) a).0 0 (a ∷ fs)
linked b [] a l d z n =
    (ground (arith, block_link-vprev_nil b a a), ground (arith, block_link-vnext b 0 a a), tt)
linked b (x ∷ fs) a (e, m, l) (dx, d) z n =
    let x_ne : x ≢ 0 = λ h. z (inl (sym h)) in
    let x_a : x ≢ a = λ h. n (inl (sym h)) in
    (
      at_block b x a x_ne x_a,
      ground (arith, block_link-vnext b x a a),
      (
        at_next b x a x_ne x_a,
        away_vnext b x a x x_a ∙ m,
        Listed-frame b (block_link b x a).0 x fs
            (λ i k.
              let i_a = ne_of_member fs i a k (λ h. n (inr h)) in
              let i_x = ne_of_member fs i x k dx in away b x a i x_ne x_a i_a i_x)
            l,
      ),
    )

-- HeappBlockLink puts a block before the others.
pub link-IsList :
    (b : Blocks) (head : ℕ) (fs : List ℕ) (a : ℕ)
    → IsList b head fs
    → ¬ Member a fs
    → a ≢ 0
    → IsList (block_link b head a).0 (block_link b head a).1 (a ∷ fs)
link-IsList b head fs a v n z = record {
  head_first = block_link-head b head a;
  listed =
      subst (λ (k : ℕ). Listed (block_link b k a).0 0 (a ∷ fs)) (sym v.head_first)
        (linked b fs a v.listed v.distinct v.nonzero n);
  distinct = (n, v.distinct);
  nonzero = λ m. elim m [ inl e ↦ z (sym e) | inr k ↦ v.nonzero k ];
}

other_linked :
    (b : Blocks) (fs : List ℕ) (a i : ℕ)
    → ¬ Member 0 fs
    → ¬ Member a fs
    → i ≢ a
    → ¬ Member i fs
    → SameLinks b (block_link b (first fs 0) a).0 i
other_linked b [] a i z n ia ni =
    (ground (arith, block_link-vprev_nil b a i), ground (arith, block_link-vnext b 0 a i))
other_linked b (x ∷ fs) a i z n ia ni =
    let x_ne : x ≢ 0 = λ h. z (inl (sym h)) in
    let x_a : x ≢ a = λ h. n (inl (sym h)) in
    let i_x : i ≢ x = λ h. ni (inl h) in away b x a i x_ne x_a ia i_x

-- HeappBlockLink leaves the links of all other blocks alone.
pub link-other :
    (b : Blocks) (head : ℕ) (fs : List ℕ) (a i : ℕ)
    → IsList b head fs
    → ¬ Member a fs
    → i ≢ a
    → ¬ Member i fs
    → SameLinks b (block_link b head a).0 i
link-other b head fs a i v n ia ni =
    subst (λ (k : ℕ). SameLinks b (block_link b k a).0 i) (sym v.head_first)
      (other_linked b fs a i v.nonzero n ia ni)

module _ (b : Blocks) (head : ℕ) (xs : List ℕ) (a : ℕ) (ys : List ℕ)
    (v : IsList b head (xs ++ (a ∷ ys))) where
  a_ne : a ≢ 0
  a_ne h = v.nonzero (subst (λ (k : ℕ). Member k (xs ++ (a ∷ ys))) h (Member-middle xs a ys))

  next_first : (b a).vnext ≡ first ys 0
  next_first = Listed-vnext b 0 xs a ys v.listed

  apart :
      Distinct xs × (¬ Member a ys × Distinct ys) × ((i : ℕ) → Member i xs → ¬ Member i (a ∷ ys))
  apart = Distinct-append xs (a ∷ ys) v.distinct

  next_ne : (b a).vnext ≢ a
  next_ne h = elim (Member-first ys) [
    | inl k ↦ a_ne (sym h ∙ next_first ∙ k)
    | inr k ↦ apart.1.0 (subst (λ (j : ℕ). Member j ys) (sym next_first ∙ h) k)
  ]

  prev_ne : (b a).vprev ≢ a
  prev_ne h = elim (Listed-vprev b 0 xs a ys v.listed) [
    | inl (k, _) ↦ a_ne (sym h ∙ k)
    | inr k ↦ apart.2 a (subst (λ (j : ℕ). Member j xs) h k) (inl refl)
  ]

  new_head : (block_unlink b head a).1 ≡ first (xs ++ ys) 0
  new_head = go xs v.head_first apart
    where
      go :
          (zs : List ℕ)
          → head ≡ first (zs ++ (a ∷ ys)) 0
          → Distinct zs
            × (¬ Member a ys × Distinct ys)
            × ((i : ℕ) → Member i zs → ¬ Member i (a ∷ ys))
          → (block_unlink b head a).1 ≡ first (zs ++ ys) 0
      go [] e d = ground (arith, block_unlink-head b head a a_ne next_ne prev_ne, next_first)
      go (z ∷ zs) e (_, _, d) =
          let z_a : z ≢ a = λ h. d z (inl refl) (inl h) in
          ground (arith, block_unlink-head b head a a_ne next_ne prev_ne)

  -- HeappBlockUnlink takes a block out of its list and keeps the order of the others.
  pub unlink-IsList : IsList (block_unlink b head a).0 (block_unlink b head a).1 (xs ++ ys)
  unlink-IsList = record {
    head_first = new_head;
    listed =
        unlink_list b (block_unlink b head a).0 a (λ i z. block_unlink-vnext b head a i z next_ne)
          (λ i z. block_unlink-vprev b head a i z) 0 xs ys v.nonzero v.distinct v.nonzero v.listed;
    distinct = (Distinct-remove xs a ys v.distinct).0;
    nonzero = λ m. v.nonzero (Member-remove xs a ys 0 m);
  }

  -- HeappBlockUnlink leaves the links of the blocks outside the list alone.
  pub unlink-other :
      (i : ℕ) → i ≢ 0 → ¬ Member i (xs ++ (a ∷ ys)) → SameLinks b (block_unlink b head a).0 i
  unlink-other i z n =
      let i_next : i ≢ (b a).vnext = λ h. elim (Member-first ys) [
        | inl k ↦ z (h ∙ next_first ∙ k)
        | inr k ↦ n (
            Member-append_right i xs (a ∷ ys)
              (inr (subst (λ (j : ℕ). Member j ys) (sym (h ∙ next_first)) k)))
      ] in
      let i_prev : i ≢ (b a).vprev = λ h. elim (Listed-vprev b 0 xs a ys v.listed) [
        | inl (k, _) ↦ z (h ∙ k)
        | inr k ↦ n (Member-append_left i xs (a ∷ ys) (subst (λ (j : ℕ). Member j xs) (sym h) k))
      ] in
      (
        ground (arith, block_unlink-vprev b head a i z),
        ground (arith, block_unlink-vnext b head a i z next_ne),
      )
