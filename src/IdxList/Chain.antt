-- ===== src/IdxList/Chain.antt =====
-- What the nodes of a table of src/idxlist.c are linked to.
use deepshield.Prelude.{
  Distinct, Member, ℕ, ◌≡◌, ◌≢◌, ◌∙◌, ◌⊎◌, inl, inr, refl, sym, ap, List, [], ◌∷◌, ◌++◌, arith,
}
use mathlib.Core.Path.{subst}
use deepshield.IdxList.{IdxListNode, set_node}

abbrev pub Nodes : Type 0
Nodes = ℕ → IdxListNode

pub set_node_self : (nodes : Nodes) (i : ℕ) (n : IdxListNode) → set_node nodes i n i ≡ n
unfolding set_node
set_node_self nodes i n = ground arith

pub set_node_ne :
    (nodes : Nodes) (i j : ℕ) (n : IdxListNode) → i ≢ j → set_node nodes i n j ≡ nodes j
unfolding set_node
set_node_ne nodes i j n h = ground arith

-- The nodes `xs` follow node `p` in the doubly linked list, and node 0 follows them.
abbrev pub Links : Nodes → ℕ → List ℕ → Type 0
Links nodes p [] = ((nodes p).fidx ≡ 0) × ((nodes 0).bidx ≡ p)
Links nodes p (x ∷ xs) = ((nodes p).fidx ≡ x) × ((nodes x).bidx ≡ p) × Links nodes x xs

-- The nodes `xs` follow node `p`, and `q` is the last of them, or `p`.
abbrev pub Segment : Nodes → ℕ → List ℕ → ℕ → Type 0
Segment nodes p [] q = p ≡ q
Segment nodes p (x ∷ xs) q = ((nodes p).fidx ≡ x) × ((nodes x).bidx ≡ p) × Segment nodes x xs q

-- The chain of free nodes from index `f` on.
abbrev pub Free : Nodes → ℕ → List ℕ → Type 0
Free nodes f [] = f ≡ 0
Free nodes f (y ∷ ys) = (f ≡ y) × ((nodes y).data_ ≡ 0) × Free nodes (nodes y).fidx ys

-- Links that the changes of an array leave alone.
pub Links-frame :
    (nodes nodes' : Nodes) (p : ℕ) (xs : List ℕ)
    → ((i : ℕ) → (i ≡ p) ⊎ Member i xs → (nodes' i).fidx ≡ (nodes i).fidx)
    → ((i : ℕ) → (i ≡ 0) ⊎ Member i xs → (nodes' i).bidx ≡ (nodes i).bidx)
    → Links nodes p xs
    → Links nodes' p xs
Links-frame nodes nodes' p [] f b (l, m) = (f p (inl refl) ∙ l, b 0 (inl refl) ∙ m)
Links-frame nodes nodes' p (x ∷ xs) f b (l, m, rest) = (
  f p (inl refl) ∙ l,
  b x (inr (inl refl)) ∙ m,
  Links-frame nodes nodes' x xs (λ i h. f i (inr h))
      (λ i h. b i (elim h [ inl z ↦ inl z | inr y ↦ inr (inr y) ])) rest,
)

-- The fields of a node that the chain reads.
abbrev pub SameFree : Nodes → Nodes → ℕ → Type 0
SameFree nodes nodes' i = ((nodes' i).fidx ≡ (nodes i).fidx) × ((nodes' i).data_ ≡ (nodes i).data_)

pub Free-frame :
    (nodes nodes' : Nodes) (f : ℕ) (ys : List ℕ)
    → ((i : ℕ) → Member i ys → SameFree nodes nodes' i)
    → Free nodes f ys
    → Free nodes' f ys
Free-frame nodes nodes' f [] same h = h
Free-frame nodes nodes' f (y ∷ ys) same (e, d, rest) =
    let (l, k) = same y (inl refl) in
    (
      e,
      k ∙ d,
      subst (λ (j : ℕ). Free nodes' j ys) (sym l)
          (Free-frame nodes nodes' (nodes y).fidx ys (λ i m. same i (inr m)) rest),
    )

-- A node in use, with the segment before it and the links behind it.
pub Links-split :
    (nodes : Nodes) (p : ℕ) (xs : List ℕ) (x : ℕ) (ys : List ℕ)
    → Links nodes p (xs ++ (x ∷ ys))
    → (q : ℕ) × Segment nodes p xs q
      × ((nodes q).fidx ≡ x)
      × ((nodes x).bidx ≡ q)
      × Links nodes x ys
Links-split nodes p [] x ys (l, m, rest) = (p, refl, l, m, rest)
Links-split nodes p (z ∷ xs) x ys (l, m, rest) =
    let (q, s, l', m', rest') = Links-split nodes z xs x ys rest in (q, (l, m, s), l', m', rest')

pub Links-join :
    (nodes : Nodes) (p : ℕ) (xs : List ℕ) (q : ℕ) (ys : List ℕ)
    → Segment nodes p xs q
    → Links nodes q ys
    → Links nodes p (xs ++ ys)
Links-join nodes p [] q ys s h = rw s h
Links-join nodes p (x ∷ xs) q ys (l, m, s) h = (l, m, Links-join nodes x xs q ys s h)

-- The last node of a segment is one of its nodes.
pub Segment-last :
    (nodes : Nodes) (p : ℕ) (xs : List ℕ) (q : ℕ) → Segment nodes p xs q → (q ≡ p) ⊎ Member q xs
Segment-last nodes p [] q s = inl (sym s)
Segment-last nodes p (x ∷ xs) q (_, _, s) = inr (Segment-last nodes x xs q s)

-- A segment whose changes are only in the forward index of its last node.
pub Segment-frame :
    (nodes nodes' : Nodes) (p : ℕ) (xs : List ℕ) (q : ℕ)
    → ¬ Member p xs
    → Distinct xs
    → ((i : ℕ) → (i ≡ p) ⊎ Member i xs → i ≢ q → (nodes' i).fidx ≡ (nodes i).fidx)
    → ((i : ℕ) → Member i xs → (nodes' i).bidx ≡ (nodes i).bidx)
    → Segment nodes p xs q
    → Segment nodes' p xs q
Segment-frame nodes nodes' p [] q n d f b s = s
Segment-frame nodes nodes' p (x ∷ xs) q n (n', d) f b (l, m, s) =
    let p_ne_q : p ≢ q =
      λ e. n (subst (λ (k : ℕ). Member k (x ∷ xs)) (sym e) (Segment-last nodes x xs q s)) in
    (
      f p (inl refl) p_ne_q ∙ l,
      b x (inl refl) ∙ m,
      Segment-frame nodes nodes' x xs q n' d (λ i h. f i (inr h)) (λ i h. b i (inr h)) s,
    )

-- A free node has no data.
pub Free-data :
    (nodes : Nodes) (f : ℕ) (ys : List ℕ) (i : ℕ)
    → Free nodes f ys
    → Member i ys
    → (nodes i).data_ ≡ 0
Free-data nodes f [] i h m = elim m [ ]
Free-data nodes f (y ∷ ys) i (_, d, rest) (inl e) = ap (λ (k : ℕ). (nodes k).data_) e ∙ d
Free-data nodes f (y ∷ ys) i (_, d, rest) (inr m) = Free-data nodes (nodes y).fidx ys i rest m
