-- ===== src/Prelude/Members.antt =====
-- Members of lists of numbers, and lists without repetition.
use Prim.Native.Nat.{ℕ}
use mathlib.Core.Path.{◌≡◌, refl, ap, subst}
use mathlib.Core.Logic.{◌⊎◌, inl, inr}
use mathlib.Core.List.{List, [], ◌∷◌, ◌++◌}

abbrev pub Member : ℕ → List ℕ → Type 0
Member i [] = ⊥
Member i (x ∷ xs) = (i ≡ x) ⊎ Member i xs

abbrev pub Distinct : List ℕ → Type 0
Distinct [] = Unit
Distinct (x ∷ xs) = ¬ Member x xs × Distinct xs

pub Member-append_left : (i : ℕ) (xs ys : List ℕ) → Member i xs → Member i (xs ++ ys)
Member-append_left i [] ys m = elim m [ ]
Member-append_left i (x ∷ xs) ys (inl e) = inl e
Member-append_left i (x ∷ xs) ys (inr m) = inr (Member-append_left i xs ys m)

pub Member-append_right : (i : ℕ) (xs ys : List ℕ) → Member i ys → Member i (xs ++ ys)
Member-append_right i [] ys m = m
Member-append_right i (x ∷ xs) ys m = inr (Member-append_right i xs ys m)

pub Member-append : (i : ℕ) (xs ys : List ℕ) → Member i (xs ++ ys) → Member i xs ⊎ Member i ys
Member-append i [] ys m = inr m
Member-append i (x ∷ xs) ys (inl e) = inl (inl e)
Member-append i (x ∷ xs) ys (inr m) = elim (Member-append i xs ys m) [
  | inl l ↦ inl (inr l)
  | inr r ↦ inr r
]

pub Member-split :
    (i : ℕ) (zs : List ℕ) → Member i zs → (xs : List ℕ) × (ys : List ℕ) × (zs ≡ xs ++ (i ∷ ys))
Member-split i [] m = elim m [ ]
Member-split i (z ∷ zs) (inl e) = ([], zs, rw e)
Member-split i (z ∷ zs) (inr m) =
    let (xs, ys, e) = Member-split i zs m in (z ∷ xs, ys, ap (λ (t : List ℕ). z ∷ t) e)

pub Distinct-append :
    (xs ys : List ℕ)
    → Distinct (xs ++ ys)
    → Distinct xs × Distinct ys × ((i : ℕ) → Member i xs → ¬ Member i ys)
Distinct-append [] ys d = (tt, d, λ i m. elim m [ ])
Distinct-append (x ∷ xs) ys (n, d) =
    let (dx, dy, apart) = Distinct-append xs ys d in
    (
      ((λ m. n (Member-append_left x xs ys m)), dx),
      dy,
      λ i m k. elim m [
        | inl e ↦ n (subst (λ (j : ℕ). Member j (xs ++ ys)) e (Member-append_right i xs ys k))
        | inr l ↦ apart i l k
      ],
    )

pub Distinct-join :
    (xs ys : List ℕ)
    → Distinct xs
    → Distinct ys
    → ((i : ℕ) → Member i xs → ¬ Member i ys)
    → Distinct (xs ++ ys)
Distinct-join [] ys dx dy apart = dy
Distinct-join (x ∷ xs) ys (n, dx) dy apart = (
  (λ m. elim (Member-append x xs ys m) [ inl l ↦ n l | inr r ↦ apart x (inl refl) r ]),
  Distinct-join xs ys dx dy (λ i m. apart i (inr m)),
)
