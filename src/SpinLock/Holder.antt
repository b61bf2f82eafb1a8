-- ===== src/SpinLock/Holder.antt =====
-- Who has the lock of src/spinlock.c, and what a processor knows at its place.
use deepshield.Prelude.{
  ℕ, ◌≡◌, ◌≢◌, ◌∙◌, ◌⊎◌, inl, inr, refl, sym, ap, Bool, true, false, Bool-cases, Option, some, ◌==◌,
  ==_iff, if◌then◌else◌, arith,
}
use mathlib.Core.Path.{subst}
use deepshield.SpinLock.{
  Pc, idle, held, raised, spinning, trying, checked, taken, releasing, freed, SpinLock, set_at,
}

pub set_at_self : {A : Type 0} (f : ℕ → A) (i : ℕ) (v : A) → set_at f i v i ≡ v
unfolding set_at
set_at_self f i v = ground arith

pub set_at_ne : {A : Type 0} (f : ℕ → A) (i j : ℕ) (v : A) → i ≢ j → set_at f i v j ≡ f j
unfolding set_at
set_at_ne f i j v h = ground arith

-- Whether a processor has the lock.
abbrev pub has_lock : Pc → Bool
has_lock held = true
has_lock (taken _) = true
has_lock (releasing _) = true
has_lock _ = false

-- What a processor knows at its place; `before` is its IRQL when it does not use the lock.
abbrev pub Knows : ℕ → (before : ℕ) → (old_irql : ℕ) → Option ℕ → (irql : ℕ) → Pc → Type 0
Knows i before old owner irql idle = irql ≡ before
Knows i before old owner irql held = (old ≡ before) × (owner ≡ some i)
Knows i before old owner irql (raised o) = o ≡ before
Knows i before old owner irql (spinning o) = o ≡ before
Knows i before old owner irql (trying o) = o ≡ before
Knows i before old owner irql (checked o) = o ≡ before
Knows i before old owner irql (taken o) = o ≡ before
Knows i before old owner irql (releasing o) = o ≡ before
Knows i before old owner irql (freed o) = o ≡ before

-- Nobody has the lock and it is 0, or one processor has it and it is 1.
abbrev pub Holder : ℕ → (ℕ → Pc) → Type 0
Holder lock pc =
    ((lock ≡ 0) × ((j : ℕ) → has_lock (pc j) ≡ false))
    ⊎ ((lock ≡ 1)
        × ((h : ℕ) × (has_lock (pc h) ≡ true) × ((j : ℕ) → h ≢ j → has_lock (pc j) ≡ false)))

pub record IsSound (irql : ℕ → ℕ) (s : SpinLock) : Type 0 where
  pub holder : Holder s.lock s.pc
  pub knows : (j : ℕ) → Knows j (irql j) s.old_irql s.owner (s.irql j) (s.pc j)

-- A processor that has the lock is its holder.
pub Holder-of :
    {lock : ℕ} (pc : ℕ → Pc) (i : ℕ)
    → Holder lock pc
    → has_lock (pc i) ≡ true
    → (lock ≡ 1) × ((j : ℕ) → i ≢ j → has_lock (pc j) ≡ false)
Holder-of pc i (inl (_, free)) h = let f = free i in ground arith
Holder-of pc i (inr (one, (k, _, others))) h = elim (Bool-cases (k == i)) [
  | inl y ↦ let e : k ≡ i = (==_iff k i).0 y in (one, λ j n. others j (λ q. n (sym e ∙ q)))
  | inr z ↦ let f = others i (λ q. let t = (==_iff k i).1 q in ground arith) in ground arith
]

-- What holds at a place of a family that is changed at one place.
pub at_change :
    {A : Type 0} (P : ℕ → A → Type 0) (f : ℕ → A) (i : ℕ) (v : A)
    → P i v
    → ((j : ℕ) → i ≢ j → P j (f j))
    → (j : ℕ) → P j (set_at f i v j)
at_change P f i v here other j = elim (Bool-cases (i == j)) [
  | inl y ↦
      let e : i ≡ j = (==_iff i j).0 y in
      subst (λ (k : ℕ). P k (set_at f i v k)) e (subst (P i) (sym (set_at_self f i v)) here)
  | inr z ↦
      let n : i ≢ j = λ q. let t = (==_iff i j).1 q in ground arith in
      subst (P j) (sym (set_at_ne f i j v n)) (other j n)
]

-- A step of processor `i` that does not change whether it has the lock.
pub Holder-same :
    {lock : ℕ} (pc : ℕ → Pc) (i : ℕ) (p : Pc)
    → Holder lock pc
    → has_lock p ≡ has_lock (pc i)
    → Holder lock (set_at pc i p)
Holder-same pc i p v same =
    let all : (j : ℕ) → has_lock (set_at pc i p j) ≡ has_lock (pc j) =
      at_change (λ j q. has_lock q ≡ has_lock (pc j)) pc i p same (λ j n. refl) in
    elim v [
      | inl (zero_, free) ↦ inl (zero_, λ j. all j ∙ free j)
      | inr (one, (h, has, others)) ↦ inr (one, (h, all h ∙ has, λ j n. all j ∙ others j n))
    ]

pub Holder-lock :
    (pc : ℕ → Pc) (i : ℕ) (p : Pc)
    → ((j : ℕ) → has_lock (pc j) ≡ false)
    → has_lock p ≡ true
    → Holder 1 (set_at pc i p)
Holder-lock pc i p free has = inr (
  refl,
  (i, ap has_lock (set_at_self pc i p) ∙ has, λ j n. ap has_lock (set_at_ne pc i j p n) ∙ free j),
)

pub Holder-unlock :
    {lock : ℕ} (pc : ℕ → Pc) (i : ℕ) (p : Pc)
    → Holder lock pc
    → has_lock (pc i) ≡ true
    → has_lock p ≡ false
    → Holder 0 (set_at pc i p)
Holder-unlock pc i p v has free =
    let (_, others) = Holder-of pc i v has in
    inl (refl, at_change (λ j q. has_lock q ≡ false) pc i p free others)

-- A processor without the lock does not depend on what the holder writes.
pub Knows-other :
    (j before old old' : ℕ) (owner owner' : Option ℕ) (irql : ℕ) (p : Pc)
    → has_lock p ≡ false
    → Knows j before old owner irql p
    → Knows j before old' owner' irql p
Knows-other j before old old' owner owner' irql idle f k = k
Knows-other j before old old' owner owner' irql held f k = ground arith
Knows-other j before old old' owner owner' irql (raised o) f k = k
Knows-other j before old old' owner owner' irql (spinning o) f k = k
Knows-other j before old old' owner owner' irql (trying o) f k = k
Knows-other j before old old' owner owner' irql (checked o) f k = k
Knows-other j before old old' owner owner' irql (taken o) f k = k
Knows-other j before old old' owner owner' irql (releasing o) f k = k
Knows-other j before old old' owner owner' irql (freed o) f k = k

pub choose :
    {irql : ℕ → ℕ} (b : Bool) (s t : SpinLock)
    → IsSound irql s
    → IsSound irql t
    → IsSound irql (if b then s else t)
choose true s t v w = v
choose false s t v w = w
