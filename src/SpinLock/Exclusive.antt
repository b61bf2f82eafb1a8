-- ===== src/SpinLock/Exclusive.antt =====
-- Mutual exclusion by the lock of src/spinlock.c, and the IRQL that it restores.
use deepshield.Prelude.{
  ℕ, ◌+◌, ◌*◌, ◌/◌, ◌%◌, ◌≡◌, ◌≢◌, ◌∙◌, inl, inr, refl, sym, ap, Bool, true, false, Bool-cases,
  Option, none, some, ◌==◌, ==_iff, if◌then◌else◌, arith,
}
use mathlib.Core.Path.{subst}
use deepshield.SpinLock.{
  Pc, idle, held, raised, spinning, trying, checked, taken, releasing, freed, SpinLock, set_at,
  high_level, initialize_spin_lock, go_on, bit_test_and_set, step_at, try_at, Reachable, start,
  step, try_lock,
}
use deepshield.SpinLock.Holder.{
  set_at_self, set_at_ne, has_lock, Knows, Holder, IsSound, Holder-of, at_change, Holder-same,
  Holder-lock, Holder-unlock, Knows-other, choose,
}

module _ (irql : ℕ → ℕ) (s : SpinLock) (v : IsSound irql s) (i : ℕ) where
  -- A step that changes the place of the processor alone.
  moves :
      (p : Pc)
      → has_lock p ≡ has_lock (s.pc i)
      → Knows i (irql i) s.old_irql s.owner (s.irql i) p
      → IsSound irql (go_on i p s)
  moves p same here = record {
    holder = Holder-same s.pc i p v.holder same;
    knows =
        at_change (λ j q. Knows j (irql j) s.old_irql s.owner (s.irql j) q) s.pc i p here
          (λ j n. v.knows j);
  }

  -- A step that changes the IRQL too.
  moves_irql :
      (p : Pc) (level : ℕ)
      → has_lock p ≡ has_lock (s.pc i)
      → Knows i (irql i) s.old_irql s.owner level p
      → IsSound irql (record s { irql = set_at s.irql i level; pc = set_at s.pc i p })
  moves_irql p level same here = record {
    holder = Holder-same s.pc i p v.holder same;
    knows =
        at_change (λ j q. Knows j (irql j) s.old_irql s.owner (set_at s.irql i level j) q) s.pc i p
          (subst (λ (k : ℕ). Knows i (irql i) s.old_irql s.owner k p)
            (sym (set_at_self s.irql i level)) here)
          (λ j n.
            subst (λ (k : ℕ). Knows j (irql j) s.old_irql s.owner k (s.pc j))
              (sym (set_at_ne s.irql i j level n)) (v.knows j));
  }

  -- The test-and-set.
  sets :
      (o : ℕ) (p : Pc)
      → o ≡ irql i
      → has_lock (s.pc i) ≡ false
      → has_lock p ≡ false
      → Knows i (irql i) s.old_irql s.owner (s.irql i) p
      → IsSound irql (bit_test_and_set i o p s)
  sets o p e free free' here = elim v.holder [
    | inl (zero_, all) ↦
        let bit : (s.lock % 2 == 0) ≡ true = ground arith in
        let one : 1 ≡ s.lock / 2 * 2 + 1 = omega arith in
        subst
          (λ (b : Bool). IsSound irql (
            if b
            then record s { lock = s.lock / 2 * 2 + 1; pc = set_at s.pc i (taken o) }
            else go_on i p s))
          (sym bit)
          (record {
            holder =
                subst (λ (l : ℕ). Holder l (set_at s.pc i (taken o))) one
                  (Holder-lock s.pc i (taken o) all refl);
            knows =
                at_change (λ j q. Knows j (irql j) s.old_irql s.owner (s.irql j) q) s.pc i (taken o)
                  e (λ j n. v.knows j);
          })
    | inr (one, (h, has, others)) ↦
        let bit : (s.lock % 2 == 0) ≡ false = ground arith in
        subst
          (λ (b : Bool). IsSound irql (
            if b
            then record s { lock = s.lock / 2 * 2 + 1; pc = set_at s.pc i (taken o) }
            else go_on i p s))
          (sym bit) (moves p (free' ∙ sym free) here)
  ]

  without : {p : Pc} → s.pc i ≡ p → has_lock p ≡ has_lock (s.pc i)
  without e = ap has_lock (sym e)

  at_place : {p : Pc} → s.pc i ≡ p → Knows i (irql i) s.old_irql s.owner (s.irql i) p
  at_place e = subst (Knows i (irql i) s.old_irql s.owner (s.irql i)) e (v.knows i)

  -- The holder writes OldIrql and Owner.
  writes :
      (p : Pc) (old : ℕ) (owner : Option ℕ)
      → has_lock (s.pc i) ≡ true
      → has_lock p ≡ true
      → Knows i (irql i) old owner (s.irql i) p
      → IsSound irql (record s { old_irql = old; owner = owner; pc = set_at s.pc i p })
  writes p old owner has has' here =
      let (_, others) = Holder-of s.pc i v.holder has in
      record {
        holder = Holder-same s.pc i p v.holder (has' ∙ sym has);
        knows =
            at_change (λ j q. Knows j (irql j) old owner (s.irql j) q) s.pc i p here
              (λ j n.
                Knows-other j (irql j) s.old_irql old s.owner owner (s.irql j) (s.pc j) (others j n)
                  (v.knows j));
      }

  step_at-IsSound : (p : Pc) → s.pc i ≡ p → IsSound irql (step_at i p s)
  unfolding step_at
  step_at-IsSound idle e = moves_irql (raised (s.irql i)) high_level (without e) (at_place e)
  step_at-IsSound (raised o) e =
      sets o (spinning o) (at_place e) (sym (without e)) refl (at_place e)
  step_at-IsSound (spinning o) e =
      choose (s.lock == 0) (go_on i (raised o) s) s (moves (raised o) (without e) (at_place e)) v
  step_at-IsSound (trying o) e =
      choose (s.lock == 0) (go_on i (checked o) s) (go_on i (freed o) s)
        (moves (checked o) (without e) (at_place e)) (moves (freed o) (without e) (at_place e))
  step_at-IsSound (checked o) e = sets o (freed o) (at_place e) (sym (without e)) refl (at_place e)
  step_at-IsSound (taken o) e = writes held o (some i) (sym (without e)) refl (at_place e, refl)
  step_at-IsSound held e =
      writes (releasing s.old_irql) 0 none (sym (without e)) refl (at_place e).0
  step_at-IsSound (releasing o) e = record {
    holder = Holder-unlock s.pc i (freed o) v.holder (sym (without e)) refl;
    knows =
        at_change (λ j q. Knows j (irql j) s.old_irql s.owner (s.irql j) q) s.pc i (freed o)
          (at_place e) (λ j n. v.knows j);
  }
  step_at-IsSound (freed o) e = moves_irql idle o (without e) (at_place e)

  try_at-IsSound : (p : Pc) → s.pc i ≡ p → IsSound irql (try_at i p s)
  unfolding try_at
  try_at-IsSound idle e = moves_irql (trying (s.irql i)) high_level (without e) (at_place e)
  try_at-IsSound held e = v
  try_at-IsSound (raised o) e = v
  try_at-IsSound (spinning o) e = v
  try_at-IsSound (trying o) e = v
  try_at-IsSound (checked o) e = v
  try_at-IsSound (taken o) e = v
  try_at-IsSound (releasing o) e = v
  try_at-IsSound (freed o) e = v

-- What can be reached is sound: the lock is 1 exactly while a processor has it.
pub Reachable-IsSound : {irql : ℕ → ℕ} {s : SpinLock} → Reachable irql s → IsSound irql s
unfolding initialize_spin_lock
Reachable-IsSound start = record { holder = inl (refl, λ j. refl); knows = λ j. refl }
Reachable-IsSound (step {s} i r) = step_at-IsSound _ s (Reachable-IsSound r) i (s.pc i) refl
Reachable-IsSound (try_lock {s} i r) = try_at-IsSound _ s (Reachable-IsSound r) i (s.pc i) refl

-- In every interleaving of the processors two that have the lock are the same.
pub mutual_exclusion :
    {irql : ℕ → ℕ} {s : SpinLock} (i j : ℕ)
    → Reachable irql s
    → has_lock (s.pc i) ≡ true
    → has_lock (s.pc j) ≡ true
    → i ≡ j
mutual_exclusion {irql} {s} i j r hi hj =
    let (_, others) = Holder-of s.pc i (Reachable-IsSound r).holder hi in
    elim (Bool-cases (i == j)) [
      | inl y ↦ (==_iff i j).0 y
      | inr z ↦
          let n : i ≢ j = λ q. let t = (==_iff i j).1 q in ground arith in
          let f = others j n in ground arith
    ]

-- In every interleaving a processor that does not use the lock, after any number of calls, runs
-- at the IRQL it had at the start.
pub irql_restored :
    {irql : ℕ → ℕ} {s : SpinLock} (i : ℕ) → Reachable irql s → s.pc i ≡ idle → s.irql i ≡ irql i
irql_restored {irql} {s} i r e =
    subst (Knows i (irql i) s.old_irql s.owner (s.irql i)) e ((Reachable-IsSound r).knows i)
