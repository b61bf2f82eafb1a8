-- ===== src/SpinLock/Tests.antt =====
-- src/spinlock.c with two processors of which one has the lock.
use deepshield.Prelude.{ℕ, ◌≡◌, refl, true}
use deepshield.SpinLock.{
  SpinLock, initialize_spin_lock, step_at, set_at, idle, Reachable, start, step,
}
use deepshield.SpinLock.Holder.{has_lock}
use deepshield.SpinLock.Exclusive.{mutual_exclusion, irql_restored}

abbrev passive : ℕ → ℕ
passive i = i

abbrev next : ℕ → SpinLock → SpinLock
next i s = step_at i (s.pc i) s

-- Processor 0 takes the lock and processor 1 tries to.
abbrev contended : SpinLock
contended = next 1 (next 0 (next 1 (next 0 (initialize_spin_lock passive))))

contended-Reachable : Reachable passive contended
contended-Reachable = step 1 (step 0 (step 1 (step 0 start)))

has_0 : has_lock (contended.pc 0) ≡ true
unfolding initialize_spin_lock step_at set_at
has_0 = refl

idle_2 : contended.pc 2 ≡ idle
unfolding initialize_spin_lock step_at set_at
idle_2 = refl

mutual_exclusion_example : ◌≡◌ {A = ℕ} 0 0
mutual_exclusion_example = mutual_exclusion 0 0 contended-Reachable has_0 has_0

irql_restored_example : contended.irql 2 ≡ 2
irql_restored_example = irql_restored 2 contended-Reachable idle_2
