-- ===== src/SpinLock.antt =====
-- src/spinlock.c as steps of processors that run at the same time. A step is one access to the
-- lock's word; the holder's writes of OldIrql and Owner, which nobody else reads, go with it.
pub mod Holder
pub mod Exclusive
mod Tests
use deepshield.Prelude.{
  ℕ, zero, suc, ◌+◌, ◌*◌, ◌/◌, ◌%◌, Bool, true, false, Option, none, some, List, [], ◌∷◌, ◌==◌,
  if◌then◌else◌,
}

-- Where a processor stands; the argument is the local OldIrql.
--   raised, spinning    in DspAcquireSpinLock before the test-and-set, and before the read
--   trying, checked     in DspTryToAcquireSpinLock before the read, and before the test-and-set
--   taken               the test-and-set has won
--   held                back from DsAcquireSpinLock or DsTryToAcquireSpinLock
--   releasing, freed    in DsReleaseSpinLock before the lock is cleared, and after it
pub data Pc : Type 0 where
  idle held : Pc
  raised spinning trying checked taken releasing freed : (old_irql : ℕ) → Pc

-- DS_SPIN_LOCK, with the processors that use it.
pub record SpinLock : Type 0 where
  pub lock : ℕ
  pub old_irql : ℕ
  pub owner : Option ℕ
  pub irql : ℕ → ℕ
  pub pc : ℕ → Pc

pub set_at : {A : Type 0} → (ℕ → A) → ℕ → A → ℕ → A
set_at f i v j = if i == j then v else f j

abbrev pub high_level : ℕ
high_level = 15

-- DsInitializeSpinLock, before any processor uses the lock.
pub initialize_spin_lock : (irql : ℕ → ℕ) → SpinLock
initialize_spin_lock irql = record {
  lock = 0;
  old_irql = 0;
  owner = none;
  irql = irql;
  pc = λ _. idle;
}

abbrev pub go_on : ℕ → Pc → SpinLock → SpinLock
go_on i p s = record s { pc = set_at s.pc i p }

-- InterlockedBitTestAndSet of bit 0: the lock is taken, or the processor goes on at `p`.
abbrev pub bit_test_and_set : ℕ → ℕ → Pc → SpinLock → SpinLock
bit_test_and_set i o p s =
    if s.lock % 2 == 0
    then record s { lock = s.lock / 2 * 2 + 1; pc = set_at s.pc i (taken o) }
    else go_on i p s

-- The next step of processor `i`, which stands at a place. From `idle` it calls
-- DsAcquireSpinLock, from `held` DsReleaseSpinLock.
pub step_at : ℕ → Pc → SpinLock → SpinLock
step_at i idle s = record s {
  irql = set_at s.irql i high_level;
  pc = set_at s.pc i (raised (s.irql i));
}
step_at i (raised o) s = bit_test_and_set i o (spinning o) s
step_at i (spinning o) s = if s.lock == 0 then go_on i (raised o) s else s
step_at i (trying o) s = if s.lock == 0 then go_on i (checked o) s else go_on i (freed o) s
step_at i (checked o) s = bit_test_and_set i o (freed o) s
step_at i (taken o) s = record s { old_irql = o; owner = some i; pc = set_at s.pc i held }
step_at i held s = record s {
  old_irql = 0;
  owner = none;
  pc = set_at s.pc i (releasing s.old_irql);
}
step_at i (releasing o) s = record s { lock = 0; pc = set_at s.pc i (freed o) }
step_at i (freed o) s = record s { irql = set_at s.irql i o; pc = set_at s.pc i idle }

-- The call of DsTryToAcquireSpinLock.
pub try_at : ℕ → Pc → SpinLock → SpinLock
try_at i idle s = record s {
  irql = set_at s.irql i high_level;
  pc = set_at s.pc i (trying (s.irql i));
}
try_at i _ s = s

-- What may happen next, and what can be reached from the initialised lock.
pub data Reachable (irql : ℕ → ℕ) : SpinLock → Type 0 where
  start : Reachable irql (initialize_spin_lock irql)
  step : {s : SpinLock} (i : ℕ) → Reachable irql s → Reachable irql (step_at i (s.pc i) s)
  try_lock : {s : SpinLock} (i : ℕ) → Reachable irql s → Reachable irql (try_at i (s.pc i) s)
