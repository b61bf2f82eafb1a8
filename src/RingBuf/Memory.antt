-- ===== src/RingBuf/Memory.antt =====
-- Reading back what `copy_memory` wrote, for the copies of src/ringbuf.c.
use deepshield.Prelude.{
  ℕ, zero, suc, ◌+◌, ◌-◌, ◌≤◌, ◌<◌, ◌≡◌, refl, ap, ◌∙◌, ◌⊎◌, inl, inr, List, [], ◌∷◌, ◌++◌, length,
  take, drop, arith,
}
use mathlib.Core.Path.{ap₂}
use deepshield.RingBuf.{copy_memory, bytes}

pub length-bytes : (m : ℕ → ℕ) (a n : ℕ) → length (bytes m a n) ≡ n
unfolding bytes
length-bytes m a zero = refl
length-bytes m a (suc n) = ap suc (length-bytes m (a + 1) n)

-- A block is its first `n` bytes and the `k` bytes behind them, at `b`.
pub bytes-add :
    (m : ℕ → ℕ) (a n k b j : ℕ) → b ≡ a + n → j ≡ n + k → bytes m a j ≡ bytes m a n ++ bytes m b k
unfolding bytes
bytes-add m a zero k b j hb hj = ap₂ (λ x y. bytes m x y) (omega arith) (omega arith)
bytes-add m a (suc n) k b zero hb hj = absurd (omega arith)
bytes-add m a (suc n) k b (suc j) hb hj =
    ap (λ (t : List ℕ). m a ∷ t) (bytes-add m (a + 1) n k b j (omega arith) (omega arith))

-- Two memories that agree on a block give the same bytes.
pub bytes-ext :
    (m m' : ℕ → ℕ) (a n : ℕ)
    → ((i : ℕ) → a ≤ i → i < a + n → m i ≡ m' i)
    → bytes m a n ≡ bytes m' a n
unfolding bytes
bytes-ext m m' a zero h = refl
bytes-ext m m' a (suc n) h =
    ap₂ ◌∷◌ (h a (omega arith) (omega arith))
      (bytes-ext m m' (a + 1) n (λ i lo hi. h i (omega arith) (omega arith)))

-- A copy leaves the addresses outside its block alone.
pub copy_memory_outside :
    (m : ℕ → ℕ) (dst : ℕ) (src : List ℕ) (i : ℕ)
    → (i < dst) ⊎ (dst + length src ≤ i)
    → copy_memory m dst src i ≡ m i
unfolding copy_memory
copy_memory_outside m dst src i h = ground arith

-- A block that the copy does not meet reads as before.
pub bytes-copy_memory_apart :
    (m : ℕ → ℕ) (dst : ℕ) (src : List ℕ) (a n : ℕ)
    → (a + n ≤ dst) ⊎ (dst + length src ≤ a)
    → bytes (copy_memory m dst src) a n ≡ bytes m a n
bytes-copy_memory_apart m dst src a n (inl h) =
    bytes-ext _ m a n (λ i lo hi. copy_memory_outside m dst src i (inl (omega arith)))
bytes-copy_memory_apart m dst src a n (inr h) =
    bytes-ext _ m a n (λ i lo hi. copy_memory_outside m dst src i (inr (omega arith)))

copy_memory-tail :
    (m : ℕ → ℕ) (dst x : ℕ) (xs : List ℕ) (i : ℕ)
    → dst + 1 ≤ i
    → copy_memory m dst (x ∷ xs) i ≡ copy_memory m (dst + 1) xs i
unfolding copy_memory
copy_memory-tail m dst x xs i h =
    let e : i - dst ≡ suc (i - (dst + 1)) = omega arith in rw (copy_memory, e) (ground arith)

copy_memory-head : (m : ℕ → ℕ) (dst x : ℕ) (xs : List ℕ) → copy_memory m dst (x ∷ xs) dst ≡ x
unfolding copy_memory
copy_memory-head m dst x xs =
    let e : dst - dst ≡ 0 = omega arith in rw (copy_memory, e) (ground arith)

-- The block just written reads as what was copied.
pub bytes-copy_memory_self :
    (m : ℕ → ℕ) (dst : ℕ) (src : List ℕ) (n : ℕ)
    → length src ≡ n
    → bytes (copy_memory m dst src) dst n ≡ src
unfolding bytes
bytes-copy_memory_self m dst [] zero h = refl
bytes-copy_memory_self m dst [] (suc n) h = absurd (omega arith)
bytes-copy_memory_self m dst (x ∷ xs) zero h = absurd (omega arith)
bytes-copy_memory_self m dst (x ∷ xs) (suc n) h = ap₂ ◌∷◌ (copy_memory-head m dst x xs) (
    bytes-ext _ (copy_memory m (dst + 1) xs) (dst + 1) n
      (λ i lo hi. copy_memory-tail m dst x xs i lo)
    ∙ bytes-copy_memory_self m (dst + 1) xs n (omega arith))

-- `take` and `drop` of a block are blocks.
pub take-bytes : (m : ℕ → ℕ) (a n k : ℕ) → k ≤ n → take k (bytes m a n) ≡ bytes m a k
unfolding bytes
take-bytes m a n zero h = refl
take-bytes m a zero (suc k) h = absurd (omega arith)
take-bytes m a (suc n) (suc k) h =
    ap (λ (t : List ℕ). m a ∷ t) (take-bytes m (a + 1) n k (omega arith))

pub drop-bytes :
    (m : ℕ → ℕ) (a n k b j : ℕ) → k ≤ n → b ≡ a + k → j ≡ n - k → drop k (bytes m a n) ≡ bytes m b j
unfolding bytes
drop-bytes m a n zero b j h hb hj = ap₂ (λ x y. bytes m x y) (omega arith) (omega arith)
drop-bytes m a zero (suc k) b j h hb hj = absurd (omega arith)
drop-bytes m a (suc n) (suc k) b j h hb hj =
    drop-bytes m (a + 1) n k b j (omega arith) (omega arith) (omega arith)
