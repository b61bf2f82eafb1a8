-- ===== src/RingBuf/Inv.antt =====
-- The representation invariant of src/ringbuf.c's RING_BUFFER, and the memory safety of the
-- two transfers.
use deepshield.Prelude.{
  ℕ, ◌+◌, ◌-◌, ◌≤◌, ◌<◌, ◌≡◌, ◌∙◌, refl, ◌⊎◌, List, length, take, drop, leb, min, [], ◌++◌, ◌==◌,
  arith, if◌then◌else◌, word, length-take,
}
use native.Mathlib.Decide.{dec_lt}
use deepshield.Nt.{success}
use deepshield.RingBuf.{
  RingBuffer, initialize, get_avail_bytes, write_bytes, write, read_bytes, read, copy_memory, bytes,
}
use deepshield.RingBuf.Memory.{copy_memory_outside}

-- `Head` and `Tail` point into the buffer, and the buffer with its own length once more lies in
-- the address space, so no pointer arithmetic wraps.
pub record IsValid (r : RingBuffer) : Type 0 where
  pub nonempty : 0 < r.size
  pub bounded : r.end ≡ r.base + r.size
  pub room : r.end + r.size ≤ word
  pub head_low : r.base ≤ r.head
  pub head_in : r.head < r.end
  pub tail_low : r.base ≤ r.tail
  pub tail_in : r.tail < r.end

-- The number of bytes written and not yet read.
abbrev pub unread : RingBuffer → ℕ
unread r = if leb r.head r.tail then r.tail - r.head else r.size - (r.head - r.tail)

pub unread-lt-size : {r : RingBuffer} → IsValid r → unread r < r.size
unread-lt-size v = ground arith

-- The two counts of RtlRingBufferGetAvailBytes, without the machine arithmetic.
pub get_avail_bytes_lem :
    {r : RingBuffer} → IsValid r → get_avail_bytes r ≡ (r.size - unread r, unread r)
unfolding get_avail_bytes
get_avail_bytes_lem {r} v = ground arith

pub initialize-IsValid :
    (m : ℕ → ℕ) (b n : ℕ)
    → 0 < n
    → b + n + n ≤ word
    → IsValid (initialize m b n) × (unread (initialize m b n) ≡ 0)
unfolding initialize
initialize-IsValid m b n pos fits = ground arith

pub size-initialize : (m : ℕ → ℕ) (b n : ℕ) → (initialize m b n).size ≡ n
unfolding initialize
size-initialize m b n = refl

pub write_bytes-IsValid :
    {r : RingBuffer} (d : List ℕ) (n : ℕ) → IsValid r → n ≤ r.size → IsValid (write_bytes r d n)
unfolding write_bytes
write_bytes-IsValid d n v h = ground arith

pub read_bytes-IsValid :
    {r : RingBuffer} (n : ℕ) → IsValid r → n ≤ r.size → IsValid (read_bytes r n).1
unfolding read_bytes
read_bytes-IsValid n v h = ground arith

-- RtlRingBufferWrite leaves the ring valid and reports success, and changes no byte outside the
-- buffer.
pub write-IsValid :
    {r : RingBuffer} (d : List ℕ) → IsValid r → ((write r d).0 ≡ success) × IsValid (write r d).1
unfolding write
write-IsValid {r} d v = ground (
  arith,
  get_avail_bytes_lem v,
  write_bytes-IsValid d (r.size - unread r) v,
  write_bytes-IsValid d (length d) v,
)

-- RtlRingBufferRead leaves the ring valid and reports success.
pub read-IsValid :
    {r : RingBuffer} (n : ℕ) → IsValid r → ((read r n).0 ≡ success) × IsValid (read r n).2
unfolding read
read-IsValid {r} n v =
    ground (arith, get_avail_bytes_lem v, read_bytes-IsValid (unread r) v, read_bytes-IsValid n v)

-- The two ways of a write, without the machine arithmetic.
abbrev pub flat_write : RingBuffer → List ℕ → ℕ → RingBuffer
flat_write r d n = record r {
  memory = copy_memory r.memory r.tail (take n d);
  tail = if r.tail + n == r.end then r.base else r.tail + n;
}

abbrev pub wrapped_write : RingBuffer → List ℕ → ℕ → RingBuffer
wrapped_write r d n =
    let s = r.end - r.tail in
    record r {
      memory =
          copy_memory (copy_memory r.memory r.tail (take s d)) r.base (take (n - s) (drop s d));
      tail = r.base + (n - s);
    }

pub write_bytes-flat :
    {r : RingBuffer} (d : List ℕ) (n : ℕ)
    → IsValid r
    → r.tail + n ≤ r.end
    → write_bytes r d n ≡ flat_write r d n
unfolding write_bytes
write_bytes-flat {r} d n v h = ground arith

pub write_bytes-wrapped :
    {r : RingBuffer} (d : List ℕ) (n : ℕ)
    → IsValid r
    → n ≤ r.size
    → r.end < r.tail + n
    → write_bytes r d n ≡ wrapped_write r d n
unfolding write_bytes
write_bytes-wrapped {r} d n v le h = ground arith

-- A write that leaves room, and one that is cut to what room there is.
pub write-fits :
    {r : RingBuffer} (d : List ℕ)
    → IsValid r
    → length d + unread r < r.size
    → write r d ≡ (success, if length d == 0 then r else write_bytes r d (length d))
unfolding write
write-fits {r} d v h = rw (write, get_avail_bytes_lem v) (ground arith)

pub write-clipped :
    {r : RingBuffer} (d : List ℕ)
    → IsValid r
    → r.size ≤ length d + unread r
    → write r d ≡ (success, write_bytes r d (r.size - unread r))
unfolding write
write-clipped {r} d v h = rw (write, get_avail_bytes_lem v) (ground arith)

-- The two ways of a read, without the machine arithmetic.
abbrev pub flat_read : RingBuffer → ℕ → List ℕ × RingBuffer
flat_read r n = (
  bytes r.memory r.head n,
  record r { head = if r.head + n == r.end then r.base else r.head + n },
)

abbrev pub wrapped_read : RingBuffer → ℕ → List ℕ × RingBuffer
wrapped_read r n =
    let s = r.end - r.head in
    (bytes r.memory r.head s ++ bytes r.memory r.base (n - s), record r { head = r.base + (n - s) })

pub read_bytes-flat :
    {r : RingBuffer} (n : ℕ) → IsValid r → r.head + n ≤ r.end → read_bytes r n ≡ flat_read r n
unfolding read_bytes
read_bytes-flat {r} n v h = ground arith

pub read_bytes-wrapped :
    {r : RingBuffer} (n : ℕ)
    → IsValid r
    → n ≤ r.size
    → r.end < r.head + n
    → read_bytes r n ≡ wrapped_read r n
unfolding read_bytes
read_bytes-wrapped {r} n v le h = ground arith

pub read-empty : {r : RingBuffer} (n : ℕ) → IsValid r → unread r ≡ 0 → read r n ≡ (success, [], r)
unfolding read
read-empty {r} n v h = rw (read, get_avail_bytes_lem v) (ground arith)

pub read_some :
    {r : RingBuffer} (n : ℕ)
    → IsValid r
    → 0 < unread r
    → read r n ≡ (let (out, r') = read_bytes r (min n (unread r)) in (success, out, r'))
unfolding read
read_some {r} n v h = rw (read, get_avail_bytes_lem v) (ground arith)

-- What a write leaves of the memory outside the buffer.
pub write_bytes-memory_outside :
    {r : RingBuffer} (d : List ℕ) (n i : ℕ)
    → IsValid r
    → n ≤ r.size
    → (i < r.base) ⊎ (r.end ≤ i)
    → (write_bytes r d n).memory i ≡ r.memory i
write_bytes-memory_outside {r} d n i v h out = elim (dec_lt r.end (r.tail + n)) [
  | yes p ↦ rw (write_bytes-wrapped d n v h p) (
      copy_memory_outside _ r.base _ i (grind (arith, length-take))
      ∙ copy_memory_outside r.memory r.tail _ i (grind (arith, length-take)))
  | no p ↦
      rw (write_bytes-flat d n v (omega arith))
        (copy_memory_outside r.memory r.tail _ i (grind (arith, length-take)))
]

pub write-memory_outside :
    {r : RingBuffer} (d : List ℕ) (i : ℕ)
    → IsValid r
    → (i < r.base) ⊎ (r.end ≤ i)
    → (write r d).1.memory i ≡ r.memory i
unfolding write
write-memory_outside {r} d i v out = ground (
  arith,
  get_avail_bytes_lem v,
  write_bytes-memory_outside d (r.size - unread r) i v,
  write_bytes-memory_outside d (length d) i v,
)
