-- ===== src/RingBuf/Refine.antt =====
-- A valid ring of src/ringbuf.c behaves as the queue of its unread bytes.
use deepshield.Prelude.{
  ℕ, ◌+◌, ◌-◌, ◌≤◌, ◌<◌, ◌≡◌, ◌∙◌, inl, inr, refl, List, [], ◌∷◌, ◌++◌, length, take, drop, leb,
  arith, if◌then◌else◌, length-take, length-drop, length-append, append_assoc, append-nil, take-add,
  take_of_le, nil_of_length, take-min, drop-min, min, drop_of_le, take-append_left,
  take-append_right, drop-append_left, drop-append_right,
}
use mathlib.Core.Path.{ap₂}
use native.Mathlib.Decide.{dec_lt, dec_le}
use deepshield.RingBuf.{RingBuffer, copy_memory, bytes, write_bytes, write, read_bytes, read}
use deepshield.RingBuf.Memory.{
  length-bytes, bytes-add, bytes-copy_memory_apart, bytes-copy_memory_self, take-bytes, drop-bytes,
}
use deepshield.RingBuf.Inv.{
  IsValid, unread, unread-lt-size, flat_write, wrapped_write, flat_read, wrapped_read,
  write_bytes-flat, write_bytes-wrapped, write-fits, write-clipped, read_bytes-flat,
  read_bytes-wrapped, read-empty, read_some, write-IsValid, read-IsValid,
}
use deepshield.RingBuf.Queue
use deepshield.RingBuf.Queue.{Queue, Op, put, get}

-- The unread bytes, oldest first: one block, or two round the end of the buffer.
abbrev pub contents : RingBuffer → Queue
contents r =
    if leb r.head r.tail
    then bytes r.memory r.head (r.tail - r.head)
    else bytes r.memory r.head (r.end - r.head) ++ bytes r.memory r.base (r.tail - r.base)

pub length-contents : {r : RingBuffer} → IsValid r → length (contents r) ≡ unread r
length-contents {r} v = ground (
  arith,
  length-bytes r.memory r.head (r.tail - r.head),
  length-bytes r.memory r.head (r.end - r.head),
  length-bytes r.memory r.base (r.tail - r.base),
  length-append (bytes r.memory r.head (r.end - r.head)) (bytes r.memory r.base (r.tail - r.base)),
)

-- A copy just behind a block extends it.
bytes-copy_memory_append :
    (m : ℕ → ℕ) (a u dst : ℕ) (xs : List ℕ) (j : ℕ)
    → dst ≡ a + u
    → j ≡ u + length xs
    → bytes (copy_memory m dst xs) a j ≡ bytes m a u ++ xs
bytes-copy_memory_append m a u dst xs j hd hj =
    bytes-add _ a u (length xs) dst j hd hj
    ∙ ap₂ ◌++◌ (bytes-copy_memory_apart m dst xs a u (inl (omega arith)))
        (bytes-copy_memory_self m dst xs (length xs) refl)

bytes-zero : (m : ℕ → ℕ) (a : ℕ) → bytes m a 0 ≡ []
unfolding bytes
bytes-zero m a = refl

module _ {r : RingBuffer} (v : IsValid r) (d : List ℕ) (n : ℕ) (len : n ≤ length d) where
  open r use {base, end, head, tail, memory}

  contents-flat_write :
      n + unread r < r.size → tail + n ≤ end → contents (flat_write r d n) ≡ contents r ++ take n d
  contents-flat_write room fits = elim (dec_le head tail) [
    | yes p ↦ ground (
      arith,
      bytes-copy_memory_append memory head (tail - head) tail (take n d) (tail + n - head)
          (ground arith) (ground (arith, length-take n d)),
      bytes-zero (copy_memory memory tail (take n d)) base,
      append-nil (bytes (copy_memory memory tail (take n d)) head (tail + n - head)),
    )
    | no p ↦ ground (
      arith,
      bytes-copy_memory_append memory base (tail - base) tail (take n d) (tail + n - base)
          (ground arith) (ground (arith, length-take n d)),
      bytes-copy_memory_apart memory tail (take n d) head (end - head)
          (inr (ground (arith, length-take n d))),
      append_assoc (bytes memory head (end - head)) (bytes memory base (tail - base)) (take n d),
    )
  ]

  contents-wrapped_write :
      n + unread r < r.size
      → end < tail + n
      → contents (wrapped_write r d n) ≡ contents r ++ take n d
  contents-wrapped_write room wraps = ground (
    arith,
    bytes-copy_memory_append memory head (tail - head) tail (take s d) (end - head) (ground arith)
        (ground (arith, length-take s d)),
    bytes-copy_memory_apart (copy_memory memory tail (take s d)) base (take (n - s) (drop s d)) head
        (end - head) (inr (ground (arith, length-take (n - s) (drop s d), length-drop s d))),
    bytes-copy_memory_self (copy_memory memory tail (take s d)) base (take (n - s) (drop s d))
        (n - s) (ground (arith, length-take (n - s) (drop s d), length-drop s d)),
    append_assoc (bytes memory head (tail - head)) (take s d) (take (n - s) (drop s d)),
    take-add s (n - s) n d (ground arith),
  )
    where
      s : ℕ
      s = end - tail

module _ {r : RingBuffer} (v : IsValid r) where
  open r use {base, end, head, tail, memory}

  write_bytes-append :
      (d : List ℕ) (n : ℕ)
      → n ≤ length d
      → n + unread r < r.size
      → contents (write_bytes r d n) ≡ contents r ++ take n d
  write_bytes-append d n len room = elim (dec_lt end (tail + n)) [
    | yes p ↦
        rw (write_bytes-wrapped d n v (omega arith) p) (contents-wrapped_write v d n len room p)
    | no p ↦
        rw (write_bytes-flat d n v (omega arith)) (contents-flat_write v d n len room (omega arith))
  ]

  -- Filling the ring makes `Tail` meet `Head`.
  write_bytes-full :
      (d : List ℕ) (n : ℕ) → n + unread r ≡ r.size → contents (write_bytes r d n) ≡ []
  write_bytes-full d n full = elim (dec_lt end (tail + n)) [
    | yes p ↦
        rw (write_bytes-wrapped d n v (omega arith) p)
          (ground (arith, bytes-zero (wrapped_write r d n).memory head))
    | no p ↦
        rw (write_bytes-flat d n v (omega arith))
          (ground (arith, bytes-zero (flat_write r d n).memory head))
  ]

  -- RtlRingBufferWrite appends the bytes if room is left behind them, and otherwise leaves a
  -- ring that holds nothing, neither the bytes offered nor the unread ones before them.
  pub write_refines : (d : List ℕ) → contents (write r d).1 ≡ Queue.write r.size (contents r) d
  unfolding write Queue.write
  write_refines d = elim (dec_lt (length d + unread r) r.size) [
    | yes p ↦ rw (write-fits d v p) (
        ground (
          arith,
          length-contents v,
          write_bytes-append d (length d) (omega arith) p,
          take_of_le (length d) d (omega arith),
          nil_of_length d,
          append-nil (contents r),
        ))
    | no p ↦
        rw
          (
            write-clipped d v (omega arith),
            write_bytes-full d (r.size - unread r) (omega (arith, unread-lt-size v)),
          )
          (ground (arith, length-contents v))
  ]

  read_wrapped-split :
      (n : ℕ)
      → n ≤ unread r
      → end < head + n
      → let (out, r') = wrapped_read r n in
        (out ≡ take n (contents r)) × (contents r' ≡ drop n (contents r))
  read_wrapped-split n h p =
      let x = bytes memory head (end - head) in
      let y = bytes memory base (tail - base) in
      let k = n - (end - head) in
      let e = length-bytes memory head (end - head) in
      ground (
        arith,
        take-append_right n k x y (omega (arith, e)),
        drop-append_right n k x y (omega (arith, e)),
        take-bytes memory base (tail - base) k (ground arith),
        drop-bytes memory base (tail - base) k (base + k) (tail - (base + k)) (ground arith)
            (omega arith) (ground arith),
      )

  read_flat-split :
      (n : ℕ)
      → n ≤ unread r
      → head + n ≤ end
      → let (out, r') = flat_read r n in
        (out ≡ take n (contents r)) × (contents r' ≡ drop n (contents r))
  read_flat-split n h p = elim (dec_le head tail) [
    | yes q ↦ ground (
      arith,
      take-bytes memory head (tail - head) n (ground arith),
      drop-bytes memory head (tail - head) n (head + n) (tail - (head + n)) (ground arith)
          (omega arith) (omega arith),
    )
    | no q ↦
        let x = bytes memory head (end - head) in
        let y = bytes memory base (tail - base) in
        let e = length-bytes memory head (end - head) in
        ground (
          arith,
          take-append_left n x y (omega (arith, e)),
          drop-append_left n x y (omega (arith, e)),
          take-bytes memory head (end - head) n (omega arith),
          drop-bytes memory head (end - head) n (head + n) (end - (head + n)) (omega arith)
              (omega arith) (omega arith),
          drop_of_le n x,
        )
  ]

  read_bytes-split :
      (n : ℕ)
      → n ≤ unread r
      → let (out, r') = read_bytes r n in
        (out ≡ take n (contents r)) × (contents r' ≡ drop n (contents r))
  read_bytes-split n h = elim (dec_lt end (head + n)) [
    | yes p ↦ rw (read_bytes-wrapped n v (ground arith) p) (read_wrapped-split n h p)
    | no p ↦ rw (read_bytes-flat n v (omega arith)) (read_flat-split n h (omega arith))
  ]

  -- RtlRingBufferRead hands over the oldest unread bytes, as many as are asked for and there,
  -- and leaves the others.
  pub read_refines :
      (n : ℕ) → let (s, out, r') = read r n in (out, contents r') ≡ Queue.read (contents r) n
  unfolding Queue.read
  read_refines n = elim (dec_lt 0 (unread r)) [
    | yes p ↦
        let k = min n (unread r) in
        let (out, rest) = read_bytes-split k (omega arith) in
        rw (read_some n v p) (
          ap₂ (λ (x y : List ℕ). (x, y))
            (out ∙ take-min n (unread r) (contents r) (length-contents v))
            (rest ∙ drop-min n (unread r) (contents r) (length-contents v)))
    | no p ↦
        let e = nil_of_length (contents r) (omega (arith, length-contents v)) in
        rw (read-empty n v (omega arith), e)
          (rw (take_of_le {A = ℕ} n [] (omega arith), drop_of_le {A = ℕ} n [] (omega arith)))
  ]

-- What each read of a sequence of transfers hands over.
unfoldable pub run : RingBuffer → List Op → List (List ℕ)
run r [] = []
run r (put d ∷ ops) = run (write r d).1 ops
run r (get n ∷ ops) = let (s, out, r') = read r n in out ∷ run r' ops

pub size-write : (r : RingBuffer) (d : List ℕ) → (write r d).1.size ≡ r.size
unfolding write write_bytes
size-write r d = ground arith

pub size-read : (r : RingBuffer) (n : ℕ) → (read r n).2.size ≡ r.size
unfolding read read_bytes
size-read r n = ground arith

-- No sequence of transfers tells a valid ring from the queue of its unread bytes.
pub run_refines :
    (ops : List Op) {r : RingBuffer} → IsValid r → run r ops ≡ Queue.run r.size (contents r) ops
unfolding run Queue.run
run_refines [] v = refl
run_refines (put d ∷ ops) {r} v =
    rw (run_refines ops (write-IsValid d v).1, write_refines v d, size-write r d)
run_refines (get n ∷ ops) {r} v =
    rw (run_refines ops (read-IsValid n v).1, ← read_refines v n, size-read r n)
