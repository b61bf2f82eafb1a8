-- ===== src/RingBuf.antt =====
-- src/ringbuf.c: the byte ring that the mailbox uses. Pointers are 64-bit addresses into
-- `memory`. A function that updates `*RingBuffer` returns the new ring beside its status.
pub mod Memory
pub mod Inv
pub mod Queue
pub mod Refine
mod Tests
use deepshield.Prelude.{
  ℕ, zero, suc, ◌+◌, ◌-◌, List, [], ◌∷◌, ◌++◌, length, get_or, take, drop, ltb, leb, ◌==◌, ◌&&◌,
  if◌then◌else◌, add64, sub64,
}
use deepshield.Nt.{NtStatus, success, internal_error}

-- RING_BUFFER, with the memory that its pointers lead to. The spin lock that the two
-- transfers hold makes each of them one step.
pub record RingBuffer : Type 0 where
  pub size : ℕ
  pub base : ℕ
  pub end : ℕ
  pub head : ℕ
  pub tail : ℕ
  pub memory : ℕ → ℕ

-- RtlCopyMemory of the bytes `src` to the address `dst`.
pub copy_memory : (ℕ → ℕ) → ℕ → List ℕ → ℕ → ℕ
copy_memory m dst src a =
    if leb dst a && ltb a (dst + length src) then get_or src (a - dst) 0 else m a

-- The `n` bytes from the address `a` on.
pub bytes : (ℕ → ℕ) → ℕ → ℕ → List ℕ
bytes m a zero = []
bytes m a (suc n) = m a ∷ bytes m (a + 1) n

-- RtlRingBufferInitialize
pub initialize : (memory : ℕ → ℕ) → ℕ → ℕ → RingBuffer
initialize m buffer buffer_size = record {
  size = buffer_size;
  base = buffer;
  end = add64 buffer buffer_size;
  head = buffer;
  tail = buffer;
  memory = m;
}

-- The macro RB_AVAILABLE_BYTES.
abbrev pub available_bytes : ℕ → ℕ → ℕ → ℕ
available_bytes h t b = if leb h t then sub64 b (sub64 t h) else sub64 h t

-- RtlRingBufferGetAvailBytes: the bytes free to write, and those to read.
pub get_avail_bytes : RingBuffer → ℕ × ℕ
get_avail_bytes r =
    let write_size = available_bytes r.head r.tail r.size in (write_size, sub64 r.size write_size)

-- The part of RtlRingBufferWrite under `if (BytesToCopy)`.
pub write_bytes : RingBuffer → List ℕ → ℕ → RingBuffer
write_bytes r data_ bytes_to_copy =
    if ltb r.end (add64 r.tail bytes_to_copy)
    then (let space_to_end = sub64 r.end r.tail in
        let rest = sub64 bytes_to_copy space_to_end in
        let m = copy_memory r.memory r.tail (take space_to_end data_) in
        record r {
          memory = copy_memory m r.base (take rest (drop space_to_end data_));
          tail = add64 r.base rest;
        })
    else (let t = add64 r.tail bytes_to_copy in
        record r {
          memory = copy_memory r.memory r.tail (take bytes_to_copy data_);
          tail = if t == r.end then r.base else t;
        })

-- RtlRingBufferWrite; `DataSize` is the length of the list.
pub write : RingBuffer → List ℕ → NtStatus × RingBuffer
write r data_ =
    if leb r.end r.tail
    then (internal_error, r)
    else (let avail_to_write = (get_avail_bytes r).0 in
        let bytes_to_copy =
          (if leb avail_to_write (length data_) then avail_to_write else length data_) in
        (success, if bytes_to_copy == 0 then r else write_bytes r data_ bytes_to_copy))

-- The part of RtlRingBufferRead after the size is settled: the bytes that reach the caller's
-- buffer, and the ring.
pub read_bytes : RingBuffer → ℕ → List ℕ × RingBuffer
read_bytes r data_size =
    if ltb r.end (add64 r.head data_size)
    then (let data_to_end = sub64 r.end r.head in
        let rest = sub64 data_size data_to_end in
        (
          bytes r.memory r.head data_to_end ++ bytes r.memory r.base rest,
          record r { head = add64 r.base rest },
        ))
    else (let h = add64 r.head data_size in
        (bytes r.memory r.head data_size, record r { head = if h == r.end then r.base else h }))

-- RtlRingBufferRead; `BytesCopied` is the length of the list of bytes.
pub read : RingBuffer → ℕ → NtStatus × List ℕ × RingBuffer
read r data_size =
    if leb r.end r.head
    then (internal_error, [], r)
    else (let avail_to_read = (get_avail_bytes r).1 in
        if avail_to_read == 0
        then (success, [], r)
        else (let n = (if ltb avail_to_read data_size then avail_to_read else data_size) in
            let (out, r') = read_bytes r n in (success, out, r')))
