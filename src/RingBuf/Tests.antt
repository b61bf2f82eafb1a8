-- ===== src/RingBuf/Tests.antt =====
-- Runs of src/ringbuf.c on a ring of four bytes, and the theorems at it.
use deepshield.Prelude.{◌≡◌, refl, [], ◌∷◌, arith}
use deepshield.RingBuf.{
  RingBuffer, initialize, write, write_bytes, read, read_bytes, bytes, copy_memory, get_avail_bytes,
}
use deepshield.RingBuf.Inv.{IsValid}
use deepshield.RingBuf.Queue
use deepshield.RingBuf.Queue.{put, get}
use deepshield.RingBuf.Refine.{contents, write_refines, read_refines, run, run_refines}

-- The bytes 102, 103 and 100 are unread, the last of them round the end of the buffer: each
-- address holds its own number.
abbrev ring : RingBuffer
ring = record { size = 4; base = 100; end = 104; head = 102; tail = 101; memory = λ a. a }

ring-IsValid : IsValid ring
ring-IsValid = omega arith

-- One byte does not fit, since it would fill the ring.
write_one_more : contents (write ring (7 ∷ [])).1 ≡ []
unfolding write write_bytes bytes get_avail_bytes
write_one_more = refl

write_then_read :
    run
      (initialize (λ a. 0) 100 4)
      (put (1 ∷ 2 ∷ []) ∷ get 1 ∷ put (3 ∷ 4 ∷ []) ∷ get 5 ∷ get 1 ∷ [])
    ≡ (1 ∷ []) ∷ (2 ∷ 3 ∷ 4 ∷ []) ∷ [] ∷ []
unfolding run initialize write write_bytes read read_bytes bytes copy_memory get_avail_bytes
write_then_read = refl

write_refines_example : contents (write ring (7 ∷ [])).1 ≡ Queue.write 4 (contents ring) (7 ∷ [])
write_refines_example = write_refines ring-IsValid (7 ∷ [])

read_refines_example :
    let (s, out, r) = read ring 2 in (out, contents r) ≡ Queue.read (contents ring) 2
read_refines_example = read_refines ring-IsValid 2

run_refines_example :
    run ring (get 2 ∷ put (5 ∷ []) ∷ get 9 ∷ [])
    ≡ Queue.run 4 (contents ring) (get 2 ∷ put (5 ∷ []) ∷ get 9 ∷ [])
run_refines_example = run_refines (get 2 ∷ put (5 ∷ []) ∷ get 9 ∷ []) ring-IsValid
