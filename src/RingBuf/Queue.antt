-- ===== src/RingBuf/Queue.antt =====
-- What src/ringbuf.c does to the bytes in the ring, oldest first. A write that would fill the
-- ring leaves it empty: `Head == Tail` is how the code tells an empty ring.
use deepshield.Prelude.{ℕ, ◌+◌, List, [], ◌∷◌, ◌++◌, length, take, drop, ltb, if◌then◌else◌}

abbrev pub Queue : Type 0
Queue = List ℕ

module _ (size : ℕ) where
  unfoldable pub write : Queue → List ℕ → Queue
  write q d = if ltb (length q + length d) size then q ++ d else []

unfoldable pub read : Queue → ℕ → List ℕ × Queue
read q n = (take n q, drop n q)

-- A transfer that a client asks for.
pub data Op : Type 0 where
  put : List ℕ → Op
  get : ℕ → Op

-- What each read of a sequence of transfers hands over.
unfoldable pub run : ℕ → Queue → List Op → List (List ℕ)
run size q [] = []
run size q (put d ∷ ops) = run size (write size q d) ops
run size q (get n ∷ ops) = let (out, q') = read q n in out ∷ run size q' ops
