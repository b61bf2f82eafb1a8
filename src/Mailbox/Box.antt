-- ===== src/Mailbox/Box.antt =====
-- The mailbox of src/mailbox.c as a queue of records.
use deepshield.Prelude.{
  ℕ, ◌+◌, ◌*◌, ◌≤◌, ◌<◌, ◌≡◌, ◌∙◌, ap, sym, true, false, List, [], ◌∷◌, ◌++◌, length, take, drop,
  length-append, take_of_le, append_assoc, append-nil, take-append_left, drop-append_right,
  drop_of_le, nil_of_length, arith, word,
}
use mathlib.Core.Path.{ap₂}
use deepshield.Nt.{NtStatus, success}
use deepshield.RingBuf
use deepshield.RingBuf.{RingBuffer, get_avail_bytes}
use deepshield.RingBuf.Queue
use deepshield.RingBuf.Inv.{
  IsValid, initialize-IsValid, size-initialize, get_avail_bytes_lem, write-IsValid, read-IsValid,
}
use deepshield.RingBuf.Refine.{contents, length-contents, write_refines, read_refines, size-read}
use deepshield.Mailbox.{
  store, put_bytes, record_size, type_offset, mailbox_empty, is_mailbox_empty,
  retrieve_mailbox_data, mailbox_initialize,
}
use deepshield.Mailbox.Bytes.{length-put_bytes}

-- The bytes of records one after the other, and that each record has its size.
abbrev pub concat : List (List ℕ) → List ℕ
concat [] = []
concat (x ∷ xs) = x ++ concat xs

abbrev pub AllRecords : List (List ℕ) → Type 0
AllRecords [] = Unit
AllRecords (x ∷ xs) = (length x ≡ record_size) × AllRecords xs

-- A mailbox that holds the records, oldest first.
pub record Holds (r : RingBuffer) (records : List (List ℕ)) : Type 0 where
  pub valid : IsValid r
  pub sized : AllRecords records
  pub bytes : contents r ≡ concat records

length-concat : (xs : List (List ℕ)) → AllRecords xs → length (concat xs) ≡ length xs * record_size
length-concat [] h = omega arith
length-concat (x ∷ xs) (h, hs) = rw (length-append, h, length-concat xs hs) (omega arith)

concat-snoc : (xs : List (List ℕ)) (y : List ℕ) → concat (xs ++ (y ∷ [])) ≡ concat xs ++ y
concat-snoc [] y = append-nil y
concat-snoc (x ∷ xs) y = rw (concat-snoc xs y) (sym (append_assoc x (concat xs) y))

AllRecords-snoc :
    (xs : List (List ℕ)) (y : List ℕ)
    → AllRecords xs
    → length y ≡ record_size
    → AllRecords (xs ++ (y ∷ []))
AllRecords-snoc [] y h e = (e, tt)
AllRecords-snoc (x ∷ xs) y (h, hs) e = (h, AllRecords-snoc xs y hs e)

queue_write-fits :
    (size : ℕ) (q d : List ℕ) → length q + length d < size → Queue.write size q d ≡ q ++ d
unfolding Queue.write
queue_write-fits size q d h = ground arith

queue_write-fills :
    (size : ℕ) (q d : List ℕ) → size ≤ length q + length d → Queue.write size q d ≡ []
unfolding Queue.write
queue_write-fills size q d h = ground arith

-- A record is appended while fewer than Size bytes are held afterwards.
pub write-Holds :
    {r : RingBuffer} (records : List (List ℕ)) (record_ : List ℕ)
    → Holds r records
    → length record_ ≡ record_size
    → (length records + 1) * record_size < r.size
    → ((RingBuf.write r record_).0 ≡ success)
      × Holds (RingBuf.write r record_).1 (records ++ (record_ ∷ []))
write-Holds {r} records record_ h e room =
    let (s, v) = write-IsValid record_ h.valid in
    (
      s,
      record {
        valid = v;
        sized = AllRecords-snoc records record_ h.sized e;
        bytes =
            write_refines h.valid record_
            ∙ queue_write-fits r.size (contents r) record_
                (rw (h.bytes, length-concat records h.sized, e) (omega arith))
            ∙ ap (λ (q : List ℕ). q ++ record_) h.bytes
            ∙ sym (concat-snoc records record_);
      },
    )

-- The write of a record that would fill the ring leaves no record in the mailbox.
pub write-Holds_none :
    {r : RingBuffer} (records : List (List ℕ)) (record_ : List ℕ)
    → Holds r records
    → length record_ ≡ record_size
    → r.size ≤ (length records + 1) * record_size
    → ((RingBuf.write r record_).0 ≡ success) × Holds (RingBuf.write r record_).1 []
write-Holds_none {r} records record_ h e full =
    let (s, v) = write-IsValid record_ h.valid in
    (
      s,
      record {
        valid = v;
        sized = tt;
        bytes =
            write_refines h.valid record_
            ∙ queue_write-fills r.size (contents r) record_
                (rw (h.bytes, length-concat records h.sized, e) (omega arith));
      },
    )

take-first : (x ys : List ℕ) → length x ≡ record_size → take record_size (x ++ ys) ≡ x
take-first x ys h =
    take-append_left record_size x ys (omega arith) ∙ take_of_le record_size x (omega arith)

drop-first : (x ys : List ℕ) → length x ≡ record_size → drop record_size (x ++ ys) ≡ ys
drop-first x ys h = drop-append_right record_size 0 x ys (omega arith)

-- A whole record overwrites the one in the buffer.
put_bytes-whole : (xs bs : List ℕ) → length xs ≡ length bs → put_bytes xs 0 bs ≡ bs
put_bytes-whole xs bs h = rw (drop_of_le (0 + length bs) xs (omega arith)) (append-nil bs)

-- A record that is retrieved is the oldest one, whole; a mailbox without a record hands over one
-- of the type MailboxEmpty.
pub retrieve_mailbox_data-Holds :
    {r : RingBuffer} (entry : List ℕ) (record_ : List ℕ) (records : List (List ℕ))
    → length entry ≡ record_size
    → Holds r (record_ ∷ records)
    → (r' : RingBuffer) × (retrieve_mailbox_data entry r ≡ (success, record_, r'))
      × (r'.size ≡ r.size)
      × Holds r' records
unfolding retrieve_mailbox_data Queue.read
retrieve_mailbox_data-Holds {r} entry record_ records len h =
    let (s, v) = read-IsValid record_size h.valid in
    let both = read_refines h.valid record_size in
    let sized = h.sized.0 in
    let entry1 = put_bytes entry type_offset (store 4 mailbox_empty) in
    let len1 : length entry1 ≡ length record_ =
      length-put_bytes entry type_offset (store 4 mailbox_empty) (omega arith) ∙ len ∙ sym sized in
    let out : (RingBuf.read r record_size).1 ≡ record_ =
      ap (λ (p : List ℕ × List ℕ). p.0) both
      ∙ ap (λ (q : List ℕ). take record_size q) h.bytes
      ∙ take-first record_ (concat records) sized in
    let rest : contents (RingBuf.read r record_size).2 ≡ concat records =
      ap (λ (p : List ℕ × List ℕ). p.1) both
      ∙ ap (λ (q : List ℕ). drop record_size q) h.bytes
      ∙ drop-first record_ (concat records) sized in
    (
      (RingBuf.read r record_size).2,
      ap₂ (λ (t : NtStatus) (o : List ℕ). (t, put_bytes entry1 0 o, (RingBuf.read r record_size).2))
            s out
          ∙ ap (λ (o : List ℕ). (success, o, (RingBuf.read r record_size).2))
              (put_bytes-whole entry1 record_ len1),
      size-read r record_size,
      record { valid = v; sized = h.sized.1; bytes = rest },
    )

-- Whether the mailbox is empty.
pub is_mailbox_empty-nil : {r : RingBuffer} → Holds r [] → is_mailbox_empty r ≡ true
unfolding is_mailbox_empty
is_mailbox_empty-nil {r} h =
    ground (arith, get_avail_bytes_lem h.valid, length-contents h.valid, ap length h.bytes)

pub is_mailbox_empty-cons :
    {r : RingBuffer} (x : List ℕ) (xs : List (List ℕ))
    → Holds r (x ∷ xs)
    → is_mailbox_empty r ≡ false
unfolding is_mailbox_empty
is_mailbox_empty-cons {r} x xs h = ground (
  arith,
  get_avail_bytes_lem h.valid,
  length-contents h.valid,
  ap length h.bytes,
  length-concat (x ∷ xs) h.sized,
)

-- A mailbox set up over a pool holds no record.
pub mailbox_initialize-Holds :
    (m : ℕ → ℕ) (b n : ℕ)
    → 0 < n
    → b + n + n ≤ word
    → Holds (mailbox_initialize m b n) [] × ((mailbox_initialize m b n).size ≡ n)
unfolding mailbox_initialize
mailbox_initialize-Holds m b n pos fits =
    let (v, none_unread) = initialize-IsValid m b n pos fits in
    (
      record {
        valid = v;
        sized = tt;
        bytes =
            nil_of_length (contents (mailbox_initialize m b n)) (length-contents v ∙ none_unread);
      },
      size-initialize m b n,
    )
