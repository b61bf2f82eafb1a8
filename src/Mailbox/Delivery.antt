-- ===== src/Mailbox/Delivery.antt =====
-- From a post to the dispatch of src/mailbox.c.
use deepshield.Prelude.{
  ◌⊎◌, ℕ, zero, suc, ◌+◌, ◌*◌, ◌≤◌, ◌<◌, ◌≡◌, ◌∙◌, ap, refl, true, false, Bool-cases, inl, inr, ltb,
  ltb→lt, some, List, [], ◌∷◌, ◌++◌, length, take, drop, length-append, length-drop, append_assoc,
  append-nil, take-append_left, drop-append_left, arith, if◌then◌else◌,
}
use mathlib.Core.Path.{ap₂}
use deepshield.Nt.{NtStatus, success, buffer_overflow, nt_success}
use deepshield.RingBuf
use deepshield.RingBuf.{RingBuffer}
use deepshield.RingBuf.Refine.{size-write}
use deepshield.Mailbox.{
  store, load, put_bytes, load_at, mailbox_buffer_size, header_size, record_size, size_offset,
  type_offset, process_id_offset, thread_id_offset, message_type_offset, tsc_offset, tsc_size,
  area_offset, mailbox_notification, notification_record, post_mailbox_notification, Dispatch,
  nothing, dispatch_notification, dispatch_record, dispatch_mailbox_data, worker_timeout,
  message_size,
}
use deepshield.Mailbox.Bytes.{
  length-put_bytes, drop-put_bytes_at, take-drop-put_bytes_before, drop-put_bytes_behind,
}
use deepshield.Mailbox.Box.{
  Holds, write-Holds, write-Holds_none, retrieve_mailbox_data-Holds, is_mailbox_empty-nil,
  is_mailbox_empty-cons,
}

-- What is done for each of the records, in their order.
abbrev pub dispatches : List (List ℕ) → List Dispatch
dispatches [] = []
dispatches (x ∷ xs) = dispatch_record x ∷ dispatches xs

-- The dispatch of the oldest record.
dispatch_mailbox_data-Holds :
    {r : RingBuffer} (entry x : List ℕ) (xs : List (List ℕ))
    → length entry ≡ record_size
    → Holds r (x ∷ xs)
    → (r' : RingBuffer) × (dispatch_mailbox_data entry r ≡ (dispatch_record x, r'))
      × (r'.size ≡ r.size)
      × Holds r' xs
unfolding dispatch_mailbox_data
dispatch_mailbox_data-Holds {r} entry x xs len h =
    let (r', got, size, h') = retrieve_mailbox_data-Holds entry x xs len h in
    (
      r',
      ap
          (λ (t : NtStatus × List ℕ × RingBuffer).
            (if nt_success t.0 then dispatch_record t.1 else nothing, t.2))
          got,
      size,
      h',
    )

-- When its wait times out, the worker dispatches every record the mailbox holds, in the order of
-- their posts, and leaves the mailbox empty; a round for each record and one more are enough.
pub worker_timeout-Holds :
    (fuel : ℕ) {r : RingBuffer} (entry : List ℕ) (records : List (List ℕ))
    → length entry ≡ record_size
    → Holds r records
    → length records < fuel
    → (r' : RingBuffer) × (worker_timeout fuel entry r ≡ some (dispatches records, r'))
      × (r'.size ≡ r.size)
      × Holds r' []
unfolding worker_timeout
worker_timeout-Holds zero entry records len h lt = absurd (omega arith)
worker_timeout-Holds (suc fuel) {r} entry [] len h lt =
    (r, rw (worker_timeout, is_mailbox_empty-nil h) refl, refl, h)
worker_timeout-Holds (suc fuel) {r} entry (x ∷ xs) len h lt =
    let (r', got, size, h') = dispatch_mailbox_data-Holds entry x xs len h in
    let (r'', rest, size', h'') = worker_timeout-Holds fuel entry xs len h' (omega arith) in
    (
      r'',
      rw (worker_timeout, is_mailbox_empty-cons x xs h, got, rest)
          (ap (λ (t : Dispatch × RingBuffer). some (t.0 ∷ dispatches xs, r'')) got),
      size' ∙ size,
      h'',
    )

-- A field of the message at the start of Data is that of the message.
field-append :
    (m ys : List ℕ) (o w : ℕ) → o + w ≤ length m → take w (drop o (m ++ ys)) ≡ take w (drop o m)
field-append m ys o w h =
    ap (λ (t : List ℕ). take w t) (drop-append_left o m ys (omega arith))
    ∙ take-append_left w (drop o m) ys (rw length-drop (omega arith))

length-notification_record :
    (entry m : List ℕ)
    → length entry ≡ record_size
    → length m ≤ mailbox_buffer_size
    → length (notification_record entry m) ≡ record_size
unfolding notification_record
length-notification_record entry m len le =
    let l1 = length-put_bytes entry type_offset (store 4 mailbox_notification) (omega arith) in
    let e1 = put_bytes entry type_offset (store 4 mailbox_notification) in
    let l2 = length-put_bytes e1 size_offset (store 8 (length m)) (omega (arith, l1)) in
    let e2 = put_bytes e1 size_offset (store 8 (length m)) in
    let l3 = length-put_bytes e2 area_offset (store 4 0) (omega (arith, l1, l2)) in
    let e3 = put_bytes e2 area_offset (store 4 0) in
    length-put_bytes e3 header_size m (omega (arith, l1, l2, l3)) ∙ l3 ∙ l2 ∙ l1 ∙ len

dispatch_record-of_type :
    (record_ : List ℕ)
    → take 4 (drop type_offset record_) ≡ store 4 mailbox_notification
    → dispatch_record record_ ≡ dispatch_notification (drop header_size record_)
unfolding dispatch_record
dispatch_record-of_type record_ h =
    let type : load_at record_ type_offset 4 ≡ mailbox_notification = ap load h in
    rw (dispatch_record, type) refl

dispatch_notification-append :
    (m ys : List ℕ)
    → length m ≡ message_size
    → dispatch_notification (m ++ ys) ≡ dispatch_notification m
unfolding dispatch_notification
dispatch_notification-append m ys e =
    rw
      (
        dispatch_notification,
        field-append m ys process_id_offset 4 (omega arith),
        field-append m ys process_id_offset 8 (omega arith),
        field-append m ys thread_id_offset 8 (omega arith),
        field-append m ys message_type_offset 4 (omega arith),
        field-append m ys tsc_offset tsc_size (omega arith),
      )
      refl

-- The record of a notification is dispatched as the notification it was built from.
dispatch_record-notification_record :
    (entry m : List ℕ)
    → length entry ≡ record_size
    → length m ≡ message_size
    → dispatch_record (notification_record entry m) ≡ dispatch_notification m
unfolding notification_record
dispatch_record-notification_record entry m len e =
    let e1 = put_bytes entry type_offset (store 4 mailbox_notification) in
    let e2 = put_bytes e1 size_offset (store 8 (length m)) in
    let e3 = put_bytes e2 area_offset (store 4 0) in
    let l1 = length-put_bytes entry type_offset (store 4 mailbox_notification) (omega arith) in
    let l2 = length-put_bytes e1 size_offset (store 8 (length m)) (omega (arith, l1)) in
    let l3 = length-put_bytes e2 area_offset (store 4 0) (omega (arith, l1, l2)) in
    let type : take 4 (drop type_offset (put_bytes e3 header_size m))
        ≡ store 4 mailbox_notification =
      take-drop-put_bytes_before e3 header_size type_offset 4 m (omega arith)
        (omega (arith, l1, l2, l3))
      ∙ take-drop-put_bytes_before e2 area_offset type_offset 4 (store 4 0) (omega arith)
          (omega (arith, l1, l2))
      ∙ ap (λ (t : List ℕ). take 4 t)
          (drop-put_bytes_behind e1 size_offset type_offset (store 8 (length m)) (omega arith)
              (omega (arith, l1))
            ∙ drop-put_bytes_at entry type_offset (store 4 mailbox_notification) (omega arith)) in
    let data_ = drop-put_bytes_at e3 header_size m (omega (arith, l1, l2, l3)) in
    dispatch_record-of_type (put_bytes e3 header_size m) type
    ∙ ap dispatch_notification data_
    ∙ dispatch_notification-append m (drop (header_size + length m) e3) e

-- A message that fits into a record: the mailbox after its post.
post_mailbox_notification-Holds :
    {r : RingBuffer} (entry : List ℕ) (records : List (List ℕ)) (m : List ℕ)
    → length entry ≡ record_size
    → length m ≤ mailbox_buffer_size
    → Holds r records
    → (r' : RingBuffer) × (post_mailbox_notification entry r m ≡ (success, r'))
      × (r'.size ≡ r.size)
      × Holds r' (
          if ltb ((length records + 1) * record_size) r.size
          then records ++ (notification_record entry m ∷ [])
          else [])
unfolding post_mailbox_notification
post_mailbox_notification-Holds {r} entry records m len le h =
    let rec_ = notification_record entry m in
    let size = length-notification_record entry m len le in
    let small : ltb mailbox_buffer_size (length m) ≡ false = ground arith in
    elim (Bool-cases (ltb ((length records + 1) * record_size) r.size)) [
      | inl y ↦
          let (s, h') = write-Holds records rec_ h size (ltb→lt _ _ y) in
          (
            (RingBuf.write r rec_).1,
            rw (post_mailbox_notification, small)
                (ap (λ (t : NtStatus). (t, (RingBuf.write r rec_).1)) s),
            size-write r rec_,
            rw y h',
          )
      | inr n ↦
          let (s, h') = write-Holds_none records rec_ h size (ground arith) in
          (
            (RingBuf.write r rec_).1,
            rw (post_mailbox_notification, small)
                (ap (λ (t : NtStatus). (t, (RingBuf.write r rec_).1)) s),
            size-write r rec_,
            rw n h',
          )
    ]

-- RtlPostMailboxNotification of a message of at most 1024 bytes reports success: as long as fewer
-- than Size bytes are held afterwards it appends the record, and when the ring would be full the
-- mailbox then holds no record at all. For a longer message it answers STATUS_BUFFER_OVERFLOW and
-- changes nothing.
pub post_mailbox_notification_lem :
    {r : RingBuffer} (entry : List ℕ) (records : List (List ℕ)) (m : List ℕ)
    → length entry ≡ record_size
    → Holds r records
    → ((length m ≤ 1024)
        × (r' : RingBuffer) × (post_mailbox_notification entry r m ≡ (success, r'))
        × (r'.size ≡ r.size)
        × Holds r' (
            if ltb ((length records + 1) * record_size) r.size
            then records ++ (notification_record entry m ∷ [])
            else []))
      ⊎ ((1024 < length m) × (post_mailbox_notification entry r m ≡ (buffer_overflow, r)))
unfolding post_mailbox_notification
post_mailbox_notification_lem {r} entry records m len h =
    elim (Bool-cases (ltb mailbox_buffer_size (length m))) [
      | inl large ↦ inr (ground arith, rw large refl)
      | inr fits ↦
          let le : length m ≤ mailbox_buffer_size = ground arith in
          let (r', posted, size, holds) =
            post_mailbox_notification-Holds entry records m len le h in
          inl (le, r', posted, size, holds)
    ]

-- Posts one after the other.
abbrev pub post_all : List ℕ → RingBuffer → List (List ℕ) → RingBuffer
post_all entry r [] = r
post_all entry r (m ∷ ms) = post_all entry (post_mailbox_notification entry r m).1 ms

abbrev pub AllMessages : List (List ℕ) → Type 0
AllMessages [] = Unit
AllMessages (m ∷ ms) = (length m ≡ message_size) × AllMessages ms

abbrev pub deliveries : List (List ℕ) → List Dispatch
deliveries [] = []
deliveries (m ∷ ms) = dispatch_notification m ∷ deliveries ms

abbrev notification_records : List ℕ → List (List ℕ) → List (List ℕ)
notification_records entry [] = []
notification_records entry (m ∷ ms) = notification_record entry m ∷ notification_records entry ms

length-notification_records :
    (entry : List ℕ) (ms : List (List ℕ)) → length (notification_records entry ms) ≡ length ms
length-notification_records entry [] = refl
length-notification_records entry (m ∷ ms) = ap suc (length-notification_records entry ms)

dispatches-notification_records :
    (entry : List ℕ) (ms : List (List ℕ))
    → length entry ≡ record_size
    → AllMessages ms
    → dispatches (notification_records entry ms) ≡ deliveries ms
dispatches-notification_records entry [] len all = refl
dispatches-notification_records entry (m ∷ ms) len (e, es) =
    ap₂ (λ (d : Dispatch) (ds : List Dispatch). d ∷ ds)
      (dispatch_record-notification_record entry m len e)
      (dispatches-notification_records entry ms len es)

post_all-Holds :
    (entry : List ℕ) (ms : List (List ℕ)) (r : RingBuffer) (records : List (List ℕ))
    → length entry ≡ record_size
    → AllMessages ms
    → Holds r records
    → (length records + length ms) * record_size < r.size
    → Holds (post_all entry r ms) (records ++ notification_records entry ms)
post_all-Holds entry [] r records len all h room = rw (append-nil records) h
post_all-Holds entry (m ∷ ms) r records len (e, es) h room =
    let (r', posted, size, h') =
      post_mailbox_notification-Holds entry records m len (omega arith) h in
    let y : ltb ((length records + 1) * record_size) r.size ≡ true = ground arith in
    let h'' : Holds r' (records ++ (notification_record entry m ∷ [])) = rw y at h' in
    let rest =
      post_all-Holds entry ms r' (records ++ (notification_record entry m ∷ [])) len es h''
        (rw (length-append, size) (omega arith)) in
    rw
      (
        posted,
        ← append_assoc records (notification_record entry m ∷ []) (notification_records entry ms),
      )
      rest

-- Notifications posted to an empty mailbox, as many as its ring has room for, are all dispatched
-- at the next timeout of the worker, each from the message as it was posted and in that order; the
-- mailbox is empty then.
pub notifications-delivered :
    {r : RingBuffer} (entry : List ℕ) (ms : List (List ℕ))
    → length entry ≡ record_size
    → AllMessages ms
    → Holds r []
    → length ms * record_size < r.size
    → (r' : RingBuffer) × (worker_timeout (suc (length ms)) entry (post_all entry r ms)
        ≡ some (deliveries ms, r'))
      × Holds r' []
notifications-delivered {r} entry ms len all h room =
    let held = post_all-Holds entry ms r [] len all h (omega arith) in
    let (r', d, _, h') =
      worker_timeout-Holds (suc (length ms)) entry (notification_records entry ms) len held
        (omega (arith, length-notification_records entry ms)) in
    (
      r',
      d
          ∙ ap (λ (ds : List Dispatch). some (ds, r'))
              (dispatches-notification_records entry ms len all),
      h',
    )
