-- ===== src/Mailbox/Tests.antt =====
-- src/mailbox.c on a mailbox of the default size.
use deepshield.Prelude.{
  ℕ, ◌*◌, ◌≤◌, ◌<◌, ◌⊎◌, length, ◌≡◌, refl, some, List, [], ◌∷◌, replicate, if◌then◌else◌, ltb,
  arith,
}
use deepshield.Nt.{buffer_overflow, success}
use deepshield.RingBuf.{RingBuffer}
use deepshield.Mailbox.{
  record_size, mailbox_pool_default_size, mailbox_initialize, notification_record,
  post_mailbox_notification, worker_timeout, message_size,
}
use deepshield.Mailbox.Box.{Holds, mailbox_initialize-Holds, write-Holds}
use deepshield.Mailbox.Delivery.{
  dispatches, worker_timeout-Holds, post_mailbox_notification_lem, post_all, deliveries,
  notifications-delivered,
}

abbrev mailbox : RingBuffer
mailbox = mailbox_initialize (λ a. 0) 4096 mailbox_pool_default_size

mailbox-Holds : Holds mailbox []
mailbox-Holds =
    (mailbox_initialize-Holds (λ a. 0) 4096 mailbox_pool_default_size (omega arith) (omega arith)).0

mailbox-size : mailbox.size ≡ mailbox_pool_default_size
mailbox-size =
    (mailbox_initialize-Holds (λ a. 0) 4096 mailbox_pool_default_size (omega arith) (omega arith)).1

abbrev entry : List ℕ
entry = replicate record_size 0

abbrev message : List ℕ
message = replicate message_size 7

post_mailbox_notification_lem_example :
    ((length message ≤ 1024)
      × (r' : RingBuffer) × (post_mailbox_notification entry mailbox message ≡ (success, r'))
      × (r'.size ≡ mailbox.size)
      × Holds r' (
          if ltb (1 * record_size) mailbox.size
          then notification_record entry message ∷ []
          else []))
    ⊎ ((1024 < length message)
        × (post_mailbox_notification entry mailbox message ≡ (buffer_overflow, mailbox)))
post_mailbox_notification_lem_example =
    post_mailbox_notification_lem {r = mailbox} entry [] message refl mailbox-Holds

notifications-delivered_example :
    (r' : RingBuffer) × (worker_timeout 3 entry (post_all entry mailbox (message ∷ message ∷ []))
      ≡ some (deliveries (message ∷ message ∷ []), r'))
    × Holds r' []
notifications-delivered_example =
    notifications-delivered {r = mailbox} entry (message ∷ message ∷ []) refl (refl, (refl, tt))
      mailbox-Holds (omega (arith, mailbox-size))

-- A mailbox with one record.
abbrev record_ : List ℕ
record_ = replicate record_size 9

one_record-Holds : (r : RingBuffer) × Holds r (record_ ∷ [])
one_record-Holds = (_, (write-Holds [] record_ mailbox-Holds refl (omega (arith, mailbox-size))).1)

worker_timeout-Holds_example :
    (r' : RingBuffer) × (worker_timeout 2 entry one_record-Holds.0
      ≡ some (dispatches (record_ ∷ []), r'))
    × (r'.size ≡ one_record-Holds.0.size)
    × Holds r' []
worker_timeout-Holds_example =
    worker_timeout-Holds 2 entry (record_ ∷ []) refl one_record-Holds.1 (omega arith)
