-- ===== src/Mailbox.antt =====
-- src/mailbox.c: records that root mode posts to a byte ring, and the worker that dispatches
-- them. A record is its 1056 bytes in memory on x64; numbers in it are little-endian.
pub mod Bytes
pub mod Box
pub mod Delivery
mod Tests
use deepshield.Prelude.{
  ℕ, zero, suc, ◌+◌, ◌*◌, ◌/◌, ◌%◌, Bool, true, false, Option, none, some, List, [], ◌∷◌, ◌++◌,
  length, take, drop, ltb, ◌==◌, if◌then◌else◌,
}
use deepshield.Nt.{NtStatus, success, invalid_parameter, buffer_overflow, nt_success}
use deepshield.RingBuf.{RingBuffer, initialize, get_avail_bytes}
use deepshield.RingBuf

-- The bytes of a number, the lowest first, and back.
abbrev pub store : ℕ → ℕ → List ℕ
store zero x = []
store (suc n) x = x % 256 ∷ store n (x / 256)

abbrev pub load : List ℕ → ℕ
load [] = 0
load (b ∷ bs) = b + 256 * load bs

-- Bytes written over those from an offset on, and a number read at an offset.
abbrev pub put_bytes : List ℕ → ℕ → List ℕ → List ℕ
put_bytes xs o bs = take o xs ++ (bs ++ drop (o + length bs) xs)

abbrev pub load_at : List ℕ → ℕ → ℕ → ℕ
load_at xs o width = load (take width (drop o xs))

abbrev pub mailbox_buffer_size : ℕ
mailbox_buffer_size = 1024

-- MAILBOX_POOL_DEFAULT_SIZE
abbrev pub mailbox_pool_default_size : ℕ
mailbox_pool_default_size = 1024 * 256

-- sizeof( MAILBOX_HEADER ), and with Data sizeof( MAILBOX_RECORD )
abbrev pub header_size : ℕ
header_size = 32

abbrev pub record_size : ℕ
record_size = header_size + mailbox_buffer_size

-- The offsets of Header.Size, Header.Type, Header.Trace.Area and Header.Trace.Level.
abbrev pub size_offset : ℕ
size_offset = 8

abbrev pub type_offset : ℕ
type_offset = 16

abbrev pub area_offset : ℕ
area_offset = 20

abbrev pub level_offset : ℕ
level_offset = 24

-- MAILBOX_TYPE
abbrev pub mailbox_empty : ℕ
mailbox_empty = 0

abbrev pub mailbox_trace : ℕ
mailbox_trace = 1

abbrev pub mailbox_notification : ℕ
mailbox_notification = 2

-- RtlIsMailboxEmpty
pub is_mailbox_empty : RingBuffer → Bool
is_mailbox_empty r = ltb (get_avail_bytes r).1 record_size

-- The record that RtlPostMailboxNotification builds in `entry`, the bytes on its stack.
pub notification_record : List ℕ → List ℕ → List ℕ
notification_record entry notification =
    let entry1 = put_bytes entry type_offset (store 4 mailbox_notification) in
    let entry2 = put_bytes entry1 size_offset (store 8 (length notification)) in
    let entry3 = put_bytes entry2 area_offset (store 4 0) in
    put_bytes entry3 header_size notification

-- RtlPostMailboxNotification
pub post_mailbox_notification : List ℕ → RingBuffer → List ℕ → NtStatus × RingBuffer
post_mailbox_notification entry r notification =
    if ltb mailbox_buffer_size (length notification)
    then (buffer_overflow, r)
    else RingBuf.write r (notification_record entry notification)

-- The outcome of RtlStringCbVPrintfA on the trace message: no message, a failure, or the text
-- without its terminator.
pub data Formatted : Type 0 where
  no_message : Formatted
  not_formatted : NtStatus → Formatted
  formatted : List ℕ → Formatted

-- The record that RtlPostMailboxTrace builds.
pub trace_record : List ℕ → ℕ → ℕ → List ℕ → List ℕ
trace_record entry level area text =
    let entry1 = put_bytes entry header_size (text ++ (0 ∷ [])) in
    let entry2 = put_bytes entry1 type_offset (store 4 mailbox_trace) in
    let entry3 = put_bytes entry2 size_offset (store 8 (length text)) in
    let entry4 = put_bytes entry3 level_offset (store 4 level) in
    put_bytes entry4 area_offset (store 4 area)

-- RtlPostMailboxTrace
pub post_mailbox_trace : List ℕ → RingBuffer → ℕ → ℕ → Formatted → NtStatus × RingBuffer
post_mailbox_trace entry r level area no_message = (invalid_parameter, r)
post_mailbox_trace entry r level area (not_formatted s) = (s, r)
post_mailbox_trace entry r level area (formatted text) =
    RingBuf.write r (trace_record entry level area text)

-- RtlRetrieveMailboxData: the status, the record and the ring.
pub retrieve_mailbox_data : List ℕ → RingBuffer → NtStatus × List ℕ × RingBuffer
retrieve_mailbox_data entry r =
    let entry1 = put_bytes entry type_offset (store 4 mailbox_empty) in
    let (s, out, r') = RingBuf.read r record_size in (s, put_bytes entry1 0 out, r')

-- The levels and flags of TraceEvents.
pub data TraceLevel : Type 0 where
  verbose information warning : TraceLevel

pub data TraceFlag : Type 0 where
  trace_ioa trace_msr : TraceFlag

-- What the dispatch of a record does: nothing, a trace of a text, PmExcludeThread if the process
-- is known, DsSendNotificationMessage, or the error trace for an unknown type.
pub data Dispatch : Type 0 where
  nothing : Dispatch
  trace_event : TraceLevel → TraceFlag → (text : List ℕ) → Dispatch
  exclude_thread : (process_id thread_id : ℕ) → Dispatch
  send_notification : (process_id thread_id type : ℕ) → (tsc : List ℕ) → Dispatch
  unrecognized : ℕ → Dispatch

abbrev pub trace_level : ℕ → TraceLevel
trace_level level = if level == 5 then verbose else (if level == 4 then information else warning)

-- The two switches on a trace; TRACE_IOA_ROOT is 0x80 and TRACE_MSR_ROOT is 0x200.
pub dispatch_trace : List ℕ → Dispatch
dispatch_trace entry =
    let area = load_at entry area_offset 4 in
    let level = trace_level (load_at entry level_offset 4) in
    let text = drop header_size entry in
    if area == 0x80
    then trace_event level trace_ioa text
    else (if area == 0x200 then trace_event level trace_msr text else nothing)

-- The offsets in a DS_NOTIFICATION_MESSAGE, its size, and that of DS_TSC_INFORMATION.
abbrev pub process_id_offset : ℕ
process_id_offset = 16

abbrev pub thread_id_offset : ℕ
thread_id_offset = 24

abbrev pub message_type_offset : ℕ
message_type_offset = 32

abbrev pub tsc_offset : ℕ
tsc_offset = 40

abbrev pub tsc_size : ℕ
tsc_size = 344

abbrev pub message_size : ℕ
message_size = tsc_offset + tsc_size

-- The branch for a notification; TimerFalsePositive is 2. The process is looked up by the low
-- part of its id.
pub dispatch_notification : List ℕ → Dispatch
dispatch_notification message =
    if load_at message message_type_offset 4 == 2
    then exclude_thread (load_at message process_id_offset 4) (load_at message thread_id_offset 8)
    else send_notification (load_at message process_id_offset 8)
        (load_at message thread_id_offset 8) (load_at message message_type_offset 4)
        (take tsc_size (drop tsc_offset message))

pub dispatch_record : List ℕ → Dispatch
dispatch_record entry =
    let type = load_at entry type_offset 4 in
    if type == mailbox_trace
    then dispatch_trace entry
    else (if type == mailbox_notification
        then dispatch_notification (drop header_size entry)
        else unrecognized type)

-- RtlDispatchMailboxData
pub dispatch_mailbox_data : List ℕ → RingBuffer → Dispatch × RingBuffer
dispatch_mailbox_data entry r =
    let (s, data_, r') = retrieve_mailbox_data entry r in
    (if nt_success s then dispatch_record data_ else nothing, r')

-- What RtlMailboxWorkerThread does when its wait times out; `none` means the fuel ran out.
pub worker_timeout : ℕ → List ℕ → RingBuffer → Option (List Dispatch × RingBuffer)
worker_timeout zero entry r = none
worker_timeout (suc fuel) entry r =
    let (d, r') = dispatch_mailbox_data entry r in
    let rest = worker_timeout fuel entry r' in
    if is_mailbox_empty r
    then some ([], r)
    else elim rest [ none ↦ none | some (ds, r'') ↦ some (d ∷ ds, r'') ]

-- The part of RtlMailboxInitialize that sets up the ring.
pub mailbox_initialize : (memory : ℕ → ℕ) → (pool_buffer pool_size : ℕ) → RingBuffer
mailbox_initialize memory pool_buffer pool_size = initialize memory pool_buffer pool_size
