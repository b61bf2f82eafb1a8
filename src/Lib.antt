-- ===== src/Lib.antt =====
-- DeepShield is a Windows driver that runs the system it protects as a guest of a thin hypervisor
-- and looks for code that measures time with RDTSC in order to mount a side-channel attack. This
-- library models the parts of the driver that are logic of its own; all of them are C files below
-- src/.
--
-- How the parts work together. A guest that executes RDTSC in user mode raises an exception, since
-- the hypervisor sets CR4.TSD. DsHvmExceptionHandler (Guest) reads the instruction at the guest's
-- RIP, emulates it and hands the address and the time stamp to TdProcessTscEvent (Tsc). That keeps,
-- for each processor, a table of pairs of near addresses of one thread, decides when a pair is a
-- candidate, copies the code between the two addresses and disassembles it. What it finds goes as a
-- record to the mailbox (Mailbox), which lies on a byte ring (RingBuf) so that root mode never
-- waits. A worker thread reads the records: it sends a notification for an attack, and for a false
-- positive it adds the thread to the exclusion list of its process (Exclusion), which is an index
-- list (IdxList).
--
-- Files.
--   Prelude, Prelude/*        numbers, lists with length and indices over the native numbers, Boolean
--                             tests, and the machine arithmetic of the x64 build, which wraps
--   Nt                        NTSTATUS
--   RingBuf, RingBuf/*        src/ringbuf.c. Pointers are addresses into a memory, a function from
--                             addresses to bytes. Queue is the abstract view: the unread bytes.
--   Mailbox, Mailbox/*        src/mailbox.c. A record is the 1056 bytes of MAILBOX_RECORD; Box is the
--                             view as a queue of records, Delivery goes from a post to the dispatch.
--   IdxList, IdxList/*        src/idxlist.c. The array is a function from indices to nodes; IsTable
--                             (Unlink) says which nodes are in use, in which order, and which are free.
--   Exclusion, Exclusion/*    src/process.c, the functions on PM_EXCLUSION_TABLE
--   Tsc, Tsc/*                src/tsc.c. Tsc has the table and the timing test, Analysis the copy and
--                             the loop over instructions, Event the whole of TdProcessTscEvent.
--   Heap, Heap/*              src/mem.c. A block is the offset of its first byte, and the headers are a
--                             function from offsets; IsHeap (Inv) is the invariant, Tiling the state
--                             between the steps of an operation, Session a client's calls.
--   Guest, Guest/*            src/exits.c: VmReadGuestInstruction, DsHvmExceptionHandler and
--                             CpuidEmulate; InstrRipAdvance of src/instr.c
--   Mmu, Mmu/*                src/mmu.c: the mapping slots and MmuGetPhysicalAddress; translate (Walk) is
--                             the translation that the page tables give
--   Vmx, Vmx/*                src/vmx.c: reads and writes of the VMCS, a function from the numbers of its
--                             fields; the controls that the processor allows; the injections
--   Vmcs, Vmcs/*              src/vmcs.c and src/vmcsinit.c: CR4 and the bitmap of registers; CrAccessHandler
--                             of src/exits.c with InstrCr4Emulate, InstrCr3Emulate and
--                             InstrXsetbvEmulate of src/instr.c. Tsd has the processor's side: what a
--                             move to and from CR4 does in a guest.
--   SpinLock, SpinLock/*      src/spinlock.c as a step relation between processors
-- Definitions have the names of the C functions, without the prefix, in lower case. A function that
-- changes a structure returns the new one. `none` stands for NULL or FALSE, for a fault (a null
-- dereference) or for fuel that ran out; the comment of the definition says which. A read of a byte or
-- node outside what is mapped or allocated is only in the model where a theorem excludes it.
--
-- Parameters. The disassembler libudis86 is a record of operations whose laws are that it consumes
-- its input; the mapping of a guest page, what the pool allocates, the lookup of a thread and the
-- answers of the processor are arguments, with any value: its registers, and the fields of the VMCS
-- that it accepts (Processor). Of a mapped page only its 4096 bytes are known. A pool block for an
-- entry is assumed to be none of the blocks in use.
--
-- Fuel. The worker's loop, the walk and the clean-up of an exclusion list run on fuel, and take one
-- round more than there are records or entries; the analysis of code takes one round more than there
-- are bytes. A walk of a list of the heap takes one round more than the list has blocks, and the
-- number of bytes of the heap is always enough (Heap.Create). That this much is enough is proved with
-- each.
--
-- The headers and the bytes of blocks are two functions in the model of the heap: a store to a header
-- does not show in the bytes. Blocks and their headers share no byte in a valid heap; a header that the
-- aligned allocation moves by less than its size is read whole before it is written.
--
-- Sequential view. The ring and the lists are only used under their spin locks, so each call is one
-- step; SpinLock is the model of the lock itself. The table of time stamps, the VMCS and the
-- mapping slots belong to one processor.
--
-- Not modelled: what consists of calls of the system (registry, devices, processes, power), the set
-- up of the VMCS from the machine's state, the set-up of mapping slots, assembly, the clearing of a
-- heap and the arena below it, the channel to user mode, the driver's own tests, and the 32-bit build.
pub mod Prelude
pub mod Nt
pub mod RingBuf
pub mod Mailbox
pub mod IdxList
pub mod Exclusion
pub mod Mmu
pub mod SpinLock
pub mod Tsc
pub mod Guest
pub mod Heap
pub mod Vmx
pub mod Vmcs
