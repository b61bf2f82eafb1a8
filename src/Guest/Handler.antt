-- ===== src/Guest/Handler.antt =====
-- DsHvmExceptionHandler and CpuidEmulate of src/exits.c.
use deepshield.Prelude.{
  ℕ, ◌+◌, ◌*◌, ◌%◌, ◌^◌, ◌<◌, ◌≡◌, ◌≢◌, ◌⊎◌, ◌∙◌, inl, inr, Bool, false, ◌&&◌, Option, Option-cases,
  none, some, List, length, if◌then◌else◌, ◌==◌, word, word32, arith,
}
use deepshield.Tsc.{TscEntry}
use deepshield.Tsc.Range.{InRegion}
use deepshield.Tsc.Analysis.{Disassembler, Page, page_align}
use deepshield.Tsc.Event.{Effect, done, process_tsc_event, tsc_hash_of}
use deepshield.Tsc.Event.Step.{AllValid, process_tsc_event-IsValid}
use deepshield.Guest.{
  GpRegisters, Machine, rip_advance, read_guest_instruction, is_user_mode_address, Emulated,
  emulate_tail, rdtsc_emulate, rdtscp_emulate, exception_handler, cpuid_emulate,
}
use deepshield.Guest.Fetch.{Maps, bytes_at, read_guest_instruction_lem}

-- Every page can be mapped.
abbrev pub AllMapped : (ℕ → Option Page) → Type 0
AllMapped map_page = (page : ℕ) → map_page page ≢ none

read_guest_instruction-mapped :
    (memory : ℕ → ℕ) (map_page : ℕ → Option Page) (va : ℕ)
    → Maps map_page memory
    → AllMapped map_page
    → va + 3 < word
    → read_guest_instruction map_page va ≡ some (bytes_at memory va 3)
read_guest_instruction-mapped memory map_page va maps all fits =
    elim (read_guest_instruction_lem memory map_page va maps fits) [
      | inl h ↦ h
      | inr rest ↦ elim rest [
        | inl (unmapped, _, _) ↦ absurd (all (page_align (va + 3)) unmapped)
        | inr (why, _) ↦ elim why [
          | inl unmapped ↦ absurd (all (page_align va) unmapped)
          | inr (unmapped, _) ↦ absurd (all (page_align (va + 3)) unmapped)
        ]
      ]
    ]

module _ (dis : Disassembler) (m : Machine) where
  -- In a guest whose pages can all be mapped, each of which shows the guest's memory on its 4096
  -- bytes, DsHvmExceptionHandler handles the exception exactly at an address of user mode where the
  -- guest's memory holds RDTSC (0F 31) or RDTSCP (0F 01 F9), wherever page boundaries lie, and
  -- emulates that instruction. The address is not among the last three.
  pub exception_handler_lem :
      (memory : ℕ → ℕ) (map_page : ℕ → Option Page) (head : List TscEntry) (r : GpRegisters)
      → Maps map_page memory
      → AllMapped map_page
      → r.rip + 3 < word
      → exception_handler dis map_page m head r ≡ (
          if is_user_mode_address r.rip && (memory r.rip == 0x0F)
          then (if memory (r.rip + 1) == 0x31
              then some (rdtsc_emulate dis map_page m head r)
              else (if (memory (r.rip + 1) == 0x01) && (memory (r.rip + 1 + 1) == 0xF9)
                  then some (rdtscp_emulate dis map_page m head r)
                  else none))
          else none)
  unfolding exception_handler
  exception_handler_lem memory map_page head r maps all fits =
      rw (exception_handler, read_guest_instruction-mapped memory map_page r.rip maps all fits)
        (ground arith)

  -- RDTSC leaves the time stamp in RDX:RAX and the other registers as they were, goes on at the
  -- next instruction, and raises #DB and clears the trap flag if that was set.
  pub rdtsc_emulate_lem :
      (map_page : ℕ → Option Page) (head : List TscEntry) (r : GpRegisters)
      → m.time_stamp < word
      → r.rip + m.instruction_length < word
      → let e = rdtsc_emulate dis map_page m head r in
        (e.registers.rdx * 2 ^ 32 + e.registers.rax ≡ m.time_stamp)
        × (e.registers.rcx ≡ r.rcx)
        × (e.registers.rbx ≡ r.rbx)
        × (e.registers.rip ≡ r.rip + m.instruction_length)
        × (e.registers.tf ≡ false)
        × (e.single_step ≡ r.tf)
  unfolding rdtsc_emulate emulate_tail rip_advance
  rdtsc_emulate_lem map_page head r small fits = ground arith

  outcome_of :
      (map_page : ℕ → Option Page) (head : List TscEntry) (r : GpRegisters) (e : Emulated)
      → exception_handler dis map_page m head r ≡ some e
      → e.outcome ≡ process_tsc_event dis map_page m.process_id m.thread_id head r.rip m.time_stamp
  unfolding exception_handler rdtsc_emulate rdtscp_emulate emulate_tail
  outcome_of map_page head r e h = elim (Option-cases (read_guest_instruction map_page r.rip)) [
    | inl none_ ↦ let h' = rw (exception_handler, none_) at h in absurd (ground (arith, h'))
    | inr (ins, found) ↦ let h' = rw (exception_handler, found) at h in ground (arith, h')
  ]

  -- What the handler does to a valid table, whatever the guest's memory is: an exception that it
  -- handles has been processed without a crash, and leaves a valid table of the same size.
  pub exception_handler-IsValid :
      {base n : ℕ} (map_page : ℕ → Option Page) (head : List TscEntry) (r : GpRegisters)
      (e : Emulated)
      → AllValid base n head
      → 0 < length head
      → tsc_hash_of m.process_id m.thread_id ≢ 0
      → r.rip ≢ 0
      → InRegion base r.rip
      → exception_handler dis map_page m head r ≡ some e
      → (b : Bool) × (head' : List TscEntry) × (effects : List Effect) × (e.outcome
          ≡ done b head' effects)
        × (length head' ≡ length head)
        × AllValid base (n + 1) head'
  exception_handler-IsValid map_page head r e all pos hz nz ra h =
      let (b, head', effects, o, len, v, _) =
        process_tsc_event-IsValid dis map_page m.process_id m.thread_id head r.rip m.time_stamp all
          pos hz nz ra in
      (b, head', effects, outcome_of map_page head r e h ∙ o, len, v)

-- CpuidEmulate for the two leaves of the hypervisor, 0x40000000 and 0x40000001, leaves the guest at
-- the CPUID instruction; for every other function the guest goes on at the next instruction, the trap
-- flag is clear, and #DB is raised exactly if it was set. The condition: the instruction does not wrap
-- around the address space.
pub cpuid_emulate-rip :
    (cpuidex : ℕ → ℕ → ℕ × ℕ × ℕ × ℕ) (instruction_length : ℕ) (r : GpRegisters)
    → r.rip + instruction_length < word
    → let (r', single_step) = cpuid_emulate cpuidex instruction_length r in
      (((r.rax % word32 ≡ 0x40000000) ⊎ (r.rax % word32 ≡ 0x40000001))
        × (r'.rip ≡ r.rip)
        × (r'.tf ≡ r.tf)
        × (single_step ≡ false))
      ⊎ ((r.rax % word32 ≢ 0x40000000)
          × (r.rax % word32 ≢ 0x40000001)
          × (r'.rip ≡ r.rip + instruction_length)
          × (r'.tf ≡ false)
          × (single_step ≡ r.tf))
unfolding cpuid_emulate rip_advance
cpuid_emulate-rip cpuidex instruction_length r fits = ground arith
