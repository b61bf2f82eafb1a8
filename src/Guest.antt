-- ===== src/Guest.antt =====
-- src/exits.c: the instruction at which a guest exit happened and the exception handler that
-- emulates RDTSC and RDTSCP, with the emulation in src/tsc.c and InstrRipAdvance of src/instr.c.
pub mod Fetch
pub mod Handler
mod Tests
use deepshield.Prelude.{
  ℕ, zero, suc, ◌+◌, ◌-◌, ◌*◌, ◌/◌, ◌%◌, ◌^◌, Bool, true, false, not, ◌&&◌, Option, none, some,
  List, [], ◌∷◌, ◌++◌, length, get_or, ltb, leb, ◌==◌, if◌then◌else◌, add64, word, word32,
}
use Prim.Native.Nat.{bit_or}
use deepshield.Tsc.{TscEntry}
use deepshield.Tsc.Analysis.{Disassembler, Page, page_size, page_align, byte_offset}
use deepshield.Tsc.Event.{Outcome, process_tsc_event}

-- The registers of GP_REGISTERS that the modelled code reads or writes; `tf` is the trap flag.
pub record GpRegisters : Type 0 where
  pub rax : ℕ
  pub rcx : ℕ
  pub rdx : ℕ
  pub rbx : ℕ
  pub rip : ℕ
  pub tf : Bool

-- What reads of model-specific registers, of the VMCS and of the current thread hand over.
pub record Machine : Type 0 where
  pub time_stamp : ℕ
  pub tsc_aux : ℕ
  pub instruction_length : ℕ
  pub process_id : ℕ
  pub thread_id : ℕ

-- InstrRipAdvance with IsSingleStep and InjectInt1: the registers, and whether an #DB is
-- injected.
pub rip_advance : ℕ → GpRegisters → GpRegisters × Bool
rip_advance instruction_length r =
    let rip = add64 r.rip instruction_length in
    if r.tf then (record r { rip = rip; tf = false }, true) else (record r { rip = rip }, false)

-- NUMBER_PAGES_SPANNED for TSCP_INS_LENGHT bytes.
abbrev pub pages_spanned : ℕ → ℕ
pages_spanned va = (byte_offset va + 3 + (page_size - 1)) / page_size

-- The end of VmReadGuestInstruction: STATUS_NO_MEMORY below TSC_INS_LENGHT bytes.
abbrev pub finish_read : List ℕ → Option (List ℕ)
finish_read opcode = if leb 2 (length opcode) then some opcode else none

-- VmReadGuestInstruction: the bytes of the instruction. `map_page` is MmuGetPhysicalAddress and
-- MmuMapIoPage on the page of an address.
pub read_guest_instruction : (map_page : ℕ → Option Page) → ℕ → Option (List ℕ)
read_guest_instruction map_page va =
    let offset = byte_offset va in
    elim (map_page (page_align va)) [
      | none ↦ finish_read []
      | some code ↦
          if pages_spanned va == 1
          then finish_read (code offset ∷ code (offset + 1) ∷ code (offset + 2) ∷ [])
          else (let start =
                code offset ∷ (if offset == page_size - 1 then [] else code (offset + 1) ∷ []) in
              elim (map_page (page_align (add64 va 3))) [
                | none ↦ finish_read start
                | some next ↦ finish_read (
                    start
                    ++ ((if offset == page_size - 1 then next 0 ∷ [] else [])
                        ++ (next ((offset + 2) % page_size) ∷ [])))
              ])
    ]

-- IS_RDTSC_INSTRUCTION and IS_RDTSCP_INSTRUCTION
abbrev pub is_rdtsc_instruction : List ℕ → Bool
is_rdtsc_instruction ins =
    leb 2 (length ins) && (get_or ins 0 0 == 0x0F) && (get_or ins 1 0 == 0x31)

abbrev pub is_rdtscp_instruction : List ℕ → Bool
is_rdtscp_instruction ins =
    (length ins == 3)
    && (get_or ins 0 0 == 0x0F)
    && (get_or ins 1 0 == 0x01)
    && (get_or ins 2 0 == 0xF9)

-- MmuIsUserModeAddress
abbrev pub is_user_mode_address : ℕ → Bool
is_user_mode_address va = leb va 0x00007FFFFFFFFFFF

-- What an emulation leaves: the registers, whether an #DB is injected, and the table.
pub record Emulated : Type 0 where
  pub registers : GpRegisters
  pub single_step : Bool
  pub outcome : Outcome

module _ (dis : Disassembler) (map_page : ℕ → Option Page) (m : Machine) where
  -- The last two calls of both emulations.
  pub emulate_tail : List TscEntry → GpRegisters → Emulated
  emulate_tail head r =
      let (r', single_step) = rip_advance m.instruction_length r in
      record {
        registers = r';
        single_step = single_step;
        outcome = process_tsc_event dis map_page m.process_id m.thread_id head r.rip m.time_stamp;
      }

  -- VmRdtscEmulate
  pub rdtsc_emulate : List TscEntry → GpRegisters → Emulated
  rdtsc_emulate head r =
      emulate_tail head (record r { rdx = m.time_stamp / word32; rax = m.time_stamp % word32 })

  -- VmRdtscpEmulate
  pub rdtscp_emulate : List TscEntry → GpRegisters → Emulated
  rdtscp_emulate head r = emulate_tail head (record r {
    rdx = m.time_stamp / word32;
    rax = m.time_stamp % word32;
    rcx = m.tsc_aux % word32;
  })

  -- DsHvmExceptionHandler without OPPORTUNISTIC_HOST_CR3; `none` is FALSE, the exception is not
  -- handled.
  pub exception_handler : List TscEntry → GpRegisters → Option Emulated
  exception_handler head r =
      if not (is_user_mode_address r.rip)
      then none
      else elim (read_guest_instruction map_page r.rip) [
        | none ↦ none
        | some ins ↦
            if is_rdtsc_instruction ins
            then some (rdtsc_emulate head r)
            else (if is_rdtscp_instruction ins then some (rdtscp_emulate head r) else none)
      ]

-- CpuidEmulate, without REMOVE_TSX_SUPPORT; `cpuidex` is the processor's answer to a function and
-- a sub-leaf: EAX, EBX, ECX and EDX. An `int` is converted to UINTN with its sign.
abbrev pub sign_extend : ℕ → ℕ
sign_extend x = if ltb (x % word32) (2 ^ 31) then x % word32 else x % word32 + (word - word32)

pub cpuid_emulate :
    (cpuidex : ℕ → ℕ → ℕ × ℕ × ℕ × ℕ) (instruction_length : ℕ) → GpRegisters → GpRegisters × Bool
cpuid_emulate cpuidex instruction_length r =
    let function = r.rax % word32 in
    let sub_leaf = r.rcx % word32 in
    let (eax, ebx, ecx, edx) = cpuidex function sub_leaf in
    let r' = record r {
      rax = sign_extend eax;
      rbx = sign_extend ebx;
      rcx = sign_extend ecx;
      rdx = sign_extend edx;
    } in
    if function == 0x40000000
    then (
      record r { rbx = 0x42797465; rcx = 0x48656564; rdx = 0x4C796E78; rax = 0x40000001 },
      false,
    )
    else (if function == 0x40000001
        then (record r { rax = 0x3123784C }, false)
        else rip_advance instruction_length
            (if function == 1 then record r' { rcx = bit_or r'.rcx (2 ^ 31) } else r'))
