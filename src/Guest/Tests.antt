-- ===== src/Guest/Tests.antt =====
-- src/exits.c on a guest whose memory holds RDTSC over a page boundary.
use deepshield.Prelude.{
  ℕ, ◌%◌, ◌-◌, ◌≡◌, ◌≢◌, ◌⊎◌, false, ◌&&◌, none, some, List, [], ◌∷◌, if◌then◌else◌, ◌==◌, word32,
  arith,
}
use deepshield.Tsc.{TscEntry, cleared}
use deepshield.Tsc.Analysis.{page_align, byte_offset, page_size}
use deepshield.Tsc.Analysis.Copy.{mapped}
use deepshield.Tsc.Tests.{bytewise}
use deepshield.Guest.{
  GpRegisters, Machine, read_guest_instruction, is_user_mode_address, rdtsc_emulate, rdtscp_emulate,
  exception_handler, cpuid_emulate,
}
use deepshield.Guest.Fetch.{bytes_at, read_guest_instruction_lem}
use deepshield.Guest.Handler.{exception_handler_lem, cpuid_emulate-rip}

abbrev memory : ℕ → ℕ
memory a = if a == 0x401FFF then 0x0F else (if a == 0x402000 then 0x31 else 0)

read_guest_instruction_lem_example :
    (read_guest_instruction (mapped memory) 0x401FFF ≡ some (bytes_at memory 0x401FFF 3))
    ⊎ ((mapped memory (page_align 0x402002) ≡ none)
        × (byte_offset 0x401FFF ≡ page_size - 2)
        × (read_guest_instruction (mapped memory) 0x401FFF ≡ some (bytes_at memory 0x401FFF 2)))
    ⊎ (((mapped memory (page_align 0x401FFF) ≡ none)
          ⊎ ((mapped memory (page_align 0x402002) ≡ none) × (byte_offset 0x401FFF ≡ page_size - 1)))
        × (read_guest_instruction (mapped memory) 0x401FFF ≡ none))
read_guest_instruction_lem_example =
    read_guest_instruction_lem memory (mapped memory) 0x401FFF (λ page code e o l. ground arith)
      (omega arith)

abbrev machine : Machine
machine = record {
  time_stamp = 0x500000007;
  tsc_aux = 1;
  instruction_length = 2;
  process_id = 8;
  thread_id = 12;
}

abbrev registers : GpRegisters
registers = record { rax = 1; rcx = 2; rdx = 3; rbx = 4; rip = 0x401FFF; tf = false }

abbrev table : List TscEntry
table = cleared ∷ cleared ∷ []

exception_handler_lem_example :
    exception_handler bytewise (mapped memory) machine table registers ≡ (
      if is_user_mode_address 0x401FFF && (memory 0x401FFF == 0x0F)
      then (if memory 0x402000 == 0x31
          then some (rdtsc_emulate bytewise (mapped memory) machine table registers)
          else (if (memory 0x402000 == 0x01) && (memory 0x402001 == 0xF9)
              then some (rdtscp_emulate bytewise (mapped memory) machine table registers)
              else none))
      else none)
exception_handler_lem_example =
    exception_handler_lem bytewise machine memory (mapped memory) table registers
      (λ page code e o l. ground arith) (λ page e. absurd (ground arith)) (omega arith)

abbrev cpuidex : ℕ → ℕ → ℕ × ℕ × ℕ × ℕ
cpuidex function sub_leaf = (function, 0, sub_leaf, 0)

cpuid_emulate-rip_example :
    let (r', single_step) = cpuid_emulate cpuidex 2 registers in
    (((1 % word32 ≡ 0x40000000) ⊎ (1 % word32 ≡ 0x40000001))
      × (r'.rip ≡ 0x401FFF)
      × (r'.tf ≡ false)
      × (single_step ≡ false))
    ⊎ ((1 % word32 ≢ 0x40000000)
        × (1 % word32 ≢ 0x40000001)
        × (r'.rip ≡ 0x402001)
        × (r'.tf ≡ false)
        × (single_step ≡ false))
cpuid_emulate-rip_example = cpuid_emulate-rip cpuidex 2 registers (omega arith)
