-- ===== src/Vmcs.antt =====
-- src/vmcs.c and src/vmcsinit.c: the bits of CR4 that the processor fixes, the guest's view of CR4,
-- the time-stamp-disable bit that the driver owns, and the bitmap of the intercepted registers;
-- and of src/instr.c and src/exits.c the emulation of the guest's accesses to CR3 and CR4.
pub mod Moves
pub mod Tsd
pub mod Session
pub mod MsrBits
pub mod Xsetbv
mod Tests
use deepshield.Prelude.{
  ℕ, ◌+◌, ◌-◌, ◌*◌, ◌/◌, ◌%◌, ◌^◌, Bool, true, false, not, ◌&&◌, ◌==◌, ltb, leb, if◌then◌else◌,
  add64, word, bit, complement, Option, none, some,
}
use Prim.Native.Nat.{bit_and, bit_or}
use deepshield.Vmx.{
  Vmcs, Processor, vmcs_field, width_32, width_platform, vm_read_n, vm_write_n, vm_read32, write32,
  entry_interruption_information, exit_instruction_length,
}

abbrev pub guest_cr3 : ℕ
guest_cr3 = vmcs_field 2 width_platform 1

abbrev pub guest_cr4 : ℕ
guest_cr4 = vmcs_field 2 width_platform 2

abbrev pub host_cr4 : ℕ
host_cr4 = vmcs_field 3 width_platform 2

abbrev pub cr4_guest_host_mask : ℕ
cr4_guest_host_mask = vmcs_field 0 width_platform 1

abbrev pub cr4_read_shadow : ℕ
cr4_read_shadow = vmcs_field 0 width_platform 3

abbrev pub exception_bitmap : ℕ
exception_bitmap = vmcs_field 0 width_32 2

abbrev pub exit_qualification : ℕ
exit_qualification = vmcs_field 1 width_platform 0

abbrev pub cr4_tsd : ℕ
cr4_tsd = 2 ^ 2

abbrev pub cr4_osxsave : ℕ
cr4_osxsave = 2 ^ 18

abbrev pub write_n : Processor → Vmcs → ℕ → ℕ → Vmcs
write_n p v field value = (vm_write_n p v field value).0

-- The two values of gVmState.Fixed for CR4 that VmInitializeVmState computes from the registers
-- 0x488 (Maybe0) and 0x489 (Maybe1).
abbrev pub cr4_fixed1 : Processor → ℕ
cr4_fixed1 p = bit_and (p.msr 0x488 % word) (p.msr 0x489 % word)

abbrev pub cr4_fixed0 : Processor → ℕ
cr4_fixed0 p = bit_or (p.msr 0x488 % word) (p.msr 0x489 % word)

-- VmMakeCompliantCr4
pub make_compliant_cr4 : Processor → ℕ → ℕ
make_compliant_cr4 p value = bit_or (bit_and value (cr4_fixed0 p)) (cr4_fixed1 p)

-- VmGetGuestVisibleCr4
pub get_guest_visible_cr4 : Processor → Vmcs → ℕ → ℕ
get_guest_visible_cr4 p v value =
    let mask = vm_read_n p v cr4_guest_host_mask in
    let shadow = vm_read_n p v cr4_read_shadow in
    bit_or (bit_and value (complement 64 mask)) (bit_and shadow mask)

-- VmSetPrivilegedTimeStamp
pub set_privileged_time_stamp : Processor → Vmcs → Vmcs
set_privileged_time_stamp p v =
    let current_tsd = bit_and (vm_read_n p v guest_cr4) cr4_tsd in
    let v1 = write_n p v guest_cr4 (bit_or (vm_read_n p v guest_cr4) cr4_tsd) in
    let v2 =
      write_n p v1 cr4_guest_host_mask (bit_or (vm_read_n p v1 cr4_guest_host_mask) cr4_tsd) in
    let v3 = write_n p v2 cr4_read_shadow (bit_and (vm_read_n p v2 cr4_read_shadow) current_tsd) in
    write32 p v3 exception_bitmap (bit_or (2 ^ 6) (2 ^ 13))

-- What the emulation works on: the VMCS, the general registers by their number, RIP, the trap flag
-- and Vcpu->HostState.Cr4.
pub record Guest : Type 0 where
  pub vmcs : Vmcs
  pub gp : ℕ → ℕ
  pub rip : ℕ
  pub tf : Bool
  pub saved_cr4 : ℕ

-- EXIT_QUALIFICATION_CR: Number, AccessType and MoveGp.
abbrev pub cr_number : ℕ → ℕ
cr_number qualification = qualification % 16

abbrev pub access_type : ℕ → ℕ
access_type qualification = qualification / 2 ^ 4 % 4

abbrev pub move_gp : ℕ → ℕ
move_gp qualification = qualification / 2 ^ 8 % 16

abbrev pub set_gp : (ℕ → ℕ) → ℕ → ℕ → ℕ → ℕ
set_gp gp n value = λ r. if r == n then value else gp r

-- What the processor answers in root mode: CR4, and whether CPUID reports XSAVE and OSXSAVE
-- (IsXStateSupported).
pub record Host : Type 0 where
  pub cr4 : ℕ
  pub is_x_state_supported : Bool

-- The part of InstrCr4Emulate that tracks OSXSAVE in the host's CR4.
pub track_osxsave : Processor → Host → Vmcs → (cr4 : ℕ) → Vmcs
track_osxsave p h v cr4 =
    if bit cr4 18 == 1
    then (if h.is_x_state_supported then write_n p v host_cr4 (bit_or h.cr4 cr4_osxsave) else v)
    else write_n p v host_cr4 (bit_and h.cr4 (complement 64 cr4_osxsave))

-- The part of InstrCr4Emulate for a move to CR4, in the build that tracks OSXSAVE.
pub move_to_cr4 : Processor → Host → Vmcs → (operand : ℕ) → Vmcs
move_to_cr4 p h v operand =
    let operand_tsd = bit_and operand cr4_tsd in
    let cr4 = make_compliant_cr4 p (get_guest_visible_cr4 p v operand) in
    let quantum_tsd = bit_and (vm_read_n p v guest_cr4) cr4_tsd in
    let v1 = write_n p v guest_cr4 (bit_or cr4 quantum_tsd) in
    let v2 = track_osxsave p h v1 cr4 in
    write_n p v2 cr4_read_shadow
      (bit_or (bit_and (vm_read_n p v2 cr4_read_shadow) (complement 64 cr4_tsd)) operand_tsd)

-- InstrCr4Emulate
pub cr4_emulate : Processor → Host → (qualification : ℕ) → Guest → Guest
cr4_emulate p h q g =
    if access_type q == 0
    then record g { vmcs = move_to_cr4 p h g.vmcs (g.gp (move_gp q)); saved_cr4 = g.gp (move_gp q) }
    else (if access_type q == 1
        then record g { gp = set_gp g.gp (move_gp q) (vm_read_n p g.vmcs guest_cr4) }
        else g)

-- InstrCr3Emulate
pub cr3_emulate : Processor → (qualification : ℕ) → Guest → Guest
cr3_emulate p q g =
    if access_type q == 0
    then record g { vmcs = write_n p g.vmcs guest_cr3 (g.gp (move_gp q)) }
    else (if access_type q == 1
        then record g { gp = set_gp g.gp (move_gp q) (vm_read_n p g.vmcs guest_cr3) }
        else g)

-- InstrRipAdvance with InjectInt1, whose information is vector 1, type 3 and the valid bit.
pub instr_rip_advance : Processor → Guest → Guest
instr_rip_advance p g =
    let rip = add64 g.rip (vm_read32 p g.vmcs exit_instruction_length) in
    if g.tf
    then record g {
      rip = rip;
      tf = false;
      vmcs = write32 p g.vmcs entry_interruption_information (1 + 3 * 2 ^ 8 + 2 ^ 31);
    }
    else record g { rip = rip }

-- The switch of CrAccessHandler and what follows; LookupCr has CR4 and CR3 at their numbers, and the
-- assertion of every other entry is left out, as in a release build.
pub access_control_register : Processor → Host → (qualification : ℕ) → Guest → Guest
access_control_register p h q g = instr_rip_advance p (
    if cr_number q == 4
    then cr4_emulate p h q g
    else (if cr_number q == 3 then cr3_emulate p q g else g))

-- CrAccessHandler; `none` is a read past the nine entries of LookupCr.
pub cr_access_handler : Processor → Host → Guest → Option Guest
cr_access_handler p h g =
    let q = vm_read_n p g.vmcs exit_qualification in
    if ltb 8 (cr_number q) then none else some (access_control_register p h q g)

-- A bitmap of model-specific registers by the offset of each byte, and BITARRAY_SET and
-- BITARRAY_CLR on the array at an offset.
abbrev pub MsrBitmap : Type 0
MsrBitmap = ℕ → ℕ

abbrev pub set_byte : MsrBitmap → ℕ → ℕ → MsrBitmap
set_byte m i value = λ j. if j == i then value else m j

abbrev pub bitarray_set : MsrBitmap → (array n : ℕ) → MsrBitmap
bitarray_set m array n = set_byte m (array + n / 8) (bit_or (m (array + n / 8)) (2 ^ (n % 8)))

abbrev pub bitarray_clr : MsrBitmap → (array n : ℕ) → MsrBitmap
bitarray_clr m array n =
    set_byte m (array + n / 8) (bit_and (m (array + n / 8)) (complement 8 (2 ^ (n % 8))))

-- MSR_ACCESS
pub data MsrAccess : Type 0 where
  no_access write_access read_access read_write_access : MsrAccess

-- The body of the loop of VmSetMsrBitsConfig for one kind of access, with the offsets of its two
-- arrays: `none` is STATUS_NOT_FOUND.
pub set_msr_bit : MsrBitmap → (low high msr_id : ℕ) → (set : Bool) → Option MsrBitmap
set_msr_bit m low high msr_id set =
    if leb msr_id 0x1FFF
    then some (if set then bitarray_set m low msr_id else bitarray_clr m low msr_id)
    else (if leb 0xC0000000 msr_id && leb msr_id 0xC0001FFF
        then some (
            if set
            then bitarray_set m high (msr_id - 0xC0000000)
            else bitarray_clr m high (msr_id - 0xC0000000))
        else none)

-- The two rounds of the loop, each with its bit of the access asked for.
abbrev pub set_write_bit : MsrBitmap → ℕ → MsrAccess → Bool → Option MsrBitmap
set_write_bit m msr_id no_access set = some m
set_write_bit m msr_id read_access set = some m
set_write_bit m msr_id _ set = set_msr_bit m 2048 3072 msr_id set

abbrev pub set_read_bit : MsrBitmap → ℕ → MsrAccess → Bool → Option MsrBitmap
set_read_bit m msr_id no_access set = some m
set_read_bit m msr_id write_access set = some m
set_read_bit m msr_id _ set = set_msr_bit m 0 1024 msr_id set

-- VmSetMsrBitsConfig
pub set_msr_bits_config : MsrBitmap → ℕ → MsrAccess → Bool → Option MsrBitmap
set_msr_bits_config m msr_id access set = elim (set_write_bit m msr_id access set) [
  | none ↦ none
  | some m' ↦ set_read_bit m' msr_id access set
]
