-- ===== src/Vmx.antt =====
-- src/vmx.c, with the field and control numbers of src/vmx.h: VMREAD and VMWRITE with the width
-- check, the capability registers and the controls they allow, and the injection of exceptions.
pub mod Fields
pub mod Controls
pub mod Inject
mod Tests
use deepshield.Prelude.{
  ℕ, ◌+◌, ◌-◌, ◌*◌, ◌/◌, ◌%◌, ◌^◌, Bool, true, false, not, ◌&&◌, ◌||◌, List, [], ◌∷◌, get_or, ◌==◌,
  if◌then◌else◌, word32, bit,
}
use Prim.Native.Nat.{bit_and, bit_or}

-- VMCS_FIELD, VMCS_FIELD_TYPE and VMCS_FIELD_WIDTH
abbrev pub vmcs_field : (type width index : ℕ) → ℕ
vmcs_field type width index = bit_or (bit_or (width * 2 ^ 13) (type * 2 ^ 10)) (index * 2)

abbrev pub vmcs_field_width : ℕ → ℕ
vmcs_field_width field = field / 2 ^ 13 % 4

abbrev pub width_16 : ℕ
width_16 = 0

abbrev pub width_64 : ℕ
width_64 = 1

abbrev pub width_32 : ℕ
width_32 = 2

abbrev pub width_platform : ℕ
width_platform = 3

-- The current VMCS: the value of each field.
abbrev pub Vmcs : Type 0
Vmcs = ℕ → ℕ

abbrev pub set_field : Vmcs → ℕ → ℕ → Vmcs
set_field v field value = λ f. if f == field then value else v f

-- What the processor decides: its model-specific registers, and which fields VMREAD and VMWRITE
-- accept.
pub record Processor : Type 0 where
  pub msr : ℕ → ℕ
  pub readable : ℕ → Bool
  pub writable : ℕ → Bool

-- AsmVmxRead into a variable that is 0 before it, and AsmVmxWrite with whether it returned 0.
abbrev pub vmx_read : Processor → Vmcs → ℕ → ℕ
vmx_read p v field = if p.readable field then v field else 0

abbrev pub vmx_write : Processor → Vmcs → ℕ → ℕ → Vmcs × Bool
vmx_write p v field value = if p.writable field then (set_field v field value, true) else (v, false)

-- VmRead16, VmRead32, VmRead64 and VmReadN
pub vm_read16 : Processor → Vmcs → ℕ → ℕ
vm_read16 p v field = if vmcs_field_width field == width_16 then vmx_read p v field % 2 ^ 16 else 0

pub vm_read32 : Processor → Vmcs → ℕ → ℕ
vm_read32 p v field = if vmcs_field_width field == width_32 then vmx_read p v field % word32 else 0

pub vm_read64 : Processor → Vmcs → ℕ → ℕ
vm_read64 p v field = if vmcs_field_width field == width_64 then vmx_read p v field else 0

pub vm_read_n : Processor → Vmcs → ℕ → ℕ
vm_read_n p v field = if vmcs_field_width field == width_platform then vmx_read p v field else 0

-- VmWrite16, VmWrite64 and VmWriteN: the VMCS and the answer.
pub vm_write16 : Processor → Vmcs → ℕ → ℕ → Vmcs × Bool
vm_write16 p v field value =
    if vmcs_field_width field == width_16 then vmx_write p v field value else (v, false)

pub vm_write64 : Processor → Vmcs → ℕ → ℕ → Vmcs × Bool
vm_write64 p v field value =
    if vmcs_field_width field == width_64 then vmx_write p v field value else (v, false)

pub vm_write_n : Processor → Vmcs → ℕ → ℕ → Vmcs × Bool
vm_write_n p v field value =
    if vmcs_field_width field == width_platform then vmx_write p v field value else (v, false)

-- The five fields of controls with the registers that tell what they allow.
pub data Control : Type 0 where
  pin_based : Control
  proc_primary : Control
  proc_secondary : Control
  exit_controls : Control
  entry_controls : Control

abbrev pub control_field : Control → ℕ
control_field pin_based = vmcs_field 0 width_32 0
control_field proc_primary = vmcs_field 0 width_32 1
control_field proc_secondary = vmcs_field 0 width_32 15
control_field exit_controls = vmcs_field 0 width_32 6
control_field entry_controls = vmcs_field 0 width_32 9

abbrev pub control_msr : Control → ℕ
control_msr pin_based = 0x481
control_msr proc_primary = 0x482
control_msr proc_secondary = 0x48B
control_msr exit_controls = 0x483
control_msr entry_controls = 0x484

abbrev pub is_secondary : Control → Bool
is_secondary proc_secondary = true
is_secondary _ = false

-- VmxBasic.Bits.VmxControlDefaultClear
abbrev pub default_clear : Processor → Bool
default_clear p = bit (p.msr 0x480) 55 == 1

-- The register with the TRUE controls, if the processor has them.
abbrev pub capability : Processor → Control → ℕ
capability p c =
    if default_clear p && not (is_secondary c)
    then p.msr (control_msr c + 0xC)
    else p.msr (control_msr c)

-- LOW32 and HIGH32
abbrev pub low32 : ℕ → ℕ
low32 x = x % word32

abbrev pub high32 : ℕ → ℕ
high32 x = x / word32 % word32

-- VmxAllowed on the five registers: first what the cases share, then the case of the secondary
-- controls, which asks the primary ones.
abbrev pub allowed_by : ℕ → ℕ
allowed_by caps = bit_or (bit_and (word32 - 1) (high32 caps)) (low32 caps)

abbrev pub has_secondary_control : Processor → Bool
has_secondary_control p = bit (allowed_by (capability p proc_primary)) 31 == 1

pub vmx_allowed : Processor → Control → ℕ
vmx_allowed p c =
    if is_secondary c && not (has_secondary_control p) then 0 else allowed_by (capability p c)

-- VmxpNormalizeControls: the control of a field, and the data with the fixed bits.
abbrev pub normalize : Processor → Control → ℕ → ℕ
normalize p c value =
    if is_secondary c && not (has_secondary_control p)
    then value
    else bit_or (bit_and value (high32 (capability p c))) (low32 (capability p c))

pub normalize_controls : Processor → ℕ → ℕ → ℕ
normalize_controls p field value =
    if field == control_field pin_based
    then normalize p pin_based value
    else (if field == control_field proc_primary
        then normalize p proc_primary value
        else (if field == control_field proc_secondary
            then normalize p proc_secondary value
            else (if field == control_field exit_controls
                then normalize p exit_controls value
                else (if field == control_field entry_controls
                    then normalize p entry_controls value
                    else value))))

-- VmWrite32
pub vm_write32 : Processor → Vmcs → ℕ → ℕ → Vmcs × Bool
vm_write32 p v field value =
    if vmcs_field_width field == width_32
    then vmx_write p v field (normalize_controls p field value)
    else (v, false)

-- VmxCapability: the registers 0x480 and 0x485 are always there, 0x48C if EPT or VPID can be
-- enabled; the answer to any other is 0.
pub vmx_capability : Processor → ℕ → ℕ
vmx_capability p capability =
    if (capability == 0x480) || (capability == 0x485)
    then p.msr capability
    else (if (capability == 0x48C)
          && (bit (vmx_allowed p proc_primary) 31 == 1)
          && ((bit (vmx_allowed p proc_secondary) 1 == 1)
              || (bit (vmx_allowed p proc_secondary) 5 == 1))
        then p.msr capability
        else 0)

-- The fields of an injection, and EXIT_INSTRUCTION_LENGTH and EXIT_INTERRUPTION_ERRORCODE.
abbrev pub entry_interruption_information : ℕ
entry_interruption_information = vmcs_field 0 width_32 11

abbrev pub entry_exception_errorcode : ℕ
entry_exception_errorcode = vmcs_field 0 width_32 12

abbrev pub entry_instruction_length : ℕ
entry_instruction_length = vmcs_field 0 width_32 13

abbrev pub exit_interruption_errorcode : ℕ
exit_interruption_errorcode = vmcs_field 1 width_32 3

abbrev pub exit_instruction_length : ℕ
exit_instruction_length = vmcs_field 1 width_32 6

-- IsErrorCodeRequired
pub is_error_code_required : ℕ → Bool
is_error_code_required vector =
    (vector == 8)
    || (vector == 10)
    || (vector == 11)
    || (vector == 12)
    || (vector == 13)
    || (vector == 14)
    || (vector == 17)

-- ExceptionType, with INTERRUPT_HARDWARE_EXCEPTION 3 and EXCEPTION_ERROR_CODE_VALID 8.
abbrev pub exception_types : List ℕ
exception_types =
    3 ∷ 3 ∷ 3 ∷ 3 ∷ 3 ∷ 3 ∷ 3 ∷ 3 ∷ 11 ∷ 3 ∷ 11 ∷ 11 ∷ 11 ∷ 11 ∷ 11 ∷ 3 ∷ 3 ∷ 11 ∷ 3 ∷ 3 ∷ 3 ∷ 3 ∷ 3
    ∷ 3 ∷ 3 ∷ 3 ∷ 3 ∷ 3 ∷ 3 ∷ 3 ∷ 3 ∷ 3 ∷ []

abbrev pub exception_type : ℕ → ℕ
exception_type vector = get_or exception_types vector 0

-- VMX_INT_INFO_VALID | (ExceptionType[ Vector ] << 8) | Vector
abbrev pub exception_information : ℕ → ℕ
exception_information vector = bit_or (bit_or (2 ^ 31) (exception_type vector * 2 ^ 8)) vector

abbrev pub write32 : Processor → Vmcs → ℕ → ℕ → Vmcs
write32 p v field value = (vm_write32 p v field value).0

-- The fields of VMX_EXIT_INTERRUPT_INFO.
pub record InterruptInfo : Type 0 where
  pub vector : ℕ
  pub interrupt_type : ℕ
  pub error_code_valid : Bool
  pub valid : Bool

-- VmInjectHardwareException
pub inject_hardware_exception : Processor → Vmcs → InterruptInfo → Vmcs
inject_hardware_exception p v info =
    let v1 =
      if info.error_code_valid
      then write32 p v entry_exception_errorcode (vm_read32 p v exit_interruption_errorcode)
      else v in
    let v2 = write32 p v1 entry_interruption_information (exception_information info.vector) in
    write32 p v2 entry_instruction_length 0

-- VmInjectUdException
pub inject_ud_exception : Processor → Vmcs → Vmcs
inject_ud_exception p v =
    inject_hardware_exception p v
      (record { vector = 6; interrupt_type = 3; error_code_valid = false; valid = true })

-- VmInjectGpException
pub inject_gp_exception : Processor → Vmcs → ℕ → Vmcs
inject_gp_exception p v error_code =
    let v1 = write32 p v entry_exception_errorcode error_code in
    let v2 = write32 p v1 entry_interruption_information (exception_information 13) in
    write32 p v2 entry_instruction_length 0

-- VM_ENTRY_CONTROL_INTERRUPT as a number. The variable is not initialised: its reserved bits 12
-- to 30 are those of the stack slot.
abbrev pub interrupt_control : (stack : ℕ) → InterruptInfo → ℕ
interrupt_control stack info =
    info.vector
    + stack / 2 ^ 12 % 2 ^ 19 * 2 ^ 12
    + info.interrupt_type * 2 ^ 8
    + (if info.error_code_valid then 2 ^ 11 else 0)
    + (if info.valid then 2 ^ 31 else 0)

-- VmInjectInterruptOrException
pub inject_interrupt_or_exception : Processor → (stack : ℕ) → Vmcs → InterruptInfo → Vmcs
inject_interrupt_or_exception p stack v info =
    let v1 =
      if info.error_code_valid
      then write32 p v entry_exception_errorcode (vm_read32 p v exit_interruption_errorcode)
      else v in
    let v2 = write32 p v1 entry_interruption_information (interrupt_control stack info) in
    if (info.interrupt_type == 4) || (info.interrupt_type == 5) || (info.interrupt_type == 6)
    then write32 p v2 entry_instruction_length (vm_read32 p v2 exit_instruction_length)
    else write32 p v2 entry_instruction_length 0
