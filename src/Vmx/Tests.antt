-- ===== src/Vmx/Tests.antt =====
-- Runs of the controls and the injections at fixed inputs.
use deepshield.Prelude.{
  ℕ, ◌+◌, ◌*◌, ◌^◌, ◌<◌, ◌≤◌, true, ◌≡◌, refl, ◌==◌, leb, leb→le, if◌then◌else◌, bit,
  all_below_sound, arith,
}
use deepshield.Vmx.{
  Vmcs, Processor, pin_based, control_field, capability, low32, high32, vmx_allowed,
  normalize_controls, vm_write32, exit_interruption_errorcode, InterruptInfo,
  inject_hardware_exception,
}
use deepshield.Vmx.Controls.{HasControl, IsSettled, vm_write32_lem}
use deepshield.Vmx.Inject.{HasInjection, Injected, inject_hardware_exception_lem}

-- A processor that requires the pin-based controls 0x16 and allows 0x7F.
abbrev processor : Processor
processor = record {
  msr = λ m. if m == 0x481 then 0x7F * 2 ^ 32 + 0x16 else 0;
  readable = λ f. true;
  writable = λ f. true;
}

abbrev empty_vmcs : Vmcs
empty_vmcs = λ f. 0

-- The external-interrupt control is asked for, and a reserved bit that is not allowed.
asked :
    (vm_write32 processor empty_vmcs (control_field pin_based) 0x101).0 (control_field pin_based)
    ≡ 0x17
unfolding vm_write32 normalize_controls
asked = refl

has_pin_based : HasControl processor pin_based
has_pin_based = record {
  writable = refl;
  secondary = λ e. absurd (ground arith);
  consistent = λ i l. leb→le _ _ (
      all_below_sound 32
        (λ i.
          leb (bit (low32 (capability processor pin_based)) i)
            (bit (high32 (capability processor pin_based)) i))
        i refl l);
}

vm_write32_lem_example :
    ((vm_write32 processor empty_vmcs (control_field pin_based) 0x101).1 ≡ true)
    × ((i : ℕ)
        → i < 32
        → IsSettled
            (bit (low32 (capability processor pin_based)) i)
            (bit (high32 (capability processor pin_based)) i)
            (bit 0x101 i)
            (bit
              ((vm_write32 processor empty_vmcs (control_field pin_based) 0x101).0
                (control_field pin_based))
              i)
          × (bit
                ((vm_write32 processor empty_vmcs (control_field pin_based) 0x101).0
                  (control_field pin_based))
                i
              ≤ bit (vmx_allowed processor pin_based) i))
vm_write32_lem_example = vm_write32_lem processor empty_vmcs pin_based 0x101 has_pin_based

has_injection : HasInjection processor
has_injection = record {
  information = refl;
  error_code = refl;
  length = refl;
  exit_error_code = refl;
}

-- A general-protection exception with its error code.
abbrev gp_exit : Vmcs
gp_exit = λ f. if f == exit_interruption_errorcode then 0x18 else 0

abbrev gp_info : InterruptInfo
gp_info = record { vector = 13; interrupt_type = 3; error_code_valid = true; valid = true }

inject_hardware_exception_lem_example :
    Injected gp_exit 13 0x18 (inject_hardware_exception processor gp_exit gp_info)
inject_hardware_exception_lem_example =
    inject_hardware_exception_lem processor has_injection gp_exit gp_info (omega arith)
