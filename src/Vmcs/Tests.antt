-- ===== src/Vmcs/Tests.antt =====
-- Runs of the accesses to CR4 and of the bitmap at fixed inputs.
use deepshield.Prelude.{
  ℕ, ◌+◌, ◌*◌, ◌^◌, ◌<◌, ◌⊎◌, ◌≢◌, true, false, Bool-cases, inl, inr, ◌≡◌, refl, ◌==◌,
  if◌then◌else◌, word, bit, none, some, arith,
}
use deepshield.Vmx.{Vmcs, Processor, inject_gp_exception, inject_ud_exception}
use Prim.Native.Nat.{bit_and}
use deepshield.Vmcs.{
  Host, Guest, guest_cr4, cr4_guest_host_mask, cr4_read_shadow, move_to_cr4,
  access_control_register, set_privileged_time_stamp, MsrBitmap, no_access, write_access,
  set_msr_bits_config,
}
use deepshield.Vmcs.Moves.{HasCr4, IsWide, Moved, move_to_cr4_lem}
use deepshield.Vmcs.Tsd.{Access, at_exit, read_cr4, start_tsd, Session, started, exited}
use deepshield.Vmcs.Session.{handler-result, guest_tsd}
use deepshield.Vmcs.Xsetbv.{is_x_state_enabled, xcr0_value, xsetbv_emulate, xsetbv_emulate_lem}
use deepshield.Vmcs.MsrBits.{is_covered, Configured, set_msr_bits_config_lem}

-- A processor that fixes VMXE to 1 and leaves the low 22 bits of CR4 free.
abbrev processor : Processor
processor = record {
  msr = λ m. if m == 0x488 then 0x2000 else (if m == 0x489 then 0x3FFFFF else 0);
  readable = λ f. true;
  writable = λ f. true;
}

abbrev host : Host
host = record { cr4 = 0x2020; is_x_state_supported = true }

has_cr4 : HasCr4 processor
has_cr4 = record {
  guest = record { readable = refl; writable = refl; width = refl };
  mask = record { readable = refl; writable = refl; width = refl };
  shadow = record { readable = refl; writable = refl; width = refl };
}

-- The guest's CR4 with TSD, as VmcsSetGuestField leaves it.
abbrev first_vmcs : Vmcs
first_vmcs =
    λ f. if f == guest_cr4 then 0x2024 else (if f == cr4_guest_host_mask then 0x2000 else 0)

abbrev first_guest : Guest
first_guest = record { vmcs = first_vmcs; gp = λ r. 0; rip = 0x1000; tf = false; saved_cr4 = 0 }

first-IsWide : IsWide first_vmcs
first-IsWide = record { guest = omega arith; mask = omega arith; shadow = omega arith }

move_to_cr4_lem_example :
    Moved processor first_vmcs 0x26 (move_to_cr4 processor host first_vmcs 0x26)
move_to_cr4_lem_example =
    move_to_cr4_lem processor host first_vmcs 0x26 has_cr4 first-IsWide (omega arith)

abbrev started_guest : Guest
started_guest = record first_guest { vmcs = set_privileged_time_stamp processor first_vmcs }

-- The guest had TSD set before, and the shadow says no longer.
hidden_tsd : bit (started_guest.vmcs cr4_read_shadow) 2 ≡ 0
hidden_tsd = start_tsd processor first_vmcs has_cr4

-- A move to CR4 from RCX, which has TSD.
abbrev move : Access
move = record {
  qualification = 4 + 1 * 2 ^ 8;
  instruction_length = 3;
  gp = λ r. if r == 1 then 0x24 else 0;
  rip = 0x1000;
  tf = false;
}

small_gp : (n : ℕ) → move.gp n < word
small_gp n = elim (Bool-cases (n == 1)) [ inl e ↦ rw e (omega arith) | inr e ↦ rw e (omega arith) ]

abbrev moved_guest : Guest
moved_guest = access_control_register processor host move.qualification (at_exit started_guest move)

session : Session processor host moved_guest (some 1)
session =
    exited move moved_guest (started first_guest first-IsWide) small_gp
      (handler-result processor host has_cr4 refl started_guest move)

guest_tsd_example :
    (bit (moved_guest.vmcs guest_cr4) 2 ≡ 1)
    × ((t : ℕ) → some 1 ≡ some t → bit (read_cr4 moved_guest.vmcs) 2 ≡ t)
guest_tsd_example = guest_tsd processor host has_cr4 refl session

abbrev empty_bitmap : MsrBitmap
empty_bitmap = λ i. 0

set_msr_bits_config_lem_example :
    ((is_covered 0xC0000100 ≡ true)
      × (m' : MsrBitmap) × (set_msr_bits_config empty_bitmap 0xC0000100 write_access true ≡ some m')
      × Configured empty_bitmap 0xC0000100 write_access true m')
    ⊎ ((is_covered 0xC0000100 ≡ false)
        × (write_access ≢ no_access)
        × (set_msr_bits_config empty_bitmap 0xC0000100 write_access true ≡ none))
    ⊎ ((is_covered 0xC0000100 ≡ false)
        × (write_access ≡ no_access)
        × (set_msr_bits_config empty_bitmap 0xC0000100 write_access true ≡ some empty_bitmap))
set_msr_bits_config_lem_example = set_msr_bits_config_lem empty_bitmap 0xC0000100 write_access true

-- The guest enables x87, SSE and AVX, with OSXSAVE set.
abbrev xsave_vmcs : Vmcs
xsave_vmcs = λ f. if f == guest_cr4 then 0x40000 else 0

abbrev rcx : ℕ
rcx = 0

xsetbv_emulate_lem_example :
    ((rcx ≡ 0)
      × (is_x_state_enabled processor xsave_vmcs ≡ true)
      × (bit_and (xcr0_value 0 7) 0xFD ≡ 0)
      × (xsetbv_emulate processor xsave_vmcs rcx 0 7 ≡ (xsave_vmcs, some (xcr0_value 0 7))))
    ⊎ ((rcx ≡ 0)
        × (is_x_state_enabled processor xsave_vmcs ≡ false)
        × (xsetbv_emulate processor xsave_vmcs rcx 0 7
            ≡ (inject_ud_exception processor xsave_vmcs, none)))
    ⊎ (((rcx ≢ 0)
          ⊎ ((is_x_state_enabled processor xsave_vmcs ≡ true)
              × (bit_and (xcr0_value 0 7) 0xFD ≢ 0)))
        × (xsetbv_emulate processor xsave_vmcs rcx 0 7
            ≡ (inject_gp_exception processor xsave_vmcs 0, none)))
xsetbv_emulate_lem_example = xsetbv_emulate_lem processor xsave_vmcs rcx 0 7
