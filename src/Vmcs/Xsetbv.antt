-- ===== src/Vmcs/Xsetbv.antt =====
-- InstrXsetbvEmulate of src/instr.c in the x64 build.
use deepshield.Prelude.{
  ℕ, ◌*◌, ◌%◌, ◌^◌, Bool, true, false, not, ◌&&◌, ◌||◌, Bool-cases, inl, inr, ◌≡◌, ◌≢◌, refl, ap,
  ◌==◌, if◌then◌else◌, word, word32, Option, none, some, all_below, all_below_sound, low_bits,
  low_bits-bound, bit_and-low_bits, sym, ◌∙◌, ◌⊎◌, arith,
}
use Prim.Native.Nat.{bit_and, bit_or}
use deepshield.Vmx.{Vmcs, Processor, vm_read_n, inject_gp_exception, inject_ud_exception}
use deepshield.Vmcs.{guest_cr4, cr4_osxsave}

-- IsXStateEnabled
abbrev pub is_x_state_enabled : Processor → Vmcs → Bool
is_x_state_enabled p v = not (bit_and (vm_read_n p v guest_cr4) cr4_osxsave == 0)

-- The value that the guest asks for: RDX and RAX.
abbrev pub xcr0_value : (rdx rax : ℕ) → ℕ
xcr0_value rdx rax = bit_or (rdx * 2 ^ 32 % word) (rax % word32)

-- The test of a value: X87, AVX without the rest of XFEATURE_AVX, AVX-512 without the rest of it,
-- and the two masked values of MPX that differ.
pub is_refused_xcr0 : ℕ → Bool
is_refused_xcr0 x =
    not (bit_and x 1 == 0)
    || (not (bit_and x 4 == 0) && not (bit_and x 7 == 7))
    || (not (bit_and x 0xE0 == 0) && not (bit_and x 0xE7 == 0xE7))
    || not (bit_and x 8 == bit_and x 16)

-- InstrXsetbvEmulate without DISABLE_OSXSAVE_TRACKING: the VMCS, and the value that __xsetbv gets
-- if the answer is TRUE.
pub xsetbv_emulate : Processor → Vmcs → (rcx rdx rax : ℕ) → Vmcs × Option ℕ
xsetbv_emulate p v rcx rdx rax =
    if not (rcx == 0)
    then (inject_gp_exception p v 0, none)
    else (if not (is_x_state_enabled p v)
        then (inject_ud_exception p v, none)
        else (if is_refused_xcr0 (xcr0_value rdx rax)
            then (inject_gp_exception p v 0, none)
            else (v, some (xcr0_value rdx rax))))

agree : Bool → Bool → Bool
agree true b = b
agree false b = not b

agree-eq : (a b : Bool) → agree a b ≡ true → a ≡ b
unfolding agree
agree-eq true b e = sym e
agree-eq false true e = absurd (ground arith)
agree-eq false false e = refl

refused_table : all_below 256 (λ x. agree (is_refused_xcr0 x) (not (bit_and x 0xFD == 0))) ≡ true
unfolding agree is_refused_xcr0
refused_table = refl

-- Seven of the lowest eight bits decide.
is_refused_xcr0-mask : (x : ℕ) → is_refused_xcr0 x ≡ not (bit_and x 0xFD == 0)
unfolding is_refused_xcr0
is_refused_xcr0-mask x =
    let y = low_bits 8 x in
    rw
      (
        bit_and-low_bits 8 x 1 (omega arith),
        bit_and-low_bits 8 x 4 (omega arith),
        bit_and-low_bits 8 x 7 (omega arith),
        bit_and-low_bits 8 x 0xE0 (omega arith),
        bit_and-low_bits 8 x 0xE7 (omega arith),
        bit_and-low_bits 8 x 8 (omega arith),
        bit_and-low_bits 8 x 16 (omega arith),
        bit_and-low_bits 8 x 0xFD (omega arith),
      )
      (agree-eq _ _ (
        all_below_sound 256 (λ x. agree (is_refused_xcr0 x) (not (bit_and x 0xFD == 0))) y
          refused_table (low_bits-bound 8 x)))

-- The emulation of XSETBV gives the processor a value exactly if RCX is 0, the guest has enabled
-- XSAVE, and the value has no bit of X87, AVX, MPX or AVX-512; it is then the guest's, and the VMCS
-- stays. Otherwise it injects #UD if RCX is 0 and XSAVE is not enabled, and #GP in every other case.
pub xsetbv_emulate_lem :
    (p : Processor) (v : Vmcs) (rcx rdx rax : ℕ)
    → ((rcx ≡ 0)
        × (is_x_state_enabled p v ≡ true)
        × (bit_and (xcr0_value rdx rax) 0xFD ≡ 0)
        × (xsetbv_emulate p v rcx rdx rax ≡ (v, some (xcr0_value rdx rax))))
      ⊎ ((rcx ≡ 0)
          × (is_x_state_enabled p v ≡ false)
          × (xsetbv_emulate p v rcx rdx rax ≡ (inject_ud_exception p v, none)))
      ⊎ (((rcx ≢ 0) ⊎ ((is_x_state_enabled p v ≡ true) × (bit_and (xcr0_value rdx rax) 0xFD ≢ 0)))
          × (xsetbv_emulate p v rcx rdx rax ≡ (inject_gp_exception p v 0, none)))
unfolding xsetbv_emulate
xsetbv_emulate_lem p v rcx rdx rax = elim (Bool-cases (rcx == 0)) [
  | inr e ↦ inr (inr (inl (λ q. absurd (ground arith)), rw e refl))
  | inl e ↦
      let z : rcx ≡ 0 = ground arith in
      elim (Bool-cases (is_x_state_enabled p v)) [
        | inr d ↦ inr (inl (z, d, rw (e, d) refl))
        | inl d ↦
            let x = xcr0_value rdx rax in
            elim (Bool-cases (bit_and x 0xFD == 0)) [
              | inl k ↦
                  let r : is_refused_xcr0 x ≡ false = is_refused_xcr0-mask x ∙ ap not k in
                  inl (z, d, ground arith, rw (e, d, r) refl)
              | inr k ↦
                  let r : is_refused_xcr0 x ≡ true = is_refused_xcr0-mask x ∙ ap not k in
                  inr (inr (inr (d, λ q. absurd (ground arith)), rw (e, d, r) refl))
            ]
      ]
]
