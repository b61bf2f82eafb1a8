-- ===== src/Vmx/Inject.antt =====
-- The injection of exceptions in src/vmx.c: the table of their types and the fields that the next
-- entry reads.
use deepshield.Prelude.{
  ℕ, ◌/◌, ◌%◌, ◌^◌, ◌<◌, Bool, true, ◌&&◌, Bool-cases, inl, inr, ◌≡◌, ◌≢◌, refl, ◌==◌,
  if◌then◌else◌, word32, bit, all_below, all_below_sound, arith,
}
use deepshield.Vmx.{
  Vmcs, Processor, write32, normalize_controls, entry_interruption_information,
  entry_exception_errorcode, entry_instruction_length, exit_interruption_errorcode,
  is_error_code_required, exception_information, InterruptInfo, inject_hardware_exception,
}
use deepshield.Vmx.Fields.{vm_read32-readable, vm_write32_ne, vm_write32-writable}

-- The processor accepts the fields of an injection.
pub record HasInjection (p : Processor) : Type 0 where
  pub information : p.writable entry_interruption_information ≡ true
  pub error_code : p.writable entry_exception_errorcode ≡ true
  pub length : p.writable entry_instruction_length ≡ true
  pub exit_error_code : p.readable exit_interruption_errorcode ≡ true

-- A value of the entry's interruption information that is a hardware exception with a vector.
pub record IsHardwareException (number information : ℕ) : Type 0 where
  pub vector : information % 2 ^ 8 ≡ number
  pub type : information / 2 ^ 8 % 2 ^ 3 ≡ 3
  pub error_code : bit information 11 ≡ (if is_error_code_required number then 1 else 0)
  pub valid : bit information 31 ≡ 1

agrees : ℕ → ℕ → Bool
agrees vector x =
    (x % 2 ^ 8 == vector)
    && (x / 2 ^ 8 % 2 ^ 3 == 3)
    && (bit x 11 == (if is_error_code_required vector then 1 else 0))
    && (bit x 31 == 1)

table : all_below 32 (λ v. agrees v (exception_information v)) ≡ true
unfolding agrees is_error_code_required
table = refl

agrees-IsHardwareException : (vector x : ℕ) → agrees vector x ≡ true → IsHardwareException vector x
unfolding agrees
agrees-IsHardwareException vector x h = record {
  vector = ground arith;
  type = ground arith;
  error_code = ground arith;
  valid = ground arith;
}

information-IsHardwareException :
    (vector : ℕ) → vector < 32 → IsHardwareException vector (exception_information vector)
information-IsHardwareException vector l =
    agrees-IsHardwareException vector _
      (all_below_sound 32 (λ v. agrees v (exception_information v)) vector table l)

-- What an injection of a hardware exception leaves in the fields that the entry reads.
pub record Injected (v : Vmcs) (vector : ℕ) (code : ℕ) (v' : Vmcs) : Type 0 where
  pub information : IsHardwareException vector (v' entry_interruption_information)
  pub error_code : v' entry_exception_errorcode ≡ code
  pub length : v' entry_instruction_length ≡ 0
  pub others :
      (f : ℕ)
      → f ≢ entry_interruption_information
      → f ≢ entry_exception_errorcode
      → f ≢ entry_instruction_length
      → v' f ≡ v f

module _ (p : Processor) (i : HasInjection p) where
  write-information :
      (v : Vmcs) (x : ℕ)
      → write32 p v entry_interruption_information x entry_interruption_information ≡ x
  unfolding normalize_controls
  write-information v x =
      rw (write32, vm_write32-writable p v entry_interruption_information x i.information refl) refl

  write-error_code :
      (v : Vmcs) (x : ℕ) → write32 p v entry_exception_errorcode x entry_exception_errorcode ≡ x
  unfolding normalize_controls
  write-error_code v x =
      rw (write32, vm_write32-writable p v entry_exception_errorcode x i.error_code refl) refl

  write-length :
      (v : Vmcs) (x : ℕ) → write32 p v entry_instruction_length x entry_instruction_length ≡ x
  unfolding normalize_controls
  write-length v x =
      rw (write32, vm_write32-writable p v entry_instruction_length x i.length refl) refl

  -- The last two writes of both injections.
  finish :
      (v v1 : Vmcs) (vector code : ℕ)
      → vector < 32
      → v1 entry_exception_errorcode ≡ code
      → ((f : ℕ) → f ≢ entry_exception_errorcode → v1 f ≡ v f)
      → Injected v vector code (
          write32 p
            (write32 p v1 entry_interruption_information (exception_information vector))
            entry_instruction_length
            0)
  finish v v1 vector code l e o =
      let x = exception_information vector in
      let v2 = write32 p v1 entry_interruption_information x in
      record {
        information =
            rw
              (
                vm_write32_ne p v2 entry_instruction_length entry_interruption_information 0
                    (λ q. absurd (omega arith)),
                write-information v1 x,
              )
              (information-IsHardwareException vector l);
        error_code =
            rw
              (
                vm_write32_ne p v2 entry_instruction_length entry_exception_errorcode 0
                    (λ q. absurd (omega arith)),
                vm_write32_ne p v1 entry_interruption_information entry_exception_errorcode x
                    (λ q. absurd (omega arith)),
              )
              e;
        length = write-length v2 0;
        others = λ f a b c.
            rw
              (
                vm_write32_ne p v2 entry_instruction_length f 0 c,
                vm_write32_ne p v1 entry_interruption_information f x a,
                o f b,
              )
              refl;
      }

  -- VmInjectHardwareException hands the next entry a valid hardware exception with the vector, and
  -- announces an error code exactly for the vectors of IsErrorCodeRequired. The error code is that
  -- of the exit if the exit had one, and otherwise not written; no other field changes but the
  -- instruction length, which is 0. The condition: a vector below 32, and the processor accepts the
  -- fields.
  pub inject_hardware_exception_lem :
      (v : Vmcs) (info : InterruptInfo)
      → info.vector < 32
      → Injected v info.vector
          (if info.error_code_valid
            then v exit_interruption_errorcode % word32
            else v entry_exception_errorcode)
          (inject_hardware_exception p v info)
  unfolding inject_hardware_exception
  inject_hardware_exception_lem v info l = elim (Bool-cases info.error_code_valid) [
    | inl e ↦
        rw (e, vm_read32-readable p v exit_interruption_errorcode i.exit_error_code refl)
          (let x = v exit_interruption_errorcode % word32 in
            finish v _ info.vector x l (write-error_code v x)
              (λ f n. vm_write32_ne p v entry_exception_errorcode f x n))
    | inr e ↦ rw e (finish v v info.vector _ l refl (λ f n. refl))
  ]
