-- ===== src/Nt.antt =====
-- NTSTATUS, as far as the modelled code returns it.
use deepshield.Prelude.{Bool, true, false}

pub data NtStatus : Type 0 where
  success unsuccessful internal_error : NtStatus
  insufficient_resources no_memory invalid_parameter buffer_overflow : NtStatus

-- NT_SUCCESS
abbrev pub nt_success : NtStatus → Bool
nt_success success = true
nt_success _ = false
