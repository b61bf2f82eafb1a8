-- ===== src/Vmx/Fields.antt =====
-- The fields of the VMCS in src/vmx.c: a write and the reads after it.
use deepshield.Prelude.{
  ℕ, ◌%◌, Bool, true, false, ◌≡◌, ◌≢◌, refl, ◌==◌, if◌then◌else◌, if_ne, if_self, word32,
}
use deepshield.Vmx.{
  Vmcs, Processor, vmcs_field_width, width_32, width_platform, set_field, vmx_write, vm_read_n,
  vm_write_n, vm_read32, vm_write32, normalize_controls,
}

pub set_field_self : (v : Vmcs) (f x : ℕ) → set_field v f x f ≡ x
set_field_self v f x = if_self f x (v f)

pub set_field_ne : (v : Vmcs) (f g x : ℕ) → g ≢ f → set_field v f x g ≡ v g
set_field_ne v f g x n = if_ne g f x (v g) n

-- A value that both branches of a write agree on.
branch_agree :
    (b : Bool) (q r : Vmcs × Bool) (g x : ℕ) → q.0 g ≡ x → r.0 g ≡ x → (if b then q else r).0 g ≡ x
branch_agree true q r g x d e = d
branch_agree false q r g x d e = e

-- A write changes at most its own field.
pub vmx_write_ne : (p : Processor) (v : Vmcs) (f g x : ℕ) → g ≢ f → (vmx_write p v f x).0 g ≡ v g
vmx_write_ne p v f g x n = branch_agree (p.writable f) _ _ g (v g) (set_field_ne v f g x n) refl

pub vm_write_n_ne : (p : Processor) (v : Vmcs) (f g x : ℕ) → g ≢ f → (vm_write_n p v f x).0 g ≡ v g
unfolding vm_write_n
vm_write_n_ne p v f g x n =
    branch_agree (vmcs_field_width f == width_platform) _ _ g (v g) (vmx_write_ne p v f g x n) refl

pub vm_write32_ne : (p : Processor) (v : Vmcs) (f g x : ℕ) → g ≢ f → (vm_write32 p v f x).0 g ≡ v g
unfolding vm_write32
vm_write32_ne p v f g x n =
    branch_agree (vmcs_field_width f == width_32) _ _ g (v g)
      (vmx_write_ne p v f g (normalize_controls p f x) n) refl

-- A field that the processor lets be read and written, with the width of a register.
pub record IsRegister (p : Processor) (f : ℕ) : Type 0 where
  pub readable : p.readable f ≡ true
  pub writable : p.writable f ≡ true
  pub width : vmcs_field_width f ≡ width_platform

pub vm_read_n-register : (p : Processor) (v : Vmcs) (f : ℕ) → IsRegister p f → vm_read_n p v f ≡ v f
unfolding vm_read_n
vm_read_n-register p v f i = rw (i.width, i.readable) refl

pub vm_write_n-register :
    (p : Processor) (v : Vmcs) (f x : ℕ) → IsRegister p f → (vm_write_n p v f x).0 f ≡ x
unfolding vm_write_n
vm_write_n-register p v f x i = rw (i.width, i.writable) (set_field_self v f x)

pub vm_read_n-readable :
    (p : Processor) (v : Vmcs) (f : ℕ)
    → p.readable f ≡ true
    → vmcs_field_width f ≡ width_platform
    → vm_read_n p v f ≡ v f
unfolding vm_read_n
vm_read_n-readable p v f r w = rw (w, r) refl

pub vm_read32-readable :
    (p : Processor) (v : Vmcs) (f : ℕ)
    → p.readable f ≡ true
    → vmcs_field_width f ≡ width_32
    → vm_read32 p v f ≡ v f % word32
unfolding vm_read32
vm_read32-readable p v f r w = rw (w, r) refl

pub vm_write32-writable :
    (p : Processor) (v : Vmcs) (f x : ℕ)
    → p.writable f ≡ true
    → vmcs_field_width f ≡ width_32
    → vm_write32 p v f x ≡ (set_field v f (normalize_controls p f x), true)
unfolding vm_write32
vm_write32-writable p v f x r w = rw (w, r) refl
