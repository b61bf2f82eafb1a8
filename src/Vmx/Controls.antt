-- ===== src/Vmx/Controls.antt =====
-- VmWrite32 on a field of controls and VmxAllowed (src/vmx.c): the settings that the processor
-- allows.
use deepshield.Prelude.{
  ℕ, ◌-◌, ◌/◌, ◌%◌, ◌^◌, ◌<◌, ◌≤◌, min, max, true, false, not, ◌&&◌, Bool-cases, inl, inr, ◌≡◌,
  refl, word32, bit, bit-bound, bit-bit_and, bit-bit_or, bit-ones, arith,
}
use Prim.Native.Nat.{bit_and, bit_or}
use deepshield.Vmx.{
  Vmcs, Processor, Control, pin_based, proc_primary, proc_secondary, exit_controls, entry_controls,
  control_field, capability, is_secondary, has_secondary_control, low32, high32, normalize,
  normalize_controls, vmx_allowed, allowed_by, vm_write32,
}
use deepshield.Vmx.Fields.{set_field_self, vm_write32-writable}

-- The processor has the field. The low half of its register names the controls that must be 1, the
-- high half those that may be 1, so the first are among the second.
pub record HasControl (p : Processor) (c : Control) : Type 0 where
  pub writable : p.writable (control_field c) ≡ true
  pub secondary : is_secondary c ≡ true → has_secondary_control p ≡ true
  pub consistent :
      (i : ℕ) → i < 32 → bit (low32 (capability p c)) i ≤ bit (high32 (capability p c)) i

-- A control as the processor wants it: 1 where it must be, 0 where it may not be 1, and elsewhere
-- as asked for.
pub record IsSettled (required permitted asked written : ℕ) : Type 0 where
  pub must : required ≡ 1 → written ≡ 1
  pub may : permitted ≡ 0 → written ≡ 0
  pub free : required ≡ 0 → permitted ≡ 1 → written ≡ asked

normalize_controls-field :
    (p : Processor) (c : Control) (x : ℕ)
    → normalize_controls p (control_field c) x ≡ normalize p c x
unfolding normalize_controls
normalize_controls-field p pin_based x = refl
normalize_controls-field p proc_primary x = refl
normalize_controls-field p proc_secondary x = refl
normalize_controls-field p exit_controls x = refl
normalize_controls-field p entry_controls x = refl

control_width : (c : Control) → control_field c / 2 ^ 13 % 4 ≡ 2
control_width pin_based = refl
control_width proc_primary = refl
control_width proc_secondary = refl
control_width exit_controls = refl
control_width entry_controls = refl

-- The test that both functions make passes if the processor has the field.
has_field :
    (p : Processor) (c : Control)
    → HasControl p c
    → (is_secondary c && not (has_secondary_control p)) ≡ false
has_field p c k = elim (Bool-cases (is_secondary c)) [
  | inl e ↦ rw (e, k.secondary e) refl
  | inr e ↦ rw e refl
]

normalize-has :
    (p : Processor) (c : Control) (x : ℕ)
    → HasControl p c
    → normalize p c x ≡ bit_or (bit_and x (high32 (capability p c))) (low32 (capability p c))
normalize-has p c x k = rw (has_field p c k) refl

allowed-has :
    (p : Processor) (c : Control) → HasControl p c → vmx_allowed p c ≡ allowed_by (capability p c)
unfolding vmx_allowed
allowed-has p c k = rw (has_field p c k) refl

-- A field of 32 ones.
ones-bit_and : (x i : ℕ) → i < 32 → bit (bit_and (word32 - 1) x) i ≡ bit x i
ones-bit_and x i l = omega (arith, bit-bit_and (word32 - 1) x i, bit-ones 32 i l, bit-bound x i)

settled :
    (lo hi x w : ℕ)
    → lo ≤ hi
    → lo ≤ 1
    → hi ≤ 1
    → x ≤ 1
    → w ≡ max (min x hi) lo
    → IsSettled lo hi x w
settled lo hi x w a b c d e = record {
  must = λ q. omega arith;
  may = λ q. omega arith;
  free = λ q r. omega arith;
}

-- VmWrite32 to a field of controls that the processor has answers TRUE and writes each control as
-- the processor wants it, and only controls that VmxAllowed reports. The condition: the field is
-- there, and its register does not require a control that it does not allow.
pub vm_write32_lem :
    (p : Processor) (v : Vmcs) (c : Control) (x : ℕ)
    → HasControl p c
    → ((vm_write32 p v (control_field c) x).1 ≡ true)
      × ((i : ℕ)
          → i < 32
          → IsSettled
              (bit (low32 (capability p c)) i)
              (bit (high32 (capability p c)) i)
              (bit x i)
              (bit ((vm_write32 p v (control_field c) x).0 (control_field c)) i)
            × (bit ((vm_write32 p v (control_field c) x).0 (control_field c)) i
                ≤ bit (vmx_allowed p c) i))
vm_write32_lem p v c x k =
    let lo = low32 (capability p c) in
    let hi = high32 (capability p c) in
    rw
      (
        vm_write32-writable p v (control_field c) x k.writable (control_width c),
        normalize_controls-field p c x,
        normalize-has p c x k,
        allowed-has p c k,
        set_field_self v (control_field c) (bit_or (bit_and x hi) lo),
      )
      (
        refl,
        λ i l.
            let w : bit (bit_or (bit_and x hi) lo) i ≡ max (min (bit x i) (bit hi i)) (bit lo i) =
              rw (bit-bit_or (bit_and x hi) lo i, bit-bit_and x hi i) refl in
            (
              settled (bit lo i) (bit hi i) (bit x i) _ (k.consistent i l) (bit-bound lo i)
                  (bit-bound hi i) (bit-bound x i) w,
              omega (arith, w, bit-bit_or (bit_and (word32 - 1) hi) lo i, ones-bit_and hi i l),
            ),
      )
