-- ===== src/Vmcs/Tsd.antt =====
-- The time-stamp-disable bit of CR4 under VmSetPrivilegedTimeStamp (src/vmcs.c) and the exits of
-- src/exits.c that follow: the guest runs with it set, and sees its own.
use deepshield.Prelude.{
  Option, none, some, ℕ, ◌<◌, min, Bool, ◌&&◌, ◌≡◌, refl, ◌==◌, if◌then◌else◌, word, bit,
  complement, bit-bound, bit-bit_and, bit-bit_or, bit-power_self, bit_and-bound, bit_or-bound,
  arith,
}
use Prim.Native.Nat.{bit_and, bit_or}
use deepshield.Vmx.{Vmcs, Processor, set_field, exit_instruction_length}
use deepshield.Vmx.Fields.{vm_read_n-register, vm_write_n-register, vm_write_n_ne, vm_write32_ne}
use deepshield.Vmcs.{
  Host, Guest, guest_cr4, cr4_guest_host_mask, cr4_read_shadow, exception_bitmap,
  exit_qualification, cr4_tsd, write_n, cr_number, access_type, move_gp, set_privileged_time_stamp,
  cr_access_handler,
}
use deepshield.Vmcs.Moves.{HasCr4, IsWide}

-- TSD is set in GUEST_CR4 and owned by the host; the value of it that the guest wrote last is in the
-- shadow.
pub record IsDeprivileged (v : Vmcs) (tsd : Option ℕ) : Type 0 where
  pub wide : IsWide v
  pub guest : bit (v guest_cr4) 2 ≡ 1
  pub mask : bit (v cr4_guest_host_mask) 2 ≡ 1
  pub shadow : (t : ℕ) → tsd ≡ some t → bit (v cr4_read_shadow) 2 ≡ t

-- The fields of CR4 are the same.
pub record IsSameCr4 (v v' : Vmcs) : Type 0 where
  pub guest : v' guest_cr4 ≡ v guest_cr4
  pub mask : v' cr4_guest_host_mask ≡ v cr4_guest_host_mask
  pub shadow : v' cr4_read_shadow ≡ v cr4_read_shadow

-- What the processor does for a guest: a move from CR4 takes the owned bits from the shadow, and a
-- move to CR4 that changes none of these loads the others without an exit.
abbrev pub read_cr4 : Vmcs → ℕ
read_cr4 v =
    bit_or (bit_and (v guest_cr4) (complement 64 (v cr4_guest_host_mask)))
      (bit_and (v cr4_read_shadow) (v cr4_guest_host_mask))

abbrev pub loaded_cr4 : Vmcs → ℕ → ℕ
loaded_cr4 v x =
    bit_or (bit_and x (complement 64 (v cr4_guest_host_mask)))
      (bit_and (v guest_cr4) (v cr4_guest_host_mask))

-- An exit for an access to a control register: what the processor and the entry code hand over.
pub record Access : Type 0 where
  pub qualification : ℕ
  pub instruction_length : ℕ
  pub gp : ℕ → ℕ
  pub rip : ℕ
  pub tf : Bool

abbrev pub at_exit : Guest → Access → Guest
at_exit g a = record g {
  vmcs =
      set_field (set_field g.vmcs exit_qualification a.qualification) exit_instruction_length
        a.instruction_length;
  gp = a.gp;
  rip = a.rip;
  tf = a.tf;
}

-- The TSD that the guest wrote last, after an exit.
abbrev pub own_tsd : Option ℕ → Access → Option ℕ
own_tsd tsd a =
    if (cr_number a.qualification == 4) && (access_type a.qualification == 0)
    then some (bit (a.gp (move_gp a.qualification)) 2)
    else tsd

-- A processor from VmSetPrivilegedTimeStamp on, with the TSD that its guest has written last, if
-- it has written CR4 since: loads of CR4 without an exit, exits for CR3 and CR4, and anything else that keeps the fields of CR4.
pub data Session (p : Processor) (h : Host) : Guest → Option ℕ → Type 0 where
  started :
      (g : Guest)
      → IsWide g.vmcs
      → Session p h (record g { vmcs = set_privileged_time_stamp p g.vmcs }) none
  loaded :
      {g : Guest} {tsd : Option ℕ} (x : ℕ)
      → Session p h g tsd
      → x < word
      → bit_and x (g.vmcs cr4_guest_host_mask)
        ≡ bit_and (g.vmcs cr4_read_shadow) (g.vmcs cr4_guest_host_mask)
      → Session p h
          (record g { vmcs = set_field g.vmcs guest_cr4 (loaded_cr4 g.vmcs x) })
          (some (bit x 2))
  exited :
      {g : Guest} {tsd : Option ℕ} (a : Access) (g' : Guest)
      → Session p h g tsd
      → ((n : ℕ) → a.gp n < word)
      → cr_access_handler p h (at_exit g a) ≡ some g'
      → Session p h g' (own_tsd tsd a)
  elsewhere :
      {g : Guest} {tsd : Option ℕ} (g' : Guest)
      → Session p h g tsd
      → IsSameCr4 g.vmcs g'.vmcs
      → Session p h g' tsd

pub same-IsDeprivileged :
    (v v' : Vmcs) (tsd : Option ℕ) → IsSameCr4 v v' → IsDeprivileged v tsd → IsDeprivileged v' tsd
same-IsDeprivileged v v' tsd s d = record {
  wide = record {
    guest = rw s.guest d.wide.guest;
    mask = rw s.mask d.wide.mask;
    shadow = rw s.shadow d.wide.shadow;
  };
  guest = rw s.guest d.guest;
  mask = rw s.mask d.mask;
  shadow = λ t e. rw s.shadow (d.shadow t e);
}

module _ (p : Processor) (v : Vmcs) (c : HasCr4 p) where
  start-guest : set_privileged_time_stamp p v guest_cr4 ≡ bit_or (v guest_cr4) cr4_tsd
  unfolding set_privileged_time_stamp
  start-guest =
      rw
        (
          vm_write32_ne p
              (write_n p (write_n p (write_n p v guest_cr4 _) cr4_guest_host_mask _) cr4_read_shadow
                _)
              exception_bitmap guest_cr4 _ (λ e. absurd (omega arith)),
          vm_write_n_ne p (write_n p (write_n p v guest_cr4 _) cr4_guest_host_mask _)
              cr4_read_shadow guest_cr4 _ (λ e. absurd (omega arith)),
          vm_write_n_ne p (write_n p v guest_cr4 _) cr4_guest_host_mask guest_cr4 _
              (λ e. absurd (omega arith)),
          vm_write_n-register p v guest_cr4 _ c.guest,
          vm_read_n-register p v guest_cr4 c.guest,
        )
        refl

  start-mask :
      set_privileged_time_stamp p v cr4_guest_host_mask ≡ bit_or (v cr4_guest_host_mask) cr4_tsd
  unfolding set_privileged_time_stamp
  start-mask =
      rw
        (
          vm_write32_ne p
              (write_n p (write_n p (write_n p v guest_cr4 _) cr4_guest_host_mask _) cr4_read_shadow
                _)
              exception_bitmap cr4_guest_host_mask _ (λ e. absurd (omega arith)),
          vm_write_n_ne p (write_n p (write_n p v guest_cr4 _) cr4_guest_host_mask _)
              cr4_read_shadow cr4_guest_host_mask _ (λ e. absurd (omega arith)),
          vm_write_n-register p (write_n p v guest_cr4 _) cr4_guest_host_mask _ c.mask,
          vm_read_n-register p (write_n p v guest_cr4 _) cr4_guest_host_mask c.mask,
          vm_write_n_ne p v guest_cr4 cr4_guest_host_mask _ (λ e. absurd (omega arith)),
        )
        refl

  start-shadow :
      set_privileged_time_stamp p v cr4_read_shadow
      ≡ bit_and (v cr4_read_shadow) (bit_and (v guest_cr4) cr4_tsd)
  unfolding set_privileged_time_stamp
  start-shadow =
      rw
        (
          vm_write32_ne p
              (write_n p (write_n p (write_n p v guest_cr4 _) cr4_guest_host_mask _) cr4_read_shadow
                _)
              exception_bitmap cr4_read_shadow _ (λ e. absurd (omega arith)),
          vm_write_n-register p (write_n p (write_n p v guest_cr4 _) cr4_guest_host_mask _)
              cr4_read_shadow _ c.shadow,
          vm_read_n-register p (write_n p (write_n p v guest_cr4 _) cr4_guest_host_mask _)
              cr4_read_shadow c.shadow,
          vm_write_n_ne p (write_n p v guest_cr4 _) cr4_guest_host_mask cr4_read_shadow _
              (λ e. absurd (omega arith)),
          vm_write_n_ne p v guest_cr4 cr4_read_shadow _ (λ e. absurd (omega arith)),
          vm_read_n-register p v guest_cr4 c.guest,
        )
        refl

  pub start-IsDeprivileged : IsWide v → IsDeprivileged (set_privileged_time_stamp p v) none
  start-IsDeprivileged w = record {
    wide = record {
      guest = rw start-guest (bit_or-bound 64 (v guest_cr4) cr4_tsd w.guest (omega arith));
      mask = rw start-mask (bit_or-bound 64 (v cr4_guest_host_mask) cr4_tsd w.mask (omega arith));
      shadow = rw start-shadow (bit_and-bound 64 (v cr4_read_shadow) _ w.shadow);
    };
    guest = rw start-guest (
        omega
          (arith, bit-bit_or (v guest_cr4) cr4_tsd 2, bit-power_self 2, bit-bound (v guest_cr4) 2));
    mask = rw start-mask (
        omega (
          arith,
          bit-bit_or (v cr4_guest_host_mask) cr4_tsd 2,
          bit-power_self 2,
          bit-bound (v cr4_guest_host_mask) 2,
        ));
    shadow = λ t e. absurd (ground (arith, e));
  }

  -- What the shadow's bit is right after the call.
  pub start_tsd :
      bit (set_privileged_time_stamp p v cr4_read_shadow) 2
      ≡ min (bit (v cr4_read_shadow) 2) (bit (v guest_cr4) 2)
  start_tsd = rw start-shadow (
      omega (
        arith,
        bit-bit_and (v cr4_read_shadow) (bit_and (v guest_cr4) cr4_tsd) 2,
        bit-bit_and (v guest_cr4) cr4_tsd 2,
        bit-power_self 2,
        bit-bound (v guest_cr4) 2,
      ))
