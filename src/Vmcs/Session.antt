-- ===== src/Vmcs/Session.antt =====
-- Sequences of moves to CR4 and exits after VmSetPrivilegedTimeStamp: src/exits.c, src/instr.c.
use deepshield.Prelude.{
  Option, none, some, ltb, sym, ◌∙◌, ℕ, ◌-◌, ◌<◌, min, max, true, ◌&&◌, Bool-cases, inl, inr, ◌≡◌,
  refl, ap, ◌==◌, if◌then◌else◌, word, bit, complement, bit-bound, bit-bit_and, bit-bit_or,
  bit-complement, bit_and-bound, bit_or-bound, arith,
}
use Prim.Native.Nat.{bit_and, bit_or}
use deepshield.Vmx.{Vmcs, Processor, set_field, vm_read_n, entry_interruption_information}
use deepshield.Vmx.Fields.{
  set_field_self, set_field_ne, vm_write_n_ne, vm_write32_ne, vm_read_n-readable,
}
use deepshield.Vmcs.{
  Host, Guest, guest_cr3, guest_cr4, cr4_guest_host_mask, cr4_read_shadow, exit_qualification,
  cr_number, access_type, move_gp, cr4_emulate, cr3_emulate, instr_rip_advance, cr_access_handler,
  access_control_register,
}
use deepshield.Vmcs.Moves.{HasCr4, Moved, move_to_cr4_lem}
use deepshield.Vmcs.Tsd.{
  IsDeprivileged, IsSameCr4, read_cr4, loaded_cr4, Access, at_exit, Session, started, loaded,
  exited, elsewhere, same-IsDeprivileged, start-IsDeprivileged,
}

bit-merge :
    (m a b i : ℕ)
    → m < word
    → i < 64
    → bit (bit_or (bit_and a (complement 64 m)) (bit_and b m)) i
      ≡ max (min (bit a i) (1 - bit m i)) (min (bit b i) (bit m i))
bit-merge m a b i l k =
    rw
      (
        bit-bit_or (bit_and a (complement 64 m)) (bit_and b m) i,
        bit-bit_and a (complement 64 m) i,
        bit-bit_and b m i,
        bit-complement 64 m i l k,
      )
      refl

loaded-IsDeprivileged :
    (v : Vmcs) (tsd : Option ℕ) (x : ℕ)
    → x < word
    → bit_and x (v cr4_guest_host_mask) ≡ bit_and (v cr4_read_shadow) (v cr4_guest_host_mask)
    → IsDeprivileged v tsd
    → IsDeprivileged (set_field v guest_cr4 (loaded_cr4 v x)) (some (bit x 2))
loaded-IsDeprivileged v tsd x l e d =
    let self = set_field_self v guest_cr4 (loaded_cr4 v x) in
    let mask =
      set_field_ne v guest_cr4 cr4_guest_host_mask (loaded_cr4 v x) (λ q. absurd (omega arith)) in
    let shadow =
      set_field_ne v guest_cr4 cr4_read_shadow (loaded_cr4 v x) (λ q. absurd (omega arith)) in
    let owned : bit (bit_and x (v cr4_guest_host_mask)) 2
        ≡ bit (bit_and (v cr4_read_shadow) (v cr4_guest_host_mask)) 2 =
      ap (λ y. bit y 2) e in
    record {
      wide = record {
        guest = rw self (
            bit_or-bound 64 _ _ (bit_and-bound 64 x _ l)
              (bit_and-bound 64 (v guest_cr4) _ d.wide.guest));
        mask = rw mask d.wide.mask;
        shadow = rw shadow d.wide.shadow;
      };
      guest = rw self (
          omega (
            arith,
            bit-merge (v cr4_guest_host_mask) x (v guest_cr4) 2 d.wide.mask (omega arith),
            d.mask,
            d.guest,
            bit-bound x 2,
          ));
      mask = rw mask d.mask;
      shadow = λ t q. rw shadow (
          ground (
            arith,
            q,
            owned,
            bit-bit_and x (v cr4_guest_host_mask) 2,
            bit-bit_and (v cr4_read_shadow) (v cr4_guest_host_mask) 2,
            d.mask,
            bit-bound x 2,
            bit-bound (v cr4_read_shadow) 2,
          ));
    }

Moved-IsDeprivileged :
    (p : Processor) (v v' : Vmcs) (tsd : Option ℕ) (x : ℕ)
    → Moved p v x v'
    → IsDeprivileged v tsd
    → IsDeprivileged v' (some (bit x 2))
Moved-IsDeprivileged p v v' tsd x m d = record {
  wide = m.wide;
  guest = omega (arith, m.guest_tsd, d.guest, bit-bound (v' guest_cr4) 2);
  mask = rw m.mask d.mask;
  shadow = λ t q. ground (arith, q, m.shadow_tsd);
}

same_refl : (v : Vmcs) → IsSameCr4 v v
same_refl v = record { guest = refl; mask = refl; shadow = refl }

at_exit-same : (g : Guest) (a : Access) → IsSameCr4 g.vmcs (at_exit g a).vmcs
at_exit-same g a = record { guest = refl; mask = refl; shadow = refl }

rip_advance-same : (p : Processor) (g : Guest) → IsSameCr4 g.vmcs (instr_rip_advance p g).vmcs
unfolding instr_rip_advance
rip_advance-same p g = elim (Bool-cases g.tf) [
  | inl e ↦ rw e (record {
    guest =
        vm_write32_ne p g.vmcs entry_interruption_information guest_cr4 _
          (λ q. absurd (omega arith));
    mask =
        vm_write32_ne p g.vmcs entry_interruption_information cr4_guest_host_mask _
          (λ q. absurd (omega arith));
    shadow =
        vm_write32_ne p g.vmcs entry_interruption_information cr4_read_shadow _
          (λ q. absurd (omega arith));
  })
  | inr e ↦ rw e (same_refl g.vmcs)
]

cr3_emulate-same : (p : Processor) (q : ℕ) (g : Guest) → IsSameCr4 g.vmcs (cr3_emulate p q g).vmcs
unfolding cr3_emulate
cr3_emulate-same p q g = elim (Bool-cases (access_type q == 0)) [
  | inl e ↦ rw e (record {
    guest = vm_write_n_ne p g.vmcs guest_cr3 guest_cr4 _ (λ q. absurd (omega arith));
    mask = vm_write_n_ne p g.vmcs guest_cr3 cr4_guest_host_mask _ (λ q. absurd (omega arith));
    shadow = vm_write_n_ne p g.vmcs guest_cr3 cr4_read_shadow _ (λ q. absurd (omega arith));
  })
  | inr e ↦ elim (Bool-cases (access_type q == 1)) [
    | inl d ↦ rw (e, d) (same_refl g.vmcs)
    | inr d ↦ rw (e, d) (same_refl g.vmcs)
  ]
]

cr4_emulate-IsDeprivileged :
    (p : Processor) (h : Host) (q : ℕ) (g : Guest) (tsd : Option ℕ)
    → HasCr4 p
    → ((n : ℕ) → g.gp n < word)
    → IsDeprivileged g.vmcs tsd
    → IsDeprivileged
        (cr4_emulate p h q g).vmcs
        (if access_type q == 0 then some (bit (g.gp (move_gp q)) 2) else tsd)
unfolding cr4_emulate
cr4_emulate-IsDeprivileged p h q g tsd c l d = elim (Bool-cases (access_type q == 0)) [
  | inl e ↦ rw e (
      Moved-IsDeprivileged p g.vmcs _ tsd (g.gp (move_gp q))
        (move_to_cr4_lem p h g.vmcs (g.gp (move_gp q)) c d.wide (l (move_gp q))) d)
  | inr e ↦ elim (Bool-cases (access_type q == 1)) [ inl k ↦ rw (e, k) d | inr k ↦ rw (e, k) d ]
]

access_control_register-IsDeprivileged :
    (p : Processor) (h : Host) (g : Guest) (q : ℕ) (tsd : Option ℕ)
    → HasCr4 p
    → ((n : ℕ) → g.gp n < word)
    → IsDeprivileged g.vmcs tsd
    → IsDeprivileged (access_control_register p h q g).vmcs (
        if (cr_number q == 4) && (access_type q == 0) then some (bit (g.gp (move_gp q)) 2) else tsd)
unfolding access_control_register
access_control_register-IsDeprivileged p h g q tsd c l d = elim (Bool-cases (cr_number q == 4)) [
  | inl e ↦ rw (e) (
      same-IsDeprivileged _ _ _ (rip_advance-same p (cr4_emulate p h q g))
        (cr4_emulate-IsDeprivileged p h q g tsd c l d))
  | inr e ↦ elim (Bool-cases (cr_number q == 3)) [
    | inl k ↦
        rw (e, k)
          (same-IsDeprivileged _ _ _ (rip_advance-same p (cr3_emulate p q g))
            (same-IsDeprivileged _ _ _ (cr3_emulate-same p q g) d))
    | inr k ↦ rw (e, k) (same-IsDeprivileged _ _ _ (rip_advance-same p g) d)
  ]
]

module _ (p : Processor) (h : Host) (c : HasCr4 p) (r : p.readable exit_qualification ≡ true) where
  read-qualification :
      (g : Guest) (a : Access) → vm_read_n p (at_exit g a).vmcs exit_qualification ≡ a.qualification
  read-qualification g a = vm_read_n-readable p (at_exit g a).vmcs exit_qualification r refl

  pub handler-result :
      (g : Guest) (a : Access)
      → cr_access_handler p h (at_exit g a) ≡ (
          if ltb 8 (cr_number a.qualification)
          then none
          else some (access_control_register p h a.qualification (at_exit g a)))
  unfolding cr_access_handler
  handler-result g a = rw (read-qualification g a) refl

  session-IsDeprivileged :
      {g : Guest} {tsd : Option ℕ} → Session p h g tsd → IsDeprivileged g.vmcs tsd
  session-IsDeprivileged (started g w) = start-IsDeprivileged p g.vmcs c w
  session-IsDeprivileged (loaded {g} {tsd} x s l e) =
      loaded-IsDeprivileged g.vmcs tsd x l e (session-IsDeprivileged s)
  session-IsDeprivileged (exited {g} {tsd} a g' s l e) =
      let d =
        access_control_register-IsDeprivileged p h (at_exit g a) a.qualification tsd c l
          (same-IsDeprivileged g.vmcs _ tsd (at_exit-same g a) (session-IsDeprivileged s)) in
      let handled = sym (handler-result g a) ∙ e in
      elim (Bool-cases (ltb 8 (cr_number a.qualification))) [
        | inl past ↦ let none_ = rw past at handled in absurd (ground (arith, none_))
        | inr few ↦
            let some_ = rw few at handled in
            let same : access_control_register p h a.qualification (at_exit g a) ≡ g' =
              ap (λ (o : Option Guest). elim o [ none ↦ g' | some x ↦ x ]) some_ in
            rw (sym same) d
      ]
  session-IsDeprivileged (elsewhere {g} {tsd} g' s e) =
      same-IsDeprivileged g.vmcs g'.vmcs tsd e (session-IsDeprivileged s)

  -- From VmSetPrivilegedTimeStamp on, after every sequence of loads of CR4, of exits for control
  -- registers and of steps that keep the fields of CR4, GUEST_CR4 has TSD set; and once the guest has
  -- written CR4 in that time, a move from CR4 shows it the TSD that it wrote last. The conditions: the
  -- processor accepts the fields of CR4 and the exit qualification, and the fields and registers hold
  -- 64 bits.
  pub guest_tsd :
      {g : Guest} {tsd : Option ℕ}
      → Session p h g tsd
      → (bit (g.vmcs guest_cr4) 2 ≡ 1) × ((t : ℕ) → tsd ≡ some t → bit (read_cr4 g.vmcs) 2 ≡ t)
  guest_tsd {g} {tsd} s =
      let d = session-IsDeprivileged s in
      (
        d.guest,
        λ t e. omega (
          arith,
          bit-merge (g.vmcs cr4_guest_host_mask) (g.vmcs guest_cr4) (g.vmcs cr4_read_shadow) 2
              d.wide.mask (omega arith),
          d.mask,
          d.shadow t e,
          bit-bound (g.vmcs guest_cr4) 2,
          bit-bound (g.vmcs cr4_read_shadow) 2,
        ),
      )
