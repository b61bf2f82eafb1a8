-- ===== src/Vmcs/Moves.antt =====
-- The emulated move to CR4 in src/instr.c, bit by bit.
use deepshield.Prelude.{
  ℕ, ◌-◌, ◌%◌, ◌<◌, ◌≤◌, min, max, Bool, true, false, ◌≡◌, ◌≢◌, refl, ◌==◌, if◌then◌else◌, word,
  bit, complement, bit-bound, bit-bit_and, bit-bit_or, bit-complement, bit-power_self, bit-power_ne,
  bit_and-bound, bit_or-bound, arith,
}
use Prim.Native.Nat.{bit_and, bit_or}
use deepshield.Vmx.{Vmcs, Processor}
use deepshield.Vmx.Fields.{IsRegister, vm_read_n-register, vm_write_n-register, vm_write_n_ne}
use deepshield.Vmcs.{
  Host, guest_cr4, host_cr4, cr4_guest_host_mask, cr4_read_shadow, cr4_tsd, cr4_osxsave, write_n,
  cr4_fixed0, cr4_fixed1, make_compliant_cr4, get_guest_visible_cr4, track_osxsave, move_to_cr4,
}

-- The processor lets the three fields of CR4 be read and written.
pub record HasCr4 (p : Processor) : Type 0 where
  pub guest : IsRegister p guest_cr4
  pub mask : IsRegister p cr4_guest_host_mask
  pub shadow : IsRegister p cr4_read_shadow

-- The three fields hold 64 bits.
pub record IsWide (v : Vmcs) : Type 0 where
  pub guest : v guest_cr4 < word
  pub mask : v cr4_guest_host_mask < word
  pub shadow : v cr4_read_shadow < word

-- A bit of one of two values, by a bit of the mask.
abbrev pub choose : (owned ours theirs : ℕ) → ℕ
choose owned ours theirs = max (min theirs (1 - owned)) (min ours owned)

-- What a move to CR4 leaves.
pub record Moved (p : Processor) (v : Vmcs) (operand : ℕ) (v' : Vmcs) : Type 0 where
  pub wide : IsWide v'
  pub guest :
      (i : ℕ)
      → i < 64
      → i ≢ 2
      → bit (v' guest_cr4) i
        ≡ max
            (min
              (choose (bit (v cr4_guest_host_mask) i) (bit (v cr4_read_shadow) i) (bit operand i))
              (bit (cr4_fixed0 p) i))
            (bit (cr4_fixed1 p) i)
  pub guest_tsd : bit (v guest_cr4) 2 ≤ bit (v' guest_cr4) 2
  pub mask : v' cr4_guest_host_mask ≡ v cr4_guest_host_mask
  pub shadow : (i : ℕ) → i < 64 → i ≢ 2 → bit (v' cr4_read_shadow) i ≡ bit (v cr4_read_shadow) i
  pub shadow_tsd : bit (v' cr4_read_shadow) 2 ≡ bit operand 2

tsd_bound : cr4_tsd < word
tsd_bound = omega arith

bit-visible :
    (p : Processor) (v : Vmcs) (x i : ℕ)
    → HasCr4 p
    → IsWide v
    → i < 64
    → bit (get_guest_visible_cr4 p v x) i
      ≡ choose (bit (v cr4_guest_host_mask) i) (bit (v cr4_read_shadow) i) (bit x i)
unfolding get_guest_visible_cr4
bit-visible p v x i c w l =
    rw
      (
        vm_read_n-register p v cr4_guest_host_mask c.mask,
        vm_read_n-register p v cr4_read_shadow c.shadow,
        bit-bit_or (bit_and x (complement 64 (v cr4_guest_host_mask)))
            (bit_and (v cr4_read_shadow) (v cr4_guest_host_mask)) i,
        bit-bit_and x (complement 64 (v cr4_guest_host_mask)) i,
        bit-bit_and (v cr4_read_shadow) (v cr4_guest_host_mask) i,
        bit-complement 64 (v cr4_guest_host_mask) i w.mask l,
      )
      refl

bit-compliant :
    (p : Processor) (x i : ℕ)
    → bit (make_compliant_cr4 p x) i
      ≡ max (min (bit x i) (bit (cr4_fixed0 p) i)) (bit (cr4_fixed1 p) i)
unfolding make_compliant_cr4
bit-compliant p x i =
    rw (bit-bit_or (bit_and x (cr4_fixed0 p)) (cr4_fixed1 p) i, bit-bit_and x (cr4_fixed0 p) i) refl

visible-bound :
    (p : Processor) (v : Vmcs) (x : ℕ)
    → HasCr4 p
    → IsWide v
    → x < word
    → get_guest_visible_cr4 p v x < word
unfolding get_guest_visible_cr4
visible-bound p v x c w l =
    rw
      (
        vm_read_n-register p v cr4_guest_host_mask c.mask,
        vm_read_n-register p v cr4_read_shadow c.shadow,
      )
      (bit_or-bound 64 _ _ (bit_and-bound 64 x _ l)
        (bit_and-bound 64 (v cr4_read_shadow) _ w.shadow))

compliant-bound : (p : Processor) (x : ℕ) → x < word → make_compliant_cr4 p x < word
unfolding make_compliant_cr4
compliant-bound p x l =
    bit_or-bound 64 _ _ (bit_and-bound 64 x _ l)
      (bit_and-bound 64 (p.msr 0x488 % word) _ (omega arith))

-- The shadow after its last bit is set from the operand.
bit-new_shadow :
    (s x i : ℕ)
    → i < 64
    → bit (bit_or (bit_and s (complement 64 cr4_tsd)) (bit_and x cr4_tsd)) i
      ≡ max (min (bit s i) (1 - bit cr4_tsd i)) (min (bit x i) (bit cr4_tsd i))
bit-new_shadow s x i l =
    rw
      (
        bit-bit_or (bit_and s (complement 64 cr4_tsd)) (bit_and x cr4_tsd) i,
        bit-bit_and s (complement 64 cr4_tsd) i,
        bit-bit_and x cr4_tsd i,
        bit-complement 64 cr4_tsd i tsd_bound l,
      )
      refl

pick : (b : Bool) (q r : Vmcs) (g x : ℕ) → q g ≡ x → r g ≡ x → (if b then q else r) g ≡ x
pick true q r g x d e = d
pick false q r g x d e = e

track_osxsave_ne :
    (p : Processor) (h : Host) (v : Vmcs) (cr4 g : ℕ)
    → g ≢ host_cr4
    → track_osxsave p h v cr4 g ≡ v g
unfolding track_osxsave
track_osxsave_ne p h v cr4 g n =
    pick (bit cr4 18 == 1) _ _ g (v g)
      (pick h.is_x_state_supported _ _ g (v g)
        (vm_write_n_ne p v host_cr4 g (bit_or h.cr4 cr4_osxsave) n) refl)
      (vm_write_n_ne p v host_cr4 g (bit_and h.cr4 (complement 64 cr4_osxsave)) n)

module _ (p : Processor) (h : Host) (v : Vmcs) (x : ℕ) (c : HasCr4 p) where
  move_to_cr4-guest :
      move_to_cr4 p h v x guest_cr4
      ≡ bit_or (make_compliant_cr4 p (get_guest_visible_cr4 p v x)) (bit_and (v guest_cr4) cr4_tsd)
  unfolding move_to_cr4
  move_to_cr4-guest =
      rw
        (
          vm_write_n_ne p (track_osxsave p h (write_n p v guest_cr4 _) _) cr4_read_shadow guest_cr4
              _ (λ e. absurd (omega arith)),
          track_osxsave_ne p h (write_n p v guest_cr4 _) _ guest_cr4 (λ e. absurd (omega arith)),
          vm_write_n-register p v guest_cr4 _ c.guest,
          vm_read_n-register p v guest_cr4 c.guest,
        )
        refl

  move_to_cr4-mask : move_to_cr4 p h v x cr4_guest_host_mask ≡ v cr4_guest_host_mask
  unfolding move_to_cr4
  move_to_cr4-mask =
      rw
        (
          vm_write_n_ne p (track_osxsave p h (write_n p v guest_cr4 _) _) cr4_read_shadow
              cr4_guest_host_mask _ (λ e. absurd (omega arith)),
          track_osxsave_ne p h (write_n p v guest_cr4 _) _ cr4_guest_host_mask
              (λ e. absurd (omega arith)),
          vm_write_n_ne p v guest_cr4 cr4_guest_host_mask _ (λ e. absurd (omega arith)),
        )
        refl

  move_to_cr4-shadow :
      move_to_cr4 p h v x cr4_read_shadow
      ≡ bit_or (bit_and (v cr4_read_shadow) (complement 64 cr4_tsd)) (bit_and x cr4_tsd)
  unfolding move_to_cr4
  move_to_cr4-shadow =
      rw
        (
          vm_write_n-register p (track_osxsave p h (write_n p v guest_cr4 _) _) cr4_read_shadow _
              c.shadow,
          vm_read_n-register p (track_osxsave p h (write_n p v guest_cr4 _) _) cr4_read_shadow
              c.shadow,
          track_osxsave_ne p h (write_n p v guest_cr4 _) _ cr4_read_shadow
              (λ e. absurd (omega arith)),
          vm_write_n_ne p v guest_cr4 cr4_read_shadow _ (λ e. absurd (omega arith)),
        )
        refl

  module _ (w : IsWide v) (l : x < word) where
    moved-IsWide : IsWide (move_to_cr4 p h v x)
    moved-IsWide = record {
      guest = rw move_to_cr4-guest (
          bit_or-bound 64 _ _ (compliant-bound p _ (visible-bound p v x c w l))
            (bit_and-bound 64 (v guest_cr4) cr4_tsd w.guest));
      mask = rw move_to_cr4-mask w.mask;
      shadow = rw move_to_cr4-shadow (
          bit_or-bound 64 _ _ (bit_and-bound 64 (v cr4_read_shadow) _ w.shadow)
            (bit_and-bound 64 x cr4_tsd l));
    }

    moved-guest :
        (i : ℕ)
        → i < 64
        → bit (move_to_cr4 p h v x guest_cr4) i
          ≡ max
              (max
                (min
                  (choose (bit (v cr4_guest_host_mask) i) (bit (v cr4_read_shadow) i) (bit x i))
                  (bit (cr4_fixed0 p) i))
                (bit (cr4_fixed1 p) i))
              (min (bit (v guest_cr4) i) (bit cr4_tsd i))
    moved-guest i k =
        rw
          (
            move_to_cr4-guest,
            bit-bit_or (make_compliant_cr4 p (get_guest_visible_cr4 p v x))
                (bit_and (v guest_cr4) cr4_tsd) i,
            bit-bit_and (v guest_cr4) cr4_tsd i,
            bit-compliant p (get_guest_visible_cr4 p v x) i,
            bit-visible p v x i c w k,
          )
          refl

    moved-shadow :
        (i : ℕ)
        → i < 64
        → bit (move_to_cr4 p h v x cr4_read_shadow) i
          ≡ max
              (min (bit (v cr4_read_shadow) i) (1 - bit cr4_tsd i))
              (min (bit x i) (bit cr4_tsd i))
    moved-shadow i k = rw move_to_cr4-shadow (bit-new_shadow (v cr4_read_shadow) x i k)

    -- A move to CR4 that exits leaves in GUEST_CR4 the operand's bits where the guest owns them and
    -- the shadow's where the host does, with the bits that the processor fixes, and never clears
    -- TSD there. The mask stays, and of the shadow TSD becomes the operand's. The condition: the
    -- processor accepts the three fields, and they and the operand hold 64 bits.
    pub move_to_cr4_lem : Moved p v x (move_to_cr4 p h v x)
    move_to_cr4_lem = record {
      wide = moved-IsWide;
      guest =
          λ i k n. omega (arith, moved-guest i k, bit-power_ne 2 i n, bit-bound (cr4_fixed1 p) i);
      guest_tsd =
          omega (arith, moved-guest 2 (omega arith), bit-power_self 2, bit-bound (v guest_cr4) 2);
      mask = move_to_cr4-mask;
      shadow = λ i k n.
          omega (arith, moved-shadow i k, bit-power_ne 2 i n, bit-bound (v cr4_read_shadow) i);
      shadow_tsd = omega (arith, moved-shadow 2 (omega arith), bit-power_self 2, bit-bound x 2);
    }
