-- ===== src/Vmcs/MsrBits.antt =====
-- The bitmap of intercepted registers that VmSetMsrBitsConfig writes (src/vmcs.c), as the processor
-- reads it.
use deepshield.Prelude.{
  ℕ, ◌+◌, ◌-◌, ◌*◌, ◌/◌, ◌%◌, ◌^◌, ◌<◌, ◌≤◌, Bool, true, false, ◌&&◌, ◌||◌, Bool-cases, inl, inr,
  ◌⊎◌, ◌≡◌, ◌≢◌, refl, sym, ◌∙◌, ◌==◌, ltb, leb, ltb→lt, if◌then◌else◌, if_self, bit, complement,
  bit-bound, bit-bit_and, bit-bit_or, bit-complement, bit-power_self, bit-power_ne, all_below_sound,
  none, some, arith,
}
use Prim.Native.Nat.{bit_and, bit_or}
use deepshield.Vmcs.{
  MsrBitmap, set_byte, bitarray_set, bitarray_clr, MsrAccess, no_access, write_access, read_access,
  read_write_access, set_msr_bit, set_msr_bits_config,
}

-- The bit at a position of the whole bitmap.
abbrev pub bit_at : MsrBitmap → ℕ → ℕ
bit_at m k = bit (m (k / 8)) (k % 8)

-- The position of a register's bit, from the offsets of the arrays of the low and the high ones.
abbrev pub position : (low high msr_id : ℕ) → ℕ
position low high msr_id =
    if leb msr_id 0x1FFF then low * 8 + msr_id else high * 8 + (msr_id - 0xC0000000)

-- The registers that the bitmap covers.
abbrev pub is_covered : ℕ → Bool
is_covered msr_id = leb msr_id 0x1FFF || (leb 0xC0000000 msr_id && leb msr_id 0xC0001FFF)

-- One bit has a value, and the others are as before.
pub record Written (m : MsrBitmap) (k value : ℕ) (m' : MsrBitmap) : Type 0 where
  pub self : bit_at m' k ≡ value
  pub others : (j : ℕ) → j ≢ k → bit_at m' j ≡ bit_at m j

power-bound : (k : ℕ) → k < 8 → 2 ^ k < 2 ^ 8
power-bound k l = ltb→lt _ _ (all_below_sound 8 (λ i. ltb (2 ^ i) (2 ^ 8)) k refl l)

-- A byte in which one bit is changed.
byte-Written :
    (m : MsrBitmap) (array n byte value : ℕ)
    → bit byte (n % 8) ≡ value
    → ((i : ℕ) → i < 8 → i ≢ n % 8 → bit byte i ≡ bit (m (array + n / 8)) i)
    → Written m (array * 8 + n) value (set_byte m (array + n / 8) byte)
byte-Written m array n byte value d e =
    let at : (array * 8 + n) / 8 ≡ array + n / 8 = omega arith in
    let offset : (array * 8 + n) % 8 ≡ n % 8 = omega arith in
    record {
      self = rw (at, offset, if_self (array + n / 8) byte (m (array + n / 8))) d;
      others = λ j q. elim (Bool-cases (j / 8 == array + n / 8)) [
        | inl h ↦
            let same : j / 8 ≡ array + n / 8 = ground arith in
            rw h (rw same (e (j % 8) (omega arith) (λ r. q (omega arith))))
        | inr h ↦ rw h refl
      ];
    }

set-Written : (m : MsrBitmap) (array n : ℕ) → Written m (array * 8 + n) 1 (bitarray_set m array n)
set-Written m array n =
    let b = m (array + n / 8) in
    byte-Written m array n (bit_or b (2 ^ (n % 8))) 1
      (omega
        (arith, bit-bit_or b (2 ^ (n % 8)) (n % 8), bit-power_self (n % 8), bit-bound b (n % 8)))
      (λ i l q. omega (arith, bit-bit_or b (2 ^ (n % 8)) i, bit-power_ne (n % 8) i q))

clr-Written : (m : MsrBitmap) (array n : ℕ) → Written m (array * 8 + n) 0 (bitarray_clr m array n)
clr-Written m array n =
    let b = m (array + n / 8) in
    let mask = 2 ^ (n % 8) in
    let small = power-bound (n % 8) (omega arith) in
    byte-Written m array n (bit_and b (complement 8 mask)) 0
      (omega (
        arith,
        bit-bit_and b (complement 8 mask) (n % 8),
        bit-complement 8 mask (n % 8) small (omega arith),
        bit-power_self (n % 8),
      ))
      (λ i l q. omega (
        arith,
        bit-bit_and b (complement 8 mask) i,
        bit-complement 8 mask i small l,
        bit-power_ne (n % 8) i q,
        bit-bound b i,
      ))

abbrev value_of : Bool → ℕ
value_of set = if set then 1 else 0

update-Written :
    (m : MsrBitmap) (array n : ℕ) (set : Bool)
    → Written m
        (array * 8 + n)
        (value_of set)
        (if set then bitarray_set m array n else bitarray_clr m array n)
update-Written m array n true = set-Written m array n
update-Written m array n false = clr-Written m array n

set_msr_bit_lem :
    (m : MsrBitmap) (low high msr_id : ℕ) (set : Bool)
    → is_covered msr_id ≡ true
    → (m' : MsrBitmap) × (set_msr_bit m low high msr_id set ≡ some m')
      × Written m (position low high msr_id) (value_of set) m'
unfolding set_msr_bit
set_msr_bit_lem m low high msr_id set c = elim (Bool-cases (leb msr_id 0x1FFF)) [
  | inl e ↦ (
    if set then bitarray_set m low msr_id else bitarray_clr m low msr_id,
    rw e refl,
    rw e (update-Written m low msr_id set),
  )
  | inr e ↦
      let f : (leb 0xC0000000 msr_id && leb msr_id 0xC0001FFF) ≡ true = ground arith in
      (
        if set
            then bitarray_set m high (msr_id - 0xC0000000)
            else bitarray_clr m high (msr_id - 0xC0000000),
        rw (e, f) refl,
        rw e (update-Written m high (msr_id - 0xC0000000) set),
      )
]

set_msr_bit-uncovered :
    (m : MsrBitmap) (low high msr_id : ℕ) (set : Bool)
    → is_covered msr_id ≡ false
    → set_msr_bit m low high msr_id set ≡ none
unfolding set_msr_bit
set_msr_bit-uncovered m low high msr_id set c =
    let e : leb msr_id 0x1FFF ≡ false = ground arith in
    let f : (leb 0xC0000000 msr_id && leb msr_id 0xC0001FFF) ≡ false = ground arith in
    rw (e, f) refl

-- Whether a write, or a read, of a register exits.
abbrev pub write_exits : MsrBitmap → ℕ → ℕ
write_exits m msr_id = bit_at m (position 2048 3072 msr_id)

abbrev pub read_exits : MsrBitmap → ℕ → ℕ
read_exits m msr_id = bit_at m (position 0 1024 msr_id)

abbrev pub asks_write : MsrAccess → Bool
asks_write no_access = false
asks_write read_access = false
asks_write _ = true

abbrev pub asks_read : MsrAccess → Bool
asks_read no_access = false
asks_read write_access = false
asks_read _ = true

-- Where the bit of a covered register is.
position-cases :
    (low high msr_id : ℕ)
    → is_covered msr_id ≡ true
    → ((msr_id ≤ 0x1FFF) × (position low high msr_id ≡ low * 8 + msr_id))
      ⊎ ((0xC0000000 ≤ msr_id)
          × (msr_id ≤ 0xC0001FFF)
          × (position low high msr_id ≡ high * 8 + (msr_id - 0xC0000000)))
position-cases low high msr_id c = elim (Bool-cases (leb msr_id 0x1FFF)) [
  | inl e ↦ inl (ground arith, rw e refl)
  | inr e ↦ inr (ground arith, ground arith, rw e refl)
]

position-ne :
    (low i j : ℕ)
    → is_covered i ≡ true
    → is_covered j ≡ true
    → j ≢ i
    → position low (low + 1024) j ≢ position low (low + 1024) i
position-ne low i j c d n e = elim (position-cases low (low + 1024) i c) [
  | inl (a, p) ↦ elim (position-cases low (low + 1024) j d) [
    | inl (b, q) ↦ n (omega arith)
    | inr (b, b', q) ↦ absurd (omega arith)
  ]
  | inr (a, a', p) ↦ elim (position-cases low (low + 1024) j d) [
    | inl (b, q) ↦ absurd (omega arith)
    | inr (b, b', q) ↦ n (omega arith)
  ]
]

read-bound : (i : ℕ) → is_covered i ≡ true → position 0 1024 i < 16384
read-bound i c = elim (position-cases 0 1024 i c) [
  | inl (a, p) ↦ omega arith
  | inr (a, b, p) ↦ omega arith
]

write-bound : (i : ℕ) → is_covered i ≡ true → 16384 ≤ position 2048 3072 i
write-bound i c = elim (position-cases 2048 3072 i c) [
  | inl (a, p) ↦ omega arith
  | inr (a, b, p) ↦ omega arith
]

-- A bitmap in which the exits for one register are changed as asked.
pub record Configured (m : MsrBitmap) (msr_id : ℕ) (access : MsrAccess) (set : Bool)
    (m' : MsrBitmap) : Type 0 where
  pub writes :
      (i : ℕ)
      → is_covered i ≡ true
      → write_exits m' i
        ≡ (if asks_write access && (i == msr_id) then value_of set else write_exits m i)
  pub reads :
      (i : ℕ)
      → is_covered i ≡ true
      → read_exits m' i
        ≡ (if asks_read access && (i == msr_id) then value_of set else read_exits m i)

-- One bit of the low or the high registers changes: the exits of that kind.
same_kind :
    (m m' : MsrBitmap) (low msr_id value i : ℕ)
    → is_covered msr_id ≡ true
    → is_covered i ≡ true
    → Written m (position low (low + 1024) msr_id) value m'
    → bit_at m' (position low (low + 1024) i)
      ≡ (if i == msr_id then value else bit_at m (position low (low + 1024) i))
same_kind m m' low msr_id value i c d w = elim (Bool-cases (i == msr_id)) [
  | inl e ↦ let q : i ≡ msr_id = ground arith in rw (e, q) w.self
  | inr e ↦
      let n : i ≢ msr_id = λ q. absurd (ground arith) in
      rw e (w.others _ (position-ne low msr_id i c d n))
]

write-Configured :
    (m m' : MsrBitmap) (msr_id : ℕ) (set : Bool)
    → is_covered msr_id ≡ true
    → Written m (position 2048 3072 msr_id) (value_of set) m'
    → Configured m msr_id write_access set m'
write-Configured m m' msr_id set c w = record {
  writes = λ i d. same_kind m m' 2048 msr_id (value_of set) i c d w;
  reads = λ i d.
      w.others (position 0 1024 i)
        (λ e. absurd (omega (arith, e, read-bound i d, write-bound msr_id c)));
}

read-Configured :
    (m m' : MsrBitmap) (msr_id : ℕ) (set : Bool)
    → is_covered msr_id ≡ true
    → Written m (position 0 1024 msr_id) (value_of set) m'
    → Configured m msr_id read_access set m'
read-Configured m m' msr_id set c w = record {
  writes = λ i d.
      w.others (position 2048 3072 i)
        (λ e. absurd (omega (arith, e, write-bound i d, read-bound msr_id c)));
  reads = λ i d. same_kind m m' 0 msr_id (value_of set) i c d w;
}

both-Configured :
    (m m1 m2 : MsrBitmap) (msr_id : ℕ) (set : Bool)
    → Configured m msr_id write_access set m1
    → Configured m1 msr_id read_access set m2
    → Configured m msr_id read_write_access set m2
both-Configured m m1 m2 msr_id set a b = record {
  writes = λ i d. b.writes i d ∙ a.writes i d;
  reads = λ i d. rw (sym (a.reads i d)) (b.reads i d);
}

-- VmSetMsrBitsConfig for a register that the bitmap covers makes the asked kinds of access to it
-- exit, or not exit, and leaves those to every other register and the other kind as they were; for
-- any other register it answers STATUS_NOT_FOUND, unless no access is asked for: then it answers
-- STATUS_SUCCESS and the bitmap stays.
pub set_msr_bits_config_lem :
    (m : MsrBitmap) (msr_id : ℕ) (access : MsrAccess) (set : Bool)
    → ((is_covered msr_id ≡ true)
        × (m' : MsrBitmap) × (set_msr_bits_config m msr_id access set ≡ some m')
        × Configured m msr_id access set m')
      ⊎ ((is_covered msr_id ≡ false)
          × (access ≢ no_access)
          × (set_msr_bits_config m msr_id access set ≡ none))
      ⊎ ((is_covered msr_id ≡ false)
          × (access ≡ no_access)
          × (set_msr_bits_config m msr_id access set ≡ some m))
unfolding set_msr_bits_config
set_msr_bits_config_lem m msr_id no_access set = elim (Bool-cases (is_covered msr_id)) [
  | inl c ↦ inl (c, m, refl, record { writes = λ i d. refl; reads = λ i d. refl })
  | inr c ↦ inr (inr (c, refl, refl))
]
set_msr_bits_config_lem m msr_id write_access set = elim (Bool-cases (is_covered msr_id)) [
  | inl c ↦
      let (m', e, w) = set_msr_bit_lem m 2048 3072 msr_id set c in
      inl (c, m', rw (set_msr_bits_config, e) refl, write-Configured m m' msr_id set c w)
  | inr c ↦ inr (
      inl (
        c,
        λ q. absurd (ground (arith, q)),
        rw (set_msr_bits_config, set_msr_bit-uncovered m 2048 3072 msr_id set c) refl,
      ))
]
set_msr_bits_config_lem m msr_id read_access set = elim (Bool-cases (is_covered msr_id)) [
  | inl c ↦
      let (m', e, w) = set_msr_bit_lem m 0 1024 msr_id set c in
      inl (c, m', e, read-Configured m m' msr_id set c w)
  | inr c ↦
      inr (inl (c, λ q. absurd (ground (arith, q)), set_msr_bit-uncovered m 0 1024 msr_id set c))
]
set_msr_bits_config_lem m msr_id read_write_access set = elim (Bool-cases (is_covered msr_id)) [
  | inl c ↦
      let (m1, e, w) = set_msr_bit_lem m 2048 3072 msr_id set c in
      let (m2, d, u) = set_msr_bit_lem m1 0 1024 msr_id set c in
      inl (
        c,
        m2,
        rw (set_msr_bits_config, e) d,
        both-Configured m m1 m2 msr_id set (write-Configured m m1 msr_id set c w)
            (read-Configured m1 m2 msr_id set c u),
      )
  | inr c ↦ inr (
      inl (
        c,
        λ q. absurd (ground (arith, q)),
        rw (set_msr_bits_config, set_msr_bit-uncovered m 2048 3072 msr_id set c) refl,
      ))
]
