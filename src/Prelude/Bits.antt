-- ===== src/Prelude/Bits.antt =====
-- The bits of a native number: those of a conjunction, a disjunction and a complement.
use Prim.Native.Nat.{
  ℕ, zero, suc, ◌+◌, ◌-◌, ◌*◌, ◌/◌, ◌%◌, ◌^◌, ◌≤◌, ◌<◌, min, max, bit_and, bit_or, digits,
  bit_and-bitwise, bit_or-bitwise,
}
use mathlib.Core.Path.{◌≡◌, refl, ap, sym, ◌∙◌}
use mathlib.Core.Logic.{◌≢◌}
use mathlib.Core.Bool.{Bool, true, ◌&&◌}
use native.Mathlib.Omega.{arith}

-- The bit at a position, 0 or 1.
abbrev pub bit : ℕ → ℕ → ℕ
bit x zero = x % 2
bit x (suc i) = bit (x / 2) i

-- `~` on w bits.
abbrev pub complement : ℕ → ℕ → ℕ
complement w x = 2 ^ w - 1 - x

pub bit-bound : (x i : ℕ) → bit x i ≤ 1
bit-bound x zero = omega arith
bit-bound x (suc i) = bit-bound (x / 2) i

-- The lowest digit of an operation on digits, for any operation: the count of digits to go does not
-- matter as long as it is enough.
module _ (z : ℕ → ℕ) (op : ℕ → ℕ → ℕ) where
  digits-none : (k y : ℕ) → digits z op k zero y ≡ z y
  digits-none zero y = refl
  digits-none (suc k) y = refl

  digits-enough : (k l x y : ℕ) → x ≤ k → x ≤ l → digits z op k x y ≡ digits z op l x y
  digits-enough k l zero y i j = digits-none k y ∙ sym (digits-none l y)
  digits-enough zero l (suc x) y i j = absurd (omega arith)
  digits-enough (suc k) zero (suc x) y i j = absurd (omega arith)
  digits-enough (suc k) (suc l) (suc x) y i j =
      let halves = digits-enough k l (suc x / 2) (y / 2) (omega arith) (omega arith) in
      ap (λ d. d * 2 + op (suc x % 2) (y % 2)) halves

  digits_step :
      ((y : ℕ) → z y ≡ z (y / 2) * 2 + op 0 (y % 2))
      → (x y : ℕ) → digits z op x x y ≡ digits z op (x / 2) (x / 2) (y / 2) * 2 + op (x % 2) (y % 2)
  digits_step h zero y = h y
  digits_step h (suc x) y =
      let halves = digits-enough x (suc x / 2) (suc x / 2) (y / 2) (omega arith) (omega arith) in
      ap (λ d. d * 2 + op (suc x % 2) (y % 2)) halves

zero-bit_and : (b : ℕ) → bit_and 0 b ≡ 0
zero-bit_and b = bit_and-bitwise 0 b

zero-bit_or : (b : ℕ) → bit_or 0 b ≡ b
zero-bit_or b = bit_or-bitwise 0 b

pub bit_and_step : (a b : ℕ) → bit_and a b ≡ bit_and (a / 2) (b / 2) * 2 + min (a % 2) (b % 2)
bit_and_step a b =
    bit_and-bitwise a b
    ∙ (digits_step (λ y. 0) min (λ y. omega arith) a b
        ∙ ap (λ d. d * 2 + min (a % 2) (b % 2)) (sym (bit_and-bitwise (a / 2) (b / 2))))

pub bit_or_step : (a b : ℕ) → bit_or a b ≡ bit_or (a / 2) (b / 2) * 2 + max (a % 2) (b % 2)
bit_or_step a b =
    bit_or-bitwise a b
    ∙ (digits_step (λ y. y) max (λ y. omega arith) a b
        ∙ ap (λ d. d * 2 + max (a % 2) (b % 2)) (sym (bit_or-bitwise (a / 2) (b / 2))))

pub bit-bit_and : (a b i : ℕ) → bit (bit_and a b) i ≡ min (bit a i) (bit b i)
bit-bit_and a b zero = omega (arith, bit_and_step a b)
bit-bit_and a b (suc i) =
    let e : bit_and a b / 2 ≡ bit_and (a / 2) (b / 2) = omega (arith, bit_and_step a b) in
    rw e (bit-bit_and (a / 2) (b / 2) i)

pub bit-bit_or : (a b i : ℕ) → bit (bit_or a b) i ≡ max (bit a i) (bit b i)
bit-bit_or a b zero = omega (arith, bit_or_step a b)
bit-bit_or a b (suc i) =
    let e : bit_or a b / 2 ≡ bit_or (a / 2) (b / 2) = omega (arith, bit_or_step a b) in
    rw e (bit-bit_or (a / 2) (b / 2) i)

pub bit-complement : (w x i : ℕ) → x < 2 ^ w → i < w → bit (complement w x) i ≡ 1 - bit x i
bit-complement zero x i l h = absurd (omega arith)
bit-complement (suc w) x zero l h = omega arith
bit-complement (suc w) x (suc i) l h =
    let e : complement (suc w) x / 2 ≡ complement w (x / 2) = omega arith in
    rw e (bit-complement w (x / 2) i (omega arith) (omega arith))

pub bit_and-bound : (w a b : ℕ) → a < 2 ^ w → bit_and a b < 2 ^ w
bit_and-bound zero a b l = let e : a ≡ 0 = omega arith in rw e (omega (arith, zero-bit_and b))
bit_and-bound (suc w) a b l =
    omega (arith, bit_and_step a b, bit_and-bound w (a / 2) (b / 2) (omega arith))

pub bit_or-bound : (w a b : ℕ) → a < 2 ^ w → b < 2 ^ w → bit_or a b < 2 ^ w
bit_or-bound zero a b l h = let e : a ≡ 0 = omega arith in rw e (omega (arith, zero-bit_or b))
bit_or-bound (suc w) a b l h =
    omega (arith, bit_or_step a b, bit_or-bound w (a / 2) (b / 2) (omega arith) (omega arith))

pub bit-zero : (i : ℕ) → bit 0 i ≡ 0
bit-zero zero = refl
bit-zero (suc i) = bit-zero i

pub bit-power_self : (k : ℕ) → bit (2 ^ k) k ≡ 1
bit-power_self zero = refl
bit-power_self (suc k) = let e : 2 ^ suc k / 2 ≡ 2 ^ k = omega arith in rw e (bit-power_self k)

pub bit-power_ne : (k i : ℕ) → i ≢ k → bit (2 ^ k) i ≡ 0
bit-power_ne zero zero n = absurd (n refl)
bit-power_ne zero (suc i) n = bit-zero i
bit-power_ne (suc k) zero n = omega arith
bit-power_ne (suc k) (suc i) n =
    let e : 2 ^ suc k / 2 ≡ 2 ^ k = omega arith in rw e (bit-power_ne k i (λ q. n (omega arith)))

-- Whether a test holds of every number below a bound, and what that gives.
abbrev pub all_below : ℕ → (ℕ → Bool) → Bool
all_below zero test = true
all_below (suc bound) test = all_below bound test && test bound

pub all_below_sound :
    (bound : ℕ) (test : ℕ → Bool) (x : ℕ) → all_below bound test ≡ true → x < bound → test x ≡ true
all_below_sound zero test x all below = absurd (omega arith)
all_below_sound (suc bound) test x all below = ground (arith, all_below_sound bound test x)

power_positive : (w : ℕ) → 0 < 2 ^ w
power_positive zero = omega arith
power_positive (suc w) = omega (arith, power_positive w)

pub bit-ones : (w i : ℕ) → i < w → bit (2 ^ w - 1) i ≡ 1
bit-ones zero i l = absurd (omega arith)
bit-ones (suc w) zero l = omega (arith, power_positive w)
bit-ones (suc w) (suc i) l =
    let e : (2 ^ suc w - 1) / 2 ≡ 2 ^ w - 1 = omega (arith, power_positive w) in
    rw e (bit-ones w i (omega arith))

-- A conjunction with a mask of w bits reads the lowest w bits only.
abbrev pub low_bits : ℕ → ℕ → ℕ
low_bits zero x = 0
low_bits (suc w) x = low_bits w (x / 2) * 2 + x % 2

pub low_bits-bound : (w x : ℕ) → low_bits w x < 2 ^ w
low_bits-bound zero x = omega arith
low_bits-bound (suc w) x = omega (arith, low_bits-bound w (x / 2))

lt_power : (x : ℕ) → x < 2 ^ x
lt_power zero = omega arith
lt_power (suc x) = omega (arith, lt_power x)

bit_and-none : (w x : ℕ) → x < 2 ^ w → bit_and x 0 ≡ 0
bit_and-none zero x l = let e : x ≡ 0 = omega arith in rw e (zero-bit_and 0)
bit_and-none (suc w) x l = omega (arith, bit_and_step x 0, bit_and-none w (x / 2) (omega arith))

pub bit_and-low_bits : (w x m : ℕ) → m < 2 ^ w → bit_and x m ≡ bit_and (low_bits w x) m
bit_and-low_bits zero x m l = let e : m ≡ 0 = omega arith in rw e (bit_and-none x x (lt_power x))
bit_and-low_bits (suc w) x m l =
    let e : low_bits (suc w) x / 2 ≡ low_bits w (x / 2) = omega arith in
    let d : bit_and (low_bits (suc w) x / 2) (m / 2) ≡ bit_and (low_bits w (x / 2)) (m / 2) =
      ap (λ y. bit_and y (m / 2)) e in
    omega (
      arith,
      bit_and_step x m,
      bit_and_step (low_bits (suc w) x) m,
      d,
      bit_and-low_bits w (x / 2) (m / 2) (omega arith),
    )
