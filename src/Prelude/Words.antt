-- ===== src/Prelude/Words.antt =====
-- Unsigned machine arithmetic of the x64 build: 64-bit SIZE_T, UINTN and pointers, 32-bit UINT32.
use Prim.Native.Nat.{ℕ, ◌+◌, ◌-◌, ◌*◌, ◌%◌, ◌^◌}
use mathlib.Core.Bool.{Bool}
use deepshield.Prelude.Tests.{ltb, if◌then◌else◌}

abbrev pub word : ℕ
word = 2 ^ 64

abbrev pub word32 : ℕ
word32 = 2 ^ 32

abbrev pub add64 : ℕ → ℕ → ℕ
add64 a b = (a + b) % word

-- `-` on ℕ stops at 0, so the modulus is added first.
abbrev pub sub64 : ℕ → ℕ → ℕ
sub64 a b = (a + (word - b % word)) % word

abbrev pub add32 : ℕ → ℕ → ℕ
add32 a b = (a + b) % word32

abbrev pub sub32 : ℕ → ℕ → ℕ
sub32 a b = (a + (word32 - b % word32)) % word32

abbrev pub mul32 : ℕ → ℕ → ℕ
mul32 a b = (a * b) % word32

-- The `int` casts of the code: a 32-bit pattern, read as a two's complement number.
abbrev pub to_int : ℕ → ℕ
to_int x = x % word32

-- `abs` on a pattern. C leaves the least `int` open; the compiler's routine returns it unchanged.
abbrev pub abs_int : ℕ → ℕ
abs_int w = if ltb w (2 ^ 31) then w else word32 - w

abbrev pub int_ltb : ℕ → ℕ → Bool
int_ltb a b = ltb ((a + 2 ^ 31) % word32) ((b + 2 ^ 31) % word32)

-- An `int` converted to UINT64: sign extension.
abbrev pub int_to_uint64 : ℕ → ℕ
int_to_uint64 w = if ltb w (2 ^ 31) then w else w + (word - word32)
