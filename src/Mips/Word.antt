-- ===== src/Mips/Word.antt =====
-- The arithmetic of C's 32-bit `int` and `unsigned int` that machine/mipssim.cc is written with, on
-- bit patterns below 2 ^ 32.
use csci350_project.Base.{
  ℕ, ◌+◌, ◌-◌, ◌*◌, ◌/◌, ◌%◌, ◌^◌, Bool, not, Option, none, some, ltb, ◌==◌, ◌&&◌, if◌then◌else◌,
}
use csci350_project.Mips.Mult.{is_negative, neg32}

abbrev pub sign_bit : ℕ
sign_bit = 0x80000000

abbrev pub add32 : ℕ → ℕ → ℕ
add32 a b = (a + b) % 2 ^ 32

abbrev pub sub32 : ℕ → ℕ → ℕ
sub32 a b = (a + 2 ^ 32 - b) % 2 ^ 32

abbrev pub shl32 : ℕ → ℕ → ℕ
shl32 a k = a * 2 ^ k % 2 ^ 32

-- `a >> k` for an `int`: copies of the sign bit come in from the left.
abbrev pub sra32 : ℕ → ℕ → ℕ
sra32 a k = a / 2 ^ k + (if is_negative a then 2 ^ 32 - 2 ^ 32 / 2 ^ k else 0)

-- `a < b` for `int`s.
abbrev pub signed_lt : ℕ → ℕ → Bool
signed_lt a b = ltb ((a + 2 ^ 31) % 2 ^ 32) ((b + 2 ^ 31) % 2 ^ 32)

abbrev pub magnitude32 : ℕ → ℕ
magnitude32 a = if is_negative a then neg32 a else a

abbrev pub with_sign : Bool → ℕ → ℕ
with_sign negative n = if negative then neg32 n else n

abbrev pub differ : Bool → Bool → Bool
differ a b = if a then not b else b

-- `a / b` and `a % b` for `int`s: the quotient is cut towards 0. The one quotient that does not fit,
-- -2 ^ 31 / -1, is undefined in C, and stops the host's process.
abbrev pub div32 : ℕ → ℕ → Option (ℕ × ℕ)
div32 a b =
    if a == 2 ^ 31 && b == 2 ^ 32 - 1
    then none
    else some (
      with_sign (differ (is_negative a) (is_negative b)) (magnitude32 a / magnitude32 b),
      with_sign (is_negative a) (magnitude32 a % magnitude32 b),
    )
