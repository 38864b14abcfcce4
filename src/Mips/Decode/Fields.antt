-- ===== src/Mips/Decode/Fields.antt =====
-- machine/mipssim.cc, `Instruction::Decode`: the fields of an instruction word.
use native.Mathlib.Nat.{pow-suc, mul_assoc, mul_comm}
use csci350_project.Base.{
  ℕ, zero, suc, ◌+◌, ◌-◌, ◌*◌, ◌/◌, ◌%◌, ◌^◌, ◌<◌, bit_or, ◌≡◌, refl, ◌∙◌, arith, leb,
  if◌then◌else◌,
}
use csci350_project.Base.Int.{pos, negsuc}
use csci350_project.Bits.{
  bit_ext, bit-bit_or, bit-lt-two, zero-bit, or_digit, bit_and-mask, bit_and-pow,
}
use csci350_project.Mips.Mult.Signed.{signed32}
use csci350_project.Mips.Decode.{ifmt, extra_of}

zero-bit_or : (a : ℕ) → bit_or 0 a ≡ a
zero-bit_or a =
    bit_ext (bit_or 0 a + a) _ _ (omega arith) (omega arith)
      (λ i. bit-bit_or i 0 a ∙ rw zero-bit (omega arith))

-- A number below a power of two, joined with a multiple of it.
bit_or-multiple : (k x y : ℕ) → x < 2 ^ k → bit_or x (2 ^ k * y) ≡ x + 2 ^ k * y
bit_or-multiple zero x y h = let e : x ≡ 0 = omega arith in rw e (zero-bit_or (1 * y) ∙ omega arith)
bit_or-multiple (suc k) x y h =
    let t = 2 ^ k * y in
    let e : 2 ^ suc k * y ≡ 2 * (2 ^ k * y) =
      rw (pow-suc 2 k, mul_comm (2 ^ k) 2, mul_assoc 2) refl in
    let half : (2 * (2 ^ k * y)) / 2 ≡ 2 ^ k * y = omega arith in
    let even : (2 * (2 ^ k * y)) % 2 ≡ 0 = omega arith in
    let rest = bit_or-multiple k (x / 2) y (omega (arith, pow-suc 2 k)) in
    rw (e, or_digit x (2 * (2 ^ k * y)), half, even, rest) (omega arith)

-- The immediate operand of an I-format word is its low sixteen bits with their sign extended.
pub signed-extra_of :
    (w : ℕ)
    → let low = w % 2 ^ 16 in
      signed32 (extra_of ifmt w) ≡ (if leb (2 ^ 15) low then negsuc (2 ^ 16 - 1 - low) else pos low)
unfolding extra_of
signed-extra_of w =
    rw (bit_and-mask 16 w, bit_and-pow (w % 2 ^ 16) 15)
      (ground
        (arith, bit_or-multiple 16 (w % 2 ^ 16) 0xffff (omega arith), bit-lt-two (w % 2 ^ 16) 15))
