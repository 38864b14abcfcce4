-- ===== src/Mips/Mult/Signed.antt =====
-- `Mult` of machine/mipssim.cc against multiplication of numbers and of integers.
use csci350_project.Base.{
  ℕ, zero, suc, ◌+◌, ◌-◌, ◌*◌, ◌%◌, ◌^◌, ◌≤◌, ◌<◌, ◌≡◌, ◌∙◌, Bool, true, false, arith, leb, ◌==◌,
  if◌then◌else◌, inl, inr, Bool-cases, not, ◌||◌,
}
use csci350_project.Base.Int.{ℤ, pos, negsuc, ◌*ℤ◌, sub_ℕ, pos_part, neg_part}
use csci350_project.Mips.Mult.{Wide, is_negative, neg32, mult_loop, negate_wide, flip_if, mult}
use csci350_project.Mips.Mult.Product.{value, IsWide, mult_loop_lem}

-- The loop on the two factors as `Mult` starts it.
abbrev pub product : ℕ → ℕ → Wide
product a b = mult_loop 32 a (record { hi = 0; lo = b }) (record { hi = 0; lo = 0 })

product_lem :
    (a b : ℕ) → a < 2 ^ 32 → b < 2 ^ 32 → IsWide (product a b) × (value (product a b) ≡ a * b)
product_lem a b ha hb =
    let whole : a % 2 ^ 32 ≡ a = omega arith in
    let small : a * b < 2 ^ 64 = grind arith in
    let (w, v) =
      mult_loop_lem 32 a (record { hi = 0; lo = b }) (record { hi = 0; lo = 0 }) (omega arith) ha
        (record { hi_word = omega arith; lo_word = hb })
        (record { hi_word = omega arith; lo_word = omega arith }) (omega arith)
        (rw whole (omega arith)) in
    (w, v ∙ rw whole (omega arith))

negate_wide_lem :
    (x : Wide)
    → IsWide x
    → IsWide (negate_wide x) × (value (negate_wide x) ≡ (2 ^ 64 - value x) % 2 ^ 64)
unfolding negate_wide
negate_wide_lem x w = ground arith

zero_product : (a b : ℕ) → (a == 0 || b == 0) ≡ true → 0 ≡ a * b
zero_product zero b h = omega arith
zero_product (suc a) zero h = omega arith
zero_product (suc a) (suc b) h = absurd (ground arith)

-- Unsigned, for two words below 2 ^ 32: the two words of the answer hold the product, all 64 bits of
-- it, and are below 2 ^ 32 too.
pub mult-unsigned :
    (a b : ℕ) → a < 2 ^ 32 → b < 2 ^ 32 → (value (mult a b false) ≡ a * b) × IsWide (mult a b false)
unfolding mult
mult-unsigned a b ha hb =
    let (w, v) = product_lem a b ha hb in
    elim (Bool-cases (a == 0 || b == 0)) [
      | inl z ↦ rw z (zero_product a b z, record { hi_word = omega arith; lo_word = omega arith })
      | inr nz ↦ rw nz (v, w)
    ]

-- The integer that a bit pattern of 32 or of 64 bits stands for.
abbrev pub signed32 : ℕ → ℤ
signed32 w = if leb (2 ^ 31) w then negsuc (2 ^ 32 - w - 1) else pos w

abbrev pub signed64 : ℕ → ℤ
signed64 w = if leb (2 ^ 63) w then negsuc (2 ^ 64 - w - 1) else pos w

signed64_pos : (v s t : ℕ) → v < 2 ^ 63 → s ≡ v → t ≡ 0 → signed64 v ≡ sub_ℕ s t
signed64_pos v s t h p q = ground arith

signed64_neg :
    (p v s t : ℕ) → p < 2 ^ 63 → v ≡ (2 ^ 64 - p) % 2 ^ 64 → s ≡ 0 → t ≡ p → signed64 v ≡ sub_ℕ s t
signed64_neg p v s t h e q r = ground arith

magnitude : (a b : ℕ) → a ≤ 2 ^ 31 → b ≤ 2 ^ 31 → a * b < 2 ^ 63
magnitude a b h k = grind arith

abbrev abs32 : ℕ → ℕ
abs32 a = if is_negative a then neg32 a else a

abs32-le : (a : ℕ) → a < 2 ^ 32 → abs32 a ≤ 2 ^ 31
abs32-le a h = ground arith

signed32_parts :
    (a : ℕ)
    → a < 2 ^ 32
    → (pos_part (signed32 a) ≡ (if is_negative a then 0 else abs32 a))
      × (neg_part (signed32 a) ≡ (if is_negative a then abs32 a else 0))
signed32_parts a h = ground arith

-- The two parts of the product of two integers, from their signs and magnitudes.
abbrev part : Bool → Bool → ℕ → ℕ → ℕ
part na nb x y =
    (if na then 0 else x) * (if nb then 0 else y) + (if na then x else 0) * (if nb then y else 0)

abbrev answer : Bool → Wide → Wide
answer negative w = if negative then negate_wide w else w

signs :
    (na nb : Bool) (x y : ℕ) (w : Wide)
    → x * y < 2 ^ 63
    → IsWide w
    → value w ≡ x * y
    → signed64 (value (answer (flip_if nb (flip_if na false)) w))
      ≡ sub_ℕ (part na nb x y) (part na (not nb) x y)
signs true true x y w h iw v = signed64_pos _ _ _ (omega arith) (omega arith) (omega arith)
signs true false x y w h iw v =
    signed64_neg (x * y) _ _ _ h ((negate_wide_lem w iw).1 ∙ rw v) (omega arith) (omega arith)
signs false true x y w h iw v =
    signed64_neg (x * y) _ _ _ h ((negate_wide_lem w iw).1 ∙ rw v) (omega arith) (omega arith)
signs false false x y w h iw v = signed64_pos _ _ _ (omega arith) (omega arith) (omega arith)

zero_signs :
    (na nb : Bool) (x y : ℕ)
    → x * y ≡ 0
    → signed64 0 ≡ sub_ℕ (part na nb x y) (part na (not nb) x y)
zero_signs true true x y h = signed64_pos 0 _ _ (omega arith) (omega arith) (omega arith)
zero_signs true false x y h = signed64_pos 0 _ _ (omega arith) (omega arith) (omega arith)
zero_signs false true x y h = signed64_pos 0 _ _ (omega arith) (omega arith) (omega arith)
zero_signs false false x y h = signed64_pos 0 _ _ (omega arith) (omega arith) (omega arith)

zero_abs : (a b : ℕ) → (a == 0 || b == 0) ≡ true → abs32 a * abs32 b ≡ 0
zero_abs zero b h = omega arith
zero_abs (suc a) zero h = omega arith
zero_abs (suc a) (suc b) h = absurd (ground arith)

from_parts :
    (na nb : Bool) (x y p q r s : ℕ)
    → p ≡ (if na then 0 else x)
    → q ≡ (if na then x else 0)
    → r ≡ (if nb then 0 else y)
    → s ≡ (if nb then y else 0)
    → sub_ℕ (p * r + q * s) (p * s + q * r) ≡ sub_ℕ (part na nb x y) (part na (not nb) x y)
from_parts na true x y p q r s hp hq hr hs = rw (hp, hq, hr, hs)
from_parts na false x y p q r s hp hq hr hs = rw (hp, hq, hr, hs)

parts-*ℤ :
    (a b : ℕ)
    → a < 2 ^ 32
    → b < 2 ^ 32
    → signed32 a *ℤ signed32 b
      ≡ sub_ℕ
          (part (is_negative a) (is_negative b) (abs32 a) (abs32 b))
          (part (is_negative a) (not (is_negative b)) (abs32 a) (abs32 b))
unfolding ◌*ℤ◌
parts-*ℤ a b ha hb =
    let (pa, qa) = signed32_parts a ha in
    let (pb, qb) = signed32_parts b hb in
    from_parts (is_negative a) (is_negative b) (abs32 a) (abs32 b) (pos_part (signed32 a))
      (neg_part (signed32 a)) (pos_part (signed32 b)) (neg_part (signed32 b)) pa qa pb qb

-- Signed, for two words below 2 ^ 32: read as one integer of 64 bits, the two words of the answer hold
-- the product of the two integers.
pub mult-signed :
    (a b : ℕ)
    → a < 2 ^ 32
    → b < 2 ^ 32
    → signed64 (value (mult a b true)) ≡ signed32 a *ℤ signed32 b
unfolding mult
mult-signed a b ha hb =
    let la = abs32-le a ha in
    let lb = abs32-le b hb in
    let (w, v) = product_lem (abs32 a) (abs32 b) (omega arith) (omega arith) in
    rw (parts-*ℤ a b ha hb) (elim (Bool-cases (a == 0 || b == 0)) [
      | inl z ↦
          rw z (zero_signs (is_negative a) (is_negative b) (abs32 a) (abs32 b) (zero_abs a b z))
      | inr nz ↦ rw nz (
          signs (is_negative a) (is_negative b) (abs32 a) (abs32 b) (product (abs32 a) (abs32 b))
            (magnitude (abs32 a) (abs32 b) la lb) w v)
    ])
