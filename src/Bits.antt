-- ===== src/Bits.antt =====
-- The bits of a number, and what `&`, `|`, `^` do to them at every position. The kernel's words
-- (bitmaps, registers) are numbers; these are the laws that their code relies on.
use Prim.Native.Nat.{digits, bitwise, bit_and-bitwise, bit_or-bitwise, bit_xor-bitwise, differ}
use native.Mathlib.Nat.{pow-suc, one-le-pow, div-add-mod, div-div-eq-div-mul, div-one, mul_comm}
use csci350_project.Base.{
  ℕ, zero, suc, ◌+◌, ◌-◌, ◌*◌, ◌/◌, ◌%◌, ◌^◌, ◌≤◌, ◌<◌, min, max, bit_and, bit_or, bit_xor, ◌≡◌,
  ◌≢◌, refl, sym, ap, subst, ◌∙◌, arith, ℕ_discrete,
}

-- Fuel beyond the first number makes no difference to the library's recursion on digits.
one_more :
    (f : ℕ → ℕ → ℕ) (rest : ℕ → ℕ) (fuel x y : ℕ)
    → x ≤ fuel
    → digits rest f (suc fuel) x y ≡ digits rest f fuel x y
one_more f rest zero zero y h = refl
one_more f rest (suc fuel) zero y h = refl
one_more f rest zero (suc x) y h = absurd (omega arith)
one_more f rest (suc fuel) (suc x) y h =
    let lower = one_more f rest fuel (suc x / 2) (y / 2) (omega arith) in omega (arith, lower)

surplus :
    (f : ℕ → ℕ → ℕ) (rest : ℕ → ℕ) (extra x y : ℕ)
    → digits rest f (extra + x) x y ≡ digits rest f x x y
surplus f rest zero x y = ap (λ n. digits rest f n x y) (let e : 0 + x ≡ x = omega arith in e)
surplus f rest (suc extra) x y =
    let e : suc extra + x ≡ suc (extra + x) = omega arith in
    ap (λ n. digits rest f n x y) e
    ∙ one_more f rest (extra + x) x y (omega arith)
    ∙ surplus f rest extra x y

-- An operation on digits, by the lowest digit and the halves.
module _ (op f : ℕ → ℕ → ℕ) (rest : ℕ → ℕ) (means : (x y : ℕ) → op x y ≡ bitwise rest f x y)
    (at_zero : (y : ℕ) → rest y ≡ f 0 (y % 2) + 2 * rest (y / 2)) where
  by_halves : (x y : ℕ) → op x y ≡ f (x % 2) (y % 2) + 2 * op (x / 2) (y / 2)
  by_halves zero y =
      let none_left : op 0 (y / 2) ≡ rest (y / 2) = means 0 (y / 2) in
      means 0 y ∙ at_zero y ∙ ap (λ t. f 0 (y % 2) + 2 * t) (sym none_left)
  by_halves (suc x) y =
      let half = suc x / 2 in
      let split : x - half + half ≡ x = omega arith in
      let low =
        ap (λ n. digits rest f n half (y / 2)) (sym split)
        ∙ surplus f rest (x - half) half (y / 2) in
      omega (arith, means (suc x) y, means half (y / 2), low)

pub or_digit : (x y : ℕ) → bit_or x y ≡ max (x % 2) (y % 2) + 2 * bit_or (x / 2) (y / 2)
or_digit = by_halves bit_or max (λ y. y) bit_or-bitwise (λ y. omega arith)

pub and_digit : (x y : ℕ) → bit_and x y ≡ min (x % 2) (y % 2) + 2 * bit_and (x / 2) (y / 2)
and_digit = by_halves bit_and min (λ y. 0) bit_and-bitwise (λ y. omega arith)

pub xor_digit : (x y : ℕ) → bit_xor x y ≡ differ (x % 2) (y % 2) + 2 * bit_xor (x / 2) (y / 2)
xor_digit = by_halves bit_xor differ (λ y. y) bit_xor-bitwise (λ y. omega arith)

-- The bit at position `i`.
abbrev pub bit : ℕ → ℕ → ℕ
bit x i = x / 2 ^ i % 2

bit-zero : (x : ℕ) → bit x 0 ≡ x % 2
bit-zero x = rw div-one

pub bit-suc : (x i : ℕ) → bit x (suc i) ≡ bit (x / 2) i
bit-suc x i = rw (div-div-eq-div-mul x 2 (2 ^ i), pow-suc, mul_comm 2)

differ_digits : (x y : ℕ) → x < 2 → y < 2 → differ x y ≡ (x + y) % 2
differ_digits zero y h k = omega arith
differ_digits (suc zero) zero h k = refl
differ_digits (suc zero) (suc zero) h k = refl
differ_digits (suc zero) (suc (suc y)) h k = absurd (omega arith)
differ_digits (suc (suc x)) y h k = absurd (omega arith)

pub bit-bit_and : (i a b : ℕ) → bit (bit_and a b) i ≡ min (bit a i) (bit b i)
bit-bit_and zero a b = rw (bit-zero, bit-zero, bit-zero) (omega (arith, and_digit a b))
bit-bit_and (suc i) a b =
    rw (bit-suc, bit-suc a, bit-suc b, ← bit-bit_and i (a / 2) (b / 2))
      (ap (λ t. bit t i) (omega (arith, and_digit a b)))

pub bit-bit_or : (i a b : ℕ) → bit (bit_or a b) i ≡ max (bit a i) (bit b i)
bit-bit_or zero a b = rw (bit-zero, bit-zero, bit-zero) (omega (arith, or_digit a b))
bit-bit_or (suc i) a b =
    rw (bit-suc, bit-suc a, bit-suc b, ← bit-bit_or i (a / 2) (b / 2))
      (ap (λ t. bit t i) (omega (arith, or_digit a b)))

pub bit-bit_xor : (i a b : ℕ) → bit (bit_xor a b) i ≡ (bit a i + bit b i) % 2
bit-bit_xor zero a b =
    rw (bit-zero, bit-zero, bit-zero) (omega (arith, xor_digit a b, differ_digits (a % 2) (b % 2)))
bit-bit_xor (suc i) a b =
    rw (bit-suc, bit-suc a, bit-suc b, ← bit-bit_xor i (a / 2) (b / 2))
      (ap (λ t. bit t i) (omega (arith, xor_digit a b, differ_digits (a % 2) (b % 2))))

-- A number is determined by its bits.
pub bit_ext : (n a b : ℕ) → a ≤ n → b ≤ n → ((i : ℕ) → bit a i ≡ bit b i) → a ≡ b
bit_ext zero a b p q h = omega arith
bit_ext (suc n) a b p q h =
    let low : a % 2 ≡ b % 2 = rw (bit-zero, bit-zero) at (h 0) in
    let high : a / 2 ≡ b / 2 =
      bit_ext n (a / 2) (b / 2) (omega arith) (omega arith)
        (λ i. sym (bit-suc a i) ∙ h (suc i) ∙ bit-suc b i) in
    omega arith

pub bit-lt-two : (x i : ℕ) → bit x i < 2
bit-lt-two x i = omega arith

pub zero-bit : (i : ℕ) → bit 0 i ≡ 0
zero-bit zero = refl
zero-bit (suc i) = bit-suc 0 i ∙ zero-bit i

-- Above its width a number has no bits.
pub bit_above : (w x i : ℕ) → x < 2 ^ w → w ≤ i → bit x i ≡ 0
bit_above zero x i h k = ap (λ t. bit t i) (omega arith) ∙ zero-bit i
bit_above (suc w) x zero h k = absurd (omega arith)
bit_above (suc w) x (suc i) h k =
    bit-suc x i ∙ bit_above w (x / 2) i (omega (arith, pow-suc 2 w)) (omega arith)

-- `1 << k` has the bit `k` alone.
pub bit-pow_self : (k : ℕ) → bit (2 ^ k) k ≡ 1
bit-pow_self zero = refl
bit-pow_self (suc k) =
    bit-suc (2 ^ suc k) k ∙ ap (λ t. bit t k) (omega (arith, pow-suc 2 k)) ∙ bit-pow_self k

pub bit-pow_ne : (k i : ℕ) → k ≢ i → bit (2 ^ k) i ≡ 0
bit-pow_ne zero zero h = absurd (h refl)
bit-pow_ne zero (suc i) h = bit-suc 1 i ∙ zero-bit i
bit-pow_ne (suc k) zero h = bit-zero (2 ^ suc k) ∙ omega (arith, pow-suc 2 k)
bit-pow_ne (suc k) (suc i) h =
    bit-suc (2 ^ suc k) i
    ∙ ap (λ t. bit t i) (omega (arith, pow-suc 2 k))
    ∙ bit-pow_ne k i (λ e. h (ap suc e))

-- `~x` at width `w` turns every bit below `w` over.
pub bit-complement : (w x i : ℕ) → x < 2 ^ w → i < w → bit (2 ^ w - 1 - x) i ≡ 1 - bit x i
bit-complement zero x i h k = absurd (omega arith)
bit-complement (suc w) x zero h k = rw (bit-zero, bit-zero x) (omega (arith, pow-suc 2 w))
bit-complement (suc w) x (suc i) h k =
    rw (bit-suc x i, ← bit-complement w (x / 2) i (omega (arith, pow-suc 2 w)) (omega arith))
      (bit-suc _ i ∙ ap (λ t. bit t i) (omega (arith, pow-suc 2 w)))

digit_pow : (c k i : ℕ) → c < 2 → bit (c * 2 ^ k) i ≡ c * bit (2 ^ k) i
digit_pow zero k i h = ap (λ t. bit t i) (omega arith) ∙ zero-bit i ∙ omega arith
digit_pow (suc zero) k i h = let e : suc zero * 2 ^ k ≡ 2 ^ k = omega arith in rw e (omega arith)
digit_pow (suc (suc c)) k i h = absurd (omega arith)

min_pow : (x k i : ℕ) → min (bit x i) (bit (2 ^ k) i) ≡ bit (bit x k * 2 ^ k) i
min_pow x k i = rw (digit_pow (bit x k) k i (bit-lt-two x k)) (elim (ℕ_discrete k i) [
  | yes e ↦
      subst (λ j. min (bit x j) (bit (2 ^ k) j) ≡ bit x k * bit (2 ^ k) j) e
        (rw (bit-pow_self k) (omega (arith, bit-lt-two x k)))
  | no d ↦ rw (bit-pow_ne k i d) (omega arith)
])

-- `x & (1 << k)` is the bit `k`, in its place.
pub bit_and-pow : (x k : ℕ) → bit_and x (2 ^ k) ≡ bit x k * 2 ^ k
bit_and-pow x k =
    bit_ext (bit_and x (2 ^ k) + bit x k * 2 ^ k) _ _ (omega arith) (omega arith)
      (λ i. bit-bit_and i x (2 ^ k) ∙ min_pow x k i)

pub bit_and-zero : (a : ℕ) → bit_and a 0 ≡ 0
bit_and-zero a =
    bit_ext (bit_and a 0) _ _ (omega arith) (omega arith)
      (λ i. bit-bit_and i a 0 ∙ rw zero-bit (omega arith))

-- The low bits of a number and those of its half.
pub mod-pow_suc : (k a : ℕ) → a % 2 ^ suc k ≡ a / 2 % 2 ^ k * 2 + a % 2
mod-pow_suc k a =
    let double : 2 ^ suc k ≡ 2 * 2 ^ k = omega (arith, pow-suc 2 k) in
    rw double (
      omega (
        arith,
        div-add-mod (a / 2) (2 ^ k),
        div-add-mod a (2 * 2 ^ k),
        ap (λ (t : ℕ). 2 ^ k * t) (div-div-eq-div-mul a 2 (2 ^ k)),
      ))

-- A mask of ones keeps the low bits.
pub bit_and-mask : (k a : ℕ) → bit_and a (2 ^ k - 1) ≡ a % 2 ^ k
bit_and-mask zero a = bit_and-zero a ∙ omega arith
bit_and-mask (suc k) a =
    let half : (2 ^ suc k - 1) / 2 ≡ 2 ^ k - 1 = omega (arith, pow-suc 2 k) in
    let odd : (2 ^ suc k - 1) % 2 ≡ 1 = omega (arith, pow-suc 2 k, one-le-pow k 2 (omega arith)) in
    rw (and_digit a (2 ^ suc k - 1), half, odd, bit_and-mask k (a / 2), mod-pow_suc k a)
      (omega arith)

pub pow-add : (d n : ℕ) → 2 ^ (d + n) ≡ 2 ^ d * 2 ^ n
pow-add zero n = ap (λ t. 2 ^ t) (let e : 0 + n ≡ n = omega arith in e) ∙ omega arith
pow-add (suc d) n =
    let e : suc d + n ≡ suc (d + n) = omega arith in
    rw (e, pow-suc, pow-add d n, pow-suc) (omega arith)

pub bit_or-zero : (a : ℕ) → bit_or a 0 ≡ a
bit_or-zero a =
    bit_ext (bit_or a 0 + a) _ _ (omega arith) (omega arith)
      (λ i. bit-bit_or i a 0 ∙ rw zero-bit (omega arith))
