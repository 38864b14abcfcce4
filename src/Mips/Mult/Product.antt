-- ===== src/Mips/Mult/Product.antt =====
-- The loop of `Mult` in machine/mipssim.cc computes the product: its two words hold the numbers
-- that a 64-bit machine would hold.
use native.Mathlib.Nat.{pow-suc, one-le-pow, add-mul-mod_self_right, zero-mod}
use csci350_project.Base.{
  ℕ, zero, suc, ◌+◌, ◌-◌, ◌*◌, ◌/◌, ◌%◌, ◌^◌, ◌≤◌, ◌<◌, bit_and, bit_or, ◌≡◌, sym, ap, ◌∙◌, false,
  arith, ◌==◌, inl, inr, Bool-cases, ==_iff,
}
use csci350_project.Bits.{
  bit_and-pow, bit_and-mask, or_digit, and_digit, bit_or-zero, mod-pow_suc, pow-add,
}
use csci350_project.Mips.Mult.{Wide, word, is_negative, sra_one, shift_wide, add_wide, mult_loop}

abbrev pub value : Wide → ℕ
value w = w.hi * 2 ^ 32 + w.lo

pub record IsWide (w : Wide) : Type 0 where
  pub hi_word : w.hi < 2 ^ 32
  pub lo_word : w.lo < 2 ^ 32

add_wide_lem :
    (x b : Wide)
    → IsWide x
    → IsWide b
    → value x + value b < 2 ^ 64
    → IsWide (add_wide x b) × (value (add_wide x b) ≡ value x + value b)
unfolding add_wide
add_wide_lem x b wx wb h = ground arith

or_one : (x : ℕ) → bit_or (x * 2) 1 ≡ x * 2 + 1
or_one x = omega (
  arith,
  or_digit (x * 2) 1,
  bit_or-zero (x * 2 / 2),
  ap (λ t. bit_or t 0) (let e : x * 2 / 2 ≡ x = omega arith in e),
)

shift_wide_lem :
    (b : Wide)
    → IsWide b
    → value b * 2 < 2 ^ 64
    → IsWide (shift_wide b) × (value (shift_wide b) ≡ value b * 2)
unfolding shift_wide
shift_wide_lem b wb h =
    let fits : b.hi * 2 % word ≡ b.hi * 2 = omega arith in
    rw (fits, or_one b.hi) (ground (arith, bit_and-pow b.lo 31))

-- `a % 2 ^ n` is what is left of the multiplier for the last `n` rounds.
sra_one-mod : (n a : ℕ) → n ≤ 31 → a < 2 ^ 32 → sra_one a % 2 ^ n ≡ a / 2 % 2 ^ n
sra_one-mod n a h k =
    let whole : 2 ^ 31 ≡ 2 ^ (31 - n) * 2 ^ n =
      ap (λ t. 2 ^ t) (let e : 31 ≡ 31 - n + n = omega arith in e) ∙ pow-add (31 - n) n in
    elim (Bool-cases (is_negative a)) [
      | inl neg ↦ rw (neg, whole) (add-mul-mod_self_right (a / 2) (2 ^ (31 - n)) (2 ^ n))
      | inr nonneg ↦ rw nonneg (ap (λ t. t % 2 ^ n) (omega arith))
    ]

sra_one-lt : (a : ℕ) → a < 2 ^ 32 → sra_one a < 2 ^ 32
sra_one-lt a h = ground arith

only_bit : (a : ℕ) → a < 2 ^ 32 → bit_and a 0xfffffffe ≡ a / 2 * 2
only_bit a h = omega (arith, and_digit a 0xfffffffe, bit_and-mask 31 (a / 2))

le-mul_pow : (v k : ℕ) → v ≤ v * 2 ^ k
le-mul_pow v k = grind (arith, one-le-pow k 2 (omega arith))

odd_digit : (a : ℕ) {d : ℕ} → a % 2 ≡ d → (d == 0) ≡ false → a % 2 ≡ 1
odd_digit a e h = ground arith

pub mult_loop_lem :
    (n a : ℕ) (b acc : Wide)
    → n ≤ 32
    → a < 2 ^ 32
    → IsWide b
    → IsWide acc
    → value b * 2 ^ n < 2 ^ 64
    → value acc + value b * (a % 2 ^ n) < 2 ^ 64
    → IsWide (mult_loop n a b acc)
      × (value (mult_loop n a b acc) ≡ value acc + value b * (a % 2 ^ n))
unfolding mult_loop
mult_loop_lem zero a b acc n_le a_lt wb wacc small fits =
    let e : a % 2 ^ 0 ≡ 0 = omega arith in (wacc, rw e (omega arith))
mult_loop_lem (suc n) a b acc n_le a_lt wb wacc small fits =
    let split : a % 2 ^ suc n ≡ a / 2 % 2 ^ n * 2 + a % 2 = mod-pow_suc n a in
    let low : bit_and a 1 ≡ a % 2 = bit_and-mask 1 a in
    let power : value b * 2 ^ suc n ≡ value b * 2 ^ n * 2 =
      omega (arith, ap (λ (t : ℕ). value b * t) (pow-suc 2 n)) in
    let twice : value b * 2 < 2 ^ 64 = omega (arith, le-mul_pow (value b) n) in
    let (wb', vb') = shift_wide_lem b wb twice in
    let t : ℕ = a / 2 % 2 ^ n in
    let same : sra_one a % 2 ^ n ≡ t = sra_one-mod n a (omega arith) a_lt in
    let small' : value (shift_wide b) * 2 ^ n < 2 ^ 64 = rw vb' (omega arith) in
    elim (Bool-cases (bit_and a 1 == 0)) [
      | inl even ↦
          let e : a % 2 ^ suc n ≡ t * 2 = omega (arith, (==_iff (bit_and a 1) 0).0 even) in
          let sum : value acc + value b * (a % 2 ^ suc n) ≡ value acc + value b * 2 * t =
            omega (arith, ap (λ (x : ℕ). value b * x) e) in
          let (w, v) =
            mult_loop_lem n (sra_one a) (shift_wide b) acc (omega arith) (sra_one-lt a a_lt) wb'
              wacc small' (rw (vb', same) (omega arith)) in
          rw even (w, rw sum (v ∙ rw (vb', same)))
      | inr odd ↦
          let one : a % 2 ≡ 1 = odd_digit a (sym low) odd in
          let e : a % 2 ^ suc n ≡ t * 2 + 1 = omega arith in
          let sum : value acc + value b * (a % 2 ^ suc n) ≡ value acc + value b + value b * 2 * t =
            omega (arith, ap (λ (x : ℕ). value b * x) e) in
          let (wacc', vacc') = add_wide_lem acc b wacc wb (omega arith) in
          elim (Bool-cases (bit_and a 0xfffffffe == 0)) [
            | inl last ↦
                let done : a / 2 ≡ 0 =
                  omega (arith, only_bit a a_lt, (==_iff (bit_and a 0xfffffffe) 0).0 last) in
                let none_left : t ≡ 0 = rw done (zero-mod (2 ^ n)) in
                rw (odd, last) (wacc', vacc' ∙ rw sum (rw none_left (omega arith)))
            | inr more ↦
                let (w, v) =
                  mult_loop_lem n (sra_one a) (shift_wide b) (add_wide acc b) (omega arith)
                    (sra_one-lt a a_lt) wb' wacc' small' (rw (vb', same, vacc') (omega arith)) in
                rw (odd, more) (w, rw sum (v ∙ rw (vb', same, vacc')))
          ]
    ]
