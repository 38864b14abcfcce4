-- ===== src/Mips/Mult.antt =====
-- machine/mipssim.cc, `Mult`: the product of two registers in two words, by shifts and additions.
-- An `int` is its bit pattern, a number below 2 ^ 32; `hi` and `lo` are such words too.
pub mod Product
pub mod Signed
use csci350_project.Base.{
  ℕ, zero, suc, ◌+◌, ◌-◌, ◌*◌, ◌/◌, ◌%◌, ◌^◌, bit_and, bit_or, Bool, true, false, not, ◌||◌, ltb,
  leb, ◌==◌, if◌then◌else◌,
}

abbrev pub word : ℕ
word = 2 ^ 32

-- `a < 0` for an `int`.
abbrev pub is_negative : ℕ → Bool
is_negative a = leb (2 ^ 31) a

-- `-a`, and `~a`
abbrev pub neg32 : ℕ → ℕ
neg32 a = (word - a) % word

abbrev pub complement32 : ℕ → ℕ
complement32 a = word - 1 - a

-- `a >> 1` for an `int`: the sign bit stays.
abbrev pub sra_one : ℕ → ℕ
sra_one a = a / 2 + (if is_negative a then 2 ^ 31 else 0)

pub record Wide : Type 0 where
  pub hi : ℕ
  pub lo : ℕ

-- `bHi <<= 1; if (bLo & 0x80000000) bHi |= 1; bLo <<= 1`
pub shift_wide : Wide → Wide
shift_wide b =
    let hi = b.hi * 2 % word in
    record { hi = if bit_and b.lo (2 ^ 31) == 0 then hi else bit_or hi 1; lo = b.lo * 2 % word }

-- `lo += bLo; if (lo < bLo) hi += 1; hi += bHi`
pub add_wide : Wide → Wide → Wide
add_wide acc b =
    let lo = (acc.lo + b.lo) % word in
    let hi = if ltb lo b.lo then (acc.hi + 1) % word else acc.hi in
    record { hi = (hi + b.hi) % word; lo = lo }

-- The loop, with `left` of its 32 rounds to go.
pub mult_loop : ℕ → ℕ → Wide → Wide → Wide
mult_loop zero a b acc = acc
mult_loop (suc left) a b acc =
    let acc' = add_wide acc b in
    let rest = mult_loop left (sra_one a) (shift_wide b) acc' in
    let skip = mult_loop left (sra_one a) (shift_wide b) acc in
    if bit_and a 1 == 0 then skip else (if bit_and a 0xfffffffe == 0 then acc' else rest)

-- `hi = ~hi; lo = ~lo; lo++; if (lo == 0) hi++`
pub negate_wide : Wide → Wide
negate_wide x =
    let lo = (complement32 x.lo + 1) % word in
    let hi = complement32 x.hi in record { hi = if lo == 0 then (hi + 1) % word else hi; lo = lo }

abbrev flip_if : Bool → Bool → Bool
flip_if b negative = if b then not negative else negative

-- `Mult`
pub mult : ℕ → ℕ → Bool → Wide
mult a b signed_arith =
    let negate_a = if signed_arith then is_negative a else false in
    let negate_b = if signed_arith then is_negative b else false in
    let negative = flip_if negate_b (flip_if negate_a false) in
    let a' = if negate_a then neg32 a else a in
    let b' = if negate_b then neg32 b else b in
    let product = mult_loop 32 a' (record { hi = 0; lo = b' }) (record { hi = 0; lo = 0 }) in
    if a == 0 || b == 0
    then record { hi = 0; lo = 0 }
    else (if negative then negate_wide product else product)
