-- ===== src/Mips/Run/Arithmetic.antt =====
-- machine/mipssim.cc: the instructions that calculate, against the integers that their words stand
-- for.
use native.Mathlib.Nat.{pow-suc, one-le-pow, div-lt_self}
use csci350_project.Base.{
  ℕ, zero, suc, ◌+◌, ◌-◌, ◌*◌, ◌/◌, ◌%◌, ◌^◌, ◌≤◌, ◌<◌, bit_or, bit_xor, ◌≡◌, refl, sym, ap, ◌∙◌,
  Bool, true, false, not, ◌&&◌, Option, some, arith, ltb, ◌==◌, if◌then◌else◌, Bool-cases, inl, inr,
  ◌⊎◌, ◌↔◌, none, dec_lt, ==_self, length,
}
use csci350_project.Base.Int.{ℤ, pos, negsuc, ◌+ℤ◌, ◌-ℤ◌}
use csci350_project.Bits.{bit, bit_and-pow, bit-bit_xor, bit-bit_or, bit_ext}
use csci350_project.Machine.{Machine, Handler, overflow_exception, reg, set_reg, num_total_regs}
use csci350_project.Mips.Mult.{is_negative}
use csci350_project.Mips.Mult.Signed.{signed32}
use csci350_project.Mips.Word.{add32, sub32, sra32}
use csci350_project.Mips.Decode.{Instruction, Opcode}
use csci350_project.Mips.Execute.{
  Effect, raise, proceed, next, returned, signs_differ, exec_last, exec_store, exec_shift,
  exec_move,
}
use csci350_project.Mips.Run.Registers.{reg-set_reg}
use csci350_project.Mips.Run.{exec_load, exec_jump, exec_branch, exec}

bit_of_sign : (x : ℕ) → x < 2 ^ 32 → bit x 31 ≡ (if is_negative x then 1 else 0)
bit_of_sign x h = ground arith

digit_differ :
    (p q : Bool)
    → not (((if p then 1 else 0) + (if q then 1 else 0)) % 2 * 2 ^ 31 == 0)
      ≡ (if p then not q else q)
digit_differ true true = refl
digit_differ true false = refl
digit_differ false true = refl
digit_differ false false = refl

-- The test of two sign bits.
signs_differ_lem :
    (a b : ℕ)
    → a < 2 ^ 32
    → b < 2 ^ 32
    → signs_differ a b ≡ (if is_negative a then not (is_negative b) else is_negative b)
signs_differ_lem a b ha hb =
    rw (bit_and-pow (bit_xor a b) 31, bit-bit_xor 31 a b, bit_of_sign a ha, bit_of_sign b hb)
      (digit_differ (is_negative a) (is_negative b))

-- The integers that an `int` holds, and the word for one of them.
abbrev pub is_int32 : ℤ → Bool
is_int32 (pos n) = ltb n (2 ^ 31)
is_int32 (negsuc n) = ltb n (2 ^ 31)

abbrev pub to_word : ℤ → ℕ
to_word (pos n) = n
to_word (negsuc n) = 2 ^ 32 - 1 - n

add_overflow :
    (a b : ℕ)
    → a < 2 ^ 32
    → b < 2 ^ 32
    → (not (signs_differ a b) && signs_differ a (add32 a b))
      ≡ not (is_int32 (signed32 a +ℤ signed32 b))
unfolding ◌+ℤ◌
add_overflow a b ha hb =
    rw (signs_differ_lem a b ha hb, signs_differ_lem a (add32 a b) ha (omega arith)) (ground arith)

add_value :
    (a b : ℕ)
    → a < 2 ^ 32
    → b < 2 ^ 32
    → is_int32 (signed32 a +ℤ signed32 b) ≡ true
    → add32 a b ≡ to_word (signed32 a +ℤ signed32 b)
unfolding ◌+ℤ◌
add_value a b ha hb h = ground arith

sub_overflow :
    (a b : ℕ)
    → a < 2 ^ 32
    → b < 2 ^ 32
    → (signs_differ a b && signs_differ a (sub32 a b)) ≡ not (is_int32 (signed32 a -ℤ signed32 b))
unfolding ◌-ℤ◌
sub_overflow a b ha hb =
    rw (signs_differ_lem a b ha hb, signs_differ_lem a (sub32 a b) ha (omega arith)) (ground arith)

sub_value :
    (a b : ℕ)
    → a < 2 ^ 32
    → b < 2 ^ 32
    → is_int32 (signed32 a -ℤ signed32 b) ≡ true
    → sub32 a b ≡ to_word (signed32 a -ℤ signed32 b)
unfolding ◌-ℤ◌
sub_value a b ha hb h = ground arith

-- An instruction that writes the integer `z` to the register `r`, or traps where no `int` is `z`.
abbrev pub checked : Machine → ℕ → ℤ → ℕ → Option Effect
checked m r z pc_after =
    if is_int32 z
    then proceed (set_reg m r (to_word z)) pc_after
    else some (raise overflow_exception 0 m)

guarded :
    (m : Machine) (r w pc_after : ℕ) (z : ℤ) (over : Bool)
    → over ≡ not (is_int32 z)
    → (is_int32 z ≡ true → w ≡ to_word z)
    → (if over then some (raise overflow_exception 0 m) else proceed (set_reg m r w) pc_after)
      ≡ checked m r z pc_after
guarded m r w pc_after z over h k = elim (Bool-cases (is_int32 z)) [
  | inl fits ↦ rw (h, fits, k fits)
  | inr big ↦ rw (h, big)
]

-- On registers that hold words, ADD writes the sum of the two integers, and traps exactly where it
-- does not fit an `int`.
pub exec-add :
    (h : Handler) (i : Instruction) (m : Machine) (pc_after : ℕ)
    → reg m i.rs < 2 ^ 32
    → reg m i.rt < 2 ^ 32
    → exec h Opcode.op_add i m pc_after
      ≡ checked m i.rd (signed32 (reg m i.rs) +ℤ signed32 (reg m i.rt)) pc_after
unfolding exec
exec-add h i m pc_after ha hb =
    guarded m i.rd _ pc_after (signed32 (reg m i.rs) +ℤ signed32 (reg m i.rt)) _
      (add_overflow (reg m i.rs) (reg m i.rt) ha hb) (add_value (reg m i.rs) (reg m i.rt) ha hb)

-- On registers that hold words, SUB writes the difference of the two integers, and traps exactly
-- where it does not fit an `int`.
pub exec-sub :
    (h : Handler) (i : Instruction) (m : Machine) (pc_after : ℕ)
    → reg m i.rs < 2 ^ 32
    → reg m i.rt < 2 ^ 32
    → exec h Opcode.op_sub i m pc_after
      ≡ checked m i.rd (signed32 (reg m i.rs) -ℤ signed32 (reg m i.rt)) pc_after
unfolding exec exec_branch exec_jump exec_load exec_move exec_shift exec_store exec_last
exec-sub h i m pc_after ha hb =
    guarded m i.rd _ pc_after (signed32 (reg m i.rs) -ℤ signed32 (reg m i.rt)) _
      (sub_overflow (reg m i.rs) (reg m i.rt) ha hb) (sub_value (reg m i.rs) (reg m i.rt) ha hb)

bit_or_self : (x : ℕ) → bit_or x x ≡ x
bit_or_self x =
    bit_ext (bit_or x x + x) _ _ (omega arith) (omega arith) (λ i. bit-bit_or i x x ∙ omega arith)

bit_or-below : (a b : ℕ) → ((k : ℕ) → bit b k ≤ bit a k) → bit_or a b ≡ a
bit_or-below a b h =
    bit_ext (bit_or a b + a) _ _ (omega arith) (omega arith)
      (λ k. bit-bit_or k a b ∙ omega (arith, h k))

below-bit_or : (a b : ℕ) → bit_or a b ≡ a → (k : ℕ) → bit b k ≤ bit a k
below-bit_or a b e k = omega (arith, sym (bit-bit_or k a b) ∙ ap (λ x. bit x k) e)

-- What an instruction writes to a register is seen in its effect.
proceed-value :
    (m : Machine) (r v w pc_after : ℕ)
    → length m.registers ≡ num_total_regs
    → r < num_total_regs
    → proceed (set_reg m r v) pc_after ≡ proceed (set_reg m r w) pc_after
    → v ≡ w
proceed-value m r v w pc_after whole room e =
    let value : Option Effect → ℕ = λ o. elim o [
      | none ↦ 0
      | some x ↦ elim x [ next m' p l n ↦ reg m' r | raise t b m' ↦ 0 | returned m' ↦ 0 ]
    ] in
    let at : (z : ℕ) → reg (set_reg m r z) r ≡ z =
      λ z. reg-set_reg m r r z whole room ∙ rw (==_self r) refl in
    sym (at v) ∙ ap value e ∙ at w

-- OR writes the register `rs`, whatever `rt` holds. With all registers there, and `rd` one of them, that
-- is an OR of the two exactly where `rt` has no bit that `rs` lacks.
pub exec-or :
    (h : Handler) (i : Instruction) (m : Machine) (pc_after : ℕ)
    → length m.registers ≡ num_total_regs
    → i.rd < num_total_regs
    → (exec h Opcode.op_or i m pc_after ≡ proceed (set_reg m i.rd (reg m i.rs)) pc_after)
      × ((exec h Opcode.op_or i m pc_after
            ≡ proceed (set_reg m i.rd (bit_or (reg m i.rs) (reg m i.rt))) pc_after)
          ↔ ((k : ℕ) → bit (reg m i.rt) k ≤ bit (reg m i.rs) k))
unfolding exec exec_branch exec_jump exec_load exec_move
exec-or h i m pc_after whole room =
    let copies : exec h Opcode.op_or i m pc_after ≡ proceed (set_reg m i.rd (reg m i.rs)) pc_after =
      rw (bit_or_self (reg m i.rs)) in
    (
      copies,
      (
        (λ e.
            below-bit_or (reg m i.rs) (reg m i.rt)
              (sym (proceed-value m i.rd _ _ pc_after whole room (sym copies ∙ e)))),
        (λ below. copies ∙ rw (bit_or-below (reg m i.rs) (reg m i.rt) below) refl),
      ),
    )

sra_more : (a k : ℕ) → 2 ^ 31 ≤ a → 0 < k → a / 2 ^ k < sra32 a k
sra_more a zero h places = absurd (omega arith)
sra_more a (suc k) h places =
    let two_le : 1 < 2 ^ suc k = omega (arith, pow-suc 2 k, one-le-pow k 2 (omega arith)) in
    let part : 2 ^ 32 / 2 ^ suc k < 2 ^ 32 = div-lt_self (omega arith) two_le in ground arith

sra_same : (a k : ℕ) → (a < 2 ^ 31) ⊎ (k ≡ 0) → a < 2 ^ 32 → sra32 a k ≡ a / 2 ^ k
sra_same a k (inl small) word = ground arith
sra_same a k (inr none_at_all) word = rw none_at_all (ground arith)

same-sra : (a k : ℕ) → sra32 a k ≡ a / 2 ^ k → (a < 2 ^ 31) ⊎ (k ≡ 0)
same-sra a zero e = inr refl
same-sra a (suc k) e = elim (dec_lt a (2 ^ 31)) [
  | yes small ↦ inl small
  | no neg ↦ absurd (omega (arith, e, sra_more a (suc k) (omega arith) (omega arith)))
]

-- SRL does what SRA does. With all registers there, `rd` one of them and a word in `rt`, that is the
-- shift of the word by zeros exactly where its sign bit is clear or it is shifted by no place.
pub exec-srl :
    (h : Handler) (i : Instruction) (m : Machine) (pc_after : ℕ)
    → length m.registers ≡ num_total_regs
    → i.rd < num_total_regs
    → reg m i.rt < 2 ^ 32
    → (exec h Opcode.op_srl i m pc_after ≡ exec h Opcode.op_sra i m pc_after)
      × (exec h Opcode.op_srl i m pc_after
          ≡ proceed (set_reg m i.rd (sra32 (reg m i.rt) i.extra)) pc_after)
      × ((exec h Opcode.op_srl i m pc_after
            ≡ proceed (set_reg m i.rd (reg m i.rt / 2 ^ i.extra)) pc_after)
          ↔ ((reg m i.rt < 2 ^ 31) ⊎ (i.extra ≡ 0)))
unfolding exec exec_branch exec_jump exec_load exec_move exec_shift
exec-srl h i m pc_after whole room word = (
  refl,
  refl,
  (
    (λ e. same-sra (reg m i.rt) i.extra (proceed-value m i.rd _ _ pc_after whole room e)),
    (λ k. rw (sra_same (reg m i.rt) i.extra k word) refl),
  ),
)
