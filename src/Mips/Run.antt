-- ===== src/Mips/Run.antt =====
-- machine/mipssim.cc, `Machine::OneInstruction`: the first cases of its switch, the fetch before it
-- and the program counters after it.
pub mod Registers
pub mod Arithmetic
use csci350_project.Base.{
  ℕ, ◌+◌, ◌-◌, ◌*◌, ◌/◌, ◌%◌, ◌^◌, bit_and, bit_or, bit_xor, Bool, true, false, not, ◌&&◌, ◌||◌,
  Option, none, some, ltb, leb, ◌==◌, if◌then◌else◌, ◌>>=◌,
}
use csci350_project.Machine.{
  Machine, Handler, ExceptionType, address_error_exception, overflow_exception, reg, set_reg,
  hi_reg, lo_reg, pc_reg, next_pc_reg, prev_pc_reg, load_reg, load_value_reg, delayed_load,
  raise_exception,
}
use csci350_project.Machine.Memory.{read_mem}
use csci350_project.Mips.Mult.{is_negative}
use csci350_project.Mips.Word.{sign_bit, add32, shl32, div32}
use csci350_project.Mips.Decode
use csci350_project.Mips.Decode.{Instruction, Opcode, decode}
use csci350_project.Mips.Execute.{
  Effect, next, raise, returned, proceed, r31, index_to_addr, signs_differ, branch, set_hi_lo,
  exec_move,
}

-- The switches of OP_LWL and OP_LWR on `tmp & 0x3`.
pub merge_lwl : ℕ → ℕ → ℕ → ℕ
merge_lwl k old value =
    if k == 0
    then value
    else (if k == 1
        then bit_or (bit_and old 0xff) (shl32 value 8)
        else (if k == 2
            then bit_or (bit_and old 0xffff) (shl32 value 16)
            else bit_or (bit_and old 0xffffff) (shl32 value 24)))

pub merge_lwr : ℕ → ℕ → ℕ → ℕ
merge_lwr k old value =
    if k == 0
    then bit_or (bit_and old 0xffffff00) (bit_and (value / 2 ^ 24) 0xff)
    else (if k == 1
        then bit_or (bit_and old 0xffff0000) (bit_and (value / 2 ^ 16) 0xffff)
        else (if k == 2
            then bit_or (bit_and old 0xff000000) (bit_and (value / 2 ^ 8) 0xffffff)
            else value))

-- A read, and what its value loads into `rt` after the next instruction.
abbrev loaded : Handler → Machine → Instruction → ℕ → ℕ → (Machine → ℕ → ℕ) → ℕ → Option Effect
loaded h m i tmp size value_of pc_after = read_mem h m tmp size >>= λ (v, m1). elim v [
  | none ↦ some (returned m1)
  | some value ↦ some (next m1 pc_after i.rt (value_of m1 value))
]

-- The value of `rt` that OP_LWL and OP_LWR merge into: a load in progress comes first.
abbrev pending_or_reg : Machine → ℕ → ℕ
pending_or_reg m rt = if reg m load_reg == rt then reg m load_value_reg else reg m rt

-- `if ((value & 0x80) && signed) value |= 0xffffff00; else value &= 0xff`, and for 16 bits.
abbrev extend8 : Bool → ℕ → ℕ
extend8 signed value =
    if not (bit_and value 0x80 == 0) && signed then bit_or value 0xffffff00 else bit_and value 0xff

abbrev extend16 : Bool → ℕ → ℕ
extend16 signed value =
    if not (bit_and value 0x8000 == 0) && signed
    then bit_or value 0xffff0000
    else bit_and value 0xffff

abbrev load_half : Handler → Machine → Instruction → Bool → ℕ → Option Effect
load_half h m i signed pc_after =
    let tmp = add32 (reg m i.rs) i.extra in
    if not (bit_and tmp 1 == 0)
    then some (raise address_error_exception tmp m)
    else loaded h m i tmp 2 (λ _ v. extend16 signed v) pc_after

-- OP_LB to OP_LWR.
pub exec_load : Handler → Opcode → Instruction → Machine → ℕ → Option Effect
exec_load h Opcode.op_lb i m pc_after =
    loaded h m i (add32 (reg m i.rs) i.extra) 1 (λ _ v. extend8 true v) pc_after
exec_load h Opcode.op_lbu i m pc_after =
    loaded h m i (add32 (reg m i.rs) i.extra) 1 (λ _ v. extend8 false v) pc_after
exec_load h Opcode.op_lh i m pc_after = load_half h m i true pc_after
exec_load h Opcode.op_lhu i m pc_after = load_half h m i false pc_after
exec_load h Opcode.op_lui i m pc_after = proceed (set_reg m i.rt (shl32 i.extra 16)) pc_after
exec_load h Opcode.op_lw i m pc_after =
    let tmp = add32 (reg m i.rs) i.extra in
    if not (bit_and tmp 3 == 0)
    then some (raise address_error_exception tmp m)
    else loaded h m i tmp 4 (λ _ v. v) pc_after
exec_load h Opcode.op_lwl i m pc_after =
    let tmp = add32 (reg m i.rs) i.extra in
    if bit_and tmp 3 == 0
    then loaded h m i tmp 4 (λ m1 v. merge_lwl (bit_and tmp 3) (pending_or_reg m1 i.rt) v) pc_after
    else none
exec_load h Opcode.op_lwr i m pc_after =
    let tmp = add32 (reg m i.rs) i.extra in
    if bit_and tmp 3 == 0
    then loaded h m i tmp 4 (λ m1 v. merge_lwr (bit_and tmp 3) (pending_or_reg m1 i.rt) v) pc_after
    else none
exec_load h op i m pc_after = exec_move h op i m pc_after

-- `registers[R31] = registers[NextPCReg] + 4`, and the same for `rd`.
abbrev link : Machine → ℕ → Machine
link m r = set_reg m r (add32 (reg m next_pc_reg) 4)

abbrev jump_target : Instruction → ℕ → ℕ
jump_target i pc_after = bit_or (bit_and pc_after 0xf0000000) (index_to_addr i.extra)

-- OP_DIV to OP_JR.
pub exec_jump : Handler → Opcode → Instruction → Machine → ℕ → Option Effect
exec_jump h Opcode.op_div i m pc_after =
    if reg m i.rt == 0
    then proceed (set_hi_lo m 0 0) pc_after
    else (div32 (reg m i.rs) (reg m i.rt) >>= λ (q, r). proceed (set_hi_lo m r q) pc_after)
exec_jump h Opcode.op_divu i m pc_after =
    let rs = reg m i.rs in
    let rt = reg m i.rt in
    if rt == 0
    then proceed (set_hi_lo m 0 0) pc_after
    else proceed (set_hi_lo m (rs % rt) (rs / rt)) pc_after
exec_jump h Opcode.op_jal i m pc_after = proceed (link m r31) (jump_target i pc_after)
exec_jump h Opcode.op_j i m pc_after = proceed m (jump_target i pc_after)
exec_jump h Opcode.op_jalr i m pc_after = let m1 = link m i.rd in proceed m1 (reg m1 i.rs)
exec_jump h Opcode.op_jr i m pc_after = proceed m (reg m i.rs)
exec_jump h op i m pc_after = exec_load h op i m pc_after

abbrev has_sign : ℕ → Bool
has_sign a = not (bit_and a sign_bit == 0)

-- OP_BEQ to OP_BNE.
pub exec_branch : Handler → Opcode → Instruction → Machine → ℕ → Option Effect
exec_branch h Opcode.op_beq i m pc_after = branch m i pc_after (reg m i.rs == reg m i.rt)
exec_branch h Opcode.op_bgezal i m pc_after =
    let m1 = link m r31 in branch m1 i pc_after (not (has_sign (reg m1 i.rs)))
exec_branch h Opcode.op_bgez i m pc_after = branch m i pc_after (not (has_sign (reg m i.rs)))
exec_branch h Opcode.op_bgtz i m pc_after =
    branch m i pc_after (not (is_negative (reg m i.rs)) && not (reg m i.rs == 0))
exec_branch h Opcode.op_blez i m pc_after =
    branch m i pc_after (is_negative (reg m i.rs) || reg m i.rs == 0)
exec_branch h Opcode.op_bltzal i m pc_after =
    let m1 = link m r31 in branch m1 i pc_after (has_sign (reg m1 i.rs))
exec_branch h Opcode.op_bltz i m pc_after = branch m i pc_after (has_sign (reg m i.rs))
exec_branch h Opcode.op_bne i m pc_after = branch m i pc_after (not (reg m i.rs == reg m i.rt))
exec_branch h op i m pc_after = exec_jump h op i m pc_after

-- The whole switch, from OP_ADD to OP_ANDI on.
pub exec : Handler → Opcode → Instruction → Machine → ℕ → Option Effect
exec h Opcode.op_add i m pc_after =
    let a = reg m i.rs in
    let b = reg m i.rt in
    let sum = add32 a b in
    if not (signs_differ a b) && signs_differ a sum
    then some (raise overflow_exception 0 m)
    else proceed (set_reg m i.rd sum) pc_after
exec h Opcode.op_addi i m pc_after =
    let a = reg m i.rs in
    let sum = add32 a i.extra in
    if not (signs_differ a i.extra) && signs_differ i.extra sum
    then some (raise overflow_exception 0 m)
    else proceed (set_reg m i.rt sum) pc_after
exec h Opcode.op_addiu i m pc_after = proceed (set_reg m i.rt (add32 (reg m i.rs) i.extra)) pc_after
exec h Opcode.op_addu i m pc_after =
    proceed (set_reg m i.rd (add32 (reg m i.rs) (reg m i.rt))) pc_after
exec h Opcode.op_and i m pc_after =
    proceed (set_reg m i.rd (bit_and (reg m i.rs) (reg m i.rt))) pc_after
exec h Opcode.op_andi i m pc_after =
    proceed (set_reg m i.rt (bit_and (reg m i.rs) (bit_and i.extra 0xffff))) pc_after
exec h op i m pc_after = exec_branch h op i m pc_after

-- The end of `OneInstruction`: the delayed load, then the program counters.
pub advance : Machine → ℕ → ℕ → ℕ → Machine
advance m pc_after next_load_reg next_load_value =
    let m1 = delayed_load m next_load_reg next_load_value in
    let m2 = set_reg m1 prev_pc_reg (reg m1 pc_reg) in
    let m3 = set_reg m2 pc_reg (reg m2 next_pc_reg) in set_reg m3 next_pc_reg pc_after

pub finish : Handler → Effect → Option Machine
finish h (next m pc_after load_to load_value) = some (advance m pc_after load_to load_value)
finish h (raise which bad_vaddr m) = raise_exception h m which bad_vaddr
finish h (returned m) = some m

-- `Machine::OneInstruction`; `none` where an ASSERT fails or the kernel does not come back.
pub one_instruction : Handler → Machine → Option Machine
one_instruction h m = read_mem h m (reg m pc_reg) 4 >>= λ (raw, m1). elim raw [
  | none ↦ some m1
  | some word ↦
      let i = decode word in
      exec h i.op_code i m1 (add32 (reg m1 next_pc_reg) 4) >>= λ e. finish h e
]
