-- ===== src/Mips/Execute.antt =====
-- machine/mipssim.cc, `Machine::OneInstruction`: one function for each run of cases of its switch,
-- each handing on the opcodes that are not its own.
use csci350_project.Base.{
  ℕ, ◌-◌, ◌^◌, bit_and, bit_or, bit_xor, Bool, true, false, not, ◌&&◌, Option, none, some, ltb,
  ◌==◌, if◌then◌else◌, ◌>>=◌,
}
use csci350_project.Machine.{
  Machine, Handler, ExceptionType, syscall_exception, overflow_exception, illegal_instr_exception,
  reg, set_reg, hi_reg, lo_reg, next_pc_reg,
}
use csci350_project.Machine.Memory.{read_mem, write_mem}
use csci350_project.Mips.Mult.{Wide, mult, complement32}
use csci350_project.Mips.Word.{sign_bit, add32, sub32, shl32, sra32, signed_lt}
use csci350_project.Mips.Decode.{Instruction, Opcode}

-- How a case of the switch ends: `break`, with `pcAfter` and the delayed load that it leaves; a trap
-- and return; or a return after an exception that was raised below.
pub data Effect : Type 0 where
  next : Machine → ℕ → ℕ → ℕ → Effect
  raise : ExceptionType → ℕ → Machine → Effect
  returned : Machine → Effect

abbrev pub proceed : Machine → ℕ → Option Effect
proceed m pc_after = some (next m pc_after 0 0)

abbrev pub r31 : ℕ
r31 = 31

-- `IndexToAddr`
abbrev pub index_to_addr : ℕ → ℕ
index_to_addr x = shl32 x 2

-- `(a ^ b) & SIGN_BIT`, as a test.
abbrev pub signs_differ : ℕ → ℕ → Bool
signs_differ a b = not (bit_and (bit_xor a b) sign_bit == 0)

abbrev pub branch : Machine → Instruction → ℕ → Bool → Option Effect
branch m i pc_after taken =
    proceed m (if taken then add32 (reg m next_pc_reg) (index_to_addr i.extra) else pc_after)

-- From OP_SUB on, and the default, which is ASSERT(FALSE).
unfoldable pub exec_last : Handler → Opcode → Instruction → Machine → ℕ → Option Effect
exec_last h Opcode.op_sub i m pc_after =
    let a = reg m i.rs in
    let b = reg m i.rt in
    let diff = sub32 a b in
    if signs_differ a b && signs_differ a diff
    then some (raise overflow_exception 0 m)
    else proceed (set_reg m i.rd diff) pc_after
exec_last h Opcode.op_subu i m pc_after =
    proceed (set_reg m i.rd (sub32 (reg m i.rs) (reg m i.rt))) pc_after
exec_last h Opcode.op_syscall i m pc_after = some (raise syscall_exception 0 m)
exec_last h Opcode.op_xor i m pc_after =
    proceed (set_reg m i.rd (bit_xor (reg m i.rs) (reg m i.rt))) pc_after
exec_last h Opcode.op_xori i m pc_after =
    proceed (set_reg m i.rt (bit_xor (reg m i.rs) (bit_and i.extra 0xffff))) pc_after
exec_last h Opcode.op_res i m pc_after = some (raise illegal_instr_exception 0 m)
exec_last h Opcode.op_unimp i m pc_after = some (raise illegal_instr_exception 0 m)
exec_last h op i m pc_after = none

-- What `WriteMem` leads to.
abbrev pub stored : Option (Bool × Machine) → ℕ → Option Effect
stored r pc_after = r >>= λ (ok, m). if ok then proceed m pc_after else some (returned m)

-- The switches of OP_SWL and OP_SWR on `tmp & 0x3`.
pub merge_swl : ℕ → ℕ → ℕ → ℕ
merge_swl k value r =
    if k == 0
    then r
    else (if k == 1
        then bit_or (bit_and value 0xff000000) (bit_and (sra32 r 8) 0xffffff)
        else (if k == 2
            then bit_or (bit_and value 0xffff0000) (bit_and (sra32 r 16) 0xffff)
            else bit_or (bit_and value 0xffffff00) (bit_and (sra32 r 24) 0xff)))

pub merge_swr : ℕ → ℕ → ℕ → ℕ
merge_swr k value r =
    if k == 0
    then bit_or (bit_and value 0xffffff) (shl32 r 24)
    else (if k == 1
        then bit_or (bit_and value 0xffff) (shl32 r 16)
        else (if k == 2 then bit_or (bit_and value 0xff) (shl32 r 8) else r))

-- OP_SWL and OP_SWR after their ASSERT.
abbrev pub store_merged : Handler → Machine → ℕ → (ℕ → ℕ) → ℕ → Option Effect
store_merged h m tmp merge pc_after = read_mem h m (bit_and tmp (2 ^ 32 - 4)) 4 >>= λ (v, m1).
    elim v [
      | none ↦ some (returned m1)
      | some value ↦ stored (write_mem h m1 (bit_and tmp (2 ^ 32 - 4)) 4 (merge value)) pc_after
    ]

-- OP_SW, OP_SWL, OP_SWR and OP_SB, OP_SH.
unfoldable pub exec_store : Handler → Opcode → Instruction → Machine → ℕ → Option Effect
exec_store h Opcode.op_sb i m pc_after =
    stored (write_mem h m (add32 (reg m i.rs) i.extra) 1 (reg m i.rt)) pc_after
exec_store h Opcode.op_sh i m pc_after =
    stored (write_mem h m (add32 (reg m i.rs) i.extra) 2 (reg m i.rt)) pc_after
exec_store h Opcode.op_sw i m pc_after =
    stored (write_mem h m (add32 (reg m i.rs) i.extra) 4 (reg m i.rt)) pc_after
exec_store h Opcode.op_swl i m pc_after =
    let tmp = add32 (reg m i.rs) i.extra in
    if bit_and tmp 3 == 0
    then store_merged h m tmp (λ v. merge_swl (bit_and tmp 3) v (reg m i.rt)) pc_after
    else none
exec_store h Opcode.op_swr i m pc_after =
    let tmp = add32 (reg m i.rs) i.extra in
    if bit_and tmp 3 == 0
    then store_merged h m tmp (λ v. merge_swr (bit_and tmp 3) v (reg m i.rt)) pc_after
    else none
exec_store h op i m pc_after = exec_last h op i m pc_after

abbrev pub set_if : Machine → ℕ → Bool → ℕ → Option Effect
set_if m r test pc_after = proceed (set_reg m r (if test then 1 else 0)) pc_after

-- OP_SLL to OP_SRLV. OP_SRL and OP_SRLV shift `tmp`, an `int`.
unfoldable pub exec_shift : Handler → Opcode → Instruction → Machine → ℕ → Option Effect
exec_shift h Opcode.op_sll i m pc_after =
    proceed (set_reg m i.rd (shl32 (reg m i.rt) i.extra)) pc_after
exec_shift h Opcode.op_sllv i m pc_after =
    proceed (set_reg m i.rd (shl32 (reg m i.rt) (bit_and (reg m i.rs) 0x1f))) pc_after
exec_shift h Opcode.op_slt i m pc_after =
    set_if m i.rd (signed_lt (reg m i.rs) (reg m i.rt)) pc_after
exec_shift h Opcode.op_slti i m pc_after = set_if m i.rt (signed_lt (reg m i.rs) i.extra) pc_after
exec_shift h Opcode.op_sltiu i m pc_after = set_if m i.rt (ltb (reg m i.rs) i.extra) pc_after
exec_shift h Opcode.op_sltu i m pc_after = set_if m i.rd (ltb (reg m i.rs) (reg m i.rt)) pc_after
exec_shift h Opcode.op_sra i m pc_after =
    proceed (set_reg m i.rd (sra32 (reg m i.rt) i.extra)) pc_after
exec_shift h Opcode.op_srav i m pc_after =
    proceed (set_reg m i.rd (sra32 (reg m i.rt) (bit_and (reg m i.rs) 0x1f))) pc_after
exec_shift h Opcode.op_srl i m pc_after =
    let tmp = reg m i.rt in proceed (set_reg m i.rd (sra32 tmp i.extra)) pc_after
exec_shift h Opcode.op_srlv i m pc_after =
    let tmp = reg m i.rt in
    proceed (set_reg m i.rd (sra32 tmp (bit_and (reg m i.rs) 0x1f))) pc_after
exec_shift h op i m pc_after = exec_store h op i m pc_after

-- `HiReg` and `LoReg` after `Mult`.
abbrev pub set_hi_lo : Machine → ℕ → ℕ → Machine
set_hi_lo m hi lo = set_reg (set_reg m lo_reg lo) hi_reg hi

abbrev pub put_product : Machine → Wide → Machine
put_product m w = set_hi_lo m w.hi w.lo

-- OP_MFHI to OP_ORI. OP_OR names the register `rs` twice.
unfoldable pub exec_move : Handler → Opcode → Instruction → Machine → ℕ → Option Effect
exec_move h Opcode.op_mfhi i m pc_after = proceed (set_reg m i.rd (reg m hi_reg)) pc_after
exec_move h Opcode.op_mflo i m pc_after = proceed (set_reg m i.rd (reg m lo_reg)) pc_after
exec_move h Opcode.op_mthi i m pc_after = proceed (set_reg m hi_reg (reg m i.rs)) pc_after
exec_move h Opcode.op_mtlo i m pc_after = proceed (set_reg m lo_reg (reg m i.rs)) pc_after
exec_move h Opcode.op_mult i m pc_after =
    proceed (put_product m (mult (reg m i.rs) (reg m i.rt) true)) pc_after
exec_move h Opcode.op_multu i m pc_after =
    proceed (put_product m (mult (reg m i.rs) (reg m i.rt) false)) pc_after
exec_move h Opcode.op_nor i m pc_after =
    proceed (set_reg m i.rd (complement32 (bit_or (reg m i.rs) (reg m i.rt)))) pc_after
exec_move h Opcode.op_or i m pc_after =
    proceed (set_reg m i.rd (bit_or (reg m i.rs) (reg m i.rs))) pc_after
exec_move h Opcode.op_ori i m pc_after =
    proceed (set_reg m i.rt (bit_or (reg m i.rs) (bit_and i.extra 0xffff))) pc_after
exec_move h op i m pc_after = exec_shift h op i m pc_after
