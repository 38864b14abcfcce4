-- ===== src/Mips/Decode.antt =====
-- machine/mipssim.h and `Instruction::Decode` of mipssim.cc: an instruction word and its parts.
pub mod Fields
use csci350_project.Base.{
  ℕ, ◌/◌, ◌^◌, bit_and, bit_or, Bool, true, false, List, [], ◌∷◌, ◌==◌, if◌then◌else◌, get_or,
}

-- The `OP_` constants, and the two marks SPECIAL and BCOND of the table.
pub data Opcode : Type 0 where
  op_add op_addi op_addiu op_addu op_and op_andi op_beq op_bgez op_bgezal op_bgtz : Opcode
  op_blez op_bltz op_bltzal op_bne op_div op_divu op_j op_jal op_jalr op_jr op_lb : Opcode
  op_lbu op_lh op_lhu op_lui op_lw op_lwl op_lwr op_mfhi op_mflo op_mthi op_mtlo : Opcode
  op_mult op_multu op_nor op_or op_ori op_rfe op_sb op_sh op_sll op_sllv op_slt : Opcode
  op_slti op_sltiu op_sltu op_sra op_srav op_srl op_srlv op_sub op_subu op_sw : Opcode
  op_swl op_swr op_xor op_xori op_syscall op_unimp op_res special bcond : Opcode

pub data Format : Type 0 where
  ifmt jfmt rfmt : Format

-- `opTable`, by the bits 31 to 26, and `specialTable`, by the `funct` field.
abbrev pub op_table : List (Opcode × Format)
op_table =
    (special, rfmt)
    ∷ (bcond, ifmt)
    ∷ (op_j, jfmt)
    ∷ (op_jal, jfmt)
    ∷ (op_beq, ifmt)
    ∷ (op_bne, ifmt)
    ∷ (op_blez, ifmt)
    ∷ (op_bgtz, ifmt)
    ∷ (op_addi, ifmt)
    ∷ (op_addiu, ifmt)
    ∷ (op_slti, ifmt)
    ∷ (op_sltiu, ifmt)
    ∷ (op_andi, ifmt)
    ∷ (op_ori, ifmt)
    ∷ (op_xori, ifmt)
    ∷ (op_lui, ifmt)
    ∷ (op_unimp, ifmt)
    ∷ (op_unimp, ifmt)
    ∷ (op_unimp, ifmt)
    ∷ (op_unimp, ifmt)
    ∷ (op_res, ifmt)
    ∷ (op_res, ifmt)
    ∷ (op_res, ifmt)
    ∷ (op_res, ifmt)
    ∷ (op_res, ifmt)
    ∷ (op_res, ifmt)
    ∷ (op_res, ifmt)
    ∷ (op_res, ifmt)
    ∷ (op_res, ifmt)
    ∷ (op_res, ifmt)
    ∷ (op_res, ifmt)
    ∷ (op_res, ifmt)
    ∷ (op_lb, ifmt)
    ∷ (op_lh, ifmt)
    ∷ (op_lwl, ifmt)
    ∷ (op_lw, ifmt)
    ∷ (op_lbu, ifmt)
    ∷ (op_lhu, ifmt)
    ∷ (op_lwr, ifmt)
    ∷ (op_res, ifmt)
    ∷ (op_sb, ifmt)
    ∷ (op_sh, ifmt)
    ∷ (op_swl, ifmt)
    ∷ (op_sw, ifmt)
    ∷ (op_res, ifmt)
    ∷ (op_res, ifmt)
    ∷ (op_swr, ifmt)
    ∷ (op_res, ifmt)
    ∷ (op_unimp, ifmt)
    ∷ (op_unimp, ifmt)
    ∷ (op_unimp, ifmt)
    ∷ (op_unimp, ifmt)
    ∷ (op_res, ifmt)
    ∷ (op_res, ifmt)
    ∷ (op_res, ifmt)
    ∷ (op_res, ifmt)
    ∷ (op_unimp, ifmt)
    ∷ (op_unimp, ifmt)
    ∷ (op_unimp, ifmt)
    ∷ (op_unimp, ifmt)
    ∷ (op_res, ifmt)
    ∷ (op_res, ifmt)
    ∷ (op_res, ifmt)
    ∷ (op_res, ifmt)
    ∷ []

abbrev pub special_table : List Opcode
special_table =
    op_sll ∷ op_res ∷ op_srl ∷ op_sra ∷ op_sllv ∷ op_res ∷ op_srlv ∷ op_srav ∷ op_jr ∷ op_jalr
    ∷ op_res ∷ op_res ∷ op_syscall ∷ op_unimp ∷ op_res ∷ op_res ∷ op_mfhi ∷ op_mthi ∷ op_mflo
    ∷ op_mtlo ∷ op_res ∷ op_res ∷ op_res ∷ op_res ∷ op_mult ∷ op_multu ∷ op_div ∷ op_divu ∷ op_res
    ∷ op_res ∷ op_res ∷ op_res ∷ op_add ∷ op_addu ∷ op_sub ∷ op_subu ∷ op_and ∷ op_or ∷ op_xor
    ∷ op_nor ∷ op_res ∷ op_res ∷ op_slt ∷ op_sltu ∷ op_res ∷ op_res ∷ op_res ∷ op_res ∷ op_res
    ∷ op_res ∷ op_res ∷ op_res ∷ op_res ∷ op_res ∷ op_res ∷ op_res ∷ op_res ∷ op_res ∷ op_res
    ∷ op_res ∷ op_res ∷ op_res ∷ op_res ∷ op_res ∷ []

pub record Instruction : Type 0 where
  pub value : ℕ
  pub op_code : Opcode
  pub rs : ℕ
  pub rt : ℕ
  pub rd : ℕ
  pub extra : ℕ

-- The immediate operand, by the format.
pub extra_of : Format → ℕ → ℕ
extra_of ifmt value =
    let extra = bit_and value 0xffff in
    if bit_and extra 0x8000 == 0 then extra else bit_or extra 0xffff0000
extra_of rfmt value = bit_and (value / 2 ^ 6) 0x1f
extra_of jfmt value = bit_and value 0x3ffffff

-- The second look at the word that SPECIAL and BCOND ask for.
pub op_code_of : Opcode → ℕ → Opcode
op_code_of special value = get_or special_table (bit_and value 0x3f) op_res
op_code_of bcond value =
    let i = bit_and value 0x1f0000 in
    if i == 0
    then op_bltz
    else (if i == 0x10000
        then op_bgez
        else (if i == 0x100000 then op_bltzal else (if i == 0x110000 then op_bgezal else op_unimp)))
op_code_of op value = op

-- `Instruction::Decode`. Six bits index the 64 entries of a table, so no default is ever taken.
pub decode : ℕ → Instruction
decode value =
    let (op, format) = get_or op_table (bit_and (value / 2 ^ 26) 0x3f) (op_res, ifmt) in
    record {
      value = value;
      op_code = op_code_of op value;
      rs = bit_and (value / 2 ^ 21) 0x1f;
      rt = bit_and (value / 2 ^ 16) 0x1f;
      rd = bit_and (value / 2 ^ 11) 0x1f;
      extra = extra_of format value;
    }
