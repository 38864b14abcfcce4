-- ===== src/Mips/Run/Registers.antt =====
-- machine/machine.cc and mipssim.cc: the registers at the end of an instruction, where the delayed
-- load and the program counters move on.
use csci350_project.Base.{
  ℕ, ◌<◌, ◌≡◌, ◌∙◌, arith, ◌==◌, if◌then◌else◌, ==_false, ==_self, ℕ_discrete, length, length-set,
  get_or-set_self, get_or-set_ne,
}
use csci350_project.Machine.{
  Machine, reg, set_reg, delayed_load, pc_reg, next_pc_reg, prev_pc_reg, load_reg, load_value_reg,
  num_total_regs,
}
use csci350_project.Mips.Run.{advance}

-- The machine has all its registers.
abbrev pub HasRegisters : Machine → Type 0
HasRegisters m = length m.registers ≡ num_total_regs

HasRegisters-set_reg : (m : Machine) (i v : ℕ) → HasRegisters m → HasRegisters (set_reg m i v)
HasRegisters-set_reg m i v h = length-set m.registers i v ∙ h

pub reg-set_reg :
    (m : Machine) (i j v : ℕ)
    → HasRegisters m
    → i < num_total_regs
    → reg (set_reg m i v) j ≡ (if i == j then v else reg m j)
reg-set_reg m i j v h lt = elim (ℕ_discrete i j) [
  | yes e ↦ rw (← e, ==_self i) (get_or-set_self m.registers i v 0 (omega (arith, h)))
  | no d ↦ rw (==_false i j d) (get_or-set_ne m.registers v 0 d)
]

delayed_load_lem :
    (m : Machine) (to value j : ℕ)
    → HasRegisters m
    → reg m load_reg < num_total_regs
    → reg (delayed_load m to value) j ≡ (
        if 0 == j
        then 0
        else (if load_value_reg == j
            then value
            else (if load_reg == j
                then to
                else (if reg m load_reg == j then reg m load_value_reg else reg m j))))
unfolding delayed_load
delayed_load_lem m to value j h lt =
    let m1 = set_reg m (reg m load_reg) (reg m load_value_reg) in
    let m2 = set_reg m1 load_reg to in
    let m3 = set_reg m2 load_value_reg value in
    let h1 : HasRegisters m1 = HasRegisters-set_reg m (reg m load_reg) (reg m load_value_reg) h in
    let h2 : HasRegisters m2 = HasRegisters-set_reg m1 load_reg to h1 in
    let h3 : HasRegisters m3 = HasRegisters-set_reg m2 load_value_reg value h2 in
    ground (
      arith,
      reg-set_reg m3 0 j 0 h3 (omega arith),
      reg-set_reg m2 load_value_reg j value h2 (omega arith),
      reg-set_reg m1 load_reg j to h1 (omega arith),
      reg-set_reg m (reg m load_reg) j (reg m load_value_reg) h lt,
    )

HasRegisters-delayed_load :
    (m : Machine) (to value : ℕ) → HasRegisters m → HasRegisters (delayed_load m to value)
unfolding delayed_load
HasRegisters-delayed_load m to value h = rw (length-set, length-set, length-set, length-set) h

advance_lem :
    (m : Machine) (pc_after to value j : ℕ)
    → HasRegisters m
    → let d = delayed_load m to value in
      reg (advance m pc_after to value) j ≡ (
        if next_pc_reg == j
        then pc_after
        else (if pc_reg == j
            then reg d next_pc_reg
            else (if prev_pc_reg == j then reg d pc_reg else reg d j)))
unfolding advance
advance_lem m pc_after to value j h =
    let d = delayed_load m to value in
    let m1 = set_reg d prev_pc_reg (reg d pc_reg) in
    let m2 = set_reg m1 pc_reg (reg m1 next_pc_reg) in
    let h0 : HasRegisters d = HasRegisters-delayed_load m to value h in
    let h1 : HasRegisters m1 = HasRegisters-set_reg d prev_pc_reg (reg d pc_reg) h0 in
    let h2 : HasRegisters m2 = HasRegisters-set_reg m1 pc_reg (reg m1 next_pc_reg) h1 in
    ground (
      arith,
      reg-set_reg m2 next_pc_reg j pc_after h2 (omega arith),
      reg-set_reg m1 pc_reg j (reg m1 next_pc_reg) h1 (omega arith),
      reg-set_reg d prev_pc_reg j (reg d pc_reg) h0 (omega arith),
      reg-set_reg d prev_pc_reg next_pc_reg (reg d pc_reg) h0 (omega arith),
    )

-- At the end of an instruction of a machine with its forty registers, whose load in progress is for
-- a general register, the next program counter becomes the program counter, and that one the
-- previous; register 0 is 0; and every other general register keeps its value but for the load in
-- progress, which now arrives. The instruction's own load is in progress then.
pub advance-registers :
    (m : Machine) (pc_after to value : ℕ)
    → HasRegisters m
    → reg m load_reg < 32
    → let m' = advance m pc_after to value in
      (reg m' next_pc_reg ≡ pc_after)
      × (reg m' pc_reg ≡ reg m next_pc_reg)
      × (reg m' prev_pc_reg ≡ reg m pc_reg)
      × (reg m' 0 ≡ 0)
      × ((j : ℕ)
          → 0 < j
          → j < 32
          → reg m' j ≡ (if reg m load_reg == j then reg m load_value_reg else reg m j))
      × (reg m' load_reg ≡ to)
      × (reg m' load_value_reg ≡ value)
advance-registers m pc_after to value h lt =
    let all = λ (j : ℕ). advance_lem m pc_after to value j h in
    let old = λ (j : ℕ). delayed_load_lem m to value j h (omega arith) in
    (
      all next_pc_reg,
      ground (arith, all pc_reg, old next_pc_reg),
      ground (arith, all prev_pc_reg, old pc_reg),
      ground (arith, all 0, old 0),
      (λ j low high. ground (arith, all j, old j)),
      ground (arith, all load_reg, old load_reg),
      ground (arith, all load_value_reg, old load_value_reg),
    )
