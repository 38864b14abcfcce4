-- ===== src/AddrSpace/Load/Registers.antt =====
-- userprog/addrspace.cc, `InitRegisters`.
use csci350_project.Base.{
  ℕ, zero, suc, ◌+◌, ◌-◌, ◌*◌, ◌≤◌, ◌<◌, ◌≡◌, ◌≢◌, refl, sym, ap, ◌∙◌, arith, ◌&&◌, List, [], ◌∷◌,
  some, dec_lt, ltb, leb, lt→ltb, if◌then◌else◌, ℕ_discrete, length, length-set, get_or, set,
  get_or-set_self, get_or-set_ne,
}
use csci350_project.Machine.{
  Machine, page_size, reg, pc_reg, next_pc_reg, num_total_regs, write_register,
}
use csci350_project.AddrSpace.Paging.{AddrSpace}
use csci350_project.AddrSpace.Load.{stack_reg, clear_registers, init_registers}

get_or-beyond : (xs : List ℕ) (i : ℕ) → length xs ≤ i → get_or xs i 0 ≡ 0
get_or-beyond [] i h = refl
get_or-beyond (x ∷ xs) zero h = absurd (omega arith)
get_or-beyond (x ∷ xs) (suc i) h = get_or-beyond xs i (omega arith)

-- The loop that clears registers.
clear_registers_lem :
    (left i : ℕ) (m : Machine)
    → i + left ≡ num_total_regs
    → length m.registers ≡ num_total_regs
    → (rs : List ℕ) × (clear_registers m i left ≡ some (record m { registers = rs }))
      × (length rs ≡ num_total_regs)
      × ((j : ℕ)
          → get_or rs j 0 ≡ (if leb i j && ltb j num_total_regs then 0 else get_or m.registers j 0))
unfolding clear_registers write_register
clear_registers_lem zero i m all whole = (m.registers, refl, whole, λ j. ground (arith, all))
clear_registers_lem (suc left) i m all whole =
    let on : i < num_total_regs = omega (arith, all) in
    let m' : Machine = record m { registers = set m.registers i 0 } in
    let (rs, done, len, gives) =
      clear_registers_lem left (i + 1) m' (omega (arith, all))
        (length-set m.registers i 0 ∙ whole) in
    (
      rs,
      rw (lt→ltb i num_total_regs on) done,
      len,
      λ j. gives j ∙ elim (ℕ_discrete i j) [
        | yes e ↦
            let here : get_or (set m.registers i 0) i 0 ≡ 0 =
              get_or-set_self m.registers i 0 0 (omega (arith, whole)) in
            let there : get_or (set m.registers i 0) j 0 ≡ 0 =
              ap (λ k. get_or (set m.registers i 0) k 0) (sym e) ∙ here in
            ground (arith, there, e, on)
        | no d ↦ ground (arith, get_or-set_ne m.registers {i = i} {j = j} 0 0 d)
      ],
    )

-- The registers of a program that begins.
pub record Begins (m : Machine) (n : ℕ) : Type 0 where
  pub pc : reg m pc_reg ≡ 0
  pub next_pc : reg m next_pc_reg ≡ 4
  pub stack : reg m stack_reg ≡ n * page_size - 16
  pub others : (i : ℕ) → i ≢ pc_reg → i ≢ next_pc_reg → i ≢ stack_reg → reg m i ≡ 0
  pub whole : length m.registers ≡ num_total_regs

pub init_registers_lem :
    (m : Machine) (space : AddrSpace)
    → length m.registers ≡ num_total_regs
    → (rs : List ℕ) × (init_registers m space ≡ some (record m { registers = rs }))
      × Begins (record m { registers = rs }) space.num_pages
unfolding init_registers write_register
init_registers_lem m space whole =
    let (rs, done, len, gives) = clear_registers_lem num_total_regs 0 m refl whole in
    let sp = space.num_pages * page_size - 16 in
    let r1 = set rs pc_reg 0 in
    let r2 = set r1 next_pc_reg 4 in
    let len1 : length r1 ≡ num_total_regs = length-set rs pc_reg 0 ∙ len in
    let len2 : length r2 ≡ num_total_regs = length-set r1 next_pc_reg 4 ∙ len1 in
    (
      set r2 stack_reg sp,
      rw done refl,
      record {
        pc =
            get_or-set_ne r2 sp 0 (λ e. omega arith)
            ∙ get_or-set_ne r1 4 0 (λ e. omega arith)
            ∙ get_or-set_self rs pc_reg 0 0 (omega (arith, len));
        next_pc =
            get_or-set_ne r2 sp 0 (λ e. omega arith)
            ∙ get_or-set_self r1 next_pc_reg 4 0 (omega (arith, len1));
        stack = get_or-set_self r2 stack_reg sp 0 (omega (arith, len2));
        others = λ i not_pc not_next not_stack.
            get_or-set_ne r2 sp 0 (λ e. not_stack (sym e))
            ∙ get_or-set_ne r1 4 0 (λ e. not_next (sym e))
            ∙ get_or-set_ne rs 0 0 (λ e. not_pc (sym e))
            ∙ gives i
            ∙ cleared i;
        whole = length-set r2 stack_reg sp ∙ len2;
      },
    )
  where
    cleared : (i : ℕ) → (if leb 0 i && ltb i num_total_regs then 0 else get_or m.registers i 0) ≡ 0
    cleared i = elim (dec_lt i num_total_regs) [
      | yes on ↦ ground (arith, on)
      | no off ↦ ground (arith, get_or-beyond m.registers i (omega (arith, whole)))
    ]
