-- ===== src/Syscall/Return.antt =====
-- userprog/exception.cc, `ExceptionHandler`: how the program goes on behind a system call.
use csci350_project.Base.{
  ℕ, ◌+◌, ◌%◌, ◌^◌, ◌≡◌, ◌≢◌, refl, sym, ap, ◌∙◌, arith, List, Option, none, some, length,
  length-set, get_or, set, get_or-set_self, get_or-set_ne, Option-cases, inl, inr,
}
use csci350_project.Base.Int.{ℤ}
use csci350_project.Machine.{
  Machine, syscall_exception, reg, pc_reg, next_pc_reg, prev_pc_reg, num_total_regs, read_register,
  write_register,
}
use csci350_project.Syscall.{Process, Given, int_word}
use csci350_project.Syscall.Dispatch.{dispatch, return_to_user, syscall, exception_handler}
use csci350_project.Syscall.Registers.{dispatch_registers}

-- The registers of a program whose system call answered `rv`: it goes on at its next instruction.
pub record GoesOn (m m' : Machine) (rv : ℤ) : Type 0 where
  pub answer : reg m' 2 ≡ int_word rv
  pub previous : reg m' prev_pc_reg ≡ reg m pc_reg
  pub here : reg m' pc_reg ≡ reg m next_pc_reg
  pub next : reg m' next_pc_reg ≡ (reg m next_pc_reg + 4) % 2 ^ 32
  pub others : (i : ℕ) → i ≢ 2 → i ≢ pc_reg → i ≢ next_pc_reg → i ≢ prev_pc_reg → reg m' i ≡ reg m i

-- What the switch makes of the program's registers.
abbrev pub called : Given → Process → Option (ℤ × Process)
called g p = dispatch g p (reg p.machine 2) (reg p.machine 4) (reg p.machine 5) (reg p.machine 6)

-- How a system call ends.
pub data SyscallOutcome (g : Given) (p : Process) (r : Option Process) : Type 0 where
  stops : called g p ≡ none → r ≡ none → SyscallOutcome g p r
  returns :
      (rv : ℤ) (p1 : Process) (registers : List ℕ)
      → called g p ≡ some (rv, p1)
      → r ≡ some (record p1 { machine = record p1.machine { registers = registers } })
      → GoesOn p.machine (record p1.machine { registers = registers }) rv
      → SyscallOutcome g p r

module _ (rs : List ℕ) (w : ℕ) (whole : length rs ≡ num_total_regs) where
  abbrev with_answer : List ℕ
  with_answer = set rs 2 w

  abbrev with_previous : List ℕ
  with_previous = set with_answer prev_pc_reg (get_or with_answer pc_reg 0)

  abbrev with_pc : List ℕ
  with_pc = set with_previous pc_reg (get_or with_previous next_pc_reg 0)

  -- The registers as they are written, one after the other.
  abbrev after : List ℕ
  after = set with_pc next_pc_reg ((get_or with_pc pc_reg 0 + 4) % 2 ^ 32)

  size1 : length with_answer ≡ num_total_regs
  size1 = length-set rs 2 w ∙ whole

  size2 : length with_previous ≡ num_total_regs
  size2 = length-set with_answer prev_pc_reg (get_or with_answer pc_reg 0) ∙ size1

  size3 : length with_pc ≡ num_total_regs
  size3 = length-set with_previous pc_reg (get_or with_previous next_pc_reg 0) ∙ size2

  new_pc : get_or with_pc pc_reg 0 ≡ get_or rs next_pc_reg 0
  new_pc =
      get_or-set_self with_previous pc_reg (get_or with_previous next_pc_reg 0) 0
        (omega (arith, size2))
      ∙ get_or-set_ne with_answer (get_or with_answer pc_reg 0) 0 (λ e. omega arith)
      ∙ get_or-set_ne rs w 0 (λ e. omega arith)

  -- A register that is not written behind the answer.
  untouched :
      (i : ℕ)
      → i ≢ pc_reg
      → i ≢ next_pc_reg
      → i ≢ prev_pc_reg
      → get_or after i 0 ≡ get_or with_answer i 0
  untouched i not_pc not_next not_previous =
      get_or-set_ne with_pc _ 0 (λ e. not_next (sym e))
      ∙ get_or-set_ne with_previous _ 0 (λ e. not_pc (sym e))
      ∙ get_or-set_ne with_answer _ 0 (λ e. not_previous (sym e))

  after-GoesOn :
      (m m' : Machine) (rv : ℤ)
      → m.registers ≡ rs
      → m'.registers ≡ after
      → w ≡ int_word rv
      → GoesOn m m' rv
  after-GoesOn m m' rv old new answered = record {
    answer =
        register 2
        ∙ untouched 2 (λ e. omega arith) (λ e. omega arith) (λ e. omega arith)
        ∙ get_or-set_self rs 2 w 0 (omega (arith, whole))
        ∙ answered;
    previous =
        register prev_pc_reg
        ∙ get_or-set_ne with_pc _ 0 (λ e. omega arith)
        ∙ get_or-set_ne with_previous _ 0 (λ e. omega arith)
        ∙ get_or-set_self with_answer prev_pc_reg _ 0 (omega (arith, size1))
        ∙ get_or-set_ne rs w 0 (λ e. omega arith)
        ∙ sym (before pc_reg);
    here =
        register pc_reg
        ∙ get_or-set_ne with_pc _ 0 (λ e. omega arith)
        ∙ new_pc
        ∙ sym (before next_pc_reg);
    next =
        register next_pc_reg
        ∙ get_or-set_self with_pc next_pc_reg _ 0 (omega (arith, size3))
        ∙ ap (λ n. (n + 4) % 2 ^ 32) (new_pc ∙ sym (before next_pc_reg));
    others = λ i not_answer not_pc not_next not_previous.
        register i
        ∙ untouched i not_pc not_next not_previous
        ∙ get_or-set_ne rs w 0 (λ e. not_answer (sym e))
        ∙ sym (before i);
  }
    where
      register : (i : ℕ) → reg m' i ≡ get_or after i 0
      register i = ap (λ (xs : List ℕ). get_or xs i 0) new

      before : (i : ℕ) → reg m i ≡ get_or rs i 0
      before i = ap (λ (xs : List ℕ). get_or xs i 0) old

-- With all its registers: the exception of a system call halts the machine, or fails an ASSERT, where
-- the switch does; else the program gets the call's answer in register 2, goes on at the
-- instruction behind the one that made the call, and finds the other registers as they were. The exception handler changes
-- nothing else behind the call.
pub exception_handler-SyscallOutcome :
    (g : Given) (p : Process)
    → length p.machine.registers ≡ num_total_regs
    → SyscallOutcome g p (exception_handler g syscall_exception p)
unfolding exception_handler syscall return_to_user read_register write_register
exception_handler-SyscallOutcome g p whole = elim (Option-cases (called g p)) [
  | inl stopped ↦ stops stopped (rw stopped refl)
  | inr went ↦
      let ((rv, p1), done) = went in
      let same : p1.machine.registers ≡ p.machine.registers =
        dispatch_registers g p p1 rv (reg p.machine 2) (reg p.machine 4) (reg p.machine 5)
          (reg p.machine 6) done in
      returns rv p1 (after p1.machine.registers (int_word rv) (ap length same ∙ whole)) done
        (rw done refl)
        (after-GoesOn p1.machine.registers (int_word rv) (ap length same ∙ whole) p.machine
          (record p1.machine { registers = _ }) rv (sym same) refl refl)
]
