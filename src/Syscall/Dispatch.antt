-- ===== src/Syscall/Dispatch.antt =====
-- userprog/exception.cc, `ExceptionHandler`: the switch over the system calls, and the return to the
-- program.
use csci350_project.Base.{ℕ, ◌+◌, ◌%◌, ◌^◌, Option, none, some, ◌==◌, if◌then◌else◌, ◌>>=◌}
use csci350_project.Base.Int.{ℤ, pos}
use csci350_project.Machine.{
  Machine, Handler, ExceptionType, syscall_exception, pc_reg, next_pc_reg, prev_pc_reg,
  read_register, write_register,
}
use csci350_project.Syscall.{
  Process, Given, int_word, create_syscall, open_syscall, write_syscall, read_syscall,
  close_syscall,
}

-- `ExceptionHandler` for a fault, which halts; a fault in `copyin` or `copyout` is never a system call.
abbrev pub halt : Handler
halt which m = none

-- The numbers of userprog/syscall.h.
abbrev pub sc_create : ℕ
sc_create = 4

abbrev pub sc_open : ℕ
sc_open = 5

abbrev pub sc_read : ℕ
sc_read = 6

abbrev pub sc_write : ℕ
sc_write = 7

abbrev pub sc_close : ℕ
sc_close = 8

-- A call that answers nothing has the answer 0.
abbrev pub no_answer : Option Process → Option (ℤ × Process)
no_answer p = p >>= λ p'. some (pos 0, p')

-- The switch in `ExceptionHandler`: any other number halts, `SC_Halt` and those that are not known.
unfoldable pub dispatch : Given → Process → ℕ → ℕ → ℕ → ℕ → Option (ℤ × Process)
dispatch g p type a b c =
    if type == sc_create
    then no_answer (create_syscall halt g p a b)
    else (if type == sc_open
        then open_syscall halt g p a b
        else (if type == sc_write
            then no_answer (write_syscall halt g p a b c)
            else (if type == sc_read
                then read_syscall halt g p a b c
                else (if type == sc_close then no_answer (close_syscall halt g p a) else none))))

-- The return value and the program counters.
unfoldable pub return_to_user : Machine → ℤ → Option Machine
return_to_user m rv = do
  m1 ← write_register m 2 (int_word rv)
  pc ← read_register m1 pc_reg
  m2 ← write_register m1 prev_pc_reg pc
  next ← read_register m2 next_pc_reg
  m3 ← write_register m2 pc_reg next
  pc' ← read_register m3 pc_reg
  write_register m3 next_pc_reg ((pc' + 4) % 2 ^ 32)

-- `ExceptionHandler` for `SyscallException`
unfoldable pub syscall : Given → Process → Option Process
syscall g p = do
  type ← read_register p.machine 2
  a ← read_register p.machine 4
  b ← read_register p.machine 5
  c ← read_register p.machine 6
  (rv, p1) ← dispatch g p type a b c
  m ← return_to_user p1.machine rv
  some (record p1 { machine = m })

-- `ExceptionHandler`
unfoldable pub exception_handler : Given → ExceptionType → Process → Option Process
exception_handler g syscall_exception p = syscall g p
exception_handler g _ p = none
