-- ===== src/Syscall.antt =====
-- userprog/exception.cc: the system calls of a user program, over the file system of filesys/. A thread
-- runs one call after another. `none` is a stop of the machine, by `Halt` or a failed ASSERT, an access
-- outside of an array, or a loop that runs out of fuel.
pub mod Dispatch
pub mod Memory
pub mod Start
pub mod Copy
pub mod Transfer
pub mod Registers
pub mod Return
pub mod Create
pub mod Handles
use csci350_project.Base.{
  ℕ, zero, suc, ◌+◌, ◌-◌, ◌%◌, ◌^◌, Bool, true, false, ◌&&◌, List, [], ◌∷◌, ◌++◌, Option, none,
  some, ltb, leb, ◌==◌, if◌then◌else◌, ◌>>=◌, length, drop, set,
}
use csci350_project.Base.Int.{ℤ, pos, negsuc, minus_one}
use csci350_project.Machine.{
  Machine, Handler, ExceptionType, no_exception, syscall_exception, page_fault_exception,
  read_only_exception, bus_error_exception, address_error_exception, overflow_exception,
  illegal_instr_exception, pc_reg, next_pc_reg, prev_pc_reg, read_register, write_register,
}
use csci350_project.Machine.Memory.{read_mem, write_mem, sign_extend8}
use csci350_project.AddrSpace
use csci350_project.AddrSpace.{Table}
use csci350_project.FileSys.Store.{Store}
use csci350_project.FileSys.FileHeader.{FileHeader}
use csci350_project.FileSys.OpenFile
use csci350_project.FileSys.OpenFile.{OpenFile}
use csci350_project.FileSys.System.{FileSystem, create, open_file}

-- The machine, the disk with the file system, the files that the program has open, and what it has
-- printed. An open file stands in one place of the table only, and is kept there itself.
pub record Process : Type 0 where
  pub machine : Machine
  pub store : Store
  pub fs : FileSystem
  pub files : Table OpenFile
  pub printed : List ℕ

-- The loop in `copyin` that reads a byte until it can be read.
unfoldable pub read_again : ℕ → Handler → Machine → ℕ → Option (ℕ × Machine)
read_again zero handler m vaddr = none
read_again (suc fuel) handler m vaddr = read_mem handler m vaddr 1 >>= λ (v, m'). elim v [
  | none ↦ read_again fuel handler m' vaddr
  | some b ↦ some (b % 256, m')
]

-- `copyin`, for `len` bytes: what goes to `buf`. Its answer -1 stands behind that loop, where the
-- byte was read.
unfoldable pub copyin : ℕ → Handler → Machine → ℕ → ℕ → Option (List ℕ × Machine)
copyin fuel handler m vaddr zero = some ([], m)
copyin fuel handler m vaddr (suc len) = do
  (b, m1) ← read_again fuel handler m vaddr
  (bytes, m2) ← copyin fuel handler m1 ((vaddr + 1) % 2 ^ 32) len
  some (b ∷ bytes, m2)

-- `copyout` of the bytes of `buf`: whether the answer is not -1.
unfoldable pub copyout : Handler → Machine → ℕ → List ℕ → Option (Bool × Machine)
copyout handler m vaddr [] = some (true, m)
copyout handler m vaddr (b ∷ bytes) = do
  (written, m1) ← write_mem handler m vaddr 1 (sign_extend8 b)
  let rest = copyout handler m1 ((vaddr + 1) % 2 ^ 32) bytes
  if written then rest else some (false, m1)

-- `new char` of an `int`.
abbrev pub as_size : ℕ → Option ℕ
as_size len = if ltb len (2 ^ 31) then some len else none

-- An argument that is an `int`.
abbrev pub as_int : ℕ → ℤ
as_int w = if ltb w (2 ^ 31) then pos w else negsuc (2 ^ 32 - w - 1)

-- An `int` for a register.
abbrev pub int_word : ℤ → ℕ
int_word (pos n) = n % 2 ^ 32
int_word (negsuc n) = (2 ^ 32 - 1 - n) % 2 ^ 32

abbrev pub console_input : ℕ
console_input = 0

abbrev pub console_output : ℕ
console_output = 1

-- What the kernel and the library hand out with no values set, the fuel for `copyin`, and what
-- `scanf` reads.
pub record Given : Type 0 where
  pub fuel : ℕ
  pub header : FileHeader
  pub memory : List ℕ
  pub buffer : List ℕ
  pub typed : List ℕ

-- An open file after a change of its seek position.
abbrev pub keep_file : Table OpenFile → ℤ → OpenFile → Table OpenFile
keep_file t (pos i) f = record t { table = set t.table i (some f) }
keep_file t (negsuc i) f = t

-- `fileSystem->Open`, and the file's number.
unfoldable pub open_named : Process → List ℕ → Option (ℤ × Process)
open_named p name = elim (open_file p.fs name) [
  | none ↦ some (minus_one, p)
  | some f ↦ AddrSpace.put p.files (some f) >>= λ (id, files). some (id, record p { files = files })
]

module _ (handler : Handler) (g : Given) where
  -- The name in `buf`; for the length -1, `copyin` answers -1.
  unfoldable pub fetch_name : Process → ℕ → ℕ → Option (Option (List ℕ) × Process)
  fetch_name p vaddr len =
      if len == 2 ^ 32 - 1
      then some (none, p)
      else (as_size (len + 1) >>= λ size.
          copyin g.fuel handler p.machine vaddr len >>= λ (bytes, m).
          some (some (bytes ++ (0 ∷ [])), record p { machine = m }))

  -- `Create_Syscall`
  unfoldable pub create_syscall : Process → ℕ → ℕ → Option Process
  create_syscall p vaddr len = fetch_name p vaddr len >>= λ (fetched, p1). elim fetched [
    | none ↦ some p1
    | some name ↦ create p1.fs g.header name 0 >>= λ (done, fs). some (record p1 { fs = fs })
  ]

  -- `Open_Syscall`
  unfoldable pub open_syscall : Process → ℕ → ℕ → Option (ℤ × Process)
  open_syscall p vaddr len = fetch_name p vaddr len >>= λ (fetched, p1). elim fetched [
    | none ↦ some (minus_one, p1)
    | some name ↦ open_named p1 name
  ]

  -- The end of `Write_Syscall` for a file.
  unfoldable pub write_file : Process → List ℕ → ℕ → ℤ → Option Process
  write_file p bytes n id = AddrSpace.get p.files id >>= λ slot. elim slot [
    | none ↦ some p
    | some f ↦ OpenFile.write p.store f g.memory bytes n >>= λ (count, store, f').
        some (record p { store = store; files = keep_file p.files id f' })
  ]

  -- `Write_Syscall`
  unfoldable pub write_syscall : Process → ℕ → ℕ → ℕ → Option Process
  write_syscall p vaddr len id =
      if id == console_input
      then some p
      else (as_size len >>= λ n. copyin g.fuel handler p.machine vaddr n >>= λ (bytes, m).
          (let p1 = record p { machine = m } in
            if id == console_output
            then some (record p1 { printed = p1.printed ++ bytes })
            else write_file p1 bytes n (as_int id)))

  -- The copy at the end of `Read_Syscall`, which prints where it fails.
  unfoldable pub copy_back : Process → ℕ → List ℕ → Option Process
  copy_back p vaddr bytes =
      copyout handler p.machine vaddr bytes >>= λ (done, m). some (record p { machine = m })

  -- `Read_Syscall` for a file.
  unfoldable pub read_file : Process → ℕ → ℕ → ℤ → Option (ℤ × Process)
  read_file p vaddr n id = AddrSpace.get p.files id >>= λ slot. elim slot [
    | none ↦ some (minus_one, p)
    | some f ↦ OpenFile.read p.store f n >>= λ (bytes, f').
        copy_back (record p { files = keep_file p.files id f' }) vaddr bytes >>= λ p'.
        some (pos (length bytes), p')
  ]

  -- `scanf("%s", buf)`, which knows no bound, and the copy of all of `buf`.
  unfoldable pub read_console : Process → ℕ → ℕ → Option (ℤ × Process)
  read_console p vaddr n =
      if leb (length g.typed + 1) n && length g.buffer == n
      then (copy_back p vaddr (g.typed ++ (0 ∷ drop (length g.typed + 1) g.buffer)) >>= λ p'.
          some (pos n, p'))
      else none

  -- `Read_Syscall`
  unfoldable pub read_syscall : Process → ℕ → ℕ → ℕ → Option (ℤ × Process)
  read_syscall p vaddr len id =
      if id == console_output
      then some (minus_one, p)
      else (as_size len >>= λ n.
          if id == console_input then read_console p vaddr n else read_file p vaddr n (as_int id))

  -- `Close_Syscall`
  unfoldable pub close_syscall : Process → ℕ → Option Process
  close_syscall p fd =
      AddrSpace.remove p.files (as_int fd) >>= λ (f, files). some (record p { files = files })
