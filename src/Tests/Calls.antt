-- ===== src/Tests/Calls.antt =====
-- A program and its system calls at concrete inputs.
use csci350_project.Base.{
  ℕ, zero, suc, ◌≤◌, ◌<◌, ◌≡◌, refl, ap, ◌⊎◌, arith, true, List, [], ◌∷◌, some, none, length, take,
  get_or, replicate, length-replicate,
}
use csci350_project.Base.Int.{pos}
use csci350_project.Machine.{Machine, user_mode, syscall_exception}
use csci350_project.AddrSpace.{Table}
use csci350_project.AddrSpace.Handles.{IsTable, get_lem}
use csci350_project.AddrSpace.Paging.{AddrSpace, page_entries, set_up_pages, restore_state}
use csci350_project.FileSys.OpenFile.{OpenFile, splice}
use csci350_project.Syscall.{
  Process, Given, copyin, copyout, create_syscall, write_syscall, read_syscall,
}
use csci350_project.Syscall.Dispatch.{halt, exception_handler}
use csci350_project.Syscall.Memory.{Maps, IsBytes}
use csci350_project.Syscall.Start.{restore_state-Maps}
use csci350_project.Syscall.Copy.{bytes_at, copyin-copyout}
use csci350_project.Syscall.Transfer.{read_syscall-write_syscall}
use csci350_project.Syscall.Return.{SyscallOutcome, exception_handler-SyscallOutcome}
use csci350_project.Syscall.Create.{Empty, create_syscall-Empty}
use csci350_project.Syscall.Handles.{OpenOutcome, open_syscall-OpenOutcome}
use csci350_project.Tests.Files.{
  empty_header, small_disk, system, words, sectors, two_sectors, small_disk-IsConsistent,
  sectors-IsDisk, two_sectors-FileLayout,
}

-- Thirteen pages, with "fh" at their beginning, and a call of Read in the registers.
abbrev pub memory : List ℕ
memory = 102 ∷ 104 ∷ replicate 4094 0

abbrev pub user : Machine
user = record {
  registers = 0 ∷ 0 ∷ 6 ∷ 0 ∷ 200 ∷ 100 ∷ 3 ∷ replicate 33 0;
  main_memory = memory;
  tlb = none;
  page_table = some (page_entries 0 13);
  page_table_size = 13;
  last_used = replicate 32 0;
  total_ticks = 7;
  status = user_mode;
}

abbrev pub program : AddrSpace
program = record { page_table = page_entries 0 13; num_pages = 13 }

zeros : (n j : ℕ) → get_or {A = ℕ} (replicate n 0) j 0 < 256
zeros zero j = omega arith
zeros (suc n) zero = omega arith
zeros (suc n) (suc j) = zeros n j

memory-IsBytes : IsBytes memory
memory-IsBytes zero = omega arith
memory-IsBytes (suc zero) = omega arith
memory-IsBytes (suc (suc j)) = zeros 4094 j

pub length-memory : length memory ≡ 4096
length-memory = ap (λ n. suc (suc n)) (length-replicate {A = ℕ} 4094 0)

user-Maps : Maps user 13
unfolding set_up_pages restore_state
user-Maps = restore_state-Maps user program 500 20 30 refl refl length-memory

abbrev short_name : List ℕ
short_name = 1 ∷ 2 ∷ 3 ∷ []

short_name-IsBytes : IsBytes short_name
short_name-IsBytes zero = omega arith
short_name-IsBytes (suc zero) = omega arith
short_name-IsBytes (suc (suc zero)) = omega arith
short_name-IsBytes (suc (suc (suc j))) = omega arith

copyin-copyout_example :
    (m1 m2 : Machine) × (copyout halt user 300 short_name ≡ some (true, m1))
    × (copyin 1 halt m1 300 3 ≡ some (short_name, m2))
    × ((j : ℕ) → (j < 300) ⊎ (303 ≤ j) → get_or m2.main_memory j 0 ≡ get_or memory j 0)
copyin-copyout_example =
    copyin-copyout halt 0 13 300 user short_name user-Maps memory-IsBytes short_name-IsBytes
      (omega arith)

-- One file, open under two numbers.
abbrev shared : OpenFile
shared = record { hdr = two_sectors; seek_position = 0 }

abbrev two_open : Table OpenFile
two_open = record {
  map = record { num_bits = 5; num_words = 1; map = 15 ∷ [] };
  table = none ∷ none ∷ some shared ∷ some shared ∷ none ∷ [];
  size = 5;
}

two_open-IsTable : IsTable two_open
two_open-IsTable = record { valid = record { room = omega arith }; bits = refl; room = refl }

abbrev process : Process
process = record {
  machine = user;
  store = sectors;
  fs = small_disk;
  files = two_open;
  printed = [];
}

abbrev given : Given
given = record { fuel = 1; header = empty_header; memory = words 128 9; buffer = []; typed = [] }

read_syscall-write_syscall_example :
    (p1 p2 : Process) × (write_syscall halt given process 0 100 2 ≡ some p1)
    × (read_syscall halt given p1 200 100 3 ≡ some (pos 100, p2))
    × (p2.machine.main_memory ≡ splice memory 200 (take 100 (bytes_at memory 0 100)))
read_syscall-write_syscall_example =
    read_syscall-write_syscall halt given process 13 0 200 100 2 3 3 0 shared shared
      (omega arith, omega arith, get_lem two_open 2 two_open-IsTable)
      (omega arith, omega arith, get_lem two_open 3 two_open-IsTable) (λ e. omega arith) refl refl
      two_open-IsTable sectors-IsDisk two_sectors-FileLayout user-Maps memory-IsBytes (omega arith)
      (omega arith) refl refl

exception_handler-SyscallOutcome_example :
    SyscallOutcome given process (exception_handler given syscall_exception process)
exception_handler-SyscallOutcome_example = exception_handler-SyscallOutcome given process refl

create_syscall-Empty_example :
    (p' : Process) × (create_syscall halt given process 1 1 ≡ some p')
    × ((p'.fs ≡ small_disk) ⊎ Empty system small_disk p'.fs (104 ∷ 0 ∷ []))
    × (p'.machine.main_memory ≡ memory)
    × (p'.files ≡ two_open)
    × (p'.store ≡ sectors)
create_syscall-Empty_example =
    create_syscall-Empty halt given process system 13 1 1 0 user-Maps memory-IsBytes (omega arith)
      refl small_disk-IsConsistent refl

open_syscall-OpenOutcome_example : OpenOutcome halt given process (102 ∷ 0 ∷ []) 0 1
open_syscall-OpenOutcome_example =
    open_syscall-OpenOutcome halt given process 13 0 1 0 two_open-IsTable (omega arith) user-Maps
      memory-IsBytes (omega arith) refl
