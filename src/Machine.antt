-- ===== src/Machine.antt =====
-- machine/machine.h, machine.cc and translate.cc: the simulated machine's registers, memory and
-- address translation. `none` is a failed ASSERT. Words are numbers below 2 ^ 32.
pub mod Translate
pub mod Memory
use csci350_project.Base.{
  ℕ, zero, suc, ◌+◌, ◌-◌, ◌*◌, ◌/◌, ◌%◌, ◌^◌, Bool, true, false, List, Option, none, some, leb, ltb,
  ◌==◌, if◌then◌else◌, ◌>>=◌, get_or, set, ◌&&◌,
}

abbrev pub page_size : ℕ
page_size = 128

abbrev pub num_phys_pages : ℕ
num_phys_pages = 32

abbrev pub memory_size : ℕ
memory_size = num_phys_pages * page_size

abbrev pub tlb_size : ℕ
tlb_size = 4

pub data ExceptionType : Type 0 where
  no_exception syscall_exception page_fault_exception read_only_exception : ExceptionType
  bus_error_exception address_error_exception overflow_exception : ExceptionType
  illegal_instr_exception : ExceptionType

-- A page table's or the TLB's entry; `use_bit` is the field `use`.
pub record TranslationEntry : Type 0 where
  pub virtual_page : ℕ
  pub physical_page : ℕ
  pub valid : Bool
  pub read_only : Bool
  pub use_bit : Bool
  pub dirty : Bool

-- What the machine is doing (machine/interrupt.h).
pub data MachineStatus : Type 0 where
  idle_mode system_mode user_mode : MachineStatus

-- `tlb` and `pageTable` are pointers; `none` is NULL. `total_ticks` is `stats->totalTicks`,
-- and `status` that of `interrupt`.
pub record Machine : Type 0 where
  pub registers : List ℕ
  pub main_memory : List ℕ
  pub tlb : Option (List TranslationEntry)
  pub page_table : Option (List TranslationEntry)
  pub page_table_size : ℕ
  pub last_used : List ℕ
  pub total_ticks : ℕ
  pub status : MachineStatus

abbrev pub hi_reg : ℕ
hi_reg = 32

abbrev pub lo_reg : ℕ
lo_reg = 33

abbrev pub pc_reg : ℕ
pc_reg = 34

abbrev pub next_pc_reg : ℕ
next_pc_reg = 35

abbrev pub prev_pc_reg : ℕ
prev_pc_reg = 36

abbrev pub load_reg : ℕ
load_reg = 37

abbrev pub load_value_reg : ℕ
load_value_reg = 38

abbrev pub bad_vaddr_reg : ℕ
bad_vaddr_reg = 39

abbrev pub num_total_regs : ℕ
num_total_regs = 40

-- `registers[i]`, and `registers[i] = v`
abbrev pub reg : Machine → ℕ → ℕ
reg m i = get_or m.registers i 0

abbrev pub set_reg : Machine → ℕ → ℕ → Machine
set_reg m i v = record m { registers = set m.registers i v }

-- `Machine::ReadRegister` and `WriteRegister`
unfoldable pub read_register : Machine → ℕ → Option ℕ
read_register m num = if ltb num num_total_regs then some (reg m num) else none

unfoldable pub write_register : Machine → ℕ → ℕ → Option Machine
write_register m num value = if ltb num num_total_regs then some (set_reg m num value) else none

-- `Machine::DelayedLoad`
unfoldable pub delayed_load : Machine → ℕ → ℕ → Machine
delayed_load m next_reg next_value =
    let m1 = set_reg m (reg m load_reg) (reg m load_value_reg) in
    set_reg (set_reg (set_reg m1 load_reg next_reg) load_value_reg next_value) 0 0

-- The kernel's `ExceptionHandler`, which changes the machine's state and may never come back.
abbrev pub Handler : Type 0
Handler = ExceptionType → Machine → Option Machine

-- `Machine::RaiseException`
unfoldable pub raise_exception : Handler → Machine → ExceptionType → ℕ → Option Machine
raise_exception handler m which bad_vaddr = do
  let m1 = delayed_load (set_reg m bad_vaddr_reg bad_vaddr) 0 0
  m2 ← handler which (record m1 { status = system_mode })
  some (record m2 { status = user_mode })
