-- ===== src/Threads/Switch.antt =====
-- threads/scheduler.cc, `Run`, and thread.cc with USER_PROGRAM: the user programs' registers and page
-- tables when one thread gives the machine to another. `none` is a failed ASSERT or an access
-- outside of an array.
pub mod Registers
pub mod Back
use csci350_project.Base.{
  ℕ, zero, suc, ◌+◌, List, Bool, true, not, Option, none, some, ltb, ◌==◌, if◌then◌else◌, ◌>>=◌,
  length, get_elem?, set,
}
use csci350_project.Machine.{Machine, num_total_regs, read_register, write_register}
use csci350_project.AddrSpace.Paging.{AddrSpace, restore_state}

abbrev pub stack_fencepost : ℕ
stack_fencepost = 0xdeadbeef

-- A thread's `userRegisters` and `space`, and the lowest word of its `stack`, where it has one.
pub record UserThread : Type 0 where
  pub stack : Option ℕ
  pub user_registers : List ℕ
  pub space : Option AddrSpace

-- The loops over the registers, `left` of them from `i` on.
unfoldable pub save_registers : Machine → List ℕ → ℕ → ℕ → Option (List ℕ)
save_registers m saved i zero = some saved
save_registers m saved i (suc left) = read_register m i >>= λ v.
    let rest = save_registers m (set saved i v) (i + 1) left in
    if ltb i (length saved) then rest else none

unfoldable pub restore_registers : Machine → List ℕ → ℕ → ℕ → Option Machine
restore_registers m saved i zero = some m
restore_registers m saved i (suc left) = do
  v ← get_elem? saved i
  m' ← write_register m i v
  restore_registers m' saved (i + 1) left

-- `Thread::SaveUserState` and `RestoreUserState`
unfoldable pub save_user_state : Machine → UserThread → Option UserThread
save_user_state m t = save_registers m t.user_registers 0 num_total_regs >>= λ saved.
    some (record t { user_registers = saved })

unfoldable pub restore_user_state : Machine → UserThread → Option Machine
restore_user_state m t = restore_registers m t.user_registers 0 num_total_regs

-- `AddrSpace::SaveState` does nothing: the table that the machine marks is the address space's own.
abbrev pub save_state : Machine → AddrSpace → AddrSpace
save_state m s = elim m.page_table [ none ↦ s | some table ↦ record s { page_table = table } ]

-- The first part of `Run`, for the thread that gives up the machine.
unfoldable pub give_up : Machine → UserThread → Option UserThread
give_up m t = elim t.space [
  | none ↦ some t
  | some s ↦ save_user_state m t >>= λ t'. some (record t' { space = some (save_state m s) })
]

-- The last part of `Run`, for the thread that gets it.
unfoldable pub take_over : Machine → UserThread → Option Machine
take_over m t = elim t.space [
  | none ↦ some m
  | some s ↦ restore_user_state m t >>= λ m'. some (restore_state m' s)
]

-- `Thread::CheckOverflow`: whether its ASSERT holds.
abbrev pub check_overflow : UserThread → Bool
check_overflow t = elim t.stack [ none ↦ true | some word ↦ word == stack_fencepost ]

-- The machine, the thread that has it, the one that has finished, if one has, and all threads.
pub record Processor : Type 0 where
  pub machine : Machine
  pub current : ℕ
  pub thread_to_be_destroyed : Option ℕ
  pub threads : ℕ → UserThread

abbrev pub put_thread : (ℕ → UserThread) → ℕ → UserThread → ℕ → UserThread
put_thread threads i t j = if i == j then t else threads j

-- The ASSERT of `Thread::~Thread`, where a thread has finished.
abbrev pub may_destroy : Option ℕ → ℕ → Bool
may_destroy none current = true
may_destroy (some t) current = not (t == current)

-- `Scheduler::Run`, to a thread that gave up the machine in `Run` before and goes on there.
unfoldable pub switch_to : Processor → ℕ → Option Processor
switch_to p next = give_up p.machine (p.threads p.current) >>= λ old.
    let threads = put_thread p.threads p.current old in
    if check_overflow old
    then (if may_destroy p.thread_to_be_destroyed next
        then (take_over p.machine (threads next) >>= λ m. some (record {
          machine = m;
          current = next;
          thread_to_be_destroyed = none;
          threads = threads;
        }))
        else none)
    else none
