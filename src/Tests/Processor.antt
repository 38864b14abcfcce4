-- ===== src/Tests/Processor.antt =====
-- Two user programs on the machine at concrete inputs.
use csci350_project.Base.{
  ℕ, ◌≡◌, refl, arith, true, none, some, ◌==◌, if◌then◌else◌, replicate, length,
}
use csci350_project.Machine.{read_register, write_register}
use csci350_project.AddrSpace.Paging.{page_entries, restore_state}
use csci350_project.Threads.Switch.{
  UserThread, Processor, stack_fencepost, check_overflow, put_thread, switch_to, give_up, take_over,
  save_user_state, restore_user_state, save_registers, restore_registers,
}
use csci350_project.Threads.Switch.Back.{idle_yet, works, switch_to-back}
use csci350_project.Tests.Calls.{user, program}

abbrev threads : ℕ → UserThread
threads i =
    if i == 0
    then record {
      stack = some stack_fencepost;
      user_registers = replicate 40 5;
      space = some program;
    }
    else record {
      stack = some stack_fencepost;
      user_registers = replicate 40 7;
      space = some program;
    }

abbrev first_runs : Processor
first_runs = record {
  machine = user;
  current = 0;
  thread_to_be_destroyed = none;
  threads = threads;
}

abbrev second_runs : Processor
second_runs = record {
  machine = record user { registers = replicate 40 7 };
  current = 1;
  thread_to_be_destroyed = none;
  threads = put_thread threads 0 (record {
    stack = some stack_fencepost;
    user_registers = user.registers;
    space = some program;
  });
}

threads-whole : (i : ℕ) → length (threads i).user_registers ≡ 40
threads-whole i = ground arith

threads_sound : (i : ℕ) → check_overflow (threads i) ≡ true
threads_sound i = ground arith

gives_machine : switch_to first_runs 1 ≡ some second_runs
unfolding switch_to give_up take_over save_user_state restore_user_state save_registers
    restore_registers restore_state read_register write_register
gives_machine = refl

switch_to-back_example :
    (b : Processor) × (switch_to
        (record second_runs { machine = record user { registers = replicate 40 9 } })
        0
      ≡ some b)
    × (b.machine.registers ≡ user.registers)
    × (b.machine.page_table ≡ user.page_table)
    × (b.machine.page_table_size ≡ 13)
    × (b.machine.main_memory ≡ user.main_memory)
switch_to-back_example =
    switch_to-back first_runs second_runs
      (record second_runs { machine = record user { registers = replicate 40 9 } }) 1 program
      (page_entries 0 13)
      (record { machine = refl; threads = threads-whole; stacks = threads_sound }) refl refl refl
      gives_machine
      (works second_runs (record user { registers = replicate 40 9 }) idle_yet (λ e. omega arith)
        refl)
      (λ e. omega arith)
