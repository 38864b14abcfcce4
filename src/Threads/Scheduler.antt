-- ===== src/Threads/Scheduler.antt =====
-- threads/scheduler.cc and thread.cc: the ready list and the thread on the processor.
use csci350_project.Base.{ℕ, List, Option, none, some, ◌==◌, if◌then◌else◌}
use csci350_project.Threads.Chain
use csci350_project.Threads.Chain.{ListElement, append}

pub data ThreadStatus : Type 0 where
  just_created running ready blocked : ThreadStatus

abbrev pub Queue : Type 0
Queue = List (ListElement ℕ)

-- `currentThread`, `readyList`, the threads' `status` and `threadToBeDestroyed`.
pub record Kernel : Type 0 where
  pub current : ℕ
  pub ready_list : Queue
  pub status : ℕ → ThreadStatus
  pub to_be_destroyed : Option ℕ

abbrev pub set_status : Kernel → ℕ → ThreadStatus → Kernel
set_status k t s = record k { status = λ u. if u == t then s else k.status u }

-- `Scheduler::ReadyToRun`
unfoldable pub ready_to_run : Kernel → ℕ → Kernel
ready_to_run k t =
    let k1 = set_status k t ready in record k1 { ready_list = append k1.ready_list t }

-- `Scheduler::FindNextToRun`
pub find_next_to_run : Kernel → Option (ℕ × Kernel)
find_next_to_run k = elim (Chain.remove k.ready_list) [
  | none ↦ none
  | some next ↦ some (next.0, record k { ready_list = next.1 })
]

-- `Scheduler::Run`, seen from the thread that it switches to: a finished thread goes then.
pub run : Kernel → ℕ → Kernel
run k next =
    let k1 = set_status (record k { current = next }) next running in
    record k1 { to_be_destroyed = none }

-- `Thread::Fork`, once the stack is there.
pub fork : Kernel → ℕ → Kernel
fork k t = ready_to_run k t

-- `Thread::Yield`
pub yield : Kernel → Kernel
yield k = elim (find_next_to_run k) [
  | none ↦ k
  | some next ↦ run (ready_to_run next.1 k.current) next.0
]

-- `Thread::Sleep`, up to the switch, or to the call of `Interrupt::Idle` where no thread is ready.
pub data Asleep : Type 0 where
  dispatched : Kernel → Asleep
  idling : Kernel → Asleep

pub sleep : Kernel → Asleep
sleep k =
    let k1 = set_status k k.current blocked in
    elim (find_next_to_run k1) [ none ↦ idling k1 | some next ↦ dispatched (run next.1 next.0) ]

-- `Thread::Finish`
pub finish : Kernel → Asleep
finish k = sleep (record k { to_be_destroyed = some k.current })
