-- ===== src/Threads/Semaphore.antt =====
-- threads/synch.cc, `Semaphore`. `P` is cut at its `Sleep`: a thread that was woken goes on with the
-- next round of the loop.
pub mod Wakeup
use csci350_project.Base.{
  ℕ, suc, ◌+◌, ◌-◌, List, [], ◌∷◌, Bool, true, false, Option, none, some, ◌==◌, if◌then◌else◌,
}
use csci350_project.Threads.Chain
use csci350_project.Threads.Chain.{append}
use csci350_project.Threads.Scheduler.{Kernel, Queue, Asleep, sleep, ready_to_run}

pub record Semaphore : Type 0 where
  pub value : ℕ
  pub queue : Queue

abbrev pub new_semaphore : ℕ → Semaphore
new_semaphore initial_value = record { value = initial_value; queue = [] }

-- How a round of `P` ends: past the loop, or asleep.
pub data Round : Type 0 where
  passed : Semaphore → Kernel → Round
  waits : Semaphore → Asleep → Round

-- One round of the loop of `Semaphore::P`, with what follows it.
unfoldable pub p_round : Semaphore → Kernel → Round
p_round s k =
    if s.value == 0
    then waits (record s { queue = append s.queue k.current }) (sleep k)
    else passed (record s { value = s.value - 1 }) k

-- `Semaphore::V`
unfoldable pub v : Semaphore → Kernel → Semaphore × Kernel
v s k = elim (Chain.remove s.queue) [
  | none ↦ (record s { value = s.value + 1 }, k)
  | some front ↦ (record { value = s.value + 1; queue = front.1 }, ready_to_run k front.0)
]
