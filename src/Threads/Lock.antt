-- ===== src/Threads/Lock.antt =====
-- threads/synch.cc, `Lock`. A thread that `Acquire` put to sleep returns from it when it runs again,
-- with no further look at the lock.
pub mod Handoff
use csci350_project.Base.{
  ℕ, List, [], ◌∷◌, Bool, true, false, Option, none, some, ◌==◌, if◌then◌else◌,
}
use csci350_project.Threads.Chain
use csci350_project.Threads.Chain.{append}
use csci350_project.Threads.Scheduler.{Kernel, Queue, Asleep, sleep, ready_to_run}

-- The constructor leaves `owner` as the memory has it.
pub record Lock : Type 0 where
  pub acquired : Bool
  pub owner : Option ℕ
  pub queue : Queue

pub new_lock : Option ℕ → Lock
new_lock memory = record { acquired = false; owner = memory; queue = [] }

-- `Lock::isHeldByCurrentThread`
pub is_held_by_current_thread : Lock → Kernel → Bool
is_held_by_current_thread l k = elim l.owner [ none ↦ false | some t ↦ k.current == t ]

-- How `Acquire` ends: it returns, or the thread sleeps in it.
pub data Acquiring : Type 0 where
  returns : Lock → Kernel → Acquiring
  waits : Lock → Asleep → Acquiring

pub acquire : Lock → Kernel → Acquiring
acquire l k =
    if is_held_by_current_thread l k
    then returns l k
    else (if l.acquired
        then waits (record l { queue = append l.queue k.current }) (sleep k)
        else returns (record l { owner = some k.current; acquired = true }) k)

-- The queue and the ready list at the end of `Release`.
abbrev wake_first : Lock → Kernel → Lock × Kernel
wake_first l k = elim (Chain.remove l.queue) [
  | none ↦ (l, k)
  | some front ↦ (record l { queue = front.1 }, ready_to_run k front.0)
]

pub release : Lock → Kernel → Lock × Kernel
release l k =
    if is_held_by_current_thread l k
    then wake_first (record l { acquired = false; owner = none }) k
    else wake_first l k
