-- ===== src/Threads/Condition.antt =====
-- threads/synch.cc, `Condition`. A lock is named by its address. `Wait` is cut at its `Sleep`: a
-- thread that was woken goes on with `Acquire`.
pub mod Waiters
use csci350_project.Base.{
  ℕ, zero, suc, List, [], ◌∷◌, Bool, true, false, Option, none, some, ◌==◌, if◌then◌else◌,
}
use csci350_project.Threads.Chain
use csci350_project.Threads.Chain.{append}
use csci350_project.Threads.Scheduler.{Kernel, Queue, Asleep, sleep, ready_to_run}
use csci350_project.Threads.Lock.{Lock, Acquiring, acquire, release}

-- `none` is NULL. The constructor leaves `waitingLock` as the memory has it.
pub record Condition : Type 0 where
  pub wait_queue : Queue
  pub waiting_lock : Option ℕ

unfoldable pub new_condition : Option ℕ → Condition
new_condition memory = record { wait_queue = []; waiting_lock = memory }

abbrev same_lock : Option ℕ → Option ℕ → Bool
same_lock none none = true
same_lock none (some b) = false
same_lock (some a) none = false
same_lock (some a) (some b) = a == b

-- How `Wait` ends up to its `Sleep`: it returns at once, or the thread sleeps.
pub data Waiting : Type 0 where
  declined : Waiting
  asleep : Condition → Lock → Asleep → Waiting

abbrev release_and_sleep : Condition → Lock → Kernel → Waiting
release_and_sleep c l k =
    let (l1, k1) = release l k in
    asleep (record c { wait_queue = append c.wait_queue k1.current }) l1 (sleep k1)

-- `Condition::Wait` with the lock `l` at the address `a`.
unfoldable pub wait : Condition → Option ℕ → Lock → Kernel → Waiting
wait c none l k = declined
wait c (some a) l k =
    if same_lock (some a) c.waiting_lock then release_and_sleep c l k else elim c.waiting_lock [
      | none ↦ release_and_sleep (record c { waiting_lock = some a }) l k
      | some b ↦ declined
    ]

-- The rest of `Wait`.
abbrev pub wait_resumed : Lock → Kernel → Acquiring
wait_resumed l k = acquire l k

-- `Condition::Signal`
pub signal : Condition → Option ℕ → Kernel → Condition × Kernel
signal c a k = elim (Chain.remove c.wait_queue) [
  | none ↦ (c, k)
  | some front ↦
      if same_lock c.waiting_lock a
      then (record c { wait_queue = front.1 }, ready_to_run k front.0)
      else (c, k)
]

-- The loop of `Condition::Broadcast`.
pub wake_all : Queue → Kernel → Kernel
wake_all [] k = k
wake_all (e ∷ es) k = wake_all es (ready_to_run k e.item)

pub broadcast : Condition → Kernel → Condition × Kernel
broadcast c k = (record c { wait_queue = [] }, wake_all c.wait_queue k)
