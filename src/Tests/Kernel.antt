-- ===== src/Tests/Kernel.antt =====
-- Lists, semaphores, locks and conditions at concrete inputs.
use csci350_project.Base.{ℕ, ◌+◌, ◌≡◌, refl, arith, List, [], ◌∷◌, true, false, none, some}
use csci350_project.Threads.Chain.{ListElement, append}
use csci350_project.Threads.Chain.Order.{Sorted}
use csci350_project.Threads.Scheduler.{Kernel, blocked, sleep, ready_to_run}
use csci350_project.Threads.Semaphore.{p_round, v}
use csci350_project.Threads.Semaphore.Wakeup.{
  Use, one_for, readied, start, Step, p_waits, v_gives, begin, after, Balanced, Reachable-Balanced,
}
use csci350_project.Threads.Lock.{Lock, is_held_by_current_thread, returns, acquire, release}
use csci350_project.Threads.Lock.Handoff.{acquire-release}
use csci350_project.Threads.Condition.{Condition, asleep, declined, wait, signal}
use csci350_project.Threads.Condition.Waiters.{wait-other_lock}

abbrev element : ℕ → ℕ → ListElement ℕ
element t k = record { item = t; key = k }

abbrev times : List (ListElement ℕ)
times = element 1 10 ∷ element 2 20 ∷ element 3 20 ∷ element 4 30 ∷ []

times-Sorted : Sorted times
times-Sorted = (
  (omega arith, (omega arith, (omega arith, tt))),
  ((omega arith, (omega arith, tt)), ((omega arith, tt), (tt, tt))),
)

-- Thread 1 runs and 2 is ready.
abbrev kernel : Kernel
kernel = record {
  current = 1;
  ready_list = element 2 0 ∷ [];
  status = λ t. blocked;
  to_be_destroyed = none;
}

-- A semaphore from 0, after a `P` that waits, and after the `V` that wakes its thread.
abbrev waited : Use
waited = record {
  sem = record { value = 0; queue = element 1 0 ∷ [] };
  waiting = λ t. 0 + one_for 1 t;
  woken_of = λ t. 0;
  woken = 0;
  taken = 0;
  given = 0;
}

start-waited : Step (start 0) waited
unfolding p_round append
start-waited = p_waits (start 0) kernel waited.sem (sleep kernel) refl

abbrev given_once : Use
given_once = record {
  sem = record { value = 1; queue = [] };
  waiting = λ t. 0 + one_for 1 t;
  woken_of = λ t. 0 + readied waited.sem kernel t;
  woken = 1;
  taken = 0;
  given = 1;
}

waited-given_once : Step waited given_once
unfolding v ready_to_run append
waited-given_once = v_gives waited kernel

Reachable-Balanced_example : Balanced 0 given_once
Reachable-Balanced_example =
    Reachable-Balanced 0 given_once
      (after waited given_once (after (start 0) waited begin start-waited) waited-given_once)

abbrev free_lock : Lock
free_lock = record { acquired = false; owner = none; queue = [] }

-- The lock is thread 1's, and 3 waits for it.
abbrev wanted_lock : Lock
wanted_lock = record { acquired = true; owner = some 1; queue = element 3 0 ∷ [] }

-- The lock is thread 7's, and 3 waits for it.
abbrev foreign_lock : Lock
foreign_lock = record { acquired = true; owner = some 7; queue = element 3 0 ∷ [] }

acquire-release_example :
    let (l1, k1) = release wanted_lock kernel in
    (k1 ≡ ready_to_run kernel 3)
    × (l1.acquired ≡ false)
    × ((held : Lock) × (acquire l1 (record k1 { current = 2 })
          ≡ returns held (record k1 { current = 2 }))
        × (held.owner ≡ some 2)
        × (is_held_by_current_thread held (record k1 { current = 3 }) ≡ false))
acquire-release_example = acquire-release wanted_lock kernel 3 2 [] 0 refl refl (λ e. omega arith)

abbrev two_waiters : Condition
two_waiters = record { wait_queue = element 5 0 ∷ element 6 0 ∷ []; waiting_lock = some 40 }

abbrev no_waiters : Condition
no_waiters = record { wait_queue = []; waiting_lock = some 40 }

abbrev fresh_condition : Condition
fresh_condition = record { wait_queue = []; waiting_lock = none }

wait-other_lock_example :
    (c1 : Condition) × (wait fresh_condition (some 40) wanted_lock kernel
      ≡ asleep c1 (release wanted_lock kernel).0 (sleep (release wanted_lock kernel).1))
    × ((later : Lock) (k' k2 : Kernel)
        → wait (signal c1 (some 40) k').0 (some 41) later k2 ≡ declined)
wait-other_lock_example =
    wait-other_lock fresh_condition wanted_lock kernel 40 41 refl (λ e. omega arith)
