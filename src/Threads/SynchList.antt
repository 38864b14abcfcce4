-- ===== src/Threads/SynchList.antt =====
-- threads/synchlist.cc. The code is cut where a thread may sleep, in `Acquire` and `Wait`, with no
-- switch by the timer in between; the list's lock is at an address.
-- The items are pointers that are not NULL, which `Remove` asserts.
pub mod Fifo
use csci350_project.Base.{ℕ, List, [], ◌∷◌, Option, none, some}
use csci350_project.Threads.Chain
use csci350_project.Threads.Chain.{ListElement, append}
use csci350_project.Threads.Scheduler.{Kernel, Asleep}
use csci350_project.Threads.Lock
use csci350_project.Threads.Lock.{Lock, Acquiring, new_lock, acquire, release, returns, waits}
use csci350_project.Threads.Condition.{
  Condition, Waiting, new_condition, wait, signal, declined, asleep,
}

pub record SynchList (X : Type 0) : Type 0 where
  pub list : List (ListElement X)
  pub lock : Lock
  pub list_empty : Condition

-- How a call gets into the list: with the lock, or asleep in `Acquire`.
pub data Entering (X : Type 0) : Type 0 where
  entered : SynchList X → Kernel → Entering X
  queued : SynchList X → Asleep → Entering X

-- How `Remove` ends, up to its `Wait`: with an item, asleep, or in a loop, as `Wait` returns at once.
pub data Removing (X : Type 0) : Type 0 where
  removed : X → SynchList X → Kernel → Removing X
  sleeps : SynchList X → Asleep → Removing X
  spins : Removing X

module _ {X : Type 0} where
  -- The constructor, with what the memory holds for the lock's owner and the condition's lock.
  pub new_synch_list : Option ℕ → Option ℕ → SynchList X
  new_synch_list owner waiting = record {
    list = [];
    lock = new_lock owner;
    list_empty = new_condition waiting;
  }

  abbrev pub enter_by : SynchList X → Acquiring → Entering X
  enter_by s (returns l k) = entered (record s { lock = l }) k
  enter_by s (waits l z) = queued (record s { lock = l }) z

  -- `lock->Acquire`, which `Append` and `Remove` begin with, and what follows the sleep in `Wait`.
  pub enter : SynchList X → Kernel → Entering X
  enter s k = enter_by s (acquire s.lock k)

  -- The rest of `Append`, at the address `a` of the lock.
  pub synch_append : ℕ → X → SynchList X → Kernel → SynchList X × Kernel
  synch_append a item s k =
      let (c, k1) = signal s.list_empty (some a) k in
      let (l, k2) = release s.lock k1 in
      (record { list = append s.list item; lock = l; list_empty = c }, k2)

  abbrev pub wait_by : SynchList X → Waiting → Removing X
  wait_by s declined = spins
  wait_by s (asleep c l z) = sleeps (record s { lock = l; list_empty = c }) z

  -- A turn of the loop of `Remove`, with what the list holds, up to `Wait`, or what follows the loop.
  abbrev pub next_item : ℕ → SynchList X → Kernel → List (ListElement X) → Removing X
  next_item a s k [] = wait_by s (wait s.list_empty (some a) s.lock k)
  next_item a s k (first ∷ rest) =
      let (l, k1) = release s.lock k in removed first.item (record s { list = rest; lock = l }) k1

  -- The rest of `Remove`.
  pub synch_remove : ℕ → SynchList X → Kernel → Removing X
  synch_remove a s k = next_item a s k s.list
