-- ===== src/Tests/Items.antt =====
-- threads/synchlist.cc: one item.
use csci350_project.Base.{ℕ, ◌≡◌, ◌≢◌, refl, [], ◌∷◌, ◌++◌, none}
use csci350_project.Threads.Chain.{items}
use csci350_project.Threads.Scheduler.{Kernel, blocked}
use csci350_project.Threads.SynchList.{new_synch_list, synch_append, synch_remove, spins}
use csci350_project.Threads.SynchList.Fifo.{
  Traffic, start, appends, Reachable, begin, after, Reachable-order,
}

-- Thread 1 runs and 2 is ready.
abbrev kernel : Kernel
kernel = record {
  current = 1;
  ready_list = record { item = 2; key = 0 } ∷ [];
  status = λ t. blocked;
  to_be_destroyed = none;
}

-- Thread 1 appends an item to a list whose lock is at the address 9.
abbrev one_item : Traffic ℕ
one_item = record {
  synch = (synch_append 9 5 (new_synch_list none none) kernel).0;
  given = 5 ∷ [];
  taken = [];
}

one_item-Reachable : Reachable 9 none one_item
one_item-Reachable = after (start none) one_item (begin (start none) refl) (appends kernel 5 refl)

Reachable-order_example :
    (one_item.given ≡ one_item.taken ++ items one_item.synch.list)
    × (synch_remove 9 one_item.synch kernel ≢ spins)
Reachable-order_example = Reachable-order 9 none one_item kernel one_item-Reachable
