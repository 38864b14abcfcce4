-- ===== src/Threads/Condition/Waiters.antt =====
-- threads/synch.cc, `Condition`: who waits, and who is woken.
use csci350_project.Base.{
  ℕ, ◌≡◌, ◌≢◌, refl, sym, ap, ◌∙◌, arith, List, [], ◌∷◌, ◌++◌, Option, none, some, ==_false,
  ==_self, inl, inr,
}
use csci350_project.Threads.Chain.{append, items, remove-cases}
use csci350_project.Threads.Chain.Order.{items-append}
use csci350_project.Threads.Scheduler.{Kernel, Queue, sleep, ready_to_run}
use csci350_project.Threads.Lock.{Lock, release}
use csci350_project.Threads.Condition.{
  Condition, declined, asleep, wait, signal, wake_all, broadcast,
}

append_assoc : (xs : List ℕ) (y : ℕ) (zs : List ℕ) → (xs ++ (y ∷ [])) ++ zs ≡ xs ++ (y ∷ zs)
append_assoc [] y zs = refl
append_assoc (x ∷ xs) y zs = ap (◌∷◌ x) (append_assoc xs y zs)

append-nil : (xs : List ℕ) → xs ≡ xs ++ []
append-nil [] = refl
append-nil (x ∷ xs) = ap (◌∷◌ x) (append-nil xs)

wake_all_lem :
    (q : Queue) (k : Kernel)
    → (items (wake_all q k).ready_list ≡ items k.ready_list ++ items q)
      × ((wake_all q k).current ≡ k.current)
unfolding wake_all
wake_all_lem [] k = (append-nil (items k.ready_list), refl)
wake_all_lem (e ∷ es) k =
    let (order, same) = wake_all_lem es (ready_to_run k e.item) in
    (
      order
          ∙ (unfold ready_to_run in
              rw (items-append k.ready_list e.item)
                (append_assoc (items k.ready_list) e.item (items es))),
      same ∙ (unfold ready_to_run in refl),
    )

-- `Broadcast` makes every waiter ready, in the order in which they came, behind those that are ready
-- already; no one waits afterwards, and the running thread goes on.
pub broadcast_lem :
    (c : Condition) (k : Kernel)
    → let (c', k') = broadcast c k in
      (items k'.ready_list ≡ items k.ready_list ++ items c.wait_queue)
      × (c'.wait_queue ≡ [])
      × (c'.waiting_lock ≡ c.waiting_lock)
      × (k'.current ≡ k.current)
unfolding broadcast
broadcast_lem c k = let (order, same) = wake_all_lem c.wait_queue k in (order, refl, refl, same)

pub signal-lock :
    (c : Condition) (a : Option ℕ) (k : Kernel) → (signal c a k).0.waiting_lock ≡ c.waiting_lock
unfolding signal
signal-lock c a k = elim (remove-cases c.wait_queue) [
  | inl e ↦ rw e refl
  | inr (x, xs, e) ↦ rw e (ground arith)
]

-- On a condition that no one waits on, `Wait` with its lock puts the running thread to sleep behind
-- a release of the lock, and `Signal` with the same lock then makes this thread ready, whoever runs.
pub signal-wait :
    (c : Condition) (l : Lock) (k k' : Kernel) (a : ℕ)
    → c.wait_queue ≡ []
    → c.waiting_lock ≡ some a
    → (c1 : Condition) × (wait c (some a) l k ≡ asleep c1 (release l k).0 (sleep (release l k).1))
      × (items c1.wait_queue ≡ (release l k).1.current ∷ [])
      × (signal c1 (some a) k' ≡ (c, ready_to_run k' (release l k).1.current))
unfolding wait signal append
signal-wait c l k k' a nobody here =
    let k1 = (release l k).1 in
    let c1 : Condition = record { wait_queue = append [] k1.current; waiting_lock = some a } in
    (c1, rw (here, ==_self a, nobody), refl, rw (==_self a) (ground (arith, nobody, here)))

-- `waitingLock` stays as the first `Wait` set it: on a condition without a lock, after a `Wait` with
-- one lock and a `Signal`, a `Wait` with another lock returns at once.
pub wait-other_lock :
    (c : Condition) (l : Lock) (k : Kernel) (a b : ℕ)
    → c.waiting_lock ≡ none
    → a ≢ b
    → (c1 : Condition) × (wait c (some a) l k ≡ asleep c1 (release l k).0 (sleep (release l k).1))
      × ((later : Lock) (k' k2 : Kernel)
          → wait (signal c1 (some a) k').0 (some b) later k2 ≡ declined)
unfolding wait signal
wait-other_lock c l k a b fresh differ =
    let k1 = (release l k).1 in
    let c1 : Condition = record {
      wait_queue = append c.wait_queue k1.current;
      waiting_lock = some a;
    } in
    (
      c1,
      rw fresh,
      λ later k' k2.
          let kept : (signal c1 (some a) k').0.waiting_lock ≡ some a = signal-lock c1 (some a) k' in
          rw (kept, ==_false b a (λ e. differ (sym e))),
    )
