-- ===== src/Threads/Lock/Handoff.antt =====
-- threads/synch.cc, `Lock`: who holds a lock, and what becomes of it when it goes to a waiter.
use csci350_project.Base.{
  ℕ, ◌≡◌, ◌≢◌, refl, sym, arith, [], ◌∷◌, true, false, none, some, ==_false, ==_self,
}
use csci350_project.Threads.Scheduler.{Kernel, Queue, ready_to_run}
use csci350_project.Threads.Lock.{Lock, is_held_by_current_thread, returns, acquire, release}

-- A free lock without an owner, that no one waits for: `Acquire` gives it to the running thread, and
-- `Release` then frees it; lock and kernel are as they were.
pub release-acquire :
    (l : Lock) (k : Kernel)
    → l.acquired ≡ false
    → l.owner ≡ none
    → l.queue ≡ []
    → (held : Lock) × (acquire l k ≡ returns held k)
      × (is_held_by_current_thread held k ≡ true)
      × (release held k ≡ (l, k))
unfolding acquire release is_held_by_current_thread
release-acquire l k free nobody empty = (
  record l { owner = some k.current; acquired = true },
  rw (nobody, free),
  ==_self k.current,
  rw (==_self k.current, empty) (ground arith),
)

-- `Release` by the owner, with `w` the first in the queue, makes `w` ready but marks the lock free
-- and without an owner: before `w` runs, any other thread `c` that calls `Acquire` gets the lock too,
-- and `w`, whose own `Acquire` returns when it runs, then does not hold the lock.
pub acquire-release :
    (l : Lock) (k : Kernel) (w c : ℕ) (rest : Queue) (key : ℕ)
    → l.owner ≡ some k.current
    → l.queue ≡ record { item = w; key = key } ∷ rest
    → c ≢ w
    → let (l1, k1) = release l k in
      (k1 ≡ ready_to_run k w)
      × (l1.acquired ≡ false)
      × ((held : Lock) × (acquire l1 (record k1 { current = c })
            ≡ returns held (record k1 { current = c }))
          × (held.owner ≡ some c)
          × (is_held_by_current_thread held (record k1 { current = w }) ≡ false))
unfolding acquire release is_held_by_current_thread
acquire-release l k w c rest key mine first other =
    rw (mine, ==_self k.current, first)
      (
        refl,
        refl,
        (
          record l { acquired = true; owner = some c; queue = rest },
          refl,
          refl,
          ==_false w c (λ e. other (sym e)),
        ),
      )

-- `Release` by a thread that does not own the lock wakes the first waiter all the same, and that
-- waiter's `Acquire` returns while the owner still holds the lock.
pub release-not_owner :
    (l : Lock) (k : Kernel) (o w : ℕ) (rest : Queue) (key : ℕ)
    → l.owner ≡ some o
    → k.current ≢ o
    → l.queue ≡ record { item = w; key = key } ∷ rest
    → release l k ≡ (record l { queue = rest }, ready_to_run k w)
unfolding release is_held_by_current_thread
release-not_owner l k o w rest key owned other first =
    rw (owned, ==_false k.current o other, first) refl
