-- ===== src/Threads/Semaphore/Wakeup.antt =====
-- threads/synch.cc: whatever threads do with one semaphore, no wake-up is lost.
use csci350_project.Base.{
  ℕ, ◌+◌, ◌-◌, ◌≤◌, ◌<◌, ◌≡◌, refl, arith, [], ◌∷◌, length, inl, inr, ◌==◌, if◌then◌else◌, ==_self,
  ==_false, ℕ_discrete,
}
use csci350_project.Threads.Chain.{append, remove-cases}
use csci350_project.Threads.Scheduler.{Kernel, Queue, Asleep, ready_to_run}
use csci350_project.Threads.Semaphore.{Semaphore, new_semaphore, passed, waits, p_round, v}

-- How often a thread stands on a list.
abbrev pub one_for : ℕ → ℕ → ℕ
one_for a t = if a == t then 1 else 0

abbrev pub count_in : ℕ → Queue → ℕ
count_in t [] = 0
count_in t (e ∷ es) = one_for e.item t + count_in t es

-- A semaphore in use. Of each thread, `waiting` has the calls of `P` that went to sleep and have not
-- come back, and `woken_of` those of them that were put on the ready list since and have not run;
-- `woken` is the number of the latter for all threads. `taken` and `given` count the calls of `P` that
-- came back and the calls of `V`.
pub record Use : Type 0 where
  pub sem : Semaphore
  pub waiting : ℕ → ℕ
  pub woken_of : ℕ → ℕ
  pub woken : ℕ
  pub taken : ℕ
  pub given : ℕ

abbrev pub start : ℕ → Use
start n = record {
  sem = new_semaphore n;
  waiting = λ t. 0;
  woken_of = λ t. 0;
  woken = 0;
  taken = 0;
  given = 0;
}

-- What a call of `V` puts on the ready list: how often the thread `t`, and how many in all.
abbrev pub readied : Semaphore → Kernel → ℕ → ℕ
readied s k t = count_in t (v s k).1.ready_list - count_in t k.ready_list

abbrev pub woken_by : Semaphore → Kernel → ℕ
woken_by s k = length (v s k).1.ready_list - length k.ready_list

-- A new caller of `P`, a woken one in its next round, or a call of `V`, by whatever thread runs.
pub data Step : Use → Use → Type 0 where
  p_passes :
      (u : Use) (k k' : Kernel) (s : Semaphore)
      → p_round u.sem k ≡ passed s k'
      → Step u (record u { sem = s; taken = u.taken + 1 })
  p_waits :
      (u : Use) (k : Kernel) (s : Semaphore) (a : Asleep)
      → p_round u.sem k ≡ waits s a
      → Step u (record u { sem = s; waiting = λ t. u.waiting t + one_for k.current t })
  woken_passes :
      (u : Use) (k k' : Kernel) (s : Semaphore)
      → 0 < u.woken_of k.current
      → p_round u.sem k ≡ passed s k'
      → Step u (record u {
        sem = s;
        taken = u.taken + 1;
        waiting = λ t. u.waiting t - one_for k.current t;
        woken_of = λ t. u.woken_of t - one_for k.current t;
        woken = u.woken - 1;
      })
  woken_waits :
      (u : Use) (k : Kernel) (s : Semaphore) (a : Asleep)
      → 0 < u.woken_of k.current
      → p_round u.sem k ≡ waits s a
      → Step u (record u {
        sem = s;
        woken_of = λ t. u.woken_of t - one_for k.current t;
        woken = u.woken - 1;
      })
  v_gives :
      (u : Use) (k : Kernel)
      → Step u (record u {
        sem = (v u.sem k).0;
        given = u.given + 1;
        woken_of = λ t. u.woken_of t + readied u.sem k t;
        woken = u.woken + woken_by u.sem k;
      })

pub data Reachable (n : ℕ) : Use → Type 0 where
  begin : Reachable n (start n)
  after : (u w : Use) → Reachable n u → Step u w → Reachable n w

-- The value is what was given and not taken. Of each thread there are as many waiting calls as it has
-- elements on the queue and was woken. While a thread is on the queue, the value is no larger than the
-- number of threads that were woken and have yet to run.
pub record Balanced (n : ℕ) (u : Use) : Type 0 where
  pub counted : u.sem.value + u.taken ≡ n + u.given
  pub none_lost : (t : ℕ) → count_in t u.sem.queue + u.woken_of t ≡ u.waiting t
  pub no_lost_wakeup : 0 < length u.sem.queue → u.sem.value ≤ u.woken

longer-append : (q : Queue) (t : ℕ) → length (append q t) ≡ length q + 1
unfolding append
longer-append [] t = refl
longer-append (e ∷ es) t = omega (arith, longer-append es t)

count_in-append : (t : ℕ) (q : Queue) (a : ℕ) → count_in t (append q a) ≡ count_in t q + one_for a t
unfolding append
count_in-append t [] a = omega arith
count_in-append t (e ∷ es) a = omega (arith, count_in-append t es a)

p_round-passed :
    (s s' : Semaphore) (k k' : Kernel)
    → p_round s k ≡ passed s' k'
    → (s.value ≡ s'.value + 1) × (s'.queue ≡ s.queue)
unfolding p_round
p_round-passed s s' k k' h = ground arith

p_round-waits :
    (s s' : Semaphore) (k : Kernel) (a : Asleep)
    → p_round s k ≡ waits s' a
    → (s.value ≡ 0) × (s'.value ≡ 0) × (s'.queue ≡ append s.queue k.current)
unfolding p_round
p_round-waits s s' k a h = ground arith

joined :
    (t : ℕ) (s s' : Semaphore) (k : Kernel)
    → s'.queue ≡ append s.queue k.current
    → count_in t s'.queue ≡ count_in t s.queue + one_for k.current t
joined t s s' k e = rw e (count_in-append t s.queue k.current)

-- A thread that was woken is among those.
own_one : (w : ℕ → ℕ) (a t : ℕ) → 0 < w a → one_for a t ≤ w t
own_one w a t h = elim (ℕ_discrete a t) [
  | yes e ↦ rw (← e, ==_self a) h
  | no d ↦ rw (==_false a t d) (omega arith)
]

-- `V` takes the front off the queue, where there is one, and puts its thread on the ready list.
v-Given :
    (s : Semaphore) (k : Kernel)
    → ((v s k).0.value ≡ s.value + 1)
      × ((t : ℕ) → count_in t (v s k).0.queue + readied s k t ≡ count_in t s.queue)
      × (length (v s k).0.queue + woken_by s k ≡ length s.queue)
      × (0 < length s.queue → woken_by s k ≡ 1)
unfolding v ready_to_run
v-Given s k = elim (remove-cases s.queue) [
  | inl e ↦ rw e (refl, λ t. omega arith, omega arith, λ some_wait. absurd (omega arith))
  | inr (x, xs, e) ↦
      let one : length (append k.ready_list x.item) - length k.ready_list ≡ 1 =
        omega (arith, longer-append k.ready_list x.item) in
      let front : (t : ℕ)
          → count_in t (append k.ready_list x.item) - count_in t k.ready_list ≡ one_for x.item t =
        λ t. omega (arith, count_in-append t k.ready_list x.item) in
      rw e (refl, λ t. omega (arith, front t), omega (arith, one), λ some_wait. one)
]

start-Balanced : (n : ℕ) → Balanced n (start n)
start-Balanced n = record {
  counted = refl;
  none_lost = λ t. refl;
  no_lost_wakeup = λ h. absurd (omega arith);
}

Step-Balanced : (n : ℕ) (u w : Use) → Balanced n u → Step u w → Balanced n w
Step-Balanced n _ _ b (p_passes u k k' s h) =
    let (value, queue) = p_round-passed u.sem s k k' h in
    record {
      counted = omega (arith, b.counted);
      none_lost = rw queue b.none_lost;
      no_lost_wakeup = λ some_wait. omega (arith, b.no_lost_wakeup (rw queue at some_wait));
    }
Step-Balanced n _ _ b (p_waits u k s a h) =
    let (empty, still, longer) = p_round-waits u.sem s k a h in
    record {
      counted = omega (arith, b.counted);
      none_lost = λ t. omega (arith, b.none_lost t, joined t u.sem s k longer);
      no_lost_wakeup = λ some_wait. omega arith;
    }
Step-Balanced n _ _ b (woken_passes u k k' s some_woken h) =
    let (value, queue) = p_round-passed u.sem s k k' h in
    record {
      counted = omega (arith, b.counted);
      none_lost =
          λ t. rw queue (omega (arith, b.none_lost t, own_one u.woken_of k.current t some_woken));
      no_lost_wakeup = λ some_wait. omega (arith, b.no_lost_wakeup (rw queue at some_wait));
    }
Step-Balanced n _ _ b (woken_waits u k s a some_woken h) =
    let (empty, still, longer) = p_round-waits u.sem s k a h in
    record {
      counted = omega (arith, b.counted);
      none_lost = λ t. omega (
        arith,
        b.none_lost t,
        joined t u.sem s k longer,
        own_one u.woken_of k.current t some_woken,
      );
      no_lost_wakeup = λ some_wait. omega arith;
    }
Step-Balanced n _ _ b (v_gives u k) =
    let (value, each, queue, one) = v-Given u.sem k in
    record {
      counted = omega (arith, b.counted, value);
      none_lost = λ t. omega (arith, b.none_lost t, each t);
      no_lost_wakeup = λ some_wait.
          let was_some : 0 < length u.sem.queue = omega (arith, queue, some_wait) in
          omega (arith, b.no_lost_wakeup was_some, value, one was_some);
    }

-- Whatever calls of `P` and `V` a semaphore that starts at `n` has seen, its value is `n` and what
-- was given less what was taken; of each thread, as many calls of `P` wait as it has elements on the queue
-- and was put on the ready list by `V` without having run yet; and while a thread is on the queue, the
-- value is no larger than the number of all those that `V` put there and that have yet to run, so that
-- none waits for a unit that nobody is to take.
pub Reachable-Balanced : (n : ℕ) (u : Use) → Reachable n u → Balanced n u
Reachable-Balanced n _ begin = start-Balanced n
Reachable-Balanced n _ (after x w r s) = Step-Balanced n x w (Reachable-Balanced n x r) s
