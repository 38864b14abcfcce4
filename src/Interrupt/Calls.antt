-- ===== src/Interrupt/Calls.antt =====
-- machine/interrupt.cc: what a handler does to the interrupts that are due.
use csci350_project.Base.{
  ℕ, zero, suc, ◌+◌, ◌≤◌, ◌<◌, ◌≡◌, refl, subst, ◌∙◌, arith, List, [], ◌∷◌, true, some, leb,
  if◌then◌else◌, Bool-cases, inl, inr,
}
use csci350_project.Base.Int.{ℤ, pos, negsuc}
use csci350_project.Threads.Chain.{ListElement, sorted_insert}
use csci350_project.Threads.Chain.Order.{Sorted, AtLeast, sorted_insert-Sorted}
use csci350_project.Interrupt.{
  PendingInterrupt, Interrupt, IntType, Handlers, schedule, yield_on_return,
}

-- What a handler may do to the clock: schedule interrupts and ask for a yield.
pub data Calls : Interrupt → Interrupt → Type 0 where
  done : (s : Interrupt) → Calls s s
  schedules :
      (s s1 s2 : Interrupt) (handler arg : ℕ) (from_now : ℤ) (type : IntType)
      → schedule s handler arg from_now type ≡ some s1
      → Calls s1 s2
      → Calls s s2
  yields : (s s1 s2 : Interrupt) → yield_on_return s ≡ some s1 → Calls s1 s2 → Calls s s2

-- Every handler comes back, and does no more than that.
abbrev pub ComesBack : Handlers → Type 0
ComesBack h =
    (e : PendingInterrupt) (s : Interrupt)
    → s.in_handler ≡ true
    → (s' : Interrupt) × (h e s ≡ some s') × Calls s s'

-- How many interrupts are due at a time.
abbrev pub count_due : ℕ → List (ListElement PendingInterrupt) → ℕ
count_due now [] = 0
count_due now (e ∷ es) = (if leb e.key now then 1 else 0) + count_due now es

pub count_due-sorted_insert :
    (now : ℕ) (es : List (ListElement PendingInterrupt)) (x : PendingInterrupt) (k : ℕ)
    → now < k
    → count_due now (sorted_insert es x k) ≡ count_due now es
unfolding sorted_insert
count_due-sorted_insert now [] x k h = ground arith
count_due-sorted_insert now (e ∷ es) x k h = ground (arith, count_due-sorted_insert now es x k h)

pub AtLeast-count_due :
    (now k : ℕ) (es : List (ListElement PendingInterrupt))
    → AtLeast k es
    → now < k
    → count_due now es ≡ 0
AtLeast-count_due now k [] a h = refl
AtLeast-count_due now k (e ∷ es) a h = ground (arith, AtLeast-count_due now k es a.1 h)

pub count_due_cons :
    (now : ℕ) (e : ListElement PendingInterrupt) (es : List (ListElement PendingInterrupt))
    → e.key ≤ now
    → count_due now (e ∷ es) ≡ 1 + count_due now es
count_due_cons now e es h = ground arith

-- `s'` is as `s` but for interrupts to come and the wish for a yield.
pub record Later (s s' : Interrupt) : Type 0 where
  pub same_time : s'.total_ticks ≡ s.total_ticks
  pub same_level : s'.enabled ≡ s.enabled
  pub same_status : s'.status ≡ s.status
  pub same_due : count_due s'.total_ticks s'.pending ≡ count_due s.total_ticks s.pending
  pub sorted : Sorted s.pending → Sorted s'.pending

Later-trans : (a b c : Interrupt) → Later a b → Later b c → Later a c
Later-trans a b c p q = record {
  same_time = q.same_time ∙ p.same_time;
  same_level = q.same_level ∙ p.same_level;
  same_status = q.same_status ∙ p.same_status;
  same_due = q.same_due ∙ p.same_due;
  sorted = λ h. q.sorted (p.sorted h);
}

-- What `Schedule` adds is not due yet.
schedule-Later :
    (s s1 : Interrupt) (handler arg : ℕ) (from_now : ℤ) (type : IntType)
    → schedule s handler arg from_now type ≡ some s1
    → Later s s1
unfolding schedule
schedule-Later s s1 handler arg (negsuc n) type h = cc
schedule-Later s s1 handler arg (pos zero) type h = cc
schedule-Later s s1 handler arg (pos (suc n)) type h =
    let at = s.total_ticks + suc n in
    let e : PendingInterrupt = record { handler = handler; arg = arg; when = at; type = type } in
    let same : record s { pending = sorted_insert s.pending e at } ≡ s1 = cc in
    subst (Later s) same (record {
      same_time = refl;
      same_level = refl;
      same_status = refl;
      same_due = count_due-sorted_insert s.total_ticks s.pending e at (omega arith);
      sorted = λ h. sorted_insert-Sorted s.pending e at h;
    })

yield_on_return-Later : (s s1 : Interrupt) → yield_on_return s ≡ some s1 → Later s s1
unfolding yield_on_return
yield_on_return-Later s s1 h = elim (Bool-cases s.in_handler) [
  | inr out ↦ ground arith
  | inl in_one ↦
      let ends : yield_on_return s ≡ some (record s { yields = true }) = simp in_one in
      let same : record s { yields = true } ≡ s1 = cc in
      subst (Later s) same (record {
        same_time = refl;
        same_level = refl;
        same_status = refl;
        same_due = refl;
        sorted = λ h. h;
      })
]

pub Calls-Later : (s s' : Interrupt) → Calls s s' → Later s s'
Calls-Later s last (done t) = record {
  same_time = refl;
  same_level = refl;
  same_status = refl;
  same_due = refl;
  sorted = λ h. h;
}
Calls-Later s last (schedules a s1 s2 handler arg from_now type e rest) =
    Later-trans a s1 s2 (schedule-Later a s1 handler arg from_now type e) (Calls-Later s1 s2 rest)
Calls-Later s last (yields a s1 s2 e rest) =
    Later-trans a s1 s2 (yield_on_return-Later a s1 e) (Calls-Later s1 s2 rest)

-- A time to come can be asked for, and a handler can ask for a yield.
pub schedule-some :
    (s : Interrupt) (handler arg n : ℕ) (type : IntType)
    → (s' : Interrupt) × (schedule s handler arg (pos (suc n)) type ≡ some s')
      × (s'.in_handler ≡ s.in_handler)
unfolding schedule
schedule-some s handler arg n type = (_, refl, refl)

pub yield_on_return-some :
    (s : Interrupt) → s.in_handler ≡ true → (s' : Interrupt) × (yield_on_return s ≡ some s')
unfolding yield_on_return
yield_on_return-some s h = (record s { yields = true }, simp h)
