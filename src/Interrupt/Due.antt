-- ===== src/Interrupt/Due.antt =====
-- machine/interrupt.cc: no interrupt occurs before its time, and the earliest one occurs first.
use csci350_project.Base.{
  ℕ, suc, ◌+◌, ◌≤◌, ◌<◌, ◌≡◌, max, refl, sym, ap, ◌∙◌, arith, List, [], ◌∷◌, ◌++◌, Bool, true,
  false, not, ◌&&◌, Option, none, some, ◌>>=◌, ltb, ltb→lt, if◌then◌else◌, Bool-cases, inl, inr,
}
use csci350_project.Base.Int.{pos}
use csci350_project.Machine.{system_mode}
use csci350_project.Threads.Chain.{ListElement, is_empty, sorted_insert, remove-cases}
use csci350_project.Threads.Chain.Order.{
  Sorted, AtLeast, lower, upper, sorted_insert-Sorted, sorted_insert-lower,
}
use csci350_project.Interrupt.{
  PendingInterrupt, Interrupt, IntType, Handlers, schedule, is_idle, is_timer, put_back, advance_to,
  fire, check_if_due,
}

-- `now` is `s` with other interrupts pending, where the clock, if it may advance, was moved on to the
-- time `at`, unless that is past, and the wait counted as idle.
pub record Waited (s : Interrupt) (advance_clock : Bool) (at : ℕ) (now : Interrupt) : Type 0 where
  pub same_level : now.enabled ≡ s.enabled
  pub same_status : now.status ≡ s.status
  pub same_wish : now.yields ≡ s.yields
  pub clock : now.total_ticks ≡ (if advance_clock then max at s.total_ticks else s.total_ticks)
  pub idled : now.idle_ticks + s.total_ticks ≡ s.idle_ticks + now.total_ticks

pub still :
    {s now : Interrupt} {advance_clock : Bool} {at : ℕ}
    → Waited s advance_clock at now
    → advance_clock ≡ false
    → now.total_ticks ≡ s.total_ticks
still w stays = w.clock ∙ rw stays refl

-- How `CheckIfDue` ends: with nothing pending; with the earliest one yet to come, and put back behind
-- those of the same time; with the timer as the idle machine's only interrupt; or, where that is not
-- so, by the handler of the earliest one, at a time that is not before its own.
pub data DueOutcome (h : Handlers) (s : Interrupt) (advance_clock : Bool)
    (r : Option (Bool × Interrupt)) : Type 0 where
  nothing : s.pending ≡ [] → r ≡ some (false, s) → DueOutcome h s advance_clock r
  early :
      (e : ListElement PendingInterrupt) (rest : List (ListElement PendingInterrupt))
      → s.pending ≡ e ∷ rest
      → advance_clock ≡ false
      → s.total_ticks < e.key
      → r ≡ some (false, record s { pending = lower e.key rest ++ (e ∷ upper e.key rest) })
      → DueOutcome h s advance_clock r
  lone_timer :
      (e : ListElement PendingInterrupt) (now : Interrupt)
      → s.pending ≡ e ∷ []
      → is_idle s.status ≡ true
      → is_timer e.item.type ≡ true
      → now.pending ≡ e ∷ []
      → e.key ≤ now.total_ticks
      → Waited s advance_clock e.key now
      → r ≡ some (false, now)
      → DueOutcome h s advance_clock r
  fires :
      (e : ListElement PendingInterrupt) (now : Interrupt)
      → s.pending ≡ e ∷ now.pending
      → AtLeast e.key now.pending
      → e.key ≤ now.total_ticks
      → Waited s advance_clock e.key now
      → (is_idle s.status && (is_timer e.item.type && is_empty now.pending)) ≡ false
      → r ≡ (
          h e.item (record now { in_handler = true; status = system_mode }) >>= λ s'.
          some (true, record s' { in_handler = false; status = s.status }))
      → DueOutcome h s advance_clock r

-- The function once the list is seen to have a first element.
from_front :
    (h : Handlers) (s : Interrupt) (advance_clock : Bool) (e : ListElement PendingInterrupt)
    (rest : List (ListElement PendingInterrupt))
    → s.enabled ≡ false
    → s.pending ≡ e ∷ rest
    → let s0 = record s { pending = rest } in
      let s1 = if advance_clock then advance_to e.key s0 else s0 in
      check_if_due h s advance_clock ≡ (
        if not advance_clock && ltb s0.total_ticks e.key
        then some (false, put_back e s0)
        else (if is_idle s1.status && (is_timer e.item.type && is_empty s1.pending)
            then some (false, put_back e s1)
            else fire h e.item s1))
unfolding check_if_due
from_front h s advance_clock e rest off split = simp (off, split)

empty_pending :
    (h : Handlers) (s : Interrupt) (advance_clock : Bool)
    → s.enabled ≡ false
    → s.pending ≡ []
    → check_if_due h s advance_clock ≡ some (false, s)
unfolding check_if_due
empty_pending h s advance_clock off none_left = simp (off, none_left)

empty-nil : (es : List (ListElement PendingInterrupt)) → is_empty es ≡ true → es ≡ []
empty-nil [] h = refl
empty-nil (e ∷ es) h = cc

all_three : (a b c : Bool) → (a && (b && c)) ≡ true → (a ≡ true) × (b ≡ true) × (c ≡ true)
all_three a b c h = (ground arith, ground arith, ground arith)

-- What follows once the clock stands at a time that is not before that of `e`.
at_time :
    (h : Handlers) (s : Interrupt) (advance_clock : Bool) (e : ListElement PendingInterrupt)
    (now : Interrupt) (r : Option (Bool × Interrupt))
    → s.pending ≡ e ∷ now.pending
    → Waited s advance_clock e.key now
    → AtLeast e.key now.pending × Sorted now.pending
    → e.key ≤ now.total_ticks
    → r ≡ (
        if is_idle now.status && (is_timer e.item.type && is_empty now.pending)
        then some (false, put_back e now)
        else fire h e.item now)
    → DueOutcome h s advance_clock r
at_time h s advance_clock e now r split waited order due result =
    elim (Bool-cases (is_idle now.status && (is_timer e.item.type && is_empty now.pending))) [
      | inl lone ↦
          let (idle, timer, none_left) = all_three _ _ _ lone in
          let nil : now.pending ≡ [] = empty-nil now.pending none_left in
          lone_timer e (put_back e now) (split ∙ ap (◌∷◌ e) nil) (rw (← waited.same_status) idle)
            timer (sorted_insert-lower now.pending e.item e.key order.1 ∙ rw nil refl) due
            (record {
              same_level = waited.same_level;
              same_status = waited.same_status;
              same_wish = waited.same_wish;
              clock = waited.clock;
              idled = waited.idled;
            })
            (result ∙ simp lone)
      | inr other ↦
          let not_alone : (is_idle s.status && (is_timer e.item.type && is_empty now.pending))
              ≡ false =
            rw (← waited.same_status) other in
          fires e now split order.0 due waited not_alone
            (result ∙ simp (waited.same_status, not_alone))
    ]

advance_to_lem :
    (at : ℕ) (s : Interrupt)
    → let now = advance_to at s in
      (now.pending ≡ s.pending)
      × (now.status ≡ s.status)
      × (now.enabled ≡ s.enabled)
      × (now.yields ≡ s.yields)
      × (now.total_ticks ≡ max at s.total_ticks)
      × (now.idle_ticks + s.total_ticks ≡ s.idle_ticks + now.total_ticks)
advance_to_lem at s =
    (ground arith, ground arith, ground arith, ground arith, ground arith, ground arith)

-- With interrupts off and the pending ones in the order of their times, `CheckIfDue` ends in one of
-- those ways: the clock stands still, or is moved on exactly to the earliest one's time.
pub check_if_due-DueOutcome :
    (h : Handlers) (s : Interrupt) (advance_clock : Bool)
    → s.enabled ≡ false
    → Sorted s.pending
    → DueOutcome h s advance_clock (check_if_due h s advance_clock)
check_if_due-DueOutcome h s advance_clock off sorted = elim (remove-cases s.pending) [
  | inl e ↦ nothing e (empty_pending h s advance_clock off e)
  | inr (e, rest, split) ↦
      let order : Sorted (e ∷ rest) = rw split at sorted in
      elim (Bool-cases advance_clock) [
        | inr stay ↦ elim (Bool-cases (ltb s.total_ticks e.key)) [
          | inl late ↦ early e rest split stay (ltb→lt _ _ late) (
              from_front h s advance_clock e rest off split
              ∙ rw (stay, late, sorted_insert-lower rest e.item e.key order.1))
          | inr due ↦
              at_time h s advance_clock e (record s { pending = rest }) _ split
                (record {
                  same_level = refl;
                  same_status = refl;
                  same_wish = refl;
                  clock = rw stay refl;
                  idled = refl;
                })
                order (ground arith)
                (from_front h s advance_clock e rest off split ∙ rw (stay, due))
        ]
        | inl go ↦
            let now = advance_to e.key (record s { pending = rest }) in
            let (kept, same, level, wish, moved, idled) =
              advance_to_lem e.key (record s { pending = rest }) in
            at_time h s advance_clock e now _ (split ∙ ap (◌∷◌ e) (sym kept))
              (record {
                same_level = level;
                same_status = same;
                same_wish = wish;
                clock = rw go moved;
                idled = idled;
              })
              (rw kept order) (omega (arith, moved))
              (from_front h s advance_clock e rest off split ∙ rw go)
      ]
]

-- In a list of pending interrupts in the order of their times, `Schedule` with a time to come puts
-- the new one behind all that are due up to its own time, and keeps that order.
pub schedule-Sorted :
    (s : Interrupt) (handler arg n : ℕ) (type : IntType)
    → Sorted s.pending
    → let at = s.total_ticks + suc n in
      (s' : Interrupt) × (schedule s handler arg (pos (suc n)) type ≡ some s')
      × (s'.pending
          ≡ lower at s.pending
            ++ (record {
              item = record { handler = handler; arg = arg; when = at; type = type };
              key = at;
            }
                ∷ upper at s.pending))
      × Sorted s'.pending
unfolding schedule
schedule-Sorted s handler arg n type sorted =
    let at = s.total_ticks + suc n in
    let e : PendingInterrupt = record { handler = handler; arg = arg; when = at; type = type } in
    (
      record s { pending = sorted_insert s.pending e at },
      refl,
      sorted_insert-lower s.pending e at sorted,
      sorted_insert-Sorted s.pending e at sorted,
    )

-- `Schedule` takes no time.
pub schedule-total_ticks :
    (s s' : Interrupt) (handler arg n : ℕ) (type : IntType)
    → schedule s handler arg (pos (suc n)) type ≡ some s'
    → s'.total_ticks ≡ s.total_ticks
unfolding schedule
schedule-total_ticks s s' handler arg n type h =
    sym (ap (λ x. elim x [ none ↦ s.total_ticks | some t ↦ t.total_ticks ]) h)
