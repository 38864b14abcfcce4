-- ===== src/Interrupt/Tick.antt =====
-- machine/interrupt.cc: `OneTick`, `SetLevel` and `Idle` as a whole.
use csci350_project.Base.{
  ℕ, ◌+◌, ◌≤◌, ◌<◌, ◌≡◌, max, refl, ap, ◌∙◌, arith, List, [], ◌∷◌, Bool, true, false, ◌&&◌, Option,
  none, some, if◌then◌else◌, Bool-cases, ◌⊎◌, inl, inr, length,
}
use csci350_project.Machine.{MachineStatus, idle_mode, system_mode}
use csci350_project.Threads.Chain.{ListElement, is_empty}
use csci350_project.Threads.Chain.Order.{Sorted}
use csci350_project.Interrupt.{
  PendingInterrupt, Interrupt, Handlers, is_idle, is_timer, is_system, check_all, change_level,
  advance_clock, TickEnd, resumed, yielding, one_tick, IdleEnd, woken, halting, set_level,
}
use csci350_project.Interrupt.Calls.{ComesBack, count_due}
use csci350_project.Interrupt.Loop.{Quiet, none_due, idle_timer, check_all-Settled}

count_due_le : (now : ℕ) (es : List (ListElement PendingInterrupt)) → count_due now es ≤ length es
count_due_le now [] = omega arith
count_due_le now (e ∷ es) = ground (arith, count_due_le now es)

-- How far a tick moves the clock.
abbrev pub tick : MachineStatus → ℕ
tick m = if is_system m then 10 else 1

-- After a tick: interrupts are on, the clock has moved by one tick, and no interrupt is due.
pub record Ticked (s s' : Interrupt) : Type 0 where
  pub on : s'.enabled ≡ true
  pub moved : s'.total_ticks ≡ s.total_ticks + tick s.status
  pub sorted : Sorted s'.pending
  pub none_left : count_due s'.total_ticks s'.pending ≡ 0
  pub no_wish : s'.yields ≡ false

-- How `OneTick` ends.
pub data TickOutcome (s : Interrupt) (r : Option TickEnd) : Type 0 where
  returns :
      (s' : Interrupt)
      → r ≡ some (resumed s')
      → s'.status ≡ s.status
      → Ticked s s'
      → TickOutcome s r
  switches :
      (s' : Interrupt)
      → r ≡ some (yielding s')
      → s'.status ≡ system_mode
      → Ticked s s'
      → TickOutcome s r

advance_clock_lem :
    (s : Interrupt)
    → ((advance_clock s).total_ticks ≡ s.total_ticks + tick s.status)
      × ((advance_clock s).pending ≡ s.pending)
      × ((advance_clock s).status ≡ s.status)
advance_clock_lem s = (ground arith, ground arith, ground arith)

awake : (s : Interrupt) → is_idle s.status ≡ false → Quiet s → count_due s.total_ticks s.pending ≡ 0
awake s busy (none_due q) = q
awake s busy (idle_timer e idles timer q) = cc

-- With handlers that come back, the pending interrupts in the order of their times and fuel for all
-- of them, a machine that is not idle comes to the end of `OneTick`, or to its call of `Yield`: the
-- clock has moved by one tick and every interrupt that was due has been called.
pub one_tick-TickOutcome :
    (h : Handlers) (fuel : ℕ) (s : Interrupt)
    → ComesBack h
    → Sorted s.pending
    → is_idle s.status ≡ false
    → length s.pending < fuel
    → TickOutcome s (one_tick h fuel s)
unfolding one_tick
one_tick-TickOutcome h fuel s back sorted busy room =
    let start = change_level (advance_clock s) false in
    let (moved, kept, mode) = advance_clock_lem s in
    let (s1, ended, settled) =
      check_all-Settled h back fuel start refl (rw kept sorted)
        (omega (arith, count_due_le start.total_ticks start.pending, ap length kept)) in
    let still_mode : s1.status ≡ s.status = settled.same_status ∙ mode in
    let left = awake s1 (ap is_idle still_mode ∙ busy) settled.quiet in
    elim (Bool-cases s1.yields) [
      | inl wish ↦
          switches (record (change_level s1 true) { yields = false; status = system_mode })
            (rw (ended, wish) refl) refl
            (record {
              on = refl;
              moved = settled.same_time ∙ moved;
              sorted = settled.sorted;
              none_left = left;
              no_wish = refl;
            })
      | inr no_wish ↦ returns (change_level s1 true) (rw (ended, no_wish) refl) still_mode (record {
        on = refl;
        moved = settled.same_time ∙ moved;
        sorted = settled.sorted;
        none_left = left;
        no_wish = no_wish;
      })
    ]

-- The timer alone is pending, or nothing is due.
abbrev pub Rests : Interrupt → Type 0
Rests s =
    (count_due s.total_ticks s.pending ≡ 0)
    ⊎ ((e : ListElement PendingInterrupt) × (s.pending ≡ e ∷ []) × (is_timer e.item.type ≡ true))

-- After the wait: when the clock stood at the time of the first interrupt, `now`, its handler was
-- called, unless that is the timer alone, and came back in `called`; then those of the others that
-- are due.
pub record Woken (h : Handlers) (fuel : ℕ) (s s' : Interrupt) : Type 0 where
  pub first : ListElement PendingInterrupt
  pub now : Interrupt
  pub called : Interrupt
  pub ended : Interrupt
  pub pending : s.pending ≡ first ∷ now.pending
  pub clock : now.total_ticks ≡ max first.key s.total_ticks
  pub not_alone : (is_timer first.item.type && is_empty now.pending) ≡ false
  pub idles : now.status ≡ idle_mode
  pub first_call :
      h first.item (record now { in_handler = true; status = system_mode }) ≡ some called
  pub other_calls :
      check_all h fuel (record called { in_handler = false; status = now.status }) ≡ some ended
  pub end : s' ≡ record ended { yields = false; status = system_mode }
  pub reached : s'.total_ticks ≡ max first.key s.total_ticks
  pub sorted : Sorted s'.pending
  pub rests : Rests s'

-- How `Idle` ends.
pub data IdleOutcome (h : Handlers) (fuel : ℕ) (s : Interrupt) (r : Option IdleEnd) : Type 0 where
  wakes : (s' : Interrupt) → r ≡ some (woken s') → Woken h fuel s s' → IdleOutcome h fuel s r
  halts :
      (s' : Interrupt)
      → r ≡ some (halting s')
      → (s.pending ≡ [])
        ⊎ ((e : ListElement PendingInterrupt) × (s.pending ≡ e ∷ [])
            × (is_timer e.item.type ≡ true))
      → IdleOutcome h fuel s r

-- The interrupt level: no handler may switch interrupts on, and to switch them off, or to leave them
-- on, takes no time.
pub set_level_lem :
    (h : Handlers) (fuel : ℕ) (s : Interrupt) (now : Bool)
    → ((now ≡ true) × (s.in_handler ≡ true) → set_level h fuel s now ≡ none)
      × ((now ≡ false) ⊎ ((s.enabled ≡ true) × (s.in_handler ≡ false))
          → set_level h fuel s now ≡ some (s.enabled, resumed (record s { enabled = now })))
unfolding set_level
set_level_lem h fuel s now = (
  (λ p. simp (p.0, p.1)),
  λ p. elim p [ inl off ↦ simp off | inr stays ↦ rw (stays.0, stays.1) (ground arith) ],
)
