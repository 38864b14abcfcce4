-- ===== src/Tests/Clock.antt =====
-- Pending interrupts at concrete inputs.
use csci350_project.Base.{◌≡◌, refl, arith, List, [], ◌∷◌, false, some, ◌>>=◌, ◌∙◌}
use csci350_project.Base.Int.{pos}
use csci350_project.Machine.{system_mode}
use csci350_project.Threads.Chain.{ListElement}
use csci350_project.Threads.Chain.Order.{Sorted}
use csci350_project.Interrupt.{
  PendingInterrupt, Interrupt, disk_int, timer_int, Handlers, schedule, check_if_due,
  yield_on_return, check_all,
}
use csci350_project.Interrupt.Calls.{
  ComesBack, done, schedules, yields, schedule-some, yield_on_return-some,
}
use csci350_project.Interrupt.Loop.{Settled, check_all-Settled}
use csci350_project.Interrupt.Due.{DueOutcome, check_if_due-DueOutcome}

-- The disk's interrupt at 20 and the timer's at 100, and it is 25.
abbrev pending : List (ListElement PendingInterrupt)
pending =
    record { item = record { handler = 1; arg = 7; when = 20; type = disk_int }; key = 20 }
    ∷ record { item = record { handler = 2; arg = 0; when = 100; type = timer_int }; key = 100 }
    ∷ []

abbrev clock : Interrupt
clock = record {
  enabled = false;
  pending = pending;
  in_handler = false;
  yields = false;
  status = system_mode;
  total_ticks = 25;
  idle_ticks = 0;
  system_ticks = 25;
  user_ticks = 0;
}

pending-Sorted : Sorted pending
pending-Sorted = ((omega arith, tt), (tt, tt))

-- A handler that comes back without a change.
abbrev quiet : Handlers
quiet to_occur s = some s

check_if_due-DueOutcome_example : DueOutcome quiet clock false (check_if_due quiet clock false)
check_if_due-DueOutcome_example = check_if_due-DueOutcome quiet clock false refl pending-Sorted

-- A handler that asks for the timer's next interrupt, 100 ticks from now, and for a yield.
abbrev timer : Handlers
timer to_occur s = schedule s to_occur.handler 0 (pos 100) timer_int >>= λ s'. yield_on_return s'

timer-ComesBack : ComesBack timer
timer-ComesBack e s h =
    let (s1, asked, keeps) = schedule-some s e.handler 0 99 timer_int in
    let (s2, wished) = yield_on_return-some s1 (keeps ∙ h) in
    (
      s2,
      rw (asked, wished) refl,
      schedules s s1 s2 e.handler 0 (pos 100) timer_int asked (yields s1 s2 s2 wished (done s2)),
    )

check_all-Settled_example :
    (s' : Interrupt) × (check_all timer 2 clock ≡ some s') × Settled clock s'
check_all-Settled_example =
    check_all-Settled timer timer-ComesBack 2 clock refl pending-Sorted (omega arith)
