-- ===== src/Devices/Timer.antt =====
-- machine/timer.cc: the hardware timer, and its handler in threads/system.cc. What `Random` gives is an argument, as is the kernel's handler.
use csci350_project.Base.{
  ℕ, zero, suc, ◌+◌, ◌*◌, ◌%◌, ◌≤◌, ◌<◌, ◌≡◌, refl, ◌∙◌, arith, Bool, true, Option, some, ◌>>=◌,
  if◌then◌else◌,
}
use csci350_project.Base.Int.{pos}
use csci350_project.Interrupt.{Interrupt, schedule, timer_int, is_idle, yield_on_return}
use csci350_project.Interrupt.Calls.{Calls, schedules, schedule-some}

abbrev pub timer_ticks : ℕ
timer_ticks = 100

-- The class without its handler; `self` is the object's address, and `timer_handler` that of `TimerHandler`.
pub record Timer : Type 0 where
  pub self : ℕ
  pub timer_handler : ℕ
  pub randomize : Bool
  pub arg : ℕ

-- `Timer::TimeOfNextInterrupt`
unfoldable pub time_of_next_interrupt : Timer → ℕ → ℕ
time_of_next_interrupt t random =
    if t.randomize then 1 + random % (timer_ticks * 2) else timer_ticks

abbrev pub schedule_next : Timer → ℕ → Interrupt → Option Interrupt
schedule_next t random s =
    schedule s t.timer_handler t.self (pos (time_of_next_interrupt t random)) timer_int

-- The constructor.
unfoldable pub new_timer : ℕ → ℕ → Bool → ℕ → ℕ → Interrupt → Option (Timer × Interrupt)
new_timer self timer_handler randomize arg random s =
    let t : Timer = record {
      self = self;
      timer_handler = timer_handler;
      randomize = randomize;
      arg = arg;
    } in
    schedule_next t random s >>= λ s'. some (t, s')

-- `Timer::TimerExpired`
unfoldable pub timer_expired :
    (ℕ → Interrupt → Option Interrupt) → Timer → ℕ → Interrupt → Option Interrupt
timer_expired handler t random s = schedule_next t random s >>= λ s'. handler t.arg s'

-- `TimerInterruptHandler` of the kernel.
unfoldable pub timer_interrupt_handler : ℕ → Interrupt → Option Interrupt
timer_interrupt_handler dummy s = if is_idle s.status then some s else yield_on_return s

time_of_next_interrupt_bounds :
    (t : Timer) (random : ℕ)
    → (0 < time_of_next_interrupt t random) × (time_of_next_interrupt t random ≤ timer_ticks * 2)
unfolding time_of_next_interrupt
time_of_next_interrupt_bounds t random = (ground arith, ground arith)

schedule_lem :
    (s : Interrupt) (handler arg d : ℕ)
    → 0 < d
    → (s' : Interrupt) × (schedule s handler arg (pos d) timer_int ≡ some s')
      × (s'.in_handler ≡ s.in_handler)
schedule_lem s handler arg zero h = absurd (omega arith)
schedule_lem s handler arg (suc n) h = schedule-some s handler arg n timer_int

-- Where the kernel's handler comes back, and no more than schedules interrupts to come and asks for a
-- yield, so does `TimerExpired`, whatever `Random` gives: it first asks for the next interrupt of
-- the timer, one tick away at least and 200 at most, and then calls the handler.
pub timer_expired-Calls :
    (handler : ℕ → Interrupt → Option Interrupt) (t : Timer) (random : ℕ) (s : Interrupt)
    → ((a : ℕ) (s1 : Interrupt)
        → s1.in_handler ≡ true
        → (s2 : Interrupt) × (handler a s1 ≡ some s2) × Calls s1 s2)
    → s.in_handler ≡ true
    → (d : ℕ) × (s1 s' : Interrupt) × (0 < d)
      × (d ≤ 2 * timer_ticks)
      × (schedule s t.timer_handler t.self (pos d) timer_int ≡ some s1)
      × (handler t.arg s1 ≡ some s')
      × (timer_expired handler t random s ≡ some s')
      × Calls s s'
unfolding timer_expired
timer_expired-Calls handler t random s back inside =
    let d = time_of_next_interrupt t random in
    let (low, high) = time_of_next_interrupt_bounds t random in
    let (s1, asked, same) = schedule_lem s t.timer_handler t.self d low in
    let (s', called, calls) = back t.arg s1 (same ∙ inside) in
    (
      d,
      s1,
      s',
      low,
      omega (arith, high),
      asked,
      called,
      rw (asked, called) refl,
      schedules s s1 s' t.timer_handler t.self (pos d) timer_int asked calls,
    )
