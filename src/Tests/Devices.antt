-- ===== src/Tests/Devices.antt =====
-- The console and the timer at concrete inputs.
use csci350_project.Base.{
  ℕ, ◌*◌, ◌≤◌, ◌<◌, ◌≡◌, refl, arith, true, false, Bool-cases, inl, inr, [], ◌∷◌, some,
}
use csci350_project.Base.Int.{pos}
use csci350_project.Machine.{system_mode}
use csci350_project.Interrupt.{Interrupt, schedule, timer_int, console_read_int, is_idle}
use csci350_project.Interrupt.Calls.{Calls, done, yields, schedule-some, yield_on_return-some}
use csci350_project.Devices.Console.{
  Console, DeviceHandler, eof, new_console, check_char_avail, take_char, get_char,
}
use csci350_project.Devices.Console.Stream.{made, polled, asked, IsStream, Reaches-IsStream}
use csci350_project.Devices.Timer.{
  Timer, timer_ticks, timer_expired, timer_interrupt_handler, timer_expired-Calls,
}

abbrev now : Interrupt
now = record {
  enabled = false;
  pending = [];
  in_handler = true;
  yields = false;
  status = system_mode;
  total_ticks = 25;
  idle_ticks = 0;
  system_ticks = 25;
  user_ticks = 0;
}

abbrev silent : DeviceHandler
silent arg s = some s

-- "hi" at the keyboard, of which the kernel has the first character.
abbrev fresh_console : Console
fresh_console = record {
  self = 4;
  handler_arg = 0;
  put_busy = false;
  incoming = eof;
  keyboard = 104 ∷ 105 ∷ [];
  display = [];
  num_chars_read = 0;
  num_chars_written = 0;
}

abbrev one_read : Console
one_read = record fresh_console { keyboard = 105 ∷ []; num_chars_read = 1 }

makes : (s' : Interrupt) × (new_console 1 4 0 (104 ∷ 105 ∷ []) now ≡ some (fresh_console, s'))
unfolding new_console
makes =
    let (s', scheduled, keeps) = schedule-some now 1 4 99 console_read_int in
    (s', rw scheduled refl)

polls :
    (s' : Interrupt) × (check_char_avail 1 silent true fresh_console now
      ≡ some (record one_read { incoming = 104 }, s'))
unfolding check_char_avail take_char
polls =
    let (s', scheduled, keeps) = schedule-some now 1 4 99 console_read_int in
    (s', rw scheduled refl)

Reaches-IsStream_example : IsStream (104 ∷ 105 ∷ []) one_read (104 ∷ [])
unfolding get_char
Reaches-IsStream_example =
    Reaches-IsStream (104 ∷ 105 ∷ []) (104 ∷ []) one_read
      ((λ e. omega arith), ((λ e. omega arith), tt))
      (asked (record one_read { incoming = 104 }) []
        (polled 1 silent true fresh_console (record one_read { incoming = 104 }) now polls.0 []
          (made 1 4 0 now makes.0 fresh_console makes.1) polls.1))

abbrev timer : Timer
timer = record { self = 9; timer_handler = 2; randomize = true; arg = 0 }

timer_interrupt_handler-Calls :
    (a : ℕ) (s1 : Interrupt)
    → s1.in_handler ≡ true
    → (s2 : Interrupt) × (timer_interrupt_handler a s1 ≡ some s2) × Calls s1 s2
unfolding timer_interrupt_handler
timer_interrupt_handler-Calls a s1 h = elim (Bool-cases (is_idle s1.status)) [
  | inl idle ↦ (s1, rw idle refl, done s1)
  | inr busy ↦
      let (s2, wished) = yield_on_return-some s1 h in
      (s2, rw (busy, wished) refl, yields s1 s2 s2 wished (done s2))
]

timer_expired-Calls_example :
    (d : ℕ) × (s1 s' : Interrupt) × (0 < d)
    × (d ≤ 2 * timer_ticks)
    × (schedule now 2 9 (pos d) timer_int ≡ some s1)
    × (timer_interrupt_handler 0 s1 ≡ some s')
    × (timer_expired timer_interrupt_handler timer 31337 now ≡ some s')
    × Calls now s'
timer_expired-Calls_example =
    timer_expired-Calls timer_interrupt_handler timer 31337 now timer_interrupt_handler-Calls refl
