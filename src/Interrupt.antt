-- ===== src/Interrupt.antt =====
-- machine/interrupt.cc: the interrupts that are to occur, in the order of their times. A handler is
-- code of the devices or the kernel, and an argument here; it may not come back.
pub mod Due
pub mod Calls
pub mod Loop
pub mod Tick
use csci350_project.Base.{
  ℕ, zero, suc, ◌+◌, ◌-◌, List, [], ◌∷◌, Bool, true, false, not, ◌&&◌, Option, none, some, ltb,
  if◌then◌else◌, ◌>>=◌,
}
use csci350_project.Base.Int.{ℤ, pos, negsuc}
use csci350_project.Machine.{MachineStatus, idle_mode, system_mode, user_mode}
use csci350_project.Threads.Chain.{ListElement, is_empty, sorted_insert, sorted_remove}

pub data IntType : Type 0 where
  timer_int disk_int console_write_int console_read_int network_send_int network_recv_int : IntType

-- `handler` is the address of the function, and the fields `when` and `type` have the same names.
pub record PendingInterrupt : Type 0 where
  pub handler : ℕ
  pub arg : ℕ
  pub when : ℕ
  pub type : IntType

-- The class, with the counters of `stats` that its operations change.
pub record Interrupt : Type 0 where
  pub enabled : Bool
  pub pending : List (ListElement PendingInterrupt)
  pub in_handler : Bool
  pub yields : Bool
  pub status : MachineStatus
  pub total_ticks : ℕ
  pub idle_ticks : ℕ
  pub system_ticks : ℕ
  pub user_ticks : ℕ

abbrev pub Handlers : Type 0
Handlers = PendingInterrupt → Interrupt → Option Interrupt

-- `Interrupt::YieldOnReturn`
pub yield_on_return : Interrupt → Option Interrupt
yield_on_return s = if s.in_handler then some (record s { yields = true }) else none

-- `Interrupt::Schedule`; the ASSERT wants a time to come.
unfoldable pub schedule : Interrupt → ℕ → ℕ → ℤ → IntType → Option Interrupt
schedule s handler arg (pos zero) type = none
schedule s handler arg (pos (suc n)) type =
    let at = s.total_ticks + suc n in
    let to_occur : PendingInterrupt = record {
      handler = handler;
      arg = arg;
      when = at;
      type = type;
    } in
    some (record s { pending = sorted_insert s.pending to_occur at })
schedule s handler arg (negsuc n) type = none

abbrev pub is_idle : MachineStatus → Bool
is_idle idle_mode = true
is_idle system_mode = false
is_idle user_mode = false

abbrev pub is_timer : IntType → Bool
is_timer timer_int = true
is_timer t = false

-- `toOccur` goes back into the list.
abbrev pub put_back : ListElement PendingInterrupt → Interrupt → Interrupt
put_back e s = record s { pending = sorted_insert s.pending e.item e.key }

-- The clock after a wait for the time `at`.
abbrev pub advance_to : ℕ → Interrupt → Interrupt
advance_to at s =
    if ltb s.total_ticks at
    then record s { idle_ticks = s.idle_ticks + (at - s.total_ticks); total_ticks = at }
    else s

-- The call of the handler, from `inHandler = TRUE` on.
abbrev pub fire : Handlers → PendingInterrupt → Interrupt → Option (Bool × Interrupt)
fire h to_occur s = h to_occur (record s { in_handler = true; status = system_mode }) >>= λ s'.
    some (true, record s' { in_handler = false; status = s.status })

-- `Interrupt::CheckIfDue`
pub check_if_due : Handlers → Interrupt → Bool → Option (Bool × Interrupt)
check_if_due h s advance_clock = if s.enabled then none else elim (sorted_remove s.pending) [
  | none ↦ some (false, s)
  | some front ↦
      let e = front.0 in
      let s0 = record s { pending = front.1 } in
      let s1 = if advance_clock then advance_to e.key s0 else s0 in
      if not advance_clock && ltb s0.total_ticks e.key
      then some (false, put_back e s0)
      else (if is_idle s1.status && (is_timer e.item.type && is_empty s1.pending)
          then some (false, put_back e s1)
          else fire h e.item s1)
]

-- `Interrupt::ChangeLevel`
abbrev pub change_level : Interrupt → Bool → Interrupt
change_level s now = record s { enabled = now }

-- The loop that calls `CheckIfDue` until it answers FALSE, with what is left of the fuel.
pub check_all : Handlers → ℕ → Interrupt → Option Interrupt
check_all h zero s = none
check_all h (suc fuel) s =
    check_if_due h s false >>= λ (fired, s'). if fired then check_all h fuel s' else some s'

abbrev pub is_system : MachineStatus → Bool
is_system idle_mode = false
is_system system_mode = true
is_system user_mode = false

abbrev pub advance_clock : Interrupt → Interrupt
advance_clock s =
    if is_system s.status
    then record s { total_ticks = s.total_ticks + 10; system_ticks = s.system_ticks + 10 }
    else record s { total_ticks = s.total_ticks + 1; user_ticks = s.user_ticks + 1 }

-- `Interrupt::OneTick`, to its end or to its call of `Thread::Yield`.
pub data TickEnd : Type 0 where
  resumed : Interrupt → TickEnd
  yielding : Interrupt → TickEnd

pub one_tick : Handlers → ℕ → Interrupt → Option TickEnd
one_tick h fuel s = check_all h fuel (change_level (advance_clock s) false) >>= λ s1.
    let s2 = change_level s1 true in
    some (
      if s2.yields
      then yielding (record s2 { yields = false; status = system_mode })
      else resumed s2)

-- What follows the `Yield` in `OneTick`.
pub after_yield : MachineStatus → Interrupt → Interrupt
after_yield old s = record s { status = old }

-- `Interrupt::SetLevel`: the old level, and how it ends.
pub set_level : Handlers → ℕ → Interrupt → Bool → Option (Bool × TickEnd)
set_level h fuel s now =
    let old = s.enabled in
    let s1 = change_level s now in
    if now && s.in_handler
    then none
    else (if now && not old
        then (one_tick h fuel s1 >>= λ end. some (old, end))
        else some (old, resumed s1))

-- `Interrupt::Idle`, to its return or to its call of `Halt`.
pub data IdleEnd : Type 0 where
  woken : Interrupt → IdleEnd
  halting : Interrupt → IdleEnd

pub idle : Handlers → ℕ → Interrupt → Option IdleEnd
idle h fuel s = check_if_due h (record s { status = idle_mode }) true >>= λ (fired, s1).
    if fired
    then (check_all h fuel s1 >>= λ s2.
        some (woken (record s2 { yields = false; status = system_mode })))
    else some (halting s1)
