-- ===== src/Devices/Console.antt =====
-- machine/console.cc: a console over two files of the host. The kernel's interrupt handlers are
-- arguments, as the code calls them through pointers; `none` is a failed ASSERT, or a handler that does
-- not come back.
pub mod Stream
use csci350_project.Base.{
  ℕ, zero, suc, ◌+◌, Bool, true, false, not, ◌||◌, List, [], ◌∷◌, ◌++◌, Option, none, some, ◌==◌,
  if◌then◌else◌, ◌>>=◌,
}
use csci350_project.Base.Int.{ℤ, pos}
use csci350_project.Interrupt.{Interrupt, schedule, console_write_int, console_read_int}

-- EOF as a `char`.
abbrev pub eof : ℕ
eof = 255

abbrev pub console_time : ℕ
console_time = 100

-- `(*readHandler)(handlerArg)` and `(*writeHandler)(handlerArg)`
abbrev pub DeviceHandler : Type 0
DeviceHandler = ℕ → Interrupt → Option Interrupt

-- The class, with what is left in `readFile`, what went to `writeFile`, and the two counters of `stats`.
-- `self` is the address of the object; `Schedule` gets the address of a function, which is
-- an argument.
pub record Console : Type 0 where
  pub self : ℕ
  pub handler_arg : ℕ
  pub put_busy : Bool
  pub incoming : ℕ
  pub keyboard : List ℕ
  pub display : List ℕ
  pub num_chars_read : ℕ
  pub num_chars_written : ℕ

-- The constructor, once the files are open.
unfoldable pub new_console : ℕ → ℕ → ℕ → List ℕ → Interrupt → Option (Console × Interrupt)
new_console read_poll self handler_arg keyboard s =
    schedule s read_poll self (pos console_time) console_read_int >>= λ s'. some (
      record {
        self = self;
        handler_arg = handler_arg;
        put_busy = false;
        incoming = eof;
        keyboard = keyboard;
        display = [];
        num_chars_read = 0;
        num_chars_written = 0;
      },
      s',
    )

-- The rest of `CheckCharAvail`, where a character is to be read.
unfoldable pub take_char : DeviceHandler → Console → Interrupt → Option (Console × Interrupt)
take_char read_handler c s = elim c.keyboard [
  | [] ↦ none
  | ch ∷ rest ↦ read_handler c.handler_arg s >>= λ s'.
      some (record c { incoming = ch; keyboard = rest; num_chars_read = c.num_chars_read + 1 }, s')
]

-- `Console::CheckCharAvail`; `ready` is what `PollFile` answers.
unfoldable pub check_char_avail :
    ℕ → DeviceHandler → Bool → Console → Interrupt → Option (Console × Interrupt)
check_char_avail read_poll read_handler ready c s =
    schedule s read_poll c.self (pos console_time) console_read_int >>= λ s1.
    if not (c.incoming == eof) || not ready then some (c, s1) else take_char read_handler c s1

-- `Console::GetChar`
unfoldable pub get_char : Console → ℕ × Console
get_char c = (c.incoming, record c { incoming = eof })

-- `Console::PutChar`
unfoldable pub put_char : ℕ → Console → Interrupt → ℕ → Option (Console × Interrupt)
put_char write_done_poll c s ch =
    if c.put_busy
    then none
    else (schedule s write_done_poll c.self (pos console_time) console_write_int >>= λ s'.
        some (record c { display = c.display ++ (ch ∷ []); put_busy = true }, s'))

-- `Console::WriteDone`
unfoldable pub write_done : DeviceHandler → Console → Interrupt → Option (Console × Interrupt)
write_done write_handler c s = write_handler c.handler_arg s >>= λ s'.
    some (record c { put_busy = false; num_chars_written = c.num_chars_written + 1 }, s')
