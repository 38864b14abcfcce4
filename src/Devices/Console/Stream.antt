-- ===== src/Devices/Console/Stream.antt =====
-- machine/console.cc: the characters that the kernel gets are those of the keyboard, in their order.
use csci350_project.Base.{
  ℕ, ◌+◌, ◌≡◌, ◌≢◌, refl, sym, ap, ◌∙◌, arith, Bool, false, not, ◌||◌, Bool-cases, inl, inr, List,
  [], ◌∷◌, ◌++◌, Option, none, some, ◌==◌, ==_iff, ==_false, subst, length-append, if◌then◌else◌,
  >>=-eq-some, length,
}
use csci350_project.Base.Int.{pos}
use csci350_project.Interrupt.{Interrupt, schedule, console_read_int}
use csci350_project.Devices.Console.{
  Console, DeviceHandler, eof, console_time, new_console, take_char, check_char_avail, get_char,
  put_char, write_done,
}

-- No character is EOF.
abbrev pub IsText : List ℕ → Type 0
IsText [] = Unit
IsText (ch ∷ chars) = (ch ≢ eof) × IsText chars

-- What `GetChar` gave: a character, or nothing for EOF.
abbrev pub gotten : ℕ → List ℕ
gotten ch = if ch == eof then [] else ch ∷ []

-- The calls of a console in any order, with any clock, until `got` are the characters that the kernel
-- got; `typed` is what stood in the keyboard's file.
pub data Reaches (typed : List ℕ) : Console → List ℕ → Type 0 where
  made :
      (read_poll self arg : ℕ) (s s' : Interrupt) (c : Console)
      → new_console read_poll self arg typed s ≡ some (c, s')
      → Reaches typed c []
  polled :
      (read_poll : ℕ) (read_handler : DeviceHandler) (ready : Bool) (c c' : Console)
      (s s' : Interrupt) (got : List ℕ)
      → Reaches typed c got
      → check_char_avail read_poll read_handler ready c s ≡ some (c', s')
      → Reaches typed c' got
  asked :
      (c : Console) (got : List ℕ)
      → Reaches typed c got
      → Reaches typed (get_char c).1 (got ++ gotten (get_char c).0)
  put :
      (write_done_poll : ℕ) (c c' : Console) (s s' : Interrupt) (ch : ℕ) (got : List ℕ)
      → Reaches typed c got
      → put_char write_done_poll c s ch ≡ some (c', s')
      → Reaches typed c' got
  wrote :
      (write_handler : DeviceHandler) (c c' : Console) (s s' : Interrupt) (got : List ℕ)
      → Reaches typed c got
      → write_done write_handler c s ≡ some (c', s')
      → Reaches typed c' got

-- The state of the input.
pub record IsStream (typed : List ℕ) (c : Console) (got : List ℕ) : Type 0 where
  pub all : got ++ (gotten c.incoming ++ c.keyboard) ≡ typed
  pub text : IsText c.keyboard
  pub counted : c.num_chars_read ≡ length (got ++ gotten c.incoming)

-- The part of a console that the input is about.
abbrev SameInput : Console → Console → Type 0
SameInput c c' =
    (c'.incoming ≡ c.incoming) × (c'.keyboard ≡ c.keyboard) × (c'.num_chars_read ≡ c.num_chars_read)

SameInput-IsStream :
    (typed got : List ℕ) (c c' : Console)
    → SameInput c c'
    → IsStream typed c got
    → IsStream typed c' got
SameInput-IsStream typed got c c' (incoming, keyboard, count) o = record {
  all = rw (incoming, keyboard) o.all;
  text = subst IsText (sym keyboard) o.text;
  counted = count ∙ o.counted ∙ ap (λ ch. length (got ++ gotten ch)) (sym incoming);
}

take_char_lem :
    (read_handler : DeviceHandler) (c c' : Console) (s s' : Interrupt)
    → take_char read_handler c s ≡ some (c', s')
    → (c.keyboard ≡ c'.incoming ∷ c'.keyboard) × (c'.num_chars_read ≡ c.num_chars_read + 1)
unfolding take_char
take_char_lem read_handler c c' s s' h = (ground arith, ground arith)

taken-IsStream :
    (typed got : List ℕ) (c c' : Console)
    → c.incoming ≡ eof
    → (c.keyboard ≡ c'.incoming ∷ c'.keyboard) × (c'.num_chars_read ≡ c.num_chars_read + 1)
    → IsStream typed c got
    → IsStream typed c' got
taken-IsStream typed got c c' none_there (keyboard, count) o =
    let (visible, text) = subst IsText keyboard o.text in
    let there : (c'.incoming == eof) ≡ false = ==_false c'.incoming eof visible in
    let before : got ++ c.keyboard ≡ typed = rw none_there at o.all in
    record {
      all = rw there (ap (λ chars. got ++ chars) (sym keyboard) ∙ before);
      text = text;
      counted = rw there (
          omega (
            arith,
            count,
            rw none_there at o.counted,
            length-append got [],
            length-append got (c'.incoming ∷ []),
          ));
    }

append_assoc : (xs ys zs : List ℕ) → (xs ++ ys) ++ zs ≡ xs ++ (ys ++ zs)
append_assoc [] ys zs = refl
append_assoc (x ∷ xs) ys zs = ap (λ t. x ∷ t) (append_assoc xs ys zs)

same_console :
    (c c' : Console) (s s' : Interrupt)
    → ◌≡◌ {A = Option (Console × Interrupt)} (some (c, s)) (some (c', s'))
    → c ≡ c'
same_console c c' s s' h =
    ap (λ (o : Option (Console × Interrupt)). elim o [ none ↦ c | some r ↦ r.0 ]) h

check_char_avail-IsStream :
    (typed got : List ℕ) (read_poll : ℕ) (read_handler : DeviceHandler) (ready : Bool)
    (c c' : Console) (s s' : Interrupt)
    → check_char_avail read_poll read_handler ready c s ≡ some (c', s')
    → IsStream typed c got
    → IsStream typed c' got
unfolding check_char_avail
check_char_avail-IsStream typed got read_poll read_handler ready c c' s s' h o =
    let (s1, scheduled, rest) =
      >>=-eq-some (schedule s read_poll c.self (pos console_time) console_read_int) _ h in
    elim (Bool-cases (not (c.incoming == eof) || not ready)) [
      | inl nothing ↦
          subst (λ (x : Console). IsStream typed x got)
            (same_console c c' s1 s' (rw nothing at rest)) o
      | inr free ↦
          taken-IsStream typed got c c' ((==_iff c.incoming eof).0 (ground arith))
            (take_char_lem read_handler c c' s1 s' (rw free at rest)) o
    ]

get_char-IsStream :
    (typed got : List ℕ) (c : Console)
    → IsStream typed c got
    → IsStream typed (get_char c).1 (got ++ gotten (get_char c).0)
unfolding get_char
get_char-IsStream typed got c o = record {
  all = append_assoc got (gotten c.incoming) c.keyboard ∙ o.all;
  text = o.text;
  counted = omega (arith, o.counted, length-append (got ++ gotten c.incoming) []);
}

put_char-SameInput :
    (write_done_poll : ℕ) (c c' : Console) (s s' : Interrupt) (ch : ℕ)
    → put_char write_done_poll c s ch ≡ some (c', s')
    → SameInput c c'
unfolding put_char
put_char-SameInput write_done_poll c c' s s' ch h = (ground arith, ground arith, ground arith)

write_done-SameInput :
    (write_handler : DeviceHandler) (c c' : Console) (s s' : Interrupt)
    → write_done write_handler c s ≡ some (c', s')
    → SameInput c c'
unfolding write_done
write_done-SameInput write_handler c c' s s' h = (ground arith, ground arith, ground arith)

new_console-IsStream :
    (typed : List ℕ) (read_poll self arg : ℕ) (s s' : Interrupt) (c : Console)
    → IsText typed
    → new_console read_poll self arg typed s ≡ some (c, s')
    → IsStream typed c []
unfolding new_console
new_console-IsStream typed read_poll self arg s s' c text h =
    let empty : c.incoming ≡ eof = ground arith in
    let whole : c.keyboard ≡ typed = ground arith in
    let none_read : c.num_chars_read ≡ 0 = ground arith in
    record {
      all = rw empty whole;
      text = subst IsText (sym whole) text;
      counted = rw empty none_read;
    }

-- Whatever calls of a console are made, in whatever order and by whatever clock, on a file with no
-- character that is EOF as a `char`: what the kernel got, then the character that is there for it, and then what is left in the
-- file are the characters of the file, in order, none lost and none twice; and the
-- count of those read is that of those that the kernel got or may get.
pub Reaches-IsStream :
    (typed got : List ℕ) (c : Console) → IsText typed → Reaches typed c got → IsStream typed c got
Reaches-IsStream typed _ _ text (made read_poll self arg s s' c h) =
    new_console-IsStream typed read_poll self arg s s' c text h
Reaches-IsStream typed _ _ text (polled read_poll read_handler ready c c' s s' got before h) =
    check_char_avail-IsStream typed got read_poll read_handler ready c c' s s' h
      (Reaches-IsStream typed got c text before)
Reaches-IsStream typed _ _ text (asked c got before) =
    get_char-IsStream typed got c (Reaches-IsStream typed got c text before)
Reaches-IsStream typed _ _ text (put write_done_poll c c' s s' ch got before h) =
    SameInput-IsStream typed got c c' (put_char-SameInput write_done_poll c c' s s' ch h)
      (Reaches-IsStream typed got c text before)
Reaches-IsStream typed _ _ text (wrote write_handler c c' s s' got before h) =
    SameInput-IsStream typed got c c' (write_done-SameInput write_handler c c' s s' h)
      (Reaches-IsStream typed got c text before)
