-- ===== src/Office.antt =====
-- threads/threadtest.cc, the passport office: what the customers, the clerks and the manager share. A
-- thread's code is cut at the calls in which it may sleep, `Acquire` and `Wait`, and each piece is one
-- step; it says which calls of locks and conditions it makes, in order. What `rand` gives is an
-- argument. `none` is an access outside of an array, or `front` or `pop` of an empty queue.
pub mod Application
pub mod Picture
pub mod Passport
pub mod Cashier
pub mod Manager
pub mod Smallest
pub mod Lines
pub mod Work
pub mod System
use csci350_project.Base.{
  ℕ, zero, suc, ◌+◌, ◌%◌, List, [], ◌∷◌, ◌++◌, ◌-◌, Bool, true, false, Option, none, some, ◌>>=◌,
  ltb, ◌==◌, if◌then◌else◌, get_elem?, set, replicate,
}
use csci350_project.Base.Int.{ℤ, pos, negsuc, less}

-- The locks and conditions of a monitor: its own lock, and each clerk's.
pub data LockName : Type 0 where
  monitor_lock : LockName
  line_lock : ℕ → LockName

pub data ConditionName : Type 0 where
  line_cv : ℕ → ConditionName
  bribe_line_cv : ℕ → ConditionName

-- The calls that a piece of code makes; the last one may be one that sleeps.
pub data Call : Type 0 where
  acquire : LockName → Call
  release : LockName → Call
  wait : ConditionName → LockName → Call
  signal : ConditionName → LockName → Call
  yields : ℕ → Call

-- What a monitor's arrays hold for one clerk. The queues' arrays have an element for each customer in
-- the code, which accepts fewer customers than clerks; here each clerk has its queues, as where there
-- are as many customers as clerks at least. `own` is what only one monitor has.
pub record Counter (X : Type 0) : Type 0 where
  pub line_count : ℤ
  pub bribe_line_count : ℤ
  pub clerk_state : ℕ
  pub ssns : List ℕ
  pub bribe_ssns : List ℕ
  pub own : X

abbrev pub available : ℕ
available = 0

abbrev pub busy : ℕ
busy = 1

abbrev pub on_break : ℕ
on_break = 2

pub record Client : Type 0 where
  pub money : ℕ
  pub id : ℕ
  pub ssn : ℕ
  pub self_index : ℕ
  pub application_accepted : Bool
  pub picture_taken : Bool
  pub bribed : Bool
  pub certified : Bool
  pub done : Bool

-- The constructor's first part.
abbrev pub new_client : ℕ → ℕ → Client
new_client num start_money = record {
  money = start_money;
  id = num;
  ssn = num;
  self_index = num;
  application_accepted = false;
  picture_taken = false;
  bribed = false;
  certified = false;
  done = false;
}

-- `Client::moveUpInLine`
pub move_up_in_line : Client → Client
move_up_in_line c = if ltb c.money 600 then c else record c { money = c.money - 500; bribed = true }

-- Where a customer is in a line's code: before it, or asleep in one of its calls, for a clerk.
pub data Stage : Type 0 where
  outside : Stage
  queued : ℕ → Stage
  approaching : ℕ → Stage
  at_counter : ℕ → Stage

-- What a piece of a customer's code does.
abbrev pub Piece : Type 0 → Type 0
Piece X = Option (List Call × Stage × List (Counter X) × Client)

module _ {X : Type 0} where
  -- The loop of `getSmallestLine`, from the clerk `i` on.
  unfoldable pub smallest_from : List (Counter X) → ℕ → ℤ → ℤ → ℤ
  smallest_from [] i smallest smallest_index = smallest_index
  smallest_from (k ∷ ks) i smallest smallest_index =
      let found = less k.line_count smallest in
      smallest_from ks (i + 1) (if found then k.line_count else smallest)
        (if found then pos i else smallest_index)

  -- `getSmallestLine`; `start` is what `smallestIndex` begins as, -1 or, for the cashiers, 0.
  unfoldable pub get_smallest_line : ℤ → List (Counter X) → ℤ
  get_smallest_line start m = smallest_from m 0 (pos 50) start

  -- The constructors of the four monitors: their loop over the clerks, from the clerk `i` on. The loop
  -- does not set what only one monitor has: `own` says what is there.
  unfoldable pub new_counters : ℕ → ℕ → (ℕ → X) → List (Counter X)
  new_counters i zero own = []
  new_counters i (suc n) own =
      record {
        line_count = pos 0;
        bribe_line_count = pos 0;
        clerk_state = available;
        ssns = [];
        bribe_ssns = [];
        own = own i;
      }
      ∷ new_counters (i + 1) n own

  unfoldable pub new_monitor : ℕ → (ℕ → X) → List (Counter X)
  new_monitor num_clerks own = new_counters 0 num_clerks own

  -- From `clerkState[myLine] = 1` to the `Acquire` of the clerk's lock.
  unfoldable pub take_place : List (Counter X) → Client → ℕ → Piece X
  take_place m c my_line = get_elem? m my_line >>= λ k. some (
    release monitor_lock ∷ acquire (line_lock my_line) ∷ [],
    approaching my_line,
    set m my_line (record k { clerk_state = busy }),
    c,
  )

  -- From the monitor's lock to the `Wait` in line, where the clerk is busy; `enter` gets into line.
  unfoldable pub join_at :
      (Client → Counter X → Counter X) → List (Counter X) → Client → ℤ → Piece X
  join_at enter m c (negsuc n) = none
  join_at enter m c (pos my_line) = get_elem? m my_line >>= λ k.
      if k.clerk_state == busy
      then some
          (wait (line_cv my_line) monitor_lock ∷ [], queued my_line, set m my_line (enter c k), c)
      else take_place m c my_line

  unfoldable pub join : ℤ → (Client → Counter X → Counter X) → List (Counter X) → Client → Piece X
  join start enter m c = join_at enter m c (get_smallest_line start m)

  -- From the clerk's lock to the `Wait` for the clerk's work.
  unfoldable pub meet : List (Counter X) → Client → ℕ → Piece X
  meet m c my_line = some (
    signal (line_cv my_line) (line_lock my_line) ∷ wait (line_cv my_line) (line_lock my_line) ∷ [],
    at_counter my_line,
    m,
    c,
  )

  -- The end of a customer's code: the line is left, by `exit`, and the clerk gets to know it.
  unfoldable pub leave :
      (Counter X → Option (Counter X)) → List Call → List (Counter X) → Client → ℕ → Piece X
  leave exit delay m c my_line = do
    k ← get_elem? m my_line
    k' ← exit k
    some (
      delay ++ (signal (line_cv my_line) (line_lock my_line) ∷ release (line_lock my_line) ∷ []),
      outside,
      set m my_line k',
      c,
    )

-- `queue::pop` and `queue::front`.
abbrev pub pop {ℓ} : {A : Type ℓ} → List A → Option (List A)
pop [] = none
pop (x ∷ xs) = some xs

abbrev pub front {ℓ} : {A : Type ℓ} → List A → Option A
front [] = none
front (x ∷ xs) = some x

-- `yieldCalls` times `Yield`.
abbrev pub wander : ℕ → ℕ → ℕ → List Call
wander least modulus random = yields (least + random % modulus) ∷ []

-- `frontSSN`, `none` where it was not set, and `bribed`, which two of the clerks have.
pub record Visitor : Type 0 where
  pub ssn : Option ℕ
  pub bribed : Bool

-- Where a clerk is in `run`: about to look at the lines with the monitor's lock, on break, about to get
-- the lock of the line, waiting for the customer, or for the customer to go.
pub data ClerkStage : Type 0 where
  choosing : ClerkStage
  resting : Visitor → ClerkStage
  holding : Visitor → ClerkStage
  waiting : Visitor → ClerkStage
  finishing : Visitor → ClerkStage

-- What a piece of a clerk's code does.
abbrev pub ClerkPiece : Type 0 → Type 0
ClerkPiece X = Option (List Call × ClerkStage × List (Counter X))

module _ {X : Type 0} where
  -- A line that is not empty: its front, a signal to the condition `cv`, and the clerk is busy.
  unfoldable pub call_front :
      List (Counter X) → ℕ → Counter X → List ℕ → ConditionName → Bool → ClerkPiece X
  call_front m my_line k queue cv bribed = front queue >>= λ ssn. some (
    signal cv monitor_lock ∷ acquire (line_lock my_line) ∷ [],
    holding (record { ssn = some ssn; bribed = bribed }),
    set m my_line (record k { clerk_state = busy }),
  )

  -- The clerk looks at the bribe line first, then at the regular one, or goes on break, by the calls
  -- and to the stage `break`.
  unfoldable pub choose : List Call → (Visitor → ClerkStage) → List (Counter X) → ℕ → ClerkPiece X
  choose calls break m my_line = get_elem? m my_line >>= λ k.
      if less (pos 0) k.bribe_line_count
      then call_front m my_line k k.bribe_ssns (bribe_line_cv my_line) true
      else (if less (pos 0) k.line_count
          then call_front m my_line k k.ssns (line_cv my_line) false
          else some (
            calls,
            break (record { ssn = none; bribed = false }),
            set m my_line (record k { clerk_state = on_break }),
          ))

  -- With the lock of the line: the monitor is given back.
  unfoldable pub give_back : List (Counter X) → ℕ → Visitor → ClerkPiece X
  give_back m my_line v =
      some (release monitor_lock ∷ wait (line_cv my_line) (line_lock my_line) ∷ [], waiting v, m)

  -- The work is done, after the calls `work`: the customer gets to know it.
  unfoldable pub answer : List Call → List (Counter X) → ℕ → Visitor → ClerkPiece X
  answer work m my_line v = some (
    work
        ++ (signal (line_cv my_line) (line_lock my_line)
            ∷ wait (line_cv my_line) (line_lock my_line)
            ∷ []),
    finishing v,
    m,
  )

  -- The customer is gone, and `run` begins again.
  unfoldable pub start_over : List Call → List (Counter X) → ℕ → ClerkPiece X
  start_over work m my_line =
      some (work ++ (release (line_lock my_line) ∷ acquire monitor_lock ∷ []), choosing, m)
