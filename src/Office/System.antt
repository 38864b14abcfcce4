-- ===== src/Office/System.antt =====
-- threads/threadtest.cc: all the customers and clerks at once. A step is one piece of one thread's code.
-- Any thread may go on at any time, woken or not, so that every order of the pieces is among these.
pub mod Invariant
pub mod Customers
pub mod Clerks
pub mod Reachable
pub mod Service
pub mod Leaving
pub mod Examination
pub mod Monitors
use csci350_project.Base.{
  ℕ, ◌%◌, List, [], Bool, true, false, not, Option, none, some, ◌>>=◌, ◌==◌, ◌≡◌, if◌then◌else◌,
}
use csci350_project.Office.{
  Counter, Client, new_client, new_monitor, Stage, outside, queued, approaching, at_counter,
  ClerkStage, choosing,
}
use csci350_project.Office.Application
use csci350_project.Office.Picture
use csci350_project.Office.Passport
use csci350_project.Office.Passport.{Papers}
use csci350_project.Office.Cashier

pub data Desk : Type 0 where
  application_desk picture_desk passport_desk cashier_desk : Desk

-- The monitors, the customers with their places, and where each clerk's code is.
pub record World : Type 0 where
  pub application : List (Counter Unit)
  pub picture : List (Counter Bool)
  pub passport : List (Counter Papers)
  pub cashier : List (Counter Papers)
  pub clients : ℕ → Client
  pub places : ℕ → Desk × Stage
  pub clerks : Desk → ℕ → ClerkStage

abbrev pub update {ℓ} : {A : Type ℓ} → (ℕ → A) → ℕ → A → ℕ → A
update f i a j = if i == j then a else f j

-- `switch(randomLine)`: the line, and whether the customer joins it.
abbrev pub desk_of : ℕ → Desk
desk_of n =
    if n == 0
    then application_desk
    else (if n == 1 then picture_desk else (if n == 2 then passport_desk else cashier_desk))

abbrev pub joins : Client → Desk → Bool
joins c application_desk = not c.application_accepted
joins c picture_desk = not c.picture_taken
joins c passport_desk = not c.certified
joins c cashier_desk = true

-- The customer and its place after a piece.
abbrev pub moved : World → ℕ → Desk → Stage → Client → World
moved w c desk stage client = record w {
  clients = update w.clients c client;
  places = update w.places c (desk, stage);
}

-- A piece of the customer's code at a desk.
unfoldable pub go : ℕ → World → ℕ → Desk → Stage → Option World
go random w c application_desk stage =
    Application.join_line w.application (w.clients c) stage >>= λ (calls, stage', m, client).
    some (record (moved w c application_desk stage' client) { application = m })
go random w c picture_desk stage =
    Picture.join_line random w.picture (w.clients c) stage >>= λ (calls, stage', m, client).
    some (record (moved w c picture_desk stage' client) { picture = m })
go random w c passport_desk stage =
    Passport.join_line random w.passport (w.clients c) stage >>= λ (calls, stage', m, client).
    some (record (moved w c passport_desk stage' client) { passport = m })
go random w c cashier_desk stage =
    Cashier.join_line random w.cashier (w.clients c) stage >>= λ (calls, stage', m, client).
    some (record (moved w c cashier_desk stage' client) { cashier = m })

abbrev pub is_outside : Stage → Bool
is_outside outside = true
is_outside (queued n) = false
is_outside (approaching n) = false
is_outside (at_counter n) = false

-- The loop of the constructor `Client`: a customer who is not done picks a line and joins it, or picks
-- again; one who is in a line goes on there.
unfoldable pub customer_step : ℕ → World → ℕ → Option World
customer_step random w c =
    let (desk, stage) = w.places c in
    if is_outside stage
    then (if (w.clients c).done
        then none
        else (let picked = desk_of (random % 4) in
            if joins (w.clients c) picked then go random w c picked outside else some w))
    else go random w c desk stage

abbrev pub at_work : World → Desk → ℕ → ClerkStage → World
at_work w desk i stage = record w {
  clerks = λ d. if same d desk then update (w.clerks d) i stage else w.clerks d;
}
  where
    same : Desk → Desk → Bool
    same application_desk application_desk = true
    same picture_desk picture_desk = true
    same passport_desk passport_desk = true
    same cashier_desk cashier_desk = true
    same _ _ = false

-- `myLine` of the clerk thread `i`. The constructor of an application clerk calls `run`, which does not
-- return, so `applicationClerkID++` is never reached.
abbrev pub line_of : Desk → ℕ → ℕ
line_of application_desk i = 0
line_of picture_desk i = i
line_of passport_desk i = i
line_of cashier_desk i = i

-- A piece of the code of the clerk thread `i` of a desk.
unfoldable pub clerk_step : ℕ → World → Desk → ℕ → Option World
clerk_step random w application_desk i =
    Application.run random w.application (line_of application_desk i) (w.clerks application_desk i)
    >>= λ (calls, stage, m). some (record (at_work w application_desk i stage) { application = m })
clerk_step random w picture_desk i =
    Picture.run random w.picture i (w.clerks picture_desk i) >>= λ (calls, stage, m).
    some (record (at_work w picture_desk i stage) { picture = m })
clerk_step random w passport_desk i =
    Passport.run random w.passport i (w.clerks passport_desk i) >>= λ (calls, stage, m).
    some (record (at_work w passport_desk i stage) { passport = m })
clerk_step random w cashier_desk i =
    Cashier.run random w.cashier i (w.clerks cashier_desk i) >>= λ (calls, stage, m).
    some (record (at_work w cashier_desk i stage) { cashier = m })

-- `Problem2` once the numbers are read: `money` is what each customer starts with, `pictures` what
-- `new bool[numCustomers]` hands out.
unfoldable pub open_office : ℕ → ℕ → ℕ → ℕ → (ℕ → Bool) → (ℕ → ℕ) → World
open_office application_clerks picture_clerks passport_clerks cashiers pictures money = record {
  application = new_monitor application_clerks (λ i. tt);
  picture = new_monitor picture_clerks pictures;
  passport = new_monitor passport_clerks (λ i. record { regular = []; bribe = [] });
  cashier = new_monitor cashiers (λ i. record { regular = []; bribe = [] });
  clients = λ c. new_client c (money c);
  places = λ c. (application_desk, outside);
  clerks = λ desk i. choosing;
}

-- The worlds that any order of steps leads to.
pub data Reaches (start : World) : World → Type 0 where
  opened : Reaches start start
  customer :
      (w w' : World) (random c : ℕ)
      → Reaches start w
      → customer_step random w c ≡ some w'
      → Reaches start w'
  clerk :
      (w w' : World) (random i : ℕ) (desk : Desk)
      → Reaches start w
      → clerk_step random w desk i ≡ some w'
      → Reaches start w'
