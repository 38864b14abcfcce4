-- ===== src/Tests/Office.antt =====
-- threads/threadtest.cc: the office at work.
use csci350_project.Base.{
  ℕ, ◌≡◌, ◌↔◌, refl, subst, arith, List, [], ◌∷◌, Bool, true, false, not, Option, none, some, ◌>>=◌,
  >>=-eq-some,
}
use csci350_project.Base.Int.{pos, minus_one}
use csci350_project.Office.{
  Counter, Client, new_client, new_counters, new_monitor, smallest_from, get_smallest_line, join_at,
  join, take_place, meet, choose, give_back, front, outside, Visitor, choosing,
}
use csci350_project.Office.Application
use csci350_project.Office.Picture
use csci350_project.Office.Passport
use csci350_project.Office.Passport.{Papers}
use csci350_project.Office.Cashier
use csci350_project.Office.Smallest.{Smallest, get_smallest_line-Smallest}
use csci350_project.Office.System.{
  World, Desk, passport_desk, cashier_desk, go, customer_step, clerk_step, open_office, Reaches,
  opened, customer, clerk,
}
use csci350_project.Office.System.Reachable.{InOrder, Reaches-InOrder}
use csci350_project.Office.System.Service.{Reaches-choosing}
use csci350_project.Office.System.Examination.{Reaches-passport_waiting}
use csci350_project.Office.Passport.{lacks_papers}
use csci350_project.Office.System.Monitors.{
  locks_after, locks_due, customer_begins, customers-locks,
}
use csci350_project.Office.System.Monitors.Clerks.{
  clerk_locks_after, clerk_locks_due, clerk_has, clerks-locks,
}

-- One step of a customer or a clerk, with what `rand` gives.
data Move : Type 0 where
  comes : ℕ → ℕ → Move
  works : ℕ → Desk → ℕ → Move

move : Move → World → Option World
move (comes random c) w = customer_step random w c
move (works random desk i) w = clerk_step random w desk i

moves : List Move → World → Option World
moves [] w = some w
moves (x ∷ xs) w = move x w >>= λ w'. moves xs w'

moves-Reaches :
    (start w w' : World) (xs : List Move)
    → Reaches start w
    → moves xs w ≡ some w'
    → Reaches start w'
unfolding moves move
moves-Reaches start w w' [] r h = let same : w ≡ w' = cc in subst (Reaches start) same r
moves-Reaches start w w' (comes random c ∷ xs) r h =
    let (v, step, rest) = >>=-eq-some (customer_step random w c) _ h in
    moves-Reaches start v w' xs (customer w v random c r step) rest
moves-Reaches start w w' (works random desk i ∷ xs) r h =
    let (v, step, rest) = >>=-eq-some (clerk_step random w desk i) _ h in
    moves-Reaches start v w' xs (clerk w v random i desk r step) rest

abbrev pictures : ℕ → Bool
pictures i = false

abbrev money : ℕ → ℕ
money c = 1100

-- One clerk at each desk.
abbrev office : World
office = open_office 1 1 1 1 pictures money

abbrev world_after : List Move → World
world_after xs = elim (moves xs office) [ none ↦ office | some w ↦ w ]

-- Customer 0 walks straight up to the application clerk.
abbrev straight : List Move
straight = comes 0 0 ∷ comes 0 0 ∷ []

straight-Reaches : Reaches office (world_after straight)
unfolding moves move open_office new_monitor new_counters customer_step go Application.join_line
    join join_at take_place meet get_smallest_line smallest_from
straight-Reaches = moves-Reaches office office (world_after straight) straight opened refl

Reaches-InOrder_example : InOrder (world_after straight)
Reaches-InOrder_example =
    Reaches-InOrder 1 1 1 1 pictures money (world_after straight) straight-Reaches

Reaches-choosing_example : (w' : World) × (clerk_step 7 office passport_desk 0 ≡ some w')
unfolding open_office new_monitor new_counters
Reaches-choosing_example =
    Reaches-choosing 1 1 1 1 pictures money 7 office passport_desk 0 opened refl (omega arith)

-- The passport clerk and the cashier get to where they wait for a customer.
abbrev at_desks : List Move
at_desks =
    works 0 passport_desk 0
    ∷ works 0 passport_desk 0
    ∷ works 0 cashier_desk 0
    ∷ works 0 cashier_desk 0
    ∷ []

at_desks-Reaches : Reaches office (world_after at_desks)
unfolding moves move open_office new_monitor new_counters clerk_step Passport.run Cashier.run
    Cashier.choose_both Cashier.look_first Cashier.look_again choose give_back
at_desks-Reaches = moves-Reaches office office (world_after at_desks) at_desks opened refl

abbrev nobody : Visitor
nobody = record { ssn = none; bribed = false }

abbrev on_a_break : Counter Papers
on_a_break = record {
  line_count = pos 0;
  bribe_line_count = pos 0;
  clerk_state = 2;
  ssns = [];
  bribe_ssns = [];
  own = record { regular = []; bribe = [] };
}

Reaches-passport_waiting_example :
    (((w' : World) × (clerk_step 3 (world_after at_desks) passport_desk 0 ≡ some w'))
      ↔ ((nobody.bribed ≡ false) × (front on_a_break.own.regular ≡ some false)))
    × (on_a_break.own.bribe ≡ [])
    × (lacks_papers (record on_a_break { own = record on_a_break.own { bribe = true ∷ [] } }) false
        ≡ (front on_a_break.own.regular >>= λ (regular : Bool). some (not regular)))
unfolding moves move open_office new_monitor new_counters clerk_step Passport.run Cashier.run
    Cashier.choose_both Cashier.look_first Cashier.look_again choose give_back
Reaches-passport_waiting_example =
    Reaches-passport_waiting 1 1 1 1 pictures money 3 (world_after at_desks) 0 nobody on_a_break
      true [] at_desks-Reaches refl refl

abbrev line_of_length : ℕ → ℕ → Counter Bool
line_of_length n state = record {
  line_count = pos n;
  bribe_line_count = pos 0;
  clerk_state = state;
  ssns = [];
  bribe_ssns = [];
  own = false;
}

abbrev three_lines : List (Counter Bool)
three_lines = line_of_length 4 2 ∷ line_of_length 0 2 ∷ line_of_length 0 1 ∷ []

get_smallest_line-Smallest_example :
    Smallest three_lines 0 (pos 50) minus_one (get_smallest_line minus_one three_lines)
get_smallest_line-Smallest_example = get_smallest_line-Smallest minus_one three_lines

abbrev ann : Client
ann = new_client 3 1100

customers-locks_example :
    (locks_after (customer_begins outside) (Application.join_line office.application ann outside)
      ≡ locks_due (Application.join_line office.application ann outside))
    × (locks_after (customer_begins outside) (Picture.join_line 1 three_lines ann outside)
        ≡ locks_due (Picture.join_line 1 three_lines ann outside))
    × (locks_after (customer_begins outside) (Passport.join_line 1 office.passport ann outside)
        ≡ locks_due (Passport.join_line 1 office.passport ann outside))
    × (locks_after (customer_begins outside) (Cashier.join_line 1 office.cashier ann outside)
        ≡ locks_due (Cashier.join_line 1 office.cashier ann outside))
customers-locks_example =
    customers-locks 1 ann outside office.application three_lines office.passport office.cashier

clerks-locks_example :
    (clerk_locks_after (clerk_has 0 choosing) (Application.run 4 office.application 0 choosing)
      ≡ clerk_locks_due 0 (Application.run 4 office.application 0 choosing))
    × (clerk_locks_after (clerk_has 0 choosing) (Passport.run 4 office.passport 0 choosing)
        ≡ clerk_locks_due 0 (Passport.run 4 office.passport 0 choosing))
    × (clerk_locks_after (clerk_has 0 choosing) (Cashier.run 4 office.cashier 0 choosing)
        ≡ clerk_locks_due 0 (Cashier.run 4 office.cashier 0 choosing))
clerks-locks_example = clerks-locks 4 0 choosing office.application office.passport office.cashier
