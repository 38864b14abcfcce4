-- ===== src/Office/Cashier.antt =====
-- threads/threadtest.cc: the cashiers' line, its customers and the cashiers.
use csci350_project.Base.{
  ℕ, List, [], ◌∷◌, ◌++◌, Bool, true, false, not, ◌&&◌, Option, none, some, ◌>>=◌, if◌then◌else◌,
  get_elem?, set,
}
use csci350_project.Base.Int.{pos, less, ◌+ℤ◌, ◌-ℤ◌}
use csci350_project.Office.{
  monitor_lock, line_lock, line_cv, bribe_line_cv, Call, acquire, signal, Counter, busy, on_break,
  Client, Stage, outside, queued, approaching, at_counter, Piece, take_place, join, meet, leave,
  pop, front, wander, ClerkPiece, ClerkStage, Visitor, choosing, resting, holding, waiting,
  finishing, give_back, answer, start_over,
}
use csci350_project.Office.Passport.{Papers}

-- `customerCertifications` and `bribeCustomerCertifications` take the place of the passport line's
-- papers.
abbrev pub enter : Client → Counter Papers → Counter Papers
enter c k =
    let paper = c.certified in
    if c.bribed
    then record k {
      bribe_line_count = k.bribe_line_count +ℤ pos 1;
      bribe_ssns = k.bribe_ssns ++ (c.ssn ∷ []);
      own = record k.own { bribe = k.own.bribe ++ (paper ∷ []) };
    }
    else record k {
      line_count = k.line_count +ℤ pos 1;
      ssns = k.ssns ++ (c.ssn ∷ []);
      own = record k.own { regular = k.own.regular ++ (paper ∷ []) };
    }

abbrev pub exit : Client → Counter Papers → Option (Counter Papers)
exit c k =
    if c.bribed
    then (pop k.bribe_ssns >>= λ rest. pop k.own.bribe >>= λ papers. some (record k {
      bribe_line_count = k.bribe_line_count -ℤ pos 1;
      bribe_ssns = rest;
      own = record k.own { bribe = papers };
    }))
    else (pop k.ssns >>= λ rest. pop k.own.regular >>= λ papers. some (record k {
      line_count = k.line_count -ℤ pos 1;
      ssns = rest;
      own = record k.own { regular = papers };
    }))

-- `Client::joinCashierLine`, a piece for each stage.
unfoldable pub join_line : ℕ → List (Counter Papers) → Client → Stage → Piece Papers
join_line random m c outside = join (pos 0) enter m c
join_line random m c (queued my_line) = take_place m c my_line
join_line random m c (approaching my_line) = meet m c my_line
join_line random m c (at_counter my_line) =
    if c.certified
    then leave (exit c) [] m (record c { done = true }) my_line
    else leave (exit c) (wander 100 901 random) m c my_line

-- The cashier looks at the bribe line.
unfoldable pub look_first : ℕ → Counter Papers → Option (List Call × Visitor × Counter Papers)
look_first my_line k =
    if less (pos 0) k.bribe_line_count
    then (front k.bribe_ssns >>= λ ssn. some (
      signal (bribe_line_cv my_line) monitor_lock ∷ [],
      record { ssn = some ssn; bribed = true },
      record k { clerk_state = busy },
    ))
    else some ([], record { ssn = none; bribed = false }, k)

-- Then at the regular one all the same, and goes on break where that is empty.
unfoldable pub look_again :
    List (Counter Papers) → ℕ → List Call → Visitor → Counter Papers → ClerkPiece Papers
look_again m my_line calls v k =
    if less (pos 0) k.line_count
    then (front k.ssns >>= λ ssn. some (
      calls ++ (signal (line_cv my_line) monitor_lock ∷ acquire (line_lock my_line) ∷ []),
      holding (record { ssn = some ssn; bribed = false }),
      set m my_line (record k { clerk_state = busy }),
    ))
    else some (
      calls ++ (acquire (line_lock my_line) ∷ []),
      holding v,
      set m my_line (record k { clerk_state = on_break }),
    )

unfoldable pub choose_both : List (Counter Papers) → ℕ → ClerkPiece Papers
choose_both m my_line = get_elem? m my_line >>= λ k.
    look_first my_line k >>= λ (calls, v, k1). look_again m my_line calls v k1

-- The cashier's test of the certification; `clientSSNs.front()` is printed before it.
abbrev pub has_papers : Counter Papers → Bool → Option Bool
has_papers k bribed = do
  shown ← front k.ssns
  regular ← front k.own.regular
  if regular && not bribed
      then some true
      else (front k.own.bribe >>= λ bribe. some (bribe && bribed))

-- `Cashier::run`
unfoldable pub run : ℕ → List (Counter Papers) → ℕ → ClerkStage → ClerkPiece Papers
run random m my_line choosing = choose_both m my_line
run random m my_line (resting v) = none
run random m my_line (holding v) = give_back m my_line v
run random m my_line (waiting v) = do
  k ← get_elem? m my_line
  paid ← has_papers k v.bribed
  answer (if paid then wander 20 81 random else []) m my_line v
run random m my_line (finishing v) = start_over [] m my_line
