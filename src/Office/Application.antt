-- ===== src/Office/Application.antt =====
-- threads/threadtest.cc: the application line, its customers and its clerks.
use csci350_project.Base.{ℕ, List, [], ◌∷◌, ◌++◌, true, Option, none, some, ◌>>=◌, if◌then◌else◌}
use csci350_project.Base.Int.{pos, minus_one, ◌+ℤ◌, ◌-ℤ◌}
use csci350_project.Office.{
  line_lock, acquire, Counter, Client, Stage, outside, queued, approaching, at_counter, Piece,
  take_place, join, meet, leave, pop, wander, choose, ClerkPiece, ClerkStage, choosing, resting,
  holding, waiting, finishing, give_back, answer, start_over,
}

-- The customer gets into the bribe line or the regular one.
abbrev pub enter : Client → Counter Unit → Counter Unit
enter c k =
    if c.bribed
    then record k {
      bribe_line_count = k.bribe_line_count +ℤ pos 1;
      bribe_ssns = k.bribe_ssns ++ (c.ssn ∷ []);
    }
    else record k { line_count = k.line_count +ℤ pos 1; ssns = k.ssns ++ (c.ssn ∷ []) }

-- The customer gets out of it. Either way it is the regular queue that is popped.
abbrev pub exit : Client → Counter Unit → Option (Counter Unit)
exit c k =
    if c.bribed
    then (pop k.ssns >>= λ rest.
        some (record k { bribe_line_count = k.bribe_line_count -ℤ pos 1; ssns = rest }))
    else (pop k.ssns >>= λ rest.
        some (record k { line_count = k.line_count -ℤ pos 1; ssns = rest }))

-- `Client::joinApplicationLine`, a piece for each stage.
unfoldable pub join_line : List (Counter Unit) → Client → Stage → Piece Unit
join_line m c outside = join minus_one enter m c
join_line m c (queued my_line) = take_place m c my_line
join_line m c (approaching my_line) = meet m c my_line
join_line m c (at_counter my_line) =
    leave (exit c) [] m (record c { application_accepted = true }) my_line

-- `ApplicationClerk::run`, from the end of a `Wait` or `Acquire` to the next; there is no sleep on
-- break.
unfoldable pub run : ℕ → List (Counter Unit) → ℕ → ClerkStage → ClerkPiece Unit
run random m my_line choosing = choose (acquire (line_lock my_line) ∷ []) holding m my_line
run random m my_line (resting v) = none
run random m my_line (holding v) = give_back m my_line v
run random m my_line (waiting v) = answer (wander 20 81 random) m my_line v
run random m my_line (finishing v) = start_over [] m my_line
