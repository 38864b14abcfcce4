-- ===== src/Office/Picture.antt =====
-- threads/threadtest.cc: the picture line, its customers and its clerks. What only this monitor has is
-- the clerk's element of `picturesTaken`.
use csci350_project.Base.{
  ℕ, ◌%◌, List, [], ◌∷◌, ◌++◌, Bool, true, false, Option, none, some, ◌>>=◌, ◌==◌, if◌then◌else◌,
  get_elem?, set,
}
use csci350_project.Base.Int.{pos, minus_one, ◌+ℤ◌, ◌-ℤ◌}
use csci350_project.Office.{
  line_lock, line_cv, acquire, wait, signal, Counter, Client, Stage, outside, queued, approaching,
  at_counter, Piece, take_place, join, meet, leave, pop, wander, choose, ClerkPiece, ClerkStage,
  choosing, resting, holding, waiting, finishing, give_back, start_over,
}

abbrev pub enter : Client → Counter Bool → Counter Bool
enter c k =
    if c.bribed
    then record k {
      bribe_line_count = k.bribe_line_count +ℤ pos 1;
      bribe_ssns = k.bribe_ssns ++ (c.ssn ∷ []);
    }
    else record k { line_count = k.line_count +ℤ pos 1; ssns = k.ssns ++ (c.ssn ∷ []) }

-- The customer likes the picture and gets out of line.
abbrev pub exit : Client → Counter Bool → Option (Counter Bool)
exit c k =
    if c.bribed
    then (pop k.bribe_ssns >>= λ rest. some (record k {
      own = true;
      bribe_line_count = k.bribe_line_count -ℤ pos 1;
      bribe_ssns = rest;
    }))
    else (pop k.ssns >>= λ rest.
        some (record k { own = true; line_count = k.line_count -ℤ pos 1; ssns = rest }))

-- `Client::joinPictureLine`, a piece for each stage; at the counter `random` says whether the customer
-- likes the picture.
unfoldable pub join_line : ℕ → List (Counter Bool) → Client → Stage → Piece Bool
join_line random m c outside = join minus_one enter m c
join_line random m c (queued my_line) = take_place m c my_line
join_line random m c (approaching my_line) =
    get_elem? m my_line >>= λ k. meet (set m my_line (record k { own = false })) c my_line
join_line random m c (at_counter my_line) =
    if random % 2 == 0
    then meet m c my_line
    else leave (exit c) [] m (record c { picture_taken = true }) my_line

-- `PictureClerk::run`. The break is a `Wait` with the monitor's lock in hand.
unfoldable pub run : ℕ → List (Counter Bool) → ℕ → ClerkStage → ClerkPiece Bool
run random m my_line choosing =
    choose (wait (line_cv my_line) (line_lock my_line) ∷ []) resting m my_line
run random m my_line (resting v) = some (acquire (line_lock my_line) ∷ [], holding v, m)
run random m my_line (holding v) = give_back m my_line v
run random m my_line (waiting v) = get_elem? m my_line >>= λ k.
    if k.own
    then start_over (wander 20 81 random) m my_line
    else some (
      signal (line_cv my_line) (line_lock my_line)
          ∷ wait (line_cv my_line) (line_lock my_line)
          ∷ [],
      waiting v,
      m,
    )
run random m my_line (finishing v) = none
