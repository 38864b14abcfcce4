-- ===== src/Office/Passport.antt =====
-- threads/threadtest.cc: the passport line, its customers and its clerks.
use csci350_project.Base.{
  ℕ, List, [], ◌∷◌, ◌++◌, Bool, true, not, ◌&&◌, Option, none, some, ◌>>=◌, if◌then◌else◌,
  get_elem?,
}
use csci350_project.Base.Int.{pos, minus_one, ◌+ℤ◌, ◌-ℤ◌}
use csci350_project.Office.{
  line_lock, acquire, Counter, Client, Stage, outside, queued, approaching, at_counter, Piece,
  take_place, join, meet, leave, pop, front, wander, choose, ClerkPiece, ClerkStage, choosing,
  resting, holding, waiting, finishing, give_back, answer, start_over,
}

-- `clientReqs` and `bribeClientReqs` of one clerk.
pub record Papers : Type 0 where
  pub regular : List Bool
  pub bribe : List Bool

abbrev pub enter : Client → Counter Papers → Counter Papers
enter c k =
    let paper = c.application_accepted && c.picture_taken in
    if c.bribed
    then record k {
      bribe_line_count = k.bribe_line_count +ℤ pos 1;
      bribe_ssns = k.bribe_ssns ++ (c.ssn ∷ []);
      own = record k.own { bribe = k.own.bribe ++ (paper ∷ []) };
    }
    else record k {
      line_count = k.line_count +ℤ pos 1;
      ssns = k.ssns ++ (c.ssn ∷ []);
      own = record k.own { regular = k.own.regular ++ (paper ∷ []) };
    }

abbrev pub exit : Client → Counter Papers → Option (Counter Papers)
exit c k =
    if c.bribed
    then (pop k.bribe_ssns >>= λ rest. pop k.own.bribe >>= λ papers. some (record k {
      bribe_line_count = k.bribe_line_count -ℤ pos 1;
      bribe_ssns = rest;
      own = record k.own { bribe = papers };
    }))
    else (pop k.ssns >>= λ rest. pop k.own.regular >>= λ papers. some (record k {
      line_count = k.line_count -ℤ pos 1;
      ssns = rest;
      own = record k.own { regular = papers };
    }))

-- `Client::joinPassportLine`, a piece for each stage.
unfoldable pub join_line : ℕ → List (Counter Papers) → Client → Stage → Piece Papers
join_line random m c outside = join minus_one enter m c
join_line random m c (queued my_line) = take_place m c my_line
join_line random m c (approaching my_line) = meet m c my_line
join_line random m c (at_counter my_line) =
    if c.application_accepted && c.picture_taken
    then leave (exit c) [] m (record c { certified = true }) my_line
    else leave (exit c) (wander 100 999 random) m c my_line

-- The clerk's test of the papers: `clientReqs.front()` is looked at first, whatever the line.
abbrev pub lacks_papers : Counter Papers → Bool → Option Bool
lacks_papers k bribed = front k.own.regular >>= λ regular.
    if not regular && not bribed
    then some true
    else (front k.own.bribe >>= λ bribe. some (not bribe && bribed))

-- `PassportClerk::run`
unfoldable pub run : ℕ → List (Counter Papers) → ℕ → ClerkStage → ClerkPiece Papers
run random m my_line choosing = choose (acquire (line_lock my_line) ∷ []) holding m my_line
run random m my_line (resting v) = none
run random m my_line (holding v) = give_back m my_line v
run random m my_line (waiting v) = do
  k ← get_elem? m my_line
  lacking ← lacks_papers k v.bribed
  answer (if lacking then [] else wander 20 81 random) m my_line v
run random m my_line (finishing v) = start_over [] m my_line
