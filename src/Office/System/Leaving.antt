-- ===== src/Office/System/Leaving.antt =====
-- threads/threadtest.cc: the customers who leave a line.
use csci350_project.Base.{ℕ, List, Option, some, ◌>>=◌, get_elem?}
use csci350_project.Office.{Counter, Piece}
use csci350_project.Office.Application
use csci350_project.Office.Picture
use csci350_project.Office.Passport
use csci350_project.Office.Passport.{lacks_papers}
use csci350_project.Office.Cashier
use csci350_project.Office.Cashier.{has_papers}
use csci350_project.Office.System.{
  World, Desk, application_desk, picture_desk, passport_desk, cashier_desk,
}

-- The regular queue of one of a desk's clerks.
abbrev pub regular_queue : {X : Type 0} → List (Counter X) → ℕ → Option (List ℕ)
regular_queue m i = get_elem? m i >>= λ k. some k.ssns

abbrev pub queue_at : World → Desk → ℕ → Option (List ℕ)
queue_at w application_desk i = regular_queue w.application i
queue_at w picture_desk i = regular_queue w.picture i
queue_at w passport_desk i = regular_queue w.passport i
queue_at w cashier_desk i = regular_queue w.cashier i

-- The queue after a customer's piece.
abbrev queue_after : {X : Type 0} → Piece X → ℕ → Option (List ℕ)
queue_after piece i = piece >>= λ p. regular_queue p.2 i
