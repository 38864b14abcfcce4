-- ===== src/Office/Work.antt =====
-- threads/threadtest.cc: what the clerks' pieces leave of the counters.
use csci350_project.Base.{
  ℕ, ◌≡◌, subst, List, Bool, true, false, Bool-cases, inl, inr, some, >>=-eq-some, get_elem?, set,
}
use csci350_project.Base.Int.{pos, less}
use csci350_project.Office.{
  Call, ConditionName, Counter, busy, on_break, front, ClerkPiece, ClerkStage, Visitor, choose,
  call_front, give_back, answer, start_over,
}
use csci350_project.Office.Lines.{All, All-get, All-set}

abbrev pub ClerkKeeps : {X : Type 0} → (Counter X → Type 0) → ClerkPiece X → Type 0
ClerkKeeps P piece =
    (calls : List Call) (stage : ClerkStage) (m : List (Counter _))
    → piece ≡ some (calls, stage, m)
    → All P m

module _ {X : Type 0} (P : Counter X → Type 0) (m : List (Counter X)) (all : All P m)
    (states : (k : Counter X) (s : ℕ) → P k → P (record k { clerk_state = s })) where
  call_front-ClerkKeeps :
      (i : ℕ) (k : Counter X) (queue : List ℕ) (cv : ConditionName) (bribed : Bool)
      → P k
      → ClerkKeeps P (call_front m i k queue cv bribed)
  unfolding call_front
  call_front-ClerkKeeps i k queue cv bribed ok calls stage m' h =
      let (ssn, first, rest) = >>=-eq-some (front queue) _ h in
      let same : set m i (record k { clerk_state = busy }) ≡ m' = cc in
      subst (All P) same (All-set P m i _ all (states k busy ok))

  pub choose-ClerkKeeps :
      (break_calls : List Call) (break : Visitor → ClerkStage) (i : ℕ)
      → ClerkKeeps P (choose break_calls break m i)
  unfolding choose
  choose-ClerkKeeps break_calls break i calls stage m' h =
      let (k, there, rest) = >>=-eq-some (get_elem? m i) _ h in
      let ok = All-get P m i k all there in
      elim (Bool-cases (less (pos 0) k.bribe_line_count)) [
        | inl bribes ↦
            call_front-ClerkKeeps i k k.bribe_ssns _ true ok calls stage m' (rw bribes at rest)
        | inr no_bribes ↦ elim (Bool-cases (less (pos 0) k.line_count)) [
          | inl waits ↦
              call_front-ClerkKeeps i k k.ssns _ false ok calls stage m'
                (rw (no_bribes, waits) at rest)
          | inr empty ↦
              let last = rw (no_bribes, empty) at rest in
              let same : set m i (record k { clerk_state = on_break }) ≡ m' = cc in
              subst (All P) same (All-set P m i _ all (states k on_break ok))
        ]
      ]

  pub give_back-ClerkKeeps : (i : ℕ) (v : Visitor) → ClerkKeeps P (give_back m i v)
  unfolding give_back
  give_back-ClerkKeeps i v calls stage m' h = let same : m ≡ m' = cc in subst (All P) same all

  pub answer-ClerkKeeps :
      (work : List Call) (i : ℕ) (v : Visitor) → ClerkKeeps P (answer work m i v)
  unfolding answer
  answer-ClerkKeeps work i v calls stage m' h = let same : m ≡ m' = cc in subst (All P) same all

  pub start_over-ClerkKeeps : (work : List Call) (i : ℕ) → ClerkKeeps P (start_over work m i)
  unfolding start_over
  start_over-ClerkKeeps work i calls stage m' h = let same : m ≡ m' = cc in subst (All P) same all
