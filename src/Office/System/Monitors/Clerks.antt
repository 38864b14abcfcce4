-- ===== src/Office/System/Monitors/Clerks.antt =====
-- threads/threadtest.cc: which locks a clerk has from one piece to the next.
use csci350_project.Base.{
  ℕ, ◌≡◌, refl, sym, List, [], ◌∷◌, ◌++◌, Bool, true, false, Bool-cases, Option-cases, inl, inr,
  Option, none, some, ◌>>=◌, >>=-eq-some, if◌then◌else◌, get_elem?, ◌∙◌,
}
use csci350_project.Base.Int.{pos, less}
use csci350_project.Office.{
  monitor_lock, line_lock, ConditionName, line_cv, bribe_line_cv, Call, acquire, release, wait,
  signal, Counter, front, ClerkStage, ClerkPiece, Visitor, choosing, resting, holding, waiting,
  finishing, call_front, choose, give_back, answer, start_over, wander,
}
use csci350_project.Office.Application
use csci350_project.Office.Picture
use csci350_project.Office.Passport
use csci350_project.Office.Passport.{Papers, lacks_papers}
use csci350_project.Office.Cashier
use csci350_project.Office.Cashier.{has_papers}
use csci350_project.Office.System.Monitors.{
  Held, locks, after_calls, signal_own, wait_own, release_own,
}

-- What the clerk `i` has.
abbrev pub clerk_has : ℕ → ClerkStage → Held
clerk_has i choosing = locks true none
clerk_has i (resting v) = locks true none
clerk_has i (holding v) = locks true (some i)
clerk_has i (waiting v) = locks false (some i)
clerk_has i (finishing v) = locks false (some i)

-- A piece that begins with `h` ends with what goes with the stage that it leads to.
abbrev pub ClerkFollows : {X : Type 0} → ℕ → Held → ClerkPiece X → Type 0
ClerkFollows i h piece =
    (calls : List Call) (stage : ClerkStage) (m : List (Counter _))
    → piece ≡ some (calls, stage, m)
    → after_calls h calls ≡ some (clerk_has i stage)

module _ {X : Type 0} (m : List (Counter X)) (i : ℕ) where
  call_front-Follows :
      (k : Counter X) (queue : List ℕ) (cv : ConditionName) (bribed : Bool)
      → ClerkFollows i (locks true none) (call_front m i k queue cv bribed)
  unfolding call_front
  call_front-Follows k queue cv bribed calls stage m' h =
      let (ssn, first, rest) = >>=-eq-some (front queue) _ h in
      let made : signal cv monitor_lock ∷ acquire (line_lock i) ∷ [] ≡ calls = cc in
      let to : holding (record { ssn = some ssn; bribed = bribed }) ≡ stage = cc in
      rw (sym made, sym to) refl

  choose-Follows :
      (break_calls : List Call) (break : Visitor → ClerkStage)
      → ((v : Visitor) → after_calls (locks true none) break_calls ≡ some (clerk_has i (break v)))
      → ClerkFollows i (locks true none) (choose break_calls break m i)
  unfolding choose
  choose-Follows break_calls break breaks calls stage m' h =
      let (k, there, rest) = >>=-eq-some (get_elem? m i) _ h in
      elim (Bool-cases (less (pos 0) k.bribe_line_count)) [
        | inl bribes ↦ call_front-Follows k k.bribe_ssns _ true calls stage m' (rw bribes at rest)
        | inr no_bribes ↦ elim (Bool-cases (less (pos 0) k.line_count)) [
          | inl waits ↦
              call_front-Follows k k.ssns _ false calls stage m' (rw (no_bribes, waits) at rest)
          | inr empty ↦
              let last = rw (no_bribes, empty) at rest in
              let v : Visitor = record { ssn = none; bribed = false } in
              let made : break_calls ≡ calls = cc in
              let to : break v ≡ stage = cc in rw (sym made, sym to) (breaks v)
        ]
      ]

  give_back-Follows : (v : Visitor) → ClerkFollows i (locks true (some i)) (give_back m i v)
  unfolding give_back
  give_back-Follows v calls stage m' h =
      let made : release monitor_lock ∷ wait (line_cv i) (line_lock i) ∷ [] ≡ calls = cc in
      let to : waiting v ≡ stage = cc in rw (sym made, sym to) (wait_own false i [] (line_cv i))

  answer-Follows :
      (work : List Call) (v : Visitor)
      → ((rest : List Call)
          → after_calls (locks false (some i)) (work ++ rest)
            ≡ after_calls (locks false (some i)) rest)
      → ClerkFollows i (locks false (some i)) (answer work m i v)
  unfolding answer
  answer-Follows work v quiet calls stage m' h =
      let made : work ++ (signal (line_cv i) (line_lock i) ∷ wait (line_cv i) (line_lock i) ∷ [])
          ≡ calls =
        cc in
      let to : finishing v ≡ stage = cc in
      rw (sym made, sym to)
        (quiet _
          ∙ signal_own false i (wait (line_cv i) (line_lock i) ∷ []) (line_cv i)
          ∙ wait_own false i [] (line_cv i))

  start_over-Follows :
      (work : List Call)
      → ((rest : List Call)
          → after_calls (locks false (some i)) (work ++ rest)
            ≡ after_calls (locks false (some i)) rest)
      → ClerkFollows i (locks false (some i)) (start_over work m i)
  unfolding start_over
  start_over-Follows work quiet calls stage m' h =
      let made : work ++ (release (line_lock i) ∷ acquire monitor_lock ∷ []) ≡ calls = cc in
      let to : choosing ≡ stage = cc in
      rw (sym made, sym to) (quiet _ ∙ release_own false i (acquire monitor_lock ∷ []))

application_Follows :
    (random : ℕ) (m : List (Counter Unit)) (i : ℕ) (stage : ClerkStage)
    → ClerkFollows i (clerk_has i stage) (Application.run random m i stage)
unfolding Application.run
application_Follows random m i choosing = choose-Follows m i _ holding (λ v. refl)
application_Follows random m i (resting v) = λ calls stage m' h. cc
application_Follows random m i (holding v) = give_back-Follows m i v
application_Follows random m i (waiting v) =
    answer-Follows m i (wander 20 81 random) v (λ rest. refl)
application_Follows random m i (finishing v) = start_over-Follows m i [] (λ rest. refl)

work_quiet :
    (i : ℕ) (b : Bool) (some_calls other_calls rest : List Call)
    → after_calls (locks false (some i)) (some_calls ++ rest)
      ≡ after_calls (locks false (some i)) rest
    → after_calls (locks false (some i)) (other_calls ++ rest)
      ≡ after_calls (locks false (some i)) rest
    → after_calls (locks false (some i)) ((if b then some_calls else other_calls) ++ rest)
      ≡ after_calls (locks false (some i)) rest
work_quiet i true some_calls other_calls rest h g = h
work_quiet i false some_calls other_calls rest h g = g

passport_Follows :
    (random : ℕ) (m : List (Counter Papers)) (i : ℕ) (stage : ClerkStage)
    → ClerkFollows i (clerk_has i stage) (Passport.run random m i stage)
unfolding Passport.run
passport_Follows random m i choosing calls stage m' h =
    choose-Follows m i _ holding (λ v. refl) calls stage m' h
passport_Follows random m i (resting v) calls stage m' h = cc
passport_Follows random m i (holding v) calls stage m' h = give_back-Follows m i v calls stage m' h
passport_Follows random m i (waiting v) calls stage m' h =
    let (k, there, more) = >>=-eq-some (get_elem? m i) _ h in
    let (lacking, seen, last) = >>=-eq-some (lacks_papers k v.bribed) _ more in
    answer-Follows m i _ v (λ rest. work_quiet i lacking [] (wander 20 81 random) rest refl refl)
      calls stage m' last
passport_Follows random m i (finishing v) calls stage m' h =
    start_over-Follows m i [] (λ rest. refl) calls stage m' h

look_first-quiet :
    (i : ℕ) (k k1 : Counter Papers) (calls rest : List Call) (v : Visitor)
    → Cashier.look_first i k ≡ some (calls, v, k1)
    → after_calls (locks true none) (calls ++ rest) ≡ after_calls (locks true none) rest
unfolding Cashier.look_first
look_first-quiet i k k1 calls rest v h = elim (Bool-cases (less (pos 0) k.bribe_line_count)) [
  | inl bribes ↦
      let (ssn, first, last) = >>=-eq-some (front k.bribe_ssns) _ (rw bribes at h) in
      let made : signal (bribe_line_cv i) monitor_lock ∷ [] ≡ calls = cc in rw (sym made) refl
  | inr no_bribes ↦
      let last = rw no_bribes at h in let none_made : [] ≡ calls = cc in rw (sym none_made) refl
]

look_again-Follows :
    (m : List (Counter Papers)) (i : ℕ) (made : List Call) (v : Visitor) (k : Counter Papers)
    → ((rest : List Call)
        → after_calls (locks true none) (made ++ rest) ≡ after_calls (locks true none) rest)
    → ClerkFollows i (locks true none) (Cashier.look_again m i made v k)
unfolding Cashier.look_again
look_again-Follows m i made v k quiet calls stage m' h =
    elim (Bool-cases (less (pos 0) k.line_count)) [
      | inl waits ↦
          let (ssn, first, last) = >>=-eq-some (front k.ssns) _ (rw waits at h) in
          let v' : Visitor = record { ssn = some ssn; bribed = false } in
          let all : made ++ (signal (line_cv i) monitor_lock ∷ acquire (line_lock i) ∷ []) ≡ calls =
            cc in
          let to : holding v' ≡ stage = cc in rw (sym all, sym to) (quiet _)
      | inr empty ↦
          let last = rw empty at h in
          let all : made ++ (acquire (line_lock i) ∷ []) ≡ calls = cc in
          let to : holding v ≡ stage = cc in rw (sym all, sym to) (quiet _)
    ]

cashier_Follows :
    (random : ℕ) (m : List (Counter Papers)) (i : ℕ) (stage : ClerkStage)
    → ClerkFollows i (clerk_has i stage) (Cashier.run random m i stage)
unfolding Cashier.run Cashier.choose_both
cashier_Follows random m i choosing calls stage m' h =
    let (k, there, more) = >>=-eq-some (get_elem? m i) _ h in
    let ((made, v, k1), seen, last) = >>=-eq-some (Cashier.look_first i k) _ more in
    look_again-Follows m i made v k1 (λ rest. look_first-quiet i k k1 made rest v seen) calls stage
      m' last
cashier_Follows random m i (resting v) calls stage m' h = cc
cashier_Follows random m i (holding v) calls stage m' h = give_back-Follows m i v calls stage m' h
cashier_Follows random m i (waiting v) calls stage m' h =
    let (k, there, more) = >>=-eq-some (get_elem? m i) _ h in
    let (paid, seen, last) = >>=-eq-some (has_papers k v.bribed) _ more in
    answer-Follows m i _ v (λ rest. work_quiet i paid (wander 20 81 random) [] rest refl refl) calls
      stage m' last
cashier_Follows random m i (finishing v) calls stage m' h =
    start_over-Follows m i [] (λ rest. refl) calls stage m' h

-- The locks after a clerk's piece that begins with `h`, and those that go with where it leads to.
abbrev pub clerk_locks_after : {X : Type 0} → Held → ClerkPiece X → Option Held
clerk_locks_after h piece = piece >>= λ p. after_calls h p.0

abbrev pub clerk_locks_due : {X : Type 0} → ℕ → ClerkPiece X → Option Held
clerk_locks_due i piece = piece >>= λ p. some (clerk_has i p.1)

Follows-locks :
    {X : Type 0} (i : ℕ) (h : Held) (piece : ClerkPiece X)
    → ClerkFollows i h piece
    → clerk_locks_after h piece ≡ clerk_locks_due i piece
Follows-locks i h piece follows = elim (Option-cases piece) [
  | inl e ↦ rw e refl
  | inr (p, e) ↦ rw e (follows p.0 p.1 p.2 e)
]

-- A piece of an application clerk's, a passport clerk's or a cashier's code that begins with the locks
-- that go with where the clerk is, the monitor's or that of its own line, acquires the monitor's lock
-- only where it has it not, and a line's only where it has none, releases, waits and signals only
-- with one that it has, and ends with those that go with where it leads to.
pub clerks-locks :
    (random i : ℕ) (stage : ClerkStage) (application : List (Counter Unit))
    (passport cashier : List (Counter Papers))
    → (clerk_locks_after (clerk_has i stage) (Application.run random application i stage)
        ≡ clerk_locks_due i (Application.run random application i stage))
      × (clerk_locks_after (clerk_has i stage) (Passport.run random passport i stage)
          ≡ clerk_locks_due i (Passport.run random passport i stage))
      × (clerk_locks_after (clerk_has i stage) (Cashier.run random cashier i stage)
          ≡ clerk_locks_due i (Cashier.run random cashier i stage))
clerks-locks random i stage application passport cashier = (
  Follows-locks i _ _ (application_Follows random application i stage),
  Follows-locks i _ _ (passport_Follows random passport i stage),
  Follows-locks i _ _ (cashier_Follows random cashier i stage),
)

-- A picture clerk with both lines empty goes on break with the monitor's lock, in a `Wait` with the
-- line's lock, which it has not; even if it had that lock when it is woken, it would acquire it again.
pub picture_break-locks :
    (random i : ℕ) (m : List (Counter Bool)) (k : Counter Bool) (v : Visitor)
    → get_elem? m i ≡ some k
    → less (pos 0) k.bribe_line_count ≡ false
    → less (pos 0) k.line_count ≡ false
    → (clerk_locks_after (clerk_has i choosing) (Picture.run random m i choosing) ≡ none)
      × (clerk_locks_after (locks true (some i)) (Picture.run random m i (resting v)) ≡ none)
unfolding Picture.run choose
picture_break-locks random i m k v there no_bribes empty = (rw (there, no_bribes, empty) refl, refl)
