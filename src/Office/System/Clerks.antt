-- ===== src/Office/System/Clerks.antt =====
-- threads/threadtest.cc: what the clerks' pieces keep.
use csci350_project.Base.{
  ℕ, ◌≡◌, ap, subst, List, [], Bool, false, Bool-cases, inl, inr, none, some, >>=-eq-some,
  get_elem?, set,
}
use csci350_project.Base.Int.{pos, less}
use csci350_project.Office.{
  Call, busy, on_break, front, Counter, ClerkStage, Visitor, wander, choosing, resting, holding,
  waiting, finishing,
}
use csci350_project.Office.Application
use csci350_project.Office.Picture
use csci350_project.Office.Passport
use csci350_project.Office.Passport.{Papers, lacks_papers}
use csci350_project.Office.Cashier
use csci350_project.Office.Cashier.{has_papers}
use csci350_project.Office.Lines.{InLine, All, All-get, All-set}
use csci350_project.Office.Work.{
  ClerkKeeps, choose-ClerkKeeps, give_back-ClerkKeeps, answer-ClerkKeeps, start_over-ClerkKeeps,
}
use csci350_project.Office.System.Invariant.{Any, Matched, InLine-state}

pub application_clerk :
    (random : ℕ) (m : List (Counter Unit)) (i : ℕ) (stage : ClerkStage)
    → All (InLine Any) m
    → ClerkKeeps (InLine Any) (Application.run random m i stage)
unfolding Application.run
application_clerk random m i choosing all calls stage m' h =
    choose-ClerkKeeps (InLine Any) m all (InLine-state Any) _ holding i calls stage m' h
application_clerk random m i (resting v) all calls stage m' h = cc
application_clerk random m i (holding v) all calls stage m' h =
    give_back-ClerkKeeps (InLine Any) m all (InLine-state Any) i v calls stage m' h
application_clerk random m i (waiting v) all calls stage m' h =
    answer-ClerkKeeps (InLine Any) m all (InLine-state Any) _ i v calls stage m' h
application_clerk random m i (finishing v) all calls stage m' h =
    start_over-ClerkKeeps (InLine Any) m all (InLine-state Any) [] i calls stage m' h

pub picture_clerk :
    (random : ℕ) (m : List (Counter Bool)) (i : ℕ) (stage : ClerkStage)
    → All (InLine Any) m
    → ClerkKeeps (InLine Any) (Picture.run random m i stage)
unfolding Picture.run
picture_clerk random m i choosing all calls stage m' h =
    choose-ClerkKeeps (InLine Any) m all (InLine-state Any) _ resting i calls stage m' h
picture_clerk random m i (resting v) all calls stage m' h =
    let same : m ≡ m' = cc in subst (All (InLine Any)) same all
picture_clerk random m i (holding v) all calls stage m' h =
    give_back-ClerkKeeps (InLine Any) m all (InLine-state Any) i v calls stage m' h
picture_clerk random m i (waiting v) all calls stage m' h =
    let (k, there, rest) = >>=-eq-some (get_elem? m i) _ h in
    elim (Bool-cases k.own) [
      | inl taken ↦
          start_over-ClerkKeeps (InLine Any) m all (InLine-state Any) (wander 20 81 random) i calls
            stage m' (rw taken at rest)
      | inr again ↦
          let last = rw again at rest in let same : m ≡ m' = cc in subst (All (InLine Any)) same all
    ]
picture_clerk random m i (finishing v) all calls stage m' h = cc

pub passport_clerk :
    (random : ℕ) (m : List (Counter Papers)) (i : ℕ) (stage : ClerkStage)
    → All (InLine Matched) m
    → ClerkKeeps (InLine Matched) (Passport.run random m i stage)
unfolding Passport.run
passport_clerk random m i choosing all calls stage m' h =
    choose-ClerkKeeps (InLine Matched) m all (InLine-state Matched) _ holding i calls stage m' h
passport_clerk random m i (resting v) all calls stage m' h = cc
passport_clerk random m i (holding v) all calls stage m' h =
    give_back-ClerkKeeps (InLine Matched) m all (InLine-state Matched) i v calls stage m' h
passport_clerk random m i (waiting v) all calls stage m' h =
    let (k, there, more) = >>=-eq-some (get_elem? m i) _ h in
    let (lacking, seen, last) = >>=-eq-some (lacks_papers k v.bribed) _ more in
    answer-ClerkKeeps (InLine Matched) m all (InLine-state Matched) _ i v calls stage m' last
passport_clerk random m i (finishing v) all calls stage m' h =
    start_over-ClerkKeeps (InLine Matched) m all (InLine-state Matched) [] i calls stage m' h

look_first-ClerkKeeps :
    (i : ℕ) (k k1 : Counter Papers) (calls : List Call) (v : Visitor)
    → InLine Matched k
    → Cashier.look_first i k ≡ some (calls, v, k1)
    → InLine Matched k1
unfolding Cashier.look_first
look_first-ClerkKeeps i k k1 calls v ok h =
    let alone : less (pos 0) k.bribe_line_count ≡ false = ap (less (pos 0)) ok.no_bribes in
    let quiet : Cashier.look_first i k ≡ some ([], record { ssn = none; bribed = false }, k) =
      simp alone in
    let same : k ≡ k1 = cc in subst (InLine Matched) same ok

look_again-ClerkKeeps :
    (m : List (Counter Papers)) (i : ℕ) (calls : List Call) (v : Visitor) (k : Counter Papers)
    → All (InLine Matched) m
    → InLine Matched k
    → ClerkKeeps (InLine Matched) (Cashier.look_again m i calls v k)
unfolding Cashier.look_again
look_again-ClerkKeeps m i calls v k all ok calls' stage m' h =
    elim (Bool-cases (less (pos 0) k.line_count)) [
      | inl waits ↦
          let (ssn, first, last) = >>=-eq-some (front k.ssns) _ (rw waits at h) in
          let same : set m i (record k { clerk_state = busy }) ≡ m' = cc in
          subst (All (InLine Matched)) same
            (All-set (InLine Matched) m i _ all (InLine-state Matched k busy ok))
      | inr empty ↦
          let last = rw empty at h in
          let same : set m i (record k { clerk_state = on_break }) ≡ m' = cc in
          subst (All (InLine Matched)) same
            (All-set (InLine Matched) m i _ all (InLine-state Matched k on_break ok))
    ]

pub cashier_clerk :
    (random : ℕ) (m : List (Counter Papers)) (i : ℕ) (stage : ClerkStage)
    → All (InLine Matched) m
    → ClerkKeeps (InLine Matched) (Cashier.run random m i stage)
unfolding Cashier.run Cashier.choose_both
cashier_clerk random m i choosing all calls stage m' h =
    let (k, there, more) = >>=-eq-some (get_elem? m i) _ h in
    let ok = All-get (InLine Matched) m i k all there in
    let ((calls1, v, k1), seen, last) = >>=-eq-some (Cashier.look_first i k) _ more in
    look_again-ClerkKeeps m i calls1 v k1 all (look_first-ClerkKeeps i k k1 calls1 v ok seen) calls
      stage m' last
cashier_clerk random m i (resting v) all calls stage m' h = cc
cashier_clerk random m i (holding v) all calls stage m' h =
    give_back-ClerkKeeps (InLine Matched) m all (InLine-state Matched) i v calls stage m' h
cashier_clerk random m i (waiting v) all calls stage m' h =
    let (k, there, more) = >>=-eq-some (get_elem? m i) _ h in
    let (paid, seen, last) = >>=-eq-some (has_papers k v.bribed) _ more in
    answer-ClerkKeeps (InLine Matched) m all (InLine-state Matched) _ i v calls stage m' last
cashier_clerk random m i (finishing v) all calls stage m' h =
    start_over-ClerkKeeps (InLine Matched) m all (InLine-state Matched) [] i calls stage m' h
